-- ===== src/Examples/Threads.antt =====
-- examples/bench-multi-thread.rs: clients that send without an end, and a server that hands the
-- connections to four threads in turn.
use async_ucx.Base.{ℕ, ◌%◌, Bool, not, Option, List, ◌==◌, length, update}
use async_ucx.Ffi.{Ucx, Call, M, ◌>>=◌, ◌>>◌, pure, undefined_if}
use async_ucx.Sync.{Channel}
use async_ucx.Endpoint
use async_ucx.Endpoint.{Endpoint, print_to_stderr}
use async_ucx.Worker.{Worker, connect_socket, accept}
use async_ucx.Transfer.{tag_send, tag_recv}
use async_ucx.Listener
use async_ucx.Examples.{unwrapped, started, read_buffer}
use async_ucx.Examples.Bench.{forever}
use async_ucx.Examples.Bytes.{pattern_from, from_ne_bytes}

module _ (ucx : Ucx) (am : Bool) (size fuel : ℕ) (big : Bool) (rounds : ℕ) where
  -- A round of the client.
  unfoldable pub send_on : Endpoint → ℕ → M (Unit {0})
  send_on endpoint tag = do
    sent ← unwrapped (tag_send ucx fuel endpoint tag (pattern_from 0 8))
    pure tt

  unfoldable pub client : (List Call → ℕ → List ℕ) → ℕ → M (Unit {0})
  unfolding send_on
  client received server_addr = do
    (context, worker) ← started ucx am size
    endpoint ← unwrapped (connect_socket ucx fuel worker server_addr)
    print_to_stderr endpoint
    owner ← Endpoint.worker endpoint
    len ← unwrapped (tag_recv ucx fuel owner 100 8)
    tag ← read_buffer received 8
    undefined_if (not (length tag == 8))
    forever rounds (send_on endpoint (from_ne_bytes big tag))

  -- What a thread does with a connection that it has received.
  unfoldable pub receive_connection :
      (C : Channel ℕ) → (ℕ → Option ℕ) → Worker → ℕ → M (ℕ × Endpoint)
  receive_connection C as_socket worker conn = do
    addr ← unwrapped (Listener.remote_addr C ucx as_socket conn)
    ep ← unwrapped (accept ucx fuel worker conn)
    pure (addr, ep)

module _ (C : Channel ℕ) where
  -- `WorkerThread::accept`, on the channel of the thread; `false` is a panic.
  unfoldable pub accept_on : ℕ → C.State → Bool × C.State
  accept_on conn s = C.send conn s

  -- A connection of the loop in `server`, by the number of the connections before it.
  unfoldable pub hand_over : ℕ → ℕ → (ℕ → C.State) → Bool × (ℕ → C.State)
  unfolding accept_on
  hand_over i conn threads =
      let (sent, s) = accept_on conn (threads (i % 4)) in (sent, update threads (i % 4) s)
