-- ===== src/Examples/Bench.antt =====
-- examples/bench.rs: clients that send a message and wait for its answer for ever, and a server that
-- gives each a number; the tasks that answer them are left out.
use async_ucx.Base.{
  ℕ, zero, suc, ◌+◌, ◌%◌, Bool, ◌&&◌, Option, none, some, List, [], ◌∷◌, leb, if◌then◌else◌,
}
use async_ucx.Ffi.{Ucx, Call, M, ◌>>=◌, ◌>>◌, pure, starve, assume_init, or_panic}
use async_ucx.Sync.{Channel, head}
use async_ucx.Endpoint
use async_ucx.Endpoint.{Endpoint, print_to_stderr}
use async_ucx.Worker.{Worker, connect_socket, accept}
use async_ucx.Transfer.{tag_send, tag_recv}
use async_ucx.Listener
use async_ucx.Examples.{unwrapped, started, read_buffer, next_connection, listening_on, shown}
use async_ucx.Examples.Bytes.{pattern_from}

-- `loop`, for a number of rounds.
unfoldable pub forever : ℕ → M (Unit {0}) → M (Unit {0})
forever zero m = starve
forever (suc n) m = m >> forever n m

-- The number in `for i in 0u8..` after this one: it is computed before this one is handed out.
unfoldable pub next_number : Ucx → ℕ → Option ℕ
next_number ucx i = if ucx.checks && leb 255 i then none else some ((i + 1) % 256)

-- `i as u64 + 200`
unfoldable pub tag_of : ℕ → ℕ
tag_of i = i + 200

module _ (ucx : Ucx) (am : Bool) (size fuel : ℕ) where
  -- A round of the client.
  unfoldable pub exchange : Endpoint → ℕ → M (Unit {0})
  exchange endpoint tag = do
    sent ← unwrapped (tag_send ucx fuel endpoint tag (pattern_from 0 47008))
    worker ← Endpoint.worker endpoint
    len ← unwrapped (tag_recv ucx fuel worker tag 1)
    pure tt

  module _ (received : List Call → ℕ → List ℕ) (rounds : ℕ) where
    unfoldable pub client : ℕ → M (Unit {0})
    unfolding tag_of
    client server_addr = do
      (context, worker) ← started ucx am size
      endpoint ← unwrapped (connect_socket ucx fuel worker server_addr)
      print_to_stderr endpoint
      owner ← Endpoint.worker endpoint
      len ← unwrapped (tag_recv ucx fuel owner 100 1)
      id ← read_buffer received 1
      number ← assume_init (head id)
      forever rounds (exchange endpoint (tag_of number))

  module _ (C : Channel ℕ) (as_socket : ℕ → Option ℕ) (incoming : List Call → ℕ) where
    -- A connection, up to the task that it gets, which answers its messages and counts them.
    unfoldable pub greet : Worker → ℕ → M Endpoint
    greet worker i = do
      conn ← next_connection ucx incoming
      addr ← unwrapped (Listener.remote_addr C ucx as_socket conn)
      ep ← unwrapped (accept ucx fuel worker conn)
      sent ← unwrapped (tag_send ucx fuel ep 100 (i ∷ []))
      pure ep

    -- The loop over the connections, for a number of them, without the tasks that it spawns.
    unfoldable pub greetings : ℕ → Worker → ℕ → M (Unit {0})
    unfolding greet next_number
    greetings zero worker i = starve
    greetings (suc n) worker i = do
      next ← or_panic (next_number ucx i)
      ep ← greet worker i
      greetings n worker next

    unfoldable pub server : ℕ → (addr sender : ℕ) → M (Unit {0})
    unfolding greetings
    server connections addr sender = do
      (context, worker) ← started ucx am size
      listener ← listening_on ucx C as_socket worker addr sender
      shown ucx C as_socket listener
      greetings connections worker 0
