-- ===== src/Examples/Stream.antt =====
-- examples/stream.rs: a client that sends a text over a stream, and a server that receives it.
use async_ucx.Base.{ℕ, Bool, Option, List, [], ◌∷◌}
use async_ucx.Ffi.{Ucx, Call, M, ◌>>=◌, ◌>>◌, pure}
use async_ucx.Sync.{Channel}
use async_ucx.Endpoint.{print_to_stderr}
use async_ucx.Worker.{connect_socket, accept}
use async_ucx.Transfer.{stream_send, stream_recv}
use async_ucx.Lifetimes.{arc, thing, listening, drop_thing}
use async_ucx.Examples.{
  unwrapped, started, end_endpoint, ended, sliced, read_buffer, next_connection, listening_on,
  shown,
}

-- `b"Hello!"`
abbrev pub hello : List ℕ
hello = 72 ∷ 101 ∷ 108 ∷ 108 ∷ 111 ∷ 33 ∷ []

module _ (ucx : Ucx) (am : Bool) (size fuel : ℕ) where
  unfoldable pub client : ℕ → M (Unit {0})
  client server_addr = do
    (context, worker) ← started ucx am size
    endpoint ← unwrapped (connect_socket ucx fuel worker server_addr)
    print_to_stderr endpoint
    sent ← unwrapped (stream_send ucx fuel endpoint hello)
    end_endpoint worker endpoint (arc context.handle ∷ [])
    ended context worker

  module _ (C : Channel ℕ) (as_socket : ℕ → Option ℕ) (received : List Call → ℕ → List ℕ)
      (incoming : List Call → ℕ) where
    unfoldable pub server : (addr sender : ℕ) → M (List ℕ)
    server addr sender = do
      (context, worker) ← started ucx am size
      listener ← listening_on ucx C as_socket worker addr sender
      shown ucx C as_socket listener
      connection ← next_connection ucx incoming
      endpoint ← unwrapped (accept ucx fuel worker connection)
      print_to_stderr endpoint
      len ← unwrapped (stream_recv ucx fuel endpoint 10)
      buf ← read_buffer received 10
      msg ← sliced 10 len buf
      end_endpoint worker endpoint (thing (listening listener.handle) ∷ arc context.handle ∷ [])
      drop_thing (listening listener.handle)
      ended context worker
      pure msg
