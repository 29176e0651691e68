-- ===== src/Examples/Tag.antt =====
-- examples/tag.rs: a client that sends two tagged messages, and a server that receives them.
use async_ucx.Base.{ℕ, Bool, Option, List, [], ◌∷◌}
use async_ucx.Ffi.{Ucx, Call, M, ◌>>=◌, ◌>>◌, assert}
use async_ucx.Sync.{Channel}
use async_ucx.Worker.{connect_socket, accept}
use async_ucx.Transfer.{tag_send, tag_recv}
use async_ucx.Lifetimes.{arc, thing, listening, drop_thing}
use async_ucx.Examples.{
  unwrapped, started, end_endpoint, ended, sliced, read_buffer, next_connection, listening_on,
  shown,
}
use async_ucx.Examples.Bytes.{pattern_from, same_bytes}
use async_ucx.Examples.Stream.{hello}

module _ (ucx : Ucx) (am : Bool) (size fuel : ℕ) where
  unfoldable pub client : ℕ → M (Unit {0})
  client server_addr = do
    (context, worker) ← started ucx am size
    endpoint ← unwrapped (connect_socket ucx fuel worker server_addr)
    sent ← unwrapped (tag_send ucx fuel endpoint 100 hello)
    sent ← unwrapped (tag_send ucx fuel endpoint 101 (pattern_from 0 0x1000))
    end_endpoint worker endpoint (arc context.handle ∷ [])
    ended context worker

  module _ (C : Channel ℕ) (as_socket : ℕ → Option ℕ) (received : List Call → ℕ → List ℕ)
      (incoming : List Call → ℕ) where
    -- The text is compared as bytes.
    unfoldable pub server : (addr sender : ℕ) → M (Unit {0})
    server addr sender = do
      (context, worker) ← started ucx am size
      listener ← listening_on ucx C as_socket worker addr sender
      shown ucx C as_socket listener
      connection ← next_connection ucx incoming
      endpoint ← unwrapped (accept ucx fuel worker connection)
      len ← unwrapped (tag_recv ucx fuel worker.handle 100 0x1005)
      buf ← read_buffer received 0x1005
      msg ← sliced 0x1005 len buf
      assert (same_bytes msg hello)
      len ← unwrapped (tag_recv ucx fuel worker.handle 101 0x1005)
      buf ← read_buffer received 0x1005
      msg ← sliced 0x1005 len buf
      assert (same_bytes msg (pattern_from 0 0x1000))
      end_endpoint worker endpoint (thing (listening listener.handle) ∷ arc context.handle ∷ [])
      drop_thing (listening listener.handle)
      ended context worker
