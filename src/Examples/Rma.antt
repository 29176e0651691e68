-- ===== src/Examples/Rma.antt =====
-- examples/rma.rs: a client that opens a region of memory to the server, and a server that reads it.
use async_ucx.Base.{ℕ, Bool, Option, List, [], ◌∷◌, ◌==◌}
use async_ucx.Ffi.{Ucx, Call, M, ◌>>=◌, ◌>>◌, assert}
use async_ucx.Sync.{Channel}
use async_ucx.Endpoint.{Endpoint, print_to_stderr}
use async_ucx.Context.{Context}
use async_ucx.Worker.{Worker, connect_socket, accept}
use async_ucx.Transfer.{stream_send, stream_recv, get}
use async_ucx.Rma.{register, pack, unpack}
use async_ucx.Lifetimes.{rc, arc, thing, listening, packed, unpacked, drop_thing, drop_region}
use async_ucx.Examples.{
  unwrapped, started, end_endpoint, ended, sliced, read_buffer, next_connection, listening_on,
  shown,
}
use async_ucx.Examples.Bytes.{pattern_from, same_bytes, to_ne_bytes, from_ne_bytes}

module _ (ucx : Ucx) (am : Bool) (size fuel : ℕ) (big : Bool) where
  -- `address` is that of the client's buffer, and `key_bytes` what stands at the address of a packed key.
  unfoldable pub client : (address : ℕ) → (key_bytes : ℕ → ℕ → List ℕ) → ℕ → M (Unit {0})
  client address key_bytes server_addr = do
    (context, worker) ← started ucx am size
    endpoint ← unwrapped (connect_socket ucx fuel worker server_addr)
    print_to_stderr endpoint
    mem ← register ucx context.handle address 0x1000
    sent ← unwrapped (stream_send ucx fuel endpoint (to_ne_bytes big address))
    key ← pack ucx mem
    sent ← unwrapped (stream_send ucx fuel endpoint (key_bytes key.buf key.len))
    drop_thing (packed key.buf)
    len ← unwrapped (stream_recv ucx fuel endpoint 1)
    drop_region mem.context mem.handle
        (rc worker.handle worker.context.handle 2 ∷ arc context.handle ∷ [])
    end_endpoint worker endpoint (arc context.handle ∷ [])
    ended context worker

  module _ (received : List Call → ℕ → List ℕ) where
    -- The server, from the first receive on; `len` is its result.
    unfoldable pub served : Context → Worker → (listener : ℕ) → Endpoint → ℕ → M (Unit {0})
    served context worker listener endpoint len = do
      assert (len == 8)
      vaddr_buf ← read_buffer received 8
      len ← unwrapped (stream_recv ucx fuel endpoint 100)
      rkey_buf ← read_buffer received 100
      key ← sliced 100 len rkey_buf
      rkey ← unpack ucx endpoint key
      unwrapped (get ucx fuel endpoint 0x1000 (from_ne_bytes big vaddr_buf) rkey.handle)
      buf ← read_buffer received 0x1000
      assert (same_bytes buf (pattern_from 0 0x1000))
      sent ← unwrapped (stream_send ucx fuel endpoint (0 ∷ []))
      drop_thing (unpacked rkey.handle)
      end_endpoint worker endpoint (thing (listening listener) ∷ arc context.handle ∷ [])
      drop_thing (listening listener)
      ended context worker

    module _ (C : Channel ℕ) (as_socket : ℕ → Option ℕ) (incoming : List Call → ℕ) where
      unfoldable pub server : (addr sender : ℕ) → M (Unit {0})
      unfolding served
      server addr sender = do
        (context, worker) ← started ucx am size
        listener ← listening_on ucx C as_socket worker addr sender
        shown ucx C as_socket listener
        connection ← next_connection ucx incoming
        endpoint ← unwrapped (accept ucx fuel worker connection)
        print_to_stderr endpoint
        len ← unwrapped (stream_recv ucx fuel endpoint 8)
        served context worker listener.handle endpoint len
