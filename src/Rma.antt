-- ===== src/Rma.antt =====
-- src/ucp/endpoint/rma.rs: memory regions, packed keys and keys, from UCX and back to it. `put` and
-- `get` are in `Transfer`.
pub mod Balance
use async_ucx.Base.{ℕ, List}
use async_ucx.Ucs.{is_ok}
use async_ucx.Ffi.{Ucx, Call, M, ◌>>=◌, ◌>>◌, pure, assert, assume_init, ffi, ffi_unit}
use async_ucx.Endpoint.{Endpoint}

-- The context is its handle.
pub record MemoryHandle : Type 0 where
  pub handle : ℕ
  pub context : ℕ

pub record RKeyBuffer : Type 0 where
  pub buf : ℕ
  pub len : ℕ

pub record RKey : Type 0 where
  pub handle : ℕ

-- `Drop::drop` of the three types.
unfoldable pub drop_memory : MemoryHandle → M (Unit {0})
drop_memory m = ffi_unit (Call.mem_unmap m.context m.handle)

unfoldable pub drop_buffer : RKeyBuffer → M (Unit {0})
drop_buffer b = ffi_unit (Call.rkey_buffer_release b.buf)

unfoldable pub drop_key : RKey → M (Unit {0})
drop_key k = ffi_unit (Call.rkey_destroy k.handle)

module _ (ucx : Ucx) where
  -- `MemoryHandle::register`, on a region of `length` bytes at `address`.
  unfoldable pub register : (context address length : ℕ) → M MemoryHandle
  register context address length = do
    r ← ffi ucx (Call.mem_map context address length)
    assert (is_ok r.status)
    handle ← assume_init r.handle
    pure (record { handle = handle; context = context })

  unfoldable pub pack : MemoryHandle → M RKeyBuffer
  pack m = do
    r ← ffi ucx (Call.rkey_pack m.context m.handle)
    assert (is_ok r.status)
    buf ← assume_init r.handle
    len ← assume_init r.length
    pure (record { buf = buf; len = len })

  -- `RKey::unpack`; the handle of the endpoint is used whatever its status.
  unfoldable pub unpack : Endpoint → List ℕ → M RKey
  unpack e rkey_buffer = do
    r ← ffi ucx (Call.rkey_unpack e.handle rkey_buffer)
    assert (is_ok r.status)
    handle ← assume_init r.handle
    pure (record { handle = handle })
