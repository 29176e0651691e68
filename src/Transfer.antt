-- ===== src/Transfer.antt =====
-- src/ucp/endpoint/stream.rs, tag.rs and rma.rs: the transfers over an endpoint or a worker, and
-- `am_send` of am.rs. A buffer to receive into is given by its room, since UCX fills it.

pub mod Sends
pub mod Receives
pub mod Steady
pub mod Borrows
use async_ucx.Base.{
  ℕ, suc, ◌+◌, ◌-◌, ◌^◌, Bool, true, false, Option, none, some, List, [], ◌∷◌, ◌++◌, ◌==◌, length,
  if◌then◌else◌,
}
use async_ucx.Error.{from_ptr}
use async_ucx.Ffi.{
  Ucx, AmFlag, Payload, Room, Call, M, ◌>>=◌, ◌>>◌, pure, lift, assume_init, raise_unwrap_err, ffi,
}
use async_ucx.Request.{
  is_ptr, poll_normal, poll_stream, poll_tag, await, finish_request, finish_send,
}
use async_ucx.Endpoint.{Endpoint, get_handle}

abbrev pub u64_max : ℕ
u64_max = 2 ^ 64 - 1

-- `iter().map(|v| v.len()).sum()`
unfoldable pub total_len : List (List ℕ) → ℕ
total_len [] = 0
total_len (b ∷ bs) = length b + total_len bs

-- `AmProto`
pub data AmProto : Type 0 where
  eager rndv : AmProto

-- The flags of `am_send`: the protocol that the caller asks for, and whether a reply is wanted.
unfoldable pub proto_flags : Option AmProto → List AmFlag
proto_flags (some AmProto.eager) = AmFlag.eager ∷ []
proto_flags (some AmProto.rndv) = AmFlag.rndv ∷ []
proto_flags none = []

-- A single buffer goes as contiguous bytes, any other number as a vector.
unfoldable pub am_payload : List (List ℕ) → Payload
am_payload (b ∷ []) = Payload.contig b
am_payload bs = Payload.iov bs

module _ (ucx : Ucx) (fuel : ℕ) where
  unfoldable pub stream_send : Endpoint → List ℕ → M ℕ
  stream_send e buf = do
    handle ← get_handle e
    r ← ffi ucx (Call.stream_send_nb handle (Payload.contig buf))
    finish_send ucx fuel r.pointer
    pure (length buf)

  unfoldable pub stream_recv : Endpoint → ℕ → M ℕ
  stream_recv e room = do
    handle ← get_handle e
    r ← ffi ucx (Call.stream_recv_nb handle (Room.contig room))
    if r.pointer == 0 then assume_init r.length else (do
      request ← is_ptr ucx r.pointer
      if request
          then await ucx (poll_stream ucx) r.pointer fuel
          else raise_unwrap_err (from_ptr ucx.abi r.pointer))

  unfoldable pub tag_recv_mask : ℕ → ℕ → ℕ → ℕ → M (ℕ × ℕ)
  tag_recv_mask worker tag tag_mask room = do
    r ← ffi ucx (Call.tag_recv_nb worker (Room.contig room) tag tag_mask)
    lift (from_ptr ucx.abi r.pointer)
    result ← await ucx (poll_tag ucx) r.pointer fuel
    lift result

  unfoldable pub tag_recv : ℕ → ℕ → ℕ → M ℕ
  unfolding tag_recv_mask
  tag_recv worker tag room = do info ← tag_recv_mask worker tag u64_max room; pure info.1

  unfoldable pub tag_recv_vectored : ℕ → ℕ → List ℕ → M ℕ
  tag_recv_vectored worker tag rooms = do
    r ← ffi ucx (Call.tag_recv_nb worker (Room.iov rooms) tag u64_max)
    lift (from_ptr ucx.abi r.pointer)
    result ← await ucx (poll_tag ucx) r.pointer fuel
    info ← lift result
    pure info.1

  unfoldable pub tag_send : Endpoint → ℕ → List ℕ → M ℕ
  tag_send e tag buf = do
    handle ← get_handle e
    r ← ffi ucx (Call.tag_send_nb handle (Payload.contig buf) tag)
    finish_send ucx fuel r.pointer
    pure (length buf)

  unfoldable pub tag_send_vectored : Endpoint → ℕ → List (List ℕ) → M ℕ
  tag_send_vectored e tag bufs = do
    handle ← get_handle e
    r ← ffi ucx (Call.tag_send_nb handle (Payload.iov bufs) tag)
    finish_send ucx fuel r.pointer
    pure (total_len bufs)

  unfoldable pub put : Endpoint → List ℕ → ℕ → ℕ → M (Unit {0})
  put e buf remote_addr rkey = do
    handle ← get_handle e
    r ← ffi ucx (Call.put_nb handle buf remote_addr rkey)
    finish_request ucx fuel r.pointer

  unfoldable pub get : Endpoint → ℕ → ℕ → ℕ → M (Unit {0})
  get e room remote_addr rkey = do
    handle ← get_handle e
    r ← ffi ucx (Call.get_nb handle room remote_addr rkey)
    finish_request ucx fuel r.pointer

  -- The function `am_send`, over a raw handle.
  unfoldable pub am_send_raw : ℕ → ℕ → List ℕ → List (List ℕ) → Bool → Option AmProto → M (Unit {0})
  am_send_raw handle id header bufs need_reply proto = do
    let flags = proto_flags proto ++ (if need_reply then AmFlag.reply ∷ [] else [])
    r ← ffi ucx (Call.am_send_nbx handle id header (am_payload bufs) flags)
    finish_send ucx fuel r.pointer

  unfoldable pub am_send_vectorized :
      Endpoint → ℕ → List ℕ → List (List ℕ) → Bool → Option AmProto → M (Unit {0})
  unfolding am_send_raw
  am_send_vectorized e id header bufs need_reply proto = do
    handle ← get_handle e
    am_send_raw handle id header bufs need_reply proto

  -- `Endpoint::am_send`
  unfoldable pub am_send : Endpoint → ℕ → List ℕ → List ℕ → Bool → Option AmProto → M (Unit {0})
  unfolding am_send_vectorized
  am_send e id header buf need_reply proto =
      am_send_vectorized e id header (buf ∷ []) need_reply proto
