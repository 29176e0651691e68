-- ===== src/Am.antt =====
-- src/ucp/endpoint/am.rs: the data of an active message, the messages, and their release.

pub mod Copy
pub mod Release
use async_ucx.Base.{
  ℕ, ◌+◌, ◌-◌, min, bit_and, bit_or, Bool, true, false, not, ◌&&◌, Option, none, some, List, [],
  ◌∷◌, ◌++◌, ◌==◌, ltb, length, is_empty, take, drop, replicate, if◌then◌else◌,
}
use async_ucx.Ucs.{Status}
use async_ucx.Ucs.Codes.{ucs_ok, ucs_inprogress}
use async_ucx.Error.{message_truncated, Result, ok, err, from_ptr}
use async_ucx.Ffi.{
  Ucx, Room, Call, M, ◌>>=◌, ◌>>◌, pure, raise_unwrap_err, assert, catch, ffi, ffi_unit, coming,
}
use async_ucx.Ffi
use async_ucx.Request.{is_ptr, poll_recv, await}
use async_ucx.Transfer.{AmProto, total_len, am_send_raw}

-- The generated flags of `ucp_am_recv_attr_t` that the code tests.
pub record AmAttr : Type 0 where
  pub flag_data : ℕ
  pub flag_rndv : ℕ
  pub field_reply_ep : ℕ

-- A `&'static [u8]`: what UCX passed by address.
pub record Slice : Type 0 where
  pub addr : ℕ
  pub bytes : List ℕ

-- `AmDataType::{Eager, Data, Rndv}` and `AmData`.
pub data AmDataType : Type 0 where
  eager data_msg rndv : AmDataType

pub data AmData : Type 0 where
  eager : List ℕ → AmData
  data_msg rndv : Slice → AmData

-- `attr & flag != 0`
abbrev pub has_flag : ℕ → ℕ → Bool
has_flag attr flag = not (bit_and attr flag == 0)

unfoldable pub data_from_raw : AmAttr → Slice → ℕ → Option AmData
data_from_raw c slice attr =
    if is_empty slice.bytes
    then none
    else if has_flag attr c.flag_data
    then some (AmData.data_msg slice)
    else if has_flag attr c.flag_rndv
    then some (AmData.rndv slice)
    else some (AmData.eager slice.bytes)

unfoldable pub data_type : AmData → AmDataType
data_type (AmData.eager _) = AmDataType.eager
data_type (AmData.data_msg _) = AmDataType.data_msg
data_type (AmData.rndv _) = AmDataType.rndv

-- `AmData::data` and `AmData::len`
unfoldable pub data_bytes : AmData → Option (List ℕ)
data_bytes (AmData.eager bytes) = some bytes
data_bytes (AmData.data_msg s) = some s.bytes
data_bytes (AmData.rndv _) = none

unfoldable pub len : AmData → ℕ
len (AmData.eager bytes) = length bytes
len (AmData.data_msg s) = length s.bytes
len (AmData.rndv desc) = length desc.bytes

-- `RawMsg`; the field `data` of the source is `content`.
pub record RawMsg : Type 0 where
  pub id : ℕ
  pub header : List ℕ
  pub content : Option AmData
  pub reply_ep : ℕ
  pub attr : ℕ

unfoldable pub msg_from_raw : AmAttr → ℕ → List ℕ → Slice → ℕ → ℕ → RawMsg
unfolding data_from_raw
msg_from_raw c id header slice reply_ep attr = record {
  id = id;
  header = header;
  content = data_from_raw c slice attr;
  reply_ep = reply_ep;
  attr = attr;
}

-- The status that the receive callback of `am_stream` returns: UCS_INPROGRESS keeps the data alive.
unfoldable pub callback_status : AmAttr → ℕ → Status
callback_status c attr =
    if has_flag attr (bit_or c.flag_data c.flag_rndv) then ucs_inprogress else ucs_ok

-- The methods of `AmMsg` that only look; the worker of the message is an argument where it is used.
unfoldable pub contains_data : RawMsg → Bool
contains_data m = elim m.content [ none ↦ false | some _ ↦ true ]

unfoldable pub msg_data_type : RawMsg → Option AmDataType
msg_data_type m = elim m.content [ none ↦ none | some d ↦ some (data_type d) ]

unfoldable pub get_data : RawMsg → Option (List ℕ)
get_data m = elim m.content [ none ↦ some [] | some d ↦ data_bytes d ]

unfoldable pub data_len : RawMsg → ℕ
data_len m = elim m.content [ none ↦ 0 | some d ↦ len d ]

unfoldable pub need_reply : AmAttr → RawMsg → Bool
need_reply c m = has_flag m.attr c.field_reply_ep && not (m.reply_ep == 0)

-- The loop of `copy_data_to_iov`, with the number of bytes copied so far: the final number, and the
-- buffers. It ends at the first buffer that takes no byte.
unfoldable pub copy_from : ℕ → List ℕ → List (List ℕ) → ℕ × List (List ℕ)
copy_from copied bytes [] = (copied, [])
copy_from copied bytes (buf ∷ bufs) =
    let n = min (length bytes - copied) (length buf) in
    let rest = copy_from (copied + n) bytes bufs in
    if n == 0
    then (copied, buf ∷ bufs)
    else (rest.0, (take n (drop copied bytes) ++ drop n buf) ∷ rest.1)

unfoldable pub copy_data_to_iov : List ℕ → List (List ℕ) → Result (ℕ × List (List ℕ))
copy_data_to_iov bytes iov =
    if ltb (total_len iov) (length bytes) then err message_truncated else ok (copy_from 0 bytes iov)

-- `AmMsg::drop_msg`
unfoldable pub drop_msg : ℕ → AmData → M (Unit {0})
drop_msg worker (AmData.eager _) = pure tt
drop_msg worker (AmData.data_msg s) = ffi_unit (Call.am_data_release worker s.addr)
drop_msg worker (AmData.rndv s) = ffi_unit (Call.am_data_release worker s.addr)

-- `Drop::drop` of `AmMsg`
unfoldable pub drop_content : ℕ → Option AmData → M (Unit {0})
drop_content worker none = pure tt
drop_content worker (some d) = drop_msg worker d

unfoldable pub drop_am_msg : ℕ → RawMsg → M (Unit {0})
unfolding drop_content
drop_am_msg worker m = drop_content worker m.content

-- One buffer is received into as contiguous bytes, any other number as a vector.
unfoldable pub lengths : List (List ℕ) → List ℕ
lengths [] = []
lengths (b ∷ bs) = length b ∷ lengths bs

unfoldable pub room_of : List (List ℕ) → Room
unfolding lengths
room_of (b ∷ []) = Room.contig (length b)
room_of bs = Room.iov (lengths bs)

-- What a receive returns: the result, which has the number of bytes and the buffers, and the message,
-- which a method changes also where it fails.
abbrev pub Received : Type 0
Received = Result (ℕ × List (List ℕ)) × RawMsg

-- After the copy of a data message: a copy that failed returns with `?`, before the release.
unfoldable pub after_copy : ℕ → Slice → RawMsg → Result (ℕ × List (List ℕ)) → M Received
after_copy worker s m (err x) = pure (err x, m)
after_copy worker s m (ok r) = do drop_msg worker (AmData.data_msg s); pure (ok r, m)

unfoldable pub first_bytes : ℕ → List (List ℕ) → List ℕ
first_bytes n [] = []
first_bytes n (buf ∷ _) = take n buf

-- The end of `recv_data`: the buffer is cut to the bytes received.
unfoldable pub truncated : Received → Result (List ℕ) × RawMsg
unfolding first_bytes
truncated (ok (n, bufs), m) = (ok (first_bytes n bufs), m)
truncated (err x, m) = (err x, m)

abbrev pub without_content : RawMsg → RawMsg
without_content m = record m { content = none }

-- `landed` says what a rendezvous has written to the buffers by the time it is complete.
module _ (ucx : Ucx) (landed : List Call → List (List ℕ) → List (List ℕ)) (fuel worker : ℕ) where
  unfoldable pub landed_now : ℕ → List (List ℕ) → M (ℕ × List (List ℕ))
  landed_now n iov w = (Ffi.ok (n, landed w.trace iov), w)

  -- The rendezvous branch of `recv_data_vectored`.
  unfoldable pub recv_rndv : Slice → List (List ℕ) → M (ℕ × List (List ℕ))
  recv_rndv desc iov = do
    r ← ffi ucx (Call.am_recv_data_nbx worker desc.addr (room_of iov))
    if r.pointer == 0 then landed_now (length desc.bytes) iov else (do
      request ← is_ptr ucx r.pointer
      if request
          then (do await ucx (poll_recv ucx) r.pointer fuel; landed_now (length desc.bytes) iov)
          else raise_unwrap_err (from_ptr ucx.abi r.pointer))

  -- `recv_data_vectored` on the data that it took out of the message `m`.
  unfoldable pub recv_taken : Option AmData → RawMsg → List (List ℕ) → M Received
  recv_taken none m iov = pure (ok (0, iov), m)
  recv_taken (some (AmData.eager bytes)) m iov = pure (copy_data_to_iov bytes iov, m)
  recv_taken (some (AmData.data_msg s)) m iov = after_copy worker s m (copy_data_to_iov s.bytes iov)
  recv_taken (some (AmData.rndv desc)) m iov = do
    result ← catch (recv_rndv desc iov)
    pure (result, m)

  unfoldable pub recv_data_vectored : RawMsg → List (List ℕ) → M Received
  unfolding recv_taken
  recv_data_vectored m iov = recv_taken m.content (without_content m) iov

  unfoldable pub recv_data_single : RawMsg → List ℕ → M Received
  unfolding recv_data_vectored contains_data
  recv_data_single m buf =
      if contains_data m then recv_data_vectored m (buf ∷ []) else pure (ok (0, buf ∷ []), m)

  -- `recv_data`, on the data that it took out. A rendezvous puts it back and receives into a buffer of
  -- its length, whose contents are not set (zeros here).
  unfoldable pub recv_data_taken : Option AmData → RawMsg → M (Result (List ℕ) × RawMsg)
  recv_data_taken none m = pure (ok [], m)
  recv_data_taken (some (AmData.eager bytes)) m = pure (ok bytes, without_content m)
  recv_data_taken (some (AmData.data_msg s)) m = do
    drop_msg worker (AmData.data_msg s)
    pure (ok s.bytes, without_content m)
  recv_data_taken (some (AmData.rndv desc)) m = do
    received ← recv_data_single m (replicate (data_len m) 0)
    pure (truncated received)

  unfoldable pub recv_data : RawMsg → M (Result (List ℕ) × RawMsg)
  unfolding recv_data_taken
  recv_data m = recv_data_taken m.content m

-- `reply_vectorized` and `reply`; both check that the message can be answered.
module _ (ucx : Ucx) (fuel : ℕ) (c : AmAttr) where
  unfoldable pub reply_vectorized :
      RawMsg → ℕ → List ℕ → List (List ℕ) → Bool → Option AmProto → M (Unit {0})
  reply_vectorized m id header bufs wants_reply proto = do
    assert (need_reply c m)
    am_send_raw ucx fuel m.reply_ep id header bufs wants_reply proto

  unfoldable pub reply : RawMsg → ℕ → List ℕ → List ℕ → Bool → Option AmProto → M (Unit {0})
  unfolding reply_vectorized
  reply m id header bytes wants_reply proto = do
    assert (need_reply c m)
    reply_vectorized m id header (bytes ∷ []) wants_reply proto
