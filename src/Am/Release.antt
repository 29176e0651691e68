-- ===== src/Am/Release.antt =====
-- Which data of an active message is kept for later, and which calls give it back: the receive
-- callback, `recv_data`, `recv_data_vectored`, `reply` and the drop of src/ucp/endpoint/am.rs.
use async_ucx.Base.{
  ℕ, ◌<◌, ◌≡◌, refl, bit_or, bit_and-or_iff, Bool, true, false, Option, none, some, List, [], ◌∷◌,
  length, is_empty, if◌then◌else◌, arith,
}
use async_ucx.Ucs.Codes.{ucs_ok, ucs_inprogress}
use async_ucx.Error.{Result, message_truncated}
use async_ucx.Error
use async_ucx.Ffi.{Ucx, Call, World, ok, panicked, pure, running}
use async_ucx.Transfer.{AmProto, total_len}
use async_ucx.Am.{
  AmAttr, Slice, AmData, has_flag, data_from_raw, RawMsg, msg_from_raw, callback_status, drop_msg,
  drop_content, drop_am_msg, need_reply, copy_data_to_iov, recv_taken, recv_data_vectored,
  recv_data_taken, recv_data, reply_vectorized, reply,
}
use async_ucx.Am

-- A message whose data UCX keeps until it is released.
abbrev pub is_kept : Option AmData → Bool
is_kept none = false
is_kept (some (AmData.eager _)) = false
is_kept (some (AmData.data_msg _)) = true
is_kept (some (AmData.rndv _)) = true

flag_or :
    (c : AmAttr) (attr : ℕ)
    → has_flag attr (bit_or c.flag_data c.flag_rndv)
      ≡ (if has_flag attr c.flag_data then true else has_flag attr c.flag_rndv)
flag_or c attr = ground (arith, bit_and-or_iff attr c.flag_data c.flag_rndv)

kept_or_not :
    (d r : Bool) (slice : Slice)
    → (if (if d then true else r) then ucs_inprogress else ucs_ok) ≡ (
        if is_kept (
          if d
          then some (AmData.data_msg slice)
          else if r
          then some (AmData.rndv slice)
          else some (AmData.eager slice.bytes))
        then ucs_inprogress
        else ucs_ok)
kept_or_not true r slice = refl
kept_or_not false true slice = refl
kept_or_not false false slice = refl

-- On data that is not empty, the receive callback asks UCX to keep it, by UCS_INPROGRESS, exactly if
-- the message has a descriptor that its receive or its drop releases.
pub callback_keeps :
    (c : AmAttr) (id : ℕ) (header : List ℕ) (slice : Slice) (reply_ep attr : ℕ)
    → is_empty slice.bytes ≡ false
    → callback_status c attr ≡ (
        if is_kept (msg_from_raw c id header slice reply_ep attr).content
        then ucs_inprogress
        else ucs_ok)
unfolding callback_status msg_from_raw data_from_raw
callback_keeps c id header slice reply_ep attr full =
    rw (flag_or c attr, full)
      (kept_or_not (has_flag attr c.flag_data) (has_flag attr c.flag_rndv) slice)

-- With the flag of data that must be released, but no byte of it, the callback asks UCX to keep the
-- descriptor and the message holds none, so that its drop releases nothing.
pub callback_forgets :
    (c : AmAttr) (id addr : ℕ) (header : List ℕ) (reply_ep attr worker : ℕ) (w : World)
    → has_flag attr c.flag_data ≡ true
    → let m = msg_from_raw c id header (record { addr = addr; bytes = [] }) reply_ep attr in
      (callback_status c attr ≡ ucs_inprogress)
      × (m.content ≡ none)
      × (drop_am_msg worker m w ≡ (ok tt, w))
unfolding callback_status msg_from_raw data_from_raw drop_am_msg drop_content pure
callback_forgets c id addr header reply_ep attr worker w h =
    (rw (flag_or c attr, h) refl, refl, refl)

module _ (ucx : Ucx) (landed : List Call → List (List ℕ) → List (List ℕ)) (fuel worker : ℕ)
    (m : RawMsg) (s : Slice) (w : World) (kept : m.content ≡ some (AmData.data_msg s)) where
  abbrev pub released : World
  released = record w { trace = Call.am_data_release worker s.addr ∷ w.trace }

  -- `recv_data` of a data message returns its bytes and releases the descriptor, and the drop of the
  -- message afterwards does not release it again.
  pub recv_data_releases :
      (recv_data ucx landed fuel worker m w
        ≡ (ok (Error.Result.ok s.bytes, record m { content = none }), released))
      × (drop_am_msg worker (record m { content = none }) released ≡ (ok tt, released))
  unfolding recv_data recv_data_taken drop_msg drop_am_msg drop_content running
  recv_data_releases = (rw kept, refl)

  -- `recv_data_vectored` of a data message into buffers that are too small returns an error with the
  -- data taken out of the message, and neither it nor the drop of the message releases the descriptor.
  pub recv_data_vectored_leaks :
      (iov : List (List ℕ))
      → total_len iov < length s.bytes
      → (recv_data_vectored ucx landed fuel worker m iov w
          ≡ (ok (Error.Result.err message_truncated, record m { content = none }), w))
        × (drop_am_msg worker (record m { content = none }) w ≡ (ok tt, w))
  unfolding recv_data_vectored recv_taken copy_data_to_iov Am.after_copy drop_am_msg drop_content
      running
  recv_data_vectored_leaks iov small = (rw kept (ground arith), refl)

  -- Into buffers with room it releases the descriptor, once, and returns what the copy returns.
  pub recv_data_vectored_releases :
      (iov : List (List ℕ)) (r : ℕ × List (List ℕ))
      → copy_data_to_iov s.bytes iov ≡ Error.Result.ok r
      → (recv_data_vectored ucx landed fuel worker m iov w
          ≡ (ok (Error.Result.ok r, record m { content = none }), released))
        × (drop_am_msg worker (record m { content = none }) released ≡ (ok tt, released))
  unfolding recv_data_vectored recv_taken Am.after_copy drop_msg drop_am_msg drop_content running
  recv_data_vectored_releases iov r copied = (rw (kept, copied), refl)

-- `reply` to a message that has no endpoint to reply to panics and sends nothing.
pub reply_needs_endpoint :
    (ucx : Ucx) (fuel : ℕ) (c : AmAttr) (m : RawMsg) (id : ℕ) (header bytes : List ℕ)
    (wants_reply : Bool) (proto : Option AmProto) (w : World)
    → need_reply c m ≡ false
    → reply ucx fuel c m id header bytes wants_reply proto w ≡ (panicked, w)
unfolding reply running
reply_needs_endpoint ucx fuel c m id header bytes wants_reply proto w h = rw h
