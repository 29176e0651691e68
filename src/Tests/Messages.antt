-- ===== src/Tests/Messages.antt =====
-- Runs on active messages.
use async_ucx.Base.{ℕ, ◌<◌, ◌≡◌, refl, none, some, List, [], ◌∷◌, ◌++◌, drop, ◌⊎◌, arith}
use async_ucx.Ucs.Codes.{ucs_inprogress}
use async_ucx.Error.{Result, message_truncated}
use async_ucx.Error
use async_ucx.Ffi.{Call, ok}
use async_ucx.Transfer.{total_len}
use async_ucx.Am.{
  AmAttr, Slice, AmData, data_from_raw, RawMsg, msg_from_raw, callback_status, drop_am_msg,
  copy_data_to_iov, copy_from, recv_data_vectored,
}
use async_ucx.Am.Copy.{joined, copy_data_to_iov_lem}
use async_ucx.Am.Release.{callback_keeps, recv_data_vectored_leaks, recv_data_vectored_releases}
use async_ucx.Tests.Setup.{calm, one_open}

abbrev flags : AmAttr
flags = record { flag_data = 2; flag_rndv = 4; field_reply_ep = 1 }

abbrev bytes : List ℕ
bytes = 7 ∷ 8 ∷ 9 ∷ []

abbrev slice : Slice
slice = record { addr = 64; bytes = bytes }

abbrev message : RawMsg
message = record {
  id = 5;
  header = [];
  content = some (AmData.data_msg slice);
  reply_ep = 0;
  attr = 2;
}

abbrev landed : List Call → List (List ℕ) → List (List ℕ)
landed t iov = iov

abbrev buffers : List (List ℕ)
buffers = (0 ∷ 0 ∷ []) ∷ (0 ∷ 0 ∷ []) ∷ []

callback_keeps_example : callback_status flags 2 ≡ ucs_inprogress
unfolding msg_from_raw data_from_raw
callback_keeps_example = callback_keeps flags 5 [] slice 0 2 refl

copy_data_to_iov_lem_example :
    ((total_len buffers < 3)
      × (copy_data_to_iov bytes buffers ≡ Error.Result.err message_truncated))
    ⊎ ((out : List (List ℕ)) × (copy_data_to_iov bytes buffers ≡ Error.Result.ok (3, out))
        × (joined out ≡ bytes ++ drop 3 (joined buffers)))
copy_data_to_iov_lem_example = copy_data_to_iov_lem bytes buffers (omega arith, (omega arith, tt))

recv_data_vectored_leaks_example :
    (recv_data_vectored calm landed 2 3 message ((0 ∷ []) ∷ []) one_open
      ≡ (ok (Error.Result.err message_truncated, record message { content = none }), one_open))
    × (drop_am_msg 3 (record message { content = none }) one_open ≡ (ok tt, one_open))
unfolding total_len
recv_data_vectored_leaks_example =
    recv_data_vectored_leaks calm landed 2 3 message slice one_open refl ((0 ∷ []) ∷ [])
      (omega arith)

abbrev copied : List (List ℕ)
copied = (7 ∷ 8 ∷ []) ∷ (9 ∷ 0 ∷ []) ∷ []

copies : copy_data_to_iov bytes buffers ≡ Error.Result.ok (3, copied)
unfolding copy_data_to_iov copy_from total_len
copies = refl

recv_data_vectored_releases_example :
    (recv_data_vectored calm landed 2 3 message buffers one_open ≡ (
      ok (Error.Result.ok (3, copied), record message { content = none }),
      record one_open { trace = Call.am_data_release 3 64 ∷ [] },
    ))
    × (drop_am_msg 3
          (record message { content = none })
          (record one_open { trace = Call.am_data_release 3 64 ∷ [] })
        ≡ (ok tt, record one_open { trace = Call.am_data_release 3 64 ∷ [] }))
recv_data_vectored_releases_example =
    recv_data_vectored_releases calm landed 2 3 message slice one_open refl buffers (3, copied)
      copies
