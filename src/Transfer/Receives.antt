-- ===== src/Transfer/Receives.antt =====
-- The receives of stream.rs and tag.rs: how they end, and which statuses they look at.
use async_ucx.Base.{ℕ, ◌<◌, ◌≡◌, ◌≢◌, refl, ap, ◌∙◌, false, some, ◌==◌, arith}
use async_ucx.Ucs.{Status, is_ok, is_inprogress, ucs_ptr_is_err, ucs_status_ptr}
use async_ucx.Ucs.Codes.{ucs_ok, ucs_inprogress, unnamed}
use async_ucx.Error.{Error, Result, from_error, from_ptr}
use async_ucx.Error
use async_ucx.Error.Laws.{from_ptr-encoded, from_ptr_request}
use async_ucx.Ffi.{
  Ucx, Room, Call, Reply, World, Outcome, ok, err, proceed, ◌>>=◌, pure, lift, ffi, assume_init,
  running,
}
use async_ucx.Request.{ready, pending, poll_stream, poll_tag}
use async_ucx.Request.Await.{
  Completes, freed, await-Completes, InProgress, asked, Busy, Busy-Looked, Looked-Completes,
}
use async_ucx.Request.Finish.{is_ptr_lem}
use async_ucx.Endpoint.{Endpoint}
use async_ucx.Transfer.{stream_recv, tag_recv_mask}
use async_ucx.Transfer.Sends.{get_handle_healthy, after}

-- The outcome of a future that returned a `Result`.
abbrev pub result_outcome : {A : Type 0} → Result A → Outcome A
result_outcome (Error.Result.ok a) = ok a
result_outcome (Error.Result.err e) = err e

lift-lem : {A : Type 0} (r : Result A) (v : World) → lift r v ≡ (result_outcome r, v)
unfolding lift
lift-lem (Error.Result.ok a) v = refl
lift-lem (Error.Result.err e) v = refl

not_null_false : (p : ℕ) → p ≢ 0 → (p == 0) ≡ false
not_null_false p h = ground arith

not_inprogress : (s : Status) → s ≢ ucs_inprogress → is_inprogress s ≡ false
not_inprogress ucs_inprogress h = absurd (h refl)
not_inprogress _ h = refl

not_ok : (s : Status) → s ≢ ucs_ok → is_ok s ≡ false
not_ok ucs_ok h = absurd (h refl)
not_ok _ h = refl

module _ (ucx : Ucx) (p : ℕ) where
  abbrev pub stream_test : Call
  stream_test = Call.stream_recv_request_test p

  abbrev pub tag_test : Call
  tag_test = Call.tag_recv_request_test p

  poll_stream_pends :
      (w : World)
      → InProgress ucx stream_test p w
      → poll_stream ucx p w ≡ (ok pending, asked ucx stream_test p w)
  unfolding poll_stream running
  poll_stream_pends w h = rw h refl

  -- A test that is not UCS_INPROGRESS is over, whether it succeeded or not.
  poll_stream_ready :
      (w : World) (n : ℕ)
      → is_inprogress (ucx.reply w.trace stream_test).status ≡ false
      → (ucx.reply w.trace stream_test).length ≡ some n
      → poll_stream ucx p w ≡ (ok (ready n), asked ucx stream_test p w)
  unfolding poll_stream running
  poll_stream_ready w n over l = rw (over, l) refl

  poll_tag_pends :
      (w : World)
      → InProgress ucx tag_test p w
      → poll_tag ucx p w ≡ (ok pending, asked ucx tag_test p w)
  unfolding poll_tag running
  poll_tag_pends w h = rw h refl

  -- What a test of a tagged receive that is over means: the sender's tag and the length where its status is
  -- UCS_OK, and else the error of its status.
  pub data Tested (reply : Reply) : Outcome (ℕ × ℕ) → Type 0 where
    received :
        (tag length : ℕ)
        → reply.status ≡ ucs_ok
        → reply.tag ≡ some tag
        → reply.length ≡ some length
        → Tested reply (ok (tag, length))
    failed :
        (s : Status)
        → s ≢ ucs_ok
        → s ≢ ucs_inprogress
        → reply.status ≡ s
        → Tested reply (err (from_error s))

  -- The result that the poll function reads for an outcome.
  poll_tag_ready :
      (w : World) (o : Outcome (ℕ × ℕ))
      → Tested (ucx.reply w.trace tag_test) o
      → (r : Result (ℕ × ℕ)) × (result_outcome r ≡ o)
        × (poll_tag ucx p w ≡ (ok (ready r), asked ucx tag_test p w))
  unfolding poll_tag running
  poll_tag_ready w o (received tag length s t l) =
      (Error.Result.ok (tag, length), refl, rw (s, t, l) refl)
  poll_tag_ready w o (failed s a b e) =
      (Error.Result.err (from_error s), refl, rw (e, not_inprogress s b, not_ok s a) refl)

module _ (ucx : Ucx) (fuel : ℕ) where
  module _ (e : Endpoint) (room : ℕ) (w : World)
      (healthy : (w.inners e.inner).status ≡ ucs_ok) where
    abbrev pub stream_call : Call
    stream_call = Call.stream_recv_nb e.handle (Room.contig room)

    abbrev pub stream_reply : Reply
    stream_reply = ucx.reply w.trace stream_call

    -- A receive that is over at once returns the length that UCX wrote.
    pub stream_recv_at_once :
        (n : ℕ)
        → stream_reply.pointer ≡ 0
        → stream_reply.length ≡ some n
        → stream_recv ucx fuel e room w ≡ (ok n, after w stream_call)
    unfolding stream_recv ◌>>=◌ ffi assume_init
    stream_recv_at_once n z l = rw (get_handle_healthy e w healthy, proceed, z, l)

    -- Otherwise it returns the length that the first completed test of the request reads.
    pub stream_recv-Completes :
        (k n : ℕ) (v : World)
        → stream_reply.pointer ≢ 0
        → ucs_ptr_is_err ucx.abi stream_reply.pointer ≡ false
        → Completes ucx (poll_stream ucx) stream_reply.pointer (after w stream_call) k n v
        → k < fuel
        → stream_recv ucx fuel e room w ≡ (ok n, freed ucx (poll_stream ucx) stream_reply.pointer v)
    unfolding stream_recv ◌>>=◌ ffi pure
    stream_recv-Completes k n v z q c lt =
        rw
          (
            get_handle_healthy e w healthy,
            proceed,
            not_null_false stream_reply.pointer z,
            is_ptr_lem ucx stream_reply.pointer z,
            q,
          )
          (await-Completes ucx (poll_stream ucx) stream_reply.pointer fuel c lt)

    -- However long the request takes: if the first test that does not find it in progress has any error as
    -- its status, the receive takes it for a success, and returns `Ok` with the length that stands in the
    -- out-parameter.
    pub stream_recv_ignores_status :
        (k n : ℕ) (s : Status) (v : World)
        → stream_reply.pointer ≢ 0
        → ucs_ptr_is_err ucx.abi stream_reply.pointer ≡ false
        → Busy ucx
            (stream_test ucx stream_reply.pointer)
            stream_reply.pointer
            (after w stream_call)
            k
            v
        → k < fuel
        → s ≢ ucs_ok
        → s ≢ ucs_inprogress
        → (ucx.reply v.trace (stream_test ucx stream_reply.pointer)).status ≡ s
        → (ucx.reply v.trace (stream_test ucx stream_reply.pointer)).length ≡ some n
        → stream_recv ucx fuel e room w ≡ (
          ok n,
          freed ucx
              (poll_stream ucx)
              stream_reply.pointer
              (asked ucx (stream_test ucx stream_reply.pointer) stream_reply.pointer v),
        )
    stream_recv_ignores_status k n s v z q b lt bad busy st l =
        let p = stream_reply.pointer in
        stream_recv-Completes k n (asked ucx (stream_test ucx p) p v) z q
          (Looked-Completes ucx (poll_stream ucx) p (
            Busy-Looked ucx (stream_test ucx p) p (poll_stream ucx) (poll_stream_pends ucx p) b
              (poll_stream_ready ucx p v n (rw st (not_inprogress s busy)) l)))
          lt

  module _ (worker tag tag_mask room : ℕ) (w : World) where
    abbrev pub tag_call : Call
    tag_call = Call.tag_recv_nb worker (Room.contig room) tag tag_mask

    abbrev pub tag_reply : Reply
    tag_reply = ucx.reply w.trace tag_call

    -- A receive that UCX refuses returns UCX's error, and nothing is awaited or freed.
    pub tag_recv_mask_refused :
        (s : Status)
        → s ≢ ucs_ok
        → s ≢ ucs_inprogress
        → s ≢ unnamed
        → tag_reply.pointer ≡ ucs_status_ptr ucx.abi s
        → tag_recv_mask ucx fuel worker tag tag_mask room w ≡ (err (from_error s), after w tag_call)
    unfolding tag_recv_mask ◌>>=◌ ffi lift
    tag_recv_mask_refused s a b c z = rw (z, from_ptr-encoded ucx.abi s a b c)

    tag_recv_mask_ends :
        (k : ℕ) (r : Result (ℕ × ℕ)) (v : World)
        → ucs_ptr_is_err ucx.abi tag_reply.pointer ≡ false
        → Completes ucx (poll_tag ucx) tag_reply.pointer (after w tag_call) k r v
        → k < fuel
        → tag_recv_mask ucx fuel worker tag tag_mask room w
          ≡ (result_outcome r, freed ucx (poll_tag ucx) tag_reply.pointer v)
    unfolding tag_recv_mask ◌>>=◌ ffi
    tag_recv_mask_ends k r v q c lt =
        rw
          (
            from_ptr_request ucx.abi tag_reply.pointer q,
            lift-lem (Error.Result.ok tt),
            proceed,
            await-Completes ucx (poll_tag ucx) tag_reply.pointer fuel c lt,
          )
          (lift-lem r (freed ucx (poll_tag ucx) tag_reply.pointer v))

    -- However long the request takes, the receive ends as the first test says that does not find it in
    -- progress: with the sender's tag and the length in this order if its status is UCS_OK, and with the
    -- error of its status if not. The last call frees the request.
    pub tag_recv_mask-Tested :
        (k : ℕ) (o : Outcome (ℕ × ℕ)) (v : World)
        → ucs_ptr_is_err ucx.abi tag_reply.pointer ≡ false
        → Busy ucx (tag_test ucx tag_reply.pointer) tag_reply.pointer (after w tag_call) k v
        → k < fuel
        → Tested ucx tag_reply.pointer (ucx.reply v.trace (tag_test ucx tag_reply.pointer)) o
        → tag_recv_mask ucx fuel worker tag tag_mask room w ≡ (
          o,
          freed ucx
              (poll_tag ucx)
              tag_reply.pointer
              (asked ucx (tag_test ucx tag_reply.pointer) tag_reply.pointer v),
        )
    tag_recv_mask-Tested k o v q b lt t =
        let p = tag_reply.pointer in
        let (r, same, e) = poll_tag_ready ucx p v o t in
        let end = freed ucx (poll_tag ucx) p (asked ucx (tag_test ucx p) p v) in
        tag_recv_mask_ends k r (asked ucx (tag_test ucx p) p v) q
          (Looked-Completes ucx (poll_tag ucx) p
            (Busy-Looked ucx (tag_test ucx p) p (poll_tag ucx) (poll_tag_pends ucx p) b e))
          lt
        ∙ ap (λ (x : Outcome (ℕ × ℕ)). (x, end)) same
