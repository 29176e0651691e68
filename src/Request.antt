-- ===== src/Request.antt =====
-- src/ucp/endpoint/mod.rs, stream.rs, tag.rs and am.rs: waiting for a request. `RequestHandle` is the
-- future, and a `poll_fn` asks UCX how its request stands.
pub mod Await
pub mod Finish
pub mod Steady
pub mod Wakers
pub mod Dropped
use async_ucx.Base.{Bool, ◌==◌, ℕ, zero, suc, Bool, true, false, if◌then◌else◌}
use async_ucx.Ucs.{is_ok, is_inprogress, ucs_ptr_is_ptr}
use async_ucx.Error.{Result, ok, err, from_error, from_status, from_ptr}
use async_ucx.Ffi.{
  Ucx, Call, Reply, World, Outcome, starve, M, ◌>>=◌, ◌>>◌, pure, ffi, ffi_unit, assume_init, lift,
  or_panic, raise_unwrap_err,
}
use async_ucx.EndpointInner.{suspend}

-- `std::task::Poll`
pub data Poll (A : Type 0) : Type 0 where
  ready : A → Poll A
  pending : Poll A

module _ (ucx : Ucx) where
  unfoldable pub poll_normal : ℕ → M (Poll (Result (Unit {0})))
  poll_normal ptr = do
    r ← ffi ucx (Call.request_check_status ptr)
    pure (if is_inprogress r.status then pending else ready (from_status r.status))

  -- The length is read whatever the status.
  unfoldable pub poll_stream : ℕ → M (Poll ℕ)
  poll_stream ptr = do
    r ← ffi ucx (Call.stream_recv_request_test ptr)
    if is_inprogress r.status
        then pure pending
        else (do len ← assume_init r.length; pure (ready len))

  unfoldable pub poll_tag : ℕ → M (Poll (Result (ℕ × ℕ)))
  poll_tag ptr = do
    r ← ffi ucx (Call.tag_recv_request_test ptr)
    if is_inprogress r.status
        then pure pending
        else if is_ok r.status
        then (do tag ← assume_init r.tag; len ← assume_init r.length; pure (ready (ok (tag, len))))
        else pure (ready (err (from_error r.status)))

  unfoldable pub poll_recv : ℕ → M (Poll (Unit {0}))
  poll_recv ptr = do
    r ← ffi ucx (Call.request_check_status ptr)
    pure (if is_inprogress r.status then pending else ready tt)

module _ {A : Type 0} (poll_fn : ℕ → M (Poll A)) (ptr : ℕ) where
  -- `RequestHandle::poll`: look; if it is not ready, leave the waker in the request and look again.
  unfoldable pub second_poll : Poll A → M (Poll A)
  second_poll (ready a) = pure (ready a)
  second_poll pending = ffi_unit (Call.waker_register ptr) >> poll_fn ptr

  unfoldable pub poll : M (Poll A)
  unfolding second_poll
  poll = poll_fn ptr >>= second_poll

-- What follows a poll: if it is ready the handle is dropped, which frees the request; if not, the
-- task waits until its waker is called, and goes on with `again`.
unfoldable pub after_poll : Ucx → {A : Type 0} → ℕ → M A → Poll A → M A
after_poll ucx ptr again (ready a) = ffi_unit (Call.request_free ptr) >> pure a
after_poll ucx ptr again pending = suspend ucx >> again

-- `RequestHandle { ptr, poll_fn }.await`. The fuel counts the polls.
unfoldable pub await : Ucx → {A : Type 0} → (ℕ → M (Poll A)) → ℕ → ℕ → M A
unfolding poll after_poll
await ucx poll_fn ptr zero = starve
await ucx poll_fn ptr (suc fuel) =
    poll poll_fn ptr >>= after_poll ucx ptr (await ucx poll_fn ptr fuel)

module _ (ucx : Ucx) where
  -- `UCS_PTR_IS_PTR`, which can overflow.
  unfoldable pub is_ptr : ℕ → M Bool
  is_ptr p = or_panic (ucs_ptr_is_ptr ucx.checks ucx.abi p)

  -- What `flush`, `put` and `get` do with the pointer that UCX returned.
  unfoldable pub finish_request : ℕ → ℕ → M (Unit {0})
  finish_request fuel status = if status == 0 then pure tt else (do
    request ← is_ptr status
    if request
        then (do result ← await ucx (poll_normal ucx) status fuel; lift result)
        else lift (from_ptr ucx.abi status))

  -- What `stream_send`, `tag_send`, `tag_send_vectored` and `am_send` do with it.
  unfoldable pub finish_send : ℕ → ℕ → M (Unit {0})
  finish_send fuel status = if status == 0 then pure tt else (do
    request ← is_ptr status
    if request
        then (do result ← await ucx (poll_normal ucx) status fuel; lift result)
        else raise_unwrap_err (from_ptr ucx.abi status))
