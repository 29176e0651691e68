-- ===== src/Endpoint.antt =====
-- src/ucp/endpoint/mod.rs: creating, flushing, closing and dropping an endpoint. An `Endpoint` value
-- is its UCX handle and its count on the shared state.
pub mod Steady
pub mod Lifecycle
pub mod Close
pub mod Waiting
pub mod Peers
use async_ucx.Base.{
  ℕ, zero, suc, Bool, true, false, not, ◌&&◌, Option, none, some, List, [], ◌∷◌, ◌++◌, ◌==◌,
  if◌then◌else◌,
}
use async_ucx.Ucs.{ucs_ptr_is_ptr, ucs_ptr_raw_status}
use async_ucx.Error.{Error, Result, from_error, from_status, from_ptr}
use async_ucx.Error
use async_ucx.Ffi.{
  Ucx, CloseMode, EpField, EpParams, Call, Inner, M, ◌>>=◌, ◌>>◌, pure, raise, starve, lift, catch,
  assume_init, or_panic, ffi, ffi_unit, read, alloc,
}
use async_ucx.EndpointInner.{
  new, drop_weak, drop_strong, clone_strong, downgrade, check, closed, suspend,
}
use async_ucx.EndpointInner
use async_ucx.Request.{Poll, ready, pending, is_ptr, poll_normal, finish_request}

pub record Endpoint : Type 0 where
  pub handle : ℕ
  pub inner : ℕ

-- `#[derive(Clone)]`
unfoldable pub clone : Endpoint → M Endpoint
clone e = do clone_strong e.inner; pure e

unfoldable pub is_closed : Endpoint → M Bool
is_closed e = EndpointInner.is_closed e.inner

unfoldable pub get_status : Endpoint → M (Unit {0})
get_status e = do r ← check e.inner; lift r

unfoldable pub get_handle : Endpoint → M ℕ
get_handle e = do r ← check e.inner; lift r; pure e.handle

unfoldable pub worker : Endpoint → M ℕ
worker e = do i ← read e.inner; pure i.worker

-- `(Rc::strong_count, Rc::weak_count)`
unfoldable pub get_rc : Endpoint → M (ℕ × ℕ)
get_rc e = do i ← read e.inner; pure (i.strong, i.weak)

unfoldable pub print_to_stderr : Endpoint → M (Unit {0})
print_to_stderr e = do
  c ← is_closed e
  if c then pure tt else ffi_unit (Call.ep_print_info e.handle)

-- What `create` adds to the parameters: the weak reference as user data, and the error handler.
unfoldable pub with_handler : EpParams → ℕ → EpParams
with_handler params p = record params {
  field_mask = params.field_mask ++ EpField.user_data ∷ EpField.err_handler ∷ [];
  user_data = some p;
  err_handler = true;
}

-- After `ucp_ep_create`: on an error the two references are dropped.
unfoldable pub created : ℕ → Option ℕ → Result (Unit {0}) → M Endpoint
created p out (Error.Result.err e) = do drop_weak p; drop_strong p; raise e
created p out (Error.Result.ok _) = do
  handle ← assume_init out
  pure (record { handle = handle; inner = p })

-- A close that went well marks the endpoint, and one that did not returns its error.
unfoldable pub finish_close : Endpoint → Result (Unit {0}) → M (Unit {0})
finish_close e (Error.Result.ok _) = closed e.inner
finish_close e (Error.Result.err x) = raise x

-- `Drop::drop`, and then the drop of the field `inner`. An error of the close is only logged.
unfoldable pub drop : Endpoint → M (Unit {0})
drop e = do
  c ← is_closed e
  (if c then pure tt else (do ffi_unit (Call.ep_close_nb e.handle CloseMode.force); closed e.inner))
  drop_strong e.inner

module _ (ucx : Ucx) where
  unfoldable pub create : ℕ → EpParams → M Endpoint
  create worker params = do
    p ← alloc (new worker)
    downgrade p
    r ← ffi ucx (Call.ep_create worker (with_handler params p))
    created p r.handle (from_status r.status)

  unfoldable pub flush : ℕ → Endpoint → M (Unit {0})
  flush fuel e = do
    handle ← get_handle e
    r ← ffi ucx (Call.ep_flush_nb handle)
    finish_request ucx fuel r.pointer

  -- The loop of `close`. It leaves no waker: it gives way once and looks again.
  unfoldable pub after_close_poll :
      ℕ → M (Result (Unit {0})) → Poll (Result (Unit {0})) → M (Result (Unit {0}))
  after_close_poll ptr again (ready result) = do ffi_unit (Call.request_free ptr); pure result
  after_close_poll ptr again pending = do suspend ucx; again

  unfoldable pub close_wait : ℕ → ℕ → M (Result (Unit {0}))
  close_wait ptr zero = starve
  close_wait ptr (suc fuel) = poll_normal ucx ptr >>= after_close_poll ptr (close_wait ptr fuel)

  -- From `ucp_ep_close_nb` on; the two branches in which it did not complete at once come first.
  unfoldable pub close_answered : ℕ → Endpoint → ℕ → M (Unit {0})
  close_answered fuel e ptr = do
    request ← is_ptr ucx ptr
    if request
        then (do result ← close_wait ptr fuel; finish_close e result)
        else lift (from_status (ucs_ptr_raw_status ucx.abi ptr))

  unfoldable pub close_handle : ℕ → Endpoint → CloseMode → M (Unit {0})
  close_handle fuel e mode = do
    r ← ffi ucx (Call.ep_close_nb e.handle mode)
    if r.pointer == 0 then closed e.inner else close_answered fuel e r.pointer

  unfoldable pub close : ℕ → Endpoint → Bool → M (Unit {0})
  close fuel e force = do
    c ← is_closed e
    if force && c then pure tt else (do
      (if force then pure tt else get_status e)
      close_handle fuel e (if force then CloseMode.force else CloseMode.flush))
