-- ===== src/EndpointInner.antt =====
-- src/ucp/endpoint/mod.rs: the state that the clones of an `Endpoint` share, the error handler that
-- UCX calls on it, and what happens to it while a task waits.

pub mod Invariant
pub mod Steady
use async_ucx.Base.{ℕ, ◌+◌, ◌-◌, Bool, true, false, ◌&&◌, List, [], ◌∷◌, ◌==◌, if◌then◌else◌}
use async_ucx.Ucs.{Status}
use async_ucx.Ucs.Codes.{ucs_ok, ucs_err_connection_reset, is_ok}
use async_ucx.Error.{Result, from_status}
use async_ucx.Ffi.{
  Ucx, Event, err_handler, task_closes, CloseMode, Call, Inner, M, ◌>>=◌, ◌>>◌, pure, ffi_unit,
  coming, read, write, undefined_if,
}

-- `EndpointInner::new`, as `Rc::new` stores it.
unfoldable pub new : ℕ → Inner
new worker = record { closed = false; status = ucs_ok; worker = worker; strong = 1; weak = 0 }

-- The drop of a `Weak` and of an `Rc`.
unfoldable pub drop_weak : ℕ → M (Unit {0})
drop_weak p = do i ← read p; undefined_if (i.weak == 0); write p (record i { weak = i.weak - 1 })

unfoldable pub drop_strong : ℕ → M (Unit {0})
drop_strong p = do
  i ← read p
  undefined_if (i.strong == 0)
  write p (record i { strong = i.strong - 1 })

unfoldable pub clone_strong : ℕ → M (Unit {0})
clone_strong p = do i ← read p; write p (record i { strong = i.strong + 1 })

unfoldable pub downgrade : ℕ → M (Unit {0})
downgrade p = do i ← read p; write p (record i { weak = i.weak + 1 })

unfoldable pub set_status : ℕ → Status → M (Unit {0})
set_status p status = do
  i ← read p
  if is_ok status then pure tt else write p (record i { status = status })

unfoldable pub is_closed : ℕ → M Bool
is_closed p = do i ← read p; pure i.closed

unfoldable pub check : ℕ → M (Result (Unit {0}))
check p = do i ← read p; pure (from_status i.status)

-- The first call wins the compare-exchange, and releases the weak reference that UCX was given.
unfoldable pub closed : ℕ → M (Unit {0})
unfolding set_status drop_weak
closed p = do
  i ← read p
  if i.closed then pure tt else (do
    write p (record i { closed = true })
    set_status p ucs_err_connection_reset
    drop_weak p)

module _ (ucx : Ucx) where
  -- The `callback` that `create` registers. `arg` is the weak reference as a raw pointer: once no
  -- count is left, the memory is gone. An error of the forced close is only logged.
  unfoldable pub callback : ℕ → ℕ → Status → M (Unit {0})
  callback arg ep status = do
    i ← read arg
    undefined_if (i.strong == 0 && i.weak == 0)
    if i.strong == 0
        then (do ffi_unit (Call.ep_close_nb ep CloseMode.force); drop_weak arg)
        else set_status arg status

  unfoldable pub handle : Event → M (Unit {0})
  unfolding callback closed
  handle (err_handler arg ep status) = callback arg ep status
  handle (task_closes arg) = closed arg

  unfoldable pub deliver : List Event → M (Unit {0})
  deliver [] = pure tt
  deliver (e ∷ es) = handle e >> deliver es

  -- The task gives way (`yield_now`, or a future that is pending): what the others do until it runs
  -- again.
  unfoldable pub suspend : M (Unit {0})
  suspend = do es ← coming ucx; ffi_unit Call.yielded; deliver es
