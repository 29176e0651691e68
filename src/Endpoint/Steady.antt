-- ===== src/Endpoint/Steady.antt =====
-- The operations of src/ucp/endpoint/mod.rs that borrow an endpoint keep every endpoint sound.
use async_ucx.Base.{ℕ, zero, suc, Bool, ◌&&◌, ◌==◌}
use async_ucx.Error.{Result}
use async_ucx.Error
use async_ucx.Ffi.{Ucx, CloseMode, M}
use async_ucx.EndpointInner.Steady.{
  Steady, bind-Steady, pure-Steady, lift-Steady, raise-Steady, starve-Steady, if-Steady,
  check-Steady, is_closed-Steady, closed-Steady, ffi_unit-Steady, ffi-Steady, suspend-Steady,
}
use async_ucx.Request.Steady.{poll_normal-Steady, is_ptr-Steady, finish_request-Steady}
use async_ucx.Request.{Poll, ready, pending}
use async_ucx.Endpoint.{
  Endpoint, is_closed, get_status, get_handle, print_to_stderr, flush, after_close_poll, close_wait,
  finish_close, close_answered, close_handle, close,
}

get_status-Steady : (e : Endpoint) → Steady (get_status e)
unfolding get_status
get_status-Steady e = bind-Steady (check-Steady e.inner) (λ r. lift-Steady r)

pub get_handle-Steady : (e : Endpoint) → Steady (get_handle e)
unfolding get_handle
get_handle-Steady e =
    bind-Steady (check-Steady e.inner)
      (λ r. bind-Steady (lift-Steady r) (λ _. pure-Steady e.handle))

pub print_to_stderr-Steady : (e : Endpoint) → Steady (print_to_stderr e)
unfolding print_to_stderr is_closed
print_to_stderr-Steady e =
    bind-Steady (is_closed-Steady e.inner) (λ c. if-Steady c (pure-Steady tt) (ffi_unit-Steady _))

module _ (ucx : Ucx) where
  pub flush-Steady : (fuel : ℕ) (e : Endpoint) → Steady (flush ucx fuel e)
  unfolding flush
  flush-Steady fuel e =
      bind-Steady (get_handle-Steady e)
        (λ h. bind-Steady (ffi-Steady ucx _) (λ r. finish_request-Steady ucx fuel r.pointer))

  after_close_poll-Steady :
      (ptr : ℕ) (again : M (Result (Unit {0}))) (p : Poll (Result (Unit {0})))
      → Steady again
      → Steady (after_close_poll ucx ptr again p)
  unfolding after_close_poll
  after_close_poll-Steady ptr again (ready r) k =
      bind-Steady (ffi_unit-Steady _) (λ _. pure-Steady r)
  after_close_poll-Steady ptr again pending k = bind-Steady (suspend-Steady ucx) (λ _. k)

  close_wait-Steady : (ptr fuel : ℕ) → Steady (close_wait ucx ptr fuel)
  unfolding close_wait
  close_wait-Steady ptr zero = starve-Steady _
  close_wait-Steady ptr (suc fuel) =
      bind-Steady (poll_normal-Steady ucx ptr)
        (λ p. after_close_poll-Steady ptr (close_wait ucx ptr fuel) p (close_wait-Steady ptr fuel))

  finish_close-Steady : (e : Endpoint) (r : Result (Unit {0})) → Steady (finish_close e r)
  unfolding finish_close
  finish_close-Steady e (Error.Result.ok _) = closed-Steady e.inner
  finish_close-Steady e (Error.Result.err x) = raise-Steady _ x

  close_answered-Steady : (fuel : ℕ) (e : Endpoint) (p : ℕ) → Steady (close_answered ucx fuel e p)
  unfolding close_answered
  close_answered-Steady fuel e p = bind-Steady (is_ptr-Steady ucx p) (λ q.
      if-Steady q (bind-Steady (close_wait-Steady p fuel) (λ x. finish_close-Steady e x))
        (lift-Steady _))

  close_handle-Steady :
      (fuel : ℕ) (e : Endpoint) (mode : CloseMode) → Steady (close_handle ucx fuel e mode)
  unfolding close_handle
  close_handle-Steady fuel e mode = bind-Steady (ffi-Steady ucx _) (λ r.
      if-Steady (r.pointer == 0) (closed-Steady e.inner) (close_answered-Steady fuel e r.pointer))

  pub close-Steady : (fuel : ℕ) (e : Endpoint) (force : Bool) → Steady (close ucx fuel e force)
  unfolding close is_closed
  close-Steady fuel e force = bind-Steady (is_closed-Steady e.inner) (λ c.
      if-Steady (force && c) (pure-Steady tt) (
        bind-Steady (if-Steady force (pure-Steady tt) (get_status-Steady e))
          (λ _. close_handle-Steady fuel e _)))
