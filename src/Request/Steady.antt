-- ===== src/Request/Steady.antt =====
-- Polling, waiting for a request and ending a transfer keep the invariant of the endpoints.
use async_ucx.Base.{ℕ, zero, suc, ◌==◌}
use async_ucx.Ffi.{Ucx, M, ◌>>=◌, lift}
use async_ucx.Request.{
  Poll, ready, pending, poll_normal, poll_stream, poll_tag, poll_recv, second_poll, poll,
  after_poll, await, is_ptr, finish_request, finish_send,
}
use async_ucx.EndpointInner.Steady.{
  Steady, bind-Steady, pure-Steady, lift-Steady, starve-Steady, assume_init-Steady, or_panic-Steady,
  raise_unwrap_err-Steady, if-Steady, ffi_unit-Steady, ffi-Steady, suspend-Steady,
}

module _ (ucx : Ucx) where
  pub poll_normal-Steady : (p : ℕ) → Steady (poll_normal ucx p)
  unfolding poll_normal
  poll_normal-Steady p = bind-Steady (ffi-Steady ucx _) (λ r. pure-Steady _)

  pub poll_recv-Steady : (p : ℕ) → Steady (poll_recv ucx p)
  unfolding poll_recv
  poll_recv-Steady p = bind-Steady (ffi-Steady ucx _) (λ r. pure-Steady _)

  pub poll_stream-Steady : (p : ℕ) → Steady (poll_stream ucx p)
  unfolding poll_stream
  poll_stream-Steady p =
      bind-Steady (ffi-Steady ucx _) (λ r.
        if-Steady _ (pure-Steady _) (bind-Steady (assume_init-Steady _) (λ len. pure-Steady _)))

  pub poll_tag-Steady : (p : ℕ) → Steady (poll_tag ucx p)
  unfolding poll_tag
  poll_tag-Steady p = bind-Steady (ffi-Steady ucx _) (λ r. if-Steady _ (pure-Steady _) (
      if-Steady _
        (bind-Steady (assume_init-Steady _)
          (λ tag. bind-Steady (assume_init-Steady _) (λ len. pure-Steady _)))
        (pure-Steady _)))

  module _ {A : Type 0} (poll_fn : ℕ → M (Poll A)) (steady : (p : ℕ) → Steady (poll_fn p))
      (ptr : ℕ) where
    second-Steady : (p : Poll A) → Steady (second_poll poll_fn ptr p)
    unfolding second_poll
    second-Steady (ready a) = pure-Steady _
    second-Steady pending = bind-Steady (ffi_unit-Steady _) (λ _. steady ptr)

    poll-Steady : Steady (poll poll_fn ptr)
    unfolding poll
    poll-Steady = bind-Steady (steady ptr) second-Steady

    after_poll-Steady :
        (again : M A) → Steady again → (p : Poll A) → Steady (after_poll ucx ptr again p)
    unfolding after_poll
    after_poll-Steady again k (ready a) = bind-Steady (ffi_unit-Steady _) (λ _. pure-Steady a)
    after_poll-Steady again k pending = bind-Steady (suspend-Steady ucx) (λ _. k)

    pub await-Steady : (fuel : ℕ) → Steady (await ucx poll_fn ptr fuel)
    unfolding await
    await-Steady zero = starve-Steady A
    await-Steady (suc fuel) =
        bind-Steady poll-Steady (after_poll-Steady (await ucx poll_fn ptr fuel) (await-Steady fuel))

  pub is_ptr-Steady : (p : ℕ) → Steady (is_ptr ucx p)
  unfolding is_ptr
  is_ptr-Steady p = or_panic-Steady _

  await_result-Steady : (p fuel : ℕ) → Steady (await ucx (poll_normal ucx) p fuel >>= λ r. lift r)
  await_result-Steady p fuel =
      bind-Steady (await-Steady (poll_normal ucx) poll_normal-Steady p fuel) (λ r. lift-Steady r)

  pub finish_request-Steady : (fuel p : ℕ) → Steady (finish_request ucx fuel p)
  unfolding finish_request
  finish_request-Steady fuel p = if-Steady (p == 0) (pure-Steady tt) (
      bind-Steady (is_ptr-Steady p) (λ q. if-Steady q (await_result-Steady p fuel) (lift-Steady _)))

  pub finish_send-Steady : (fuel p : ℕ) → Steady (finish_send ucx fuel p)
  unfolding finish_send
  finish_send-Steady fuel p = if-Steady (p == 0) (pure-Steady tt) (
      bind-Steady (is_ptr-Steady p)
        (λ q. if-Steady q (await_result-Steady p fuel) (raise_unwrap_err-Steady _ _)))
