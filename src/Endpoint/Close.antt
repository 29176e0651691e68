-- ===== src/Endpoint/Close.antt =====
-- What `close` of src/ucp/endpoint/mod.rs leaves behind, and what a closed endpoint does.
use async_ucx.Base.{
  ℕ, ◌<◌, ◌≡◌, ◌≢◌, refl, inl, inr, Bool, true, false, not, List, ◌==◌, if◌then◌else◌, arith,
  Bool-cases,
}
use async_ucx.Ucs.{Status, ucs_ptr_is_err, ucs_ptr_raw_status}
use async_ucx.Ucs.Codes.{ucs_ok}
use async_ucx.Error.{Error, Result, from_error, from_status}
use async_ucx.Error
use async_ucx.Error.Laws.{from_status_error}
use async_ucx.Ffi.{
  Ucx, CloseMode, Call, World, Outcome, ok, err, panicked, undefined, starved, M, proceed, ◌>>=◌,
  ◌>>◌, ffi, lift, raise, running,
}
use async_ucx.Ffi.Laws.{pure-bind}
use async_ucx.EndpointInner.{check, closed}
use async_ucx.EndpointInner
use async_ucx.EndpointInner.Invariant.{AllSound}
use async_ucx.Request.Finish.{is_ptr_lem}
use async_ucx.Endpoint.{
  Endpoint, is_closed, get_status, get_handle, print_to_stderr, flush, finish_close, close_answered,
  close_handle, close, drop,
}
use async_ucx.Endpoint.Lifecycle.{drop_lem}
use async_ucx.Endpoint.Steady.{close-Steady}

-- Documented: a pointer that UCX returns from a `_nb` call and that is an error holds the code of an
-- error.
abbrev pub WellPointed : Ucx → Type 0
WellPointed ucx =
    (t : List Call) (c : Call)
    → ucs_ptr_is_err ucx.abi (ucx.reply t c).pointer ≡ true
    → ucs_ptr_raw_status ucx.abi (ucx.reply t c).pointer ≢ ucs_ok

-- If it returns a value, the endpoint at `p` has been marked as closed.
pub record Marks (p : ℕ) {A : Type 0} (m : M A) : Type 0 where
  pub holds : (w : World) (a : A) → (m w).0 ≡ ok a → ((m w).1.inners p).closed ≡ true

of_not-false : (b : Bool) → not b ≡ false → b ≡ true
of_not-false true h = refl
of_not-false false h = cc

module _ {p : ℕ} where
  proceed-Marks :
      {A B : Type 0} (f : A → M B) (o : Outcome A)
      → ((a : A) → Marks p (f a))
      → Marks p (proceed f o)
  proceed-Marks f (ok a) k = record { holds = (k a).holds }
  proceed-Marks f (err e) k = record { holds = λ w a h. cc }
  proceed-Marks f panicked k = record { holds = λ w a h. cc }
  proceed-Marks f undefined k = record { holds = λ w a h. cc }
  proceed-Marks f starved k = record { holds = λ w a h. cc }

  bind_Marks :
      {A B : Type 0} (m : M A) {f : A → M B} → ((a : A) → Marks p (f a)) → Marks p (m >>= f)
  unfolding ◌>>=◌
  bind_Marks m {f = f} k = record { holds = λ w b h. (proceed-Marks f (m w).0 k).holds (m w).1 b h }

  if_Marks :
      {A : Type 0} (b : Bool) {m k : M A}
      → (b ≡ true → Marks p m)
      → (b ≡ false → Marks p k)
      → Marks p (if b then m else k)
  if_Marks true hm hk = hm refl
  if_Marks false hm hk = hk refl

  pub closed_Marks : Marks p (closed p)
  unfolding closed running
  closed_Marks = record { holds = λ w a h. ground arith }

  raise-Marks : (A : Type 0) (e : Error) → Marks p (raise {A = A} e)
  unfolding raise
  raise-Marks A e = record { holds = λ w a h. cc }

  lift-Marks : (s : Status) → s ≢ ucs_ok → Marks p (lift (from_status s))
  unfolding lift
  lift-Marks s h = rw (from_status_error s h) (record { holds = λ w a e. cc })

module _ (ucx : Ucx) where
  finish_close-Marks : (e : Endpoint) (r : Result (Unit {0})) → Marks e.inner (finish_close e r)
  unfolding finish_close
  finish_close-Marks e (Error.Result.ok _) = closed_Marks
  finish_close-Marks e (Error.Result.err x) = raise-Marks _ x

  module _ (pointed : WellPointed ucx) (fuel : ℕ) (e : Endpoint) where
    answered_Marks :
        (t : List Call) (c : Call)
        → (ucx.reply t c).pointer ≢ 0
        → Marks e.inner (close_answered ucx fuel e (ucx.reply t c).pointer)
    unfolding close_answered
    answered_Marks t c h =
        rw (is_ptr_lem ucx _ h, pure-bind)
          (if_Marks (not (ucs_ptr_is_err ucx.abi (ucx.reply t c).pointer))
            (λ _. bind_Marks _ (λ r. finish_close-Marks e r))
            (λ q. lift-Marks _ (pointed t c (of_not-false _ q))))

    close_handle_marks :
        (mode : CloseMode) (w : World)
        → (close_handle ucx fuel e mode w).0 ≡ ok tt
        → ((close_handle ucx fuel e mode w).1.inners e.inner).closed ≡ true
    unfolding close_handle ◌>>=◌ ffi
    close_handle_marks mode w =
        (if_Marks ((ucx.reply w.trace (Call.ep_close_nb e.handle mode)).pointer == 0)
            (λ _. closed_Marks)
            (λ h.
              answered_Marks w.trace (Call.ep_close_nb e.handle mode)
                (λ z. ground (arith, h, z)))).holds
          _ tt

    checked_marks :
        (r : Result (Unit {0})) (w : World)
        → ((lift r >> close_handle ucx fuel e CloseMode.flush) w).0 ≡ ok tt
        → (((lift r >> close_handle ucx fuel e CloseMode.flush) w).1.inners e.inner).closed ≡ true
    unfolding running
    checked_marks (Error.Result.ok _) w h = close_handle_marks CloseMode.flush w h
    checked_marks (Error.Result.err x) w h = cc

    open_marks :
        (force : Bool) (w : World)
        → (w.inners e.inner).closed ≡ false
        → (close ucx fuel e force w).0 ≡ ok tt
        → ((close ucx fuel e force w).1.inners e.inner).closed ≡ true
    unfolding close is_closed EndpointInner.is_closed get_status check running
    open_marks true w c = rw c (close_handle_marks CloseMode.force w)
    open_marks false w c = checked_marks (from_status (w.inners e.inner).status) w

    -- Where the endpoints are sound, a close that returns `Ok(())` has closed the endpoint: its status is an error from then on, UCX's
    -- weak reference is gone, and the owners keep theirs.
    pub close_ok :
        (force : Bool) (w : World)
        → AllSound w
        → (close ucx fuel e force w).0 ≡ ok tt
        → let i = (close ucx fuel e force w).1.inners e.inner in
          (i.closed ≡ true)
          × (i.weak ≡ 0)
          × (i.status ≢ ucs_ok)
          × (i.strong ≡ (w.inners e.inner).strong)
    close_ok force w s h =
        let steady = close-Steady ucx fuel e force in
        let v = (close ucx fuel e force w).1 in
        let ages = (steady.follows w s).ages e.inner in
        let marked : (v.inners e.inner).closed ≡ true =
          elim (Bool-cases (w.inners e.inner).closed) [
            | inl c ↦ ages.closed_stays c
            | inr c ↦ open_marks force w c h
          ] in
        let released = (steady.sound w s e.inner).closed_released marked in
        (marked, released.0, released.1, ages.strong_same)

  -- With an error status, a close that is not forced returns that error and calls nothing.
  pub close_failed :
      (fuel : ℕ) (e : Endpoint) (w : World)
      → (w.inners e.inner).status ≢ ucs_ok
      → close ucx fuel e false w ≡ (err (from_error (w.inners e.inner).status), w)
  unfolding close is_closed EndpointInner.is_closed get_status check running
  close_failed fuel e w h = rw (from_status_error (w.inners e.inner).status h)

  -- Where the endpoints are sound, one that is closed and has an owner passes nothing on to UCX: closing it again, flushing it, printing it and
  -- dropping it leave the trace as it is.
  pub closed_silent :
      (fuel : ℕ) (e : Endpoint) (w : World)
      → AllSound w
      → 0 < (w.inners e.inner).strong
      → (w.inners e.inner).closed ≡ true
      → (close ucx fuel e true w ≡ (ok tt, w))
        × (close ucx fuel e false w ≡ (err (from_error (w.inners e.inner).status), w))
        × (flush ucx fuel e w ≡ (err (from_error (w.inners e.inner).status), w))
        × (print_to_stderr e w ≡ (ok tt, w))
        × ((drop e w).1.trace ≡ w.trace)
  unfolding close flush print_to_stderr is_closed EndpointInner.is_closed get_handle check running
  closed_silent fuel e w s owned c =
      let failed = ((s e.inner).closed_released c).1 in
      (
        rw c,
        close_failed fuel e w failed,
        rw (from_status_error (w.inners e.inner).status failed),
        rw c,
        rw (drop_lem e w s owned).1 (rw c),
      )
