-- ===== src/Request/Dropped.antt =====
-- src/ucp/endpoint/mod.rs: a `RequestHandle` that may be dropped before it is ready, as it is with the
-- future of the transfer that waits for it.
use async_ucx.Base.{ℕ, zero, suc, ◌<◌, ◌≤◌, ◌≡◌, refl, ◌∙◌, Option, none, some, List, ◌∷◌, arith}
use async_ucx.Ffi.{
  running, Ucx, Call, World, Outcome, ok, err, panicked, undefined, starved, M, proceed, pure,
  ◌>>=◌, ◌>>◌, ffi_unit,
}
use async_ucx.Ffi.Traces.{After, Triple, bind-Triple, pure-Triple, ffi_unit-Triple}
use async_ucx.EndpointInner.{suspend}
use async_ucx.Request.{Poll, ready, pending, poll}
use async_ucx.Request.Await.{
  Completes, now, later, freed, frees, FreesNothing, suspend-FreesNothing, poll-FreesNothing,
}

-- `Drop::drop` of `RequestHandle`
unfoldable pub drop_handle : ℕ → M (Unit {0})
drop_handle ptr = ffi_unit (Call.request_free ptr)

module _ (ucx : Ucx) {A : Type 0} (poll_fn : ℕ → M (Poll A)) (ptr : ℕ) where
  -- After a poll: a handle that is ready is dropped, one that is pending waits.
  unfoldable pub after_turn : M (Option A) → Poll A → M (Option A)
  unfolding drop_handle
  after_turn again (ready a) = do drop_handle ptr; pure (some a)
  after_turn again pending = suspend ucx >> again

  -- The handle is polled until it is ready, but dropped before poll number `k` if it is not by then.
  unfoldable pub polled : ℕ → M (Option A)
  unfolding after_turn
  polled zero = do drop_handle ptr; pure none
  polled (suc k) = poll poll_fn ptr >>= after_turn (polled k)

  -- For a request that is ready after `k` pending polls: a handle that lives for more polls gives the
  -- result of that poll, and a handle that is dropped sooner gives none.
  pub polled-Completes :
      {w v : World} {k : ℕ} {a : A} (n : ℕ)
      → Completes ucx poll_fn ptr w k a v
      → (k < n → polled n w ≡ (ok (some a), freed ucx poll_fn ptr v))
        × (n ≤ k → (polled n w).0 ≡ ok none)
  unfolding polled after_turn drop_handle running
  polled-Completes zero c = (λ h. absurd (omega arith), λ h. refl)
  polled-Completes (suc n) (now e) = (λ h. rw (e, proceed), λ h. absurd (omega arith))
  polled-Completes (suc n) (later e s c) =
      let ih = polled-Completes n c in
      (
        λ h. rw (e, proceed) (rw (s, proceed) (ih.0 (omega (arith, h)))),
        λ h. rw (e, proceed) (rw (s, proceed) (ih.1 (omega (arith, h)))),
      )

  module _ (keeps : (p : ℕ) → FreesNothing (poll_fn p)) (n : ℕ) where
    -- `n` requests are freed.
    abbrev Freed : List Call → Type 0
    Freed t = frees t ≡ n

    -- The last call frees the request, and `n` were freed before.
    abbrev FreedLast : List Call → Type 0
    FreedLast t = (cs : List Call) × (t ≡ Call.request_free ptr ∷ cs) × (frees cs ≡ n)

    same-Freed : {B : Type 0} {m : M B} → FreesNothing m → Triple Freed m (λ _. Freed) Freed
    same-Freed {m = m} same = record { holds = λ w h. after (m w).0 (m w).1.trace (same w ∙ h) }
      where
        after :
            {B : Type 0} (o : Outcome B) (t : List Call) → Freed t → After (λ _. Freed) Freed o t
        after (ok a) t h = h
        after (err e) t h = h
        after panicked t h = h
        after undefined t h = h
        after starved t h = h

    dropped-Freed : (r : Option A) → Triple Freed (drop_handle ptr >> pure r) (λ _. FreedLast) Freed
    unfolding drop_handle
    dropped-Freed r =
        bind-Triple
          (ffi_unit-Triple Freed {Q = λ _. FreedLast} (Call.request_free ptr) (λ t h. (t, refl, h)))
          (λ _. pure-Triple FreedLast r (λ t h. h))

    turn-Freed :
        (k : ℕ) (r : Poll A)
        → Triple Freed (polled k) (λ _. FreedLast) Freed
        → Triple Freed (after_turn (polled k) r) (λ _. FreedLast) Freed
    unfolding after_turn
    turn-Freed k (ready a) again = dropped-Freed (some a)
    turn-Freed k pending again = bind-Triple (same-Freed (suspend-FreesNothing ucx)) (λ _. again)

    polled-Freed : (k : ℕ) → Triple Freed (polled k) (λ _. FreedLast) Freed
    unfolding polled
    polled-Freed zero = dropped-Freed none
    polled-Freed (suc k) =
        bind-Triple (same-Freed (poll-FreesNothing ucx poll_fn keeps ptr))
          (λ r. turn-Freed k r (polled-Freed k))

  -- With a poll function that frees nothing, a handle that is ready or dropped, whichever comes first,
  -- frees its request once and as its last call; one that ends in another way frees nothing.
  pub polled-frees_once :
      (keeps : (p : ℕ) → FreesNothing (poll_fn p)) (k : ℕ) (w : World)
      → After
          (λ _ t. (cs : List Call) × (t ≡ Call.request_free ptr ∷ cs) × (frees cs ≡ frees w.trace))
          (λ t. frees t ≡ frees w.trace)
          (polled k w).0
          (polled k w).1.trace
  polled-frees_once keeps k w = (polled-Freed keeps (frees w.trace) k).holds w refl
