-- ===== src/Ffi/Traces.antt =====
-- Rules on traces: what the calls of a function look like, whatever UCX answers.
use async_ucx.Base.{
  ◌≡◌, refl, sym, subst, Bool, true, false, Option, none, some, List, ◌∷◌, if◌then◌else◌,
}
use async_ucx.Error.{Error, Result, from_status}
use async_ucx.Error
use async_ucx.Ffi.{
  Ucx, Call, Reply, World, Outcome, ok, err, panicked, undefined, starved, M, proceed, ◌>>=◌, pure,
  starve, lift, unwrap, assume_init, catch, ffi, ffi_unit, coming, outcome_result,
}

-- What holds of the trace after a function: `Q` if it returned a value, `E` if not.
abbrev pub After :
    {A : Type 0} → (A → List Call → Type 0) → (List Call → Type 0) → Outcome A → List Call → Type 0
After Q E (ok a) t = Q a t
After Q E (err _) t = E t
After Q E panicked t = E t
After Q E undefined t = E t
After Q E starved t = E t

pub record Triple (P : List Call → Type 0) {A : Type 0} (m : M A) (Q : A → List Call → Type 0)
    (E : List Call → Type 0) : Type 0 where
  pub holds : (w : World) → P w.trace → After Q E (m w).0 (m w).1.trace

proceed-Triple :
    {A B : Type 0} {E : List Call → Type 0} {Q : A → List Call → Type 0}
    {R : B → List Call → Type 0} (f : A → M B) (o : Outcome A) (v : World)
    → ((a : A) → Triple (Q a) (f a) R E)
    → After Q E o v.trace
    → After R E (proceed f o v).0 (proceed f o v).1.trace
proceed-Triple f (ok a) v k h = (k a).holds v h
proceed-Triple f (err e) v k h = h
proceed-Triple f panicked v k h = h
proceed-Triple f undefined v k h = h
proceed-Triple f starved v k h = h

module _ {P : List Call → Type 0} {E : List Call → Type 0} where
  pub bind-Triple :
      {A B : Type 0} {Q : A → List Call → Type 0} {R : B → List Call → Type 0} {m : M A}
      {f : A → M B}
      → Triple P m Q E
      → ((a : A) → Triple (Q a) (f a) R E)
      → Triple P (m >>= f) R E
  unfolding ◌>>=◌
  bind-Triple {m = m} {f = f} hm k = record {
    holds = λ w h. proceed-Triple f (m w).0 (m w).1 k (hm.holds w h);
  }

  pub if-Triple :
      {A : Type 0} {Q : A → List Call → Type 0} (b : Bool) {m k : M A}
      → Triple P m Q E
      → Triple P k Q E
      → Triple P (if b then m else k) Q E
  if-Triple true hm hk = hm
  if-Triple false hm hk = hk

module _ (P : List Call → Type 0) where
  -- A function that makes no call, whatever it returns.
  pub quiet-Triple :
      {A : Type 0} {m : M A} → ((w : World) → (m w).1.trace ≡ w.trace) → Triple P m (λ _. P) P
  quiet-Triple {m = m} same = record { holds = λ w h. after (m w).0 (subst P (sym (same w)) h) }
    where
      after : {A : Type 0} (o : Outcome A) {t : List Call} → P t → After (λ _. P) P o t
      after (ok a) h = h
      after (err e) h = h
      after panicked h = h
      after undefined h = h
      after starved h = h

  pub pure-Triple :
      {A : Type 0} {Q : A → List Call → Type 0} {E : List Call → Type 0} (a : A)
      → ((t : List Call) → P t → Q a t)
      → Triple P (pure a) Q E
  unfolding pure
  pure-Triple a h = record { holds = λ w p. h w.trace p }

  pub starve-Triple : {A : Type 0} (Q : A → List Call → Type 0) → Triple P starve Q P
  unfolding starve
  starve-Triple Q = record { holds = λ w p. p }

  pub unwrap-Triple :
      {A : Type 0} {Q : A → List Call → Type 0} {E : List Call → Type 0} (r : Error.Result A)
      → ((a : A) (t : List Call) → r ≡ Error.Result.ok a → P t → Q a t)
      → ((t : List Call) → P t → E t)
      → Triple P (unwrap r) Q E
  unfolding unwrap
  unwrap-Triple (Error.Result.ok a) good bad = record { holds = λ w p. good a w.trace refl p }
  unwrap-Triple (Error.Result.err e) good bad = record { holds = λ w p. bad w.trace p }

  pub lift-Triple :
      {A : Type 0} {Q : A → List Call → Type 0} {E : List Call → Type 0} (r : Error.Result A)
      → ((a : A) (t : List Call) → r ≡ Error.Result.ok a → P t → Q a t)
      → ((t : List Call) → P t → E t)
      → Triple P (lift r) Q E
  unfolding lift
  lift-Triple (Error.Result.ok a) good bad = record { holds = λ w p. good a w.trace refl p }
  lift-Triple (Error.Result.err e) good bad = record { holds = λ w p. bad w.trace p }

  pub assume_init-Triple : {A : Type 0} (o : Option A) → Triple P (assume_init o) (λ _. P) P
  unfolding assume_init
  assume_init-Triple (some a) = record { holds = λ w p. p }
  assume_init-Triple none = record { holds = λ w p. p }

  -- A call of UCX, by what its answer and the longer trace say.
  pub ffi-Triple :
      {Q : Reply → List Call → Type 0} {E : List Call → Type 0} (ucx : Ucx) (c : Call)
      → ((t : List Call) → P t → Q (ucx.reply t c) (c ∷ t))
      → Triple P (ffi ucx c) Q E
  unfolding ffi
  ffi-Triple ucx c h = record { holds = λ w p. h w.trace p }

  pub ffi_unit-Triple :
      {Q : Unit {0} → List Call → Type 0} {E : List Call → Type 0} (c : Call)
      → ((t : List Call) → P t → Q tt (c ∷ t))
      → Triple P (ffi_unit c) Q E
  unfolding ffi_unit
  ffi_unit-Triple c h = record { holds = λ w p. h w.trace p }

  pub coming-Triple : (ucx : Ucx) (E : List Call → Type 0) → Triple P (coming ucx) (λ _. P) E
  unfolding coming
  coming-Triple ucx E = record { holds = λ w p. p }

  -- An error becomes a value, so its condition is one of the value's.
  pub catch-Triple :
      {A : Type 0} {Q : A → List Call → Type 0} {R : Error.Result A → List Call → Type 0}
      {E : List Call → Type 0} {m : M A}
      → Triple P m Q E
      → ((a : A) (t : List Call) → Q a t → R (Error.Result.ok a) t)
      → ((e : Error) (t : List Call) → E t → R (Error.Result.err e) t)
      → Triple P (catch m) R E
  unfolding catch
  catch-Triple {A = A} {Q = Q} {R = R} {E = E} {m = m} hm good bad = record {
    holds = λ w p. caught (m w).0 (m w).1.trace (hm.holds w p);
  }
    where
      caught : (o : Outcome A) (t : List Call) → After Q E o t → After R E (outcome_result o) t
      caught (ok a) t h = good a t h
      caught (err e) t h = bad e t h
      caught panicked t h = h
      caught undefined t h = h
      caught starved t h = h

pub before-Triple :
    {P R : List Call → Type 0} {A : Type 0} {m : M A} {Q : A → List Call → Type 0}
    {E : List Call → Type 0}
    → ((t : List Call) → R t → P t)
    → Triple P m Q E
    → Triple R m Q E
before-Triple h hm = record { holds = λ w p. hm.holds w (h w.trace p) }
