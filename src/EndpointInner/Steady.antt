-- ===== src/EndpointInner/Steady.antt =====
-- The rules by which every function that only borrows its endpoints is shown to keep the invariant,
-- to bring no closed or failed endpoint back, and to leave the counts of owners alone.
use async_ucx.Base.{
  ℕ, ◌≡◌, refl, ◌==◌, Bool-cases, inl, inr, Bool, true, false, Option, none, some, List, [], ◌∷◌,
  arith, if◌then◌else◌,
}
use async_ucx.Ucs.{Status}
use async_ucx.Error.{Error, Result}
use async_ucx.Error
use async_ucx.Ffi.{
  Ucx, CloseMode, Event, err_handler, task_closes, Call, Inner, World, Outcome, ok, err, panicked,
  undefined, starved, M, proceed, ◌>>=◌, ◌>>◌, pure, raise, starve, lift, assume_init, or_panic,
  raise_unwrap_err, ffi, ffi_unit, coming, undefined_if, read, running,
}
use async_ucx.EndpointInner.{
  drop_weak, closed, is_closed, check, callback, handle, deliver, suspend,
}
use async_ucx.EndpointInner.Invariant.{
  AllSound, Follows, Follows-refl, Follows-trans, closed-AllSound, closed-Follows,
  set_status-Follows, IsSound, callback_stores, set_status-AllSound,
}

pub record Steady {A : Type 0} (m : M A) : Type 0 where
  pub sound : (w : World) → AllSound w → AllSound (m w).1
  pub follows : (w : World) → AllSound w → Follows w (m w).1

-- A function that leaves the endpoints' state as it is.
pub still :
    {A : Type 0} (m : M A)
    → ((w : World) → (m w).1.inners ≡ w.inners)
    → ((w : World) → (m w).1.next ≡ w.next)
    → Steady m
still m e n = record {
  sound = λ w s. rw (e w) s;
  follows = λ w s. record { ages = rw (e w) (Follows-refl w).ages; next_same = n w };
}

proceed-Steady :
    {A B : Type 0} (f : A → M B) (o : Outcome A) → ((a : A) → Steady (f a)) → Steady (proceed f o)
proceed-Steady f (ok a) k = record { sound = (k a).sound; follows = (k a).follows }
proceed-Steady f (err e) k = still _ (λ w. refl) (λ w. refl)
proceed-Steady f panicked k = still _ (λ w. refl) (λ w. refl)
proceed-Steady f undefined k = still _ (λ w. refl) (λ w. refl)
proceed-Steady f starved k = still _ (λ w. refl) (λ w. refl)

pub bind-Steady :
    {A B : Type 0} {m : M A} {f : A → M B} → Steady m → ((a : A) → Steady (f a)) → Steady (m >>= f)
unfolding ◌>>=◌
bind-Steady {m = m} {f = f} km kf = record {
  sound = λ w s. (proceed-Steady f (m w).0 kf).sound (m w).1 (km.sound w s);
  follows = λ w s.
      Follows-trans (km.follows w s) ((proceed-Steady f (m w).0 kf).follows (m w).1 (km.sound w s));
}

pub pure-Steady : {A : Type 0} (a : A) → Steady (pure a)
unfolding pure
pure-Steady a = still _ (λ w. refl) (λ w. refl)

pub lift-Steady : {A : Type 0} (r : Result A) → Steady (lift r)
unfolding lift
lift-Steady (Error.Result.ok a) = still _ (λ w. refl) (λ w. refl)
lift-Steady (Error.Result.err e) = still _ (λ w. refl) (λ w. refl)

pub raise-Steady : (A : Type 0) (e : Error) → Steady (raise {A = A} e)
unfolding raise
raise-Steady A e = still _ (λ w. refl) (λ w. refl)

pub starve-Steady : (A : Type 0) → Steady (starve {A = A})
unfolding starve
starve-Steady A = still _ (λ w. refl) (λ w. refl)

pub assume_init-Steady : {A : Type 0} (o : Option A) → Steady (assume_init o)
unfolding assume_init
assume_init-Steady none = still _ (λ w. refl) (λ w. refl)
assume_init-Steady (some a) = still _ (λ w. refl) (λ w. refl)

pub or_panic-Steady : {A : Type 0} (o : Option A) → Steady (or_panic o)
unfolding or_panic
or_panic-Steady none = still _ (λ w. refl) (λ w. refl)
or_panic-Steady (some a) = still _ (λ w. refl) (λ w. refl)

pub raise_unwrap_err-Steady :
    (A : Type 0) {B : Type 0} (r : Result B) → Steady (raise_unwrap_err {A = A} r)
unfolding raise_unwrap_err
raise_unwrap_err-Steady A (Error.Result.ok b) = still _ (λ w. refl) (λ w. refl)
raise_unwrap_err-Steady A (Error.Result.err e) = still _ (λ w. refl) (λ w. refl)

pub if-Steady :
    {A : Type 0} (b : Bool) {m k : M A} → Steady m → Steady k → Steady (if b then m else k)
if-Steady true hm hk = hm
if-Steady false hm hk = hk

pub check-Steady : (p : ℕ) → Steady (check p)
unfolding check running
check-Steady p = still _ (λ w. refl) (λ w. refl)

pub is_closed-Steady : (p : ℕ) → Steady (is_closed p)
unfolding is_closed running
is_closed-Steady p = still _ (λ w. refl) (λ w. refl)

pub closed-Steady : (p : ℕ) → Steady (closed p)
closed-Steady p = record { sound = closed-AllSound p; follows = closed-Follows p }

pub ffi_unit-Steady : (c : Call) → Steady (ffi_unit c)
unfolding ffi_unit
ffi_unit-Steady c = still _ (λ w. refl) (λ w. refl)

module _ (ucx : Ucx) where
  pub ffi-Steady : (c : Call) → Steady (ffi ucx c)
  unfolding ffi
  ffi-Steady c = still _ (λ w. refl) (λ w. refl)

  coming-Steady : Steady (coming ucx)
  unfolding coming
  coming-Steady = still _ (λ w. refl) (λ w. refl)

  drop_weak-Follows : (p : ℕ) (w : World) → Follows w (drop_weak p w).1
  unfolding drop_weak running
  drop_weak-Follows p w = record { ages = λ q. ground arith; next_same = ground arith }

  -- Where no owner is left, UCX has no reference either, so that a call of the handler reads freed
  -- memory.
  ownerless : (i : Inner) → IsSound i → i.strong ≡ 0 → i.weak ≡ 0
  ownerless i s none_left = elim (Bool-cases i.closed) [
    | inl over ↦ (s.closed_released over).0
    | inr open_now ↦ elim (s.open_counted open_now) [
      | inl (_, some_left) ↦ absurd (omega (arith, some_left))
      | inr (weak, _) ↦ weak
    ]
  ]

  callback_ownerless :
      (arg ep : ℕ) (status : Status) (w : World)
      → AllSound w
      → (w.inners arg).strong ≡ 0
      → callback ucx arg ep status w ≡ (undefined, w)
  unfolding callback running
  callback_ownerless arg ep status w s none_left =
      rw (none_left, ownerless (w.inners arg) (s arg) none_left)

  callback-AllSound :
      (arg ep : ℕ) (status : Status) (w : World)
      → AllSound w
      → AllSound (callback ucx arg ep status w).1
  callback-AllSound arg ep status w s = elim (Bool-cases ((w.inners arg).strong == 0)) [
    | inl none_left ↦ rw (callback_ownerless arg ep status w s (ground arith)) s
    | inr owned ↦
        rw (callback_stores ucx arg ep status w s (ground arith))
          (set_status-AllSound arg w s status)
  ]

  if_Follows :
      {A : Type 0} (b : Bool) (m k : M A) (w : World)
      → Follows w (m w).1
      → Follows w (k w).1
      → Follows w ((if b then m else k) w).1
  if_Follows true m k w hm hk = hm
  if_Follows false m k w hm hk = hk

  guarded_Follows :
      (b : Bool) (m : M (Unit {0})) (w : World)
      → Follows w (m w).1
      → Follows w ((undefined_if b >> m) w).1
  unfolding running
  guarded_Follows true m w h = Follows-refl w
  guarded_Follows false m w h = h

  force_close-Follows :
      (arg ep : ℕ) (w : World)
      → Follows w ((ffi_unit (Call.ep_close_nb ep CloseMode.force) >> drop_weak arg) w).1
  unfolding running
  force_close-Follows arg ep w =
      let called = record w { trace = Call.ep_close_nb ep CloseMode.force ∷ w.trace } in
      let f = drop_weak-Follows arg called in
      record { ages = λ p. f.ages p; next_same = f.next_same }

  callback-Follows :
      (arg ep : ℕ) (status : Status) (w : World) → Follows w (callback ucx arg ep status w).1
  unfolding callback ◌>>=◌ read
  callback-Follows arg ep status w = guarded_Follows _ _ w (
      if_Follows ((w.inners arg).strong == 0) _ _ w (force_close-Follows arg ep w)
        (set_status-Follows arg status w))

  handle-Steady : (e : Event) → Steady (handle ucx e)
  unfolding handle
  handle-Steady (err_handler arg ep status) = record {
    sound = callback-AllSound arg ep status;
    follows = λ w s. callback-Follows arg ep status w;
  }
  handle-Steady (task_closes arg) = closed-Steady arg

  deliver-Steady : (es : List Event) → Steady (deliver ucx es)
  unfolding deliver
  deliver-Steady [] = pure-Steady tt
  deliver-Steady (e ∷ es) = bind-Steady (handle-Steady e) (λ _. deliver-Steady es)

  pub suspend-Steady : Steady (suspend ucx)
  unfolding suspend
  suspend-Steady =
      bind-Steady coming-Steady
        (λ es. bind-Steady (ffi_unit-Steady Call.yielded) (λ _. deliver-Steady es))
