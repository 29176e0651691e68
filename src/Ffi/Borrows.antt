-- ===== src/Ffi/Borrows.antt =====
-- Functions whose calls hand nothing out and give nothing back keep whatever such calls keep.
use async_ucx.Base.{◌≡◌, refl, Bool, true, false, Option, none, some, List, ◌∷◌}
use async_ucx.Error.{Error, Result}
use async_ucx.Error
use async_ucx.Ffi.{
  Ucx, Call, M, pure, raise, starve, lift, assume_init, or_panic, raise_unwrap_err, ffi, catch,
  unwrap, assert, ffi_unit,
}
use async_ucx.Ffi.Traces.{
  Triple, quiet-Triple, ffi-Triple, ffi_unit-Triple, catch-Triple, unwrap-Triple,
}

-- A call that hands out no resource and gives none back.
abbrev pub is_borrowing : Call → Bool
is_borrowing Call.config_read = false
is_borrowing (Call.config_release c) = false
is_borrowing (Call.init_version p c) = false
is_borrowing (Call.cleanup c) = false
is_borrowing (Call.worker_create c) = false
is_borrowing (Call.worker_destroy w) = false
is_borrowing (Call.worker_get_address w) = false
is_borrowing (Call.worker_release_address w a) = false
is_borrowing (Call.mem_map c a n) = false
is_borrowing (Call.mem_unmap c m) = false
is_borrowing (Call.rkey_pack c m) = false
is_borrowing (Call.rkey_buffer_release b) = false
is_borrowing (Call.rkey_destroy k) = false
is_borrowing (Call.rkey_unpack e bytes) = false
is_borrowing (Call.listener_create w a s) = false
is_borrowing (Call.listener_destroy l) = false
is_borrowing _ = true

-- The function keeps `I`, however it ends.
abbrev pub Keeps : (List Call → Type 0) → {A : Type 0} → M A → Type 0
Keeps I m = Triple I m (λ _. I) I

module _ (I : List Call → Type 0) where
  pub pure-Keeps : {A : Type 0} (a : A) → Keeps I (pure a)
  unfolding pure
  pure-Keeps a = quiet-Triple I (λ w. refl)

  pub raise-Keeps : {A : Type 0} (e : Error) → Keeps I (raise {A = A} e)
  unfolding raise
  raise-Keeps e = quiet-Triple I (λ w. refl)

  pub starve-Keeps : (A : Type 0) → Keeps I (starve {A = A})
  unfolding starve
  starve-Keeps A = quiet-Triple I (λ w. refl)

  pub lift-Keeps : {A : Type 0} (r : Result A) → Keeps I (lift r)
  unfolding lift
  lift-Keeps (Error.Result.ok a) = quiet-Triple I (λ w. refl)
  lift-Keeps (Error.Result.err e) = quiet-Triple I (λ w. refl)

  pub assume_init-Keeps : {A : Type 0} (o : Option A) → Keeps I (assume_init o)
  unfolding assume_init
  assume_init-Keeps (some a) = quiet-Triple I (λ w. refl)
  assume_init-Keeps none = quiet-Triple I (λ w. refl)

  pub or_panic-Keeps : {A : Type 0} (o : Option A) → Keeps I (or_panic o)
  unfolding or_panic
  or_panic-Keeps (some a) = quiet-Triple I (λ w. refl)
  or_panic-Keeps none = quiet-Triple I (λ w. refl)

  pub raise_unwrap_err-Keeps :
      (A : Type 0) {B : Type 0} (r : Result B) → Keeps I (raise_unwrap_err {A = A} r)
  unfolding raise_unwrap_err
  raise_unwrap_err-Keeps A (Error.Result.ok b) = quiet-Triple I (λ w. refl)
  raise_unwrap_err-Keeps A (Error.Result.err e) = quiet-Triple I (λ w. refl)

  module _ (keeps : (c : Call) → is_borrowing c ≡ true → (t : List Call) → I t → I (c ∷ t)) where
    pub ffi-Keeps : (ucx : Ucx) (c : Call) → is_borrowing c ≡ true → Keeps I (ffi ucx c)
    ffi-Keeps ucx c h = ffi-Triple I {Q = λ _. I} ucx c (keeps c h)

    pub ffi_unit-Keeps : (c : Call) → is_borrowing c ≡ true → Keeps I (ffi_unit c)
    ffi_unit-Keeps c h = ffi_unit-Triple I {Q = λ _. I} c (keeps c h)

  pub catch-Keeps : {A : Type 0} {m : M A} → Keeps I m → Keeps I (catch m)
  catch-Keeps h = catch-Triple I h (λ a t p. p) (λ e t p. p)

  pub unwrap-Keeps : {A : Type 0} (r : Result A) → Keeps I (unwrap r)
  unwrap-Keeps r = unwrap-Triple I {Q = λ _. I} {E = I} r (λ a t e p. p) (λ t p. p)

  pub assert-Keeps : (b : Bool) → Keeps I (assert b)
  unfolding assert
  assert-Keeps true = quiet-Triple I (λ w. refl)
  assert-Keeps false = quiet-Triple I (λ w. refl)
