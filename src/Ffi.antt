-- ===== src/Ffi.antt =====
-- Running the code against UCX: a state monad over the calls made so far and the shared state of the
-- endpoints, with the outcomes that a Rust function can have.
mod Calls
pub mod Laws
pub mod Traces
pub mod Borrows
pub use Calls.*
use async_ucx.Base.{
  ℕ, suc, ◌+◌, Bool, true, false, Option, none, some, List, [], ◌∷◌, update, if◌then◌else◌,
}
use async_ucx.Ucs.{Status}
use async_ucx.Error.{Error}
use async_ucx.Error

-- src/ucp/endpoint/mod.rs: `EndpointInner`, with the counts of its `Rc`.
pub record Inner : Type 0 where
  pub closed : Bool
  pub status : Status
  pub worker : ℕ
  pub strong : ℕ
  pub weak : ℕ

-- The calls so far, newest first, and the allocations of `EndpointInner` by address.
pub record World : Type 0 where
  pub trace : List Call
  pub inners : ℕ → Inner
  pub next : ℕ

-- `ok` and `err` are the returns of a function with a `Result` (one without never returns `err`).
-- `panicked` is a panic, `undefined` undefined behaviour, `starved` means that the fuel ran out.
pub data Outcome {ℓ} (A : Type ℓ) : Type ℓ where
  ok : A → Outcome A
  err : Error → Outcome A
  panicked undefined starved : Outcome A

abbrev pub M : Type 0 → Type 0
M A = World → Outcome A × World

abbrev pub proceed : {A B : Type 0} → (A → M B) → Outcome A → M B
proceed f (ok a) w = f a w
proceed f (err e) w = (err e, w)
proceed f panicked w = (panicked, w)
proceed f undefined w = (undefined, w)
proceed f starved w = (starved, w)

-- `m?` followed by the rest.
infixl 5 ◌>>=◌ ◌>>◌
unfoldable pub ◌>>=◌ : {A B : Type 0} → M A → (A → M B) → M B
◌>>=◌ m f w = let (o, w') = m w in proceed f o w'

abbrev pub ◌>>◌ : {B : Type 0} → M (Unit {0}) → M B → M B
m >> k = m >>= λ _. k

module _ {A : Type 0} where
  unfoldable pub pure : A → M A
  pure a w = (ok a, w)

  unfoldable pub raise : Error → M A
  raise e w = (err e, w)

  unfoldable pub panic : M A
  panic w = (panicked, w)

  unfoldable pub starve : M A
  starve w = (starved, w)

  unfoldable pub lift : Error.Result A → M A
  lift (Error.Result.ok a) w = (ok a, w)
  lift (Error.Result.err e) w = (err e, w)

  abbrev pub outcome_result : Outcome A → Outcome (Error.Result A)
  outcome_result (ok a) = ok (Error.Result.ok a)
  outcome_result (err e) = ok (Error.Result.err e)
  outcome_result panicked = panicked
  outcome_result undefined = undefined
  outcome_result starved = starved

  -- The call's result as a value.
  unfoldable pub catch : M A → M (Error.Result A)
  catch m w = let (o, w') = m w in (outcome_result o, w')

  -- `MaybeUninit::assume_init`
  unfoldable pub assume_init : Option A → M A
  assume_init (some a) w = (ok a, w)
  assume_init none w = (undefined, w)

  unfoldable pub or_panic : Option A → M A
  or_panic (some a) w = (ok a, w)
  or_panic none w = (panicked, w)

  -- `Result::unwrap`
  unfoldable pub unwrap : Error.Result A → M A
  unwrap (Error.Result.ok a) w = (ok a, w)
  unwrap (Error.Result.err e) w = (panicked, w)

-- `Err(result.unwrap_err())`
unfoldable pub raise_unwrap_err : {A B : Type 0} → Error.Result B → M A
raise_unwrap_err (Error.Result.ok b) w = (panicked, w)
raise_unwrap_err (Error.Result.err e) w = (err e, w)

-- A decrement of a count of `Rc` that is zero is a use of freed memory.
unfoldable pub undefined_if : Bool → M (Unit {0})
undefined_if true w = (undefined, w)
undefined_if false w = (ok tt, w)

-- `assert!`
unfoldable pub assert : Bool → M (Unit {0})
assert true w = (ok tt, w)
assert false w = (panicked, w)

-- A call of the C library.
unfoldable pub ffi : Ucx → Call → M Reply
ffi ucx c w = (ok (ucx.reply w.trace c), record w { trace = c ∷ w.trace })

-- A call with no result that the code looks at.
unfoldable pub ffi_unit : Call → M (Unit {0})
ffi_unit c w = (ok tt, record w { trace = c ∷ w.trace })

-- What the others will do while the task waits.
unfoldable pub coming : Ucx → M (List Event)
coming ucx w = (ok (ucx.events w.trace), w)

-- `&*rc`: an `Rc` that holds a count can be read.
unfoldable pub read : ℕ → M Inner
read p w = (ok (w.inners p), w)

unfoldable pub write : ℕ → Inner → M (Unit {0})
write p i w = (ok tt, record w { inners = update w.inners p i })

-- `Rc::new`
unfoldable pub alloc : Inner → M ℕ
alloc i w = (ok w.next, record w { inners = update w.inners w.next i; next = suc w.next })

-- Named on an `unfolding` line, this opens the operations of the monad.
unfoldable pub running : Unit {0}
unfolding ◌>>=◌ pure raise panic starve lift catch assume_init or_panic unwrap raise_unwrap_err
    undefined_if assert ffi ffi_unit coming read write alloc
running = tt

abbrev pub no_inner : Inner
no_inner = record { closed = false; status = Status.ucs_ok; worker = 0; strong = 0; weak = 0 }

abbrev pub start : World
start = record { trace = []; inners = λ _. no_inner; next = 0 }
