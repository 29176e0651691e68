-- ===== src/BuildScript.antt =====
-- ucx1-sys/build.rs: the script that builds UCX from its source before the crate is compiled. What the
-- files and the other programs do is a parameter; the text of their arguments is left out.
pub mod Laws
use async_ucx.Base.{
  ℕ, Bool, true, false, not, ◌&&◌, Option, none, some, List, [], ◌∷◌, if◌then◌else◌,
}

pub data Library : Type 0 where
  ucp uct ucs ucm : Library

-- What the script looks for.
pub data Place : Type 0 where
  installed : Library → Place
  submodule_git copied_source : Place

-- What it does. `says_*` are the lines that it prints for cargo.
pub data Deed : Type 0 where
  says_search says_link says_wrapper : Deed
  update_submodule create_build_dir copy_source autogen configure : Deed
  make : (jobs : ℕ) → Deed
  make_install generate write_bindings : Deed

-- The files and programs, by what has been done so far, newest first: whether a file exists; whether a
-- program could be started, or bindgen and the writing of its result did not fail; and the variables of the
-- environment. `out_dir_os` is OUT_DIR in any encoding.
pub record Shell : Type 0 where
  pub exists : List Deed → Place → Bool
  pub succeeds : List Deed → Deed → Bool
  pub out_dir_os : Option ℕ
  pub out_dir : Option ℕ
  pub num_jobs : Option ℕ

-- A run from what has been done to a result, or to none after a panic.
abbrev pub Script : Type 0 → Type 0
Script A = List Deed → Option A × List Deed

infixl 5 ◌>>=◌ ◌>>◌
abbrev pub proceed : {A B : Type 0} → (A → Script B) → Option A × List Deed → Option B × List Deed
proceed f (some a, t) = f a t
proceed f (none, t) = (none, t)

unfoldable pub ◌>>=◌ : {A B : Type 0} → Script A → (A → Script B) → Script B
◌>>=◌ m f t = proceed f (m t)

abbrev pub ◌>>◌ : {B : Type 0} → Script (Unit {0}) → Script B → Script B
m >> k = m >>= λ _. k

abbrev pub skip : Script (Unit {0})
skip t = (some tt, t)

-- `env::var(..).unwrap()`
abbrev pub variable : Option ℕ → Script ℕ
variable v t = (v, t)

abbrev pub say : Deed → Script (Unit {0})
say d t = (some tt, d ∷ t)

module _ (sh : Shell) where
  abbrev pub exists : Place → Script Bool
  exists p t = (some (sh.exists t p), t)

  -- `let _ = ...`: whatever comes of it.
  abbrev pub try : Deed → Script (Unit {0})
  try d t = (some tt, d ∷ t)

  -- `.status().expect(..)`: a panic if the program cannot be started; its exit code is not looked at.
  unfoldable pub expect : Deed → Script (Unit {0})
  expect d t = if sh.succeeds t d then (some tt, d ∷ t) else (none, d ∷ t)

  -- The test on the four libraries.
  unfoldable pub outputs_exist : Script Bool
  outputs_exist t = (
    some (
        sh.exists t (Place.installed uct)
        && sh.exists t (Place.installed ucs)
        && sh.exists t (Place.installed ucm)
        && sh.exists t (Place.installed ucp)),
    t,
  )

  -- The function after its early return.
  unfoldable pub build : Script (Unit {0})
  build = do
    there ← exists submodule_git
    if there then skip else try update_submodule
    try create_build_dir
    copied ← exists copied_source
    if copied then skip else try copy_source
    expect autogen
    expect configure
    jobs ← variable sh.num_jobs
    expect (make jobs)
    expect make_install

  unfoldable pub build_from_source : Script (Unit {0})
  build_from_source = do
    dst ← variable sh.out_dir_os
    built ← outputs_exist
    if built then skip else build

  unfoldable pub main : Script (Unit {0})
  main = do
    dst ← variable sh.out_dir_os
    say says_search
    say says_link
    say says_wrapper
    build_from_source
    expect generate
    out_path ← variable sh.out_dir
    expect write_bindings
