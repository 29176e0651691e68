-- ===== src/BuildScript/Laws.antt =====
-- What a run of the build script has done when it ends.
use async_ucx.Base.{
  ℕ, Bool, true, false, ◌&&◌, ◌≡◌, refl, ap, sym, ◌∙◌, Option, none, some, List, [], ◌∷◌,
  if◌then◌else◌, Bool-cases, Option-cases, inl, inr, arith,
}
use async_ucx.BuildScript.{
  Deed, Place, Library, Shell, Script, ◌>>=◌, skip, proceed, build, variable, exists, try, expect,
  outputs_exist, build_from_source, main, autogen, configure, make, make_install, generate,
  write_bindings, update_submodule, copy_source, create_build_dir, submodule_git, copied_source,
  ucp, uct, ucs, ucm, installed, says_search, says_link, says_wrapper,
}

-- The deeds that stop the script where they fail.
abbrev is_needed : Deed → Bool
is_needed autogen = true
is_needed configure = true
is_needed (make jobs) = true
is_needed make_install = true
is_needed generate = true
is_needed write_bindings = true
is_needed _ = false

abbrev older : List Deed → List Deed
older [] = []
older (d ∷ t) = t

module _ (sh : Shell) where
  -- Each deed that was needed has succeeded.
  abbrev pub AllDone : List Deed → Type 0
  AllDone [] = Unit {0}
  AllDone (d ∷ t) = (is_needed d ≡ true → sh.succeeds t d ≡ true) × AllDone t

  -- All is done after a return, and all but the newest deed after a panic.
  abbrev pub EndsDone : {A : Type 0} → Option A × List Deed → Type 0
  EndsDone (some a, t) = AllDone t
  EndsDone (none, t) = AllDone (older t)

  older-AllDone : (t : List Deed) → AllDone t → AllDone (older t)
  older-AllDone [] h = tt
  older-AllDone (d ∷ t) h = h.1

  record Keeps {A : Type 0} (m : Script A) : Type 0 where
    holds : (t : List Deed) → AllDone t → EndsDone (m t)

  bind-Keeps :
      {A B : Type 0} {m : Script A} {f : A → Script B}
      → Keeps m
      → ((a : A) → Keeps (f a))
      → Keeps (m >>= f)
  unfolding ◌>>=◌
  bind-Keeps {A = A} {m = m} {f = f} hm hf = record { holds = λ t h. goes_on (m t) (hm.holds t h) }
    where
      goes_on : (r : Option A × List Deed) → EndsDone r → EndsDone (proceed f r)
      goes_on (some a, t) p = (hf a).holds t p
      goes_on (none, t) p = p

  variable-Keeps : (v : Option ℕ) → Keeps (variable v)
  variable-Keeps (some x) = record { holds = λ t h. h }
  variable-Keeps none = record { holds = older-AllDone }

  free-Keeps : (d : Deed) → is_needed d ≡ false → Keeps (try sh d)
  free-Keeps d e = record { holds = λ t h. ((λ n. ground (arith, e, n)), h) }

  expect-Keeps : (d : Deed) → Keeps (expect sh d)
  unfolding expect
  expect-Keeps d = record {
    holds =
        λ t h. elim (Bool-cases (sh.succeeds t d)) [ inl e ↦ rw e ((λ n. e), h) | inr e ↦ rw e h ];
  }

  -- A step that may be left out.
  if-Keeps : (b : Bool) {m k : Script (Unit {0})} → Keeps m → Keeps k → Keeps (if b then m else k)
  if-Keeps true hm hk = hm
  if-Keeps false hm hk = hk

  exists-Keeps : (p : Place) → Keeps (exists sh p)
  exists-Keeps p = record { holds = λ t h. h }

  skip-Keeps : Keeps skip
  skip-Keeps = record { holds = λ t h. h }

  build-Keeps : Keeps (build sh)
  unfolding build
  build-Keeps = bind-Keeps (exists-Keeps submodule_git) (λ there.
      bind-Keeps (if-Keeps there skip-Keeps (free-Keeps update_submodule refl)) (λ _.
        bind-Keeps (free-Keeps create_build_dir refl) (λ _.
          bind-Keeps (exists-Keeps copied_source) (λ copied.
            bind-Keeps (if-Keeps copied skip-Keeps (free-Keeps copy_source refl)) (λ _.
              bind-Keeps (expect-Keeps autogen) (λ _. bind-Keeps (expect-Keeps configure) (λ _.
                bind-Keeps (variable-Keeps sh.num_jobs) (λ jobs.
                  bind-Keeps (expect-Keeps (make jobs)) (λ _. expect-Keeps make_install)))))))))

  outputs_exist-Keeps : Keeps (outputs_exist sh)
  unfolding outputs_exist
  outputs_exist-Keeps = record { holds = λ t h. h }

  build_from_source-Keeps : Keeps (build_from_source sh)
  unfolding build_from_source
  build_from_source-Keeps =
      bind-Keeps (variable-Keeps sh.out_dir_os)
        (λ dst. bind-Keeps outputs_exist-Keeps (λ built. if-Keeps built skip-Keeps build-Keeps))

  -- When the script ends, each run of autogen.sh, configure, make and bindgen and the writing of the bindings
  -- has not failed (a program: it could be started), but for the newest deed after a panic: the script
  -- goes on after none that has.
  pub main-EndsDone : EndsDone (main sh [])
  unfolding main
  main-EndsDone =
      (bind-Keeps (variable-Keeps sh.out_dir_os) (λ dst.
          bind-Keeps (free-Keeps says_search refl) (λ _.
            bind-Keeps (free-Keeps says_link refl) (λ _.
              bind-Keeps (free-Keeps says_wrapper refl) (λ _.
                bind-Keeps build_from_source-Keeps (λ _. bind-Keeps (expect-Keeps generate) (λ _.
                  bind-Keeps (variable-Keeps sh.out_dir)
                    (λ out_path. expect-Keeps write_bindings)))))))).holds
        [] tt

  -- The script returns, if at all, right after this deed.
  record EndsIn {A : Type 0} (d : Deed) (m : Script A) : Type 0 where
    holds :
        (t : List Deed) (a : A) → (m t).0 ≡ some a → (before : List Deed) × ((m t).1 ≡ d ∷ before)

  then-EndsIn :
      {A B : Type 0} {d : Deed} (m : Script A) {f : A → Script B}
      → ((a : A) → EndsIn d (f a))
      → EndsIn d (m >>= f)
  unfolding ◌>>=◌
  then-EndsIn {A = A} {B = B} {d = d} m {f = f} h = record { holds = λ t. goes_on (m t) }
    where
      goes_on :
          (r : Option A × List Deed) (b : B)
          → (proceed f r).0 ≡ some b
          → (before : List Deed) × ((proceed f r).1 ≡ d ∷ before)
      goes_on (some a, t) b p = (h a).holds t b p
      goes_on (none, t) b p = cc

  expect-EndsIn : (d : Deed) → EndsIn d (expect sh d)
  unfolding expect
  expect-EndsIn d = record {
    holds = λ t a r. elim (Bool-cases (sh.succeeds t d)) [
      | inl e ↦ rw e (t, refl)
      | inr e ↦ rw e (t, refl)
    ];
  }

  build-EndsIn : EndsIn make_install (build sh)
  unfolding build
  build-EndsIn = then-EndsIn _ (λ there. then-EndsIn _ (λ _. then-EndsIn _ (λ _.
      then-EndsIn _ (λ copied. then-EndsIn _ (λ _. then-EndsIn _ (λ _.
        then-EndsIn _
          (λ _. then-EndsIn _ (λ jobs. then-EndsIn _ (λ _. expect-EndsIn make_install)))))))))

  abbrev pub all_there : List Deed → Bool
  all_there t =
      sh.exists t (installed uct)
      && sh.exists t (installed ucs)
      && sh.exists t (installed ucm)
      && sh.exists t (installed ucp)

  build_from_source_cases :
      (dst : ℕ)
      → sh.out_dir_os ≡ some dst
      → (t : List Deed)
      → build_from_source sh t ≡ (if all_there t then (some tt, t) else build sh t)
  unfolding build_from_source outputs_exist ◌>>=◌
  build_from_source_cases dst d t = elim (Bool-cases (all_there t)) [
    | inl e ↦ simp (d, e)
    | inr e ↦ simp (d, e)
  ]

  no_directory : sh.out_dir_os ≡ none → (t : List Deed) → (build_from_source sh t).0 ≡ none
  unfolding build_from_source ◌>>=◌
  no_directory e t = rw e refl

  all_exist :
      (t : List Deed) → ((l : Library) → sh.exists t (installed l) ≡ true) → all_there t ≡ true
  all_exist t h = rw (h uct, h ucs, h ucm, h ucp) refl

  -- A run that returns leaves the four libraries there.
  there_after :
      (t : List Deed) (r : Option (Unit {0}) × List Deed) (b : Bool)
      → ((l : Library) (t : List Deed) → sh.exists (make_install ∷ t) (installed l) ≡ true)
      → all_there t ≡ b
      → r ≡ (if b then (some tt, t) else build sh t)
      → r.0 ≡ some tt
      → all_there r.1 ≡ true
  there_after t r true made e q p = ap (λ r. all_there r.1) q ∙ e
  there_after t r false made e q p =
      let (before, s) = build-EndsIn.holds t tt (sym (ap (λ r. r.0) q) ∙ p) in
      ap (λ r. all_there r.1) q
      ∙ ap all_there s
      ∙ all_exist (make_install ∷ before) (λ l. made l before)

  -- Where `make install` puts the four libraries in their place, a run of build_from_source that returns is
  -- the last that does anything: the next one returns and does nothing.
  pub built_once :
      ((l : Library) (t : List Deed) → sh.exists (make_install ∷ t) (installed l) ≡ true)
      → (t : List Deed) → (build_from_source sh t).0 ≡ some tt
      → build_from_source sh (build_from_source sh t).1 ≡ (some tt, (build_from_source sh t).1)
  built_once made t p = elim (Option-cases sh.out_dir_os) [
    | inr (dst, d) ↦
        let q = build_from_source_cases dst d in
        q (build_from_source sh t).1
        ∙ ap
            (λ b.
              if b
              then (some tt, (build_from_source sh t).1)
              else build sh (build_from_source sh t).1)
            (there_after t (build_from_source sh t) (all_there t) made refl (q t) p)
    | inl d ↦ let e = no_directory d t in cc
  ]

  abbrev pub says : List Deed
  says = says_wrapper ∷ says_link ∷ says_search ∷ []

  -- What is done before autogen.sh.
  abbrev pub prepared : List Deed → List Deed
  prepared t =
      let t = create_build_dir ∷ (if sh.exists t submodule_git then t else update_submodule ∷ t) in
      if sh.exists t copied_source then t else copy_source ∷ t

  -- Where the libraries are not there, the variables are set and nothing that is needed fails, the script
  -- fetches and copies the source if it is not there, makes the build directory, runs autogen.sh,
  -- configure, make with the number of jobs and make install, each once and in this order, and then
  -- generates the bindings and writes them.
  pub main_builds :
      (dst jobs : ℕ)
      → sh.out_dir_os ≡ some dst
      → sh.out_dir ≡ some dst
      → sh.num_jobs ≡ some jobs
      → ((t : List Deed) (d : Deed) → sh.succeeds t d ≡ true)
      → all_there says ≡ false
      → main sh [] ≡ (
        some tt,
        write_bindings ∷ generate ∷ make_install ∷ make jobs ∷ configure ∷ autogen ∷ prepared says,
      )
  unfolding main build_from_source build outputs_exist expect ◌>>=◌
  main_builds dst jobs d d' j ok absent = elim (Bool-cases (sh.exists says submodule_git)) [
    | inl e ↦ elim (Bool-cases (sh.exists (create_build_dir ∷ says) copied_source)) [
      | inl f ↦ simp (d, d', j, ok, absent, e, f)
      | inr f ↦ simp (d, d', j, ok, absent, e, f)
    ]
    | inr e ↦
        elim (Bool-cases (sh.exists (create_build_dir ∷ update_submodule ∷ says) copied_source)) [
          | inl f ↦ simp (d, d', j, ok, absent, e, f)
          | inr f ↦ simp (d, d', j, ok, absent, e, f)
        ]
  ]
