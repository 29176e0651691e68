-- ===== src/Tests/Builds.antt =====
-- Runs of the build script.
use async_ucx.Base.{◌≡◌, refl, Bool, true, false, some, List, [], ◌∷◌}
use async_ucx.BuildScript.{
  Deed, Place, Shell, outputs_exist, expect, build, ◌>>=◌, build_from_source, main, autogen,
  configure, make, make_install, generate, write_bindings, copy_source, create_build_dir,
  submodule_git, copied_source, installed, says_search, says_link, says_wrapper,
}
use async_ucx.BuildScript.Laws.{built_once, main_builds}

-- The submodule is there; a copy is there once it was made, and the libraries once they were installed.
abbrev found : List Deed → Place → Bool
found t submodule_git = true
found [] _ = false
found (copy_source ∷ t) copied_source = true
found (make_install ∷ t) (installed l) = true
found (d ∷ t) p = found t p

abbrev shell : Shell
shell = record {
  exists = found;
  succeeds = λ t d. true;
  out_dir_os = some 1;
  out_dir = some 1;
  num_jobs = some 8;
}

abbrev said : List Deed
said = says_wrapper ∷ says_link ∷ says_search ∷ []

abbrev after_install : List Deed
after_install = make_install ∷ make 8 ∷ configure ∷ autogen ∷ copy_source ∷ create_build_dir ∷ said

main_builds_example : main shell [] ≡ (some tt, write_bindings ∷ generate ∷ after_install)
main_builds_example = main_builds shell 1 8 refl refl refl (λ t d. refl) refl

builds : (build_from_source shell said).0 ≡ some tt
unfolding build_from_source build outputs_exist expect ◌>>=◌
builds = refl

built_once_example :
    build_from_source shell (build_from_source shell said).1
    ≡ (some tt, (build_from_source shell said).1)
built_once_example = built_once shell (λ l t. refl) said builds
