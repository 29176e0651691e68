-- ===== src/Lifetimes/Contexts.antt =====
-- `Context::new` of src/ucp/mod.rs as a step of a program; its configuration is dropped at the end.
use async_ucx.Base.{ℕ, ◌≡◌, Bool, List, [], ◌∷◌, ◌++◌}
use async_ucx.Error.{Result}
use async_ucx.Error
use async_ucx.Ffi.{
  Ucx, Call, Outcome, ok, err, panicked, undefined, starved, ◌>>◌, outcome_result, lift, catch,
}
use async_ucx.Ffi.Traces.{After, Triple, bind-Triple, before-Triple, lift-Triple}
use async_ucx.Context.{Config, Context, new_with_config, default_config, drop_config}
use async_ucx.Context
use async_ucx.Lifetimes.{Value, arc, thing, settings, drop_thing}
use async_ucx.Lifetimes.Counted.{Fresh, context_of, new_with_config-InBalance}
use async_ucx.Lifetimes.Things.{config_thing, default_config-InBalance}
use async_ucx.Lifetimes.Traces.{Balanced, Leaves, reordered, thing-Leaves, drop_thing-Leaves}

module _ (ucx : Ucx) (fresh : Fresh ucx) (own : List Value) (am : Bool) (size : ℕ) where
  abbrev made_context : Result Context → List Value
  made_context (Error.Result.ok c) = arc c.handle ∷ []
  made_context (Error.Result.err e) = []

  tried_context :
      (c : Config)
      → Triple
          (Balanced ucx (thing (settings c.handle) ∷ own))
          (catch (new_with_config ucx am size c))
          (λ r. Balanced ucx (made_context r ++ (thing (settings c.handle) ∷ own)))
          (λ _. Unit {0})
  unfolding catch
  tried_context c = record {
    holds = λ w b.
        after (new_with_config ucx am size c w).0 (new_with_config ucx am size c w).1.trace
          (new_with_config-InBalance ucx fresh am size c (thing (settings c.handle) ∷ own) w b);
  }
    where
      after :
          (o : Outcome Context) (t : List Call)
          → Balanced ucx (context_of ucx o ++ (thing (settings c.handle) ∷ own)) t
          → After
              (λ r. Balanced ucx (made_context r ++ (thing (settings c.handle) ∷ own)))
              (λ _. Unit {0})
              (outcome_result o)
              t
      after (ok a) t h = h
      after (err x) t h = h
      after panicked t h = tt
      after undefined t h = tt
      after starved t h = tt

  ends_config :
      (c : Config) (r : Result Context)
      → Triple
          (Balanced ucx (made_context r ++ (thing (settings c.handle) ∷ own)))
          (drop_config c >> lift r)
          (λ a. Balanced ucx (arc a.handle ∷ own))
          (λ _. Unit {0})
  unfolding drop_config drop_thing
  ends_config c (Error.Result.ok a) =
      bind-Triple
        (before-Triple (reordered ucx (thing (settings c.handle)) (arc a.handle ∷ []) own)
          (drop_thing-Leaves ucx (arc a.handle ∷ own) (settings c.handle)))
        (λ _. pure_ok a)
    where
      pure_ok :
          (a : Context)
          → Leaves ucx (arc a.handle ∷ own) (lift (Error.Result.ok a)) (λ b. arc b.handle ∷ own)
      pure_ok a =
          lift-Triple (Balanced ucx (arc a.handle ∷ own))
            {Q = λ b. Balanced ucx (arc b.handle ∷ own)} (Error.Result.ok a)
            (λ b t e p. (let same : a ≡ b = cc in rw (← same) p)) (λ t p. tt)
  ends_config c (Error.Result.err e) =
      bind-Triple (drop_thing-Leaves ucx own (settings c.handle)) (λ _.
        lift-Triple (Balanced ucx own) {Q = λ b. Balanced ucx (arc b.handle ∷ own)}
          (Error.Result.err e) (λ b t e p. cc) (λ t p. tt))

  -- `Context::new`, whose configuration is dropped at its end.
  pub context-Leaves : Leaves ucx own (Context.new ucx am size) (λ c. arc c.handle ∷ own)
  unfolding Context.new
  context-Leaves =
      bind-Triple
        (thing-Leaves ucx own (default_config ucx) config_thing
          (λ w h. default_config-InBalance ucx own w h))
        (λ c. bind-Triple (tried_context c) (λ r. ends_config c r))
