-- ===== src/Endpoint/Waiting.antt =====
-- The loop of `close` in src/ucp/endpoint/mod.rs: a close whose request UCX completes comes to an end.
use async_ucx.Base.{
  ℕ, zero, suc, ◌<◌, ◌≡◌, ◌≢◌, refl, subst, Bool, true, false, ◌∷◌, ◌==◌, if◌then◌else◌, arith, ◌⊎◌,
  inl, inr,
}
use async_ucx.Ucs.{ucs_ptr_is_err}
use async_ucx.Ucs.Codes.{ucs_ok}
use async_ucx.Error.{Error, Result, from_status}
use async_ucx.Error
use async_ucx.Ffi.{Ucx, CloseMode, Call, World, Outcome, ok, err, M, proceed, ◌>>=◌, raise, running}
use async_ucx.Ffi.Laws.{pure-bind}
use async_ucx.EndpointInner.{check, closed, suspend}
use async_ucx.EndpointInner
use async_ucx.EndpointInner.Invariant.{AllSound, Follows, Follows-trans, closed_runs}
use async_ucx.EndpointInner.Steady.{Steady, suspend-Steady}
use async_ucx.Request.Steady.{poll_normal-Steady}
use async_ucx.Request.{ready, pending, poll_normal}
use async_ucx.Request.Finish.{is_ptr_lem}
use async_ucx.Endpoint.Close.{closed_Marks}
use async_ucx.Endpoint.{
  Endpoint, is_closed, get_status, finish_close, after_close_poll, close_wait, close_answered,
  close_handle, close,
}

module _ (ucx : Ucx) (ptr : ℕ) where
  -- After `k` looks at the request that found it in progress, each with a wait behind it, a look finds
  -- it over, with the result `r`.
  pub data Settles : World → ℕ → Result (Unit {0}) → World → Type 0 where
    now :
        {w v : World} {r : Result (Unit {0})}
        → poll_normal ucx ptr w ≡ (ok (ready r), v)
        → Settles w zero r v
    later :
        {w u u' v : World} {k : ℕ} {r : Result (Unit {0})}
        → poll_normal ucx ptr w ≡ (ok pending, u)
        → suspend ucx u ≡ (ok tt, u')
        → Settles u' k r v
        → Settles w (suc k) r v

  abbrev pub freed : World → World
  freed v = record v { trace = Call.request_free ptr ∷ v.trace }

  -- With any fuel above the number of waits the loop ends, with the request freed.
  pub close_wait-Settles :
      {w v : World} {k : ℕ} {r : Result (Unit {0})} (fuel : ℕ)
      → Settles w k r v
      → k < fuel
      → close_wait ucx ptr fuel w ≡ (ok r, freed v)
  unfolding close_wait after_close_poll running
  close_wait-Settles zero c h = absurd (omega arith)
  close_wait-Settles (suc fuel) (now e) h = rw (e, proceed)
  close_wait-Settles (suc fuel) (later e s c) h =
      rw (e, proceed) (rw (s, proceed) (close_wait-Settles fuel c (omega arith)))

  stepped :
      {A : Type 0} {m : M A} {a : A} {w u : World}
      → Steady m
      → m w ≡ (ok a, u)
      → AllSound w
      → AllSound u × Follows w u
  stepped {A} {m} {a} {w} {u} steady e s = (
    subst (λ (r : Outcome A × World). AllSound r.1) e (steady.sound w s),
    subst (λ (r : Outcome A × World). Follows w r.1) e (steady.follows w s),
  )

  -- While the loop runs, other tasks keep the endpoints sound and take none away.
  pub Settles-keeps :
      {w v : World} {k : ℕ} {r : Result (Unit {0})}
      → Settles w k r v
      → AllSound w
      → AllSound v × Follows w v
  Settles-keeps (now e) s = stepped (poll_normal-Steady ucx ptr) e s
  Settles-keeps (later e w c) s =
      let (s1, f1) = stepped (poll_normal-Steady ucx ptr) e s in
      let (s2, f2) = stepped (suspend-Steady ucx) w s1 in
      let (s3, f3) = Settles-keeps c s2 in (s3, Follows-trans f1 (Follows-trans f2 f3))

null_test : (p : ℕ) → p ≢ 0 → (p == 0) ≡ false
null_test p h = ground arith

module _ (ucx : Ucx) (fuel : ℕ) (e : Endpoint) (w : World) where
  -- The one call of a close, its answer and the state after it.
  abbrev pub close_call : Bool → Call
  close_call force = Call.ep_close_nb e.handle (if force then CloseMode.force else CloseMode.flush)

  abbrev pub answer : Bool → ℕ
  answer force = (ucx.reply w.trace (close_call force)).pointer

  abbrev pub asked : Bool → World
  asked force = record w { trace = close_call force ∷ w.trace }

  close_asks :
      (force : Bool)
      → (w.inners e.inner).closed ≡ false
      → (w.inners e.inner).status ≡ ucs_ok
      → close ucx fuel e force w
        ≡ (if answer force == 0 then closed e.inner else close_answered ucx fuel e (answer force))
            (asked force)
  unfolding close close_handle is_closed EndpointInner.is_closed get_status check from_status
      running
  close_asks true open_now healthy = rw (open_now, proceed)
  close_asks false open_now healthy = rw (healthy, proceed)

  waited :
      (p k : ℕ) (r : Result (Unit {0})) (u v : World)
      → Settles ucx p u k r v
      → k < fuel
      → (close_wait ucx p fuel >>= (λ x. finish_close e x)) u ≡ finish_close e r (freed ucx p v)
  unfolding ◌>>=◌
  waited p k r u v settles enough = rw (close_wait-Settles ucx p fuel settles enough, proceed)

  -- How the end of a close can go.
  abbrev pub Finished : Result (Unit {0}) → World → Outcome (Unit {0}) × World → Type 0
  Finished r u res =
      ((r ≡ Error.Result.ok tt) × (res.0 ≡ ok tt) × ((res.1.inners e.inner).closed ≡ true))
      ⊎ ((x : Error) × (r ≡ Error.Result.err x) × (res.0 ≡ err x) × (res.1 ≡ u))

  finishes :
      (r : Result (Unit {0})) (u : World)
      → AllSound u
      → 0 < (u.inners e.inner).strong
      → Finished r u (finish_close e r u)
  unfolding finish_close raise
  finishes (Error.Result.ok _) u s owned =
      let runs = (closed_runs e.inner u s owned).0 in inl (refl, runs, closed_Marks.holds u tt runs)
  finishes (Error.Result.err x) u s owned = inr (x, refl, refl, refl)

  -- A close of an open endpoint without an error, whose request UCX completes after `k` looks, returns
  -- with fuel above `k`. If the request succeeded, and the endpoint has an owner, it returns `Ok(())` and
  -- the endpoint is closed; if not, it returns the error and the endpoint is as the wait left it.
  pub close_completes :
      (force : Bool) (k : ℕ) (r : Result (Unit {0})) (v : World)
      → (w.inners e.inner).closed ≡ false
      → (w.inners e.inner).status ≡ ucs_ok
      → AllSound w
      → 0 < (w.inners e.inner).strong
      → answer force ≢ 0
      → ucs_ptr_is_err ucx.abi (answer force) ≡ false
      → Settles ucx (answer force) (asked force) k r v
      → k < fuel
      → Finished r (freed ucx (answer force) v) (close ucx fuel e force w)
  unfolding close_answered
  close_completes force k r v open_now healthy s owned not_null no_err settles enough =
      let ends : close ucx fuel e force w ≡ finish_close e r (freed ucx (answer force) v) =
        rw
          (
            close_asks force open_now healthy,
            null_test (answer force) not_null,
            is_ptr_lem ucx (answer force) not_null,
            pure-bind,
            no_err,
          )
          (waited (answer force) k r (asked force) v settles enough) in
      let (sound, follows) = Settles-keeps ucx (answer force) settles s in
      rw ends (
        finishes r (freed ucx (answer force) v) sound
          (rw ((follows.ages e.inner).strong_same) owned))
