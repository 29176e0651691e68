-- ===== src/Request/Await.antt =====
-- Waiting for a request: the result is that of the first poll that is ready, and the request is
-- freed once.
use async_ucx.Base.{true, ℕ, zero, suc, ◌+◌, ◌<◌, ◌≡◌, refl, sym, ap, ◌∙◌, List, [], ◌∷◌, arith}
use async_ucx.Ffi.{
  running, Ucx, Event, err_handler, task_closes, Call, World, Outcome, ok, err, panicked, undefined,
  starved, M, proceed,
}
use async_ucx.Ucs.{is_inprogress}
use async_ucx.EndpointInner.{handle, deliver, suspend}
use async_ucx.Request.{
  Poll, ready, pending, poll_normal, poll_stream, poll_tag, poll_recv, poll, second_poll,
  after_poll, await,
}

module _ (ucx : Ucx) {A : Type 0} (poll_fn : ℕ → M (Poll A)) (ptr : ℕ) where
  -- After `k` polls that were pending, each with a wait behind it, a poll is ready with `a`.
  pub data Completes : World → ℕ → A → World → Type 0 where
    now : {w v : World} {a : A} → poll poll_fn ptr w ≡ (ok (ready a), v) → Completes w zero a v
    later :
        {w u u' v : World} {k : ℕ} {a : A}
        → poll poll_fn ptr w ≡ (ok pending, u)
        → suspend ucx u ≡ (ok tt, u')
        → Completes u' k a v
        → Completes w (suc k) a v

  abbrev registered : World → World
  registered u = record u { trace = Call.waker_register ptr ∷ u.trace }

  abbrev pub freed : World → World
  freed v = record v { trace = Call.request_free ptr ∷ v.trace }

  pub await-Completes :
      {w v : World} {k : ℕ} {a : A} (fuel : ℕ)
      → Completes w k a v
      → k < fuel
      → await ucx poll_fn ptr fuel w ≡ (ok a, freed v)
  unfolding await running
  await-Completes zero c h = absurd (omega arith)
  await-Completes (suc fuel) (now e) h = rw (e, proceed)
  await-Completes (suc fuel) (later e s c) h =
      rw (e, proceed) (rw (s, proceed) (await-Completes fuel c (omega arith)))

  -- What the looks at a request find: in each round two of them, with the registration of the waker in
  -- between and a wait behind the second, until one finds it ready with `a`.
  pub data Looked : World → ℕ → A → World → Type 0 where
    first : {w v : World} {a : A} → poll_fn ptr w ≡ (ok (ready a), v) → Looked w zero a v
    second :
        {w u v : World} {a : A}
        → poll_fn ptr w ≡ (ok pending, u)
        → poll_fn ptr (registered u) ≡ (ok (ready a), v)
        → Looked w zero a v
    neither :
        {w u x y v : World} {k : ℕ} {a : A}
        → poll_fn ptr w ≡ (ok pending, u)
        → poll_fn ptr (registered u) ≡ (ok pending, x)
        → suspend ucx x ≡ (ok tt, y)
        → Looked y k a v
        → Looked w (suc k) a v

  pub Looked-Completes : {w v : World} {k : ℕ} {a : A} → Looked w k a v → Completes w k a v
  unfolding poll second_poll running
  Looked-Completes (first e) = now (rw (e, proceed) refl)
  Looked-Completes (second e f) = now (rw (e, proceed, f) refl)
  Looked-Completes (neither e f s l) = later (rw (e, proceed, f) refl) s (Looked-Completes l)

  -- Each poll of the wait looks at the request, leaves the waker in it if it is not ready, and looks again
  -- before the task waits. With any fuel above the number of waits until a look finds it ready, `await`
  -- returns what that look read, and its last call frees the request.
  pub await-Looked :
      {w v : World} {k : ℕ} {a : A} (fuel : ℕ)
      → Looked w k a v
      → k < fuel
      → await ucx poll_fn ptr fuel w ≡ (ok a, freed v)
  await-Looked fuel l h = await-Completes fuel (Looked-Completes l) h

  -- What a wait that returned has gone through.
  abbrev pub Waited : ℕ → World → A → World → Type 0
  Waited fuel w a v = (k : ℕ) × (u : World) × Completes w k a u × (k < fuel) × (v ≡ freed u)

  after_suspend :
      (fuel : ℕ) (w u : World) (r : Outcome (Unit {0}) × World) (a : A) (v : World)
      → ((x : World) → await ucx poll_fn ptr fuel x ≡ (ok a, v) → Waited fuel x a v)
      → poll poll_fn ptr w ≡ (ok pending, u)
      → suspend ucx u ≡ r
      → proceed (λ _. await ucx poll_fn ptr fuel) r.0 r.1 ≡ (ok a, v)
      → Waited (suc fuel) w a v
  after_suspend fuel w u (ok tt, x) a v ih p s h =
      let (k, y, c, lt, e) = ih x h in (suc k, y, later p s c, omega arith, e)
  after_suspend fuel w u (err _, x) a v ih p s h = cc
  after_suspend fuel w u (panicked, x) a v ih p s h = cc
  after_suspend fuel w u (undefined, x) a v ih p s h = cc
  after_suspend fuel w u (starved, x) a v ih p s h = cc

  after_first :
      (fuel : ℕ) (w : World) (r : Outcome (Poll A) × World) (a : A) (v : World)
      → ((x : World) → await ucx poll_fn ptr fuel x ≡ (ok a, v) → Waited fuel x a v)
      → poll poll_fn ptr w ≡ r
      → proceed (after_poll ucx ptr (await ucx poll_fn ptr fuel)) r.0 r.1 ≡ (ok a, v)
      → Waited (suc fuel) w a v
  unfolding after_poll running
  after_first fuel w (ok (ready b), u) a v ih p h =
      (0, u, now (ground arith), omega arith, ground arith)
  after_first fuel w (ok pending, u) a v ih p h =
      after_suspend fuel w u (suspend ucx u) a v ih p refl h
  after_first fuel w (err _, u) a v ih p h = cc
  after_first fuel w (panicked, u) a v ih p h = cc
  after_first fuel w (undefined, u) a v ih p h = cc
  after_first fuel w (starved, u) a v ih p h = cc

  -- A wait that returns has gone through this: the result is never made up, and no poll that was ready
  -- is passed over.
  pub await-Waited :
      (fuel : ℕ) (w : World) (a : A) (v : World)
      → await ucx poll_fn ptr fuel w ≡ (ok a, v)
      → Waited fuel w a v
  unfolding await running
  await-Waited zero w a v h = cc
  await-Waited (suc fuel) w a v h =
      after_first fuel w (poll poll_fn ptr w) a v (λ x. await-Waited fuel x a v) refl h

-- The same by what UCX answers to the call that tests the request: `Busy w k v` says that from `w` on, and
-- after `k` waits, `v` is the state in front of the first test that does not find it in progress.
module _ (ucx : Ucx) (ask : Call) (ptr : ℕ) where
  abbrev pub asked : World → World
  asked w = record w { trace = ask ∷ w.trace }

  -- After a test, and the registration of the waker.
  abbrev pub again : World → World
  again w = record w { trace = Call.waker_register ptr ∷ ask ∷ w.trace }

  abbrev pub InProgress : World → Type 0
  InProgress w = is_inprogress (ucx.reply w.trace ask).status ≡ true

  pub data Busy : World → ℕ → World → Type 0 where
    first : {w : World} → Busy w zero w
    second : {w : World} → InProgress w → Busy w zero (again w)
    neither :
        {w y v : World} {k : ℕ}
        → InProgress w
        → InProgress (again w)
        → suspend ucx (asked (again w)) ≡ (ok tt, y)
        → Busy y k v
        → Busy w (suc k) v

  -- A poll function that tests with this call and is pending where the test finds it in progress.
  pub Busy-Looked :
      {A : Type 0} (poll_fn : ℕ → M (Poll A))
      → ((w : World) → InProgress w → poll_fn ptr w ≡ (ok pending, asked w))
      → {w v : World} {k : ℕ} {a : A} → Busy w k v
      → poll_fn ptr v ≡ (ok (ready a), asked v)
      → Looked ucx poll_fn ptr w k a (asked v)
  Busy-Looked poll_fn pends first r = Looked.first r
  Busy-Looked poll_fn pends (second {w} p) r = Looked.second (pends w p) r
  Busy-Looked poll_fn pends (neither {w} p q s b) r =
      Looked.neither (pends w p) (pends (again w) q) s (Busy-Looked poll_fn pends b r)

-- How many requests a trace frees.
abbrev pub is_free : Call → ℕ
is_free (Call.request_free p) = 1
is_free _ = 0

abbrev pub frees : List Call → ℕ
frees [] = 0
frees (c ∷ cs) = is_free c + frees cs

-- A function of the code that frees no request, however it ends.
abbrev pub FreesNothing : {A : Type 0} → M A → Type 0
FreesNothing m = (w : World) → frees (m w).1.trace ≡ frees w.trace

module _ (ucx : Ucx) where
  handle-FreesNothing : (e : Event) → FreesNothing (handle ucx e)
  unfolding handle running
  handle-FreesNothing (err_handler arg ep status) w = ground arith
  handle-FreesNothing (task_closes arg) w = ground arith

  deliver-FreesNothing : (es : List Event) → FreesNothing (deliver ucx es)
  unfolding deliver running
  deliver-FreesNothing [] w = refl
  deliver-FreesNothing (e ∷ es) w =
      ground (arith, handle-FreesNothing e w, deliver-FreesNothing es (handle ucx e w).1)

  pub suspend-FreesNothing : FreesNothing (suspend ucx)
  unfolding suspend running
  suspend-FreesNothing w = omega (
    arith,
    deliver-FreesNothing (ucx.events w.trace) (record w { trace = Call.yielded ∷ w.trace }),
  )

  pub poll_normal-FreesNothing : (p : ℕ) → FreesNothing (poll_normal ucx p)
  unfolding poll_normal running
  poll_normal-FreesNothing p w = ground arith

  pub poll_stream-FreesNothing : (p : ℕ) → FreesNothing (poll_stream ucx p)
  unfolding poll_stream running
  poll_stream-FreesNothing p w = ground arith

  pub poll_tag-FreesNothing : (p : ℕ) → FreesNothing (poll_tag ucx p)
  unfolding poll_tag running
  poll_tag-FreesNothing p w = ground arith

  pub poll_recv-FreesNothing : (p : ℕ) → FreesNothing (poll_recv ucx p)
  unfolding poll_recv running
  poll_recv-FreesNothing p w = ground arith

module _ (ucx : Ucx) {A : Type 0} (poll_fn : ℕ → M (Poll A))
    (keeps : (p : ℕ) → FreesNothing (poll_fn p)) (ptr : ℕ) where
  pub poll-FreesNothing : FreesNothing (poll poll_fn ptr)
  unfolding poll running
  poll-FreesNothing w = ground (
    arith,
    keeps ptr w,
    keeps ptr
        (record (poll_fn ptr w).1 { trace = Call.waker_register ptr ∷ (poll_fn ptr w).1.trace }),
  )

  Completes-frees :
      {w v : World} {k : ℕ} {a : A}
      → Completes ucx poll_fn ptr w k a v
      → frees v.trace ≡ frees w.trace
  Completes-frees {w} (now e) = ap (λ r. frees r.1.trace) (sym e) ∙ poll-FreesNothing w
  Completes-frees {w} (later {u = u} e s c) =
      Completes-frees c
      ∙ ap (λ r. frees r.1.trace) (sym s)
      ∙ suspend-FreesNothing ucx u
      ∙ ap (λ r. frees r.1.trace) (sym e)
      ∙ poll-FreesNothing w

  -- With a poll function that frees nothing, a wait that returns has freed one request, its own and as its last call.
  pub await-frees_once :
      (fuel : ℕ) (w : World) (a : A) (v : World)
      → await ucx poll_fn ptr fuel w ≡ (ok a, v)
      → (cs : List Call) × (v.trace ≡ Call.request_free ptr ∷ cs) × (frees cs ≡ frees w.trace)
  await-frees_once fuel w a v h =
      let (k, u, c, lt, e) = await-Waited ucx poll_fn ptr fuel w a v h in
      (u.trace, ap (λ x. x.trace) e, Completes-frees c)
