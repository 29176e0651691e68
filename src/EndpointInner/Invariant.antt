-- ===== src/EndpointInner/Invariant.antt =====
-- What holds of the shared state of every endpoint between two steps of any task, and how that
-- state may change while a task waits.
use async_ucx.Base.{ℕ, ◌<◌, ◌≡◌, ◌≢◌, refl, ◌∙◌, ◌⊎◌, true, false, List, [], ◌∷◌, arith}
use async_ucx.Ucs.{Status}
use async_ucx.Ucs.Codes.{ucs_ok}
use async_ucx.Ffi.{
  running, Ucx, Event, err_handler, task_closes, Call, Inner, World, Outcome, ok, proceed,
}
use async_ucx.EndpointInner.{
  drop_strong, clone_strong, set_status, closed, callback, handle, deliver, suspend,
}

-- UCX owns one weak reference while the endpoint is open, and an `Endpoint` owns a strong one. Once
-- it is closed the weak one is gone and the status is an error. What was never made, or failed to
-- be, has no count left.
pub record IsSound (i : Inner) : Type 0 where
  pub open_counted :
      i.closed ≡ false → ((i.weak ≡ 1) × (0 < i.strong)) ⊎ ((i.weak ≡ 0) × (i.strong ≡ 0))
  pub closed_released : i.closed ≡ true → (i.weak ≡ 0) × (i.status ≢ ucs_ok)

abbrev pub AllSound : World → Type 0
AllSound w = (p : ℕ) → IsSound (w.inners p)

-- An endpoint that is closed stays closed, and one with an error keeps having one.
pub record Ages (i j : Inner) : Type 0 where
  pub closed_stays : i.closed ≡ true → j.closed ≡ true
  pub failed_stays : i.status ≢ ucs_ok → j.status ≢ ucs_ok
  pub strong_same : j.strong ≡ i.strong
  pub worker_same : j.worker ≡ i.worker

pub record Follows (w v : World) : Type 0 where
  pub ages : (p : ℕ) → Ages (w.inners p) (v.inners p)
  pub next_same : v.next ≡ w.next

Ages-refl : (i : Inner) → Ages i i
Ages-refl i = ground arith

Ages-trans : {i j k : Inner} → Ages i j → Ages j k → Ages i k
Ages-trans a b = record {
  closed_stays = λ h. b.closed_stays (a.closed_stays h);
  failed_stays = λ h. b.failed_stays (a.failed_stays h);
  strong_same = b.strong_same ∙ a.strong_same;
  worker_same = b.worker_same ∙ a.worker_same;
}

pub Follows-refl : (w : World) → Follows w w
Follows-refl w = record { ages = λ p. Ages-refl (w.inners p); next_same = refl }

pub Follows-trans : {u v w : World} → Follows u v → Follows v w → Follows u w
Follows-trans a b = record {
  ages = λ p. Ages-trans (a.ages p) (b.ages p);
  next_same = b.next_same ∙ a.next_same;
}

-- Whom an event is about, which still has an owner when it comes.
abbrev pub target : Event → ℕ
target (err_handler arg ep status) = arg
target (task_closes arg) = arg

abbrev pub Alive : World → Event → Type 0
Alive w e = 0 < (w.inners (target e)).strong

abbrev pub AllAlive : World → List Event → Type 0
AllAlive w [] = Unit {0}
AllAlive w (e ∷ es) = Alive w e × AllAlive w es

module _ (p : ℕ) (w : World) (s : AllSound w) where
  pub closed-AllSound : AllSound (closed p w).1
  unfolding closed running
  closed-AllSound q = ground (arith, s p, s q)

  closed-Ages : (q : ℕ) → Ages (w.inners q) ((closed p w).1.inners q)
  unfolding closed running
  closed-Ages q = ground (arith, s p, s q)

  pub closed_runs :
      0 < (w.inners p).strong → ((closed p w).0 ≡ ok tt) × ((closed p w).1.trace ≡ w.trace)
  unfolding closed running
  closed_runs h = ground (arith, s p)

  pub set_status-AllSound : (status : Status) → AllSound (set_status p status w).1
  unfolding set_status running
  set_status-AllSound status q = ground (arith, s p, s q)

  pub drop_strong-AllSound : (w.inners p).closed ≡ true → AllSound (drop_strong p w).1
  unfolding drop_strong running
  drop_strong-AllSound h q = ground (arith, s p, s q)

  pub clone_strong-AllSound : 0 < (w.inners p).strong → AllSound (clone_strong p w).1
  unfolding clone_strong running
  clone_strong-AllSound h q = ground (arith, s p, s q)

pub closed-Follows : (p : ℕ) (w : World) → AllSound w → Follows w (closed p w).1
unfolding closed running
closed-Follows p w s = record { ages = closed-Ages p w s; next_same = ground (arith, s p) }

pub set_status-Follows : (p : ℕ) (status : Status) (w : World) → Follows w (set_status p status w).1
unfolding set_status running
set_status-Follows p status w = record { ages = λ q. ground arith; next_same = ground arith }

set_status_runs :
    (p : ℕ) (status : Status) (w : World)
    → ((set_status p status w).0 ≡ ok tt) × ((set_status p status w).1.trace ≡ w.trace)
unfolding set_status running
set_status_runs p status w = ground arith

-- A step of other tasks went well: it kept the invariant, no endpoint lost what it had, and UCX was
-- not called.
pub record Quiet (w : World) (r : Outcome (Unit {0}) × World) : Type 0 where
  pub runs : r.0 ≡ ok tt
  pub no_call : r.1.trace ≡ w.trace
  pub sound : AllSound r.1
  pub follows : Follows w r.1

module _ (ucx : Ucx) where
  -- On an endpoint that has an owner, the error handler stores the status and does nothing else:
  -- its branch that closes the endpoint by force is not taken.
  pub callback_stores :
      (arg ep : ℕ) (status : Status) (w : World)
      → AllSound w
      → 0 < (w.inners arg).strong
      → callback ucx arg ep status w ≡ set_status arg status w
  unfolding callback running
  callback_stores arg ep status w s h = ground (arith, s arg)

  handle-Quiet : (e : Event) (w : World) → AllSound w → Alive w e → Quiet w (handle ucx e w)
  unfolding handle running
  handle-Quiet (err_handler arg ep status) w s h =
      rw (callback_stores arg ep status w s h) (record {
        runs = (set_status_runs arg status w).0;
        no_call = (set_status_runs arg status w).1;
        sound = set_status-AllSound arg w s status;
        follows = set_status-Follows arg status w;
      })
  handle-Quiet (task_closes arg) w s h = record {
    runs = (closed_runs arg w s h).0;
    no_call = (closed_runs arg w s h).1;
    sound = closed-AllSound arg w s;
    follows = closed-Follows arg w s;
  }

  AllAlive-Follows : (es : List Event) (w v : World) → Follows w v → AllAlive w es → AllAlive v es
  AllAlive-Follows [] w v f h = tt
  AllAlive-Follows (e ∷ es) w v f h =
      (rw ((f.ages (target e)).strong_same) h.0, AllAlive-Follows es w v f h.1)

  pub deliver-Quiet :
      (es : List Event) (w : World) → AllSound w → AllAlive w es → Quiet w (deliver ucx es w)
  unfolding deliver running
  deliver-Quiet [] w s h = record {
    runs = refl;
    no_call = refl;
    sound = s;
    follows = Follows-refl w;
  }
  deliver-Quiet (e ∷ es) w s h =
      let first = handle-Quiet e w s h.0 in
      let v = (handle ucx e w).1 in
      let rest = deliver-Quiet es v first.sound (AllAlive-Follows es w v first.follows h.1) in
      rw (first.runs, proceed)
        (record {
          runs = rest.runs;
          no_call = rest.no_call ∙ first.no_call;
          sound = rest.sound;
          follows = Follows-trans first.follows rest.follows;
        })

  -- While a task waits, with the endpoints sound and every event about one that has an owner, all goes
  -- well: the endpoints stay sound, none loses an owner or opens again, and UCX is not called.
  pub suspend-Quiet :
      (w : World)
      → AllSound w
      → AllAlive w (ucx.events w.trace)
      → Quiet (record w { trace = Call.yielded ∷ w.trace }) (suspend ucx w)
  unfolding suspend running
  suspend-Quiet w s h =
      deliver-Quiet (ucx.events w.trace) (record w { trace = Call.yielded ∷ w.trace }) s h
