-- ===== src/Worker/Polling.antt =====
-- The loops of src/ucp/worker.rs that drive a worker: `polling` gives way, and `event_poll` sleeps, only
-- when there is nothing left to do.
use async_ucx.Base.{
  ℕ, zero, suc, ◌≡◌, refl, ◌∙◌, Bool, true, false, List, [], ◌∷◌, ◌==◌, ◌&&◌, leb, arith, ap,
}
use async_ucx.Ucs.{Status}
use async_ucx.Ucs.Codes.{ucs_ok, ucs_err_busy}
use async_ucx.Error.{Error, Result, from_status}
use async_ucx.Error
use async_ucx.Ffi.{
  Ucx, CloseMode, Event, err_handler, task_closes, Call, World, Outcome, ok, err, panicked,
  undefined, starved, M, catch, running, undefined_if, read,
}
use async_ucx.Ffi.Traces.{
  After, Triple, bind-Triple, if-Triple, quiet-Triple, pure-Triple, starve-Triple, unwrap-Triple,
  lift-Triple, assume_init-Triple, ffi-Triple, ffi_unit-Triple, catch-Triple, before-Triple,
  coming-Triple,
}
use async_ucx.EndpointInner.{drop_weak, set_status, closed, callback, handle, deliver, suspend}
use async_ucx.Worker.{
  Worker, progress, after_progress, progress_all, round_of_polling, polling, arm, armed, sleep,
  sleep_if, round_of_events, event_loop, event_poll, event_fd, strong_count,
}

-- The events that come while the task waits keep whatever a forced close keeps.
module _ (ucx : Ucx) (I : List Call → Type 0)
    (force_keeps : (p : ℕ) (t : List Call) → I t → I (Call.ep_close_nb p CloseMode.force ∷ t)) where
  set_status-quiet : (p : ℕ) (s : Status) → Triple I (set_status p s) (λ _. I) I
  unfolding set_status running
  set_status-quiet p s = quiet-Triple I (λ w. ground arith)

  drop_weak-quiet : (p : ℕ) → Triple I (drop_weak p) (λ _. I) I
  unfolding drop_weak running
  drop_weak-quiet p = quiet-Triple I (λ w. ground arith)

  closed-quiet : (p : ℕ) → Triple I (closed p) (λ _. I) I
  unfolding closed running
  closed-quiet p = quiet-Triple I (λ w. ground arith)

  undefined_if-quiet : (b : Bool) → Triple I (undefined_if b) (λ _. I) I
  unfolding undefined_if
  undefined_if-quiet true = quiet-Triple I (λ w. refl)
  undefined_if-quiet false = quiet-Triple I (λ w. refl)

  read-quiet : (p : ℕ) → Triple I (read p) (λ _. I) I
  unfolding read
  read-quiet p = quiet-Triple I (λ w. refl)

  callback-keeps : (arg ep : ℕ) (s : Status) → Triple I (callback ucx arg ep s) (λ _. I) I
  unfolding callback
  callback-keeps arg ep s = bind-Triple (read-quiet arg) (λ i.
      bind-Triple (undefined_if-quiet (i.strong == 0 && i.weak == 0)) (λ _.
        if-Triple (i.strong == 0)
          (bind-Triple (ffi_unit-Triple I (Call.ep_close_nb ep CloseMode.force) (force_keeps ep))
            (λ _. drop_weak-quiet arg))
          (set_status-quiet arg s)))

  handle-keeps : (e : Event) → Triple I (handle ucx e) (λ _. I) I
  unfolding handle
  handle-keeps (err_handler arg ep s) = callback-keeps arg ep s
  handle-keeps (task_closes arg) = closed-quiet arg

  pub deliver-keeps : (es : List Event) → Triple I (deliver ucx es) (λ _. I) I
  unfolding deliver
  deliver-keeps [] = pure-Triple I tt (λ t h. h)
  deliver-keeps (e ∷ es) = bind-Triple (handle-keeps e) (λ _. deliver-keeps es)

module _ (ucx : Ucx) (w : Worker) where
  -- The last call was a progress of the worker that found nothing to do.
  abbrev pub Idle : List Call → Type 0
  Idle (Call.worker_progress h ∷ t) =
      (h ≡ w.handle) × ((ucx.reply t (Call.worker_progress h)).count ≡ 0)
  Idle _ = false ≡ true

  -- The last call armed the worker, which UCX allowed, right after a progress that found nothing to do.
  abbrev pub MaySleep : List Call → Type 0
  MaySleep (Call.worker_arm h ∷ t) = ((ucx.reply t (Call.worker_arm h)).status ≡ ucs_ok) × Idle t
  MaySleep _ = false ≡ true

  -- The task gives way only when the worker is idle, and sleeps only when it may.
  abbrev pub Rests : List Call → Type 0
  Rests [] = Unit {0}
  Rests (Call.yielded ∷ t) = Idle t × Rests t
  Rests (Call.readable fd ∷ t) = MaySleep t × Rests t
  Rests (_ ∷ t) = Rests t

  progress-Rests : Triple Rests (progress ucx w) (λ n t. Rests t × (n ≡ 0 → Idle t)) Rests
  unfolding progress
  progress-Rests =
      bind-Triple
        (ffi-Triple Rests {Q = λ r t. Rests t × (r.count ≡ 0 → Idle t)} ucx
          (Call.worker_progress w.handle) (λ t h. (h, λ z. (refl, z))))
        (λ r. pure-Triple _ r.count (λ t h. h))

  after_progress-Rests :
      (again : M (Unit {0})) (n : ℕ)
      → Triple Rests again (λ _ t. Rests t × Idle t) Rests
      → Triple
          (λ t. Rests t × (n ≡ 0 → Idle t))
          (after_progress ucx again n)
          (λ _ t. Rests t × Idle t)
          Rests
  unfolding after_progress
  after_progress-Rests again zero h = pure-Triple _ tt (λ t p. (p.0, p.1 refl))
  after_progress-Rests again (suc n) h = before-Triple (λ t p. p.0) h

  progress_all-Rests :
      (fuel : ℕ) → Triple Rests (progress_all ucx w fuel) (λ _ t. Rests t × Idle t) Rests
  unfolding progress_all
  progress_all-Rests zero = starve-Triple Rests _
  progress_all-Rests (suc fuel) =
      bind-Triple progress-Rests
        (λ n. after_progress-Rests (progress_all ucx w fuel) n (progress_all-Rests fuel))

  force_keeps : (p : ℕ) (t : List Call) → Rests t → Rests (Call.ep_close_nb p CloseMode.force ∷ t)
  force_keeps p t h = h

  suspend-Rests : Triple (λ t. Rests t × Idle t) (suspend ucx) (λ _. Rests) Rests
  unfolding suspend
  suspend-Rests = bind-Triple (coming-Triple _ ucx Rests) (λ es.
      bind-Triple (ffi_unit-Triple _ {Q = λ _. Rests} Call.yielded (λ t h. (h.1, h.0)))
        (λ _. deliver-keeps ucx Rests force_keeps es))

  armed_ok : (s : Status) → armed s ≡ Error.Result.ok true → s ≡ ucs_ok
  unfolding armed
  armed_ok ucs_ok h = refl
  armed_ok ucs_err_busy h = cc
  armed_ok _ h = cc

  arm-Rests :
      Triple (λ t. Rests t × Idle t) (arm ucx w) (λ b t. Rests t × (b ≡ true → MaySleep t)) Rests
  unfolding arm
  arm-Rests =
      bind-Triple
        (ffi-Triple _ {Q = λ r t. Rests t × (armed r.status ≡ Error.Result.ok true → MaySleep t)}
          ucx (Call.worker_arm w.handle) (λ t h. (h.0, λ e. (armed_ok _ e, h.1))))
        (λ r.
          lift-Triple _ (armed r.status) (λ b t e p. (p.0, λ z. p.1 (e ∙ ap Error.Result.ok z)))
            (λ t p. p.0))

  ok_inner :
      (b : Bool) → ◌≡◌ {A = Error.Result Bool} (Error.Result.ok b) (Error.Result.ok true) → b ≡ true
  ok_inner b e = cc

  caught :
      Triple
        (λ t. Rests t × Idle t)
        (catch (arm ucx w))
        (λ r t. Rests t × (r ≡ Error.Result.ok true → MaySleep t))
        Rests
  caught =
      catch-Triple _ arm-Rests (λ b t h. (h.0, λ e. h.1 (ok_inner b e))) (λ e t h. (h, λ z. cc))

  event_fd-Rests : Triple Rests (event_fd ucx w) (λ _. Rests) Rests
  unfolding event_fd
  event_fd-Rests =
      bind-Triple (ffi-Triple Rests {Q = λ r. Rests} ucx (Call.worker_get_efd w.handle) (λ t h. h))
        (λ r.
          bind-Triple (lift-Triple Rests (from_status r.status) (λ a t e p. p) (λ t p. p))
            (λ _. assume_init-Triple Rests r.handle))

  all_rest : (o : Outcome (Unit {0})) (t : List Call) → After (λ _. Rests) Rests o t → Rests t
  all_rest (ok _) t h = h
  all_rest (err _) t h = h
  all_rest panicked t h = h
  all_rest undefined t h = h
  all_rest starved t h = h

  module _ (owners : List Call → ℕ) where
    count-Rests : Triple Rests (strong_count ucx owners w) (λ _. Rests) Rests
    unfolding strong_count
    count-Rests = record { holds = λ s h. h }

    polling-Triple :
        (inner fuel : ℕ) → Triple Rests (polling ucx owners w inner fuel) (λ _. Rests) Rests
    unfolding polling round_of_polling
    polling-Triple inner zero = starve-Triple Rests _
    polling-Triple inner (suc fuel) = bind-Triple count-Rests (λ n.
        if-Triple (leb n 1) (pure-Triple Rests tt (λ t h. h)) (
          bind-Triple (progress_all-Rests inner)
            (λ _. bind-Triple suspend-Rests (λ _. polling-Triple inner fuel))))

    sleep-Rests :
        (fd : ℕ) → Triple (λ t. Rests t × MaySleep t) (sleep ucx owners w fd) (λ _. Rests) Rests
    unfolding sleep
    sleep-Rests fd = bind-Triple (coming-Triple _ ucx Rests) (λ es.
        bind-Triple (ffi-Triple _ {Q = λ r. Rests} ucx (Call.readable fd) (λ t h. (h.1, h.0))) (λ r.
          bind-Triple (deliver-keeps ucx Rests force_keeps es)
            (λ _. unwrap-Triple Rests (from_status r.status) (λ a t e p. p) (λ t p. p))))

    sleep_if-Rests :
        (fd : ℕ) (b : Bool)
        → Triple
            (λ t. Rests t × (b ≡ true → MaySleep t))
            (sleep_if ucx owners w fd b)
            (λ _. Rests)
            Rests
    unfolding sleep_if
    sleep_if-Rests fd true = before-Triple (λ t h. (h.0, h.1 refl)) (sleep-Rests fd)
    sleep_if-Rests fd false = pure-Triple _ tt (λ t h. h.0)

    event_loop-Rests :
        (fd inner fuel : ℕ)
        → Triple Rests (event_loop ucx owners w fd inner fuel) (λ _. Rests) Rests
    unfolding event_loop round_of_events
    event_loop-Rests fd inner zero = starve-Triple Rests _
    event_loop-Rests fd inner (suc fuel) = bind-Triple count-Rests (λ n.
        if-Triple (leb n 1) (pure-Triple Rests tt (λ t h. h)) (
          bind-Triple (progress_all-Rests inner) (λ _. bind-Triple caught (λ r.
            bind-Triple
              (unwrap-Triple _ r (λ b t e p. (p.0, λ z. p.1 (e ∙ ap Error.Result.ok z)))
                (λ t p. p.0))
              (λ b. bind-Triple (sleep_if-Rests fd b) (λ _. event_loop-Rests fd inner fuel))))))

    event_poll-Triple :
        (inner fuel : ℕ) → Triple Rests (event_poll ucx owners w inner fuel) (λ _. Rests) Rests
    unfolding event_poll
    event_poll-Triple inner fuel = bind-Triple event_fd-Rests (λ fd.
        bind-Triple (ffi-Triple Rests {Q = λ r. Rests} ucx (Call.async_fd fd) (λ t h. h)) (λ r.
          bind-Triple (unwrap-Triple Rests (from_status r.status) (λ a t e p. p) (λ t p. p))
            (λ _. event_loop-Rests fd inner fuel)))

    -- `polling` gives way to others only right after a progress of the worker that found nothing to do,
    -- however it ends and whatever the others do meanwhile.
    pub polling-Rests :
        (inner fuel : ℕ) (s : World)
        → Rests s.trace
        → Rests (polling ucx owners w inner fuel s).1.trace
    polling-Rests inner fuel s h =
        all_rest (polling ucx owners w inner fuel s).0 _ ((polling-Triple inner fuel).holds s h)

    -- `event_poll` sleeps only after UCX has armed the worker, right after a progress that found nothing to
    -- do, however it ends, so that no event that came before the sleep is slept on.
    pub event_poll-Rests :
        (inner fuel : ℕ) (s : World)
        → Rests s.trace
        → Rests (event_poll ucx owners w inner fuel s).1.trace
    event_poll-Rests inner fuel s h =
        all_rest (event_poll ucx owners w inner fuel s).0 _
          ((event_poll-Triple inner fuel).holds s h)
