-- ===== src/Request/Wakers.antt =====
-- `RequestHandle::poll` of src/ucp/endpoint/mod.rs against the completion of the request, whose callback
-- wakes the waker in the `Request` of src/ucp/mod.rs: the completion may come between any two steps.
use async_ucx.Base.{ℕ, ◌≡◌, Bool, true, false, ◌||◌, Option, none, some, ◌==◌, if◌then◌else◌, arith}
use async_ucx.Ffi.{Outcome, ok, undefined}
use async_ucx.Sync.{AtomicWaker}

-- Where the task is: before the first look at the request, between that and the registration of its
-- waker, between that and the second look, waiting after `Poll::Pending`, or finished.
pub data At : Type 0 where
  first_look registration second_look parked finished : At

abbrev pub is_task : ℕ → Option ℕ → Bool
is_task task none = false
is_task task (some t) = t == task

module _ (A : AtomicWaker) where
  pub record Request : Type 0 where
    pub waker : A.State

  -- `Request::init`, on memory of UCX that may hold anything (`none` is memory without a request), and
  -- `Request::cleanup`; where there is no request that is undefined behaviour.
  unfoldable pub init : Option Request → Option Request
  init _ = some (record { waker = A.new })

  unfoldable pub cleanup : Option Request → Outcome (Option Request)
  cleanup (some r) = ok none
  cleanup none = undefined

module _ (A : AtomicWaker) (task : ℕ) where
  -- `over` says that UCX has completed the request, `woken` that the task was woken since it waits.
  pub record Polling : Type 0 where
    pub at : At
    pub over : Bool
    pub waker : A.State
    pub woken : Bool

  -- A look at the request that is ready ends the wait.
  unfoldable pub look : At → Polling → Polling
  look otherwise s = record s { at = if s.over then finished else otherwise }

  unfoldable pub register : Polling → Polling
  register s = record s { at = second_look; waker = A.register task s.waker }

  -- The callback of an operation: UCX has completed the request, and its waker is woken.
  unfoldable pub complete : Polling → Polling
  complete s =
      let (t, a) = A.wake s.waker in
      record s { over = true; waker = a; woken = s.woken || is_task task t }

  -- What can happen next. A task that waits runs again only when it was woken, and a request that UCX
  -- uses again may have an old waker in it.
  pub data Reach : Polling → Type 0 where
    begins :
        (r : Request A) (over : Bool)
        → Reach (record { at = first_look; over = over; waker = r.waker; woken = false })
    looks : {s : Polling} → Reach s → s.at ≡ first_look → Reach (look registration s)
    registers : {s : Polling} → Reach s → s.at ≡ registration → Reach (register s)
    looks_again : {s : Polling} → Reach s → s.at ≡ second_look → Reach (look parked s)
    completes : {s : Polling} → Reach s → s.over ≡ false → Reach (complete s)
    runs :
        {s : Polling}
        → Reach s
        → s.at ≡ parked
        → s.woken ≡ true
        → Reach (record s { at = first_look; woken = false })

  record IsFair (s : Polling) : Type 0 where
    registered : s.at ≡ second_look → s.over ≡ false → A.held s.waker ≡ some task
    parked_registered : s.at ≡ parked → s.over ≡ false → A.held s.waker ≡ some task
    parked_woken : s.at ≡ parked → s.over ≡ true → s.woken ≡ true

  look-IsFair : (s : Polling) → IsFair s → s.at ≡ first_look → IsFair (look registration s)
  unfolding look
  look-IsFair s h e = ground arith

  look_again-IsFair : (s : Polling) → IsFair s → s.at ≡ second_look → IsFair (look parked s)
  unfolding look
  look_again-IsFair s h e = ground arith

  register-IsFair : (s : Polling) → IsFair (register s)
  unfolding register
  register-IsFair s = ground (arith, A.held-register task s.waker)

  complete-IsFair : (s : Polling) → IsFair s → s.over ≡ false → IsFair (complete s)
  unfolding complete
  complete-IsFair s h e = ground (arith, A.woken s.waker)

  Reach-IsFair : {s : Polling} → Reach s → IsFair s
  Reach-IsFair (begins r over) = ground arith
  Reach-IsFair (looks {s} r e) = look-IsFair s (Reach-IsFair r) e
  Reach-IsFair (registers {s} r e) = register-IsFair s
  Reach-IsFair (looks_again {s} r e) = look_again-IsFair s (Reach-IsFair r) e
  Reach-IsFair (completes {s} r e) = complete-IsFair s (Reach-IsFair r) e
  Reach-IsFair (runs r e w) = ground arith

  -- No completion is missed: a task that waits for a request has its waker in it as long as UCX has not
  -- completed the request, and once UCX has, the task was woken, wherever the completion came.
  pub Reach_woken :
      {s : Polling}
      → Reach s
      → s.at ≡ parked
      → (s.over ≡ false → A.held s.waker ≡ some task) × (s.over ≡ true → s.woken ≡ true)
  Reach_woken r e = let h = Reach-IsFair r in (h.parked_registered e, h.parked_woken e)
