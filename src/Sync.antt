-- ===== src/Sync.antt =====
-- What the code takes from crossbeam, tokio and futures: a queue, a notification and a channel, by
-- their operations and by what their documentation says of them.
use async_ucx.Base.{
  ℕ, zero, suc, ◌-◌, ◌≡◌, Bool, true, false, Option, none, some, List, [], ◌∷◌, ◌++◌, if◌then◌else◌,
}

abbrev pub head {ℓ} : {A : Type ℓ} → List A → Option A
head [] = none
head (x ∷ _) = some x

abbrev pub tail {ℓ} : {A : Type ℓ} → List A → List A
tail [] = []
tail (_ ∷ xs) = xs

-- `crossbeam::queue::SegQueue`: a queue without bound, first in, first out.
pub record SegQueue (A : Type 0) : Type 1 where
  pub Queue : Type 0
  pub empty : Queue
  pub push : A → Queue → Queue
  pub pop : Queue → Option A × Queue
  pub contents : Queue → List A
  pub contents-empty : contents empty ≡ []
  pub contents-push : (a : A) (q : Queue) → contents (push a q) ≡ contents q ++ (a ∷ [])
  pub popped : (q : Queue) → (pop q).0 ≡ head (contents q)
  pub contents-pop : (q : Queue) → contents (pop q).1 ≡ tail (contents q)

-- What `tokio::sync::Notify` remembers: one permit at most, how many tasks wait for a notification,
-- and how many have got one and did not run since.
pub record Waiters : Type 0 where
  pub permit : Bool
  pub waiting : ℕ
  pub woken : ℕ

-- `notify_one`: a task that waits is woken; where none does, the permit is kept for the next one.
abbrev pub notified_one : Waiters → Waiters
notified_one v = elim v.waiting [
  | zero ↦ record v { permit = true }
  | suc k ↦ record v { waiting = k; woken = suc v.woken }
]

-- The first poll of `notified().await`: it takes the permit, or the task waits.
abbrev pub began : Waiters → Waiters
began v = if v.permit then record v { permit = false } else record v { waiting = suc v.waiting }

-- A task that was woken runs.
abbrev pub resumed : Waiters → Waiters
resumed v = record v { woken = v.woken - 1 }

-- A task that waits is dropped.
abbrev pub left : Waiters → Waiters
left v = record v { waiting = v.waiting - 1 }

-- `tokio::sync::Notify`. `begin` is the first poll of `notified().await`, which says whether it is
-- over at once; `resume` is the poll after the task was woken; `leave` is the drop of a future that
-- waits. A future that was woken and is dropped before it runs passes the notification on.
pub record Notify : Type 1 where
  pub State : Type 0
  pub idle : State
  pub notify_one : State → State
  pub begin : State → Bool × State
  pub resume : State → State
  pub leave : State → State
  pub view : State → Waiters
  pub view-idle : view idle ≡ record { permit = false; waiting = 0; woken = 0 }
  pub view-notify_one : (n : State) → view (notify_one n) ≡ notified_one (view n)
  pub begun : (n : State) → (begin n).0 ≡ (view n).permit
  pub view-begin : (n : State) → view (begin n).1 ≡ began (view n)
  pub view-resume : (n : State) → view (resume n) ≡ resumed (view n)
  pub view-leave : (n : State) → view (leave n) ≡ left (view n)

-- The poll of the next item of a channel.
pub data Next (A : Type 0) : Type 0 where
  item : A → Next A
  pending ended : Next A

-- What a poll finds: an item, or it waits while there is a sender, or the channel is at its end.
abbrev pub next_of : {A : Type 0} → List A → (senders : ℕ) → Next A
next_of (x ∷ xs) n = item x
next_of [] zero = ended
next_of [] (suc n) = pending

-- `futures::channel::mpsc::unbounded`: `send` is `unbounded_send`, which says whether it was sent.
pub record Channel (A : Type 0) : Type 1 where
  pub State : Type 0
  pub unbounded : State
  pub send : A → State → Bool × State
  pub poll_next : State → Next A × State
  pub contents : State → List A
  pub senders : State → ℕ
  pub receiver : State → Bool
  pub contents-unbounded : contents unbounded ≡ []
  pub senders-unbounded : senders unbounded ≡ 1
  pub receiver-unbounded : receiver unbounded ≡ true
  pub sent : (x : A) (s : State) → (send x s).0 ≡ receiver s
  pub contents-send :
      (x : A) (s : State) → receiver s ≡ true → contents (send x s).1 ≡ contents s ++ (x ∷ [])
  pub senders-send : (x : A) (s : State) → senders (send x s).1 ≡ senders s
  pub receiver-send : (x : A) (s : State) → receiver (send x s).1 ≡ receiver s
  pub polled : (s : State) → (poll_next s).0 ≡ next_of (contents s) (senders s)
  pub contents-poll_next : (s : State) → contents (poll_next s).1 ≡ tail (contents s)
  pub senders-poll_next : (s : State) → senders (poll_next s).1 ≡ senders s
  pub receiver-poll_next : (s : State) → receiver (poll_next s).1 ≡ receiver s

-- `futures::task::AtomicWaker`, which holds one waker at most: `register` replaces it, and `wake` takes
-- it and calls it.
pub record AtomicWaker : Type 1 where
  pub State : Type 0
  pub new : State
  pub register : ℕ → State → State
  pub wake : State → Option ℕ × State
  pub held : State → Option ℕ
  pub held-new : held new ≡ none
  pub held-register : (task : ℕ) (s : State) → held (register task s) ≡ some task
  pub woken : (s : State) → (wake s).0 ≡ held s
  pub held-wake : (s : State) → held (wake s).1 ≡ none
