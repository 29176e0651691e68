-- ===== src/Tests/Parts.antt =====
-- A queue, a notification, a channel and a waker to run the code with.
use async_ucx.Base.{ℕ, ◌≡◌, refl, Bool, true, false, Option, none, some, List, [], ◌∷◌, ◌++◌}
use async_ucx.Am.{RawMsg}
use async_ucx.Sync.{
  SegQueue, Notify, Waiters, notified_one, began, resumed, left, head, tail, next_of, Channel,
  AtomicWaker,
}

abbrev pub queue : SegQueue RawMsg
queue = record {
  Queue = List RawMsg;
  empty = [];
  push = λ m q. q ++ (m ∷ []);
  pop = λ q. (head q, tail q);
  contents = λ q. q;
  contents-empty = refl;
  contents-push = λ m q. refl;
  popped = λ q. refl;
  contents-pop = λ q. refl;
}

abbrev pub notify : Notify
notify = record {
  State = Waiters;
  idle = record { permit = false; waiting = 0; woken = 0 };
  notify_one = notified_one;
  begin = λ v. (v.permit, began v);
  resume = resumed;
  leave = left;
  view = λ v. v;
  view-idle = refl;
  view-notify_one = λ v. refl;
  begun = λ v. refl;
  view-begin = λ v. refl;
  view-resume = λ v. refl;
  view-leave = λ v. refl;
}

pub record Unbounded : Type 0 where
  pub items : List ℕ
  pub senders : ℕ
  pub receiver : Bool

abbrev pub sent_on : ℕ → Unbounded → Bool → Bool × Unbounded
sent_on x u true = (true, record u { items = u.items ++ (x ∷ []) })
sent_on x u false = (false, u)

pub said : (x : ℕ) (u : Unbounded) (b : Bool) → (sent_on x u b).0 ≡ b
said x u true = refl
said x u false = refl

pub items_sent :
    (x : ℕ) (u : Unbounded) (b : Bool) → b ≡ true → (sent_on x u b).1.items ≡ u.items ++ (x ∷ [])
items_sent x u true h = refl
items_sent x u false h = cc

pub senders_sent : (x : ℕ) (u : Unbounded) (b : Bool) → (sent_on x u b).1.senders ≡ u.senders
senders_sent x u true = refl
senders_sent x u false = refl

pub receiver_sent : (x : ℕ) (u : Unbounded) (b : Bool) → (sent_on x u b).1.receiver ≡ u.receiver
receiver_sent x u true = refl
receiver_sent x u false = refl

abbrev pub channel : Channel ℕ
channel = record {
  State = Unbounded;
  unbounded = record { items = []; senders = 1; receiver = true };
  send = λ x u. sent_on x u u.receiver;
  poll_next = λ u. (next_of u.items u.senders, record u { items = tail u.items });
  contents = λ u. u.items;
  senders = λ u. u.senders;
  receiver = λ u. u.receiver;
  contents-unbounded = refl;
  senders-unbounded = refl;
  receiver-unbounded = refl;
  sent = λ x u. said x u u.receiver;
  contents-send = λ x u h. items_sent x u u.receiver h;
  senders-send = λ x u. senders_sent x u u.receiver;
  receiver-send = λ x u. receiver_sent x u u.receiver;
  polled = λ u. refl;
  contents-poll_next = λ u. refl;
  senders-poll_next = λ u. refl;
  receiver-poll_next = λ u. refl;
}

abbrev pub waker : AtomicWaker
waker = record {
  State = Option ℕ;
  new = none;
  register = λ task w. some task;
  wake = λ w. (w, none);
  held = λ w. w;
  held-new = refl;
  held-register = λ task w. refl;
  woken = λ w. refl;
  held-wake = λ w. refl;
}
