-- ===== src/AmStream.antt =====
-- src/ucp/endpoint/am.rs: `AmStreamInner`, the messages of one identifier that have arrived and the
-- tasks that wait for one. Its `Rc` and the worker's table of streams are in `AmRegistry`.
pub mod Waiting
pub mod Order
pub mod Unregistered
pub mod Descriptors
use async_ucx.Base.{ℕ, zero, suc, Bool, true, false, Option, none, some, List, if◌then◌else◌}
use async_ucx.Ucs.{Status}
use async_ucx.Sync.{SegQueue, Notify}
use async_ucx.Am.{AmAttr, Slice, RawMsg, msg_from_raw, callback_status}

-- `await` of a future: it returns, or the task waits until it is woken. `starved` means that the fuel
-- ran out.
pub data Turn : Type 0 where
  returned : Option RawMsg → Turn
  waits starved : Turn

module _ (Q : SegQueue RawMsg) (N : Notify) where
  pub record AmStreamInner : Type 0 where
    pub id : ℕ
    pub msgs : Q.Queue
    pub notify : N.State
    pub unregistered : Bool

  unfoldable pub new : ℕ → AmStreamInner
  new id = record { id = id; msgs = Q.empty; notify = N.idle; unregistered = false }

  unfoldable pub unregister : AmStreamInner → AmStreamInner
  unregister s = record s { unregistered = true }

  unfoldable pub callback :
      AmAttr → (header : List ℕ) → Slice → (reply attr : ℕ) → AmStreamInner → AmStreamInner
  callback c header slice reply attr s = record s {
    msgs = Q.push (msg_from_raw c s.id header slice reply attr) s.msgs;
    notify = N.notify_one s.notify;
  }

  -- The callback that `am_stream` gives to UCX, on the stream that is its argument, and its status.
  unfoldable pub received :
      AmAttr → (header : List ℕ) → Slice → (reply attr : ℕ) → AmStreamInner → Status × AmStreamInner
  received c header slice reply attr s =
      (callback_status c attr, callback c header slice reply attr s)

  unfoldable pub popped : AmStreamInner → Option RawMsg × AmStreamInner
  popped s = let (m, q) = Q.pop s.msgs in (m, record s { msgs = q })

  -- The rest of a round of the loop of `wait_msg` that found no message: `notified().await`, and again.
  unfoldable pub await_notified :
      (AmStreamInner → Turn × AmStreamInner) → AmStreamInner → Turn × AmStreamInner
  await_notified again s =
      let (at_once, n) = N.begin s.notify in
      let t = record s { notify = n } in if at_once then again t else (waits, t)

  unfoldable pub after_pop :
      (AmStreamInner → Turn × AmStreamInner) → Option RawMsg × AmStreamInner → Turn × AmStreamInner
  after_pop again (some m, s) = (returned (some m), s)
  after_pop again (none, s) = await_notified again s

  unfoldable pub answer_popped : Option RawMsg × AmStreamInner → Turn × AmStreamInner
  answer_popped (m, s) = (returned m, s)

  -- `wait_msg`, until it returns or waits. The fuel counts the rounds of the loop.
  unfoldable pub wait_msg : ℕ → AmStreamInner → Turn × AmStreamInner
  unfolding answer_popped after_pop
  wait_msg zero s = (starved, s)
  wait_msg (suc fuel) s =
      if s.unregistered then answer_popped (popped s) else after_pop (wait_msg fuel) (popped s)

  -- A call of `wait_msg` that was woken goes on.
  unfoldable pub resume_msg : ℕ → AmStreamInner → Turn × AmStreamInner
  resume_msg fuel s = wait_msg fuel (record s { notify = N.resume s.notify })
