-- ===== src/AmStream/Order.antt =====
-- The messages of a stream over time: arrivals, calls of `wait_msg`, and tasks that are woken or
-- dropped, in any order.
use async_ucx.Base.{
  ℕ, zero, suc, ◌-◌, ◌<◌, ◌≤◌, ◌≡◌, refl, sym, ap, subst, ◌∙◌, Bool, true, false, none, some, List,
  [], ◌∷◌, ◌++◌, append_assoc, length, length-append, arith,
}
use async_ucx.Sync.{SegQueue, Notify, Waiters, notified_one, resumed}
use async_ucx.Am.{AmAttr, Slice, RawMsg, msg_from_raw}
use async_ucx.AmStream.{
  Turn, returned, waits, starved, AmStreamInner, new, unregister, received, wait_msg, resume_msg,
}
use async_ucx.AmStream.Waiting.{
  View, answer, viewed, wait_msg-answer, resume_msg-answer, callback-view,
}

abbrev pub taken_of : Turn → List RawMsg
taken_of (returned (some m)) = m ∷ []
taken_of (returned none) = []
taken_of waits = []
taken_of starved = []

-- A message that is there is never slept on: while a task waits, at least as many tasks have been
-- woken as there are messages.
abbrev pub Heard : List RawMsg → Waiters → Type 0
Heard queue v = 0 < v.waiting → length queue ≤ v.woken

taken_first :
    (q : List RawMsg) (v : Waiters) (b : Bool)
    → let r = answer q (record { queue = q; waiters = v; over = b }) in
      taken_of r.0 ++ r.1.queue ≡ q
taken_first [] v true = refl
taken_first [] v false = refl
taken_first (m ∷ ms) v b = refl

answer-Heard :
    (q : List RawMsg) (v : Waiters) (b : Bool)
    → Heard q v
    → let r = (answer q (record { queue = q; waiters = v; over = b })).1 in Heard r.queue r.waiters
answer-Heard [] v true h = h
answer-Heard [] v false h = λ some_wait. omega arith
answer-Heard (m ∷ ms) v b h = λ some_wait. omega (arith, h some_wait)

resumed-Heard :
    (q : List RawMsg) (v : Waiters) (b : Bool)
    → Heard q v
    → 0 < v.woken
    → let r = (answer q (record { queue = q; waiters = resumed v; over = b })).1 in
      Heard r.queue r.waiters
resumed-Heard [] v true h w = λ some_wait. omega arith
resumed-Heard [] v false h w = λ some_wait. omega arith
resumed-Heard (m ∷ ms) v b h w = λ some_wait. omega (arith, h some_wait)

notified-Heard :
    (q : List RawMsg) (m : RawMsg) (p : Bool) (waiting woken : ℕ)
    → Heard q (record { permit = p; waiting = waiting; woken = woken })
    → Heard (q ++ (m ∷ [])) (notified_one (record { permit = p; waiting = waiting; woken = woken }))
notified-Heard q m p zero woken h = λ some_wait. absurd (omega arith)
notified-Heard q m p (suc k) woken h =
    λ some_wait. omega (arith, h (omega arith), length-append q (m ∷ []))

passed_on-Heard :
    (q : List RawMsg) (p : Bool) (waiting woken : ℕ)
    → Heard q (record { permit = p; waiting = waiting; woken = woken })
    → 0 < woken
    → Heard q (notified_one (record { permit = p; waiting = waiting; woken = woken - 1 }))
passed_on-Heard q p zero woken h w = λ some_wait. absurd (omega arith)
passed_on-Heard q p (suc k) woken h w = λ some_wait. omega (arith, h (omega arith))

module _ (Q : SegQueue RawMsg) (N : Notify) (c : AmAttr) (fuel : ℕ) where
  turn_in_order :
      (q taken came : List RawMsg) (v : Waiters) (b : Bool) (r : Turn × AmStreamInner Q N)
      → viewed Q N r ≡ answer q (record { queue = q; waiters = v; over = b })
      → taken ++ q ≡ came
      → (taken ++ taken_of r.0) ++ Q.contents r.1.msgs ≡ came
  turn_in_order q taken came v b r e h =
      append_assoc taken (taken_of r.0) (Q.contents r.1.msgs)
      ∙ ap (λ (x : Turn × View). taken ++ (taken_of x.0 ++ x.1.queue)) e
      ∙ ap (λ (x : List RawMsg). taken ++ x) (taken_first q v b)
      ∙ h

  -- The states that a stream goes through, with the messages that have arrived so far and those that
  -- calls have returned, oldest first. Only a task that was woken runs again, and only a task that waits
  -- or was woken can be dropped.
  pub data Reach : AmStreamInner Q N → List RawMsg → List RawMsg → Type 0 where
    begins : (id : ℕ) → Reach (new Q N id) [] []
    arrives :
        {s : AmStreamInner Q N} {came taken : List RawMsg} (header : List ℕ) (slice : Slice)
        (reply attr : ℕ)
        → Reach s came taken
        → Reach
            (received Q N c header slice reply attr s).1
            (came ++ (msg_from_raw c s.id header slice reply attr ∷ []))
            taken
    calls :
        {s : AmStreamInner Q N} {came taken : List RawMsg}
        → Reach s came taken
        → Reach
            (wait_msg Q N (suc (suc fuel)) s).1
            came
            (taken ++ taken_of (wait_msg Q N (suc (suc fuel)) s).0)
    resumes :
        {s : AmStreamInner Q N} {came taken : List RawMsg}
        → Reach s came taken
        → 0 < (N.view s.notify).woken
        → Reach
            (resume_msg Q N (suc (suc fuel)) s).1
            came
            (taken ++ taken_of (resume_msg Q N (suc (suc fuel)) s).0)
    leaves :
        {s : AmStreamInner Q N} {came taken : List RawMsg}
        → Reach s came taken
        → 0 < (N.view s.notify).waiting
        → Reach (record s { notify = N.leave s.notify }) came taken
    drops_woken :
        {s : AmStreamInner Q N} {came taken : List RawMsg}
        → Reach s came taken
        → 0 < (N.view s.notify).woken
        → Reach (record s { notify = N.notify_one (N.resume s.notify) }) came taken
    unregisters :
        {s : AmStreamInner Q N} {came taken : List RawMsg}
        → Reach s came taken
        → Reach (unregister Q N s) came taken

  -- The calls of `wait_msg` return the messages in the order in which they arrived, none twice and none
  -- left out: what they have returned, and then what the stream holds, is what has arrived.
  pub Reach_in_order :
      {s : AmStreamInner Q N} {came taken : List RawMsg}
      → Reach s came taken
      → taken ++ Q.contents s.msgs ≡ came
  unfolding new unregister received
  Reach_in_order (begins id) = Q.contents-empty
  Reach_in_order (arrives {s} {came} {taken} header slice reply attr r) =
      let m = msg_from_raw c s.id header slice reply attr in
      ap (λ (v : View). taken ++ v.queue) (callback-view Q N c header slice reply attr s)
      ∙ sym (append_assoc taken (Q.contents s.msgs) (m ∷ []))
      ∙ ap (λ (q : List RawMsg). q ++ (m ∷ [])) (Reach_in_order r)
  Reach_in_order (calls {s} {came} {taken} r) =
      turn_in_order (Q.contents s.msgs) taken came (N.view s.notify) s.unregistered
        (wait_msg Q N (suc (suc fuel)) s) (wait_msg-answer Q N fuel s) (Reach_in_order r)
  Reach_in_order (resumes {s} {came} {taken} r w) =
      turn_in_order (Q.contents s.msgs) taken came (resumed (N.view s.notify)) s.unregistered
        (resume_msg Q N (suc (suc fuel)) s) (resume_msg-answer Q N fuel s) (Reach_in_order r)
  Reach_in_order (leaves r w) = Reach_in_order r
  Reach_in_order (drops_woken r w) = Reach_in_order r
  Reach_in_order (unregisters r) = Reach_in_order r

  turn-Heard :
      (q : List RawMsg) (v : Waiters) (b : Bool) (r : Turn × AmStreamInner Q N)
      → viewed Q N r ≡ answer q (record { queue = q; waiters = v; over = b })
      → (let x = (answer q (record { queue = q; waiters = v; over = b })).1 in
          Heard x.queue x.waiters)
      → Heard (Q.contents r.1.msgs) (N.view r.1.notify)
  turn-Heard q v b r e h = subst (λ (x : Turn × View). Heard x.1.queue x.1.waiters) (sym e) h

  -- No wake-up is lost: where a task waits for a message of the stream, there are at least as many tasks
  -- that were woken, and will look, as there are messages. So a message is never left behind with a
  -- waiting task and no one to take it.
  pub Reach-Heard :
      {s : AmStreamInner Q N} {came taken : List RawMsg}
      → Reach s came taken
      → 0 < (N.view s.notify).waiting
      → length (Q.contents s.msgs) ≤ (N.view s.notify).woken
  unfolding new unregister received
  Reach-Heard (begins id) = rw N.view-idle (λ some_wait. absurd (omega arith))
  Reach-Heard (arrives {s} header slice reply attr r) =
      let m = msg_from_raw c s.id header slice reply attr in
      let v = N.view s.notify in
      subst (λ (x : View). Heard x.queue x.waiters)
        (sym (callback-view Q N c header slice reply attr s))
        (notified-Heard (Q.contents s.msgs) m v.permit v.waiting v.woken (Reach-Heard r))
  Reach-Heard (calls {s} r) =
      turn-Heard (Q.contents s.msgs) (N.view s.notify) s.unregistered
        (wait_msg Q N (suc (suc fuel)) s) (wait_msg-answer Q N fuel s)
        (answer-Heard (Q.contents s.msgs) (N.view s.notify) s.unregistered (Reach-Heard r))
  Reach-Heard (resumes {s} r w) =
      turn-Heard (Q.contents s.msgs) (resumed (N.view s.notify)) s.unregistered
        (resume_msg Q N (suc (suc fuel)) s) (resume_msg-answer Q N fuel s)
        (resumed-Heard (Q.contents s.msgs) (N.view s.notify) s.unregistered (Reach-Heard r) w)
  Reach-Heard (leaves {s} r w) = rw (N.view-leave s.notify) (λ some_wait. Reach-Heard r w)
  Reach-Heard (drops_woken {s} r w) =
      let v = N.view s.notify in
      rw (N.view-notify_one (N.resume s.notify), N.view-resume s.notify)
        (passed_on-Heard (Q.contents s.msgs) v.permit v.waiting v.woken (Reach-Heard r) w)
  Reach-Heard (unregisters r) = Reach-Heard r
