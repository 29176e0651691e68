-- ===== src/AmStream/Waiting.antt =====
-- The loop of `wait_msg`: what a call finds, and that two rounds are enough.
use async_ucx.Base.{
  ℕ, suc, ◌≡◌, refl, sym, ap, ◌∙◌, Bool, true, false, none, some, List, [], ◌∷◌, ◌++◌,
  if◌then◌else◌, Bool-cases, List-cases, inl, inr,
}
use async_ucx.Sync.{SegQueue, Notify, Waiters, head, tail, notified_one, resumed}
use async_ucx.Am.{AmAttr, Slice, RawMsg, msg_from_raw}
use async_ucx.AmStream.{
  Turn, returned, waits, AmStreamInner, popped, await_notified, after_pop, answer_popped, wait_msg,
  resume_msg, callback,
}

-- What is seen of a stream: the messages that it holds, its waiters, and whether it is unregistered.
pub record View : Type 0 where
  pub queue : List RawMsg
  pub waiters : Waiters
  pub over : Bool

-- What a call of `wait_msg` does: the oldest message, or none once the stream is unregistered, or the
-- task waits, and a permit that was kept is gone.
abbrev pub answer : List RawMsg → View → Turn × View
answer [] v = if v.over then (returned none, v) else (
  waits,
  record v { waiters = record v.waiters { permit = false; waiting = suc v.waiters.waiting } },
)
answer (m ∷ ms) v = (returned (some m), record v { queue = ms })

module _ (Q : SegQueue RawMsg) (N : Notify) where
  abbrev pub view : AmStreamInner Q N → View
  view s = record { queue = Q.contents s.msgs; waiters = N.view s.notify; over = s.unregistered }

  abbrev pub viewed : Turn × AmStreamInner Q N → Turn × View
  viewed (t, s) = (t, view s)

  module _ (fuel : ℕ) (s : AmStreamInner Q N) where
    pub call_over :
        s.unregistered ≡ true
        → viewed (wait_msg Q N (suc fuel) s) ≡ (
          returned (head (Q.contents s.msgs)),
          record (view s) { queue = tail (Q.contents s.msgs) },
        )
    unfolding wait_msg popped answer_popped
    call_over over = rw (over, Q.popped s.msgs, Q.contents-pop s.msgs)

    call_finds :
        (m : RawMsg) (ms : List RawMsg)
        → s.unregistered ≡ false
        → Q.contents s.msgs ≡ m ∷ ms
        → viewed (wait_msg Q N (suc fuel) s) ≡ (returned (some m), record (view s) { queue = ms })
    unfolding wait_msg popped after_pop
    call_finds m ms open_now h = rw (open_now, Q.popped s.msgs, h, Q.contents-pop s.msgs, h)

    call_waits :
        s.unregistered ≡ false
        → Q.contents s.msgs ≡ []
        → (N.view s.notify).permit ≡ false
        → viewed (wait_msg Q N (suc fuel) s) ≡ answer [] (view s)
    unfolding wait_msg popped after_pop await_notified
    call_waits open_now h permit = rw (
      open_now,
      Q.popped s.msgs,
      h,
      N.begun s.notify,
      permit,
      Q.contents-pop s.msgs,
      h,
      N.view-begin s.notify,
      permit,
    )

    -- With a permit the first round takes it, and the loop goes on with the rest of its fuel.
    call_again :
        s.unregistered ≡ false
        → Q.contents s.msgs ≡ []
        → (N.view s.notify).permit ≡ true
        → (t : AmStreamInner Q N) × (wait_msg Q N (suc fuel) s ≡ wait_msg Q N fuel t)
          × (view t ≡ record (view s) { waiters = record (N.view s.notify) { permit = false } })
    unfolding wait_msg popped after_pop await_notified
    call_again open_now h permit = (
      record (popped Q N s).1 { notify = (N.begin s.notify).1 },
      rw (open_now, Q.popped s.msgs, h, N.begun s.notify, permit),
      rw (Q.contents-pop s.msgs, h, N.view-begin s.notify, permit),
    )

  answer_over :
      (q : List RawMsg) (v : Waiters) (b : Bool)
      → b ≡ true
      → answer q (record { queue = q; waiters = v; over = b })
        ≡ (returned (head q), record { queue = tail q; waiters = v; over = b })
  answer_over [] v b over = rw over
  answer_over (m ∷ ms) v b over = refl

  -- A permit that was kept makes no difference to a call that waits.
  answer_permit :
      (q : List RawMsg) (v : Waiters) (b : Bool)
      → b ≡ false
      → answer [] (record { queue = q; waiters = record v { permit = false }; over = b })
        ≡ answer [] (record { queue = q; waiters = v; over = b })
  answer_permit q v b open_now = rw open_now

  takes_permit :
      (fuel : ℕ) (s : AmStreamInner Q N)
      → s.unregistered ≡ false
      → Q.contents s.msgs ≡ []
      → (N.view s.notify).permit ≡ true
      → viewed (wait_msg Q N (suc (suc fuel)) s) ≡ answer (Q.contents s.msgs) (view s)
  takes_permit fuel s open_now nothing permit =
      let (t, goes_on, seen) = call_again (suc fuel) s open_now nothing permit in
      ap viewed goes_on
      ∙ call_waits fuel t (ap (λ v. v.over) seen ∙ open_now) (ap (λ v. v.queue) seen ∙ nothing)
          (ap (λ v. v.waiters.permit) seen)
      ∙ ap (answer []) seen
      ∙ answer_permit (Q.contents s.msgs) (N.view s.notify) s.unregistered open_now
      ∙ ap (λ q. answer q (view s)) (sym nothing)

  -- With two rounds of fuel or more, a call of `wait_msg` does what the view says: it returns the oldest
  -- message, or none where the stream is unregistered and empty, and it waits, with no permit left, only
  -- on an empty stream that is registered.
  pub wait_msg-answer :
      (fuel : ℕ) (s : AmStreamInner Q N)
      → viewed (wait_msg Q N (suc (suc fuel)) s) ≡ answer (Q.contents s.msgs) (view s)
  wait_msg-answer fuel s = elim (Bool-cases s.unregistered) [
    | inl over ↦
        call_over (suc fuel) s over
        ∙ sym (answer_over (Q.contents s.msgs) (N.view s.notify) s.unregistered over)
    | inr open_now ↦ elim (List-cases (Q.contents s.msgs)) [
      | inl nothing ↦ elim (Bool-cases (N.view s.notify).permit) [
        | inl permit ↦ takes_permit fuel s open_now nothing permit
        | inr none_left ↦
            call_waits (suc fuel) s open_now nothing none_left
            ∙ ap (λ q. answer q (view s)) (sym nothing)
      ]
      | inr (m, ms, h) ↦
          call_finds (suc fuel) s m ms open_now h ∙ ap (λ q. answer q (view s)) (sym h)
    ]
  ]

  -- A call that was woken goes on as a call that has just been made, with one notification used up.
  pub resume_msg-answer :
      (fuel : ℕ) (s : AmStreamInner Q N)
      → viewed (resume_msg Q N (suc (suc fuel)) s)
        ≡ answer (Q.contents s.msgs) (record (view s) { waiters = resumed (N.view s.notify) })
  unfolding resume_msg
  resume_msg-answer fuel s =
      wait_msg-answer fuel (record s { notify = N.resume s.notify })
      ∙ ap (λ v. answer (Q.contents s.msgs) (record (view s) { waiters = v }))
          (N.view-resume s.notify)

  pub callback-view :
      (c : AmAttr) (header : List ℕ) (slice : Slice) (reply attr : ℕ) (s : AmStreamInner Q N)
      → view (callback Q N c header slice reply attr s) ≡ record (view s) {
        queue = Q.contents s.msgs ++ (msg_from_raw c s.id header slice reply attr ∷ []);
        waiters = notified_one (N.view s.notify);
      }
  unfolding callback
  callback-view c header slice reply attr s = rw (
    Q.contents-push (msg_from_raw c s.id header slice reply attr) s.msgs,
    N.view-notify_one s.notify,
  )
