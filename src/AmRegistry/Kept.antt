-- ===== src/AmRegistry/Kept.antt =====
-- What a message and a call of `wait_msg` leave as it is in a stream.
use async_ucx.Base.{
  ℕ, zero, suc, ◌≡◌, refl, Bool, true, false, Option, none, some, List, if◌then◌else◌,
}
use async_ucx.Sync.{SegQueue, Notify}
use async_ucx.Am.{RawMsg, AmAttr, Slice}
use async_ucx.AmStream.{
  Turn, returned, waits, AmStreamInner, callback, wait_msg, resume_msg, answer_popped, after_pop,
  popped, await_notified,
}

module _ (Q : SegQueue RawMsg) (N : Notify) where
  -- A stream on which the callback or a task has run: it is the same stream, as registered as before.
  pub record IsKept (s t : AmStreamInner Q N) : Type 0 where
    pub id_same : t.id ≡ s.id
    pub registered_same : t.unregistered ≡ s.unregistered

  pub callback-IsKept :
      (c : AmAttr) (header : List ℕ) (slice : Slice) (reply attr : ℕ) (s : AmStreamInner Q N)
      → IsKept s (callback Q N c header slice reply attr s)
  unfolding callback
  callback-IsKept c header slice reply attr s = record { id_same = refl; registered_same = refl }

  turned-IsKept :
      (b : Bool) (s : AmStreamInner Q N) (x y : Turn × AmStreamInner Q N)
      → IsKept s x.1
      → IsKept s y.1
      → IsKept s (if b then x else y).1
  turned-IsKept true s x y hx hy = hx
  turned-IsKept false s x y hx hy = hy

  after_pop-IsKept :
      (again : AmStreamInner Q N → Turn × AmStreamInner Q N) (m : Option RawMsg)
      (s : AmStreamInner Q N)
      → ((t : AmStreamInner Q N) → IsKept t (again t).1)
      → IsKept s (after_pop Q N again (m, s)).1
  unfolding after_pop await_notified
  after_pop-IsKept again (some m) s h = record { id_same = refl; registered_same = refl }
  after_pop-IsKept again none s h =
      let t = record s { notify = (N.begin s.notify).1 } in
      let same : IsKept s (again t).1 = record {
        id_same = (h t).id_same;
        registered_same = (h t).registered_same;
      } in
      turned-IsKept (N.begin s.notify).0 s (again t) (waits, t) same
        (record { id_same = refl; registered_same = refl })

  pub wait_msg-IsKept : (fuel : ℕ) (s : AmStreamInner Q N) → IsKept s (wait_msg Q N fuel s).1
  unfolding wait_msg answer_popped popped
  wait_msg-IsKept zero s = record { id_same = refl; registered_same = refl }
  wait_msg-IsKept (suc fuel) s =
      let u = record s { msgs = (Q.pop s.msgs).1 } in
      let went_on =
        after_pop-IsKept (wait_msg Q N fuel) (Q.pop s.msgs).0 u (wait_msg-IsKept fuel) in
      turned-IsKept s.unregistered s (returned (Q.pop s.msgs).0, u)
        (after_pop Q N (wait_msg Q N fuel) ((Q.pop s.msgs).0, u))
        (record { id_same = refl; registered_same = refl })
        (record { id_same = went_on.id_same; registered_same = went_on.registered_same })

  pub resume_msg-IsKept : (fuel : ℕ) (s : AmStreamInner Q N) → IsKept s (resume_msg Q N fuel s).1
  unfolding resume_msg
  resume_msg-IsKept fuel s =
      let k = wait_msg-IsKept fuel (record s { notify = N.resume s.notify }) in
      record { id_same = k.id_same; registered_same = k.registered_same }
