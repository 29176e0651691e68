-- ===== src/Listener/Requests.antt =====
-- The connection requests of a listener over time.
use async_ucx.Base.{ℕ, suc, ◌≡◌, ◌≢◌, refl, sym, ap, ◌∙◌, true, List, [], ◌∷◌, ◌++◌, append_assoc}
use async_ucx.Sync.{Channel, next_of, tail}
use async_ucx.Listener.{Turn, got, waits, panics, unwrapped, Listener, connect_handler, next}

abbrev pub taken_of : Turn → List ℕ
taken_of (got c) = c ∷ []
taken_of waits = []
taken_of panics = []

taken_first :
    (xs : List ℕ) (n : ℕ)
    → (taken_of (unwrapped (next_of xs (suc n))) ++ tail xs ≡ xs)
      × (unwrapped (next_of xs (suc n)) ≢ panics)
unfolding unwrapped
taken_first [] n = (refl, λ h. cc)
taken_first (x ∷ xs) n = (refl, λ h. cc)

module _ (C : Channel ℕ) where
  -- A listener as `new` makes it, with the requests that have come so far and those that `next` has
  -- returned, oldest first.
  pub data Reach : Listener C → List ℕ → List ℕ → Type 0 where
    begins : (handle : ℕ) → Reach (record { handle = handle; channel = C.unbounded }) [] []
    connects :
        {l : Listener C} {came taken : List ℕ} (conn_request : ℕ)
        → Reach l came taken
        → Reach (connect_handler C conn_request l).1 (came ++ (conn_request ∷ [])) taken
    polls :
        {l : Listener C} {came taken : List ℕ}
        → Reach l came taken
        → Reach (next C l).1 came (taken ++ taken_of (next C l).0)

  record IsSound (l : Listener C) (came taken : List ℕ) : Type 0 where
    in_order : taken ++ C.contents l.channel ≡ came
    one_sender : C.senders l.channel ≡ 1
    received : C.receiver l.channel ≡ true

  connects-IsSound :
      (l : Listener C) (came taken : List ℕ) (x : ℕ)
      → IsSound l came taken
      → IsSound (connect_handler C x l).1 (came ++ (x ∷ [])) taken
  unfolding connect_handler
  connects-IsSound l came taken x h = record {
    in_order =
        ap (λ (xs : List ℕ). taken ++ xs) (C.contents-send x l.channel h.received)
        ∙ sym (append_assoc taken (C.contents l.channel) (x ∷ []))
        ∙ ap (λ (xs : List ℕ). xs ++ (x ∷ [])) h.in_order;
    one_sender = C.senders-send x l.channel ∙ h.one_sender;
    received = C.receiver-send x l.channel ∙ h.received;
  }

  turn :
      (l : Listener C)
      → C.senders l.channel ≡ 1
      → (next C l).0 ≡ unwrapped (next_of (C.contents l.channel) 1)
  unfolding next
  turn l one = ap unwrapped (C.polled l.channel ∙ ap (next_of (C.contents l.channel)) one)

  polls-IsSound :
      (l : Listener C) (came taken : List ℕ)
      → IsSound l came taken
      → IsSound (next C l).1 came (taken ++ taken_of (next C l).0)
  unfolding next
  polls-IsSound l came taken h = record {
    in_order =
        append_assoc taken (taken_of (next C l).0) (C.contents (C.poll_next l.channel).1)
        ∙ ap (λ (t : Turn). taken ++ (taken_of t ++ C.contents (C.poll_next l.channel).1))
            (turn l h.one_sender)
        ∙ ap
            (λ (xs : List ℕ).
              taken ++ (taken_of (unwrapped (next_of (C.contents l.channel) 1)) ++ xs))
            (C.contents-poll_next l.channel)
        ∙ ap (λ (xs : List ℕ). taken ++ xs) (taken_first (C.contents l.channel) 0).0
        ∙ h.in_order;
    one_sender = C.senders-poll_next l.channel ∙ h.one_sender;
    received = C.receiver-poll_next l.channel ∙ h.received;
  }

  Reach-IsSound : {l : Listener C} {came taken : List ℕ} → Reach l came taken → IsSound l came taken
  Reach-IsSound (begins handle) = record {
    in_order = C.contents-unbounded;
    one_sender = C.senders-unbounded;
    received = C.receiver-unbounded;
  }
  Reach-IsSound (connects {l} {came} {taken} x r) =
      connects-IsSound l came taken x (Reach-IsSound r)
  Reach-IsSound (polls {l} {came} {taken} r) = polls-IsSound l came taken (Reach-IsSound r)

  -- The connection requests that a listener has returned, and then those that wait in its channel, are
  -- those that have come, in order: none is lost or returned twice. The handler that takes the next one
  -- does not panic, and neither does `next`.
  pub Reach_requests :
      {l : Listener C} {came taken : List ℕ} (conn_request : ℕ)
      → Reach l came taken
      → (taken ++ C.contents l.channel ≡ came)
        × ((connect_handler C conn_request l).0 ≡ true)
        × ((next C l).0 ≢ panics)
  unfolding connect_handler
  Reach_requests {l} conn_request r =
      let h = Reach-IsSound r in
      (
        h.in_order,
        C.sent conn_request l.channel ∙ h.received,
        λ p. (taken_first (C.contents l.channel) 0).1 (sym (turn l h.one_sender) ∙ p),
      )
