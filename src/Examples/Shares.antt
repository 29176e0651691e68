-- ===== src/Examples/Shares.antt =====
-- Which thread gets which connection.
use async_ucx.Base.{
  ℕ, zero, suc, ◌+◌, ◌-◌, ◌/◌, ◌%◌, ◌<◌, ◌≡◌, refl, sym, ap, ◌∙◌, Bool, true, false, List, [], ◌∷◌,
  ◌++◌, ◌==◌, ==_iff, length, update, if◌then◌else◌, append_assoc, Bool-cases, inl, inr, arith,
}
use async_ucx.Sync.{Channel, Next, item, pending, ended, next_of, tail}
use async_ucx.Examples.Threads.{accept_on, hand_over}

-- The connections with the numbers from `i` on that thread `j` of four is to get.
abbrev pub shares : ℕ → ℕ → List ℕ → List ℕ
shares j i [] = []
shares j i (conn ∷ conns) =
    if j == i % 4 then conn ∷ shares j (suc i) conns else shares j (suc i) conns

-- No thread gets more than one connection more than another.
shares_even :
    (j i : ℕ) (conns : List ℕ)
    → j < 4
    → length (shares j i conns) + (i + 3 - j) / 4 ≡ (i + length conns + 3 - j) / 4
shares_even j i [] h = omega arith
shares_even j i (conn ∷ conns) h = elim (Bool-cases (j == i % 4)) [
  | inl e ↦ rw e (ground (arith, h, e, shares_even j (suc i) conns h))
  | inr e ↦ rw e (ground (arith, h, e, shares_even j (suc i) conns h))
]

shares_append :
    (j i conn : ℕ) (conns : List ℕ)
    → shares j i (conns ++ (conn ∷ []))
      ≡ (if j == (i + length conns) % 4 then shares j i conns ++ (conn ∷ []) else shares j i conns)
shares_append j i conn [] = ap (λ n. if j == n % 4 then conn ∷ [] else []) (omega arith)
shares_append j i conn (c ∷ conns) =
    pushed (j == i % 4) (j == (i + suc (length conns)) % 4) (shares j (suc i) conns) (
      shares_append j (suc i) conn conns
      ∙ ap
          (λ n.
            if j == n % 4 then shares j (suc i) conns ++ (conn ∷ []) else shares j (suc i) conns)
          (omega arith))
  where
    pushed :
        (b d : Bool) (xs : List ℕ) {ys : List ℕ}
        → ys ≡ (if d then xs ++ (conn ∷ []) else xs)
        → (if b then c ∷ ys else ys)
          ≡ (if d then (if b then c ∷ xs else xs) ++ (conn ∷ []) else (if b then c ∷ xs else xs))
    pushed true true xs e = ap (λ zs. c ∷ zs) e
    pushed true false xs e = ap (λ zs. c ∷ zs) e
    pushed false d xs e = e

-- The items of a poll.
abbrev pub item_of : Next ℕ → List ℕ
item_of (item conn) = conn ∷ []
item_of pending = []
item_of ended = []

item_first : (xs : List ℕ) (n : ℕ) → item_of (next_of xs n) ++ tail xs ≡ xs
item_first [] zero = refl
item_first [] (suc n) = refl
item_first (x ∷ xs) n = refl

module _ (C : Channel ℕ) where
  -- The loop of the server and its threads over time: the connections that it has sent, oldest first, the
  -- channels, and what each thread has received. A thread that panics drops its receiver, which leaves the
  -- channel in some state without one.
  pub data Reach : List ℕ → (ℕ → C.State) → (ℕ → List ℕ) → Type 0 where
    begins : Reach [] (λ j. C.unbounded) (λ j. [])
    hands :
        {conns : List ℕ} {threads : ℕ → C.State} {taken : ℕ → List ℕ} (conn : ℕ)
        → (hand_over C (length conns) conn threads).0 ≡ true
        → Reach conns threads taken
        → Reach (conns ++ (conn ∷ [])) (hand_over C (length conns) conn threads).1 taken
    takes :
        {conns : List ℕ} {threads : ℕ → C.State} {taken : ℕ → List ℕ} (k : ℕ)
        → Reach conns threads taken
        → Reach conns
            (update threads k (C.poll_next (threads k)).1)
            (update taken k (taken k ++ item_of (C.poll_next (threads k)).0))
    panics :
        {conns : List ℕ} {threads : ℕ → C.State} {taken : ℕ → List ℕ} (k : ℕ) (s : C.State)
        → C.receiver s ≡ false
        → Reach conns threads taken
        → Reach conns (update threads k s) taken

  -- What a thread has received and what waits for it.
  abbrev pub given : (ℕ → C.State) → (ℕ → List ℕ) → ℕ → List ℕ
  given threads taken j = taken j ++ C.contents (threads j)

  handed :
      (i conn : ℕ) (threads : ℕ → C.State) (taken : ℕ → List ℕ) (j : ℕ)
      → C.receiver ((hand_over C i conn threads).1 j) ≡ true
      → (C.receiver (threads j) ≡ true)
        × (given (hand_over C i conn threads).1 taken j
            ≡ (if j == i % 4 then given threads taken j ++ (conn ∷ []) else given threads taken j))
  unfolding hand_over accept_on
  handed i conn threads taken j = elim (Bool-cases (j == i % 4)) [
    | inl e ↦
        let same : j ≡ i % 4 = (==_iff j (i % 4)).0 e in
        rw e (λ r.
          let up : C.receiver (threads (i % 4)) ≡ true =
            sym (C.receiver-send conn (threads (i % 4))) ∙ r in
          (
            ap (λ k. C.receiver (threads k)) same ∙ up,
            ap (λ xs. taken j ++ xs)
                  (C.contents-send conn (threads (i % 4)) up
                    ∙ ap (λ k. C.contents (threads k) ++ (conn ∷ [])) (sym same))
                ∙ sym (append_assoc (taken j) (C.contents (threads j)) (conn ∷ [])),
          ))
    | inr e ↦ rw e (λ r. (r, refl))
  ]

  took :
      (k : ℕ) (threads : ℕ → C.State) (taken : ℕ → List ℕ) (j : ℕ)
      → C.receiver (update threads k (C.poll_next (threads k)).1 j) ≡ true
      → (C.receiver (threads j) ≡ true)
        × (given
              (update threads k (C.poll_next (threads k)).1)
              (update taken k (taken k ++ item_of (C.poll_next (threads k)).0))
              j
            ≡ given threads taken j)
  took k threads taken j = elim (Bool-cases (j == k)) [
    | inl e ↦
        let same : j ≡ k = (==_iff j k).0 e in
        rw e (λ r. (
          ap (λ n. C.receiver (threads n)) same ∙ sym (C.receiver-poll_next (threads k)) ∙ r,
          append_assoc (taken k) (item_of (C.poll_next (threads k)).0)
                (C.contents (C.poll_next (threads k)).1)
              ∙ ap
                  (λ (n : Next ℕ). taken k ++ (item_of n ++ C.contents (C.poll_next (threads k)).1))
                  (C.polled (threads k))
              ∙ ap
                  (λ (xs : List ℕ).
                    taken k
                    ++ (item_of (next_of (C.contents (threads k)) (C.senders (threads k))) ++ xs))
                  (C.contents-poll_next (threads k))
              ∙ ap (λ (xs : List ℕ). taken k ++ xs)
                  (item_first (C.contents (threads k)) (C.senders (threads k)))
              ∙ ap (λ n. given threads taken n) (sym same),
        ))
    | inr e ↦ rw e (λ r. (r, refl))
  ]

  died :
      (k : ℕ) (s : C.State) (threads : ℕ → C.State) (taken : ℕ → List ℕ) (j : ℕ)
      → C.receiver s ≡ false
      → C.receiver (update threads k s j) ≡ true
      → (C.receiver (threads j) ≡ true)
        × (given (update threads k s) taken j ≡ given threads taken j)
  died k s threads taken j gone = elim (Bool-cases (j == k)) [
    | inl e ↦ rw e (λ r. cc)
    | inr e ↦ rw e (λ r. (r, refl))
  ]

  Reach-shares :
      {conns : List ℕ} {threads : ℕ → C.State} {taken : ℕ → List ℕ}
      → Reach conns threads taken
      → (j : ℕ) → C.receiver (threads j) ≡ true
      → given threads taken j ≡ shares j 0 conns
  Reach-shares begins j up = C.contents-unbounded
  Reach-shares (hands {conns = conns} {threads = threads} {taken = taken} conn sent r) j up =
      let (before, e) = handed (length conns) conn threads taken j up in
      e
      ∙ ap (λ xs. if j == length conns % 4 then xs ++ (conn ∷ []) else xs) (Reach-shares r j before)
      ∙ sym (
          shares_append j 0 conn conns
          ∙ ap (λ n. if j == n % 4 then shares j 0 conns ++ (conn ∷ []) else shares j 0 conns)
              (omega arith))
  Reach-shares (takes {threads = threads} {taken = taken} k r) j up =
      let (before, e) = took k threads taken j up in e ∙ Reach-shares r j before
  Reach-shares (panics {threads = threads} {taken = taken} k s gone r) j up =
      let (before, e) = died k s threads taken j gone up in e ∙ Reach-shares r j before

  -- While the threads run, and some may have panicked: a thread of the four that has not has received, and
  -- has waiting in its channel, each fourth connection from its own number on and in the order in which they
  -- came; their number is that of the connections by four, so that of two such threads none has got two
  -- more than the other. The send of the next connection panics exactly if the thread that it is for has
  -- dropped its receiver.
  pub shared_out :
      {conns : List ℕ} {threads : ℕ → C.State} {taken : ℕ → List ℕ} (j : ℕ)
      → Reach conns threads taken
      → j < 4
      → C.receiver (threads j) ≡ true
      → (given threads taken j ≡ shares j 0 conns)
        × (length (given threads taken j) ≡ (length conns + 3 - j) / 4)
        × ((conn : ℕ)
            → (hand_over C (length conns) conn threads).0 ≡ C.receiver (threads (length conns % 4)))
  unfolding hand_over accept_on
  shared_out {conns = conns} {threads = threads} j r i up =
      let e = Reach-shares r j up in
      let l = shares_even j 0 conns i in
      (e, ap length e ∙ omega (arith, l, i), λ conn. C.sent conn (threads (length conns % 4)))
