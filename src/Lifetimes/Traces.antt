-- ===== src/Lifetimes/Traces.antt =====
-- The balance of what UCX hands out, as rules for programs that go through to their end.
use async_ucx.Base.{ℕ, suc, ◌+◌, ◌≡◌, refl, sym, ap, ◌∙◌, true, List, [], ◌∷◌, ◌++◌, arith}
use async_ucx.Ucs.{is_ok}
use async_ucx.Error.{Result}
use async_ucx.Error
use async_ucx.Ffi.{
  Ucx, Call, Reply, World, Outcome, ok, err, panicked, undefined, starved, M, ◌>>=◌, catch, unwrap,
}
use async_ucx.Ffi.Traces.{After, Triple, bind-Triple, catch-Triple, unwrap-Triple}
use async_ucx.Ffi.Borrows.{is_borrowing, Keeps}
use async_ucx.Resources.{Resource, handed, given_back, acquired, released}
use async_ucx.Context.{Context}
use async_ucx.Worker.{Worker, create_worker}
use async_ucx.Worker
use async_ucx.Rma.{register}
use async_ucx.Lifetimes.{
  Value, Thing, arc, rc, region, thing, points_context, any, drop_arc, drop_rc, drop_region,
  drop_thing,
}
use async_ucx.Lifetimes.Owned.{owned, owned_out, fewer}
use async_ucx.Lifetimes.Counted.{
  InBalance, rc_left, worker_of, region_of, no_more, drop_arc-InBalance, drop_rc-InBalance,
  drop_region-InBalance, new_worker-InBalance, register-InBalance,
}
use async_ucx.Lifetimes.Things.{things_of, drop_thing-InBalance}

handed_none :
    (r : Resource) (c : Call) (reply : Reply) → is_borrowing c ≡ true → handed r c reply ≡ 0
handed_none r Call.config_read reply h = cc
handed_none r (Call.init_version p c) reply h = cc
handed_none r (Call.worker_create c) reply h = cc
handed_none r (Call.worker_get_address w) reply h = cc
handed_none r (Call.mem_map c a n) reply h = cc
handed_none r (Call.rkey_pack c m) reply h = cc
handed_none r (Call.rkey_unpack e bytes) reply h = cc
handed_none r (Call.listener_create w a s) reply h = cc
handed_none r _ reply h = refl

back_none : (r : Resource) (c : Call) → is_borrowing c ≡ true → given_back r c ≡ 0
back_none r (Call.config_release c) h = cc
back_none r (Call.cleanup c) h = cc
back_none r (Call.worker_destroy w) h = cc
back_none r (Call.worker_release_address w a) h = cc
back_none r (Call.mem_unmap c m) h = cc
back_none r (Call.rkey_buffer_release b) h = cc
back_none r (Call.rkey_destroy k) h = cc
back_none r (Call.listener_destroy l) h = cc
back_none r _ h = refl

module _ (ucx : Ucx) where
  -- The calls so far have left the program with these values.
  abbrev pub Balanced : List Value → List Call → Type 0
  Balanced own t = (r : Resource) → acquired ucx r t ≡ released r t + owned r own

  pub borrowing-Balanced :
      (own : List Value) (c : Call)
      → is_borrowing c ≡ true
      → (t : List Call) → Balanced own t
      → Balanced own (c ∷ t)
  borrowing-Balanced own c b t h r =
      rw (handed_none r c (ucx.reply t c) b, back_none r c b)
        (no_more ucx (is_ok (ucx.reply t c).status) (acquired ucx r t) ∙ omega (arith, h r))

  -- A program that ends with these values, if it does not stop before.
  abbrev pub Leaves : {A : Type 0} → List Value → M A → (A → List Value) → Type 0
  Leaves own m left = Triple (Balanced own) m (λ a. Balanced (left a)) (λ _. Unit {0})

  pub kept-Leaves :
      {A : Type 0} (own : List Value) {m : M A} → Keeps (Balanced own) m → Leaves own m (λ _. own)
  kept-Leaves own {m} k = record { holds = λ w h. weaker (m w).0 (m w).1.trace (k.holds w h) }
    where
      weaker :
          {A : Type 0} (o : Outcome A) (t : List Call)
          → After (λ _. Balanced own) (Balanced own) o t
          → After (λ _. Balanced own) (λ _. Unit {0}) o t
      weaker (ok a) t h = h
      weaker (err e) t h = tt
      weaker panicked t h = tt
      weaker undefined t h = tt
      weaker starved t h = tt

  -- A function that hands out the value `v a` with its result `a`.
  gives-Leaves :
      {A : Type 0} (own : List Value) (m : M A) (g : Outcome A → List Value) (v : A → Value)
      → ((a : A) → g (ok a) ≡ v a ∷ [])
      → ((w : World) → InBalance ucx w own → InBalance ucx (m w).1 (g (m w).0 ++ own))
      → Leaves own m (λ a. v a ∷ own)
  gives-Leaves own m g v e h = record { holds = λ w b. after (m w).0 (m w).1.trace (h w b) }
    where
      after :
          (o : Outcome _) (t : List Call)
          → Balanced (g o ++ own) t
          → After (λ a. Balanced (v a ∷ own)) (λ _. Unit {0}) o t
      after (ok a) t h =
          λ r. h r ∙ ap (λ (xs : List Value). released r t + owned r (xs ++ own)) (e a)
      after (err x) t h = tt
      after panicked t h = tt
      after undefined t h = tt
      after starved t h = tt

  -- A function that makes no value and leaves these.
  drops-Leaves :
      {A : Type 0} (own left : List Value) (m : M A)
      → ((w : World) → InBalance ucx w own → InBalance ucx (m w).1 left)
      → Leaves own m (λ _. left)
  drops-Leaves {A} own left m h = record { holds = λ w b. after (m w).0 (m w).1.trace (h w b) }
    where
      after :
          (o : Outcome A) (t : List Call)
          → Balanced left t
          → After (λ _. Balanced left) (λ _. Unit {0}) o t
      after (ok a) t h = h
      after (err x) t h = tt
      after panicked t h = tt
      after undefined t h = tt
      after starved t h = tt

  -- The order of the values makes no difference.
  pub reordered :
      (x : Value) (xs ys : List Value) (t : List Call)
      → Balanced (xs ++ (x ∷ ys)) t
      → Balanced (x ∷ (xs ++ ys)) t
  reordered x xs ys t h r = h r ∙ ap (λ n. released r t + n) (owned_out r x xs ys)

  -- One more pointer to a worker.
  pub cloned :
      (v c n : ℕ) (rest : List Value) (t : List Call)
      → Balanced (rc v c n ∷ rest) t
      → Balanced (rc v c (suc n) ∷ rest) t
  cloned v c n rest t h r = h r ∙ ap (λ n. released r t + n) (sym (fewer r v c n rest))

  abbrev AfterResult : {A : Type 0} → (A → List Value) → Result A → List Call → Type 0
  AfterResult left (Error.Result.ok a) t = Balanced (left a) t
  AfterResult left (Error.Result.err e) t = Unit {0}

  got :
      {A : Type 0} (left : A → List Value) (r : Result A) (a : A) (t : List Call)
      → r ≡ Error.Result.ok a
      → AfterResult left r t
      → Balanced (left a) t
  got left (Error.Result.ok b) a t e p = let same : b ≡ a = cc in rw (← same) p
  got left (Error.Result.err x) a t e p = cc

  module _ (own : List Value) where
    pub worker-Leaves :
        (c : Context)
        → any (points_context c.handle) own ≡ true
        → Leaves own (create_worker ucx c) (λ w. rc w.handle w.context.handle 0 ∷ own)
    unfolding create_worker
    worker-Leaves c up =
        gives-Leaves own (Worker.new ucx c) (worker_of ucx) (λ w. rc w.handle w.context.handle 0)
          (λ a. refl) (λ w. new_worker-InBalance ucx c.handle own w up)

    pub register-Leaves :
        (c a n : ℕ)
        → any (points_context c) own ≡ true
        → Leaves own (register ucx c a n) (λ m. region m.context m.handle ∷ own)
    register-Leaves c a n up =
        gives-Leaves own (register ucx c a n) (region_of ucx) (λ m. region m.context m.handle)
          (λ a. refl) (λ w. register-InBalance ucx c a n own w up)

    pub thing-Leaves :
        {A : Type 0} (m : M A) (f : A → Thing)
        → ((w : World) → InBalance ucx w own → InBalance ucx (m w).1 (things_of f (m w).0 ++ own))
        → Leaves own m (λ a. thing (f a) ∷ own)
    thing-Leaves m f h = gives-Leaves own m (things_of f) (λ a. thing (f a)) (λ a. refl) h

    pub drop_thing-Leaves : (x : Thing) → Leaves (thing x ∷ own) (drop_thing x) (λ _. own)
    drop_thing-Leaves x =
        drops-Leaves (thing x ∷ own) own (drop_thing x) (drop_thing-InBalance ucx x own)

    pub drop_arc-Leaves : (c : ℕ) → Leaves (arc c ∷ own) (drop_arc c own) (λ _. own)
    drop_arc-Leaves c =
        drops-Leaves (arc c ∷ own) own (drop_arc c own) (drop_arc-InBalance ucx c own)

    pub drop_rc-Leaves :
        (v c n : ℕ) → Leaves (rc v c n ∷ own) (drop_rc v c n own) (λ _. rc_left ucx v c n own)
    drop_rc-Leaves v c n =
        drops-Leaves (rc v c n ∷ own) (rc_left ucx v c n own) (drop_rc v c n own)
          (drop_rc-InBalance ucx v c n own)

    pub drop_region-Leaves : (c m : ℕ) → Leaves (region c m ∷ own) (drop_region c m own) (λ _. own)
    drop_region-Leaves c m =
        drops-Leaves (region c m ∷ own) own (drop_region c m own)
          (drop_region-InBalance ucx c m own)

    -- `unwrap` of what a function returns.
    pub unwrapped-Leaves :
        {A : Type 0} {m : M A} (left : A → List Value)
        → Leaves own m left
        → Leaves own (catch m >>= λ r. unwrap r) left
    unwrapped-Leaves left h =
        bind-Triple
          (catch-Triple (Balanced own) {R = AfterResult left} h (λ a t p. p) (λ e t p. tt))
          (λ r.
            unwrap-Triple (AfterResult left r) {Q = λ a. Balanced (left a)} r
              (λ a t e p. got left r a t e p) (λ t p. tt))
