-- ===== src/Lifetimes/Counted.antt =====
-- The balance of contexts, workers and regions through each operation.
use async_ucx.Base.{
  ℕ, ◌+◌, ◌≤◌, ◌≡◌, refl, ap, ◌∙◌, zero, suc, inl, inr, Bool, true, false, Option, none, some, List,
  [], ◌∷◌, ◌++◌, if◌then◌else◌, Bool-cases, arith,
}
use async_ucx.Ucs.{is_ok}
use async_ucx.Error.{from_status}
use async_ucx.Ffi.{Ucx, Params, Call, Reply, World, Outcome, ok, running}
use async_ucx.Resources.{
  Resource, context, worker, memory, weigh, handed, acquired, given_back, released,
}
use async_ucx.Context.{Config, Context, new_with_config, params, drop_context}
use async_ucx.Worker.{Worker, drop_worker}
use async_ucx.Worker
use async_ucx.Rma.{MemoryHandle, register, drop_memory}
use async_ucx.Lifetimes.{
  Value, arc, rc, region, points_context, any, drop_arc, drop_rc, drop_region,
}
use async_ucx.Lifetimes.Owned.{
  given, owned, grown_context, grown_worker, grown_region, shrunk, gone, split_worker, split_region,
  fewer, not_pointed,
}

module _ (ucx : Ucx) where
  abbrev pub InBalance : World → List Value → Type 0
  InBalance w own = (r : Resource) → acquired ucx r w.trace ≡ released r w.trace + owned r own

  abbrev pub rc_left : (worker context extra : ℕ) → List Value → List Value
  rc_left v c (suc n) rest = rc v c n ∷ rest
  rc_left v c zero rest = rest

  abbrev pub context_of : Outcome Context → List Value
  context_of (ok c) = arc c.handle ∷ []
  context_of _ = []

  abbrev pub worker_of : Outcome Worker → List Value
  worker_of (ok w) = rc w.handle w.context.handle 0 ∷ []
  worker_of _ = []

  abbrev pub region_of : Outcome MemoryHandle → List Value
  region_of (ok m) = region m.context m.handle ∷ []
  region_of _ = []

  pub no_more : (b : Bool) (n : ℕ) → (if b then 0 else 0) + n ≡ n
  no_more true n = omega arith
  no_more false n = omega arith

  pub drop_arc-InBalance :
      (c : ℕ) (rest : List Value) (w : World)
      → InBalance w (arc c ∷ rest)
      → InBalance (drop_arc c rest w).1 rest
  unfolding drop_arc drop_context running
  drop_arc-InBalance c rest w h r = elim (Bool-cases (any (points_context c) rest)) [
    | inl left ↦ rw left (h r ∙ ap (λ n. released r w.trace + n) (shrunk r c rest left))
    | inr last ↦ rw last (
        no_more (is_ok (ucx.reply w.trace (Call.cleanup c)).status) (acquired ucx r w.trace)
        ∙ omega (arith, h r, gone r c rest last))
  ]

  pub drop_rc-InBalance :
      (v c n : ℕ) (rest : List Value) (w : World)
      → InBalance w (rc v c n ∷ rest)
      → InBalance (drop_rc v c n rest w).1 (rc_left v c n rest)
  unfolding drop_rc drop_worker running
  drop_rc-InBalance v c (suc n) rest w h =
      λ r. h r ∙ ap (λ k. released r w.trace + k) (fewer r v c n rest)
  drop_rc-InBalance v c zero rest w h =
      drop_arc-InBalance c rest (record w { trace = Call.worker_destroy v ∷ w.trace })
        (λ r.
          no_more (is_ok (ucx.reply w.trace (Call.worker_destroy v)).status)
            (acquired ucx r w.trace)
          ∙ omega (arith, h r, split_worker r v c 0 rest))

  pub drop_region-InBalance :
      (c m : ℕ) (rest : List Value) (w : World)
      → InBalance w (region c m ∷ rest)
      → InBalance (drop_region c m rest w).1 rest
  unfolding drop_region drop_memory running
  drop_region-InBalance c m rest w h =
      drop_arc-InBalance c rest (record w { trace = Call.mem_unmap c m ∷ w.trace })
        (λ r.
          no_more (is_ok (ucx.reply w.trace (Call.mem_unmap c m)).status) (acquired ucx r w.trace)
          ∙ omega (arith, h r, split_region r c m rest))

  abbrev pub made : (ℕ → Value) → Option ℕ → List Value
  made f none = []
  made f (some h) = f h ∷ []

  pub new_with_config_lem :
      (am : Bool) (size : ℕ) (c : Config) (w : World)
      → let call = Call.init_version (params am size) c.handle in
        (context_of (new_with_config ucx am size c w).0 ≡ made arc (given (ucx.reply w.trace call)))
        × ((new_with_config ucx am size c w).1.trace ≡ call ∷ w.trace)
  unfolding new_with_config from_status running
  new_with_config_lem am size c w = (ground arith, ground arith)

  pub new_worker_lem :
      (c : ℕ) (w : World)
      → let call = Call.worker_create c in
        (worker_of (Worker.new ucx (record { handle = c }) w).0
          ≡ made (λ h. rc h c 0) (given (ucx.reply w.trace call)))
        × ((Worker.new ucx (record { handle = c }) w).1.trace ≡ call ∷ w.trace)
  unfolding Worker.new from_status running
  new_worker_lem c w = (ground arith, ground arith)

  pub register_lem :
      (c a n : ℕ) (w : World)
      → let call = Call.mem_map c a n in
        (region_of (register ucx c a n w).0 ≡ made (region c) (given (ucx.reply w.trace call)))
        × ((register ucx c a n w).1.trace ≡ call ∷ w.trace)
  unfolding register running
  register_lem c a n w = (ground arith, ground arith)

  abbrev pub worth_of : (ℕ → Resource) → Resource → Option ℕ → ℕ
  worth_of k r none = 0
  worth_of k r (some h) = weigh r (k h)

  handed_given :
      (k : ℕ → Resource) (r : Resource) (reply : Reply) (n : ℕ)
      → n ≡ worth_of k r reply.handle
      → (if is_ok reply.status then n else 0) ≡ worth_of k r (given reply)
  handed_given k r reply n e = elim (Bool-cases (is_ok reply.status)) [
    | inl good ↦ rw good e
    | inr bad ↦ rw bad
  ]

  pub made-owned :
      (f : ℕ → Value) (k : ℕ → Resource) (own : List Value) (r : Resource) (a b : ℕ) (g : Option ℕ)
      → ((h : ℕ) → g ≡ some h → weigh r (k h) + a ≡ b + owned r (f h ∷ own))
      → a ≡ b + owned r own
      → worth_of k r g + a ≡ b + owned r (made f g ++ own)
  made-owned f k own r a b none grows e = omega (arith, e)
  made-owned f k own r a b (some h) grows e = grows h refl

  -- A call that hands out what a value `f h` has for the handle `h`.
  made-InBalance :
      (f : ℕ → Value) (k : ℕ → Resource) (call : Call) (own : List Value) (w : World)
      → ((r : Resource) (reply : Reply) → handed r call reply ≡ worth_of k r reply.handle)
      → ((r : Resource) → given_back r call ≡ 0)
      → ((r : Resource) (h : ℕ)
          → given (ucx.reply w.trace call) ≡ some h
          → weigh r (k h) + acquired ucx r w.trace ≡ released r w.trace + owned r (f h ∷ own))
      → InBalance w own
      → InBalance
          (record w { trace = call ∷ w.trace })
          (made f (given (ucx.reply w.trace call)) ++ own)
  made-InBalance f k call own w hands keeps grows h r =
      let reply = ucx.reply w.trace call in
      omega (
        arith,
        keeps r,
        handed_given k r reply (handed r call reply) (hands r reply),
        made-owned f k own r (acquired ucx r w.trace) (released r w.trace) (given reply) (grows r)
            (h r),
      )

  worth_of_handle :
      (k : ℕ → Resource) (r : Resource) (o : Option ℕ)
      → elim o [ none ↦ 0 | some h ↦ weigh r (k h) ] ≡ worth_of k r o
  worth_of_handle k r none = refl
  worth_of_handle k r (some h) = refl

  pub moved :
      (u w : World) (call : Call) (xs ys own : List Value)
      → xs ≡ ys
      → u.trace ≡ call ∷ w.trace
      → InBalance (record w { trace = call ∷ w.trace }) (ys ++ own)
      → InBalance u (xs ++ own)
  moved u w call xs ys own e t h r = rw (e, t) (h r)

  -- UCX hands out no handle of a context that has not been cleaned up.
  abbrev pub Fresh : Type 0
  Fresh =
      (t : List Call) (p : Params) (c h : ℕ)
      → given (ucx.reply t (Call.init_version p c)) ≡ some h
      → acquired ucx (context h) t ≤ released (context h) t

  module _ (fresh : Fresh) where
    pub new_with_config-InBalance :
        (am : Bool) (size : ℕ) (c : Config) (own : List Value) (w : World)
        → InBalance w own
        → InBalance
            (new_with_config ucx am size c w).1
            (context_of (new_with_config ucx am size c w).0 ++ own)
    new_with_config-InBalance am size c own w h =
        let call = Call.init_version (params am size) c.handle in
        let (v, t) = new_with_config_lem am size c w in
        moved (new_with_config ucx am size c w).1 w call _ _ own v t (
          made-InBalance arc context call own w (λ r reply. worth_of_handle context r reply.handle)
            (λ r. refl)
            (λ r x e.
              grown_context r x own (acquired ucx r w.trace) (released r w.trace)
                (not_pointed x own (acquired ucx (context x) w.trace) (released (context x) w.trace)
                  (fresh w.trace (params am size) c.handle x e) (h (context x)))
                (h r))
            h)

  pub new_worker-InBalance :
      (c : ℕ) (own : List Value) (w : World)
      → any (points_context c) own ≡ true
      → InBalance w own
      → InBalance
          (Worker.new ucx (record { handle = c }) w).1
          (worker_of (Worker.new ucx (record { handle = c }) w).0 ++ own)
  new_worker-InBalance c own w up h =
      let (v, t) = new_worker_lem c w in
      moved (Worker.new ucx (record { handle = c }) w).1 w (Call.worker_create c) _ _ own v t (
        made-InBalance (λ x. rc x c 0) worker (Call.worker_create c) own w
          (λ r reply. worth_of_handle worker r reply.handle) (λ r. refl)
          (λ r x e. grown_worker r x c own (acquired ucx r w.trace) (released r w.trace) up (h r))
          h)

  pub register-InBalance :
      (c a n : ℕ) (own : List Value) (w : World)
      → any (points_context c) own ≡ true
      → InBalance w own
      → InBalance (register ucx c a n w).1 (region_of (register ucx c a n w).0 ++ own)
  register-InBalance c a n own w up h =
      let (v, t) = register_lem c a n w in
      moved (register ucx c a n w).1 w (Call.mem_map c a n) _ _ own v t (
        made-InBalance (region c) (memory c) (Call.mem_map c a n) own w
          (λ r reply. worth_of_handle (memory c) r reply.handle) (λ r. refl)
          (λ r x e. grown_region r c x own (acquired ucx r w.trace) (released r w.trace) up (h r))
          h)
