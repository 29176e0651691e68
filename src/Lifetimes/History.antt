-- ===== src/Lifetimes/History.antt =====
-- Any sequence of making, cloning, looking at and dropping what UCX hands out.
use async_ucx.Base.{
  ℕ, suc, ◌+◌, ◌≡◌, refl, sym, ap, ◌∙◌, Bool, true, List, [], ◌∷◌, ◌++◌, ◌==◌, arith,
}
use async_ucx.Ffi.{Ucx, Call, World, start, running}
use async_ucx.Resources.{Resource, context, acquired, released}
use async_ucx.Context.{query, print_context, Config, new_with_config, default_config}
use async_ucx.Worker
use async_ucx.Worker.{drop_worker}
use async_ucx.Rma.{MemoryHandle, register, pack, unpack}
use async_ucx.Endpoint.{Endpoint}
use async_ucx.Sync.{Channel}
use async_ucx.Listener
use async_ucx.Lifetimes.{
  Value, arc, rc, region, Thing, thing, drop_thing, points_context, any, drop_arc, drop_rc,
  drop_region,
}
use async_ucx.Lifetimes.Owned.{owned, owned_out, shrunk, fewer}
use async_ucx.Lifetimes.Counted.{
  InBalance, Fresh, rc_left, context_of, worker_of, region_of, drop_arc-InBalance,
  drop_rc-InBalance, drop_region-InBalance, new_with_config-InBalance, new_worker-InBalance,
  register-InBalance, new_with_config_lem, new_worker_lem, register_lem,
}
use async_ucx.Lifetimes.Things.{
  things_of, config_thing, listener_thing, buffer_thing, key_thing, address_thing,
  default_config-InBalance, new_listener-InBalance, address-InBalance, pack-InBalance,
  unpack-InBalance, drop_thing-InBalance, default_config_lem, new_listener_lem, address_lem,
  pack_lem, unpack_lem,
}
use async_ucx.Lifetimes.Live.{
  drop_thing-AllLive, IsLive, AllLive, drop_arc-AllLive, drop_rc-AllLive, drop_region-AllLive,
}
use async_ucx.Lifetimes.Looked.{query_lem, looked-InBalance}

module _ (ucx : Ucx) (C : Channel ℕ) where
  -- One operation, with the values of the program before and after it. A pointer is cloned where there
  -- is one, and a drop takes its value.
  pub data Step (w : World) : List Value → World → List Value → Type 0 where
    reads_config :
        {own : List Value}
        → Step w own
            (default_config ucx w).1
            (things_of config_thing (default_config ucx w).0 ++ own)
    creates_context :
        {own : List Value} (am : Bool) (size : ℕ) (c : Config)
        → Step w own
            (new_with_config ucx am size c w).1
            (context_of ucx (new_with_config ucx am size c w).0 ++ own)
    clones_context :
        {own : List Value} (c : ℕ) → any (points_context c) own ≡ true → Step w own w (arc c ∷ own)
    creates_worker :
        {own : List Value} (c : ℕ)
        → any (points_context c) own ≡ true
        → Step w own
            (Worker.new ucx (record { handle = c }) w).1
            (worker_of ucx (Worker.new ucx (record { handle = c }) w).0 ++ own)
    clones_worker :
        (before after : List Value) (v c n : ℕ)
        → Step w (before ++ (rc v c n ∷ after)) w (rc v c (suc n) ∷ (before ++ after))
    registers :
        {own : List Value} (c address n : ℕ)
        → any (points_context c) own ≡ true
        → Step w own
            (register ucx c address n w).1
            (region_of ucx (register ucx c address n w).0 ++ own)
    queries_context :
        {own : List Value} (c : ℕ)
        → any (points_context c) own ≡ true
        → Step w own (query ucx (record { handle = c }) w).1 own
    prints_context :
        {own : List Value} (c : ℕ)
        → any (points_context c) own ≡ true
        → Step w own (print_context (record { handle = c }) w).1 own
    creates_listener :
        {own : List Value} (worker addr sender : ℕ)
        → Step w own
            (Listener.new C ucx worker addr sender w).1
            (things_of listener_thing (Listener.new C ucx worker addr sender w).0 ++ own)
    asks_address :
        {own : List Value} (v : Worker.Worker)
        → Step w own
            (Worker.address ucx v w).1
            (things_of address_thing (Worker.address ucx v w).0 ++ own)
    packs :
        {own : List Value} (m : MemoryHandle)
        → any (points_context m.context) own ≡ true
        → Step w own (pack ucx m w).1 (things_of buffer_thing (pack ucx m w).0 ++ own)
    unpacks :
        {own : List Value} (e : Endpoint) (bytes : List ℕ)
        → Step w own (unpack ucx e bytes w).1 (things_of key_thing (unpack ucx e bytes w).0 ++ own)
    drops_thing :
        (before after : List Value) (x : Thing)
        → Step w (before ++ (thing x ∷ after)) (drop_thing x w).1 (before ++ after)
    drops_context :
        (before after : List Value) (c : ℕ)
        → Step w (before ++ (arc c ∷ after)) (drop_arc c (before ++ after) w).1 (before ++ after)
    drops_worker :
        (before after : List Value) (v c n : ℕ)
        → Step w
            (before ++ (rc v c n ∷ after))
            (drop_rc v c n (before ++ after) w).1
            (rc_left ucx v c n (before ++ after))
    drops_region :
        (before after : List Value) (c m : ℕ)
        → Step w
            (before ++ (region c m ∷ after))
            (drop_region c m (before ++ after) w).1
            (before ++ after)

  pub data Reach : World → List Value → Type 0 where
    begin : Reach start []
    next : {w v : World} {own own' : List Value} → Reach w own → Step w own v own' → Reach v own'

  in_front :
      (w : World) (x : Value) (before after : List Value)
      → InBalance ucx w (before ++ (x ∷ after))
      → InBalance ucx w (x ∷ (before ++ after))
  in_front w x before after h r =
      h r ∙ ap (λ n. released r w.trace + n) (owned_out r x before after)

  module _ (fresh : Fresh ucx) where
    Step-InBalance :
        {w v : World} {own own' : List Value}
        → InBalance ucx w own
        → Step w own v own'
        → InBalance ucx v own'
    unfolding print_context running
    Step-InBalance {w} {own = own} h reads_config = default_config-InBalance ucx own w h
    Step-InBalance {w} {own = own} h (creates_context am size c) =
        new_with_config-InBalance ucx fresh am size c own w h
    Step-InBalance {w} {own = own} h (clones_context c up) =
        λ r. h r ∙ ap (λ n. released r w.trace + n) (sym (shrunk r c own up))
    Step-InBalance {w} {own = own} h (creates_worker c up) = new_worker-InBalance ucx c own w up h
    Step-InBalance {w} h (clones_worker before after v c n) = λ r.
        in_front w (rc v c n) before after h r
        ∙ ap (λ k. released r w.trace + k) (sym (fewer r v c n (before ++ after)))
    Step-InBalance {w} {own = own} h (registers c a n up) = register-InBalance ucx c a n own w up h
    Step-InBalance {w} {own = own} h (queries_context c up) =
        looked-InBalance ucx (query ucx (record { handle = c }) w).1 w (Call.context_query c) own
          (query_lem ucx c w) (λ r reply. refl) (λ r. refl) h
    Step-InBalance {w} {own = own} h (prints_context c up) =
        looked-InBalance ucx (print_context (record { handle = c }) w).1 w
          (Call.context_print_info c) own refl (λ r reply. refl) (λ r. refl) h
    Step-InBalance {w} {own = own} h (creates_listener worker addr sender) =
        new_listener-InBalance ucx own w h C worker addr sender
    Step-InBalance {w} {own = own} h (asks_address v) = address-InBalance ucx own w h v
    Step-InBalance {w} {own = own} h (packs m up) = pack-InBalance ucx own w h m
    Step-InBalance {w} {own = own} h (unpacks e bytes) = unpack-InBalance ucx own w h e bytes
    Step-InBalance {w} h (drops_thing before after x) =
        drop_thing-InBalance ucx x (before ++ after) w (in_front w (thing x) before after h)
    Step-InBalance {w} h (drops_context before after c) =
        drop_arc-InBalance ucx c (before ++ after) w (in_front w (arc c) before after h)
    Step-InBalance {w} h (drops_worker before after v c n) =
        drop_rc-InBalance ucx v c n (before ++ after) w (in_front w (rc v c n) before after h)
    Step-InBalance {w} h (drops_region before after c m) =
        drop_region-InBalance ucx c m (before ++ after) w (in_front w (region c m) before after h)

  live :
      (w : World) (own : List Value) (c : ℕ)
      → InBalance ucx w own
      → any (points_context c) own ≡ true
      → IsLive ucx c w.trace
  live w own c h up = ground (arith, h (context c))

  self : (c : ℕ) → (c == c) ≡ true
  self c = ground arith

  -- The value `x` at its place, which points to `c`.
  points :
      (w : World) (x : Value) (before after : List Value) (c : ℕ)
      → InBalance ucx w (before ++ (x ∷ after))
      → points_context c x ≡ true
      → IsLive ucx c w.trace
  points w x before after c h up =
      live w (x ∷ (before ++ after)) c (in_front w x before after h) (rw up)

  Step-AllLive :
      {w v : World} {own own' : List Value}
      → InBalance ucx w own
      → AllLive ucx w.trace
      → Step w own v own'
      → AllLive ucx v.trace
  unfolding print_context running
  Step-AllLive {w} {own = own} b h reads_config = rw ((default_config_lem ucx own w b).1) (tt, h)
  Step-AllLive {w} b h (creates_context am size c) =
      rw ((new_with_config_lem ucx am size c w).1) (tt, h)
  Step-AllLive b h (clones_context c up) = h
  Step-AllLive {w} {own = own} b h (creates_worker c up) =
      rw ((new_worker_lem ucx c w).1) (live w own c b up, h)
  Step-AllLive b h (clones_worker before after v c n) = h
  Step-AllLive {w} {own = own} b h (registers c a n up) =
      rw ((register_lem ucx c a n w).1) (live w own c b up, h)
  Step-AllLive {w} {own = own} b h (queries_context c up) =
      rw (query_lem ucx c w) (live w own c b up, h)
  Step-AllLive {w} {own = own} b h (prints_context c up) = (live w own c b up, h)
  Step-AllLive {w} {own = own} b h (creates_listener worker addr sender) =
      rw ((new_listener_lem ucx own w b C worker addr sender).1) (tt, h)
  Step-AllLive {w} {own = own} b h (asks_address v) = rw ((address_lem ucx own w b v).1) (tt, h)
  Step-AllLive {w} {own = own} b h (packs m up) =
      rw ((pack_lem ucx own w b m).1) (live w own m.context b up, h)
  Step-AllLive {w} {own = own} b h (unpacks e bytes) =
      rw ((unpack_lem ucx own w b e bytes).1) (tt, h)
  Step-AllLive {w} b h (drops_thing before after x) = drop_thing-AllLive ucx x w h
  Step-AllLive {w} b h (drops_context before after c) =
      drop_arc-AllLive ucx c (before ++ after) w (points w (arc c) before after c b (self c)) h
  Step-AllLive {w} b h (drops_worker before after v c n) =
      drop_rc-AllLive ucx v c n (before ++ after) w (points w (rc v c n) before after c b (self c))
        h
  Step-AllLive {w} b h (drops_region before after c m) =
      drop_region-AllLive ucx c m (before ++ after) w
        (points w (region c m) before after c b (self c)) h

  start-InBalance : InBalance ucx start []
  start-InBalance (context h) = refl
  start-InBalance _ = refl

  module _ (fresh : Fresh ucx) where
    Reach-InBalance_all : {w : World} {own : List Value} → Reach w own → InBalance ucx w own
    Reach-InBalance_all begin = start-InBalance
    Reach-InBalance_all (next before step) = Step-InBalance fresh (Reach-InBalance_all before) step

    -- With a UCX that hands out no context that is still in use: after any such operations, each
    -- configuration, worker, region, listener, packed key, key and worker address was given back as often
    -- as it was handed out, but for those that values of the program own; and each context was, but for
    -- one time as long as a value points to it.
    pub Reach_counted :
        (r : Resource) {w : World} {own : List Value}
        → Reach w own
        → acquired ucx r w.trace ≡ released r w.trace + owned r own
    Reach_counted r reached = Reach-InBalance_all reached r

    -- With such a UCX, no call is made on a context that was cleaned up: when a worker is created, a region
    -- is mapped, packed or unmapped, or a context is queried, printed or cleaned up, UCX has handed that context out and it was not
    -- given back since.
    pub Reach-AllLive : {w : World} {own : List Value} → Reach w own → AllLive ucx w.trace
    Reach-AllLive begin = tt
    Reach-AllLive (next before step) =
        Step-AllLive (Reach-InBalance_all before) (Reach-AllLive before) step
