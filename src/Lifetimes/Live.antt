-- ===== src/Lifetimes/Live.antt =====
-- The contexts that calls name, and the calls of the drops.
use async_ucx.Base.{
  ℕ, zero, suc, ◌+◌, ◌<◌, Bool, true, false, List, [], ◌∷◌, if◌then◌else◌, Bool-cases, inl, inr,
  arith,
}
use async_ucx.Ffi.{Ucx, Call, World, running}
use async_ucx.Resources.{context, acquired, released}
use async_ucx.Context.{drop_context}
use async_ucx.Worker.{drop_worker}
use async_ucx.Rma.{drop_memory}
use async_ucx.Context.{drop_config}
use async_ucx.Worker.{drop_address}
use async_ucx.Rma.{drop_buffer, drop_key}
use async_ucx.Lifetimes.{
  Thing, settings, listening, packed, unpacked, addressed, drop_thing, Value, points_context, any,
  drop_arc, drop_rc, drop_region,
}

module _ (ucx : Ucx) where
  -- UCX has handed out the context, and it was not given back since.
  abbrev pub IsLive : ℕ → List Call → Type 0
  IsLive c t = released (context c) t < acquired ucx (context c) t

  -- A call that names a context names one that is live.
  abbrev pub NamesLive : Call → List Call → Type 0
  NamesLive (Call.cleanup c) t = IsLive c t
  NamesLive (Call.worker_create c) t = IsLive c t
  NamesLive (Call.mem_map c a n) t = IsLive c t
  NamesLive (Call.mem_unmap c m) t = IsLive c t
  NamesLive (Call.rkey_pack c m) t = IsLive c t
  NamesLive (Call.context_query c) t = IsLive c t
  NamesLive (Call.context_print_info c) t = IsLive c t
  NamesLive _ t = Unit {0}

  abbrev pub AllLive : List Call → Type 0
  AllLive [] = Unit {0}
  AllLive (c ∷ t) = NamesLive c t × AllLive t

  less_still : (b : Bool) (m n : ℕ) → m < n → 0 + m < (if b then 0 else 0) + n
  less_still true m n h = omega arith
  less_still false m n h = omega arith

  pub drop_arc-AllLive :
      (c : ℕ) (rest : List Value) (w : World)
      → IsLive c w.trace
      → AllLive w.trace
      → AllLive (drop_arc c rest w).1.trace
  unfolding drop_arc drop_context running
  drop_arc-AllLive c rest w up h = elim (Bool-cases (any (points_context c) rest)) [
    | inl left ↦ rw left h
    | inr last ↦ rw last (up, h)
  ]

  pub drop_rc-AllLive :
      (v c n : ℕ) (rest : List Value) (w : World)
      → IsLive c w.trace
      → AllLive w.trace
      → AllLive (drop_rc v c n rest w).1.trace
  unfolding drop_rc drop_worker running
  drop_rc-AllLive v c (suc n) rest w up h = h
  drop_rc-AllLive v c zero rest w up h =
      drop_arc-AllLive c rest (record w { trace = Call.worker_destroy v ∷ w.trace })
        (less_still _ _ _ up) (tt, h)

  pub drop_region-AllLive :
      (c m : ℕ) (rest : List Value) (w : World)
      → IsLive c w.trace
      → AllLive w.trace
      → AllLive (drop_region c m rest w).1.trace
  unfolding drop_region drop_memory running
  drop_region-AllLive c m rest w up h =
      drop_arc-AllLive c rest (record w { trace = Call.mem_unmap c m ∷ w.trace })
        (less_still _ _ _ up) (up, h)

  pub drop_thing-AllLive :
      (x : Thing) (w : World) → AllLive w.trace → AllLive (drop_thing x w).1.trace
  unfolding drop_thing drop_config drop_buffer drop_key drop_address running
  drop_thing-AllLive (settings x) w h = (tt, h)
  drop_thing-AllLive (listening x) w h = (tt, h)
  drop_thing-AllLive (packed x) w h = (tt, h)
  drop_thing-AllLive (unpacked x) w h = (tt, h)
  drop_thing-AllLive (addressed v x) w h = (tt, h)
