-- ===== src/Endpoint/Lifecycle.antt =====
-- From `create` to the drop of the last clone: the references of an endpoint and its UCX handle.
use async_ucx.Base.{ℕ, ◌+◌, ◌<◌, ◌≡◌, ◌≢◌, true, false, some, ◌∷◌, if◌then◌else◌, arith}
use native.Mathlib.Decide.{ℕ_discrete as dec_eq}
use async_ucx.Ucs.Codes.{ucs_ok}
use async_ucx.Error.{from_error, from_status}
use async_ucx.Error.Laws.{from_status_error}
use async_ucx.Ffi.{Ucx, CloseMode, EpParams, Call, Inner, Reply, World, ok, err, running}
use async_ucx.EndpointInner.{new, drop_weak, drop_strong, clone_strong, downgrade, check, closed}
use async_ucx.EndpointInner
use async_ucx.EndpointInner.Invariant.{IsSound, AllSound}
use async_ucx.Endpoint.{Endpoint, clone, is_closed, with_handler, created, create, drop}

-- The shared state of an endpoint that was just made, which UCX and one owner refer to.
abbrev pub fresh : ℕ → Inner
fresh worker = record { closed = false; status = ucs_ok; worker = worker; strong = 1; weak = 1 }

module _ (ucx : Ucx) (worker : ℕ) (params : EpParams) (w : World) where
  -- The call that `create` makes and its answer.
  abbrev pub create_call : Call
  create_call = Call.ep_create worker (with_handler params w.next)

  abbrev pub answer : Reply
  answer = ucx.reply w.trace create_call

  -- A success returns an endpoint on fresh shared state, to which UCX has a weak reference and the
  -- caller the only strong one.
  pub create_made :
      (h : ℕ)
      → answer.status ≡ ucs_ok
      → answer.handle ≡ some h
      → ((create ucx worker params w).0 ≡ ok (record { handle = h; inner = w.next }))
        × ((create ucx worker params w).1.trace ≡ create_call ∷ w.trace)
        × ((create ucx worker params w).1.inners w.next ≡ fresh worker)
  unfolding create created from_status downgrade new running
  create_made h ok_status out = ground arith

  -- A failure returns the error of UCX and gives both references back: nothing refers to the shared
  -- state any more.
  pub create_failed :
      answer.status ≢ ucs_ok
      → ((create ucx worker params w).0 ≡ err (from_error answer.status))
        × ((create ucx worker params w).1.trace ≡ create_call ∷ w.trace)
        × (((create ucx worker params w).1.inners w.next).strong ≡ 0)
        × (((create ucx worker params w).1.inners w.next).weak ≡ 0)
  unfolding create created downgrade new drop_weak drop_strong running
  create_failed h = rw (from_status_error answer.status h, created) (ground arith)

  created_others : (q : ℕ) → q ≢ w.next → (create ucx worker params w).1.inners q ≡ w.inners q
  unfolding create created from_status downgrade new drop_weak drop_strong running
  created_others q h = ground arith

  created-IsSound : IsSound ((create ucx worker params w).1.inners w.next)
  unfolding create created from_status downgrade new drop_weak drop_strong running
  created-IsSound = ground arith

  pub create-AllSound : AllSound w → AllSound (create ucx worker params w).1
  create-AllSound s q = elim (dec_eq q w.next) [
    | yes same ↦ rw same created-IsSound
    | no other ↦ rw (created_others q other) (s q)
  ]

module _ (e : Endpoint) (w : World) (s : AllSound w) (owned : 0 < (w.inners e.inner).strong) where
  -- Where the endpoints are sound and this one has an owner, the drop of a clone closes the handle by
  -- force if no one has closed it, marks the endpoint as closed, and gives one strong reference back;
  -- the weak one is gone after it.
  pub drop_lem :
      ((drop e w).0 ≡ ok tt)
      × ((drop e w).1.trace ≡ (
          if (w.inners e.inner).closed
          then w.trace
          else Call.ep_close_nb e.handle CloseMode.force ∷ w.trace))
      × (((drop e w).1.inners e.inner).closed ≡ true)
      × (((drop e w).1.inners e.inner).weak ≡ 0)
      × (((drop e w).1.inners e.inner).strong + 1 ≡ (w.inners e.inner).strong)
  unfolding drop is_closed EndpointInner.is_closed closed drop_strong running
  drop_lem = ground (arith, s e.inner)

  drop_failed : ((drop e w).1.inners e.inner).status ≢ ucs_ok
  unfolding drop is_closed EndpointInner.is_closed closed drop_strong running
  drop_failed = ground (arith, s e.inner)

  drop_others : (q : ℕ) → q ≢ e.inner → (drop e w).1.inners q ≡ w.inners q
  unfolding drop is_closed EndpointInner.is_closed closed drop_strong running
  drop_others q h = ground (arith, s e.inner)

  drop-IsSound : IsSound ((drop e w).1.inners e.inner)
  drop-IsSound = record {
    open_counted = λ still_open. cc (drop_lem.2);
    closed_released = λ _. (drop_lem.3, drop_failed);
  }

  pub drop-AllSound : AllSound (drop e w).1
  drop-AllSound q = elim (dec_eq q e.inner) [
    | yes same ↦ rw same drop-IsSound
    | no other ↦ rw (drop_others q other) (s q)
  ]

  pub clone-AllSound : AllSound (clone e w).1
  unfolding clone clone_strong running
  clone-AllSound q = ground (arith, s e.inner, s q)
