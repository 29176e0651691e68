-- ===== src/AmRegistry/Sound.antt =====
-- The worker's table of streams against the handlers that UCX has: what `am_register` and `am_stream`
-- keep.
use async_ucx.Base.{
  ℕ, suc, ◌<◌, ◌≡◌, refl, sym, ◌∙◌, Bool, true, false, ◌&&◌, Option, none, some, List, [], ◌∷◌,
  ◌==◌, update, if◌then◌else◌, arith, ◌⊎◌, inl, inr,
}
use async_ucx.Ucs.{Status, is_ok}
use async_ucx.Ucs.Codes.{ucs_ok}
use async_ucx.Error.{Result, ok, err, from_status, from_error}
use async_ucx.Ffi.{Ucx, AmHandler, Call}
use async_ucx.Sync.{SegQueue, Notify}
use async_ucx.Am.{RawMsg}
use async_ucx.AmStream.{new, unregister}
use async_ucx.AmRegistry.{
  Registry, replaced, registered, inserted, am_register, new_stream, looked_up, am_stream,
}

module _ (Q : SegQueue RawMsg) (N : Notify) (ucx : Ucx) (worker : ℕ) where
  -- The handler that UCX has for an identifier: that of the last call that set it and succeeded.
  abbrev pub chosen : Bool → AmHandler → Option AmHandler → Option AmHandler
  chosen true h before = some h
  chosen false h before = before

  abbrev pub handler : List Call → ℕ → Option AmHandler
  handler [] id = none
  handler (Call.set_am_recv_handler v i h ∷ t) id =
      chosen
        (is_ok (ucx.reply t (Call.set_am_recv_handler v i h)).status && (v == worker) && (id == i))
        h (handler t id)
  handler (_ ∷ t) id = handler t id

  -- The table has a stream under an identifier exactly if UCX calls that stream for it, and then it is
  -- the stream's own identifier, the stream is registered, and its address is one that was given out.
  pub record IsSound (r : Registry Q N) : Type 0 where
    pub listed_called :
        (id p : ℕ) → r.am_streams id ≡ some p → handler r.trace id ≡ some (AmHandler.stream p)
    pub called_listed :
        (id p : ℕ) → handler r.trace id ≡ some (AmHandler.stream p) → r.am_streams id ≡ some p
    pub own_id : (id p : ℕ) → r.am_streams id ≡ some p → (r.inners p).id ≡ id
    pub registered_still : (id p : ℕ) → r.am_streams id ≡ some p → (r.inners p).unregistered ≡ false
    pub made : (id p : ℕ) → r.am_streams id ≡ some p → p < r.next

  -- The call succeeds, or it fails with an error.
  set_or_not :
      (s : Status)
      → ((s ≡ ucs_ok) × (from_status s ≡ ok tt))
        ⊎ ((is_ok s ≡ false) × (from_status s ≡ err (from_error s)))
  unfolding from_status
  set_or_not ucs_ok = inl (refl, refl)
  set_or_not _ = inr (refl, refl)

  module _ (r : Registry Q N) (sound : IsSound r) (id : ℕ) where
    -- The state after UCX was asked to set a handler, and whether it did.
    abbrev asked : AmHandler → Registry Q N
    asked h = record r { trace = Call.set_am_recv_handler worker id h ∷ r.trace }

    abbrev status : AmHandler → Status
    status h = (ucx.reply r.trace (Call.set_am_recv_handler worker id h)).status

    handler_refused :
        (h : AmHandler)
        → is_ok (status h) ≡ false
        → (j : ℕ) → handler (asked h).trace j ≡ handler r.trace j
    handler_refused h refused j = rw refused

    handler_set :
        (h : AmHandler)
        → status h ≡ ucs_ok
        → (j : ℕ) → handler (asked h).trace j ≡ (if j == id then some h else handler r.trace j)
    handler_set h set j = rw set (ground arith)

    asked-IsSound : (h : AmHandler) → is_ok (status h) ≡ false → IsSound (asked h)
    asked-IsSound h refused = record {
      listed_called = λ j p e. handler_refused h refused j ∙ sound.listed_called j p e;
      called_listed = λ j p e. sound.called_listed j p (sym (handler_refused h refused j) ∙ e);
      own_id = sound.own_id;
      registered_still = sound.registered_still;
      made = sound.made;
    }

    -- Another handler takes the identifier.
    foreign-IsSound :
        (a : ℕ)
        → status (AmHandler.foreign a) ≡ ucs_ok
        → (old : Option ℕ) → r.am_streams id ≡ old
        → IsSound (replaced Q N old id (asked (AmHandler.foreign a)))
    unfolding replaced unregister
    foreign-IsSound a set none e = record {
      listed_called =
          λ j p h. ground (arith, handler_set (AmHandler.foreign a) set j, sound.listed_called j p);
      called_listed =
          λ j p h. ground (arith, handler_set (AmHandler.foreign a) set j, sound.called_listed j p);
      own_id = sound.own_id;
      registered_still = sound.registered_still;
      made = sound.made;
    }
    foreign-IsSound a set (some q) e = record {
      listed_called =
          λ j p h. ground (arith, handler_set (AmHandler.foreign a) set j, sound.listed_called j p);
      called_listed =
          λ j p h. ground (arith, handler_set (AmHandler.foreign a) set j, sound.called_listed j p);
      own_id = λ j p h. ground (arith, sound.own_id j p);
      registered_still = λ j p h.
          ground (arith, sound.own_id j p, sound.own_id id q e, sound.registered_still j p);
      made = λ j p h. ground (arith, sound.made j p);
    }

    -- A new stream takes it.
    stream-IsSound :
        status (AmHandler.stream r.next) ≡ ucs_ok
        → r.am_streams id ≡ none
        → IsSound (record (asked (AmHandler.stream r.next)) {
          am_streams = update r.am_streams id (some r.next);
          inners = update r.inners r.next (new Q N id);
          next = suc r.next;
        })
    unfolding new
    stream-IsSound set unlisted = record {
      listed_called = λ j p h.
          ground (arith, handler_set (AmHandler.stream r.next) set j, sound.listed_called j p);
      called_listed = λ j p h.
          ground (arith, handler_set (AmHandler.stream r.next) set j, sound.called_listed j p);
      own_id = λ j p h. ground (arith, sound.own_id j p, sound.made j p);
      registered_still = λ j p h. ground (arith, sound.registered_still j p, sound.made j p);
      made = λ j p h. ground (arith, sound.made j p);
    }

    -- An address is given out to a stream that is in no table yet.
    fresh-IsSound :
        IsSound (record r { inners = update r.inners r.next (new Q N id); next = suc r.next })
    unfolding new
    fresh-IsSound = record {
      listed_called = sound.listed_called;
      called_listed = sound.called_listed;
      own_id = λ j p h. ground (arith, sound.own_id j p, sound.made j p);
      registered_still = λ j p h. ground (arith, sound.registered_still j p, sound.made j p);
      made = λ j p h. ground (arith, sound.made j p);
    }

    pub am_register-IsSound :
        (a : ℕ) → IsSound (am_register Q N ucx worker id (AmHandler.foreign a) r).1
    unfolding am_register registered
    am_register-IsSound a = elim (set_or_not (status (AmHandler.foreign a))) [
      | inl (set, runs) ↦ rw runs (foreign-IsSound a set (r.am_streams id) refl)
      | inr (refused, e) ↦ rw e (asked-IsSound (AmHandler.foreign a) refused)
    ]

  new_stream-IsSound :
      (r : Registry Q N) (id : ℕ)
      → IsSound r
      → r.am_streams id ≡ none
      → IsSound (new_stream Q N ucx worker id r).1
  unfolding new_stream inserted am_register registered replaced
  new_stream-IsSound r id sound unlisted =
      elim (set_or_not (status r sound id (AmHandler.stream r.next))) [
        | inl (set, runs) ↦ rw (runs, unlisted) (stream-IsSound r sound id set unlisted)
        | inr (refused, e) ↦ rw e (
            asked-IsSound
              (record r { inners = update r.inners r.next (new Q N id); next = suc r.next })
              (fresh-IsSound r sound id) id (AmHandler.stream r.next) refused)
      ]

  looked_up-IsSound :
      (r : Registry Q N) (id : ℕ) (listed : Option ℕ)
      → IsSound r
      → r.am_streams id ≡ listed
      → IsSound (looked_up Q N ucx worker id r listed).1
  unfolding looked_up
  looked_up-IsSound r id none sound e = new_stream-IsSound r id sound e
  looked_up-IsSound r id (some p) sound e = sound

  pub am_stream-IsSound :
      (r : Registry Q N) (id : ℕ) → IsSound r → IsSound (am_stream Q N ucx worker id r).1
  unfolding am_stream
  am_stream-IsSound r id sound = looked_up-IsSound r id (r.am_streams id) sound refl

  inserted_listed :
      (id p q : ℕ) (x : Result (Unit {0}) × Registry Q N)
      → (inserted Q N id q x).0 ≡ ok p
      → (inserted Q N id q x).1.am_streams id ≡ some p
  unfolding inserted
  inserted_listed id p q (err e, r) h = cc
  inserted_listed id p q (ok _, r) h = ground arith

  looked_up_listed :
      (r : Registry Q N) (id p : ℕ) (listed : Option ℕ)
      → r.am_streams id ≡ listed
      → (looked_up Q N ucx worker id r listed).0 ≡ ok p
      → (looked_up Q N ucx worker id r listed).1.am_streams id ≡ some p
  unfolding looked_up new_stream
  looked_up_listed r id p none e h = inserted_listed id p r.next _ h
  looked_up_listed r id p (some q) e h = cc

  pub am_stream_listed :
      (r : Registry Q N) (id p : ℕ)
      → (am_stream Q N ucx worker id r).0 ≡ ok p
      → (am_stream Q N ucx worker id r).1.am_streams id ≡ some p
  unfolding am_stream
  am_stream_listed r id p h = looked_up_listed r id p (r.am_streams id) refl h
