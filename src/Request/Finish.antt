-- ===== src/Request/Finish.antt =====
-- How a call that returns a status pointer ends, as UCX documents such pointers.
use async_ucx.Base.{ℕ, ◌<◌, ◌≡◌, ◌≢◌, sym, ◌∙◌, false, not, ◌==◌, if◌then◌else◌, arith}
use async_ucx.Ucs.{Status, ucs_ptr_is_err, ucs_status_ptr}
use async_ucx.Ucs.Codes.{ucs_ok, ucs_inprogress, unnamed}
use async_ucx.Ucs.Laws.{is_ptr-not_err, encoded_is_err, encoded_not_null}
use async_ucx.Error.{Error, Result, from_error, from_ptr}
use async_ucx.Error
use async_ucx.Error.Laws.{from_ptr-encoded}
use async_ucx.Ffi.{
  Ucx, World, Outcome, ok, err, ◌>>=◌, pure, or_panic, lift, raise_unwrap_err, proceed,
}
use async_ucx.Ffi.Laws.{pure-bind}
use async_ucx.Request.{poll_normal, await, is_ptr, finish_request, finish_send}
use async_ucx.Request.Await.{Completes, freed, await-Completes}

abbrev pub returned : Result (Unit {0}) → Outcome (Unit {0})
returned (Error.Result.ok a) = ok a
returned (Error.Result.err e) = err e

module _ (ucx : Ucx) where
  -- On a pointer that is not null the test does not overflow.
  pub is_ptr_lem : (p : ℕ) → p ≢ 0 → is_ptr ucx p ≡ pure (not (ucs_ptr_is_err ucx.abi p))
  unfolding is_ptr or_panic pure
  is_ptr_lem p h = rw (is_ptr-not_err ucx.abi ucx.checks p h)

  -- A pointer that UCX returned at `w`, and how the operation ends: null, it is over; an error, it has
  -- failed; else it is a request, and ends when UCX completes that, with its status.
  pub data Ends (fuel : ℕ) (w : World) (p : ℕ) (o : Outcome (Unit {0})) (v : World) : Type 0 where
    at_once : p ≡ 0 → o ≡ ok tt → v ≡ w → Ends fuel w p o v
    failed :
        (s : Status)
        → s ≢ ucs_ok
        → s ≢ ucs_inprogress
        → s ≢ unnamed
        → p ≡ ucs_status_ptr ucx.abi s
        → o ≡ err (from_error s)
        → v ≡ w
        → Ends fuel w p o v
    completed :
        (k : ℕ) (r : Result (Unit {0})) (u : World)
        → p ≢ 0
        → ucs_ptr_is_err ucx.abi p ≡ false
        → Completes ucx (poll_normal ucx) p w k r u
        → k < fuel
        → o ≡ returned r
        → v ≡ freed ucx (poll_normal ucx) p u
        → Ends fuel w p o v

  ne_false : (p : ℕ) → p ≢ 0 → (p == 0) ≡ false
  ne_false p h = ground arith

  module _ (fuel : ℕ) (w : World) (p : ℕ) where
    request_not_null :
        p ≢ 0
        → finish_request ucx fuel p ≡ (
            if not (ucs_ptr_is_err ucx.abi p)
            then await ucx (poll_normal ucx) p fuel >>= (λ r. lift r)
            else lift (from_ptr ucx.abi p))
    unfolding finish_request
    request_not_null h = rw (ne_false p h, is_ptr_lem p h, pure-bind)

    send_not_null :
        p ≢ 0
        → finish_send ucx fuel p ≡ (
            if not (ucs_ptr_is_err ucx.abi p)
            then await ucx (poll_normal ucx) p fuel >>= (λ r. lift r)
            else raise_unwrap_err (from_ptr ucx.abi p))
    unfolding finish_send
    send_not_null h = rw (ne_false p h, is_ptr_lem p h, pure-bind)

    awaited :
        (k : ℕ) (r : Result (Unit {0})) (u : World)
        → Completes ucx (poll_normal ucx) p w k r u
        → k < fuel
        → (await ucx (poll_normal ucx) p fuel >>= (λ x. lift x)) w
          ≡ (returned r, freed ucx (poll_normal ucx) p u)
    unfolding ◌>>=◌ lift
    awaited k (Error.Result.ok _) u c lt =
        rw (await-Completes ucx (poll_normal ucx) p fuel c lt, proceed)
    awaited k (Error.Result.err x) u c lt =
        rw (await-Completes ucx (poll_normal ucx) p fuel c lt, proceed)

    -- The code that ends `flush`, `put` and `get` does what the pointer means: null, it is over; an
    -- encoded error, that error is returned; a request that UCX completes, it is awaited and freed, and
    -- its status is the result.
    pub finish_request-Ends :
        (o : Outcome (Unit {0})) (v : World)
        → Ends fuel w p o v
        → finish_request ucx fuel p w ≡ (o, v)
    unfolding finish_request lift pure
    finish_request-Ends o v (at_once z e f) = rw (z, e, f)
    finish_request-Ends o v (failed s a b c z e f) = rw (
      request_not_null (λ n. encoded_not_null ucx.abi s a b c (sym z ∙ n)),
      z,
      encoded_is_err ucx.abi s a b c,
      from_ptr-encoded ucx.abi s a b c,
      e,
      f,
    )
    finish_request-Ends o v (completed k r u n q c lt e f) =
        rw (request_not_null n, q, e, f) (awaited k r u c lt)

    -- The code that ends the sends does what the pointer means, in the same three cases: over at once,
    -- an encoded error, or a request that is awaited and freed and whose status is the result.
    pub finish_send-Ends :
        (o : Outcome (Unit {0})) (v : World) → Ends fuel w p o v → finish_send ucx fuel p w ≡ (o, v)
    unfolding finish_send raise_unwrap_err pure
    finish_send-Ends o v (at_once z e f) = rw (z, e, f)
    finish_send-Ends o v (failed s a b c z e f) = rw (
      send_not_null (λ n. encoded_not_null ucx.abi s a b c (sym z ∙ n)),
      z,
      encoded_is_err ucx.abi s a b c,
      from_ptr-encoded ucx.abi s a b c,
      e,
      f,
    )
    finish_send-Ends o v (completed k r u n q c lt e f) =
        rw (send_not_null n, q, e, f) (awaited k r u c lt)
