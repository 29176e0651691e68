-- ===== src/Endpoint/Peers.antt =====
-- The end of the tests in src/ucp/endpoint/rma.rs, tag.rs and am.rs: two endpoints that are connected
-- with each other are closed, the second one after it has lost its peer.
use async_ucx.Base.{◌<◌, arith, ℕ, ◌≡◌, ◌≢◌, refl, Bool, true, false, List, ◌∷◌, ◌==◌, ◌&&◌, update}
use async_ucx.Ucs.{ucs_ptr_is_err}
use async_ucx.Ucs.Codes.{ucs_err_connection_reset}
use async_ucx.Error.{Error, Result, from_status, from_error}
use async_ucx.Ffi.{Ucx, Inner, Call, CloseMode, World, ok, M, ◌>>=◌, ◌>>◌, catch, assert, running}
use async_ucx.EndpointInner
use async_ucx.Request.Finish.{is_ptr_lem}
use async_ucx.Endpoint.{
  Endpoint, is_closed, get_status, get_rc, finish_close, close_answered, close_handle, close,
}
use async_ucx.Endpoint.Lifecycle.{fresh}
use async_ucx.Endpoint.Waiting.{Settles, close_wait-Settles}

-- `assert_eq!` with `Ok(())` and with `Err(Error::ConnectionReset)`
abbrev is_fine : Result (Unit {0}) → Bool
is_fine (Result.ok _) = true
is_fine (Result.err e) = false

abbrev is_reset : Result (Unit {0}) → Bool
is_reset (Result.err Error.connection_reset) = true
is_reset _ = false

-- `assert_eq!(endpoint.get_rc(), (strong, weak))`
unfoldable pub expect_rc : Endpoint → (strong weak : ℕ) → M (Unit {0})
expect_rc endpoint strong weak = do (s, w) ← get_rc endpoint; assert ((s == strong) && (w == weak))

unfoldable pub farewell : Ucx → ℕ → (endpoint1 endpoint2 : Endpoint) → M (Unit {0})
unfolding expect_rc
farewell ucx fuel endpoint1 endpoint2 = do
  expect_rc endpoint1 1 1
  expect_rc endpoint2 1 1
  r ← catch (close ucx fuel endpoint1 false)
  assert (is_fine r)
  r ← catch (close ucx fuel endpoint2 false)
  assert (is_reset r)
  expect_rc endpoint1 1 0
  expect_rc endpoint2 1 1
  r ← catch (close ucx fuel endpoint2 true)
  assert (is_fine r)
  expect_rc endpoint2 1 0

not_null : (p : ℕ) → p ≢ 0 → (p == 0) ≡ false
not_null p h = ground arith

-- The states of two endpoints at the addresses 0 and 1.
abbrev pub both : (ℕ → Inner) → (first second : Inner) → ℕ → Inner
both f first second = update (update f 0 first) 1 second

-- The state of an endpoint whose error handler was called with a reset.
abbrev pub reset : ℕ → Inner
reset worker = record (fresh worker) { status = ucs_err_connection_reset }

module _ (ucx : Ucx) (request : ℕ) (no_err : ucs_ptr_is_err ucx.abi request ≡ false)
    (some_request : request ≢ 0) (h h' v v' next next' : ℕ) (t t' : List Call)
    (f g : ℕ → Inner) where
  -- The state before, that in which the request of the first close is looked at, and that after its last
  -- look.
  abbrev pub before_close : World
  before_close = record { trace = t; inners = both f (fresh v) (fresh v'); next = next }

  abbrev pub asked : World
  asked = record before_close { trace = Call.ep_close_nb h CloseMode.flush ∷ t }

  abbrev pub settled : World
  settled = record {
    trace = t';
    inners = update (both g (fresh v) (fresh v')) 1 (reset v');
    next = next';
  }

  -- Two fresh endpoints, the close of the first of which gets a request that is over, without an error, after
  -- any number of waits; whatever the others did meanwhile, the error handler has by then stored a reset in
  -- the state of the second and nothing in that of the first; and the forced close of the second is over at
  -- once. Then the asserts at the end of the tests hold: the first close succeeds and leaves one owner and
  -- no weak reference; the close of the second that is not forced returns the reset, makes no call and
  -- leaves its counts; the forced one succeeds. The request is freed, and each handle closed once.
  pub farewell_passes :
      (k fuel : ℕ)
      → (ucx.reply t (Call.ep_close_nb h CloseMode.flush)).pointer ≡ request
      → Settles ucx request asked k (Result.ok tt) settled
      → k < fuel
      → (ucx.reply (Call.request_free request ∷ t') (Call.ep_close_nb h' CloseMode.force)).pointer
        ≡ 0
      → let r =
          farewell ucx fuel
            (record { handle = h; inner = 0 })
            (record { handle = h'; inner = 1 })
            before_close in
        (r.0 ≡ ok tt)
        × (r.1.trace ≡ Call.ep_close_nb h' CloseMode.force ∷ Call.request_free request ∷ t')
  unfolding farewell expect_rc get_rc close is_closed EndpointInner.is_closed get_status
      EndpointInner.check from_status close_handle close_answered finish_close EndpointInner.closed
      EndpointInner.set_status EndpointInner.drop_weak running from_error
  farewell_passes k fuel asks s lt at_once =
      rw
        (
          asks,
          not_null request some_request,
          is_ptr_lem ucx request some_request,
          no_err,
          close_wait-Settles ucx request fuel s lt,
          at_once,
        )
        (refl, refl)
