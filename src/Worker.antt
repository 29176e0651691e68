-- ===== src/Worker.antt =====
-- src/ucp/worker.rs: `Worker` and `WorkerAddress`. Its table of streams is in `AmRegistry`; the count
-- of an `Rc<Worker>` is a function of what has happened so far.
pub mod Polling
pub mod Rounds
use async_ucx.Base.{
  ℕ, zero, suc, Bool, true, false, Option, none, some, List, ◌==◌, leb, if◌then◌else◌,
}
use async_ucx.Ucs.{Status, is_ok}
use async_ucx.Ucs.Codes.{ucs_ok, ucs_err_busy}
use async_ucx.Error.{Error, Result, ok, err, from_error, from_status}
use async_ucx.Ffi.{
  Ucx, Call, M, ◌>>=◌, ◌>>◌, pure, starve, lift, catch, unwrap, assert, assume_init, ffi, ffi_unit,
  coming,
}
use async_ucx.EndpointInner.{deliver, suspend}
use async_ucx.Endpoint.{Endpoint}
use async_ucx.Connect
use async_ucx.Context.{Context}
use async_ucx.Sync.{Channel}
use async_ucx.Listener

pub record Worker : Type 0 where
  pub handle : ℕ
  pub context : Context

pub record WorkerAddress : Type 0 where
  pub handle : ℕ
  pub length : ℕ
  pub worker : ℕ

-- `Drop::drop` of both.
unfoldable pub drop_worker : Worker → M (Unit {0})
drop_worker w = ffi_unit (Call.worker_destroy w.handle)

unfoldable pub drop_address : WorkerAddress → M (Unit {0})
drop_address a = ffi_unit (Call.worker_release_address a.worker a.handle)

unfoldable pub print_worker : Worker → M (Unit {0})
print_worker w = ffi_unit (Call.worker_print_info w.handle)

-- `arm` by the status: one may sleep, something has happened, or an error.
unfoldable pub armed : Status → Result Bool
armed ucs_ok = ok true
armed ucs_err_busy = ok false
armed s = err (from_error s)

module _ (ucx : Ucx) where
  unfoldable pub new : Context → M Worker
  new context = do
    r ← ffi ucx (Call.worker_create context.handle)
    lift (from_status r.status)
    handle ← assume_init r.handle
    pure (record { handle = handle; context = context })

  -- `Context::create_worker`
  unfoldable pub create_worker : Context → M Worker
  create_worker context = new context

  -- The thread mode, as the number that UCX has written.
  unfoldable pub thread_mode : Worker → M ℕ
  thread_mode w = do
    r ← ffi ucx (Call.worker_query w.handle)
    assert (is_ok r.status)
    assume_init r.handle

  unfoldable pub address : Worker → M WorkerAddress
  address w = do
    r ← ffi ucx (Call.worker_get_address w.handle)
    lift (from_status r.status)
    handle ← assume_init r.handle
    length ← assume_init r.length
    pure (record { handle = handle; length = length; worker = w.handle })

  unfoldable pub connect_addr : Worker → WorkerAddress → M Endpoint
  connect_addr w a = Connect.connect_addr ucx w.handle a.handle

  unfoldable pub connect_socket : ℕ → Worker → ℕ → M Endpoint
  connect_socket fuel w addr = Connect.connect_socket ucx fuel w.handle addr

  unfoldable pub accept : ℕ → Worker → ℕ → M Endpoint
  accept fuel w connection = Connect.accept ucx fuel w.handle connection

  -- With the address of the sender of the channel.
  unfoldable pub create_listener :
      (C : Channel ℕ) → Worker → (addr sender : ℕ) → M (Listener.Listener C)
  create_listener C w addr sender = Listener.new C ucx w.handle addr sender

  unfoldable pub wait : Worker → M (Unit {0})
  wait w = do r ← ffi ucx (Call.worker_wait w.handle); lift (from_status r.status)

  unfoldable pub arm : Worker → M Bool
  arm w = do r ← ffi ucx (Call.worker_arm w.handle); lift (armed r.status)

  unfoldable pub progress : Worker → M ℕ
  progress w = do r ← ffi ucx (Call.worker_progress w.handle); pure r.count

  unfoldable pub event_fd : Worker → M ℕ
  event_fd w = do
    r ← ffi ucx (Call.worker_get_efd w.handle)
    lift (from_status r.status)
    assume_init r.handle

  unfoldable pub as_raw_fd : Worker → M ℕ
  as_raw_fd w = do fd ← catch (event_fd w); unwrap fd

  unfoldable pub flush : Worker → M (Unit {0})
  flush w = do r ← ffi ucx (Call.worker_flush w.handle); assert (is_ok r.status)

  -- `while self.progress() != 0 {}`
  unfoldable pub after_progress : M (Unit {0}) → ℕ → M (Unit {0})
  after_progress again zero = pure tt
  after_progress again (suc n) = again

  unfoldable pub progress_all : Worker → ℕ → M (Unit {0})
  unfolding after_progress
  progress_all w zero = starve
  progress_all w (suc fuel) = progress w >>= after_progress (progress_all w fuel)

  -- `owners` is `Rc::strong_count`, and `fuel` bounds both loops.
  module _ (owners : List Call → ℕ) (w : Worker) where
    unfoldable pub strong_count : M ℕ
    strong_count s = (async_ucx.Ffi.Outcome.ok (owners s.trace), s)

    unfoldable pub round_of_polling : ℕ → M (Unit {0}) → ℕ → M (Unit {0})
    round_of_polling fuel again n =
        if leb n 1 then pure tt else (do progress_all w fuel; suspend ucx; again)

    unfoldable pub polling : ℕ → ℕ → M (Unit {0})
    unfolding round_of_polling
    polling inner zero = starve
    polling inner (suc fuel) = strong_count >>= round_of_polling inner (polling inner fuel)

    -- `wait_fd.readable().await.unwrap()`: the task waits, and others run.
    unfoldable pub sleep : ℕ → M (Unit {0})
    sleep fd = do
      es ← coming ucx
      r ← ffi ucx (Call.readable fd)
      deliver ucx es
      unwrap (from_status r.status)

    unfoldable pub sleep_if : ℕ → Bool → M (Unit {0})
    unfolding sleep
    sleep_if fd false = pure tt
    sleep_if fd true = sleep fd

    unfoldable pub round_of_events : ℕ → ℕ → M (Unit {0}) → ℕ → M (Unit {0})
    unfolding sleep_if
    round_of_events fd fuel again n = if leb n 1 then pure tt else (do
      progress_all w fuel
      result ← catch (arm w)
      may_sleep ← unwrap result
      sleep_if fd may_sleep
      again)

    unfoldable pub event_loop : ℕ → ℕ → ℕ → M (Unit {0})
    unfolding round_of_events
    event_loop fd inner zero = starve
    event_loop fd inner (suc fuel) =
        strong_count >>= round_of_events fd inner (event_loop fd inner fuel)

    -- What `AsyncFd::new` and `readable` answer is a status here too.
    unfoldable pub event_poll : ℕ → ℕ → M (Unit {0})
    event_poll inner fuel = do
      fd ← event_fd w
      r ← ffi ucx (Call.async_fd fd)
      unwrap (from_status r.status)
      event_loop fd inner fuel
