-- ===== src/Listener.antt =====
-- src/ucp/listener.rs: `Listener`, and the connection requests that UCX hands it. A
-- `ConnectionRequest` is its handle. The channel is a parameter, and so is the part of socket2 that
-- reads an address.
pub mod Requests
use async_ucx.Base.{ℕ, Bool, true, false, Option, none, some, List, if◌then◌else◌}
use async_ucx.Error.{Result, from_status}
use async_ucx.Ffi.{Ucx, Call, M, ◌>>=◌, ◌>>◌, pure, lift, assume_init, or_panic, ffi, ffi_unit}
use async_ucx.Sync.{Channel, Next, item, pending, ended}

-- What the wait for the next request comes to: a request, or the task waits, or a panic.
pub data Turn : Type 0 where
  got : ℕ → Turn
  waits panics : Turn

-- `self.recver.next().await.unwrap()`, by what the poll says.
unfoldable pub unwrapped : Next ℕ → Turn
unwrapped (item connection) = got connection
unwrapped pending = waits
unwrapped ended = panics

module _ (C : Channel ℕ) where
  pub record Listener : Type 0 where
    pub handle : ℕ
    pub channel : C.State

  -- `connect_handler`, on the channel that its argument is the sender of; `false` is a panic.
  unfoldable pub connect_handler : ℕ → Listener → Bool × Listener
  connect_handler conn_request l =
      let (sent, s) = C.send conn_request l.channel in (sent, record l { channel = s })

  -- `next`, until it returns or waits.
  unfoldable pub next : Listener → Turn × Listener
  unfolding unwrapped
  next l = let (n, s) = C.poll_next l.channel in (unwrapped n, record l { channel = s })

  -- `Drop::drop`; the sender and the receiver are dropped after it.
  unfoldable pub drop_listener : Listener → M (Unit {0})
  drop_listener l = ffi_unit (Call.listener_destroy l.handle)

  module _ (ucx : Ucx) where
    -- `new`, with the address of the sender as the argument of the handler.
    unfoldable pub new : (worker addr sender : ℕ) → M Listener
    new worker addr sender = do
      r ← ffi ucx (Call.listener_create worker addr sender)
      lift (from_status r.status)
      handle ← assume_init r.handle
      pure (record { handle = handle; channel = C.unbounded })

    unfoldable pub reject : Listener → ℕ → M (Unit {0})
    reject l connection = do
      r ← ffi ucx (Call.listener_reject l.handle connection)
      lift (from_status r.status)

    -- `as_socket` is socket2's reading of the structure that UCX has filled; the code sets it to zero
    -- first, so that it is initialised.
    module _ (as_socket : ℕ → Option ℕ) where
      unfoldable pub socket_addr : Listener → M ℕ
      socket_addr l = do
        r ← ffi ucx (Call.listener_query l.handle)
        lift (from_status r.status)
        or_panic (as_socket r.count)

      -- `ConnectionRequest::remote_addr`
      unfoldable pub remote_addr : ℕ → M ℕ
      remote_addr connection = do
        r ← ffi ucx (Call.conn_request_query connection)
        lift (from_status r.status)
        or_panic (as_socket r.count)
