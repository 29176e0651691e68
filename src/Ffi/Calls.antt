-- ===== src/Ffi/Calls.antt =====
-- What the code says to UCX: its calls of the C library with their arguments, and what comes back.
-- A bit mask of generated flags is the list of the flags that it joins.
use async_ucx.Base.{ℕ, Bool, Option, List}
use async_ucx.Ucs.{Status, Abi}

-- `ucp_ep_close_mode`
pub data CloseMode : Type 0 where
  force flush : CloseMode

-- The bits of `ucp_ep_params_field` that the code sets.
pub data EpField : Type 0 where
  flags sock_addr err_handling_mode remote_address conn_request user_data err_handler : EpField

-- The bits of `ucp_feature`.
pub data Feature : Type 0 where
  rma tag stream wakeup am : Feature

-- The bits of `ucp_params_field`.
pub data ParamField : Type 0 where
  features request_size request_init request_cleanup mt_workers_shared : ParamField

-- `ucp_params_t`, with the functions by their presence.
pub record Params : Type 0 where
  pub field_mask : List ParamField
  pub features : List Feature
  pub request_size : ℕ
  pub request_init : Bool
  pub request_cleanup : Bool
  pub mt_workers_shared : ℕ

-- `ucp_ep_params`: `none` and `false` are the zeroed fields.
pub record EpParams : Type 0 where
  pub field_mask : List EpField
  pub client_server : Bool
  pub sockaddr : Option ℕ
  pub address : Option ℕ
  pub conn_request : Option ℕ
  pub err_mode_peer : Bool
  pub user_data : Option ℕ
  pub err_handler : Bool

-- A buffer to send, and room to receive into: one contiguous buffer, or a vector of buffers.
pub data Payload : Type 0 where
  contig : List ℕ → Payload
  iov : List (List ℕ) → Payload

pub data Room : Type 0 where
  contig : ℕ → Room
  iov : List ℕ → Room

-- The flags of `ucp_send_am_flags`.
pub data AmFlag : Type 0 where
  eager rndv reply : AmFlag

-- A handler of active messages: the callback of `am_stream` on the address of an `AmStreamInner`, or
-- one that the user of the library registers, with its argument.
pub data AmHandler : Type 0 where
  stream foreign : ℕ → AmHandler

-- Handles, addresses and identifiers are numbers. `waker_register` is `AtomicWaker::register` on the
-- waker in the request, `async_fd` and
-- `readable` are `AsyncFd::new` and the wait for it, and `yielded` is no call: the task gives way to
-- others.
pub data Call : Type 0 where
  config_read : Call
  config_print config_release : ℕ → Call
  init_version : Params → ℕ → Call
  cleanup context_print_info context_query : ℕ → Call
  worker_create worker_destroy worker_print_info worker_query worker_get_address : ℕ → Call
  worker_wait worker_arm worker_progress worker_get_efd worker_flush : ℕ → Call
  worker_release_address : ℕ → ℕ → Call
  ep_create : ℕ → EpParams → Call
  ep_close_nb : ℕ → CloseMode → Call
  ep_flush_nb ep_print_info : ℕ → Call
  request_check_status request_free waker_register : ℕ → Call
  stream_send_nb : ℕ → Payload → Call
  stream_recv_nb : ℕ → Room → Call
  stream_recv_request_test tag_recv_request_test : ℕ → Call
  tag_send_nb : ℕ → Payload → ℕ → Call
  tag_recv_nb : ℕ → Room → ℕ → ℕ → Call
  put_nb : ℕ → List ℕ → ℕ → ℕ → Call
  get_nb : ℕ → ℕ → ℕ → ℕ → Call
  mem_map : ℕ → ℕ → ℕ → Call
  mem_unmap rkey_pack : ℕ → ℕ → Call
  rkey_buffer_release rkey_destroy : ℕ → Call
  rkey_unpack : ℕ → List ℕ → Call
  am_send_nbx : ℕ → ℕ → List ℕ → Payload → List AmFlag → Call
  am_recv_data_nbx : ℕ → ℕ → Room → Call
  am_data_release : ℕ → ℕ → Call
  set_am_recv_handler : (worker id : ℕ) → AmHandler → Call
  listener_create : ℕ → ℕ → ℕ → Call
  listener_query listener_destroy conn_request_query : ℕ → Call
  listener_reject : ℕ → ℕ → Call
  async_fd readable : ℕ → Call
  yielded : Call

-- The value that a call returns and what it writes through pointers; `none` is memory that it
-- leaves uninitialised. A caller looks at the fields that the C function has.
pub record Reply : Type 0 where
  pub status : Status
  pub pointer : ℕ
  pub handle : Option ℕ
  pub length : Option ℕ
  pub tag : Option ℕ
  pub count : ℕ

-- What reaches an endpoint while the task waits: the error handler is called on the user data
-- `arg`, or another task that owns a clone of the endpoint has finished closing it.
pub data Event : Type 0 where
  err_handler : (arg ep : ℕ) → Status → Event
  task_closes : (arg : ℕ) → Event

-- UCX and its surroundings: any function of what has been called so far, newest first. `checks`
-- says whether the build has overflow checks.
pub record Ucx : Type 0 where
  pub abi : Abi
  pub checks : Bool
  pub reply : List Call → Call → Reply
  pub events : List Call → List Event
