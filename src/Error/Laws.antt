-- ===== src/Error/Laws.antt =====
-- What the conversions of src/lib.rs keep of a status, and of a status that UCX puts in a pointer.
use async_ucx.Base.{ℕ, ◌≡◌, ◌≢◌, refl, ap, ◌∙◌, sym, arith, false}
use async_ucx.Ucs.{Abi, Status, ucs_ptr_is_err, ucs_status_ptr}
use async_ucx.Ucs.Codes.{
  ucs_ok, ucs_inprogress, ucs_err_last, unnamed, ucs_err_no_message, ucs_err_no_resource,
  ucs_err_io_error, ucs_err_no_memory, ucs_err_invalid_param, ucs_err_unreachable,
  ucs_err_invalid_addr, ucs_err_not_implemented, ucs_err_message_truncated, ucs_err_no_progress,
  ucs_err_buffer_too_small, ucs_err_no_elem, ucs_err_some_connects_failed, ucs_err_no_device,
  ucs_err_busy, ucs_err_canceled, ucs_err_shmem_segment, ucs_err_already_exists,
  ucs_err_out_of_range, ucs_err_timed_out, ucs_err_exceeds_limit, ucs_err_unsupported,
  ucs_err_rejected, ucs_err_not_connected, ucs_err_connection_reset, ucs_err_first_link_failure,
  ucs_err_last_link_failure, ucs_err_first_endpoint_failure, ucs_err_endpoint_timeout,
  ucs_err_last_endpoint_failure,
}
use async_ucx.Ucs.Laws.{encoded_is_err, raw_status-encoded}
use async_ucx.Error.{
  Error, inprogress, unknown, ok, err, from_error, from_status, from_ptr, no_message, no_reource,
  io_error, no_memory, invalid_param, unreachable, invalid_addr, not_implemented, message_truncated,
  no_progress, buffer_too_small, no_elem, some_connects_failed, no_device, busy, canceled,
  shmem_segment, already_exists, out_of_range, timeout, exceeds_limit, unsupported, rejected,
  not_connected, connection_reset, first_link_failure, last_link_failure, first_endpoint_failure,
  endpoint_timeout, last_endpoint_failure,
}

-- The status that an error other than `unknown` was made of.
status_of : Error → Status
status_of inprogress = ucs_inprogress
status_of no_message = ucs_err_no_message
status_of no_reource = ucs_err_no_resource
status_of io_error = ucs_err_io_error
status_of no_memory = ucs_err_no_memory
status_of invalid_param = ucs_err_invalid_param
status_of unreachable = ucs_err_unreachable
status_of invalid_addr = ucs_err_invalid_addr
status_of not_implemented = ucs_err_not_implemented
status_of message_truncated = ucs_err_message_truncated
status_of no_progress = ucs_err_no_progress
status_of buffer_too_small = ucs_err_buffer_too_small
status_of no_elem = ucs_err_no_elem
status_of some_connects_failed = ucs_err_some_connects_failed
status_of no_device = ucs_err_no_device
status_of busy = ucs_err_busy
status_of canceled = ucs_err_canceled
status_of shmem_segment = ucs_err_shmem_segment
status_of already_exists = ucs_err_already_exists
status_of out_of_range = ucs_err_out_of_range
status_of timeout = ucs_err_timed_out
status_of exceeds_limit = ucs_err_exceeds_limit
status_of unsupported = ucs_err_unsupported
status_of rejected = ucs_err_rejected
status_of not_connected = ucs_err_not_connected
status_of connection_reset = ucs_err_connection_reset
status_of first_link_failure = ucs_err_first_link_failure
status_of last_link_failure = ucs_err_last_link_failure
status_of first_endpoint_failure = ucs_err_first_endpoint_failure
status_of endpoint_timeout = ucs_err_endpoint_timeout
status_of last_endpoint_failure = ucs_err_last_endpoint_failure
status_of unknown = unnamed

status_of-from_error : (s : Status) → from_error s ≢ unknown → status_of (from_error s) ≡ s
unfolding from_error status_of
status_of-from_error ucs_ok h = absurd (h refl)
status_of-from_error ucs_err_last h = absurd (h refl)
status_of-from_error unnamed h = absurd (h refl)
status_of-from_error _ h = refl

-- Two statuses that become the same error other than `unknown` are the same status.
pub from_error_injective :
    (s t : Status) → from_error s ≢ unknown → from_error s ≡ from_error t → s ≡ t
from_error_injective s t h e =
    sym (status_of-from_error s h) ∙ ap status_of e ∙ status_of-from_error t (λ u. h (e ∙ u))

-- Every status that the conversion names has an error of its own.
pub from_error_named :
    (s : Status) → s ≢ ucs_ok → s ≢ ucs_err_last → s ≢ unnamed → from_error s ≢ unknown
unfolding from_error
from_error_named ucs_ok a b c = absurd (a refl)
from_error_named ucs_err_last a b c = absurd (b refl)
from_error_named unnamed a b c = absurd (c refl)
from_error_named _ a b c = λ e. cc

-- `from_status` is an error exactly when the status is not UCS_OK.
pub from_status_error : (s : Status) → s ≢ ucs_ok → from_status s ≡ err (from_error s)
unfolding from_status
from_status_error ucs_ok h = absurd (h refl)
from_status_error _ h = refl

-- An error status that UCX encodes in a pointer comes out of `from_ptr` as that status's error.
pub from_ptr-encoded :
    (abi : Abi) (s : Status)
    → s ≢ ucs_ok
    → s ≢ ucs_inprogress
    → s ≢ unnamed
    → from_ptr abi (ucs_status_ptr abi s) ≡ err (from_error s)
unfolding from_ptr
from_ptr-encoded abi s a b c =
    ground (arith, encoded_is_err abi s a b c, raw_status-encoded abi s c)

-- A pointer that is no error is no error for `from_ptr` either; null is one of these.
pub from_ptr_request : (abi : Abi) (p : ℕ) → ucs_ptr_is_err abi p ≡ false → from_ptr abi p ≡ ok tt
unfolding from_ptr
from_ptr_request abi p h = ground arith
