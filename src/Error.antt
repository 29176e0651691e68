-- ===== src/Error.antt =====
-- src/lib.rs: the crate's error type and its conversions from UCX status codes and pointers.

pub mod Laws
use async_ucx.Base.{ℕ, if◌then◌else◌}
use async_ucx.Ucs.{Abi, Status, ucs_ptr_is_err, ucs_ptr_raw_status}
use async_ucx.Ucs.Codes.{
  ucs_ok, ucs_inprogress, ucs_err_no_message, ucs_err_no_resource, ucs_err_io_error,
  ucs_err_no_memory, ucs_err_invalid_param, ucs_err_unreachable, ucs_err_invalid_addr,
  ucs_err_not_implemented, ucs_err_message_truncated, ucs_err_no_progress, ucs_err_buffer_too_small,
  ucs_err_no_elem, ucs_err_some_connects_failed, ucs_err_no_device, ucs_err_busy, ucs_err_canceled,
  ucs_err_shmem_segment, ucs_err_already_exists, ucs_err_out_of_range, ucs_err_timed_out,
  ucs_err_exceeds_limit, ucs_err_unsupported, ucs_err_rejected, ucs_err_not_connected,
  ucs_err_connection_reset, ucs_err_first_link_failure, ucs_err_last_link_failure,
  ucs_err_first_endpoint_failure, ucs_err_endpoint_timeout, ucs_err_last_endpoint_failure,
}

pub data Error : Type 0 where
  inprogress : Error
  no_message no_reource io_error no_memory : Error
  invalid_param unreachable invalid_addr not_implemented : Error
  message_truncated no_progress buffer_too_small no_elem : Error
  some_connects_failed no_device busy canceled : Error
  shmem_segment already_exists out_of_range timeout : Error
  exceeds_limit unsupported rejected not_connected : Error
  connection_reset first_link_failure last_link_failure first_endpoint_failure : Error
  endpoint_timeout last_endpoint_failure : Error
  unknown : Error

pub data Result {ℓ} (A : Type ℓ) : Type ℓ where
  ok : A → Result A
  err : Error → Result A

-- The `match` of `from_error`. The `debug_assert_ne!` before it is no branch of the conversion.
unfoldable pub from_error : Status → Error
from_error ucs_inprogress = inprogress
from_error ucs_err_no_message = no_message
from_error ucs_err_no_resource = no_reource
from_error ucs_err_io_error = io_error
from_error ucs_err_no_memory = no_memory
from_error ucs_err_invalid_param = invalid_param
from_error ucs_err_unreachable = unreachable
from_error ucs_err_invalid_addr = invalid_addr
from_error ucs_err_not_implemented = not_implemented
from_error ucs_err_message_truncated = message_truncated
from_error ucs_err_no_progress = no_progress
from_error ucs_err_buffer_too_small = buffer_too_small
from_error ucs_err_no_elem = no_elem
from_error ucs_err_some_connects_failed = some_connects_failed
from_error ucs_err_no_device = no_device
from_error ucs_err_busy = busy
from_error ucs_err_canceled = canceled
from_error ucs_err_shmem_segment = shmem_segment
from_error ucs_err_already_exists = already_exists
from_error ucs_err_out_of_range = out_of_range
from_error ucs_err_timed_out = timeout
from_error ucs_err_exceeds_limit = exceeds_limit
from_error ucs_err_unsupported = unsupported
from_error ucs_err_rejected = rejected
from_error ucs_err_not_connected = not_connected
from_error ucs_err_connection_reset = connection_reset
from_error ucs_err_first_link_failure = first_link_failure
from_error ucs_err_last_link_failure = last_link_failure
from_error ucs_err_first_endpoint_failure = first_endpoint_failure
from_error ucs_err_endpoint_timeout = endpoint_timeout
from_error ucs_err_last_endpoint_failure = last_endpoint_failure
from_error _ = unknown

unfoldable pub from_status : Status → Result (Unit {0})
from_status ucs_ok = ok tt
from_status status = err (from_error status)

unfoldable pub from_ptr : Abi → ℕ → Result (Unit {0})
from_ptr abi ptr =
    if ucs_ptr_is_err abi ptr then err (from_error (ucs_ptr_raw_status abi ptr)) else ok tt
