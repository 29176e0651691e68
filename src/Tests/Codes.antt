-- ===== src/Tests/Codes.antt =====
-- Runs on status codes and status pointers.
use async_ucx.Base.{◌≡◌, true, not, some, arith}
use async_ucx.Ucs.{ucs_ptr_is_err, ucs_ptr_is_ptr, ucs_status_ptr}
use async_ucx.Ucs.Codes.{ucs_err_timed_out}
use async_ucx.Ucs.Laws.{is_ptr-not_err}
use async_ucx.Error.{from_error, err, from_ptr}
use async_ucx.Error.Laws.{from_ptr-encoded}
use async_ucx.Tests.Setup.{abi}

is_ptr-not_err_example : ucs_ptr_is_ptr true abi 4096 ≡ some (not (ucs_ptr_is_err abi 4096))
is_ptr-not_err_example = is_ptr-not_err abi true 4096 (λ h. omega arith)

from_ptr-encoded_example :
    from_ptr abi (ucs_status_ptr abi ucs_err_timed_out) ≡ err (from_error ucs_err_timed_out)
from_ptr-encoded_example = from_ptr-encoded abi ucs_err_timed_out (λ h. cc) (λ h. cc) (λ h. cc)
