-- ===== src/Ucs/Codes.antt =====
-- The status codes of UCX, as src/lib.rs and ucx1-sys/src/lib.rs name them. The enumeration
-- `ucs_status_t` itself is generated by the build: these are the variants that the repository's code
-- names, and `unnamed` stands for any other.
use async_ucx.Base.{ℕ, Bool, true, false, ◌≡◌, ◌≢◌, ◌≤◌, ◌<◌}

pub data Status : Type 0 where
  ucs_ok ucs_inprogress : Status
  ucs_err_no_message ucs_err_no_resource ucs_err_io_error ucs_err_no_memory : Status
  ucs_err_invalid_param ucs_err_unreachable ucs_err_invalid_addr ucs_err_not_implemented : Status
  ucs_err_message_truncated ucs_err_no_progress ucs_err_buffer_too_small ucs_err_no_elem : Status
  ucs_err_some_connects_failed ucs_err_no_device ucs_err_busy ucs_err_canceled : Status
  ucs_err_shmem_segment ucs_err_already_exists ucs_err_out_of_range ucs_err_timed_out : Status
  ucs_err_exceeds_limit ucs_err_unsupported ucs_err_rejected ucs_err_not_connected : Status
  ucs_err_connection_reset ucs_err_first_link_failure ucs_err_last_link_failure
        ucs_err_first_endpoint_failure :
      Status
  ucs_err_endpoint_timeout ucs_err_last_endpoint_failure : Status
  ucs_err_last unnamed : Status

-- `status == ucs_status_t::UCS_OK`
abbrev pub is_ok : Status → Bool
is_ok ucs_ok = true
is_ok _ = false

-- `status == ucs_status_t::UCS_INPROGRESS`
abbrev pub is_inprogress : Status → Bool
is_inprogress ucs_inprogress = true
is_inprogress _ = false

-- What the generated enumeration gives: the byte that represents a variant (an `i8`, as its bit
-- pattern) and the reading of a byte as a variant. The laws are those of ucs/type/status.h: the
-- named codes are distinct, UCS_OK is 0, and the errors are negative and not below UCS_ERR_LAST.
pub record Abi : Type 0 where
  pub discriminant : Status → ℕ
  pub transmute : ℕ → Status
  pub transmute-discriminant : (s : Status) → s ≢ unnamed → transmute (discriminant s) ≡ s
  pub discriminant-lt : (s : Status) → discriminant s < 256
  pub ok_code : discriminant ucs_ok ≡ 0
  pub err_last_negative : 128 ≤ discriminant ucs_err_last
  pub err_range :
      (s : Status)
      → s ≢ ucs_ok
      → s ≢ ucs_inprogress
      → s ≢ unnamed
      → discriminant ucs_err_last ≤ discriminant s
