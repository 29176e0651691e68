-- ===== src/Ucs.antt =====
-- ucx1-sys/src/lib.rs: status pointers and data type identifiers. The rest of ucx1-sys is generated.
-- `usize` and `ucp_datatype_t` are 64 bits wide.
pub mod Codes
pub mod Laws
pub use Codes.{Status, Abi, is_ok, is_inprogress}
use Codes.{ucs_inprogress, ucs_err_last}
use async_ucx.Base.{
  ℕ, ◌+◌, ◌-◌, ◌*◌, ◌%◌, ◌^◌, Bool, true, false, Option, none, some, bit_or, ltb, leb,
  if◌then◌else◌,
}

abbrev pub usize_mod : ℕ
usize_mod = 2 ^ 64

-- `as usize` of an `i8`, which extends the sign.
unfoldable pub as_usize : ℕ → ℕ
as_usize b = if ltb b 128 then b else b + (usize_mod - 256)

-- `a - b` on `usize`. A build with overflow checks panics (`none`) where it would wrap.
unfoldable pub sub_usize : Bool → ℕ → ℕ → Option ℕ
sub_usize checks a b =
    if leb b a then some (a - b) else if checks then none else some (a + usize_mod - b)

abbrev pub less_than : Option ℕ → Option ℕ → Option Bool
less_than (some a) (some b) = some (ltb a b)
less_than _ _ = none

unfoldable pub ucs_ptr_is_err : Abi → ℕ → Bool
ucs_ptr_is_err abi ptr = leb (as_usize (abi.discriminant ucs_err_last)) ptr

-- The first argument says whether the build checks for overflow.
unfoldable pub ucs_ptr_is_ptr : Bool → Abi → ℕ → Option Bool
ucs_ptr_is_ptr checks abi ptr =
    less_than (sub_usize checks ptr 1)
      (sub_usize checks (as_usize (abi.discriminant ucs_err_last)) 1)

-- `transmute(ptr as i8)`
unfoldable pub ucs_ptr_raw_status : Abi → ℕ → Status
ucs_ptr_raw_status abi ptr = abi.transmute (ptr % 256)

unfoldable pub ucs_ptr_status : Bool → Abi → ℕ → Option Status
ucs_ptr_status checks abi ptr = elim (ucs_ptr_is_ptr checks abi ptr) [
  | none ↦ none
  | some is_ptr ↦ some (if is_ptr then ucs_inprogress else ucs_ptr_raw_status abi ptr)
]

-- `UCP_DATATYPE_SHIFT` and `UCP_DATATYPE_CONTIG` are generated. A shift drops the high bits.
unfoldable pub ucp_dt_make_contig : (shift contig : ℕ) → ℕ → ℕ
ucp_dt_make_contig shift contig elem_size = bit_or (elem_size * 2 ^ shift % usize_mod) contig

-- `UCS_STATUS_PTR`, the macro by which UCX encodes a status in a pointer.
unfoldable pub ucs_status_ptr : Abi → Status → ℕ
ucs_status_ptr abi s = as_usize (abi.discriminant s)
