-- ===== src/Ucs/Laws.antt =====
-- The status pointers of ucx1-sys/src/lib.rs: three classes, and an encoded error is read back.
use async_ucx.Base.{
  ℕ, ◌+◌, ◌-◌, ◌%◌, ◌≤◌, ◌<◌, ◌≡◌, ◌≢◌, ap, ◌∙◌, Bool, true, false, some, none, arith, not, ◌*◌,
  ◌/◌, ◌^◌, shift-or, bit_or,
}
use native.Mathlib.Nat.{mod-eq_of_lt, mul-add-mod_self_right, mul-add-div_right, div-eq_of_lt}
use async_ucx.Ucs.Codes.{Status, Abi, ucs_ok, ucs_inprogress, ucs_err_last, unnamed}
use async_ucx.Ucs.{
  usize_mod, as_usize, sub_usize, ucs_ptr_is_err, ucs_ptr_is_ptr, ucs_ptr_raw_status,
  ucs_status_ptr, ucp_dt_make_contig,
}

as_usize-lt : (b : ℕ) → b < 256 → as_usize b < usize_mod
unfolding as_usize
as_usize-lt b h = ground arith

as_usize_negative : (b : ℕ) → 128 ≤ b → as_usize b ≡ b + (usize_mod - 256)
unfolding as_usize
as_usize_negative b h = ground arith

as_usize_byte : (b : ℕ) → b < 256 → as_usize b % 256 ≡ b
unfolding as_usize
as_usize_byte b h = ground arith

-- Where an element's size is not too large for the bits that are left beside the class, none of it is
-- lost: the identifier of the data type is below 2 ^ 64, its low bits are the class, and the bits above
-- them are the size.
pub make_contig-lt :
    (shift contig elem_size : ℕ)
    → contig < 2 ^ shift
    → elem_size * 2 ^ shift + contig < usize_mod
    → let dt = ucp_dt_make_contig shift contig elem_size in
      (dt < usize_mod) × (dt % 2 ^ shift ≡ contig) × (dt / 2 ^ shift ≡ elem_size)
unfolding ucp_dt_make_contig
make_contig-lt shift contig elem_size low fits =
    let e =
      ap (λ (n : ℕ). bit_or n contig)
        (mod-eq_of_lt {n = elem_size * 2 ^ shift} {m = usize_mod} (omega arith))
      ∙ shift-or shift elem_size contig low in
    rw e (
      fits,
      mul-add-mod_self_right elem_size (2 ^ shift) contig ∙ mod-eq_of_lt low,
      mul-add-div_right (omega arith) elem_size contig
          ∙ ap (λ (n : ℕ). elem_size + n) (div-eq_of_lt low)
          ∙ omega arith,
    )

module _ (abi : Abi) where
  -- UCS_ERR_LAST as an address.
  abbrev pub first_error : ℕ
  first_error = as_usize (abi.discriminant ucs_err_last)

  first_error_pos : 1 < first_error
  first_error_pos =
      omega (arith, as_usize_negative (abi.discriminant ucs_err_last) abi.err_last_negative)

  -- `UCS_PTR_IS_PTR` never overflows on a pointer that is not null, and then says that the pointer
  -- is no error.
  pub is_ptr-not_err :
      (checks : Bool) (p : ℕ)
      → p ≢ 0
      → ucs_ptr_is_ptr checks abi p ≡ some (not (ucs_ptr_is_err abi p))
  unfolding ucs_ptr_is_ptr ucs_ptr_is_err sub_usize
  is_ptr-not_err checks p h = ground (arith, first_error_pos)

  pub null_not_err : ucs_ptr_is_err abi 0 ≡ false
  unfolding ucs_ptr_is_err
  null_not_err = ground (arith, first_error_pos)

  -- `UCS_PTR_IS_PTR` of null: in a build with overflow checks it panics, in any other it says that null
  -- is no request.
  pub is_ptr_null :
      (checks : Bool)
      → ucs_ptr_is_ptr checks abi 0 ≡ elim checks [ true ↦ none | false ↦ some false ]
  unfolding ucs_ptr_is_ptr sub_usize
  is_ptr_null true = ground (arith, first_error_pos)
  is_ptr_null false = ground (
    arith,
    first_error_pos,
    as_usize-lt (abi.discriminant ucs_err_last) (abi.discriminant-lt ucs_err_last),
  )

  pub raw_status-encoded :
      (s : Status) → s ≢ unnamed → ucs_ptr_raw_status abi (ucs_status_ptr abi s) ≡ s
  unfolding ucs_ptr_raw_status ucs_status_ptr
  raw_status-encoded s h =
      ap abi.transmute (as_usize_byte (abi.discriminant s) (abi.discriminant-lt s))
      ∙ abi.transmute-discriminant s h

  pub encoded_is_err :
      (s : Status)
      → s ≢ ucs_ok
      → s ≢ ucs_inprogress
      → s ≢ unnamed
      → ucs_ptr_is_err abi (ucs_status_ptr abi s) ≡ true
  unfolding ucs_ptr_is_err ucs_status_ptr
  encoded_is_err s a b c = ground (
    arith,
    abi.err_range s a b c,
    abi.err_last_negative,
    as_usize_negative (abi.discriminant s),
    as_usize_negative (abi.discriminant ucs_err_last),
  )

  pub encoded_not_null :
      (s : Status) → s ≢ ucs_ok → s ≢ ucs_inprogress → s ≢ unnamed → ucs_status_ptr abi s ≢ 0
  unfolding ucs_ptr_is_err
  encoded_not_null s a b c z =
      ground (arith, encoded_is_err s a b c, first_error_pos, ap (ucs_ptr_is_err abi) z)
