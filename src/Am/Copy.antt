-- ===== src/Am/Copy.antt =====
-- `copy_data_to_iov` of am.rs: what it writes, and where it stops early.
use async_ucx.Base.{
  ℕ, zero, suc, ◌+◌, ◌-◌, ◌<◌, ◌≤◌, ◌≡◌, refl, sym, ap, ◌∙◌, min, List, [], ◌∷◌, ◌++◌, append_assoc,
  ltb, length, take, drop, length-append, length-drop, take-append-drop, take_all, append-nil,
  arith, Bool-cases, leb, ◌⊎◌, inl, inr,
}
use async_ucx.Error.{ok, err, message_truncated}
use async_ucx.Transfer.{total_len}
use async_ucx.Am.{copy_from, copy_data_to_iov}

-- The bytes of a vector of buffers, in order.
abbrev pub joined : List (List ℕ) → List ℕ
joined [] = []
joined (b ∷ bs) = b ++ joined bs

abbrev pub NoneEmpty : List (List ℕ) → Type 0
NoneEmpty [] = Unit {0}
NoneEmpty (b ∷ bs) = (0 < length b) × NoneEmpty bs

drop_all : (n : ℕ) (xs : List ℕ) → length xs ≤ n → drop n xs ≡ []
drop_all zero [] h = refl
drop_all zero (x ∷ xs) h = absurd (omega arith)
drop_all (suc n) [] h = refl
drop_all (suc n) (x ∷ xs) h = drop_all n xs (omega arith)

drop_nil : (n : ℕ) → drop {A = ℕ} n [] ≡ []
drop_nil zero = refl
drop_nil (suc n) = refl

drop-drop : (m n : ℕ) (xs : List ℕ) → drop m (drop n xs) ≡ drop (n + m) xs
drop-drop m zero xs = let e : 0 + m ≡ m = omega arith in rw e
drop-drop m (suc n) [] = drop_nil m ∙ sym (drop_nil (suc n + m))
drop-drop m (suc n) (x ∷ xs) =
    let e : suc n + m ≡ suc (n + m) = omega arith in rw e (drop-drop m n xs)

drop-append : (n : ℕ) (xs ys : List ℕ) → drop n (xs ++ ys) ≡ drop n xs ++ drop (n - length xs) ys
drop-append zero xs ys = let e : 0 - length xs ≡ 0 = omega arith in rw e
drop-append (suc n) [] ys = let e : suc n - 0 ≡ suc n = omega arith in rw e
drop-append (suc n) (x ∷ xs) ys =
    let e : suc n - suc (length xs) ≡ n - length xs = omega arith in rw e (drop-append n xs ys)

joined_length : (bufs : List (List ℕ)) → length (joined bufs) ≡ total_len bufs
unfolding total_len
joined_length [] = refl
joined_length (b ∷ bs) = omega (arith, length-append b (joined bs), joined_length bs)

module _ (bytes : List ℕ) where
  -- One round of the loop on a buffer that takes bytes.
  copy_round :
      (copied : ℕ) (buf : List ℕ) (bufs : List (List ℕ))
      → copied < length bytes
      → 0 < length buf
      → let n = min (length bytes - copied) (length buf) in
        copy_from copied bytes (buf ∷ bufs) ≡ (
          (copy_from (copied + n) bytes bufs).0,
          (take n (drop copied bytes) ++ drop n buf) ∷ (copy_from (copied + n) bytes bufs).1,
        )
  unfolding copy_from
  copy_round copied buf bufs more room = ground arith

  -- At the end of the data the loop stops.
  copy_done :
      (copied : ℕ) (bufs : List (List ℕ))
      → length bytes ≤ copied
      → copy_from copied bytes bufs ≡ (copied, bufs)
  unfolding copy_from
  copy_done copied [] h = refl
  copy_done copied (buf ∷ bufs) h = ground arith

  -- What the loop owes from here on: all bytes left, in order, then what the buffers held beyond them.
  abbrev Copied : ℕ → List (List ℕ) → ℕ × List (List ℕ) → Type 0
  Copied copied bufs (n, out) =
      (n ≡ length bytes)
      × (joined out ≡ drop copied bytes ++ drop (length bytes - copied) (joined bufs))

  Copied-all :
      (copied : ℕ) (bufs : List (List ℕ))
      → copied ≡ length bytes
      → Copied copied bufs (copied, bufs)
  Copied-all copied bufs h =
      let none_left : length bytes - copied ≡ 0 = omega arith in
      (h, rw (none_left, drop_all copied bytes (omega arith)))

-- The bytes of one round and of the rest are the bytes left, where the data ends in this buffer or
-- where the buffer is filled.
ends_here :
    (n : ℕ) (left buf rest : List ℕ)
    → n ≡ length left
    → n ≤ length buf
    → (take n left ++ drop n buf) ++ rest ≡ left ++ drop n (buf ++ rest)
ends_here n left buf rest e fits =
    let none_left : n - length buf ≡ 0 = omega arith in
    rw (take_all n left (omega arith), drop-append n buf rest, none_left)
      (append_assoc left (drop n buf) rest)

fills :
    (n : ℕ) (left buf rest : List ℕ)
    → n ≡ length buf
    → n ≤ length left
    → (take n left ++ drop n buf) ++ (drop n left ++ drop (length left - n) rest)
      ≡ left ++ drop (length left) (buf ++ rest)
fills n left buf rest e fits =
    let shift : length left - length buf ≡ length left - n = omega arith in
    rw
      (
        drop_all n buf (omega arith),
        append-nil (take n left),
        drop-append (length left) buf rest,
        drop_all (length left) buf (omega arith),
        shift,
      )
      (sym (append_assoc (take n left) (drop n left) (drop (length left - n) rest))
        ∙ ap (λ xs. xs ++ drop (length left - n) rest) (take-append-drop n left))

min_cases : (m n : ℕ) → ((min m n ≡ m) × (m ≤ n)) ⊎ ((min m n ≡ n) × (n ≤ m))
min_cases m n = elim (Bool-cases (leb m n)) [
  | inl le ↦ inl (ground arith)
  | inr gt ↦ inr (ground arith)
]

module _ (bytes : List ℕ) where
  -- One round: the rest of the loop keeps what it owes, so the whole loop does.
  round_keeps :
      (copied n : ℕ) (buf : List ℕ) (bufs : List (List ℕ)) (out : List (List ℕ))
      → copied ≤ length bytes
      → n ≡ min (length bytes - copied) (length buf)
      → joined out ≡ drop (copied + n) bytes ++ drop (length bytes - (copied + n)) (joined bufs)
      → (take n (drop copied bytes) ++ drop n buf) ++ joined out
        ≡ drop copied bytes ++ drop (length bytes - copied) (buf ++ joined bufs)
  round_keeps copied n buf bufs out h e same =
      let len : length (drop copied bytes) ≡ length bytes - copied = length-drop copied bytes in
      let left : length bytes - (copied + n) ≡ length (drop copied bytes) - n =
        omega (arith, len) in
      elim (min_cases (length bytes - copied) (length buf)) [
        | inl (all, fits) ↦
            let none_left : length bytes - (copied + n) ≡ 0 = omega arith in
            rw (same, none_left, drop_all (copied + n) bytes (omega arith))
              (ends_here n (drop copied bytes) buf (joined bufs) (omega (arith, len)) (omega arith)
                ∙ ap (λ k. drop copied bytes ++ drop k (buf ++ joined bufs)) (e ∙ all))
        | inr (filled, fits) ↦
            rw (same, sym (drop-drop n copied bytes), left, sym len)
              (fills n (drop copied bytes) buf (joined bufs) (e ∙ filled) (omega (arith, len)))
      ]

  copies :
      (copied : ℕ) (bufs : List (List ℕ))
      → NoneEmpty bufs
      → copied ≤ length bytes
      → length bytes - copied ≤ total_len bufs
      → Copied bytes copied bufs (copy_from copied bytes bufs)
  unfolding total_len
  copies copied [] full h room =
      rw (copy_done bytes copied [] (omega (arith, room)))
        (Copied-all bytes copied [] (omega (arith, room)))
  copies copied (buf ∷ bufs) (fits, full) h room = elim (Bool-cases (ltb copied (length bytes))) [
    | inl more ↦
        let n : ℕ = min (length bytes - copied) (length buf) in
        let (count, same) = copies (copied + n) bufs full (ground arith) (ground arith) in
        rw (copy_round bytes copied buf bufs (ground arith) fits)
          (count, round_keeps copied n buf bufs (copy_from (copied + n) bytes bufs).1 h refl same)
    | inr all ↦
        rw (copy_done bytes copied (buf ∷ bufs) (ground arith))
          (Copied-all bytes copied (buf ∷ bufs) (ground arith))
  ]

-- A copy of data to buffers that have room for it, none of them empty, copies all its bytes, in order,
-- and leaves what the buffers held beyond them. Where the room is too small the copy is refused.
pub copy_data_to_iov_lem :
    (bytes : List ℕ) (iov : List (List ℕ))
    → NoneEmpty iov
    → ((total_len iov < length bytes) × (copy_data_to_iov bytes iov ≡ err message_truncated))
      ⊎ ((out : List (List ℕ)) × (copy_data_to_iov bytes iov ≡ ok (length bytes, out))
          × (joined out ≡ bytes ++ drop (length bytes) (joined iov)))
unfolding copy_data_to_iov
copy_data_to_iov_lem bytes iov full = elim (Bool-cases (ltb (total_len iov) (length bytes))) [
  | inl small ↦ inl (ground arith, rw small)
  | inr fits ↦
      let (count, same) = copies bytes 0 iov full (ground arith) (ground arith) in
      let whole : length bytes - 0 ≡ length bytes = omega arith in
      inr (
        (copy_from 0 bytes iov).1,
        rw fits (ap (λ n. ok (n, (copy_from 0 bytes iov).1)) count),
        same ∙ ap (λ k. bytes ++ drop k (joined iov)) whole,
      )
]

-- An empty buffer first: nothing is copied, and the result has no error, whatever room there is.
pub copy_stops_at_empty :
    (bytes : List ℕ) (iov : List (List ℕ))
    → length bytes ≤ total_len iov
    → copy_data_to_iov bytes ([] ∷ iov) ≡ ok (0, [] ∷ iov)
unfolding copy_data_to_iov copy_from total_len
copy_stops_at_empty bytes iov room = ground arith
