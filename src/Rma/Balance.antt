-- ===== src/Rma/Balance.antt =====
-- The memory of rma.rs in balance: what UCX handed out is what was given back and what the program's
-- values own.
use async_ucx.Base.{ℕ, ◌+◌, ◌≡◌, refl, List, [], ◌∷◌, ◌++◌, arith}
use async_ucx.Ffi.{Ucx, World, Outcome, ok, start, running}
use async_ucx.Endpoint.{Endpoint}
use async_ucx.Resources.{Resource, memory, buffer, key, weigh, held, acquired, released}
use async_ucx.Rma.{
  MemoryHandle, RKeyBuffer, RKey, drop_memory, drop_buffer, drop_key, register, pack, unpack,
}

-- The values that a call returned.
abbrev pub memory_of : Outcome MemoryHandle → List Resource
memory_of (ok m) = memory m.context m.handle ∷ []
memory_of _ = []

abbrev pub buffer_of : Outcome RKeyBuffer → List Resource
buffer_of (ok b) = buffer b.buf ∷ []
buffer_of _ = []

abbrev pub key_of : Outcome RKey → List Resource
key_of (ok k) = key k.handle ∷ []
key_of _ = []

module _ (ucx : Ucx) where
  -- One call, and what the values of the program own before and after it. A drop takes its value.
  pub data Step (w : World) : List Resource → World → List Resource → Type 0 where
    registers :
        {own : List Resource} (context address n : ℕ)
        → Step w own
            (register ucx context address n w).1
            (memory_of (register ucx context address n w).0 ++ own)
    packs :
        {own : List Resource} (m : MemoryHandle)
        → Step w own (pack ucx m w).1 (buffer_of (pack ucx m w).0 ++ own)
    unpacks :
        {own : List Resource} (e : Endpoint) (bytes : List ℕ)
        → Step w own (unpack ucx e bytes w).1 (key_of (unpack ucx e bytes w).0 ++ own)
    drops_memory :
        (before after : List Resource) (m : MemoryHandle)
        → Step w (before ++ memory m.context m.handle ∷ after) (drop_memory m w).1 (before ++ after)
    drops_buffer :
        (before after : List Resource) (b : RKeyBuffer)
        → Step w (before ++ buffer b.buf ∷ after) (drop_buffer b w).1 (before ++ after)
    drops_key :
        (before after : List Resource) (k : RKey)
        → Step w (before ++ key k.handle ∷ after) (drop_key k w).1 (before ++ after)

  pub data Reach : World → List Resource → Type 0 where
    begin : Reach start []
    next : {w v : World} {own own' : List Resource} → Reach w own → Step w own v own' → Reach v own'

  abbrev pub InBalance : Resource → World → List Resource → Type 0
  InBalance r w own = acquired ucx r w.trace ≡ released r w.trace + held r own

  held_out :
      (r x : Resource) (xs ys : List Resource)
      → held r (xs ++ x ∷ ys) ≡ weigh r x + held r (xs ++ ys)
  held_out r x [] ys = refl
  held_out r x (y ∷ xs) ys = omega (arith, held_out r x xs ys)

  module _ (r : Resource) (w : World) (own : List Resource) (h : InBalance r w own) where
    register-InBalance :
        (context address n : ℕ)
        → let x = register ucx context address n w in InBalance r x.1 (memory_of x.0 ++ own)
    unfolding register running
    register-InBalance context address n = ground arith

    pack-InBalance :
        (m : MemoryHandle) → InBalance r (pack ucx m w).1 (buffer_of (pack ucx m w).0 ++ own)
    unfolding pack running
    pack-InBalance m = ground arith

    unpack-InBalance :
        (e : Endpoint) (bytes : List ℕ)
        → InBalance r (unpack ucx e bytes w).1 (key_of (unpack ucx e bytes w).0 ++ own)
    unfolding unpack running
    unpack-InBalance e bytes = ground arith

  Step-InBalance :
      (r : Resource) {w v : World} {own own' : List Resource}
      → InBalance r w own
      → Step w own v own'
      → InBalance r v own'
  unfolding drop_memory drop_buffer drop_key running
  Step-InBalance r {w} {own = own} h (registers context address n) =
      register-InBalance r w own h context address n
  Step-InBalance r {w} {own = own} h (packs m) = pack-InBalance r w own h m
  Step-InBalance r {w} {own = own} h (unpacks e bytes) = unpack-InBalance r w own h e bytes
  Step-InBalance r h (drops_memory before after m) =
      ground (arith, h, held_out r (memory m.context m.handle) before after)
  Step-InBalance r h (drops_buffer before after b) =
      ground (arith, h, held_out r (buffer b.buf) before after)
  Step-InBalance r h (drops_key before after k) =
      ground (arith, h, held_out r (key k.handle) before after)

  -- After any registrations, packs, unpacks and drops, and for each region, packed key and key: the
  -- number of times that UCX has handed it out, through a call that succeeded, is the number of times
  -- that it was given back and the number of values that own it. So nothing is given back that a value
  -- still owns, and nothing is kept that none owns.
  pub Reach-InBalance :
      (r : Resource) {w : World} {own : List Resource}
      → Reach w own
      → acquired ucx r w.trace ≡ released r w.trace + held r own
  Reach-InBalance r begin = refl
  Reach-InBalance r (next before step) = Step-InBalance r (Reach-InBalance r before) step
