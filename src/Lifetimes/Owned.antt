-- ===== src/Lifetimes/Owned.antt =====
-- What the values of a program own, and how that changes as one comes or goes.
use async_ucx.Base.{
  ℕ, ◌+◌, ◌≤◌, ◌≡◌, refl, ap, ◌∙◌, suc, Bool, true, false, ◌||◌, Option, none, List, [], ◌∷◌, ◌++◌,
  if◌then◌else◌, arith,
}
use async_ucx.Ucs.{is_ok}
use async_ucx.Ffi.{Reply}
use async_ucx.Resources.{
  Resource, config, context, worker, listener, buffer, key, address, memory, weigh,
}
use async_ucx.Lifetimes.{
  Value, arc, rc, region, Thing, thing, settings, listening, packed, unpacked, addressed,
  points_context, any,
}

-- What a thing is to UCX.
abbrev pub resource_of : Thing → Resource
resource_of (settings h) = config h
resource_of (listening h) = listener h
resource_of (packed h) = buffer h
resource_of (unpacked h) = key h
resource_of (addressed w h) = address w h

-- What a value owns by itself.
abbrev pub worth : Resource → Value → ℕ
worth r (thing x) = weigh r (resource_of x)
worth r (region c m) = weigh r (memory c m)
worth r (arc c) = 0
worth r (rc w c n) = weigh r (worker w)

abbrev pub direct : Resource → List Value → ℕ
direct r [] = 0
direct r (x ∷ xs) = worth r x + direct r xs

-- How much of a resource the program has: a context once, as long as a value points to it.
abbrev pub owned : Resource → List Value → ℕ
owned (context h) own = if any (points_context h) own then 1 else 0
owned (worker h) own = direct (worker h) own
owned (config h) own = direct (config h) own
owned (listener h) own = direct (listener h) own
owned (buffer h) own = direct (buffer h) own
owned (key h) own = direct (key h) own
owned (address w a) own = direct (address w a) own
owned (memory c m) own = direct (memory c m) own

-- What an answer hands out.
abbrev pub given : Reply → Option ℕ
given r = if is_ok r.status then r.handle else none

or_swap : (a b c : Bool) → a || (b || c) ≡ b || (a || c)
or_swap true true c = refl
or_swap true false c = refl
or_swap false b c = refl

any_out :
    (f : Value → Bool) (x : Value) (xs ys : List Value)
    → any f (xs ++ (x ∷ ys)) ≡ f x || any f (xs ++ ys)
any_out f x [] ys = refl
any_out f x (y ∷ xs) ys =
    ap (λ b. f y || b) (any_out f x xs ys) ∙ or_swap (f y) (f x) (any f (xs ++ ys))

direct_out :
    (r : Resource) (x : Value) (xs ys : List Value)
    → direct r (xs ++ (x ∷ ys)) ≡ worth r x + direct r (xs ++ ys)
direct_out r x [] ys = refl
direct_out r x (y ∷ xs) ys = omega (arith, direct_out r x xs ys)

-- A context that was not pointed to gets a pointer, and so do one that was, by a worker or a region.
pub grown_context :
    (r : Resource) (h : ℕ) (own : List Value) (a b : ℕ)
    → any (points_context h) own ≡ false
    → a ≡ b + owned r own
    → weigh r (context h) + a ≡ b + owned r (arc h ∷ own)
grown_context (context k) h own a b new e = ground arith
grown_context _ h own a b new e = omega (arith, e)

pub grown_worker :
    (r : Resource) (h c : ℕ) (own : List Value) (a b : ℕ)
    → any (points_context c) own ≡ true
    → a ≡ b + owned r own
    → weigh r (worker h) + a ≡ b + owned r (rc h c 0 ∷ own)
grown_worker (context k) h c own a b up e = ground arith
grown_worker _ h c own a b up e = omega (arith, e)

pub grown_region :
    (r : Resource) (c m : ℕ) (own : List Value) (a b : ℕ)
    → any (points_context c) own ≡ true
    → a ≡ b + owned r own
    → weigh r (memory c m) + a ≡ b + owned r (region c m ∷ own)
grown_region (context k) c m own a b up e = ground arith
grown_region _ c m own a b up e = omega (arith, e)

no_context : (k : ℕ) (x : Thing) → weigh (context k) (resource_of x) ≡ 0
no_context k (settings h) = refl
no_context k (listening h) = refl
no_context k (packed h) = refl
no_context k (unpacked h) = refl
no_context k (addressed w h) = refl

pub split_thing :
    (r : Resource) (x : Thing) (rest : List Value)
    → owned r (thing x ∷ rest) ≡ weigh r (resource_of x) + owned r rest
split_thing (context k) x rest = omega (arith, no_context k x)
split_thing _ x rest = refl

-- Where a value stands makes no difference.
pub owned_out :
    (r : Resource) (x : Value) (xs ys : List Value)
    → owned r (xs ++ (x ∷ ys)) ≡ owned r (x ∷ (xs ++ ys))
owned_out (context h) x xs ys = ap (λ b. if b then 1 else 0) (any_out (points_context h) x xs ys)
owned_out (config h) x xs ys = direct_out (config h) x xs ys
owned_out (worker h) x xs ys = direct_out (worker h) x xs ys
owned_out (listener h) x xs ys = direct_out (listener h) x xs ys
owned_out (buffer h) x xs ys = direct_out (buffer h) x xs ys
owned_out (key h) x xs ys = direct_out (key h) x xs ys
owned_out (address w a) x xs ys = direct_out (address w a) x xs ys
owned_out (memory c m) x xs ys = direct_out (memory c m) x xs ys

-- The drop of a pointer, where another one is left, and where it was the last.
pub shrunk :
    (r : Resource) (c : ℕ) (rest : List Value)
    → any (points_context c) rest ≡ true
    → owned r (arc c ∷ rest) ≡ owned r rest
shrunk (context k) c rest left = ground arith
shrunk _ c rest left = omega arith

pub gone :
    (r : Resource) (c : ℕ) (rest : List Value)
    → any (points_context c) rest ≡ false
    → owned r (arc c ∷ rest) ≡ weigh r (context c) + owned r rest
gone (context k) c rest left = ground arith
gone _ c rest left = omega arith

-- A worker or a region is a resource and a pointer to its context.
pub split_worker :
    (r : Resource) (w c n : ℕ) (rest : List Value)
    → owned r (rc w c n ∷ rest) ≡ weigh r (worker w) + owned r (arc c ∷ rest)
split_worker (context k) w c n rest = omega arith
split_worker _ w c n rest = omega arith

pub split_region :
    (r : Resource) (c m : ℕ) (rest : List Value)
    → owned r (region c m ∷ rest) ≡ weigh r (memory c m) + owned r (arc c ∷ rest)
split_region (context k) c m rest = omega arith
split_region _ c m rest = omega arith

pub fewer :
    (r : Resource) (w c n : ℕ) (rest : List Value)
    → owned r (rc w c (suc n) ∷ rest) ≡ owned r (rc w c n ∷ rest)
fewer (context k) w c n rest = refl
fewer _ w c n rest = refl

pub not_pointed :
    (x : ℕ) (own : List Value) (a b : ℕ)
    → a ≤ b
    → a ≡ b + owned (context x) own
    → any (points_context x) own ≡ false
not_pointed x own a b h e = ground arith
