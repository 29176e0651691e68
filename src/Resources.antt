-- ===== src/Resources.antt =====
-- What UCX hands out and what is given back to it, read off the calls so far.
use async_ucx.Base.{ℕ, ◌+◌, Bool, false, ◌&&◌, none, some, List, [], ◌∷◌, ◌==◌, if◌then◌else◌}
use async_ucx.Ucs.{is_ok}
use async_ucx.Ffi.{Ucx, Call, Reply}

-- What a program must give back. An address is one of a worker, and a region one of a context.
pub data Resource : Type 0 where
  config context worker listener buffer key : ℕ → Resource
  address memory : ℕ → ℕ → Resource

abbrev pub same : Resource → Resource → Bool
same (memory c h) (memory d k) = (c == d) && (h == k)
same (address w a) (address v b) = (w == v) && (a == b)
same (config a) (config b) = a == b
same (context a) (context b) = a == b
same (worker a) (worker b) = a == b
same (listener a) (listener b) = a == b
same (buffer a) (buffer b) = a == b
same (key a) (key b) = a == b
same _ _ = false

abbrev pub weigh : Resource → Resource → ℕ
weigh r x = if same r x then 1 else 0

abbrev pub held : Resource → List Resource → ℕ
held r [] = 0
held r (x ∷ xs) = weigh r x + held r xs

-- What a successful call hands out, by its out-parameters.
abbrev pub handed : Resource → Call → Reply → ℕ
handed r (Call.mem_map c a n) reply = elim reply.handle [ none ↦ 0 | some h ↦ weigh r (memory c h) ]
handed r (Call.rkey_pack c m) reply = elim reply.handle [
  | none ↦ 0
  | some b ↦ elim reply.length [ none ↦ 0 | some n ↦ weigh r (buffer b) ]
]
handed r (Call.rkey_unpack e bytes) reply = elim reply.handle [
  | none ↦ 0
  | some k ↦ weigh r (key k)
]
handed r Call.config_read reply = elim reply.handle [ none ↦ 0 | some h ↦ weigh r (config h) ]
handed r (Call.init_version p c) reply = elim reply.handle [
  | none ↦ 0
  | some h ↦ weigh r (context h)
]
handed r (Call.worker_create c) reply = elim reply.handle [ none ↦ 0 | some h ↦ weigh r (worker h) ]
handed r (Call.worker_get_address w) reply = elim reply.handle [
  | none ↦ 0
  | some a ↦ elim reply.length [ none ↦ 0 | some n ↦ weigh r (address w a) ]
]
handed r (Call.listener_create w a s) reply = elim reply.handle [
  | none ↦ 0
  | some h ↦ weigh r (listener h)
]
handed r _ reply = 0

abbrev pub acquired : Ucx → Resource → List Call → ℕ
acquired ucx r [] = 0
acquired ucx r (c ∷ t) =
    (if is_ok (ucx.reply t c).status then handed r c (ucx.reply t c) else 0) + acquired ucx r t

abbrev pub given_back : Resource → Call → ℕ
given_back r (Call.mem_unmap c h) = weigh r (memory c h)
given_back r (Call.rkey_buffer_release b) = weigh r (buffer b)
given_back r (Call.rkey_destroy k) = weigh r (key k)
given_back r (Call.config_release h) = weigh r (config h)
given_back r (Call.cleanup h) = weigh r (context h)
given_back r (Call.worker_destroy h) = weigh r (worker h)
given_back r (Call.worker_release_address w a) = weigh r (address w a)
given_back r (Call.listener_destroy h) = weigh r (listener h)
given_back r _ = 0

abbrev pub released : Resource → List Call → ℕ
released r [] = 0
released r (c ∷ t) = given_back r c + released r t
