-- ===== src/Tests/Setup.antt =====
-- A UCX to run the code against: the codes of its statuses, and its answers to the calls.
use async_ucx.Base.{
  ℕ, ◌≡◌, ◌≢◌, ◌<◌, ◌≤◌, refl, true, false, some, List, [], ◌∷◌, ◌==◌, ltb, arith, if◌then◌else◌,
}
use async_ucx.Ucs.{Status, Abi, ucs_ptr_is_err, as_usize}
use async_ucx.Ucs.Codes.{
  ucs_ok, ucs_inprogress, ucs_err_no_message, ucs_err_no_resource, ucs_err_io_error,
  ucs_err_no_memory, ucs_err_invalid_param, ucs_err_unreachable, ucs_err_invalid_addr,
  ucs_err_not_implemented, ucs_err_message_truncated, ucs_err_no_progress, ucs_err_buffer_too_small,
  ucs_err_no_elem, ucs_err_some_connects_failed, ucs_err_no_device, ucs_err_busy, ucs_err_canceled,
  ucs_err_shmem_segment, ucs_err_already_exists, ucs_err_out_of_range, ucs_err_timed_out,
  ucs_err_exceeds_limit, ucs_err_unsupported, ucs_err_rejected, ucs_err_not_connected,
  ucs_err_connection_reset, ucs_err_first_link_failure, ucs_err_last_link_failure,
  ucs_err_first_endpoint_failure, ucs_err_endpoint_timeout, ucs_err_last_endpoint_failure,
  ucs_err_last, unnamed,
}
use async_ucx.Ffi.{Ucx, Call, Reply, World, Inner}
use async_ucx.Endpoint.{Endpoint}
use async_ucx.Endpoint.Lifecycle.{fresh}
use async_ucx.EndpointInner.Invariant.{AllSound}

-- The codes of ucs/type/status.h, as bytes.
abbrev pub code : Status → ℕ
code ucs_ok = 0
code ucs_inprogress = 1
code ucs_err_no_message = 0xff
code ucs_err_no_resource = 0xfe
code ucs_err_io_error = 0xfd
code ucs_err_no_memory = 0xfc
code ucs_err_invalid_param = 0xfb
code ucs_err_unreachable = 0xfa
code ucs_err_invalid_addr = 0xf9
code ucs_err_not_implemented = 0xf8
code ucs_err_message_truncated = 0xf7
code ucs_err_no_progress = 0xf6
code ucs_err_buffer_too_small = 0xf5
code ucs_err_no_elem = 0xf4
code ucs_err_some_connects_failed = 0xf3
code ucs_err_no_device = 0xf2
code ucs_err_busy = 0xf1
code ucs_err_canceled = 0xf0
code ucs_err_shmem_segment = 0xef
code ucs_err_already_exists = 0xee
code ucs_err_out_of_range = 0xed
code ucs_err_timed_out = 0xec
code ucs_err_exceeds_limit = 0xeb
code ucs_err_unsupported = 0xea
code ucs_err_rejected = 0xe9
code ucs_err_not_connected = 0xe8
code ucs_err_connection_reset = 0xe7
code ucs_err_first_link_failure = 0xd8
code ucs_err_last_link_failure = 0xc5
code ucs_err_first_endpoint_failure = 0xc4
code ucs_err_endpoint_timeout = 0xb0
code ucs_err_last_endpoint_failure = 0xa7
code ucs_err_last = 0x9c
code unnamed = 0x9d

abbrev pub named : List Status
named =
    ucs_ok ∷ ucs_inprogress ∷ ucs_err_no_message ∷ ucs_err_no_resource ∷ ucs_err_io_error
    ∷ ucs_err_no_memory ∷ ucs_err_invalid_param ∷ ucs_err_unreachable ∷ ucs_err_invalid_addr
    ∷ ucs_err_not_implemented ∷ ucs_err_message_truncated ∷ ucs_err_no_progress
    ∷ ucs_err_buffer_too_small ∷ ucs_err_no_elem ∷ ucs_err_some_connects_failed ∷ ucs_err_no_device
    ∷ ucs_err_busy ∷ ucs_err_canceled ∷ ucs_err_shmem_segment ∷ ucs_err_already_exists
    ∷ ucs_err_out_of_range ∷ ucs_err_timed_out ∷ ucs_err_exceeds_limit ∷ ucs_err_unsupported
    ∷ ucs_err_rejected ∷ ucs_err_not_connected ∷ ucs_err_connection_reset
    ∷ ucs_err_first_link_failure ∷ ucs_err_last_link_failure ∷ ucs_err_first_endpoint_failure
    ∷ ucs_err_endpoint_timeout ∷ ucs_err_last_endpoint_failure ∷ ucs_err_last ∷ []

abbrev pub find : List Status → ℕ → Status
find [] b = unnamed
find (s ∷ ss) b = if code s == b then s else find ss b

pub find-code : (s : Status) → s ≢ unnamed → find named (code s) ≡ s
find-code unnamed h = absurd (h refl)
find-code _ h = refl

lt_of : (a b : ℕ) → ltb a b ≡ true → a < b
lt_of a b h = ground arith

below_256 : (s : Status) → ltb (code s) 256 ≡ true
below_256 ucs_ok = refl
below_256 _ = refl

pub code-lt : (s : Status) → code s < 256
code-lt s = lt_of (code s) 256 (below_256 s)

above_last :
    (s : Status) → s ≢ ucs_ok → s ≢ ucs_inprogress → s ≢ unnamed → ltb (code s) 0x9c ≡ false
above_last ucs_ok a b c = absurd (a refl)
above_last ucs_inprogress a b c = absurd (b refl)
above_last _ a b c = refl

pub code_range :
    (s : Status) → s ≢ ucs_ok → s ≢ ucs_inprogress → s ≢ unnamed → code ucs_err_last ≤ code s
code_range s a b c = ground (arith, above_last s a b c)

abbrev pub abi : Abi
abi = record {
  discriminant = code;
  transmute = find named;
  transmute-discriminant = find-code;
  discriminant-lt = code-lt;
  ok_code = refl;
  err_last_negative = omega arith;
  err_range = code_range;
}

-- An answer with this status and this pointer; its out-parameters hold a handle, a length and a tag.
abbrev pub answer_of : Status → ℕ → Reply
answer_of s p = record {
  status = s;
  pointer = p;
  handle = some 70;
  length = some 5;
  tag = some 9;
  count = 0;
}

-- Every call is over at once.
abbrev pub calm : Ucx
calm = record { abi = abi; checks = true; reply = λ t c. answer_of ucs_ok 0; events = λ t. [] }

-- Calls return a request at 4096. It is tested twice in each poll, and is over at the third test.
abbrev pub slow_status : List Call → Status
slow_status (a ∷ b ∷ c ∷ d ∷ t) = ucs_ok
slow_status _ = ucs_inprogress

abbrev pub slow : Ucx
slow = record {
  abi = abi;
  checks = true;
  reply = λ t c. answer_of (slow_status t) 4096;
  events = λ t. [];
}

-- A request that has failed by the time of the first test.
abbrev pub failing_later : Ucx
failing_later = record {
  abi = abi;
  checks = true;
  reply = λ t c. answer_of ucs_err_timed_out 4096;
  events = λ t. [];
}

-- An open endpoint with the handle 70, whose owner holds the one strong reference; and a closed one.
abbrev pub ep : Endpoint
ep = record { handle = 70; inner = 0 }

abbrev pub one_open : World
one_open = record { trace = []; inners = λ _. fresh 3; next = 1 }

abbrev pub closed_inner : Inner
closed_inner = record {
  closed = true;
  status = ucs_err_connection_reset;
  worker = 3;
  strong = 1;
  weak = 0;
}

abbrev pub one_closed : World
one_closed = record { trace = []; inners = λ _. closed_inner; next = 1 }

pub one_open_sound : AllSound one_open
one_open_sound p = ground arith

pub one_closed_sound : AllSound one_closed
one_closed_sound p = ground arith

-- A request is no error.
pub request_no_err : ucs_ptr_is_err abi 4096 ≡ false
unfolding ucs_ptr_is_err as_usize
request_no_err = refl
