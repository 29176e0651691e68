-- ===== src/Tests/Lives.antt =====
-- A run on a context, a worker and a region, with a UCX that gives each context a new handle.
use async_ucx.Base.{ℕ, ◌+◌, ◌≤◌, ◌<◌, ◌≡◌, refl, true, List, [], ◌∷◌, length, arith}
use async_ucx.Error.{from_status}
use async_ucx.Ffi.{Ucx, Call, World, start, running}
use async_ucx.Resources.{context, acquired, released, handed, weigh}
use async_ucx.Context.{new_with_config}
use async_ucx.Worker
use async_ucx.Worker.{drop_worker}
use async_ucx.Lifetimes.{rc, drop_arc, drop_rc}
use async_ucx.Lifetimes.Owned.{owned}
use async_ucx.Lifetimes.Counted.{Fresh}
use async_ucx.Lifetimes.Live.{AllLive}
use async_ucx.Lifetimes.History.{
  Reach, begin, next, creates_context, creates_worker, drops_context, drops_worker, Reach_counted,
  Reach-AllLive,
}
use async_ucx.Tests.Parts.{channel}
use async_ucx.Tests.Setup.{abi}
use async_ucx.Examples.Prompt.{prompt}

abbrev pub counting : Ucx
counting = prompt abi true (λ t c. length t) (λ t c. 5)

other_handle : (n m : ℕ) → m < n → weigh (context n) (context m) ≡ 0
other_handle n m h = ground arith

hands_nothing :
    (n : ℕ) (t : List Call) (c : Call)
    → length t < n
    → handed (context n) c (counting.reply t c) ≡ 0
hands_nothing n t (Call.init_version p c) h = other_handle n (length t) h
hands_nothing n t _ h = refl

none_handed : (n : ℕ) (t : List Call) → length t ≤ n → acquired counting (context n) t ≡ 0
none_handed n [] h = refl
none_handed n (c ∷ t) h =
    omega (arith, hands_nothing n t c (omega (arith, h)), none_handed n t (omega (arith, h)))

pub counting-Fresh : Fresh counting
counting-Fresh t p c h e = ground (arith, none_handed h t)

-- A context and a worker are made; the context's pointer goes first, and then the worker.
abbrev with_context : World
with_context = (new_with_config counting true 8 (record { handle = 9 }) start).1

abbrev with_worker : World
with_worker = (Worker.new counting (record { handle = 0 }) with_context).1

abbrev without_pointer : World
without_pointer = (drop_arc 0 (rc 1 0 0 ∷ []) with_worker).1

abbrev all_gone : World
all_gone = (drop_rc 1 0 0 [] without_pointer).1

reached : Reach counting channel all_gone []
unfolding new_with_config Worker.new from_status running
reached =
    next
      (next
        (next (next begin (creates_context true 8 (record { handle = 9 }))) (creates_worker 0 refl))
        (drops_context (rc 1 0 0 ∷ []) [] 0))
      (drops_worker [] [] 1 0 0)

Reach_counted_example :
    acquired counting (context 0) all_gone.trace
    ≡ released (context 0) all_gone.trace + owned (context 0) []
Reach_counted_example = Reach_counted counting channel counting-Fresh (context 0) reached

Reach-AllLive_example : AllLive counting all_gone.trace
Reach-AllLive_example = Reach-AllLive counting channel counting-Fresh reached
