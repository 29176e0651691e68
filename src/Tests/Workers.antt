-- ===== src/Tests/Workers.antt =====
-- Runs on a worker and on the waker of a request.
use async_ucx.Base.{ℕ, ◌<◌, ◌≡◌, ◌%◌, ◌^◌, ◌/◌, refl, true, false, none, some, List, [], ◌∷◌, arith}
use async_ucx.Ffi.{Call, World, start, ok, running}
use async_ucx.EndpointInner.{suspend, deliver}
use async_ucx.Worker.{Worker, polling, event_poll}
use async_ucx.Worker.Polling.{Rests, event_poll-Rests}
use async_ucx.Worker.Rounds.{Rounds, turn, over, idle, polling-Rounds}
use async_ucx.Request.Wakers.{
  Polling, look, register, complete, Reach, begins, looks, registers, completes, looks_again,
  Reach_woken, first_look, registration, parked,
}
use async_ucx.Ucs.Laws.{make_contig-lt}
use async_ucx.Ucs.{ucp_dt_make_contig, usize_mod}
use async_ucx.Ffi.Traces.{After}
use async_ucx.Request.{poll_normal}
use async_ucx.Request.Await.{frees, poll_normal-FreesNothing}
use async_ucx.Request.Dropped.{polled, polled-frees_once}
use async_ucx.Tests.Setup.{calm, slow}
use async_ucx.Tests.Parts.{waker}

abbrev worker : Worker
worker = record { handle = 70; context = record { handle = 3 } }

-- The other owners of the worker are gone after the first call.
abbrev owners : List Call → ℕ
owners [] = 2
owners (_ ∷ _) = 1

event_poll-Rests_example : Rests calm worker (event_poll calm owners worker 1 2 start).1.trace
event_poll-Rests_example = event_poll-Rests calm worker owners 1 2 start tt

abbrev progressed : World
progressed = record start { trace = Call.worker_progress 70 ∷ [] }

abbrev resumed : World
resumed = record start { trace = Call.yielded ∷ Call.worker_progress 70 ∷ [] }

gives_way : suspend calm progressed ≡ (ok tt, resumed)
unfolding suspend deliver running
gives_way = refl

one_round : Rounds calm worker owners 1 start 1 resumed
one_round = turn (omega arith) (idle refl) (omega arith) gives_way (over (omega arith))

polling-Rounds_example : polling calm owners worker 1 2 start ≡ (ok tt, resumed)
polling-Rounds_example = polling-Rounds calm worker owners 1 2 one_round (omega arith)

-- A task looks, registers its waker, looks again and waits; then the request is completed.
abbrev fresh_request : Polling waker 4
fresh_request = record { at = first_look; over = false; waker = none; woken = false }

abbrev parked_request : Polling waker 4
parked_request = look waker 4 parked (register waker 4 (look waker 4 registration fresh_request))

abbrev completed : Polling waker 4
completed = complete waker 4 parked_request

completed_reached : Reach waker 4 completed
unfolding look register
completed_reached =
    completes
      (looks_again (registers (looks (begins (record { waker = none }) false) refl) refl) refl) refl

still_parked : completed.at ≡ parked
unfolding look register complete
still_parked = refl

Reach_woken_example :
    (completed.over ≡ false → waker.held completed.waker ≡ some 4)
    × (completed.over ≡ true → completed.woken ≡ true)
Reach_woken_example = Reach_woken waker 4 completed_reached still_parked

-- UCP_DATATYPE_CONTIG is 0, beside UCP_DATATYPE_SHIFT, which is 3.
make_contig-lt_example :
    (ucp_dt_make_contig 3 0 16 < usize_mod)
    × (ucp_dt_make_contig 3 0 16 % 2 ^ 3 ≡ 0)
    × (ucp_dt_make_contig 3 0 16 / 2 ^ 3 ≡ 16)
make_contig-lt_example = make_contig-lt 3 0 16 (omega arith) (omega arith)

polled-frees_once_example :
    After
      (λ _ t. (cs : List Call) × (t ≡ Call.request_free 4096 ∷ cs) × (frees cs ≡ 0))
      (λ t. frees t ≡ 0)
      (polled slow (poll_normal slow) 4096 1 start).0
      (polled slow (poll_normal slow) 4096 1 start).1.trace
polled-frees_once_example =
    polled-frees_once slow (poll_normal slow) 4096 (poll_normal-FreesNothing slow) 1 start
