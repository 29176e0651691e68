-- ===== src/Tests/Endpoints.antt =====
-- Runs on the life of an endpoint.
use async_ucx.Base.{List, ℕ, update, ◌+◌, ◌≡◌, ◌≢◌, refl, true, false, [], ◌∷◌, arith, inl, inr}
use async_ucx.Ucs.{Status}
use async_ucx.Ucs.Codes.{ucs_ok, ucs_inprogress, ucs_err_connection_reset}
use async_ucx.Error.{from_error, from_status}
use async_ucx.Error
use async_ucx.Ffi.{Ucx, Event, CloseMode, Call, World, ok, err, start, running}
use async_ucx.EndpointInner.{suspend, deliver, handle, callback, set_status}
use async_ucx.EndpointInner.Invariant.{IsSound}
use async_ucx.Endpoint.{create, flush, close, drop, print_to_stderr}
use async_ucx.Endpoint.Lifecycle.{drop_lem}
use async_ucx.Endpoint.Close.{WellPointed, close_ok, closed_silent}
use async_ucx.Endpoint.Peers.{both, reset, farewell, farewell_passes}
use async_ucx.Endpoint.Lifecycle.{fresh}
use async_ucx.Endpoint.Waiting.{Settles, now, later, asked, freed, Finished, close_completes}
use async_ucx.Request.{poll_normal}
use async_ucx.Connect.{socket_params}
use async_ucx.History.{creates, Reach, begin, next, Reach-AllSound}
use async_ucx.Tests.Setup.{
  abi, answer_of, calm, slow, ep, one_open, one_closed, one_open_sound, one_closed_sound,
  request_no_err,
}

abbrev made : World
made = (create calm 3 (socket_params 5) start).1

made_reached : Reach calm 10 made
made_reached = next begin (creates 3 (socket_params 5))

Reach-AllSound_example : IsSound (made.inners 0)
Reach-AllSound_example = Reach-AllSound calm 10 made_reached 0

drop_lem_example :
    ((drop ep one_open).0 ≡ ok tt)
    × ((drop ep one_open).1.trace ≡ Call.ep_close_nb 70 CloseMode.force ∷ [])
    × (((drop ep one_open).1.inners 0).closed ≡ true)
    × (((drop ep one_open).1.inners 0).weak ≡ 0)
    × (((drop ep one_open).1.inners 0).strong + 1 ≡ 1)
drop_lem_example = drop_lem ep one_open one_open_sound (omega arith)

slow_pointed : WellPointed slow
slow_pointed t c h = cc request_no_err

-- Two looks find the request in progress, the third finds it over.
abbrev looked : World
looked = record one_open {
  trace =
      Call.request_check_status 4096
      ∷ Call.yielded
      ∷ Call.request_check_status 4096
      ∷ Call.yielded
      ∷ Call.request_check_status 4096
      ∷ Call.ep_close_nb 70 CloseMode.flush
      ∷ [];
}

slow-Settles : Settles slow 4096 (asked slow 5 ep one_open false) 2 (Error.Result.ok tt) looked
unfolding poll_normal suspend deliver from_status running
slow-Settles = later refl refl (later refl refl (now refl))

close_completes_example :
    Finished slow 5 ep one_open
      (Error.Result.ok tt)
      (freed slow 4096 looked)
      (close slow 5 ep false one_open)
close_completes_example =
    close_completes slow 5 ep one_open false 2 (Error.Result.ok tt) looked refl refl one_open_sound
      (omega arith) (λ h. omega arith) request_no_err slow-Settles (omega arith)

slow_closes : (close slow 5 ep false one_open).0 ≡ ok tt
slow_closes = elim close_completes_example [ inl (_, runs, _) ↦ runs | inr (x, failed, _, _) ↦ cc ]

close_ok_example :
    ((((close slow 5 ep false one_open).1.inners 0).closed ≡ true))
    × (((close slow 5 ep false one_open).1.inners 0).weak ≡ 0)
    × (((close slow 5 ep false one_open).1.inners 0).status ≢ ucs_ok)
    × (((close slow 5 ep false one_open).1.inners 0).strong ≡ 1)
close_ok_example = close_ok slow slow_pointed 5 ep false one_open one_open_sound slow_closes

closed_silent_example :
    (close calm 5 ep true one_closed ≡ (ok tt, one_closed))
    × (close calm 5 ep false one_closed ≡ (err (from_error ucs_err_connection_reset), one_closed))
    × (flush calm 5 ep one_closed ≡ (err (from_error ucs_err_connection_reset), one_closed))
    × (print_to_stderr ep one_closed ≡ (ok tt, one_closed))
    × ((drop ep one_closed).1.trace ≡ [])
closed_silent_example = closed_silent calm 5 ep one_closed one_closed_sound (omega arith) refl

-- A close that is not forced gets a request, which is over once the task has given way; by then the
-- error handler of the other endpoint, whose state is at 1, has been called.
abbrev pointer_of : Call → ℕ
pointer_of (Call.ep_close_nb h CloseMode.flush) = 4096
pointer_of _ = 0

abbrev status_after : List Call → Status
status_after (Call.yielded ∷ t) = ucs_ok
status_after _ = ucs_inprogress

abbrev parting : Ucx
parting = record {
  abi = abi;
  checks = true;
  reply = λ t c. answer_of (status_after t) (pointer_of c);
  events = λ t. Event.err_handler 1 71 ucs_err_connection_reset ∷ [];
}

abbrev first_closing : World
first_closing = record start {
  trace = Call.ep_close_nb 70 CloseMode.flush ∷ [];
  inners = both start.inners (fresh 3) (fresh 4);
}

abbrev first_closed : World
first_closed = record first_closing {
  trace =
      Call.request_check_status 4096
      ∷ Call.yielded
      ∷ Call.request_check_status 4096
      ∷ Call.ep_close_nb 70 CloseMode.flush
      ∷ [];
  inners = update first_closing.inners 1 (reset 4);
}

first-Settles : Settles parting 4096 first_closing 1 (Error.Result.ok tt) first_closed
unfolding poll_normal suspend deliver handle callback set_status from_status running
first-Settles = later refl refl (now refl)

farewell_passes_example :
    let r =
      farewell parting 2
        (record { handle = 70; inner = 0 })
        (record { handle = 71; inner = 1 })
        (record start { inners = both start.inners (fresh 3) (fresh 4) }) in
    (r.0 ≡ ok tt)
    × (r.1.trace
        ≡ Call.ep_close_nb 71 CloseMode.force ∷ Call.request_free 4096 ∷ first_closed.trace)
farewell_passes_example =
    farewell_passes parting 4096 request_no_err (λ z. omega (arith, z)) 70 71 3 4 start.next
      start.next [] first_closed.trace start.inners start.inners 1 2 refl first-Settles
      (omega arith) refl
