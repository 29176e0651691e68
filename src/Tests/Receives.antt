-- ===== src/Tests/Receives.antt =====
-- Runs on receives and on connecting.
use async_ucx.Base.{List, some, ◌≡◌, refl, true, [], ◌∷◌, arith}
use async_ucx.Ucs.{Status, ucs_status_ptr, as_usize}
use async_ucx.Ucs.Codes.{ucs_ok, ucs_inprogress, ucs_err_timed_out}
use async_ucx.Error.{from_error, from_status}
use async_ucx.Ffi.{Ucx, Call, Payload, Room, World, ok, err, start, running}
use async_ucx.Request.{poll_tag, poll_stream}
use async_ucx.Request.Await.{Busy, freed}
use async_ucx.Request.Await.Busy.{first, second, neither}
use async_ucx.Endpoint.{create}
use async_ucx.Transfer.{stream_send, stream_recv, tag_recv_mask}
use async_ucx.Transfer.Sends.{after, stream_send-Ends}
use async_ucx.Transfer.Receives.{stream_recv_ignores_status, tag_recv_mask-Tested, received}
use async_ucx.Connect.{socket_params, connect_socket}
use async_ucx.Connect.Laws.{Gone, connect_socket_fails}
use async_ucx.Endpoint.Lifecycle.{create_made}
use async_ucx.EndpointInner.Invariant.{AllSound}
use async_ucx.EndpointInner.{new, downgrade, suspend, deliver}
use async_ucx.Endpoint.{created}
use async_ucx.Request.Finish.{failed}
use async_ucx.Tests.Setup.{ep, one_open, request_no_err, abi, answer_of}

-- A request that is over, with an error, by the third test.
abbrev failing_status : List Call → Status
failing_status (a ∷ b ∷ c ∷ d ∷ t) = ucs_err_timed_out
failing_status _ = ucs_inprogress

abbrev failing_late : Ucx
failing_late = record {
  abi = abi;
  checks = true;
  reply = λ t c. answer_of (failing_status t) 4096;
  events = λ t. [];
}

abbrev stream_state : World
stream_state = record one_open {
  trace =
      Call.yielded
      ∷ Call.stream_recv_request_test 4096
      ∷ Call.waker_register 4096
      ∷ Call.stream_recv_request_test 4096
      ∷ Call.stream_recv_nb 70 (Room.contig 8)
      ∷ [];
}

stream-Busy :
    Busy failing_late
      (Call.stream_recv_request_test 4096)
      4096
      (after one_open (Call.stream_recv_nb 70 (Room.contig 8)))
      1
      stream_state
unfolding suspend deliver running
stream-Busy = neither refl refl refl first

stream_recv_ignores_status_example : stream_recv failing_late 2 ep 8 one_open ≡ (
  ok 5,
  freed failing_late
      (poll_stream failing_late)
      4096
      (after stream_state (Call.stream_recv_request_test 4096)),
)
stream_recv_ignores_status_example =
    stream_recv_ignores_status failing_late 2 ep 8 one_open refl 1 5 ucs_err_timed_out stream_state
      (λ h. omega (arith, h)) request_no_err stream-Busy (omega arith) (λ h. cc) (λ h. cc) refl refl

timed_out_pointer : 0xffffffffffffffec ≡ ucs_status_ptr abi ucs_err_timed_out
unfolding ucs_status_ptr as_usize
timed_out_pointer = refl

-- The same for a tagged receive that succeeds by the second test.
abbrev second_status : List Call → Status
second_status (a ∷ b ∷ c ∷ t) = ucs_ok
second_status _ = ucs_inprogress

abbrev tag_seen : Ucx
tag_seen = record {
  abi = abi;
  checks = true;
  reply = λ t c. record (answer_of (second_status t) 4096) { tag = some 9; length = some 8 };
  events = λ t. [];
}

abbrev tag_looked : World
tag_looked = record one_open {
  trace =
      Call.waker_register 4096
      ∷ Call.tag_recv_request_test 4096
      ∷ Call.tag_recv_nb 3 (Room.contig 8) 9 15
      ∷ [];
}

tag_recv_mask-Tested_example : tag_recv_mask tag_seen 2 3 9 15 8 one_open ≡ (
  ok (9, 8),
  freed tag_seen (poll_tag tag_seen) 4096 (after tag_looked (Call.tag_recv_request_test 4096)),
)
tag_recv_mask-Tested_example =
    tag_recv_mask-Tested tag_seen 2 3 9 15 8 one_open 0 (ok (9, 8)) tag_looked request_no_err
      (second refl) (omega arith) (received 9 8 refl refl refl)

start_sound : AllSound start
start_sound p = ground arith

-- A UCX that makes endpoints on which every transfer fails.
abbrev half : Ucx
half = record {
  abi = abi;
  checks = true;
  reply = λ t c. answer_of ucs_ok 0xffffffffffffffec;
  events = λ t. [];
}

abbrev socket_made : World
socket_made = (create half 3 (socket_params 5) start).1

socket_ok : create half 3 (socket_params 5) start ≡ (ok ep, socket_made)
unfolding create created downgrade new from_status running
socket_ok = refl

socket_healthy : (socket_made.inners 0).status ≡ ucs_ok
socket_healthy = rw (create_made half 3 (socket_params 5) start 70 refl refl).2 refl

abbrev greeting : Call
greeting = Call.stream_send_nb 70 (Payload.contig (0 ∷ 1 ∷ 2 ∷ 3 ∷ []))

greeting_fails :
    stream_send half 2 ep (0 ∷ 1 ∷ 2 ∷ 3 ∷ []) socket_made
    ≡ (err (from_error ucs_err_timed_out), after socket_made greeting)
greeting_fails =
    stream_send-Ends half 2 ep socket_made socket_healthy (0 ∷ 1 ∷ 2 ∷ 3 ∷ [])
      (err (from_error ucs_err_timed_out)) (after socket_made greeting)
      (failed ucs_err_timed_out (λ h. cc) (λ h. cc) (λ h. cc) timed_out_pointer refl refl)

connect_socket_fails_example :
    Gone half ep (from_error ucs_err_timed_out) (connect_socket half 2 3 5 start)
connect_socket_fails_example =
    connect_socket_fails half 2 3 start socket_made (after socket_made greeting) ep
      (from_error ucs_err_timed_out) start_sound 5 socket_ok greeting_fails
