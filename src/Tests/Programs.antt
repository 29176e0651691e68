-- ===== src/Tests/Programs.antt =====
-- Runs of the programs of examples/, with a UCX that completes each call at once.
use async_ucx.Base.{
  if◌then◌else◌, ◌==◌, ℕ, ◌+◌, ◌-◌, ◌/◌, ◌%◌, ◌≡◌, refl, true, some, false, List, [], ◌∷◌, length,
  update, arith,
}
use async_ucx.Ffi.{Call, CloseMode, Payload, Room, ok, starved, start}
use async_ucx.Resources.{context, acquired, released}
use async_ucx.Examples.Bytes.{pattern_from, same_bytes_self}
use async_ucx.Examples.Rma
use async_ucx.Examples.Bench
use async_ucx.Examples.Rounds.{quick, exchanged, numbered, client_goes_on}
use async_ucx.Examples.Threads.{accept_on, hand_over}
use async_ucx.Examples.Shares.{shares, given, Reach, begins, hands, takes, panics, shared_out}
use async_ucx.Examples.Prompt.{prompt, announced, client_returns}
use async_ucx.Examples.Served.{received, key_asked, server_returns}
use async_ucx.Examples.Settled.{Program, run, run_settled}
use async_ucx.Tests.Parts.{channel}
use async_ucx.Tests.Setup.{abi, request_no_err}
use async_ucx.Tests.Lives.{counting, counting-Fresh}

-- A client with the pattern at 4096, and the packed key is three bytes.
abbrev key_bytes : ℕ → ℕ → List ℕ
key_bytes key length = key ∷ length ∷ 0 ∷ []

client_returns_example :
    let r = Rma.client counting false 4 9 false 0x1000 key_bytes 7 start in
    (r.0 ≡ ok tt)
    × (r.1.trace
        ≡ Call.cleanup 1
          ∷ Call.worker_destroy 3
          ∷ Call.ep_close_nb 4 CloseMode.force
          ∷ Call.mem_unmap 1 7
          ∷ Call.stream_recv_nb 4 (Room.contig 1)
          ∷ Call.rkey_buffer_release 9
          ∷ Call.stream_send_nb 4 (Payload.contig (9 ∷ 5 ∷ 0 ∷ []))
          ∷ Call.rkey_pack 1 7
          ∷ announced abi true (λ t c. length t) (λ t c. 5) false 4 7 false 0x1000 key_bytes)
client_returns_example =
    client_returns abi true (λ t c. length t) (λ t c. 5) false 4 7 false 0x1000 key_bytes 9

run_settled_example :
    let w =
      (run counting channel
        (λ a. some a)
        (λ t n. [])
        (λ t. 0)
        false
        4
        9
        (Program.rma_client false 0x1000 key_bytes 7)
        start).1 in
    acquired counting (context 1) w.trace ≡ released (context 1) w.trace
run_settled_example =
    run_settled counting channel (λ a. some a) (λ t n. []) (λ t. 0) false 4 9 counting-Fresh
      (Program.rma_client false 0x1000 key_bytes 7) (context 1)
      (client_returns abi true (λ t c. length t) (λ t c. 5) false 4 7 false 0x1000 key_bytes 9).0

-- Eight bytes come with the first receive of the server, and five with any other.
abbrev arriving : List Call → Call → ℕ
arriving t (Call.stream_recv_nb e (Room.contig n)) = if n == 8 then 8 else 5
arriving t _ = 5

server_returns_example :
    let r =
      Rma.server
        (prompt abi true (λ t c. length t) arriving)
        false
        4
        9
        false
        (received abi true
          (λ t c. length t)
          arriving
          channel
          (λ n. some n)
          (λ t. 6)
          false
          4
          9
          false
          0x1000
          (1 ∷ 2 ∷ 3 ∷ 4 ∷ 5 ∷ 6 ∷ [])
          (pattern_from 0 0x1000)
          7
          2)
        channel
        (λ n. some n)
        (λ t. 6)
        7
        2
        start in
    (r.0 ≡ ok tt)
    × (r.1.trace
        ≡ Call.cleanup 1
          ∷ Call.worker_destroy 3
          ∷ Call.listener_destroy 4
          ∷ Call.ep_close_nb 7 CloseMode.force
          ∷ Call.rkey_destroy 12
          ∷ Call.stream_send_nb 7 (Payload.contig (0 ∷ []))
          ∷ Call.get_nb 7 0x1000 0x1000 12
          ∷ Call.rkey_unpack 7 (1 ∷ 2 ∷ 3 ∷ 4 ∷ 5 ∷ [])
          ∷ key_asked abi true
              (λ t c. length t)
              arriving
              channel
              (λ n. some n)
              (λ t. 6)
              false
              4
              9
              false
              0x1000
              (1 ∷ 2 ∷ 3 ∷ 4 ∷ 5 ∷ 6 ∷ [])
              (pattern_from 0 0x1000)
              7
              2)
server_returns_example =
    server_returns abi true (λ t c. length t) arriving channel (λ n. some n) (λ t. 6) false 4 9
      false 0x1000 (1 ∷ 2 ∷ 3 ∷ 4 ∷ 5 ∷ 6 ∷ []) (pattern_from 0 0x1000) 7 2 0 refl (omega arith)
      refl refl (same_bytes_self (pattern_from 0 0x1000))

-- Three rounds of a client with the number 17.
client_goes_on_example :
    let r =
      Bench.client
        (quick abi true (λ t c. length t) (λ t c. 1) 4096)
        false
        4
        2
        (λ t room. 17 ∷ [])
        3
        7
        start in
    (r.0 ≡ starved)
    × (r.1.trace
        ≡ exchanged 4096 3 4 3 217
            (numbered abi true (λ t c. length t) (λ t c. 1) 4096 false 4 1 request_no_err 7 17))
client_goes_on_example =
    client_goes_on abi true (λ t c. length t) (λ t c. 1) 4096 false 4 1 request_no_err 7 17 3

-- Two connections for the threads 0 and 1; the first thread receives its own, and the other one panics.
abbrev two_sent : ℕ → channel.State
two_sent = (hand_over channel 1 11 (hand_over channel 0 10 (λ j. channel.unbounded)).1).1

abbrev one_received : ℕ → channel.State
one_received = update two_sent 0 (channel.poll_next (two_sent 0)).1

abbrev one_panicked : ℕ → channel.State
one_panicked = update one_received 1 (record channel.unbounded { receiver = false })

abbrev taken : ℕ → List ℕ
taken = update (λ _. []) 0 (10 ∷ [])

ran : Reach channel (10 ∷ 11 ∷ []) one_panicked taken
unfolding hand_over accept_on
ran =
    panics 1 (record channel.unbounded { receiver = false }) refl
      (takes 0 (hands 11 refl (hands 10 refl begins)))

shared_out_example :
    (given channel one_panicked taken 0 ≡ shares 0 0 (10 ∷ 11 ∷ []))
    × (length (given channel one_panicked taken 0) ≡ (2 + 3 - 0) / 4)
    × ((conn : ℕ)
        → (hand_over channel 2 conn one_panicked).0 ≡ channel.receiver (one_panicked (2 % 4)))
unfolding hand_over accept_on
shared_out_example = shared_out channel 0 ran (omega arith) refl
