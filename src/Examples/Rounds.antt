-- ===== src/Examples/Rounds.antt =====
-- The client of examples/bench.rs where UCX completes each call at once.
use async_ucx.Base.{ℕ, zero, suc, ◌+◌, ◌≡◌, refl, Bool, false, List, [], ◌∷◌}
use async_ucx.Ucs.{Abi, ucs_ptr_is_err}
use async_ucx.Error.Laws.{from_ptr_request}
use async_ucx.Error.{from_status}
use async_ucx.Ffi.{Ucx, Inner, Call, Payload, Room, starved, ok, start, running}
use async_ucx.EndpointInner
use async_ucx.Endpoint
use async_ucx.Endpoint.{
  Endpoint, get_handle, is_closed, print_to_stderr, create, created, with_handler,
}
use async_ucx.Request.{finish_send, await, poll, poll_tag, second_poll, after_poll}
use async_ucx.Transfer.{u64_max, stream_send, tag_send, tag_recv, tag_recv_mask}
use async_ucx.Connect
use async_ucx.Connect.{socket_params, or_drop}
use async_ucx.Context
use async_ucx.Context.{params, default_config, new_with_config, drop_config}
use async_ucx.Worker.{create_worker, connect_socket}
use async_ucx.Worker
use async_ucx.Examples.{started, read_buffer}
use async_ucx.Endpoint.Lifecycle.{fresh}
use async_ucx.Examples.Bytes.{pattern_from}
use async_ucx.Examples.Bench
use async_ucx.Examples.Bench.{forever, exchange, tag_of}
use async_ucx.Examples.Prompt

-- The calls of some rounds on top of those before.
abbrev pub exchanged : (request : ℕ) → ℕ → (endpoint worker tag : ℕ) → List Call → List Call
exchanged request zero e w tag t = t
exchanged request (suc n) e w tag t = exchanged request n e w tag (
    Call.request_free request
    ∷ Call.tag_recv_request_test request
    ∷ Call.tag_recv_nb w (Room.contig 1) tag u64_max
    ∷ Call.tag_send_nb e (Payload.contig (pattern_from 0 47008)) tag
    ∷ t)

-- Only a tagged receive gets a request.
abbrev pointer_of : ℕ → Call → ℕ
pointer_of request (Call.tag_recv_nb worker room tag mask) = request
pointer_of request _ = 0

-- UCX completes sends at once, and a receive before its request is looked at first.
abbrev pub quick : Abi → Bool → (handle length : List Call → Call → ℕ) → ℕ → Ucx
quick abi checks handle length request =
    let ucx = Prompt.prompt abi checks handle length in
    record ucx { reply = λ t c. record (ucx.reply t c) { pointer = pointer_of request c } }

module _ (abi : Abi) (checks : Bool) (handle length : List Call → Call → ℕ) (request : ℕ)
    (am : Bool) (size fuel : ℕ) (no_err : ucs_ptr_is_err abi request ≡ false) where
  abbrev ucx : Ucx
  ucx = quick abi checks handle length request

  exchange_prompt :
      (e v tag : ℕ) (t : List Call) (inners : ℕ → Inner) (next : ℕ)
      → inners 0 ≡ fresh v
      → exchange ucx am size
          (suc fuel)
          (record { handle = e; inner = 0 })
          tag
          (record { trace = t; inners = inners; next = next })
        ≡ (ok tt, record { trace = exchanged request 1 e v tag t; inners = inners; next = next })
  unfolding exchange tag_send tag_recv tag_recv_mask get_handle EndpointInner.check finish_send
      Endpoint.worker await poll poll_tag second_poll after_poll from_status running
  exchange_prompt e v tag t inners next h = rw (h, from_ptr_request abi request no_err, h) refl

  forever_prompt :
      (n : ℕ) (e v tag : ℕ) (t : List Call) (inners : ℕ → Inner) (next : ℕ)
      → inners 0 ≡ fresh v
      → let r =
          forever n
            (exchange ucx am size (suc fuel) (record { handle = e; inner = 0 }) tag)
            (record { trace = t; inners = inners; next = next }) in
        (r.0 ≡ starved) × (r.1.trace ≡ exchanged request n e v tag t)
  unfolding forever running
  forever_prompt zero e v tag t inners next h = (refl, refl)
  forever_prompt (suc n) e v tag t inners next h =
      rw (exchange_prompt e v tag t inners next h)
        (forever_prompt n e v tag (exchanged request 1 e v tag t) inners next h)

  -- The handles that UCX gives to the client, each after the calls before.
  module _ (server_addr number : ℕ) where
    abbrev config : ℕ
    config = handle [] Call.config_read

    abbrev initialised : List Call
    initialised = Call.init_version (params am size) config ∷ Call.config_read ∷ []

    abbrev context : ℕ
    context = handle (Call.config_read ∷ []) (Call.init_version (params am size) config)

    abbrev made : List Call
    made = Call.worker_create context ∷ Call.config_release config ∷ initialised

    abbrev pub worker : ℕ
    worker = handle (Call.config_release config ∷ initialised) (Call.worker_create context)

    abbrev pub endpoint : ℕ
    endpoint = handle made (Call.ep_create worker (with_handler (socket_params server_addr) 0))

    abbrev pub numbered : List Call
    numbered =
        Call.request_free request
        ∷ Call.tag_recv_request_test request
        ∷ Call.tag_recv_nb worker (Room.contig 1) 100 u64_max
        ∷ Call.ep_print_info endpoint
        ∷ Call.stream_send_nb endpoint (Payload.contig (0 ∷ 1 ∷ 2 ∷ 3 ∷ []))
        ∷ Call.ep_create worker (with_handler (socket_params server_addr) 0)
        ∷ made

    -- Where UCX completes sends at once and receives when they are looked at, the client of
    -- examples/bench.rs connects, receives its number with the tag 100, and goes on for ever: in any number
    -- of rounds it sends its message with its number and 200 as the tag, waits for an answer with the
    -- same tag, and frees its request; it neither panics nor returns.
    pub client_goes_on :
        (rounds : ℕ)
        → let r =
            Bench.client ucx am size (suc fuel) (λ t room. number ∷ []) rounds server_addr start in
          (r.0 ≡ starved)
          × (r.1.trace ≡ exchanged request rounds endpoint worker (number + 200) numbered)
    unfolding Bench.client started Context.new default_config new_with_config drop_config
        create_worker Worker.new from_status connect_socket Connect.connect_socket or_drop create
        created EndpointInner.new EndpointInner.downgrade get_handle EndpointInner.check stream_send
        tag_recv tag_recv_mask await poll poll_tag second_poll after_poll finish_send
        print_to_stderr is_closed EndpointInner.is_closed read_buffer Endpoint.worker tag_of running
    client_goes_on rounds =
        rw (from_ptr_request abi request no_err)
          (forever_prompt rounds endpoint worker (number + 200) numbered _ 1 refl)
