-- ===== src/Examples/Prompt.antt =====
-- The programs of examples/rma.rs where UCX completes each call at once.
use async_ucx.Base.{
  update, ℕ, ◌^◌, ◌<◌, ◌≡◌, refl, Bool, true, some, List, [], ◌∷◌, ◌==◌, leb, take, length, arith,
  if◌then◌else◌,
}
use async_ucx.Ucs.{Abi}
use async_ucx.Ucs.Codes.{ucs_ok}
use async_ucx.Error.{from_status}
use async_ucx.Ffi.{Inner, Ucx, Call, CloseMode, Payload, Room, ok, start, running}
use async_ucx.EndpointInner
use async_ucx.Endpoint.{get_handle, is_closed, print_to_stderr, create, created, with_handler, drop}
use async_ucx.Request.{finish_send, finish_request}
use async_ucx.Transfer.{stream_send, stream_recv, get}
use async_ucx.Connect
use async_ucx.Connect.{socket_params, or_drop}
use async_ucx.Context
use async_ucx.Context.{params, default_config, new_with_config, drop_config, drop_context}
use async_ucx.Worker.{create_worker, connect_socket, drop_worker}
use async_ucx.Worker
use async_ucx.Rma.{register, pack, unpack, drop_buffer, drop_key, drop_memory}
use async_ucx.Lifetimes.{drop_arc, drop_rc, drop_region, drop_thing}
use async_ucx.Examples.{started, end_endpoint, ended, sliced, read_buffer}
use async_ucx.Endpoint.Lifecycle.{fresh}
use async_ucx.Examples.Bytes.{to_ne_bytes, from-to_ne_bytes, same_bytes, pattern_from}
use async_ucx.Examples.Rma

-- UCX answers every call with a success and no request, and writes what `handle` and `length` say.
abbrev pub prompt : Abi → Bool → (handle length : List Call → Call → ℕ) → Ucx
prompt abi checks handle length = record {
  abi = abi;
  checks = checks;
  reply = λ t c. record {
    status = ucs_ok;
    pointer = 0;
    handle = some (handle t c);
    length = some (length t c);
    tag = some 0;
    count = 0;
  };
  events = λ t. [];
}

self : (n : ℕ) → (n == n) ≡ true
self n = ground arith

module _ (abi : Abi) (checks : Bool) (handle length : List Call → Call → ℕ) where
  abbrev ucx : Ucx
  ucx = prompt abi checks handle length

  -- The handles that UCX gives to a client, each after the calls before.
  module _ (am : Bool) (size : ℕ) (server_addr : ℕ) where
    abbrev config : ℕ
    config = handle [] Call.config_read

    abbrev initialised : List Call
    initialised = Call.init_version (params am size) config ∷ Call.config_read ∷ []

    abbrev context : ℕ
    context = handle (Call.config_read ∷ []) (Call.init_version (params am size) config)

    abbrev worker : ℕ
    worker = handle (Call.config_release config ∷ initialised) (Call.worker_create context)

    abbrev made : List Call
    made = Call.worker_create context ∷ Call.config_release config ∷ initialised

    abbrev endpoint : ℕ
    endpoint = handle made (Call.ep_create worker (with_handler (socket_params server_addr) 0))

    abbrev connected : List Call
    connected =
        Call.ep_print_info endpoint
        ∷ Call.stream_send_nb endpoint (Payload.contig (0 ∷ 1 ∷ 2 ∷ 3 ∷ []))
        ∷ Call.ep_create worker (with_handler (socket_params server_addr) 0)
        ∷ made

    module _ (big : Bool) (address : ℕ) (key_bytes : ℕ → ℕ → List ℕ) where
      abbrev region : ℕ
      region = handle connected (Call.mem_map context address 0x1000)

      abbrev pub announced : List Call
      announced =
          Call.stream_send_nb endpoint (Payload.contig (to_ne_bytes big address))
          ∷ Call.mem_map context address 0x1000
          ∷ connected

      abbrev key : ℕ
      key = handle announced (Call.rkey_pack context region)

      abbrev key_length : ℕ
      key_length = length announced (Call.rkey_pack context region)

      -- Where UCX completes each call at once, the client of examples/rma.rs returns. After the handshake it
      -- has opened its region, sent its address and then its key, and waited for one byte; and it has
      -- given everything back: the key once it was sent, and at the end the region, the endpoint, the worker
      -- and the context, in this order.
      pub client_returns :
          (fuel : ℕ)
          → let r = Rma.client ucx am size fuel big address key_bytes server_addr start in
            (r.0 ≡ ok tt)
            × (r.1.trace
                ≡ Call.cleanup context
                  ∷ Call.worker_destroy worker
                  ∷ Call.ep_close_nb endpoint CloseMode.force
                  ∷ Call.mem_unmap context region
                  ∷ Call.stream_recv_nb endpoint (Room.contig 1)
                  ∷ Call.rkey_buffer_release key
                  ∷ Call.stream_send_nb endpoint (Payload.contig (key_bytes key key_length))
                  ∷ Call.rkey_pack context region
                  ∷ announced)
      unfolding Rma.client started Context.new default_config new_with_config drop_config
          create_worker Worker.new from_status connect_socket Connect.connect_socket or_drop create
          created EndpointInner.new EndpointInner.downgrade get_handle EndpointInner.check
          stream_send stream_recv finish_send print_to_stderr is_closed EndpointInner.is_closed
          register pack drop_thing drop_buffer drop_region drop_memory end_endpoint drop
          EndpointInner.closed EndpointInner.drop_weak EndpointInner.drop_strong
          EndpointInner.set_status drop_rc drop_worker drop_arc ended drop_context running
      client_returns fuel = rw (self context) (refl, refl)

  -- The server, from the first receive on: `bytes` is what it then receives as the key, `region` what it
  -- reads.
  module _ (am : Bool) (size fuel : ℕ) (big : Bool) (address : ℕ) (bytes region : List ℕ) where
    abbrev pub received : List Call → ℕ → List ℕ
    received t room =
        if room == 8 then to_ne_bytes big address else if room == 100 then bytes else region

    module _ (v : Worker.Worker) (listener e next : ℕ) (f : ℕ → Inner) (before : List Call) where
      abbrev key_asked : List Call
      key_asked = Call.stream_recv_nb e (Room.contig 100) ∷ before

      abbrev key_sent : List ℕ
      key_sent = take (length before (Call.stream_recv_nb e (Room.contig 100))) bytes

      abbrev rkey : ℕ
      rkey = handle key_asked (Call.rkey_unpack e key_sent)

      -- The server from its first receive on, where that has left eight bytes of an address below 2 ^ 64 in its
      -- buffer, at most 100 bytes of the key come, and the memory that is read holds the client's pattern.
      pub server_reads :
          address < 2 ^ 64
          → leb (length before (Call.stream_recv_nb e (Room.contig 100))) 100 ≡ true
          → same_bytes region (pattern_from 0 0x1000) ≡ true
          → let r =
              Rma.served ucx am size fuel big received v.context v listener
                (record { handle = e; inner = 0 })
                8
                (record { trace = before; inners = update f 0 (fresh v.handle); next = next }) in
            (r.0 ≡ ok tt)
            × (r.1.trace
                ≡ Call.cleanup v.context.handle
                  ∷ Call.worker_destroy v.handle
                  ∷ Call.listener_destroy listener
                  ∷ Call.ep_close_nb e CloseMode.force
                  ∷ Call.rkey_destroy rkey
                  ∷ Call.stream_send_nb e (Payload.contig (0 ∷ []))
                  ∷ Call.get_nb e 0x1000 address rkey
                  ∷ Call.rkey_unpack e key_sent
                  ∷ key_asked)
      unfolding Rma.served sliced read_buffer get_handle EndpointInner.check from_status stream_send
          stream_recv get finish_send finish_request unpack drop_thing drop_key end_endpoint drop
          is_closed EndpointInner.is_closed EndpointInner.closed EndpointInner.drop_weak
          EndpointInner.drop_strong EndpointInner.set_status drop_rc drop_worker drop_arc ended
          drop_context running
      server_reads small fits same =
          rw fits
            (rw same (rw (from-to_ne_bytes big address small, self v.context.handle) (refl, refl)))
