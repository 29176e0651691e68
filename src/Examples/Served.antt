-- ===== src/Examples/Served.antt =====
-- The server of examples/rma.rs where UCX completes each call at once.
use async_ucx.Base.{
  Option, update, subst, sym, ap, ◌∙◌, ℕ, ◌^◌, ◌<◌, ◌≡◌, refl, Bool, true, some, List, [], ◌∷◌, leb,
  take,
}
use async_ucx.Ucs.{Abi}
use async_ucx.Error.{from_status}
use async_ucx.Ffi.{Outcome, World, Ucx, Call, CloseMode, Payload, Room, ok, start, running}
use async_ucx.EndpointInner
use async_ucx.Endpoint.{get_handle, is_closed, print_to_stderr, create, created, with_handler}
use async_ucx.Transfer.{stream_recv}
use async_ucx.Connect
use async_ucx.Connect.{socket_params, or_drop}
use async_ucx.Context
use async_ucx.Context.{params, default_config, new_with_config, drop_config, drop_context}
use async_ucx.Worker.{create_worker, connect_socket, drop_worker}
use async_ucx.Worker
use async_ucx.Lifetimes.{drop_thing}
use async_ucx.Examples.{started}
use async_ucx.Endpoint.Lifecycle.{fresh}
use async_ucx.Examples.Bytes.{same_bytes, pattern_from}
use async_ucx.Examples.Rma
use async_ucx.Sync.{Channel}
use async_ucx.Listener
use async_ucx.Connect.{accept_params}
use async_ucx.Worker.{accept, create_listener}
use async_ucx.EndpointInner.{suspend, deliver}
use async_ucx.Examples.{next_connection, listening_on, shown}
use async_ucx.Examples.Prompt
use async_ucx.Examples.Prompt.{prompt, server_reads}

module _ (abi : Abi) (checks : Bool) (handle length : List Call → Call → ℕ) (C : Channel ℕ)
    (as_socket : ℕ → Option ℕ) (incoming : List Call → ℕ) (am : Bool) (size fuel : ℕ) (big : Bool)
    (address : ℕ) (bytes region : List ℕ) (addr sender : ℕ) where
  abbrev ucx : Ucx
  ucx = prompt abi checks handle length

  abbrev pub received : List Call → ℕ → List ℕ
  received = Prompt.received abi checks handle length am size fuel big address bytes region

  -- The handles that UCX gives to the server, each after the calls before.
  abbrev config : ℕ
  config = handle [] Call.config_read

  abbrev initialised : List Call
  initialised = Call.init_version (params am size) config ∷ Call.config_read ∷ []

  abbrev context : ℕ
  context = handle (Call.config_read ∷ []) (Call.init_version (params am size) config)

  abbrev worker : ℕ
  worker = handle (Call.config_release config ∷ initialised) (Call.worker_create context)

  abbrev made : List Call
  made = Call.worker_create context ∷ Call.config_release config ∷ initialised

  abbrev listener : ℕ
  listener = handle made (Call.listener_create worker addr sender)

  abbrev waited : List Call
  waited =
      Call.yielded ∷ Call.listener_query listener ∷ Call.listener_create worker addr sender ∷ made

  abbrev accepted : Call
  accepted = Call.ep_create worker (with_handler (accept_params (incoming waited)) 0)

  abbrev endpoint : ℕ
  endpoint = handle waited accepted

  abbrev connected : List Call
  connected =
      Call.ep_print_info endpoint ∷ Call.stream_recv_nb endpoint (Room.contig 4) ∷ accepted ∷ waited

  abbrev pub key_asked : List Call
  key_asked =
      Call.stream_recv_nb endpoint (Room.contig 100)
      ∷ Call.stream_recv_nb endpoint (Room.contig 8)
      ∷ connected

  abbrev address_length : ℕ
  address_length = length connected (Call.stream_recv_nb endpoint (Room.contig 8))

  abbrev key_length : ℕ
  key_length =
      length (Call.stream_recv_nb endpoint (Room.contig 8) ∷ connected)
        (Call.stream_recv_nb endpoint (Room.contig 100))

  abbrev key_sent : List ℕ
  key_sent = take key_length bytes

  abbrev rkey : ℕ
  rkey = handle key_asked (Call.rkey_unpack endpoint key_sent)

  -- The server up to the result of its first receive.
  abbrev receiving : World
  receiving = record {
    trace = Call.stream_recv_nb endpoint (Room.contig 8) ∷ connected;
    inners = update (update start.inners 0 (EndpointInner.new worker)) 0 (fresh worker);
    next = 1;
  }

  abbrev on : ℕ → Outcome (Unit {0}) × World
  on len =
      Rma.served ucx am size fuel big received (record { handle = context })
        (record { handle = worker; context = record { handle = context } }) listener
        (record { handle = endpoint; inner = 0 }) len receiving

  server_receives :
      (shows : ℕ)
      → as_socket 0 ≡ some shows
      → Rma.server ucx am size fuel big received C as_socket incoming addr sender start
        ≡ on address_length
  unfolding Rma.server started Context.new default_config new_with_config drop_config create_worker
      Worker.new listening_on create_listener Listener.new shown Listener.socket_addr
      next_connection suspend deliver accept Connect.accept or_drop create created EndpointInner.new
      EndpointInner.downgrade print_to_stderr get_handle EndpointInner.check from_status stream_recv
      is_closed EndpointInner.is_closed drop_thing running
  server_receives shows read = rw read refl

  -- Where UCX completes each call at once, the address of the listener can be read, the bytes of an address
  -- below 2 ^ 64 come with the first receive and at most 100 bytes of the key with the second, and the
  -- memory that is read holds the client's pattern: the server of examples/rma.rs returns. It has listened,
  -- accepted, received the address and the key, read the region at this very address with the key that it
  -- unpacked, and sent one byte; and it has given everything back: the key, the endpoint, the listener, the
  -- worker and the context, in this order.
  pub server_returns :
      (shows : ℕ)
      → as_socket 0 ≡ some shows
      → address < 2 ^ 64
      → address_length ≡ 8
      → leb key_length 100 ≡ true
      → same_bytes region (pattern_from 0 0x1000) ≡ true
      → let r = Rma.server ucx am size fuel big received C as_socket incoming addr sender start in
        (r.0 ≡ ok tt)
        × (r.1.trace
            ≡ Call.cleanup context
              ∷ Call.worker_destroy worker
              ∷ Call.listener_destroy listener
              ∷ Call.ep_close_nb endpoint CloseMode.force
              ∷ Call.rkey_destroy rkey
              ∷ Call.stream_send_nb endpoint (Payload.contig (0 ∷ []))
              ∷ Call.get_nb endpoint 0x1000 address rkey
              ∷ Call.rkey_unpack endpoint key_sent
              ∷ key_asked)
  server_returns shows read small eight fits same =
      subst
        (λ r.
          (r.0 ≡ ok tt)
          × (r.1.trace
              ≡ Call.cleanup context
                ∷ Call.worker_destroy worker
                ∷ Call.listener_destroy listener
                ∷ Call.ep_close_nb endpoint CloseMode.force
                ∷ Call.rkey_destroy rkey
                ∷ Call.stream_send_nb endpoint (Payload.contig (0 ∷ []))
                ∷ Call.get_nb endpoint 0x1000 address rkey
                ∷ Call.rkey_unpack endpoint key_sent
                ∷ key_asked))
        (sym (server_receives shows read ∙ ap on eight))
        (server_reads abi checks handle length am size fuel big address bytes region
          (record { handle = worker; context = record { handle = context } }) listener endpoint 1
          (update start.inners 0 (EndpointInner.new worker))
          (Call.stream_recv_nb endpoint (Room.contig 8) ∷ connected) small fits same)
