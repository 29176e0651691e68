-- ===== src/Connect.antt =====
-- src/ucp/endpoint/mod.rs: the ways to an endpoint. Addresses and handles are numbers; a zeroed field
-- of the parameters is `none` or `false`.

pub mod Laws
use async_ucx.Base.{ℕ, true, false, none, some, List, [], ◌∷◌}
use async_ucx.Error.{Result}
use async_ucx.Error
use async_ucx.Ffi.{Ucx, EpField, EpParams, M, ◌>>=◌, ◌>>◌, pure, raise, catch}
use async_ucx.Endpoint.{Endpoint, create, drop}
use async_ucx.Transfer.{stream_send, stream_recv}

abbrev pub zeroed : EpParams
zeroed = record {
  field_mask = [];
  client_server = false;
  sockaddr = none;
  address = none;
  conn_request = none;
  err_mode_peer = false;
  user_data = none;
  err_handler = false;
}

unfoldable pub socket_params : ℕ → EpParams
socket_params addr = record zeroed {
  field_mask = EpField.flags ∷ EpField.sock_addr ∷ EpField.err_handling_mode ∷ [];
  client_server = true;
  sockaddr = some addr;
  err_mode_peer = true;
}

unfoldable pub addr_params : ℕ → EpParams
addr_params addr = record zeroed {
  field_mask = EpField.remote_address ∷ EpField.err_handling_mode ∷ [];
  address = some addr;
  err_mode_peer = true;
}

unfoldable pub accept_params : ℕ → EpParams
accept_params connection = record zeroed {
  field_mask = EpField.conn_request ∷ [];
  conn_request = some connection;
}

-- The end of `connect_socket` and `accept`: where the handshake fails, the `?` drops the endpoint.
unfoldable pub or_drop : Endpoint → Result ℕ → M Endpoint
or_drop e (Error.Result.ok _) = pure e
or_drop e (Error.Result.err x) = do drop e; raise x

module _ (ucx : Ucx) where
  unfoldable pub connect_addr : ℕ → ℕ → M Endpoint
  unfolding addr_params
  connect_addr worker addr = create ucx worker (addr_params addr)

  -- The four bytes are a workaround for a bug of UCX.
  unfoldable pub connect_socket : ℕ → ℕ → ℕ → M Endpoint
  unfolding socket_params or_drop
  connect_socket fuel worker addr = do
    e ← create ucx worker (socket_params addr)
    sent ← catch (stream_send ucx fuel e (0 ∷ 1 ∷ 2 ∷ 3 ∷ []))
    or_drop e sent

  unfoldable pub accept : ℕ → ℕ → ℕ → M Endpoint
  unfolding accept_params or_drop
  accept fuel worker connection = do
    e ← create ucx worker (accept_params connection)
    received ← catch (stream_recv ucx fuel e 4)
    or_drop e received
