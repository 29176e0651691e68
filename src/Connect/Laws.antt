-- ===== src/Connect/Laws.antt =====
-- Connecting: the parameters announce what they hold, and a failed handshake leaves nothing behind.
use async_ucx.Base.{
  ℕ, ◌≡◌, refl, ap, subst, ◌∙◌, Bool, true, false, ◌||◌, Option, none, some, List, [], ◌∷◌, arith,
}
use async_ucx.Error.{Error, Result, from_status}
use async_ucx.Error
use async_ucx.Ffi.{
  Ucx, M, EpField, flags, sock_addr, err_handling_mode, remote_address, conn_request, user_data,
  err_handler, EpParams, World, Outcome, ok, err, proceed, ◌>>=◌, raise, catch, running,
}
use async_ucx.EndpointInner.{new, drop_weak, drop_strong, downgrade}
use async_ucx.EndpointInner.Invariant.{AllSound}
use async_ucx.EndpointInner.Steady.{Steady}
use async_ucx.Endpoint.{Endpoint, with_handler, created, create}
use async_ucx.Endpoint.Lifecycle.{fresh, create-AllSound, drop_lem}
use async_ucx.Transfer.{stream_send, stream_recv}
use async_ucx.Transfer.Steady.{stream_send-Steady, stream_recv-Steady}
use async_ucx.Connect.{socket_params, addr_params, accept_params, or_drop, connect_socket, accept}

abbrev pub same : EpField → EpField → Bool
same flags flags = true
same sock_addr sock_addr = true
same err_handling_mode err_handling_mode = true
same remote_address remote_address = true
same conn_request conn_request = true
same user_data user_data = true
same err_handler err_handler = true
same _ _ = false

abbrev pub has : EpField → List EpField → Bool
has f [] = false
has f (g ∷ gs) = same f g || has f gs

abbrev pub given : Option ℕ → Bool
given none = false
given (some _) = true

-- UCX looks at a field exactly if the mask names it.
pub record Announced (p : EpParams) : Type 0 where
  pub flags_named : has flags p.field_mask ≡ p.client_server
  pub sockaddr_named : has sock_addr p.field_mask ≡ given p.sockaddr
  pub address_named : has remote_address p.field_mask ≡ given p.address
  pub conn_request_named : has conn_request p.field_mask ≡ given p.conn_request
  pub err_mode_named : has err_handling_mode p.field_mask ≡ p.err_mode_peer
  pub user_data_named : has user_data p.field_mask ≡ given p.user_data
  pub err_handler_named : has err_handler p.field_mask ≡ p.err_handler

-- In all three ways to an endpoint the mask names exactly the fields that are set, with those that
-- `create` adds.
pub params-Announced :
    (addr p : ℕ)
    → Announced (with_handler (socket_params addr) p)
      × Announced (with_handler (addr_params addr) p)
      × Announced (with_handler (accept_params addr) p)
unfolding socket_params addr_params accept_params with_handler
params-Announced addr p = (ground arith, ground arith, ground arith)

module _ (ucx : Ucx) where
  -- An endpoint that `create` returned has fresh shared state.
  pub create-fresh :
      (worker : ℕ) (params : EpParams) (w u : World) (e : Endpoint)
      → create ucx worker params w ≡ (ok e, u)
      → u.inners e.inner ≡ fresh worker
  unfolding create created from_status downgrade new drop_weak drop_strong running
  create-fresh worker params w u e h = ground arith

  -- How a connection that failed ends: its endpoint is closed and no one refers to its state.
  abbrev pub Gone : Endpoint → Error → Outcome Endpoint × World → Type 0
  Gone e x r =
      (r.0 ≡ err x)
      × ((r.1.inners e.inner).closed ≡ true)
      × ((r.1.inners e.inner).weak ≡ 0)
      × ((r.1.inners e.inner).strong ≡ 0)

  or_drop_fails :
      (e : Endpoint) (x : Error) (v : World)
      → AllSound v
      → (v.inners e.inner).strong ≡ 1
      → Gone e x (or_drop e (Error.Result.err x) v)
  unfolding or_drop ◌>>=◌ raise
  or_drop_fails e x v s one =
      let (runs, _, closed, weak, strong) = drop_lem e v s (omega arith) in
      rw (runs, proceed) (refl, closed, weak, omega arith)

  module _ (fuel worker : ℕ) (w u v : World) (e : Endpoint) (x : Error) (s : AllSound w) where
    handshake-Gone :
        (params : EpParams) (m : M ℕ)
        → Steady m
        → create ucx worker params w ≡ (ok e, u)
        → m u ≡ (err x, v)
        → Gone e x (or_drop e (Error.Result.err x) v)
    handshake-Gone params m steady made failed =
        let sound : AllSound u =
          subst (λ (r : Outcome Endpoint × World). AllSound r.1) made
            (create-AllSound ucx worker params w s) in
        let sound' : AllSound v =
          subst (λ (r : Outcome ℕ × World). AllSound r.1) failed (steady.sound u sound) in
        let kept : (v.inners e.inner).strong ≡ (u.inners e.inner).strong =
          subst (λ (r : Outcome ℕ × World). (r.1.inners e.inner).strong ≡ (u.inners e.inner).strong)
            failed ((steady.follows u sound).ages e.inner).strong_same in
        let one = ap (λ i. i.strong) (create-fresh worker params w u e made) in
        or_drop_fails e x v sound' (kept ∙ one)

    -- If the handshake of `connect_socket` fails, where the endpoints were sound before, its error is returned, the new endpoint is closed, and
    -- its shared state has no reference left.
    pub connect_socket_fails :
        (addr : ℕ)
        → create ucx worker (socket_params addr) w ≡ (ok e, u)
        → stream_send ucx fuel e (0 ∷ 1 ∷ 2 ∷ 3 ∷ []) u ≡ (err x, v)
        → Gone e x (connect_socket ucx fuel worker addr w)
    unfolding connect_socket ◌>>=◌ catch
    connect_socket_fails addr made failed =
        rw (made, proceed, failed)
          (handshake-Gone (socket_params addr) _ (stream_send-Steady ucx fuel e _) made failed)

    -- If the handshake of `accept` fails, where the endpoints were sound before, its error is returned, the new endpoint is closed, and its
    -- shared state has no reference left.
    pub accept_fails :
        (connection : ℕ)
        → create ucx worker (accept_params connection) w ≡ (ok e, u)
        → stream_recv ucx fuel e 4 u ≡ (err x, v)
        → Gone e x (accept ucx fuel worker connection w)
    unfolding accept ◌>>=◌ catch
    accept_fails connection made failed =
        rw (made, proceed, failed)
          (handshake-Gone (accept_params connection) _ (stream_recv-Steady ucx fuel e 4) made
            failed)
