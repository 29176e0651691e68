-- ===== src/Transfer/Borrows.antt =====
-- Endpoints and their transfers hand nothing out and give nothing back: they keep whatever the calls
-- that do neither keep.
use async_ucx.Base.{ℕ, zero, suc, ◌≡◌, refl, true, Option, List, ◌∷◌, ◌==◌, arith}
use async_ucx.Error.{Result, from_status}
use async_ucx.Error
use async_ucx.Ffi.{Ucx, CloseMode, Call, EpParams, M, ◌>>=◌, lift, alloc, running}
use async_ucx.Ffi.Traces.{bind-Triple, if-Triple, quiet-Triple, coming-Triple}
use async_ucx.Ffi.Borrows.{
  is_borrowing, Keeps, pure-Keeps, raise-Keeps, starve-Keeps, lift-Keeps, assume_init-Keeps,
  or_panic-Keeps, raise_unwrap_err-Keeps, ffi-Keeps, ffi_unit-Keeps, catch-Keeps,
}
use async_ucx.EndpointInner.{closed, check, suspend, deliver, drop_weak, drop_strong, downgrade}
use async_ucx.EndpointInner
use async_ucx.Worker.Polling.{deliver-keeps}
use async_ucx.Request.{
  Poll, ready, pending, poll_normal, poll_stream, poll_tag, second_poll, poll, after_poll, await,
  is_ptr, finish_request, finish_send,
}
use async_ucx.Endpoint.{Endpoint, get_handle, is_closed, print_to_stderr, created, create, drop}
use async_ucx.Transfer.{stream_send, stream_recv, tag_recv_mask, tag_recv, tag_send, get}
use async_ucx.Connect.{or_drop, connect_socket, accept, socket_params, accept_params}

module _ (ucx : Ucx) (I : List Call → Type 0)
    (keeps : (c : Call) → is_borrowing c ≡ true → (t : List Call) → I t → I (c ∷ t)) where
  pub suspend-Keeps : Keeps I (suspend ucx)
  unfolding suspend
  suspend-Keeps = bind-Triple (coming-Triple I ucx I) (λ es.
      bind-Triple (ffi_unit-Keeps I keeps Call.yielded refl)
        (λ _. deliver-keeps ucx I (λ p. keeps (Call.ep_close_nb p CloseMode.force) refl) es))

  poll_normal-Keeps : (p : ℕ) → Keeps I (poll_normal ucx p)
  unfolding poll_normal
  poll_normal-Keeps p = bind-Triple (ffi-Keeps I keeps ucx _ refl) (λ r. pure-Keeps I _)

  poll_stream-Keeps : (p : ℕ) → Keeps I (poll_stream ucx p)
  unfolding poll_stream
  poll_stream-Keeps p = bind-Triple (ffi-Keeps I keeps ucx _ refl) (λ r.
      if-Triple _ (pure-Keeps I _) (bind-Triple (assume_init-Keeps I _) (λ len. pure-Keeps I _)))

  poll_tag-Keeps : (p : ℕ) → Keeps I (poll_tag ucx p)
  unfolding poll_tag
  poll_tag-Keeps p = bind-Triple (ffi-Keeps I keeps ucx _ refl) (λ r. if-Triple _ (pure-Keeps I _) (
      if-Triple _
        (bind-Triple (assume_init-Keeps I _)
          (λ tag. bind-Triple (assume_init-Keeps I _) (λ len. pure-Keeps I _)))
        (pure-Keeps I _)))

  module _ {A : Type 0} (poll_fn : ℕ → M (Poll A)) (kept : (p : ℕ) → Keeps I (poll_fn p))
      (ptr : ℕ) where
    second-Keeps : (p : Poll A) → Keeps I (second_poll poll_fn ptr p)
    unfolding second_poll
    second-Keeps (ready a) = pure-Keeps I _
    second-Keeps pending = bind-Triple (ffi_unit-Keeps I keeps _ refl) (λ _. kept ptr)

    after_poll-Keeps :
        (again : M A) → Keeps I again → (p : Poll A) → Keeps I (after_poll ucx ptr again p)
    unfolding after_poll
    after_poll-Keeps again k (ready a) =
        bind-Triple (ffi_unit-Keeps I keeps _ refl) (λ _. pure-Keeps I a)
    after_poll-Keeps again k pending = bind-Triple suspend-Keeps (λ _. k)

    await-Keeps : (fuel : ℕ) → Keeps I (await ucx poll_fn ptr fuel)
    unfolding await poll
    await-Keeps zero = starve-Keeps I A
    await-Keeps (suc fuel) =
        bind-Triple (bind-Triple (kept ptr) second-Keeps)
          (after_poll-Keeps (await ucx poll_fn ptr fuel) (await-Keeps fuel))

  is_ptr-Keeps : (p : ℕ) → Keeps I (is_ptr ucx p)
  unfolding is_ptr
  is_ptr-Keeps p = or_panic-Keeps I _

  await_result-Keeps : (p fuel : ℕ) → Keeps I (await ucx (poll_normal ucx) p fuel >>= λ r. lift r)
  await_result-Keeps p fuel =
      bind-Triple (await-Keeps (poll_normal ucx) poll_normal-Keeps p fuel) (λ r. lift-Keeps I r)

  finish_request-Keeps : (fuel p : ℕ) → Keeps I (finish_request ucx fuel p)
  unfolding finish_request
  finish_request-Keeps fuel p =
      if-Triple (p == 0) (pure-Keeps I tt) (
        bind-Triple (is_ptr-Keeps p)
          (λ q. if-Triple q (await_result-Keeps p fuel) (lift-Keeps I _)))

  finish_send-Keeps : (fuel p : ℕ) → Keeps I (finish_send ucx fuel p)
  unfolding finish_send
  finish_send-Keeps fuel p = if-Triple (p == 0) (pure-Keeps I tt) (
      bind-Triple (is_ptr-Keeps p)
        (λ q. if-Triple q (await_result-Keeps p fuel) (raise_unwrap_err-Keeps I _ _)))

  check-Keeps : (p : ℕ) → Keeps I (check p)
  unfolding check running
  check-Keeps p = quiet-Triple I (λ w. refl)

  is_closed-Keeps : (e : Endpoint) → Keeps I (is_closed e)
  unfolding is_closed EndpointInner.is_closed running
  is_closed-Keeps e = quiet-Triple I (λ w. refl)

  get_handle-Keeps : (e : Endpoint) → Keeps I (get_handle e)
  unfolding get_handle
  get_handle-Keeps e =
      bind-Triple (check-Keeps e.inner) (λ r. bind-Triple (lift-Keeps I r) (λ _. pure-Keeps I _))

  pub print_to_stderr-Keeps : (e : Endpoint) → Keeps I (print_to_stderr e)
  unfolding print_to_stderr
  print_to_stderr-Keeps e =
      bind-Triple (is_closed-Keeps e)
        (λ c. if-Triple c (pure-Keeps I tt) (ffi_unit-Keeps I keeps _ refl))

  closed-Keeps : (p : ℕ) → Keeps I (closed p)
  unfolding closed running
  closed-Keeps p = quiet-Triple I (λ w. ground arith)

  drop_weak-Keeps : (p : ℕ) → Keeps I (drop_weak p)
  unfolding drop_weak running
  drop_weak-Keeps p = quiet-Triple I (λ w. ground arith)

  drop_strong-Keeps : (p : ℕ) → Keeps I (drop_strong p)
  unfolding drop_strong running
  drop_strong-Keeps p = quiet-Triple I (λ w. ground arith)

  downgrade-Keeps : (p : ℕ) → Keeps I (downgrade p)
  unfolding downgrade running
  downgrade-Keeps p = quiet-Triple I (λ w. refl)

  alloc_new-Keeps : (worker : ℕ) → Keeps I (alloc (EndpointInner.new worker))
  unfolding alloc
  alloc_new-Keeps worker = quiet-Triple I (λ w. refl)

  pub drop-Keeps : (e : Endpoint) → Keeps I (drop e)
  unfolding drop
  drop-Keeps e = bind-Triple (is_closed-Keeps e) (λ c.
      bind-Triple
        (if-Triple c (pure-Keeps I tt)
          (bind-Triple (ffi_unit-Keeps I keeps _ refl) (λ _. closed-Keeps e.inner)))
        (λ _. drop_strong-Keeps e.inner))

  created-Keeps : (p : ℕ) (out : Option ℕ) (r : Result (Unit {0})) → Keeps I (created p out r)
  unfolding created
  created-Keeps p out (Error.Result.err e) =
      bind-Triple (drop_weak-Keeps p)
        (λ _. bind-Triple (drop_strong-Keeps p) (λ _. raise-Keeps I e))
  created-Keeps p out (Error.Result.ok _) =
      bind-Triple (assume_init-Keeps I out) (λ h. pure-Keeps I _)

  create-Keeps : (worker : ℕ) (params : EpParams) → Keeps I (create ucx worker params)
  unfolding create
  create-Keeps worker params = bind-Triple (alloc_new-Keeps worker) (λ p.
      bind-Triple (downgrade-Keeps p)
        (λ _. bind-Triple (ffi-Keeps I keeps ucx _ refl) (λ r. created-Keeps p _ _)))

  module _ (fuel : ℕ) where
    pub tag_recv-Keeps : (worker tag room : ℕ) → Keeps I (tag_recv ucx fuel worker tag room)
    unfolding tag_recv tag_recv_mask
    tag_recv-Keeps worker tag room =
        bind-Triple
          (bind-Triple (ffi-Keeps I keeps ucx _ refl) (λ r.
            bind-Triple (lift-Keeps I _) (λ _.
              bind-Triple (await-Keeps _ poll_tag-Keeps r.pointer fuel) (λ x. lift-Keeps I x))))
          (λ info. pure-Keeps I _)

    module _ (e : Endpoint) where
      pub stream_send-Keeps : (buf : List ℕ) → Keeps I (stream_send ucx fuel e buf)
      unfolding stream_send
      stream_send-Keeps buf = bind-Triple (get_handle-Keeps e) (λ h.
          bind-Triple (ffi-Keeps I keeps ucx _ refl)
            (λ r. bind-Triple (finish_send-Keeps fuel r.pointer) (λ _. pure-Keeps I _)))

      pub stream_recv-Keeps : (room : ℕ) → Keeps I (stream_recv ucx fuel e room)
      unfolding stream_recv
      stream_recv-Keeps room = bind-Triple (get_handle-Keeps e) (λ h.
          bind-Triple (ffi-Keeps I keeps ucx _ refl) (λ r.
            if-Triple (r.pointer == 0) (assume_init-Keeps I r.length) (
              bind-Triple (is_ptr-Keeps r.pointer) (λ q.
                if-Triple q (await-Keeps _ poll_stream-Keeps r.pointer fuel)
                  (raise_unwrap_err-Keeps I _ _)))))

      pub tag_send-Keeps : (tag : ℕ) (buf : List ℕ) → Keeps I (tag_send ucx fuel e tag buf)
      unfolding tag_send
      tag_send-Keeps tag buf = bind-Triple (get_handle-Keeps e) (λ h.
          bind-Triple (ffi-Keeps I keeps ucx _ refl)
            (λ r. bind-Triple (finish_send-Keeps fuel r.pointer) (λ _. pure-Keeps I _)))

      pub get-Keeps : (room remote_addr rkey : ℕ) → Keeps I (get ucx fuel e room remote_addr rkey)
      unfolding get
      get-Keeps room remote_addr rkey = bind-Triple (get_handle-Keeps e) (λ h.
          bind-Triple (ffi-Keeps I keeps ucx _ refl) (λ r. finish_request-Keeps fuel r.pointer))

    or_drop-Keeps : (e : Endpoint) (r : Result ℕ) → Keeps I (or_drop e r)
    unfolding or_drop
    or_drop-Keeps e (Error.Result.ok n) = pure-Keeps I e
    or_drop-Keeps e (Error.Result.err x) = bind-Triple (drop-Keeps e) (λ _. raise-Keeps I x)

    pub connect_socket-Keeps : (worker addr : ℕ) → Keeps I (connect_socket ucx fuel worker addr)
    unfolding connect_socket
    connect_socket-Keeps worker addr =
        bind-Triple (create-Keeps worker (socket_params addr))
          (λ e. bind-Triple (catch-Keeps I (stream_send-Keeps e _)) (λ r. or_drop-Keeps e r))

    pub accept-Keeps : (worker connection : ℕ) → Keeps I (accept ucx fuel worker connection)
    unfolding accept
    accept-Keeps worker connection =
        bind-Triple (create-Keeps worker (accept_params connection))
          (λ e. bind-Triple (catch-Keeps I (stream_recv-Keeps e 4)) (λ r. or_drop-Keeps e r))
