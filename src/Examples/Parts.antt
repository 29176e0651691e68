-- ===== src/Examples/Parts.antt =====
-- What the parts of the examples leave with the program.
use async_ucx.Base.{ℕ, ◌≡◌, refl, Bool, true, Option, List, [], ◌∷◌, leb, arith}
use async_ucx.Error.{from_status}
use async_ucx.Ffi.{Ucx, Call, ok, M, assert}
use async_ucx.Ffi.Traces.{Triple, bind-Triple, before-Triple, quiet-Triple, pure-Triple}
use async_ucx.Ffi.Borrows.{
  Keeps, is_borrowing, pure-Keeps, lift-Keeps, or_panic-Keeps, assert-Keeps, ffi-Keeps, catch-Keeps,
  unwrap-Keeps,
}
use async_ucx.Sync.{Channel}
use async_ucx.Endpoint.{Endpoint}
use async_ucx.Context.{Context}
use async_ucx.Worker.{Worker, create_listener}
use async_ucx.Listener
use async_ucx.Transfer.Borrows.{suspend-Keeps, drop-Keeps}
use async_ucx.Lifetimes.{Value, arc, rc, thing, listening, any, points_context}
use async_ucx.Lifetimes.Counted.{Fresh}
use async_ucx.Lifetimes.Things.{listener_thing, new_listener-InBalance}
use async_ucx.Lifetimes.Contexts.{context-Leaves}
use async_ucx.Lifetimes.Traces.{
  Balanced, borrowing-Balanced, Leaves, kept-Leaves, reordered, cloned, worker-Leaves, thing-Leaves,
  drop_arc-Leaves, drop_rc-Leaves, unwrapped-Leaves,
}
use async_ucx.Examples.{
  unwrapped, started, end_endpoint, ended, sliced, read_buffer, next_connection, listening_on,
  shown,
}

module _ (ucx : Ucx) where
  module _ (own : List Value) where
    abbrev pub keeps :
        (c : Call)
        → is_borrowing c ≡ true
        → (t : List Call) → Balanced ucx own t
        → Balanced ucx own (c ∷ t)
    keeps = borrowing-Balanced ucx own

    -- A part of a program that makes and drops no value.
    pub borrows : {A : Type 0} {m : M A} → Keeps (Balanced ucx own) m → Leaves ucx own m (λ _. own)
    borrows k = kept-Leaves ucx own k

    pub borrows_unwrapped :
        {A : Type 0} {m : M A}
        → Keeps (Balanced ucx own) m
        → Leaves ucx own (unwrapped m) (λ _. own)
    borrows_unwrapped k =
        kept-Leaves ucx own
          (bind-Triple (catch-Keeps (Balanced ucx own) k) (λ r. unwrap-Keeps (Balanced ucx own) r))

    pub sliced-Leaves :
        (room len : ℕ) (buf : List ℕ) → Leaves ucx own (sliced room len buf) (λ _. own)
    unfolding sliced
    sliced-Leaves room len buf =
        borrows (bind-Triple (assert-Keeps (Balanced ucx own) (leb len room)) (λ _. pure-Keeps _ _))

    pub read_buffer-Leaves :
        (received : List Call → ℕ → List ℕ) (room : ℕ)
        → Leaves ucx own (read_buffer received room) (λ _. own)
    unfolding read_buffer
    read_buffer-Leaves received room = borrows (quiet-Triple (Balanced ucx own) (λ w. refl))

    incoming-Keeps :
        (incoming : List Call → ℕ)
        → Triple
            (Balanced ucx own)
            {A = ℕ}
            (λ w. (ok (incoming w.trace), w))
            (λ _. Balanced ucx own)
            (Balanced ucx own)
    incoming-Keeps incoming = quiet-Triple (Balanced ucx own) (λ w. refl)

    pub next_connection-Leaves :
        (incoming : List Call → ℕ) → Leaves ucx own (next_connection ucx incoming) (λ _. own)
    unfolding next_connection
    next_connection-Leaves incoming =
        borrows
          (bind-Triple (suspend-Keeps ucx (Balanced ucx own) keeps) (λ _. incoming-Keeps incoming))

    pub assert-Leaves : (b : Bool) → Leaves ucx own (assert b) (λ _. own)
    assert-Leaves b = borrows (assert-Keeps (Balanced ucx own) b)

    module _ (C : Channel ℕ) (as_socket : ℕ → Option ℕ) where
      socket_addr-Keeps :
          (l : Listener.Listener C)
          → Keeps (Balanced ucx own) (Listener.socket_addr C ucx as_socket l)
      unfolding Listener.socket_addr
      socket_addr-Keeps l =
          bind-Triple (ffi-Keeps _ keeps ucx _ refl)
            (λ r. bind-Triple (lift-Keeps _ (from_status r.status)) (λ _. or_panic-Keeps _ _))

      pub shown-Leaves :
          (l : Listener.Listener C) → Leaves ucx own (shown ucx C as_socket l) (λ _. own)
      unfolding shown
      shown-Leaves l =
          bind-Triple (borrows_unwrapped (socket_addr-Keeps l)) (λ a. borrows (pure-Keeps _ tt))

      pub listening_on-Leaves :
          (worker : Worker) (addr sender : ℕ)
          → Leaves ucx own
              (listening_on ucx C as_socket worker addr sender)
              (λ l. thing (listening l.handle) ∷ own)
      unfolding listening_on create_listener
      listening_on-Leaves worker addr sender =
          unwrapped-Leaves ucx own (λ l. thing (listening l.handle) ∷ own)
            (thing-Leaves ucx own (Listener.new C ucx worker.handle addr sender) listener_thing
              (λ w h. new_listener-InBalance ucx own w h C worker.handle addr sender))

  -- The values of a program that has started: the worker's pointers are those of the function and of the
  -- task that polls it.
  abbrev pub with_worker : Context × Worker → ℕ → List Value
  with_worker (context, worker) n =
      rc worker.handle worker.context.handle n ∷ arc context.handle ∷ []

  module _ (fresh : Fresh ucx) (am : Bool) (size : ℕ) where
    pub started-Leaves : Leaves ucx [] (started ucx am size) (λ x. with_worker x 0)
    unfolding started
    started-Leaves =
        bind-Triple
          (unwrapped-Leaves ucx [] (λ c. arc c.handle ∷ []) (context-Leaves ucx fresh [] am size))
          (λ c.
            bind-Triple
              (unwrapped-Leaves ucx (arc c.handle ∷ []) (λ v. with_worker (c, v) 0)
                (worker-Leaves ucx (arc c.handle ∷ []) c (same_handle c.handle)))
              (λ v. pure-Triple (Balanced ucx (with_worker (c, v) 0)) (c, v) (λ t h. h)))
      where
        same_handle : (h : ℕ) → any (points_context h) (arc h ∷ []) ≡ true
        same_handle h = ground arith

  -- The pointers of the polling task and of the endpoint's state are added.
  pub polled :
      (context : Context) (worker : Worker) (t : List Call)
      → Balanced ucx (with_worker (context, worker) 0) t
      → Balanced ucx (with_worker (context, worker) 2) t
  polled context worker t h =
      let rest = arc context.handle ∷ [] in
      let v = worker.handle in
      let c = worker.context.handle in cloned ucx v c 1 rest t (cloned ucx v c 0 rest t h)

  pub end_endpoint-Leaves :
      (worker : Worker) (endpoint : Endpoint) (rest : List Value)
      → Leaves ucx
          (rc worker.handle worker.context.handle 2 ∷ rest)
          (end_endpoint worker endpoint rest)
          (λ _. rc worker.handle worker.context.handle 1 ∷ rest)
  unfolding end_endpoint
  end_endpoint-Leaves worker endpoint rest =
      let own = rc worker.handle worker.context.handle 2 ∷ rest in
      bind-Triple (borrows own (drop-Keeps ucx (Balanced ucx own) (keeps own) endpoint))
        (λ _. drop_rc-Leaves ucx rest worker.handle worker.context.handle 2)

  pub ended-Leaves :
      (context : Context) (worker : Worker)
      → Leaves ucx (with_worker (context, worker) 1) (ended context worker) (λ _. [])
  unfolding ended
  ended-Leaves context worker =
      let v = worker.handle in
      let c = worker.context.handle in
      bind-Triple (drop_rc-Leaves ucx (arc context.handle ∷ []) v c 1) (λ _.
        bind-Triple
          (before-Triple (reordered ucx (arc context.handle) (rc v c 0 ∷ []) [])
            (drop_arc-Leaves ucx (rc v c 0 ∷ []) context.handle))
          (λ _. drop_rc-Leaves ucx [] v c 0))
