-- ===== src/Examples.antt =====
-- examples/: programs that use the library from its start to its end. What they share is here: a context
-- and a worker with a task that polls it, one endpoint, and the drops at their end.
pub mod Bytes
pub mod Stream
pub mod Tag
pub mod Rma
pub mod Bench
pub mod Threads
pub mod Shares
pub mod Rounds
pub mod Parts
pub mod Steps
pub mod Clients
pub mod Servers
pub mod Settled
pub mod Prompt
pub mod Served
use async_ucx.Base.{ℕ, Bool, Option, List, [], ◌∷◌, leb, take}
use async_ucx.Ffi.{Ucx, Call, M, ok, ◌>>=◌, ◌>>◌, pure, catch, unwrap, assert}
use async_ucx.Sync.{Channel}
use async_ucx.EndpointInner.{suspend}
use async_ucx.Endpoint.{Endpoint, drop}
use async_ucx.Context.{Context}
use async_ucx.Context
use async_ucx.Worker.{Worker, create_worker}
use async_ucx.Worker
use async_ucx.Listener
use async_ucx.Lifetimes.{Value, arc, rc, drop_arc, drop_rc}

-- `f().unwrap()`
abbrev pub unwrapped : {A : Type 0} → M A → M A
unwrapped m = catch m >>= λ r. unwrap r

-- The drop of an endpoint that has no clone, and of the `Rc<Worker>` in its state. Two more are left, that
-- of the function and that of the task that polls.
unfoldable pub end_endpoint : Worker → Endpoint → List Value → M (Unit {0})
end_endpoint worker endpoint rest = do
  drop endpoint
  drop_rc worker.handle worker.context.handle 2 rest

-- The drops of the locals `worker` and `context`, and then of the `LocalSet` in `main` with the task.
unfoldable pub ended : Context → Worker → M (Unit {0})
ended context worker = do
  drop_rc worker.handle worker.context.handle 1 (arc context.handle ∷ [])
  drop_arc context.handle (rc worker.handle worker.context.handle 0 ∷ [])
  drop_rc worker.handle worker.context.handle 0 []

-- `&buf[..len]`
unfoldable pub sliced : ℕ → ℕ → List ℕ → M (List ℕ)
sliced room len buf = do assert (leb len room); pure (take len buf)

module _ (ucx : Ucx) (am : Bool) (size : ℕ) where
  unfoldable pub started : M (Context × Worker)
  started = do
    context ← unwrapped (Context.new ucx am size)
    worker ← unwrapped (create_worker ucx context)
    pure (context, worker)

-- The bytes that UCX has left in a buffer of this size, after the calls so far.
unfoldable pub read_buffer : (List Call → ℕ → List ℕ) → ℕ → M (List ℕ)
read_buffer received room w = (ok (received w.trace room), w)

-- `listener.next().await`: the task gives way, and then the channel of the listener has a request.
unfoldable pub next_connection : Ucx → (List Call → ℕ) → M ℕ
next_connection ucx incoming = do suspend ucx; λ w. (ok (incoming w.trace), w)

-- `println!("listening on {}", listener.socket_addr().unwrap())`
module _ (ucx : Ucx) (C : Channel ℕ) (as_socket : ℕ → Option ℕ) where
  unfoldable pub listening_on : Worker → (addr sender : ℕ) → M (Listener.Listener C)
  listening_on worker addr sender = unwrapped (Worker.create_listener ucx C worker addr sender)

  unfoldable pub shown : Listener.Listener C → M (Unit {0})
  shown listener = do addr ← unwrapped (Listener.socket_addr C ucx as_socket listener); pure tt
