-- ===== src/Lifetimes.antt =====
-- The contexts of src/ucp/mod.rs, the workers of worker.rs, the regions of rma.rs and the rest that UCX
-- hands out, with what their drops do: an `Arc<Context>` or `Rc<Worker>` drops what it points to when it is the last.
pub mod Owned
pub mod Counted
pub mod Looked
pub mod Live
pub mod Things
pub mod Traces
pub mod Contexts
pub mod History
use async_ucx.Base.{
  ℕ, zero, suc, ◌+◌, Bool, true, false, ◌||◌, List, [], ◌∷◌, ◌++◌, ◌==◌, if◌then◌else◌,
}
use async_ucx.Ffi.{Call, ffi_unit, M, ◌>>◌, ◌>>=◌, pure}
use async_ucx.Context.{Context, drop_config, drop_context}
use async_ucx.Worker.{Worker, drop_worker, drop_address}
use async_ucx.Rma.{MemoryHandle, drop_memory, drop_buffer, drop_key}

-- A value that keeps nothing else alive: a `Config`, a `Listener`, a `RKeyBuffer`, a `RKey` or a
-- `WorkerAddress`.
pub data Thing : Type 0 where
  settings listening packed unpacked : (handle : ℕ) → Thing
  addressed : (worker handle : ℕ) → Thing

-- A value of the program: an `Arc<Context>`; a `Worker` in its `Rc`, which has an `Arc` too, with the
-- number of pointers to it beyond the first; a region, which also has one; or a thing.
pub data Value : Type 0 where
  arc : (context : ℕ) → Value
  rc : (worker context extra : ℕ) → Value
  region : (context handle : ℕ) → Value
  thing : Thing → Value

abbrev pub points_context : ℕ → Value → Bool
points_context h (arc c) = c == h
points_context h (rc w c n) = c == h
points_context h (region c m) = c == h
points_context h (thing x) = false

abbrev pub any : (Value → Bool) → List Value → Bool
any f [] = false
any f (x ∷ xs) = f x || any f xs

-- The drop of an `Arc<Context>`, with the values that are left.
unfoldable pub drop_arc : ℕ → List Value → M (Unit {0})
drop_arc c rest =
    if any (points_context c) rest then pure tt else drop_context (record { handle = c })

-- The drop of an `Rc<Worker>`: the last one destroys the worker and then drops its pointer to the context.
unfoldable pub drop_rc : (worker context extra : ℕ) → List Value → M (Unit {0})
unfolding drop_arc
drop_rc w c (suc n) rest = pure tt
drop_rc w c zero rest = do
  drop_worker (record { handle = w; context = record { handle = c } })
  drop_arc c rest

-- The drop of a `MemoryHandle`, and then of its pointer to the context.
unfoldable pub drop_region : ℕ → ℕ → List Value → M (Unit {0})
unfolding drop_arc
drop_region c m rest = do drop_memory (record { handle = m; context = c }); drop_arc c rest

-- The drops of the things; that of a `Listener` is `drop_listener` on its handle.
unfoldable pub drop_thing : Thing → M (Unit {0})
drop_thing (settings h) = drop_config (record { handle = h })
drop_thing (listening h) = ffi_unit (Call.listener_destroy h)
drop_thing (packed h) = drop_buffer (record { buf = h; len = 0 })
drop_thing (unpacked h) = drop_key (record { handle = h })
drop_thing (addressed w h) = drop_address (record { handle = h; length = 0; worker = w })
