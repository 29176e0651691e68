-- ===== src/Examples/Clients.antt =====
-- What the clients of the examples leave.
use async_ucx.Base.{ℕ, Bool, List, [], ◌∷◌, arith}
use async_ucx.Ffi.{Ucx, ◌>>◌}
use async_ucx.Ffi.Traces.{Triple, bind-Triple, before-Triple}
use async_ucx.Endpoint.{Endpoint}
use async_ucx.Context.{Context}
use async_ucx.Worker.{Worker, connect_socket}
use async_ucx.Transfer.Borrows.{connect_socket-Keeps}
use async_ucx.Lifetimes.{Value, arc, region, thing, packed}
use async_ucx.Lifetimes.Counted.{Fresh}
use async_ucx.Lifetimes.Things.{buffer_thing, pack-InBalance}
use async_ucx.Lifetimes.Traces.{
  Balanced, Leaves, register-Leaves, thing-Leaves, drop_thing-Leaves, drop_region-Leaves,
}
use async_ucx.Examples.{unwrapped, end_endpoint, ended}
use async_ucx.Examples.Stream
use async_ucx.Examples.Tag
use async_ucx.Examples.Rma
use async_ucx.Rma.{MemoryHandle, register, pack}
use async_ucx.Examples.Parts.{
  borrows_unwrapped, with_worker, started-Leaves, polled, end_endpoint-Leaves, ended-Leaves, keeps,
}
use async_ucx.Examples.Steps.{prints, sends, receives, sends_tagged}

module _ (ucx : Ucx) (fresh : Fresh ucx) (am : Bool) (size fuel : ℕ) where
  -- An endpoint is made, on a worker that is polled.
  module _ (context : Context) (worker : Worker) where
    abbrev own : List Value
    own = with_worker ucx (context, worker) 2

    connected-Leaves :
        (server_addr : ℕ)
        → Triple
            (Balanced ucx (with_worker ucx (context, worker) 0))
            (unwrapped (connect_socket ucx fuel worker server_addr))
            (λ _. Balanced ucx own)
            (λ _. Unit {0})
    unfolding connect_socket
    connected-Leaves server_addr = before-Triple (polled ucx context worker) (
        borrows_unwrapped ucx own (
          connect_socket-Keeps ucx (Balanced ucx own) (keeps ucx own) fuel worker.handle
            server_addr))

    over-Leaves :
        (endpoint : Endpoint)
        → Leaves ucx own
            (end_endpoint worker endpoint (arc context.handle ∷ []) >> ended context worker)
            (λ _. [])
    over-Leaves endpoint =
        bind-Triple (end_endpoint-Leaves ucx worker endpoint (arc context.handle ∷ []))
          (λ _. ended-Leaves ucx context worker)

  pub stream_client-Leaves :
      (server_addr : ℕ) → Leaves ucx [] (Stream.client ucx am size fuel server_addr) (λ _. [])
  unfolding Stream.client
  stream_client-Leaves server_addr = bind-Triple (started-Leaves ucx fresh am size) (λ x.
      bind-Triple (connected-Leaves x.0 x.1 server_addr) (λ e.
        bind-Triple (prints ucx fuel (own x.0 x.1) e)
          (λ _. bind-Triple (sends ucx fuel (own x.0 x.1) e _) (λ _. over-Leaves x.0 x.1 e))))

  pub tag_client-Leaves :
      (server_addr : ℕ) → Leaves ucx [] (Tag.client ucx am size fuel server_addr) (λ _. [])
  unfolding Tag.client
  tag_client-Leaves server_addr = bind-Triple (started-Leaves ucx fresh am size) (λ x.
      bind-Triple (connected-Leaves x.0 x.1 server_addr) (λ e.
        bind-Triple (sends_tagged ucx fuel (own x.0 x.1) e 100 _) (λ _.
          bind-Triple (sends_tagged ucx fuel (own x.0 x.1) e 101 _) (λ _. over-Leaves x.0 x.1 e))))

  -- The client of examples/rma.rs from the registration of its memory to its end.
  module _ (context : Context) (worker : Worker) where
    mapped-Leaves :
        (address : ℕ)
        → Leaves ucx
            (own context worker)
            (register ucx context.handle address 0x1000)
            (λ m. region m.context m.handle ∷ own context worker)
    mapped-Leaves address =
        register-Leaves ucx (own context worker) context.handle address 0x1000 (ground arith)

    packed-Leaves :
        (m : MemoryHandle) (held : List Value)
        → Leaves ucx held (pack ucx m) (λ b. thing (packed b.buf) ∷ held)
    packed-Leaves m held =
        thing-Leaves ucx held (pack ucx m) buffer_thing (λ w h. pack-InBalance ucx held w h m)

  pub rma_client-Leaves :
      (big : Bool) (address : ℕ) (key_bytes : ℕ → ℕ → List ℕ) (server_addr : ℕ)
      → Leaves ucx [] (Rma.client ucx am size fuel big address key_bytes server_addr) (λ _. [])
  unfolding Rma.client
  rma_client-Leaves big address key_bytes server_addr =
      bind-Triple (started-Leaves ucx fresh am size) (λ x.
        let held = own x.0 x.1 in
        bind-Triple (connected-Leaves x.0 x.1 server_addr) (λ e.
          bind-Triple (prints ucx fuel held e) (λ _.
            bind-Triple (mapped-Leaves x.0 x.1 address) (λ m.
              let more = region m.context m.handle ∷ held in
              bind-Triple (sends ucx fuel more e _) (λ _.
                bind-Triple (packed-Leaves x.0 x.1 m more) (λ b.
                  bind-Triple (sends ucx fuel (thing (packed b.buf) ∷ more) e _) (λ _.
                    bind-Triple (drop_thing-Leaves ucx more (packed b.buf)) (λ _.
                      bind-Triple (receives ucx fuel more e 1) (λ _.
                        bind-Triple (drop_region-Leaves ucx held m.context m.handle)
                          (λ _. over-Leaves x.0 x.1 e))))))))))
