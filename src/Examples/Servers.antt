-- ===== src/Examples/Servers.antt =====
-- What the servers of the examples leave.
use async_ucx.Base.{ℕ, Bool, Option, List, [], ◌∷◌, ◌==◌}
use async_ucx.Ffi.{Ucx, Call, M, ◌>>=◌, ◌>>◌, assert}
use async_ucx.Ffi.Traces.{Triple, bind-Triple, before-Triple, pure-Triple}
use async_ucx.Sync.{Channel}
use async_ucx.Endpoint.{Endpoint}
use async_ucx.Context.{Context}
use async_ucx.Worker.{Worker, accept}
use async_ucx.Listener
use async_ucx.Transfer.Borrows.{accept-Keeps}
use async_ucx.Lifetimes.{drop_thing, Value, arc, rc, thing, listening, unpacked}
use async_ucx.Lifetimes.Counted.{Fresh}
use async_ucx.Lifetimes.Things.{key_thing, unpack-InBalance}
use async_ucx.Lifetimes.Traces.{
  Balanced, Leaves, reordered, cloned, thing-Leaves, drop_thing-Leaves,
}
use async_ucx.Examples.{unwrapped, end_endpoint, sliced, read_buffer, listening_on}
use async_ucx.Transfer.{tag_recv}
use async_ucx.Examples.Bytes.{same_bytes}
use async_ucx.Examples.Stream
use async_ucx.Examples.Tag
use async_ucx.Examples.Rma
use async_ucx.Rma.{unpack}
use async_ucx.Examples.Parts.{
  borrows_unwrapped, sliced-Leaves, read_buffer-Leaves, next_connection-Leaves, assert-Leaves,
  shown-Leaves, listening_on-Leaves, with_worker, started-Leaves, end_endpoint-Leaves, ended-Leaves,
  keeps,
}
use async_ucx.Examples.Steps.{prints, sends, receives, gets, receives_tagged}

module _ (ucx : Ucx) (fresh : Fresh ucx) (am : Bool) (size fuel : ℕ) where
  module _ (C : Channel ℕ) (as_socket : ℕ → Option ℕ) (received : List Call → ℕ → List ℕ)
      (incoming : List Call → ℕ) where
    -- A server that listens, with the pointers to its worker.
    abbrev rest_of : Context → Listener.Listener C → List Value
    rest_of context l = thing (listening l.handle) ∷ arc context.handle ∷ []

    abbrev serving : Context → Worker → Listener.Listener C → ℕ → List Value
    serving context worker l n = rc worker.handle worker.context.handle n ∷ rest_of context l

    module _ (context : Context) (worker : Worker) where
      listens-Leaves :
          (addr sender : ℕ)
          → Leaves ucx
              (with_worker ucx (context, worker) 0)
              (listening_on ucx C as_socket worker addr sender)
              (λ l. thing (listening l.handle) ∷ with_worker ucx (context, worker) 0)
      listens-Leaves addr sender =
          listening_on-Leaves ucx (with_worker ucx (context, worker) 0) C as_socket worker addr
            sender

      -- The listener is shown, and a connection is waited for and accepted.
      module _ (l : Listener.Listener C) where
        accepted-Leaves :
            (connection : ℕ)
            → Triple
                (Balanced ucx (thing (listening l.handle) ∷ with_worker ucx (context, worker) 0))
                (unwrapped (accept ucx fuel worker connection))
                (λ _. Balanced ucx (serving context worker l 2))
                (λ _. Unit {0})
        unfolding accept
        accepted-Leaves connection =
            let v = worker.handle in
            let c = worker.context.handle in
            let held = serving context worker l 2 in
            before-Triple
              (λ t h. cloned ucx v c 1 (rest_of context l) t (
                cloned ucx v c 0 (rest_of context l) t (
                  reordered ucx (rc v c 0) (thing (listening l.handle) ∷ [])
                    (arc context.handle ∷ []) t h)))
              (borrows_unwrapped ucx held (
                accept-Keeps ucx (Balanced ucx held) (keeps ucx held) fuel worker.handle
                  connection))

        -- The endpoint and the listener are dropped, and then comes the rest.
        serves-Leaves :
            (endpoint : Endpoint) {A : Type 0} {m : M A}
            → Leaves ucx (with_worker ucx (context, worker) 1) m (λ _. [])
            → Leaves ucx
                (serving context worker l 2)
                (end_endpoint worker endpoint (rest_of context l)
                  >> (drop_thing (listening l.handle) >> m))
                (λ _. [])
        serves-Leaves endpoint h =
            let v = worker.handle in
            let c = worker.context.handle in
            bind-Triple (end_endpoint-Leaves ucx worker endpoint (rest_of context l)) (λ _.
              bind-Triple
                (before-Triple
                  (reordered ucx (thing (listening l.handle)) (rc v c 1 ∷ [])
                    (arc context.handle ∷ []))
                  (drop_thing-Leaves ucx (with_worker ucx (context, worker) 1)
                    (listening l.handle)))
                (λ _. h))

    pub stream_server-Leaves :
        (addr sender : ℕ)
        → Leaves ucx []
            (Stream.server ucx am size fuel C as_socket received incoming addr sender)
            (λ _. [])
    unfolding Stream.server
    stream_server-Leaves addr sender = bind-Triple (started-Leaves ucx fresh am size) (λ x.
        bind-Triple (listens-Leaves x.0 x.1 addr sender) (λ l.
          let before = thing (listening l.handle) ∷ with_worker ucx x 0 in
          let held = serving x.0 x.1 l 2 in
          bind-Triple (shown-Leaves ucx before C as_socket l) (λ _.
            bind-Triple (next_connection-Leaves ucx before incoming) (λ n.
              bind-Triple (accepted-Leaves x.0 x.1 l n) (λ e.
                bind-Triple (prints ucx fuel held e) (λ _.
                  bind-Triple (receives ucx fuel held e 10) (λ len.
                    bind-Triple (read_buffer-Leaves ucx held received 10) (λ buf.
                      bind-Triple (sliced-Leaves ucx held 10 len buf) (λ msg.
                        serves-Leaves x.0 x.1 l e (
                          bind-Triple (ended-Leaves ucx x.0 x.1)
                            (λ _. pure-Triple (Balanced ucx []) msg (λ t h. h))))))))))))

    -- One message of examples/tag.rs.
    expects :
        (held : List Value) (worker tag : ℕ) (text : List ℕ) {m : M (Unit {0})}
        → Leaves ucx held m (λ _. [])
        → Leaves ucx held
            (unwrapped (tag_recv ucx fuel worker tag 0x1005) >>= λ len.
              read_buffer received 0x1005 >>= λ buf.
              sliced 0x1005 len buf >>= λ msg. assert (same_bytes msg text) >> m)
            (λ _. [])
    expects held worker tag text h =
        bind-Triple (receives_tagged ucx fuel held worker tag 0x1005) (λ len.
          bind-Triple (read_buffer-Leaves ucx held received 0x1005) (λ buf.
            bind-Triple (sliced-Leaves ucx held 0x1005 len buf)
              (λ msg. bind-Triple (assert-Leaves ucx held (same_bytes msg text)) (λ _. h))))

    pub tag_server-Leaves :
        (addr sender : ℕ)
        → Leaves ucx []
            (Tag.server ucx am size fuel C as_socket received incoming addr sender)
            (λ _. [])
    unfolding Tag.server
    tag_server-Leaves addr sender = bind-Triple (started-Leaves ucx fresh am size) (λ x.
        bind-Triple (listens-Leaves x.0 x.1 addr sender) (λ l.
          let before = thing (listening l.handle) ∷ with_worker ucx x 0 in
          let held = serving x.0 x.1 l 2 in
          bind-Triple (shown-Leaves ucx before C as_socket l) (λ _.
            bind-Triple (next_connection-Leaves ucx before incoming) (λ n.
              bind-Triple (accepted-Leaves x.0 x.1 l n) (λ e. expects held x.1.handle 100 _ (
                expects held x.1.handle 101 _
                  (serves-Leaves x.0 x.1 l e (ended-Leaves ucx x.0 x.1))))))))

    unpacked-Leaves :
        (held : List Value) (e : Endpoint) (bytes : List ℕ)
        → Leaves ucx held (unpack ucx e bytes) (λ k. thing (unpacked k.handle) ∷ held)
    unpacked-Leaves held e bytes =
        thing-Leaves ucx held (unpack ucx e bytes) key_thing
          (λ w h. unpack-InBalance ucx held w h e bytes)

    -- examples/rma.rs, from the address that the client has sent.
    reads_region :
        (x : Context × Worker) (l : Listener.Listener C) (e : Endpoint) (big : Bool) (len : ℕ)
        → let held = serving x.0 x.1 l 2 in
          Leaves ucx held
            (Rma.served ucx am size fuel big received x.0 x.1 l.handle e len)
            (λ _. [])
    unfolding Rma.served
    reads_region x l e big len =
        let held = serving x.0 x.1 l 2 in
        bind-Triple (assert-Leaves ucx held (len == 8)) (λ _.
          bind-Triple (read_buffer-Leaves ucx held received 8) (λ vaddr.
            bind-Triple (receives ucx fuel held e 100) (λ len.
              bind-Triple (read_buffer-Leaves ucx held received 100) (λ buf.
                bind-Triple (sliced-Leaves ucx held 100 len buf) (λ bytes.
                  bind-Triple (unpacked-Leaves held e bytes) (λ k.
                    let more = thing (unpacked k.handle) ∷ held in
                    bind-Triple (gets ucx fuel more e 0x1000 _ k.handle) (λ _.
                      bind-Triple (read_buffer-Leaves ucx more received 0x1000) (λ buf.
                        bind-Triple (assert-Leaves ucx more _) (λ _.
                          bind-Triple (sends ucx fuel more e _) (λ _.
                            bind-Triple (drop_thing-Leaves ucx held (unpacked k.handle))
                              (λ _. serves-Leaves x.0 x.1 l e (ended-Leaves ucx x.0 x.1))))))))))))

    pub rma_server-Leaves :
        (big : Bool) (addr sender : ℕ)
        → Leaves ucx []
            (Rma.server ucx am size fuel big received C as_socket incoming addr sender)
            (λ _. [])
    unfolding Rma.server
    rma_server-Leaves big addr sender = bind-Triple (started-Leaves ucx fresh am size) (λ x.
        bind-Triple (listens-Leaves x.0 x.1 addr sender) (λ l.
          let before = thing (listening l.handle) ∷ with_worker ucx x 0 in
          let held = serving x.0 x.1 l 2 in
          bind-Triple (shown-Leaves ucx before C as_socket l) (λ _.
            bind-Triple (next_connection-Leaves ucx before incoming) (λ n.
              bind-Triple (accepted-Leaves x.0 x.1 l n) (λ e.
                bind-Triple (prints ucx fuel held e) (λ _.
                  bind-Triple (receives ucx fuel held e 8) (λ len. reads_region x l e big len)))))))
