-- ===== src/Lib.antt =====
-- A model of async-ucx, the asynchronous Rust bindings of the communication library UCX, and what
-- holds of it.
--
-- The program. A context (src/ucp/mod.rs) makes workers (worker.rs), which a task drives: it polls the
-- worker, or sleeps until UCX has an event. A worker makes endpoints (endpoint/mod.rs): by a socket
-- address, by a worker address, or by accepting a connection that a listener (listener.rs) has been
-- asked for. An endpoint is a handle of UCX and an `Rc` of shared state, the status and the mark that
-- it is closed. UCX holds one weak reference to that state as the user data of its error handler.
-- Transfers (stream.rs, tag.rs, rma.rs and am.rs beside it) call UCX with a handle and get a status
-- pointer (ucx1-sys/src/lib.rs): null, an encoded error, or a request, which a future polls until UCX
-- has completed it. Active messages (am.rs) arrive in a callback with data that the message owns,
-- refers to in UCX, or still has to fetch; a stream keeps those of one identifier in order for the
-- tasks that wait for one. Contexts live as long as a worker or a memory region points to them.
--
-- The files.
-- - Ucs: ucx1-sys/src/lib.rs, `UCS_PTR_IS_ERR` and its kin. Ucs/Codes has the status codes. The
--   generated enumeration is the interface `Abi`: the bytes of the codes, with the laws that the
--   headers of UCX document.
-- - Error: src/lib.rs, `Error` and its conversions from a status and from a pointer.
-- - Ffi: the monad in which the code runs. A state has the calls of UCX so far, newest first, and the
--   shared state of all endpoints by address; an outcome is a result, an error, a panic, undefined
--   behaviour or the end of the fuel. Ffi/Calls has the calls and what answers them: UCX is a
--   parameter, any function from the calls so far to answers and to the events that reach the program
--   while a task waits (the error handler, and other tasks that close an endpoint).
-- - EndpointInner: `EndpointInner` and the error handler that `create` registers. The counts of its
--   `Rc` are part of it, and a decrement of zero is undefined behaviour.
-- - Request: `RequestHandle`, `poll_normal`, `poll_stream`, `poll_tag` and `poll_recv`.
-- - Endpoint: `Endpoint` from `create` to `Drop`, with `flush` and `close`. Endpoint/Peers has the end of
--   the tests in rma.rs, tag.rs and am.rs, which closes two endpoints that are connected.
-- - Transfer: `stream_send`, `stream_recv`, `tag_send`, `tag_send_vectored`, `tag_recv` and its kin,
--   `put`, `get` and `am_send` with its kin.
-- - Connect: `connect_socket`, `connect_addr` and `accept`.
-- - History: any sequence of these calls.
-- - Request/Wakers: a poll of `RequestHandle` against the completion of its request, step by step, with
--   the waker in the `Request` of src/ucp/mod.rs. Request/Dropped: a `RequestHandle` that is dropped
--   before it is ready.
-- - Context: `Config` and `Context`. Worker: `Worker` and `WorkerAddress`, with the loops `polling` and
--   `event_poll`; Worker/Polling has when they sleep, and Worker/Rounds the end of `polling`.
-- - Sync: what the code takes from crossbeam, tokio and futures, as interfaces with the laws that their
--   documentation states: a queue, a notification, a channel and a waker.
-- - AmStream: `AmStreamInner` and the callback that `am_stream` gives to UCX. A call of `wait_msg`
--   returns or waits; a task that was woken goes on with `resume_msg`. AmStream/Waiting has the abstract
--   view of a stream, AmStream/Order its histories, AmStream/Unregistered its end, and
--   AmStream/Descriptors the data of UCX that its messages hold.
-- - AmRegistry: `am_stream` and `am_register` on the worker's table of streams, against the handlers that
--   UCX has.
-- - Listener: `Listener`, `ConnectionRequest` and the handler of connection requests.
-- - Resources: what UCX hands out and gets back, read off the calls. Lifetimes: the drops of
--   `Arc<Context>`, `Rc<Worker>` and `MemoryHandle`, those of `Config`, `Listener`, `RKeyBuffer`, `RKey`
--   and `WorkerAddress` (Lifetimes/Things), and any sequence of making, cloning, using and dropping
--   them (Lifetimes/History). Lifetimes/Traces and Lifetimes/Contexts have the same balance for one
--   operation after another in a program, where the calls that only borrow (Ffi/Borrows, Transfer/Borrows) keep it.
-- - Rma: `MemoryHandle`, `RKeyBuffer` and `RKey` of rma.rs.
-- - Am: `AmData`, `RawMsg` and `AmMsg`: what a message holds, receiving its data, replying to it and
--   releasing it.
-- - Examples: the programs of examples/. Examples/Stream, Examples/Tag and Examples/Rma have the client
--   and the server of the file of their name, with the drops of the locals at the end of the function
--   and of the task that polls at the end of `main`. Examples/Bytes has the conversions to bytes.
--   Examples/Parts, Steps, Clients and Servers account for the parts of these programs, and
--   Examples/Settled for the whole; Examples/Prompt and
--   Examples/Served run the client and the server of rma.rs where UCX completes each call at once.
--   Examples/Bench and Examples/Threads are the benchmarks, whose loops take a number of rounds, with
--   Examples/Rounds for the client and Examples/Shares for the connections of the threads.
-- - BuildScript: ucx1-sys/build.rs, over what has been done so far.
-- - Base: shared definitions and lemmas on numbers, bit masks and lists. Tests: runs of the theorems
--   at concrete inputs.
--
-- Bounds and fuel. Addresses are 64 bits wide. The loops that wait for a request count their polls
-- by fuel: with a request that UCX completes after a number of polls, any larger fuel is enough. A
-- request that is never completed keeps the program waiting, here as there. The fuel of `wait_msg`
-- counts rounds until it returns or waits, and two are always enough, as a notification keeps one
-- permit at most. That of `polling` counts its rounds, and any fuel above the number of rounds until
-- the other owners are gone is enough.
--
-- Not modelled: the bytes that UCX writes into buffers, but for the copy of active message data (what
-- a rendezvous writes is a parameter); logging; threads, since endpoints stay on one; which endpoints
-- hold an `Rc<Worker>` (the loops of a worker take the count as a function of the calls so far, and
-- Lifetimes has clones of the `Rc` whoever holds them); clones and drops of
-- an `Endpoint` by other tasks while a task waits: others run the error handlers and end their closes there,
-- and clone, drop or create before and after a call; the drops of a panic that unwinds, after which nothing is
-- said; a status byte that is no variant, where `transmute` is undefined and `Abi` has some status; what is printed. In the programs of examples/ the bytes that UCX leaves in a buffer are a
-- function of the calls so far; the tasks that answer the clients, with their counters, the start of
-- the threads of the second benchmark and how its tasks interleave are left out. The build script takes the file system and the programs that it runs as a
-- parameter.
pub mod Base
pub mod Ucs
pub mod Error
pub mod Ffi
pub mod EndpointInner
pub mod Request
pub mod Endpoint
pub mod Transfer
pub mod Connect
pub mod History
pub mod Am
pub mod Context
pub mod Worker
pub mod Sync
pub mod Listener
pub mod AmStream
pub mod BuildScript
pub mod AmRegistry
pub mod Resources
pub mod Rma
pub mod Lifetimes
pub mod Examples
pub mod Tests
