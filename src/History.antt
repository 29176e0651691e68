-- ===== src/History.antt =====
-- The endpoints of a program over time: src/ucp/endpoint/mod.rs, with the transfers of its children,
-- called in any order on endpoints that the caller owns.
use async_ucx.Base.{ℕ, ◌<◌, ◌≡◌, Bool, Option, List, arith}
use async_ucx.Ucs.{Status}
use async_ucx.Ffi.{Ucx, EpParams, World, start}
use async_ucx.EndpointInner.{callback, set_status, suspend}
use async_ucx.EndpointInner.Invariant.{AllSound, callback_stores}
use async_ucx.EndpointInner.Steady.{suspend-Steady}
use async_ucx.Endpoint.{Endpoint, clone, create, flush, print_to_stderr, close, drop}
use async_ucx.Endpoint.Lifecycle.{create-AllSound, drop-AllSound, clone-AllSound}
use async_ucx.Endpoint.Steady.{flush-Steady, print_to_stderr-Steady, close-Steady}
use async_ucx.Transfer.{
  AmProto, stream_send, stream_recv, tag_send, tag_send_vectored, tag_recv_mask, tag_recv_vectored,
  put, get, am_send_vectorized,
}
use async_ucx.Transfer.Steady.{
  stream_send-Steady, stream_recv-Steady, tag_send-Steady, tag_send_vectored-Steady,
  tag_recv_mask-Steady, tag_recv_vectored-Steady, put-Steady, get-Steady, am_send_vectorized-Steady,
}

-- Who calls a method holds an `Endpoint`, which is a strong reference.
abbrev pub Owned : World → Endpoint → Type 0
Owned w e = 0 < (w.inners e.inner).strong

module _ (ucx : Ucx) (fuel : ℕ) where
  -- One call of the library, or what the error handler and the closes of other tasks do while a task
  -- waits. `tag_recv` and the endpoint's `am_send` are calls of `tag_recv_mask` and `am_send_vectorized`.
  pub data Step (w : World) : World → Type 0 where
    creates : (worker : ℕ) (params : EpParams) → Step w (create ucx worker params w).1
    clones : (e : Endpoint) → Owned w e → Step w (clone e w).1
    drops : (e : Endpoint) → Owned w e → Step w (drop e w).1
    closes : (e : Endpoint) (force : Bool) → Owned w e → Step w (close ucx fuel e force w).1
    flushes : (e : Endpoint) → Owned w e → Step w (flush ucx fuel e w).1
    prints : (e : Endpoint) → Owned w e → Step w (print_to_stderr e w).1
    stream_sends :
        (e : Endpoint) (buf : List ℕ) → Owned w e → Step w (stream_send ucx fuel e buf w).1
    stream_recvs : (e : Endpoint) (room : ℕ) → Owned w e → Step w (stream_recv ucx fuel e room w).1
    tag_sends :
        (e : Endpoint) (tag : ℕ) (buf : List ℕ)
        → Owned w e
        → Step w (tag_send ucx fuel e tag buf w).1
    tag_recvs :
        (worker tag tag_mask room : ℕ)
        → Step w (tag_recv_mask ucx fuel worker tag tag_mask room w).1
    tag_sends_vectored :
        (e : Endpoint) (tag : ℕ) (bufs : List (List ℕ))
        → Owned w e
        → Step w (tag_send_vectored ucx fuel e tag bufs w).1
    tag_recvs_vectored :
        (worker tag : ℕ) (rooms : List ℕ) → Step w (tag_recv_vectored ucx fuel worker tag rooms w).1
    puts :
        (e : Endpoint) (buf : List ℕ) (remote_addr rkey : ℕ)
        → Owned w e
        → Step w (put ucx fuel e buf remote_addr rkey w).1
    gets :
        (e : Endpoint) (room remote_addr rkey : ℕ)
        → Owned w e
        → Step w (get ucx fuel e room remote_addr rkey w).1
    am_sends :
        (e : Endpoint) (id : ℕ) (header : List ℕ) (bufs : List (List ℕ)) (need_reply : Bool)
        (proto : Option AmProto)
        → Owned w e
        → Step w (am_send_vectorized ucx fuel e id header bufs need_reply proto w).1
    waits : Step w (suspend ucx w).1

  pub data Reach : World → Type 0 where
    begin : Reach start
    next : {w v : World} → Reach w → Step w v → Reach v

  Step-AllSound : {w v : World} → AllSound w → Step w v → AllSound v
  Step-AllSound {w} s (creates worker params) = create-AllSound ucx worker params w s
  Step-AllSound {w} s (clones e o) = clone-AllSound e w s o
  Step-AllSound {w} s (drops e o) = drop-AllSound e w s o
  Step-AllSound {w} s (closes e force o) = (close-Steady ucx fuel e force).sound w s
  Step-AllSound {w} s (flushes e o) = (flush-Steady ucx fuel e).sound w s
  Step-AllSound {w} s (prints e o) = (print_to_stderr-Steady e).sound w s
  Step-AllSound {w} s (stream_sends e buf o) = (stream_send-Steady ucx fuel e buf).sound w s
  Step-AllSound {w} s (stream_recvs e room o) = (stream_recv-Steady ucx fuel e room).sound w s
  Step-AllSound {w} s (tag_sends e tag buf o) = (tag_send-Steady ucx fuel e tag buf).sound w s
  Step-AllSound {w} s (tag_recvs worker tag tag_mask room) =
      (tag_recv_mask-Steady ucx fuel worker tag tag_mask room).sound w s
  Step-AllSound {w} s (tag_sends_vectored e tag bufs o) =
      (tag_send_vectored-Steady ucx fuel e tag bufs).sound w s
  Step-AllSound {w} s (tag_recvs_vectored worker tag rooms) =
      (tag_recv_vectored-Steady ucx fuel worker tag rooms).sound w s
  Step-AllSound {w} s (puts e buf addr rkey o) = (put-Steady ucx fuel e buf addr rkey).sound w s
  Step-AllSound {w} s (gets e room addr rkey o) = (get-Steady ucx fuel e room addr rkey).sound w s
  Step-AllSound {w} s (am_sends e id header bufs need_reply proto o) =
      (am_send_vectorized-Steady ucx fuel e id header bufs need_reply proto).sound w s
  Step-AllSound {w} s waits = (suspend-Steady ucx).sound w s

  start_sound : AllSound start
  start_sound p = ground arith

  -- After any of these calls, one after another and on endpoints that the caller owns, and with error handlers
  -- and closes of other tasks during every wait, each endpoint is sound: UCX has its one weak reference
  -- exactly while the endpoint is open and owned, and a closed endpoint has released it and has an error
  -- status.
  pub Reach-AllSound : {w : World} → Reach w → AllSound w
  Reach-AllSound begin = start_sound
  Reach-AllSound (next r step) = Step-AllSound (Reach-AllSound r) step

  -- In a state that calls can reach, the error handler of an endpoint that has an owner stores the
  -- status and calls nothing: its branch for a dead endpoint is never taken.
  pub Reach-callback :
      {w : World} (arg ep : ℕ) (status : Status)
      → Reach w
      → 0 < (w.inners arg).strong
      → callback ucx arg ep status w ≡ set_status arg status w
  Reach-callback {w} arg ep status r owned =
      callback_stores ucx arg ep status w (Reach-AllSound r) owned
