-- ===== src/Transfer/Steady.antt =====
-- Every transfer keeps every endpoint sound, and takes or gives no reference.
use async_ucx.Base.{ℕ, Bool, Option, List, ◌==◌}
use async_ucx.Ffi.{Ucx}
use async_ucx.EndpointInner.Steady.{
  Steady, bind-Steady, pure-Steady, lift-Steady, assume_init-Steady, raise_unwrap_err-Steady,
  if-Steady, ffi-Steady,
}
use async_ucx.Request.Steady.{
  poll_stream-Steady, poll_tag-Steady, await-Steady, is_ptr-Steady, finish_request-Steady,
  finish_send-Steady,
}
use async_ucx.Endpoint.{Endpoint}
use async_ucx.Endpoint.Steady.{get_handle-Steady}
use async_ucx.Transfer.{
  AmProto, stream_send, stream_recv, tag_recv_mask, tag_recv_vectored, tag_send, tag_send_vectored,
  put, get, am_send_raw, am_send_vectorized,
}

module _ (ucx : Ucx) (fuel : ℕ) where
  pub tag_recv_mask-Steady :
      (worker tag tag_mask room : ℕ) → Steady (tag_recv_mask ucx fuel worker tag tag_mask room)
  unfolding tag_recv_mask
  tag_recv_mask-Steady worker tag tag_mask room = bind-Steady (ffi-Steady ucx _) (λ r.
      bind-Steady (lift-Steady _) (λ _.
        bind-Steady (await-Steady ucx _ (poll_tag-Steady ucx) r.pointer fuel) (λ x. lift-Steady x)))

  pub tag_recv_vectored-Steady :
      (worker tag : ℕ) (rooms : List ℕ) → Steady (tag_recv_vectored ucx fuel worker tag rooms)
  unfolding tag_recv_vectored
  tag_recv_vectored-Steady worker tag rooms = bind-Steady (ffi-Steady ucx _) (λ r.
      bind-Steady (lift-Steady _) (λ _.
        bind-Steady (await-Steady ucx _ (poll_tag-Steady ucx) r.pointer fuel)
          (λ x. bind-Steady (lift-Steady x) (λ info. pure-Steady _))))

  module _ (e : Endpoint) where
    pub stream_send-Steady : (buf : List ℕ) → Steady (stream_send ucx fuel e buf)
    unfolding stream_send
    stream_send-Steady buf = bind-Steady (get_handle-Steady e) (λ h.
        bind-Steady (ffi-Steady ucx _)
          (λ r. bind-Steady (finish_send-Steady ucx fuel r.pointer) (λ _. pure-Steady _)))

    pub stream_recv-Steady : (room : ℕ) → Steady (stream_recv ucx fuel e room)
    unfolding stream_recv
    stream_recv-Steady room = bind-Steady (get_handle-Steady e) (λ h.
        bind-Steady (ffi-Steady ucx _) (λ r.
          if-Steady (r.pointer == 0) (assume_init-Steady r.length) (
            bind-Steady (is_ptr-Steady ucx r.pointer) (λ q.
              if-Steady q (await-Steady ucx _ (poll_stream-Steady ucx) r.pointer fuel)
                (raise_unwrap_err-Steady _ _)))))

    pub tag_send-Steady : (tag : ℕ) (buf : List ℕ) → Steady (tag_send ucx fuel e tag buf)
    unfolding tag_send
    tag_send-Steady tag buf = bind-Steady (get_handle-Steady e) (λ h.
        bind-Steady (ffi-Steady ucx _)
          (λ r. bind-Steady (finish_send-Steady ucx fuel r.pointer) (λ _. pure-Steady _)))

    pub tag_send_vectored-Steady :
        (tag : ℕ) (bufs : List (List ℕ)) → Steady (tag_send_vectored ucx fuel e tag bufs)
    unfolding tag_send_vectored
    tag_send_vectored-Steady tag bufs = bind-Steady (get_handle-Steady e) (λ h.
        bind-Steady (ffi-Steady ucx _)
          (λ r. bind-Steady (finish_send-Steady ucx fuel r.pointer) (λ _. pure-Steady _)))

    pub put-Steady :
        (buf : List ℕ) (remote_addr rkey : ℕ) → Steady (put ucx fuel e buf remote_addr rkey)
    unfolding put
    put-Steady buf remote_addr rkey =
        bind-Steady (get_handle-Steady e)
          (λ h. bind-Steady (ffi-Steady ucx _) (λ r. finish_request-Steady ucx fuel r.pointer))

    pub get-Steady : (room remote_addr rkey : ℕ) → Steady (get ucx fuel e room remote_addr rkey)
    unfolding get
    get-Steady room remote_addr rkey =
        bind-Steady (get_handle-Steady e)
          (λ h. bind-Steady (ffi-Steady ucx _) (λ r. finish_request-Steady ucx fuel r.pointer))

    pub am_send_vectorized-Steady :
        (id : ℕ) (header : List ℕ) (bufs : List (List ℕ)) (need_reply : Bool)
        (proto : Option AmProto)
        → Steady (am_send_vectorized ucx fuel e id header bufs need_reply proto)
    unfolding am_send_vectorized am_send_raw
    am_send_vectorized-Steady id header bufs need_reply proto =
        bind-Steady (get_handle-Steady e)
          (λ h. bind-Steady (ffi-Steady ucx _) (λ r. finish_send-Steady ucx fuel r.pointer))
