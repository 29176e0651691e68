-- ===== src/Transfer/Sends.antt =====
-- The sends, `put`, `get` and `flush`: what each returns, for every way in which UCX can answer.
use async_ucx.Base.{ℕ, ◌≡◌, ◌≢◌, refl, Bool, Option, List, [], ◌∷◌, ◌++◌, length, if◌then◌else◌}
use async_ucx.Ucs.Codes.{ucs_ok}
use async_ucx.Error.{from_error, from_status}
use async_ucx.Error.Laws.{from_status_error}
use async_ucx.Ffi.{
  Ucx, AmFlag, Payload, Call, World, Outcome, ok, err, panicked, undefined, starved, proceed, ◌>>=◌,
  pure, ffi, running,
}
use async_ucx.EndpointInner.{check}
use async_ucx.Request.Finish.{Ends, finish_request-Ends, finish_send-Ends}
use async_ucx.Endpoint.{Endpoint, get_handle, flush}
use async_ucx.Transfer.{
  total_len, AmProto, proto_flags, am_payload, stream_send, stream_recv, tag_send,
  tag_send_vectored, put, get, am_send_vectorized,
}

-- The outcome with another value.
abbrev pub with_value : {A B : Type 0} → B → Outcome A → Outcome B
with_value b (ok _) = ok b
with_value b (err e) = err e
with_value b panicked = panicked
with_value b undefined = undefined
with_value b starved = starved

proceed-pure :
    {A B : Type 0} (b : B) (o : Outcome A) (v : World)
    → proceed (λ _. pure b) o v ≡ (with_value b o, v)
unfolding pure
proceed-pure b (ok a) v = refl
proceed-pure b (err e) v = refl
proceed-pure b panicked v = refl
proceed-pure b undefined v = refl
proceed-pure b starved v = refl

pub get_handle_healthy :
    (e : Endpoint) (w : World)
    → (w.inners e.inner).status ≡ ucs_ok
    → get_handle e w ≡ (ok e.handle, w)
unfolding get_handle check from_status running
get_handle_healthy e w h = rw h

pub get_handle_failed :
    (e : Endpoint) (w : World)
    → (w.inners e.inner).status ≢ ucs_ok
    → get_handle e w ≡ (err (from_error (w.inners e.inner).status), w)
unfolding get_handle check running
get_handle_failed e w h = rw (from_status_error (w.inners e.inner).status h)

-- The state after a call and the pointer that it returned.
abbrev pub after : World → Call → World
after w c = record w { trace = c ∷ w.trace }

module _ (ucx : Ucx) (fuel : ℕ) (e : Endpoint) (w : World) where
  abbrev pub pointer : Call → ℕ
  pointer c = (ucx.reply w.trace c).pointer

  -- How the call `c` ends, made at `w`.
  abbrev pub CallEnds : Call → Outcome (Unit {0}) → World → Type 0
  CallEnds c o v = Ends ucx fuel (after w c) (pointer c) o v

  module _ (healthy : (w.inners e.inner).status ≡ ucs_ok) where
    -- On an endpoint without an error, `stream_send` makes its one call and ends as UCX's answer says;
    -- a success returns the length of the buffer.
    pub stream_send-Ends :
        (buf : List ℕ) (o : Outcome (Unit {0})) (v : World)
        → CallEnds (Call.stream_send_nb e.handle (Payload.contig buf)) o v
        → stream_send ucx fuel e buf w ≡ (with_value (length buf) o, v)
    unfolding stream_send ◌>>=◌ ffi
    stream_send-Ends buf o v h =
        rw (get_handle_healthy e w healthy, proceed, finish_send-Ends ucx fuel _ _ o v h)
          (proceed-pure (length buf) o v)

    -- On an endpoint without an error, `tag_send` makes its one call with the tag and ends as UCX's
    -- answer says; a success returns the length of the buffer.
    pub tag_send-Ends :
        (tag : ℕ) (buf : List ℕ) (o : Outcome (Unit {0})) (v : World)
        → CallEnds (Call.tag_send_nb e.handle (Payload.contig buf) tag) o v
        → tag_send ucx fuel e tag buf w ≡ (with_value (length buf) o, v)
    unfolding tag_send ◌>>=◌ ffi
    tag_send-Ends tag buf o v h =
        rw (get_handle_healthy e w healthy, proceed, finish_send-Ends ucx fuel _ _ o v h)
          (proceed-pure (length buf) o v)

    -- On an endpoint without an error, `tag_send_vectored` makes its one call with all the buffers and
    -- ends as UCX's answer says; a success returns the sum of their lengths.
    pub tag_send_vectored-Ends :
        (tag : ℕ) (bufs : List (List ℕ)) (o : Outcome (Unit {0})) (v : World)
        → CallEnds (Call.tag_send_nb e.handle (Payload.iov bufs) tag) o v
        → tag_send_vectored ucx fuel e tag bufs w ≡ (with_value (total_len bufs) o, v)
    unfolding tag_send_vectored ◌>>=◌ ffi
    tag_send_vectored-Ends tag bufs o v h =
        rw (get_handle_healthy e w healthy, proceed, finish_send-Ends ucx fuel _ _ o v h)
          (proceed-pure (total_len bufs) o v)

    -- On an endpoint without an error, `put` makes its one call and ends as UCX's answer says.
    pub put-Ends :
        (buf : List ℕ) (remote_addr rkey : ℕ) (o : Outcome (Unit {0})) (v : World)
        → CallEnds (Call.put_nb e.handle buf remote_addr rkey) o v
        → put ucx fuel e buf remote_addr rkey w ≡ (o, v)
    unfolding put ◌>>=◌ ffi
    put-Ends buf remote_addr rkey o v h =
        rw (get_handle_healthy e w healthy, proceed) (finish_request-Ends ucx fuel _ _ o v h)

    -- On an endpoint without an error, `get` makes its one call and ends as UCX's answer says.
    pub get-Ends :
        (room remote_addr rkey : ℕ) (o : Outcome (Unit {0})) (v : World)
        → CallEnds (Call.get_nb e.handle room remote_addr rkey) o v
        → get ucx fuel e room remote_addr rkey w ≡ (o, v)
    unfolding get ◌>>=◌ ffi
    get-Ends room remote_addr rkey o v h =
        rw (get_handle_healthy e w healthy, proceed) (finish_request-Ends ucx fuel _ _ o v h)

    -- On an endpoint without an error, `flush` makes its one call and ends as UCX's answer says.
    pub flush-Ends :
        (o : Outcome (Unit {0})) (v : World)
        → CallEnds (Call.ep_flush_nb e.handle) o v
        → flush ucx fuel e w ≡ (o, v)
    unfolding flush ◌>>=◌ ffi
    flush-Ends o v h =
        rw (get_handle_healthy e w healthy, proceed) (finish_request-Ends ucx fuel _ _ o v h)

    -- The call that `am_send_vectorized` makes.
    abbrev pub am_call : ℕ → List ℕ → List (List ℕ) → Bool → Option AmProto → Call
    am_call id header bufs need_reply proto =
        Call.am_send_nbx e.handle id header (am_payload bufs)
          (proto_flags proto ++ (if need_reply then AmFlag.reply ∷ [] else []))

    -- On an endpoint without an error, `am_send_vectorized` makes one call, with the flags of the
    -- protocol and of the reply that were asked for, and ends as UCX's answer says.
    pub am_send_vectorized-Ends :
        (id : ℕ) (header : List ℕ) (bufs : List (List ℕ)) (need_reply : Bool)
        (proto : Option AmProto) (o : Outcome (Unit {0})) (v : World)
        → CallEnds (am_call id header bufs need_reply proto) o v
        → am_send_vectorized ucx fuel e id header bufs need_reply proto w ≡ (o, v)
    unfolding am_send_vectorized ◌>>=◌ ffi
    am_send_vectorized-Ends id header bufs need_reply proto o v h =
        rw (get_handle_healthy e w healthy, proceed) (finish_send-Ends ucx fuel _ _ o v h)

  -- With an error status every transfer over the endpoint returns that error and calls nothing.
  pub transfers_refused :
      (w.inners e.inner).status ≢ ucs_ok
      → (room tag addr rkey id : ℕ) (buf header : List ℕ) (bufs : List (List ℕ)) (need_reply : Bool)
        (proto : Option AmProto)
      → let x = from_error (w.inners e.inner).status in
        (stream_send ucx fuel e buf w ≡ (err x, w))
        × (stream_recv ucx fuel e room w ≡ (err x, w))
        × (tag_send ucx fuel e tag buf w ≡ (err x, w))
        × (tag_send_vectored ucx fuel e tag bufs w ≡ (err x, w))
        × (put ucx fuel e buf addr rkey w ≡ (err x, w))
        × (get ucx fuel e room addr rkey w ≡ (err x, w))
        × (flush ucx fuel e w ≡ (err x, w))
        × (am_send_vectorized ucx fuel e id header bufs need_reply proto w ≡ (err x, w))
  unfolding stream_send stream_recv tag_send tag_send_vectored put get flush am_send_vectorized
      ◌>>=◌
  transfers_refused h room tag addr rkey id buf header bufs need_reply proto =
      let refused = get_handle_failed e w h in
      (
        rw (refused, proceed),
        rw (refused, proceed),
        rw (refused, proceed),
        rw (refused, proceed),
        rw (refused, proceed),
        rw (refused, proceed),
        rw (refused, proceed),
        rw (refused, proceed),
      )
