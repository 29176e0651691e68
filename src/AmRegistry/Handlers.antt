-- ===== src/AmRegistry/Handlers.antt =====
-- The streams in the worker's table are those that UCX calls.
use async_ucx.Base.{ℕ, ◌≡◌, false, none, some, List, [], update, arith}
use async_ucx.Error.{ok}
use async_ucx.Ffi.{Ucx, AmHandler}
use async_ucx.Sync.{SegQueue, Notify}
use async_ucx.Am.{RawMsg, AmAttr, Slice}
use async_ucx.AmStream.{AmStreamInner, new, received, resume_msg}
use async_ucx.AmRegistry.{wait_msg_on, Registry, am_register, looked_up, am_stream}
use async_ucx.AmRegistry.Sound.{
  handler, IsSound, am_register-IsSound, am_stream-IsSound, am_stream_listed,
}
use async_ucx.AmRegistry.Kept.{IsKept, callback-IsKept, wait_msg-IsKept, resume_msg-IsKept}

module _ (Q : SegQueue RawMsg) (N : Notify) (ucx : Ucx) (worker : ℕ) where
  kept-IsSound :
      (r : Registry Q N) (q : ℕ) (t : AmStreamInner Q N)
      → IsSound Q N ucx worker r
      → IsKept Q N (r.inners q) t
      → IsSound Q N ucx worker (record r { inners = update r.inners q t })
  kept-IsSound r q t sound kept = record {
    listed_called = sound.listed_called;
    called_listed = sound.called_listed;
    own_id = λ j p h. ground (arith, sound.own_id j p, kept);
    registered_still = λ j p h. ground (arith, sound.registered_still j p, kept);
    made = sound.made;
  }

  abbrev pub start : Registry Q N
  start = record { trace = []; am_streams = λ _. none; inners = λ _. new Q N 0; next = 0 }

  module _ (c : AmAttr) (fuel : ℕ) where
    -- Registrations, messages that UCX gives to the stream that it has for their identifier, and calls of
    -- `wait_msg` on any stream.
    pub data Step (r : Registry Q N) : Registry Q N → Type 0 where
      registers : (id a : ℕ) → Step r (am_register Q N ucx worker id (AmHandler.foreign a) r).1
      opens : (id : ℕ) → Step r (am_stream Q N ucx worker id r).1
      arrives :
          (id p : ℕ) (header : List ℕ) (slice : Slice) (reply attr : ℕ)
          → handler Q N ucx worker r.trace id ≡ some (AmHandler.stream p)
          → Step r (record r {
            inners = update r.inners p (received Q N c header slice reply attr (r.inners p)).1;
          })
      waits_on : (p : ℕ) → Step r (wait_msg_on Q N fuel p r).1
      goes_on :
          (p : ℕ)
          → Step r (record r { inners = update r.inners p (resume_msg Q N fuel (r.inners p)).1 })

    pub data Reach : Registry Q N → Type 0 where
      begin : Reach start
      next : {r s : Registry Q N} → Reach r → Step r s → Reach s

    Step-IsSound :
        {r s : Registry Q N} → IsSound Q N ucx worker r → Step r s → IsSound Q N ucx worker s
    unfolding received wait_msg_on
    Step-IsSound {r} h (registers id a) = am_register-IsSound Q N ucx worker r h id a
    Step-IsSound {r} h (opens id) = am_stream-IsSound Q N ucx worker r id h
    Step-IsSound {r} h (arrives id p header slice reply attr e) =
        kept-IsSound r p _ h (callback-IsKept Q N c header slice reply attr (r.inners p))
    Step-IsSound {r} h (waits_on p) = kept-IsSound r p _ h (wait_msg-IsKept Q N fuel (r.inners p))
    Step-IsSound {r} h (goes_on p) = kept-IsSound r p _ h (resume_msg-IsKept Q N fuel (r.inners p))

    start-IsSound : IsSound Q N ucx worker start
    start-IsSound = record {
      listed_called = λ j p h. cc;
      called_listed = λ j p h. cc;
      own_id = λ j p h. cc;
      registered_still = λ j p h. cc;
      made = λ j p h. cc;
    }

    pub Reach-IsSound : {r : Registry Q N} → Reach r → IsSound Q N ucx worker r
    Reach-IsSound begin = start-IsSound
    Reach-IsSound (next before step) = Step-IsSound (Reach-IsSound before) step

    -- Whatever handlers were registered, and with messages and waiting tasks in between: where UCX gives
    -- the messages of an identifier to a stream, the worker's table holds that stream, so that it is alive,
    -- it has this identifier, it is registered, and `am_stream` returns it with no call of UCX.
    pub Reach_called :
        {r : Registry Q N} (id p : ℕ)
        → Reach r
        → handler Q N ucx worker r.trace id ≡ some (AmHandler.stream p)
        → (r.am_streams id ≡ some p)
          × ((r.inners p).id ≡ id)
          × ((r.inners p).unregistered ≡ false)
          × (am_stream Q N ucx worker id r ≡ (ok p, r))
    unfolding am_stream looked_up
    Reach_called id p reached h =
        let sound = Reach-IsSound reached in
        let listed = sound.called_listed id p h in
        (listed, sound.own_id id p listed, sound.registered_still id p listed, rw listed)

    -- Where `am_stream` returns a stream, in a state that calls can reach, the handler that UCX has for the
    -- identifier after the call is that of this stream.
    pub Reach_opened :
        {r : Registry Q N} (id p : ℕ)
        → Reach r
        → (am_stream Q N ucx worker id r).0 ≡ ok p
        → handler Q N ucx worker (am_stream Q N ucx worker id r).1.trace id
          ≡ some (AmHandler.stream p)
    Reach_opened {r} id p reached h =
        let sound = am_stream-IsSound Q N ucx worker r id (Reach-IsSound reached) in
        sound.listed_called id p (am_stream_listed Q N ucx worker r id p h)
