-- ===== src/AmRegistry.antt =====
-- src/ucp/endpoint/am.rs: `Worker::am_stream` and `Worker::am_register`, on the worker's table of
-- streams (`am_streams` of src/ucp/worker.rs) and the handlers that UCX has.
pub mod Sound
pub mod Kept
pub mod Handlers
use async_ucx.Base.{
  ℕ, suc, ◌+◌, Bool, true, false, Option, none, some, List, [], ◌∷◌, update, if◌then◌else◌,
}
use async_ucx.Error.{Result, ok, err, from_status}
use async_ucx.Ffi.{Ucx, AmHandler, Call}
use async_ucx.Sync.{SegQueue, Notify}
use async_ucx.Am.{RawMsg}
use async_ucx.AmStream.{Turn, wait_msg, AmStreamInner, new, unregister}

module _ (Q : SegQueue RawMsg) (N : Notify) where
  -- The calls so far, newest first; the table, from an identifier to the address of the `Rc`; the streams
  -- by address. An `Rc` in the table keeps its stream alive.
  pub record Registry : Type 0 where
    pub trace : List Call
    pub am_streams : ℕ → Option ℕ
    pub inners : ℕ → AmStreamInner Q N
    pub next : ℕ

  -- The end of `am_register`: a stream that had the identifier leaves the table and is unregistered.
  unfoldable pub replaced : Option ℕ → ℕ → Registry → Registry
  replaced none id r = r
  replaced (some p) id r = record r {
    am_streams = update r.am_streams id none;
    inners = update r.inners p (unregister Q N (r.inners p));
  }

  unfoldable pub registered : Result (Unit {0}) → ℕ → Registry → Result (Unit {0}) × Registry
  unfolding replaced
  registered (err e) id r = (err e, r)
  registered (ok _) id r = (ok tt, replaced (r.am_streams id) id r)

  -- The end of `am_stream`: the new stream is put in the table, or dropped with the error.
  unfoldable pub inserted : ℕ → ℕ → Result (Unit {0}) × Registry → Result ℕ × Registry
  inserted id p (err e, r) = (err e, r)
  inserted id p (ok _, r) = (ok p, record r { am_streams = update r.am_streams id (some p) })

  -- `AmStream::wait_msg`, for the stream at this address.
  unfoldable pub wait_msg_on : ℕ → ℕ → Registry → Turn × Registry
  wait_msg_on fuel p r =
      let (t, s) = wait_msg Q N fuel (r.inners p) in (t, record r { inners = update r.inners p s })

  module _ (ucx : Ucx) (worker : ℕ) where
    unfoldable pub am_register : ℕ → AmHandler → Registry → Result (Unit {0}) × Registry
    unfolding registered
    am_register id handler r =
        let call = Call.set_am_recv_handler worker id handler in
        registered (from_status (ucx.reply r.trace call).status) id
          (record r { trace = call ∷ r.trace })

    unfoldable pub new_stream : ℕ → Registry → Result ℕ × Registry
    unfolding inserted
    new_stream id r = inserted id r.next (
        am_register id (AmHandler.stream r.next)
          (record r { inners = update r.inners r.next (new Q N id); next = suc r.next }))

    unfoldable pub looked_up : ℕ → Registry → Option ℕ → Result ℕ × Registry
    looked_up id r none = new_stream id r
    looked_up id r (some p) = (ok p, r)

    unfoldable pub am_stream : ℕ → Registry → Result ℕ × Registry
    unfolding looked_up
    am_stream id r = looked_up id r (r.am_streams id)
