-- ===== src/AmStream/Unregistered.antt =====
-- A stream after `unregister`: what its calls return, and the tasks that waited.
use async_ucx.Base.{ℕ, zero, suc, ◌≡◌, refl, ap, ◌∙◌, true, List, [], ◌∷◌}
use async_ucx.Sync.{SegQueue, Notify, head, tail}
use async_ucx.Am.{RawMsg}
use async_ucx.AmStream.{Turn, returned, AmStreamInner, unregister, wait_msg}
use async_ucx.AmStream.Waiting.{View, call_over}

-- `k` takes from a queue: its messages in order, then none.
abbrev pub takes : ℕ → List RawMsg → List Turn
takes zero q = []
takes (suc k) q = returned (head q) ∷ takes k (tail q)

module _ (Q : SegQueue RawMsg) (N : Notify) (fuel : ℕ) where
  -- `k` calls of `wait_msg`, one after the other, and the state after them.
  abbrev pub calls : ℕ → AmStreamInner Q N → List Turn × AmStreamInner Q N
  calls zero s = ([], s)
  calls (suc k) s = let (t, u) = wait_msg Q N (suc fuel) s in let (ts, v) = calls k u in (t ∷ ts, v)

  calls_over :
      (k : ℕ) (s : AmStreamInner Q N)
      → s.unregistered ≡ true
      → ((calls k s).0 ≡ takes k (Q.contents s.msgs))
        × (N.view (calls k s).1.notify ≡ N.view s.notify)
  calls_over zero s over = (refl, refl)
  calls_over (suc k) s over =
      let u = (wait_msg Q N (suc fuel) s).1 in
      let e = call_over Q N fuel s over in
      let (answers, quiet) = calls_over k u (ap (λ (x : Turn × View). x.1.over) e ∙ over) in
      (
        ap (λ (x : Turn × View). x.0 ∷ (calls k u).0) e
            ∙ ap (λ (x : List Turn). returned (head (Q.contents s.msgs)) ∷ x)
                (answers ∙ ap (λ (x : Turn × View). takes k x.1.queue) e),
        quiet ∙ ap (λ (x : Turn × View). x.1.waiters) e,
      )

  -- After `unregister`, calls return at once: the messages that are left, in order, and then none. The
  -- tasks that waited before are not woken, by `unregister` or by these calls, however many there are.
  pub calls-unregister :
      (k : ℕ) (s : AmStreamInner Q N)
      → ((calls k (unregister Q N s)).0 ≡ takes k (Q.contents s.msgs))
        × (N.view (calls k (unregister Q N s)).1.notify ≡ N.view s.notify)
  unfolding unregister
  calls-unregister k s = calls_over k (record s { unregistered = true }) refl
