-- ===== src/Worker/Rounds.antt =====
-- `polling` of src/ucp/worker.rs comes to its end.
use async_ucx.Base.{ℕ, zero, suc, ◌<◌, ◌≤◌, ◌≡◌, refl, true, false, List, ◌∷◌, leb, arith}
use async_ucx.Ffi.{Ucx, Call, World, ok, ◌>>=◌, pure, proceed, running}
use async_ucx.EndpointInner.{suspend}
use async_ucx.Worker.{
  Worker, progress, after_progress, progress_all, round_of_polling, polling, strong_count,
}

-- `Drained s j u` says that from `s` on the worker has work `j` times and then none, after which the state
-- is `u`.
module _ (ucx : Ucx) (w : Worker) where
  abbrev call : Call
  call = Call.worker_progress w.handle

  abbrev pub stepped : World → World
  stepped s = record s { trace = call ∷ s.trace }

  pub data Drained : World → ℕ → World → Type 0 where
    idle : {s : World} → (ucx.reply s.trace call).count ≡ 0 → Drained s zero (stepped s)
    busy :
        {s u : World} {n j : ℕ}
        → (ucx.reply s.trace call).count ≡ suc n
        → Drained (stepped s) j u
        → Drained s (suc j) u

  progress_all-Drained :
      {s u : World} {j : ℕ} (fuel : ℕ)
      → Drained s j u
      → j < fuel
      → progress_all ucx w fuel s ≡ (ok tt, u)
  unfolding progress_all progress after_progress running
  progress_all-Drained zero d h = absurd (omega arith)
  progress_all-Drained (suc fuel) (idle e) h = rw e refl
  progress_all-Drained {s = s} {u = u} (suc fuel) (busy {n = n} {j = j} e d) h =
      rw e (progress_all-Drained {s = stepped s} fuel d (omega arith))

module _ (ucx : Ucx) (w : Worker) (owners : List Call → ℕ) where
  -- The rounds of `polling` by what UCX answers: in each the worker is progressed until it is idle, after
  -- less than `inner` calls that were not, and the others run; they are over once the task's own `Rc` is
  -- the last.
  pub data Rounds (inner : ℕ) : World → ℕ → World → Type 0 where
    over : {s : World} → owners s.trace ≤ 1 → Rounds inner s zero s
    turn :
        {s u v x : World} {j k : ℕ}
        → 1 < owners s.trace
        → Drained ucx w s j u
        → j < inner
        → suspend ucx u ≡ (ok tt, v)
        → Rounds inner v k x
        → Rounds inner s (suc k) x

  -- `polling` ends as soon as the other owners of the worker are gone, with any fuel above the number of
  -- rounds that this takes and where fuel is enough for each of them: in each round it progresses the
  -- worker until that finds nothing to do, gives way once, and does nothing else.
  pub polling-Rounds :
      {s v : World} {k : ℕ} (inner fuel : ℕ)
      → Rounds inner s k v
      → k < fuel
      → polling ucx owners w inner fuel s ≡ (ok tt, v)
  unfolding polling round_of_polling strong_count ◌>>=◌ pure
  polling-Rounds inner zero r h = absurd (omega arith)
  polling-Rounds {s} inner (suc fuel) (over last) h = rw (few last)
    where
      few : {n : ℕ} → n ≤ 1 → leb n 1 ≡ true
      few h = ground arith
  polling-Rounds {s} inner (suc fuel) (turn others d lt q rest) h =
      rw (many others, progress_all-Drained ucx w inner d lt, proceed, q, proceed)
        (polling-Rounds inner fuel rest (omega arith))
    where
      many : {n : ℕ} → 1 < n → leb n 1 ≡ false
      many h = ground arith
