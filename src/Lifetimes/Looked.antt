-- ===== src/Lifetimes/Looked.antt =====
-- The calls on a context that only look at it.
use async_ucx.Base.{ℕ, ◌≡◌, ◌∙◌, List, ◌∷◌, arith}
use async_ucx.Ucs.{is_ok}
use async_ucx.Error.{from_status}
use async_ucx.Ffi.{Reply, Ucx, Call, World, running}
use async_ucx.Resources.{handed, given_back, Resource, acquired}
use async_ucx.Context.{query}
use async_ucx.Lifetimes.{Value}
use async_ucx.Lifetimes.Counted.{no_more, InBalance}

module _ (ucx : Ucx) where
  pub query_lem :
      (c : ℕ) (w : World)
      → (query ucx (record { handle = c }) w).1.trace ≡ Call.context_query c ∷ w.trace
  unfolding query from_status running
  query_lem c w = ground arith

  -- A call that hands out nothing and takes nothing back.
  pub looked-InBalance :
      (v w : World) (call : Call) (own : List Value)
      → v.trace ≡ call ∷ w.trace
      → ((r : Resource) (reply : Reply) → handed r call reply ≡ 0)
      → ((r : Resource) → given_back r call ≡ 0)
      → InBalance ucx w own
      → InBalance ucx v own
  looked-InBalance v w call own e nothing keeps h r =
      rw (e, nothing r (ucx.reply w.trace call), keeps r)
        (no_more ucx (is_ok (ucx.reply w.trace call).status) (acquired ucx r w.trace)
          ∙ omega (arith, h r))
