-- ===== src/Ffi/Laws.antt =====
-- The laws of the monad.
use async_ucx.Base.{◌≡◌, refl}
use async_ucx.Ffi.{M, ◌>>=◌, pure}

pub pure-bind : {A B : Type 0} (a : A) (f : A → M B) → (pure a >>= f) ≡ f a
unfolding ◌>>=◌ pure
pure-bind a f = refl
