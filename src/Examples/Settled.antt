-- ===== src/Examples/Settled.antt =====
-- The examples stream.rs, tag.rs and rma.rs end with everything given back.
use async_ucx.Base.{ℕ, ◌+◌, ◌≡◌, refl, ◌∙◌, Bool, Option, List, [], ap, arith}
use async_ucx.Ffi.{Ucx, Call, Outcome, ok, err, panicked, undefined, starved, M, ◌>>=◌, pure, start}
use async_ucx.Ffi.Traces.{After, bind-Triple, pure-Triple}
use async_ucx.Sync.{Channel}
use async_ucx.Resources.{Resource, context, acquired, released}
use async_ucx.Lifetimes.Owned.{owned}
use async_ucx.Lifetimes.Counted.{Fresh}
use async_ucx.Lifetimes.Traces.{Balanced, Leaves}
use async_ucx.Examples.Stream
use async_ucx.Examples.Tag
use async_ucx.Examples.Rma
use async_ucx.Examples.Clients.{stream_client-Leaves, tag_client-Leaves, rma_client-Leaves}
use async_ucx.Examples.Servers.{stream_server-Leaves, tag_server-Leaves, rma_server-Leaves}

-- The programs, with the addresses that they are given.
pub data Program : Type 0 where
  stream_client tag_client : (server_addr : ℕ) → Program
  rma_client : (big : Bool) (address : ℕ) (key_bytes : ℕ → ℕ → List ℕ) (server_addr : ℕ) → Program
  stream_server tag_server : (addr sender : ℕ) → Program
  rma_server : (big : Bool) (addr sender : ℕ) → Program

module _ (ucx : Ucx) (C : Channel ℕ) (as_socket : ℕ → Option ℕ) (received : List Call → ℕ → List ℕ)
    (incoming : List Call → ℕ) (am : Bool) (size fuel : ℕ) where
  -- The program, with the text that the server of stream.rs prints left out.
  abbrev pub run : Program → M (Unit {0})
  run (stream_client a) = Stream.client ucx am size fuel a
  run (tag_client a) = Tag.client ucx am size fuel a
  run (rma_client big address key_bytes a) = Rma.client ucx am size fuel big address key_bytes a
  run (stream_server a s) =
      Stream.server ucx am size fuel C as_socket received incoming a s >>= λ msg. pure tt
  run (tag_server a s) = Tag.server ucx am size fuel C as_socket received incoming a s
  run (rma_server big a s) = Rma.server ucx am size fuel big received C as_socket incoming a s

  run-Leaves : Fresh ucx → (p : Program) → Leaves ucx [] (run p) (λ _. [])
  run-Leaves fresh (stream_client a) = stream_client-Leaves ucx fresh am size fuel a
  run-Leaves fresh (tag_client a) = tag_client-Leaves ucx fresh am size fuel a
  run-Leaves fresh (rma_client big address key_bytes a) =
      rma_client-Leaves ucx fresh am size fuel big address key_bytes a
  run-Leaves fresh (stream_server a s) =
      bind-Triple (stream_server-Leaves ucx fresh am size fuel C as_socket received incoming a s)
        (λ msg. pure-Triple (Balanced ucx []) tt (λ t h. h))
  run-Leaves fresh (tag_server a s) =
      tag_server-Leaves ucx fresh am size fuel C as_socket received incoming a s
  run-Leaves fresh (rma_server big a s) =
      rma_server-Leaves ucx fresh am size fuel C as_socket received incoming big a s

  nothing_held : (r : Resource) → 0 ≡ 0 + owned r []
  nothing_held (context h) = refl
  nothing_held _ = refl

  at_end :
      (o : Outcome (Unit {0})) (t : List Call)
      → o ≡ ok tt
      → After (λ _. Balanced ucx []) (λ _. Unit {0}) o t
      → Balanced ucx [] t
  at_end (ok _) t e h = h
  at_end (err x) t e h = cc
  at_end panicked t e h = cc
  at_end undefined t e h = cc
  at_end starved t e h = cc

  -- With a UCX that hands out no context that is still in use: where a client or server of stream.rs, tag.rs
  -- or rma.rs returns, it has given back everything that UCX handed out to it (configuration, context, worker, listener, region,
  -- packed key, key and address), as often as it was handed out, whatever UCX answered and the other
  -- tasks did on the way.
  pub run_settled :
      (fresh : Fresh ucx) (p : Program) (r : Resource)
      → (run p start).0 ≡ ok tt
      → acquired ucx r (run p start).1.trace ≡ released r (run p start).1.trace
  run_settled fresh p r e =
      at_end (run p start).0 (run p start).1.trace e ((run-Leaves fresh p).holds start nothing_held)
        r
      ∙ ap (λ n. released r (run p start).1.trace + n) (none_owned r)
      ∙ omega arith
    where
      none_owned : (r : Resource) → owned r [] ≡ 0
      none_owned (context h) = refl
      none_owned _ = refl
