-- ===== src/Examples/Steps.antt =====
-- The steps of the examples that make and drop nothing.
use async_ucx.Base.{ℕ, List}
use async_ucx.Ffi.{Ucx, Call}
use async_ucx.Endpoint.{Endpoint, print_to_stderr}
use async_ucx.Transfer.Borrows.{
  print_to_stderr-Keeps, tag_recv-Keeps, stream_send-Keeps, stream_recv-Keeps, tag_send-Keeps,
  get-Keeps,
}
use async_ucx.Lifetimes.{Value}
use async_ucx.Lifetimes.Traces.{Balanced, Leaves}
use async_ucx.Examples.{unwrapped}
use async_ucx.Transfer.{stream_send, stream_recv, tag_send, tag_recv, get}
use async_ucx.Examples.Parts.{borrows, borrows_unwrapped, keeps}

module _ (ucx : Ucx) (fuel : ℕ) where
  module _ (held : List Value) (endpoint : Endpoint) where
    abbrev Same : List Call → Type 0
    Same = Balanced ucx held

    pub prints : Leaves ucx held (print_to_stderr endpoint) (λ _. held)
    prints = borrows ucx held (print_to_stderr-Keeps ucx Same (keeps ucx held) endpoint)

    pub sends :
        (buf : List ℕ) → Leaves ucx held (unwrapped (stream_send ucx fuel endpoint buf)) (λ _. held)
    sends buf =
        borrows_unwrapped ucx held (stream_send-Keeps ucx Same (keeps ucx held) fuel endpoint buf)

    pub receives :
        (room : ℕ) → Leaves ucx held (unwrapped (stream_recv ucx fuel endpoint room)) (λ _. held)
    receives room =
        borrows_unwrapped ucx held (stream_recv-Keeps ucx Same (keeps ucx held) fuel endpoint room)

    pub sends_tagged :
        (tag : ℕ) (buf : List ℕ)
        → Leaves ucx held (unwrapped (tag_send ucx fuel endpoint tag buf)) (λ _. held)
    sends_tagged tag buf =
        borrows_unwrapped ucx held (tag_send-Keeps ucx Same (keeps ucx held) fuel endpoint tag buf)

    pub gets :
        (room address key : ℕ)
        → Leaves ucx held (unwrapped (get ucx fuel endpoint room address key)) (λ _. held)
    gets room address key =
        borrows_unwrapped ucx held
          (get-Keeps ucx Same (keeps ucx held) fuel endpoint room address key)

  pub receives_tagged :
      (held : List Value) (worker tag room : ℕ)
      → Leaves ucx held (unwrapped (tag_recv ucx fuel worker tag room)) (λ _. held)
  receives_tagged held worker tag room =
      borrows_unwrapped ucx held
        (tag_recv-Keeps ucx (Balanced ucx held) (keeps ucx held) fuel worker tag room)
