-- ===== src/Tests/Transfers.antt =====
-- Runs on sends and on waiting for requests.
use async_ucx.Base.{◌≡◌, refl, true, none, [], ◌∷◌, arith}
use async_ucx.Error.{Error, from_error, from_status, connection_reset}
use async_ucx.Error
use async_ucx.Ffi.{Call, Payload, World, ok, err, running}
use async_ucx.EndpointInner.{suspend, deliver}
use async_ucx.Request.{poll_normal, await}
use async_ucx.Request.Await.{Looked, freed, await-Looked}
use async_ucx.Request.Await.Looked.{first, neither}
use async_ucx.Endpoint.{flush}
use async_ucx.Transfer.{
  stream_send, stream_recv, tag_send, tag_send_vectored, put, get, am_send_vectorized,
}
use async_ucx.Transfer.Sends.{after, transfers_refused}
use async_ucx.Error.{from_ptr}
use async_ucx.Tests.Setup.{calm, slow, ep, one_open, one_closed}

-- The state after a call of a send, and after the two looks of a first poll, a wait and a third look.
abbrev send_call : Call
send_call = Call.stream_send_nb 70 (Payload.contig (1 ∷ 2 ∷ []))

abbrev sent : World
sent = after one_open send_call

abbrev looked : World
looked = record one_open {
  trace =
      Call.request_check_status 4096
      ∷ Call.yielded
      ∷ Call.request_check_status 4096
      ∷ Call.waker_register 4096
      ∷ Call.request_check_status 4096
      ∷ send_call
      ∷ [];
}

slow-Looked : Looked slow (poll_normal slow) 4096 sent 1 (Error.Result.ok tt) looked
unfolding poll_normal suspend deliver from_status running
slow-Looked = neither refl refl refl (first refl)

await-Looked_example :
    await slow (poll_normal slow) 4096 2 sent
    ≡ (ok (Error.Result.ok tt), freed slow (poll_normal slow) 4096 looked)
await-Looked_example = await-Looked slow (poll_normal slow) 4096 2 slow-Looked (omega arith)

abbrev reset : Error
reset = connection_reset

transfers_refused_example :
    (stream_send calm 2 ep [] one_closed ≡ (err reset, one_closed))
    × (stream_recv calm 2 ep 4 one_closed ≡ (err reset, one_closed))
    × (tag_send calm 2 ep 9 [] one_closed ≡ (err reset, one_closed))
    × (tag_send_vectored calm 2 ep 9 [] one_closed ≡ (err reset, one_closed))
    × (put calm 2 ep [] 16 5 one_closed ≡ (err reset, one_closed))
    × (get calm 2 ep 4 16 5 one_closed ≡ (err reset, one_closed))
    × (flush calm 2 ep one_closed ≡ (err reset, one_closed))
    × (am_send_vectorized calm 2 ep 4 [] [] true none one_closed ≡ (err reset, one_closed))
unfolding from_error
transfers_refused_example =
    transfers_refused calm 2 ep one_closed (λ h. cc) 4 9 16 5 4 [] [] [] true none
