-- ===== src/Tests/Streams.antt =====
-- Runs on streams of active messages, on their table, and on a listener.
use async_ucx.Base.{◌<◌, ◌≤◌, ◌≡◌, ◌≢◌, refl, true, false, some, [], ◌∷◌, ◌++◌, length, arith}
use async_ucx.Error.{ok, from_status}
use async_ucx.AmStream.Descriptors.{kept, freed, drop_all, descriptors, Reach_freed}
use async_ucx.Ffi
use async_ucx.Ffi.{AmHandler}
use async_ucx.Am.{AmAttr, Slice, RawMsg, msg_from_raw}
use async_ucx.AmStream.{
  AmStreamInner, new, unregister, callback, received, popped, after_pop, await_notified, wait_msg,
  resume_msg,
}
use async_ucx.AmStream.Waiting.{answer, view, viewed, wait_msg-answer}
use async_ucx.AmStream.Order.{Reach, begins, arrives, calls, Reach_in_order, Reach-Heard}
use async_ucx.AmStream.Unregistered
use async_ucx.AmStream.Unregistered.{takes, calls-unregister}
use async_ucx.AmRegistry.{
  Registry, am_register, registered, inserted, looked_up, new_stream, am_stream,
}
use async_ucx.AmRegistry.Handlers
use async_ucx.AmRegistry.Sound.{handler}
use async_ucx.AmRegistry.Handlers.{start, Reach_called, Reach_opened}
use async_ucx.Listener.{Listener, connect_handler, next, panics}
use async_ucx.Listener.Requests
use async_ucx.Listener.Requests.{Reach_requests}
use async_ucx.Tests.Setup.{calm}
use async_ucx.Tests.Parts.{queue, notify, channel}

abbrev flags : AmAttr
flags = record { flag_data = 2; flag_rndv = 4; field_reply_ep = 1 }

abbrev slice : Slice
slice = record { addr = 64; bytes = 8 ∷ 9 ∷ [] }

abbrev Stream : Type 0
Stream = AmStreamInner queue notify

-- Two tasks wait, and then a message comes.
abbrev opened : Stream
opened = new queue notify 5

abbrev one_waits : Stream
one_waits = (wait_msg queue notify 2 opened).1

abbrev two_wait : Stream
two_wait = (wait_msg queue notify 2 one_waits).1

abbrev message : RawMsg
message = msg_from_raw flags 5 [] slice 0 2

abbrev came : Stream
came = callback queue notify flags [] slice 0 2 two_wait

wait_msg-answer_example :
    viewed queue notify (wait_msg queue notify 2 came)
    ≡ answer (message ∷ []) (view queue notify came)
unfolding new callback wait_msg popped after_pop await_notified
wait_msg-answer_example = wait_msg-answer queue notify 0 came

reached : Reach queue notify flags 0 came (message ∷ []) []
unfolding new received wait_msg popped after_pop await_notified
reached = arrives [] slice 0 2 (calls (calls (begins 5)))

Reach_in_order_example : [] ++ came.msgs ≡ message ∷ []
Reach_in_order_example = Reach_in_order queue notify flags 0 reached

one_left : 0 < came.notify.waiting
unfolding new callback wait_msg popped after_pop await_notified
one_left = omega arith

Reach-Heard_example : length came.msgs ≤ came.notify.woken
Reach-Heard_example = Reach-Heard queue notify flags 0 reached one_left

calls-unregister_example :
    ((async_ucx.AmStream.Unregistered.calls queue notify 0 3 (unregister queue notify came)).0
      ≡ takes 3 (came.msgs))
    × ((async_ucx.AmStream.Unregistered.calls queue notify 0 3
          (unregister queue notify came)).1.notify
        ≡ came.notify)
calls-unregister_example = calls-unregister queue notify 0 3 came

-- The message that has come is returned.
abbrev emptied : Stream
emptied = (wait_msg queue notify 2 came).1

took : Reach queue notify flags 0 emptied (message ∷ []) (message ∷ [])
unfolding new received callback wait_msg popped after_pop await_notified
took = calls reached

Reach_freed_example :
    kept queue notify flags 0 took
    ≡ freed (drop_all 70 (message ∷ []) Ffi.start).1.trace ++ descriptors (emptied.msgs)
unfolding took reached
Reach_freed_example = Reach_freed queue notify flags 0 70 took (refl, tt)

abbrev Table : Type 0
Table = Registry queue notify

-- A stream for the messages with the identifier 5.
abbrev listed : Table
listed = (am_stream queue notify calm 70 5 (start queue notify calm 70)).1

listed_reached : Handlers.Reach queue notify calm 70 flags 0 listed
listed_reached = Handlers.next Handlers.begin (Handlers.opens 5)

listed_called : handler queue notify calm 70 listed.trace 5 ≡ some (AmHandler.stream 0)
unfolding am_stream looked_up new_stream inserted am_register registered from_status
listed_called = refl

Reach_called_example :
    (listed.am_streams 5 ≡ some 0)
    × ((listed.inners 0).id ≡ 5)
    × ((listed.inners 0).unregistered ≡ false)
    × (am_stream queue notify calm 70 5 listed ≡ (ok 0, listed))
Reach_called_example = Reach_called queue notify calm 70 flags 0 5 0 listed_reached listed_called

abbrev listening : Listener channel
listening = record { handle = 70; channel = channel.unbounded }

abbrev asked : Listener channel
asked = (connect_handler channel 4 listening).1

asked_reached : Requests.Reach channel asked (4 ∷ []) []
asked_reached = Requests.connects 4 (Requests.begins 70)

Reach_requests_example :
    ([] ++ channel.contents asked.channel ≡ 4 ∷ [])
    × ((connect_handler channel 6 asked).0 ≡ true)
    × ((next channel asked).0 ≢ panics)
Reach_requests_example = Reach_requests channel 6 asked_reached
