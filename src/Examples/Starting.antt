-- ===== src/Examples/Starting.antt =====
-- A new session at a concrete greeting, and calls of a stream's handler.
use h2stream.Prelude.{
  ℕ, ◌≡◌, refl, Bool, true, false, Option, none, some, List, [], ◌∷◌, Run, ok, panic, out_of_fuel,
  length, ◌≤◌,
}
use h2stream.Prelude.Int.{wrap32, ◌+ℤ◌, ◌-ℤ◌}
use h2stream.Flow
use h2stream.DataBuffer.{empty_buffer}
use h2stream.Session.{Session, Stream, opened}
use h2stream.Session.Opening.{fresh_stream}
use h2stream.Session.Handlers.{CallError, already_replied, Wakes, reported, reply}
use h2stream.Session.Replies.{reply_once}
use h2stream.WriteQueue.{FrameWriteRequest}
use h2stream.Frame.{Header}
use h2stream.Session.Writing.{reply_to_writer}
use h2stream.Session.Schedule.{schedule_frame_write, schedule_loop, schedule_round}
use h2stream.Frame.{stays_within_buffer, write_ends_stream}
use h2stream.Session.Starting.{Greeting, default_session_config, new_session, handshake}
use h2stream.Session.Registry.{IsSession}
use h2stream.Session.Registry.Serving.{start}
use h2stream.Session.Registry.Starting.{handshake-IsSession}
use h2stream.Examples.Serving.{one_queue, buffer, network, any_setting, as_is}
use h2stream.Session.Writing
use h2stream.WriteQueue

abbrev S : Type 0
S = Session buffer.Buf one_queue.Sched

abbrev made : S
made = new_session buffer one_queue true true (default_session_config 4096) [] (tt, empty_buffer)

-- The preface is shortened here to two bytes.
abbrev greeting : Greeting
greeting = record { received = some (80 ∷ 82 ∷ []); preface_written = true; flushed = true }

abbrev shaken : Run (Bool × S)
shaken =
    handshake buffer one_queue (schedule_frame_write buffer one_queue network 20) (80 ∷ 82 ∷ [])
      made greeting

abbrev session_of : Run (Bool × S) → S
session_of (ok (_, s)) = s
session_of panic = made
session_of out_of_fuel = made

handshake_succeeds : shaken ≡ ok (true, session_of shaken)
unfolding handshake new_session Writing.write_frame WriteQueue.stream_id reply_to_writer
    schedule_frame_write schedule_loop schedule_round WriteQueue.consume_queue WriteQueue.consume
    stays_within_buffer write_ends_stream wrap32 ◌-ℤ◌ Flow.available Flow.add ◌+ℤ◌
handshake_succeeds = refl

handshake-IsSession_example : IsSession (session_of shaken)
handshake-IsSession_example =
    handshake-IsSession buffer one_queue network any_setting as_is 20 true true
      (default_session_config 4096) [] (tt, empty_buffer) (80 ∷ 82 ∷ []) greeting
      (session_of shaken) (session_of shaken) handshake_succeeds start

-- The stream 1 of a client, answered by the server.
abbrev asked : Stream buffer.Buf
asked = fresh_stream buffer one_queue made 1 opened

reply_once_example :
    (e : Option CallError) × (st' : Stream buffer.Buf) × (wrs : List FrameWriteRequest) × (reply
        true asked [] false 7 true
        (reported none)
      ≡ ok (e, st', wrs))
    × (length wrs ≤ 1)
    × ((header' : Header) (end' : Bool) (ch' : ℕ) (serving' : Bool) (w' : Wakes)
        → reply true st' header' end' ch' serving' w' ≡ ok (some already_replied, st', []))
unfolding fresh_stream
reply_once_example = reply_once true asked [] false 7 true (reported none) refl refl refl
