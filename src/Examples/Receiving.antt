-- ===== src/Examples/Receiving.antt =====
-- A session that reads a DATA frame of padding alone, which it gives back.
use h2stream.Prelude.{
  ℕ, ◌+◌, ◌≡◌, refl, Bool, false, true, some, none, [], ◌∷◌, arith, Run, ok, panic, out_of_fuel,
}
use h2stream.Prelude.Int.{pos, ◌+ℤ◌, ◌-ℤ◌, wrap32}
use h2stream.Flow
use h2stream.DataBuffer.{empty_buffer}
use h2stream.Priority.{set}
use h2stream.WriteQueue
use h2stream.WriteQueue.{WriteQueue}
use h2stream.Frame.{stays_within_buffer, write_ends_stream}
use h2stream.Session.{Session, WriteScheduler, opened}
use h2stream.Session.Streams.{find, set_stream, state_of}
use h2stream.Session.Writing.{reply_to_writer, deref, write_frame}
use h2stream.Session.Windows.{send_window_update32}
use h2stream.Session.Opening.{fresh_stream}
use h2stream.Session.Starting.{default_session_config, new_session}
use h2stream.Session.Schedule.{schedule_frame_write, schedule_loop, schedule_round}
use h2stream.Session.Frames.{data_frame}
use h2stream.Session.Reading.{process_data}
use h2stream.Session.Serve.{Event, read_frame, got, serve_round}
use h2stream.Session.Announcing.{announcing}
use h2stream.Session.Announcing.Serving.{Lowered}
use h2stream.Session.Announcing.Reaching.{begin, turn, Serves-Lowered}
use h2stream.Examples.Serving.{one_queue, buffer, network, any_setting, as_is}

abbrev counting : WriteScheduler
counting = announcing one_queue

abbrev S : Type 0
S = Session buffer.Buf (WriteQueue × ℕ)

abbrev made : S
made =
    new_session buffer counting true true (default_session_config 4096) ([], 0) (tt, empty_buffer)

-- Stream 1 is open, with 65535 bytes in both receive windows.
abbrev ready : S
ready = record made {
  inflow = pos 65535;
  saw_first_settings = true;
  streams = 1 ∷ [];
  objects =
      set (λ _. none) 1
        (some (record (fresh_stream buffer counting made 1 opened) { inflow = pos 65535 }));
}

abbrev padding : Event
padding = read_frame (got (data_frame 1 [] 3 false))

abbrev session_of : Run (Bool × S) → S
session_of (ok (_, s)) = s
session_of panic = ready
session_of out_of_fuel = ready

abbrev after : S
after = session_of (serve_round buffer counting network any_setting as_is 20 ready padding)

padding_round :
    serve_round buffer counting network any_setting as_is 20 ready padding ≡ ok (true, after)
unfolding serve_round process_data state_of find set_stream deref send_window_update32 write_frame
    WriteQueue.stream_id reply_to_writer schedule_frame_write schedule_loop schedule_round
    stays_within_buffer write_ends_stream WriteQueue.consume_queue WriteQueue.consume Flow.take
    Flow.available Flow.add wrap32 ◌-ℤ◌ ◌+ℤ◌ fresh_stream new_session
padding_round = refl

Serves-Lowered_example : Lowered (0 + 3) ready after
Serves-Lowered_example =
    Serves-Lowered buffer one_queue network any_setting as_is 20 ready after (0 + 3) (omega arith)
      (turn 0 ready padding true after begin (omega arith) padding_round)
