-- ===== src/Examples/Reading.antt =====
-- Turns of the reading goroutine and the serve loop: a settings frame is read, handed over, handled and
-- given back, and an error is read meanwhile.
use h2stream.Prelude.{◌⊎◌, refl, Bool, true, false, List, [], ◌∷◌, Run, ok, panic, out_of_fuel}
use h2stream.Errors.{eof}
use h2stream.Frame.{stays_within_buffer, write_ends_stream}
use h2stream.Session.{Session}
use h2stream.Session.Frames.{settings_frame}
use h2stream.Session.Reading.{process_settings, process_each}
use h2stream.Session.Writing.{reply_to_writer}
use h2stream.Session.Schedule.{schedule_frame_write, schedule_loop, schedule_round}
use h2stream.Session.Serve.{ReadFrameResult, read_frame, got, failed, serve_round}
use h2stream.Session.Goroutines.{
  Goroutines, offering, waiting, selecting, processing, releasing, read_on, started_with,
  Interleaved, here, next, reads, takes, processes, releases,
}
use h2stream.Session.Goroutines.Serial.{Refines, Interleaved-Refines}
use h2stream.Session.Goroutines.Progress.{Moves, Rests, Interleaved-Moves}
use h2stream.Examples.Serving.{one_queue, buffer, network, any_setting, as_is, fresh}

abbrev S : Type 0
S = Session buffer.Buf one_queue.Sched

abbrev settings : ReadFrameResult
settings = got (settings_frame false [])

abbrev input : List ReadFrameResult
input = settings ∷ failed eof ∷ []

abbrev after : Run (Bool × S) → S
after (ok (_, t)) = t
after panic = fresh
after out_of_fuel = fresh

abbrev settled : S
settled =
    after (serve_round buffer one_queue network any_setting as_is 20 fresh (read_frame settings))

abbrev T : Type 0
T = Goroutines buffer.Buf one_queue.Sched

abbrev begun : T
begun = started_with buffer one_queue network any_setting as_is 20 fresh input

abbrev offered : T
offered = record begun { reader = offering settings; incoming = failed eof ∷ [] }

abbrev taken : T
taken = record offered { serving = processing settings; reader = waiting settings }

abbrev handled : T
handled = record taken { session = settled; serving = releasing; events = read_frame settings ∷ [] }

abbrev released : T
released = record handled { serving = selecting; reader = read_on settings }

turns : Interleaved buffer one_queue network any_setting as_is 20 begun released
unfolding serve_round process_settings process_each reply_to_writer schedule_frame_write
    schedule_loop schedule_round stays_within_buffer write_ends_stream
turns =
    next
      (next
        (next (next here (reads begun settings (failed eof ∷ []) refl refl))
          (takes offered settings refl refl))
        (processes taken settings true settled refl refl))
      (releases handled settings refl refl)

Interleaved-Refines_example :
    Refines buffer one_queue network any_setting as_is 20 fresh input released
Interleaved-Refines_example =
    Interleaved-Refines buffer one_queue network any_setting as_is 20 fresh input released turns

Interleaved-Moves_example :
    Moves buffer one_queue network any_setting as_is 20 released
    ⊎ Rests buffer one_queue network any_setting as_is 20 released
Interleaved-Moves_example =
    Interleaved-Moves buffer one_queue network any_setting as_is 20 fresh input released turns
