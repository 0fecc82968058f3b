-- ===== src/Examples/Serving.antt =====
-- A session at concrete events: the peer's settings, a stream that it opens, and its reset.
use h2stream.Prelude.{
  ℕ, ◌≡◌, refl, Bool, true, false, Option, none, some, [], ◌∷◌, ◌++◌, arith, inl, Run, ok, panic,
  out_of_fuel, ◌>>=◌, subst, sym, ap, ◌∙◌,
}
use h2stream.Prelude.Int.{IsInt32, ◌≤ℤ◌, ◌+ℤ◌, wrap32, ◌-ℤ◌, ℤ, pos}
use h2stream.Errors.{Error}
use h2stream.Frame.{Setting}
use h2stream.Flow
use h2stream.Flow.{Flow}
use h2stream.DataBuffer.{empty_buffer}
use h2stream.Pipe.{PipeBuffer}
use h2stream.Pipe.Buffer.{data_buffer}
use h2stream.WriteQueue.{FrameWriteRequest, WriteQueue, consume_queue}
use h2stream.Session.{Session, Stream, WriteScheduler, Net}
use h2stream.Session.Frames.{MetaHeaders, settings_frame, meta_headers_frame, rst_stream_frame}
use h2stream.Pipe
use h2stream.DataBuffer
use h2stream.Session.Serve.{Event, read_frame, got, serve_round}
use h2stream.Session.Reading.{
  process_initial_window_size, process_settings, process_each, process_reset_stream,
}
use h2stream.Session.Schedule.{schedule_frame_write, schedule_loop, schedule_round}
use h2stream.Frame.{stays_within_buffer, write_ends_stream}
use h2stream.Session.Opening.{process_headers, open_by_peer, accept_stream}
use h2stream.Session.Streams.{find, count_up, count_down, set_stream, state_of}
use h2stream.Session.Closing.{close_stream}
use h2stream.Session.Writing.{reply_to_writer, deref}
use h2stream.Session.Windows.{send_window_update, send_window_update32}
use h2stream.Session.Registry.{IsSession}
use h2stream.Session.Registry.Growing.{AreWindows, Grown, process_initial_window_size-Grown}
use h2stream.Session.Registry.Serving.{Reaches, start, step, Reaches-IsSession}
use h2stream.Examples.Data.{new_chunks}
use Prim.Native.String.{String}

abbrev pub flow_for : (ℕ → Option Flow) → Option ℕ → Option Flow
flow_for flows none = none
flow_for flows (some id) = flows id

abbrev pop_first :
    (ℕ → Option Flow) → ℤ → WriteQueue → Run (Option (FrameWriteRequest × Option Flow) × WriteQueue)
pop_first flows size [] = ok (none, [])
pop_first flows size (wr ∷ q) =
    consume_queue (wr ∷ q) (flow_for flows wr.stream) size (pos 1000000) >>= λ (o, q', f). elim o [
      | none ↦ ok (none, q')
      | some w ↦ ok (some (w, f), q')
    ]

-- One queue for all streams.
abbrev pub one_queue : WriteScheduler
one_queue = record {
  Sched = WriteQueue;
  open_stream = λ id p q. ok q;
  close_stream = λ id q. ok q;
  adjust_stream = λ id p q. ok q;
  push = λ wr q. ok (q ++ wr ∷ []);
  pop = pop_first;
}

abbrev pub buffer : PipeBuffer
buffer = data_buffer new_chunks

abbrev pub network : ℕ → Net
network n = record { room = 4096; failed = none; would_block = false }

abbrev pub any_setting : Setting → Option Error
any_setting x = none

abbrev pub as_is : String → String
as_is k = k

abbrev S : Type 0
S = Session buffer.Buf WriteQueue

abbrev pub fresh : S
fresh = record {
  server = true;
  has_handler = true;
  flow = pos 65535;
  inflow = pos 65535;
  sched = [];
  objects = λ id. none;
  streams = [];
  fresh_buffer = (tt, empty_buffer);
  cur_client_streams = 0;
  cur_pushed_streams = 0;
  max_client_stream_id = 0;
  max_push_promise_id = 0;
  saw_first_settings = false;
  need_to_send_settings_ack = false;
  unacked_settings = pos 1;
  initial_stream_send_window_size = pos 65535;
  initial_stream_recv_window_size = pos 65535;
  header_table_size = 4096;
  peer_max_header_list_size = 4096;
  push_enabled = true;
  adv_max_streams = 100;
  peer_max_streams = 100;
  max_frame_size = pos 16384;
  writing_frame = false;
  writing_frame_async = false;
  needs_frame_flush = false;
  in_go_away = false;
  in_frame_schedule_loop = false;
  need_to_send_go_away = false;
  go_away_code = 0;
  shutdown_timer = false;
  idle_timeout = 0;
  idle_timer = false;
  in_flight = none;
  writes = 0;
  written = [];
  replies = [];
  started = [];
}

pub fresh-IsSession : IsSession fresh
fresh-IsSession = record {
  unique = tt;
  objects_fit = λ id. refl;
  client_counted = refl;
  pushed_counted = refl;
  numbered = (omega arith, omega arith, inl refl, refl);
}

abbrev opening : MetaHeaders
opening = record {
  stream_id = 1;
  fields = (":path", "/") ∷ [];
  pseudo_fields = (":path", "/") ∷ [];
  regular_fields = [];
  truncated = false;
  stream_ended = false;
  priority = none;
}

abbrev round : S → Event → Run (Bool × S)
round s ev = serve_round buffer one_queue network any_setting as_is 20 s ev

abbrev after : S → Event → S
after s ev = elim (round s ev) [ ok (_, t) ↦ t | panic ↦ s | out_of_fuel ↦ s ]

abbrev settled : S
settled = after fresh (read_frame (got (settings_frame false [])))

abbrev opened_one : S
opened_one = after settled (read_frame (got (meta_headers_frame opening)))

abbrev reset_one : S
reset_one = after opened_one (read_frame (got (rst_stream_frame 1 8)))

-- The stream is in the map, and then closed and gone.
opened_keys : (opened_one.streams ≡ 1 ∷ []) × (reset_one.streams ≡ [])
unfolding serve_round process_settings process_each reply_to_writer schedule_frame_write
    schedule_loop schedule_round stays_within_buffer write_ends_stream process_headers find
    open_by_peer accept_stream count_up count_down set_stream process_reset_stream state_of
    close_stream deref send_window_update Pipe.len DataBuffer.len Pipe.new_pipe
    DataBuffer.empty_buffer send_window_update32
opened_keys = (refl, refl)

reaches_one : Reaches buffer one_queue network any_setting as_is 20 fresh opened_one
unfolding serve_round process_settings process_each reply_to_writer schedule_frame_write
    schedule_loop schedule_round stays_within_buffer write_ends_stream process_headers find
    open_by_peer accept_stream count_up count_down set_stream process_reset_stream state_of
    close_stream deref send_window_update Pipe.len DataBuffer.len Pipe.new_pipe
    DataBuffer.empty_buffer send_window_update32
reaches_one =
    step settled (read_frame (got (meta_headers_frame opening))) true opened_one
      (step fresh (read_frame (got (settings_frame false []))) true settled start tt refl)
      (omega arith) refl

reaches : Reaches buffer one_queue network any_setting as_is 20 fresh reset_one
unfolding serve_round process_settings process_each reply_to_writer schedule_frame_write
    schedule_loop schedule_round stays_within_buffer write_ends_stream process_headers find
    open_by_peer accept_stream count_up count_down set_stream process_reset_stream state_of
    close_stream deref send_window_update Pipe.len DataBuffer.len Pipe.new_pipe
    DataBuffer.empty_buffer send_window_update32
reaches =
    step opened_one (read_frame (got (rst_stream_frame 1 8))) true reset_one
      (step settled (read_frame (got (meta_headers_frame opening))) true opened_one
        (step fresh (read_frame (got (settings_frame false []))) true settled start tt refl)
        (omega arith) refl)
      tt refl

Reaches-IsSession_example : IsSession reset_one
Reaches-IsSession_example =
    Reaches-IsSession buffer one_queue network any_setting as_is 20 fresh reset_one fresh-IsSession
      reaches

-- The initial window grows from 65535 to 100000 while stream 1 is open.
-- The send window of a stream, if it is there.
abbrev flow_of : Option (Stream buffer.Buf) → Option ℤ
flow_of none = none
flow_of (some st) = some st.flow

abbrev InRange : Option ℤ → Type 0
InRange none = Unit
InRange (some z) = IsInt32 z × (pos 0 ≤ℤ z)

initial_window : opened_one.initial_stream_send_window_size ≡ pos 65535
unfolding serve_round process_settings process_each reply_to_writer schedule_frame_write
    schedule_loop schedule_round stays_within_buffer write_ends_stream process_headers find
    open_by_peer accept_stream count_up count_down set_stream process_reset_stream state_of
    close_stream deref send_window_update Pipe.len DataBuffer.len Pipe.new_pipe
    DataBuffer.empty_buffer send_window_update32
initial_window = refl

flow_one : flow_of (opened_one.objects 1) ≡ some (pos 65535)
unfolding serve_round process_settings process_each reply_to_writer schedule_frame_write
    schedule_loop schedule_round stays_within_buffer write_ends_stream process_headers find
    open_by_peer accept_stream count_up count_down set_stream process_reset_stream state_of
    close_stream deref send_window_update Pipe.len DataBuffer.len Pipe.new_pipe
    DataBuffer.empty_buffer send_window_update32 Flow.add wrap32 ◌-ℤ◌ ◌+ℤ◌
flow_one = refl

windows_one : AreWindows buffer one_queue opened_one opened_one.streams
windows_one k st h e =
    let here : 1 ≡ k = ground (arith, rw (opened_keys.0) at h) in
    let at_one : opened_one.objects 1 ≡ some st =
      subst (λ z. opened_one.objects z ≡ some st) (sym here) e in
    subst InRange (sym flow_one ∙ ap flow_of at_one) (omega arith, omega arith)

process_initial_window_size-Grown_example :
    Grown buffer one_queue opened_one
      (pos 100000 -ℤ opened_one.initial_stream_send_window_size)
      opened_one.streams
      (process_initial_window_size buffer one_queue opened_one 100000)
process_initial_window_size-Grown_example =
    process_initial_window_size-Grown buffer one_queue opened_one 100000
      (Reaches-IsSession buffer one_queue network any_setting as_is 20 fresh opened_one
        fresh-IsSession reaches_one)
      (omega arith) (rw initial_window (omega arith)) (rw initial_window (omega arith)) windows_one
