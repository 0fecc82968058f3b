-- ===== src/Session/Serve.antt =====
-- session_read.go and session.go: the dispatch on a frame, and a round of the serve loop.
use h2stream.Prelude.{
  ℕ, Bool, true, false, ◌&&◌, ◌||◌, not, Option, none, some, List, [], ◌∷◌, ◌==◌, if◌then◌else◌,
  Run, ok, ◌>>=◌,
}
use h2stream.ErrCode
use h2stream.Errors.{
  Error, eof, connection_gone, frame_too_large, stream_error, connection_error, go_away_flow_error,
  disconnected,
}
use h2stream.Frame.{Header, Setting, write_stream_error}
use h2stream.Pipe.{PipeBuffer}
use h2stream.WriteQueue.{FrameWriteRequest}
use Prim.Native.String.{String}
use h2stream.Session.{Session, WriteScheduler, Net}
use h2stream.Session.Frames.{
  Frame, settings_frame, meta_headers_frame, window_update_frame, ping_frame, data_frame,
  rst_stream_frame, priority_frame, go_away_frame, push_promise_frame, other_frame,
}
use h2stream.Session.Streams.{find, cur_open_streams}
use h2stream.Session.Writing.{write_frame}
use h2stream.Session.Windows.{note_body_read}
use h2stream.Session.Closing.{reset_stream, close_stream, go_away}
use h2stream.Session.Schedule.{wrote_frame, schedule_frame_write}
use h2stream.Session.Opening.{process_headers, create_stream}
use h2stream.Session.Reading.{
  process_settings, process_ping, process_window_update, process_reset_stream, process_data,
  process_go_away, process_priority,
}

-- readFrameResult
pub data ReadFrameResult : Type 0 where
  got : Frame → ReadFrameResult
  failed : Error → ReadFrameResult

-- What the select of the serve loop receives.
pub data Event : Type 0 where
  wants_write : FrameWriteRequest → Event
  -- from the goroutine of writeFrameAsync
  wrote : Option Error → Event
  read_frame : ReadFrameResult → Event
  body_read : ℕ → ℕ → Event
  idle_timer_fired shutdown_timer_fired graceful_shutdown : Event
  -- createStreamRequest: the parent's id, the header, and endStream
  wants_stream : ℕ → Header → Bool → Event

-- terminalReadFrameError
unfoldable pub terminal_read_frame_error : Option Error → Bool
terminal_read_frame_error none = false
terminal_read_frame_error (some (stream_error _ _)) = false
terminal_read_frame_error (some _) = true

abbrev pub is_settings : Frame → Bool
is_settings (settings_frame _ _) = true
is_settings _ = false

module _ (pb : PipeBuffer) (ws : WriteScheduler) (net : ℕ → Net) (valid : Setting → Option Error)
    (canonical : String → String) (fuel : ℕ) where
  abbrev pub Sess : Type 0
  Sess = Session pb.Buf ws.Sched

  abbrev pub schedule : Sess → Run Sess
  schedule = schedule_frame_write pb ws net fuel

  -- The type switch of processFrame.
  unfoldable pub dispatch : Sess → Frame → Run (Option Error × Sess)
  dispatch s (settings_frame ack xs) = process_settings pb ws schedule valid s ack xs
  dispatch s (meta_headers_frame f) = process_headers pb ws canonical s f
  dispatch s (window_update_frame id n) = process_window_update pb ws schedule s id n
  dispatch s (ping_frame ack id payload) = process_ping pb ws schedule s ack id payload
  dispatch s (data_frame id payload size ended) =
      process_data pb ws schedule s id payload size ended
  dispatch s (rst_stream_frame id code) = process_reset_stream pb ws schedule s id code
  dispatch s (priority_frame id p) = process_priority pb ws schedule s id p
  dispatch s (go_away_frame code) = process_go_away pb ws schedule s code
  dispatch s push_promise_frame = ok (some (connection_error ErrCode.protocol), s)
  dispatch s other_frame = ok (none, s)

  -- processFrame
  unfoldable pub process_frame : Sess → Frame → Run (Option Error × Sess)
  unfolding dispatch
  process_frame s f =
      if s.saw_first_settings
      then dispatch s f
      else (if is_settings f
          then dispatch (record s { saw_first_settings = true }) f
          else ok (some (connection_error ErrCode.protocol), s))

  -- The switch on the error at the end of processFrameFromReader.
  unfoldable pub handle_error : Sess → Error → Run (Bool × Sess)
  handle_error s (stream_error id code) =
      reset_stream pb ws schedule s id code >>= λ s'. ok (true, s')
  handle_error s go_away_flow_error =
      go_away pb ws schedule s ErrCode.flow_control >>= λ s'. ok (true, s')
  handle_error s (connection_error code) = go_away pb ws schedule s code >>= λ s'. ok (true, s')
  handle_error s _ = ok (false, s)

  -- processFrameFromReader: whether to keep the connection open.
  unfoldable pub process_frame_from_reader : Sess → ReadFrameResult → Run (Bool × Sess)
  unfolding process_frame handle_error
  process_frame_from_reader s (failed e) = elim e [
    | frame_too_large ↦ go_away pb ws schedule s ErrCode.frame_size >>= λ s'. ok (true, s')
    | eof ↦ ok (false, s)
    | connection_gone ↦ ok (false, s)
    | other ↦ handle_error s other
  ]
  process_frame_from_reader s (got f) = process_frame s f >>= λ (e, s'). elim e [
    | none ↦ ok (true, s')
    | some err ↦ handle_error s' err
  ]

  -- The select: whether the loop goes on.
  unfoldable pub handle : Sess → Event → Run (Bool × Sess)
  unfolding process_frame_from_reader
  handle s (wants_write wr) = elim wr.write [
    | some (write_stream_error id code) ↦
        reset_stream pb ws schedule s id code >>= λ s'. ok (true, s')
    | _ ↦ write_frame ws schedule s wr >>= λ s'. ok (true, s')
  ]
  handle s (wrote err) = elim s.in_flight [
    | none ↦ ok (true, s)
    | some wr ↦ wrote_frame pb ws net schedule s wr err >>= λ s'. ok (true, s')
  ]
  handle s (read_frame r) = process_frame_from_reader s r
  handle s (body_read id n) = note_body_read ws schedule s id n >>= λ s'. ok (true, s')
  handle s idle_timer_fired = go_away pb ws schedule s ErrCode.no_error >>= λ s'. ok (true, s')
  handle s shutdown_timer_fired = ok (false, s)
  handle s graceful_shutdown = go_away pb ws schedule s ErrCode.no_error >>= λ s'. ok (true, s')
  handle s (wants_stream parent header ends) =
      create_stream pb ws schedule s parent header ends >>= λ (_, s'). ok (true, s')

  -- The end of a round: the shutdown timer starts once GOAWAY is sent, and for a graceful shutdown
  -- not before all streams are done.
  unfoldable pub check_shutdown : Sess → Sess
  check_shutdown s =
      let sent = s.in_go_away && (not s.need_to_send_go_away && not s.writing_frame) in
      let graceful = s.go_away_code == ErrCode.no_error in
      let complete = graceful && cur_open_streams s == 0 in
      if sent && (not s.shutdown_timer && (not graceful || complete))
      then record s { shutdown_timer = true }
      else s

  -- A round of the serve loop.
  unfoldable pub serve_round : Sess → Event → Run (Bool × Sess)
  unfolding handle check_shutdown
  serve_round s ev = handle s ev >>= λ (more, s'). ok (more, if more then check_shutdown s' else s')

  -- closeAllStreamsOnConnClose, over the keys of the map; a stream that has left the map meanwhile is
  -- passed over.
  unfoldable pub close_all : List ℕ → Sess → Run Sess
  close_all [] s = ok s
  close_all (id ∷ ids) s = elim (find s id) [
    | none ↦ close_all ids s
    | some _ ↦ close_stream pb ws schedule s id disconnected >>= λ s'. close_all ids s'
  ]

  unfoldable pub close_all_streams_on_conn_close : Sess → Run Sess
  unfolding close_all
  close_all_streams_on_conn_close s = close_all s.streams s
