-- ===== src/Session/Registry/Serving.antt =====
-- session.go and session_read.go: the registry of streams under the rounds of the serve loop.
use h2stream.Prelude.{
  ℕ, ◌≡◌, ◌<◌, ◌^◌, Bool, true, false, Option, none, some, List, [], ◌∷◌, length, if◌then◌else◌,
  Run, ok, ◌>>=◌, Post, Post-bind, Post-if, Post-ok,
}
use Prim.Native.String.{String}
use h2stream.ErrCode
use h2stream.Errors.{
  Error, eof, connection_gone, frame_too_large, stream_error, connection_error, go_away_flow_error,
  disconnected,
}
use h2stream.Frame.{Setting, WriteFramer, write_stream_error}
use h2stream.Pipe.{PipeBuffer}
use h2stream.WriteQueue.{FrameWriteRequest}
use h2stream.Session.{Session, WriteScheduler, Net}
use h2stream.Session.Frames.{
  Frame, settings_frame, meta_headers_frame, window_update_frame, ping_frame, data_frame,
  rst_stream_frame, priority_frame, go_away_frame, push_promise_frame, other_frame,
}
use h2stream.Session.Writing.{write_frame}
use h2stream.Session.Windows.{note_body_read}
use h2stream.Session.Closing.{reset_stream, close_stream, go_away}
use h2stream.Session.Schedule.{wrote_frame, schedule_frame_write}
use h2stream.Session.Opening.{create_stream}
use h2stream.Session.Serve.{
  ReadFrameResult, got, failed, Event, wants_write, wrote, read_frame, body_read, idle_timer_fired,
  shutdown_timer_fired, graceful_shutdown, wants_stream, is_settings, dispatch, process_frame,
  handle_error, process_frame_from_reader, handle, check_shutdown, serve_round, close_all,
  close_all_streams_on_conn_close,
}
use h2stream.Session.Registry.{IsSession}
use h2stream.Session.Registry.Updates.{Post-find}
use h2stream.Session.Registry.Writing.{Keeps, write_frame-Post, note_body_read-Post}
use h2stream.Session.Registry.Closing.{reset_stream-Post, close_stream-Post, go_away-Post}
use h2stream.Session.Registry.Scheduling.{wrote_frame-Post, schedule_frame_write-Keeps}
use h2stream.Session.Registry.Opening.{After, process_headers-Post}
use h2stream.Session.Registry.Creating.{create_stream-Post}
use h2stream.Session.Registry.Reading.{
  process_settings-Post, process_ping-Post, process_window_update-Post, process_reset_stream-Post,
  process_go_away-Post, process_priority-Post,
}
use h2stream.Session.Registry.Data.{process_data-Post}

-- A frame as the framer gives it, with a stream id of 31 bits, that is not a DATA frame with both
-- END_STREAM and padding.
abbrev pub IsPlain : Frame → Type 0
IsPlain (meta_headers_frame f) = f.stream_id < 2 ^ 31
IsPlain (data_frame _ payload size ended) = ended ≡ true → size ≡ length payload
IsPlain _ = Unit {0}

abbrev pub IsPlainEvent : Event → Type 0
IsPlainEvent (read_frame (got f)) = IsPlain f
IsPlainEvent _ = Unit {0}

module _ (pb : PipeBuffer) (ws : WriteScheduler) (net : ℕ → Net) (valid : Setting → Option Error)
    (canonical : String → String) (fuel : ℕ) where
  abbrev Sess : Type 0
  Sess = Session pb.Buf ws.Sched

  abbrev again : Sess → Run Sess
  again = schedule_frame_write pb ws net fuel

  keeps : Keeps ws again
  keeps = schedule_frame_write-Keeps pb ws net fuel

  dispatch-Post :
      (s : Sess) (f : Frame)
      → IsSession s
      → IsPlain f
      → Post (dispatch pb ws net valid canonical fuel s f) (After pb ws)
  unfolding dispatch
  dispatch-Post s (settings_frame ack xs) v p =
      process_settings-Post pb ws again keeps valid s ack xs v
  dispatch-Post s (meta_headers_frame f) v p = process_headers-Post pb ws canonical s f v p
  dispatch-Post s (window_update_frame id n) v p =
      process_window_update-Post pb ws again keeps s id n v
  dispatch-Post s (ping_frame ack id payload) v p =
      process_ping-Post pb ws again keeps s ack id payload v
  dispatch-Post s (data_frame id payload size ended) v p =
      process_data-Post pb ws again keeps s id payload size ended v p
  dispatch-Post s (rst_stream_frame id code) v p =
      process_reset_stream-Post pb ws again keeps s id code v
  dispatch-Post s (priority_frame id q) v p = process_priority-Post pb ws again keeps s id q v
  dispatch-Post s (go_away_frame code) v p = process_go_away-Post pb ws again keeps s code v
  dispatch-Post s push_promise_frame v p = v
  dispatch-Post s other_frame v p = v

  process_frame-Post :
      (s : Sess) (f : Frame)
      → IsSession s
      → IsPlain f
      → Post (process_frame pb ws net valid canonical fuel s f) (After pb ws)
  unfolding process_frame
  process_frame-Post s f v p =
      Post-if (After pb ws) s.saw_first_settings (dispatch pb ws net valid canonical fuel s f) _
        (dispatch-Post s f v p)
        (Post-if (After pb ws) (is_settings f)
          (dispatch pb ws net valid canonical fuel (record s { saw_first_settings = true }) f)
          (ok _) (dispatch-Post (record s { saw_first_settings = true }) f v p) v)

  -- The result of a handler of events: whether to go on, and the session.
  abbrev Next : Bool × Sess → Type 0
  Next (_, s) = IsSession s

  then-Post : (r : Run Sess) (b : Bool) → Post r IsSession → Post (r >>= λ s'. ok (b, s')) Next
  then-Post r b h = Post-bind IsSession Next r (λ s'. ok (b, s')) h (λ s' v'. v')

  handle_error-Post :
      (s : Sess) (e : Error)
      → IsSession s
      → Post (handle_error pb ws net valid canonical fuel s e) Next
  unfolding handle_error
  handle_error-Post s (stream_error id code) v =
      then-Post (reset_stream pb ws again s id code) true
        (reset_stream-Post pb ws again keeps s id code v)
  handle_error-Post s go_away_flow_error v =
      then-Post (go_away pb ws again s ErrCode.flow_control) true
        (go_away-Post pb ws again keeps s ErrCode.flow_control v)
  handle_error-Post s (connection_error code) v =
      then-Post (go_away pb ws again s code) true (go_away-Post pb ws again keeps s code v)
  handle_error-Post s _ v = v

  process_frame_from_reader-Post :
      (s : Sess) (r : ReadFrameResult)
      → IsSession s
      → IsPlainEvent (read_frame r)
      → Post (process_frame_from_reader pb ws net valid canonical fuel s r) Next
  unfolding process_frame_from_reader
  process_frame_from_reader-Post s (failed frame_too_large) v p =
      then-Post (go_away pb ws again s ErrCode.frame_size) true
        (go_away-Post pb ws again keeps s ErrCode.frame_size v)
  process_frame_from_reader-Post s (failed eof) v p = v
  process_frame_from_reader-Post s (failed connection_gone) v p = v
  process_frame_from_reader-Post s (failed e) v p = handle_error-Post s e v
  process_frame_from_reader-Post s (got f) v p =
      Post-bind (After pb ws) Next (process_frame pb ws net valid canonical fuel s f) _
        (process_frame-Post s f v p) (λ (e, s') w. answered s' e w)
    where
      answered :
          (s' : Sess) (e : Option Error)
          → IsSession s'
          → Post
              (elim e as (λ x. Run (Bool × Sess)) [
                | none ↦ ok (true, s')
                | some err ↦ handle_error pb ws net valid canonical fuel s' err
              ])
              Next
      answered s' none w = w
      answered s' (some err) w = handle_error-Post s' err w

  handle-Post :
      (s : Sess) (ev : Event)
      → IsSession s
      → IsPlainEvent ev
      → Post (handle pb ws net valid canonical fuel s ev) Next
  unfolding handle
  handle-Post s (wants_write wr) v p = go wr.write
    where
      go :
          (w : Option WriteFramer)
          → Post
              (handle pb ws net valid canonical fuel s (wants_write (record wr { write = w })))
              Next
      go (some (write_stream_error id code)) =
          then-Post (reset_stream pb ws again s id code) true
            (reset_stream-Post pb ws again keeps s id code v)
      go w =
          then-Post (write_frame ws again s (record wr { write = w })) true
            (write_frame-Post ws again keeps s (record wr { write = w }) v)
  handle-Post s (wrote err) v p = go s.in_flight
    where
      go :
          (o : Option FrameWriteRequest)
          → Post
              (elim o as (λ x. Run (Bool × Sess)) [
                | none ↦ ok (true, s)
                | some wr ↦ wrote_frame pb ws net again s wr err >>= λ s'. ok (true, s')
              ])
              Next
      go none = v
      go (some wr) =
          then-Post (wrote_frame pb ws net again s wr err) true
            (wrote_frame-Post pb ws net again keeps s wr err v)
  handle-Post s (read_frame r) v p = process_frame_from_reader-Post s r v p
  handle-Post s (body_read id n) v p =
      then-Post (note_body_read ws again s id n) true (note_body_read-Post ws again keeps s id n v)
  handle-Post s idle_timer_fired v p =
      then-Post (go_away pb ws again s ErrCode.no_error) true
        (go_away-Post pb ws again keeps s ErrCode.no_error v)
  handle-Post s shutdown_timer_fired v p = v
  handle-Post s graceful_shutdown v p =
      then-Post (go_away pb ws again s ErrCode.no_error) true
        (go_away-Post pb ws again keeps s ErrCode.no_error v)
  handle-Post s (wants_stream parent header ends) v p =
      Post-bind (λ (_, t). IsSession t) Next (create_stream pb ws again s parent header ends) _
        (create_stream-Post pb ws again keeps s parent header ends v) (λ (_, t) w. w)

  check_shutdown-IsSession :
      (s : Sess) (b : Bool)
      → IsSession s
      → IsSession (if b then record s { shutdown_timer = true } else s)
  check_shutdown-IsSession s true v = v
  check_shutdown-IsSession s false v = v

  round-IsSession :
      (s : Sess) (more : Bool)
      → IsSession s
      → IsSession (if more then check_shutdown pb ws net valid canonical fuel s else s)
  unfolding check_shutdown
  round-IsSession s true v = check_shutdown-IsSession s _ v
  round-IsSession s false v = v

  serve_round-Post :
      (s : Sess) (ev : Event)
      → IsSession s
      → IsPlainEvent ev
      → Post (serve_round pb ws net valid canonical fuel s ev) Next
  unfolding serve_round
  serve_round-Post s ev v p =
      Post-bind Next Next (handle pb ws net valid canonical fuel s ev) _ (handle-Post s ev v p)
        (λ (more, s') w. round-IsSession s' more w)

  close_all-Post :
      (ids : List ℕ) (s : Sess)
      → IsSession s
      → Post (close_all pb ws net valid canonical fuel ids s) IsSession
  unfolding close_all
  close_all-Post [] s v = v
  close_all-Post (id ∷ ids) s v =
      Post-find IsSession s id _ (close_all pb ws net valid canonical fuel ids s)
        (λ st e.
          Post-bind IsSession IsSession (close_stream pb ws again s id disconnected) _
            (close_stream-Post pb ws again keeps s id disconnected v)
            (λ s' v'. close_all-Post ids s' v'))
        (λ e. close_all-Post ids s v)

  -- The sessions that the serve loop reaches from `s` by rounds whose events are plain.
  pub data Reaches (s : Sess) : Sess → Type 0 where
    start : Reaches s s
    step :
        (t : Sess) (ev : Event) (more : Bool) (t' : Sess)
        → Reaches s t
        → IsPlainEvent ev
        → serve_round pb ws net valid canonical fuel t ev ≡ ok (more, t')
        → Reaches s t'

  -- From a session that keeps the registry of its streams, the serve loop reaches only sessions
  -- that keep it: the map has exactly the streams that are not closed, each once and under its own
  -- id, the two counters are the numbers of its even and odd keys modulo 2^32, and no id is above
  -- the largest one of its side, or 2^31 - 1. The frames have ids of 31 bits, and no DATA frame has
  -- both END_STREAM and padding.
  pub Reaches-IsSession : (s t : Sess) → IsSession s → Reaches s t → IsSession t
  Reaches-IsSession s t v start = v
  Reaches-IsSession s t v (step u ev more _ r p e) =
      Post-ok Next (serve_round pb ws net valid canonical fuel u ev) (more, t)
        (serve_round-Post u ev (Reaches-IsSession s u v r) p) e

  -- Closing all streams at the end of the connection keeps the registry too.
  pub close_all_streams-IsSession :
      (s t : Sess)
      → IsSession s
      → close_all_streams_on_conn_close pb ws net valid canonical fuel s ≡ ok t
      → IsSession t
  unfolding close_all_streams_on_conn_close
  close_all_streams-IsSession s t v e =
      Post-ok IsSession (close_all pb ws net valid canonical fuel s.streams s) t
        (close_all-Post s.streams s v) e
