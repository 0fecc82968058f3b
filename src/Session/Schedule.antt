-- ===== src/Session/Schedule.antt =====
-- session_write.go: starting a write, its end, and the scheduling loop.
use h2stream.Prelude.{
  ℕ, zero, suc, ◌+◌, Bool, true, false, ◌||◌, not, Option, none, some, [], ◌∷◌, ◌++◌, ◌==◌,
  if◌then◌else◌, Run, ok, panic, out_of_fuel, ◌>>=◌,
}
use h2stream.ErrCode
use h2stream.Errors.{Error, handler_complete, handler_panicked, stream_error}
use h2stream.Flow.{Flow}
use h2stream.Frame.{
  WriteFramer, flush_frame_writer, write_go_away, write_settings_ack, write_stream_error,
  handler_panic_rst, write_window_update, write_push_promise, refused, write_ends_stream,
  stays_within_buffer,
}
use h2stream.Pipe.{PipeBuffer}
use h2stream.WriteQueue.{FrameWriteRequest}
use h2stream.Session.{
  StreamState, opened, half_closed_local, half_closed_remote, closed, Session, WriteScheduler, Net,
}
use h2stream.Session.Streams.{find, set_stream}
use h2stream.Session.Writing.{deref, reply_to_writer}
use h2stream.Session.Closing.{reset_stream, close_stream}

-- The frames that may be sent on a half-closed (local) stream.
abbrev may_follow_end : Option WriteFramer → Bool
may_follow_end (some (write_stream_error _ _)) = true
may_follow_end (some (handler_panic_rst _)) = true
may_follow_end (some (write_window_update _ _)) = true
may_follow_end _ = false

abbrev may_send : StreamState → Option WriteFramer → Bool
may_send half_closed_local w = may_follow_end w
may_send closed w = false
may_send _ w = true

abbrev pub bare : WriteFramer → FrameWriteRequest
bare w = record { write = some w; stream = none; done = none }

module _ (pb : PipeBuffer) (ws : WriteScheduler) (net : ℕ → Net) where
  abbrev pub Sess : Type 0
  Sess = Session pb.Buf ws.Sched

  -- The switch of wroteFrame.
  unfoldable pub after_write : (Sess → Run Sess) → Sess → FrameWriteRequest → Bool → Run Sess
  after_write schedule s wr true = deref s wr.stream >>= λ st. elim st.state [
    | opened ↦
        reset_stream pb ws schedule (set_stream s (record st { state = half_closed_local })) st.id
          ErrCode.no_error
    | half_closed_remote ↦ close_stream pb ws schedule s st.id handler_complete
    | _ ↦ ok s
  ]
  after_write schedule s wr false = elim wr.write [
    | some (write_stream_error id code) ↦ elim (find s id) [
      | some st ↦ close_stream pb ws schedule s id (stream_error id code)
      | none ↦ ok s
    ]
    | some (handler_panic_rst _) ↦
        deref s wr.stream >>= λ st. close_stream pb ws schedule s st.id handler_panicked
    | _ ↦ ok s
  ]

  unfoldable pub wrote_frame :
      (Sess → Run Sess) → Sess → FrameWriteRequest → Option Error → Run Sess
  unfolding after_write
  wrote_frame schedule s wr err =
      let idle_again : Sess = record s {
        writing_frame = false;
        writing_frame_async = false;
        in_flight = none;
      } in
      if s.writing_frame
      then (write_ends_stream wr.write >>= λ ends. after_write schedule idle_again wr ends >>= λ s'.
          reply_to_writer net s' wr err >>= λ s''. schedule s'')
      else panic

  -- startFrameWrite after its checks: the write itself, at once or on a goroutine of its own.
  unfoldable pub perform_write :
      (Sess → Run Sess) → Sess → FrameWriteRequest → WriteFramer → Run Sess
  unfolding wrote_frame
  perform_write schedule s wr w =
      let here = net s.writes in
      let begun : Sess = record s {
        writing_frame = true;
        needs_frame_flush = true;
        writes = s.writes + 1;
        written = s.written ++ w ∷ [];
      } in
      if stays_within_buffer w here.room
      then wrote_frame schedule (record begun { writing_frame_async = false }) wr here.failed
      else ok (record begun { writing_frame_async = true; in_flight = some wr })

  -- Whether the request's stream is in a state to send it.
  unfoldable pub allowed_now : Sess → FrameWriteRequest → Run Bool
  allowed_now s wr = elim wr.stream [
    | none ↦ ok true
    | some id ↦ deref s (some id) >>= λ st. ok (may_send st.state wr.write)
  ]

  unfoldable pub start_frame_write : (Sess → Run Sess) → Sess → FrameWriteRequest → Run Sess
  unfolding allowed_now perform_write
  start_frame_write schedule s wr =
      let go : Run Sess = elim wr.write [
        | none ↦ panic
        | some (write_push_promise _ (refused err) _) ↦
            reply_to_writer net (record s { writing_frame_async = false }) wr (some err)
        | some w ↦ perform_write schedule s wr w
      ] in
      if s.writing_frame then panic else (allowed_now s wr >>= λ fine. if fine then go else panic)

  -- scheduleFrameWrite as it is called inside its own loop, where it returns at once.
  unfoldable pub nested : Sess → Run Sess
  nested s = if s.writing_frame || s.in_frame_schedule_loop then ok s else out_of_fuel

  unfoldable pub flow_of : Sess → ℕ → Option Flow
  flow_of s id = elim (s.objects id) [
    | none ↦ none
    | some st ↦ some (record { n = st.flow; conn = some s.flow })
  ]

  -- The windows after a frame was popped.
  unfoldable pub pay : Sess → FrameWriteRequest → Option Flow → Sess
  pay s wr flow = elim flow [
    | none ↦ s
    | some f ↦
        let s' : Sess = record s { flow = elim f.conn [ none ↦ s.flow | some c ↦ c ] } in
        elim wr.stream [
          | none ↦ s'
          | some id ↦ elim (s.objects id) [
            | none ↦ s'
            | some st ↦ set_stream s' (record st { flow = f.n })
          ]
        ]
  ]

  -- One round of the loop of scheduleFrameWrite: the session, and whether to go on.
  unfoldable pub schedule_round : Sess → Run (Sess × Bool)
  unfolding start_frame_write nested flow_of pay
  schedule_round s =
      let go_away : Run (Sess × Bool) =
        start_frame_write nested (record s { need_to_send_go_away = false })
          (bare (write_go_away s.max_client_stream_id s.go_away_code))
        >>= λ s'. ok (s', true) in
      let settings_ack : Run (Sess × Bool) =
        start_frame_write nested (record s { need_to_send_settings_ack = false })
          (bare write_settings_ack)
        >>= λ s'. ok (s', true) in
      let flush : Sess → Run (Sess × Bool) = λ t.
        if t.needs_frame_flush
        then (start_frame_write nested t (bare flush_frame_writer) >>= λ t'.
            ok (record t' { needs_frame_flush = false }, true))
        else ok (t, false) in
      let popped : Run (Sess × Bool) = ws.pop (flow_of s) s.max_frame_size s.sched >>= λ (o, q).
      elim o [
        | none ↦ flush (record s { sched = q })
        | some (wr, flow) ↦
            start_frame_write nested (pay (record s { sched = q }) wr flow) wr >>= λ s'.
            ok (s', true)
      ] in
      if s.writing_frame_async
      then ok (s, false)
      else (if s.need_to_send_go_away
          then go_away
          else (if s.need_to_send_settings_ack
              then settings_ack
              else (if not s.in_go_away || s.go_away_code == ErrCode.no_error
                  then popped
                  else flush s)))

  unfoldable pub schedule_loop : ℕ → Sess → Run Sess
  schedule_loop zero s = out_of_fuel
  schedule_loop (suc f) s =
      schedule_round s >>= λ (s', more). elim more [ true ↦ schedule_loop f s' | false ↦ ok s' ]

  -- scheduleFrameWrite, for a loop of at most `fuel` rounds
  unfoldable pub schedule_frame_write : ℕ → Sess → Run Sess
  schedule_frame_write fuel s =
      let loop : Run Sess =
        schedule_loop fuel (record s { in_frame_schedule_loop = true }) >>= λ s'.
        ok (record s' { in_frame_schedule_loop = false }) in
      if s.writing_frame || s.in_frame_schedule_loop then ok s else loop
