-- ===== src/Session/Closing.antt =====
-- session.go and stream.go: resetting, closing and half-closing a stream, and GOAWAY.
use h2stream.Prelude.{
  ℕ, Bool, true, false, ◌&&◌, not, none, some, List, [], ◌∷◌, ◌==◌, if◌then◌else◌, Run, ok, panic,
  ◌>>=◌,
}
use h2stream.Errors.{Error, eof}
use h2stream.Frame.{write_stream_error}
use h2stream.Pipe
use h2stream.Pipe.{PipeBuffer, set_err}
use h2stream.Session.{idle, half_closed_remote, closed, Stream, Session, WriteScheduler}
use h2stream.Session.Streams.{find, set_stream, count_down, delete}
use h2stream.Session.Writing.{deref, write_frame}
use h2stream.Session.Windows.{send_window_update}

abbrev pub is_empty : List ℕ → Bool
is_empty [] = true
is_empty (_ ∷ _) = false

module _ {B S : Type 0} where
  -- The first part of closeStream: the state, the counter and the map. sc.idleTimer.Reset on the nil
  -- timer panics.
  unfoldable pub drop_stream : Session B S → Stream B → Run (Session B S)
  drop_stream s st =
      let marked = set_stream s (record st { state = closed }) in
      let counted = count_down marked st.id in
      let deleted : Session B S = record counted { streams = delete st.id s.streams } in
      let timed : Run (Session B S) =
        if is_empty deleted.streams && (not (s.idle_timeout == 0) && not s.idle_timer)
        then panic
        else ok deleted in
      elim st.state [ idle ↦ panic | closed ↦ panic | _ ↦ timed ]

  -- endStream
  unfoldable pub end_stream : Session B S → Stream B → Session B S
  end_stream s st =
      set_stream s (record st { state = half_closed_remote; body = set_err st.body eof none })

module _ (pb : PipeBuffer) (ws : WriteScheduler)
    (schedule : Session pb.Buf ws.Sched → Run (Session pb.Buf ws.Sched)) where
  abbrev Sess : Type 0
  Sess = Session pb.Buf ws.Sched

  -- resetStream, for the stream and the code of the error
  unfoldable pub reset_stream : Sess → ℕ → ℕ → Run Sess
  reset_stream s id code =
      write_frame ws schedule s
        (record { write = some (write_stream_error id code); stream = none; done = none })
      >>= λ s'. elim (find s' id) [
        | some st ↦ ok (set_stream s' (record st { reset_queued = true }))
        | none ↦ ok s'
      ]

  -- The last part of closeStream: the body, the context, the closeWaiter and the scheduler. Closing
  -- a channel twice panics.
  unfoldable pub finish_stream : Sess → ℕ → Error → Run Sess
  finish_stream s id err = deref s (some id) >>= λ st.
      let st' : Stream pb.Buf = record st {
        body = set_err st.body err none;
        cancelled = true;
        waited = true;
      } in
      if st.waited
      then panic
      else (ws.close_stream id s.sched >>= λ q. ok (record (set_stream s st') { sched = q }))

  -- closeStream
  unfoldable pub close_stream : Sess → ℕ → Error → Run Sess
  unfolding drop_stream finish_stream
  close_stream s id err = deref s (some id) >>= λ st. drop_stream s st >>= λ s'.
      send_window_update ws schedule s' none (Pipe.len pb st.body) >>= λ s''.
      finish_stream s'' id err

  -- goAway
  unfoldable pub go_away : Sess → ℕ → Run Sess
  go_away s code =
      if s.in_go_away
      then ok s
      else schedule
          (record s { in_go_away = true; need_to_send_go_away = true; go_away_code = code })
