-- ===== src/Session/Announcing/Handling.antt =====
-- session.go, serve: the connection's receive window under the events of the loop.
use h2stream.Prelude.{
  ℕ, ◌≡◌, refl, Bool, true, Option, none, some, Run, ok, ◌>>=◌, Post, Post-bind, Post-any, Post-if,
}
use h2stream.Prelude.Int.{ℤ, IsInt32}
use h2stream.ErrCode
use h2stream.Errors.{
  Error, frame_too_large, eof, connection_gone, connection_error, stream_error, go_away_flow_error,
}
use h2stream.Frame.{Setting, WriteFramer, write_stream_error}
use h2stream.Pipe.{PipeBuffer}
use h2stream.WriteQueue.{FrameWriteRequest}
use h2stream.Session.{Session, WriteScheduler, Net}
use h2stream.Session.Writing.{write_frame}
use h2stream.Session.Windows.{send_window_update, note_body_read}
use h2stream.Session.Schedule.{schedule_frame_write, wrote_frame}
use h2stream.Session.Closing.{reset_stream, go_away}
use h2stream.Session.Opening.{create_stream}
use h2stream.Session.Frames.{Frame}
use h2stream.Session.Serve.{
  got, failed, Event, wants_write, wrote, read_frame, body_read, idle_timer_fired,
  shutdown_timer_fired, graceful_shutdown, wants_stream, is_settings, dispatch, process_frame,
  handle_error, process_frame_from_reader, handle,
}
use h2stream.Session.Announcing.{announced, announcing, credit, Honest}
use h2stream.Session.Announcing.Rounds.{schedule_frame_write-Honest}
use h2stream.Session.Announcing.Opening.{At, at_end, go_away-At, create_stream-At}
use h2stream.Session.Announcing.Reading.{reset_stream-At}
use h2stream.Session.{StreamState, idle, opened, half_closed_local, half_closed_remote, closed}
use h2stream.Session.Writing.{deref}
use h2stream.Session.Quiet.Writing.{wrote_quietly}
use h2stream.Session.Announcing.Looping.{Honest-Quiet}
use h2stream.Session.Announcing.Updates.{write_frame-Honest, send_window_update-Honest}
use h2stream.Session.Announcing.Serving.{
  Lowered, IsTame, IsTameFrame, size_of, data_size_of, spent_nothing, spent_then, spending,
  Post-all_in, dispatch-Lowered,
}
use Prim.Native.String.{String}

module _ (pb : PipeBuffer) (ws : WriteScheduler) (net : ℕ → Net) (valid : Setting → Option Error)
    (canonical : String → String) (fuel : ℕ) where
  abbrev pub Sess : Type 0
  Sess = Session pb.Buf (ws.Sched × ℕ)

  abbrev ws' : WriteScheduler
  ws' = announcing ws

  abbrev again : Sess → Run Sess
  again = schedule_frame_write pb ws' net fuel

  honest : (s : Sess) → IsInt32 s.inflow → Post (again s) (Honest s)
  honest s v = schedule_frame_write-Honest pb ws net fuel s v

  process_frame-Lowered :
      (s : Sess) (f : Frame)
      → IsInt32 s.inflow
      → IsTameFrame f
      → Post (process_frame pb ws' net valid canonical fuel s f) (λ (_, t). Lowered (size_of f) s t)
  unfolding process_frame
  process_frame-Lowered s f v p =
      Post-if _ s.saw_first_settings (dispatch pb ws' net valid canonical fuel s f) _
        (dispatch-Lowered pb ws net valid canonical fuel s f v p)
        (Post-if _ (is_settings f)
          (dispatch pb ws' net valid canonical fuel (record s { saw_first_settings = true }) f)
          (ok _)
          (dispatch-Lowered pb ws net valid canonical fuel (record s { saw_first_settings = true })
            f v p)
          (spent_nothing (size_of f) s s (v, refl)))

  -- The result of a handler of events.
  abbrev Next : ℤ → Bool × Sess → Type 0
  Next c (_, t) = At c t

  then-Next :
      (c : ℤ) (r : Run Sess) (b : Bool) → Post r (At c) → Post (r >>= λ s'. ok (b, s')) (Next c)
  then-Next c r b h = Post-bind (At c) (Next c) r (λ s'. ok (b, s')) h (λ s' v. v)

  leave-Next :
      (s : Sess) (code : ℕ) (c : ℤ)
      → At c s
      → Post (go_away pb ws' again s code >>= λ s'. ok (true, s')) (Next c)
  leave-Next s code c h =
      then-Next c (go_away pb ws' again s code) true (go_away-At pb ws again honest c s code h)

  handle_error-Next :
      (s : Sess) (e : Error) (c : ℤ)
      → At c s
      → Post (handle_error pb ws' net valid canonical fuel s e) (Next c)
  unfolding handle_error
  handle_error-Next s (stream_error id code) c h =
      then-Next c (reset_stream pb ws' again s id code) true
        (reset_stream-At pb ws again honest c s id code h)
  handle_error-Next s go_away_flow_error c h = leave-Next s ErrCode.flow_control c h
  handle_error-Next s (connection_error code) c h = leave-Next s code c h
  handle_error-Next s _ c h = h

  -- A frame, and what is done about its error.
  frame-Lowered :
      (s : Sess) (f : Frame)
      → IsInt32 s.inflow
      → IsTameFrame f
      → Post
          (process_frame_from_reader pb ws' net valid canonical fuel s (got f))
          (λ (_, t). Lowered (size_of f) s t)
  unfolding process_frame_from_reader
  frame-Lowered s f v p =
      Post-bind (λ (_, t). Lowered (size_of f) s t) _
        (process_frame pb ws' net valid canonical fuel s f) _ (process_frame-Lowered s f v p)
        (λ (e, t) w. answered t e w)
    where
      answered :
          (t : Sess) (e : Option Error)
          → Lowered (size_of f) s t
          → Post
              (elim e as (λ x. Run (Bool × Sess)) [
                | none ↦ ok (true, t)
                | some err ↦ handle_error pb ws' net valid canonical fuel t err
              ])
              (λ (_, u). Lowered (size_of f) s u)
      answered t none w = w
      answered t (some err) w =
          Post-all_in (handle_error pb ws' net valid canonical fuel t err)
            (handle_error-Next t err (credit t) (w.0, refl))
            (λ (_, u) h. spent_then (size_of f) s t u w h)

  failed-Next :
      (s : Sess) (e : Error) (c : ℤ)
      → At c s
      → Post (process_frame_from_reader pb ws' net valid canonical fuel s (failed e)) (Next c)
  unfolding process_frame_from_reader
  failed-Next s frame_too_large c h = leave-Next s ErrCode.frame_size c h
  failed-Next s eof c h = h
  failed-Next s connection_gone c h = h
  failed-Next s e c h = handle_error-Next s e c h

  body_read-At :
      (s : Sess) (id n : ℕ) (c : ℤ) → At c s → Post (note_body_read ws' again s id n) (At c)
  unfolding note_body_read
  body_read-At s id n c h =
      Post-bind (At c) (At c) (send_window_update ws' again s none n) _ (updated s none h)
        (λ t g. Post-any (At c) (deref t (some id)) _ (λ st. go t g st.state))
    where
      updated :
          (t : Sess) (o : Option ℕ) → At c t → Post (send_window_update ws' again t o n) (At c)
      updated t o g =
          at_end pb ws again honest c t (send_window_update ws' again t o n) g
            (send_window_update-Honest ws again honest t o n (g.0))

      go :
          (t : Sess)
          → At c t
          → (x : StreamState)
          → Post
              (elim x [
                | half_closed_remote ↦ ok t
                | closed ↦ ok t
                | _ ↦ send_window_update ws' again t (some id) n
              ])
              (At c)
      go t g half_closed_remote = g
      go t g closed = g
      go t g idle = updated t (some id) g
      go t g opened = updated t (some id) g
      go t g half_closed_local = updated t (some id) g

  write-Next :
      (s : Sess) (wr : FrameWriteRequest) (c : ℤ)
      → announced wr ≡ 0
      → At c s
      → Post (handle pb ws' net valid canonical fuel s (wants_write wr)) (Next c)
  unfolding handle
  write-Next s wr c z h = go wr.write z
    where
      go :
          (w : Option WriteFramer)
          → announced (record wr { write = w }) ≡ 0
          → Post
              (handle pb ws' net valid canonical fuel s (wants_write (record wr { write = w })))
              (Next c)
      go (some (write_stream_error id code)) z' =
          then-Next c (reset_stream pb ws' again s id code) true
            (reset_stream-At pb ws again honest c s id code h)
      go w z' = then-Next c (write_frame ws' again s (record wr { write = w })) true (
          at_end pb ws again honest c s (write_frame ws' again s (record wr { write = w })) h
            (write_frame-Honest ws again honest s (record wr { write = w }) (h.0) z'))

  wrote-Next :
      (s : Sess) (err : Option Error) (c : ℤ)
      → At c s
      → Post (handle pb ws' net valid canonical fuel s (wrote err)) (Next c)
  unfolding handle
  wrote-Next s err c h = go s.in_flight
    where
      go :
          (o : Option FrameWriteRequest)
          → Post
              (elim o as (λ x. Run (Bool × Sess)) [
                | none ↦ ok (true, s)
                | some wr ↦ wrote_frame pb ws' net again s wr err >>= λ s'. ok (true, s')
              ])
              (Next c)
      go none = h
      go (some wr) = then-Next c (wrote_frame pb ws' net again s wr err) true (
          at_end pb ws again honest c s (wrote_frame pb ws' net again s wr err) h (
            wrote_quietly pb ws' net again Honest (Honest-Quiet pb ws again honest)
              (λ t w. honest t (w.0)) s wr err (h.0, refl)))

  pub handle-Lowered :
      (s : Sess) (ev : Event)
      → IsInt32 s.inflow
      → IsTame ev
      → Post (handle pb ws' net valid canonical fuel s ev) (λ (_, t). Lowered (data_size_of ev) s t)
  unfolding handle
  handle-Lowered s (wants_write wr) v p = spending 0 s _ (write-Next s wr (credit s) p (v, refl))
  handle-Lowered s (wrote err) v p = spending 0 s _ (wrote-Next s err (credit s) (v, refl))
  handle-Lowered s (read_frame (got f)) v p = frame-Lowered s f v p
  handle-Lowered s (read_frame (failed e)) v p =
      spending 0 s _ (failed-Next s e (credit s) (v, refl))
  handle-Lowered s (body_read id n) v p =
      spending 0 s (note_body_read ws' again s id n >>= λ t. ok (true, t)) (
        then-Next (credit s) (note_body_read ws' again s id n) true
          (body_read-At s id n (credit s) (v, refl)))
  handle-Lowered s idle_timer_fired v p =
      spending 0 s _ (leave-Next s ErrCode.no_error (credit s) (v, refl))
  handle-Lowered s shutdown_timer_fired v p = spent_nothing 0 s s (v, refl)
  handle-Lowered s graceful_shutdown v p =
      spending 0 s _ (leave-Next s ErrCode.no_error (credit s) (v, refl))
  handle-Lowered s (wants_stream parent header ends) v p =
      spending 0 s (create_stream pb ws' again s parent header ends >>= λ (_, t). ok (true, t)) (
        Post-bind (λ (_, t). At (credit s) t) (Next (credit s))
          (create_stream pb ws' again s parent header ends) (λ (_, t). ok (true, t))
          (create_stream-At pb ws again honest (credit s) s parent header ends (v, refl))
          (λ (_, t) h. h))
