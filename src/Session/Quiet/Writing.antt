-- ===== src/Session/Quiet/Writing.antt =====
-- session_write.go, wroteFrame: what is left of a session after a write.
use h2stream.Prelude.{
  ℕ, ◌≡◌, refl, Bool, true, false, Option, some, Run, ok, panic, ◌>>=◌, Post, Post-bind, Post-any,
  Post-if,
}
use h2stream.ErrCode
use h2stream.Errors.{Error, handler_complete, handler_panicked, stream_error}
use h2stream.Frame.{WriteFramer, write_ends_stream, write_stream_error, handler_panic_rst}
use h2stream.Pipe.{PipeBuffer}
use h2stream.WriteQueue.{FrameWriteRequest}
use h2stream.Session.{
  StreamState, idle, opened, half_closed_local, half_closed_remote, closed, Stream, Session,
  WriteScheduler, Net,
}
use h2stream.Session.Streams.{set_stream}
use h2stream.Session.Writing.{deref, reply_to_writer}
use h2stream.Session.Closing.{reset_stream, close_stream}
use h2stream.Session.Schedule.{after_write, wrote_frame}
use h2stream.Session.Registry.Updates.{reply_to_writer-Post, deref-Post, Post-find}
use h2stream.Session.Registry.Scheduling.{finished}
use h2stream.Session.Quiet.{Quiet, quiet_bind, close_quietly, reset_quietly}

module _ (pb : PipeBuffer) (ws : WriteScheduler) (net : ℕ → Net)
    (schedule : Session pb.Buf ws.Sched → Run (Session pb.Buf ws.Sched))
    (R : Session pb.Buf ws.Sched → Session pb.Buf ws.Sched → Type 0)
    (quiet : Quiet pb ws schedule R)
    (schedule_quietly : (s : Session pb.Buf ws.Sched) → R s s → Post (schedule s) (R s)) where
  abbrev Sess : Type 0
  Sess = Session pb.Buf ws.Sched

  -- What is left after replyToWriter
  pub reply_quietly :
      (s : Sess) (wr : FrameWriteRequest) (err : Option Error)
      → R s s
      → Post (reply_to_writer net s wr err) (R s)
  reply_quietly s wr err v = reply_to_writer-Post (R s) net s wr err (λ l. quiet.noted s s l v)

  finishes_on :
      (s : Sess) (st : Stream pb.Buf) (id : ℕ)
      → R s s
      → s.objects id ≡ some st
      → (x : StreamState)
      → Post
          (elim x [
            | opened ↦
                reset_stream pb ws schedule
                  (set_stream s (record st { state = half_closed_local }))
                  st.id
                  ErrCode.no_error
            | half_closed_remote ↦ close_stream pb ws schedule s st.id handler_complete
            | _ ↦ ok s
          ])
          (R s)
  finishes_on s st id v e opened =
      quiet_bind pb ws schedule R quiet s
        (ok (set_stream s (record st { state = half_closed_local }))) _
        (quiet.assigned s id st (record st { state = half_closed_local }) v e refl refl)
        (λ t w. reset_quietly pb ws schedule R quiet t st.id ErrCode.no_error w)
  finishes_on s st id v e half_closed_remote =
      close_quietly pb ws schedule R quiet s st.id handler_complete v
  finishes_on s st id v e idle = v
  finishes_on s st id v e half_closed_local = v
  finishes_on s st id v e closed = v

  after_quietly :
      (s : Sess) (wr : FrameWriteRequest) (ends : Bool)
      → R s s
      → Post (after_write pb ws net schedule s wr ends) (R s)
  unfolding after_write
  after_quietly s wr true v =
      Post-bind _ (R s) (deref s wr.stream) _ (deref-Post s wr.stream)
        (λ st (j, _, e). finishes_on s st j v e st.state)
  after_quietly s wr false v = go wr.write
    where
      go :
          (w : Option WriteFramer)
          → Post (after_write pb ws net schedule s (record wr { write = w }) false) (R s)
      go (some (write_stream_error id code)) =
          Post-find (R s) s id (λ st. close_stream pb ws schedule s id (stream_error id code))
            (ok s) (λ st e. close_quietly pb ws schedule R quiet s id (stream_error id code) v)
            (λ _. v)
      go (some (handler_panic_rst n)) =
          Post-any (R s) (deref s wr.stream) _
            (λ st. close_quietly pb ws schedule R quiet s st.id handler_panicked v)
      go _ = v

  pub wrote_quietly :
      (s : Sess) (wr : FrameWriteRequest) (err : Option Error)
      → R s s
      → Post (wrote_frame pb ws net schedule s wr err) (R s)
  unfolding wrote_frame
  wrote_quietly s wr err v =
      Post-if (R s) s.writing_frame _ panic
        (Post-any (R s) (write_ends_stream wr.write) _ (λ ends.
          quiet_bind pb ws schedule R quiet s (ok (finished pb ws net s))
            (λ t. after_write pb ws net schedule t wr ends >>= λ u.
              reply_to_writer net u wr err >>= schedule)
            (quiet.stopped s s v)
            (λ t w.
              quiet_bind pb ws schedule R quiet t (after_write pb ws net schedule t wr ends) _
                (after_quietly t wr ends w)
                (λ u x.
                  quiet_bind pb ws schedule R quiet u (reply_to_writer net u wr err) schedule
                    (reply_quietly u wr err x) schedule_quietly))))
        tt
