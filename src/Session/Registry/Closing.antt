-- ===== src/Session/Registry/Closing.antt =====
-- session.go: the registry of streams under resetting and closing a stream, and under GOAWAY.
use h2stream.Prelude.{
  ℕ, ◌≡◌, refl, sym, subst, none, some, Run, ok, panic, Post, Post-bind, Post-any, Post-if,
}
use h2stream.Errors.{Error}
use h2stream.Pipe
use h2stream.Pipe.{PipeBuffer}
use h2stream.Frame.{write_stream_error}
use h2stream.WriteQueue.{FrameWriteRequest}
use h2stream.Session.{Session, WriteScheduler}
use h2stream.Session.Writing.{deref, write_frame}
use h2stream.Session.Windows.{send_window_update}
use h2stream.Session.Closing.{reset_stream, finish_stream, close_stream, go_away, drop_stream}
use h2stream.Session.Registry.{IsSession}
use h2stream.Session.Registry.Updates.{
  fit_of, set_stream-IsSession, find-object, Post-find, deref-Post, drop_stream-Post,
}
use h2stream.Session.Registry.Writing.{Keeps, write_frame-Post, send_window_update-Post}

module _ (pb : PipeBuffer) (ws : WriteScheduler)
    (schedule : Session pb.Buf ws.Sched → Run (Session pb.Buf ws.Sched))
    (keeps : Keeps ws schedule) where
  abbrev Sess : Type 0
  Sess = Session pb.Buf ws.Sched

  abbrev reset_request : ℕ → ℕ → FrameWriteRequest
  reset_request id code = record {
    write = some (write_stream_error id code);
    stream = none;
    done = none;
  }

  pub reset_stream-Post :
      (s : Sess) (id code : ℕ)
      → IsSession s
      → Post (reset_stream pb ws schedule s id code) IsSession
  unfolding reset_stream
  reset_stream-Post s id code v =
      Post-bind IsSession IsSession (write_frame ws schedule s (reset_request id code)) _
        (write_frame-Post ws schedule keeps s (reset_request id code) v)
        (λ s' v'.
          Post-find IsSession s' id _ (ok s')
            (λ st e. set_stream-IsSession s' id st _ v' (find-object s' id st e) refl refl)
            (λ _. v'))

  finish_stream-Post :
      (s : Sess) (id : ℕ) (err : Error)
      → IsSession s
      → Post (finish_stream pb ws schedule s id err) IsSession
  unfolding finish_stream
  finish_stream-Post s id err v =
      Post-bind _ IsSession (deref s (some id)) _ (deref-Post s (some id)) (λ st (j, _, e).
        Post-if IsSession st.waited panic _ tt (
          Post-any IsSession (ws.close_stream id s.sched) _
            (λ q. set_stream-IsSession s j st _ v e refl refl)))

  pub close_stream-Post :
      (s : Sess) (id : ℕ) (err : Error)
      → IsSession s
      → Post (close_stream pb ws schedule s id err) IsSession
  unfolding close_stream
  close_stream-Post s id err v =
      Post-bind _ IsSession (deref s (some id)) _ (deref-Post s (some id)) (λ st (j, _, e).
        Post-bind IsSession IsSession (drop_stream s st) _
          (drop_stream-Post s st v
            (subst (λ k. s.objects k ≡ some st) (sym (fit_of s j st v e).0) e))
          (λ s' v'.
            Post-bind IsSession IsSession
              (send_window_update ws schedule s' none (Pipe.len pb st.body)) _
              (send_window_update-Post ws schedule keeps s' none (Pipe.len pb st.body) v')
              (λ s'' v''. finish_stream-Post s'' id err v'')))

  pub go_away-Post :
      (s : Sess) (code : ℕ) → IsSession s → Post (go_away pb ws schedule s code) IsSession
  unfolding go_away
  go_away-Post s code v = Post-if IsSession s.in_go_away (ok s) _ v (keeps _ v)
