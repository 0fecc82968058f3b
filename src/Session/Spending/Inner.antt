-- ===== src/Session/Spending/Inner.antt =====
-- session.go and session_write.go: queueing frames and closing streams take nothing from the windows.
use h2stream.Prelude.{
  ℕ, zero, suc, ◌-◌, ◌/◌, refl, ◌||◌, Option, none, some, leb, ◌==◌, Run, ok, panic, ◌>>=◌, Post,
  Post-bind, Post-any, Post-if,
}
use h2stream.Frame.{
  WriteFramer, write_res_headers, write_100_continue_headers_frame, write_window_update,
}
use h2stream.Pipe.{PipeBuffer}
use h2stream.WriteQueue.{FrameWriteRequest}
use h2stream.Session.{Session, WriteScheduler}
use h2stream.Session.Writing.{deref, write_frame, note_headers, on_closed}
use h2stream.Session.Windows.{
  grow_inflow, send_window_update32, send_window_update, send_loop, max_uint31, target,
}
use h2stream.Session.Registry.Updates.{deref-Post}
use h2stream.Session.Quiet.{Quiet, Post-all, reset_request}
use h2stream.Session.Spending.{OwnIds, Calm, Calm-refl, Calm-trans, Calm-bind, set_stream-Calm}

module _ (pb : PipeBuffer) (ws : WriteScheduler)
    (schedule : Session pb.Buf ws.Sched → Run (Session pb.Buf ws.Sched))
    (calm : (s : Session pb.Buf ws.Sched) → OwnIds s → Post (schedule s) (Calm s)) where
  abbrev Sess : Type 0
  Sess = Session pb.Buf ws.Sched

  note_headers-Calm :
      (s : Sess) (wr : FrameWriteRequest)
      → OwnIds s
      → Post (note_headers s wr) (λ (s', _). Calm s s')
  unfolding note_headers
  note_headers-Calm s wr v = go wr.write wr.stream wr.done
    where
      still : Calm s s
      still = Calm-refl s v

      go :
          (w : Option WriteFramer) (o d : Option ℕ)
          → Post
              (note_headers s (record { write = w; stream = o; done = d }))
              (λ (s', _). Calm s s')
      go (some (write_res_headers r)) o d =
          Post-bind _ _ (deref s o) _ (deref-Post s o)
            (λ st (j, _, e). set_stream-Calm s j st _ v e refl refl)
      go (some (write_100_continue_headers_frame n)) o none =
          Post-any _ (deref s o) _ (λ st. Post-if _ st.wrote_headers (ok _) (ok _) still still)
      go (some (write_100_continue_headers_frame n)) o (some _) =
          Post-any _ (deref s o) _ (λ st. Post-if _ st.wrote_headers panic (ok _) tt still)
      go _ o d = still

  -- A call of `schedule` on a session with the same windows
  then_schedule : (s t : Sess) → Calm s t → Post (schedule t) (Calm s)
  then_schedule s t h = Calm-bind s (ok t) schedule h calm

  write_frame-Calm :
      (s : Sess) (wr : FrameWriteRequest) → OwnIds s → Post (write_frame ws schedule s wr) (Calm s)
  unfolding write_frame
  write_frame-Calm s wr v =
      Post-bind _ (Calm s) (note_headers s wr) _ (note_headers-Calm s wr v) (λ (t, drop) h.
        Post-if (Calm s) (on_closed s wr || drop) _ _ (then_schedule s t h) (
          Post-any (Calm s) (ws.push wr t.sched) _
            (λ q. then_schedule s (record t { sched = q }) h)))

  grow_inflow-Calm :
      (s : Sess) (o : Option ℕ) (n : ℕ) → OwnIds s → Post (grow_inflow s o n) (Calm s)
  unfolding grow_inflow
  grow_inflow-Calm s none n v = Post-if (Calm s) _ (ok _) panic (Calm-refl s v) tt
  grow_inflow-Calm s (some id) n v =
      Post-bind _ (Calm s) (deref s (some id)) _ (deref-Post s (some id)) (λ st (j, _, e).
        Post-if (Calm s) _ (ok _) panic (set_stream-Calm s j st _ v e refl refl) tt)

  abbrev update : Option ℕ → ℕ → FrameWriteRequest
  update o n = record {
    write = some (write_window_update (target ws schedule o) n);
    stream = o;
    done = none;
  }

  send_window_update32-Calm :
      (s : Sess) (o : Option ℕ) (n : ℕ)
      → OwnIds s
      → Post (send_window_update32 ws schedule s o n) (Calm s)
  unfolding send_window_update32
  send_window_update32-Calm s o n v = Post-if (Calm s) (n == 0) (ok s) _ (Calm-refl s v) (
      Calm-bind s (write_frame ws schedule s (update o n)) _ (write_frame-Calm s (update o n) v)
        (λ t w. grow_inflow-Calm t o n w))

  send_loop-Calm :
      (f : ℕ) (s : Sess) (o : Option ℕ) (n : ℕ)
      → OwnIds s
      → Post (send_loop ws schedule f s o n) (Calm s)
  unfolding send_loop
  send_loop-Calm zero s o n v = tt
  send_loop-Calm (suc f) s o n v =
      Post-if (Calm s) (leb max_uint31 n)
        (send_window_update32 ws schedule s o max_uint31 >>= λ s'.
          send_loop ws schedule f s' o (n - max_uint31))
        _
        (Calm-bind s (send_window_update32 ws schedule s o max_uint31) _
          (send_window_update32-Calm s o max_uint31 v)
          (λ t w. send_loop-Calm f t o (n - max_uint31) w))
        (send_window_update32-Calm s o n v)

  send_window_update-Calm :
      (s : Sess) (o : Option ℕ) (n : ℕ)
      → OwnIds s
      → Post (send_window_update ws schedule s o n) (Calm s)
  unfolding send_window_update
  send_window_update-Calm s o n v = send_loop-Calm (suc (n / max_uint31)) s o n v

  -- Closing and resetting streams take nothing from the windows.
  pub Calm-Quiet : Quiet pb ws schedule Calm
  Calm-Quiet = record {
    compose = Calm-trans;
    right = λ s t h. Calm-refl t (h.0);
    assigned = λ s id st st' v. set_stream-Calm s id st st' (v.0);
    counted = λ s t l m n h. h;
    noted = λ s t l h. h;
    stopped = λ s t h. h;
    released = λ s id. Post-all (ws.close_stream id s.sched) (λ q t e h. h);
    updates = λ s n v. send_window_update-Calm s none n (v.0);
    resets = λ s id code v. write_frame-Calm s (reset_request id code) (v.0);
  }
