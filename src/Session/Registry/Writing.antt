-- ===== src/Session/Registry/Writing.antt =====
-- session_write.go: the registry of streams under writeFrame and sendWindowUpdate.
use h2stream.Prelude.{
  ℕ, zero, suc, ◌-◌, ◌/◌, refl, ◌||◌, Option, none, some, ◌==◌, Run, ok, panic, ◌>>=◌, Post,
  Post-bind, Post-any, Post-if,
}
use h2stream.Frame.{
  WriteFramer, write_res_headers, write_100_continue_headers_frame, write_window_update,
}
use h2stream.WriteQueue.{FrameWriteRequest}
use h2stream.Session.{
  StreamState, idle, opened, half_closed_local, half_closed_remote, closed, Session, WriteScheduler,
}
use h2stream.Session.Writing.{deref, write_frame, note_headers, on_closed}
use h2stream.Session.Windows.{
  grow_inflow, send_window_update32, send_window_update, send_loop, note_body_read, max_uint31,
  target,
}
use h2stream.Session.Registry.{IsSession}
use h2stream.Session.Registry.Updates.{set_stream-IsSession, deref-Post}

module _ (ws : WriteScheduler) {B : Type 0} where
  -- What a call that stands for scheduleFrameWrite has to keep.
  abbrev pub Keeps : (Session B ws.Sched → Run (Session B ws.Sched)) → Type 0
  Keeps schedule = (s : Session B ws.Sched) → IsSession s → Post (schedule s) IsSession

  note_headers-Post :
      (s : Session B ws.Sched) (wr : FrameWriteRequest)
      → IsSession s
      → Post (note_headers s wr) (λ (s', _). IsSession s')
  unfolding note_headers
  note_headers-Post s wr v = go wr.write wr.stream wr.done
    where
      go :
          (w : Option WriteFramer) (o d : Option ℕ)
          → Post
              (note_headers s (record { write = w; stream = o; done = d }))
              (λ (s', _). IsSession s')
      go (some (write_res_headers r)) o d =
          Post-bind _ _ (deref s o) _ (deref-Post s o)
            (λ st (j, _, e). set_stream-IsSession s j st _ v e refl refl)
      go (some (write_100_continue_headers_frame n)) o none =
          Post-any _ (deref s o) _ (λ st. Post-if _ st.wrote_headers (ok _) (ok _) v v)
      go (some (write_100_continue_headers_frame n)) o (some _) =
          Post-any _ (deref s o) _ (λ st. Post-if _ st.wrote_headers panic (ok _) tt v)
      go _ o d = v

  module _ (schedule : Session B ws.Sched → Run (Session B ws.Sched)) (keeps : Keeps schedule) where
    pub write_frame-Post :
        (s : Session B ws.Sched) (wr : FrameWriteRequest)
        → IsSession s
        → Post (write_frame ws schedule s wr) IsSession
    unfolding write_frame
    write_frame-Post s wr v =
        Post-bind _ IsSession (note_headers s wr) _ (note_headers-Post s wr v) (λ (s', drop) v'.
          Post-if IsSession (on_closed s wr || drop) _ _ (keeps s' v')
            (Post-any IsSession (ws.push wr s'.sched) _ (λ q. keeps _ v')))

    grow_inflow-Post :
        (s : Session B ws.Sched) (o : Option ℕ) (n : ℕ)
        → IsSession s
        → Post (grow_inflow s o n) IsSession
    unfolding grow_inflow
    grow_inflow-Post s none n v = Post-if IsSession _ (ok _) panic v tt
    grow_inflow-Post s (some id) n v =
        Post-bind _ IsSession (deref s (some id)) _ (deref-Post s (some id)) (λ st (j, _, e).
          Post-if IsSession _ (ok _) panic (set_stream-IsSession s j st _ v e refl refl) tt)

    abbrev update : Option ℕ → ℕ → FrameWriteRequest
    update o n = record {
      write = some (write_window_update (target ws schedule o) n);
      stream = o;
      done = none;
    }

    pub send_window_update32-Post :
        (s : Session B ws.Sched) (o : Option ℕ) (n : ℕ)
        → IsSession s
        → Post (send_window_update32 ws schedule s o n) IsSession
    unfolding send_window_update32
    send_window_update32-Post s o n v = Post-if IsSession (n == 0) (ok s) _ v (
        Post-bind IsSession IsSession (write_frame ws schedule s (update o n)) _
          (write_frame-Post s (update o n) v) (λ s' v'. grow_inflow-Post s' o n v'))

    send_loop-Post :
        (f : ℕ) (s : Session B ws.Sched) (o : Option ℕ) (n : ℕ)
        → IsSession s
        → Post (send_loop ws schedule f s o n) IsSession
    unfolding send_loop
    send_loop-Post zero s o n v = tt
    send_loop-Post (suc f) s o n v =
        Post-if IsSession _
          (send_window_update32 ws schedule s o max_uint31 >>= λ s'.
            send_loop ws schedule f s' o (n - max_uint31))
          _
          (Post-bind IsSession IsSession (send_window_update32 ws schedule s o max_uint31) _
            (send_window_update32-Post s o max_uint31 v)
            (λ s' v'. send_loop-Post f s' o (n - max_uint31) v'))
          (send_window_update32-Post s o n v)

    pub send_window_update-Post :
        (s : Session B ws.Sched) (o : Option ℕ) (n : ℕ)
        → IsSession s
        → Post (send_window_update ws schedule s o n) IsSession
    unfolding send_window_update
    send_window_update-Post s o n v = send_loop-Post (suc (n / max_uint31)) s o n v

    Post-half_closed :
        (s : Session B ws.Sched) (r : Run (Session B ws.Sched))
        → IsSession s
        → Post r IsSession
        → (x : StreamState)
        → Post (elim x [ half_closed_remote ↦ ok s | closed ↦ ok s | _ ↦ r ]) IsSession
    Post-half_closed s r v h idle = h
    Post-half_closed s r v h opened = h
    Post-half_closed s r v h half_closed_local = h
    Post-half_closed s r v h half_closed_remote = v
    Post-half_closed s r v h closed = v

    pub note_body_read-Post :
        (s : Session B ws.Sched) (id n : ℕ)
        → IsSession s
        → Post (note_body_read ws schedule s id n) IsSession
    unfolding note_body_read
    note_body_read-Post s id n v =
        Post-bind IsSession IsSession (send_window_update ws schedule s none n) _
          (send_window_update-Post s none n v)
          (λ s' v'. Post-any IsSession (deref s' (some id)) _ (λ st.
            Post-half_closed s' (send_window_update ws schedule s' (some id) n) v'
              (send_window_update-Post s' (some id) n v') st.state))
