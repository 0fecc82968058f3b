-- ===== src/Session/Quiet.antt =====
-- session.go and session_write.go: what is left of a session when streams are closed and after a write.
pub mod Writing
use h2stream.Prelude.{
  ℕ, ◌≡◌, refl, Bool, true, false, Option, none, some, List, Bool-cases, inl, inr, Run, ok, panic,
  out_of_fuel, ◌>>=◌, Post, Post-bind, Post-any, Post-if, if◌then◌else◌,
}
use h2stream.Errors.{Error}
use h2stream.Frame.{write_stream_error}
use h2stream.Pipe
use h2stream.Pipe.{PipeBuffer}
use h2stream.WriteQueue.{FrameWriteRequest}
use h2stream.Session.{
  StreamState, idle, opened, half_closed_local, half_closed_remote, closed, Stream, Session,
  WriteScheduler,
}
use h2stream.Session.Streams.{delete, find, set_stream, count_down, is_pushed}
use h2stream.Session.Writing.{deref, write_frame}
use h2stream.Session.Windows.{send_window_update}
use h2stream.Session.Closing.{drop_stream, reset_stream, finish_stream, close_stream}
use h2stream.Session.Registry.Updates.{deref-Post, find-object, Post-find}

abbrev pub reset_request : ℕ → ℕ → FrameWriteRequest
reset_request id code = record {
  write = some (write_stream_error id code);
  stream = none;
  done = none;
}

-- What holds of everything holds of a result.
pub Post-all : {A : Type 0} {P : A → Type 0} (r : Run A) → ((a : A) → P a) → Post r P
Post-all (ok a) h = h a
Post-all panic h = tt
Post-all out_of_fuel h = tt

-- The session with other counters and another map.
abbrev pub recount : {B S : Type 0} → Session B S → List ℕ → ℕ → ℕ → Session B S
recount s l m n = record s { streams = l; cur_client_streams = m; cur_pushed_streams = n }

module _ (pb : PipeBuffer) (ws : WriteScheduler)
    (schedule : Session pb.Buf ws.Sched → Run (Session pb.Buf ws.Sched)) where
  abbrev Sess : Type 0
  Sess = Session pb.Buf ws.Sched

  -- A relation of a session to one after it that the parts of closeStream and resetStream keep. `R s s`
  -- says that `s` is in order.
  pub record Quiet (R : Sess → Sess → Type 0) : Type 0 where
    pub compose : (s t u : Sess) → R s t → R t u → R s u
    pub right : (s t : Sess) → R s t → R t t
    pub assigned :
        (s : Sess) (id : ℕ) (st st' : Stream pb.Buf)
        → R s s
        → s.objects id ≡ some st
        → st'.id ≡ st.id
        → st'.flow ≡ st.flow
        → R s (set_stream s st')
    pub counted : (s t : Sess) (l : List ℕ) (m n : ℕ) → R s t → R s (recount t l m n)
    pub noted : (s t : Sess) (l : List (ℕ × Option Error)) → R s t → R s (record t { replies = l })
    pub stopped :
        (s t : Sess)
        → R s t
        → R s (record t { writing_frame = false; writing_frame_async = false; in_flight = none })
    pub released :
        (s : Sess) (id : ℕ)
        → Post
            (ws.close_stream id s.sched)
            (λ q. (t : Sess) → t.sched ≡ s.sched → R s t → R s (record t { sched = q }))
    pub updates : (s : Sess) (n : ℕ) → R s s → Post (send_window_update ws schedule s none n) (R s)
    pub resets :
        (s : Sess) (id code : ℕ)
        → R s s
        → Post (write_frame ws schedule s (reset_request id code)) (R s)

  module _ (R : Sess → Sess → Type 0) (quiet : Quiet R) where
    -- One operation after another.
    pub quiet_bind :
        (s : Sess) (r : Run Sess) (f : Sess → Run Sess)
        → Post r (R s)
        → ((t : Sess) → R t t → Post (f t) (R t))
        → Post (r >>= f) (R s)
    quiet_bind s (ok t) f h k = widen (f t) (k t (quiet.right s t h))
      where
        widen : (r : Run Sess) → Post r (R t) → Post r (R s)
        widen (ok u) x = quiet.compose s t u h x
        widen panic x = tt
        widen out_of_fuel x = tt
    quiet_bind s panic f h k = tt
    quiet_bind s out_of_fuel f h k = tt

    Post-unless_done :
        (P : Sess → Type 0) (x : StreamState) (r : Run Sess)
        → Post r P
        → Post (elim x [ idle ↦ panic | closed ↦ panic | _ ↦ r ]) P
    Post-unless_done P idle r h = tt
    Post-unless_done P opened r h = h
    Post-unless_done P half_closed_local r h = h
    Post-unless_done P half_closed_remote r h = h
    Post-unless_done P closed r h = tt

    counted_down :
        (s t : Sess) (id : ℕ) (l : List ℕ) → R s t → R s (record (count_down t id) { streams = l })
    unfolding count_down
    counted_down s t id l h = elim (Bool-cases (is_pushed id)) [
      | inl y ↦ rw y (quiet.counted s t l t.cur_client_streams _ h)
      | inr y ↦ rw y (quiet.counted s t l _ t.cur_pushed_streams h)
    ]

    drop_quietly :
        (s : Sess) (id : ℕ) (st : Stream pb.Buf)
        → R s s
        → s.objects id ≡ some st
        → Post (drop_stream s st) (R s)
    unfolding drop_stream
    drop_quietly s id st v e = Post-unless_done (R s) st.state _ (
        Post-if (R s) _ panic (ok _) tt (
          counted_down s (set_stream s (record st { state = closed })) st.id
            (delete st.id s.streams)
            (quiet.assigned s id st (record st { state = closed }) v e refl refl)))

    finish_quietly :
        (s : Sess) (id : ℕ) (err : Error)
        → R s s
        → Post (finish_stream pb ws schedule s id err) (R s)
    unfolding finish_stream set_stream
    finish_quietly s id err v =
        Post-bind _ (R s) (deref s (some id)) _ (deref-Post s (some id)) (λ st (j, _, e).
          let st' : Stream pb.Buf = record st {
            body = Pipe.set_err st.body err none;
            cancelled = true;
            waited = true;
          } in
          Post-if (R s) st.waited panic _ tt (
            Post-bind _ (R s) (ws.close_stream id s.sched) _ (quiet.released s id)
              (λ q h. h (set_stream s st') refl (quiet.assigned s j st st' v e refl refl))))

    pub close_quietly :
        (s : Sess) (id : ℕ) (err : Error)
        → R s s
        → Post (close_stream pb ws schedule s id err) (R s)
    unfolding close_stream
    close_quietly s id err v =
        Post-bind _ (R s) (deref s (some id)) _ (deref-Post s (some id)) (λ st (j, _, e).
          quiet_bind s (drop_stream s st) _ (drop_quietly s j st v e) (λ t w.
            quiet_bind t (send_window_update ws schedule t none (Pipe.len pb st.body)) _
              (quiet.updates t (Pipe.len pb st.body) w) (λ u x. finish_quietly u id err x)))

    pub reset_quietly :
        (s : Sess) (id code : ℕ) → R s s → Post (reset_stream pb ws schedule s id code) (R s)
    unfolding reset_stream
    reset_quietly s id code v =
        quiet_bind s (write_frame ws schedule s (reset_request id code)) _
          (quiet.resets s id code v)
          (λ t w.
            Post-find (R t) t id _ (ok t)
              (λ st e. quiet.assigned t id st _ w (find-object t id st e) refl refl) (λ _. w))
