-- ===== src/Session/Registry/Scheduling.antt =====
-- session_write.go: the registry of streams under startFrameWrite, wroteFrame and
-- scheduleFrameWrite.
use h2stream.Prelude.{
  ℕ, zero, suc, ◌+◌, ◌≡◌, refl, Bool, true, false, ◌||◌, not, Option, none, some, [], ◌∷◌, ◌++◌,
  ◌==◌, if◌then◌else◌, Option-cases, inl, inr, Run, ok, panic, out_of_fuel, ◌>>=◌, Post, Post-bind,
  Post-any, Post-if,
}
use h2stream.ErrCode
use h2stream.Errors.{Error, handler_complete, handler_panicked, stream_error}
use h2stream.Flow.{Flow}
use h2stream.Pipe.{PipeBuffer}
use h2stream.Frame.{
  write_ends_stream, stays_within_buffer, WriteFramer, flush_frame_writer, write_go_away,
  write_settings_ack, write_stream_error, handler_panic_rst, write_push_promise, refused,
}
use h2stream.WriteQueue.{FrameWriteRequest}
use h2stream.Session.{
  StreamState, idle, opened, half_closed_local, half_closed_remote, closed, Stream, Session,
  WriteScheduler, Net,
}
use h2stream.Session.Streams.{set_stream}
use h2stream.Session.Writing.{deref, reply_to_writer}
use h2stream.Session.Closing.{reset_stream, close_stream}
use h2stream.Session.Schedule.{
  after_write, wrote_frame, perform_write, allowed_now, start_frame_write, nested, pay, flow_of,
  schedule_round, schedule_loop, schedule_frame_write, bare,
}
use h2stream.Session.Registry.{IsSession}
use h2stream.Session.Registry.Updates.{
  reply_to_writer-Post, Post-find, set_stream-IsSession, deref-Post,
}
use h2stream.Session.Registry.Writing.{Keeps}
use h2stream.Session.Registry.Closing.{reset_stream-Post, close_stream-Post}

module _ (pb : PipeBuffer) (ws : WriteScheduler) (net : ℕ → Net) where
  abbrev Sess : Type 0
  Sess = Session pb.Buf ws.Sched

  reply-Post :
      (s : Sess) (wr : FrameWriteRequest) (err : Option Error)
      → IsSession s
      → Post (reply_to_writer net s wr err) IsSession
  reply-Post s wr err v = reply_to_writer-Post IsSession net s wr err (λ l. v)

  -- The session when a write has ended, and when one begins.
  abbrev pub finished : Sess → Sess
  finished s = record s { writing_frame = false; writing_frame_async = false; in_flight = none }

  abbrev pub begun : Sess → WriteFramer → Sess
  begun s w = record s {
    writing_frame = true;
    needs_frame_flush = true;
    writes = s.writes + 1;
    written = s.written ++ w ∷ [];
    writing_frame_async = false;
  }

  pub pay-IsSession :
      (s : Sess) (wr : FrameWriteRequest) (f : Option Flow)
      → IsSession s
      → IsSession (pay pb ws net s wr f)
  unfolding pay
  pay-IsSession s wr none v = v
  pay-IsSession s wr (some f) v = go wr.stream
    where
      go : (o : Option ℕ) → IsSession (pay pb ws net s (record wr { stream = o }) (some f))
      go none = v
      go (some id) = elim (Option-cases (s.objects id)) [
        | inl e ↦ rw (e, pay) v
        | inr (st, e) ↦
            let s' : Sess = record s { flow = elim f.conn [ none ↦ s.flow | some c ↦ c ] } in
            rw (e, pay) (set_stream-IsSession s' id st (record st { flow = f.n }) v e refl refl)
      ]

  module _ (schedule : Sess → Run Sess) (keeps : Keeps ws schedule) where
    -- END_STREAM was sent on a stream in the state `x`.
    ends_on :
        (s : Sess) (st : Stream pb.Buf) (id : ℕ)
        → IsSession s
        → s.objects id ≡ some st
        → (x : StreamState) → st.state ≡ x
        → Post
            (elim x [
              | opened ↦
                  reset_stream pb ws schedule
                    (set_stream s (record st { state = half_closed_local }))
                    st.id
                    ErrCode.no_error
              | half_closed_remote ↦ close_stream pb ws schedule s st.id handler_complete
              | _ ↦ ok s
            ])
            IsSession
    ends_on s st id v e idle q = v
    ends_on s st id v e opened q = reset_stream-Post pb ws schedule keeps _ st.id ErrCode.no_error (
        set_stream-IsSession s id st (record st { state = half_closed_local }) v e refl (rw q refl))
    ends_on s st id v e half_closed_local q = v
    ends_on s st id v e half_closed_remote q =
        close_stream-Post pb ws schedule keeps s st.id handler_complete v
    ends_on s st id v e closed q = v

    pub after_write-Post :
        (s : Sess) (wr : FrameWriteRequest) (ends : Bool)
        → IsSession s
        → Post (after_write pb ws net schedule s wr ends) IsSession
    unfolding after_write
    after_write-Post s wr true v =
        Post-bind _ IsSession (deref s wr.stream) _ (deref-Post s wr.stream)
          (λ st (j, _, e). ends_on s st j v e st.state refl)
    after_write-Post s wr false v = go wr.write
      where
        go :
            (w : Option WriteFramer)
            → Post (after_write pb ws net schedule s (record wr { write = w }) false) IsSession
        go (some (write_stream_error id code)) =
            Post-find IsSession s id (λ st. close_stream pb ws schedule s id (stream_error id code))
              (ok s) (λ st e. close_stream-Post pb ws schedule keeps s id (stream_error id code) v)
              (λ _. v)
        go (some (handler_panic_rst n)) =
            Post-any IsSession (deref s wr.stream) _
              (λ st. close_stream-Post pb ws schedule keeps s st.id handler_panicked v)
        go _ = v

    pub wrote_frame-Post :
        (s : Sess) (wr : FrameWriteRequest) (err : Option Error)
        → IsSession s
        → Post (wrote_frame pb ws net schedule s wr err) IsSession
    unfolding wrote_frame
    wrote_frame-Post s wr err v =
        Post-if IsSession s.writing_frame _ panic
          (Post-any IsSession (write_ends_stream wr.write) _ (λ ends.
            Post-bind IsSession IsSession (after_write pb ws net schedule (finished s) wr ends) _
              (after_write-Post (finished s) wr ends v)
              (λ s' v'.
                Post-bind IsSession IsSession (reply_to_writer net s' wr err) _
                  (reply-Post s' wr err v') keeps)))
          tt

    perform_write-Post :
        (s : Sess) (wr : FrameWriteRequest) (w : WriteFramer)
        → IsSession s
        → Post (perform_write pb ws net schedule s wr w) IsSession
    unfolding perform_write
    perform_write-Post s wr w v =
        Post-if IsSession (stays_within_buffer w (net s.writes).room)
          (wrote_frame pb ws net schedule (begun s w) wr (net s.writes).failed) (ok _)
          (wrote_frame-Post (begun s w) wr (net s.writes).failed v) v

    pub start_frame_write-Post :
        (s : Sess) (wr : FrameWriteRequest)
        → IsSession s
        → Post (start_frame_write pb ws net schedule s wr) IsSession
    unfolding start_frame_write
    start_frame_write-Post s wr v = go wr.write
      where
        go :
            (w : Option WriteFramer)
            → Post (start_frame_write pb ws net schedule s (record wr { write = w })) IsSession
        go none = Post-if IsSession s.writing_frame panic _ tt (
            Post-any IsSession (allowed_now pb ws net s (record wr { write = none })) _
              (λ fine. Post-if IsSession fine panic panic tt tt))
        go (some (write_push_promise n (refused err) h)) =
            Post-if IsSession s.writing_frame panic _ tt (
              Post-any IsSession
                (allowed_now pb ws net s
                  (record wr { write = some (write_push_promise n (refused err) h) }))
                _
                (λ fine.
                  Post-if IsSession fine _ panic
                    (reply-Post (record s { writing_frame_async = false })
                      (record wr { write = some (write_push_promise n (refused err) h) }) (some err)
                      v)
                    tt))
        go (some w) = Post-if IsSession s.writing_frame panic _ tt (
            Post-any IsSession (allowed_now pb ws net s (record wr { write = some w })) _ (λ fine.
              Post-if IsSession fine _ panic
                (perform_write-Post s (record wr { write = some w }) w v) tt))

  pub nested-Keeps : Keeps ws (nested pb ws net)
  unfolding nested
  nested-Keeps s v = Post-if IsSession _ (ok s) out_of_fuel v tt

  -- A write inside the loop, after which the loop goes on.
  inner-Post :
      (f : Sess → Sess) (s : Sess) (wr : FrameWriteRequest)
      → ((t : Sess) → IsSession t → IsSession (f t))
      → IsSession s
      → Post {A = Sess × Bool}
          (start_frame_write pb ws net (nested pb ws net) s wr >>= λ s'. ok (f s', true))
          (λ (s', _). IsSession s')
  inner-Post f s wr k v =
      Post-bind IsSession _ (start_frame_write pb ws net (nested pb ws net) s wr) _
        (start_frame_write-Post (nested pb ws net) nested-Keeps s wr v) (λ s' v'. k s' v')

  flush-Post :
      (s : Sess)
      → IsSession s
      → Post {A = Sess × Bool}
          (if s.needs_frame_flush
            then (start_frame_write pb ws net (nested pb ws net) s (bare flush_frame_writer)
                >>= λ t. ok (record t { needs_frame_flush = false }, true))
            else ok (s, false))
          (λ (s', _). IsSession s')
  flush-Post s v =
      Post-if _ s.needs_frame_flush _ (ok _)
        (inner-Post (λ t. record t { needs_frame_flush = false }) s (bare flush_frame_writer)
          (λ t h. h) v)
        v

  abbrev pub flushing : Sess → Run (Sess × Bool)
  flushing s =
      if s.needs_frame_flush
      then (start_frame_write pb ws net (nested pb ws net) s (bare flush_frame_writer) >>= λ t.
          ok (record t { needs_frame_flush = false }, true))
      else ok (s, false)

  popped-Post :
      (s : Sess) (o : Option (FrameWriteRequest × Option Flow)) (q : ws.Sched)
      → IsSession s
      → Post
          (elim o as (λ x. Run (Sess × Bool)) [
            | none ↦ flushing (record s { sched = q })
            | some (wr, flow) ↦
                start_frame_write pb ws net
                  (nested pb ws net)
                  (pay pb ws net (record s { sched = q }) wr flow)
                  wr
                >>= λ s'. ok (s', true)
          ])
          (λ (s', _). IsSession s')
  popped-Post s none q v = flush-Post (record s { sched = q }) v
  popped-Post s (some (wr, flow)) q v =
      inner-Post (λ t. t) (pay pb ws net (record s { sched = q }) wr flow) wr (λ t h. h)
        (pay-IsSession (record s { sched = q }) wr flow v)

  pub schedule_round-Post :
      (s : Sess) → IsSession s → Post (schedule_round pb ws net s) (λ (s', _). IsSession s')
  unfolding schedule_round
  schedule_round-Post s v = Post-if _ s.writing_frame_async (ok _) _ v (
      Post-if _ s.need_to_send_go_away _ _
        (inner-Post (λ t. t) (record s { need_to_send_go_away = false })
          (bare (write_go_away s.max_client_stream_id s.go_away_code)) (λ t h. h) v)
        (Post-if _ s.need_to_send_settings_ack _ _
          (inner-Post (λ t. t) (record s { need_to_send_settings_ack = false })
            (bare write_settings_ack) (λ t h. h) v)
          (Post-if _ (not s.in_go_away || s.go_away_code == ErrCode.no_error) _ _
            (Post-any _ (ws.pop (flow_of pb ws net s) s.max_frame_size s.sched) _
              (λ (o, q). popped-Post s o q v))
            (flush-Post s v))))

  schedule_loop-Post :
      (fuel : ℕ) (s : Sess) → IsSession s → Post (schedule_loop pb ws net fuel s) IsSession
  unfolding schedule_loop
  schedule_loop-Post zero s v = tt
  schedule_loop-Post (suc f) s v =
      Post-bind _ IsSession (schedule_round pb ws net s) _ (schedule_round-Post s v)
        (λ (s', more) v'.
          elim more
            as (λ b.
              Post
                (elim b as (λ x. Run Sess) [ true ↦ schedule_loop pb ws net f s' | false ↦ ok s' ])
                IsSession) [ true ↦ schedule_loop-Post f s' v' | false ↦ v' ])

  -- scheduleFrameWrite keeps the registry of the streams.
  pub schedule_frame_write-Keeps : (fuel : ℕ) → Keeps ws (schedule_frame_write pb ws net fuel)
  unfolding schedule_frame_write
  schedule_frame_write-Keeps fuel s v =
      Post-if IsSession (s.writing_frame || s.in_frame_schedule_loop) (ok s) _ v (
        Post-bind IsSession IsSession (schedule_loop pb ws net fuel _) _
          (schedule_loop-Post fuel (record s { in_frame_schedule_loop = true }) v) (λ s' v'. v'))
