-- ===== src/Session/Announcing/Looping.antt =====
-- session_write.go, scheduleFrameWrite: the connection's receive window grows by what is announced.
use h2stream.Prelude.{
  ℕ, ◌≡◌, refl, sym, ap, ◌∙◌, false, Option, none, some, if◌then◌else◌, Option-cases, inl, inr, Run,
  ok, panic, out_of_fuel, ◌>>=◌, Post, Post-any, Post-if,
}
use h2stream.Prelude.Int.{pos, ◌-ℤ◌, IsInt32}
use h2stream.Flow.{Flow}
use h2stream.Frame.{WriteFramer, stays_within_buffer, write_push_promise, refused}
use h2stream.Pipe.{PipeBuffer}
use h2stream.WriteQueue.{FrameWriteRequest}
use h2stream.Session.{Session, WriteScheduler, Net}
use h2stream.Session.Streams.{set_stream}
use h2stream.Session.Schedule.{
  wrote_frame, perform_write, allowed_now, start_frame_write, nested, pay,
}
use h2stream.Session.Registry.Scheduling.{begun}
use h2stream.Session.Quiet.{Quiet, reset_request}
use h2stream.Session.Quiet.Writing.{reply_quietly, wrote_quietly}
use h2stream.Session.Announcing.{announcing, Honest, Honest-trans}
use h2stream.Session.Announcing.Updates.{write_frame-Honest, send_window_update-Honest}

module _ (pb : PipeBuffer) (ws : WriteScheduler) where
  abbrev Sess : Type 0
  Sess = Session pb.Buf (ws.Sched × ℕ)

  close_keeps :
      (s : Sess) (id : ℕ)
      → Post
          ((announcing ws).close_stream id s.sched)
          (λ q. (t : Sess) → t.sched ≡ s.sched → Honest s t → Honest s (record t { sched = q }))
  close_keeps s id =
      Post-any _ (ws.close_stream id (s.sched.0)) _
        (λ q t e (v, h). (v, ap (λ x. t.inflow -ℤ pos (x.1)) (sym e) ∙ h))

  -- Closing and resetting streams announces what it gives.
  pub Honest-Quiet :
      (schedule : Sess → Run Sess)
      → ((s : Sess) → IsInt32 s.inflow → Post (schedule s) (Honest s))
      → Quiet pb (announcing ws) schedule Honest
  unfolding set_stream
  Honest-Quiet schedule honest = record {
    compose = Honest-trans;
    right = λ s t (v, _). (v, refl);
    assigned = λ s id st st' v e f g. v;
    counted = λ s t l m n h. h;
    noted = λ s t l h. h;
    stopped = λ s t h. h;
    released = close_keeps;
    updates = λ s n v. send_window_update-Honest ws schedule honest s none n (v.0);
    resets =
        λ s id code v. write_frame-Honest ws schedule honest s (reset_request id code) (v.0) refl;
  }

module _ (pb : PipeBuffer) (ws : WriteScheduler) (net : ℕ → Net) where
  abbrev ws' : WriteScheduler
  ws' = announcing ws

  abbrev Served : Type 0
  Served = Session pb.Buf (ws.Sched × ℕ)

  abbrev inner : Served → Run Served
  inner = nested pb ws' net

  nested-Honest : (s : Served) → IsInt32 s.inflow → Post (inner s) (Honest s)
  unfolding nested
  nested-Honest s v = Post-if (Honest s) _ (ok s) out_of_fuel (v, refl) tt

  quiet : Quiet pb ws' inner Honest
  quiet = Honest-Quiet pb ws inner nested-Honest

  perform_write-Honest :
      (s : Served) (wr : FrameWriteRequest) (w : WriteFramer)
      → IsInt32 s.inflow
      → Post (perform_write pb ws' net inner s wr w) (Honest s)
  unfolding perform_write
  perform_write-Honest s wr w v =
      Post-if (Honest s) (stays_within_buffer w (net s.writes).room)
        (wrote_frame pb ws' net inner (begun pb ws' net s w) wr (net s.writes).failed) (ok _)
        (wrote_quietly pb ws' net inner Honest quiet (λ t w. nested-Honest t (w.0))
          (begun pb ws' net s w) wr (net s.writes).failed (v, refl))
        (v, refl)

  pub start_frame_write-Honest :
      (s : Served) (wr : FrameWriteRequest)
      → IsInt32 s.inflow
      → Post (start_frame_write pb ws' net inner s wr) (Honest s)
  unfolding start_frame_write
  start_frame_write-Honest s wr v = go wr.write
    where
      allowed_first :
          (w : Option WriteFramer) (r : Run Served)
          → Post r (Honest s)
          → Post
              (if s.writing_frame
                then panic
                else (allowed_now pb ws' net s (record wr { write = w }) >>= λ fine.
                    if fine then r else panic))
              (Honest s)
      allowed_first w r h = Post-if (Honest s) s.writing_frame panic _ tt (
          Post-any (Honest s) (allowed_now pb ws' net s (record wr { write = w })) _
            (λ fine. Post-if (Honest s) fine r panic h tt))

      go :
          (w : Option WriteFramer)
          → Post (start_frame_write pb ws' net inner s (record wr { write = w })) (Honest s)
      go none = allowed_first none panic tt
      go (some (write_push_promise n (refused err) h)) =
          allowed_first (some (write_push_promise n (refused err) h)) _ (
            reply_quietly pb ws' net inner Honest quiet (λ t w. nested-Honest t (w.0))
              (record s { writing_frame_async = false })
              (record wr { write = some (write_push_promise n (refused err) h) }) (some err)
              (v, refl))
      go (some w) =
          allowed_first (some w) _ (perform_write-Honest s (record wr { write = some w }) w v)

  pub pay_receives :
      (s : Served) (wr : FrameWriteRequest) (out : Option Flow)
      → ((pay pb ws' net s wr out).inflow ≡ s.inflow) × ((pay pb ws' net s wr out).sched ≡ s.sched)
  unfolding pay set_stream
  pay_receives s wr none = (refl, refl)
  pay_receives s wr (some f) = go wr.stream
    where
      go :
          (o : Option ℕ)
          → ((pay pb ws' net s (record wr { stream = o }) (some f)).inflow ≡ s.inflow)
            × ((pay pb ws' net s (record wr { stream = o }) (some f)).sched ≡ s.sched)
      go none = (refl, refl)
      go (some id) = elim (Option-cases (s.objects id)) [
        | inl e ↦ rw (pay, e) (refl, refl)
        | inr (st, e) ↦ rw (pay, e) (refl, refl)
      ]
