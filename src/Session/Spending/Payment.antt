-- ===== src/Session/Spending/Payment.antt =====
-- session_write.go, scheduleFrameWrite: the rounds of the loop and what they spend.
use h2stream.Prelude.{
  ℕ, zero, suc, ◌≡◌, refl, length, Bool, true, false, ◌||◌, not, Option, none, some, ◌==◌, Run, ok,
  panic, out_of_fuel, ◌>>=◌, Post, Post-bind, Post-if,
}
use h2stream.ErrCode
use h2stream.Frame.{flush_frame_writer, write_go_away, write_settings_ack}
use h2stream.Pipe.{PipeBuffer}
use h2stream.WriteQueue.{FrameWriteRequest}
use h2stream.WriteQueue.Consume.{bytes_of}
use h2stream.Flow.{Flow}
use h2stream.Session.{Session, WriteScheduler, Net}
use h2stream.Session.Schedule.{
  start_frame_write, pay, flow_of, schedule_round, schedule_loop, schedule_frame_write, bare,
}
use h2stream.Session.Registry.Scheduling.{flushing}
use h2stream.Session.Spending.{Paid, Paying}
use h2stream.Session.Spending.Looping.{Wrote, start_frame_write-Wrote}
use h2stream.Session.Spending.Balance.{
  inner, HasWindows, Balanced, CanWrite, Leads, Leads-refl, Leads-trans, bare_written,
  charged_written, pay-CanWrite, flow_of-IsFlow,
}

module _ (pb : PipeBuffer) (ws : WriteScheduler) (net : ℕ → Net) (paying : Paying ws) where
  abbrev Served : Type 0
  Served = Session pb.Buf ws.Sched

  abbrev To : Served → Served × Bool → Type 0
  To s (t, more) = Leads pb ws net s t

  abbrev start : Served → FrameWriteRequest → Run Served
  start = start_frame_write pb ws net (inner pb ws net)

  -- A frame without DATA, from a session with the same windows.
  sent :
      (s : Served) (wr : FrameWriteRequest) (f : Served → Served)
      → length (bytes_of wr) ≡ 0
      → ((t : Served) → Leads pb ws net s t → Leads pb ws net s (f t))
      → HasWindows pb ws net s
      → Post (start s wr >>= λ t. ok (f t, true)) (To s)
  sent s wr f z still v =
      Post-bind (Wrote pb ws net s wr) (To s) (start s wr) _
        (start_frame_write-Wrote pb ws net s wr (v.0))
        (λ t w. still t (bare_written pb ws net s t wr v z w))

  flush-Leads : (s : Served) → HasWindows pb ws net s → Post (flushing pb ws net s) (To s)
  flush-Leads s v =
      Post-if (To s) s.needs_frame_flush _ (ok _)
        (sent s (bare flush_frame_writer) (λ t. record t { needs_frame_flush = false }) refl
          (λ t h. h) v)
        (Leads-refl pb ws net s v)

  popped-Leads :
      (s : Served) (o : Option (FrameWriteRequest × Option Flow)) (q : ws.Sched)
      → HasWindows pb ws net s
      → Paid (flow_of pb ws net s) o
      → Post
          (elim o as (λ x. Run (Served × Bool)) [
            | none ↦ flushing pb ws net (record s { sched = q })
            | some (wr, flow) ↦
                start (pay pb ws net (record s { sched = q }) wr flow) wr >>= λ t. ok (t, true)
          ])
          (To s)
  unfolding flow_of
  popped-Leads s none q v h = flush-Leads (record s { sched = q }) v
  popped-Leads s (some (wr, flow)) q v h =
      let s' : Served = record s { sched = q } in
      let p : Served = pay pb ws net s' wr flow in
      let (own, paid, same, enough) : CanWrite pb ws net s' wr p =
        pay-CanWrite pb ws net s' wr flow v h in
      Post-bind (Wrote pb ws net p wr) (To s) (start p wr) _
        (start_frame_write-Wrote pb ws net p wr (own.0))
        (λ t w. charged_written pb ws net s p t wr own paid same enough w)

  schedule_round-Leads :
      (s : Served) → HasWindows pb ws net s → Post (schedule_round pb ws net s) (To s)
  unfolding schedule_round
  schedule_round-Leads s v =
      Post-if (To s) s.writing_frame_async (ok _) _ (Leads-refl pb ws net s v) (
        Post-if (To s) s.need_to_send_go_away _ _
          (sent (record s { need_to_send_go_away = false })
            (bare (write_go_away s.max_client_stream_id s.go_away_code)) (λ t. t) refl (λ t h. h) v)
          (Post-if (To s) s.need_to_send_settings_ack _ _
            (sent (record s { need_to_send_settings_ack = false }) (bare write_settings_ack)
              (λ t. t) refl (λ t h. h) v)
            (Post-if (To s) (not s.in_go_away || s.go_away_code == ErrCode.no_error) _ _
              (Post-bind _ (To s) (ws.pop (flow_of pb ws net s) s.max_frame_size s.sched) _
                (paying.pop_pays (flow_of pb ws net s) s.max_frame_size s.sched
                  (flow_of-IsFlow pb ws net s v))
                (λ (o, q) h. popped-Leads s o q v h))
              (flush-Leads s v))))

  schedule_loop-Leads :
      (fuel : ℕ) (s : Served)
      → HasWindows pb ws net s
      → Post (schedule_loop pb ws net fuel s) (Leads pb ws net s)
  unfolding schedule_loop
  schedule_loop-Leads zero s v = tt
  schedule_loop-Leads (suc f) s v =
      Post-bind (To s) (Leads pb ws net s) (schedule_round pb ws net s) _ (schedule_round-Leads s v)
        (λ (t, more) (w, b).
          elim more
            as (λ y.
              Post
                (elim y as (λ x. Run Served) [ true ↦ schedule_loop pb ws net f t | false ↦ ok t ])
                (Leads pb ws net s)) [
                  | true ↦ after t (schedule_loop pb ws net f t) b (schedule_loop-Leads f t w)
                  | false ↦ (w, b)
                ])
    where
      after :
          (t : Served) (r : Run Served)
          → Balanced pb ws net s t
          → Post r (Leads pb ws net t)
          → Post r (Leads pb ws net s)
      after t (ok u) b h = Leads-trans pb ws net s t u b h
      after t panic b h = tt
      after t out_of_fuel b h = tt

  -- With a write scheduler that consumes what it pops, and all windows int32 values before, the windows
  -- are int32 values after scheduleFrameWrite, the connection's has fallen by exactly the bytes of the
  -- DATA frames that were written, and it is not negative if it was not before.
  pub schedule_frame_write-Balanced :
      (fuel : ℕ) (s : Served)
      → HasWindows pb ws net s
      → Post
          (schedule_frame_write pb ws net fuel s)
          (λ t. HasWindows pb ws net t × Balanced pb ws net s t)
  unfolding schedule_frame_write
  schedule_frame_write-Balanced fuel s v =
      Post-if _ (s.writing_frame || s.in_frame_schedule_loop) (ok s) _ (Leads-refl pb ws net s v) (
        Post-bind (Leads pb ws net s) _ (schedule_loop pb ws net fuel _) _
          (schedule_loop-Leads fuel (record s { in_frame_schedule_loop = true }) v) (λ t h. h))
