-- ===== src/Session/Announcing/Rounds.antt =====
-- session_write.go, scheduleFrameWrite: the rounds of the loop and the connection's receive window.
use h2stream.Prelude.{
  ℕ, zero, suc, ◌≡◌, refl, ap, Bool, true, false, ◌||◌, not, Option, none, some, ◌==◌, Run, ok,
  ◌>>=◌, Post, Post-bind, Post-any, Post-if,
}
use h2stream.Prelude.Int.{ℤ, pos, ◌-ℤ◌, IsInt32}
use h2stream.ErrCode
use h2stream.Flow.{Flow}
use h2stream.Frame.{flush_frame_writer, write_go_away, write_settings_ack}
use h2stream.Pipe.{PipeBuffer}
use h2stream.WriteQueue.{FrameWriteRequest}
use h2stream.Session.{Session, WriteScheduler, Net}
use h2stream.Session.Schedule.{
  start_frame_write, nested, pay, flow_of, schedule_round, schedule_loop, schedule_frame_write,
  bare,
}
use h2stream.Session.Registry.Scheduling.{flushing}
use h2stream.Session.Announcing.{announcing, Honest, Honest-trans}
use h2stream.Session.Announcing.Looping.{start_frame_write-Honest, pay_receives}

module _ (pb : PipeBuffer) (ws : WriteScheduler) (net : ℕ → Net) where
  abbrev Served : Type 0
  Served = Session pb.Buf (ws.Sched × ℕ)

  abbrev ws' : WriteScheduler
  ws' = announcing ws

  abbrev To : Served → Served × Bool → Type 0
  To s (t, more) = Honest s t

  abbrev start : Served → FrameWriteRequest → Run Served
  start = start_frame_write pb ws' net (nested pb ws' net)

  sent :
      (s p : Served) (wr : FrameWriteRequest) (f : Served → Served)
      → Honest s p
      → ((t : Served) → Honest s t → Honest s (f t))
      → Post (start p wr >>= λ t. ok (f t, true)) (To s)
  sent s p wr f h still =
      Post-bind (Honest p) (To s) (start p wr) _ (start_frame_write-Honest pb ws net p wr (h.0))
        (λ t g. still t (Honest-trans s p t h g))

  flush-Honest : (s p : Served) → Honest s p → Post (flushing pb ws' net p) (To s)
  flush-Honest s p h =
      Post-if (To s) p.needs_frame_flush _ (ok _)
        (sent s p (bare flush_frame_writer) (λ t. record t { needs_frame_flush = false }) h
          (λ t g. g))
        h

  paid-Honest :
      (s p : Served) (wr : FrameWriteRequest) (flow : Option Flow)
      → Honest s p
      → Honest s (pay pb ws' net p wr flow)
  paid-Honest s p wr flow (v, e) =
      let (a, b) = pay_receives pb ws net p wr flow in (rw a v, rw (a, b) e)

  popped-Honest :
      (s : Served) (o : Option (FrameWriteRequest × Option Flow)) (q : ws.Sched × ℕ)
      → IsInt32 s.inflow
      → q.1 ≡ s.sched.1
      → Post
          (elim o as (λ x. Run (Served × Bool)) [
            | none ↦ flushing pb ws' net (record s { sched = q })
            | some (wr, flow) ↦
                start (pay pb ws' net (record s { sched = q }) wr flow) wr >>= λ t. ok (t, true)
          ])
          (To s)
  popped-Honest s none q v e =
      flush-Honest s (record s { sched = q }) (v, ap (λ k. s.inflow -ℤ pos k) e)
  popped-Honest s (some (wr, flow)) q v e =
      sent s (pay pb ws' net (record s { sched = q }) wr flow) wr (λ t. t)
        (paid-Honest s (record s { sched = q }) wr flow (v, ap (λ k. s.inflow -ℤ pos k) e))
        (λ t g. g)

  pop_keeps :
      (flows : ℕ → Option Flow) (size : ℤ) (q : ws.Sched × ℕ)
      → Post (ws'.pop flows size q) (λ (o, q'). q'.1 ≡ q.1)
  pop_keeps flows size (q, k) = Post-any _ (ws.pop flows size q) _ (λ (o, q'). refl)

  schedule_round-Honest :
      (s : Served) → IsInt32 s.inflow → Post (schedule_round pb ws' net s) (To s)
  unfolding schedule_round
  schedule_round-Honest s v =
      Post-if (To s) s.writing_frame_async (ok _) _ (v, refl)
        (Post-if (To s) s.need_to_send_go_away _ _
          (sent s (record s { need_to_send_go_away = false })
            (bare (write_go_away s.max_client_stream_id s.go_away_code)) (λ t. t) (v, refl)
            (λ t g. g))
          (Post-if (To s) s.need_to_send_settings_ack _ _
            (sent s (record s { need_to_send_settings_ack = false }) (bare write_settings_ack)
              (λ t. t) (v, refl) (λ t g. g))
            (Post-if (To s) (not s.in_go_away || s.go_away_code == ErrCode.no_error) _ _
              (Post-bind _ (To s) (ws'.pop (flow_of pb ws' net s) s.max_frame_size s.sched) _
                (pop_keeps (flow_of pb ws' net s) s.max_frame_size s.sched)
                (λ (o, q) e. popped-Honest s o q v e))
              (flush-Honest s s (v, refl)))))

  schedule_loop-Honest :
      (fuel : ℕ) (s p : Served) → Honest s p → Post (schedule_loop pb ws' net fuel p) (Honest s)
  unfolding schedule_loop
  schedule_loop-Honest zero s p h = tt
  schedule_loop-Honest (suc f) s p h =
      Post-bind (To p) (Honest s) (schedule_round pb ws' net p) _ (schedule_round-Honest p (h.0))
        (λ (t, more) g.
          elim more
            as (λ y.
              Post
                (elim y as (λ x. Run Served) [ true ↦ schedule_loop pb ws' net f t | false ↦ ok t ])
                (Honest s)) [
                  | true ↦ schedule_loop-Honest f s t (Honest-trans s p t h g)
                  | false ↦ Honest-trans s p t h g
                ])

  -- With an int32 receive window for the connection, that window grows in scheduleFrameWrite, which may
  -- close streams with unread data, by exactly what is announced to the peer in WINDOW_UPDATE requests.
  pub schedule_frame_write-Honest :
      (fuel : ℕ) (s : Served)
      → IsInt32 s.inflow
      → Post (schedule_frame_write pb ws' net fuel s) (Honest s)
  unfolding schedule_frame_write
  schedule_frame_write-Honest fuel s v =
      Post-if (Honest s) (s.writing_frame || s.in_frame_schedule_loop) (ok s) _ (v, refl)
        (Post-bind (Honest s) _ (schedule_loop pb ws' net fuel _) _
          (schedule_loop-Honest fuel s (record s { in_frame_schedule_loop = true }) (v, refl))
          (λ t h. h))
