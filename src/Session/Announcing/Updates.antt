-- ===== src/Session/Announcing/Updates.antt =====
-- session_write.go and session.go: sendWindowUpdate announces what it gives.
use h2stream.Prelude.{
  ℕ, zero, suc, ◌+◌, ◌-◌, ◌/◌, ◌≡◌, refl, ap, ◌∙◌, ◌||◌, Option, none, some, arith, leb, ◌==◌, Run,
  ok, panic, out_of_fuel, ◌>>=◌, Post, Post-bind, Post-any, Post-if, Post-if_known,
}
use h2stream.Prelude.Int.{ℤ, pos, ◌-ℤ◌, IsInt32}
use h2stream.Frame.{
  WriteFramer, write_res_headers, write_100_continue_headers_frame, write_window_update,
}
use h2stream.WriteQueue.{FrameWriteRequest, stream_id}
use h2stream.Session.{Session, WriteScheduler}
use h2stream.Session.Streams.{set_stream}
use h2stream.Session.Writing.{deref, write_frame, note_headers, on_closed}
use h2stream.Session.Windows.{
  grow_inflow, send_window_update32, send_window_update, send_loop, max_uint31, target,
}
use h2stream.Session.Announcing.{
  announced, announcing, credit, Honest, Owing, announce_more, grow_owed, added,
}

module _ {B : Type 0} (ws : WriteScheduler)
    (schedule : Session B (ws.Sched × ℕ) → Run (Session B (ws.Sched × ℕ)))
    (honest : (s : Session B (ws.Sched × ℕ))
      → IsInt32 s.inflow
      → Post (schedule s) (Honest s)) where
  abbrev Sess : Type 0
  Sess = Session B (ws.Sched × ℕ)

  abbrev ws' : WriteScheduler
  ws' = announcing ws

  -- scheduleFrameWrite after something else.
  then_schedule :
      (c : ℤ) (t : Sess)
      → IsInt32 t.inflow
      → credit t ≡ c
      → Post (schedule t) (λ u. IsInt32 u.inflow × (credit u ≡ c))
  then_schedule c t v e = widen (schedule t) (honest t v)
    where
      widen : (r : Run Sess) → Post r (Honest t) → Post r (λ u. IsInt32 u.inflow × (credit u ≡ c))
      widen (ok u) (w, e') = (w, e' ∙ e)
      widen panic h = tt
      widen out_of_fuel h = tt

  note_headers-Honest :
      (s : Sess) (wr : FrameWriteRequest)
      → IsInt32 s.inflow
      → Post (note_headers s wr) (λ (s', _). Honest s s')
  unfolding note_headers set_stream
  note_headers-Honest s wr v = go wr.write wr.stream wr.done
    where
      go :
          (w : Option WriteFramer) (o d : Option ℕ)
          → Post
              (note_headers s (record { write = w; stream = o; done = d }))
              (λ (s', _). Honest s s')
      go (some (write_res_headers r)) o d = Post-any _ (deref s o) _ (λ st. (v, refl))
      go (some (write_100_continue_headers_frame n)) o none =
          Post-any _ (deref s o) _
            (λ st. Post-if _ st.wrote_headers (ok _) (ok _) (v, refl) (v, refl))
      go (some (write_100_continue_headers_frame n)) o (some _) =
          Post-any _ (deref s o) _ (λ st. Post-if _ st.wrote_headers panic (ok _) tt (v, refl))
      go _ o d = (v, refl)

  push_adds :
      (wr : FrameWriteRequest) (q : ws.Sched × ℕ)
      → Post (ws'.push wr q) (λ q'. q'.1 ≡ q.1 + announced wr)
  push_adds wr (q, k) = Post-any _ (ws.push wr q) _ (λ q'. refl)

  -- A request for a stream announces nothing for the connection.
  pub write_frame-Honest :
      (s : Sess) (wr : FrameWriteRequest)
      → IsInt32 s.inflow
      → announced wr ≡ 0
      → Post (write_frame ws' schedule s wr) (Honest s)
  unfolding write_frame
  write_frame-Honest s wr v z =
      Post-bind _ (Honest s) (note_headers s wr) _ (note_headers-Honest s wr v) (λ (t, drop) (w, e).
        Post-if (Honest s) (on_closed s wr || drop) _ _ (then_schedule (credit s) t w e) (
          Post-bind _ (Honest s) (ws'.push wr t.sched) _ (push_adds wr t.sched) (λ q h.
            then_schedule (credit s) (record t { sched = q }) w
              (ap (λ k. t.inflow -ℤ pos k) (omega (arith, h, z)) ∙ e))))

  abbrev update : Option ℕ → ℕ → FrameWriteRequest
  update o n = record {
    write = some (write_window_update (target ws' schedule o) n);
    stream = o;
    done = none;
  }

  -- The request for the connection is never dropped.
  update-Owing :
      (s : Sess) (n : ℕ)
      → IsInt32 s.inflow
      → Post (write_frame ws' schedule s (update none n)) (Owing n s)
  unfolding write_frame note_headers on_closed stream_id
  update-Owing s n v =
      Post-bind _ (Owing n s) (ws'.push (update none n) s.sched) _
        (push_adds (update none n) s.sched)
        (λ q h.
          then_schedule (credit s -ℤ pos n) (record s { sched = q }) v
            (ap (λ k. s.inflow -ℤ pos k) h ∙ announce_more s.inflow (s.sched.1) n))

  grow_inflow-Honest : (s t : Sess) (n : ℕ) → Owing n s t → Post (grow_inflow t none n) (Honest s)
  unfolding grow_inflow
  grow_inflow-Honest s t n (v, e) =
      Post-if_known (Honest s) _ (ok _) panic
        (λ h.
          let (same, w) = added t.inflow n v h in
          rw same (w, grow_owed t.inflow (credit s) (t.sched.1) n e))
        (λ _. tt)

  grow_stream-Honest :
      (t : Sess) (id n : ℕ) → IsInt32 t.inflow → Post (grow_inflow t (some id) n) (Honest t)
  unfolding grow_inflow set_stream
  grow_stream-Honest t id n v =
      Post-any (Honest t) (deref t (some id)) _
        (λ st. Post-if (Honest t) _ (ok _) panic (v, refl) tt)

  honest_bind :
      (s : Sess) (r : Run Sess) (f : Sess → Run Sess)
      → Post r (Honest s)
      → ((t : Sess) → IsInt32 t.inflow → Post (f t) (Honest t))
      → Post (r >>= f) (Honest s)
  honest_bind s (ok t) f (v, e) k = widen (f t) (k t v)
    where
      widen : (r : Run Sess) → Post r (Honest t) → Post r (Honest s)
      widen (ok u) (w, e') = (w, e' ∙ e)
      widen panic h = tt
      widen out_of_fuel h = tt
  honest_bind s panic f h k = tt
  honest_bind s out_of_fuel f h k = tt

  pub send_window_update32-Honest :
      (s : Sess) (o : Option ℕ) (n : ℕ)
      → IsInt32 s.inflow
      → Post (send_window_update32 ws' schedule s o n) (Honest s)
  unfolding send_window_update32
  send_window_update32-Honest s none n v =
      Post-if (Honest s) (n == 0) (ok s) _ (v, refl)
        (Post-bind (Owing n s) (Honest s) (write_frame ws' schedule s (update none n)) _
          (update-Owing s n v) (λ t h. grow_inflow-Honest s t n h))
  send_window_update32-Honest s (some id) n v =
      Post-if (Honest s) (n == 0) (ok s) _ (v, refl)
        (honest_bind s (write_frame ws' schedule s (update (some id) n)) _
          (write_frame-Honest s (update (some id) n) v refl) (λ t w. grow_stream-Honest t id n w))

  send_loop-Honest :
      (f : ℕ) (s : Sess) (o : Option ℕ) (n : ℕ)
      → IsInt32 s.inflow
      → Post (send_loop ws' schedule f s o n) (Honest s)
  unfolding send_loop
  send_loop-Honest zero s o n v = tt
  send_loop-Honest (suc f) s o n v =
      Post-if (Honest s) (leb max_uint31 n)
        (send_window_update32 ws' schedule s o max_uint31 >>= λ s'.
          send_loop ws' schedule f s' o (n - max_uint31))
        _
        (honest_bind s (send_window_update32 ws' schedule s o max_uint31) _
          (send_window_update32-Honest s o max_uint31 v)
          (λ t w. send_loop-Honest f t o (n - max_uint31) w))
        (send_window_update32-Honest s o n v)

  pub send_window_update-Honest :
      (s : Sess) (o : Option ℕ) (n : ℕ)
      → IsInt32 s.inflow
      → Post (send_window_update ws' schedule s o n) (Honest s)
  unfolding send_window_update
  send_window_update-Honest s o n v = send_loop-Honest (suc (n / max_uint31)) s o n v
