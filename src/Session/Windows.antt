-- ===== src/Session/Windows.antt =====
-- session_write.go and session.go: sending WINDOW_UPDATE frames.
use h2stream.Prelude.{
  ℕ, zero, suc, ◌-◌, ◌/◌, ◌^◌, Option, none, some, leb, ◌==◌, if◌then◌else◌, Run, ok, panic,
  out_of_fuel, ◌>>=◌,
}
use h2stream.Prelude.Int.{ℤ, pos}
use h2stream.Flow
use h2stream.Flow.{Flow}
use h2stream.Frame.{write_window_update}
use h2stream.Session.{half_closed_remote, closed, Session, WriteScheduler}
use h2stream.Session.Streams.{set_stream}
use h2stream.Session.Writing.{deref, write_frame}

abbrev pub max_uint31 : ℕ
max_uint31 = 2 ^ 31 - 1

abbrev pub window_of : ℤ → Flow
window_of n = record { n = n; conn = none }

module _ {B S : Type 0} where
  -- sc.inflow.add(n) or st.inflow.add(n); `none` is the nil stream.
  unfoldable pub grow_inflow : Session B S → Option ℕ → ℕ → Run (Session B S)
  grow_inflow s none n =
      let (f, done) = Flow.add (window_of s.inflow) (pos n) in
      if done then ok (record s { inflow = f.n }) else panic
  grow_inflow s (some id) n = deref s (some id) >>= λ st.
      let (f, done) = Flow.add (window_of st.inflow) (pos n) in
      if done then ok (set_stream s (record st { inflow = f.n })) else panic

module _ (ws : WriteScheduler) {B : Type 0}
    (schedule : Session B ws.Sched → Run (Session B ws.Sched)) where
  abbrev pub target : Option ℕ → ℕ
  target none = 0
  target (some id) = id

  -- sendWindowUpdate32, for an increment that is not negative
  unfoldable pub send_window_update32 : Session B ws.Sched → Option ℕ → ℕ → Run (Session B ws.Sched)
  unfolding grow_inflow write_frame
  send_window_update32 s st n =
      let sent : Run (Session B ws.Sched) =
        write_frame ws schedule s
          (record { write = some (write_window_update (target st) n); stream = st; done = none })
        >>= λ s'. grow_inflow s' st n in
      if n == 0 then ok s else sent

  unfoldable pub send_loop : ℕ → Session B ws.Sched → Option ℕ → ℕ → Run (Session B ws.Sched)
  send_loop zero s st n = out_of_fuel
  send_loop (suc f) s st n =
      let more =
        send_window_update32 s st max_uint31 >>= λ s'. send_loop f s' st (n - max_uint31) in
      if leb max_uint31 n then more else send_window_update32 s st n

  -- sendWindowUpdate
  unfoldable pub send_window_update : Session B ws.Sched → Option ℕ → ℕ → Run (Session B ws.Sched)
  unfolding send_loop
  send_window_update s st n = send_loop (suc (n / max_uint31)) s st n

  -- noteBodyRead, for the stream that the message points to
  unfoldable pub note_body_read : Session B ws.Sched → ℕ → ℕ → Run (Session B ws.Sched)
  unfolding send_window_update
  note_body_read s id n = send_window_update s none n >>= λ s'. deref s' (some id) >>= λ st.
      elim st.state [
        | half_closed_remote ↦ ok s'
        | closed ↦ ok s'
        | _ ↦ send_window_update s' (some id) n
      ]
