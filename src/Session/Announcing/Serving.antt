-- ===== src/Session/Announcing/Serving.antt =====
-- session.go, serve: the connection's receive window over the rounds of the serve loop.
use h2stream.Prelude.{
  ℕ, ◌+◌, ◌<◌, ◌≤◌, ◌^◌, ◌≡◌, refl, ap, ◌∙◌, Option, arith, Run, ok, panic, out_of_fuel, Post,
}
use h2stream.Prelude.Int.{ℤ, pos, ◌-ℤ◌, IsInt32, -ℤ_parts, eq_of_parts}
use h2stream.Errors.{Error}
use h2stream.Frame.{Setting}
use h2stream.Pipe.{PipeBuffer}
use h2stream.Session.{Session, WriteScheduler, Net}
use h2stream.Session.Schedule.{schedule_frame_write}
use h2stream.Session.Frames.{
  Frame, settings_frame, meta_headers_frame, window_update_frame, ping_frame, data_frame,
  rst_stream_frame, priority_frame, go_away_frame, push_promise_frame, other_frame,
}
use h2stream.Session.Serve.{got, Event, wants_write, read_frame, dispatch}
use h2stream.Session.Announcing.{announced, announcing, credit, Honest}
use h2stream.Session.Announcing.Data.{Received, gone, early, excess, counted, process_data-Received}
use h2stream.Session.Announcing.Rounds.{schedule_frame_write-Honest}
use h2stream.Session.Announcing.Opening.{At, process_headers-At}
use h2stream.Session.Announcing.Reading.{
  process_settings-At, process_ping-At, process_window_update-At, process_reset_stream-At,
  process_go_away-At, process_priority-At,
}
use Prim.Native.String.{String}

-- The bytes of DATA that a frame or an event counts against the windows.
abbrev pub size_of : Frame → ℕ
size_of (data_frame _ _ size _) = size
size_of _ = 0

abbrev pub data_size_of : Event → ℕ
data_size_of (read_frame (got f)) = size_of f
data_size_of _ = 0

-- A frame within the framer's limits; a handler asks for no WINDOW_UPDATE of the connection.
abbrev pub IsTameFrame : Frame → Type 0
IsTameFrame (data_frame _ _ size _) = size < 2 ^ 31
IsTameFrame _ = Unit {0}

abbrev pub IsTame : Event → Type 0
IsTame (read_frame (got f)) = IsTameFrame f
IsTame (wants_write wr) = announced wr ≡ 0
IsTame _ = Unit {0}

fewer : (z c : ℤ) (m n : ℕ) → z ≡ (c -ℤ pos m) -ℤ pos n → z ≡ c -ℤ pos (m + n)
fewer z c m n h =
    h
    ∙ eq_of_parts _ _
        (omega (arith, -ℤ_parts (c -ℤ pos m) (pos n), -ℤ_parts c (pos m), -ℤ_parts c (pos (m + n))))

minus_nothing : (z c : ℤ) → z ≡ c → z ≡ c -ℤ pos 0
minus_nothing z c h = h ∙ eq_of_parts _ _ (omega (arith, -ℤ_parts c (pos 0)))

-- The receive window has lost at most `k` bytes, apart from what was announced.
abbrev pub Lowered : {B S : Type 0} → ℕ → Session B (S × ℕ) → Session B (S × ℕ) → Type 0
Lowered k s t = IsInt32 t.inflow × ((n : ℕ) × (n ≤ k) × (credit t ≡ credit s -ℤ pos n))

-- What follows from a result's property.
pub Post-all_in :
    {A : Type 0} {P Q : A → Type 0} (r : Run A) → Post r P → ((a : A) → P a → Q a) → Post r Q
Post-all_in (ok a) h k = k a h
Post-all_in panic h k = tt
Post-all_in out_of_fuel h k = tt

module _ {B S : Type 0} where
  pub spent_nothing : (k : ℕ) (s t : Session B (S × ℕ)) → At (credit s) t → Lowered k s t
  spent_nothing k s t (v, e) = (v, (0, omega arith, minus_nothing (credit t) (credit s) e))

  pub spent_more :
      (j k : ℕ) (s t u : Session B (S × ℕ)) → Lowered j s t → Lowered k t u → Lowered (j + k) s u
  spent_more j k s t u (_, (m, a, e)) (v, (n, b, e')) = (
    v,
    (m + n, omega (arith, a, b), fewer (credit u) (credit s) m n (e' ∙ ap (λ z. z -ℤ pos n) e)),
  )

  -- An honest end.
  pub spent_then :
      (k : ℕ) (s t u : Session B (S × ℕ)) → Lowered k s t → At (credit t) u → Lowered k s u
  spent_then k s t u (_, (n, a, e)) (v, e') = (v, (n, a, e' ∙ e))

  pub spending :
      {A : Type 0} (k : ℕ) (s : Session B (S × ℕ)) (r : Run (A × Session B (S × ℕ)))
      → Post r (λ (_, t). At (credit s) t)
      → Post r (λ (_, t). Lowered k s t)
  spending k s (ok (a, t)) h = spent_nothing k s t h
  spending k s panic h = tt
  spending k s out_of_fuel h = tt

module _ (pb : PipeBuffer) (ws : WriteScheduler) (net : ℕ → Net) (valid : Setting → Option Error)
    (canonical : String → String) (fuel : ℕ) where
  abbrev pub Sess : Type 0
  Sess = Session pb.Buf (ws.Sched × ℕ)

  abbrev ws' : WriteScheduler
  ws' = announcing ws

  abbrev pub again : Sess → Run Sess
  again = schedule_frame_write pb ws' net fuel

  pub honest : (s : Sess) → IsInt32 s.inflow → Post (again s) (Honest s)
  honest s v = schedule_frame_write-Honest pb ws net fuel s v

  Received-Lowered :
      (s : Sess) (id size : ℕ) (x : Option Error × Sess)
      → IsInt32 s.inflow
      → Received pb ws net fuel s id size x
      → Lowered size s (x.1)
  Received-Lowered s id size _ v (gone _) = spent_nothing size s s (v, refl)
  Received-Lowered s id size _ v (early _) = spent_nothing size s s (v, refl)
  Received-Lowered s id size _ v (excess n _) = spent_nothing size s s (v, refl)
  Received-Lowered s id size _ v (counted e t w _ h) = (w, (size, omega arith, h))

  pub dispatch-Lowered :
      (s : Sess) (f : Frame)
      → IsInt32 s.inflow
      → IsTameFrame f
      → Post (dispatch pb ws' net valid canonical fuel s f) (λ (_, t). Lowered (size_of f) s t)
  unfolding dispatch
  dispatch-Lowered s (settings_frame ack xs) v p =
      spending 0 s _ (process_settings-At pb ws again honest (credit s) valid s ack xs (v, refl))
  dispatch-Lowered s (meta_headers_frame f) v p =
      spending 0 s _ (process_headers-At pb ws again honest (credit s) canonical s f (v, refl))
  dispatch-Lowered s (window_update_frame id n) v p =
      spending 0 s _ (process_window_update-At pb ws again honest (credit s) s id n (v, refl))
  dispatch-Lowered s (ping_frame ack id payload) v p =
      spending 0 s _ (process_ping-At pb ws again honest (credit s) s ack id payload (v, refl))
  dispatch-Lowered s (data_frame id payload size ended) v p =
      Post-all_in _ (process_data-Received pb ws net fuel s id payload size ended v p)
        (λ x h. Received-Lowered s id size x v h)
  dispatch-Lowered s (rst_stream_frame id code) v p =
      spending 0 s _ (process_reset_stream-At pb ws again honest (credit s) s id code (v, refl))
  dispatch-Lowered s (priority_frame id q) v p =
      spending 0 s _ (process_priority-At pb ws again honest (credit s) s id q (v, refl))
  dispatch-Lowered s (go_away_frame code) v p =
      spending 0 s _ (process_go_away-At pb ws again honest (credit s) s code (v, refl))
  dispatch-Lowered s push_promise_frame v p = spent_nothing 0 s s (v, refl)
  dispatch-Lowered s other_frame v p = spent_nothing 0 s s (v, refl)
