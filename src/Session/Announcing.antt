-- ===== src/Session/Announcing.antt =====
-- session_write.go: the connection's receive window against the WINDOW_UPDATE frames that announce it.
pub mod Updates
pub mod Looping
pub mod Rounds
pub mod Data
pub mod Opening
pub mod Reading
pub mod Serving
pub mod Handling
pub mod Reaching
use h2stream.Prelude.{
  ℕ, ◌+◌, ◌≡◌, refl, sym, ap, ◌∙◌, true, false, Option, none, some, inl, inr, Bool, Bool-cases,
  arith, Run, ok, ◌>>=◌,
}
use h2stream.Prelude.Int.{
  ℤ, pos_part, neg_part, pos, ◌+ℤ◌, ◌-ℤ◌, ◌≤ℤ◌, IsInt32, wrap32, ltb_ℤ, +ℤ_parts, -ℤ_parts,
  eq_of_parts,
}
use h2stream.Flow
use h2stream.Flow.{Flow}
use h2stream.Frame.{write_window_update}
use h2stream.WriteQueue.{FrameWriteRequest}
use h2stream.Session.{Session, WriteScheduler}
use h2stream.Session.Windows.{window_of}

-- What a request announces to the peer for the connection.
abbrev pub announced : FrameWriteRequest → ℕ
announced wr = elim wr.stream [
  | some id ↦ 0
  | none ↦ elim wr.write [ some (write_window_update id n) ↦ n | _ ↦ 0 ]
]

-- The scheduler with a count of what was ever announced through it.
abbrev pub announcing : WriteScheduler → WriteScheduler
announcing ws = record {
  Sched = ws.Sched × ℕ;
  open_stream = λ id p (q, n). ws.open_stream id p q >>= λ q'. ok (q', n);
  close_stream = λ id (q, n). ws.close_stream id q >>= λ q'. ok (q', n);
  adjust_stream = λ id p (q, n). ws.adjust_stream id p q >>= λ q'. ok (q', n);
  push = λ wr (q, n). ws.push wr q >>= λ q'. ok (q', n + announced wr);
  pop = λ flows size (q, n). ws.pop flows size q >>= λ (o, q'). ok (o, (q', n));
}

module _ {B S : Type 0} where
  -- The receive window without what was announced.
  abbrev pub credit : Session B (S × ℕ) → ℤ
  credit s = s.inflow -ℤ pos (s.sched.1)

  -- All that the window has grown by was announced, and all that was announced it has grown by.
  abbrev pub Honest : Session B (S × ℕ) → Session B (S × ℕ) → Type 0
  Honest s t = IsInt32 t.inflow × (credit t ≡ credit s)

  -- The same, with `n` bytes announced that the window has not grown by yet.
  abbrev pub Owing : ℕ → Session B (S × ℕ) → Session B (S × ℕ) → Type 0
  Owing n s t = IsInt32 t.inflow × (credit t ≡ credit s -ℤ pos n)

  pub Honest-trans : (s t u : Session B (S × ℕ)) → Honest s t → Honest t u → Honest s u
  Honest-trans s t u (_, e) (v, e') = (v, e' ∙ e)

pub announce_more : (z : ℤ) (k n : ℕ) → z -ℤ pos (k + n) ≡ (z -ℤ pos k) -ℤ pos n
announce_more z k n =
    eq_of_parts _ _
      (omega (arith, -ℤ_parts (z -ℤ pos k) (pos n), -ℤ_parts z (pos k), -ℤ_parts z (pos (k + n))))

pub grow_owed : (z c : ℤ) (k n : ℕ) → z -ℤ pos k ≡ c -ℤ pos n → (z +ℤ pos n) -ℤ pos k ≡ c
grow_owed z c k n h = eq_of_parts _ _ (
    omega (
      arith,
      ap pos_part h,
      ap neg_part h,
      -ℤ_parts (z +ℤ pos n) (pos k),
      -ℤ_parts z (pos k),
      -ℤ_parts c (pos n),
      +ℤ_parts z (pos n),
    ))

-- An increment that add accepts
pub added :
    (z : ℤ) (n : ℕ)
    → IsInt32 z
    → (Flow.add (window_of z) (pos n)).1 ≡ true
    → ((Flow.add (window_of z) (pos n)).0.n ≡ z +ℤ pos n) × IsInt32 (z +ℤ pos n)
unfolding Flow.add ◌+ℤ◌ ◌-ℤ◌ wrap32
added z n v h = ground arith
