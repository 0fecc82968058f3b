-- ===== src/Session/Spending.antt =====
-- session_write.go: what the scheduling loop takes from the connection's window, and what it writes.
pub mod Inner
pub mod Looping
pub mod Balance
pub mod Payment
pub mod Splitting
pub mod Popping
use h2stream.Prelude.{
  ℕ, ◌+◌, ◌≡◌, ◌≢◌, refl, subst, ap, ◌∙◌, Bool, true, false, Option, none, some, List, [], ◌∷◌,
  length, Run, ok, panic, out_of_fuel, ◌>>=◌, Post, Post-bind, ◌==◌, ==→≡, if◌then◌else◌,
  Bool-cases, inl, inr, arith,
}
use h2stream.Prelude.Int.{ℤ, pos, ◌+ℤ◌, ◌≤ℤ◌, IsInt32}
use h2stream.Flow.{Flow, available}
use h2stream.Flow.Laws.{IsFlow}
use h2stream.Frame.{WriteFramer, write_data}
use h2stream.WriteQueue.{FrameWriteRequest}
use h2stream.WriteQueue.Consume.{bytes_of, spent}
use h2stream.Session.{Stream, Session, WriteScheduler}
use h2stream.Session.Streams.{set_stream}

-- The window that a request's frame is sent in.
abbrev pub window_for : (ℕ → Option Flow) → Option ℕ → Option Flow
window_for flows none = none
window_for flows (some id) = flows id

-- A request that Pop returns, with the window of its stream before and after.
abbrev pub PaidBy : Option Flow → FrameWriteRequest → Option Flow → Type 0
PaidBy none wr out = (bytes_of wr ≡ []) × (out ≡ none)
PaidBy (some f) wr out =
    (out ≡ some (spent f (length (bytes_of wr))))
    × (bytes_of wr ≢ [] → pos (length (bytes_of wr)) ≤ℤ available f)
    × IsFlow (spent f (length (bytes_of wr)))

abbrev pub Paid : (ℕ → Option Flow) → Option (FrameWriteRequest × Option Flow) → Type 0
Paid flows none = Unit {0}
Paid flows (some (wr, out)) = PaidBy (window_for flows wr.stream) wr out

-- A write scheduler that consumes: where the windows are int32 values, Pop returns only DATA that the
-- stream's window allows, and takes its bytes from that window.
pub record Paying (ws : WriteScheduler) : Type 0 where
  pub pop_pays :
      (flows : ℕ → Option Flow) (size : ℤ) (q : ws.Sched)
      → ((id : ℕ) (f : Flow) → flows id ≡ some f → IsFlow f)
      → Post (ws.pop flows size q) (λ (o, q'). Paid flows o)

-- The bytes of DATA among the frames written
abbrev pub data_in : List WriteFramer → ℕ
data_in [] = 0
data_in (write_data _ p _ ∷ ws) = length p + data_in ws
data_in (_ ∷ ws) = data_in ws

abbrev pub window_at : {B : Type 0} → Option (Stream B) → Option ℤ
window_at none = none
window_at (some st) = some st.flow

pub some_same : {A : Type 0} (x y : A) → some x ≡ some y → x ≡ y
some_same x y h = cc

module _ {B S : Type 0} where
  -- Every stream object is at its own id.
  abbrev pub OwnIds : Session B S → Type 0
  OwnIds s = (id : ℕ) (st : Stream B) → s.objects id ≡ some st → st.id ≡ id

  -- An operation that writes nothing and leaves the windows as they are.
  abbrev pub Calm : Session B S → Session B S → Type 0
  Calm s t =
      OwnIds t
      × (t.flow ≡ s.flow)
      × (t.written ≡ s.written)
      × ((id : ℕ) → window_at (t.objects id) ≡ window_at (s.objects id))

  pub Calm-refl : (s : Session B S) → OwnIds s → Calm s s
  Calm-refl s o = (o, refl, refl, λ id. refl)

  pub Calm-trans : (s t u : Session B S) → Calm s t → Calm t u → Calm s u
  Calm-trans s t u (_, a, b, c) (o, a', b', c') = (o, a' ∙ a, b' ∙ b, λ id. c' id ∙ c id)

  -- One operation after another.
  pub Calm-bind :
      (s : Session B S) (r : Run (Session B S)) (f : Session B S → Run (Session B S))
      → Post r (Calm s)
      → ((t : Session B S) → OwnIds t → Post (f t) (Calm t))
      → Post (r >>= f) (Calm s)
  Calm-bind s (ok t) f h k = widen (f t) (k t (h.0))
    where
      widen : (r : Run (Session B S)) → Post r (Calm t) → Post r (Calm s)
      widen (ok u) x = Calm-trans s t u h x
      widen panic x = tt
      widen out_of_fuel x = tt
  Calm-bind s panic f h k = tt
  Calm-bind s out_of_fuel f h k = tt

  pub set_stream-OwnIds : (s : Session B S) (st : Stream B) → OwnIds s → OwnIds (set_stream s st)
  unfolding set_stream
  set_stream-OwnIds s st own k x = elim (Bool-cases (st.id == k)) [
    | inl y ↦ rw y (λ h. subst (λ z. z.id ≡ k) (some_same st x h) (==→≡ st.id k y))
    | inr n ↦ rw n (own k x)
  ]

  -- What holds of all windows still does, if it holds of the new one.
  pub set_stream-windows :
      (P : ℤ → Type 0) (s : Session B S) (st : Stream B)
      → P st.flow
      → ((id : ℕ) (z : ℤ) → window_at (s.objects id) ≡ some z → P z)
      → (id : ℕ) (z : ℤ) → window_at ((set_stream s st).objects id) ≡ some z
      → P z
  unfolding set_stream
  set_stream-windows P s st new old k z = elim (Bool-cases (st.id == k)) [
    | inl y ↦ rw y (λ h. subst P (some_same st.flow z h) new)
    | inr n ↦ rw n (old k z)
  ]

  -- The assignment of an object with the same id and window
  pub set_stream-Calm :
      (s : Session B S) (id : ℕ) (st st' : Stream B)
      → OwnIds s
      → s.objects id ≡ some st
      → st'.id ≡ st.id
      → st'.flow ≡ st.flow
      → Calm s (set_stream s st')
  unfolding set_stream
  set_stream-Calm s id st st' own e same still = (
    set_stream-OwnIds s st' own,
    refl,
    refl,
    λ k. elim (Bool-cases (st'.id == k)) [
      | inr n ↦ rw n refl
      | inl y ↦
          let at_key : id ≡ k = omega (arith, ==→≡ st'.id k y, same, own id st e) in
          rw (y, ← at_key, e) (ap some still)
    ],
  )
