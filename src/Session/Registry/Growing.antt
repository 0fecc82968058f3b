-- ===== src/Session/Registry/Growing.antt =====
-- session_read.go, processSettingInitialWindowSize: the loop over the map of streams.
use h2stream.Prelude.{
  ℕ, ◌^◌, ◌<◌, ◌≡◌, ◌⊎◌, refl, ap, sym, subst, Bool, true, false, Option, none, some, List, [], ◌∷◌,
  ◌==◌, if◌then◌else◌, ◌∙◌, arith, Bool-cases, Option-cases, inl, inr,
}
use h2stream.Prelude.Int.{ℤ, pos, ◌+ℤ◌, ◌-ℤ◌, ◌≤ℤ◌, IsInt32, wrap32, wrap32_exact, wrap32-IsInt32}
use h2stream.ErrCode
use h2stream.Errors.{Error, connection_error}
use h2stream.Flow
use h2stream.Flow.{max_window}
use h2stream.Pipe.{PipeBuffer}
use h2stream.Session.{Stream, Session, WriteScheduler}
use h2stream.Session.Streams.{has, set_stream}
use h2stream.Session.Windows.{window_of}
use h2stream.Session.Reading.{int32, grow_all, process_initial_window_size}
use h2stream.Session.Registry.{Unique, IsSession}
use h2stream.Session.Registry.Updates.{fit_of, set_stream-IsSession}

-- On a window that is not negative, add with any int32 is exact: it adds without a wrap if the sum is at
-- most 2^31 - 1, and refuses else.
add_signed :
    (a n : ℤ)
    → IsInt32 a
    → pos 0 ≤ℤ a
    → IsInt32 n
    → ((Flow.add (window_of a) n).1 ≡ true → (Flow.add (window_of a) n).0.n ≡ a +ℤ n)
      × ((Flow.add (window_of a) n).1 ≡ false → ¬ (a +ℤ n ≤ℤ max_window))
unfolding Flow.add ◌+ℤ◌ ◌-ℤ◌ wrap32
add_signed a n v h w = (λ e. ground (arith, e), λ e. ground (arith, e))

in_range :
    (val : ℕ) (old : ℤ) → val < 2 ^ 31 → IsInt32 old → pos 0 ≤ℤ old → IsInt32 (pos val -ℤ old)
unfolding ◌-ℤ◌
in_range val old h v k = ground (arith, h, v, k)

growth_exact :
    (val : ℕ) (old : ℤ)
    → val < 2 ^ 31
    → IsInt32 old
    → pos 0 ≤ℤ old
    → wrap32 (int32 val -ℤ old) ≡ pos val -ℤ old
growth_exact val old h v k =
    let e : int32 val ≡ pos val = wrap32_exact (pos val) (omega (arith, h)) in
    ap (λ z. wrap32 (z -ℤ old)) e ∙ wrap32_exact (pos val -ℤ old) (in_range val old h v k)

module _ (pb : PipeBuffer) (ws : WriteScheduler) where
  abbrev Sess : Type 0
  Sess = Session pb.Buf ws.Sched

  -- A stream with its send window moved.
  abbrev pub moved : ℤ → Stream pb.Buf → Stream pb.Buf
  moved growth st = record st { flow = st.flow +ℤ growth }

  abbrev pub moved_in : ℤ → Option (Stream pb.Buf) → Option (Stream pb.Buf)
  moved_in growth none = none
  moved_in growth (some st) = some (moved growth st)

  -- Every stream of the keys is moved, and no other.
  abbrev pub AllMoved : Sess → ℤ → List ℕ → Sess → Type 0
  AllMoved s growth ids t =
      (k : ℕ) → t.objects k ≡ (if has k ids then moved_in growth (s.objects k) else s.objects k)

  -- The window of a stream of the keys would exceed 2^31 - 1.
  abbrev pub Overflows : Sess → ℤ → List ℕ → Type 0
  Overflows s growth ids =
      (k : ℕ) × (st : Stream pb.Buf) × (has k ids ≡ true)
      × (s.objects k ≡ some st)
      × ¬ (st.flow +ℤ growth ≤ℤ max_window)

  -- Either all windows have moved, or one would overflow.
  abbrev pub Grown : Sess → ℤ → List ℕ → Option Error × Sess → Type 0
  Grown s growth ids (e, t) =
      ((e ≡ none) × AllMoved s growth ids t)
      ⊎ ((e ≡ some (connection_error ErrCode.flow_control)) × Overflows s growth ids)

  -- The windows of the keys are int32 values that are not negative.
  abbrev pub AreWindows : Sess → List ℕ → Type 0
  AreWindows s ids =
      (k : ℕ) (st : Stream pb.Buf)
      → has k ids ≡ true
      → s.objects k ≡ some st
      → IsInt32 st.flow × (pos 0 ≤ℤ st.flow)

  move_here :
      (s t : Sess) (growth : ℤ) (id : ℕ) (st st' : Stream pb.Buf) (ids : List ℕ)
      → has id ids ≡ false
      → st'.id ≡ id
      → st' ≡ moved growth st
      → s.objects id ≡ some st
      → AllMoved (set_stream s st') growth ids t
      → AllMoved s growth (id ∷ ids) t
  unfolding set_stream
  move_here s t growth id st st' ids u same m e rest k = elim (Bool-cases (id == k)) [
    | inr n ↦ ground (arith, rest k, n, same)
    | inl y ↦ ground (arith, rest k, y, same, m, e, u)
  ]

  pass_by :
      (s t : Sess) (growth : ℤ) (id : ℕ) (ids : List ℕ)
      → s.objects id ≡ none
      → AllMoved s growth ids t
      → AllMoved s growth (id ∷ ids) t
  pass_by s t growth id ids e rest k = elim (Bool-cases (id == k)) [
    | inr n ↦ ground (arith, rest k, n)
    | inl y ↦ ground (arith, rest k, y, e)
  ]

  -- The stream that refuses the growth ends the loop with an error.
  by_answer :
      (s : Sess) (growth : ℤ) (ids : List ℕ) (fine : Bool) (rest : Option Error × Sess)
      → (fine ≡ true → Grown s growth ids rest)
      → (fine ≡ false → Overflows s growth ids)
      → Grown s growth ids
          (if fine then rest else (some (connection_error ErrCode.flow_control), s))
  by_answer s growth ids true rest h k = h refl
  by_answer s growth ids false rest h k = inr (refl, k refl)

  -- A key of the others: its stream is as before.
  apart :
      (s : Sess) (st' : Stream pb.Buf) (id k : ℕ) (ids : List ℕ)
      → has id ids ≡ false
      → st'.id ≡ id
      → has k ids ≡ true
      → ((set_stream s st').objects k ≡ s.objects k) × (has k (id ∷ ids) ≡ true)
  unfolding set_stream
  apart s st' id k ids u same h = elim (Bool-cases (id == k)) [
    | inr n ↦ (ground (arith, n, same), ground (arith, n, h))
    | inl y ↦ absurd (ground (arith, u, h, y))
  ]

  first_key : (id : ℕ) (ids : List ℕ) → has id (id ∷ ids) ≡ true
  first_key id ids = ground arith

  wider : (id k : ℕ) (ids : List ℕ) → has k ids ≡ true → has k (id ∷ ids) ≡ true
  wider id k ids h = ground (arith, h)

  grow_all-Grown :
      (s : Sess) (growth : ℤ) (ids : List ℕ)
      → IsSession s
      → Unique ids
      → IsInt32 growth
      → AreWindows s ids
      → Grown s growth ids (grow_all pb ws s growth ids)
  unfolding grow_all
  grow_all-Grown s growth [] v u w ok = inl (refl, λ k. refl)
  grow_all-Grown s growth (id ∷ ids) v u w ok = elim (Option-cases (s.objects id)) [
    | inl e ↦
        subst Rest (sym e)
          (elim (grow_all-Grown s growth ids v u.1 w (λ k st h. ok k st (wider id k ids h))) [
            | inl (n, m) ↦ inl (n, pass_by s (grow_all pb ws s growth ids).1 growth id ids e m)
            | inr (n, (k, x, h, e', o)) ↦ inr (n, (k, x, wider id k ids h, e', o))
          ])
    | inr (st, e) ↦
        let (fine, not_fine) =
          add_signed st.flow growth (ok id st (first_key id ids) e).0
            (ok id st (first_key id ids) e).1 w in
        subst Rest (sym e) (
          by_answer s growth (id ∷ ids) (Flow.add (window_of st.flow) growth).1
            (grow_all pb ws (set_stream s (added st)) growth ids)
            (λ y. later st e (ap (λ z. record st { flow = z }) (fine y)) (
              grow_all-Grown (set_stream s (added st)) growth ids
                (set_stream-IsSession s id st (added st) v e refl refl) u.1 w
                (λ k x h e'.
                  let (same, h') = apart s (added st) id k ids u.0 (at_id st e) h in
                  ok k x h' (sym same ∙ e'))))
            (λ n. (id, st, first_key id ids, e, not_fine n)))
  ]
    where
      added : Stream pb.Buf → Stream pb.Buf
      added st = record st { flow = (Flow.add (window_of st.flow) growth).0.n }

      at_id : (st : Stream pb.Buf) → s.objects id ≡ some st → st.id ≡ id
      at_id st e = (fit_of s id st v e).0

      -- The rest of the loop, after the window of `st` has moved.
      later :
          (st : Stream pb.Buf)
          → s.objects id ≡ some st
          → added st ≡ moved growth st
          → Grown
              (set_stream s (added st))
              growth
              ids
              (grow_all pb ws (set_stream s (added st)) growth ids)
          → Grown s growth (id ∷ ids) (grow_all pb ws (set_stream s (added st)) growth ids)
      later st e m (inl (n, all)) = inl (
        n,
        move_here s (grow_all pb ws (set_stream s (added st)) growth ids).1 growth id st (added st)
            ids u.0 (at_id st e) m e all,
      )
      later st e m (inr (n, (k, x, h, e', o))) =
          let (same, h') = apart s (added st) id k ids u.0 (at_id st e) h in
          inr (n, (k, x, h', sym same ∙ e', o))

      grown : Stream pb.Buf → Option Error × Sess
      grown st =
          if (Flow.add (window_of st.flow) growth).1
          then grow_all pb ws
              (set_stream s (record st { flow = (Flow.add (window_of st.flow) growth).0.n })) growth
              ids
          else (some (connection_error ErrCode.flow_control), s)

      round : Option (Stream pb.Buf) → Option Error × Sess
      round none = grow_all pb ws s growth ids
      round (some st) = grown st

      Rest : Option (Stream pb.Buf) → Type 0
      Rest o = Grown s growth (id ∷ ids) (round o)

  -- For a session that keeps the registry of its streams, and windows and initial windows that are int32
  -- values and not negative: a new SETTINGS_INITIAL_WINDOW_SIZE below 2^31 either moves the send window of
  -- every stream in the map by exactly the difference to the old value, and changes no other stream, or is
  -- answered by FLOW_CONTROL_ERROR, and then the window of some stream in the map would exceed 2^31 - 1.
  pub process_initial_window_size-Grown :
      (s : Sess) (val : ℕ)
      → IsSession s
      → val < 2 ^ 31
      → IsInt32 s.initial_stream_send_window_size
      → pos 0 ≤ℤ s.initial_stream_send_window_size
      → AreWindows s s.streams
      → Grown s
          (pos val -ℤ s.initial_stream_send_window_size)
          s.streams
          (process_initial_window_size pb ws s val)
  unfolding process_initial_window_size
  process_initial_window_size-Grown s val v h a b ok =
      let old = s.initial_stream_send_window_size in
      subst
        (λ z. Grown s z s.streams (
          grow_all pb ws (record s { initial_stream_send_window_size = int32 val })
            (wrap32 (int32 val -ℤ old)) s.streams))
        (growth_exact val old h a b)
        (grow_all-Grown (record s { initial_stream_send_window_size = int32 val })
          (wrap32 (int32 val -ℤ old)) s.streams v v.unique (wrap32-IsInt32 (int32 val -ℤ old)) ok)
