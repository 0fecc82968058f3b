-- ===== src/Session/Spending/Balance.antt =====
-- session_write.go, scheduleFrameWrite: the connection's window against the DATA that is written.
use h2stream.Prelude.{
  ℕ, ◌+◌, ◌≡◌, ◌≢◌, refl, sym, ap, subst, ◌∙◌, Option, none, some, List, [], ◌∷◌, length, arith,
  Run,
}
use h2stream.Prelude.Int.{ℤ, pos, ◌+ℤ◌, ◌-ℤ◌, ◌≤ℤ◌, IsInt32, +ℤ_parts, -ℤ_parts, eq_of_parts}
use h2stream.Flow.{Flow, available}
use h2stream.Flow.Laws.{IsFlow}
use h2stream.Pipe.{PipeBuffer}
use h2stream.WriteQueue.{FrameWriteRequest}
use h2stream.WriteQueue.Consume.{bytes_of, spent}
use h2stream.Session.{Stream, Session, WriteScheduler, Net}
use h2stream.Session.Streams.{set_stream}
use h2stream.Session.Schedule.{nested, pay, flow_of}
use h2stream.Session.Spending.{
  OwnIds, window_at, window_for, PaidBy, data_in, set_stream-OwnIds, set_stream-windows, some_same,
}
use h2stream.Session.Spending.Looping.{Wrote}

spent_balance : (z : ℤ) (n d : ℕ) → (z -ℤ pos n) +ℤ pos (d + n) ≡ z +ℤ pos d
spent_balance z n d =
    eq_of_parts _ _
      (omega (arith, +ℤ_parts (z -ℤ pos n) (pos (d + n)), -ℤ_parts z (pos n), +ℤ_parts z (pos d)))

spent_nonneg : (z : ℤ) (n : ℕ) → pos n ≤ℤ z → pos 0 ≤ℤ z -ℤ pos n
spent_nonneg z n h = omega (arith, h, -ℤ_parts z (pos n))

available_conn : (a c : ℤ) → available (record { n = a; conn = some c }) ≤ℤ c
unfolding available
available_conn a c = ground arith

pos_trans : (n : ℕ) (a c : ℤ) → pos n ≤ℤ a → a ≤ℤ c → pos n ≤ℤ c
pos_trans n a c h k = omega (arith, h, k)

minus_zero : (z : ℤ) → z ≡ z -ℤ pos 0
minus_zero z = eq_of_parts _ _ (omega (arith, -ℤ_parts z (pos 0)))

some_flow : (a b : ℤ) → ◌≡◌ {A = Option ℤ} (some a) (some b) → a ≡ b
some_flow a b h = cc

module _ (pb : PipeBuffer) (ws : WriteScheduler) (net : ℕ → Net) where
  abbrev pub Sess : Type 0
  Sess = Session pb.Buf ws.Sched

  abbrev pub inner : Sess → Run Sess
  inner = nested pb ws net

  -- The objects are at their ids, and all windows are int32 values.
  abbrev pub HasWindows : Sess → Type 0
  HasWindows s =
      OwnIds s × IsInt32 s.flow × ((id : ℕ) (z : ℤ) → window_at (s.objects id) ≡ some z → IsInt32 z)

  -- The window pays for the bytes that `t` has written and `s` has not, and is not overdrawn.
  abbrev pub Balanced : Sess → Sess → Type 0
  Balanced s t =
      (t.flow +ℤ pos (data_in t.written) ≡ s.flow +ℤ pos (data_in s.written))
      × (pos 0 ≤ℤ s.flow → pos 0 ≤ℤ t.flow)

  abbrev pub Leads : Sess → Sess → Type 0
  Leads s t = HasWindows t × Balanced s t

  pub Leads-refl : (s : Sess) → HasWindows s → Leads s s
  Leads-refl s v = (v, (refl, λ h. h))

  pub Leads-trans : (s t u : Sess) → Balanced s t → Leads t u → Leads s u
  Leads-trans s t u (a, b) (w, (a', b')) = (w, (a' ∙ a, λ h. b' (b h)))

  -- A frame without DATA
  pub bare_written :
      (s t : Sess) (wr : FrameWriteRequest)
      → HasWindows s
      → length (bytes_of wr) ≡ 0
      → Wrote pb ws net s wr t
      → Leads s t
  bare_written s t wr (_, c, d) z (a, f, b, e) = (
    (a, rw f c, λ id x h. d id x (sym (e id) ∙ h)),
    (
      ap (λ y. y +ℤ pos (data_in t.written)) f ∙ ap (λ n. s.flow +ℤ pos n) (omega (arith, b, z)),
      λ h. rw f h,
    ),
  )

  -- DATA that was paid for before
  pub charged_written :
      (s p t : Sess) (wr : FrameWriteRequest)
      → HasWindows p
      → p.flow ≡ s.flow -ℤ pos (length (bytes_of wr))
      → p.written ≡ s.written
      → (bytes_of wr ≢ [] → pos (length (bytes_of wr)) ≤ℤ s.flow)
      → Wrote pb ws net p wr t
      → Leads s t
  charged_written s p t wr (_, c, d) q w enough (a, f, b, e) =
      let n = length (bytes_of wr) in
      let sum : data_in t.written ≡ data_in s.written + n = b ∙ ap (λ l. data_in l + n) w in
      let flow : t.flow ≡ s.flow -ℤ pos n = f ∙ q in
      (
        (a, rw f c, λ id x h. d id x (sym (e id) ∙ h)),
        (
          ap (λ y. y +ℤ pos (data_in t.written)) flow
              ∙ ap (λ m. (s.flow -ℤ pos n) +ℤ pos m) sum
              ∙ spent_balance s.flow n (data_in s.written),
          λ h. rw flow (spent_nonneg s.flow n (covered (bytes_of wr) h enough)),
        ),
      )
    where
      covered :
          (p : List ℕ)
          → pos 0 ≤ℤ s.flow
          → (p ≢ [] → pos (length p) ≤ℤ s.flow)
          → pos (length p) ≤ℤ s.flow
      covered [] h k = h
      covered (x ∷ p) h k = k (λ e. absurd (cc))

  -- The session from which a popped frame is written.
  abbrev pub CanWrite : Sess → FrameWriteRequest → Sess → Type 0
  CanWrite s wr t =
      HasWindows t
      × (t.flow ≡ s.flow -ℤ pos (length (bytes_of wr)))
      × (t.written ≡ s.written)
      × (bytes_of wr ≢ [] → pos (length (bytes_of wr)) ≤ℤ s.flow)

  free_of_charge :
      (s : Sess) (wr : FrameWriteRequest) (out : Option Flow)
      → HasWindows s
      → bytes_of wr ≡ []
      → out ≡ none
      → CanWrite s wr (pay pb ws net s wr out)
  unfolding pay
  free_of_charge s wr out v e f =
      let same : s.flow ≡ s.flow -ℤ pos (length (bytes_of wr)) = rw e (minus_zero s.flow) in
      rw f (v, same, refl, λ h. absurd (h e))

  charged :
      (s : Sess) (wr : FrameWriteRequest) (id : ℕ) (st : Stream pb.Buf)
      → HasWindows s
      → s.objects id ≡ some st
      → PaidBy
          (some (record { n = st.flow; conn = some s.flow }))
          wr
          (some (spent (record { n = st.flow; conn = some s.flow }) (length (bytes_of wr))))
      → CanWrite s wr (
          pay pb ws net s
            (record wr { stream = some id })
            (some (spent (record { n = st.flow; conn = some s.flow }) (length (bytes_of wr)))))
  unfolding pay set_stream
  charged s wr id st (own, c, d) e (_, limit, (x, y)) =
      let n = length (bytes_of wr) in
      let st' : Stream pb.Buf = record st { flow = st.flow -ℤ pos n } in
      rw (pay, e)
        (
          (set_stream-OwnIds s st' own, y, set_stream-windows IsInt32 s st' x d),
          refl,
          refl,
          λ h.
              pos_trans n (available (record { n = st.flow; conn = some s.flow })) s.flow (limit h)
                (available_conn st.flow s.flow),
        )

  pub pay-CanWrite :
      (s : Sess) (wr : FrameWriteRequest) (out : Option Flow)
      → HasWindows s
      → PaidBy (window_for (flow_of pb ws net s) wr.stream) wr out
      → CanWrite s wr (pay pb ws net s wr out)
  unfolding flow_of
  pay-CanWrite s wr out v = go wr.stream
    where
      seen :
          (id : ℕ) (o : Option (Stream pb.Buf))
          → s.objects id ≡ o
          → PaidBy
              (elim o as (λ x. Option Flow) [
                | none ↦ none
                | some st ↦ some (record { n = st.flow; conn = some s.flow })
              ])
              wr
              out
          → CanWrite s wr (pay pb ws net s (record wr { stream = some id }) out)
      seen id none e (h, f) = free_of_charge s (record wr { stream = some id }) out v h f
      seen id (some st) e (f, limit, fits) = rw f (charged s wr id st v e (refl, limit, fits))

      go :
          (o : Option ℕ)
          → PaidBy (window_for (flow_of pb ws net s) o) wr out
          → CanWrite s wr (pay pb ws net s (record wr { stream = o }) out)
      go none (e, f) = free_of_charge s (record wr { stream = none }) out v e f
      go (some id) h = seen id (s.objects id) refl h

  pub flow_of-IsFlow :
      (s : Sess) → HasWindows s → (id : ℕ) (f : Flow) → flow_of pb ws net s id ≡ some f → IsFlow f
  unfolding flow_of
  flow_of-IsFlow s (_, c, d) id f h = seen (s.objects id) refl h
    where
      seen :
          (o : Option (Stream pb.Buf))
          → s.objects id ≡ o
          → elim o as (λ x. Option Flow) [
            | none ↦ none
            | some st ↦ some (record { n = st.flow; conn = some s.flow })
          ]
            ≡ some f
          → IsFlow f
      seen none e h = absurd (cc)
      seen (some st) e h = subst IsFlow (some_same _ f h) (d id st.flow (rw e refl), c)
