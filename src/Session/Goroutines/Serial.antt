-- ===== src/Session/Goroutines/Serial.antt =====
-- readFrames and serve: their interleavings against the serve loop alone.
use h2stream.Prelude.{
  ℕ, ◌≡◌, ◌≢◌, inl, inr, refl, sym, ap, ◌∙◌, subst, Bool, true, false, Bool-cases, Option, List, [],
  ◌∷◌, ◌++◌, append_assoc, append-nil, Run, ok, panic, out_of_fuel, ◌>>=◌,
}
use h2stream.Errors.{Error}
use h2stream.Frame.{Setting}
use h2stream.Pipe.{PipeBuffer}
use h2stream.Session.{Session, WriteScheduler, Net}
use h2stream.Session.Serve.{ReadFrameResult, Event, read_frame, terminal_read_frame_error}
use h2stream.Session.Goroutines.{
  ReaderState, reading, offering, waiting, returned, ServeState, selecting, processing, releasing,
  done_serving, read_on, error_of, is_read, Goroutines, round, Turn, reads, takes, processes,
  releases, handles, abandons, leaves, started_with, Interleaved, here, next, rounds,
}
use Prim.Native.String.{String}

-- The frames among the events.
abbrev pub frames_in : List Event → List ReadFrameResult
frames_in [] = []
frames_in (read_frame r ∷ evs) = r ∷ frames_in evs
frames_in (_ ∷ evs) = frames_in evs

frames_in-append : (xs ys : List Event) → frames_in (xs ++ ys) ≡ frames_in xs ++ frames_in ys
frames_in-append [] ys = refl
frames_in-append (read_frame r ∷ xs) ys = ap (◌∷◌ r) (frames_in-append xs ys)
frames_in-append (_ ∷ xs) ys = frames_in-append xs ys

frames_in-other : (ev : Event) → is_read ev ≡ false → frames_in (ev ∷ []) ≡ []
frames_in-other (read_frame r) h = absurd (cc)
frames_in-other _ h = refl

-- readMore blocks until readFrames is in its second select: the reader waits exactly while the loop
-- works on its frame, or gives the turn back.
abbrev pub Coupled : ServeState → ReaderState → Type 0
Coupled (processing r) (waiting r') = r ≡ r'
Coupled (processing r) _ = ⊥
Coupled releasing (waiting r) = Unit {0}
Coupled releasing _ = ⊥
Coupled selecting (waiting r) = ⊥
Coupled selecting _ = Unit {0}
Coupled done_serving _ = Unit {0}

-- A frame that was read and is not yet processed.
abbrev pub held : ReaderState → ServeState → List ReadFrameResult
held (offering r) _ = r ∷ []
held (waiting r) (processing _) = r ∷ []
held _ _ = []

abbrev pub goes_on : ServeState → Bool
goes_on done_serving = false
goes_on _ = true

done_stops : goes_on done_serving ≢ true
done_stops h = cc

module _ (pb : PipeBuffer) (ws : WriteScheduler) (net : ℕ → Net) (valid : Setting → Option Error)
    (canonical : String → String) (fuel : ℕ) where
  abbrev pub Sess : Type 0
  Sess = Session pb.Buf ws.Sched

  abbrev pub Threads : Type 0
  Threads = Goroutines pb.Buf ws.Sched

  abbrev pub again : Sess → Event → Run (Bool × Sess)
  again = round pb ws net valid canonical fuel

  abbrev serial : Sess → List Event → Run (Bool × Sess)
  serial = rounds pb ws net valid canonical fuel

  -- What a round leads to.
  abbrev follow : (Sess → Run (Bool × Sess)) → Run (Bool × Sess) → Run (Bool × Sess)
  follow f r = r >>= λ (more, s'). elim more [ true ↦ f s' | false ↦ ok (false, s') ]

  went_on : (s t : Sess) → ◌≡◌ {A = Run (Bool × Sess)} (ok (true, s)) (ok (true, t)) → s ≡ t
  went_on s t h = cc

  follow_last :
      (f : Sess → Run (Bool × Sess)) (u : Sess) (more : Bool)
      → f u ≡ ok (true, u)
      → follow f (ok (more, u)) ≡ ok (more, u)
  follow_last f u true h = h
  follow_last f u false h = refl

  follow_more :
      (f g : Sess → Run (Bool × Sess)) (r : Run (Bool × Sess)) (t u : Sess) (more : Bool)
      → follow f r ≡ ok (true, t)
      → ((s : Sess) → f s ≡ ok (true, t) → g s ≡ ok (more, u))
      → follow g r ≡ ok (more, u)
  follow_more f g (ok (true, s)) t u more h k = k s h
  follow_more f g (ok (false, s)) t u more h k = absurd (cc)
  follow_more f g panic t u more h k = absurd (cc)
  follow_more f g out_of_fuel t u more h k = absurd (cc)

  rounds-append :
      (evs : List Event) (ev : Event) (s t u : Sess) (more : Bool)
      → serial s evs ≡ ok (true, t)
      → again t ev ≡ ok (more, u)
      → serial s (evs ++ ev ∷ []) ≡ ok (more, u)
  unfolding rounds
  rounds-append [] ev s t u more h k =
      subst (λ x. follow (λ y. ok (true, y)) (again x ev) ≡ ok (more, u)) (sym (went_on s t h))
        (ap (follow (λ y. ok (true, y))) k ∙ follow_last (λ y. ok (true, y)) u more refl)
  rounds-append (e ∷ evs) ev s t u more h k =
      follow_more (λ x. serial x evs) (λ x. serial x (evs ++ ev ∷ [])) (again s e) t u more h
        (λ x g. rounds-append evs ev x t u more g k)

  -- The frames that were read are those that the loop has handled, then one that was given up, if any,
  -- and the one that is held; while the loop goes on, none is given up.
  abbrev pub InOrder : List ReadFrameResult → Threads → Type 0
  InOrder input t =
      (lost : List ReadFrameResult) × (input
        ≡ frames_in t.events ++ (lost ++ (held t.reader t.serving ++ t.incoming)))
      × (goes_on t.serving ≡ true → lost ≡ [])

  -- The loop alone has come to the session by the same events.
  abbrev pub IsSerial : Sess → Threads → Type 0
  IsSerial s t = serial s t.events ≡ ok (goes_on t.serving, t.session)

  abbrev pub Refines : Sess → List ReadFrameResult → Threads → Type 0
  Refines s input t = IsSerial s t × InOrder input t × Coupled t.serving t.reader

  -- Not between two turns of the loop on one frame.
  Coupled-reading :
      (v : ServeState) (r : ReadFrameResult) → Coupled v reading → Coupled v (offering r)
  Coupled-reading selecting r z = tt
  Coupled-reading done_serving r z = tt
  Coupled-reading (processing _) r z = elim z [ ]
  Coupled-reading releasing r z = elim z [ ]

  Coupled-next : (r : ReadFrameResult) → Coupled selecting (read_on r)
  unfolding read_on
  Coupled-next r = elim (Bool-cases (terminal_read_frame_error (error_of r))) [
    | inl e ↦ rw e tt
    | inr e ↦ rw e tt
  ]

  held-next : (r : ReadFrameResult) → held (read_on r) selecting ≡ []
  unfolding read_on
  held-next r = elim (Bool-cases (terminal_read_frame_error (error_of r))) [
    | inl e ↦ rw e refl
    | inr e ↦ rw e refl
  ]

  one_more : (r : ReadFrameResult) (rs : List ReadFrameResult) → [] ++ (r ∷ rs) ≡ (r ∷ []) ++ rs
  one_more r rs = refl

  busy : (v : ReaderState) (r : ReadFrameResult) → Coupled (processing r) v → v ≡ waiting r
  busy (waiting r') r z = ap waiting (sym z)
  busy reading r z = elim z [ ]
  busy (offering _) r z = elim z [ ]
  busy returned r z = elim z [ ]

  held-done : (v : ReaderState) → held v selecting ≡ held v done_serving
  held-done reading = refl
  held-done (offering r) = refl
  held-done (waiting r) = refl
  held-done returned = refl

  order_processed :
      (input : List ReadFrameResult) (evs : List Event) (lost : List ReadFrameResult)
      (r : ReadFrameResult) (rs : List ReadFrameResult)
      → lost ≡ []
      → input ≡ frames_in evs ++ (lost ++ ((r ∷ []) ++ rs))
      → input ≡ frames_in (evs ++ read_frame r ∷ []) ++ ([] ++ ([] ++ rs))
  order_processed input evs lost r rs h y =
      y
      ∙ ap (λ l. frames_in evs ++ (l ++ ((r ∷ []) ++ rs))) h
      ∙ sym (append_assoc (frames_in evs) (r ∷ []) rs)
      ∙ ap (λ l. l ++ rs) (sym (frames_in-append evs (read_frame r ∷ [])))

  order_other :
      (evs : List Event) (ev : Event)
      → is_read ev ≡ false
      → frames_in (evs ++ ev ∷ []) ≡ frames_in evs
  order_other evs ev h =
      frames_in-append evs (ev ∷ [])
      ∙ ap (◌++◌ (frames_in evs)) (frames_in-other ev h)
      ∙ append-nil (frames_in evs)

  Turn-Refines :
      (s : Sess) (input : List ReadFrameResult) {t u : Threads}
      → Refines s input t
      → Turn pb ws net valid canonical fuel t u
      → Refines s input u
  Turn-Refines s input (x, (lost, y, none_lost), z) (reads t r rs e f) = (
    x,
    (
      lost,
      (rw (e, f) at y) ∙ ap (λ l. frames_in t.events ++ (lost ++ l)) (one_more r rs),
      none_lost,
    ),
    Coupled-reading t.serving r (rw e at z),
  )
  Turn-Refines s input (x, (lost, y, none_lost), z) (takes t r e f) =
      (rw e at x, (lost, rw f at y, λ _. none_lost (rw e refl)), refl)
  Turn-Refines s input (x, (lost, y, none_lost), z) (processes t r true s' e k) =
      let g = busy t.reader r (rw e at z) in
      (
        rounds-append t.events (read_frame r) s t.session s' true (rw e at x) k,
        (
          [],
          rw g (
              order_processed input t.events lost r t.incoming (none_lost (rw e refl))
                (rw (g, e) at y)),
          λ _. refl,
        ),
        rw g tt,
      )
  Turn-Refines s input (x, (lost, y, none_lost), z) (processes t r false s' e k) =
      let g = busy t.reader r (rw e at z) in
      (
        rounds-append t.events (read_frame r) s t.session s' false (rw e at x) k,
        (
          [],
          rw g (
              order_processed input t.events lost r t.incoming (none_lost (rw e refl))
                (rw (g, e) at y)),
          λ _. refl,
        ),
        tt,
      )
  Turn-Refines s input (x, (lost, y, none_lost), z) (releases t r e f) = (
    rw e at x,
    (lost, rw (held-next r) (rw (e, f) at y), λ _. none_lost (rw e refl)),
    Coupled-next r,
  )
  Turn-Refines s input (x, (lost, y, none_lost), z) (handles t ev true s' e n k) = (
    rounds-append t.events ev s t.session s' true (rw e at x) k,
    (lost, rw (order_other t.events ev n) (rw e at y), λ _. none_lost (rw e refl)),
    rw e at z,
  )
  Turn-Refines s input (x, (lost, y, none_lost), z) (handles t ev false s' e n k) = (
    rounds-append t.events ev s t.session s' false (rw e at x) k,
    (lost, rw (order_other t.events ev n, ← (held-done t.reader)) (rw e at y), λ h. absurd (cc)),
    tt,
  )
  Turn-Refines s input (x, (lost, y, none_lost), z) (abandons t r e f) = (
    x,
    (
      lost ++ r ∷ [],
      (rw f at y) ∙ ap (λ l. frames_in t.events ++ l) (sym (append_assoc lost (r ∷ []) t.incoming)),
      λ h. absurd (done_stops (rw e at h)),
    ),
    rw e tt,
  )
  Turn-Refines s input (x, (lost, y, none_lost), z) (leaves t r e f) =
      (x, (lost, rw (e, f) at y, none_lost), rw e tt)

  -- However the two goroutines take turns, the session and whether it goes on are those of the serve
  -- loop alone on the events handled; the frames among these are those that ReadFrame returned, each
  -- once and in order, up to the one that is held, and while the loop goes on none is lost; and the
  -- reader waits on its second select exactly while the loop works on its frame or gives it back.
  pub Interleaved-Refines :
      (s : Sess) (input : List ReadFrameResult) (t : Threads)
      → Interleaved pb ws net valid canonical fuel
          (started_with pb ws net valid canonical fuel s input)
          t
      → Refines s input t
  unfolding rounds
  Interleaved-Refines s input t here = (refl, ([], refl, λ _. refl), tt)
  Interleaved-Refines s input t (next r u) =
      Turn-Refines s input (Interleaved-Refines s input _ r) u
