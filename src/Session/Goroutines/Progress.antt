-- ===== src/Session/Goroutines/Progress.antt =====
-- readFrames and serve: neither goroutine waits for the other for ever.
use h2stream.Prelude.{
  ℕ, ◌≡◌, ◌⊎◌, inl, inr, refl, Bool, Option, List, [], ◌∷◌, Run, ok, panic, out_of_fuel,
}
use h2stream.Errors.{Error}
use h2stream.Frame.{Setting}
use h2stream.Pipe.{PipeBuffer}
use h2stream.Session.{WriteScheduler, Net}
use h2stream.Session.Serve.{ReadFrameResult, read_frame}
use h2stream.Session.Goroutines.{
  ReaderState, reading, offering, waiting, returned, ServeState, selecting, processing, releasing,
  done_serving, Turn, reads, takes, processes, releases, abandons, leaves, started_with,
  Interleaved,
}
use h2stream.Session.Goroutines.Serial.{Coupled, Interleaved-Refines, Sess, Threads, again}
use Prim.Native.String.{String}

module _ (pb : PipeBuffer) (ws : WriteScheduler) (net : ℕ → Net) (valid : Setting → Option Error)
    (canonical : String → String) (fuel : ℕ) where
  abbrev Of : Type 0
  Of = Threads pb ws net valid canonical fuel

  abbrev pub Moves : Of → Type 0
  Moves t = (u : Of) × Turn pb ws net valid canonical fuel t u

  -- A call that panics or does not return.
  abbrev pub Fails : Run (Bool × Sess pb ws net valid canonical fuel) → Type 0
  Fails (ok _) = ⊥
  Fails _ = Unit {0}

  -- Why neither goroutine takes a turn: ReadFrame has returned nothing yet; readFrames has returned,
  -- and the loop waits for an event of another kind, or is over; or the loop fails on a frame.
  abbrev pub Rests : Of → Type 0
  Rests t =
      ((t.reader ≡ reading) × (t.incoming ≡ []))
      ⊎ ((t.reader ≡ returned) × ((t.serving ≡ selecting) ⊎ (t.serving ≡ done_serving)))
      ⊎ ((r : ReadFrameResult) × (t.serving ≡ processing r)
          × Fails (again pb ws net valid canonical fuel t.session (read_frame r)))

  reads_on :
      (t : Of) (rs : List ReadFrameResult)
      → t.reader ≡ reading
      → t.incoming ≡ rs
      → Moves t ⊎ Rests t
  reads_on t [] e f = inr (inl (e, f))
  reads_on t (r ∷ rs) e f = inl (_, reads t r rs e f)

  processes_on :
      (t : Of) (r : ReadFrameResult) (x : Run (Bool × Sess pb ws net valid canonical fuel))
      → t.serving ≡ processing r
      → again pb ws net valid canonical fuel t.session (read_frame r) ≡ x
      → Moves t ⊎ Rests t
  processes_on t r (ok (more, s)) e f = inl (_, processes t r more s e f)
  processes_on t r panic e f = inr (inr (inr (r, e, rw (Fails, f) tt)))
  processes_on t r out_of_fuel e f = inr (inr (inr (r, e, rw (Fails, f) tt)))

  by_states :
      (t : Of) (v : ServeState) (w : ReaderState)
      → t.serving ≡ v
      → t.reader ≡ w
      → Coupled v w
      → Moves t ⊎ Rests t
  by_states t selecting reading e f z = reads_on t t.incoming f refl
  by_states t selecting (offering r) e f z = inl (_, takes t r e f)
  by_states t selecting (waiting r) e f z = elim z [ ]
  by_states t selecting returned e f z = inr (inr (inl (f, inl e)))
  by_states t (processing r) w e f z = processes_on t r _ e refl
  by_states t releasing (waiting r) e f z = inl (_, releases t r e f)
  by_states t releasing reading e f z = elim z [ ]
  by_states t releasing (offering r) e f z = elim z [ ]
  by_states t releasing returned e f z = elim z [ ]
  by_states t done_serving reading e f z = reads_on t t.incoming f refl
  by_states t done_serving (offering r) e f z = inl (_, abandons t r e f)
  by_states t done_serving (waiting r) e f z = inl (_, leaves t r e f)
  by_states t done_serving returned e f z = inr (inr (inl (f, inr e)))

  -- In every state that the goroutines reach, one of them can take a turn, or they rest for one of the
  -- reasons of `Rests`: readMore always finds the reader at the gate, and after the end of the loop
  -- readFrames comes to its end with what ReadFrame returns.
  pub Interleaved-Moves :
      (s : Sess pb ws net valid canonical fuel) (input : List ReadFrameResult) (t : Of)
      → Interleaved pb ws net valid canonical fuel
          (started_with pb ws net valid canonical fuel s input)
          t
      → Moves t ⊎ Rests t
  Interleaved-Moves s input t r =
      let (_, _, z) = Interleaved-Refines pb ws net valid canonical fuel s input t r in
      by_states t t.serving t.reader refl refl z
