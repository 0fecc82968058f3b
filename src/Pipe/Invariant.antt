-- ===== src/Pipe/Invariant.antt =====
-- pipe.go: the states of a pipe, and its methods on them.
use h2stream.Prelude.{
  ◌++◌, take, drop, length-zero, ltb→lt, ℕ, ◌≡◌, refl, ap, sym, subst, ◌⊎◌, inl, inr, ◌≢◌, true,
  false, Option, none, some, List, [], length, arith, Run, ok, Option-cases, ltb, Bool-cases,
}
use h2stream.Errors.{Error, closed_pipe_write}
use h2stream.Pipe.{
  PipeBuffer, Pipe, ReadStep, waits, returns, new_pipe, set_err, set_break, done, read, read_end,
  write,
}

module _ (pb : PipeBuffer) where
  open pb use {Buf, IsGood}

  abbrev Holds : Option Buf → Type 0
  Holds none = Unit {0}
  Holds (some b) = IsGood b

  -- The buffer is good, it is nil only after an error, and the channel of Done is closed exactly if
  -- there is an error.
  pub record IsPipe (p : Pipe Buf) : Type 0 where
    pub good : Holds p.b
    pub kept : p.err ≡ none → p.break_err ≡ none → p.b ≢ none
    pub quiet : p.donec ≡ some false → (p.err ≡ none) × (p.break_err ≡ none)
    pub signalled : p.donec ≡ some true → (p.err ≢ none) ⊎ (p.break_err ≢ none)

  pub new_pipe-IsPipe : (b : Buf) → IsGood b → IsPipe (new_pipe b)
  unfolding new_pipe
  new_pipe-IsPipe b g = ground arith

  pub set_err-IsPipe :
      (p : Pipe Buf) (e : Error) (fn : Option ℕ) → IsPipe p → IsPipe (set_err p e fn)
  unfolding set_err
  set_err-IsPipe p e fn v = ground arith

  pub set_break-IsPipe :
      (p : Pipe Buf) (e : Error) (fn : Option ℕ) → IsPipe p → IsPipe (set_break p e fn)
  unfolding set_break
  set_break-IsPipe p e fn v = ground arith

  pub done-IsPipe : (p : Pipe Buf) → IsPipe p → IsPipe (done p)
  unfolding done
  done-IsPipe p v = ground arith

  -- The unread bytes.
  abbrev unread_of : Option Buf → List ℕ
  unread_of none = []
  unread_of (some b) = pb.contents b

  abbrev pub unread : Pipe Buf → List ℕ
  unread p = unread_of p.b

  put_back : (p : Pipe Buf) (b : Buf) → IsGood b → IsPipe p → IsPipe (record p { b = some b })
  put_back p b g v = record {
    good = g;
    kept = λ h k e. cc;
    quiet = v.quiet;
    signalled = v.signalled;
  }

  -- What a write of `d` to the pipe comes to.
  abbrev pub Written : Pipe Buf → List ℕ → Run (ℕ × Option Error × Pipe Buf) → Type 0
  Written p d r =
      ((p.err ≢ none) × (r ≡ ok (0, some closed_pipe_write, p)))
      ⊎ ((p.err ≡ none) × (p.break_err ≢ none) × (r ≡ ok (length d, none, p)))
      ⊎ ((p.err ≡ none)
          × (p.break_err ≡ none)
          × ((b' : Buf) × (r ≡ ok (length d, none, record p { b = some b' }))
              × IsPipe (record p { b = some b' })
              × (unread (record p { b = some b' }) ≡ unread p ++ d)))

  -- Write on a reachable pipe does not panic. After a close it fails and changes nothing; after a
  -- break it discards the bytes; otherwise it appends them all to the unread ones.
  pub write_lem : (p : Pipe Buf) (d : List ℕ) → IsPipe p → Written p d (write pb p d)
  unfolding write
  write_lem p d v = elim (Option-cases p.err) [
    | inr (e, h) ↦ inl (ground arith, ground arith)
    | inl h ↦ elim (Option-cases p.break_err) [
      | inr (e, k) ↦ inr (inl (h, ground arith, ground arith))
      | inl k ↦ elim (Option-cases p.b) [
        | inl m ↦ absurd (v.kept h k m)
        | inr (b, m) ↦
            let (b', e, g, same) = pb.write_good b d (ground (arith, v.good)) in
            inr (inr (h, k, (b', ground (arith, e), put_back p b' g v, rw m same)))
      ]
    ]
  ]

  -- What a read of up to `k` bytes from a reachable pipe comes to.
  pub data Outcome (p : Pipe Buf) (k : ℕ) (r : Run (ReadStep (Pipe Buf))) : Type 0 where
    -- broken: the error at once, and no change
    broken :
        (e : Error) → p.break_err ≡ some e → r ≡ ok (returns [] (some e) none p) → Outcome p k r
    -- the front of the unread bytes
    front :
        (b' : Buf)
        → p.break_err ≡ none
        → unread p ≢ []
        → r ≡ ok (returns (take k (unread p)) none none (record p { b = some b' }))
        → IsPipe (record p { b = some b' })
        → pb.contents b' ≡ drop k (unread p)
        → Outcome p k r
    -- closed and all read: the error
    ended :
        (e : Error)
        → p.break_err ≡ none
        → unread p ≡ []
        → p.err ≡ some e
        → r ≡ ok (returns [] (some e) p.read_fn (record p { read_fn = none; b = none }))
        → IsPipe (record p { read_fn = none; b = none })
        → Outcome p k r
    -- nothing to read yet
    blocked : p.break_err ≡ none → unread p ≡ [] → p.err ≡ none → r ≡ ok waits → Outcome p k r

  read_end-Outcome :
      (p : Pipe Buf) (k : ℕ)
      → IsPipe p
      → p.break_err ≡ none
      → unread p ≡ []
      → Outcome p k (ok (read_end pb p))
  unfolding read_end
  read_end-Outcome p k v h n = elim (Option-cases p.err) [
    | inl e ↦ blocked h n e (ground arith)
    | inr (e, q) ↦ ended e h n q (ground arith) (ground arith)
  ]

  to_end :
      (p : Pipe Buf) (k : ℕ)
      → IsPipe p
      → p.break_err ≡ none
      → unread p ≡ []
      → read pb p k ≡ ok (read_end pb p)
      → Outcome p k (read pb p k)
  to_end p k v h n e = subst (Outcome p k) (sym e) (read_end-Outcome p k v h n)

  read-buffer :
      (p : Pipe Buf) (b : Buf) (k : ℕ)
      → IsPipe p
      → p.break_err ≡ none
      → p.b ≡ some b
      → IsGood b
      → Outcome p k (read pb p k)
  unfolding read
  read-buffer p b k v h m g = elim (Bool-cases (ltb 0 (pb.len b))) [
    | inl e ↦
        let filled : pb.contents b ≢ [] =
          λ n. absurd (omega (arith, ltb→lt _ _ e, pb.len-contents b g, ap length n)) in
        let (b', q, g', same) = pb.read_good b k g filled in
        front b' h (rw m filled) (ground (arith, q)) (put_back p b' g' v) (rw m same)
    | inr e ↦
        let n : pb.contents b ≡ [] =
          length-zero (pb.contents b) (ground (arith, pb.len-contents b g)) in
        to_end p k v h (rw m n) (ground arith)
  ]

  -- Read on a reachable pipe never panics. A broken pipe gives its error at once; otherwise the
  -- front of the unread bytes comes first, then the error of a close, and with neither it waits.
  pub read-Outcome : (p : Pipe Buf) (k : ℕ) → IsPipe p → Outcome p k (read pb p k)
  unfolding read
  read-Outcome p k v = elim (Option-cases p.break_err) [
    | inr (e, h) ↦ broken e h (ground arith)
    | inl h ↦ elim (Option-cases p.b) [
      | inl m ↦ to_end p k v h (rw m refl) (ground arith)
      | inr (b, m) ↦ read-buffer p b k v h m (rw m at v.good)
    ]
  ]
