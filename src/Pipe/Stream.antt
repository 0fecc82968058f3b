-- ===== src/Pipe/Stream.antt =====
-- pipe.go: sequences of calls, and what a reader gets of what was written.
use h2stream.Prelude.{
  ℕ, zero, suc, ◌≡◌, refl, ap, sym, subst, ◌∙◌, inl, inr, Option, none, some, List, [], ◌∷◌, ◌++◌,
  append-nil, append_assoc, length, length-drop, take-append-drop, arith, Run, ok, panic, ◌>>=◌,
  length-zero, ◌⊎◌, ◌≢◌, ◌≤◌, ◌+◌, ◌==◌, Bool, true, false, Bool-cases, if◌then◌else◌, take, drop,
}
use h2stream.Errors.{Error}
use h2stream.Pipe.{
  PipeBuffer, Pipe, ReadStep, waits, returns, new_pipe, set_err, set_break, done, read, write,
  close_with_error, break_with_error, close_with_error_and_code,
}
use h2stream.Pipe.Invariant.{
  IsPipe, new_pipe-IsPipe, set_err-IsPipe, set_break-IsPipe, done-IsPipe, unread, write_lem, broken,
  front, ended, blocked, read-Outcome,
}

pub data Call : Type 0 where
  writes : List ℕ → Call
  reads : ℕ → Call
  closes breaks : Option Error → Call
  closes_with_code : Option Error → ℕ → Call
  asks_done : Call

-- A close or break with a nil error.
abbrev pub has_nil : Call → Bool
has_nil (closes none) = true
has_nil (breaks none) = true
has_nil (closes_with_code none fn) = true
has_nil _ = false

abbrev pub any_nil : List Call → Bool
any_nil [] = false
any_nil (c ∷ cs) = if has_nil c then true else any_nil cs

true≢false : true ≢ false
true≢false h = cc

-- The sum of the sizes, and how many of them are positive.
abbrev pub sum : List ℕ → ℕ
sum [] = 0
sum (k ∷ ks) = k + sum ks

abbrev pub positives : List ℕ → ℕ
positives [] = 0
positives (k ∷ ks) = (if k == 0 then 0 else 1) + positives ks

take_nil : (n : ℕ) → take {A = ℕ} n [] ≡ []
take_nil zero = refl
take_nil (suc n) = refl

take_add : (a b : ℕ) (xs : List ℕ) → take a xs ++ take b (drop a xs) ≡ take (a + b) xs
take_add zero b xs = ap (λ n. take n xs) (omega arith)
take_add (suc a) b [] = take_nil b ∙ sym (take_nil (suc a + b))
take_add (suc a) b (x ∷ xs) =
    ap (λ ys. x ∷ ys) (take_add a b xs)
    ∙ ap (λ n. take n (x ∷ xs)) (let e : suc (a + b) ≡ suc a + b = omega arith in e)

module _ (pb : PipeBuffer) where
  open pb use {Buf, IsGood}

  abbrev after_read : Pipe Buf → ReadStep (Pipe Buf) → Pipe Buf
  after_read p waits = p
  after_read p (returns _ _ _ q) = q

  -- A call of one goroutine; a read that waits leaves the pipe as it is.
  step : Pipe Buf → Call → Run (Pipe Buf)
  step p (writes d) = write pb p d >>= λ (_, _, q). ok q
  step p (reads k) = read pb p k >>= λ r. ok (after_read p r)
  step p (closes e) = close_with_error p e
  step p (breaks e) = break_with_error p e
  step p (closes_with_code e fn) = close_with_error_and_code p e fn
  step p asks_done = ok (done p)

  pub run : Pipe Buf → List Call → Run (Pipe Buf)
  run p [] = ok p
  run p (c ∷ cs) = step p c >>= λ q. run q cs

  Safe : Run (Pipe Buf) → Type 0
  Safe r = (q : Pipe Buf) × (r ≡ ok q) × IsPipe pb q

  step-write-Safe : (p : Pipe Buf) (d : List ℕ) → IsPipe pb p → Safe (step p (writes d))
  unfolding step Safe
  step-write-Safe p d v = elim (write_lem pb p d v) [
    | inl (_, e) ↦ (p, ground (arith, e), v)
    | inr (inl (_, _, e)) ↦ (p, ground (arith, e), v)
    | inr (inr (_, _, (b', e, v', _))) ↦ (record p { b = some b' }, ground (arith, e), v')
  ]

  step-read-Safe : (p : Pipe Buf) (k : ℕ) → IsPipe pb p → Safe (step p (reads k))
  unfolding step Safe
  step-read-Safe p k v = elim (read-Outcome pb p k v) [
    | broken e _ q ↦ (p, ground (arith, q), v)
    | front b' _ _ q v' _ ↦ (record p { b = some b' }, ground (arith, q), v')
    | ended e _ _ _ q v' ↦ (record p { read_fn = none; b = none }, ground (arith, q), v')
    | blocked _ _ _ q ↦ (p, ground (arith, q), v)
  ]

  step-Safe : (p : Pipe Buf) (c : Call) → IsPipe pb p → has_nil c ≡ false → Safe (step p c)
  unfolding step Safe close_with_error break_with_error close_with_error_and_code
  step-Safe p (writes d) v n = step-write-Safe p d v
  step-Safe p (reads k) v n = step-read-Safe p k v
  step-Safe p (closes (some e)) v n = (set_err p e none, refl, set_err-IsPipe pb p e none v)
  step-Safe p (breaks (some e)) v n = (set_break p e none, refl, set_break-IsPipe pb p e none v)
  step-Safe p (closes_with_code (some e) fn) v n =
      (set_err p e (some fn), refl, set_err-IsPipe pb p e (some fn) v)
  step-Safe p (closes none) v n = absurd (true≢false n)
  step-Safe p (breaks none) v n = absurd (true≢false n)
  step-Safe p (closes_with_code none fn) v n = absurd (true≢false n)
  step-Safe p asks_done v n = (done p, refl, done-IsPipe pb p v)

  step-panic : (p : Pipe Buf) (c : Call) → has_nil c ≡ true → step p c ≡ panic
  unfolding step close_with_error break_with_error close_with_error_and_code
  step-panic p (closes none) n = refl
  step-panic p (breaks none) n = refl
  step-panic p (closes_with_code none fn) n = refl
  step-panic p (closes (some e)) n = absurd (true≢false (sym n))
  step-panic p (breaks (some e)) n = absurd (true≢false (sym n))
  step-panic p (closes_with_code (some e) fn) n = absurd (true≢false (sym n))
  step-panic p (writes d) n = absurd (true≢false (sym n))
  step-panic p (reads k) n = absurd (true≢false (sym n))
  step-panic p asks_done n = absurd (true≢false (sym n))

  -- A nil error among the calls panics; otherwise none does.
  Ends : List Call → Run (Pipe Buf) → Type 0
  Ends cs r = ((any_nil cs ≡ true) × (r ≡ panic)) ⊎ ((any_nil cs ≡ false) × Safe r)

  run-Ends : (p : Pipe Buf) (cs : List Call) → IsPipe pb p → Ends cs (run p cs)
  unfolding run Safe Ends
  run-Ends p [] v = inr (refl, (p, refl, v))
  run-Ends p (c ∷ cs) v = elim (Bool-cases (has_nil c)) [
    | inl n ↦ inl (rw n refl, rw (step-panic p c n) refl)
    | inr n ↦
        let (q, e, w) = step-Safe p c v n in
        elim (run-Ends q cs w) [
          | inl (m, e') ↦ inl (rw n m, rw e e')
          | inr (m, (q', e', w')) ↦ inr (rw n m, (q', rw e e', w'))
        ]
  ]

  -- Whatever calls are made on a new pipe, in whatever order, they panic if and only if one of them
  -- closes or breaks the pipe with a nil error; otherwise the pipe keeps its invariant: the buffer is nil
  -- only after an error, and the channel of Done is closed exactly then.
  pub run-IsPipe :
      (b : Buf) (cs : List Call)
      → IsGood b
      → ((any_nil cs ≡ true) × (run (new_pipe b) cs ≡ panic))
        ⊎ ((any_nil cs ≡ false) × ((q : Pipe Buf) × (run (new_pipe b) cs ≡ ok q) × IsPipe pb q))
  unfolding Safe Ends
  run-IsPipe b cs g = run-Ends (new_pipe b) cs (new_pipe-IsPipe pb b g)

  -- A reader that makes reads of the given sizes until it gets an error or would wait.
  pub read_all : List ℕ → Pipe Buf → Run (List ℕ × Option Error)
  read_all [] p = ok ([], none)
  read_all (k ∷ ks) p = read pb p k >>= λ r. elim r [
    | waits ↦ ok ([], none)
    | returns out e _ q ↦ elim e [
      | some e ↦ ok (out, some e)
      | none ↦ read_all ks q >>= λ (more, e'). ok (out ++ more, e')
    ]
  ]

  -- What reads of the sizes `ks` give of the bytes `u` before the error `e`.
  pub Given : List ℕ → List ℕ → Error → Run (List ℕ × Option Error) → Type 0
  Given ks u e r =
      (r ≡ ok (u, some e)) ⊎ ((r ≡ ok (take (sum ks) u, none)) × (positives ks ≤ length u))

  pub read_all-Given :
      (ks : List ℕ) (p : Pipe Buf) (e : Error)
      → IsPipe pb p
      → p.break_err ≡ none
      → p.err ≡ some e
      → Given ks (unread pb p) e (read_all ks p)
  unfolding read_all Given
  read_all-Given [] p e v h q = inr (refl, omega arith)
  read_all-Given (k ∷ ks) p e v h q = elim (read-Outcome pb p k v) [
    | broken e' h' r ↦ absurd (cc)
    | ended e' _ n q' r _ ↦ inl (rw (r, n) (ground arith))
    | blocked _ _ q' _ ↦ absurd (cc)
    | front b' _ n r v' same ↦
        let left = length-drop k (unread pb p) in
        elim (read_all-Given ks (record p { b = some b' }) e v' h q) [
          | inl x ↦ inl (rw (r, x, same, take-append-drop) refl)
          | inr (x, l) ↦ inr (
            rw (r, x, same, take_add) refl,
            grind (
              arith,
              l,
              ap length same,
              left,
              λ (t : length (unread pb p) ≡ 0). n (length-zero _ t),
            ),
          )
        ]
  ]

  abbrev pub concat : List (List ℕ) → List ℕ
  concat [] = []
  concat (d ∷ ds) = d ++ concat ds

  pub write_all : Pipe Buf → List (List ℕ) → Run (Pipe Buf)
  write_all p [] = ok p
  write_all p (d ∷ ds) = write pb p d >>= λ (_, _, q). write_all q ds

  -- Open, with `xs` unread.
  record IsOpen (p : Pipe Buf) (xs : List ℕ) : Type 0 where
    valid : IsPipe pb p
    open_err : p.err ≡ none
    open_break : p.break_err ≡ none
    holds : unread pb p ≡ xs

  write_all-IsOpen :
      (p : Pipe Buf) (xs : List ℕ) (ds : List (List ℕ))
      → IsOpen p xs
      → (q : Pipe Buf) × (write_all p ds ≡ ok q) × IsOpen q (xs ++ concat ds)
  unfolding write_all
  write_all-IsOpen p xs [] o = (
    p,
    refl,
    record {
      valid = o.valid;
      open_err = o.open_err;
      open_break = o.open_break;
      holds = o.holds ∙ sym (append-nil xs);
    },
  )
  write_all-IsOpen p xs (d ∷ ds) o = elim (write_lem pb p d o.valid) [
    | inl (h, _) ↦ absurd (h o.open_err)
    | inr (inl (_, h, _)) ↦ absurd (h o.open_break)
    | inr (inr (_, _, (b', e, v', same))) ↦
        let next : IsOpen (record p { b = some b' }) (xs ++ d) = record {
          valid = v';
          open_err = o.open_err;
          open_break = o.open_break;
          holds = same ∙ ap (λ ys. ys ++ d) o.holds;
        } in
        let (q, e', o') = write_all-IsOpen (record p { b = some b' }) (xs ++ d) ds next in
        (q, ground (arith, e, e'), subst (IsOpen q) (append_assoc xs d (concat ds)) o')
  ]

  -- The bytes written to a new pipe before a close are what a reader gets after it, in order: reads of
  -- any sizes, zero included, either give all of them and then the error of the close, or no error and as
  -- many of the first bytes as the sizes sum up to; and the error comes at the latest when more reads of
  -- a positive size are made than there are bytes.
  pub read_all-write_all :
      (b : Buf) (ds : List (List ℕ)) (e : Error) (ks : List ℕ)
      → IsGood b
      → pb.contents b ≡ []
      → (q : Pipe Buf) × (q' : Pipe Buf) × (write_all (new_pipe b) ds ≡ ok q)
        × (close_with_error q (some e) ≡ ok q')
        × ((read_all ks q' ≡ ok (concat ds, some e))
            ⊎ ((read_all ks q' ≡ ok (take (sum ks) (concat ds), none))
                × (positives ks ≤ length (concat ds))))
  unfolding new_pipe close_with_error Given
  read_all-write_all b ds e ks g n =
      let start : IsOpen (new_pipe b) [] = record {
        valid = new_pipe-IsPipe pb b g;
        open_err = refl;
        open_break = refl;
        holds = n;
      } in
      let (q, e', o) = write_all-IsOpen (new_pipe b) [] ds start in
      let closed = set_err q e none in
      let kept : unread pb closed ≡ concat ds = ground (arith, o.holds) in
      let got =
        read_all-Given ks closed e (set_err-IsPipe pb q e none o.valid)
          (ground (arith, o.open_break)) (ground (arith, o.open_err)) in
      (q, closed, e', refl, rw kept at got)
