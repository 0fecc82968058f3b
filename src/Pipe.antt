-- ===== src/Pipe.antt =====
-- pipe.go: the goroutine-safe pipe between the serve loop, which writes DATA, and a handler's Read.
-- Each method holds the mutex throughout, so it is one step on the pipe; p.c.Wait() is the result
-- `waits`. The buffer is the interface pipeBuffer.
pub mod Buffer
pub mod Invariant
pub mod Stream
use h2stream.Prelude.{
  ℕ, ◌≡◌, ◌⊎◌, ◌≢◌, Bool, true, false, Option, none, some, List, [], ◌++◌, length, take, drop, Run,
  ok, panic, ◌>>=◌, ltb, if◌then◌else◌,
}
use h2stream.Errors.{Error, closed_pipe_write, read_empty}

-- pipeBuffer: its three methods, and what each implementation shows of them: the unread bytes, and
-- the states from which the methods keep their promises.
pub record PipeBuffer : Type 1 where
  pub Buf : Type 0
  pub len : Buf → ℕ
  pub write : Buf → List ℕ → Run (ℕ × Option Error × Buf)
  pub read : Buf → ℕ → Run (List ℕ × Option Error × Buf)
  pub contents : Buf → List ℕ
  pub IsGood : Buf → Type 0
  pub len-contents : (b : Buf) → IsGood b → len b ≡ length (contents b)
  pub write_good :
      (b : Buf) (p : List ℕ)
      → IsGood b
      → (b' : Buf) × (write b p ≡ ok (length p, none, b'))
        × IsGood b'
        × (contents b' ≡ contents b ++ p)
  pub read_good :
      (b : Buf) (k : ℕ)
      → IsGood b
      → contents b ≢ []
      → (b' : Buf) × (read b k ≡ ok (take k (contents b), none, b'))
        × IsGood b'
        × (contents b' ≡ drop k (contents b))

-- What a call of Read comes to: it waits, or returns bytes, an error and the code that it ran.
pub data ReadStep (P : Type 0) : Type 0 where
  waits : ReadStep P
  returns : List ℕ → Option Error → Option ℕ → P → ReadStep P

-- The fields of pipe that its methods read. `donec` is `none` for the nil channel, and tells else
-- whether the channel is closed; `read_fn` names the code to run.
pub record Pipe (B : Type 0) : Type 0 where
  pub b : Option B
  pub err : Option Error
  pub break_err : Option Error
  pub donec : Option Bool
  pub read_fn : Option ℕ

module _ {B : Type 0} where
  -- A pipe as newStream makes it.
  unfoldable pub new_pipe : B → Pipe B
  new_pipe b = record { b = some b; err = none; break_err = none; donec = none; read_fn = none }

  unfoldable pub close_done_locked : Pipe B → Pipe B
  close_done_locked p = elim p.donec [ none ↦ p | some _ ↦ record p { donec = some true } ]

  -- closeWithError at &p.err and at &p.breakErr, after its check of the error.
  unfoldable pub set_err : Pipe B → Error → Option ℕ → Pipe B
  unfolding close_done_locked
  set_err p e fn = elim p.err [
    | some _ ↦ p
    | none ↦ close_done_locked (record p { read_fn = fn; err = some e })
  ]

  unfoldable pub set_break : Pipe B → Error → Option ℕ → Pipe B
  unfolding close_done_locked
  set_break p e fn = elim p.break_err [
    | some _ ↦ p
    | none ↦ close_done_locked (record p { read_fn = fn; b = none; break_err = some e })
  ]

  -- closeWithError at &p.err, and at &p.breakErr: a nil error panics.
  unfoldable pub close_err : Pipe B → Option Error → Option ℕ → Run (Pipe B)
  unfolding set_err
  close_err p e fn = elim e [ none ↦ panic | some x ↦ ok (set_err p x fn) ]

  unfoldable pub close_break : Pipe B → Option Error → Option ℕ → Run (Pipe B)
  unfolding set_break
  close_break p e fn = elim e [ none ↦ panic | some x ↦ ok (set_break p x fn) ]

  unfoldable pub close_with_error : Pipe B → Option Error → Run (Pipe B)
  unfolding close_err
  close_with_error p e = close_err p e none

  unfoldable pub break_with_error : Pipe B → Option Error → Run (Pipe B)
  unfolding close_break
  break_with_error p e = close_break p e none

  unfoldable pub close_with_error_and_code : Pipe B → Option Error → ℕ → Run (Pipe B)
  unfolding close_err
  close_with_error_and_code p e fn = close_err p e (some fn)

  -- Err
  unfoldable pub err_of : Pipe B → Option Error
  err_of p = elim p.break_err [ some e ↦ some e | none ↦ p.err ]

  -- Done: the pipe, whose `donec` is the channel returned.
  unfoldable pub done : Pipe B → Pipe B
  unfolding close_done_locked
  done p = elim p.donec [
    | some _ ↦ p
    | none ↦
        let q : Pipe B = record p { donec = some false } in
        elim p.err [
          | some _ ↦ close_done_locked q
          | none ↦ elim p.break_err [ some _ ↦ close_done_locked q | none ↦ q ]
        ]
  ]

module _ (pb : PipeBuffer) where
  open pb use {Buf}

  -- Len
  unfoldable pub len : Pipe Buf → ℕ
  len p = elim p.b [ none ↦ 0 | some b ↦ pb.len b ]

  -- The part of Read after the buffer is found empty or nil.
  unfoldable pub read_end : Pipe Buf → ReadStep (Pipe Buf)
  read_end p = elim p.err [
    | none ↦ waits
    | some e ↦ returns [] (some e) p.read_fn (record p { read_fn = none; b = none })
  ]

  unfoldable pub read : Pipe Buf → ℕ → Run (ReadStep (Pipe Buf))
  unfolding read_end
  read p k = elim p.break_err [
    | some e ↦ ok (returns [] (some e) none p)
    | none ↦ elim p.b [
      | none ↦ ok (read_end p)
      | some b ↦
          let from_buffer : Run (ReadStep (Pipe Buf)) =
            pb.read b k >>= λ (out, e, b'). ok (returns out e none (record p { b = some b' })) in
          if ltb 0 (pb.len b) then from_buffer else ok (read_end p)
    ]
  ]

  -- Write: the count, the error, and the pipe. A write to a nil buffer panics.
  unfoldable pub write : Pipe Buf → List ℕ → Run (ℕ × Option Error × Pipe Buf)
  write p d = elim p.err [
    | some _ ↦ ok (0, some closed_pipe_write, p)
    | none ↦ elim p.break_err [
      | some _ ↦ ok (length d, none, p)
      | none ↦ elim p.b [
        | none ↦ panic
        | some b ↦ pb.write b d >>= λ (n, e, b'). ok (n, e, record p { b = some b' })
      ]
    ]
  ]
