-- ===== src/WriteQueue/Consume.antt =====
-- writesched.go, Consume: how a DATA frame is split by flow control.
use h2stream.Prelude.{
  ℕ, ◌+◌, ◌<◌, ◌≡◌, refl, sym, ap, ◌∙◌, subst, ◌≢◌, inl, inr, Bool, false, Option, none, some, List,
  [], ◌∷◌, ◌++◌, length, take, drop, take-append-drop, length-take, append-nil, arith, Run, ok,
  ◌>>=◌, ltb, Bool-cases, if◌then◌else◌,
}
use h2stream.Prelude.Int.{ℤ, pos, ◌-ℤ◌, ◌≤ℤ◌, ltb_ℤ, pos_part}
use h2stream.Flow
use h2stream.Flow.{Flow, available}
use h2stream.Flow.Laws.{IsFlow, less, take_exact}
use h2stream.Frame.{WriteFramer, write_data}
use h2stream.WriteQueue.{
  FrameWriteRequest, Consumed, nothing, whole, split, allowed, consume_data, consume,
}

-- The bytes that a request carries.
abbrev pub bytes_of : FrameWriteRequest → List ℕ
bytes_of wr = elim wr.write [ some (write_data _ p _) ↦ p | _ ↦ [] ]

-- 1 for a DATA frame with END_STREAM.
abbrev pub ends_of : FrameWriteRequest → ℕ
ends_of wr = elim wr.write [ some (write_data _ _ e) ↦ if e then 1 else 0 | _ ↦ 0 ]

-- The flow after `n` bytes.
abbrev pub spent : Flow → ℕ → Flow
spent f n = record { n = f.n -ℤ pos n; conn = less f.conn (pos n) }

-- The frame that is sent, and the one that stays.
abbrev pub sent : Consumed → Option FrameWriteRequest
sent nothing = none
sent (whole wr) = some wr
sent (split wr _) = some wr

abbrev pub stays : FrameWriteRequest → Consumed → Option FrameWriteRequest
stays wr nothing = some wr
stays wr (whole _) = none
stays wr (split _ rest) = some rest

abbrev pub bytes : Option FrameWriteRequest → List ℕ
bytes none = []
bytes (some wr) = bytes_of wr

abbrev pub ends : Option FrameWriteRequest → ℕ
ends none = 0
ends (some wr) = ends_of wr

allowed_bounds :
    (f : Flow) (m n : ℤ)
    → (allowed f m n ≤ℤ n) × (allowed f m n ≤ℤ m) × (allowed f m n ≤ℤ available f)
unfolding allowed
allowed_bounds f m n = ground arith

-- What `consume` makes of the request: nothing is lost or repeated, END_STREAM stays on the last part,
-- and the windows pay for exactly the bytes sent, which are within all three limits.
pub record Splits (wr : FrameWriteRequest) (f : Flow) (m n : ℤ) (c : Consumed) (f' : Flow)
    : Type 0 where
  pub joined : bytes (sent c) ++ bytes (stays wr c) ≡ bytes_of wr
  pub ended : ends (sent c) + ends (stays wr c) ≡ ends_of wr
  pub last : stays wr c ≢ none → ends (sent c) ≡ 0
  pub paid : f' ≡ spent f (length (bytes (sent c)))
  pub valid : IsFlow f'
  pub limited :
      bytes (sent c) ≢ []
      → (pos (length (bytes (sent c))) ≤ℤ n)
        × (pos (length (bytes (sent c))) ≤ℤ m)
        × (pos (length (bytes (sent c))) ≤ℤ available f)

take_ok :
    (f : Flow) (n : ℕ)
    → IsFlow f
    → pos n ≤ℤ available f
    → (Flow.take f (pos n) ≡ ok (spent f n)) × IsFlow (spent f n)
take_ok f n v h = elim (take_exact f (pos n) v (omega arith)) [
  | inl (_, e, _, v') ↦ (e, v')
  | inr (k, _) ↦ absurd (k h)
]

pub spent_zero : (f : Flow) → spent f 0 ≡ f
unfolding ◌-ℤ◌
spent_zero f = ground arith

pub Result : FrameWriteRequest → Flow → ℤ → ℤ → Run (Consumed × Option Flow) → Type 0
Result wr f m n r = (c : Consumed) × (f' : Flow) × (r ≡ ok (c, some f')) × Splits wr f m n c f'

module _ (wr : FrameWriteRequest) (f : Flow) (m n : ℤ) (v : IsFlow f) where
  -- A frame that carries no bytes goes out whole.
  Splits-bare : bytes_of wr ≡ [] → Splits wr f m n (whole wr) f
  Splits-bare e = record {
    joined = append-nil (bytes_of wr);
    ended = omega arith;
    last = λ h. absurd (h refl);
    paid = rw e (sym (spent_zero f));
    valid = v;
    limited = λ h. absurd (h e);
  }

  module _ (id : ℕ) (p : List ℕ) (e : Bool) (is_data : wr.write ≡ some (write_data id p e)) where
    abbrev a : ℤ
    a = allowed f m n

    Splits-nothing : Splits wr f m n nothing f
    Splits-nothing = record {
      joined = refl;
      ended = omega arith;
      last = λ h. refl;
      paid = sym (spent_zero f);
      valid = v;
      limited = λ h. absurd (h refl);
    }

    Splits-whole : pos (length p) ≤ℤ a → Splits wr f m n (whole wr) (spent f (length p))
    Splits-whole h =
        let (x, y, z) = allowed_bounds f m n in
        let same : bytes_of wr ≡ p = rw is_data refl in
        record {
          joined = append-nil (bytes_of wr);
          ended = omega arith;
          last = λ k. absurd (k refl);
          paid = rw same refl;
          valid = (take_ok f (length p) v (omega arith)).1;
          limited = λ k. rw same (omega arith, omega arith, omega arith);
        }

    abbrev head : ℕ → FrameWriteRequest
    head k = record {
      write = some (write_data id (take k p) false);
      stream = wr.stream;
      done = none;
    }

    abbrev tail : ℕ → FrameWriteRequest
    tail k = record {
      write = some (write_data id (drop k p) e);
      stream = wr.stream;
      done = wr.done;
    }

    Splits-split :
        (k : ℕ) → a ≡ pos k → k < length p → Splits wr f m n (split (head k) (tail k)) (spent f k)
    Splits-split k q h =
        let (x, y, z) = rw q at (allowed_bounds f m n) in
        let size : length (take k p) ≡ k = omega (arith, length-take k p) in
        record {
          joined = rw is_data (take-append-drop k p);
          ended = rw is_data (omega arith);
          last = λ _. refl;
          paid = rw size refl;
          valid = (take_ok f k v z).1;
          limited = λ _. rw size (x, y, z);
        }

    consume_data-Splits :
        Result wr f m n (consume_data wr f a id p e >>= λ (c, f'). ok (c, some f'))
    unfolding consume_data Result
    consume_data-Splits = elim (Bool-cases (ltb_ℤ (pos 0) a)) [
      | inr z ↦ (nothing, f, rw z refl, Splits-nothing)
      | inl z ↦
          let k = pos_part a in
          let q : a ≡ pos k = ground arith in
          let (x, y, within) = allowed_bounds f m n in
          elim (Bool-cases (ltb k (length p))) [
            | inl l ↦
                let taken : Flow.take f a ≡ ok (spent f k) =
                  ap (Flow.take f) q ∙ (take_ok f k v (subst (λ t. t ≤ℤ available f) q within)).0 in
                (
                  split (head k) (tail k),
                  spent f k,
                  ground (arith, taken),
                  Splits-split k q (ground arith),
                )
            | inr l ↦
                let all = (take_ok f (length p) v (ground (arith, within))).0 in
                (whole wr, spent f (length p), ground (arith, all), Splits-whole (ground arith))
          ]
    ]

  -- A request for a frame that carries no bytes.
  Result-bare :
      bytes_of wr ≡ []
      → consume wr (some f) m n ≡ ok (whole wr, some f)
      → Result wr f m n (consume wr (some f) m n)
  unfolding Result
  Result-bare h e = (whole wr, f, e, Splits-bare h)

  consume-cases :
      (w : Option WriteFramer) → wr.write ≡ w → Result wr f m n (consume wr (some f) m n)
  unfolding consume
  consume-cases (some (write_data id (x ∷ p) e)) q =
      subst (Result wr f m n) (ground arith) (consume_data-Splits id (x ∷ p) e q)
  consume-cases _ q = Result-bare (rw q refl) (ground arith)

  -- On a stream with int32 windows Consume never panics. What it sends and what stays are together
  -- the request, byte for byte and with END_STREAM on the last part; the windows of the stream and
  -- of the connection pay exactly for what is sent, which is at most `n`, the maximal frame size and
  -- the available bytes.
  pub consume-Splits :
      (c : Consumed) × (f' : Flow) × (consume wr (some f) m n ≡ ok (c, some f'))
      × Splits wr f m n c f'
  unfolding Result
  consume-Splits = consume-cases wr.write refl
