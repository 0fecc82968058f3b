-- ===== src/DataBuffer/Read.antt =====
-- databuffer.go, Read: its rounds against the list of unread bytes.
use h2stream.Prelude.{
  ℕ, zero, suc, ◌+◌, ◌-◌, ◌≤◌, ◌<◌, min, ◌≡◌, refl, sym, ap, ◌∙◌, ◌≢◌, none, some, List, [], ◌∷◌,
  ◌++◌, length, take, drop, length-append, length-drop, length-take, slice, arith, Run, ok, ltb,
  Bool-cases, inl, inr, length-slice, drop-slice, drop-drop, drop_all, take_all, take-append,
  drop-append, ◌&&◌, take-add, length-zero, ◌⊎◌,
}
use native.Mathlib.Decide.{ℕ_discrete}
use h2stream.Errors.{read_empty}
use h2stream.Prelude.Int.{ℤ}
use h2stream.DataBuffer.{
  ChunkPools, DataBuffer, bytes_from_first_chunk, put_data_buffer_chunk, advance, read_round,
  read_loop, read,
}
use h2stream.DataBuffer.Layout.{to_list, contents, IsLaid, IsValid, IsClass}

module _ (cp : ChunkPools) where
  open cp use {Pools}

  -- `out` is the front of the unread bytes of `b`, and the buffer left holds the others.
  record IsFront (b : DataBuffer) (k : ℕ) (out : List ℕ) (b' : DataBuffer) : Type 0 where
    front : out ≡ take k (to_list b)
    rest : to_list b' ≡ drop k (to_list b)
    valid : IsValid b'

  Reads : DataBuffer → ℕ → Run (List ℕ × Pools × DataBuffer) → Type 0
  Reads b k r =
      (out : List ℕ) × (s : Pools) × (b' : DataBuffer) × (r ≡ ok (out, s, b')) × IsFront b k out b'

  put_ok :
      (s : Pools) (c : List ℕ)
      → IsClass (length c)
      → (s' : Pools) × (put_data_buffer_chunk cp s c ≡ ok s')
  unfolding put_data_buffer_chunk
  put_ok s c (h, (i, e)) = (cp.put i c s, ground arith)

  -- The bytes of the first chunk.
  abbrev front_of : ℕ → ℕ → List (List ℕ) → List ℕ
  front_of r w [] = []
  front_of r w (c ∷ []) = slice r w c
  front_of r w (c ∷ d ∷ cs) = drop r c

  bytes_ok :
      (r w size : ℕ) (cs : List (List ℕ)) (x : ℤ)
      → IsLaid r w cs
      → cs ≢ []
      → bytes_from_first_chunk (record { chunks = cs; r = r; w = w; size = size; expected = x })
        ≡ ok (front_of r w cs)
  unfolding bytes_from_first_chunk
  bytes_ok r w size [] x l h = absurd (h refl)
  bytes_ok r w size (c ∷ []) x l h = ground arith
  bytes_ok r w size (c ∷ d ∷ cs) x l h = ground arith

  front_nonempty :
      (r w : ℕ) (cs : List (List ℕ))
      → IsLaid r w cs
      → 0 < length (contents r w cs)
      → 0 < length (front_of r w cs)
  front_nonempty r w [] l h = h
  front_nonempty r w (c ∷ []) l h = h
  front_nonempty r w (c ∷ d ∷ cs) l h = omega (arith, length-drop r c)

  front_le : (r w : ℕ) (cs : List (List ℕ)) → length (front_of r w cs) ≤ length (contents r w cs)
  front_le r w [] = omega arith
  front_le r w (c ∷ []) = omega arith
  front_le r w (c ∷ d ∷ cs) = omega (arith, length-append (drop r c) (contents 0 w (d ∷ cs)))

  take-front :
      (r w n : ℕ) (cs : List (List ℕ))
      → n ≤ length (front_of r w cs)
      → take n (front_of r w cs) ≡ take n (contents r w cs)
  take-front r w n [] h = refl
  take-front r w n (c ∷ []) h = refl
  take-front r w n (c ∷ d ∷ cs) h = sym (take-append n (drop r c) _ h)

  Advanced : DataBuffer → ℕ → Run (Pools × DataBuffer) → Type 0
  Advanced b n r =
      (s : Pools) × (b' : DataBuffer) × (r ≡ ok (s, b'))
      × (to_list b' ≡ drop n (to_list b))
      × IsValid b'

  module _ (s : Pools) (r w size n : ℕ) (x : ℤ) (some_bytes : 0 < n) where
    abbrev moved : List (List ℕ) → DataBuffer
    moved cs = record { chunks = cs; r = r + n; w = w; size = size - n; expected = x }

    -- The first chunk is used up.
    advance_drop :
        (c : List ℕ) (cs : List (List ℕ)) (left : List ℕ)
        → IsClass (length c)
        → r + n ≡ length c
        → IsLaid 0 w cs
        → contents 0 w cs ≡ left
        → size - n ≡ length left
        → (s' : Pools) × (b' : DataBuffer) × (advance cp s (moved (c ∷ cs)) ≡ ok (s', b'))
          × (to_list b' ≡ left)
          × IsValid b'
    unfolding advance
    advance_drop c cs left (h, (i, e)) full l same z = (
      cp.put i c s,
      record { chunks = cs; r = 0; w = w; size = size - n; expected = x },
      ground arith,
      same,
      record { laid = l; counted = z ∙ sym (ap length same) },
    )

    advance_stay :
        (c : List ℕ) (cs : List (List ℕ))
        → r + n ≢ length c
        → advance cp s (moved (c ∷ cs)) ≡ ok (s, moved (c ∷ cs))
    unfolding advance
    advance_stay c cs h = ground arith

    advance-Advanced :
        (cs : List (List ℕ))
        → IsValid (record { chunks = cs; r = r; w = w; size = size; expected = x })
        → n ≤ length (front_of r w cs)
        → Advanced
            (record { chunks = cs; r = r; w = w; size = size; expected = x })
            n
            (advance cp s (moved cs))
    unfolding Advanced
    advance-Advanced [] v h = absurd (omega arith)
    advance-Advanced (c ∷ []) v h =
        let l = v.laid in
        let long = length-slice r w c l.0 l.1 in
        elim (ℕ_discrete (r + n) (length c)) [
          | yes e ↦
              let gone = drop_all n (slice r w c) (omega arith) in
              let (s', b', e', same, v') =
                advance_drop c [] [] l.3 e refl refl (omega (arith, v.counted)) in
              (s', b', e', same ∙ sym gone, v')
          | no e ↦
              let rest = drop-slice n r w c (omega arith) in
              (
                s,
                moved (c ∷ []),
                advance_stay c [] e,
                sym rest,
                record {
                  laid = (omega arith, l.1, ground arith, l.3);
                  counted = omega (arith, v.counted, ap length rest, length-drop n (slice r w c));
                },
              )
        ]
    advance-Advanced (c ∷ d ∷ cs) v h =
        let l = v.laid in
        let long = length-drop r c in
        let behind = contents 0 w (d ∷ cs) in
        let split = drop-append n (drop r c) behind h in
        let shorter = length-append (drop r c) behind in
        elim (ℕ_discrete (r + n) (length c)) [
          | yes e ↦
              let gone = drop_all n (drop r c) (omega arith) in
              let (s', b', e', same, v') =
                advance_drop c (d ∷ cs) behind l.1 e l.2 refl (omega (arith, v.counted)) in
              (s', b', e', same ∙ sym (split ∙ ap (λ xs. xs ++ behind) gone), v')
          | no e ↦
              let rest = drop-drop n r c in
              (
                s,
                moved (c ∷ d ∷ cs),
                advance_stay c (d ∷ cs) e,
                sym (split ∙ ap (λ xs. xs ++ behind) rest),
                record {
                  laid = (ground arith, l.1, l.2);
                  counted = omega (
                    arith,
                    v.counted,
                    length-append (drop (r + n) c) behind,
                    length-drop (r + n) c,
                  );
                },
              )
        ]

  -- A round copies at least one byte if there is one, and no more than there is room for.
  read_round-Reads :
      (s : Pools) (b : DataBuffer) (k : ℕ)
      → IsValid b
      → 0 < b.size
      → 0 < k
      → (n : ℕ) × (0 < n) × (n ≤ k) × (n ≤ b.size) × Reads b n (read_round cp s b k)
  unfolding read_round Reads Advanced
  read_round-Reads s b k v h p =
      let front = front_of b.r b.w b.chunks in
      let n = min k (length front) in
      let some_front = front_nonempty b.r b.w b.chunks v.laid (omega (arith, v.counted)) in
      let filled : b.chunks ≢ [] =
        λ e. absurd (omega (arith, v.counted, ap (λ cs. length (contents b.r b.w cs)) e)) in
      let (s', b', e, same, v') =
        advance-Advanced s b.r b.w b.size n b.expected (omega arith) b.chunks v (omega arith) in
      (
        n,
        omega arith,
        omega arith,
        omega (arith, v.counted, front_le b.r b.w b.chunks),
        (
          take n front,
          s',
          b',
          rw (bytes_ok b.r b.w b.size b.chunks b.expected v.laid filled, e),
          record { front = take-front b.r b.w n b.chunks (omega arith); rest = same; valid = v' },
        ),
      )

  -- Reading `n` bytes and then the other `m` is reading `k`.
  IsFront-append :
      (b c d : DataBuffer) (n m k : ℕ) (xs ys : List ℕ)
      → n + m ≡ k
      → IsFront b n xs c
      → IsFront c m ys d
      → IsFront b k (xs ++ ys) d
  IsFront-append b c d n m k xs ys whole p q = record {
    front = rw (p.front, q.front, p.rest) (rw whole at (sym (take-add n m (to_list b))));
    rest =
        q.rest
        ∙ ap (drop m) p.rest
        ∙ drop-drop m n (to_list b)
        ∙ ap (λ j. drop j (to_list b)) whole;
    valid = q.valid;
  }

  -- With nothing to copy, nothing changes.
  IsFront-nil : (b : DataBuffer) (k : ℕ) → IsValid b → (k ≡ 0) ⊎ (b.size ≡ 0) → IsFront b k [] b
  IsFront-nil b k v (inl e) = rw e (record { front = refl; rest = refl; valid = v })
  IsFront-nil b k v (inr e) =
      let none_left : to_list b ≡ [] = length-zero (to_list b) (omega (arith, v.counted)) in
      record {
        front = rw none_left (sym (take_all k [] (omega arith)));
        rest = rw none_left (sym (drop_all k [] (omega arith)));
        valid = v;
      }

  read_loop-Reads :
      (f : ℕ) (s : Pools) (b : DataBuffer) (k : ℕ)
      → k < f
      → IsValid b
      → Reads b k (read_loop cp f s b k)
  unfolding read_loop Reads
  read_loop-Reads zero s b k h v = absurd (omega arith)
  read_loop-Reads (suc f) s b k h v = elim (Bool-cases (ltb 0 k && ltb 0 b.size)) [
    | inr e ↦ rw e ([], s, b, refl, IsFront-nil b k v (ground arith))
    | inl e ↦
        let (n, p, q, z, round) = read_round-Reads s b k v (ground arith) (ground arith) in
        let (xs, s', c, e', first) = round in
        let long : length xs ≡ n =
          omega (arith, ap length first.front, v.counted, length-take n (to_list b)) in
        let (ys, s'', d, e'', others) =
          read_loop-Reads f s' c (k - length xs) (omega arith) first.valid in
        rw (e, e', e'')
          (xs ++ ys, s'', d, refl, IsFront-append b c d n _ k xs ys (omega arith) first others)
  ]

  -- Read on a valid buffer never panics. On an empty one it reports an error and changes nothing;
  -- otherwise it copies the first `k` unread bytes, or all of them if there are fewer, and leaves a
  -- valid buffer with exactly the others.
  pub read_takes :
      (s : Pools) (b : DataBuffer) (k : ℕ)
      → IsValid b
      → ((to_list b ≡ []) × (read cp s b k ≡ ok ([], some read_empty, s, b)))
        ⊎ ((to_list b ≢ [])
            × ((s' : Pools) × (b' : DataBuffer) × (read cp s b k
                  ≡ ok (take k (to_list b), none, s', b'))
                × (to_list b' ≡ drop k (to_list b))
                × IsValid b'))
  unfolding read Reads
  read_takes s b k v = elim (ℕ_discrete b.size 0) [
    | yes e ↦ inl (length-zero (to_list b) (omega (arith, v.counted)), ground arith)
    | no e ↦
        let (out, s', b', e', front) = read_loop-Reads (suc k) s b k (omega arith) v in
        inr (
          λ nil. absurd (e (omega (arith, v.counted, ap length nil))),
          (s', b', ground (arith, front.front), front.rest, front.valid),
        )
  ]
