-- ===== src/DataBuffer/Write.antt =====
-- databuffer.go, Write: its rounds against the list of unread bytes.
use h2stream.Prelude.{
  ℕ, zero, suc, ◌+◌, ◌-◌, ◌≤◌, ◌<◌, min, ◌≡◌, refl, ap, ◌∙◌, ◌≢◌, List, [], ◌∷◌, ◌++◌, length, take,
  drop, length-append, length-drop, length-take, take-append-drop, append-nil, append_assoc, arith,
  Run, ok, ltb, ltb→lt, Bool-cases, inl, inr,
}
use h2stream.DataBuffer.{
  ChunkPools, DataBuffer, last_length, last_chunk_or_alloc, copy_into_last, write_round, write_loop,
  write, get_data_buffer_chunk,
}
use h2stream.DataBuffer.Layout.{
  to_list, IsLaid, IsValid, IsClass, class_index-IsClass, contents-alloc, IsLaid-alloc,
  last_length-alloc, contents-copy, IsLaid-copy,
}

module _ (cp : ChunkPools) where
  open cp use {Pools}

  -- A state in which the last chunk has room, with the unread bytes of `b`.
  record Ready (b : DataBuffer) (t : Pools × DataBuffer) : Type 0 where
    same : to_list t.1 ≡ to_list b
    laid : IsLaid t.1.r t.1.w t.1.chunks
    room : t.1.w < last_length t.1.chunks
    sized : t.1.size ≡ b.size

  Ready-alloc :
      (s : Pools) (b : DataBuffer) (want : ℕ)
      → IsValid b
      → Ready b (last_chunk_or_alloc cp s b want)
  unfolding last_chunk_or_alloc
  Ready-alloc s b want v = elim (Bool-cases (ltb b.w (last_length b.chunks))) [
    | inl e ↦ rw e (record { same = refl; laid = v.laid; room = ltb→lt _ _ e; sized = refl })
    | inr e ↦ rw e (record {
      same = contents-alloc b.r b.w b.chunks chunk v.laid (ground arith);
      laid = IsLaid-alloc b.r b.w b.chunks chunk v.laid sized;
      room = rw (last_length-alloc b.chunks chunk) sized.0;
      sized = refl;
    })
  ]
    where
      chunk : List ℕ
      chunk = (get_data_buffer_chunk cp s want).0

      sized : IsClass (length chunk)
      sized = rw cp.length-get (class_index-IsClass want)

  -- One round appends `n` bytes of `p`, at least one.
  record Round (b : DataBuffer) (p : List ℕ) (t : ℕ × Pools × DataBuffer) : Type 0 where
    moved : 0 < t.0
    fits : t.0 ≤ length p
    valid : IsValid t.2
    appended : to_list t.2 ≡ to_list b ++ take t.0 p

  copy-Round :
      (b : DataBuffer) (p : List ℕ) (t : Pools × DataBuffer)
      → Ready b t
      → IsValid b
      → 0 < length p
      → Round b p ((copy_into_last t.1 p).0, t.0, (copy_into_last t.1 p).1)
  unfolding copy_into_last
  copy-Round b p (s, c) ready v h = record {
    moved = omega arith;
    fits = omega arith;
    valid = record {
      laid = IsLaid-copy c.w n p fits c.r c.chunks ready.laid room;
      counted = omega (
        arith,
        v.counted,
        ready.sized,
        ap length appended,
        length-append (to_list b) (take n p),
        length-take n p,
      );
    };
    appended = appended;
  }
    where
      n : ℕ
      n = min (last_length c.chunks - c.w) (length p)

      fits : n ≤ length p
      fits = omega arith

      room : c.w + n ≤ last_length c.chunks
      room = omega (arith, ready.room)

      filled : c.chunks ≢ []
      filled e = absurd (omega (arith, rw e at ready.room))

      appended : to_list (copy_into_last c p).1 ≡ to_list b ++ take n p
      appended =
          contents-copy c.w n p fits c.r c.chunks ready.laid room filled
          ∙ ap (λ xs. xs ++ take n p) ready.same

  Round-write :
      (s : Pools) (b : DataBuffer) (p : List ℕ)
      → IsValid b
      → 0 < length p
      → Round b p (write_round cp s b p)
  unfolding write_round
  Round-write s b p v h = copy-Round b p _ (Ready-alloc s b _ v) v h

  Written : DataBuffer → List ℕ → Run (Pools × DataBuffer) → Type 0
  Written b p r =
      (s : Pools) × (c : DataBuffer) × (r ≡ ok (s, c)) × IsValid c × (to_list c ≡ to_list b ++ p)

  write_loop-Written :
      (f : ℕ) (s : Pools) (b : DataBuffer) (p : List ℕ)
      → length p < f
      → IsValid b
      → Written b p (write_loop cp f s b p)
  unfolding write_loop Written
  write_loop-Written zero s b p h v = absurd (omega arith)
  write_loop-Written (suc f) s b [] h v = (s, b, refl, v, rw append-nil)
  write_loop-Written (suc f) s b (x ∷ p) h v =
      let round = Round-write s b (x ∷ p) v (omega arith) in
      let t = write_round cp s b (x ∷ p) in
      let (s', c, e, w, a) =
        write_loop-Written f t.1 t.2 (drop t.0 (x ∷ p))
          (omega (arith, length-drop t.0 (x ∷ p), round.moved)) round.valid in
      (
        s',
        c,
        e,
        w,
        a
            ∙ ap (λ xs. xs ++ drop t.0 (x ∷ p)) round.appended
            ∙ append_assoc (to_list b) (take t.0 (x ∷ p)) (drop t.0 (x ∷ p))
            ∙ ap (◌++◌ (to_list b)) (take-append-drop t.0 (x ∷ p)),
      )

  -- Write on a valid buffer returns without a panic, reports the whole length, and leaves a valid
  -- buffer whose unread bytes are the old ones followed by all that was written.
  pub write_appends :
      (s : Pools) (b : DataBuffer) (p : List ℕ)
      → IsValid b
      → (s' : Pools) × (b' : DataBuffer) × (write cp s b p ≡ ok (length p, s', b'))
        × IsValid b'
        × (to_list b' ≡ to_list b ++ p)
  unfolding write Written
  write_appends s b p v =
      let (s', c, e, w, a) = write_loop-Written (suc (length p)) s b p (omega arith) v in
      (s', c, rw e, w, a)
