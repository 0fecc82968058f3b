-- ===== src/DataBuffer/Layout.antt =====
-- databuffer.go: which states a buffer can be in, and the unread bytes that it stands for.
use h2stream.Prelude.{
  ℕ, zero, suc, ◌+◌, ◌≤◌, ◌<◌, ◌≡◌, refl, sym, ap, some, List, [], ◌∷◌, ◌++◌, length, take, drop,
  slice, copy_at, append_assoc, append-nil, ◌≢◌, length-copy_at, slice-copy_at, slice_full, arith,
}
use h2stream.DataBuffer.{
  DataBuffer, data_chunk_size_classes, class_size, class_index, class_of, map_last, last_length,
  empty_buffer,
}

-- The unread bytes, in order.
abbrev pub contents : ℕ → ℕ → List (List ℕ) → List ℕ
contents r w [] = []
contents r w (c ∷ []) = slice r w c
contents r w (c ∷ d ∷ cs) = drop r c ++ contents 0 w (d ∷ cs)

abbrev pub to_list : DataBuffer → List ℕ
to_list b = contents b.r b.w b.chunks

-- The length of a pooled chunk.
abbrev pub IsClass : ℕ → Type 0
IsClass n = (0 < n) × ((i : ℕ) × (class_of n data_chunk_size_classes 0 ≡ some i))

-- The indices lie within their chunks, and the first chunk is not used up.
abbrev pub IsLaid : ℕ → ℕ → List (List ℕ) → Type 0
IsLaid r w [] = r ≡ 0
IsLaid r w (c ∷ []) = (r ≤ w) × (w ≤ length c) × (r < length c) × IsClass (length c)
IsLaid r w (c ∷ d ∷ cs) = (r < length c) × IsClass (length c) × IsLaid 0 w (d ∷ cs)

pub record IsValid (b : DataBuffer) : Type 0 where
  pub laid : IsLaid b.r b.w b.chunks
  pub counted : b.size ≡ length (to_list b)

pub empty_buffer-IsValid : IsValid empty_buffer × (to_list empty_buffer ≡ [])
unfolding empty_buffer
empty_buffer-IsValid = (record { laid = refl; counted = refl }, refl)

class_index-lt : (n : ℕ) → class_index n data_chunk_size_classes < 5
unfolding class_index
class_index-lt n = ground arith

class_size-IsClass : (i : ℕ) → i < 5 → IsClass (class_size data_chunk_size_classes i)
unfolding class_of
class_size-IsClass zero h = (omega arith, (0, refl))
class_size-IsClass (suc zero) h = (omega arith, (1, refl))
class_size-IsClass (suc (suc zero)) h = (omega arith, (2, refl))
class_size-IsClass (suc (suc (suc zero))) h = (omega arith, (3, refl))
class_size-IsClass (suc (suc (suc (suc zero)))) h = (omega arith, (4, refl))
class_size-IsClass (suc (suc (suc (suc (suc i))))) h = absurd (omega arith)

-- Whatever is wanted, the chunk handed out has the size of a class.
pub class_index-IsClass :
    (n : ℕ) → IsClass (class_size data_chunk_size_classes (class_index n data_chunk_size_classes))
class_index-IsClass n = class_size-IsClass _ (class_index-lt n)

-- A chunk that follows full ones adds no unread byte.
pub contents-alloc :
    (r w : ℕ) (cs : List (List ℕ)) (c : List ℕ)
    → IsLaid r w cs
    → last_length cs ≤ w
    → contents r 0 (cs ++ c ∷ []) ≡ contents r w cs
contents-alloc r w [] c v h = rw v
contents-alloc r w (d ∷ []) c v h =
    let full : w ≡ length d = omega arith in
    rw (append-nil (drop r d), full) (sym (slice_full r d (omega arith)))
contents-alloc r w (d ∷ e ∷ cs) c v h = ap (◌++◌ (drop r d)) (contents-alloc 0 w (e ∷ cs) c v.2 h)

pub IsLaid-alloc :
    (r w : ℕ) (cs : List (List ℕ)) (c : List ℕ)
    → IsLaid r w cs
    → IsClass (length c)
    → IsLaid r 0 (cs ++ c ∷ [])
IsLaid-alloc r w [] c v k = (omega arith, omega arith, rw v k.0, k)
IsLaid-alloc r w (d ∷ []) c v k = (v.2, v.3, (omega arith, omega arith, k.0, k))
IsLaid-alloc r w (d ∷ e ∷ cs) c v k = (v.0, v.1, IsLaid-alloc 0 w (e ∷ cs) c v.2 k)

pub last_length-alloc : (cs : List (List ℕ)) (c : List ℕ) → last_length (cs ++ c ∷ []) ≡ length c
last_length-alloc [] c = refl
last_length-alloc (d ∷ []) c = refl
last_length-alloc (d ∷ e ∷ cs) c = last_length-alloc (e ∷ cs) c

module _ (w n : ℕ) (p : List ℕ) (fits : n ≤ length p) where
  -- The bytes copied to the end of the last chunk follow the unread ones.
  pub contents-copy :
      (r : ℕ) (cs : List (List ℕ))
      → IsLaid r w cs
      → w + n ≤ last_length cs
      → cs ≢ []
      → contents r (w + n) (map_last (λ c. copy_at c w p) cs) ≡ contents r w cs ++ take n p
  contents-copy r [] v h k = absurd (k refl)
  contents-copy r (c ∷ []) v h k = slice-copy_at r w c p n v.0 h fits
  contents-copy r (c ∷ d ∷ []) v h k =
      rw append_assoc (ap (◌++◌ (drop r c)) (contents-copy 0 (d ∷ []) v.2 h (λ e. cc)))
  contents-copy r (c ∷ d ∷ e ∷ cs) v h k =
      rw append_assoc (ap (◌++◌ (drop r c)) (contents-copy 0 (d ∷ e ∷ cs) v.2 h (λ e. cc)))

  pub IsLaid-copy :
      (r : ℕ) (cs : List (List ℕ))
      → IsLaid r w cs
      → w + n ≤ last_length cs
      → IsLaid r (w + n) (map_last (λ c. copy_at c w p) cs)
  IsLaid-copy r [] v h = v
  IsLaid-copy r (c ∷ []) v h = rw (length-copy_at c w p) (omega arith, h, v.2, v.3)
  IsLaid-copy r (c ∷ d ∷ []) v h = (v.0, v.1, IsLaid-copy 0 (d ∷ []) v.2 h)
  IsLaid-copy r (c ∷ d ∷ e ∷ cs) v h = (v.0, v.1, IsLaid-copy 0 (d ∷ e ∷ cs) v.2 h)
