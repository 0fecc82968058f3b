-- ===== src/DataBuffer.antt =====
-- databuffer.go: the buffer of unread bytes of a stream, a list of chunks taken from pools.
-- The chunk pools are sync.Pool values, a parameter: what a pool hands out is an array of its size
-- class with arbitrary contents. `expected` is a Go int64 that does not wrap before 2^63 bytes.
pub mod Layout
pub mod Write
pub mod Read
use h2stream.Prelude.{
  ℕ, zero, suc, ◌+◌, ◌-◌, min, ◌≡◌, Bool, true, false, ◌&&◌, Option, none, some, List, [], ◌∷◌,
  ◌++◌, length, take, drop, slice, copy_at, Run, ok, panic, out_of_fuel, ◌>>=◌, ltb, leb, ◌==◌,
  if◌then◌else◌,
}
use h2stream.Errors.{Error, read_empty}
use h2stream.Prelude.Int.{ℤ, pos, ◌-ℤ◌, ltb_ℤ, pos_part}

-- dataChunkSizeClasses
abbrev pub data_chunk_size_classes : List ℕ
data_chunk_size_classes = 1024 ∷ 2048 ∷ 4096 ∷ 8192 ∷ 16384 ∷ []

abbrev pub class_size : List ℕ → ℕ → ℕ
class_size [] i = 0
class_size (n ∷ ns) zero = n
class_size (n ∷ ns) (suc i) = class_size ns i

-- dataChunkPools: `get i` and `put i` are Get and Put of the pool of class `i`.
pub record ChunkPools : Type 1 where
  pub Pools : Type 0
  pub get : ℕ → Pools → List ℕ × Pools
  pub put : ℕ → List ℕ → Pools → Pools
  pub length-get : (i : ℕ) (s : Pools) → length (get i s).0 ≡ class_size data_chunk_size_classes i

pub record DataBuffer : Type 0 where
  pub chunks : List (List ℕ)
  pub r : ℕ
  pub w : ℕ
  pub size : ℕ
  pub expected : ℤ

-- The search loop of getDataBufferChunk, which stops at the last class.
unfoldable pub class_index : ℕ → List ℕ → ℕ
class_index size [] = 0
class_index size (n ∷ []) = 0
class_index size (n ∷ m ∷ ns) = if leb size n then 0 else suc (class_index size (m ∷ ns))

-- The search loop of putDataBufferChunk, counting from `i`.
unfoldable pub class_of : ℕ → List ℕ → ℕ → Option ℕ
class_of len [] i = none
class_of len (n ∷ ns) i = if len == n then some i else class_of len ns (suc i)

-- The chunk that is written to: `f` on the last one.
abbrev pub map_last : (List ℕ → List ℕ) → List (List ℕ) → List (List ℕ)
map_last f [] = []
map_last f (c ∷ []) = f c ∷ []
map_last f (c ∷ d ∷ cs) = c ∷ map_last f (d ∷ cs)

-- The length of the last chunk, 0 where there is none.
abbrev pub last_length : List (List ℕ) → ℕ
last_length [] = 0
last_length (c ∷ []) = length c
last_length (c ∷ d ∷ cs) = last_length (d ∷ cs)

unfoldable pub bytes_from_first_chunk : DataBuffer → Run (List ℕ)
bytes_from_first_chunk b = elim b.chunks [
  | [] ↦ panic
  | c ∷ rest ↦ elim rest [
    | [] ↦ if leb b.r b.w && leb b.w (length c) then ok (slice b.r b.w c) else panic
    | _ ∷ _ ↦ if leb b.r (length c) then ok (drop b.r c) else panic
  ]
]

unfoldable pub empty_buffer : DataBuffer
empty_buffer = record { chunks = []; r = 0; w = 0; size = 0; expected = ℤ.negsuc 0 }

-- Len
unfoldable pub len : DataBuffer → ℕ
len b = b.size

-- copy(chunk[b.w:], p) and the counters after it.
unfoldable pub copy_into_last : DataBuffer → List ℕ → ℕ × DataBuffer
copy_into_last b p =
    let n = min (last_length b.chunks - b.w) (length p) in
    (
      n,
      record b {
        chunks = map_last (λ c. copy_at c b.w p) b.chunks;
        w = b.w + n;
        size = b.size + n;
        expected = b.expected -ℤ pos n;
      },
    )

module _ (cp : ChunkPools) where
  open cp use {Pools, get, put}

  unfoldable pub get_data_buffer_chunk : Pools → ℕ → List ℕ × Pools
  get_data_buffer_chunk s size = get (class_index size data_chunk_size_classes) s

  unfoldable pub put_data_buffer_chunk : Pools → List ℕ → Run Pools
  put_data_buffer_chunk s p = elim (class_of (length p) data_chunk_size_classes 0) [
    | none ↦ panic
    | some i ↦ ok (put i p s)
  ]

  -- The chunk that is returned is the last of the new buffer's chunks.
  unfoldable pub last_chunk_or_alloc : Pools → DataBuffer → ℕ → Pools × DataBuffer
  unfolding get_data_buffer_chunk
  last_chunk_or_alloc s b want = if ltb b.w (last_length b.chunks) then (s, b) else (
    (get_data_buffer_chunk s want).1,
    record b { chunks = b.chunks ++ (get_data_buffer_chunk s want).0 ∷ []; w = 0 },
  )

  -- One round of the loop of Write, with the number of bytes that it copies.
  unfoldable pub write_round : Pools → DataBuffer → List ℕ → ℕ × Pools × DataBuffer
  write_round s b p =
      let want = if ltb_ℤ (pos (length p)) b.expected then pos_part b.expected else length p in
      let (s', b') = last_chunk_or_alloc s b want in
      ((copy_into_last b' p).0, s', (copy_into_last b' p).1)

  unfoldable pub write_loop : ℕ → Pools → DataBuffer → List ℕ → Run (Pools × DataBuffer)
  write_loop zero s b p = out_of_fuel
  write_loop (suc f) s b p =
      let (n, s', b') = write_round s b p in
      let rest = write_loop f s' b' (drop n p) in elim p [ [] ↦ ok (s, b) | _ ∷ _ ↦ rest ]

  -- Write, which returns len(p) and never an error.
  unfoldable pub write : Pools → DataBuffer → List ℕ → Run (ℕ × Pools × DataBuffer)
  write s b p = write_loop (suc (length p)) s b p >>= λ (s', b'). ok (length p, s', b')

  -- The end of a round of Read: a first chunk that is consumed goes back to its pool.
  unfoldable pub advance : Pools → DataBuffer → Run (Pools × DataBuffer)
  unfolding put_data_buffer_chunk
  advance s b = elim b.chunks [
    | [] ↦ panic
    | c ∷ cs ↦
        if b.r == length c
        then (put_data_buffer_chunk s c >>= λ s'. ok (s', record b { chunks = cs; r = 0 }))
        else ok (s, b)
  ]

  -- One round of the loop of Read, for a slice with room for `k` bytes: the bytes that it copies.
  unfoldable pub read_round : Pools → DataBuffer → ℕ → Run (List ℕ × Pools × DataBuffer)
  unfolding bytes_from_first_chunk advance
  read_round s b k = bytes_from_first_chunk b >>= λ read_from.
      let n = min k (length read_from) in
      advance s (record b { r = b.r + n; size = b.size - n }) >>= λ (s', b').
      ok (take n read_from, s', b')

  unfoldable pub read_loop : ℕ → Pools → DataBuffer → ℕ → Run (List ℕ × Pools × DataBuffer)
  read_loop zero s b k = out_of_fuel
  read_loop (suc f) s b k =
      let next : Run (List ℕ × Pools × DataBuffer) = do
        (piece, s', b') ← read_round s b k
        (out, s'', b'') ← read_loop f s' b' (k - length piece)
        ok (piece ++ out, s'', b'')
      in if ltb 0 k && ltb 0 b.size then next else ok ([], s, b)

  -- Read into a slice of length `k`: the bytes copied, an error, and the buffer left.
  unfoldable pub read : Pools → DataBuffer → ℕ → Run (List ℕ × Option Error × Pools × DataBuffer)
  read s b k =
      let full = read_loop (suc k) s b k >>= λ (out, s', b'). ok (out, none, s', b') in
      if b.size == 0 then ok ([], some read_empty, s, b) else full
