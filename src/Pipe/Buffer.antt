-- ===== src/Pipe/Buffer.antt =====
-- The dataBuffer as the pipe's buffer: newStream makes `pipe{b: &dataBuffer{expected: -1}}`.
-- A buffer is shown with the pools that it takes its chunks from.
use h2stream.Prelude.{
  ◌≡◌, take, drop, [], ◌++◌, ◌≢◌, List, length, Option, none, inl, inr, Run, ok, ◌>>=◌, ℕ,
}
use h2stream.Errors.{Error}
use h2stream.DataBuffer
use h2stream.DataBuffer.{ChunkPools, DataBuffer}
use h2stream.DataBuffer.Layout.{to_list, IsValid}
use h2stream.DataBuffer.Write.{write_appends}
use h2stream.DataBuffer.Read.{read_takes}
use h2stream.Pipe.{PipeBuffer}

module _ (cp : ChunkPools) where
  open cp use {Pools}

  abbrev pub buf_write : Pools × DataBuffer → List ℕ → Run (ℕ × Option Error × (Pools × DataBuffer))
  buf_write (s, b) p = DataBuffer.write cp s b p >>= λ (n, s', b'). ok (n, none, (s', b'))

  abbrev pub buf_read : Pools × DataBuffer → ℕ → Run (List ℕ × Option Error × (Pools × DataBuffer))
  buf_read (s, b) k = DataBuffer.read cp s b k >>= λ (out, e, s', b'). ok (out, e, (s', b'))

  pub buf_write-good :
      (t : Pools × DataBuffer) (p : List ℕ)
      → IsValid t.1
      → (t' : Pools × DataBuffer) × (buf_write t p ≡ ok (length p, none, t'))
        × IsValid t'.1
        × (to_list t'.1 ≡ to_list t.1 ++ p)
  buf_write-good (s, b) p v =
      let (s', b', e, v', same) = write_appends cp s b p v in ((s', b'), rw e, v', same)

  pub buf_read-good :
      (t : Pools × DataBuffer) (k : ℕ)
      → IsValid t.1
      → to_list t.1 ≢ []
      → (t' : Pools × DataBuffer) × (buf_read t k ≡ ok (take k (to_list t.1), none, t'))
        × IsValid t'.1
        × (to_list t'.1 ≡ drop k (to_list t.1))
  buf_read-good (s, b) k v h = elim (read_takes cp s b k v) [
    | inl (e, _) ↦ absurd (h e)
    | inr (_, (s', b', e, rest, v')) ↦ ((s', b'), rw e, v', rest)
  ]

  pub len-length :
      (t : Pools × DataBuffer) → IsValid t.1 → DataBuffer.len t.1 ≡ length (to_list t.1)
  unfolding DataBuffer.len
  len-length (s, b) v = v.counted

  abbrev pub data_buffer : PipeBuffer
  data_buffer = record {
    Buf = Pools × DataBuffer;
    len = λ t. DataBuffer.len t.1;
    write = buf_write;
    read = buf_read;
    contents = λ t. to_list t.1;
    IsGood = λ t. IsValid t.1;
    len-contents = len-length;
    write_good = buf_write-good;
    read_good = buf_read-good;
  }
