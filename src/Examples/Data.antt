-- ===== src/Examples/Data.antt =====
-- Windows, buffers and pipes at concrete inputs.
use h2stream.Prelude.{
  ◌⊎◌, true, false, panic, take, length, ◌≤◌, ℕ, suc, ◌≡◌, refl, ◌⊎◌, ◌≢◌, ◌++◌, true, false, none,
  some, List, [], ◌∷◌, length, take, drop, ok, panic, arith,
}
use h2stream.Prelude.Int.{pos, negsuc, ◌+ℤ◌, ◌-ℤ◌, ◌≤ℤ◌}
use h2stream.Errors.{eof, read_empty}
use h2stream.Flow
use h2stream.Flow.{Flow, max_window}
use h2stream.Flow.Laws.{IsFlow, less, take_exact, add_exact, add-negative}
use h2stream.DataBuffer
use h2stream.DataBuffer.{ChunkPools, DataBuffer, class_size, data_chunk_size_classes, empty_buffer}
use h2stream.DataBuffer.Layout.{to_list, IsValid, empty_buffer-IsValid}
use h2stream.DataBuffer.Write.{write_appends}
use h2stream.DataBuffer.Read.{read_takes}
use h2stream.Pipe
use h2stream.Pipe.{Pipe, new_pipe, close_with_error}
use h2stream.Pipe.Buffer.{data_buffer}
use h2stream.Pipe.Invariant.{IsPipe, Outcome, read-Outcome, Written, write_lem}
use h2stream.Pipe.Stream.{
  Call, writes, reads, closes, asks_done, run, any_nil, sum, positives, run-IsPipe, read_all,
  write_all, read_all-write_all,
}

abbrev pub zeros : ℕ → List ℕ
zeros ℕ.zero = []
zeros (suc n) = 0 ∷ zeros n

length-zeros : (n : ℕ) → length (zeros n) ≡ n
length-zeros ℕ.zero = refl
length-zeros (suc n) = omega (arith, length-zeros n)

pub zeroed :
    (i : ℕ) (s : Unit {0})
    → length (zeros (class_size data_chunk_size_classes i)) ≡ class_size data_chunk_size_classes i
zeroed i s = length-zeros (class_size data_chunk_size_classes i)

-- Pools that make a new chunk each time.
abbrev pub new_chunks : ChunkPools
new_chunks = record {
  Pools = Unit {0};
  get = λ i s. (zeros (class_size data_chunk_size_classes i), s);
  put = λ i c s. s;
  length-get = zeroed;
}

abbrev window : Flow
window = record { n = pos 100; conn = some (pos 40) }

abbrev shrunk : Flow
shrunk = record { n = negsuc 4; conn = some (pos 40) }

take_exact_example :
    ((pos 30 ≤ℤ Flow.available window)
      × (Flow.take window (pos 30)
          ≡ ok (record { n = window.n -ℤ pos 30; conn = less window.conn (pos 30) }))
      × (Flow.available (record { n = window.n -ℤ pos 30; conn = less window.conn (pos 30) })
          ≡ Flow.available window -ℤ pos 30)
      × IsFlow (record { n = window.n -ℤ pos 30; conn = less window.conn (pos 30) }))
    ⊎ (¬ (pos 30 ≤ℤ Flow.available window) × (Flow.take window (pos 30) ≡ panic))
take_exact_example = take_exact window (pos 30) (omega arith) (omega arith)

add_exact_example :
    ((window.n +ℤ pos 7 ≤ℤ max_window)
      × (Flow.add window (pos 7) ≡ (record window { n = window.n +ℤ pos 7 }, true)))
    ⊎ (¬ (window.n +ℤ pos 7 ≤ℤ max_window) × (Flow.add window (pos 7) ≡ (window, false)))
add_exact_example = add_exact window (pos 7) (omega arith) (omega arith) (omega arith)

add-negative_example : Flow.add shrunk (pos 1) ≡ (shrunk, false)
add-negative_example =
    add-negative shrunk (pos 1) (omega arith) (omega arith) (omega arith) (omega arith)

abbrev hello : List ℕ
hello = 104 ∷ 101 ∷ 108 ∷ 108 ∷ 111 ∷ []

write_appends_example :
    (s' : Unit {0}) × (b' : DataBuffer) × (DataBuffer.write new_chunks tt empty_buffer hello
      ≡ ok (5, s', b'))
    × IsValid b'
    × (to_list b' ≡ to_list empty_buffer ++ hello)
write_appends_example = write_appends new_chunks tt empty_buffer hello empty_buffer-IsValid.0

-- "ello", with the first byte of the chunk read already.
abbrev greeting : DataBuffer
greeting = record {
  chunks = (hello ++ zeros 1019) ∷ [];
  r = 1;
  w = 5;
  size = 4;
  expected = negsuc 5;
}

greeting-IsValid : IsValid greeting
unfolding DataBuffer.class_of
greeting-IsValid = record {
  laid = (omega arith, omega arith, omega arith, (omega arith, (0, refl)));
  counted = refl;
}

read_takes_example :
    ((to_list greeting ≡ [])
      × (DataBuffer.read new_chunks tt greeting 3 ≡ ok ([], some read_empty, tt, greeting)))
    ⊎ ((to_list greeting ≢ [])
        × ((s' : Unit {0}) × (b' : DataBuffer) × (DataBuffer.read new_chunks tt greeting 3
              ≡ ok (take 3 (to_list greeting), none, s', b'))
            × (to_list b' ≡ drop 3 (to_list greeting))
            × IsValid b'))
read_takes_example = read_takes new_chunks tt greeting 3 greeting-IsValid

read_greeting :
    DataBuffer.read new_chunks tt greeting 3
    ≡ ok (101 ∷ 108 ∷ 108 ∷ [], none, tt, record greeting { r = 4; size = 1 })
unfolding DataBuffer.read DataBuffer.read_loop DataBuffer.read_round
read_greeting = refl

abbrev greeting_pipe : Pipe (Unit {0} × DataBuffer)
greeting_pipe = record {
  b = some (tt, greeting);
  err = some eof;
  break_err = none;
  donec = none;
  read_fn = none;
}

greeting_pipe-IsPipe : IsPipe (data_buffer new_chunks) greeting_pipe
greeting_pipe-IsPipe = record {
  good = greeting-IsValid;
  kept = λ h k e. cc;
  quiet = λ h. cc;
  signalled = λ h. cc;
}

read-Outcome_example :
    Outcome
      (data_buffer new_chunks)
      greeting_pipe
      3
      (Pipe.read (data_buffer new_chunks) greeting_pipe 3)
read-Outcome_example = read-Outcome (data_buffer new_chunks) greeting_pipe 3 greeting_pipe-IsPipe

write_lem_example :
    Written
      (data_buffer new_chunks)
      greeting_pipe
      hello
      (Pipe.write (data_buffer new_chunks) greeting_pipe hello)
write_lem_example = write_lem (data_buffer new_chunks) greeting_pipe hello greeting_pipe-IsPipe

abbrev calls : List Call
calls =
    writes hello ∷ reads 2 ∷ asks_done ∷ closes (some eof) ∷ reads 9 ∷ reads 9 ∷ writes hello ∷ []

run-IsPipe_example :
    ((any_nil calls ≡ true)
      × (run (data_buffer new_chunks) (new_pipe (tt, empty_buffer)) calls ≡ panic))
    ⊎ ((any_nil calls ≡ false)
        × ((q : Pipe (Unit {0} × DataBuffer)) × (run
                (data_buffer new_chunks)
                (new_pipe (tt, empty_buffer))
                calls
              ≡ ok q)
            × IsPipe (data_buffer new_chunks) q))
run-IsPipe_example =
    run-IsPipe (data_buffer new_chunks) (tt, empty_buffer) calls empty_buffer-IsValid.0

-- Reads of different sizes, one of them zero.
abbrev sizes : List ℕ
sizes = 3 ∷ 0 ∷ 1 ∷ 9 ∷ 2 ∷ []

read_all-write_all_example :
    (q : Pipe (Unit {0} × DataBuffer)) × (q' : Pipe (Unit {0} × DataBuffer)) × (write_all
        (data_buffer new_chunks)
        (new_pipe (tt, empty_buffer))
        (hello ∷ hello ∷ [])
      ≡ ok q)
    × (close_with_error q (some eof) ≡ ok q')
    × ((read_all (data_buffer new_chunks) sizes q' ≡ ok (hello ++ hello, some eof))
        ⊎ ((read_all (data_buffer new_chunks) sizes q'
              ≡ ok (take (sum sizes) (hello ++ hello), none))
            × (positives sizes ≤ length (hello ++ hello))))
read_all-write_all_example =
    read_all-write_all (data_buffer new_chunks) (tt, empty_buffer) (hello ∷ hello ∷ []) eof sizes
      empty_buffer-IsValid.0 empty_buffer-IsValid.1
