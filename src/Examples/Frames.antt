-- ===== src/Examples/Frames.antt =====
-- Frame requests and header blocks at concrete inputs.
use h2stream.Prelude.{◌+◌, ◌≡◌, ◌++◌, true, Option, none, some, List, [], ◌∷◌, length, ok, arith}
use h2stream.Prelude.Int.{pos}
use h2stream.Flow.{Flow}
use h2stream.Flow.Laws.{IsFlow}
use h2stream.Frame.{write_data}
use h2stream.Frame.HeaderBlock.{Fragment, split_header_block}
use h2stream.Frame.HeaderBlock.Laws.{record_call, join, AreFrames, split_header_block-Frames}
use h2stream.WriteQueue.{FrameWriteRequest, WriteQueue, Consumed, consume, consume_queue}
use h2stream.WriteQueue.Consume.{Splits, consume-Splits, bytes, ends, spent}
use h2stream.WriteQueue.Fifo.{queued, endings, consume_queue-front}

abbrev request : FrameWriteRequest
request = record {
  write = some (write_data 1 (7 ∷ 8 ∷ 9 ∷ []) true);
  stream = some 1;
  done = some 0;
}

abbrev flow : Flow
flow = record { n = pos 100; conn = some (pos 2) }

consume-Splits_example :
    (c : Consumed) × (f' : Flow) × (consume request (some flow) (pos 16384) (pos 50)
      ≡ ok (c, some f'))
    × Splits request flow (pos 16384) (pos 50) c f'
consume-Splits_example = consume-Splits request flow (pos 16384) (pos 50) (omega arith)

consume_queue-front_example :
    (o : Option FrameWriteRequest) × (q' : WriteQueue) × (f' : Flow) × (consume_queue
        (request ∷ request ∷ [])
        (some flow)
        (pos 16384)
        (pos 50)
      ≡ ok (o, q', some f'))
    × (bytes o ++ queued q' ≡ queued (request ∷ request ∷ []))
    × (ends o + endings q' ≡ endings (request ∷ request ∷ []))
    × (f' ≡ spent flow (length (bytes o)))
    × IsFlow f'
consume_queue-front_example =
    consume_queue-front (request ∷ request ∷ []) flow (pos 16384) (pos 50) (omega arith)

split_header_block-Frames_example :
    (ys : List Fragment) × (split_header_block record_call (1 ∷ 2 ∷ 3 ∷ []) [] ≡ ok (none, ys))
    × (join ys ≡ 1 ∷ 2 ∷ 3 ∷ [])
    × AreFrames true ys
split_header_block-Frames_example = split_header_block-Frames (1 ∷ 2 ∷ 3 ∷ [])
