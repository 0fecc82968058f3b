-- ===== src/WriteQueue.antt =====
-- writesched.go: a request to write a frame, how flow control splits it, and the queue of requests.
pub mod Consume
pub mod Fifo
pub mod Content
use h2stream.Prelude.{
  ℕ, ◌+◌, ◌-◌, Bool, true, false, Option, none, some, List, [], ◌∷◌, ◌++◌, length, take, drop, ltb,
  if◌then◌else◌, Run, ok, panic, ◌>>=◌,
}
use h2stream.Prelude.Int.{ℤ, pos, ltb_ℤ, pos_part}
use h2stream.Flow
use h2stream.Flow.{Flow}
use h2stream.Frame.{WriteFramer, write_data, write_stream_error}

-- `stream` is a pointer to a stream, shown as the id of the stream, which is never used again;
-- `done` names the channel to reply to.
pub record FrameWriteRequest : Type 0 where
  pub write : Option WriteFramer
  pub stream : Option ℕ
  pub done : Option ℕ

-- StreamID
unfoldable pub stream_id : FrameWriteRequest → ℕ
stream_id wr = elim wr.stream [
  | some id ↦ id
  | none ↦ elim wr.write [ some (write_stream_error id _) ↦ id | _ ↦ 0 ]
]

-- DataSize
unfoldable pub data_size : FrameWriteRequest → ℕ
data_size wr = elim wr.write [ some (write_data _ p _) ↦ length p | _ ↦ 0 ]

-- The frames that Consume returns, and how many.
pub data Consumed : Type 0 where
  nothing : Consumed
  whole : FrameWriteRequest → Consumed
  split : FrameWriteRequest → FrameWriteRequest → Consumed

-- The smallest of the available bytes, `n` and the peer's maximal frame size.
unfoldable pub allowed : Flow → ℤ → ℤ → ℤ
allowed flow max_frame_size n =
    let a = Flow.available flow in
    let b = if ltb_ℤ n a then n else a in if ltb_ℤ max_frame_size b then max_frame_size else b

-- The part of Consume for a DATA frame that is not empty.
unfoldable pub consume_data :
    FrameWriteRequest → Flow → ℤ → ℕ → List ℕ → Bool → Run (Consumed × Flow)
consume_data wr flow a id p end_stream =
    let n = pos_part a in
    let part : Run (Consumed × Flow) = Flow.take flow a >>= λ flow'. ok (
      split
          (record {
            stream = wr.stream;
            write = some (write_data id (take n p) false);
            done = none;
          })
          (record {
            stream = wr.stream;
            write = some (write_data id (drop n p) end_stream);
            done = wr.done;
          }),
      flow',
    ) in
    let all : Run (Consumed × Flow) =
      Flow.take flow (pos (length p)) >>= λ flow'. ok (whole wr, flow') in
    if ltb_ℤ (pos 0) a then (if ltb n (length p) then part else all) else ok (nothing, flow)

-- Consume: `flow` is the flow of the request's stream, and `max_frame_size` the session's. Without a
-- stream, the nil pointer panics.
unfoldable pub consume : FrameWriteRequest → Option Flow → ℤ → ℤ → Run (Consumed × Option Flow)
unfolding consume_data
consume wr flow max_frame_size n = elim wr.write [
  | some (write_data id (x ∷ p) end_stream) ↦ elim flow [
    | none ↦ panic
    | some f ↦ consume_data wr f (allowed f max_frame_size n) id (x ∷ p) end_stream >>= λ (c, f').
        ok (c, some f')
  ]
  | _ ↦ ok (whole wr, flow)
]

-- writeQueue
abbrev pub WriteQueue : Type 0
WriteQueue = List FrameWriteRequest

unfoldable pub empty : WriteQueue → Bool
empty [] = true
empty (_ ∷ _) = false

unfoldable pub push : WriteQueue → FrameWriteRequest → WriteQueue
push q wr = q ++ wr ∷ []

unfoldable pub shift : WriteQueue → Run (FrameWriteRequest × WriteQueue)
shift [] = panic
shift (wr ∷ q) = ok (wr, q)

-- The method consume of writeQueue: the frame, if any, the queue left, and the flow of the stream.
unfoldable pub consume_queue :
    WriteQueue → Option Flow → ℤ → ℤ → Run (Option FrameWriteRequest × WriteQueue × Option Flow)
consume_queue [] flow max_frame_size n = ok (none, [], flow)
consume_queue (wr ∷ q) flow max_frame_size n = consume wr flow max_frame_size n >>= λ (c, flow').
    elim c [
      | nothing ↦ ok (none, wr ∷ q, flow')
      | whole wr' ↦ ok (some wr', q, flow')
      | split wr' rest ↦ ok (some wr', rest ∷ q, flow')
    ]

-- writeQueuePool: the unused queues, the last put first.
abbrev pub WriteQueuePool : Type 0
WriteQueuePool = List WriteQueue

unfoldable pub put : WriteQueuePool → WriteQueue → WriteQueuePool
put p q = [] ∷ p

unfoldable pub get : WriteQueuePool → WriteQueue × WriteQueuePool
get [] = ([], [])
get (q ∷ p) = (q, p)
