-- ===== src/Session/Handlers.antt =====
-- stream.go and session_write.go: the methods of a stream that its handler's goroutine calls. A call
-- gives its result, the stream, and the requests that it sends to the serve loop. A select is a
-- parameter: which of its channels is ready.
use h2stream.Prelude.{
  ℕ, Bool, true, false, ◌||◌, ◌⊎◌, inl, inr, Option, none, some, List, [], ◌∷◌, length, not,
  if◌then◌else◌, Run, ok, panic,
}
use h2stream.ErrCode
use h2stream.Errors.{Error, disconnected, stream_closed}
use h2stream.Frame.{Header, ResHeaders, write_data, write_stream_error, write_res_headers}
use h2stream.Pipe
use h2stream.Pipe.{PipeBuffer, ReadStep, waits, returns, Pipe}
use h2stream.WriteQueue.{FrameWriteRequest}
use h2stream.Session.{Stream}
use h2stream.Session.Streams.{is_pushed}
use h2stream.Session.Serve.{Event, wants_stream, graceful_shutdown}
use h2stream.Session.Writing.{is_closed}

-- The errors of a call: one that the files share, and the ones made in stream.go.
pub data CallError : Type 0 where
  of : Error → CallError
  already_replied dead_stream timeout_occurred empty_header shutdown_timeout : CallError

-- What the wait for a frame's result ends with: the result, the end of the serve loop, or the close of
-- the stream, where the result may have come too.
pub data Wakes : Type 0 where
  reported : Option Error → Wakes
  done_serving : Wakes
  stream_done : Option (Option Error) → Wakes

abbrev pub called : Option Error → Option CallError
called none = none
called (some e) = some (of e)

-- writeFrameFromHandler: the serve loop takes the request, or is gone.
unfoldable pub write_frame_from_handler :
    Bool → FrameWriteRequest → Option Error × List FrameWriteRequest
write_frame_from_handler true wr = (none, wr ∷ [])
write_frame_from_handler false wr = (some disconnected, [])

-- The wait of writeDataFromHandler.
unfoldable pub data_result : Wakes → Option Error
data_result (reported e) = e
data_result done_serving = some disconnected
data_result (stream_done (some e)) = e
data_result (stream_done none) = some stream_closed

-- The wait of writeHeaders, which does not look for a result once the stream is closed.
unfoldable pub headers_result : Wakes → Option Error
headers_result (reported e) = e
headers_result done_serving = some disconnected
headers_result (stream_done _) = some stream_closed

-- The error, and the requests sent.
abbrev pub Sent : Type 0
Sent = Option Error × List FrameWriteRequest

-- After a request was sent, the result is waited for.
abbrev pub await : Sent → Option Error → Sent
await (some e, wrs) r = (some e, wrs)
await (none, wrs) r = (r, wrs)

-- Whether this side of the connection opened the stream.
abbrev pub same_side : Bool → ℕ → Bool
same_side true id = is_pushed id
same_side false id = not (is_pushed id)

module _ {B : Type 0} where
  -- writeDataFromHandler; `ch` is the channel for the result.
  unfoldable pub write_data_from_handler : Stream B → List ℕ → Bool → ℕ → Bool → Wakes → Sent
  unfolding write_frame_from_handler data_result
  write_data_from_handler st p end_stream ch serving w =
      await
        (write_frame_from_handler serving (record {
          write = some (write_data st.id p end_stream);
          stream = some st.id;
          done = some ch;
        }))
        (data_result w)

  -- writeHeaders: without a header map nothing is waited for.
  unfoldable pub write_headers : Stream B → ResHeaders → ℕ → Bool → Wakes → Sent
  unfolding write_frame_from_handler headers_result
  write_headers st r ch serving w =
      let waited : Option ℕ = elim r.h [ none ↦ none | some _ ↦ some ch ] in
      await
        (write_frame_from_handler serving
          (record { write = some (write_res_headers r); stream = some st.id; done = waited }))
        (elim r.h [ none ↦ none | some _ ↦ headers_result w ])

  -- WriteData, Write and CloseWrite
  abbrev pub write_data_on : Stream B → List ℕ → Bool → ℕ → Bool → Wakes → Sent
  write_data_on st p end_stream ch serving w = write_data_from_handler st p end_stream ch serving w

  unfoldable pub write : Stream B → List ℕ → ℕ → Bool → Wakes → ℕ × Sent
  write st p ch serving w =
      let (e, wrs) = write_data_on st p false ch serving w in
      (elim e [ none ↦ length p | some _ ↦ 0 ], (e, wrs))

  unfoldable pub close_write : Stream B → ℕ → Bool → Wakes → Sent
  close_write st ch serving w = write_data_on st [] true ch serving w

  -- ResetWithError
  unfoldable pub reset_with_error :
      Stream B → ℕ → Bool → Option CallError × Stream B × List FrameWriteRequest
  unfolding write_frame_from_handler
  reset_with_error st code serving =
      let (_, wrs) =
        write_frame_from_handler serving
          (record { write = some (write_stream_error st.id code); stream = none; done = none }) in
      if is_closed st.state || st.reset_queued
      then (some dead_stream, st, [])
      else (none, record st { replied = true }, wrs)

  -- Close
  unfoldable pub close : Stream B → Bool → Option CallError × Stream B × List FrameWriteRequest
  unfolding reset_with_error
  close st serving = reset_with_error st ErrCode.no_error serving

  -- The frame of Reply: an empty header becomes the status 200.
  unfoldable pub reply_frame : Stream B → Header → Bool → ResHeaders
  reply_frame st [] end_stream = record {
    stream_id = st.id;
    http_res_code = 200;
    h = none;
    trailers = none;
    end_stream = end_stream;
    date = "";
    content_type = "";
    content_length = "";
  }
  reply_frame st (x ∷ header) end_stream = record {
    stream_id = st.id;
    http_res_code = 0;
    h = some (x ∷ header);
    trailers = none;
    end_stream = end_stream;
    date = "";
    content_type = "";
    content_length = "";
  }

  -- Reply, on the session's side given; a channel that is closed twice panics.
  unfoldable pub reply :
      Bool
      → Stream B
      → Header
      → Bool
      → ℕ
      → Bool
      → Wakes
      → Run (Option CallError × Stream B × List FrameWriteRequest)
  unfolding reply_frame write_headers
  reply server st header end_stream ch serving w =
      let (e, wrs) = write_headers st (reply_frame st header end_stream) ch serving w in
      let go : Run (Option CallError × Stream B × List FrameWriteRequest) =
        if st.ready
        then panic
        else ok (called e, record st { replied = true; ready = true }, wrs) in
      if same_side server st.id
      then panic
      else (if st.replied then ok (some already_replied, st, []) else go)

-- OpenStream: whether the serve loop takes the message, and its answer, the id of the stream or an
-- error, or none if the loop ends first.
unfoldable pub open_stream_call :
    Header → Option ℕ → Bool → Bool → Option (ℕ ⊎ Error) → (ℕ ⊎ CallError) × List Event
open_stream_call [] parent end_stream serving answer = (inr empty_header, [])
open_stream_call (x ∷ header) parent end_stream serving answer =
    let parent_id : ℕ = elim parent [ none ↦ 0 | some id ↦ id ] in
    let answered : ℕ ⊎ CallError = elim answer [
      | none ↦ inr (of disconnected)
      | some (inl id) ↦ inl id
      | some (inr e) ↦ inr (of e)
    ] in
    if serving
    then (answered, wants_stream parent_id (x ∷ header) end_stream ∷ [])
    else (inr (of disconnected), [])

-- StartGracefulShutdown, where shutdownOnce has been used or not.
unfoldable pub start_graceful_shutdown : Bool → List Event
start_graceful_shutdown once = if once then [] else graceful_shutdown ∷ []

-- Close: the error, whether the connection is closed at once, and the message to the serve loop.
-- `stopped` tells whether the loop has ended, `in_time` whether it ends before the timeout, and
-- `closing` is the error of closing the connection.
unfoldable pub close_session :
    Bool → Bool → Bool → Bool → Option Error → Option CallError × Bool × List Event
unfolding start_graceful_shutdown
close_session stopped saw_first_settings once in_time closing =
    let wait : Option CallError = if in_time then none else some shutdown_timeout in
    if stopped
    then (none, false, [])
    else (if saw_first_settings
        then (wait, false, start_graceful_shutdown once)
        else (called closing, true, []))

-- What WaitForReply finds ready.
pub data Ready : Type 0 where
  closed_wait context_done timed_out reply_seen : Ready

-- WaitForReply
unfoldable pub wait_for_reply : Ready → Option CallError
wait_for_reply closed_wait = some (of stream_closed)
wait_for_reply context_done = some (of stream_closed)
wait_for_reply timed_out = some timeout_occurred
wait_for_reply reply_seen = none

module _ (pb : PipeBuffer) where
  -- Read
  unfoldable pub read : Stream pb.Buf → ℕ → Run (ReadStep (Pipe pb.Buf))
  read st k = Pipe.read pb st.body k
