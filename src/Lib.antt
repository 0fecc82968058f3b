-- ===== src/Lib.antt =====
-- Verification of h2stream, a Go library that carries streams over one connection by HTTP/2 frames.
--
-- The program. A Session (session.go, session_read.go, session_write.go) runs one goroutine, the
-- serve loop, which owns all the state: it receives frames from a reading goroutine, requests to
-- write from the handlers, the ends of asynchronous writes, calls of OpenStream and timers. What is
-- to be written goes to a write scheduler (writesched.go, writesched_priority.go), whose queues
-- hold FrameWriteRequests; a DATA request is cut there to what the flow-control windows (flow.go)
-- allow. The body of a stream is a pipe (pipe.go) from the serve loop to the handler, over a buffer
-- of chunks (databuffer.go). write.go has the frames that are written; it encodes headers and
-- cuts header blocks.
--
-- The files.
--   Prelude         the helpers: Boolean tests, lists and slices over native numbers, the integers
--                   with int32 wrap-around (Int), and Run, the ways a call ends (Outcome)
--   ErrCode, Errors http2.ErrCode and the error values, as data
--   Flow            flow.go: available, take and add on a window and its parent. The pointer to the
--                   parent is an optional number, since a flow has at most one parent
--   DataBuffer      databuffer.go: Read and Write on the chunks with the indices r and w; Layout is
--                   about the chunks and the unread bytes, Write and Read about the methods
--   Pipe            pipe.go: each method as one critical section under the mutex. A Read that waits
--                   on the condition variable is the result `waits`. Buffer has the chunked buffer
--                   as a pipeBuffer, Invariant the methods, Stream sequences of calls
--   Frame           write.go: the kinds of frames, writeEndsStream, staysWithinBuffer, and
--                   splitHeaderBlock in HeaderBlock. Encoding has encodeHeaders, the writeFrame
--                   methods, and of utils.go sorter.Keys and httpCodeString; Encoding/Fields is
--                   about what is encoded, Wire about the frames that carry it, and Room
--                   about their sizes
--   WriteQueue      writesched.go: FrameWriteRequest, Consume, writeQueue and its pool; Consume,
--                   Fifo and Content are about them
--   Priority        writesched_priority.go: the nodes of the priority tree as addresses, with setParent
--                   and addBytes; Order (Less), Walk (walkReadyInOrder) and Scheduler (the methods).
--                   Siblings, Moving and Chains are about the lists of siblings, Charging about
--                   addBytes, Sorting, Taking and Visiting about the walk, Popping about Pop; Ranking
--                   and Adjusting about AdjustStream, Removing about removeNode, Fifo about the order
--                   of a stream's requests, and Keeping, Settling and Calls about sequences of
--                   calls. Returns is about fuel
--   Session         the state of a session and of its streams, and in its children the serve loop:
--                   Streams (state, the map, the counters), Writing (writeFrame), Windows
--                   (sendWindowUpdate), Closing (closeStream, resetStream, goAway), Schedule
--                   (startFrameWrite, wroteFrame, scheduleFrameWrite), Frames (the frames that are
--                   read), Opening (newStream, createStream, processHeaders), Reading (the other
--                   process functions), Serve (processFrameFromReader, a round of serve), Starting
--                   (newSession, the handshake) and Handlers (the calls of a handler's goroutine,
--                   which Replies is about). Goroutines has readFrames beside serve, as turns.
--                   Registry is about the map of streams, its counters and the largest ids,
--                   Spending about what the scheduling loop takes from the connection's send
--                   window, Announcing about its receive window and what the peer is told of it,
--                   Quiet about closing streams for both, and
--                   Goroutines/Serial and Goroutines/Progress about the interleavings of the two
--                   goroutines
--   Examples        concrete inputs
--
-- The model. Stateful code passes its state on; a slice is the list of its elements; a pointer to a
-- stream is its id, and the session keeps every stream object by id, so that a request that was
-- queued still reaches a stream that has left the map. An int32 is an integer with the wrap-around of
-- each operation written out, a uint32 a native number modulo 2 ^ 32. A call returns, panics, or is
-- cut off by the model's fuel.
-- An error of type error is a value of Errors, and an optional one where it may be nil. closeStream
-- and endStream give the body's pipe an error that is never nil, so they use closeWithError without
-- its first test (set_err).
-- Session/Announcing runs the session over a scheduler with a count beside its state, which the code
-- does not have: the sum of the increments of all WINDOW_UPDATE requests for the connection.
--
-- Fuel. Write of a data buffer gets one round more than it has bytes to write, and Read one more
-- than the slice has room: a round of either copies a byte at least. splitHeaderBlock gets a round
-- for each byte of the block and one more, since a round cuts off a byte at least, and
-- sendWindowUpdate one for each 2 ^ 31 - 1 of its increment and one more. The loop of
-- scheduleFrameWrite takes its fuel as a parameter: how many rounds it needs depends on the write
-- scheduler, and what is stated of it holds of each call that returns. The methods of the priority write
-- scheduler take it as a parameter too, where it bounds the depth of the walk and the loops along the
-- links; that enough of it is given is part of what is stated of them.
--
-- Parameters. The chunk pools of the sync package give a slice of the class's length; the write
-- scheduler of a session is the interface WriteScheduler; the network gives, for each frame, the room
-- in the write buffer, the error of the write, and whether the channel of a reply would block;
-- http2.Setting.Valid and http.CanonicalHeaderKey are functions. So are the calls of writeContext, which reach the framer and
-- the HPACK encoder, and strings.ToLower, strconv.Itoa, http.StatusText and
-- httplex.ValidHeaderFieldValue, which encodeHeaders and httpCodeString use. Float64 stands for the
-- machine's floating-point numbers. sort.Sort is a function on lists, which for the priority
-- scheduler permutes its list.
--
-- Not modelled: the goroutines of handlers and of writeFrameAsync as such (what they send to the
-- serve loop is an event), the bytes that the framer and the HPACK encoder of
-- golang.org/x/net/http2 make, gotrack.go, which is a copy from that package,
-- validWireHeaderFieldName, whose calls are commented out, and logging.
mod Prelude
pub mod ErrCode
pub mod Errors
pub mod Flow
pub mod DataBuffer
pub mod Pipe
pub mod Frame
pub mod WriteQueue
pub mod Priority
pub mod Session
mod Examples
