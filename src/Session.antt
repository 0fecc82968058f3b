-- ===== src/Session.antt =====
-- session.go and stream.go: the state of a session and of its streams, as the serve loop sees it.
-- The write scheduler is the interface WriteScheduler, and the body of a stream a pipe over any
-- pipeBuffer. What the network does is a parameter too: at the n-th frame that is written, the room
-- in the write buffer and the error of the write.
pub mod Streams
pub mod Writing
pub mod Windows
pub mod Closing
pub mod Schedule
pub mod Frames
pub mod Opening
pub mod Reading
pub mod Serve
pub mod Starting
pub mod Handlers
pub mod Replies
pub mod Registry
pub mod Quiet
pub mod Spending
pub mod Announcing
pub mod Goroutines
use h2stream.Prelude.{
  ℕ, ◌+◌, ◌*◌, ◌≤◌, ◌≡◌, Bool, true, false, Option, none, some, List, length, Run, ok,
  if◌then◌else◌,
}
use h2stream.Prelude.Int.{ℤ}
use h2stream.Errors.{Error}
use h2stream.Flow.{Flow}
use h2stream.Pipe.{Pipe}
use h2stream.Frame.{Header, WriteFramer}
use h2stream.WriteQueue.{FrameWriteRequest, data_size}

-- streamState
pub data StreamState : Type 0 where
  idle opened half_closed_local half_closed_remote closed : StreamState

-- http2.PriorityParam
pub record PriorityParam : Type 0 where
  pub stream_dep : ℕ
  pub exclusive : Bool
  pub weight : ℕ

-- The methods of WriteScheduler; a call that the interface calls illegal may panic. `pop` reads the
-- flows of the streams and the maximal frame size, and gives back the flow of the frame's stream.
pub record WriteScheduler : Type 1 where
  pub Sched : Type 0
  pub open_stream : ℕ → ℕ → Sched → Run Sched
  pub close_stream : ℕ → Sched → Run Sched
  pub adjust_stream : ℕ → PriorityParam → Sched → Run Sched
  pub push : FrameWriteRequest → Sched → Run Sched
  pub pop : (ℕ → Option Flow) → ℤ → Sched → Run (Option (FrameWriteRequest × Option Flow) × Sched)

-- What the world does: bw.Available() before the n-th write and the error of that write, and whether
-- the n-th reply to a writer would have to wait, since its channel is full.
pub record Net : Type 0 where
  pub room : ℕ
  pub failed : Option Error
  pub would_block : Bool

-- stream. `flow` and `inflow` hold the stream's own windows, which are linked to the session's.
-- `ready` and `waited` tell whether readyCh and the closeWaiter are closed, `cancelled` whether the
-- context is.
pub record Stream (B : Type 0) : Type 0 where
  pub id : ℕ
  pub state : StreamState
  pub flow : ℤ
  pub inflow : ℤ
  pub body_bytes : ℕ
  pub header : Option Header
  pub trailer : Option Header
  pub body : Pipe B
  pub replied : Bool
  pub reply_header : Option Header
  pub ready : Bool
  pub waited : Bool
  pub cancelled : Bool
  pub reset_queued : Bool
  pub got_trailer_header : Bool
  pub wrote_headers : Bool

-- Session. `streams` lists the keys of the map sc.streams in the order of an iteration, and
-- `objects` every stream that was made, by id, also when it is no longer in the map: a request that
-- points to a stream reaches it there. `written`, `replies` and `started` record what goes out: the
-- frames, the results sent to waiting writers, and the streams whose handler was started. `in_flight`
-- is the request that a goroutine of writeFrameAsync is writing.
pub record Session (B S : Type 0) : Type 0 where
  pub server : Bool
  pub has_handler : Bool
  pub flow : ℤ
  pub inflow : ℤ
  pub sched : S
  pub objects : ℕ → Option (Stream B)
  pub streams : List ℕ
  pub fresh_buffer : B
  pub cur_client_streams : ℕ
  pub cur_pushed_streams : ℕ
  pub max_client_stream_id : ℕ
  pub max_push_promise_id : ℕ
  pub saw_first_settings : Bool
  pub need_to_send_settings_ack : Bool
  pub unacked_settings : ℤ
  pub initial_stream_send_window_size : ℤ
  pub initial_stream_recv_window_size : ℤ
  pub header_table_size : ℕ
  pub peer_max_header_list_size : ℕ
  pub push_enabled : Bool
  pub adv_max_streams : ℕ
  pub peer_max_streams : ℕ
  pub max_frame_size : ℤ
  pub writing_frame : Bool
  pub writing_frame_async : Bool
  pub needs_frame_flush : Bool
  pub in_go_away : Bool
  pub in_frame_schedule_loop : Bool
  pub need_to_send_go_away : Bool
  pub go_away_code : ℕ
  pub shutdown_timer : Bool
  pub idle_timeout : ℕ
  pub idle_timer : Bool
  pub in_flight : Option FrameWriteRequest
  pub writes : ℕ
  pub written : List WriteFramer
  pub replies : List (ℕ × Option Error)
  pub started : List ℕ
