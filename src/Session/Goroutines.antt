-- ===== src/Session/Goroutines.antt =====
-- session_read.go, readFrames, and session.go, serve: the goroutine that reads frames and the serve
-- loop, with the two channels between them. readFrameCh hands a frame over, and the gate gives the
-- turn back. A turn of either goroutine is a step; what the network delivers is a parameter.
pub mod Serial
pub mod Progress
use h2stream.Prelude.{
  ℕ, ◌≡◌, Bool, true, false, Option, none, some, List, [], ◌∷◌, ◌++◌, if◌then◌else◌, Run, ok, ◌>>=◌,
}
use h2stream.Errors.{Error}
use h2stream.Frame.{Setting}
use h2stream.Pipe.{PipeBuffer}
use h2stream.Session.{Session, WriteScheduler, Net}
use h2stream.Session.Serve.{
  ReadFrameResult, got, failed, Event, read_frame, terminal_read_frame_error, serve_round,
}
use Prim.Native.String.{String}

-- Where readFrames is: in ReadFrame, in its first select with a result to send, in its second one with
-- the result that was sent, or at its end.
pub data ReaderState : Type 0 where
  reading : ReaderState
  offering waiting : ReadFrameResult → ReaderState
  returned : ReaderState

-- Where serve is: in its select, in processFrameFromReader, in readMore, or behind
-- close(sc.doneServing).
pub data ServeState : Type 0 where
  selecting : ServeState
  processing : ReadFrameResult → ServeState
  releasing : ServeState
  done_serving : ServeState

unfoldable pub error_of : ReadFrameResult → Option Error
error_of (got f) = none
error_of (failed e) = some e

-- The end of a round of readFrames.
unfoldable pub read_on : ReadFrameResult → ReaderState
unfolding error_of
read_on r = if terminal_read_frame_error (error_of r) then returned else reading

abbrev pub is_read : Event → Bool
is_read (read_frame r) = true
is_read _ = false

-- The session and the two goroutines; `incoming` is what ReadFrame will return, and `events` what the
-- loop has handled, the oldest first.
pub record Goroutines (B S : Type 0) : Type 0 where
  pub session : Session B S
  pub serving : ServeState
  pub reader : ReaderState
  pub incoming : List ReadFrameResult
  pub events : List Event

module _ (pb : PipeBuffer) (ws : WriteScheduler) (net : ℕ → Net) (valid : Setting → Option Error)
    (canonical : String → String) (fuel : ℕ) where
  abbrev pub Sess : Type 0
  Sess = Session pb.Buf ws.Sched

  abbrev pub round : Sess → Event → Run (Bool × Sess)
  round = serve_round pb ws net valid canonical fuel

  -- A turn of readFrames or of serve. Where a select can go on in two ways, each is a turn of its own.
  -- The test for the shutdown timer at the end of a round is made before readMore here; readMore does
  -- not touch the session.
  pub data Turn : Goroutines pb.Buf ws.Sched → Goroutines pb.Buf ws.Sched → Type 0 where
    reads :
        (t : Goroutines pb.Buf ws.Sched) (r : ReadFrameResult) (rs : List ReadFrameResult)
        → t.reader ≡ reading
        → t.incoming ≡ r ∷ rs
        → Turn t (record t { reader = offering r; incoming = rs })
    takes :
        (t : Goroutines pb.Buf ws.Sched) (r : ReadFrameResult)
        → t.serving ≡ selecting
        → t.reader ≡ offering r
        → Turn t (record t { serving = processing r; reader = waiting r })
    processes :
        (t : Goroutines pb.Buf ws.Sched) (r : ReadFrameResult) (more : Bool) (s : Sess)
        → t.serving ≡ processing r
        → round t.session (read_frame r) ≡ ok (more, s)
        → Turn t (record t {
          session = s;
          serving = if more then releasing else done_serving;
          events = t.events ++ read_frame r ∷ [];
        })
    releases :
        (t : Goroutines pb.Buf ws.Sched) (r : ReadFrameResult)
        → t.serving ≡ releasing
        → t.reader ≡ waiting r
        → Turn t (record t { serving = selecting; reader = read_on r })
    handles :
        (t : Goroutines pb.Buf ws.Sched) (ev : Event) (more : Bool) (s : Sess)
        → t.serving ≡ selecting
        → is_read ev ≡ false
        → round t.session ev ≡ ok (more, s)
        → Turn t (record t {
          session = s;
          serving = if more then selecting else done_serving;
          events = t.events ++ ev ∷ [];
        })
    abandons :
        (t : Goroutines pb.Buf ws.Sched) (r : ReadFrameResult)
        → t.serving ≡ done_serving
        → t.reader ≡ offering r
        → Turn t (record t { reader = returned })
    leaves :
        (t : Goroutines pb.Buf ws.Sched) (r : ReadFrameResult)
        → t.serving ≡ done_serving
        → t.reader ≡ waiting r
        → Turn t (record t { reader = returned })

  -- `go sc.readFrames()`, before the first select.
  abbrev pub started_with : Sess → List ReadFrameResult → Goroutines pb.Buf ws.Sched
  started_with s rs = record {
    session = s;
    serving = selecting;
    reader = reading;
    incoming = rs;
    events = [];
  }

  -- What any interleaving of turns leads to.
  pub data Interleaved (t : Goroutines pb.Buf ws.Sched) : Goroutines pb.Buf ws.Sched → Type 0 where
    here : Interleaved t t
    next : {u v : Goroutines pb.Buf ws.Sched} → Interleaved t u → Turn u v → Interleaved t v

  -- The serve loop alone, on a list of events: whether it goes on, and the session.
  unfoldable pub rounds : Sess → List Event → Run (Bool × Sess)
  rounds s [] = ok (true, s)
  rounds s (ev ∷ evs) =
      round s ev >>= λ (more, s'). elim more [ true ↦ rounds s' evs | false ↦ ok (false, s') ]
