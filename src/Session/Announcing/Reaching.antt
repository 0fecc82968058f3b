-- ===== src/Session/Announcing/Reaching.antt =====
-- session.go, serve: the connection's receive window in all sessions that the serve loop reaches.
use h2stream.Prelude.{
  ℕ, ◌+◌, ◌≡◌, refl, Bool, true, false, Option, if◌then◌else◌, Run, ok, Post, Post-bind, Post-ok,
}
use h2stream.Prelude.Int.{IsInt32}
use h2stream.Errors.{Error}
use h2stream.Frame.{Setting}
use h2stream.Pipe.{PipeBuffer}
use h2stream.Session.{Session, WriteScheduler, Net}
use h2stream.Session.Schedule.{schedule_frame_write}
use h2stream.Session.Serve.{Event, handle, check_shutdown, serve_round}
use h2stream.Session.Announcing.{announcing}
use h2stream.Session.Announcing.Serving.{Lowered, IsTame, data_size_of, spent_nothing, spent_more}
use h2stream.Session.Announcing.Handling.{handle-Lowered}
use Prim.Native.String.{String}

module _ (pb : PipeBuffer) (ws : WriteScheduler) (net : ℕ → Net) (valid : Setting → Option Error)
    (canonical : String → String) (fuel : ℕ) where
  abbrev pub Sess : Type 0
  Sess = Session pb.Buf (ws.Sched × ℕ)

  abbrev ws' : WriteScheduler
  ws' = announcing ws

  abbrev again : Sess → Run Sess
  again = schedule_frame_write pb ws' net fuel

  -- A round of the loop
  serve_round-Lowered :
      (s : Sess) (ev : Event)
      → IsInt32 s.inflow
      → IsTame ev
      → Post
          (serve_round pb ws' net valid canonical fuel s ev)
          (λ (_, t). Lowered (data_size_of ev) s t)
  unfolding serve_round check_shutdown
  serve_round-Lowered s ev v p =
      Post-bind (λ (_, t). Lowered (data_size_of ev) s t) _
        (handle pb ws' net valid canonical fuel s ev) _
        (handle-Lowered pb ws net valid canonical fuel s ev v p) (λ (more, t) h. ended t more h)
    where
      checked :
          (t : Sess) (b : Bool)
          → Lowered (data_size_of ev) s t
          → Lowered (data_size_of ev) s (if b then record t { shutdown_timer = true } else t)
      checked t true h = h
      checked t false h = h

      ended :
          (t : Sess) (more : Bool)
          → Lowered (data_size_of ev) s t
          → Lowered
              (data_size_of ev)
              s
              (if more then check_shutdown pb ws' net valid canonical fuel t else t)
      ended t true h = checked t _ h
      ended t false h = h

  -- The sessions that the loop reaches from `s`, with the sum of the sizes of the DATA frames read.
  pub data Serves (s : Sess) : ℕ → Sess → Type 0 where
    begin : Serves s 0 s
    turn :
        (k : ℕ) (t : Sess) (ev : Event) (more : Bool) (u : Sess)
        → Serves s k t
        → IsTame ev
        → serve_round pb ws' net valid canonical fuel t ev ≡ ok (more, u)
        → Serves s (k + data_size_of ev) u

  -- In every session that the serve loop reaches from one with an int32 receive window for the connection,
  -- that window is an int32, and it has grown by exactly what was announced to the peer in WINDOW_UPDATE
  -- requests and fallen by at most the sizes of the DATA frames read, for frames of less than 2^31 bytes
  -- and handlers that ask for no WINDOW_UPDATE of the connection.
  pub Serves-Lowered : (s t : Sess) (k : ℕ) → IsInt32 s.inflow → Serves s k t → Lowered k s t
  Serves-Lowered s t _ v begin = spent_nothing 0 s s (v, refl)
  Serves-Lowered s t _ v (turn k u ev more _ r p e) =
      let h = Serves-Lowered s u k v r in
      spent_more k (data_size_of ev) s u t h (
        Post-ok (λ (_, x). Lowered (data_size_of ev) u x)
          (serve_round pb ws' net valid canonical fuel u ev) (more, t)
          (serve_round-Lowered u ev (h.0) p) e)
