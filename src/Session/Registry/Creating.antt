-- ===== src/Session/Registry/Creating.antt =====
-- session.go: the registry of streams under createStream, with the ids of this side.
use h2stream.Prelude.{
  ℕ, ◌+◌, ◌%◌, ◌^◌, ◌≤◌, ◌<◌, ◌≡◌, ◌⊎◌, Bool, true, false, ◌&&◌, not, none, some, ◌==◌, ltb, leb,
  if◌then◌else◌, arith, Bool-cases, inl, inr, Run, ok, ◌>>=◌, Post, Post-bind, Post-if,
  Post-if_known,
}
use h2stream.ErrCode
use h2stream.Errors.{Error, stream_limit_reached}
use h2stream.Pipe.{PipeBuffer}
use h2stream.Frame.{Header, write_res_headers}
use h2stream.WriteQueue.{FrameWriteRequest}
use h2stream.Session.{opened, half_closed_remote, Session, WriteScheduler}
use h2stream.Session.Streams.{is_odd}
use h2stream.Session.Writing.{write_frame}
use h2stream.Session.Closing.{go_away}
use h2stream.Session.Opening.{new_stream, create_stream}
use h2stream.Session.Registry.{IsSession}
use h2stream.Session.Registry.Updates.{bound}
use h2stream.Session.Registry.Writing.{Keeps, write_frame-Post}
use h2stream.Session.Registry.Closing.{go_away-Post}
use h2stream.Session.Registry.NewStream.{
  unused, raise_client, raise_pushed, live_first, new_stream-Post,
}

module _ (pb : PipeBuffer) (ws : WriteScheduler) where
  abbrev Sess : Type 0
  Sess = Session pb.Buf ws.Sched

  -- The largest id of this side's streams, the next one, and the session that has it.
  abbrev own_max : Sess → ℕ
  own_max s = if s.server then s.max_push_promise_id else s.max_client_stream_id

  abbrev next_id : Sess → ℕ
  next_id s = if not s.server && s.max_client_stream_id == 0 then 1 else (own_max s + 2) % 2 ^ 32

  abbrev numbered : Sess → ℕ → Sess
  numbered s id =
      if s.server
      then record s { max_push_promise_id = id }
      else record s { max_client_stream_id = id }

  -- What newStream asks of its id, after the largest id was set to it.
  abbrev Fresh : Sess → ℕ → Type 0
  Fresh s id = IsSession s × (s.objects id ≡ none) × (id ≤ bound s id)

  number_pushed :
      (s : Sess) (id : ℕ)
      → IsSession s
      → s.server ≡ true
      → s.max_push_promise_id < id
      → id < 2 ^ 31
      → is_odd id ≡ false
      → Fresh (numbered s id) id
  number_pushed s id v y above k even = rw y (
    raise_pushed pb ws s id v (omega (arith, above)) k even,
    unused pb ws s id v (rw even above),
    rw even (omega arith),
  )

  number_client :
      (s : Sess) (id : ℕ)
      → IsSession s
      → s.server ≡ false
      → s.max_client_stream_id < id
      → id < 2 ^ 31
      → is_odd id ≡ true
      → Fresh (numbered s id) id
  number_client s id v y above k odd = rw y (
    raise_client pb ws s id v (omega (arith, above)) k odd,
    unused pb ws s id v (rw odd above),
    rw odd (omega arith),
  )

  -- The next id is new, and of this side's parity.
  next_raise :
      (s : Sess)
      → IsSession s
      → leb (2 ^ 31) ((own_max s + 2) % 2 ^ 32) ≡ false
      → Fresh (numbered s (next_id s)) (next_id s)
  next_raise s v h = elim (Bool-cases s.server) [
    | inl y ↦
        let next : next_id s ≡ s.max_push_promise_id + 2 = ground (arith, y, h, v.numbered) in
        let even : is_odd (next_id s) ≡ false = ground (arith, next, v.numbered) in
        let low : next_id s < 2 ^ 31 = ground (arith, y, h, v.numbered, next) in
        number_pushed s (next_id s) v y (omega (arith, next)) low even
    | inr y ↦
        let odd : is_odd (next_id s) ≡ true = ground (arith, y, h, v.numbered) in
        let low : next_id s < 2 ^ 31 = ground (arith, y, h, v.numbered) in
        let above : s.max_client_stream_id < next_id s = ground (arith, y, h, v.numbered) in
        number_client s (next_id s) v y above low odd
  ]

  abbrev request : ℕ → Header → Bool → FrameWriteRequest
  request id h ends = record {
    write = some (
        write_res_headers (record {
          stream_id = id;
          http_res_code = 0;
          h = some h;
          trailers = none;
          end_stream = ends;
          date = "";
          content_type = "";
          content_length = "";
        }));
    stream = some id;
    done = none;
  }

  abbrev Created : (ℕ ⊎ Error) × Sess → Type 0
  Created (_, s) = IsSession s

  module _ (schedule : Sess → Run Sess) (keeps : Keeps ws schedule) where
    -- The two ends of createStream: the ids are used up, or the stream is made.
    exhausted-Post :
        (s : Sess)
        → IsSession s
        → Post
            (go_away pb ws schedule s ErrCode.no_error >>= λ t. ok (inr stream_limit_reached, t))
            Created
    exhausted-Post s v =
        Post-bind IsSession Created (go_away pb ws schedule s ErrCode.no_error)
          (λ t. ok (inr stream_limit_reached, t))
          (go_away-Post pb ws schedule keeps s ErrCode.no_error v) (λ t w. w)

    make-Post :
        (s : Sess) (id parent : ℕ) (h : Header) (ends : Bool)
        → Fresh s id
        → Post {A = (ℕ ⊎ Error) × Sess}
            (new_stream pb ws s id parent (if ends then half_closed_remote else opened) >>= λ t.
              write_frame ws schedule t (request id h ends) >>= λ t'. ok (inl id, t'))
            Created
    make-Post s id parent h ends (v, e, low) =
        Post-bind IsSession Created
          (new_stream pb ws s id parent (if ends then half_closed_remote else opened)) _
          (new_stream-Post pb ws s id parent _ v e low (live_first pb ws ends))
          (λ t w.
            Post-bind IsSession Created (write_frame ws schedule t (request id h ends))
              (λ t'. ok (inl id, t')) (write_frame-Post ws schedule keeps t (request id h ends) w)
              (λ t' w'. w'))

    abbrev made : Sess → ℕ → Header → Bool → Run ((ℕ ⊎ Error) × Sess)
    made s parent h ends =
        new_stream pb ws (numbered s (next_id s)) (next_id s) parent
          (if ends then half_closed_remote else opened)
        >>= λ t. write_frame ws schedule t (request (next_id s) h ends) >>= λ t'.
            ok (inl (next_id s), t')

    -- createStream keeps the registry of the streams.
    pub create_stream-Post :
        (s : Sess) (parent : ℕ) (h : Header) (ends : Bool)
        → IsSession s
        → Post (create_stream pb ws schedule s parent h ends) (λ (_, s'). IsSession s')
    unfolding create_stream
    create_stream-Post s parent h ends v =
        Post-if Created
          (ltb s.peer_max_streams
            (((if s.server then s.cur_pushed_streams else s.cur_client_streams) + 1) % 2 ^ 32))
          (ok (inr stream_limit_reached, s))
          (if leb (2 ^ 31) ((own_max s + 2) % 2 ^ 32)
            then (go_away pb ws schedule s ErrCode.no_error >>= λ t.
                ok (inr stream_limit_reached, t))
            else made s parent h ends)
          v
          (Post-if_known Created (leb (2 ^ 31) ((own_max s + 2) % 2 ^ 32))
            (go_away pb ws schedule s ErrCode.no_error >>= λ t. ok (inr stream_limit_reached, t))
            (made s parent h ends) (λ _. exhausted-Post s v)
            (λ below.
              make-Post (numbered s (next_id s)) (next_id s) parent h ends (next_raise s v below)))
