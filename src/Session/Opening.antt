-- ===== src/Session/Opening.antt =====
-- session.go and session_read.go: a stream comes into being, on a HEADERS frame of the peer or on a
-- call of OpenStream.
use h2stream.Prelude.{
  ℕ, ◌+◌, ◌^◌, ◌%◌, Bool, true, false, ◌&&◌, ◌||◌, not, Option, none, some, List, [], ◌∷◌, ◌++◌,
  ltb, leb, ◌==◌, if◌then◌else◌, Run, ok, panic, ◌>>=◌, ◌⊎◌, inl, inr,
}
use h2stream.Prelude.Int.{ℤ, pos}
use h2stream.ErrCode
use h2stream.Errors.{Error, stream_error, connection_error, stream_limit_reached}
use h2stream.Flow
use h2stream.Frame.{Header, ResHeaders, write_res_headers}
use h2stream.Pipe.{PipeBuffer, new_pipe}
use Prim.Native.String.{String}
use text.Mathlib.Text.{◌==◌ as str_eq}
use h2stream.Session.{
  StreamState, opened, half_closed_remote, PriorityParam, Stream, Session, WriteScheduler,
}
use h2stream.Session.Frames.{MetaHeaders}
use h2stream.Session.Streams.{find, set_stream, count_up, is_odd}
use h2stream.Session.Writing.{write_frame}
use h2stream.Session.Windows.{window_of}
use h2stream.Session.Closing.{end_stream, go_away}

-- http.Header.Add at a canonical key: a key keeps its values in order
unfoldable pub add_field : Header → String × String → Header
add_field [] (k, v) = (k, v ∷ []) ∷ []
add_field ((j, vs) ∷ h) (k, v) =
    if str_eq j k then (j, vs ++ v ∷ []) ∷ h else (j, vs) ∷ add_field h (k, v)

-- The loop over the fields of a HEADERS frame; `canonical` is http.CanonicalHeaderKey.
unfoldable pub header_of : (String → String) → Header → List (String × String) → Header
unfolding add_field
header_of canonical h [] = h
header_of canonical h ((k, v) ∷ fs) = header_of canonical (add_field h (canonical k, v)) fs

abbrev pub is_some {ℓ} : {A : Type ℓ} → Option A → Bool
is_some none = false
is_some (some _) = true

abbrev pub is_nil {ℓ} : {A : Type ℓ} → List A → Bool
is_nil [] = true
is_nil (_ ∷ _) = false

abbrev is_zero : ℤ → Bool
is_zero (pos n) = n == 0
is_zero (ℤ.negsuc _) = false

-- checkPriority
unfoldable pub check_priority : ℕ → PriorityParam → Option Error
check_priority id p = if id == p.stream_dep then some (stream_error id ErrCode.protocol) else none

module _ (pb : PipeBuffer) (ws : WriteScheduler) where
  abbrev pub Sess : Type 0
  Sess = Session pb.Buf ws.Sched

  -- A stream as newStream makes it; what flow.add refuses leaves the window at 0.
  unfoldable pub fresh_stream : Sess → ℕ → StreamState → Stream pb.Buf
  fresh_stream s id state = record {
    id = id;
    state = state;
    flow = (Flow.add (window_of (pos 0)) s.initial_stream_send_window_size).0.n;
    inflow = (Flow.add (window_of (pos 0)) s.initial_stream_recv_window_size).0.n;
    body_bytes = 0;
    header = none;
    trailer = none;
    body = new_pipe s.fresh_buffer;
    replied = false;
    reply_header = none;
    ready = false;
    waited = false;
    cancelled = false;
    reset_queued = false;
    got_trailer_header = false;
    wrote_headers = false;
  }

  -- sc.streams[id] = st
  abbrev pub add_key : ℕ → Bool → List ℕ → List ℕ
  add_key id true ids = ids
  add_key id false ids = id ∷ ids

  -- newStream
  unfoldable pub new_stream : Sess → ℕ → ℕ → StreamState → Run Sess
  unfolding fresh_stream
  new_stream s id pusher_id state =
      let made = set_stream s (fresh_stream s id state) in
      let opened_now : Run Sess = ws.open_stream id pusher_id s.sched >>= λ q. ok (
        count_up (record made { streams = add_key id (is_some (find s id)) s.streams; sched = q })
          id) in
      if id == 0 then panic else opened_now

  -- processTrailerHeaders
  unfoldable pub process_trailer_headers : Sess → Stream pb.Buf → MetaHeaders → Option Error × Sess
  process_trailer_headers s st f =
      let seen : Stream pb.Buf = record st { got_trailer_header = true } in
      let read_trailer : Stream pb.Buf = record seen {
        trailer = elim st.trailer [
          | none ↦ none
          | some h ↦ some (header_of (λ k. k) h f.regular_fields)
        ];
      } in
      if st.got_trailer_header
      then (some (connection_error ErrCode.protocol), s)
      else (if not f.stream_ended || not (is_nil f.pseudo_fields)
          then (some (stream_error st.id ErrCode.protocol), set_stream s seen)
          else (none, end_stream s read_trailer))

  -- The reply to a stream that this side opened: the first HEADERS frame.
  unfoldable pub take_reply : (String → String) → Sess → Stream pb.Buf → MetaHeaders → Run Sess
  take_reply canonical s st f =
      if st.ready
      then panic
      else (ok (
          set_stream s (record st {
            replied = true;
            reply_header = some (header_of canonical [] f.fields);
            ready = true;
          })))

  -- The largest id that the peer has used, and the number of its open streams.
  unfoldable pub peer_max : Sess → ℕ
  peer_max s = if s.server then s.max_client_stream_id else s.max_push_promise_id

  unfoldable pub peer_open : Sess → ℕ
  peer_open s = if s.server then s.cur_client_streams else s.cur_pushed_streams

  unfoldable pub set_peer_max : Sess → ℕ → Sess
  set_peer_max s id =
      if s.server
      then record s { max_client_stream_id = id }
      else record s { max_push_promise_id = id }

  -- The last part of processHeaders: the stream is made and its handler started. A stream that
  -- depends on itself is an error, which leaves it open and without a handler.
  unfoldable pub accept_stream : (String → String) → Sess → MetaHeaders → Run (Option Error × Sess)
  unfolding new_stream check_priority
  accept_stream canonical s f =
      let id = f.stream_id in
      let with_header : Sess → Sess = λ t. elim (t.objects id) [
        | none ↦ t
        | some st ↦ set_stream t (record st { header = some (header_of canonical [] f.fields) })
      ] in
      let start : Sess → Sess = λ t. record t { started = t.started ++ id ∷ [] } in
      new_stream s id 0 (if f.stream_ended then half_closed_remote else opened) >>= λ t.
      elim f.priority [
        | none ↦ ok (none, start (with_header t))
        | some p ↦ elim (check_priority id p) [
          | some e ↦ ok (some e, with_header t)
          | none ↦ ws.adjust_stream id p (with_header t).sched >>= λ q.
              ok (none, start (record (with_header t) { sched = q }))
        ]
      ]

  -- The error for a stream above our SETTINGS_MAX_CONCURRENT_STREAMS.
  unfoldable pub over_limit : Sess → ℕ → Error
  over_limit s id =
      stream_error id
        (if is_zero s.unacked_settings then ErrCode.protocol else ErrCode.refused_stream)

  -- processHeaders for a stream that is not in the map.
  unfoldable pub open_by_peer : (String → String) → Sess → MetaHeaders → Run (Option Error × Sess)
  unfolding peer_max peer_open set_peer_max over_limit
  open_by_peer canonical s f =
      let id = f.stream_id in
      let s' = set_peer_max s id in
      let wrong_side = if s.server then not (is_odd id) else is_odd id in
      if wrong_side || leb id (peer_max s)
      then ok (some (connection_error ErrCode.protocol), s)
      else (if ltb s.adv_max_streams ((peer_open s + 1) % 2 ^ 32)
          then ok (some (over_limit s id), s')
          else (if not s.has_handler
              then ok (some (stream_error id ErrCode.refused_stream), s')
              else accept_stream canonical s' f))

  -- processHeaders
  unfoldable pub process_headers :
      (String → String) → Sess → MetaHeaders → Run (Option Error × Sess)
  unfolding take_reply process_trailer_headers
  process_headers canonical s f =
      let known : Stream pb.Buf → Run (Option Error × Sess) = λ st.
        if st.reset_queued
        then ok (none, s)
        else (if not st.replied
            then (take_reply canonical s st f >>= λ s'. ok (none, s'))
            else ok (process_trailer_headers s st f)) in
      if s.in_go_away
      then ok (none, s)
      else (if f.truncated
          then ok (some (stream_error f.stream_id ErrCode.protocol), s)
          else elim (find s f.stream_id) [ some st ↦ known st | none ↦ open_by_peer canonical s f ])

  -- createStream, for a call of OpenStream: the id of the stream, or the error, that the caller gets.
  -- `schedule` is the call of scheduleFrameWrite.
  unfoldable pub create_stream :
      (Sess → Run Sess) → Sess → ℕ → Header → Bool → Run ((ℕ ⊎ Error) × Sess)
  unfolding new_stream
  create_stream schedule s parent_id header ends =
      let max_id = if s.server then s.max_push_promise_id else s.max_client_stream_id in
      let cur = if s.server then s.cur_pushed_streams else s.cur_client_streams in
      let id = if not s.server && s.max_client_stream_id == 0 then 1 else (max_id + 2) % 2 ^ 32 in
      let numbered : Sess =
        if s.server
        then record s { max_push_promise_id = id }
        else record s { max_client_stream_id = id } in
      let res : ResHeaders = record {
        stream_id = id;
        http_res_code = 0;
        h = some header;
        trailers = none;
        end_stream = ends;
        date = "";
        content_type = "";
        content_length = "";
      } in
      let make : Run ((ℕ ⊎ Error) × Sess) =
        new_stream numbered id parent_id (if ends then half_closed_remote else opened) >>= λ t.
        write_frame ws schedule t
          (record { write = some (write_res_headers res); stream = some id; done = none })
        >>= λ t'. ok (inl id, t') in
      let exhausted : Run ((ℕ ⊎ Error) × Sess) =
        go_away pb ws schedule s ErrCode.no_error >>= λ t. ok (inr stream_limit_reached, t) in
      if ltb s.peer_max_streams ((cur + 1) % 2 ^ 32)
      then ok (inr stream_limit_reached, s)
      else (if leb (2 ^ 31) ((max_id + 2) % 2 ^ 32) then exhausted else make)
