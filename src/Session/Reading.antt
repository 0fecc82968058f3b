-- ===== src/Session/Reading.antt =====
-- session_read.go: what the serve loop does with a frame. `schedule` is the call of
-- scheduleFrameWrite; an error is returned with the session as it is then.
use h2stream.Prelude.{
  ℕ, ◌+◌, ◌-◌, Bool, true, false, ◌&&◌, ◌||◌, not, Option, none, some, List, [], ◌∷◌, length, ◌==◌,
  if◌then◌else◌, Run, ok, panic, ◌>>=◌,
}
use h2stream.Prelude.Int.{ℤ, pos, ◌-ℤ◌, ltb_ℤ, wrap32}
use h2stream.ErrCode
use h2stream.Errors.{Error, stream_error, connection_error, go_away_flow_error}
use h2stream.Flow
use h2stream.Flow.{Flow}
use h2stream.Frame.{Setting, write_ping_ack}
use h2stream.Pipe
use h2stream.Pipe.{PipeBuffer}
use h2stream.Session.{StreamState, idle, opened, PriorityParam, Stream, Session, WriteScheduler}
use h2stream.Session.Frames.{
  setting_header_table_size, setting_enable_push, setting_max_concurrent_streams,
  setting_initial_window_size, setting_max_frame_size, setting_max_header_list_size,
}
use h2stream.Session.Streams.{set_stream, state_of}
use h2stream.Session.Writing.{deref, write_frame}
use h2stream.Session.Windows.{window_of, send_window_update, send_window_update32}
use h2stream.Session.Closing.{close_stream, end_stream, go_away}
use h2stream.Session.Opening.{check_priority}

abbrev pub is_idle : StreamState → Bool
is_idle idle = true
is_idle _ = false

abbrev pub is_opened : StreamState → Bool
is_opened opened = true
is_opened _ = false

-- int32(n), for an unsigned n
abbrev pub int32 : ℕ → ℤ
int32 n = wrap32 (pos n)

module _ (pb : PipeBuffer) (ws : WriteScheduler) where
  abbrev pub Sess : Type 0
  Sess = Session pb.Buf ws.Sched

  abbrev pub Done : Type 0
  Done = Run (Option Error × Sess)

  -- The loop of processSettingInitialWindowSize over the map; the first stream whose window would
  -- overflow ends it.
  unfoldable pub grow_all : Sess → ℤ → List ℕ → Option Error × Sess
  grow_all s growth [] = (none, s)
  grow_all s growth (id ∷ ids) = elim (s.objects id) [
    | none ↦ grow_all s growth ids
    | some st ↦
        let (f, fine) = Flow.add (window_of st.flow) growth in
        let rest = grow_all (set_stream s (record st { flow = f.n })) growth ids in
        if fine then rest else (some (connection_error ErrCode.flow_control), s)
  ]

  -- processSettingInitialWindowSize
  unfoldable pub process_initial_window_size : Sess → ℕ → Option Error × Sess
  unfolding grow_all
  process_initial_window_size s val =
      grow_all (record s { initial_stream_send_window_size = int32 val })
        (wrap32 (int32 val -ℤ s.initial_stream_send_window_size)) s.streams

  -- processSetting; `valid` is http2.Setting.Valid.
  unfoldable pub process_setting : (Setting → Option Error) → Sess → Setting → Option Error × Sess
  unfolding process_initial_window_size
  process_setting valid s x =
      let known : Option Error × Sess =
        if x.id == setting_header_table_size
        then (none, record s { header_table_size = x.val })
        else (if x.id == setting_enable_push
            then (none, record s { push_enabled = not (x.val == 0) })
            else (if x.id == setting_max_concurrent_streams
                then (none, record s { peer_max_streams = x.val })
                else (if x.id == setting_initial_window_size
                    then process_initial_window_size s x.val
                    else (if x.id == setting_max_frame_size
                        then (none, record s { max_frame_size = int32 x.val })
                        else (if x.id == setting_max_header_list_size
                            then (none, record s { peer_max_header_list_size = x.val })
                            else (none, s)))))) in
      elim (valid x) [ some e ↦ (some e, s) | none ↦ known ]

  -- ForeachSetting runs processSetting on each setting until one fails.
  unfoldable pub process_each : (Setting → Option Error) → Sess → List Setting → Option Error × Sess
  unfolding process_setting
  process_each valid s [] = (none, s)
  process_each valid s (x ∷ xs) =
      let rest = process_each valid (process_setting valid s x).1 xs in
      elim (process_setting valid s x).0 [
        | some e ↦ (some e, (process_setting valid s x).1)
        | none ↦ rest
      ]

  module _ (schedule : Sess → Run Sess) where
    abbrev then_schedule : Sess → Done
    then_schedule s = schedule s >>= λ s'. ok (none, s')

    -- processSettings
    unfoldable pub process_settings : (Setting → Option Error) → Sess → Bool → List Setting → Done
    process_settings valid s true xs =
        let s' : Sess = record s { unacked_settings = s.unacked_settings -ℤ pos 1 } in
        if ltb_ℤ s'.unacked_settings (pos 0)
        then ok (some (connection_error ErrCode.protocol), s')
        else ok (none, s')
    process_settings valid s false xs = elim (process_each valid s xs).0 [
      | some e ↦ ok (some e, (process_each valid s xs).1)
      | none ↦
          then_schedule (record ((process_each valid s xs).1) { need_to_send_settings_ack = true })
    ]

    -- processPing
    unfoldable pub process_ping : Sess → Bool → ℕ → List ℕ → Done
    process_ping s ack id payload =
        let answer : Done =
          write_frame ws schedule s
            (record { write = some (write_ping_ack payload); stream = none; done = none })
          >>= λ s'. ok (none, s') in
        if ack
        then ok (none, s)
        else (if not (id == 0)
            then ok (some (connection_error ErrCode.protocol), s)
            else (if s.in_go_away && not (s.go_away_code == ErrCode.no_error)
                then ok (none, s)
                else answer))

    -- processWindowUpdate
    unfoldable pub process_window_update : Sess → ℕ → ℕ → Done
    process_window_update s id increment =
        let for_session : Done =
          let (f, fine) = Flow.add (window_of s.flow) (int32 increment) in
          if fine
          then then_schedule (record s { flow = f.n })
          else ok (some go_away_flow_error, s) in
        let for_stream : Stream pb.Buf → Done = λ st.
          let (f, fine) = Flow.add (window_of st.flow) (int32 increment) in
          if fine
          then then_schedule (set_stream s (record st { flow = f.n }))
          else ok (some (stream_error id ErrCode.flow_control), s) in
        if id == 0
        then for_session
        else (if is_idle (state_of s id).0
            then ok (some (connection_error ErrCode.protocol), s)
            else elim (state_of s id).1 [ none ↦ ok (none, s) | some st ↦ for_stream st ])

    -- processResetStream
    unfoldable pub process_reset_stream : Sess → ℕ → ℕ → Done
    process_reset_stream s id code =
        if is_idle (state_of s id).0
        then ok (some (connection_error ErrCode.protocol), s)
        else elim (state_of s id).1 [
          | none ↦ ok (none, s)
          | some st ↦
              close_stream pb ws schedule s st.id (stream_error id code) >>= λ s'. ok (none, s')
        ]

    -- The branch of processData for a stream that takes no more data.
    unfoldable pub refuse_data : Sess → ℕ → Bool → ℕ → Done
    refuse_data s id quiet size =
        if ltb_ℤ s.inflow (int32 size)
        then ok (some (stream_error id ErrCode.flow_control), s)
        else (Flow.take (window_of s.inflow) (int32 size) >>= λ f.
            send_window_update ws schedule (record s { inflow = f.n }) none size >>= λ s'.
            ok (if quiet then none else some (stream_error id ErrCode.closed_stream), s'))

    -- The end of processData: END_STREAM on the stream as it is then.
    unfoldable pub finish_data : Sess → ℕ → Bool → Done
    finish_data s id ended =
        deref s (some id) >>= λ st. ok (none, if ended then end_stream s st else s)

    -- The bytes into the body, then the padding's share of the windows back.
    unfoldable pub store_data : Sess → Stream pb.Buf → List ℕ → ℕ → Bool → Done
    unfolding finish_data
    store_data s st payload size ended =
        let back : Sess → Done = λ t.
          let pad = size - length payload in
          send_window_update32 ws schedule t none pad >>= λ t'.
          send_window_update32 ws schedule t' (some st.id) pad >>= λ t''.
          finish_data t'' st.id ended in
        let kept : Done = Pipe.write pb st.body payload >>= λ (n, e, body).
        let st' : Stream pb.Buf = record st {
          body = body;
          body_bytes = st.body_bytes + length payload;
        } in
        elim e [
          | some _ ↦ ok (
            some (stream_error st.id ErrCode.closed_stream),
            set_stream s (record st { body = body }),
          )
          | none ↦ if n == length payload then back (set_stream s st') else panic
        ] in
        if length payload == 0 then back s else kept

    -- processData for an open stream.
    unfoldable pub take_data : Sess → Stream pb.Buf → List ℕ → ℕ → Bool → Done
    unfolding store_data
    take_data s st payload size ended =
        let f : Flow = record { n = st.inflow; conn = some s.inflow } in
        let taken : Done = Flow.take f (int32 size) >>= λ f'.
        let st' : Stream pb.Buf = record st { inflow = f'.n } in
        let s' : Sess = record s { inflow = elim f'.conn [ none ↦ s.inflow | some c ↦ c ] } in
        store_data (set_stream s' st') st' payload size ended in
        if size == 0
        then finish_data s st.id ended
        else (if ltb_ℤ (Flow.available f) (int32 size)
            then ok (some (stream_error st.id ErrCode.flow_control), s)
            else taken)

    -- processData: the stream, the data, the length of the frame, and END_STREAM
    unfoldable pub process_data : Sess → ℕ → List ℕ → ℕ → Bool → Done
    unfolding refuse_data take_data
    process_data s id payload size ended =
        if s.in_go_away && not (s.go_away_code == ErrCode.no_error)
        then ok (none, s)
        else (if id == 0 || is_idle (state_of s id).0
            then ok (some (connection_error ErrCode.protocol), s)
            else elim (state_of s id).1 [
              | none ↦ refuse_data s id false size
              | some st ↦
                  if not (is_opened st.state) || (st.got_trailer_header || st.reset_queued)
                  then refuse_data s id st.reset_queued size
                  else take_data s st payload size ended
            ])

    -- processGoAway
    unfoldable pub process_go_away : Sess → ℕ → Done
    process_go_away s code = go_away pb ws schedule s ErrCode.no_error >>= λ s'.
        ok (none, record s' { push_enabled = false })

    -- processPriority
    unfoldable pub process_priority : Sess → ℕ → PriorityParam → Done
    process_priority s id p =
        let adjusted : Done =
          ws.adjust_stream id p s.sched >>= λ q. ok (none, record s { sched = q }) in
        if s.in_go_away
        then ok (none, s)
        else elim (check_priority id p) [ some e ↦ ok (some e, s) | none ↦ adjusted ]
