-- ===== src/Session/Registry/Reading.antt =====
-- session_read.go: the registry of streams under the frames but HEADERS and DATA.
use h2stream.Prelude.{
  ℕ, refl, sym, subst, Bool, true, false, ◌&&◌, not, Option, none, some, List, [], ◌∷◌, ◌==◌,
  if◌then◌else◌, Option-cases, inl, inr, Run, ok, ◌>>=◌, Post, Post-bind, Post-any, Post-if,
}
use h2stream.Prelude.Int.{ℤ, pos, ◌-ℤ◌, ltb_ℤ, wrap32}
use h2stream.ErrCode
use h2stream.Errors.{Error, stream_error, connection_error, go_away_flow_error}
use h2stream.Flow
use h2stream.Frame.{Setting, write_ping_ack}
use h2stream.Pipe.{PipeBuffer}
use h2stream.WriteQueue.{FrameWriteRequest}
use h2stream.Session.{Stream, Session, WriteScheduler, PriorityParam}
use h2stream.Session.Streams.{set_stream, state_of}
use h2stream.Session.Writing.{write_frame}
use h2stream.Session.Windows.{window_of}
use h2stream.Session.Closing.{close_stream, go_away}
use h2stream.Session.Reading.{
  int32, is_idle, grow_all, process_initial_window_size, process_setting, process_each,
  process_settings, process_ping, process_window_update, process_reset_stream, process_go_away,
  process_priority,
}
use h2stream.Session.Frames.{
  setting_header_table_size, setting_enable_push, setting_max_concurrent_streams,
  setting_initial_window_size, setting_max_frame_size, setting_max_header_list_size,
}
use h2stream.Session.Registry.{IsSession}
use h2stream.Session.Registry.Updates.{set_stream-IsSession, find-object, Post-state}
use h2stream.Session.Registry.Writing.{Keeps, write_frame-Post}
use h2stream.Session.Registry.Closing.{close_stream-Post, go_away-Post}
use h2stream.Session.Registry.Opening.{After, After-if, Post-check}

module _ (pb : PipeBuffer) (ws : WriteScheduler) where
  abbrev Sess : Type 0
  Sess = Session pb.Buf ws.Sched

  grow_all-After :
      (s : Sess) (growth : ℤ) (ids : List ℕ)
      → IsSession s
      → After pb ws (grow_all pb ws s growth ids)
  unfolding grow_all
  grow_all-After s growth [] v = v
  grow_all-After s growth (id ∷ ids) v = elim (Option-cases (s.objects id)) [
    | inl e ↦
        subst
          (λ o. After pb ws (elim o as (λ x. Option Error × Sess) [
            | none ↦ grow_all pb ws s growth ids
            | some st ↦ grown st
          ]))
          (sym e) (grow_all-After s growth ids v)
    | inr (st, e) ↦
        subst
          (λ o. After pb ws (elim o as (λ x. Option Error × Sess) [
            | none ↦ grow_all pb ws s growth ids
            | some t ↦ grown t
          ]))
          (sym e)
          (After-if pb ws (Flow.add (window_of st.flow) growth).1 _ (_, s)
            (grow_all-After
              (set_stream s (record st { flow = (Flow.add (window_of st.flow) growth).0.n })) growth
              ids
              (set_stream-IsSession s id st
                (record st { flow = (Flow.add (window_of st.flow) growth).0.n }) v e refl refl))
            v)
  ]
    where
      grown : Stream pb.Buf → Option Error × Sess
      grown st =
          if (Flow.add (window_of st.flow) growth).1
          then grow_all pb ws
              (set_stream s (record st { flow = (Flow.add (window_of st.flow) growth).0.n })) growth
              ids
          else (some (connection_error ErrCode.flow_control), s)

  process_initial_window_size-After :
      (s : Sess) (val : ℕ) → IsSession s → After pb ws (process_initial_window_size pb ws s val)
  unfolding process_initial_window_size
  process_initial_window_size-After s val v =
      grow_all-After (record s { initial_stream_send_window_size = int32 val })
        (wrap32 (int32 val -ℤ s.initial_stream_send_window_size)) s.streams v

  -- An error ends the settings, with the session as it is.
  After-check :
      (o : Option Error) (s : Sess) (y : Option Error × Sess)
      → IsSession s
      → After pb ws y
      → After pb ws (elim o as (λ x. Option Error × Sess) [ some e ↦ (some e, s) | none ↦ y ])
  After-check none s y v h = h
  After-check (some e) s y v h = v

  process_setting-After :
      (valid : Setting → Option Error) (s : Sess) (x : Setting)
      → IsSession s
      → After pb ws (process_setting pb ws valid s x)
  unfolding process_setting
  process_setting-After valid s x v = After-check (valid x) s _ v (
      After-if pb ws (x.id == setting_header_table_size)
        (none, record s { header_table_size = x.val }) _ v
        (After-if pb ws (x.id == setting_enable_push)
          (none, record s { push_enabled = not (x.val == 0) }) _ v
          (After-if pb ws (x.id == setting_max_concurrent_streams)
            (none, record s { peer_max_streams = x.val }) _ v
            (After-if pb ws (x.id == setting_initial_window_size)
              (process_initial_window_size pb ws s x.val) _
              (process_initial_window_size-After s x.val v)
              (After-if pb ws (x.id == setting_max_frame_size)
                (none, record s { max_frame_size = int32 x.val }) _ v
                (After-if pb ws (x.id == setting_max_header_list_size)
                  (none, record s { peer_max_header_list_size = x.val }) (none, s) v v))))))

  process_each-After :
      (valid : Setting → Option Error) (s : Sess) (xs : List Setting)
      → IsSession s
      → After pb ws (process_each pb ws valid s xs)
  unfolding process_each
  process_each-After valid s [] v = v
  process_each-After valid s (x ∷ xs) v =
      let w = process_setting-After valid s x v in
      After-check (process_setting pb ws valid s x).0 (process_setting pb ws valid s x).1
        (process_each pb ws valid (process_setting pb ws valid s x).1 xs) w
        (process_each-After valid (process_setting pb ws valid s x).1 xs w)

  module _ (schedule : Sess → Run Sess) (keeps : Keeps ws schedule) where
    abbrev then_Post :
        (s : Sess) → IsSession s → Post (schedule s >>= λ s'. ok (none, s')) (After pb ws)
    then_Post s v =
        Post-bind IsSession (After pb ws) (schedule s) (λ s'. ok (none, s')) (keeps s v)
          (λ s' v'. v')

    pub process_ping-Post :
        (s : Sess) (ack : Bool) (id : ℕ) (payload : List ℕ)
        → IsSession s
        → Post (process_ping pb ws schedule s ack id payload) (After pb ws)
    unfolding process_ping
    process_ping-Post s ack id payload v = Post-if _ ack (ok _) _ v (
        Post-if _ (not (id == 0)) (ok _) _ v (
          Post-if _ (s.in_go_away && not (s.go_away_code == ErrCode.no_error)) (ok _) _ v (
            Post-bind IsSession (After pb ws) (write_frame ws schedule s (answer payload))
              (λ s'. ok (none, s')) (write_frame-Post ws schedule keeps s (answer payload) v)
              (λ s' v'. v'))))
      where
        answer : List ℕ → FrameWriteRequest
        answer p = record { write = some (write_ping_ack p); stream = none; done = none }

    pub process_window_update-Post :
        (s : Sess) (id n : ℕ)
        → IsSession s
        → Post (process_window_update pb ws schedule s id n) (After pb ws)
    unfolding process_window_update
    process_window_update-Post s id n v =
        Post-if (After pb ws) (id == 0) _ _
          (Post-if (After pb ws) (Flow.add (window_of s.flow) (int32 n)).1
            (schedule (record s { flow = (Flow.add (window_of s.flow) (int32 n)).0.n }) >>= λ s'.
              ok (none, s'))
            (ok (some go_away_flow_error, s))
            (then_Post (record s { flow = (Flow.add (window_of s.flow) (int32 n)).0.n }) v) v)
          (Post-if (After pb ws) (is_idle (state_of s id).0)
            (ok (some (connection_error ErrCode.protocol), s)) _ v
            (Post-state (After pb ws) s id _ (ok (none, s))
              (λ st e.
                Post-if (After pb ws) (Flow.add (window_of st.flow) (int32 n)).1
                  (schedule (grown st) >>= λ s'. ok (none, s'))
                  (ok (some (stream_error id ErrCode.flow_control), s))
                  (then_Post (grown st) (
                    set_stream-IsSession s id st
                      (record st { flow = (Flow.add (window_of st.flow) (int32 n)).0.n }) v
                      (find-object s id st e) refl refl))
                  v)
              (λ _. v)))
      where
        grown : Stream pb.Buf → Sess
        grown st = set_stream s (record st { flow = (Flow.add (window_of st.flow) (int32 n)).0.n })

    pub process_reset_stream-Post :
        (s : Sess) (id code : ℕ)
        → IsSession s
        → Post (process_reset_stream pb ws schedule s id code) (After pb ws)
    unfolding process_reset_stream
    process_reset_stream-Post s id code v = Post-if _ (is_idle (state_of s id).0) (ok _) _ v (
        Post-state (After pb ws) s id
          (λ st. close_stream pb ws schedule s st.id (stream_error id code) >>= λ s'. ok (none, s'))
          (ok (none, s))
          (λ st e.
            Post-bind IsSession (After pb ws)
              (close_stream pb ws schedule s st.id (stream_error id code)) (λ s'. ok (none, s'))
              (close_stream-Post pb ws schedule keeps s st.id (stream_error id code) v)
              (λ s' v'. v'))
          (λ _. v))

    abbrev taken : Sess → Sess
    taken s = record s { unacked_settings = s.unacked_settings -ℤ pos 1 }

    abbrev settled : Sess → Option Error → Run (Option Error × Sess)
    settled s o = elim o [
      | some e ↦ ok (some e, s)
      | none ↦ schedule (record s { need_to_send_settings_ack = true }) >>= λ s'. ok (none, s')
    ]

    settled-Post : (s : Sess) (o : Option Error) → IsSession s → Post (settled s o) (After pb ws)
    settled-Post s none v = then_Post (record s { need_to_send_settings_ack = true }) v
    settled-Post s (some e) v = v

    pub process_settings-Post :
        (valid : Setting → Option Error) (s : Sess) (ack : Bool) (xs : List Setting)
        → IsSession s
        → Post (process_settings pb ws schedule valid s ack xs) (After pb ws)
    unfolding process_settings
    process_settings-Post valid s true xs v =
        Post-if (After pb ws) (ltb_ℤ (s.unacked_settings -ℤ pos 1) (pos 0))
          (ok (some (connection_error ErrCode.protocol), taken s)) (ok (none, taken s)) v v
    process_settings-Post valid s false xs v =
        settled-Post (process_each pb ws valid s xs).1 (process_each pb ws valid s xs).0
          (process_each-After valid s xs v)

    pub process_go_away-Post :
        (s : Sess) (code : ℕ)
        → IsSession s
        → Post (process_go_away pb ws schedule s code) (After pb ws)
    unfolding process_go_away
    process_go_away-Post s code v =
        Post-bind IsSession (After pb ws) (go_away pb ws schedule s ErrCode.no_error)
          (λ s'. ok (none, record s' { push_enabled = false }))
          (go_away-Post pb ws schedule keeps s ErrCode.no_error v) (λ s' v'. v')

    pub process_priority-Post :
        (s : Sess) (id : ℕ) (p : PriorityParam)
        → IsSession s
        → Post (process_priority pb ws schedule s id p) (After pb ws)
    unfolding process_priority
    process_priority-Post s id p v = Post-if _ s.in_go_away (ok _) _ v (
        Post-check pb ws id p (λ e. ok (some e, s))
          (ws.adjust_stream id p s.sched >>= λ q. ok (none, record s { sched = q })) (λ e. v)
          (Post-any (After pb ws) (ws.adjust_stream id p s.sched) _ (λ q. v)))
