-- ===== src/Session/Announcing/Reading.antt =====
-- session_read.go: the connection's receive window under the frames but HEADERS and DATA.
use h2stream.Prelude.{
  ℕ, refl, sym, subst, Bool, true, false, ◌&&◌, not, Option, none, some, List, [], ◌∷◌, ◌==◌,
  if◌then◌else◌, Option-cases, inl, inr, Run, ok, ◌>>=◌, Post, Post-bind, Post-if,
}
use h2stream.Prelude.Int.{ℤ, pos, ◌-ℤ◌, ltb_ℤ, wrap32, IsInt32}
use h2stream.ErrCode
use h2stream.Errors.{Error, stream_error, connection_error, go_away_flow_error}
use h2stream.Flow
use h2stream.Frame.{Setting, write_ping_ack}
use h2stream.Pipe.{PipeBuffer}
use h2stream.WriteQueue.{FrameWriteRequest}
use h2stream.Session.{Stream, Session, WriteScheduler, PriorityParam}
use h2stream.Session.Streams.{set_stream, state_of}
use h2stream.Session.Writing.{write_frame}
use h2stream.Session.Windows.{window_of}
use h2stream.Session.Opening.{check_priority}
use h2stream.Session.Closing.{close_stream, reset_stream, go_away}
use h2stream.Session.Reading.{
  int32, is_idle, grow_all, process_initial_window_size, process_setting, process_each,
  process_settings, process_ping, process_window_update, process_reset_stream, process_go_away,
  process_priority,
}
use h2stream.Session.Frames.{
  setting_header_table_size, setting_enable_push, setting_max_concurrent_streams,
  setting_initial_window_size, setting_max_frame_size, setting_max_header_list_size,
}
use h2stream.Session.Registry.Updates.{Post-state}
use h2stream.Session.Quiet.{close_quietly, reset_quietly}
use h2stream.Session.Announcing.{announcing, Honest}
use h2stream.Session.Announcing.Updates.{write_frame-Honest}
use h2stream.Session.Announcing.Looping.{Honest-Quiet}
use h2stream.Session.Announcing.Opening.{At, at_end, go_away-At, adjust_keeps}

module _ (pb : PipeBuffer) (ws : WriteScheduler)
    (schedule : Session pb.Buf (ws.Sched × ℕ) → Run (Session pb.Buf (ws.Sched × ℕ)))
    (honest : (s : Session pb.Buf (ws.Sched × ℕ)) → IsInt32 s.inflow → Post (schedule s) (Honest s))
    (c : ℤ) where
  abbrev Sess : Type 0
  Sess = Session pb.Buf (ws.Sched × ℕ)

  abbrev ws' : WriteScheduler
  ws' = announcing ws

  abbrev After : Option Error × Sess → Type 0
  After (_, s) = At c s

  After_if : (b : Bool) (x y : Option Error × Sess) → After x → After y → After (if b then x else y)
  After_if true x y h k = h
  After_if false x y h k = k

  pub close_stream-At :
      (s : Sess) (id : ℕ) (err : Error)
      → At c s
      → Post (close_stream pb ws' schedule s id err) (At c)
  close_stream-At s id err v =
      at_end pb ws schedule honest c s (close_stream pb ws' schedule s id err) v (
        close_quietly pb ws' schedule Honest (Honest-Quiet pb ws schedule honest) s id err
          (v.0, refl))

  pub reset_stream-At :
      (s : Sess) (id code : ℕ) → At c s → Post (reset_stream pb ws' schedule s id code) (At c)
  reset_stream-At s id code v =
      at_end pb ws schedule honest c s (reset_stream pb ws' schedule s id code) v (
        reset_quietly pb ws' schedule Honest (Honest-Quiet pb ws schedule honest) s id code
          (v.0, refl))

  grow_all-At :
      (s : Sess) (growth : ℤ) (ids : List ℕ) → At c s → After (grow_all pb ws' s growth ids)
  unfolding grow_all set_stream
  grow_all-At s growth [] v = v
  grow_all-At s growth (id ∷ ids) v = elim (Option-cases (s.objects id)) [
    | inl e ↦
        subst
          (λ o. After (elim o as (λ x. Option Error × Sess) [
            | none ↦ grow_all pb ws' s growth ids
            | some st ↦ grown st
          ]))
          (sym e) (grow_all-At s growth ids v)
    | inr (st, e) ↦
        subst
          (λ o. After (elim o as (λ x. Option Error × Sess) [
            | none ↦ grow_all pb ws' s growth ids
            | some t ↦ grown t
          ]))
          (sym e)
          (After_if (Flow.add (window_of st.flow) growth).1 _ (_, s)
            (grow_all-At
              (set_stream s (record st { flow = (Flow.add (window_of st.flow) growth).0.n })) growth
              ids v)
            v)
  ]
    where
      grown : Stream pb.Buf → Option Error × Sess
      grown st =
          if (Flow.add (window_of st.flow) growth).1
          then grow_all pb ws'
              (set_stream s (record st { flow = (Flow.add (window_of st.flow) growth).0.n })) growth
              ids
          else (some (connection_error ErrCode.flow_control), s)

  process_initial_window_size-At :
      (s : Sess) (val : ℕ) → At c s → After (process_initial_window_size pb ws' s val)
  unfolding process_initial_window_size
  process_initial_window_size-At s val v =
      grow_all-At (record s { initial_stream_send_window_size = int32 val })
        (wrap32 (int32 val -ℤ s.initial_stream_send_window_size)) s.streams v

  -- An error ends the settings, with the session as it is.
  After-check :
      (o : Option Error) (s : Sess) (y : Option Error × Sess)
      → At c s
      → After y
      → After (elim o as (λ x. Option Error × Sess) [ some e ↦ (some e, s) | none ↦ y ])
  After-check none s y v h = h
  After-check (some e) s y v h = v

  process_setting-At :
      (valid : Setting → Option Error) (s : Sess) (x : Setting)
      → At c s
      → After (process_setting pb ws' valid s x)
  unfolding process_setting
  process_setting-At valid s x v = After-check (valid x) s _ v (
      After_if (x.id == setting_header_table_size) (none, record s { header_table_size = x.val }) _
        v
        (After_if (x.id == setting_enable_push) (none, record s { push_enabled = not (x.val == 0) })
          _ v
          (After_if (x.id == setting_max_concurrent_streams)
            (none, record s { peer_max_streams = x.val }) _ v
            (After_if (x.id == setting_initial_window_size)
              (process_initial_window_size pb ws' s x.val) _
              (process_initial_window_size-At s x.val v)
              (After_if (x.id == setting_max_frame_size)
                (none, record s { max_frame_size = int32 x.val }) _ v
                (After_if (x.id == setting_max_header_list_size)
                  (none, record s { peer_max_header_list_size = x.val }) (none, s) v v))))))

  process_each-At :
      (valid : Setting → Option Error) (s : Sess) (xs : List Setting)
      → At c s
      → After (process_each pb ws' valid s xs)
  unfolding process_each
  process_each-At valid s [] v = v
  process_each-At valid s (x ∷ xs) v =
      let w = process_setting-At valid s x v in
      After-check (process_setting pb ws' valid s x).0 (process_setting pb ws' valid s x).1
        (process_each pb ws' valid (process_setting pb ws' valid s x).1 xs) w
        (process_each-At valid (process_setting pb ws' valid s x).1 xs w)

  abbrev then_Post : (s : Sess) → At c s → Post (schedule s >>= λ s'. ok (none, s')) After
  then_Post s v =
      Post-bind (At c) After (schedule s) (λ s'. ok (none, s'))
        (at_end pb ws schedule honest c s (schedule s) v (honest s (v.0))) (λ s' v'. v')

  pub process_ping-At :
      (s : Sess) (ack : Bool) (id : ℕ) (payload : List ℕ)
      → At c s
      → Post (process_ping pb ws' schedule s ack id payload) After
  unfolding process_ping
  process_ping-At s ack id payload v = Post-if _ ack (ok _) _ v (
      Post-if _ (not (id == 0)) (ok _) _ v (
        Post-if _ (s.in_go_away && not (s.go_away_code == ErrCode.no_error)) (ok _) _ v (
          Post-bind (At c) After (write_frame ws' schedule s (answer payload)) (λ s'. ok (none, s'))
            (at_end pb ws schedule honest c s (write_frame ws' schedule s (answer payload)) v
              (write_frame-Honest ws schedule honest s (answer payload) (v.0) refl))
            (λ s' v'. v'))))
    where
      answer : List ℕ → FrameWriteRequest
      answer p = record { write = some (write_ping_ack p); stream = none; done = none }

  pub process_window_update-At :
      (s : Sess) (id n : ℕ) → At c s → Post (process_window_update pb ws' schedule s id n) After
  unfolding process_window_update set_stream
  process_window_update-At s id n v =
      Post-if After (id == 0) _ _
        (Post-if After (Flow.add (window_of s.flow) (int32 n)).1
          (schedule (record s { flow = (Flow.add (window_of s.flow) (int32 n)).0.n }) >>= λ s'.
            ok (none, s'))
          (ok (some go_away_flow_error, s))
          (then_Post (record s { flow = (Flow.add (window_of s.flow) (int32 n)).0.n }) v) v)
        (Post-if After (is_idle (state_of s id).0)
          (ok (some (connection_error ErrCode.protocol), s)) _ v
          (Post-state After s id _ (ok (none, s))
            (λ st e.
              Post-if After (Flow.add (window_of st.flow) (int32 n)).1
                (schedule (grown st) >>= λ s'. ok (none, s'))
                (ok (some (stream_error id ErrCode.flow_control), s)) (then_Post (grown st) v) v)
            (λ _. v)))
    where
      grown : Stream pb.Buf → Sess
      grown st = set_stream s (record st { flow = (Flow.add (window_of st.flow) (int32 n)).0.n })

  pub process_reset_stream-At :
      (s : Sess) (id code : ℕ)
      → At c s
      → Post (process_reset_stream pb ws' schedule s id code) After
  unfolding process_reset_stream
  process_reset_stream-At s id code v = Post-if _ (is_idle (state_of s id).0) (ok _) _ v (
      Post-state After s id
        (λ st. close_stream pb ws' schedule s st.id (stream_error id code) >>= λ s'. ok (none, s'))
        (ok (none, s))
        (λ st e.
          Post-bind (At c) After (close_stream pb ws' schedule s st.id (stream_error id code))
            (λ s'. ok (none, s')) (close_stream-At s st.id (stream_error id code) v) (λ s' v'. v'))
        (λ _. v))

  abbrev taken : Sess → Sess
  taken s = record s { unacked_settings = s.unacked_settings -ℤ pos 1 }

  abbrev settled : Sess → Option Error → Run (Option Error × Sess)
  settled s o = elim o [
    | some e ↦ ok (some e, s)
    | none ↦ schedule (record s { need_to_send_settings_ack = true }) >>= λ s'. ok (none, s')
  ]

  settled-At : (s : Sess) (o : Option Error) → At c s → Post (settled s o) After
  settled-At s none v = then_Post (record s { need_to_send_settings_ack = true }) v
  settled-At s (some e) v = v

  pub process_settings-At :
      (valid : Setting → Option Error) (s : Sess) (ack : Bool) (xs : List Setting)
      → At c s
      → Post (process_settings pb ws' schedule valid s ack xs) After
  unfolding process_settings
  process_settings-At valid s true xs v =
      Post-if After (ltb_ℤ (s.unacked_settings -ℤ pos 1) (pos 0))
        (ok (some (connection_error ErrCode.protocol), taken s)) (ok (none, taken s)) v v
  process_settings-At valid s false xs v =
      settled-At (process_each pb ws' valid s xs).1 (process_each pb ws' valid s xs).0
        (process_each-At valid s xs v)

  pub process_go_away-At :
      (s : Sess) (code : ℕ) → At c s → Post (process_go_away pb ws' schedule s code) After
  unfolding process_go_away
  process_go_away-At s code v =
      Post-bind (At c) After (go_away pb ws' schedule s ErrCode.no_error)
        (λ s'. ok (none, record s' { push_enabled = false }))
        (go_away-At pb ws schedule honest c s ErrCode.no_error v) (λ s' v'. v')

  pub process_priority-At :
      (s : Sess) (id : ℕ) (p : PriorityParam)
      → At c s
      → Post (process_priority pb ws' schedule s id p) After
  unfolding process_priority
  process_priority-At s id p v =
      Post-if After s.in_go_away (ok (none, s)) _ v (checked (check_priority id p))
    where
      checked :
          (o : Option Error)
          → Post {A = Option Error × Sess}
              (elim o [
                | some e ↦ ok (some e, s)
                | none ↦ ws'.adjust_stream id p s.sched >>= λ q. ok (none, record s { sched = q })
              ])
              After
      checked (some e) = v
      checked none =
          Post-bind _ After (ws'.adjust_stream id p s.sched) _
            (adjust_keeps pb ws schedule honest c s id p v) (λ q k. k)
