-- ===== src/Session/Registry/Data.antt =====
-- session_read.go: the registry of streams under DATA.
use h2stream.Prelude.{
  ℕ, ◌+◌, ◌-◌, ◌≡◌, refl, sym, ◌∙◌, subst, Bool, true, false, ◌&&◌, ◌||◌, not, Option, none, some,
  List, length, ◌==◌, if◌then◌else◌, arith, Run, ok, panic, ◌>>=◌, Post, Post-bind, Post-any,
  Post-if,
}
use h2stream.Prelude.Int.{ltb_ℤ}
use h2stream.ErrCode
use h2stream.Errors.{Error, stream_error, connection_error}
use h2stream.Flow
use h2stream.Flow.{Flow}
use h2stream.Pipe
use h2stream.Pipe.{PipeBuffer}
use h2stream.Session.{Stream, Session, WriteScheduler}
use h2stream.Session.Streams.{set_stream}
use h2stream.Session.Writing.{deref}
use h2stream.Session.Windows.{window_of, send_window_update, send_window_update32}
use h2stream.Session.Closing.{end_stream}
use h2stream.Session.Reading.{
  int32, is_opened, refuse_data, take_data, store_data, finish_data, process_data,
}
use h2stream.Session.Registry.{IsSession, live}
use h2stream.Session.Registry.Updates.{set_stream-IsSession, find-live, deref-Post, Post-state}
use h2stream.Session.Registry.Writing.{Keeps, send_window_update-Post, send_window_update32-Post}
use h2stream.Session.Registry.Opening.{After}

module _ (pb : PipeBuffer) (ws : WriteScheduler)
    (schedule : Session pb.Buf ws.Sched → Run (Session pb.Buf ws.Sched))
    (keeps : Keeps ws schedule) where
  abbrev Sess : Type 0
  Sess = Session pb.Buf ws.Sched

  -- The stream can take END_STREAM, if the frame has it.
  abbrev CanEnd : Sess → ℕ → Bool → Type 0
  CanEnd s id ended =
      ended ≡ true → (st : Stream pb.Buf) → s.objects id ≡ some st → live st.state ≡ some true

  finish_data-Post :
      (s : Sess) (id : ℕ) (ended : Bool)
      → IsSession s
      → CanEnd s id ended
      → Post (finish_data pb ws schedule s id ended) (After pb ws)
  unfolding finish_data end_stream
  finish_data-Post s id false v c = Post-any (After pb ws) (deref s (some id)) _ (λ st. v)
  finish_data-Post s id true v c =
      Post-bind _ (After pb ws) (deref s (some id)) _ (deref-Post s (some id)) (λ st (j, q, e).
        let at_id : s.objects id ≡ some st = ground (arith, q, e) in
        set_stream-IsSession s j st _ v e refl (sym (c refl st at_id)))

  refuse_data-Post :
      (s : Sess) (id : ℕ) (quiet : Bool) (size : ℕ)
      → IsSession s
      → Post (refuse_data pb ws schedule s id quiet size) (After pb ws)
  unfolding refuse_data
  refuse_data-Post s id quiet size v =
      Post-if (After pb ws) (ltb_ℤ s.inflow (int32 size))
        (ok (some (stream_error id ErrCode.flow_control), s)) _ v
        (Post-any (After pb ws) (Flow.take (window_of s.inflow) (int32 size)) _ (λ f.
          Post-bind IsSession (After pb ws)
            (send_window_update ws schedule (record s { inflow = f.n }) none size) _
            (send_window_update-Post ws schedule keeps (record s { inflow = f.n }) none size v)
            (λ s' v'. v')))

  -- A WINDOW_UPDATE of 0 is not sent.
  no_update :
      (s : Sess) (o : Option ℕ) (n : ℕ) → n ≡ 0 → send_window_update32 ws schedule s o n ≡ ok s
  unfolding send_window_update32
  no_update s o n h = ground (arith, h)

  -- The padding is given back, and then END_STREAM is noted.
  abbrev give_back : Sess → ℕ → ℕ → Bool → Run (Option Error × Sess)
  give_back s id pad ended = send_window_update32 ws schedule s none pad >>= λ t.
      send_window_update32 ws schedule t (some id) pad >>= λ t'.
      finish_data pb ws schedule t' id ended

  give_back-Post :
      (s : Sess) (id pad : ℕ) (ended : Bool)
      → IsSession s
      → CanEnd s id ended
      → (ended ≡ true → pad ≡ 0)
      → Post (give_back s id pad ended) (After pb ws)
  give_back-Post s id pad true v c h =
      rw (no_update s none pad (h refl))
        (rw (no_update s (some id) pad (h refl)) (finish_data-Post s id true v c))
  give_back-Post s id pad false v c h =
      Post-bind IsSession (After pb ws) (send_window_update32 ws schedule s none pad) _
        (send_window_update32-Post ws schedule keeps s none pad v)
        (λ t w.
          Post-bind IsSession (After pb ws) (send_window_update32 ws schedule t (some id) pad) _
            (send_window_update32-Post ws schedule keeps t (some id) pad w)
            (λ t' w'. finish_data-Post t' id false w' (λ f. absurd (ground (arith, f)))))

  set_stream-object : (s : Sess) (st : Stream pb.Buf) → (set_stream s st).objects st.id ≡ some st
  unfolding set_stream
  set_stream-object s st = ground arith

  CanEnd-live :
      (s : Sess) (st : Stream pb.Buf) (ended : Bool)
      → s.objects st.id ≡ some st
      → live st.state ≡ some true
      → CanEnd s st.id ended
  CanEnd-live s st ended e l _ st' e' = subst (λ o. Live o) (sym e ∙ e') l
    where
      Live : Option (Stream pb.Buf) → Type 0
      Live none = Unit {0}
      Live (some t) = live t.state ≡ some true

  -- The end of the write to the stream's body.
  stored-Post :
      (s : Sess) (st : Stream pb.Buf) (payload : List ℕ) (size : ℕ) (ended : Bool) (n : ℕ)
      (err : Option Error) (body : Pipe.Pipe pb.Buf)
      → IsSession s
      → s.objects st.id ≡ some st
      → live st.state ≡ some true
      → (ended ≡ true → size ≡ length payload)
      → Post
          (elim err as (λ x. Run (Option Error × Sess)) [
            | some _ ↦ ok (
              some (stream_error st.id ErrCode.closed_stream),
              set_stream s (record st { body = body }),
            )
            | none ↦
                if n == length payload
                then give_back
                    (set_stream s
                      (record st { body = body; body_bytes = st.body_bytes + length payload }))
                    st.id
                    (size - length payload)
                    ended
                else panic
          ])
          (After pb ws)
  stored-Post s st payload size ended n (some _) body v e l h =
      set_stream-IsSession s st.id st (record st { body = body }) v e refl refl
  stored-Post s st payload size ended n none body v e l h =
      let st' : Stream pb.Buf = record st {
        body = body;
        body_bytes = st.body_bytes + length payload;
      } in
      Post-if (After pb ws) (n == length payload)
        (give_back (set_stream s st') st.id (size - length payload) ended) panic
        (give_back-Post (set_stream s st') st.id (size - length payload) ended
          (set_stream-IsSession s st.id st st' v e refl refl)
          (CanEnd-live (set_stream s st') st' ended (set_stream-object s st') l)
          (λ y. omega (arith, h y)))
        tt

  store_data-Post :
      (s : Sess) (st : Stream pb.Buf) (payload : List ℕ) (size : ℕ) (ended : Bool)
      → IsSession s
      → s.objects st.id ≡ some st
      → live st.state ≡ some true
      → (ended ≡ true → size ≡ length payload)
      → Post (store_data pb ws schedule s st payload size ended) (After pb ws)
  unfolding store_data
  store_data-Post s st payload size ended v e l h =
      Post-if (After pb ws) (length payload == 0) (give_back s st.id (size - length payload) ended)
        _
        (give_back-Post s st.id (size - length payload) ended v (CanEnd-live s st ended e l)
          (λ y. omega (arith, h y)))
        (Post-any (After pb ws) (Pipe.write pb st.body payload) _
          (λ (n, err, body). stored-Post s st payload size ended n err body v e l h))

  take_data-Post :
      (s : Sess) (st : Stream pb.Buf) (payload : List ℕ) (size : ℕ) (ended : Bool)
      → IsSession s
      → s.objects st.id ≡ some st
      → live st.state ≡ some true
      → (ended ≡ true → size ≡ length payload)
      → Post (take_data pb ws schedule s st payload size ended) (After pb ws)
  unfolding take_data
  take_data-Post s st payload size ended v e l h =
      Post-if (After pb ws) (size == 0) (finish_data pb ws schedule s st.id ended) _
        (finish_data-Post s st.id ended v (CanEnd-live s st ended e l))
        (Post-if (After pb ws) (ltb_ℤ (Flow.available (window st)) (int32 size))
          (ok (some (stream_error st.id ErrCode.flow_control), s)) _ v
          (Post-any (After pb ws) (Flow.take (window st) (int32 size)) _ (λ f.
            store_data-Post (set_stream (paid f) (record st { inflow = f.n }))
              (record st { inflow = f.n }) payload size ended
              (set_stream-IsSession (paid f) st.id st (record st { inflow = f.n }) v e refl refl)
              (set_stream-object (paid f) (record st { inflow = f.n })) l h)))
    where
      window : Stream pb.Buf → Flow
      window t = record { n = t.inflow; conn = some s.inflow }

      paid : Flow → Sess
      paid f = record s { inflow = elim f.conn [ none ↦ s.inflow | some c ↦ c ] }

  -- processData keeps the registry of the streams, for a frame that does not have both END_STREAM
  -- and padding.
  pub process_data-Post :
      (s : Sess) (id : ℕ) (payload : List ℕ) (size : ℕ) (ended : Bool)
      → IsSession s
      → (ended ≡ true → size ≡ length payload)
      → Post (process_data pb ws schedule s id payload size ended) (After pb ws)
  unfolding process_data
  process_data-Post s id payload size ended v h =
      Post-if (After pb ws) (s.in_go_away && not (s.go_away_code == ErrCode.no_error))
        (ok (none, s)) _ v
        (Post-if (After pb ws) _ (ok (some (connection_error ErrCode.protocol), s)) _ v (
          Post-state (After pb ws) s id _ (refuse_data pb ws schedule s id false size)
            (λ st f.
              let (e, l) = find-live s id st v f in
              Post-if (After pb ws)
                (not (is_opened st.state) || (st.got_trailer_header || st.reset_queued))
                (refuse_data pb ws schedule s id st.reset_queued size)
                (take_data pb ws schedule s st payload size ended)
                (refuse_data-Post s id st.reset_queued size v)
                (take_data-Post s st payload size ended v e l h))
            (λ _. refuse_data-Post s id false size v)))
