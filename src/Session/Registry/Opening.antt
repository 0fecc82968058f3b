-- ===== src/Session/Registry/Opening.antt =====
-- session_read.go: the registry of streams under processHeaders, which opens streams of the peer.
use h2stream.Prelude.{
  ℕ, ◌^◌, ◌≤◌, ◌<◌, ◌≡◌, refl, sym, subst, Bool, true, false, ◌||◌, not, Option, none, some, [],
  ◌∷◌, ◌++◌, ◌==◌, leb, if◌then◌else◌, arith, Option-cases, Bool-cases, inl, inr, Run, ok, panic,
  ◌>>=◌, Post, Post-bind, Post-any, Post-if, Post-if_known,
}
use Prim.Native.String.{String}
use h2stream.Errors.{Error}
use h2stream.Pipe.{PipeBuffer}
use h2stream.Frame.{Header}
use h2stream.Session.{opened, half_closed_remote, PriorityParam, Stream, Session, WriteScheduler}
use h2stream.Session.Frames.{MetaHeaders}
use h2stream.Session.Streams.{set_stream, is_odd}
use h2stream.Session.Closing.{end_stream}
use h2stream.Session.Opening.{
  is_nil, new_stream, process_trailer_headers, take_reply, peer_max, set_peer_max, accept_stream,
  open_by_peer, process_headers, check_priority, header_of,
}
use h2stream.Session.Registry.{live, IsSession}
use h2stream.Session.Registry.Updates.{bound, set_stream-IsSession, Post-find, find-live}
use h2stream.Session.Registry.NewStream.{unused, raise_client, raise_pushed, new_stream-Post}

module _ (pb : PipeBuffer) (ws : WriteScheduler) where
  abbrev Sess : Type 0
  Sess = Session pb.Buf ws.Sched

  -- The result of a handler of frames: an error, or none, and the session.
  abbrev pub After : Option Error × Sess → Type 0
  After (_, s) = IsSession s

  pub After-if :
      (b : Bool) (x y : Option Error × Sess) → After x → After y → After (if b then x else y)
  After-if true x y h k = h
  After-if false x y h k = k

  process_trailer_headers-IsSession :
      (s : Sess) (st : Stream pb.Buf) (f : MetaHeaders)
      → IsSession s
      → s.objects st.id ≡ some st
      → live st.state ≡ some true
      → After (process_trailer_headers pb ws s st f)
  unfolding process_trailer_headers end_stream
  process_trailer_headers-IsSession s st f v e l =
      After-if st.got_trailer_header (_, s) _ v
        (After-if (not f.stream_ended || not (is_nil f.pseudo_fields))
          (_, set_stream s (record st { got_trailer_header = true })) _
          (set_stream-IsSession s st.id st (record st { got_trailer_header = true }) v e refl refl)
          (set_stream-IsSession s st.id st _ v e refl (sym l)))

  take_reply-Post :
      (canonical : String → String) (s : Sess) (st : Stream pb.Buf) (f : MetaHeaders)
      → IsSession s
      → s.objects st.id ≡ some st
      → Post (take_reply pb ws canonical s st f) IsSession
  unfolding take_reply
  take_reply-Post canonical s st f v e =
      Post-if IsSession st.ready panic (ok _) tt (set_stream-IsSession s st.id st _ v e refl refl)

  -- What follows checkPriority.
  pub Post-check :
      (id : ℕ) (p : PriorityParam) (k : Error → Run (Option Error × Sess))
      (r : Run (Option Error × Sess))
      → ((e : Error) → Post (k e) After)
      → Post r After
      → Post (elim (check_priority id p) [ some e ↦ k e | none ↦ r ]) After
  unfolding check_priority
  Post-check id p k r h g = elim (Bool-cases (id == p.stream_dep)) [
    | inl y ↦ rw (y, Post) (h _)
    | inr y ↦ rw (y, Post) g
  ]

  -- The new stream with the header of its request.
  abbrev headed : Sess → ℕ → Header → Sess
  headed t id h = elim (t.objects id) [
    | none ↦ t
    | some st ↦ set_stream t (record st { header = some h })
  ]

  headed-IsSession : (t : Sess) (id : ℕ) (h : Header) → IsSession t → IsSession (headed t id h)
  headed-IsSession t id h v = elim (Option-cases (t.objects id)) [
    | inl e ↦
        subst
          (λ o. IsSession (elim o as (λ x. Sess) [
            | none ↦ t
            | some st ↦ set_stream t (record st { header = some h })
          ]))
          (sym e) v
    | inr (st, e) ↦
        subst
          (λ o. IsSession (elim o as (λ x. Sess) [
            | none ↦ t
            | some st' ↦ set_stream t (record st' { header = some h })
          ]))
          (sym e) (set_stream-IsSession t id st (record st { header = some h }) v e refl refl)
  ]

  accept_stream-Post :
      (canonical : String → String) (s : Sess) (f : MetaHeaders)
      → IsSession s
      → s.objects f.stream_id ≡ none
      → f.stream_id ≤ bound s f.stream_id
      → Post (accept_stream pb ws canonical s f) After
  unfolding accept_stream
  accept_stream-Post canonical s f v e low =
      Post-bind IsSession After
        (new_stream pb ws s f.stream_id 0 (if f.stream_ended then half_closed_remote else opened)) _
        (new_stream-Post pb ws s f.stream_id 0 _ v e low
          (elim f.stream_ended
            as (λ b. live (if b then half_closed_remote else opened) ≡ some true) [
              | true ↦ refl
              | false ↦ refl
            ]))
        (λ t w.
          go t f.priority (headed-IsSession t f.stream_id (header_of canonical [] f.fields) w))
    where
      -- The priority of the HEADERS frame.
      go :
          (t : Sess) (o : Option PriorityParam)
          → IsSession (headed t f.stream_id (header_of canonical [] f.fields))
          → Post
              (elim o as (λ x. Run (Option Error × Sess)) [
                | none ↦ ok (
                  none,
                  record (headed t f.stream_id (header_of canonical [] f.fields)) {
                    started =
                        (headed t f.stream_id (header_of canonical [] f.fields)).started
                        ++ f.stream_id ∷ [];
                  },
                )
                | some p ↦ elim (check_priority f.stream_id p) as (λ x. Run (Option Error × Sess)) [
                  | some e ↦ ok (some e, headed t f.stream_id (header_of canonical [] f.fields))
                  | none ↦
                      ws.adjust_stream f.stream_id p
                        (headed t f.stream_id (header_of canonical [] f.fields)).sched
                      >>= λ q. ok (
                        none,
                        record (record (headed t f.stream_id (header_of canonical [] f.fields)) {
                          sched = q;
                        }) {
                          started =
                              (headed t f.stream_id (header_of canonical [] f.fields)).started
                              ++ f.stream_id ∷ [];
                        },
                      )
                ]
              ])
              After
      go t none h = h
      go t (some p) h =
          Post-check f.stream_id p
            (λ e. ok (some e, headed t f.stream_id (header_of canonical [] f.fields))) _ (λ e. h)
            (Post-any After
              (ws.adjust_stream f.stream_id p
                (headed t f.stream_id (header_of canonical [] f.fields)).sched)
              _ (λ q. h))

  -- A first HEADERS frame of the peer, with an id of its side above its largest one.
  peer_raise :
      (s : Sess) (id : ℕ)
      → IsSession s
      → id < 2 ^ 31
      → ((if s.server then not (is_odd id) else is_odd id) || leb id (peer_max pb ws s)) ≡ false
      → IsSession (set_peer_max pb ws s id)
        × ((set_peer_max pb ws s id).objects id ≡ none)
        × (id ≤ bound (set_peer_max pb ws s id) id)
  unfolding set_peer_max peer_max
  peer_raise s id v k h = elim (Bool-cases s.server) [
    | inl y ↦
        let odd : is_odd id ≡ true = ground (arith, y, h) in
        let above : s.max_client_stream_id < id = ground (arith, y, h) in
        rw (y, set_peer_max)
          (
            raise_client pb ws s id v (omega (arith, above)) k odd,
            unused pb ws s id v (rw odd above),
            rw odd (omega arith),
          )
    | inr y ↦
        let even : is_odd id ≡ false = ground (arith, y, h) in
        let above : s.max_push_promise_id < id = ground (arith, y, h) in
        rw (y, set_peer_max)
          (
            raise_pushed pb ws s id v (omega (arith, above)) k even,
            unused pb ws s id v (rw even above),
            rw even (omega arith),
          )
  ]

  open_by_peer-Post :
      (canonical : String → String) (s : Sess) (f : MetaHeaders)
      → IsSession s
      → f.stream_id < 2 ^ 31
      → Post (open_by_peer pb ws canonical s f) After
  unfolding open_by_peer
  open_by_peer-Post canonical s f v k =
      Post-if_known After _ (ok _) _ (λ h. v)
        (λ h.
          let (v', e, low) = peer_raise s f.stream_id v k h in
          Post-if After _ (ok _) _ v' (
            Post-if After (not s.has_handler) (ok _)
              (accept_stream pb ws canonical (set_peer_max pb ws s f.stream_id) f) v'
              (accept_stream-Post canonical _ f v' e low)))

  -- processHeaders keeps the registry of the streams.
  pub process_headers-Post :
      (canonical : String → String) (s : Sess) (f : MetaHeaders)
      → IsSession s
      → f.stream_id < 2 ^ 31
      → Post (process_headers pb ws canonical s f) After
  unfolding process_headers
  process_headers-Post canonical s f v k = Post-if After s.in_go_away (ok _) _ v (
      Post-if After f.truncated (ok _) _ v (
        Post-find After s f.stream_id _ (open_by_peer pb ws canonical s f)
          (λ st e.
            let (o, l) = find-live s f.stream_id st v e in
            Post-if After st.reset_queued (ok _) _ v (
              Post-if After (not st.replied)
                (take_reply pb ws canonical s st f >>= λ s'. ok (none, s'))
                (ok (process_trailer_headers pb ws s st f))
                (Post-bind IsSession After (take_reply pb ws canonical s st f) _
                  (take_reply-Post canonical s st f v o) (λ s' v'. v'))
                (process_trailer_headers-IsSession s st f v o l)))
          (λ _. open_by_peer-Post canonical s f v k)))
