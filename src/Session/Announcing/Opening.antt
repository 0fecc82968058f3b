-- ===== src/Session/Announcing/Opening.antt =====
-- session.go and session_read.go: opening streams leaves the connection's receive window as it is.
use h2stream.Prelude.{
  ℕ, ◌+◌, ◌%◌, ◌^◌, ◌≡◌, ◌⊎◌, refl, ap, ◌∙◌, Bool, true, false, ◌&&◌, ◌||◌, not, Option, none, some,
  [], ◌∷◌, ◌++◌, leb, ltb, ◌==◌, if◌then◌else◌, Option-cases, Bool-cases, inl, inr, Run, ok, panic,
  out_of_fuel, ◌>>=◌, Post, Post-bind, Post-any, Post-if,
}
use h2stream.Prelude.Int.{ℤ, pos, ◌-ℤ◌, IsInt32}
use h2stream.ErrCode
use h2stream.Errors.{Error, connection_error, stream_error, stream_limit_reached}
use h2stream.Frame.{ResHeaders, Header, write_res_headers}
use h2stream.Pipe.{PipeBuffer}
use h2stream.WriteQueue.{FrameWriteRequest}
use h2stream.Session.{
  StreamState, opened, half_closed_remote, PriorityParam, Stream, Session, WriteScheduler,
}
use h2stream.Session.Streams.{set_stream, count_up, is_pushed, is_odd}
use h2stream.Session.Closing.{end_stream, go_away}
use h2stream.Session.Frames.{MetaHeaders}
use h2stream.Session.Writing.{write_frame}
use h2stream.Session.Opening.{
  is_nil, check_priority, new_stream, process_trailer_headers, take_reply, peer_max, peer_open,
  set_peer_max, accept_stream, over_limit, open_by_peer, process_headers, create_stream, header_of,
}
use h2stream.Session.Registry.Updates.{Post-find}
use h2stream.Session.Announcing.{announced, announcing, credit, Honest}
use h2stream.Session.Announcing.Updates.{write_frame-Honest}
use Prim.Native.String.{String}

-- The connection's receive window is an int32 and, less what was announced, is `c`.
abbrev pub At : {B S : Type 0} → ℤ → Session B (S × ℕ) → Type 0
At c s = IsInt32 s.inflow × (credit s ≡ c)

module _ (pb : PipeBuffer) (ws : WriteScheduler)
    (schedule : Session pb.Buf (ws.Sched × ℕ) → Run (Session pb.Buf (ws.Sched × ℕ)))
    (honest : (s : Session pb.Buf (ws.Sched × ℕ)) → IsInt32 s.inflow → Post (schedule s) (Honest s))
    (c : ℤ) where
  abbrev pub Sess : Type 0
  Sess = Session pb.Buf (ws.Sched × ℕ)

  abbrev ws' : WriteScheduler
  ws' = announcing ws

  -- What an honest operation leaves.
  pub at_end : (s : Sess) (r : Run Sess) → At c s → Post r (Honest s) → Post r (At c)
  at_end s (ok t) (v, e) (w, e') = (w, e' ∙ e)
  at_end s panic h k = tt
  at_end s out_of_fuel h k = tt

  pub go_away-At : (s : Sess) (code : ℕ) → At c s → Post (go_away pb ws' schedule s code) (At c)
  unfolding go_away
  go_away-At s code h = Post-if (At c) s.in_go_away (ok s) _ h (
      at_end (record s { in_go_away = true; need_to_send_go_away = true; go_away_code = code }) _ h
        (honest (record s { in_go_away = true; need_to_send_go_away = true; go_away_code = code })
          (h.0)))

  open_keeps : (id p : ℕ) (q : ws.Sched × ℕ) → Post (ws'.open_stream id p q) (λ q'. q'.1 ≡ q.1)
  open_keeps id p (q, k) = Post-any _ (ws.open_stream id p q) _ (λ q'. refl)

  pub adjust_keeps :
      (s : Sess) (id : ℕ) (p : PriorityParam)
      → At c s
      → Post (ws'.adjust_stream id p s.sched) (λ q. At c (record s { sched = q }))
  adjust_keeps s id p h = Post-any _ (ws.adjust_stream id p (s.sched.0)) _ (λ q'. h)

  counted_up : (s : Sess) (id : ℕ) → At c s → At c (count_up s id)
  unfolding count_up
  counted_up s id h = elim (Bool-cases (is_pushed id)) [ inl y ↦ rw y h | inr y ↦ rw y h ]

  new_stream-At :
      (s : Sess) (id p : ℕ) (x : StreamState) → At c s → Post (new_stream pb ws' s id p x) (At c)
  unfolding new_stream set_stream
  new_stream-At s id p x (v, e) = Post-if (At c) (id == 0) panic _ tt (
      Post-bind _ (At c) (ws'.open_stream id p s.sched) _ (open_keeps id p s.sched)
        (λ q same. counted_up _ id (v, ap (λ k. s.inflow -ℤ pos k) same ∙ e)))

  -- The results of the functions on frames.
  abbrev pub After : Option Error × Sess → Type 0
  After (_, s) = At c s

  with_header :
      (canonical : String → String) (s t : Sess) (f : MetaHeaders)
      → At c t
      → At c (elim (t.objects f.stream_id) [
        | none ↦ t
        | some st ↦ set_stream t (record st { header = some (header_of canonical [] f.fields) })
      ])
  unfolding set_stream
  with_header canonical s t f h = elim (Option-cases (t.objects f.stream_id)) [
    | inl e ↦ rw e h
    | inr (st, e) ↦ rw e h
  ]

  accept_stream-At :
      (canonical : String → String) (s : Sess) (f : MetaHeaders)
      → At c s
      → Post (accept_stream pb ws' canonical s f) After
  unfolding accept_stream
  accept_stream-At canonical s f h =
      Post-bind (At c) After
        (new_stream pb ws' s f.stream_id 0 (if f.stream_ended then half_closed_remote else opened))
        _ (new_stream-At s f.stream_id 0 (if f.stream_ended then half_closed_remote else opened) h)
        (λ t g. go t (with_header canonical s t f g) f.priority)
    where
      headed : Sess → Sess
      headed t = elim (t.objects f.stream_id) [
        | none ↦ t
        | some st ↦ set_stream t (record st { header = some (header_of canonical [] f.fields) })
      ]

      start : Sess → Sess
      start t = record t { started = t.started ++ f.stream_id ∷ [] }

      checked :
          (t : Sess) (p : PriorityParam)
          → At c (headed t)
          → (e : Option Error)
          → Post {A = Option Error × Sess}
              (elim e [
                | some e ↦ ok (some e, headed t)
                | none ↦ ws'.adjust_stream f.stream_id p (headed t).sched >>= λ q.
                    ok (none, start (record (headed t) { sched = q }))
              ])
              After
      checked t p g (some e) = g
      checked t p g none =
          Post-bind _ After (ws'.adjust_stream f.stream_id p (headed t).sched) _
            (adjust_keeps (headed t) f.stream_id p g) (λ q k. k)

      go :
          (t : Sess)
          → At c (headed t)
          → (o : Option PriorityParam)
          → Post {A = Option Error × Sess}
              (elim o [
                | none ↦ ok (none, start (headed t))
                | some p ↦ elim (check_priority f.stream_id p) [
                  | some e ↦ ok (some e, headed t)
                  | none ↦ ws'.adjust_stream f.stream_id p (headed t).sched >>= λ q.
                      ok (none, start (record (headed t) { sched = q }))
                ]
              ])
              After
      go t g none = g
      go t g (some p) = checked t p g (check_priority f.stream_id p)

  set_peer_max-At : (s : Sess) (id : ℕ) → At c s → At c (set_peer_max pb ws' s id)
  unfolding set_peer_max
  set_peer_max-At s id h = elim (Bool-cases s.server) [ inl y ↦ rw y h | inr y ↦ rw y h ]

  open_by_peer-At :
      (canonical : String → String) (s : Sess) (f : MetaHeaders)
      → At c s
      → Post (open_by_peer pb ws' canonical s f) After
  unfolding open_by_peer
  open_by_peer-At canonical s f h =
      let id = f.stream_id in
      let g = set_peer_max-At s id h in
      Post-if After
        ((if s.server then not (is_odd id) else is_odd id) || leb id (peer_max pb ws' s))
        (ok (some (connection_error ErrCode.protocol), s)) _ h
        (Post-if After (ltb s.adv_max_streams ((peer_open pb ws' s + 1) % 2 ^ 32))
          (ok (some (over_limit pb ws' s id), set_peer_max pb ws' s id)) _ g
          (Post-if After (not s.has_handler)
            (ok (some (stream_error id ErrCode.refused_stream), set_peer_max pb ws' s id)) _ g
            (accept_stream-At canonical (set_peer_max pb ws' s id) f g)))

  trailer-At :
      (s : Sess) (st : Stream pb.Buf) (f : MetaHeaders)
      → At c s
      → After (process_trailer_headers pb ws' s st f)
  unfolding process_trailer_headers set_stream end_stream
  trailer-At s st f h = elim (Bool-cases st.got_trailer_header) [
    | inl y ↦ rw y h
    | inr y ↦ rw y (elim (Bool-cases (not f.stream_ended || not (is_nil f.pseudo_fields))) [
      | inl z ↦ rw z h
      | inr z ↦ rw z h
    ])
  ]

  pub process_headers-At :
      (canonical : String → String) (s : Sess) (f : MetaHeaders)
      → At c s
      → Post (process_headers pb ws' canonical s f) After
  unfolding process_headers take_reply set_stream
  process_headers-At canonical s f h = Post-if After s.in_go_away (ok (none, s)) _ h (
      Post-if After f.truncated (ok (some (stream_error f.stream_id ErrCode.protocol), s)) _ h (
        Post-find After s f.stream_id _ (open_by_peer pb ws' canonical s f)
          (λ st _. Post-if After st.reset_queued (ok (none, s)) _ h (
            Post-if After (not st.replied)
              (take_reply pb ws' canonical s st f >>= λ s'. ok (none, s'))
              (ok (process_trailer_headers pb ws' s st f))
              (Post-bind (At c) After (take_reply pb ws' canonical s st f) _
                (Post-if (At c) st.ready panic (ok _) tt h) (λ t g. g))
              (trailer-At s st f h)))
          (λ _. open_by_peer-At canonical s f h)))

  -- A new stream, and the request for its HEADERS.
  make-At :
      (s : Sess) (id parent : ℕ) (x : StreamState) (wr : FrameWriteRequest)
      → announced wr ≡ 0
      → At c s
      → Post {A = (ℕ ⊎ Error) × Sess}
          (new_stream pb ws' s id parent x >>= λ t.
            write_frame ws' schedule t wr >>= λ u. ok (inl id, u))
          (λ (_, u). At c u)
  make-At s id parent x wr z h =
      Post-bind (At c) _ (new_stream pb ws' s id parent x) _ (new_stream-At s id parent x h) (λ t g.
        Post-bind (At c) _ (write_frame ws' schedule t wr) (λ u. ok (inl id, u))
          (at_end t (write_frame ws' schedule t wr) g
            (write_frame-Honest ws schedule honest t wr (g.0) z))
          (λ u k. k))

  numbered :
      (s : Sess) (b : Bool) (id : ℕ)
      → At c s
      → At c (
          if b
          then record s { max_push_promise_id = id }
          else record s { max_client_stream_id = id })
  numbered s true id h = h
  numbered s false id h = h

  pub create_stream-At :
      (s : Sess) (parent : ℕ) (header : Header) (ends : Bool)
      → At c s
      → Post (create_stream pb ws' schedule s parent header ends) (λ (_, t). At c t)
  unfolding create_stream
  create_stream-At s parent header ends h =
      Post-if P (ltb s.peer_max_streams ((cur + 1) % 2 ^ 32)) (ok (inr stream_limit_reached, s)) _ h
        (Post-if P (leb (2 ^ 31) ((max_id + 2) % 2 ^ 32)) _ _
          (Post-bind (At c) P (go_away pb ws' schedule s ErrCode.no_error)
            (λ t. ok (inr stream_limit_reached, t)) (go_away-At s ErrCode.no_error h) (λ t g. g))
          (make-At
            (if s.server
              then record s { max_push_promise_id = new_id }
              else record s { max_client_stream_id = new_id })
            new_id parent (if ends then half_closed_remote else opened)
            (record { write = some (write_res_headers res); stream = some new_id; done = none })
            refl (numbered s s.server new_id h)))
    where
      P : (ℕ ⊎ Error) × Sess → Type 0
      P (_, t) = At c t

      max_id : ℕ
      max_id = if s.server then s.max_push_promise_id else s.max_client_stream_id

      cur : ℕ
      cur = if s.server then s.cur_pushed_streams else s.cur_client_streams

      new_id : ℕ
      new_id = if not s.server && s.max_client_stream_id == 0 then 1 else (max_id + 2) % 2 ^ 32

      res : ResHeaders
      res = record {
        stream_id = new_id;
        http_res_code = 0;
        h = some header;
        trailers = none;
        end_stream = ends;
        date = "";
        content_type = "";
        content_length = "";
      }
