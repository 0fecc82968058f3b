-- ===== src/Session/Announcing/Data.antt =====
-- session_read.go, processData: the connection's receive window against the DATA that is received.
use h2stream.Prelude.{
  ℕ, ◌+◌, ◌-◌, ◌<◌, ◌^◌, ◌≡◌, ◌≢◌, ◌⊎◌, refl, ap, ◌∙◌, Bool, true, false, ◌&&◌, ◌||◌, not, Option,
  none, some, List, length, ◌==◌, ==→≡, if◌then◌else◌, inl, inr, arith, Run, ok, panic, out_of_fuel,
  ◌>>=◌, Post, Post-bind, Post-any, Post-if, Post-if_known,
}
use h2stream.Prelude.Int.{
  ℤ, pos, ◌-ℤ◌, ◌≤ℤ◌, ltb_ℤ, IsInt32, wrap32, wrap32_exact, -ℤ_parts, eq_of_parts,
}
use h2stream.ErrCode
use h2stream.Errors.{Error, stream_error, connection_error}
use h2stream.Flow
use h2stream.Flow.{Flow, available}
use h2stream.Pipe
use h2stream.Pipe.{PipeBuffer}
use h2stream.Session.{Stream, Session, WriteScheduler, Net}
use h2stream.Session.Streams.{find, set_stream, state_of}
use h2stream.Session.Writing.{deref}
use h2stream.Session.Windows.{window_of, send_window_update, send_window_update32}
use h2stream.Session.Closing.{end_stream}
use h2stream.Session.Schedule.{schedule_frame_write}
use h2stream.Session.Reading.{
  int32, is_opened, is_idle, refuse_data, take_data, store_data, finish_data, process_data,
}
use h2stream.Session.Registry.Updates.{Post-state}
use h2stream.Session.Announcing.{announcing, credit, Honest, Honest-trans}
use h2stream.Session.Announcing.Updates.{send_window_update-Honest, send_window_update32-Honest}
use h2stream.Session.Announcing.Rounds.{schedule_frame_write-Honest}

swap_minus : (z : ℤ) (n k : ℕ) → (z -ℤ pos n) -ℤ pos k ≡ (z -ℤ pos k) -ℤ pos n
swap_minus z n k = eq_of_parts _ _ (
    omega (
      arith,
      -ℤ_parts (z -ℤ pos n) (pos k),
      -ℤ_parts z (pos n),
      -ℤ_parts (z -ℤ pos k) (pos n),
      -ℤ_parts z (pos k),
    ))

minus_none : (z : ℤ) → z ≡ z -ℤ pos 0
minus_none z = eq_of_parts _ _ (omega (arith, -ℤ_parts z (pos 0)))

int32_exact : (n : ℕ) → n < 2 ^ 31 → int32 n ≡ pos n
int32_exact n h = wrap32_exact (pos n) (omega (arith, h))

-- What take leaves of the connection's window
abbrev Less : ℤ → ℕ → ℤ → Type 0
Less c n c' = (c' ≡ c -ℤ pos n) × IsInt32 c' × (pos n ≤ℤ c)

take_alone :
    (c : ℤ) (n : ℕ) → IsInt32 c → Post (Flow.take (window_of c) (pos n)) (λ f. Less c n f.n)
unfolding Flow.take Flow.available ◌-ℤ◌ wrap32
take_alone c n v = ground arith

take_linked :
    (a c : ℤ) (n : ℕ)
    → IsInt32 c
    → Post
        (Flow.take (record { n = a; conn = some c }) (pos n))
        (λ f. Less c n (elim f.conn [ none ↦ c | some x ↦ x ]))
unfolding Flow.take Flow.available ◌-ℤ◌ wrap32
take_linked a c n v = ground arith

too_large : (c : ℤ) (n : ℕ) → ltb_ℤ c (pos n) ≡ true → ¬ (pos n ≤ℤ c)
too_large c n h = ground (arith, h)

one_too_small :
    (a c : ℤ) (n : ℕ)
    → ltb_ℤ (available (record { n = a; conn = some c })) (pos n) ≡ true
    → ¬ (pos n ≤ℤ c) ⊎ ¬ (pos n ≤ℤ a)
unfolding available
one_too_small a c n h = ground (arith, h)

module _ (pb : PipeBuffer) (ws : WriteScheduler) (net : ℕ → Net) (fuel : ℕ) where
  abbrev Served : Type 0
  Served = Session pb.Buf (ws.Sched × ℕ)

  abbrev ws' : WriteScheduler
  ws' = announcing ws

  abbrev serving : Served → Run Served
  serving = schedule_frame_write pb ws' net fuel

  honest : (s : Served) → IsInt32 s.inflow → Post (serving s) (Honest s)
  honest s v = schedule_frame_write-Honest pb ws net fuel s v

  -- A DATA frame of `size` bytes: it is ignored after a GOAWAY with an error, refused with the session as
  -- it was, or counted: the receive window less what was ever announced falls by its size.
  pub data Received (s : Served) (id size : ℕ) : Option Error × Served → Type 0 where
    gone :
        (s.in_go_away && not (s.go_away_code == ErrCode.no_error)) ≡ true
        → Received s id size (none, s)
    early :
        (id == 0 || is_idle (state_of s id).0) ≡ true
        → Received s id size (some (connection_error ErrCode.protocol), s)
    excess :
        (n : ℕ)
        → ¬ (pos size ≤ℤ s.inflow)
          ⊎ ((st : Stream pb.Buf) × (find s id ≡ some st) × ¬ (pos size ≤ℤ st.inflow))
        → Received s id size (some (stream_error n ErrCode.flow_control), s)
    counted :
        (e : Option Error) (t : Served)
        → IsInt32 t.inflow
        → (size ≢ 0 → pos size ≤ℤ s.inflow)
        → credit t ≡ credit s -ℤ pos size
        → Received s id size (e, t)

  -- The session after a take, and what follows it.
  after_take :
      (s p t : Served) (id size : ℕ) (e : Option Error)
      → p.inflow ≡ s.inflow -ℤ pos size
      → (size ≢ 0 → pos size ≤ℤ s.inflow)
      → p.sched ≡ s.sched
      → Honest p t
      → Received s id size (e, t)
  after_take s p t id size e a c b (v, h) = counted e t v c (
      h
      ∙ ap (λ x. p.inflow -ℤ pos (x.1)) b
      ∙ ap (λ z. z -ℤ pos (s.sched.1)) a
      ∙ swap_minus s.inflow size (s.sched.1))

  refuse_data-Received :
      (s : Served) (id : ℕ) (quiet : Bool) (size : ℕ)
      → IsInt32 s.inflow
      → size < 2 ^ 31
      → Post (refuse_data pb ws' serving s id quiet size) (Received s id size)
  unfolding refuse_data
  refuse_data-Received s id quiet size v h = rw (int32_exact size h) (
      Post-if_known (Received s id size) (ltb_ℤ s.inflow (pos size)) (ok _) _
        (λ y. excess id (inl (too_large s.inflow size y)))
        (λ _.
          Post-bind _ (Received s id size) (Flow.take (window_of s.inflow) (pos size)) _
            (take_alone s.inflow size v)
            (λ f less.
              Post-bind (Honest (record s { inflow = f.n })) (Received s id size)
                (send_window_update ws' serving (record s { inflow = f.n }) none size) _
                (send_window_update-Honest ws serving honest (record s { inflow = f.n }) none size
                  (less.1))
                (λ t g.
                  after_take s (record s { inflow = f.n }) t id size _ (less.0) (λ _. less.2) refl
                    g))))

  abbrev Same : Served → Option Error × Served → Type 0
  Same p (e, t) = Honest p t

  finish_data-Honest :
      (p t : Served) (id : ℕ) (ended : Bool)
      → Honest p t
      → Post (finish_data pb ws' serving t id ended) (Same p)
  unfolding finish_data end_stream set_stream
  finish_data-Honest p t id ended h = Post-any (Same p) (deref t (some id)) _ (λ st. go ended st)
    where
      go : (b : Bool) (st : Stream pb.Buf) → Honest p (if b then end_stream t st else t)
      go true st = h
      go false st = h

  -- The padding is given back.
  give_back-Honest :
      (p : Served) (id pad : ℕ) (ended : Bool)
      → IsInt32 p.inflow
      → Post
          (send_window_update32 ws' serving p none pad >>= λ t.
            send_window_update32 ws' serving t (some id) pad >>= λ t'.
            finish_data pb ws' serving t' id ended)
          (Same p)
  give_back-Honest p id pad ended v =
      Post-bind (Honest p) (Same p) (send_window_update32 ws' serving p none pad) _
        (send_window_update32-Honest ws serving honest p none pad v)
        (λ t h.
          Post-bind (Honest t) (Same p) (send_window_update32 ws' serving t (some id) pad) _
            (send_window_update32-Honest ws serving honest t (some id) pad (h.0))
            (λ u g. finish_data-Honest p u id ended (Honest-trans p t u h g)))

  stored :
      (p : Served) (st : Stream pb.Buf) (payload : List ℕ) (size : ℕ) (ended : Bool) (n : ℕ)
      (err : Option Error) (body : Pipe.Pipe pb.Buf)
      → IsInt32 p.inflow
      → Post
          (elim err as (λ x. Run (Option Error × Served)) [
            | some _ ↦ ok (
              some (stream_error st.id ErrCode.closed_stream),
              set_stream p (record st { body = body }),
            )
            | none ↦
                if n == length payload
                then (send_window_update32 ws' serving
                      (set_stream p
                        (record st { body = body; body_bytes = st.body_bytes + length payload }))
                      none
                      (size - length payload)
                    >>= λ t.
                        send_window_update32 ws' serving t (some st.id) (size - length payload)
                        >>= λ t'. finish_data pb ws' serving t' st.id ended)
                else panic
          ])
          (Same p)
  unfolding set_stream
  stored p st payload size ended n (some _) body v = (v, refl)
  stored p st payload size ended n none body v =
      let st' : Stream pb.Buf = record st {
        body = body;
        body_bytes = st.body_bytes + length payload;
      } in
      Post-if (Same p) (n == length payload) _ panic
        (give_back-Honest (set_stream p st') st.id (size - length payload) ended v) tt

  store_data-Honest :
      (p : Served) (st : Stream pb.Buf) (payload : List ℕ) (size : ℕ) (ended : Bool)
      → IsInt32 p.inflow
      → Post (store_data pb ws' serving p st payload size ended) (Same p)
  unfolding store_data
  store_data-Honest p st payload size ended v =
      Post-if (Same p) (length payload == 0) _ _
        (give_back-Honest p st.id (size - length payload) ended v)
        (Post-any (Same p) (Pipe.write pb st.body payload) _
          (λ (n, err, body). stored p st payload size ended n err body v))

  receiving :
      (s p : Served) (id size : ℕ) (r : Run (Option Error × Served))
      → p.inflow ≡ s.inflow -ℤ pos size
      → (size ≢ 0 → pos size ≤ℤ s.inflow)
      → p.sched ≡ s.sched
      → Post r (Same p)
      → Post r (Received s id size)
  receiving s p id size (ok (e, t)) a c b h = after_take s p t id size e a c b h
  receiving s p id size panic a c b h = tt
  receiving s p id size out_of_fuel a c b h = tt

  take_data-Received :
      (s : Served) (st : Stream pb.Buf) (id : ℕ) (payload : List ℕ) (size : ℕ) (ended : Bool)
      → find s id ≡ some st
      → IsInt32 s.inflow
      → size < 2 ^ 31
      → Post (take_data pb ws' serving s st payload size ended) (Received s id size)
  unfolding take_data set_stream
  take_data-Received s st id payload size ended found v h = rw (int32_exact size h) (
      Post-if_known (Received s id size) (size == 0) (finish_data pb ws' serving s st.id ended) _
        (λ z.
          let none_here : size ≡ 0 = ==→≡ size 0 z in
          receiving s s id size (finish_data pb ws' serving s st.id ended)
            (minus_none s.inflow ∙ ap (λ n. s.inflow -ℤ pos n) (omega (arith, none_here)))
            (λ k. absurd (k none_here)) refl (finish_data-Honest s s st.id ended (v, refl)))
        (λ _.
          Post-if_known (Received s id size) (ltb_ℤ (Flow.available window) (pos size)) (ok _) _
            (λ y. excess st.id (exceeding y))
            (λ _.
              Post-bind _ (Received s id size) (Flow.take window (pos size)) _
                (take_linked st.inflow s.inflow size v)
                (λ f less.
                  let st' : Stream pb.Buf = record st { inflow = f.n } in
                  receiving s (paid f) id size
                    (store_data pb ws' serving (set_stream (paid f) st') st' payload size ended)
                    (less.0) (λ _. less.2) refl
                    (store_data-Honest (set_stream (paid f) st') st' payload size ended
                      (less.1))))))
    where
      window : Flow
      window = record { n = st.inflow; conn = some s.inflow }

      exceeding :
          ltb_ℤ (Flow.available window) (pos size) ≡ true
          → ¬ (pos size ≤ℤ s.inflow)
            ⊎ ((st' : Stream pb.Buf) × (find s id ≡ some st') × ¬ (pos size ≤ℤ st'.inflow))
      exceeding y = elim (one_too_small st.inflow s.inflow size y) [
        | inl k ↦ inl k
        | inr k ↦ inr (st, found, k)
      ]

      paid : Flow → Served
      paid f = record s { inflow = elim f.conn [ none ↦ s.inflow | some c ↦ c ] }

  -- With an int32 receive window for the connection, a DATA frame of less than 2^31 bytes is ignored after
  -- a GOAWAY with an error, refused with the session unchanged, since its stream is 0 or idle or since it
  -- exceeds the window of the connection or of the stream, or counted: then it is no larger than the
  -- connection's window unless it is empty, and that window falls by its size and grows by exactly what is
  -- announced to the peer in WINDOW_UPDATE requests meanwhile.
  pub process_data-Received :
      (s : Served) (id : ℕ) (payload : List ℕ) (size : ℕ) (ended : Bool)
      → IsInt32 s.inflow
      → size < 2 ^ 31
      → Post (process_data pb ws' serving s id payload size ended) (Received s id size)
  unfolding process_data
  process_data-Received s id payload size ended v h =
      let P = Received s id size in
      Post-if_known P (s.in_go_away && not (s.go_away_code == ErrCode.no_error)) (ok (none, s)) _
        gone
        (λ _. Post-if_known P _ (ok (some (connection_error ErrCode.protocol), s)) _ early (λ _.
          Post-state P s id _ (refuse_data pb ws' serving s id false size)
            (λ st f.
              Post-if P (not (is_opened st.state) || (st.got_trailer_header || st.reset_queued))
                (refuse_data pb ws' serving s id st.reset_queued size)
                (take_data pb ws' serving s st payload size ended)
                (refuse_data-Received s id st.reset_queued size v h)
                (take_data-Received s st id payload size ended f v h))
            (λ _. refuse_data-Received s id false size v h)))
