-- ===== src/Session/Registry/Updates.antt =====
-- session.go: what one assignment does to the registry of streams.
use h2stream.Prelude.{
  List, [], ◌++◌, length, ℕ, suc, ◌%◌, ◌^◌, ◌≤◌, ◌≡◌, refl, sym, ap, ◌∙◌, ==→≡, subst, ◌≢◌, true,
  false, Option, none, some, ◌∷◌, ◌==◌, if◌then◌else◌, arith, Bool-cases, Option-cases, inl, inr,
  Run, ok, panic, Post, Post-if,
}
use h2stream.Errors.{Error}
use h2stream.WriteQueue.{FrameWriteRequest}
use h2stream.Session.{
  StreamState, idle, opened, half_closed_local, half_closed_remote, closed, Stream, Session, Net,
}
use h2stream.Session.Streams.{
  state_of, has, delete, is_odd, is_pushed, find, set_stream, count_down,
}
use h2stream.Session.Writing.{deref, reply_to_writer}
use h2stream.Session.Closing.{drop_stream}
use h2stream.Session.Registry.{
  live, pushed_keys, client_keys, Fits, Registry, IsSession, has-delete-other, has-delete-same,
  delete-Unique, pushed_keys-delete, client_keys-delete,
}

module _ {B S : Type 0} where
  abbrev pub bound : Session B S → ℕ → ℕ
  bound s id = if is_odd id then s.max_client_stream_id else s.max_push_promise_id

  -- The object that is reached by an id has this id.
  pub fit_of :
      (s : Session B S) (id : ℕ) (st : Stream B)
      → IsSession s
      → s.objects id ≡ some st
      → Fits id (has id s.streams) (bound s id) (some st)
  fit_of s id st v e = subst (Fits id _ _) e (v.objects_fit id)

  -- A stream that keeps its id, and its place in the map.
  pub set_stream-IsSession :
      (s : Session B S) (id : ℕ) (st st' : Stream B)
      → IsSession s
      → s.objects id ≡ some st
      → st'.id ≡ st.id
      → live st'.state ≡ live st.state
      → IsSession (set_stream s st')
  unfolding set_stream
  set_stream-IsSession s id st st' v e same kept = record {
    unique = v.unique;
    objects_fit = λ k.
        let f = fit_of s id st v e in
        elim (Bool-cases (st'.id == k)) [
          | inr n ↦ rw n (v.objects_fit k)
          | inl y ↦
              let at_key : id ≡ k = omega (arith, ==→≡ st'.id k y, same, f.0) in
              rw y (
                subst (λ j. Fits j (has j s.streams) (bound s j) (some st')) at_key
                  (same ∙ f.0, kept ∙ f.1, f.2, f.3))
        ];
    client_counted = v.client_counted;
    pushed_counted = v.pushed_counted;
    numbered = v.numbered;
  }

  pub find-object :
      (s : Session B S) (id : ℕ) (st : Stream B) → find s id ≡ some st → s.objects id ≡ some st
  unfolding find
  find-object s id st e = ground (arith, e)

  pub deref-Post :
      (s : Session B S) (o : Option ℕ)
      → Post (deref s o) (λ st. (id : ℕ) × (o ≡ some id) × (s.objects id ≡ some st))
  unfolding deref
  deref-Post s none = tt
  deref-Post s (some id) = elim (Option-cases (s.objects id)) [
    | inl e ↦ rw (Post, e) tt
    | inr (st, e) ↦ rw (Post, e) (id, refl, e)
  ]

  -- The registry after the stream leaves the map.
  dropped :
      (s : Session B S) (st : Stream B) (c p : ℕ)
      → IsSession s
      → s.objects st.id ≡ some st
      → c ≡ client_keys (delete st.id s.streams) % 2 ^ 32
      → p ≡ pushed_keys (delete st.id s.streams) % 2 ^ 32
      → Registry B
          (set_stream s (record st { state = closed })).objects
          (delete st.id s.streams)
          c
          p
          s.max_client_stream_id
          s.max_push_promise_id
  unfolding set_stream
  dropped s st c p v e hc hp = record {
    unique = delete-Unique st.id s.streams v.unique;
    objects_fit = λ k.
        let f = fit_of s st.id st v e in
        elim (Bool-cases (st.id == k)) [
          | inr n ↦
              let other : k ≢ st.id = λ q. absurd (ground (arith, n, q)) in
              rw (n, has-delete-other st.id k s.streams other) (v.objects_fit k)
          | inl y ↦ rw y (
              subst
                (λ j.
                  Fits j (has j (delete st.id s.streams)) (bound s j)
                    (some (record st { state = closed })))
                (==→≡ st.id k y)
                (refl, sym (ap some (has-delete-same st.id s.streams v.unique)), f.2, f.3))
        ];
    client_counted = hc;
    pushed_counted = hp;
    numbered = v.numbered;
  }

  -- A stream that is not closed is in the map.
  pub live-has :
      (s : Session B S) (id : ℕ) (st : Stream B)
      → IsSession s
      → s.objects id ≡ some st
      → live st.state ≡ some true
      → has id s.streams ≡ true
  live-has s id st v e l = let f = fit_of s id st v e in ground (arith, f.1, l)

  pub drop-IsSession :
      (s : Session B S) (st : Stream B)
      → IsSession s
      → s.objects st.id ≡ some st
      → live st.state ≡ some true
      → IsSession (record (count_down (set_stream s (record st { state = closed })) st.id) {
        streams = delete st.id s.streams;
      })
  unfolding set_stream count_down
  drop-IsSession s st v e l =
      let here = live-has s st.id st v e l in
      let cs = client_keys-delete st.id s.streams here in
      let ps = pushed_keys-delete st.id s.streams here in
      elim (Bool-cases (is_pushed st.id)) [
        | inl y ↦
            let c : client_keys s.streams ≡ client_keys (delete st.id s.streams) =
              ground (arith, y, cs) in
            let p : pushed_keys s.streams ≡ suc (pushed_keys (delete st.id s.streams)) =
              ground (arith, y, ps) in
            rw y (
              dropped s st _ _ v e (omega (arith, v.client_counted, c))
                (omega (arith, v.pushed_counted, p)))
        | inr y ↦
            let c : client_keys s.streams ≡ suc (client_keys (delete st.id s.streams)) =
              ground (arith, y, cs) in
            let p : pushed_keys s.streams ≡ pushed_keys (delete st.id s.streams) =
              ground (arith, y, ps) in
            rw y (
              dropped s st _ _ v e (omega (arith, v.client_counted, c))
                (omega (arith, v.pushed_counted, p)))
      ]

  -- The switch on the state with which closeStream begins.
  Post-unless_done :
      (P : Session B S → Type 0) (x : StreamState) (r : Run (Session B S))
      → (live x ≡ some true → Post r P)
      → Post (elim x [ idle ↦ panic | closed ↦ panic | _ ↦ r ]) P
  Post-unless_done P idle r h = tt
  Post-unless_done P opened r h = h refl
  Post-unless_done P half_closed_local r h = h refl
  Post-unless_done P half_closed_remote r h = h refl
  Post-unless_done P closed r h = tt

  -- closeStream on a live stream takes it out of the registry; on another it panics.
  pub drop_stream-Post :
      (s : Session B S) (st : Stream B)
      → IsSession s
      → s.objects st.id ≡ some st
      → Post (drop_stream s st) IsSession
  unfolding drop_stream
  drop_stream-Post s st v e =
      Post-unless_done IsSession st.state _
        (λ l. Post-if IsSession _ panic (ok _) tt (drop-IsSession s st v e l))

  -- The registry with one more stream.
  pub added :
      (s : Session B S) (id : ℕ) (st : Stream B) (c p : ℕ)
      → IsSession s
      → s.objects id ≡ none
      → st.id ≡ id
      → live st.state ≡ some true
      → 1 ≤ id
      → id ≤ bound s id
      → c ≡ client_keys (id ∷ s.streams) % 2 ^ 32
      → p ≡ pushed_keys (id ∷ s.streams) % 2 ^ 32
      → Registry B
          (set_stream s st).objects
          (id ∷ s.streams)
          c
          p
          s.max_client_stream_id
          s.max_push_promise_id
  unfolding set_stream
  added s id st c p v e same l pos_id low hc hp =
      let unmapped : has id s.streams ≡ false =
        subst (Fits id _ (bound s id)) e (v.objects_fit id) in
      record {
        unique = (unmapped, v.unique);
        objects_fit = λ k. elim (Bool-cases (id == k)) [
          | inr n ↦ rw (same, n) (v.objects_fit k)
          | inl y ↦ rw (same, y) (ground (arith, y, same, l, pos_id, low))
        ];
        client_counted = hc;
        pushed_counted = hp;
        numbered = v.numbered;
      }

  -- What follows a search in the map.
  pub Post-find :
      {A : Type 0} (P : A → Type 0) (s : Session B S) (id : ℕ) (f : Stream B → Run A) (r : Run A)
      → ((st : Stream B) → find s id ≡ some st → Post (f st) P)
      → (find s id ≡ none → Post r P)
      → Post (elim (find s id) [ some st ↦ f st | none ↦ r ]) P
  Post-find {A} P s id f r h k = elim (Option-cases (find s id)) [
    | inl e ↦
        subst (λ o. Post (elim o as (λ x. Run A) [ some st ↦ f st | none ↦ r ]) P) (sym e) (k e)
    | inr (st, e) ↦
        subst (λ o. Post (elim o as (λ x. Run A) [ some t ↦ f t | none ↦ r ]) P) (sym e) (h st e)
  ]

  -- What holds whatever the replies are holds after replyToWriter.
  pub reply_to_writer-Post :
      (P : Session B S → Type 0) (net : ℕ → Net) (s : Session B S) (wr : FrameWriteRequest)
      (err : Option Error)
      → ((l : List (ℕ × Option Error)) → P (record s { replies = l }))
      → Post (reply_to_writer net s wr err) P
  unfolding reply_to_writer
  reply_to_writer-Post P net s wr err h = go wr.done
    where
      go : (d : Option ℕ) → Post (reply_to_writer net s (record wr { done = d }) err) P
      go none = h s.replies
      go (some ch) =
          Post-if P (net (length s.replies)).would_block panic (ok _) tt
            (h (s.replies ++ (ch, err) ∷ []))

  -- A stream in the map: its object is reached by its own id, and it is live.
  pub find-live :
      (s : Session B S) (id : ℕ) (st : Stream B)
      → IsSession s
      → find s id ≡ some st
      → (s.objects st.id ≡ some st) × (live st.state ≡ some true)
  unfolding find
  find-live s id st v e =
      let o = find-object s id st e in
      let f = fit_of s id st v o in
      let mapped : has id s.streams ≡ true = ground (arith, e) in
      (subst (λ k. s.objects k ≡ some st) (sym f.0) o, f.1 ∙ ap some mapped)

  stream_of : (s : Session B S) (id : ℕ) → (state_of s id).1 ≡ find s id
  unfolding state_of
  stream_of s id = elim (Option-cases (find s id)) [
    | inr (st, e) ↦ rw (e, state_of) refl
    | inl e ↦ ground (arith, e)
  ]

  -- What follows a question for a stream's state.
  pub Post-state :
      {A : Type 0} (P : A → Type 0) (s : Session B S) (id : ℕ) (f : Stream B → Run A) (r : Run A)
      → ((st : Stream B) → find s id ≡ some st → Post (f st) P)
      → (find s id ≡ none → Post r P)
      → Post (elim (state_of s id).1 [ some st ↦ f st | none ↦ r ]) P
  Post-state {A} P s id f r h k =
      subst (λ o. Post (elim o as (λ x. Run A) [ some st ↦ f st | none ↦ r ]) P)
        (sym (stream_of s id)) (Post-find P s id f r h k)
