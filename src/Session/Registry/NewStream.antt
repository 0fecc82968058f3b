-- ===== src/Session/Registry/NewStream.antt =====
-- session.go: the registry of streams under newStream, once the largest id of its side is raised.
use h2stream.Prelude.{
  ℕ, ◌^◌, ◌≤◌, ◌<◌, ◌≡◌, refl, Bool, true, false, none, some, ◌==◌, if◌then◌else◌, arith,
  Option-cases, Bool-cases, inl, inr, panic, Post, Post-any, Post-if_known,
}
use h2stream.Pipe.{PipeBuffer}
use h2stream.Session.{StreamState, opened, half_closed_remote, Stream, Session, WriteScheduler}
use h2stream.Session.Streams.{find, set_stream, is_odd, is_pushed, count_up}
use h2stream.Session.Opening.{is_some, add_key, fresh_stream, new_stream}
use h2stream.Session.Registry.{live, IsSession}
use h2stream.Session.Registry.Updates.{fit_of, bound, added}

module _ (pb : PipeBuffer) (ws : WriteScheduler) where
  abbrev Sess : Type 0
  Sess = Session pb.Buf ws.Sched

  -- An id above the largest one has no stream yet.
  pub unused : (s : Sess) (id : ℕ) → IsSession s → bound s id < id → s.objects id ≡ none
  unused s id v h = elim (Option-cases (s.objects id)) [
    | inl e ↦ e
    | inr (st, e) ↦ absurd (omega (arith, h, (fit_of s id st v e).3))
  ]

  -- A larger id of a stream of the peer, or of one's own.
  pub raise_client :
      (s : Sess) (id : ℕ)
      → IsSession s
      → s.max_client_stream_id ≤ id
      → id < 2 ^ 31
      → is_odd id ≡ true
      → IsSession (record s { max_client_stream_id = id })
  raise_client s id v h k o = record {
    unique = v.unique;
    objects_fit = λ j. ground (arith, v.objects_fit j, h);
    client_counted = v.client_counted;
    pushed_counted = v.pushed_counted;
    numbered = ground (arith, v.numbered, k, o);
  }

  pub raise_pushed :
      (s : Sess) (id : ℕ)
      → IsSession s
      → s.max_push_promise_id ≤ id
      → id < 2 ^ 31
      → is_odd id ≡ false
      → IsSession (record s { max_push_promise_id = id })
  raise_pushed s id v h k o = record {
    unique = v.unique;
    objects_fit = λ j. ground (arith, v.objects_fit j, h);
    client_counted = v.client_counted;
    pushed_counted = v.pushed_counted;
    numbered = ground (arith, v.numbered, k, o);
  }

  -- newStream's assignments, for an id that is not yet a key.
  counted_up :
      (s : Sess) (id : ℕ) (st : Stream pb.Buf) (q : ws.Sched) (known : Bool)
      → IsSession s
      → known ≡ false
      → s.objects id ≡ none
      → st.id ≡ id
      → live st.state ≡ some true
      → 1 ≤ id
      → id ≤ bound s id
      → IsSession (
          count_up
            (record (set_stream s st) { streams = add_key pb ws id known s.streams; sched = q })
            id)
  unfolding set_stream count_up
  counted_up s id st q true v h e same l one low = absurd (ground (arith, h))
  counted_up s id st q false v h e same l one low = elim (Bool-cases (is_pushed id)) [
    | inl y ↦ rw y (
        added s id st _ _ v e same l one low (ground (arith, y, v.client_counted))
          (ground (arith, y, v.pushed_counted)))
    | inr y ↦ rw y (
        added s id st _ _ v e same l one low (ground (arith, y, v.client_counted))
          (ground (arith, y, v.pushed_counted)))
  ]

  find-unused : (s : Sess) (id : ℕ) → s.objects id ≡ none → is_some (find s id) ≡ false
  unfolding find
  find-unused s id e = ground (arith, e)

  pub new_stream-Post :
      (s : Sess) (id pusher : ℕ) (state : StreamState)
      → IsSession s
      → s.objects id ≡ none
      → id ≤ bound s id
      → live state ≡ some true
      → Post (new_stream pb ws s id pusher state) IsSession
  unfolding new_stream
  new_stream-Post s id pusher state v e low l =
      Post-if_known IsSession (id == 0) panic _ (λ h. tt)
        (λ h. Post-any IsSession (ws.open_stream id pusher s.sched) _ (λ q.
          counted_up s id (fresh_stream pb ws s id state) q (is_some (find s id)) v
            (find-unused s id e) e refl l (ground (arith, h)) low))

  pub live_first : (ends : Bool) → live (if ends then half_closed_remote else opened) ≡ some true
  live_first true = refl
  live_first false = refl
