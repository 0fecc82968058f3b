-- ===== src/Session/Writing.antt =====
-- session_write.go, writeFrame. Here and in the other modules `schedule` is the call of
-- scheduleFrameWrite with which the function ends: it does nothing inside the scheduling loop.
use h2stream.Prelude.{
  ℕ, Bool, true, false, ◌&&◌, ◌||◌, not, Option, none, some, [], ◌∷◌, ◌++◌, ◌==◌, if◌then◌else◌,
  length, Run, ok, panic, ◌>>=◌,
}
use h2stream.Errors.{Error}
use h2stream.Frame.{
  WriteFramer, write_res_headers, write_100_continue_headers_frame, write_stream_error,
}
use h2stream.WriteQueue.{FrameWriteRequest, stream_id}
use h2stream.Session.{StreamState, closed, Stream, Session, WriteScheduler, Net}
use h2stream.Session.Streams.{set_stream, state_of}

abbrev pub is_closed : StreamState → Bool
is_closed closed = true
is_closed _ = false

abbrev pub is_reset : Option WriteFramer → Bool
is_reset (some (write_stream_error _ _)) = true
is_reset _ = false

-- replyToWriter, without the nil that it leaves in the request. A send that would have to wait panics.
unfoldable pub reply_to_writer :
    {B S : Type 0} → (ℕ → Net) → Session B S → FrameWriteRequest → Option Error → Run (Session B S)
reply_to_writer net s wr err = elim wr.done [
  | none ↦ ok s
  | some ch ↦
      if (net (length s.replies)).would_block
      then panic
      else ok (record s { replies = s.replies ++ (ch, err) ∷ [] })
]

module _ {B S : Type 0} where
  -- The object that the request points to; the nil pointer panics.
  unfoldable pub deref : Session B S → Option ℕ → Run (Stream B)
  deref s none = panic
  deref s (some id) = elim (s.objects id) [ none ↦ panic | some st ↦ ok st ]

  -- A frame of a closed stream is not written, unless it is RST_STREAM.
  unfoldable pub on_closed : Session B S → FrameWriteRequest → Bool
  on_closed s wr =
      not (stream_id wr == 0)
      && (is_closed (state_of s (stream_id wr)).0 && not (is_reset wr.write))

  -- The type switch of writeFrame: the session, and whether the frame is to be dropped.
  unfoldable pub note_headers : Session B S → FrameWriteRequest → Run (Session B S × Bool)
  unfolding deref
  note_headers s wr = elim wr.write [
    | some (write_res_headers _) ↦
        deref s wr.stream >>= λ st. ok (set_stream s (record st { wrote_headers = true }), false)
    | some (write_100_continue_headers_frame _) ↦ deref s wr.stream >>= λ st.
        if st.wrote_headers
        then elim wr.done [ some _ ↦ panic | none ↦ ok (s, true) ]
        else ok (s, false)
    | _ ↦ ok (s, false)
  ]

module _ (ws : WriteScheduler) {B : Type 0} where
  unfoldable pub write_frame :
      (Session B ws.Sched → Run (Session B ws.Sched))
      → Session B ws.Sched
      → FrameWriteRequest
      → Run (Session B ws.Sched)
  unfolding on_closed note_headers
  write_frame schedule s wr = note_headers s wr >>= λ (s', drop).
      if on_closed s wr || drop
      then schedule s'
      else (ws.push wr s'.sched >>= λ q. schedule (record s' { sched = q }))
