-- ===== src/Session/Replies.antt =====
-- stream.go, Reply: a stream is answered once.
use h2stream.Prelude.{
  ℕ, ◌≡◌, refl, Bool, true, false, Option, some, List, [], length, ◌≤◌, arith, ok,
}
use h2stream.Errors.{Error}
use h2stream.Frame.{Header, ResHeaders}
use h2stream.WriteQueue.{FrameWriteRequest}
use h2stream.Session.{Stream}
use h2stream.Session.Handlers.{
  CallError, called, already_replied, Wakes, same_side, write_frame_from_handler, write_headers,
  await, reply_frame, reply,
}

one_request :
    (serving : Bool) (wr : FrameWriteRequest) (r : Option Error)
    → length ((await (write_frame_from_handler serving wr) r).1) ≤ 1
unfolding write_frame_from_handler
one_request true wr r = omega arith
one_request false wr r = omega arith

module _ {B : Type 0} where
  headers_once :
      (st : Stream B) (r : ResHeaders) (ch : ℕ) (serving : Bool) (w : Wakes)
      → length ((write_headers st r ch serving w).1) ≤ 1
  unfolding write_headers
  headers_once st r ch serving w = one_request serving _ _

  -- On a stream that the other side opened, and that has no reply yet, Reply does not panic, and sends
  -- at most one request to the serve loop. After it, whatever it returned, every further Reply sends
  -- nothing and returns the error that the stream has already replied.
  pub reply_once :
      (server : Bool) (st : Stream B) (header : Header) (end_stream : Bool) (ch : ℕ)
      (serving : Bool) (w : Wakes)
      → same_side server st.id ≡ false
      → st.replied ≡ false
      → st.ready ≡ false
      → (e : Option CallError) × (st' : Stream B) × (wrs : List FrameWriteRequest) × (reply server
            st header end_stream ch serving w
          ≡ ok (e, st', wrs))
        × (length wrs ≤ 1)
        × ((header' : Header) (end' : Bool) (ch' : ℕ) (serving' : Bool) (w' : Wakes)
            → reply server st' header' end' ch' serving' w' ≡ ok (some already_replied, st', []))
  unfolding reply
  reply_once server st header end_stream ch serving w a b c =
      let sent = write_headers st (reply_frame st header end_stream) ch serving w in
      (
        called (sent.0),
        record st { replied = true; ready = true },
        sent.1,
        rw (a, b, c) refl,
        headers_once st (reply_frame st header end_stream) ch serving w,
        λ _ _ _ _ _. rw a refl,
      )
