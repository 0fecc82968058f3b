-- ===== src/Session/Spending/Looping.antt =====
-- session_write.go, scheduleFrameWrite: the connection's window pays for the DATA that is written.
use h2stream.Prelude.{
  ℕ, ◌+◌, ◌≡◌, refl, ap, ◌∙◌, false, Option, none, some, List, [], ◌∷◌, ◌++◌, length, if◌then◌else◌,
  arith, Run, ok, panic, out_of_fuel, ◌>>=◌, Post, Post-any, Post-if,
}
use h2stream.Errors.{Error}
use h2stream.Frame.{WriteFramer, stays_within_buffer, write_push_promise, refused, write_data}
use h2stream.Pipe.{PipeBuffer}
use h2stream.WriteQueue.{FrameWriteRequest}
use h2stream.WriteQueue.Consume.{bytes_of}
use h2stream.Session.{Session, WriteScheduler, Net}
use h2stream.Session.Writing.{reply_to_writer}
use h2stream.Session.Schedule.{wrote_frame, perform_write, allowed_now, start_frame_write, nested}
use h2stream.Session.Registry.Scheduling.{begun}
use h2stream.Session.Spending.{OwnIds, Calm, Calm-refl, window_at, data_in}
use h2stream.Session.Quiet.{Quiet}
use h2stream.Session.Quiet.Writing.{reply_quietly, wrote_quietly}
use h2stream.Session.Spending.Inner.{Calm-Quiet}

data_in-append : (xs ys : List WriteFramer) → data_in (xs ++ ys) ≡ data_in xs + data_in ys
data_in-append [] ys = omega arith
data_in-append (write_data _ p _ ∷ xs) ys = omega (arith, data_in-append xs ys)
data_in-append (_ ∷ xs) ys = data_in-append xs ys

data_in-one :
    (wr : FrameWriteRequest) (w : WriteFramer)
    → wr.write ≡ some w
    → data_in (w ∷ []) ≡ length (bytes_of wr)
data_in-one wr (write_data _ p _) e = rw e (omega arith)
data_in-one wr w e = rw e refl

module _ (pb : PipeBuffer) (ws : WriteScheduler) (net : ℕ → Net) where
  abbrev Sess : Type 0
  Sess = Session pb.Buf ws.Sched

  abbrev inner : Sess → Run Sess
  inner = nested pb ws net

  nested-Calm : (s : Sess) → OwnIds s → Post (inner s) (Calm s)
  unfolding nested
  nested-Calm s v = Post-if (Calm s) _ (ok s) out_of_fuel (Calm-refl s v) tt

  quiet : Quiet pb ws inner Calm
  quiet = Calm-Quiet pb ws inner nested-Calm

  reply-Calm :
      (s : Sess) (wr : FrameWriteRequest) (err : Option Error)
      → OwnIds s
      → Post (reply_to_writer net s wr err) (Calm s)
  reply-Calm s wr err v =
      reply_quietly pb ws net inner Calm quiet (λ t w. nested-Calm t (w.0)) s wr err (Calm-refl s v)

  wrote_frame-Calm :
      (s : Sess) (wr : FrameWriteRequest) (err : Option Error)
      → OwnIds s
      → Post (wrote_frame pb ws net inner s wr err) (Calm s)
  wrote_frame-Calm s wr err v =
      wrote_quietly pb ws net inner Calm quiet (λ t w. nested-Calm t (w.0)) s wr err (Calm-refl s v)

  -- What startFrameWrite does to the windows, and the bytes of DATA that it writes.
  abbrev pub Wrote : Sess → FrameWriteRequest → Sess → Type 0
  Wrote s wr t =
      OwnIds t
      × (t.flow ≡ s.flow)
      × (data_in t.written ≡ data_in s.written + length (bytes_of wr))
      × ((id : ℕ) → window_at (t.objects id) ≡ window_at (s.objects id))

  perform_write-Wrote :
      (s : Sess) (wr : FrameWriteRequest) (w : WriteFramer)
      → wr.write ≡ some w
      → OwnIds s
      → Post (perform_write pb ws net inner s wr w) (Wrote s wr)
  unfolding perform_write
  perform_write-Wrote s wr w e v =
      let more = data_in-append s.written (w ∷ []) in
      let one = data_in-one wr w e in
      Post-if (Wrote s wr) (stays_within_buffer w (net s.writes).room)
        (wrote_frame pb ws net inner (begun pb ws net s w) wr (net s.writes).failed) (ok _)
        (leaving (wrote_frame pb ws net inner (begun pb ws net s w) wr (net s.writes).failed)
          (omega (arith, more, one))
          (wrote_frame-Calm (begun pb ws net s w) wr (net s.writes).failed v))
        (v, refl, omega (arith, more, one), λ id. refl)
    where
      leaving :
          (r : Run Sess)
          → data_in (s.written ++ w ∷ []) ≡ data_in s.written + length (bytes_of wr)
          → Post r (Calm (begun pb ws net s w))
          → Post r (Wrote s wr)
      leaving (ok t) h (a, b, c, d) = (a, b, ap data_in c ∙ h, d)
      leaving panic h k = tt
      leaving out_of_fuel h k = tt

  pub start_frame_write-Wrote :
      (s : Sess) (wr : FrameWriteRequest)
      → OwnIds s
      → Post (start_frame_write pb ws net inner s wr) (Wrote s wr)
  unfolding start_frame_write
  start_frame_write-Wrote s wr v = go wr.write
    where
      allowed_first :
          (w : Option WriteFramer) (r : Run Sess)
          → Post r (Wrote s (record wr { write = w }))
          → Post
              (if s.writing_frame
                then panic
                else (allowed_now pb ws net s (record wr { write = w }) >>= λ fine.
                    if fine then r else panic))
              (Wrote s (record wr { write = w }))
      allowed_first w r h =
          let P = Wrote s (record wr { write = w }) in
          Post-if P s.writing_frame panic _ tt (
            Post-any P (allowed_now pb ws net s (record wr { write = w })) _
              (λ fine. Post-if P fine r panic h tt))

      refusing :
          (w : Option WriteFramer) (err : Option Error)
          → length (bytes_of (record wr { write = w })) ≡ 0
          → Post
              (reply_to_writer net
                (record s { writing_frame_async = false })
                (record wr { write = w })
                err)
              (Wrote s (record wr { write = w }))
      refusing w err h =
          widen
            (reply_to_writer net (record s { writing_frame_async = false })
              (record wr { write = w }) err)
            (reply-Calm (record s { writing_frame_async = false }) (record wr { write = w }) err v)
        where
          widen : (r : Run Sess) → Post r (Calm s) → Post r (Wrote s (record wr { write = w }))
          widen (ok t) (a, b, c, d) = (a, b, ap data_in c ∙ (omega (arith, h)), d)
          widen panic x = tt
          widen out_of_fuel x = tt

      go :
          (w : Option WriteFramer)
          → Post
              (start_frame_write pb ws net inner s (record wr { write = w }))
              (Wrote s (record wr { write = w }))
      go none = allowed_first none panic tt
      go (some (write_push_promise n (refused err) h)) =
          allowed_first (some (write_push_promise n (refused err) h)) _
            (refusing (some (write_push_promise n (refused err) h)) (some err) refl)
      go (some w) =
          allowed_first (some w) _ (perform_write-Wrote s (record wr { write = some w }) w refl v)
