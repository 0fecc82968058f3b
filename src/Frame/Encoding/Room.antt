-- ===== src/Frame/Encoding/Room.antt =====
-- write.go, staysWithinBuffer against writeFrame.
use h2stream.Prelude.{
  ℕ, ◌+◌, ◌*◌, ◌≤◌, ◌≡◌, refl, sym, ◌∙◌, Bool, true, false, Option, none, List, [], ◌∷◌, ◌++◌,
  length, Run, ok, arith,
}
use h2stream.Errors.{Error}
use h2stream.ErrCode
use h2stream.Frame.{
  Setting, WriteFramer, flush_frame_writer, write_settings, write_go_away, write_data,
  handler_panic_rst, write_stream_error, write_ping, write_ping_ack, write_settings_ack,
  write_res_headers, write_push_promise, write_100_continue_headers_frame, write_window_update,
  stays_within_buffer,
}
use h2stream.Frame.Encoding.{
  WriteContext, Texts, WireFrame, wire_settings, wire_settings_ack, wire_data, wire_rst_stream,
  wire_ping, wire_window_update, wire_headers, write_frame,
}
use h2stream.Frame.Encoding.Wire.{Accepts}

-- The bytes of a frame on the wire: a header of 9 bytes and the payload that RFC 7540 gives.
pub record Sizes : Type 0 where
  pub size : WireFrame → ℕ
  pub settings_size : (s : List Setting) → size (wire_settings s) ≡ 9 + 6 * length s
  pub settings_ack_size : size wire_settings_ack ≡ 9
  pub data_size :
      (n : ℕ) (end_stream : Bool) (p : List ℕ) → size (wire_data n end_stream p) ≡ 9 + length p
  pub rst_stream_size : (n code : ℕ) → size (wire_rst_stream n code) ≡ 13
  pub ping_size : (ack : Bool) (d : List ℕ) → size (wire_ping ack d) ≡ 9 + length d
  pub window_update_size : (n incr : ℕ) → size (wire_window_update n incr) ≡ 13
  pub headers_size :
      (n : ℕ) (b : List ℕ) (end_stream end_headers : Bool)
      → size (wire_headers n b end_stream end_headers) ≡ 9 + length b

module _ (lib : Texts) {C : Type 0} (ctx : WriteContext C) (conn : Accepts ctx) (wire : Sizes) where
  -- One frame of at most `max` bytes
  abbrev pub OneFrame : ℕ → C → Run (Option Error × C) → Type 0
  OneFrame max c run =
      (s' : C) × (run ≡ ok (none, s'))
      × (w : WireFrame) × (conn.log s' ≡ conn.log c ++ w ∷ [])
      × (wire.size w ≤ max)

  frame_written :
      (w : WireFrame) (max : ℕ) (c old : C)
      → conn.log c ≡ conn.log old
      → wire.size w ≤ max
      → OneFrame max old (ok (ctx.framer w c))
  frame_written w max c old h k =
      let (quiet, taken) = conn.taken w c in
      ((ctx.framer w c).1, rw quiet refl, w, rw (sym h) taken, k)

  -- On a connection that takes every frame, whose encoder needs at most 20 bytes for ":status" with
  -- "100", a writer whose staysWithinBuffer is true of `max` writes one frame, of at most `max` bytes.
  pub write_frame-stays_within_buffer :
      ((c : C) → length (ctx.buffer (ctx.write_field ":status" "100" (ctx.reset c))) ≤ 20)
      → (w : WriteFramer) (max : ℕ) (c : C) → stays_within_buffer w max ≡ true
      → OneFrame max c (write_frame lib ctx w c)
  unfolding write_frame stays_within_buffer
  write_frame-stays_within_buffer short flush_frame_writer max c h = absurd (cc)
  write_frame-stays_within_buffer short (write_settings s) max c h =
      let bytes = wire.settings_size s in frame_written _ max c c refl (ground arith)
  write_frame-stays_within_buffer short (write_go_away _ _) max c h = absurd (cc)
  write_frame-stays_within_buffer short (write_data n p end_stream) max c h =
      let bytes = wire.data_size n end_stream p in frame_written _ max c c refl (ground arith)
  write_frame-stays_within_buffer short (handler_panic_rst n) max c h =
      let bytes = wire.rst_stream_size n ErrCode.internal in
      frame_written _ max c c refl (ground arith)
  write_frame-stays_within_buffer short (write_stream_error n code) max c h =
      let bytes = wire.rst_stream_size n code in frame_written _ max c c refl (ground arith)
  write_frame-stays_within_buffer short (write_ping d) max c h =
      let bytes = wire.ping_size false d in frame_written _ max c c refl (ground arith)
  write_frame-stays_within_buffer short (write_ping_ack d) max c h =
      let bytes = wire.ping_size true d in frame_written _ max c c refl (ground arith)
  write_frame-stays_within_buffer short write_settings_ack max c h =
      let bytes = wire.settings_ack_size in frame_written _ max c c refl (ground arith)
  write_frame-stays_within_buffer short (write_res_headers _) max c h = absurd (cc)
  write_frame-stays_within_buffer short (write_push_promise _ _ _) max c h = absurd (cc)
  write_frame-stays_within_buffer short (write_100_continue_headers_frame n) max c h =
      let c' = ctx.write_field ":status" "100" (ctx.reset c) in
      let bytes = wire.headers_size n (ctx.buffer c') false true in
      let few = short c in
      frame_written _ max c' c (conn.field_kept _ _ _ ∙ conn.reset_kept c) (ground arith)
  write_frame-stays_within_buffer short (write_window_update n incr) max c h =
      let bytes = wire.window_update_size n incr in frame_written _ max c c refl (ground arith)
