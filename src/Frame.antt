-- ===== src/Frame.antt =====
-- write.go and types.go: the frames that a session writes, as the values of writeFramer.
-- A frame is its fields; the calls of the framer and of the HPACK encoder are in Frame/Encoding.antt.
pub mod HeaderBlock
pub mod Encoding
use h2stream.Prelude.{
  ℕ, ◌+◌, ◌*◌, Bool, true, false, Option, none, some, List, [], ◌∷◌, length, leb, Run, ok, panic,
}
use h2stream.Errors.{Error}
use Prim.Native.String.{String}

-- http.Header: each key with its values.
abbrev pub Header : Type 0
Header = List (String × List String)

-- http2.Setting
pub record Setting : Type 0 where
  pub id : ℕ
  pub val : ℕ

-- writeResHeaders; `none` is the nil map and the nil slice.
pub record ResHeaders : Type 0 where
  pub stream_id : ℕ
  pub http_res_code : ℕ
  pub h : Option Header
  pub trailers : Option (List String)
  pub end_stream : Bool
  pub date : String
  pub content_type : String
  pub content_length : String

-- writePushPromise: `allocated` is what allocatePromisedID returns.
pub data Promised : Type 0 where
  promised : ℕ → Promised
  refused : Error → Promised

-- method, url and h of a writePushPromise; `path` is what the URL's RequestURI returns.
pub record PushRequest : Type 0 where
  pub method : String
  pub scheme : String
  pub host : String
  pub path : String
  pub h : Option Header

pub data WriteFramer : Type 0 where
  flush_frame_writer : WriteFramer
  write_settings : List Setting → WriteFramer
  -- the last stream id, and the code
  write_go_away : ℕ → ℕ → WriteFramer
  -- the stream, the bytes, and END_STREAM
  write_data : ℕ → List ℕ → Bool → WriteFramer
  handler_panic_rst : ℕ → WriteFramer
  -- the stream, and the code
  write_stream_error : ℕ → ℕ → WriteFramer
  write_ping : List ℕ → WriteFramer
  write_ping_ack : List ℕ → WriteFramer
  write_settings_ack : WriteFramer
  write_res_headers : ResHeaders → WriteFramer
  -- the pushing stream, the id that is allocated for the pushed one, and the request
  write_push_promise : ℕ → Promised → PushRequest → WriteFramer
  write_100_continue_headers_frame : ℕ → WriteFramer
  -- the stream, 0 for the connection, and the increment
  write_window_update : ℕ → ℕ → WriteFramer

-- writeEndsStream, which panics on nil.
unfoldable pub write_ends_stream : Option WriteFramer → Run Bool
write_ends_stream none = panic
write_ends_stream (some (write_data _ _ end_stream)) = ok end_stream
write_ends_stream (some (write_res_headers r)) = ok r.end_stream
write_ends_stream (some _) = ok false

abbrev pub frame_header_len : ℕ
frame_header_len = 9

-- staysWithinBuffer, of all types
unfoldable pub stays_within_buffer : WriteFramer → ℕ → Bool
stays_within_buffer flush_frame_writer max = false
stays_within_buffer (write_settings s) max = leb (frame_header_len + 6 * length s) max
stays_within_buffer (write_go_away _ _) max = false
stays_within_buffer (write_data _ p _) max = leb (frame_header_len + length p) max
stays_within_buffer (handler_panic_rst _) max = leb (frame_header_len + 4) max
stays_within_buffer (write_stream_error _ _) max = leb (frame_header_len + 4) max
stays_within_buffer (write_ping d) max = leb (frame_header_len + length d) max
stays_within_buffer (write_ping_ack d) max = leb (frame_header_len + length d) max
stays_within_buffer write_settings_ack max = leb frame_header_len max
stays_within_buffer (write_res_headers _) max = false
stays_within_buffer (write_push_promise _ _ _) max = false
-- 9 + 2 * (len(":status") + len("100"))
stays_within_buffer (write_100_continue_headers_frame _) max = leb (9 + 2 * (7 + 3)) max
stays_within_buffer (write_window_update _ _) max = leb (frame_header_len + 4) max
