-- ===== src/Examples/Encoding.antt =====
-- Encoding and writing responses on a connection that records its frames.
use h2stream.Prelude.{
  ◌+◌, ◌*◌, ◌≤◌, length, arith, ℕ, ◌≡◌, refl, ◌++◌, true, none, some, List, [], ◌∷◌, ok,
}
use h2stream.Frame.{write_data, stays_within_buffer, ResHeaders, PushRequest, write_res_headers}
use h2stream.Frame.Encoding.{
  WriteContext, Texts, WireFrame, wire_headers, wire_settings, wire_settings_ack, wire_go_away,
  wire_data, wire_rst_stream, wire_ping, wire_window_update, wire_push_promise, wire_continuation,
  http_code_string, encode_headers, write_response, write_frame, send_response, encode_response,
  encode_keys, encode_values, encode_unless_empty, header_frame, values, entries, keys, common,
  code_string_in,
}
use h2stream.Frame.HeaderBlock.{split_header_block, split_loop, cut}
use h2stream.Frame.Encoding.Fields.{http_code_string-itoa}
use h2stream.Frame.Encoding.Wire.{Accepts}
use h2stream.Frame.Encoding.Room.{Sizes, OneFrame, write_frame-stays_within_buffer}
use Prim.Native.String.{len}

abbrev Recorded : Type 0
Recorded = List ℕ × List WireFrame

-- An encoder that writes the lengths of the name and the value
abbrev recording : WriteContext Recorded
recording = record {
  framer = λ w c. (none, (c.0, c.1 ++ w ∷ []));
  flush = λ c. (none, c);
  write_field = λ k v c. (c.0 ++ len k ∷ len v ∷ [], c.1);
  reset = λ c. ([], c.1);
  buffer = λ c. c.0;
}

abbrev accepts_recording : Accepts recording
accepts_recording = record {
  log = λ c. c.1;
  taken = λ w c. (refl, refl);
  field_kept = λ k v c. refl;
  reset_kept = λ c. refl;
}

abbrev texts : Texts
texts = record {
  to_lower = λ k. k;
  valid_header_field_value = λ v. true;
  sort = λ ks. ks;
  status_text = λ n. "OK";
  itoa = λ n. "200";
}

abbrev response : ResHeaders
response = record {
  stream_id = 1;
  http_res_code = 200;
  h = some (("transfer-encoding", "gzip" ∷ "trailers" ∷ []) ∷ ("a", "b" ∷ []) ∷ []);
  trailers = none;
  end_stream = true;
  date = "";
  content_type = "text";
  content_length = "";
}

abbrev request : PushRequest
request = record { method = "GET"; scheme = "https"; host = "h"; path = "/"; h = none }

abbrev fresh : Recorded
fresh = (9 ∷ [], [])

http_code_string-itoa_example : http_code_string texts 404 ≡ texts.itoa 404
http_code_string-itoa_example = http_code_string-itoa texts 404

-- The value "gzip" is left out.
response_test :
    write_frame texts recording (write_res_headers response) fresh
    ≡ ok (
      none,
      (
        7 ∷ 3 ∷ 17 ∷ 8 ∷ 1 ∷ 1 ∷ 12 ∷ 4 ∷ [],
        wire_headers 1 (7 ∷ 3 ∷ 17 ∷ 8 ∷ 1 ∷ 1 ∷ 12 ∷ 4 ∷ []) true true ∷ [],
      ),
    )
unfolding write_frame write_response send_response encode_response encode_headers encode_keys
    encode_values encode_unless_empty header_frame values entries keys split_header_block split_loop
    cut http_code_string common code_string_in
response_test = refl

abbrev wire_size : WireFrame → ℕ
wire_size (wire_settings s) = 9 + 6 * length s
wire_size wire_settings_ack = 9
wire_size (wire_go_away _ _) = 17
wire_size (wire_data _ _ p) = 9 + length p
wire_size (wire_rst_stream _ _) = 13
wire_size (wire_ping _ d) = 9 + length d
wire_size (wire_window_update _ _) = 13
wire_size (wire_headers _ b _ _) = 9 + length b
wire_size (wire_push_promise _ _ b _) = 13 + length b
wire_size (wire_continuation _ _ b) = 9 + length b

abbrev wire_sizes : Sizes
wire_sizes = record {
  size = wire_size;
  settings_size = λ s. refl;
  settings_ack_size = refl;
  data_size = λ n end_stream p. refl;
  rst_stream_size = λ n code. refl;
  ping_size = λ ack d. refl;
  window_update_size = λ n incr. refl;
  headers_size = λ n b end_stream end_headers. refl;
}

two_bytes :
    (c : Recorded)
    → length (recording.buffer (recording.write_field ":status" "100" (recording.reset c))) ≤ 20
two_bytes c = omega arith

data_fits : stays_within_buffer (write_data 1 (5 ∷ 6 ∷ []) true) 11 ≡ true
unfolding stays_within_buffer
data_fits = refl

write_frame-stays_within_buffer_example :
    OneFrame texts recording accepts_recording wire_sizes 11 fresh
      (write_frame texts recording (write_data 1 (5 ∷ 6 ∷ []) true) fresh)
write_frame-stays_within_buffer_example =
    write_frame-stays_within_buffer texts recording accepts_recording wire_sizes two_bytes
      (write_data 1 (5 ∷ 6 ∷ []) true) 11 fresh data_fits
