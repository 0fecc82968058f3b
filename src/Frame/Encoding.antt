-- ===== src/Frame/Encoding.antt =====
-- write.go and utils.go: what the writeFrame methods send, as calls of the writeContext's framer and
-- HPACK encoder. Both are third-party, as are strings.ToLower, sort.Sort, strconv.Itoa, http.StatusText
-- and httplex.ValidHeaderFieldValue; they are parameters. Log lines are left out.
pub mod Wire
pub mod Room
pub mod Fields
use h2stream.Prelude.{
  ℕ, zero, suc, ◌+◌, Bool, true, false, ◌&&◌, not, Option, none, some, List, [], ◌∷◌, map, ◌==◌,
  if◌then◌else◌, Run, ok, panic,
}
use h2stream.Errors.{Error}
use h2stream.ErrCode
use h2stream.Frame.{
  Header, Setting, ResHeaders, PushRequest, Promised, promised, refused, WriteFramer,
  flush_frame_writer, write_settings, write_go_away, write_data, handler_panic_rst,
  write_stream_error, write_ping, write_ping_ack, write_settings_ack, write_res_headers,
  write_push_promise, write_100_continue_headers_frame, write_window_update,
}
use h2stream.Frame.HeaderBlock.{Fragment, split_header_block}
use Prim.Native.String.{String}
use text.Mathlib.Text.{◌==◌ as str_eq}

-- A call of the framer.
pub data WireFrame : Type 0 where
  wire_settings : List Setting → WireFrame
  wire_settings_ack : WireFrame
  wire_go_away : ℕ → ℕ → WireFrame
  wire_data : ℕ → Bool → List ℕ → WireFrame
  wire_rst_stream : ℕ → ℕ → WireFrame
  -- the ACK flag, and the data
  wire_ping : Bool → List ℕ → WireFrame
  wire_window_update : ℕ → ℕ → WireFrame
  -- the stream, the fragment, END_STREAM and END_HEADERS
  wire_headers : ℕ → List ℕ → Bool → Bool → WireFrame
  -- the stream, the promised stream, the fragment, and END_HEADERS
  wire_push_promise : ℕ → ℕ → List ℕ → Bool → WireFrame
  -- the stream, END_HEADERS, and the fragment
  wire_continuation : ℕ → Bool → List ℕ → WireFrame

-- writeContext, over its state: the framer, Flush, and the HPACK encoder with its buffer.
pub record WriteContext (C : Type 0) : Type 0 where
  pub framer : WireFrame → C → Option Error × C
  pub flush : C → Option Error × C
  pub write_field : String → String → C → C
  pub reset : C → C
  pub buffer : C → List ℕ

-- The functions on texts that the code calls.
pub record Texts : Type 0 where
  pub to_lower : String → String
  pub valid_header_field_value : String → Bool
  pub sort : List String → List String
  pub status_text : ℕ → String
  pub itoa : ℕ → String

-- h[k]
unfoldable pub values : Header → String → List String
values [] k = []
values ((j, vv) ∷ h) k = if str_eq j k then vv else values h k

-- Reading the nil map
unfoldable pub entries : Option Header → Header
entries none = []
entries (some h) = h

-- writeResHeaders.writeHeaderBlock
unfoldable pub header_frame : ResHeaders → Fragment → WireFrame
header_frame r x =
    if x.first_frag
    then wire_headers r.stream_id x.frag r.end_stream x.last_frag
    else wire_continuation r.stream_id x.last_frag x.frag

-- promisedID, which stays 0 without an allocated id
unfoldable pub promised_id : Promised → ℕ
promised_id (promised n) = n
promised_id (refused _) = 0

-- writePushPromise.writeHeaderBlock
unfoldable pub push_frame : ℕ → ℕ → Fragment → WireFrame
push_frame stream_id promised_id x =
    if x.first_frag
    then wire_push_promise stream_id promised_id x.frag x.last_frag
    else wire_continuation stream_id x.last_frag x.frag

module _ (lib : Texts) where
  -- sorter.Keys
  unfoldable pub keys : Header → List String
  keys h = lib.sort (map (λ e. e.0) h)

  -- init fills httpCodeStringCommon, for `n` codes from `i` on.
  unfoldable pub common : ℕ → ℕ → List (ℕ × String)
  common zero i = []
  common (suc n) i =
      if str_eq (lib.status_text i) "" then common n (i + 1) else (i, lib.itoa i) ∷ common n (i + 1)

  unfoldable pub code_string_in : List (ℕ × String) → ℕ → String
  code_string_in [] code = lib.itoa code
  code_string_in ((i, s) ∷ t) code = if i == code then s else code_string_in t code

  -- httpCodeString
  unfoldable pub http_code_string : ℕ → String
  http_code_string code = code_string_in (common 900 100) code

  module _ {C : Type 0} (ctx : WriteContext C) where
    -- The loop over the values of one key; `is_te` is isTE.
    unfoldable pub encode_values : String → Bool → List String → C → C
    encode_values k is_te [] c = c
    encode_values k is_te (v ∷ vv) c =
        let skipped = encode_values k is_te vv c in
        let encoded = encode_values k is_te vv (ctx.write_field k v c) in
        if not (lib.valid_header_field_value v)
        then skipped
        else if is_te && not (str_eq v "trailers")
        then skipped
        else encoded

    unfoldable pub encode_keys : Header → List String → C → C
    encode_keys h [] c = c
    encode_keys h (k ∷ ks) c =
        let lower = lib.to_lower k in
        encode_keys h ks (encode_values lower (str_eq lower "transfer-encoding") (values h k) c)

    -- encodeHeaders
    unfoldable pub encode_headers : Option Header → Option (List String) → C → C
    encode_headers h none c = encode_keys (entries h) (keys (entries h)) c
    encode_headers h (some ks) c = encode_keys (entries h) ks c

    unfoldable pub encode_unless_empty : String → String → C → C
    encode_unless_empty k v c = if str_eq v "" then c else ctx.write_field k v c

    -- What writeResHeaders.writeFrame encodes
    unfoldable pub encode_response : ResHeaders → C → C
    encode_response r c =
        let c = ctx.reset c in
        let c =
          if r.http_res_code == 0
          then c
          else ctx.write_field ":status" (http_code_string r.http_res_code) c in
        let c = encode_headers r.h r.trailers c in
        let c = encode_unless_empty "content-type" r.content_type c in
        let c = encode_unless_empty "content-length" r.content_length c in
        encode_unless_empty "date" r.date c

    -- The rest of writeResHeaders.writeFrame
    unfoldable pub send_response : ResHeaders → C → Run (Option Error × C)
    send_response r c = elim (ctx.buffer c) [
      | [] ↦ elim r.trailers [ none ↦ panic | some _ ↦ ok (none, c) ]
      | b ∷ bs ↦ split_header_block (λ x. ctx.framer (header_frame r x)) (b ∷ bs) c
    ]

    -- writeResHeaders.writeFrame
    unfoldable pub write_response : ResHeaders → C → Run (Option Error × C)
    write_response r c = send_response r (encode_response r c)

    -- What writePushPromise.writeFrame encodes
    unfoldable pub encode_push : PushRequest → C → C
    encode_push p c =
        let c = ctx.write_field ":method" p.method (ctx.reset c) in
        let c = ctx.write_field ":scheme" p.scheme c in
        let c = ctx.write_field ":authority" p.host c in
        let c = ctx.write_field ":path" p.path c in encode_headers p.h none c

    -- The rest of writePushPromise.writeFrame
    unfoldable pub send_push : ℕ → Promised → C → Run (Option Error × C)
    send_push n id c = elim (ctx.buffer c) [
      | [] ↦ panic
      | b ∷ bs ↦ split_header_block (λ x. ctx.framer (push_frame n (promised_id id) x)) (b ∷ bs) c
    ]

    -- writePushPromise.writeFrame
    unfoldable pub write_push : ℕ → Promised → PushRequest → C → Run (Option Error × C)
    write_push n id p c = send_push n id (encode_push p c)

    -- writeGoAway.writeFrame, which ignores the error of Flush
    unfoldable pub send_go_away : ℕ → ℕ → C → Option Error × C
    send_go_away max_stream_id code c =
        let (err, c) = ctx.framer (wire_go_away max_stream_id code) c in (err, (ctx.flush c).1)

    -- writeFrame, of all types
    unfoldable pub write_frame : WriteFramer → C → Run (Option Error × C)
    write_frame flush_frame_writer c = ok (ctx.flush c)
    write_frame (write_settings s) c = ok (ctx.framer (wire_settings s) c)
    write_frame (write_go_away n code) c = ok (send_go_away n code c)
    write_frame (write_data n p end_stream) c = ok (ctx.framer (wire_data n end_stream p) c)
    write_frame (handler_panic_rst n) c = ok (ctx.framer (wire_rst_stream n ErrCode.internal) c)
    write_frame (write_stream_error n code) c = ok (ctx.framer (wire_rst_stream n code) c)
    write_frame (write_ping d) c = ok (ctx.framer (wire_ping false d) c)
    write_frame (write_ping_ack d) c = ok (ctx.framer (wire_ping true d) c)
    write_frame write_settings_ack c = ok (ctx.framer wire_settings_ack c)
    write_frame (write_res_headers r) c = write_response r c
    write_frame (write_push_promise n id p) c = write_push n id p c
    write_frame (write_100_continue_headers_frame n) c =
        let c = ctx.write_field ":status" "100" (ctx.reset c) in
        ok (ctx.framer (wire_headers n (ctx.buffer c) false true) c)
    write_frame (write_window_update n incr) c = ok (ctx.framer (wire_window_update n incr) c)
