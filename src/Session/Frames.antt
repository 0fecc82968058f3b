-- ===== src/Session/Frames.antt =====
-- types.go: the frames that a session reads, as the framer of golang.org/x/net/http2 hands them over.
use h2stream.Prelude.{ℕ, Bool, List, Option}
use Prim.Native.String.{String}
use h2stream.Frame.{Setting}
use h2stream.Session.{PriorityParam}

-- http2.MetaHeadersFrame: the fields in order, and what its methods report.
pub record MetaHeaders : Type 0 where
  pub stream_id : ℕ
  pub fields : List (String × String)
  pub pseudo_fields : List (String × String)
  pub regular_fields : List (String × String)
  pub truncated : Bool
  pub stream_ended : Bool
  pub priority : Option PriorityParam

pub data Frame : Type 0 where
  -- IsAck, and the settings
  settings_frame : Bool → List Setting → Frame
  meta_headers_frame : MetaHeaders → Frame
  -- the stream, and the increment
  window_update_frame : ℕ → ℕ → Frame
  -- IsAck, the stream, and the eight bytes
  ping_frame : Bool → ℕ → List ℕ → Frame
  -- the stream, the data, the length with its padding, and END_STREAM
  data_frame : ℕ → List ℕ → ℕ → Bool → Frame
  -- the stream, and the code
  rst_stream_frame : ℕ → ℕ → Frame
  priority_frame : ℕ → PriorityParam → Frame
  -- the code
  go_away_frame : ℕ → Frame
  push_promise_frame : Frame
  other_frame : Frame

-- http2.SettingID: the identifiers of RFC 7540, section 6.5.2.
abbrev pub setting_header_table_size : ℕ
setting_header_table_size = 1

abbrev pub setting_enable_push : ℕ
setting_enable_push = 2

abbrev pub setting_max_concurrent_streams : ℕ
setting_max_concurrent_streams = 3

abbrev pub setting_initial_window_size : ℕ
setting_initial_window_size = 4

abbrev pub setting_max_frame_size : ℕ
setting_max_frame_size = 5

abbrev pub setting_max_header_list_size : ℕ
setting_max_header_list_size = 6
