-- ===== src/ErrCode.antt =====
-- The error codes of RFC 7540, section 7, under the names of http2.ErrCode.
use h2stream.Prelude.{ℕ}

abbrev pub no_error : ℕ
no_error = 0

abbrev pub protocol : ℕ
protocol = 1

abbrev pub flow_control : ℕ
flow_control = 3

abbrev pub closed_stream : ℕ
closed_stream = 5

abbrev pub frame_size : ℕ
frame_size = 6

abbrev pub refused_stream : ℕ
refused_stream = 7

abbrev pub internal : ℕ
internal = 2
