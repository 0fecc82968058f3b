-- ===== src/Errors.antt =====
-- The error values and HTTP/2 error codes that the files share.
-- session.go, session_write.go, pipe.go, databuffer.go and types.go declare the errors; the codes are
-- those of RFC 7540, section 7, which http2.ErrCode names (ErrCode.antt).
use h2stream.Prelude.{ℕ}

pub data Error : Type 0 where
  -- io.EOF
  eof : Error
  -- errReadEmpty, errClosedPipeWrite
  read_empty closed_pipe_write : Error
  -- errDisconnected, errStreamClosed, errHandlerComplete, ErrStreamLimitReached, errHandlerPanicked
  disconnected stream_closed handler_complete stream_limit_reached handler_panicked : Error
  -- http2.StreamError, with its stream and code
  stream_error : ℕ → ℕ → Error
  -- http2.ConnectionError
  connection_error : ℕ → Error
  -- goAwayFlowError
  go_away_flow_error : Error
  -- http2.ErrFrameTooLarge, and an error of the network connection when the peer is gone
  frame_too_large connection_gone : Error
  -- any other error that the frame reader or the network connection reports
  other_error : ℕ → Error
