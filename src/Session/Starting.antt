-- ===== src/Session/Starting.antt =====
-- session.go, newSession and the part of serve before its loop; session_read.go, readPreface;
-- session_config.go. What the network gives before the loop is a parameter, and so is the preface of
-- the package http2. The loop's own goroutine, readFrames, is not modelled: it only passes frames on.
use h2stream.Prelude.{
  ℕ, ◌-◌, ◌*◌, ◌%◌, ◌^◌, ◌&&◌, Bool, true, false, Option, none, some, List, [], ◌∷◌, ◌==◌,
  if◌then◌else◌, Run, ok, ◌>>=◌,
}
use h2stream.Prelude.Int.{ℤ, pos, negsuc, ◌+ℤ◌, ◌-ℤ◌, wrap32, ltb_ℤ, pos_part}
use h2stream.Flow
use h2stream.Frame.{write_settings}
use h2stream.Pipe.{PipeBuffer}
use h2stream.WriteQueue.{FrameWriteRequest}
use h2stream.Session.{Session, WriteScheduler}
use h2stream.Session.Writing.{write_frame}
use h2stream.Session.Windows.{window_of, send_window_update}
use h2stream.Session.Reading.{int32}

-- SessionConfig; a time.Duration is a number of nanoseconds.
pub record SessionConfig : Type 0 where
  pub initial_session_window_size : ℕ
  pub initial_stream_window_size : ℕ
  pub max_frame_size : ℕ
  pub header_table_size : ℕ
  pub max_header_bytes : ℕ
  pub write_buffer_size : ℕ
  pub read_buffer_size : ℕ
  pub connection_timeout : ℕ
  pub idle_timeout : ℕ

-- The constants of http2_defaults.go; http.DefaultMaxHeaderBytes is an argument.
abbrev pub default_window_size : ℕ
default_window_size = 65535

abbrev pub max_frame_len : ℕ
max_frame_len = 16384

abbrev pub init_header_table_size : ℕ
init_header_table_size = 4096

abbrev pub default_write_buf_size : ℕ
default_write_buf_size = 32 * 1024

-- DefaultSessionConfig
abbrev pub default_session_config : ℕ → SessionConfig
default_session_config max_header_bytes = record {
  initial_session_window_size = default_window_size;
  initial_stream_window_size = default_window_size;
  max_frame_size = max_frame_len;
  header_table_size = init_header_table_size;
  max_header_bytes = max_header_bytes;
  write_buffer_size = default_write_buf_size;
  read_buffer_size = default_write_buf_size;
  connection_timeout = 10 * 10 ^ 9;
  idle_timeout = 0;
}

-- uint32(n), for an int32
abbrev pub uint32 : ℤ → ℕ
uint32 (pos n) = n % 2 ^ 32
uint32 (negsuc n) = 2 ^ 32 - 1 - n % 2 ^ 32

-- What the connection gives during the handshake: the bytes that io.ReadFull reads, if it does, and
-- whether the client's preface is written and the buffer flushed.
pub record Greeting : Type 0 where
  pub received : Option (List ℕ)
  pub preface_written : Bool
  pub flushed : Bool

abbrev equal : List ℕ → List ℕ → Bool
equal [] [] = true
equal (x ∷ xs) (y ∷ ys) = x == y && equal xs ys
equal _ _ = false

-- readPreface: whether it succeeds.
unfoldable pub read_preface : List ℕ → Greeting → Bool
read_preface client_preface g = elim g.received [
  | none ↦ false
  | some bytes ↦ equal bytes client_preface
]

module _ (pb : PipeBuffer) (ws : WriteScheduler) where
  abbrev pub Sess : Type 0
  Sess = Session pb.Buf ws.Sched

  -- newSession, with the scheduler and the buffer of a new stream given; the fields that are not set
  -- have their zero values. Serve sets the handler.
  unfoldable pub new_session : Bool → Bool → SessionConfig → ws.Sched → pb.Buf → Sess
  new_session server has_handler config sched fresh_buffer =
      let (flow, _) = Flow.add (window_of (pos 0)) (int32 config.initial_session_window_size) in
      let (inflow, _) = Flow.add (window_of (pos 0)) (int32 config.initial_session_window_size) in
      record {
        server = server;
        has_handler = has_handler;
        flow = flow.n;
        inflow = inflow.n;
        sched = sched;
        objects = λ _. none;
        streams = [];
        fresh_buffer = fresh_buffer;
        cur_client_streams = 0;
        cur_pushed_streams = 0;
        max_client_stream_id = 0;
        max_push_promise_id = 0;
        saw_first_settings = false;
        need_to_send_settings_ack = false;
        unacked_settings = pos 0;
        initial_stream_send_window_size = int32 config.initial_stream_window_size;
        initial_stream_recv_window_size = int32 config.initial_stream_window_size;
        header_table_size = config.header_table_size;
        peer_max_header_list_size = 0;
        push_enabled = false;
        adv_max_streams = 2 ^ 32 - 1;
        peer_max_streams = 2 ^ 32 - 1;
        max_frame_size = int32 config.max_frame_size;
        writing_frame = false;
        writing_frame_async = false;
        needs_frame_flush = false;
        in_go_away = false;
        in_frame_schedule_loop = false;
        need_to_send_go_away = false;
        go_away_code = 0;
        shutdown_timer = false;
        idle_timeout = config.idle_timeout;
        idle_timer = false;
        in_flight = none;
        writes = 0;
        written = [];
        replies = [];
        started = [];
      }

  -- The settings that serve sends first.
  unfoldable pub first_settings : Sess → FrameWriteRequest
  first_settings s = record {
    write = some (
        write_settings (
          record { id = 2; val = 0 }
          ∷ record { id = 3; val = s.adv_max_streams }
          ∷ record { id = 4; val = uint32 s.initial_stream_recv_window_size }
          ∷ record { id = 5; val = uint32 s.max_frame_size }
          ∷ []));
    stream = none;
    done = none;
  }

  -- Whether the handshake before the first frames succeeds.
  unfoldable pub greeted : List ℕ → Sess → Greeting → Bool
  unfolding read_preface
  greeted client_preface s g =
      (if s.server then read_preface client_preface g else g.preface_written) && g.flushed

  -- serve before its loop: whether the loop is entered.
  unfoldable pub handshake : (Sess → Run Sess) → List ℕ → Sess → Greeting → Run (Bool × Sess)
  unfolding first_settings greeted
  handshake schedule client_preface s g =
      let begun : Run (Bool × Sess) = write_frame ws schedule s (first_settings s) >>= λ s'.
      let s'' : Sess = record s' { unacked_settings = s'.unacked_settings +ℤ pos 1 } in
      let diff = wrap32 (Flow.available (window_of s''.inflow) -ℤ pos default_window_size) in
      (if ltb_ℤ (pos 0) diff
        then send_window_update ws schedule s'' none (pos_part diff)
        else ok s'')
      >>= λ t. ok (true, t) in
      if greeted client_preface s g then begun else ok (false, s)
