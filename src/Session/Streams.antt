-- ===== src/Session/Streams.antt =====
-- session.go: the map of streams, their states, and the counters of open streams.
use h2stream.Prelude.{
  ℕ, ◌+◌, ◌-◌, ◌%◌, ◌^◌, Bool, true, false, Option, none, some, List, [], ◌∷◌, leb, ◌==◌,
  if◌then◌else◌,
}
use h2stream.Session.{StreamState, idle, closed, Stream, Session}

-- Whether a key is in a map.
abbrev pub has : ℕ → List ℕ → Bool
has k [] = false
has k (j ∷ js) = if j == k then true else has k js

-- delete(m, k)
abbrev pub delete : ℕ → List ℕ → List ℕ
delete k [] = []
delete k (j ∷ js) = if j == k then js else j ∷ delete k js

-- An id is odd if a client initiated its stream.
abbrev pub is_odd : ℕ → Bool
is_odd id = id % 2 == 1

-- isPushed
abbrev pub is_pushed : ℕ → Bool
is_pushed id = id % 2 == 0

module _ {B S : Type 0} where
  -- sc.streams[id]
  unfoldable pub find : Session B S → ℕ → Option (Stream B)
  find s id = if has id s.streams then s.objects id else none

  -- A write through a pointer to the stream.
  unfoldable pub set_stream : Session B S → Stream B → Session B S
  set_stream s st = record s { objects = λ id. if st.id == id then some st else s.objects id }

  -- state
  unfoldable pub state_of : Session B S → ℕ → StreamState × Option (Stream B)
  unfolding find
  state_of s id = elim (find s id) [
    | some st ↦ (st.state, some st)
    | none ↦
        if is_odd id
        then (if leb id s.max_client_stream_id then (closed, none) else (idle, none))
        else (if leb id s.max_push_promise_id then (closed, none) else (idle, none))
  ]

  -- curOpenStreams
  unfoldable pub cur_open_streams : Session B S → ℕ
  cur_open_streams s = (s.cur_client_streams + s.cur_pushed_streams) % 2 ^ 32

  -- The counters of newStream and closeStream.
  unfoldable pub count_up : Session B S → ℕ → Session B S
  count_up s id =
      if is_pushed id
      then record s { cur_pushed_streams = (s.cur_pushed_streams + 1) % 2 ^ 32 }
      else record s { cur_client_streams = (s.cur_client_streams + 1) % 2 ^ 32 }

  unfoldable pub count_down : Session B S → ℕ → Session B S
  count_down s id =
      if is_pushed id
      then record s { cur_pushed_streams = (s.cur_pushed_streams + 2 ^ 32 - 1) % 2 ^ 32 }
      else record s { cur_client_streams = (s.cur_client_streams + 2 ^ 32 - 1) % 2 ^ 32 }
