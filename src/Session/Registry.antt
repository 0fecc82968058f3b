-- ===== src/Session/Registry.antt =====
-- session.go: how the map of streams, the stream objects, the counters and the largest ids belong
-- together.
pub mod Updates
pub mod Writing
pub mod Closing
pub mod Scheduling
mod NewStream
mod Opening
mod Creating
mod Reading
mod Data
pub mod Serving
pub mod Starting
pub mod Growing
use h2stream.Prelude.{
  ℕ, suc, ◌+◌, ◌-◌, ◌%◌, ◌^◌, ◌≤◌, ◌<◌, ◌≡◌, ◌⊎◌, ◌≢◌, refl, Bool, true, false, Option, none, some,
  List, [], ◌∷◌, leb, ◌==◌, if◌then◌else◌, arith, Bool-cases, inl, inr,
}
use h2stream.Session.{StreamState, idle, closed, Stream, Session}
use h2stream.Session.Streams.{has, delete, is_odd, is_pushed, set_stream}

-- Whether a stream in this state belongs in the map; an idle one is never made.
abbrev pub live : StreamState → Option Bool
live idle = none
live closed = some false
live _ = some true

-- The numbers of keys of the peers' streams: those with an even id, and with an odd one.
abbrev pub pushed_keys : List ℕ → ℕ
pushed_keys [] = 0
pushed_keys (id ∷ ids) = if is_pushed id then suc (pushed_keys ids) else pushed_keys ids

abbrev pub client_keys : List ℕ → ℕ
client_keys [] = 0
client_keys (id ∷ ids) = if is_pushed id then client_keys ids else suc (client_keys ids)

abbrev pub Unique : List ℕ → Type 0
Unique [] = Unit {0}
Unique (id ∷ ids) = (has id ids ≡ false) × Unique ids

has-delete-other : (id k : ℕ) (ids : List ℕ) → k ≢ id → has k (delete id ids) ≡ has k ids
has-delete-other id k [] n = refl
has-delete-other id k (j ∷ js) n = ground (arith, has-delete-other id k js n)

has-delete-same : (id : ℕ) (ids : List ℕ) → Unique ids → has id (delete id ids) ≡ false
has-delete-same id [] u = refl
has-delete-same id (j ∷ js) u = ground (arith, has-delete-same id js u.1)

delete-Unique : (id : ℕ) (ids : List ℕ) → Unique ids → Unique (delete id ids)
delete-Unique id [] u = u
delete-Unique id (j ∷ js) (u, us) = elim (Bool-cases (j == id)) [
  | inl e ↦ rw e us
  | inr e ↦ rw e (ground (arith, has-delete-other id j js), delete-Unique id js us)
]

-- A key that is deleted is no longer counted.
pushed_keys-delete :
    (id : ℕ) (ids : List ℕ)
    → has id ids ≡ true
    → pushed_keys ids
      ≡ (if is_pushed id then suc (pushed_keys (delete id ids)) else pushed_keys (delete id ids))
pushed_keys-delete id [] h = ground arith
pushed_keys-delete id (j ∷ js) h = ground (arith, pushed_keys-delete id js)

client_keys-delete :
    (id : ℕ) (ids : List ℕ)
    → has id ids ≡ true
    → client_keys ids
      ≡ (if is_pushed id then client_keys (delete id ids) else suc (client_keys (delete id ids)))
client_keys-delete id [] h = ground arith
client_keys-delete id (j ∷ js) h = ground (arith, client_keys-delete id js)

-- A stream object of this id: in the map exactly while it is live, and not above the largest id.
abbrev pub Fits : {B : Type 0} → ℕ → Bool → ℕ → Option (Stream B) → Type 0
Fits id mapped bound none = mapped ≡ false
Fits id mapped bound (some st) =
    (st.id ≡ id) × (live st.state ≡ some mapped) × (1 ≤ id) × (id ≤ bound)

-- The largest ids are stream ids, even for pushed streams and odd for the others, or 0 at first.
abbrev pub Numbered : ℕ → ℕ → Type 0
Numbered client pushed =
    (client < 2 ^ 31) × (pushed < 2 ^ 31) × (client ≡ 0 ⊎ client % 2 ≡ 1) × (pushed % 2 ≡ 0)

-- The parts of a session's state that name its streams.
pub record Registry (B : Type 0) (objects : ℕ → Option (Stream B)) (streams : List ℕ)
    (client pushed max_client max_pushed : ℕ) : Type 0 where
  pub unique : Unique streams
  pub objects_fit :
      (id : ℕ)
      → Fits id (has id streams) (if is_odd id then max_client else max_pushed) (objects id)
  pub client_counted : client ≡ client_keys streams % 2 ^ 32
  pub pushed_counted : pushed ≡ pushed_keys streams % 2 ^ 32
  pub numbered : Numbered max_client max_pushed

abbrev pub IsSession : {B S : Type 0} → Session B S → Type 0
IsSession {B} s =
    Registry B s.objects s.streams s.cur_client_streams s.cur_pushed_streams s.max_client_stream_id
      s.max_push_promise_id
