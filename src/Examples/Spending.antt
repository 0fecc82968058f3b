-- ===== src/Examples/Spending.antt =====
-- The priority scheduler in a session with one stream, which sends and receives DATA.
use h2stream.Prelude.{
  ℕ, ◌≡◌, refl, sym, false, [], ◌∷◌, ap, subst, ◌∙◌, true, Bool-cases, ==→≡, ◌==◌, inl, inr, Option,
  some, none, arith, Run, ok, Post,
}
use h2stream.Prelude.Int.{ℤ, IsInt32, pos}
use h2stream.Flow.{Flow}
use h2stream.Flow.Laws.{IsFlow}
use h2stream.DataBuffer.{empty_buffer}
use h2stream.Priority.{set}
use h2stream.Priority.Scheduler.{PriorityWriteScheduler, priority_write_scheduler, pop}
use h2stream.Session.{Session, Stream, WriteScheduler, opened}
use h2stream.Session.Opening.{fresh_stream}
use h2stream.Session.Starting.{default_session_config, new_session}
use h2stream.Session.Schedule.{schedule_frame_write}
use h2stream.Session.Reading.{process_data}
use h2stream.Session.Announcing.{announcing, Honest}
use h2stream.Session.Announcing.Rounds.{schedule_frame_write-Honest}
use h2stream.Session.Announcing.Data.{Received, process_data-Received}
use h2stream.Session.Spending.{Paid, window_at, some_same}
use h2stream.Session.Spending.Balance.{HasWindows, Balanced}
use h2stream.Session.Spending.Payment.{schedule_frame_write-Balanced}
use h2stream.Session.Spending.Popping.{pop-Paid, priority-Paying}
use h2stream.Examples.Serving.{buffer, network}
use h2stream.Examples.Priority.{scheduler, flows, floats}

abbrev priority : WriteScheduler
priority = priority_write_scheduler floats (λ r ks. ks) 20

abbrev S : Type 0
S = Session buffer.Buf PriorityWriteScheduler

abbrev made : S
made =
    new_session buffer priority true true (default_session_config 4096) scheduler (tt, empty_buffer)

abbrev one : Stream buffer.Buf
one = record (fresh_stream buffer priority made 1 opened) { flow = pos 100 }

-- Three bytes wait for stream 1; the connection's window has two left.
abbrev blocked : S
blocked = record made { flow = pos 2; objects = set (λ _. none) 1 (some one) }

abbrev flow_in : Run S → Option ℤ
flow_in (ok s) = some s.flow
flow_in _ = none

-- The only key of a map with one entry
only_entry :
    {A : Type 0} (x y : A) (id : ℕ) → set (λ _. none) 1 (some x) id ≡ some y → (1 ≡ id) × (x ≡ y)
only_entry x y id = elim (Bool-cases (1 == id)) [
  | inl e ↦ rw e (λ h. (==→≡ 1 id e, some_same x y h))
  | inr e ↦ rw e (λ h. absurd (cc))
]

blocked-HasWindows : HasWindows buffer priority network blocked
unfolding fresh_stream new_session
blocked-HasWindows = (
  λ id st e. let (k, same) = only_entry one st id e in ap (λ x. x.id) (sym same) ∙ k,
  omega arith,
  windows,
)
  where
    at :
        (id : ℕ) (z : ℤ) (o : Option (Stream buffer.Buf))
        → blocked.objects id ≡ o
        → window_at o ≡ some z
        → IsInt32 z
    at id z none e h = absurd (cc)
    at id z (some st) e h =
        let (_, same) = only_entry one st id e in
        subst IsInt32 (ap (λ x. x.flow) same ∙ some_same st.flow z h) (omega arith)

    windows : (id : ℕ) (z : ℤ) → window_at (blocked.objects id) ≡ some z → IsInt32 z
    windows id z h = at id z (blocked.objects id) refl h

schedule_frame_write-Balanced_example :
    Post
      (schedule_frame_write buffer priority network 20 blocked)
      (λ t. HasWindows buffer priority network t × Balanced buffer priority network blocked t)
schedule_frame_write-Balanced_example =
    schedule_frame_write-Balanced buffer priority network (priority-Paying floats (λ r ks. ks) 20)
      20 blocked blocked-HasWindows

flows-IsFlow : (id : ℕ) (f : Flow) → flows id ≡ some f → IsFlow f
flows-IsFlow id f e =
    let (_, same) = only_entry (record { n = pos 100; conn = some (pos 2) }) f id e in
    subst IsFlow same (omega arith)

pop-Paid_example :
    Post (pop floats (λ r ks. ks) 20 flows (pos 16384) scheduler) (λ (o, _). Paid flows o)
pop-Paid_example = pop-Paid floats (λ r ks. ks) 20 flows (pos 16384) scheduler flows-IsFlow

abbrev counting : WriteScheduler
counting = announcing priority

-- Stream 1 is open, with 65535 bytes in both receive windows.
abbrev receiving : Session buffer.Buf (PriorityWriteScheduler × ℕ)
receiving =
    let made' =
      new_session buffer counting true true (default_session_config 4096) (scheduler, 0)
        (tt, empty_buffer) in
    record made' {
      inflow = pos 65535;
      streams = 1 ∷ [];
      objects =
          set (λ _. none) 1
            (some (record (fresh_stream buffer counting made' 1 opened) { inflow = pos 65535 }));
    }

schedule_frame_write-Honest_example :
    Post (schedule_frame_write buffer counting network 20 receiving) (Honest receiving)
schedule_frame_write-Honest_example =
    schedule_frame_write-Honest buffer priority network 20 receiving (omega arith)

-- Two bytes of data and one of padding
process_data-Received_example :
    Post
      (process_data buffer counting
        (schedule_frame_write buffer counting network 20)
        receiving
        1
        (7 ∷ 8 ∷ [])
        3
        false)
      (Received buffer priority network 20 receiving 1 3)
process_data-Received_example =
    process_data-Received buffer priority network 20 receiving 1 (7 ∷ 8 ∷ []) 3 false (omega arith)
      (omega arith)
