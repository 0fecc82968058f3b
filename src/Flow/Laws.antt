-- ===== src/Flow/Laws.antt =====
-- flow.go: what the window operations do to the exact values of the windows.
use h2stream.Prelude.{
  ◌≡◌, ◌⊎◌, inl, inr, true, false, Option, none, some, arith, ok, panic, Option-cases,
}
use h2stream.Prelude.Int.{ℤ, pos, ◌+ℤ◌, ◌-ℤ◌, ◌≤ℤ◌, wrap32, IsInt32}
use h2stream.Flow.{Flow, available, take, add, max_window}

abbrev IsLink : Option ℤ → Type 0
IsLink none = Unit {0}
IsLink (some c) = IsInt32 c

-- Both windows hold int32 values.
abbrev pub IsFlow : Flow → Type 0
IsFlow f = IsInt32 f.n × IsLink f.conn

-- The connection's window after `n` bytes.
abbrev pub less : Option ℤ → ℤ → Option ℤ
less none n = none
less (some c) n = some (c -ℤ n)

-- A non-negative amount within the available bytes is taken exactly, from the flow's window and
-- from the connection's, and what is available falls by that amount; a larger amount panics.
pub take_exact :
    (f : Flow) (n : ℤ)
    → IsFlow f
    → pos 0 ≤ℤ n
    → ((n ≤ℤ available f)
        × (take f n ≡ ok (record { n = f.n -ℤ n; conn = less f.conn n }))
        × (available (record { n = f.n -ℤ n; conn = less f.conn n }) ≡ available f -ℤ n)
        × IsFlow (record { n = f.n -ℤ n; conn = less f.conn n }))
      ⊎ (¬ (n ≤ℤ available f) × (take f n ≡ panic))
unfolding take available ◌-ℤ◌ wrap32
take_exact f n v p = elim (Option-cases f.conn) [ inl e ↦ ground arith | inr (c, e) ↦ ground arith ]

-- On a window that is not negative, a non-negative increment is added exactly if the sum is at most
-- 2^31 - 1, and is otherwise refused with the window unchanged.
pub add_exact :
    (f : Flow) (n : ℤ)
    → IsFlow f
    → pos 0 ≤ℤ f.n
    → pos 0 ≤ℤ n
    → ((f.n +ℤ n ≤ℤ max_window) × (add f n ≡ (record f { n = f.n +ℤ n }, true)))
      ⊎ (¬ (f.n +ℤ n ≤ℤ max_window) × (add f n ≡ (f, false)))
unfolding add ◌+ℤ◌ ◌-ℤ◌ wrap32
add_exact f n v p q = ground arith

-- On a negative window every increment is refused, however small: the headroom wraps around.
pub add-negative :
    (f : Flow) (n : ℤ) → IsFlow f → IsInt32 n → ¬ (pos 0 ≤ℤ f.n) → pos 0 ≤ℤ n → add f n ≡ (f, false)
unfolding add ◌-ℤ◌ wrap32
add-negative f n v w p q = ground arith
