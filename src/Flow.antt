-- ===== src/Flow.antt =====
-- flow.go: a flow-control window, and the connection's window that it may be linked to.
pub mod Laws
use h2stream.Prelude.{
  Bool, true, false, Option, none, some, ◌^◌, ◌-◌, Run, ok, panic, if◌then◌else◌,
}
use h2stream.Prelude.Int.{ℤ, pos, ◌+ℤ◌, ◌-ℤ◌, ltb_ℤ, wrap32}

-- `conn` is what the pointer of that name points to, `none` for the nil pointer: an operation on a
-- linked flow gives the connection's window back with the flow's own.
pub record Flow : Type 0 where
  pub n : ℤ
  pub conn : Option ℤ

-- setConnFlow
pub set_conn_flow : Flow → ℤ → Flow
set_conn_flow f cf = record f { conn = some cf }

unfoldable pub available : Flow → ℤ
available f = elim f.conn [ none ↦ f.n | some c ↦ if ltb_ℤ c f.n then c else f.n ]

-- Go's int32 subtraction and addition.
abbrev sub32 : ℤ → ℤ → ℤ
sub32 a b = wrap32 (a -ℤ b)

abbrev add32 : ℤ → ℤ → ℤ
add32 a b = wrap32 (a +ℤ b)

unfoldable pub take : Flow → ℤ → Run Flow
take f n =
    if ltb_ℤ (available f) n
    then panic
    else ok
        (record { n = sub32 f.n n; conn = elim f.conn [ none ↦ none | some c ↦ some (sub32 c n) ] })

-- (1 << 31) - 1
abbrev pub max_window : ℤ
max_window = pos (2 ^ 31 - 1)

unfoldable pub add : Flow → ℤ → Flow × Bool
add f n =
    let remain = sub32 max_window f.n in
    if ltb_ℤ remain n then (f, false) else (record f { n = add32 f.n n }, true)
