-- ===== src/Frame/HeaderBlock.antt =====
-- write.go, splitHeaderBlock: a header block as one HEADERS (or PUSH_PROMISE) and CONTINUATION frames.
pub mod Laws
use h2stream.Prelude.{
  ℕ, zero, suc, ◌+◌, ◌-◌, ◌≤◌, ◌<◌, ◌≡◌, refl, ap, ◌∙◌, ◌≢◌, Bool, true, false, List, [], ◌∷◌, ◌++◌,
  length, take, drop, length-take, length-drop, take-append-drop, arith, ltb, ◌==◌, if◌then◌else◌,
  Run, ok, out_of_fuel, ◌>>=◌, Option, none, some,
}
use h2stream.Errors.{Error}

-- A call of `fn`: the fragment, firstFrag and lastFrag.
pub record Fragment : Type 0 where
  pub frag : List ℕ
  pub first_frag : Bool
  pub last_frag : Bool

abbrev pub max_frame_size : ℕ
max_frame_size = 16384

-- The part of the block that the next frame carries.
unfoldable pub cut : List ℕ → List ℕ
cut b = if ltb max_frame_size (length b) then take max_frame_size b else b

-- The loop, over what it does between calls of `fn`; `fn` may fail, in a state `S` of its own.
module _ {S : Type 0} (fn : Fragment → S → Option Error × S) where
  unfoldable pub split_loop : ℕ → List ℕ → Bool → S → Run (Option Error × S)
  split_loop zero header_block first s = out_of_fuel
  split_loop (suc f) header_block first s =
      let frag = cut header_block in
      let left = drop (length frag) header_block in
      let (err, s') =
        fn (record { frag = frag; first_frag = first; last_frag = length left == 0 }) s in
      let rest = split_loop f left false s' in
      elim header_block [
        | [] ↦ ok (none, s)
        | _ ∷ _ ↦ elim err [ some e ↦ ok (some e, s') | none ↦ rest ]
      ]

  -- splitHeaderBlock
  unfoldable pub split_header_block : List ℕ → S → Run (Option Error × S)
  split_header_block header_block s = split_loop (suc (length header_block)) header_block true s
