-- ===== src/Frame/Encoding/Wire.antt =====
-- write.go, writeResHeaders.writeFrame and writePushPromise.writeFrame: the frames that are written.
use h2stream.Prelude.{
  ℕ, zero, suc, ◌<◌, ◌≡◌, ◌≢◌, refl, ap, sym, subst, ◌∙◌, ◌⊎◌, Bool, true, false, Option, none,
  List, [], ◌∷◌, ◌++◌, append_assoc, append-nil, length, drop, length-drop, ◌==◌, map, Run, ok,
  panic, arith,
}
use h2stream.Errors.{Error}
use h2stream.Frame.{ResHeaders}
use h2stream.Frame.HeaderBlock.{Fragment, cut, split_loop, split_header_block}
use h2stream.Frame.HeaderBlock.Laws.{
  record_call, join, AreFrames, cut_facts, split_header_block-Frames,
}
use h2stream.Frame.Encoding.{WriteContext, Texts, WireFrame, header_frame, push_frame}
use h2stream.Frame.Encoding.Fields.{Field, encode_all}
use mathlib.Core.List.{map-append}
use Prim.Native.String.{String}

-- A connection that takes every frame: `log` is what it has taken, and encoding does not touch it.
pub record Accepts {C : Type 0} (ctx : WriteContext C) : Type 0 where
  pub log : C → List WireFrame
  pub taken :
      (w : WireFrame) (c : C)
      → ((ctx.framer w c).0 ≡ none) × (log (ctx.framer w c).1 ≡ log c ++ w ∷ [])
  pub field_kept : (k v : String) (c : C) → log (ctx.write_field k v c) ≡ log c
  pub reset_kept : (c : C) → log (ctx.reset c) ≡ log c

-- The loop does with `fn` what it does with calls that are recorded.
module _ {S W : Type 0} (fn : Fragment → S → Option Error × S) (log : S → List W)
    (g : Fragment → W) where
  pub split_loop-logs :
      ((x : Fragment) (s : S) → ((fn x s).0 ≡ none) × (log (fn x s).1 ≡ log s ++ g x ∷ []))
      → (f : ℕ) (b : List ℕ) (first : Bool) (xs : List Fragment) (s : S) (old : List W)
      → length b < f
      → log s ≡ old ++ map g xs
      → (ys : List Fragment) × (s' : S) × (split_loop record_call f b first xs ≡ ok (none, ys))
        × (split_loop fn f b first s ≡ ok (none, s'))
        × (log s' ≡ old ++ map g ys)
  unfolding split_loop
  split_loop-logs takes zero b first xs s old h e = absurd (omega arith)
  split_loop-logs takes (suc f) [] first xs s old h e = (xs, s, refl, refl, e)
  split_loop-logs takes (suc f) (c ∷ b) first xs s old h e =
      let left = drop (length (cut (c ∷ b))) (c ∷ b) in
      let x : Fragment = record {
        frag = cut (c ∷ b);
        first_frag = first;
        last_frag = length left == 0;
      } in
      let shorter = length-drop (length (cut (c ∷ b))) (c ∷ b) in
      let filled = (cut_facts (c ∷ b)).2 (omega arith) in
      let more : log (fn x s).1 ≡ old ++ map g (xs ++ x ∷ []) =
        (takes x s).1
        ∙ ap (λ l. l ++ g x ∷ []) e
        ∙ append_assoc old (map g xs) (g x ∷ [])
        ∙ ap (◌++◌ old) (sym (map-append g xs (x ∷ []))) in
      let (ys, s', e₁, e₂, e₃) =
        split_loop-logs takes f left false (xs ++ x ∷ []) (fn x s).1 old (omega arith) more in
      (ys, s', e₁, rw ((takes x s).0, split_loop) e₂, e₃)

ok_same :
    {xs ys : List Fragment}
    → ◌≡◌ {A = Run (Option Error × List Fragment)} (ok (none, xs)) (ok (none, ys))
    → xs ≡ ys
ok_same h = cc

-- The fragments of a block, sent through `fn`
pub split_header_block-logs :
    {S W : Type 0} (fn : Fragment → S → Option Error × S) (log : S → List W) (g : Fragment → W)
    → ((x : Fragment) (s : S) → ((fn x s).0 ≡ none) × (log (fn x s).1 ≡ log s ++ g x ∷ []))
    → (b : List ℕ) (s : S)
    → (ys : List Fragment) × (s' : S) × (split_header_block fn b s ≡ ok (none, s'))
      × (log s' ≡ log s ++ map g ys)
      × (join ys ≡ b)
      × AreFrames true ys
unfolding split_header_block
split_header_block-logs fn log g takes b s =
    let (ys, s', e₁, e₂, e₃) =
      split_loop-logs fn log g takes (suc (length b)) b true [] s (log s) (omega arith)
        (sym (append-nil (log s))) in
    let (zs, e, joined, frames) = split_header_block-Frames b in
    let same : ys ≡ zs = ok_same (sym e₁ ∙ e) in
    (ys, s', e₂, e₃, ap join same ∙ joined, subst (AreFrames true) (sym same) frames)

module _ (lib : Texts) {C : Type 0} (ctx : WriteContext C) (conn : Accepts ctx) where
  -- The frames that carry the buffer of `c`, one for each fragment
  abbrev pub Carried : (Fragment → WireFrame) → C → C → C → Type 0
  Carried g old c s' =
      (ys : List Fragment) × (conn.log s' ≡ conn.log old ++ map g ys)
      × (join ys ≡ ctx.buffer c)
      × AreFrames true ys

  -- How writing a response ends, with the fields `xs` and the buffer's content known.
  abbrev pub Responds : ResHeaders → List Field → C → Run (Option Error × C) → Type 0
  Responds r xs old run =
      let c = encode_all ctx xs (ctx.reset old) in
      ((ctx.buffer c ≡ []) × (r.trailers ≡ none) × (run ≡ panic))
      ⊎ ((ctx.buffer c ≡ [])
          × (r.trailers ≢ none)
          × (s' : C) × (run ≡ ok (none, s'))
          × (conn.log s' ≡ conn.log old))
      ⊎ ((ctx.buffer c ≢ []) × (s' : C) × (run ≡ ok (none, s')) × Carried (header_frame r) old c s')

  -- How writing a push promise ends.
  abbrev pub Promises : ℕ → ℕ → List Field → C → Run (Option Error × C) → Type 0
  Promises n id xs old run =
      let c = encode_all ctx xs (ctx.reset old) in
      ((ctx.buffer c ≡ []) × (run ≡ panic))
      ⊎ ((ctx.buffer c ≢ [])
          × (s' : C) × (run ≡ ok (none, s'))
          × Carried (push_frame n id) old c s')
