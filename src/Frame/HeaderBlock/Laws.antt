-- ===== src/Frame/HeaderBlock/Laws.antt =====
-- write.go, splitHeaderBlock: the fragments against the block.
use h2stream.Prelude.{
  ℕ, zero, suc, ◌≤◌, ◌<◌, ◌≡◌, refl, ap, ◌∙◌, ◌≢◌, ◌⊎◌, inl, inr, Bool, true, false, Bool-cases,
  List, [], ◌∷◌, ◌++◌, append_assoc, append-nil, length, take, drop, length-take, length-drop,
  take-append-drop, drop_all, arith, ltb, ltb→lt, Option-cases, length-append, ◌==◌, ok, Option,
  none, some,
}
use h2stream.Errors.{Error}
use h2stream.Frame.HeaderBlock.{Fragment, max_frame_size, cut, split_loop, split_header_block}

-- A `fn` that succeeds and records its calls.
abbrev pub record_call : Fragment → List Fragment → Option Error × List Fragment
record_call x xs = (none, xs ++ x ∷ [])

abbrev pub join : List Fragment → List ℕ
join [] = []
join (x ∷ xs) = x.frag ++ join xs

-- A fragment is not empty and fits a frame; firstFrag is set on the first one only, lastFrag on the
-- last one only.
abbrev pub AreFrames : Bool → List Fragment → Type 0
AreFrames first [] = Unit {0}
AreFrames first (x ∷ []) =
    (0 < length x.frag)
    × (length x.frag ≤ max_frame_size)
    × (x.first_frag ≡ first)
    × (x.last_frag ≡ true)
AreFrames first (x ∷ y ∷ xs) =
    (0 < length x.frag)
    × (length x.frag ≤ max_frame_size)
    × (x.first_frag ≡ first)
    × (x.last_frag ≡ false)
    × AreFrames false (y ∷ xs)

first_long : (x : Fragment) (xs : List Fragment) → AreFrames false (x ∷ xs) → 0 < length x.frag
first_long x [] a = a.0
first_long x (y ∷ xs) a = a.0

last_cases :
    (ys : List Fragment) (left : List ℕ)
    → join ys ≡ left
    → (ys ≡ [] → left ≡ [])
    → AreFrames false ys
    → (((length left == 0) ≡ true) × (ys ≡ [])) ⊎ (((length left == 0) ≡ false) × (ys ≢ []))
last_cases [] left j k a = inl (rw (k refl) refl, refl)
last_cases (y ∷ ys) left j k a =
    let size = ap length j ∙ refl in
    let parts = length-append y.frag (join ys) in
    let long : 0 < length left = omega (arith, first_long y ys a) in inr (ground arith, λ e. cc)

AreFrames-cons :
    (x : Fragment) (xs : List Fragment)
    → 0 < length x.frag
    → length x.frag ≤ max_frame_size
    → ((x.last_frag ≡ true) × (xs ≡ [])) ⊎ ((x.last_frag ≡ false) × (xs ≢ []))
    → AreFrames false xs
    → AreFrames x.first_frag (x ∷ xs)
AreFrames-cons x [] h k (inl (l, _)) a = (h, k, refl, l)
AreFrames-cons x [] h k (inr (_, n)) a = absurd (n refl)
AreFrames-cons x (y ∷ xs) h k (inl (_, e)) a = absurd (cc)
AreFrames-cons x (y ∷ xs) h k (inr (l, _)) a = (h, k, refl, l, a)

pub cut_facts :
    (b : List ℕ)
    → (cut b ++ drop (length (cut b)) b ≡ b)
      × (length (cut b) ≤ max_frame_size)
      × (0 < length b → 0 < length (cut b))
unfolding cut
cut_facts b = elim (Bool-cases (ltb max_frame_size (length b))) [
  | inl e ↦
      let long : length (take max_frame_size b) ≡ max_frame_size =
        omega (arith, ltb→lt _ _ e, length-take max_frame_size b) in
      rw (e, long) (take-append-drop max_frame_size b, omega arith, λ _. omega arith)
  | inr e ↦ rw e (rw (drop_all (length b) b (omega arith)) (append-nil b), ground arith, λ h. h)
]

-- The calls that the loop makes on `b`.
abbrev Frames : Bool → List ℕ → List Fragment → Type 0
Frames first b ys = (join ys ≡ b) × AreFrames first ys × (ys ≡ [] → b ≡ [])

split_loop-Frames :
    (f : ℕ) (b : List ℕ) (first : Bool) (xs : List Fragment)
    → length b < f
    → (ys : List Fragment) × (split_loop record_call f b first xs ≡ ok (none, xs ++ ys))
      × Frames first b ys
unfolding split_loop
split_loop-Frames zero b first xs h = absurd (omega arith)
split_loop-Frames (suc f) [] first xs h = ([], rw (append-nil xs), (refl, tt, λ e. refl))
split_loop-Frames (suc f) (c ∷ b) first xs h =
    let (whole, small, some_bytes) = cut_facts (c ∷ b) in
    let left = drop (length (cut (c ∷ b))) (c ∷ b) in
    let x : Fragment = record {
      frag = cut (c ∷ b);
      first_frag = first;
      last_frag = length left == 0;
    } in
    let shorter = length-drop (length (cut (c ∷ b))) (c ∷ b) in
    let filled = some_bytes (omega arith) in
    let (ys, e, (joined, frames, ended)) =
      split_loop-Frames f left false (xs ++ x ∷ []) (omega arith) in
    (
      x ∷ ys,
      e ∙ ap (λ zs. ok (none, zs)) (append_assoc xs (x ∷ []) ys),
      (
        ap (◌++◌ (cut (c ∷ b))) joined ∙ whole,
        AreFrames-cons x ys filled small (last_cases ys left joined ended frames) frames,
        λ e. absurd (cc),
      ),
    )

-- splitHeaderBlock calls `fn` on fragments that together are the block, none empty or longer than a
-- frame, with firstFrag on the first alone and lastFrag on the last alone.
pub split_header_block-Frames :
    (b : List ℕ)
    → (ys : List Fragment) × (split_header_block record_call b [] ≡ ok (none, ys))
      × (join ys ≡ b)
      × AreFrames true ys
unfolding split_header_block
split_header_block-Frames b =
    let (ys, e, (joined, frames, _)) = split_loop-Frames (suc (length b)) b true [] (omega arith) in
    (ys, e, joined, frames)

-- The loop ends, whatever `fn` does.
pub split_loop_total :
    {S : Type 0} (fn : Fragment → S → Option Error × S) (f : ℕ) (b : List ℕ) (first : Bool) (s : S)
    → length b < f
    → (r : Option Error × S) × (split_loop fn f b first s ≡ ok r)
unfolding split_loop
split_loop_total fn zero b first s h = absurd (omega arith)
split_loop_total fn (suc f) [] first s h = ((none, s), refl)
split_loop_total fn (suc f) (c ∷ b) first s h =
    let (whole, small, some_bytes) = cut_facts (c ∷ b) in
    let left = drop (length (cut (c ∷ b))) (c ∷ b) in
    let shorter = length-drop (length (cut (c ∷ b))) (c ∷ b) in
    let filled = some_bytes (omega arith) in
    let x : Fragment = record {
      frag = cut (c ∷ b);
      first_frag = first;
      last_frag = length left == 0;
    } in
    let (r, e) = split_loop_total fn f left false (fn x s).1 (omega arith) in
    elim (Option-cases (fn x s).0) [
      | inl n ↦ (r, rw (n, split_loop) e)
      | inr (err, n) ↦ ((some err, (fn x s).1), rw (n, split_loop))
    ]
