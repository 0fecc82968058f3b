-- ===== src/Priority/Ranking.antt =====
-- writesched_priority.go, AdjustStream: the ancestors of a node, and why a move makes no cycle.
use mathlib.Core.List.Memᴰ
use h2stream.Prelude.{
  ℕ, zero, suc, ◌+◌, ◌≤◌, ◌<◌, ◌≡◌, ◌≢◌, ◌⊎◌, inl, inr, refl, sym, ap, ◌∙◌, subst, Option, none,
  some, List, [], ◌∷◌, Memᴰ, ◌==◌, ==→≡, ≡→==, if◌then◌else◌, Bool, true, false, ◌||◌, arith,
  Option-cases, Bool-cases, ok,
}
use h2stream.Priority.{Links}
use h2stream.Priority.Returns.{from-suc}
use h2stream.Priority.Scheduler.{depends_on}
use h2stream.Priority.Charging.{IsRanked}

-- The nodes from `o` on along parent.
abbrev pub Ancestors : (ℕ → Option ℕ) → Option ℕ → List ℕ → Type 0
Ancestors par o [] = o ≡ none
Ancestors par o (x ∷ xs) = (o ≡ some x) × Ancestors par (par x) xs

Ancestors-from :
    (par : ℕ → Option ℕ) (v : IsRanked par) (f : ℕ) (o : Option ℕ)
    → ((x : ℕ) → o ≡ some x → v.top ≤ f + v.rank x)
    → (xs : List ℕ) × Ancestors par o xs
Ancestors-from par v zero o h = elim (Option-cases o) [
  | inl e ↦ ([], e)
  | inr (x, e) ↦ absurd (ground (arith, h x e, v.under x))
]
Ancestors-from par v (suc f) o h = elim (Option-cases o) [
  | inl e ↦ ([], e)
  | inr (x, e) ↦
      let (xs, c) = Ancestors-from par v f (par x) (λ y q. omega (arith, h x e, v.rises x y q)) in
      (x ∷ xs, (e, c))
]

pub all-Ancestors :
    (par : ℕ → Option ℕ) (v : IsRanked par) (o : Option ℕ) → (xs : List ℕ) × Ancestors par o xs
all-Ancestors par v o = Ancestors-from par v v.top o (λ _ _. omega arith)

-- Their ranks are above those below the first.
pub Ancestors-above :
    (par : ℕ → Option ℕ) (v : IsRanked par) (r : ℕ) (o : Option ℕ) (xs : List ℕ)
    → Ancestors par o xs
    → ((x : ℕ) → o ≡ some x → r < v.rank x)
    → (a : ℕ) → Memᴰ a xs
    → r < v.rank a
Ancestors-above par v r o [] c h a m = elim m [ ]
Ancestors-above par v r o (x ∷ xs) (e, c) h a (Memᴰ.head q) = rw q (h x e)
Ancestors-above par v r o (x ∷ xs) (e, c) h a (Memᴰ.tail m) =
    Ancestors-above par v r (par x) xs c (λ y q. omega (arith, h x e, v.rises x y q)) a m

-- The parent of a member is a member.
Ancestors-closed :
    (par : ℕ → Option ℕ) (o : Option ℕ) (xs : List ℕ) (a b : ℕ)
    → Ancestors par o xs
    → Memᴰ a xs
    → par a ≡ some b
    → Memᴰ b xs
Ancestors-closed par o [] a b c m h = elim m [ ]
Ancestors-closed par o (x ∷ []) a b (e, c) (Memᴰ.head q) h =
    absurd (ground (arith, ap par q ∙ c, h))
Ancestors-closed par o (x ∷ y ∷ xs) a b (e, c) (Memᴰ.head q) h =
    Memᴰ.tail (Memᴰ.head (ground (arith, c.0, ap par q, h)))
Ancestors-closed par o (x ∷ xs) a b (e, c) (Memᴰ.tail m) h =
    Memᴰ.tail (Ancestors-closed par (par x) xs a b c m h)

pub Ancestors-some :
    (par : ℕ → Option ℕ) (o : Option ℕ) (xs : List ℕ) (a : ℕ)
    → Ancestors par o xs
    → Memᴰ a xs
    → o ≢ none
Ancestors-some par o [] a c m h = elim m [ ]
Ancestors-some par o (x ∷ xs) a (e, c) m h = ground (arith, e, h)

pub Ancestors-head :
    (par : ℕ → Option ℕ) (o : Option ℕ) (xs : List ℕ) (a : ℕ)
    → Ancestors par o xs
    → o ≡ some a
    → Memᴰ a xs
Ancestors-head par o [] a c e = absurd (ground (arith, c, e))
Ancestors-head par o (x ∷ xs) a (q, c) e = Memᴰ.head (ground (arith, q, e))

-- Whether a number is in a list.
abbrev elem : ℕ → List ℕ → Bool
elem a [] = false
elem a (x ∷ xs) = x == a || elem a xs

elem→Memᴰ : (a : ℕ) (xs : List ℕ) → elem a xs ≡ true → Memᴰ a xs
elem→Memᴰ a [] h = absurd (ground (arith, h))
elem→Memᴰ a (x ∷ xs) h = elim (Bool-cases (x == a)) [
  | inl y ↦ Memᴰ.head (sym (==→≡ x a y))
  | inr y ↦ Memᴰ.tail (elem→Memᴰ a xs (rw y at h))
]

Memᴰ→elem : (a : ℕ) (xs : List ℕ) → Memᴰ a xs → elem a xs ≡ true
Memᴰ→elem a [] m = elim m [ ]
Memᴰ→elem a (x ∷ xs) (Memᴰ.head q) = rw (≡→== x a (sym q)) refl
Memᴰ→elem a (x ∷ xs) (Memᴰ.tail m) = ground (arith, Memᴰ→elem a xs m)

-- The loop of AdjustStream tells whether the node is an ancestor.
pub depends_on_ends :
    (l : Links) (n : ℕ) (o : Option ℕ) (xs : List ℕ)
    → Ancestors l.parent o xs
    → (b : Bool) × ((enough : ℕ) × ((f : ℕ) → enough ≤ f → depends_on f l n o ≡ ok b))
      × (((b ≡ true) × Memᴰ n xs) ⊎ ((b ≡ false) × ¬ Memᴰ n xs))
unfolding depends_on
depends_on_ends l n o [] c = (false, (0, λ f _. rw c refl), inr (refl, λ m. elim m [ ]))
depends_on_ends l n o (x ∷ xs) (e, c) =
    let (b, (d, r), h) = depends_on_ends l n (l.parent x) xs c in
    elim (Bool-cases (x == n)) [
      | inl y ↦ (
        true,
        (suc d, from-suc (λ f. depends_on f l n o) true d (λ f i. rw (e, y) refl)),
        inl (refl, Memᴰ.head (sym (==→≡ x n y))),
      )
      | inr y ↦ (
        b,
        (suc d, from-suc (λ f. depends_on f l n o) b d (λ f i. rw (e, y) (r f i))),
        elim h [
          | inl (q, m) ↦ inl (q, Memᴰ.tail m)
          | inr (q, m) ↦
              inr (q, λ z. elim (Memᴰ.cases_cons z) [ inl w ↦ ground (arith, w, y) | inr w ↦ m w ])
        ],
      )
    ]

-- A rank for the links where `n` stands below `p`: the ancestors of `p` come last, before them `n`.
abbrev rank_around : (ℕ → ℕ) → ℕ → ℕ → List ℕ → ℕ → ℕ
rank_around rank top n xs a =
    if elem a xs then suc (top + top) + rank a else (if n == a then top + top else rank a)

module _ (par par' : ℕ → Option ℕ) (v : IsRanked par) (n p : ℕ) (xs : List ℕ)
    (above : Ancestors par (some p) xs) (apart : ¬ Memᴰ n xs) (at_p : par' n ≡ some p)
    (others : (a : ℕ) → a ≢ n → (par' a ≡ par a) ⊎ ((par a ≡ some p) × (par' a ≡ some n))) where
  -- No kid of `p` is above it.
  kid_below : (a : ℕ) → par a ≡ some p → elem a xs ≡ false
  kid_below a e = elim (Bool-cases (elem a xs)) [
    | inr y ↦ y
    | inl y ↦
        let low : v.rank a < v.rank a =
          Ancestors-above par v (v.rank a) (some p) xs above
            (λ x q. omega (arith, v.rises a x (e ∙ q))) a (elem→Memᴰ a xs y) in
        absurd (omega (arith, low))
  ]

  outside : elem n xs ≡ false
  outside = elim (Bool-cases (elem n xs)) [ inr y ↦ y | inl y ↦ absurd (apart (elem→Memᴰ n xs y)) ]

  inside : elem p xs ≡ true
  inside = Memᴰ→elem p xs (Ancestors-head par (some p) xs p above refl)

  stays_inside : (a b : ℕ) → par a ≡ some b → elem a xs ≡ true → elem b xs ≡ true
  stays_inside a b e h =
      Memᴰ→elem b xs (Ancestors-closed par (some p) xs a b above (elem→Memᴰ a xs h) e)

  rises_around :
      (a b : ℕ)
      → par' a ≡ some b
      → rank_around v.rank v.top n xs a < rank_around v.rank v.top n xs b
  rises_around a b e = elim (Bool-cases (n == a)) [
    | inl y ↦
        let q = ==→≡ n a y in
        let r : p ≡ b = ground (arith, ap par' q, at_p, e) in
        subst (λ z. rank_around v.rank v.top n xs a < rank_around v.rank v.top n xs z) r
          (subst (λ z. rank_around v.rank v.top n xs z < rank_around v.rank v.top n xs p) q
            (rw (outside, inside, ≡→== n n refl) (omega arith)))
    | inr y ↦ elim (others a (λ z. ground (arith, y, z))) [
      | inl q ↦
          ground
            (arith, y, stays_inside a b (sym q ∙ e), v.rises a b (sym q ∙ e), v.under a, v.under b)
      | inr (q, r) ↦
          let z : n ≡ b = ground (arith, r, e) in
          subst (λ z. rank_around v.rank v.top n xs a < rank_around v.rank v.top n xs z) z
            (rw (outside, kid_below a q, ≡→== n n refl, y) (omega (arith, v.under a)))
    ]
  ]

  -- `n`, which is not above `p`, gets the parent `p`, and kids of `p` may get the parent `n`.
  pub attached-IsRanked : IsRanked par'
  attached-IsRanked = record {
    rank = rank_around v.rank v.top n xs;
    top = suc (v.top + v.top) + v.top;
    rises = rises_around;
    under = λ a. ground (arith, v.under a);
  }
