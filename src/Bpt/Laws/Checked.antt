-- ===== src/Bpt/Laws/Checked.antt =====
-- What the loops of `ed_bpt_verify` have checked when they accept.
use eddy.Base.{
  ℕ, zero, suc, ◌+◌, ◌-◌, ◌≤◌, ◌<◌, ◌≡◌, refl, ap, ◌∙◌, true, false, ltb, ◌==◌, ◌||◌, ◌&&◌, arith,
  Bool, if◌then◌else◌, Bool-cases, inl, inr, Option, none, some,
}
use eddy.Base.Mem.{Mem}
use eddy.Base.Result.{Error}
use eddy.Bpt.{Keyed}
use eddy.Bpt.Leaf.{leaf_key}
use eddy.Bpt.Edit.{pred64}
use eddy.Bpt.Verify.{Check, fine, broken, unmapped, verify_keys, checked, verify_children}

-- The outcome of a guard in front of a check.
guarded : (b : Bool) (c : Check) → (if b then broken else c) ≡ fine → (b ≡ false) × (c ≡ fine)
guarded true c h = absurd (cc h)
guarded false c h = (refl, h)

guarded_child :
    (b : Bool) (c : Option Check)
    → (if b then some broken else c) ≡ some fine
    → (b ≡ false) × (c ≡ some fine)
guarded_child true c h = absurd (cc h)
guarded_child false c h = (refl, h)

checked_parts :
    (m : Option Error) (c rest : Option Check)
    → checked m c rest ≡ some fine
    → (c ≡ some fine) × (rest ≡ some fine)
unfolding checked
checked_parts (some x) c rest h = absurd (cc h)
checked_parts none none rest h = absurd (cc h)
checked_parts none (some fine) rest h = (refl, h)
checked_parts none (some broken) rest h = absurd (cc h)
checked_parts none (some (unmapped x)) rest h = absurd (cc h)

-- An order of neighbours is one of all.
pub rising :
    (f : Mem ℕ) (n : ℕ)
    → ((j : ℕ) → suc j < n → f j < f (suc j))
    → (i j : ℕ) → i < j
    → j < n
    → f i < f j
rising f n up i zero lt below = absurd (omega (arith, lt))
rising f n up i (suc j) lt below = elim (Bool-cases (i == j)) [
  | inl eq ↦ let e : i ≡ j = ground arith in rw e (up j below)
  | inr ne ↦
      let before = rising f n up i j (ground arith) (omega (arith, below)) in
      omega (arith, before, up j below)
]

pub not_falling :
    (f : Mem ℕ) (n : ℕ)
    → ((j : ℕ) → suc j < n → f j ≤ f (suc j))
    → (i j : ℕ) → i ≤ j
    → j < n
    → f i ≤ f j
not_falling f n up i j le below = elim (Bool-cases (i == j)) [
  | inl eq ↦ let e : i ≡ j = ground arith in rw e (omega arith)
  | inr ne ↦ later j (ground arith) below
]
  where
    later : (j : ℕ) → i < j → j < n → f i ≤ f j
    later zero lt below = absurd (omega (arith, lt))
    later (suc j) lt below = elim (Bool-cases (i == j)) [
      | inl eq ↦ let e : i ≡ j = ground arith in rw e (up j below)
      | inr ne ↦
          let before = later j (ground arith) (omega (arith, below)) in
          omega (arith, before, up j below)
    ]

module _ {E : Type 0} ⦃e : Keyed E⦄ where
  -- What the loop over the keys of a leaf has checked.
  pub verify_keys_parts :
      (l : Mem E) (n min max last i left : ℕ)
      → i + left ≡ n
      → (0 < i → last ≡ leaf_key l (i - 1))
      → verify_keys l min max last i left ≡ fine
      → (j : ℕ) → i ≤ j
      → j < n
      → (min ≤ leaf_key l j) × (leaf_key l j ≤ max) × (0 < j → leaf_key l (j - 1) ≤ leaf_key l j)
  unfolding verify_keys
  verify_keys_parts l n min max last i zero eq before h j from below = absurd (omega arith)
  verify_keys_parts l n min max last i (suc left) eq before h j from below =
      let (inside, h1) = guarded (ltb (leaf_key l i) min || ltb max (leaf_key l i)) _ h in
      let (order, h2) = guarded (ltb 0 i && ltb (leaf_key l i) last) _ h1 in
      elim (Bool-cases (j == i)) [
        | inl same ↦
            let e : j ≡ i = ground arith in
            rw e (ground arith, ground arith, λ pos. grind (arith, before))
        | inr other ↦
            verify_keys_parts l n min max (leaf_key l i) (i + 1) left (omega arith)
              (λ p. let same : i + 1 - 1 ≡ i = omega arith in rw same refl) h2 j (ground arith)
              below
      ]

-- What the loop over the children has checked.
pub verify_children_parts :
    (child : ℕ → ℕ → ℕ → Option Check) (map_error : ℕ → Option Error) (ptrs keys : Mem ℕ)
    (n min max nmin i left : ℕ)
    → i + left ≡ n
    → verify_children child map_error ptrs keys min max nmin i left ≡ some fine
    → ((j : ℕ) → i ≤ j → j < n → (min ≤ keys j) × (keys j ≤ max))
      × ((j lo hi : ℕ)
          → i ≤ j
          → j ≤ n
          → (j ≡ i → lo ≡ nmin)
          → (i < j → lo ≡ keys (j - 1))
          → (j < n → hi ≡ pred64 (keys j))
          → (j ≡ n → hi ≡ max)
          → child (ptrs j) lo hi ≡ some fine)
unfolding verify_children
verify_children_parts child map_error ptrs keys n min max nmin i zero eq h =
    let (here, rest) = checked_parts (map_error (ptrs i)) (child (ptrs i) nmin max) (some fine) h in
    (
      λ j from below. absurd (omega arith),
      λ j lo hi from le first prev inner last.
          let e : j ≡ i = omega arith in
          let a : lo ≡ nmin = first e in let b : hi ≡ max = last (omega arith) in rw (e, a, b) here,
    )
verify_children_parts child map_error ptrs keys n min max nmin i (suc left) eq h =
    let (inside, h1) = guarded_child (ltb (keys i) min || ltb max (keys i)) _ h in
    let (here, h2) =
      checked_parts (map_error (ptrs i)) (child (ptrs i) nmin (pred64 (keys i))) _ h1 in
    let (bounds, children) =
      verify_children_parts child map_error ptrs keys n min max (keys i) (i + 1) left (omega arith)
        h2 in
    (
      λ j from below. elim (Bool-cases (j == i)) [
        | inl same ↦ let e : j ≡ i = ground arith in rw e (ground arith, ground arith)
        | inr other ↦ bounds j (ground arith) below
      ],
      λ j lo hi from le first prev inner last. elim (Bool-cases (j == i)) [
        | inl same ↦
            let e : j ≡ i = ground arith in
            let a : lo ≡ nmin = first e in
            let b : hi ≡ pred64 (keys i) = inner (omega (arith, e)) ∙ ap (λ k. pred64 (keys k)) e in
            rw (e, a, b) here
        | inr other ↦
            children j lo hi (ground arith) le
              (λ next.
                let back : j - 1 ≡ i = omega (arith, next) in
                prev (omega (arith, next)) ∙ ap keys back)
              (λ more. prev (omega (arith, more))) inner last
      ],
    )
