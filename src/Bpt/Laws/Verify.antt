-- ===== src/Bpt/Laws/Verify.antt =====
-- `ed_bpt_verify` accepts every tree that `ed_bpt_find` works on.
use eddy.Base.{
  ℕ, zero, suc, ◌+◌, ◌-◌, ◌^◌, ◌≤◌, ◌<◌, ◌≡◌, refl, ◌∙◌, true, false, ltb, ◌==◌, ◌||◌, ◌&&◌, arith,
  Bool-cases, inl, inr, Option, none, some,
}
use eddy.Base.Mem.{Mem}
use eddy.Base.Result.{Error}
use eddy.Bpt.{Bpt, Keyed, pg_leaf}
use eddy.Bpt.Leaf.{leaf_key}
use eddy.Bpt.Edit.{pred64}
use eddy.Bpt.Tree.{low, high, IsTree}
use eddy.Bpt.Verify.{
  Check, fine, verify_keys, verify_leaf, checked, verify_children, verify_node, bpt_verify,
}
use eddy.Bpt.Laws.SplitPoint.{IsSorted}

module _ {E : Type 0} ⦃e : Keyed E⦄ where
  verify_keys_lem :
      (l : Mem E) (n min max last i left : ℕ)
      → i + left ≡ n
      → IsSorted l n
      → ((j : ℕ) → j < n → (min ≤ leaf_key l j) × (leaf_key l j ≤ max))
      → (0 < i → last ≡ leaf_key l (i - 1))
      → verify_keys l min max last i left ≡ fine
  unfolding verify_keys
  verify_keys_lem l n min max last i zero eq sorted inside before = refl
  verify_keys_lem l n min max last i (suc left) eq sorted inside before =
      let here = inside i (omega arith) in
      let rest =
        verify_keys_lem l n min max (leaf_key l i) (i + 1) left (omega arith) sorted inside
          (λ p. let same : i + 1 - 1 ≡ i = omega arith in rw same refl) in
      let up = sorted (i - 1) i (omega arith) (omega arith) in
      let a : (ltb (leaf_key l i) min || ltb max (leaf_key l i)) ≡ false = ground arith in
      let b : (ltb 0 i && ltb (leaf_key l i) last) ≡ false = grind (arith, before) in rw (a, b) rest

-- A loop over children that are all accepted, in rising order of the keys.
verify_children_lem :
    (child : ℕ → ℕ → ℕ → Option Check) (map_error : ℕ → Option Error) (ptrs keys : Mem ℕ)
    (n min max nmin i left : ℕ)
    → i + left ≡ n
    → ((pg : ℕ) → map_error pg ≡ none)
    → ((j : ℕ) → j < n → (min ≤ keys j) × (keys j ≤ max))
    → (0 < i → nmin ≡ keys (i - 1))
    → (i ≡ 0 → nmin ≡ min)
    → ((j lo hi : ℕ)
        → j ≤ n
        → (j ≡ 0 → lo ≡ min)
        → (0 < j → lo ≡ keys (j - 1))
        → (j < n → hi ≡ pred64 (keys j))
        → (j ≡ n → hi ≡ max)
        → child (ptrs j) lo hi ≡ some fine)
    → verify_children child map_error ptrs keys min max nmin i left ≡ some fine
unfolding verify_children checked
verify_children_lem child map_error ptrs keys n min max nmin i zero eq maps inside prev first ok =
    rw
      (
        maps (ptrs i),
        ok i nmin max (omega arith) first prev (λ p. absurd (omega arith)) (λ p. refl),
      )
      refl
verify_children_lem child map_error ptrs keys n min max nmin i (suc left) eq maps inside prev first
      ok =
    let here = inside i (omega arith) in
    let a : (ltb (keys i) min || ltb max (keys i)) ≡ false = ground arith in
    let rest =
      verify_children_lem child map_error ptrs keys n min max (keys i) (i + 1) left (omega arith)
        maps inside (λ p. let same : i + 1 - 1 ≡ i = omega arith in rw same refl)
        (λ p. absurd (omega arith)) ok in
    rw
      (
        a,
        maps (ptrs i),
        ok i nmin (pred64 (keys i)) (omega arith) first prev (λ p. refl)
            (λ p. absurd (omega arith)),
      )
      rest

module _ {E : Type 0} where
  bounds_below :
      (b : Bpt E) (lo min lo' j : ℕ)
      → min ≤ lo
      → (j ≡ 0 → lo' ≡ min)
      → (0 < j → lo' ≡ b.keys (j - 1))
      → lo' ≤ low b lo j
  bounds_below b lo min lo' zero le first prev = omega (arith, first refl)
  bounds_below b lo min lo' (suc j) le first prev =
      let same : suc j - 1 ≡ j = omega arith in
      let at : lo' ≡ b.keys j = prev (omega arith) ∙ rw same refl in omega (arith, at)

  bounds_above :
      (b : Bpt E) (hi max hi' j : ℕ)
      → hi ≤ max + 1
      → j ≤ b.nkeys
      → (j < b.nkeys → b.keys j < 2 ^ 64)
      → (j < b.nkeys → hi' ≡ pred64 (b.keys j))
      → (j ≡ b.nkeys → hi' ≡ max)
      → high b hi j ≤ hi' + 1
  bounds_above b hi max hi' j le p fits inner last = grind (arith, fits, inner, last)

module _ {E : Type 0} ⦃e : Keyed E⦄ (pages : Mem (Bpt E)) (map_error : ℕ → Option Error) where
  leaf-fine :
      (pg lo hi min max : ℕ)
      → IsTree pages 0 pg lo hi
      → min ≤ lo
      → hi ≤ max + 1
      → verify_leaf (pages pg) min max ≡ fine
  unfolding verify_leaf
  leaf-fine pg lo hi min max tree le ge =
      let l = pages pg in
      let all =
        verify_keys_lem l.ents l.nkeys min max 0 0 l.nkeys (omega arith) tree.sorted
          (λ j p.
            let from = tree.from j p in let below = tree.below j p in (omega arith, omega arith))
          (λ p. absurd (omega arith)) in
      elim (Bool-cases (l.nkeys == 0)) [ inl z ↦ rw z refl | inr s ↦ rw s all ]

  verify_node-fine :
      (fuel d pg lo hi min max : ℕ)
      → ((pg : ℕ) → map_error pg ≡ none)
      → d < fuel
      → IsTree pages d pg lo hi
      → min ≤ lo
      → hi ≤ max + 1
      → max < 2 ^ 64
      → verify_node pages map_error fuel pg min max ≡ some fine
  unfolding verify_node
  verify_node-fine zero d pg lo hi min max maps enough tree le ge fits = absurd (omega arith)
  verify_node-fine (suc fuel) zero pg lo hi min max maps enough tree le ge fits =
      let is_leaf : ((pages pg).type == pg_leaf) ≡ true = rw tree.type refl in
      rw (is_leaf, leaf-fine pg lo hi min max tree le ge) refl
  verify_node-fine (suc fuel) (suc d) pg lo hi min max maps enough tree le ge fits =
      let b = pages pg in
      rw tree.type (
        verify_children_lem (verify_node pages map_error fuel) map_error b.ptrs b.keys b.nkeys min
          max min 0 b.nkeys (omega arith) maps
          (λ j p.
            let from = tree.from j p in let below = tree.below j p in (omega arith, omega arith))
          (λ p. absurd (omega arith)) (λ p. refl)
          (λ j lo' hi' p first prev inner last.
            let small : j < b.nkeys → b.keys j < 2 ^ 64 =
              λ q. let below = tree.below j q in omega arith in
            verify_node-fine fuel d (b.ptrs j) (low b lo j) (high b hi j) lo' hi' maps (omega arith)
              (tree.children j p) (bounds_below b lo min lo' j le first prev)
              (bounds_above b hi max hi' j ge p small inner last) (grind (arith, inner, last))))

  -- `ed_bpt_verify` accepts a tree of `d` levels above the leaves whose keys have 64 bits, if every
  -- page can be mapped and the fuel is more than `d`.
  pub bpt_verify-fine :
      (fuel d pg : ℕ)
      → ((pg : ℕ) → map_error pg ≡ none)
      → d < fuel
      → IsTree pages d pg 0 (2 ^ 64)
      → bpt_verify pages map_error fuel (some pg) ≡ some fine
  unfolding bpt_verify
  bpt_verify-fine fuel d pg maps enough tree =
      verify_node-fine fuel d pg 0 (2 ^ 64) 0 (2 ^ 64 - 1) maps enough tree (omega arith)
        (omega arith) (omega arith)
