-- ===== src/Bpt/Laws/Verified.antt =====
-- A tree that `ed_bpt_verify` accepts is one that `ed_bpt_find` works on.
use eddy.Base.{
  ℕ, zero, suc, ◌+◌, ◌-◌, ◌^◌, ◌≤◌, ◌<◌, ◌≡◌, ◌↔◌, refl, sym, ap, true, false, ltb, ◌==◌, arith,
  if◌then◌else◌, Bool-cases, inl, inr, Option, none, some,
}
use mathlib.Core.Path.{subst}
use eddy.Base.Mem.{Mem}
use eddy.Base.Result.{Error}
use eddy.Bpt.{Bpt, Keyed, pg_leaf, pg_branch}
use eddy.Bpt.Leaf.{leaf_key}
use eddy.Bpt.Edit.{pred64}
use eddy.Bpt.Tree.{low, high, IsBranch, IsLeaf, IsTree}
use eddy.Bpt.Verify.{fine, verify_keys, verify_leaf, verify_children, verify_node, bpt_verify}
use eddy.Bpt.Laws.Verify.{bpt_verify-fine}
use eddy.Bpt.Laws.Checked.{rising, not_falling, verify_keys_parts, verify_children_parts}

module _ {E : Type 0} ⦃e : Keyed E⦄ (pages : Mem (Bpt E)) where
  -- All leaves are `d` levels down and none is empty, and no key of a branch is 0.
  abbrev pub IsFilled : ℕ → ℕ → Type 0
  IsFilled zero pg = ((pages pg).type ≡ pg_leaf) × (0 < (pages pg).nkeys)
  IsFilled (suc d) pg =
      ((pages pg).type ≡ pg_branch)
      × ((j : ℕ) → j < (pages pg).nkeys → 0 < (pages pg).keys j)
      × ((i : ℕ) → i ≤ (pages pg).nkeys → IsFilled d ((pages pg).ptrs i))

  -- There is a key in such a tree, so its range is not empty.
  IsTree-lt : (d pg lo hi : ℕ) → IsFilled d pg → IsTree pages d pg lo hi → lo < hi
  IsTree-lt zero pg lo hi filled tree =
      let from = tree.from 0 filled.1 in
      let below = tree.below 0 filled.1 in omega (arith, from, below)
  IsTree-lt (suc d) pg lo hi filled tree =
      let b = pages pg in
      let first =
        IsTree-lt d (b.ptrs 0) (low b lo 0) (high b hi 0) (filled.2 0 (omega arith))
          (tree.children 0 (omega arith)) in
      elim (Bool-cases (ltb 0 b.nkeys)) [
        | inl more ↦
            let top : high b hi 0 ≡ b.keys 0 = rw more refl in
            let below = tree.below 0 (ground arith) in omega (arith, first, top, below)
        | inr only ↦ let top : high b hi 0 ≡ hi = rw only refl in omega (arith, first, top)
      ]

  -- The range that the check of child `i` is given is that of its subtree.
  child_top : Bpt E → ℕ → ℕ → ℕ
  child_top b max i = if ltb i b.nkeys then pred64 (b.keys i) else max

  child_top-high :
      (b : Bpt E) (max i : ℕ)
      → max < 2 ^ 64
      → (i < b.nkeys → (0 < b.keys i) × (b.keys i ≤ max))
      → (child_top b max i + 1 ≡ high b (max + 1) i) × (child_top b max i < 2 ^ 64)
  unfolding child_top
  child_top-high b max i fits inside = elim (Bool-cases (ltb i b.nkeys)) [
    | inl lt ↦
        let (pos, le) = inside (ground arith) in
        let k : ℕ = b.keys i in
        let back : pred64 k + 1 ≡ k = omega (arith, pos, le, fits) in
        rw (lt) (back, omega (arith, back, le, fits))
    | inr ge ↦ rw ge (refl, fits)
  ]

  low_first : (b : Bpt E) (lo i : ℕ) → i ≡ 0 → low b lo i ≡ lo
  low_first b lo zero eq = refl
  low_first b lo (suc i) eq = absurd (omega (arith, eq))

  low_later : (b : Bpt E) (lo i : ℕ) → 0 < i → low b lo i ≡ b.keys (i - 1)
  low_later b lo zero lt = absurd (omega (arith, lt))
  low_later b lo (suc i) lt = let back : suc i - 1 ≡ i = omega arith in ap b.keys (sym back)

  top_inner : (b : Bpt E) (max i : ℕ) → i < b.nkeys → child_top b max i ≡ pred64 (b.keys i)
  unfolding child_top
  top_inner b max i lt = let t : ltb i b.nkeys ≡ true = ground (arith, lt) in rw t refl

  top_last : (b : Bpt E) (max i : ℕ) → i ≡ b.nkeys → child_top b max i ≡ max
  unfolding child_top
  top_last b max i eq = let t : ltb i b.nkeys ≡ false = ground (arith, eq) in rw t refl

  verify_leaf-IsLeaf :
      (l : Bpt E) (min max : ℕ)
      → l.type ≡ pg_leaf
      → 0 < l.nkeys
      → verify_leaf l min max ≡ fine
      → IsLeaf l min (max + 1)
  unfolding verify_leaf
  verify_leaf-IsLeaf l min max leaf some_keys h =
      let t : (l.nkeys == 0) ≡ false = ground arith in
      let accepts : verify_keys l.ents min max 0 0 l.nkeys ≡ fine = rw t at h in
      let parts =
        verify_keys_parts l.ents l.nkeys min max 0 0 l.nkeys (omega arith)
          (λ p. absurd (omega (arith, p))) accepts in
      record {
        type = leaf;
        sorted =
            not_falling (λ i. leaf_key l.ents i) l.nkeys
              (λ j lt.
                let back : suc j - 1 ≡ j = omega arith in
                subst (λ i. leaf_key l.ents i ≤ leaf_key l.ents (suc j)) back
                  ((parts (suc j) (omega arith) lt).2 (omega arith)));
        from = λ i lt. (parts i (omega arith) lt).0;
        below = λ i lt. let (_, le, _) = parts i (omega arith) lt in omega (arith, le);
      }

  -- The keys of a branch rise, since no subtree is empty.
  children-IsBranch :
      (b : Bpt E) (d min max : ℕ)
      → max < 2 ^ 64
      → (b.type ≡ pg_branch)
        × ((j : ℕ) → j < b.nkeys → 0 < b.keys j)
        × ((i : ℕ) → i ≤ b.nkeys → IsFilled d (b.ptrs i))
      → ((j : ℕ) → 0 ≤ j → j < b.nkeys → (min ≤ b.keys j) × (b.keys j ≤ max))
      → ((i : ℕ) → i ≤ b.nkeys → IsTree pages d (b.ptrs i) (low b min i) (high b (max + 1) i))
      → IsBranch (IsTree pages d) b min (max + 1)
  children-IsBranch b d min max fits filled bounds children = record {
    type = filled.0;
    rises = rising b.keys b.nkeys (λ j lt.
        let t : ltb (suc j) b.nkeys ≡ true = ground (arith, lt) in
        let top : high b (max + 1) (suc j) ≡ b.keys (suc j) = rw t refl in
        subst (λ k. b.keys j < k) top
          (IsTree-lt d (b.ptrs (suc j)) (b.keys j) (high b (max + 1) (suc j))
            (filled.2 (suc j) (omega (arith, lt))) (children (suc j) (omega (arith, lt)))));
    from = λ i lt. (bounds i (omega arith) lt).0;
    below = λ i lt. let (_, le) = bounds i (omega arith) lt in omega (arith, le);
    children = children;
  }

  module _ (map_error : ℕ → Option Error) where
    verify_node-IsTree :
        (fuel d pg min max : ℕ)
        → d < fuel
        → max < 2 ^ 64
        → IsFilled d pg
        → verify_node pages map_error fuel pg min max ≡ some fine
        → IsTree pages d pg min (max + 1)
    unfolding verify_node
    verify_node-IsTree zero d pg min max enough fits filled h = absurd (omega arith)
    verify_node-IsTree (suc fuel) zero pg min max enough fits filled h =
        let l = pages pg in
        let is_leaf : (l.type == pg_leaf) ≡ true = rw filled.0 refl in
        let accepts : some (verify_leaf l min max) ≡ some fine = rw is_leaf at h in
        verify_leaf-IsLeaf l min max filled.0 filled.1 (cc accepts)
    verify_node-IsTree (suc fuel) (suc d) pg min max enough fits filled h =
        let b = pages pg in
        let is_leaf : (b.type == pg_leaf) ≡ false = rw filled.0 refl in
        let check = verify_node pages map_error fuel in
        let accepts : verify_children check map_error b.ptrs b.keys min max min 0 b.nkeys
            ≡ some fine =
          rw is_leaf at h in
        let (bounds, children) =
          verify_children_parts check map_error b.ptrs b.keys b.nkeys min max min 0 b.nkeys
            (omega arith) accepts in
        children-IsBranch b d min max fits filled bounds (λ i le.
          let hi = child_top b max i in
          let inside : i < b.nkeys → (0 < b.keys i) × (b.keys i ≤ max) =
            λ lt. (filled.1 i lt, (bounds i (omega arith) lt).1) in
          let (top, small) = child_top-high b max i fits inside in
          subst (IsTree pages d (b.ptrs i) (low b min i)) top (
            verify_node-IsTree fuel d (b.ptrs i) (low b min i) hi (omega (arith, enough)) small
              (filled.2 i le)
              (children i (low b min i) hi (omega arith) le (low_first b min i) (low_later b min i)
                (top_inner b max i) (top_last b max i))))

    -- Of the pages of `d` levels of branches above leaves that are not empty, with no key 0 in a branch, and
    -- if every page can be mapped and the fuel is more than `d`, `ed_bpt_verify` accepts exactly the trees:
    -- the keys of each branch rise, those of each leaf do not fall, and all keys of a subtree, of 64
    -- bits, are from the branch's key left of it on and below the one right of it.
    pub bpt_verify-IsTree_iff :
        (fuel d pg : ℕ)
        → ((pg : ℕ) → map_error pg ≡ none)
        → d < fuel
        → IsFilled d pg
        → (bpt_verify pages map_error fuel (some pg) ≡ some fine) ↔ IsTree pages d pg 0 (2 ^ 64)
    unfolding bpt_verify
    bpt_verify-IsTree_iff fuel d pg mapped enough filled = (
      λ h. verify_node-IsTree fuel d pg 0 (2 ^ 64 - 1) enough (omega arith) filled h,
      λ tree. bpt_verify-fine pages map_error fuel d pg mapped enough tree,
    )
