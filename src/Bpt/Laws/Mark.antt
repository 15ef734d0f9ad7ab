-- ===== src/Bpt/Laws/Mark.antt =====
-- `ed_bpt_mark` marks the pages of a tree.
use eddy.Base.{
  ℕ, zero, suc, ◌+◌, ◌≤◌, ◌<◌, ◌≡◌, refl, sym, ap, ◌∙◌, true, false, ltb, ◌==◌, arith, Bool-cases,
  inl, inr, Option, none, some, List, [], ◌∷◌, ◌++◌,
}
use eddy.Base.Mem.{Mem}
use eddy.Base.Result.{Error}
use eddy.Stat.{Stat, stat_mark, mark_all}
use eddy.Stat.Marks.{mark_all-append}
use eddy.Bpt.{Bpt, Keyed, pg_leaf}
use eddy.Bpt.Mark.{Marking, after_child, mark_children, bpt_mark}
use eddy.Bpt.Order.{concat_from}
use eddy.Bpt.Tree.{IsTree, low, high}

module _ {E : Type 0} ⦃e : Keyed E⦄ (pages : Mem (Bpt E)) where
  -- The pages of a tree with `d` levels of branches, a page before those below it.
  abbrev pub tree_pages : ℕ → ℕ → List ℕ
  tree_pages zero pg = pg ∷ []
  tree_pages (suc d) pg =
      pg ∷ concat_from (λ i. tree_pages d ((pages pg).ptrs i)) 0 (suc (pages pg).nkeys)

  module _ (map_error : ℕ → Option Error) (mapped : (pg : ℕ) → map_error pg ≡ none) where
    -- All marks are made, and the level of the leaves stays below `max`.
    abbrev Marks : ℕ → List ℕ → Stat → Option Marking → Type 0
    Marks depth list s r =
        (max' : ℕ) × (depth ≤ max')
        × (r ≡ some (record { error = none; max = max'; stat = mark_all s list }))

    mark_children-Marks :
        (fuel d n : ℕ) (b : Bpt E) (i depth max : ℕ) (s : Stat)
        → d < fuel
        → ((j : ℕ) → j < i + n → (lo : ℕ) × (hi : ℕ) × IsTree pages d (b.ptrs j) lo hi)
        → depth + d ≤ max
        → Marks
            (depth + d)
            (concat_from (λ j. tree_pages d (b.ptrs j)) i n)
            s
            (mark_children pages map_error fuel n b i depth max s)
    unfolding mark_children
    mark_children-Marks fuel d zero b i depth max s lt trees le = (max, le, refl)
    mark_children-Marks zero d (suc n) b i depth max s lt trees le = absurd (omega (arith, lt))
    mark_children-Marks (suc fuel) zero (suc n) b i depth max s lt trees le =
        let (lo, hi, leaf) = trees i (omega arith) in
        let type : ((pages (b.ptrs i)).type == pg_leaf) ≡ true = rw leaf.type refl in
        let others = λ (j : ℕ) (p : j < i + 1 + n). trees j (omega (arith, p)) in
        let s' = stat_mark s (b.ptrs i) in
        elim (Bool-cases (ltb depth max)) [
          | inl first ↦
              let (max', le', eq) =
                mark_children-Marks (suc fuel) zero n b (i + 1) depth depth s' lt others
                  (omega arith) in
              (max', le', rw (first, mapped (b.ptrs i), type) eq)
          | inr known ↦
              let (max', le', eq) =
                mark_children-Marks (suc fuel) zero n b (i + 1) depth max s' lt others le in
              (max', le', rw known eq)
        ]
    mark_children-Marks (suc fuel) (suc d) (suc n) b i depth max s lt trees le =
        let (lo, hi, branch) = trees i (omega arith) in
        let child = pages (b.ptrs i) in
        let type : (child.type == pg_leaf) ≡ false = rw branch.type refl in
        let others = λ (j : ℕ) (p : j < i + 1 + n). trees j (omega (arith, p)) in
        let s' = stat_mark s (b.ptrs i) in
        let under : (j : ℕ)
            → j < 0 + (child.nkeys + 1)
            → (lo : ℕ) × (hi : ℕ) × IsTree pages d (child.ptrs j) lo hi =
          λ j p. (low child lo j, high child hi j, branch.children j (omega (arith, p))) in
        let one : child.nkeys + 1 ≡ suc child.nkeys = omega arith in
        let level : depth + 1 + d ≡ depth + suc d = omega arith in
        let deep : ltb depth max ≡ true = ground arith in
        let f = λ (j : ℕ). tree_pages d (child.ptrs j) in
        let g = λ (j : ℕ). tree_pages (suc d) (b.ptrs j) in
        let (max1, le1, eq1) =
          mark_children-Marks fuel d (child.nkeys + 1) child 0 (depth + 1) max s'
            (omega (arith, lt)) under (omega (arith, le)) in
        let s1 = mark_all s' (concat_from f 0 (child.nkeys + 1)) in
        let (max2, le2, eq2) =
          mark_children-Marks (suc fuel) (suc d) n b (i + 1) depth max1 s1 lt others
            (omega (arith, le1)) in
        let rest = mark_children pages map_error (suc fuel) n b (i + 1) depth in
        let all : mark_all s1 (concat_from g (i + 1) n) ≡ mark_all s (concat_from g i (suc n)) =
          sym (mark_all-append s' (concat_from f 0 (child.nkeys + 1)) (concat_from g (i + 1) n))
          ∙ ap (λ k. mark_all s' (concat_from f 0 k ++ concat_from g (i + 1) n)) one in
        (
          max2,
          le2,
          rw (deep, mapped (b.ptrs i), type)
              (ap (after_child rest) eq1
                ∙ eq2
                ∙ ap (λ st. some (record { error = none; max = max2; stat = st })) all),
        )

    -- If no page fails to be mapped, `ed_bpt_mark` at the root of a tree with up to 8 levels of branches
    -- succeeds and marks all pages of the tree, each one before those below it.
    pub bpt_mark-tree_pages :
        (depth root lo hi : ℕ) (s : Stat)
        → IsTree pages depth root lo hi
        → (pages root).no ≡ root
        → depth ≤ 8
        → (max : ℕ) × (bpt_mark pages map_error (pages root) s
            ≡ some (record { error = none; max = max; stat = mark_all s (tree_pages depth root) }))
    unfolding bpt_mark
    bpt_mark-tree_pages zero root lo hi s tree at le =
        let type : ((pages root).type == pg_leaf) ≡ true = rw tree.type refl in
        (8, rw type (ap (λ pg. some (record { error = none; max = 8; stat = stat_mark s pg })) at))
    bpt_mark-tree_pages (suc d) root lo hi s tree at le =
        let b = pages root in
        let type : (b.type == pg_leaf) ≡ false = rw tree.type refl in
        let under : (j : ℕ)
            → j < 0 + (b.nkeys + 1)
            → (lo : ℕ) × (hi : ℕ) × IsTree pages d (b.ptrs j) lo hi =
          λ j p. (low b lo j, high b hi j, tree.children j (omega (arith, p))) in
        let one : b.nkeys + 1 ≡ suc b.nkeys = omega arith in
        let f = λ (j : ℕ). tree_pages d (b.ptrs j) in
        let (max, le', eq) =
          mark_children-Marks 8 d (b.nkeys + 1) b 0 1 8 (stat_mark s b.no) (omega (arith, le)) under
            (omega (arith, le)) in
        let all =
          ap (λ k. mark_all (stat_mark s b.no) (concat_from f 0 k)) one
          ∙ ap (λ pg. mark_all (stat_mark s pg) (concat_from f 0 (suc b.nkeys))) at in
        (max, rw type (eq ∙ ap (λ st. some (record { error = none; max = max; stat = st })) all))
