-- ===== src/Bpt/Laws/Find.antt =====
-- `ed_bpt_find` in a tree: the walk reaches the leaf for the key, and the search decides whether an
-- entry has it.
use eddy.Base.{
  ℕ, zero, suc, ◌+◌, ◌^◌, ◌≤◌, ◌<◌, ◌≡◌, refl, ◌∙◌, ◌↔◌, inl, inr, true, false, ltb, arith,
  if◌then◌else◌, Bool-cases, Option, none, some,
}
use eddy.Base.Mem.{Mem}
use eddy.Base.Result.{Error}
use eddy.Bpt.{Bpt, Keyed, branch_key, branch_search, is_branch}
use eddy.Bpt.Edit.{pred64}
use eddy.Bpt.Find.{Walk, descend, walk}
use eddy.Bpt.Tree.{low, high, IsLeaf, IsTree, Occurs}
use eddy.Bpt.Laws.Search.{branch_search-low-high}

module _ {E : Type 0} where
  low_ge :
      (b : Bpt E) (lo i : ℕ)
      → ((i : ℕ) → i < b.nkeys → lo ≤ b.keys i)
      → i ≤ b.nkeys
      → lo ≤ low b lo i
  low_ge b lo zero from p = omega arith
  low_ge b lo (suc i) from p = from i (omega arith)

  high_le : (b : Bpt E) (hi i : ℕ) → ((i : ℕ) → i < b.nkeys → b.keys i < hi) → high b hi i ≤ hi
  high_le b hi i below = ground (arith, below i)

  high_le_low :
      (b : Bpt E) (lo hi i j : ℕ)
      → ((i j : ℕ) → i < j → j < b.nkeys → b.keys i < b.keys j)
      → i < j
      → j ≤ b.nkeys
      → high b hi i ≤ low b lo j
  high_le_low b lo hi i zero rises lt le = absurd (omega arith)
  high_le_low b lo hi i (suc j) rises lt le = grind (arith, rises i j)

  -- A key belongs under one pointer only.
  child_unique :
      (b : Bpt E) (key lo hi i j : ℕ)
      → ((i j : ℕ) → i < j → j < b.nkeys → b.keys i < b.keys j)
      → i ≤ b.nkeys
      → j ≤ b.nkeys
      → low b lo i ≤ key
      → key < high b hi i
      → low b lo j ≤ key
      → key < high b hi j
      → i ≡ j
  child_unique b key lo hi i j rises p q l h l' h' =
      let up = high_le_low b lo hi i j rises in
      let down = high_le_low b lo hi j i rises in
      let ne : ¬ (i < j) = λ lt. absurd (omega (arith, up lt q)) in
      let ne' : ¬ (j < i) = λ lt. absurd (omega (arith, down lt p)) in grind arith

  -- The bounds of `ed_bpt_find` are those of the pointer.
  kmin_eq : (b : Bpt E) (kmin i : ℕ) → (if ltb 0 i then branch_key b i else kmin) ≡ low b kmin i
  unfolding branch_key
  kmin_eq b kmin zero = refl
  kmin_eq b kmin (suc i) = ground arith

  kmax_eq :
      (b : Bpt E) (kmax i : ℕ)
      → 0 < high b (kmax + 1) i
      → high b (kmax + 1) i ≤ 2 ^ 64
      → (if ltb i b.nkeys then pred64 (branch_key b (i + 1)) else kmax) + 1 ≡ high b (kmax + 1) i
  unfolding branch_key
  kmax_eq b kmax i pos fits =
      let next : i + 1 ≡ suc i = omega arith in
      elim (Bool-cases (ltb i b.nkeys)) [
        | inl lt ↦ rw (next, lt) (ground arith)
        | inr ge ↦ rw ge refl
      ]

module _ {E : Type 0} ⦃e : Keyed E⦄ (pages : Mem (Bpt E)) where
  Occurs-bounds :
      (d pg lo hi key : ℕ)
      → IsTree pages d pg lo hi
      → Occurs pages d pg key
      → (lo ≤ key) × (key < hi)
  Occurs-bounds zero pg lo hi key t (i, p, same) =
      (rw (← same) (t.from i p), rw (← same) (t.below i p))
  Occurs-bounds (suc d) pg lo hi key t (i, p, under) =
      let b = pages pg in
      let (l, h) =
        Occurs-bounds d (b.ptrs i) (low b lo i) (high b hi i) key (t.children i p) under in
      (omega (arith, l, low_ge b lo i t.from p), omega (arith, h, high_le b hi i t.below))

  -- The walk has reached a leaf: its bounds, and that no entry with the key is elsewhere.
  pub record Arrived (key d pg : ℕ) (w : Walk) : Type 0 where
    pub leaf : IsLeaf (pages w.node.no) w.kmin (w.kmax + 1)
    pub kmin_le : w.kmin ≤ key
    pub le_kmax : key ≤ w.kmax
    pub kmax_lt : w.kmax < 2 ^ 64
    pub occurs : Occurs pages d pg key ↔ Occurs pages 0 w.node.no key

  -- One round: the child is the tree that can hold the key.
  record Descended (page_size key d pg : ℕ) (w : Walk) : Type 0 where
    tree : IsTree pages d w.node.no w.kmin (w.kmax + 1)
    kmin_le : w.kmin ≤ key
    le_kmax : key ≤ w.kmax
    kmax_lt : w.kmax < 2 ^ 64
    occurs : Occurs pages (suc d) pg key ↔ Occurs pages d w.node.no key

  descend-Descended :
      (page_size key d : ℕ) (w : Walk)
      → IsTree pages (suc d) w.node.no w.kmin (w.kmax + 1)
      → w.kmin ≤ key
      → key ≤ w.kmax
      → w.kmax < 2 ^ 64
      → Descended page_size key d w.node.no (descend pages page_size key w)
  unfolding descend
  descend-Descended page_size key d w t from to fits =
      let b = pages w.node.no in
      let i : ℕ = branch_search b key in
      let (le, l, h) =
        branch_search-low-high b key w.kmin (w.kmax + 1) t.rises from (omega arith) in
      let up : high b (w.kmax + 1) i ≤ w.kmax + 1 = high_le b (w.kmax + 1) i t.below in
      let kmin = kmin_eq b w.kmin i in
      let kmax = kmax_eq b w.kmax i (omega (arith, h)) (omega (arith, up, fits)) in
      record {
        tree = rw (kmin, kmax) (t.children i le);
        kmin_le = rw kmin l;
        le_kmax = omega (arith, kmax, h);
        kmax_lt = omega (arith, kmax, up, fits);
        occurs = (
          λ (j, p, under).
              let (l', h') =
                Occurs-bounds d (b.ptrs j) (low b w.kmin j) (high b (w.kmax + 1) j) key
                  (t.children j p) under in
              let same = child_unique b key w.kmin (w.kmax + 1) j i t.rises p le l' h' l h in
              rw (← same) under,
          λ under. (i, le, under),
        );
      }

  pub walk_stops :
      (map_error : ℕ → Option Error) (page_size key fuel : ℕ) (w : Walk)
      → is_branch (pages w.node.no) ≡ false
      → walk pages map_error page_size key (suc fuel) w ≡ some (none, w)
  unfolding walk
  walk_stops map_error page_size key fuel w h = rw h refl

  pub walk_goes_on :
      (map_error : ℕ → Option Error) (page_size key fuel : ℕ) (w : Walk)
      → is_branch (pages w.node.no) ≡ true
      → map_error (descend pages page_size key w).node.no ≡ none
      → walk pages map_error page_size key (suc fuel) w
        ≡ walk pages map_error page_size key fuel (descend pages page_size key w)
  unfolding walk
  walk_goes_on map_error page_size key fuel w h maps = rw (h, maps) refl

  pub walk_fails :
      (map_error : ℕ → Option Error) (page_size key fuel : ℕ) (w : Walk) (x : Error)
      → is_branch (pages w.node.no) ≡ true
      → map_error (descend pages page_size key w).node.no ≡ some x
      → walk pages map_error page_size key (suc fuel) w
        ≡ some (some x, record w { nsplits = (descend pages page_size key w).nsplits })
  unfolding walk
  walk_fails map_error page_size key fuel w x h fails = rw (h, fails) refl

  -- A walk without errors from the tree's root, on fuel for its levels.
  pub walk-Arrived :
      (map_error : ℕ → Option Error) (page_size key fuel d : ℕ) (w : Walk)
      → ((pg : ℕ) → map_error pg ≡ none)
      → d < fuel
      → IsTree pages d w.node.no w.kmin (w.kmax + 1)
      → w.kmin ≤ key
      → key ≤ w.kmax
      → w.kmax < 2 ^ 64
      → (w' : Walk) × (walk pages map_error page_size key fuel w ≡ some (none, w'))
        × Arrived key d w.node.no w'
  walk-Arrived map_error page_size key zero d w maps enough t from to fits = absurd (omega arith)
  walk-Arrived map_error page_size key (suc fuel) zero w maps enough t from to fits = (
    w,
    walk_stops map_error page_size key fuel w (rw t.type refl),
    record { leaf = t; kmin_le = from; le_kmax = to; kmax_lt = fits; occurs = (λ o. o, λ o. o) },
  )
  walk-Arrived map_error page_size key (suc fuel) (suc d) w maps enough t from to fits =
      let n = descend-Descended page_size key d w t from to fits in
      let next : Walk = descend pages page_size key w in
      let (w', runs, a) =
        walk-Arrived map_error page_size key fuel d next maps (omega arith) n.tree n.kmin_le
          n.le_kmax n.kmax_lt in
      (
        w',
        walk_goes_on map_error page_size key fuel w (rw t.type refl) (maps _) ∙ runs,
        record {
          leaf = a.leaf;
          kmin_le = a.kmin_le;
          le_kmax = a.le_kmax;
          kmax_lt = a.kmax_lt;
          occurs = (λ o. a.occurs.0 (n.occurs.0 o), λ o. n.occurs.1 (a.occurs.1 o));
        },
      )
