-- ===== src/Bpt/Laws/Moves.antt =====
-- The moves of lib/bpt.c between leaves, against the order of the tree's entries.
use eddy.Base.{
  ℕ, zero, suc, ◌+◌, ◌-◌, ◌≤◌, ◌<◌, ◌≡◌, refl, sym, ap, ◌∙◌, ◌⊎◌, inl, inr, ltb, arith, Bool-cases,
  Option, none, some, List, [], ◌∷◌, ◌++◌, append-nil, append_assoc,
}
use eddy.Base.Mem.{Mem}
use eddy.Base.Result.{Error, ok}
use eddy.Bpt.{Bpt, branch_key, key_max}
use eddy.Bpt.Edit.{pred64, find_kmax}
use eddy.Bpt.Txn.{Node}
use eddy.Bpt.Move.{Spot, down_first, up_right}
use eddy.Bpt.Step.{root_spot}
use eddy.Bpt.Order.{concat_from, slots, slots_right, IsShaped, IsPath}

module _ {E : Type 0} (pages : Mem (Bpt E)) (depth root : ℕ) where
  pub path_shape :
      (d : ℕ) (node : Node) (parents : List Node)
      → IsPath pages depth root d node parents
      → IsShaped pages d node.no
  path_shape d node [] (at, level, shaped) = rw (at, level) shaped
  path_shape d node (p ∷ ps) (le, at, path) =
      rw at ((path_shape (suc d) p ps path).1 node.pindex le)

  path_level :
      (d : ℕ) (node : Node) (parents : List Node)
      → IsPath pages depth root d node parents
      → d ≤ depth
  path_level d node [] (at, level, shaped) = omega (arith, level)
  path_level d node (p ∷ ps) (le, at, path) = omega (arith, path_level (suc d) p ps path)

  -- A node with the slots from it on.
  pub record Reached (d : ℕ) (s : Spot) (list : List (ℕ × ℕ)) : Type 0 where
    pub path : IsPath pages depth root d s.node s.parents
    pub all : slots pages d s.node.no ++ slots_right pages d s.node s.parents ≡ list

  pub root-Reached :
      IsShaped pages depth root → Reached depth (root_spot root) (slots pages depth root)
  root-Reached shaped = record {
    path = (refl, refl, shaped);
    all = append-nil (slots pages depth root);
  }

  -- The walk down keeps the slots, and ends at a leaf.
  pub down_first-Reached :
      (map_error : ℕ → Option Error) (fuel d : ℕ) (s : Spot) (list : List (ℕ × ℕ))
      → ((pg : ℕ) → map_error pg ≡ none)
      → d < fuel
      → Reached d s list
      → (s' : Spot) × (down_first pages map_error fuel s ≡ some (ok s')) × Reached 0 s' list
  unfolding down_first
  down_first-Reached map_error zero d s list mapped lt r = absurd (omega (arith, lt))
  down_first-Reached map_error (suc fuel) zero s list mapped lt r =
      let leaf = (path_shape 0 s.node s.parents r.path).0 in (s, rw leaf refl, r)
  down_first-Reached map_error (suc fuel) (suc d) s list mapped lt r =
      let (branch, children) = path_shape (suc d) s.node s.parents r.path in
      let b = pages s.node.no in
      let child : Node = record { no = b.ptrs 0; pindex = 0 } in
      let f = λ (i : ℕ). slots pages d (b.ptrs i) in
      let next : Spot = record s {
        node = child;
        parents = s.node ∷ s.parents;
        kmax = pred64 (branch_key b 1);
      } in
      let path : IsPath pages depth root d child (s.node ∷ s.parents) =
        (omega arith, refl, r.path) in
      let right = slots_right pages (suc d) s.node s.parents in
      let whole : b.nkeys - 0 ≡ b.nkeys = omega arith in
      let under = append_assoc (f 0) (concat_from f 1 b.nkeys) right in
      let (s', eq, there) =
        down_first-Reached map_error fuel d next list mapped (omega (arith, lt)) (record {
          path = path;
          all = ap (λ n. f 0 ++ (concat_from f 1 n ++ right)) whole ∙ sym under ∙ r.all;
        }) in
      (s', rw (branch, mapped (b.ptrs 0)) eq, there)

  -- The way up and to the right: the next slots are those right of the node, or it is the root and
  -- there are none.
  pub up_right-Reached :
      (map_error : ℕ → Option Error) (d : ℕ) (node : Node) (parents : List Node)
      → ((pg : ℕ) → map_error pg ≡ none)
      → IsPath pages depth root d node parents
      → (s : Spot) × (up_right pages map_error node parents ≡ ok s)
        × ((Reached depth s (slots pages depth root) × (slots_right pages d node parents ≡ []))
            ⊎ ((d' : ℕ) × (d' ≤ depth) × Reached d' s (slots_right pages d node parents)))
  unfolding up_right
  up_right-Reached map_error d node [] mapped (at, level, shaped) =
      let s : Spot = record { node = node; parents = []; kmin = 0; kmax = key_max } in
      (
        s,
        refl,
        inl (
          record {
            path = (at, refl, shaped);
            all = append-nil (slots pages depth node.no) ∙ ap (slots pages depth) at;
          },
          refl,
        ),
      )
  up_right-Reached map_error d node (p ∷ ps) mapped (le, at, path) =
      let b = pages p.no in
      elim (Bool-cases (ltb node.pindex b.nkeys)) [
        | inl more ↦
            let i : ℕ = node.pindex + 1 in
            let f = λ (j : ℕ). slots pages d (b.ptrs j) in
            let next : Node = record { no = b.ptrs i; pindex = i } in
            let s : Spot = record {
              node = next;
              parents = p ∷ ps;
              kmin = branch_key b i;
              kmax = find_kmax pages next (p ∷ ps);
            } in
            let left : b.nkeys - node.pindex ≡ suc (b.nkeys - i) = ground arith in
            let right = slots_right pages (suc d) p ps in
            (
              s,
              rw (more, mapped (b.ptrs i)) refl,
              inr (
                d,
                omega (arith, path_level (suc d) p ps path),
                record {
                  path = (ground arith, refl, path);
                  all =
                      sym (append_assoc (f i) (concat_from f (i + 1) (b.nkeys - i)) right)
                      ∙ ap (λ n. concat_from f i n ++ right) (sym left);
                },
              ),
            )
        | inr last ↦
            let none_left : b.nkeys - node.pindex ≡ 0 = ground arith in
            rw (last, none_left) (up_right-Reached map_error (suc d) p ps mapped path)
      ]
