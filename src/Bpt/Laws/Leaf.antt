-- ===== src/Bpt/Laws/Leaf.antt =====
-- The entries of a leaf after an insertion, with and without a split, and after a removal.
use eddy.Base.{
  ℕ, suc, ◌+◌, ◌-◌, ◌≤◌, ◌<◌, ◌≡◌, sym, ◌∙◌, ap, ap₂, Bool, true, false, ltb, ◌==◌, arith, List,
  ◌∷◌, ◌++◌, Option, none, some, if◌then◌else◌,
}
use eddy.Base.Mem.{Mem, put, slice, slice_ext, slice_split}
use eddy.Bpt.{Bpt, Keyed, leaf_order}
use eddy.Bpt.Leaf.{
  open_slot, close_slot, split_left, split_left_only, split_right, split_right_only,
}
use eddy.Bpt.Insert.{left_leaf, right_leaf}

module _ {E : Type 0} where
  abbrev pub entries : Bpt E → List E
  entries l = slice l.ents 0 l.nkeys

  -- The array with `ent` put before slot `i`.
  abbrev pub inserted : Mem E → ℕ → E → Mem E
  inserted src i ent j = if ltb j i then src j else if i == j then ent else src (j - 1)

  slice-inserted :
      (src : Mem E) (i : ℕ) (ent : E) (n : ℕ)
      → i ≤ n
      → slice (inserted src i ent) 0 (n + 1) ≡ slice src 0 i ++ ent ∷ slice src i (n - i)
  slice-inserted src i ent n h =
      let e : n + 1 ≡ i + suc (n - i) = omega arith in
      rw e (
        slice_split (inserted src i ent) 0 i (suc (n - i))
        ∙ ap₂ ◌++◌ (slice_ext _ src 0 0 i (λ k p. ground arith))
            (ap₂ ◌∷◌ (ground arith) (slice_ext _ src _ i (n - i) (λ k p. ground arith))))

  -- Two pages that hold the array's halves hold the array.
  slice_halves :
      (m l r : Mem E) (a b : ℕ)
      → ((k : ℕ) → k < a → l k ≡ m k)
      → ((k : ℕ) → k < b → r k ≡ m (a + k))
      → slice l 0 a ++ slice r 0 b ≡ slice m 0 (a + b)
  slice_halves m l r a b h k =
      ap₂ ◌++◌ (slice_ext l m 0 0 a (λ i p. ground (arith, h i)))
        (slice_ext r m 0 (0 + a) b (λ i p. ground (arith, k i)))
      ∙ sym (slice_split m 0 a b)

  -- If slot `eidx` is opened among `n` entries, `eidx` no more than `n`, in a page that already has
  -- the entries before it, and the new entry is stored there, the page holds the old entries with
  -- the new one before slot `eidx`.
  pub entries-open_slot :
      (dst src : Mem E) (eidx n : ℕ) (ent : E)
      → eidx ≤ n
      → ((k : ℕ) → k < eidx → dst k ≡ src k)
      → slice (put (open_slot dst src eidx n) eidx ent) 0 (n + 1)
        ≡ slice src 0 eidx ++ ent ∷ slice src eidx (n - eidx)
  unfolding open_slot
  entries-open_slot dst src eidx n ent h same =
      slice_ext _ (inserted src eidx ent) 0 0 (n + 1) (λ k p. ground (arith, same k))
      ∙ slice-inserted src eidx ent n h

  -- If slot `eidx` below `n` is closed, the first `n - 1` slots hold the old entries without that
  -- of slot `eidx`.
  pub entries-close_slot :
      (src : Mem E) (eidx n : ℕ)
      → eidx < n
      → slice (close_slot src eidx n) 0 (n - 1)
        ≡ slice src 0 eidx ++ slice src (eidx + 1) (n - 1 - eidx)
  unfolding close_slot
  entries-close_slot src eidx n h =
      let e : n - 1 ≡ eidx + (n - 1 - eidx) = omega arith in
      let f : slice (close_slot src eidx n) 0 (eidx + (n - 1 - eidx))
          ≡ slice src 0 eidx ++ slice src (eidx + 1) (n - 1 - eidx) =
        slice_split (close_slot src eidx n) 0 eidx (n - 1 - eidx)
        ∙ ap₂ ◌++◌ (slice_ext _ src 0 0 eidx (λ k p. ground arith))
            (slice_ext _ src _ (eidx + 1) (n - 1 - eidx) (λ k p. ground arith)) in
      ap (slice (close_slot src eidx n) 0) e ∙ f

  -- The slots of the halves, for the clone and for the page itself.
  pub split_left_at :
      (fresh : Option (Mem E)) (src : Mem E) (mid eidx k : ℕ) (ent : E)
      → eidx < mid
      → k ≤ mid
      → put (split_left fresh src mid eidx) eidx ent k ≡ inserted src eidx ent k
  unfolding split_left
  split_left_at none src mid eidx k ent h l = ground arith
  split_left_at (some f) src mid eidx k ent h l = ground arith

  pub split_left_only_at :
      (fresh : Option (Mem E)) (src : Mem E) (mid eidx k : ℕ) (ent : E)
      → mid ≤ eidx
      → k < mid
      → split_left_only fresh src mid k ≡ inserted src eidx ent k
  unfolding split_left_only
  split_left_only_at none src mid eidx k ent h l = ground arith
  split_left_only_at (some f) src mid eidx k ent h l = ground arith

  pub split_right_only_at :
      (right src : Mem E) (mid eidx order k : ℕ) (ent : E)
      → eidx < mid
      → k < order - mid
      → split_right_only right src mid order k ≡ inserted src eidx ent (mid + 1 + k)
  unfolding split_right_only
  split_right_only_at right src mid eidx order k ent h l = ground arith

  pub split_right_at :
      (right src : Mem E) (mid eidx n k : ℕ) (ent : E)
      → mid ≤ eidx
      → eidx - mid ≤ n
      → k ≤ n
      → put (split_right right src mid (eidx - mid) n) (eidx - mid) ent k
        ≡ inserted src eidx ent (mid + k)
  unfolding split_right
  split_right_at right src mid eidx n k ent h l m = ground arith

module _ {E : Type 0} ⦃e : Keyed E⦄ (page_size : ℕ) where
  -- The entry stored in a page and counted, as `insert_into_leaf` does after `split_leaf`.
  abbrev pub stored : Bpt E → ℕ → E → Bpt E
  stored l i ent = record l { nkeys = l.nkeys + 1; ents = put l.ents i ent }

  -- If a leaf of no more than `leaf_order` entries is split at `mid` and the new entry is stored at
  -- slot `eidx` below `mid` of the left page, the two pages together hold the old entries with the
  -- new one before slot `eidx`, in order, whether the left page is the leaf itself or a clone.
  pub entries-split_leaf_left :
      (cloned : Bool) (left right src : Bpt E) (mid eidx : ℕ) (ent : E)
      → eidx < mid
      → mid ≤ src.nkeys
      → src.nkeys ≤ leaf_order page_size e.esize
      → entries (stored (left_leaf page_size cloned left src mid eidx) eidx ent)
          ++ entries (right_leaf page_size right src mid eidx)
        ≡ slice src.ents 0 eidx ++ ent ∷ slice src.ents eidx (src.nkeys - eidx)
  unfolding left_leaf right_leaf
  entries-split_leaf_left cloned left right src mid eidx ent h hm ho =
      let t : ltb eidx mid ≡ true = ground arith in
      let n : mid + 1 + (src.nkeys - mid) ≡ src.nkeys + 1 = omega arith in
      rw t (
        slice_halves (inserted src.ents eidx ent) _ _ (mid + 1) (src.nkeys - mid)
          (λ k p. split_left_at _ src.ents mid eidx k ent h (omega arith))
          (λ k p. split_right_only_at right.ents src.ents mid eidx _ k ent h (omega arith))
        ∙ ap (slice (inserted src.ents eidx ent) 0) n
        ∙ slice-inserted src.ents eidx ent src.nkeys (omega arith))

  -- If a leaf is split at `mid` and the new entry is stored at slot `eidx - mid` of the right page,
  -- with `eidx` from `mid` to the leaf's count, the two pages together hold the old entries with
  -- the new one before slot `eidx`, in order, whether the left page is the leaf itself or a clone.
  pub entries-split_leaf_right :
      (cloned : Bool) (left right src : Bpt E) (mid eidx : ℕ) (ent : E)
      → mid ≤ eidx
      → eidx ≤ src.nkeys
      → entries (left_leaf page_size cloned left src mid eidx)
          ++ entries (stored (right_leaf page_size right src mid eidx) (eidx - mid) ent)
        ≡ slice src.ents 0 eidx ++ ent ∷ slice src.ents eidx (src.nkeys - eidx)
  unfolding left_leaf right_leaf
  entries-split_leaf_right cloned left right src mid eidx ent h he =
      let t : ltb eidx mid ≡ false = ground arith in
      let n : mid + (src.nkeys - mid + 1) ≡ src.nkeys + 1 = omega arith in
      rw t (
        slice_halves (inserted src.ents eidx ent) _ _ mid (src.nkeys - mid + 1)
          (λ k p. split_left_only_at _ src.ents mid eidx k ent h p)
          (λ k p. split_right_at right.ents src.ents mid eidx _ k ent h (omega arith) (omega arith))
        ∙ ap (slice (inserted src.ents eidx ent) 0) n
        ∙ slice-inserted src.ents eidx ent src.nkeys he)
