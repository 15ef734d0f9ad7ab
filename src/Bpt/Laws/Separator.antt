-- ===== src/Bpt/Laws/Separator.antt =====
-- The key between the two leaves of a split: a search that compares with it finds the right one.
use eddy.Base.{
  ℕ, ◌+◌, ◌-◌, ◌≤◌, ◌<◌, ◌≡◌, ◌≢◌, Bool, ltb, ◌==◌, arith, if◌then◌else◌, Bool-cases, inl, inr,
}
use eddy.Base.Mem.{Mem}
use eddy.Bpt.{Bpt, Keyed, leaf_order}
use eddy.Bpt.Leaf.{Cursor, leaf_key, split_key}
use eddy.Bpt.Insert.{left_leaf, right_leaf}
use eddy.Bpt.Laws.Leaf.{
  inserted, stored, split_left_at, split_left_only_at, split_right_at, split_right_only_at,
}
use eddy.Bpt.Laws.SplitPoint.{IsSorted, AtSearch}

module _ {E : Type 0} ⦃e : Keyed E⦄ where
  abbrev pub KeysBelow : ℕ → Bpt E → Type 0
  KeysBelow k l = (i : ℕ) → i < l.nkeys → leaf_key l.ents i < k

  abbrev pub KeysFrom : ℕ → Bpt E → Type 0
  KeysFrom k l = (i : ℕ) → i < l.nkeys → k ≤ leaf_key l.ents i

  -- The slot `eidx` is one where an entry with the cursor's key keeps the order.
  abbrev pub IsSlot : Cursor → Mem E → ℕ → Type 0
  IsSlot c l n =
      (c.entry_index ≤ n)
      × ((i : ℕ) → i < c.entry_index → leaf_key l i ≤ c.key)
      × ((i : ℕ) → c.entry_index ≤ i → i < n → c.key ≤ leaf_key l i)

  -- A split at `mid` of the leaf that the search of a new entry has reached.
  pub record IsSplit (c : Cursor) (src : Mem E) (n mid : ℕ) (ent : E) : Type 0 where
    pub same_key : e.key_of ent ≡ c.key
    pub sorted : IsSorted src n
    pub slot : IsSlot c src n
    pub search : AtSearch c src n
    pub inside : mid < n
    pub rises : leaf_key src (mid - 1) < leaf_key src mid
    pub pos : 0 < mid

  key_below : (x y : E) (k : ℕ) → x ≡ y → e.key_of y < k → e.key_of x < k
  key_below x y k h l = rw h l

  key_from : (x y : E) (k : ℕ) → x ≡ y → k ≤ e.key_of y → k ≤ e.key_of x
  key_from x y k h l = rw h l

  separates :
      (c : Cursor) (src : Mem E) (n mid : ℕ) (ent : E)
      → IsSplit c src n mid ent
      → leaf_key src (mid - 1) < split_key c src mid c.entry_index
  unfolding split_key
  separates c src n mid ent h = elim (Bool-cases (mid == c.entry_index)) [
    | inl eq ↦
        let at_mid : mid ≡ c.entry_index = ground arith in
        let before = h.slot.1 (mid - 1) (omega (arith, h.pos)) in
        let miss : c.nmatches ≡ 0 → leaf_key src (mid - 1) ≢ c.key =
          λ z. h.search.miss z (mid - 1) (omega (arith, h.inside)) in
        let hit : 0 < c.nmatches → leaf_key src mid ≡ c.key =
          λ p. h.search.hits p mid (omega arith) (omega arith) in
        let rises = h.rises in rw eq (grind arith)
    | inr ne ↦ rw ne h.rises
  ]

  -- The array with the new entry, before and from the split.
  inserted_below :
      (c : Cursor) (src : Mem E) (n mid : ℕ) (ent : E) (k : ℕ)
      → IsSplit c src n mid ent
      → k < (if ltb c.entry_index mid then mid + 1 else mid)
      → leaf_key (inserted src c.entry_index ent) k < split_key c src mid c.entry_index
  unfolding split_key
  inserted_below c src n mid ent k h p =
      let same = h.same_key in
      let pos = h.pos in
      let middle : leaf_key src (mid - 1) < split_key c src mid c.entry_index =
        separates c src n mid ent h in
      let below = h.sorted k (mid - 1) in
      let below' = h.sorted (k - 1) (mid - 1) in
      let eidx_below = h.sorted c.entry_index (mid - 1) in
      let after = h.slot.2 c.entry_index in let inside = h.inside in grind arith

  inserted_from :
      (c : Cursor) (src : Mem E) (n mid : ℕ) (ent : E) (k : ℕ)
      → IsSplit c src n mid ent
      → (if ltb c.entry_index mid then mid + 1 else mid) ≤ k
      → k ≤ n
      → split_key c src mid c.entry_index ≤ leaf_key (inserted src c.entry_index ent) k
  unfolding split_key
  inserted_from c src n mid ent k h p q =
      let same = h.same_key in
      let inside = h.inside in
      let before = h.slot.1 mid in
      let after = h.slot.2 k in
      let rise = h.sorted mid k in let rise' = h.sorted mid (k - 1) in grind arith

module _ {E : Type 0} ⦃e : Keyed E⦄ (page_size : ℕ) where
  -- The pages after the split, with the entry stored in its half.
  abbrev pub left_page : Cursor → Bool → Bpt E → Bpt E → ℕ → E → Bpt E
  left_page c cloned left src mid ent =
      let l = left_leaf page_size cloned left src mid c.entry_index in
      if ltb c.entry_index mid then stored page_size l c.entry_index ent else l

  abbrev pub right_page : Cursor → Bpt E → Bpt E → ℕ → E → Bpt E
  right_page c right src mid ent =
      let r = right_leaf page_size right src mid c.entry_index in
      if ltb c.entry_index mid then r else stored page_size r (c.entry_index - mid) ent

  -- If a leaf of no more than `leaf_order` entries, whose keys do not fall, is split at `mid`, where the keys rise, and
  -- the new entry has the key that was searched for, which is in order at the slot that the search has
  -- reached, then `split_key` separates
  -- the two pages: the keys of the left one are below it, and those of the right one are not,
  -- whichever page takes the new entry and whether the left page is the leaf itself or a clone.
  pub split_key-Separates :
      (c : Cursor) (cloned : Bool) (left right src : Bpt E) (mid : ℕ) (ent : E)
      → src.nkeys ≤ leaf_order page_size e.esize
      → IsSplit c src.ents src.nkeys mid ent
      → KeysBelow (split_key c src.ents mid c.entry_index) (left_page c cloned left src mid ent)
        × KeysFrom (split_key c src.ents mid c.entry_index) (right_page c right src mid ent)
  unfolding left_leaf right_leaf
  split_key-Separates c cloned left right src mid ent full h =
      let slot = h.slot.0 in
      let inside = h.inside in
      elim (Bool-cases (ltb c.entry_index mid)) [
        | inl lt ↦
            let below = inserted_below c src.ents src.nkeys mid ent in
            let from = inserted_from c src.ents src.nkeys mid ent in
            rw lt (
              λ i p.
                  key_below _ _ _
                    (split_left_at _ src.ents mid c.entry_index i ent (ground arith)
                      (omega (arith, p)))
                    (below i h (rw lt (omega (arith, p)))),
              λ i p.
                  key_from _ _ _
                    (split_right_only_at right.ents src.ents mid c.entry_index _ i ent
                      (ground arith) (omega (arith, p, full)))
                    (from (mid + 1 + i) h (rw lt (omega arith)) (omega (arith, p, full))),
            )
        | inr ge ↦
            let below = inserted_below c src.ents src.nkeys mid ent in
            let from = inserted_from c src.ents src.nkeys mid ent in
            rw ge (
              λ i p.
                  key_below _ _ _
                    (split_left_only_at _ src.ents mid c.entry_index i ent (ground arith) p)
                    (below i h (rw ge p)),
              λ i p.
                  key_from _ _ _
                    (split_right_at right.ents src.ents mid c.entry_index _ i ent (ground arith)
                      (omega (arith, slot)) (omega (arith, p)))
                    (from (mid + i) h (rw ge (omega arith)) (omega (arith, p, inside))),
            )
      ]
