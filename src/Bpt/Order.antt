-- ===== src/Bpt/Order.antt =====
-- The entries of a tree in order, as pages and slots, and where a cursor of lib/bpt.c stands among
-- them.
use eddy.Base.{ℕ, zero, suc, ◌+◌, ◌-◌, ◌≤◌, ◌<◌, ◌≡◌, List, [], ◌∷◌, ◌++◌, true, false, some}
use eddy.Base.Mem.{Mem}
use eddy.Bpt.{Bpt, Keyed, is_branch}
use eddy.Bpt.Leaf.{leaf_key}
use eddy.Bpt.Txn.{Node, Place}
use eddy.Bpt.Edit.{Db}

-- `n` slots of a leaf from slot `i` on.
abbrev pub leaf_slots : ℕ → ℕ → ℕ → List (ℕ × ℕ)
leaf_slots pg i zero = []
leaf_slots pg i (suc n) = (pg, i) ∷ leaf_slots pg (i + 1) n

-- The lists of `n` children from child `i` on.
abbrev pub concat_from {ℓ} : {A : Type ℓ} → (ℕ → List A) → ℕ → ℕ → List A
concat_from f i zero = []
concat_from f i (suc n) = f i ++ concat_from f (i + 1) n

module _ {E : Type 0} (pages : Mem (Bpt E)) where
  -- The slots of the tree at page `pg`, with `d` levels of branches.
  abbrev pub slots : ℕ → ℕ → List (ℕ × ℕ)
  slots zero pg = leaf_slots pg 0 (pages pg).nkeys
  slots (suc d) pg = concat_from (λ i. slots d ((pages pg).ptrs i)) 0 (suc (pages pg).nkeys)

  -- The slots right of a node that has `d` levels of branches.
  abbrev pub slots_right : ℕ → Node → List Node → List (ℕ × ℕ)
  slots_right d node [] = []
  slots_right d node (p ∷ ps) =
      let b = pages p.no in
      concat_from (λ i. slots d (b.ptrs i)) (node.pindex + 1) (b.nkeys - node.pindex)
      ++ slots_right (suc d) p ps

  -- The slots behind a place.
  abbrev pub slots_after : Place → List (ℕ × ℕ)
  slots_after at =
      leaf_slots at.leaf.no (at.eidx + 1) ((pages at.leaf.no).nkeys - at.eidx - 1)
      ++ slots_right 0 at.leaf at.parents

  -- All leaves are `d` levels down, and none is empty.
  abbrev pub IsShaped : ℕ → ℕ → Type 0
  IsShaped zero pg = (is_branch (pages pg) ≡ false) × (0 < (pages pg).nkeys)
  IsShaped (suc d) pg =
      (is_branch (pages pg) ≡ true)
      × ((i : ℕ) → i ≤ (pages pg).nkeys → IsShaped d ((pages pg).ptrs i))

  -- The parents of a node lead up to the root, from level `d` to level `depth`.
  abbrev pub IsPath : ℕ → ℕ → ℕ → Node → List Node → Type 0
  IsPath depth root d node [] = (node.no ≡ root) × (d ≡ depth) × IsShaped depth root
  IsPath depth root d node (p ∷ ps) =
      (node.pindex ≤ (pages p.no).nkeys)
      × (node.no ≡ (pages p.no).ptrs node.pindex)
      × IsPath depth root (suc d) p ps

  -- The cursor yields the entry `current`, and `rest` comes after it.
  pub record IsAt (depth root : ℕ) (db : Db) (current : ℕ × ℕ) (rest : List (ℕ × ℕ)) : Type 0 where
    pub place : Place
    pub at : db.find ≡ some place
    pub hasfind : db.hasfind ≡ true
    pub hasentry : db.hasentry ≡ true
    pub path : IsPath depth root 0 place.leaf place.parents
    pub inside : place.eidx < (pages place.leaf.no).nkeys
    pub here : (place.leaf.no, place.eidx) ≡ current
    pub after : slots_after place ≡ rest

-- What comes next in a ring: after the last entry, the first one.
abbrev pub ring {ℓ} : {A : Type ℓ} → List A → List A → List A
ring all [] = all
ring all (x ∷ rest) = x ∷ rest

-- The key of the entry at a slot.
abbrev pub key_at : {E : Type 0} ⦃e : Keyed E⦄ → Mem (Bpt E) → ℕ × ℕ → ℕ
key_at pages (pg, i) = leaf_key (pages pg).ents i
