-- ===== src/Bpt/Tree.antt =====
-- A tree over pages, as lib/bpt.c keeps it: `depth` levels of branches above the leaves.
use eddy.Base.{ℕ, zero, suc, ◌≤◌, ◌<◌, ◌≡◌, ltb, if◌then◌else◌}
use eddy.Base.Mem.{Mem}
use eddy.Bpt.{Bpt, Keyed, pg_branch, pg_leaf}
use eddy.Bpt.Leaf.{leaf_key}
use eddy.Bpt.Laws.SplitPoint.{IsSorted}

module _ {E : Type 0} where
  -- The keys under pointer `i` are from `low` on and below `high`, in a branch with the keys
  -- `lo ..< hi`.
  abbrev pub low : Bpt E → ℕ → ℕ → ℕ
  low b lo zero = lo
  low b lo (suc i) = b.keys i

  abbrev pub high : Bpt E → ℕ → ℕ → ℕ
  high b hi i = if ltb i b.nkeys then b.keys i else hi

  pub record IsBranch (Child : ℕ → ℕ → ℕ → Type 0) (b : Bpt E) (lo hi : ℕ) : Type 0 where
    pub type : b.type ≡ pg_branch
    pub rises : (i j : ℕ) → i < j → j < b.nkeys → b.keys i < b.keys j
    pub from : (i : ℕ) → i < b.nkeys → lo ≤ b.keys i
    pub below : (i : ℕ) → i < b.nkeys → b.keys i < hi
    pub children : (i : ℕ) → i ≤ b.nkeys → Child (b.ptrs i) (low b lo i) (high b hi i)

  -- A page of the tree is the same in both page maps, and so are its children.
  abbrev pub SameTree : Mem (Bpt E) → Mem (Bpt E) → ℕ → ℕ → Type 0
  SameTree p q zero pg = q pg ≡ p pg
  SameTree p q (suc d) pg =
      (q pg ≡ p pg) × ((i : ℕ) → i ≤ (p pg).nkeys → SameTree p q d ((p pg).ptrs i))

module _ {E : Type 0} ⦃e : Keyed E⦄ where
  pub record IsLeaf (l : Bpt E) (lo hi : ℕ) : Type 0 where
    pub type : l.type ≡ pg_leaf
    pub sorted : IsSorted l.ents l.nkeys
    pub from : (i : ℕ) → i < l.nkeys → lo ≤ leaf_key l.ents i
    pub below : (i : ℕ) → i < l.nkeys → leaf_key l.ents i < hi

  -- The tree at page `pg` with keys in `lo ..< hi`.
  abbrev pub IsTree : Mem (Bpt E) → ℕ → ℕ → ℕ → ℕ → Type 0
  IsTree pages zero pg lo hi = IsLeaf (pages pg) lo hi
  IsTree pages (suc d) pg lo hi = IsBranch (IsTree pages d) (pages pg) lo hi

  -- An entry with the key `key` is in the tree.
  abbrev pub Occurs : Mem (Bpt E) → ℕ → ℕ → ℕ → Type 0
  Occurs pages zero pg key = (i : ℕ) × (i < (pages pg).nkeys) × (leaf_key (pages pg).ents i ≡ key)
  Occurs pages (suc d) pg key =
      (i : ℕ) × (i ≤ (pages pg).nkeys) × Occurs pages d ((pages pg).ptrs i) key
