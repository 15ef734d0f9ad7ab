-- ===== src/Bpt/Laws/Search.antt =====
-- The searches within a branch and within a leaf.
use eddy.Base.{
  ℕ, zero, suc, ◌+◌, ◌≤◌, ◌<◌, ◌≡◌, refl, inl, inr, true, false, ltb, ◌==◌, arith, Bool-cases,
}
use eddy.Base.Mem.{Mem}
use eddy.Bpt.{Bpt, Keyed, branch_search, search_from}
use eddy.Bpt.Leaf.{leaf_key}
use eddy.Bpt.Find.{Hit, search_leaf}
use eddy.Bpt.Tree.{low, high}
use eddy.Bpt.Laws.SplitPoint.{IsSorted}

pub record Searched (keys : Mem ℕ) (key i n r : ℕ) : Type 0 where
  pub from : i ≤ r
  pub to : r ≤ i + n
  pub before : (j : ℕ) → i ≤ j → j < r → keys j ≤ key
  pub after : r < i + n → key < keys r

pub search_from_lem :
    (keys : Mem ℕ) (key i n : ℕ)
    → ((j k : ℕ) → j < k → k < i + n → keys j < keys k)
    → Searched keys key i n (search_from keys key i n)
unfolding search_from
search_from_lem keys key i zero rises = record {
  from = omega arith;
  to = omega arith;
  before = λ j p q. absurd (omega arith);
  after = λ p. absurd (omega arith);
}
search_from_lem keys key i (suc n) rises = elim (Bool-cases (ltb key (keys i))) [
  | inl lt ↦ rw lt (record {
    from = omega arith;
    to = omega arith;
    before = λ j p q. absurd (omega arith);
    after = λ p. ground arith;
  })
  | inr ge ↦ elim (Bool-cases (key == keys i)) [
    | inl eq ↦
        let next = rises i (i + 1) (omega arith) in
        rw (ge, eq)
          (record {
            from = omega arith;
            to = omega arith;
            before = λ j p q. ground arith;
            after = λ p. grind arith;
          })
    | inr ne ↦
        let r = search_from_lem keys key (i + 1) n (λ j k p q. rises j k p (omega arith)) in
        rw (ge, ne)
          (record {
            from = omega (arith, r.from);
            to = omega (arith, r.to);
            before = λ j p q. grind (arith, r.before j);
            after = λ p. r.after (omega arith);
          })
  ]
]

module _ {E : Type 0} where
  -- In a branch with rising keys, `branch_search` gives the pointer under which the key belongs.
  pub branch_search-low-high :
      (b : Bpt E) (key lo hi : ℕ)
      → ((i j : ℕ) → i < j → j < b.nkeys → b.keys i < b.keys j)
      → lo ≤ key
      → key < hi
      → (branch_search b key ≤ b.nkeys)
        × (low b lo (branch_search b key) ≤ key)
        × (key < high b hi (branch_search b key))
  unfolding branch_search
  branch_search-low-high b key lo hi rises from below =
      let r = search_from_lem b.keys key 0 b.nkeys (λ i j p q. rises i j p (omega arith)) in
      (omega (arith, r.to), lower b key lo _ from r, ground (arith, r.after))
    where
      lower :
          (b : Bpt E) (key lo r : ℕ) → lo ≤ key → Searched b.keys key 0 b.nkeys r → low b lo r ≤ key
      lower b key lo zero from r = from
      lower b key lo (suc i) from r = r.before i (omega arith) (omega arith)

module _ {E : Type 0} ⦃e : Keyed E⦄ where
  -- The result of the leaf's search, started at slot `i` with the bounds `lo` and `hi`.
  pub record LeafSearched (l : Mem E) (key n lo hi i : ℕ) (h : Hit) : Type 0 where
    pub from : i ≤ h.index
    pub to : h.index ≤ n
    pub before : (j : ℕ) → i ≤ j → j < h.index → leaf_key l j < key
    pub lower : (j : ℕ) → i ≤ j → j < h.index → leaf_key l j ≤ h.kmin
    pub kmin_le : h.kmin ≤ key
    pub le_kmax : key ≤ h.kmax
    pub upper : h.index < n → h.kmax ≡ leaf_key l h.index
    pub lo_le : lo ≤ h.kmin
    pub le_hi : h.kmax ≤ hi
    pub hit : h.found ≡ true → (h.index < n) × (leaf_key l h.index ≡ key)
    pub miss : h.found ≡ false → h.index < n → key < leaf_key l h.index

  pub search_leaf_lem :
      (l : Mem E) (key n left i lo hi : ℕ)
      → i + left ≡ n
      → IsSorted l n
      → lo ≤ key
      → key ≤ hi
      → ((j : ℕ) → i ≤ j → j < n → (lo ≤ leaf_key l j) × (leaf_key l j ≤ hi))
      → LeafSearched l key n lo hi i (search_leaf l key left i lo hi)
  unfolding search_leaf
  search_leaf_lem l key n zero i lo hi eq sorted from to inside = record {
    from = omega arith;
    to = omega arith;
    before = λ j p q. absurd (omega arith);
    lower = λ j p q. absurd (omega arith);
    kmin_le = from;
    le_kmax = to;
    upper = λ p. absurd (omega arith);
    lo_le = omega arith;
    le_hi = omega arith;
    hit = λ p. absurd cc;
    miss = λ p q. absurd (omega arith);
  }
  search_leaf_lem l key n (suc left) i lo hi eq sorted from to inside =
      let here = inside i (omega arith) (omega arith) in
      elim (Bool-cases (key == leaf_key l i)) [
        | inl same ↦ rw same (record {
          from = omega arith;
          to = omega arith;
          before = λ j p q. absurd (omega arith);
          lower = λ j p q. absurd (omega arith);
          kmin_le = from;
          le_kmax = ground arith;
          upper = λ p. refl;
          lo_le = omega arith;
          le_hi = here.1;
          hit = λ p. (omega arith, ground arith);
          miss = λ p. absurd cc;
        })
        | inr differs ↦ elim (Bool-cases (ltb key (leaf_key l i))) [
          | inl lt ↦
              rw (differs, lt)
                (record {
                  from = omega arith;
                  to = omega arith;
                  before = λ j p q. absurd (omega arith);
                  lower = λ j p q. absurd (omega arith);
                  kmin_le = from;
                  le_kmax = ground arith;
                  upper = λ p. refl;
                  lo_le = omega arith;
                  le_hi = here.1;
                  hit = λ p. absurd cc;
                  miss = λ p q. ground arith;
                })
          | inr gt ↦
              let passed : leaf_key l i < key = ground arith in
              let r =
                search_leaf_lem l key n left (i + 1) (leaf_key l i) hi (omega arith) sorted
                  (omega arith) to
                  (λ j p q. (sorted i j (omega arith) q, (inside j (omega arith) q).1)) in
              rw (differs, gt)
                (record {
                  from = omega (arith, r.from);
                  to = r.to;
                  before = λ j p q. grind (arith, r.before j);
                  lower = λ j p q. grind (arith, r.lower j, r.lo_le);
                  kmin_le = r.kmin_le;
                  le_kmax = r.le_kmax;
                  upper = r.upper;
                  lo_le = omega (arith, here, r.lo_le);
                  le_hi = r.le_hi;
                  hit = r.hit;
                  miss = r.miss;
                })
        ]
      ]
