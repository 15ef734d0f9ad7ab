-- ===== src/Bpt/Laws/Located.antt =====
-- What `ed_bpt_find` leaves in the cursor.
use eddy.Base.{
  ℕ, ◌^◌, ◌≤◌, ◌<◌, ◌≡◌, refl, ap, ◌∙◌, ◌↔◌, inl, inr, Bool, true, arith, if◌then◌else◌, Bool-cases,
  Option, none, some,
}
use eddy.Base.Mem.{Mem}
use eddy.Base.Result.{Error, ok}
use eddy.Bpt.{Bpt, Keyed, is_leaf_full}
use eddy.Bpt.Leaf.{leaf_key}
use eddy.Bpt.Txn.{Txn, Place}
use eddy.Bpt.Edit.{Db}
use eddy.Bpt.Find.{
  Walk, Hit, search_leaf, walk, from_root, find_done, found_at, reset, count_full, find_from,
  bpt_find,
}
use eddy.Bpt.Tree.{IsTree, Occurs}
use eddy.Bpt.Laws.SplitPoint.{IsSorted, AtSearch}
use eddy.Bpt.Laws.Separator.{IsSlot}
use eddy.Bpt.Laws.Search.{LeafSearched, search_leaf_lem}
use eddy.Bpt.Laws.Find.{Arrived, walk-Arrived}

found_at-key :
    (db : Db) (key : ℕ) (w : Walk) (nsplits : ℕ) (h : Hit) → (found_at db key w nsplits h).key ≡ key
unfolding found_at
found_at-key db key w nsplits h = refl

module _ {E : Type 0} ⦃e : Keyed E⦄ where
  -- The cursor stands at the search's result for its key: `AtSearch` holds, and an entry with any
  -- key from `kmin` to `kmax` keeps the leaf's order at its slot.
  pub record Located (pages : Mem (Bpt E)) (db : Db) : Type 0 where
    pub place : Place
    pub at : db.find ≡ some place
    pub hasfind : db.hasfind ≡ true
    pub kmin_le : db.kmin ≤ db.key
    pub le_kmax : db.key ≤ db.kmax
    pub search :
        let l = pages place.leaf.no in
        AtSearch
          (record { key = db.key; entry_index = place.eidx; nmatches = db.nmatches })
          l.ents
          l.nkeys
    pub slot :
        (key : ℕ)
        → db.kmin ≤ key
        → key ≤ db.kmax
        → let l = pages place.leaf.no in
          IsSlot
            (record { key = key; entry_index = place.eidx; nmatches = db.nmatches })
            l.ents
            l.nkeys

  hit-AtSearch :
      (l : Mem E) (key n lo hi : ℕ) (h : Hit)
      → IsSorted l n
      → LeafSearched l key n lo hi 0 h
      → AtSearch
          (record { key = key; entry_index = h.index; nmatches = if h.found then 1 else 0 })
          l
          n
  hit-AtSearch l key n lo hi h sorted r = elim (Bool-cases h.found) [
    | inl found ↦
        let hit = r.hit found in
        rw found (record {
          miss = λ z. absurd (omega arith);
          inside = λ p. (omega (arith, hit), omega arith);
          hits = λ p i q q'. let last : i ≡ h.index = omega arith in rw last hit.1;
          before = λ p i q. r.before i (omega arith) (omega arith);
        })
    | inr missed ↦ rw missed (record {
      miss = λ z i p. grind (arith, r.before i (omega arith), r.miss missed, sorted h.index i);
      inside = λ p. absurd (omega arith);
      hits = λ p. absurd (omega arith);
      before = λ p. absurd (omega arith);
    })
  ]

  hit-IsSlot :
      (l : Mem E) (key n lo hi k m : ℕ) (h : Hit)
      → IsSorted l n
      → LeafSearched l key n lo hi 0 h
      → h.kmin ≤ k
      → k ≤ h.kmax
      → IsSlot (record { key = k; entry_index = h.index; nmatches = m }) l n
  hit-IsSlot l key n lo hi k m h sorted r from to = (
    r.to,
    λ i p. omega (arith, r.lower i (omega arith) p, from),
    λ i p q. let first = r.upper (omega arith) in omega (arith, sorted h.index i p q, first, to),
  )

  hit_iff :
      (l : Mem E) (key n lo hi : ℕ) (h : Hit)
      → IsSorted l n
      → LeafSearched l key n lo hi 0 h
      → (h.found ≡ true) ↔ ((i : ℕ) × (i < n) × (leaf_key l i ≡ key))
  hit_iff l key n lo hi h sorted r = (λ found. (h.index, (r.hit found).0, (r.hit found).1), back)
    where
      back : ((i : ℕ) × (i < n) × (leaf_key l i ≡ key)) → h.found ≡ true
      back (i, p, same) = elim (Bool-cases h.found) [
        | inl found ↦ found
        | inr missed ↦
            absurd ((hit-AtSearch l key n lo hi h sorted r).miss (rw missed refl) i p same)
      ]

  leaf_searched :
      (pages : Mem (Bpt E)) (key d pg : ℕ) (w : Walk)
      → Arrived pages key d pg w
      → let l = pages w.node.no in
        LeafSearched l.ents key l.nkeys w.kmin w.kmax 0
          (search_leaf l.ents key l.nkeys 0 w.kmin w.kmax)
  leaf_searched pages key d pg w a =
      let l = pages w.node.no in
      search_leaf_lem l.ents key l.nkeys l.nkeys 0 w.kmin w.kmax (omega arith) a.leaf.sorted
        a.kmin_le a.le_kmax
        (λ j p q. let below = a.leaf.below j q in (a.leaf.from j q, omega (arith, below)))

  found_at-Located :
      (pages : Mem (Bpt E)) (db : Db) (key d pg nsplits : ℕ) (w : Walk)
      → Arrived pages key d pg w
      → let l = pages w.node.no in
        Located pages (found_at db key w nsplits (search_leaf l.ents key l.nkeys 0 w.kmin w.kmax))
  unfolding found_at
  found_at-Located pages db key d pg nsplits w a =
      let l = pages w.node.no in
      let h : Hit = search_leaf l.ents key l.nkeys 0 w.kmin w.kmax in
      let r = leaf_searched pages key d pg w a in
      record {
        place = record { leaf = w.node; parents = w.parents; eidx = h.index };
        at = refl;
        hasfind = refl;
        kmin_le = r.kmin_le;
        le_kmax = r.le_kmax;
        search = hit-AtSearch l.ents key l.nkeys w.kmin w.kmax h a.leaf.sorted r;
        slot = λ k from to.
            hit-IsSlot l.ents key l.nkeys w.kmin w.kmax k (if h.found then 1 else 0) h a.leaf.sorted
              r from to;
      }

  found_eq :
      (page_size : ℕ) (map_error : ℕ → Option Error) (fuel : ℕ) (db : Db) (key : ℕ) (t : Txn E)
      (pg : ℕ) (r : Option Error × Walk)
      → t.root ≡ some pg
      → walk t.pages map_error page_size key fuel (from_root t.pages page_size pg) ≡ some r
      → bpt_find page_size map_error true fuel db key t
        ≡ some (find_done (reset (some pg) db) page_size key t r)
  unfolding bpt_find find_from
  found_eq page_size map_error fuel db key t pg r root runs =
      ap (λ o. find_from page_size map_error fuel db key o t) root ∙ rw (find_from, runs) refl

  arrives :
      (page_size : ℕ) (map_error : ℕ → Option Error) (fuel d key : ℕ) (pages : Mem (Bpt E)) (pg : ℕ)
      → ((pg : ℕ) → map_error pg ≡ none)
      → d < fuel
      → IsTree pages d pg 0 (2 ^ 64)
      → key < 2 ^ 64
      → (w : Walk) × (walk pages map_error page_size key fuel (from_root pages page_size pg)
          ≡ some (none, w))
        × Arrived pages key d pg w
  unfolding from_root
  arrives page_size map_error fuel d key pages pg maps enough tree fits =
      walk-Arrived pages map_error page_size key fuel d (from_root pages page_size pg) maps enough
        tree (omega arith) (omega arith) (omega arith)

  find_done-eq :
      (db : Db) (page_size key : ℕ) (t : Txn E) (w : Walk)
      → let l = t.pages w.node.no in
        let h = search_leaf l.ents key l.nkeys 0 w.kmin w.kmax in
        find_done db page_size key t (none, w)
        ≡ (ok h.found, found_at db key w (count_full (is_leaf_full page_size l) w.nsplits) h, t)
  unfolding find_done
  find_done-eq db page_size key t w = refl

  -- In a tree of `d` levels above the leaves, with the root's page in the transaction, for a 64-bit
  -- key, if every page can be mapped and the fuel is more than `d`: `ed_bpt_find` succeeds and
  -- changes nothing but the cursor. It reports a match exactly if an entry of the tree has the
  -- key, and leaves the cursor at its slot, where an entry with any key from `kmin` to `kmax` keeps
  -- the leaf's order.
  pub bpt_find-Located :
      (page_size : ℕ) (map_error : ℕ → Option Error) (fuel d : ℕ) (db : Db) (key : ℕ) (t : Txn E)
      (pg : ℕ)
      → ((pg : ℕ) → map_error pg ≡ none)
      → d < fuel
      → t.root ≡ some pg
      → IsTree t.pages d pg 0 (2 ^ 64)
      → key < 2 ^ 64
      → (found : Bool) × (db' : Db) × (bpt_find page_size map_error true fuel db key t
          ≡ some (ok found, db', t))
        × ((found ≡ true) ↔ Occurs t.pages d pg key)
        × (db'.key ≡ key)
        × Located t.pages db'
  bpt_find-Located page_size map_error fuel d db key t pg maps enough root tree fits =
      let (w, runs, a) = arrives page_size map_error fuel d key t.pages pg maps enough tree fits in
      let l = t.pages w.node.no in
      let h : Hit = search_leaf l.ents key l.nkeys 0 w.kmin w.kmax in
      let db₀ = reset (some pg) db in
      let n : ℕ = count_full (is_leaf_full page_size l) w.nsplits in
      let r = leaf_searched t.pages key d pg w a in
      let iff = hit_iff l.ents key l.nkeys w.kmin w.kmax h a.leaf.sorted r in
      (
        h.found,
        found_at db₀ key w n h,
        found_eq page_size map_error fuel db key t pg (none, w) root runs
            ∙ ap some (find_done-eq db₀ page_size key t w),
        (λ found. a.occurs.1 (iff.0 found), λ o. iff.1 (a.occurs.0 o)),
        found_at-key db₀ key w n h,
        found_at-Located t.pages db₀ key d pg n w a,
      )
