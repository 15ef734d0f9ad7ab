-- ===== src/Bpt/Laws/Snapshot.antt =====
-- Readers of an earlier snapshot: a writing transaction does not change what they find.
use eddy.Base.{
  ℕ, zero, suc, ◌≤◌, ◌<◌, ◌≡◌, refl, sym, ap, ◌∙◌, Bool, true, false, arith, Option, none, some,
  Option-cases, inl, inr,
}
use eddy.Base.Mem.{Mem}
use eddy.Base.Result.{Error, Result}
use eddy.Bpt.{Bpt, Keyed, is_branch, branch_search}
use eddy.Bpt.Txn.{Txn, mem}
use eddy.Bpt.Edit.{Db, bpt_set, bpt_del}
use eddy.Bpt.Find.{Walk, descend, walk, from_root, find_from, find_done, reset, bpt_find}
use eddy.Bpt.Tree.{low, high, IsTree, SameTree}
use eddy.Bpt.Cow.Keeps.{Keeps, Keeps-refl, Keeps-trans}
use eddy.Bpt.Cow.Edit.{bpt_set-Keeps, bpt_del-Keeps}
use eddy.Bpt.Laws.Search.{search_from_lem}
use eddy.Bpt.Laws.Find.{walk_stops, walk_goes_on, walk_fails}

module _ {E : Type 0} where
  -- The tree at `pg` is of an earlier transaction: each of its pages was written by one, and is
  -- not among the pages allocated for this one.
  abbrev pub IsStored : Txn E → ℕ → ℕ → Type 0
  IsStored t zero pg = ((t.pages pg).xid < t.xid) × (mem pg t.spare ≡ false)
  IsStored t (suc d) pg =
      ((t.pages pg).xid < t.xid)
      × (mem pg t.spare ≡ false)
      × ((i : ℕ) → i ≤ (t.pages pg).nkeys → IsStored t d ((t.pages pg).ptrs i))

  Keeps-SameTree :
      (t u : Txn E) (d pg : ℕ) → Keeps t u → IsStored t d pg → SameTree t.pages u.pages d pg
  Keeps-SameTree t u zero pg k (older, used) = k.old pg used older
  Keeps-SameTree t u (suc d) pg k (older, used, children) =
      (k.old pg used older, λ i p. Keeps-SameTree t u d ((t.pages pg).ptrs i) k (children i p))

  root_same : (p q : Mem (Bpt E)) (d pg : ℕ) → SameTree p q d pg → q pg ≡ p pg
  root_same p q zero pg s = s
  root_same p q (suc d) pg s = s.0

module _ {E : Type 0} ⦃e : Keyed E⦄ where
  -- The changes that a transaction makes through `ed_bpt_set` and `ed_bpt_del`, with any cursors
  -- and whatever they return.
  pub data Changes (page_size : ℕ) : Txn E → Txn E → Type 0 where
    unchanged : {t : Txn E} → Changes page_size t t
    set :
        {t u : Txn E} (db : Db) (ent : E) (replace : Bool)
        → Changes page_size t u
        → Changes page_size t (bpt_set page_size db ent replace u).1
    del :
        {t u : Txn E} (db : Db)
        → Changes page_size t u
        → Changes page_size t (bpt_del page_size db u).1

  Changes-Keeps : {page_size : ℕ} {t u : Txn E} → Changes page_size t u → Keeps t u
  Changes-Keeps {page_size} {t} unchanged = Keeps-refl t
  Changes-Keeps {page_size} {t} (set {u = u} db ent replace c) =
      Keeps-trans (Changes-Keeps c) (bpt_set-Keeps page_size db ent replace u)
  Changes-Keeps {page_size} {t} (del {u = u} db c) =
      Keeps-trans (Changes-Keeps c) (bpt_del-Keeps page_size db u)

  module _ (p q : Mem (Bpt E)) (map_error : ℕ → Option Error) (page_size key : ℕ) where
    abbrev WalksSame : Option (Option Error × Walk) → Option (Option Error × Walk) → Type 0
    WalksSame r r' = (r' ≡ r) × ((w : Walk) → r ≡ some (none, w) → q w.node.no ≡ p w.node.no)

    descend_same :
        (w : Walk)
        → q w.node.no ≡ p w.node.no
        → descend q page_size key w ≡ descend p page_size key w
    unfolding descend
    descend_same w same = rw same refl

    walk-same_end :
        (w : Walk)
        → WalksSame (walk p map_error page_size key 0 w) (walk q map_error page_size key 0 w)
    unfolding walk
    walk-same_end w = (refl, λ w' h. absurd cc)

    next_page_same :
        (d lo hi : ℕ) (w : Walk)
        → IsTree p (suc d) w.node.no lo hi
        → SameTree p q (suc d) w.node.no
        → SameTree p q d (descend p page_size key w).node.no
    unfolding descend branch_search
    next_page_same d lo hi w tree same =
        let b = p w.node.no in
        let r = search_from_lem b.keys key 0 b.nkeys (λ i j l m. tree.rises i j l (omega arith)) in
        same.1 (branch_search b key) (omega (arith, r.to))

    next-IsTree :
        (d lo hi : ℕ) (w : Walk)
        → IsTree p (suc d) w.node.no lo hi
        → (lo' : ℕ) × (hi' : ℕ) × IsTree p d (descend p page_size key w).node.no lo' hi'
    unfolding descend branch_search
    next-IsTree d lo hi w tree =
        let b = p w.node.no in
        let r = search_from_lem b.keys key 0 b.nkeys (λ i j l m. tree.rises i j l (omega arith)) in
        let i = branch_search b key in
        (low b lo i, high b hi i, tree.children i (omega (arith, r.to)))

    walk-same :
        (fuel d lo hi : ℕ) (w : Walk)
        → IsTree p d w.node.no lo hi
        → SameTree p q d w.node.no
        → WalksSame (walk p map_error page_size key fuel w) (walk q map_error page_size key fuel w)
    walk-same zero d lo hi w tree same = walk-same_end w
    walk-same (suc fuel) zero lo hi w tree same =
        let p_leaf : is_branch (p w.node.no) ≡ false = rw tree.type refl in
        let q_leaf : is_branch (q w.node.no) ≡ false = rw same p_leaf in
        rw
          (
            walk_stops p map_error page_size key fuel w p_leaf,
            walk_stops q map_error page_size key fuel w q_leaf,
          )
          (refl, λ w' h. let ends : w ≡ w' = cc h in rw (← ends) same)
    walk-same (suc fuel) (suc d) lo hi w tree same =
        let p_branch : is_branch (p w.node.no) ≡ true = rw tree.type refl in
        let q_branch : is_branch (q w.node.no) ≡ true = rw same.0 p_branch in
        let next = descend p page_size key w in
        let next_eq = descend_same w same.0 in
        elim (Option-cases (map_error next.node.no)) [
          | inl maps ↦
              let maps' : map_error (descend q page_size key w).node.no ≡ none = rw next_eq maps in
              let (lo', hi', child) = next-IsTree d lo hi w tree in
              rw
                (
                  walk_goes_on p map_error page_size key fuel w p_branch maps,
                  walk_goes_on q map_error page_size key fuel w q_branch maps',
                  next_eq,
                )
                (walk-same fuel d lo' hi' next child (next_page_same d lo hi w tree same))
          | inr (x, fails) ↦
              let fails' : map_error (descend q page_size key w).node.no ≡ some x =
                rw next_eq fails in
              rw
                (
                  walk_fails p map_error page_size key fuel w x p_branch fails,
                  walk_fails q map_error page_size key fuel w x q_branch fails',
                  next_eq,
                )
                (refl, λ w' h. absurd (cc h))
        ]

  -- What `ed_bpt_find` returns and leaves in the cursor.
  abbrev pub answer : Option (Result Bool × Db × Txn E) → Option (Result Bool × Db)
  answer none = none
  answer (some r) = some (r.0, r.1)

  find_done_same :
      (db : Db) (page_size key : ℕ) (t : Txn E) (q : Mem (Bpt E)) (r : Option Error × Walk)
      → (r.0 ≡ none → q r.1.node.no ≡ t.pages r.1.node.no)
      → answer (some (find_done db page_size key (record t { pages = q }) r))
        ≡ answer (some (find_done db page_size key t r))
  unfolding find_done
  find_done_same db page_size key t q (none, w) same =
      let here : q w.node.no ≡ t.pages w.node.no = same refl in rw here refl
  find_done_same db page_size key t q (some x, w) same = refl

  from_root_same :
      (page_size pg : ℕ) (p q : Mem (Bpt E))
      → q pg ≡ p pg
      → from_root q page_size pg ≡ from_root p page_size pg
  unfolding from_root
  from_root_same page_size pg p q same = rw same refl

  from_root-walk-same :
      (map_error : ℕ → Option Error) (page_size key fuel d lo hi pg : ℕ) (p q : Mem (Bpt E))
      → IsTree p d pg lo hi
      → SameTree p q d pg
      → let w = from_root p page_size pg in
        WalksSame p q map_error page_size key
          (walk p map_error page_size key fuel w)
          (walk q map_error page_size key fuel w)
  unfolding from_root
  from_root-walk-same map_error page_size key fuel d lo hi pg p q tree same =
      walk-same p q map_error page_size key fuel d lo hi (from_root p page_size pg) tree same

  find_from_same :
      (page_size : ℕ) (map_error : ℕ → Option Error) (fuel d : ℕ) (db : Db) (key : ℕ) (t : Txn E)
      (q : Mem (Bpt E)) (pg lo hi : ℕ)
      → IsTree t.pages d pg lo hi
      → SameTree t.pages q d pg
      → answer (find_from page_size map_error fuel db key (some pg) (record t { pages = q }))
        ≡ answer (find_from page_size map_error fuel db key (some pg) t)
  unfolding find_from
  find_from_same page_size map_error fuel d db key t q pg lo hi tree same =
      let start = from_root_same page_size pg t.pages q (root_same t.pages q d pg same) in
      let s = from_root-walk-same map_error page_size key fuel d lo hi pg t.pages q tree same in
      elim (Option-cases
        (walk t.pages map_error page_size key fuel (from_root t.pages page_size pg))) [
          | inl out ↦ rw (find_from, start, s.0, out) refl
          | inr (r, out) ↦
              rw (find_from, start, s.0, out)
                (find_done_same (reset (some pg) db) page_size key t q r
                  (λ ends. s.1 r.1 (out ∙ ap (λ x. some (x, r.1)) ends)))
        ]

  bpt_find_same :
      (page_size : ℕ) (map_error : ℕ → Option Error) (is_open : Bool) (fuel d : ℕ) (db : Db)
      (key : ℕ) (t : Txn E) (q : Mem (Bpt E)) (pg lo hi : ℕ)
      → t.root ≡ some pg
      → IsTree t.pages d pg lo hi
      → SameTree t.pages q d pg
      → answer (bpt_find page_size map_error is_open fuel db key (record t { pages = q }))
        ≡ answer (bpt_find page_size map_error is_open fuel db key t)
  unfolding bpt_find
  bpt_find_same page_size map_error false fuel d db key t q pg lo hi root tree same = refl
  bpt_find_same page_size map_error true fuel d db key t q pg lo hi root tree same =
      let at : Mem (Bpt E) → Option ℕ → Option (Result Bool × Db) =
        λ p o. answer (find_from page_size map_error fuel db key o (record t { pages = p })) in
      ap (at q) root
      ∙ find_from_same page_size map_error fuel d db key t q pg lo hi tree same
      ∙ sym (ap (at t.pages) root)

  -- If a tree stands in pages that earlier transactions have written and that are not among those
  -- allocated for the transaction `t`, then whatever `t` changes by `ed_bpt_set` and `ed_bpt_del`,
  -- a reader `r` of that tree's root gets the same result and the same cursor from `ed_bpt_find`
  -- before and after the changes, for every key and whatever pages fail to be mapped.
  pub bpt_find-Changes :
      (page_size : ℕ) (map_error : ℕ → Option Error) (is_open : Bool) (fuel d : ℕ) (db : Db)
      (key : ℕ) (t u r : Txn E) (pg lo hi : ℕ)
      → IsTree t.pages d pg lo hi
      → IsStored t d pg
      → Changes page_size t u
      → r.root ≡ some pg
      → answer (bpt_find page_size map_error is_open fuel db key (record r { pages = u.pages }))
        ≡ answer (bpt_find page_size map_error is_open fuel db key (record r { pages = t.pages }))
  bpt_find-Changes page_size map_error is_open fuel d db key t u r pg lo hi tree stored c root =
      bpt_find_same page_size map_error is_open fuel d db key (record r { pages = t.pages }) u.pages
        pg lo hi root tree (Keeps-SameTree t u d pg (Changes-Keeps c) stored)
