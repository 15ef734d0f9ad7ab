-- ===== src/Bpt/Insert.antt =====
-- lib/bpt.c: the insertion of an entry at the place that a search has found, with the splits of
-- pages and the links up to the root.
use eddy.Base.{
  ℕ, ◌+◌, ◌-◌, Bool, ◌==◌, ltb, if◌then◌else◌, is_none, Option, none, some, List, [], ◌∷◌, ◌&&◌,
  not,
}
use eddy.Base.Mem.{Mem, move, put}
use eddy.Base.Result.{dupkey}
use eddy.Bpt.{Bpt, Keyed, pg_leaf, pg_none, set_keys, leaf_order, is_leaf_full}
use eddy.Bpt.Leaf.{
  Cursor, open_slot, split_left, split_left_only, split_right, split_right_only, split_point,
  split_key, leaf_key,
}
use eddy.Bpt.Txn.{Node, Place, M, ◌>>=◌, ◌>>◌, pure, fail, page, write, on_option, txn_alloc, own}
use eddy.Bpt.Parent.{set_node, insert_into_parent}

module _ {E : Type 0} ⦃e : Keyed E⦄ (page_size : ℕ) where
  -- The end of `set_leaf`, where the leaf has the parents of the last argument.
  unfoldable pub set_first : Bool → ℕ → Mem E → List Node → M E (Unit {0})
  set_first first pindex ents [] = pure tt
  set_first first pindex ents (p ∷ ps) = do
    b ← page p.no
    if first
        then write p.no (record b { keys = set_keys b.keys pindex (leaf_key ents 0) })
        else pure tt

  -- `set_leaf`; the return code of `set_node` is dropped. `eidx` is the slot before any split.
  unfoldable pub set_leaf : Place → ℕ → M E Place
  set_leaf at eidx = do
    (rc, ps) ← set_node at.leaf at.parents
    l ← page at.leaf.no
    set_first (is_none rc && (eidx == 0) && ltb 0 at.leaf.pindex) at.leaf.pindex l.ents ps
    pure (record at { parents = ps })

  -- The new page of `split_leaf`, with the entries of `src` behind `mid`, and the slot opened if it
  -- is there.
  unfoldable pub right_leaf : Bpt E → Bpt E → ℕ → ℕ → Bpt E
  right_leaf right src mid eidx = record right {
    type = pg_leaf;
    next = pg_none;
    nkeys = src.nkeys - mid;
    ents =
        if ltb eidx mid
        then split_right_only right.ents src.ents mid (leaf_order page_size e.esize)
        else split_right right.ents src.ents mid (eidx - mid) (src.nkeys - mid);
  }

  -- The page before `mid`: `src` itself, or its clone.
  unfoldable pub left_leaf : Bool → Bpt E → Bpt E → ℕ → ℕ → Bpt E
  left_leaf cloned left src mid eidx =
      let fresh = if cloned then some left.ents else none in
      record left {
        nkeys = mid;
        ents =
            if ltb eidx mid
            then split_left fresh src.ents mid eidx
            else split_left_only fresh src.ents mid;
      }

  -- `split_leaf`: the slot is opened in one of the halves, which is the place in the result.
  unfoldable pub split_leaf : Cursor → Place → ℕ → M E Place
  split_leaf c at mid = do
    src ← page at.leaf.no
    let rkey = split_key c src.ents mid at.eidx
    rno ← txn_alloc
    (lno, cloned) ← own at.leaf.no
    right ← page rno
    write rno (right_leaf right src mid at.eidx)
    left ← page lno
    write lno (left_leaf cloned left src mid at.eidx)
    let l : Node = record { no = lno; pindex = at.leaf.pindex }
    let r : Node = record { no = rno; pindex = at.leaf.pindex + 1 }
    two ← insert_into_parent page_size l r rkey at.parents
    pure (record {
      leaf = if ltb at.eidx mid then two.l else two.r;
      parents = two.parents;
      eidx = if ltb at.eidx mid then at.eidx else at.eidx - mid;
    })

  -- The write of the entry into the slot that has been opened, `memcpy(dbp->entry, ent, esize)`,
  -- and the count where the slot is new.
  unfoldable pub store : Place → E → ℕ → M E (Unit {0})
  store at ent nkeys = do
    l ← page at.leaf.no
    write at.leaf.no (record l { nkeys = nkeys; ents = put l.ents at.eidx ent })

  -- `insert_into_leaf` where the tree is empty.
  unfoldable pub new_leaf : E → M E Place
  new_leaf ent = do
    pg ← txn_alloc
    l ← page pg
    write pg (record l { type = pg_leaf; next = pg_none })
    let at : Place = record { leaf = record { no = pg; pindex = 0 }; parents = []; eidx = 0 }
    store at ent 1
    set_leaf at 0

  -- `insert_into_leaf` where the leaf is full.
  unfoldable pub split_insert : Cursor → Place → E → M E Place
  split_insert c at ent = do
    l ← page at.leaf.no
    on_option (split_point c l.ents l.nkeys) (fail dupkey) λ mid. do
      at' ← split_leaf c at mid
      half ← page at'.leaf.no
      store at' ent (half.nkeys + 1)
      set_leaf at' at.eidx

  -- `insert_into_leaf` where the entry is replaced or the leaf has room. A page that is replaced
  -- in is copied whole, else left of the slot.
  unfoldable pub fill : Place → E → Bool → M E Place
  fill at ent replace = do
    src ← page at.leaf.no
    (pg, cloned) ← own at.leaf.no
    l ← page pg
    let n = if replace then leaf_order page_size e.esize else at.eidx
    let copied = if cloned then move l.ents 0 src.ents 0 n else l.ents
    let at' = record at { leaf = record at.leaf { no = pg } }
    write pg (record l {
      ents = if replace then copied else open_slot copied src.ents at.eidx src.nkeys;
    })
    store at' ent (if replace then l.nkeys else l.nkeys + 1)
    set_leaf at' at.eidx

  -- `insert_into_leaf`; `none` is a cursor with no leaf.
  unfoldable pub insert_into_leaf : Cursor → Option Place → E → Bool → M E Place
  insert_into_leaf c none ent replace = new_leaf ent
  insert_into_leaf c (some at) ent replace = do
    l ← page at.leaf.no
    if not replace && is_leaf_full page_size l then split_insert c at ent else fill at ent replace
