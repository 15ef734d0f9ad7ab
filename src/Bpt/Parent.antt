-- ===== src/Bpt/Parent.antt =====
-- lib/bpt.c: the links of changed nodes into their parents, with the splits of branches.
--
-- A node's parents are a list, the nearest first, which is empty at the root.
use eddy.Base.{
  ℕ, ◌+◌, ◌-◌, ◌/◌, Bool, true, false, ◌==◌, ltb, if◌then◌else◌, Option, none, some, List, [], ◌∷◌,
}
use eddy.Base.Mem.{move, put}
use eddy.Base.Result.{Error, ok}
use eddy.Bpt.{Bpt, pg_branch, pg_none, branch_order, branch_key, set_keys, is_branch_full}
use eddy.Bpt.Txn.{
  Node, M, ◌>>=◌, ◌>>◌, pure, attempt, page, write, on_result, set_page, txn_alloc, own,
}

module _ {E : Type 0} where
  -- The end of `set_node`'s round: only a page of this transaction is linked.
  unfoldable pub link : ℕ → ℕ → ℕ → M E (Unit {0})
  link parent pindex pg t = (
    ok tt,
    if (t.pages pg).xid == t.xid
        then set_page t parent
            (record (t.pages parent) { ptrs = put (t.pages parent).ptrs pindex pg })
        else t,
  )

  -- The `memcpy` of a cloned parent, `nkeys*BRANCH_ENTRY_SIZE + BRANCH_PTR_SIZE` bytes.
  unfoldable pub copy_branch : Bool → Bpt E → ℕ → M E (Unit {0})
  copy_branch false s dst = pure tt
  copy_branch true s dst = do
    d ← page dst
    write dst (record d {
      ptrs = move d.ptrs 0 s.ptrs 0 (s.nkeys + 1);
      keys = move d.keys 0 s.keys 0 s.nkeys;
    })

  unfoldable pub set_root : ℕ → M E (Unit {0})
  set_root pg t = (ok tt, record t { root = some pg })

  -- `set_node`: links a node into its parents up to the root. The result is the return code,
  -- `none` for 0, and the parents as they are after the clones.
  unfoldable pub set_node : Node → List Node → M E (Option Error × List Node)
  set_node node [] = do set_root node.no; pure (none, [])
  set_node node (p ∷ ps) = do
    src ← page p.no
    owned ← attempt (own p.no)
    on_result owned (λ c. pure (some c, p ∷ ps))
        λ (pg, cloned). do
          copy_branch cloned src pg
          link pg node.pindex node.no
          (rc, ps') ← set_node (record p { no = pg }) ps
          pure (rc, record p { no = pg } ∷ ps')

  -- The end of `insert_into_parent`, with `branch` the parent of both nodes: the two are linked,
  -- with `rkey` between them. The return codes of `set_node` are dropped. `branch` is of this
  -- transaction, so it stays the parent of both.
  unfoldable pub link_both : Node → Node → ℕ → Node → List Node → M E (List Node)
  link_both l r rkey branch ps = do
    (_, ps₁) ← set_node l (branch ∷ ps)
    b ← page branch.no
    write branch.no (record b { keys = set_keys b.keys r.pindex rkey })
    (_, ps₂) ← set_node r ps₁
    pure ps₂

-- Two nodes side by side, with their parents.
pub record Pair : Type 0 where
  pub l : Node
  pub r : Node
  pub parents : List Node

module _ {E : Type 0} (page_size : ℕ) where
  -- `insert_into_parent` where the nodes have no parent: a new root.
  unfoldable pub new_root : Node → Node → ℕ → M E Pair
  new_root l r rkey = do
    pg ← txn_alloc
    b ← page pg
    write pg (record b { type = pg_branch; next = pg_none; nkeys = 1 })
    ps ← link_both l r rkey (record { no = pg; pindex = 0 }) []
    pure (record { l = l; r = r; parents = ps })

  -- `insert_into_parent` where the parent has room.
  unfoldable pub grow_branch : Node → Node → ℕ → Node → List Node → M E Pair
  grow_branch l r rkey p ps = do
    let eidx = l.pindex
    src ← page p.no
    (pg, cloned) ← own p.no
    b ← page pg
    let ptrs = if cloned then move b.ptrs 0 src.ptrs 0 (eidx + 1) else b.ptrs
    let keys = if cloned then move b.keys 0 src.keys 0 eidx else b.keys
    write pg (record b {
      nkeys = b.nkeys + 1;
      ptrs = move ptrs (eidx + 2) src.ptrs (eidx + 1) (src.nkeys - eidx);
      keys = move keys (eidx + 1) src.keys eidx (src.nkeys - eidx);
    })
    ps' ← link_both l r rkey (record p { no = pg }) ps
    pure (record { l = l; r = r; parents = ps' })

  -- `insert_into_parent` where the parent is full: the part of the branch behind `mid` moves to a
  -- new page. The result is the left and the right half.
  unfoldable pub split_branch : Node → ℕ → M E (Node × Node)
  split_branch p mid = do
    rno ← txn_alloc
    src ← page p.no
    (lno, cloned) ← own p.no
    right ← page rno
    write rno (record right {
      type = pg_branch;
      next = pg_none;
      nkeys = src.nkeys - mid;
      ptrs = move right.ptrs 0 src.ptrs mid (branch_order page_size - mid);
      keys = move right.keys 0 src.keys mid (branch_order page_size - 1 - mid);
    })
    left ← page lno
    write lno (record left {
      nkeys = mid - 1;
      ptrs = if cloned then move left.ptrs 0 src.ptrs 0 mid else left.ptrs;
      keys = if cloned then move left.keys 0 src.keys 0 (mid - 1) else left.keys;
    })
    pure (record p { no = lno }, record { no = rno; pindex = p.pindex + 1 })

  -- The shift in the half that takes the new entry.
  unfoldable pub open_branch : ℕ → ℕ → M E (Unit {0})
  open_branch pg eidx = do
    b ← page pg
    write pg (record b {
      nkeys = b.nkeys + 1;
      ptrs = move b.ptrs (eidx + 2) b.ptrs (eidx + 1) (b.nkeys - eidx);
      keys = move b.keys (eidx + 1) b.keys eidx (b.nkeys - eidx);
    })

  -- `insert_into_parent`: the nodes `l` and `r` stand side by side, and the last argument lists
  -- the parents. The result has the nodes with their new indices, and their parents.
  unfoldable pub insert_into_parent : Node → Node → ℕ → List Node → M E Pair
  insert_into_parent l r rkey [] = new_root l r rkey
  insert_into_parent l r rkey (p ∷ ps) = do
    src ← page p.no
    let mid = (src.nkeys + 1) / 2
    let rbkey = branch_key src mid
    let goes_left = ltb rkey rbkey
    let eidx = if goes_left then l.pindex else l.pindex - mid
    let l' = record l { pindex = eidx }
    let r' = record r { pindex = eidx + 1 }
    if is_branch_full page_size src
        then (do
          (left, right) ← split_branch p mid
          open_branch (if goes_left then left.no else right.no) eidx
          up ← insert_into_parent left right rbkey ps
          ps' ← link_both l' r' rkey (if goes_left then up.l else up.r) up.parents
          pure (record { l = l'; r = r'; parents = ps' }))
        else grow_branch l r rkey p ps
