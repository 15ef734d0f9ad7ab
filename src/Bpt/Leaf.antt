-- ===== src/Bpt/Leaf.antt =====
-- The leaf operations of lib/bpt.c on the data of pages: making room for an entry, and the split
-- of a full leaf. Which page they run on, and the copy on write, is in `Insert`.
use eddy.Base.{
  ℕ, zero, suc, ◌+◌, ◌-◌, ◌/◌, ◌%◌, ◌^◌, ◌&&◌, ◌==◌, ltb, leb, if◌then◌else◌, Option, none, some,
}
use eddy.Base.Mem.{Mem, move}
use eddy.Bpt.{Keyed}

-- What `split_point` reads of the cursor, `EdTxnDb`.
pub record Cursor : Type 0 where
  pub key : ℕ
  pub entry_index : ℕ
  pub nmatches : ℕ

-- `dbp->entry_index - dbp->nmatches + 1` in `uint32_t`
abbrev pub first_match : Cursor → ℕ
first_match c = (c.entry_index + 2 ^ 32 - c.nmatches + 1) % 2 ^ 32

module _ {E : Type 0} where
  -- The `memmove` that opens slot `eidx`: `src` is the page before, and `dst` the page written,
  -- which is `src` itself or its clone with the slots left of `eidx` copied.
  unfoldable pub open_slot : Mem E → Mem E → ℕ → ℕ → Mem E
  open_slot dst src eidx nkeys = move dst (eidx + 1) src eidx (nkeys - eidx)

  -- The data of the left page after `split_leaf` at `mid` when the new entry goes left. `eidx` is
  -- the slot that is opened.
  unfoldable pub split_left : Option (Mem E) → Mem E → ℕ → ℕ → Mem E
  split_left none src mid eidx = move src (eidx + 1) src eidx (mid - eidx)
  split_left (some fresh) src mid eidx =
      move (move fresh 0 src 0 eidx) (eidx + 1) src eidx (mid - eidx)

  -- The data of the left page when the new entry goes right.
  unfoldable pub split_left_only : Option (Mem E) → Mem E → ℕ → Mem E
  split_left_only none src mid = src
  split_left_only (some fresh) src mid = move fresh 0 src 0 mid

  -- The data of the right page when the new entry goes left: everything behind `mid`.
  unfoldable pub split_right_only : Mem E → Mem E → ℕ → ℕ → Mem E
  split_right_only right src mid order = move right 0 src mid (order - mid)

  -- The data of the right page when the new entry goes to its slot `eidx`, with `nkeys` entries
  -- behind `mid`.
  unfoldable pub split_right : Mem E → Mem E → ℕ → ℕ → ℕ → Mem E
  split_right right src mid eidx nkeys =
      move (move right 0 src mid eidx) (eidx + 1) src (mid + eidx) (nkeys - eidx)

  -- `ed_bpt_del`: the `memmove` that closes slot `eidx`.
  unfoldable pub close_slot : Mem E → ℕ → ℕ → Mem E
  close_slot ents eidx nkeys = move ents eidx ents (eidx + 1) (nkeys - eidx - 1)

module _ {E : Type 0} ⦃e : Keyed E⦄ where
  abbrev pub leaf_key : Mem E → ℕ → ℕ
  leaf_key l i = e.key_of (l i)

  -- `for (min = mid; min > 0 && leaf_key(l, min-1) == key; min--) {}`
  unfoldable pub scan_back : Mem E → ℕ → ℕ → ℕ
  scan_back l key zero = 0
  scan_back l key (suc min) =
      let rest = scan_back l key min in if leaf_key l min == key then rest else suc min

  -- `for (; max < n && leaf_key(l, max) == key; max++) {}`, with `left` slots below `n`.
  unfoldable pub scan_on : Mem E → ℕ → ℕ → ℕ → ℕ
  scan_on l key zero max = max
  scan_on l key (suc left) max =
      let rest = scan_on l key left (max + 1) in if leaf_key l max == key then rest else max

  -- The end of `split_point`, from the bounds of a run of equal keys around `mid`. `none` is
  -- `ED_EINDEX_DUPKEY`.
  unfoldable pub split_run : Mem E → ℕ → ℕ → ℕ → ℕ → ℕ → Option ℕ
  unfolding scan_on
  split_run l n mid key min max =
      if min == mid
      then some mid
      else let max' = scan_on l key (n - max) max in
        if min == 0 && max' == n then none else some (if leb (n - max') min then min else max')

  -- `min` and `max` are `uint16_t`.
  unfoldable pub split_point : Cursor → Mem E → ℕ → Option ℕ
  unfolding split_run scan_back
  split_point c l n =
      let mid = n / 2 in
      let first = first_match c % 2 ^ 16 in
      if ltb 0 c.nmatches && leb mid c.entry_index && leb (first_match c) mid
      then split_run l n mid c.key first ((c.entry_index + 1) % 2 ^ 16)
      else let key = leaf_key l mid in
        split_run l n mid key (if key == c.key then first else scan_back l key mid) (mid + 1)

  -- `split_leaf`: the key between the halves.
  unfoldable pub split_key : Cursor → Mem E → ℕ → ℕ → ℕ
  split_key c l mid eidx = if mid == eidx then c.key else leaf_key l mid
