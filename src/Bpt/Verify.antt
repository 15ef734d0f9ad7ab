-- ===== src/Bpt/Verify.antt =====
-- lib/bpt.c: `ed_bpt_verify`, the check of a whole tree. The messages to `out` are left out.
--
-- `map_error` is the outcome of `ed_pg_map` on a page. The recursion goes down the levels of the
-- tree, which is its fuel; the loop over the children takes the check of a child as an argument.
use eddy.Base.{ℕ, zero, suc, ◌+◌, ltb, ◌==◌, ◌&&◌, ◌||◌, if◌then◌else◌, Option, none, some}
use eddy.Base.Mem.{Mem}
use eddy.Base.Result.{Error}
use eddy.Bpt.{Bpt, Keyed, key_max, pg_leaf}
use eddy.Bpt.Leaf.{leaf_key}
use eddy.Bpt.Edit.{pred64}

-- The return code: 0, -1, and `ED_ERRNO`.
pub data Check : Type 0 where
  fine broken : Check
  unmapped : Error → Check

module _ {E : Type 0} ⦃e : Keyed E⦄ where
  -- The loop of `verify_leaf` at index `i`, with `left` keys to come.
  unfoldable pub verify_keys : Mem E → ℕ → ℕ → ℕ → ℕ → ℕ → Check
  verify_keys l min max last i zero = fine
  verify_keys l min max last i (suc left) =
      let key = leaf_key l i in
      let rest = verify_keys l min max key (i + 1) left in
      if ltb key min || ltb max key
      then broken
      else if ltb 0 i && ltb key last
      then broken
      else rest

  unfoldable pub verify_leaf : Bpt E → ℕ → ℕ → Check
  unfolding verify_keys
  verify_leaf l min max = if l.nkeys == 0 then fine else verify_keys l.ents min max 0 0 l.nkeys

-- `ed_pg_map` and the check of the page; a child that is not fine ends the loop.
unfoldable pub checked : Option Error → Option Check → Option Check → Option Check
checked (some x) child rest = some (unmapped x)
checked none none rest = none
checked none (some fine) rest = rest
checked none (some broken) rest = some broken
checked none (some (unmapped x)) rest = some (unmapped x)

-- The loop of `verify_node` at index `i`, with `left` keys to come, and the last child.
-- `child pg min max` is the check of a child.
unfoldable pub verify_children :
    (ℕ → ℕ → ℕ → Option Check)
    → (ℕ → Option Error)
    → Mem ℕ
    → Mem ℕ
    → ℕ
    → ℕ
    → ℕ
    → ℕ
    → ℕ
    → Option Check
verify_children child map_error ptrs keys min max nmin i zero =
    checked (map_error (ptrs i)) (child (ptrs i) nmin max) (some fine)
verify_children child map_error ptrs keys min max nmin i (suc left) =
    let nmax = keys i in
    let rest = verify_children child map_error ptrs keys min max nmax (i + 1) left in
    if ltb nmax min || ltb max nmax
    then some broken
    else checked (map_error (ptrs i)) (child (ptrs i) nmin (pred64 nmax)) rest

module _ {E : Type 0} ⦃e : Keyed E⦄ (pages : Mem (Bpt E)) (map_error : ℕ → Option Error) where
  unfoldable pub verify_node : ℕ → ℕ → ℕ → ℕ → Option Check
  verify_node zero pg min max = none
  verify_node (suc fuel) pg min max =
      let b = pages pg in
      if b.type == pg_leaf
      then some (verify_leaf b min max)
      else verify_children (verify_node fuel) map_error b.ptrs b.keys min max min 0 b.nkeys

  -- `ed_bpt_verify`
  unfoldable pub bpt_verify : ℕ → Option ℕ → Option Check
  bpt_verify fuel none = some fine
  bpt_verify fuel (some pg) = verify_node fuel pg 0 key_max
