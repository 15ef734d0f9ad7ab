-- ===== src/Cache/Reserve.antt =====
-- lib/cache.c: the first part of `obj_reserve`, the search for a region of the slab.
--
-- The tree of the blocks is an interface: `ed_bpt_find`, which gives the entry if the key matches, and
-- `ed_bpt_next`, which gives none where the cursor has no leaf. `none` is a lack of fuel, or the read
-- through a null pointer where there is no next entry.
use eddy.Base.{
  ℕ, zero, suc, ◌+◌, ◌-◌, ◌*◌, ◌%◌, Bool, true, false, ltb, if◌then◌else◌, Option, none, some,
}
use eddy.Base.Result.{Error, Result, ok, err}
use eddy.Cache.{EntryBlock}

-- The operations of the tree of the blocks on its state.
pub record Blocks (S : Type 0) : Type 0 where
  pub find : ℕ → S → Result (Option EntryBlock) × S
  pub next : S → Result (Option EntryBlock) × S

-- The variables of the loop. `no` is the block that `start` is meant to be the offset of.
pub record Search (S : Type 0) : Type 0 where
  pub vno : ℕ
  pub no : ℕ
  pub start : ℕ
  pub searched : Bool
  pub block : Option EntryBlock
  pub db : S

-- `*ent` stays where nothing is found.
abbrev pub or_old : Option EntryBlock → Option EntryBlock → Option EntryBlock
or_old none old = old
or_old (some b) old = some b

module _ {S : Type 0} (ops : Blocks S) (block_size block_count len : ℕ) where
  -- A region that sticks out behind the slab goes to its start.
  unfoldable pub wrap : Search S → Search S
  wrap s =
      let vno = s.vno + (block_count - s.no) in
      if ltb (block_count * block_size) (s.start + len)
      then record s { start = 0; vno = vno; no = vno % block_count; searched = false }
      else s

  abbrev pub searched_at : Search S → Result (Option EntryBlock) × S → Result (Search S)
  searched_at s (err x, db) = err x
  searched_at s (ok b, db) = ok (record s { searched = true; block = or_old b s.block; db = db })

  unfoldable pub search_once : Search S → Result (Search S)
  search_once s = if s.searched then ok s else searched_at s (ops.find s.no s.db)

  -- The next block behind one that is locked.
  abbrev pub move_to : Search S → S → Option EntryBlock → Option (Search S)
  move_to s db none = none
  move_to s db (some b) = some (record s {
    vno = s.vno + b.count;
    no = b.no;
    start = b.no * block_size;
    block = some b;
    db = db;
  })

  abbrev pub moved : Search S → Result (Option EntryBlock) × S → Result (Option (Search S))
  moved s (err x, db) = err x
  moved s (ok b, db) = ok (move_to s db (or_old b s.block))

  -- The loop; `lock_error i start` is the outcome of attempt `i`, the lock of `len` bytes at `start`.
  unfoldable pub reserve_loop :
      (ℕ → ℕ → Option Error) → ℕ → ℕ → Search S → Option (Result (Search S))
  unfolding wrap search_once
  reserve_loop lock_error i zero s = none
  reserve_loop lock_error i (suc fuel) s =
      let again = reserve_loop lock_error (i + 1) fuel in
      elim (search_once (wrap s)) [
        | err x ↦ some (err x)
        | ok found ↦ elim (lock_error i found.start) [
          | none ↦ some (ok found)
          | some x ↦ elim (moved found (ops.next found.db)) [
            | err y ↦ some (err y)
            | ok there ↦ elim there [ none ↦ none | some next ↦ again next ]
          ]
        ]
      ]

  -- `obj_reserve` up to the locked region.
  unfoldable pub reserve_region : (ℕ → ℕ → Option Error) → ℕ → ℕ → S → Option (Result (Search S))
  unfolding reserve_loop
  reserve_region lock_error fuel vno db =
      let no = vno % block_count in
      reserve_loop lock_error 0 fuel (record {
        vno = vno;
        no = no;
        start = no * block_size;
        searched = false;
        block = none;
        db = db;
      })
