-- ===== src/Cache/Get.antt =====
-- lib/cache.c: `open_key` and `ed_open`, the search for an object by its key.
--
-- The tree of the keys is an interface: `find` and `next` give the entry where `ed_bpt_find` and
-- `ed_bpt_next` return 1, `loop` is `ed_bpt_loop`. `none` is a lack of fuel. The hash of lib/hash.c is a
-- parameter. The branch of `ed_open` for `ED_OID` is left out.
use eddy.Base.{
  ℕ, zero, suc, ◌+◌, ◌*◌, ◌%◌, Bool, true, ◌&&◌, ◌==◌, if◌then◌else◌, Option, none, some, List,
  length,
}
use eddy.Base.Int.{ℤ}
use eddy.Base.Mem.{Mem, slice}
use eddy.Base.Result.{Error, Result, ok, err}
use eddy.Time.{expired_at}
use eddy.Idx.{same}
use eddy.Cache.{ObjectHdr, EntryKey, Object, obj_key_offset, obj_init}
use eddy.Cache.Write.{Layout, obj_verify}

-- The operations of the tree of the keys on its state.
pub record Keys (S : Type 0) : Type 0 where
  pub find : ℕ → S → Result (Option EntryKey) × S
  pub next : S → Result (Option EntryKey) × S
  pub loop : S → ℕ

-- The slab, by its bytes and by the headers at its blocks, the clock, and the outcomes of the system: a
-- lock of a number of bytes at an offset, and the map of a block.
pub record Slab : Type 0 where
  pub layout : Layout
  pub block_size : ℕ
  pub block_count : ℕ
  pub bytes : Mem ℕ
  pub hdr : ℕ → ObjectHdr
  pub epoch : ℤ
  pub now : ℤ
  pub hash : List ℕ → ℕ
  pub lock_error : ℕ → ℕ → Option Error
  pub map_error : ℕ → Option Error

-- The offset and the length of an entry's region.
abbrev pub region_of : Slab → EntryKey → ℕ × ℕ
region_of s e = (e.vno % s.block_count * s.block_size, e.count * s.block_size)

-- The comparison of the key of the object at an entry's region.
unfoldable pub has_key : Slab → List ℕ → EntryKey → Bool
unfolding obj_key_offset
has_key s k e =
    let hdr = s.hdr (e.vno % s.block_count) in
    hdr.keylen == length k && same (slice s.bytes ((region_of s e).0 + obj_key_offset) (length k)) k

-- What the body of the loop does: it continues, or it returns.
pub data Step : Type 0 where
  skip : Step
  stop : Error → Step
  found : Object → Step

abbrev pub object_at : Slab → EntryKey → Object
object_at s e =
    obj_init s.layout.page_size s.layout.align s.block_size s.block_count
      (s.hdr (e.vno % s.block_count)) e.vno true e.exp

abbrev pub compared : Slab → List ℕ → EntryKey → Option Error → Step
compared s k e (some x) = stop x
compared s k e none = if has_key s k e then found (object_at s e) else skip

abbrev pub held_then : Option Error → Step → Step
held_then none next = next
held_then (some x) next = skip

-- The body of the loop of `open_key`.
unfoldable pub try_entry : Slab → List ℕ → EntryKey → Step
unfolding expired_at has_key obj_init
try_entry s k e =
    if expired_at s.epoch e.exp s.now
    then skip
    else held_then (s.lock_error (region_of s e).0 (region_of s e).1)
        (compared s k e (s.map_error (e.vno % s.block_count)))

-- The result, and the region that the process is left with a lock of.
abbrev pub Opened : Type 0
Opened = Result (Option Object) × Option (ℕ × ℕ)

abbrev pub stepped : Slab → EntryKey → Step → Option Opened → Option Opened
stepped s e skip rest = rest
stepped s e (stop x) rest = some (err x, none)
stepped s e (found obj) rest = some (ok (some obj), some (region_of s e))

module _ {S : Type 0} (ops : Keys S) (s : Slab) where
  -- The loop of `open_key`, at an outcome of the search. An error of the tree ends it as well.
  unfoldable pub open_loop : List ℕ → ℕ → Result (Option EntryKey) × S → Option Opened
  unfolding try_entry
  open_loop k zero r = none
  open_loop k (suc fuel) (ok (some e), db) =
      let rest = open_loop k fuel (ops.next db) in
      if ops.loop db == 0 then stepped s e (try_entry s k e) rest else some (ok none, none)
  open_loop k (suc fuel) (ok none, db) = some (ok none, none)
  open_loop k (suc fuel) (err x, db) = some (ok none, none)

  -- `open_key`
  unfoldable pub open_key : List ℕ → ℕ → S → Option Opened
  unfolding open_loop
  open_key k fuel db = open_loop k fuel (ops.find (s.hash k) db)

  -- The check of an object that was found.
  abbrev pub checked : Object → Option Error → Option (ℕ × ℕ) → Opened
  checked obj none held = (ok (some obj), held)
  checked obj (some x) held = (err x, held)

  abbrev pub verified : Opened → Opened
  verified (ok (some obj), held) = checked obj (obj_verify s.layout obj s.bytes) held
  verified (ok none, held) = (ok none, held)
  verified (err x, held) = (err x, held)

  abbrev pub closed : Option Opened → Option Opened
  closed none = none
  closed (some o) = some (verified o)

  -- `ed_open` for a key, by the outcome of `ed_txn_open`.
  unfoldable pub object_open : Option Error → List ℕ → ℕ → S → Option Opened
  unfolding open_key
  object_open txn_error k fuel db = elim txn_error [
    | some x ↦ some (err x, none)
    | none ↦ closed (open_key k fuel db)
  ]
