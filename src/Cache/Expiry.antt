-- ===== src/Cache/Expiry.antt =====
-- lib/cache.c: `update_expiry`, which both `ed_update_ttl` and `ed_update_expiry` call.
--
-- The tree of the keys is the interface of Cache/Get with `ed_bpt_set` for the entry at the cursor. The
-- opening and the end of the transaction are left out: the result says whether it is committed.
use eddy.Base.{
  ℕ, zero, suc, ◌%◌, Bool, true, false, not, ◌&&◌, ◌==◌, if◌then◌else◌, Option, none, some, List,
}
use eddy.Base.Int.{ℤ}
use eddy.Base.Mem.{put}
use eddy.Base.Result.{Error, Result, ok, err}
use eddy.Time.{expired_at, expiry_at, time_from_unix}
use eddy.Cache.{EntryKey}
use eddy.Cache.Get.{Keys, Slab, has_key}

-- The operations of the tree of the keys.
pub record Edits (S : Type 0) : Type 0 where
  pub keys : Keys S
  pub set : EntryKey → S → Option Error × S

-- `rc < 0`, `set`, the tree and the slab at the end of the loop.
pub record Update (S : Type 0) : Type 0 where
  pub rc : Option Error
  pub set : Bool
  pub db : S
  pub slab : Slab

module _ {S : Type 0} (ops : Edits S) where
  abbrev pub ended : Option Error → S → Slab → Update S
  ended rc db s = record { rc = rc; set = false; db = db; slab = s }

  -- `keynew`, and `hdr->exp = exp`
  abbrev pub key_new : EntryKey → ℕ → EntryKey
  key_new e exp = record e { exp = exp }

  abbrev pub expire : Slab → ℕ → ℕ → Slab
  expire s block exp = record s { hdr = put s.hdr block (record (s.hdr block) { exp = exp }) }

  -- After `ed_bpt_set`: the loop goes on if that failed.
  abbrev pub update_set :
      Slab → ℕ → ℕ → (S → Option (Update S)) → Option Error × S → Option (Update S)
  update_set s block exp more (none, db) =
      some (record { rc = none; set = true; db = db; slab = expire s block exp })
  update_set s block exp more (some x, db) = more db

  -- After `ed_blk_map`
  unfoldable pub update_mapped :
      Slab → List ℕ → ℕ → EntryKey → S → (S → Option (Update S)) → Option Error → Option (Update S)
  unfolding has_key
  update_mapped s k exp e db more (some x) = some (ended (some x) db s)
  update_mapped s k exp e db more none =
      if has_key s k e
      then update_set s (e.vno % s.block_count) exp more (ops.set (key_new e exp) db)
      else more db

  -- The body of the loop of `update_expiry`.
  unfoldable pub update_entry :
      Slab → List ℕ → ℕ → Bool → EntryKey → S → (S → Option (Update S)) → Option (Update S)
  unfolding expired_at update_mapped
  update_entry s k exp restore e db more =
      if not restore && expired_at s.epoch e.exp s.now
      then more db
      else update_mapped s k exp e db more (s.map_error (e.vno % s.block_count))

  -- The loop of `update_expiry`.
  unfoldable pub update_loop :
      Slab → List ℕ → ℕ → Bool → ℕ → Result (Option EntryKey) × S → Option (Update S)
  unfolding update_entry
  update_loop s k exp restore zero r = none
  update_loop s k exp restore (suc fuel) (ok (some e), db) =
      let more = λ (db' : S). update_loop s k exp restore fuel (ops.keys.next db') in
      if ops.keys.loop db == 0
      then update_entry s k exp restore e db more
      else some (ended none db s)
  update_loop s k exp restore (suc fuel) (ok none, db) = some (ended none db s)
  update_loop s k exp restore (suc fuel) (err x, db) = some (ended (some x) db s)

  -- `update_expiry` within an open transaction.
  unfoldable pub update_expiry : Slab → List ℕ → ℕ → Bool → ℕ → S → Option (Update S)
  unfolding update_loop
  update_expiry s k exp restore fuel db =
      update_loop s k exp restore fuel (ops.keys.find (s.hash k) db)

  -- `ed_update_ttl` and `ed_update_expiry`
  unfoldable pub update_ttl : Slab → List ℕ → ℤ → Bool → ℕ → S → Option (Update S)
  unfolding update_expiry expiry_at
  update_ttl s k ttl restore fuel db =
      update_expiry s k (expiry_at s.epoch ttl s.now) restore fuel db

  unfoldable pub update_expiry_at : Slab → List ℕ → ℤ → Bool → ℕ → S → Option (Update S)
  unfolding update_expiry time_from_unix
  update_expiry_at s k expiry restore fuel db =
      update_expiry s k (time_from_unix s.epoch expiry) restore fuel db
