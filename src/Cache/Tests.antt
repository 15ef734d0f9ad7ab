-- ===== src/Cache/Tests.antt =====
-- An object with a key of 5 bytes, and a slab of ten blocks.
use eddy.Base.{
  ℕ, zero, suc, ◌+◌, ◌-◌, ◌^◌, ◌==◌, if◌then◌else◌, ◌≡◌, refl, true, false, arith, Option, none,
  some, List, [], ◌∷◌, length,
}
use eddy.Base.Mem.{Mem}
use eddy.Base.Result.{Error, Result, ok, sys}
use eddy.Cache.{
  ObjectHdr, Object, EntryBlock, EntryKey, entry_key_make, obj_init, obj_meta_offset,
  obj_data_offset,
}
use eddy.Cache.Write.{Layout, obj_verify, write_all, object_value}
use eddy.Cache.Reserve.{Blocks, Search, reserve_region, reserve_loop, wrap, search_once}
use eddy.Base.Int.{pos}
use eddy.Time.{expired_at}
use eddy.Cache.Get.{
  Keys, Slab, region_of, object_at, Opened, has_key, try_entry, open_loop, open_key, object_open,
}
use eddy.Cache.Expiry.{
  Edits, Update, expire, update_expiry, update_loop, update_entry, update_mapped,
}
use eddy.Cache.Laws.Expiry.{Updates, update_expiry-Updates}
use eddy.Cache.Laws.Get.{Outcome, entry, at_end, object_open-Outcome}
use eddy.Cache.Laws.Layout.{IsLayout, obj_init-IsLayout}
use eddy.Cache.Laws.Write.{write_all-object_value}
use eddy.Cache.Laws.Reserve.{IsRegion, reserve_region-IsRegion}

abbrev header : ObjectHdr
header = record {
  xid = 0;
  created = 9;
  exp = 0;
  keylen = 5;
  metalen = 3;
  datalen = 4;
  keyhash = 77;
  meta_crc = 0;
  data_crc = 0;
}

layout_example :
    let obj = obj_init 4096 true 512 10 header 13 false 0 in
    IsLayout obj.keylen obj.metalen obj.datalen
      (obj_meta_offset obj.keylen)
      (obj_data_offset 4096 true obj.keylen obj.metalen)
      obj.nbytes
      obj.nblcks
      512
layout_example = obj_init-IsLayout 4096 true 512 10 header 13 false 0 (omega arith) (omega arith)

abbrev layout : Layout
layout = record {
  page_size = 4096;
  align = false;
  checksum = true;
  noverify = false;
  crc = λ c bs. c + length bs;
}

abbrev object : Object
object = record {
  keylen = 5;
  metalen = 3;
  datalen = 4;
  meta_crc = 0;
  data_crc = 0;
  dataseek = 0;
  xid = 0;
  vno = 13;
  nblcks = 1;
  byte = 1536;
  nbytes = 512;
  exp = 0;
  rdonly = false;
  hdr = header;
}

abbrev pieces : List (List ℕ)
pieces = (1 ∷ 2 ∷ []) ∷ [] ∷ (3 ∷ 4 ∷ []) ∷ []

write_example :
    (obj' : Object) × (slab' : Mem ℕ) × (write_all layout object pieces (λ i. 255)
      ≡ (ok tt, obj', slab'))
    × (object_value layout obj' slab' ≡ 1 ∷ 2 ∷ 3 ∷ 4 ∷ [])
    × (obj'.dataseek ≡ obj'.datalen)
write_example = write_all-object_value layout object pieces (λ i. 255) refl refl (omega arith) refl

-- Blocks 0 and 1 of one object, and blocks 2 to 4 of another. The state is what lies behind the cursor.
abbrev blocks : Blocks (List EntryBlock)
blocks = record {
  find = λ no db. (
    ok (some (record { no = 0; count = 2; xid = 4 })),
    record { no = 2; count = 3; xid = 5 } ∷ [],
  );
  next = next;
}
  where
    next : List EntryBlock → Result (Option EntryBlock) × List EntryBlock
    next [] = (ok none, [])
    next (b ∷ bs) = (ok (some b), bs)

reserved_example :
    (s : Search (List EntryBlock)) × (reserve_region blocks 512 10 1024 (λ i start. none) 1 29 []
      ≡ some (ok s))
    × IsRegion blocks 512 10 1024 29 s
reserved_example =
    reserve_region-IsRegion blocks 512 10 1024 (λ i start. none) 1 29 [] (omega arith) (omega arith)
      (omega arith) (λ start. refl) (λ no. (_, _, refl))

abbrev busy_once : ℕ → ℕ → Option Error
busy_once zero start = some (sys 11)
busy_once (suc i) start = none

abbrev places : Option (Result (Search (List EntryBlock))) → List ℕ
places (some (ok s)) = s.vno ∷ s.no ∷ []
places other = []

-- Behind a locked block the position goes on by the length of the next block, not of the locked one: position
-- 3 is returned for the region at block 2 (lib/cache.c:186).
vno_behind_lock : places (reserve_region blocks 512 10 1024 busy_once 2 0 []) ≡ 3 ∷ 2 ∷ []
unfolding reserve_region reserve_loop wrap search_once
vno_behind_lock = refl

-- Two entries with one hash, of which the first is expired.
abbrev entry_at : ℕ → EntryKey
entry_at n = entry_key_make 7 (13 + n) 1 (if n == 0 then 0 else 2 ^ 32 - 1)

-- The state of the tree is the number of the entry.
abbrev two_keys : Keys ℕ
two_keys = record {
  find = λ h db. (ok (some (entry_at 0)), 0);
  next = λ db. if db == 0 then (ok (some (entry_at 1)), 1) else (ok none, 2);
  loop = λ db. 0;
}

abbrev slab : Slab
slab = record {
  layout = record {
    page_size = 4096;
    align = false;
    checksum = false;
    noverify = false;
    crc = λ c bs. c + length bs;
  };
  block_size = 512;
  block_count = 10;
  bytes = λ p. 0;
  hdr = λ no. header;
  epoch = pos 100;
  now = pos 200;
  hash = λ k. 7;
  lock_error = λ off len. none;
  map_error = λ no. none;
}

-- The key of five bytes that are 0.
abbrev zeros : List ℕ
zeros = 0 ∷ 0 ∷ 0 ∷ 0 ∷ 0 ∷ []

object_open_example :
    (o : Opened) × (object_open two_keys slab none zeros 3 0 ≡ some o)
    × Outcome two_keys slab zeros (entry_at 0 ∷ entry_at 1 ∷ []) o
object_open_example =
    object_open-Outcome two_keys slab zeros 0 3 (entry_at 0 ∷ entry_at 1 ∷ [])
      (entry refl (entry refl at_end)) (omega arith)

-- The object of the second entry is returned.
open_second :
    object_open two_keys slab none zeros 3 0
    ≡ some (ok (some (object_at slab (entry_at 1))), some (region_of slab (entry_at 1)))
unfolding object_open open_key open_loop try_entry has_key obj_verify expired_at
open_second = refl

-- The tree counts the changes of its entries from 10 on.
abbrev editable : Edits ℕ
editable = record { keys = two_keys; set = λ e db. (none, db + 10) }

update_example :
    (u : Update ℕ) × (update_expiry editable slab zeros 50 false 3 0 ≡ some u)
    × Updates editable slab zeros 50 false (ok (some (entry_at 0)), 0) u
update_example =
    update_expiry-Updates editable slab zeros 50 false (λ e db. refl) 0 3
      (entry_at 0 ∷ entry_at 1 ∷ []) (entry refl (entry refl at_end)) (omega arith)

-- The second entry gets the new expiry.
update_second :
    update_expiry editable slab zeros 50 false 3 0
    ≡ some (record { rc = none; set = true; db = 11; slab = expire editable slab 4 50 })
unfolding update_expiry update_loop update_entry update_mapped has_key expired_at
update_second = refl
