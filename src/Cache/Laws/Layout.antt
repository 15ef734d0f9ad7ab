-- ===== src/Cache/Laws/Layout.antt =====
-- The parts of an object do not overlap, and they fill its blocks.
use eddy.Base.{ℕ, ◌+◌, ◌*◌, ◌≤◌, ◌<◌, ◌≡◌, ap, Bool, true, false, arith}
use native.Mathlib.Nat.{mul-div_cancel}
use eddy.Pg.{count_size, align_size}
use eddy.Pg.Laws.Freed.{count_size_bounds}
use eddy.Cache.{
  ObjectHdr, obj_key_offset, obj_meta_offset, obj_data_offset, obj_slab_size, obj_init,
}

-- The parts of an object of `nbytes` bytes.
pub record IsLayout (keylen metalen datalen meta_off data_off nbytes nblcks block_size : ℕ)
    : Type 0 where
  -- The key has a byte behind it that is 0.
  pub key : obj_key_offset + keylen < meta_off
  pub meta : meta_off + metalen ≤ data_off
  pub content : data_off + datalen ≤ nbytes
  pub blocks : nblcks * block_size ≡ nbytes
  pub tight : nbytes < data_off + datalen + block_size

align_bounds : (n m : ℕ) → 0 < m → (n ≤ align_size n m) × (align_size n m < n + m)
align_bounds n m pos = count_size_bounds n m pos

obj_data_offset_le :
    (page_size : ℕ) (align : Bool) (keylen metalen : ℕ)
    → 0 < page_size
    → obj_meta_offset keylen + metalen ≤ obj_data_offset page_size align keylen metalen
unfolding obj_data_offset
obj_data_offset_le page_size true keylen metalen pos =
    (align_bounds (obj_meta_offset keylen + metalen) page_size pos).0
obj_data_offset_le page_size false keylen metalen pos =
    (align_bounds (obj_meta_offset keylen + metalen) 16 (omega arith)).0

obj_meta_offset_lt : (keylen : ℕ) → obj_key_offset + keylen < obj_meta_offset keylen
unfolding obj_meta_offset obj_key_offset
obj_meta_offset_lt keylen =
    let b = align_bounds (48 + keylen + 1) 16 (omega arith) in omega (arith, b.0)

-- `obj_init` gives an object whole blocks, in which the key with a byte behind it, the metadata and the data
-- follow one another without overlap, whatever their lengths and with or without the alignment of
-- the data to a page. The last block is used.
pub obj_init-IsLayout :
    (page_size : ℕ) (align : Bool) (block_size block_count : ℕ) (hdr : ObjectHdr) (vno : ℕ)
    (rdonly : Bool) (exp : ℕ)
    → 0 < page_size
    → 0 < block_size
    → let obj = obj_init page_size align block_size block_count hdr vno rdonly exp in
      IsLayout obj.keylen obj.metalen obj.datalen
        (obj_meta_offset obj.keylen)
        (obj_data_offset page_size align obj.keylen obj.metalen)
        obj.nbytes
        obj.nblcks
        block_size
unfolding obj_init obj_slab_size
obj_init-IsLayout page_size align block_size block_count hdr vno rdonly exp pages blocks =
    let off = obj_data_offset page_size align hdr.keylen hdr.metalen in
    let b = align_bounds (off + hdr.datalen) block_size blocks in
    record {
      key = obj_meta_offset_lt hdr.keylen;
      meta = obj_data_offset_le page_size align hdr.keylen hdr.metalen pages;
      content = b.0;
      blocks =
          ap (λ k. k * block_size)
            (mul-div_cancel (count_size (off + hdr.datalen) block_size) blocks);
      tight = b.1;
    }
