-- ===== src/Cache.antt =====
-- lib/cache.c: an object in the slab, and what is written to it.
--
-- The slab is its bytes. The checksum of lib/hash.c is a parameter, a function of the checksum so far and
-- the bytes. Sizes are `size_t` and do not wrap, since the fields of an object's header have 32 bits at most.
pub mod Write
pub mod Reserve
pub mod Get
pub mod Expiry
pub mod Laws
mod Tests
use eddy.Base.{
  ℕ, zero, suc, ◌+◌, ◌-◌, ◌*◌, ◌/◌, ◌%◌, Bool, true, false, not, ◌&&◌, ltb, ◌==◌, if◌then◌else◌,
  Option, none, some, List,
}
use eddy.Base.Mem.{Mem}
use eddy.Base.Result.{Error, metacrc, datacrc}
use eddy.Pg.{align_size}

-- `struct EdObjectHdr` and its size.
pub record ObjectHdr : Type 0 where
  pub xid : ℕ
  pub created : ℕ
  pub exp : ℕ
  pub keylen : ℕ
  pub metalen : ℕ
  pub datalen : ℕ
  pub keyhash : ℕ
  pub meta_crc : ℕ
  pub data_crc : ℕ

abbrev pub object_hdr_size : ℕ
object_hdr_size = 48

-- `struct EdEntryBlock` and `struct EdEntryKey`
pub record EntryBlock : Type 0 where
  pub no : ℕ
  pub count : ℕ
  pub xid : ℕ

pub record EntryKey : Type 0 where
  pub hash : ℕ
  pub vno : ℕ
  pub count : ℕ
  pub exp : ℕ

-- `ed_entry_block_make` and `ed_entry_key_make`
abbrev pub entry_block_make : ℕ → ℕ → ℕ → ℕ → EntryBlock
entry_block_make n c t x = record { no = n % t; count = c; xid = x }

abbrev pub entry_key_make : ℕ → ℕ → ℕ → ℕ → EntryKey
entry_key_make h n c e = record { hash = h; vno = n; count = c; exp = e }

-- `ED_MAX_ALIGN`, and `ed_align_max`
abbrev pub max_align : ℕ
max_align = 16

abbrev pub align_max : ℕ → ℕ
align_max n = align_size n max_align

unfoldable pub obj_key_offset : ℕ
obj_key_offset = object_hdr_size

unfoldable pub obj_meta_offset : ℕ → ℕ
unfolding obj_key_offset
obj_meta_offset keylen = align_max (obj_key_offset + keylen + 1)

-- `align` is whether the flag `ED_FPAGEALIGN` is set.
unfoldable pub obj_data_offset : ℕ → Bool → ℕ → ℕ → ℕ
unfolding obj_meta_offset
obj_data_offset page_size align keylen metalen =
    if align
    then align_size (obj_meta_offset keylen + metalen) page_size
    else align_max (obj_meta_offset keylen + metalen)

unfoldable pub obj_slab_size : ℕ → Bool → ℕ → ℕ → ℕ → ℕ → ℕ
unfolding obj_data_offset
obj_slab_size page_size align keylen metalen datalen block_size =
    align_size (obj_data_offset page_size align keylen metalen + datalen) block_size

-- `struct EdObject`; the key, the metadata and the data are in the slab from `byte` on.
pub record Object : Type 0 where
  pub keylen : ℕ
  pub metalen : ℕ
  pub datalen : ℕ
  pub meta_crc : ℕ
  pub data_crc : ℕ
  pub dataseek : ℕ
  pub xid : ℕ
  pub vno : ℕ
  pub nblcks : ℕ
  pub byte : ℕ
  pub nbytes : ℕ
  pub exp : ℕ
  pub rdonly : Bool
  pub hdr : ObjectHdr

-- `obj_init`; the text of `id` is left out.
unfoldable pub obj_init : ℕ → Bool → ℕ → ℕ → ObjectHdr → ℕ → Bool → ℕ → Object
unfolding obj_slab_size
obj_init page_size align block_size block_count hdr vno rdonly exp =
    let size = obj_slab_size page_size align hdr.keylen hdr.metalen hdr.datalen block_size in
    record {
      keylen = hdr.keylen;
      metalen = hdr.metalen;
      datalen = hdr.datalen;
      meta_crc = hdr.meta_crc;
      data_crc = hdr.data_crc;
      dataseek = 0;
      xid = hdr.xid;
      vno = vno;
      nblcks = size / block_size;
      byte = vno % block_count * block_size;
      nbytes = size;
      exp = exp;
      rdonly = rdonly;
      hdr = hdr;
    }

-- `obj_overlap`
unfoldable pub obj_overlap : EntryBlock → ℕ → ℕ → Bool
obj_overlap block start end = ltb block.no end && ltb start (block.no + block.count)
