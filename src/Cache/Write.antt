-- ===== src/Cache/Write.antt =====
-- lib/cache.c: `ed_write`, and the check of the checksums of `ed_open`.
use eddy.Base.{
  ℕ, ◌+◌, ◌-◌, ◌^◌, Bool, not, ◌&&◌, ◌||◌, ltb, leb, ◌==◌, if◌then◌else◌, Option, none, some, List,
  [], ◌∷◌, length,
}
use eddy.Base.Mem.{Mem, slice}
use eddy.Base.Result.{Error, Result, ok, err, object_rdonly, toobig, metacrc, datacrc}
use eddy.Cache.{Object, obj_meta_offset, obj_data_offset}

-- `memcpy` of bytes to an address, and `memset` with 0.
abbrev pub put_bytes : Mem ℕ → ℕ → List ℕ → Mem ℕ
put_bytes m p [] i = m i
put_bytes m p (b ∷ bs) i = if i == p then b else put_bytes m (p + 1) bs i

abbrev pub clear_bytes : Mem ℕ → ℕ → ℕ → Mem ℕ
clear_bytes slab p n i = if leb p i && ltb i (p + n) then 0 else slab i

-- The parameters of the index: the page size, the flags `ED_FPAGEALIGN`, `ED_FCHECKSUM` and
-- `ED_FNOVERIFY`, and the checksum.
pub record Layout : Type 0 where
  pub page_size : ℕ
  pub align : Bool
  pub checksum : Bool
  pub noverify : Bool
  pub crc : ℕ → List ℕ → ℕ

-- The address of an object's data, and of its metadata.
abbrev pub data_at : Layout → Object → ℕ
data_at l obj = obj.byte + obj_data_offset l.page_size l.align obj.keylen obj.metalen

abbrev pub meta_at : Object → ℕ
meta_at obj = obj.byte + obj_meta_offset obj.keylen

-- `obj_write`: the checksum and the slab.
unfoldable pub obj_write : Layout → Mem ℕ → ℕ → List ℕ → ℕ → ℕ × Mem ℕ
obj_write l slab dst src crc = (if l.checksum then l.crc crc src else crc, put_bytes slab dst src)

-- `obj_hdr_final`: the bytes behind the data.
unfoldable pub obj_hdr_final : Layout → Object → Mem ℕ → Mem ℕ
unfolding obj_data_offset
obj_hdr_final l obj slab =
    let used = obj_data_offset l.page_size l.align obj.keylen obj.metalen + obj.datalen in
    clear_bytes slab (obj.byte + used) (obj.nbytes - used)

-- `ed_write`
unfoldable pub object_write : Layout → Object → List ℕ → Mem ℕ → Result ℕ × Object × Mem ℕ
unfolding obj_write obj_hdr_final obj_data_offset
object_write l obj buf slab =
    let n = length buf in
    let (crc, slab') = obj_write l slab (data_at l obj + obj.dataseek) buf obj.data_crc in
    let obj' = record obj { data_crc = crc; dataseek = obj.dataseek + n } in
    if obj.rdonly
    then (err object_rdonly, obj, slab)
    else if leb (2 ^ 32) n || ltb obj.datalen (obj.dataseek + n)
    then (err toobig, obj, slab)
    else if obj.datalen == obj.dataseek + n
    then (ok n, record obj' { hdr = record obj.hdr { data_crc = crc } }, obj_hdr_final l obj slab')
    else (ok n, obj', slab')

-- `ed_value`, as the bytes.
abbrev pub object_value : Layout → Object → Mem ℕ → List ℕ
object_value l obj slab = slice slab (data_at l obj) obj.datalen

-- `obj_verify`
unfoldable pub obj_verify : Layout → Object → Mem ℕ → Option Error
obj_verify l obj slab =
    if l.checksum && not l.noverify
    then (if ltb 0 obj.metalen
          && not (l.crc 0 (slice slab (meta_at obj) obj.metalen) == obj.meta_crc)
        then some metacrc
        else if ltb 0 obj.datalen && not (l.crc 0 (object_value l obj slab) == obj.data_crc)
        then some datacrc
        else none)
    else none

-- Writes one after the other, up to one that fails.
unfoldable pub write_all :
    Layout → Object → List (List ℕ) → Mem ℕ → Result (Unit {0}) × Object × Mem ℕ
unfolding object_write
write_all l obj [] slab = (ok tt, obj, slab)
write_all l obj (buf ∷ bufs) slab =
    let r = object_write l obj buf slab in
    let rest = write_all l r.1 bufs r.2 in elim r.0 [ ok n ↦ rest | err x ↦ (err x, r.1, r.2) ]
