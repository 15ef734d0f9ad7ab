-- ===== src/Cache/Laws/Write.antt =====
-- The writes to an object give its data.
use eddy.Base.{
  ℕ, ◌+◌, ◌^◌, ◌≤◌, ◌<◌, ◌≡◌, refl, sym, ap, ap₂, ◌∙◌, true, false, ltb, leb, ◌==◌, arith,
  Bool-cases, inl, inr, List, [], ◌∷◌, ◌++◌, append_assoc, append-nil, length, length-append,
}
use eddy.Base.Mem.{Mem, slice, slice_ext, slice_split}
use eddy.Base.Result.{Result, ok, err}
use eddy.Cache.{Object, obj_data_offset}
use eddy.Cache.Write.{
  put_bytes, clear_bytes, Layout, data_at, obj_write, obj_hdr_final, object_write, object_value,
  write_all,
}

-- Bytes before those written stay.
put_bytes_before : (m : Mem ℕ) (p : ℕ) (bs : List ℕ) (i : ℕ) → i < p → put_bytes m p bs i ≡ m i
put_bytes_before m p [] i lt = refl
put_bytes_before m p (b ∷ bs) i lt =
    let test : (i == p) ≡ false = ground arith in
    rw test (put_bytes_before m (p + 1) bs i (omega (arith, lt)))

slice-put_bytes : (m : Mem ℕ) (p : ℕ) (bs : List ℕ) → slice (put_bytes m p bs) p (length bs) ≡ bs
slice-put_bytes m p [] = refl
slice-put_bytes m p (b ∷ bs) =
    let here : (p == p) ≡ true = ground arith in
    let rest : slice (put_bytes m p (b ∷ bs)) (p + 1) (length bs)
        ≡ slice (put_bytes m (p + 1) bs) (p + 1) (length bs) =
      slice_ext (put_bytes m p (b ∷ bs)) (put_bytes m (p + 1) bs) (p + 1) (p + 1) (length bs)
        (λ k q. let off : (p + 1 + k == p) ≡ false = ground arith in rw off refl) in
    ap₂ ◌∷◌ (rw here refl) (rest ∙ slice-put_bytes m (p + 1) bs)

-- After a write the bytes up to there and the new ones.
slice_written :
    (m : Mem ℕ) (p k : ℕ) (bs : List ℕ)
    → slice (put_bytes m (p + k) bs) p (k + length bs) ≡ slice m p k ++ bs
slice_written m p k bs =
    slice_split (put_bytes m (p + k) bs) p k (length bs)
    ∙ ap₂ ◌++◌
        (slice_ext (put_bytes m (p + k) bs) m p p k
          (λ i q. put_bytes_before m (p + k) bs (p + i) (omega (arith, q))))
        (slice-put_bytes m (p + k) bs)

slice_cleared : (m : Mem ℕ) (p k e n : ℕ) → p + k ≤ e → slice (clear_bytes m e n) p k ≡ slice m p k
slice_cleared m p k e n le =
    slice_ext (clear_bytes m e n) m p p k
      (λ i q. let before : leb e (p + i) ≡ false = ground arith in rw before refl)

-- All bytes of the writes.
abbrev pub concat : List (List ℕ) → List ℕ
concat [] = []
concat (b ∷ bs) = b ++ concat bs

-- What a write that succeeds changes.
record Wrote (l : Layout) (obj : Object) (bytes : List ℕ) (slab : Mem ℕ) (obj' : Object)
    (slab' : Mem ℕ) : Type 0 where
  place : data_at l obj' ≡ data_at l obj
  datalen : obj'.datalen ≡ obj.datalen
  for_writing : obj'.rdonly ≡ false
  seek : obj'.dataseek ≡ obj.dataseek + length bytes
  content :
      slice slab' (data_at l obj') obj'.dataseek ≡ slice slab (data_at l obj) obj.dataseek ++ bytes

-- A write of bytes for which there is room, to an object that is open for writing.
object_write-Wrote :
    (l : Layout) (obj : Object) (buf : List ℕ) (slab : Mem ℕ)
    → obj.datalen < 2 ^ 32
    → obj.dataseek + length buf ≤ obj.datalen
    → let o : Object = record obj { rdonly = false } in
      (obj' : Object) × (slab' : Mem ℕ) × (object_write l o buf slab
        ≡ (ok (length buf), obj', slab'))
      × Wrote l o buf slab obj' slab'
unfolding object_write obj_write obj_hdr_final
object_write-Wrote l obj buf slab small le =
    let n : ℕ = length buf in
    let at : ℕ = data_at l obj in
    let k : ℕ = obj.dataseek in
    let o : Object = record obj { rdonly = false } in
    let crc : ℕ = (obj_write l slab (at + k) buf obj.data_crc).0 in
    let slab1 : Mem ℕ = put_bytes slab (at + k) buf in
    let moved : Object = record o { data_crc = crc; dataseek = k + n } in
    let short : leb (2 ^ 32) n ≡ false = ground arith in
    let room : ltb obj.datalen (k + n) ≡ false = ground arith in
    elim (Bool-cases (obj.datalen == k + n)) [
      | inl full ↦
          let slab2 = obj_hdr_final l moved slab1 in
          let end : at + (k + n)
              ≤ obj.byte
                + (obj_data_offset l.page_size l.align obj.keylen obj.metalen + obj.datalen) =
            ground arith in
          (
            record moved { hdr = record obj.hdr { data_crc = crc } },
            slab2,
            rw (short, room, full) refl,
            record {
              place = refl;
              datalen = refl;
              for_writing = refl;
              seek = refl;
              content = slice_cleared slab1 at (k + n) _ _ end ∙ slice_written slab at k buf;
            },
          )
      | inr more ↦ (
        moved,
        slab1,
        rw (short, room, more) refl,
        record {
          place = refl;
          datalen = refl;
          for_writing = refl;
          seek = refl;
          content = slice_written slab at k buf;
        },
      )
    ]

for_writing_eq : (obj : Object) → obj.rdonly ≡ false → obj ≡ record obj { rdonly = false }
for_writing_eq obj wr = ap (λ b. record obj { rdonly = b }) wr

after_write :
    (l : Layout) → List (List ℕ) → Result ℕ × Object × Mem ℕ → Result (Unit {0}) × Object × Mem ℕ
after_write l bufs r = elim r.0 [ ok n ↦ write_all l r.1 bufs r.2 | err x ↦ (err x, r.1, r.2) ]

write_all-Wrote :
    (l : Layout) (obj : Object) (bufs : List (List ℕ)) (slab : Mem ℕ)
    → obj.rdonly ≡ false
    → obj.datalen < 2 ^ 32
    → obj.dataseek + length (concat bufs) ≤ obj.datalen
    → (obj' : Object) × (slab' : Mem ℕ) × (write_all l obj bufs slab ≡ (ok tt, obj', slab'))
      × Wrote l obj (concat bufs) slab obj' slab'
unfolding write_all after_write
write_all-Wrote l obj [] slab wr small le = (
  obj,
  slab,
  refl,
  record {
    place = refl;
    datalen = refl;
    for_writing = wr;
    seek = omega arith;
    content = sym (append-nil (slice slab (data_at l obj) obj.dataseek));
  },
)
write_all-Wrote l obj (buf ∷ bufs) slab wr small le =
    let sum = length-append buf (concat bufs) in
    let (obj1, slab1, eq, w) = object_write-Wrote l obj buf slab small (omega (arith, le, sum)) in
    let (obj2, slab2, rest, w2) =
      write_all-Wrote l obj1 bufs slab1 w.for_writing (omega (arith, small, w.datalen))
        (omega (arith, le, sum, w.datalen, w.seek)) in
    (
      obj2,
      slab2,
      ap (λ o. write_all l o (buf ∷ bufs) slab) (for_writing_eq obj wr)
          ∙ ap (after_write l bufs) eq
          ∙ rest,
      record {
        place = w2.place ∙ w.place;
        datalen = w2.datalen ∙ w.datalen;
        for_writing = w2.for_writing;
        seek = omega (arith, w2.seek, w.seek, sum);
        content =
            w2.content
            ∙ ap (λ p. p ++ concat bufs) w.content
            ∙ append_assoc (slice slab (data_at l obj) obj.dataseek) buf (concat bufs);
      },
    )

-- To a new object of fewer than 2 ^ 32 bytes that is open for writing, writes that together have as many
-- bytes as the object all succeed, and `ed_value` then gives these bytes in order, however they
-- were divided. The write position is at the end.
pub write_all-object_value :
    (l : Layout) (obj : Object) (bufs : List (List ℕ)) (slab : Mem ℕ)
    → obj.rdonly ≡ false
    → obj.dataseek ≡ 0
    → obj.datalen < 2 ^ 32
    → length (concat bufs) ≡ obj.datalen
    → (obj' : Object) × (slab' : Mem ℕ) × (write_all l obj bufs slab ≡ (ok tt, obj', slab'))
      × (object_value l obj' slab' ≡ concat bufs)
      × (obj'.dataseek ≡ obj'.datalen)
write_all-object_value l obj bufs slab wr fresh small all =
    let (obj', slab', eq, w) =
      write_all-Wrote l obj bufs slab wr small (omega (arith, fresh, all)) in
    let full : obj'.dataseek ≡ obj'.datalen = omega (arith, w.seek, w.datalen, fresh, all) in
    (
      obj',
      slab',
      eq,
      ap (slice slab' (data_at l obj')) (sym full)
          ∙ w.content
          ∙ ap (λ k. slice slab (data_at l obj) k ++ concat bufs) fresh,
      full,
    )
