-- ===== src/Cache/Laws/Get.antt =====
-- `ed_open` gives an object with the key, if one can be read.
use eddy.Base.{
  ℕ, zero, suc, ◌+◌, ◌%◌, ◌<◌, ◌≡◌, ◌≢◌, inl, inr, refl, sym, ap, ap₂, ◌∙◌, Bool, true, false, ◌&&◌,
  ◌==◌, arith, Bool-cases, Option-cases, Option, none, some, List, [], ◌∷◌, length,
}
use mathlib.Core.Bool.{true≢false}
use mathlib.Core.Path.{subst}
use eddy.Base.Mem.{slice}
use eddy.Base.Result.{Error, Result, ok, err}
use eddy.Time.{expired_at}
use eddy.Idx.{same}
use eddy.Cache.{EntryKey, obj_key_offset, object_hdr_size}
use eddy.Cache.Write.{obj_verify}
use eddy.Cache.Get.{
  Keys, Slab, region_of, has_key, object_at, try_entry, Opened, stepped, open_loop, open_key,
  checked, verified, closed, object_open,
}

module _ {S : Type 0} (ops : Keys S) (s : Slab) (k : List ℕ) where
  -- The entries that the walk of a cursor goes over.
  pub data Walks : Result (Option EntryKey) × S → List EntryKey → Type 0 where
    at_end : {db : S} → Walks (ok none, db) []
    failed : {x : Error} {db : S} → Walks (err x, db) []
    looped : {e : EntryKey} {db : S} → ops.loop db ≢ 0 → Walks (ok (some e), db) []
    entry :
        {e : EntryKey} {db : S} {es : List EntryKey}
        → ops.loop db ≡ 0
        → Walks (ops.next db) es
        → Walks (ok (some e), db) (e ∷ es)

  -- The object at an entry's region has the key.
  abbrev pub HasKey : EntryKey → Type 0
  HasKey e =
      ((s.hdr (e.vno % s.block_count)).keylen ≡ length k)
      × (slice s.bytes ((region_of s e).0 + object_hdr_size) (length k) ≡ k)

  -- The entry is not expired, and its region can be locked.
  pub record IsLive (e : EntryKey) : Type 0 where
    pub live : expired_at s.epoch e.exp s.now ≡ false
    pub locked : s.lock_error (region_of s e).0 (region_of s e).1 ≡ none

  -- What the loop goes past.
  pub data IsSkipped (e : EntryKey) : Type 0 where
    expired : expired_at s.epoch e.exp s.now ≡ true → IsSkipped e
    busy : {x : Error} → s.lock_error (region_of s e).0 (region_of s e).1 ≡ some x → IsSkipped e
    other_key : IsLive e → s.map_error (e.vno % s.block_count) ≡ none → ¬ HasKey e → IsSkipped e

  -- The outcomes for the entries of the walk: the first entry that is not skipped decides.
  pub data Outcome : List EntryKey → Opened → Type 0 where
    missing : Outcome [] (ok none, none)
    skipped :
        {e : EntryKey} {es : List EntryKey} {o : Opened}
        → IsSkipped e
        → Outcome es o
        → Outcome (e ∷ es) o
    unmapped :
        {e : EntryKey} {es : List EntryKey} {x : Error}
        → IsLive e
        → s.map_error (e.vno % s.block_count) ≡ some x
        → Outcome (e ∷ es) (err x, none)
    damaged :
        {e : EntryKey} {es : List EntryKey} {x : Error}
        → IsLive e
        → HasKey e
        → obj_verify s.layout (object_at s e) s.bytes ≡ some x
        → Outcome (e ∷ es) (err x, some (region_of s e))
    opened :
        {e : EntryKey} {es : List EntryKey}
        → IsLive e
        → HasKey e
        → obj_verify s.layout (object_at s e) s.bytes ≡ none
        → Outcome (e ∷ es) (ok (some (object_at s e)), some (region_of s e))

  same_eq : (xs ys : List ℕ) → same xs ys ≡ true → xs ≡ ys
  same_eq [] [] h = refl
  same_eq [] (y ∷ ys) h = absurd (true≢false (sym h))
  same_eq (x ∷ xs) [] h = absurd (true≢false (sym h))
  same_eq (x ∷ xs) (y ∷ ys) h = ap₂ ◌∷◌ (ground (arith, h)) (same_eq xs ys (ground (arith, h)))

  same_refl : (xs : List ℕ) → same xs xs ≡ true
  same_refl [] = refl
  same_refl (x ∷ xs) = let here : (x == x) ≡ true = ground arith in rw here (same_refl xs)

  and_parts : (a b : Bool) → (a && b) ≡ true → (a ≡ true) × (b ≡ true)
  and_parts true b h = (refl, h)
  and_parts false b h = absurd (true≢false (sym h))

  pub has_key-HasKey : (e : EntryKey) → has_key s k e ≡ true → HasKey e
  unfolding has_key obj_key_offset
  has_key-HasKey e h =
      let (len, bytes) = and_parts ((s.hdr (e.vno % s.block_count)).keylen == length k) _ h in
      (ground (arith, len), same_eq _ k bytes)

  pub not_has_key : (e : EntryKey) → has_key s k e ≡ false → ¬ HasKey e
  unfolding has_key obj_key_offset
  not_has_key e h (len, bytes) =
      let n = length k in
      let test : ((s.hdr (e.vno % s.block_count)).keylen == n) ≡ true = ground (arith, len) in
      let all = ap (λ xs. same xs k) bytes ∙ same_refl k in true≢false (sym (ap₂ ◌&&◌ test all) ∙ h)

  -- One entry more at the front of the walk.
  abbrev Decides : EntryKey → List EntryKey → Option Opened → Type 0
  Decides e es o = (o' : Opened) × (o ≡ some o') × Outcome (e ∷ es) (verified ops s o')

  check-Decides :
      (e : EntryKey) (es : List EntryKey)
      → IsLive e
      → HasKey e
      → Outcome (e ∷ es) (verified ops s (ok (some (object_at s e)), some (region_of s e)))
  check-Decides e es live key = elim (Option-cases (obj_verify s.layout (object_at s e) s.bytes)) [
    | inl fine ↦
        subst (Outcome (e ∷ es))
          (sym (ap (λ x. checked ops s (object_at s e) x (some (region_of s e))) fine))
          (opened live key fine)
    | inr x ↦
        subst (Outcome (e ∷ es))
          (sym (ap (λ x. checked ops s (object_at s e) x (some (region_of s e))) x.1))
          (damaged live key x.1)
  ]

  step-Decides :
      (e : EntryKey) (es : List EntryKey) (rest : Option Opened) (o : Opened)
      → rest ≡ some o
      → Outcome es (verified ops s o)
      → Decides e es (stepped s e (try_entry s k e) rest)
  unfolding try_entry
  step-Decides e es rest o eq out =
      let lock = s.lock_error (region_of s e).0 (region_of s e).1 in
      let map = s.map_error (e.vno % s.block_count) in
      elim (Bool-cases (expired_at s.epoch e.exp s.now)) [
        | inl t ↦ rw t (o, eq, skipped (expired t) out)
        | inr live ↦ elim (Option-cases lock) [
          | inr x ↦ rw (live, x.1) (o, eq, skipped (busy x.1) out)
          | inl got ↦ elim (Option-cases map) [
            | inr x ↦
                rw (live, got, x.1)
                  ((err x.0, none), refl, unmapped (record { live = live; locked = got }) x.1)
            | inl mapped ↦ elim (Bool-cases (has_key s k e)) [
              | inl t ↦
                  rw (live, got, mapped, t)
                    (
                      (ok (some (object_at s e)), some (region_of s e)),
                      refl,
                      check-Decides e es (record { live = live; locked = got })
                          (has_key-HasKey e t),
                    )
              | inr f ↦
                  rw (live, got, mapped, f)
                    (
                      o,
                      eq,
                      skipped
                          (other_key (record { live = live; locked = got }) mapped
                            (not_has_key e f))
                          out,
                    )
            ]
          ]
        ]
      ]

  open_loop-Outcome :
      (fuel : ℕ) (r : Result (Option EntryKey) × S) (es : List EntryKey)
      → Walks r es
      → length es < fuel
      → (o : Opened) × (open_loop ops s k fuel r ≡ some o) × Outcome es (verified ops s o)
  unfolding open_loop
  open_loop-Outcome zero r es walk lt = absurd (omega (arith, lt))
  open_loop-Outcome (suc fuel) _ _ at_end lt = ((ok none, none), refl, missing)
  open_loop-Outcome (suc fuel) _ _ failed lt = ((ok none, none), refl, missing)
  open_loop-Outcome (suc fuel) _ _ (looped {db = db} around) lt =
      let test : (ops.loop db == 0) ≡ false = ground arith in
      rw test ((ok none, none), refl, missing)
  open_loop-Outcome (suc fuel) _ _ (entry {e = e} {db = db} {es = es} same_round walk) lt =
      let test : (ops.loop db == 0) ≡ true = ground arith in
      let (o, eq, out) = open_loop-Outcome fuel (ops.next db) es walk (omega (arith, lt)) in
      rw test (step-Decides e es _ o eq out)

  -- If the transaction opens, `ed_open` for a key returns, with fuel for the walk over the entries of the
  -- key's hash. Entries that are expired, whose region cannot be locked or whose object has another
  -- key are skipped. The first other entry decides: it is an error if its region cannot be mapped, and an
  -- error that leaves the region locked if its checksums differ; otherwise its object is returned, with
  -- its region locked. Without such an entry no object is found.
  pub object_open-Outcome :
      (db : S) (fuel : ℕ) (es : List EntryKey)
      → Walks (ops.find (s.hash k) db) es
      → length es < fuel
      → (o : Opened) × (object_open ops s none k fuel db ≡ some o) × Outcome es o
  unfolding object_open open_key
  object_open-Outcome db fuel es walk lt =
      let (o, eq, out) = open_loop-Outcome fuel (ops.find (s.hash k) db) es walk lt in
      (verified ops s o, ap (closed ops s) eq, out)
