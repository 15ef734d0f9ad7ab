-- ===== src/Cache/Laws/Expiry.antt =====
-- `update_expiry` changes the first entry with the key that may be changed, and the header of its object.
use eddy.Base.{
  ℕ, zero, suc, ◌%◌, ◌<◌, ◌≡◌, ◌≢◌, inl, inr, refl, ap, Bool, true, false, not, ◌&&◌, ◌==◌, arith,
  Bool-cases, Option-cases, Option, none, some, List, length,
}
use eddy.Base.Mem.{put}
use eddy.Base.Result.{Error, Result, ok, err}
use eddy.Time.{expired_at}
use eddy.Cache.{EntryKey}
use eddy.Cache.Get.{Slab, has_key}
use eddy.Cache.Expiry.{
  Edits, Update, ended, key_new, expire, update_set, update_mapped, update_entry, update_loop,
  update_expiry,
}
use eddy.Cache.Laws.Get.{Walks, at_end, failed, looped, entry, HasKey, has_key-HasKey, not_has_key}

module _ {S : Type 0} (ops : Edits S) (s : Slab) (k : List ℕ) (exp : ℕ) (restore : Bool) where
  -- The outcomes from a step of the cursor on. The first entry that is neither expired, unless it is to
  -- be restored, nor of another key decides.
  pub data Updates : Result (Option EntryKey) × S → Update S → Type 0 where
    missing : {db : S} → Updates (ok none, db) (ended ops none db s)
    broken : {x : Error} {db : S} → Updates (err x, db) (ended ops (some x) db s)
    around :
        {e : EntryKey} {db : S}
        → ops.keys.loop db ≢ 0
        → Updates (ok (some e), db) (ended ops none db s)
    past :
        {e : EntryKey} {db : S} {u : Update S}
        → ops.keys.loop db ≡ 0
        → (not restore && expired_at s.epoch e.exp s.now) ≡ true
        → Updates (ops.keys.next db) u
        → Updates (ok (some e), db) u
    other_key :
        {e : EntryKey} {db : S} {u : Update S}
        → ops.keys.loop db ≡ 0
        → ¬ HasKey ops.keys s k e
        → Updates (ops.keys.next db) u
        → Updates (ok (some e), db) u
    unmapped :
        {e : EntryKey} {db : S} {x : Error}
        → ops.keys.loop db ≡ 0
        → (not restore && expired_at s.epoch e.exp s.now) ≡ false
        → s.map_error (e.vno % s.block_count) ≡ some x
        → Updates (ok (some e), db) (ended ops (some x) db s)
    changed :
        {e : EntryKey} {db db' : S}
        → ops.keys.loop db ≡ 0
        → (not restore && expired_at s.epoch e.exp s.now) ≡ false
        → HasKey ops.keys s k e
        → ops.set (record e { exp = exp }) db ≡ (none, db')
        → Updates
            (ok (some e), db)
            (record {
              rc = none;
              set = true;
              db = db';
              slab = record s {
                hdr =
                    put s.hdr
                      (e.vno % s.block_count)
                      (record (s.hdr (e.vno % s.block_count)) { exp = exp });
              };
            })

  module _ (sets : (e : EntryKey) (db : S) → (ops.set e db).0 ≡ none) where
    abbrev Ends : Result (Option EntryKey) × S → Option (Update S) → Type 0
    Ends r o = (u : Update S) × (o ≡ some u) × Updates r u

    set_eq : (e : EntryKey) (db : S) → ops.set e db ≡ (none, (ops.set e db).1)
    set_eq e db = ap (λ rc. (rc, (ops.set e db).1)) (sets e db)

    entry-Ends :
        (e : EntryKey) (db : S) (more : S → Option (Update S))
        → ops.keys.loop db ≡ 0
        → Ends (ops.keys.next db) (more db)
        → Ends (ok (some e), db) (update_entry ops s k exp restore e db more)
    unfolding update_entry update_mapped
    entry-Ends e db more here (u, eq, out) =
        elim (Bool-cases (not restore && expired_at s.epoch e.exp s.now)) [
          | inl t ↦ rw t (u, eq, past here t out)
          | inr f ↦ elim (Option-cases (s.map_error (e.vno % s.block_count))) [
            | inr x ↦ rw (f, x.1) (ended ops (some x.0) db s, refl, unmapped here f x.1)
            | inl mapped ↦ elim (Bool-cases (has_key s k e)) [
              | inl t ↦
                  let next = (ops.set (key_new ops e exp) db).1 in
                  rw (f, mapped, t)
                    (
                      record {
                        rc = none;
                        set = true;
                        db = next;
                        slab = expire ops s (e.vno % s.block_count) exp;
                      },
                      ap (update_set ops s (e.vno % s.block_count) exp more)
                          (set_eq (key_new ops e exp) db),
                      changed here f (has_key-HasKey ops.keys s k e t)
                          (set_eq (key_new ops e exp) db),
                    )
              | inr other ↦
                  rw (f, mapped, other)
                    (u, eq, other_key here (not_has_key ops.keys s k e other) out)
            ]
          ]
        ]

    update_loop-Ends :
        (fuel : ℕ) (r : Result (Option EntryKey) × S) (es : List EntryKey)
        → Walks ops.keys s k r es
        → length es < fuel
        → Ends r (update_loop ops s k exp restore fuel r)
    unfolding update_loop
    update_loop-Ends zero r es walk lt = absurd (omega (arith, lt))
    update_loop-Ends (suc fuel) _ _ (at_end {db = db}) lt = (ended ops none db s, refl, missing)
    update_loop-Ends (suc fuel) _ _ (failed {x = x} {db = db}) lt =
        (ended ops (some x) db s, refl, broken)
    update_loop-Ends (suc fuel) _ _ (looped {db = db} round) lt =
        let test : (ops.keys.loop db == 0) ≡ false = ground arith in
        rw test (ended ops none db s, refl, around round)
    update_loop-Ends (suc fuel) _ _ (entry {e = e} {db = db} {es = es} same_round walk) lt =
        let test : (ops.keys.loop db == 0) ≡ true = ground arith in
        let next = update_loop-Ends fuel (ops.keys.next db) es walk (omega (arith, lt)) in
        let more = λ (db' : S). update_loop ops s k exp restore fuel (ops.keys.next db') in
        rw test (entry-Ends e db more same_round next)

    -- If no change of an entry fails, `update_expiry` returns, with fuel for the walk over the entries of
    -- the key's hash. Entries that are expired, unless they are to be restored, and entries whose object
    -- has another key are skipped. The first other entry decides: if its object can be mapped, that entry,
    -- which the cursor is at, and the header of its object get the new expiry, and the change is to be
    -- committed. If not, or if there is no such entry, the tree is where the walk has moved its cursor to,
    -- the slab is unchanged, and no change is to be committed.
    pub update_expiry-Updates :
        (db : S) (fuel : ℕ) (es : List EntryKey)
        → let r = ops.keys.find (s.hash k) db in
          Walks ops.keys s k r es
          → length es < fuel
          → (u : Update S) × (update_expiry ops s k exp restore fuel db ≡ some u) × Updates r u
    unfolding update_expiry
    update_expiry-Updates db fuel es walk lt =
        update_loop-Ends fuel (ops.keys.find (s.hash k) db) es walk lt
