-- ===== src/Bpt/Laws/Order.antt =====
-- `ed_bpt_first` and `ed_bpt_next` visit the entries of a tree in order.
use eddy.Base.{
  ℕ, suc, ◌+◌, ◌-◌, ◌%◌, ◌^◌, ◌≤◌, ◌<◌, ◌≡◌, refl, sym, ap, ◌∙◌, inl, inr, true, false, leb, ◌==◌,
  ◌&&◌, not, arith, if◌then◌else◌, Bool-cases, Option, none, some, List, ◌∷◌, ◌++◌,
}
use eddy.Base.Result.{Error, ok, err, key_match}
use eddy.Bpt.{Keyed}
use eddy.Bpt.Leaf.{leaf_key}
use eddy.Bpt.Edit.{Db}
use eddy.Bpt.Txn.{Txn, Place}
use eddy.Bpt.Move.{Spot, move_first, move_right, arrive, set_first, at_slot}
use eddy.Bpt.Step.{yield_at, yield_entry, yield_moved, next_at, next_from, bpt_next}
use eddy.Bpt.Order.{leaf_slots, slots, slots_right, slots_after, IsPath, IsAt, ring, key_at}
use eddy.Bpt.Laws.Moves.{Reached, down_first-Reached, up_right-Reached, path_shape}

module _ {E : Type 0} ⦃e : Keyed E⦄ (depth root : ℕ) where
  -- A leaf that has been reached is not empty: the cursor is at its first slot.
  pub set_first-IsAt :
      (db : Db) (t : Txn E) (s : Spot) (list : List (ℕ × ℕ))
      → db.hasfind ≡ true
      → Reached t.pages depth root 0 s list
      → (y : ℕ × ℕ) × (ys : List (ℕ × ℕ)) × (list ≡ y ∷ ys)
        × IsAt t.pages depth root (set_first db t s) y ys
  unfolding set_first
  set_first-IsAt db t s list found r =
      let l = t.pages s.node.no in
      let (leaf, pos) = path_shape t.pages depth root 0 s.node s.parents r.path in
      let n : l.nkeys ≡ suc (l.nkeys - 0 - 1) = omega (arith, pos) in
      let at : Place = record { leaf = s.node; parents = s.parents; eidx = 0 } in
      (
        (s.node.no, 0),
        slots_after t.pages at,
        sym r.all ∙ ap (λ k. leaf_slots s.node.no 0 k ++ slots_right t.pages 0 s.node s.parents) n,
        record {
          place = at;
          at = refl;
          hasfind = found;
          hasentry = refl;
          path = r.path;
          inside = pos;
          here = refl;
          after = refl;
        },
      )

  -- A move that ends at the first slot of a list.
  record Arrives (db : Db) (t : Txn E) (list : List (ℕ × ℕ)) (db' : Db) : Type 0 where
    y : ℕ × ℕ
    ys : List (ℕ × ℕ)
    head : list ≡ y ∷ ys
    at : IsAt t.pages depth root db' y ys
    haskey : db'.haskey ≡ db.haskey
    key : db'.key ≡ db.key

  module _ (map_error : ℕ → Option Error) (fuel : ℕ) (mapped : (pg : ℕ) → map_error pg ≡ none)
      (enough : depth < fuel) where
    move_first-IsAt :
        (db : Db) (t : Txn E) (s : Spot) (d : ℕ) (list : List (ℕ × ℕ))
        → d ≤ depth
        → db.hasfind ≡ true
        → Reached t.pages depth root d s list
        → (db' : Db) × (move_first map_error fuel db t s ≡ some (ok tt, db', t))
          × Arrives db t list db'
    unfolding move_first arrive set_first
    move_first-IsAt db t s d list le found r =
        let (s', eq, there) =
          down_first-Reached t.pages depth root map_error fuel d s list mapped
            (omega (arith, le, enough)) r in
        let (y, ys, head, at) = set_first-IsAt db t s' list found there in
        (
          set_first db t s',
          rw (move_first, eq) refl,
          record { y = y; ys = ys; head = head; at = at; haskey = refl; key = refl },
        )

    -- What the moves behind the last entry of a leaf lead to.
    move_right-IsAt :
        (db : Db) (t : Txn E) (at : Place)
        → db.hasfind ≡ true
        → IsPath t.pages depth root 0 at.leaf at.parents
        → (db' : Db) × (move_right map_error fuel db t at ≡ some (ok tt, db', t))
          × Arrives db t
              (ring (slots t.pages depth root) (slots_right t.pages 0 at.leaf at.parents))
              db'
    unfolding move_right
    move_right-IsAt db t at found path =
        let (s, eq, cases) =
          up_right-Reached t.pages depth root map_error 0 at.leaf at.parents mapped path in
        elim cases [
          | inl (wrap, last) ↦
              let all = slots t.pages depth root in
              let (db', moved, a) = move_first-IsAt db t s depth all (omega arith) found wrap in
              (
                db',
                rw (move_right, eq) moved,
                record {
                  y = a.y;
                  ys = a.ys;
                  head = ap (ring all) last ∙ a.head;
                  at = a.at;
                  haskey = a.haskey;
                  key = a.key;
                },
              )
          | inr (d, le, there) ↦
              let all = slots t.pages depth root in
              let right = slots_right t.pages 0 at.leaf at.parents in
              let (db', moved, a) = move_first-IsAt db t s d right le found there in
              (
                db',
                rw (move_right, eq) moved,
                record {
                  y = a.y;
                  ys = a.ys;
                  head = ap (ring all) a.head;
                  at = a.at;
                  haskey = a.haskey;
                  key = a.key;
                },
              )
        ]

    -- `ed_bpt_next` behind the move: the entry stays, and it is told whether its key is the one that was
    -- searched for and has been met since without a break.
    yield_entry-IsAt :
        (db : Db) (t : Txn E) (y : ℕ × ℕ) (ys : List (ℕ × ℕ))
        → IsAt t.pages depth root db y ys
        → let again = db.haskey && (db.key == key_at t.pages y) in
          (db' : Db) × (yield_entry db t ≡ (ok again, db', t)) × IsAt t.pages depth root db' y ys
    unfolding yield_at
    yield_entry-IsAt db t y ys a =
        let at = a.place in
        let same : key_at t.pages (at.leaf.no, at.eidx) ≡ key_at t.pages y =
          ap (key_at t.pages) a.here in
        let again = db.haskey && (db.key == key_at t.pages (at.leaf.no, at.eidx)) in
        let db' : Db = record db {
          nmatches = if again then db.nmatches + 1 else db.nmatches;
          haskey = again;
          nloops = if at_slot db.start at.leaf.no at.eidx then db.nloops + 1 else db.nloops;
          matched = again;
        } in
        (
          db',
          ap (yield_at db t) a.at ∙ ap (λ k. (ok (db.haskey && (db.key == k)), db', t)) same,
          record {
            place = at;
            at = a.at;
            hasfind = a.hasfind;
            hasentry = a.hasentry;
            path = a.path;
            inside = a.inside;
            here = a.here;
            after = a.after;
          },
        )

    bpt_next-at :
        (db : Db) (t : Txn E) (at : Place)
        → db.hasfind ≡ true
        → db.find ≡ some at
        → bpt_next map_error fuel db t ≡ next_at map_error fuel db t at
    unfolding bpt_next
    bpt_next-at db t at found here =
        ap
          (λ b.
            if not b then some (err key_match, db, t) else next_from map_error fuel db t db.find)
          found
        ∙ ap (next_from map_error fuel db t) here

    next_at-last :
        (db : Db) (t : Txn E) (at : Place)
        → db.hasentry ≡ true
        → (at.eidx + 1) % 2 ^ 32 ≡ at.eidx + 1
        → leb (t.pages at.leaf.no).nkeys (at.eidx + 1) ≡ true
        → next_at map_error fuel db t at ≡ yield_moved (move_right map_error fuel db t at)
    unfolding next_at yield_moved
    next_at-last db t at entry fits last = rw (entry, fits, last) refl

    next_at-inner :
        (db : Db) (t : Txn E) (at : Place)
        → db.hasentry ≡ true
        → (at.eidx + 1) % 2 ^ 32 ≡ at.eidx + 1
        → leb (t.pages at.leaf.no).nkeys (at.eidx + 1) ≡ false
        → next_at map_error fuel db t at
          ≡ some (
              yield_entry
                (record db {
                  find = some (record at { eidx = at.eidx + 1 });
                  kmin = db.kmax;
                  kmax = leaf_key (t.pages at.leaf.no).ents (at.eidx + 1);
                })
                t)
    unfolding next_at
    next_at-inner db t at entry fits inner = rw (entry, fits, inner) refl

    -- If every page can be mapped, the fuel is more than the levels of branches, and pages have less than
    -- 2^32 keys: a cursor that is at an entry of a tree whose leaves are all on one level and none of them
    -- empty moves to the next entry in order, and from the last one to the first one. It tells whether
    -- that entry has the key that was searched for, as all since the search.
    pub bpt_next-IsAt :
        (db : Db) (t : Txn E) (x : ℕ × ℕ) (rest : List (ℕ × ℕ))
        → ((pg : ℕ) → (t.pages pg).nkeys < 2 ^ 32)
        → IsAt t.pages depth root db x rest
        → (y : ℕ × ℕ) × (ys : List (ℕ × ℕ)) × (db' : Db) × (ring (slots t.pages depth root) rest
            ≡ y ∷ ys)
          × (bpt_next map_error fuel db t
              ≡ some (ok (db.haskey && (db.key == key_at t.pages y)), db', t))
          × IsAt t.pages depth root db' y ys
    unfolding bpt_next next_at yield_moved
    bpt_next-IsAt db t x rest few a =
        let at = a.place in
        let l = t.pages at.leaf.no in
        let size = few at.leaf.no in
        let i : (at.eidx + 1) % 2 ^ 32 ≡ at.eidx + 1 = omega (arith, a.inside, size) in
        elim (Bool-cases (leb l.nkeys (at.eidx + 1))) [
          | inl last ↦
              let (db1, moved, arrived) = move_right-IsAt db t at a.hasfind a.path in
              let (db', yielded, at') = yield_entry-IsAt db1 t arrived.y arrived.ys arrived.at in
              let none_left : l.nkeys - at.eidx - 1 ≡ 0 = ground arith in
              let right = slots_right t.pages 0 at.leaf at.parents in
              let after : right ≡ rest =
                ap (λ n. leaf_slots at.leaf.no (at.eidx + 1) n ++ right) (sym none_left)
                ∙ a.after in
              (
                arrived.y,
                arrived.ys,
                db',
                ap (ring (slots t.pages depth root)) (sym after) ∙ arrived.head,
                bpt_next-at db t at a.hasfind a.at
                    ∙ next_at-last db t at a.hasentry i last
                    ∙ rw (moved, yield_moved, yielded, arrived.haskey, arrived.key) refl,
                at',
              )
          | inr inner ↦
              let db1 : Db = record db {
                find = some (record at { eidx = at.eidx + 1 });
                kmin = db.kmax;
                kmax = leaf_key l.ents (at.eidx + 1);
              } in
              let left : l.nkeys - at.eidx - 1 ≡ suc (l.nkeys - (at.eidx + 1) - 1) = ground arith in
              let right = slots_right t.pages 0 at.leaf at.parents in
              let y : ℕ × ℕ = (at.leaf.no, at.eidx + 1) in
              let ys : List (ℕ × ℕ) = slots_after t.pages (record at { eidx = at.eidx + 1 }) in
              let after : y ∷ ys ≡ rest =
                ap (λ n. leaf_slots at.leaf.no (at.eidx + 1) n ++ right) (sym left) ∙ a.after in
              let at1 : IsAt t.pages depth root db1 y ys = record {
                place = record at { eidx = at.eidx + 1 };
                at = refl;
                hasfind = a.hasfind;
                hasentry = a.hasentry;
                path = a.path;
                inside = ground arith;
                here = refl;
                after = refl;
              } in
              let (db', yielded, at') = yield_entry-IsAt db1 t y ys at1 in
              (
                y,
                ys,
                db',
                ap (ring (slots t.pages depth root)) (sym after),
                bpt_next-at db t at a.hasfind a.at
                    ∙ next_at-inner db t at a.hasentry i inner
                    ∙ ap some yielded,
                at',
              )
        ]
