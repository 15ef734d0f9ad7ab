-- ===== src/Bpt/Laws/Visit.antt =====
-- `ed_bpt_first` and then `ed_bpt_next`, any number of times.
use eddy.Base.{
  ℕ, zero, suc, ◌^◌, ◌<◌, ◌≡◌, refl, sym, ap, ◌∙◌, Bool, true, arith, Option, none, some, List, [],
  ◌∷◌, length, get_elem?,
}
use eddy.Base.Mem.{Mem}
use eddy.Base.Result.{Error, Result, ok, err}
use eddy.Bpt.{Bpt, Keyed}
use eddy.Bpt.Edit.{Db}
use eddy.Bpt.Txn.{Txn}
use eddy.Bpt.Move.{Spot, down_first, set_first, move_first, arrive}
use eddy.Bpt.Step.{bpt_next, bpt_first, first_from, start_at, started, root_spot, slot_of}
use eddy.Bpt.Order.{slots, IsShaped, IsAt}
use eddy.Bpt.Laws.Moves.{down_first-Reached, root-Reached}
use eddy.Bpt.Laws.Order.{set_first-IsAt, bpt_next-IsAt}

module _ {E : Type 0} ⦃e : Keyed E⦄ where
  after_step : (Db → Txn E → Option Db) → Option (Result Bool × Db × Txn E) → Option Db
  after_step k none = none
  after_step k (some (err x, db, t)) = none
  after_step k (some (ok b, db, t)) = k db t

  after_first : (Db → Txn E → Option Db) → Option (Result (Unit {0}) × Db × Txn E) → Option Db
  after_first k none = none
  after_first k (some (err x, db, t)) = none
  after_first k (some (ok u, db, t)) = k db t

  module _ (map_error : ℕ → Option Error) (fuel : ℕ) where
    -- `n` calls of `ed_bpt_next` that succeed.
    unfoldable pub next_many : ℕ → Db → Txn E → Option Db
    unfolding after_step
    next_many zero db t = some db
    next_many (suc n) db t = after_step (next_many n) (bpt_next map_error fuel db t)

    -- The same after `ed_bpt_first`.
    unfoldable pub visit : ℕ → Db → Txn E → Option Db
    unfolding after_first next_many
    visit n db t = after_first (next_many n) (bpt_first map_error fuel db t)

  slot_of-IsAt :
      (pages : Mem (Bpt E)) (depth root : ℕ) (db : Db) (x : ℕ × ℕ) (rest : List (ℕ × ℕ))
      → IsAt pages depth root db x rest
      → slot_of db.find ≡ some x
  slot_of-IsAt pages depth root db x rest a = ap slot_of a.at ∙ ap some a.here

  module _ (depth root : ℕ) (map_error : ℕ → Option Error) (fuel : ℕ)
      (mapped : (pg : ℕ) → map_error pg ≡ none) (enough : depth < fuel) where
    next_many-get_elem? :
        (n : ℕ) (db : Db) (t : Txn E) (x : ℕ × ℕ) (rest : List (ℕ × ℕ))
        → ((pg : ℕ) → (t.pages pg).nkeys < 2 ^ 32)
        → IsAt t.pages depth root db x rest
        → n < length (x ∷ rest)
        → (db' : Db) × (next_many map_error fuel n db t ≡ some db')
          × (slot_of db'.find ≡ get_elem? (x ∷ rest) n)
    unfolding next_many
    next_many-get_elem? zero db t x rest few a lt =
        (db, refl, slot_of-IsAt t.pages depth root db x rest a)
    next_many-get_elem? (suc n) db t x [] few a lt = absurd (omega (arith, lt))
    next_many-get_elem? (suc n) db t x (z ∷ rest) few a lt =
        let (y, ys, db1, head, moved, at1) =
          bpt_next-IsAt depth root map_error fuel mapped enough db t x (z ∷ rest) few a in
        let same = ap length head in
        let (db', run, here) = next_many-get_elem? n db1 t y ys few at1 (omega (arith, lt, same)) in
        (
          db',
          ap (after_step (next_many map_error fuel n)) moved ∙ run,
          here ∙ ap (λ l. get_elem? l n) (sym head),
        )

    move_first-set_first :
        (db : Db) (t : Txn E) (s : Spot)
        → down_first t.pages map_error fuel (root_spot root) ≡ some (ok s)
        → move_first map_error fuel db t (root_spot root) ≡ some (ok tt, set_first db t s, t)
    unfolding move_first arrive
    move_first-set_first db t s eq = rw (move_first, eq) refl

    bpt_first-IsAt :
        (db : Db) (t : Txn E)
        → t.root ≡ some root
        → IsShaped t.pages depth root
        → (y : ℕ × ℕ) × (ys : List (ℕ × ℕ)) × (db' : Db) × (slots t.pages depth root ≡ y ∷ ys)
          × (bpt_first map_error fuel db t ≡ some (ok tt, db', t))
          × IsAt t.pages depth root db' y ys
    unfolding bpt_first move_first arrive set_first
    bpt_first-IsAt db t at_root shaped =
        let all = slots t.pages depth root in
        let found : Db = record db { hasfind = true } in
        let (s, eq, there) =
          down_first-Reached t.pages depth root map_error fuel depth (root_spot root) all mapped
            enough (root-Reached t.pages depth root shaped) in
        let (y, ys, head, a) = set_first-IsAt depth root found t s all refl there in
        let db' : Db = started (set_first db t s) in
        (
          y,
          ys,
          db',
          head,
          ap (first_from map_error fuel db t) at_root
              ∙ ap start_at (move_first-set_first db t s eq),
          record {
            place = a.place;
            at = a.at;
            hasfind = refl;
            hasentry = refl;
            path = a.path;
            inside = a.inside;
            here = a.here;
            after = a.after;
          },
        )

    -- In a tree of pages with at most 2 ^ 32 - 1 keys each, whose leaves are all on one level and none of
    -- which is empty: after `ed_bpt_first` and `n` calls of `ed_bpt_next`, `n` below the number of entries,
    -- the cursor's entry is number `n` of the tree's entries in order. No call fails, if no page
    -- fails to be mapped.
    pub visit-get_elem? :
        (n : ℕ) (db : Db) (t : Txn E)
        → t.root ≡ some root
        → IsShaped t.pages depth root
        → ((pg : ℕ) → (t.pages pg).nkeys < 2 ^ 32)
        → n < length (slots t.pages depth root)
        → (db' : Db) × (visit map_error fuel n db t ≡ some db')
          × (slot_of db'.find ≡ get_elem? (slots t.pages depth root) n)
    unfolding visit
    visit-get_elem? n db t at_root shaped few lt =
        let (y, ys, db1, head, first, a) = bpt_first-IsAt db t at_root shaped in
        let same = ap length head in
        let (db', run, here) = next_many-get_elem? n db1 t y ys few a (omega (arith, lt, same)) in
        (
          db',
          ap (after_first (next_many map_error fuel n)) first ∙ run,
          here ∙ ap (λ l. get_elem? l n) (sym head),
        )
