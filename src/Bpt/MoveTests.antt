-- ===== src/Bpt/MoveTests.antt =====
-- Moves of a cursor over the entries of a branch with two leaves.
use eddy.Base.{
  ℕ, ◌^◌, zero, suc, ◌+◌, ◌≡◌, ◌≤◌, refl, Bool, true, false, arith, Option, none, some, List, [],
  ◌∷◌, ◌==◌, ◌&&◌, get_elem?,
}
use eddy.Base.Result.{Result, ok}
use eddy.Bpt.{branch_key}
use eddy.Bpt.Edit.{Db, find_kmax}
use eddy.Bpt.Txn.{Txn}
use eddy.Bpt.Move.{
  find_kmin, down_first, down_last, up_right, up_left, move_first, move_last, move_right, move_left,
  arrive, set_first, set_last,
}
use eddy.Bpt.Step.{yield_at, yield_moved, next_at, prev_at, bpt_next, bpt_prev, slot_of}
use eddy.Bpt.Order.{IsShaped, IsAt, slots, ring, key_at}
use eddy.Bpt.Laws.Order.{bpt_next-IsAt}
use eddy.Bpt.Laws.Visit.{visit, visit-get_elem?}
use eddy.Stat.{Stat, mark_all}
use eddy.Bpt.Mark.{bpt_mark}
use eddy.Bpt.Laws.Mark.{tree_pages, bpt_mark-tree_pages}
use eddy.Bpt.TreeTests.{number_key, pages, pages-IsTree, cursor, txn, mapped}

pages-IsShaped : IsShaped pages 1 1
pages-IsShaped = (refl, child)
  where
    child : (i : ℕ) → i ≤ 1 → IsShaped pages 0 (i + 2)
    child zero p = (refl, omega arith)
    child (suc zero) p = (refl, omega arith)
    child (suc (suc i)) p = absurd (omega arith)

visit_example :
    (db' : Db) × (visit mapped 2 3 cursor txn ≡ some db')
    × (slot_of db'.find ≡ get_elem? (slots pages 1 1) 3)
visit_example =
    visit-get_elem? 1 1 mapped 2 (λ pg. refl) (omega arith) 3 cursor txn refl pages-IsShaped
      (λ pg. ground arith) (omega arith)

-- The last entry of the left leaf, with the key 20.
abbrev at_20 : Db
at_20 = record cursor {
  find = some (record {
    leaf = record { no = 2; pindex = 0 };
    parents = record { no = 1; pindex = 0 } ∷ [];
    eidx = 1;
  });
  key = 20;
  hasfind = true;
  haskey = true;
  hasentry = true;
}

at_20-IsAt : IsAt pages 1 1 at_20 (2, 1) ((3, 0) ∷ (3, 1) ∷ [])
at_20-IsAt = record {
  place = record {
    leaf = record { no = 2; pindex = 0 };
    parents = record { no = 1; pindex = 0 } ∷ [];
    eidx = 1;
  };
  at = refl;
  hasfind = refl;
  hasentry = refl;
  path = (omega arith, refl, (refl, refl, pages-IsShaped));
  inside = omega arith;
  here = refl;
  after = refl;
}

next_example :
    (y : ℕ × ℕ) × (ys : List (ℕ × ℕ)) × (db' : Db) × (ring (slots pages 1 1) ((3, 0) ∷ (3, 1) ∷ [])
      ≡ y ∷ ys)
    × (bpt_next mapped 2 at_20 txn ≡ some (ok (true && (20 == key_at pages y)), db', txn))
    × IsAt pages 1 1 db' y ys
next_example =
    bpt_next-IsAt 1 1 mapped 2 (λ pg. refl) (omega arith) at_20 txn (2, 1) ((3, 0) ∷ (3, 1) ∷ [])
      (λ pg. ground arith) at_20-IsAt

abbrev bounds : Option (Result Bool × Db × Txn ℕ) → List ℕ
bounds (some (ok b, db, t)) = db.kmin ∷ db.kmax ∷ []
bounds other = []

-- The bounds of the right leaf's first entry are right after a step to the right.
next_run_example : bounds (bpt_next mapped 2 at_20 txn) ≡ 30 ∷ 30 ∷ []
unfolding bpt_next next_at yield_moved yield_at move_right up_right move_first down_first arrive
    set_first find_kmax branch_key number_key
next_run_example = refl

-- A step from there to the left leaf sets `kmax` to the key left of that leaf, which is none: 0 is below
-- every key that belongs there.
prev_run_example :
    bounds (
      bpt_prev mapped 2
        (record at_20 {
          find = some (record {
            leaf = record { no = 3; pindex = 1 };
            parents = record { no = 1; pindex = 0 } ∷ [];
            eidx = 0;
          });
        })
        txn)
    ≡ 20 ∷ 0 ∷ []
unfolding bpt_prev prev_at yield_moved yield_at move_left up_left move_last down_last arrive
    set_last find_kmin branch_key number_key
prev_run_example = refl

abbrev stat : Stat
stat = record { no = 8; vec = λ p. false; mult = []; marks = 0 }

mark_example :
    (max : ℕ) × (bpt_mark pages (λ pg. none) (pages 1) stat
      ≡ some (record { error = none; max = max; stat = mark_all stat (tree_pages pages 1 1) }))
mark_example =
    bpt_mark-tree_pages pages (λ pg. none) (λ pg. refl) 1 1 0 (2 ^ 64) stat pages-IsTree refl
      (omega arith)
