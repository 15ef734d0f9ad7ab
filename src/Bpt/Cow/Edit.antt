-- ===== src/Bpt/Cow/Edit.antt =====
-- `ed_bpt_set` and `ed_bpt_del` leave the trees of earlier transactions as they are.
use eddy.Base.{ℕ, refl, Bool, false, ltb, ◌&&◌, ◌||◌, not, some, if◌then◌else◌}
use eddy.Base.Mem.{move}
use eddy.Base.Result.{Error, rdonly, key_match}
use eddy.Bpt.{Keyed, leaf_order}
use eddy.Bpt.Leaf.{Cursor}
use eddy.Bpt.Txn.{Place, Txn, ◌>>=◌, pure, fail, on_option}
use eddy.Bpt.Edit.{
  Db, txn_isrdonly, entry_index, set_done, set_error, set_entry, bpt_set, own_leaf, remove, bpt_del,
}
use eddy.Bpt.Cow.Keeps.{Owned, Keeps, set_page-Keeps, Safe, >>=-Safe}
use eddy.Bpt.Cow.Steps.{
  Any, pure-Safe, fail-Safe, page-Safe, write-Safe, own-Safe, attempt-Safe, on_result-Safe,
  on_option-Safe, if-Safe, Safe-of_eq,
}
use eddy.Bpt.Cow.Parent.{set_node-Safe}
use eddy.Bpt.Cow.Insert.{insert_into_leaf-Safe}

set_error-Safe : {E : Type 0} (c : Error) (t : Txn E) → Safe (set_error c) Any t
unfolding set_error
set_error-Safe c t = record {
  keeps = record {
    same_xid = refl;
    old = λ q s l. refl;
    spare = λ q s. s;
    owned = λ q l. record { ours = l.ours };
  };
  post = λ a e. tt;
}

module _ {E : Type 0} ⦃e : Keyed E⦄ (page_size : ℕ) where
  set_entry-Safe :
      (db : Db) (ent : E) (replace : Bool) (t : Txn E)
      → Safe (set_entry page_size db ent replace) Any t
  unfolding set_entry
  set_entry-Safe db ent replace t =
      let c : Cursor = record {
        key = db.key;
        entry_index = entry_index db.find;
        nmatches = db.nmatches;
      } in
      >>=-Safe
        (attempt-Safe (insert_into_leaf-Safe page_size c db.find ent (replace && db.matched) t))
        λ r k q.
          on_result-Safe r (λ x _. >>=-Safe (set_error-Safe x _) λ _ k₁ _. fail-Safe x _)
            (λ at _. pure-Safe at _ tt)

  bpt_set-Safe :
      (db : Db) (ent : E) (replace : Bool) (t : Txn E)
      → Safe (bpt_set page_size db ent replace) Any t
  unfolding bpt_set
  bpt_set-Safe db ent replace t =
      let key = e.key_of ent in
      let out = not db.hasfind || ltb key db.kmin || ltb db.kmax key in
      Safe-of_eq
        (if txn_isrdonly t
          then fail rdonly
          else if out
          then fail key_match
          else (set_entry page_size db ent replace >>= λ at. pure (set_done db key at)))
        refl
        (if-Safe (txn_isrdonly t) (λ _. fail-Safe rdonly t)
          (λ _.
            if-Safe out (λ _. fail-Safe key_match t)
              (λ _. >>=-Safe (set_entry-Safe db ent replace t) λ at k _. pure-Safe _ _ tt)))

  own_leaf-Safe :
      (at : Place) (t : Txn E) → Safe (own_leaf page_size at) (λ at' u. Owned u at'.leaf.no) t
  unfolding own_leaf
  own_leaf-Safe at t = >>=-Safe (page-Safe at.leaf.no t) λ src k q.
      >>=-Safe (own-Safe at.leaf.no _) λ o k₁ own.
        if-Safe o.1
          (λ _. >>=-Safe (page-Safe o.0 _) λ l k₂ q₂.
            >>=-Safe
              (write-Safe o.0
                (record l { ents = move l.ents 0 src.ents 0 (leaf_order page_size e.esize) }) l _ q₂
                refl (k₂.owned o.0 own))
              λ _ k₃ _.
                >>=-Safe (set_node-Safe (record at.leaf { no = o.0 }) at.parents _) λ up k₄ _.
                  on_option-Safe up.0
                    (pure-Safe _ _ (k₄.owned o.0 (k₃.owned o.0 (k₂.owned o.0 own))))
                    (λ x _. fail-Safe x _))
          (λ _. pure-Safe _ _ own)

  remove-Safe : (at : Place) (t : Txn E) → Owned t at.leaf.no → Safe (remove page_size at) Any t
  unfolding remove
  remove-Safe at t h = record { keeps = set_page-Keeps t at.leaf.no _ h h.ours; post = λ a q. tt }

  bpt_del-Safe : (db : Db) (t : Txn E) → Safe (bpt_del page_size db) Any t
  unfolding bpt_del
  bpt_del-Safe db t =
      Safe-of_eq
        (if txn_isrdonly t || not db.hasfind
          then fail rdonly
          else if not db.hasentry
          then pure (0, db)
          else on_option db.find (pure (0, db)) λ at. own_leaf page_size at >>= λ at'.
              remove page_size at' >>= λ kmax.
              pure (1, record db { find = some at'; kmax = kmax; nmatches = 0; hasentry = false }))
        refl
        (if-Safe (txn_isrdonly t || not db.hasfind) (λ _. fail-Safe rdonly t)
          (λ _.
            if-Safe (not db.hasentry) (λ _. pure-Safe _ t tt)
              (λ _. on_option-Safe db.find (pure-Safe _ t tt) (λ at _.
                >>=-Safe (own_leaf-Safe at t)
                  λ at' k own. >>=-Safe (remove-Safe at' _ own) λ kmax k₁ _. pure-Safe _ _ tt))))

  -- Whatever `ed_bpt_set` does and returns, errors included: a page that is not among those
  -- allocated for the transaction and that an earlier transaction has written is as it was, and is
  -- still not among the allocated ones; the transaction keeps its id, and a page it owns stays its
  -- own.
  pub bpt_set-Keeps :
      (db : Db) (ent : E) (replace : Bool) (t : Txn E)
      → Keeps t (bpt_set page_size db ent replace t).1
  bpt_set-Keeps db ent replace t = (bpt_set-Safe db ent replace t).keeps

  -- Whatever `ed_bpt_del` does and returns, errors included: a page that is not among those
  -- allocated for the transaction and that an earlier transaction has written is as it was, and is
  -- still not among the allocated ones; the transaction keeps its id, and a page it owns stays its
  -- own.
  pub bpt_del-Keeps : (db : Db) (t : Txn E) → Keeps t (bpt_del page_size db t).1
  bpt_del-Keeps db t = (bpt_del-Safe db t).keeps
