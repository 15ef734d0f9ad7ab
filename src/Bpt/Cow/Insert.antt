-- ===== src/Bpt/Cow/Insert.antt =====
-- The insertion into a leaf, with the split of a full one, writes owned pages only.
use eddy.Base.{
  ℕ, ◌+◌, ◌≡◌, refl, Bool, true, ltb, ◌==◌, ◌&&◌, not, is_none, arith, List, [], ◌∷◌, Option, none,
  some, if◌then◌else◌,
}
use eddy.Base.Mem.{put, move, Mem}
use eddy.Base.Result.{Error, dupkey}
use eddy.Bpt.{Keyed, leaf_order, set_keys, is_leaf_full, pg_leaf, pg_none}
use eddy.Bpt.Leaf.{Cursor, open_slot, split_point, split_key, leaf_key}
use eddy.Bpt.Txn.{Node, Place, Txn}
use eddy.Bpt.Insert.{
  set_first, set_leaf, right_leaf, left_leaf, split_leaf, store, new_leaf, split_insert, fill,
  insert_into_leaf,
}
use eddy.Bpt.Cow.Keeps.{Owned, Safe, >>=-Safe}
use eddy.Bpt.Cow.Steps.{
  Any, pure-Safe, fail-Safe, page-Safe, write-Safe, txn_alloc-Safe, own-Safe, on_option-Safe,
  if-Safe,
}
use eddy.Bpt.Cow.Parent.{
  HeadOwned, HeadOwned-Keeps, set_node-Safe, chosen-same, insert_into_parent-Safe,
}

first-none : (rc : Option Error) (b c : Bool) → (is_none rc && b && c) ≡ true → rc ≡ none
first-none rc b c h = ground arith

module _ {E : Type 0} ⦃e : Keyed E⦄ (page_size : ℕ) where
  set_first-Safe :
      (first : Bool) (pindex : ℕ) (ents : Mem E) (ps : List Node) (t : Txn E)
      → (first ≡ true → HeadOwned t ps)
      → Safe (set_first page_size first pindex ents ps) Any t
  unfolding set_first
  set_first-Safe first pindex ents [] t h = pure-Safe tt t tt
  set_first-Safe first pindex ents (p ∷ ps) t h = >>=-Safe (page-Safe p.no t) λ b k q.
      if-Safe first
        (λ f.
          write-Safe p.no (record b { keys = set_keys b.keys pindex (leaf_key ents 0) }) b _ q refl
            (k.owned p.no (h f)))
        (λ f. pure-Safe tt _ tt)

  set_leaf-Safe : (at : Place) (eidx : ℕ) (t : Txn E) → Safe (set_leaf page_size at eidx) Any t
  unfolding set_leaf
  set_leaf-Safe at eidx t = >>=-Safe (set_node-Safe at.leaf at.parents t) λ up k linked.
      >>=-Safe (page-Safe at.leaf.no _) λ l k₁ q.
        >>=-Safe
          (set_first-Safe (is_none up.0 && (eidx == 0) && ltb 0 at.leaf.pindex) at.leaf.pindex
            l.ents up.1 _ (λ f. HeadOwned-Keeps up.1 k₁ (linked.0 (first-none up.0 _ _ f))))
          λ _ k₂ _. pure-Safe _ _ tt

  split_leaf-Safe :
      (c : Cursor) (at : Place) (mid : ℕ) (t : Txn E)
      → Safe (split_leaf page_size c at mid) (λ at' u. Owned u at'.leaf.no) t
  unfolding split_leaf
  split_leaf-Safe c at mid t = >>=-Safe (page-Safe at.leaf.no t) λ src k q.
      let rkey = split_key c src.ents mid at.eidx in
      >>=-Safe (txn_alloc-Safe _) λ rno k₁ rown. >>=-Safe (own-Safe at.leaf.no _) λ o k₂ lown.
        >>=-Safe (page-Safe rno _) λ right k₃ q₃.
          let rown₃ = k₃.owned rno (k₂.owned rno rown) in
          >>=-Safe
            (write-Safe rno (right_leaf page_size right src mid at.eidx) right _ q₃
              (unfold right_leaf in refl) rown₃)
            λ _ k₄ _. >>=-Safe (page-Safe o.0 _) λ left k₅ q₅.
              let lown₅ = k₅.owned o.0 (k₄.owned o.0 (k₃.owned o.0 lown)) in
              let rown₅ = k₅.owned rno (k₄.owned rno rown₃) in
              >>=-Safe
                (write-Safe o.0 (left_leaf page_size o.1 left src mid at.eidx) left _ q₅
                  (unfold left_leaf in refl) lown₅)
                λ _ k₆ _.
                  let l : Node = record { no = o.0; pindex = at.leaf.pindex } in
                  let r : Node = record { no = rno; pindex = at.leaf.pindex + 1 } in
                  >>=-Safe (insert_into_parent-Safe page_size l r rkey at.parents _) λ two k₇ same.
                    pure-Safe _ _ (
                      chosen-same page_size (ltb at.eidx mid) l r two _
                        (k₇.owned o.0 (k₆.owned o.0 lown₅)) (k₇.owned rno (k₆.owned rno rown₅))
                        same)

  store-Safe :
      (at : Place) (ent : E) (nkeys : ℕ) (t : Txn E)
      → Owned t at.leaf.no
      → Safe (store page_size at ent nkeys) Any t
  unfolding store
  store-Safe at ent nkeys t h = >>=-Safe (page-Safe at.leaf.no t) λ l k q.
      write-Safe at.leaf.no (record l { nkeys = nkeys; ents = put l.ents at.eidx ent }) l _ q refl
        (k.owned at.leaf.no h)

  new_leaf-Safe : (ent : E) (t : Txn E) → Safe (new_leaf page_size ent) Any t
  unfolding new_leaf
  new_leaf-Safe ent t = >>=-Safe (txn_alloc-Safe t) λ pg k own. >>=-Safe (page-Safe pg _) λ l k₁ q.
      >>=-Safe
        (write-Safe pg (record l { type = pg_leaf; next = pg_none }) l _ q refl (k₁.owned pg own))
        λ _ k₂ _.
          let at : Place = record {
            leaf = record { no = pg; pindex = 0 };
            parents = [];
            eidx = 0;
          } in
          >>=-Safe (store-Safe at ent 1 _ (k₂.owned pg (k₁.owned pg own)))
            λ _ k₃ _. set_leaf-Safe at 0 _

  split_insert-Safe :
      (c : Cursor) (at : Place) (ent : E) (t : Txn E) → Safe (split_insert page_size c at ent) Any t
  unfolding split_insert
  split_insert-Safe c at ent t = >>=-Safe (page-Safe at.leaf.no t) λ l k q.
      on_option-Safe (split_point c l.ents l.nkeys) (fail-Safe dupkey _) λ mid _.
        >>=-Safe (split_leaf-Safe c at mid _) λ at' k₁ own.
          >>=-Safe (page-Safe at'.leaf.no _) λ half k₂ q₂.
            >>=-Safe (store-Safe at' ent (half.nkeys + 1) _ (k₂.owned at'.leaf.no own))
              λ _ k₃ _. set_leaf-Safe at' at.eidx _

  fill-Safe :
      (at : Place) (ent : E) (replace : Bool) (t : Txn E)
      → Safe (fill page_size at ent replace) Any t
  unfolding fill
  fill-Safe at ent replace t = >>=-Safe (page-Safe at.leaf.no t) λ src k q.
      >>=-Safe (own-Safe at.leaf.no _) λ o k₁ own. >>=-Safe (page-Safe o.0 _) λ l k₂ q₂.
        let n = if replace then leaf_order page_size e.esize else at.eidx in
        let copied = if o.1 then move l.ents 0 src.ents 0 n else l.ents in
        let at' : Place = record at { leaf = record at.leaf { no = o.0 } } in
        >>=-Safe
          (write-Safe o.0
            (record l {
              ents = if replace then copied else open_slot copied src.ents at.eidx src.nkeys;
            })
            l _ q₂ refl (k₂.owned o.0 own))
          λ _ k₃ _.
            >>=-Safe
              (store-Safe at' ent (if replace then l.nkeys else l.nkeys + 1) _
                (k₃.owned o.0 (k₂.owned o.0 own)))
              λ _ k₄ _. set_leaf-Safe at' at.eidx _

  pub insert_into_leaf-Safe :
      (c : Cursor) (find : Option Place) (ent : E) (replace : Bool) (t : Txn E)
      → Safe (insert_into_leaf page_size c find ent replace) Any t
  unfolding insert_into_leaf
  insert_into_leaf-Safe c none ent replace t = new_leaf-Safe ent t
  insert_into_leaf-Safe c (some at) ent replace t = >>=-Safe (page-Safe at.leaf.no t) λ l k q.
      if-Safe (not replace && is_leaf_full page_size l) (λ _. split_insert-Safe c at ent _)
        (λ _. fill-Safe at ent replace _)
