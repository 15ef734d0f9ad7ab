-- ===== src/Bpt/Cow/Parent.antt =====
-- The links and splits of branches write owned pages only.
use eddy.Base.{
  ℕ, ◌+◌, ◌-◌, ◌/◌, ◌≡◌, refl, Bool, true, false, ltb, arith, List, [], ◌∷◌, Option, none,
  if◌then◌else◌,
}
use eddy.Base.Mem.{move}
use eddy.Base.Result.{Error}
use eddy.Bpt.{Bpt, branch_key, branch_order, set_keys, is_branch_full, pg_branch, pg_none}
use eddy.Bpt.Txn.{Node, Txn}
use eddy.Bpt.Parent.{
  Pair, link, copy_branch, set_root, set_node, link_both, new_root, grow_branch, split_branch,
  open_branch, insert_into_parent,
}
use eddy.Bpt.Cow.Keeps.{Owned, Keeps, Safe, >>=-Safe}
use eddy.Bpt.Cow.Steps.{
  Any, pure-Safe, page-Safe, write-Safe, attempt-Safe, txn_alloc-Safe, own-Safe, on_result-Safe,
  if-Safe,
}

module _ {E : Type 0} where
  link-Safe : (parent i pg : ℕ) (t : Txn E) → Owned t parent → Safe (link parent i pg) Any t
  unfolding link
  link-Safe parent i pg t h = record {
    keeps = record {
      same_xid = ground arith;
      old = λ q s l. ground arith;
      spare = λ q s. ground arith;
      owned = λ q l. ground arith;
    };
    post = λ a e. tt;
  }

  set_root-Safe : (pg : ℕ) (t : Txn E) → Safe (set_root pg) Any t
  unfolding set_root
  set_root-Safe pg t = record {
    keeps = record {
      same_xid = refl;
      old = λ q s l. refl;
      spare = λ q s. s;
      owned = λ q l. record { ours = l.ours };
    };
    post = λ a e. tt;
  }

  copy_branch-Safe :
      (b : Bool) (s : Bpt E) (dst : ℕ) (t : Txn E) → Owned t dst → Safe (copy_branch b s dst) Any t
  unfolding copy_branch
  copy_branch-Safe false s dst t h = pure-Safe tt t tt
  copy_branch-Safe true s dst t h = >>=-Safe (page-Safe dst t) λ d k e.
      write-Safe dst
        (record d {
          ptrs = move d.ptrs 0 s.ptrs 0 (s.nkeys + 1);
          keys = move d.keys 0 s.keys 0 s.nkeys;
        })
        d _ e refl (k.owned dst h)

  -- The nearest parent, if there is one, may be written.
  abbrev pub HeadOwned : Txn E → List Node → Type 0
  HeadOwned t [] = Unit
  HeadOwned t (p ∷ ps) = Owned t p.no

  -- Where `set_node` returns 0, the nearest parent may be written; it may anyway if it could be
  -- before.
  abbrev pub Linked : Txn E → List Node → Option Error × List Node → Txn E → Type 0
  Linked t ps r u = (r.0 ≡ none → HeadOwned u r.1) × (HeadOwned t ps → HeadOwned u r.1)

  pub HeadOwned-Keeps : (ps : List Node) {t u : Txn E} → Keeps t u → HeadOwned t ps → HeadOwned u ps
  HeadOwned-Keeps [] k h = tt
  HeadOwned-Keeps (p ∷ ps) k h = k.owned p.no h

  pub set_node-Safe :
      (node : Node) (ps : List Node) (t : Txn E) → Safe (set_node node ps) (Linked t ps) t
  unfolding set_node
  set_node-Safe node [] t =
      >>=-Safe (set_root-Safe node.no t) λ _ k _. pure-Safe _ _ (λ e. tt, λ h. tt)
  set_node-Safe node (p ∷ ps) t = >>=-Safe (page-Safe p.no t) λ src k e.
      >>=-Safe (attempt-Safe (own-Safe p.no _)) λ owned k₁ q.
        on_result-Safe owned (λ c e. pure-Safe _ _ (λ h. cc h, λ h. k₁.owned p.no (k.owned p.no h)))
          (λ r e. >>=-Safe (copy_branch-Safe r.1 src r.0 _ (q r e)) λ _ k₂ _.
            >>=-Safe (link-Safe r.0 node.pindex node.no _ (k₂.owned r.0 (q r e))) λ _ k₃ _.
              >>=-Safe (set_node-Safe (record p { no = r.0 }) ps _) λ up k₄ _.
                let h = k₄.owned r.0 (k₃.owned r.0 (k₂.owned r.0 (q r e))) in
                pure-Safe _ _ (λ _. h, λ _. h))

  link_both-Safe :
      (l r : Node) (rkey : ℕ) (branch : Node) (ps : List Node) (t : Txn E)
      → Owned t branch.no
      → Safe (link_both l r rkey branch ps) Any t
  unfolding link_both
  link_both-Safe l r rkey branch ps t h = >>=-Safe (set_node-Safe l (branch ∷ ps) t) λ up k _.
      >>=-Safe (page-Safe branch.no _) λ b k₁ e.
        >>=-Safe
          (write-Safe branch.no (record b { keys = set_keys b.keys r.pindex rkey }) b _ e refl
            (k₁.owned branch.no (k.owned branch.no h)))
          λ _ k₂ _. >>=-Safe (set_node-Safe r up.1 _) λ up' k₃ _. pure-Safe _ _ tt

module _ {E : Type 0} (page_size : ℕ) where
  -- The nodes keep their pages, whatever becomes of their indices.
  abbrev pub SameNodes : Node → Node → Pair → Txn E → Type 0
  SameNodes l r two u = (two.l.no ≡ l.no) × (two.r.no ≡ r.no)

  new_root-Safe :
      (l r : Node) (rkey : ℕ) (t : Txn E) → Safe (new_root page_size l r rkey) (SameNodes l r) t
  unfolding new_root
  new_root-Safe l r rkey t = >>=-Safe (txn_alloc-Safe t) λ pg k own.
      >>=-Safe (page-Safe pg _) λ b k₁ e.
        >>=-Safe
          (write-Safe pg (record b { type = pg_branch; next = pg_none; nkeys = 1 }) b _ e refl
            (k₁.owned pg own))
          λ _ k₂ _.
            >>=-Safe
              (link_both-Safe l r rkey (record { no = pg; pindex = 0 }) [] _
                (k₂.owned pg (k₁.owned pg own)))
              λ ps k₃ _. pure-Safe _ _ (refl, refl)

  grow_branch-Safe :
      (l r : Node) (rkey : ℕ) (p : Node) (ps : List Node) (t : Txn E)
      → Safe (grow_branch page_size l r rkey p ps) (SameNodes l r) t
  unfolding grow_branch
  grow_branch-Safe l r rkey p ps t = >>=-Safe (page-Safe p.no t) λ src k e.
      >>=-Safe (own-Safe p.no _) λ o k₁ own. >>=-Safe (page-Safe o.0 _) λ b k₂ e₂.
        let eidx = l.pindex in
        let ptrs = if o.1 then move b.ptrs 0 src.ptrs 0 (eidx + 1) else b.ptrs in
        let keys = if o.1 then move b.keys 0 src.keys 0 eidx else b.keys in
        >>=-Safe
          (write-Safe o.0
            (record b {
              nkeys = b.nkeys + 1;
              ptrs = move ptrs (eidx + 2) src.ptrs (eidx + 1) (src.nkeys - eidx);
              keys = move keys (eidx + 1) src.keys eidx (src.nkeys - eidx);
            })
            b _ e₂ refl (k₂.owned o.0 own))
          λ _ k₃ _.
            >>=-Safe
              (link_both-Safe l r rkey (record p { no = o.0 }) ps _
                (k₃.owned o.0 (k₂.owned o.0 own)))
              λ _ k₄ _. pure-Safe _ _ (refl, refl)

  split_branch-Safe :
      (p : Node) (mid : ℕ) (t : Txn E)
      → Safe (split_branch page_size p mid) (λ two u. Owned u two.0.no × Owned u two.1.no) t
  unfolding split_branch
  split_branch-Safe p mid t = >>=-Safe (txn_alloc-Safe t) λ rno k rown.
      >>=-Safe (page-Safe p.no _) λ src k₁ e₁. >>=-Safe (own-Safe p.no _) λ o k₂ lown.
        >>=-Safe (page-Safe rno _) λ right k₃ e₃.
          let rown₃ = k₃.owned rno (k₂.owned rno (k₁.owned rno rown)) in
          >>=-Safe
            (write-Safe rno
              (record right {
                type = pg_branch;
                next = pg_none;
                nkeys = src.nkeys - mid;
                ptrs = move right.ptrs 0 src.ptrs mid (branch_order page_size - mid);
                keys = move right.keys 0 src.keys mid (branch_order page_size - 1 - mid);
              })
              right _ e₃ refl rown₃)
            λ _ k₄ _. >>=-Safe (page-Safe o.0 _) λ left k₅ e₅.
              let lown₅ = k₅.owned o.0 (k₄.owned o.0 (k₃.owned o.0 lown)) in
              >>=-Safe
                (write-Safe o.0
                  (record left {
                    nkeys = mid - 1;
                    ptrs = if o.1 then move left.ptrs 0 src.ptrs 0 mid else left.ptrs;
                    keys = if o.1 then move left.keys 0 src.keys 0 (mid - 1) else left.keys;
                  })
                  left _ e₅ refl lown₅)
                λ _ k₆ _.
                  pure-Safe _ _
                    (k₆.owned o.0 lown₅, k₆.owned rno (k₅.owned rno (k₄.owned rno rown₃)))

  open_branch-Safe :
      (pg eidx : ℕ) (t : Txn E) → Owned t pg → Safe (open_branch page_size pg eidx) Any t
  unfolding open_branch
  open_branch-Safe pg eidx t h = >>=-Safe (page-Safe pg t) λ b k e.
      write-Safe pg
        (record b {
          nkeys = b.nkeys + 1;
          ptrs = move b.ptrs (eidx + 2) b.ptrs (eidx + 1) (b.nkeys - eidx);
          keys = move b.keys (eidx + 1) b.keys eidx (b.nkeys - eidx);
        })
        b _ e refl (k.owned pg h)

  -- Of two owned nodes the one that is chosen is owned.
  chosen-Owned :
      (b : Bool) (left right : Node) (u : Txn E)
      → Owned u left.no
      → Owned u right.no
      → Owned u (if b then left.no else right.no)
  chosen-Owned true left right u h k = h
  chosen-Owned false left right u h k = k

  pub chosen-same :
      (b : Bool) (left right : Node) (two : Pair) (u : Txn E)
      → Owned u left.no
      → Owned u right.no
      → SameNodes left right two u
      → Owned u (if b then two.l else two.r).no
  chosen-same true left right two u h k s = rw s.0 h
  chosen-same false left right two u h k s = rw s.1 k

  pub insert_into_parent-Safe :
      (l r : Node) (rkey : ℕ) (ps : List Node) (t : Txn E)
      → Safe (insert_into_parent page_size l r rkey ps) (SameNodes l r) t
  unfolding insert_into_parent
  insert_into_parent-Safe l r rkey [] t = new_root-Safe l r rkey t
  insert_into_parent-Safe l r rkey (p ∷ ps) t = >>=-Safe (page-Safe p.no t) λ src k e.
      let mid = (src.nkeys + 1) / 2 in
      let rbkey = branch_key src mid in
      let b = ltb rkey rbkey in
      let eidx = if b then l.pindex else l.pindex - mid in
      if-Safe (is_branch_full page_size src)
        (λ full. >>=-Safe (split_branch-Safe p mid _) λ half k₁ own.
          >>=-Safe
            (open_branch-Safe (if b then half.0.no else half.1.no) eidx _
              (chosen-Owned b half.0 half.1 _ own.0 own.1))
            λ _ k₂ _. >>=-Safe (insert_into_parent-Safe half.0 half.1 rbkey ps _) λ up k₃ same.
              let lown = k₃.owned half.0.no (k₂.owned half.0.no own.0) in
              let rown = k₃.owned half.1.no (k₂.owned half.1.no own.1) in
              >>=-Safe
                (link_both-Safe (record l { pindex = eidx }) (record r { pindex = eidx + 1 }) rkey
                  (if b then up.l else up.r) up.parents _
                  (chosen-same b half.0 half.1 up _ lown rown same))
                λ _ k₄ _. pure-Safe _ _ (refl, refl))
        (λ room. grow_branch-Safe l r rkey p ps _)
