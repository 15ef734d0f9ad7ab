-- ===== src/Stat/New/Laws.antt =====
-- `ed_stat_new` marks the pages that the index refers to, and no others.
use eddy.Base.{
  ℕ, zero, suc, ◌+◌, ◌-◌, ◌%◌, ◌&&◌, leb, ◌==◌, if◌then◌else◌, ◌^◌, ◌≤◌, ◌<◌, ◌≡◌, refl, sym, ap,
  ◌∙◌, Bool, true, false, ◌||◌, ltb, arith, Option, none, some, List, [], ◌∷◌, ◌++◌, length,
}
use mathlib.Core.Path.{subst}
use eddy.Base.Mem.{Mem, put, slice}
use eddy.Base.Result.{Error, ok}
use eddy.Bpt.{Bpt, Keyed}
use eddy.Bpt.Tree.{IsTree}
use eddy.Bpt.Laws.Mark.{tree_pages, bpt_mark-tree_pages}
use eddy.Pg.{GcPage, Index}
use eddy.Pg.Lists.{all_listed, AllReadable}
use eddy.Pg.Laws.Mark.{mark_pages_eq, Linked, pg_mark_gc-all_listed}
use eddy.Idx.{Conn, Hdr, idx_pages}
use eddy.Idx.Slots.{idx_acquire_snapshot, idx_release_snapshot}
use eddy.Stat.{Stat, set_range, mark_all}
use eddy.Stat.Marks.{count, count-append, mark_all-vec-mult, mark_all-append, mark_all-no}
use eddy.Stat.New.{
  Report, Env, mark_conns, first_marks, mark_lists_of, with_gc, with_tree, then_mark, mark_tree,
  mark_trees, mark_index, unless_error, reported, with_snapshot, stat_new,
}

-- The bits that marks of `list` set, in an index of `s.no` pages.
pub record IsMarked (s s' : Stat) (list : List ℕ) : Type 0 where
  pub same_no : s'.no ≡ s.no
  pub bits : (p : ℕ) → p ≤ s.no → s'.vec p ≡ (s.vec p || ltb 0 (count p list))

mark_all-IsMarked : (s : Stat) (list : List ℕ) → IsMarked s (mark_all s list) list
mark_all-IsMarked s list = record {
  same_no = mark_all-no s list;
  bits = λ p le. (mark_all-vec-mult s list p le).0;
}

IsMarked-mark_all :
    (s : Stat) (list : List ℕ) {s' : Stat} → s' ≡ mark_all s list → IsMarked s s' list
IsMarked-mark_all s list eq = subst (λ k. IsMarked s k list) (sym eq) (mark_all-IsMarked s list)

-- The counter does not matter.
reset_after :
    {s s' : Stat} {list : List ℕ} → IsMarked s s' list → IsMarked s (record s' { marks = 0 }) list
reset_after m = record { same_no = m.same_no; bits = m.bits }

reset_before :
    {s s' : Stat} {list : List ℕ} → IsMarked (record s { marks = 0 }) s' list → IsMarked s s' list
reset_before m = record { same_no = m.same_no; bits = m.bits }

or_sum : (b : Bool) (m n : ℕ) → ((b || ltb 0 m) || ltb 0 n) ≡ (b || ltb 0 (m + n))
or_sum true m n = refl
or_sum false zero n = let e : zero + n ≡ n = omega arith in rw e refl
or_sum false (suc m) n =
    let here : ltb 0 (suc m) ≡ true = ground arith in
    let sum : ltb 0 (suc m + n) ≡ true = ground arith in rw (here, sum) refl

IsMarked-append :
    {s s1 s2 : Stat} {xs ys : List ℕ}
    → IsMarked s s1 xs
    → IsMarked s1 s2 ys
    → IsMarked s s2 (xs ++ ys)
IsMarked-append {s = s} {xs = xs} {ys = ys} a b = record {
  same_no = b.same_no ∙ a.same_no;
  bits = λ p le.
      b.bits p (omega (arith, le, a.same_no))
      ∙ ap (λ v. v || ltb 0 (count p ys)) (a.bits p le)
      ∙ or_sum (s.vec p) (count p xs) (count p ys)
      ∙ ap (λ n. s.vec p || ltb 0 n) (sym (count-append p xs ys));
}

-- The end of the tail, the pages of the header, and the pages of the tail.
abbrev pub end_of : Hdr → ℕ
end_of h = (h.tail_start + h.tail_count) % 2 ^ 32

abbrev pub in_header : ℕ → ℕ → Hdr → ℕ → Bool
in_header page_size nconns h p = ltb p (h.no + idx_pages page_size nconns)

abbrev pub in_tail : Hdr → ℕ → Bool
in_tail h p = leb h.tail_start p && ltb p (end_of h)

or_assoc : (a b c : Bool) → ((a || b) || c) ≡ (a || b || c)
or_assoc true b c = refl
or_assoc false b c = refl

-- One bit more at the front of a range.
widened :
    (v : Bool) (p q n : ℕ)
    → ((if p == q then true else v) || (leb (p + 1) q && ltb q (p + 1 + n)))
      ≡ (v || (leb p q && ltb q (p + suc n)))
widened v p q n = ground arith

from_start : (p n : ℕ) → (false || (leb 0 p && ltb p (0 + n))) ≡ ltb p n
from_start p n = ground arith

up_to : (a b p : ℕ) → (leb a p && ltb p (a + (b - a))) ≡ (leb a p && ltb p b)
up_to a b p = ground arith

set_range_lem :
    (vec : Mem Bool) (p n q : ℕ) → set_range vec p n q ≡ (vec q || (leb p q && ltb q (p + n)))
unfolding set_range
set_range_lem vec p zero q = ground arith
set_range_lem vec p (suc n) q = set_range_lem (put vec p true) (p + 1) n q ∙ widened (vec q) p q n

first_marks-no : (page_size nconns : ℕ) (h : Hdr) → (first_marks page_size nconns h).no ≡ end_of h
unfolding first_marks
first_marks-no page_size nconns h = refl

first_marks-vec :
    (page_size nconns : ℕ) (h : Hdr) (p : ℕ)
    → (first_marks page_size nconns h).vec p ≡ (in_header page_size nconns h p || in_tail h p)
unfolding first_marks
first_marks-vec page_size nconns h p =
    let size = h.no + idx_pages page_size nconns in
    let a = set_range_lem (λ q. false) 0 size p in
    let b =
      set_range_lem (set_range (λ q. false) 0 size) h.tail_start (end_of h - h.tail_start) p in
    b
    ∙ ap (λ v. v || (leb h.tail_start p && ltb p (h.tail_start + (end_of h - h.tail_start))))
        (a ∙ from_start p size)
    ∙ ap (λ v. in_header page_size nconns h p || v) (up_to h.tail_start (end_of h) p)

-- The pending pages of the connections.
abbrev pub pending_pages : Mem Conn → ℕ → ℕ → List ℕ
pending_pages conns i zero = []
pending_pages conns i (suc n) =
    slice (conns i).pending 0 (conns i).npending ++ pending_pages conns (i + 1) n

mark_conns_eq :
    (conns : Mem Conn) (i n : ℕ) (s : Stat)
    → mark_conns conns i n s ≡ mark_all s (pending_pages conns i n)
unfolding mark_conns
mark_conns_eq conns i zero s = refl
mark_conns_eq conns i (suc n) s =
    let c = conns i in
    let here = slice c.pending 0 c.npending in
    ap (mark_conns conns (i + 1) n) (mark_pages_eq c.pending 0 c.npending s)
    ∙ mark_conns_eq conns (i + 1) n (mark_all s here)
    ∙ sym (mark_all-append s here (pending_pages conns (i + 1) n))

mark_lists_of-IsMarked :
    (nconns : ℕ) (h : Hdr) (s : Stat)
    → IsMarked s
        (mark_lists_of nconns h s).stat
        (pending_pages h.conns 0 nconns ++ slice h.active 0 h.nactive)
unfolding mark_lists_of
mark_lists_of-IsMarked nconns h s =
    let pending = mark_conns h.conns 0 nconns s in
    let a =
      IsMarked-mark_all s (pending_pages h.conns 0 nconns) (mark_conns_eq h.conns 0 nconns s) in
    let start : Stat = record pending { marks = 0 } in
    let b =
      IsMarked-mark_all start (slice h.active 0 h.nactive)
        (mark_pages_eq h.active 0 h.nactive start) in
    reset_after (IsMarked-append a (reset_before b))

-- The pages of a tree that may be missing.
pub data Rooted {E : Type 0} ⦃e : Keyed E⦄ (pages : Mem (Bpt E)) : Option ℕ → List ℕ → Type 0 where
  no_tree : Rooted pages none []
  tree :
      (depth pg lo hi : ℕ)
      → IsTree pages depth pg lo hi
      → (pages pg).no ≡ pg
      → depth ≤ 8
      → Rooted pages (some pg) (tree_pages pages depth pg)

module _ {K B : Type 0} ⦃k : Keyed K⦄ ⦃b : Keyed B⦄ (keys : Mem (Bpt K)) (blocks : Mem (Bpt B))
    (env : Env) (mapped : (pg : ℕ) → env.map_error pg ≡ none) where
  -- A step that succeeds and marks a list.
  abbrev Marks : Report → List ℕ → Option (Option Error × Report) → Type 0
  Marks r list o = (r' : Report) × (o ≡ some (none, r')) × IsMarked r.stat r'.stat list

  mark_tree-Marks :
      {E : Type 0} ⦃e : Keyed E⦄ (pages : Mem (Bpt E)) (root : Option ℕ) (list : List ℕ)
      (r : Report)
      → Rooted pages root list
      → Marks r list (mark_tree keys blocks env pages root r)
  unfolding mark_tree
  mark_tree-Marks pages none list r no_tree = (r, refl, mark_all-IsMarked r.stat [])
  mark_tree-Marks pages _ _ r (tree depth pg lo hi whole at le) =
      let (max, eq) =
        bpt_mark-tree_pages pages env.map_error mapped depth pg lo hi r.stat whole at le in
      let list = tree_pages pages depth pg in
      let s' = mark_all r.stat list in
      (record r { stat = s'; nbpt = s'.marks }, ap (with_tree r) eq, mark_all-IsMarked r.stat list)

  then_mark-Marks :
      (next : Report → Option (Option Error × Report)) (xs ys : List ℕ) (r : Report)
      (first : Option (Option Error × Report))
      → Marks r xs first
      → ((r1 : Report) → Marks r1 ys (next r1))
      → Marks r (xs ++ ys) (then_mark next first)
  then_mark-Marks next xs ys r first (r1, eq, a) more =
      let (r2, eq2, b) = more r1 in (r2, ap (then_mark next) eq ∙ eq2, IsMarked-append a b)

  mark_trees-Marks :
      (root_k root_b : Option ℕ) (ks bs : List ℕ) (r : Report)
      → Rooted keys root_k ks
      → Rooted blocks root_b bs
      → Marks r (ks ++ bs) (mark_trees keys blocks env (root_k ∷ root_b ∷ []) r)
  unfolding mark_trees
  mark_trees-Marks root_k root_b ks bs r tree_k tree_b =
      then_mark-Marks (mark_tree keys blocks env blocks root_b) ks bs r _
        (mark_tree-Marks keys root_k ks r tree_k) (λ r1. mark_tree-Marks blocks root_b bs r1 tree_b)

  with_gc-Marks :
      (r : Report) (list : List ℕ) (o : Option (Option Error × Stat))
      → o ≡ some (none, mark_all r.stat list)
      → Marks r list (with_gc r o)
  with_gc-Marks r list o eq =
      let s' = mark_all r.stat list in
      (
        record r { stat = record s' { marks = 0 }; ngc = s'.marks },
        ap (with_gc r) eq,
        reset_after (mark_all-IsMarked r.stat list),
      )

  module _ (small : env.page_size < 2 ^ 16) where
    mark_index-Marks :
        (idx : Index) (h : Hdr) (root_k root_b : Option ℕ) (gs : List GcPage) (ks bs : List ℕ)
        → length gs < env.fuel
        → let g = idx.pages idx.gc_head in
          Linked idx.pages g gs
          → AllReadable env.page_size (g ∷ gs)
          → Rooted keys root_k ks
          → Rooted blocks root_b bs
          → let start = first_marks env.page_size env.nconns h in
            Marks
              (mark_lists_of env.nconns h start)
              ((g.no ∷ all_listed (g ∷ gs)) ++ (ks ++ bs))
              (mark_index keys blocks env idx h (root_k ∷ root_b ∷ []))
    unfolding mark_index
    mark_index-Marks idx h root_k root_b gs ks bs lt chain readable tree_k tree_b =
        let r = mark_lists_of env.nconns h (first_marks env.page_size env.nconns h) in
        let g = idx.pages idx.gc_head in
        let list = g.no ∷ all_listed (g ∷ gs) in
        let gc =
          pg_mark_gc-all_listed env.page_size small idx env.map_error env.fuel gs r.stat mapped lt
            chain readable in
        then_mark-Marks (mark_trees keys blocks env (root_k ∷ root_b ∷ [])) list (ks ++ bs) r _
          (with_gc-Marks r list _ gc) (λ r1. mark_trees-Marks root_k root_b ks bs r1 tree_k tree_b)

    -- If a page has less than 2^16 bytes, the file can be read and locked, every page can be mapped, the snapshot is taken, the fuel is
    -- more than the gc pages behind the first one, the trees have 8 levels at most, and they and the gc pages with their lists are well formed, then `ed_stat_new`
    -- succeeds. Of the pages up to the end of the tail one is then marked if it is before the end of the
    -- header's pages, from the start of the tail on and before its end, pending in a connection, active,
    -- the first gc page, listed by a gc page or in a tree of the snapshot, and in no other case.
    pub stat_new-bits :
        (idx : Index) (h h' : Hdr) (root_k root_b : Option ℕ) (gs : List GcPage) (ks bs : List ℕ)
        → env.stat_error ≡ none
        → env.lock_error ≡ none
        → idx_acquire_snapshot env.root_error env.epoch env.at env.own h
          ≡ (ok (root_k ∷ root_b ∷ []), h')
        → length gs < env.fuel
        → let g = idx.pages idx.gc_head in
          Linked idx.pages g gs
          → AllReadable env.page_size (g ∷ gs)
          → Rooted keys root_k ks
          → Rooted blocks root_b bs
          → let used = pending_pages h'.conns 0 env.nconns ++ slice h'.active 0 h'.nactive in
            (r : Report) × (h2 : Hdr) × (stat_new keys blocks env idx h ≡ some (ok r, h2))
            × ((p : ℕ)
                → p ≤ end_of h'
                → r.stat.vec p ≡ (
                    in_header env.page_size env.nconns h' p
                    || in_tail h' p
                    || ltb 0 (count p (used ++ ((g.no ∷ all_listed (g ∷ gs)) ++ (ks ++ bs))))))
    unfolding stat_new
    stat_new-bits idx h h' root_k root_b gs ks bs found locked snap lt chain ok_gc tree_k tree_b =
        let start = first_marks env.page_size env.nconns h' in
        let (r, eq, m) =
          mark_index-Marks idx h' root_k root_b gs ks bs lt chain ok_gc tree_k tree_b in
        let opened =
          with_snapshot keys blocks env idx
            (idx_acquire_snapshot env.root_error env.epoch env.at env.own h) in
        let all = IsMarked-append (mark_lists_of-IsMarked env.nconns h' start) m in
        let used = pending_pages h'.conns 0 env.nconns ++ slice h'.active 0 h'.nactive in
        let g = idx.pages idx.gc_head in
        let list = used ++ ((g.no ∷ all_listed (g ∷ gs)) ++ (ks ++ bs)) in
        (
          r,
          (idx_release_snapshot env.epoch env.at env.own h' (root_k ∷ root_b ∷ [])).1,
          ap (λ e. unless_error e h (unless_error env.lock_error h opened)) found
              ∙ ap (λ e. unless_error e h opened) locked
              ∙ ap (with_snapshot keys blocks env idx) snap
              ∙ ap (reported keys blocks env h' (root_k ∷ root_b ∷ [])) eq,
          λ p le.
              all.bits p (subst (λ n. p ≤ n) (sym (first_marks-no env.page_size env.nconns h')) le)
              ∙ ap (λ v. v || ltb 0 (count p list)) (first_marks-vec env.page_size env.nconns h' p)
              ∙ or_assoc (in_header env.page_size env.nconns h' p) (in_tail h' p) _,
        )
