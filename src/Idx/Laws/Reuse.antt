-- ===== src/Idx/Laws/Reuse.antt =====
-- `ed_alloc` with the bound of `ed_idx_xmin`: no page that a snapshot may read is reused.
use eddy.Base.{ℕ, ◌^◌, ◌<◌, ◌≡◌, ◌⊎◌, true, arith, inl, inr, Option, length}
use eddy.Base.Result.{Error}
use eddy.Pg.{list_xid}
use eddy.Pg.Alloc.{Stage, take_list}
use eddy.Pg.Lists.{IsReadable}
use eddy.Pg.Laws.Take.{take_list-Takes}
use eddy.Idx.{Hdr}
use eddy.Idx.Xmin.{is_live, idx_xmin}
use eddy.Idx.Laws.Xmin.{idx_xmin-IsFloor}

-- If a round of the loop of `ed_alloc`, on a readable gc page with lists, takes pages with the bound that
-- `ed_idx_xmin` gives, then the transaction that freed them is 0 or older than that of
-- every connection that still has one, in the slots that `ed_idx_xmin` looks at.
pub take_list-idx_xmin :
    (page_size : ℕ) (small : page_size < 2 ^ 16) (lock_error : ℕ → Option Error)
    (own nconns clock now npg : ℕ) (h : Hdr) (st : Stage)
    → IsReadable page_size st.gc st.state
    → 0 < st.state.nlists
    → let (xmin, h') = idx_xmin lock_error own nconns clock now h in
      length st.pgno < length (take_list npg xmin st).1.pgno
      → (j : ℕ) → j < nconns
      → is_live (h'.conns j) ≡ true
      → let xid = list_xid st.gc.words st.state.head in (xid ≡ 0) ⊎ (xid < (h'.conns j).xid)
take_list-idx_xmin page_size small lock_error own nconns clock now npg h st ok pos more j lt live =
    let r = idx_xmin lock_error own nconns clock now h in
    let f = idx_xmin-IsFloor lock_error own nconns clock now h in
    let t = take_list-Takes page_size small npg r.0 st ok pos in
    let least = f.floor j (omega arith) lt live in
    elim (t.gated more) [ inl z ↦ inl z | inr below ↦ inr (omega (arith, least, below)) ]
