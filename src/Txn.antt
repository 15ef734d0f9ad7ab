-- ===== src/Txn.antt =====
-- lib/txn.c: a transaction as an object with a state, and the lists of pages that it shares with the index.
--
-- The pages of the trees are those of `Bpt.Txn`; here are the numbers of the pages that a transaction has
-- allocated (`txn->pg`) and discarded (`txn->gc`), and the lists in the header and in the
-- connection. `ed_free_pgno` is that of `Pg.Free`, with the bound of `ed_idx_xmin`; that the latter clears
-- the slots of dead connections is left out. `none` is a failed assertion or a lack of fuel in
-- `ed_free_pgno`.
pub mod Open
pub mod Close
pub mod Laws
mod Tests
use eddy.Base.{
  ℕ, zero, suc, ◌+◌, ◌-◌, min, Bool, true, false, not, ◌&&◌, ◌||◌, ltb, ◌==◌, if◌then◌else◌, Option,
  none, some, List, [], ◌∷◌,
}
use eddy.Base.Int.{ℤ}
use eddy.Base.Mem.{Mem, put}
use eddy.Base.Result.{Error}
use eddy.Bpt.{pg_none}
use eddy.Bpt.Edit.{Db}
use eddy.Pg.{Index}
use eddy.Pg.Free.{free_pgno}
use eddy.Idx.{Conn, Hdr}
use eddy.Idx.Xmin.{idx_xmin}

-- `enum EdTxnState`
pub data TxnState : Type 0 where
  closed opened committed cancelled : TxnState

abbrev pub is_closed : TxnState → Bool
is_closed closed = true
is_closed opened = false
is_closed committed = false
is_closed cancelled = false

-- `struct EdTxn`: `pg` is `txn->pg[0 .. npg]`, and `gc` is `txn->gc[0 .. ngcused]`. The flag
-- `ED_FNOTLCK` is all that `cflags` keeps. `root` is the page of a tree's root.
pub record Transaction : Type 0 where
  pub pg : List ℕ
  pub npgused : ℕ
  pub gc : List ℕ
  pub xid : ℕ
  pub vno : ℕ
  pub nolock : Bool
  pub state : TxnState
  pub error : Option Error
  pub isrdonly : Bool
  pub root : Mem (Option ℕ)
  pub db : Mem Db

-- The index: its header, the gc pages, and whether this process holds the lock. Of the fields that both
-- have, those of `index` count.
pub record Store : Type 0 where
  pub hdr : Hdr
  pub index : Index
  pub locked : Bool

-- What the system answers to a process with slot `own`.
pub record Env : Type 0 where
  pub page_size : ℕ
  pub own : ℕ
  pub nconns : ℕ
  pub epoch : ℤ
  pub at : ℤ
  pub clock : ℕ
  pub fuel : ℕ
  pub lock_error : Option Error
  pub root_error : ℕ → Option Error
  pub conn_error : ℕ → Option Error
  pub map_error : ℕ → ℕ → Option Error
  pub truncate_error : ℕ → Option Error

-- The outcome of a step.
abbrev pub Step : Type 0
Step = Option (Option Error × Store)

module _ (env : Env) where
  abbrev pub freed : Store → Option (Option Error × Index) → Step
  freed st none = none
  freed st (some (rc, idx)) = some (rc, record st { index = idx })

  -- `ed_free_pgno` on the index.
  unfoldable pub free_pages : ℕ → List ℕ → Store → Step
  unfolding free_pgno idx_xmin
  free_pages xid pgs st =
      let xmin = (idx_xmin env.conn_error env.own env.nconns env.clock 0 st.hdr).0 in
      freed st
        (free_pgno env.page_size env.map_error env.truncate_error xmin env.fuel st.index xid pgs)

-- The slot of the process.
abbrev pub set_conn : ℕ → Conn → Store → Store
set_conn own c st = record st { hdr = record st.hdr { conns = put st.hdr.conns own c } }

-- The first pages of a list as an array, before what the array held.
abbrev pub array_of : List ℕ → Mem ℕ → Mem ℕ
array_of [] old i = old i
array_of (x ∷ xs) old zero = x
array_of (x ∷ xs) old (suc i) = array_of xs (λ k. old (k + 1)) i

-- `flush_active`
unfoldable pub flush_active : Store → Store
flush_active st =
    if st.hdr.nactive == 0
    then st
    else record st { hdr = record st.hdr { nactive = 0; active = λ i. pg_none } }

-- `ed_txn_isrdonly`, `ed_txn_isopen`
abbrev pub has_error : Option Error → Bool
has_error none = false
has_error (some x) = true

unfoldable pub is_rdonly : Transaction → Bool
is_rdonly t = has_error t.error || t.isrdonly

unfoldable pub txn_isopen : Transaction → Bool
txn_isopen t = elim t.state [
  | closed ↦ false
  | opened ↦ true
  | committed ↦ false
  | cancelled ↦ false
]
