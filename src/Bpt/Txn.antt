-- ===== src/Bpt/Txn.antt =====
-- What lib/bpt.c uses of a transaction (lib/txn.c): the pages, the next allocated page, and the
-- copy on write.
--
-- Pages are found by number. `spare` holds the pages that the transaction has allocated and not
-- used yet, `txn->pg[npgused ..]`, together with those that `ed_alloc` would add on the way; when
-- they are used up it fails with `alloc_error`. The arrays `txn->gc` and `txn->nodes` are grown by
-- `realloc` and `calloc`, which are taken to succeed.
use eddy.Base.{
  ℕ, Bool, true, false, ◌==◌, ltb, if◌then◌else◌, Option, none, some, List, [], ◌∷◌, ◌++◌,
}
use eddy.Base.Mem.{Mem, put}
use eddy.Base.Result.{Result, ok, err, Error, rdonly}
use eddy.Bpt.{Bpt}

-- `struct EdNode` without the page and the parent; `gc` is membership in `Txn.gc`.
pub record Node : Type 0 where
  pub no : ℕ
  pub pindex : ℕ

-- A leaf with its parents, the nearest first, and the slot in it: `dbp->find` and
-- `dbp->entry_index`.
pub record Place : Type 0 where
  pub leaf : Node
  pub parents : List Node
  pub eidx : ℕ

-- The fields of `struct EdTxn` and of its `EdTxnDb` that a change of one tree touches. `error` is
-- `none` for 0.
pub record Txn (E : Type 0) : Type 0 where
  pub xid : ℕ
  pub pages : Mem (Bpt E)
  pub spare : List ℕ
  pub gc : List ℕ
  pub alloc_error : Error
  pub isrdonly : Bool
  pub error : Option Error
  pub root : Option ℕ

abbrev pub mem : ℕ → List ℕ → Bool
mem pg [] = false
mem pg (x ∷ xs) = if pg == x then true else mem pg xs

-- A step that may fail; what it changed before it failed stays.
abbrev pub M : Type 0 → Type 0 → Type 0
M E A = Txn E → Result A × Txn E

infixl 5 ◌>>=◌ ◌>>◌
unfoldable pub ◌>>=◌ : {E A B : Type 0} → M E A → (A → M E B) → M E B
◌>>=◌ m f t = elim (m t).0 [ ok a ↦ f a (m t).1 | err c ↦ (err c, (m t).1) ]

abbrev pub ◌>>◌ : {E B : Type 0} → M E (Unit {0}) → M E B → M E B
m >> k = m >>= λ _. k

unfoldable pub pure : {E A : Type 0} → A → M E A
pure a t = (ok a, t)

unfoldable pub fail : {E A : Type 0} → Error → M E A
fail c t = (err c, t)

-- A call whose return code is a value for what follows.
unfoldable pub attempt : {E A : Type 0} → M E A → M E (Result A)
attempt m t = (ok (m t).0, (m t).1)

-- A branch on a return code, and one on an optional value.
unfoldable pub on_result : {E A B : Type 0} → Result A → (Error → M E B) → (A → M E B) → M E B
on_result (err c) f g = f c
on_result (ok a) f g = g a

unfoldable pub on_option : {E A B : Type 0} → Option A → M E B → (A → M E B) → M E B
on_option none f g = f
on_option (some a) f g = g a

module _ {E : Type 0} where
  abbrev pub set_page : Txn E → ℕ → Bpt E → Txn E
  set_page t pg p = record t { pages = put t.pages pg p }

  -- A write to the page of a node.
  unfoldable pub write : ℕ → Bpt E → M E (Unit {0})
  write pg p t = (ok tt, set_page t pg p)

  unfoldable pub page : ℕ → M E (Bpt E)
  page pg t = (ok (t.pages pg), t)

  -- The part of `ed_txn_alloc` behind its checks: the next page, marked with the transaction's id.
  unfoldable pub next_page : List ℕ → M E ℕ
  next_page [] t = (err t.alloc_error, record t { error = some t.alloc_error })
  next_page (pg ∷ rest) t = (
    ok pg,
    record t { pages = put t.pages pg (record (t.pages pg) { xid = t.xid }); spare = rest },
  )

  -- `ed_txn_alloc`
  unfoldable pub txn_alloc : M E ℕ
  txn_alloc t = if t.isrdonly then (err rdonly, t) else next_page t.spare t

  -- `ed_txn_discard`; a node is discarded once.
  unfoldable pub txn_discard : ℕ → M E (Unit {0})
  txn_discard pg t = (ok tt, if mem pg t.gc then t else record t { gc = t.gc ++ pg ∷ [] })

  -- `ed_txn_clone`: the header is copied, the data segment is not.
  unfoldable pub txn_clone : ℕ → M E ℕ
  txn_clone src = do
    pg ← txn_alloc
    s ← page src
    copy ← page pg
    write pg (record copy { type = s.type; next = s.next; nkeys = s.nkeys })
    txn_discard src
    pure pg

  -- The test `xid < txn->xid` and, if it holds, the clone: the page to write, and whether it is
  -- new.
  unfoldable pub own : ℕ → M E (ℕ × Bool)
  own pg t =
      if ltb (t.pages pg).xid t.xid
      then (txn_clone pg >>= λ copy. pure (copy, true)) t
      else (ok (pg, false), t)
