-- ===== src/Bpt/Cow/Keeps.antt =====
-- The pages that belong to earlier transactions and are not among the allocated ones stay as they
-- are. `Safe` states this of a step, together with what holds of its result.
use eddy.Base.{ℕ, ◌≤◌, ◌<◌, ◌≡◌, refl, ◌∙◌, false, arith}
use eddy.Base.Result.{Result, ok, err}
use eddy.Bpt.{Bpt}
use eddy.Bpt.Txn.{Txn, M, ◌>>=◌, mem, set_page}

module _ {E : Type 0} where
  -- A page that the transaction may write.
  pub record Owned (t : Txn E) (pg : ℕ) : Type 0 where
    pub ours : t.xid ≤ (t.pages pg).xid

  pub record Keeps (t u : Txn E) : Type 0 where
    pub same_xid : u.xid ≡ t.xid
    pub old : (pg : ℕ) → mem pg t.spare ≡ false → (t.pages pg).xid < t.xid → u.pages pg ≡ t.pages pg
    pub spare : (pg : ℕ) → mem pg t.spare ≡ false → mem pg u.spare ≡ false
    pub owned : (pg : ℕ) → Owned t pg → Owned u pg

  pub Keeps-refl : (t : Txn E) → Keeps t t
  Keeps-refl t = record {
    same_xid = refl;
    old = λ pg s h. refl;
    spare = λ pg s. s;
    owned = λ pg h. h;
  }

  pub Keeps-trans : {t u v : Txn E} → Keeps t u → Keeps u v → Keeps t v
  Keeps-trans {t} {u} k l = record {
    same_xid = l.same_xid ∙ k.same_xid;
    old = λ pg s h.
        let same = k.old pg s h in l.old pg (k.spare pg s) (rw (same, k.same_xid) h) ∙ same;
    spare = λ pg s. l.spare pg (k.spare pg s);
    owned = λ pg h. l.owned pg (k.owned pg h);
  }

  -- A write to an owned page, which stays owned.
  pub set_page-Keeps :
      (t : Txn E) (pg : ℕ) (p : Bpt E) → Owned t pg → t.xid ≤ p.xid → Keeps t (set_page t pg p)
  set_page-Keeps t pg p h k = record {
    same_xid = refl;
    old = λ pg' s l. ground arith;
    spare = λ pg' s. s;
    owned = λ pg' l. ground arith;
  }

module _ {E A : Type 0} where
  pub record Safe (m : M E A) (Q : A → Txn E → Type 0) (t : Txn E) : Type 0 where
    pub keeps : Keeps t (m t).1
    pub post : (a : A) → (m t).0 ≡ ok a → Q a (m t).1

pub >>=-Safe :
    {E A B : Type 0} {m : M E A} {f : A → M E B} {Q : A → Txn E → Type 0} {R : B → Txn E → Type 0}
    {t : Txn E}
    → Safe m Q t
    → ((a : A) → Keeps t (m t).1 → Q a (m t).1 → Safe (f a) R (m t).1)
    → Safe (m >>= f) R t
unfolding ◌>>=◌
>>=-Safe {E} {A} {B} {m} {f} {Q} {R} {t} s k = go (m t).0 refl
  where
    go : (r : Result A) → (m t).0 ≡ r → Safe (m >>= f) R t
    go (err c) e = record { keeps = rw (e, ◌>>=◌) s.keeps; post = λ b h. cc (h, e) }
    go (ok a) e =
        let n = k a s.keeps (s.post a e) in
        record {
          keeps = rw (e, ◌>>=◌) (Keeps-trans s.keeps n.keeps);
          post = λ b h. rw (e, ◌>>=◌) (n.post b (rw (e, ◌>>=◌) at h));
        }
