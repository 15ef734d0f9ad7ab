-- ===== src/Bpt/Cow/Steps.antt =====
-- The steps of lib/txn.c that lib/bpt.c writes with: allocation, clone, and the ownership test.
use eddy.Base.{
  ℕ, ◌≡◌, refl, Bool, true, false, ltb, arith, List, [], ◌∷◌, inl, inr, Bool-cases, Option, none,
  some, if◌then◌else◌,
}
use eddy.Base.Result.{Result, Error, ok, err, rdonly}
use eddy.Bpt.{Bpt}
use eddy.Bpt.Txn.{
  Txn, M, ◌>>=◌, pure, fail, attempt, on_result, on_option, page, write, next_page, txn_alloc,
  txn_discard, txn_clone, own,
}
use eddy.Bpt.Cow.Keeps.{Owned, Keeps-refl, set_page-Keeps, Safe, >>=-Safe}

-- No demand on a result.
abbrev pub Any : {E A : Type 0} → A → Txn E → Type 0
Any a t = Unit

module _ {E : Type 0} where
  pub pure-Safe :
      {A : Type 0} {Q : A → Txn E → Type 0} (a : A) (t : Txn E) → Q a t → Safe (pure a) Q t
  unfolding pure
  pure-Safe {Q = Q} a t q = record { keeps = Keeps-refl t; post = λ b h. rw (← some_eq b h) q }
    where
      some_eq : (b : _) → ok a ≡ ok b → a ≡ b
      some_eq b h = cc

  pub page-Safe : (pg : ℕ) (t : Txn E) → Safe (page pg) (λ p u. p ≡ u.pages pg) t
  unfolding page
  page-Safe pg t = record { keeps = Keeps-refl t; post = λ a h. cc }

  -- A write to an owned page of what was read from it, but for some fields.
  pub write-Safe :
      (pg : ℕ) (p c : Bpt E) (t : Txn E)
      → c ≡ t.pages pg
      → p.xid ≡ c.xid
      → Owned t pg
      → Safe (write pg p) Any t
  unfolding write
  write-Safe pg p c t e x h = record {
    keeps = set_page-Keeps t pg p h (rw (x, e) h.ours);
    post = λ a e. tt;
  }

  pub attempt-Safe :
      {A : Type 0} {m : M E A} {Q : A → Txn E → Type 0} {t : Txn E}
      → Safe m Q t
      → Safe (attempt m) (λ r u. (a : A) → r ≡ ok a → Q a u) t
  unfolding attempt
  attempt-Safe {m = m} s = record { keeps = s.keeps; post = λ r h a e. s.post a (cc) }

  pub fail-Safe : {A : Type 0} {Q : A → Txn E → Type 0} (c : Error) (t : Txn E) → Safe (fail c) Q t
  unfolding fail
  fail-Safe c t = record { keeps = Keeps-refl t; post = λ a h. absurd (cc) }

  pub on_result-Safe :
      {A B : Type 0} {Q : B → Txn E → Type 0} {f : Error → M E B} {g : A → M E B} {t : Txn E}
      (r : Result A)
      → ((c : Error) → r ≡ err c → Safe (f c) Q t)
      → ((a : A) → r ≡ ok a → Safe (g a) Q t)
      → Safe (on_result r f g) Q t
  unfolding on_result
  on_result-Safe (err c) f g = f c refl
  on_result-Safe (ok a) f g = g a refl

  pub on_option-Safe :
      {A B : Type 0} {Q : B → Txn E → Type 0} {f : M E B} {g : A → M E B} {t : Txn E} (o : Option A)
      → Safe f Q t
      → ((a : A) → o ≡ some a → Safe (g a) Q t)
      → Safe (on_option o f g) Q t
  unfolding on_option
  on_option-Safe none f g = f
  on_option-Safe (some a) f g = g a refl

  pub if-Safe :
      {A : Type 0} {Q : A → Txn E → Type 0} {m n : M E A} {t : Txn E} (b : Bool)
      → (b ≡ true → Safe m Q t)
      → (b ≡ false → Safe n Q t)
      → Safe (if b then m else n) Q t
  if-Safe true f g = f refl
  if-Safe false f g = g refl

  next_page-Safe :
      (l : List ℕ) (t : Txn E) → t.spare ≡ l → Safe (next_page l) (λ pg u. Owned u pg) t
  unfolding next_page
  next_page-Safe [] t e = record {
    keeps = record {
      same_xid = refl;
      old = λ pg s h. refl;
      spare = λ pg s. s;
      owned = λ pg h. record { ours = h.ours };
    };
    post = λ a h. cc;
  }
  next_page-Safe (x ∷ rest) t e = record {
    keeps = record {
      same_xid = refl;
      old = λ pg s h. ground (arith, rw e at s);
      spare = λ pg s. ground (arith, rw e at s);
      owned = λ pg h. ground arith;
    };
    post = λ a h. ground arith;
  }

  -- A step is safe where it does what a safe step does.
  pub Safe-of_eq :
      {A : Type 0} {m : M E A} (n : M E A) {Q : A → Txn E → Type 0} {t : Txn E}
      → m t ≡ n t
      → Safe n Q t
      → Safe m Q t
  Safe-of_eq n e s = record { keeps = rw e s.keeps; post = λ a h. rw e (s.post a (rw e at h)) }

  pub txn_alloc-Safe : (t : Txn E) → Safe txn_alloc (λ pg u. Owned u pg) t
  unfolding txn_alloc fail
  txn_alloc-Safe t = elim (Bool-cases t.isrdonly) [
    | inl e ↦ Safe-of_eq (fail rdonly) (ground arith) (fail-Safe rdonly t)
    | inr e ↦ Safe-of_eq (next_page t.spare) (ground arith) (next_page-Safe t.spare t refl)
  ]

  txn_discard-Safe : (pg : ℕ) (t : Txn E) → Safe (txn_discard pg) Any t
  unfolding txn_discard
  txn_discard-Safe pg t = record {
    keeps = record {
      same_xid = ground arith;
      old = λ q s h. ground arith;
      spare = λ q s. ground arith;
      owned = λ q h. ground arith;
    };
    post = λ a h. tt;
  }

  pub txn_clone-Safe : (src : ℕ) (t : Txn E) → Safe (txn_clone src) (λ pg u. Owned u pg) t
  unfolding txn_clone
  txn_clone-Safe src t = >>=-Safe (txn_alloc-Safe t) λ pg k own.
      >>=-Safe (page-Safe src _) λ s k₁ e₁. >>=-Safe (page-Safe pg _) λ copy k₂ e₂.
        >>=-Safe
          (write-Safe pg (record copy { type = s.type; next = s.next; nkeys = s.nkeys }) copy _ e₂
            refl (k₂.owned pg (k₁.owned pg own)))
          λ _ k₃ _.
            >>=-Safe (txn_discard-Safe src _)
              λ _ k₄ _. pure-Safe pg _ (k₄.owned pg (k₃.owned pg (k₂.owned pg (k₁.owned pg own))))

  pub own-Safe : (pg : ℕ) (t : Txn E) → Safe (own pg) (λ r u. Owned u r.0) t
  unfolding own pure
  own-Safe pg t = elim (Bool-cases (ltb (t.pages pg).xid t.xid)) [
    | inl older ↦
        Safe-of_eq (txn_clone pg >>= λ copy. pure (copy, true)) (ground arith)
          (>>=-Safe (txn_clone-Safe pg t) (λ copy k own. pure-Safe (copy, true) _ own))
    | inr ours ↦
        Safe-of_eq (pure (pg, false)) (ground arith) (pure-Safe (pg, false) t (ground arith))
  ]
