-- ===== src/Effects/Counting.antt =====
-- How code adds to a count over the history of calls.
use atlas_of_us.Prelude.{ℕ, ◌+◌, ◌≡◌, refl, ◌∙◌, List, ◌∷◌, arith}
use atlas_of_us.Effects.Defs.{
  Result, ok, err, map_err, Eff, Exec, pure, raise, lift, call, with_err, ◌>>=◌, continue,
}

module _ {C : Type 0} (count : List C → ℕ) where
  -- Whether it returns or fails, `m` adds nothing.
  pub record Quiet {E A : Type 0} (m : Eff C E A) : Type 0 where
    pub at : (h : List C) → count (m h).1 ≡ count h

  -- Where `m` returns `a`, it has added `n a`.
  pub record Adds {E A : Type 0} (n : A → ℕ) (m : Eff C E A) : Type 0 where
    pub at : (h : List C) (a : A) → (m h).0 ≡ ok a → count (m h).1 ≡ count h + n a

module _ {C E A : Type 0} {count : List C → ℕ} where
  pub Quiet-pure : (a : A) → Quiet count {E = E} (pure a)
  unfolding pure
  Quiet-pure a = record { at = λ h. refl }

  pub Quiet-raise : (e : E) → Quiet count {A = A} (raise e)
  unfolding raise
  Quiet-raise e = record { at = λ h. refl }

  pub Quiet-lift : (r : Result E A) → Quiet count (lift r)
  unfolding lift
  Quiet-lift r = record { at = λ h. refl }

  pub Quiet-call :
      (c : C) (answer : List C → Result E A)
      → ((h : List C) → count (c ∷ h) ≡ count h)
      → Quiet count (call c answer)
  unfolding call
  Quiet-call c answer silent = record { at = silent }

  pub Adds-pure : (n : A → ℕ) (a : A) → n a ≡ 0 → Adds count {E = E} n (pure a)
  unfolding pure
  Adds-pure n a none_added = record {
    at = λ h b e. let same : a ≡ b = cc in rw (← same, none_added) (omega arith);
  }

  pub Adds-call :
      (n : A → ℕ) (c : C) (answer : List C → Result E A)
      → ((h : List C) (a : A) → count (c ∷ h) ≡ count h + n a)
      → Adds count n (call c answer)
  unfolding call
  Adds-call n c answer grows = record { at = λ h a e. grows h a }

map_err-ok {ℓ} :
    {E F A : Type ℓ} (f : E → F) (r : Result E A) (a : A) → map_err f r ≡ ok a → r ≡ ok a
map_err-ok f (ok b) a e = cc
map_err-ok f (err x) a e = cc

module _ {C E F A : Type 0} {count : List C → ℕ} where
  pub Quiet-with_err : (f : E → F) (m : Eff C E A) → Quiet count m → Quiet count (with_err f m)
  unfolding with_err
  Quiet-with_err f m q = record { at = q.at }

  pub Adds-with_err :
      (n : A → ℕ) (f : E → F) (m : Eff C E A) → Adds count n m → Adds count n (with_err f m)
  unfolding with_err
  Adds-with_err n f m q = record { at = λ h a e. q.at h a (map_err-ok f (m h).0 a e) }

module _ {C E A B : Type 0} {count : List C → ℕ} where
  pub Quiet-bind :
      (m : Eff C E A) (f : A → Eff C E B)
      → Quiet count m
      → ((a : A) → Quiet count (f a))
      → Quiet count (m >>= f)
  unfolding ◌>>=◌
  Quiet-bind m f qm qf = record { at = λ h. go h (m h).0 (m h).1 (qm.at h) }
    where
      go :
          (h : List C) (r : Result E A) (h' : List C)
          → count h' ≡ count h
          → count (continue r f h').1 ≡ count h
      go h (ok a) h' e = (qf a).at h' ∙ e
      go h (err x) h' e = e

  -- The first part is silent, and what follows adds.
  pub Adds-after-Quiet :
      (n : B → ℕ) (m : Eff C E A) (f : A → Eff C E B)
      → Quiet count m
      → ((a : A) → Adds count n (f a))
      → Adds count n (m >>= f)
  unfolding ◌>>=◌
  Adds-after-Quiet n m f qm af = record { at = λ h b e. go h (m h).0 (m h).1 (qm.at h) b e }
    where
      go :
          (h : List C) (r : Result E A) (h' : List C)
          → count h' ≡ count h
          → (b : B) → (continue r f h').0 ≡ ok b
          → count (continue r f h').1 ≡ count h + n b
      go h (ok a) h' q b e = let step = (af a).at h' b e in omega (arith, q, step)
      go h (err x) h' q b e = cc

  -- The first part adds, and what follows is silent and keeps the number.
  pub Adds-before-Quiet :
      (k : A → ℕ) (n : B → ℕ) (m : Eff C E A) (f : A → Eff C E B)
      → Adds count k m
      → ((a : A) → Quiet count (f a))
      → ((a : A) (h : List C) (b : B) → (f a h).0 ≡ ok b → n b ≡ k a)
      → Adds count n (m >>= f)
  unfolding ◌>>=◌
  Adds-before-Quiet k n m f am qf same = record {
    at = λ h b e. go h (m h).0 (m h).1 (λ a q. am.at h a q) b e;
  }
    where
      go :
          (h : List C) (r : Result E A) (h' : List C)
          → ((a : A) → r ≡ ok a → count h' ≡ count h + k a)
          → (b : B) → (continue r f h').0 ≡ ok b
          → count (continue r f h').1 ≡ count h + n b
      go h (ok a) h' q b e =
          let quiet = (qf a).at h' in
          let first = q a refl in let number = same a h' b e in omega (arith, quiet, first, number)
      go h (err x) h' q b e = cc

-- What a final `pure` returns.
pub pure-ok : {S E A : Type 0} (a b : A) (s : S) → (pure {S = S} {E = E} a s).0 ≡ ok b → a ≡ b
unfolding pure
pure-ok a b s e = cc

module _ {S E A B : Type 0} where
  pub then-pure-ok : (m : Exec S E A) (x b : B) (h : S) → ((m >>= λ _. pure x) h).0 ≡ ok b → x ≡ b
  unfolding ◌>>=◌
  then-pure-ok m x b h e = go (m h).0 (m h).1 e
    where
      go : (r : Result E A) (h' : S) → (continue r (λ _. pure x) h').0 ≡ ok b → x ≡ b
      go (ok a) h' q = cc
      go (err y) h' q = cc

pub ruleset quiet_rules = (Quiet-pure, Quiet-raise, Quiet-lift, Quiet-with_err, Quiet-bind)

-- Inversion of a bind that returned.
module _ {S E A B : Type 0} where
  pub bind-ok :
      (m : Exec S E A) (f : A → Exec S E B) (h : S) (b : B)
      → ((m >>= f) h).0 ≡ ok b
      → (a : A) × (h' : S) × ((m h).0 ≡ ok a)
        × ((m h).1 ≡ h')
        × ((f a h').0 ≡ ok b)
        × (((m >>= f) h).1 ≡ (f a h').1)
  unfolding ◌>>=◌
  bind-ok m f h b e = go (m h).0 (m h).1 e
    where
      go :
          (r : Result E A) (h' : S)
          → (continue r f h').0 ≡ ok b
          → (a : A) × (k : S) × (r ≡ ok a)
            × (h' ≡ k)
            × ((f a k).0 ≡ ok b)
            × ((continue r f h').1 ≡ (f a k).1)
      go (ok a) h' q = (a, h', refl, refl, q, refl)
      go (err y) h' q = cc

module _ {S E A B : Type 0} where
  -- A bind whose first part returned runs the second from there.
  pub bind-run :
      (m : Exec S E A) (f : A → Exec S E B) {h h' : S} {a : A} {r : Result E B × S}
      → m h ≡ (ok a, h')
      → f a h' ≡ r
      → (m >>= f) h ≡ r
  unfolding ◌>>=◌
  bind-run m f e k = rw e k

module _ {ℓ} {S E A B : Type 0} (P : Result E B × S → Type ℓ) where
  -- What holds of every outcome of a bind: by the outcome of a first part that makes no call, and
  -- by a first part that is known to return.
  pub lift-bind :
      (r : Result E A) (f : A → Exec S E B) (h : S)
      → ((e : E) → r ≡ err e → P (err e, h))
      → ((a : A) → r ≡ ok a → P (f a h))
      → P ((lift r >>= f) h)
  unfolding ◌>>=◌
  lift-bind (ok a) f h failed returned = returned a refl
  lift-bind (err e) f h failed returned = failed e refl

  pub run-bind :
      (m : Exec S E A) (f : A → Exec S E B) {h h' : S} {a : A}
      → m h ≡ (ok a, h')
      → P (f a h')
      → P ((m >>= f) h)
  run-bind m f e p = rw (bind-run m f e refl) p

module _ {ℓ} {S E A B : Type 0} (P : Result E B → Type ℓ) where
  -- What holds of every outcome of a bind, by the outcome of its first part.
  pub bind-elim :
      (m : Exec S E A) (f : A → Exec S E B) (s : S)
      → ((e : E) → (m s).0 ≡ err e → P (err e))
      → ((a : A) (s' : S) → (m s).0 ≡ ok a → (m s).1 ≡ s' → P (f a s').0)
      → P ((m >>= f) s).0
  unfolding ◌>>=◌
  bind-elim m f s failed returned = go (m s).0 (m s).1 failed returned
    where
      go :
          (r : Result E A) (s' : S)
          → ((e : E) → r ≡ err e → P (err e))
          → ((a : A) (s'' : S) → r ≡ ok a → s' ≡ s'' → P (f a s'').0)
          → P (continue r f s').0
      go (ok a) s' failed returned = returned a s' refl refl
      go (err e) s' failed returned = failed e refl
