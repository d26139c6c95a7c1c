-- ===== src/Effects/Defs.antt =====
-- Fallible code and code that calls services. A service answers by the history of the calls
-- before, so its answers are those of any deterministic outside world with a state of its own;
-- the history, newest call first, is the state that the models thread.
use atlas_of_us.Prelude.{Option, none, some, List, ◌∷◌}

pub data Result {ℓ κ} (E : Type ℓ) (A : Type κ) : Type (ℓ ⊔ κ) where
  ok : A → Result E A
  err : E → Result E A

module _ {ℓ κ μ} {E : Type ℓ} {A : Type κ} {F : Type μ} where
  abbrev pub map_err : (E → F) → Result E A → Result F A
  map_err f (ok a) = ok a
  map_err f (err e) = err (f e)

module _ {ℓ κ μ} {E : Type ℓ} {A : Type κ} {B : Type μ} where
  abbrev pub map_ok : (A → B) → Result E A → Result E B
  map_ok f (ok a) = ok (f a)
  map_ok f (err e) = err e

  abbrev pub and_then : Result E A → (A → Result E B) → Result E B
  and_then (ok a) f = f a
  and_then (err e) f = err e

-- `ok_or`
abbrev pub ok_or {ℓ κ} : {E : Type ℓ} {A : Type κ} → Option A → E → Result E A
ok_or none e = err e
ok_or (some a) e = ok a

-- `unwrap_or`
abbrev pub unwrap_or {ℓ} : {A : Type ℓ} → Option A → A → A
unwrap_or none d = d
unwrap_or (some a) d = a

abbrev pub or_else {ℓ} : {A : Type ℓ} → Option A → Option A → Option A
or_else none o = o
or_else (some a) o = some a

-- Code on a state of type `S` that returns an `A` or fails with an `E`.
abbrev pub Exec : Type 0 → Type 0 → Type 0 → Type 0
Exec S E A = S → Result E A × S

-- Code over calls of type `C`.
abbrev pub Eff : Type 0 → Type 0 → Type 0 → Type 0
Eff C E A = Exec (List C) E A

module _ {S E A : Type 0} where
  unfoldable pub pure : A → Exec S E A
  pure a s = (ok a, s)

  unfoldable pub raise : E → Exec S E A
  raise e s = (err e, s)

  unfoldable pub lift : Result E A → Exec S E A
  lift r s = (r, s)

-- One call: the answer is to the history before it, and the call is recorded.
unfoldable pub call : {C E A : Type 0} → C → (List C → Result E A) → Eff C E A
call c answer h = (answer h, c ∷ h)

unfoldable pub with_err : {S E F A : Type 0} → (E → F) → Exec S E A → Exec S F A
with_err f m s = let (r, s') = m s in (map_err f r, s')

-- `match m.await { Ok(a) => …, Err(e) => … }`: the outcome as a value.
unfoldable pub attempt : {S E F A : Type 0} → Exec S E A → Exec S F (Result E A)
attempt m s = let (r, s') = m s in (ok r, s')

module _ {S E A B : Type 0} where
  abbrev pub continue : Result E A → (A → Exec S E B) → Exec S E B
  continue (ok a) f s = f a s
  continue (err e) f s = (err e, s)

  infixl 10 ◌>>=◌ ◌>>◌
  -- Opening this opens the actions above too.
  unfoldable pub ◌>>=◌ : Exec S E A → (A → Exec S E B) → Exec S E B
  unfolding pure raise lift call with_err
  ◌>>=◌ m f s = let (r, s') = m s in continue r f s'

  abbrev pub ◌>>◌ : Exec S E A → Exec S E B → Exec S E B
  m >> n = m >>= λ _. n
