-- ===== src/Auth/Access.antt =====
-- Who gets a token.
use atlas_of_us.Prelude.{
  sym, String, ◌≡◌, refl, ap, ◌∙◌, inl, inr, Bool, true, false, some, List, [], ◌∷◌, Option-cases,
}
use atlas_of_us.Effects.Defs.{pure, map_err, with_err, Result, ok, err, lift, call}
use atlas_of_us.Effects.Counting.{bind-ok}
use atlas_of_us.Auth.Accounts.{
  generate_token, hash_password, create_person, query_people, respond, SignUpRequest, signup,
  unless_known, AuthServices, AuthRow, AuthCall, LoginRequest, AuthResponse, HashError, login,
  verify_password, rows_of, stored_password, accept,
}

-- The one account that the database has for the name, with the password that was verified.
pub record IsVerified (env : AuthServices) (r : LoginRequest) (h : List AuthCall) : Type 0 where
  pub row : AuthRow
  pub stored : String
  pub only :
      rows_of (
        env.query h "MATCH (n:Person) WHERE n.username = $username RETURN n.password"
          (("username", r.username) ∷ []))
      ≡ ok (row ∷ [])
  pub has_password : row "n.password" ≡ some stored
  pub verified : verify_password env r.password stored ≡ ok true

stored_password-ok :
    (rows : List AuthRow) (s : String)
    → stored_password rows ≡ ok s
    → (row : AuthRow) × (rows ≡ row ∷ []) × (row "n.password" ≡ some s)
stored_password-ok [] s e = cc
stored_password-ok (row ∷ row' ∷ rows) s e = cc
stored_password-ok (row ∷ []) s e = elim (Option-cases (row "n.password")) [
  | inl q ↦ cc (rw q at e)
  | inr (p, q) ↦ let same : p ≡ s = cc (rw q at e) in (row, refl, q ∙ ap some same)
]

accept-ok :
    (env : AuthServices) (v : Result HashError Bool) (u : Unit {0})
    → accept env v ≡ ok u
    → v ≡ ok true
accept-ok env (ok true) u e = refl
accept-ok env (ok false) u e = cc
accept-ok env (err x) u e = cc

-- A login that returns a token was asked for with a name for which the database has exactly one
-- account, and with a password that verifies against the hash that this account stores.
pub login-IsVerified :
    (env : AuthServices) (r : LoginRequest) (h : List AuthCall) (token : AuthResponse)
    → (login env r h).0 ≡ ok token
    → IsVerified env r h
unfolding login lift call
login-IsVerified env r h token e =
    let (u, h1, ran1, at1, e1, _) = bind-ok _ _ h token e in
    let (rows, h2, ran2, at2, e2, _) = bind-ok _ _ h1 token e1 in
    let (stored, h3, ran3, at3, e3, _) = bind-ok _ _ h2 token e2 in
    let (w, h4, ran4, at4, e4, _) = bind-ok _ _ h3 token e3 in
    let (row, one, has) = stored_password-ok rows stored ran3 in
    record {
      row = row;
      stored = stored;
      only = rw (at1, ← one) ran2;
      has_password = has;
      verified = accept-ok env _ w ran4;
    }

unless_known-ok : (rows : List AuthRow) (u : Unit {0}) → unless_known rows ≡ ok u → rows ≡ []
unless_known-ok [] u e = refl
unless_known-ok (row ∷ rows) u e = cc

-- What a sign-up of `r` asks the database.
abbrev pub lookup : SignUpRequest → AuthCall
lookup r =
    query_people "MATCH (n:Person) WHERE n.phone = $phone OR n.username = $username RETURN n"
      (("username", r.username) ∷ ("phone", r.phone) ∷ [])

abbrev pub creation_of : SignUpRequest → String → AuthCall
creation_of r hash =
    create_person "CREATE (p:Person:L3 { username: $username, password: $password, phone: $phone })"
      (("username", r.username) ∷ ("password", hash) ∷ ("phone", r.phone) ∷ [])

-- No account had the name or the phone, and one was created, with a hash of the password.
pub record IsRegistered (env : AuthServices) (r : SignUpRequest) (h h' : List AuthCall)
    : Type 0 where
  pub hash : String
  pub none_before :
      rows_of (
        env.query h "MATCH (n:Person) WHERE n.phone = $phone OR n.username = $username RETURN n"
          (("username", r.username) ∷ ("phone", r.phone) ∷ []))
      ≡ ok []
  pub hashed : env.argon_hash (lookup r ∷ h) r.password ≡ ok hash
  pub asked : h' ≡ creation_of r hash ∷ lookup r ∷ h

with_err-ok : {E F A : Type 0} (f : E → F) (r : Result E A) (a : A) → map_err f r ≡ ok a → r ≡ ok a
with_err-ok f (ok b) a e = cc
with_err-ok f (err x) a e = cc

respond-history :
    (env : AuthServices) (name : String) (h : List AuthCall) (token : AuthResponse)
    → (respond env name h).0 ≡ ok token
    → (respond env name h).1 ≡ h
unfolding respond generate_token with_err pure
respond-history env name h token e =
    let (t, h', ran, same, last, moved) = bind-ok _ _ h token e in moved ∙ sym same

-- A sign-up that returns a token found no account of the name or the phone, and made two calls: the
-- search, and the creation of one account with a hash of the password in the place of it.
pub signup-IsRegistered :
    (env : AuthServices) (r : SignUpRequest) (h : List AuthCall) (token : AuthResponse)
    → (signup env r h).0 ≡ ok token
    → IsRegistered env r h (signup env r h).1
unfolding signup lift call with_err hash_password
signup-IsRegistered env r h token e =
    let (u, h1, ran1, at1, e1, m1) = bind-ok _ _ h token e in
    let (rows, h2, ran2, at2, e2, m2) = bind-ok _ _ h1 token e1 in
    let (w, h3, ran3, at3, e3, m3) = bind-ok _ _ h2 token e2 in
    let (hash, h4, ran4, at4, e4, m4) = bind-ok _ _ h3 token e3 in
    let (v, h5, ran5, at5, e5, m5) = bind-ok _ _ h4 token e4 in
    let found : h3 ≡ lookup r ∷ h = sym at3 ∙ sym at2 ∙ ap (λ l. lookup r ∷ l) (sym at1) in
    record {
      hash = hash;
      none_before = rw (at1, ← (unless_known-ok rows w ran3)) ran2;
      hashed = ap (λ l. env.argon_hash l r.password) (sym found) ∙ with_err-ok _ _ hash ran4;
      asked =
          m1
          ∙ m2
          ∙ m3
          ∙ m4
          ∙ m5
          ∙ respond-history env r.username h5 token e5
          ∙ sym at5
          ∙ ap (λ l. creation_of r hash ∷ l) (sym at4 ∙ found);
    }
