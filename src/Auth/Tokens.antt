-- ===== src/Auth/Tokens.antt =====
-- domains/auth/middleware.rs: which requests pass.
use atlas_of_us.Prelude.{
  ◌∷◌, ◌∙◌, ◌++◌, ℕ, ◌+◌, ◌*◌, ◌%◌, ◌^◌, ◌≤◌, ◌<◌, String, ◌≡◌, refl, ap, Option, none, some, List,
  arith,
}
use Prim.Native.String
use Prim.Native.String.append.{nil, cons}
use Prim.Native.Char.{Char}
use atlas_of_us.Text.{chars, of_chars, strip_prefix}
use atlas_of_us.Effects.Defs.{Result, ok, err, unwrap_or}
use atlas_of_us.Auth.Accounts.{AuthServices, AuthCall, JwtClaims, generate_token}

-- `decode` of jsonwebtoken, by the secret, the token and the time; it accepts what was encoded with
-- the same secret until it expires.
pub record TokenCheck (env : AuthServices) : Type 0 where
  pub decode : String → String → ℕ → Result String JwtClaims
  pub decode-encode :
      (claims : JwtClaims) (secret token : String) (time : ℕ)
      → env.encode claims secret ≡ ok token
      → time ≤ claims.exp
      → (read : JwtClaims) × (decode secret token time ≡ ok read)

module _ (env : AuthServices) (tokens : TokenCheck env) where
  -- The next handler runs, or the status of the refusal.
  abbrev pub outcome : Result String JwtClaims → Result ℕ (Unit {0})
  outcome (ok claims) = ok tt
  outcome (err e) = err 401

  abbrev pub check_token : ℕ → Option (List Char) → Result ℕ (Unit {0})
  check_token time none = err 401
  check_token time (some token) =
      let jwt_secret = unwrap_or (env.env_var "JWT_SECRET") "your-secret-key" in
      outcome (tokens.decode jwt_secret (of_chars token) time)

  unfoldable pub jwt_auth_middleware : Option String → ℕ → Result ℕ (Unit {0})
  unfolding strip_prefix
  jwt_auth_middleware none time = err 401
  jwt_auth_middleware (some auth) time =
      check_token time (strip_prefix (chars "Bearer ") (chars auth))

of_chars-chars : (s : String) → of_chars (chars s) ≡ s
of_chars-chars String.[] = refl
of_chars-chars (String.◌∷◌ c s) = ap (λ t. String.◌∷◌ c t) (of_chars-chars s)

chars-append : (s t : String) → chars (String.◌++◌ s t) ≡ chars s ++ chars t
chars-append String.[] t = λ i. chars (nil t i)
chars-append (String.◌∷◌ c s) t = (λ i. chars (cons c s t i)) ∙ ap (λ cs. c ∷ cs) (chars-append s t)

stripped :
    (s : String) → strip_prefix (chars "Bearer ") (chars (String.◌++◌ "Bearer " s)) ≡ some (chars s)
unfolding strip_prefix
stripped s = rw (chars-append "Bearer " s) refl

-- A token that was issued for a name passes, as a bearer token, for the next 24 hours, with the same
-- environment; the clock must be far from the end of its 64 bits.
pub jwt_auth_middleware-generate_token :
    (env : AuthServices) (tokens : TokenCheck env) (username token : String) (h : List AuthCall)
    (time : ℕ)
    → (generate_token env username h).0 ≡ ok token
    → env.now h + 24 * 60 * 60 < 2 ^ 64
    → time ≤ env.now h + 24 * 60 * 60
    → jwt_auth_middleware env tokens (some (String.◌++◌ "Bearer " token)) time ≡ ok tt
unfolding jwt_auth_middleware generate_token
jwt_auth_middleware-generate_token env tokens username token h time issued small soon =
    let whole : (env.now h + 24 * 60 * 60) % 2 ^ 64 ≡ env.now h + 24 * 60 * 60 =
      omega (arith, small) in
    let (read, valid) = tokens.decode-encode _ _ token time issued (rw whole soon) in
    rw (stripped token, of_chars-chars token, valid) refl
