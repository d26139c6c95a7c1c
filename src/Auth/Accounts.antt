-- ===== src/Auth/Accounts.antt =====
-- domains/auth/handlers.rs with services.rs and models.rs: login and sign-up. The status and the
-- text of an error are those of the response.
use atlas_of_us.Prelude.{
  ℕ, ◌+◌, ◌*◌, ◌%◌, ◌^◌, String, Bool, true, false, not, ◌&&◌, Option, none, some, List, [], ◌∷◌,
  ◌==◌,
}
use atlas_of_us.Effects.Defs.{
  Result, ok, err, Eff, pure, lift, call, ◌>>=◌, ◌>>◌, unwrap_or, with_err,
}

pub record LoginRequest : Type 0 where
  pub username : String
  pub password : String

pub record SignUpRequest : Type 0 where
  pub username : String
  pub password : String
  pub phone : String

pub record AuthResponse : Type 0 where
  pub token : String

pub record ErrorResponse : Type 0 where
  pub status : ℕ
  pub error : String

pub record JwtClaims : Type 0 where
  pub sub : String
  pub exp : ℕ
  pub iat : ℕ
  pub iss : String

-- `argon2::password_hash::Error`, of which the code tells one apart.
pub data HashError : Type 0 where
  wrong_password : HashError
  other_error : String → HashError

pub data AuthCall : Type 0 where
  query_people : String → List (String × String) → AuthCall
  create_person : String → List (String × String) → AuthCall

-- A row gives a text for a key, or fails to.
abbrev pub AuthRow : Type 0
AuthRow = String → Option String

-- Neo4j, argon2, jsonwebtoken, the clock and the environment.
pub record AuthServices : Type 1 where
  pub Hash : Type 0
  pub query :
      List AuthCall → String → List (String × String) → Result String (List (Result String AuthRow))
  pub create : List AuthCall → String → List (String × String) → Result String (Unit {0})
  -- Hashing draws a salt.
  pub argon_hash : List AuthCall → String → Result HashError String
  pub parse_hash : String → Result HashError Hash
  pub argon_verify : String → Hash → Result HashError (Unit {0})
  pub env_var : String → Option String
  pub now : List AuthCall → ℕ
  pub encode : JwtClaims → String → Result String String

abbrev pub internal_error : ErrorResponse
internal_error = record { status = 500; error = "internal server error" }

abbrev pub bad_request : ErrorResponse
bad_request = record { status = 400; error = "invalid request" }

-- The loop that collects the rows; a row that cannot be read ends it.
unfoldable pub all_rows : List (Result String AuthRow) → Result ErrorResponse (List AuthRow)
all_rows [] = ok []
all_rows (err e ∷ rows) = err internal_error
all_rows (ok row ∷ rows) = elim (all_rows rows) [ ok rest ↦ ok (row ∷ rest) | err e ↦ err e ]

abbrev pub rows_of :
    Result String (List (Result String AuthRow)) → Result ErrorResponse (List AuthRow)
rows_of (err e) = err internal_error
rows_of (ok rows) = all_rows rows

-- The password in the only row.
abbrev pub stored_password : List AuthRow → Result ErrorResponse String
stored_password (row ∷ []) = elim (row "n.password") [
  | some password ↦ ok password
  | none ↦ err internal_error
]
stored_password _ = err (record { status = 401; error = "Username and password combo not found!" })

-- `validate`: each field has at least one character.
abbrev pub valid_login : LoginRequest → Bool
valid_login r = not (r.username == "") && not (r.password == "")

abbrev pub valid_signup : SignUpRequest → Bool
valid_signup r = not (r.username == "") && not (r.password == "") && not (r.phone == "")

abbrev pub check : Bool → Result ErrorResponse (Unit {0})
check true = ok tt
check false = err bad_request

-- A row means that the name or the phone is taken.
abbrev pub unless_known : List AuthRow → Result ErrorResponse (Unit {0})
unless_known [] = ok tt
unless_known (row ∷ rows) =
    err (record { status = 406; error = "Username or phone number already exists!" })

module _ (env : AuthServices) where
  abbrev pub compared : Result HashError (Unit {0}) → Result HashError Bool
  compared (ok u) = ok true
  compared (err wrong_password) = ok false
  compared (err (other_error e)) = err (other_error e)

  abbrev pub compare_with : String → Result HashError env.Hash → Result HashError Bool
  compare_with password (err e) = err e
  compare_with password (ok hash) = compared (env.argon_verify password hash)

  unfoldable pub verify_password : String → String → Result HashError Bool
  verify_password password hash = compare_with password (env.parse_hash hash)

  -- A token for 24 hours; `usize` has 64 bits.
  unfoldable pub generate_token : String → Eff AuthCall String String
  generate_token username h =
      let jwt_secret = unwrap_or (env.env_var "JWT_SECRET") "your-secret-key" in
      (
        env.encode
            (record {
              sub = username;
              iss = username;
              exp = (env.now h + 24 * 60 * 60) % 2 ^ 64;
              iat = env.now h;
            })
            jwt_secret,
        h,
      )

  unfoldable pub respond : String → Eff AuthCall ErrorResponse AuthResponse
  unfolding generate_token
  respond username = do
    token ← with_err (λ e. internal_error) (generate_token username)
    pure (record { token = token })

  abbrev pub accept : Result HashError Bool → Result ErrorResponse (Unit {0})
  accept (ok true) = ok tt
  accept (ok false) = err (record { status = 401; error = "invalid username or password" })
  accept (err e) = err internal_error

  abbrev pub query_rows :
      String → List (String × String) → Eff AuthCall ErrorResponse (List AuthRow)
  query_rows text params = call (query_people text params) (λ h. rows_of (env.query h text params))

  unfoldable pub login : LoginRequest → Eff AuthCall ErrorResponse AuthResponse
  unfolding all_rows verify_password respond
  login login_req = do
    lift (check (valid_login login_req))
    rows ←
        query_rows "MATCH (n:Person) WHERE n.username = $username RETURN n.password"
          (("username", login_req.username) ∷ [])
    stored ← lift (stored_password rows)
    lift (accept (verify_password login_req.password stored))
    respond login_req.username

  unfoldable pub hash_password : String → Eff AuthCall HashError String
  hash_password password h = (env.argon_hash h password, h)

  unfoldable pub signup : SignUpRequest → Eff AuthCall ErrorResponse AuthResponse
  unfolding all_rows hash_password respond
  signup signup_req = do
    lift (check (valid_signup signup_req))
    rows ←
        query_rows "MATCH (n:Person) WHERE n.phone = $phone OR n.username = $username RETURN n"
          (("username", signup_req.username) ∷ ("phone", signup_req.phone) ∷ [])
    lift (unless_known rows)
    hashed_password ← with_err (λ e. internal_error) (hash_password signup_req.password)
    let text : String =
        "CREATE (p:Person:L3 { username: $username, password: $password, phone: $phone })"
    let params : List (String × String) =
        ("username", signup_req.username)
        ∷ ("password", hashed_password)
        ∷ ("phone", signup_req.phone)
        ∷ []
    with_err (λ e. internal_error)
        (call (create_person text params) (λ h. env.create h text params))
    respond signup_req.username
