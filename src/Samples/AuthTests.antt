-- ===== src/Samples/AuthTests.antt =====
-- The theorems on accounts where one account has the name "ada".
use atlas_of_us.Prelude.{arith, String, ◌≡◌, refl, none, some, [], ◌∷◌, ◌==◌, if◌then◌else◌}
use atlas_of_us.Effects.Defs.{ok, ◌>>=◌}
use atlas_of_us.Auth.Accounts.{
  AuthServices, JwtClaims, AuthRow, LoginRequest, SignUpRequest, login, signup, all_rows,
  verify_password, respond, generate_token, hash_password,
}
use Prim.Native.String
use atlas_of_us.Auth.Tokens.{TokenCheck, jwt_auth_middleware, jwt_auth_middleware-generate_token}
use atlas_of_us.Auth.Access.{IsVerified, login-IsVerified, IsRegistered, signup-IsRegistered}

abbrev account : AuthRow
account = λ key. some "hash"

abbrev accounts : AuthServices
accounts = record {
  Hash = String;
  query = λ h text params.
      if text == "MATCH (n:Person) WHERE n.username = $username RETURN n.password"
      then ok (ok account ∷ [])
      else ok [];
  create = λ h text params. ok tt;
  argon_hash = λ h password. ok "hash";
  parse_hash = λ hash. ok hash;
  argon_verify = λ password hash. ok tt;
  env_var = λ name. none;
  now = λ h. 5;
  encode = λ claims secret. ok claims.sub;
}

abbrev ada : LoginRequest
ada = record { username = "ada"; password = "secret" }

ada_logs_in : (login accounts ada []).0 ≡ ok (record { token = "ada" })
unfolding login all_rows verify_password respond generate_token ◌>>=◌
ada_logs_in = refl

login-IsVerified_example : IsVerified accounts ada []
login-IsVerified_example = login-IsVerified accounts ada [] (record { token = "ada" }) ada_logs_in

abbrev grace : SignUpRequest
grace = record { username = "grace"; password = "secret"; phone = "1" }

grace_signs_up : (signup accounts grace []).0 ≡ ok (record { token = "grace" })
unfolding signup all_rows hash_password respond generate_token ◌>>=◌
grace_signs_up = refl

signup-IsRegistered_example : IsRegistered accounts grace [] (signup accounts grace []).1
signup-IsRegistered_example =
    signup-IsRegistered accounts grace [] (record { token = "grace" }) grace_signs_up

abbrev ada_claims : JwtClaims
ada_claims = record { sub = "ada"; exp = 86405; iat = 5; iss = "ada" }

abbrev tokens : TokenCheck accounts
tokens = record {
  decode = λ secret token time. ok ada_claims;
  decode-encode = λ claims secret token time issued soon. (ada_claims, refl);
}

ada_token : (generate_token accounts "ada" []).0 ≡ ok "ada"
unfolding generate_token
ada_token = refl

jwt_auth_middleware-generate_token_example :
    jwt_auth_middleware accounts tokens (some (String.◌++◌ "Bearer " "ada")) 100 ≡ ok tt
jwt_auth_middleware-generate_token_example =
    jwt_auth_middleware-generate_token accounts tokens "ada" "ada" [] 100 ada_token (omega arith)
      (omega arith)
