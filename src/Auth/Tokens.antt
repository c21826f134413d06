-- ===== src/Auth/Tokens.antt =====
-- `generateTokens` and `refreshToken` of apps/api/src/auth/auth.service.ts. The tokens are those of
-- `@nestjs/jwt`, the hashes those of `bcryptjs`.
pub mod Sessions
pub mod Laws
use pay_era.Prelude.{
  ℕ, Bool, true, false, not, ◌&&◌, Option, none, some, List, [], ◌∷◌, String, Result, ok, err,
  Action, bad_request, unauthorized, raise, raise_if, pure, ◌>>=◌, ◌>>◌, ◌==◌, is_some, or_else,
  if◌then◌else◌,
}
use pay_era.Prelude.Table.{find_first}
use pay_era.Accounts.Store.{UserRole, User, AdminLog, Store, update_user, create_log}
use pay_era.Accounts.Users.{is_live}

pub record Libraries : Type 0 where
  -- `jwtService.sign` with the access secret and with the refresh secret, at a time.
  pub sign_access : ℕ → UserRole → ℕ → String
  pub sign_refresh : ℕ → UserRole → ℕ → String
  -- `jwtService.decode`: of what it gives, the field `sub`, where it is there.
  pub decode : String → Result (Option ℕ)
  -- Whether `jwtService.verify` returns, at a time, for the refresh secret.
  pub verify : String → ℕ → Bool
  -- `bcrypt.hash` with a salt, and `bcrypt.compare`.
  pub hash : String → String → String
  pub compare : String → String → Bool

pub record Tokens : Type 0 where
  pub access_token : String
  pub refresh_token : String

-- What a request finds: the time, and the random salt.
pub record Ambient : Type 0 where
  pub now : ℕ
  pub salt : String

abbrev pub set_hash : Option String → User → User
set_hash h u = record u { hashed_refresh_token = h }

abbrev pub reuse_log : ℕ → AdminLog
reuse_log id = record {
  actor_user_id = some id;
  action = "TOKEN_REUSE_DETECTED";
  target_type = "USER";
  target_id = id;
  metadata = ("reason", "Refresh token reuse detected - all tokens revoked") ∷ [];
}

-- The branch of `refreshToken` for a token that does not match.
unfoldable pub revoke : ℕ → Action Store Tokens
revoke id = do
  update_user id (set_hash none)
  create_log (reuse_log id)
  raise (unauthorized "Token reuse detected. All sessions revoked. Please log in again.")

-- `!user || !user.hashedRefreshToken`: the user with its hash, where both are there.
abbrev pub with_hash : Option User → Option (User × String)
with_hash none = none
with_hash (some u) = elim u.hashed_refresh_token [ none ↦ none | some h ↦ some (u, h) ]

module _ (lib : Libraries) where
  unfoldable pub generate_tokens : Ambient → ℕ → UserRole → Action Store Tokens
  generate_tokens env id role =
      let tokens : Tokens = record {
        access_token = lib.sign_access id role env.now;
        refresh_token = lib.sign_refresh id role env.now;
      } in
      update_user id (set_hash (some (lib.hash tokens.refresh_token env.salt))) >> pure tokens

  -- `decoded.sub`, or the exception.
  abbrev pub subject : String → Result ℕ
  subject token = elim (lib.decode token) [
    | err e ↦ err (bad_request "Invalid token format")
    | ok none ↦ err (bad_request "Invalid token")
    | ok (some id) ↦ ok id
  ]

  -- `refreshToken` after the user is found.
  unfoldable pub rotate : Ambient → String → User → String → Action Store Tokens
  rotate env token user hash s =
      if not (lib.compare token hash)
      then revoke user.id s
      else if not (lib.verify token env.now)
      then (err (bad_request "Refresh token expired"), s)
      else generate_tokens env user.id user.role s

  unfoldable pub refresh_token : Ambient → String → Action Store Tokens
  refresh_token env token s = elim (subject token) [
    | err e ↦ (err e, s)
    | ok id ↦ elim (with_hash (find_first (is_live id) s.users)) [
      | none ↦ (err (bad_request "Invalid refresh token"), s)
      | some (user, hash) ↦ rotate env token user hash s
    ]
  ]
