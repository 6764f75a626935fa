-- ===== src/Identity.antt =====
-- apps/worker/src/modules/identity/application.ts: IdentityApplicationService, and PasswordService of
-- modules/identity/index.ts, on the tables of users, sessions, roles and invitations. Parameters:
-- PBKDF2, SHA-256, the fresh tokens and salts, trim and toLowerCase, NOCASE. The address and user
-- agent that a session notes are left out; the rate limits that stand before `register` and `login`
-- are RateLimit.enforce.
pub mod Service
pub mod Sessions
pub mod Invitations
pub mod Tests
use text.Mathlib.Text.{◌==◌ as str_eq}
use Prim.Native.Nat.{bit_or, bit_xor}
use uni_mailbox.Prelude.{
  ℕ, ◌+◌, ◌*◌, ◌/◌, String, Bool, true, false, ◌&&◌, ◌||◌, not, List, [], ◌∷◌, ◌++◌, map, Option,
  none, some, ltb, leb, ◌==◌, if◌then◌else◌, find_where, update_where, count_where, filter, any,
  is_some_and, is_none_or, is_none, length,
}
use uni_mailbox.Domain.{
  Result, ok, err, ◌>>=◌, ◌>>◌, Thrown, domain_error, guard, or_throw, permission_keys,
  refresh_token_ttl_seconds, password_iterations,
}
use uni_mailbox.Schema.{current_timestamp}

pub data UserStatus : Type 0 where
  active suspended deleted : UserStatus

abbrev pub is_active_user : UserStatus → Bool
is_active_user active = true
is_active_user _ = false

pub record PasswordRecord : Type 0 where
  pub hash : List ℕ
  pub salt : List ℕ
  pub iterations : ℕ

pub record User : Type 0 where
  pub id : ℕ
  pub email : String
  pub password : PasswordRecord
  pub status : UserStatus
  pub display_name : String
  pub updated_at : ℕ

pub record Session : Type 0 where
  pub id : ℕ
  pub user_id : ℕ
  pub refresh_token_hash : ℕ
  pub expires_at : ℕ
  pub revoked_at : Option ℕ

pub record RegistrationKey : Type 0 where
  pub id : ℕ
  pub code_hash : ℕ
  pub max_uses : ℕ
  pub used_count : ℕ
  pub expires_at : Option ℕ
  pub revoked_at : Option ℕ

pub record UserRole : Type 0 where
  pub user_id : ℕ
  pub role_id : ℕ

pub record RolePermission : Type 0 where
  pub role_id : ℕ
  pub permission_key : String

pub record RegistrationSettings : Type 0 where
  pub registration_enabled : Bool
  pub invite_required : Bool

pub record Accounts : Type 0 where
  pub users : List User
  pub sessions : List Session
  pub user_roles : List UserRole
  pub role_permissions : List RolePermission
  pub registration_keys : List RegistrationKey
  pub settings : Option RegistrationSettings

-- Row identifiers that the migrations seed.
abbrev pub admin_role_id : ℕ
admin_role_id = 1

abbrev pub member_role_id : ℕ
member_role_id = 2

abbrev pub credentials_invalid : Thrown
credentials_invalid =
    domain_error "AUTH_CREDENTIALS_INVALID" "The email or password is incorrect" 401

abbrev pub current_password_invalid : Thrown
current_password_invalid =
    domain_error "AUTH_CREDENTIALS_INVALID" "The current password is incorrect" 401

abbrev pub refresh_token_invalid : Thrown
refresh_token_invalid =
    domain_error "REFRESH_TOKEN_INVALID" "The refresh token is invalid or expired" 401

abbrev pub refresh_token_reused : Thrown
refresh_token_reused =
    domain_error "REFRESH_TOKEN_REUSED" "The refresh token has already been rotated" 401

abbrev pub administrator_exists : Thrown
administrator_exists =
    domain_error "ADMINISTRATOR_ALREADY_EXISTS" "The first administrator has already been created"
      409

abbrev pub registration_disabled : Thrown
registration_disabled = domain_error "REGISTRATION_DISABLED" "Registration is disabled" 403

abbrev pub registration_key_required : Thrown
registration_key_required =
    domain_error "REGISTRATION_KEY_REQUIRED" "A registration key is required" 403

abbrev pub registration_key_invalid : Thrown
registration_key_invalid =
    domain_error "REGISTRATION_KEY_INVALID" "The registration key is invalid or expired" 403

abbrev pub user_email_conflict : Thrown
user_email_conflict =
    domain_error "USER_EMAIL_CONFLICT" "An account with this email already exists" 409

abbrev pub identity_email_exists : Thrown
identity_email_exists =
    domain_error "IDENTITY_EMAIL_EXISTS" "An account with this login email already exists" 409

abbrev pub user_not_found : Thrown
user_not_found = domain_error "USER_NOT_FOUND" "User not found" 404

-- PasswordService
pub record Verification : Type 0 where
  pub valid : Bool
  pub needs_rehash : Bool

abbrev pub refused : Verification
refused = record { valid = false; needs_rehash = false }

-- The loop over the bytes of two arrays of one length.
unfoldable pub difference : ℕ → List ℕ → List ℕ → ℕ
difference acc (a ∷ as') (b ∷ bs) = difference (bit_or acc (bit_xor a b)) as' bs
difference acc _ _ = acc

module _ (derive : String → List ℕ → ℕ → List ℕ) where
  unfoldable pub hash_password : (password : String) (salt : List ℕ) → PasswordRecord
  hash_password password salt = record {
    hash = derive password salt password_iterations;
    salt = salt;
    iterations = password_iterations;
  }

  -- The record's algorithm is the one there is. `iterations > 0` and at most those of the policy.
  unfoldable pub verify_password : (password : String) → PasswordRecord → Verification
  unfolding difference
  verify_password password r =
      let actual = derive password r.salt r.iterations in
      let same = difference 0 r.hash actual == 0 in
      if leb r.iterations 0 || ltb password_iterations r.iterations
      then refused
      else if length r.hash == length actual
      then record { valid = same; needs_rehash = same && ltb r.iterations password_iterations }
      else refused

-- SELECT DISTINCT permission_key …, and the keys that the program declares.
abbrev pub distinct : List String → List String
distinct [] = []
distinct (x ∷ xs) = x ∷ filter (λ y. not (str_eq y x)) (distinct xs)

unfoldable pub permissions_for_user : Accounts → (user_id : ℕ) → List String
permissions_for_user db user_id =
    filter (λ k. any (λ d. str_eq d k) permission_keys)
      (distinct (
        map (λ p. p.permission_key)
          (filter (λ p. any (λ u. u.user_id == user_id && u.role_id == p.role_id) db.user_roles)
            db.role_permissions)))

-- What a login and a refresh answer: the claims of the access token, and the refresh token.
pub record AuthTokens : Type 0 where
  pub user_id : ℕ
  pub email : String
  pub permissions : List String
  pub refresh_token : ℕ
  pub refresh_token_expires_at : ℕ

abbrev pub is_live_session : (hash now : ℕ) → Session → Bool
is_live_session hash now s =
    s.refresh_token_hash == hash && is_none s.revoked_at && ltb (current_timestamp now) s.expires_at

-- UPDATE sessions … WHERE id = ? AND refresh_token_hash = ? AND revoked_at IS NULL
abbrev pub is_rotatable : (id hash : ℕ) → Session → Bool
is_rotatable id hash s = s.id == id && s.refresh_token_hash == hash && is_none s.revoked_at

-- d1Timestamp(new Date(Date.now() + ttl))
abbrev pub session_expiry : ℕ → ℕ
session_expiry now = (now + refresh_token_ttl_seconds * 1000) / 1000

abbrev pub rotated : (next_hash now : ℕ) → Session → Session
rotated next_hash now s = record s {
  refresh_token_hash = next_hash;
  expires_at = session_expiry now;
}

abbrev pub revoked : ℕ → Session → Session
revoked now s = record s { revoked_at = some (current_timestamp now) }

unfoldable pub logout : (hash now : ℕ) → Accounts → Accounts
logout hash now db = record db {
  sessions =
      update_where (λ s. s.refresh_token_hash == hash && is_none s.revoked_at) (revoked now)
        db.sessions;
}

unfoldable pub logout_all : (user_id now : ℕ) → Accounts → Accounts
logout_all user_id now db = record db {
  sessions =
      update_where (λ s. s.user_id == user_id && is_none s.revoked_at) (revoked now) db.sessions;
}

abbrev pub found_user : ℕ → List User → Option User
found_user id = find_where (λ u. u.id == id)

module _ (digest : ℕ → ℕ) where
  -- What `refresh` reads before it rotates: the session and its user.
  unfoldable pub find_session : (token now : ℕ) → Accounts → Result (Session × User)
  find_session token now db = do
    s ← or_throw (find_where (is_live_session (digest token) now) db.sessions) refresh_token_invalid
    u ← or_throw (found_user s.user_id db.users) refresh_token_invalid
    guard (is_active_user u.status) refresh_token_invalid
    ok (s, u)

  -- The rotation, on the database as it is by then, and the answer.
  unfoldable pub rotate :
      (token next now : ℕ) → Session × User → Accounts → Accounts × Result AuthTokens
  rotate token next now (s, u) db =
      let mine = is_rotatable s.id (digest token) in
      let after : Accounts = record db {
        sessions = update_where mine (rotated (digest next) now) db.sessions;
      } in
      if count_where mine db.sessions == 1
      then (
        after,
        ok (record {
          user_id = s.user_id;
          email = u.email;
          permissions = permissions_for_user after s.user_id;
          refresh_token = next;
          refresh_token_expires_at = now + refresh_token_ttl_seconds * 1000;
        }),
      )
      else (after, err refresh_token_reused)

  unfoldable pub refresh : (token next now : ℕ) → Accounts → Accounts × Result AuthTokens
  refresh token next now db = elim (find_session token now db) [
    | err e ↦ (db, err e)
    | ok found ↦ rotate token next now found db
  ]

  unfoldable pub create_session :
      (user_id : ℕ) (email : String) (id token now : ℕ) → Accounts → Accounts × AuthTokens
  create_session user_id email id token now db = (
    record db {
      sessions =
          db.sessions
          ++ record {
            id = id;
            user_id = user_id;
            refresh_token_hash = digest token;
            expires_at = session_expiry now;
            revoked_at = none;
          }
            ∷ [];
    },
    record {
      user_id = user_id;
      email = email;
      permissions = permissions_for_user db user_id;
      refresh_token = token;
      refresh_token_expires_at = now + refresh_token_ttl_seconds * 1000;
    },
  )
