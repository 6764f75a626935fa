-- ===== src/Identity/Service.antt =====
-- apps/worker/src/modules/identity/application.ts: the calls that check a password or an invitation.
-- Each is split where it yields to the database, so that another call may come between.
use text.Mathlib.Text.{◌==◌ as str_eq}
use uni_mailbox.Prelude.{
  ℕ, ◌+◌, String, Bool, true, false, ◌&&◌, not, List, [], ◌∷◌, ◌++◌, Option, none, some, ltb, ◌==◌,
  if◌then◌else◌, find_where, update_where, any, is_none, is_none_or,
}
use uni_mailbox.Domain.{Result, ok, err, ◌>>=◌, ◌>>◌, guard, or_throw}
use uni_mailbox.Schema.{current_timestamp}
use uni_mailbox.Identity.{
  Accounts, User, UserStatus, is_active_user, PasswordRecord, hash_password, verify_password,
  RegistrationKey, found_user, create_session, AuthTokens, revoked, member_role_id, admin_role_id,
  credentials_invalid, current_password_invalid, administrator_exists, registration_disabled,
  registration_key_required, registration_key_invalid, user_email_conflict, identity_email_exists,
  user_not_found,
}

module _ (derive : String → List ℕ → ℕ → List ℕ) (normalize_email : String → String)
    (nocase_eq : String → String → Bool) (code_digest : String → ℕ) where
  abbrev has_email : String → User → Bool
  has_email email u = nocase_eq u.email email

  -- insertUserStatement; the unique index of the address makes it fail.
  abbrev new_user : (id : ℕ) (email password display_name : String) (salt : List ℕ) (now : ℕ) → User
  new_user id email password display_name salt now = record {
    id = id;
    email = normalize_email email;
    password = hash_password derive password salt;
    status = UserStatus.active;
    display_name = display_name;
    updated_at = current_timestamp now;
  }

  abbrev is_nobody : List User → Bool
  is_nobody [] = true
  is_nobody (u ∷ us) = false

  unfoldable pub create_first_administrator :
      (email password display_name : String) (id : ℕ) (salt : List ℕ) (now : ℕ)
      → Accounts
      → Result Accounts
  create_first_administrator email password display_name id salt now db = do
    guard (is_nobody db.users) administrator_exists
    ok (record db {
      users = new_user id email password display_name salt now ∷ [];
      user_roles = db.user_roles ++ record { user_id = id; role_id = admin_role_id } ∷ [];
    })

  abbrev pub is_usable : (hash now : ℕ) → RegistrationKey → Bool
  is_usable hash now k =
      k.code_hash == hash
      && is_none k.revoked_at
      && is_none_or (λ e. ltb (current_timestamp now) e) k.expires_at
      && ltb k.used_count k.max_uses

  -- What `register` checks: the settings, and the invitation that it will use.
  unfoldable pub find_invitation :
      (registration_key : Option String) (now : ℕ) → Accounts → Result (Option ℕ)
  find_invitation registration_key now db = do
    s ← or_throw db.settings registration_disabled
    guard s.registration_enabled registration_disabled
    if s.invite_required
        then (do
          code ← or_throw registration_key registration_key_required
          guard (not (str_eq code "")) registration_key_required
          k ←
              or_throw (find_where (is_usable (code_digest code) now) db.registration_keys)
                registration_key_invalid
          ok (some k.id))
        else ok none

  -- UPDATE registration_keys … WHERE id = ? AND used_count < max_uses
  abbrev pub is_open : ℕ → RegistrationKey → Bool
  is_open id k = k.id == id && ltb k.used_count k.max_uses

  abbrev pub used : RegistrationKey → RegistrationKey
  used k = record k { used_count = k.used_count + 1 }

  abbrev pub use_invitation : Option ℕ → List RegistrationKey → List RegistrationKey
  use_invitation none keys = keys
  use_invitation (some id) keys = update_where (is_open id) used keys

  -- The batch of `register`, on the database as it is by then. How many rows the third statement
  -- changed is not looked at.
  unfoldable pub write_user :
      (email password display_name : String) (invitation : Option ℕ) (id : ℕ) (salt : List ℕ)
      (now : ℕ)
      → Accounts
      → Accounts × Result ℕ
  write_user email password display_name invitation id salt now db =
      if any (has_email (normalize_email email)) db.users then (db, err user_email_conflict) else (
        record db {
          users = db.users ++ new_user id email password display_name salt now ∷ [];
          user_roles = db.user_roles ++ record { user_id = id; role_id = member_role_id } ∷ [];
          registration_keys = use_invitation invitation db.registration_keys;
        },
        ok id,
      )

  unfoldable pub register :
      (email password display_name : String) (registration_key : Option String) (id : ℕ)
      (salt : List ℕ) (now : ℕ)
      → Accounts
      → Accounts × Result ℕ
  register email password display_name registration_key id salt now db =
      elim (find_invitation registration_key now db) [
        | err e ↦ (db, err e)
        | ok invitation ↦ write_user email password display_name invitation id salt now db
      ]

  abbrev pub with_password : PasswordRecord → ℕ → User → User
  with_password r now u = record u { password = r; updated_at = current_timestamp now }

  -- `login` behind its rate limit: `fresh` and `token` are drawn for the session, `salt` for a
  -- password that is hashed again.
  unfoldable pub login :
      (digest : ℕ → ℕ) (email password : String) (fresh token : ℕ) (salt : List ℕ) (now : ℕ)
      → Accounts
      → Accounts × Result AuthTokens
  login digest email password fresh token salt now db =
      elim (find_where (has_email (normalize_email email)) db.users) [
        | none ↦ (db, err credentials_invalid)
        | some u ↦
            let checked = verify_password derive password u.password in
            let rehashed : Accounts = record db {
              users =
                  if checked.needs_rehash
                  then update_where (λ x. x.id == u.id)
                      (with_password (hash_password derive password salt) now) db.users
                  else db.users;
            } in
            let (after, tokens) = create_session digest u.id u.email fresh token now rehashed in
            if is_active_user u.status && checked.valid
            then (after, ok tokens)
            else (db, err credentials_invalid)
      ]

  -- The check that the changes of an account share.
  unfoldable pub check_password : (user_id : ℕ) (password : String) → Accounts → Result User
  check_password user_id password db = do
    u ← or_throw (found_user user_id db.users) user_not_found
    guard (verify_password derive password u.password).valid current_password_invalid
    ok u

  abbrev pub revoke_all : (user_id now : ℕ) → Accounts → Accounts
  revoke_all user_id now db = record db {
    sessions =
        update_where (λ s. s.user_id == user_id && is_none s.revoked_at) (revoked now) db.sessions;
  }

  unfoldable pub reset_password :
      (user_id : ℕ) (current_password new_password : String) (salt : List ℕ) (now : ℕ)
      → Accounts
      → Result Accounts
  reset_password user_id current_password new_password salt now db = do
    u ← check_password user_id current_password db
    ok (
        revoke_all user_id now (record db {
          users =
              update_where (λ u. u.id == user_id)
                (with_password (hash_password derive new_password salt) now) db.users;
        }))

  abbrev pub with_email : String → ℕ → User → User
  with_email email now u = record u { email = email; updated_at = current_timestamp now }

  unfoldable pub change_email :
      (user_id : ℕ) (current_password email : String) (now : ℕ) → Accounts → Result Accounts
  change_email user_id current_password email now db = do
    u ← check_password user_id current_password db
    guard (not (any (λ u. has_email (normalize_email email) u && not (u.id == user_id)) db.users))
        identity_email_exists
    ok (
        revoke_all user_id now (record db {
          users =
              update_where (λ u. u.id == user_id) (with_email (normalize_email email) now) db.users;
        }))
