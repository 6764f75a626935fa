-- ===== src/Identity/Tests.antt =====
-- Sessions and invitations at concrete inputs: one user with one session, one invitation.
use uni_mailbox.Prelude.{
  ℕ, ◌++◌, ◌+◌, ◌*◌, String, Bool, true, false, List, [], ◌∷◌, none, some, ◌≡◌, refl, arith, ◌≢◌,
  update_where,
}
use uni_mailbox.Domain.{Result, ok, err, refresh_token_ttl_seconds}
use uni_mailbox.Identity.{
  Accounts, User, UserStatus, Session, RegistrationKey, AuthTokens, refresh, refresh_token_invalid,
  hash_password, find_session, rotate, permissions_for_user, verify_password,
}
use uni_mailbox.Identity.Service.{write_user, reset_password, check_password}
use uni_mailbox.Identity.Sessions.{
  Call, refreshes, opens, logs_out, run_calls, refresh-once, reset_password-closes,
}
use uni_mailbox.Identity.Invitations.{write_user-exhausted}

abbrev pub derive : String → List ℕ → ℕ → List ℕ
derive password salt iterations = salt

abbrev pub same_text : String → String
same_text s = s

abbrev pub nocase : String → String → Bool
nocase a b = false

abbrev code_digest : String → ℕ
code_digest s = 7

abbrev pub digest : ℕ → ℕ
digest n = n + 1

abbrev ann : User
ann = record {
  id = 1;
  email = "ann@example.org";
  password = record { hash = 5 ∷ []; salt = 5 ∷ []; iterations = 1 };
  status = UserStatus.active;
  display_name = "Ann";
  updated_at = 0;
}

abbrev bob : User
bob = record ann { id = 2; email = "bob@example.org" }

abbrev laptop : Session
laptop = record {
  id = 10;
  user_id = 1;
  refresh_token_hash = 101;
  expires_at = 90;
  revoked_at = none;
}

abbrev phone : Session
phone = record laptop { id = 11; user_id = 2; refresh_token_hash = 201 }

abbrev friend : RegistrationKey
friend = record {
  id = 3;
  code_hash = 7;
  max_uses = 1;
  used_count = 1;
  expires_at = none;
  revoked_at = none;
}

abbrev pub accounts : Accounts
accounts = record {
  users = ann ∷ bob ∷ [];
  sessions = laptop ∷ phone ∷ [];
  user_roles = [];
  role_permissions = [];
  registration_keys = friend ∷ [];
  settings = some (record { registration_enabled = true; invite_required = true });
}

abbrev later_calls : List Call
later_calls =
    refreshes 200 300 50000 ∷ opens 1 "ann@example.org" 12 400 51000 ∷ logs_out 201 52000 ∷ []

refresh-once_example :
    refresh digest 100 500 60000
      (run_calls digest later_calls (refresh digest 100 150 40000 accounts).0)
    ≡ (
      run_calls digest later_calls (refresh digest 100 150 40000 accounts).0,
      err refresh_token_invalid,
    )
unfolding refresh find_session rotate permissions_for_user
refresh-once_example =
    refresh-once digest 100 150 40000 500 60000 later_calls accounts
      (refresh digest 100 150 40000 accounts).0
      (record {
        user_id = 1;
        email = "ann@example.org";
        permissions = [];
        refresh_token = 150;
        refresh_token_expires_at = 40000 + refresh_token_ttl_seconds * 1000;
      })
      (omega arith) refl (refl, (refl, (tt, tt))) refl

abbrev closed_accounts : Accounts
closed_accounts = record accounts {
  users = record ann { password = hash_password derive "new" (6 ∷ []); updated_at = 45 } ∷ bob ∷ [];
  sessions = record laptop { revoked_at = some 45 } ∷ phone ∷ [];
}

abbrev of_bob : AuthTokens
of_bob = record {
  user_id = 2;
  email = "bob@example.org";
  permissions = [];
  refresh_token = 600;
  refresh_token_expires_at = 50000 + refresh_token_ttl_seconds * 1000;
}

reset_password-closes_example : of_bob.user_id ≢ 1
unfolding reset_password check_password verify_password update_where refresh find_session rotate
    permissions_for_user
reset_password-closes_example =
    reset_password-closes digest derive same_text nocase code_digest 1 "old" "new" (6 ∷ []) 45000
      accounts closed_accounts 200 600 50000 (refresh digest 200 600 50000 closed_accounts).0 of_bob
      refl refl

abbrev written : Accounts × Result ℕ
written =
    write_user derive same_text nocase code_digest "cy@example.org" "secret" "Cy" (some 3) 4 [] 1000
      accounts

write_user-exhausted_example :
    (written.1 ≡ ok 4)
    × (written.0.users
        ≡ accounts.users
          ++ record {
            id = 4;
            email = "cy@example.org";
            password = hash_password derive "secret" [];
            status = UserStatus.active;
            display_name = "Cy";
            updated_at = 1;
          }
            ∷ [])
    × (written.0.user_roles ≡ accounts.user_roles ++ record { user_id = 4; role_id = 2 } ∷ [])
    × (written.0.registration_keys ≡ friend ∷ [])
write_user-exhausted_example =
    write_user-exhausted derive same_text nocase code_digest "cy@example.org" "secret" "Cy" 3 4 []
      1000 accounts refl refl
