-- ===== src/Administration/Tests.antt =====
-- An administrator deletes a user, changes her row and a role, and another user refreshes.
use uni_mailbox.Prelude.{◌+◌, ◌*◌, false, List, [], ◌∷◌, none, some, ◌≢◌, refl, update_where}
use uni_mailbox.Domain.{refresh_token_ttl_seconds}
use uni_mailbox.Identity.{AuthTokens, refresh, find_session, rotate, permissions_for_user}
use uni_mailbox.Identity.Tests.{derive, same_text, nocase, digest, accounts}
use uni_mailbox.Administration.{
  Role, Directory, Administrator, update_user, delete_user, create_role, check_permissions,
}
use uni_mailbox.Administration.Deleted.{Call, run_call, run_calls, delete_user-refresh, kept}

abbrev role : Role
role = record { id = 7; name = "helper"; description = ""; is_system = false }

abbrev directory : Directory
directory = record { accounts = accounts; roles = role ∷ [] }

abbrev administrator : Administrator
administrator = record { user_id = 9; permissions = "user.manage" ∷ "role.manage" ∷ [] }

abbrev without_ann : Directory
without_ann = kept directory (delete_user administrator 1 45000 directory)

abbrev later_calls : List Call
later_calls =
    Call.updates administrator 1
      (record { display_name = none; suspend = some false; role_ids = none }) 46000
    ∷ Call.creates_role administrator 8 "reader" "" ("mailbox.read" ∷ [])
    ∷ Call.refreshes 100 300 47000
    ∷ []

abbrev of_bob : AuthTokens
of_bob = record {
  user_id = 2;
  email = "bob@example.org";
  permissions = [];
  refresh_token = 600;
  refresh_token_expires_at = 50000 + refresh_token_ttl_seconds * 1000;
}

delete_user-refresh_example : of_bob.user_id ≢ 1
unfolding delete_user update_user create_role check_permissions refresh find_session rotate
    permissions_for_user run_call run_calls update_where
delete_user-refresh_example =
    delete_user-refresh derive same_text same_text nocase digest administrator 1 45000 directory
      without_ann later_calls 200 600 50000
      (refresh digest 200 600 50000
        (run_calls derive same_text same_text nocase digest later_calls without_ann).accounts).0
      of_bob refl (tt, (tt, (tt, tt))) refl
