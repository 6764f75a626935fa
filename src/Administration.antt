-- ===== src/Administration.antt =====
-- apps/worker/src/modules/administration/index.ts: createUser, updateUser, deleteUser, createRole,
-- updateRole and deleteRole. The tables of users, sessions and the roles of users are Identity's, with
-- the roles beside them; the rows of `permissions` are the declared permissions. A statement that a
-- constraint of the schema refuses makes its batch fail. Parameters as in Identity.
pub mod Deleted
pub mod Tests
use Prim.Native.String.{◌++◌ as concat}
use package.text.Mathlib.Text.{◌==◌ as str_eq}
use uni_mailbox.Prelude.{
  ℕ, ◌+◌, String, Bool, true, false, ◌&&◌, ◌||◌, not, List, [], ◌∷◌, ◌++◌, map, filter, any, length,
  Option, none, some, or_else, ltb, ◌==◌, if◌then◌else◌, find_where, update_where, delete_where,
  count_where, is_none,
}
use uni_mailbox.Domain.{
  Result, ok, err, ◌>>=◌, ◌>>◌, Thrown, other, domain_error, guard, or_throw, permission_keys,
}
use uni_mailbox.Schema.{Database, Mailbox, MailboxRole, MailboxStatus, current_timestamp}
use uni_mailbox.Mailboxes.{put_member}
use uni_mailbox.Identity.{
  Accounts, User, UserStatus, UserRole, RolePermission, Session, PasswordRecord, hash_password,
  revoked, user_not_found,
}
use uni_mailbox.Identity.Service.{revoke_all}

pub record Role : Type 0 where
  pub id : ℕ
  pub name : String
  pub description : String
  pub is_system : Bool

pub record Directory : Type 0 where
  pub accounts : Accounts
  pub roles : List Role

pub record Administrator : Type 0 where
  pub user_id : ℕ
  pub permissions : List String

abbrev pub permission_missing : String → Thrown
permission_missing permission =
    domain_error "PERMISSION_DENIED" (concat "Permission " (concat permission " is required")) 403

abbrev pub assert_permission : Administrator → String → Result (Unit {0})
assert_permission principal permission =
    guard (any (λ p. str_eq p permission) principal.permissions) (permission_missing permission)

abbrev pub is_permission : String → Bool
is_permission value = any (λ k. str_eq k value) permission_keys

abbrev pub user_create_conflict : Thrown
user_create_conflict =
    domain_error "USER_CREATE_CONFLICT" "The user could not be created with these roles" 409

abbrev pub self_delete_forbidden : Thrown
self_delete_forbidden =
    domain_error "USER_SELF_DELETE_FORBIDDEN" "Administrators cannot delete their active account"
      409

abbrev pub role_permission_invalid : Thrown
role_permission_invalid =
    domain_error "ROLE_PERMISSION_INVALID" "One or more permissions are invalid" 400

abbrev pub role_not_found : Thrown
role_not_found = domain_error "ROLE_NOT_FOUND" "Role not found" 404

abbrev pub role_immutable : Thrown
role_immutable = domain_error "SYSTEM_ROLE_IMMUTABLE" "System roles cannot be changed" 409

abbrev pub role_undeletable : Thrown
role_undeletable =
    domain_error "SYSTEM_ROLE_IMMUTABLE" "System or missing roles cannot be deleted" 409

abbrev pub is_deleted : UserStatus → Bool
is_deleted UserStatus.deleted = true
is_deleted _ = false

abbrev repeats_id : List ℕ → Bool
repeats_id [] = false
repeats_id (x ∷ xs) = any (λ y. y == x) xs || repeats_id xs

abbrev repeats_text : List String → Bool
repeats_text [] = false
repeats_text (x ∷ xs) = any (λ y. str_eq y x) xs || repeats_text xs

-- INSERT INTO user_roles for each role: the key is the pair, and the role exists.
abbrev pub accepts_roles : List ℕ → List Role → Bool
accepts_roles [] roles = true
accepts_roles (r ∷ rs) roles =
    any (λ x. x.id == r) roles && not (any (λ y. y == r) rs) && accepts_roles rs roles

abbrev roles_of : (user_id : ℕ) → List ℕ → List UserRole
roles_of user_id = map (λ r. record { user_id = user_id; role_id = r })

module _ (derive : String → List ℕ → ℕ → List ℕ) (normalize_email : String → String)
    (nocase_eq : String → String → Bool) where
  abbrev created_user :
      (id : ℕ) (email password display_name : String) (salt : List ℕ) (now : ℕ) → User
  created_user id email password display_name salt now = record {
    id = id;
    email = normalize_email email;
    password = hash_password derive password salt;
    status = UserStatus.active;
    display_name = display_name;
    updated_at = current_timestamp now;
  }

  unfoldable pub create_user :
      Administrator
      → (email password display_name : String) (role_ids : List ℕ) (id : ℕ) (salt : List ℕ)
        (now : ℕ)
      → Directory
      → Result Directory
  create_user principal email password display_name role_ids id salt now db = do
    assert_permission principal "user.manage"
    guard
        (not (any (λ u. u.id == id || nocase_eq u.email (normalize_email email)) db.accounts.users)
          && accepts_roles role_ids db.roles)
        user_create_conflict
    ok (record db {
      accounts = record db.accounts {
        users = db.accounts.users ++ created_user id email password display_name salt now ∷ [];
        user_roles = db.accounts.user_roles ++ roles_of id role_ids;
      };
    })

-- COALESCE(?, status)
abbrev pub status_or : (suspend : Option Bool) → UserStatus → UserStatus
status_or none s = s
status_or (some true) s = UserStatus.suspended
status_or (some false) s = UserStatus.active

pub record UserChange : Type 0 where
  pub display_name : Option String
  pub suspend : Option Bool
  pub role_ids : Option (List ℕ)

abbrev pub changed_user : UserChange → (now : ℕ) → User → User
changed_user c now u = record u {
  display_name = or_else c.display_name u.display_name;
  status = status_or c.suspend u.status;
  updated_at = current_timestamp now;
}

abbrev suspends : Option Bool → Bool
suspends (some true) = true
suspends _ = false

-- The batch of `updateUser`; a user or role that is missing, or a role that stands twice, makes it
-- fail.
unfoldable pub update_user :
    Administrator → (user_id : ℕ) → UserChange → (now : ℕ) → Directory → Result Directory
update_user principal user_id c now db = do
  assert_permission principal "user.manage"
  let changed : Accounts = record db.accounts {
    users =
        update_where (λ u. u.id == user_id && not (is_deleted u.status)) (changed_user c now)
          db.accounts.users;
  }
  let assigned : Accounts = record changed {
    user_roles = elim c.role_ids [
      | none ↦ changed.user_roles
      | some ids ↦
          delete_where (λ r. r.user_id == user_id) changed.user_roles ++ roles_of user_id ids
    ];
  }
  guard
      (elim c.role_ids [
        | none ↦ true
        | some ids ↦
            accepts_roles ids db.roles
            && (length ids == 0 || any (λ u. u.id == user_id) db.accounts.users)
      ])
      other
  ok (record db {
    accounts = record assigned {
      sessions =
          if suspends c.suspend
          then update_where (λ s. s.user_id == user_id && is_none s.revoked_at) (revoked now)
              assigned.sessions
          else assigned.sessions;
    };
  })

abbrev pub mark_user_deleted : ℕ → User → User
mark_user_deleted now u = record u {
  status = UserStatus.deleted;
  updated_at = current_timestamp now;
}

unfoldable pub delete_user : Administrator → (user_id now : ℕ) → Directory → Result Directory
delete_user principal user_id now db = do
  assert_permission principal "user.manage"
  guard (not (principal.user_id == user_id)) self_delete_forbidden
  ok (record db {
    accounts = record db.accounts {
      users = update_where (λ u. u.id == user_id) (mark_user_deleted now) db.accounts.users;
      sessions =
          update_where (λ s. s.user_id == user_id && is_none s.revoked_at) (revoked now)
            db.accounts.sessions;
    };
  })

-- `new Set(…).size`
abbrev distinct_count : List String → ℕ
distinct_count [] = 0
distinct_count (x ∷ xs) =
    if any (λ y. str_eq y x) xs then distinct_count xs else 1 + distinct_count xs

-- The permissions that are declared, if that is all.
unfoldable pub check_permissions : List String → Result (List String)
check_permissions permissions =
    let valid = filter is_permission permissions in
    guard (length valid == distinct_count permissions) role_permission_invalid >> ok valid

abbrev permissions_of : (role_id : ℕ) → List String → List RolePermission
permissions_of role_id = map (λ k. record { role_id = role_id; permission_key = k })

unfoldable pub create_role :
    (trim : String → String)
    → Administrator
    → (id : ℕ) (name description : String) (permissions : List String) → Directory
    → Result Directory
create_role trim principal id name description permissions db = do
  assert_permission principal "role.manage"
  valid ← check_permissions permissions
  guard
      (not (repeats_text valid)
        && not (any (λ r. r.id == id || str_eq r.name (trim name)) db.roles))
      other
  ok (record db {
    roles =
        db.roles
        ++ record { id = id; name = trim name; description = description; is_system = false } ∷ [];
    accounts = record db.accounts {
      role_permissions = db.accounts.role_permissions ++ permissions_of id valid;
    };
  })

unfoldable pub update_role :
    Administrator
    → (id : ℕ) (description : String) (permissions : List String) → Directory
    → Result Directory
update_role principal id description permissions db = do
  assert_permission principal "role.manage"
  role ← or_throw (find_where (λ r. r.id == id) db.roles) role_not_found
  guard (not role.is_system) role_immutable
  valid ← check_permissions permissions
  guard (not (repeats_text valid)) other
  ok (record db {
    roles = update_where (λ r. r.id == id) (λ r. record r { description = description }) db.roles;
    accounts = record db.accounts {
      role_permissions =
          delete_where (λ p. p.role_id == id) db.accounts.role_permissions
          ++ permissions_of id valid;
    };
  })

-- The rows that refer to the role go with it (ON DELETE CASCADE).
unfoldable pub delete_role : Administrator → (id : ℕ) → Directory → Result Directory
delete_role principal id db = do
  assert_permission principal "role.manage"
  guard (count_where (λ r. r.id == id && not r.is_system) db.roles == 1) role_undeletable
  ok (record db {
    roles = delete_where (λ r. r.id == id && not r.is_system) db.roles;
    accounts = record db.accounts {
      user_roles = delete_where (λ r. r.role_id == id) db.accounts.user_roles;
      role_permissions = delete_where (λ p. p.role_id == id) db.accounts.role_permissions;
    };
  })
