-- ===== src/Mailboxes.antt =====
-- apps/worker/src/modules/authorization/index.ts: which role may do what in a mailbox, and
-- apps/worker/src/modules/mailboxes/index.ts: MailboxApplicationService. `trim`, `lower` and the
-- NOCASE comparison of addresses are parameters; audit rows are not kept.
pub mod Permissions
pub mod Ownership
pub mod Quota
pub mod Tests
use Prim.Native.String.{◌++◌ as concat}
use text.Mathlib.Text.{◌==◌ as str_eq}
use uni_mailbox.Prelude.{
  ℕ, ◌+◌, String, Bool, true, false, ◌&&◌, ◌||◌, not, List, [], ◌∷◌, ◌++◌, Option, none, some, ltb,
  leb, ◌==◌, if◌then◌else◌, find_where, update_where, delete_where, count_where, filter, any,
  is_some_and,
}
use uni_mailbox.Domain.{Result, ok, err, ◌>>=◌, ◌>>◌, Thrown, domain_error, guard, or_throw}
use uni_mailbox.Schema.{
  Database, Mailbox, MailboxStatus, MailboxMember, MailboxRole, viewer, sender, admin, MailDomain,
  DomainStatus, current_timestamp,
}

pub data MailboxOperation : Type 0 where
  read send rename manage_members delete_message delete_mailbox : MailboxOperation

pub data AccessRole : Type 0 where
  owner : AccessRole
  member : MailboxRole → AccessRole

-- roleOperations
unfoldable pub role_allows : AccessRole → MailboxOperation → Bool
role_allows owner op = true
role_allows (member viewer) read = true
role_allows (member sender) read = true
role_allows (member sender) send = true
role_allows (member admin) read = true
role_allows (member admin) send = true
role_allows (member admin) rename = true
role_allows (member admin) manage_members = true
role_allows (member r) op = false

abbrev pub is_deleted : MailboxStatus → Bool
is_deleted MailboxStatus.deleted = true
is_deleted _ = false

abbrev pub is_active : MailboxStatus → Bool
is_active MailboxStatus.active = true
is_active _ = false

abbrev pub is_live_mailbox : ℕ → Mailbox → Bool
is_live_mailbox mailbox_id m = m.id == mailbox_id && not (is_deleted m.status)

abbrev pub is_membership : (mailbox_id user_id : ℕ) → MailboxMember → Bool
is_membership mailbox_id user_id r = r.mailbox_id == mailbox_id && r.user_id == user_id

abbrev pub role_in : (user_id mailbox_id : ℕ) → List MailboxMember → Mailbox → Option AccessRole
role_in user_id mailbox_id members m =
    if m.owner_user_id == user_id
    then some owner
    else elim (find_where (is_membership mailbox_id user_id) members) [
      | none ↦ none
      | some r ↦ some (member r.role)
    ]

unfoldable pub find_access : Database → (user_id mailbox_id : ℕ) → Option AccessRole
find_access db user_id mailbox_id = elim (find_where (is_live_mailbox mailbox_id) db.mailboxes) [
  | none ↦ none
  | some m ↦ role_in user_id mailbox_id db.members m
]

abbrev pub permission_denied : Thrown
permission_denied =
    domain_error "MAILBOX_PERMISSION_DENIED" "The operation is not permitted for this mailbox" 403

-- assertMailboxOperation
unfoldable pub assert_operation :
    Database → (user_id mailbox_id : ℕ) → MailboxOperation → Result (Unit {0})
unfolding find_access role_allows
assert_operation db user_id mailbox_id op = elim (find_access db user_id mailbox_id) [
  | none ↦ err permission_denied
  | some role ↦ guard (role_allows role op) permission_denied
]

pub record Principal : Type 0 where
  pub user_id : ℕ
  pub permissions : List String

abbrev reserved_local_parts : List String
reserved_local_parts =
    "abuse" ∷ "admin" ∷ "hostmaster" ∷ "mailer-daemon" ∷ "postmaster" ∷ "root" ∷ "security" ∷ []

abbrev mailbox_create_denied : Thrown
mailbox_create_denied = domain_error "PERMISSION_DENIED" "Permission mailbox.create is required" 403

abbrev local_part_reserved : Thrown
local_part_reserved =
    domain_error "MAILBOX_LOCAL_PART_RESERVED" "This mailbox local part is reserved" 409

abbrev domain_not_active : Thrown
domain_not_active = domain_error "DOMAIN_NOT_ACTIVE" "The managed domain is not active" 409

abbrev quota_exceeded : Thrown
quota_exceeded = domain_error "MAILBOX_QUOTA_EXCEEDED" "The mailbox quota has been reached" 409

abbrev address_conflict : Thrown
address_conflict = domain_error "MAILBOX_ADDRESS_CONFLICT" "This mailbox address already exists" 409

abbrev pub mailbox_not_found : Thrown
mailbox_not_found = domain_error "MAILBOX_NOT_FOUND" "Mailbox not found" 404

abbrev pub owner_membership_invalid : Thrown
owner_membership_invalid =
    domain_error "MAILBOX_OWNER_MEMBERSHIP_INVALID" "The mailbox owner cannot be added as a member"
      409

abbrev is_active_domain : ℕ → MailDomain → Bool
is_active_domain domain_id d =
    d.id == domain_id && (elim d.status [ DomainStatus.active ↦ true | _ ↦ false ])

-- COUNT(*) … WHERE owner_user_id = ? AND status != 'deleted'
abbrev pub owned_count : ℕ → List Mailbox → ℕ
owned_count user_id = count_where (λ m. m.owner_user_id == user_id && not (is_deleted m.status))

module _ (trim lower : String → String) (nocase_eq : String → String → Bool) where
  -- `fresh` is the new UUID, `maximum` the quota of `system_settings`, if that row is there. The
  -- INSERT fails where a mailbox of any status has the address.
  unfoldable pub create :
      (principal : Principal) (local_part : String) (domain_id : ℕ) (display_name : String)
      (maximum : Option ℕ) (fresh now : ℕ)
      → Database
      → Result (Database × Mailbox)
  create principal local_part domain_id display_name maximum fresh now db = do
    guard (any (λ p. str_eq p "mailbox.create") principal.permissions) mailbox_create_denied
    let name = lower (trim local_part)
    guard (not (any (λ r. str_eq r name) reserved_local_parts)) local_part_reserved
    d ← or_throw (find_where (is_active_domain domain_id) db.domains) domain_not_active
    guard (is_some_and (λ most. ltb (owned_count principal.user_id db.mailboxes) most) maximum)
        quota_exceeded
    let address = concat name (concat "@" (lower d.name))
    guard (not (any (λ m. nocase_eq m.address address) db.mailboxes)) address_conflict
    let mailbox : Mailbox = record {
      id = fresh;
      domain_id = d.id;
      owner_user_id = principal.user_id;
      address = address;
      display_name = display_name;
      status = MailboxStatus.active;
      updated_at = current_timestamp now;
    }
    ok (record db { mailboxes = db.mailboxes ++ mailbox ∷ [] }, mailbox)

-- get
unfoldable pub get : Principal → ℕ → Database → Result Mailbox
unfolding assert_operation
get principal mailbox_id db = do
  assert_operation db principal.user_id mailbox_id read
  or_throw (find_where (λ m. m.id == mailbox_id) db.mailboxes) mailbox_not_found

unfoldable pub rename_mailbox : Principal → ℕ → String → ℕ → Database → Result (Database × Mailbox)
unfolding assert_operation get
rename_mailbox principal mailbox_id display_name now db = do
  assert_operation db principal.user_id mailbox_id rename
  let renamed : Database = record db {
    mailboxes =
        update_where (λ m. m.id == mailbox_id && is_active m.status)
          (λ m. record m { display_name = display_name; updated_at = current_timestamp now })
          db.mailboxes;
  }
  mailbox ← get principal mailbox_id renamed
  ok (renamed, mailbox)

abbrev pub mark_deleted : ℕ → Mailbox → Mailbox
mark_deleted now m = record m { status = MailboxStatus.deleted; updated_at = current_timestamp now }

unfoldable pub remove : Principal → ℕ → ℕ → Database → Result Database
unfolding assert_operation
remove principal mailbox_id now db = do
  assert_operation db principal.user_id mailbox_id delete_mailbox
  ok (record db {
    mailboxes = update_where (λ m. m.id == mailbox_id) (mark_deleted now) db.mailboxes;
  })

-- INSERT … ON CONFLICT(mailbox_id, user_id) DO UPDATE
unfoldable pub put_member :
    (mailbox_id user_id : ℕ) → MailboxRole → ℕ → List MailboxMember → List MailboxMember
put_member mailbox_id user_id role now [] =
    record {
      mailbox_id = mailbox_id;
      user_id = user_id;
      role = role;
      updated_at = current_timestamp now;
    }
    ∷ []
put_member mailbox_id user_id role now (r ∷ rest) =
    if is_membership mailbox_id user_id r
    then record r { role = role; updated_at = current_timestamp now } ∷ rest
    else r ∷ put_member mailbox_id user_id role now rest

unfoldable pub upsert_member :
    Principal → (mailbox_id user_id : ℕ) → MailboxRole → ℕ → Database → Result Database
unfolding assert_operation
upsert_member principal mailbox_id user_id role now db = do
  assert_operation db principal.user_id mailbox_id manage_members
  m ← or_throw (find_where (λ m. m.id == mailbox_id) db.mailboxes) mailbox_not_found
  guard (not (m.owner_user_id == user_id)) owner_membership_invalid
  ok (record db { members = put_member mailbox_id user_id role now db.members })

-- A member may leave without any permission.
unfoldable pub remove_member : Principal → (mailbox_id user_id : ℕ) → Database → Result Database
unfolding assert_operation
remove_member principal mailbox_id user_id db = do
  if principal.user_id == user_id
      then ok tt
      else assert_operation db principal.user_id mailbox_id manage_members
  ok (record db { members = delete_where (is_membership mailbox_id user_id) db.members })
