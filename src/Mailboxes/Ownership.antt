-- ===== src/Mailboxes/Ownership.antt =====
-- What the calls on the members of a mailbox change, and that none shuts the owner out.
use uni_mailbox.Prelude.{
  ℕ, ◌&&◌, List, [], ◌∷◌, Option, none, some, ◌≡◌, refl, arith, ◌==◌, if◌then◌else◌, find_where,
  delete_where,
}
use uni_mailbox.Domain.{ok, err, Result}
use uni_mailbox.Schema.{Database, Mailbox, MailboxMember, MailboxRole}
use uni_mailbox.Mailboxes.{
  Principal, owner, find_access, is_live_mailbox, is_membership, put_member, upsert_member,
  remove_member,
}

-- The role of a user in the member table.
abbrev pub role_of : (mailbox_id user_id : ℕ) → List MailboxMember → Option MailboxRole
role_of mailbox_id user_id members = elim (find_where (is_membership mailbox_id user_id) members) [
  | none ↦ none
  | some r ↦ some r.role
]

role_of-put_member :
    (mailbox_id user_id : ℕ) (role : MailboxRole) (now : ℕ) (xs : List MailboxMember) (b v : ℕ)
    → role_of b v (put_member mailbox_id user_id role now xs)
      ≡ (if mailbox_id == b && user_id == v then some role else role_of b v xs)
unfolding put_member
role_of-put_member mailbox_id user_id role now [] b v = ground arith
role_of-put_member mailbox_id user_id role now (r ∷ xs) b v =
    ground (arith, role_of-put_member mailbox_id user_id role now xs b v)

role_of-delete :
    (mailbox_id user_id : ℕ) (xs : List MailboxMember) (b v : ℕ)
    → role_of b v (delete_where (is_membership mailbox_id user_id) xs)
      ≡ (if mailbox_id == b && user_id == v then none else role_of b v xs)
role_of-delete mailbox_id user_id [] b v = ground arith
role_of-delete mailbox_id user_id (r ∷ xs) b v =
    ground (arith, role_of-delete mailbox_id user_id xs b v)

-- A membership change that is let through gives the named user the named role in that mailbox, and
-- leaves the role of every other user, and every role in another mailbox, as it was.
pub upsert_member-role_of :
    (p : Principal) (mailbox_id user_id : ℕ) (role : MailboxRole) (now : ℕ) (db after : Database)
    → upsert_member p mailbox_id user_id role now db ≡ ok after
    → (b v : ℕ)
    → role_of b v after.members
      ≡ (if mailbox_id == b && user_id == v then some role else role_of b v db.members)
unfolding upsert_member
upsert_member-role_of p mailbox_id user_id role now db after h b v =
    ground (arith, role_of-put_member mailbox_id user_id role now db.members b v)

-- A removal that is let through takes the named user's role in that mailbox, and leaves the role of
-- every other user, and every role in another mailbox, as it was.
pub remove_member-role_of :
    (p : Principal) (mailbox_id user_id : ℕ) (db after : Database)
    → remove_member p mailbox_id user_id db ≡ ok after
    → (b v : ℕ)
    → role_of b v after.members
      ≡ (if mailbox_id == b && user_id == v then none else role_of b v db.members)
unfolding remove_member
remove_member-role_of p mailbox_id user_id db after h b v =
    ground (arith, role_of-delete mailbox_id user_id db.members b v)

-- The calls that change who is a member, by whatever principal.
pub data MemberCall : Type 0 where
  upserts : Principal → (mailbox_id user_id : ℕ) → MailboxRole → ℕ → MemberCall
  removes : Principal → (mailbox_id user_id : ℕ) → MemberCall

-- A call that is refused changes nothing.
abbrev after : Database → Result Database → Database
after db (ok next) = next
after db (err e) = db

pub run_call : MemberCall → Database → Database
run_call (upserts p mailbox_id user_id role now) db =
    after db (upsert_member p mailbox_id user_id role now db)
run_call (removes p mailbox_id user_id) db = after db (remove_member p mailbox_id user_id db)

pub run_calls : List MemberCall → Database → Database
run_calls [] db = db
run_calls (c ∷ cs) db = run_calls cs (run_call c db)

run_call-mailboxes : (c : MemberCall) (db : Database) → (run_call c db).mailboxes ≡ db.mailboxes
unfolding run_call upsert_member remove_member
run_call-mailboxes (upserts p mailbox_id user_id role now) db = ground arith
run_call-mailboxes (removes p mailbox_id user_id) db = ground arith

run_calls-mailboxes :
    (cs : List MemberCall) (db : Database) → (run_calls cs db).mailboxes ≡ db.mailboxes
unfolding run_calls
run_calls-mailboxes [] db = refl
run_calls-mailboxes (c ∷ cs) db =
    cc (run_calls-mailboxes cs (run_call c db), run_call-mailboxes c db)

-- Whatever membership calls are made, by anybody, the owner of a live mailbox keeps the owner's
-- access.
pub owner-keeps-access :
    (cs : List MemberCall) (db : Database) (mailbox_id : ℕ) (m : Mailbox)
    → find_where (is_live_mailbox mailbox_id) db.mailboxes ≡ some m
    → find_access (run_calls cs db) m.owner_user_id mailbox_id ≡ some owner
unfolding find_access
owner-keeps-access cs db mailbox_id m h = ground (arith, run_calls-mailboxes cs db)
