-- ===== src/Mailboxes/Permissions.antt =====
-- Who may do what: the role matrix, and what a refusal or a deleted mailbox means.
use uni_mailbox.Prelude.{
  ℕ, Bool, true, not, List, ◌≢◌, ◌≤◌, subst, ==_eq, Bool-cases, Exists, count_where, count_where-eq,
  find_where-true, find_where-Exists, ◌≡◌, refl, ◌↔◌, none, some, arith, find_where, inl, inr,
  Option-cases, update_where, ◌==◌, [], ◌∷◌,
}
use uni_mailbox.Domain.{ok, err}
use uni_mailbox.Schema.{
  Database, Mailbox, MailboxRole, viewer, sender, admin, MailboxMember, MailboxStatus,
}
use uni_mailbox.Mailboxes.{
  MailboxOperation, read, send, rename, manage_members, AccessRole, owner, member, role_allows,
  find_access, assert_operation, permission_denied, Principal, remove, is_live_mailbox,
  is_membership, is_deleted, role_in, mark_deleted,
}

-- The intended matrix: what each role may do, row by row.
pub data Permits : AccessRole → MailboxOperation → Type 0 where
  owner_any : (op : MailboxOperation) → Permits owner op
  member_read : (r : MailboxRole) → Permits (member r) read
  sender_send : Permits (member sender) send
  admin_send : Permits (member admin) send
  admin_rename : Permits (member admin) rename
  admin_members : Permits (member admin) manage_members

role_allows_complete :
    {r : AccessRole} {op : MailboxOperation} → Permits r op → role_allows r op ≡ true
unfolding role_allows
role_allows_complete (owner_any op) = refl
role_allows_complete (member_read viewer) = refl
role_allows_complete (member_read sender) = refl
role_allows_complete (member_read admin) = refl
role_allows_complete sender_send = refl
role_allows_complete admin_send = refl
role_allows_complete admin_rename = refl
role_allows_complete admin_members = refl

role_allows_sound :
    (r : AccessRole) (op : MailboxOperation) → role_allows r op ≡ true → Permits r op
unfolding role_allows
role_allows_sound owner op h = owner_any op
role_allows_sound (member r) read h = member_read r
role_allows_sound (member sender) send h = sender_send
role_allows_sound (member admin) send h = admin_send
role_allows_sound (member admin) rename h = admin_rename
role_allows_sound (member admin) manage_members h = admin_members
role_allows_sound (member viewer) op h = ground arith
role_allows_sound (member sender) op h = ground arith
role_allows_sound (member admin) op h = ground arith

-- What the user is in a mailbox: its owner, or a member in one of the three roles.
abbrev pub HasRole : Mailbox → (user_id : ℕ) → List MailboxMember → AccessRole → Type 0
HasRole m user_id members owner = m.owner_user_id ≡ user_id
HasRole m user_id members (member role) =
    Exists (λ r. (r.mailbox_id ≡ m.id) × (r.user_id ≡ user_id) × (r.role ≡ role)) members

-- A mailbox that is not deleted, in which the user has a role that permits the operation.
abbrev pub MayDo : Database → (user_id mailbox_id : ℕ) → MailboxOperation → Type 0
MayDo db user_id mailbox_id op =
    Exists
      (λ m.
        (m.id ≡ mailbox_id)
        × (m.status ≢ MailboxStatus.deleted)
        × ((r : AccessRole) × HasRole m user_id db.members r × Permits r op))
      db.mailboxes

none_counted {ℓ} :
    {A : Type ℓ} (P : A → Type 0) (p : A → Bool) (xs : List A)
    → ((x : A) → P x → p x ≡ true)
    → count_where p xs ≡ 0
    → Exists P xs
    → ⊥
none_counted P p [] f c h = h
none_counted P p (x ∷ xs) f c (inl h) = let t = f x h in ground (arith, t, c)
none_counted P p (x ∷ xs) f c (inr h) = none_counted P p xs f (ground (arith, c)) h

-- Of rows with a unique key, the one that exists is the one that is selected.
unique_found {ℓ} :
    {A : Type ℓ} (P : A → Type 0) (p : A → Bool) (xs : List A)
    → ((x : A) → P x → p x ≡ true)
    → count_where p xs ≤ 1
    → Exists P xs
    → (x : A) × (find_where p xs ≡ some x) × P x
unique_found P p [] f c h = absurd h
unique_found P p (x ∷ xs) f c (inl h) = let t = f x h in (x, rw t refl, h)
unique_found P p (x ∷ xs) f c (inr h) = elim (Bool-cases (p x)) [
  | inl k ↦ absurd (none_counted P p xs f (ground (arith, c, k)) h)
  | inr k ↦ let (y, e, q) = unique_found P p xs f (ground (arith, c, k)) h in (y, rw k e, q)
]

live_iff : (s : MailboxStatus) → (not (is_deleted s) ≡ true) ↔ (s ≢ MailboxStatus.deleted)
live_iff MailboxStatus.active = ((λ t e. ground (arith, e)), λ n. refl)
live_iff MailboxStatus.disabled = ((λ t e. ground (arith, e)), λ n. refl)
live_iff MailboxStatus.deleted = ((λ t e. ground (arith, t)), λ n. absurd (n refl))

-- The role that is found is one that the user has.
role_in-HasRole :
    (user_id mailbox_id : ℕ) (members : List MailboxMember) (m : Mailbox) (r : AccessRole)
    → m.id ≡ mailbox_id
    → role_in user_id mailbox_id members m ≡ some r
    → HasRole m user_id members r
role_in-HasRole user_id mailbox_id members m r same e =
    elim (Bool-cases (m.owner_user_id == user_id)) [
      | inl o ↦
          let is_owner : owner ≡ r = ground (arith, e, o) in
          subst (HasRole m user_id members) is_owner (==_eq m.owner_user_id user_id o)
      | inr o ↦ elim (Option-cases (find_where (is_membership mailbox_id user_id) members)) [
        | inl f ↦ absurd (ground (arith, e, o, f))
        | inr (row, f) ↦
            let is_member : member row.role ≡ r = ground (arith, e, o, f) in
            let found = find_where-true (is_membership mailbox_id user_id) row members f in
            subst (HasRole m user_id members) is_member (
              find_where-Exists
                (λ x. (x.mailbox_id ≡ m.id) × (x.user_id ≡ user_id) × (x.role ≡ row.role))
                (is_membership mailbox_id user_id) row members f
                (ground (arith, found, same), ground (arith, found), refl))
      ]
    ]

-- A user with a role that permits the operation is found in a role that permits it.
HasRole-role_in :
    (user_id mailbox_id : ℕ) (members : List MailboxMember) (m : Mailbox) (r : AccessRole)
    (op : MailboxOperation)
    → m.id ≡ mailbox_id
    → count_where (is_membership mailbox_id user_id) members ≤ 1
    → HasRole m user_id members r
    → Permits r op
    → (s : AccessRole) × (role_in user_id mailbox_id members m ≡ some s) × Permits s op
HasRole-role_in user_id mailbox_id members m owner op same one h p = (owner, ground (arith, h), p)
HasRole-role_in user_id mailbox_id members m (member role) op same one h p =
    elim (Bool-cases (m.owner_user_id == user_id)) [
      | inl o ↦ (owner, rw o refl, owner_any op)
      | inr o ↦
          let (row, f, (_, _, is_role)) =
            unique_found (λ x. (x.mailbox_id ≡ m.id) × (x.user_id ≡ user_id) × (x.role ≡ role))
              (is_membership mailbox_id user_id) members (λ x (a, b, _). ground (arith, a, b, same))
              one h in
          (member role, rw (o, f, is_role) refl, p)
    ]

-- Where identifiers of mailboxes and memberships are unique, an operation is let through exactly when
-- there is a mailbox of that identifier that is not deleted, in which the user is the owner, or a
-- member in a role, and the matrix permits the operation to that role.
pub assert_operation_iff :
    (db : Database) (user_id mailbox_id : ℕ) (op : MailboxOperation)
    → count_where (λ m. m.id == mailbox_id) db.mailboxes ≤ 1
    → count_where (is_membership mailbox_id user_id) db.members ≤ 1
    → (assert_operation db user_id mailbox_id op ≡ ok tt) ↔ MayDo db user_id mailbox_id op
unfolding assert_operation find_access
assert_operation_iff db user_id mailbox_id op one_mailbox one_member = (
  (λ h. elim (Option-cases (find_where (is_live_mailbox mailbox_id) db.mailboxes)) [
    | inl e ↦ absurd (ground (arith, h, e))
    | inr (m, e) ↦ elim (Option-cases (role_in user_id mailbox_id db.members m)) [
      | inl f ↦ absurd (ground (arith, h, e, f))
      | inr (r, f) ↦
          let live = find_where-true (is_live_mailbox mailbox_id) m db.mailboxes e in
          let same : m.id ≡ mailbox_id = ==_eq m.id mailbox_id (ground (arith, live)) in
          let there : not (is_deleted m.status) ≡ true = ground (arith, live) in
          let allowed : role_allows r op ≡ true = ground (arith, h, e, f) in
          find_where-Exists _ (is_live_mailbox mailbox_id) m db.mailboxes e (
            same,
            (live_iff m.status).0 there,
            (
              r,
              role_in-HasRole user_id mailbox_id db.members m r same f,
              role_allows_sound r op allowed,
            ),
          )
    ]
  ]),
  λ h.
      let fewer =
        (count_where-eq (is_live_mailbox mailbox_id) (λ m. m.id == mailbox_id)
          (λ x v. ground (arith, v)) db.mailboxes).0 in
      let (m, e, (same, there, (r, has, p))) =
        unique_found _ (is_live_mailbox mailbox_id) db.mailboxes
          (λ x (a, b, _). let t = (live_iff x.status).1 b in ground (arith, a, t))
          (omega (arith, fewer, one_mailbox)) h in
      let (s, f, q) = HasRole-role_in user_id mailbox_id db.members m r op same one_member has p in
      let allowed = role_allows_complete q in
      rw (assert_operation, find_access, e, f, allowed) refl,
)

find_where-mark_deleted :
    (mailbox_id now : ℕ) (xs : List Mailbox)
    → find_where
        (is_live_mailbox mailbox_id)
        (update_where (λ m. m.id == mailbox_id) (mark_deleted now) xs)
      ≡ none
unfolding update_where
find_where-mark_deleted mailbox_id now [] = refl
find_where-mark_deleted mailbox_id now (m ∷ xs) =
    ground (arith, find_where-mark_deleted mailbox_id now xs)

-- Only the owner deletes a mailbox, and from then on every operation on it is refused to everybody,
-- its owner included.
remove-closes :
    (p : Principal) (mailbox_id now : ℕ) (db after : Database)
    → remove p mailbox_id now db ≡ ok after
    → (find_access db p.user_id mailbox_id ≡ some owner)
      × ((user_id : ℕ) (op : MailboxOperation)
          → assert_operation after user_id mailbox_id op ≡ err permission_denied)
unfolding remove find_access
remove-closes p mailbox_id now db after h = (
  ground arith,
  λ user_id op. ground (arith, find_where-mark_deleted mailbox_id now db.mailboxes),
)
