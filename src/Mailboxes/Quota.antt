-- ===== src/Mailboxes/Quota.antt =====
-- The quota of mailboxes per user.
use uni_mailbox.Prelude.{
  ℕ, ◌+◌, ◌≤◌, ◌<◌, String, Bool, false, List, [], ◌∷◌, ◌++◌, some, ◌≡◌, ◌≢◌, arith, count_where,
}
use uni_mailbox.Domain.{ok}
use uni_mailbox.Schema.{Database, Mailbox}
use uni_mailbox.Mailboxes.{Principal, owned_count, create, is_deleted}

count_where-append {ℓ} :
    {A : Type ℓ} (p : A → Bool) (xs ys : List A)
    → count_where p (xs ++ ys) ≡ count_where p xs + count_where p ys
count_where-append p [] ys = omega arith
count_where-append p (x ∷ xs) ys = omega (arith, count_where-append p xs ys)

module _ (trim lower : String → String) (nocase_eq : String → String → Bool) where
  create_inv :
      (p : Principal) (local_part : String) (domain_id : ℕ) (display_name : String)
      (most fresh now : ℕ) (db after : Database) (m : Mailbox)
      → create trim lower nocase_eq p local_part domain_id display_name (some most) fresh now db
        ≡ ok (after, m)
      → (after.mailboxes ≡ db.mailboxes ++ m ∷ [])
        × (m.owner_user_id ≡ p.user_id)
        × (is_deleted m.status ≡ false)
        × (owned_count p.user_id db.mailboxes < most)
  unfolding create
  create_inv p local_part domain_id display_name most fresh now db after m h = ground arith

  -- A mailbox is created only below the quota: afterwards the creator owns one live mailbox more,
  -- at most `most` in all, and any other user as many as before.
  pub create-owned_count :
      (p : Principal) (local_part : String) (domain_id : ℕ) (display_name : String)
      (most fresh now : ℕ) (db after : Database) (m : Mailbox) (other : ℕ)
      → create trim lower nocase_eq p local_part domain_id display_name (some most) fresh now db
        ≡ ok (after, m)
      → other ≢ p.user_id
      → (owned_count p.user_id after.mailboxes ≡ owned_count p.user_id db.mailboxes + 1)
        × (owned_count p.user_id after.mailboxes ≤ most)
        × (owned_count other after.mailboxes ≡ owned_count other db.mailboxes)
  create-owned_count p local_part domain_id display_name most fresh now db after m other h ne =
      let (rows, mine, live, room) =
        create_inv p local_part domain_id display_name most fresh now db after m h in
      (
        rw (rows, count_where-append _ db.mailboxes (m ∷ [])) (ground arith),
        rw (rows, count_where-append _ db.mailboxes (m ∷ [])) (ground arith),
        rw (rows, count_where-append _ db.mailboxes (m ∷ [])) (ground arith),
      )
