-- ===== src/Outbound/Delivery.antt =====
-- The mailbox links that the success batch leaves behind.
use uni_mailbox.Prelude.{
  ℕ, ◌+◌, ◌≤◌, Bool, true, false, ◌||◌, List, [], ◌∷◌, ◌++◌, ◌≡◌, refl, inl, inr, arith, ◌==◌,
  Bool-cases, if◌then◌else◌, count_where, update_where, All, any, insert_or_ignore, subst, ◌∙◌,
}
use uni_mailbox.Domain.{inbox}
use uni_mailbox.Schema.{Database, Link}
use uni_mailbox.Outbound.Process.{
  Accepted, finish, deliver_internal, is_inbox_link, is_draft_link, moved_to_sent,
}

any-append :
    (p : Link → Bool) (xs : List Link) (x : Link) → any p (xs ++ x ∷ []) ≡ (any p xs || p x)
any-append p [] x = ground arith
any-append p (y ∷ xs) x = ground (arith, any-append p xs x)

count-append :
    (p : Link → Bool) (xs : List Link) (x : Link)
    → count_where p (xs ++ x ∷ []) ≡ count_where p xs + (if p x then 1 else 0)
count-append p [] x = ground arith
count-append p (y ∷ xs) x = ground (arith, count-append p xs x)

count_none : (p : Link → Bool) (xs : List Link) → any p xs ≡ false → count_where p xs ≡ 0
count_none p [] h = refl
count_none p (x ∷ xs) h = ground (arith, count_none p xs)

abbrev inbox_row : (mailbox_id message_id : ℕ) → Link
inbox_row mailbox_id message_id = record {
  mailbox_id = mailbox_id;
  message_id = message_id;
  folder = inbox;
}

module _ (message_id b c : ℕ) (links : List Link) where
  abbrev inserted : List Link
  inserted = insert_or_ignore (is_inbox_link c message_id) (inbox_row c message_id) links

  insert-any :
      any (is_inbox_link b message_id) links ≡ true
      → any (is_inbox_link b message_id) inserted ≡ true
  unfolding insert_or_ignore
  insert-any h =
      ground (arith, any-append (is_inbox_link b message_id) links (inbox_row c message_id))

  insert-any_self : any (is_inbox_link c message_id) inserted ≡ true
  unfolding insert_or_ignore
  insert-any_self =
      ground (arith, any-append (is_inbox_link c message_id) links (inbox_row c message_id))

  insert-count :
      count_where (is_inbox_link b message_id) links ≤ 1
      → count_where (is_inbox_link b message_id) inserted ≤ 1
  unfolding insert_or_ignore
  insert-count h = elim (Bool-cases (c == b)) [
    | inl e ↦
        let same : c ≡ b = (ground arith) in
        ground (
          arith,
          count-append (is_inbox_link b message_id) links (inbox_row c message_id),
          count_none (is_inbox_link b message_id) links,
          (subst
              (λ k. any (is_inbox_link c message_id) links ≡ any (is_inbox_link k message_id) links)
              same refl),
        )
    | inr e ↦
        ground (arith, count-append (is_inbox_link b message_id) links (inbox_row c message_id))
  ]

  insert-drafts :
      count_where (is_draft_link message_id) inserted ≡ count_where (is_draft_link message_id) links
  unfolding insert_or_ignore
  insert-drafts =
      ground (arith, count-append (is_draft_link message_id) links (inbox_row c message_id))

module _ (message_id : ℕ) where
  deliver-any :
      (b : ℕ) (ids : List ℕ) (links : List Link)
      → any (is_inbox_link b message_id) links ≡ true
      → any (is_inbox_link b message_id) (deliver_internal message_id ids links) ≡ true
  unfolding deliver_internal
  deliver-any b [] links h = h
  deliver-any b (c ∷ ids) links h = deliver-any b ids _ (insert-any message_id b c links h)

  deliver-All :
      (ids : List ℕ) (links : List Link)
      → All
          (λ b. any (is_inbox_link b message_id) (deliver_internal message_id ids links) ≡ true)
          ids
  unfolding deliver_internal
  deliver-All [] links = tt
  deliver-All (c ∷ ids) links =
      (deliver-any c ids _ (insert-any_self message_id c c links), deliver-All ids _)

  deliver-count :
      (b : ℕ) (ids : List ℕ) (links : List Link)
      → count_where (is_inbox_link b message_id) links ≤ 1
      → count_where (is_inbox_link b message_id) (deliver_internal message_id ids links) ≤ 1
  unfolding deliver_internal
  deliver-count b [] links h = h
  deliver-count b (c ∷ ids) links h = deliver-count b ids _ (insert-count message_id b c links h)

  deliver-drafts :
      (ids : List ℕ) (links : List Link)
      → count_where (is_draft_link message_id) (deliver_internal message_id ids links)
        ≡ count_where (is_draft_link message_id) links
  unfolding deliver_internal
  deliver-drafts [] links = refl
  deliver-drafts (c ∷ ids) links = omega (
    arith,
    deliver-drafts ids (inserted message_id c c links),
    insert-drafts message_id c c links,
  )

  no_drafts_left :
      (links : List Link)
      → count_where
          (is_draft_link message_id)
          (update_where (is_draft_link message_id) moved_to_sent links)
        ≡ 0
  unfolding update_where
  no_drafts_left [] = refl
  no_drafts_left (l ∷ links) = ground (arith, no_drafts_left links)

  moved-count :
      (b : ℕ) (links : List Link)
      → count_where
          (is_inbox_link b message_id)
          (update_where (is_draft_link message_id) moved_to_sent links)
        ≡ count_where (is_inbox_link b message_id) links
  unfolding update_where
  moved-count b [] = refl
  moved-count b (l ∷ links) = ground (arith, moved-count b links)

-- After a successful send the message lies in the inbox of every internal recipient, in no inbox
-- twice where it did not lie twice before, and in no drafts folder.
pub finish-links :
    (job_id message_id token done : ℕ) (a : Accepted) (ids : List ℕ) (db : Database) (b : ℕ)
    → count_where (is_inbox_link b message_id) db.links ≤ 1
    → let after = finish job_id message_id token done a ids db in
      All (λ c. any (is_inbox_link c message_id) after.links ≡ true) ids
      × (count_where (is_inbox_link b message_id) after.links ≤ 1)
      × (count_where (is_draft_link message_id) after.links ≡ 0)
unfolding finish
finish-links job_id message_id token done a ids db b h = (
  deliver-All message_id ids _,
  deliver-count message_id b ids _ (omega (arith, moved-count message_id b db.links)),
  deliver-drafts message_id ids _ ∙ no_drafts_left message_id db.links,
)
