-- ===== src/Drafts/Editing/Updated.antt =====
-- A draft that was updated.
use uni_mailbox.Prelude.{
  ℕ, ◌≤◌, String, true, false, ◌&&◌, List, [], ◌∷◌, ◌++◌, Option, some, ◌==◌, ◌≡◌, refl, subst,
  arith, Bool-cases, Option-cases, inl, inr, find_where, find_where-All, find_where-true, filter,
  update_where, delete_where, count_where, count_where-eq, All, append_nil,
}
use uni_mailbox.Domain.{ok, err, RecipientType, to, cc, bcc, is_drafts}
use uni_mailbox.Schema.{Database, Message, Recipient, Stamp, version}
use uni_mailbox.Mailboxes.{Principal}
use uni_mailbox.EmailCore.{NormalizedRecipients, normalize_recipients}
use uni_mailbox.Drafts.{
  DraftRow, require_draft, assert_draft_version, is_own_draft, is_at_version, stamp_eq,
  version_conflict,
}
use uni_mailbox.Drafts.Editing.{
  DraftInput, Desk, Drawn, edited, draft_entries, recipient_rows, prepare_update, update_draft,
}
use uni_mailbox.Drafts.Editing.Saved.{Saved, update_draft-Saved}

filter-delete_where :
    (id : ℕ) (xs ys : List Recipient)
    → All (λ r. r.message_id ≡ id) ys
    → filter (λ r. r.message_id == id) (delete_where (λ r. r.message_id == id) xs ++ ys) ≡ ys
filter-delete_where id [] [] h = refl
filter-delete_where id [] (y ∷ ys) (hy, h) = ground (arith, filter-delete_where id [] ys h)
filter-delete_where id (x ∷ xs) ys h = ground (arith, filter-delete_where id xs ys h)

others-delete_where :
    (id : ℕ) (xs ys : List Recipient)
    → All (λ r. r.message_id ≡ id) ys
    → delete_where (λ r. r.message_id == id) (delete_where (λ r. r.message_id == id) xs ++ ys)
      ≡ delete_where (λ r. r.message_id == id) xs
others-delete_where id [] [] h = refl
others-delete_where id [] (y ∷ ys) (hy, h) = ground (arith, others-delete_where id [] ys h)
others-delete_where id (x ∷ xs) ys h = ground (arith, others-delete_where id xs ys h)

draft_entries-All :
    (id : ℕ) (type : RecipientType) (xs : List String) (rest : List Recipient)
    → All (λ r. r.message_id ≡ id) rest
    → All (λ r. r.message_id ≡ id) (draft_entries id type xs ++ rest)
draft_entries-All id type [] rest h = h
draft_entries-All id type (x ∷ xs) rest h = (refl, draft_entries-All id type xs rest h)

recipient_rows-All :
    (id : ℕ) (r : NormalizedRecipients) → All (λ x. x.message_id ≡ id) (recipient_rows id r)
recipient_rows-All id r =
    let last =
      subst (All (λ x. x.message_id ≡ id)) (append_nil (draft_entries id bcc r.bcc))
        (draft_entries-All id bcc r.bcc [] tt) in
    draft_entries-All id to r.to _ (draft_entries-All id cc r.cc _ last)

-- The contents of the input, under the new version.
abbrev pub Holds : (draft_id : ℕ) → DraftInput → Stamp → Message → Type 0
Holds draft_id input next m =
    (m.id == draft_id) ≡ true
    → (m.subject ≡ input.subject)
      × (m.html_body ≡ input.html)
      × (m.text_body ≡ input.text)
      × (m.updated_at ≡ next)

absent-Holds :
    (draft_id user_id : ℕ) (input : DraftInput) (read next : Stamp) (messages : List Message)
    → count_where (λ m. m.id == draft_id) messages ≡ 0
    → All
        (Holds draft_id input next)
        (update_where (is_at_version user_id draft_id read) (edited input next) messages)
unfolding update_where
absent-Holds draft_id user_id input read next [] h = tt
absent-Holds draft_id user_id input read next (m ∷ messages) h =
    ((λ i. ground arith), absent-Holds draft_id user_id input read next messages (ground arith))

update-Holds :
    (draft_id user_id : ℕ) (input : DraftInput) (read next : Stamp) (messages : List Message)
    → count_where (λ m. m.id == draft_id) messages ≤ 1
    → count_where (is_at_version user_id draft_id read) messages ≡ 1
    → All
        (Holds draft_id input next)
        (update_where (is_at_version user_id draft_id read) (edited input next) messages)
unfolding update_where
update-Holds draft_id user_id input read next [] u one = tt
update-Holds draft_id user_id input read next (m ∷ messages) u one =
    elim (Bool-cases (is_at_version user_id draft_id read m)) [
      | inl e ↦ (
        rw e (λ i. (refl, refl, refl, refl)),
        absent-Holds draft_id user_id input read next messages (ground arith),
      )
      | inr e ↦
          let fewer =
            (count_where-eq (is_at_version user_id draft_id read) (λ m. m.id == draft_id)
              (λ x v. ground arith) messages).0 in
          (
            (λ i. absurd (ground (arith, i, e, u, one, fewer))),
            update-Holds draft_id user_id input read next messages (ground arith) (ground arith),
          )
    ]

require_draft-version :
    (user_id draft_id : ℕ) (next : Stamp) (input : DraftInput) (db : Database) (row : DraftRow)
    → All (Holds draft_id input next) db.messages
    → require_draft db user_id draft_id ≡ ok row
    → row.updated_at ≡ next
unfolding require_draft
require_draft-version user_id draft_id next input db row h e =
    elim (Option-cases (find_where (is_own_draft user_id draft_id) db.messages)) [
      | inl k ↦ absurd (ground (arith, e, k))
      | inr (m, k) ↦
          let own = find_where-true (is_own_draft user_id draft_id) m db.messages k in
          let held =
            find_where-All (Holds draft_id input next) (is_own_draft user_id draft_id) m db.messages
              h k in
          let mine : (m.id == draft_id) ≡ true = ground (arith, own) in
          let (_, _, _, at_next) = held mine in
          elim (Option-cases
            (find_where (λ l. l.message_id == draft_id && is_drafts l.folder) db.links)) [
              | inl f ↦ absurd (ground (arith, e, k, f))
              | inr (l, f) ↦
                  elim (Option-cases (find_where (λ b. b.id == l.mailbox_id) db.mailboxes)) [
                    | inl g ↦ absurd (ground (arith, e, k, f, g))
                    | inr (b, g) ↦
                        elim (Option-cases (find_where (λ d. d.id == b.domain_id) db.domains)) [
                          | inl o ↦ absurd (ground (arith, e, k, f, g, o))
                          | inr (d, o) ↦ ground (arith, e, k, f, g, o, at_next)
                        ]
                  ]
            ]
    ]

module _ (clean : String → String) (principal : Principal) (draft_id : ℕ) (input : DraftInput)
    (drawn : Drawn) (if_match : Option Stamp) (desk after : Desk) (row : DraftRow)
    (unique : count_where (λ m. m.id == draft_id) desk.db.messages ≤ 1)
    (saved : update_draft clean principal draft_id input if_match drawn desk
      ≡ (after, ok row)) where
  -- An update that is answered with a draft, of a draft whose identifier is unique, leaves the message
  -- with the subject and bodies of the input under the new version, the normalized recipients of the
  -- input as the recipients of the draft, and every other recipient as it was.
  pub update_draft-contents :
      All (Holds draft_id input (version drawn.version)) after.db.messages
      × (filter (λ r. r.message_id == draft_id) after.db.recipients
          ≡ recipient_rows draft_id (normalize_recipients clean input.to input.cc input.bcc))
      × (delete_where (λ r. r.message_id == draft_id) after.db.recipients
          ≡ delete_where (λ r. r.message_id == draft_id) desk.db.recipients)
  update_draft-contents =
      let (read, v, one, m, r, _) =
        subst (Saved clean principal draft_id input drawn if_match desk) saved
          (update_draft-Saved clean principal draft_id input drawn if_match desk) in
      let rows = recipient_rows draft_id (normalize_recipients clean input.to input.cc input.bcc) in
      let own =
        recipient_rows-All draft_id (normalize_recipients clean input.to input.cc input.bcc) in
      (
        rw m (
            update-Holds draft_id principal.user_id input read (version drawn.version)
              desk.db.messages unique one),
        rw r (filter-delete_where draft_id desk.db.recipients rows own),
        rw r (others-delete_where draft_id desk.db.recipients rows own),
      )

  -- No update is lost: behind an update of the draft that is answered, every update that names the old
  -- version, another one than the new, is refused as a conflict, and changes nothing.
  pub update_draft-exclusive :
      (other_input : DraftInput) (other_drawn : Drawn) (v : Stamp)
      → if_match ≡ some v
      → stamp_eq v (version drawn.version) ≡ false
      → update_draft clean principal draft_id other_input if_match other_drawn after
        ≡ (after, err version_conflict)
  unfolding update_draft prepare_update assert_draft_version
  update_draft-exclusive other_input other_drawn v named old =
      let (_, _, _, _, _, again) =
        subst (Saved clean principal draft_id input drawn if_match desk) saved
          (update_draft-Saved clean principal draft_id input drawn if_match desk) in
      let current =
        require_draft-version principal.user_id draft_id (version drawn.version) input after.db row
          update_draft-contents.0 again in
      let stale : assert_draft_version row.updated_at if_match ≡ err version_conflict =
        rw (current, named) (rw old refl) in
      rw (update_draft, prepare_update, again, stale) refl
