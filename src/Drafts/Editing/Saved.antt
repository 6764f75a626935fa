-- ===== src/Drafts/Editing/Saved.antt =====
-- What an update of a draft saves, and that it is not lost.
use uni_mailbox.Prelude.{
  ℕ, String, true, ◌&&◌, List, [], ◌∷◌, ◌++◌, Option, some, ◌==◌, ◌≡◌, refl, subst, arith,
  Bool-cases, Option-cases, inl, inr, update_where, delete_where, count_where, any, ==_refl, ==_eq,
}
use uni_mailbox.Domain.{Result, Result-cases, ok, err, is_draft}
use uni_mailbox.Schema.{Message, Stamp, version}
use uni_mailbox.Mailboxes.{Principal, send, assert_operation}
use uni_mailbox.EmailCore.{normalize_recipients}
use uni_mailbox.Drafts.{
  DraftRow, require_draft, assert_draft_version, is_at_version, has_version, stamp_eq,
}
use uni_mailbox.Drafts.Editing.{
  DraftInput, Desk, Drawn, Plan, insert_uploads, write_contents, bump, edited, is_among,
  recipient_rows, require_uploads, prepare_update, update_write, finish_update, update_draft,
  new_ids,
}

module _ (clean : String → String) (principal : Principal) (draft_id : ℕ) (input : DraftInput)
    (drawn : Drawn) where
  -- What a plan that is made was read from.
  abbrev Planned : (if_match : Option Stamp) → Desk → Result Plan → Type 0
  Planned if_match desk (ok plan) =
      (require_draft desk.db principal.user_id draft_id ≡ ok plan.draft)
      × (assert_draft_version plan.draft.updated_at if_match ≡ ok tt)
      × (plan.recipients ≡ normalize_recipients clean input.to input.cc input.bcc)
  Planned if_match desk (err t) = Unit

  prepare_update-Planned :
      (if_match : Option Stamp) (desk : Desk)
      → Planned if_match desk
          (prepare_update clean principal draft_id input if_match drawn.now desk)
  unfolding prepare_update
  prepare_update-Planned if_match desk =
      elim (Result-cases (require_draft desk.db principal.user_id draft_id)) [
        | inr (t, e) ↦ rw (prepare_update, e) tt
        | inl (d, e) ↦ elim (Result-cases (assert_draft_version d.updated_at if_match)) [
          | inr (t, k) ↦ rw (prepare_update, e, k) tt
          | inl (v, k) ↦ elim (Bool-cases (input.mailbox_id == d.mailbox_id)) [
            | inr b ↦ rw (prepare_update, e, k, b) tt
            | inl b ↦
                elim (Result-cases (assert_operation desk.db principal.user_id d.mailbox_id send)) [
                  | inr (t, o) ↦ rw (prepare_update, e, k, b, o) tt
                  | inl (u, o) ↦
                      let uploads =
                        require_uploads principal.user_id
                          (new_ids draft_id input.attachment_ids desk.files) drawn.now desk.files in
                      elim (Result-cases uploads) [
                        | inr (t, r) ↦ rw (prepare_update, e, k, b, o, r) tt
                        | inl (found, r) ↦ rw (prepare_update, e, k, b, o, r) (e, k, refl)
                      ]
                ]
          ]
        ]
      ]

  write_contents_inv :
      (plan : Plan) (desk after : Desk)
      → write_contents principal draft_id plan drawn desk ≡ some after
      → (after.db.messages ≡ desk.db.messages)
        × (after.db.recipients
            ≡ delete_where (λ r. r.message_id == draft_id) desk.db.recipients
              ++ recipient_rows draft_id plan.recipients)
  unfolding write_contents
  write_contents_inv plan desk after h =
      let rest = record desk.files {
        attached = delete_where (is_among plan.removed draft_id) desk.files.attached;
      } in
      elim (Option-cases (
        insert_uploads principal.user_id drawn.now draft_id drawn.attachment_ids plan.uploads
          rest)) [
            | inl e ↦ absurd (ground (arith, h, e))
            | inr (files, e) ↦ (ground arith, ground arith)
          ]

  bump-has_version :
      (read : Stamp) (messages : List Message)
      → count_where (is_at_version principal.user_id draft_id read) messages ≡ 1
      → any
          (λ m.
            m.id == draft_id && is_draft m.status && stamp_eq m.updated_at (version drawn.version))
          (update_where
            (is_at_version principal.user_id draft_id read)
            (edited input (version drawn.version))
            messages)
        ≡ true
  unfolding update_where
  bump-has_version read [] h = absurd (ground arith)
  bump-has_version read (m ∷ messages) h =
      elim (Bool-cases (is_at_version principal.user_id draft_id read m)) [
        | inl e ↦ ground (arith, ==_refl drawn.version)
        | inr e ↦ ground (arith, bump-has_version read messages)
      ]

  -- What a batch that is written has written.
  abbrev Written : Plan → Desk → Desk × Result (Unit {0}) → Type 0
  Written plan desk (after, ok done) =
      (count_where (is_at_version principal.user_id draft_id plan.draft.updated_at) desk.db.messages
        ≡ 1)
      × (after.db.messages ≡ (bump principal draft_id input plan drawn desk).db.messages)
      × (after.db.recipients
          ≡ delete_where (λ r. r.message_id == draft_id) desk.db.recipients
            ++ recipient_rows draft_id plan.recipients)
  Written plan desk (after, err t) = Unit

  update_write-Written :
      (plan : Plan) (desk : Desk)
      → Written plan desk (update_write principal draft_id input plan drawn desk)
  unfolding update_write
  update_write-Written plan desk =
      let next = bump principal draft_id input plan drawn desk in
      let read = is_at_version principal.user_id draft_id plan.draft.updated_at in
      elim (Bool-cases (count_where read desk.db.messages == 1)) [
        | inl c ↦
            let one = ==_eq _ _ c in
            let here = bump-has_version plan.draft.updated_at desk.db.messages one in
            elim (Option-cases (write_contents principal draft_id plan drawn next)) [
              | inl w ↦ rw (update_write, here, w) tt
              | inr (desk', w) ↦
                  let (m, r) = write_contents_inv plan next desk' w in
                  rw (update_write, here, w, c) (one, m, r)
            ]
        | inr c ↦
            elim (Bool-cases (has_version is_draft draft_id (version drawn.version) next.db)) [
              | inr k ↦ rw (update_write, k, c) tt
              | inl k ↦ elim (Option-cases (write_contents principal draft_id plan drawn next)) [
                | inl w ↦ rw (update_write, k, w) tt
                | inr (desk', w) ↦ rw (update_write, k, w, c) tt
              ]
            ]
      ]

  -- What a successful update leaves.
  abbrev pub Saved : (if_match : Option Stamp) → Desk → Desk × Result DraftRow → Type 0
  Saved if_match desk (after, ok row) =
      (read : Stamp) × (assert_draft_version read if_match ≡ ok tt)
      × (count_where (is_at_version principal.user_id draft_id read) desk.db.messages ≡ 1)
      × (after.db.messages
          ≡ update_where (is_at_version principal.user_id draft_id read)
              (edited input (version drawn.version)) desk.db.messages)
      × (after.db.recipients
          ≡ delete_where (λ r. r.message_id == draft_id) desk.db.recipients
            ++ recipient_rows draft_id (normalize_recipients clean input.to input.cc input.bcc))
      × (require_draft after.db principal.user_id draft_id ≡ ok row)
  Saved if_match desk (after, err t) = Unit

  finish_update-Saved :
      (if_match : Option Stamp) (desk : Desk) (plan : Plan) (r : Desk × Result (Unit {0}))
      → Planned if_match desk (ok plan)
      → Written plan desk r
      → Saved if_match desk (finish_update clean principal draft_id plan r)
  unfolding finish_update
  finish_update-Saved if_match desk plan (after, err t) p w = tt
  finish_update-Saved if_match desk plan (after, ok done) (d, v, n) (one, m, r) =
      elim (Result-cases (require_draft after.db principal.user_id draft_id)) [
        | inr (t, e) ↦ rw e tt
        | inl (row, e) ↦ rw e (plan.draft.updated_at, v, one, m, rw (← n) r, e)
      ]

  pub update_draft-Saved :
      (if_match : Option Stamp) (desk : Desk)
      → Saved if_match desk (update_draft clean principal draft_id input if_match drawn desk)
  unfolding update_draft
  update_draft-Saved if_match desk =
      let planned = prepare_update-Planned if_match desk in
      elim (Result-cases (prepare_update clean principal draft_id input if_match drawn.now desk)) [
        | inr (t, e) ↦ rw (update_draft, e) tt
        | inl (plan, e) ↦
            rw (update_draft, e)
              (finish_update-Saved if_match desk plan
                (update_write principal draft_id input plan drawn desk)
                (subst (Planned if_match desk) e planned) (update_write-Written plan desk))
      ]
