-- ===== src/Drafts/Editing.antt =====
-- create, update and remove of DraftApplicationService, with requireUploads and the triggers of
-- attachment_uploads (migrations 0001 and 0007). The rows of message_attachments are seen by the
-- columns of Attachments.Catalog, beside the uploads and the files. An update is split where it yields
-- to the database: the checks (prepare_update), the batch (update_write), the files that are left.
pub mod Kept
pub mod Saved
pub mod Tests
pub mod Updated
use uni_mailbox.Prelude.{
  ℕ, zero, suc, ◌+◌, String, Bool, true, false, ◌&&◌, ◌||◌, not, List, [], ◌∷◌, ◌++◌, map, Option,
  none, some, ltb, ◌==◌, if◌then◌else◌, find_where, update_where, delete_where, count_where, filter,
  any, length, is_none,
}
use uni_mailbox.Domain.{
  MessageStatus, drafts, RecipientType, to, cc, bcc, Result, ok, err, ◌>>=◌, ◌>>◌, Thrown, other,
  domain_error, guard, or_throw, is_draft,
}
use uni_mailbox.Schema.{
  Database, Message, Stamp, millis, version, Link, Recipient, Mailbox, MailDomain,
  current_timestamp,
}
use uni_mailbox.Mailboxes.{Principal, send, assert_operation}
use uni_mailbox.EmailCore.{NormalizedRecipients, normalize_recipients}
use uni_mailbox.Messages.Send.{find_sender, distinct_ids, upload_invalid}
use uni_mailbox.Attachments.Catalog.{
  Files, FileRow, Upload, UploadStatus, Attached, refers_to, delete_file_if_unreferenced,
}
use uni_mailbox.Drafts.{
  DraftRow, require_draft, assert_draft_version, is_at_version, is_own_draft, has_version,
  version_conflict,
}

pub record DraftInput : Type 0 where
  pub mailbox_id : ℕ
  pub to : List String
  pub cc : List String
  pub bcc : List String
  pub subject : String
  pub html : String
  pub text : String
  pub attachment_ids : List ℕ

-- The database, and the tables of the attachments with their objects.
pub record Desk : Type 0 where
  pub db : Database
  pub files : Files

-- An upload that may be attached.
pub record ReadyUpload : Type 0 where
  pub upload_id : ℕ
  pub file_id : ℕ
  pub object_key : ℕ

abbrev pub mailbox_immutable : Thrown
mailbox_immutable =
    domain_error "DRAFT_MAILBOX_IMMUTABLE" "A draft sender mailbox cannot be changed" 409

abbrev pub has_uploaded_status : UploadStatus → Bool
has_uploaded_status UploadStatus.uploaded = true
has_uploaded_status _ = false

-- The file of an upload: the join of the two tables.
abbrev ready_of : List FileRow → Upload → Option ℕ → List ReadyUpload → List ReadyUpload
ready_of files u none more = more
ready_of files u (some file_id) more = elim (find_where (λ f. f.id == file_id) files) [
  | none ↦ more
  | some f ↦ record { upload_id = u.id; file_id = file_id; object_key = f.object_key } ∷ more
]

abbrev joined : List FileRow → List Upload → List ReadyUpload
joined files [] = []
joined files (u ∷ uploads) = ready_of files u u.file_id (joined files uploads)

abbrev pub is_available : (user_id now : ℕ) → Upload → Bool
is_available user_id now u =
    u.user_id == user_id && has_uploaded_status u.status && ltb (current_timestamp now) u.expires_at

unfoldable pub require_uploads :
    (user_id : ℕ) → List ℕ → (now : ℕ) → Files → Result (List ReadyUpload)
require_uploads user_id ids now files =
    let found = joined files.files (
      filter (λ u. is_available user_id now u && not (is_none u.md5) && any (λ id. id == u.id) ids)
        files.uploads) in
    guard (length found == length (distinct_ids ids)) upload_invalid >> ok found

-- The triggers: an upload that is not available to the message's author makes the INSERT fail, and one
-- that is attached is consumed.
abbrev accepts : (user_id now : ℕ) → ReadyUpload → Files → Bool
accepts user_id now r files =
    any (λ u. u.id == r.upload_id && is_available user_id now u && refers_to r.file_id u.file_id)
      files.uploads
    && any (λ f. f.id == r.file_id && f.object_key == r.object_key) files.files

abbrev pub consumed : Upload → Upload
consumed u = record u { status = UploadStatus.consumed }

abbrev pub attached_row : (id message_id : ℕ) → ReadyUpload → Attached
attached_row id message_id r = record {
  id = id;
  message_id = message_id;
  file_id = some r.file_id;
  object_key = r.object_key;
}

-- The rows of the uploads, with `ids` for their identifiers.
unfoldable pub insert_uploads :
    (user_id now message_id : ℕ) → (ids : ℕ → ℕ) → List ReadyUpload → Files → Option Files
insert_uploads user_id now message_id ids [] files = some files
insert_uploads user_id now message_id ids (r ∷ rest) files =
    let after =
      insert_uploads user_id now message_id (λ n. ids (suc n)) rest
        (record files {
          attached = files.attached ++ attached_row (ids 0) message_id r ∷ [];
          uploads = update_where (λ u. u.id == r.upload_id) consumed files.uploads;
        }) in
    if accepts user_id now r files then after else none

abbrev pub draft_entries : (message_id : ℕ) → RecipientType → List String → List Recipient
draft_entries message_id type addresses =
    map (λ a. record { message_id = message_id; type = type; address = a; display_name = "" })
      addresses

abbrev pub recipient_rows : (message_id : ℕ) → NormalizedRecipients → List Recipient
recipient_rows message_id r =
    draft_entries message_id to r.to
    ++ (draft_entries message_id cc r.cc ++ draft_entries message_id bcc r.bcc)

-- What a call draws.
pub record Drawn : Type 0 where
  pub now : ℕ
  pub message_id : ℕ
  pub version : ℕ
  pub attachment_ids : ℕ → ℕ

abbrev pub new_draft : Principal → DraftInput → Mailbox → Drawn → Message
new_draft principal input sender drawn = record {
  id = drawn.message_id;
  domain_id = some sender.domain_id;
  thread_id = drawn.message_id;
  from_address = sender.address;
  from_name = sender.display_name;
  subject = input.subject;
  html_body = input.html;
  text_body = input.text;
  message_id_header = none;
  in_reply_to_header = none;
  references_header = "";
  provider_key = none;
  provider_connection_id = none;
  provider_message_id = none;
  status = MessageStatus.draft;
  error_code = none;
  error_message = none;
  created_by_user_id = some principal.user_id;
  sent_at = none;
  updated_at = millis drawn.now;
}

-- What a draft is updated to.
pub record Plan : Type 0 where
  pub draft : DraftRow
  pub recipients : NormalizedRecipients
  pub removed : List Attached
  pub uploads : List ReadyUpload

abbrev pub edited : DraftInput → Stamp → Message → Message
edited input next m = record m {
  subject = input.subject;
  html_body = input.html;
  text_body = input.text;
  updated_at = next;
}

abbrev pub is_among : List Attached → ℕ → Attached → Bool
is_among removed message_id a = a.message_id == message_id && any (λ r. r.id == a.id) removed

-- deleteAttachmentFileIfUnreferenced for each row.
unfoldable pub delete_files : List Attached → Files → Files
delete_files [] files = files
delete_files (a ∷ rest) files = delete_files rest (delete_file_if_unreferenced a.file_id files)

abbrev pub checked_desk {ℓ} :
    {A B : Type ℓ} → Desk → Result A → (A → Desk × Result B) → Desk × Result B
checked_desk desk (ok a) k = k a
checked_desk desk (err e) k = (desk, err e)

-- The batch of `create`.
abbrev insert_draft :
    Principal → DraftInput → Mailbox → NormalizedRecipients → Drawn → Database → Database
insert_draft principal input sender recipients drawn db = record db {
  messages = db.messages ++ new_draft principal input sender drawn ∷ [];
  links =
      db.links
      ++ record { mailbox_id = sender.id; message_id = drawn.message_id; folder = drafts } ∷ [];
  recipients = db.recipients ++ recipient_rows drawn.message_id recipients;
}

unfoldable pub create_write :
    Principal
    → DraftInput
    → Mailbox
    → NormalizedRecipients
    → List ReadyUpload
    → Drawn
    → Desk
    → Desk × Result DraftRow
create_write principal input sender recipients uploads drawn desk =
    let after = insert_draft principal input sender recipients drawn desk.db in
    if any (λ m. m.id == drawn.message_id) desk.db.messages
    then (desk, err other)
    else elim (insert_uploads principal.user_id drawn.now drawn.message_id drawn.attachment_ids
        uploads desk.files) [
          | none ↦ (desk, err other)
          | some files ↦ (
            record { db = after; files = files },
            require_draft after principal.user_id drawn.message_id,
          )
        ]

-- The statements of `update` behind the first one, where that has written the new version.
unfoldable pub write_contents : Principal → (draft_id : ℕ) → Plan → Drawn → Desk → Option Desk
write_contents principal draft_id plan drawn desk =
    elim (insert_uploads principal.user_id drawn.now draft_id drawn.attachment_ids plan.uploads
      (record desk.files {
        attached = delete_where (is_among plan.removed draft_id) desk.files.attached;
      })) [
        | none ↦ none
        | some files ↦ some (record {
          db = record desk.db {
            recipients =
                delete_where (λ r. r.message_id == draft_id) desk.db.recipients
                ++ recipient_rows draft_id plan.recipients;
          };
          files = files;
        })
      ]

-- The first statement of `update`, for a draft of the version that was read.
abbrev pub bump : Principal → (draft_id : ℕ) → DraftInput → Plan → Drawn → Desk → Desk
bump principal draft_id input plan drawn desk = record desk {
  db = record desk.db {
    messages =
        update_where (is_at_version principal.user_id draft_id plan.draft.updated_at)
          (edited input (version drawn.version)) desk.db.messages;
  };
}

-- The batch of `update`; the EXISTS of its statements looks for the new version.
unfoldable pub update_write :
    Principal → (draft_id : ℕ) → DraftInput → Plan → Drawn → Desk → Desk × Result (Unit {0})
update_write principal draft_id input plan drawn desk =
    let bumped = bump principal draft_id input plan drawn desk in
    elim (if has_version is_draft draft_id (version drawn.version) bumped.db
      then write_contents principal draft_id plan drawn bumped
      else some bumped) [
        | none ↦ (desk, err other)
        | some after ↦ (
          after,
          guard
              (count_where (is_at_version principal.user_id draft_id plan.draft.updated_at)
                  desk.db.messages
                == 1)
              version_conflict,
        )
      ]

-- The attachments of a draft, those that stay, and the identifiers that must be uploads.
abbrev pub draft_attachments : (draft_id : ℕ) → Files → List Attached
draft_attachments draft_id files = filter (λ a. a.message_id == draft_id) files.attached

abbrev pub kept_attachments : (draft_id : ℕ) → List ℕ → Files → List Attached
kept_attachments draft_id ids files =
    filter (λ a. any (λ id. id == a.id) ids) (draft_attachments draft_id files)

abbrev pub new_ids : (draft_id : ℕ) → List ℕ → Files → List ℕ
new_ids draft_id ids files =
    filter (λ id. not (any (λ a. a.id == id) (kept_attachments draft_id ids files))) ids

module _ (clean : String → String) where
  unfoldable pub create_draft : Principal → DraftInput → Drawn → Desk → Desk × Result DraftRow
  create_draft principal input drawn desk =
      checked_desk desk
        (do
          assert_operation desk.db principal.user_id input.mailbox_id send
          (sender, domain) ← find_sender input.mailbox_id desk.db
          uploads ← require_uploads principal.user_id input.attachment_ids drawn.now desk.files
          ok (sender, uploads))
        λ (sender, uploads).
          create_write principal input sender
            (normalize_recipients clean input.to input.cc input.bcc) uploads drawn desk

  -- What is read before the batch.
  unfoldable pub prepare_update :
      Principal
      → (draft_id : ℕ) → DraftInput
      → (if_match : Option Stamp) → (now : ℕ) → Desk
      → Result Plan
  prepare_update principal draft_id input if_match now desk = do
    draft ← require_draft desk.db principal.user_id draft_id
    assert_draft_version draft.updated_at if_match
    guard (input.mailbox_id == draft.mailbox_id) mailbox_immutable
    assert_operation desk.db principal.user_id draft.mailbox_id send
    uploads ←
        require_uploads principal.user_id (new_ids draft_id input.attachment_ids desk.files) now
          desk.files
    ok (record {
      draft = draft;
      recipients = normalize_recipients clean input.to input.cc input.bcc;
      removed =
          filter
            (λ a.
              not (
                any (λ k. k.id == a.id)
                  (kept_attachments draft_id input.attachment_ids desk.files)))
            (draft_attachments draft_id desk.files);
      uploads = uploads;
    })

  -- What is left to do behind the batch.
  finish_update :
      Principal → (draft_id : ℕ) → Plan → Desk × Result (Unit {0}) → Desk × Result DraftRow
  finish_update principal draft_id plan (desk, err t) = (desk, err t)
  finish_update principal draft_id plan (desk, ok done) = (
    record desk { files = delete_files plan.removed desk.files },
    require_draft desk.db principal.user_id draft_id,
  )

  unfoldable pub update_draft :
      Principal
      → (draft_id : ℕ) → DraftInput
      → (if_match : Option Stamp) → Drawn
      → Desk
      → Desk × Result DraftRow
  unfolding finish_update
  update_draft principal draft_id input if_match drawn desk =
      checked_desk desk (prepare_update principal draft_id input if_match drawn.now desk) λ plan.
        finish_update principal draft_id plan
          (update_write principal draft_id input plan drawn desk)

-- DELETE FROM messages, with what refers to the row (ON DELETE CASCADE).
abbrev delete_draft : (user_id draft_id : ℕ) → Desk → Desk
delete_draft user_id draft_id desk =
    if any (is_own_draft user_id draft_id) desk.db.messages
    then record {
      db = record desk.db {
        messages = delete_where (is_own_draft user_id draft_id) desk.db.messages;
        links = delete_where (λ l. l.message_id == draft_id) desk.db.links;
        recipients = delete_where (λ r. r.message_id == draft_id) desk.db.recipients;
        jobs = delete_where (λ j. j.message_id == draft_id) desk.db.jobs;
      };
      files = record desk.files {
        attached = delete_where (λ a. a.message_id == draft_id) desk.files.attached;
      };
    }
    else desk

unfoldable pub remove_draft : Principal → (draft_id : ℕ) → Desk → Desk × Result (Unit {0})
remove_draft principal draft_id desk =
    checked_desk desk (require_draft desk.db principal.user_id draft_id) λ draft.
      let attached = draft_attachments draft_id desk.files in
      let after = delete_draft principal.user_id draft_id desk in
      (record after { files = delete_files attached after.files }, ok tt)
