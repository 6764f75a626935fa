-- ===== src/Drafts/Editing/Tests.antt =====
-- Ann's draft with one attachment, and an upload that takes its place.
use uni_mailbox.Prelude.{
  ℕ, ◌+◌, String, List, [], ◌∷◌, none, some, ◌≡◌, refl, arith, map, All, filter, delete_where, ◌==◌,
  update_where,
}
use uni_mailbox.Domain.{err, MailboxFolder, to}
use uni_mailbox.Schema.{version}
use uni_mailbox.Samples.{sample_database, sample_message}
use uni_mailbox.Mailboxes.{Principal, assert_operation}
use uni_mailbox.EmailCore.{normalize_recipients, normalize_group, first_ones}
use uni_mailbox.Messages.Send.{find_sender}
use uni_mailbox.Attachments.Bodies.{stream}
use uni_mailbox.Attachments.Catalog.{
  FileRow, Upload, UploadStatus, StoredObject, base, delete_file_if_unreferenced, is_referenced,
}
use uni_mailbox.Drafts.{require_draft, assert_draft_version, version_conflict}
use uni_mailbox.Drafts.Editing.{
  DraftInput, Desk, Drawn, insert_uploads, write_contents, require_uploads, prepare_update,
  update_write, update_draft, delete_files, create_draft, create_write, remove_draft,
  recipient_rows,
}
use uni_mailbox.Drafts.Editing.Kept.{Call, run_call, run_calls, run_calls-IsSound, IsSound}
use uni_mailbox.Drafts.Editing.Updated.{Holds, update_draft-contents, update_draft-exclusive}

abbrev ann : Principal
ann = record { user_id = 1; permissions = [] }

abbrev file : (id : ℕ) → FileRow
file id = record {
  id = id;
  object_key = 300 + id;
  dedupe_key = base (id ∷ []) 5;
  md5 = some (id ∷ []);
  size_bytes = 5;
}

abbrev photo : Upload
photo = record {
  id = 50;
  user_id = 1;
  object_key = 331;
  size_bytes = 5;
  status = UploadStatus.uploaded;
  expires_at = 900;
  file_id = some 31;
  md5 = some (31 ∷ []);
}

abbrev object : StoredObject
object = record { body = stream []; size = 5 }

abbrev desk : Desk
desk = record {
  db = record sample_database {
    messages = sample_message ∷ [];
    links = record { mailbox_id = 4; message_id = 2; folder = MailboxFolder.drafts } ∷ [];
    recipients =
        record { message_id = 2; type = to; address = "old@example.org"; display_name = "" } ∷ [];
  };
  files = record {
    files = file 30 ∷ file 31 ∷ [];
    uploads = photo ∷ [];
    attached = record { id = 40; message_id = 2; file_id = some 30; object_key = 330 } ∷ [];
    store = λ k. some object;
  };
}

abbrev input : DraftInput
input = record {
  mailbox_id = 4;
  to = "bob@example.org" ∷ "bob@example.org" ∷ [];
  cc = [];
  bcc = [];
  subject = "Again";
  html = "";
  text = "Again";
  attachment_ids = 50 ∷ [];
}

abbrev drawn : (n : ℕ) → Drawn
drawn n = record { now = 5000; message_id = n; version = n; attachment_ids = λ i. n + i }

abbrev same : String → String
same s = s

abbrev updated : Desk
updated = (update_draft same ann 2 input (some (version 10)) (drawn 11) desk).0

-- The old attachment went with its file, the new one came with its own, and its upload is consumed.
files_updated :
    (map (λ a. a.id) updated.files.attached ≡ 11 ∷ [])
    × (map (λ f. f.id) updated.files.files ≡ 31 ∷ [])
    × (updated.files.store 330 ≡ none)
    × (map (λ u. u.status) updated.files.uploads ≡ UploadStatus.consumed ∷ [])
unfolding update_draft prepare_update require_draft assert_draft_version assert_operation
    require_uploads update_write write_contents insert_uploads delete_files
    delete_file_if_unreferenced is_referenced update_where
files_updated = (refl, refl, refl, refl)

update_draft-contents_example :
    All (Holds 2 input (version 11)) updated.db.messages
    × (filter (λ r. r.message_id == 2) updated.db.recipients
        ≡ recipient_rows 2 (normalize_recipients same input.to input.cc input.bcc))
    × (delete_where (λ r. r.message_id == 2) updated.db.recipients
        ≡ delete_where (λ r. r.message_id == 2) desk.db.recipients)
unfolding update_draft prepare_update require_draft assert_draft_version assert_operation
    require_uploads update_write write_contents insert_uploads update_where
update_draft-contents_example =
    update_draft-contents same ann 2 input (drawn 11) (some (version 10)) desk updated
      (record { id = 2; updated_at = version 11; mailbox_id = 4; outbound_connection_id = some 7 })
      (omega arith) refl

update_draft-exclusive_example :
    update_draft same ann 2
      (record input { subject = "Lost"; attachment_ids = 11 ∷ [] })
      (some (version 10))
      (drawn 12)
      updated
    ≡ (updated, err version_conflict)
unfolding update_draft prepare_update require_draft assert_draft_version assert_operation
    require_uploads update_write write_contents insert_uploads update_where
update_draft-exclusive_example =
    update_draft-exclusive same ann 2 input (drawn 11) (some (version 10)) desk updated
      (record { id = 2; updated_at = version 11; mailbox_id = 4; outbound_connection_id = some 7 })
      (omega arith) refl (record input { subject = "Lost"; attachment_ids = 11 ∷ [] }) (drawn 12)
      (version 10) refl refl

abbrev calls : List Call
calls =
    Call.updates ann 2 input (some (version 10)) (drawn 11)
    ∷ Call.creates ann (record input { attachment_ids = [] }) (drawn 20)
    ∷ Call.removes ann 2
    ∷ []

-- Nothing of the draft is left.
removed :
    (map (λ m. m.id) (run_calls same calls desk).db.messages ≡ 20 ∷ [])
    × (map (λ f. f.id) (run_calls same calls desk).files.files ≡ [])
unfolding run_calls run_call create_draft create_write find_sender remove_draft update_draft
    prepare_update require_draft assert_draft_version assert_operation require_uploads update_write
    write_contents insert_uploads delete_files delete_file_if_unreferenced is_referenced
    update_where normalize_recipients normalize_group first_ones
removed = (refl, refl)

desk-IsSound : IsSound desk.files
desk-IsSound = record {
  keys = (((λ e. refl), ((λ e. e), tt)), (((λ e. e), ((λ e. refl), tt)), tt));
  objects = ((λ e. ground arith), ((λ e. ground arith), tt));
  attachments = (refl, tt);
}

run_calls-IsSound_example : IsSound (run_calls same calls desk).files
run_calls-IsSound_example = run_calls-IsSound same calls desk desk-IsSound
