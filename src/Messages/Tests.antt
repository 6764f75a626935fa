-- ===== src/Messages/Tests.antt =====
-- A folder of three messages, two of one instant, in pages of two, and a message sent twice.
use package.text.Mathlib.Text.{◌==◌ as str_eq}
use uni_mailbox.Prelude.{ℕ, String, true, false, List, [], ◌∷◌, none, some, ◌≡◌, refl, arith}
use uni_mailbox.Messages.{Row, in_order}
use uni_mailbox.Domain.{MessageStatus, Result, ok}
use uni_mailbox.Schema.{Database, Reply, sent_reply}
use uni_mailbox.Mailboxes.{Principal, assert_operation}
use uni_mailbox.Drafts.{find_replay}
use uni_mailbox.EmailCore.{normalize_recipients, normalize_group, first_ones}
use uni_mailbox.Samples.{sample_database}
use uni_mailbox.Messages.Send.{
  SendInput, SendFresh, send_message, admit, prepare_message, find_sender, check_connection,
  internal_at, find_uploads, thread_of, message_write,
}
use uni_mailbox.Messages.Retry.{send_message-retry}
use uni_mailbox.Messages.Pages.{read_pages, read_pages-visible_rows}

abbrev row : (id created_at : ℕ) → Row
row id created_at = record {
  mailbox_message_id = id;
  id = id;
  created_at = created_at;
  is_read = false;
  is_starred = false;
}

abbrev three : List Row
three = row 1 100 ∷ row 3 200 ∷ row 2 200 ∷ []

read_pages-visible_rows_example :
    read_pages 4 three none 2 ≡ some (row 3 200 ∷ row 2 200 ∷ row 1 100 ∷ [])
unfolding in_order
read_pages-visible_rows_example =
    read_pages-visible_rows 4 2 three (omega arith) ((refl, (refl, tt)), ((refl, tt), (tt, tt)))
      (omega arith)

abbrev same_text : String → String
same_text s = s

abbrev ann : Principal
ann = record { user_id = 1; permissions = "message.send" ∷ [] }

abbrev letter : SendInput
letter = record {
  mailbox_id = 4;
  to = "ann@example.com" ∷ [];
  cc = [];
  bcc = [];
  subject = "Hello";
  html = "";
  text = "Hello";
  attachment_ids = [];
  include_signature = false;
  parent_message_id = none;
}

abbrev fresh : SendFresh
fresh = record { message_id = 20; job_id = 30; now = 5000 }

abbrev again : SendFresh
again = record { message_id = 21; job_id = 31; now = 6000 }

abbrev send : SendFresh → Database → Database × Result Reply
send =
    send_message same_text same_text same_text str_eq (λ s. 0) (λ s. []) (λ n. "id") (λ n. none) []
      (λ j. true) 77 3 ann letter "key"

send_message-retry_example :
    send again (send fresh sample_database).0
    ≡ ((send fresh sample_database).0, ok (sent_reply 20 MessageStatus.sent))
unfolding send_message admit find_replay prepare_message assert_operation find_sender
    check_connection normalize_recipients normalize_group first_ones internal_at find_uploads
    thread_of message_write
send_message-retry_example =
    send_message-retry same_text same_text same_text str_eq (λ s. 0) (λ s. []) (λ n. "id")
      (λ n. none) [] (λ j. true) 77 3 ann letter "key" fresh again sample_database
      (send fresh sample_database).0 (sent_reply 20 MessageStatus.sent) refl (omega arith)
      (omega arith) refl
