-- ===== src/Drafts/Tests.antt =====
-- The theorems of the draft calls at concrete inputs. Ann's draft 2 lies in mailbox 4 and goes to her
-- own address.
use package.text.Mathlib.Text.{◌==◌ as str_eq}
use uni_mailbox.Prelude.{
  ℕ, [], ◌∷◌, none, some, ◌≡◌, refl, String, Bool, true, false, update_where, insert_or_ignore,
  arith, Option, List,
}
use uni_mailbox.Domain.{ok, err, MessageStatus, MailboxFolder, to}
use uni_mailbox.Schema.{Database, version, at, sent_reply, draft_send}
use uni_mailbox.Samples.{sample_database, sample_message}
use uni_mailbox.Mailboxes.{assert_operation}
use uni_mailbox.Schedule.{to_d1_timestamp}
use uni_mailbox.Drafts.{
  HashInput, Request, Fresh, DraftRow, find_replay, new_job, require_draft, assert_draft_version,
  version_conflict,
}
use uni_mailbox.Drafts.Calls.{
  load_recipients, open_draft, connection_for, no_active_job, prepare_send, send_batch, send_write,
  send_draft, dispatch_new,
}
use uni_mailbox.Drafts.Planning.{schedule_write, cancel_write}
use uni_mailbox.Drafts.Scheduling.{
  send_write-conflict, schedule_write-conflict, cancel_write-conflict,
}
use uni_mailbox.Drafts.Replay.{send-retry}

abbrev with_draft : Database
with_draft = record sample_database {
  messages = sample_message ∷ [];
  links = record { mailbox_id = 4; message_id = 2; folder = MailboxFolder.drafts } ∷ [];
  recipients =
      record { message_id = 2; type = to; address = "ann@example.com"; display_name = "Ann" } ∷ [];
}

abbrev sample_request : Request
sample_request = record {
  user_id = 1;
  draft_id = 2;
  if_match = some (version 10);
  idempotency_key = "key";
}

-- The version that a caller read before somebody else changed the draft.
abbrev stale_draft : DraftRow
stale_draft = record {
  id = 2;
  updated_at = version 9;
  mailbox_id = 4;
  outbound_connection_id = none;
}

abbrev first_try : Fresh
first_try = record { now = 5000; job_id = 30; version = 11 }

abbrev second_try : Fresh
second_try = record { now = 9000; job_id = 31; version = 12 }

abbrev sample_hash : HashInput → ℕ
sample_hash h = h.draft_id

abbrev no_dates : List ℕ → Option ℕ
no_dates t = none

abbrev same_text : String → String
same_text s = s

abbrev always : ℕ → Bool
always n = true

send_write-conflict_example :
    send_write sample_hash no_dates str_eq same_text always sample_request stale_draft
      (record { internal = 4 ∷ []; has_external = false })
      none
      first_try
      with_draft
    ≡ (with_draft, err version_conflict)
send_write-conflict_example =
    send_write-conflict sample_hash no_dates str_eq same_text always sample_request stale_draft
      first_try with_draft (record { internal = 4 ∷ []; has_external = false }) none refl refl

schedule_write-conflict_example :
    schedule_write sample_hash no_dates str_eq same_text always sample_request stale_draft 120000
      120000 none first_try with_draft
    ≡ (
      record with_draft { jobs = new_job 30 2 (to_d1_timestamp 120000) true 5000 ∷ [] },
      err version_conflict,
    )
schedule_write-conflict_example =
    schedule_write-conflict sample_hash no_dates str_eq same_text always sample_request stale_draft
      first_try with_draft 120000 120000 none refl refl refl

abbrev with_job : Database
with_job = record with_draft { jobs = new_job 30 2 (to_d1_timestamp 120000) true 5000 ∷ [] }

cancel_write-conflict_example :
    cancel_write sample_hash no_dates str_eq same_text always sample_request stale_draft second_try
      with_job
    ≡ (with_draft, err version_conflict)
cancel_write-conflict_example =
    cancel_write-conflict sample_hash no_dates str_eq same_text always sample_request stale_draft
      second_try with_job refl refl refl

-- The draft in Ann's inbox and among her sent messages.
abbrev after_send : Database
after_send = record with_draft {
  messages =
      record sample_message {
        status = MessageStatus.sent;
        sent_at = some (at 5);
        updated_at = version 11;
      }
      ∷ [];
  links =
      record { mailbox_id = 4; message_id = 2; folder = MailboxFolder.sent }
      ∷ record { mailbox_id = 4; message_id = 2; folder = MailboxFolder.inbox }
      ∷ [];
  idempotency =
      record {
        actor_user_id = 1;
        operation = draft_send;
        idempotency_key = "key";
        request_hash = 2;
        response = sent_reply 2 MessageStatus.sent;
        expires_at = 86405;
      }
      ∷ [];
}

sent_first :
    send_draft sample_hash no_dates str_eq same_text always sample_request first_try with_draft
    ≡ (after_send, ok (sent_reply 2 MessageStatus.sent))
unfolding send_draft send_write send_batch prepare_send open_draft require_draft
    assert_draft_version load_recipients connection_for no_active_job find_replay dispatch_new
    assert_operation update_where insert_or_ignore
sent_first = refl

send-retry_example :
    send_draft sample_hash no_dates str_eq same_text always sample_request second_try after_send
    ≡ (after_send, ok (sent_reply 2 MessageStatus.sent))
send-retry_example =
    send-retry sample_hash no_dates str_eq same_text always sample_request first_try second_try
      with_draft after_send (sent_reply 2 MessageStatus.sent) refl (omega arith) (omega arith)
      sent_first

-- The first send's answer, kept for more than a day, beside a draft that was never sent.
abbrev expired : Database
expired = record with_draft { idempotency = after_send.idempotency }
