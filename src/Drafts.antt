-- ===== src/Drafts.antt =====
-- apps/worker/src/modules/messages/drafts.ts: send, schedule and cancelSchedule with their helpers
-- assertDraftVersion, loadRecipients and requireDraft. A call that throws may have written before it
-- did, so each returns the database beside its result. `hash` stands for SHA-256 over the canonical
-- JSON of a request, `lower` for toLowerCase, `nocase_eq` for the collation of the address columns.
-- `if_match` is the version that the header names between its quotes.
pub mod Calls
pub mod Editing
pub mod Planning
pub mod Replay
pub mod Scheduling
pub mod Tests
use package.text.Mathlib.Text.{◌==◌ as str_eq}
use uni_mailbox.Prelude.{
  ℕ, ◌+◌, String, Bool, true, false, ◌&&◌, ◌||◌, not, List, [], ◌∷◌, ◌++◌, map, Option, none, some,
  ltb, ◌==◌, if◌then◌else◌, find_where, update_where, delete_where, count_where, insert_or_ignore,
  filter, any, is_some_and,
}
use uni_mailbox.Domain.{
  MessageStatus, queued, MailboxFolder, inbox, RecipientType, to, Result, ok, err, ◌>>=◌, ◌>>◌,
  Thrown, other, domain_error, guard, or_throw, is_draft, is_drafts, is_inbox,
}
use uni_mailbox.Schema.{
  Database, Job, JobStatus, pending, enqueued, processing, Message, Stamp, at, millis, version,
  text, Link, Recipient, Mailbox, MailDomain, Moment, Reply, sent_reply, scheduled_reply,
  cancelled_reply, Operation, draft_send, draft_schedule, draft_schedule_cancel, message_send,
  IdempotencyRecord, current_timestamp,
}
use uni_mailbox.Mailboxes.{MailboxOperation, is_active, assert_operation}
use uni_mailbox.Schedule.{resolve_schedule_instant, to_d1_timestamp}
use uni_mailbox.Outbound.{is_pending, is_waiting, is_processing, dispatch}

abbrev pub stamp_eq : Stamp → Stamp → Bool
stamp_eq (at a) (at b) = a == b
stamp_eq (millis a) (millis b) = a == b
stamp_eq (version a) (version b) = a == b
stamp_eq (text a) (text b) = str_eq a b
stamp_eq _ _ = false

abbrev pub operation_eq : Operation → Operation → Bool
operation_eq draft_send draft_send = true
operation_eq draft_schedule draft_schedule = true
operation_eq draft_schedule_cancel draft_schedule_cancel = true
operation_eq message_send message_send = true
operation_eq _ _ = false

abbrev version_required : Thrown
version_required = domain_error "DRAFT_VERSION_REQUIRED" "An If-Match draft version is required" 428

abbrev pub version_conflict : Thrown
version_conflict =
    domain_error "DRAFT_VERSION_CONFLICT" "The draft was modified by another request" 409

abbrev pub key_reused : Thrown
key_reused =
    domain_error "IDEMPOTENCY_KEY_REUSED" "The idempotency key was used with different input" 409

abbrev pub draft_not_found : Thrown
draft_not_found = domain_error "DRAFT_NOT_FOUND" "Draft not found" 404

abbrev draft_scheduled : Thrown
draft_scheduled =
    domain_error "DRAFT_SCHEDULED" "Cancel the draft schedule before sending it immediately" 409

abbrev pub already_started : Thrown
already_started =
    domain_error "SCHEDULE_ALREADY_DISPATCHED" "The draft has already started dispatching" 409

abbrev pub already_dispatched : Thrown
already_dispatched =
    domain_error "SCHEDULE_ALREADY_DISPATCHED"
      "The draft has already been dispatched and cannot be rescheduled" 409

abbrev pub cancel_too_late : Thrown
cancel_too_late =
    domain_error "SCHEDULE_ALREADY_DISPATCHED"
      "The schedule has already been dispatched and cannot be cancelled" 409

abbrev pub provider_not_configured : Thrown
provider_not_configured =
    domain_error "OUTBOUND_PROVIDER_NOT_CONFIGURED"
      "The sender domain has no outbound provider connection" 409

abbrev to_required : Thrown
to_required = domain_error "DRAFT_TO_REQUIRED" "At least one TO recipient is required" 400

-- assertDraftVersion
unfoldable pub assert_draft_version : Stamp → Option Stamp → Result (Unit {0})
assert_draft_version current none = err version_required
assert_draft_version current (some v) = guard (stamp_eq v current) version_conflict

pub record DraftRow : Type 0 where
  pub id : ℕ
  pub updated_at : Stamp
  pub mailbox_id : ℕ
  pub outbound_connection_id : Option ℕ

abbrev pub is_own_draft : (user_id draft_id : ℕ) → Message → Bool
is_own_draft user_id draft_id m =
    m.id == draft_id && is_draft m.status && is_some_and (λ u. u == user_id) m.created_by_user_id

-- requireDraft: the message joined to its link in `drafts`, the mailbox and the domain.
unfoldable pub require_draft : Database → (user_id draft_id : ℕ) → Result DraftRow
require_draft db user_id draft_id = do
  m ← or_throw (find_where (is_own_draft user_id draft_id) db.messages) draft_not_found
  l ←
      or_throw (find_where (λ l. l.message_id == draft_id && is_drafts l.folder) db.links)
        draft_not_found
  b ← or_throw (find_where (λ b. b.id == l.mailbox_id) db.mailboxes) draft_not_found
  d ← or_throw (find_where (λ d. d.id == b.domain_id) db.domains) draft_not_found
  ok (record {
    id = draft_id;
    updated_at = m.updated_at;
    mailbox_id = l.mailbox_id;
    outbound_connection_id = d.outbound_connection_id;
  })

-- The canonical input of a request's digest.
pub record HashInput : Type 0 where
  pub operation : Operation
  pub draft_id : ℕ
  pub version : Option Stamp
  pub scheduled_at : Option ℕ

abbrev pub is_record_of : (user_id : ℕ) → Operation → String → ℕ → IdempotencyRecord → Bool
is_record_of user_id operation key now r =
    r.actor_user_id == user_id
    && operation_eq r.operation operation
    && str_eq r.idempotency_key key
    && ltb (current_timestamp now) r.expires_at

-- The replay: nothing recorded, the recorded answer, or a key used with another request.
unfoldable pub find_replay :
    Database → (user_id : ℕ) → Operation → String → (hash now : ℕ) → Result (Option Reply)
find_replay db user_id operation key hash now =
    elim (find_where (is_record_of user_id operation key now) db.idempotency) [
      | none ↦ ok none
      | some r ↦ if r.request_hash == hash then ok (some r.response) else err key_reused
    ]

abbrev pub job_of : ℕ → List Job → Option Job
job_of message_id = find_where (λ j. j.message_id == message_id)

-- `EXISTS (SELECT 1 FROM messages WHERE id = ? AND status = ? AND updated_at = ?)`
abbrev pub has_version : (MessageStatus → Bool) → ℕ → Stamp → Database → Bool
has_version has_status draft_id v db =
    any (λ m. m.id == draft_id && has_status m.status && stamp_eq m.updated_at v) db.messages

-- `datetime('now', '+1 day')`
abbrev pub in_a_day : ℕ → ℕ
in_a_day now = current_timestamp now + 86400

abbrev pub with_record :
    Bool → (user_id : ℕ) → Operation → String → (hash now : ℕ) → Reply → Database → Database
with_record here user_id operation key hash now reply db = record db {
  idempotency =
      if here
      then db.idempotency
        ++ record {
          actor_user_id = user_id;
          operation = operation;
          idempotency_key = key;
          request_hash = hash;
          response = reply;
          expires_at = in_a_day now;
        }
          ∷ []
      else db.idempotency;
}

-- The unique index of `idempotency_records`: a row with the key, expired or not, makes the INSERT
-- fail, and the whole batch with it.
abbrev pub is_key_taken : (user_id : ℕ) → Operation → String → Database → Bool
is_key_taken user_id operation key db =
    any
      (λ r.
        r.actor_user_id == user_id
        && operation_eq r.operation operation
        && str_eq r.idempotency_key key)
      db.idempotency

-- A new row of `outbound_jobs`, with the defaults of its columns.
abbrev pub new_job : (job_id message_id : ℕ) → Moment → Bool → ℕ → Job
new_job job_id message_id moment scheduled now = record {
  id = job_id;
  message_id = message_id;
  status = pending;
  attempts = 0;
  available_at = moment;
  lock_token = none;
  lock_expires_at = none;
  last_error = none;
  created_via_schedule = scheduled;
  updated_at = current_timestamp now;
}

-- The UPDATE … WHERE id, status = 'draft', created_by_user_id, updated_at.
abbrev pub is_at_version : (user_id draft_id : ℕ) → Stamp → Message → Bool
is_at_version user_id draft_id v m = is_own_draft user_id draft_id m && stamp_eq m.updated_at v

abbrev pub reschedulable : ℕ → Job → Bool
reschedulable message_id j = j.message_id == message_id && is_pending j.status

abbrev pub rescheduled : Moment → ℕ → Job → Job
rescheduled moment now j = record j {
  available_at = moment;
  created_via_schedule = true;
  updated_at = current_timestamp now;
}

-- INSERT … ON CONFLICT(message_id) DO UPDATE … WHERE status = 'pending'
unfoldable pub upsert_job : (job_id message_id : ℕ) → Moment → ℕ → List Job → List Job × ℕ
upsert_job job_id message_id moment now jobs =
    if any (λ j. j.message_id == message_id) jobs
    then (
      update_where (reschedulable message_id) (rescheduled moment now) jobs,
      count_where (reschedulable message_id) jobs,
    )
    else (jobs ++ new_job job_id message_id moment true now ∷ [], 1)

-- DELETE FROM outbound_jobs WHERE message_id = ? AND status IN ('pending', 'enqueued')
abbrev pub is_cancellable : ℕ → Job → Bool
is_cancellable message_id j = j.message_id == message_id && is_waiting j.status

unfoldable pub cancel_jobs : ℕ → List Job → List Job × ℕ
cancel_jobs message_id jobs =
    (delete_where (is_cancellable message_id) jobs, count_where (is_cancellable message_id) jobs)

pub record Request : Type 0 where
  pub user_id : ℕ
  pub draft_id : ℕ
  pub if_match : Option Stamp
  pub idempotency_key : String

-- What the call draws: the time and fresh identifiers.
pub record Fresh : Type 0 where
  pub now : ℕ
  pub job_id : ℕ
  pub version : ℕ

-- The database is as it was when a check before the batch throws.
abbrev pub checked {ℓ} :
    {A : Type ℓ} → Database → Result A → (A → Database × Result Reply) → Database × Result Reply
checked db (ok a) k = k a
checked db (err e) k = (db, err e)
