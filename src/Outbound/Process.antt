-- ===== src/Outbound/Process.antt =====
-- apps/worker/src/modules/outbound-mail/index.ts, processOutboundJob: the claim, the delivery and one
-- of two batches of writes. `token` is the fresh lock token; `start` is the time of the claim, `done`
-- the time of the last batch. The statements on the database are taken not to fail.
use Prim.Native.String.{◌++◌ as concat}
use uni_mailbox.Prelude.{
  ℕ, String, Bool, true, false, ◌&&◌, ◌||◌, not, List, [], ◌∷◌, Option, none, some, ltb, ◌==◌,
  if◌then◌else◌, find_where, update_where, insert_or_ignore, coalesce, or_else,
}
use uni_mailbox.Domain.{
  MessageStatus, MailboxFolder, inbox, to, cc, bcc, SafeProviderError, Thrown, domain, other,
  unknown, Result, ok, err, ◌>>=◌, ◌>>◌, guard, or_throw, domain_error, is_draft, is_drafts,
  is_inbox, parse_provider_key, outbound_attempt_limit,
}
use uni_mailbox.Schema.{Database, Message, Link, Stamp, at, text, current_timestamp, Job}
use uni_mailbox.Outbound.{QueueMessage, claim, complete, give_up, delay_seconds, holds}
use uni_mailbox.Outbound.Load.{
  Externals, Loaded, SendMessage, load, addresses, truthy, message_not_found,
}

-- safeFailure
unfoldable pub safe_failure : Thrown → SafeProviderError
safe_failure other = record {
  code = "OUTBOUND_SEND_FAILED";
  message = "Outbound delivery failed";
  retryable = true;
  category = unknown;
}
safe_failure (domain e) = elim e.details [
  | some details ↦ details
  | none ↦ record {
    code = e.code;
    message = e.message;
    retryable = not (ltb e.status 500);
    category = unknown;
  }
]

-- What the success batch binds: all null where there was no external recipient.
pub record Accepted : Type 0 where
  pub provider_key : Option String
  pub provider_message_id : Option String
  pub accepted_at : Option String

abbrev pub nothing_sent : Accepted
nothing_sent = record { provider_key = none; provider_message_id = none; accepted_at = none }

abbrev pub adapter_not_registered : String → Thrown
adapter_not_registered key =
    domain_error "PROVIDER_ADAPTER_NOT_REGISTERED"
      (concat "Provider " (concat key " is not registered")) 400

abbrev pub send_message : Loaded → SendMessage
send_message l = record {
  idempotency_key = l.row.id;
  sender = record { address = l.row.from_address; name = truthy (some l.row.from_name) };
  to_list = addresses to l.external;
  cc_list = addresses cc l.external;
  bcc_list = addresses bcc l.external;
  subject = l.row.subject;
  html = l.row.html_body;
  body_text = l.row.text_body;
  message_id = truthy l.row.message_id_header;
  in_reply_to = truthy l.row.in_reply_to_header;
  references = truthy (some l.row.references_header);
  attachments = l.attachments;
}

abbrev pub is_empty {ℓ} : {A : Type ℓ} → List A → Bool
is_empty [] = true
is_empty (x ∷ xs) = false

-- `to.length > 0 || cc.length > 0 || bcc.length > 0`
abbrev pub has_recipients : Loaded → Bool
has_recipients l =
    not (is_empty (addresses to l.external))
    || not (is_empty (addresses cc l.external))
    || not (is_empty (addresses bcc l.external))

module _ (ext : Externals) where
  open ext use {is_registered, decrypt, json_parses, send}

  -- The call of the provider.
  unfoldable pub call_provider : Loaded → Result Accepted
  call_provider l = do
    c ← or_throw l.credentials message_not_found
    key ← parse_provider_key c.provider_key
    guard (is_registered key) (adapter_not_registered key)
    secrets ← decrypt c.payload
    guard (json_parses c.config) other
    sent ←
        send key (record { connection_id = c.connection_id; config = c.config; secrets = secrets })
          (send_message l)
    ok (record {
      provider_key = some key;
      provider_message_id = some sent.provider_message_id;
      accepted_at = some sent.accepted_at;
    })

  unfoldable pub deliver : Loaded → Result Accepted
  deliver l = if has_recipients l then call_provider l else ok nothing_sent

-- UPDATE messages SET status = 'sent' … WHERE id = ? AND status = 'draft'
abbrev pub is_draft_message : ℕ → Message → Bool
is_draft_message message_id m = m.id == message_id && is_draft m.status

abbrev pub sent_at_of : Option String → ℕ → Stamp
sent_at_of none now = at (current_timestamp now)
sent_at_of (some t) now = text t

abbrev pub marked_sent : Accepted → ℕ → Message → Message
marked_sent a now m = record m {
  status = MessageStatus.sent;
  provider_key = coalesce a.provider_key m.provider_key;
  provider_message_id = coalesce a.provider_message_id m.provider_message_id;
  sent_at = some (sent_at_of a.accepted_at now);
  updated_at = at (current_timestamp now);
}

abbrev pub marked_failed : SafeProviderError → ℕ → Message → Message
marked_failed safe now m = record m {
  status = MessageStatus.failed;
  error_code = some safe.code;
  error_message = some safe.message;
  updated_at = at (current_timestamp now);
}

abbrev pub is_draft_link : ℕ → Link → Bool
is_draft_link message_id l = l.message_id == message_id && is_drafts l.folder

abbrev pub moved_to_sent : Link → Link
moved_to_sent l = record l { folder = MailboxFolder.sent }

abbrev pub is_inbox_link : (mailbox_id message_id : ℕ) → Link → Bool
is_inbox_link mailbox_id message_id l =
    l.mailbox_id == mailbox_id && l.message_id == message_id && is_inbox l.folder

-- The INSERT OR IGNORE statements of the internal mailboxes.
unfoldable pub deliver_internal : ℕ → List ℕ → List Link → List Link
deliver_internal message_id [] links = links
deliver_internal message_id (mailbox_id ∷ rest) links = deliver_internal message_id rest (
    insert_or_ignore (is_inbox_link mailbox_id message_id)
      (record { mailbox_id = mailbox_id; message_id = message_id; folder = inbox }) links)

-- The success batch.
unfoldable pub finish : (job_id message_id token done : ℕ) → Accepted → List ℕ → Database → Database
finish job_id message_id token done accepted mailbox_ids db = record db {
  messages = update_where (is_draft_message message_id) (marked_sent accepted done) db.messages;
  jobs = complete job_id token done db.jobs;
  links =
      deliver_internal message_id mailbox_ids
        (update_where (is_draft_link message_id) moved_to_sent db.links);
}

-- SELECT attempts … WHERE id = ? AND lock_token = ?
abbrev pub attempts_of : (job_id token : ℕ) → List Job → Option ℕ
attempts_of job_id token jobs = elim (find_where (holds job_id token) jobs) [
  | none ↦ none
  | some j ↦ some j.attempts
]

abbrev pub can_retry : Bool → Option ℕ → Bool
can_retry retryable current =
    retryable && ltb (or_else current outbound_attempt_limit) outbound_attempt_limit

-- The failure batch, given the attempts that were read.
unfoldable pub record_failure :
    (job_id message_id token done : ℕ) → SafeProviderError → Option ℕ → Database → Database
record_failure job_id message_id token done safe current db = record db {
  jobs =
      give_up job_id token (can_retry safe.retryable current) (delay_seconds (or_else current 1))
        (safe.code, safe.message) done db.jobs;
  messages =
      if can_retry safe.retryable current
      then db.messages
      else update_where (is_draft_message message_id) (marked_failed safe done) db.messages;
}

-- What the call of a worker ends with: `threw` makes the queue redeliver the message.
pub data Outcome : Type 0 where
  skipped : Outcome
  sent : Outcome
  abandoned : Outcome
  threw : Thrown → Outcome

-- The catch block.
unfoldable pub fail : (job_id message_id token done : ℕ) → Thrown → Database → Database × Outcome
fail job_id message_id token done error db =
    let safe = safe_failure error in
    let current = attempts_of job_id token db.jobs in
    (
      record_failure job_id message_id token done safe current db,
      if can_retry safe.retryable current then threw error else abandoned,
    )

module _ (ext : Externals) where
  -- The body of the try block up to the batch.
  unfoldable pub attempt : ℕ → Database → Result (Loaded × Accepted)
  attempt message_id db = do
    loaded ← load ext db message_id
    accepted ← deliver ext loaded
    ok (loaded, accepted)

  unfoldable pub settle :
      (job : QueueMessage) (token done : ℕ)
      → Result (Loaded × Accepted)
      → Database
      → Database × Outcome
  settle job token done (ok (loaded, accepted)) db = (
    finish job.job_id job.message_id token done accepted loaded.internal_mailbox_ids db,
    Outcome.sent,
  )
  settle job token done (err e) db = fail job.job_id job.message_id token done e db

  unfoldable pub process :
      (job : QueueMessage) (token start done : ℕ) → Database → Database × Outcome
  process job token start done db =
      let (jobs, changes) = claim token job.job_id job.message_id start db.jobs in
      let claimed_db = record db { jobs = jobs } in
      if changes == 1
      then settle job token done (attempt job.message_id claimed_db) claimed_db
      else (claimed_db, skipped)
