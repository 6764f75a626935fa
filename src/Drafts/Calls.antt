-- ===== src/Drafts/Calls.antt =====
-- apps/worker/src/modules/messages/drafts.ts: send, and the checks that the three
-- calls share.
use package.text.Mathlib.Text.{◌==◌ as str_eq}
use uni_mailbox.Prelude.{
  ℕ, String, Bool, true, false, ◌&&◌, ◌||◌, not, List, [], ◌∷◌, map, Option, none, some, ◌==◌,
  if◌then◌else◌, update_where, insert_or_ignore, filter, any, count_where,
}
use uni_mailbox.Domain.{
  MessageStatus, queued, MailboxFolder, inbox, RecipientType, to, Result, ok, err, ◌>>=◌, ◌>>◌,
  other, guard, is_drafts, is_inbox,
}
use uni_mailbox.Schema.{
  Database, Job, Message, at, version, Link, Reply, sent_reply, draft_send, current_timestamp,
}
use uni_mailbox.Mailboxes.{send, is_active, assert_operation}
use uni_mailbox.Outbound.{is_waiting, is_processing, dispatch}
use uni_mailbox.Drafts.{
  HashInput, is_key_taken, Request, Fresh, DraftRow, assert_draft_version, require_draft,
  find_replay, job_of, has_version, with_record, new_job, is_at_version, checked, version_conflict,
  already_started, draft_scheduled, provider_not_configured, to_required,
}

-- loadRecipients
pub record Recipients : Type 0 where
  pub internal : List ℕ
  pub has_external : Bool

abbrev is_to : RecipientType → Bool
is_to to = true
is_to _ = false

abbrev is_queued : MessageStatus → Bool
is_queued queued = true
is_queued _ = false

abbrev is_sent : MessageStatus → Bool
is_sent MessageStatus.sent = true
is_sent _ = false

module _ (nocase_eq : String → String → Bool) (lower : String → String) where
  unfoldable pub load_recipients : Database → ℕ → Result Recipients
  load_recipients db draft_id = do
    let rows = filter (λ r. r.message_id == draft_id) db.recipients
    guard (any (λ r. is_to r.type) rows) to_required
    let internal =
        filter (λ b. is_active b.status && any (λ r. nocase_eq b.address r.address) rows)
          db.mailboxes
    let has_external =
        any (λ r. not (any (λ b. str_eq (lower b.address) (lower r.address)) internal)) rows
    ok (record { internal = map (λ b. b.id) internal; has_external = has_external })

-- The checks that the three calls share: the draft, its version and the right to send.
unfoldable pub open_draft : Request → Database → Result DraftRow
open_draft q db = do
  draft ← require_draft db q.user_id q.draft_id
  assert_draft_version draft.updated_at q.if_match
  assert_operation db q.user_id draft.mailbox_id send
  ok draft

-- Without a provider connection nothing can be sent outside.
unfoldable pub connection_for : DraftRow → Recipients → Result (Option ℕ)
connection_for draft r =
    if r.has_external
    then elim draft.outbound_connection_id [
      | none ↦ err provider_not_configured
      | some c ↦ ok (some c)
    ]
    else ok none

-- The job that stands in the way of an immediate send.
unfoldable pub no_active_job : Option Job → Result (Unit {0})
no_active_job none = ok tt
no_active_job (some j) =
    if is_waiting j.status
    then err draft_scheduled
    else guard (not (is_processing j.status)) already_started

abbrev pub send_status : Bool → MessageStatus
send_status true = queued
send_status false = MessageStatus.sent

abbrev pub has_send_status : Bool → MessageStatus → Bool
has_send_status true = is_queued
has_send_status false = is_sent

-- The first statement of the batch of `send`.
abbrev pub marked_queued : (external : Bool) → Option ℕ → Fresh → Message → Message
marked_queued external connection fresh m = record m {
  status = send_status external;
  provider_connection_id = connection;
  sent_at = (if external then none else some (at (current_timestamp fresh.now)));
  updated_at = version fresh.version;
}

abbrev pub copy_inbox : ℕ → List ℕ → List Link → List Link
copy_inbox draft_id [] links = links
copy_inbox draft_id (b ∷ rest) links = copy_inbox draft_id rest (
    insert_or_ignore (λ l. l.mailbox_id == b && l.message_id == draft_id && is_inbox l.folder)
      (record { mailbox_id = b; message_id = draft_id; folder = inbox }) links)

-- The batch of `send`: the later statements are bound to the new version. Both its INSERTs stand
-- behind a unique index, of the message or of the key; a statement that fails rolls the batch back.
unfoldable pub send_batch :
    Request
    → DraftRow
    → Recipients
    → Option ℕ
    → (hash : ℕ) → Fresh
    → Database
    → Result (Database × ℕ)
send_batch q draft r connection hash fresh db =
    let external = r.has_external in
    let mine = is_at_version q.user_id q.draft_id draft.updated_at in
    let updated : Database = record db {
      messages = update_where mine (marked_queued external connection fresh) db.messages;
    } in
    let here = has_version (has_send_status external) q.draft_id (version fresh.version) updated in
    let moved =
      update_where
        (λ l. l.message_id == q.draft_id && l.mailbox_id == draft.mailbox_id && is_drafts l.folder)
        (λ l. record l { folder = MailboxFolder.sent }) db.links in
    let queued_db : Database = record updated {
      links = (if here then copy_inbox q.draft_id r.internal moved else db.links);
      jobs =
          if external && here
          then mathlib.Core.List.◌++◌ db.jobs (
              new_job fresh.job_id q.draft_id
                (record { seconds = current_timestamp fresh.now; fraction = none }) false fresh.now
              ∷ [])
          else db.jobs;
    } in
    let clash =
      here
      && ((external && any (λ j. j.message_id == q.draft_id) db.jobs)
          || is_key_taken q.user_id draft_send q.idempotency_key db) in
    guard (not clash) other
    >> ok (
      with_record here q.user_id draft_send q.idempotency_key hash fresh.now
          (sent_reply q.draft_id (send_status external)) queued_db,
      count_where mine db.messages,
    )

module _ (hash : HashInput → ℕ) (parse_date : List ℕ → Option ℕ)
    (nocase_eq : String → String → Bool) (lower : String → String) (accepts : ℕ → Bool) where
  abbrev pub send_hash : Request → ℕ
  send_hash q = hash (record {
    operation = draft_send;
    draft_id = q.draft_id;
    version = q.if_match;
    scheduled_at = none;
  })

  -- Everything that `send` reads before its batch.
  unfoldable pub prepare_send : Request → Database → Result (DraftRow × Recipients × Option ℕ)
  prepare_send q db = do
    draft ← open_draft q db
    no_active_job (job_of q.draft_id db.jobs)
    r ← load_recipients nocase_eq lower db q.draft_id
    connection ← connection_for draft r
    ok (draft, r, connection)

  -- A queue that throws is only logged.
  unfoldable pub dispatch_new : Bool → Fresh → Database → Database
  dispatch_new false fresh db = db
  dispatch_new true fresh db = record db {
    jobs = (dispatch accepts fresh.job_id fresh.now db.jobs).jobs;
  }

  -- The batch and what its result means, on the database as it is by then.
  unfoldable pub send_write :
      Request → DraftRow → Recipients → Option ℕ → Fresh → Database → Database × Result Reply
  send_write q draft r connection fresh db =
      checked db (send_batch q draft r connection (send_hash q) fresh db) λ (after, changes).
        if changes == 1
        then (
          dispatch_new r.has_external fresh after,
          ok (sent_reply q.draft_id (send_status r.has_external)),
        )
        else (after, err version_conflict)

  unfoldable pub send_draft : Request → Fresh → Database → Database × Result Reply
  send_draft q fresh db =
      checked db (find_replay db q.user_id draft_send q.idempotency_key (send_hash q) fresh.now)
        λ o. elim o [
          | some reply ↦ (db, ok reply)
          | none ↦
              checked db (prepare_send q db)
                λ (draft, r, connection). send_write q draft r connection fresh db
        ]
