-- ===== src/Drafts/Planning.antt =====
-- apps/worker/src/modules/messages/drafts.ts: schedule and cancelSchedule.
use uni_mailbox.Prelude.{
  ℕ, String, Bool, true, false, ◌&&◌, not, List, Option, none, some, ◌==◌, if◌then◌else◌,
  update_where, any, count_where,
}
use uni_mailbox.Domain.{Result, ok, err, ◌>>=◌, ◌>>◌, other, guard, or_throw, is_draft}
use uni_mailbox.Schema.{
  Database, Job, Message, version, Reply, scheduled_reply, cancelled_reply, draft_schedule,
  draft_schedule_cancel,
}
use uni_mailbox.Schedule.{resolve_schedule_instant, to_d1_timestamp}
use uni_mailbox.Outbound.{is_pending, is_waiting}
use uni_mailbox.Drafts.{
  HashInput, is_key_taken, Request, Fresh, DraftRow, find_replay, job_of, has_version, with_record,
  is_at_version, upsert_job, cancel_jobs, checked, version_conflict, already_dispatched,
  cancel_too_late,
}
use uni_mailbox.Drafts.Calls.{load_recipients, open_draft, connection_for}

-- What the batch of `schedule` sets in the message.
abbrev pub scheduled_message : Option ℕ → ℕ → Message → Message
scheduled_message connection v m = record m {
  provider_connection_id = connection;
  updated_at = version v;
}

-- The second statement of `cancelSchedule`: its WHERE clause, and what it sets.
abbrev pub may_bump : Request → DraftRow → List Job → Message → Bool
may_bump q draft jobs m =
    is_at_version q.user_id q.draft_id draft.updated_at m
    && not (any (λ j. j.message_id == q.draft_id) jobs)

abbrev pub bumped : ℕ → Message → Message
bumped v m = record m { updated_at = version v }

module _ (hash : HashInput → ℕ) (parse_date : List ℕ → Option ℕ)
    (nocase_eq : String → String → Bool) (lower : String → String) (accepts : ℕ → Bool) where
  abbrev pub schedule_hash : Request → ℕ → ℕ
  schedule_hash q instant = hash (record {
    operation = draft_schedule;
    draft_id = q.draft_id;
    version = q.if_match;
    scheduled_at = some instant;
  })

  -- Only a pending job can be scheduled anew.
  unfoldable pub only_pending : Option Job → Result (Unit {0})
  only_pending none = ok tt
  only_pending (some j) = guard (is_pending j.status) already_dispatched

  unfoldable pub prepare_schedule :
      Request → (value : List ℕ) (now : ℕ) → Database → Result (DraftRow × ℕ × Option ℕ)
  prepare_schedule q value now db = do
    draft ← open_draft q db
    only_pending (job_of q.draft_id db.jobs)
    instant ← resolve_schedule_instant parse_date value now
    r ← load_recipients nocase_eq lower db q.draft_id
    connection ← connection_for draft r
    ok (draft, instant, connection)

  -- The batch of `schedule`, with the changes of its first two statements.
  unfoldable pub schedule_batch :
      Request
      → DraftRow
      → (instant : ℕ) → Option ℕ
      → (hash_value : ℕ) → Fresh
      → Database
      → Result (Database × ℕ × ℕ)
  schedule_batch q draft instant connection hash_value fresh db =
      let mine = is_at_version q.user_id q.draft_id draft.updated_at in
      let (jobs, upserts) =
        upsert_job fresh.job_id q.draft_id (to_d1_timestamp instant) fresh.now db.jobs in
      let written : Database = record db {
        messages = update_where mine (scheduled_message connection fresh.version) db.messages;
        jobs = jobs;
      } in
      let here = has_version is_draft q.draft_id (version fresh.version) written in
      guard (not (here && is_key_taken q.user_id draft_schedule q.idempotency_key db)) other
      >> ok (
        with_record here q.user_id draft_schedule q.idempotency_key hash_value fresh.now
            (scheduled_reply q.draft_id instant (version fresh.version)) written,
        count_where mine db.messages,
        upserts,
      )

  unfoldable pub schedule_write :
      Request
      → DraftRow
      → (requested instant : ℕ) → Option ℕ
      → Fresh
      → Database
      → Database × Result Reply
  schedule_write q draft requested instant connection fresh db =
      checked db (schedule_batch q draft instant connection (schedule_hash q requested) fresh db)
        λ (after, changes, upserts).
          if changes == 1
          then (if upserts == 0
              then (after, err already_dispatched)
              else (after, ok (scheduled_reply q.draft_id instant (version fresh.version))))
          else (after, err version_conflict)

  -- `value` is the text of `scheduledAt`; what is no date makes toISOString throw.
  unfoldable pub schedule_draft :
      Request → (value : List ℕ) → Fresh → Database → Database × Result Reply
  schedule_draft q value fresh db = checked db (or_throw (parse_date value) other) λ requested.
      checked db
        (find_replay db q.user_id draft_schedule q.idempotency_key (schedule_hash q requested)
          fresh.now)
        λ o. elim o [
          | some reply ↦ (db, ok reply)
          | none ↦
              checked db (prepare_schedule q value fresh.now db) λ (draft, instant, connection).
                schedule_write q draft requested instant connection fresh db
        ]

  abbrev pub cancel_hash : Request → ℕ
  cancel_hash q = hash (record {
    operation = draft_schedule_cancel;
    draft_id = q.draft_id;
    version = q.if_match;
    scheduled_at = none;
  })

  -- The batch of `cancelSchedule`.
  unfoldable pub cancel_batch :
      Request → DraftRow → (hash_value : ℕ) → Fresh → Database → Result (Database × ℕ × ℕ)
  cancel_batch q draft hash_value fresh db =
      let (jobs, deletes) = cancel_jobs q.draft_id db.jobs in
      let mine = may_bump q draft jobs in
      let written : Database = record db {
        messages = update_where mine (bumped fresh.version) db.messages;
        jobs = jobs;
      } in
      let here = has_version is_draft q.draft_id (version fresh.version) written in
      guard (not (here && is_key_taken q.user_id draft_schedule_cancel q.idempotency_key db)) other
      >> ok (
        with_record here q.user_id draft_schedule_cancel q.idempotency_key hash_value fresh.now
            (cancelled_reply q.draft_id true (version fresh.version)) written,
        deletes,
        count_where mine db.messages,
      )

  unfoldable pub cancel_write : Request → DraftRow → Fresh → Database → Database × Result Reply
  cancel_write q draft fresh db =
      checked db (cancel_batch q draft (cancel_hash q) fresh db) λ (after, deletes, changes).
        if deletes == 1
        then (if changes == 1
            then (after, ok (cancelled_reply q.draft_id true (version fresh.version)))
            else (after, err version_conflict))
        else (after, err cancel_too_late)

  unfoldable pub cancel_existing :
      Request → DraftRow → Fresh → Option Job → Database → Database × Result Reply
  cancel_existing q draft fresh none db =
      if is_key_taken q.user_id draft_schedule_cancel q.idempotency_key db
      then (db, err other)
      else (
        with_record true q.user_id draft_schedule_cancel q.idempotency_key (cancel_hash q) fresh.now
            (cancelled_reply q.draft_id false draft.updated_at) db,
        ok (cancelled_reply q.draft_id false draft.updated_at),
      )
  cancel_existing q draft fresh (some j) db =
      if is_waiting j.status then cancel_write q draft fresh db else (db, err cancel_too_late)

  unfoldable pub cancel_schedule : Request → Fresh → Database → Database × Result Reply
  cancel_schedule q fresh db =
      checked db
        (find_replay db q.user_id draft_schedule_cancel q.idempotency_key (cancel_hash q) fresh.now)
        λ o. elim o [
          | some reply ↦ (db, ok reply)
          | none ↦
              checked db (open_draft q db)
                λ draft. cancel_existing q draft fresh (job_of q.draft_id db.jobs) db
        ]
