-- ===== src/Drafts/Scheduling.antt =====
-- What the batches of `send`, `schedule` and `cancelSchedule` write when another request has changed
-- the draft after it was read.
use uni_mailbox.Prelude.{
  ℕ, String, Bool, true, false, ◌&&◌, List, [], ◌∷◌, ◌++◌, Option, ◌≡◌, refl, arith, ◌==◌, any,
  count_where, update_where_none, delete_where,
}
use uni_mailbox.Domain.{err, is_draft, MessageStatus}
use uni_mailbox.Schema.{Database, Message, version}
use uni_mailbox.Schedule.{to_d1_timestamp}
use uni_mailbox.Drafts.{
  HashInput, Request, Fresh, DraftRow, is_at_version, has_version, version_conflict, new_job,
  upsert_job, cancel_jobs, is_cancellable, stamp_eq,
}
use uni_mailbox.Drafts.Calls.{Recipients, send_batch, send_write, marked_queued, has_send_status}
use uni_mailbox.Drafts.Planning.{
  schedule_batch, schedule_write, cancel_batch, cancel_write, scheduled_message, may_bump, bumped,
}

-- No message carries the version yet: it is a fresh UUID.
abbrev pub IsNewVersion : ℕ → Database → Type 0
IsNewVersion v db = any (λ m. stamp_eq m.updated_at (version v)) db.messages ≡ false

any_weaken {ℓ} :
    {A : Type ℓ} (p q : A → Bool)
    → ((x : A) → q x ≡ true → p x ≡ true)
    → (xs : List A) → any p xs ≡ false
    → any q xs ≡ false
any_weaken p q imp [] h = refl
any_weaken p q imp (x ∷ xs) h = let i = imp x in ground (arith, any_weaken p q imp xs)

count_weaken {ℓ} :
    {A : Type ℓ} (p q : A → Bool)
    → ((x : A) → q x ≡ true → p x ≡ true)
    → (xs : List A) → count_where p xs ≡ 0
    → count_where q xs ≡ 0
count_weaken p q imp [] h = refl
count_weaken p q imp (x ∷ xs) h = let i = imp x in ground (arith, count_weaken p q imp xs)

-- Where no message has the version, the statements bound to it do nothing.
no_version :
    (has_status : MessageStatus → Bool) (draft_id v : ℕ) (db : Database)
    → IsNewVersion v db
    → has_version has_status draft_id (version v) db ≡ false
no_version has_status draft_id v db new =
    any_weaken (λ m. stamp_eq m.updated_at (version v))
      (λ m. m.id == draft_id && has_status m.status && stamp_eq m.updated_at (version v))
      (λ m e. ground arith) db.messages new

module _ (hash : HashInput → ℕ) (parse_date : List ℕ → Option ℕ)
    (nocase_eq : String → String → Bool) (lower : String → String) (accepts : ℕ → Bool)
    (q : Request) (draft : DraftRow) (fresh : Fresh) (db : Database) where
  abbrev mine : Message → Bool
  mine = is_at_version q.user_id q.draft_id draft.updated_at

  -- An immediate send that comes second, behind a change of the draft, with a version of its own that
  -- no message carries yet, reports the conflict and leaves the database as it was.
  pub send_write-conflict :
      (r : Recipients) (connection : Option ℕ)
      → IsNewVersion fresh.version db
      → count_where mine db.messages ≡ 0
      → send_write hash parse_date nocase_eq lower accepts q draft r connection fresh db
        ≡ (db, err version_conflict)
  unfolding send_write send_batch
  send_write-conflict r connection new stale =
      let same =
        update_where_none mine (marked_queued r.has_external connection fresh) db.messages stale in
      let absent = no_version (has_send_status r.has_external) q.draft_id fresh.version db new in
      rw (stale, same, absent) (ground arith)

  -- A schedule that comes second, with a new version and for a draft without a job, reports the same
  -- conflict, and yet it has written its job: the upsert of `outbound_jobs` is bound to no version.
  pub schedule_write-conflict :
      (requested instant : ℕ) (connection : Option ℕ)
      → IsNewVersion fresh.version db
      → count_where mine db.messages ≡ 0
      → any (λ j. j.message_id == q.draft_id) db.jobs ≡ false
      → schedule_write hash parse_date nocase_eq lower accepts q draft requested instant connection
          fresh db
        ≡ (
          record db {
            jobs =
                db.jobs
                ++ new_job fresh.job_id q.draft_id (to_d1_timestamp instant) true fresh.now ∷ [];
          },
          err version_conflict,
        )
  unfolding schedule_write schedule_batch upsert_job
  schedule_write-conflict requested instant connection new stale no_job =
      let same =
        update_where_none mine (scheduled_message connection fresh.version) db.messages stale in
      rw (no_job, stale, same, no_version is_draft q.draft_id fresh.version db new) refl

  -- A cancellation that comes second, with a new version and for a draft with one waiting job, reports
  -- the conflict too, and yet the job is gone: the DELETE is bound to no version either.
  pub cancel_write-conflict :
      IsNewVersion fresh.version db
      → count_where mine db.messages ≡ 0
      → count_where (is_cancellable q.draft_id) db.jobs ≡ 1
      → cancel_write hash parse_date nocase_eq lower accepts q draft fresh db ≡ (
        record db { jobs = delete_where (is_cancellable q.draft_id) db.jobs },
        err version_conflict,
      )
  unfolding cancel_write cancel_batch cancel_jobs
  cancel_write-conflict new stale waiting =
      let left = delete_where (is_cancellable q.draft_id) db.jobs in
      let none_bumped =
        count_weaken mine (may_bump q draft left) (λ m e. ground arith) db.messages stale in
      let same =
        update_where_none (may_bump q draft left) (bumped fresh.version) db.messages none_bumped in
      rw (waiting, none_bumped, same, no_version is_draft q.draft_id fresh.version db new) refl
