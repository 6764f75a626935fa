-- ===== src/Outbound/Outcomes.antt =====
-- What one call of a worker does on each of its branches.
use uni_mailbox.Prelude.{
  ℕ, zero, suc, ◌≤◌, ◌<◌, Bool, true, false, List, [], ◌∷◌, Option, none, some, ◌≡◌, refl, ◌≢◌, ◌⊎◌,
  inl, inr, arith, ◌==◌, Bool-cases, count_where, find_where, update_where, update_where_none,
  or_else,
}
use uni_mailbox.Domain.{Thrown, Result, ok, err, is_draft}
use uni_mailbox.Schema.{Database, Job, Message}
use uni_mailbox.Outbound.{QueueMessage, claim, claimable, claimed, give_up, delay_seconds}
use uni_mailbox.Outbound.Load.{Externals, load, Loaded, message_not_found, external_of}
use uni_mailbox.Outbound.Process.{
  process, settle, fail, attempt, finish, Accepted, skipped, abandoned, threw, safe_failure,
  record_failure, can_retry, attempts_of, is_draft_message, marked_sent, marked_failed,
}

module _ (ext : Externals) (q : QueueMessage) (token start done : ℕ) where
  -- A job that is not there, not waiting, not due or locked is left alone: nothing is written and
  -- nothing is sent.
  pub process-skipped :
      (db : Database)
      → count_where (claimable q.job_id q.message_id start) db.jobs ≡ 0
      → process ext q token start done db ≡ (db, skipped)
  unfolding process claim
  process-skipped db h =
      rw
        (
          h,
          update_where_none (claimable q.job_id q.message_id start) (claimed token start) db.jobs h,
        )
        refl

find-update_draft :
    (message_id wanted : ℕ) (f : Message → Message) (m : Message) (xs : List Message)
    → ((x : Message) → (f x).id ≡ x.id)
    → find_where (λ x. x.id == wanted) xs ≡ some m
    → is_draft m.status ≡ false
    → find_where (λ x. x.id == wanted) (update_where (is_draft_message message_id) f xs) ≡ some m
unfolding update_where
find-update_draft message_id wanted f m [] same h d = h
find-update_draft message_id wanted f m (x ∷ xs) same h d = elim (Bool-cases (x.id == wanted)) [
  | inl e ↦ ground (arith, same x)
  | inr e ↦ ground (arith, same x, find-update_draft message_id wanted f m xs same)
]

module _ (ext : Externals) (q : QueueMessage) (token done : ℕ) where
  -- However the attempt ended, a message that is no draft is not touched.
  settle-keeps :
      (r : Result (Loaded × Accepted)) (db : Database) (wanted : ℕ) (m : Message)
      → find_where (λ x. x.id == wanted) db.messages ≡ some m
      → is_draft m.status ≡ false
      → find_where (λ x. x.id == wanted) (settle ext q token done r db).0.messages ≡ some m
  unfolding settle fail finish record_failure
  settle-keeps (ok (l, a)) db wanted m h d =
      find-update_draft q.message_id wanted (marked_sent a done) m db.messages (λ x. refl) h d
  settle-keeps (err e) db wanted m h d = ground (
    arith,
    find-update_draft q.message_id wanted (marked_failed (safe_failure e) done) m db.messages
        (λ x. refl) h d,
  )

-- Whatever a worker does with a job, a message that is not in status `draft` keeps its row: one that
-- was queued by an immediate send is marked neither sent nor failed.
pub process-keeps :
    (ext : Externals) (q : QueueMessage) (token start done : ℕ) (db : Database) (wanted : ℕ)
    (m : Message)
    → find_where (λ x. x.id == wanted) db.messages ≡ some m
    → is_draft m.status ≡ false
    → find_where (λ x. x.id == wanted) (process ext q token start done db).0.messages ≡ some m
unfolding process
process-keeps ext q token start done db wanted m h d =
    let (jobs, changes) = claim token q.job_id q.message_id start db.jobs in
    let claimed_db : Database = record db { jobs = jobs } in
    let kept =
      settle-keeps ext q token done (attempt ext q.message_id claimed_db) claimed_db wanted m h d in
    elim (Bool-cases ((claim token q.job_id q.message_id start db.jobs).1 == 1)) [
      | inl e ↦ rw e kept
      | inr e ↦ rw e h
    ]

load_without_key :
    (ext : Externals) (db : Database) (message_id : ℕ) (row : Message)
    → find_where (λ m. m.id == message_id) db.messages ≡ some row
    → row.provider_key ≡ none
    → external_of ext db message_id ≢ []
    → load ext db message_id ≡ err message_not_found
unfolding load
load_without_key ext db message_id row h k x = ground arith

delay_below_limit : (n : ℕ) → n < 5 → delay_seconds n ≤ 16
unfolding delay_seconds
delay_below_limit zero h = omega arith
delay_below_limit (suc zero) h = omega arith
delay_below_limit (suc (suc zero)) h = omega arith
delay_below_limit (suc (suc (suc zero))) h = omega arith
delay_below_limit (suc (suc (suc (suc zero)))) h = omega arith
delay_below_limit (suc (suc (suc (suc (suc n))))) h = absurd (omega arith)

retry_delay :
    (retryable : Bool) (current : Option ℕ)
    → can_retry retryable current ≡ true
    → delay_seconds (or_else current 1) ≤ 16
retry_delay retryable none h = absurd (ground arith)
retry_delay retryable (some n) h = delay_below_limit n (ground arith)

-- What the catch block reads and writes.
module _ (job_id message_id token done : ℕ) (e : Thrown) (db : Database) where
  abbrev pub delay_of : ℕ
  delay_of = delay_seconds (or_else (attempts_of job_id token db.jobs) 1)

  abbrev pub written_jobs : Bool → List Job
  written_jobs retry =
      give_up job_id token retry delay_of ((safe_failure e).code, (safe_failure e).message) done
        db.jobs

  abbrev pub may_retry : Bool
  may_retry = can_retry (safe_failure e).retryable (attempts_of job_id token db.jobs)

  -- The failure of a worker: with a try left and an error that may pass, the job waits again for at
  -- most 16 seconds, the message is not touched and the error is thrown on; otherwise the job fails
  -- for good, and the message too if it is a draft.
  pub fail-branches :
      ((may_retry ≡ true)
        × (delay_of ≤ 16)
        × (fail job_id message_id token done e db
            ≡ (record db { jobs = written_jobs true }, threw e)))
      ⊎ ((may_retry ≡ false)
          × (fail job_id message_id token done e db ≡ (
            record db {
              jobs = written_jobs false;
              messages =
                  update_where
                    (is_draft_message message_id)
                    (marked_failed (safe_failure e) done)
                    db.messages;
            },
            abandoned,
          )))
  unfolding fail record_failure
  fail-branches = elim (Bool-cases may_retry) [
    | inl r ↦
        inl (
          r,
          retry_delay (safe_failure e).retryable (attempts_of job_id token db.jobs) r,
          rw r refl,
        )
    | inr r ↦ inr (r, rw r refl)
  ]

-- A message with an external recipient whose row has no provider key is never sent: the worker that
-- claims its job gives it up for good, with the error OUTBOUND_MESSAGE_NOT_FOUND.
pub process-without_key :
    (ext : Externals) (q : QueueMessage) (token start done : ℕ) (db : Database) (row : Message)
    → (claim token q.job_id q.message_id start db.jobs).1 ≡ 1
    → find_where (λ m. m.id == q.message_id) db.messages ≡ some row
    → row.provider_key ≡ none
    → external_of ext db q.message_id ≢ []
    → let claimed_db : Database = record db {
      jobs = (claim token q.job_id q.message_id start db.jobs).0;
    } in
      (process ext q token start done db).1 ≡ abandoned
      × ((process ext q token start done db).0.jobs
          ≡ written_jobs q.job_id q.message_id token done message_not_found claimed_db false)
unfolding process settle attempt fail record_failure safe_failure
process-without_key ext q token start done db row c h k x =
    let claimed_db : Database = record db {
      jobs = (claim token q.job_id q.message_id start db.jobs).0;
    } in
    let missing = load_without_key ext claimed_db q.message_id row h k x in
    (rw (c, missing) refl, rw (c, missing) refl)
