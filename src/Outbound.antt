-- ===== src/Outbound.antt =====
-- apps/worker/src/modules/outbound-mail/index.ts, the statements on `outbound_jobs`: the dispatcher,
-- the claim of a job by a worker, what a worker writes when it is done; and the recovery of expired
-- locks of apps/worker/src/modules/maintenance/scheduled.ts. `now` is Date.now() in milliseconds.
pub mod Load
pub mod Process
pub mod Actions
pub mod Locks
pub mod Attempts
pub mod Outcomes
pub mod Delivery
pub mod Success
pub mod Tests
use uni_mailbox.Prelude.{
  ℕ, suc, ◌+◌, ◌^◌, min, String, Bool, true, false, ◌&&◌, ◌||◌, List, [], ◌∷◌, Option, none, some,
  ltb, ◌==◌, if◌then◌else◌, is_some_and, is_none_or, is_none, count_where, find_where, take,
}
use uni_mailbox.Prelude.{update_where, filter, ◌++◌}
use uni_mailbox.Domain.{Thrown, domain, outbound_lock_ttl_ms}
use uni_mailbox.Schema.{
  Job, JobStatus, pending, enqueued, processing, succeeded, failed, Moment, is_due,
  current_timestamp,
}

abbrev pub is_pending : JobStatus → Bool
is_pending pending = true
is_pending _ = false

abbrev pub is_processing : JobStatus → Bool
is_processing processing = true
is_processing _ = false

-- `status IN ('pending', 'enqueued')`.
abbrev pub is_waiting : JobStatus → Bool
is_waiting pending = true
is_waiting enqueued = true
is_waiting _ = false

-- A queue message: what `OUTBOUND_QUEUE.send` is given.
pub record QueueMessage : Type 0 where
  pub job_id : ℕ
  pub message_id : ℕ

-- The WHERE clause of the claim, and what it sets.
abbrev pub claimable : (job_id message_id now : ℕ) → Job → Bool
claimable job_id message_id now j =
    j.id == job_id
    && j.message_id == message_id
    && is_waiting j.status
    && is_due j.available_at now
    && is_none_or (λ e. ltb e now) j.lock_expires_at

abbrev pub claimed : (token now : ℕ) → Job → Job
claimed token now j = record j {
  status = processing;
  attempts = j.attempts + 1;
  lock_token = some token;
  lock_expires_at = some (now + outbound_lock_ttl_ms);
  updated_at = current_timestamp now;
}

-- The claim: the new table, and `claim.meta.changes`.
unfoldable pub claim : (token job_id message_id now : ℕ) → List Job → List Job × ℕ
claim token job_id message_id now jobs = (
  update_where (claimable job_id message_id now) (claimed token now) jobs,
  count_where (claimable job_id message_id now) jobs,
)

-- `WHERE id = ? AND lock_token = ?`.
abbrev pub holds : (job_id token : ℕ) → Job → Bool
holds job_id token j = j.id == job_id && is_some_and (λ t. t == token) j.lock_token

abbrev pub completed : ℕ → Job → Job
completed now j = record j {
  status = succeeded;
  lock_token = none;
  lock_expires_at = none;
  updated_at = current_timestamp now;
}

unfoldable pub complete : (job_id token now : ℕ) → List Job → List Job
complete job_id token now = update_where (holds job_id token) (completed now)

-- `datetime('now', '+N seconds')`.
abbrev pub later : ℕ → ℕ → Moment
later now delay = record { seconds = current_timestamp now + delay; fraction = none }

abbrev pub gave_up : (retryable : Bool) (delay : ℕ) (note : String × String) (now : ℕ) → Job → Job
gave_up retryable delay note now j = record j {
  status = (if retryable then pending else failed);
  available_at = later now delay;
  lock_token = none;
  lock_expires_at = none;
  last_error = some note;
  updated_at = current_timestamp now;
}

unfoldable pub give_up :
    (job_id token : ℕ) (retryable : Bool) (delay : ℕ) (note : String × String) (now : ℕ)
    → List Job
    → List Job
give_up job_id token retryable delay note now =
    update_where (holds job_id token) (gave_up retryable delay note now)

-- Math.min(300, 2 ** attempts).
unfoldable pub delay_seconds : ℕ → ℕ
delay_seconds attempts = min 300 (2 ^ attempts)

-- recoverExpiredOutboundLocks
abbrev pub is_expired : ℕ → Job → Bool
is_expired now j = is_processing j.status && is_some_and (λ e. ltb e now) j.lock_expires_at

abbrev pub recovered : ℕ → Job → Job
recovered now j = record j {
  status = pending;
  lock_token = none;
  lock_expires_at = none;
  updated_at = current_timestamp now;
}

unfoldable pub recover : ℕ → List Job → List Job
recover now = update_where (is_expired now) (recovered now)

-- OutboundJobService.dispatch: `accepts` says whether the queue takes the message or `send` throws.
abbrev pub is_ready : (job_id now : ℕ) → Job → Bool
is_ready job_id now j = j.id == job_id && is_pending j.status && is_due j.available_at now

abbrev pub was_enqueued : ℕ → Job → Job
was_enqueued now j = record j { status = enqueued; updated_at = current_timestamp now }

abbrev pub mark_enqueued : (job_id now : ℕ) → List Job → List Job
mark_enqueued job_id now =
    update_where (λ j. j.id == job_id && is_pending j.status) (was_enqueued now)

pub record Dispatched : Type 0 where
  pub jobs : List Job
  pub queued : List QueueMessage
  pub threw : Bool

unfoldable pub dispatch : (accepts : ℕ → Bool) (job_id now : ℕ) → List Job → Dispatched
dispatch accepts job_id now jobs = elim (find_where (is_ready job_id now) jobs) [
  | none ↦ record { jobs = jobs; queued = []; threw = false }
  | some job ↦
      if accepts job.id
      then record {
        jobs = mark_enqueued job.id now jobs;
        queued = record { job_id = job.id; message_id = job.message_id } ∷ [];
        threw = false;
      }
      else record { jobs = jobs; queued = []; threw = true }
]

-- ORDER BY available_at, id: the texts of two moments within one second are ordered by the fraction.
moment_lt : Moment → Moment → Bool
moment_lt a b =
    ltb a.seconds b.seconds
    || (a.seconds == b.seconds
        && (is_none_or (λ f. is_some_and (λ g. ltb f g) b.fraction) a.fraction)
        && (is_some_and (λ _. true) b.fraction))

before : Job → Job → Bool
unfolding moment_lt
before a b =
    moment_lt a.available_at b.available_at
    || (ltb a.id b.id && (if moment_lt b.available_at a.available_at then false else true))

insert_job : Job → List Job → List Job
insert_job j [] = j ∷ []
insert_job j (k ∷ ks) = let rest = insert_job j ks in if before k j then k ∷ rest else j ∷ k ∷ ks

sort_jobs : List Job → List Job
sort_jobs [] = []
sort_jobs (j ∷ js) = insert_job j (sort_jobs js)

abbrev is_dispatchable : ℕ → Job → Bool
is_dispatchable now j = is_pending j.status && is_due j.available_at now

-- The loop of dispatchPending: a queue that throws ends it.
unfoldable pub dispatch_each : (accepts : ℕ → Bool) (now : ℕ) → List Job → List Job → Dispatched
unfolding dispatch
dispatch_each accepts now [] jobs = record { jobs = jobs; queued = []; threw = false }
dispatch_each accepts now (job ∷ rest) jobs =
    let first = dispatch accepts job.id now jobs in
    let more = dispatch_each accepts now rest first.jobs in
    if first.threw
    then first
    else record { jobs = more.jobs; queued = first.queued ++ more.queued; threw = more.threw }

unfoldable pub dispatch_pending : (accepts : ℕ → Bool) (limit now : ℕ) → List Job → Dispatched
unfolding dispatch_each sort_jobs insert_job before
dispatch_pending accepts limit now jobs =
    dispatch_each accepts now (take limit (sort_jobs (filter (is_dispatchable now) jobs))) jobs
