-- ===== src/Outbound/Success.antt =====
-- What a worker leaves behind when the delivery succeeds.
use uni_mailbox.Prelude.{count_where-eq, ℕ, ◌+◌, ◌≡◌, refl, arith, ◌==◌, count_where, All}
use uni_mailbox.Domain.{ok, outbound_lock_ttl_ms}
use uni_mailbox.Schema.{Database}
use uni_mailbox.Outbound.{QueueMessage, claim, claimable}
use uni_mailbox.Outbound.Load.{Externals, Loaded}
use uni_mailbox.Outbound.Process.{process, settle, attempt, finish, Accepted, sent}
use uni_mailbox.Outbound.Locks.{Done, claim-All-Held, claimable→id, complete-Done}

-- A worker whose claim changed the one row of the job, and whose delivery is accepted, ends with the
-- job succeeded and unlocked.
pub process-Done :
    (ext : Externals) (q : QueueMessage) (token start done : ℕ) (db : Database) (l : Loaded)
    (a : Accepted)
    → count_where (λ j. j.id == q.job_id) db.jobs ≡ 1
    → (claim token q.job_id q.message_id start db.jobs).1 ≡ 1
    → attempt ext q.message_id
        (record db { jobs = (claim token q.job_id q.message_id start db.jobs).0 })
      ≡ ok (l, a)
    → ((process ext q token start done db).1 ≡ sent)
      × All (Done q.job_id q.message_id) (process ext q token start done db).0.jobs
unfolding process settle finish claim
process-Done ext q token start done db l a one got accepted =
    let held = claim-All-Held token q.job_id q.message_id start db.jobs (
      (count_where-eq (claimable q.job_id q.message_id start) (λ j. j.id == q.job_id)
          (claimable→id q.job_id q.message_id start) db.jobs).1
        (omega arith)) in
    (
      rw (got, accepted) refl,
      rw (got, accepted)
          (complete-Done q.job_id q.message_id token (start + outbound_lock_ttl_ms) done _ held),
    )
