-- ===== src/Outbound/Locks.antt =====
-- Who may write a job: a claim is exclusive while its lock is live, and success is final.
use uni_mailbox.Prelude.{
  count_where-eq, ℕ, ◌+◌, ◌≤◌, Bool, true, List, [], ◌∷◌, none, some, ◌≡◌, refl, ◌≢◌, inl, inr,
  arith, ◌==◌, ==_eq, ◌∙◌, Bool-cases, count_where, find_where, update_where, All,
}
use uni_mailbox.Domain.{outbound_lock_ttl_ms}
use uni_mailbox.Schema.{Job, processing, succeeded}
use uni_mailbox.Outbound.{is_ready, dispatch, claim, claimable, complete}
use uni_mailbox.Outbound.Actions.{
  Action, claims, completes, fails, recovers, enqueues, creates, schedules, cancels, removes,
  act_all, Keeps, Spares, act_all-count, count_where-update_where, act_all-All, All-imp,
}

-- The job is in the hands of the worker with this token, until `expiry`.
abbrev pub Held : (job_id message_id token expiry : ℕ) → Job → Type 0
Held job_id message_id token expiry j =
    j.id ≡ job_id
    → (j.message_id ≡ message_id)
      × (j.status ≡ processing)
      × (j.lock_token ≡ some token)
      × (j.lock_expires_at ≡ some expiry)

-- What other services do while the lock is live: other workers have other tokens, new jobs other
-- identifiers, the recovery runs no later than the expiry, and the message is not removed.
abbrev pub Foreign : (job_id message_id token expiry : ℕ) → Action → Type 0
Foreign job_id message_id token expiry (claims t j m now) = Unit
Foreign job_id message_id token expiry (completes j t now) = t ≢ token
Foreign job_id message_id token expiry (fails j t now safe) = t ≢ token
Foreign job_id message_id token expiry (recovers now) = now ≤ expiry
Foreign job_id message_id token expiry (enqueues j now) = Unit
Foreign job_id message_id token expiry (creates j m moment now) = j ≢ job_id
Foreign job_id message_id token expiry (schedules j m moment now) = j ≢ job_id
Foreign job_id message_id token expiry (cancels m) = Unit
Foreign job_id message_id token expiry (removes m) = m ≢ message_id

module _ (job_id message_id token expiry : ℕ) where
  Held-Keeps :
      (a : Action)
      → Foreign job_id message_id token expiry a
      → Keeps (Held job_id message_id token expiry) a
  Held-Keeps (claims t j m now) f = λ x e k i. ground arith
  Held-Keeps (completes j t now) f = λ x e k i. ground arith
  Held-Keeps (fails j t now safe) f = λ x r d n e k i. ground arith
  Held-Keeps (recovers now) f = λ x e k i. ground arith
  Held-Keeps (enqueues j now) f = λ x e k i. ground arith
  Held-Keeps (creates j m moment now) f = λ i. absurd (f i)
  Held-Keeps (schedules j m moment now) f = (λ x e k i. ground arith, λ i. absurd (f i))
  Held-Keeps (cancels m) f = tt
  Held-Keeps (removes m) f = tt

  Held-Spares :
      (a : Action)
      → Foreign job_id message_id token expiry a
      → Spares (Held job_id message_id token expiry) job_id a
  Held-Spares (claims t j m now) f = tt
  Held-Spares (completes j t now) f = tt
  Held-Spares (fails j t now safe) f = tt
  Held-Spares (recovers now) f = tt
  Held-Spares (enqueues j now) f = tt
  Held-Spares (creates j m moment now) f = f
  Held-Spares (schedules j m moment now) f = f
  Held-Spares (cancels m) f = λ x h i. ground (arith, h (==_eq x.id job_id i))
  Held-Spares (removes m) f = λ x h i. ground (arith, h (==_eq x.id job_id i), f)

  act_all-Held :
      (actions : List Action) (jobs : List Job)
      → All (Foreign job_id message_id token expiry) actions
      → All (Held job_id message_id token expiry) jobs
      → All (Held job_id message_id token expiry) (act_all actions jobs)
  act_all-Held actions jobs f h =
      act_all-All (Held job_id message_id token expiry) actions jobs
        (All-imp (Foreign job_id message_id token expiry)
          (Keeps (Held job_id message_id token expiry)) actions Held-Keeps f)
        h

  act_all-Held_count :
      (actions : List Action) (jobs : List Job)
      → All (Foreign job_id message_id token expiry) actions
      → All (Held job_id message_id token expiry) jobs
      → count_where (λ j. j.id == job_id) (act_all actions jobs)
        ≡ count_where (λ j. j.id == job_id) jobs
  act_all-Held_count actions jobs f h =
      act_all-count (Held job_id message_id token expiry) job_id actions jobs
        (All-imp (Foreign job_id message_id token expiry)
          (Keeps (Held job_id message_id token expiry)) actions Held-Keeps f)
        (All-imp (Foreign job_id message_id token expiry)
          (Spares (Held job_id message_id token expiry) job_id) actions Held-Spares f)
        h

  not-claimable :
      (m now : ℕ) (jobs : List Job)
      → All (Held job_id message_id token expiry) jobs
      → count_where (claimable job_id m now) jobs ≡ 0
  not-claimable m now [] h = refl
  not-claimable m now (j ∷ jobs) (hj, h) = elim (Bool-cases (j.id == job_id)) [
    | inl e ↦ let (_, p, _, _) = hj (ground arith) in ground (arith, not-claimable m now jobs h)
    | inr e ↦ ground (arith, not-claimable m now jobs h)
  ]

pub claimable→id :
    (job_id message_id now : ℕ) (j : Job)
    → claimable job_id message_id now j ≡ true
    → (j.id == job_id) ≡ true
claimable→id job_id message_id now j h = ground arith

pub claim-All-Held :
    (token job_id message_id now : ℕ) (jobs : List Job)
    → All (λ j. (j.id == job_id) ≡ true → claimable job_id message_id now j ≡ true) jobs
    → All
        (Held job_id message_id token (now + outbound_lock_ttl_ms))
        (claim token job_id message_id now jobs).0
unfolding claim update_where
claim-All-Held token job_id message_id now [] h = tt
claim-All-Held token job_id message_id now (j ∷ jobs) (hj, h) = (
  λ i. ground (arith, claimable→id job_id message_id now j),
  claim-All-Held token job_id message_id now jobs h,
)

count_where-claim :
    (token job_id message_id now : ℕ) (jobs : List Job)
    → count_where (λ j. j.id == job_id) (claim token job_id message_id now jobs).0
      ≡ count_where (λ j. j.id == job_id) jobs
unfolding claim
count_where-claim token job_id message_id now jobs =
    count_where-update_where (λ x. x.id == job_id) _ _ jobs (λ x. refl)

-- After a claim that changed the one row of its job, whatever other services do with other tokens and
-- with other identifiers for new jobs, with no recovery after the lock has expired and no removal of
-- the message, there is still one row of the job, it is processing under the claimant's token, and
-- every further claim of it changes no row.
pub claim-exclusive :
    (token job_id message_id now : ℕ) (jobs : List Job) (actions : List Action)
    → count_where (λ j. j.id == job_id) jobs ≡ 1
    → (claim token job_id message_id now jobs).1 ≡ 1
    → All (Foreign job_id message_id token (now + outbound_lock_ttl_ms)) actions
    → let after = act_all actions (claim token job_id message_id now jobs).0 in
      (count_where (λ j. j.id == job_id) after ≡ 1)
      × All (Held job_id message_id token (now + outbound_lock_ttl_ms)) after
      × ((other again : ℕ) → (claim other job_id message_id again after).1 ≡ 0)
unfolding claim
claim-exclusive token job_id message_id now jobs actions one got foreign =
    let expiry = now + outbound_lock_ttl_ms in
    let first = claim-All-Held token job_id message_id now jobs (
      (count_where-eq (claimable job_id message_id now) (λ j. j.id == job_id)
          (claimable→id job_id message_id now) jobs).1
        (omega arith)) in
    let held = act_all-Held job_id message_id token expiry actions _ foreign first in
    (
      act_all-Held_count job_id message_id token expiry actions _ foreign first
          ∙ count_where-claim token job_id message_id now jobs
          ∙ one,
      held,
      λ other again. not-claimable job_id message_id token expiry message_id again _ held,
    )

-- The job has succeeded, and nobody holds it.
abbrev pub Done : (job_id message_id : ℕ) → Job → Type 0
Done job_id message_id j =
    j.id ≡ job_id → (j.message_id ≡ message_id) × (j.status ≡ succeeded) × (j.lock_token ≡ none)

-- New jobs get identifiers of their own, and the message is not removed.
abbrev pub IsFresh : (job_id message_id : ℕ) → Action → Type 0
IsFresh job_id message_id (creates j m moment now) = j ≢ job_id
IsFresh job_id message_id (schedules j m moment now) = j ≢ job_id
IsFresh job_id message_id (removes m) = m ≢ message_id
IsFresh job_id message_id a = Unit

Done-Keeps :
    (job_id message_id : ℕ) (a : Action)
    → IsFresh job_id message_id a
    → Keeps (Done job_id message_id) a
Done-Keeps job_id message_id (claims t j m now) f = λ x e k i. ground arith
Done-Keeps job_id message_id (completes j t now) f = λ x e k i. ground arith
Done-Keeps job_id message_id (fails j t now safe) f = λ x r d n e k i. ground arith
Done-Keeps job_id message_id (recovers now) f = λ x e k i. ground arith
Done-Keeps job_id message_id (enqueues j now) f = λ x e k i. ground arith
Done-Keeps job_id message_id (creates j m moment now) f = λ i. absurd (f i)
Done-Keeps job_id message_id (schedules j m moment now) f =
    (λ x e k i. ground arith, λ i. absurd (f i))
Done-Keeps job_id message_id (cancels m) f = tt
Done-Keeps job_id message_id (removes m) f = tt

Done-Spares :
    (job_id message_id : ℕ) (a : Action)
    → IsFresh job_id message_id a
    → Spares (Done job_id message_id) job_id a
Done-Spares job_id message_id (claims t j m now) f = tt
Done-Spares job_id message_id (completes j t now) f = tt
Done-Spares job_id message_id (fails j t now safe) f = tt
Done-Spares job_id message_id (recovers now) f = tt
Done-Spares job_id message_id (enqueues j now) f = tt
Done-Spares job_id message_id (creates j m moment now) f = f
Done-Spares job_id message_id (schedules j m moment now) f = f
Done-Spares job_id message_id (cancels m) f = λ x h i. ground (arith, h (==_eq x.id job_id i))
Done-Spares job_id message_id (removes m) f = λ x h i. ground (arith, h (==_eq x.id job_id i), f)

not-claimable-Done :
    (job_id message_id m now : ℕ) (jobs : List Job)
    → All (Done job_id message_id) jobs
    → count_where (claimable job_id m now) jobs ≡ 0
not-claimable-Done job_id message_id m now [] h = refl
not-claimable-Done job_id message_id m now (j ∷ jobs) (hj, h) = elim (Bool-cases (j.id == job_id)) [
  | inl e ↦
      let (_, p, _) = hj (ground arith) in
      ground (arith, not-claimable-Done job_id message_id m now jobs h)
  | inr e ↦ ground (arith, not-claimable-Done job_id message_id m now jobs h)
]

not-is_ready-Done :
    (job_id message_id now : ℕ) (jobs : List Job)
    → All (Done job_id message_id) jobs
    → find_where (is_ready job_id now) jobs ≡ none
not-is_ready-Done job_id message_id now [] h = refl
not-is_ready-Done job_id message_id now (j ∷ jobs) (hj, h) = elim (Bool-cases (j.id == job_id)) [
  | inl e ↦
      let (_, p, _) = hj (ground arith) in
      ground (arith, not-is_ready-Done job_id message_id now jobs h)
  | inr e ↦ ground (arith, not-is_ready-Done job_id message_id now jobs h)
]

pub complete-Done :
    (job_id message_id token expiry now : ℕ) (jobs : List Job)
    → All (Held job_id message_id token expiry) jobs
    → All (Done job_id message_id) (complete job_id token now jobs)
unfolding complete update_where
complete-Done job_id message_id token expiry now [] h = tt
complete-Done job_id message_id token expiry now (j ∷ jobs) (hj, h) =
    elim (Bool-cases (j.id == job_id)) [
      | inl e ↦
          let (o, p, q, _) = hj (ground arith) in
          (λ i. ground arith, complete-Done job_id message_id token expiry now jobs h)
      | inr e ↦ (λ i. ground arith, complete-Done job_id message_id token expiry now jobs h)
    ]

count_where-complete :
    (job_id token now : ℕ) (jobs : List Job)
    → count_where (λ j. j.id == job_id) (complete job_id token now jobs)
      ≡ count_where (λ j. j.id == job_id) jobs
unfolding complete
count_where-complete job_id token now jobs =
    count_where-update_where (λ x. x.id == job_id) _ _ jobs (λ x. refl)

-- Once the worker that holds the one row of a job has completed it, then whatever is done to the table
-- by anybody, as long as new jobs get other identifiers and the message is not removed, there is still
-- one row of the job and it has succeeded: no claim of it changes a row and no dispatch of it queues a
-- message again.
pub complete-final :
    (job_id message_id token expiry done : ℕ) (jobs : List Job) (actions : List Action)
    → count_where (λ j. j.id == job_id) jobs ≡ 1
    → All (Held job_id message_id token expiry) jobs
    → All (IsFresh job_id message_id) actions
    → let after = act_all actions (complete job_id token done jobs) in
      (count_where (λ j. j.id == job_id) after ≡ 1)
      × All (Done job_id message_id) after
      × ((other m again : ℕ) → (claim other job_id m again after).1 ≡ 0)
      × ((accepts : ℕ → Bool) (again : ℕ) → (dispatch accepts job_id again after).queued ≡ [])
unfolding claim dispatch
complete-final job_id message_id token expiry done jobs actions one held fresh =
    let first = complete-Done job_id message_id token expiry done jobs held in
    let keeps =
      All-imp (IsFresh job_id message_id) (Keeps (Done job_id message_id)) actions
        (Done-Keeps job_id message_id) fresh in
    let spares =
      All-imp (IsFresh job_id message_id) (Spares (Done job_id message_id) job_id) actions
        (Done-Spares job_id message_id) fresh in
    let settled = act_all-All (Done job_id message_id) actions _ keeps first in
    (
      act_all-count (Done job_id message_id) job_id actions _ keeps spares first
          ∙ count_where-complete job_id token done jobs
          ∙ one,
      settled,
      λ other m again. not-claimable-Done job_id message_id m again _ settled,
      λ accepts again. rw (not-is_ready-Done job_id message_id again _ settled, dispatch) refl,
    )
