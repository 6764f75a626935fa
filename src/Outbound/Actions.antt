-- ===== src/Outbound/Actions.antt =====
-- Every statement of the repository that writes `outbound_jobs`, as one step of an interleaving: the
-- claim, the two ends of a worker, the recovery of expired locks, the dispatcher's update, and the
-- writes of apps/worker/src/modules/messages/drafts.ts (a new job, a schedule, a cancellation), and the
-- removal of a message, which takes its jobs along (ON DELETE CASCADE). The two statements of the catch
-- block, which reads the attempts and then updates the job, are one step.
use uni_mailbox.Prelude.{
  refl, ◌∙◌, ◌≤◌, String, delete_where-All, delete_where, update_where, count_where, ◌≢◌, ap, arith,
  ◌&&◌, ◌≡◌, All, All-append, any, update_where-All, Bool-cases, inl, inr, ◌==◌, true, false, ℕ,
  Bool, List, [], ◌∷◌, ◌++◌, or_else,
}
use uni_mailbox.Domain.{SafeProviderError}
use uni_mailbox.Schema.{Job, Moment}
use uni_mailbox.Outbound.{
  claimable, claimed, holds, completed, gave_up, is_expired, recovered, is_pending, was_enqueued,
  claim, complete, give_up, delay_seconds, recover, mark_enqueued,
}
use uni_mailbox.Outbound.Process.{attempts_of, can_retry}
use uni_mailbox.Drafts.{
  reschedulable, rescheduled, new_job, upsert_job, cancel_jobs, is_cancellable,
}

pub data Action : Type 0 where
  claims : (token job_id message_id now : ℕ) → Action
  completes : (job_id token now : ℕ) → Action
  fails : (job_id token now : ℕ) → SafeProviderError → Action
  recovers : (now : ℕ) → Action
  enqueues : (job_id now : ℕ) → Action
  creates : (job_id message_id : ℕ) → Moment → (now : ℕ) → Action
  schedules : (job_id message_id : ℕ) → Moment → (now : ℕ) → Action
  cancels : (message_id : ℕ) → Action
  removes : (message_id : ℕ) → Action

-- The catch block's read of the attempts and its update of the job.
unfoldable pub fail_job : (job_id token now : ℕ) → SafeProviderError → List Job → List Job
fail_job job_id token now safe jobs =
    let current = attempts_of job_id token jobs in
    give_up job_id token (can_retry safe.retryable current) (delay_seconds (or_else current 1))
      (safe.code, safe.message) now jobs

unfoldable pub act : Action → List Job → List Job
act (claims token job_id message_id now) jobs = (claim token job_id message_id now jobs).0
act (completes job_id token now) jobs = complete job_id token now jobs
act (fails job_id token now safe) jobs = fail_job job_id token now safe jobs
act (recovers now) jobs = recover now jobs
act (enqueues job_id now) jobs = mark_enqueued job_id now jobs
act (creates job_id message_id moment now) jobs =
    jobs ++ new_job job_id message_id moment Bool.false now ∷ []
act (schedules job_id message_id moment now) jobs = (upsert_job job_id message_id moment now jobs).0
act (cancels message_id) jobs = (cancel_jobs message_id jobs).0
act (removes message_id) jobs = delete_where (λ j. j.message_id == message_id) jobs

unfoldable pub act_all : List Action → List Job → List Job
act_all [] jobs = jobs
act_all (a ∷ rest) jobs = act_all rest (act a jobs)

-- What the upsert of a schedule keeps of every row.
pub upsert_job-All {κ} :
    (P : Job → Type κ) (job_id message_id : ℕ) (moment : Moment) (now : ℕ) (jobs : List Job)
    → ((j : Job) → reschedulable message_id j ≡ true → P j → P (rescheduled moment now j))
    → P (new_job job_id message_id moment Bool.true now)
    → All P jobs
    → All P (upsert_job job_id message_id moment now jobs).0
unfolding upsert_job
upsert_job-All P job_id message_id moment now jobs keep new h =
    elim (Bool-cases (any (λ j. j.message_id == message_id) jobs)) [
      | inl e ↦ rw (e, upsert_job) (update_where-All P _ _ jobs keep h)
      | inr e ↦ rw (e, upsert_job) (All-append P jobs _ h (new, tt))
    ]

-- What a step must keep of each single row, for a property of all rows to survive it.
abbrev pub Keeps {κ} : (Job → Type κ) → Action → Type κ
Keeps P (claims t j m now) = (x : Job) → claimable j m now x ≡ true → P x → P (claimed t now x)
Keeps P (completes j t now) = (x : Job) → holds j t x ≡ true → P x → P (completed now x)
Keeps P (fails j t now safe) =
    (x : Job) (retry : Bool) (delay : ℕ) (note : String × String)
    → holds j t x ≡ true
    → P x
    → P (gave_up retry delay note now x)
Keeps P (recovers now) = (x : Job) → is_expired now x ≡ true → P x → P (recovered now x)
Keeps P (enqueues j now) =
    (x : Job) → (x.id == j && is_pending x.status) ≡ true → P x → P (was_enqueued now x)
Keeps P (creates j m moment now) = P (new_job j m moment Bool.false now)
Keeps P (schedules j m moment now) =
    ((x : Job) → reschedulable m x ≡ true → P x → P (rescheduled moment now x))
    × P (new_job j m moment Bool.true now)
Keeps P (cancels m) = Unit
Keeps P (removes m) = Unit

module _ {κ} (P : Job → Type κ) where
  pub act-All : (a : Action) (jobs : List Job) → Keeps P a → All P jobs → All P (act a jobs)
  unfolding act claim complete fail_job give_up recover cancel_jobs
  act-All (claims t j m now) jobs keep h = update_where-All P _ _ jobs keep h
  act-All (completes j t now) jobs keep h = update_where-All P _ _ jobs keep h
  act-All (fails j t now safe) jobs keep h = update_where-All P _ _ jobs (λ x. keep x _ _ _) h
  act-All (recovers now) jobs keep h = update_where-All P _ _ jobs keep h
  act-All (enqueues j now) jobs keep h = update_where-All P _ _ jobs keep h
  act-All (creates j m moment now) jobs keep h = All-append P jobs _ h (keep, tt)
  act-All (schedules j m moment now) jobs (keep, new) h =
      upsert_job-All P j m moment now jobs keep new h
  act-All (cancels m) jobs keep h = delete_where-All P _ jobs h
  act-All (removes m) jobs keep h = delete_where-All P _ jobs h

  pub act_all-All :
      (actions : List Action) (jobs : List Job)
      → All (Keeps P) actions
      → All P jobs
      → All P (act_all actions jobs)
  unfolding act_all
  act_all-All [] jobs keep h = h
  act_all-All (a ∷ rest) jobs (keep, keeps) h =
      act_all-All rest (act a jobs) keeps (act-All a jobs keep h)

-- A row-wise implication carries over to all rows.
pub All-imp {ℓ κ ι} :
    {A : Type ℓ} (P : A → Type κ) (Q : A → Type ι) (xs : List A)
    → ((x : A) → P x → Q x)
    → All P xs
    → All Q xs
All-imp P Q [] f h = tt
All-imp P Q (x ∷ xs) f (hx, h) = (f x hx, All-imp P Q xs f h)

module _ {ℓ} {A : Type ℓ} where
  pub count_where-update_where :
      (q p : A → Bool) (f : A → A) (xs : List A)
      → ((x : A) → q (f x) ≡ q x)
      → count_where q (update_where p f xs) ≡ count_where q xs
  unfolding update_where
  count_where-update_where q p f [] same = refl
  count_where-update_where q p f (x ∷ xs) same =
      ground (arith, same x, count_where-update_where q p f xs same)

  pub count_where-append :
      (q : A → Bool) (xs : List A) (x : A)
      → q x ≡ false
      → count_where q (xs ++ x ∷ []) ≡ count_where q xs
  count_where-append q [] x h = ground arith
  count_where-append q (y ∷ xs) x h = ground (arith, count_where-append q xs x h)

  pub count_where-delete_where-le :
      (q p : A → Bool) (xs : List A) → count_where q (delete_where p xs) ≤ count_where q xs
  count_where-delete_where-le q p [] = omega arith
  count_where-delete_where-le q p (x ∷ xs) = ground (arith, count_where-delete_where-le q p xs)

  -- A deletion that touches none of the rows that are counted.
  count_where-delete_where {κ} :
      (P : A → Type κ) (q p : A → Bool) (xs : List A)
      → ((x : A) → P x → q x ≡ true → p x ≡ false)
      → All P xs
      → count_where q (delete_where p xs) ≡ count_where q xs
  count_where-delete_where P q p [] apart h = refl
  count_where-delete_where P q p (x ∷ xs) apart (hx, h) =
      let others = count_where-delete_where P q p xs apart h in
      elim (Bool-cases (q x)) [
        | inl e ↦ let stays = apart x hx e in rw (stays, others) refl
        | inr e ↦ ground (arith, e, others)
      ]

-- What a step must spare for the rows of an identifier to keep their number, where P holds of all rows.
abbrev pub Spares : (Job → Type 0) → (job_id : ℕ) → Action → Type 0
Spares P job_id (creates j m moment now) = j ≢ job_id
Spares P job_id (schedules j m moment now) = j ≢ job_id
Spares P job_id (cancels m) = (x : Job) → P x → (x.id == job_id) ≡ true → is_cancellable m x ≡ false
Spares P job_id (removes m) =
    (x : Job) → P x → (x.id == job_id) ≡ true → (x.message_id == m) ≡ false
Spares P job_id a = Unit

upsert_job-count :
    (job_id j m : ℕ) (moment : Moment) (now : ℕ) (jobs : List Job)
    → j ≢ job_id
    → count_where (λ x. x.id == job_id) (upsert_job j m moment now jobs).0
      ≡ count_where (λ x. x.id == job_id) jobs
unfolding upsert_job
upsert_job-count job_id j m moment now jobs ne =
    elim (Bool-cases (any (λ x. x.message_id == m) jobs)) [
      | inl e ↦
          let after : (upsert_job j m moment now jobs).0
              ≡ update_where (reschedulable m) (rescheduled moment now) jobs =
            rw (e, upsert_job) refl in
          ap (count_where (λ x. x.id == job_id)) after
          ∙ count_where-update_where (λ x. x.id == job_id) _ _ jobs (λ x. refl)
      | inr e ↦
          let after : (upsert_job j m moment now jobs).0
              ≡ jobs ++ new_job j m moment true now ∷ [] =
            rw (e, upsert_job) refl in
          ap (count_where (λ x. x.id == job_id)) after
          ∙ count_where-append (λ x. x.id == job_id) jobs (new_job j m moment true now)
              (ground arith)
    ]

module _ (P : Job → Type 0) (job_id : ℕ) where
  act-count :
      (a : Action) (jobs : List Job)
      → Spares P job_id a
      → All P jobs
      → count_where (λ j. j.id == job_id) (act a jobs) ≡ count_where (λ j. j.id == job_id) jobs
  unfolding act claim complete fail_job give_up recover cancel_jobs upsert_job
  act-count (claims t j m now) jobs s h =
      count_where-update_where (λ x. x.id == job_id) _ _ jobs (λ x. refl)
  act-count (completes j t now) jobs s h =
      count_where-update_where (λ x. x.id == job_id) _ _ jobs (λ x. refl)
  act-count (fails j t now safe) jobs s h =
      count_where-update_where (λ x. x.id == job_id) _ _ jobs (λ x. refl)
  act-count (recovers now) jobs s h =
      count_where-update_where (λ x. x.id == job_id) _ _ jobs (λ x. refl)
  act-count (enqueues j now) jobs s h =
      count_where-update_where (λ x. x.id == job_id) _ _ jobs (λ x. refl)
  act-count (creates j m moment now) jobs s h =
      count_where-append (λ x. x.id == job_id) jobs (new_job j m moment false now) (ground arith)
  act-count (schedules j m moment now) jobs s h = upsert_job-count job_id j m moment now jobs s
  act-count (cancels m) jobs s h = count_where-delete_where P (λ x. x.id == job_id) _ jobs s h
  act-count (removes m) jobs s h = count_where-delete_where P (λ x. x.id == job_id) _ jobs s h

  -- Steps that keep P of each row and spare the rows of an identifier keep their number.
  pub act_all-count :
      (actions : List Action) (jobs : List Job)
      → All (Keeps P) actions
      → All (Spares P job_id) actions
      → All P jobs
      → count_where (λ j. j.id == job_id) (act_all actions jobs)
        ≡ count_where (λ j. j.id == job_id) jobs
  unfolding act_all
  act_all-count [] jobs keep spare h = refl
  act_all-count (a ∷ rest) jobs (keep, keeps) (spare, spares) h =
      act_all-count rest (act a jobs) keeps spares (act-All P a jobs keep h)
      ∙ act-count a jobs spare h
