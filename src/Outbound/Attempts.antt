-- ===== src/Outbound/Attempts.antt =====
-- How often a job is tried: the limit of `runtimePolicy.outboundAttemptLimit`, and what recovery does
-- to it.
use uni_mailbox.Prelude.{
  ℕ, zero, suc, ◌+◌, ◌/◌, ◌≤◌, ◌<◌, Bool, true, false, List, [], ◌∷◌, none, some, ◌≡◌, refl, ap,
  ◌∙◌, sym, subst, ==_eq, String, ◌≢◌, inl, inr, arith, ◌==◌, Bool-cases, Option-cases, count_where,
  update_where, All, any,
}
use uni_mailbox.Schema.{Job, pending, Moment}
use uni_mailbox.Outbound.{claim, complete, give_up, recover, is_waiting, holds}
use uni_mailbox.Outbound.Process.{attempts_of, can_retry}
use uni_mailbox.Outbound.Actions.{
  Action, claims, completes, fails, recovers, enqueues, creates, schedules, cancels, act, act_all,
  removes, fail_job, act-All, All-imp, count_where-update_where, count_where-append,
  count_where-delete_where-le,
}
use uni_mailbox.Drafts.{new_job, upsert_job, cancel_jobs}

-- At most one row has the identifier: it is the primary key.
abbrev pub IsUnique : ℕ → List Job → Type 0
IsUnique job_id jobs = count_where (λ j. j.id == job_id) jobs ≤ 1

-- A waiting job has a try left, and no job was tried more often than the limit says.
abbrev pub Bounded : ℕ → Job → Type 0
Bounded job_id j = j.id ≡ job_id → (is_waiting j.status ≡ true → j.attempts < 5) × (j.attempts ≤ 5)

-- No worker crashes, so that recovery has nothing to do; new jobs get identifiers of their own.
abbrev pub IsCrashFree : ℕ → Action → Type 0
IsCrashFree job_id (recovers now) = ⊥
IsCrashFree job_id (creates j m moment now) = j ≢ job_id
IsCrashFree job_id (schedules j m moment now) = j ≢ job_id
IsCrashFree job_id a = Unit

update_where-IsUnique :
    (job_id : ℕ) (p : Job → Bool) (f : Job → Job) (jobs : List Job)
    → ((x : Job) → (f x).id ≡ x.id)
    → IsUnique job_id jobs
    → IsUnique job_id (update_where p f jobs)
update_where-IsUnique job_id p f jobs same u = omega (
  arith,
  count_where-update_where (λ x. x.id == job_id) p f jobs (λ x. ap (λ n. n == job_id) (same x)),
)

upsert_job-IsUnique :
    (job_id j m : ℕ) (moment : Moment) (now : ℕ) (jobs : List Job)
    → j ≢ job_id
    → IsUnique job_id jobs
    → IsUnique job_id (upsert_job j m moment now jobs).0
unfolding upsert_job
upsert_job-IsUnique job_id j m moment now jobs ne u =
    elim (Bool-cases (any (λ x. x.message_id == m) jobs)) [
      | inl e ↦ rw (e, upsert_job) (update_where-IsUnique job_id _ _ jobs (λ x. refl) u)
      | inr e ↦
          rw (e, upsert_job)
            (omega (
              arith,
              count_where-append (λ x. x.id == job_id) jobs (new_job j m moment true now)
                  (ground arith),
            ))
    ]

act-IsUnique :
    (job_id : ℕ) (a : Action) (jobs : List Job)
    → IsCrashFree job_id a
    → IsUnique job_id jobs
    → IsUnique job_id (act a jobs)
unfolding act claim complete fail_job give_up recover cancel_jobs
act-IsUnique job_id (claims t j m now) jobs f u =
    update_where-IsUnique job_id _ _ jobs (λ x. refl) u
act-IsUnique job_id (completes j t now) jobs f u =
    update_where-IsUnique job_id _ _ jobs (λ x. refl) u
act-IsUnique job_id (fails j t now safe) jobs f u =
    update_where-IsUnique job_id _ _ jobs (λ x. refl) u
act-IsUnique job_id (recovers now) jobs f u = absurd f
act-IsUnique job_id (enqueues j now) jobs f u = update_where-IsUnique job_id _ _ jobs (λ x. refl) u
act-IsUnique job_id (creates j m moment now) jobs f u = omega (
  arith,
  count_where-append (λ x. x.id == job_id) jobs (new_job j m moment false now) (ground arith),
)
act-IsUnique job_id (schedules j m moment now) jobs f u =
    upsert_job-IsUnique job_id j m moment now jobs f u
act-IsUnique job_id (cancels m) jobs f u =
    omega (arith, count_where-delete_where-le (λ x. x.id == job_id) _ jobs)
act-IsUnique job_id (removes m) jobs f u =
    omega (arith, count_where-delete_where-le (λ x. x.id == job_id) _ jobs)

-- No row but the one found has the identifier.
none_left :
    (job_id token : ℕ) (jobs : List Job)
    → count_where (λ j. j.id == job_id) jobs ≡ 0
    → All (λ x. holds job_id token x ≡ false) jobs
none_left job_id token [] h = tt
none_left job_id token (j ∷ jobs) h = (ground arith, none_left job_id token jobs (ground arith))

held_attempts :
    (job_id token n : ℕ) (jobs : List Job)
    → IsUnique job_id jobs
    → attempts_of job_id token jobs ≡ some n
    → All (λ x. holds job_id token x ≡ true → x.attempts ≡ n) jobs
held_attempts job_id token n [] u h = tt
held_attempts job_id token n (j ∷ jobs) u h = elim (Bool-cases (holds job_id token j)) [
  | inl e ↦ (
    λ _. ground arith,
    All-imp (λ x. holds job_id token x ≡ false) (λ x. holds job_id token x ≡ true → x.attempts ≡ n)
        jobs (λ x a b. absurd (ground arith)) (none_left job_id token jobs (ground arith)),
  )
  | inr e ↦ (λ k. ground arith, held_attempts job_id token n jobs (ground arith) (ground arith))
]

All-intro {ℓ κ} : {A : Type ℓ} (P : A → Type κ) (xs : List A) → ((x : A) → P x) → All P xs
All-intro P [] h = tt
All-intro P (x ∷ xs) h = (h x, All-intro P xs h)

-- A job that a worker gives up goes back to waiting only if it has a try left.
give_up-Bounded :
    (job_id j t : ℕ) (retry : Bool) (delay : ℕ) (note : String × String) (now : ℕ) (jobs : List Job)
    → (retry ≡ true → All (λ x. x.id ≡ job_id → holds j t x ≡ true → x.attempts < 5) jobs)
    → All (Bounded job_id) jobs
    → All (Bounded job_id) (give_up j t retry delay note now jobs)
unfolding give_up update_where
give_up-Bounded job_id j t retry delay note now [] room b = tt
give_up-Bounded job_id j t retry delay note now (x ∷ jobs) room (bx, b) = (
  (λ i. ground (arith, bx, λ (r : retry ≡ true). (room r).0)),
  give_up-Bounded job_id j t retry delay note now jobs (λ r. (room r).1) b,
)

room_left :
    (job_id j t : ℕ) (retryable : Bool) (jobs : List Job)
    → IsUnique job_id jobs
    → can_retry retryable (attempts_of j t jobs) ≡ true
    → All (λ x. x.id ≡ job_id → holds j t x ≡ true → x.attempts < 5) jobs
room_left job_id j t retryable jobs u r = elim (Bool-cases (j == job_id)) [
  | inr ne ↦
      All-intro (λ x. x.id ≡ job_id → holds j t x ≡ true → x.attempts < 5) jobs
        (λ x i h. absurd (ground arith))
  | inl same ↦ elim (Option-cases (attempts_of j t jobs)) [
    | inl e ↦ absurd (ground arith)
    | inr (n, e) ↦
        let below : n < 5 = (ground arith) in
        let u' : IsUnique j jobs = (subst (λ k. IsUnique k jobs) (sym (==_eq j job_id same)) u) in
        All-imp (λ x. holds j t x ≡ true → x.attempts ≡ n)
          (λ x. x.id ≡ job_id → holds j t x ≡ true → x.attempts < 5) jobs
          (λ x k i h. ground (arith, k h)) (held_attempts j t n jobs u' e)
  ]
]

act-Bounded :
    (job_id : ℕ) (a : Action) (jobs : List Job)
    → IsCrashFree job_id a
    → IsUnique job_id jobs
    → All (Bounded job_id) jobs
    → All (Bounded job_id) (act a jobs)
unfolding act fail_job
act-Bounded job_id (fails j t now safe) jobs f u b =
    give_up-Bounded job_id j t _ _ _ now jobs (room_left job_id j t safe.retryable jobs u) b
act-Bounded job_id (claims t j m now) jobs f u b =
    act-All (Bounded job_id) (claims t j m now) jobs (λ x e k i. ground (arith, k i)) b
act-Bounded job_id (completes j t now) jobs f u b =
    act-All (Bounded job_id) (completes j t now) jobs (λ x e k i. ground (arith, k i)) b
act-Bounded job_id (recovers now) jobs f u b = absurd f
act-Bounded job_id (enqueues j now) jobs f u b =
    act-All (Bounded job_id) (enqueues j now) jobs (λ x e k i. ground (arith, k i)) b
act-Bounded job_id (creates j m moment now) jobs f u b =
    act-All (Bounded job_id) (creates j m moment now) jobs (λ i. absurd (f i)) b
act-Bounded job_id (schedules j m moment now) jobs f u b =
    act-All (Bounded job_id) (schedules j m moment now) jobs
      (λ x e k i. ground (arith, k i), λ i. absurd (f i)) b
act-Bounded job_id (cancels m) jobs f u b = act-All (Bounded job_id) (cancels m) jobs tt b
act-Bounded job_id (removes m) jobs f u b = act-All (Bounded job_id) (removes m) jobs tt b

-- While nothing is recovered and new jobs get other identifiers, a job whose identifier is unique and
-- that was tried at most five times, fewer if it waits, stays so, whatever is done to the table.
pub act_all-Bounded :
    (job_id : ℕ) (actions : List Action) (jobs : List Job)
    → All (IsCrashFree job_id) actions
    → IsUnique job_id jobs
    → All (Bounded job_id) jobs
    → All (Bounded job_id) (act_all actions jobs)
unfolding act_all
act_all-Bounded job_id [] jobs f u b = b
act_all-Bounded job_id (a ∷ rest) jobs (f, fs) u b =
    act_all-Bounded job_id rest (act a jobs) fs (act-IsUnique job_id a jobs f u)
      (act-Bounded job_id a jobs f u b)

-- A job that was tried `n` times, waits and is due.
abbrev pub waiting_job : (n updated : ℕ) → Job
waiting_job n updated = record {
  id = 1;
  message_id = 2;
  status = pending;
  attempts = n;
  available_at = record { seconds = 0; fraction = none };
  lock_token = none;
  lock_expires_at = none;
  last_error = none;
  created_via_schedule = false;
  updated_at = updated;
}

-- A worker claims the job and crashes; its lock runs out and is recovered.
pub crashes : (n now : ℕ) → List Action
crashes zero now = []
crashes (suc n) now = claims now 1 2 now ∷ recovers (now + 300001) ∷ crashes n (now + 300001)

crash_once :
    (n u now : ℕ)
    → act (recovers (now + 300001)) (act (claims now 1 2 now) (waiting_job n u ∷ []))
      ≡ waiting_job (n + 1) ((now + 300001) / 1000) ∷ []
unfolding act claim recover update_where
crash_once n u now = ground arith

crashes_from :
    (n k u now : ℕ)
    → (v : ℕ) × (act_all (crashes n now) (waiting_job k u ∷ []) ≡ waiting_job (k + n) v ∷ [])
unfolding act_all crashes
crashes_from zero k u now = (u, ground arith)
crashes_from (suc n) k u now =
    let (v, e) = crashes_from n (k + 1) ((now + 300001) / 1000) (now + 300001) in
    (
      v,
      ap (act_all (crashes n (now + 300001))) (crash_once k u now)
          ∙ e
          ∙ ap (λ m. waiting_job m v ∷ []) (omega arith),
    )

-- Recovery looks at no limit: whatever the number, a job whose workers crash is tried that often.
pub attempts-unbounded :
    (n now : ℕ) → (u : ℕ) × (act_all (crashes n now) (waiting_job 0 0 ∷ []) ≡ waiting_job n u ∷ [])
attempts-unbounded n now =
    let (v, e) = crashes_from n 0 0 now in (v, e ∙ ap (λ m. waiting_job m v ∷ []) (omega arith))
