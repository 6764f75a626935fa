-- ===== src/Outbound/Tests.antt =====
-- Tests of the outbound jobs, and their theorems at concrete inputs: job 1 sends message 2.
use package.text.Mathlib.Text.{◌==◌ as str_eq}
use uni_mailbox.Prelude.{
  ℕ, true, String, List, [], ◌∷◌, none, some, ◌≡◌, ◌≢◌, refl, All, any, arith, find_where, ◌==◌,
}
use uni_mailbox.Domain.{MessageStatus, MailboxFolder, to, other, ok, err}
use uni_mailbox.Schema.{Database, Job, Message, processing}
use uni_mailbox.Samples.{sample_database, empty_database, sample_message}
use uni_mailbox.Outbound.{QueueMessage, claim, complete, dispatch}
use uni_mailbox.Outbound.Load.{load, Externals, external_of}
use uni_mailbox.Outbound.Process.{
  attempt, deliver, sent, process, finish, safe_failure, is_inbox_link, nothing_sent,
}
use uni_mailbox.Outbound.Actions.{
  Action, claims, completes, fails, recovers, enqueues, cancels, act_all,
}
use uni_mailbox.Outbound.Locks.{claim-exclusive, complete-final}
use uni_mailbox.Outbound.Attempts.{
  waiting_job, crashes, Bounded, act_all-Bounded, attempts-unbounded,
}
use uni_mailbox.Outbound.Outcomes.{process-keeps, may_retry}
use uni_mailbox.Outbound.Delivery.{finish-links}
use uni_mailbox.Outbound.Success.{process-Done}

abbrev waiting : List Job
waiting = waiting_job 0 0 ∷ []

abbrev others : List Action
others = claims 88 1 2 6000 ∷ completes 1 88 7000 ∷ recovers 305000 ∷ enqueues 1 8000 ∷ []

claim-exclusive_example : (claim 99 1 2 400000 (act_all others (claim 77 1 2 5000 waiting).0)).1 ≡ 0
unfolding claim
claim-exclusive_example =
    (claim-exclusive 77 1 2 5000 waiting others refl refl
        (tt, ((λ e. absurd (ground arith)), ((omega arith), (tt, tt))))).2
      99 400000

abbrev in_hand : Job
in_hand = record (waiting_job 1 5) {
  status = processing;
  lock_token = some 77;
  lock_expires_at = some 305000;
}

complete-final_example :
    (dispatch
      (λ n. true)
      1
      900000
      (act_all
        (recovers 900000 ∷ cancels 2 ∷ claims 88 1 2 900000 ∷ [])
        (complete 1 77 6000 (in_hand ∷ [])))).queued
    ≡ []
complete-final_example =
    (complete-final 1 2 77 305000 6000 (in_hand ∷ [])
        (recovers 900000 ∷ cancels 2 ∷ claims 88 1 2 900000 ∷ []) refl
        ((λ e. (refl, refl, refl, refl)), tt) (tt, (tt, (tt, tt)))).3
      (λ n. true) 900000

act_all-Bounded_example : All (Bounded 1) (
    act_all
      (claims 77 1 2 5000 ∷ fails 1 77 6000 (safe_failure other) ∷ claims 88 1 2 9000 ∷ [])
      waiting)
act_all-Bounded_example =
    act_all-Bounded 1
      (claims 77 1 2 5000 ∷ fails 1 77 6000 (safe_failure other) ∷ claims 88 1 2 9000 ∷ []) waiting
      (tt, (tt, (tt, tt))) (omega arith) ((λ e. ((λ w. omega arith), omega arith)), tt)

attempts-unbounded_example : (u : ℕ) × (act_all (crashes 9 1000) waiting ≡ waiting_job 9 u ∷ [])
attempts-unbounded_example = attempts-unbounded 9 1000

abbrev same_text : String → String
same_text s = s

-- A provider that refuses everything.
abbrev refusing : Externals
refusing = record {
  nocase_eq = str_eq;
  json_parses = λ s. true;
  decrypt = λ s. ok s;
  get_object = λ s. none;
  is_registered = λ s. true;
  send = λ k c m. err other;
}

abbrev job_message : QueueMessage
job_message = record { job_id = 1; message_id = 2 }

abbrev outgoing : MessageStatus → Message
outgoing status = record sample_message { provider_connection_id = some 7; status = status }

abbrev ready : MessageStatus → Database
ready status = record empty_database {
  jobs = waiting;
  messages = outgoing status ∷ [];
  recipients =
      record { message_id = 2; type = to; address = "bob@other.org"; display_name = "Bob" } ∷ [];
  links = record { mailbox_id = 4; message_id = 2; folder = MailboxFolder.drafts } ∷ [];
}

abbrev locked : Database
locked = record (ready MessageStatus.draft) { jobs = in_hand ∷ [] }

process-keeps_example :
    find_where
      (λ m. m.id == 2)
      (process refusing job_message 88 6000 7000 (ready MessageStatus.queued)).0.messages
    ≡ some (outgoing MessageStatus.queued)
process-keeps_example =
    process-keeps refusing job_message 88 6000 7000 (ready MessageStatus.queued) 2
      (outgoing MessageStatus.queued) refl refl

-- The error that is thrown on may pass, and the job has tries left.
retried : may_retry 1 2 77 7000 other locked ≡ true
unfolding safe_failure
retried = refl

external_left : external_of refusing (ready MessageStatus.draft) 2 ≢ []
external_left = λ e. absurd (ground arith)

finish-links_example :
    All
      (λ b.
        any (is_inbox_link b 2) (finish 1 2 77 7000 nothing_sent (5 ∷ 6 ∷ []) locked).links ≡ true)
      (5 ∷ 6 ∷ [])
finish-links_example = (finish-links 1 2 77 7000 nothing_sent (5 ∷ 6 ∷ []) locked 5 (omega arith)).0

-- A message of Ann's to herself.
abbrev to_ann : Database
to_ann = record sample_database {
  jobs = waiting;
  messages = sample_message ∷ [];
  recipients =
      record { message_id = 2; type = to; address = "ann@example.com"; display_name = "Ann" } ∷ [];
}

delivered_to_ann :
    attempt refusing 2 (record to_ann { jobs = (claim 88 1 2 6000 waiting).0 })
    ≡ ok (
      record {
        row = sample_message;
        credentials = none;
        external = [];
        attachments = [];
        internal_mailbox_ids = 4 ∷ [];
      },
      nothing_sent,
    )
unfolding attempt load deliver
delivered_to_ann = refl

process-Done_example : (process refusing job_message 88 6000 7000 to_ann).1 ≡ sent
unfolding claim
process-Done_example =
    (process-Done refusing job_message 88 6000 7000 to_ann
      (record {
        row = sample_message;
        credentials = none;
        external = [];
        attachments = [];
        internal_mailbox_ids = 4 ∷ [];
      })
      nothing_sent refl refl delivered_to_ann).0
