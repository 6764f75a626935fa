-- ===== src/Heartbeat.antt =====
-- apps/worker/src/modules/maintenance/heartbeat.ts and index.ts: the record that the scheduled trigger
-- leaves in the key-value store at every run, and the health check that reads it. The store holds
-- texts; Number with the test for digits, JSON.parse and JSON.stringify are parameters. The lifetime
-- of two days that the store gives an entry is not kept, and the two reads of one health check
-- answer alike.
pub mod Current
pub mod Tests
use package.text.Mathlib.Text.{◌==◌ as str_eq}
use uni_mailbox.Prelude.{
  ℕ, ◌+◌, ◌*◌, ◌/◌, ◌%◌, String, Bool, true, false, ◌&&◌, not, List, [], ◌∷◌, Option, none, some,
  ltb, leb, ◌==◌, if◌then◌else◌,
}

abbrev pub healthy_heartbeat_freshness_ms : ℕ
healthy_heartbeat_freshness_ms = 70 * 60 * 1000

abbrev pub scheduled_startup_window_ms : ℕ
scheduled_startup_window_ms = 10 * 60 * 1000

pub data HeartbeatStatus : Type 0 where
  ok : HeartbeatStatus
  degraded : HeartbeatStatus

pub record HeartbeatRecord : Type 0 where
  pub timestamp : ℕ
  pub status : HeartbeatStatus
  pub reason : Option String

pub data HeartbeatWriteDecision : Type 0 where
  ok_hourly : HeartbeatWriteDecision
  ok_recovery : HeartbeatWriteDecision
  degraded_keepalive : HeartbeatWriteDecision
  skipped : HeartbeatWriteDecision

-- Partial<HeartbeatRecord>: a field that is missing or of another type is none.
pub record ParsedRecord : Type 0 where
  pub timestamp : Option ℕ
  pub status : Option String
  pub reason : Option String

abbrev pub named_status : Option String → Option HeartbeatStatus
named_status none = none
named_status (some name) =
    if str_eq name "ok"
    then some HeartbeatStatus.ok
    else if str_eq name "degraded"
    then some HeartbeatStatus.degraded
    else none

abbrev pub status_name : HeartbeatStatus → String
status_name HeartbeatStatus.ok = "ok"
status_name HeartbeatStatus.degraded = "degraded"

abbrev pub checked_record : ParsedRecord → Option HeartbeatRecord
checked_record p = elim p.timestamp [
  | none ↦ none
  | some timestamp ↦ elim (named_status p.status) [
    | none ↦ none
    | some status ↦ some (record { timestamp = timestamp; status = status; reason = p.reason })
  ]
]

abbrev pub utc_minutes : ℕ → ℕ
utc_minutes now = (now / 60000) % 60

abbrev pub was_degraded : Option HeartbeatRecord → Bool
was_degraded none = false
was_degraded (some r) = elim r.status [
  | HeartbeatStatus.ok ↦ false
  | HeartbeatStatus.degraded ↦ true
]

unfoldable pub should_write_heartbeat :
    Option HeartbeatRecord → HeartbeatStatus → (now : ℕ) → HeartbeatWriteDecision
should_write_heartbeat previous HeartbeatStatus.degraded now =
    HeartbeatWriteDecision.degraded_keepalive
should_write_heartbeat previous HeartbeatStatus.ok now =
    if utc_minutes now == 0
    then HeartbeatWriteDecision.ok_hourly
    else if was_degraded previous
    then HeartbeatWriteDecision.ok_recovery
    else HeartbeatWriteDecision.skipped

-- `reason ? … : …` leaves an empty reason out.
abbrev pub heartbeat_record :
    (scheduled_time : ℕ) → HeartbeatStatus → (reason : Option String) → HeartbeatRecord
heartbeat_record scheduled_time status none = record {
  timestamp = scheduled_time;
  status = status;
  reason = none;
}
heartbeat_record scheduled_time status (some text) = record {
  timestamp = scheduled_time;
  status = status;
  reason = if str_eq text "" then none else some text;
}

-- What a run throws: the store could not be read or written, or the payload failed.
pub data Failure : Type 0 where
  store_failed : Failure
  tick_failed : (reason : String) → Failure

pub data ScheduledCheck : Type 0 where
  ok : ScheduledCheck
  pending : ScheduledCheck
  stale : ScheduledCheck
  error : ScheduledCheck

unfoldable pub check_record :
    (deployed_at : Option ℕ) → (now : ℕ) → Option HeartbeatRecord → ScheduledCheck
check_record none now none = ScheduledCheck.pending
check_record (some deployed_at) now none =
    if ltb (deployed_at + scheduled_startup_window_ms) now
    then ScheduledCheck.stale
    else ScheduledCheck.pending
check_record deployed_at now (some r) = elim r.status [
  | HeartbeatStatus.degraded ↦ ScheduledCheck.ok
  | HeartbeatStatus.ok ↦
      if leb now (r.timestamp + healthy_heartbeat_freshness_ms)
      then ScheduledCheck.ok
      else ScheduledCheck.stale
]

-- `operationalAlerts`, for what the check and the record say.
unfoldable pub operational_alerts : ScheduledCheck → Option HeartbeatRecord → List String
operational_alerts ScheduledCheck.stale last = "scheduled_trigger_stale" ∷ []
operational_alerts ScheduledCheck.error last = "scheduled_trigger_check_failed" ∷ []
operational_alerts _ last = if was_degraded last then "scheduled_trigger_degraded" ∷ [] else []

module _ (Text : Type 0) (is_empty : Text → Bool) (number_of : Text → Option ℕ)
    (json_of : Text → Option ParsedRecord) (stringify : HeartbeatRecord → Text) where
  unfoldable pub parse_text : Text → Option HeartbeatRecord
  parse_text raw = elim (number_of raw) [
    | some n ↦ some (record { timestamp = n; status = HeartbeatStatus.ok; reason = none })
    | none ↦ elim (json_of raw) [ none ↦ none | some p ↦ checked_record p ]
  ]

  unfoldable pub parse_heartbeat : Option Text → Option HeartbeatRecord
  unfolding parse_text
  parse_heartbeat none = none
  parse_heartbeat (some raw) = if is_empty raw then none else parse_text raw

  -- `writeHeartbeat` into a store that takes it, or throws.
  abbrev write_heartbeat :
      (is_writable : Bool) → HeartbeatRecord → Option Text → Option Text × Option Failure
  write_heartbeat true r stored = (some (stringify r), none)
  write_heartbeat false r stored = (stored, some store_failed)

  abbrev pub runs_well :
      (is_writable : Bool) (scheduled_time : ℕ)
      → HeartbeatWriteDecision
      → Option Text
      → Option Text × Option Failure
  runs_well is_writable scheduled_time HeartbeatWriteDecision.skipped stored = (stored, none)
  runs_well is_writable scheduled_time _ stored =
      write_heartbeat is_writable (heartbeat_record scheduled_time HeartbeatStatus.ok none) stored

  -- The store, and what the run throws; the payload either ends well or throws for a reason. `read` is
  -- what the store answers: its reads are cached, so that it may be an older value than `stored`.
  unfoldable pub run_with_heartbeat :
      (is_readable is_writable : Bool) (payload : Option String) (scheduled_time : ℕ)
      → (read stored : Option Text) → Option Text × Option Failure
  run_with_heartbeat false is_writable payload scheduled_time read stored =
      (stored, some store_failed)
  run_with_heartbeat true is_writable (some reason) scheduled_time read stored = (
    (write_heartbeat is_writable
        (heartbeat_record scheduled_time HeartbeatStatus.degraded (some reason)) stored).0,
    some (tick_failed reason),
  )
  run_with_heartbeat true is_writable none scheduled_time read stored =
      runs_well is_writable scheduled_time
        (should_write_heartbeat (parse_heartbeat read) HeartbeatStatus.ok scheduled_time) stored
