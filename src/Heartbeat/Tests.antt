-- ===== src/Heartbeat/Tests.antt =====
-- A trigger that fails at the second minute of an hour, and one that has never run.
use uni_mailbox.Prelude.{
  ℕ, ◌*◌, String, Bool, false, List, [], ◌∷◌, Option, none, some, ◌≡◌, refl, arith,
}
use uni_mailbox.Heartbeat.{
  HeartbeatStatus, HeartbeatRecord, ParsedRecord, ScheduledCheck, should_write_heartbeat,
  run_with_heartbeat, parse_heartbeat, parse_text, check_record, operational_alerts,
}
use uni_mailbox.Heartbeat.Current.{fields_of, run_ticks, run_ticks-alerts}

-- A store of records in place of texts.
abbrev not_empty : HeartbeatRecord → Bool
not_empty r = false

abbrev no_number : HeartbeatRecord → Option ℕ
no_number r = none

abbrev fields : HeartbeatRecord → Option ParsedRecord
fields r = some (fields_of r)

abbrev same : HeartbeatRecord → HeartbeatRecord
same r = r

-- A run that reads what its payload is given with.
abbrev tick : Option String → Option HeartbeatRecord → Option String × Option HeartbeatRecord
tick p read = (p, read)

abbrev ill : Option HeartbeatRecord
ill = some (record {
  timestamp = 121 * 60000;
  status = HeartbeatStatus.degraded;
  reason = some "D1_ERROR";
})

-- The run behind the failure still reads that nothing is stored, the next one reads the failure.
abbrev ticks : List (Option String × Option HeartbeatRecord)
ticks =
    tick (some "D1_ERROR") none ∷ tick none none ∷ tick none ill ∷ tick (some "timeout") ill ∷ []

abbrev stored : Option HeartbeatRecord
stored =
    run_ticks HeartbeatRecord not_empty no_number fields same (2 * 60) (tick none none ∷ ticks) none

recovered :
    parse_heartbeat HeartbeatRecord not_empty no_number fields same (
      run_ticks HeartbeatRecord not_empty no_number fields same 120
        (tick none none ∷ tick (some "D1_ERROR") none ∷ tick none none ∷ tick none ill ∷ [])
        none)
    ≡ some (record { timestamp = 123 * 60000; status = HeartbeatStatus.ok; reason = none })
unfolding run_ticks run_with_heartbeat should_write_heartbeat parse_heartbeat parse_text
recovered = refl

-- Runs that all end well, from five past on, with nothing stored: nothing is written before the full
-- hour, and ten minutes after the deployment the health check calls the trigger stale.
unwritten :
    run_ticks HeartbeatRecord not_empty no_number fields same 125
      (tick none none ∷ tick none none ∷ tick none none ∷ [])
      none
    ≡ none
unfolding run_ticks run_with_heartbeat should_write_heartbeat parse_heartbeat
unwritten = refl

called_stale : check_record (some (125 * 60000)) (136 * 60000) none ≡ ScheduledCheck.stale
unfolding check_record
called_stale = refl

run_ticks-alerts_example :
    (check_record none
        (130 * 60000)
        (parse_heartbeat HeartbeatRecord not_empty no_number fields same stored)
      ≡ ScheduledCheck.ok)
    × (operational_alerts
          (check_record none
            (130 * 60000)
            (parse_heartbeat HeartbeatRecord not_empty no_number fields same stored))
          (parse_heartbeat HeartbeatRecord not_empty no_number fields same stored)
        ≡ "scheduled_trigger_degraded" ∷ [])
run_ticks-alerts_example =
    run_ticks-alerts HeartbeatRecord not_empty no_number fields same (λ r. refl) (λ r. refl)
      (λ r. refl) 2 none none ticks none none (130 * 60000) (omega arith)
