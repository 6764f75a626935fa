-- ===== src/Heartbeat/Current.antt =====
-- What the health check sees of a trigger that runs every minute.
use uni_mailbox.Prelude.{
  ℕ, ◌⊎◌, ◌&&◌, ◌||◌, not, ◌+◌, ◌*◌, ◌%◌, String, Bool, true, false, List, [], ◌∷◌, Option, none,
  some, length, leb, ◌≢◌, ◌≡◌, ◌≤◌, refl, arith, Bool-cases, inl, inr, ◌==◌, subst,
}
use uni_mailbox.Heartbeat.{
  HeartbeatStatus, was_degraded, HeartbeatRecord, ParsedRecord, ScheduledCheck, utc_minutes,
  status_name, checked_record, should_write_heartbeat, heartbeat_record, parse_text,
  run_with_heartbeat, parse_heartbeat, check_record, operational_alerts,
  healthy_heartbeat_freshness_ms,
}

-- The fields of a record, as JSON.parse finds them.
abbrev pub fields_of : HeartbeatRecord → ParsedRecord
fields_of r = record {
  timestamp = some r.timestamp;
  status = some (status_name r.status);
  reason = r.reason;
}

-- The last payload of several.
abbrev pub last_of : Option String → List (Option String) → Option String
last_of p [] = p
last_of p (q ∷ ps) = last_of q ps

abbrev pub is_some : Option String → Bool
is_some none = false
is_some (some reason) = true

-- The alert is there if the last payload threw, and not there if no failure is open. A failure that is
-- open may show or not, since a full hour or a later run may have written over it.
abbrev pub Alerted : (last : Option String) (failed : Bool) (alerts : List String) → Type 0
Alerted (some reason) failed alerts = alerts ≡ "scheduled_trigger_degraded" ∷ []
Alerted none false alerts = alerts ≡ []
Alerted none true alerts = (alerts ≡ []) ⊎ (alerts ≡ "scheduled_trigger_degraded" ∷ [])

-- What the record says at this minute: it is of this hour if it says that the payload ended well.
abbrev Tells : (minute : ℕ) → (last : Option String) (failed : Bool) → HeartbeatRecord → Type 0
Tells minute (some reason) failed r = (r.status ≡ HeartbeatStatus.degraded) × (failed ≡ true)
Tells minute none false r =
    (r.status ≡ HeartbeatStatus.ok) × (minute * 60000 ≤ r.timestamp + (minute % 60) * 60000)
Tells minute none true r =
    ((r.status ≡ HeartbeatStatus.ok) × (minute * 60000 ≤ r.timestamp + (minute % 60) * 60000))
    ⊎ (r.status ≡ HeartbeatStatus.degraded)

utc_minutes_lem : (minute : ℕ) → utc_minutes (minute * 60000) ≡ minute % 60
utc_minutes_lem minute = omega arith

not_zero : {n : ℕ} → (n == 0) ≡ false → n ≢ 0
not_zero h e = ground (arith, h, e)

or_false : (b : Bool) → (b || false) ≡ b
or_false true = refl
or_false false = refl

-- A record of this hour is fresh for ten minutes behind it.
in_time :
    (minute timestamp now : ℕ)
    → minute * 60000 ≤ timestamp + (minute % 60) * 60000
    → now ≤ (minute + 11) * 60000
    → leb now (timestamp + healthy_heartbeat_freshness_ms) ≡ true
in_time minute timestamp now recent soon =
    let le : now ≤ timestamp + healthy_heartbeat_freshness_ms = omega (arith, recent, soon) in
    ground (arith, le)

checked_record-fields_of :
    (t : ℕ) (s : HeartbeatStatus) (x : Option String)
    → checked_record (fields_of (record { timestamp = t; status = s; reason = x }))
      ≡ some (record { timestamp = t; status = s; reason = x })
checked_record-fields_of t HeartbeatStatus.ok x = refl
checked_record-fields_of t HeartbeatStatus.degraded x = refl

module _ (Text : Type 0) (is_empty : Text → Bool) (number_of : Text → Option ℕ)
    (json_of : Text → Option ParsedRecord) (stringify : HeartbeatRecord → Text) where
  -- Runs of the trigger at this minute and those that follow, each with what its payload throws and what
  -- it reads. Every read and write is answered; a read may give an older value, or none.
  unfoldable pub run_ticks :
      (minute : ℕ) → List (Option String × Option Text) → Option Text → Option Text
  run_ticks minute [] stored = stored
  run_ticks minute ((p, read) ∷ ticks) stored =
      run_ticks (minute + 1) ticks
        (run_with_heartbeat Text is_empty number_of json_of stringify true true p (minute * 60000)
          read stored).0

  abbrev pub payloads_of : List (Option String × Option Text) → List (Option String)
  payloads_of [] = []
  payloads_of ((p, read) ∷ ticks) = p ∷ payloads_of ticks

  -- A failure is open from a payload that threw until a full hour, or until a run that ends well and that
  -- reads a record of a failure.
  abbrev pub is_open : (minute : ℕ) (open_before : Bool) → List (Option String × Option Text) → Bool
  is_open minute open_before [] = open_before
  is_open minute open_before ((p, read) ∷ ticks) =
      is_open (minute + 1)
        (is_some p
          || (not (minute % 60 == 0)
              && (not
                    (was_degraded (parse_heartbeat Text is_empty number_of json_of stringify read))
                  && open_before)))
        ticks

  module _ (not_empty : (r : HeartbeatRecord) → is_empty (stringify r) ≡ false)
      (not_digits : (r : HeartbeatRecord) → number_of (stringify r) ≡ none)
      (round : (r : HeartbeatRecord) → json_of (stringify r) ≡ some (fields_of r)) where
    abbrev Current : (minute : ℕ) → (last : Option String) (failed : Bool) → Option Text → Type 0
    Current minute last failed stored =
        (r : HeartbeatRecord) × (parse_heartbeat Text is_empty number_of json_of stringify stored
          ≡ some r)
        × Tells minute last failed r

    parse-stringify :
        (r : HeartbeatRecord)
        → parse_heartbeat Text is_empty number_of json_of stringify (some (stringify r)) ≡ some r
    unfolding parse_heartbeat parse_text
    parse-stringify r =
        rw (parse_heartbeat, parse_text, not_empty r, not_digits r, round r)
          (checked_record-fields_of r.timestamp r.status r.reason)

    -- A run that leaves this record.
    written :
        (minute : ℕ) (last : Option String) (failed : Bool) (r : HeartbeatRecord)
        → Tells minute last failed r
        → Current minute last failed (some (stringify r))
    written minute last failed r t = (r, parse-stringify r, t)

    -- What a run writes that finds its payload well.
    Tells-well :
        (minute : ℕ) (failed : Bool)
        → Tells minute none failed (heartbeat_record (minute * 60000) HeartbeatStatus.ok none)
    Tells-well minute false = (refl, omega arith)
    Tells-well minute true = inl (refl, omega arith)

    -- A run at a full hour writes what its payload did.
    run-hour :
        (minute : ℕ) (p : Option String) (failed : Bool) (read stored : Option Text)
        → minute % 60 ≡ 0
        → Current minute p
            (is_some p || failed)
            (run_with_heartbeat Text is_empty number_of json_of stringify true true p
              (minute * 60000)
              read
              stored).0
    unfolding run_with_heartbeat should_write_heartbeat
    run-hour minute none failed read stored full =
        let full_hour : (utc_minutes (minute * 60000) == 0) ≡ true =
          ground (arith, utc_minutes_lem minute) in
        rw full_hour (
          written minute none failed (heartbeat_record (minute * 60000) HeartbeatStatus.ok none)
            (Tells-well minute failed))
    run-hour minute (some reason) failed read stored full =
        written minute (some reason) true
          (heartbeat_record (minute * 60000) HeartbeatStatus.degraded (some reason)) (refl, refl)

    -- A record that stays tells the same a minute later, within the hour.
    Tells-later :
        (minute : ℕ) (last : Option String) (failed : Bool) (r : HeartbeatRecord)
        → ((minute + 1) % 60 == 0) ≡ false
        → Tells minute last failed r
        → Tells (minute + 1) none failed r
    Tells-later minute (some reason) false r later (ill, f) = absurd (ground (arith, f))
    Tells-later minute (some reason) true r later (ill, f) = inr ill
    Tells-later minute none true r later (inr ill) = inr ill
    Tells-later minute none true r later (inl (well, recent)) =
        let same_hour : (minute + 1) % 60 ≡ minute % 60 + 1 = omega (arith, not_zero later) in
        inl (well, omega (arith, recent, same_hour))
    Tells-later minute none false r later (well, recent) =
        let same_hour : (minute + 1) % 60 ≡ minute % 60 + 1 = omega (arith, not_zero later) in
        (well, omega (arith, recent, same_hour))

    run-later :
        (minute : ℕ) (last p : Option String) (failed : Bool) (read stored : Option Text)
        → ((minute + 1) % 60 == 0) ≡ false
        → Current minute last failed stored
        → Current
            (minute + 1)
            p
            (is_some p
              || (not
                    (was_degraded (parse_heartbeat Text is_empty number_of json_of stringify read))
                  && failed))
            (run_with_heartbeat Text is_empty number_of json_of stringify true true p
              ((minute + 1) * 60000)
              read
              stored).0
    unfolding run_with_heartbeat should_write_heartbeat
    run-later minute last (some reason) failed read stored later c =
        written (minute + 1) (some reason) true
          (heartbeat_record ((minute + 1) * 60000) HeartbeatStatus.degraded (some reason))
          (refl, refl)
    run-later minute last none failed read stored later (r, e, t) =
        let not_full : (utc_minutes ((minute + 1) * 60000) == 0) ≡ false =
          ground (arith, utc_minutes_lem (minute + 1)) in
        elim (Bool-cases
          (was_degraded (parse_heartbeat Text is_empty number_of json_of stringify read))) [
            | inl d ↦
                rw (not_full, d)
                  (written (minute + 1) none false
                    (heartbeat_record ((minute + 1) * 60000) HeartbeatStatus.ok none)
                    (Tells-well (minute + 1) false))
            | inr d ↦ rw (not_full, d) (r, e, Tells-later minute last failed r later t)
          ]

    run-Current :
        (minute : ℕ) (last p : Option String) (failed : Bool) (read stored : Option Text)
        → Current minute last failed stored
        → Current
            (minute + 1)
            p
            (is_some p
              || (not ((minute + 1) % 60 == 0)
                  && (not (
                        was_degraded
                          (parse_heartbeat Text is_empty number_of json_of stringify read))
                      && failed)))
            (run_with_heartbeat Text is_empty number_of json_of stringify true true p
              ((minute + 1) * 60000)
              read
              stored).0
    run-Current minute last p failed read stored c = elim (Bool-cases ((minute + 1) % 60 == 0)) [
      | inl full ↦ rw full (run-hour (minute + 1) p false read stored (ground (arith, full)))
      | inr later ↦ rw later (run-later minute last p failed read stored later c)
    ]

    run_ticks-Current :
        (minute : ℕ) (last : Option String) (failed : Bool)
        (ticks : List (Option String × Option Text)) (stored : Option Text)
        → Current minute last failed stored
        → Current
            (minute + length ticks)
            (last_of last (payloads_of ticks))
            (is_open (minute + 1) failed ticks)
            (run_ticks (minute + 1) ticks stored)
    unfolding run_ticks
    run_ticks-Current minute last failed [] stored c =
        subst (λ m. Current m last failed stored) (omega arith) c
    run_ticks-Current minute last failed ((p, read) ∷ ticks) stored c =
        let now =
          is_some p
          || (not ((minute + 1) % 60 == 0)
              && (not
                    (was_degraded (parse_heartbeat Text is_empty number_of json_of stringify read))
                  && failed)) in
        subst
          (λ m.
            Current m (last_of p (payloads_of ticks))
              (is_open (minute + 1) failed ((p, read) ∷ ticks))
              (run_ticks (minute + 1) ((p, read) ∷ ticks) stored))
          (omega arith)
          (run_ticks-Current (minute + 1) p now ticks _
            (run-Current minute last p failed read stored c))

    Tells-check :
        (minute : ℕ) (last : Option String) (failed : Bool) (r : HeartbeatRecord)
        (deployed_at : Option ℕ) (now : ℕ)
        → Tells minute last failed r
        → now ≤ (minute + 11) * 60000
        → (check_record deployed_at now (some r) ≡ ScheduledCheck.ok)
          × Alerted last failed
              (operational_alerts (check_record deployed_at now (some r)) (some r))
    unfolding check_record operational_alerts
    Tells-check minute (some reason) failed r deployed_at now (ill, f) soon = rw ill (refl, refl)
    Tells-check minute none true r deployed_at now (inr ill) soon = rw ill (refl, inr refl)
    Tells-check minute none true r deployed_at now (inl (well, recent)) soon =
        let fresh = in_time minute r.timestamp now recent soon in rw (well, fresh) (refl, inl refl)
    Tells-check minute none false r deployed_at now (well, recent) soon =
        let fresh = in_time minute r.timestamp now recent soon in rw (well, fresh) (refl, refl)

    -- The trigger runs every minute from a full hour on, all its reads and writes are answered, and a read
    -- may give any older value. Then until eleven minutes after the last run, who reads what was written
    -- last finds the trigger in order, whatever was stored before, and raises the alert of a degraded
    -- trigger if the last payload threw, and does not if no payload threw since the last full hour, or
    -- since a run that ended well and read a record of a failure.
    pub run_ticks-alerts :
        (hour : ℕ) (p : Option String) (read : Option Text)
        (ticks : List (Option String × Option Text)) (before : Option Text) (deployed_at : Option ℕ)
        (now : ℕ)
        → now ≤ (hour * 60 + length ticks + 11) * 60000
        → let last =
            parse_heartbeat Text is_empty number_of json_of stringify
              (run_ticks (hour * 60) ((p, read) ∷ ticks) before) in
          (check_record deployed_at now last ≡ ScheduledCheck.ok)
          × Alerted
              (last_of p (payloads_of ticks))
              (is_open (hour * 60 + 1) (is_some p) ticks)
              (operational_alerts (check_record deployed_at now last) last)
    unfolding run_ticks
    run_ticks-alerts hour p read ticks before deployed_at now soon =
        let start : Current (hour * 60) p (is_some p)
            (run_with_heartbeat Text is_empty number_of json_of stringify true true p
              (hour * 60 * 60000) read before).0 =
          subst
            (λ f.
              Current (hour * 60) p f
                (run_with_heartbeat Text is_empty number_of json_of stringify true true p
                  (hour * 60 * 60000) read before).0)
            (or_false (is_some p)) (run-hour (hour * 60) p false read before (omega arith)) in
        let (r, e, t) = run_ticks-Current (hour * 60) p (is_some p) ticks _ start in
        rw e (
          Tells-check (hour * 60 + length ticks) (last_of p (payloads_of ticks))
            (is_open (hour * 60 + 1) (is_some p) ticks) r deployed_at now t soon)
