-- ===== src/Webhook/Delivered.antt =====
-- Who handles a webhook event: the claim of a delivery.
use uni_mailbox.Prelude.{
  count_where-eq, ℕ, ◌+◌, ◌≤◌, String, true, false, List, [], ◌∷◌, none, some, ◌≡◌, refl, arith,
  ◌==◌, Bool-cases, inl, inr, find_where, count_where, update_where, ◌≢◌, ◌++◌, All, Option-cases,
  update_where_none, ==_refl, subst, ap, ◌∙◌, if◌then◌else◌,
}
use uni_mailbox.Domain.{ok, err, webhook_lock_ttl_ms}
use uni_mailbox.Schema.{Delivery, DeliveryStatus}
use uni_mailbox.Webhook.{
  ProviderEvent, acquired, claim_event, take_over, is_delivery, may_take, taken, new_delivery,
  fail_event, failed_delivery, webhook_busy, is_settled,
}

-- The delivery of the event is in the hands of somebody, until `expiry`.
abbrev pub Locked : ProviderEvent → (expiry : ℕ) → Delivery → Type 0
Locked e expiry d =
    is_delivery e d ≡ true
    → (d.processing_status ≡ DeliveryStatus.processing) × (d.lock_expires_at ≡ some expiry)

module _ (e : ProviderEvent) where
  not-may_take-Locked :
      (expiry later : ℕ) (rows : List Delivery)
      → later ≤ expiry
      → All (Locked e expiry) rows
      → count_where (may_take e later) rows ≡ 0
  not-may_take-Locked expiry later [] le h = refl
  not-may_take-Locked expiry later (d ∷ rows) le (hd, h) = elim (Bool-cases (is_delivery e d)) [
    | inl i ↦ let (s, l) = hd i in ground (arith, not-may_take-Locked expiry later rows le h)
    | inr i ↦ ground (arith, not-may_take-Locked expiry later rows le h)
  ]

  find_where-Locked :
      (expiry : ℕ) (rows : List Delivery) (d : Delivery)
      → All (Locked e expiry) rows
      → find_where (is_delivery e) rows ≡ some d
      → is_settled d.processing_status ≡ false
  find_where-Locked expiry [] d h f = absurd (ground arith)
  find_where-Locked expiry (x ∷ rows) d (hx, h) f = elim (Bool-cases (is_delivery e x)) [
    | inl i ↦ let (s, l) = hx i in ground arith
    | inr i ↦ find_where-Locked expiry rows d h (ground arith)
  ]

  -- The claim of an event whose delivery is there and not settled.
  claim_open :
      (token now : ℕ) (rows : List Delivery) (d : Delivery)
      → find_where (is_delivery e) rows ≡ some d
      → is_settled d.processing_status ≡ false
      → claim_event e token now rows ≡ (
        update_where (may_take e now) (taken token now) rows,
        if count_where (may_take e now) rows == 1 then ok acquired else err webhook_busy,
      )
  unfolding claim_event take_over
  claim_open token now rows d f s = rw (f, claim_event) (rw (s, take_over) refl)

  claim_event-Locked_busy :
      (expiry token later : ℕ) (rows : List Delivery)
      → later ≤ expiry
      → All (Locked e expiry) rows
      → find_where (is_delivery e) rows ≢ none
      → claim_event e token later rows ≡ (rows, err webhook_busy)
  claim_event-Locked_busy expiry token later rows le h there =
      let idle = not-may_take-Locked expiry later rows le h in
      elim (Option-cases (find_where (is_delivery e) rows)) [
        | inl f ↦ absurd (there f)
        | inr (d, f) ↦
            claim_open token later rows d f (find_where-Locked expiry rows d h f)
            ∙ rw (idle, update_where_none (may_take e later) (taken token later) rows idle) refl
      ]

  absent-Locked :
      (token now : ℕ) (rows : List Delivery)
      → find_where (is_delivery e) rows ≡ none
      → All (Locked e (now + webhook_lock_ttl_ms)) (rows ++ new_delivery e token now ∷ [])
        × (find_where (is_delivery e) (rows ++ new_delivery e token now ∷ []) ≢ none)
  absent-Locked token now [] f = (
    (λ i. (refl, refl), tt),
    λ n. absurd (ground (arith, ==_refl e.connection_id, ==_refl e.event_key)),
  )
  absent-Locked token now (x ∷ rows) f =
      let (h, there) = absent-Locked token now rows (ground arith) in
      ((λ i. absurd (ground arith), h), λ n. there (ground arith))

  taken-Locked :
      (token now : ℕ) (rows : List Delivery)
      → All (λ x. is_delivery e x ≡ true → may_take e now x ≡ true) rows
      → All
          (Locked e (now + webhook_lock_ttl_ms))
          (update_where (may_take e now) (taken token now) rows)
  unfolding update_where
  taken-Locked token now [] h = tt
  taken-Locked token now (x ∷ rows) (hx, h) = ((λ i. ground arith), taken-Locked token now rows h)

  taken-there :
      (token now : ℕ) (rows : List Delivery)
      → find_where (is_delivery e) rows ≢ none
      → find_where (is_delivery e) (update_where (may_take e now) (taken token now) rows) ≢ none
  unfolding update_where
  taken-there token now [] h = h
  taken-there token now (x ∷ rows) h = elim (Bool-cases (is_delivery e x)) [
    | inl i ↦ λ n. absurd (ground arith)
    | inr i ↦ λ n. taken-there token now rows (λ m. h (ground arith)) (ground arith)
  ]

  claim_event-Locked :
      (token now : ℕ) (rows after : List Delivery)
      → count_where (is_delivery e) rows ≤ 1
      → claim_event e token now rows ≡ (after, ok acquired)
      → All (Locked e (now + webhook_lock_ttl_ms)) after × (find_where (is_delivery e) after ≢ none)
  unfolding claim_event take_over
  claim_event-Locked token now rows after u h =
      elim (Option-cases (find_where (is_delivery e) rows)) [
        | inl f ↦
            subst
              (λ x.
                All (Locked e (now + webhook_lock_ttl_ms)) x
                × (find_where (is_delivery e) x ≢ none))
              (ground arith) (absent-Locked token now rows f)
        | inr (d, f) ↦
            let one : count_where (may_take e now) rows ≡ 1 = (ground arith) in
            let all =
              (count_where-eq (may_take e now) (is_delivery e) (λ x m. ground arith) rows) in
            let there = taken-there token now rows (λ n. absurd (ground arith)) in
            subst
              (λ x.
                All (Locked e (now + webhook_lock_ttl_ms)) x
                × (find_where (is_delivery e) x ≢ none))
              (ground arith) (taken-Locked token now rows (all.1 (omega arith)), there)
      ]

  -- A claim that is granted keeps the event to the claimant: until the lock expires, every further
  -- claim of it is turned away as busy, and changes nothing.
  pub claim_event-exclusive :
      (token now other later : ℕ) (rows after : List Delivery)
      → count_where (is_delivery e) rows ≤ 1
      → claim_event e token now rows ≡ (after, ok acquired)
      → later ≤ now + webhook_lock_ttl_ms
      → claim_event e other later after ≡ (after, err webhook_busy)
  claim_event-exclusive token now other later rows after u h le =
      let (locked, there) = claim_event-Locked token now rows after u h in
      claim_event-Locked_busy (now + webhook_lock_ttl_ms) other later after le locked there

  failed-may_take :
      (message : String) (failed_at now : ℕ) (rows : List Delivery)
      → count_where (may_take e now) (fail_event e message failed_at rows)
        ≡ count_where (is_delivery e) rows
  unfolding fail_event update_where
  failed-may_take message failed_at now [] = refl
  failed-may_take message failed_at now (x ∷ rows) =
      ground (arith, failed-may_take message failed_at now rows)

  failed-open :
      (message : String) (failed_at : ℕ) (rows : List Delivery)
      → count_where (is_delivery e) rows ≡ 1
      → (d : Delivery) × (find_where (is_delivery e) (fail_event e message failed_at rows) ≡ some d)
        × (is_settled d.processing_status ≡ false)
  unfolding fail_event update_where
  failed-open message failed_at [] one = absurd (ground arith)
  failed-open message failed_at (x ∷ rows) one = elim (Bool-cases (is_delivery e x)) [
    | inl i ↦ (failed_delivery message failed_at x, ground arith, refl)
    | inr i ↦
        let (d, f, s) = failed-open message failed_at rows (ground arith) in (d, ground arith, s)
  ]

  -- The failure of a handler whose lock is long gone reopens an event that another handler settled:
  -- whatever the status of the delivery, the next claim of the event is granted.
  pub fail_event-reopens :
      (message : String) (failed_at token now : ℕ) (rows : List Delivery)
      → count_where (is_delivery e) rows ≡ 1
      → (claim_event e token now (fail_event e message failed_at rows)).1 ≡ ok acquired
  fail_event-reopens message failed_at token now rows one =
      let (d, f, s) = failed-open message failed_at rows one in
      ap (λ x. x.1) (claim_open token now (fail_event e message failed_at rows) d f s)
      ∙ rw (failed-may_take message failed_at now rows, one) refl
