-- ===== src/Webhook/Handle/Settled.antt =====
-- The delivery of an event that was handled.
use uni_mailbox.Prelude.{
  ℕ, Bool, true, false, List, [], ◌∷◌, ◌++◌, none, some, ◌≡◌, ◌≢◌, refl, arith, Bool-cases,
  Option-cases, inl, inr, find_where, find_where-All, find_where-true, find_where-update_where,
  update_where, update_where-All, All, All-append, and_left, ==_refl,
}
use uni_mailbox.Domain.{ok}
use uni_mailbox.Schema.{Delivery, DeliveryStatus}
use uni_mailbox.Webhook.{
  ProviderEvent, ResolvedMessage, acquired, completed, claim_event, take_over, is_delivery,
  may_take, taken, new_delivery, is_settled, succeeded_delivery,
}

-- The delivery is settled.
abbrev Done : (Delivery → Bool) → Delivery → Type 0
Done p d = p d ≡ true → d.processing_status ≡ DeliveryStatus.succeeded

-- The delivery is there, and every row of it is settled.
pub record IsDone (p : Delivery → Bool) (rows : List Delivery) : Type 0 where
  pub there : find_where p rows ≢ none
  pub done : All (Done p) rows

found-Done :
    (p : Delivery → Bool) (rows : List Delivery)
    → IsDone p rows
    → (d : Delivery) × (find_where p rows ≡ some d)
      × (d.processing_status ≡ DeliveryStatus.succeeded)
found-Done p rows h = elim (Option-cases (find_where p rows)) [
  | inl f ↦ absurd (h.there f)
  | inr (d, f) ↦ (d, f, find_where-All (Done p) p d rows h.done f (find_where-true p d rows f))
]

pub claim_event-IsDone :
    (e : ProviderEvent) (token now : ℕ) (rows : List Delivery)
    → IsDone (is_delivery e) rows
    → claim_event e token now rows ≡ (rows, ok completed)
unfolding claim_event take_over
claim_event-IsDone e token now rows h =
    let (d, f, s) = found-Done (is_delivery e) rows h in
    rw (claim_event, f) (rw (take_over, s) refl)

update_where-there :
    (p q : Delivery → Bool) (f : Delivery → Delivery) (rows : List Delivery)
    → ((d : Delivery) → p (f d) ≡ p d)
    → find_where p rows ≢ none
    → find_where p (update_where q f rows) ≢ none
update_where-there p q f rows keys there n = elim (Option-cases (find_where p rows)) [
  | inl k ↦ there k
  | inr (d, k) ↦ absurd (ground (arith, n, k, find_where-update_where p q f rows keys))
]

-- An update of rows of other events, and a row of another event.
pub update_where-IsDone :
    (p q : Delivery → Bool) (f : Delivery → Delivery) (rows : List Delivery)
    → ((d : Delivery) → q d ≡ true → p d ≡ false)
    → ((d : Delivery) → p (f d) ≡ p d)
    → IsDone p rows
    → IsDone p (update_where q f rows)
update_where-IsDone p q f rows apart keys h = record {
  there = update_where-there p q f rows keys h.there;
  done =
      update_where-All (Done p) q f rows (λ d t k i. absurd (ground (arith, apart d t, keys d, i)))
        h.done;
}

append_none :
    (p : Delivery → Bool) (d : Delivery) (rows : List Delivery)
    → find_where p (rows ++ d ∷ []) ≡ none
    → find_where p rows ≡ none
append_none p d [] h = refl
append_none p d (x ∷ rows) h = ground (arith, append_none p d rows)

append-IsDone :
    (p : Delivery → Bool) (d : Delivery) (rows : List Delivery)
    → p d ≡ false
    → IsDone p rows
    → IsDone p (rows ++ d ∷ [])
append-IsDone p d rows other h = record {
  there = λ n. h.there (append_none p d rows n);
  done = All-append (Done p) rows (d ∷ []) h.done (λ i. absurd (ground arith), tt);
}

append-there :
    (p : Delivery → Bool) (d : Delivery) (rows : List Delivery)
    → p d ≡ true
    → find_where p (rows ++ d ∷ []) ≢ none
append-there p d [] t n = ground (arith, t, n)
append-there p d (x ∷ rows) t n = ground (arith, append-there p d rows t)

-- A claim of another event.
pub claim_event-other :
    (p : Delivery → Bool) (e : ProviderEvent) (token now : ℕ) (rows : List Delivery)
    → ((d : Delivery) → is_delivery e d ≡ true → p d ≡ false)
    → ((t : ℕ) (d : Delivery) → p (taken t now d) ≡ p d)
    → IsDone p rows
    → IsDone p (claim_event e token now rows).0
unfolding claim_event take_over
claim_event-other p e token now rows apart keys h =
    elim (Option-cases (find_where (is_delivery e) rows)) [
      | inl f ↦
          rw (claim_event, f)
            (append-IsDone p (new_delivery e token now) rows
              (apart (new_delivery e token now)
                (rw (==_refl e.connection_id, ==_refl e.event_key) refl))
              h)
      | inr (d, f) ↦ elim (Bool-cases (is_settled d.processing_status)) [
        | inl s ↦ rw (claim_event, f) (rw (take_over, s) h)
        | inr s ↦
            rw (claim_event, f)
              (rw (take_over, s)
                (update_where-IsDone p (may_take e now) (taken token now) rows
                  (λ x m. apart x (and_left (is_delivery e x) _ m)) (keys token) h))
      ]
    ]

-- A claim that is granted has its delivery.
pub claim_event-there :
    (e : ProviderEvent) (token now : ℕ) (rows : List Delivery)
    → (claim_event e token now rows).1 ≡ ok acquired
    → find_where (is_delivery e) (claim_event e token now rows).0 ≢ none
unfolding claim_event take_over
claim_event-there e token now rows h = elim (Option-cases (find_where (is_delivery e) rows)) [
  | inl f ↦
      rw (claim_event, f)
        (append-there (is_delivery e) (new_delivery e token now) rows
          (rw (==_refl e.connection_id, ==_refl e.event_key) refl))
  | inr (d, f) ↦ elim (Bool-cases (is_settled d.processing_status)) [
    | inl s ↦ rw (claim_event, f) (rw (take_over, s) (λ n. absurd (ground (arith, n, f))))
    | inr s ↦
        rw (claim_event, f)
          (rw (take_over, s)
            (update_where-there (is_delivery e) (may_take e now) (taken token now) rows (λ x. refl)
              (λ n. absurd (ground (arith, n, f)))))
  ]
]

succeeded_rows :
    (e : ProviderEvent) (r : ResolvedMessage) (now : ℕ) (xs : List Delivery)
    → All (Done (is_delivery e)) (update_where (is_delivery e) (succeeded_delivery r now) xs)
unfolding update_where
succeeded_rows e r now [] = tt
succeeded_rows e r now (x ∷ xs) = ((λ i. ground arith), succeeded_rows e r now xs)

pub succeeded-IsDone :
    (e : ProviderEvent) (r : ResolvedMessage) (now : ℕ) (rows : List Delivery)
    → find_where (is_delivery e) rows ≢ none
    → IsDone (is_delivery e) (update_where (is_delivery e) (succeeded_delivery r now) rows)
succeeded-IsDone e r now rows there = record {
  there =
      update_where-there (is_delivery e) (is_delivery e) (succeeded_delivery r now) rows (λ x. refl)
        there;
  done = succeeded_rows e r now rows;
}
