-- ===== src/Webhook/Ordering.antt =====
-- The order of the events of one message: whatever order they arrive in, the latest one decides.
use package.text.Mathlib.TextPositions.{eq_refl}
use uni_mailbox.Prelude.{
  ℕ, Option, none, some, Option-cases, Bool, true, false, ◌&&◌, ◌||◌, List, [], ◌∷◌, ◌++◌, ◌≡◌,
  refl, arith, ◌==◌, ==_refl, ltb, Bool-cases, inl, inr, any, count_where, update_where_none, All,
  All-append, update_where, update_where-All,
}
use uni_mailbox.Domain.{status_rank}
use uni_mailbox.Schema.{Database, Message, MessageState}
use uni_mailbox.Webhook.{
  StoredProviderStatus, should_apply_provider_status, ProviderEvent, ResolvedMessage, is_state,
  supersedes, advanced, new_state, put_state, is_current, with_status, apply_status,
}

-- The event is about the same message of the provider, and it is older: it occurred before, or at the
-- same instant with a status of a lower rank.
pub record IsOlder (e f : ProviderEvent) : Type 0 where
  pub same_connection : f.connection_id ≡ e.connection_id
  pub same_message : f.provider_message_id ≡ e.provider_message_id
  pub order :
      (ltb f.occurred_at e.occurred_at
        || (f.occurred_at == e.occurred_at && ltb (status_rank f.status) (status_rank e.status)))
      ≡ true

-- What is stored of a state.
abbrev stored_status : MessageState → Option StoredProviderStatus
stored_status s = elim s.status_event_time [
  | none ↦ none
  | some t ↦ some (record { event_time = t; status_rank = s.status_rank })
]

-- The condition of the statement is that of shouldApplyProviderStatus.
supersedes-eq-should_apply :
    (e : ProviderEvent) (s : MessageState)
    → supersedes e s
      ≡ should_apply_provider_status
          (stored_status s)
          (record { event_time = e.occurred_at; status_rank = status_rank e.status })
supersedes-eq-should_apply e s = elim (Option-cases s.status_event_time) [
  | inl h ↦ rw h refl
  | inr (t, h) ↦ rw h (ground arith)
]

-- The event would change the state.
abbrev pub Behind : ProviderEvent → MessageState → Type 0
Behind e s = is_state e s ≡ true → supersedes e s ≡ true

-- The event has set the state.
abbrev pub Current : ProviderEvent → MessageState → Type 0
Current e s = is_state e s ≡ true → is_current e s ≡ true

-- The message shows the event.
abbrev pub Shows : ProviderEvent → ResolvedMessage → Message → Type 0
Shows e r m = m.id ≡ r.message_id → m.status ≡ e.status

-- Events that are applied one after the other, each at its own time.
unfoldable pub apply_each : ResolvedMessage → List (ProviderEvent × ℕ) → Database → Database
apply_each r [] db = db
apply_each r ((e, now) ∷ rest) db = apply_each r rest (apply_status e r now db)

put_state-All {κ} :
    (P : MessageState → Type κ) (e : ProviderEvent) (r : ResolvedMessage) (now : ℕ)
    (states : List MessageState)
    → ((s : MessageState) → (is_state e s && supersedes e s) ≡ true → P s → P (advanced e r now s))
    → P (new_state e r now)
    → All P states
    → All P (put_state e r now states)
unfolding put_state
put_state-All P e r now states keep new h = elim (Bool-cases (any (is_state e) states)) [
  | inl b ↦ rw (b, put_state) (update_where-All P _ _ states keep h)
  | inr b ↦ rw (b, put_state) (All-append P states _ h (new, tt))
]

module _ (e : ProviderEvent) (r : ResolvedMessage) where
  is_state-IsOlder :
      (f : ProviderEvent) (s : MessageState) → IsOlder e f → is_state f s ≡ is_state e s
  is_state-IsOlder f s o = rw (o.same_connection, o.same_message) refl

  older-Behind :
      (f : ProviderEvent) (now : ℕ) (states : List MessageState)
      → IsOlder e f
      → All (Behind e) states
      → All (Behind e) (put_state f r now states)
  older-Behind f now states o h =
      let order = o.order in
      put_state-All (Behind e) f r now states (λ s p b i. ground arith) (λ i. ground arith) h

  absent-Current :
      (states : List MessageState) → any (is_state e) states ≡ false → All (Current e) states
  absent-Current [] b = tt
  absent-Current (s ∷ states) b =
      ((λ i. absurd (ground arith)), absent-Current states (ground arith))

  updated-Current :
      (now : ℕ) (states : List MessageState)
      → All (Behind e) states
      → All
          (Current e)
          (update_where (λ s. is_state e s && supersedes e s) (advanced e r now) states)
  unfolding update_where
  updated-Current now [] h = tt
  updated-Current now (s ∷ states) (hs, h) = (
    (λ i. ground (arith, ==_refl e.occurred_at, ==_refl (status_rank e.status))),
    updated-Current now states h,
  )

  own-Current :
      (now : ℕ) (states : List MessageState)
      → All (Behind e) states
      → All (Current e) (put_state e r now states)
  unfolding put_state
  own-Current now states h = elim (Bool-cases (any (is_state e) states)) [
    | inl b ↦ rw (b, put_state) (updated-Current now states h)
    | inr b ↦
        rw (b, put_state)
          (All-append (Current e) states _ (absent-Current states b)
            ((λ i. ground (arith, ==_refl e.occurred_at, ==_refl (status_rank e.status))), tt))
  ]

  updated-any :
      (now : ℕ) (states : List MessageState)
      → any (is_state e) states ≡ true
      → any
          (is_state e)
          (update_where (λ s. is_state e s && supersedes e s) (advanced e r now) states)
        ≡ true
  unfolding update_where
  updated-any now [] b = absurd (ground arith)
  updated-any now (s ∷ states) b = elim (Bool-cases (is_state e s)) [
    | inl i ↦ ground arith
    | inr i ↦ ground (arith, updated-any now states (ground arith))
  ]

  appended-any :
      (states : List MessageState) (s : MessageState)
      → is_state e s ≡ true
      → any (is_state e) (states ++ s ∷ []) ≡ true
  appended-any [] s i = ground arith
  appended-any (x ∷ states) s i = ground (arith, appended-any states s i)

  own-any :
      (now : ℕ) (states : List MessageState) → any (is_state e) (put_state e r now states) ≡ true
  unfolding put_state
  own-any now states = elim (Bool-cases (any (is_state e) states)) [
    | inl b ↦ rw (b, put_state) (updated-any now states b)
    | inr b ↦
        rw (b, put_state)
          (appended-any states (new_state e r now)
            (ground (arith, ==_refl e.connection_id, eq_refl e.provider_message_id)))
  ]

  -- Where the state is the event's own, the second statement finds it.
  Current-any :
      (states : List MessageState)
      → All (Current e) states
      → any (is_state e) states ≡ true
      → any (is_current e) states ≡ true
  Current-any [] h b = absurd (ground arith)
  Current-any (s ∷ states) (hs, h) b = elim (Bool-cases (is_state e s)) [
    | inl i ↦ let c = hs i in ground arith
    | inr i ↦ ground (arith, Current-any states h (ground arith))
  ]

  older-count :
      (f : ProviderEvent) (states : List MessageState)
      → IsOlder e f
      → All (Current e) states
      → count_where (λ s. is_state f s && supersedes f s) states ≡ 0
  older-count f [] o h = refl
  older-count f (s ∷ states) o (hs, h) =
      let order = o.order in
      let same = is_state-IsOlder f s o in ground (arith, older-count f states o h)

  older-present :
      (f : ProviderEvent) (states : List MessageState)
      → IsOlder e f
      → any (is_state e) states ≡ true
      → any (is_state f) states ≡ true
  older-present f [] o b = absurd (ground arith)
  older-present f (s ∷ states) o b =
      let same = is_state-IsOlder f s o in
      elim (Bool-cases (is_state e s)) [
        | inl i ↦ ground arith
        | inr i ↦ ground (arith, older-present f states o (ground arith))
      ]

  older-put_state :
      (f : ProviderEvent) (now : ℕ) (states : List MessageState)
      → IsOlder e f
      → All (Current e) states
      → any (is_state e) states ≡ true
      → put_state f r now states ≡ states
  unfolding put_state
  older-put_state f now states o h b =
      rw
        (
          older-present f states o b,
          update_where_none (λ s. is_state f s && supersedes f s) (advanced f r now) states
              (older-count f states o h),
        )
        refl

  older-any :
      (f : ProviderEvent) (states : List MessageState)
      → IsOlder e f
      → All (Current e) states
      → any (is_current f) states ≡ false
  older-any f [] o h = refl
  older-any f (s ∷ states) o (hs, h) =
      let order = o.order in
      let same = is_state-IsOlder f s o in ground (arith, older-any f states o h)

  count_where-off :
      (off : Bool) (messages : List Message)
      → off ≡ false
      → count_where (λ m. m.id == r.message_id && off) messages ≡ 0
  count_where-off off [] h = refl
  count_where-off off (m ∷ messages) h = ground (arith, count_where-off off messages h)

  -- Once an event has set the state of its message, an older one changes nothing at all.
  pub apply_status-IsOlder :
      (f : ProviderEvent) (now : ℕ) (db : Database)
      → IsOlder e f
      → All (Current e) db.states
      → any (is_state e) db.states ≡ true
      → apply_status f r now db ≡ db
  unfolding apply_status
  apply_status-IsOlder f now db o h b =
      let still = older-any f db.states o h in
      rw
        (
          older-put_state f now db.states o h b,
          update_where_none (λ m. m.id == r.message_id && any (is_current f) db.states)
              (with_status f now) db.messages (count_where-off _ db.messages still),
        )
        refl

  apply_each-older :
      (fs : List (ProviderEvent × ℕ)) (db : Database)
      → All (λ f. IsOlder e f.0) fs
      → All (Current e) db.states
      → any (is_state e) db.states ≡ true
      → apply_each r fs db ≡ db
  unfolding apply_each
  apply_each-older [] db o h b = refl
  apply_each-older ((f, now) ∷ fs) db (of, o) h b =
      rw (apply_status-IsOlder f now db of h b) (apply_each-older fs db o h b)

  own-Shows :
      (now : ℕ) (on : Bool) (messages : List Message)
      → on ≡ true
      → All
          (Shows e r)
          (update_where (λ m. m.id == r.message_id && on) (with_status e now) messages)
  unfolding update_where
  own-Shows now on [] h = tt
  own-Shows now on (m ∷ messages) h = ((λ i. ground arith), own-Shows now on messages h)

  -- However the events of one message are ordered, once all have been applied it shows the latest:
  -- the one that all others are older than, if the state that was there before was not newer.
  pub apply_each-Shows :
      (now : ℕ) (es fs : List (ProviderEvent × ℕ)) (db : Database)
      → All (λ f. IsOlder e f.0) es
      → All (λ f. IsOlder e f.0) fs
      → All (Behind e) db.states
      → All (Shows e r) (apply_each r (es ++ (e, now) ∷ fs) db).messages
  unfolding apply_each apply_status
  apply_each-Shows now [] fs db oe of h =
      let current = own-Current now db.states h in
      let there = own-any now db.states in
      rw (apply_each-older fs (apply_status e r now db) of current there)
        (own-Shows now _ db.messages (Current-any _ current there))
  apply_each-Shows now ((f, t) ∷ es) fs db (o, oe) of h =
      apply_each-Shows now es fs (apply_status f r t db) oe of (older-Behind f t db.states o h)
