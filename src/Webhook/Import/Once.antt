-- ===== src/Webhook/Import/Once.antt =====
-- A message of the provider is imported once.
use package.text.Mathlib.TextPositions.{eq_refl}
use uni_mailbox.Prelude.{
  ℕ, ◌+◌, ◌≤◌, String, Bool, true, false, not, ◌&&◌, ◌||◌, List, [], ◌∷◌, ◌++◌, Option, none, some,
  ◌==◌, ◌≡◌, refl, ◌∙◌, subst, arith, Bool-cases, Option-cases, inl, inr, find_where, update_where,
  update_where_none, any, is_none, count_where, coalesce, or_else, if◌then◌else◌, ltb,
  find_where-true, ==_refl, find_where-update_where, find_where-append,
}
use uni_mailbox.Domain.{Result, Result-cases, ok, err, webhook_lock_ttl_ms}
use uni_mailbox.Schema.{Database, Message, MessageState}
use uni_mailbox.Webhook.{ProviderEvent, ResolvedMessage, is_state}
use uni_mailbox.Webhook.Import.{
  Externals, ProviderMessageDetail, Import, found, locked, find_or_import, begin_import,
  fetch_and_write, resume_import, write_import, lock_import, adopt, as_import, as_found,
  fetch_detail, domain_of_known, domain_of_link, link_of, may_import, imported, is_known, Sync,
  fill_domain, imported_message, import_busy, importing_state, relocked,
}

module _ (ext : Externals) where
  adopt-deliveries : (m : Message) (db : Database) → (adopt ext m db).0.deliveries ≡ db.deliveries
  unfolding adopt
  adopt-deliveries m db =
      elim (Result-cases
        (domain_of_known ext m db (coalesce m.domain_id (domain_of_link db (link_of db m.id))))) [
          | inl (d, k) ↦ rw (adopt, k) refl
          | inr (t, k) ↦ rw (adopt, k) refl
        ]

  lock_import-deliveries :
      (e : ProviderEvent) (token now : ℕ) (db : Database)
      → (lock_import e token now db).0.deliveries ≡ db.deliveries
  unfolding lock_import
  lock_import-deliveries e token now db = elim (Option-cases (find_where (is_state e) db.states)) [
    | inl k ↦ rw (lock_import, k) refl
    | inr (s, k) ↦ elim (Bool-cases (may_import now s)) [
      | inl m ↦ rw (lock_import, k, m) refl
      | inr m ↦ rw (lock_import, k, m) refl
    ]
  ]

  begin_import-deliveries :
      (e : ProviderEvent) (can_sync : Bool) (token now : ℕ) (db : Database)
      → (begin_import ext e can_sync token now db).0.deliveries ≡ db.deliveries
  unfolding begin_import as_import
  begin_import-deliveries e can_sync token now db =
      elim (Option-cases
        (find_where (is_known e.connection_id e.provider_message_id) db.messages)) [
          | inr (m, k) ↦ rw (begin_import, k) (adopt-deliveries m db)
          | inl k ↦ elim (Bool-cases can_sync) [
            | inl c ↦ rw (begin_import, k, c) (lock_import-deliveries e token now db)
            | inr c ↦ rw (begin_import, k, c) refl
          ]
        ]

  write_import-deliveries :
      (without_tz : String → String) (e : ProviderEvent) (d : ProviderMessageDetail)
      (domain_id id token now : ℕ) (db : Database)
      → (write_import without_tz e d domain_id id token now db).0.deliveries ≡ db.deliveries
  unfolding write_import
  write_import-deliveries without_tz e d domain_id id token now db =
      elim (Bool-cases
        (any (λ m. m.id == id || is_known e.connection_id e.provider_message_id m) db.messages)) [
          | inl k ↦ rw (write_import, k) refl
          | inr k ↦ rw (write_import, k) refl
        ]

  fetch_and_write-deliveries :
      (get_message : Sync ext) (e : ProviderEvent) (id token now : ℕ) (db : Database)
      → (fetch_and_write ext get_message e id token now db).0.deliveries ≡ db.deliveries
  unfolding fetch_and_write
  fetch_and_write-deliveries get_message e id token now db =
      elim (Result-cases (fetch_detail ext get_message e db)) [
        | inl ((d, domain_id), k) ↦
            rw (fetch_and_write, k)
              (write_import-deliveries ext.without_tz e d domain_id id token now db)
        | inr (t, k) ↦ rw (fetch_and_write, k) refl
      ]

  resume_import-deliveries :
      (sync : Option (Sync ext)) (e : ProviderEvent) (id token now : ℕ)
      (r : Database × Result Import)
      → (resume_import ext sync e id token now r).0.deliveries ≡ r.0.deliveries
  unfolding resume_import
  resume_import-deliveries sync e id token now (db, err t) = refl
  resume_import-deliveries sync e id token now (db, ok (found r)) = refl
  resume_import-deliveries none e id token now (db, ok locked) = refl
  resume_import-deliveries (some get_message) e id token now (db, ok locked) =
      fetch_and_write-deliveries get_message e id token now db

  pub find_or_import-deliveries :
      (sync : Option (Sync ext)) (e : ProviderEvent) (id token now : ℕ) (db : Database)
      → (find_or_import ext sync e id token now db).0.deliveries ≡ db.deliveries
  unfolding find_or_import
  find_or_import-deliveries sync e id token now db =
      resume_import-deliveries sync e id token now
        (begin_import ext e (not (is_none sync)) token now db)
      ∙ begin_import-deliveries e (not (is_none sync)) token now db

  adopt_known :
      (m : Message) (d : ℕ) (db : Database)
      → m.domain_id ≡ some d
      → count_where (λ x. x.id == m.id && is_none x.domain_id) db.messages ≡ 0
      → adopt ext m db ≡ (db, ok (record { message_id = m.id; domain_id = d }))
  unfolding adopt
  adopt_known m d db domain full =
      let known : domain_of_known ext m db
            (coalesce m.domain_id (domain_of_link db (link_of db m.id)))
          ≡ ok d =
        rw domain refl in
      let same =
        update_where_none (λ x. x.id == m.id && is_none x.domain_id)
          (λ x. record x { domain_id = some d }) db.messages full in
      rw (adopt, known) (rw same refl)

  -- A message that is known, with its domain, is what everybody finds.
  known_again :
      (sync : Option (Sync ext)) (e : ProviderEvent) (id token now : ℕ) (m : Message) (d : ℕ)
      (db : Database)
      → find_where (is_known e.connection_id e.provider_message_id) db.messages ≡ some m
      → m.domain_id ≡ some d
      → count_where (λ x. x.id == m.id && is_none x.domain_id) db.messages ≡ 0
      → find_or_import ext sync e id token now db
        ≡ (db, ok (record { message_id = m.id; domain_id = d }))
  unfolding find_or_import begin_import as_import resume_import
  known_again sync e id token now m d db k domain full =
      rw (find_or_import, begin_import, k) (rw (adopt_known m d db domain full) refl)

  filled :
      (i d : ℕ) (xs : List Message)
      → count_where
          (λ x. x.id == i && is_none x.domain_id)
          (update_where
            (λ x. x.id == i && is_none x.domain_id)
            (λ x. record x { domain_id = some d })
            xs)
        ≡ 0
  unfolding update_where
  filled i d [] = refl
  filled i d (x ∷ xs) = ground (arith, filled i d xs)

  unused :
      (i : ℕ) (known : Message → Bool) (m : Message) (d : ℕ) (xs : List Message)
      → any (λ x. x.id == i || known x) xs ≡ false
      → m.domain_id ≡ some d
      → count_where (λ x. x.id == i && is_none x.domain_id) (xs ++ m ∷ []) ≡ 0
  unused i known m d [] h domain = ground arith
  unused i known m d (x ∷ xs) h domain = ground (arith, unused i known m d xs)

  module _ (sync : Option (Sync ext)) (e : ProviderEvent) (id token now : ℕ) where
    -- An answer is given again, and nothing changes.
    abbrev Again : Database × Result ResolvedMessage → Type 0
    Again (after, ok r) = find_or_import ext sync e id token now after ≡ (after, ok r)
    Again (after, err t) = Unit

    -- The row that is known, behind the update.
    filled_known :
        (m : Message) (d : ℕ) (db : Database)
        → find_where (is_known e.connection_id e.provider_message_id) db.messages ≡ some m
        → find_where
            (is_known e.connection_id e.provider_message_id)
            (fill_domain ext m.id d db).messages
          ≡ some (if is_none m.domain_id then record m { domain_id = some d } else m)
    filled_known m d db k =
        find_where-update_where (is_known e.connection_id e.provider_message_id)
          (λ x. x.id == m.id && is_none x.domain_id) (λ x. record x { domain_id = some d })
          db.messages (λ x. refl)
        ∙ rw (k, ==_refl m.id) refl

    fill_domain-Again :
        (m : Message) (d : ℕ) (db : Database)
        → find_where (is_known e.connection_id e.provider_message_id) db.messages ≡ some m
        → or_else m.domain_id d ≡ d
        → Again (fill_domain ext m.id d db, ok (record { message_id = m.id; domain_id = d }))
    fill_domain-Again m d db k h = elim (Option-cases m.domain_id) [
      | inl n ↦
          known_again sync e id token now (record m { domain_id = some d }) d
            (fill_domain ext m.id d db) (filled_known m d db k ∙ rw n refl) refl
            (filled m.id d db.messages)
      | inr (x, n) ↦
          known_again sync e id token now m d (fill_domain ext m.id d db)
            (filled_known m d db k ∙ rw n refl) (ground (arith, n, h)) (filled m.id d db.messages)
    ]

    known_domain :
        (m : Message) (d : ℕ) (db : Database) (linked : Option ℕ)
        → domain_of_known ext m db (coalesce m.domain_id linked) ≡ ok d
        → or_else m.domain_id d ≡ d
    known_domain m d db linked h = elim (Option-cases m.domain_id) [
      | inl n ↦ rw n refl
      | inr (x, n) ↦ let same : ok x ≡ ok d = (rw n at h) in rw n (ground (arith, same))
    ]

    adopt-Again :
        (m : Message) (db : Database)
        → find_where (is_known e.connection_id e.provider_message_id) db.messages ≡ some m
        → Again (adopt ext m db)
    unfolding adopt
    adopt-Again m db k =
        let linked = domain_of_link db (link_of db m.id) in
        elim (Result-cases (domain_of_known ext m db (coalesce m.domain_id linked))) [
          | inl (d, r) ↦ rw (adopt, r) (fill_domain-Again m d db k (known_domain m d db linked r))
          | inr (t, r) ↦ rw (adopt, r) tt
        ]

    write_import-Again :
        (d : ProviderMessageDetail) (domain_id fresh lock written : ℕ) (db : Database)
        → find_where (is_known e.connection_id e.provider_message_id) db.messages ≡ none
        → Again (write_import ext.without_tz e d domain_id fresh lock written db)
    unfolding write_import
    write_import-Again d domain_id fresh lock written db k =
        let known = is_known e.connection_id e.provider_message_id in
        let new = imported_message ext.without_tz e d domain_id fresh written in
        elim (Bool-cases (
          any (λ m. m.id == fresh || is_known e.connection_id e.provider_message_id m)
            db.messages)) [
              | inl h ↦ rw (write_import, h, k) tt
              | inr h ↦
                  rw (write_import, h)
                    (known_again sync e id token now new domain_id _
                      (find_where-append known known db.messages new (λ x p. p) k
                        (rw (==_refl e.connection_id, eq_refl e.provider_message_id) refl))
                      refl (unused fresh known new domain_id db.messages h refl))
            ]

    fetch_and_write-Again :
        (get_message : Sync ext) (fresh lock written : ℕ) (db : Database)
        → find_where (is_known e.connection_id e.provider_message_id) db.messages ≡ none
        → Again (fetch_and_write ext get_message e fresh lock written db)
    unfolding fetch_and_write
    fetch_and_write-Again get_message fresh lock written db k =
        elim (Result-cases (fetch_detail ext get_message e db)) [
          | inl ((d, domain_id), h) ↦
              rw (fetch_and_write, h) (write_import-Again d domain_id fresh lock written db k)
          | inr (t, h) ↦ rw (fetch_and_write, h) tt
        ]

    as_import-Again :
        (fresh lock at_first : ℕ) (r : Database × Result ResolvedMessage)
        → Again r
        → Again (resume_import ext sync e fresh lock at_first (as_import ext r))
    unfolding as_import resume_import
    as_import-Again fresh lock at_first (db, ok r) h = h
    as_import-Again fresh lock at_first (db, err t) h = tt

    -- Whoever holds the lock.
    locked-Again :
        (plugin : Option (Sync ext)) (fresh lock at_first : ℕ) (db : Database)
        → find_where (is_known e.connection_id e.provider_message_id) db.messages ≡ none
        → Again (resume_import ext plugin e fresh lock at_first (db, ok locked))
    unfolding resume_import
    locked-Again none fresh lock at_first db k = tt
    locked-Again (some get_message) fresh lock at_first db k =
        fetch_and_write-Again get_message fresh lock at_first db k

    imported_stays :
        (db : Database) (s : MessageState) (r : ResolvedMessage)
        → find_where (is_known e.connection_id e.provider_message_id) db.messages ≡ none
        → not (is_none sync) ≡ true
        → find_where (is_state e) db.states ≡ some s
        → imported db s ≡ ok r
        → find_or_import ext sync e id token now db ≡ (db, ok r)
    unfolding find_or_import begin_import lock_import resume_import
    imported_stays db s r k c f h =
        let settled : may_import now s ≡ false = elim (Option-cases s.message_id) [
          | inl n ↦ absurd (ground (arith, n, h))
          | inr (x, n) ↦ rw n refl
        ] in
        rw (find_or_import, begin_import, k, c) (rw (lock_import, f, settled, h) refl)

    found-Again :
        (fresh lock at_first : ℕ) (db : Database) (s : MessageState)
        → find_where (is_known e.connection_id e.provider_message_id) db.messages ≡ none
        → not (is_none sync) ≡ true
        → find_where (is_state e) db.states ≡ some s
        → Again (resume_import ext sync e fresh lock at_first (db, as_found (imported db s)))
    unfolding resume_import
    found-Again fresh lock at_first db s k c f = elim (Result-cases (imported db s)) [
      | inl (r, h) ↦ rw h (imported_stays db s r k c f h)
      | inr (t, h) ↦ rw h tt
    ]

    lock_import-Again :
        (fresh lock at_first : ℕ) (db : Database)
        → find_where (is_known e.connection_id e.provider_message_id) db.messages ≡ none
        → not (is_none sync) ≡ true
        → Again (resume_import ext sync e fresh lock at_first (lock_import e lock at_first db))
    unfolding lock_import
    lock_import-Again fresh lock at_first db k c =
        elim (Option-cases (find_where (is_state e) db.states)) [
          | inl f ↦ rw (lock_import, f) (locked-Again sync fresh lock at_first _ k)
          | inr (s, f) ↦ elim (Bool-cases (may_import at_first s)) [
            | inl m ↦ rw (lock_import, f, m) (locked-Again sync fresh lock at_first _ k)
            | inr m ↦ rw (lock_import, f, m) (found-Again fresh lock at_first db s k c f)
          ]
        ]

    find_or_import-Again :
        (fresh lock at_first : ℕ) (db : Database)
        → Again (find_or_import ext sync e fresh lock at_first db)
    unfolding find_or_import begin_import resume_import
    find_or_import-Again fresh lock at_first db =
        elim (Option-cases
          (find_where (is_known e.connection_id e.provider_message_id) db.messages)) [
            | inr (m, k) ↦
                rw (find_or_import, begin_import, k)
                  (as_import-Again fresh lock at_first (adopt ext m db) (adopt-Again m db k))
            | inl k ↦ elim (Bool-cases (not (is_none sync))) [
              | inl c ↦
                  rw (find_or_import, begin_import, k, c)
                    (lock_import-Again fresh lock at_first db k c)
              | inr c ↦ rw (find_or_import, begin_import, k, c) tt
            ]
          ]

    -- If the message of an event was found or imported, then whoever asks for it again, at any time
    -- and with any fresh tokens and identifiers, gets the same message and domain, and nothing
    -- changes.
    pub find_or_import-once :
        (fresh lock at_first : ℕ) (db after : Database) (r : ResolvedMessage)
        → find_or_import ext sync e fresh lock at_first db ≡ (after, ok r)
        → find_or_import ext sync e id token now after ≡ (after, ok r)
    find_or_import-once fresh lock at_first db after r h =
        subst Again h (find_or_import-Again fresh lock at_first db)

  module _ (e : ProviderEvent) (other later : ℕ) where
    -- A lock that is granted turns others away, and nothing changes.
    abbrev Held : Database × Result Import → Type 0
    Held (after, ok locked) = begin_import ext e true other later after ≡ (after, err import_busy)
    Held (after, ok (found r)) = Unit
    Held (after, err t) = Unit

    locked_busy :
        (db : Database) (s : MessageState)
        → find_where (is_known e.connection_id e.provider_message_id) db.messages ≡ none
        → find_where (is_state e) db.states ≡ some s
        → s.message_id ≡ none
        → may_import later s ≡ false
        → begin_import ext e true other later db ≡ (db, err import_busy)
    unfolding begin_import lock_import
    locked_busy db s k f n m = rw (begin_import, k) (rw (lock_import, f, m, n) refl)

    as_found-Held : (db : Database) (r : Result ResolvedMessage) → Held (db, as_found r)
    as_found-Held db (ok r) = tt
    as_found-Held db (err t) = tt

    lock_import-Held :
        (token now : ℕ) (db : Database)
        → later ≤ now + webhook_lock_ttl_ms
        → find_where (is_known e.connection_id e.provider_message_id) db.messages ≡ none
        → Held (lock_import e token now db)
    unfolding lock_import
    lock_import-Held token now db le k =
        let early : ltb (now + webhook_lock_ttl_ms) later ≡ false = ground (arith, le) in
        elim (Option-cases (find_where (is_state e) db.states)) [
          | inl f ↦
              rw (lock_import, f)
                (locked_busy _ (importing_state e token now) k
                  (find_where-append (is_state e) (is_state e) db.states
                    (importing_state e token now) (λ x p. p) f
                    (rw (==_refl e.connection_id, eq_refl e.provider_message_id) refl))
                  refl early)
          | inr (s, f) ↦ elim (Bool-cases (may_import now s)) [
            | inl m ↦
                let mine = find_where-true (is_state e) s db.states f in
                let free : s.message_id ≡ none = ground (arith, m) in
                rw (lock_import, f, m)
                  (locked_busy _ (relocked token now s) k
                    (find_where-update_where (is_state e) (is_state e) (relocked token now)
                        db.states (λ x. refl)
                      ∙ rw (f, mine) refl)
                    free (rw (free, early) refl))
            | inr m ↦ rw (lock_import, f, m) (as_found-Held db (imported db s))
          ]
        ]

    as_import-Held : (r : Database × Result ResolvedMessage) → Held (as_import ext r)
    unfolding as_import
    as_import-Held (db, ok r) = tt
    as_import-Held (db, err t) = tt

    begin_import-Held :
        (token now : ℕ) (db : Database)
        → later ≤ now + webhook_lock_ttl_ms
        → Held (begin_import ext e true token now db)
    unfolding begin_import
    begin_import-Held token now db le =
        elim (Option-cases
          (find_where (is_known e.connection_id e.provider_message_id) db.messages)) [
            | inr (m, k) ↦ rw (begin_import, k) (as_import-Held (adopt ext m db))
            | inl k ↦ rw (begin_import, k) (lock_import-Held token now db le k)
          ]

    -- Whoever locks a message for its import has it alone: until the lock expires, everybody else who
    -- wants to import it is turned away as busy, and nothing changes.
    pub begin_import-exclusive :
        (token now : ℕ) (db after : Database)
        → later ≤ now + webhook_lock_ttl_ms
        → begin_import ext e true token now db ≡ (after, ok locked)
        → begin_import ext e true other later after ≡ (after, err import_busy)
    begin_import-exclusive token now db after le h =
        subst Held h (begin_import-Held token now db le)
