-- ===== src/Messages/Retry.antt =====
-- MessageApplicationService.send: the same request once more, and what one delivers.
use package.text.Mathlib.TextPositions.{eq_refl}
use uni_mailbox.Prelude.{
  ℕ, ◌+◌, ◌≤◌, ◌<◌, String, Bool, ◌&&◌, not, List, [], ◌∷◌, ◌++◌, Option, none, some, ==_refl,
  find_where, find_where-append, ◌≡◌, refl, sym, ◌∙◌, subst, arith, Bool-cases, inl, inr,
}
use uni_mailbox.Domain.{Thrown, Result, Result-cases, ok, err}
use uni_mailbox.Schema.{Database, Reply, IdempotencyRecord, message_send, current_timestamp}
use uni_mailbox.Mailboxes.{Principal}
use uni_mailbox.Drafts.{find_replay, is_record_of, is_key_taken, in_a_day}
use uni_mailbox.Messages.Send.{
  SendInput, UploadedFile, Prepared, SendFresh, prepare_message, message_rows, message_write,
  send_message, is_nobody, admit,
}

-- What a send notes under its key.
abbrev noted : (user_id : ℕ) (key : String) (hash now : ℕ) → Reply → IdempotencyRecord
noted user_id key hash now reply = record {
  actor_user_id = user_id;
  operation = message_send;
  idempotency_key = key;
  request_hash = hash;
  response = reply;
  expires_at = in_a_day now;
}

find_replay-noted :
    (user_id : ℕ) (key : String) (hash now later : ℕ) (reply : Reply) (db after : Database)
    → find_where (is_record_of user_id message_send key now) db.idempotency ≡ none
    → after.idempotency ≡ db.idempotency ++ noted user_id key hash now reply ∷ []
    → now ≤ later
    → current_timestamp later < current_timestamp now + 86400
    → find_replay after user_id message_send key hash later ≡ ok (some reply)
unfolding find_replay
find_replay-noted user_id key hash now later reply db after missing recorded le lt =
    let found =
      find_where-append (is_record_of user_id message_send key now)
        (is_record_of user_id message_send key later) db.idempotency
        (noted user_id key hash now reply) (λ x h. ground arith) missing
        (ground (arith, eq_refl key)) in
    rw (recorded, found, ==_refl hash, find_replay) refl

find_replay-missing :
    (user_id : ℕ) (key : String) (hash now : ℕ) (db : Database)
    → find_where (is_record_of user_id message_send key now) db.idempotency ≡ none
    → find_replay db user_id message_send key hash now ≡ ok none
unfolding find_replay
find_replay-missing user_id key hash now db h = rw (h, find_replay) refl

module _ (clean lower trim : String → String) (nocase_eq : String → String → Bool)
    (size : String → ℕ) (tokens : String → List String) (id_text : ℕ → String)
    (signature_of : ℕ → Option (String × String)) (uploads : List UploadedFile) (accepts : ℕ → Bool)
    (hash key_size : ℕ) (principal : Principal) (input : SendInput) (key : String) where
  abbrev write : Prepared → SendFresh → Database → Database × Result Reply
  write =
      message_write clean lower trim nocase_eq size tokens id_text signature_of uploads accepts hash
        principal input key

  abbrev nobody : Prepared → Bool
  nobody p =
      is_nobody clean lower trim nocase_eq size tokens id_text signature_of uploads p.recipients

  abbrev admitted : Result (Unit {0})
  admitted =
      admit clean lower trim nocase_eq size tokens id_text signature_of uploads principal key
        key_size

  abbrev prepared : SendFresh → Database → Result Prepared
  prepared fresh db =
      prepare_message clean lower trim nocase_eq size tokens id_text signature_of uploads principal
        input fresh.now db

  abbrev send : SendFresh → Database → Database × Result Reply
  send =
      send_message clean lower trim nocase_eq size tokens id_text signature_of uploads accepts hash
        key_size principal input key

  -- An answer is noted.
  abbrev Noted : (now : ℕ) (before : Database) → Database × Result Reply → Type 0
  Noted now before (after, ok reply) =
      after.idempotency ≡ before.idempotency ++ noted principal.user_id key hash now reply ∷ []
  Noted now before (after, err t) = Unit

  write-Noted :
      (p : Prepared) (fresh : SendFresh) (db : Database)
      → find_where (is_record_of principal.user_id message_send key fresh.now) db.idempotency ≡ none
      → Noted fresh.now db (write p fresh db)
  unfolding message_write message_rows
  write-Noted p fresh db missing =
      elim (Bool-cases
        (not (is_key_taken principal.user_id message_send key db) && not (nobody p))) [
          | inl e ↦ rw (message_write, e) refl
          | inr e ↦
              rw
                (
                  message_write,
                  e,
                  find_replay-missing principal.user_id key hash fresh.now db missing,
                )
                tt
        ]

  send-Noted :
      (fresh : SendFresh) (db : Database)
      → find_where (is_record_of principal.user_id message_send key fresh.now) db.idempotency ≡ none
      → Noted fresh.now db (send fresh db)
  unfolding send_message
  send-Noted fresh db missing =
      let fresh_key = find_replay-missing principal.user_id key hash fresh.now db missing in
      elim (Result-cases (admitted)) [
        | inr (t, e) ↦ rw (send_message, e) tt
        | inl (u, e) ↦ elim (Result-cases (prepared fresh db)) [
          | inr (t, k) ↦ rw (send_message, e, fresh_key, k) tt
          | inl (p, k) ↦ rw (send_message, e, fresh_key, k) (write-Noted p fresh db missing)
        ]
      ]

  not_admitted :
      (fresh : SendFresh) (db : Database) (t : Thrown)
      → admitted ≡ err t
      → send fresh db ≡ (db, err t)
  unfolding send_message
  not_admitted fresh db t e = rw (send_message, e) refl

  -- A message that was sent, sent again within a day with the same key and input, is answered the
  -- same, and changes nothing.
  pub send_message-retry :
      (fresh again : SendFresh) (db after : Database) (reply : Reply)
      → find_where (is_record_of principal.user_id message_send key fresh.now) db.idempotency ≡ none
      → fresh.now ≤ again.now
      → current_timestamp again.now < current_timestamp fresh.now + 86400
      → send fresh db ≡ (after, ok reply)
      → send again after ≡ (after, ok reply)
  unfolding send_message
  send_message-retry fresh again db after reply missing le lt h = elim (Result-cases admitted) [
    | inr (t, e) ↦ let h' = sym (not_admitted fresh db t e) ∙ h in absurd (ground (arith, h'))
    | inl (u, e) ↦
        let answered = subst (Noted fresh.now db) h (send-Noted fresh db missing) in
        let replay =
          (find_replay-noted principal.user_id key hash fresh.now again.now reply db after missing
            answered le lt) in
        rw (send_message, e, replay) refl
  ]
