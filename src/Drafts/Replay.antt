-- ===== src/Drafts/Replay.antt =====
-- A retried request: the idempotency records of the draft calls.
use package.text.Mathlib.TextPositions.{eq_refl}
use uni_mailbox.Prelude.{
  ℕ, ◌+◌, ◌≤◌, ◌<◌, String, Bool, true, false, ◌&&◌, List, [], ◌∷◌, ◌++◌, Option, none, some, ◌≡◌,
  refl, ap, sym, ◌∙◌, subst, arith, ◌==◌, ==_refl, ==_eq, if◌then◌else◌, any, count_where,
  find_where, find_where-append, update_where, Bool-cases, inl, inr,
}
use uni_mailbox.Domain.{Result-cases, other, Thrown, Result, ok, err}
use uni_mailbox.Schema.{
  Database, Message, Stamp, version, IdempotencyRecord, draft_send, Reply, sent_reply,
  current_timestamp,
}
use uni_mailbox.Drafts.{
  HashInput, is_key_taken, Request, Fresh, DraftRow, is_at_version, stamp_eq, is_record_of,
  find_replay, version_conflict,
}
use uni_mailbox.Drafts.Calls.{
  Recipients, send_batch, send_write, send_draft, dispatch_new, marked_queued, send_status,
  has_send_status, send_hash, prepare_send,
}

has_send_status-send_status :
    (external : Bool) → has_send_status external (send_status external) ≡ true
has_send_status-send_status true = refl
has_send_status-send_status false = refl

-- A draft that the UPDATE touched carries the new version and the status that was set.
any-marked :
    (q : Request) (v : Stamp) (external : Bool) (connection : Option ℕ) (fresh : Fresh)
    (xs : List Message)
    → count_where (is_at_version q.user_id q.draft_id v) xs ≡ 1
    → any
        (λ m.
          m.id == q.draft_id
          && has_send_status external m.status
          && stamp_eq m.updated_at (version fresh.version))
        (update_where
          (is_at_version q.user_id q.draft_id v)
          (marked_queued external connection fresh)
          xs)
      ≡ true
unfolding update_where
any-marked q v external connection fresh [] h = absurd (ground arith)
any-marked q v external connection fresh (m ∷ xs) h =
    elim (Bool-cases (is_at_version q.user_id q.draft_id v m)) [
      | inl e ↦ rw e (ground (arith, has_send_status-send_status external))
      | inr e ↦ rw e (ground (arith, any-marked q v external connection fresh xs))
    ]

-- The record that `send` leaves.
abbrev sent_record : Request → (hash_value : ℕ) → Fresh → Reply → IdempotencyRecord
sent_record q hash_value fresh reply = record {
  actor_user_id = q.user_id;
  operation = draft_send;
  idempotency_key = q.idempotency_key;
  request_hash = hash_value;
  response = reply;
  expires_at = current_timestamp fresh.now + 86400;
}

find_recorded :
    (q : Request) (hash_value : ℕ) (fresh : Fresh) (later : ℕ) (reply : Reply) (db after : Database)
    → find_where (is_record_of q.user_id draft_send q.idempotency_key fresh.now) db.idempotency
      ≡ none
    → after.idempotency ≡ db.idempotency ++ sent_record q hash_value fresh reply ∷ []
    → fresh.now ≤ later
    → current_timestamp later < current_timestamp fresh.now + 86400
    → find_replay after q.user_id draft_send q.idempotency_key hash_value later ≡ ok (some reply)
unfolding find_replay
find_recorded q hash_value fresh later reply db after missing recorded le lt =
    let found =
      find_where-append (is_record_of q.user_id draft_send q.idempotency_key fresh.now)
        (is_record_of q.user_id draft_send q.idempotency_key later) db.idempotency
        (sent_record q hash_value fresh reply) (λ x h. ground arith) missing
        (ground (arith, eq_refl q.idempotency_key)) in
    rw (recorded, found, ==_refl hash_value, find_replay) refl

none-find_replay :
    (q : Request) (hash_value now : ℕ) (db : Database)
    → find_where (is_record_of q.user_id draft_send q.idempotency_key now) db.idempotency ≡ none
    → find_replay db q.user_id draft_send q.idempotency_key hash_value now ≡ ok none
unfolding find_replay
none-find_replay q hash_value now db h = rw (h, find_replay) refl

module _ (hash : HashInput → ℕ) (parse_date : List ℕ → Option ℕ)
    (nocase_eq : String → String → Bool) (lower : String → String) (accepts : ℕ → Bool)
    (q : Request) where
  send_batch-recorded :
      (draft : DraftRow) (r : Recipients) (connection : Option ℕ) (hash_value : ℕ) (fresh : Fresh)
      (db written : Database)
      → send_batch q draft r connection hash_value fresh db ≡ ok (written, 1)
      → written.idempotency
        ≡ db.idempotency
          ++ sent_record q hash_value fresh (sent_reply q.draft_id (send_status r.has_external))
            ∷ []
  unfolding send_batch
  send_batch-recorded draft r connection hash_value fresh db written h =
      let here =
        any-marked q draft.updated_at r.has_external connection fresh db.messages
          (ground (arith, h)) in
      ground (arith, h, here)

  dispatch_new-idempotency :
      (b : Bool) (fresh : Fresh) (db : Database)
      → (dispatch_new hash parse_date nocase_eq lower accepts b fresh db).idempotency
        ≡ db.idempotency
  unfolding dispatch_new
  dispatch_new-idempotency true fresh db = refl
  dispatch_new-idempotency false fresh db = refl

  abbrev write : DraftRow → Recipients → Option ℕ → Fresh → Database → Database × Result Reply
  write = send_write hash parse_date nocase_eq lower accepts q

  abbrev own_hash : ℕ
  own_hash = send_hash hash parse_date nocase_eq lower accepts q

  -- What a batch that went through makes of the write.
  after_batch :
      (r : Recipients) (fresh : Fresh) (written after : Database) (changes : ℕ) (reply : Reply)
      → ◌≡◌ {A = Database × Result Reply}
          (if changes == 1
            then (
              dispatch_new hash parse_date nocase_eq lower accepts r.has_external fresh written,
              ok (sent_reply q.draft_id (send_status r.has_external)),
            )
            else (written, err version_conflict))
          (after, ok reply)
      → (changes ≡ 1)
        × (after
            ≡ dispatch_new hash parse_date nocase_eq lower accepts r.has_external fresh written)
        × (sent_reply q.draft_id (send_status r.has_external) ≡ reply)
  after_batch r fresh written after changes reply h = elim (Bool-cases (changes == 1)) [
    | inl e ↦ (==_eq changes 1 e, ground arith, ground arith)
    | inr e ↦ absurd (ground arith)
  ]

  write_of :
      (draft : DraftRow) (r : Recipients) (connection : Option ℕ) (fresh : Fresh)
      (db written : Database) (changes : ℕ)
      → send_batch q draft r connection own_hash fresh db ≡ ok (written, changes)
      → ◌≡◌ {A = Database × Result Reply} (write draft r connection fresh db) (
          if changes == 1
          then (
            dispatch_new hash parse_date nocase_eq lower accepts r.has_external fresh written,
            ok (sent_reply q.draft_id (send_status r.has_external)),
          )
          else (written, err version_conflict))
  unfolding send_write
  write_of draft r connection fresh db written changes e = rw e refl

  answer :
      (draft : DraftRow) (r : Recipients) (connection : Option ℕ) (fresh : Fresh)
      (db after : Database) (reply : Reply)
      → write draft r connection fresh db ≡ (after, ok reply)
      → (written : Database) × (send_batch q draft r connection own_hash fresh db ≡ ok (written, 1))
        × (after
            ≡ dispatch_new hash parse_date nocase_eq lower accepts r.has_external fresh written)
        × (sent_reply q.draft_id (send_status r.has_external) ≡ reply)
  unfolding send_write
  answer draft r connection fresh db after reply h =
      elim (Result-cases (send_batch q draft r connection own_hash fresh db)) [
        | inl ((written, changes), e) ↦
            let (one, out, same) =
              after_batch r fresh written after changes reply
                (sym (write_of draft r connection fresh db written changes e) ∙ h) in
            (written, e ∙ ap (λ n. ok (written, n)) one, out, same)
        | inr (t, e) ↦ absurd (ground (arith, e, h))
      ]

  -- A write that is answered leaves its answer for a later request with its key.
  send_write-replay :
      (draft : DraftRow) (r : Recipients) (connection : Option ℕ) (fresh : Fresh) (later : ℕ)
      (db after : Database) (reply : Reply)
      → find_where (is_record_of q.user_id draft_send q.idempotency_key fresh.now) db.idempotency
        ≡ none
      → fresh.now ≤ later
      → current_timestamp later < current_timestamp fresh.now + 86400
      → write draft r connection fresh db ≡ (after, ok reply)
      → find_replay after q.user_id draft_send q.idempotency_key own_hash later ≡ ok (some reply)
  send_write-replay draft r connection fresh later db after reply missing le lt h =
      let (written, e, out, same) = answer draft r connection fresh db after reply h in
      let idem =
        ap (λ d. d.idempotency) out
        ∙ dispatch_new-idempotency r.has_external fresh written
        ∙ send_batch-recorded draft r connection own_hash fresh db written e in
      subst
        (λ x. find_replay after q.user_id draft_send q.idempotency_key own_hash later ≡ ok (some x))
        same (find_recorded q own_hash fresh later _ db after missing idem le lt)

  abbrev send : Fresh → Database → Database × Result Reply
  send = send_draft hash parse_date nocase_eq lower accepts q

  send_prepared :
      (fresh : Fresh) (db : Database)
      → find_where (is_record_of q.user_id draft_send q.idempotency_key fresh.now) db.idempotency
        ≡ none
      → (draft : DraftRow) (r : Recipients) (connection : Option ℕ)
      → prepare_send hash parse_date nocase_eq lower accepts q db ≡ ok (draft, r, connection)
      → send fresh db ≡ write draft r connection fresh db
  unfolding send_draft
  send_prepared fresh db missing draft r connection e =
      rw (none-find_replay q own_hash fresh.now db missing, e) refl

  send_refused :
      (fresh : Fresh) (db : Database)
      → find_where (is_record_of q.user_id draft_send q.idempotency_key fresh.now) db.idempotency
        ≡ none
      → (t : Thrown) → prepare_send hash parse_date nocase_eq lower accepts q db ≡ err t
      → send fresh db ≡ (db, err t)
  unfolding send_draft
  send_refused fresh db missing t e = rw (none-find_replay q own_hash fresh.now db missing, e) refl

  replayed :
      (fresh : Fresh) (later : ℕ) (db after : Database) (reply : Reply)
      → find_where (is_record_of q.user_id draft_send q.idempotency_key fresh.now) db.idempotency
        ≡ none
      → fresh.now ≤ later
      → current_timestamp later < current_timestamp fresh.now + 86400
      → send fresh db ≡ (after, ok reply)
      → find_replay after q.user_id draft_send q.idempotency_key own_hash later ≡ ok (some reply)
  replayed fresh later db after reply missing le lt h =
      elim (Result-cases (prepare_send hash parse_date nocase_eq lower accepts q db)) [
        | inl ((draft, r, connection), e) ↦
            send_write-replay draft r connection fresh later db after reply missing le lt
              (sym (send_prepared fresh db missing draft r connection e) ∙ h)
        | inr (t, e) ↦ let h' = sym (send_refused fresh db missing t e) ∙ h in absurd (ground arith)
      ]

  -- A send that was answered, sent again within a day of its answer with the same key and the same
  -- version, is answered the same, and changes nothing: neither a second job nor a second copy.
  pub send-retry :
      (fresh again : Fresh) (db after : Database) (reply : Reply)
      → find_where (is_record_of q.user_id draft_send q.idempotency_key fresh.now) db.idempotency
        ≡ none
      → fresh.now ≤ again.now
      → current_timestamp again.now < current_timestamp fresh.now + 86400
      → send fresh db ≡ (after, ok reply)
      → send again after ≡ (after, ok reply)
  unfolding send_draft
  send-retry fresh again db after reply missing le lt h =
      rw (replayed fresh again.now db after reply missing le lt h) refl

  -- A draft that is where the caller left it, sent with a key that was used a day ago or before and
  -- whose record is still in the table: nothing is found to answer with, and yet the write fails on
  -- the unique index, with the database as it was.
  pub send_write-key_taken :
      (draft : DraftRow) (r : Recipients) (connection : Option ℕ) (fresh : Fresh) (db : Database)
      → find_where (is_record_of q.user_id draft_send q.idempotency_key fresh.now) db.idempotency
        ≡ none
      → is_key_taken q.user_id draft_send q.idempotency_key db ≡ true
      → count_where (is_at_version q.user_id q.draft_id draft.updated_at) db.messages ≡ 1
      → (find_replay db q.user_id draft_send q.idempotency_key own_hash fresh.now ≡ ok none)
        × (write draft r connection fresh db ≡ (db, err other))
  unfolding send_write send_batch
  send_write-key_taken draft r connection fresh db missing taken one = (
    none-find_replay q own_hash fresh.now db missing,
    rw (any-marked q draft.updated_at r.has_external connection fresh db.messages one, taken)
        (ground arith),
  )
