-- ===== src/Inbound/Sound.antt =====
-- The reception of a message keeps the attachments with their files, and the files with their objects.
use uni_mailbox.Prelude.{
  ℕ, suc, String, Bool, true, false, List, [], ◌∷◌, ◌++◌, Option, none, some, ◌==◌, ◌≡◌, subst,
  arith, Bool-cases, Option-cases, inl, inr, map, All, All-append, length,
}
use uni_mailbox.Domain.{Result-cases}
use uni_mailbox.Schema.{Mailbox}
use uni_mailbox.Attachments.Bodies.{buffer}
use uni_mailbox.Attachments.Catalog.{Files, store_attachment_file}
use uni_mailbox.Drafts.Editing.Kept.{IsSound, file_there, has_file, delete-IsSound}
use uni_mailbox.Inbound.{
  Part, Parsed, Post, Arrival, AttachmentRow, Texts, store_attachments, attachment_of,
  delete_stored, find_mailbox, refusal, refuses_batch, put_raw, finish_receive, take_in, receive,
  insert_received,
}
use uni_mailbox.Inbound.Stored.{IsFree, Answered, store-StoredAt}

-- The file of an attachment that is to be inserted is there.
abbrev HasRow : Files → AttachmentRow → Type 0
HasRow db row = file_there db.files row.file.object_key (some row.file.file_id) ≡ true

-- The identifiers that are drawn are different, and none is the key of a file.
pub record IsFresh (ids : ℕ → ℕ) (db : Files) : Type 0 where
  pub distinct : (m n : ℕ) → (m == n) ≡ false → (ids m == ids n) ≡ false
  pub free : (n : ℕ) → IsFree (ids n) db

abbrev AllStored : (before : Files) → Files × List AttachmentRow × Bool → Type 0
AllStored before (after, rows, complete) =
    IsSound after
    × ((k : ℕ) (o : Option ℕ)
        → file_there before.files k o ≡ true
        → file_there after.files k o ≡ true)
    × All (HasRow after) rows

store_attachments-AllStored :
    (constants : ℕ → ℕ) (ids : ℕ → ℕ) (parts : List Part) (db : Files)
    → IsFresh ids db
    → IsSound db
    → AllStored db (store_attachments constants ids parts db)
unfolding store_attachments
store_attachments-AllStored constants ids [] db fresh h = (h, (λ k o there. there), tt)
store_attachments-AllStored constants ids (p ∷ parts) db fresh h =
    let size = length p.bytes in
    let stored = store_attachment_file constants (ids 0) (ids 0) (buffer p.bytes) size size db in
    let at =
      store-StoredAt constants (ids 0) (ids 0) (buffer p.bytes) size size db (fresh.free 0) h in
    let (sound, (kept, other), answered) = at in
    elim (Result-cases stored.1) [
      | inr (t, e) ↦ rw (store_attachments, e) (sound, kept, tt)
      | inl (file, e) ↦
          let later : IsFresh (λ n. ids (suc n)) stored.0 = record {
            distinct = λ m n d. fresh.distinct (suc m) (suc n) (ground (arith, d));
            free = λ n.
                other (ids (suc n)) (fresh.distinct 0 (suc n) (ground arith)) (fresh.free (suc n));
          } in
          let (end, grown, rows) =
            store_attachments-AllStored constants (λ n. ids (suc n)) parts stored.0 later sound in
          let here : file_there stored.0.files file.object_key (some file.file_id) ≡ true =
            subst (Answered stored.0) e answered in
          rw (store_attachments, e)
            (
              end,
              (λ k o there. grown k o (kept k o there)),
              (grown file.object_key (some file.file_id) here, rows),
            )
    ]

delete_stored-IsSound :
    (rows : List AttachmentRow) (db : Files) → IsSound db → IsSound (delete_stored rows db)
unfolding delete_stored
delete_stored-IsSound [] db h = h
delete_stored-IsSound (r ∷ rows) db h =
    delete_stored-IsSound rows _ (delete-IsSound (some r.file.file_id) db h)

attachment_of-All :
    (id : ℕ) (db : Files) (rows : List AttachmentRow)
    → All (HasRow db) rows
    → All (λ a. has_file db.files a ≡ true) (map (attachment_of id) rows)
attachment_of-All id db [] h = tt
attachment_of-All id db (r ∷ rows) (hr, h) = (hr, attachment_of-All id db rows h)

attach-IsSound :
    (id : ℕ) (rows : List AttachmentRow) (db : Files)
    → IsSound db
    → All (HasRow db) rows
    → IsSound (record db { attached = db.attached ++ map (attachment_of id) rows })
attach-IsSound id rows db h there = record {
  keys = h.keys;
  objects = h.objects;
  attachments =
      All-append (λ a. has_file db.files a ≡ true) db.attached _ h.attachments
        (attachment_of-All id db rows there);
}

module _ (texts : Texts) (thread_of : String → ℕ) (constants : ℕ → ℕ) where
  insert_received-IsSound :
      (parsed : Parsed) (mailbox : Option Mailbox) (arrival : Arrival) (rows : List AttachmentRow)
      (post : Post)
      → IsSound post.files
      → All (HasRow post.files) rows
      → IsSound (insert_received texts thread_of constants parsed mailbox arrival rows post).files
  insert_received-IsSound parsed none arrival rows post h there =
      attach-IsSound arrival.message_id rows post.files h there
  insert_received-IsSound parsed (some m) arrival rows post h there =
      attach-IsSound arrival.message_id rows post.files h there

  take_in-IsSound :
      (parsed : Parsed) (mailbox : Option Mailbox) (arrival : Arrival) (post : Post)
      → IsFresh arrival.attachment_ids post.files
      → IsSound post.files
      → IsSound (take_in texts thread_of constants parsed mailbox arrival post).0.files
  unfolding take_in finish_receive
  take_in-IsSound parsed mailbox arrival post fresh h =
      let stored =
        store_attachments constants arrival.attachment_ids parsed.attachments post.files in
      let (sound, grown, there) =
        store_attachments-AllStored constants arrival.attachment_ids parsed.attachments post.files
          fresh h in
      let ready = record (put_raw arrival post) { files = stored.0 } in
      let undone = delete_stored-IsSound stored.1 stored.0 sound in
      elim (Bool-cases stored.2) [
        | inr e ↦ rw (take_in, finish_receive, e) undone
        | inl e ↦
            elim (Bool-cases (refuses_batch texts thread_of constants arrival stored.1 ready)) [
              | inl r ↦ rw (take_in, finish_receive, e, r) undone
              | inr r ↦
                  rw (take_in, finish_receive, e, r)
                    (insert_received-IsSound parsed mailbox arrival stored.1 ready sound there)
            ]
      ]

  -- The reception of a message, however it ends, keeps every attachment with its file, every file with
  -- its object, and no two files with one object, if the identifiers drawn for the attachments are
  -- different and none is the key of a file.
  pub receive-IsSound :
      (parsed : Parsed) (recipient : String) (arrival : Arrival) (post : Post)
      → IsFresh arrival.attachment_ids post.files
      → IsSound post.files
      → IsSound (receive texts thread_of constants parsed recipient arrival post).0.files
  unfolding receive
  receive-IsSound parsed recipient arrival post fresh h =
      let mailbox = find_mailbox texts recipient post.db in
      elim (Option-cases (refusal texts post.settings parsed mailbox)) [
        | inr (reply, e) ↦ rw (receive, e) h
        | inl e ↦ rw (receive, e) (take_in-IsSound parsed mailbox arrival post fresh h)
      ]
