-- ===== src/Inbound/Outcomes.antt =====
-- What becomes of a message that comes in.
use uni_mailbox.Prelude.{
  ℕ, or_else, coalesce, suc, String, true, List, [], ◌∷◌, ◌++◌, map, Option, none, some, ◌==◌, ◌≡◌,
  refl, ap, ◌∙◌, arith, Bool-cases, Option-cases, inl, inr, any, length,
}
use uni_mailbox.Domain.{Result, Result-cases, ok, err, other, MailboxFolder, MessageStatus}
use uni_mailbox.Schema.{Mailbox, Message}
use uni_mailbox.Attachments.Bodies.{Body, buffer, body_chunks}
use uni_mailbox.Attachments.Md5.{md5_hex}
use uni_mailbox.Attachments.Catalog.{
  Files, DedupeKey, base, own, put_object, insert_file, insert_stored_file,
  find_identical_candidate, register_stored_file, store_attachment_file,
}
use uni_mailbox.Attachments.Catalog.References.{delete-attached}
use uni_mailbox.Inbound.Refusal.{
  Refuses, Takes, Addressee, find_mailbox-Addressee, refusal-Refuses, refusal-Takes,
}
use uni_mailbox.Inbound.{
  mailbox_address, Part, Parsed, Post, Verdict, rejected, accepted, Arrival, AttachmentRow, Texts,
  refusal, find_mailbox, received_message, received_recipients, store_attachments, attachment_of,
  delete_stored, put_raw, insert_received, refuses_batch, finish_receive, take_in, receive,
}

insert_file-attached :
    (id key size : ℕ) (md5 : List ℕ) (k : DedupeKey) (db after : Files)
    → insert_file id key md5 size k db ≡ some after
    → after.attached ≡ db.attached
unfolding insert_file
insert_file-attached id key size md5 k db after h = ground arith

register-attached :
    (id key size : ℕ) (md5 : List ℕ) (db : Files)
    → (register_stored_file id key md5 size db).0.attached ≡ db.attached
unfolding register_stored_file insert_stored_file
register-attached id key size md5 db =
    elim (Option-cases (find_identical_candidate key md5 size none db)) [
      | inr (f, e) ↦ elim (Bool-cases (f.object_key == key)) [
        | inl k ↦ rw (register_stored_file, e, k) refl
        | inr k ↦ rw (register_stored_file, e, k) refl
      ]
      | inl e ↦ elim (Option-cases (insert_file id key md5 size (base md5 size) db)) [
        | inr (after, i) ↦
            rw (register_stored_file, insert_stored_file, e, i)
              (insert_file-attached id key size md5 (base md5 size) db after i)
        | inl i ↦ elim (Option-cases (insert_file id key md5 size (own md5 size id) db)) [
          | inr (after, j) ↦
              rw (register_stored_file, insert_stored_file, e, i, e, j)
                (insert_file-attached id key size md5 (own md5 size id) db after j)
          | inl j ↦ rw (register_stored_file, insert_stored_file, e, i, e, j) refl
        ]
      ]
    ]

store_attachment_file-attached :
    (constants : ℕ → ℕ) (id key : ℕ) (body : Body) (size_bytes size : ℕ) (db : Files)
    → (store_attachment_file constants id key body size_bytes size db).0.attached ≡ db.attached
unfolding store_attachment_file
store_attachment_file-attached constants id key body size_bytes size db =
    elim (Result-cases (md5_hex constants (body_chunks body))) [
      | inr (t, e) ↦ rw (store_attachment_file, e) refl
      | inl (md5, e) ↦
          rw (store_attachment_file, e)
            (register-attached id key size_bytes md5
              (put_object key (record { body = body; size = size }) db))
    ]

store_attachments-attached :
    (constants : ℕ → ℕ) (ids : ℕ → ℕ) (parts : List Part) (db : Files)
    → (store_attachments constants ids parts db).0.attached ≡ db.attached
unfolding store_attachments
store_attachments-attached constants ids [] db = refl
store_attachments-attached constants ids (p ∷ parts) db =
    let size = length p.bytes in
    let stored = store_attachment_file constants (ids 0) (ids 0) (buffer p.bytes) size size db in
    let same =
      store_attachment_file-attached constants (ids 0) (ids 0) (buffer p.bytes) size size db in
    elim (Result-cases stored.1) [
      | inr (t, e) ↦ rw (store_attachments, e) same
      | inl (file, e) ↦
          rw (store_attachments, e)
            (store_attachments-attached constants (λ n. ids (suc n)) parts stored.0 ∙ same)
    ]

-- If all is stored, the rows are those of the parts, in their order.
store_attachments-sizes :
    (constants : ℕ → ℕ) (ids : ℕ → ℕ) (parts : List Part) (db : Files)
    → (store_attachments constants ids parts db).2 ≡ true
    → map (λ r. r.size) (store_attachments constants ids parts db).1
      ≡ map (λ p. length p.bytes) parts
unfolding store_attachments
store_attachments-sizes constants ids [] db h = refl
store_attachments-sizes constants ids (p ∷ parts) db h =
    let size = length p.bytes in
    let stored = store_attachment_file constants (ids 0) (ids 0) (buffer p.bytes) size size db in
    elim (Result-cases stored.1) [
      | inr (t, e) ↦ absurd (ground (arith, h, e))
      | inl (file, e) ↦
          rw (store_attachments, e)
            (ap (λ xs. size ∷ xs)
              (store_attachments-sizes constants (λ n. ids (suc n)) parts stored.0
                (rw (store_attachments, e) at h)))
    ]

delete_stored-attached :
    (rows : List AttachmentRow) (db : Files) → (delete_stored rows db).attached ≡ db.attached
unfolding delete_stored
delete_stored-attached [] db = refl
delete_stored-attached (r ∷ rows) db =
    delete_stored-attached rows _ ∙ delete-attached (some r.file.file_id) db

-- The mailbox has the message in its inbox, unread by its owner.
abbrev pub Delivered : Option Mailbox → (message_id : ℕ) → (before after : Post) → Type 0
Delivered none id before after = (after.db.links ≡ before.db.links) × (after.unread ≡ before.unread)
Delivered (some m) id before after =
    (after.db.links
      ≡ before.db.links
        ++ record { mailbox_id = m.id; message_id = id; folder = MailboxFolder.inbox } ∷ [])
    × (after.unread
        ≡ before.unread
          ++ record { mailbox_id = m.id; message_id = id; user_id = m.owner_user_id } ∷ [])

abbrev map_option : {A : Type 0} → (A → ℕ) → Option A → Option ℕ
map_option f none = none
map_option f (some a) = some (f a)

module _ (texts : Texts) (thread_of : String → ℕ) (constants : ℕ → ℕ) where
  -- The thread of the message replied to, or else of the header, or else the message's own.
  abbrev thread_in : (in_reply_to message_id : Option String) (id : ℕ) → ℕ
  thread_in (some header) o id = thread_of header
  thread_in none (some header) id = thread_of header
  thread_in none none id = id

  thread_in_lem :
      (in_reply_to message_id : Option String) (id : ℕ)
      → elim (coalesce in_reply_to message_id) [ none ↦ id | some header ↦ thread_of header ]
        ≡ thread_in in_reply_to message_id id
  thread_in_lem (some header) o id = refl
  thread_in_lem none (some header) id = refl
  thread_in_lem none none id = refl

  -- The message of the mailbox's domain, from the sender of the mail, with its subject and bodies, in the
  -- thread of the message it replies to, or else of itself.
  abbrev pub IsMessage : Parsed → Option Mailbox → (id : ℕ) → Message → Type 0
  IsMessage parsed mailbox id m =
      (m.id ≡ id)
      × (m.domain_id ≡ map_option (λ b. b.domain_id) mailbox)
      × (m.thread_id ≡ thread_in parsed.in_reply_to parsed.message_id id)
      × (m.from_address ≡ (mailbox_address texts parsed.sender).address)
      × (m.subject ≡ or_else parsed.subject "")
      × (m.html_body ≡ or_else parsed.html "")
      × (m.text_body ≡ or_else parsed.text "")
      × (m.message_id_header ≡ parsed.message_id)
      × (m.status ≡ MessageStatus.received)

  received_message-IsMessage :
      (parsed : Parsed) (mailbox : Option Mailbox) (arrival : Arrival)
      → IsMessage parsed mailbox arrival.message_id
          (received_message texts thread_of parsed mailbox arrival)
  received_message-IsMessage parsed mailbox arrival = (
    refl,
    elim mailbox [ none ↦ refl | some m ↦ refl ],
    thread_in_lem parsed.in_reply_to parsed.message_id arrival.message_id,
    refl,
    refl,
    refl,
    refl,
    refl,
    refl,
  )

  -- What a call may have done, by its answer.
  abbrev pub Received :
      Parsed → Option Mailbox → Arrival → (before : Post) → Post × Result Verdict → Type 0
  Received parsed mailbox arrival before (after, ok (rejected reply)) =
      Refuses texts before.settings parsed mailbox reply × (after ≡ before)
  Received parsed mailbox arrival before (after, ok (accepted id)) =
      Takes texts before.settings parsed mailbox
      × (id ≡ arrival.message_id)
      × ((m : Message) × (after.db.messages ≡ before.db.messages ++ m ∷ [])
          × IsMessage parsed mailbox id m)
      × (after.db.recipients ≡ before.db.recipients ++ received_recipients texts id parsed)
      × Delivered mailbox id before after
      × ((rows : List AttachmentRow) × (after.files.attached
            ≡ before.files.attached ++ map (attachment_of id) rows)
          × (map (λ r. r.size) rows ≡ map (λ p. length p.bytes) parsed.attachments))
      × (after.cleanups ≡ before.cleanups)
  Received parsed mailbox arrival before (after, err t) =
      Takes texts before.settings parsed mailbox
      × (after.db ≡ before.db)
      × (after.unread ≡ before.unread)
      × (after.files.attached ≡ before.files.attached)
      × (after.cleanups ≡ before.cleanups ++ arrival.raw_key ∷ [])

  insert_received-Delivered :
      (parsed : Parsed) (mailbox : Option Mailbox) (arrival : Arrival) (rows : List AttachmentRow)
      (before : Post) (files : Files)
      → files.attached ≡ before.files.attached
      → Takes texts before.settings parsed mailbox
      → map (λ r. r.size) rows ≡ map (λ p. length p.bytes) parsed.attachments
      → Received parsed mailbox arrival before (
        insert_received texts thread_of constants parsed mailbox arrival rows
            (record (put_raw arrival before) { files = files }),
        ok (accepted arrival.message_id),
      )
  insert_received-Delivered parsed none arrival rows before files same n sizes = (
    n,
    refl,
    (_, refl, received_message-IsMessage parsed none arrival),
    refl,
    (refl, refl),
    (rows, ap (λ xs. xs ++ map (attachment_of arrival.message_id) rows) same, sizes),
    refl,
  )
  insert_received-Delivered parsed (some m) arrival rows before files same n sizes = (
    n,
    refl,
    (_, refl, received_message-IsMessage parsed (some m) arrival),
    refl,
    (refl, refl),
    (rows, ap (λ xs. xs ++ map (attachment_of arrival.message_id) rows) same, sizes),
    refl,
  )

  take_in-Received :
      (parsed : Parsed) (mailbox : Option Mailbox) (arrival : Arrival) (before : Post)
      → Takes texts before.settings parsed mailbox
      → Received parsed mailbox arrival before
          (take_in texts thread_of constants parsed mailbox arrival before)
  unfolding take_in finish_receive
  take_in-Received parsed mailbox arrival before n =
      let stored =
        store_attachments constants arrival.attachment_ids parsed.attachments before.files in
      let same =
        store_attachments-attached constants arrival.attachment_ids parsed.attachments
          before.files in
      let ready = record (put_raw arrival before) { files = stored.0 } in
      let undone = delete_stored-attached stored.1 stored.0 ∙ same in
      elim (Bool-cases stored.2) [
        | inr e ↦ rw (take_in, finish_receive, e) (n, refl, refl, undone, refl)
        | inl e ↦
            elim (Bool-cases (refuses_batch texts thread_of constants arrival stored.1 ready)) [
              | inl r ↦ rw (take_in, finish_receive, e, r) (n, refl, refl, undone, refl)
              | inr r ↦
                  rw (take_in, finish_receive, e, r)
                    (insert_received-Delivered parsed mailbox arrival stored.1 before stored.0 same
                      n
                      (store_attachments-sizes constants arrival.attachment_ids parsed.attachments
                        before.files e))
            ]
      ]

  -- For an active mailbox with the address of the recipient, or none if there is none: a call that rejects
  -- a message changes nothing, and replies what is asked for by the settings, which may be missing or
  -- switch the reception off, by a pattern of the blocklists, or by the policy on unknown recipients.
  -- If none of these holds, either the message is accepted, and then it is appended with its recipients,
  -- the link and the unread mark of the mailbox, and as many attachments as it has parts; or the call
  -- fails, leaves the tables without any of it, and asks once for the cleanup of its raw object.
  pub receive-Received :
      (parsed : Parsed) (recipient : String) (arrival : Arrival) (before : Post)
      → (mailbox : Option Mailbox) × Addressee texts recipient before.db.mailboxes mailbox
        × Received parsed mailbox arrival before
            (receive texts thread_of constants parsed recipient arrival before)
  unfolding receive
  receive-Received parsed recipient arrival before =
      let mailbox = find_mailbox texts recipient before.db in
      (
        mailbox,
        find_mailbox-Addressee texts recipient before.db,
        elim (Option-cases (refusal texts before.settings parsed mailbox)) [
          | inr (reply, e) ↦
              rw (receive, e) (refusal-Refuses texts before.settings parsed mailbox reply e, refl)
          | inl e ↦
              rw (receive, e)
                (take_in-Received parsed mailbox arrival before
                  (refusal-Takes texts before.settings parsed mailbox e))
        ],
      )

  any-empty :
      (parts : List Part) (rows : List AttachmentRow)
      → map (λ r. r.size) rows ≡ map (λ p. length p.bytes) parts
      → any (λ p. length p.bytes == 0) parts ≡ true
      → any (λ r. r.size == 0) rows ≡ true
  any-empty [] rows h e = absurd (ground (arith, e))
  any-empty (p ∷ parts) [] h e = absurd (ground (arith, h))
  any-empty (p ∷ parts) (r ∷ rows) h e = ground (arith, any-empty parts rows, h, e)

  -- A message that is not rejected and has an empty attachment is never accepted: the call fails,
  -- whatever else it carries.
  pub receive-empty :
      (parsed : Parsed) (recipient : String) (arrival : Arrival) (before : Post)
      → refusal texts before.settings parsed (find_mailbox texts recipient before.db) ≡ none
      → any (λ p. length p.bytes == 0) parsed.attachments ≡ true
      → (receive texts thread_of constants parsed recipient arrival before).1 ≡ err other
  unfolding receive take_in finish_receive
  receive-empty parsed recipient arrival before n e =
      let stored =
        store_attachments constants arrival.attachment_ids parsed.attachments before.files in
      elim (Bool-cases stored.2) [
        | inr k ↦ rw (receive, n, take_in, finish_receive, k) refl
        | inl k ↦
            let sizes =
              store_attachments-sizes constants arrival.attachment_ids parsed.attachments
                before.files k in
            let zero_row = any-empty parsed.attachments stored.1 sizes e in
            rw (receive, n, take_in, finish_receive, k) (rw zero_row (ground arith))
      ]
