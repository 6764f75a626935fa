-- ===== src/Inbound.antt =====
-- apps/worker/src/modules/inbound-mail/index.ts: InboundMailService.receive, from the parsed message on.
-- The parser (postal-mime), JSON.parse and the functions on texts are parameters. The rows of
-- message_attachments are seen by the columns of Attachments.Catalog; the raw messages are objects of
-- a store of their own here, since the keys begin differently. A constraint that fails makes the batch
-- fail: the identifier of a message is unique, the size of an attachment above zero.
pub mod Outcomes
pub mod Refusal
pub mod Sound
pub mod Stored
pub mod Tests
use Prim.Native.String.{◌++◌ as concat}
use package.text.Mathlib.Text.{◌==◌ as str_eq}
use uni_mailbox.Prelude.{
  ℕ, zero, suc, ◌+◌, String, Bool, true, false, ◌&&◌, ◌||◌, not, List, [], ◌∷◌, ◌++◌, map, Option,
  none, some, ltb, ◌==◌, if◌then◌else◌, find_where, any, or_else, length, is_none, coalesce,
}
use uni_mailbox.Domain.{
  MessageStatus, MailboxFolder, RecipientType, to, cc, Result, ok, err, Thrown, other,
}
use uni_mailbox.Schema.{Database, Message, at, Link, Recipient, Mailbox, current_timestamp}
use uni_mailbox.Mailboxes.{is_active}
use uni_mailbox.Attachments.Bodies.{Body, buffer}
use uni_mailbox.Attachments.Catalog.{
  Files, FileRecord, Attached, store_attachment_file, delete_file_if_unreferenced,
}

-- postal-mime: an address, or a group of them.
pub record Person : Type 0 where
  pub address : String
  pub name : Option String

pub data Address : Type 0 where
  person : Person → Address
  group : List Person → Address

pub record Part : Type 0 where
  pub bytes : List ℕ
  pub mime_type : String
  pub content_id : Option String

pub record Parsed : Type 0 where
  pub sender : Option Address
  pub to : List Address
  pub cc : List Address
  pub subject : Option String
  pub text : Option String
  pub html : Option String
  pub message_id : Option String
  pub in_reply_to : Option String
  pub references : Option String
  pub attachments : List Part

-- system_settings, by the columns that are read.
pub record InboundSettings : Type 0 where
  pub inbound_enabled : Bool
  pub rejects_unknown : Bool
  pub sender_blocklist_json : String
  pub subject_blocklist_json : String
  pub content_blocklist_json : String

pub record UnreadState : Type 0 where
  pub mailbox_id : ℕ
  pub message_id : ℕ
  pub user_id : ℕ

-- The tables, the objects of raw messages by their keys, and the messages of the queue that ask for
-- the cleanup of such objects.
pub record Post : Type 0 where
  pub db : Database
  pub files : Files
  pub settings : Option InboundSettings
  pub unread : List UnreadState
  pub raw_keys : List (ℕ × ℕ)
  pub raws : List ℕ
  pub cleanups : List ℕ

-- What becomes of a message that is not thrown back.
pub data Verdict : Type 0 where
  rejected : (reply : String) → Verdict
  accepted : (message_id : ℕ) → Verdict

-- What the call draws; an attachment has an identifier for its row, its object and its file.
pub record Arrival : Type 0 where
  pub message_id : ℕ
  pub raw_key : ℕ
  pub attachment_ids : ℕ → ℕ
  pub now : ℕ

pub record AttachmentRow : Type 0 where
  pub id : ℕ
  pub file : FileRecord
  pub size : ℕ

-- The functions on texts.
pub record Texts : Type 0 where
  pub lower : String → String
  pub trim : String → String
  pub includes : (text part : String) → Bool
  pub json_items : String → Option (List (Option String))
  pub nocase_eq : String → String → Bool

abbrev strings_of : List (Option String) → List String
strings_of [] = []
strings_of (none ∷ items) = strings_of items
strings_of (some s ∷ items) = s ∷ strings_of items

-- `value.group ? … : …`: an item without a group is a person.
abbrev people_of : List Address → List Person
people_of [] = []
people_of (person p ∷ rest) = p ∷ people_of rest
people_of (group ps ∷ rest) = ps ++ people_of rest

module _ (texts : Texts) where
  open texts use {lower, trim, includes, json_items, nocase_eq}

  abbrev pub mailbox_address : Option Address → Person
  mailbox_address (some (person p)) = record {
    address = lower p.address;
    name = some (or_else p.name "");
  }
  mailbox_address _ = record { address = "unknown@invalid"; name = some "" }

  -- The texts of a JSON array; anything else is no list.
  unfoldable pub string_list : String → List String
  string_list value = elim (json_items value) [ none ↦ [] | some items ↦ strings_of items ]

  unfoldable pub blocked : String → List String → Bool
  blocked value patterns = any (λ p. includes (lower value) (lower (trim p))) patterns

  unfoldable pub is_blocked : InboundSettings → Parsed → Bool
  is_blocked settings parsed =
      blocked (mailbox_address parsed.sender).address (string_list settings.sender_blocklist_json)
      || blocked (or_else parsed.subject "") (string_list settings.subject_blocklist_json)
      || blocked (concat (or_else parsed.text "") (concat "\n" (or_else parsed.html "")))
          (string_list settings.content_blocklist_json)

  abbrev pub find_mailbox : (recipient : String) → Database → Option Mailbox
  find_mailbox recipient db =
      find_where (λ m. nocase_eq m.address (lower (trim recipient)) && is_active m.status)
        db.mailboxes

  -- The reply to a message that is not taken.
  unfoldable pub refusal : Option InboundSettings → Parsed → Option Mailbox → Option String
  refusal none parsed mailbox = some "421 Inbound mail is temporarily disabled"
  refusal (some settings) parsed mailbox =
      if not settings.inbound_enabled
      then some "421 Inbound mail is temporarily disabled"
      else if is_blocked settings parsed
      then some "550 Message rejected by policy"
      else if is_none mailbox && settings.rejects_unknown
      then some "550 Unknown recipient"
      else none

  abbrev received_recipient : (message_id : ℕ) → RecipientType → Person → Recipient
  received_recipient message_id type p = record {
    message_id = message_id;
    type = type;
    address = lower p.address;
    display_name = or_else p.name "";
  }

  abbrev pub received_recipients : (message_id : ℕ) → Parsed → List Recipient
  received_recipients message_id parsed =
      map (received_recipient message_id to) (people_of parsed.to)
      ++ map (received_recipient message_id cc) (people_of parsed.cc)

  -- `thread_of` makes a thread of a header.
  abbrev pub received_message :
      (thread_of : String → ℕ) → Parsed → Option Mailbox → Arrival → Message
  received_message thread_of parsed mailbox arrival = record {
    id = arrival.message_id;
    domain_id = elim mailbox [ none ↦ none | some m ↦ some m.domain_id ];
    thread_id = elim (coalesce parsed.in_reply_to parsed.message_id) [
      | none ↦ arrival.message_id
      | some header ↦ thread_of header
    ];
    from_address = (mailbox_address parsed.sender).address;
    from_name = or_else (mailbox_address parsed.sender).name "";
    subject = or_else parsed.subject "";
    html_body = or_else parsed.html "";
    text_body = or_else parsed.text "";
    message_id_header = parsed.message_id;
    in_reply_to_header = parsed.in_reply_to;
    references_header = or_else parsed.references "";
    provider_key = none;
    provider_connection_id = none;
    provider_message_id = none;
    status = MessageStatus.received;
    error_code = none;
    error_message = none;
    created_by_user_id = none;
    sent_at = none;
    updated_at = at (current_timestamp arrival.now);
  }

-- The loop over the attachments: what was stored, and whether all of it was.
unfoldable pub store_attachments :
    (constants : ℕ → ℕ) (ids : ℕ → ℕ) → List Part → Files → Files × List AttachmentRow × Bool
store_attachments constants ids [] files = (files, [], true)
store_attachments constants ids (part ∷ parts) files =
    let size = length part.bytes in
    let stored =
      store_attachment_file constants (ids 0) (ids 0) (buffer part.bytes) size size files in
    let rest = store_attachments constants (λ n. ids (suc n)) parts stored.0 in
    elim stored.1 [
      | err t ↦ (stored.0, [], false)
      | ok file ↦ (rest.0, record { id = ids 0; file = file; size = size } ∷ rest.1, rest.2)
    ]

abbrev pub attachment_of : (message_id : ℕ) → AttachmentRow → Attached
attachment_of message_id row = record {
  id = row.id;
  message_id = message_id;
  file_id = some row.file.file_id;
  object_key = row.file.object_key;
}

abbrev pub deliver_to : Option Mailbox → (message_id : ℕ) → Post → Post
deliver_to none message_id post = post
deliver_to (some m) message_id post = record post {
  db = record post.db {
    links =
        post.db.links
        ++ record { mailbox_id = m.id; message_id = message_id; folder = MailboxFolder.inbox } ∷ [];
  };
  unread =
      post.unread
      ++ record { mailbox_id = m.id; message_id = message_id; user_id = m.owner_user_id } ∷ [];
}

-- The catch block: files that nothing refers to go, and the queue is asked to clean up the raw object.
unfoldable pub delete_stored : List AttachmentRow → Files → Files
delete_stored [] files = files
delete_stored (row ∷ rows) files =
    delete_stored rows (delete_file_if_unreferenced (some row.file.file_id) files)

abbrev pub put_raw : Arrival → Post → Post
put_raw arrival post = record post { raws = post.raws ++ arrival.raw_key ∷ [] }

abbrev pub fail_receive : Arrival → List AttachmentRow → Post → Post
fail_receive arrival rows post = record post {
  files = delete_stored rows post.files;
  cleanups = post.cleanups ++ arrival.raw_key ∷ [];
}

module _ (texts : Texts) (thread_of : String → ℕ) (constants : ℕ → ℕ) where
  -- The statements of the batch.
  abbrev pub insert_received : Parsed → Option Mailbox → Arrival → List AttachmentRow → Post → Post
  insert_received parsed mailbox arrival rows post =
      deliver_to mailbox arrival.message_id (record post {
        db = record post.db {
          messages =
              post.db.messages ++ received_message texts thread_of parsed mailbox arrival ∷ [];
          recipients = post.db.recipients ++ received_recipients texts arrival.message_id parsed;
        };
        files = record post.files {
          attached = post.files.attached ++ map (attachment_of arrival.message_id) rows;
        };
        raw_keys = post.raw_keys ++ (arrival.message_id, arrival.raw_key) ∷ [];
      })

  abbrev refuses_batch : Arrival → List AttachmentRow → Post → Bool
  refuses_batch arrival rows post =
      any (λ m. m.id == arrival.message_id) post.db.messages || any (λ r. r.size == 0) rows

  -- Behind the loop over the attachments.
  unfoldable pub finish_receive :
      Parsed
      → Option Mailbox
      → Arrival
      → (stored : Files × List AttachmentRow × Bool) → Post
      → Post × Result Verdict
  finish_receive parsed mailbox arrival (files, rows, false) post =
      (fail_receive arrival rows (record post { files = files }), err other)
  finish_receive parsed mailbox arrival (files, rows, true) post =
      let ready = record post { files = files } in
      if refuses_batch arrival rows ready
      then (fail_receive arrival rows ready, err other)
      else (insert_received parsed mailbox arrival rows ready, ok (accepted arrival.message_id))

  unfoldable pub take_in : Parsed → Option Mailbox → Arrival → Post → Post × Result Verdict
  take_in parsed mailbox arrival post =
      finish_receive parsed mailbox arrival
        (store_attachments constants arrival.attachment_ids parsed.attachments post.files)
        (put_raw arrival post)

  unfoldable pub receive : Parsed → (recipient : String) → Arrival → Post → Post × Result Verdict
  receive parsed recipient arrival post =
      let mailbox = find_mailbox texts recipient post.db in
      elim (refusal texts post.settings parsed mailbox) [
        | some reply ↦ (post, ok (rejected reply))
        | none ↦ take_in parsed mailbox arrival post
      ]
