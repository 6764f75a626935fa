-- ===== src/Messages/Send.antt =====
-- apps/worker/src/modules/messages/index.ts: MessageApplicationService.send, split where it yields to
-- the database before its batch. The rate limit that stands before the digest is RateLimit.enforce.
-- `uploads` is the join of attachment_uploads and attachment_files, `signature_of` the table of the
-- domains' signatures. The identifiers of recipient, link and attachment rows are left out.
use package.text.Mathlib.Text.{◌==◌ as str_eq}
use Prim.Native.String.{◌++◌ as concat}
use uni_mailbox.Prelude.{
  ℕ, String, Bool, true, false, ◌&&◌, ◌||◌, not, List, [], ◌∷◌, ◌++◌, map, Option, none, some, ltb,
  ◌==◌, if◌then◌else◌, find_where, filter, any, length, is_some_and, is_none, or_else,
}
use uni_mailbox.Domain.{
  MessageStatus, queued, MailboxFolder, inbox, RecipientType, to, cc, bcc, Disposition, Result, ok,
  err, ◌>>=◌, ◌>>◌, Thrown, other, domain_error, guard, or_throw,
}
use uni_mailbox.Schema.{
  Database, Message, at, Recipient, Mailbox, MailDomain, MessageAttachment, Reply, sent_reply,
  message_send, current_timestamp, ConnectionStatus, DomainStatus,
}
use uni_mailbox.Mailboxes.{Principal, send, is_active, assert_operation}
use uni_mailbox.Outbound.{dispatch}
use uni_mailbox.Drafts.{
  find_replay, with_record, new_job, checked, is_key_taken, provider_not_configured,
}
use uni_mailbox.EmailCore.{
  NormalizedRecipients, normalize_recipients, build_reply_headers, compose_signature, html, text,
}

pub record SendInput : Type 0 where
  pub mailbox_id : ℕ
  pub to : List String
  pub cc : List String
  pub bcc : List String
  pub subject : String
  pub html : String
  pub text : String
  pub attachment_ids : List ℕ
  pub include_signature : Bool
  pub parent_message_id : Option ℕ

pub record UploadedFile : Type 0 where
  pub id : ℕ
  pub user_id : ℕ
  pub is_uploaded : Bool
  pub has_md5 : Bool
  pub expires_at : ℕ
  pub object_key : String
  pub filename : String
  pub mime_type : String
  pub disposition : Disposition

abbrev pub send_denied : Thrown
send_denied = domain_error "PERMISSION_DENIED" "Permission message.send is required" 403

abbrev pub key_required : Thrown
key_required =
    domain_error "IDEMPOTENCY_KEY_REQUIRED" "A valid Idempotency-Key header is required" 400

abbrev pub sender_inactive : Thrown
sender_inactive =
    domain_error "SENDER_MAILBOX_INACTIVE" "The sender mailbox or domain is not active" 409

abbrev pub connection_inactive : Thrown
connection_inactive =
    domain_error "PROVIDER_CONNECTION_INACTIVE" "The outbound provider connection is not active" 409

abbrev pub upload_invalid : Thrown
upload_invalid =
    domain_error "ATTACHMENT_UPLOAD_INVALID" "One or more attachment uploads are unavailable" 409

abbrev pub parent_not_found : Thrown
parent_not_found = domain_error "PARENT_MESSAGE_NOT_FOUND" "The parent message is unavailable" 404

abbrev is_active_domain : DomainStatus → Bool
is_active_domain DomainStatus.active = true
is_active_domain _ = false

abbrev is_active_connection : ConnectionStatus → Bool
is_active_connection ConnectionStatus.active = true
is_active_connection _ = false

-- The sender's mailbox joined to its domain.
unfoldable pub find_sender : ℕ → Database → Result (Mailbox × MailDomain)
find_sender mailbox_id db = do
  m ←
      or_throw (find_where (λ m. m.id == mailbox_id && is_active m.status) db.mailboxes)
        sender_inactive
  d ←
      or_throw (find_where (λ d. d.id == m.domain_id && is_active_domain d.status) db.domains)
        sender_inactive
  ok (m, d)

-- Without an active connection nothing can be sent outside.
unfoldable pub check_connection : (has_external : Bool) → Option ℕ → Database → Result (Unit {0})
check_connection has_external none db = guard (not has_external) provider_not_configured
check_connection has_external (some id) db =
    guard
      (not has_external
        || is_some_and (λ c. is_active_connection c.status)
            (find_where (λ c. c.id == id) db.connections))
      connection_inactive

abbrev pub distinct_ids : List ℕ → List ℕ
distinct_ids [] = []
distinct_ids (x ∷ xs) = x ∷ filter (λ y. not (y == x)) (distinct_ids xs)

unfoldable pub find_uploads :
    (user_id : ℕ) (attachment_ids : List ℕ) (now : ℕ)
    → List UploadedFile
    → Result (List UploadedFile)
find_uploads user_id attachment_ids now uploads =
    let found =
      filter
        (λ u.
          u.user_id == user_id
          && u.is_uploaded
          && u.has_md5
          && ltb (current_timestamp now) u.expires_at
          && any (λ id. id == u.id) attachment_ids)
        uploads in
    guard (length found == length (distinct_ids attachment_ids)) upload_invalid >> ok found

unfoldable pub may_read_message : (user_id message_id : ℕ) → Database → Bool
may_read_message user_id message_id db =
    any
      (λ l.
        l.message_id == message_id
        && any
            (λ b.
              b.id == l.mailbox_id
              && (b.owner_user_id == user_id
                  || any (λ m. m.mailbox_id == b.id && m.user_id == user_id) db.members))
            db.mailboxes)
      db.links

pub record Threading : Type 0 where
  pub in_reply_to : Option String
  pub references : String
  pub thread_id : Option ℕ

-- What the batch is made of.
pub record Prepared : Type 0 where
  pub sender : Mailbox
  pub domain : MailDomain
  pub recipients : NormalizedRecipients
  pub internal : List Mailbox
  pub external : Bool
  pub uploads : List UploadedFile
  pub html : String
  pub text : String
  pub threading : Threading

pub record SendFresh : Type 0 where
  pub message_id : ℕ
  pub job_id : ℕ
  pub now : ℕ

abbrev pub all_addresses : NormalizedRecipients → List String
all_addresses r = r.to ++ (r.cc ++ r.bcc)

abbrev pub distinct_mailboxes : List Mailbox → List Mailbox
distinct_mailboxes [] = []
distinct_mailboxes (b ∷ bs) = b ∷ filter (λ c. not (c.id == b.id)) (distinct_mailboxes bs)

-- The mailboxes of the addresses, in the order of the addresses.
abbrev mailboxes_of : (String → Option Mailbox) → List String → List Mailbox
mailboxes_of at_address [] = []
mailboxes_of at_address (a ∷ rest) =
    let more = mailboxes_of at_address rest in
    elim (at_address a) [ none ↦ more | some b ↦ b ∷ more ]

module _ (clean lower trim : String → String) (nocase_eq : String → String → Bool)
    (size : String → ℕ) (tokens : String → List String) (id_text : ℕ → String)
    (signature_of : ℕ → Option (String × String)) (uploads : List UploadedFile) where
  unfoldable pub thread_of : (user_id : ℕ) → Option ℕ → Database → Result Threading
  thread_of user_id none db = ok (record { in_reply_to = none; references = ""; thread_id = none })
  thread_of user_id (some parent_id) db = do
    guard (may_read_message user_id parent_id db) parent_not_found
    parent ← or_throw (find_where (λ m. m.id == parent_id) db.messages) parent_not_found
    ok (elim parent.message_id_header [
      | none ↦ record { in_reply_to = none; references = ""; thread_id = some parent.thread_id }
      | some header ↦
          let headers =
            build_reply_headers size tokens header (some parent.references_header) none in
          record {
            in_reply_to = some headers.in_reply_to;
            references = headers.references;
            thread_id = some parent.thread_id;
          }
    ])

  unfoldable pub sign_bodies : SendInput → (domain_id : ℕ) → String × String
  sign_bodies input domain_id =
      if input.include_signature
      then elim (signature_of domain_id) [
        | none ↦ (input.html, input.text)
        | some (html_content, text_content) ↦ (
          compose_signature trim input.html html_content none html,
          compose_signature trim input.text text_content none text,
        )
      ]
      else (input.html, input.text)

  -- `internalByAddress.get(address)`: an active mailbox among the recipients.
  unfoldable pub internal_at : Database → String → Option Mailbox
  internal_at db address =
      find_where
        (λ b. is_active b.status && nocase_eq b.address address && str_eq (lower b.address) address)
        db.mailboxes

  -- All that `send` reads once its key is new.
  unfoldable pub prepare_message : Principal → SendInput → (now : ℕ) → Database → Result Prepared
  prepare_message principal input now db = do
    assert_operation db principal.user_id input.mailbox_id send
    (sender, domain) ← find_sender input.mailbox_id db
    let recipients = normalize_recipients clean input.to input.cc input.bcc
    let addresses = all_addresses recipients
    let external = any (λ a. is_none (internal_at db a)) addresses
    check_connection external domain.outbound_connection_id db
    files ← find_uploads principal.user_id input.attachment_ids now uploads
    let bodies = sign_bodies input sender.domain_id
    threading ← thread_of principal.user_id input.parent_message_id db
    ok (record {
      sender = sender;
      domain = domain;
      recipients = recipients;
      internal = distinct_mailboxes (mailboxes_of (internal_at db) addresses);
      external = external;
      uploads = files;
      html = bodies.0;
      text = bodies.1;
      threading = threading;
    })

  -- The rows of the three lists.
  abbrev pub entries : (message_id : ℕ) → RecipientType → List String → List Recipient
  entries message_id type addresses =
      map (λ a. record { message_id = message_id; type = type; address = a; display_name = "" })
        addresses

  abbrev pub recipient_entries : (message_id : ℕ) → NormalizedRecipients → List Recipient
  recipient_entries message_id r =
      entries message_id to r.to ++ (entries message_id cc r.cc ++ entries message_id bcc r.bcc)

  abbrev pub sent_status : (external : Bool) → MessageStatus
  sent_status true = queued
  sent_status false = MessageStatus.sent

  abbrev pub new_message : Principal → SendInput → Prepared → SendFresh → Message
  new_message principal input p fresh = record {
    id = fresh.message_id;
    domain_id = some p.sender.domain_id;
    thread_id = or_else p.threading.thread_id fresh.message_id;
    from_address = p.sender.address;
    from_name = p.sender.display_name;
    subject = input.subject;
    html_body = p.html;
    text_body = p.text;
    message_id_header =
        some
          (concat "<" (concat (id_text fresh.message_id) (concat "@" (concat p.domain.name ">"))));
    in_reply_to_header = p.threading.in_reply_to;
    references_header = p.threading.references;
    provider_key = none;
    provider_connection_id = if p.external then p.domain.outbound_connection_id else none;
    provider_message_id = none;
    status = sent_status p.external;
    error_code = none;
    error_message = none;
    created_by_user_id = some principal.user_id;
    sent_at = if p.external then none else some (at (current_timestamp fresh.now));
    updated_at = at (current_timestamp fresh.now);
  }

  abbrev attached_file : (message_id : ℕ) → UploadedFile → MessageAttachment
  attached_file message_id u = record {
    message_id = message_id;
    object_key = u.object_key;
    filename = some u.filename;
    mime_type = u.mime_type;
    disposition = u.disposition;
    content_id = none;
  }

  -- The statements of the batch, without its last one.
  unfoldable pub message_rows : Principal → SendInput → Prepared → SendFresh → Database → Database
  message_rows principal input p fresh db = record db {
    messages = db.messages ++ new_message principal input p fresh ∷ [];
    recipients = db.recipients ++ recipient_entries fresh.message_id p.recipients;
    links =
        db.links
        ++ (record {
          mailbox_id = p.sender.id;
          message_id = fresh.message_id;
          folder = MailboxFolder.sent;
        }
            ∷ map (λ b. record { mailbox_id = b.id; message_id = fresh.message_id; folder = inbox })
                p.internal);
    attachments = db.attachments ++ map (attached_file fresh.message_id) p.uploads;
    jobs =
        db.jobs
        ++ (if p.external
            then new_job fresh.job_id fresh.message_id
                (record { seconds = current_timestamp fresh.now; fraction = none }) false fresh.now
              ∷ []
            else []);
  }

  -- A list of no rows is no VALUES clause: the batch of a message without recipients fails.
  abbrev pub is_nobody : NormalizedRecipients → Bool
  is_nobody r = length (all_addresses r) == 0

  -- The batch, on the database as it is by then, and what follows it. A queue that throws is logged.
  unfoldable pub message_write :
      (accepts : ℕ → Bool) (hash : ℕ)
      → Principal
      → SendInput
      → (key : String) → Prepared
      → SendFresh
      → Database
      → Database × Result Reply
  message_write accepts hash principal input key p fresh db =
      let reply = sent_reply fresh.message_id (sent_status p.external) in
      let written =
        (with_record true principal.user_id message_send key hash fresh.now reply
          (message_rows principal input p fresh db)) in
      let sent : Database = record written {
        jobs =
            if p.external
            then (dispatch accepts fresh.job_id fresh.now written.jobs).jobs
            else written.jobs;
      } in
      if not (is_key_taken principal.user_id message_send key db) && not (is_nobody p.recipients)
      then (sent, ok reply)
      else (checked db (find_replay db principal.user_id message_send key hash fresh.now)
          λ o. elim o [ none ↦ (db, err other) | some answered ↦ (db, ok answered) ])

  -- The permission and the key, `key_size` characters long.
  unfoldable pub admit : Principal → (key : String) (key_size : ℕ) → Result (Unit {0})
  admit principal key key_size =
      guard (any (λ x. str_eq x "message.send") principal.permissions) send_denied
      >> guard (not (str_eq (trim key) "") && not (ltb 255 key_size)) key_required

  -- `send`; `hash` is the digest of the canonical input, `key_size` the length of the key.
  unfoldable pub send_message :
      (accepts : ℕ → Bool) (hash key_size : ℕ)
      → Principal
      → SendInput
      → (key : String) → SendFresh
      → Database
      → Database × Result Reply
  send_message accepts hash key_size principal input key fresh db =
      checked db
        (admit principal key key_size
          >> find_replay db principal.user_id message_send key hash fresh.now)
        λ o. elim o [
          | some reply ↦ (db, ok reply)
          | none ↦
              checked db (prepare_message principal input fresh.now db)
                λ p. message_write accepts hash principal input key p fresh db
        ]
