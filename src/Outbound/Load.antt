-- ===== src/Outbound/Load.antt =====
-- apps/worker/src/modules/outbound-mail/index.ts, loadProviderMessage, and the registry of
-- apps/worker/src/integrations/providers/index.ts. What stands outside the repository is a field of
-- `Externals`: the NOCASE collation of SQLite, JSON.parse, the cipher, the object store and the
-- provider's HTTP interface. A parsed configuration and decrypted secrets are passed as their texts.
use text.Mathlib.Text.{◌==◌ as str_eq}
use uni_mailbox.Prelude.{
  ℕ, String, Bool, true, false, ◌&&◌, not, List, [], ◌∷◌, map, Option, none, some, ◌==◌,
  if◌then◌else◌, find_where, filter, any,
}
use uni_mailbox.Domain.{
  RecipientType, to, cc, bcc, Disposition, Result, ok, ◌>>=◌, Thrown, domain_error, or_throw,
}
use uni_mailbox.Schema.{
  Database, Message, Recipient, Mailbox, MailboxStatus, ProviderConnection, ConnectionStatus,
  MessageAttachment,
}

pub record MailAddress : Type 0 where
  pub address : String
  pub name : Option String

pub record ProviderAttachment : Type 0 where
  pub filename : Option String
  pub content_type : String
  pub disposition : Disposition
  pub content_id : Option String
  pub content : List ℕ

pub record RuntimeContext : Type 0 where
  pub connection_id : ℕ
  pub config : String
  pub secrets : String

pub record SendMessage : Type 0 where
  pub idempotency_key : ℕ
  pub sender : MailAddress
  pub to_list : List MailAddress
  pub cc_list : List MailAddress
  pub bcc_list : List MailAddress
  pub subject : String
  pub html : String
  pub body_text : String
  pub message_id : Option String
  pub in_reply_to : Option String
  pub references : Option String
  pub attachments : List ProviderAttachment

pub record SendResult : Type 0 where
  pub provider_message_id : String
  pub accepted_at : String

pub record Externals : Type 0 where
  pub nocase_eq : String → String → Bool
  pub json_parses : String → Bool
  pub decrypt : String → Result String
  pub get_object : String → Option (List ℕ)
  pub is_registered : String → Bool
  pub send : String → RuntimeContext → SendMessage → Result SendResult

-- A column or field as JavaScript tests it: null and "" are both false.
abbrev pub truthy : Option String → Option String
truthy none = none
truthy (some s) = if str_eq s "" then none else some s

abbrev pub is_active_mailbox : Mailbox → Bool
is_active_mailbox m = elim m.status [ MailboxStatus.active ↦ true | _ ↦ false ]

abbrev pub is_active_connection : ProviderConnection → Bool
is_active_connection c = elim c.status [ ConnectionStatus.active ↦ true | _ ↦ false ]

abbrev pub is_type : RecipientType → RecipientType → Bool
is_type to to = true
is_type cc cc = true
is_type bcc bcc = true
is_type _ _ = false

pub record Credentials : Type 0 where
  pub provider_key : String
  pub connection_id : ℕ
  pub config : String
  pub payload : String

pub record Loaded : Type 0 where
  pub row : Message
  pub credentials : Option Credentials
  pub external : List Recipient
  pub attachments : List ProviderAttachment
  pub internal_mailbox_ids : List ℕ

abbrev pub message_not_found : Thrown
message_not_found =
    domain_error "OUTBOUND_MESSAGE_NOT_FOUND"
      "The queued message or provider connection is unavailable" 404

abbrev pub object_missing : Thrown
object_missing = domain_error "ATTACHMENT_OBJECT_MISSING" "An attachment object is missing" 503

-- The four columns that an external delivery needs, if none of them is null or "".
abbrev pub credentials_of : Database → Message → Option Credentials
credentials_of db row = elim (truthy row.provider_key) [
  | none ↦ none
  | some key ↦ elim row.provider_connection_id [
    | none ↦ none
    | some id ↦ elim (find_where (λ c. c.id == id && is_active_connection c) db.connections) [
      | none ↦ none
      | some c ↦ elim (truthy (some c.config_json)) [
        | none ↦ none
        | some config ↦ elim (find_where (λ e. e.id == c.credential_id) db.credentials) [
          | none ↦ none
          | some e ↦ elim (truthy (some e.encrypted_payload)) [
            | none ↦ none
            | some payload ↦ some (record {
              provider_key = key;
              connection_id = id;
              config = config;
              payload = payload;
            })
          ]
        ]
      ]
    ]
  ]
]

module _ (ext : Externals) where
  open ext use {nocase_eq, get_object}

  -- The active mailbox with this address.
  abbrev pub is_mailbox_of : String → Mailbox → Bool
  is_mailbox_of address m = nocase_eq m.address address && is_active_mailbox m

  abbrev pub is_internal : Database → String → Bool
  is_internal db address = any (is_mailbox_of address) db.mailboxes

  abbrev pub recipients_of : Database → ℕ → List Recipient
  recipients_of db message_id = filter (λ r. r.message_id == message_id) db.recipients

  abbrev pub external_of : Database → ℕ → List Recipient
  external_of db message_id =
      filter (λ r. not (is_internal db r.address)) (recipients_of db message_id)

  -- SELECT DISTINCT mb.id: one id for each active mailbox that is a recipient.
  abbrev pub internal_of : Database → ℕ → List ℕ
  internal_of db message_id =
      map (λ m. m.id)
        (filter
          (λ m.
            is_active_mailbox m
            && any (λ r. nocase_eq m.address r.address) (recipients_of db message_id))
          db.mailboxes)

  unfoldable pub load_attachments : List MessageAttachment → Result (List ProviderAttachment)
  load_attachments [] = ok []
  load_attachments (a ∷ rest) = do
    content ← or_throw (get_object a.object_key) object_missing
    more ← load_attachments rest
    ok (
        record {
          filename = a.filename;
          content_type = a.mime_type;
          disposition = a.disposition;
          content_id = truthy a.content_id;
          content = content;
        }
        ∷ more)

  abbrev pub attachments_of : Database → ℕ → List MessageAttachment
  attachments_of db message_id = filter (λ a. a.message_id == message_id) db.attachments

  -- Without external recipients neither the connection nor the attachments are read.
  load_content :
      Database → Message → List Recipient → Result (Option Credentials × List ProviderAttachment)
  unfolding load_attachments
  load_content db row [] = ok (credentials_of db row, [])
  load_content db row (r ∷ rest) = do
    c ← or_throw (credentials_of db row) message_not_found
    attachments ← load_attachments (attachments_of db row.id)
    ok (some c, attachments)

  unfoldable pub load : Database → ℕ → Result Loaded
  unfolding load_content
  load db message_id = do
    row ← or_throw (find_where (λ m. m.id == message_id) db.messages) message_not_found
    (c, attachments) ← load_content db row (external_of db message_id)
    ok (record {
      row = row;
      credentials = c;
      external = external_of db message_id;
      attachments = attachments;
      internal_mailbox_ids = internal_of db message_id;
    })

-- The recipients of one header.
abbrev pub addresses : RecipientType → List Recipient → List MailAddress
addresses type external =
    map (λ r. record { address = r.address; name = truthy (some r.display_name) })
      (filter (λ r. is_type r.type type) external)
