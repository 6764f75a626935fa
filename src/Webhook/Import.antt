-- ===== src/Webhook/Import.antt =====
-- findOrImport and resolveDomain of WebhookApplicationService: the message that an event is about, found
-- or fetched from the provider. An import locks the state of the provider's message (begin_import),
-- asks the provider (fetch_detail) and writes one batch (write_import); other requests may come
-- between. In a batch a constraint that fails leaves everything as it was.
pub mod Once
use Prim.Native.Char.{code}
use package.text.Mathlib.Text.{◌==◌ as str_eq}
use uni_mailbox.Prelude.{
  ℕ, ◌+◌, String, Bool, true, false, not, ◌&&◌, ◌||◌, List, [], ◌∷◌, ◌++◌, Option, none, some, ltb,
  ◌==◌, if◌then◌else◌, find_where, update_where, any, coalesce, or_else, is_some_and, is_none_or,
  is_none,
}
use uni_mailbox.Domain.{
  MessageStatus, status_rank, Result, ok, err, ◌>>=◌, ◌>>◌, Thrown, other, domain_error, guard,
  or_throw, webhook_lock_ttl_ms, is_sent_folder,
}
use uni_mailbox.Schema.{
  Database, Link, Mailbox, MailDomain, Message, MessageState, ProviderConnection, text, at,
  current_timestamp,
}
use uni_mailbox.Outbound.Load.{RuntimeContext, MailAddress}
use uni_mailbox.Webhook.{ProviderEvent, ResolvedMessage, is_state}

pub record ProviderMessageDetail : Type 0 where
  pub sender : MailAddress
  pub subject : String
  pub html : String
  pub body_text : String
  pub status : MessageStatus
  pub occurred_at : String

-- What the repository does not hold: NOCASE, trim, toLowerCase, the text with its `T` and `Z` taken
-- out, JSON.parse, the cipher.
pub record Externals : Type 0 where
  pub nocase_eq : String → String → Bool
  pub trim : String → String
  pub to_lower : String → String
  pub without_tz : String → String
  pub json_parses : String → Bool
  pub decrypt : String → Result String

-- The text behind the last `@`.
abbrev pub after_last_at : String → Option String
after_last_at String.[] = none
after_last_at (String.◌∷◌ c s) = elim (after_last_at s) [
  | some t ↦ some t
  | none ↦ if code c == b'@' then some s else none
]

-- A row of the join of messages, links and mailboxes, the one with a sent folder first.
abbrev pub is_known : (connection_id : ℕ) (provider_message_id : String) → Message → Bool
is_known connection_id provider_message_id m =
    is_some_and (λ c. c == connection_id) m.provider_connection_id
    && is_some_and (λ p. str_eq p provider_message_id) m.provider_message_id

abbrev link_of : Database → ℕ → Option Link
link_of db message_id =
    coalesce (find_where (λ l. l.message_id == message_id && is_sent_folder l.folder) db.links)
      (find_where (λ l. l.message_id == message_id) db.links)

abbrev domain_of_link : Database → Option Link → Option ℕ
domain_of_link db none = none
domain_of_link db (some l) = elim (find_where (λ b. b.id == l.mailbox_id) db.mailboxes) [
  | none ↦ none
  | some b ↦ some b.domain_id
]

abbrev pub webhook_domain_not_found : Thrown
webhook_domain_not_found =
    domain_error "WEBHOOK_DOMAIN_NOT_FOUND"
      "The provider message does not belong to a domain bound to this connection" 409

abbrev pub provider_message_not_found : Thrown
provider_message_not_found =
    domain_error "PROVIDER_MESSAGE_NOT_FOUND"
      "The provider message is not known and cannot be imported" 404

abbrev pub import_busy : Thrown
import_busy = domain_error "PROVIDER_IMPORT_BUSY" "The provider message is being imported" 503

abbrev pub connection_not_found : Thrown
connection_not_found =
    domain_error "PROVIDER_CONNECTION_NOT_FOUND" "Provider connection not found" 404

abbrev pub import_failed : Thrown
import_failed =
    domain_error "PROVIDER_IMPORT_FAILED" "The provider message could not be imported" 502

-- The state of a message that nobody has imported.
abbrev pub importing_state : ProviderEvent → (token now : ℕ) → MessageState
importing_state e token now = record {
  provider_connection_id = e.connection_id;
  provider_key = e.provider_key;
  provider_message_id = e.provider_message_id;
  message_id = none;
  domain_id = none;
  status_event_time = some e.occurred_at;
  status_rank = status_rank e.status;
  import_lock_token = some token;
  import_lock_expires_at = some (now + webhook_lock_ttl_ms);
  updated_at = current_timestamp now;
}

abbrev pub may_import : (now : ℕ) → MessageState → Bool
may_import now s = is_none s.message_id && is_none_or (λ t. ltb t now) s.import_lock_expires_at

abbrev pub relocked : (token now : ℕ) → MessageState → MessageState
relocked token now s = record s {
  import_lock_token = some token;
  import_lock_expires_at = some (now + webhook_lock_ttl_ms);
}

-- The message that somebody else has imported meanwhile.
abbrev imported : Database → MessageState → Result ResolvedMessage
imported db s = do
  message_id ← or_throw s.message_id import_busy
  m ← or_throw (find_where (λ m. m.id == message_id) db.messages) import_busy
  domain_id ← or_throw m.domain_id import_busy
  ok (record { message_id = message_id; domain_id = domain_id })

-- A lock, or the message it is about.
pub data Import : Type 0 where
  found : ResolvedMessage → Import
  locked : Import

abbrev as_found : Result ResolvedMessage → Result Import
as_found (ok r) = ok (found r)
as_found (err t) = err t

unfoldable pub lock_import : ProviderEvent → (token now : ℕ) → Database → Database × Result Import
lock_import e token now db = elim (find_where (is_state e) db.states) [
  | none ↦ (record db { states = db.states ++ importing_state e token now ∷ [] }, ok locked)
  | some s ↦
      if may_import now s
      then (
        record db { states = update_where (is_state e) (relocked token now) db.states },
        ok locked,
      )
      else (db, as_found (imported db s))
]

abbrev pub imported_message :
    (without_tz : String → String)
    → ProviderEvent
    → ProviderMessageDetail
    → (domain_id id now : ℕ) → Message
imported_message without_tz e d domain_id id now = record {
  id = id;
  domain_id = some domain_id;
  thread_id = id;
  from_address = d.sender.address;
  from_name = or_else d.sender.name "";
  subject = d.subject;
  html_body = d.html;
  text_body = d.body_text;
  message_id_header = none;
  in_reply_to_header = none;
  references_header = "";
  provider_key = some e.provider_key;
  provider_connection_id = some e.connection_id;
  provider_message_id = some e.provider_message_id;
  status = d.status;
  error_code = none;
  error_message = none;
  created_by_user_id = none;
  sent_at = some (text (without_tz d.occurred_at));
  updated_at = at (current_timestamp now);
}

abbrev pub holds_import : ProviderEvent → (token : ℕ) → MessageState → Bool
holds_import e token s = is_state e s && is_some_and (λ t. t == token) s.import_lock_token

abbrev pub linked_state : ResolvedMessage → (now : ℕ) → MessageState → MessageState
linked_state r now s = record s {
  message_id = some r.message_id;
  domain_id = some r.domain_id;
  import_lock_token = none;
  import_lock_expires_at = none;
  updated_at = current_timestamp now;
}

-- The batch and its catch block: the message is unique in its identifier, and in the connection with
-- the provider's name of it.
unfoldable pub write_import :
    (without_tz : String → String)
    → ProviderEvent
    → ProviderMessageDetail
    → (domain_id id token now : ℕ) → Database
    → Database × Result ResolvedMessage
write_import without_tz e d domain_id id token now db =
    if any (λ m. m.id == id || is_known e.connection_id e.provider_message_id m) db.messages
    then (
      db,
      elim (find_where (is_known e.connection_id e.provider_message_id) db.messages) [
        | some m ↦ ok (record { message_id = m.id; domain_id = domain_id })
        | none ↦ err import_failed
      ],
    )
    else (
      record db {
        messages = db.messages ++ imported_message without_tz e d domain_id id now ∷ [];
        states =
            update_where (holds_import e token)
              (linked_state (record { message_id = id; domain_id = domain_id }) now) db.states;
      },
      ok (record { message_id = id; domain_id = domain_id }),
    )

module _ (ext : Externals) where
  open ext use {nocase_eq, trim, to_lower, without_tz, json_parses, decrypt}

  -- The `@` is neither first nor last.
  unfoldable pub domain_name : String → Option String
  domain_name String.[] = none
  domain_name (String.◌∷◌ c s) = elim (after_last_at s) [
    | none ↦ none
    | some t ↦ if str_eq t "" then none else some (to_lower (trim t))
  ]

  -- `bound` is the connection where a current binding is required.
  unfoldable pub resolve_domain : Database → (bound : Option ℕ) → (address : String) → Result ℕ
  resolve_domain db bound address = elim (domain_name address) [
    | none ↦ err webhook_domain_not_found
    | some name ↦ do
      d ←
          or_throw
            (find_where
              (λ d. nocase_eq d.name name && elim bound [
                | none ↦ true
                | some c ↦ is_some_and (λ o. o == c) d.outbound_connection_id
              ])
              db.domains)
            webhook_domain_not_found
      ok d.id
  ]

  abbrev domain_of_known : Message → Database → Option ℕ → Result ℕ
  domain_of_known m db (some d) = ok d
  domain_of_known m db none = resolve_domain db none m.from_address

  -- UPDATE messages SET domain_id = ? WHERE id = ? AND domain_id IS NULL
  abbrev fill_domain : (message_id domain_id : ℕ) → Database → Database
  fill_domain message_id domain_id db = record db {
    messages =
        update_where (λ x. x.id == message_id && is_none x.domain_id)
          (λ x. record x { domain_id = some domain_id }) db.messages;
  }

  -- The known message, with its domain filled in.
  unfoldable pub adopt : Message → Database → Database × Result ResolvedMessage
  adopt m db =
      elim (domain_of_known m db (coalesce m.domain_id (domain_of_link db (link_of db m.id)))) [
        | err t ↦ (db, err t)
        | ok domain_id ↦ (
          fill_domain m.id domain_id db,
          ok (record { message_id = m.id; domain_id = domain_id }),
        )
      ]

  as_import : Database × Result ResolvedMessage → Database × Result Import
  as_import (db, r) = (db, as_found r)

  unfoldable pub begin_import :
      ProviderEvent → (can_sync : Bool) (token now : ℕ) → Database → Database × Result Import
  unfolding as_import
  begin_import e can_sync token now db =
      elim (find_where (is_known e.connection_id e.provider_message_id) db.messages) [
        | some m ↦ as_import (adopt m db)
        | none ↦
            if can_sync then lock_import e token now db else (db, err provider_message_not_found)
      ]

  -- What the provider answers, and the domain it belongs to.
  unfoldable pub fetch_detail :
      (get_message : RuntimeContext → String → Result ProviderMessageDetail)
      → ProviderEvent
      → Database
      → Result (ProviderMessageDetail × ℕ)
  fetch_detail get_message e db = do
    c ← or_throw (find_where (λ c. c.id == e.connection_id) db.connections) connection_not_found
    k ← or_throw (find_where (λ k. k.id == c.credential_id) db.credentials) connection_not_found
    guard (json_parses c.config_json) other
    secrets ← decrypt k.encrypted_payload
    d ←
        get_message
          (record { connection_id = e.connection_id; config = c.config_json; secrets = secrets })
          e.provider_message_id
    domain_id ← resolve_domain db (some e.connection_id) d.sender.address
    ok (d, domain_id)

  fetch_and_write :
      (get_message : RuntimeContext → String → Result ProviderMessageDetail)
      → ProviderEvent
      → (id token now : ℕ) → Database
      → Database × Result ResolvedMessage
  fetch_and_write get_message e id token now db = elim (fetch_detail get_message e db) [
    | err t ↦ (db, err t)
    | ok (d, domain_id) ↦ write_import without_tz e d domain_id id token now db
  ]

  abbrev Sync : Type 0
  Sync = RuntimeContext → String → Result ProviderMessageDetail

  -- findOrImport behind its lock, with nobody in between.
  resume_import :
      Option Sync
      → ProviderEvent
      → (id token now : ℕ) → Database × Result Import
      → Database × Result ResolvedMessage
  unfolding fetch_and_write
  resume_import sync e id token now (db, err t) = (db, err t)
  resume_import sync e id token now (db, ok (found r)) = (db, ok r)
  resume_import none e id token now (db, ok locked) = (db, err provider_message_not_found)
  resume_import (some get_message) e id token now (db, ok locked) =
      fetch_and_write get_message e id token now db

  -- `sync` is the plugin's, if it has one.
  unfoldable pub find_or_import :
      Option Sync
      → ProviderEvent
      → (id token now : ℕ) → Database
      → Database × Result ResolvedMessage
  unfolding resume_import
  find_or_import sync e id token now db =
      resume_import sync e id token now (begin_import e (not (is_none sync)) token now db)
