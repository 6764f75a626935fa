-- ===== src/Schema.antt =====
-- apps/worker/src/platform/schema.ts: the rows of the tables that the modelled services read and
-- write, and one record for the database. Columns that nothing modelled reads (created_at, the
-- random id of a link, recipient, attachment or audit row) are left out.
use uni_mailbox.Prelude.{ℕ, ◌/◌, String, Bool, ◌&&◌, ◌||◌, List, Option, ltb, ◌==◌, is_none}
use uni_mailbox.Domain.{MessageStatus, MailboxFolder, RecipientType, Disposition}

-- A text timestamp: CURRENT_TIMESTAMP in whole seconds, strftime('%f') in milliseconds, a draft
-- version (an instant joined to a fresh UUID), or the text that a provider sent.
pub data Stamp : Type 0 where
  at : ℕ → Stamp
  millis : ℕ → Stamp
  version : ℕ → Stamp
  text : String → Stamp

-- `available_at`: `YYYY-MM-DD HH:MM:SS`, with `.mmm` behind it where a schedule wrote it.
pub record Moment : Type 0 where
  pub seconds : ℕ
  pub fraction : Option ℕ

-- CURRENT_TIMESTAMP at `now` milliseconds.
abbrev pub current_timestamp : ℕ → ℕ
current_timestamp now = now / 1000

-- `available_at <= CURRENT_TIMESTAMP`, a comparison of texts: within one second the text with a
-- fraction is the longer and the greater one.
abbrev pub is_due : Moment → ℕ → Bool
is_due t now =
    ltb t.seconds (current_timestamp now)
    || (t.seconds == current_timestamp now && is_none t.fraction)

pub data JobStatus : Type 0 where
  pending enqueued processing succeeded failed : JobStatus

pub record Job : Type 0 where
  pub id : ℕ
  pub message_id : ℕ
  pub status : JobStatus
  pub attempts : ℕ
  pub available_at : Moment
  pub lock_token : Option ℕ
  pub lock_expires_at : Option ℕ
  pub last_error : Option (String × String)
  pub created_via_schedule : Bool
  pub updated_at : ℕ

pub record Message : Type 0 where
  pub id : ℕ
  pub domain_id : Option ℕ
  pub thread_id : ℕ
  pub from_address : String
  pub from_name : String
  pub subject : String
  pub html_body : String
  pub text_body : String
  pub message_id_header : Option String
  pub in_reply_to_header : Option String
  pub references_header : String
  pub provider_key : Option String
  pub provider_connection_id : Option ℕ
  pub provider_message_id : Option String
  pub status : MessageStatus
  pub error_code : Option String
  pub error_message : Option String
  pub created_by_user_id : Option ℕ
  pub sent_at : Option Stamp
  pub updated_at : Stamp

pub record Link : Type 0 where
  pub mailbox_id : ℕ
  pub message_id : ℕ
  pub folder : MailboxFolder

pub record Recipient : Type 0 where
  pub message_id : ℕ
  pub type : RecipientType
  pub address : String
  pub display_name : String

pub data MailboxStatus : Type 0 where
  active disabled deleted : MailboxStatus

pub data DomainStatus : Type 0 where
  active disabled : DomainStatus

pub data ConnectionStatus : Type 0 where
  active disabled invalid : ConnectionStatus

pub data MailboxRole : Type 0 where
  viewer sender admin : MailboxRole

pub record Mailbox : Type 0 where
  pub id : ℕ
  pub domain_id : ℕ
  pub owner_user_id : ℕ
  pub address : String
  pub display_name : String
  pub status : MailboxStatus
  pub updated_at : ℕ

pub record MailboxMember : Type 0 where
  pub mailbox_id : ℕ
  pub user_id : ℕ
  pub role : MailboxRole
  pub updated_at : ℕ

pub record MailDomain : Type 0 where
  pub id : ℕ
  pub name : String
  pub status : DomainStatus
  pub outbound_connection_id : Option ℕ

pub record ProviderConnection : Type 0 where
  pub id : ℕ
  pub provider_key : String
  pub credential_id : ℕ
  pub status : ConnectionStatus
  pub config_json : String

pub record Credential : Type 0 where
  pub id : ℕ
  pub encrypted_payload : String

pub record MessageAttachment : Type 0 where
  pub message_id : ℕ
  pub object_key : String
  pub filename : Option String
  pub mime_type : String
  pub disposition : Disposition
  pub content_id : Option String

pub data DeliveryStatus : Type 0 where
  processing succeeded ignored failed : DeliveryStatus

pub record Delivery : Type 0 where
  pub provider_connection_id : ℕ
  pub provider_key : String
  pub event_key : ℕ
  pub domain_id : Option ℕ
  pub event_time : ℕ
  pub processing_status : DeliveryStatus
  pub attempts : ℕ
  pub lock_token : Option ℕ
  pub lock_expires_at : Option ℕ
  pub error_message : Option String
  pub updated_at : ℕ

pub record MessageState : Type 0 where
  pub provider_connection_id : ℕ
  pub provider_key : String
  pub provider_message_id : String
  pub message_id : Option ℕ
  pub domain_id : Option ℕ
  pub status_event_time : Option ℕ
  pub status_rank : ℕ
  pub import_lock_token : Option ℕ
  pub import_lock_expires_at : Option ℕ
  pub updated_at : ℕ

pub record WebhookEvent : Type 0 where
  pub domain_id : ℕ
  pub provider_connection_id : ℕ
  pub provider_key : String
  pub event_type : String
  pub provider_message_id : String
  pub message_id : ℕ
  pub recipient : Option String
  pub mapped_status : MessageStatus
  pub reason : Option String
  pub event_key : ℕ
  pub occurred_at : ℕ

-- What `response_json` holds: the response of the request that was answered first.
pub data Reply : Type 0 where
  sent_reply : (message_id : ℕ) (status : MessageStatus) → Reply
  scheduled_reply : (message_id scheduled_at : ℕ) (updated_at : Stamp) → Reply
  cancelled_reply : (message_id : ℕ) (cancelled : Bool) (updated_at : Stamp) → Reply

-- The value of the `operation` column.
pub data Operation : Type 0 where
  draft_send draft_schedule draft_schedule_cancel message_send : Operation

pub record IdempotencyRecord : Type 0 where
  pub actor_user_id : ℕ
  pub operation : Operation
  pub idempotency_key : String
  pub request_hash : ℕ
  pub response : Reply
  pub expires_at : ℕ

pub record Database : Type 0 where
  pub jobs : List Job
  pub messages : List Message
  pub links : List Link
  pub recipients : List Recipient
  pub mailboxes : List Mailbox
  pub members : List MailboxMember
  pub domains : List MailDomain
  pub connections : List ProviderConnection
  pub credentials : List Credential
  pub attachments : List MessageAttachment
  pub deliveries : List Delivery
  pub states : List MessageState
  pub events : List WebhookEvent
  pub idempotency : List IdempotencyRecord
