-- ===== src/Webhook.antt =====
-- apps/worker/src/modules/provider-sync/webhook.ts: the statements of WebhookApplicationService on a
-- delivery and on the state of a provider's message. One call reads one time, `now`.
pub mod Delivered
pub mod Handle
pub mod Import
pub mod Ordering
pub mod Tests
use package.text.Mathlib.Text.{◌==◌ as str_eq}
use uni_mailbox.Prelude.{
  ℕ, ◌+◌, String, Bool, true, false, ◌&&◌, ◌||◌, List, [], ◌∷◌, ◌++◌, Option, none, some, ltb, leb,
  ◌==◌, if◌then◌else◌, find_where, update_where, count_where, any, coalesce, is_some_and,
  is_none_or, is_none,
}
use uni_mailbox.Domain.{
  MessageStatus, SafeProviderError, status_rank, Result, ok, err, Thrown, domain_error,
  webhook_lock_ttl_ms,
}
use uni_mailbox.Schema.{
  Database, Delivery, DeliveryStatus, MessageState, WebhookEvent, Message, at, current_timestamp,
}

pub record ProviderEvent : Type 0 where
  pub event_key : ℕ
  pub provider_key : String
  pub connection_id : ℕ
  pub event_type : String
  pub provider_message_id : String
  pub status : MessageStatus
  pub occurred_at : ℕ
  pub recipient : Option String
  pub error : Option SafeProviderError

pub record ResolvedMessage : Type 0 where
  pub message_id : ℕ
  pub domain_id : ℕ

pub data Claim : Type 0 where
  acquired completed : Claim

abbrev pub is_delivery : ProviderEvent → Delivery → Bool
is_delivery e d = d.provider_connection_id == e.connection_id && d.event_key == e.event_key

-- A status in which an event is never handled again.
abbrev pub is_settled : DeliveryStatus → Bool
is_settled DeliveryStatus.succeeded = true
is_settled DeliveryStatus.ignored = true
is_settled _ = false

abbrev pub is_failed : DeliveryStatus → Bool
is_failed DeliveryStatus.failed = true
is_failed _ = false

abbrev pub webhook_busy : Thrown
webhook_busy = domain_error "WEBHOOK_BUSY" "The webhook event is being processed" 503

abbrev pub new_delivery : ProviderEvent → (token now : ℕ) → Delivery
new_delivery e token now = record {
  provider_connection_id = e.connection_id;
  provider_key = e.provider_key;
  event_key = e.event_key;
  domain_id = none;
  event_time = e.occurred_at;
  processing_status = DeliveryStatus.processing;
  attempts = 1;
  lock_token = some token;
  lock_expires_at = some (now + webhook_lock_ttl_ms);
  error_message = none;
  updated_at = current_timestamp now;
}

-- The WHERE clause of the takeover, and what it sets.
abbrev pub may_take : ProviderEvent → (now : ℕ) → Delivery → Bool
may_take e now d =
    is_delivery e d
    && (is_failed d.processing_status || is_none_or (λ t. ltb t now) d.lock_expires_at)

abbrev pub taken : (token now : ℕ) → Delivery → Delivery
taken token now d = record d {
  processing_status = DeliveryStatus.processing;
  attempts = d.attempts + 1;
  lock_token = some token;
  lock_expires_at = some (now + webhook_lock_ttl_ms);
  error_message = none;
  updated_at = current_timestamp now;
}

-- The INSERT of `claim` meets a row: settled, taken over, or busy.
unfoldable pub take_over :
    ProviderEvent → (token now : ℕ) → Delivery → List Delivery → List Delivery × Result Claim
take_over e token now existing rows =
    if is_settled existing.processing_status then (rows, ok completed) else (
      update_where (may_take e now) (taken token now) rows,
      if count_where (may_take e now) rows == 1 then ok acquired else err webhook_busy,
    )

unfoldable pub claim_event :
    ProviderEvent → (token now : ℕ) → List Delivery → List Delivery × Result Claim
claim_event e token now rows = elim (find_where (is_delivery e) rows) [
  | none ↦ (rows ++ new_delivery e token now ∷ [], ok acquired)
  | some existing ↦ take_over e token now existing rows
]

-- The end of `handle`: the event is kept and its delivery settled.
abbrev pub succeeded_delivery : ResolvedMessage → ℕ → Delivery → Delivery
succeeded_delivery r now d = record d {
  domain_id = some r.domain_id;
  processing_status = DeliveryStatus.succeeded;
  lock_token = none;
  lock_expires_at = none;
  updated_at = current_timestamp now;
}

abbrev pub event_row : ProviderEvent → ResolvedMessage → WebhookEvent
event_row e r = record {
  domain_id = r.domain_id;
  provider_connection_id = e.connection_id;
  provider_key = e.provider_key;
  event_type = e.event_type;
  provider_message_id = e.provider_message_id;
  message_id = r.message_id;
  recipient = e.recipient;
  mapped_status = e.status;
  reason = elim e.error [ none ↦ none | some x ↦ some x.message ];
  event_key = e.event_key;
  occurred_at = e.occurred_at;
}

unfoldable pub settle_event : ProviderEvent → ResolvedMessage → ℕ → Database → Database
settle_event e r now db = record db {
  events = db.events ++ event_row e r ∷ [];
  deliveries = update_where (is_delivery e) (succeeded_delivery r now) db.deliveries;
}

-- The catch block of `handle`: no lock token is asked for.
abbrev pub failed_delivery : (message : String) (now : ℕ) → Delivery → Delivery
failed_delivery message now d = record d {
  processing_status = DeliveryStatus.failed;
  lock_token = none;
  lock_expires_at = none;
  error_message = some message;
  updated_at = current_timestamp now;
}

unfoldable pub fail_event : ProviderEvent → (message : String) → ℕ → List Delivery → List Delivery
fail_event e message now = update_where (is_delivery e) (failed_delivery message now)

-- applyStatus
abbrev pub is_state : ProviderEvent → MessageState → Bool
is_state e s =
    s.provider_connection_id == e.connection_id
    && str_eq s.provider_message_id e.provider_message_id

abbrev pub supersedes : ProviderEvent → MessageState → Bool
supersedes e s = elim s.status_event_time [
  | none ↦ true
  | some t ↦ ltb t e.occurred_at || (t == e.occurred_at && leb s.status_rank (status_rank e.status))
]

-- apps/worker/src/modules/provider-sync/index.ts
pub record StoredProviderStatus : Type 0 where
  pub event_time : ℕ
  pub status_rank : ℕ

abbrev pub should_apply_provider_status :
    Option StoredProviderStatus → (incoming : StoredProviderStatus) → Bool
should_apply_provider_status none incoming = true
should_apply_provider_status (some stored) incoming =
    ltb stored.event_time incoming.event_time
    || (incoming.event_time == stored.event_time && leb stored.status_rank incoming.status_rank)

abbrev pub advanced : ProviderEvent → ResolvedMessage → ℕ → MessageState → MessageState
advanced e r now s = record s {
  message_id = coalesce s.message_id (some r.message_id);
  domain_id = coalesce s.domain_id (some r.domain_id);
  status_event_time = some e.occurred_at;
  status_rank = status_rank e.status;
  updated_at = current_timestamp now;
}

abbrev pub new_state : ProviderEvent → ResolvedMessage → ℕ → MessageState
new_state e r now = record {
  provider_connection_id = e.connection_id;
  provider_key = e.provider_key;
  provider_message_id = e.provider_message_id;
  message_id = some r.message_id;
  domain_id = some r.domain_id;
  status_event_time = some e.occurred_at;
  status_rank = status_rank e.status;
  import_lock_token = none;
  import_lock_expires_at = none;
  updated_at = current_timestamp now;
}

unfoldable pub put_state :
    ProviderEvent → ResolvedMessage → ℕ → List MessageState → List MessageState
put_state e r now states =
    if any (is_state e) states
    then update_where (λ s. is_state e s && supersedes e s) (advanced e r now) states
    else states ++ new_state e r now ∷ []

-- The row that the EXISTS of the second statement looks for.
abbrev pub is_current : ProviderEvent → MessageState → Bool
is_current e s =
    is_state e s
    && is_some_and (λ t. t == e.occurred_at) s.status_event_time
    && s.status_rank == status_rank e.status

abbrev pub with_status : ProviderEvent → ℕ → Message → Message
with_status e now m = record m {
  status = e.status;
  error_code = elim e.error [ none ↦ none | some x ↦ some x.code ];
  error_message = elim e.error [ none ↦ none | some x ↦ some x.message ];
  updated_at = at (current_timestamp now);
}

unfoldable pub apply_status : ProviderEvent → ResolvedMessage → ℕ → Database → Database
apply_status e r now db =
    let states = put_state e r now db.states in
    record db {
      states = states;
      messages =
          update_where (λ m. m.id == r.message_id && any (is_current e) states) (with_status e now)
            db.messages;
    }
