-- ===== src/Webhook/Handle.antt =====
-- WebhookApplicationService.handle as a whole: the rate limit, the connection, the verified event, its
-- claim, the message it is about, and the settled or failed delivery. Nobody comes between the
-- statements of one call here; Delivered and Import/Once are about what may come between. A provider's
-- verification of a request is a parameter; both plugins give the event the connection and the key of
-- the context they are called with.
pub mod Once
pub mod Settled
pub mod Tests
use package.text.Mathlib.Text.{◌==◌ as str_eq}
use uni_mailbox.Prelude.{ℕ, String, Bool, true, false, ◌&&◌, Option, none, some, ◌==◌, find_where}
use uni_mailbox.Domain.{
  Result, ok, err, ◌>>=◌, ◌>>◌, Thrown, domain, other, domain_error, guard, or_throw,
  parse_provider_key,
}
use uni_mailbox.Schema.{Database, Delivery, ProviderConnection, Credential}
use uni_mailbox.RateLimit.{Kv, enforce, stored, webhook_rule}
use uni_mailbox.Outbound.Load.{RuntimeContext, is_active_connection}
use uni_mailbox.Outbound.Process.{adapter_not_registered}
use uni_mailbox.Webhook.{
  ProviderEvent, ResolvedMessage, Claim, acquired, completed, claim_event, apply_status,
  settle_event, fail_event,
}
use uni_mailbox.Webhook.Import.{Externals, ProviderMessageDetail, find_or_import}

-- What a registered plugin offers.
pub record Plugin : Type 0 where
  pub webhook : Option (RuntimeContext → (request : String) → Result ProviderEvent)
  pub sync : Option (RuntimeContext → String → Result ProviderMessageDetail)

abbrev pub webhook_connection_not_found : Thrown
webhook_connection_not_found =
    domain_error "WEBHOOK_CONNECTION_NOT_FOUND" "Webhook connection not found" 404

abbrev pub capability_not_configured : Thrown
capability_not_configured =
    domain_error "WEBHOOK_CAPABILITY_NOT_CONFIGURED" "This provider does not accept webhooks" 404

-- The message of `safeError`.
abbrev pub safe_message : Thrown → String
safe_message (domain e) = e.message
safe_message other = "Webhook processing failed"

-- The tokens and the identifier that one call draws.
pub record Drawn : Type 0 where
  pub claim_token : ℕ
  pub import_token : ℕ
  pub message_id : ℕ

module _ (ext : Externals) where
  open ext use {json_parses, decrypt}

  -- The try and the catch block.
  finish_event :
      ProviderEvent → (now : ℕ) → Database × Result ResolvedMessage → Database × Result Bool
  finish_event e now (db, ok r) = (settle_event e r now (apply_status e r now db), ok false)
  finish_event e now (db, err t) =
      (record db { deliveries = fail_event e (safe_message t) now db.deliveries }, err t)

  after_claim :
      Option (RuntimeContext → String → Result ProviderMessageDetail)
      → ProviderEvent
      → Drawn
      → (now : ℕ) → Database
      → Result Claim
      → Database × Result Bool
  unfolding finish_event
  after_claim sync e drawn now db (err t) = (db, err t)
  after_claim sync e drawn now db (ok completed) = (db, ok true)
  after_claim sync e drawn now db (ok acquired) =
      finish_event e now (find_or_import ext sync e drawn.message_id drawn.import_token now db)

  -- From the verified event on: whether it was a duplicate.
  unfoldable pub handle_event :
      Option (RuntimeContext → String → Result ProviderMessageDetail)
      → ProviderEvent
      → Drawn
      → (now : ℕ) → Database
      → Database × Result Bool
  unfolding after_claim
  handle_event sync e drawn now db =
      let claim = claim_event e drawn.claim_token now db.deliveries in
      after_claim sync e drawn now (record db { deliveries = claim.0 }) claim.1

  abbrev is_connection : (connection_id : ℕ) (key : String) → ProviderConnection → Bool
  is_connection connection_id key c =
      c.id == connection_id && str_eq c.provider_key key && is_active_connection c

  -- The event of a request that is let in, and how its plugin imports.
  unfoldable pub verified_event :
      (plugins : String → Option Plugin)
      → (provider_key : String) (connection_id : ℕ) (request : String) → Database
      → Result (ProviderEvent × Option (RuntimeContext → String → Result ProviderMessageDetail))
  verified_event plugins provider_key connection_id request db = do
    key ← parse_provider_key provider_key
    c ←
        or_throw (find_where (is_connection connection_id key) db.connections)
          webhook_connection_not_found
    k ←
        or_throw (find_where (λ k. k.id == c.credential_id) db.credentials)
          webhook_connection_not_found
    plugin ← or_throw (plugins key) (adapter_not_registered key)
    verify ← or_throw plugin.webhook capability_not_configured
    guard (json_parses c.config_json) other
    secrets ← decrypt k.encrypted_payload
    e ←
        verify (record { connection_id = connection_id; config = c.config_json; secrets = secrets })
          request
    ok (record e { connection_id = connection_id; provider_key = key }, plugin.sync)

  -- The store of the rate limit, the database, and the answer.
  unfoldable pub handle :
      (plugins : String → Option Plugin)
      → (provider_key : String) (connection_id : ℕ) (subject request : String) → Drawn
      → (now : ℕ) → Kv
      → Database
      → Kv × Database × Result Bool
  handle plugins provider_key connection_id subject request drawn now kv db =
      elim (enforce kv webhook_rule subject now) [
        | err t ↦ (kv, db, err t)
        | ok put ↦ elim (verified_event plugins provider_key connection_id request db) [
          | err t ↦ (stored put kv, db, err t)
          | ok (e, sync) ↦
              let (after, answer) = handle_event sync e drawn now db in
              (stored put kv, after, answer)
        ]
      ]
