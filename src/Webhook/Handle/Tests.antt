-- ===== src/Webhook/Handle/Tests.antt =====
-- A message that the provider knows and the database does not: it is imported by its first event, and
-- then known to all that follow.
use package.text.Mathlib.Text.{◌==◌ as str_eq}
use uni_mailbox.Prelude.{
  ℕ, String, true, List, [], ◌∷◌, none, some, ◌≡◌, refl, arith, map, update_where,
}
use uni_mailbox.Domain.{Result, ok, err, MessageStatus, status_rank}
use uni_mailbox.Schema.{Database, ConnectionStatus}
use uni_mailbox.Samples.{sample_database}
use uni_mailbox.Outbound.Load.{RuntimeContext}
use uni_mailbox.Webhook.{ProviderEvent, claim_event, put_state, apply_status, settle_event}
use uni_mailbox.Webhook.Import.{
  Externals, ProviderMessageDetail, domain_name, find_or_import, begin_import, lock_import,
  import_busy, write_import, fetch_detail, resolve_domain,
}
use uni_mailbox.Webhook.Import.Once.{find_or_import-once, begin_import-exclusive}
use uni_mailbox.Webhook.Handle.{Drawn, handle_event}
use uni_mailbox.Webhook.Handle.Once.{Call, run_calls, handle_event-once}

abbrev ext : Externals
ext = record {
  nocase_eq = str_eq;
  trim = λ s. s;
  to_lower = λ s. s;
  without_tz = λ s. s;
  json_parses = λ s. true;
  decrypt = λ s. ok s;
}

abbrev detail : ProviderMessageDetail
detail = record {
  sender = record { address = "ann@home@example.com"; name = none };
  subject = "Hello";
  html = "";
  body_text = "Hello";
  status = MessageStatus.sent;
  occurred_at = "2026-01-01 00:00:00";
}

abbrev get_message : RuntimeContext → String → Result ProviderMessageDetail
get_message context name = ok detail

abbrev bound_database : Database
bound_database = record sample_database {
  connections =
      record {
        id = 7;
        provider_key = "brevo";
        credential_id = 3;
        status = ConnectionStatus.active;
        config_json = "{}";
      }
      ∷ [];
  credentials = record { id = 3; encrypted_payload = "secret" } ∷ [];
}

abbrev event : (key : ℕ) → MessageStatus → (occurred : ℕ) → ProviderEvent
event key status occurred = record {
  event_key = key;
  provider_key = "brevo";
  connection_id = 7;
  event_type = "status";
  provider_message_id = "m";
  status = status;
  occurred_at = occurred;
  recipient = none;
  error = none;
}

abbrev drawn : (n : ℕ) → Drawn
drawn n = record { claim_token = n; import_token = n; message_id = n }

last_part : domain_name ext "ann@home@example.com" ≡ some "example.com"
unfolding domain_name
last_part = refl

no_name : domain_name ext "@example.com" ≡ none
unfolding domain_name
no_name = refl

abbrev delivered : ProviderEvent
delivered = event 1 MessageStatus.delivered 1000

abbrev handled : Database
handled = (handle_event ext (some get_message) delivered (drawn 20) 5000 bound_database).0

statuses : map (λ m. m.status) handled.messages ≡ MessageStatus.delivered ∷ []
unfolding handle_event claim_event find_or_import begin_import lock_import fetch_detail
    resolve_domain domain_name write_import put_state apply_status settle_event status_rank
    update_where
statuses = refl

abbrev calls : List Call
calls =
    record { event = event 2 MessageStatus.bounced 3000; sync = none; drawn = drawn 30; now = 6000 }
    ∷ record { event = delivered; sync = none; drawn = drawn 31; now = 7000 }
    ∷ []

handle_event-once_example :
    handle_event ext (some get_message) delivered (drawn 40) 9000 (run_calls ext calls handled)
    ≡ (run_calls ext calls handled, ok true)
unfolding handle_event claim_event find_or_import begin_import lock_import fetch_detail
    resolve_domain domain_name write_import put_state apply_status settle_event status_rank
    update_where
handle_event-once_example =
    handle_event-once ext delivered (some get_message) (drawn 20) (drawn 40) 5000 9000
      bound_database handled calls refl

find_or_import-once_example :
    find_or_import ext
      (some get_message)
      delivered
      50
      51
      9000
      (find_or_import ext (some get_message) delivered 20 21 5000 bound_database).0
    ≡ (
      (find_or_import ext (some get_message) delivered 20 21 5000 bound_database).0,
      ok (record { message_id = 20; domain_id = 9 }),
    )
unfolding find_or_import begin_import lock_import fetch_detail resolve_domain domain_name
    write_import status_rank
find_or_import-once_example =
    find_or_import-once ext (some get_message) delivered 50 51 9000 20 21 5000 bound_database
      (find_or_import ext (some get_message) delivered 20 21 5000 bound_database).0
      (record { message_id = 20; domain_id = 9 }) refl

begin_import-exclusive_example :
    begin_import ext delivered true 51 9000
      (begin_import ext delivered true 21 5000 bound_database).0
    ≡ ((begin_import ext delivered true 21 5000 bound_database).0, err import_busy)
unfolding begin_import lock_import status_rank
begin_import-exclusive_example =
    begin_import-exclusive ext delivered 51 9000 21 5000 bound_database
      (begin_import ext delivered true 21 5000 bound_database).0 (omega arith) refl
