-- ===== src/Webhook/Tests.antt =====
-- The theorems of the webhooks at concrete inputs: a message that was sent, delivered and bounced.
use uni_mailbox.Prelude.{ℕ, [], ◌∷◌, none, ◌≡◌, refl, arith, All}
use uni_mailbox.Domain.{ok, err, MessageStatus, status_rank}
use uni_mailbox.Schema.{Database}
use uni_mailbox.Samples.{empty_database, sample_message}
use uni_mailbox.Webhook.{
  ProviderEvent, ResolvedMessage, claim_event, new_delivery, fail_event, acquired, webhook_busy,
  succeeded_delivery, new_state,
}
use uni_mailbox.Webhook.Delivered.{claim_event-exclusive, fail_event-reopens}
use uni_mailbox.Webhook.Ordering.{IsOlder, Shows, apply_each, apply_each-Shows}

-- An event of message 2, which the provider calls "m".
abbrev event : (key : ℕ) → MessageStatus → (occurred : ℕ) → ProviderEvent
event key status occurred = record {
  event_key = key;
  provider_key = "brevo";
  connection_id = 7;
  event_type = "status";
  provider_message_id = "m";
  status = status;
  occurred_at = occurred;
  recipient = none;
  error = none;
}

abbrev was_sent : ProviderEvent
was_sent = event 1 MessageStatus.sent 1000

abbrev was_delivered : ProviderEvent
was_delivered = event 2 MessageStatus.delivered 2000

abbrev has_bounced : ProviderEvent
has_bounced = event 3 MessageStatus.bounced 2000

abbrev resolved : ResolvedMessage
resolved = record { message_id = 2; domain_id = 9 }

claim_event-exclusive_example :
    claim_event was_sent 6 9000 (new_delivery was_sent 5 3000 ∷ [])
    ≡ (new_delivery was_sent 5 3000 ∷ [], err webhook_busy)
unfolding claim_event
claim_event-exclusive_example =
    claim_event-exclusive was_sent 5 3000 6 9000 [] (new_delivery was_sent 5 3000 ∷ [])
      (omega arith) refl (omega arith)

-- A handler took the event over and settled it; then the first one fails.
fail_event-reopens_example :
    (claim_event was_sent 8 200000 (
      fail_event was_sent "late" 190000
        (succeeded_delivery resolved 180000 (new_delivery was_sent 5 3000) ∷ []))).1
    ≡ ok acquired
fail_event-reopens_example =
    fail_event-reopens was_sent "late" 190000 8 200000
      (succeeded_delivery resolved 180000 (new_delivery was_sent 5 3000) ∷ []) refl

sent-IsOlder : IsOlder has_bounced was_sent
sent-IsOlder = record { same_connection = refl; same_message = refl; order = refl }

delivered-IsOlder : IsOlder has_bounced was_delivered
unfolding status_rank
delivered-IsOlder = record { same_connection = refl; same_message = refl; order = refl }

abbrev bounced_database : Database
bounced_database = record empty_database { states = new_state has_bounced resolved 3000 ∷ [] }

abbrev one_message : Database
one_message = record empty_database { messages = sample_message ∷ [] }

apply_each-Shows_example :
    All
      (Shows has_bounced resolved)
      (apply_each resolved
        ((was_delivered, 3000) ∷ (has_bounced, 3100) ∷ (was_sent, 3200) ∷ [])
        one_message).messages
apply_each-Shows_example =
    apply_each-Shows has_bounced resolved 3100 ((was_delivered, 3000) ∷ []) ((was_sent, 3200) ∷ [])
      one_message (delivered-IsOlder, tt) (sent-IsOlder, tt) tt
