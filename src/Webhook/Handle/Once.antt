-- ===== src/Webhook/Handle/Once.antt =====
-- An event that was handled is not handled again.
use mathlib.Core.Path.{fun_ext}
use uni_mailbox.Prelude.{
  ℕ, String, Bool, true, false, ◌&&◌, List, [], ◌∷◌, Option, none, ◌==◌, ◌≡◌, ◌≢◌, refl, sym, subst,
  arith, Bool-cases, inl, inr, find_where, and_left, and_right, ==_eq,
}
use uni_mailbox.Domain.{Result, ok, err}
use uni_mailbox.Schema.{Database, Delivery}
use uni_mailbox.Outbound.Load.{RuntimeContext}
use uni_mailbox.Webhook.{
  ProviderEvent, ResolvedMessage, Claim, acquired, completed, claim_event, apply_status,
  settle_event, fail_event, is_delivery, succeeded_delivery, failed_delivery,
}
use uni_mailbox.Webhook.Import.{Externals, ProviderMessageDetail}
use uni_mailbox.Webhook.Import.Once.{find_or_import-deliveries}
use uni_mailbox.Webhook.Handle.{Drawn, handle_event, after_claim, finish_event, safe_message}
use uni_mailbox.Webhook.Handle.Settled.{
  IsDone, claim_event-IsDone, update_where-IsDone, claim_event-other, claim_event-there,
  succeeded-IsDone,
}

-- Whole calls of others, each with its event and what it draws.
pub record Call : Type 0 where
  pub event : ProviderEvent
  pub sync : Option (RuntimeContext → String → Result ProviderMessageDetail)
  pub drawn : Drawn
  pub now : ℕ

-- The events are about one delivery, or about two.
same_delivery :
    (e f : ProviderEvent)
    → f.connection_id ≡ e.connection_id
    → f.event_key ≡ e.event_key
    → is_delivery f ≡ is_delivery e
same_delivery e f c k = fun_ext (λ d. rw (c, k) refl)

other_delivery :
    (e f : ProviderEvent) (d : Delivery)
    → (f.connection_id == e.connection_id && f.event_key == e.event_key) ≡ false
    → is_delivery f d ≡ true
    → is_delivery e d ≡ false
other_delivery e f d h t = ground arith

handled_again :
    (ext : Externals) (e : ProviderEvent)
    (sync : Option (RuntimeContext → String → Result ProviderMessageDetail)) (drawn : Drawn)
    (now : ℕ) (db : Database)
    → IsDone (is_delivery e) db.deliveries
    → handle_event ext sync e drawn now db ≡ (db, ok true)
unfolding handle_event after_claim
handled_again ext e sync drawn now db h =
    rw (handle_event, claim_event-IsDone e drawn.claim_token now db.deliveries h) refl

module _ (ext : Externals) where
  -- Calls one after the other.
  unfoldable pub run_calls : List Call → Database → Database
  run_calls [] db = db
  run_calls (c ∷ cs) db = run_calls cs (handle_event ext c.sync c.event c.drawn c.now db).0

module _ (ext : Externals) (e : ProviderEvent) where
  finish_event-other :
      (f : ProviderEvent) (now : ℕ) (r : Database × Result ResolvedMessage)
      → (f.connection_id == e.connection_id && f.event_key == e.event_key) ≡ false
      → IsDone (is_delivery e) r.0.deliveries
      → IsDone (is_delivery e) (finish_event ext f now r).0.deliveries
  unfolding finish_event settle_event apply_status fail_event
  finish_event-other f now (db, ok r) o h =
      update_where-IsDone (is_delivery e) (is_delivery f) (succeeded_delivery r now) db.deliveries
        (λ d t. other_delivery e f d o t) (λ d. refl) h
  finish_event-other f now (db, err t) o h =
      update_where-IsDone (is_delivery e) (is_delivery f) (failed_delivery (safe_message t) now)
        db.deliveries (λ d t. other_delivery e f d o t) (λ d. refl) h

  after_claim-other :
      (c : Call) (db : Database) (claim : Result Claim)
      → (c.event.connection_id == e.connection_id && c.event.event_key == e.event_key) ≡ false
      → IsDone (is_delivery e) db.deliveries
      → IsDone (is_delivery e) (after_claim ext c.sync c.event c.drawn c.now db claim).0.deliveries
  unfolding after_claim
  after_claim-other c db (err t) o h = h
  after_claim-other c db (ok completed) o h = h
  after_claim-other c db (ok acquired) o h = finish_event-other c.event c.now _ o (
      rw
        (find_or_import-deliveries ext c.sync c.event c.drawn.message_id c.drawn.import_token c.now
          db)
        h)

  run_call-IsDone :
      (c : Call) (db : Database)
      → IsDone (is_delivery e) db.deliveries
      → IsDone (is_delivery e) (handle_event ext c.sync c.event c.drawn c.now db).0.deliveries
  unfolding handle_event
  run_call-IsDone c db h =
      let same = c.event.connection_id == e.connection_id && c.event.event_key == e.event_key in
      elim (Bool-cases same) [
        | inr o ↦
            after_claim-other c _ (claim_event c.event c.drawn.claim_token c.now db.deliveries).1 o
              (claim_event-other (is_delivery e) c.event c.drawn.claim_token c.now db.deliveries
                (λ d t. other_delivery e c.event d o t) (λ t d. refl) h)
        | inl s ↦
            let one =
              same_delivery e c.event (==_eq _ _ (and_left _ _ s)) (==_eq _ _ (and_right _ _ s)) in
            let again =
              handled_again ext c.event c.sync c.drawn c.now db
                (subst (λ p. IsDone p db.deliveries) (sym one) h) in
            rw again h
      ]

  run_calls-IsDone :
      (cs : List Call) (db : Database)
      → IsDone (is_delivery e) db.deliveries
      → IsDone (is_delivery e) (run_calls ext cs db).deliveries
  unfolding run_calls
  run_calls-IsDone [] db h = h
  run_calls-IsDone (c ∷ cs) db h = run_calls-IsDone cs _ (run_call-IsDone c db h)

  -- An answer that the event was handled leaves its delivery settled.
  abbrev Settles : Database × Result Bool → Type 0
  Settles (after, ok false) = IsDone (is_delivery e) after.deliveries
  Settles (after, ok true) = Unit
  Settles (after, err t) = Unit

  finish_event-Settles :
      (now : ℕ) (r : Database × Result ResolvedMessage)
      → find_where (is_delivery e) r.0.deliveries ≢ none
      → Settles (finish_event ext e now r)
  unfolding finish_event settle_event apply_status
  finish_event-Settles now (db, ok r) there = succeeded-IsDone e r now db.deliveries there
  finish_event-Settles now (db, err t) there = tt

  after_claim-Settles :
      (c : Call) (db : Database) (claim : Result Claim)
      → (claim ≡ ok acquired → find_where (is_delivery e) db.deliveries ≢ none)
      → Settles (after_claim ext c.sync e c.drawn c.now db claim)
  unfolding after_claim
  after_claim-Settles c db (err t) there = tt
  after_claim-Settles c db (ok completed) there = tt
  after_claim-Settles c db (ok acquired) there = finish_event-Settles c.now _ (
      rw (find_or_import-deliveries ext c.sync e c.drawn.message_id c.drawn.import_token c.now db)
        (there refl))

  handle_event-Settles :
      (c : Call) (db : Database) → Settles (handle_event ext c.sync e c.drawn c.now db)
  unfolding handle_event
  handle_event-Settles c db =
      after_claim-Settles c _ (claim_event e c.drawn.claim_token c.now db.deliveries).1
        (claim_event-there e c.drawn.claim_token c.now db.deliveries)

  -- Once an event was handled, whatever events are handled behind it, this one again among them, its
  -- next delivery is acknowledged as a duplicate, and changes nothing.
  pub handle_event-once :
      (sync : Option (RuntimeContext → String → Result ProviderMessageDetail)) (first again : Drawn)
      (now later : ℕ) (db after : Database) (cs : List Call)
      → handle_event ext sync e first now db ≡ (after, ok false)
      → handle_event ext sync e again later (run_calls ext cs after)
        ≡ (run_calls ext cs after, ok true)
  handle_event-once sync first again now later db after cs h =
      let call : Call = record { event = e; sync = sync; drawn = first; now = now } in
      let done = subst Settles h (handle_event-Settles call db) in
      handled_again ext e sync again later (run_calls ext cs after) (run_calls-IsDone cs after done)
