-- ===== src/Domain.antt =====
-- packages/contracts/src/domain/index.ts: the enumerations, the errors and the rank of a status;
-- packages/contracts/src/events/index.ts: the error that a provider reports;
-- packages/config/src/index.ts: the runtime policy. Opaque identifiers (UUIDs) are numbers here: the
-- program only compares them for equality.
use Prim.Native.Char.{code}
use uni_mailbox.Prelude.{
  ◌≡◌, refl, ◌⊎◌, inl, inr, ℕ, String, Bool, true, false, ◌&&◌, ◌||◌, List, [], ◌∷◌, Option, none,
  some, leb, ◌==◌, all, length, if◌then◌else◌,
}

pub data MessageStatus : Type 0 where
  draft queued sending sent delivered delayed bounced complained failed received : MessageStatus

pub data MailboxFolder : Type 0 where
  inbox sent drafts archive trash : MailboxFolder

pub data RecipientType : Type 0 where
  to cc bcc : RecipientType

pub data Disposition : Type 0 where
  attachment inline : Disposition

pub data Category : Type 0 where
  authentication rate_limit invalid_payload provider unknown : Category

pub record SafeProviderError : Type 0 where
  pub code : String
  pub message : String
  pub retryable : Bool
  pub category : Category

-- `details` is kept where it is an object with a `retryable` field, the only use made of it here.
pub record DomainError : Type 0 where
  pub code : String
  pub message : String
  pub status : ℕ
  pub details : Option SafeProviderError

-- What a `throw` carries: a domain error, or any other value.
pub data Thrown : Type 0 where
  domain : DomainError → Thrown
  other : Thrown

pub data Result {ℓ} (A : Type ℓ) : Type ℓ where
  ok : A → Result A
  err : Thrown → Result A

abbrev pub domain_error : String → String → ℕ → Thrown
domain_error code message status =
    domain (record { code = code; message = message; status = status; details = none })

-- `if (!value) throw error`, with the value used behind it.
abbrev pub or_throw {ℓ} : {A : Type ℓ} → Option A → Thrown → Result A
or_throw (some a) e = ok a
or_throw none e = err e

-- A call that returns goes on, one that throws ends the method.
infixl 5 ◌>>=◌
abbrev pub ◌>>=◌ {ℓ κ} : {A : Type ℓ} {B : Type κ} → Result A → (A → Result B) → Result B
err thrown >>= next = err thrown
ok value >>= next = next value

-- `if (!test) throw error`.
abbrev pub guard : (test : Bool) (error : Thrown) → Result (Unit {0})
guard false error = err error
guard true error = ok tt

infixl 5 ◌>>◌
abbrev pub ◌>>◌ {ℓ} : {B : Type ℓ} → Result (Unit {0}) → Result B → Result B
err thrown >> next = err thrown
ok done >> next = next

abbrev pub is_draft : MessageStatus → Bool
is_draft draft = true
is_draft _ = false

abbrev pub is_drafts : MailboxFolder → Bool
is_drafts drafts = true
is_drafts _ = false

abbrev pub is_sent_folder : MailboxFolder → Bool
is_sent_folder MailboxFolder.sent = true
is_sent_folder _ = false

abbrev pub is_inbox : MailboxFolder → Bool
is_inbox inbox = true
is_inbox _ = false

unfoldable pub status_rank : MessageStatus → ℕ
status_rank draft = 0
status_rank queued = 10
status_rank sending = 20
status_rank MessageStatus.sent = 30
status_rank delayed = 40
status_rank delivered = 50
status_rank bounced = 60
status_rank failed = 60
status_rank complained = 70
status_rank received = 100

-- runtimePolicy
abbrev pub outbound_attempt_limit : ℕ
outbound_attempt_limit = 5

abbrev pub access_token_ttl_seconds : ℕ
access_token_ttl_seconds = 900

abbrev pub refresh_token_ttl_seconds : ℕ
refresh_token_ttl_seconds = 2592000

abbrev pub password_iterations : ℕ
password_iterations = 100000

abbrev pub webhook_lock_ttl_ms : ℕ
webhook_lock_ttl_ms = 120000

abbrev pub outbound_lock_ttl_ms : ℕ
outbound_lock_ttl_ms = 300000

abbrev pub webhook_requests_per_minute : ℕ
webhook_requests_per_minute = 1000

abbrev pub codes : String → List ℕ
codes String.[] = []
codes (String.◌∷◌ c s) = code c ∷ codes s

is_key_start : ℕ → Bool
is_key_start c = leb b'a' c && leb c b'z'

is_key_part : ℕ → Bool
unfolding is_key_start
is_key_part c = is_key_start c || (leb b'0' c && leb c b'9') || c == b'_' || c == b'-'

-- The test /^[a-z][a-z0-9_-]{1,31}$/ over the code points.
key_matches : List ℕ → Bool
unfolding is_key_part
key_matches [] = false
key_matches (c ∷ rest) =
    is_key_start c && all is_key_part rest && leb 1 (length rest) && leb (length rest) 31

abbrev pub invalid_provider_key : Thrown
invalid_provider_key = domain_error "INVALID_PROVIDER_KEY" "Invalid provider key" 400

unfoldable pub parse_provider_key : String → Result String
unfolding key_matches
parse_provider_key value = if key_matches (codes value) then ok value else err invalid_provider_key

-- PERMISSION_KEYS
abbrev pub permission_keys : List String
permission_keys =
    "message.read" ∷ "message.read_all" ∷ "message.send" ∷ "message.delete" ∷ "attachment.read"
    ∷ "mailbox.create" ∷ "mailbox.manage" ∷ "mailbox.share" ∷ "user.read" ∷ "user.manage"
    ∷ "role.read" ∷ "role.manage" ∷ "domain.read" ∷ "domain.manage" ∷ "signature.read"
    ∷ "signature.manage" ∷ "settings.read" ∷ "settings.manage" ∷ "provider.sync"
    ∷ "webhook_event.read" ∷ "webhook_event.delete" ∷ "analytics.read" ∷ []

-- To split on the result of a call and keep the equation.
pub Result-cases {ℓ} :
    {A : Type ℓ} (r : Result A) → ((a : A) × (r ≡ ok a)) ⊎ ((e : Thrown) × (r ≡ err e))
Result-cases (ok a) = inl (a, refl)
Result-cases (err e) = inr (e, refl)
