-- ===== src/RateLimit.antt =====
-- apps/worker/src/platform/rate-limit.ts: fixed windows counted in Workers KV. What KV answers for a
-- key is an argument, as the number that parseInt makes of it where that is positive.
pub mod Quota
pub mod Tests
use text.Mathlib.Text.{◌==◌ as str_eq}
use uni_mailbox.Prelude.{
  ℕ, ◌+◌, ◌/◌, max, String, Bool, ◌&&◌, Option, some, ltb, ◌==◌, if◌then◌else◌, or_else,
}
use uni_mailbox.Domain.{Result, ok, ◌>>◌, domain_error, guard, webhook_requests_per_minute}

pub record RateLimitRule : Type 0 where
  pub scope : String
  pub limit : ℕ
  pub window_seconds : ℕ
  pub code : String
  pub message : String

-- rateLimitRules
abbrev pub login_rule : RateLimitRule
login_rule = record {
  scope = "login";
  limit = 10;
  window_seconds = 900;
  code = "LOGIN_RATE_LIMITED";
  message = "Too many requests";
}

abbrev pub register_rule : RateLimitRule
register_rule = record {
  scope = "register";
  limit = 5;
  window_seconds = 3600;
  code = "REGISTRATION_RATE_LIMITED";
  message = "Too many requests";
}

abbrev pub message_send_rule : RateLimitRule
message_send_rule = record {
  scope = "send";
  limit = 60;
  window_seconds = 60;
  code = "MESSAGE_SEND_RATE_LIMITED";
  message = "Too many send requests";
}

abbrev attachment_upload_rule : RateLimitRule
attachment_upload_rule = record {
  scope = "attachment";
  limit = 100;
  window_seconds = 3600;
  code = "ATTACHMENT_RATE_LIMITED";
  message = "Too many attachment upload requests";
}

abbrev pub webhook_rule : RateLimitRule
webhook_rule = record {
  scope = "webhook";
  limit = webhook_requests_per_minute;
  window_seconds = 60;
  code = "WEBHOOK_RATE_LIMITED";
  message = "Too many webhook requests";
}

-- The parts of `rate:<scope>:<subject>:<window>`.
pub record WindowKey : Type 0 where
  pub scope : String
  pub subject : String
  pub window : ℕ

abbrev pub key_eq : WindowKey → WindowKey → Bool
key_eq a b = str_eq a.scope b.scope && str_eq a.subject b.subject && a.window == b.window

abbrev pub window_key : RateLimitRule → (subject : String) (now : ℕ) → WindowKey
window_key rule subject now = record {
  scope = rule.scope;
  subject = subject;
  window = now / 1000 / rule.window_seconds;
}

-- A call of `kv.put`.
pub record Put : Type 0 where
  pub key : WindowKey
  pub count : ℕ
  pub expiration_ttl : ℕ

abbrev pub Kv : Type 0
Kv = WindowKey → Option ℕ

abbrev kv_minimum_ttl_seconds : ℕ
kv_minimum_ttl_seconds = 60

-- enforceRateLimit: the write, or the error of an exhausted window.
unfoldable pub enforce : Kv → RateLimitRule → (subject : String) (now : ℕ) → Result Put
enforce kv rule subject now =
    let key = window_key rule subject now in
    let count = or_else (kv key) 0 in
    guard (ltb count rule.limit) (domain_error rule.code rule.message 429)
    >> ok (record {
      key = key;
      count = count + 1;
      expiration_ttl = max kv_minimum_ttl_seconds (rule.window_seconds + kv_minimum_ttl_seconds);
    })

-- What KV answers once a write is seen; until then, up to a minute, it answers as before.
abbrev pub stored : Put → Kv → Kv
stored put kv key = if key_eq key put.key then some put.count else kv key
