-- ===== src/Inbound/Tests.antt =====
-- A message to Ann, one to nobody, and one with an empty attachment.
use package.text.Mathlib.Text.{◌==◌ as str_eq}
use uni_mailbox.Prelude.{
  ℕ, ◌+◌, arith, String, true, List, [], ◌∷◌, Option, none, some, ◌≡◌, refl, map,
}
use uni_mailbox.Domain.{Result, ok, err, other}
use uni_mailbox.Samples.{sample_database}
use uni_mailbox.Inbound.{
  Person, person, group, Part, Parsed, InboundSettings, Post, Verdict, rejected, accepted, Arrival,
  Texts, refusal, is_blocked, blocked, string_list, store_attachments, finish_receive, take_in,
  receive,
}
use uni_mailbox.Attachments.Catalog.{FileRow, StoredObject, base}
use uni_mailbox.Attachments.Bodies.{stream}
use uni_mailbox.Drafts.Editing.Kept.{IsSound}
use uni_mailbox.Schema.{Mailbox}
use uni_mailbox.Inbound.Refusal.{Addressee}
use uni_mailbox.Inbound.Outcomes.{Received, receive-Received, receive-empty}
use uni_mailbox.Inbound.Sound.{IsFresh, receive-IsSound}

abbrev texts : Texts
texts = record {
  lower = λ s. s;
  trim = λ s. s;
  includes = str_eq;
  json_items = λ s. some (none ∷ some s ∷ []);
  nocase_eq = str_eq;
}

abbrev ann : Person
ann = record { address = "ann@example.com"; name = some "Ann" }

abbrev bob : Person
bob = record { address = "bob@example.org"; name = none }

abbrev parsed : List Part → Parsed
parsed parts = record {
  sender = some (person bob);
  to = group (ann ∷ []) ∷ [];
  cc = person bob ∷ [];
  subject = some "Hello";
  text = some "Hi";
  html = none;
  message_id = some "<1@example.org>";
  in_reply_to = none;
  references = none;
  attachments = parts;
}

abbrev part : List ℕ → Part
part bytes = record { bytes = bytes; mime_type = "text/plain"; content_id = none }

abbrev settings : (spam : String) → InboundSettings
settings spam = record {
  inbound_enabled = true;
  rejects_unknown = true;
  sender_blocklist_json = spam;
  subject_blocklist_json = "[]";
  content_blocklist_json = "[]";
}

abbrev post : InboundSettings → Post
post settings = record {
  db = sample_database;
  files = record { files = []; uploads = []; attached = []; store = λ k. none };
  settings = some settings;
  unread = [];
  raw_keys = [];
  raws = [];
  cleanups = [];
}

abbrev arrival : Arrival
arrival = record { message_id = 20; raw_key = 21; attachment_ids = λ n. n; now = 5000 }

abbrev thread_of : String → ℕ
thread_of header = 77

abbrev constants : ℕ → ℕ
constants n = n

abbrev run : List Part → (recipient spam : String) → Post × Result Verdict
run parts recipient spam =
    receive texts thread_of constants (parsed parts) recipient arrival (post (settings spam))

taken : (run [] "ann@example.com" "").1 ≡ ok (accepted 20)
unfolding receive refusal is_blocked blocked string_list take_in finish_receive store_attachments
taken = refl

unread_by_owner :
    (run [] "ann@example.com" "").0.unread
    ≡ record { mailbox_id = 4; message_id = 20; user_id = 1 } ∷ []
unfolding receive refusal is_blocked blocked string_list take_in finish_receive store_attachments
unread_by_owner = refl

threaded : map (λ m. m.thread_id) (run [] "ann@example.com" "").0.db.messages ≡ 77 ∷ []
unfolding receive refusal is_blocked blocked string_list take_in finish_receive store_attachments
threaded = refl

unknown : (run [] "eve@example.com" "").1 ≡ ok (rejected "550 Unknown recipient")
unfolding receive refusal is_blocked blocked string_list
unknown = refl

spam :
    (run [] "ann@example.com" "bob@example.org").1 ≡ ok (rejected "550 Message rejected by policy")
unfolding receive refusal is_blocked blocked string_list
spam = refl

receive-Received_example :
    (mailbox : Option Mailbox) × Addressee texts "ann@example.com" sample_database.mailboxes mailbox
    × Received texts thread_of constants
        (parsed (part (1 ∷ []) ∷ []))
        mailbox
        arrival
        (post (settings ""))
        (run (part (1 ∷ []) ∷ []) "ann@example.com" "")
receive-Received_example =
    receive-Received texts thread_of constants (parsed (part (1 ∷ []) ∷ [])) "ann@example.com"
      arrival (post (settings ""))

empty_fails : (run (part (1 ∷ []) ∷ part [] ∷ []) "ann@example.com" "").1 ≡ err other
unfolding refusal is_blocked blocked string_list
empty_fails =
    receive-empty texts thread_of constants (parsed (part (1 ∷ []) ∷ part [] ∷ []))
      "ann@example.com" arrival (post (settings "")) refl refl

-- The post with one file in use.
abbrev object : StoredObject
object = record { body = stream []; size = 5 }

abbrev file : FileRow
file = record { id = 300; object_key = 330; dedupe_key = base [] 5; md5 = none; size_bytes = 5 }

abbrev busy : Post
busy = record (post (settings "")) {
  files = record {
    files = file ∷ [];
    uploads = [];
    attached = record { id = 40; message_id = 2; file_id = some 300; object_key = 330 } ∷ [];
    store = λ k. some object;
  };
}

abbrev above : Arrival
above = record { message_id = 20; raw_key = 21; attachment_ids = λ n. 400 + n; now = 5000 }

fresh : IsFresh above.attachment_ids busy.files
fresh = record { distinct = λ m n d. ground (arith, d); free = λ n. (ground arith, tt) }

sound : IsSound busy.files
sound = record {
  keys = (((λ e. refl), tt), tt);
  objects = ((λ e. absurd (ground (arith, e))), tt);
  attachments = (refl, tt);
}

receive-IsSound_example :
    IsSound
      (receive texts thread_of constants
        (parsed (part (1 ∷ 2 ∷ []) ∷ part [] ∷ []))
        "ann@example.com"
        above
        busy).0.files
receive-IsSound_example =
    receive-IsSound texts thread_of constants (parsed (part (1 ∷ 2 ∷ []) ∷ part [] ∷ []))
      "ann@example.com" above busy fresh sound
