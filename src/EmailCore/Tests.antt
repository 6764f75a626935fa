-- ===== src/EmailCore/Tests.antt =====
-- Recipients at a concrete input: an address twice, and one in two lists.
use package.text.Mathlib.Text.{◌==◌ as str_eq}
use uni_mailbox.Prelude.{◌++◌, [], ◌∷◌, String, count_where, ◌≡◌}
use uni_mailbox.EmailCore.{normalize_recipients, NormalizedRecipients}
use uni_mailbox.EmailCore.Recipients.{normalize_recipients-once}

abbrev same_text : String → String
same_text s = s

abbrev sent : NormalizedRecipients
sent = normalize_recipients same_text ("a@x" ∷ "a@x" ∷ []) ("b@x" ∷ "a@x" ∷ []) ("b@x" ∷ [])

normalize_recipients-once_example :
    count_where (str_eq "b@x") (sent.to ++ (sent.cc ++ sent.bcc)) ≡ 1
normalize_recipients-once_example =
    normalize_recipients-once same_text "b@x" ("a@x" ∷ "a@x" ∷ []) ("b@x" ∷ "a@x" ∷ []) ("b@x" ∷ [])
