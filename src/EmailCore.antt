-- ===== src/EmailCore.antt =====
-- packages/email-core/src/index.ts: recipients, reply headers, signatures.
-- Parameters: trim and toLowerCase, the split at
-- white space, the length of a text.
pub mod Recipients
pub mod Tests
use package.text.Mathlib.Text.{◌==◌ as str_eq}
use Prim.Native.String.{◌++◌ as concat}
use uni_mailbox.Prelude.{
  ℕ, Bool, true, false, not, ◌&&◌, List, [], ◌∷◌, map, filter, any, ltb, if◌then◌else◌, String,
  Option, or_else,
}

pub record NormalizedRecipients : Type 0 where
  pub to : List String
  pub cc : List String
  pub bcc : List String

-- `[...new Set(values)]`
unfoldable pub first_ones : List String → List String
first_ones [] = []
first_ones (x ∷ xs) = x ∷ filter (λ y. not (str_eq x y)) (first_ones xs)

abbrev pub is_text : String → Bool
is_text s = not (str_eq s "")

abbrev pub has : String → List String → Bool
has a = any (str_eq a)

module _ (clean : String → String) where
  unfoldable pub normalize_group : List String → List String
  normalize_group values = first_ones (filter is_text (map clean values))

  unfoldable pub normalize_recipients : (to cc bcc : List String) → NormalizedRecipients
  normalize_recipients to cc bcc =
      let tos = normalize_group to in
      let ccs = filter (λ a. not (has a tos)) (normalize_group cc) in
      record {
        to = tos;
        cc = ccs;
        bcc = filter (λ a. not (has a tos) && not (has a ccs)) (normalize_group bcc);
      }

-- `ordered.join(" ")`
unfoldable pub join_spaces : List String → String
join_spaces [] = ""
join_spaces (x ∷ []) = x
join_spaces (x ∷ y ∷ rest) = concat x (concat " " (join_spaces (y ∷ rest)))

-- The loop that drops the oldest entries; `size` is the length of a text.
unfoldable pub drop_oldest : (size : String → ℕ) (maximum_length : ℕ) → List String → List String
drop_oldest size maximum_length [] = []
drop_oldest size maximum_length (x ∷ []) = x ∷ []
drop_oldest size maximum_length (x ∷ y ∷ rest) =
    let shifted = drop_oldest size maximum_length (y ∷ rest) in
    if ltb maximum_length (size (join_spaces (x ∷ y ∷ rest))) then shifted else x ∷ y ∷ rest

pub record ReplyHeaders : Type 0 where
  pub in_reply_to : String
  pub references : String

-- `tokens` is the split at white space, with the empty texts taken out.
unfoldable pub build_reply_headers :
    (size : String → ℕ) (tokens : String → List String) (parent_message_id : String)
    (parent_references : Option String) (maximum_length : Option ℕ)
    → ReplyHeaders
build_reply_headers size tokens parent_message_id parent_references maximum_length =
    let text = concat (or_else parent_references "") (concat " " parent_message_id) in
    record {
      in_reply_to = parent_message_id;
      references =
          join_spaces (drop_oldest size (or_else maximum_length 998) (first_ones (tokens text)));
    }

pub data Format : Type 0 where
  html text : Format

unfoldable pub compose_signature :
    (trim : String → String) (body signature : String) (quoted : Option String) → Format → String
compose_signature trim body signature quoted format =
    if str_eq (trim signature) "" then concat body (or_else quoted "") else elim format [
      | html ↦ concat body (
          concat "<div class=\"unimailbox-signature\"><p>-- </p>"
            (concat signature (concat "</div>" (or_else quoted ""))))
      | text ↦ concat body (
          concat "\n\n-- \n" (
            concat signature
              (if is_text (or_else quoted "") then concat "\n\n" (or_else quoted "") else "")))
    ]
