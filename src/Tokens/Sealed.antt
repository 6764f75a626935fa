-- ===== src/Tokens/Sealed.antt =====
-- Signed texts: CursorCodec of apps/worker/src/modules/messages/cursor.ts, UploadTokenCodec of
-- modules/attachments/upload-token.ts, and the access tokens of TokenService in
-- modules/identity/index.ts. Parameters: HMAC, and JSON.stringify and JSON.parse between values
-- and their bytes in UTF-8. A parsed field is `none` where its type is not the declared one.
use text.Mathlib.Text.{◌==◌ as str_eq}
use uni_mailbox.Prelude.{
  ℕ, ◌+◌, ◌/◌, String, Bool, true, false, ◌&&◌, not, List, [], ◌∷◌, ◌++◌, Option, ltb, leb, ◌==◌,
  if◌then◌else◌, is_none_or, any, all,
}
use uni_mailbox.Domain.{
  Result, ok, err, ◌>>=◌, ◌>>◌, Thrown, other, domain_error, guard, or_throw, Disposition,
  permission_keys, access_token_ttl_seconds,
}
use uni_mailbox.Tokens.{to_base64_url, from_base64_url}

pub record Hmac : Type 0 where
  pub sign : List ℕ → List ℕ
  pub verify : (signature text : List ℕ) → Bool

-- value.split(".")
abbrev pub put_first : ℕ → List (List ℕ) → List (List ℕ)
put_first c [] = (c ∷ []) ∷ []
put_first c (x ∷ xs) = (c ∷ x) ∷ xs

unfoldable pub split_dots : List ℕ → List (List ℕ)
split_dots [] = [] ∷ []
split_dots (c ∷ cs) = let rest = split_dots cs in if c == b'.' then [] ∷ rest else put_first c rest

abbrev pub is_blank : List ℕ → Bool
is_blank [] = true
is_blank (c ∷ cs) = false

-- The first two parts, neither of them empty.
unfoldable pub two_parts : List (List ℕ) → Result (List ℕ × List ℕ)
two_parts (payload ∷ signature ∷ rest) =
    guard (not (is_blank payload) && not (is_blank signature)) other >> ok (payload, signature)
two_parts _ = err other

-- try { … } catch { throw error }
abbrev pub caught {ℓ} : {A : Type ℓ} → Result A → Thrown → Result A
caught (ok a) e = ok a
caught (err _) e = err e

module _ (hmac : Hmac) where
  -- The payload, a full stop and its signature.
  unfoldable pub seal : List ℕ → List ℕ
  seal bytes =
      let payload = to_base64_url bytes in payload ++ b'.' ∷ to_base64_url (hmac.sign payload)

  -- The bytes of a payload whose signature is valid.
  unfoldable pub unseal : List ℕ → Result (List ℕ)
  unfolding two_parts split_dots
  unseal value = do
    (payload, signature) ← two_parts (split_dots value)
    signed ← or_throw (from_base64_url signature) other
    guard (hmac.verify signed payload) other
    or_throw (from_base64_url payload) other

pub record MessageCursor : Type 0 where
  pub created_at : String
  pub id : String

pub record ParsedCursor : Type 0 where
  pub created_at : Option String
  pub id : Option String

abbrev pub cursor_invalid : Thrown
cursor_invalid = domain_error "CURSOR_INVALID" "The pagination cursor is invalid" 400

module _ (hmac : Hmac) (print : MessageCursor → List ℕ) (parse : List ℕ → Option ParsedCursor) where
  unfoldable pub encode_cursor : MessageCursor → List ℕ
  unfolding seal
  encode_cursor cursor = seal hmac (print cursor)

  unfoldable pub decode_cursor : List ℕ → Result MessageCursor
  unfolding unseal
  decode_cursor value =
      caught
        (do
          bytes ← unseal hmac value
          parsed ← or_throw (parse bytes) other
          created_at ← or_throw parsed.created_at other
          id ← or_throw parsed.id other
          ok (record { created_at = created_at; id = id }))
        cursor_invalid

pub record UploadTokenClaims : Type 0 where
  pub upload_id : String
  pub object_key : String
  pub content_type : String
  pub filename : String
  pub disposition : Disposition
  pub size : ℕ
  pub expires_at : ℕ

-- `size` and `expires_at` are there where they are safe integers. The program issues no negative
-- ones.
pub record ParsedClaims : Type 0 where
  pub upload_id : Option String
  pub object_key : Option String
  pub content_type : Option String
  pub filename : Option String
  pub disposition : Option Disposition
  pub size : Option ℕ
  pub expires_at : Option ℕ

abbrev pub upload_token_invalid : Thrown
upload_token_invalid =
    domain_error "ATTACHMENT_UPLOAD_TOKEN_INVALID"
      "The attachment upload token is invalid or expired" 401

module _ (hmac : Hmac) (print : UploadTokenClaims → List ℕ)
    (parse : List ℕ → Option ParsedClaims) where
  unfoldable pub encode_upload : UploadTokenClaims → List ℕ
  unfolding seal
  encode_upload claims = seal hmac (print claims)

  unfoldable pub decode_upload : (token : List ℕ) (now : ℕ) → Result UploadTokenClaims
  unfolding unseal
  decode_upload token now =
      caught
        (do
          bytes ← unseal hmac token
          c ← or_throw (parse bytes) other
          upload_id ← or_throw c.upload_id other
          object_key ← or_throw c.object_key other
          content_type ← or_throw c.content_type other
          filename ← or_throw c.filename other
          disposition ← or_throw c.disposition other
          size ← or_throw c.size other
          expires_at ← or_throw c.expires_at other
          guard (ltb now expires_at) other
          ok (record {
            upload_id = upload_id;
            object_key = object_key;
            content_type = content_type;
            filename = filename;
            disposition = disposition;
            size = size;
            expires_at = expires_at;
          }))
        upload_token_invalid

-- What an access token says, and what its reader makes of it.
pub record AccessTokenInput : Type 0 where
  pub user_id : String
  pub email : String
  pub permissions : List String

pub record AccessTokenPayload : Type 0 where
  pub input : AccessTokenInput
  pub iat : ℕ
  pub exp : ℕ

pub record ParsedAccess : Type 0 where
  pub is_access : Bool
  pub exp : Option ℕ
  pub iat : Option ℕ
  pub user_id : Option String
  pub email : Option String
  pub permissions : Option (List String)

abbrev pub token_invalid : Thrown
token_invalid = domain_error "AUTH_TOKEN_INVALID" "The access token is invalid or expired" 401

abbrev pub is_declared : String → Bool
is_declared p = any (λ k. str_eq k p) permission_keys

module _ (hmac : Hmac) (header : List ℕ) (print : AccessTokenPayload → List ℕ)
    (parse : List ℕ → Option ParsedAccess) (normalize_email : String → String) where
  -- `now` in milliseconds.
  unfoldable pub create_access_token : AccessTokenInput → (now : ℕ) → List ℕ
  create_access_token input now =
      let issued = now / 1000 in
      let payload =
        to_base64_url (
          print
            (record { input = input; iat = issued; exp = issued + access_token_ttl_seconds })) in
      let unsigned = to_base64_url header ++ b'.' ∷ payload in
      unsigned ++ b'.' ∷ to_base64_url (hmac.sign unsigned)

  -- The claims of a payload whose signature is valid.
  unfoldable pub read_access : (payload : List ℕ) (now : ℕ) → Result AccessTokenInput
  read_access payload now =
      caught
        (do
          bytes ← or_throw (from_base64_url payload) other
          parsed ← or_throw (parse bytes) other
          guard parsed.is_access token_invalid
          guard (is_none_or (λ e. ltb (now / 1000) e) parsed.exp) token_invalid
          guard (is_none_or (λ i. leb i (now / 1000 + 60)) parsed.iat) token_invalid
          user_id ← or_throw parsed.user_id token_invalid
          email ← or_throw parsed.email token_invalid
          permissions ← or_throw parsed.permissions token_invalid
          guard (all is_declared permissions) token_invalid
          ok (record {
            user_id = user_id;
            email = normalize_email email;
            permissions = permissions;
          }))
        token_invalid

  unfoldable pub verify_parts : List (List ℕ) → (now : ℕ) → Result AccessTokenInput
  unfolding read_access
  verify_parts (h ∷ payload ∷ signature ∷ []) now = do
    signed ← or_throw (from_base64_url signature) other
    guard (hmac.verify signed (h ++ b'.' ∷ payload)) token_invalid
    read_access payload now
  verify_parts _ now = err token_invalid

  -- A signature that is no base64url text makes `atob` throw, outside of the try block.
  unfoldable pub verify_access_token : (token : List ℕ) (now : ℕ) → Result AccessTokenInput
  unfolding verify_parts split_dots
  verify_access_token token now = verify_parts (split_dots token) now
