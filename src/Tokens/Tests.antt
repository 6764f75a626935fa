-- ===== src/Tokens/Tests.antt =====
-- The signed texts at concrete inputs, with a check sum in place of HMAC.
use uni_mailbox.Prelude.{
  ℕ, ◌%◌, true, false, List, [], ◌∷◌, Option, none, some, ◌≡◌, refl, arith, ==_refl, ◌==◌, length,
}
use uni_mailbox.Domain.{ok, err, attachment, codes}
use uni_mailbox.Tokens.{to_base64_url, from_base64_url}
use uni_mailbox.Tokens.Sealed.{
  Hmac, UploadTokenClaims, ParsedClaims, encode_upload, decode_upload, upload_token_invalid,
  AccessTokenInput, AccessTokenPayload, ParsedAccess, create_access_token, verify_access_token,
}
use uni_mailbox.Tokens.Codec.{
  IsHmac, decode_upload-encode_upload, verify_access_token-create_access_token,
}

encoded : to_base64_url (codes "Mail?>") ≡ codes "TWFpbD8-"
unfolding to_base64_url
encoded = refl

decoded : from_base64_url (codes "TWFpbA") ≡ some (codes "Mail")
unfolding from_base64_url
decoded = refl

refused : from_base64_url (codes "TWFpb") ≡ none
unfolding from_base64_url
refused = refl

abbrev check_sum : Hmac
check_sum = record {
  sign = λ text. length text % 256 ∷ [];
  verify = λ signature text. elim signature [ b ∷ rest ↦ b == length text % 256 | [] ↦ false ];
}

check_sum-IsHmac : IsHmac check_sum
check_sum-IsHmac = record {
  verifies = λ text. ==_refl (length text % 256);
  bytes = λ text. (omega arith, tt);
  some_bytes = λ text. refl;
}

abbrev sample_claims : UploadTokenClaims
sample_claims = record {
  upload_id = "u";
  object_key = "attachments/u";
  content_type = "text/plain";
  filename = "a.txt";
  disposition = attachment;
  size = 3;
  expires_at = 5000;
}

abbrev print_claims : UploadTokenClaims → List ℕ
print_claims c = 123 ∷ 125 ∷ []

abbrev parse_claims : List ℕ → Option ParsedClaims
parse_claims bytes = some (record {
  upload_id = some "u";
  object_key = some "attachments/u";
  content_type = some "text/plain";
  filename = some "a.txt";
  disposition = some attachment;
  size = some 3;
  expires_at = some 5000;
})

decode_upload-encode_upload_example :
    decode_upload check_sum print_claims parse_claims
      (encode_upload check_sum print_claims parse_claims sample_claims)
      5000
    ≡ err upload_token_invalid
decode_upload-encode_upload_example =
    decode_upload-encode_upload check_sum check_sum-IsHmac print_claims parse_claims sample_claims
      5000 (record { bytes = omega arith; some_bytes = refl; parses = refl })

abbrev ann_input : AccessTokenInput
ann_input = record { user_id = "1"; email = "ann@example.com"; permissions = "message.send" ∷ [] }

abbrev print_access : AccessTokenPayload → List ℕ
print_access p = 123 ∷ 125 ∷ []

abbrev parse_access : List ℕ → Option ParsedAccess
parse_access bytes = some (record {
  is_access = true;
  exp = some 907;
  iat = some 7;
  user_id = some "1";
  email = some "ann@example.com";
  permissions = some ("message.send" ∷ []);
})

verify_access_token-create_access_token_example :
    verify_access_token check_sum
      (codes "{}")
      print_access
      parse_access
      (λ s. s)
      (create_access_token check_sum (codes "{}") print_access parse_access (λ s. s) ann_input 7000)
      906000
    ≡ ok ann_input
verify_access_token-create_access_token_example =
    verify_access_token-create_access_token check_sum check_sum-IsHmac (codes "{}") print_access
      parse_access (λ s. s) ann_input 7000 906000 (omega arith)
      (record { bytes = omega arith; parses = refl }) refl
