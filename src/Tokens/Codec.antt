-- ===== src/Tokens/Codec.antt =====
-- What was sealed is read again: cursors, upload tokens and access tokens. The laws of the parameters
-- are those of HMAC (a signature verifies its text, and is not empty) and of JSON (parsing what was
-- printed of the value at hand gives its fields); both give bytes.
use uni_mailbox.Prelude.{
  ℕ, ◌+◌, ◌/◌, ◌<◌, String, true, false, ◌&&◌, List, [], ◌∷◌, ◌++◌, Option, some, ◌≡◌, refl, arith,
  subst, ltb, leb, ◌==◌, if◌then◌else◌, All, all, Bool-cases, inl, inr,
}
use uni_mailbox.Domain.{ok, err}
use uni_mailbox.Tokens.{to_base64_url, from_base64_url}
use uni_mailbox.Tokens.Base.{from_base64_url-to_base64_url, to_base64_url-All}
use uni_mailbox.Tokens.Sealed.{
  Hmac, split_dots, is_blank, seal, unseal, MessageCursor, ParsedCursor, encode_cursor,
  decode_cursor, UploadTokenClaims, ParsedClaims, encode_upload, decode_upload,
  upload_token_invalid, AccessTokenInput, AccessTokenPayload, ParsedAccess, create_access_token,
  read_access, verify_access_token, token_invalid, is_declared,
}

abbrev pub IsBytes : List ℕ → Type 0
IsBytes = All (λ b. b < 256)

-- A row of code units without a full stop.
abbrev Undotted : List ℕ → Type 0
Undotted = All (λ c. (c == b'.') ≡ false)

pub record IsHmac (hmac : Hmac) : Type 0 where
  pub verifies : (text : List ℕ) → hmac.verify (hmac.sign text) text ≡ true
  pub bytes : (text : List ℕ) → IsBytes (hmac.sign text)
  pub some_bytes : (text : List ℕ) → is_blank (hmac.sign text) ≡ false

split_dots-last : (p : List ℕ) → Undotted p → split_dots p ≡ p ∷ []
unfolding split_dots
split_dots-last [] h = refl
split_dots-last (c ∷ p) (hc, h) = rw (hc, split_dots-last p h) refl

split_dots-append : (p q : List ℕ) → Undotted p → split_dots (p ++ b'.' ∷ q) ≡ p ∷ split_dots q
unfolding split_dots
split_dots-append [] q h = refl
split_dots-append (c ∷ p) q (hc, h) = rw (hc, split_dots-append p q h) refl

split_dots-three :
    (p q r : List ℕ)
    → Undotted p
    → Undotted q
    → Undotted r
    → split_dots ((p ++ b'.' ∷ q) ++ b'.' ∷ r) ≡ p ∷ q ∷ r ∷ []
unfolding split_dots
split_dots-three [] q r hp hq hr = rw (split_dots-append q r hq, split_dots-last r hr) refl
split_dots-three (c ∷ p) q r (hc, hp) hq hr = rw (hc, split_dots-three p q r hp hq hr) refl

blank_eq : (cs : List ℕ) → is_blank cs ≡ true → cs ≡ []
blank_eq [] h = refl
blank_eq (c ∷ cs) h = cc h

to_base64_url-is_blank :
    (bytes : List ℕ)
    → IsBytes bytes
    → is_blank bytes ≡ false
    → is_blank (to_base64_url bytes) ≡ false
to_base64_url-is_blank bytes h n = elim (Bool-cases (is_blank (to_base64_url bytes))) [
  | inl e ↦
      let back : from_base64_url [] ≡ some bytes =
        (subst (λ t. from_base64_url t ≡ some bytes) (blank_eq (to_base64_url bytes) e)
          (from_base64_url-to_base64_url bytes h)) in
      let empty : from_base64_url [] ≡ some [] = (unfold from_base64_url in refl) in
      absurd (ground arith)
  | inr e ↦ e
]

module _ (hmac : Hmac) (laws : IsHmac hmac) where
  unseal-seal :
      (bytes : List ℕ)
      → IsBytes bytes
      → is_blank bytes ≡ false
      → unseal hmac (seal hmac bytes) ≡ ok bytes
  unfolding unseal seal
  unseal-seal bytes h n =
      let payload = to_base64_url bytes in
      let signature = hmac.sign payload in
      rw
        (
          split_dots-append payload (to_base64_url signature) (to_base64_url-All bytes h),
          split_dots-last (to_base64_url signature)
              (to_base64_url-All signature (laws.bytes payload)),
          to_base64_url-is_blank bytes h n,
          to_base64_url-is_blank signature (laws.bytes payload) (laws.some_bytes payload),
          from_base64_url-to_base64_url signature (laws.bytes payload),
          laws.verifies payload,
          from_base64_url-to_base64_url bytes h,
        )
        refl

pub record IsCursorJson (print : MessageCursor → List ℕ) (parse : List ℕ → Option ParsedCursor)
    (c : MessageCursor) : Type 0 where
  pub bytes : IsBytes (print c)
  pub some_bytes : is_blank (print c) ≡ false
  pub parses : parse (print c) ≡ some (record { created_at = some c.created_at; id = some c.id })

pub record IsClaimsJson (print : UploadTokenClaims → List ℕ) (parse : List ℕ → Option ParsedClaims)
    (c : UploadTokenClaims) : Type 0 where
  pub bytes : IsBytes (print c)
  pub some_bytes : is_blank (print c) ≡ false
  pub parses :
      parse (print c)
      ≡ some (record {
        upload_id = some c.upload_id;
        object_key = some c.object_key;
        content_type = some c.content_type;
        filename = some c.filename;
        disposition = some c.disposition;
        size = some c.size;
        expires_at = some c.expires_at;
      })

pub record IsAccessJson (print : AccessTokenPayload → List ℕ) (parse : List ℕ → Option ParsedAccess)
    (p : AccessTokenPayload) : Type 0 where
  pub bytes : IsBytes (print p)
  pub parses :
      parse (print p)
      ≡ some (record {
        is_access = true;
        exp = some p.exp;
        iat = some p.iat;
        user_id = some p.input.user_id;
        email = some p.input.email;
        permissions = some p.input.permissions;
      })

module _ (hmac : Hmac) (laws : IsHmac hmac) where
  -- A cursor that was issued is read as it was.
  pub decode_cursor-encode_cursor :
      (print : MessageCursor → List ℕ) (parse : List ℕ → Option ParsedCursor) (c : MessageCursor)
      → IsCursorJson print parse c
      → decode_cursor hmac print parse (encode_cursor hmac print parse c) ≡ ok c
  unfolding decode_cursor encode_cursor
  decode_cursor-encode_cursor print parse c json =
      rw (unseal-seal hmac laws (print c) json.bytes json.some_bytes, json.parses) refl

  -- An upload token is read as it was issued until it expires, and refused from that instant on.
  pub decode_upload-encode_upload :
      (print : UploadTokenClaims → List ℕ) (parse : List ℕ → Option ParsedClaims)
      (c : UploadTokenClaims) (now : ℕ)
      → IsClaimsJson print parse c
      → decode_upload hmac print parse (encode_upload hmac print parse c) now
        ≡ (if ltb now c.expires_at then ok c else err upload_token_invalid)
  unfolding decode_upload encode_upload
  decode_upload-encode_upload print parse c now json =
      rw (unseal-seal hmac laws (print c) json.bytes json.some_bytes, json.parses)
        (elim (Bool-cases (ltb now c.expires_at)) [ inl e ↦ rw e refl | inr e ↦ rw e refl ])

  -- An access token of declared permissions is accepted, with its address in normal form, from a
  -- minute before its issue until fifteen minutes after it, in whole seconds, and refused otherwise.
  pub verify_access_token-create_access_token :
      (header : List ℕ) (print : AccessTokenPayload → List ℕ) (parse : List ℕ → Option ParsedAccess)
      (normalize_email : String → String) (input : AccessTokenInput) (issued now : ℕ)
      → IsBytes header
      → IsAccessJson print parse
          (record { input = input; iat = issued / 1000; exp = issued / 1000 + 900 })
      → all is_declared input.permissions ≡ true
      → verify_access_token hmac header print parse normalize_email
          (create_access_token hmac header print parse normalize_email input issued)
          now
        ≡ (if leb (issued / 1000) (now / 1000 + 60) && ltb (now / 1000) (issued / 1000 + 900)
            then ok (record input { email = normalize_email input.email })
            else err token_invalid)
  unfolding verify_access_token create_access_token read_access
  verify_access_token-create_access_token header print parse normalize_email input issued now hb
        json declared =
      let payload =
        to_base64_url
          (print (record { input = input; iat = issued / 1000; exp = issued / 1000 + 900 })) in
      let printed = json.bytes in
      let unsigned = to_base64_url header ++ b'.' ∷ payload in
      let signed = laws.bytes unsigned in
      rw
        (
          split_dots-three (to_base64_url header) payload (to_base64_url (hmac.sign unsigned))
              (to_base64_url-All header hb) (to_base64_url-All _ printed)
              (to_base64_url-All _ signed),
          from_base64_url-to_base64_url (hmac.sign unsigned) signed,
          laws.verifies unsigned,
          from_base64_url-to_base64_url _ printed,
          json.parses,
          declared,
        )
        (elim (Bool-cases (ltb (now / 1000) (issued / 1000 + 900))) [
          | inl e ↦ elim (Bool-cases (leb (issued / 1000) (now / 1000 + 60))) [
            | inl f ↦ rw (e, f) refl
            | inr f ↦ rw (e, f) refl
          ]
          | inr e ↦ rw e (ground arith)
        ])
