-- ===== src/Attachments/Uploads.antt =====
-- apps/worker/src/modules/attachments/index.ts: AttachmentApplicationService. The token of an upload
-- has been decoded (Tokens.decode_upload); the rate limit before `create` is RateLimit.enforce.
-- `uploadContent` is split where the body goes to the store.
use text.Mathlib.Text.{◌==◌ as str_eq}
use Prim.Native.String.{◌++◌ as concat}
use uni_mailbox.Prelude.{
  ℕ, ◌+◌, ◌-◌, ◌*◌, ◌/◌, min, String, Bool, true, false, ◌&&◌, not, [], ◌∷◌, ◌++◌, Option, none,
  some, ltb, ◌==◌, if◌then◌else◌, find_where, update_where, delete_where, count_where, or_else,
  is_some_and, is_none,
}
use uni_mailbox.Domain.{
  Result, ok, err, ◌>>=◌, ◌>>◌, Thrown, domain_error, guard, or_throw, Disposition, attachment,
  inline,
}
use uni_mailbox.Schema.{current_timestamp}
use uni_mailbox.Attachments.Bodies.{Body}
use uni_mailbox.Attachments.Catalog.{
  Files, Upload, UploadStatus, pending, uploaded, consumed, store_attachment_file,
  delete_file_if_unreferenced, delete_object,
}

pub data Backend : Type 0 where
  r2 kv : Backend

abbrev kv_value_limit : ℕ
kv_value_limit = 25 * 1024 * 1024

abbrev presign_ttl_seconds : ℕ
presign_ttl_seconds = 300

abbrev pub allowed_bytes : Backend → (max_attachment_bytes : Option ℕ) → ℕ
allowed_bytes r2 limit = or_else limit (kv_value_limit - 1)
allowed_bytes kv limit = min (or_else limit (kv_value_limit - 1)) (kv_value_limit - 1)

abbrev pub is_pending : UploadStatus → Bool
is_pending pending = true
is_pending _ = false

abbrev pub is_consumed : UploadStatus → Bool
is_consumed consumed = true
is_consumed _ = false

abbrev pub is_uploaded : UploadStatus → Bool
is_uploaded uploaded = true
is_uploaded _ = false

abbrev pub too_large : Thrown
too_large =
    domain_error "ATTACHMENT_TOO_LARGE" "Attachments of this size are not supported on the backend"
      413

abbrev pub token_mismatch : Thrown
token_mismatch =
    domain_error "ATTACHMENT_UPLOAD_TOKEN_INVALID"
      "The attachment upload token does not match this upload" 401

abbrev pub headers_invalid : Thrown
headers_invalid =
    domain_error "ATTACHMENT_UPLOAD_HEADERS_INVALID" "The signed attachment headers do not match"
      400

abbrev pub upload_empty : Thrown
upload_empty = domain_error "ATTACHMENT_UPLOAD_EMPTY" "The attachment body is required" 400

abbrev pub upload_unavailable : Thrown
upload_unavailable =
    domain_error "ATTACHMENT_UPLOAD_UNAVAILABLE" "The attachment upload is unavailable" 409

abbrev pub already_consumed : Thrown
already_consumed =
    domain_error "ATTACHMENT_ALREADY_CONSUMED" "The attachment upload has already been consumed" 409

abbrev pub object_mismatch : Thrown
object_mismatch =
    domain_error "ATTACHMENT_OBJECT_MISMATCH"
      "The uploaded object does not match its signed metadata" 409

abbrev pub upload_expired : Thrown
upload_expired = domain_error "ATTACHMENT_UPLOAD_EXPIRED" "The attachment upload has expired" 409

abbrev pub upload_not_found : Thrown
upload_not_found = domain_error "ATTACHMENT_UPLOAD_NOT_FOUND" "Attachment upload not found" 404

-- The object key is made of the fresh identifier, and is as fresh.
unfoldable pub create_upload :
    Backend
    → (max_attachment_bytes : Option ℕ) (id object_key user_id size now : ℕ) → Files
    → Result Files
create_upload backend limit id object_key user_id size now db = do
  guard (not (ltb (allowed_bytes backend limit) size)) too_large
  ok (record db {
    uploads =
        db.uploads
        ++ record {
          id = id;
          user_id = user_id;
          object_key = object_key;
          size_bytes = size;
          status = pending;
          expires_at = (now + presign_ttl_seconds * 1000) / 1000;
          file_id = none;
          md5 = none;
        }
          ∷ [];
  })

pub record UploadClaims : Type 0 where
  pub upload_id : ℕ
  pub object_key : ℕ
  pub content_type : String
  pub filename : String
  pub disposition : Disposition
  pub size : ℕ

pub record UploadRequest : Type 0 where
  pub content_type : Option String
  pub content_disposition : Option String
  pub filename : Option String
  pub content_length : ℕ
  pub body : Option Body

abbrev disposition_text : Disposition → String
disposition_text attachment = "attachment"
disposition_text inline = "inline"

module _ (encode_uri_component : String → String) where
  abbrev disposition_header : Disposition → String → String
  disposition_header disposition filename =
      concat (disposition_text disposition)
        (concat "; filename*=UTF-8''" (encode_uri_component filename))

  unfoldable pub headers_match : UploadClaims → UploadRequest → Bool
  headers_match claims request =
      is_some_and (λ t. str_eq t claims.content_type) request.content_type
      && is_some_and (λ t. str_eq t (disposition_header claims.disposition claims.filename))
          request.content_disposition
      && is_some_and (λ t. str_eq t claims.filename) request.filename
      && request.content_length == claims.size

  -- `uploadContent` up to the row.
  unfoldable pub prepare_upload :
      (upload_id : ℕ) → UploadClaims → UploadRequest → Files → Result (Upload × Body)
  prepare_upload upload_id claims request db = do
    guard (claims.upload_id == upload_id) token_mismatch
    guard (headers_match claims request) headers_invalid
    body ← or_throw request.body upload_empty
    row ← or_throw (find_where (λ u. u.id == upload_id) db.uploads) upload_unavailable
    guard (is_pending row.status && row.object_key == claims.object_key && is_none row.file_id)
        upload_unavailable
    ok (row, body)

-- The upload that `uploadContent` may still give its file.
abbrev pub is_open_upload : ℕ → Upload → Bool
is_open_upload id u = u.id == id && is_pending u.status && is_none u.file_id

-- From the store on, on the tables as they are by then.
unfoldable pub finish_upload :
    (constants : ℕ → ℕ) (file_id size : ℕ) → Upload × Body → Files → Files × Result (Unit {0})
finish_upload constants file_id size (row, body) db =
    let stored =
      store_attachment_file constants file_id row.object_key body row.size_bytes size db in
    elim stored.1 [
      | err e ↦ (stored.0, err e)
      | ok file ↦
          let mine = is_open_upload row.id in
          let after : Files = record stored.0 {
            uploads =
                update_where mine
                  (λ u. record u { file_id = some file.file_id; md5 = some file.md5 })
                  stored.0.uploads;
          } in
          if count_where mine stored.0.uploads == 1
          then (after, ok tt)
          else (delete_file_if_unreferenced (some file.file_id) after, err upload_unavailable)
    ]

unfoldable pub require_owned : (user_id upload_id : ℕ) → Files → Result Upload
require_owned user_id upload_id db =
    or_throw (find_where (λ u. u.id == upload_id && u.user_id == user_id) db.uploads)
      upload_not_found

-- COALESCE(af.object_key, au.object_key) of the join with the file.
abbrev pub stored_object_key : Upload → Files → ℕ
stored_object_key u db = elim u.file_id [
  | none ↦ u.object_key
  | some id ↦ elim (find_where (λ f. f.id == id) db.files) [
    | none ↦ u.object_key
    | some f ↦ f.object_key
  ]
]

abbrev has_object : Upload → Files → Bool
has_object u db =
    is_some_and (λ o. o.size == u.size_bytes) (db.store (stored_object_key u db))
    && not (is_none u.file_id)
    && not (is_none u.md5)

-- UPDATE attachment_uploads SET status = 'uploaded' WHERE …
abbrev pub is_completable : (upload_id user_id now : ℕ) → Upload → Bool
is_completable upload_id user_id now u =
    u.id == upload_id
    && u.user_id == user_id
    && is_pending u.status
    && ltb (current_timestamp now) u.expires_at

unfoldable pub complete_upload : (user_id upload_id now : ℕ) → Files → Result Files
complete_upload user_id upload_id now db = do
  row ← require_owned user_id upload_id db
  guard (not (is_consumed row.status)) already_consumed
  if is_uploaded row.status then ok db else (do
    guard (is_pending row.status) upload_unavailable
    guard (has_object row db) object_mismatch
    guard (count_where (is_completable upload_id user_id now) db.uploads == 1) upload_expired
    ok (record db {
      uploads =
          update_where (is_completable upload_id user_id now) (λ u. record u { status = uploaded })
            db.uploads;
    }))

abbrev pub is_cancellable : (upload_id user_id : ℕ) → Upload → Bool
is_cancellable upload_id user_id u =
    u.id == upload_id && u.user_id == user_id && not (is_consumed u.status)

unfoldable pub cancel_upload : (user_id upload_id : ℕ) → Files → Result Files
cancel_upload user_id upload_id db = do
  row ← require_owned user_id upload_id db
  guard (not (is_consumed row.status)) already_consumed
  let mine = is_cancellable upload_id user_id
  let after : Files = record db { uploads = delete_where mine db.uploads }
  if count_where mine db.uploads == 1
      then (if is_none row.file_id
          then ok (delete_object row.object_key after)
          else ok (delete_file_if_unreferenced row.file_id after))
      else ok db
