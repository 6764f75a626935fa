-- ===== src/Attachments/Catalog.antt =====
-- apps/worker/src/modules/attachments/file-catalog.ts: findIdenticalCandidate, registerStoredFile,
-- storeAttachmentFile, deleteAttachmentFileIfUnreferenced. The rows of a table stand in the order of
-- creation. The object store is a function of the keys; a text that is only compared is a number.
pub mod Bytes
pub mod Races
pub mod References
use uni_mailbox.Prelude.{
  ℕ, Bool, true, false, ◌&&◌, ◌||◌, not, List, [], ◌∷◌, ◌++◌, Option, none, some, ◌==◌,
  if◌then◌else◌, find_where, delete_where, any, count_where, is_some_and, is_none_or, map,
}
use uni_mailbox.Domain.{Result, ok, err, ◌>>=◌, Thrown, other}
use uni_mailbox.Attachments.Md5.{md5_hex}
use uni_mailbox.Attachments.Bodies.{Body, body_chunks, bodies_equal, same_bytes}

-- `${md5}:${sizeBytes}`, and the same with `:${id}` behind it.
pub data DedupeKey : Type 0 where
  base : (md5 : List ℕ) (size_bytes : ℕ) → DedupeKey
  own : (md5 : List ℕ) (size_bytes id : ℕ) → DedupeKey

unfoldable pub same_key : DedupeKey → DedupeKey → Bool
same_key (base m s) (base n t) = same_bytes m n && s == t
same_key (own m s i) (own n t j) = same_bytes m n && s == t && i == j
same_key _ _ = false

pub record FileRow : Type 0 where
  pub id : ℕ
  pub object_key : ℕ
  pub dedupe_key : DedupeKey
  pub md5 : Option (List ℕ)
  pub size_bytes : ℕ

pub data UploadStatus : Type 0 where
  pending uploaded consumed expired : UploadStatus

pub record Upload : Type 0 where
  pub id : ℕ
  pub user_id : ℕ
  pub object_key : ℕ
  pub size_bytes : ℕ
  pub status : UploadStatus
  pub expires_at : ℕ
  pub file_id : Option ℕ
  pub md5 : Option (List ℕ)

pub record Attached : Type 0 where
  pub id : ℕ
  pub message_id : ℕ
  pub file_id : Option ℕ
  pub object_key : ℕ

pub record StoredObject : Type 0 where
  pub body : Body
  pub size : ℕ

pub record Files : Type 0 where
  pub files : List FileRow
  pub uploads : List Upload
  pub attached : List Attached
  pub store : ℕ → Option StoredObject

pub record FileRecord : Type 0 where
  pub file_id : ℕ
  pub object_key : ℕ
  pub md5 : List ℕ
  pub size_bytes : ℕ
  pub created : Bool

abbrev pub put_object : (key : ℕ) → StoredObject → Files → Files
put_object key object db = record db { store = λ k. if k == key then some object else db.store k }

abbrev pub delete_object : (key : ℕ) → Files → Files
delete_object key db = record db { store = λ k. if k == key then none else db.store k }

-- The bytes of two objects agree, and their sizes with the one expected.
unfoldable pub same_objects : (size_bytes : ℕ) → Option StoredObject → Option StoredObject → Bool
same_objects size_bytes (some candidate) (some incoming) =
    candidate.size == size_bytes
    && incoming.size == size_bytes
    && is_some_and (λ b. b) (bodies_equal candidate.body incoming.body)
same_objects size_bytes _ _ = false

unfoldable pub is_candidate :
    (object_key : ℕ) (md5 : List ℕ) (size_bytes : ℕ) (exclude_file_id : Option ℕ)
    → Files
    → FileRow
    → Bool
is_candidate object_key md5 size_bytes exclude_file_id db f =
    is_some_and (λ m. same_bytes m md5) f.md5
    && f.size_bytes == size_bytes
    && is_none_or (λ id. not (f.id == id)) exclude_file_id
    && same_objects size_bytes (db.store f.object_key) (db.store object_key)

unfoldable pub find_identical_candidate :
    (object_key : ℕ) (md5 : List ℕ) (size_bytes : ℕ) (exclude_file_id : Option ℕ)
    → Files
    → Option FileRow
find_identical_candidate object_key md5 size_bytes exclude_file_id db =
    find_where (is_candidate object_key md5 size_bytes exclude_file_id db) db.files

abbrev pub found_record : FileRow → (md5 : List ℕ) (size_bytes : ℕ) → FileRecord
found_record f md5 size_bytes = record {
  file_id = f.id;
  object_key = f.object_key;
  md5 = md5;
  size_bytes = size_bytes;
  created = false;
}

abbrev pub new_record : (id object_key : ℕ) (md5 : List ℕ) (size_bytes : ℕ) → FileRecord
new_record id object_key md5 size_bytes = record {
  file_id = id;
  object_key = object_key;
  md5 = md5;
  size_bytes = size_bytes;
  created = true;
}

-- INSERT INTO attachment_files; the identifiers, object keys and dedupe keys are unique.
unfoldable pub insert_file :
    (id object_key : ℕ) (md5 : List ℕ) (size_bytes : ℕ) → DedupeKey → Files → Option Files
insert_file id object_key md5 size_bytes key db =
    if any (λ f. f.id == id || f.object_key == object_key || same_key f.dedupe_key key) db.files
    then none
    else some (record db {
      files =
          db.files
          ++ record {
            id = id;
            object_key = object_key;
            dedupe_key = key;
            md5 = some md5;
            size_bytes = size_bytes;
          }
            ∷ [];
    })

-- The two attempts to insert, on the tables as they are by then.
unfoldable pub insert_stored_file :
    (id object_key : ℕ) (md5 : List ℕ) (size_bytes : ℕ) → Files → Files × Result FileRecord
insert_stored_file id object_key md5 size_bytes db =
    elim (insert_file id object_key md5 size_bytes (base md5 size_bytes) db) [
      | some after ↦ (after, ok (new_record id object_key md5 size_bytes))
      | none ↦ elim (find_identical_candidate object_key md5 size_bytes none db) [
        | some raced ↦ (delete_object object_key db, ok (found_record raced md5 size_bytes))
        | none ↦ elim (insert_file id object_key md5 size_bytes (own md5 size_bytes id) db) [
          | some after ↦ (after, ok (new_record id object_key md5 size_bytes))
          | none ↦ (db, err other)
        ]
      ]
    ]

unfoldable pub register_stored_file :
    (id object_key : ℕ) (md5 : List ℕ) (size_bytes : ℕ) → Files → Files × Result FileRecord
register_stored_file id object_key md5 size_bytes db =
    elim (find_identical_candidate object_key md5 size_bytes none db) [
      | some existing ↦ (
        if existing.object_key == object_key then db else delete_object object_key db,
        ok (found_record existing md5 size_bytes),
      )
      | none ↦ insert_stored_file id object_key md5 size_bytes db
    ]

-- `size` is what the store says of the object that it then has.
unfoldable pub store_attachment_file :
    (constants : ℕ → ℕ) (id object_key : ℕ) (body : Body) (size_bytes size : ℕ)
    → Files
    → Files × Result FileRecord
store_attachment_file constants id object_key body size_bytes size db =
    let stored = put_object object_key (record { body = body; size = size }) db in
    elim (md5_hex constants (body_chunks body)) [
      | err e ↦ (stored, err e)
      | ok md5 ↦ register_stored_file id object_key md5 size_bytes stored
    ]

abbrev pub holds_file : UploadStatus → Bool
holds_file pending = true
holds_file uploaded = true
holds_file _ = false

abbrev pub refers_to : ℕ → Option ℕ → Bool
refers_to id = is_some_and (λ f. f == id)

unfoldable pub is_referenced : ℕ → Files → Bool
is_referenced id db =
    any (λ a. refers_to id a.file_id) db.attached
    || any (λ u. refers_to id u.file_id && holds_file u.status) db.uploads

-- ON DELETE SET NULL
abbrev pub without_file : ℕ → Upload → Upload
without_file id u = if refers_to id u.file_id then record u { file_id = none } else u

unfoldable pub delete_file_if_unreferenced : Option ℕ → Files → Files
delete_file_if_unreferenced none db = db
delete_file_if_unreferenced (some file_id) db = elim (find_where (λ f. f.id == file_id) db.files) [
  | none ↦ db
  | some file ↦
      if is_referenced file_id db
      then db
      else delete_object file.object_key (record db {
        files = delete_where (λ f. f.id == file_id) db.files;
        uploads = map (without_file file_id) db.uploads;
      })
]
