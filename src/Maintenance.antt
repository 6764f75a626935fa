-- ===== src/Maintenance.antt =====
-- apps/worker/src/modules/maintenance: orphan-policy.ts, and cleanupOrphanObjects and
-- cleanupExpiredUploads of scheduled.ts. The listing of the object store is a parameter; of
-- maintenance_jobs the row of the orphan cleanup is kept.
pub mod Kept
pub mod Orphans
pub mod Tests
use uni_mailbox.Prelude.{
  ℕ, ◌+◌, ◌*◌, Bool, true, false, ◌&&◌, ◌||◌, not, List, [], ◌∷◌, Option, none, some, leb, ◌==◌,
  if◌then◌else◌, any, filter, take, update_where, count_where,
}
use uni_mailbox.Schema.{current_timestamp}
use uni_mailbox.Attachments.Catalog.{
  Files, Upload, UploadStatus, expired, holds_file, delete_object, delete_file_if_unreferenced,
}

abbrev pub orphan_object_grace_ms : ℕ
orphan_object_grace_ms = 24 * 60 * 60 * 1000

-- An instant that is missing or no number is `none`.
unfoldable pub is_orphan_cleanup_eligible : (uploaded_at : Option ℕ) (now : ℕ) → Bool
is_orphan_cleanup_eligible none now = false
is_orphan_cleanup_eligible (some t) now = leb (t + orphan_object_grace_ms) now

pub record AttachmentListEntry : Type 0 where
  pub key : ℕ
  pub uploaded_at : Option ℕ

pub record AttachmentListPage : Type 0 where
  pub objects : List AttachmentListEntry
  pub truncated : Bool
  pub cursor : Option ℕ

pub data MaintenanceStatus : Type 0 where
  pending completed : MaintenanceStatus

pub record MaintenanceJob : Type 0 where
  pub status : MaintenanceStatus
  pub cursor : Option ℕ
  pub attempts : ℕ
  pub completed_at : Option ℕ

-- The tables of files with the objects, messages.raw_object_key, and the job.
pub record Depot : Type 0 where
  pub db : Files
  pub raw_keys : List ℕ
  pub job : Option MaintenanceJob

abbrev pub keeps_object : UploadStatus → Bool
keeps_object expired = false
keeps_object _ = true

unfoldable pub has_reference : (key : ℕ) → Depot → Bool
has_reference key depot =
    any (λ k. k == key) depot.raw_keys
    || any (λ a. a.object_key == key) depot.db.attached
    || any (λ u. u.object_key == key && keeps_object u.status) depot.db.uploads
    || any (λ f. f.object_key == key) depot.db.files

-- A turn of the loop over the objects, with the count of those removed.
abbrev pub is_removed : AttachmentListEntry → (now : ℕ) → Depot → Bool
is_removed o now depot =
    is_orphan_cleanup_eligible o.uploaded_at now && not (has_reference o.key depot)

unfoldable pub visit : AttachmentListEntry → (now : ℕ) → Depot × ℕ → Depot × ℕ
visit o now (depot, removed) =
    if is_removed o now depot
    then (record depot { db = delete_object o.key depot.db }, removed + 1)
    else (depot, removed)

unfoldable pub sweep : List AttachmentListEntry → (now : ℕ) → Depot × ℕ → Depot × ℕ
sweep [] now state = state
sweep (o ∷ objects) now state = sweep objects now (visit o now state)

abbrev scan_status : AttachmentListPage → MaintenanceStatus
scan_status listing =
    if listing.truncated then MaintenanceStatus.pending else MaintenanceStatus.completed

-- The upsert of the job: the columns that an insertion does not name are null.
abbrev pub put_job : AttachmentListPage → (removed now : ℕ) → Option MaintenanceJob → MaintenanceJob
put_job listing removed now none = record {
  status = scan_status listing;
  cursor = if listing.truncated then listing.cursor else none;
  attempts = removed;
  completed_at = none;
}
put_job listing removed now (some job) = record {
  status = scan_status listing;
  cursor = if listing.truncated then listing.cursor else none;
  attempts = job.attempts + removed;
  completed_at = if listing.truncated then none else some (current_timestamp now);
}

abbrev pub stored_cursor : Option MaintenanceJob → Option ℕ
stored_cursor none = none
stored_cursor (some job) = job.cursor

unfoldable pub cleanup_orphan_objects :
    (list : Option ℕ → AttachmentListPage) (now : ℕ) → Depot → Depot
cleanup_orphan_objects list now depot =
    let listing = list (stored_cursor depot.job) in
    let swept = sweep listing.objects now (depot, 0) in
    record swept.0 { job = some (put_job listing swept.1 now depot.job) }

abbrev pub is_due_upload : (now : ℕ) → Upload → Bool
is_due_upload now u = holds_file u.status && leb u.expires_at (current_timestamp now)

abbrev pub expired_upload : Upload → Upload
expired_upload u = record u { status = UploadStatus.expired }

-- `if (upload.file_id)`
unfoldable pub release : Upload → Files → Files
release u db = elim u.file_id [
  | none ↦ delete_object u.object_key db
  | some file_id ↦ delete_file_if_unreferenced (some file_id) db
]

-- A turn of the loop over the uploads that were selected.
abbrev pub is_open_upload : Upload → Upload → Bool
is_open_upload u row = row.id == u.id && holds_file row.status

unfoldable pub expire_upload : Upload → Files → Files
expire_upload u db =
    let marked = record db {
      uploads = update_where (is_open_upload u) expired_upload db.uploads;
    } in
    if count_where (is_open_upload u) db.uploads == 1 then release u marked else marked

unfoldable pub expire_each : List Upload → Files → Files
expire_each [] db = db
expire_each (u ∷ uploads) db = expire_each uploads (expire_upload u db)

unfoldable pub cleanup_expired_uploads : (now : ℕ) → Files → Files
cleanup_expired_uploads now db = expire_each (take 100 (filter (is_due_upload now) db.uploads)) db
