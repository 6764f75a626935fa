-- ===== src/Maintenance/Tests.antt =====
-- One file that a message has, and objects of which some are orphans.
use uni_mailbox.Prelude.{
  ◌⊎◌, ℕ, true, [], ◌∷◌, Option, none, some, ◌==◌, ◌≡◌, refl, arith, All, map, update_where,
  find_where,
}
use uni_mailbox.Attachments.Bodies.{stream}
use uni_mailbox.Attachments.Catalog.{
  Files, FileRow, Upload, UploadStatus, base, delete_file_if_unreferenced, is_referenced,
}
use uni_mailbox.Maintenance.{
  Depot, AttachmentListPage, AttachmentListEntry, MaintenanceStatus, has_reference,
  is_orphan_cleanup_eligible, visit, sweep, cleanup_orphan_objects, release, expire_upload,
  expire_each, cleanup_expired_uploads,
}
use uni_mailbox.Maintenance.Orphans.{SameRows, IsOrphan, cleanup_orphan_objects-Swept}
use uni_mailbox.Maintenance.Kept.{Holds, Apart, cleanup_expired_uploads-Kept}

abbrev file : FileRow
file = record { id = 30; object_key = 330; dedupe_key = base [] 5; md5 = none; size_bytes = 5 }

abbrev upload : (id object_key : ℕ) → UploadStatus → Option ℕ → Upload
upload id object_key status file_id = record {
  id = id;
  user_id = 1;
  object_key = object_key;
  size_bytes = 5;
  status = status;
  expires_at = 900;
  file_id = file_id;
  md5 = none;
}

abbrev files : Files
files = record {
  files = file ∷ [];
  uploads =
      upload 50 340 UploadStatus.pending none ∷ upload 51 330 UploadStatus.uploaded (some 30) ∷ [];
  attached = record { id = 40; message_id = 2; file_id = some 30; object_key = 330 } ∷ [];
  store = λ k. some (record { body = stream []; size = 5 });
}

abbrev depot : Depot
depot = record { db = files; raw_keys = 360 ∷ []; job = none }

abbrev listed : (key : ℕ) → Option ℕ → AttachmentListEntry
listed key uploaded_at = record { key = key; uploaded_at = uploaded_at }

abbrev page : Option ℕ → AttachmentListPage
page cursor = record {
  objects =
      listed 330 (some 0)
      ∷ listed 360 (some 0)
      ∷ listed 370 (some 0)
      ∷ listed 371 (some 5)
      ∷ listed 372 none
      ∷ [];
  truncated = true;
  cursor = some 8;
}

abbrev swept : Depot
swept = cleanup_orphan_objects page 86400000 depot

-- Only 370 is old and unreferred.
one_removed :
    swept.job
    ≡ some (record {
      status = MaintenanceStatus.pending;
      cursor = some 8;
      attempts = 1;
      completed_at = none;
    })
unfolding cleanup_orphan_objects sweep visit is_orphan_cleanup_eligible has_reference
one_removed = refl

gone : swept.db.store 370 ≡ none
unfolding cleanup_orphan_objects sweep visit is_orphan_cleanup_eligible has_reference
gone = refl

cleanup_orphan_objects-Swept_example :
    SameRows depot swept
    × (IsOrphan (page none).objects 370 86400000 depot × (swept.db.store 370 ≡ none)
        ⊎ (IsOrphan (page none).objects 370 86400000 depot → ⊥)
          × (swept.db.store 370 ≡ depot.db.store 370))
cleanup_orphan_objects-Swept_example = cleanup_orphan_objects-Swept page 370 86400000 depot

statuses :
    map (λ u. u.status) (cleanup_expired_uploads 2000000 files).uploads
    ≡ UploadStatus.expired ∷ UploadStatus.expired ∷ []
unfolding cleanup_expired_uploads expire_each expire_upload release delete_file_if_unreferenced
    is_referenced update_where
statuses = refl

held : Holds file files
held = record { is_attached = refl; found = refl; own = ((λ e. refl), tt) }

-- Upload 50 has no file, and an object of its own.
apart : All (Apart file) files.uploads
apart = ((λ e. refl), ((λ e. absurd (ground (arith, e))), tt))

cleanup_expired_uploads-Kept_example :
    (find_where (λ f. f.id == 30) (cleanup_expired_uploads 2000000 files).files ≡ some file)
    × ((cleanup_expired_uploads 2000000 files).store 330 ≡ files.store 330)
cleanup_expired_uploads-Kept_example = cleanup_expired_uploads-Kept 2000000 file files held apart
