-- ===== src/Maintenance/Kept.antt =====
-- What the cleanup of expired uploads leaves.
use uni_mailbox.Prelude.{
  ℕ, zero, suc, Bool, true, false, List, [], ◌∷◌, none, some, ◌==◌, ◌≡◌, refl, ◌∙◌, arith,
  Bool-cases, Option-cases, inl, inr, find_where, any, All, count_where, update_where, filter, take,
}
use uni_mailbox.Attachments.Catalog.{Files, FileRow, Upload, refers_to, is_referenced}
use uni_mailbox.Attachments.Catalog.References.{
  Own, delete-attached, delete-All, delete-keeps-referenced,
}
use uni_mailbox.Maintenance.{
  is_open_upload, expired_upload, release, expire_upload, expire_each, is_due_upload,
  cleanup_expired_uploads,
}

-- A message has the file, under this row, and no other file has its object.
pub record Holds (row : FileRow) (db : Files) : Type 0 where
  pub is_attached : any (λ a. refers_to row.id a.file_id) db.attached ≡ true
  pub found : find_where (λ f. f.id == row.id) db.files ≡ some row
  pub own : All (Own row) db.files

-- An upload without a file has another object.
abbrev pub Apart : FileRow → Upload → Type 0
Apart row u = u.file_id ≡ none → (row.object_key == u.object_key) ≡ false

abbrev Kept : FileRow → (before after : Files) → Type 0
Kept row before after = Holds row after × (after.store row.object_key ≡ before.store row.object_key)

release-Kept :
    (u : Upload) (row : FileRow) (db : Files)
    → Apart row u
    → Holds row db
    → Kept row db (release u db)
unfolding release is_referenced
release-Kept u row db apart h = elim (Option-cases u.file_id) [
  | inl e ↦
      rw (release, e)
        (record { is_attached = h.is_attached; found = h.found; own = h.own }, rw (apart e) refl)
  | inr (file_id, e) ↦
      let (found, store) =
        delete-keeps-referenced (some file_id) db row (ground (arith, h.is_attached)) h.found
          h.own in
      rw (release, e)
        (
          record {
            is_attached = rw (delete-attached (some file_id) db) h.is_attached;
            found = found;
            own = delete-All (Own row) (some file_id) db h.own;
          },
          store,
        )
]

expire_upload-Kept :
    (u : Upload) (row : FileRow) (db : Files)
    → Apart row u
    → Holds row db
    → Kept row db (expire_upload u db)
unfolding expire_upload
expire_upload-Kept u row db apart h =
    let marked = record db {
      uploads = update_where (is_open_upload u) expired_upload db.uploads;
    } in
    let held : Holds row marked = record {
      is_attached = h.is_attached;
      found = h.found;
      own = h.own;
    } in
    elim (Bool-cases (count_where (is_open_upload u) db.uploads == 1)) [
      | inl e ↦ rw (expire_upload, e) (release-Kept u row marked apart held)
      | inr e ↦ rw (expire_upload, e) (held, refl)
    ]

expire_each-Kept :
    (uploads : List Upload) (row : FileRow) (db : Files)
    → All (Apart row) uploads
    → Holds row db
    → Kept row db (expire_each uploads db)
unfolding expire_each
expire_each-Kept [] row db apart h = (h, refl)
expire_each-Kept (u ∷ uploads) row db (au, apart) h =
    let (held, same) = expire_upload-Kept u row db au h in
    let (end, rest) = expire_each-Kept uploads row (expire_upload u db) apart held in
    (end, rest ∙ same)

All-filter :
    (P : Upload → Type 0) (p : Upload → Bool) (us : List Upload) → All P us → All P (filter p us)
All-filter P p [] h = tt
All-filter P p (u ∷ us) (hu, h) = elim (Bool-cases (p u)) [
  | inl e ↦ rw e (hu, All-filter P p us h)
  | inr e ↦ rw e (All-filter P p us h)
]

All-take : (P : Upload → Type 0) (n : ℕ) (us : List Upload) → All P us → All P (take n us)
All-take P zero us h = tt
All-take P (suc n) [] h = tt
All-take P (suc n) (u ∷ us) (hu, h) = (hu, All-take P n us h)

-- The cleanup of expired uploads leaves the file of a message, its row and its object, if no other
-- file has the object and no upload without a file has its key.
pub cleanup_expired_uploads-Kept :
    (now : ℕ) (row : FileRow) (db : Files)
    → Holds row db
    → All (Apart row) db.uploads
    → (find_where (λ f. f.id == row.id) (cleanup_expired_uploads now db).files ≡ some row)
      × ((cleanup_expired_uploads now db).store row.object_key ≡ db.store row.object_key)
unfolding cleanup_expired_uploads
cleanup_expired_uploads-Kept now row db h apart =
    let due =
      All-take (Apart row) 100 _ (All-filter (Apart row) (is_due_upload now) db.uploads apart) in
    let (held, same) = expire_each-Kept _ row db due h in (held.found, same)

-- The expiry of an upload that has no file takes the object of its key, whatever refers to it.
expire_upload-loses :
    (u : Upload) (db : Files)
    → u.file_id ≡ none
    → count_where (is_open_upload u) db.uploads ≡ 1
    → (expire_upload u db).store u.object_key ≡ none
unfolding expire_upload release
expire_upload-loses u db e one = rw (expire_upload, one, release, e) (ground arith)
