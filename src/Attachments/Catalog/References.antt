-- ===== src/Attachments/Catalog/References.antt =====
-- deleteAttachmentFileIfUnreferenced leaves the files alone that something refers to.
use uni_mailbox.Prelude.{
  ℕ, true, false, List, [], ◌∷◌, Option, none, some, ◌==◌, find_where, delete_where, Bool-cases,
  Option-cases, inl, inr, ◌≡◌, refl, ◌∙◌, arith, All, ==_eq, ap, find_where-All, delete_where-All,
  find_where-true,
}
use uni_mailbox.Attachments.Catalog.{Files, FileRow, is_referenced, delete_file_if_unreferenced}

-- Whatever file is deleted, the attachments keep their rows.
pub delete-attached :
    (o : Option ℕ) (db : Files) → (delete_file_if_unreferenced o db).attached ≡ db.attached
unfolding delete_file_if_unreferenced
delete-attached none db = refl
delete-attached (some id) db = elim (Option-cases (find_where (λ f. f.id == id) db.files)) [
  | inl e ↦ rw (delete_file_if_unreferenced, e) refl
  | inr (file, e) ↦ elim (Bool-cases (is_referenced id db)) [
    | inl k ↦ rw (delete_file_if_unreferenced, e, k) refl
    | inr k ↦ rw (delete_file_if_unreferenced, e, k) refl
  ]
]

-- What holds of every file holds of those that stay.
pub delete-All {κ} :
    (P : FileRow → Type κ) (o : Option ℕ) (db : Files)
    → All P db.files
    → All P (delete_file_if_unreferenced o db).files
unfolding delete_file_if_unreferenced
delete-All P none db h = h
delete-All P (some id) db h = elim (Option-cases (find_where (λ f. f.id == id) db.files)) [
  | inl e ↦ rw (delete_file_if_unreferenced, e) h
  | inr (file, e) ↦ elim (Bool-cases (is_referenced id db)) [
    | inl k ↦ rw (delete_file_if_unreferenced, e, k) h
    | inr k ↦
        rw (delete_file_if_unreferenced, e, k) (delete_where-All P (λ f. f.id == id) db.files h)
  ]
]

-- A deletion by other identifiers leaves a selection by identifier.
find_where-delete_where :
    (id other : ℕ) (files : List FileRow)
    → (other == id) ≡ false
    → find_where (λ f. f.id == id) (delete_where (λ f. f.id == other) files)
      ≡ find_where (λ f. f.id == id) files
find_where-delete_where id other [] h = refl
find_where-delete_where id other (f ∷ files) h =
    ground (arith, find_where-delete_where id other files h)

-- No two files share an object.
abbrev pub Own : FileRow → FileRow → Type 0
Own row f = (f.object_key == row.object_key) ≡ true → (f.id == row.id) ≡ true

-- A file that a message or an open upload refers to keeps its row and its object, if no other file
-- has its object, whatever file is deleted.
pub delete-keeps-referenced :
    (file_id : Option ℕ) (db : Files) (row : FileRow)
    → is_referenced row.id db ≡ true
    → find_where (λ f. f.id == row.id) db.files ≡ some row
    → All (Own row) db.files
    → (find_where (λ f. f.id == row.id) (delete_file_if_unreferenced file_id db).files ≡ some row)
      × ((delete_file_if_unreferenced file_id db).store row.object_key ≡ db.store row.object_key)
unfolding delete_file_if_unreferenced
delete-keeps-referenced none db row ref at own = (at, refl)
delete-keeps-referenced (some file_id) db row ref at own =
    elim (Option-cases (find_where (λ f. f.id == file_id) db.files)) [
      | inl e ↦ rw (delete_file_if_unreferenced, e) (at, refl)
      | inr (file, e) ↦ elim (Bool-cases (is_referenced file_id db)) [
        | inl k ↦ rw (delete_file_if_unreferenced, e, k) (at, refl)
        | inr k ↦
            let own_file = find_where-All (Own row) (λ f. f.id == file_id) file db.files own e in
            let is_file = find_where-true (λ f. f.id == file_id) file db.files e in
            let apart : (file_id == row.id) ≡ false = elim (Bool-cases (file_id == row.id)) [
              | inl same ↦
                  absurd (ground (arith, ap (λ i. is_referenced i db) (==_eq file_id row.id same)))
              | inr d ↦ d
            ] in
            let other_key : (row.object_key == file.object_key) ≡ false =
              ground (arith, own_file) in
            rw (delete_file_if_unreferenced, e, k, other_key)
              (find_where-delete_where row.id file_id db.files apart ∙ at, refl)
      ]
    ]
