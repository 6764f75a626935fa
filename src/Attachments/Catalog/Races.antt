-- ===== src/Attachments/Catalog/Races.antt =====
-- registerStoredFile, when the same file is registered in between.
use uni_mailbox.Prelude.{
  ℕ, Bool, true, false, ◌||◌, List, none, some, ◌==◌, any-find_where, ◌≡◌, refl, ap, ◌∙◌,
}
use uni_mailbox.Domain.{ok}
use uni_mailbox.Attachments.Catalog.{
  Files, FileRow, base, same_key, insert_file, insert_stored_file, find_identical_candidate,
  found_record, delete_object,
}

or_both : (a b : Bool) → (a || true || b) ≡ true
or_both true b = refl
or_both false b = refl

-- If another registration of the same object came in between, the second one finds its row, answers
-- that file, and deletes the object that it shares with it: the row stays without an object.
insert_stored_file-loses :
    (id key size : ℕ) (md5 : List ℕ) (db : Files) (f : FileRow)
    → find_identical_candidate key md5 size none db ≡ some f
    → (f.object_key == key) ≡ true
    → ((insert_stored_file id key md5 size db).1 ≡ ok (found_record f md5 size))
      × ((insert_stored_file id key md5 size db).0.files ≡ db.files)
      × ((insert_stored_file id key md5 size db).0.store f.object_key ≡ none)
unfolding insert_stored_file insert_file find_identical_candidate
insert_stored_file-loses id key size md5 db f e same =
    let taken =
      (any-find_where _
        (λ g. g.id == id || g.object_key == key || same_key g.dedupe_key (base md5 size)) f db.files
        e (rw same (or_both (f.id == id) (same_key f.dedupe_key (base md5 size))))) in
    let run : insert_stored_file id key md5 size db
        ≡ (delete_object key db, ok (found_record f md5 size)) =
      rw (insert_stored_file, insert_file, taken, e) refl in
    (
      ap (λ z. z.1) run,
      ap (λ z. z.0.files) run,
      ap (λ z. z.0.store f.object_key) run ∙ rw same refl,
    )
