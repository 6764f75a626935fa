-- ===== src/Inbound/Stored.antt =====
-- The storing of one attachment keeps the attachments with their files, and the files with their
-- objects.
use uni_mailbox.Prelude.{
  ℕ, Bool, true, false, ◌&&◌, ◌||◌, List, [], ◌∷◌, ◌++◌, Option, none, some, ◌==◌, ==_refl, ◌≡◌,
  ◌≢◌, refl, arith, Bool-cases, Option-cases, inl, inr, if◌then◌else◌, any, All, All-append,
  any-find_where, find_where-All,
}
use uni_mailbox.Domain.{Result, Result-cases, ok, err}
use uni_mailbox.Attachments.Bodies.{Body, body_chunks}
use uni_mailbox.Attachments.Md5.{md5_hex}
use uni_mailbox.Attachments.Catalog.{
  Files, FileRow, FileRecord, DedupeKey, base, own, StoredObject, same_key, put_object,
  delete_object, insert_file, new_record, insert_stored_file, find_identical_candidate,
  register_stored_file, store_attachment_file, is_candidate,
}
use uni_mailbox.Drafts.Editing.Kept.{IsSound, Own, file_there, All-map}

-- No file has the key.
abbrev pub IsFree : (key : ℕ) → Files → Type 0
IsFree key db = All (λ f. (f.object_key == key) ≡ false) db.files

put-objects :
    (key : ℕ) (object : StoredObject) (store : ℕ → Option StoredObject) (files : List FileRow)
    → All (λ f. store f.object_key ≢ none) files
    → All (λ f. (if f.object_key == key then some object else store f.object_key) ≢ none) files
put-objects key object store files h =
    All-map files
      (λ f hf. elim (Bool-cases (f.object_key == key)) [
        | inl e ↦ rw e (λ none_some. absurd (ground (arith, none_some)))
        | inr e ↦ rw e hf
      ])
      h

put_object-IsSound :
    (key : ℕ) (object : StoredObject) (db : Files) → IsSound db → IsSound (put_object key object db)
put_object-IsSound key object db h = record {
  keys = h.keys;
  objects = put-objects key object db.store db.files h.objects;
  attachments = h.attachments;
}

drop-objects :
    (key : ℕ) (store : ℕ → Option StoredObject) (files : List FileRow)
    → All (λ f. (f.object_key == key) ≡ false) files
    → All (λ f. store f.object_key ≢ none) files
    → All (λ f. (if f.object_key == key then none else store f.object_key) ≢ none) files
drop-objects key store [] free h = tt
drop-objects key store (f ∷ files) (free_f, free) (hf, h) =
    (rw free_f hf, drop-objects key store files free h)

delete_object-IsSound :
    (key : ℕ) (db : Files) → IsFree key db → IsSound db → IsSound (delete_object key db)
delete_object-IsSound key db free h = record {
  keys = h.keys;
  objects = drop-objects key db.store db.files free h.objects;
  attachments = h.attachments;
}

any-append-left :
    (p : FileRow → Bool) (xs ys : List FileRow) → any p xs ≡ true → any p (xs ++ ys) ≡ true
any-append-left p [] ys h = absurd (ground (arith, h))
any-append-left p (x ∷ xs) ys h = ground (arith, any-append-left p xs ys, h)

any-append-last :
    (p : FileRow → Bool) (xs : List FileRow) (y : FileRow)
    → p y ≡ true
    → any p (xs ++ y ∷ []) ≡ true
any-append-last p [] y h = rw h refl
any-append-last p (x ∷ xs) y h = ground (arith, any-append-last p xs y h)

-- What is found stays found where files are added.
file_there-append :
    (key : ℕ) (o : Option ℕ) (xs ys : List FileRow)
    → file_there xs key o ≡ true
    → file_there (xs ++ ys) key o ≡ true
file_there-append key none xs ys h = refl
file_there-append key (some id) xs ys h =
    any-append-left (λ f. f.id == id && f.object_key == key) xs ys h

old_keys :
    (file : FileRow) (all files : List FileRow)
    → All (λ f. (f.object_key == file.object_key) ≡ false) files
    → All (λ f. All (Own f) all) files
    → All (λ f. All (Own f) (all ++ file ∷ [])) files
old_keys file all [] free h = tt
old_keys file all (f ∷ files) (free_f, free) (hf, h) = (
  All-append (Own f) all (file ∷ []) hf ((λ e. absurd (ground (arith, e, free_f))), tt),
  old_keys file all files free h,
)

keys-append :
    (file : FileRow) (files : List FileRow)
    → All (λ f. (f.object_key == file.object_key) ≡ false) files
    → All (λ f. All (Own f) files) files
    → All (λ f. All (Own f) (files ++ file ∷ [])) (files ++ file ∷ [])
keys-append file files free h =
    All-append (λ f. All (Own f) (files ++ file ∷ [])) files (file ∷ [])
      (old_keys file files files free h)
      (
        All-append (Own file) files (file ∷ [])
            (All-map files (λ f e t. absurd (ground (arith, e, t))) free)
            ((λ e. ==_refl file.id), tt),
        tt,
      )

taken_keys :
    (id key : ℕ) (k : DedupeKey) (files : List FileRow)
    → any (λ f. f.id == id || f.object_key == key || same_key f.dedupe_key k) files ≡ false
    → All (λ f. (f.object_key == key) ≡ false) files
taken_keys id key k [] h = tt
taken_keys id key k (f ∷ files) h =
    (ground (arith, h), taken_keys id key k files (ground (arith, h)))

-- The file of an answer is there.
abbrev pub Answered : Files → Result FileRecord → Type 0
Answered db (ok file) = file_there db.files file.object_key (some file.file_id) ≡ true
Answered db (err t) = Unit

-- No file has gone, and no key but this one is taken.
abbrev pub Grown : (key : ℕ) (before after : Files) → Type 0
Grown key before after =
    ((k : ℕ) (o : Option ℕ)
      → file_there before.files k o ≡ true
      → file_there after.files k o ≡ true)
    × ((k : ℕ) → (key == k) ≡ false → IsFree k before → IsFree k after)

abbrev pub StoredAt : (key : ℕ) → (before : Files) → Files × Result FileRecord → Type 0
StoredAt key before (after, answer) = IsSound after × Grown key before after × Answered after answer

append-StoredAt :
    (file : FileRow) (md5 : List ℕ) (size : ℕ) (db : Files)
    → IsFree file.object_key db
    → db.store file.object_key ≢ none
    → IsSound db
    → StoredAt file.object_key db (
      record db { files = db.files ++ file ∷ [] },
      ok (new_record file.id file.object_key md5 size),
    )
append-StoredAt file md5 size db free present h = (
  record {
    keys = keys-append file db.files free h.keys;
    objects =
        All-append (λ f. db.store f.object_key ≢ none) db.files (file ∷ []) h.objects (present, tt);
    attachments =
        All-map db.attached
          (λ a ha. file_there-append a.object_key a.file_id db.files (file ∷ []) ha) h.attachments;
  },
  (
    (λ k o t. file_there-append k o db.files (file ∷ []) t),
    λ k apart f. All-append (λ g. (g.object_key == k) ≡ false) db.files (file ∷ []) f (apart, tt),
  ),
  any-append-last (λ f. f.id == file.id && f.object_key == file.object_key) db.files file
      (rw (==_refl file.id, ==_refl file.object_key) refl),
)

register-StoredAt :
    (id key size : ℕ) (md5 : List ℕ) (db : Files)
    → IsFree key db
    → db.store key ≢ none
    → IsSound db
    → StoredAt key db (register_stored_file id key md5 size db)
unfolding register_stored_file insert_stored_file insert_file find_identical_candidate
register-StoredAt id key size md5 db free present h =
    elim (Option-cases (find_identical_candidate key md5 size none db)) [
      | inr (f, e) ↦
          let p = is_candidate key md5 size none db in
          let there : any (λ g. g.id == f.id && g.object_key == f.object_key) db.files ≡ true =
            any-find_where p (λ g. g.id == f.id && g.object_key == f.object_key) f db.files e
              (rw (==_refl f.id, ==_refl f.object_key) refl) in
          let apart = find_where-All (λ g. (g.object_key == key) ≡ false) p f db.files free e in
          rw (register_stored_file, e, apart)
            (delete_object-IsSound key db free h, ((λ k o t. t), λ k other free_k. free_k), there)
      | inl e ↦
          let taken = λ (k : DedupeKey).
            any (λ f. f.id == id || f.object_key == key || same_key f.dedupe_key k) db.files in
          elim (Bool-cases (taken (base md5 size))) [
            | inr i ↦
                rw (register_stored_file, insert_stored_file, insert_file, e, i)
                  (append-StoredAt _ md5 size db free present h)
            | inl i ↦ elim (Bool-cases (taken (own md5 size id))) [
              | inr j ↦
                  rw (register_stored_file, insert_stored_file, insert_file, e, i, e, j)
                    (append-StoredAt _ md5 size db free present h)
              | inl j ↦
                  rw (register_stored_file, insert_stored_file, insert_file, e, i, e, j)
                    (h, ((λ k o t. t), λ k apart f. f), tt)
            ]
          ]
    ]

pub store-StoredAt :
    (constants : ℕ → ℕ) (id key : ℕ) (body : Body) (size_bytes size : ℕ) (db : Files)
    → IsFree key db
    → IsSound db
    → StoredAt key db (store_attachment_file constants id key body size_bytes size db)
unfolding store_attachment_file
store-StoredAt constants id key body size_bytes size db free h =
    let object : StoredObject = record { body = body; size = size } in
    let put = put_object-IsSound key object db h in
    elim (Result-cases (md5_hex constants (body_chunks body))) [
      | inr (t, e) ↦
          rw (store_attachment_file, e) (put, ((λ k o there. there), λ k other free_k. free_k), tt)
      | inl (md5, e) ↦
          rw (store_attachment_file, e)
            (register-StoredAt id key size_bytes md5 (put_object key object db) free
              (rw (==_refl key) (λ none_some. absurd (ground (arith, none_some)))) put)
    ]
