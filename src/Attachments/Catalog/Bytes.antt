-- ===== src/Attachments/Catalog/Bytes.antt =====
-- Deduplication: what is stored under the key that a registration answers.
use uni_mailbox.Prelude.{
  ℕ, true, ◌&&◌, List, [], ◌∷◌, Option, none, some, ◌==◌, Bool-cases, Option-cases, inl, inr, ◌≡◌,
  refl, sym, ap, arith, ==_eq, ==_refl, subst, and_left, and_right, find_where-true, flatten,
  is_some_and,
}
use uni_mailbox.Domain.{Result, ok, err}
use uni_mailbox.Attachments.Md5.Chunks.{rfc_md5, md5_hex-eq-rfc_md5}
use uni_mailbox.Attachments.Bodies.{Body, buffer, stream, body_chunks, same_bytes, bodies_equal}
use uni_mailbox.Attachments.Bodies.Equal.{bodies_equal-stream}
use uni_mailbox.Attachments.Catalog.{
  Files, FileRow, FileRecord, StoredObject, store_attachment_file, register_stored_file,
  insert_stored_file, find_identical_candidate, is_candidate, same_objects, put_object, insert_file,
  DedupeKey, base, own,
}

same_bytes_eq : (xs ys : List ℕ) → same_bytes xs ys ≡ true → xs ≡ ys
unfolding same_bytes
same_bytes_eq [] [] h = refl
same_bytes_eq [] (y ∷ ys) h = absurd (ground (arith, h))
same_bytes_eq (x ∷ xs) [] h = absurd (ground (arith, h))
same_bytes_eq (x ∷ xs) (y ∷ ys) h =
    let e = ==_eq x y (and_left (x == y) (same_bytes xs ys) h) in
    let es = same_bytes_eq xs ys (and_right (x == y) (same_bytes xs ys) h) in rw (e, es) refl

-- The bytes of a stream, and of the object under a key.
abbrev pub bytes_of_body : Body → Option (List ℕ)
bytes_of_body (buffer b) = none
bytes_of_body (stream reads) = some (flatten reads)

abbrev pub bytes_at : Option StoredObject → Option (List ℕ)
bytes_at none = none
bytes_at (some o) = bytes_of_body o.body

abbrev IsStreamBody : Body → Type 0
IsStreamBody (buffer b) = ⊥
IsStreamBody (stream reads) = Unit

abbrev pub IsStream : Option StoredObject → Type 0
IsStream none = Unit
IsStream (some o) = IsStreamBody o.body

same_bodies :
    (a b : Body)
    → IsStreamBody a
    → IsStreamBody b
    → is_some_and (λ x. x) (bodies_equal a b) ≡ true
    → bytes_of_body a ≡ bytes_of_body b
same_bodies (buffer a) b ha hb h = absurd ha
same_bodies (stream xs) (buffer b) ha hb h = absurd hb
same_bodies (stream xs) (stream ys) ha hb h =
    let same : same_bytes (flatten xs) (flatten ys) ≡ true =
      (rw (bodies_equal-stream xs ys) at h) in
    ap some (same_bytes_eq (flatten xs) (flatten ys) same)

-- Objects that the code finds identical carry the same bytes.
same_objects_bytes :
    (size : ℕ) (candidate incoming : Option StoredObject)
    → IsStream candidate
    → IsStream incoming
    → same_objects size candidate incoming ≡ true
    → bytes_at candidate ≡ bytes_at incoming
unfolding same_objects
same_objects_bytes size none incoming c i h = absurd (ground (arith, h))
same_objects_bytes size (some a) none c i h = absurd (ground (arith, h))
same_objects_bytes size (some a) (some b) c i h = same_bodies a.body b.body c i (
    and_right (a.size == size && b.size == size) (is_some_and (λ x. x) (bodies_equal a.body b.body))
      h)

found_bytes :
    (key size : ℕ) (md5 : List ℕ) (db : Files) (f : FileRow)
    → ((k : ℕ) → IsStream (db.store k))
    → find_identical_candidate key md5 size none db ≡ some f
    → bytes_at (db.store f.object_key) ≡ bytes_at (db.store key)
unfolding find_identical_candidate is_candidate
found_bytes key size md5 db f streams h =
    same_objects_bytes size (db.store f.object_key) (db.store key) (streams f.object_key)
      (streams key)
      (and_right _ (same_objects size (db.store f.object_key) (db.store key))
        (find_where-true (is_candidate key md5 size none db) f db.files h))

-- An answer whose key has these bytes.
abbrev Answered : Option (List ℕ) → Files × Result FileRecord → Type 0
Answered bytes (after, ok r) = bytes_at (after.store r.object_key) ≡ bytes
Answered bytes (after, err e) = Unit

insert_file-store :
    (id key size : ℕ) (md5 : List ℕ) (k : DedupeKey) (db after : Files)
    → insert_file id key md5 size k db ≡ some after
    → after.store ≡ db.store
unfolding insert_file
insert_file-store id key size md5 k db after h = ground arith

insert_stored_file-Answered :
    (id key size : ℕ) (md5 : List ℕ) (db : Files)
    → find_identical_candidate key md5 size none db ≡ none
    → Answered (bytes_at (db.store key)) (insert_stored_file id key md5 size db)
unfolding insert_stored_file
insert_stored_file-Answered id key size md5 db e =
    elim (Option-cases (insert_file id key md5 size (base md5 size) db)) [
      | inr (after, i) ↦
          rw (insert_stored_file, i)
            (ap (λ s. bytes_at (s key))
              (insert_file-store id key size md5 (base md5 size) db after i))
      | inl i ↦ elim (Option-cases (insert_file id key md5 size (own md5 size id) db)) [
        | inr (after, j) ↦
            rw (insert_stored_file, i, e, j)
              (ap (λ s. bytes_at (s key))
                (insert_file-store id key size md5 (own md5 size id) db after j))
        | inl j ↦ rw (insert_stored_file, i, e, j) tt
      ]
    ]

register-Answered :
    (id key size : ℕ) (md5 : List ℕ) (db : Files)
    → ((k : ℕ) → IsStream (db.store k))
    → Answered (bytes_at (db.store key)) (register_stored_file id key md5 size db)
unfolding register_stored_file
register-Answered id key size md5 db streams =
    elim (Option-cases (find_identical_candidate key md5 size none db)) [
      | inl e ↦ rw (register_stored_file, e) (insert_stored_file-Answered id key size md5 db e)
      | inr (f, e) ↦ elim (Bool-cases (f.object_key == key)) [
        | inl k ↦ rw (register_stored_file, e, k) (found_bytes key size md5 db f streams e)
        | inr k ↦ rw (register_stored_file, e, k) (rw k (found_bytes key size md5 db f streams e))
      ]
    ]

put_object-IsStream :
    (key : ℕ) (o : StoredObject) (db : Files)
    → IsStream (some o)
    → ((k : ℕ) → IsStream (db.store k))
    → (k : ℕ) → IsStream ((put_object key o db).store k)
put_object-IsStream key o db h streams k = elim (Bool-cases (k == key)) [
  | inl e ↦ rw e h
  | inr e ↦ rw e (streams k)
]

store_attachment_file-Answered :
    (constants : ℕ → ℕ) (id key size_bytes size : ℕ) (reads : List (List ℕ)) (db : Files)
    → ((k : ℕ) → IsStream (db.store k))
    → Answered
        (some (flatten reads))
        (store_attachment_file constants id key (stream reads) size_bytes size db)
unfolding store_attachment_file
store_attachment_file-Answered constants id key size_bytes size reads db streams =
    let o : StoredObject = record { body = stream reads; size = size } in
    let chunks = body_chunks (stream reads) in
    let stored = put_object key o db in
    let md5 = rfc_md5 constants (flatten chunks) in
    let run : register_stored_file id key md5 size_bytes stored
        ≡ store_attachment_file constants id key (stream reads) size_bytes size db =
      sym (rw (store_attachment_file, md5_hex-eq-rfc_md5 constants chunks) refl) in
    let there : bytes_at (stored.store key) ≡ some (flatten reads) = rw (==_refl key) refl in
    subst (Answered (some (flatten reads))) run (
      subst (λ b. Answered b (register_stored_file id key md5 size_bytes stored)) there
        (register-Answered id key size_bytes md5 stored (put_object-IsStream key o db tt streams)))

-- Whatever files there are, and whether or not one is shared, an upload that is answered can be read
-- back byte for byte under the key of the answer, if the store hands out streams.
pub store_attachment_file-bytes :
    (constants : ℕ → ℕ) (id key size_bytes size : ℕ) (reads : List (List ℕ)) (db after : Files)
    (r : FileRecord)
    → ((k : ℕ) → IsStream (db.store k))
    → store_attachment_file constants id key (stream reads) size_bytes size db ≡ (after, ok r)
    → bytes_at (after.store r.object_key) ≡ some (flatten reads)
unfolding store_attachment_file
store_attachment_file-bytes constants id key size_bytes size reads db after r streams h =
    subst (Answered (some (flatten reads))) h
      (store_attachment_file-Answered constants id key size_bytes size reads db streams)
