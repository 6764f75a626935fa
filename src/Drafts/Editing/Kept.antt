-- ===== src/Drafts/Editing/Kept.antt =====
-- Whatever is done to drafts, an attachment keeps its file, and a file its object.
use uni_mailbox.Prelude.{
  ℕ, suc, String, Bool, true, false, ◌&&◌, List, [], ◌∷◌, Option, none, some, ◌==◌, ◌≡◌, ◌≢◌, refl,
  ◌∙◌, subst, arith, Bool-cases, Option-cases, inl, inr, find_where, find_where-true,
  find_where-All, filter, delete_where, delete_where-All, any, All, All-append, if◌then◌else◌,
  and_right,
}
use uni_mailbox.Domain.{Result, ok, err, is_draft}
use uni_mailbox.Schema.{Stamp}
use uni_mailbox.Schema.{Mailbox, version}
use uni_mailbox.EmailCore.{NormalizedRecipients}
use uni_mailbox.Drafts.{require_draft, is_own_draft, has_version}
use uni_mailbox.Mailboxes.{Principal}
use uni_mailbox.Attachments.Catalog.{
  Files, FileRow, Attached, StoredObject, refers_to, is_referenced, delete_file_if_unreferenced,
}
use uni_mailbox.Drafts.Editing.{
  DraftInput, Desk, ReadyUpload, Drawn, Plan, insert_uploads, accepts, delete_files, create_draft,
  create_write, update_draft, update_write, prepare_update, finish_update, remove_draft,
  delete_draft, is_among, checked_desk, bump, write_contents,
}

-- The file of an attachment, with its object key.
abbrev pub file_there : List FileRow → (object_key : ℕ) → Option ℕ → Bool
file_there files object_key none = true
file_there files object_key (some id) = any (λ f. f.id == id && f.object_key == object_key) files

abbrev pub has_file : List FileRow → Attached → Bool
has_file files a = file_there files a.object_key a.file_id

-- Two rows with one object are one row.
abbrev pub Own : FileRow → FileRow → Type 0
Own f g = (g.object_key == f.object_key) ≡ true → (g.id == f.id) ≡ true

pub record IsSound (db : Files) : Type 0 where
  pub keys : All (λ f. All (Own f) db.files) db.files
  pub objects : All (λ f. db.store f.object_key ≢ none) db.files
  pub attachments : All (λ a. has_file db.files a ≡ true) db.attached

pub All-map {ℓ κ μ} :
    {A : Type ℓ} {P : A → Type κ} {Q : A → Type μ} (xs : List A)
    → ((x : A) → P x → Q x)
    → All P xs
    → All Q xs
All-map [] f h = tt
All-map (x ∷ xs) f (hx, hs) = (f x hx, All-map xs f hs)

-- A deletion of other rows.
any-delete_where :
    (p : FileRow → Bool) (id : ℕ) (files : List FileRow)
    → ((f : FileRow) → p f ≡ true → (f.id == id) ≡ false)
    → any p (delete_where (λ f. f.id == id) files) ≡ any p files
any-delete_where p id [] apart = refl
any-delete_where p id (f ∷ files) apart =
    let a = apart f in ground (arith, any-delete_where p id files apart)

unreferenced :
    (id : ℕ) (attached : List Attached)
    → any (λ a. refers_to id a.file_id) attached ≡ false
    → All (λ a. refers_to id a.file_id ≡ false) attached
unreferenced id [] h = tt
unreferenced id (a ∷ attached) h = (ground arith, unreferenced id attached (ground arith))

file_there-delete :
    (id : ℕ) (files : List FileRow) (key : ℕ) (o : Option ℕ)
    → refers_to id o ≡ false
    → file_there (delete_where (λ f. f.id == id) files) key o ≡ file_there files key o
file_there-delete id files key none h = refl
file_there-delete id files key (some x) h =
    any-delete_where (λ f. f.id == x && f.object_key == key) id files (λ f t. ground (arith, h, t))

-- The rows that stay have other objects.
objects-delete :
    (id key : ℕ) (store : ℕ → Option StoredObject) (files : List FileRow)
    → All (λ g. (g.object_key == key) ≡ true → (g.id == id) ≡ true) files
    → All (λ f. store f.object_key ≢ none) files
    → All
        (λ f. (if f.object_key == key then none else store f.object_key) ≢ none)
        (delete_where (λ f. f.id == id) files)
objects-delete id key store [] own h = tt
objects-delete id key store (f ∷ files) (of, own) (hf, h) = elim (Bool-cases (f.id == id)) [
  | inl e ↦ rw e (objects-delete id key store files own h)
  | inr e ↦ rw e (
    elim (Bool-cases (f.object_key == key)) [
      | inl k ↦ absurd (ground (arith, of k, e))
      | inr k ↦ rw k hf
    ],
    objects-delete id key store files own h,
  )
]

attachments-delete :
    (id : ℕ) (files : List FileRow) (attached : List Attached)
    → All (λ a. refers_to id a.file_id ≡ false) attached
    → All (λ a. has_file files a ≡ true) attached
    → All (λ a. has_file (delete_where (λ f. f.id == id) files) a ≡ true) attached
attachments-delete id files [] u h = tt
attachments-delete id files (a ∷ attached) (ua, u) (ha, h) = (
  file_there-delete id files a.object_key a.file_id ua ∙ ha,
  attachments-delete id files attached u h,
)

-- The deletion of a file that nothing refers to.
pub delete-IsSound :
    (o : Option ℕ) (db : Files) → IsSound db → IsSound (delete_file_if_unreferenced o db)
unfolding delete_file_if_unreferenced is_referenced
delete-IsSound none db h = h
delete-IsSound (some id) db h = elim (Option-cases (find_where (λ f. f.id == id) db.files)) [
  | inl e ↦ rw (delete_file_if_unreferenced, e) h
  | inr (file, e) ↦ elim (Bool-cases (is_referenced id db)) [
    | inl k ↦ rw (delete_file_if_unreferenced, e, k) h
    | inr k ↦
        let is_file = find_where-true (λ f. f.id == id) file db.files e in
        let own =
          find_where-All (λ f. All (Own f) db.files) (λ f. f.id == id) file db.files h.keys e in
        let apart : All (λ g. (g.object_key == file.object_key) ≡ true → (g.id == id) ≡ true)
            db.files =
          All-map db.files (λ g o t. ground (arith, o t, is_file)) own in
        let idle : any (λ a. refers_to id a.file_id) db.attached ≡ false = ground (arith, k) in
        rw (delete_file_if_unreferenced, e, k)
          (record {
            keys =
                delete_where-All (λ f. All (Own f) (delete_where (λ g. g.id == id) db.files))
                  (λ f. f.id == id) db.files
                  (All-map db.files (λ f o. delete_where-All (Own f) (λ g. g.id == id) db.files o)
                    h.keys);
            objects = objects-delete id file.object_key db.store db.files apart h.objects;
            attachments =
                attachments-delete id db.files db.attached (unreferenced id db.attached idle)
                  h.attachments;
          })
  ]
]

delete_files-IsSound :
    (rows : List Attached) (db : Files) → IsSound db → IsSound (delete_files rows db)
unfolding delete_files
delete_files-IsSound [] db h = h
delete_files-IsSound (a ∷ rows) db h = delete_files-IsSound rows _ (delete-IsSound a.file_id db h)

-- The uploads that are attached have their files.
insert_uploads-IsSound :
    (user_id now message_id : ℕ) (ids : ℕ → ℕ) (uploads : List ReadyUpload) (db after : Files)
    → insert_uploads user_id now message_id ids uploads db ≡ some after
    → IsSound db
    → IsSound after
unfolding insert_uploads
insert_uploads-IsSound user_id now message_id ids [] db after e h =
    subst IsSound (ground (arith, e)) h
insert_uploads-IsSound user_id now message_id ids (r ∷ uploads) db after e h =
    elim (Bool-cases (accepts user_id now r db)) [
      | inr k ↦ absurd (ground (arith, e, k))
      | inl k ↦
          insert_uploads-IsSound user_id now message_id (λ n. ids (suc n)) uploads _ after
            (rw k at e)
            (record {
              keys = h.keys;
              objects = h.objects;
              attachments =
                  All-append (λ a. has_file db.files a ≡ true) db.attached _ h.attachments
                    (and_right _ _ k, tt);
            })
    ]

-- The rows that go leave the others.
detach-IsSound :
    (p : Attached → Bool) (db : Files)
    → IsSound db
    → IsSound (record db { attached = delete_where p db.attached })
detach-IsSound p db h = record {
  keys = h.keys;
  objects = h.objects;
  attachments = delete_where-All (λ a. has_file db.files a ≡ true) p db.attached h.attachments;
}

-- What administrators of drafts do, each call as a whole.
pub data Call : Type 0 where
  creates : (principal : Principal) (input : DraftInput) (drawn : Drawn) → Call
  updates :
      (principal : Principal) (draft_id : ℕ) (input : DraftInput) (if_match : Option Stamp)
      (drawn : Drawn)
      → Call
  removes : (principal : Principal) (draft_id : ℕ) → Call

module _ (clean : String → String) where
  unfoldable pub run_call : Call → Desk → Desk
  run_call (creates principal input drawn) desk = (create_draft clean principal input drawn desk).0
  run_call (updates principal draft_id input if_match drawn) desk =
      (update_draft clean principal draft_id input if_match drawn desk).0
  run_call (removes principal draft_id) desk = (remove_draft principal draft_id desk).0

  unfoldable pub run_calls : List Call → Desk → Desk
  run_calls [] desk = desk
  run_calls (c ∷ cs) desk = run_calls cs (run_call c desk)

  create_write-IsSound :
      (principal : Principal) (input : DraftInput) (sender : Mailbox)
      (recipients : NormalizedRecipients) (uploads : List ReadyUpload) (drawn : Drawn) (desk : Desk)
      → IsSound desk.files
      → IsSound (create_write principal input sender recipients uploads drawn desk).0.files
  unfolding create_write
  create_write-IsSound principal input sender recipients uploads drawn desk h =
      elim (Bool-cases (any (λ m. m.id == drawn.message_id) desk.db.messages)) [
        | inl k ↦ rw (create_write, k) h
        | inr k ↦
            elim (Option-cases (
              insert_uploads principal.user_id drawn.now drawn.message_id drawn.attachment_ids
                uploads desk.files)) [
                  | inl e ↦ rw (create_write, k, e) h
                  | inr (files, e) ↦
                      rw (create_write, k, e)
                        (insert_uploads-IsSound principal.user_id drawn.now drawn.message_id
                          drawn.attachment_ids uploads desk.files files e h)
                ]
      ]

  checked-IsSound {ℓ} :
      {A B : Type ℓ} (desk : Desk) (m : Result A) (k : A → Desk × Result B)
      → IsSound desk.files
      → ((a : A) → IsSound (k a).0.files)
      → IsSound (checked_desk desk m k).0.files
  checked-IsSound desk (ok a) k h f = f a
  checked-IsSound desk (err t) k h f = h

  write_contents-IsSound :
      (principal : Principal) (draft_id : ℕ) (plan : Plan) (drawn : Drawn) (desk after : Desk)
      → write_contents principal draft_id plan drawn desk ≡ some after
      → IsSound desk.files
      → IsSound after.files
  unfolding write_contents
  write_contents-IsSound principal draft_id plan drawn desk after w h =
      let rest = record desk.files {
        attached = delete_where (is_among plan.removed draft_id) desk.files.attached;
      } in
      elim (Option-cases (
        insert_uploads principal.user_id drawn.now draft_id drawn.attachment_ids plan.uploads
          rest)) [
            | inl e ↦ absurd (ground (arith, w, e))
            | inr (files, e) ↦
                let same : files ≡ after.files = ground (arith, w, e) in
                subst IsSound same (
                  insert_uploads-IsSound principal.user_id drawn.now draft_id drawn.attachment_ids
                    plan.uploads rest files e
                    (detach-IsSound (is_among plan.removed draft_id) desk.files h))
          ]

  update_write-IsSound :
      (principal : Principal) (draft_id : ℕ) (input : DraftInput) (plan : Plan) (drawn : Drawn)
      (desk : Desk)
      → IsSound desk.files
      → IsSound (update_write principal draft_id input plan drawn desk).0.files
  unfolding update_write
  update_write-IsSound principal draft_id input plan drawn desk h =
      let bumped = bump principal draft_id input plan drawn desk in
      elim (Bool-cases (has_version is_draft draft_id (version drawn.version) bumped.db)) [
        | inr k ↦ rw (update_write, k) h
        | inl k ↦ elim (Option-cases (write_contents principal draft_id plan drawn bumped)) [
          | inl w ↦ rw (update_write, k, w) h
          | inr (after, w) ↦
              rw (update_write, k, w)
                (write_contents-IsSound principal draft_id plan drawn bumped after w h)
        ]
      ]

  finish_update-IsSound :
      (principal : Principal) (draft_id : ℕ) (plan : Plan) (r : Desk × Result (Unit {0}))
      → IsSound r.0.files
      → IsSound (finish_update clean principal draft_id plan r).0.files
  unfolding finish_update
  finish_update-IsSound principal draft_id plan (desk, ok done) h =
      delete_files-IsSound plan.removed desk.files h
  finish_update-IsSound principal draft_id plan (desk, err t) h = h

  delete_draft-IsSound :
      (user_id draft_id : ℕ) (desk : Desk)
      → IsSound desk.files
      → IsSound (delete_draft user_id draft_id desk).files
  delete_draft-IsSound user_id draft_id desk h =
      elim (Bool-cases (any (is_own_draft user_id draft_id) desk.db.messages)) [
        | inl k ↦ rw k (detach-IsSound (λ a. a.message_id == draft_id) desk.files h)
        | inr k ↦ rw k h
      ]

  remove_draft-IsSound :
      (principal : Principal) (draft_id : ℕ) (desk : Desk)
      → IsSound desk.files
      → IsSound (remove_draft principal draft_id desk).0.files
  unfolding remove_draft
  remove_draft-IsSound principal draft_id desk h =
      checked-IsSound desk (require_draft desk.db principal.user_id draft_id) _ h (λ draft.
        delete_files-IsSound (filter (λ a. a.message_id == draft_id) desk.files.attached) _
          (delete_draft-IsSound principal.user_id draft_id desk h))

  create_draft-IsSound :
      (principal : Principal) (input : DraftInput) (drawn : Drawn) (desk : Desk)
      → IsSound desk.files
      → IsSound (create_draft clean principal input drawn desk).0.files
  unfolding create_draft
  create_draft-IsSound principal input drawn desk h =
      checked-IsSound desk _ _ h
        (λ (sender, uploads). create_write-IsSound principal input sender _ uploads drawn desk h)

  update_draft-IsSound :
      (principal : Principal) (draft_id : ℕ) (input : DraftInput) (if_match : Option Stamp)
      (drawn : Drawn) (desk : Desk)
      → IsSound desk.files
      → IsSound (update_draft clean principal draft_id input if_match drawn desk).0.files
  unfolding update_draft
  update_draft-IsSound principal draft_id input if_match drawn desk h =
      checked-IsSound desk (prepare_update clean principal draft_id input if_match drawn.now desk) _
        h
        (λ plan.
          finish_update-IsSound principal draft_id plan _
            (update_write-IsSound principal draft_id input plan drawn desk h))

  run_call-IsSound : (c : Call) (desk : Desk) → IsSound desk.files → IsSound (run_call c desk).files
  unfolding run_call
  run_call-IsSound (creates principal input drawn) desk h =
      create_draft-IsSound principal input drawn desk h
  run_call-IsSound (updates principal draft_id input if_match drawn) desk h =
      update_draft-IsSound principal draft_id input if_match drawn desk h
  run_call-IsSound (removes principal draft_id) desk h =
      remove_draft-IsSound principal draft_id desk h

  -- Whatever drafts are created, updated and removed, by whomever: if at first every attachment had a
  -- row of its file with its object key, every file its object, and no two files one object, then this
  -- holds in the end.
  pub run_calls-IsSound :
      (cs : List Call) (desk : Desk) → IsSound desk.files → IsSound (run_calls cs desk).files
  unfolding run_calls
  run_calls-IsSound [] desk h = h
  run_calls-IsSound (c ∷ cs) desk h = run_calls-IsSound cs _ (run_call-IsSound c desk h)
