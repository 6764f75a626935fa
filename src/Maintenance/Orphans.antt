-- ===== src/Maintenance/Orphans.antt =====
-- What the cleanup of orphan objects leaves.
use uni_mailbox.Prelude.{
  ℕ, some, sym, ◌≢◌, ◌≤◌, ◌*◌, ◌↔◌, ◌⊎◌, Exists, any-Exists, Exists-any, Bool, true, false, ◌&&◌,
  ◌||◌, not, List, [], ◌∷◌, Option, none, ◌==◌, ◌≡◌, refl, ap, arith, ==_eq, ◌+◌, ◌∙◌, Bool-cases,
  inl, inr, if◌then◌else◌, any,
}
use uni_mailbox.Attachments.Catalog.{StoredObject, UploadStatus, delete_object}
use uni_mailbox.Maintenance.{
  AttachmentListEntry, AttachmentListPage, Depot, is_orphan_cleanup_eligible, has_reference,
  keeps_object, is_removed, visit, sweep, stored_cursor, cleanup_orphan_objects,
}

-- The object of a key is listed, old enough, and referred to by nothing.
abbrev is_orphan : List AttachmentListEntry → (key now : ℕ) → Depot → Bool
is_orphan objects key now depot =
    any (λ o. key == o.key && is_orphan_cleanup_eligible o.uploaded_at now) objects
    && not (has_reference key depot)

-- The rows of two depots, apart from the job.
abbrev pub SameRows : (before after : Depot) → Type 0
SameRows before after =
    (after.db.files ≡ before.db.files)
    × (after.db.uploads ≡ before.db.uploads)
    × (after.db.attached ≡ before.db.attached)
    × (after.raw_keys ≡ before.raw_keys)

abbrev Swept : List AttachmentListEntry → (key now : ℕ) (before after : Depot) → Type 0
Swept objects key now before after =
    SameRows before after
    × (after.db.store key
        ≡ (if is_orphan objects key now before then none else before.db.store key))

-- The test of an object that stays adds nothing to those of the others.
choice_kept :
    (same e a r : Bool) (x y : Option StoredObject)
    → (same ≡ true → (e && not r) ≡ false)
    → (if a && not r then x else y) ≡ (if (same && e || a) && not r then x else y)
choice_kept false e a r x y h = refl
choice_kept true e a true x y h = ground arith
choice_kept true e a false x y h = ground (arith, h refl)

-- An object that goes is that of the key, or another one.
choice_removed :
    (same e a r : Bool) (x y : Option StoredObject)
    → (same ≡ true → (e && not r) ≡ true)
    → (if a && not r then x else (if same then x else y))
      ≡ (if (same && e || a) && not r then x else y)
choice_removed false e a r x y h = refl
choice_removed true e a r x y h = ground (arith, h refl)

is_removed-same :
    (o : AttachmentListEntry) (key now : ℕ) (depot : Depot)
    → (key == o.key) ≡ true
    → (is_orphan_cleanup_eligible o.uploaded_at now && not (has_reference key depot))
      ≡ is_removed o now depot
is_removed-same o key now depot h =
    ap (λ k. is_orphan_cleanup_eligible o.uploaded_at now && not (has_reference k depot))
      (==_eq key o.key h)

sweep-Swept :
    (objects : List AttachmentListEntry) (key now removed : ℕ) (depot : Depot)
    → Swept objects key now depot (sweep objects now (depot, removed)).0
unfolding sweep visit has_reference
sweep-Swept [] key now removed depot = ((refl, refl, refl, refl), refl)
sweep-Swept (o ∷ objects) key now removed depot =
    let listed = any (λ x. key == x.key && is_orphan_cleanup_eligible x.uploaded_at now) objects in
    let old = is_orphan_cleanup_eligible o.uploaded_at now in
    elim (Bool-cases (is_removed o now depot)) [
      | inr e ↦
          let (same, rest) = sweep-Swept objects key now removed depot in
          rw (sweep, visit, e)
            (
              same,
              rest
                  ∙ choice_kept (key == o.key) old listed (has_reference key depot) none
                      (depot.db.store key) (λ h. is_removed-same o key now depot h ∙ e),
            )
      | inl e ↦
          let kept = record depot { db = delete_object o.key depot.db } in
          let (same, rest) = sweep-Swept objects key now (removed + 1) kept in
          rw (sweep, visit, e)
            (
              same,
              rest
                  ∙ choice_removed (key == o.key) old listed (has_reference key depot) none
                      (depot.db.store key) (λ h. is_removed-same o key now depot h ∙ e),
            )
    ]

-- A received message, an attachment, an upload that has not expired or a file names the key.
abbrev pub Refers : (key : ℕ) → Depot → Type 0
Refers key depot =
    Exists (λ k. k ≡ key) depot.raw_keys
    ⊎ (Exists (λ a. a.object_key ≡ key) depot.db.attached
        ⊎ (Exists (λ u. (u.object_key ≡ key) × (u.status ≢ UploadStatus.expired)) depot.db.uploads
            ⊎ Exists (λ f. f.object_key ≡ key) depot.db.files))

-- The page lists an object of the key whose upload is known and a day old, and nothing refers to it.
abbrev pub IsOrphan : List AttachmentListEntry → (key now : ℕ) → Depot → Type 0
IsOrphan objects key now depot =
    Exists
      (λ o. (o.key ≡ key) × ((t : ℕ) × (o.uploaded_at ≡ some t) × (t + 24 * 3600 * 1000 ≤ now)))
      objects
    × (Refers key depot → ⊥)

keeps_iff : (s : UploadStatus) → (keeps_object s ≡ true) ↔ (s ≢ UploadStatus.expired)
keeps_iff UploadStatus.pending = ((λ t e. ground (arith, e)), λ n. refl)
keeps_iff UploadStatus.uploaded = ((λ t e. ground (arith, e)), λ n. refl)
keeps_iff UploadStatus.consumed = ((λ t e. ground (arith, e)), λ n. refl)
keeps_iff UploadStatus.expired = ((λ t e. ground (arith, t)), λ n. absurd (n refl))

has_reference-Refers : (key : ℕ) (depot : Depot) → has_reference key depot ≡ true → Refers key depot
unfolding has_reference
has_reference-Refers key depot h = elim (Bool-cases (any (λ k. k == key) depot.raw_keys)) [
  | inl e ↦ inl (any-Exists _ _ depot.raw_keys (λ k t. ==_eq k key t) e)
  | inr n ↦ elim (Bool-cases (any (λ a. a.object_key == key) depot.db.attached)) [
    | inl e ↦ inr (inl (any-Exists _ _ depot.db.attached (λ a t. ==_eq a.object_key key t) e))
    | inr o ↦
        elim (Bool-cases
          (any (λ u. u.object_key == key && keeps_object u.status) depot.db.uploads)) [
            | inl e ↦ inr (
                inr (
                  inl (
                    any-Exists _ _ depot.db.uploads
                      (λ u t.
                        let kept : keeps_object u.status ≡ true = ground (arith, t) in
                        (==_eq u.object_key key (ground (arith, t)), (keeps_iff u.status).0 kept))
                      e)))
            | inr q ↦
                let last : any (λ f. f.object_key == key) depot.db.files ≡ true =
                  ground (arith, h, n, o, q) in
                inr
                  (inr (inr (any-Exists _ _ depot.db.files (λ f t. ==_eq f.object_key key t) last)))
          ]
  ]
]

Refers-has_reference : (key : ℕ) (depot : Depot) → Refers key depot → has_reference key depot ≡ true
unfolding has_reference
Refers-has_reference key depot (inl e) =
    let t = Exists-any _ (λ k. k == key) depot.raw_keys (λ k i. ground (arith, i)) e in rw t refl
Refers-has_reference key depot (inr (inl e)) =
    let t =
      Exists-any _ (λ a. a.object_key == key) depot.db.attached (λ a i. ground (arith, i)) e in
    ground (arith, t)
Refers-has_reference key depot (inr (inr (inl e))) =
    let t =
      Exists-any _ (λ u. u.object_key == key && keeps_object u.status) depot.db.uploads
        (λ u (i, s). let k = (keeps_iff u.status).1 s in ground (arith, i, k)) e in
    ground (arith, t)
Refers-has_reference key depot (inr (inr (inr e))) =
    let t = Exists-any _ (λ f. f.object_key == key) depot.db.files (λ f i. ground (arith, i)) e in
    ground (arith, t)

eligible_old :
    (uploaded_at : Option ℕ) (now : ℕ)
    → is_orphan_cleanup_eligible uploaded_at now ≡ true
    → (t : ℕ) × (uploaded_at ≡ some t) × (t + 24 * 3600 * 1000 ≤ now)
unfolding is_orphan_cleanup_eligible
eligible_old none now h = absurd (ground (arith, h))
eligible_old (some t) now h = (t, refl, ground (arith, h))

old_eligible :
    (uploaded_at : Option ℕ) (now t : ℕ)
    → uploaded_at ≡ some t
    → t + 24 * 3600 * 1000 ≤ now
    → is_orphan_cleanup_eligible uploaded_at now ≡ true
unfolding is_orphan_cleanup_eligible
old_eligible uploaded_at now t e h = rw e (ground (arith, h))

is_orphan_iff :
    (objects : List AttachmentListEntry) (key now : ℕ) (depot : Depot)
    → (is_orphan objects key now depot ≡ true) ↔ IsOrphan objects key now depot
is_orphan_iff objects key now depot = (
  λ h.
      let listed : any (λ o. key == o.key && is_orphan_cleanup_eligible o.uploaded_at now) objects
          ≡ true =
        ground (arith, h) in
      let free : has_reference key depot ≡ false = ground (arith, h) in
      (
        any-Exists _ (λ o. key == o.key && is_orphan_cleanup_eligible o.uploaded_at now) objects
            (λ o t.
              let old : is_orphan_cleanup_eligible o.uploaded_at now ≡ true = ground (arith, t) in
              (sym (==_eq key o.key (ground (arith, t))), eligible_old o.uploaded_at now old))
            listed,
        λ r. let t = Refers-has_reference key depot r in ground (arith, t, free),
      ),
  λ (listed, free).
      let t =
        Exists-any _ (λ o. key == o.key && is_orphan_cleanup_eligible o.uploaded_at now) objects
          (λ o (i, (at, e, old)).
            let k = old_eligible o.uploaded_at now at e old in ground (arith, i, k))
          listed in
      let n : has_reference key depot ≡ false = elim (Bool-cases (has_reference key depot)) [
        | inl y ↦ absurd (free (has_reference-Refers key depot y))
        | inr y ↦ y
      ] in
      rw (t, n) refl,
)

-- The cleanup of orphan objects changes no row but that of its job, takes every object that its page
-- lists with an upload a day ago or earlier and that no message, attachment, unexpired upload or file
-- names, and leaves every other object as it was.
pub cleanup_orphan_objects-Swept :
    (list : Option ℕ → AttachmentListPage) (key now : ℕ) (depot : Depot)
    → let objects = (list (stored_cursor depot.job)).objects in
      let after = cleanup_orphan_objects list now depot in
      SameRows depot after
      × (IsOrphan objects key now depot × (after.db.store key ≡ none)
          ⊎ (IsOrphan objects key now depot → ⊥) × (after.db.store key ≡ depot.db.store key))
unfolding cleanup_orphan_objects
cleanup_orphan_objects-Swept list key now depot =
    let objects = (list (stored_cursor depot.job)).objects in
    let (same, store) = sweep-Swept objects key now 0 depot in
    (
      same,
      elim (Bool-cases (is_orphan objects key now depot)) [
        | inl e ↦ inl ((is_orphan_iff objects key now depot).0 e, store ∙ rw e refl)
        | inr e ↦ inr (
          (λ o. let t = (is_orphan_iff objects key now depot).1 o in ground (arith, t, e)),
          store ∙ rw e refl,
        )
      ],
    )
