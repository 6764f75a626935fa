-- ===== src/Administration/Deleted.antt =====
-- A user that was deleted stays deleted.
use uni_mailbox.Prelude.{
  ℕ, String, Bool, true, false, ◌&&◌, not, List, [], ◌∷◌, ◌++◌, some, ◌==◌, find_where,
  find_where-All, find_where-true, update_where, update_where-All, All, All-append, ◌≡◌, ◌≢◌, refl,
  sym, arith, Bool-cases, Option-cases, inl, inr, subst, count_where,
}
use uni_mailbox.Domain.{Result, Result-cases, ok, err}
use uni_mailbox.Identity.{
  Accounts, User, UserStatus, Session, AuthTokens, refresh, rotate, find_session, is_live_session,
  is_rotatable, found_user, is_active_user,
}
use uni_mailbox.Identity.Sessions.{refresh_inv, rotate_inv}
use uni_mailbox.Administration.{
  Directory, Administrator, UserChange, create_user, update_user, delete_user, create_role,
  update_role, delete_role, check_permissions, is_deleted, created_user, changed_user,
  mark_user_deleted,
}

-- What administrators and users do, each call as a whole.
pub data Call : Type 0 where
  creates :
      (principal : Administrator) (email password display_name : String) (role_ids : List ℕ)
      (id : ℕ) (salt : List ℕ) (now : ℕ)
      → Call
  updates : (principal : Administrator) (user_id : ℕ) (change : UserChange) (now : ℕ) → Call
  deletes : (principal : Administrator) (user_id now : ℕ) → Call
  creates_role :
      (principal : Administrator) (id : ℕ) (name description : String) (permissions : List String)
      → Call
  updates_role :
      (principal : Administrator) (id : ℕ) (description : String) (permissions : List String) → Call
  deletes_role : (principal : Administrator) (id : ℕ) → Call
  refreshes : (token next now : ℕ) → Call

-- A call that throws leaves the tables as they were.
abbrev pub kept : Directory → Result Directory → Directory
kept db (ok after) = after
kept db (err t) = db

-- A row of the user is deleted.
abbrev pub Erased : ℕ → User → Type 0
Erased user_id u = (u.id == user_id) ≡ true → is_deleted u.status ≡ true

abbrev Gone : ℕ → Directory → Type 0
Gone user_id db = All (Erased user_id) db.accounts.users

-- A new user has an identifier of its own.
abbrev pub Fresh : ℕ → Call → Type 0
Fresh user_id (creates principal email password display_name role_ids id salt now) =
    (id == user_id) ≡ false
Fresh user_id _ = Unit

module _ (derive : String → List ℕ → ℕ → List ℕ) (normalize_email trim : String → String)
    (nocase_eq : String → String → Bool) (digest : ℕ → ℕ) where
  unfoldable pub run_call : Call → Directory → Directory
  run_call (creates principal email password display_name role_ids id salt now) db = kept db (
      create_user derive normalize_email nocase_eq principal email password display_name role_ids id
        salt now db)
  run_call (updates principal user_id change now) db =
      kept db (update_user principal user_id change now db)
  run_call (deletes principal user_id now) db = kept db (delete_user principal user_id now db)
  run_call (creates_role principal id name description permissions) db =
      kept db (create_role trim principal id name description permissions db)
  run_call (updates_role principal id description permissions) db =
      kept db (update_role principal id description permissions db)
  run_call (deletes_role principal id) db = kept db (delete_role principal id db)
  run_call (refreshes token next now) db = record db {
    accounts = (refresh digest token next now db.accounts).0;
  }

  unfoldable pub run_calls : List Call → Directory → Directory
  run_calls [] db = db
  run_calls (c ∷ cs) db = run_calls cs (run_call c db)

  updated-Erased :
      (user_id other now : ℕ) (c : UserChange) (users : List User)
      → All (Erased user_id) users
      → All (Erased user_id) (
          update_where (λ u. u.id == other && not (is_deleted u.status)) (changed_user c now) users)
  updated-Erased user_id other now c users h =
      update_where-All (Erased user_id) _ _ users (λ u p k e. ground (arith, p, k, e)) h

  deleted-Erased :
      (user_id other now : ℕ) (users : List User)
      → All (Erased user_id) users
      → All (Erased user_id) (update_where (λ u. u.id == other) (mark_user_deleted now) users)
  deleted-Erased user_id other now users h =
      update_where-All (Erased user_id) _ _ users (λ u p k e. refl) h

  rotated_users :
      (token next now : ℕ) (found : Session × User) (db : Accounts)
      → (rotate digest token next now found db).0.users ≡ db.users
  unfolding rotate
  rotated_users token next now (s, u) db =
      elim (Bool-cases (count_where (is_rotatable s.id (digest token)) db.sessions == 1)) [
        | inl e ↦ rw (rotate, e) refl
        | inr e ↦ rw (rotate, e) refl
      ]

  refreshed_users :
      (token next now : ℕ) (db : Accounts) → (refresh digest token next now db).0.users ≡ db.users
  unfolding refresh rotate
  refreshed_users token next now db = elim (Result-cases (find_session digest token now db)) [
    | inr (t, e) ↦ rw (refresh, e) refl
    | inl (found, e) ↦ rw (refresh, e) (rotated_users token next now found db)
  ]

  kept-Gone :
      (user_id : ℕ) (db : Directory) (r : Result Directory)
      → ((after : Directory) → r ≡ ok after → Gone user_id after)
      → Gone user_id db
      → Gone user_id (kept db r)
  kept-Gone user_id db (ok after) l h = l after refl
  kept-Gone user_id db (err t) l h = h

  create_user-users :
      (principal : Administrator) (email password display_name : String) (role_ids : List ℕ)
      (id : ℕ) (salt : List ℕ) (now : ℕ) (db after : Directory)
      → create_user derive normalize_email nocase_eq principal email password display_name role_ids
          id salt now db
        ≡ ok after
      → after.accounts.users
        ≡ db.accounts.users
          ++ created_user derive normalize_email nocase_eq id email password display_name salt now
            ∷ []
  unfolding create_user
  create_user-users principal email password display_name role_ids id salt now db after e =
      ground arith

  update_user-users :
      (principal : Administrator) (other : ℕ) (c : UserChange) (now : ℕ) (db after : Directory)
      → update_user principal other c now db ≡ ok after
      → after.accounts.users
        ≡ update_where
            (λ u. u.id == other && not (is_deleted u.status))
            (changed_user c now)
            db.accounts.users
  unfolding update_user
  update_user-users principal other c now db after e = ground arith

  delete_user-users :
      (principal : Administrator) (other now : ℕ) (db after : Directory)
      → delete_user principal other now db ≡ ok after
      → after.accounts.users
        ≡ update_where (λ u. u.id == other) (mark_user_deleted now) db.accounts.users
  unfolding delete_user
  delete_user-users principal other now db after e = ground arith

  create_role-users :
      (principal : Administrator) (id : ℕ) (name description : String) (permissions : List String)
      (db after : Directory)
      → create_role trim principal id name description permissions db ≡ ok after
      → after.accounts.users ≡ db.accounts.users
  unfolding create_role
  create_role-users principal id name description permissions db after e =
      elim (Result-cases (check_permissions permissions)) [
        | inl (valid, k) ↦ ground arith
        | inr (t, k) ↦ ground arith
      ]

  update_role-users :
      (principal : Administrator) (id : ℕ) (description : String) (permissions : List String)
      (db after : Directory)
      → update_role principal id description permissions db ≡ ok after
      → after.accounts.users ≡ db.accounts.users
  unfolding update_role
  update_role-users principal id description permissions db after e =
      elim (Result-cases (check_permissions permissions)) [
        | inl (valid, k) ↦ ground arith
        | inr (t, k) ↦ ground arith
      ]

  delete_role-users :
      (principal : Administrator) (id : ℕ) (db after : Directory)
      → delete_role principal id db ≡ ok after
      → after.accounts.users ≡ db.accounts.users
  unfolding delete_role
  delete_role-users principal id db after e = ground arith

  run_call-Gone :
      (user_id : ℕ) (c : Call) (db : Directory)
      → Fresh user_id c
      → Gone user_id db
      → Gone user_id (run_call c db)
  unfolding run_call
  run_call-Gone user_id (creates principal email password display_name role_ids id salt now) db f
        h =
      let new : All (Erased user_id) (
          created_user derive normalize_email nocase_eq id email password display_name salt now
          ∷ []) =
        (λ e. absurd (ground (arith, f, e)), tt) in
      kept-Gone user_id db
        (create_user derive normalize_email nocase_eq principal email password display_name role_ids
          id salt now db)
        (λ after e.
          subst (All (Erased user_id))
            (sym (
              create_user-users principal email password display_name role_ids id salt now db after
                e))
            (All-append (Erased user_id) db.accounts.users _ h new))
        h
  run_call-Gone user_id (updates principal other change now) db f h =
      kept-Gone user_id db (update_user principal other change now db)
        (λ after e.
          subst (All (Erased user_id))
            (sym (update_user-users principal other change now db after e))
            (updated-Erased user_id other now change db.accounts.users h))
        h
  run_call-Gone user_id (deletes principal other now) db f h =
      kept-Gone user_id db (delete_user principal other now db)
        (λ after e.
          subst (All (Erased user_id)) (sym (delete_user-users principal other now db after e))
            (deleted-Erased user_id other now db.accounts.users h))
        h
  run_call-Gone user_id (creates_role principal id name description permissions) db f h =
      kept-Gone user_id db (create_role trim principal id name description permissions db)
        (λ after e.
          subst (All (Erased user_id))
            (sym (create_role-users principal id name description permissions db after e)) h)
        h
  run_call-Gone user_id (updates_role principal id description permissions) db f h =
      kept-Gone user_id db (update_role principal id description permissions db)
        (λ after e.
          subst (All (Erased user_id))
            (sym (update_role-users principal id description permissions db after e)) h)
        h
  run_call-Gone user_id (deletes_role principal id) db f h =
      kept-Gone user_id db (delete_role principal id db)
        (λ after e.
          subst (All (Erased user_id)) (sym (delete_role-users principal id db after e)) h)
        h
  run_call-Gone user_id (refreshes token next now) db f h =
      subst (All (Erased user_id)) (sym (refreshed_users token next now db.accounts)) h

  run_calls-Gone :
      (user_id : ℕ) (cs : List Call) (db : Directory)
      → All (Fresh user_id) cs
      → Gone user_id db
      → Gone user_id (run_calls cs db)
  unfolding run_calls
  run_calls-Gone user_id [] db f h = h
  run_calls-Gone user_id (c ∷ cs) db (fc, f) h =
      run_calls-Gone user_id cs (run_call c db) f (run_call-Gone user_id c db fc h)

  -- A session that is found has a user who is active.
  abbrev Found : Accounts → Result (Session × User) → Type 0
  Found db (ok (s, u)) = (found_user s.user_id db.users ≡ some u) × (is_active_user u.status ≡ true)
  Found db (err t) = Unit

  find_session-Found : (token now : ℕ) (db : Accounts) → Found db (find_session digest token now db)
  unfolding find_session
  find_session-Found token now db =
      elim (Option-cases (find_where (is_live_session (digest token) now) db.sessions)) [
        | inl e ↦ rw (find_session, e) tt
        | inr (s, e) ↦ elim (Option-cases (found_user s.user_id db.users)) [
          | inl k ↦ rw (find_session, e, k) tt
          | inr (u, k) ↦ elim (Bool-cases (is_active_user u.status)) [
            | inl a ↦ rw (find_session, e, k, a) (k, a)
            | inr a ↦ rw (find_session, e, k, a) tt
          ]
        ]
      ]

  active_deleted : (s : UserStatus) → is_active_user s ≡ true → is_deleted s ≡ true → ⊥
  active_deleted UserStatus.active a d = ground (arith, d)
  active_deleted UserStatus.suspended a d = ground (arith, d)
  active_deleted UserStatus.deleted a d = ground (arith, a)

  update_where-Erased :
      (user_id now : ℕ) (users : List User)
      → All (Erased user_id) (update_where (λ u. u.id == user_id) (mark_user_deleted now) users)
  unfolding update_where
  update_where-Erased user_id now [] = tt
  update_where-Erased user_id now (u ∷ users) =
      (ground arith, update_where-Erased user_id now users)

  -- Once a user is deleted, whatever administrators do with other new identifiers, and whatever
  -- sessions are refreshed, no refresh is ever answered for the user, whatever token is shown.
  pub delete_user-refresh :
      (principal : Administrator) (user_id now : ℕ) (db after : Directory) (cs : List Call)
      (token next later : ℕ) (final : Accounts) (t : AuthTokens)
      → delete_user principal user_id now db ≡ ok after
      → All (Fresh user_id) cs
      → refresh digest token next later (run_calls cs after).accounts ≡ (final, ok t)
      → t.user_id ≢ user_id
  delete_user-refresh principal user_id now db after cs token next later final t deleted f h =
      let gone_now =
        subst (All (Erased user_id))
          (sym (delete_user-users principal user_id now db after deleted))
          (update_where-Erased user_id now db.accounts.users) in
      let last = (run_calls cs after).accounts in
      let gone = run_calls-Gone user_id cs after f gone_now in
      let (found, e, moved) = refresh_inv digest token next later last final t h in
      let (_, _, own) = rotate_inv digest token next later found last final t moved in
      let (at, active) = subst (Found last) e (find_session-Found token later last) in
      let same = find_where-true (λ u. u.id == found.0.user_id) found.1 last.users at in
      let erased =
        find_where-All (Erased user_id) (λ u. u.id == found.0.user_id) found.1 last.users gone at in
      λ is_user. active_deleted found.1.status active (erased (ground (arith, same, own, is_user)))
