-- ===== src/Identity/Sessions.antt =====
-- How long a refresh token is good: once, and not beyond a new password.
use uni_mailbox.Prelude.{
  ℕ, Bool, true, false, ◌&&◌, List, [], ◌∷◌, none, some, ◌≡◌, ◌≢◌, refl, arith, ◌==◌, All,
  All-append, Bool-cases, Option-cases, inl, inr, find_where, find_where-sat, update_where,
  update_where-All, count_where, String, is_none, sym, ◌∙◌, ◌≤◌, subst, count_where-eq,
}
use uni_mailbox.Domain.{Result-cases, ok, err}
use uni_mailbox.Identity.{
  Accounts, Session, User, AuthTokens, is_live_session, is_rotatable, rotated, revoked, refresh,
  rotate, find_session, create_session, logout, logout_all, refresh_token_invalid,
}
use uni_mailbox.Identity.Service.{reset_password, check_password}

-- What others do meanwhile, each call as a whole.
pub data Call : Type 0 where
  refreshes : (token next now : ℕ) → Call
  opens : (user_id : ℕ) (email : String) (id token now : ℕ) → Call
  logs_out : (hash now : ℕ) → Call
  logs_out_all : (user_id now : ℕ) → Call

-- No session answers to this digest.
abbrev pub Gone : ℕ → Session → Type 0
Gone hash s = (s.refresh_token_hash == hash) ≡ false

module _ (digest : ℕ → ℕ) where
  unfoldable pub run_call : Call → Accounts → Accounts
  run_call (refreshes token next now) db = (refresh digest token next now db).0
  run_call (opens user_id email id token now) db =
      (create_session digest user_id email id token now db).0
  run_call (logs_out hash now) db = logout hash now db
  run_call (logs_out_all user_id now) db = logout_all user_id now db

  unfoldable pub run_calls : List Call → Accounts → Accounts
  run_calls [] db = db
  run_calls (c ∷ cs) db = run_calls cs (run_call c db)

  -- A token that is drawn has another digest.
  abbrev pub Draws : ℕ → Call → Type 0
  Draws hash (refreshes token next now) = (digest next == hash) ≡ false
  Draws hash (opens user_id email id token now) = (digest token == hash) ≡ false
  Draws hash (logs_out other now) = Unit
  Draws hash (logs_out_all user_id now) = Unit

  rotate-Gone :
      (hash token next now : ℕ) (found : Session × User) (db : Accounts)
      → (digest next == hash) ≡ false
      → All (Gone hash) db.sessions
      → All (Gone hash) (rotate digest token next now found db).0.sessions
  unfolding rotate
  rotate-Gone hash token next now (s, u) db fresh h =
      elim (Bool-cases (count_where (is_rotatable s.id (digest token)) db.sessions == 1)) [
        | inl e ↦ rw (e, rotate) (update_where-All (Gone hash) _ _ db.sessions (λ x p k. fresh) h)
        | inr e ↦ rw (e, rotate) (update_where-All (Gone hash) _ _ db.sessions (λ x p k. fresh) h)
      ]

  refresh-Gone :
      (hash token next now : ℕ) (db : Accounts)
      → (digest next == hash) ≡ false
      → All (Gone hash) db.sessions
      → All (Gone hash) (refresh digest token next now db).0.sessions
  unfolding refresh
  refresh-Gone hash token next now db fresh h =
      elim (Result-cases (find_session digest token now db)) [
        | inl (found, e) ↦ rw (e, refresh) (rotate-Gone hash token next now found db fresh h)
        | inr (t, e) ↦ rw (e, refresh) h
      ]

  run_call-Gone :
      (hash : ℕ) (c : Call) (db : Accounts)
      → Draws hash c
      → All (Gone hash) db.sessions
      → All (Gone hash) (run_call c db).sessions
  unfolding run_call create_session logout logout_all
  run_call-Gone hash (refreshes token next now) db d h = refresh-Gone hash token next now db d h
  run_call-Gone hash (opens user_id email id token now) db d h =
      All-append (Gone hash) db.sessions _ h (d, tt)
  run_call-Gone hash (logs_out other now) db d h =
      update_where-All (Gone hash) _ _ db.sessions (λ x p k. k) h
  run_call-Gone hash (logs_out_all user_id now) db d h =
      update_where-All (Gone hash) _ _ db.sessions (λ x p k. k) h

  run_calls-Gone :
      (hash : ℕ) (cs : List Call) (db : Accounts)
      → All (Draws hash) cs
      → All (Gone hash) db.sessions
      → All (Gone hash) (run_calls cs db).sessions
  unfolding run_calls
  run_calls-Gone hash [] db d h = h
  run_calls-Gone hash (c ∷ cs) db (dc, d) h =
      run_calls-Gone hash cs (run_call c db) d (run_call-Gone hash c db dc h)

  Gone-none :
      (hash now : ℕ) (sessions : List Session)
      → All (Gone hash) sessions
      → find_where (is_live_session hash now) sessions ≡ none
  Gone-none hash now [] h = refl
  Gone-none hash now (s ∷ sessions) (hs, h) = ground (arith, Gone-none hash now sessions h)

  -- If the rotation changed every session with the digest, none has it any more.
  rotated-Gone :
      (id hash next now : ℕ) (sessions : List Session)
      → (digest next == hash) ≡ false
      → All (λ s. (s.refresh_token_hash == hash) ≡ true → is_rotatable id hash s ≡ true) sessions
      → All (Gone hash) (update_where (is_rotatable id hash) (rotated (digest next) now) sessions)
  unfolding update_where
  rotated-Gone id hash next now [] fresh one = tt
  rotated-Gone id hash next now (s ∷ sessions) fresh (one, all) =
      (ground arith, rotated-Gone id hash next now sessions fresh all)

  pub rotate_inv :
      (token next now : ℕ) (found : Session × User) (db after : Accounts) (t : AuthTokens)
      → rotate digest token next now found db ≡ (after, ok t)
      → (count_where (is_rotatable found.0.id (digest token)) db.sessions ≡ 1)
        × (after.sessions
            ≡ update_where
                (is_rotatable found.0.id (digest token))
                (rotated (digest next) now)
                db.sessions)
        × (t.user_id ≡ found.0.user_id)
  unfolding rotate
  rotate_inv token next now (s, u) db after t h = ground arith

  pub refresh_inv :
      (token next now : ℕ) (db after : Accounts) (t : AuthTokens)
      → refresh digest token next now db ≡ (after, ok t)
      → (found : Session × User) × (find_session digest token now db ≡ ok found)
        × (rotate digest token next now found db ≡ (after, ok t))
  unfolding refresh
  refresh_inv token next now db after t h = elim (Result-cases (find_session digest token now db)) [
    | inl (found, e) ↦ (found, e, sym (rw (e, refresh) refl) ∙ h)
    | inr (x, e) ↦ absurd (ground (arith, h, e))
  ]

  refused-Gone :
      (token again later : ℕ) (db : Accounts)
      → All (Gone (digest token)) db.sessions
      → refresh digest token again later db ≡ (db, err refresh_token_invalid)
  unfolding refresh find_session
  refused-Gone token again later db h =
      rw (refresh, find_session, Gone-none (digest token) later db.sessions h) refl

  -- A refresh token is good once: if no two sessions had its digest and it was taken, then whatever
  -- calls follow, with tokens of other digests, it is refused as invalid, and nothing changes.
  pub refresh-once :
      (token next now again later : ℕ) (cs : List Call) (db after : Accounts) (t : AuthTokens)
      → count_where (λ s. s.refresh_token_hash == digest token) db.sessions ≤ 1
      → (digest next == digest token) ≡ false
      → All (Draws (digest token)) cs
      → refresh digest token next now db ≡ (after, ok t)
      → refresh digest token again later (run_calls cs after)
        ≡ (run_calls cs after, err refresh_token_invalid)
  refresh-once token next now again later cs db after t u fresh d h =
      let (found, _, moved) = refresh_inv token next now db after t h in
      let (one, rows, _) = rotate_inv token next now found db after t moved in
      let all =
        (count_where-eq (is_rotatable found.0.id (digest token))
          (λ s. s.refresh_token_hash == digest token) (λ s p. ground arith) db.sessions) in
      let gone =
        subst (All (Gone (digest token))) (sym rows) (
          rotated-Gone found.0.id (digest token) next now db.sessions fresh
            (all.1 (omega arith))) in
      refused-Gone token again later (run_calls cs after)
        (run_calls-Gone (digest token) cs after d gone)

  find_session_inv :
      (token now : ℕ) (db : Accounts) (s : Session) (u : User)
      → find_session digest token now db ≡ ok (s, u)
      → find_where (is_live_session (digest token) now) db.sessions ≡ some s
  unfolding find_session
  find_session_inv token now db s u h =
      elim (Option-cases (find_where (is_live_session (digest token) now) db.sessions)) [
        | inl e ↦ ground arith
        | inr (x, e) ↦ ground arith
      ]

  -- A session of the user is revoked.
  abbrev pub Closed : ℕ → Session → Type 0
  Closed user_id s = (s.user_id == user_id) ≡ true → is_none s.revoked_at ≡ false

  revoked-Closed :
      (user_id now : ℕ) (sessions : List Session)
      → All
          (Closed user_id)
          (update_where (λ s. s.user_id == user_id && is_none s.revoked_at) (revoked now) sessions)
  unfolding update_where
  revoked-Closed user_id now [] = tt
  revoked-Closed user_id now (s ∷ sessions) = (ground arith, revoked-Closed user_id now sessions)

  live_other :
      (user_id hash now : ℕ) (sessions : List Session)
      → All (Closed user_id) sessions
      → All (λ x. is_live_session hash now x ≡ true → (x.user_id == user_id) ≡ false) sessions
  live_other user_id hash now [] h = tt
  live_other user_id hash now (s ∷ sessions) (hs, h) =
      (λ live. ground arith, live_other user_id hash now sessions h)

  Closed-refresh :
      (user_id token next later : ℕ) (db final : Accounts) (t : AuthTokens)
      → All (Closed user_id) db.sessions
      → refresh digest token next later db ≡ (final, ok t)
      → (t.user_id == user_id) ≡ false
  Closed-refresh user_id token next later db final t closed h =
      let (found, e, moved) = refresh_inv token next later db final t h in
      let (_, _, own) = rotate_inv token next later found db final t moved in
      let s = find_session_inv token later db found.0 found.1 e in
      let other =
        (find_where-sat (λ x. (x.user_id == user_id) ≡ false) (is_live_session (digest token) later)
          found.0 db.sessions (live_other user_id (digest token) later db.sessions closed) s) in
      rw own other

  Closed-reset :
      (derive : String → List ℕ → ℕ → List ℕ) (normalize_email : String → String)
      (nocase_eq : String → String → Bool) (code_digest : String → ℕ) (user_id : ℕ)
      (current_password new_password : String) (salt : List ℕ) (now : ℕ) (db after : Accounts)
      → reset_password derive normalize_email nocase_eq code_digest user_id current_password
          new_password salt now db
        ≡ ok after
      → All (Closed user_id) after.sessions
  unfolding reset_password
  Closed-reset derive normalize_email nocase_eq code_digest user_id current_password new_password
        salt now db after h =
      elim (Result-cases
        (check_password derive normalize_email nocase_eq code_digest user_id current_password db)) [
          | inl (u, e) ↦
              let same : after.sessions
                  ≡ update_where (λ s. s.user_id == user_id && is_none s.revoked_at) (revoked now)
                      db.sessions =
                ground arith in
              subst (All (Closed user_id)) (sym same) (revoked-Closed user_id now db.sessions)
          | inr (x, e) ↦ absurd (ground arith)
        ]

  -- After a new password no session of the user is refreshed, whatever token is shown.
  pub reset_password-closes :
      (derive : String → List ℕ → ℕ → List ℕ) (normalize_email : String → String)
      (nocase_eq : String → String → Bool) (code_digest : String → ℕ) (user_id : ℕ)
      (current_password new_password : String) (salt : List ℕ) (now : ℕ) (db after : Accounts)
      (token next later : ℕ) (final : Accounts) (t : AuthTokens)
      → reset_password derive normalize_email nocase_eq code_digest user_id current_password
          new_password salt now db
        ≡ ok after
      → refresh digest token next later after ≡ (final, ok t)
      → t.user_id ≢ user_id
  reset_password-closes derive normalize_email nocase_eq code_digest user_id current_password
        new_password salt now db after token next later final t reset h =
      let closed =
        Closed-reset derive normalize_email nocase_eq code_digest user_id current_password
          new_password salt now db after reset in
      let other = Closed-refresh user_id token next later after final t closed h in
      λ same. ground (arith, same, other)
