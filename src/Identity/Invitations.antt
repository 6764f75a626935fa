-- ===== src/Identity/Invitations.antt =====
-- application.ts: register, when others register with the same invitation.
use uni_mailbox.Prelude.{
  ℕ, [], ◌∷◌, ◌++◌, String, Bool, false, List, Option, none, some, ◌≡◌, refl, arith, ◌≤◌, All, any,
  count_where, update_where-All, update_where_none, Bool-cases, inl, inr,
}
use uni_mailbox.Domain.{ok, Result-cases}
use uni_mailbox.Schema.{current_timestamp}
use uni_mailbox.Identity.{Accounts, UserStatus, RegistrationKey, hash_password, member_role_id}
use uni_mailbox.Identity.Service.{write_user, register, find_invitation, is_open, use_invitation}

-- An invitation was not used more often than it may be.
abbrev pub Within : RegistrationKey → Type 0
Within k = k.used_count ≤ k.max_uses

module _ (derive : String → List ℕ → ℕ → List ℕ) (normalize_email : String → String)
    (nocase_eq : String → String → Bool) (code_digest : String → ℕ) where
  use_invitation-Within :
      (invitation : Option ℕ) (keys : List RegistrationKey)
      → All Within keys
      → All Within (use_invitation derive normalize_email nocase_eq code_digest invitation keys)
  use_invitation-Within none keys h = h
  use_invitation-Within (some id) keys h =
      update_where-All Within _ _ keys (λ k e l. ground arith) h

  write_user-Within :
      (email password display_name : String) (invitation : Option ℕ) (id : ℕ) (salt : List ℕ)
      (now : ℕ) (db : Accounts)
      → All Within db.registration_keys
      → All Within
          (write_user derive normalize_email nocase_eq code_digest email password display_name
            invitation id salt now db).0.registration_keys
  unfolding write_user
  write_user-Within email password display_name invitation id salt now db h =
      elim (Bool-cases (any (λ u. nocase_eq u.email (normalize_email email)) db.users)) [
        | inl e ↦ rw (write_user, e) h
        | inr e ↦ rw (write_user, e) (use_invitation-Within invitation db.registration_keys h)
      ]

  -- An invitation is never counted more often than it may be used: a registration, refused or not,
  -- whatever it checked before, leaves every invitation within its limit.
  register-Within :
      (email password display_name : String) (registration_key : Option String) (id : ℕ)
      (salt : List ℕ) (now : ℕ) (db : Accounts)
      → All Within db.registration_keys
      → All Within
          (register derive normalize_email nocase_eq code_digest email password display_name
            registration_key id salt now db).0.registration_keys
  unfolding register
  register-Within email password display_name registration_key id salt now db h =
      elim (Result-cases
        (find_invitation derive normalize_email nocase_eq code_digest registration_key now db)) [
          | inl (invitation, e) ↦
              rw (register, e)
                (write_user-Within email password display_name invitation id salt now db h)
          | inr (t, e) ↦ rw (register, e) h
        ]

  -- The third statement of the batch is not looked at: with the invitation used up since it was
  -- checked, and an address that is free, the answer is the identifier, the account with the address
  -- is added as an active user with the role of a member, and no invitation changes.
  pub write_user-exhausted :
      (email password display_name : String) (key id : ℕ) (salt : List ℕ) (now : ℕ) (db : Accounts)
      → any (λ u. nocase_eq u.email (normalize_email email)) db.users ≡ false
      → count_where (is_open derive normalize_email nocase_eq code_digest key) db.registration_keys
        ≡ 0
      → let written =
          write_user derive normalize_email nocase_eq code_digest email password display_name
            (some key)
            id
            salt
            now
            db in
        (written.1 ≡ ok id)
        × (written.0.users
            ≡ db.users
              ++ record {
                id = id;
                email = normalize_email email;
                password = hash_password derive password salt;
                status = UserStatus.active;
                display_name = display_name;
                updated_at = current_timestamp now;
              }
                ∷ [])
        × (written.0.user_roles
            ≡ db.user_roles ++ record { user_id = id; role_id = member_role_id } ∷ [])
        × (written.0.registration_keys ≡ db.registration_keys)
  unfolding write_user
  write_user-exhausted email password display_name key id salt now db free out = (
    rw (write_user, free) refl,
    rw (write_user, free) refl,
    rw (write_user, free) refl,
    rw (write_user, free) (update_where_none _ _ db.registration_keys out),
  )
