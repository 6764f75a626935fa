-- ===== src/Schedule/Window.antt =====
-- The window of a scheduled send, the texts that are let through, and when a schedule falls due.
use uni_mailbox.Prelude.{
  ℕ, ◌+◌, ◌≤◌, ◌<◌, true, false, List, ◌++◌, Option, none, some, ◌≡◌, ◌↔◌, ◌∙◌, arith, inl, inr,
  sym, ap, Option-cases,
}
use uni_mailbox.Domain.{ok, err, codes}
use uni_mailbox.Schema.{is_due}
use uni_mailbox.Schedule.{
  IsoMatch, match_iso, minute_shape, printed, in_window, resolve_schedule_instant, to_d1_timestamp,
  calendar_error,
}
use uni_mailbox.Schedule.Shape.{
  Shaped, IsZone, IsInstantText, match_iso_complete, match_iso_sound, match_iso_ends,
}

in_window_iff :
    (instant now : ℕ)
    → (in_window instant now ≡ true) ↔ ((now + 90000 ≤ instant) × (instant < now + 2592001000))
unfolding in_window
in_window_iff instant now = ground arith

module _ (parse_date : List ℕ → Option ℕ) where
  -- Of a text that matches, the parser is asked for `instant`, and it lies in the window.
  resolve_matched :
      (value : List ℕ) (now instant : ℕ) (m : IsoMatch)
      → match_iso value ≡ some m
      → (resolve_schedule_instant parse_date value now ≡ ok instant) ↔ (
          (parse_date (m.minutes ++ printed m.seconds ++ m.zone) ≡ some instant)
          × (now + 90000 ≤ instant)
          × (instant < now + 2592001000))
  unfolding resolve_schedule_instant
  resolve_matched value now instant m e = (
    λ h. ground (arith, in_window_iff instant now),
    λ h. ground (arith, in_window_iff instant now),
  )

  -- What does not match is refused.
  resolve_unmatched :
      (value : List ℕ) (now instant : ℕ)
      → match_iso value ≡ none
      → ¬ (resolve_schedule_instant parse_date value now ≡ ok instant)
  unfolding resolve_schedule_instant
  resolve_unmatched value now instant e h = ground (arith, e)

  -- Where `new Date` takes no text in which the word "undefined" stands between the minutes and the
  -- offset, a schedule is accepted exactly when its text is YYYY-MM-DDThh:mm:ss, with a point and one
  -- to three digits or without, followed by Z or an offset (so the seconds and the offset are
  -- required), `new Date` takes the whole text for an instant, and that instant lies from 90 seconds
  -- (inclusive) to one second past 30 days (exclusive) after `now`; the result is that instant.
  pub resolve-eq-ok_iff :
      ((a b : List ℕ)
        → Shaped minute_shape a
        → IsZone b
        → parse_date (a ++ codes "undefined" ++ b) ≡ none)
      → (value : List ℕ) (now instant : ℕ)
      → (resolve_schedule_instant parse_date value now ≡ ok instant) ↔ (
          IsInstantText value
          × (parse_date value ≡ some instant)
          × (now + 90000 ≤ instant)
          × (instant < now + 2592001000))
  resolve-eq-ok_iff no_word value now instant = (
    λ h. elim (Option-cases (match_iso value)) [
      | inl e ↦ absurd (resolve_unmatched value now instant e h)
      | inr (m, e) ↦
          let (read, soon, late) = (resolve_matched value now instant m e).0 h in
          elim (Option-cases m.seconds) [
            | inl k ↦
                let (a, b) = match_iso_ends value m e in
                let refused : parse_date (m.minutes ++ printed m.seconds ++ m.zone) ≡ none =
                  rw k (no_word m.minutes m.zone a b) in
                absurd (ground (arith, refused, read))
            | inr (s, k) ↦
                let (form, whole) = match_iso_sound value s m e k in
                (form, ap parse_date whole ∙ read, soon, late)
          ]
    ],
    λ (form, read, soon, late).
        let (m, s, e, k, whole) = match_iso_complete value form in
        (resolve_matched value now instant m e).1 (sym (ap parse_date whole) ∙ read, soon, late),
  )

  -- If `new Date` takes no text with the word "undefined" in it for a date, every text without
  -- seconds is refused, whatever its instant.
  pub resolve-minutes :
      ((a b : List ℕ) → parse_date (a ++ codes "undefined" ++ b) ≡ none)
      → (value : List ℕ) (now : ℕ) (m : IsoMatch) → match_iso value ≡ some m
      → m.seconds ≡ none
      → resolve_schedule_instant parse_date value now ≡ err calendar_error
  unfolding resolve_schedule_instant
  resolve-minutes no_word value now m e s = rw e (ground (arith, no_word m.minutes m.zone))

-- A job scheduled for `instant` is not due at any time up to that instant, and is due from one
-- second after it on.
pub is_due-to_d1_timestamp :
    (instant early late : ℕ)
    → early ≤ instant
    → instant + 1000 ≤ late
    → (is_due (to_d1_timestamp instant) early ≡ false)
      × (is_due (to_d1_timestamp instant) late ≡ true)
is_due-to_d1_timestamp instant early late before after = (ground arith, ground arith)
