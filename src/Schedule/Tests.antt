-- ===== src/Schedule/Tests.antt =====
-- Tests of the schedule window, and its theorems at concrete inputs. The reader of dates used here
-- takes every text without the letter `u` for the second minute of the epoch.
use uni_mailbox.Prelude.{
  ℕ, ◌+◌, ◌≤◌, ◌<◌, Bool, true, List, [], ◌∷◌, ◌++◌, Option, none, some, ◌≡◌, refl, ◌↔◌, arith, any,
  ◌==◌, if◌then◌else◌,
}
use uni_mailbox.Domain.{ok, err, codes}
use uni_mailbox.Schedule.{
  in_window, match_iso, take_shape, take_seconds, take_fraction, take_zone,
  resolve_schedule_instant, window_error, shape_error,
}
use uni_mailbox.Schedule.Shape.{IsInstantText}
use uni_mailbox.Schedule.Window.{resolve-eq-ok_iff}

abbrev has_u : List ℕ → Bool
has_u = any (λ c. c == b'u')

abbrev sample_parse : List ℕ → Option ℕ
sample_parse t = if has_u t then none else some 120000

abbrev second_minute : List ℕ
second_minute = codes "1970-01-01T00:02:00Z"

accepted : resolve_schedule_instant sample_parse second_minute 0 ≡ ok 120000
unfolding resolve_schedule_instant in_window match_iso take_shape take_seconds take_fraction
    take_zone
accepted = refl

too_soon : resolve_schedule_instant sample_parse second_minute 60000 ≡ err window_error
unfolding resolve_schedule_instant in_window match_iso take_shape take_seconds take_fraction
    take_zone
too_soon = refl

no_offset : resolve_schedule_instant sample_parse (codes "1970-01-01T00:02:00") 0 ≡ err shape_error
unfolding resolve_schedule_instant in_window match_iso take_shape take_seconds take_fraction
    take_zone
no_offset = refl

has_u-undefined : (a b : List ℕ) → has_u (a ++ codes "undefined" ++ b) ≡ true
has_u-undefined [] b = refl
has_u-undefined (c ∷ a) b = ground (arith, has_u-undefined a b)

no_word : (a b : List ℕ) → sample_parse (a ++ codes "undefined" ++ b) ≡ none
no_word a b = rw (has_u-undefined a b) refl

resolve-eq-ok_iff_example : (resolve_schedule_instant sample_parse second_minute 0 ≡ ok 120000) ↔ (
    IsInstantText second_minute
    × (sample_parse second_minute ≡ some 120000)
    × (0 + 90000 ≤ 120000)
    × (120000 < 0 + 2592001000))
resolve-eq-ok_iff_example =
    resolve-eq-ok_iff sample_parse (λ a b shaped zone. no_word a b) second_minute 0 120000

abbrev minute_text : List ℕ
minute_text = codes "1970-01-01T00:02Z"
