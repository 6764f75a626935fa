-- ===== src/Schedule.antt =====
-- apps/worker/src/modules/messages/schedule.ts: the window of a scheduled send. Instants are
-- milliseconds since the epoch, texts lists of code units; `parse_date` stands for `new Date(text)`,
-- with `none` for an invalid date.
pub mod Window
pub mod Shape
pub mod Tests
use uni_mailbox.Prelude.{
  ℕ, ◌-◌, ◌/◌, ◌%◌, Bool, true, false, ◌&&◌, ◌||◌, List, [], ◌∷◌, ◌++◌, Option, none, some, ltb,
  leb, ◌==◌, if◌then◌else◌, or_else,
}
use uni_mailbox.Domain.{Result, ok, err, ◌>>=◌, ◌>>◌, Thrown, domain_error, guard, or_throw, codes}
use uni_mailbox.Schema.{Moment}

abbrev pub min_lead_seconds : ℕ
min_lead_seconds = 90

abbrev pub max_lead_seconds : ℕ
max_lead_seconds = 2592000

abbrev pub is_digit : ℕ → Bool
is_digit c = leb b'0' c && leb c b'9'

-- One position of a pattern: a digit, or a given character.
pub data Position : Type 0 where
  digit : Position
  only : ℕ → Position

abbrev pub fits : Position → ℕ → Bool
fits digit c = is_digit c
fits (only k) c = c == k

-- The text that a row of positions matches, and the rest.
unfoldable pub take_shape : List Position → List ℕ → Option (List ℕ × List ℕ)
take_shape [] cs = some ([], cs)
take_shape (p ∷ ps) [] = none
take_shape (p ∷ ps) (c ∷ cs) =
    let more : Option (List ℕ × List ℕ) = elim (take_shape ps cs) [
      | none ↦ none
      | some (taken, rest) ↦ some (c ∷ taken, rest)
    ] in
    if fits p c then more else none

abbrev minute_shape : List Position
minute_shape =
    digit
    ∷ digit
    ∷ digit
    ∷ digit
    ∷ only b'-'
    ∷ digit
    ∷ digit
    ∷ only b'-'
    ∷ digit
    ∷ digit
    ∷ only b'T'
    ∷ digit
    ∷ digit
    ∷ only b':'
    ∷ digit
    ∷ digit
    ∷ []

abbrev second_shape : List Position
second_shape = only b':' ∷ digit ∷ digit ∷ []

abbrev offset_shape : List Position
offset_shape = digit ∷ digit ∷ only b':' ∷ digit ∷ digit ∷ []

-- (\.\d{1,3})? : as many digits as there are, up to three.
unfoldable pub take_fraction : List ℕ → List ℕ × List ℕ
take_fraction (dot ∷ a ∷ b ∷ c ∷ cs) =
    if dot == b'.' && is_digit a
    then (if is_digit b
        then (if is_digit c then (dot ∷ a ∷ b ∷ c ∷ [], cs) else (dot ∷ a ∷ b ∷ [], c ∷ cs))
        else (dot ∷ a ∷ [], b ∷ c ∷ cs))
    else ([], dot ∷ a ∷ b ∷ c ∷ cs)
take_fraction (dot ∷ a ∷ b ∷ []) =
    if dot == b'.' && is_digit a
    then (if is_digit b then (dot ∷ a ∷ b ∷ [], []) else (dot ∷ a ∷ [], b ∷ []))
    else ([], dot ∷ a ∷ b ∷ [])
take_fraction (dot ∷ a ∷ []) =
    if dot == b'.' && is_digit a then (dot ∷ a ∷ [], []) else ([], dot ∷ a ∷ [])
take_fraction cs = ([], cs)

-- (:\d{2}(\.\d{1,3})?)?
unfoldable pub take_seconds : List ℕ → Option (List ℕ) × List ℕ
unfolding take_shape take_fraction
take_seconds cs = elim (take_shape second_shape cs) [
  | none ↦ (none, cs)
  | some (seconds, rest) ↦
      let (fraction, rest') = take_fraction rest in (some (seconds ++ fraction), rest')
]

-- (Z|[+-]\d{2}:\d{2})$
unfoldable pub take_zone : List ℕ → Option (List ℕ)
unfolding take_shape
take_zone [] = none
take_zone (c ∷ []) = if c == b'Z' then some (c ∷ []) else none
take_zone (c ∷ cs) =
    if c == b'+' || c == b'-'
    then elim (take_shape offset_shape cs) [ some (taken, []) ↦ some (c ∷ taken) | _ ↦ none ]
    else none

pub record IsoMatch : Type 0 where
  pub minutes : List ℕ
  pub seconds : Option (List ℕ)
  pub zone : List ℕ

-- ISO_NO_FRACTION_RE
unfoldable pub match_iso : List ℕ → Option IsoMatch
unfolding take_shape take_seconds take_zone
match_iso value = elim (take_shape minute_shape value) [
  | none ↦ none
  | some (minutes, rest) ↦
      let (seconds, rest') = take_seconds rest in
      elim (take_zone rest') [
        | none ↦ none
        | some zone ↦ some (record { minutes = minutes; seconds = seconds; zone = zone })
      ]
]

-- A group that took no part in the match is `undefined`, and a template prints that word.
abbrev pub printed : Option (List ℕ) → List ℕ
printed none = codes "undefined"
printed (some cs) = cs

abbrev pub window_error : Thrown
window_error =
    domain_error "SCHEDULE_WINDOW_EXCEEDED"
      "scheduledAt must be within 90 seconds to 30 days from now" 400

abbrev pub shape_error : Thrown
shape_error =
    domain_error "SCHEDULE_WINDOW_EXCEEDED"
      "scheduledAt must be an ISO 8601 instant with an explicit UTC offset" 400

abbrev pub calendar_error : Thrown
calendar_error =
    domain_error "SCHEDULE_WINDOW_EXCEEDED" "scheduledAt is not a real calendar instant" 400

-- Math.floor((instant - now) / 1000) lies in the window. An instant before `now` has a negative
-- lead, which fails the test as the lead 0 does that truncated subtraction gives it.
unfoldable pub in_window : (instant now : ℕ) → Bool
in_window instant now =
    let lead = (instant - now) / 1000 in leb min_lead_seconds lead && leb lead max_lead_seconds

-- toD1Timestamp, as the moment that its text stands for.
abbrev pub to_d1_timestamp : ℕ → Moment
to_d1_timestamp instant = record { seconds = instant / 1000; fraction = some (instant % 1000) }

module _ (parse_date : List ℕ → Option ℕ) where
  unfoldable pub resolve_schedule_instant : (value : List ℕ) (now : ℕ) → Result ℕ
  resolve_schedule_instant value now = do
    m ← or_throw (match_iso value) shape_error
    instant ← or_throw (parse_date (m.minutes ++ printed m.seconds ++ m.zone)) calendar_error
    guard (in_window instant now) window_error
    ok instant
