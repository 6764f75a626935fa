-- ===== src/Tokens.antt =====
-- The text form of binary data in tokens: toBase64Url and fromBase64Url, which stand in
-- apps/worker/src/modules/messages/cursor.ts, modules/attachments/upload-token.ts and
-- modules/identity/index.ts alike. Texts are lists of code units. `btoa` and `atob` are the
-- functions of the Web platform: groups of three bytes as four letters.
pub mod Base
pub mod Codec
pub mod Sealed
pub mod Tests
use uni_mailbox.Prelude.{
  ℕ, ◌+◌, ◌-◌, ◌*◌, ◌/◌, ◌%◌, Bool, true, false, ◌&&◌, ◌||◌, not, List, [], ◌∷◌, ◌++◌, Option, none,
  some, map, ltb, leb, ◌==◌, if◌then◌else◌, length, filter,
}

-- The letter of six bits.
letter : ℕ → ℕ
letter v =
    if ltb v 26
    then v + 65
    else if ltb v 52
    then v + 71
    else if ltb v 62
    then v - 4
    else if v == 62
    then b'+'
    else b'/'

six_bits : ℕ → Option ℕ
six_bits c =
    if leb 65 c && leb c 90
    then some (c - 65)
    else if leb 97 c && leb c 122
    then some (c - 71)
    else if leb 48 c && leb c 57
    then some (c + 4)
    else if c == b'+'
    then some 62
    else if c == b'/'
    then some 63
    else none

unfoldable pub btoa : List ℕ → List ℕ
unfolding letter
btoa [] = []
btoa (a ∷ []) = letter (a / 4) ∷ letter (a % 4 * 16) ∷ b'=' ∷ b'=' ∷ []
btoa (a ∷ b ∷ []) = letter (a / 4) ∷ letter (a % 4 * 16 + b / 16) ∷ letter (b % 16 * 4) ∷ b'=' ∷ []
btoa (a ∷ b ∷ c ∷ rest) =
    letter (a / 4)
    ∷ letter (a % 4 * 16 + b / 16)
    ∷ letter (b % 16 * 4 + c / 64)
    ∷ letter (c % 64)
    ∷ btoa rest

one_byte : Option ℕ → Option ℕ → Option (List ℕ)
one_byte (some p) (some q) = some ((p * 4 + q / 16) ∷ [])
one_byte _ _ = none

two_bytes : Option ℕ → Option ℕ → Option ℕ → Option (List ℕ)
two_bytes (some p) (some q) (some r) = some ((p * 4 + q / 16) ∷ (q % 16 * 16 + r / 4) ∷ [])
two_bytes _ _ _ = none

three_bytes : Option ℕ → Option ℕ → Option ℕ → Option ℕ → Option (List ℕ) → Option (List ℕ)
three_bytes (some p) (some q) (some r) (some s) (some rest) =
    some ((p * 4 + q / 16) ∷ (q % 16 * 16 + r / 4) ∷ (r % 4 * 64 + s) ∷ rest)
three_bytes _ _ _ _ _ = none

-- The last letters, with up to two signs of padding or none. A letter too many is an error.
last_letters : (p q r s : ℕ) → Option (List ℕ)
unfolding one_byte two_bytes three_bytes six_bits
last_letters p q r s =
    if s == b'='
    then (if r == b'='
        then one_byte (six_bits p) (six_bits q)
        else two_bytes (six_bits p) (six_bits q) (six_bits r))
    else three_bytes (six_bits p) (six_bits q) (six_bits r) (six_bits s) (some [])

letters : List ℕ → Option (List ℕ)
unfolding last_letters
letters [] = some []
letters (p ∷ []) = none
letters (p ∷ q ∷ []) = one_byte (six_bits p) (six_bits q)
letters (p ∷ q ∷ r ∷ []) = two_bytes (six_bits p) (six_bits q) (six_bits r)
letters (p ∷ q ∷ r ∷ s ∷ []) = last_letters p q r s
letters (p ∷ q ∷ r ∷ s ∷ t ∷ rest) =
    three_bytes (six_bits p) (six_bits q) (six_bits r) (six_bits s) (letters (t ∷ rest))

-- ASCII white space, which `atob` leaves out.
is_space : ℕ → Bool
is_space c = c == 32 || c == 9 || c == 10 || c == 12 || c == 13

unfoldable pub atob : List ℕ → Option (List ℕ)
unfolding letters is_space
atob cs = letters (filter (λ c. not (is_space c)) cs)

-- replaceAll("+", "-").replaceAll("/", "_"), and back.
url_letter : ℕ → ℕ
url_letter c = if c == b'+' then b'-' else if c == b'/' then b'_' else c

plain_letter : ℕ → ℕ
plain_letter c = if c == b'-' then b'+' else if c == b'_' then b'/' else c

abbrev is_nil : List ℕ → Bool
is_nil [] = true
is_nil (x ∷ xs) = false

-- replace(/=+$/u, "")
strip_padding : List ℕ → List ℕ
strip_padding [] = []
strip_padding (c ∷ cs) =
    let rest = strip_padding cs in if c == b'=' && is_nil rest then [] else c ∷ rest

-- padEnd(Math.ceil(length / 4) * 4, "=")
pad : List ℕ → List ℕ
pad [] = []
pad (a ∷ []) = a ∷ b'=' ∷ b'=' ∷ b'=' ∷ []
pad (a ∷ b ∷ []) = a ∷ b ∷ b'=' ∷ b'=' ∷ []
pad (a ∷ b ∷ c ∷ []) = a ∷ b ∷ c ∷ b'=' ∷ []
pad (a ∷ b ∷ c ∷ d ∷ rest) = a ∷ b ∷ c ∷ d ∷ pad rest

unfoldable pub to_base64_url : List ℕ → List ℕ
unfolding btoa url_letter strip_padding
to_base64_url bytes = strip_padding (map url_letter (btoa bytes))

-- `none` where `atob` throws.
unfoldable pub from_base64_url : List ℕ → Option (List ℕ)
unfolding atob plain_letter pad
from_base64_url value = atob (pad (map plain_letter value))
