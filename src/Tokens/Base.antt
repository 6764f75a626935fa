-- ===== src/Tokens/Base.antt =====
-- Base64url is undone by its decoder.
use uni_mailbox.Prelude.{
  ℕ, ◌+◌, ◌*◌, ◌/◌, ◌%◌, ◌<◌, false, not, List, [], ◌∷◌, some, map, ◌≡◌, refl, arith, ◌==◌, filter,
  All,
}
use uni_mailbox.Tokens.{
  letter, six_bits, letters, last_letters, three_bytes, is_space, atob, url_letter, plain_letter,
  pad, to_base64_url, from_base64_url,
}

-- What a letter of the alphabet is to the functions that it passes through.
letter_facts :
    (v : ℕ)
    → v < 64
    → (six_bits (plain_letter (url_letter (letter v))) ≡ some v)
      × ((url_letter (letter v) == b'=') ≡ false)
      × (is_space (plain_letter (url_letter (letter v))) ≡ false)
      × ((plain_letter (url_letter (letter v)) == b'=') ≡ false)
      × ((url_letter (letter v) == b'.') ≡ false)
unfolding six_bits plain_letter url_letter letter is_space
letter_facts v h = (ground arith, ground arith, ground arith, ground arith, ground arith)

-- The letter of six bits in a URL.
abbrev url : ℕ → ℕ
url v = url_letter (letter v)

letters_group :
    (p q r s : ℕ) (rest : List ℕ)
    → (s == b'=') ≡ false
    → letters (p ∷ q ∷ r ∷ s ∷ rest)
      ≡ three_bytes (six_bits p) (six_bits q) (six_bits r) (six_bits s) (letters rest)
unfolding letters last_letters
letters_group p q r s [] e = rw e refl
letters_group p q r s (t ∷ rest) e = refl

-- Four letters are decoded by themselves.
from_group :
    (p q r s : ℕ) (rest : List ℕ)
    → p < 64
    → q < 64
    → r < 64
    → s < 64
    → from_base64_url (url p ∷ url q ∷ url r ∷ url s ∷ rest)
      ≡ three_bytes (some p) (some q) (some r) (some s) (from_base64_url rest)
unfolding from_base64_url atob pad
from_group p q r s rest hp hq hr hs =
    let (p1, _, p3, _, _) = letter_facts p hp in
    let (q1, _, q3, _, _) = letter_facts q hq in
    let (r1, _, r3, _, _) = letter_facts r hr in
    let (s1, _, s3, s4, _) = letter_facts s hs in
    rw
      (
        p3,
        q3,
        r3,
        s3,
        letters_group _ _ _ _ (filter (λ c. not (is_space c)) (pad (map plain_letter rest))) s4,
        p1,
        q1,
        r1,
        s1,
      )
      refl

from_two :
    (p q : ℕ)
    → p < 64
    → q < 64
    → from_base64_url (url p ∷ url q ∷ []) ≡ some ((p * 4 + q / 16) ∷ [])
unfolding from_base64_url
from_two p q hp hq =
    let (p1, _, p3, _, _) = letter_facts p hp in
    let (q1, _, q3, _, _) = letter_facts q hq in rw (p3, q3, p1, q1) refl

from_three :
    (p q r : ℕ)
    → p < 64
    → q < 64
    → r < 64
    → from_base64_url (url p ∷ url q ∷ url r ∷ [])
      ≡ some ((p * 4 + q / 16) ∷ (q % 16 * 16 + r / 4) ∷ [])
unfolding from_base64_url
from_three p q r hp hq hr =
    let (p1, _, p3, _, _) = letter_facts p hp in
    let (q1, _, q3, _, _) = letter_facts q hq in
    let (r1, _, r3, r4, _) = letter_facts r hr in rw (p3, q3, r3, r4, p1, q1, r1) refl

-- The encoding of one group, and of what is left over.
to_one : (a : ℕ) → a < 256 → to_base64_url (a ∷ []) ≡ url (a / 4) ∷ url (a % 4 * 16) ∷ []
unfolding to_base64_url
to_one a ha =
    let (_, e, _, _, _) = letter_facts (a / 4) (omega arith) in
    let (_, f, _, _, _) = letter_facts (a % 4 * 16) (omega arith) in rw (e, f) refl

to_two :
    (a b : ℕ)
    → a < 256
    → b < 256
    → to_base64_url (a ∷ b ∷ []) ≡ url (a / 4) ∷ url (a % 4 * 16 + b / 16) ∷ url (b % 16 * 4) ∷ []
unfolding to_base64_url
to_two a b ha hb =
    let (_, e, _, _, _) = letter_facts (a / 4) (omega arith) in
    let (_, f, _, _, _) = letter_facts (a % 4 * 16 + b / 16) (omega arith) in
    let (_, g, _, _, _) = letter_facts (b % 16 * 4) (omega arith) in rw (e, f, g) refl

to_group :
    (a b c : ℕ) (rest : List ℕ)
    → a < 256
    → b < 256
    → c < 256
    → to_base64_url (a ∷ b ∷ c ∷ rest)
      ≡ url (a / 4)
        ∷ url (a % 4 * 16 + b / 16)
        ∷ url (b % 16 * 4 + c / 64)
        ∷ url (c % 64)
        ∷ to_base64_url rest
unfolding to_base64_url
to_group a b c rest ha hb hc =
    let (_, e, _, _, _) = letter_facts (a / 4) (omega arith) in
    let (_, f, _, _, _) = letter_facts (a % 4 * 16 + b / 16) (omega arith) in
    let (_, g, _, _, _) = letter_facts (b % 16 * 4 + c / 64) (omega arith) in
    let (_, k, _, _, _) = letter_facts (c % 64) (omega arith) in rw (e, f, g, k) refl

-- Decoding what was encoded gives the bytes back.
pub from_base64_url-to_base64_url :
    (bytes : List ℕ) → All (λ b. b < 256) bytes → from_base64_url (to_base64_url bytes) ≡ some bytes
unfolding three_bytes
from_base64_url-to_base64_url [] h = unfold to_base64_url from_base64_url in refl
from_base64_url-to_base64_url (a ∷ []) (ha, _) =
    rw (to_one a ha, from_two (a / 4) (a % 4 * 16) (omega arith) (omega arith)) (ground arith)
from_base64_url-to_base64_url (a ∷ b ∷ []) (ha, (hb, _)) =
    rw
      (
        to_two a b ha hb,
        from_three (a / 4) (a % 4 * 16 + b / 16) (b % 16 * 4) (omega arith) (omega arith)
            (omega arith),
      )
      (ground arith)
from_base64_url-to_base64_url (a ∷ b ∷ c ∷ rest) (ha, (hb, (hc, h))) =
    rw
      (
        to_group a b c rest ha hb hc,
        from_group (a / 4) (a % 4 * 16 + b / 16) (b % 16 * 4 + c / 64) (c % 64) (to_base64_url rest)
            (omega arith) (omega arith) (omega arith) (omega arith),
        from_base64_url-to_base64_url rest h,
      )
      (ground arith)

-- A text that is encoded holds no full stop.
pub to_base64_url-All :
    (bytes : List ℕ)
    → All (λ b. b < 256) bytes
    → All (λ c. (c == b'.') ≡ false) (to_base64_url bytes)
to_base64_url-All [] h = unfold to_base64_url in tt
to_base64_url-All (a ∷ []) (ha, _) =
    rw (to_one a ha)
      ((letter_facts (a / 4) (omega arith)).4, ((letter_facts (a % 4 * 16) (omega arith)).4, tt))
to_base64_url-All (a ∷ b ∷ []) (ha, (hb, _)) = rw (to_two a b ha hb) (
  (letter_facts (a / 4) (omega arith)).4,
  (
    (letter_facts (a % 4 * 16 + b / 16) (omega arith)).4,
    ((letter_facts (b % 16 * 4) (omega arith)).4, tt),
  ),
)
to_base64_url-All (a ∷ b ∷ c ∷ rest) (ha, (hb, (hc, h))) = rw (to_group a b c rest ha hb hc) (
  (letter_facts (a / 4) (omega arith)).4,
  (
    (letter_facts (a % 4 * 16 + b / 16) (omega arith)).4,
    (
      (letter_facts (b % 16 * 4 + c / 64) (omega arith)).4,
      ((letter_facts (c % 64) (omega arith)).4, to_base64_url-All rest h),
    ),
  ),
)
