-- ===== src/Attachments/Md5/Rfc.antt =====
-- RFC 1321: the operations on a block and the text of the digest, as the RFC gives them. T, the table of
-- the sine, stays a parameter: T i is floor(2 ^ 32 * abs(sin(i + 1))).
use Prim.Native.Nat.{bit_and, bit_or, bit_xor}
use uni_mailbox.Prelude.{
  All, and_left, and_right, Bool-cases, inl, inr, subst, sym, ℕ, zero, suc, ◌+◌, ◌-◌, ◌*◌, ◌/◌, ◌%◌,
  ◌^◌, ◌≤◌, ◌<◌, Bool, true, List, [], ◌∷◌, ◌++◌, drop, ltb, ◌==◌, ==_eq, ◌&&◌, if◌then◌else◌, ◌≡◌,
  refl, ap, ◌∙◌, arith,
}
use uni_mailbox.Domain.{codes}
use uni_mailbox.Attachments.Md5.{
  word_at, shifts, rotate_left, Words, word_of, bytes_of, mixed, word_index, round, rounds,
  transform, hex_digit, hex_text, output,
}

abbrev nth : (n : ℕ) → List ℕ → ℕ
nth n [] = 0
nth zero (x ∷ xs) = x
nth (suc n) (x ∷ xs) = nth n xs

abbrev negated : ℕ → ℕ
negated x = 4294967295 - x

-- 3.4: the auxiliary functions.
abbrev aux_f : (x y z : ℕ) → ℕ
aux_f x y z = bit_or (bit_and x y) (bit_and (negated x) z)

abbrev aux_g : (x y z : ℕ) → ℕ
aux_g x y z = bit_or (bit_and z x) (bit_and (negated z) y)

abbrev aux_h : (x y z : ℕ) → ℕ
aux_h x y z = bit_xor (bit_xor x y) z

abbrev aux_i : (x y z : ℕ) → ℕ
aux_i x y z = bit_xor y (bit_or x (negated z))

-- The circular shift of a word by s bits.
abbrev circular : (word s : ℕ) → ℕ
circular word s = bit_or (word * 2 ^ s % 4294967296) (word / 2 ^ (32 - s))

-- Word k of the block, the low byte first.
abbrev word : (k : ℕ) (block : List ℕ) → ℕ
word k block =
    nth 0 (drop (k * 4) block)
    + nth 1 (drop (k * 4) block) * 256
    + nth 2 (drop (k * 4) block) * 65536
    + nth 3 (drop (k * 4) block) * 16777216

-- A test that is passed below a bound.
all_below : (ℕ → Bool) → ℕ → Bool
all_below p zero = true
all_below p (suc n) = p n && all_below p n

all_below-at : (p : ℕ → Bool) (n i : ℕ) → all_below p n ≡ true → i < n → p i ≡ true
unfolding all_below
all_below-at p zero i h l = absurd (omega (arith, l))
all_below-at p (suc n) i h l = elim (Bool-cases (i == n)) [
  | inl e ↦ subst (λ k. p k ≡ true) (sym (==_eq i n e)) (and_left (p n) (all_below p n) h)
  | inr e ↦ all_below-at p n i (and_right (p n) (all_below p n) h) (ground (arith, l, e))
]

-- 3.5: the words in order, the low byte of each first, two hexadecimal digits to a byte.
abbrev digits : List ℕ
digits = codes "0123456789abcdef"

abbrev pub bytes_text : List ℕ → List ℕ
bytes_text [] = []
bytes_text (byte ∷ bytes) = nth (byte / 16) digits ∷ nth (byte % 16) digits ∷ bytes_text bytes

abbrev four_bytes : ℕ → List ℕ
four_bytes x = x % 256 ∷ x / 256 % 256 ∷ x / 65536 % 256 ∷ x / 16777216 % 256 ∷ []

abbrev pub rfc_text : Words → List ℕ
rfc_text w = bytes_text (four_bytes w.a ++ four_bytes w.b ++ four_bytes w.c ++ four_bytes w.d)

digit-eq : (v : ℕ) → v < 16 → hex_digit v ≡ nth v digits
unfolding hex_digit all_below
digit-eq v l =
    ==_eq (hex_digit v) (nth v digits) (all_below-at (λ n. hex_digit n == nth n digits) 16 v refl l)

hex_text-bytes : (bytes : List ℕ) → All (λ b. b < 256) bytes → hex_text bytes ≡ bytes_text bytes
unfolding hex_text
hex_text-bytes [] h = refl
hex_text-bytes (b ∷ bytes) (hb, h) =
    rw
      (
        digit-eq (b / 16) (omega (arith, hb)),
        digit-eq (b % 16) (omega arith),
        hex_text-bytes bytes h,
      )
      refl

bytes_of-All :
    (x : ℕ) (rest : List ℕ) → All (λ b. b < 256) rest → All (λ b. b < 256) (bytes_of x ++ rest)
bytes_of-All x rest h = (omega arith, (omega arith, (omega arith, (omega arith, h))))

pub output-eq-rfc_text : (w : Words) → output w ≡ rfc_text w
output-eq-rfc_text w =
    hex_text-bytes (bytes_of w.a ++ bytes_of w.b ++ bytes_of w.c ++ bytes_of w.d) (
      bytes_of-All w.a (bytes_of w.b ++ bytes_of w.c ++ bytes_of w.d) (
        bytes_of-All w.b (bytes_of w.c ++ bytes_of w.d) (
          bytes_of-All w.c (bytes_of w.d)
            (omega arith, (omega arith, (omega arith, (omega arith, tt)))))))

module _ (T : ℕ → ℕ) where
  -- `a = b + ((a + f(b,c,d) + X[k] + T[i]) <<< s)`, behind which the words change their places.
  abbrev operation : (f : ℕ → ℕ → ℕ → ℕ) (k s i : ℕ) (block : List ℕ) → Words → Words
  operation f k s i block w = record {
    a = w.d;
    b = (w.b + circular ((w.a + f w.b w.c w.d + T i + word k block) % 4294967296) s) % 4294967296;
    c = w.b;
    d = w.c;
  }

  -- The four rounds of sixteen operations.
  abbrev step : (i : ℕ) (block : List ℕ) → Words → Words
  step i block w =
      if ltb i 16
      then operation aux_f i (nth (i % 4) (7 ∷ 12 ∷ 17 ∷ 22 ∷ [])) i block w
      else if ltb i 32
      then operation aux_g ((5 * i + 1) % 16) (nth (i % 4) (5 ∷ 9 ∷ 14 ∷ 20 ∷ [])) i block w
      else if ltb i 48
      then operation aux_h ((3 * i + 5) % 16) (nth (i % 4) (4 ∷ 11 ∷ 16 ∷ 23 ∷ [])) i block w
      else operation aux_i (7 * i % 16) (nth (i % 4) (6 ∷ 10 ∷ 15 ∷ 21 ∷ [])) i block w

  rfc_steps : (left : ℕ) (block : List ℕ) → Words → Words
  rfc_steps zero block w = w
  rfc_steps (suc left) block w = rfc_steps left block (step (64 - suc left) block w)

  pub rfc_block : (block : List ℕ) → Words → Words
  rfc_block block w =
      let r = rfc_steps 64 block w in
      record {
        a = (w.a + r.a) % 4294967296;
        b = (w.b + r.b) % 4294967296;
        c = (w.c + r.c) % 4294967296;
        d = (w.d + r.d) % 4294967296;
      }

  shift_of : ℕ → ℕ
  shift_of i =
      if ltb i 16
      then nth (i % 4) (7 ∷ 12 ∷ 17 ∷ 22 ∷ [])
      else if ltb i 32
      then nth (i % 4) (5 ∷ 9 ∷ 14 ∷ 20 ∷ [])
      else if ltb i 48
      then nth (i % 4) (4 ∷ 11 ∷ 16 ∷ 23 ∷ [])
      else nth (i % 4) (6 ∷ 10 ∷ 15 ∷ 21 ∷ [])

  word_at-nth : (n : ℕ) (xs : List ℕ) → word_at n xs ≡ nth n xs
  word_at-nth n [] = refl
  word_at-nth zero (x ∷ xs) = refl
  word_at-nth (suc n) (x ∷ xs) = word_at-nth n xs

  agree-at : (i : ℕ) → i < 64 → word_at i shifts ≡ shift_of i
  unfolding all_below shift_of
  agree-at i l =
      ==_eq (word_at i shifts) (shift_of i)
        (all_below-at (λ n. word_at n shifts == shift_of n) 64 i refl l)

  -- An operation of these values.
  assemble : (mix text s i : ℕ) → Words → Words
  assemble mix text s i w = record {
    a = w.d;
    b = (w.b + circular ((w.a + mix + T i + text) % 4294967296) s) % 4294967296;
    c = w.b;
    d = w.c;
  }

  word_of-eq : (k : ℕ) (block : List ℕ) → word_of (drop (k * 4) block) ≡ word k block
  word_of-eq k block =
      let at = λ (n : ℕ). word_at-nth n (drop (k * 4) block) in
      omega (arith, at 0, at 1, at 2, at 3)

  round-assemble :
      (block : List ℕ) (i : ℕ) (w : Words)
      → round T block i w
        ≡ assemble (mixed i w) (word_of (drop (word_index i * 4) block)) (word_at i shifts) i w
  unfolding round assemble rotate_left
  round-assemble block i w = refl

  -- The round of the code is the operation with these values.
  round-operation :
      (f : ℕ → ℕ → ℕ → ℕ) (k s i : ℕ) (block : List ℕ) (w : Words)
      → mixed i w ≡ f w.b w.c w.d
      → word_index i ≡ k
      → word_at i shifts ≡ s
      → round T block i w ≡ operation f k s i block w
  unfolding assemble
  round-operation f k s i block w mix index shift =
      round-assemble block i w
      ∙ ap (λ m. assemble m (word_of (drop (word_index i * 4) block)) (word_at i shifts) i w) mix
      ∙ ap (λ n. assemble (f w.b w.c w.d) (word_of (drop (n * 4) block)) (word_at i shifts) i w)
          index
      ∙ ap (λ x. assemble (f w.b w.c w.d) x (word_at i shifts) i w) (word_of-eq k block)
      ∙ ap (λ n. assemble (f w.b w.c w.d) (word k block) n i w) shift

  round-eq-step : (block : List ℕ) (i : ℕ) (w : Words) → i < 64 → round T block i w ≡ step i block w
  unfolding mixed word_index shift_of
  round-eq-step block i w l =
      let s = agree-at i l in
      elim (Bool-cases (ltb i 16)) [
        | inl e ↦ rw e (round-operation aux_f _ _ i block w (rw e refl) (rw e refl) (rw e at s))
        | inr e ↦ elim (Bool-cases (ltb i 32)) [
          | inl f ↦
              rw (e, f)
                (round-operation aux_g _ _ i block w (rw (e, f) refl) (rw (e, f) refl)
                  (rw (e, f) at s))
          | inr f ↦ elim (Bool-cases (ltb i 48)) [
            | inl g ↦
                rw (e, f, g)
                  (round-operation aux_h _ _ i block w (rw (e, f, g) refl) (rw (e, f, g) refl)
                    (rw (e, f, g) at s))
            | inr g ↦
                rw (e, f, g)
                  (round-operation aux_i _ _ i block w (rw (e, f, g) refl) (rw (e, f, g) refl)
                    (rw (e, f, g) at s))
          ]
        ]
      ]

  rounds-eq-rfc_steps :
      (left : ℕ) (block : List ℕ) (w : Words)
      → left ≤ 64
      → rounds T left block w ≡ rfc_steps left block w
  unfolding rounds rfc_steps
  rounds-eq-rfc_steps zero block w l = refl
  rounds-eq-rfc_steps (suc left) block w l =
      ap (rounds T left block) (round-eq-step block (64 - suc left) w (omega (arith, l)))
      ∙ rounds-eq-rfc_steps left block (step (64 - suc left) block w) (omega (arith, l))

  -- The transformation of a block is the RFC's.
  pub transform-eq-rfc_block :
      (block : List ℕ) (w : Words) → transform T block w ≡ rfc_block block w
  unfolding transform rfc_block
  transform-eq-rfc_block block w =
      ap
        (λ (r : Words). record {
          a = (w.a + r.a) % 4294967296;
          b = (w.b + r.b) % 4294967296;
          c = (w.c + r.c) % 4294967296;
          d = (w.d + r.d) % 4294967296;
        })
        (rounds-eq-rfc_steps 64 block w (omega arith))
