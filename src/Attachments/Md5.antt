-- ===== src/Attachments/Md5.antt =====
-- apps/worker/src/modules/attachments/file-catalog.ts: the class Md5, and md5Hex. Words are numbers
-- below 2 ^ 32, bytes numbers below 256. The table of 64 constants, from the sine, is a parameter.
-- `pending` holds the bytes that await a block; what the buffer has behind them is never read.
pub mod Chunks
pub mod Rfc
use Prim.Native.Nat.{bit_and, bit_or, bit_xor}
use uni_mailbox.Prelude.{
  ℕ, zero, suc, ◌+◌, ◌-◌, ◌*◌, ◌/◌, ◌%◌, ◌^◌, min, Bool, true, false, List, [], ◌∷◌, ◌++◌, ltb,
  ◌==◌, if◌then◌else◌, length, take, drop, replicate,
}
use uni_mailbox.Domain.{Result, ok, err, ◌>>=◌, ◌>>◌, Thrown, other, guard}

-- `list[index] ?? 0`
abbrev word_at : ℕ → List ℕ → ℕ
word_at n [] = 0
word_at zero (x ∷ xs) = x
word_at (suc n) (x ∷ xs) = word_at n xs

abbrev shifts : List ℕ
shifts =
    7 ∷ 12 ∷ 17 ∷ 22 ∷ 7 ∷ 12 ∷ 17 ∷ 22 ∷ 7 ∷ 12 ∷ 17 ∷ 22 ∷ 7 ∷ 12 ∷ 17 ∷ 22 ∷ 5 ∷ 9 ∷ 14 ∷ 20 ∷ 5
    ∷ 9 ∷ 14 ∷ 20 ∷ 5 ∷ 9 ∷ 14 ∷ 20 ∷ 5 ∷ 9 ∷ 14 ∷ 20 ∷ 4 ∷ 11 ∷ 16 ∷ 23 ∷ 4 ∷ 11 ∷ 16 ∷ 23 ∷ 4 ∷ 11
    ∷ 16 ∷ 23 ∷ 4 ∷ 11 ∷ 16 ∷ 23 ∷ 6 ∷ 10 ∷ 15 ∷ 21 ∷ 6 ∷ 10 ∷ 15 ∷ 21 ∷ 6 ∷ 10 ∷ 15 ∷ 21 ∷ 6 ∷ 10
    ∷ 15 ∷ 21 ∷ []

-- `~word`, as an unsigned word
abbrev complement : ℕ → ℕ
complement word = 2 ^ 32 - 1 - word

rotate_left : (value bits : ℕ) → ℕ
rotate_left value bits = bit_or (value * 2 ^ bits % 2 ^ 32) (value / 2 ^ (32 - bits))

pub record Words : Type 0 where
  pub a : ℕ
  pub b : ℕ
  pub c : ℕ
  pub d : ℕ

-- getUint32(…, true) and setUint32(…, true)
abbrev pub word_of : List ℕ → ℕ
word_of bytes =
    word_at 0 bytes + word_at 1 bytes * 2 ^ 8 + word_at 2 bytes * 2 ^ 16 + word_at 3 bytes * 2 ^ 24

abbrev pub bytes_of : ℕ → List ℕ
bytes_of word = word % 256 ∷ word / 2 ^ 8 % 256 ∷ word / 2 ^ 16 % 256 ∷ word / 2 ^ 24 % 256 ∷ []

mixed : ℕ → Words → ℕ
mixed index w =
    if ltb index 16
    then bit_or (bit_and w.b w.c) (bit_and (complement w.b) w.d)
    else if ltb index 32
    then bit_or (bit_and w.d w.b) (bit_and (complement w.d) w.c)
    else if ltb index 48
    then bit_xor (bit_xor w.b w.c) w.d
    else bit_xor w.c (bit_or w.b (complement w.d))

word_index : ℕ → ℕ
word_index index =
    if ltb index 16
    then index
    else if ltb index 32
    then (5 * index + 1) % 16
    else if ltb index 48
    then (3 * index + 5) % 16
    else 7 * index % 16

module _ (constants : ℕ → ℕ) where
  round : (block : List ℕ) (index : ℕ) → Words → Words
  unfolding mixed word_index rotate_left
  round block index w = record {
    a = w.d;
    b =
        (w.b
          + rotate_left
              ((w.a + mixed index w + constants index + word_of (drop (word_index index * 4) block))
                % 2 ^ 32)
              (word_at index shifts))
        % 2 ^ 32;
    c = w.b;
    d = w.c;
  }

  -- The loop over the indices from `64 - left` to 63.
  rounds : (left : ℕ) (block : List ℕ) → Words → Words
  unfolding round
  rounds zero block w = w
  rounds (suc left) block w = rounds left block (round block (64 - suc left) w)

  unfoldable pub transform : (block : List ℕ) → Words → Words
  unfolding rounds
  transform block w =
      let r = rounds 64 block w in
      record {
        a = (w.a + r.a) % 2 ^ 32;
        b = (w.b + r.b) % 2 ^ 32;
        c = (w.c + r.c) % 2 ^ 32;
        d = (w.d + r.d) % 2 ^ 32;
      }

abbrev pub initial_words : Words
initial_words = record { a = 0x67452301; b = 0xefcdab89; c = 0x98badcfe; d = 0x10325476 }

pub record Md5 : Type 0 where
  pub state : Words
  pub pending : List ℕ
  pub byte_length : ℕ
  pub finished : Bool

abbrev pub new_md5 : Md5
new_md5 = record { state = initial_words; pending = []; byte_length = 0; finished = false }

hex_digit : ℕ → ℕ
hex_digit v = if ltb v 10 then v + 48 else v + 87

-- byte.toString(16).padStart(2, "0"), joined
unfoldable pub hex_text : List ℕ → List ℕ
unfolding hex_digit
hex_text [] = []
hex_text (byte ∷ bytes) = hex_digit (byte / 16) ∷ hex_digit (byte % 16) ∷ hex_text bytes

abbrev pub output : Words → List ℕ
output w = hex_text (bytes_of w.a ++ bytes_of w.b ++ bytes_of w.c ++ bytes_of w.d)

module _ (constants : ℕ → ℕ) where
  -- One turn of the loop of `update`.
  abbrev pub pend : (chunk : List ℕ) → Md5 → Md5
  pend chunk m =
      let filled = m.pending ++ chunk in
      if length filled == 64
      then record m { state = transform constants filled m.state; pending = [] }
      else record m { pending = filled }

  -- The loop of `update`. A turn takes a byte at least, so that their number is fuel enough.
  unfoldable pub absorb : (fuel : ℕ) → (bytes : List ℕ) → Md5 → Md5
  absorb zero bytes m = m
  absorb (suc fuel) [] m = m
  absorb (suc fuel) (byte ∷ bytes) m =
      let size = min (64 - length m.pending) (length (byte ∷ bytes)) in
      absorb fuel (drop size (byte ∷ bytes)) (pend (take size (byte ∷ bytes)) m)

  unfoldable pub update : (bytes : List ℕ) → Md5 → Result Md5
  update bytes m =
      if m.finished
      then err other
      else ok
          (absorb (length bytes) bytes (record m { byte_length = m.byte_length + length bytes }))

  unfoldable pub padding : Md5 → List ℕ
  padding m =
      let bit_length = m.byte_length * 8 in
      let padding_length =
        (if ltb (length m.pending) 56 then 56 - length m.pending else 120 - length m.pending) in
      (128 ∷ replicate (padding_length - 1) 0)
      ++ (bytes_of (bit_length % 2 ^ 32) ++ bytes_of (bit_length / 2 ^ 32 % 2 ^ 32))

  unfoldable pub hex : Md5 → Result (List ℕ)
  hex m = do
    guard (if m.finished then false else true) other
    after ← update (padding m) m
    ok (output after.state)

  unfoldable pub update_each : List (List ℕ) → Md5 → Result Md5
  update_each [] m = ok m
  update_each (chunk ∷ chunks) m = do after ← update chunk m; update_each chunks after

  unfoldable pub md5_hex : List (List ℕ) → Result (List ℕ)
  md5_hex chunks = do m ← update_each chunks new_md5; hex m
