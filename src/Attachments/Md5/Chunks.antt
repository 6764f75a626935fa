-- ===== src/Attachments/Md5/Chunks.antt =====
-- md5Hex against RFC 1321: pad the whole text, cut it into blocks, take them one after the other.
use uni_mailbox.Prelude.{
  ℕ, zero, suc, ◌+◌, ◌-◌, ◌*◌, ◌/◌, ◌%◌, ◌^◌, ◌≤◌, ◌<◌, min, true, false, List, [], ◌∷◌, ◌++◌, ltb,
  ◌==◌, if◌then◌else◌, length, take, drop, replicate, flatten, append_assoc, take-drop, length-take,
  length-drop, take_append, drop_append, length-replicate, length-append, ◌≡◌, refl, sym, ap, ◌∙◌,
  arith, Bool-cases, inl, inr, ==_eq, subst,
}
use uni_mailbox.Domain.{ok}
use uni_mailbox.Attachments.Md5.Rfc.{
  rfc_block, rfc_text, transform-eq-rfc_block, output-eq-rfc_text,
}
use uni_mailbox.Attachments.Md5.{
  Words, transform, initial_words, Md5, new_md5, pend, absorb, update, padding, hex, update_each,
  md5_hex, output, bytes_of,
}

-- The `count` low bytes of a number, the lowest first.
abbrev pub le_bytes : (count : ℕ) → ℕ → List ℕ
le_bytes zero n = []
le_bytes (suc count) n = n % 256 ∷ le_bytes count (n / 256)

-- 3.1 and 3.2: one bit, zeros up to 56 modulo 64, and the length in bits in 64 bits.
abbrev pub tail_of : (byte_length : ℕ) → List ℕ
tail_of n = (128 ∷ replicate ((119 - n % 64) % 64) 0) ++ le_bytes 8 (n * 8)

abbrev pub padded : List ℕ → List ℕ
padded bytes = bytes ++ tail_of (length bytes)

module _ (constants : ℕ → ℕ) where
  -- The blocks in their order, each by the transformation of the code.
  digest_blocks : (count : ℕ) → List ℕ → Words → Words
  digest_blocks zero bytes w = w
  digest_blocks (suc count) bytes w =
      digest_blocks count (drop 64 bytes) (transform constants (take 64 bytes) w)

  -- 3.4: the blocks, in their order.
  unfoldable pub rfc_blocks : (count : ℕ) → List ℕ → Words → Words
  rfc_blocks zero bytes w = w
  rfc_blocks (suc count) bytes w =
      rfc_blocks count (drop 64 bytes) (rfc_block constants (take 64 bytes) w)

  abbrev pub rfc_md5 : List ℕ → List ℕ
  rfc_md5 bytes = rfc_text (
      rfc_blocks (length (padded bytes) / 64) (padded bytes)
        (record { a = 0x67452301; b = 0xefcdab89; c = 0x98badcfe; d = 0x10325476 }))

  digest_blocks-eq-rfc_blocks :
      (count : ℕ) (bytes : List ℕ) (w : Words)
      → digest_blocks count bytes w ≡ rfc_blocks count bytes w
  unfolding digest_blocks rfc_blocks
  digest_blocks-eq-rfc_blocks zero bytes w = refl
  digest_blocks-eq-rfc_blocks (suc count) bytes w =
      ap (digest_blocks count (drop 64 bytes)) (transform-eq-rfc_block constants (take 64 bytes) w)
      ∙ digest_blocks-eq-rfc_blocks count (drop 64 bytes) (rfc_block constants (take 64 bytes) w)

  -- The words and the bytes that wait, once some more wait: a block that is full is taken.
  settle : Words → List ℕ → Words × List ℕ
  settle w p = if length p == 64 then (transform constants p w, []) else (w, p)

  settle_short : (w : Words) (p : List ℕ) → length p < 64 → settle w p ≡ (w, p)
  unfolding settle
  settle_short w p h = let e : (length p == 64) ≡ false = ground arith in rw e refl

  settle_full :
      (w : Words) (p : List ℕ) → length p ≡ 64 → settle w p ≡ (transform constants p w, [])
  unfolding settle
  settle_full w p h = let e : (length p == 64) ≡ true = ground arith in rw e refl

  length-settle : (w : Words) (p : List ℕ) → length p ≤ 64 → length (settle w p).1 ≡ length p % 64
  length-settle w p h = elim (Bool-cases (length p == 64)) [
    | inl e ↦
        let full = settle_full w p (==_eq (length p) 64 e) in
        rw full (omega (arith, ==_eq (length p) 64 e))
    | inr e ↦ let l : length p < 64 = ground arith in rw (settle_short w p l) (omega arith)
  ]

  -- A byte at a time.
  feed : List ℕ → Words × List ℕ → Words × List ℕ
  feed [] s = s
  feed (x ∷ xs) (w, p) = feed xs (settle w (p ++ x ∷ []))

  feed-append : (xs ys : List ℕ) (s : Words × List ℕ) → feed (xs ++ ys) s ≡ feed ys (feed xs s)
  unfolding feed
  feed-append [] ys s = refl
  feed-append (x ∷ xs) ys (w, p) = feed-append xs ys (settle w (p ++ x ∷ []))

  -- A piece that fits is taken at once.
  feed-settle :
      (xs : List ℕ) (x : ℕ) (w : Words) (p : List ℕ)
      → length p + length (x ∷ xs) ≤ 64
      → feed (x ∷ xs) (w, p) ≡ settle w (p ++ x ∷ xs)
  unfolding feed
  feed-settle [] x w p h = refl
  feed-settle (y ∷ ys) x w p h =
      let l = length-append p (x ∷ []) in
      rw
        (
          settle_short w (p ++ x ∷ []) (omega arith),
          feed-settle ys y w (p ++ x ∷ []) (omega arith),
          append_assoc p (x ∷ []) (y ∷ ys),
        )
        refl

  length-feed :
      (xs : List ℕ) (w : Words) (p : List ℕ)
      → length p < 64
      → length (feed xs (w, p)).1 ≡ (length p + length xs) % 64
  unfolding feed
  length-feed [] w p h = omega arith
  length-feed (x ∷ xs) w p h =
      let s = settle w (p ++ x ∷ []) in
      let l = length-append p (x ∷ []) in
      let k = length-settle w (p ++ x ∷ []) (omega arith) in
      length-feed xs s.0 s.1 (omega arith) ∙ omega arith

  -- The object with other words and pending bytes.
  abbrev put : Md5 → Words × List ℕ → Md5
  put m s = record m { state = s.0; pending = s.1 }

  pend-settle :
      (chunk : List ℕ) (m : Md5)
      → pend constants chunk m ≡ put m (settle m.state (m.pending ++ chunk))
  unfolding settle
  pend-settle chunk m = elim (Bool-cases (length (m.pending ++ chunk) == 64)) [
    | inl e ↦ rw e refl
    | inr e ↦ rw e refl
  ]

  abbrev Fed : ℕ → Type 0
  Fed fuel =
      (bytes : List ℕ) (m : Md5)
      → length bytes ≤ fuel
      → length m.pending < 64
      → absorb constants fuel bytes m ≡ put m (feed bytes (m.state, m.pending))

  absorb_turn :
      (size fuel x : ℕ) (xs : List ℕ) (m : Md5)
      → Fed fuel
      → 1 ≤ size
      → size ≤ suc (length xs)
      → length m.pending + size ≤ 64
      → length xs ≤ fuel
      → absorb constants fuel (drop size (x ∷ xs)) (pend constants (take size (x ∷ xs)) m)
        ≡ put m (feed (x ∷ xs) (m.state, m.pending))
  absorb_turn zero fuel x xs m ih some_taken h l f = absurd (omega arith)
  absorb_turn (suc k) fuel x xs m ih some_taken h l f =
      let q = m.pending ++ x ∷ take k xs in
      let s = settle m.state q in
      let t = length-take k xs in
      let r = length-drop k xs in
      let lq = length-append m.pending (x ∷ take k xs) in
      let ls = length-settle m.state q (omega arith) in
      let first = feed-settle (take k xs) x m.state m.pending (omega arith) in
      let whole = feed-append (x ∷ take k xs) (drop k xs) (m.state, m.pending) in
      ap (absorb constants fuel (drop k xs)) (pend-settle (x ∷ take k xs) m)
      ∙ ih (drop k xs) (put m s) (omega arith) (omega arith)
      ∙ ap (λ z. put m (feed (drop k xs) z)) (sym first)
      ∙ ap (put m) (sym whole)
      ∙ ap (λ z. put m (feed (x ∷ z) (m.state, m.pending))) (take-drop k xs)

  -- The loop of `update` is its bytes, one by one.
  absorb-eq-feed : (fuel : ℕ) → Fed fuel
  unfolding absorb feed
  absorb-eq-feed zero [] m h l = refl
  absorb-eq-feed zero (x ∷ xs) m h l = absurd (omega arith)
  absorb-eq-feed (suc fuel) [] m h l = refl
  absorb-eq-feed (suc fuel) (x ∷ xs) m h l =
      absorb_turn (min (64 - length m.pending) (suc (length xs))) fuel x xs m (absorb-eq-feed fuel)
        (omega arith) (omega arith) (omega arith) (omega arith)

  take_full : (q xs : List ℕ) → length q ≡ 64 → take 64 (q ++ xs) ≡ q
  take_full q xs e = subst (λ n. take n (q ++ xs) ≡ q) e (take_append q xs)

  drop_full : (q xs : List ℕ) → length q ≡ 64 → drop 64 (q ++ xs) ≡ xs
  drop_full q xs e = subst (λ n. drop n (q ++ xs) ≡ xs) e (drop_append q xs)

  -- Bytes that fill whole blocks.
  feed-eq-digest_blocks :
      (count : ℕ) (xs : List ℕ) (w : Words) (p : List ℕ)
      → length p < 64
      → length p + length xs ≡ 64 * count
      → (feed xs (w, p)).0 ≡ digest_blocks count (p ++ xs) w
  unfolding feed digest_blocks
  feed-eq-digest_blocks zero [] w p l e = refl
  feed-eq-digest_blocks (suc count) [] w p l e = absurd (omega arith)
  feed-eq-digest_blocks zero (x ∷ xs) w p l e = absurd (omega arith)
  feed-eq-digest_blocks (suc count) (x ∷ xs) w p l e =
      elim (Bool-cases (length (p ++ x ∷ []) == 64)) [
        | inl full ↦
            let q = ==_eq (length (p ++ x ∷ [])) 64 full in
            let lp = length-append p (x ∷ []) in
            let ih =
              feed-eq-digest_blocks count xs (transform constants (p ++ x ∷ []) w) [] (omega arith)
                (omega arith) in
            ap (λ z. (feed xs z).0) (settle_full w (p ++ x ∷ []) q)
            ∙ ih
            ∙ sym (
                rw
                  (
                    sym (append_assoc p (x ∷ []) xs),
                    take_full (p ++ x ∷ []) xs q,
                    drop_full (p ++ x ∷ []) xs q,
                  )
                  refl)
        | inr short ↦
            let lp = length-append p (x ∷ []) in
            let small : length (p ++ x ∷ []) < 64 = ground arith in
            let ih = feed-eq-digest_blocks (suc count) xs w (p ++ x ∷ []) small (omega arith) in
            ap (λ z. (feed xs z).0) (settle_short w (p ++ x ∷ []) small)
            ∙ ih
            ∙ ap (λ z. digest_blocks (suc count) z w) (append_assoc p (x ∷ []) xs)
      ]

  -- What `update` leaves of an object that has not been finalized.
  abbrev taken : List ℕ → Md5 → Md5
  taken bytes m = record (put m (feed bytes (m.state, m.pending))) {
    byte_length = m.byte_length + length bytes;
  }

  update-taken :
      (bytes : List ℕ) (m : Md5)
      → m.finished ≡ false
      → length m.pending < 64
      → update constants bytes m ≡ ok (taken bytes m)
  unfolding update
  update-taken bytes m f l =
      rw
        (
          absorb-eq-feed (length bytes) bytes
              (record m { byte_length = m.byte_length + length bytes }) (omega arith) l,
          f,
        )
        refl

  update_each-taken :
      (chunks : List (List ℕ)) (m : Md5)
      → m.finished ≡ false
      → length m.pending < 64
      → update_each constants chunks m ≡ ok (taken (flatten chunks) m)
  unfolding update_each feed
  update_each-taken [] m f l = ap (λ n. ok (record m { byte_length = n })) (omega arith)
  update_each-taken (chunk ∷ chunks) m f l =
      let next = taken chunk m in
      let k = length-feed chunk m.state m.pending l in
      let split = feed-append chunk (flatten chunks) (m.state, m.pending) in
      let count = length-append chunk (flatten chunks) in
      rw (update-taken chunk m f l, update_each-taken chunks next f (omega arith))
        (ap
            (λ z.
              ok (record (put m z) { byte_length = next.byte_length + length (flatten chunks) }))
            (sym split)
          ∙ ap
              (λ n. ok (record (put m (feed (chunk ++ flatten chunks) (m.state, m.pending))) {
                byte_length = n;
              }))
              (omega arith))

  blocks_fit : (text : List ℕ) → 0 + length (padded text) ≡ 64 * (length (padded text) / 64)
  blocks_fit text =
      let whole = length-append text (tail_of (length text)) in
      let tail =
        (length-append (128 ∷ replicate ((119 - length text % 64) % 64) 0)
          (le_bytes 8 (length text * 8))) in
      let zeros = length-replicate {A = ℕ} ((119 - length text % 64) % 64) 0 in omega arith

  le_bytes-eq : (n : ℕ) → le_bytes 8 n ≡ bytes_of (n % 2 ^ 32) ++ bytes_of (n / 2 ^ 32 % 2 ^ 32)
  le_bytes-eq n = ground arith

  padding-eq :
      (m : Md5)
      → length m.pending ≡ m.byte_length % 64
      → padding constants m ≡ tail_of m.byte_length
  unfolding padding
  padding-eq m e =
      let k : (if ltb (length m.pending) 56 then 56 - length m.pending else 120 - length m.pending)
            - 1
          ≡ (119 - m.byte_length % 64) % 64 =
        ground (arith, e) in
      ap
        (λ n.
          (128 ∷ replicate n 0)
          ++ (bytes_of (m.byte_length * 8 % 2 ^ 32)
              ++ bytes_of (m.byte_length * 8 / 2 ^ 32 % 2 ^ 32)))
        k
      ∙ ap (λ z. (128 ∷ replicate ((119 - m.byte_length % 64) % 64) 0) ++ z)
          (sym (le_bytes-eq (m.byte_length * 8)))

  hex-eq-feed :
      (m : Md5)
      → m.finished ≡ false
      → length m.pending < 64
      → hex constants m ≡ ok (output (feed (padding constants m) (m.state, m.pending)).0)
  unfolding hex
  hex-eq-feed m f l = rw (update-taken (padding constants m) m f l, f) refl

  -- However its text is cut into chunks, md5Hex answers what RFC 1321 says of the whole text: it is padded
  -- with its length, cut into blocks, the blocks are taken in their order by the four rounds of the RFC,
  -- and the words that come of it are written low byte first. The table of the sine is a parameter.
  pub md5_hex-eq-rfc_md5 :
      (chunks : List (List ℕ)) → md5_hex constants chunks ≡ ok (rfc_md5 (flatten chunks))
  unfolding md5_hex
  md5_hex-eq-rfc_md5 chunks =
      let text = flatten chunks in
      let m = taken text new_md5 in
      let l = length-feed text initial_words [] (omega arith) in
      rw (update_each-taken chunks new_md5 refl (omega arith)) (
        hex-eq-feed m refl (omega arith)
        ∙ ap (λ z. ok (output (feed z (m.state, m.pending)).0)) (padding-eq m (omega arith))
        ∙ ap (λ n. ok (output (feed (tail_of n) (m.state, m.pending)).0)) (omega arith)
        ∙ ap (λ z. ok (output z.0))
            (sym (feed-append text (tail_of (length text)) (initial_words, [])))
        ∙ ap (λ z. ok (output z))
            (feed-eq-digest_blocks (length (padded text) / 64) (padded text) initial_words []
                (omega arith) (blocks_fit text)
              ∙ digest_blocks-eq-rfc_blocks (length (padded text) / 64) (padded text) initial_words)
        ∙ ap ok (
            output-eq-rfc_text
              (rfc_blocks (length (padded text) / 64) (padded text) initial_words)))
