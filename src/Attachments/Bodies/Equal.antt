-- ===== src/Attachments/Bodies/Equal.antt =====
-- bodiesEqual ends, and compares what the streams say and not how they are cut.
use uni_mailbox.Prelude.{
  ℕ, zero, suc, ◌+◌, ◌≤◌, ◌<◌, min, Bool, true, false, ◌&&◌, ◌||◌, not, List, [], ◌∷◌, ◌++◌, some,
  if◌then◌else◌, length, take, drop, filter, flatten, ◌≡◌, refl, sym, ap, ◌∙◌, arith, Bool-cases,
  inl, inr, All, append_assoc, take-drop, length-take, length-drop,
}
use uni_mailbox.Attachments.Bodies.{
  stream, is_empty, body_chunks, same_flag, Reader, open_reader, refill, same_bytes, skip,
  compare_readers, total, bodies_equal,
}

-- A reader by its fields.
abbrev reader : (unread : List ℕ) (chunks : List (List ℕ)) (done : Bool) → Reader
reader unread chunks done = record { unread = unread; chunks = chunks; done = done }

-- What a reader has still to say.
abbrev content : Reader → List ℕ
content r = r.unread ++ flatten r.chunks

abbrev Fits : Reader → Type 0
Fits r = All (λ chunk. is_empty chunk ≡ false) r.chunks × (r.done ≡ true → content r ≡ [])

abbrev flag : Bool → ℕ
flag true = 0
flag false = 1

abbrev measure : Reader → ℕ
measure r = length r.unread + total r.chunks + flag r.done

refill-Fits :
    (u : List ℕ) (cs : List (List ℕ)) (d : Bool)
    → Fits (reader u cs d)
    → Fits (refill (reader u cs d))
unfolding refill
refill-Fits [] [] false h = (tt, λ e. refl)
refill-Fits [] (c ∷ cs) false ((hc, hs), h) = (hs, λ e. absurd (ground (arith, e)))
refill-Fits [] cs true h = h
refill-Fits (x ∷ u) cs d h = h

content-refill :
    (u : List ℕ) (cs : List (List ℕ)) (d : Bool)
    → content (refill (reader u cs d)) ≡ content (reader u cs d)
unfolding refill
content-refill [] [] false = refl
content-refill [] (c ∷ cs) false = refl
content-refill [] cs true = refl
content-refill (x ∷ u) cs d = refl

measure-refill :
    (u : List ℕ) (cs : List (List ℕ)) (d : Bool)
    → measure (refill (reader u cs d)) ≤ measure (reader u cs d)
unfolding refill
measure-refill [] [] false = omega arith
measure-refill [] (c ∷ cs) false = omega arith
measure-refill [] cs true = omega arith
measure-refill (x ∷ u) cs d = omega arith

-- A reader that is not done has something to compare.
abbrev Ready : Reader → Type 0
Ready r = r.done ≡ false → is_empty r.unread ≡ false

refill-Ready :
    (u : List ℕ) (cs : List (List ℕ)) (d : Bool)
    → Fits (reader u cs d)
    → Ready (refill (reader u cs d))
unfolding refill
refill-Ready [] [] false h e = absurd (ground (arith, e))
refill-Ready [] (c ∷ cs) false ((hc, hs), h) e = hc
refill-Ready [] cs true h e = absurd (ground (arith, e))
refill-Ready (x ∷ u) cs d h e = refl

same_bytes-append :
    (xs ys us vs : List ℕ)
    → length xs ≡ length ys
    → same_bytes (xs ++ us) (ys ++ vs) ≡ (same_bytes xs ys && same_bytes us vs)
unfolding same_bytes
same_bytes-append [] [] us vs h = refl
same_bytes-append [] (y ∷ ys) us vs h = absurd (omega arith)
same_bytes-append (x ∷ xs) [] us vs h = absurd (omega arith)
same_bytes-append (x ∷ xs) (y ∷ ys) us vs h = ground (arith, same_bytes-append xs ys us vs)

flatten-filter :
    (reads : List (List ℕ)) → flatten (filter (λ chunk. not (is_empty chunk)) reads) ≡ flatten reads
flatten-filter [] = refl
flatten-filter ([] ∷ reads) = flatten-filter reads
flatten-filter ((x ∷ xs) ∷ reads) = rw (flatten-filter reads) refl

filter_nonempty :
    (reads : List (List ℕ))
    → All (λ chunk. is_empty chunk ≡ false) (filter (λ chunk. not (is_empty chunk)) reads)
filter_nonempty [] = tt
filter_nonempty ([] ∷ reads) = filter_nonempty reads
filter_nonempty ((x ∷ xs) ∷ reads) = (refl, filter_nonempty reads)

abbrev Answers : ℕ → Type 0
Answers fuel =
    (left right : Reader)
    → Fits left
    → Fits right
    → measure left + measure right < fuel
    → compare_readers fuel left right ≡ some (same_bytes (content left) (content right))

whole : (size : ℕ) (r : Reader) → take size r.unread ++ content (skip size r) ≡ content r
whole size r =
    sym (append_assoc (take size r.unread) (drop size r.unread) (flatten r.chunks))
    ∙ ap (λ z. z ++ flatten r.chunks) (take-drop size r.unread)

same_content :
    (size : ℕ) (l r : Reader)
    → length (take size l.unread) ≡ length (take size r.unread)
    → same_bytes (content l) (content r) ≡ (
        same_bytes (take size l.unread) (take size r.unread)
        && same_bytes (content (skip size l)) (content (skip size r)))
same_content size l r e =
    rw⁻¹ (whole size l, whole size r) refl
    ∙ same_bytes-append (take size l.unread) (take size r.unread) (content (skip size l))
        (content (skip size r)) e

skip-Fits : (size : ℕ) (r : Reader) → r.done ≡ false → Fits r → Fits (skip size r)
skip-Fits size r e (h, k) = (h, λ d. absurd (ground (arith, e, d)))

-- A turn in which both have something.
compare_both :
    (size fuel : ℕ) (l r : Reader)
    → Answers fuel
    → Fits l
    → Fits r
    → l.done ≡ false
    → r.done ≡ false
    → 1 ≤ size
    → size ≤ length l.unread
    → size ≤ length r.unread
    → measure l + measure r < suc fuel
    → (if same_bytes (take size l.unread) (take size r.unread)
        then compare_readers fuel (skip size l) (skip size r)
        else some false)
      ≡ some (same_bytes (content l) (content r))
compare_both size fuel l r ih hl hr dl dr one sl sr m =
    let tl = length-take size l.unread in
    let tr = length-take size r.unread in
    let el = length-drop size l.unread in
    let er = length-drop size r.unread in
    let c = same_content size l r (omega arith) in
    elim (Bool-cases (same_bytes (take size l.unread) (take size r.unread))) [
      | inl e ↦
          rw (c, e)
            (ih (skip size l) (skip size r) (skip-Fits size l dl hl) (skip-Fits size r dr hr)
              (omega arith))
      | inr e ↦ rw (c, e) refl
    ]

-- A turn behind the two refills.
turn :
    (fuel : ℕ) (u : List ℕ) (cs : List (List ℕ)) (d : Bool) (v : List ℕ) (ds : List (List ℕ))
    (e : Bool)
    → Answers fuel
    → Fits (reader u cs d)
    → Fits (reader v ds e)
    → Ready (reader u cs d)
    → Ready (reader v ds e)
    → measure (reader u cs d) + measure (reader v ds e) < suc fuel
    → (let size = min (length u) (length v) in
        if d || e
        then some (same_flag d e)
        else if same_bytes (take size u) (take size v)
        then compare_readers fuel (skip size (reader u cs d)) (skip size (reader v ds e))
        else some false)
      ≡ some (same_bytes (content (reader u cs d)) (content (reader v ds e)))
unfolding same_bytes
turn fuel u cs true v ds true ih (_, hl) (_, hr) _ _ m = rw (hl refl, hr refl) refl
turn fuel u cs true (y ∷ v) ds false ih (_, hl) hr _ _ m = rw (hl refl) refl
turn fuel u cs true [] ds false ih hl hr _ b m = absurd (ground (arith, b refl))
turn fuel (x ∷ u) cs false v ds true ih hl (_, hr) _ _ m = rw (hr refl) refl
turn fuel [] cs false v ds d ih hl hr a _ m = absurd (ground (arith, a refl))
turn fuel (x ∷ u) cs false [] ds false ih hl hr _ b m = absurd (ground (arith, b refl))
turn fuel (x ∷ u) cs false (y ∷ v) ds false ih hl hr a b m =
    compare_both (min (suc (length u)) (suc (length v))) fuel (reader (x ∷ u) cs false)
      (reader (y ∷ v) ds false) ih hl hr refl refl (omega arith) (omega arith) (omega arith) m

compare_readers-eq : (fuel : ℕ) → Answers fuel
unfolding compare_readers
compare_readers-eq zero left right hl hr m = absurd (omega arith)
compare_readers-eq (suc fuel) left right hl hr m =
    let l = refill left in
    let r = refill right in
    turn fuel l.unread l.chunks l.done r.unread r.chunks r.done (compare_readers-eq fuel)
      (refill-Fits left.unread left.chunks left.done hl)
      (refill-Fits right.unread right.chunks right.done hr)
      (refill-Ready left.unread left.chunks left.done hl)
      (refill-Ready right.unread right.chunks right.done hr)
      (omega (
        arith,
        measure-refill left.unread left.chunks left.done,
        measure-refill right.unread right.chunks right.done,
      ))
    ∙ rw
        (
          content-refill left.unread left.chunks left.done,
          content-refill right.unread right.chunks right.done,
        )
        refl

-- The comparison of two streams ends, and says whether they carry the same bytes, however each is
-- cut into reads.
pub bodies_equal-stream :
    (left right : List (List ℕ))
    → bodies_equal (stream left) (stream right) ≡ some (same_bytes (flatten left) (flatten right))
unfolding bodies_equal
bodies_equal-stream left right =
    compare_readers-eq _ (open_reader (body_chunks (stream left)))
      (open_reader (body_chunks (stream right)))
      (filter_nonempty left, λ e. absurd (ground (arith, e)))
      (filter_nonempty right, λ e. absurd (ground (arith, e))) (omega arith)
    ∙ rw (flatten-filter left, flatten-filter right) refl
