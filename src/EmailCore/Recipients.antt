-- ===== src/EmailCore/Recipients.antt =====
-- normalizeRecipients: every address once, in one of the three lists.
use text.Mathlib.Text.{◌==◌ as str_eq}
use text.Mathlib.TextEquality.{eq_iff}
use uni_mailbox.Prelude.{
  ℕ, ◌+◌, Bool, true, ◌&&◌, ◌||◌, not, List, [], ◌∷◌, ◌++◌, String, map, filter, if◌then◌else◌,
  count_where, ◌≡◌, refl, arith, Bool-cases, inl, inr, sym, ◌∙◌, ap,
}
use uni_mailbox.EmailCore.{
  first_ones, is_text, has, normalize_group, normalize_recipients, NormalizedRecipients,
}

abbrev once : Bool → ℕ
once b = if b then 1 else 0

-- Texts that are equal are equal to the same texts.
str_eq_same : (a x y : String) → str_eq a x ≡ true → str_eq x y ≡ str_eq a y
str_eq_same a x y h = ap (λ z. str_eq z y) (sym ((eq_iff a x).0 h))

count-filter :
    (a : String) (p : String → Bool) (xs : List String)
    → ((x : String) → str_eq a x ≡ true → p x ≡ p a)
    → count_where (str_eq a) (filter p xs) ≡ (if p a then count_where (str_eq a) xs else 0)
count-filter a p [] same = ground arith
count-filter a p (x ∷ xs) same = ground (arith, same x, count-filter a p xs same)

has-filter :
    (a : String) (p : String → Bool) (xs : List String)
    → ((x : String) → str_eq a x ≡ true → p x ≡ p a)
    → has a (filter p xs) ≡ (p a && has a xs)
has-filter a p [] same = ground arith
has-filter a p (x ∷ xs) same = ground (arith, same x, has-filter a p xs same)

-- A test sees equal texts alike.
test_same : (p : String → Bool) (a x : String) → str_eq a x ≡ true → p x ≡ p a
test_same p a x h = ap p (sym ((eq_iff a x).0 h))

str_eq_sym : (a x : String) → str_eq a x ≡ str_eq x a
str_eq_sym a x = elim (Bool-cases (str_eq a x)) [
  | inl e ↦ ap (λ z. str_eq a z) (sym ((eq_iff a x).0 e)) ∙ ap (λ z. str_eq z a) ((eq_iff a x).0 e)
  | inr e ↦ elim (Bool-cases (str_eq x a)) [
    | inl k ↦
        ap (λ z. str_eq z x) (sym ((eq_iff x a).0 k)) ∙ ap (λ z. str_eq x z) ((eq_iff x a).0 k)
    | inr k ↦ e ∙ sym k
  ]
]

has-first_ones : (a : String) (xs : List String) → has a (first_ones xs) ≡ has a xs
unfolding first_ones
has-first_ones a [] = refl
has-first_ones a (x ∷ xs) =
    let p : String → Bool = (λ y. not (str_eq x y)) in
    ground
      (arith, has-filter a p (first_ones xs) (test_same p a), has-first_ones a xs, str_eq_sym a x)

count-first_ones :
    (a : String) (xs : List String) → count_where (str_eq a) (first_ones xs) ≡ once (has a xs)
unfolding first_ones
count-first_ones a [] = refl
count-first_ones a (x ∷ xs) =
    let p : String → Bool = (λ y. not (str_eq x y)) in
    ground (
      arith,
      count-filter a p (first_ones xs) (test_same p a),
      count-first_ones a xs,
      str_eq_sym a x,
    )

count_where-append :
    (a : String) (xs ys : List String)
    → count_where (str_eq a) (xs ++ ys) ≡ count_where (str_eq a) xs + count_where (str_eq a) ys
count_where-append a [] ys = omega arith
count_where-append a (x ∷ xs) ys = omega (arith, count_where-append a xs ys)

has-append : (a : String) (xs ys : List String) → has a (xs ++ ys) ≡ (has a xs || has a ys)
has-append a [] ys = refl
has-append a (x ∷ xs) ys = ground (arith, has-append a xs ys)

module _ (clean : String → String) where
  count-normalize_group :
      (a : String) (xs : List String)
      → count_where (str_eq a) (normalize_group clean xs) ≡ once (is_text a && has a (map clean xs))
  unfolding normalize_group
  count-normalize_group a xs =
      count-first_ones a (filter is_text (map clean xs))
      ∙ ap once (has-filter a is_text (map clean xs) (test_same is_text a))

  has-normalize_group :
      (a : String) (xs : List String)
      → has a (normalize_group clean xs) ≡ (is_text a && has a (map clean xs))
  unfolding normalize_group
  has-normalize_group a xs =
      has-first_ones a (filter is_text (map clean xs))
      ∙ has-filter a is_text (map clean xs) (test_same is_text a)

  -- The counts of an address in the three lists, `t`, `c` and `b`, add up to one.
  counted :
      (i t c b in_to in_cc : Bool) (whole to cc bcc : ℕ)
      → whole ≡ to + (cc + bcc)
      → to ≡ once (i && t)
      → in_to ≡ (i && t)
      → cc ≡ (if not in_to then once (i && c) else 0)
      → in_cc ≡ (not in_to && (i && c))
      → bcc ≡ (if not in_to && not in_cc then once (i && b) else 0)
      → whole ≡ once (i && (t || c || b))
  counted i t c b in_to in_cc whole to cc bcc w h1 h2 h3 h4 h5 = ground arith

  abbrev everyone : NormalizedRecipients → List String
  everyone r = r.to ++ (r.cc ++ r.bcc)

  -- The three lists together have every address once that stands, cleaned and not empty, in one of the
  -- lists given, and no other.
  pub normalize_recipients-once :
      (a : String) (to cc bcc : List String)
      → count_where (str_eq a) (everyone (normalize_recipients clean to cc bcc))
        ≡ once
            (is_text a && (has a (map clean to) || has a (map clean cc) || has a (map clean bcc)))
  unfolding normalize_recipients
  normalize_recipients-once a to cc bcc =
      let r = normalize_recipients clean to cc bcc in
      let p : String → Bool = (λ x. not (has x r.to)) in
      let q : String → Bool = (λ x. not (has x r.to) && not (has x r.cc)) in
      let split = count_where-append a r.to (r.cc ++ r.bcc) in
      let split_rest = count_where-append a r.cc r.bcc in
      let in_to = count-normalize_group a to in
      let in_cc = (count-filter a p (normalize_group clean cc) (test_same p a)) in
      let in_bcc = (count-filter a q (normalize_group clean bcc) (test_same q a)) in
      let of_cc = (has-filter a p (normalize_group clean cc) (test_same p a)) in
      counted (is_text a) (has a (map clean to)) (has a (map clean cc)) (has a (map clean bcc))
        (has a r.to) (has a r.cc) _ _ _ _
        (split ∙ ap (λ n. count_where (str_eq a) r.to + n) split_rest) in_to
        (has-normalize_group a to)
        (in_cc ∙ ap (λ n. if p a then n else 0) (count-normalize_group a cc))
        (of_cc ∙ ap (λ b. p a && b) (has-normalize_group a cc))
        (in_bcc ∙ ap (λ n. if q a then n else 0) (count-normalize_group a bcc))
