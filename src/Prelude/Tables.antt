-- ===== src/Prelude/Tables.antt =====
-- A database table as a list of rows, and the SQL statements that the services run on it.
use Prim.Native.Nat.{ℕ, ◌+◌, ◌≤◌}
use mathlib.Core.Path.{◌≡◌, refl, sym, subst}
use mathlib.Core.Logic.{inl, inr}
use mathlib.Core.Bool.{Bool, true, false, not}
use mathlib.Core.Option.{Option, none, some}
use mathlib.Core.List.{List, [], ◌∷◌, ◌++◌}
use native.Mathlib.Omega.{arith}
use uni_mailbox.Prelude.Tests.{if◌then◌else◌, Bool-cases, or_right}
use uni_mailbox.Prelude.Lists.{Exists, All, filter, any}

module _ {ℓ} {A : Type ℓ} where
  -- `UPDATE table SET f WHERE p`.
  unfoldable pub update_where : (A → Bool) → (A → A) → List A → List A
  update_where p f [] = []
  update_where p f (x ∷ xs) = (if p x then f x else x) ∷ update_where p f xs

  -- How many rows a statement with this WHERE clause touches: `meta.changes`.
  abbrev pub count_where : (A → Bool) → List A → ℕ
  count_where p [] = 0
  count_where p (x ∷ xs) = (if p x then 1 else 0) + count_where p xs

  -- `SELECT … WHERE p`, read with `.first()`.
  abbrev pub find_where : (A → Bool) → List A → Option A
  find_where p [] = none
  find_where p (x ∷ xs) = let rest = find_where p xs in if p x then some x else rest

  -- `DELETE FROM table WHERE p`.
  abbrev pub delete_where : (A → Bool) → List A → List A
  delete_where p = filter (λ x. not (p x))

  -- `INSERT OR IGNORE`: no row where one with the same unique key stands.
  unfoldable pub insert_or_ignore : (A → Bool) → A → List A → List A
  insert_or_ignore same row rows = if any same rows then rows else rows ++ row ∷ []

  -- An update keeps what holds of every row, if each row that it touches keeps it.
  pub update_where-All {κ} :
      (P : A → Type κ) (p : A → Bool) (f : A → A) (xs : List A)
      → ((x : A) → p x ≡ true → P x → P (f x))
      → All P xs
      → All P (update_where p f xs)
  unfolding update_where
  update_where-All P p f [] keep h = tt
  update_where-All P p f (x ∷ xs) keep (hx, hs) = elim (Bool-cases (p x)) [
    | inl e ↦ rw e (keep x e hx, update_where-All P p f xs keep hs)
    | inr e ↦ rw e (hx, update_where-All P p f xs keep hs)
  ]

  -- An update that touches no row changes nothing.
  pub update_where_none :
      (p : A → Bool) (f : A → A) (xs : List A) → count_where p xs ≡ 0 → update_where p f xs ≡ xs
  unfolding update_where
  update_where_none p f [] h = refl
  update_where_none p f (x ∷ xs) h = elim (Bool-cases (p x)) [
    | inl e ↦ absurd (let h' : 1 + count_where p xs ≡ 0 = (rw e at h) in omega arith)
    | inr e ↦
        let h' : 0 + count_where p xs ≡ 0 = (rw e at h) in
        rw (e, update_where_none p f xs (omega arith))
  ]

  -- A row that a selection finds is a row.
  pub any-find_where :
      (p q : A → Bool) (x : A) (xs : List A)
      → find_where p xs ≡ some x
      → q x ≡ true
      → any q xs ≡ true
  any-find_where p q x [] e h = absurd (ground (arith, e))
  any-find_where p q x (y ∷ ys) e h = elim (Bool-cases (p y)) [
    | inl k ↦
        let found : some y ≡ some x = (rw k at e) in
        let here : q y ≡ true = subst (λ z. q z ≡ true) (sym (ground (arith, found))) h in
        rw here refl
    | inr k ↦ or_right (q y) (any q ys) (any-find_where p q x ys (rw k at e) h)
  ]

  -- What a selection finds was selected.
  pub find_where-true : (p : A → Bool) (x : A) (xs : List A) → find_where p xs ≡ some x → p x ≡ true
  find_where-true p x [] e = absurd (ground (arith, e))
  find_where-true p x (y ∷ ys) e = elim (Bool-cases (p y)) [
    | inl k ↦
        let found : some y ≡ some x = (rw k at e) in
        subst (λ z. p z ≡ true) (ground (arith, found)) k
    | inr k ↦ find_where-true p x ys (rw k at e)
  ]

  -- What a selection finds has what every selected row has.
  pub find_where-sat {κ} :
      (P : A → Type κ) (p : A → Bool) (x : A) (xs : List A)
      → All (λ y. p y ≡ true → P y) xs
      → find_where p xs ≡ some x
      → P x
  find_where-sat P p x [] h e = absurd (ground (arith, e))
  find_where-sat P p x (y ∷ ys) (hy, hs) e = elim (Bool-cases (p y)) [
    | inl k ↦ let found : some y ≡ some x = (rw k at e) in subst P (ground (arith, found)) (hy k)
    | inr k ↦ find_where-sat P p x ys hs (rw k at e)
  ]

  -- What a selection finds has what every row has.
  pub find_where-All {κ} :
      (P : A → Type κ) (p : A → Bool) (x : A) (xs : List A)
      → All P xs
      → find_where p xs ≡ some x
      → P x
  find_where-All P p x [] h e = absurd (ground (arith, e))
  find_where-All P p x (y ∷ ys) (hy, hs) e = elim (Bool-cases (p y)) [
    | inl k ↦ let found : some y ≡ some x = (rw k at e) in subst P (ground (arith, found)) hy
    | inr k ↦ find_where-All P p x ys hs (rw k at e)
  ]

  -- A selection whose columns the update leaves alone finds the updated row.
  pub find_where-update_where :
      (q p : A → Bool) (f : A → A) (xs : List A)
      → ((x : A) → q (f x) ≡ q x)
      → find_where q (update_where p f xs)
        ≡ elim (find_where q xs) [ none ↦ none | some x ↦ some (if p x then f x else x) ]
  unfolding update_where
  find_where-update_where q p f [] same = refl
  find_where-update_where q p f (x ∷ xs) same =
      ground (arith, same x, find_where-update_where q p f xs same)

  -- A deletion keeps what holds of every row.
  pub delete_where-All {κ} :
      (P : A → Type κ) (p : A → Bool) (xs : List A) → All P xs → All P (delete_where p xs)
  delete_where-All P p [] h = tt
  delete_where-All P p (x ∷ xs) (hx, hs) = elim (Bool-cases (p x)) [
    | inl e ↦ rw e (delete_where-All P p xs hs)
    | inr e ↦ rw e (hx, delete_where-All P p xs hs)
  ]

-- If as many rows satisfy `p` as its consequence `q`, every row with `q` has `p`.
pub count_where-eq {ℓ} :
    {A : Type ℓ} (p q : A → Bool)
    → ((x : A) → p x ≡ true → q x ≡ true)
    → (xs : List A)
    → (count_where p xs ≤ count_where q xs)
      × (count_where p xs ≡ count_where q xs → All (λ x. q x ≡ true → p x ≡ true) xs)
count_where-eq p q sub [] = (omega arith, λ e. tt)
count_where-eq p q sub (x ∷ xs) =
    let (le, same) = count_where-eq p q sub xs in
    let s = sub x in (ground arith, λ e. (ground arith, ground arith))

-- A selection that found nothing, and then the last row.
pub find_where-append {ℓ} :
    {A : Type ℓ} (p q : A → Bool) (xs : List A) (r : A)
    → ((x : A) → q x ≡ true → p x ≡ true)
    → find_where p xs ≡ none
    → q r ≡ true
    → find_where q (xs ++ r ∷ []) ≡ some r
find_where-append p q [] r imp h t = ground arith
find_where-append p q (x ∷ xs) r imp h t =
    let i = imp x in ground (arith, find_where-append p q xs r imp)

-- A row that was selected is one of the table.
pub find_where-Exists {ℓ} :
    {A : Type ℓ} (P : A → Type 0) (p : A → Bool) (x : A) (xs : List A)
    → find_where p xs ≡ some x
    → P x
    → Exists P xs
find_where-Exists P p x [] e h = absurd (ground (arith, e))
find_where-Exists P p x (y ∷ ys) e h = elim (Bool-cases (p y)) [
  | inl k ↦ let here : some y ≡ some x = rw k at e in inl (subst P (sym (ground (arith, here))) h)
  | inr k ↦ inr (find_where-Exists P p x ys (rw k at e) h)
]

-- No row is selected: none passes the test.
pub find_where-none-All {ℓ} :
    {A : Type ℓ} (p : A → Bool) (xs : List A) → find_where p xs ≡ none → All (λ x. p x ≡ false) xs
find_where-none-All p [] e = tt
find_where-none-All p (x ∷ xs) e = elim (Bool-cases (p x)) [
  | inl k ↦ absurd (ground (arith, e, k))
  | inr k ↦ (k, find_where-none-All p xs (rw k at e))
]
