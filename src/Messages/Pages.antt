-- ===== src/Messages/Pages.antt =====
-- MessageApplicationService.list: the pages of a list, one after the other.
use uni_mailbox.Prelude.{
  ℕ, zero, suc, ◌≤◌, ◌<◌, Bool, true, false, ◌&&◌, List, [], ◌∷◌, ◌++◌, Option, none, some, ltb,
  ◌==◌, filter, length, take, drop, All, append_assoc, take-drop, length-take, length-drop, ◌≡◌,
  refl, sym, ap, ◌∙◌, arith, Bool-cases, inl, inr, subst,
}
use uni_mailbox.Messages.{
  Row, Cursor, is_behind, cursor_of, in_order, insert_row, page_of, passes, next_of, last_of,
}

-- The order of the list is strict.
Falling : List Row → Type 0
Falling [] = Unit
Falling (r ∷ rows) = All (λ s. is_behind (cursor_of r) s ≡ true) rows × Falling rows

-- No two rows have the same instant and identifier.
abbrev pub same_place : Row → Row → Bool
same_place r s = r.created_at == s.created_at && r.id == s.id

abbrev pub Apart : List Row → Type 0
Apart [] = Unit
Apart (r ∷ rows) = All (λ s. same_place r s ≡ false) rows × Apart rows

insert_row-All {κ} :
    (P : Row → Type κ) (r : Row) (rows : List Row) → P r → All P rows → All P (insert_row r rows)
unfolding insert_row
insert_row-All P r [] hr h = (hr, tt)
insert_row-All P r (s ∷ rows) hr (hs, h) = elim (Bool-cases (is_behind (cursor_of r) s)) [
  | inl e ↦ rw e (hr, (hs, h))
  | inr e ↦ rw e (hs, insert_row-All P r rows hr h)
]

in_order-All {κ} : (P : Row → Type κ) (rows : List Row) → All P rows → All P (in_order rows)
unfolding in_order
in_order-All P [] h = tt
in_order-All P (r ∷ rows) (hr, h) = insert_row-All P r (in_order rows) hr (in_order-All P rows h)

length-insert_row : (r : Row) (rows : List Row) → length (insert_row r rows) ≡ suc (length rows)
unfolding insert_row
length-insert_row r [] = refl
length-insert_row r (s ∷ rows) = elim (Bool-cases (is_behind (cursor_of r) s)) [
  | inl e ↦ rw e refl
  | inr e ↦ rw (e, length-insert_row r rows) refl
]

length-in_order : (rows : List Row) → length (in_order rows) ≡ length rows
unfolding in_order
length-in_order [] = refl
length-in_order (r ∷ rows) = length-insert_row r (in_order rows) ∙ ap suc (length-in_order rows)

is_behind_trans :
    (r s t : Row)
    → is_behind (cursor_of r) s ≡ true
    → is_behind (cursor_of s) t ≡ true
    → is_behind (cursor_of r) t ≡ true
is_behind_trans r s t h k = ground arith

is_behind-All :
    (r s : Row) (rows : List Row)
    → is_behind (cursor_of r) s ≡ true
    → All (λ t. is_behind (cursor_of s) t ≡ true) rows
    → All (λ t. is_behind (cursor_of r) t ≡ true) rows
is_behind-All r s [] h k = tt
is_behind-All r s (t ∷ rows) h (kt, k) = (is_behind_trans r s t h kt, is_behind-All r s rows h k)

is_behind_total :
    (r s : Row)
    → same_place r s ≡ false
    → is_behind (cursor_of r) s ≡ false
    → is_behind (cursor_of s) r ≡ true
is_behind_total r s h k = ground arith

is_behind_asym : (r s : Row) → is_behind (cursor_of r) s ≡ true → is_behind (cursor_of s) r ≡ false
is_behind_asym r s h = ground arith

insert_row-Falling :
    (r : Row) (rows : List Row)
    → All (λ s. same_place r s ≡ false) rows
    → Falling rows
    → Falling (insert_row r rows)
unfolding insert_row Falling
insert_row-Falling r [] d h = (tt, tt)
insert_row-Falling r (s ∷ rows) (ds, d) (hs, h) = elim (Bool-cases (is_behind (cursor_of r) s)) [
  | inl e ↦ rw e ((e, is_behind-All r s rows e hs), (hs, h))
  | inr e ↦ rw e (
    insert_row-All (λ t. is_behind (cursor_of s) t ≡ true) r rows (is_behind_total r s ds e) hs,
    insert_row-Falling r rows d h,
  )
]

in_order-Falling : (rows : List Row) → Apart rows → Falling (in_order rows)
unfolding in_order Falling
in_order-Falling [] h = tt
in_order-Falling (r ∷ rows) (d, h) =
    insert_row-Falling r (in_order rows) (in_order-All _ rows d) (in_order-Falling rows h)

filter-All : (p : Row → Bool) (rows : List Row) → All (λ s. p s ≡ true) rows → filter p rows ≡ rows
filter-All p [] h = refl
filter-All p (r ∷ rows) (hr, h) = rw (hr, filter-All p rows h) refl

All-middle {κ} :
    (P : Row → Type κ) (before : List Row) (l : Row) (after : List Row)
    → All P (before ++ l ∷ after)
    → P l
All-middle P [] l after (h, k) = h
All-middle P (r ∷ before) l after (h, k) = All-middle P before l after k

-- Behind a row of the list is what follows it.
filter_behind :
    (before : List Row) (l : Row) (after : List Row)
    → Falling (before ++ l ∷ after)
    → filter (is_behind (cursor_of l)) (before ++ l ∷ after) ≡ after
unfolding Falling
filter_behind [] l after (h, k) =
    let e : is_behind (cursor_of l) l ≡ false = ground arith in
    rw (e, filter-All (is_behind (cursor_of l)) after h) refl
filter_behind (r ∷ before) l after (h, k) =
    let e =
      is_behind_asym r l (All-middle (λ s. is_behind (cursor_of r) s ≡ true) before l after h) in
    rw e (filter_behind before l after k)

last_of_split :
    (r : Row) (rows : List Row)
    → (before : List Row) × (l : Row) × (r ∷ rows ≡ before ++ l ∷ [])
      × (last_of (r ∷ rows) ≡ some l)
last_of_split r [] = ([], r, refl, refl)
last_of_split r (s ∷ rows) =
    let (before, l, e, k) = last_of_split s rows in (r ∷ before, l, ap (λ z. r ∷ z) e, k)

-- The pages from a cursor on, put together; `none` if the fuel does not last.
unfoldable pub read_pages : (fuel : ℕ) → List Row → Option Cursor → (limit : ℕ) → Option (List Row)
read_pages zero rows cursor limit = none
read_pages (suc fuel) rows cursor limit =
    let page = page_of rows cursor limit in
    elim page.next_cursor [
      | none ↦ some page.items
      | some c ↦ elim (read_pages fuel rows (some c) limit) [
        | none ↦ none
        | some rest ↦ some (page.items ++ rest)
      ]
    ]

take_fewer : (n : ℕ) (rows : List Row) → take n (take (suc n) rows) ≡ take n rows
take_fewer zero rows = refl
take_fewer (suc n) [] = refl
take_fewer (suc n) (r ∷ rows) = rw (take_fewer n rows) refl

take_long : (n : ℕ) (rows : List Row) → length rows ≤ n → take n rows ≡ rows
take_long zero [] h = refl
take_long zero (r ∷ rows) h = absurd (omega arith)
take_long (suc n) [] h = refl
take_long (suc n) (r ∷ rows) h = rw (take_long n rows (omega arith)) refl

page_of-eq :
    (rows : List Row) (cursor : Option Cursor) (limit : ℕ) (after : List Row)
    → filter (passes cursor) (in_order rows) ≡ after
    → page_of rows cursor limit ≡ (record {
      items = take limit after;
      next_cursor = next_of (ltb limit (length after)) (last_of (take limit after));
    })
unfolding page_of
page_of-eq rows cursor limit after e =
    let more : ltb limit (length (take (suc limit) after)) ≡ ltb limit (length after) =
      ground (arith, length-take (suc limit) after) in
    rw (page_of, e, take_fewer limit after, more) refl

abbrev Reads : (fuel limit : ℕ) → List Row → Option Cursor → Type 0
Reads fuel limit rows cursor =
    (before after : List Row)
    → in_order rows ≡ before ++ after
    → filter (passes cursor) (in_order rows) ≡ after
    → length after < fuel
    → read_pages fuel rows cursor limit ≡ some after

-- A page that is not the last, and those behind it.
read_more :
    (fuel n : ℕ) (rows : List Row) (cursor : Option Cursor) (before : List Row) (x : Row)
    (xs : List Row)
    → Falling (in_order rows)
    → in_order rows ≡ before ++ x ∷ xs
    → filter (passes cursor) (in_order rows) ≡ x ∷ xs
    → length (x ∷ xs) < suc fuel
    → ltb (suc n) (length (x ∷ xs)) ≡ true
    → ((c : Cursor) → Reads fuel (suc n) rows (some c))
    → read_pages (suc fuel) rows cursor (suc n) ≡ some (x ∷ xs)
unfolding read_pages
read_more fuel n rows cursor before x xs falls split e f more ih =
    let (b, l, items, last) = last_of_split x (take n xs) in
    let tail = drop n xs in
    let here : x ∷ xs ≡ b ++ l ∷ tail =
      (ap (λ z. x ∷ z) (sym (take-drop n xs))
        ∙ ap (λ z. z ++ tail) items
        ∙ append_assoc b (l ∷ []) tail) in
    let whole : in_order rows ≡ (before ++ b) ++ l ∷ tail =
      (split ∙ ap (λ z. before ++ z) here ∙ sym (append_assoc before b (l ∷ tail))) in
    let behind : filter (is_behind (cursor_of l)) (in_order rows) ≡ tail =
      (ap (filter (is_behind (cursor_of l))) whole
        ∙ filter_behind (before ++ b) l tail (subst Falling whole falls)) in
    let cut : in_order rows ≡ ((before ++ b) ++ l ∷ []) ++ tail =
      (whole ∙ sym (append_assoc (before ++ b) (l ∷ []) tail)) in
    let rest =
      (ih (cursor_of l) ((before ++ b) ++ l ∷ []) tail cut behind
        (omega (arith, length-drop n xs))) in
    let page = page_of-eq rows cursor (suc n) (x ∷ xs) e in
    rw (read_pages, page, more, last, rest, page) (ap (λ z. some (x ∷ z)) (take-drop n xs))

read_step :
    (fuel limit : ℕ) (rows : List Row) (cursor : Option Cursor) (before after : List Row)
    → 1 ≤ limit
    → Falling (in_order rows)
    → in_order rows ≡ before ++ after
    → filter (passes cursor) (in_order rows) ≡ after
    → length after < suc fuel
    → ltb limit (length after) ≡ true
    → ((c : Cursor) → Reads fuel limit rows (some c))
    → read_pages (suc fuel) rows cursor limit ≡ some after
read_step fuel zero rows cursor before after one falls split e f more ih = absurd (omega arith)
read_step fuel (suc n) rows cursor before [] one falls split e f more ih =
    absurd (ground (arith, more))
read_step fuel (suc n) rows cursor before (x ∷ xs) one falls split e f more ih =
    read_more fuel n rows cursor before x xs falls split e f more ih

read_pages-eq :
    (fuel limit : ℕ) (rows : List Row) (cursor : Option Cursor)
    → 1 ≤ limit
    → Falling (in_order rows)
    → Reads fuel limit rows cursor
unfolding read_pages
read_pages-eq zero limit rows cursor one falls before after split e f = absurd (omega arith)
read_pages-eq (suc fuel) limit rows cursor one falls before after split e f =
    elim (Bool-cases (ltb limit (length after))) [
      | inl more ↦
          read_step fuel limit rows cursor before after one falls split e f more
            (λ c. read_pages-eq fuel limit rows (some c) one falls)
      | inr last ↦
          let page = page_of-eq rows cursor limit after e in
          rw (read_pages, page, last, page) (ap some (take_long limit after (ground arith)))
    ]

filter_every : (rows : List Row) → filter (passes none) rows ≡ rows
filter_every [] = refl
filter_every (r ∷ rows) = rw (filter_every rows) refl

-- From the first page on, following the cursors, the pages give every visible message of the folder
-- in order, each once, if no two have the same instant and identifier and a page has room for one.
pub read_pages-visible_rows :
    (fuel limit : ℕ) (rows : List Row)
    → 1 ≤ limit
    → Apart rows
    → length rows < fuel
    → read_pages fuel rows none limit ≡ some (in_order rows)
read_pages-visible_rows fuel limit rows one apart f =
    read_pages-eq fuel limit rows none one (in_order-Falling rows apart) [] (in_order rows) refl
      (filter_every (in_order rows)) (omega (arith, length-in_order rows))
