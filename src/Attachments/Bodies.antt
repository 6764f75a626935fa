-- ===== src/Attachments/Bodies.antt =====
-- apps/worker/src/modules/attachments/file-catalog.ts: bodyChunks and bodiesEqual. A body is its
-- bytes or a stream of reads; of a chunk that is being compared the unread part is kept.
pub mod Equal
use uni_mailbox.Prelude.{
  ℕ, zero, suc, ◌+◌, min, Bool, true, false, ◌&&◌, ◌||◌, not, List, [], ◌∷◌, Option, none, some,
  ◌==◌, if◌then◌else◌, length, take, drop, filter,
}

pub data Body : Type 0 where
  buffer : List ℕ → Body
  stream : List (List ℕ) → Body

abbrev pub is_empty : List ℕ → Bool
is_empty [] = true
is_empty (x ∷ xs) = false

abbrev pub body_chunks : Body → List (List ℕ)
body_chunks (buffer bytes) = bytes ∷ []
body_chunks (stream reads) = filter (λ chunk. not (is_empty chunk)) reads

pub record Reader : Type 0 where
  pub unread : List ℕ
  pub chunks : List (List ℕ)
  pub done : Bool

abbrev pub open_reader : List (List ℕ) → Reader
open_reader chunks = record { unread = []; chunks = chunks; done = false }

-- `iterator.next()`
abbrev pub next : Reader → Reader
next r = elim r.chunks [
  | [] ↦ record r { unread = []; done = true }
  | chunk ∷ chunks ↦ record r { unread = chunk; chunks = chunks }
]

unfoldable pub refill : Reader → Reader
refill r = if is_empty r.unread && not r.done then next r else r

unfoldable pub same_bytes : List ℕ → List ℕ → Bool
same_bytes [] [] = true
same_bytes (x ∷ xs) (y ∷ ys) = x == y && same_bytes xs ys
same_bytes _ _ = false

abbrev same_flag : Bool → Bool → Bool
same_flag true b = b
same_flag false b = not b

abbrev pub skip : ℕ → Reader → Reader
skip size r = record r { unread = drop size r.unread }

-- The loop; `none` where the fuel does not last.
unfoldable pub compare_readers : (fuel : ℕ) → Reader → Reader → Option Bool
unfolding refill same_bytes
compare_readers zero left right = none
compare_readers (suc fuel) left right =
    let l = refill left in
    let r = refill right in
    let size = min (length l.unread) (length r.unread) in
    let rest = compare_readers fuel (skip size l) (skip size r) in
    if l.done || r.done
    then some (same_flag l.done r.done)
    else if same_bytes (take size l.unread) (take size r.unread)
    then rest
    else some false

abbrev pub total : List (List ℕ) → ℕ
total [] = 0
total (chunk ∷ chunks) = 1 + length chunk + total chunks

unfoldable pub bodies_equal : Body → Body → Option Bool
bodies_equal left right =
    let ls = body_chunks left in
    let rs = body_chunks right in
    compare_readers (3 + total ls + total rs) (open_reader ls) (open_reader rs)
