-- ===== src/Messages.antt =====
-- apps/worker/src/modules/messages/index.ts: list, setRead, setStarred, move and remove of
-- MessageApplicationService, on the tables of links, messages and what a user notes about a link.
-- The cursor is signed by Tokens.encode_cursor, and comes back from Tokens.decode_cursor.
pub mod Pages
pub mod Retry
pub mod Send
pub mod Tests
use uni_mailbox.Prelude.{
  ℕ, zero, suc, ◌+◌, Bool, true, false, ◌&&◌, ◌||◌, not, List, [], ◌∷◌, ◌++◌, Option, none, some,
  ltb, ◌==◌, if◌then◌else◌, find_where, update_where, count_where, filter, any, is_some_and,
  is_none_or, is_none, length, take, map,
}
use uni_mailbox.Domain.{
  Result, ok, err, ◌>>=◌, ◌>>◌, Thrown, other, domain_error, guard, or_throw, MailboxFolder,
}
use uni_mailbox.Schema.{current_timestamp}

-- mailbox_messages
pub record Placed : Type 0 where
  pub id : ℕ
  pub mailbox_id : ℕ
  pub message_id : ℕ
  pub folder : MailboxFolder

-- messages, by the columns that order a list
pub record Headline : Type 0 where
  pub id : ℕ
  pub created_at : ℕ

-- message_user_state
pub record UserState : Type 0 where
  pub mailbox_message_id : ℕ
  pub user_id : ℕ
  pub is_read : Bool
  pub is_starred : Bool
  pub deleted_at : Option ℕ

pub record Access : Type 0 where
  pub mailbox_id : ℕ
  pub user_id : ℕ

-- `owners` are the mailboxes' owners, `members` the rows of mailbox_members.
pub record Shelf : Type 0 where
  pub placed : List Placed
  pub headlines : List Headline
  pub states : List UserState
  pub owners : List Access
  pub members : List Access

pub record Row : Type 0 where
  pub mailbox_message_id : ℕ
  pub id : ℕ
  pub created_at : ℕ
  pub is_read : Bool
  pub is_starred : Bool

pub record Cursor : Type 0 where
  pub created_at : ℕ
  pub id : ℕ

abbrev same_folder : MailboxFolder → MailboxFolder → Bool
same_folder MailboxFolder.inbox MailboxFolder.inbox = true
same_folder MailboxFolder.sent MailboxFolder.sent = true
same_folder MailboxFolder.drafts MailboxFolder.drafts = true
same_folder MailboxFolder.archive MailboxFolder.archive = true
same_folder MailboxFolder.trash MailboxFolder.trash = true
same_folder _ _ = false

abbrev same_flag : Bool → Bool → Bool
same_flag true b = b
same_flag false b = not b

abbrev state_of : (user_id link_id : ℕ) → List UserState → Option UserState
state_of user_id link_id = find_where (λ s. s.mailbox_message_id == link_id && s.user_id == user_id)

abbrev row_of : Placed → Headline → Option UserState → Row
row_of p h none = record {
  mailbox_message_id = p.id;
  id = h.id;
  created_at = h.created_at;
  is_read = false;
  is_starred = false;
}
row_of p h (some s) = record {
  mailbox_message_id = p.id;
  id = h.id;
  created_at = h.created_at;
  is_read = s.is_read;
  is_starred = s.is_starred;
}

-- The joins, for a link of the mailbox and folder.
unfoldable pub rows_of : (user_id : ℕ) (starred : Option Bool) → Shelf → List Placed → List Row
rows_of user_id starred db [] = []
rows_of user_id starred db (p ∷ ps) =
    let rest = rows_of user_id starred db ps in
    elim (find_where (λ h. h.id == p.message_id) db.headlines) [
      | none ↦ rest
      | some h ↦
          let state = state_of user_id p.id db.states in
          let row = row_of p h state in
          if is_none_or (λ s. is_none s.deleted_at) state
            && is_none_or (same_flag row.is_starred) starred
          then row ∷ rest
          else rest
    ]

-- A row that the order m.created_at DESC, m.id DESC puts behind.
abbrev pub is_behind : Cursor → Row → Bool
is_behind c r = ltb r.created_at c.created_at || (r.created_at == c.created_at && ltb r.id c.id)

abbrev pub cursor_of : Row → Cursor
cursor_of r = record { created_at = r.created_at; id = r.id }

insert_row : Row → List Row → List Row
insert_row r [] = r ∷ []
insert_row r (s ∷ rows) =
    let rest = insert_row r rows in if is_behind (cursor_of r) s then r ∷ s ∷ rows else s ∷ rest

unfoldable pub in_order : List Row → List Row
unfolding insert_row
in_order [] = []
in_order (r ∷ rows) = insert_row r (in_order rows)

unfoldable pub visible_rows :
    (user_id mailbox_id : ℕ) (folder : MailboxFolder) (starred : Option Bool) → Shelf → List Row
visible_rows user_id mailbox_id folder starred db =
    rows_of user_id starred db
      (filter (λ p. p.mailbox_id == mailbox_id && same_folder p.folder folder) db.placed)

pub record Page : Type 0 where
  pub items : List Row
  pub next_cursor : Option Cursor

-- `items.at(-1)`
abbrev pub last_of : List Row → Option Row
last_of [] = none
last_of (r ∷ []) = some r
last_of (r ∷ s ∷ rows) = last_of (s ∷ rows)

-- `? IS NULL OR …`
abbrev pub passes : Option Cursor → Row → Bool
passes cursor r = is_none_or (λ c. is_behind c r) cursor

abbrev pub next_of : (has_next : Bool) (last : Option Row) → Option Cursor
next_of true (some r) = some (cursor_of r)
next_of _ _ = none

-- The cursor's condition, ORDER BY and LIMIT; the condition leaves the order of the rows alone.
unfoldable pub page_of : List Row → Option Cursor → (limit : ℕ) → Page
page_of rows cursor limit =
    let found = take (suc limit) (filter (passes cursor) (in_order rows)) in
    let items = take limit found in
    record { items = items; next_cursor = next_of (ltb limit (length found)) (last_of items) }

-- `list`, behind the check of the mailbox.
unfoldable pub list_messages :
    (user_id mailbox_id : ℕ) (folder : MailboxFolder) (starred : Option Bool)
    (cursor : Option Cursor) (limit : ℕ)
    → Shelf
    → Page
list_messages user_id mailbox_id folder starred cursor limit db =
    page_of (visible_rows user_id mailbox_id folder starred db) cursor limit

abbrev pub message_not_found : Thrown
message_not_found = domain_error "MESSAGE_NOT_FOUND" "Message not found" 404

abbrev pub not_in_mailbox : Thrown
not_in_mailbox = domain_error "MESSAGE_NOT_FOUND" "Message not found in this mailbox" 404

abbrev pub owns : (user_id : ℕ) → Shelf → Placed → Bool
owns user_id db p = any (λ a. a.mailbox_id == p.mailbox_id && a.user_id == user_id) db.owners

abbrev pub may_read : (user_id : ℕ) → Shelf → Placed → Bool
may_read user_id db p =
    any (λ a. a.mailbox_id == p.mailbox_id) db.owners
    && (owns user_id db p
        || any (λ a. a.mailbox_id == p.mailbox_id && a.user_id == user_id) db.members)

-- ORDER BY the own mailboxes first, LIMIT 1.
unfoldable pub require_readable_link : (user_id message_id : ℕ) → Shelf → Result Placed
require_readable_link user_id message_id db =
    let readable = filter (λ p. p.message_id == message_id && may_read user_id db p) db.placed in
    elim (find_where (owns user_id db) readable) [
      | some p ↦ ok p
      | none ↦ or_throw (find_where (λ p. true) readable) message_not_found
    ]

-- INSERT INTO message_user_state … ON CONFLICT DO UPDATE
unfoldable pub upsert_state :
    (link_id user_id : ℕ) (fresh : UserState) (change : UserState → UserState)
    → List UserState
    → List UserState
upsert_state link_id user_id fresh change states =
    let mine : UserState → Bool = (λ s. s.mailbox_message_id == link_id && s.user_id == user_id) in
    if any mine states then update_where mine change states else states ++ fresh ∷ []

abbrev blank_state : (link_id user_id : ℕ) → UserState
blank_state link_id user_id = record {
  mailbox_message_id = link_id;
  user_id = user_id;
  is_read = false;
  is_starred = false;
  deleted_at = none;
}

abbrev with_read : Bool → UserState → UserState
with_read b s = record s { is_read = b }

abbrev with_star : Bool → UserState → UserState
with_star b s = record s { is_starred = b }

abbrev with_deleted : ℕ → UserState → UserState
with_deleted now s = record s { deleted_at = some (current_timestamp now) }

-- mutateState, and `remove`, which does the same with another column.
unfoldable pub mutate_state :
    (change : UserState → UserState) (user_id message_id : ℕ) → Shelf → Result Shelf
mutate_state change user_id message_id db = do
  link ← require_readable_link user_id message_id db
  ok (record db {
    states = upsert_state link.id user_id (change (blank_state link.id user_id)) change db.states;
  })

unfoldable pub set_read : (user_id message_id : ℕ) (is_read : Bool) → Shelf → Result Shelf
set_read user_id message_id is_read = mutate_state (with_read is_read) user_id message_id

unfoldable pub set_starred : (user_id message_id : ℕ) (is_starred : Bool) → Shelf → Result Shelf
set_starred user_id message_id is_starred = mutate_state (with_star is_starred) user_id message_id

unfoldable pub remove_message : (user_id message_id now : ℕ) → Shelf → Result Shelf
remove_message user_id message_id now = mutate_state (with_deleted now) user_id message_id

-- `move`, behind the two checks. To put several links into one folder violates the unique index of
-- (mailbox, message, folder), and the statement fails with an error of the database.
unfoldable pub move_message :
    (mailbox_id message_id : ℕ) (folder : MailboxFolder) → Shelf → Result Shelf
move_message mailbox_id message_id folder db = do
  let mine : Placed → Bool = (λ p. p.mailbox_id == mailbox_id && p.message_id == message_id)
  guard (not (ltb 1 (count_where mine db.placed))) other
  guard (count_where mine db.placed == 1) not_in_mailbox
  ok (record db { placed = update_where mine (λ p. record p { folder = folder }) db.placed })
