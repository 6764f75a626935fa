-- ===== src/Mailboxes/Tests.antt =====
-- Tests of the mailboxes, and their theorems at concrete inputs.
use uni_mailbox.Prelude.{arith, ◌≡◌, refl, [], ◌∷◌, some, ◌↔◌}
use uni_mailbox.Domain.{ok, err}
use uni_mailbox.Schema.{Database, viewer, sender}
use uni_mailbox.Samples.{sample_database, sample_mailbox}
use uni_mailbox.Mailboxes.{
  Principal, owner, send, rename, find_access, assert_operation, permission_denied,
}
use uni_mailbox.Mailboxes.Permissions.{MayDo, assert_operation_iff}
use uni_mailbox.Mailboxes.Ownership.{upserts, removes, run_calls, owner-keeps-access}

abbrev ann : Principal
ann = record { user_id = 1; permissions = "mailbox.create" ∷ [] }

abbrev bob : Principal
bob = record { user_id = 2; permissions = [] }

-- Bob is a sender in Ann's mailbox.
abbrev with_bob : Database
with_bob = record sample_database {
  members = record { mailbox_id = 4; user_id = 2; role = sender; updated_at = 0 } ∷ [];
}

bob_sends : assert_operation with_bob 2 4 send ≡ ok tt
unfolding assert_operation
bob_sends = refl

bob_may_not_rename : assert_operation with_bob 2 4 rename ≡ err permission_denied
unfolding assert_operation
bob_may_not_rename = refl

assert_operation_iff_example :
    (assert_operation with_bob 2 4 send ≡ ok tt) ↔ MayDo with_bob 2 4 send
assert_operation_iff_example = assert_operation_iff with_bob 2 4 send (omega arith) (omega arith)

owner-keeps-access_example :
    find_access
      (run_calls (upserts ann 4 1 viewer 5 ∷ removes ann 4 1 ∷ removes bob 4 2 ∷ []) with_bob)
      1
      4
    ≡ some owner
owner-keeps-access_example =
    owner-keeps-access (upserts ann 4 1 viewer 5 ∷ removes ann 4 1 ∷ removes bob 4 2 ∷ []) with_bob
      4 sample_mailbox refl
