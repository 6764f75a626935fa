-- ===== src/Inbound/Refusal.antt =====
-- Which messages are taken, and for which mailbox: the tests of receive against a description of them.
use Prim.Native.String.{◌++◌ as concat}
use uni_mailbox.Prelude.{
  String, true, false, ◌&&◌, List, [], ◌∷◌, Option, none, some, ◌≡◌, ◌≢◌, ◌⊎◌, refl, arith,
  Bool-cases, Option-cases, inl, inr, or_else, find_where, find_where-true, find_where-Exists,
  find_where-none-All, Exists, any-Exists, Exists-any, All,
}
use uni_mailbox.Schema.{Database, Mailbox, MailboxStatus}
use uni_mailbox.Mailboxes.{is_active}
use uni_mailbox.Inbound.{
  Parsed, InboundSettings, Texts, mailbox_address, string_list, blocked, is_blocked, find_mailbox,
  refusal,
}

All-map :
    (P Q : Mailbox → Type 0) (xs : List Mailbox) → ((x : Mailbox) → P x → Q x) → All P xs → All Q xs
All-map P Q [] f h = tt
All-map P Q (x ∷ xs) f (hx, h) = (f x hx, All-map P Q xs f h)

module _ (texts : Texts) where
  open texts use {lower, trim, includes, nocase_eq}

  -- A text that has one of the patterns of a list in it, with no regard to case and outer space.
  abbrev Contains : (value patterns_json : String) → Type 0
  Contains value patterns_json =
      Exists (λ pattern. includes (lower value) (lower (trim pattern)) ≡ true)
        (string_list texts patterns_json)

  -- One of the three blocklists has the sender, the subject or the bodies.
  abbrev pub Blocks : InboundSettings → Parsed → Type 0
  Blocks s p =
      Contains (mailbox_address texts p.sender).address s.sender_blocklist_json
      ⊎ (Contains (or_else p.subject "") s.subject_blocklist_json
          ⊎ Contains (concat (or_else p.text "") (concat "\n" (or_else p.html "")))
              s.content_blocklist_json)

  -- Why a message is not taken, with the reply: there are no settings or they switch the reception
  -- off; or else a blocklist has it; or else nobody has its address and the settings reject that.
  abbrev pub Refuses : Option InboundSettings → Parsed → Option Mailbox → (reply : String) → Type 0
  Refuses none p mailbox reply = reply ≡ "421 Inbound mail is temporarily disabled"
  Refuses (some s) p mailbox reply =
      (s.inbound_enabled ≡ false) × (reply ≡ "421 Inbound mail is temporarily disabled")
      ⊎ ((s.inbound_enabled ≡ true) × Blocks s p × (reply ≡ "550 Message rejected by policy")
          ⊎ (s.inbound_enabled ≡ true)
            × (Blocks s p → ⊥)
            × (mailbox ≡ none)
            × (s.rejects_unknown ≡ true)
            × (reply ≡ "550 Unknown recipient"))

  -- None of this holds.
  abbrev pub Takes : Option InboundSettings → Parsed → Option Mailbox → Type 0
  Takes none p mailbox = ⊥
  Takes (some s) p mailbox =
      (s.inbound_enabled ≡ true)
      × (Blocks s p → ⊥)
      × ((mailbox ≢ none) ⊎ (s.rejects_unknown ≡ false))

  -- An active mailbox of the table with the address, or that there is none.
  abbrev pub Addressee : (recipient : String) → List Mailbox → Option Mailbox → Type 0
  Addressee recipient mailboxes (some m) =
      Exists (λ x. x ≡ m) mailboxes
      × (m.status ≡ MailboxStatus.active)
      × (nocase_eq m.address (lower (trim recipient)) ≡ true)
  Addressee recipient mailboxes none =
      All
        (λ m.
          m.status ≡ MailboxStatus.active → nocase_eq m.address (lower (trim recipient)) ≡ false)
        mailboxes

  active_lem : (s : MailboxStatus) → is_active s ≡ true → s ≡ MailboxStatus.active
  active_lem MailboxStatus.active h = refl
  active_lem MailboxStatus.disabled h = absurd (ground (arith, h))
  active_lem MailboxStatus.deleted h = absurd (ground (arith, h))

  pub find_mailbox-Addressee :
      (recipient : String) (db : Database)
      → Addressee recipient db.mailboxes (find_mailbox texts recipient db)
  find_mailbox-Addressee recipient db =
      let p = λ (m : Mailbox). nocase_eq m.address (lower (trim recipient)) && is_active m.status in
      elim (Option-cases (find_where p db.mailboxes)) [
        | inr (m, e) ↦
            let found = find_where-true p m db.mailboxes e in
            let on : is_active m.status ≡ true = ground (arith, found) in
            rw e (
              find_where-Exists (λ x. x ≡ m) p m db.mailboxes e refl,
              active_lem m.status on,
              ground (arith, found),
            )
        | inl e ↦ rw e (
            All-map (λ x. p x ≡ false) _ db.mailboxes
              (λ x n s. let on : is_active x.status ≡ true = rw s refl in ground (arith, n, on))
              (find_where-none-All p db.mailboxes e))
      ]

  blocked-Contains :
      (value patterns_json : String)
      → blocked texts value (string_list texts patterns_json) ≡ true
      → Contains value patterns_json
  unfolding blocked
  blocked-Contains value patterns_json h =
      any-Exists _ (λ p. includes (lower value) (lower (trim p))) (string_list texts patterns_json)
        (λ p t. t) h

  Contains-blocked :
      (value patterns_json : String)
      → Contains value patterns_json
      → blocked texts value (string_list texts patterns_json) ≡ true
  unfolding blocked
  Contains-blocked value patterns_json h =
      Exists-any _ (λ p. includes (lower value) (lower (trim p))) (string_list texts patterns_json)
        (λ p t. t) h

  is_blocked-Blocks : (s : InboundSettings) (p : Parsed) → is_blocked texts s p ≡ true → Blocks s p
  unfolding is_blocked
  is_blocked-Blocks s p h =
      elim (Bool-cases (
        blocked texts (mailbox_address texts p.sender).address
          (string_list texts s.sender_blocklist_json))) [
            | inl e ↦ inl (blocked-Contains _ _ e)
            | inr n ↦
                elim (Bool-cases (
                  blocked texts (or_else p.subject "")
                    (string_list texts s.subject_blocklist_json))) [
                      | inl e ↦ inr (inl (blocked-Contains _ _ e))
                      | inr o ↦ inr (inr (blocked-Contains _ _ (ground (arith, h, n, o))))
                    ]
          ]

  Blocks-is_blocked : (s : InboundSettings) (p : Parsed) → Blocks s p → is_blocked texts s p ≡ true
  unfolding is_blocked
  Blocks-is_blocked s p (inl c) = let t = Contains-blocked _ _ c in ground (arith, t)
  Blocks-is_blocked s p (inr (inl c)) = let t = Contains-blocked _ _ c in ground (arith, t)
  Blocks-is_blocked s p (inr (inr c)) = let t = Contains-blocked _ _ c in ground (arith, t)

  not_blocked : (s : InboundSettings) (p : Parsed) → is_blocked texts s p ≡ false → Blocks s p → ⊥
  not_blocked s p n b = let t = Blocks-is_blocked s p b in ground (arith, t, n)

  pub refusal-Refuses :
      (settings : Option InboundSettings) (p : Parsed) (mailbox : Option Mailbox) (reply : String)
      → refusal texts settings p mailbox ≡ some reply
      → Refuses settings p mailbox reply
  unfolding refusal
  refusal-Refuses none p mailbox reply h = ground (arith, h)
  refusal-Refuses (some s) p mailbox reply h = elim (Bool-cases s.inbound_enabled) [
    | inr off ↦ inl (off, ground (arith, h, off))
    | inl on ↦ elim (Bool-cases (is_blocked texts s p)) [
      | inl b ↦ inr (inl (on, is_blocked-Blocks s p b, ground (arith, h, on, b)))
      | inr n ↦ inr (
          inr (
            on,
            not_blocked s p n,
            ground (arith, h, on, n),
            ground (arith, h, on, n),
            ground (arith, h, on, n),
          ))
    ]
  ]

  pub refusal-Takes :
      (settings : Option InboundSettings) (p : Parsed) (mailbox : Option Mailbox)
      → refusal texts settings p mailbox ≡ none
      → Takes settings p mailbox
  unfolding refusal
  refusal-Takes none p mailbox h = absurd (ground (arith, h))
  refusal-Takes (some s) p mailbox h =
      let on : s.inbound_enabled ≡ true = ground (arith, h) in
      let n : is_blocked texts s p ≡ false = ground (arith, h, on) in
      (
        on,
        not_blocked s p n,
        elim (Option-cases mailbox) [
          | inr (m, e) ↦ inl (λ no. absurd (ground (arith, no, e)))
          | inl e ↦ inr (ground (arith, h, on, n, e))
        ],
      )
