-- ===== src/RateLimit/Quota.antt =====
-- How many requests of one subject a window lets through. Workers KV answers reads from a cache, and a
-- write takes up to a minute to be seen: a read may miss the latest writes. The requests are answered
-- one after another.
use package.text.Mathlib.TextPositions.{eq_refl}
use uni_mailbox.Prelude.{
  ℕ, zero, suc, ◌∙◌, ◌+◌, ◌-◌, ◌/◌, ◌≤◌, min, String, true, false, List, [], ◌∷◌, none, some, ◌≡◌,
  refl, sym, subst, arith, ltb, ◌==◌, if◌then◌else◌, or_else, Bool-cases, inl, inr, count_where,
  max, ==_eq, ap, All, drop,
}
use uni_mailbox.Domain.{ok, err}
use uni_mailbox.RateLimit.{RateLimitRule, WindowKey, Put, Kv, key_eq, enforce}

-- What a read gives that sees these writes, the latest first.
abbrev latest : List Put → Kv
latest [] key = none
latest (put ∷ puts) key = if key_eq key put.key then some put.count else latest puts key

-- What a read gives that misses so many of the latest writes.
abbrev pub read_behind : (lag : ℕ) → List Put → Kv
read_behind lag puts = latest (drop lag puts)

pub record Hit : Type 0 where
  pub now : ℕ
  pub lag : ℕ

module _ (rule : RateLimitRule) (subject : String) where
  abbrev pub window_of : ℕ → ℕ
  window_of now = now / 1000 / rule.window_seconds

  abbrev key_of : ℕ → WindowKey
  key_of window = record { scope = rule.scope; subject = subject; window = window }

  -- The requests that are let through in a window, of those that come one after another.
  unfoldable pub accepted : (window : ℕ) → List Put → List Hit → ℕ
  accepted window puts [] = 0
  accepted window puts (hit ∷ rest) =
      elim (enforce (read_behind hit.lag puts) rule subject hit.now) [
        | err e ↦ accepted window puts rest
        | ok put ↦
            (if window_of hit.now == window then 1 else 0) + accepted window (put ∷ puts) rest
      ]

  abbrev pub hits_in : (window : ℕ) → List Hit → ℕ
  hits_in window hits = count_where (λ h. window_of h.now == window) hits

  abbrev seen : List Put → Hit → ℕ
  seen puts hit = or_else (read_behind hit.lag puts (key_of (window_of hit.now))) 0

  abbrev put_of : List Put → Hit → Put
  put_of puts hit = record {
    key = key_of (window_of hit.now);
    count = seen puts hit + 1;
    expiration_ttl = max 60 (rule.window_seconds + 60);
  }

  accepted_in :
      (window : ℕ) (puts : List Put) (hit : Hit) (rest : List Hit)
      → ltb (seen puts hit) rule.limit ≡ true
      → accepted window puts (hit ∷ rest)
        ≡ (if window_of hit.now == window then 1 else 0)
          + accepted window (put_of puts hit ∷ puts) rest
  unfolding accepted enforce
  accepted_in window puts hit rest e = rw (accepted, enforce, e) refl

  accepted_out :
      (window : ℕ) (puts : List Put) (hit : Hit) (rest : List Hit)
      → ltb (seen puts hit) rule.limit ≡ false
      → accepted window puts (hit ∷ rest) ≡ accepted window puts rest
  unfolding accepted enforce
  accepted_out window puts hit rest e = rw (accepted, enforce, e) refl

  same_key :
      (window now : ℕ) → key_eq (key_of window) (key_of (window_of now)) ≡ (window == window_of now)
  same_key window now = rw (eq_refl rule.scope, eq_refl subject) refl

  -- No write to the key of the window has a higher count.
  abbrev pub Below : (window top : ℕ) → Put → Type 0
  Below window top put = key_eq (key_of window) put.key ≡ true → put.count ≤ top

  latest-Below :
      (window top : ℕ) (puts : List Put)
      → All (Below window top) puts
      → or_else (latest puts (key_of window)) 0 ≤ top
  latest-Below window top [] h = omega arith
  latest-Below window top (put ∷ puts) (hp, h) =
      elim (Bool-cases (key_eq (key_of window) put.key)) [
        | inl e ↦ let le = hp e in rw e le
        | inr e ↦ rw e (latest-Below window top puts h)
      ]

  drop-Below :
      (window top lag : ℕ) (puts : List Put)
      → All (Below window top) puts
      → All (Below window top) (drop lag puts)
  drop-Below window top zero puts h = h
  drop-Below window top (suc lag) [] h = tt
  drop-Below window top (suc lag) (put ∷ puts) (hp, h) = drop-Below window top lag puts h

  raise :
      (window top : ℕ) (puts : List Put)
      → All (Below window top) puts
      → All (Below window (top + 1)) puts
  raise window top [] h = tt
  raise window top (put ∷ puts) (hp, h) =
      ((λ e. let le = hp e in omega (arith, le)), raise window top puts h)

  seen-Below :
      (window top : ℕ) (puts : List Put) (hit : Hit)
      → window_of hit.now ≡ window
      → All (Below window top) puts
      → seen puts hit ≤ top
  seen-Below window top puts hit w h =
      subst (λ k. or_else (read_behind hit.lag puts (key_of k)) 0 ≤ top) (sym w)
        (latest-Below window top (drop hit.lag puts) (drop-Below window top hit.lag puts h))

  -- However far the reads lag behind the writes, no request is refused that the limit has room for: of
  -- the requests of a window at least so many are let through as the limit leaves above the counts that
  -- were written before, or all, if they are fewer.
  accepted-at_least :
      (window top : ℕ) (puts : List Put) (hits : List Hit)
      → All (Below window top) puts
      → min (rule.limit - top) (hits_in window hits) ≤ accepted window puts hits
  accepted-at_least window top puts [] h = unfold accepted in omega arith
  accepted-at_least window top puts (hit ∷ rest) h =
      elim (Bool-cases (ltb (seen puts hit) rule.limit)) [
        | inl e ↦ elim (Bool-cases (window_of hit.now == window)) [
          | inl w ↦
              let le = seen-Below window top puts hit (==_eq (window_of hit.now) window w) h in
              let ih =
                accepted-at_least window (top + 1) (put_of puts hit ∷ puts) rest
                  ((λ k. omega (arith, le)), raise window top puts h) in
              rw (accepted_in window puts hit rest e, w) (omega (arith, ih))
          | inr w ↦
              let ih =
                accepted-at_least window top (put_of puts hit ∷ puts) rest
                  ((λ k. absurd (ground (arith, k, w, same_key window hit.now))), h) in
              rw (accepted_in window puts hit rest e, w) (omega (arith, ih))
        ]
        | inr e ↦
            let ih = accepted-at_least window top puts rest h in
            rw (accepted_out window puts hit rest e)
              (elim (Bool-cases (window_of hit.now == window)) [
                | inl w ↦
                    let le =
                      seen-Below window top puts hit (==_eq (window_of hit.now) window w) h in
                    rw w (ground (arith, le, e))
                | inr w ↦ rw w (omega (arith, ih))
              ])
      ]

  -- What a read that does not lag sees.
  seen-latest :
      (window : ℕ) (puts : List Put) (hit : Hit)
      → hit.lag ≡ 0
      → window_of hit.now ≡ window
      → seen puts hit ≡ or_else (latest puts (key_of window)) 0
  seen-latest window puts hit no_lag same =
      ap (λ n. or_else (read_behind n puts (key_of (window_of hit.now))) 0) no_lag
      ∙ ap (λ k. or_else (latest puts (key_of k)) 0) same

  latest-put :
      (window : ℕ) (puts : List Put) (hit : Hit)
      → or_else (latest (put_of puts hit ∷ puts) (key_of window)) 0 ≡ (
          if window == window_of hit.now
          then seen puts hit + 1
          else or_else (latest puts (key_of window)) 0)
  latest-put window puts hit =
      rw (same_key window hit.now)
        (elim (Bool-cases (window == window_of hit.now)) [ inl e ↦ rw e refl | inr e ↦ rw e refl ])

  -- If no read lags, requests that are answered one after another are let through up to the limit and no
  -- further: exactly as many of a window as the limit leaves above the last count written before, or all,
  -- if they are fewer. The requests of other windows do not count.
  pub accepted-eq-min :
      (window : ℕ) (puts : List Put) (hits : List Hit)
      → All (λ h. h.lag ≡ 0) hits
      → accepted window puts hits
        ≡ min (rule.limit - or_else (read_behind 0 puts (key_of window)) 0) (hits_in window hits)
  accepted-eq-min window puts [] fresh = unfold accepted in ground arith
  accepted-eq-min window puts (hit ∷ rest) (no_lag, fresh) =
      let count = latest-put window puts hit in
      let next = accepted-eq-min window (put_of puts hit ∷ puts) rest fresh in
      let kept = accepted-eq-min window puts rest fresh in
      elim (Bool-cases (window_of hit.now == window)) [
        | inl w ↦
            let same = ==_eq (window_of hit.now) window w in
            let now = seen-latest window puts hit no_lag same in
            elim (Bool-cases (ltb (seen puts hit) rule.limit)) [
              | inl e ↦
                  rw (accepted_in window puts hit rest e, w)
                    (ground (arith, count, next, now, same, e))
              | inr e ↦ rw (accepted_out window puts hit rest e, w) (ground (arith, kept, now, e))
            ]
        | inr w ↦ elim (Bool-cases (ltb (seen puts hit) rule.limit)) [
          | inl e ↦ rw (accepted_in window puts hit rest e, w) (ground (arith, count, next, w))
          | inr e ↦ rw (accepted_out window puts hit rest e, w) (ground (arith, kept))
        ]
      ]
