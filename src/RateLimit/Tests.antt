-- ===== src/RateLimit/Tests.antt =====
-- The limit of a window at a concrete input: three requests of a subject that two are allowed.
use uni_mailbox.Prelude.{ℕ, [], ◌∷◌, ◌≡◌, refl}
use uni_mailbox.RateLimit.{RateLimitRule, enforce}
use uni_mailbox.RateLimit.Quota.{Hit, accepted, accepted-eq-min}

abbrev two_a_minute : RateLimitRule
two_a_minute = record {
  scope = "send";
  limit = 2;
  window_seconds = 60;
  code = "LIMITED";
  message = "Too many requests";
}

abbrev hit : (now lag : ℕ) → Hit
hit now lag = record { now = now; lag = lag }

-- Reads that miss the last write let a third request through.
lagging :
    accepted two_a_minute "ann" 0 [] (hit 1000 0 ∷ hit 2000 1 ∷ hit 3000 1 ∷ hit 4000 0 ∷ []) ≡ 3
unfolding accepted enforce
lagging = refl

accepted-eq-min_example :
    accepted two_a_minute "ann" 0 [] (hit 1000 0 ∷ hit 61000 0 ∷ hit 2000 0 ∷ hit 3000 0 ∷ []) ≡ 2
accepted-eq-min_example =
    accepted-eq-min two_a_minute "ann" 0 []
      (hit 1000 0 ∷ hit 61000 0 ∷ hit 2000 0 ∷ hit 3000 0 ∷ []) (refl, (refl, (refl, (refl, tt))))
