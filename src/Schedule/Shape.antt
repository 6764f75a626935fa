-- ===== src/Schedule/Shape.antt =====
-- The texts of an instant with an offset, and that the pattern of the code takes exactly these.
use uni_mailbox.Prelude.{
  ℕ, ◌≤◌, true, false, ◌&&◌, List, [], ◌∷◌, ◌++◌, append_assoc, append_nil, ◌||◌, Option, none,
  some, ◌≡◌, ◌⊎◌, inl, inr, refl, sym, ap, ◌∙◌, subst, arith, Bool-cases, Option-cases, ◌==◌, ==_eq,
}
use uni_mailbox.Schedule.{
  Position, digit, only, is_digit, take_shape, minute_shape, second_shape, offset_shape,
  take_fraction, take_seconds, take_zone, IsoMatch, printed, match_iso,
}

-- A text fits a row of positions, one character to each.
abbrev pub Shaped : List Position → List ℕ → Type 0
Shaped [] [] = Unit
Shaped (digit ∷ ps) (c ∷ cs) = (b'0' ≤ c) × (c ≤ b'9') × Shaped ps cs
Shaped (only k ∷ ps) (c ∷ cs) = (c ≡ k) × Shaped ps cs
Shaped _ _ = ⊥

-- Nothing, or a point with one to three digits.
abbrev pub IsFraction : List ℕ → Type 0
IsFraction f =
    (f ≡ [])
    ⊎ (Shaped (only b'.' ∷ digit ∷ []) f
        ⊎ (Shaped (only b'.' ∷ digit ∷ digit ∷ []) f
            ⊎ Shaped (only b'.' ∷ digit ∷ digit ∷ digit ∷ []) f))

-- Z, or a sign with hours and minutes.
abbrev pub IsZone : List ℕ → Type 0
IsZone z =
    (z ≡ b'Z' ∷ []) ⊎ (Shaped (only b'+' ∷ offset_shape) z ⊎ Shaped (only b'-' ∷ offset_shape) z)

abbrev Taken : List Position → List ℕ → List ℕ × List ℕ → Type 0
Taken ps cs (t, r) = (cs ≡ t ++ r) × Shaped ps t

take_shape_sound :
    (ps : List Position) (cs t r : List ℕ)
    → take_shape ps cs ≡ some (t, r)
    → (cs ≡ t ++ r) × Shaped ps t
unfolding take_shape
take_shape_sound [] cs t r h =
    let same : ◌≡◌ {A = List ℕ × List ℕ} ([], cs) (t, r) = ground (arith, h) in
    subst (Taken [] cs) same (refl, tt)
take_shape_sound (p ∷ ps) [] t r h = absurd (ground (arith, h))
take_shape_sound (digit ∷ ps) (c ∷ cs) t r h = elim (Option-cases (take_shape ps cs)) [
  | inl e ↦ absurd (ground (arith, h, e))
  | inr ((u, v), e) ↦
      let (split, shaped) = take_shape_sound ps cs u v e in
      let same : ◌≡◌ {A = List ℕ × List ℕ} (c ∷ u, v) (t, r) = ground (arith, h, e) in
      let lo : b'0' ≤ c = ground (arith, h, e) in
      let hi : c ≤ b'9' = ground (arith, h, e) in
      subst (Taken (digit ∷ ps) (c ∷ cs)) same (ap (λ x. c ∷ x) split, (lo, hi, shaped))
]
take_shape_sound (only k ∷ ps) (c ∷ cs) t r h = elim (Option-cases (take_shape ps cs)) [
  | inl e ↦ absurd (ground (arith, h, e))
  | inr ((u, v), e) ↦
      let (split, shaped) = take_shape_sound ps cs u v e in
      let same : ◌≡◌ {A = List ℕ × List ℕ} (c ∷ u, v) (t, r) = ground (arith, h, e) in
      let is : c ≡ k = ground (arith, h, e) in
      subst (Taken (only k ∷ ps) (c ∷ cs)) same (ap (λ x. c ∷ x) split, (is, shaped))
]

take_shape_complete :
    (ps : List Position) (t r : List ℕ) → Shaped ps t → take_shape ps (t ++ r) ≡ some (t, r)
unfolding take_shape
take_shape_complete [] [] r h = refl
take_shape_complete (digit ∷ ps) [] r h = absurd h
take_shape_complete (only k ∷ ps) [] r h = absurd h
take_shape_complete [] (c ∷ t) r h = absurd h
take_shape_complete (digit ∷ ps) (c ∷ t) r (lo, hi, h) =
    let rest = take_shape_complete ps t r h in ground (arith, rest, lo, hi)
take_shape_complete (only k ∷ ps) (c ∷ t) r (e, h) =
    let rest = take_shape_complete ps t r h in ground (arith, rest, e)

-- What the code does with a sign.
zone_of :
    (c d : ℕ) (cs u : List ℕ)
    → take_shape offset_shape (d ∷ cs) ≡ some (u, [])
    → (c == b'+' || c == b'-') ≡ true
    → take_zone (c ∷ d ∷ cs) ≡ some (c ∷ u)
unfolding take_zone
zone_of c d cs u e sign = rw (take_zone, sign, e) refl

sign_of :
    (c d : ℕ) (cs z : List ℕ) → take_zone (c ∷ d ∷ cs) ≡ some z → (c == b'+' || c == b'-') ≡ true
unfolding take_zone
sign_of c d cs z h = elim (Bool-cases (c == b'+' || c == b'-')) [
  | inl e ↦ e
  | inr n ↦ absurd (let k : none ≡ some z = rw (take_zone, n) at h in ground (arith, k))
]

no_zone :
    (c d : ℕ) (cs z : List ℕ)
    → take_shape offset_shape (d ∷ cs) ≡ none
    → take_zone (c ∷ d ∷ cs) ≡ some z
    → ⊥
unfolding take_zone
no_zone c d cs z e h =
    let sign = sign_of c d cs z h in
    let k : none ≡ some z = rw (take_zone, sign, e) at h in ground (arith, k)

rest_left :
    (c d : ℕ) (cs z u r : List ℕ) (x : ℕ)
    → take_shape offset_shape (d ∷ cs) ≡ some (u, x ∷ r)
    → take_zone (c ∷ d ∷ cs) ≡ some z
    → ⊥
unfolding take_zone
rest_left c d cs z u r x e h =
    let sign = sign_of c d cs z h in
    let k : none ≡ some z = rw (take_zone, sign, e) at h in ground (arith, k)

signed_zone :
    (c d : ℕ) (z : List ℕ)
    → Shaped offset_shape (d ∷ z)
    → (c == b'+' || c == b'-') ≡ true
    → take_zone (c ∷ d ∷ z) ≡ some (c ∷ d ∷ z)
signed_zone c d z h sign =
    zone_of c d z (d ∷ z)
      (subst (λ x. take_shape offset_shape x ≡ some (d ∷ z, [])) (append_nil (d ∷ z))
        (take_shape_complete offset_shape (d ∷ z) [] h))
      sign

take_zone_complete : (z : List ℕ) → IsZone z → take_zone z ≡ some z
unfolding take_zone
take_zone_complete z (inl e) = rw e refl
take_zone_complete [] (inr (inl h)) = absurd h
take_zone_complete [] (inr (inr h)) = absurd h
take_zone_complete (c ∷ []) (inr (inl (e, h))) = absurd h
take_zone_complete (c ∷ []) (inr (inr (e, h))) = absurd h
take_zone_complete (c ∷ d ∷ z) (inr (inl (e, h))) = signed_zone c d z h (ground (arith, e))
take_zone_complete (c ∷ d ∷ z) (inr (inr (e, h))) = signed_zone c d z h (ground (arith, e))

take_zone_sound : (cs z : List ℕ) → take_zone cs ≡ some z → (z ≡ cs) × IsZone cs
unfolding take_zone
take_zone_sound [] z h = absurd (ground (arith, h))
take_zone_sound (c ∷ []) z h =
    let is : c ≡ b'Z' = ground (arith, h) in
    let same : c ∷ [] ≡ z = ground (arith, h) in (sym same, inl (ap (λ x. x ∷ []) is))
take_zone_sound (c ∷ d ∷ cs) z h = elim (Option-cases (take_shape offset_shape (d ∷ cs))) [
  | inl e ↦ absurd (no_zone c d cs z e h)
  | inr ((u, []), e) ↦
      let (split, shaped) = take_shape_sound offset_shape (d ∷ cs) u [] e in
      let whole : d ∷ cs ≡ u = split ∙ append_nil u in
      let same : some (c ∷ u) ≡ some z = sym (zone_of c d cs u e (sign_of c d cs z h)) ∙ h in
      let same_list : c ∷ u ≡ z = ground (arith, same) in
      let fitted : Shaped offset_shape (d ∷ cs) = subst (Shaped offset_shape) (sym whole) shaped in
      (
        sym same_list ∙ ap (λ x. c ∷ x) (sym whole),
        elim (Bool-cases (c == b'+')) [
          | inl plus ↦ inr (inl (==_eq c b'+' plus, fitted))
          | inr other ↦
              let sign = sign_of c d cs z h in
              let minus : c ≡ b'-' = ground (arith, sign, other) in inr (inr (minus, fitted))
        ],
      )
  | inr ((u, x ∷ r), e) ↦ absurd (rest_left c d cs z u r x e h)
]

abbrev Fraction : List ℕ → List ℕ × List ℕ → Type 0
Fraction cs (f, r) = (cs ≡ f ++ r) × IsFraction f

take_fraction_sound : (cs : List ℕ) → Fraction cs (take_fraction cs)
unfolding take_fraction
take_fraction_sound [] = (refl, inl refl)
take_fraction_sound (dot ∷ []) = (refl, inl refl)
take_fraction_sound (dot ∷ a ∷ []) = elim (Bool-cases (dot == b'.' && is_digit a)) [
  | inr n ↦ rw (take_fraction, n) (refl, inl refl)
  | inl y ↦
      rw (take_fraction, y)
        (refl, inr (inl (ground (arith, y), (ground (arith, y), ground (arith, y), tt))))
]
take_fraction_sound (dot ∷ a ∷ b ∷ []) = elim (Bool-cases (dot == b'.' && is_digit a)) [
  | inr n ↦ rw (take_fraction, n) (refl, inl refl)
  | inl y ↦ elim (Bool-cases (is_digit b)) [
    | inr n ↦
        rw (take_fraction, y, n)
          (refl, inr (inl (ground (arith, y), (ground (arith, y), ground (arith, y), tt))))
    | inl k ↦
        rw (take_fraction, y, k)
          (
            refl,
            inr (
                inr (
                  inl (
                    ground (arith, y),
                    (
                      ground (arith, y),
                      ground (arith, y),
                      (ground (arith, k), ground (arith, k), tt),
                    ),
                  ))),
          )
  ]
]
take_fraction_sound (dot ∷ a ∷ b ∷ c ∷ cs) = elim (Bool-cases (dot == b'.' && is_digit a)) [
  | inr n ↦ rw (take_fraction, n) (refl, inl refl)
  | inl y ↦ elim (Bool-cases (is_digit b)) [
    | inr n ↦
        rw (take_fraction, y, n)
          (refl, inr (inl (ground (arith, y), (ground (arith, y), ground (arith, y), tt))))
    | inl k ↦ elim (Bool-cases (is_digit c)) [
      | inr n ↦
          rw (take_fraction, y, k, n)
            (
              refl,
              inr (
                  inr (
                    inl (
                      ground (arith, y),
                      (
                        ground (arith, y),
                        ground (arith, y),
                        (ground (arith, k), ground (arith, k), tt),
                      ),
                    ))),
            )
      | inl l ↦
          rw (take_fraction, y, k, l)
            (
              refl,
              inr (
                  inr (
                    inr (
                      ground (arith, y),
                      (
                        ground (arith, y),
                        ground (arith, y),
                        (
                          ground (arith, k),
                          ground (arith, k),
                          (ground (arith, l), ground (arith, l), tt),
                        ),
                      ),
                    ))),
            )
    ]
  ]
]

digit_test : (c : ℕ) → b'0' ≤ c → c ≤ b'9' → is_digit c ≡ true
digit_test c lo hi = ground (arith, lo, hi)

-- A text that begins with neither a point nor a digit.
no_fraction : (c : ℕ) (zs : List ℕ) → (c == b'.') ≡ false → take_fraction (c ∷ zs) ≡ ([], c ∷ zs)
unfolding take_fraction
no_fraction c [] n = refl
no_fraction c (x ∷ []) n = rw (take_fraction, n) refl
no_fraction c (x ∷ y ∷ []) n = rw (take_fraction, n) refl
no_fraction c (x ∷ y ∷ z ∷ zs) n = rw (take_fraction, n) refl

one_digit :
    (dot a c : ℕ) (zs : List ℕ)
    → (dot == b'.') ≡ true
    → is_digit a ≡ true
    → is_digit c ≡ false
    → take_fraction (dot ∷ a ∷ c ∷ zs) ≡ (dot ∷ a ∷ [], c ∷ zs)
unfolding take_fraction
one_digit dot a c [] p d n = rw (take_fraction, p, d, n) refl
one_digit dot a c (x ∷ zs) p d n = rw (take_fraction, p, d, n) refl

take_fraction_complete :
    (f : List ℕ) (c : ℕ) (zs : List ℕ)
    → (c == b'.') ≡ false
    → is_digit c ≡ false
    → IsFraction f
    → take_fraction (f ++ c ∷ zs) ≡ (f, c ∷ zs)
unfolding take_fraction
take_fraction_complete [] c zs p n h = no_fraction c zs p
take_fraction_complete (dot ∷ []) c zs p n (inl e) = absurd (ground (arith, e))
take_fraction_complete (dot ∷ []) c zs p n (inr (inl (e, h))) = absurd h
take_fraction_complete (dot ∷ []) c zs p n (inr (inr (inl (e, h)))) = absurd h
take_fraction_complete (dot ∷ []) c zs p n (inr (inr (inr (e, h)))) = absurd h
take_fraction_complete (dot ∷ a ∷ []) c zs p n (inl e) = absurd (ground (arith, e))
take_fraction_complete (dot ∷ a ∷ []) c zs p n (inr (inl (e, (lo, hi, h)))) =
    one_digit dot a c zs (ground (arith, e)) (digit_test a lo hi) n
take_fraction_complete (dot ∷ a ∷ []) c zs p n (inr (inr (inl (e, (lo, hi, h))))) = absurd h
take_fraction_complete (dot ∷ a ∷ []) c zs p n (inr (inr (inr (e, (lo, hi, h))))) = absurd h
take_fraction_complete (dot ∷ a ∷ b ∷ []) c zs p n (inl e) = absurd (ground (arith, e))
take_fraction_complete (dot ∷ a ∷ b ∷ []) c zs p n (inr (inl (e, (lo, hi, h)))) = absurd h
take_fraction_complete (dot ∷ a ∷ b ∷ []) c zs p n (inr (inr (inl (e, (lo, hi, (lo', hi', h)))))) =
    let q : (dot == b'.') ≡ true = ground (arith, e) in
    let k = digit_test a lo hi in
    let l = digit_test b lo' hi' in rw (take_fraction, q, k, l, n) refl
take_fraction_complete (dot ∷ a ∷ b ∷ []) c zs p n (inr (inr (inr (e, (lo, hi, (lo', hi', h)))))) =
    absurd h
take_fraction_complete (dot ∷ a ∷ b ∷ d ∷ []) c zs p n (inl e) = absurd (ground (arith, e))
take_fraction_complete (dot ∷ a ∷ b ∷ d ∷ []) c zs p n (inr (inl (e, (lo, hi, h)))) = absurd h
take_fraction_complete (dot ∷ a ∷ b ∷ d ∷ []) c zs p n
      (inr (inr (inl (e, (lo, hi, (lo', hi', h)))))) =
    absurd h
take_fraction_complete (dot ∷ a ∷ b ∷ d ∷ []) c zs p n
      (inr (inr (inr (e, (lo, hi, (lo', hi', (lo'', hi'', h))))))) =
    let q : (dot == b'.') ≡ true = ground (arith, e) in
    let k = digit_test a lo hi in
    let l = digit_test b lo' hi' in
    let m = digit_test d lo'' hi'' in rw (take_fraction, q, k, l, m) refl
take_fraction_complete (dot ∷ a ∷ b ∷ d ∷ x ∷ f) c zs p n (inl e) = absurd (ground (arith, e))
take_fraction_complete (dot ∷ a ∷ b ∷ d ∷ x ∷ f) c zs p n (inr (inl (e, (lo, hi, h)))) = absurd h
take_fraction_complete (dot ∷ a ∷ b ∷ d ∷ x ∷ f) c zs p n
      (inr (inr (inl (e, (lo, hi, (lo', hi', h)))))) =
    absurd h
take_fraction_complete (dot ∷ a ∷ b ∷ d ∷ x ∷ f) c zs p n
      (inr (inr (inr (e, (lo, hi, (lo', hi', (lo'', hi'', h))))))) =
    absurd h

-- YYYY-MM-DDThh:mm:ss, a fraction or none, and an offset.
abbrev pub IsInstantText : List ℕ → Type 0
IsInstantText value =
    (minutes : List ℕ) × (seconds : List ℕ) × (fraction : List ℕ) × (zone : List ℕ) × (value
      ≡ minutes ++ ((seconds ++ fraction) ++ zone))
    × Shaped minute_shape minutes
    × Shaped second_shape seconds
    × IsFraction fraction
    × IsZone zone

-- Neither a point nor a digit begins an offset.
zone_head :
    (z : List ℕ)
    → IsZone z
    → (c : ℕ) × (zs : List ℕ) × (z ≡ c ∷ zs) × ((c == b'.') ≡ false) × (is_digit c ≡ false)
zone_head z (inl e) = (b'Z', [], e, refl, refl)
zone_head [] (inr (inl h)) = absurd h
zone_head [] (inr (inr h)) = absurd h
zone_head (c ∷ zs) (inr (inl (e, h))) = (c, zs, refl, ground (arith, e), ground (arith, e))
zone_head (c ∷ zs) (inr (inr (e, h))) = (c, zs, refl, ground (arith, e), ground (arith, e))

take_seconds_complete :
    (seconds fraction zone : List ℕ)
    → Shaped second_shape seconds
    → IsFraction fraction
    → IsZone zone
    → take_seconds ((seconds ++ fraction) ++ zone) ≡ (some (seconds ++ fraction), zone)
unfolding take_seconds
take_seconds_complete seconds fraction zone shaped fits_fraction fits_zone =
    let (c, zs, e, point, other) = zone_head zone fits_zone in
    let parts : take_shape second_shape ((seconds ++ fraction) ++ zone)
        ≡ some (seconds, fraction ++ zone) =
      subst (λ t. take_shape second_shape t ≡ some (seconds, fraction ++ zone))
        (sym (append_assoc seconds fraction zone))
        (take_shape_complete second_shape seconds (fraction ++ zone) shaped) in
    let rest : take_fraction (fraction ++ zone) ≡ (fraction, zone) =
      subst (λ z. take_fraction (fraction ++ z) ≡ (fraction, z)) (sym e)
        (take_fraction_complete fraction c zs point other fits_fraction) in
    rw (take_seconds, parts, rest) refl

abbrev matched : List ℕ → Option (List ℕ) → List ℕ → IsoMatch
matched minutes seconds zone = record { minutes = minutes; seconds = seconds; zone = zone }

-- A text of this form is matched, and nothing of it is lost.
pub match_iso_complete :
    (value : List ℕ)
    → IsInstantText value
    → (m : IsoMatch) × (s : List ℕ) × (match_iso value ≡ some m)
      × (m.seconds ≡ some s)
      × (value ≡ m.minutes ++ printed m.seconds ++ m.zone)
unfolding match_iso
match_iso_complete value (minutes, seconds, fraction, zone, e, a, b, f, z) =
    let first : take_shape minute_shape value ≡ some (minutes, (seconds ++ fraction) ++ zone) =
      subst (λ t. take_shape minute_shape t ≡ some (minutes, (seconds ++ fraction) ++ zone)) (sym e)
        (take_shape_complete minute_shape minutes ((seconds ++ fraction) ++ zone) a) in
    let second = take_seconds_complete seconds fraction zone b f z in
    (
      matched minutes (some (seconds ++ fraction)) zone,
      seconds ++ fraction,
      rw (match_iso, first, second, take_zone_complete zone z)
          (ap (λ q. some (matched minutes q.0 zone)) second),
      refl,
      e ∙ sym (append_assoc minutes (seconds ++ fraction) zone),
    )

abbrev or_else : {A : Type 0} → A → Option A → A
or_else d none = d
or_else d (some x) = x

-- The seconds that are taken have their shape, with a fraction or none.
take_seconds_sound :
    (rest s : List ℕ)
    → (take_seconds rest).0 ≡ some s
    → (seconds : List ℕ) × (fraction : List ℕ) × (s ≡ seconds ++ fraction)
      × (rest ≡ s ++ (take_seconds rest).1)
      × Shaped second_shape seconds
      × IsFraction fraction
unfolding take_seconds
take_seconds_sound rest s h = elim (Option-cases (take_shape second_shape rest)) [
  | inl f ↦
      absurd (let no_match : none ≡ some s = rw (take_seconds, f) at h in ground (arith, no_match))
  | inr ((seconds, rest'), f) ↦
      let (split, b) = take_shape_sound second_shape rest seconds rest' f in
      let (split', c) = take_fraction_sound rest' in
      let fraction = (take_fraction rest').0 in
      let left = (take_fraction rest').1 in
      let result : take_seconds rest ≡ (some (seconds ++ fraction), left) =
        rw (take_seconds, f) refl in
      let same : some (seconds ++ fraction) ≡ some s = sym (ap (λ q. q.0) result) ∙ h in
      let same' : seconds ++ fraction ≡ s = ap (or_else s) same in
      let whole : rest ≡ (seconds ++ fraction) ++ left =
        split ∙ ap (λ x. seconds ++ x) split' ∙ sym (append_assoc seconds fraction left) in
      (
        seconds,
        fraction,
        sym same',
        whole ∙ ap (λ x. x ++ left) same' ∙ ap (λ x. s ++ x) (sym (ap (λ q. q.1) result)),
        b,
        c,
      )
]

-- A text that is matched with its seconds is of this form, and nothing of it is lost.
pub match_iso_sound :
    (value s : List ℕ) (m : IsoMatch)
    → match_iso value ≡ some m
    → m.seconds ≡ some s
    → IsInstantText value × (value ≡ m.minutes ++ printed m.seconds ++ m.zone)
unfolding match_iso
match_iso_sound value s m h k = elim (Option-cases (take_shape minute_shape value)) [
  | inl e ↦
      absurd (let no_match : none ≡ some m = rw (match_iso, e) at h in ground (arith, no_match))
  | inr ((minutes, rest), e) ↦ elim (Option-cases (take_zone (take_seconds rest).1)) [
    | inl z ↦
        absurd
          (let no_match : none ≡ some m = rw (match_iso, e, z) at h in ground (arith, no_match))
    | inr (zone, z) ↦
        let (split, a) = take_shape_sound minute_shape value minutes rest e in
        let (same, d) = take_zone_sound (take_seconds rest).1 zone z in
        let is : some (matched minutes (take_seconds rest).0 zone) ≡ some m =
          rw (match_iso, e, z) at h in
        let is' : matched minutes (take_seconds rest).0 zone ≡ m = ap (or_else m) is in
        let taken : (take_seconds rest).0 ≡ some s = ap (λ q. q.seconds) is' ∙ k in
        let (seconds, fraction, parts, split', b, c) = take_seconds_sound rest s taken in
        let whole : value ≡ minutes ++ (s ++ zone) =
          split ∙ ap (λ x. minutes ++ x) (split' ∙ ap (λ x. s ++ x) (sym same)) in
        (
          (
            minutes,
            seconds,
            fraction,
            zone,
            whole ∙ ap (λ x. minutes ++ (x ++ zone)) parts,
            a,
            b,
            c,
            subst IsZone (sym same) d,
          ),
          subst (λ q. value ≡ (q.minutes ++ printed q.seconds) ++ q.zone) is'
              (subst (λ q. value ≡ (minutes ++ printed q) ++ zone) (sym taken)
                (whole ∙ sym (append_assoc minutes s zone))),
        )
  ]
]

-- Every text that is matched begins to the minute and ends in an offset.
pub match_iso_ends :
    (value : List ℕ) (m : IsoMatch)
    → match_iso value ≡ some m
    → Shaped minute_shape m.minutes × IsZone m.zone
unfolding match_iso
match_iso_ends value m h = elim (Option-cases (take_shape minute_shape value)) [
  | inl e ↦
      absurd (let no_match : none ≡ some m = rw (match_iso, e) at h in ground (arith, no_match))
  | inr ((minutes, rest), e) ↦ elim (Option-cases (take_zone (take_seconds rest).1)) [
    | inl z ↦
        absurd
          (let no_match : none ≡ some m = rw (match_iso, e, z) at h in ground (arith, no_match))
    | inr (zone, z) ↦
        let (split, a) = take_shape_sound minute_shape value minutes rest e in
        let (same, d) = take_zone_sound (take_seconds rest).1 zone z in
        let is : some (matched minutes (take_seconds rest).0 zone) ≡ some m =
          rw (match_iso, e, z) at h in
        subst (λ q. Shaped minute_shape q.minutes × IsZone q.zone) (ap (or_else m) is)
          (a, subst IsZone (sym same) d)
  ]
]
