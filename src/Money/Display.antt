-- ===== src/Money/Display.antt =====
-- `Money.to_major` (core/money.py): the display text against the amount that it shows.
use mock_sim.Base.{
  ℕ, suc, ◌-◌, ◌+◌, ◌*◌, ◌/◌, ◌%◌, ◌^◌, ◌<◌, ◌≤◌, ◌≡◌, refl, inl, inr, true, false, some, [], ◌∷◌,
  ◌++◌, Text, arith, ◌==◌, if◌then◌else◌, Bool-cases, ==_iff, sym, is_digit, ap,
}
use mock_sim.Base.Int.{ℤ, pos, negsuc, ◌-ℤ◌}
use native.Mathlib.Nat.{mod-lt, div-add-mod', one-le-pow, mul-le-mul_right}
use native.Mathlib.Decide.{dec_le}
use mock_sim.Decimal.Padding.{Padded_lem, digits_value-append, all_digits-is_digits}
use mock_sim.Decimal.{
  str_int-pos, str_int-negsuc, all_digits, str_nat, digits_value, digits_value-str_nat, zero_pad,
  is_digits, is_digits-str_nat,
}
use mock_sim.Money.{Money, minor_units, decimals_of, to_major, major_text, floor_div}
use mock_sim.Session.{ok}

-- The number of minor units that a reader sees: the digits with the point left out, and the sign.
abbrev pub without_point : Text → Text
without_point [] = []
without_point (c ∷ s) = if c == b'.' then without_point s else c ∷ without_point s

abbrev pub seen_minor_units : Text → ℤ
seen_minor_units [] = pos 0
seen_minor_units (c ∷ s) =
    if c == b'-'
    then pos 0 -ℤ pos (digits_value 0 (without_point s))
    else pos (digits_value 0 (without_point (c ∷ s)))

without_point-digits :
    (s t : Text) → all_digits s ≡ true → without_point (s ++ t) ≡ s ++ without_point t
unfolding all_digits is_digit
without_point-digits [] t h = refl
without_point-digits (c ∷ s) t h = ground (arith, without_point-digits s t)

without_point_self : (s : Text) → all_digits s ≡ true → without_point s ≡ s
unfolding all_digits is_digit
without_point_self [] h = refl
without_point_self (c ∷ s) h = ground (arith, without_point_self s)

-- Digits, a point and a fraction read as the number of minor units.
read_pointed :
    (q w r : ℕ)
    → r < 10 ^ suc w
    → digits_value 0 (without_point (str_nat q ++ b'.' ∷ zero_pad (suc w) (str_nat r)))
      ≡ q * 10 ^ suc w + r
read_pointed q w r h =
    let f = Padded_lem w r h in
    rw
      (
        without_point-digits (str_nat q) (b'.' ∷ zero_pad (suc w) (str_nat r))
            (all_digits-is_digits (str_nat q) (is_digits-str_nat q)),
        without_point_self (zero_pad (suc w) (str_nat r)) f.shown,
        digits_value-append 0 (str_nat q) (zero_pad (suc w) (str_nat r)),
        digits_value-str_nat q,
      )
      (f.reads q)

-- The text of digits starts with no minus sign.
seen_minor_units-digits :
    (s t : Text)
    → is_digits s ≡ true
    → seen_minor_units (s ++ t) ≡ pos (digits_value 0 (without_point (s ++ t)))
unfolding is_digits all_digits is_digit
seen_minor_units-digits [] t h = cc
seen_minor_units-digits (c ∷ s) t h = ground arith

quotient_le : (q q' r r' m : ℕ) → q * m + r ≡ q' * m + r' → r' < m → q ≤ q'
quotient_le q q' r r' m e h = elim (dec_le q q') [
  | yes le ↦ le
  | no gt ↦
      let more : suc q' * m ≤ q * m = mul-le-mul_right m (omega arith) in
      absurd (omega (arith, more))
]

-- The quotient of the successor, where it leaves a remainder and where it leaves none.
suc-div :
    (n m : ℕ) → 0 < m → suc (n / m) * m + suc n % m ≡ (if suc n % m == 0 then suc n else suc n + m)
suc-div n m h =
    let r = mod-lt n h in
    let r' = mod-lt (suc n) h in
    let d = div-add-mod' n m in
    let d' = div-add-mod' (suc n) m in
    elim (Bool-cases (suc n % m == 0)) [
      | inl whole ↦ rw whole (exact d d' r ((==_iff (suc n % m) 0).0 whole))
      | inr rest ↦
          let below : suc n / m * m + (suc n % m - 1) ≡ n / m * m + n % m = ground arith in
          let le : suc n / m ≤ n / m =
            quotient_le (suc n / m) (n / m) (suc n % m - 1) (n % m) m below r in
          let ge : n / m ≤ suc n / m =
            quotient_le (n / m) (suc n / m) (n % m) (suc n % m - 1) m (sym below) (omega arith) in
          let same : suc n / m ≡ n / m = omega arith in
          rw rest (omega (arith, ap (λ (t : ℕ). t * m) same))
    ]
  where
    exact :
        n / m * m + n % m ≡ n
        → suc n / m * m + suc n % m ≡ suc n
        → n % m < m
        → suc n % m ≡ 0
        → suc (n / m) * m + suc n % m ≡ suc n
    exact d d' r z = elim (dec_le (suc n / m) (n / m)) [
      | yes le ↦
          let fewer : suc n / m * m ≤ n / m * m = mul-le-mul_right m le in absurd (omega arith)
      | no gt ↦
          let more : suc (n / m) * m ≤ suc n / m * m = mul-le-mul_right m (omega arith) in
          omega arith
    ]

major_text-pos :
    (w n : ℕ)
    → major_text (pos n) (suc w)
      ≡ str_nat (n / 10 ^ suc w) ++ b'.' ∷ zero_pad (suc w) (str_nat (n % 10 ^ suc w))
unfolding major_text floor_div
major_text-pos w n =
    let e : n + 0 ≡ n = omega arith in
    let some_digits : (suc w == 0) ≡ false = ground arith in
    rw (some_digits, str_int-pos (n / 10 ^ suc w), e)

major_text-negsuc :
    (w n : ℕ)
    → major_text (negsuc n) (suc w)
      ≡ b'-'
        ∷ (str_nat (suc (n / 10 ^ suc w)) ++ b'.' ∷ zero_pad (suc w) (str_nat (suc n % 10 ^ suc w)))
unfolding major_text floor_div
major_text-negsuc w n =
    let e : 0 + suc n ≡ suc n = omega arith in
    let some_digits : (suc w == 0) ≡ false = ground arith in
    rw (some_digits, str_int-negsuc (n / 10 ^ suc w), e)

module _ (w : ℕ) where
  major_text_nonneg : (n : ℕ) → seen_minor_units (major_text (pos n) (suc w)) ≡ pos n
  major_text_nonneg n =
      rw
        (
          major_text-pos w n,
          seen_minor_units-digits (str_nat (n / 10 ^ suc w))
              (b'.' ∷ zero_pad (suc w) (str_nat (n % 10 ^ suc w)))
              (is_digits-str_nat (n / 10 ^ suc w)),
          read_pointed (n / 10 ^ suc w) w (n % 10 ^ suc w)
              (mod-lt n (one-le-pow (suc w) 10 (omega arith))),
        )
        (ap pos (div-add-mod' n (10 ^ suc w)))

  major_text_negative :
      (n : ℕ)
      → seen_minor_units (major_text (negsuc n) (suc w))
        ≡ (if suc n % 10 ^ suc w == 0 then negsuc n else negsuc n -ℤ pos (10 ^ suc w))
  unfolding ◌-ℤ◌
  major_text_negative n =
      let p = one-le-pow (suc w) 10 (omega arith) in
      rw
        (
          major_text-negsuc w n,
          read_pointed (suc (n / 10 ^ suc w)) w (suc n % 10 ^ suc w) (mod-lt (suc n) p),
          suc-div n (10 ^ suc w) p,
        )
        (ground (arith, p))

-- The number that the display of an amount shows.
abbrev pub shown : ℕ → ℤ → ℤ
shown w (pos n) = pos n
shown w (negsuc n) = if suc n % 10 ^ suc w == 0 then negsuc n else negsuc n -ℤ pos (10 ^ suc w)

-- In a currency with decimals, `to_major` displays an amount that is not negative, or that is a whole
-- number of major units, as the number that it is; any other it displays as one major unit less.
pub to_major-shown :
    (m : Money) (v : ℤ) (w : ℕ)
    → minor_units m ≡ ok v
    → decimals_of m.currency ≡ some (suc w)
    → (t : Text) × (to_major m ≡ ok t) × (seen_minor_units t ≡ shown w v)
unfolding to_major
to_major-shown m (pos n) w e d =
    (major_text (pos n) (suc w), rw (e, d, to_major), major_text_nonneg w n)
to_major-shown m (negsuc n) w e d =
    (major_text (negsuc n) (suc w), rw (e, d, to_major), major_text_negative w n)
