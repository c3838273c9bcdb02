-- ===== src/Decimal/Padding.antt =====
-- Decimal text read by its digits, and the facts on padding with zeros (`f"{n:0{w}d}"`).
use mock_sim.Base.{
  ℕ, zero, suc, ◌-◌, ◌+◌, ◌*◌, ◌/◌, ◌%◌, ◌^◌, ◌<◌, ◌≤◌, ◌≡◌, refl, inl, inr, true, [], ◌∷◌, ◌++◌,
  Text, arith, Bool-cases, length, is_digit, ltb,
}
use native.Mathlib.Nat.{pow-suc}
use mock_sim.Decimal.{
  zeros, all_digits, to_digits, str_nat, digits_value, digits_value-str_nat, zero_pad, is_digits,
  is_digits-str_nat,
}

pub digits_value-append :
    (a : ℕ) (s t : Text) → digits_value a (s ++ t) ≡ digits_value (digits_value a s) t
unfolding digits_value
digits_value-append a [] t = refl
digits_value-append a (c ∷ s) t = digits_value-append (a * 10 + (c - b'0')) s t

digits_value-shift : (a : ℕ) (s : Text) → digits_value a s ≡ a * 10 ^ length s + digits_value 0 s
unfolding digits_value
digits_value-shift a [] = omega arith
digits_value-shift a (c ∷ s) =
    rw
      (
        digits_value-shift (a * 10 + (c - b'0')) s,
        digits_value-shift (0 * 10 + (c - b'0')) s,
        pow-suc 10 (length s),
      )
      (omega arith)

digits_value-zeros : (k : ℕ) (s : Text) → digits_value 0 (zeros k s) ≡ digits_value 0 s
unfolding digits_value zeros
digits_value-zeros zero s = refl
digits_value-zeros (suc k) s = digits_value-zeros k s

length-zeros : (k : ℕ) (s : Text) → length (zeros k s) ≡ k + length s
unfolding zeros
length-zeros zero s = omega arith
length-zeros (suc k) s = omega (arith, length-zeros k s)

all_digits-zeros : (k : ℕ) (s : Text) → all_digits s ≡ true → all_digits (zeros k s) ≡ true
unfolding zeros all_digits is_digit
all_digits-zeros zero s h = h
all_digits-zeros (suc k) s h = ground (arith, all_digits-zeros k s)

pub all_digits-is_digits : (s : Text) → is_digits s ≡ true → all_digits s ≡ true
unfolding is_digits
all_digits-is_digits [] h = cc
all_digits-is_digits (c ∷ s) h = h

-- A number below `10 ^ w` has at most `w` digits.
length-to_digits-le :
    (f n w : ℕ) (acc : Text)
    → n < f
    → n < 10 ^ suc w
    → length (to_digits f n acc) ≤ suc w + length acc
unfolding to_digits
length-to_digits-le zero n w acc h k = elim h [ ]
length-to_digits-le (suc f) n zero acc h k = ground arith
length-to_digits-le (suc f) n (suc w) acc h k = elim (Bool-cases (ltb n 10)) [
  | inl small ↦ rw small (omega arith)
  | inr large ↦ rw large (
      omega (
        arith,
        length-to_digits-le f (n / 10) w ((b'0' + n % 10) ∷ acc) (ground arith)
            (omega (arith, pow-suc 10 (suc w))),
      ))
]

length-str_nat-le : (n w : ℕ) → n < 10 ^ suc w → length (str_nat n) ≤ suc w
unfolding str_nat
length-str_nat-le n w h = omega (arith, length-to_digits-le (suc n) n w [] (omega arith) h)

-- A number padded with zeros to a width that it fits.
pub record Padded (w r : ℕ) : Type 0 where
  pub shown : all_digits (zero_pad w (str_nat r)) ≡ true
  pub width : length (zero_pad w (str_nat r)) ≡ w
  pub reads : (a : ℕ) → digits_value a (zero_pad w (str_nat r)) ≡ a * 10 ^ w + r

pub Padded_lem : (w r : ℕ) → r < 10 ^ suc w → Padded (suc w) r
unfolding zero_pad
Padded_lem w r h =
    let fits = length-str_nat-le r w h in
    record {
      shown =
          all_digits-zeros (suc w - length (str_nat r)) (str_nat r)
            (all_digits-is_digits (str_nat r) (is_digits-str_nat r));
      width = rw (length-zeros (suc w - length (str_nat r)) (str_nat r)) (omega arith);
      reads = λ a.
          rw
            (
              digits_value-shift a (zeros (suc w - length (str_nat r)) (str_nat r)),
              length-zeros (suc w - length (str_nat r)) (str_nat r),
              digits_value-zeros (suc w - length (str_nat r)) (str_nat r),
              digits_value-str_nat r,
            )
            (let e : suc w - length (str_nat r) + length (str_nat r) ≡ suc w = omega arith in rw e);
    }
