-- ===== src/Money/Laws.antt =====
-- The arithmetic of `Money` (core/money.py) through its decimal text.
use mock_sim.Base.{
  ℕ, zero, suc, ◌≡◌, ◌≢◌, ◌∙◌, sym, refl, inl, inr, true, ◌&&◌, [], ◌∷◌, Text, arith, Bool-cases,
  text_eq, text_eq_refl, text_eq_iff, is_digit,
}
use mock_sim.Base.Int.{ℤ, pos, negsuc, ◌+ℤ◌, ◌-ℤ◌, neg_ℤ, int_laws, eqb_ℤ}
use mock_sim.Session.{Result, ok, err}
use mock_sim.Errors.{python_error}
use mock_sim.Decimal.{
  str_nat, str_int, is_digits, lstrip_minus, int_text, digits_value, is_digits-str_nat,
  digits_value-str_nat,
}
use mock_sim.Money.{
  Money, is_supported, validate_fields, make_money, minor_units, from_minor, add, sub, neg, eq,
}

-- A text of digits starts with no minus sign.
lstrip_minus-digits : (s : Text) → is_digits s ≡ true → lstrip_minus s ≡ s
unfolding lstrip_minus is_digits is_digit
lstrip_minus-digits [] h = refl
lstrip_minus-digits (c ∷ s) h = ground arith

int_text-digits : (s : Text) → is_digits s ≡ true → int_text s ≡ ok (pos (digits_value 0 s))
unfolding int_text is_digits is_digit
int_text-digits [] h = cc
int_text-digits (c ∷ s) h = ground arith

int_text-minus :
    (s : Text) → is_digits s ≡ true → int_text (b'-' ∷ s) ≡ ok (neg_ℤ (pos (digits_value 0 s)))
unfolding int_text
int_text-minus s h = rw h

-- `int` after `str` gives the number back.
pub int_text-str_int : (n : ℤ) → int_text (str_int n) ≡ ok n
unfolding str_int
int_text-str_int (pos n) =
    rw (int_text-digits (str_nat n) (is_digits-str_nat n), digits_value-str_nat n)
int_text-str_int (negsuc n) =
    rw (int_text-minus (str_nat (suc n)) (is_digits-str_nat (suc n)), digits_value-str_nat (suc n))
      (unfold neg_ℤ in ground arith)

is_digits-lstrip-str_int : (n : ℤ) → is_digits (lstrip_minus (str_int n)) ≡ true
unfolding str_int
is_digits-lstrip-str_int (pos n) =
    rw (lstrip_minus-digits (str_nat n) (is_digits-str_nat n)) (is_digits-str_nat n)
is_digits-lstrip-str_int (negsuc n) =
    unfold lstrip_minus in
    rw (lstrip_minus-digits (str_nat (suc n)) (is_digits-str_nat (suc n)))
      (is_digits-str_nat (suc n))

-- `from_minor` builds a value in every supported currency, whose minor units are the amount given.
pub from_minor-minor_units :
    (n : ℤ) (c : Text)
    → is_supported c ≡ true
    → (m : Money) × (from_minor n c ≡ ok m) × (minor_units m ≡ ok n) × (m.currency ≡ c)
unfolding from_minor make_money validate_fields minor_units
from_minor-minor_units n c h = (
  record { value = str_int n; currency = c },
  rw (h, is_digits-lstrip-str_int n),
  int_text-str_int n,
  refl,
)

-- An amount that `from_minor` has built reads as the number, and has the currency.
pub from_minor-units :
    (n : ℤ) (c : Text) (m : Money)
    → from_minor n c ≡ ok m
    → (minor_units m ≡ ok n) × (m.currency ≡ c)
unfolding from_minor make_money validate_fields
from_minor-units n c m e = elim (Bool-cases (is_supported c)) [
  | inl supported ↦
      let (built, made, reads, currency) = from_minor-minor_units n c supported in
      let same : ok built ≡ ok m = sym made ∙ e in
      let built≡m : built ≡ m = cc in rw (sym built≡m) (reads, currency)
  | inr other ↦ cc (rw other at e)
]

-- What an amount is worth: its currency is one that is supported, and its text reads as the number.
pub record IsWorth (m : Money) (n : ℤ) : Type 0 where
  pub supported : is_supported m.currency ≡ true
  pub reads : minor_units m ≡ ok n

-- The result of an operation: an amount in the currency, worth the number.
abbrev pub Yields : Result Money → Text → ℤ → Type 0
Yields r c n = (m : Money) × (r ≡ ok m) × (m.currency ≡ c) × IsWorth m n

from_minor-Yields : (n : ℤ) (c : Text) → is_supported c ≡ true → Yields (from_minor n c) c n
from_minor-Yields n c h =
    let (m, made, reads, same) = from_minor-minor_units n c h in
    (m, made, same, record { supported = rw same h; reads = reads })

module _ (a b : Money) (x y : ℤ) (wa : IsWorth a x) (wb : IsWorth b y) where
  -- Two amounts of one currency add to an amount in it that is worth the sum; amounts of two
  -- currencies do not add.
  pub add_lem :
      (a.currency ≡ b.currency → Yields (add a b) a.currency (x +ℤ y))
      × (a.currency ≢ b.currency → add a b ≡ err python_error)
  unfolding add
  add_lem = (
    (λ e.
        rw ((text_eq_iff a.currency b.currency).1 e, wa.reads, wb.reads)
          (from_minor-Yields (x +ℤ y) a.currency wa.supported)),
    (λ ne. ground (arith, text_eq_iff a.currency b.currency)),
  )

  pub sub_lem :
      (a.currency ≡ b.currency → Yields (sub a b) a.currency (x -ℤ y))
      × (a.currency ≢ b.currency → sub a b ≡ err python_error)
  unfolding sub
  sub_lem = (
    (λ e.
        rw ((text_eq_iff a.currency b.currency).1 e, wa.reads, wb.reads)
          (from_minor-Yields (x -ℤ y) a.currency wa.supported)),
    (λ ne. ground (arith, text_eq_iff a.currency b.currency)),
  )

  pub neg_lem : Yields (neg a) a.currency (neg_ℤ x)
  unfolding neg
  neg_lem = rw (wa.reads, neg) (from_minor-Yields (neg_ℤ x) a.currency wa.supported)

eqb_ℤ-cancel : (u v : ℤ) → ok (eqb_ℤ (u +ℤ v -ℤ v) u && true) ≡ ok true
eqb_ℤ-cancel u v = let e : u +ℤ v -ℤ v ≡ u = omega int_laws in rw e (ground arith)

eq-of_worth :
    (a b : Money) (x y : ℤ)
    → IsWorth a x
    → IsWorth b y
    → eq a b ≡ ok (eqb_ℤ x y && text_eq a.currency b.currency)
unfolding eq
eq-of_worth a b x y wa wb = rw (wa.reads, wb.reads, eq)

-- For two amounts of one currency the sum less the second is equal, as `__eq__` decides it, to the
-- first, and equality does not depend on how the texts are written.
pub sub-add :
    (a b : Money) (x y : ℤ)
    → IsWorth a x
    → IsWorth b y
    → a.currency ≡ b.currency
    → (s d : Money) × (add a b ≡ ok s) × (sub s b ≡ ok d) × (eq d a ≡ ok true)
sub-add a b x y wa wb e =
    let (s, added, cs, ws) = (add_lem a b x y wa wb).0 e in
    let (d, taken, cd, wd) = (sub_lem s b (x +ℤ y) y ws wb).0 (cs ∙ e) in
    (
      s,
      d,
      added,
      taken,
      eq-of_worth d a _ x wd wa ∙ (rw (cd ∙ cs, text_eq_refl a.currency) (eqb_ℤ-cancel x y)),
    )

-- `k` minus signs in front of a text
abbrev pub minuses : ℕ → Text → Text
minuses zero s = s
minuses (suc k) s = b'-' ∷ minuses k s

lstrip_minus-minuses : (k : ℕ) (s : Text) → lstrip_minus (minuses k s) ≡ lstrip_minus s
unfolding lstrip_minus
lstrip_minus-minuses zero s = refl
lstrip_minus-minuses (suc k) s = lstrip_minus-minuses k s

-- The validator strips every leading minus sign, and `int` takes one at most: with two or more in
-- front of the digits a value is accepted, and then cannot be read as a number.
pub minuses_accepted :
    (k : ℕ) (s : Text) (c : Text)
    → is_supported c ≡ true
    → is_digits s ≡ true
    → (m : Money) × (make_money (minuses (suc (suc k)) s) c ≡ ok m)
      × (minor_units m ≡ err python_error)
unfolding make_money validate_fields minor_units int_text is_digits is_digit
minuses_accepted k s c h d = (
  record { value = minuses (suc (suc k)) s; currency = c },
  rw (h, lstrip_minus-minuses (suc (suc k)) s, lstrip_minus-digits s d, d),
  refl,
)
