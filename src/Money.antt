-- ===== src/Money.antt =====
-- core/money.py: amounts in minor units, kept as decimal text. A method that the source lets raise
-- returns a `Result`; building a value runs the validator, as pydantic does.
pub mod Laws
pub mod Display
mod Tests
use mock_sim.Base.{
  ℕ, suc, ◌+◌, ◌/◌, ◌%◌, ◌^◌, Bool, true, false, ◌&&◌, ◌||◌, not, Option, none, some, List, [], ◌∷◌,
  ◌++◌, Text, codes, text_eq, ◌==◌, if◌then◌else◌, is_none, dict_get,
}
use mock_sim.Base.Int.{
  ℤ, pos, negsuc, pos_part, neg_part, ◌+ℤ◌, ◌-ℤ◌, ◌*ℤ◌, neg_ℤ, ltb_ℤ, leb_ℤ, eqb_ℤ,
}
use mock_sim.Session.{Result, ok, err}
use mock_sim.Errors.{python_error}
use mock_sim.Decimal.{str_int, str_nat, is_digits, lstrip_minus, int_text, zero_pad}

-- `CURRENCY_DECIMALS`
abbrev pub currency_decimals : List (Text × ℕ)
currency_decimals =
    (codes "PKR", 2)
    ∷ (codes "AED", 2)
    ∷ (codes "SAR", 2)
    ∷ (codes "EGP", 2)
    ∷ (codes "BHD", 3)
    ∷ (codes "KWD", 3)
    ∷ (codes "JOD", 3)
    ∷ (codes "USD", 2)
    ∷ (codes "EUR", 2)
    ∷ (codes "GBP", 2)
    ∷ (codes "JPY", 0)
    ∷ []

unfoldable pub decimals_of : Text → Option ℕ
decimals_of c = dict_get c currency_decimals

-- `currency in CURRENCY_DECIMALS`
unfoldable pub is_supported : Text → Bool
is_supported c = not (is_none (decimals_of c))

pub record Money : Type 0 where
  pub value : Text
  pub currency : Text

-- `validate_fields`
unfoldable pub validate_fields : Text → Text → Bool
validate_fields value currency = is_supported currency && is_digits (lstrip_minus value)

-- `Money(value=..., currency=...)`
unfoldable pub make_money : Text → Text → Result Money
make_money value currency =
    if validate_fields value currency
    then ok (record { value = value; currency = currency })
    else err python_error

unfoldable pub minor_units : Money → Result ℤ
minor_units m = int_text m.value

unfoldable pub from_minor : ℤ → Text → Result Money
from_minor amount currency = make_money (str_int amount) currency

unfoldable pub zero : Text → Result Money
zero currency = make_money (codes "0") currency

-- `_assert_same_currency`, then the two numbers
unfoldable pub with_same_currency {ℓ} : {A : Type ℓ} → Money → Money → (ℤ → ℤ → A) → A → A
with_same_currency a b f fail =
    if text_eq a.currency b.currency
    then elim (minor_units a) [
      | ok x ↦ elim (minor_units b) [ ok y ↦ f x y | err _ ↦ fail ]
      | err _ ↦ fail
    ]
    else fail

-- `__add__`
unfoldable pub add : Money → Money → Result Money
unfolding with_same_currency
add a b = with_same_currency a b (λ x y. from_minor (x +ℤ y) a.currency) (err python_error)

-- `__sub__`
unfoldable pub sub : Money → Money → Result Money
unfolding with_same_currency
sub a b = with_same_currency a b (λ x y. from_minor (x -ℤ y) a.currency) (err python_error)

-- `__mul__` by an int
unfoldable pub mul : Money → ℤ → Result Money
mul a k = elim (minor_units a) [ ok x ↦ from_minor (x *ℤ k) a.currency | err e ↦ err e ]

-- `__neg__`
unfoldable pub neg : Money → Result Money
neg a = elim (minor_units a) [ ok x ↦ from_minor (neg_ℤ x) a.currency | err e ↦ err e ]

-- `__eq__` between two amounts: the numbers are compared before the currencies
unfoldable pub eq : Money → Money → Result Bool
eq a b = elim (minor_units a) [
  | ok x ↦ elim (minor_units b) [
    | ok y ↦ ok (eqb_ℤ x y && text_eq a.currency b.currency)
    | err e ↦ err e
  ]
  | err e ↦ err e
]

-- `__lt__`
unfoldable pub lt : Money → Money → Result Bool
unfolding with_same_currency
lt a b = with_same_currency a b (λ x y. ok (ltb_ℤ x y)) (err python_error)

-- `__le__`
unfoldable pub le : Money → Money → Result Bool
unfolding with_same_currency
le a b = with_same_currency a b (λ x y. ok (leb_ℤ x y)) (err python_error)

-- Python's `//` by a positive number rounds down.
unfoldable pub floor_div : ℤ → ℕ → ℤ
floor_div (pos n) m = pos (n / m)
floor_div (negsuc n) m = negsuc (n / m)

-- `to_major`, on the number and the decimals
unfoldable pub major_text : ℤ → ℕ → Text
major_text v d =
    if d == 0
    then str_int v
    else str_int (floor_div v (10 ^ d))
      ++ b'.' ∷ zero_pad d (str_nat ((pos_part v + neg_part v) % 10 ^ d))

unfoldable pub to_major : Money → Result Text
to_major m = elim (minor_units m) [
  | ok v ↦ elim (decimals_of m.currency) [ some d ↦ ok (major_text v d) | none ↦ err python_error ]
  | err e ↦ err e
]
