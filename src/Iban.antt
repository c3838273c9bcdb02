-- ===== src/Iban.antt =====
-- core/identifiers.py: the generator and the validator of IBANs. The random digits are a parameter:
-- the results of the calls `rng.randint(0, 9)` in their order.
pub mod Checksum
pub mod Generated
mod Tests
use mock_sim.Base.{
  ℕ, zero, suc, ◌+◌, ◌-◌, ◌%◌, Bool, true, false, Option, none, some, List, [], ◌∷◌, ◌++◌, Text,
  codes, dict_get, is_digit, is_alpha, upper, take, drop, length, ltb, ◌==◌, if◌then◌else◌,
}
use mock_sim.Session.{Result, ok, err}
use mock_sim.Errors.{python_error}
use mock_sim.Decimal.{str_nat, digits_value, zero_pad}

-- `_IBAN_SPEC`: the total length and the length of the BBAN
abbrev pub iban_spec : List (Text × (ℕ × ℕ))
iban_spec =
    (codes "PK", (24, 20))
    ∷ (codes "AE", (23, 19))
    ∷ (codes "SA", (24, 20))
    ∷ (codes "EG", (29, 25))
    ∷ (codes "BH", (22, 18))
    ∷ []

-- `_MOCK_BANK_CODES`
abbrev pub mock_bank_codes : List (Text × Text)
mock_bank_codes =
    (codes "PK", codes "SCBL")
    ∷ (codes "AE", codes "033")
    ∷ (codes "SA", codes "10")
    ∷ (codes "EG", codes "0019")
    ∷ (codes "BH", codes "ITHMR")
    ∷ []

-- The digits that one character stands for; the checksum skips any character that has none.
unfoldable pub char_digits : ℕ → Text
unfolding is_digit is_alpha
char_digits ch =
    if is_digit ch then ch ∷ [] else if is_alpha ch then str_nat (ch - b'A' + 10) else []

unfoldable pub numeric : Text → Text
numeric [] = []
numeric (ch ∷ s) = char_digits ch ++ numeric s

-- `_iban_checksum`
unfoldable pub iban_checksum : Text → Text → Text
iban_checksum country bban =
    let n = digits_value 0 (numeric (upper (bban ++ country ++ codes "00"))) in
    zero_pad 2 (str_nat (98 - n % 97))

-- The loop of the validator, which stops at the first character that is neither digit nor letter.
unfoldable pub numeric? : Text → Option Text
unfolding is_digit is_alpha
numeric? [] = some []
numeric? (ch ∷ s) =
    let rest = numeric? s in
    if is_digit ch
    then elim rest [ some t ↦ some (ch ∷ t) | none ↦ none ]
    else if is_alpha ch
    then elim rest [ some t ↦ some (str_nat (ch - b'A' + 10) ++ t) | none ↦ none ]
    else none

unfoldable pub validate_iban : Text → Bool
validate_iban iban =
    if ltb (length iban) 4 then false else elim (numeric? (upper (drop 4 iban ++ take 4 iban))) [
      | none ↦ false
      | some [] ↦ false
      | some (c ∷ t) ↦ digits_value 0 (c ∷ t) % 97 == 1
    ]

-- `"".join(str(rng.randint(0, 9)) for _ in range(k))`, from the `i`-th call on
unfoldable pub random_digits : (ℕ → ℕ) → ℕ → ℕ → Text
random_digits randint i zero = []
random_digits randint i (suc k) = str_nat (randint i) ++ random_digits randint (suc i) k

unfoldable pub assemble : Text → ℕ → Text → Result Text
assemble region total_len bban =
    let iban = region ++ iban_checksum region bban ++ bban in
    if length iban == total_len then ok iban else err python_error

unfoldable pub gen_iban : Text → (ℕ → ℕ) → Result Text
unfolding assemble
gen_iban region randint = elim (dict_get region iban_spec) [
  | none ↦ err python_error
  | some (total_len, bban_len) ↦ elim (dict_get region mock_bank_codes) [
    | none ↦ err python_error
    | some bank_code ↦
        assemble region total_len
          (bank_code ++ random_digits randint 0 (bban_len - length bank_code))
  ]
]
