-- ===== src/Iban/Tests.antt =====
-- Tests and instances for the IBANs of core/identifiers.py.
use mock_sim.Base.{ℕ, ◌≡◌, refl, true, false, Text, codes, arith, dict_get, text_eq, length, upper}
use mock_sim.Session.{ok}
use mock_sim.Decimal.{str_nat, digits_value}
use mock_sim.Iban.{numeric?, validate_iban, gen_iban}
use mock_sim.Iban.Generated.{gen_iban-valid}

-- An IBAN from the standard's examples, and the same with two digits exchanged.
standard_example : validate_iban (codes "GB82WEST12345698765432") ≡ true
unfolding validate_iban numeric? upper digits_value str_nat
standard_example = refl

exchanged_digits : validate_iban (codes "GB82WEST12345698765423") ≡ false
unfolding validate_iban numeric? upper digits_value str_nat
exchanged_digits = refl

abbrev sevens : ℕ → ℕ
sevens _ = 7

gen_iban-valid_example :
    (iban : Text) × (gen_iban (codes "BH") sevens ≡ ok iban)
    × (validate_iban iban ≡ true)
    × (length iban ≡ 22)
unfolding dict_get text_eq
gen_iban-valid_example = gen_iban-valid sevens (λ i. omega arith) (codes "BH") 22 18 refl
