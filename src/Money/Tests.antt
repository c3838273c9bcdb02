-- ===== src/Money/Tests.antt =====
-- Tests and instances for core/money.py.
use mock_sim.Base.{◌≡◌, refl, true, Text, codes, text_eq, is_digit, dict_get}
use mock_sim.Base.Int.{pos, negsuc, neg_ℤ, ◌*ℤ◌}
use mock_sim.Session.{ok, err}
use mock_sim.Errors.{python_error}
use mock_sim.Decimal.{str_int, int_text, is_digits, lstrip_minus, zero_pad}
use mock_sim.Money.{
  Money, is_supported, decimals_of, validate_fields, make_money, minor_units, from_minor, add, sub,
  mul, eq, major_text, floor_div, to_major,
}
use mock_sim.Money.Laws.{sub-add, minuses_accepted, IsWorth}
use mock_sim.Money.Display.{to_major-shown, seen_minor_units, shown}

abbrev pkr : Text
pkr = codes "PKR"

abbrev refund : Money
refund = record { value = codes "-150"; currency = pkr }

abbrev sale : Money
sale = record { value = codes "1250000"; currency = pkr }

refund_display : to_major refund ≡ ok (codes "-2.50")
unfolding to_major minor_units int_text neg_ℤ decimals_of dict_get text_eq major_text str_int
    floor_div zero_pad
refund_display = refl

sale_display : to_major sale ≡ ok (codes "12500.00")
unfolding to_major minor_units int_text decimals_of dict_get text_eq major_text str_int floor_div
    zero_pad
sale_display = refl

mul-sale : mul sale (negsuc 1) ≡ ok (record { value = codes "-2500000"; currency = pkr })
unfolding mul minor_units int_text from_minor make_money validate_fields is_supported decimals_of
    dict_get text_eq lstrip_minus str_int ◌*ℤ◌
mul-sale = refl

pkr_supported : is_supported pkr ≡ true
unfolding is_supported decimals_of dict_get text_eq
pkr_supported = refl

sale-IsWorth : IsWorth sale (pos 1250000)
unfolding minor_units int_text
sale-IsWorth = record { supported = pkr_supported; reads = refl }

refund-IsWorth : IsWorth refund (negsuc 149)
unfolding minor_units int_text neg_ℤ
refund-IsWorth = record { supported = pkr_supported; reads = refl }

sub-add_example :
    (s d : Money) × (add sale refund ≡ ok s) × (sub s refund ≡ ok d) × (eq d sale ≡ ok true)
sub-add_example = sub-add sale refund (pos 1250000) (negsuc 149) sale-IsWorth refund-IsWorth refl

minuses_accepted_example :
    (m : Money) × (make_money (codes "--5") pkr ≡ ok m) × (minor_units m ≡ err python_error)
unfolding is_digits is_digit
minuses_accepted_example = minuses_accepted 0 (codes "5") pkr pkr_supported refl

to_major-shown_example :
    (t : Text) × (to_major refund ≡ ok t) × (seen_minor_units t ≡ shown 1 (negsuc 149))
unfolding decimals_of dict_get text_eq
to_major-shown_example = to_major-shown refund (negsuc 149) 1 refund-IsWorth.reads refl
