-- ===== src/Bank/Regions/Tests.antt =====
-- Tests and instances for bank/regions.py.
use mock_sim.Base.{◌≡◌, refl, true, false, codes, text_eq, upper, is_member, dict_get}
use mock_sim.Session.{ok, err}
use mock_sim.Errors.{python_error}
use mock_sim.Bank.Regions.{
  get_region, pakistan, normalize_bounce_reason, BounceReason, canonical_bounce,
}
use mock_sim.Bank.Regions.Checks.{normalize_bounce_reason-canonical, unknown}

lower_case : get_region (codes "pk") ≡ ok pakistan
unfolding get_region dict_get text_eq upper
lower_case = refl

no_region : get_region (codes "DE") ≡ err python_error
unfolding get_region dict_get text_eq upper
no_region = refl

normalize_bounce_reason-canonical_example :
    (b : BounceReason) × (normalize_bounce_reason (codes "pk") (codes "D05") ≡ ok b)
    × (is_member b.bounce_reason canonical_bounce ≡ true)
    × (b.provider_code ≡ codes "D05")
    × (text_eq b.provider_message unknown ≡ false)
normalize_bounce_reason-canonical_example =
    normalize_bounce_reason-canonical (codes "pk") (codes "D05") pakistan lower_case
