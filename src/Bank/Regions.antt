-- ===== src/Bank/Regions.antt =====
-- bank/regions.py: the bank region table, the lookup of a region and the bounce reasons.
pub mod Checks
mod Tests
use mock_sim.Base.{ℕ, Option, none, some, List, [], ◌∷◌, Text, codes, upper, dict_get}
use mock_sim.Errors.{python_error}
use mock_sim.Session.{Result, ok, err}

pub record BankRegionConfig : Type 0 where
  pub code : Text
  pub currency : Text
  pub rtgs_rail : Text
  pub instant_rail : Text
  pub dd_scheme : Text
  pub supported_rails : List Text
  pub iban_length : ℕ
  pub bic_suffix : Text
  pub settlement_cutoff_hour : ℕ
  pub weekend_days : List ℕ
  pub bounce_code_map : List (Text × Text)

-- `_CANONICAL_BOUNCE`
abbrev pub canonical_bounce : List Text
canonical_bounce =
    codes "INSUFFICIENT_FUNDS"
    ∷ codes "ACCOUNT_DORMANT"
    ∷ codes "ACCOUNT_CLOSED"
    ∷ codes "MANDATE_EXPIRED"
    ∷ codes "MANDATE_CANCELLED_BY_PAYER"
    ∷ codes "AMOUNT_EXCEEDS_LIMIT"
    ∷ codes "TECHNICAL_FAILURE"
    ∷ []

abbrev pub pakistan : BankRegionConfig
pakistan = record {
  code = codes "PK";
  currency = codes "PKR";
  rtgs_rail = codes "PRISM";
  instant_rail = codes "RAAST";
  dd_scheme = codes "1LINK_DD";
  supported_rails = codes "RAAST" ∷ codes "PRISM" ∷ codes "1LINK" ∷ codes "NIFT" ∷ [];
  iban_length = 24;
  bic_suffix = codes "PK";
  settlement_cutoff_hour = 16;
  weekend_days = 6 ∷ 7 ∷ [];
  bounce_code_map =
      (codes "D05", codes "INSUFFICIENT_FUNDS")
      ∷ (codes "D06", codes "ACCOUNT_DORMANT")
      ∷ (codes "D07", codes "ACCOUNT_CLOSED")
      ∷ (codes "D08", codes "MANDATE_EXPIRED")
      ∷ (codes "D09", codes "MANDATE_CANCELLED_BY_PAYER")
      ∷ (codes "D10", codes "AMOUNT_EXCEEDS_LIMIT")
      ∷ (codes "D99", codes "TECHNICAL_FAILURE")
      ∷ [];
}

abbrev pub emirates : BankRegionConfig
emirates = record {
  code = codes "AE";
  currency = codes "AED";
  rtgs_rail = codes "UAEFTS";
  instant_rail = codes "Aani";
  dd_scheme = codes "UAEDDS";
  supported_rails = codes "Aani" ∷ codes "UAEFTS" ∷ [];
  iban_length = 23;
  bic_suffix = codes "AE";
  settlement_cutoff_hour = 15;
  weekend_days = 6 ∷ 7 ∷ [];
  bounce_code_map =
      (codes "R01", codes "INSUFFICIENT_FUNDS")
      ∷ (codes "R02", codes "ACCOUNT_DORMANT")
      ∷ (codes "R03", codes "ACCOUNT_CLOSED")
      ∷ (codes "R04", codes "MANDATE_EXPIRED")
      ∷ (codes "R05", codes "MANDATE_CANCELLED_BY_PAYER")
      ∷ (codes "R06", codes "AMOUNT_EXCEEDS_LIMIT")
      ∷ (codes "R99", codes "TECHNICAL_FAILURE")
      ∷ [];
}

abbrev pub saudi_arabia : BankRegionConfig
saudi_arabia = record {
  code = codes "SA";
  currency = codes "SAR";
  rtgs_rail = codes "Sarie";
  instant_rail = codes "IPS";
  dd_scheme = codes "SADAD_DD";
  supported_rails = codes "IPS" ∷ codes "Sarie" ∷ [];
  iban_length = 24;
  bic_suffix = codes "SA";
  settlement_cutoff_hour = 15;
  weekend_days = 5 ∷ 6 ∷ [];
  bounce_code_map =
      (codes "AC04", codes "ACCOUNT_CLOSED")
      ∷ (codes "AM04", codes "INSUFFICIENT_FUNDS")
      ∷ (codes "AC06", codes "ACCOUNT_DORMANT")
      ∷ (codes "MD01", codes "MANDATE_CANCELLED_BY_PAYER")
      ∷ (codes "MD02", codes "MANDATE_EXPIRED")
      ∷ (codes "AM02", codes "AMOUNT_EXCEEDS_LIMIT")
      ∷ (codes "MS03", codes "TECHNICAL_FAILURE")
      ∷ [];
}

abbrev pub egypt : BankRegionConfig
egypt = record {
  code = codes "EG";
  currency = codes "EGP";
  rtgs_rail = codes "RTGS_CBE";
  instant_rail = codes "InstaPay";
  dd_scheme = codes "CBE_DD";
  supported_rails = codes "InstaPay" ∷ codes "RTGS_CBE" ∷ [];
  iban_length = 29;
  bic_suffix = codes "EG";
  settlement_cutoff_hour = 15;
  weekend_days = 5 ∷ 6 ∷ [];
  bounce_code_map =
      (codes "01", codes "INSUFFICIENT_FUNDS")
      ∷ (codes "02", codes "ACCOUNT_DORMANT")
      ∷ (codes "03", codes "ACCOUNT_CLOSED")
      ∷ (codes "04", codes "MANDATE_EXPIRED")
      ∷ (codes "05", codes "MANDATE_CANCELLED_BY_PAYER")
      ∷ (codes "06", codes "AMOUNT_EXCEEDS_LIMIT")
      ∷ (codes "99", codes "TECHNICAL_FAILURE")
      ∷ [];
}

abbrev pub bahrain : BankRegionConfig
bahrain = record {
  code = codes "BH";
  currency = codes "BHD";
  rtgs_rail = codes "EFTS";
  instant_rail = codes "BENEFIT_Pay";
  dd_scheme = codes "BENEFIT_DD";
  supported_rails = codes "BENEFIT_Pay" ∷ codes "EFTS" ∷ codes "FAWRI+" ∷ [];
  iban_length = 22;
  bic_suffix = codes "BH";
  settlement_cutoff_hour = 15;
  weekend_days = 5 ∷ 6 ∷ [];
  bounce_code_map =
      (codes "B01", codes "INSUFFICIENT_FUNDS")
      ∷ (codes "B02", codes "ACCOUNT_DORMANT")
      ∷ (codes "B03", codes "ACCOUNT_CLOSED")
      ∷ (codes "B04", codes "MANDATE_EXPIRED")
      ∷ (codes "B05", codes "MANDATE_CANCELLED_BY_PAYER")
      ∷ (codes "B06", codes "AMOUNT_EXCEEDS_LIMIT")
      ∷ (codes "B99", codes "TECHNICAL_FAILURE")
      ∷ [];
}

-- `_REGIONS`
abbrev pub regions : List (Text × BankRegionConfig)
regions =
    (codes "PK", pakistan)
    ∷ (codes "AE", emirates)
    ∷ (codes "SA", saudi_arabia)
    ∷ (codes "EG", egypt)
    ∷ (codes "BH", bahrain)
    ∷ []

unfoldable pub get_region : Text → Result BankRegionConfig
get_region code = elim (dict_get (upper code) regions) [
  | some cfg ↦ ok cfg
  | none ↦ err python_error
]

-- `d.get(k, default)`
abbrev pub get_default : Option Text → Text → Text
get_default (some v) default = v
get_default none default = default

abbrev pub bounce_messages : List (Text × Text)
bounce_messages =
    (codes "INSUFFICIENT_FUNDS", codes "Account balance below required amount")
    ∷ (codes "ACCOUNT_DORMANT", codes "Account is dormant")
    ∷ (codes "ACCOUNT_CLOSED", codes "Account is closed")
    ∷ (codes "MANDATE_EXPIRED", codes "Mandate has expired")
    ∷ (codes "MANDATE_CANCELLED_BY_PAYER", codes "Mandate was cancelled by payer")
    ∷ (codes "AMOUNT_EXCEEDS_LIMIT", codes "Amount exceeds mandate or account limit")
    ∷ (codes "TECHNICAL_FAILURE", codes "Technical failure at destination bank")
    ∷ []

-- `_bounce_message`
unfoldable pub bounce_message : Text → Text
bounce_message canonical =
    get_default (dict_get canonical bounce_messages) (codes "Unknown failure")

pub record BounceReason : Type 0 where
  pub bounce_reason : Text
  pub provider_code : Text
  pub provider_message : Text

unfoldable pub bounce_of : BankRegionConfig → Text → BounceReason
bounce_of cfg provider_code =
    let canonical =
      get_default (dict_get provider_code cfg.bounce_code_map) (codes "TECHNICAL_FAILURE") in
    record {
      bounce_reason = canonical;
      provider_code = provider_code;
      provider_message = bounce_message canonical;
    }

unfoldable pub normalize_bounce_reason : Text → Text → Result BounceReason
normalize_bounce_reason region_code provider_code = elim (get_region region_code) [
  | ok cfg ↦ ok (bounce_of cfg provider_code)
  | err e ↦ err e
]
