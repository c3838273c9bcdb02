-- ===== src/Pos/Regions.antt =====
-- pos/regions.py: the region table of the POS surface, and the lookup of a region. A rate that the
-- source writes as a float is here its number of hundredths.
use mock_sim.Base.{ℕ, Option, none, some, List, [], ◌∷◌, Text, codes, upper, dict_get}
use mock_sim.Errors.{python_error}
use mock_sim.Session.{Result, ok, err}

pub record PosRegionConfig : Type 0 where
  pub code : Text
  pub currency : Text
  pub card_networks : List Text
  pub domestic_network : Option Text
  pub domestic_routing_pct : ℕ
  pub default_mdr_bps : ℕ
  pub vat_on_mdr_pct : ℕ
  pub wht_pct : ℕ
  pub settlement_days : ℕ
  pub chargeback_window_days : ℕ × ℕ
  pub dispute_lifecycle_days : ℕ × ℕ
  pub weekend_days : List ℕ
  pub cnp_decline_rate : ℕ
  pub acquirers : List Text

abbrev pub pakistan : PosRegionConfig
pakistan = record {
  code = codes "PK";
  currency = codes "PKR";
  card_networks = codes "PayPak" ∷ codes "Visa" ∷ codes "Mastercard" ∷ codes "UnionPay" ∷ [];
  domestic_network = some (codes "PayPak");
  domestic_routing_pct = 60;
  default_mdr_bps = 150;
  vat_on_mdr_pct = 0;
  wht_pct = 0;
  settlement_days = 1;
  chargeback_window_days = (30, 90);
  dispute_lifecycle_days = (14, 45);
  weekend_days = 6 ∷ 7 ∷ [];
  cnp_decline_rate = 8;
  acquirers = codes "mocksim-hbl-pos" ∷ codes "mocksim-ub-pos" ∷ [];
}

abbrev pub emirates : PosRegionConfig
emirates = record {
  code = codes "AE";
  currency = codes "AED";
  card_networks = codes "Visa" ∷ codes "Mastercard" ∷ codes "UAE Switch" ∷ [];
  domestic_network = none;
  domestic_routing_pct = 0;
  default_mdr_bps = 175;
  vat_on_mdr_pct = 5;
  wht_pct = 0;
  settlement_days = 1;
  chargeback_window_days = (30, 120);
  dispute_lifecycle_days = (14, 45);
  weekend_days = 6 ∷ 7 ∷ [];
  cnp_decline_rate = 6;
  acquirers = codes "mocksim-network-intl" ∷ codes "mocksim-magnati" ∷ [];
}

abbrev pub saudi_arabia : PosRegionConfig
saudi_arabia = record {
  code = codes "SA";
  currency = codes "SAR";
  card_networks = codes "mada" ∷ codes "Visa" ∷ codes "Mastercard" ∷ [];
  domestic_network = some (codes "mada");
  domestic_routing_pct = 80;
  default_mdr_bps = 175;
  vat_on_mdr_pct = 15;
  wht_pct = 0;
  settlement_days = 1;
  chargeback_window_days = (30, 120);
  dispute_lifecycle_days = (14, 45);
  weekend_days = 5 ∷ 6 ∷ [];
  cnp_decline_rate = 7;
  acquirers = codes "mocksim-geidea" ∷ codes "mocksim-hyperpay" ∷ [];
}

abbrev pub egypt : PosRegionConfig
egypt = record {
  code = codes "EG";
  currency = codes "EGP";
  card_networks = codes "Meeza" ∷ codes "Visa" ∷ codes "Mastercard" ∷ [];
  domestic_network = some (codes "Meeza");
  domestic_routing_pct = 50;
  default_mdr_bps = 150;
  vat_on_mdr_pct = 0;
  wht_pct = 0;
  settlement_days = 2;
  chargeback_window_days = (30, 90);
  dispute_lifecycle_days = (14, 45);
  weekend_days = 5 ∷ 6 ∷ [];
  cnp_decline_rate = 10;
  acquirers = codes "mocksim-paymob" ∷ codes "mocksim-fawry" ∷ [];
}

abbrev pub bahrain : PosRegionConfig
bahrain = record {
  code = codes "BH";
  currency = codes "BHD";
  card_networks = codes "BENEFIT" ∷ codes "Visa" ∷ codes "Mastercard" ∷ [];
  domestic_network = some (codes "BENEFIT");
  domestic_routing_pct = 65;
  default_mdr_bps = 150;
  vat_on_mdr_pct = 10;
  wht_pct = 0;
  settlement_days = 1;
  chargeback_window_days = (30, 120);
  dispute_lifecycle_days = (14, 45);
  weekend_days = 5 ∷ 6 ∷ [];
  cnp_decline_rate = 7;
  acquirers = codes "mocksim-benefit" ∷ codes "mocksim-bani" ∷ [];
}

-- `_REGIONS`
abbrev pub regions : List (Text × PosRegionConfig)
regions =
    (codes "PK", pakistan)
    ∷ (codes "AE", emirates)
    ∷ (codes "SA", saudi_arabia)
    ∷ (codes "EG", egypt)
    ∷ (codes "BH", bahrain)
    ∷ []

-- `get_region`
unfoldable pub get_region : Text → Result PosRegionConfig
get_region code = elim (dict_get (upper code) regions) [
  | none ↦ err python_error
  | some cfg ↦ ok cfg
]
