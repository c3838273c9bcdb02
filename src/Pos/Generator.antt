-- ===== src/Pos/Generator.antt =====
-- pos/generator.py: the statistics of a merchant's transactions. The Poisson loop
-- takes fuel: a generator whose product of draws never falls would not end.
pub mod Sale
pub mod Day
pub mod Picks
pub mod Counts
pub mod Rows
pub mod Written
mod Tests
use mock_sim.Base.{
  ℕ, zero, suc, ◌+◌, ◌-◌, ◌*◌, ◌/◌, max, Bool, true, false, not, ◌&&◌, Option, none, some, List, [],
  ◌∷◌, map, Text, codes, text_eq, dict_get, where_all, leb, if◌then◌else◌,
}
use mock_sim.Base.Int.{ℤ, pos, negsuc, pos_part, ◌-ℤ◌}
use mock_sim.Models.{Merchant, PosTransaction, SettlementStatus, Payload, PosSale, pos_sale}
use mock_sim.Calendar.{Date, at_hour, microseconds_per_second}
use mock_sim.Decimal.{str_nat, str_int, zero_pad}
use mock_sim.Identifiers.{gen_rrn, gen_stan, gen_auth_code, gen_arn}
use mock_sim.Pos.Random.{Floats, Random, Draw, return, random, gauss, randint, ◌>>=◌}
use mock_sim.Pos.Regions.{PosRegionConfig}

abbrev pub batch_size : ℕ
batch_size = 100

-- `_CARD_BINS`
abbrev pub card_bins : List (Text × Text)
card_bins =
    (codes "Visa", codes "412345")
    ∷ (codes "Mastercard", codes "512345")
    ∷ (codes "PayPak", codes "636789")
    ∷ (codes "UnionPay", codes "620123")
    ∷ (codes "mada", codes "588845")
    ∷ (codes "BENEFIT", codes "558844")
    ∷ (codes "Meeza", codes "507803")
    ∷ (codes "UAE Switch", codes "586824")
    ∷ (codes "American Express", codes "372345")
    ∷ []

-- `_INTL_WEIGHTS`, in hundredths
abbrev pub intl_weights : List (Text × ℕ)
intl_weights =
    (codes "Visa", 55)
    ∷ (codes "Mastercard", 35)
    ∷ (codes "American Express", 5)
    ∷ (codes "UnionPay", 5)
    ∷ []

-- `d.get(k, default)`
abbrev pub get_with {ℓ} : {V : Type ℓ} → Text → List (Text × V) → V → V
get_with k d v = elim (dict_get k d) [ none ↦ v | some w ↦ w ]

unfoldable pub card_bin_of : Text → Text
card_bin_of network = get_with network card_bins (codes "999999")

abbrev pub is_not : Option Text → Text → Bool
is_not none n = true
is_not (some d) n = not (text_eq n d)

-- `card_networks[0]`; every region has networks.
abbrev pub head_or : Text → List Text → Text
head_or d [] = d
head_or d (x ∷ xs) = x

module _ {F : Type 0} (fl : Floats F) (rng : Random F) where
  -- The Knuth loop. `none`: the fuel ran out.
  unfoldable pub knuth : ℕ → F → ℕ → F → Draw (Option ℕ)
  knuth zero l k p = return none
  knuth (suc f) l k p =
      let next = random rng >>= λ u. knuth f l (suc k) (fl.mul p u) in
      if fl.lt l p then next else return (some (k - 1))

  -- `_poisson_approx`
  unfoldable pub poisson_approx : ℕ → F → Draw (Option ℕ)
  poisson_approx fuel lam =
      if not (fl.lt (fl.of_nat 0) lam)
      then return (some 0)
      else if fl.lt (fl.of_nat 30) lam
      then (gauss rng lam (fl.sqrt lam) >>= λ x. return (some (pos_part (fl.round x))))
      else knuth fuel (fl.exp (fl.neg lam)) 0 (fl.of_nat 1)

  -- `_lognormal_amount`
  unfoldable pub lognormal_amount : ℤ → Draw ℕ
  lognormal_amount (negsuc n) = return 1
  lognormal_amount (pos zero) = return 1
  lognormal_amount (pos (suc n)) =
      let cap = suc n * 10 in
      gauss rng (fl.log (fl.of_nat (suc n))) (fl.hundredths 50) >>= λ x.
      let raw = fl.exp x in
      return (max 1 (if fl.lt (fl.of_nat cap) raw then cap else fl.truncate raw))

  -- The loop over the networks with the sum of their weights so far.
  unfoldable pub walk : F → F → Text → List (Text × F) → Text
  walk r cumulative last [] = last
  walk r cumulative last ((net, w) ∷ rest) =
      let sum = fl.add cumulative w in if not (fl.lt sum r) then net else walk r sum net rest

  unfoldable pub total_weight : F → List (Text × F) → F
  total_weight acc [] = acc
  total_weight acc ((net, w) ∷ rest) = total_weight (fl.add acc w) rest

  abbrev pub weight_of : Text → F
  weight_of net = fl.hundredths (get_with net intl_weights 5)

  unfoldable pub weighted : List Text → Draw Text
  weighted nets =
      let weights = map {B = Text × F} (λ n. (n, weight_of n)) nets in
      let total = total_weight (fl.of_nat 0) weights in
      random rng >>= λ r.
      return (walk r (fl.of_nat 0) [] (map {B = Text × F} (λ (n, w). (n, fl.div w total)) weights))

  -- Step 2 of `_pick_card_network`, on the networks other than the domestic one.
  unfoldable pub pick_other : PosRegionConfig → List Text → Draw Text
  unfolding weighted
  pick_other cfg [] = return (head_or [] cfg.card_networks)
  pick_other cfg (n ∷ []) = return n
  pick_other cfg (n ∷ m ∷ rest) = weighted (n ∷ m ∷ rest)

  unfoldable pub pick_domestic : PosRegionConfig → Option Text → Draw Text
  unfolding pick_other
  pick_domestic cfg none = pick_other cfg (where_all (is_not none) cfg.card_networks)
  pick_domestic cfg (some domestic) = random rng >>= λ u.
      if fl.lt u (fl.hundredths cfg.domestic_routing_pct)
      then return domestic
      else pick_other cfg (where_all (is_not (some domestic)) cfg.card_networks)

  -- `_pick_card_network`
  unfoldable pub pick_card_network : PosRegionConfig → Draw Text
  unfolding pick_domestic
  pick_card_network cfg = pick_domestic cfg cfg.domestic_network
