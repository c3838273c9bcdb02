-- ===== src/Identifiers.antt =====
-- core/identifiers.py: the texts that identify a card transaction, and the mock BICs. The draws of the
-- random source are those of a generator; `choice` of a sequence is `randint` of its indices.
use mock_sim.Base.{
  ℕ, zero, suc, ◌-◌, ◌%◌, none, some, List, [], ◌∷◌, ◌++◌, Text, codes, dict_get, take, get_or,
  length,
}
use mock_sim.Calendar.{Date}
use mock_sim.Calendar.Civil.{year_day}
use mock_sim.Decimal.{str_nat, zero_pad}
use mock_sim.Pos.Random.{Random, Draw, return, randint, ◌>>=◌}

-- `_MOCK_BICS`
abbrev pub mock_bics : List (Text × Text)
mock_bics =
    (codes "PK", codes "SCBLPKKA")
    ∷ (codes "AE", codes "ADCBAEAA")
    ∷ (codes "SA", codes "RJHISARI")
    ∷ (codes "EG", codes "CIBEEGCX")
    ∷ (codes "BH", codes "ITHMBHBM")
    ∷ []

unfoldable pub gen_bic : Text → Text
gen_bic region = elim (dict_get region mock_bics) [ none ↦ codes "MOCKSIMXX" | some bic ↦ bic ]

-- `str(sim_date.year)[-1]`
unfoldable pub year_digit : Date → Text
year_digit sim_date = str_nat ((year_day sim_date).year % 10)

-- `f"{tm_yday:03d}"`, `strftime("%j")`
unfoldable pub day_of_year : Date → Text
day_of_year sim_date = zero_pad 3 (str_nat (year_day sim_date).day)

-- `strftime("%y%j")`
unfoldable pub date_part : Date → Text
date_part sim_date = zero_pad 2 (str_nat ((year_day sim_date).year % 100)) ++ day_of_year sim_date

-- `str.ljust`
unfoldable pub ljust : ℕ → ℕ → Text → Text
ljust zero c s = s
ljust (suc w) c [] = c ∷ ljust w c []
ljust (suc w) c (d ∷ s) = d ∷ ljust w c s

module _ {F : Type 0} (rng : Random F) where
  -- `"".join(str(r.randint(0, 9)) for _ in range(count))`
  unfoldable pub digits : ℕ → Draw Text
  digits zero = return []
  digits (suc count) = do d ← randint rng 0 9; rest ← digits count; return (str_nat d ++ rest)

  unfoldable pub gen_rrn : Date → Draw Text
  gen_rrn sim_date = do
    seq ← digits 6
    return (ljust 12 b'0' (take 12 (year_digit sim_date ++ day_of_year sim_date ++ seq)))

  unfoldable pub gen_stan : Draw Text
  gen_stan = do n ← randint rng 0 999999; return (zero_pad 6 (str_nat n))

  abbrev pub alphanumerics : Text
  alphanumerics = codes "ABCDEFGHIJKLMNOPQRSTUVWXYZ0123456789"

  unfoldable pub choices : ℕ → Draw Text
  choices zero = return []
  choices (suc count) = do
    i ← randint rng 0 (length alphanumerics - 1)
    rest ← choices count
    return (get_or alphanumerics i b'A' ∷ rest)

  unfoldable pub gen_auth_code : Draw Text
  unfolding choices
  gen_auth_code = choices 6

  unfoldable pub gen_arn : Date → Draw Text
  gen_arn sim_date = do
    seq ← digits 13
    return (take 23 (codes "74999" ++ date_part sim_date ++ seq))
