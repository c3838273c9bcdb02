-- ===== src/Pos/Generator/Tests.antt =====
-- Tests and instances for pos/generator.py, with floats that are whole numbers of hundredths.
use mock_sim.Base.{◌≡◌, refl, true, some, [], ◌∷◌, codes, text_eq, dict_get, upper, arith}
use mock_sim.Calendar.{Date, is_in, isoweekday, expected_settlement_date}
use mock_sim.Session.{Db, ok, visible}
use mock_sim.Pos.Random.{IsInRange, Truncates}
use mock_sim.Pos.Regions.{get_region, pakistan}
use mock_sim.Pos.Settlement.{load_merchant}
use mock_sim.Pos.Generator.{poisson_approx, knuth}
use mock_sim.Pos.Generator.Day.{weekend_hundredths, generate_merchant_day}
use mock_sim.Pos.Generator.Written.{IsGenerated, plan_of, generate_merchant_day-IsGenerated}
use mock_sim.Fixtures.{env, db}
use mock_sim.Fixtures.Shop.{shop, merchant, floats, rng_for}

abbrev shops : Db
shops = record db { merchants = merchant ∷ [] }

in_range : IsInRange (rng_for 1 shop 20)
in_range = record { low = λ n a b h. omega arith; high = λ n a b h. h }

truncates : Truncates floats
truncates = record { at = λ n x h. ground arith }

loads : load_merchant env 1 shop shops ≡ some merchant
unfolding load_merchant visible text_eq
loads = refl

region_known : get_region (codes "PK") ≡ ok pakistan
unfolding get_region text_eq dict_get upper
region_known = refl

draws_one :
    poisson_approx floats
      (rng_for 1 shop 20)
      5
      (floats.mul (floats.of_nat 10) (weekend_hundredths pakistan 20))
      0
    ≡ (some 1, 2)
unfolding poisson_approx knuth is_in isoweekday
draws_one = refl

generate_merchant_day-IsGenerated_example :
    (settle_date : Date) × (d' : Db) × (expected_settlement_date 20 1 (6 ∷ 7 ∷ [])
      ≡ some settle_date)
    × (generate_merchant_day floats 5 rng_for env 1 shop 20 true shops ≡ (ok (some 1), d'))
    × IsGenerated (plan_of 1 shop 20 merchant pakistan settle_date) 1 shops d'
generate_merchant_day-IsGenerated_example =
    generate_merchant_day-IsGenerated floats 5 rng_for env 1 shop 20 merchant pakistan 0 2 shops
      loads refl region_known draws_one in_range truncates
