-- ===== src/Pos/Api/Tests.antt =====
-- Tests and instances for pos/api.py.
use mock_sim.Base.{
  ℕ, ◌≡◌, refl, ◌+◌, ◌*◌, ◌^◌, none, some, [], ◌∷◌, map, Text, codes, text_eq, arith,
}
use mock_sim.Base.Int.{pos}
use mock_sim.Models.{PosTransaction}
use mock_sim.Session.{Db, visible}
use mock_sim.Paging.{latest_first, insert_latest}
use mock_sim.Paging.Walk.{walk}
use mock_sim.Pos.Api.{merchant_id_of, ulid_chars}
use mock_sim.Pos.Api.Listing.{transaction_item, matching_transactions}
use mock_sim.Pos.Api.Listing.Pages.{fetch, list_transactions-pages}
use mock_sim.Fixtures.{codec, decodes, env, db}
use mock_sim.Fixtures.Shop.{shop, sale}

abbrev sold : ℕ → Text → PosTransaction
sold id shop = record (sale id 100 20) {
  merchant_id = shop;
  expected_settlement_date = none;
  sim_date = 5;
}

abbrev listed : Db
listed = record db {
  transactions = sold 7 shop ∷ sold 9 shop ∷ sold 8 (codes "M2") ∷ sold 4 shop ∷ [];
}

three_match :
    matching_transactions env (some shop) (some 5) none listed
    ≡ sold 7 shop ∷ sold 9 shop ∷ sold 4 shop ∷ []
unfolding matching_transactions visible text_eq
three_match = refl

latest :
    latest_first (λ t. t.id) (sold 7 shop ∷ sold 9 shop ∷ sold 4 shop ∷ [])
    ≡ sold 9 shop ∷ sold 7 shop ∷ sold 4 shop ∷ []
unfolding latest_first insert_latest
latest = refl

-- Two ULIDs of one second give one merchant id.
same_second : merchant_id_of (5 * 2 ^ 90 + 1) ≡ merchant_id_of (5 * 2 ^ 90 + 3 * 2 ^ 80)
unfolding merchant_id_of ulid_chars
same_second = refl

list_transactions-pages_example :
    walk (fetch env codec (some shop) (some (5 ∷ [])) none (pos 2) listed) 3 none
    ≡ map transaction_item
        (latest_first (λ t. t.id) (matching_transactions env (some shop) (some 5) none listed))
list_transactions-pages_example =
    list_transactions-pages env codec (some shop) (some (5 ∷ [])) none (pos 2) listed (some 5) refl
      decodes (λ k. (rw three_match (ground arith))) 3 (rw three_match (omega arith))
