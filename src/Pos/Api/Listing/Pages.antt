-- ===== src/Pos/Api/Listing/Pages.antt =====
-- A client that follows the cursors of `list_transactions` (pos/api.py) from page to page.
use mock_sim.Base.{ℕ, ◌≤◌, ◌≡◌, refl, ap, ◌∙◌, Option, none, List, [], map, length, Text}
use mock_sim.Base.Int.{ℤ}
use mock_sim.Base.Keys.{HasDistinctKeys}
use mock_sim.Models.{PosTransaction}
use mock_sim.Session.{Env, Db, Result, ok, err}
use mock_sim.Paging.{
  Codec, Decodes, page, clamp_limit, read_param, read_param-encoded, clamp_limit-bounds, map_option,
  latest_first,
}
use mock_sim.Paging.Walk.{walk, walk-encoded, walk-latest_first}
use mock_sim.Pos.Api.Listing.{
  TransactionItem, transaction_item, TransactionPage, matching_transactions, list_transactions,
}

-- What a client takes from a response: the items and the cursor of the next page.
abbrev pub shown : Result TransactionPage → List TransactionItem × Option Text
shown (ok p) = (p.items, p.next_cursor)
shown (err e) = ([], none)

module _ (env : Env) (codec : Codec) (merchant_id sim_date status : Option Text) (limit : ℤ)
    (d : Db) where
  -- A client asks page by page, while the table stays as it is.
  abbrev pub fetch : Option Text → List TransactionItem × Option Text
  fetch cursor = shown (list_transactions env codec merchant_id sim_date status cursor limit d).0

  module _ (date : Option ℕ) (read : read_param codec.date_of sim_date ≡ ok date)
      (h : Decodes codec) where
    fetch-page :
        (c : Option ℕ)
        → fetch (map_option codec.encode c) ≡ (
          map transaction_item
              (page
                (λ (t : PosTransaction). t.id)
                (clamp_limit limit)
                c
                (matching_transactions env merchant_id date status d)).0,
          map_option codec.encode
              (page
                (λ (t : PosTransaction). t.id)
                (clamp_limit limit)
                c
                (matching_transactions env merchant_id date status d)).1,
        )
    unfolding list_transactions
    fetch-page c = rw (read, read_param-encoded codec h c) refl

    -- Where the ids of the matching transactions are distinct and the date can be read, a client that
    -- follows the cursors from page to page, as often as there are transactions, sees each matching
    -- transaction of the tenant once, the latest id first, whatever limit it asks for.
    pub list_transactions-pages :
        HasDistinctKeys (λ t. t.id) (matching_transactions env merchant_id date status d)
        → (f : ℕ) → length (matching_transactions env merchant_id date status d) ≤ f
        → walk fetch f none
          ≡ map transaction_item
              (latest_first (λ t. t.id) (matching_transactions env merchant_id date status d))
    list_transactions-pages distinct f fits =
        let rows = matching_transactions env merchant_id date status d in
        let id_of = λ (t : PosTransaction). t.id in
        walk-encoded transaction_item codec.encode (λ c. page id_of (clamp_limit limit) c rows)
          fetch fetch-page f none
        ∙ ap (map transaction_item) (
            walk-latest_first id_of (clamp_limit limit) rows (clamp_limit-bounds limit).0 distinct f
              fits)
