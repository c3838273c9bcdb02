-- ===== src/Bank/Accounts/Statement/Lost.antt =====
-- The entries that a client of `get_statement` (bank/api.py) never sees.
use mock_sim.Base.{
  ℕ, suc, ◌<◌, ◌≡◌, refl, ap, ◌∙◌, Option, none, some, List, [], All, map, length, take, Text,
}
use mock_sim.Base.Int.{ℤ}
use mock_sim.Models.{Account, AccountEntry}
use mock_sim.Session.{Env, Db, Result, ok, err}
use mock_sim.Accounts.{select_account}
use mock_sim.Paging.{
  Codec, Decodes, page, clamp_limit, read_param-encoded, clamp_limit-bounds, map_option,
}
use mock_sim.Paging.Walk.{walk, walk-encoded}
use mock_sim.Paging.Lost.{walk-stuck}
use mock_sim.Bank.Accounts.Statement.{
  StatementEntry, statement_entry, StatementPage, matching_entries, get_statement,
}

-- What a client takes from a response: the entries and the cursor of the next page.
abbrev pub shown : Result StatementPage → List StatementEntry × Option Text
shown (ok p) = (p.entries, p.next_cursor)
shown (err e) = ([], none)

module _ (env : Env) (codec : Codec) (iban : Text) (limit : ℤ) (d : Db) where
  -- A client asks for all the entries, page by page, while the table stays as it is.
  abbrev pub fetch : Option Text → List StatementEntry × Option Text
  fetch cursor = shown (get_statement env codec iban none none cursor limit d).0

  fetch-page :
      (account : Account)
      → select_account env iban d ≡ some account
      → Decodes codec
      → (c : Option ℕ)
      → fetch (map_option codec.encode c) ≡ (
        map statement_entry
            (page
              (λ (e : AccountEntry). e.booking_datetime)
              (clamp_limit limit)
              c
              (matching_entries env iban none none d)).0,
        map_option codec.encode
            (page
              (λ (e : AccountEntry). e.booking_datetime)
              (clamp_limit limit)
              c
              (matching_entries env iban none none d)).1,
      )
  unfolding get_statement
  fetch-page account found h c = rw (found, read_param-encoded codec h c) refl

  -- Where the entries of an account all have one booking time, as those of one slice of simulated
  -- time do, and are more than the limit allows on a page, a client that follows the cursors from
  -- page to page only ever sees the first page of them, however often it asks.
  pub get_statement-lost :
      (account : Account) (t : ℕ)
      → select_account env iban d ≡ some account
      → Decodes codec
      → All (λ e. e.booking_datetime ≡ t) (matching_entries env iban none none d)
      → clamp_limit limit < length (matching_entries env iban none none d)
      → (f : ℕ)
      → walk fetch (suc f) none
        ≡ map statement_entry (take (clamp_limit limit) (matching_entries env iban none none d))
  get_statement-lost account t found h one_time many f =
      let rows = matching_entries env iban none none d in
      let time = λ (e : AccountEntry). e.booking_datetime in
      walk-encoded statement_entry codec.encode (λ c. page time (clamp_limit limit) c rows) fetch
        (fetch-page account found h) (suc f) none
      ∙ ap (map statement_entry)
          (walk-stuck time t (clamp_limit limit) rows (clamp_limit-bounds limit).0 one_time many f)
