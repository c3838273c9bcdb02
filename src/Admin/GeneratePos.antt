-- ===== src/Admin/GeneratePos.antt =====
-- admin/api.py: `generate_pos_for_merchants`, which generates days of merchants, and in a backfill
-- settles them at once. A day that raises counts as none; `none` is returned where the fuel of a
-- Poisson loop ran out.
pub mod Drained
use mock_sim.Base.{
  ℕ, zero, suc, ◌+◌, ◌-◌, Bool, true, false, Option, none, some, List, [], ◌∷◌, ◌&&◌, Text,
  is_member, where_all, ltb, leb, not, if◌then◌else◌,
}
use mathlib.Core.Option
use mock_sim.Models.{Merchant, SettlementBatch}
use mock_sim.Session.{Env, Db, Session, Result, ok, err, pure, gets, ◌>>=◌, ◌>>◌}
use mock_sim.Calendar.{Date, date_of}
use mock_sim.Pos.Random.{Floats, Random}
use mock_sim.Pos.Settlement.{settle_merchant_day}
use mock_sim.Pos.Generator.Day.{generate_merchant_day}

pub record GeneratePosRequest : Type 0 where
  pub merchant_ids : List Text
  pub days : ℕ
  pub backfill : Bool

-- So many days from one on.
unfoldable pub days_from : Date → ℕ → List Date
days_from start zero = []
days_from start (suc n) = start ∷ days_from (suc start) n

-- The dates of the request; it has at least one day.
unfoldable pub dates_of : Date → GeneratePosRequest → List Date
dates_of today body =
    if body.backfill
    then days_from (today - (body.days - 1)) body.days
    else days_from today body.days

unfoldable pub sum_counts : List ℕ → ℕ
sum_counts [] = 0
sum_counts (n ∷ ns) = n + sum_counts ns

-- `try … except Exception`, with what a raise counts as
abbrev pub or_count : {A : Type 0} → A → Session A → Session A
or_count a m d = let (r, d') = m d in (ok (elim r [ ok x ↦ x | err e ↦ a ]), d')

abbrev pub batch_count : Option SettlementBatch → ℕ
batch_count none = 0
batch_count (some b) = 1

-- The settlement of one date: how many batches it makes.
unfoldable pub settle_quietly : Env → Merchant → Date → Session ℕ
settle_quietly env m date = do
  batch ← or_count none (settle_merchant_day env m.mock_tenant_id m.id date)
  pure (batch_count batch)

-- The body of the loop over the offsets.
unfoldable pub settle_offset : Env → Date → Merchant → Date → Session ℕ
settle_offset env today m settle_for =
    if ltb (today + 2) settle_for then pure 0 else settle_quietly env m settle_for

-- The loops over the dates and the offsets.
unfoldable pub drain : Env → Date → Merchant → List Date → Session ℕ
drain env today m [] = pure 0
drain env today m (d ∷ dates) = do
  a ← settle_offset env today m d
  b ← settle_offset env today m (d + 1)
  c ← settle_offset env today m (d + 2)
  rest ← drain env today m dates
  pure (a + b + c + rest)

pub record MerchantResult : Type 0 where
  pub merchant_id : Text
  pub name : Text
  pub acquirer_merchant_id : Option Text
  pub txns_per_day : List ℕ
  pub txns_total : ℕ

pub record GeneratedPos : Type 0 where
  pub results : List MerchantResult
  pub total_txns : ℕ
  pub settlement_batches : ℕ

pub data GeneratePosResponse : Type 0 where
  no_merchants : GeneratePosResponse
  generated_pos : GeneratedPos → List Date → GeneratePosResponse

-- With no merchant there is a warning in place of the dates.
abbrev pub pos_response : List Merchant → List Date → GeneratedPos → GeneratePosResponse
pos_response [] dates all = no_merchants
pos_response (m ∷ ms) dates all = generated_pos all dates

module _ {F : Type 0} (fl : Floats F) (fuel : ℕ) (rng_for : ℕ → Text → Date → Random F)
    (env : Env) where
  -- The day of a merchant, with the next day scheduled.
  unfoldable pub generate_quietly : Merchant → Date → Session (Option ℕ)
  generate_quietly m date =
      or_count (some 0) (generate_merchant_day fl fuel rng_for env m.mock_tenant_id m.id date true)

  -- The counts of the days.
  unfoldable pub generate_days : Merchant → List Date → Session (Option (List ℕ))
  generate_days m [] = pure (some [])
  generate_days m (date ∷ dates) = do
    count ← generate_quietly m date
    elim count [
      | none ↦ pure none
      | some n ↦ do counts ← generate_days m dates; pure (Option.map (λ ns. n ∷ ns) counts)
    ]

  -- The body of the loop over the merchants, once the days are generated.
  unfoldable pub drain_after : Date → Bool → Merchant → List Date → List ℕ → Session ℕ
  drain_after today backfill m dates counts =
      if backfill && ltb 0 (sum_counts counts) then drain env today m dates else pure 0

  abbrev pub result_of : Merchant → List ℕ → MerchantResult
  result_of m counts = record {
    merchant_id = m.id;
    name = m.name;
    acquirer_merchant_id = m.acquirer_merchant_id;
    txns_per_day = counts;
    txns_total = sum_counts counts;
  }

  abbrev pub add_result : MerchantResult → ℕ → GeneratedPos → GeneratedPos
  add_result result batches later = record {
    results = result ∷ later.results;
    total_txns = result.txns_total + later.total_txns;
    settlement_batches = batches + later.settlement_batches;
  }

  unfoldable pub generate_merchants :
      Date → Bool → List Date → List Merchant → Session (Option GeneratedPos)
  generate_merchants today backfill dates [] =
      pure (some (record { results = []; total_txns = 0; settlement_batches = 0 }))
  generate_merchants today backfill dates (m ∷ ms) = do
    generated ← generate_days m dates
    elim generated [
      | none ↦ pure none
      | some counts ↦ do
        batches ← drain_after today backfill m dates counts
        later ← generate_merchants today backfill dates ms
        pure (Option.map (add_result (result_of m counts) batches) later)
    ]

  unfoldable pub generate_pos_for_merchants :
      GeneratePosRequest → Session (Option GeneratePosResponse)
  generate_pos_for_merchants body = do
    let today = date_of env.sim
    merchants ← gets (λ d. where_all (λ m. is_member m.id body.merchant_ids) d.merchants)
    all ← generate_merchants today body.backfill (dates_of today body) merchants
    pure (Option.map (pos_response merchants (dates_of today body)) all)
