-- ===== src/Admin/GeneratePos/Drained.antt =====
-- The settlements that follow a backfill (admin/api.py, `generate_pos_for_merchants`): which
-- transactions they leave.
use mock_sim.Base.{
  ℕ, zero, suc, ◌+◌, ◌-◌, ◌≤◌, ◌≡◌, refl, ap, ◌∙◌, inl, inr, Bool, true, false, some, List, [], ◌∷◌,
  ◌&&◌, ◌||◌, leb, ltb, ◌==◌, Bool-cases, arith,
}
use mock_sim.Base.Keys.{HasDistinctKeys}
use mock_sim.Models.{Merchant}
use mock_sim.Session.{Env, Db, Result, ok}
use mock_sim.Calendar.{Date}
use mock_sim.Pos.Settlement.{load_merchant}
use mock_sim.Admin.GeneratePos.{
  settle_quietly, settle_offset, drain, days_from, dates_of, GeneratePosRequest,
}
use mock_sim.Pos.Settlement.Chain.{
  IsSettled, settle_merchant_day-IsSettled, IsSettled-none, IsSettled-same, IsSettled-then,
}

-- The dates that one round of the loop over the offsets settles.
abbrev at : Date → Date → Date → Bool
at today date e = (e == date) && leb e (today + 2)

abbrev round : Date → Date → Date → Bool
round today date e = at today (date + 2) e || (at today (date + 1) e || at today date e)

abbrev all_rounds : Date → List Date → Date → Bool
all_rounds today [] e = false
all_rounds today (date ∷ dates) e = all_rounds today dates e || round today date e

module _ (env : Env) (today : Date) (m : Merchant) where
  abbrev Settles : (Date → Bool) → Db → Result ℕ × Db → Type 0
  Settles done d (r, d') = ((n : ℕ) × (r ≡ ok n)) × IsSettled env m.mock_tenant_id m.id done m d d'

  abbrev IsReady : Db → Type 0
  IsReady d =
      HasDistinctKeys (λ t. t.id) d.transactions
      × (load_merchant env m.mock_tenant_id m.id d ≡ some m)

  settle_offset-Settles :
      (date : Date) (d : Db)
      → IsReady d
      → Settles (at today date) d (settle_offset env today m date d)
  unfolding settle_offset settle_quietly
  settle_offset-Settles date d (distinct, loaded) = elim (Bool-cases (ltb (today + 2) date)) [
    | inl late ↦ rw late (
      (0, refl),
      IsSettled-none env m.mock_tenant_id m.id m d (at today date) distinct loaded
          (λ e. ground arith),
    )
    | inr in_time ↦
        let (r, ended, settled) =
          settle_merchant_day-IsSettled env m.mock_tenant_id m.id m date d distinct loaded in
        rw (in_time, ended)
          (
            (_, refl),
            IsSettled-same env m.mock_tenant_id m.id m d (λ e. e == date) (at today date) _
                (λ e. ground arith) settled,
          )
  ]

  drain-Settles :
      (dates : List Date) (d : Db)
      → IsReady d
      → Settles (all_rounds today dates) d (drain env today m dates d)
  unfolding drain
  drain-Settles [] d (distinct, loaded) = (
    (0, refl),
    IsSettled-none env m.mock_tenant_id m.id m d (λ e. false) distinct loaded (λ e. refl),
  )
  drain-Settles (date ∷ dates) d h =
      let ((a, ra), sa) = settle_offset-Settles date d h in
      let d1 = (settle_offset env today m date d).1 in
      let ((b, rb), sb) = settle_offset-Settles (date + 1) d1 (sa.distinct, sa.loaded) in
      let d2 = (settle_offset env today m (date + 1) d1).1 in
      let ((c, rc), sc) = settle_offset-Settles (date + 2) d2 (sb.distinct, sb.loaded) in
      let d3 = (settle_offset env today m (date + 2) d2).1 in
      let ((n, rn), sn) = drain-Settles dates d3 (sc.distinct, sc.loaded) in
      let d4 = (drain env today m dates d3).1 in
      let chain = IsSettled-then env m.mock_tenant_id m.id m d in
      rw (ra, rb, rc, rn)
        (
          (_, refl),
          chain (round today date) (all_rounds today dates) d3 d4
              (chain (λ e. at today (date + 1) e || at today date e) (at today (date + 2)) d2 d3
                (chain (at today date) (at today (date + 1)) d1 d2 sa sb) sc)
              sn,
        )

-- From the first date of the backfill to the second day after today.
abbrev pub window : Date → GeneratePosRequest → Date → Bool
window today body e = leb (today - (body.days - 1)) e && leb e (today + 2)

three_dates :
    (date e : Date)
    → ((e == date + 2) || ((e == date + 1) || (e == date))) ≡ (leb date e && leb e (date + 2))
three_dates date e = ground arith

one_limit : (a b c l : Bool) → ((a && l) || ((b && l) || (c && l))) ≡ ((a || (b || c)) && l)
one_limit true b c true = refl
one_limit false true c true = refl
one_limit false false c true = ground arith
one_limit a b c false = ground arith

round-within :
    (today date e : Date)
    → round today date e ≡ ((leb date e && leb e (date + 2)) && leb e (today + 2))
round-within today date e =
    one_limit (e == date + 2) (e == date + 1) (e == date) (leb e (today + 2))
    ∙ ap (λ (b : Bool). b && leb e (today + 2)) (three_dates date e)

joined :
    (start n e : ℕ)
    → ((leb (suc start) e && leb e (suc start + n + 2)) || (leb start e && leb e (start + 2)))
      ≡ (leb start e && leb e (start + suc n + 2))
joined start n e = ground arith

under_limit : (a b l : Bool) → ((a && l) || (b && l)) ≡ ((a || b) && l)
under_limit a b true = ground arith
under_limit a b false = ground arith

all_rounds-days_from :
    (today start n : ℕ) (e : Date)
    → all_rounds today (days_from start (suc n)) e
      ≡ ((leb start e && leb e (start + n + 2)) && leb e (today + 2))
unfolding days_from
all_rounds-days_from today start zero e =
    let same : start + 0 ≡ start = omega arith in rw same (round-within today start e)
all_rounds-days_from today start (suc n) e =
    ap (λ (b : Bool). b || round today start e) (all_rounds-days_from today (suc start) n e)
    ∙ (ap
          (λ (b : Bool).
            ((leb (suc start) e && leb e (suc start + n + 2)) && leb e (today + 2)) || b)
          (round-within today start e)
        ∙ (under_limit (leb (suc start) e && leb e (suc start + n + 2))
              (leb start e && leb e (start + 2)) (leb e (today + 2))
            ∙ ap (λ (b : Bool). b && leb e (today + 2)) (joined start n e)))

days_from-window :
    (today days k : ℕ) (e : Date)
    → days ≡ suc k
    → k ≤ today
    → all_rounds today (days_from (today - k) days) e ≡ (leb (today - k) e && leb e (today + 2))
days_from-window today days k e h in_past =
    rw h (all_rounds-days_from today (today - k) k e ∙ ground arith)

module _ (env : Env) (today : Date) (m : Merchant) (body : GeneratePosRequest) where
  all_rounds-window :
      (e : Date)
      → body.backfill ≡ true
      → 1 ≤ body.days
      → body.days ≤ today
      → all_rounds today (dates_of today body) e ≡ window today body e
  unfolding dates_of
  all_rounds-window e backfill some_days in_past =
      rw backfill (days_from-window today body.days (body.days - 1) e (omega arith) (omega arith))

  -- The settlements that follow a backfill of at least one day, which lies within the calendar, return;
  -- where the ids of the transactions are distinct and the merchant is the one of the table, they leave
  -- no transaction of the merchant to be settled on a date from the first of the backfill to the second
  -- day after today, and for every other date the ones that there were.
  pub drain-IsSettled :
      (d : Db)
      → body.backfill ≡ true
      → 1 ≤ body.days
      → body.days ≤ today
      → HasDistinctKeys (λ t. t.id) d.transactions
      → load_merchant env m.mock_tenant_id m.id d ≡ some m
      → ((n : ℕ) × ((drain env today m (dates_of today body) d).0 ≡ ok n))
        × IsSettled env m.mock_tenant_id m.id
            (window today body)
            m
            d
            (drain env today m (dates_of today body) d).1
  drain-IsSettled d backfill some_days in_past distinct loaded =
      let (returned, settled) =
        drain-Settles env today m (dates_of today body) d (distinct, loaded) in
      (
        returned,
        IsSettled-same env m.mock_tenant_id m.id m d (all_rounds today (dates_of today body))
            (window today body) _ (λ e. all_rounds-window e backfill some_days in_past) settled,
      )
