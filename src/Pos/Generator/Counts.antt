-- ===== src/Pos/Generator/Counts.antt =====
-- The times of a day's transactions and their amounts (pos/generator.py): within the hours of business,
-- in order, and within ten times the usual ticket.
use mock_sim.Base.{
  ℕ, zero, suc, ◌-◌, ◌*◌, ◌≤◌, ◌≡◌, refl, ap, inl, inr, List, [], ◌∷◌, map, All, length, max, leb,
  Bool-cases, arith,
}
use mock_sim.Base.Int.{ℤ, pos, negsuc, pos_part}
use mock_sim.Calendar.{Date, at_hour}
use mock_sim.Pos.Random.{Floats, Random, IsInRange, Truncates}
use mock_sim.Pos.Generator.{lognormal_amount}
use mock_sim.Pos.Generator.Sale.{
  start_s, end_s, offsets, insert_nat, sort_nats, stamp, spread_timestamps,
}

abbrev pub IsAscending : List ℕ → Type 0
IsAscending [] = Unit
IsAscending (a ∷ []) = Unit
IsAscending (a ∷ b ∷ rest) = (a ≤ b) × IsAscending (b ∷ rest)

insert_nat-IsAscending : (a : ℕ) (l : List ℕ) → IsAscending l → IsAscending (insert_nat a l)
unfolding insert_nat
insert_nat-IsAscending a [] o = tt
insert_nat-IsAscending a (b ∷ []) o = elim (Bool-cases (leb a b)) [
  | inl before ↦ rw before (ground arith, tt)
  | inr after ↦ rw after (ground arith, tt)
]
insert_nat-IsAscending a (b ∷ c ∷ l) o = elim (Bool-cases (leb a b)) [
  | inl before ↦ rw before (ground arith, o)
  | inr after ↦ elim (Bool-cases (leb a c)) [
    | inl before ↦ rw (after, before) (ground arith, (ground arith, o.1))
    | inr later ↦ rw (after, later) (o.0, (rw later at (insert_nat-IsAscending a (c ∷ l) o.1)))
  ]
]

insert_nat-All : (P : ℕ → Type 0) (a : ℕ) (l : List ℕ) → P a → All P l → All P (insert_nat a l)
unfolding insert_nat
insert_nat-All P a [] h k = (h, tt)
insert_nat-All P a (b ∷ l) h k = elim (Bool-cases (leb a b)) [
  | inl before ↦ rw before (h, k)
  | inr after ↦ rw after (k.0, insert_nat-All P a l h k.1)
]

length-insert_nat : (a : ℕ) (l : List ℕ) → length (insert_nat a l) ≡ suc (length l)
unfolding insert_nat
length-insert_nat a [] = refl
length-insert_nat a (b ∷ l) = elim (Bool-cases (leb a b)) [
  | inl before ↦ rw before refl
  | inr after ↦ rw after (ap suc (length-insert_nat a l))
]

sort_nats_lem :
    (P : ℕ → Type 0) (l : List ℕ)
    → All P l
    → IsAscending (sort_nats l) × All P (sort_nats l) × (length (sort_nats l) ≡ length l)
unfolding sort_nats
sort_nats_lem P [] k = (tt, tt, refl)
sort_nats_lem P (a ∷ l) k =
    let (o, all, len) = sort_nats_lem P l k.1 in
    (
      insert_nat-IsAscending a (sort_nats l) o,
      insert_nat-All P a (sort_nats l) k.0 all,
      omega (arith, length-insert_nat a (sort_nats l), len),
    )

-- A time of the day of business.
abbrev pub IsOpen : Date → ℕ → Type 0
IsOpen sim_date t = (at_hour sim_date 8 ≤ t) × (t ≤ at_hour sim_date 22)

module _ {F : Type 0} (rng : Random F) (sim_date : Date) where
  stamps_lem :
      (l : List ℕ)
      → IsAscending l
      → All (λ s. s ≤ end_s - start_s) l
      → IsAscending (map (stamp rng sim_date) l)
        × All (IsOpen sim_date) (map (stamp rng sim_date) l)
        × (length (map (stamp rng sim_date) l) ≡ length l)
  unfolding at_hour
  stamps_lem [] o a = (tt, tt, refl)
  stamps_lem (s ∷ []) o a = (tt, ((omega arith, omega (arith, a.0)), tt), refl)
  stamps_lem (s ∷ t ∷ l) o a =
      let (order, opened, len) = stamps_lem (t ∷ l) o.1 a.1 in
      ((omega (arith, o.0), order), ((omega arith, omega (arith, a.0)), opened), ap suc len)

  offsets_lem :
      (count n : ℕ)
      → IsInRange rng
      → All (λ s. s ≤ end_s - start_s) (offsets rng count n).0
        × (length (offsets rng count n).0 ≡ count)
  unfolding offsets
  offsets_lem zero n r = (tt, refl)
  offsets_lem (suc count) n r =
      let (all, len) = offsets_lem count (suc n) r in
      ((r.high n 0 (end_s - start_s) (omega arith), all), ap suc len)

  -- As many times as asked for, in order, all within the hours of business.
  pub spread_timestamps_lem :
      (count n : ℕ)
      → IsInRange rng
      → IsAscending (spread_timestamps rng sim_date count n).0
        × All (IsOpen sim_date) (spread_timestamps rng sim_date count n).0
        × (length (spread_timestamps rng sim_date count n).0 ≡ count)
  unfolding spread_timestamps
  spread_timestamps_lem count n r =
      let (within, drawn) = offsets_lem count n r in
      let (o, all, len) = sort_nats_lem (λ s. s ≤ end_s - start_s) (offsets rng count n).0 within in
      let (order, opened, kept) = stamps_lem (sort_nats (offsets rng count n).0) o all in
      (order, opened, omega (arith, drawn, len, kept))

-- An amount is at least 1 and at most ten times the median, or 1 if that is not positive.
pub lognormal_amount_bounds :
    {F : Type 0} (fl : Floats F) (rng : Random F) (median : ℤ) (n : ℕ)
    → Truncates fl
    → (1 ≤ (lognormal_amount fl rng median n).0)
      × ((lognormal_amount fl rng median n).0 ≤ max 1 (10 * pos_part median))
unfolding lognormal_amount
lognormal_amount_bounds fl rng (negsuc m) n t = (omega arith, omega arith)
lognormal_amount_bounds fl rng (pos zero) n t = (omega arith, omega arith)
lognormal_amount_bounds fl rng (pos (suc m)) n t =
    let raw = fl.exp (rng.gauss n (fl.log (fl.of_nat (suc m))) (fl.hundredths 50)) in
    elim (Bool-cases (fl.lt (fl.of_nat (suc m * 10)) raw)) [
      | inl above ↦ rw above (omega arith, omega arith)
      | inr below ↦ rw below (omega arith, omega (arith, t.at (suc m * 10) raw below))
    ]
