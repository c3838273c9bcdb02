-- ===== src/Paging/Order.antt =====
-- The order of a listing: with distinct keys it is strict, and a filter can be applied before or
-- after it.
use mock_sim.Base.{
  ℕ, suc, ◌≤◌, ◌<◌, ◌≡◌, refl, sym, ap, inl, inr, Bool, List, [], ◌∷◌, All, where_all, leb,
  if◌then◌else◌, Bool-cases, arith,
}
use mock_sim.Base.Keys.{count_key, HasDistinctKeys}
use mock_sim.Paging.{insert_latest, latest_first}

module _ {A : Type 0} (key : A → ℕ) where
  abbrev pub IsDescending : List A → Type 0
  IsDescending [] = Unit
  IsDescending (a ∷ rest) = All (λ b. key b < key a) rest × IsDescending rest

  All-below :
      (n m : ℕ) (rows : List A) → n ≤ m → All (λ b. key b < n) rows → All (λ b. key b < m) rows
  All-below n m [] h k = tt
  All-below n m (b ∷ rows) h k = (omega (arith, k.0), All-below n m rows h k.1)

  insert_latest-below :
      (n : ℕ) (a : A) (rows : List A)
      → key a < n
      → All (λ b. key b < n) rows
      → All (λ b. key b < n) (insert_latest key a rows)
  unfolding insert_latest
  insert_latest-below n a [] h k = (h, tt)
  insert_latest-below n a (b ∷ rows) h k = elim (Bool-cases (leb (key b) (key a))) [
    | inl first ↦ rw first (h, k)
    | inr later ↦ rw later (k.0, insert_latest-below n a rows h k.1)
  ]

  insert_latest-count :
      (n : ℕ) (a : A) (rows : List A)
      → count_key key n (insert_latest key a rows) ≡ count_key key n (a ∷ rows)
  unfolding insert_latest
  insert_latest-count n a [] = refl
  insert_latest-count n a (b ∷ rows) = elim (Bool-cases (leb (key b) (key a))) [
    | inl first ↦ rw first refl
    | inr later ↦ rw later (omega (arith, insert_latest-count n a rows))
  ]

  latest_first-count :
      (n : ℕ) (rows : List A) → count_key key n (latest_first key rows) ≡ count_key key n rows
  unfolding latest_first
  latest_first-count n [] = refl
  latest_first-count n (a ∷ rows) =
      omega (arith, insert_latest-count n a (latest_first key rows), latest_first-count n rows)

  insert_latest-IsDescending :
      (a : A) (rows : List A)
      → IsDescending rows
      → count_key key (key a) rows ≤ 0
      → IsDescending (insert_latest key a rows)
  unfolding insert_latest
  insert_latest-IsDescending a [] o fresh = (tt, tt)
  insert_latest-IsDescending a (b ∷ rows) o fresh = elim (Bool-cases (leb (key b) (key a))) [
    | inl first ↦
        let below : key b < key a = ground (arith, fresh) in
        rw first ((below, All-below (key b) (key a) rows (omega (arith, below)) o.0), o)
    | inr later ↦
        let above : key a < key b = ground arith in
        rw later (
          insert_latest-below (key b) a rows above o.0,
          insert_latest-IsDescending a rows o.1 (omega (arith, fresh)),
        )
  ]

  pub latest_first-IsDescending :
      (rows : List A) → HasDistinctKeys key rows → IsDescending (latest_first key rows)
  unfolding latest_first
  latest_first-IsDescending [] h = tt
  latest_first-IsDescending (a ∷ rows) h =
      let others : HasDistinctKeys key rows = λ k. omega (arith, h k) in
      insert_latest-IsDescending a (latest_first key rows) (latest_first-IsDescending rows others)
        (ground (arith, h (key a), latest_first-count (key a) rows))

  insert_latest-front :
      (a : A) (rows : List A)
      → All (λ b. key b < suc (key a)) rows
      → insert_latest key a rows ≡ a ∷ rows
  unfolding insert_latest
  insert_latest-front a [] h = refl
  insert_latest-front a (b ∷ rows) h = ground (arith, h.0)

  module _ (p : A → Bool) where
    where_all-All : (P : A → Type 0) (rows : List A) → All P rows → All P (where_all p rows)
    where_all-All P [] h = tt
    where_all-All P (a ∷ rows) h = elim (Bool-cases (p a)) [
      | inl passes ↦ rw passes (h.0, where_all-All P rows h.1)
      | inr fails ↦ rw fails (where_all-All P rows h.1)
    ]

    where_all-insert_latest :
        (a : A) (rows : List A)
        → IsDescending rows
        → where_all p (insert_latest key a rows)
          ≡ (if p a then insert_latest key a (where_all p rows) else where_all p rows)
    unfolding insert_latest
    where_all-insert_latest a [] o = refl
    where_all-insert_latest a (b ∷ rows) o = elim (Bool-cases (leb (key b) (key a))) [
      | inl first ↦
          let within : All (λ c. key c < suc (key a)) (b ∷ rows) =
            (ground arith, All-below (key b) (suc (key a)) rows (ground arith) o.0) in
          rw first (elim (Bool-cases (p a)) [
            | inl passes ↦ rw passes (
                sym (
                  insert_latest-front a (where_all p (b ∷ rows))
                    (where_all-All (λ c. key c < suc (key a)) (b ∷ rows) within)))
            | inr fails ↦ rw fails refl
          ])
      | inr later ↦ elim (Bool-cases (p b)) [
        | inl shown ↦ elim (Bool-cases (p a)) [
          | inl passes ↦
              rw (later, shown, passes, later)
                (ap (λ l. b ∷ l) (rw passes at (where_all-insert_latest a rows o.1)))
          | inr fails ↦
              rw (later, shown, fails)
                (ap (λ l. b ∷ l) (rw fails at (where_all-insert_latest a rows o.1)))
        ]
        | inr hidden ↦ rw (later, hidden) (where_all-insert_latest a rows o.1)
      ]
    ]

    pub where_all-latest_first :
        (rows : List A)
        → HasDistinctKeys key rows
        → where_all p (latest_first key rows) ≡ latest_first key (where_all p rows)
    unfolding latest_first
    where_all-latest_first [] h = refl
    where_all-latest_first (a ∷ rows) h =
        let others : HasDistinctKeys key rows = λ k. omega (arith, h k) in
        let moved =
          where_all-insert_latest a (latest_first key rows)
            (latest_first-IsDescending rows others) in
        elim (Bool-cases (p a)) [
          | inl passes ↦ rw passes (rw (passes, where_all-latest_first rows others) at moved)
          | inr fails ↦ rw fails (rw (fails, where_all-latest_first rows others) at moved)
        ]
