-- ===== src/Paging/Lost.antt =====
-- A client that follows the cursors of a listing in which all rows have one key: it sees the first
-- page.
use mock_sim.Base.{
  ℕ, zero, suc, ◌≤◌, ◌<◌, ◌≡◌, refl, ap, ◌∙◌, false, none, some, List, [], ◌∷◌, All, length, take,
  where_all, ltb, lt→ltb, arith,
}
use mathlib.Core.List.{append-nil}
use mock_sim.Paging.{insert_latest, latest_first, before, last_key, cut, page}
use mock_sim.Paging.Walk.{walk, length-take-more, take-take, where_all-true}

module _ {A : Type 0} (key : A → ℕ) (t : ℕ) where
  latest_first-same : (rows : List A) → All (λ a. key a ≡ t) rows → latest_first key rows ≡ rows
  unfolding latest_first insert_latest
  latest_first-same [] h = refl
  latest_first-same (a ∷ []) h = refl
  latest_first-same (a ∷ b ∷ rows) h =
      rw (latest_first-same (b ∷ rows) h.1) (ground (arith, h.0, h.1.0))

  none-before :
      (rows : List A) → All (λ a. key a ≡ t) rows → where_all (before key (some t)) rows ≡ []
  none-before [] h = refl
  none-before (a ∷ rows) h =
      let gone : ltb (key a) t ≡ false = ground (arith, h.0) in rw gone (none-before rows h.1)

  last_key-same :
      (n : ℕ) (a : A) (rows : List A)
      → All (λ a. key a ≡ t) (a ∷ rows)
      → last_key key (take (suc n) (a ∷ rows)) ≡ some t
  last_key-same zero a rows h = ap (λ k. some k) h.0
  last_key-same (suc n) a [] h = ap (λ k. some k) h.0
  last_key-same (suc n) a (b ∷ rows) h = last_key-same n b rows h.1

  module _ (m : ℕ) (a : A) (rest : List A) (h : All (λ x. key x ≡ t) (a ∷ rest))
      (many : suc m < length (a ∷ rest)) where
    first-page : page key (suc m) none (a ∷ rest) ≡ (take (suc m) (a ∷ rest), some t)
    unfolding page cut
    first-page =
        let longer =
          lt→ltb (suc m) (length (take (suc (suc m)) (a ∷ rest)))
            (length-take-more key (suc m) (a ∷ rest) many) in
        rw (where_all-true key (a ∷ rest), latest_first-same (a ∷ rest) h, longer)
          (ap (λ l. (l, last_key key l)) (take-take key (suc m) (a ∷ rest))
            ∙ ap (λ k. (take (suc m) (a ∷ rest), k)) (last_key-same m a rest h))

    next-page : page key (suc m) (some t) (a ∷ rest) ≡ ([], none)
    unfolding page cut latest_first
    next-page =
        let no_more : ltb (suc m) 0 ≡ false = ground arith in
        rw (none-before (a ∷ rest) h, no_more) refl

    walk-first :
        (f : ℕ) → walk (λ c. page key (suc m) c (a ∷ rest)) (suc f) none ≡ take (suc m) (a ∷ rest)
    walk-first zero = rw first-page (append-nil (take (suc m) (a ∷ rest)))
    walk-first (suc f) = rw (first-page, next-page) (append-nil (take (suc m) (a ∷ rest)))

  -- With more rows than a page has.
  pub walk-stuck :
      (limit : ℕ) (rows : List A)
      → 1 ≤ limit
      → All (λ a. key a ≡ t) rows
      → limit < length rows
      → (f : ℕ) → walk (λ c. page key limit c rows) (suc f) none ≡ take limit rows
  walk-stuck zero rows positive h many f = absurd (omega arith)
  walk-stuck (suc m) [] positive h many f = absurd (omega arith)
  walk-stuck (suc m) (a ∷ rest) positive h many f = walk-first m a rest h many f
