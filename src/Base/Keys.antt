-- ===== src/Base/Keys.antt =====
-- Rows with a number as their key: which rows a condition on the keys of others picks out.
use Prim.Native.Nat.{ℕ, suc, ◌+◌, ◌≤◌}
use mathlib.Core.Path.{◌≡◌, refl, sym, ◌∙◌}
use mathlib.Core.Logic.{◌⊎◌, inl, inr}
use mathlib.Core.Bool.{Bool, true, false}
use mathlib.Core.List.{List, [], ◌∷◌, map}
use native.Mathlib.Omega.{arith}
use mock_sim.Base.Tests.{◌==◌, ==_refl, if◌then◌else◌, Bool-cases}
use mock_sim.Base.Lists.{where_all, any_row, update_where}

module _ {A : Type 0} (key : A → ℕ) where
  -- How many rows have the key.
  abbrev pub count_key : ℕ → List A → ℕ
  count_key k [] = 0
  count_key k (x ∷ rows) = (if key x == k then 1 else 0) + count_key k rows

  abbrev pub HasDistinctKeys : List A → Type 0
  HasDistinctKeys rows = (k : ℕ) → count_key k rows ≤ 1

  abbrev pub shares_key : List A → A → Bool
  shares_key rows t = any_row (λ x. key x == key t) rows

  abbrev In : A → List A → Type 0
  In t [] = ⊥
  In t (x ∷ rows) = (x ≡ t) ⊎ In t rows

  count_key-none :
      (p : A → Bool) (t : A) (rows : List A)
      → shares_key (where_all p rows) t ≡ false ⊎ (1 ≤ count_key (key t) (where_all p rows))
  count_key-none p t [] = inl refl
  count_key-none p t (x ∷ rows) = elim (Bool-cases (p x)) [
    | inr fails ↦ rw fails (count_key-none p t rows)
    | inl passes ↦ rw passes (elim (Bool-cases (key x == key t)) [
      | inl same ↦ rw same (inr (omega arith))
      | inr other ↦ rw other (elim (count_key-none p t rows) [
        | inl none_left ↦ inl none_left
        | inr some_left ↦ inr (omega arith)
      ])
    ])
  ]

  count_key-where :
      (p : A → Bool) (k : ℕ) (rows : List A) → count_key k (where_all p rows) ≤ count_key k rows
  count_key-where p k [] = omega arith
  count_key-where p k (x ∷ rows) = elim (Bool-cases (p x)) [
    | inl passes ↦ rw passes (omega (arith, count_key-where p k rows))
    | inr fails ↦ rw fails (omega (arith, count_key-where p k rows))
  ]

  count_key-failed :
      (p : A → Bool) (t : A) (rows : List A)
      → In t rows
      → p t ≡ false
      → suc (count_key (key t) (where_all p rows)) ≤ count_key (key t) rows
  count_key-failed p t [] i h = elim i [ ]
  count_key-failed p t (x ∷ rows) (inl e) h =
      rw (e, h, ==_refl (key t)) (omega (arith, count_key-where p (key t) rows))
  count_key-failed p t (x ∷ rows) (inr i) h = elim (Bool-cases (p x)) [
    | inl passes ↦ rw passes (omega (arith, count_key-failed p t rows i h))
    | inr fails ↦ rw fails (omega (arith, count_key-failed p t rows i h))
  ]

  shares_key-passed :
      (p : A → Bool) (t : A) (rows : List A)
      → In t rows
      → p t ≡ true
      → shares_key (where_all p rows) t ≡ true
  shares_key-passed p t [] i h = elim i [ ]
  shares_key-passed p t (x ∷ rows) (inl e) h = rw (e, h, ==_refl (key t))
  shares_key-passed p t (x ∷ rows) (inr i) h = elim (Bool-cases (p x)) [
    | inr fails ↦ rw fails (shares_key-passed p t rows i h)
    | inl passes ↦ rw passes (elim (Bool-cases (key x == key t)) [
      | inl same ↦ rw same
      | inr other ↦ rw other (shares_key-passed p t rows i h)
    ])
  ]

  -- A row whose key one of the chosen rows has is a chosen row.
  chosen :
      (p : A → Bool) (t : A) (rows : List A)
      → HasDistinctKeys rows
      → In t rows
      → shares_key (where_all p rows) t ≡ p t
  chosen p t rows h i = elim (Bool-cases (p t)) [
    | inl passes ↦ shares_key-passed p t rows i passes ∙ sym passes
    | inr fails ↦ elim (count_key-none p t rows) [
      | inl none_left ↦ none_left ∙ sym fails
      | inr some_left ↦ absurd (omega (arith, h (key t), count_key-failed p t rows i fails))
    ]
  ]

  update_where-pointwise :
      (q p : A → Bool) (f : A → A) (rows : List A)
      → ((t : A) → In t rows → q t ≡ p t)
      → update_where q f rows ≡ map (λ t. if p t then f t else t) rows
  update_where-pointwise q p f [] h = refl
  update_where-pointwise q p f (x ∷ rows) h =
      rw (h x (inl refl), update_where-pointwise q p f rows (λ t i. h t (inr i)))

  -- An update by the keys of the rows that meet a condition is an update by the condition.
  pub update_where-chosen :
      (p : A → Bool) (f : A → A) (rows : List A)
      → HasDistinctKeys rows
      → update_where (shares_key (where_all p rows)) f rows ≡ map (λ t. if p t then f t else t) rows
  update_where-chosen p f rows h =
      update_where-pointwise (shares_key (where_all p rows)) p f rows (λ t i. chosen p t rows h i)
