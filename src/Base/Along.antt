-- ===== src/Base/Along.antt =====
-- Two lists side by side, where the second may go on: a relation between a table and a later one, to
-- which rows may have been added.
use mathlib.Core.Path.{◌≡◌}
use mathlib.Core.List.{List, [], ◌∷◌, ◌++◌}
use mathlib.Core.Bool.{Bool, true, false}
use mathlib.Core.Logic.{inl, inr}
use mock_sim.Base.Lists.{All, any_row, update_where}
use mock_sim.Base.Tests.{Bool-cases}

module _ {A : Type 0} where
  abbrev pub Along : (A → A → Type 0) → List A → List A → Type 0
  Along R [] ys = Unit
  Along R (x ∷ xs) [] = ⊥
  Along R (x ∷ xs) (y ∷ ys) = R x y × Along R xs ys

  pub Along-append :
      (R : A → A → Type 0) → ((x : A) → R x x) → (xs ys : List A) → Along R xs (xs ++ ys)
  Along-append R r [] ys = tt
  Along-append R r (x ∷ xs) ys = (r x, Along-append R r xs ys)

  pub Along-refl : (R : A → A → Type 0) → ((x : A) → R x x) → (xs : List A) → Along R xs xs
  Along-refl R r [] = tt
  Along-refl R r (x ∷ xs) = (r x, Along-refl R r xs)

  pub Along-join :
      (C : A → Type 0) (P Q R : A → A → Type 0)
      → ((x y z : A) → C x → P x y → Q y z → R x z)
      → (xs ys zs : List A) → All C xs
      → Along P xs ys
      → Along Q ys zs
      → Along R xs zs
  Along-join C P Q R f [] ys zs c p q = tt
  Along-join C P Q R f (x ∷ xs) [] zs c p q = elim p [ ]
  Along-join C P Q R f (x ∷ xs) (y ∷ ys) [] c p q = elim q [ ]
  Along-join C P Q R f (x ∷ xs) (y ∷ ys) (z ∷ zs) c p q =
      (f x y z c.0 p.0 q.0, Along-join C P Q R f xs ys zs c.1 p.1 q.1)

  pub Along-update_where :
      (R : A → A → Type 0) (p : A → Bool) (g : A → A)
      → ((x : A) → p x ≡ false → R x x)
      → ((x : A) → p x ≡ true → R x (g x))
      → (xs : List A) → Along R xs (update_where p g xs)
  Along-update_where R p g r s [] = tt
  Along-update_where R p g r s (x ∷ xs) = elim (Bool-cases (p x)) [
    | inl hit ↦ rw hit (s x hit, Along-update_where R p g r s xs)
    | inr miss ↦ rw miss (r x miss, Along-update_where R p g r s xs)
  ]

  pub Along-both :
      (P Q : A → A → Type 0) (xs ys : List A)
      → Along P xs ys
      → Along Q xs ys
      → Along (λ x y. P x y × Q x y) xs ys
  Along-both P Q [] ys p q = tt
  Along-both P Q (x ∷ xs) [] p q = elim p [ ]
  Along-both P Q (x ∷ xs) (y ∷ ys) p q = ((p.0, q.0), Along-both P Q xs ys p.1 q.1)

  pub All-any : (C : A → Type 0) → ((x : A) → C x) → (xs : List A) → All C xs
  All-any C h [] = tt
  All-any C h (x ∷ xs) = (h x, All-any C h xs)

  pub any_row-append_one :
      (p : A → Bool) (xs : List A) (a : A) → p a ≡ true → any_row p (xs ++ a ∷ []) ≡ true
  any_row-append_one p [] a h = rw h
  any_row-append_one p (x ∷ xs) a h = elim (Bool-cases (p x)) [
    | inl hit ↦ rw hit
    | inr miss ↦ rw miss (any_row-append_one p xs a h)
  ]
