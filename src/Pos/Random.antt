-- ===== src/Pos/Random.antt =====
-- What the generator of POS transactions takes from Python's floats and from a seeded
-- `random.Random`, as parameters, and a monad for code that draws. The n-th draw of a generator is
-- any value; which kinds of draws come before it does not matter for what is shown.
use mock_sim.Base.{ℕ, suc, ◌≤◌, ◌≡◌, Bool, false}
use mock_sim.Base.Int.{ℤ}

pub record Floats (F : Type 0) : Type 0 where
  pub of_nat : ℕ → F
  -- a literal of two decimals
  pub hundredths : ℕ → F
  pub lt : F → F → Bool
  pub add : F → F → F
  pub mul : F → F → F
  pub div : F → F → F
  pub exp : F → F
  pub log : F → F
  pub sqrt : F → F
  pub neg : F → F
  -- `int` of a float that is not negative, and `round`
  pub truncate : F → ℕ
  pub round : F → ℤ

-- The draws of a generator by their position.
pub record Random (F : Type 0) : Type 0 where
  pub random : ℕ → F
  pub gauss : ℕ → F → F → F
  pub randint : ℕ → ℕ → ℕ → ℕ

-- What the documentation of `randint(a, b)` promises, and of the conversion of a float: a number
-- that is not above an integer has an integer part that is not either.
pub record IsInRange {F : Type 0} (rng : Random F) : Type 0 where
  pub low : (n a b : ℕ) → a ≤ b → a ≤ rng.randint n a b
  pub high : (n a b : ℕ) → a ≤ b → rng.randint n a b ≤ b

pub record Truncates {F : Type 0} (fl : Floats F) : Type 0 where
  pub at : (n : ℕ) (x : F) → fl.lt (fl.of_nat n) x ≡ false → fl.truncate x ≤ n

-- Code that draws: the position comes in and goes out.
abbrev pub Draw : Type 0 → Type 0
Draw A = ℕ → A × ℕ

abbrev pub return : {A : Type 0} → A → Draw A
return a n = (a, n)

infixl 5 ◌>>=◌
abbrev pub ◌>>=◌ : {A B : Type 0} → Draw A → (A → Draw B) → Draw B
◌>>=◌ m f n = let (a, n') = m n in f a n'

module _ {F : Type 0} (rng : Random F) where
  abbrev pub random : Draw F
  random n = (rng.random n, suc n)

  abbrev pub gauss : F → F → Draw F
  gauss mu sigma n = (rng.gauss n mu sigma, suc n)

  abbrev pub randint : ℕ → ℕ → Draw ℕ
  randint a b n = (rng.randint n a b, suc n)
