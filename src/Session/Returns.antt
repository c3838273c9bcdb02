-- ===== src/Session/Returns.antt =====
-- Sessions that do not raise.
use mock_sim.Base.{◌≡◌, refl, Bool, true, false, if◌then◌else◌}
use mock_sim.Session.{Db, Session, ok, ◌>>=◌, pure}

-- It returns a value from every state.
pub record Returns {A : Type 0} (m : Session A) : Type 0 where
  pub at : (d : Db) → (a : A) × ((m d).0 ≡ ok a)

-- It returns this value from every state.
pub record Yields {A : Type 0} (m : Session A) (a : A) : Type 0 where
  pub at : (d : Db) → (m d).0 ≡ ok a

pub Yields-pure : {A : Type 0} (a : A) → Yields (pure a) a
Yields-pure a = record { at = λ d. refl }

pub Returns-pure : {A : Type 0} (a : A) → Returns (pure a)
Returns-pure a = record { at = λ d. (a, refl) }

pub Returns-if :
    {A : Type 0} (c : Bool) (m k : Session A) → Returns m → Returns k → Returns (if c then m else k)
Returns-if true m k q r = q
Returns-if false m k q r = r

module _ {A B : Type 0} where
  pub Returns-bind :
      (m : Session A) (f : A → Session B)
      → Returns m
      → ((a : A) → Returns (f a))
      → Returns (m >>= f)
  Returns-bind m f q h = record {
    at = λ d. let (a, e) = q.at d in let (b, e') = (h a).at (m d).1 in (b, rw e e');
  }

  pub Yields-bind :
      (m : Session A) (f : A → Session B) (b : B)
      → Returns m
      → ((a : A) → Yields (f a) b)
      → Yields (m >>= f) b
  Yields-bind m f b q h = record { at = λ d. let (a, e) = q.at d in rw e ((h a).at (m d).1) }

pub ruleset returns_rules = (Returns-pure, Returns-bind, Yields-pure, Yields-bind)
