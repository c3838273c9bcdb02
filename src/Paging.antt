-- ===== src/Paging.antt =====
-- The pages of a listing, as `list_transactions` of pos/api.py and `get_statement` of bank/api.py cut
-- them: the latest first, and a cursor that is the key of the last row shown.
pub mod Order
pub mod Walk
pub mod Lost
use mock_sim.Base.{
  ℕ, zero, suc, ◌≤◌, min, max, arith, Bool, true, Option, none, some, List, [], ◌∷◌, ◌++◌, length,
  take, where_all, ltb, leb, Text, ◌≡◌, ◌≢◌, refl, sym, ap, inl, inr, if◌then◌else◌,
}
use mock_sim.Base.Int.{ℤ, pos_part}
use mock_sim.Errors.{bad_request, validation_error}
use mock_sim.Session.{Result, ok, err}

-- `max(1, min(limit, 200))`
unfoldable pub clamp_limit : ℤ → ℕ
clamp_limit limit = max 1 (min (pos_part limit) 200)

module _ {A : Type 0} (key : A → ℕ) where
  -- `.order_by(desc(key))`; the order of rows with one key is that of the table.
  unfoldable pub insert_latest : A → List A → List A
  insert_latest a [] = a ∷ []
  insert_latest a (b ∷ rest) =
      if leb (key b) (key a) then a ∷ b ∷ rest else b ∷ insert_latest a rest

  unfoldable pub latest_first : List A → List A
  unfolding insert_latest
  latest_first [] = []
  latest_first (a ∷ rows) = insert_latest a (latest_first rows)

  -- `.order_by(key)`
  unfoldable pub insert_earliest : A → List A → List A
  insert_earliest a [] = a ∷ []
  insert_earliest a (b ∷ rest) =
      if leb (key a) (key b) then a ∷ b ∷ rest else b ∷ insert_earliest a rest

  unfoldable pub earliest_first : List A → List A
  unfolding insert_earliest
  earliest_first [] = []
  earliest_first (a ∷ rows) = insert_earliest a (earliest_first rows)

  -- `key < cursor`, if there is a cursor
  abbrev pub before : Option ℕ → A → Bool
  before none a = true
  before (some c) a = ltb (key a) c

  -- The key of `rows[-1]`.
  abbrev pub last_key : List A → Option ℕ
  last_key [] = none
  last_key (a ∷ []) = some (key a)
  last_key (a ∷ b ∷ rest) = last_key (b ∷ rest)

  -- What is shown of `limit + 1` rows, and the next cursor.
  unfoldable pub cut : ℕ → List A → List A × Option ℕ
  cut limit found =
      if ltb limit (length found)
      then (take limit found, last_key (take limit found))
      else (found, none)

  unfoldable pub page : ℕ → Option ℕ → List A → List A × Option ℕ
  unfolding cut
  page limit cursor rows =
      cut limit (take (suc limit) (latest_first (where_all (before cursor) rows)))

-- The texts of a request. Base64, and the forms of ISO 8601 under it, are Python's.
pub record Codec : Type 0 where
  pub encode : ℕ → Text
  pub decode : Text → Option ℕ
  pub date_of : Text → Option ℕ

-- What is encoded is not empty, and is decoded to what it was.
pub record Decodes (codec : Codec) : Type 0 where
  pub decoded : (n : ℕ) → codec.decode (codec.encode n) ≡ some n
  pub shown : (n : ℕ) → codec.encode n ≢ []

-- An empty parameter counts as none.
abbrev pub or_bad_request : Option ℕ → Result (Option ℕ)
or_bad_request none = err (bad_request validation_error)
or_bad_request (some n) = ok (some n)

abbrev pub read_param : (Text → Option ℕ) → Option Text → Result (Option ℕ)
read_param f none = ok none
read_param f (some []) = ok none
read_param f (some (c ∷ s)) = or_bad_request (f (c ∷ s))

abbrev pub map_option : {A B : Type 0} → (A → B) → Option A → Option B
map_option f none = none
map_option f (some a) = some (f a)

pub clamp_limit-bounds : (limit : ℤ) → (1 ≤ clamp_limit limit) × (clamp_limit limit ≤ 200)
unfolding clamp_limit
clamp_limit-bounds limit = omega arith

read_param-of :
    (f : Text → Option ℕ) (t : Text) (n : ℕ)
    → t ≢ []
    → f t ≡ some n
    → read_param f (some t) ≡ ok (some n)
read_param-of f [] n h e = absurd (h refl)
read_param-of f (c ∷ s) n h e = ap or_bad_request e

pub read_param-encoded :
    (codec : Codec)
    → Decodes codec
    → (cursor : Option ℕ) → read_param codec.decode (map_option codec.encode cursor) ≡ ok cursor
read_param-encoded codec h none = refl
read_param-encoded codec h (some n) =
    read_param-of codec.decode (codec.encode n) n (h.shown n) (h.decoded n)
