-- ===== src/Idempotency/Keys.antt =====
-- The key of a request (core/idempotency.py, `require_idempotency_key`).
use mock_sim.Base.{
  ◌≤◌, ◌≡◌, refl, sym, ap, ◌∙◌, inl, inr, Bool, true, false, some, [], ◌∷◌, Text, length, ltb,
  if◌then◌else◌, Bool-cases, arith,
}
use mock_sim.Session.{ok}
use mock_sim.Idempotency.{is_space, lstrip, rstrip, strip, check_key, require_idempotency_key}

-- The first character, if there is one, is none of the white space.
abbrev pub starts_clean : Text → Bool
starts_clean [] = true
starts_clean (c ∷ s) = if is_space c then false else true

lstrip-starts_clean : (s : Text) → starts_clean (lstrip s) ≡ true
lstrip-starts_clean [] = refl
lstrip-starts_clean (c ∷ s) = elim (Bool-cases (is_space c)) [
  | inl space ↦ rw space (lstrip-starts_clean s)
  | inr other ↦ rw (other, other)
]

rstrip-starts_clean : (s : Text) → starts_clean s ≡ true → starts_clean (rstrip s) ≡ true
rstrip-starts_clean [] h = refl
rstrip-starts_clean (c ∷ s) h = by_rest (rstrip s) refl
  where
    by_rest : (t : Text) → rstrip s ≡ t → starts_clean (rstrip (c ∷ s)) ≡ true
    by_rest [] e = elim (Bool-cases (is_space c)) [
      | inl space ↦ rw (e, space)
      | inr other ↦ rw (e, other, other)
    ]
    by_rest (d ∷ t) e = rw e h

check_key-bounds :
    (s key : Text) → check_key s ≡ ok key → (s ≡ key) × (1 ≤ length key) × (length key ≤ 255)
unfolding check_key
check_key-bounds [] key e = cc
check_key-bounds (c ∷ s) key e = elim (Bool-cases (ltb 255 (length (c ∷ s)))) [
  | inl long ↦ cc (rw long at e)
  | inr short ↦
      let same : ok (c ∷ s) ≡ ok key = rw short at e in
      let is_key : c ∷ s ≡ key = cc in rw (sym is_key) (refl, omega arith, ground arith)
]

-- A key that is accepted has from 1 to 255 characters and does not start with white space.
pub require_idempotency_key-bounds :
    (header key : Text)
    → require_idempotency_key (some header) ≡ ok key
    → (1 ≤ length key) × (length key ≤ 255) × (starts_clean key ≡ true)
unfolding require_idempotency_key strip
require_idempotency_key-bounds header key e =
    let (same, low, high) = check_key-bounds (rstrip (lstrip header)) key e in
    (
      low,
      high,
      ap starts_clean (sym same) ∙ rstrip-starts_clean (lstrip header) (lstrip-starts_clean header),
    )
