-- ===== src/Iban/Generated.antt =====
-- `gen_iban` (core/identifiers.py) in each region of `_IBAN_SPEC`: its assertion on the length holds,
-- and the result passes `validate_iban`.
use mock_sim.Base.{
  ℕ, zero, suc, ◌+◌, ◌≤◌, ◌≡◌, refl, true, some, [], ◌∷◌, ◌++◌, Text, codes, arith, dict_get,
  length, length-append, text_eq, text_eq_iff, inl, inr, ◌⊎◌, is_digit, is_alpha, ==_iff,
}
use mock_sim.Session.{ok}
use mock_sim.Decimal.{str_nat}
use mock_sim.Iban.{iban_spec, iban_checksum, validate_iban, random_digits, assemble, gen_iban}
use mock_sim.Iban.Checksum.{
  IsAlnum, all_alnum, all_alnum-IsAlnum, IsAlnum-append, iban_checksum-accepted,
}

-- The regions of the table.
spec_regions :
    (region : Text) (total bban_len : ℕ)
    → dict_get region iban_spec ≡ some (total, bban_len)
    → ((region ≡ codes "PK") × (total ≡ 24))
      ⊎ (((region ≡ codes "AE") × (total ≡ 23))
          ⊎ (((region ≡ codes "SA") × (total ≡ 24))
              ⊎ (((region ≡ codes "EG") × (total ≡ 29)) ⊎ ((region ≡ codes "BH") × (total ≡ 22)))))
unfolding dict_get
spec_regions region total bban_len e = ground (
  arith,
  text_eq_iff region (codes "PK"),
  text_eq_iff region (codes "AE"),
  text_eq_iff region (codes "SA"),
  text_eq_iff region (codes "EG"),
  text_eq_iff region (codes "BH"),
)

module _ (randint : ℕ → ℕ) (in_range : (i : ℕ) → randint i ≤ 9) where
  one_digit : (i : ℕ) → str_nat (randint i) ≡ (b'0' + randint i) ∷ []
  unfolding str_nat
  one_digit i = ground (arith, in_range i)

  random_digits_lem :
      (i k : ℕ) → (length (random_digits randint i k) ≡ k) × IsAlnum (random_digits randint i k)
  unfolding random_digits is_digit is_alpha
  random_digits_lem i zero = (refl, tt)
  random_digits_lem i (suc k) =
      rw one_digit (ground (arith, in_range i, random_digits_lem (suc i) k))

  -- One region: a two-letter code, a bank code that leaves room for the account, and the total
  -- length that the code expects.
  assembled :
      (c d : ℕ) (bank : Text) (k total : ℕ)
      → IsAlnum (c ∷ d ∷ [])
      → IsAlnum bank
      → total ≡ 4 + (length bank + k)
      → let bban = bank ++ random_digits randint 0 k in
        (iban : Text) × (assemble (c ∷ d ∷ []) total bban ≡ ok iban)
        × (validate_iban iban ≡ true)
        × (length iban ≡ total)
  unfolding assemble
  assembled c d bank k total a b e =
      let digits = random_digits_lem 0 k in
      let bban : Text = bank ++ random_digits randint 0 k in
      let bban_alnum = IsAlnum-append bank (random_digits randint 0 k) b digits.1 in
      let (two, accepted) = iban_checksum-accepted c d bban a bban_alnum in
      let iban : Text = c ∷ d ∷ (iban_checksum (c ∷ d ∷ []) bban ++ bban) in
      let long : length iban ≡ total = omega (
        arith,
        length-append (iban_checksum (c ∷ d ∷ []) bban) bban,
        length-append bank (random_digits randint 0 k),
        two,
        digits.0,
      ) in
      (iban, rw ((==_iff _ _).1 long), accepted, long)

  -- The result that is promised.
  abbrev IsGenerated : Text → ℕ → Type 0
  IsGenerated region total =
      (iban : Text) × (gen_iban region randint ≡ ok iban)
      × (validate_iban iban ≡ true)
      × (length iban ≡ total)

  IsGenerated-pk : IsGenerated (codes "PK") 24
  unfolding gen_iban dict_get text_eq is_digit is_alpha all_alnum
  IsGenerated-pk =
      assembled b'P' b'K' (codes "SCBL") 16 24 (all_alnum-IsAlnum (codes "PK") refl)
        (all_alnum-IsAlnum (codes "SCBL") refl) refl

  IsGenerated-ae : IsGenerated (codes "AE") 23
  unfolding gen_iban dict_get text_eq is_digit is_alpha all_alnum
  IsGenerated-ae =
      assembled b'A' b'E' (codes "033") 16 23 (all_alnum-IsAlnum (codes "AE") refl)
        (all_alnum-IsAlnum (codes "033") refl) refl

  IsGenerated-sa : IsGenerated (codes "SA") 24
  unfolding gen_iban dict_get text_eq is_digit is_alpha all_alnum
  IsGenerated-sa =
      assembled b'S' b'A' (codes "10") 18 24 (all_alnum-IsAlnum (codes "SA") refl)
        (all_alnum-IsAlnum (codes "10") refl) refl

  IsGenerated-eg : IsGenerated (codes "EG") 29
  unfolding gen_iban dict_get text_eq is_digit is_alpha all_alnum
  IsGenerated-eg =
      assembled b'E' b'G' (codes "0019") 21 29 (all_alnum-IsAlnum (codes "EG") refl)
        (all_alnum-IsAlnum (codes "0019") refl) refl

  IsGenerated-bh : IsGenerated (codes "BH") 22
  unfolding gen_iban dict_get text_eq is_digit is_alpha all_alnum
  IsGenerated-bh =
      assembled b'B' b'H' (codes "ITHMR") 13 22 (all_alnum-IsAlnum (codes "BH") refl)
        (all_alnum-IsAlnum (codes "ITHMR") refl) refl

  -- For every region of the table, and whatever the digits drawn, `gen_iban` returns an IBAN of the
  -- region's length that `validate_iban` accepts.
  pub gen_iban-valid :
      (region : Text) (total bban_len : ℕ)
      → dict_get region iban_spec ≡ some (total, bban_len)
      → (iban : Text) × (gen_iban region randint ≡ ok iban)
        × (validate_iban iban ≡ true)
        × (length iban ≡ total)
  gen_iban-valid region total bban_len e = elim (spec_regions region total bban_len e) [
    | inl (p, t) ↦ rw (p, t) IsGenerated-pk
    | inr (inl (p, t)) ↦ rw (p, t) IsGenerated-ae
    | inr (inr (inl (p, t))) ↦ rw (p, t) IsGenerated-sa
    | inr (inr (inr (inl (p, t)))) ↦ rw (p, t) IsGenerated-eg
    | inr (inr (inr (inr (p, t)))) ↦ rw (p, t) IsGenerated-bh
  ]
