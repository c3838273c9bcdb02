-- ===== src/Bank/Regions/Checks.antt =====
-- The region table of bank/regions.py: what the rest of the bank surface relies on.
use mock_sim.Base.{
  ◌<◌, ◌≡◌, refl, sym, inl, inr, true, false, some, List, [], ◌∷◌, Text, codes, text_eq, upper,
  is_member, dict_get, All, Bool-cases, Option-cases, arith, ltb, ltb→lt, map,
}
use mock_sim.Session.{ok}
use mock_sim.Calendar.{is_in}
use mock_sim.Calendar.NextDay.{IsProper}
use mock_sim.Bank.Regions.{
  BankRegionConfig, regions, get_region, canonical_bounce, bounce_messages, bounce_message,
  bounce_of, normalize_bounce_reason, BounceReason, pakistan, emirates, saudi_arabia, egypt,
  bahrain,
}

-- A value that a dict returns is one of its values.
pub dict_get-All :
    {V : Type 0} (P : V → Type 0) (d : List (Text × V)) (k : Text) (v : V)
    → All (λ p. P p.1) d
    → dict_get k d ≡ some v
    → P v
unfolding dict_get
dict_get-All P [] k v a e = cc
dict_get-All P ((j, w) ∷ d) k v a e = elim (Bool-cases (text_eq k j)) [
  | inl found ↦
      let same : some w ≡ some v = rw found at e in let w≡v : w ≡ v = cc in rw (sym w≡v) a.0
  | inr other ↦ dict_get-All P d k v a.1 (rw other at e)
]

-- What holds of a region's entry.
pub record IsRegion (cfg : BankRegionConfig) : Type 0 where
  pub proper_weekend : IsProper cfg.weekend_days
  pub in_the_day : cfg.settlement_cutoff_hour < 24
  pub canonical : All (λ p. is_member p.1 canonical_bounce ≡ true) cfg.bounce_code_map

monday_works :
    (cfg : BankRegionConfig)
    → is_in 1 cfg.weekend_days ≡ false
    → ltb cfg.settlement_cutoff_hour 24 ≡ true
    → All (λ p. is_member p.1 canonical_bounce ≡ true) cfg.bounce_code_map
    → IsRegion cfg
monday_works cfg w h c = record {
  proper_weekend = record {
    workday = 1;
    from_monday = omega arith;
    to_sunday = omega arith;
    not_weekend = w;
  };
  in_the_day = ltb→lt cfg.settlement_cutoff_hour 24 h;
  canonical = c;
}

regions-IsRegion : All (λ p. IsRegion p.1) regions
unfolding is_in is_member text_eq
regions-IsRegion = (
  monday_works pakistan refl refl (refl, (refl, (refl, (refl, (refl, (refl, (refl, tt))))))),
  (
    monday_works emirates refl refl (refl, (refl, (refl, (refl, (refl, (refl, (refl, tt))))))),
    (
      monday_works saudi_arabia refl refl
          (refl, (refl, (refl, (refl, (refl, (refl, (refl, tt))))))),
      (
        monday_works egypt refl refl (refl, (refl, (refl, (refl, (refl, (refl, (refl, tt))))))),
        (
          monday_works bahrain refl refl (refl, (refl, (refl, (refl, (refl, (refl, (refl, tt))))))),
          tt,
        ),
      ),
    ),
  ),
)

-- A region that is found has a weekend that leaves a working day.
pub get_region-IsRegion :
    (code : Text) (cfg : BankRegionConfig) → get_region code ≡ ok cfg → IsRegion cfg
unfolding get_region
get_region-IsRegion code cfg e = elim (Option-cases (dict_get (upper code) regions)) [
  | inl missing ↦ cc (rw (missing, get_region) at e)
  | inr (c, found) ↦
      let same : ok c ≡ ok cfg = rw (found, get_region) at e in
      let c≡cfg : c ≡ cfg = cc in
      rw (sym c≡cfg) (dict_get-All IsRegion regions (upper code) c regions-IsRegion found)
]

dict_get-known :
    (d : List (Text × Text)) (k : Text)
    → is_member k (map (λ p. p.0) d) ≡ true
    → (v : Text) × (dict_get k d ≡ some v)
unfolding is_member dict_get
dict_get-known [] k h = cc
dict_get-known ((j, w) ∷ d) k h = elim (Bool-cases (text_eq k j)) [
  | inl found ↦ (w, rw found)
  | inr other ↦ let (v, e) = dict_get-known d k (rw other at h) in (v, rw other e)
]

abbrev pub unknown : Text
unknown = codes "Unknown failure"

messages : All (λ p. text_eq p.1 unknown ≡ false) bounce_messages
unfolding text_eq
messages = (refl, (refl, (refl, (refl, (refl, (refl, (refl, tt)))))))

bounce_message-known :
    (canonical : Text)
    → is_member canonical canonical_bounce ≡ true
    → text_eq (bounce_message canonical) unknown ≡ false
unfolding bounce_message
bounce_message-known canonical h =
    let (v, e) = dict_get-known bounce_messages canonical h in
    rw e (dict_get-All (λ m. text_eq m unknown ≡ false) bounce_messages canonical v messages e)

technical : is_member (codes "TECHNICAL_FAILURE") canonical_bounce ≡ true
unfolding is_member text_eq
technical = refl

bounce_of-canonical :
    (cfg : BankRegionConfig) (provider_code : Text)
    → IsRegion cfg
    → is_member (bounce_of cfg provider_code).bounce_reason canonical_bounce ≡ true
unfolding bounce_of
bounce_of-canonical cfg provider_code r =
    elim (Option-cases (dict_get provider_code cfg.bounce_code_map)) [
      | inl missing ↦ rw missing technical
      | inr (v, found) ↦ rw found (
          dict_get-All (λ m. is_member m canonical_bounce ≡ true) cfg.bounce_code_map provider_code
            v r.canonical found)
    ]

-- In every region that is supported any provider code, known or not, is normalised to one of the
-- canonical bounce reasons, carries the code itself, and has a message other than the fallback.
pub normalize_bounce_reason-canonical :
    (region_code provider_code : Text) (cfg : BankRegionConfig)
    → get_region region_code ≡ ok cfg
    → (b : BounceReason) × (normalize_bounce_reason region_code provider_code ≡ ok b)
      × (is_member b.bounce_reason canonical_bounce ≡ true)
      × (b.provider_code ≡ provider_code)
      × (text_eq b.provider_message unknown ≡ false)
unfolding normalize_bounce_reason
normalize_bounce_reason-canonical region_code provider_code cfg e =
    let c = bounce_of-canonical cfg provider_code (get_region-IsRegion region_code cfg e) in
    (
      bounce_of cfg provider_code,
      rw (e, normalize_bounce_reason),
      c,
      unfold bounce_of in refl,
      unfold bounce_of in bounce_message-known (bounce_of cfg provider_code).bounce_reason c,
    )
