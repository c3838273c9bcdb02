-- ===== src/Pos/Generator/Picks.antt =====
-- `_pick_card_network` (pos/generator.py): the network is one of the region's.
use mock_sim.Base.{
  ℕ, suc, ◌≡◌, refl, subst, ap, All, Option-cases, ◌⊎◌, inl, inr, Bool, true, false, not, Option,
  none, some, List, [], ◌∷◌, map, Text, upper, text_eq, text_eq_iff, text_eq_refl, is_member,
  dict_get, where_all, Bool-cases, arith,
}
use mock_sim.Bank.Regions.Checks.{dict_get-All}
use mock_sim.Calendar.{is_in}
use mock_sim.Calendar.NextDay.{IsProper}
use mock_sim.Session.{ok}
use mock_sim.Pos.Random.{Floats, Random}
use mock_sim.Pos.Regions.{
  PosRegionConfig, regions, get_region, pakistan, emirates, saudi_arabia, egypt, bahrain,
}
use mock_sim.Pos.Generator.{
  walk, is_not, head_or, pick_other, pick_domestic, pick_card_network, weight_of, total_weight,
}

is_member-here : (t : Text) (ts : List Text) → is_member t (t ∷ ts) ≡ true
unfolding is_member
is_member-here t ts = rw (text_eq_refl t)

is_member-there :
    (t u : Text) (ts : List Text) → is_member t ts ≡ true → is_member t (u ∷ ts) ≡ true
unfolding is_member
is_member-there t u ts h = elim (Bool-cases (text_eq t u)) [
  | inl same ↦ rw same
  | inr other ↦ rw other h
]

is_member-later :
    (t u : Text) (ts : List Text) → is_member t (u ∷ ts) ≡ true → (t ≡ u) ⊎ (is_member t ts ≡ true)
unfolding is_member
is_member-later t u ts h = elim (Bool-cases (text_eq t u)) [
  | inl same ↦ inl ((text_eq_iff t u).0 same)
  | inr other ↦ inr (rw other at h)
]

-- What is in the rows that meet a condition is in the table.
is_member-where_all :
    (p : Text → Bool) (t : Text) (ts : List Text)
    → is_member t (where_all p ts) ≡ true
    → is_member t ts ≡ true
is_member-where_all p t [] h = h
is_member-where_all p t (u ∷ ts) h = elim (Bool-cases (p u)) [
  | inr fails ↦ is_member-there t u ts (is_member-where_all p t ts (rw fails at h))
  | inl passes ↦ elim (is_member-later t u (where_all p ts) (rw passes at h)) [
    | inl same ↦ rw same (is_member-here u ts)
    | inr later ↦ is_member-there t u ts (is_member-where_all p t ts later)
  ]
]

names : {F : Type 0} → List (Text × F) → List Text
names [] = []
names ((n, w) ∷ rest) = n ∷ names rest

names-map :
    {F : Type 0} (g : F → F) (h : Text → F) (ts : List Text)
    → names (map {B = Text × F} (λ x. (x.0, g x.1)) (map {B = Text × F} (λ t. (t, h t)) ts)) ≡ ts
unfolding names
names-map g h [] = refl
names-map g h (t ∷ ts) = ap (λ rest. t ∷ rest) (names-map g h ts)

-- A region has a network, and its domestic network, if it has one, is among its networks.
abbrev pub has_domestic : Option Text → List Text → Bool
has_domestic none nets = true
has_domestic (some d) nets = is_member d nets

pub record IsServable (cfg : PosRegionConfig) : Type 0 where
  pub some_network : is_member (head_or [] cfg.card_networks) cfg.card_networks ≡ true
  pub domestic : has_domestic cfg.domestic_network cfg.card_networks ≡ true
  pub proper : IsProper cfg.weekend_days

module _ {F : Type 0} (fl : Floats F) (rng : Random F) where
  walk-member :
      (r cumulative : F) (last : Text) (rows : List (Text × F))
      → is_member (walk fl rng r cumulative last rows) (last ∷ names rows) ≡ true
  unfolding walk names
  walk-member r cumulative last [] = is_member-here last []
  walk-member r cumulative last ((net, w) ∷ rest) =
      elim (Bool-cases (not (fl.lt (fl.add cumulative w) r))) [
        | inl here ↦
            rw here (is_member-there net last (net ∷ names rest) (is_member-here net (names rest)))
        | inr on ↦ rw on (
            is_member-there _ last (net ∷ names rest)
              (walk-member r (fl.add cumulative w) net rest))
      ]

  -- With a row at least, the initial last name does not matter.
  walk-member_cons :
      (r cumulative : F) (last net : Text) (w : F) (rest : List (Text × F))
      → is_member (walk fl rng r cumulative last ((net, w) ∷ rest)) (net ∷ names rest) ≡ true
  unfolding walk
  walk-member_cons r cumulative last net w rest =
      elim (Bool-cases (not (fl.lt (fl.add cumulative w) r))) [
        | inl here ↦ rw here (is_member-here net (names rest))
        | inr on ↦ rw on (walk-member r (fl.add cumulative w) net rest)
      ]

  pick_other-member :
      (cfg : PosRegionConfig) (nets : List Text) (n : ℕ)
      → IsServable cfg
      → ((t : Text) → is_member t nets ≡ true → is_member t cfg.card_networks ≡ true)
      → is_member (pick_other fl rng cfg nets n).0 cfg.card_networks ≡ true
  unfolding pick_other names
  pick_other-member cfg [] n h sub = h.some_network
  pick_other-member cfg (t ∷ []) n h sub = sub t (is_member-here t [])
  pick_other-member cfg (t ∷ u ∷ rest) n h sub = sub _ (
      subst (λ ns. is_member (pick_other fl rng cfg (t ∷ u ∷ rest) n).0 ns ≡ true)
        (names-map
          (λ w. fl.div w (
            total_weight fl rng (fl.of_nat 0)
              (map {B = Text × F} (λ t. (t, weight_of fl rng t)) (t ∷ u ∷ rest))))
          (weight_of fl rng) (t ∷ u ∷ rest))
        (walk-member_cons (rng.random n) (fl.of_nat 0) [] t _ _))

  pick_domestic-member :
      (cfg : PosRegionConfig) (domestic : Option Text) (n : ℕ)
      → IsServable cfg
      → has_domestic domestic cfg.card_networks ≡ true
      → is_member (pick_domestic fl rng cfg domestic n).0 cfg.card_networks ≡ true
  unfolding pick_domestic
  pick_domestic-member cfg none n h k =
      pick_other-member cfg (where_all (is_not none) cfg.card_networks) n h
        (λ t. is_member-where_all (is_not none) t cfg.card_networks)
  pick_domestic-member cfg (some d) n h k =
      elim (Bool-cases (fl.lt (rng.random n) (fl.hundredths cfg.domestic_routing_pct))) [
        | inl routed ↦ rw routed k
        | inr other ↦ rw other (
            pick_other-member cfg (where_all (is_not (some d)) cfg.card_networks) (suc n) h
              (λ t. is_member-where_all (is_not (some d)) t cfg.card_networks))
      ]

  -- The network of a transaction is one of the region's, whatever is drawn.
  pub pick_card_network-member :
      (cfg : PosRegionConfig) (n : ℕ)
      → IsServable cfg
      → is_member (pick_card_network fl rng cfg n).0 cfg.card_networks ≡ true
  unfolding pick_card_network
  pick_card_network-member cfg n h = pick_domestic-member cfg cfg.domestic_network n h h.domestic

monday_works :
    (cfg : PosRegionConfig)
    → is_in 1 cfg.weekend_days ≡ false
    → is_member (head_or [] cfg.card_networks) cfg.card_networks ≡ true
    → has_domestic cfg.domestic_network cfg.card_networks ≡ true
    → IsServable cfg
monday_works cfg w h d = record {
  some_network = h;
  domestic = d;
  proper = record {
    workday = 1;
    from_monday = omega arith;
    to_sunday = omega arith;
    not_weekend = w;
  };
}

regions-IsServable : All (λ (row : Text × PosRegionConfig). IsServable row.1) regions
unfolding is_member text_eq is_in
regions-IsServable = (
  monday_works pakistan refl refl refl,
  (
    monday_works emirates refl refl refl,
    (
      monday_works saudi_arabia refl refl refl,
      (monday_works egypt refl refl refl, (monday_works bahrain refl refl refl, tt)),
    ),
  ),
)

-- A region of the table is servable.
pub get_region-IsServable :
    (code : Text) (cfg : PosRegionConfig) → get_region code ≡ ok cfg → IsServable cfg
unfolding get_region
get_region-IsServable code cfg e = elim (Option-cases (dict_get (upper code) regions)) [
  | inl missing ↦ cc (rw (missing, get_region) at e)
  | inr (c, found) ↦
      let same : ok c ≡ ok cfg = rw (found, get_region) at e in
      let c≡cfg : c ≡ cfg = cc in
      rw (← c≡cfg) (dict_get-All IsServable regions (upper code) c regions-IsServable found)
]
