-- ===== src/Paging/Walk.antt =====
-- A client that follows the cursors of a listing from page to page: with distinct keys it sees each
-- row once, in the order of the listing.
use mock_sim.Base.{
  ℕ, zero, suc, ◌+◌, ◌≤◌, ◌<◌, ◌≡◌, refl, sym, ap, subst, ◌∙◌, inl, inr, false, Option, none, some,
  List, [], ◌∷◌, ◌++◌, map, All, length, length-append, take, where_all, ltb, lt→ltb, Option-cases,
  Bool-cases, arith,
}
use mathlib.Core.List.{append_assoc, append-nil, map-append}
use mock_sim.Base.Keys.{HasDistinctKeys}
use mock_sim.Paging.{map_option, insert_latest, latest_first, before, last_key, cut, page}
use mock_sim.Paging.Order.{IsDescending, latest_first-IsDescending, where_all-latest_first}

-- The client, with a cursor of any kind; the fuel bounds the pages that it asks for.
module _ {A C : Type 0} (fetch : Option C → List A × Option C) where
  abbrev pub walk : ℕ → Option C → List A
  walk zero cursor = []
  walk (suc f) cursor =
      let (shown, next) = fetch cursor in
      shown ++ elim next [ none ↦ [] | some c ↦ walk f (some c) ]

-- A client that gets the cursors as texts, and views of the rows.
module _ {A B C D : Type 0} (view : A → B) (enc : C → D) (fetch : Option C → List A × Option C)
    (fetch' : Option D → List B × Option D)
    (same : (c : Option C)
      → fetch' (map_option enc c) ≡ (map view (fetch c).0, map_option enc (fetch c).1)) where
  pub walk-encoded :
      (f : ℕ) (c : Option C) → walk fetch' f (map_option enc c) ≡ map view (walk fetch f c)
  walk-encoded zero c = refl
  walk-encoded (suc f) c = elim (Option-cases (fetch c).1) [
    | inl last ↦ rw (same c, last) (sym (map-append view (fetch c).0 []))
    | inr (k, more) ↦
        rw (same c, more)
          (ap (λ l. map view (fetch c).0 ++ l) (walk-encoded f (some k))
            ∙ sym (map-append view (fetch c).0 (walk fetch f (some k))))
  ]

module _ {A : Type 0} (key : A → ℕ) where
  -- A list around the last of its first rows.
  record Split (m : ℕ) (rows : List A) : Type 0 where
    xs : List A
    y : A
    ys : List A
    shown : take (suc m) rows ≡ xs ++ y ∷ []
    whole : rows ≡ xs ++ y ∷ ys

  parted : (m : ℕ) (rows : List A) → m < length rows → Split m rows
  parted m [] h = absurd (omega arith)
  parted zero (a ∷ rows) h = record { xs = []; y = a; ys = rows; shown = refl; whole = refl }
  parted (suc m) (a ∷ rows) h =
      let s = parted m rows (omega arith) in
      record {
        xs = a ∷ s.xs;
        y = s.y;
        ys = s.ys;
        shown = ap (λ l. a ∷ l) s.shown;
        whole = ap (λ l. a ∷ l) s.whole;
      }

  last_key-append : (xs : List A) (y : A) → last_key key (xs ++ y ∷ []) ≡ some (key y)
  last_key-append [] y = refl
  last_key-append (x ∷ []) y = refl
  last_key-append (x ∷ z ∷ xs) y = last_key-append (z ∷ xs) y

  pub take-take : (n : ℕ) (rows : List A) → take n (take (suc n) rows) ≡ take n rows
  take-take zero rows = refl
  take-take (suc n) [] = refl
  take-take (suc n) (a ∷ rows) = ap (λ l. a ∷ l) (take-take n rows)

  take-all : (n : ℕ) (rows : List A) → length rows ≤ n → take n rows ≡ rows
  take-all zero [] h = refl
  take-all zero (a ∷ rows) h = absurd (omega arith)
  take-all (suc n) [] h = refl
  take-all (suc n) (a ∷ rows) h = ap (λ l. a ∷ l) (take-all n rows (omega arith))

  pub length-take-more : (n : ℕ) (rows : List A) → n < length rows → n < length (take (suc n) rows)
  length-take-more n [] h = absurd (omega arith)
  length-take-more zero (a ∷ rows) h = omega arith
  length-take-more (suc n) (a ∷ rows) h = omega (arith, length-take-more n rows (omega arith))

  where_all-kept :
      (c : ℕ) (rows : List A)
      → All (λ b. key b < c) rows
      → where_all (before key (some c)) rows ≡ rows
  where_all-kept c [] h = refl
  where_all-kept c (b ∷ rows) h =
      rw (lt→ltb (key b) c h.0) (ap (λ l. b ∷ l) (where_all-kept c rows h.1))

  All-middle :
      {n : ℕ} (xs : List A) (y : A) (ys : List A) → All (λ b. key b < n) (xs ++ y ∷ ys) → key y < n
  All-middle [] y ys h = h.0
  All-middle (x ∷ xs) y ys h = All-middle xs y ys h.1

  -- After the cursor at a row come the rows behind it.
  behind :
      (xs : List A) (y : A) (ys : List A)
      → IsDescending key (xs ++ y ∷ ys)
      → where_all (before key (some (key y))) (xs ++ y ∷ ys) ≡ ys
  behind [] y ys o =
      let itself : ltb (key y) (key y) ≡ false = ground arith in
      rw itself (where_all-kept (key y) ys o.0)
  behind (x ∷ xs) y ys o =
      let above : key y < key x = All-middle xs y ys o.0 in
      let gone : ltb (key x) (key y) ≡ false = ground (arith, above) in rw gone (behind xs y ys o.1)

  pub where_all-true : (rows : List A) → where_all (before key none) rows ≡ rows
  where_all-true [] = refl
  where_all-true (a ∷ rows) = ap (λ l. a ∷ l) (where_all-true rows)

  length-insert_latest :
      (a : A) (rows : List A) → length (insert_latest key a rows) ≡ suc (length rows)
  unfolding insert_latest
  length-insert_latest a [] = refl
  length-insert_latest a (b ∷ rows) = ground (arith, length-insert_latest a rows)

  length-latest_first : (rows : List A) → length (latest_first key rows) ≡ length rows
  unfolding latest_first
  length-latest_first [] = refl
  length-latest_first (a ∷ rows) =
      omega (arith, length-insert_latest a (latest_first key rows), length-latest_first rows)

  module _ (m : ℕ) (rows : List A) (h : HasDistinctKeys key rows) where
    abbrev fetch_page : Option ℕ → List A × Option ℕ
    fetch_page cursor = page key (suc m) cursor rows

    abbrev sorted : List A
    sorted = latest_first key rows

    found :
        (cursor : Option ℕ)
        → page key (suc m) cursor rows
          ≡ cut key (suc m) (take (suc (suc m)) (where_all (before key cursor) sorted))
    unfolding page
    found cursor = rw (where_all-latest_first key (before key cursor) rows h) refl

    page-more :
        (cursor : Option ℕ) (rest : List A)
        → where_all (before key cursor) sorted ≡ rest
        → (s : Split m rest) → suc m < length rest
        → page key (suc m) cursor rows ≡ (s.xs ++ s.y ∷ [], some (key s.y))
    unfolding cut
    page-more cursor rest at s many =
        let longer =
          lt→ltb (suc m) (length (take (suc (suc m)) rest)) (length-take-more (suc m) rest many) in
        rw (found cursor, at, longer, take-take (suc m) rest, s.shown)
          (ap (λ k. (s.xs ++ s.y ∷ [], k)) (last_key-append s.xs s.y))

    page-last :
        (cursor : Option ℕ) (rest : List A)
        → where_all (before key cursor) sorted ≡ rest
        → length rest ≤ suc m
        → page key (suc m) cursor rows ≡ (rest, none)
    unfolding cut
    page-last cursor rest at few =
        let fits : ltb (suc m) (length rest) ≡ false = ground (arith, few) in
        rw (found cursor, at, take-all (suc (suc m)) rest (omega (arith, few)), fits) refl

    walk-rest :
        (f : ℕ) (seen rest : List A) (cursor : Option ℕ)
        → sorted ≡ seen ++ rest
        → where_all (before key cursor) sorted ≡ rest
        → length rest ≤ f
        → walk fetch_page f cursor ≡ rest
    walk-rest zero seen [] cursor e at fits = refl
    walk-rest zero seen (a ∷ rest) cursor e at fits = absurd (omega arith)
    walk-rest (suc f) seen rest cursor e at fits = elim (Bool-cases (ltb (suc m) (length rest))) [
      | inr few ↦ rw (page-last cursor rest at (ground (arith, few))) (append-nil rest)
      | inl many ↦
          let s = parted m rest (ground (arith, many)) in
          let there : sorted ≡ (seen ++ s.xs) ++ s.y ∷ s.ys =
            e ∙ ap (λ l. seen ++ l) s.whole ∙ sym (append_assoc seen s.xs (s.y ∷ s.ys)) in
          let o : IsDescending key ((seen ++ s.xs) ++ s.y ∷ s.ys) =
            subst (λ l. IsDescending key l) there (latest_first-IsDescending key rows h) in
          let later : where_all (before key (some (key s.y))) sorted ≡ s.ys =
            ap (λ l. where_all (before key (some (key s.y))) l) there
            ∙ behind (seen ++ s.xs) s.y s.ys o in
          let size : length rest ≡ length s.xs + suc (length s.ys) =
            ap (λ l. length l) s.whole ∙ length-append s.xs (s.y ∷ s.ys) in
          let on =
            walk-rest f ((seen ++ s.xs) ++ s.y ∷ []) s.ys (some (key s.y))
              (there ∙ sym (append_assoc (seen ++ s.xs) (s.y ∷ []) s.ys)) later
              (omega (arith, size)) in
          rw (page-more cursor rest at s (ground (arith, many)), on)
            (append_assoc s.xs (s.y ∷ []) s.ys ∙ sym s.whole)
    ]

    walk-sorted : (f : ℕ) → length rows ≤ f → walk fetch_page f none ≡ sorted
    walk-sorted f fits =
        walk-rest f [] sorted none refl (where_all-true sorted)
          (omega (arith, length-latest_first rows))

  pub walk-latest_first :
      (limit : ℕ) (rows : List A)
      → 1 ≤ limit
      → HasDistinctKeys key rows
      → (f : ℕ) → length rows ≤ f
      → walk (λ c. page key limit c rows) f none ≡ latest_first key rows
  walk-latest_first zero rows positive h f fits = absurd (omega arith)
  walk-latest_first (suc m) rows positive h f fits = walk-sorted m rows h f fits
