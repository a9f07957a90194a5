-- ===== src/Money/Rental/Seasons/Counts.antt =====
-- Splitting a rental at the seasons of internal/money/rental.go adds no unit and drops none.
use free_sms.Common.{
  leb, not, ◌||◌, length, drop, ℕ, zero, suc, ◌+◌, ◌≡◌, refl, ap, ◌∙◌, Bool, true, false, ◌&&◌,
  List, [], ◌∷◌, ◌++◌, reverse, ◌==◌, if◌then◌else◌, arith, Bool-cases, inl, inr, ◌⊎◌, ◌<◌, ◌≤◌,
  sym, All,
}
use mathlib.Core.List.{reverse-append}
use free_sms.Common.Int.{ℤ, eqb_ℤ}
use free_sms.Money.Rental.{
  RentalLine, RentalUnit, RentalPrice, RentalError, RateTerms, ok, err, for_range, price_wall,
}
use free_sms.Money.Rental.Seasons.{
  Season, Split, price_inside, inside_of, before, wall_starts, none_started, starts_of,
  last_started, price_rental_seasons, Zone, wall, wall_end, price_rental, in_season, set_season,
  same_unit, add_unit, bill_one, bill_units, split_lines,
}

-- How many units of one kind there are.
abbrev pub units_in : RentalUnit → List RentalLine → ℕ
units_in u [] = 0
units_in u (l ∷ ls) = (if same_unit l.unit u then l.count else 0) + units_in u ls

no_bill : {e : RentalError} {ls : List RentalLine} → err e ≡ ok ls → ⊥
no_bill h = cc

ok-inj : {xs ys : List RentalLine} → RentalPrice.ok xs ≡ ok ys → xs ≡ ys
ok-inj h = cc

units_in-append :
    (u : RentalUnit) (xs ys : List RentalLine)
    → units_in u (xs ++ ys) ≡ units_in u xs + units_in u ys
units_in-append u [] ys = omega arith
units_in-append u (x ∷ xs) ys = omega (arith, units_in-append u xs ys)

units_in-reverse : (u : RentalUnit) (xs : List RentalLine) → units_in u (reverse xs) ≡ units_in u xs
units_in-reverse u [] = refl
units_in-reverse u (x ∷ xs) =
    rw (reverse-append (x ∷ []) xs, units_in-append u (reverse xs) (x ∷ []), units_in-reverse u xs)
      (omega arith)

same_unit-eq : (u v : RentalUnit) → same_unit u v ≡ true → u ≡ v
same_unit-eq u v h = ground arith

first_of_three : (a b c : Bool) → a && b && c ≡ true → a ≡ true
first_of_three a b c h = ground arith

joined :
    (old new : Bool) (c t : ℕ)
    → old ≡ new
    → (if old then c + 1 else 0) + t ≡ (if old then c else 0) + t + (if new then 1 else 0)
joined old new c t e = ground arith

units_in-add_unit :
    (k u : RentalUnit) (season : ℕ) (price : ℤ) (ls : List RentalLine)
    → units_in k (add_unit u season price ls) ≡ units_in k ls + (if same_unit u k then 1 else 0)
unfolding add_unit
units_in-add_unit k u season price [] = omega arith
units_in-add_unit k u season price (l ∷ ls) =
    elim (Bool-cases (same_unit l.unit u && (l.season == season) && eqb_ℤ l.unit_price price)) [
      | inl e ↦ rw e (
          joined (same_unit l.unit k) (same_unit u k) l.count (units_in k ls) (
            ap (λ v. same_unit v k)
              (same_unit-eq l.unit u (first_of_three (same_unit l.unit u) _ _ e))))
      | inr e ↦ rw e (omega arith)
    ]

units_in-bill_one :
    (k : RentalUnit) (start : ℕ) (inside : List Season) (starts : List ℕ) (first : ℕ)
    (u : RentalLine) (s : Split)
    → units_in k (bill_one start inside starts first u s).out
      ≡ units_in k s.out + (if same_unit u.unit k then 1 else 0)
unfolding bill_one
units_in-bill_one k start inside starts first u s = units_in-add_unit k u.unit _ _ s.out

one_more :
    (same : Bool) (n t : ℕ)
    → t + (if same then 1 else 0) + (if same then n else 0) ≡ t + (if same then suc n else 0)
one_more same n t = ground arith

units_in-rounds :
    (k : RentalUnit) (start : ℕ) (inside : List Season) (starts : List ℕ) (first : ℕ)
    (u : RentalLine) (n i : ℕ) (s : Split)
    → units_in k (for_range n i (λ _ t. bill_one start inside starts first u t) s).out
      ≡ units_in k s.out + (if same_unit u.unit k then n else 0)
unfolding for_range
units_in-rounds k start inside starts first u zero i s = ground arith
units_in-rounds k start inside starts first u (suc n) i s =
    units_in-rounds k start inside starts first u n (suc i) (bill_one start inside starts first u s)
    ∙ (rw (units_in-bill_one k start inside starts first u s)
        (one_more (same_unit u.unit k) n (units_in k s.out)))

units_in-bill_units :
    (k : RentalUnit) (start : ℕ) (inside : List Season) (starts : List ℕ) (first : ℕ)
    (us : List RentalLine) (s : Split)
    → units_in k (bill_units start inside starts first us s).out ≡ units_in k s.out + units_in k us
unfolding bill_units
units_in-bill_units k start inside starts first [] s = omega arith
units_in-bill_units k start inside starts first (u ∷ us) s =
    units_in-bill_units k start inside starts first us _
    ∙ (rw (units_in-rounds k start inside starts first u u.count 0 s) (omega arith))

split_units :
    (k : RentalUnit) (start : ℕ) (inside : List Season) (starts : List ℕ) (first : ℕ)
    (us : List RentalLine)
    → units_in k (
        reverse
          (bill_units start inside starts first us
            (record { out = []; months = 0; after = 0 })).out)
      ≡ units_in k us
split_units k start inside starts first us =
    units_in-reverse k _
    ∙ units_in-bill_units k start inside starts first us
        (record { out = []; months = 0; after = 0 })
    ∙ omega arith

units_in-set_season :
    (k : RentalUnit) (n : ℕ) (ls : List RentalLine) → units_in k (set_season n ls) ≡ units_in k ls
units_in-set_season k n [] = refl
units_in-set_season k n (l ∷ ls) =
    ap (λ t. (if same_unit l.unit k then l.count else 0) + t) (units_in-set_season k n ls)

-- Whether a bill is divided: splitting is asked for, and the next season starts before the end.
abbrev pub IsDivided : ℕ → Bool → List Season → Type 0
IsDivided to split [] = ⊥
IsDivided to split (t ∷ ts) = (split ≡ true) × (t.starts < to)

-- A bill that goes through is that of a whole rental under one season's terms: a divided one is
-- priced without weekends, and has the same units; any other is the very bill, with its season.
pub record IsWhole (zone : Zone) (from to : ℕ) (split : Bool) (k : ℕ) (s : Season)
    (later : List Season) (lines : List RentalLine) : Type 0 where
  pub whole : List RentalLine
  pub priced :
      (IsDivided to split later
        × (price_wall (wall zone from) (wall_end zone from to) s.terms false ≡ ok whole))
      ⊎ ((¬ IsDivided to split later)
          × (price_wall (wall zone from) (wall_end zone from to) s.terms true ≡ ok whole)
          × (lines ≡ set_season k whole))
  pub same : (u : RentalUnit) → units_in u lines ≡ units_in u whole

price_rental-wall :
    (zone : Zone) (from to : ℕ) (t : RateTerms) (lines : List RentalLine)
    → price_rental zone from to t ≡ ok lines
    → price_wall (wall zone from) (wall_end zone from to) t true ≡ ok lines
unfolding price_rental
price_rental-wall zone from to t lines h = elim (Bool-cases (leb to from)) [
  | inl e ↦ absurd (no_bill (rw e at h))
  | inr e ↦ rw e at h
]

split-IsWhole :
    (zone : Zone) (from to : ℕ) (split : Bool) (s : Season) (later inside : List Season)
    (starts : List ℕ) (first : ℕ) (p : RentalPrice) (lines : List RentalLine)
    → IsDivided to split later
    → price_wall (wall zone from) (wall_end zone from to) s.terms false ≡ p
    → split_lines (wall zone from) inside starts first p ≡ ok lines
    → IsWhole zone from to split first s later lines
split-IsWhole zone from to split s later inside starts first (err e) lines d h k =
    absurd (no_bill k)
split-IsWhole zone from to split s later inside starts first (ok units) lines d h k = record {
  whole = units;
  priced = inl (d, h);
  same = λ u. rw (← ok-inj k) (split_units u (wall zone from) inside starts first units);
}

season-IsWhole :
    (zone : Zone) (from to : ℕ) (split : Bool) (s : Season) (later : List Season) (first : ℕ)
    (p : RentalPrice) (lines : List RentalLine)
    → (¬ IsDivided to split later)
    → price_rental zone from to s.terms ≡ p
    → in_season first p ≡ ok lines
    → IsWhole zone from to split first s later lines
season-IsWhole zone from to split s later first (err e) lines d h k = absurd (no_bill k)
season-IsWhole zone from to split s later first (ok units) lines d h k = record {
  whole = units;
  priced = inr (d, price_rental-wall zone from to s.terms units h, sym (ok-inj k));
  same = λ u. rw (← ok-inj k) (units_in-set_season u first units);
}

undivided :
    (to : ℕ) (split : Bool) (later : List Season)
    → not split || (length (before to later) == 0) ≡ true
    → ¬ IsDivided to split later
unfolding before
undivided to split [] h d = d
undivided to split (t ∷ ts) h (e, l) = ground arith

divided :
    (to : ℕ) (split : Bool) (later : List Season)
    → not split || (length (before to later) == 0) ≡ false
    → IsDivided to split later
unfolding before
divided to split [] h = ground arith
divided to split (t ∷ ts) h = ground arith

price_inside-IsWhole :
    (zone : Zone) (from to : ℕ) (split : Bool) (first : ℕ) (s : Season) (later : List Season)
    (lines : List RentalLine)
    → price_inside zone from to split first (inside_of to (s ∷ later)) ≡ ok lines
    → IsWhole zone from to split first s later lines
unfolding inside_of
price_inside-IsWhole zone from to split first s later lines h =
    elim (Bool-cases (not split || (length (before to later) == 0))) [
      | inl e ↦
          season-IsWhole zone from to split s later first (price_rental zone from to s.terms) lines
            (undivided to split later e) refl (rw e at h)
      | inr e ↦
          split-IsWhole zone from to split s later (s ∷ before to later)
            (wall_starts zone (wall zone from) (s ∷ before to later)) first
            (price_wall (wall zone from) (wall_end zone from to) s.terms false) lines
            (divided to split later e) refl (rw e at h)
    ]

-- The season in force at an instant: the last of the list that has started.
abbrev pub IsInForce : ℕ → List Season → List Season → Season → List Season → Type 0
IsInForce t seasons earlier s later =
    (seasons ≡ earlier ++ (s ∷ later)) × (s.starts ≤ t) × All (λ n. t < n.starts) later

last_started_cases :
    (t : ℕ) (ss : List Season) (i found : ℕ)
    → (All (λ n. t < n.starts) ss × (last_started t (starts_of ss) i found ≡ found))
      ⊎ ((earlier : List Season) × (s : Season) × (later : List Season) × IsInForce t ss earlier s
            later
          × (last_started t (starts_of ss) i found ≡ i + length earlier))
unfolding last_started
last_started_cases t [] i found = inl (tt, refl)
last_started_cases t (s ∷ ss) i found =
    elim (last_started_cases t ss (suc i) (if leb s.starts t then i else found)) [
      | inr (earlier, x, later, (e, a, b), r) ↦
          inr (s ∷ earlier, x, later, (ap (λ l. s ∷ l) e, a, b), r ∙ omega arith)
      | inl (all, r) ↦ elim (Bool-cases (leb s.starts t)) [
        | inl e ↦ inr ([], s, ss, (refl, ground arith, all), r ∙ (rw e (omega arith)))
        | inr e ↦ inl ((ground arith, all), r ∙ (rw e refl))
      ]
    ]

drop-earlier : (xs ys : List Season) → drop (length xs) (xs ++ ys) ≡ ys
drop-earlier [] ys = refl
drop-earlier (x ∷ xs) ys = drop-earlier xs ys

first_place : (n : ℕ) → 0 + n ≡ n
first_place n = omega arith

some_started :
    (from : ℕ) (seasons : List Season)
    → none_started from seasons ≡ false
    → ¬ All (λ n. from < n.starts) seasons
some_started from [] h all = cc
some_started from (s ∷ ss) h (l, _) = ground arith

-- A bill by seasons is made under the season that the rental starts in, the last of the list that
-- has started by then. Where splitting is asked for and the next season starts before the end, it
-- has as many units of each kind as the bill of the whole rental, without weekends, under that
-- season's terms; otherwise it is that very bill, with weekends, each line with that season's place
-- in the list.
pub price_rental_seasons-IsWhole :
    (zone : Zone) (from to : ℕ) (seasons : List Season) (split : Bool) (lines : List RentalLine)
    → price_rental_seasons zone from to seasons split ≡ ok lines
    → (earlier : List Season) × (s : Season) × (later : List Season) × IsInForce from seasons
        earlier s later
      × IsWhole zone from to split (length earlier) s later lines
unfolding price_rental_seasons
price_rental_seasons-IsWhole zone from to seasons split lines h =
    elim (Bool-cases (none_started from seasons)) [
      | inl e ↦ absurd (no_bill (rw e at h))
      | inr e ↦ elim (Bool-cases (leb to from)) [
        | inl f ↦ absurd (no_bill (rw (e, f) at h))
        | inr f ↦ elim (last_started_cases from seasons 0 0) [
          | inl (all, _) ↦ absurd (some_started from seasons e all)
          | inr (earlier, s, later, (g, a, b), r) ↦ (
            earlier,
            s,
            later,
            (g, a, b),
            price_inside-IsWhole zone from to split (length earlier) s later lines (
                sym (
                  ap (price_inside zone from to split (length earlier)) (
                    ap (inside_of to)
                      (ap (drop (length earlier)) g ∙ drop-earlier earlier (s ∷ later))))
                ∙ (rw (e, f, r ∙ first_place (length earlier)) at h)),
          )
        ]
      ]
    ]
