-- ===== src/Invoice/Consumables.antt =====
-- The consumables of internal/workshop/surcharges.go against what the labour comes to at each rate.
use free_sms.Common.{
  ◌≡◌, refl, sym, ap, subst, ◌∙◌, Bool, false, ◌&&◌, ◌||◌, List, [], ◌∷◌, map, length, Option, none,
  some, if◌then◌else◌, All, Bool-cases, inl, inr, arith,
}
use free_sms.Common.Int.{ℤ, pos, add64, ltb_ℤ, eqb_ℤ}
use free_sms.Common.Text.{Text, codes, text_eq}
use free_sms.Money.Rounding.{share}
use free_sms.Money.Totals.{sort_rates}
use free_sms.Money.Totals.Sort.{
  sum_over, eqb_ℤ→eq, has, has-sort_rates, IsFresh, IsAscending, sort_rates-IsAscending,
  sum_over-reverse,
}
use free_sms.Invoice.{InvoiceLine}
use free_sms.Invoice.Surcharges.{
  Surcharges, Labour, add_labour, labour_of, labour_at, descending, shares_of, consumables_lines,
  share_lines, capped,
}
use free_sms.Invoice.Ceiling.{
  sum64, sum_nets, total_of_zero, ceiling, IsCap, capped-ceiling, sum_nets-share_lines,
  share_lines-amounts,
}

abbrev pub is_labour : ℤ → InvoiceLine → Bool
is_labour rate l = text_eq l.kind (codes "labour") && eqb_ℤ l.vat_rate_basis rate

-- The labour at a rate, one line after the other.
abbrev pub labour_net : ℤ → ℤ → List InvoiceLine → ℤ
labour_net rate t [] = t
labour_net rate t (l ∷ ls) =
    labour_net rate (if is_labour rate l then add64 t l.net_minor else t) ls

abbrev pub some_labour : ℤ → List InvoiceLine → Bool
some_labour rate [] = false
some_labour rate (l ∷ ls) = is_labour rate l || some_labour rate ls

abbrev rates_in : List Labour → List ℤ
rates_in es = map (λ e. e.rate) es

labour_at-add_labour :
    (r rate net : ℤ) (es : List Labour)
    → labour_at r (add_labour rate net es)
      ≡ (if eqb_ℤ rate r then add64 (labour_at r es) net else labour_at r es)
unfolding labour_at add_labour
labour_at-add_labour r rate net [] = ground arith
labour_at-add_labour r rate net (e ∷ es) = ground (arith, labour_at-add_labour r rate net es)

labour_at-labour_of :
    (r : ℤ) (es : List Labour) (ls : List InvoiceLine)
    → labour_at r (labour_of es ls) ≡ labour_net r (labour_at r es) ls
unfolding labour_of
labour_at-labour_of r es [] = refl
labour_at-labour_of r es (l ∷ ls) = elim (Bool-cases (text_eq l.kind (codes "labour"))) [
  | inl e ↦ rw e (
      labour_at-labour_of r (add_labour l.vat_rate_basis l.net_minor es) ls
      ∙ ap (λ t. labour_net r t ls) (labour_at-add_labour r l.vat_rate_basis l.net_minor es))
  | inr e ↦ rw e (labour_at-labour_of r es ls)
]

has-add_labour :
    (r rate net : ℤ) (es : List Labour)
    → has r (rates_in (add_labour rate net es)) ≡ (has r (rates_in es) || eqb_ℤ rate r)
unfolding add_labour
has-add_labour r rate net [] = ground arith
has-add_labour r rate net (e ∷ es) = elim (Bool-cases (eqb_ℤ e.rate rate)) [
  | inl q ↦ rw q (ground (arith, eqb_ℤ→eq e.rate rate q))
  | inr q ↦ rw q (ground (arith, has-add_labour r rate net es))
]

add_labour-IsFresh :
    (rate net : ℤ) (es : List Labour)
    → IsFresh (rates_in es)
    → IsFresh (rates_in (add_labour rate net es))
unfolding add_labour
add_labour-IsFresh rate net [] h = (refl, tt)
add_labour-IsFresh rate net (e ∷ es) (new, h) = elim (Bool-cases (eqb_ℤ e.rate rate)) [
  | inl q ↦ rw q (new, h)
  | inr q ↦ rw q (
    rw (has-add_labour e.rate rate net es) (ground (arith, new, q)),
    add_labour-IsFresh rate net es h,
  )
]

has-labour_of :
    (r : ℤ) (es : List Labour) (ls : List InvoiceLine)
    → has r (rates_in (labour_of es ls)) ≡ (has r (rates_in es) || some_labour r ls)
unfolding labour_of
has-labour_of r es [] = ground arith
has-labour_of r es (l ∷ ls) = elim (Bool-cases (text_eq l.kind (codes "labour"))) [
  | inl e ↦ rw e (
      ground (
        arith,
        has-labour_of r (add_labour l.vat_rate_basis l.net_minor es) ls,
        has-add_labour r l.vat_rate_basis l.net_minor es,
      ))
  | inr e ↦ rw e (has-labour_of r es ls)
]

labour_of-IsFresh :
    (es : List Labour) (ls : List InvoiceLine)
    → IsFresh (rates_in es)
    → IsFresh (rates_in (labour_of es ls))
unfolding labour_of
labour_of-IsFresh es [] h = h
labour_of-IsFresh es (l ∷ ls) h = elim (Bool-cases (text_eq l.kind (codes "labour"))) [
  | inl e ↦ rw e (
      labour_of-IsFresh (add_labour l.vat_rate_basis l.net_minor es) ls
        (add_labour-IsFresh l.vat_rate_basis l.net_minor es h))
  | inr e ↦ rw e (labour_of-IsFresh es ls h)
]

sum64-map : (f : ℤ → ℤ) (rs : List ℤ) → sum64 (map f rs) ≡ sum_over f rs
sum64-map f [] = refl
sum64-map f (r ∷ rs) = ap (add64 (f r)) (sum64-map f rs)

length-map : (f : ℤ → ℤ) (rs : List ℤ) → length (map f rs) ≡ length rs
length-map f [] = refl
length-map f (r ∷ rs) = omega (arith, length-map f rs)

nowhere : (rs : List ℤ) → All (λ r. has r [] ≡ false) rs
nowhere [] = tt
nowhere (r ∷ rs) = (refl, nowhere rs)

-- Below the ceiling, or without one.
abbrev pub is_capped : Option ℤ → ℤ → Bool
is_capped none due = false
is_capped (some cap) due = ltb_ℤ cap due

uncapped : (cap : Option ℤ) (t : ℤ) (ss : List ℤ) → is_capped cap t ≡ false → capped cap t ss ≡ ss
unfolding capped
uncapped none t ss h = refl
uncapped (some cap) t ss h = rw h refl

module _ (s : Surcharges) (text : Text) (lines : List InvoiceLine) where
  abbrev es : List Labour
  es = labour_of [] lines

  abbrev share_at : ℤ → ℤ
  share_at r = share (labour_at r es) s.consumables_basis

  abbrev shares : List ℤ
  shares = map share_at (descending es)

  due_sum : sum64 shares ≡ sum_over share_at (sort_rates [] (rates_in es))
  unfolding descending
  due_sum =
      sum64-map share_at (descending es) ∙ sum_over-reverse share_at (sort_rates [] (rates_in es))

  consumables-sum :
      IsCap s.consumables_cap_minor
      → sum_nets (consumables_lines s text lines) ≡ ceiling s.consumables_cap_minor (sum64 shares)
  unfolding consumables_lines shares_of
  consumables-sum h =
      let (sums, same) = capped-ceiling s.consumables_cap_minor shares h in
      ap
        (λ t. sum_nets (share_lines text (descending es) (capped s.consumables_cap_minor t shares)))
        (total_of_zero shares)
      ∙ sum_nets-share_lines text (descending es)
          (capped s.consumables_cap_minor (sum64 shares) shares)
          (sym (same ∙ length-map share_at (descending es)))
      ∙ sums

  consumables-amounts :
      is_capped s.consumables_cap_minor (sum64 shares) ≡ false
      → All (λ l. l.net_minor ≡ share_at l.vat_rate_basis) (consumables_lines s text lines)
  unfolding consumables_lines shares_of
  consumables-amounts h =
      rw (total_of_zero shares, uncapped s.consumables_cap_minor (sum64 shares) shares h)
        (share_lines-amounts text share_at (descending es))

  share_due : ℤ → ℤ
  share_due r = share (labour_net r (pos 0) lines) s.consumables_basis

  same_amounts : (r : ℤ) → share_at r ≡ share_due r
  unfolding share_due labour_at
  same_amounts r = ap (λ n. share n s.consumables_basis) (labour_at-labour_of r [] lines)

-- With a ceiling that is not below nothing, or none: the consumables of an invoice come to the sum,
-- over the rates that a line of labour has, each taken once, of the share of what the labour at
-- that rate comes to, or to the ceiling exactly when that is less; and below the ceiling each of
-- their lines is the share of the labour at its own rate. Sums are those of int64.
pub consumables_lines-IsDue :
    (s : Surcharges) (text : Text) (lines : List InvoiceLine)
    → IsCap s.consumables_cap_minor
    → let share_of = λ (r : ℤ). share (labour_net r (pos 0) lines) s.consumables_basis in
      (rates : List ℤ) × IsAscending rates
      × ((r : ℤ) → has r rates ≡ some_labour r lines)
      × (sum_nets (consumables_lines s text lines)
          ≡ ceiling s.consumables_cap_minor (sum_over share_of rates))
      × (is_capped s.consumables_cap_minor (sum_over share_of rates) ≡ false
          → All (λ l. l.net_minor ≡ share_of l.vat_rate_basis) (consumables_lines s text lines))
unfolding share_due
consumables_lines-IsDue s text lines h =
    let found = rates_in (labour_of [] lines) in
    let rates = sort_rates [] found in
    let at_rates : share_at s text lines ≡ share_due s text lines =
      λ i r. same_amounts s text lines r i in
    let due = due_sum s text lines ∙ ap (λ f. sum_over f rates) at_rates in
    (
      rates,
      sort_rates-IsAscending [] found tt (labour_of-IsFresh [] lines tt) (nowhere found),
      λ r. has-sort_rates r [] found ∙ has-labour_of r [] lines,
      consumables-sum s text lines h ∙ ap (ceiling s.consumables_cap_minor) due,
      λ below.
          subst (λ f. All (λ l. l.net_minor ≡ f l.vat_rate_basis) (consumables_lines s text lines))
            at_rates
            (consumables-amounts s text lines (ap (is_capped s.consumables_cap_minor) due ∙ below)),
    )
