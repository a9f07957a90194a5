-- ===== src/Invoice/Priced.antt =====
-- The lines that a job charges, priced: what `Compute` makes of them, and the bands of their amounts.
use free_sms.Common.{
  ◌≡◌, refl, ap, ◌∙◌, true, false, List, [], ◌∷◌, ◌++◌, map, All, Bool-cases, inl, inr, arith,
}
use free_sms.Money.Rounding.{line_net, vat}
use free_sms.Money.Totals.{Line, Sums, add_line, add_lines, no_sums, compute, band_of, sort_rates}
use free_sms.Invoice.{
  OrderLine, InvoiceLine, billable, selected, charged_line, chargeable_lines, to_money_lines, Rated,
  group_line, group_lines, bands_from, job_line,
}

-- A line whose amounts are those of its quantity, its price and its rate.
abbrev pub IsPriced : InvoiceLine → Type 0
IsPriced l =
    (l.net_minor ≡ line_net l.quantity_milli l.unit_price_minor)
    × (l.vat_minor ≡ vat l.net_minor l.vat_rate_basis)
    × (l.is_margin_scheme ≡ false)

abbrev rated_of : Sums → Rated
rated_of s = record { by_rate = s.by_rate; rates = s.rates }

abbrev money_line : InvoiceLine → Line
money_line l = record {
  quantity_milli = l.quantity_milli;
  unit_price_minor = l.unit_price_minor;
  vat_rate_basis = l.vat_rate_basis;
  charged_to_customer = true;
}

group_line-add_line :
    (s : Sums) (l : InvoiceLine)
    → IsPriced l
    → group_line (rated_of s) l ≡ rated_of (add_line s (money_line l))
unfolding group_line add_line
group_line-add_line s l (hn, hv, hm) = simp (hm, hv, hn) refl

group_lines-add_lines :
    (s : Sums) (ls : List InvoiceLine)
    → All IsPriced ls
    → group_lines (rated_of s) ls ≡ rated_of (add_lines s (to_money_lines ls))
unfolding group_lines add_lines to_money_lines
group_lines-add_lines s [] _ = refl
group_lines-add_lines s (l ∷ ls) (h, hs) =
    ap (λ r. group_lines r ls) (group_line-add_line s l h)
    ∙ group_lines-add_lines (add_line s (money_line l)) ls hs

-- Bands of the amounts that were written are the bands of the lines that were computed.
pub bands_from-compute :
    (ls : List InvoiceLine) → All IsPriced ls → bands_from ls ≡ (compute (to_money_lines ls)).bands
unfolding bands_from compute
bands_from-compute ls h =
    ap (λ s. map (band_of s.by_rate) (sort_rates [] s.rates)) (group_lines-add_lines no_sums ls h)

pub chargeable_lines-IsPriced : (ls : List OrderLine) → All IsPriced (chargeable_lines ls)
unfolding chargeable_lines charged_line
chargeable_lines-IsPriced [] = tt
chargeable_lines-IsPriced (l ∷ ls) = elim (Bool-cases (selected l)) [
  | inl e ↦ rw e ((refl, refl, refl), chargeable_lines-IsPriced ls)
  | inr e ↦ rw e (chargeable_lines-IsPriced ls)
]

billable-selected : (l : OrderLine) → billable l ≡ selected l
unfolding billable selected
billable-selected l = ground arith

job_line_charged :
    (s : Sums) (l : OrderLine)
    → selected l ≡ true
    → add_line s (job_line l) ≡ add_line s (money_line (charged_line l))
unfolding add_line job_line charged_line
job_line_charged s l h = rw (billable-selected l, h) refl

job_line_left : (s : Sums) (l : OrderLine) → selected l ≡ false → add_line s (job_line l) ≡ s
unfolding add_line job_line
job_line_left s l h = rw (billable-selected l, h) refl

-- Lines that are not charged change nothing.
pub add_lines-chargeable :
    (s : Sums) (ls : List OrderLine)
    → add_lines s (map job_line ls) ≡ add_lines s (to_money_lines (chargeable_lines ls))
unfolding add_lines chargeable_lines to_money_lines
add_lines-chargeable s [] = refl
add_lines-chargeable s (l ∷ ls) = elim (Bool-cases (selected l)) [
  | inl e ↦ rw e (
      ap (λ t. add_lines t (map job_line ls)) (job_line_charged s l e)
      ∙ add_lines-chargeable (add_line s (money_line (charged_line l))) ls)
  | inr e ↦
      rw e
        (ap (λ t. add_lines t (map job_line ls)) (job_line_left s l e) ∙ add_lines-chargeable s ls)
]

pub add_lines-append :
    (s : Sums) (ks ls : List Line) → add_lines s (ks ++ ls) ≡ add_lines (add_lines s ks) ls
unfolding add_lines
add_lines-append s [] ls = refl
add_lines-append s (k ∷ ks) ls = add_lines-append (add_line s k) ks ls

pub to_money_lines-append :
    (ks ls : List InvoiceLine) → to_money_lines (ks ++ ls) ≡ to_money_lines ks ++ to_money_lines ls
unfolding to_money_lines
to_money_lines-append [] ls = refl
to_money_lines-append (k ∷ ks) ls = rw (to_money_lines-append ks ls)
