-- ===== src/Invoice/Examples.antt =====
-- Invoices with surcharges.
use free_sms.Common.{◌≡◌, ◌≢◌, refl, sym, subst, true, false, List, [], ◌∷◌, ◌++◌, some, All, arith}
use free_sms.Common.Int.{ℤ, pos, add64, wrap, ◌+ℤ◌, mul64, neg64, quot64, sub64, ◌*ℤ◌, ◌-ℤ◌}
use free_sms.Common.Text.{codes}
use free_sms.Money.Rounding.{share, scale, vat, line_net, div_round}
use free_sms.Money.Totals.{compute, sort_rates, bubble}
use free_sms.Money.Totals.Sort.{sum_over, has, IsAscending}
use free_sms.Invoice.{
  OrderLine, chargeable_lines, selected, charged_line, to_money_lines, bands_from, totals_with,
}
use free_sms.Invoice.Surcharges.{
  Surcharges, invalid_share, save_surcharges, surcharge_lines, consumables_lines, preview,
  charge_line, share_lines, capped, labour_of, add_labour, labour_at, descending, shares_of,
  total_of, cut_down, cut_loop, add_at,
}
use free_sms.Invoice.Ceiling.{sum_nets, ceiling}
use free_sms.Invoice.Consumables.{labour_net, some_labour, is_capped, consumables_lines-IsDue}
use free_sms.Invoice.Issued.{IsSmall, totals_with-preview}

abbrev order_line : ℤ → ℤ → ℤ → OrderLine
order_line quantity price rate = record {
  kind = codes "labour";
  description = codes "work";
  quantity_milli = quantity;
  unit_price_minor = price;
  vat_rate_basis = rate;
  cost_bearer = codes "customer";
  approved = true;
  declined = false;
  withdrawn = false;
  from_answer = false;
}

-- Two hours at 25 per cent, one at 12.
abbrev order : List OrderLine
order =
    order_line (pos 2000) (pos 50000) (pos 2500) ∷ order_line (pos 1000) (pos 30000) (pos 1200) ∷ []

-- Five per cent of the labour, 50 kronor at most, and a fee of 29.
abbrev settings : Surcharges
settings = record {
  consumables_basis = pos 500;
  consumables_cap_minor = some (pos 5000);
  invoice_fee_minor = pos 2900;
}

consumables_lines-IsDue_example :
    let lines = chargeable_lines order in
    let share_of = λ (r : ℤ). share (labour_net r (pos 0) lines) (pos 500) in
    (rates : List ℤ) × IsAscending rates
    × ((r : ℤ) → has r rates ≡ some_labour r lines)
    × (sum_nets (consumables_lines settings (codes "c") lines)
        ≡ ceiling (some (pos 5000)) (sum_over share_of rates))
    × (is_capped (some (pos 5000)) (sum_over share_of rates) ≡ false
        → All
            (λ l. l.net_minor ≡ share_of l.vat_rate_basis)
            (consumables_lines settings (codes "c") lines))
consumables_lines-IsDue_example =
    consumables_lines-IsDue settings (codes "c") (chargeable_lines order) (omega arith, omega arith)

-- 50 kronor in proportion to 100000 and 30000.
cut_in_proportion :
    surcharge_lines settings (codes "c") (codes "f") (chargeable_lines order) true
    ≡ charge_line (codes "consumables") (codes "c") (pos 3846) (pos 2500)
      ∷ charge_line (codes "consumables") (codes "c") (pos 1154) (pos 1200)
      ∷ charge_line (codes "fee") (codes "f") (pos 2900) (pos 2500)
      ∷ []
unfolding surcharge_lines consumables_lines share_lines descending sort_rates labour_of
    chargeable_lines selected charged_line add_labour bubble capped total_of shares_of add64 wrap
    ◌+ℤ◌ mul64 neg64 quot64 sub64 ◌*ℤ◌ ◌-ℤ◌ add_at charge_line cut_down cut_loop labour_at div_round
    line_net scale share vat
cut_in_proportion = refl

all-IsSmall :
    All IsSmall (surcharge_lines settings (codes "c") (codes "f") (chargeable_lines order) true)
unfolding charge_line
all-IsSmall =
    subst (All IsSmall) (sym cut_in_proportion) (omega arith, (omega arith, (omega arith, tt)))

something_charged : chargeable_lines order ≢ []
unfolding chargeable_lines selected
something_charged e = absurd cc

totals_with-preview_example :
    let lines = chargeable_lines order in
    let charges = surcharge_lines settings (codes "c") (codes "f") lines true in
    let totals = compute (to_money_lines (lines ++ charges)) in
    (totals_with order (preview settings (codes "c") (codes "f") lines) ≡ totals)
    × (bands_from (lines ++ charges) ≡ totals.bands)
totals_with-preview_example =
    totals_with-preview settings (codes "c") (codes "f") order something_charged all-IsSmall

too_much : save_surcharges true (record settings { consumables_basis = pos 2501 }) ≡ invalid_share
unfolding save_surcharges
too_much = refl
