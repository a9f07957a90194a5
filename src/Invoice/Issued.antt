-- ===== src/Invoice/Issued.antt =====
-- That the total of a job's page is that of its invoice, and that the invoice prints the bands of
-- its total.
use free_sms.Common.{
  ◌^◌, ◌≤◌, ◌≡◌, ◌≢◌, refl, sym, ap, ◌∙◌, Bool, true, false, ◌&&◌, List, [], ◌∷◌, ◌++◌, map,
  if◌then◌else◌, All, All-append, Bool-cases, inl, inr, arith,
}
use free_sms.Common.Int.{ℤ, pos, negsuc, abs, ltb_ℤ, eqb_ℤ, ◌*ℤ◌, mul64, mul64_exact}
use free_sms.Money.Rounding.Amounts.{Fits-of_abs}
use free_sms.Common.Text.{Text, codes}
use free_sms.Money.Rounding.{line_net, vat, div_round}
use free_sms.Money.Rounding.Nearest.{IsRounded, div_round-IsRounded}
use free_sms.Money.Totals.{Line, add_lines, no_sums, compute}
use free_sms.Invoice.{
  OrderLine, InvoiceLine, chargeable_lines, to_money_lines, bands_from, job_line, extra_line,
  totals_with,
}
use free_sms.Invoice.Surcharges.{
  Surcharges, charged, charge_line, share_lines, consumables_lines, surcharge_lines, shown, preview,
}
use free_sms.Invoice.Priced.{
  IsPriced, bands_from-compute, chargeable_lines-IsPriced, add_lines-chargeable, add_lines-append,
  to_money_lines-append,
}

-- A line of one of something at its net amount.
abbrev IsCharge : InvoiceLine → Type 0
IsCharge l =
    (l.quantity_milli ≡ pos 1000)
    × (l.unit_price_minor ≡ l.net_minor)
    × (l.vat_minor ≡ vat l.net_minor l.vat_rate_basis)
    × (l.is_margin_scheme ≡ false)

share_lines-IsCharge :
    (text : Text) (rates shares : List ℤ) → All IsCharge (share_lines text rates shares)
unfolding share_lines charge_line
share_lines-IsCharge text [] shares = tt
share_lines-IsCharge text (r ∷ rates) [] = tt
share_lines-IsCharge text (r ∷ rates) (s ∷ shares) = elim (Bool-cases (eqb_ℤ s (pos 0))) [
  | inl e ↦ rw e (share_lines-IsCharge text rates shares)
  | inr e ↦ rw e ((refl, refl, refl, refl), share_lines-IsCharge text rates shares)
]

fee-IsCharge :
    (b : Bool) (text : Text) (fee : ℤ)
    → All IsCharge (if b then charge_line (codes "fee") text fee (pos 2500) ∷ [] else [])
unfolding charge_line
fee-IsCharge true text fee = ((refl, refl, refl, refl), tt)
fee-IsCharge false text fee = tt

consumables-IsCharge :
    (b : Bool) (s : Surcharges) (text : Text) (lines : List InvoiceLine)
    → All IsCharge (if b then consumables_lines s text lines else [])
unfolding consumables_lines
consumables-IsCharge true s text lines = share_lines-IsCharge text _ _
consumables-IsCharge false s text lines = tt

surcharge_lines-IsCharge :
    (s : Surcharges) (t u : Text) (lines : List InvoiceLine) (original : Bool)
    → All IsCharge (surcharge_lines s t u lines original)
unfolding surcharge_lines
surcharge_lines-IsCharge s t u lines original =
    All-append IsCharge
      (if ltb_ℤ (pos 0) s.consumables_basis then consumables_lines s t lines else []) _
      (consumables-IsCharge (ltb_ℤ (pos 0) s.consumables_basis) s t lines)
      (fee-IsCharge (original && ltb_ℤ (pos 0) s.invoice_fee_minor) u s.invoice_fee_minor)

-- A net amount that is at most ten thousand billion minor units.
abbrev pub IsSmall : InvoiceLine → Type 0
IsSmall l = abs l.net_minor ≤ 10 ^ 15

thousand_small : (n : ℤ) → abs n ≤ 10 ^ 15 → abs (pos 1000 *ℤ n) ≤ 10 ^ 18
unfolding ◌*ℤ◌
thousand_small n h = ground arith

one_thousandth : (n r : ℤ) → IsRounded (pos 1000 *ℤ n) r 1000 → r ≡ n
unfolding ◌*ℤ◌
one_thousandth (pos n) r h = ground (arith, h.not_above, h.not_below, h.sign_pos, h.sign_neg)
one_thousandth (negsuc n) r h = ground (arith, h.not_above, h.not_below, h.sign_pos, h.sign_neg)

line_net_one : (n : ℤ) → abs n ≤ 10 ^ 15 → line_net (pos 1000) n ≡ n
unfolding line_net
line_net_one n h =
    let small : abs (pos 1000 *ℤ n) ≤ 10 ^ 18 = thousand_small n h in
    let exact : mul64 (pos 1000) n ≡ pos 1000 *ℤ n =
      mul64_exact (pos 1000) n (Fits-of_abs (pos 1000 *ℤ n) (omega arith)) in
    rw exact (
      one_thousandth n (div_round (pos 1000 *ℤ n) (pos 1000))
        (div_round-IsRounded (pos 1000 *ℤ n) 1000 (omega arith) (omega arith) (omega arith)))

charge-IsPriced : (ls : List InvoiceLine) → All IsCharge ls → All IsSmall ls → All IsPriced ls
charge-IsPriced [] _ _ = tt
charge-IsPriced (l ∷ ls) ((hq, hp, hv, hm), hs) (small, smalls) =
    ((sym (rw (hq, hp) (line_net_one l.net_minor small)), hv, hm), charge-IsPriced ls hs smalls)

extra_lines-money :
    (ls : List InvoiceLine) → All IsCharge ls → map extra_line (map shown ls) ≡ to_money_lines ls
unfolding extra_line shown to_money_lines
extra_lines-money [] _ = refl
extra_lines-money (l ∷ ls) ((hq, hp, _, _), hs) = rw (hq, hp, extra_lines-money ls hs)

not_charged :
    (s : Surcharges) (t u : Text) (lines : List InvoiceLine)
    → charged s ≡ false
    → surcharge_lines s t u lines true ≡ []
unfolding charged surcharge_lines
not_charged s t u lines h =
    let basis : ltb_ℤ (pos 0) s.consumables_basis ≡ false = ground (arith, h) in
    let fee : ltb_ℤ (pos 0) s.invoice_fee_minor ≡ false = ground (arith, h) in rw (basis, fee) refl

preview-shown :
    (s : Surcharges) (t u : Text) (lines : List InvoiceLine)
    → lines ≢ []
    → preview s t u lines ≡ map shown (surcharge_lines s t u lines true)
unfolding preview
preview-shown s t u [] h = absurd (h refl)
preview-shown s t u (l ∷ lines) h = elim (Bool-cases (charged s)) [
  | inl e ↦ rw e refl
  | inr e ↦ rw (e, not_charged s t u (l ∷ lines) e) refl
]

compute_same :
    (xs ys : List Line) → add_lines no_sums xs ≡ add_lines no_sums ys → compute xs ≡ compute ys
unfolding compute
compute_same xs ys h = rw h

totals_with-shown :
    (order : List OrderLine) (charges : List InvoiceLine)
    → All IsCharge charges
    → totals_with order (map shown charges)
      ≡ compute (to_money_lines (chargeable_lines order ++ charges))
unfolding totals_with
totals_with-shown order charges h =
    let lines = chargeable_lines order in
    compute_same (map job_line order ++ map extra_line (map shown charges))
      (to_money_lines (lines ++ charges))
      (cc (
        extra_lines-money charges h,
        to_money_lines-append lines charges,
        add_lines-append no_sums (map job_line order) (to_money_lines charges),
        add_lines-append no_sums (to_money_lines lines) (to_money_lines charges),
        add_lines-chargeable no_sums order,
      ))

-- The totals on a job's page are those that the invoice is issued with, and the bands that the
-- invoice prints, from the amounts on its lines, are the bands of those totals; when something is
-- charged, and no surcharge comes to more than ten thousand billion minor units.
pub totals_with-preview :
    (s : Surcharges) (t u : Text) (order : List OrderLine)
    → chargeable_lines order ≢ []
    → All IsSmall (surcharge_lines s t u (chargeable_lines order) true)
    → let charges = surcharge_lines s t u (chargeable_lines order) true in
      let totals = compute (to_money_lines (chargeable_lines order ++ charges)) in
      (totals_with order (preview s t u (chargeable_lines order)) ≡ totals)
      × (bands_from (chargeable_lines order ++ charges) ≡ totals.bands)
totals_with-preview s t u order some_line small =
    let lines = chargeable_lines order in
    let charges = surcharge_lines s t u lines true in
    let are_charges = surcharge_lines-IsCharge s t u lines true in
    (
      ap (λ extra. totals_with order extra) (preview-shown s t u lines some_line)
          ∙ totals_with-shown order charges are_charges,
      bands_from-compute (lines ++ charges) (
          All-append IsPriced lines charges (chargeable_lines-IsPriced order)
            (charge-IsPriced charges are_charges small)),
    )
