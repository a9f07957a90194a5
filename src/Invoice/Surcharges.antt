-- ===== src/Invoice/Surcharges.antt =====
-- internal/workshop/surcharges.go: the surcharges as lines.
use free_sms.Common.{
  ℕ, zero, suc, Bool, true, false, not, ◌&&◌, ◌||◌, List, [], ◌∷◌, ◌++◌, map, reverse, Option, none,
  some, if◌then◌else◌,
}
use free_sms.Common.Int.{ℤ, pos, add64, sub64, ltb_ℤ, eqb_ℤ}
use free_sms.Common.Text.{Text, codes, text_eq}
use free_sms.Money.Rounding.{vat, share, scale}
use free_sms.Money.Totals.{sort_rates}
use free_sms.Invoice.{InvoiceLine, SurchargeLine}

pub record Surcharges : Type 0 where
  pub consumables_basis : ℤ
  pub consumables_cap_minor : Option ℤ
  pub invoice_fee_minor : ℤ

pub data Saved : Type 0 where
  forbidden invalid_share below_nothing saved : Saved

abbrev below_zero : Option ℤ → Bool
below_zero none = false
below_zero (some c) = ltb_ℤ c (pos 0)

-- What `SaveSurcharges` answers somebody who runs the shop, or does not.
unfoldable pub save_surcharges : Bool → Surcharges → Saved
save_surcharges runs_the_shop s =
    if not runs_the_shop
    then forbidden
    else if ltb_ℤ s.consumables_basis (pos 0) || ltb_ℤ (pos 2500) s.consumables_basis
    then invalid_share
    else if below_zero s.consumables_cap_minor || ltb_ℤ s.invoice_fee_minor (pos 0)
    then below_nothing
    else saved

unfoldable pub charged : Surcharges → Bool
charged s = ltb_ℤ (pos 0) s.consumables_basis || ltb_ℤ (pos 0) s.invoice_fee_minor

-- The map `labour`, one entry a rate.
pub record Labour : Type 0 where
  pub rate : ℤ
  pub net : ℤ

unfoldable pub add_labour : ℤ → ℤ → List Labour → List Labour
add_labour rate net [] = record { rate = rate; net = add64 (pos 0) net } ∷ []
add_labour rate net (e ∷ es) =
    if eqb_ℤ e.rate rate
    then record e { net = add64 e.net net } ∷ es
    else e ∷ add_labour rate net es

unfoldable pub labour_of : List Labour → List InvoiceLine → List Labour
labour_of es [] = es
labour_of es (l ∷ ls) =
    labour_of
      (if text_eq l.kind (codes "labour") then add_labour l.vat_rate_basis l.net_minor es else es)
      ls

-- `labour[r]`.
unfoldable pub labour_at : ℤ → List Labour → ℤ
labour_at rate [] = pos 0
labour_at rate (e ∷ es) = if eqb_ℤ e.rate rate then e.net else labour_at rate es

-- The rates are distinct, so that there is one descending order.
unfoldable pub descending : List Labour → List ℤ
descending es = reverse (sort_rates [] (map (λ e. e.rate) es))

-- The variables of the loop that cuts the shares.
pub record Cut : Type 0 where
  pub scaled : List ℤ
  pub cut_off : ℤ
  pub largest : ℤ
  pub big : ℕ

unfoldable pub cut_loop : ℤ → ℤ → ℕ → Cut → List ℤ → Cut
cut_loop cap total i s [] = s
cut_loop cap total i s (share ∷ shares) =
    let scaled = scale share cap total in
    cut_loop cap total (suc i)
      (record {
        scaled = s.scaled ++ (scaled ∷ []);
        cut_off = add64 s.cut_off scaled;
        largest = if ltb_ℤ s.largest share then share else s.largest;
        big = if ltb_ℤ s.largest share then i else s.big;
      })
      shares

-- `shares[i] += d`; an index out of range, where Go would stop, leaves the list.
unfoldable pub add_at : ℕ → ℤ → List ℤ → List ℤ
add_at i d [] = []
add_at zero d (s ∷ ss) = add64 s d ∷ ss
add_at (suc i) d (s ∷ ss) = s ∷ add_at i d ss

unfoldable pub cut_down : ℤ → ℤ → List ℤ → List ℤ
cut_down cap total shares =
    let c =
      cut_loop cap total 0 (record { scaled = []; cut_off = pos 0; largest = pos 0; big = 0 })
        shares in
    add_at c.big (sub64 cap c.cut_off) c.scaled

-- The running sum of the shares.
unfoldable pub total_of : ℤ → List ℤ → ℤ
total_of t [] = t
total_of t (s ∷ ss) = total_of (add64 t s) ss

unfoldable pub capped : Option ℤ → ℤ → List ℤ → List ℤ
capped none total shares = shares
capped (some cap) total shares = if ltb_ℤ cap total then cut_down cap total shares else shares

unfoldable pub charge_line : Text → Text → ℤ → ℤ → InvoiceLine
charge_line kind text net rate = record {
  kind = kind;
  description = text;
  quantity_milli = pos 1000;
  unit_price_minor = net;
  vat_rate_basis = rate;
  net_minor = net;
  vat_minor = vat net rate;
  is_margin_scheme = false;
}

-- The last loop: a line for every share that is not nothing.
unfoldable pub share_lines : Text → List ℤ → List ℤ → List InvoiceLine
share_lines text [] shares = []
share_lines text (r ∷ rates) [] = []
share_lines text (r ∷ rates) (s ∷ shares) =
    if eqb_ℤ s (pos 0)
    then share_lines text rates shares
    else charge_line (codes "consumables") text s r ∷ share_lines text rates shares

-- The shares of the labour at each rate.
unfoldable pub shares_of : ℤ → List Labour → List ℤ
shares_of basis es = map (λ r. share (labour_at r es) basis) (descending es)

unfoldable pub consumables_lines : Surcharges → Text → List InvoiceLine → List InvoiceLine
consumables_lines s text lines =
    let es = labour_of [] lines in
    let shares = shares_of s.consumables_basis es in
    share_lines text (descending es)
      (capped s.consumables_cap_minor (total_of (pos 0) shares) shares)

-- The texts, in the shop's language, are those of the catalogue: that of the consumables, with
-- their percentage, and that of the fee.
unfoldable pub surcharge_lines :
    Surcharges → Text → Text → List InvoiceLine → Bool → List InvoiceLine
surcharge_lines s consumables_text fee_text lines original =
    (if ltb_ℤ (pos 0) s.consumables_basis then consumables_lines s consumables_text lines else [])
    ++ (if original && ltb_ℤ (pos 0) s.invoice_fee_minor
        then charge_line (codes "fee") fee_text s.invoice_fee_minor (pos 2500) ∷ []
        else [])

-- A line as the page shows it.
unfoldable pub shown : InvoiceLine → SurchargeLine
shown l = record {
  kind = l.kind;
  description = l.description;
  net_minor = l.net_minor;
  vat_rate_basis = l.vat_rate_basis;
}

-- What `PreviewSurcharges` adds to a job, for somebody who may see it.
unfoldable pub preview : Surcharges → Text → Text → List InvoiceLine → List SurchargeLine
preview s consumables_text fee_text [] = []
preview s consumables_text fee_text (l ∷ lines) =
    if not (charged s)
    then []
    else map shown (surcharge_lines s consumables_text fee_text (l ∷ lines) true)
