-- ===== src/Invoice.antt =====
-- The lines of a workshop's invoice, of internal/workshop: what a job's lines charge, what the
-- surcharges add, and the bands that the document prints.
mod Examples
pub mod Surcharges
pub mod Priced
pub mod Issued
pub mod Ceiling
pub mod Consumables
use free_sms.Common.{ℕ, Bool, true, false, not, ◌&&◌, ◌||◌, List, [], ◌∷◌, ◌++◌, map, if◌then◌else◌}
use free_sms.Common.Int.{ℤ, pos, add64, sub64}
use free_sms.Common.Text.{Text, codes, text_eq}
use free_sms.Money.Rounding.{line_net, vat}
use free_sms.Money.Totals.{
  Line, VatBand, Totals, compute, has_band, band_of, add_to_band, sort_rates,
}

-- A line of a work order, as far as an invoice reads it. A time that may be missing is whether it
-- is there.
pub record OrderLine : Type 0 where
  pub kind : Text
  pub description : Text
  pub quantity_milli : ℤ
  pub unit_price_minor : ℤ
  pub vat_rate_basis : ℤ
  pub cost_bearer : Text
  pub approved : Bool
  pub declined : Bool
  pub withdrawn : Bool
  pub from_answer : Bool

unfoldable pub billable : OrderLine → Bool
billable l =
    text_eq l.cost_bearer (codes "customer")
    && not l.declined
    && not l.withdrawn
    && (l.approved || not l.from_answer)

pub record InvoiceLine : Type 0 where
  pub kind : Text
  pub description : Text
  pub quantity_milli : ℤ
  pub unit_price_minor : ℤ
  pub vat_rate_basis : ℤ
  pub net_minor : ℤ
  pub vat_minor : ℤ
  pub is_margin_scheme : Bool

-- The row of a line, with its amounts.
unfoldable pub charged_line : OrderLine → InvoiceLine
charged_line l =
    let net = line_net l.quantity_milli l.unit_price_minor in
    record {
      kind = l.kind;
      description = l.description;
      quantity_milli = l.quantity_milli;
      unit_price_minor = l.unit_price_minor;
      vat_rate_basis = l.vat_rate_basis;
      net_minor = net;
      vat_minor = vat net l.vat_rate_basis;
      is_margin_scheme = false;
    }

-- The condition of the query, on the columns: the customer pays, the line was neither declined nor
-- withdrawn, and it is agreed or not priced from an answer.
unfoldable pub selected : OrderLine → Bool
selected l =
    text_eq l.cost_bearer (codes "customer")
    && (not l.declined && (not l.withdrawn && (l.approved || not l.from_answer)))

unfoldable pub chargeable_lines : List OrderLine → List InvoiceLine
chargeable_lines [] = []
chargeable_lines (l ∷ ls) =
    if selected l then charged_line l ∷ chargeable_lines ls else chargeable_lines ls

unfoldable pub to_money_lines : List InvoiceLine → List Line
to_money_lines [] = []
to_money_lines (l ∷ ls) =
    record {
      quantity_milli = l.quantity_milli;
      unit_price_minor = l.unit_price_minor;
      vat_rate_basis = l.vat_rate_basis;
      charged_to_customer = true;
    }
    ∷ to_money_lines ls

-- The map `byRate` and the rates in the order they are met.
pub record Rated : Type 0 where
  pub by_rate : List VatBand
  pub rates : List ℤ

unfoldable pub group_line : Rated → InvoiceLine → Rated
group_line s l = if l.is_margin_scheme then s else record {
  by_rate = add_to_band l.vat_rate_basis l.net_minor l.vat_minor s.by_rate;
  rates =
      if has_band l.vat_rate_basis s.by_rate then s.rates else s.rates ++ (l.vat_rate_basis ∷ []);
}

unfoldable pub group_lines : Rated → List InvoiceLine → Rated
group_lines s [] = s
group_lines s (l ∷ ls) = group_lines (group_line s l) ls

-- The rates are distinct, so that there is one order that `sort.Ints` can give.
unfoldable pub bands_from : List InvoiceLine → List VatBand
bands_from lines =
    let s = group_lines (record { by_rate = []; rates = [] }) lines in
    map (band_of s.by_rate) (sort_rates [] s.rates)

-- `TotalsWith`, with the surcharges that a page shows as lines.
unfoldable pub job_line : OrderLine → Line
job_line l = record {
  quantity_milli = l.quantity_milli;
  unit_price_minor = l.unit_price_minor;
  vat_rate_basis = l.vat_rate_basis;
  charged_to_customer = billable l;
}

-- A surcharge on the page.
pub record SurchargeLine : Type 0 where
  pub kind : Text
  pub description : Text
  pub net_minor : ℤ
  pub vat_rate_basis : ℤ

unfoldable pub extra_line : SurchargeLine → Line
extra_line l = record {
  quantity_milli = pos 1000;
  unit_price_minor = l.net_minor;
  vat_rate_basis = l.vat_rate_basis;
  charged_to_customer = true;
}

unfoldable pub totals_with : List OrderLine → List SurchargeLine → Totals
totals_with lines extra = compute (map job_line lines ++ map extra_line extra)
