-- ===== src/Money/Totals.antt =====
-- `Compute` of internal/money/money.go: the bottom of an invoice.
mod Examples
pub mod Sort
pub mod Bands
pub mod Invoice
use free_sms.Common.{Bool, not, true, false, List, [], ◌∷◌, ◌++◌, map, reverse, if◌then◌else◌}
use free_sms.Common.Int.{ℤ, pos, add64, ltb_ℤ, eqb_ℤ}
use free_sms.Money.Rounding.{line_net, vat}

pub record Line : Type 0 where
  pub quantity_milli : ℤ
  pub unit_price_minor : ℤ
  pub vat_rate_basis : ℤ
  pub charged_to_customer : Bool

pub record VatBand : Type 0 where
  pub rate_basis_points : ℤ
  pub net_minor : ℤ
  pub vat_minor : ℤ

pub record Totals : Type 0 where
  pub net_minor : ℤ
  pub vat_minor : ℤ
  pub gross_minor : ℤ
  pub bands : List VatBand

-- The map `byRate`, as a list of bands with one for each key.
pub has_band : ℤ → List VatBand → Bool
has_band rate [] = false
has_band rate (b ∷ bs) = if eqb_ℤ b.rate_basis_points rate then true else has_band rate bs

-- `*byRate[rate]`; a rate that is not in the map is never looked up, and reads as an empty band.
pub band_of : List VatBand → ℤ → VatBand
band_of [] rate = record { rate_basis_points = rate; net_minor = pos 0; vat_minor = pos 0 }
band_of (b ∷ bs) rate = if eqb_ℤ b.rate_basis_points rate then b else band_of bs rate

-- The band of a rate, made empty if it was not seen, with the two amounts added.
pub add_to_band : ℤ → ℤ → ℤ → List VatBand → List VatBand
add_to_band rate net tax [] =
    record {
      rate_basis_points = rate;
      net_minor = add64 (pos 0) net;
      vat_minor = add64 (pos 0) tax;
    }
    ∷ []
add_to_band rate net tax (b ∷ bs) =
    if eqb_ℤ b.rate_basis_points rate
    then record b { net_minor = add64 b.net_minor net; vat_minor = add64 b.vat_minor tax } ∷ bs
    else b ∷ add_to_band rate net tax bs

-- The variables of the loop over the lines.
pub record Sums : Type 0 where
  pub net : ℤ
  pub tax : ℤ
  pub by_rate : List VatBand
  pub rates : List ℤ

unfoldable pub add_line : Sums → Line → Sums
add_line s l =
    let net = line_net l.quantity_milli l.unit_price_minor in
    let tax = vat net l.vat_rate_basis in
    if not l.charged_to_customer then s else record {
      net = add64 s.net net;
      tax = add64 s.tax tax;
      by_rate = add_to_band l.vat_rate_basis net tax s.by_rate;
      rates =
          if has_band l.vat_rate_basis s.by_rate
          then s.rates
          else s.rates ++ (l.vat_rate_basis ∷ []);
    }

unfoldable pub add_lines : Sums → List Line → Sums
add_lines s [] = s
add_lines s (l ∷ ls) = add_lines (add_line s l) ls

-- The inner loop of the sort: the rate at `i` moves left past the larger ones before it. What
-- stands before `i` is held from right to left.
unfoldable pub bubble : List ℤ → ℤ → List ℤ
bubble [] r = r ∷ []
bubble (q ∷ qs) r = if ltb_ℤ r q then q ∷ bubble qs r else r ∷ q ∷ qs

unfoldable pub sort_rates : List ℤ → List ℤ → List ℤ
sort_rates before [] = reverse before
sort_rates before (r ∷ rs) = sort_rates (bubble before r) rs

abbrev pub no_sums : Sums
no_sums = record { net = pos 0; tax = pos 0; by_rate = []; rates = [] }

unfoldable pub compute : List Line → Totals
compute lines =
    let s = add_lines no_sums lines in
    record {
      net_minor = s.net;
      vat_minor = s.tax;
      gross_minor = add64 s.net s.tax;
      bands = map (band_of s.by_rate) (sort_rates [] s.rates);
    }
