-- ===== src/Money/Totals/Invoice.antt =====
-- What `Compute` returns, of internal/money/money.go: the bands together are the totals.
use free_sms.Common.{◌≡◌, refl, ◌∙◌, false, List, [], ◌∷◌, map, arith, All}
use free_sms.Common.Int.{ℤ, pos, add64, add64_zero}
use free_sms.Money.Totals.{
  Line, VatBand, Totals, has_band, band_of, add_lines, no_sums, sort_rates, compute,
}
use free_sms.Money.Totals.Sort.{
  eqb_ℤ→eq, sum_over, has, IsAscending, sum_over-Fits, sum_over-sort_rates, has-sort_rates,
  sort_rates-IsAscending,
}
use free_sms.Money.Totals.Bands.{
  net_of, tax_of, uses, sum_from, some_line, add_lines-IsSummed, IsSummed, band_of-add_lines,
  has_band-add_lines,
}

abbrev pub net_at : ℤ → List Line → ℤ
net_at rate = sum_from net_of (uses rate) (pos 0)

abbrev pub tax_at : ℤ → List Line → ℤ
tax_at rate = sum_from tax_of (uses rate) (pos 0)

abbrev pub rates_of : List VatBand → List ℤ
rates_of [] = []
rates_of (b ∷ bs) = b.rate_basis_points ∷ rates_of bs

abbrev pub sum_bands : (VatBand → ℤ) → List VatBand → ℤ
sum_bands f [] = pos 0
sum_bands f (b ∷ bs) = add64 (f b) (sum_bands f bs)

-- What the bottom of an invoice over `lines` is.
pub record IsInvoice (lines : List Line) (t : Totals) : Type 0 where
  pub gross : t.gross_minor ≡ add64 t.net_minor t.vat_minor
  pub nets : sum_bands (λ b. b.net_minor) t.bands ≡ t.net_minor
  pub taxes : sum_bands (λ b. b.vat_minor) t.bands ≡ t.vat_minor
  pub ascending : IsAscending (rates_of t.bands)
  pub in_use : (r : ℤ) → has r (rates_of t.bands) ≡ some_line (uses r) lines
  pub exact :
      All
        (λ b.
          (b.net_minor ≡ net_at b.rate_basis_points lines)
          × (b.vat_minor ≡ tax_at b.rate_basis_points lines))
        t.bands

no_sums-IsSummed : IsSummed no_sums
unfolding has_band
no_sums-IsSummed = record { keys = λ r. refl; fresh = tt; nets = refl; taxes = refl }

band_rate : (bs : List VatBand) (r : ℤ) → (band_of bs r).rate_basis_points ≡ r
unfolding band_of
band_rate [] r = refl
band_rate (b ∷ bs) r = ground (arith, eqb_ℤ→eq b.rate_basis_points r, band_rate bs r)

rates_of-map : (bs : List VatBand) (rs : List ℤ) → rates_of (map (band_of bs) rs) ≡ rs
rates_of-map bs [] = refl
rates_of-map bs (r ∷ rs) = rw (rates_of-map bs rs, band_rate bs r)

sum_bands-map :
    (f : VatBand → ℤ) (bs : List VatBand) (rs : List ℤ)
    → sum_bands f (map (band_of bs) rs) ≡ sum_over (λ r. f (band_of bs r)) rs
sum_bands-map f bs [] = refl
sum_bands-map f bs (r ∷ rs) = rw (sum_bands-map f bs rs)

All-bands :
    (P : VatBand → Type 0) (bs : List VatBand)
    → ((r : ℤ) → P (band_of bs r))
    → (rs : List ℤ) → All P (map (band_of bs) rs)
All-bands P bs h [] = tt
All-bands P bs h (r ∷ rs) = (h r, All-bands P bs h rs)

sum_sorted :
    (f : VatBand → ℤ) (bs : List VatBand) (rs : List ℤ)
    → sum_bands f (map (band_of bs) (sort_rates [] rs)) ≡ sum_over (λ r. f (band_of bs r)) rs
sum_sorted f bs rs =
    sum_bands-map f bs (sort_rates [] rs)
    ∙ sum_over-sort_rates (λ r. f (band_of bs r)) [] rs
    ∙ add64_zero _ (sum_over-Fits (λ r. f (band_of bs r)) rs)

band_exact :
    (lines : List Line) (r : ℤ)
    → let b = band_of (add_lines no_sums lines).by_rate r in
      (b.net_minor ≡ net_at b.rate_basis_points lines)
      × (b.vat_minor ≡ tax_at b.rate_basis_points lines)
unfolding band_of
band_exact lines r = let (at, net, tax) = band_of-add_lines r lines no_sums in rw (at) (net, tax)

fresh_apart : (rs : List ℤ) → All (λ r. has r [] ≡ false) rs
fresh_apart [] = tt
fresh_apart (r ∷ rs) = (refl, fresh_apart rs)

-- Whatever the amounts, the totals are those of the bands; the bands stand in ascending order of
-- their rates, are those of the rates that a charged line has, and each is the sum of the rounded
-- amounts of that rate's charged lines.
pub compute-IsInvoice : (lines : List Line) → IsInvoice lines (compute lines)
unfolding compute has_band
compute-IsInvoice lines =
    let s = add_lines no_sums lines in
    let v = add_lines-IsSummed lines no_sums no_sums-IsSummed in
    record {
      gross = refl;
      nets = sum_sorted (λ b. b.net_minor) s.by_rate s.rates ∙ v.nets;
      taxes = sum_sorted (λ b. b.vat_minor) s.by_rate s.rates ∙ v.taxes;
      ascending =
          rw (rates_of-map s.by_rate (sort_rates [] s.rates))
            (sort_rates-IsAscending [] s.rates tt v.fresh (fresh_apart s.rates));
      in_use = λ r.
          rw (rates_of-map s.by_rate (sort_rates [] s.rates), has-sort_rates r [] s.rates, v.keys r)
            (has_band-add_lines r lines no_sums);
      exact = All-bands _ s.by_rate (band_exact lines) (sort_rates [] s.rates);
    }
