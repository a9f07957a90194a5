-- ===== src/Money/Totals/Examples.antt =====
-- An invoice of internal/money/money.go at concrete lines.
use free_sms.Common.{◌≡◌, refl, true, false, List, [], ◌∷◌}
use free_sms.Common.Int.{pos, add64, mul64, quot64, wrap, ◌+ℤ◌, ◌*ℤ◌}
use free_sms.Money.Rounding.{line_net, vat, div_round}
use free_sms.Money.Totals.{
  Line, compute, add_lines, add_line, add_to_band, has_band, band_of, sort_rates, bubble,
}
use free_sms.Money.Totals.Invoice.{IsInvoice, compute-IsInvoice}

-- Work at 25 per cent, a book at 6, a part at 25, and a line that the customer is not charged for.
abbrev four_lines : List Line
four_lines =
    record {
      quantity_milli = pos 1500;
      unit_price_minor = pos 89500;
      vat_rate_basis = pos 2500;
      charged_to_customer = true;
    }
    ∷ record {
      quantity_milli = pos 1000;
      unit_price_minor = pos 10050;
      vat_rate_basis = pos 600;
      charged_to_customer = true;
    }
    ∷ record {
      quantity_milli = pos 1000;
      unit_price_minor = pos 3333;
      vat_rate_basis = pos 2500;
      charged_to_customer = true;
    }
    ∷ record {
      quantity_milli = pos 9000;
      unit_price_minor = pos 99999;
      vat_rate_basis = pos 0;
      charged_to_customer = false;
    }
    ∷ []

four_lines_totals : compute four_lines ≡ record {
  net_minor = pos 147633;
  vat_minor = pos 34999;
  gross_minor = pos 182632;
  bands =
      record { rate_basis_points = pos 600; net_minor = pos 10050; vat_minor = pos 603 }
      ∷ record { rate_basis_points = pos 2500; net_minor = pos 137583; vat_minor = pos 34396 }
      ∷ [];
}
unfolding compute add_lines add_line add_to_band has_band band_of sort_rates bubble line_net vat
    div_round add64 mul64 quot64 wrap ◌+ℤ◌ ◌*ℤ◌
four_lines_totals = refl

compute-IsInvoice_example : IsInvoice four_lines (compute four_lines)
compute-IsInvoice_example = compute-IsInvoice four_lines
