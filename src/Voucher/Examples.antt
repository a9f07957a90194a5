-- ===== src/Voucher/Examples.antt =====
-- The vouchers of internal/workshop/accounting.go at concrete documents.
use free_sms.Common.{◌≡◌, ◌↔◌, refl, true, false, List, [], ◌∷◌, ℕ, reverse, arith}
use free_sms.Common.Int.{ℤ, pos, negsuc, add64, neg64, wrap, ◌+ℤ◌}
use free_sms.Common.Text.{codes}
use free_sms.Money.Format.{fill}
use free_sms.PayRef.CheckDigit.{format_int}
use free_sms.Sie.{Day, Verification, SieFile, written, write, balanced}
use free_sms.Voucher.{
  Chart, Purpose, receivable, sales, sublet, consumables, invoice_fee, cash, bank, vat_25, vat_12,
  vat_6, rounding, VoucherDocument, ok, err, net_disagrees, invoice_verification, Payment,
  payment_verification, vouchers, all, post_sales, post_vat,
}
use free_sms.Voucher.Balance.{invoice_verification-balanced}
use free_sms.Voucher.Export.{AddsUp, vouchers-written}

abbrev bas : Chart
bas receivable = pos 1510
bas sales = pos 3010
bas sublet = pos 3011
bas consumables = pos 3590
bas invoice_fee = pos 3540
bas cash = pos 1910
bas bank = pos 1930
bas vat_25 = pos 2611
bas vat_12 = pos 2621
bas vat_6 = pos 2631
bas rounding = pos 3740

abbrev nets : Purpose → ℤ
nets sales = pos 10000
nets sublet = pos 5000
nets p = pos 0

abbrev today : Day
today = record { year = 2026; month = 5; day = 1 }

abbrev invoice : VoucherDocument
invoice = record {
  series = codes "A";
  number = pos 7;
  issued = today;
  customer = codes "Anna";
  credit = false;
  net_minor = pos 15000;
  vat_minor = pos 3100;
  gross_minor = pos 18100;
  net_by_purpose = nets;
  vat_by_rate =
      record { rate = pos 1200; minor = pos 600 }
      ∷ record { rate = pos 2500; minor = pos 2500 }
      ∷ [];
}

abbrev voucher : Verification
voucher = record {
  series = codes "A";
  number = codes "7";
  date = today;
  text = codes "Faktura A-7 Anna";
  entries =
      record { account = pos 1510; minor = pos 18100 }
      ∷ record { account = pos 3010; minor = negsuc 9999 }
      ∷ record { account = pos 3011; minor = negsuc 4999 }
      ∷ record { account = pos 2611; minor = negsuc 2499 }
      ∷ record { account = pos 2621; minor = negsuc 599 }
      ∷ [];
}

made : invoice_verification reverse bas invoice ≡ ok voucher
unfolding invoice_verification post_sales post_vat add64 neg64 wrap ◌+ℤ◌ format_int fill
made = refl

lines_that_disagree :
    invoice_verification reverse bas (record invoice { net_minor = pos 15001 }) ≡ err net_disagrees
unfolding invoice_verification post_sales post_vat add64 neg64 wrap ◌+ℤ◌
lines_that_disagree = refl

invoice_verification-balanced_example :
    (balanced voucher ≡ true) ↔ (pos 18100 ≡ add64 (pos 15000) (pos 3100))
invoice_verification-balanced_example =
    invoice_verification-balanced reverse bas invoice voucher (omega arith, omega arith) made

abbrev payment : Payment
payment = record {
  number = pos 1;
  paid_on = today;
  in_cash = true;
  amount = pos 18100;
  rounded = negsuc 49;
  reverses = false;
  invoice_ref = codes "A-7";
  customer = codes "Anna";
}

abbrev may : SieFile
may = record {
  program = codes "FreeSMS";
  program_ver = codes "1";
  generated = today;
  company_name = codes "Åkes Bil";
  org_number = [];
  year_from = today;
  year_to = today;
  accounts = [];
  verifications = voucher ∷ payment_verification bas payment ∷ [];
}

exported : vouchers reverse bas (invoice ∷ []) (payment ∷ []) ≡ all may.verifications
unfolding vouchers add64 neg64 wrap ◌+ℤ◌ fill
exported = refl

invoice-AddsUp : AddsUp invoice
unfolding add64 wrap ◌+ℤ◌
invoice-AddsUp = record { fits = (omega arith, omega arith); sum = refl }

vouchers-written_example : (b : List ℕ) × (write may ≡ written b)
vouchers-written_example =
    vouchers-written reverse bas (invoice ∷ []) (payment ∷ []) may (invoice-AddsUp, tt)
      ((omega arith, omega arith), tt) exported
