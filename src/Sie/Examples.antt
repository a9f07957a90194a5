-- ===== src/Sie/Examples.antt =====
-- The writer of internal/sie at concrete files.
use free_sms.Common.{◌≡◌, refl, true, [], ◌∷◌, ◌++◌, some, map, All}
use free_sms.Common.Int.{pos, negsuc, quot64, rem64, neg64, add64, wrap, ◌+ℤ◌}
use free_sms.Common.Text.{codes}
use free_sms.Money.Totals.{bubble}
use free_sms.Money.Format.{fill}
use free_sms.Sie.{
  Day, Verification, SieFile, written, unbalanced, write, balanced, sorted_accounts, encode,
  encode_char, quote, sie_amount, file_lines, show_two, render,
}
use free_sms.Sie.Field.{read_field, plain, read_field-quote}
use free_sms.Sie.FileLines.{read_lines, write-lines}

abbrev first_of_may : Day
first_of_may = record { year = 2026; month = 5; day = 1 }

abbrev sale : Verification
sale = record {
  series = codes "A";
  number = codes "1";
  date = first_of_may;
  text = codes "Faktura \"Åsa\"\\";
  entries =
      record { account = pos 1510; minor = pos 12500 }
      ∷ record { account = pos 3010; minor = negsuc 9999 }
      ∷ record { account = pos 2611; minor = negsuc 2499 }
      ∷ [];
}

abbrev may : SieFile
may = record {
  program = codes "FreeSMS";
  program_ver = codes "1";
  generated = first_of_may;
  company_name = codes "Åkes Bil";
  org_number = [];
  year_from = record { year = 2026; month = 1; day = 1 };
  year_to = record { year = 2026; month = 12; day = 31 };
  accounts =
      record { number = pos 3010; name = codes "Försäljning" }
      ∷ record { number = pos 1510; name = codes "Kundfordringar" }
      ∷ [];
  verifications = sale ∷ [];
}

negative_amount : sie_amount (negsuc 9904) ≡ codes "-99.05"
unfolding sie_amount show_two fill quot64 rem64 neg64 wrap
negative_amount = refl

accounts_in_order : sorted_accounts may.accounts ≡ pos 1510 ∷ pos 3010 ∷ []
unfolding sorted_accounts bubble
accounts_in_order = refl

refused_file :
    write (record may {
      verifications =
          record sale { entries = [] }
          ∷ record sale { entries = record { account = pos 1510; minor = pos 1 } ∷ [] }
          ∷ [];
    })
    ≡ unbalanced (codes "A") (codes "1")
unfolding write add64 wrap ◌+ℤ◌
refused_file = refl

in_code_page : encode (quote (codes "Å\\\"")) ≡ b'"' ∷ 143 ∷ b'/' ∷ b'\\' ∷ b'"' ∷ b'"' ∷ []
unfolding quote encode_char
in_code_page = refl

may_is_written : write may ≡ written (render (file_lines may))
unfolding write add64 wrap ◌+ℤ◌
may_is_written = refl

write-lines_example :
    (read_lines (render (file_lines may)) ≡ map encode (file_lines may))
    × All (λ v. balanced v ≡ true) may.verifications
write-lines_example = write-lines may (render (file_lines may)) may_is_written

read_field-quote_example :
    read_field (encode (quote (codes "Anna\nAndersson \\") ++ codes " 20260501"))
    ≡ some (encode (plain (codes "Anna\nAndersson \\")), encode (codes " 20260501"))
read_field-quote_example = read_field-quote (codes "Anna\nAndersson \\") (codes " 20260501")
