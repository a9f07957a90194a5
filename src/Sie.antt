-- ===== src/Sie.antt =====
-- internal/sie: the file that a bookkeeping program reads. cp437.go is `cp437`, `encode` and `quote`;
-- sie.go is the rest. A day is what `Format("20060102")` reads of a time.
mod Examples
pub mod Field
pub mod Shown
pub mod FileLines
use free_sms.Common.{
  ℕ, ◌+◌, ◌/◌, Bool, true, false, not, ◌||◌, ◌&&◌, List, [], ◌∷◌, ◌++◌, map, ltb, ◌==◌,
  if◌then◌else◌,
}
use free_sms.Common.Int.{ℤ, pos, negsuc, add64, neg64, quot64, rem64, ltb_ℤ, leb_ℤ, eqb_ℤ}
use free_sms.Common.Text.{Text, codes, is_empty}
use free_sms.Money.Totals.{sort_rates}
use free_sms.PayRef.CheckDigit.{format_int}

pub record CodePoint : Type 0 where
  pub rune : ℕ
  pub byte : ℕ

abbrev row : ℕ → ℕ → CodePoint
row r b = record { rune = r; byte = b }

abbrev pub cp437 : List CodePoint
cp437 =
    row 0xc7 128
    ∷ row 0xfc 129
    ∷ row 0xe9 130
    ∷ row 0xe2 131
    ∷ row 0xe4 132
    ∷ row 0xe0 133
    ∷ row 0xe5 134
    ∷ row 0xe7 135
    ∷ row 0xea 136
    ∷ row 0xeb 137
    ∷ row 0xe8 138
    ∷ row 0xef 139
    ∷ row 0xee 140
    ∷ row 0xec 141
    ∷ row 0xc4 142
    ∷ row 0xc5 143
    ∷ row 0xc9 144
    ∷ row 0xe6 145
    ∷ row 0xc6 146
    ∷ row 0xf4 147
    ∷ row 0xf6 148
    ∷ row 0xf2 149
    ∷ row 0xfb 150
    ∷ row 0xf9 151
    ∷ row 0xff 152
    ∷ row 0xd6 153
    ∷ row 0xdc 154
    ∷ row 0xa2 155
    ∷ row 0xa3 156
    ∷ row 0xa5 157
    ∷ row 0x192 159
    ∷ row 0xe1 160
    ∷ row 0xed 161
    ∷ row 0xf3 162
    ∷ row 0xfa 163
    ∷ row 0xf1 164
    ∷ row 0xd1 165
    ∷ row 0xbf 168
    ∷ row 0xbd 171
    ∷ row 0xbc 172
    ∷ row 0xa1 173
    ∷ row 0xab 174
    ∷ row 0xbb 175
    ∷ row 0xdf 225
    ∷ row 0xb5 230
    ∷ row 0xb1 241
    ∷ row 0xf7 246
    ∷ row 0xb0 248
    ∷ row 0xb7 250
    ∷ row 0xb2 253
    ∷ []

-- The table's byte for a character above ASCII, or a question mark.
unfoldable pub lookup_byte : ℕ → List CodePoint → ℕ
lookup_byte r [] = b'?'
lookup_byte r (p ∷ ps) = if p.rune == r then p.byte else lookup_byte r ps

unfoldable pub encode_char : ℕ → ℕ
unfolding lookup_byte
encode_char r = if ltb r 128 then r else lookup_byte r cp437

abbrev pub encode : Text → List ℕ
encode s = map encode_char s

-- The mapping of `quote`: no control characters and no backslashes.
unfoldable pub plain_char : ℕ → ℕ
plain_char r = if ltb r 32 || (r == 127) then b' ' else if r == b'\\' then b'/' else r

unfoldable pub escape : Text → Text
escape [] = []
escape (c ∷ s) = if c == b'"' then b'\\' ∷ b'"' ∷ escape s else c ∷ escape s

unfoldable pub quote : Text → Text
unfolding plain_char escape
quote s = b'"' ∷ (escape (map plain_char s) ++ (b'"' ∷ []))

-- `%d`, and `%02d`.
unfoldable pub show_int : ℤ → Text
unfolding format_int
show_int (pos n) = format_int n
show_int (negsuc n) = b'-' ∷ format_int (n + 1)

unfoldable pub show_two : ℤ → Text
unfolding show_int
show_two n = if leb_ℤ (pos 0) n && ltb_ℤ n (pos 10) then b'0' ∷ show_int n else show_int n

unfoldable pub sie_amount : ℤ → Text
unfolding show_two
sie_amount minor =
    let write = λ (m : ℤ). show_int (quot64 m (pos 100)) ++ (b'.' ∷ show_two (rem64 m (pos 100))) in
    if ltb_ℤ minor (pos 0) then b'-' ∷ write (neg64 minor) else write minor

pub record Day : Type 0 where
  pub year : ℕ
  pub month : ℕ
  pub day : ℕ

-- A number of a day, with zeros up to two places, and a year up to four.
abbrev pub wide : ℕ → Text → Text
wide n s = if ltb n 10 then b'0' ∷ s else s

unfoldable pub format_day : Day → Text
unfolding format_int
format_day d =
    let y = format_int d.year in
    (if ltb d.year 10
      then codes "000"
      else if ltb d.year 100
      then codes "00"
      else if ltb d.year 1000
      then codes "0"
      else [])
    ++ (y ++ (wide d.month (format_int d.month) ++ wide d.day (format_int d.day)))

-- `Entry` and `Verification`.
pub record SieEntry : Type 0 where
  pub account : ℤ
  pub minor : ℤ

pub record Verification : Type 0 where
  pub series : Text
  pub number : Text
  pub date : Day
  pub text : Text
  pub entries : List SieEntry

unfoldable pub sum_entries : ℤ → List SieEntry → ℤ
sum_entries sum [] = sum
sum_entries sum (e ∷ es) = sum_entries (add64 sum e.minor) es

unfoldable pub balanced : Verification → Bool
unfolding sum_entries
balanced v = eqb_ℤ (sum_entries (pos 0) v.entries) (pos 0)

pub record AccountName : Type 0 where
  pub number : ℤ
  pub name : Text

pub record SieFile : Type 0 where
  pub program : Text
  pub program_ver : Text
  pub generated : Day
  pub company_name : Text
  pub org_number : Text
  pub year_from : Day
  pub year_to : Day
  pub accounts : List AccountName
  pub verifications : List Verification

pub data SieResult : Type 0 where
  written : List ℕ → SieResult
  unbalanced : Text → Text → SieResult

abbrev pub account_numbers : List AccountName → List ℤ
account_numbers [] = []
account_numbers (a ∷ names) = a.number ∷ account_numbers names

unfoldable pub account_name : List AccountName → ℤ → Text
account_name [] n = []
account_name (a ∷ names) n = if eqb_ℤ a.number n then a.name else account_name names n

-- The same sort as that of the rates of an invoice.
unfoldable pub sorted_accounts : List AccountName → List ℤ
unfolding sort_rates
sorted_accounts names = sort_rates [] (account_numbers names)

-- The texts that are handed to the closure `line`.
unfoldable pub account_lines : List AccountName → List ℤ → List Text
unfolding account_name quote show_int
account_lines names [] = []
account_lines names (n ∷ ns) =
    (codes "#KONTO " ++ (show_int n ++ (b' ' ∷ quote (account_name names n))))
    ∷ account_lines names ns

unfoldable pub entry_lines : List SieEntry → List Text
unfolding sie_amount show_int
entry_lines [] = []
entry_lines (e ∷ es) =
    (codes "#TRANS " ++ (show_int e.account ++ (codes " {} " ++ sie_amount e.minor)))
    ∷ entry_lines es

unfoldable pub verification_lines : List Verification → List Text
unfolding entry_lines quote format_day
verification_lines [] = []
verification_lines (v ∷ vs) =
    (codes "#VER "
      ++ (quote v.series
          ++ (b' ' ∷ (quote v.number ++ (b' ' ∷ (format_day v.date ++ (b' ' ∷ quote v.text)))))))
    ∷ codes "{"
    ∷ (entry_lines v.entries ++ (codes "}" ∷ verification_lines vs))

unfoldable pub org_lines : Text → List Text
unfolding quote
org_lines org = if is_empty org then [] else (codes "#ORGNR " ++ quote org) ∷ []

unfoldable pub file_lines : SieFile → List Text
unfolding account_lines verification_lines org_lines sorted_accounts quote format_day
file_lines f =
    codes "#FLAGGA 0"
    ∷ (codes "#PROGRAM " ++ (quote f.program ++ (b' ' ∷ quote f.program_ver)))
    ∷ codes "#FORMAT PC8"
    ∷ codes "#SIETYP 4"
    ∷ (codes "#GEN " ++ format_day f.generated)
    ∷ (codes "#FNAMN " ++ quote f.company_name)
    ∷ (org_lines f.org_number
        ++ ((codes "#RAR 0 " ++ (format_day f.year_from ++ (b' ' ∷ format_day f.year_to)))
            ∷ (account_lines f.accounts (sorted_accounts f.accounts)
                ++ verification_lines f.verifications)))

-- Each line encoded, with a carriage return and a line feed behind it.
unfoldable pub render : List Text → List ℕ
unfolding encode_char
render [] = []
render (l ∷ ls) = encode l ++ (13 ∷ 10 ∷ render ls)

unfoldable pub write_checked : SieFile → List Verification → SieResult
unfolding balanced file_lines render
write_checked f [] = written (render (file_lines f))
write_checked f (v ∷ vs) =
    let rest = write_checked f vs in if balanced v then rest else unbalanced v.series v.number

unfoldable pub write : SieFile → SieResult
unfolding write_checked
write f = write_checked f f.verifications
