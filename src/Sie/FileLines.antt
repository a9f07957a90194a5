-- ===== src/Sie/FileLines.antt =====
-- A file that internal/sie/sie.go writes has the lines that it was told to write, and no others.
use free_sms.Common.{
  ℕ, ◌≡◌, refl, sym, ap, ◌∙◌, true, List, [], ◌∷◌, ◌++◌, map, ◌==◌, if◌then◌else◌, All, All-append,
  Bool-cases, inl, inr, arith,
}
use free_sms.Common.Int.{ℤ}
use free_sms.Common.Text.{Text, codes}
use free_sms.Sie.{
  cp437, encode_char, encode, quote, show_int, format_day, SieEntry, Verification, balanced,
  AccountName, SieFile, written, unbalanced, account_name, account_lines, entry_lines,
  verification_lines, org_lines, file_lines, render, write_checked, write, sorted_accounts,
}
use free_sms.Sie.Field.{lookup_byte-IsHigh, cp437_high}
use free_sms.Sie.Shown.{
  IsShown, show_int-IsShown, sie_amount-IsShown, format_day-IsShown, quote-IsShown, after-IsShown,
  field-IsShown,
}

-- A reader of lines: a line feed ends one, and a carriage return is passed over.
abbrev into_first : ℕ → List (List ℕ) → List (List ℕ)
into_first c [] = (c ∷ []) ∷ []
into_first c (l ∷ ls) = (c ∷ l) ∷ ls

unfoldable pub read_lines : List ℕ → List (List ℕ)
read_lines [] = []
read_lines (c ∷ s) =
    let rest = read_lines s in
    if c == 10 then [] ∷ rest else if c == 13 then rest else into_first c rest

encode_char-IsShown : (c : ℕ) → IsShown c → IsShown (encode_char c)
unfolding encode_char
encode_char-IsShown c h = ground (arith, lookup_byte-IsHigh c cp437 cp437_high)

read_lines-shown :
    (c : ℕ) (s : List ℕ) → IsShown c → read_lines (c ∷ s) ≡ into_first c (read_lines s)
unfolding read_lines
read_lines-shown c s h = ground arith

read_lines-end : (s : List ℕ) → read_lines (13 ∷ 10 ∷ s) ≡ [] ∷ read_lines s
unfolding read_lines
read_lines-end s = refl

read_lines-line :
    (l : Text) (s : List ℕ)
    → All IsShown l
    → read_lines (encode l ++ (13 ∷ 10 ∷ s)) ≡ encode l ∷ read_lines s
read_lines-line [] s h = read_lines-end s
read_lines-line (c ∷ l) s (h, hs) = rw (
  read_lines-shown (encode_char c) (encode l ++ (13 ∷ 10 ∷ s)) (encode_char-IsShown c h),
  read_lines-line l s hs,
)

read_lines-render : (ls : List Text) → All (All IsShown) ls → read_lines (render ls) ≡ map encode ls
unfolding render read_lines
read_lines-render [] h = refl
read_lines-render (l ∷ ls) (h, hs) = rw (read_lines-line l (render ls) h, read_lines-render ls hs)

account_lines-IsShown :
    (names : List AccountName) (ns : List ℤ) → All (All IsShown) (account_lines names ns)
unfolding account_lines
account_lines-IsShown names [] = tt
account_lines-IsShown names (n ∷ ns) = (
  after-IsShown (codes "#KONTO ") _ (omega arith) (
      after-IsShown (show_int n) _ (show_int-IsShown n)
        (omega arith, quote-IsShown (account_name names n))),
  account_lines-IsShown names ns,
)

entry_lines-IsShown : (es : List SieEntry) → All (All IsShown) (entry_lines es)
unfolding entry_lines
entry_lines-IsShown [] = tt
entry_lines-IsShown (e ∷ es) = (
  after-IsShown (codes "#TRANS ") _ (omega arith) (
      after-IsShown (show_int e.account) _ (show_int-IsShown e.account)
        (after-IsShown (codes " {} ") _ (omega arith) (sie_amount-IsShown e.minor))),
  entry_lines-IsShown es,
)

verification_lines-IsShown : (vs : List Verification) → All (All IsShown) (verification_lines vs)
unfolding verification_lines
verification_lines-IsShown [] = tt
verification_lines-IsShown (v ∷ vs) = (
  after-IsShown (codes "#VER ")
      (quote v.series
        ++ (b' ' ∷ (quote v.number ++ (b' ' ∷ (format_day v.date ++ (b' ' ∷ quote v.text))))))
      (omega arith)
      (field-IsShown (quote v.series)
        (quote v.number ++ (b' ' ∷ (format_day v.date ++ (b' ' ∷ quote v.text))))
        (quote-IsShown v.series)
        (field-IsShown (quote v.number) (format_day v.date ++ (b' ' ∷ quote v.text))
          (quote-IsShown v.number)
          (field-IsShown (format_day v.date) (quote v.text) (format_day-IsShown v.date)
            (quote-IsShown v.text)))),
  (
    (omega arith),
    All-append (All IsShown) (entry_lines v.entries) _ (entry_lines-IsShown v.entries)
        ((omega arith), verification_lines-IsShown vs),
  ),
)

org_lines-IsShown : (org : Text) → All (All IsShown) (org_lines org)
unfolding org_lines
org_lines-IsShown [] = tt
org_lines-IsShown (c ∷ s) =
    (after-IsShown (codes "#ORGNR ") (quote (c ∷ s)) (omega arith) (quote-IsShown (c ∷ s)), tt)

file_lines-IsShown : (f : SieFile) → All (All IsShown) (file_lines f)
unfolding file_lines
file_lines-IsShown f = (
  (omega arith),
  (
    after-IsShown (codes "#PROGRAM ") (quote f.program ++ (b' ' ∷ quote f.program_ver))
        (omega arith)
        (field-IsShown (quote f.program) (quote f.program_ver) (quote-IsShown f.program)
          (quote-IsShown f.program_ver)),
    (
      (omega arith),
      (
        (omega arith),
        (
          after-IsShown (codes "#GEN ") (format_day f.generated) (omega arith)
              (format_day-IsShown f.generated),
          (
            after-IsShown (codes "#FNAMN ") (quote f.company_name) (omega arith)
                (quote-IsShown f.company_name),
            All-append (All IsShown) (org_lines f.org_number)
                ((codes "#RAR 0 " ++ (format_day f.year_from ++ (b' ' ∷ format_day f.year_to)))
                  ∷ (account_lines f.accounts (sorted_accounts f.accounts)
                      ++ verification_lines f.verifications))
                (org_lines-IsShown f.org_number)
                (
                  after-IsShown (codes "#RAR 0 ")
                      (format_day f.year_from ++ (b' ' ∷ format_day f.year_to)) (omega arith)
                      (field-IsShown (format_day f.year_from) (format_day f.year_to)
                        (format_day-IsShown f.year_from) (format_day-IsShown f.year_to)),
                  All-append (All IsShown) (account_lines f.accounts (sorted_accounts f.accounts))
                      (verification_lines f.verifications)
                      (account_lines-IsShown f.accounts (sorted_accounts f.accounts))
                      (verification_lines-IsShown f.verifications),
                ),
          ),
        ),
      ),
    ),
  ),
)

written-eq : {a b : List ℕ} → written a ≡ written b → a ≡ b
written-eq x = cc

not_written : {s n : Text} {b : List ℕ} → unbalanced s n ≡ written b → ⊥
not_written x = cc

write_checked-bytes :
    (f : SieFile) (vs : List Verification) (b : List ℕ)
    → write_checked f vs ≡ written b
    → (render (file_lines f) ≡ b) × All (λ v. balanced v ≡ true) vs
unfolding write_checked
write_checked-bytes f [] b e = (written-eq e, tt)
write_checked-bytes f (v ∷ vs) b e = elim (Bool-cases (balanced v)) [
  | inl z ↦ (let (is, rest) = write_checked-bytes f vs b (rw z at e) in (is, (z, rest)))
  | inr z ↦ absurd (not_written (rw z at e))
]

-- A file that is written holds balanced verifications alone, and a program that reads it finds the
-- lines that were to be written, each in the code page, and no others: no text in it, with whatever
-- characters, ends a line or adds one.
pub write-lines :
    (f : SieFile) (b : List ℕ)
    → write f ≡ written b
    → (read_lines b ≡ map encode (file_lines f)) × All (λ v. balanced v ≡ true) f.verifications
unfolding write
write-lines f b e =
    let (is, sound) = write_checked-bytes f f.verifications b e in
    (ap read_lines (sym is) ∙ read_lines-render (file_lines f) (file_lines-IsShown f), sound)
