-- ===== src/Barcode/Examples.antt =====
-- Labels of internal/barcode/code128.go.
use free_sms.Common.{◌++◌, ◌≡◌, refl, true, false, List, [], ◌∷◌, some, none, ℕ, length, ◌+◌, ◌*◌}
use free_sms.Common.Text.{codes}
use free_sms.Money.Format.{fill}
use free_sms.Barcode.{modules, widths}
use free_sms.Barcode.Reader.{read_code}
use free_sms.Barcode.RoundTrip.{all_printable, modules-read_code, total, modules-total}
use free_sms.Barcode.Svg.{escape_markup, read_value, read_value-escape_markup, rects}

label : modules (codes "A") ≡ some (widths (104 ∷ 33 ∷ 34 ∷ 106 ∷ []))
unfolding modules
label = refl

not_ascii : modules (codes "Å") ≡ none
unfolding modules
not_ascii = refl

modules-read_code_example :
    (all_printable (b'A' ∷ codes "-7") ≡ true
      → (out : List ℕ) × (modules (b'A' ∷ codes "-7") ≡ some out)
        × (read_code out ≡ some (b'A' ∷ codes "-7")))
    × (all_printable (b'A' ∷ codes "-7") ≡ false → modules (b'A' ∷ codes "-7") ≡ none)
modules-read_code_example = modules-read_code b'A' (codes "-7")

modules-total_example :
    total (widths (104 ∷ 33 ∷ 34 ∷ 106 ∷ [])) ≡ 11 * (length (codes "A") + 2) + 13
modules-total_example = modules-total (codes "A") (widths (104 ∷ 33 ∷ 34 ∷ 106 ∷ [])) label

marked_up : escape_markup (codes "a<b") ≡ codes "a&lt;b"
unfolding escape_markup
marked_up = refl

two_bars :
    rects true 10 40 (2 ∷ 1 ∷ 1 ∷ [])
    ≡ codes
        "<rect x=\"10\" y=\"0\" width=\"2\" height=\"40\" fill=\"#000\"/><rect x=\"13\" y=\"0\" width=\"1\" height=\"40\" fill=\"#000\"/>"
unfolding rects fill
two_bars = refl

read_value-escape_markup_example :
    read_value none (escape_markup (codes "7\"/>&") ++ (b'"' ∷ codes "><rect"))
    ≡ some (codes "7\"/>&", codes "><rect")
read_value-escape_markup_example = read_value-escape_markup (codes "7\"/>&") (codes "><rect")
