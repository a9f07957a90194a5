-- ===== src/Barcode/Svg.antt =====
-- `SVG` of internal/barcode/code128.go: the picture, and the text that stands in it.
use free_sms.Common.{
  ℕ, ◌+◌, ◌*◌, ◌≡◌, refl, ap, ◌∙◌, Bool, true, false, not, ◌||◌, List, [], ◌∷◌, ◌++◌, append_assoc,
  Option, none, some, ◌==◌, ==_iff, if◌then◌else◌, Bool-cases, inl, inr, ◌>>=◌,
}
use free_sms.Common.Text.{Text, codes, text_eq}
use free_sms.PayRef.CheckDigit.{format_int}
use free_sms.Barcode.{modules}
use free_sms.Barcode.RoundTrip.{total}

unfoldable pub escape_char : ℕ → Text
escape_char c =
    if c == b'&'
    then codes "&amp;"
    else if c == b'<'
    then codes "&lt;"
    else if c == b'>'
    then codes "&gt;"
    else if c == b'"'
    then codes "&quot;"
    else c ∷ []

-- The replacer of `escape`: none of the texts that it looks for begins another.
unfoldable pub escape_markup : Text → Text
unfolding escape_char
escape_markup [] = []
escape_markup (c ∷ s) = escape_char c ++ escape_markup s

abbrev pub quiet_zone : ℕ
quiet_zone = 10

abbrev pub joined : List Text → Text
joined [] = []
joined (t ∷ ts) = t ++ joined ts

-- An attribute whose value is a number.
unfoldable pub attribute : Text → ℕ → Text
unfolding format_int
attribute name n = name ++ (codes "=\"" ++ (format_int n ++ codes "\""))

-- The loop over the widths: every second one is a bar.
unfoldable pub rects : Bool → ℕ → ℕ → List ℕ → Text
unfolding attribute
rects bar x height [] = []
rects bar x height (w ∷ ws) =
    let rest = rects (not bar) (x + w) height ws in
    if bar
    then joined (
        codes "<rect "
        ∷ attribute (codes "x") x
        ∷ codes " y=\"0\" "
        ∷ attribute (codes "width") w
        ∷ codes " "
        ∷ attribute (codes "height") height
        ∷ codes " fill=\"#000\"/>"
        ∷ rest
        ∷ [])
    else rest

unfoldable pub picture : Text → ℕ → ℕ → List ℕ → Text
unfolding rects escape_markup
picture text width height ws =
    let all = 2 * quiet_zone + total ws in
    joined (
      codes "<svg xmlns=\"http://www.w3.org/2000/svg\" viewBox=\"0 0 "
      ∷ format_int all
      ∷ codes " "
      ∷ format_int height
      ∷ codes "\" "
      ∷ attribute (codes "width") width
      ∷ codes " "
      ∷ attribute (codes "height") height
      ∷ codes " role=\"img\" aria-label=\""
      ∷ escape_markup text
      ∷ codes "\"><rect "
      ∷ attribute (codes "width") all
      ∷ codes " "
      ∷ attribute (codes "height") height
      ∷ codes " fill=\"#fff\"/>"
      ∷ rects true quiet_zone height ws
      ∷ codes "</svg>"
      ∷ [])

unfoldable pub svg : Text → ℕ → ℕ → Option Text
unfolding picture
svg text width height = modules text >>= λ ws. some (picture text width height ws)

-- A reader of an attribute's value: a quotation mark ends it, from an ampersand to a semicolon one of
-- the four names stands for a character, and no mark of the markup stands for itself.
abbrev named : Text → Option ℕ
named name =
    if text_eq name (codes "amp")
    then some b'&'
    else if text_eq name (codes "lt")
    then some b'<'
    else if text_eq name (codes "gt")
    then some b'>'
    else if text_eq name (codes "quot")
    then some b'"'
    else none

abbrev with_char : Option ℕ → Option (Text × Text) → Option (Text × Text)
with_char none o = none
with_char (some c) none = none
with_char (some c) (some (s, rest)) = some (c ∷ s, rest)

unfoldable pub read_value : Option Text → Text → Option (Text × Text)
read_value name [] = none
read_value (some name) (c ∷ s) =
    let ended = with_char (named name) (read_value none s) in
    let longer = read_value (some (name ++ (c ∷ []))) s in if c == b';' then ended else longer
read_value none (c ∷ s) =
    let name = read_value (some []) s in
    let plain = with_char (some c) (read_value none s) in
    if c == b'"'
    then some ([], s)
    else if c == b'&'
    then name
    else if (c == b'<') || (c == b'>')
    then none
    else plain

escape_char-plain :
    (c : ℕ)
    → (c == b'&') ≡ false
    → (c == b'<') ≡ false
    → (c == b'>') ≡ false
    → (c == b'"') ≡ false
    → escape_char c ≡ c ∷ []
unfolding escape_char
escape_char-plain c amp lt gt quot = rw (amp, lt, gt, quot)

read_value-plain :
    (c : ℕ) (s : Text)
    → (c == b'"') ≡ false
    → (c == b'&') ≡ false
    → (c == b'<') ≡ false
    → (c == b'>') ≡ false
    → read_value none (c ∷ s) ≡ with_char (some c) (read_value none s)
unfolding read_value
read_value-plain c s quot amp lt gt = rw (quot, amp, lt, gt)

read_value-escape_char :
    (c : ℕ) (s : Text)
    → read_value none (escape_char c ++ s) ≡ with_char (some c) (read_value none s)
unfolding read_value escape_char
read_value-escape_char c s = elim (Bool-cases (c == b'&')) [
  | inl e ↦ rw (e, (==_iff c b'&').0 e)
  | inr amp ↦ elim (Bool-cases (c == b'<')) [
    | inl e ↦ rw (amp, e, (==_iff c b'<').0 e)
    | inr lt ↦ elim (Bool-cases (c == b'>')) [
      | inl e ↦ rw (amp, lt, e, (==_iff c b'>').0 e)
      | inr gt ↦ elim (Bool-cases (c == b'"')) [
        | inl e ↦ rw (amp, lt, gt, e, (==_iff c b'"').0 e)
        | inr quot ↦
            ap (λ t. read_value none (t ++ s)) (escape_char-plain c amp lt gt quot)
            ∙ read_value-plain c s quot amp lt gt
      ]
    ]
  ]
]

-- A text that is written into an attribute is read back as it is, whatever characters it has, by a
-- reader that knows the names amp, lt, gt and quot alone and refuses a bare < or >; and the reader
-- stops at the quotation mark that was put behind it.
pub read_value-escape_markup :
    (s rest : Text) → read_value none (escape_markup s ++ (b'"' ∷ rest)) ≡ some (s, rest)
unfolding escape_markup read_value
read_value-escape_markup [] rest = refl
read_value-escape_markup (c ∷ s) rest =
    ap (read_value none) (append_assoc (escape_char c) (escape_markup s) (b'"' ∷ rest))
    ∙ read_value-escape_char c (escape_markup s ++ (b'"' ∷ rest))
    ∙ ap (with_char (some c)) (read_value-escape_markup s rest)
