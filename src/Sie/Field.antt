-- ===== src/Sie/Field.antt =====
-- A field that internal/sie/cp437.go quotes is read back, from the bytes of the file, as what it says.
use free_sms.Common.{
  ℕ, ◌≤◌, ◌<◌, ◌≡◌, ◌⊎◌, refl, ◌∙◌, Bool, true, false, List, [], ◌∷◌, ◌++◌, map, Option, none, some,
  ltb, ◌==◌, if◌then◌else◌, append_assoc, ==_iff, All, Bool-cases, inl, inr, arith,
}
use free_sms.Common.Text.{Text}
use free_sms.Sie.{CodePoint, cp437, lookup_byte, encode_char, encode, plain_char, escape, quote}

-- A reader of fields, after the specification: a field is between quotation marks, and a backslash
-- stands before a quotation mark inside it. It gives the field and what stands behind it.
abbrev with_byte : ℕ → Option (List ℕ × List ℕ) → Option (List ℕ × List ℕ)
with_byte c none = none
with_byte c (some (s, rest)) = some (c ∷ s, rest)

unfoldable pub read_on : Bool → List ℕ → Option (List ℕ × List ℕ)
read_on escaped [] = none
read_on true (c ∷ s) = with_byte c (read_on false s)
read_on false (c ∷ s) =
    let rest = read_on false s in
    let after = read_on true s in
    if c == b'"' then some ([], s) else if c == b'\\' then after else with_byte c rest

unfoldable pub read_field : List ℕ → Option (List ℕ × List ℕ)
unfolding read_on
read_field [] = none
read_field (c ∷ s) = let field = read_on false s in if c == b'"' then field else none

-- A byte of the table is above ASCII, or the question mark of what is not in it.
abbrev pub IsHigh : ℕ → Type 0
IsHigh b = (128 ≤ b) ⊎ (b ≡ b'?')

pub lookup_byte-IsHigh :
    (r : ℕ) (ps : List CodePoint) → All (λ p. 128 ≤ p.byte) ps → IsHigh (lookup_byte r ps)
unfolding lookup_byte
lookup_byte-IsHigh r [] h = inr refl
lookup_byte-IsHigh r (p ∷ ps) (h, hs) = elim (Bool-cases (p.rune == r)) [
  | inl e ↦ rw e (inl h)
  | inr e ↦ rw e (lookup_byte-IsHigh r ps hs)
]

pub cp437_high : All (λ p. 128 ≤ p.byte) cp437
cp437_high = omega arith

high_plain : (b : ℕ) → IsHigh b → ((b == b'"') ≡ false) × ((b == b'\\') ≡ false)
high_plain b h = ground arith

encode_char-low : (c : ℕ) → c < 128 → encode_char c ≡ c
unfolding encode_char
encode_char-low c h = ground arith

-- A character that is neither a quotation mark nor a backslash is not encoded as one, and what is
-- not a control character is not encoded as one.
encode_char-IsPlain :
    (c : ℕ)
    → (c == b'"') ≡ false
    → (c == b'\\') ≡ false
    → ((encode_char c == b'"') ≡ false) × ((encode_char c == b'\\') ≡ false)
unfolding encode_char
encode_char-IsPlain c q s = elim (Bool-cases (ltb c 128)) [
  | inl e ↦ rw e (q, s)
  | inr e ↦ rw e (high_plain (lookup_byte c cp437) (lookup_byte-IsHigh c cp437 cp437_high))
]

plain_char-backslash : (r : ℕ) → (plain_char r == b'\\') ≡ false
unfolding plain_char
plain_char-backslash r = ground arith

read_on-byte :
    (c : ℕ) (s : List ℕ)
    → (c == b'"') ≡ false
    → (c == b'\\') ≡ false
    → read_on false (c ∷ s) ≡ with_byte c (read_on false s)
unfolding read_on
read_on-byte c s q b = rw (q, b)

read_on-quotation :
    (s : List ℕ) → read_on false (b'\\' ∷ b'"' ∷ s) ≡ with_byte b'"' (read_on false s)
unfolding read_on
read_on-quotation s = refl

-- What `quote` makes of a text's characters: what a reader is told.
abbrev pub plain : Text → Text
plain s = map plain_char s

read_on-escape :
    (s rest : Text)
    → read_on false (encode (escape (plain s) ++ (b'"' ∷ rest)))
      ≡ some (encode (plain s), encode rest)
unfolding escape encode_char read_on
read_on-escape [] rest = refl
read_on-escape (r ∷ s) rest = elim (Bool-cases (plain_char r == b'"')) [
  | inl e ↦
      (let is : plain_char r ≡ b'"' = (==_iff (plain_char r) b'"').0 e in
        rw (e, read_on-escape s rest, is))
  | inr e ↦
      (let (q, b) = encode_char-IsPlain (plain_char r) e (plain_char-backslash r) in
        rw (
          e,
          read_on-byte (encode_char (plain_char r)) (encode (escape (plain s) ++ (b'"' ∷ rest))) q
              b,
          read_on-escape s rest,
        ))
]

read_field_starts : (s : List ℕ) → read_field (b'"' ∷ s) ≡ read_on false s
unfolding read_field
read_field_starts s = refl

-- A text that is quoted and encoded is read back, whatever characters it has and whatever follows, as
-- itself with spaces for its control characters and slashes for its backslashes, in the code page;
-- and the reader stops where the field was ended.
pub read_field-quote :
    (s rest : Text) → read_field (encode (quote s ++ rest)) ≡ some (encode (plain s), encode rest)
unfolding quote encode_char
read_field-quote s rest =
    rw (append_assoc (escape (plain s)) (b'"' ∷ []) rest)
      (read_field_starts (encode (escape (plain s) ++ (b'"' ∷ rest))) ∙ read_on-escape s rest)
