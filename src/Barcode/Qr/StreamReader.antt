-- ===== src/Barcode/Qr/StreamReader.antt =====
-- A reader of the data codewords of internal/barcode/qr.go, and that it gets the bytes back.
use native.Mathlib.Nat.{div-add-mod', pow-suc}
use free_sms.Common.{
  ℕ, zero, suc, ◌+◌, ◌*◌, ◌/◌, ◌%◌, ◌^◌, ◌<◌, ◌≡◌, refl, sym, ◌∙◌, ap, Bool, true, List, [], ◌∷◌,
  ◌++◌, append_assoc, length, All, ltb, ◌==◌, if◌then◌else◌, Option, none, some, ◌>>=◌, arith,
}
use free_sms.Barcode.Qr.Codeword.{IsByte}
use free_sms.Barcode.Qr.Stream.{put_bits, put_bytes, content, count_of}

-- The number that the next `n` bits write, after `acc`, and the bits left.
unfoldable pub read_number : ℕ → ℕ → List Bool → Option (ℕ × List Bool)
read_number zero acc bits = some (acc, bits)
read_number (suc n) acc [] = none
read_number (suc n) acc (bit ∷ bits) = read_number n (acc * 2 + (if bit then 1 else 0)) bits

-- As many bytes as the count.
unfoldable pub bytes_of : ℕ → List Bool → Option (List ℕ)
bytes_of zero bits = some []
bytes_of (suc n) bits = do
  (b, rest) ← read_number 8 0 bits
  bytes ← bytes_of n rest
  some (b ∷ bytes)

-- After the mode of bytes: the length, and the bytes.
unfoldable pub text_of : ℕ → ℕ → List Bool → Option (ℕ × List ℕ)
text_of count eci bits = do
  (size, rest) ← read_number count 0 bits
  bytes ← bytes_of size rest
  some (eci, bytes)

-- The mode of bytes must come next.
unfoldable pub byte_mode : ℕ → ℕ → List Bool → Option (ℕ × List ℕ)
byte_mode count eci bits = do
  (mode, rest) ← read_number 4 0 bits
  if mode == 0b0100 then text_of count eci rest else none

unfoldable pub designated : ℕ → List Bool → Option (ℕ × List ℕ)
designated count bits = do (eci, rest) ← read_number 8 0 bits; byte_mode count eci rest

-- The designator, where there is one, and the text.
unfoldable pub read_message : ℕ → List Bool → Option (ℕ × List ℕ)
read_message count bits = do
  (mode, rest) ← read_number 4 0 bits
  if mode == 0b0111 then designated count rest else byte_mode count 0 bits

-- The bits of the codewords, highest first.
unfoldable pub unpacked : List ℕ → List Bool
unpacked [] = []
unpacked (w ∷ words) = put_bits w 8 ++ unpacked words

-- What the data codewords of a version say: the designator, 0 without one, and the bytes.
unfoldable pub read_stream : ℕ → List ℕ → Option (ℕ × List ℕ)
read_stream v words = read_message (count_of v) (unpacked words)

last_part : (q m r : ℕ) → r < m → (q * m + r) % m ≡ r
last_part q m r h = grind arith

regrouped : (q d p r : ℕ) → (q * 2 + d) * p + r ≡ q * (2 * p) + (d * p + r)
regrouped q d p r = grind arith

low_parts : (value p : ℕ) → value ≡ value / p / 2 * (2 * p) + (value / p % 2 * p + value % p)
low_parts value p =
    sym (div-add-mod' value p)
    ∙ ap (λ h. h * p + value % p) (sym (div-add-mod' (value / p) 2))
    ∙ regrouped (value / p / 2) (value / p % 2) p (value % p)

low_part : (value p : ℕ) → 0 < p → value / p % 2 * p + value % p < 2 * p
low_part value p h = grind arith

high_part : (value p : ℕ) → 0 < p → value / p % 2 * p + value % p ≡ value % (2 * p)
high_part value p h = sym (
    ap (λ x. x % (2 * p)) (low_parts value p)
    ∙ last_part (value / p / 2) (2 * p) (value / p % 2 * p + value % p) (low_part value p h))

pos_pow : (i : ℕ) → 0 < 2 ^ i
pos_pow zero = omega arith
pos_pow (suc i) = omega (arith, pos_pow i)

bit_value : (x : ℕ) → (if x % 2 == 1 then 1 else 0) ≡ x % 2
bit_value x = ground arith

read_number-put_bits :
    (n acc value : ℕ) (rest : List Bool)
    → read_number n acc (put_bits value n ++ rest) ≡ some (acc * 2 ^ n + value % 2 ^ n, rest)
unfolding read_number put_bits
read_number-put_bits zero acc value rest = ap (λ x. some (x, rest)) (omega arith)
read_number-put_bits (suc i) acc value rest =
    ap (λ d. read_number i (acc * 2 + d) (put_bits value i ++ rest)) (bit_value (value / 2 ^ i))
    ∙ read_number-put_bits i (acc * 2 + value / 2 ^ i % 2) value rest
    ∙ ap (λ x. some (x, rest)) (grind (arith, high_part value (2 ^ i) (pos_pow i), pow-suc 2 i))

-- A number of at most `n` bits is read back.
number_of_bits :
    (n value : ℕ) (rest : List Bool)
    → value < 2 ^ n
    → read_number n 0 (put_bits value n ++ rest) ≡ some (value, rest)
number_of_bits n value rest h =
    read_number-put_bits n 0 value rest ∙ ap (λ x. some (x, rest)) (grind arith)

bytes_of-put_bytes :
    (bytes : List ℕ) (rest : List Bool)
    → All IsByte bytes
    → bytes_of (length bytes) (put_bytes bytes ++ rest) ≡ some bytes
unfolding bytes_of put_bytes
bytes_of-put_bytes [] rest _ = refl
bytes_of-put_bytes (b ∷ bytes) rest (h, hs) =
    simp
      (
        append_assoc (put_bits b 8) (put_bytes bytes) rest,
        number_of_bits 8 b (put_bytes bytes ++ rest) h,
        bytes_of-put_bytes bytes rest hs,
      )
      refl

text_of-put_bits :
    (count eci : ℕ) (bytes : List ℕ) (rest : List Bool)
    → length bytes < 2 ^ count
    → All IsByte bytes
    → text_of count eci (put_bits (length bytes) count ++ (put_bytes bytes ++ rest))
      ≡ some (eci, bytes)
unfolding text_of
text_of-put_bits count eci bytes rest short h =
    simp
      (
        number_of_bits count (length bytes) (put_bytes bytes ++ rest) short,
        bytes_of-put_bytes bytes rest h,
      )
      refl

byte_mode-put_bits :
    (count eci : ℕ) (rest : List Bool)
    → byte_mode count eci (put_bits 0b0100 4 ++ rest) ≡ text_of count eci rest
unfolding byte_mode
byte_mode-put_bits count eci rest = simp (number_of_bits 4 0b0100 rest (omega arith)) refl

read_message-put_byte_mode :
    (count : ℕ) (rest : List Bool)
    → read_message count (put_bits 0b0100 4 ++ rest) ≡ text_of count 0 rest
unfolding read_message
read_message-put_byte_mode count rest =
    simp (number_of_bits 4 0b0100 rest (omega arith)) (byte_mode-put_bits count 0 rest)

read_message-put_designator :
    (count eci : ℕ) (rest : List Bool)
    → eci < 256
    → read_message count (put_bits 0b0111 4 ++ (put_bits eci 8 ++ (put_bits 0b0100 4 ++ rest)))
      ≡ text_of count eci rest
unfolding read_message designated
read_message-put_designator count eci rest h =
    simp
      (
        number_of_bits 4 0b0111 (put_bits eci 8 ++ (put_bits 0b0100 4 ++ rest)) (omega arith),
        number_of_bits 8 eci (put_bits 0b0100 4 ++ rest) h,
      )
      (byte_mode-put_bits count eci rest)

positive : (e : ℕ) → ltb 0 (suc e) ≡ true
positive e = ground arith

-- Whatever follows the content, it is read.
pub read_message-content :
    (count eci : ℕ) (bytes : List ℕ) (rest : List Bool)
    → length bytes < 2 ^ count
    → eci < 256
    → All IsByte bytes
    → read_message count (content count bytes eci ++ rest) ≡ some (eci, bytes)
unfolding content
read_message-content count zero bytes rest short _ h = cc (
  append_assoc (put_bits 0b0100 4) (put_bits (length bytes) count ++ put_bytes bytes) rest,
  append_assoc (put_bits (length bytes) count) (put_bytes bytes) rest,
  read_message-put_byte_mode count (put_bits (length bytes) count ++ (put_bytes bytes ++ rest)),
  text_of-put_bits count 0 bytes rest short h,
)
read_message-content count (suc e) bytes rest short eci_fits h =
    let eci = suc e in
    let sized = put_bits (length bytes) count ++ put_bytes bytes in
    cc (
      positive e,
      append_assoc (put_bits 0b0111 4 ++ put_bits eci 8) (put_bits 0b0100 4 ++ sized) rest,
      append_assoc (put_bits 0b0111 4) (put_bits eci 8) ((put_bits 0b0100 4 ++ sized) ++ rest),
      append_assoc (put_bits 0b0100 4) sized rest,
      append_assoc (put_bits (length bytes) count) (put_bytes bytes) rest,
      read_message-put_designator count eci
          (put_bits (length bytes) count ++ (put_bytes bytes ++ rest)) eci_fits,
      text_of-put_bits count eci bytes rest short h,
    )
