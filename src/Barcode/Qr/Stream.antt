-- ===== src/Barcode/Qr/Stream.antt =====
-- internal/barcode/qr.go: the version of a QR code and its data codewords.
use Prim.Native.Nat.{bit_xor, bit_or}
use free_sms.Common.{
  ℕ, zero, suc, ◌+◌, ◌-◌, ◌*◌, ◌/◌, ◌%◌, ◌^◌, min, Bool, ◌||◌, List, [], ◌∷◌, ◌++◌, length, ltb,
  leb, ◌==◌, if◌then◌else◌, Option, none, some,
}
use free_sms.Common.Int.{ℤ, pos, negsuc}
use free_sms.Barcode.Qr.{data_codewords}

-- The low `n` bits, highest first.
unfoldable pub put_bits : ℕ → ℕ → List Bool
put_bits value zero = []
put_bits value (suc i) = (value / 2 ^ i % 2 == 1) ∷ put_bits value i

unfoldable pub put_bytes : List ℕ → List Bool
put_bytes [] = []
put_bytes (b ∷ bytes) = put_bits b 8 ++ put_bytes bytes

-- The mode, the length and the bytes, with the designator before them when there is one.
unfoldable pub content : ℕ → List ℕ → ℕ → List Bool
content count bytes eci =
    (if ltb 0 eci then put_bits 0b0111 4 ++ put_bits eci 8 else [])
    ++ (put_bits 0b0100 4 ++ (put_bits (length bytes) count ++ put_bytes bytes))

unfoldable pub terminated : ℕ → List Bool → List Bool
terminated capacity bits =
    let bits' = bits ++ put_bits 0 (min 4 (capacity - length bits)) in
    bits' ++ put_bits 0 ((8 - length bits' % 8) % 8)

-- The inner loop, from `j` on.
unfoldable pub byte_of : ℕ → List Bool → ℕ → ℕ
byte_of j [] b = b
byte_of j (bit ∷ bits) b = byte_of (suc j) bits (if bit then bit_or b (2 ^ (7 - j)) else b)

-- Eight bits a byte. The number of bits is a multiple of eight.
unfoldable pub packed : List Bool → List ℕ
packed (b0 ∷ b1 ∷ b2 ∷ b3 ∷ b4 ∷ b5 ∷ b6 ∷ b7 ∷ bits) =
    byte_of 0 (b0 ∷ b1 ∷ b2 ∷ b3 ∷ b4 ∷ b5 ∷ b6 ∷ b7 ∷ []) 0 ∷ packed bits
packed bits = []

-- The last loop, with as many bytes missing as the count.
unfoldable pub padding : ℕ → ℕ → List ℕ
padding zero pad = []
padding (suc n) pad = pad ∷ padding n (bit_xor pad (bit_xor 0xEC 0x11))

unfoldable pub stream : ℕ → ℕ → List ℕ → ℕ → List ℕ
stream v count bytes eci =
    let capacity = 8 * data_codewords v in
    let out = packed (terminated capacity (content count bytes eci)) in
    out ++ padding (capacity / 8 - length out) 0xEC

unfoldable pub count_of : ℕ → ℕ
count_of v = if leb 10 v then 16 else 8

unfoldable pub bits_of : ℕ → ℕ → ℕ → ℕ
bits_of v size eci = 4 + count_of v + 8 * size + (if ltb 0 eci then 12 else 0)

unfoldable pub too_small : ℕ → ℕ → ℕ → Bool
too_small v size eci = ltb (8 * data_codewords v) (bits_of v size eci) || leb (2 ^ count_of v) size

-- The loop over the versions, with as many left as the count.
unfoldable pub version_from : ℕ → ℕ → ℕ → ℕ → Option ℕ
version_from zero v size eci = none
version_from (suc n) v size eci =
    let rest = version_from n (suc v) size eci in if too_small v size eci then rest else some v

-- What `EncodeQR` gives to `qrBuild`, or why it stops.
pub data Encoded : Type 0 where
  bad_eci : Encoded
  too_long : Encoded
  built : ℕ → List ℕ → Encoded

abbrev pub with_stream : Option ℕ → List ℕ → ℕ → Encoded
with_stream none bytes eci = too_long
with_stream (some v) bytes eci = built v (stream v (count_of v) bytes eci)

unfoldable pub encode_qr : List ℕ → ℤ → Encoded
encode_qr bytes (negsuc n) = bad_eci
encode_qr bytes (pos eci) =
    if ltb 127 eci then bad_eci else with_stream (version_from 20 1 (length bytes) eci) bytes eci
