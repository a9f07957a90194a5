-- ===== src/Barcode/Qr/Examples.antt =====
-- Codes of internal/barcode/qr.go.
use free_sms.Common.{all_below, ◌==◌, ◌||◌, ◌/◌, ◌*◌, true}
use free_sms.Common.{ℕ, ◌≡◌, refl, List, [], ◌∷◌, All, length, map, ◌+◌, arith}
use free_sms.Common.Int.{pos}
use free_sms.Common.Text.{codes}
use free_sms.Barcode.Qr.{raw_modules, mul, divisor, row_of, data_codewords, interleave}
use free_sms.Barcode.Qr.Codeword.{IsByte, IsCodeword}
use free_sms.Barcode.Qr.Blocks.{read_blocks, read_ec, join, together, lengths_of}
use free_sms.Barcode.Qr.Sound.{bytes_below, bytes_below-IsByte, interleave-IsCodeword}
use free_sms.Barcode.Qr.Stream.{
  encode_qr, version_from, too_small, bits_of, count_of, stream, packed, terminated, content,
  put_bits, byte_of, put_bytes, padding, built,
}
use free_sms.Barcode.Qr.Message.{IsEncoding, encode_qr-IsEncoding}

over_the_top : mul 2 0x80 ≡ 0x1D
unfolding mul
over_the_top = refl

-- The generator that the standard prints for generator_ten words.
generator_ten : divisor 10 ≡ 216 ∷ 194 ∷ 159 ∷ 111 ∷ 199 ∷ 94 ∷ 95 ∷ 113 ∷ 157 ∷ 193 ∷ []
unfolding divisor
generator_ten = refl

abbrev first_version : List ℕ
first_version =
    66 ∷ 22 ∷ 22 ∷ 50 ∷ 208 ∷ 236 ∷ 17 ∷ 236 ∷ 17 ∷ 236 ∷ 17 ∷ 236 ∷ 17 ∷ 236 ∷ 17 ∷ 236 ∷ []

first_version-bytes : All IsByte first_version
unfolding bytes_below
first_version-bytes = bytes_below-IsByte first_version refl

two_bytes-bytes : All IsByte (codes "Ab")
unfolding bytes_below
two_bytes-bytes = bytes_below-IsByte (codes "Ab") refl

sixteen : length first_version ≡ data_codewords 1
unfolding data_codewords row_of
sixteen = refl

interleave-IsCodeword_example :
    (join (read_blocks 1 (interleave 1 first_version)) ≡ first_version)
    × All (IsCodeword (row_of 1).ec) (
        together
          (read_blocks 1 (interleave 1 first_version))
          (read_ec 1 (interleave 1 first_version)))
    × (map length (
          together
            (read_blocks 1 (interleave 1 first_version))
            (read_ec 1 (interleave 1 first_version)))
        ≡ map (λ l. l + (row_of 1).ec) (lengths_of (row_of 1)))
interleave-IsCodeword_example =
    interleave-IsCodeword 1 first_version (omega arith) (omega arith) sixteen first_version-bytes

encode_qr-IsEncoding_example : IsEncoding (codes "Ab") (pos 26) (encode_qr (codes "Ab") (pos 26))
encode_qr-IsEncoding_example = encode_qr-IsEncoding (codes "Ab") (pos 26) two_bytes-bytes

-- The designator 26 of UTF-8, two bytes, and the padding.
small_code :
    encode_qr (codes "Ab") (pos 26)
    ≡ built 1
        (113 ∷ 164 ∷ 2 ∷ 65 ∷ 98 ∷ 0 ∷ 236 ∷ 17 ∷ 236 ∷ 17 ∷ 236 ∷ 17 ∷ 236 ∷ 17 ∷ 236 ∷ 17 ∷ [])
unfolding encode_qr version_from too_small data_codewords bits_of count_of stream packed terminated
    content put_bits byte_of put_bytes padding
small_code = refl

-- The words of the table are those that the geometry of each version leaves room for.
table_fits :
    all_below 21 (λ v.
      (v == 0)
      || (raw_modules v / 8
          == data_codewords v + (row_of v).ec * ((row_of v).blocks + (row_of v).more_blocks)))
    ≡ true
unfolding raw_modules data_codewords row_of
table_fits = refl
