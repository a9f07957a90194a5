-- ===== src/Barcode/Qr/Message.antt =====
-- What `EncodeQR` of internal/barcode/qr.go gives to the drawing: the smallest version with room,
-- and codewords from which the bytes are read back.
use free_sms.Common.{
  ℕ, zero, suc, ◌+◌, ◌*◌, ◌^◌, ◌≤◌, ◌<◌, ◌≡◌, refl, subst, ◌==◌, ==_iff, true, false, List, length,
  All, ltb, Option, none, some, Bool-cases, inl, inr, arith,
}
use free_sms.Common.Int.{ℤ, pos, negsuc}
use free_sms.Barcode.Qr.{data_codewords, interleave}
use free_sms.Barcode.Qr.Codeword.{IsByte}
use free_sms.Barcode.Qr.Blocks.{read_blocks, join}
use free_sms.Barcode.Qr.Sound.{interleave-IsCodeword}
use free_sms.Barcode.Qr.Stream.{
  stream, count_of, bits_of, too_small, version_from, Encoded, bad_eci, too_long, built, encode_qr,
  with_stream,
}
use free_sms.Barcode.Qr.StreamReader.{read_stream, read_message-content}
use free_sms.Barcode.Qr.Packing.{stream_fills}

-- The content fits the version's data codewords, and the length the version's length field.
abbrev pub HasSpace : ℕ → ℕ → ℕ → Type 0
HasSpace v size eci = (bits_of v size eci ≤ 8 * data_codewords v) × (size < 2 ^ count_of v)

too_small-HasSpace : (v size eci : ℕ) → too_small v size eci ≡ false → HasSpace v size eci
unfolding too_small
too_small-HasSpace v size eci h = (ground (arith, h), ground (arith, h))

too_small_no : (v size eci : ℕ) → too_small v size eci ≡ true → HasSpace v size eci → ⊥
unfolding too_small
too_small_no v size eci h (p, q) = ground (arith, h, p, q)

-- The version found, when there is one, has room, and those before it have not.
unfoldable IsVersion : ℕ → ℕ → ℕ → ℕ → Option ℕ → Type 0
IsVersion n v size eci none = (w : ℕ) → v ≤ w → w < v + n → ¬ HasSpace w size eci
IsVersion n v size eci (some u) =
    (v ≤ u) × (u < v + n) × HasSpace u size eci × ((w : ℕ) → v ≤ w → w < u → ¬ HasSpace w size eci)

not_before :
    (v size eci : ℕ)
    → ¬ HasSpace v size eci
    → (w : ℕ) → v ≤ w
    → (suc v ≤ w → ¬ HasSpace w size eci)
    → ¬ HasSpace w size eci
not_before v size eci small w p later = elim (Bool-cases (v == w)) [
  | inl e ↦ subst (λ u. ¬ HasSpace u size eci) ((==_iff v w).0 e) small
  | inr e ↦ later (ground (arith, e, p))
]

IsVersion-suc :
    (n v size eci : ℕ) (o : Option ℕ)
    → ¬ HasSpace v size eci
    → IsVersion n (suc v) size eci o
    → IsVersion (suc n) v size eci o
unfolding IsVersion
IsVersion-suc n v size eci none small h =
    λ w p q. not_before v size eci small w p (λ p'. h w p' (omega (arith, q)))
IsVersion-suc n v size eci (some u) small (p, q, room, before) = (
  omega (arith, p),
  omega (arith, q),
  room,
  λ w p q. not_before v size eci small w p (λ p'. before w p' q),
)

version_from-IsVersion : (n v size eci : ℕ) → IsVersion n v size eci (version_from n v size eci)
unfolding IsVersion version_from
version_from-IsVersion zero v size eci = λ w p q. absurd (omega (arith, p, q))
version_from-IsVersion (suc n) v size eci =
    let rest = version_from n (suc v) size eci in
    elim (Bool-cases (too_small v size eci)) [
      | inl e ↦ rw e (
          IsVersion-suc n v size eci rest (too_small_no v size eci e)
            (version_from-IsVersion n (suc v) size eci))
      | inr e ↦ rw e (
        omega arith,
        omega arith,
        too_small-HasSpace v size eci e,
        λ w p q. absurd (omega (arith, p, q)),
      )
    ]

-- A reader of a version's data codewords gets the bytes, from the codewords as they are drawn.
unfoldable pub IsRead : ℕ → List ℕ → List ℕ → ℕ → Type 0
IsRead v words bytes eci =
    (length words ≡ data_codewords v)
    × (read_stream v (join (read_blocks v (interleave v words))) ≡ some (eci, bytes))

stream-IsRead :
    (v : ℕ) (bytes : List ℕ) (eci : ℕ)
    → 0 < v
    → v ≤ 20
    → HasSpace v (length bytes) eci
    → eci ≤ 127
    → All IsByte bytes
    → IsRead v (stream v (count_of v) bytes eci) bytes eci
unfolding IsRead read_stream
stream-IsRead v bytes eci first last (room, short) small h =
    let words = stream v (count_of v) bytes eci in
    let (full, are_bytes, (rest, front)) = stream_fills v bytes eci room in
    let (joined, _, _) = interleave-IsCodeword v words first last full are_bytes in
    (
      full,
      cc (
        joined,
        front,
        read_message-content (count_of v) eci bytes rest short (omega (arith, small)) h,
      ),
    )

-- What each answer says of the bytes and the designator.
unfoldable pub IsEncoding : List ℕ → ℤ → Encoded → Type 0
IsEncoding bytes (negsuc n) out = out ≡ bad_eci
IsEncoding bytes (pos eci) bad_eci = 127 < eci
IsEncoding bytes (pos eci) too_long =
    (eci ≤ 127) × ((w : ℕ) → 1 ≤ w → w ≤ 20 → ¬ HasSpace w (length bytes) eci)
IsEncoding bytes (pos eci) (built v words) =
    (eci ≤ 127)
    × (1 ≤ v)
    × (v ≤ 20)
    × ((w : ℕ) → 1 ≤ w → w < v → ¬ HasSpace w (length bytes) eci)
    × IsRead v words bytes eci

with_version :
    (bytes : List ℕ) (eci : ℕ) (o : Option ℕ)
    → eci ≤ 127
    → All IsByte bytes
    → IsVersion 20 1 (length bytes) eci o
    → IsEncoding bytes (pos eci) (with_stream o bytes eci)
unfolding IsVersion IsEncoding
with_version bytes eci none small h full = (small, λ w p q. full w p (omega (arith, q)))
with_version bytes eci (some v) small h (p, q, room, before) = (
  small,
  p,
  omega (arith, q),
  before,
  stream-IsRead v bytes eci p (omega (arith, q)) room small h,
)

-- For bytes and any designator: a refusal says that the designator is negative or above 127; too
-- long, that no version from 1 to 20 has room; else the version is the first with room, its
-- codewords are as many as it holds, and a reader who takes the interleaved codewords apart gets
-- the designator, or 0 for none, and the bytes.
pub encode_qr-IsEncoding :
    (bytes : List ℕ) (eci : ℤ) → All IsByte bytes → IsEncoding bytes eci (encode_qr bytes eci)
unfolding IsEncoding encode_qr
encode_qr-IsEncoding bytes (negsuc n) h = refl
encode_qr-IsEncoding bytes (pos eci) h = elim (Bool-cases (ltb 127 eci)) [
  | inl e ↦ rw e (ground (arith, e))
  | inr e ↦ rw e (
      with_version bytes eci (version_from 20 1 (length bytes) eci) (ground (arith, e)) h
        (version_from-IsVersion 20 1 (length bytes) eci))
]
