-- ===== src/Barcode/Qr/Packing.antt =====
-- That internal/barcode/qr.go packs bits into bytes and fills a version exactly.
use Prim.Native.Nat.{bit_xor}
use free_sms.Common.{
  ℕ, zero, suc, ◌+◌, ◌-◌, ◌*◌, ◌/◌, ◌%◌, ◌≤◌, ◌<◌, ◌≡◌, refl, sym, ap, min, Bool, true, false, ◌&&◌,
  not, List, [], ◌∷◌, ◌++◌, append_assoc, length, length-append, All, All-append, ltb, Bool-cases,
  inl, inr, arith,
}
use free_sms.Common.Bits.{bit_xor-lt}
use free_sms.Barcode.Qr.{data_codewords}
use free_sms.Barcode.Qr.Codeword.{IsByte}
use free_sms.Barcode.Qr.Stream.{
  put_bits, put_bytes, content, terminated, byte_of, packed, padding, stream, count_of, bits_of,
}
use free_sms.Barcode.Qr.StreamReader.{unpacked}

-- A test of every list of `k` bits.
all_bits : ℕ → (List Bool → Bool) → Bool
all_bits zero p = p []
all_bits (suc k) p = all_bits k (λ bits. p (true ∷ bits)) && all_bits k (λ bits. p (false ∷ bits))

all_bits-at :
    (k : ℕ) (p : List Bool → Bool) (bits : List Bool)
    → all_bits k p ≡ true
    → length bits ≡ k
    → p bits ≡ true
unfolding all_bits
all_bits-at zero p [] h e = h
all_bits-at zero p (b ∷ bits) h e = absurd (omega (arith, e))
all_bits-at (suc k) p [] h e = absurd (omega (arith, e))
all_bits-at (suc k) p (true ∷ bits) h e =
    all_bits-at k (λ bits. p (true ∷ bits)) bits (ground (arith, h)) (omega (arith, e))
all_bits-at (suc k) p (false ∷ bits) h e =
    all_bits-at k (λ bits. p (false ∷ bits)) bits (ground (arith, h)) (omega (arith, e))

abbrev bit_eq : Bool → Bool → Bool
bit_eq true b = b
bit_eq false b = not b

bits_eq : List Bool → List Bool → Bool
bits_eq [] [] = true
bits_eq [] (b ∷ ys) = false
bits_eq (a ∷ xs) [] = false
bits_eq (a ∷ xs) (b ∷ ys) = bit_eq a b && bits_eq xs ys

bits_eq-eq : (xs ys : List Bool) → bits_eq xs ys ≡ true → xs ≡ ys
unfolding bits_eq
bits_eq-eq [] [] h = refl
bits_eq-eq [] (b ∷ ys) h = absurd cc
bits_eq-eq (a ∷ xs) [] h = absurd cc
bits_eq-eq (true ∷ xs) (true ∷ ys) h = ap (λ l. true ∷ l) (bits_eq-eq xs ys h)
bits_eq-eq (true ∷ xs) (false ∷ ys) h = absurd cc
bits_eq-eq (false ∷ xs) (true ∷ ys) h = absurd cc
bits_eq-eq (false ∷ xs) (false ∷ ys) h = ap (λ l. false ∷ l) (bits_eq-eq xs ys h)

byte_works : List Bool → Bool
byte_works bits = ltb (byte_of 0 bits 0) 256 && bits_eq (put_bits (byte_of 0 bits 0) 8) bits

table_bytes : all_bits 8 byte_works ≡ true
unfolding all_bits byte_works byte_of put_bits bits_eq
table_bytes = refl

-- Eight bits make a byte whose bits they are.
byte_of-put_bits :
    (bits : List Bool)
    → length bits ≡ 8
    → (byte_of 0 bits 0 < 256) × (put_bits (byte_of 0 bits 0) 8 ≡ bits)
unfolding byte_works
byte_of-put_bits bits e =
    let h = all_bits-at 8 byte_works bits table_bytes e in
    (ground (arith, h), bits_eq-eq (put_bits (byte_of 0 bits 0) 8) bits (ground (arith, h)))

-- A multiple of eight bits is what its bytes unpack to, and they are an eighth as many.
pub packed-unpacked :
    (n : ℕ) (bits : List Bool)
    → length bits ≡ 8 * n
    → (unpacked (packed bits) ≡ bits) × (length (packed bits) ≡ n) × All IsByte (packed bits)
unfolding packed unpacked
packed-unpacked zero [] e = (refl, refl, tt)
packed-unpacked zero (b ∷ bits) e = absurd (omega (arith, e))
packed-unpacked (suc n) (b0 ∷ b1 ∷ b2 ∷ b3 ∷ b4 ∷ b5 ∷ b6 ∷ b7 ∷ bits) e =
    let (same, long, small) = packed-unpacked n bits (omega (arith, e)) in
    let (lt, here) = byte_of-put_bits (b0 ∷ b1 ∷ b2 ∷ b3 ∷ b4 ∷ b5 ∷ b6 ∷ b7 ∷ []) refl in
    (cc, omega (arith, long), (lt, small))
packed-unpacked (suc n) bits e = absurd (omega (arith, e))

length-put_bits : (value n : ℕ) → length (put_bits value n) ≡ n
unfolding put_bits
length-put_bits value zero = refl
length-put_bits value (suc i) = omega (arith, length-put_bits value i)

length-put_bytes : (bytes : List ℕ) → length (put_bytes bytes) ≡ 8 * length bytes
unfolding put_bytes
length-put_bytes [] = omega arith
length-put_bytes (b ∷ bytes) = omega (
  arith,
  length-append (put_bits b 8) (put_bytes bytes),
  length-put_bits b 8,
  length-put_bytes bytes,
)

length-content :
    (v : ℕ) (bytes : List ℕ) (eci : ℕ)
    → length (content (count_of v) bytes eci) ≡ bits_of v (length bytes) eci
unfolding content bits_of
length-content v bytes eci = elim (Bool-cases (ltb 0 eci)) [
  | inl e ↦ rw e (
      omega (
        arith,
        length-append (put_bits 0b0111 4 ++ put_bits eci 8)
            (put_bits 0b0100 4 ++ (put_bits (length bytes) (count_of v) ++ put_bytes bytes)),
        length-append (put_bits 0b0111 4) (put_bits eci 8),
        length-put_bits 0b0111 4,
        length-put_bits eci 8,
        sized,
      ))
  | inr e ↦ rw e (omega (arith, sized))
]
  where
    sized :
        length (put_bits 0b0100 4 ++ (put_bits (length bytes) (count_of v) ++ put_bytes bytes))
        ≡ 4 + count_of v + 8 * length bytes
    sized = omega (
      arith,
      length-append (put_bits 0b0100 4) (put_bits (length bytes) (count_of v) ++ put_bytes bytes),
      length-append (put_bits (length bytes) (count_of v)) (put_bytes bytes),
      length-put_bits 0b0100 4,
      length-put_bits (length bytes) (count_of v),
      length-put_bytes bytes,
    )

eighths : (n : ℕ) → n + (8 - n % 8) % 8 ≡ 8 * ((n + 7) / 8)
eighths n = omega arith

-- The terminator and the padding bits make whole bytes that fit.
length-terminated :
    (n : ℕ) (bits : List Bool)
    → length bits ≤ 8 * n
    → (k : ℕ) × (length (terminated (8 * n) bits) ≡ 8 * k) × (k ≤ n)
unfolding terminated
length-terminated n bits h =
    let size = min 4 (8 * n - length bits) in
    let bits' = bits ++ put_bits 0 size in
    let m = length bits' in
    let e1 = length-append bits (put_bits 0 size) in
    let e2 = length-put_bits 0 size in
    (
      (m + 7) / 8,
      omega (
        arith,
        length-append bits' (put_bits 0 ((8 - m % 8) % 8)),
        length-put_bits 0 ((8 - m % 8) % 8),
        eighths m,
      ),
      omega (arith, e1, e2, h),
    )

-- What was there before stays in front.
terminated-front :
    (capacity : ℕ) (bits : List Bool)
    → (rest : List Bool) × (terminated capacity bits ≡ bits ++ rest)
unfolding terminated
terminated-front capacity bits =
    let one = put_bits 0 (min 4 (capacity - length bits)) in
    let two = put_bits 0 ((8 - length (bits ++ one) % 8) % 8) in
    (one ++ two, append_assoc bits one two)

unpacked-append : (xs ys : List ℕ) → unpacked (xs ++ ys) ≡ unpacked xs ++ unpacked ys
unfolding unpacked
unpacked-append [] ys = refl
unpacked-append (x ∷ xs) ys =
    rw (unpacked-append xs ys) (sym (append_assoc (put_bits x 8) (unpacked xs) (unpacked ys)))

length-padding : (n pad : ℕ) → length (padding n pad) ≡ n
unfolding padding
length-padding zero pad = refl
length-padding (suc n) pad = omega (arith, length-padding n (bit_xor pad (bit_xor 0xEC 0x11)))

padding-IsByte : (n pad : ℕ) → pad < 256 → All IsByte (padding n pad)
unfolding padding
padding-IsByte zero pad h = tt
padding-IsByte (suc n) pad h = (
  h,
  padding-IsByte n (bit_xor pad (bit_xor 0xEC 0x11))
      (bit_xor-lt 8 pad (bit_xor 0xEC 0x11) h (omega arith)),
)

-- With room for the content, the codewords are bytes, as many as the version holds, and their bits
-- begin with the content.
pub stream_fills :
    (v : ℕ) (bytes : List ℕ) (eci : ℕ)
    → bits_of v (length bytes) eci ≤ 8 * data_codewords v
    → let words = stream v (count_of v) bytes eci in
      (length words ≡ data_codewords v)
      × All IsByte words
      × ((rest : List Bool) × (unpacked words ≡ content (count_of v) bytes eci ++ rest))
unfolding stream
stream_fills v bytes eci room =
    let bits = content (count_of v) bytes eci in
    let n = data_codewords v in
    let (k, whole, fits) =
      length-terminated n bits (omega (arith, room, length-content v bytes eci)) in
    let out = packed (terminated (8 * n) bits) in
    let (same, long, small) = packed-unpacked k (terminated (8 * n) bits) whole in
    let (rest, front) = terminated-front (8 * n) bits in
    let more = padding (8 * n / 8 - length out) 0xEC in
    (
      omega
          (arith, length-append out more, length-padding (8 * n / 8 - length out) 0xEC, long, fits),
      All-append IsByte out more small (padding-IsByte (8 * n / 8 - length out) 0xEC (omega arith)),
      (
        rest ++ unpacked more,
        cc (unpacked-append out more, same, front, append_assoc bits rest (unpacked more)),
      ),
    )
