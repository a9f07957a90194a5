-- ===== src/Barcode/Qr.antt =====
-- internal/barcode/qr.go: a QR code's error correction and the order of its codewords. An `int` or
-- a byte is a native number.
mod Examples
pub mod Field
pub mod Codeword
pub mod Reader
pub mod Blocks
pub mod Sound
pub mod Stream
pub mod StreamReader
pub mod Packing
pub mod Message
use Prim.Native.Nat.{bit_xor}
use free_sms.Common.{
  ℕ, zero, suc, ◌+◌, ◌-◌, ◌*◌, ◌/◌, ◌%◌, ◌^◌, List, [], ◌∷◌, ◌++◌, length, replicate, leb, ltb,
  if◌then◌else◌, take, drop, map, max, Option, none, some, min, ◌||◌,
}

-- A block_row of `qrBlocks`: the codewords of error correction of each block, then the number of blocks
-- and the data codewords of each block, of the two groups.
pub record Row : Type 0 where
  pub ec : ℕ
  pub blocks : ℕ
  pub words : ℕ
  pub more_blocks : ℕ
  pub more_words : ℕ

abbrev block_row : ℕ → ℕ → ℕ → ℕ → ℕ → Row
block_row e n k m l = record { ec = e; blocks = n; words = k; more_blocks = m; more_words = l }

abbrev pub qr_blocks : List Row
qr_blocks =
    block_row 0 0 0 0 0
    ∷ block_row 10 1 16 0 0
    ∷ block_row 16 1 28 0 0
    ∷ block_row 26 1 44 0 0
    ∷ block_row 18 2 32 0 0
    ∷ block_row 24 2 43 0 0
    ∷ block_row 16 4 27 0 0
    ∷ block_row 18 4 31 0 0
    ∷ block_row 22 2 38 2 39
    ∷ block_row 22 3 36 2 37
    ∷ block_row 26 4 43 1 44
    ∷ block_row 30 1 50 4 51
    ∷ block_row 22 6 36 2 37
    ∷ block_row 22 8 37 1 38
    ∷ block_row 24 4 40 5 41
    ∷ block_row 24 5 41 5 42
    ∷ block_row 28 7 45 3 46
    ∷ block_row 28 10 46 1 47
    ∷ block_row 26 9 43 4 44
    ∷ block_row 26 3 44 11 45
    ∷ block_row 26 3 41 13 42
    ∷ []

-- `qrBlocks[v]`; every version is within the table.
abbrev row_at : ℕ → List Row → Row
row_at v [] = block_row 0 0 0 0 0
row_at zero (r ∷ rs) = r
row_at (suc v) (r ∷ rs) = row_at v rs

unfoldable pub row_of : ℕ → Row
row_of v = row_at v qr_blocks

unfoldable pub data_codewords : ℕ → ℕ
unfolding row_of
data_codewords v =
    (row_of v).blocks * (row_of v).words + (row_of v).more_blocks * (row_of v).more_words

-- Numbers are at least 0 here: what is taken away is smaller, for every version.
unfoldable pub raw_modules : ℕ → ℕ
raw_modules v =
    let n = (16 * v + 128) * v + 64 in
    let align = v / 7 + 2 in
    let n' = n - ((25 * align - 10) * align - 55) in
    if leb 2 v then (if leb 7 v then n' - 36 else n') else n

-- `(z << 1) ^ ((z >> 7) * 0x11D)`.
unfoldable pub shifted_left : ℕ → ℕ
shifted_left z = bit_xor (z * 2) (z / 2 ^ 7 * 0x11D)

-- `int(y) >> i & 1`.
unfoldable pub bit_at : ℕ → ℕ → ℕ
bit_at y i = y / 2 ^ i % 2

-- The loop, with as many rounds left as the count, and `z` so far.
unfoldable pub mul_loop : ℕ → ℕ → ℕ → ℕ → ℕ
unfolding shifted_left bit_at
mul_loop zero x y z = z
mul_loop (suc i) x y z = mul_loop i x y (bit_xor (shifted_left z) (bit_at y i * x))

unfoldable pub mul : ℕ → ℕ → ℕ
unfolding mul_loop
mul x y = mul_loop 8 x y 0 % 2 ^ 8

-- The inner loop: an element is multiplied by `root`, and the one after it, not yet changed, added.
unfoldable pub times_root : ℕ → List ℕ → List ℕ
unfolding mul
times_root root [] = []
times_root root (o ∷ []) = mul o root ∷ []
times_root root (o ∷ p ∷ out) = bit_xor (mul o root) p ∷ times_root root (p ∷ out)

unfoldable pub divisor_loop : ℕ → ℕ → List ℕ → List ℕ
unfolding times_root mul
divisor_loop zero root out = out
divisor_loop (suc i) root out = divisor_loop i (mul root 2) (times_root root out)

unfoldable pub divisor : ℕ → List ℕ
unfolding divisor_loop
divisor n = divisor_loop n 1 (replicate (n - 1) 0 ++ (1 ∷ []))

-- `out[i] ^= qrMul(divisor[i], factor)` for every `i` of `out`.
unfoldable pub add_multiple : ℕ → List ℕ → List ℕ → List ℕ
unfolding mul
add_multiple factor [] div = []
add_multiple factor (o ∷ out) [] = o ∷ out
add_multiple factor (o ∷ out) (d ∷ div) = bit_xor o (mul d factor) ∷ add_multiple factor out div

-- One byte: `out` moves on by one place, with zero at its end.
unfoldable pub take_byte : List ℕ → ℕ → List ℕ → List ℕ
unfolding add_multiple
take_byte div b [] = []
take_byte div b (o ∷ out) = add_multiple (bit_xor b o) (out ++ (0 ∷ [])) div

unfoldable pub remainder_loop : List ℕ → List ℕ → List ℕ → List ℕ
unfolding take_byte
remainder_loop div [] out = out
remainder_loop div (b ∷ bytes) out = remainder_loop div bytes (take_byte div b out)

unfoldable pub remainder : List ℕ → List ℕ → List ℕ
unfolding remainder_loop
remainder bytes div = remainder_loop div bytes (replicate (length div) 0)

-- `data[at:at+k]`, `n` times, `at` moving on.
unfoldable pub group_blocks : ℕ → ℕ → ℕ → List ℕ → List (List ℕ)
group_blocks zero k at' bytes = []
group_blocks (suc n) k at' bytes = take k (drop at' bytes) ∷ group_blocks n k (at' + k) bytes

unfoldable pub blocks_of : Row → List ℕ → List (List ℕ)
unfolding group_blocks
blocks_of b bytes =
    group_blocks b.blocks b.words 0 bytes
    ++ group_blocks b.more_blocks b.more_words (b.blocks * b.words) bytes

-- `blk[i]`, where the block has it.
abbrev word_at : ℕ → List ℕ → List ℕ
word_at i [] = []
word_at zero (w ∷ block) = w ∷ []
word_at (suc i) (w ∷ block) = word_at i block

unfoldable pub column : ℕ → List (List ℕ) → List ℕ
column i [] = []
column i (block ∷ blocks) = word_at i block ++ column i blocks

-- The loop over `i`, with as many rounds left as the count.
unfoldable pub columns : ℕ → ℕ → List (List ℕ) → List ℕ
unfolding column
columns zero i blocks = []
columns (suc n) i blocks = column i blocks ++ columns n (suc i) blocks

-- Every remainder has `ec` words, so that `r[i]` is there.
unfoldable pub interleave : ℕ → List ℕ → List ℕ
unfolding row_of divisor blocks_of columns remainder
interleave v bytes =
    let b = row_of v in
    let blocks = blocks_of b bytes in
    columns (max b.more_words b.words) 0 blocks
    ++ columns b.ec 0 (map (λ block. remainder block (divisor b.ec)) blocks)
