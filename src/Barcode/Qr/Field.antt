-- ===== src/Barcode/Qr/Field.antt =====
-- The multiplication of internal/barcode/qr.go: linear in its first argument.
use Prim.Native.Nat.{bit_xor}
use free_sms.Common.{
  ℕ, zero, suc, ◌*◌, ◌/◌, ◌%◌, ◌^◌, ◌<◌, ◌≡◌, refl, sym, ◌⊎◌, inl, inr, ltb, ◌==◌, ==_iff,
  all_below, all_below-at, true, arith,
}
use free_sms.Common.Bits.{
  zero-bit_xor, bit_xor-zero, bit_xor_self, bit_xor-half, bit_xor-double, bit_xor-lt, swap_inner,
  digit,
}
use free_sms.Barcode.Qr.{shifted_left, bit_at, mul_loop, mul}

abbrev halves : ℕ → ℕ → ℕ
halves zero x = x
halves (suc k) x = halves k (x / 2)

halves_xor : (k a b : ℕ) → halves k (bit_xor a b) ≡ bit_xor (halves k a) (halves k b)
halves_xor zero a b = refl
halves_xor (suc k) a b = rw (bit_xor-half a b) (halves_xor k (a / 2) (b / 2))

halves_7 : (a : ℕ) → halves 7 a ≡ a / 2 ^ 7
halves_7 a = omega arith

top_xor : (a b : ℕ) → bit_xor a b / 2 ^ 7 ≡ bit_xor (a / 2 ^ 7) (b / 2 ^ 7)
top_xor a b = cc (halves_xor 7 a b, halves_7 a, halves_7 b, halves_7 (bit_xor a b))

top_digit : (a : ℕ) → a < 256 → (a / 2 ^ 7 ≡ 0) ⊎ (a / 2 ^ 7 ≡ 1)
top_digit a h = ground arith

one_times : (x : ℕ) → 1 * x ≡ x
one_times x = omega arith

zero_times : (x : ℕ) → 0 * x ≡ 0
zero_times x = omega arith

-- A digit times a sum is the sum of the products.
digit_times : (d x y : ℕ) → (d ≡ 0) ⊎ (d ≡ 1) → d * bit_xor x y ≡ bit_xor (d * x) (d * y)
digit_times d x y (inl e) = rw (e, zero_times x, zero_times y, zero_times (bit_xor x y)) refl
digit_times d x y (inr e) = rw (e, one_times (bit_xor x y), one_times x, one_times y)

-- A sum of digits times a number is the sum of the products.
digits_times :
    (d e c : ℕ) → (d ≡ 0) ⊎ (d ≡ 1) → (e ≡ 0) ⊎ (e ≡ 1) → bit_xor d e * c ≡ bit_xor (d * c) (e * c)
digits_times d e c (inl p) (inl q) = rw (p, q, zero_times c) refl
digits_times d e c (inl p) (inr q) =
    rw (p, q, zero-bit_xor 1, one_times c, zero_times c, zero-bit_xor c) refl
digits_times d e c (inr p) (inl q) =
    rw (p, q, bit_xor-zero 1, one_times c, zero_times c, bit_xor-zero c) refl
digits_times d e c (inr p) (inr q) =
    rw (p, q, bit_xor_self 1, one_times c, bit_xor_self c, zero_times c) refl

shifted_left_xor :
    (a b : ℕ)
    → a < 256
    → b < 256
    → shifted_left (bit_xor a b) ≡ bit_xor (shifted_left a) (shifted_left b)
unfolding shifted_left
shifted_left_xor a b p q = cc (
  bit_xor-double a b,
  top_xor a b,
  digits_times (a / 2 ^ 7) (b / 2 ^ 7) 0x11D (top_digit a p) (top_digit b q),
  swap_inner (a * 2) (b * 2) (a / 2 ^ 7 * 0x11D) (b / 2 ^ 7 * 0x11D),
)

shifted_left_table : all_below 256 (λ z. ltb (shifted_left z) 256) ≡ true
unfolding shifted_left
shifted_left_table = refl

shifted_left-lt : (z : ℕ) → z < 256 → shifted_left z < 256
shifted_left-lt z h =
    ground (arith, all_below-at 256 z (λ z. ltb (shifted_left z) 256) shifted_left_table h)

bit_at-digit : (y i : ℕ) → (bit_at y i ≡ 0) ⊎ (bit_at y i ≡ 1)
unfolding bit_at
bit_at-digit y i = digit (y / 2 ^ i)

bit_times-lt : (y i x : ℕ) → x < 256 → bit_at y i * x < 256
bit_times-lt y i x h = elim (bit_at-digit y i) [
  | inl e ↦ rw (e, zero_times x) (omega arith)
  | inr e ↦ rw (e, one_times x) h
]

-- A map of bytes that keeps sums and doubling.
pub record IsLinear (f : ℕ → ℕ) : Type 0 where
  pub keeps_xor : (a b : ℕ) → a < 256 → b < 256 → f (bit_xor a b) ≡ bit_xor (f a) (f b)
  pub keeps_shifted : (a : ℕ) → a < 256 → f (shifted_left a) ≡ shifted_left (f a)
  pub is_byte : (a : ℕ) → a < 256 → f a < 256

round-lt : (x y i z : ℕ) → x < 256 → z < 256 → bit_xor (shifted_left z) (bit_at y i * x) < 256
round-lt x y i z p q =
    bit_xor-lt 8 (shifted_left z) (bit_at y i * x) (shifted_left-lt z q) (bit_times-lt y i x p)

mul_loop-lt : (n x y z : ℕ) → x < 256 → z < 256 → mul_loop n x y z < 256
unfolding mul_loop
mul_loop-lt zero x y z p q = q
mul_loop-lt (suc i) x y z p q =
    mul_loop-lt i x y (bit_xor (shifted_left z) (bit_at y i * x)) p (round-lt x y i z p q)

module _ (f : ℕ → ℕ) (linear : IsLinear f) where
  linear_zero : f 0 ≡ 0
  linear_zero =
      let e = linear.keeps_xor 0 0 (omega arith) (omega arith) in rw e (bit_xor_self (f 0))

  linear_digit : (d x : ℕ) → (d ≡ 0) ⊎ (d ≡ 1) → f (d * x) ≡ d * f x
  linear_digit d x (inl e) = rw (e, zero_times x, zero_times (f x)) linear_zero
  linear_digit d x (inr e) = rw (e, one_times x, one_times (f x)) refl

  linear_loop : (n x y z : ℕ) → x < 256 → z < 256 → f (mul_loop n x y z) ≡ mul_loop n (f x) y (f z)
  unfolding mul_loop
  linear_loop zero x y z p q = refl
  linear_loop (suc i) x y z p q = cc (
    linear_loop i x y (bit_xor (shifted_left z) (bit_at y i * x)) p (round-lt x y i z p q),
    linear.keeps_xor (shifted_left z) (bit_at y i * x) (shifted_left-lt z q) (bit_times-lt y i x p),
    linear.keeps_shifted z q,
    linear_digit (bit_at y i) x (bit_at-digit y i),
  )

  -- A linear map commutes with a multiplication.
  pub linear-mul : (x y : ℕ) → x < 256 → f (mul x y) ≡ mul (f x) y
  unfolding mul
  linear-mul x y p = cc (
    linear_loop 8 x y 0 p (omega arith),
    linear_zero,
    byte_same (mul_loop 8 x y 0) (mul_loop-lt 8 x y 0 p (omega arith)),
    byte_same (mul_loop 8 (f x) y 0) (mul_loop-lt 8 (f x) y 0 (linear.is_byte x p) (omega arith)),
  )
    where
      byte_same : (z : ℕ) → z < 256 → z % 2 ^ 8 ≡ z
      byte_same z h = omega arith

shifted_left-IsLinear : IsLinear shifted_left
shifted_left-IsLinear = record {
  keeps_xor = shifted_left_xor;
  keeps_shifted = λ a h. refl;
  is_byte = shifted_left-lt;
}

mul_loop_xor :
    (n x w y z v : ℕ)
    → x < 256
    → w < 256
    → z < 256
    → v < 256
    → mul_loop n (bit_xor x w) y (bit_xor z v) ≡ bit_xor (mul_loop n x y z) (mul_loop n w y v)
unfolding mul_loop
mul_loop_xor zero x w y z v p q r s = refl
mul_loop_xor (suc i) x w y z v p q r s = cc (
  mul_loop_xor i x w y (bit_xor (shifted_left z) (bit_at y i * x))
      (bit_xor (shifted_left v) (bit_at y i * w)) p q (round-lt x y i z p r) (round-lt w y i v q s),
  shifted_left_xor z v r s,
  digit_times (bit_at y i) x w (bit_at-digit y i),
  swap_inner (shifted_left z) (shifted_left v) (bit_at y i * x) (bit_at y i * w),
)

pub mul-lt : (x y : ℕ) → mul x y < 256
unfolding mul
mul-lt x y = omega arith

mul_loop_byte : (x y : ℕ) → x < 256 → mul x y ≡ mul_loop 8 x y 0
unfolding mul
mul_loop_byte x y h = let lt = mul_loop-lt 8 x y 0 h (omega arith) in omega arith

pub mul-IsLinear : (y : ℕ) → IsLinear (λ x. mul x y)
mul-IsLinear y = record {
  keeps_xor = λ a b p q. cc (
    mul_loop_byte (bit_xor a b) y (bit_xor-lt 8 a b p q),
    mul_loop_byte a y p,
    mul_loop_byte b y q,
    mul_loop_xor 8 a b y 0 0 p q (omega arith) (omega arith),
    zero-bit_xor 0,
  );
  keeps_shifted = λ a h. sym (linear-mul shifted_left shifted_left-IsLinear a y h);
  is_byte = λ a h. mul-lt a y;
}

-- The order of two multiplications does not matter.
pub mul_swap : (x y z : ℕ) → x < 256 → mul (mul x y) z ≡ mul (mul x z) y
mul_swap x y z h = sym (linear-mul (λ x. mul x y) (mul-IsLinear y) x z h)

one_table : all_below 256 (λ z. mul 1 z == z) ≡ true
unfolding mul
one_table = refl

pub one-mul : (z : ℕ) → z < 256 → mul 1 z ≡ z
one-mul z h = (==_iff (mul 1 z) z).0 (all_below-at 256 z (λ z. mul 1 z == z) one_table h)

pub zero-mul : (y : ℕ) → mul 0 y ≡ 0
zero-mul y = linear_zero (λ x. mul x y) (mul-IsLinear y)
