-- ===== src/Common/Int.antt =====
-- Signed integers over the native numbers, and the wrapping arithmetic of Go's int64 on them.
use free_sms.Common.Tests.{ltb, leb, ◌==◌, if◌then◌else◌}
use Prim.Native.Nat.{ℕ, suc, ◌+◌, ◌-◌, ◌*◌, ◌/◌, ◌%◌, ◌^◌, ◌≤◌, ◌<◌}
use mathlib.Core.Path.{◌≡◌, ap}
use mathlib.Core.Bool.{Bool}
use native.Mathlib.Omega.{arith}

-- `negsuc n` is -(n + 1).
pub data ℤ : Type 0 where
  pos : ℕ → ℤ
  negsuc : ℕ → ℤ

abbrev pub pos_part : ℤ → ℕ
pos_part (pos n) = n
pos_part (negsuc n) = 0

abbrev pub neg_part : ℤ → ℕ
neg_part (pos n) = 0
neg_part (negsuc n) = suc n

abbrev pub sub_ℕ : ℕ → ℕ → ℤ
sub_ℕ a b = if leb b a then pos (a - b) else negsuc (b - a - 1)

infixl 65 ◌+ℤ◌ ◌-ℤ◌
infix 50 ◌≤ℤ◌
unfoldable pub ◌+ℤ◌ : ℤ → ℤ → ℤ
a +ℤ b = sub_ℕ (pos_part a + pos_part b) (neg_part a + neg_part b)

unfoldable pub ◌-ℤ◌ : ℤ → ℤ → ℤ
a -ℤ b = sub_ℕ (pos_part a + neg_part b) (neg_part a + pos_part b)

abbrev pub ◌≤ℤ◌ : ℤ → ℤ → Type 0
a ≤ℤ b = pos_part a + neg_part b ≤ pos_part b + neg_part a

abbrev pub ltb_ℤ : ℤ → ℤ → Bool
ltb_ℤ a b = ltb (pos_part a + neg_part b) (pos_part b + neg_part a)

abbrev pub leb_ℤ : ℤ → ℤ → Bool
leb_ℤ a b = leb (pos_part a + neg_part b) (pos_part b + neg_part a)

abbrev pub eqb_ℤ : ℤ → ℤ → Bool
eqb_ℤ a b = pos_part a + neg_part b == pos_part b + neg_part a

-- The magnitude, and the integer of a sign and a magnitude.
abbrev pub abs : ℤ → ℕ
abs (pos n) = n
abs (negsuc n) = suc n

abbrev pub of_neg : ℕ → ℤ
of_neg n = sub_ℕ 0 n

abbrev pub neg_ℤ : ℤ → ℤ
neg_ℤ (pos n) = of_neg n
neg_ℤ (negsuc n) = pos (suc n)

infixl 70 ◌*ℤ◌
unfoldable pub ◌*ℤ◌ : ℤ → ℤ → ℤ
pos a *ℤ pos b = pos (a * b)
pos a *ℤ negsuc b = of_neg (a * suc b)
negsuc a *ℤ pos b = of_neg (suc a * b)
negsuc a *ℤ negsuc b = pos (suc a * suc b)

pub +ℤ_parts :
    (a b : ℤ)
    → pos_part (a +ℤ b) + neg_part a + neg_part b ≡ neg_part (a +ℤ b) + pos_part a + pos_part b
unfolding ◌+ℤ◌
+ℤ_parts a b = ground arith

pub -ℤ_parts :
    (a b : ℤ)
    → pos_part (a -ℤ b) + neg_part a + pos_part b ≡ neg_part (a -ℤ b) + pos_part a + neg_part b
unfolding ◌-ℤ◌
-ℤ_parts a b = ground arith

pub eq_of_parts : (a b : ℤ) → pos_part a + neg_part b ≡ pos_part b + neg_part a → a ≡ b
eq_of_parts a b h = ground arith

pub ruleset int_laws = (arith, +ℤ_parts, -ℤ_parts, eq_of_parts)

-- What int64 holds: -2^63 to 2^63 - 1.
abbrev pub Fits : ℤ → Type 0
Fits z = (pos_part z < 2 ^ 63) × (neg_part z ≤ 2 ^ 63)

-- The 64-bit pattern of an integer, and the int64 that a pattern stands for.
abbrev pub to_word : ℤ → ℕ
to_word (pos n) = n % 2 ^ 64
to_word (negsuc n) = 2 ^ 64 - 1 - n % 2 ^ 64

abbrev pub of_word : ℕ → ℤ
of_word w = if ltb w (2 ^ 63) then pos w else negsuc (2 ^ 64 - 1 - w)

unfoldable pub wrap : ℤ → ℤ
wrap z = of_word (to_word z)

unfoldable pub add64 : ℤ → ℤ → ℤ
add64 a b = wrap (a +ℤ b)

unfoldable pub sub64 : ℤ → ℤ → ℤ
sub64 a b = wrap (a -ℤ b)

unfoldable pub mul64 : ℤ → ℤ → ℤ
mul64 a b = wrap (a *ℤ b)

unfoldable pub neg64 : ℤ → ℤ
neg64 a = wrap (neg_ℤ a)

-- `/` and `%` of Go round towards zero. The divisors of the code are tested against zero first, or
-- are constants; `-2^63 / -1` wraps round.
unfoldable pub quot64 : ℤ → ℤ → ℤ
quot64 (pos a) (pos b) = wrap (pos (a / b))
quot64 (pos a) (negsuc b) = wrap (of_neg (a / suc b))
quot64 (negsuc a) (pos b) = wrap (of_neg (suc a / b))
quot64 (negsuc a) (negsuc b) = wrap (pos (suc a / suc b))

unfoldable pub rem64 : ℤ → ℤ → ℤ
rem64 (pos a) b = pos (a % abs b)
rem64 (negsuc a) b = of_neg (suc a % abs b)

pub wrap-Fits : (z : ℤ) → Fits (wrap z)
unfolding wrap
wrap-Fits z = ground arith

-- Within int64 nothing wraps.
pub wrap_id : (z : ℤ) → Fits z → wrap z ≡ z
unfolding wrap
wrap_id z h = ground arith

to_word-wrap : (z : ℤ) → to_word (wrap z) ≡ to_word z
unfolding wrap
to_word-wrap z = ground arith

to_word-add : (a b : ℤ) → to_word (a +ℤ b) ≡ (to_word a + to_word b) % 2 ^ 64
unfolding ◌+ℤ◌
to_word-add a b = ground arith

to_word-neg : (a : ℤ) → to_word (neg_ℤ a) ≡ (2 ^ 64 - to_word a) % 2 ^ 64
to_word-neg a = ground arith

-- Wrapping addition is that of the integers modulo 2^64.
pub add64_comm : (a b : ℤ) → add64 a b ≡ add64 b a
unfolding add64 ◌+ℤ◌
add64_comm a b = ground arith

add64-word : (a b : ℤ) → add64 a b ≡ of_word ((to_word a + to_word b) % 2 ^ 64)
unfolding add64 wrap
add64-word a b = ap of_word (to_word-add a b)

to_word-of_word : (w : ℕ) → w < 2 ^ 64 → to_word (of_word w) ≡ w
to_word-of_word w h = ground arith

to_word-add64 : (a b : ℤ) → to_word (add64 a b) ≡ (to_word a + to_word b) % 2 ^ 64
to_word-add64 a b = rw add64-word (to_word-of_word _ (omega arith))

pub add64_assoc : (a b c : ℤ) → add64 (add64 a b) c ≡ add64 a (add64 b c)
add64_assoc a b c =
    rw (add64-word (add64 a b) c, add64-word a (add64 b c), to_word-add64 a b, to_word-add64 b c)
      (ap of_word (omega arith))

pub add64_left_comm : (a b c : ℤ) → add64 a (add64 b c) ≡ add64 b (add64 a c)
add64_left_comm a b c = rw (← add64_assoc a b c, ← add64_assoc b a c, add64_comm a b)

pub add64_zero : (a : ℤ) → Fits a → add64 (pos 0) a ≡ a
unfolding add64 wrap ◌+ℤ◌
add64_zero a h = ground arith

-- The operations where nothing wraps.
pub add64_exact : (a b : ℤ) → Fits (a +ℤ b) → add64 a b ≡ a +ℤ b
unfolding add64
add64_exact a b h = wrap_id (a +ℤ b) h

pub sub64_exact : (a b : ℤ) → Fits (a -ℤ b) → sub64 a b ≡ a -ℤ b
unfolding sub64
sub64_exact a b h = wrap_id (a -ℤ b) h

pub mul64_exact : (a b : ℤ) → Fits (a *ℤ b) → mul64 a b ≡ a *ℤ b
unfolding mul64
mul64_exact a b h = wrap_id (a *ℤ b) h

pub neg64_exact : (a : ℤ) → Fits (neg_ℤ a) → neg64 a ≡ neg_ℤ a
unfolding neg64
neg64_exact a h = wrap_id (neg_ℤ a) h

pub add64-pos : (a b : ℕ) → a + b < 2 ^ 63 → add64 (pos a) (pos b) ≡ pos (a + b)
unfolding add64 wrap ◌+ℤ◌
add64-pos a b h = ground arith

pub mul64-pos : (a b : ℕ) → a * b < 2 ^ 63 → mul64 (pos a) (pos b) ≡ pos (a * b)
unfolding ◌*ℤ◌
mul64-pos a b h = mul64_exact (pos a) (pos b) (omega arith)

pub sub64-pos : (a b : ℕ) → a < 2 ^ 63 → b < 2 ^ 63 → sub64 (pos a) (pos b) ≡ pos a -ℤ pos b
unfolding sub64 wrap ◌-ℤ◌
sub64-pos a b h k = ground arith

pub neg64-negsuc : (a : ℕ) → suc a < 2 ^ 63 → neg64 (negsuc a) ≡ pos (suc a)
unfolding neg64 wrap
neg64-negsuc a h = ground arith

pub neg64-pos : (a : ℕ) → a < 2 ^ 63 → neg64 (pos a) ≡ of_neg a
unfolding neg64 wrap
neg64-pos a h = ground arith

pub quot64-pos : (a b : ℕ) → a / b < 2 ^ 63 → quot64 (pos a) (pos b) ≡ pos (a / b)
unfolding quot64
quot64-pos a b h = wrap_id (pos (a / b)) (omega arith)

-- The integer that a sign and a magnitude make.
pub abs-of_neg : (n : ℕ) → abs (of_neg n) ≡ n
abs-of_neg n = ground arith

pub neg_ℤ-of_neg : (n : ℕ) → neg_ℤ (of_neg n) ≡ pos n
neg_ℤ-of_neg n = ground arith

pub of_neg-suc : (n : ℕ) → of_neg (suc n) ≡ negsuc n
of_neg-suc n = ground arith

pub pos-sub : (a b : ℕ) → b ≤ a → pos a -ℤ pos b ≡ pos (a - b)
unfolding ◌-ℤ◌
pos-sub a b h = ground arith

pub of_neg-sub : (a b : ℕ) → a ≤ b → of_neg (b - a) ≡ pos a -ℤ pos b
unfolding ◌-ℤ◌
of_neg-sub a b h = ground arith

pub add64-Fits : (a b : ℤ) → Fits (add64 a b)
unfolding add64
add64-Fits a b = wrap-Fits (a +ℤ b)

-- A sum that begins at nothing.
pub add64_zero_right : (a d : ℤ) → add64 a (add64 (pos 0) d) ≡ add64 a d
add64_zero_right a d =
    rw (add64-word a (add64 (pos 0) d), add64-word a d, to_word-add64 (pos 0) d)
      (ap of_word (ground arith))
