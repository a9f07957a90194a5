-- ===== src/PayRef/CheckDigit/Errors.antt =====
-- What the check digit catches.
use free_sms.Common.{
  ℕ, ◌+◌, ◌-◌, ◌%◌, ◌≤◌, ◌≡◌, ◌⊎◌, append_assoc, refl, Bool, true, false, not, [], ◌∷◌, ◌++◌,
  reverse, arith,
}
use mathlib.Core.List.{reverse-append}
use free_sms.Common.Text.{Text}
use free_sms.Common.Text.Laws.{IsDigit}
use free_sms.PayRef.CheckDigit.{digit_value, doubled, luhn_sum, check_digit}

-- The weighted value of one digit.
abbrev pub weigh : Bool → ℕ → ℕ
weigh true d = doubled d
weigh false d = d

-- No two digits weigh the same, and none weighs more than nine.
weigh_inj :
    (b : Bool) (c d : ℕ)
    → IsDigit c
    → IsDigit d
    → weigh b (digit_value c) ≡ weigh b (digit_value d)
    → c ≡ d
unfolding doubled digit_value
weigh_inj true c d hc hd e = ground arith
weigh_inj false c d hc hd e = ground arith

weigh_le : (b : Bool) (c : ℕ) → IsDigit c → weigh b (digit_value c) ≤ 9
unfolding doubled digit_value
weigh_le true c h = ground arith
weigh_le false c h = ground arith

abbrev flips : Bool → Text → Bool
flips b [] = b
flips b (c ∷ s) = flips (not b) s

luhn_sum-append :
    (b : Bool) (s t : Text) → luhn_sum b (s ++ t) ≡ luhn_sum b s + luhn_sum (flips b s) t
unfolding luhn_sum
luhn_sum-append b [] t = omega arith
luhn_sum-append b (c ∷ s) t = omega (arith, luhn_sum-append (not b) s t)

pub luhn_sum-cons :
    (b : Bool) (c : ℕ) (s : Text)
    → luhn_sum b (c ∷ s) ≡ weigh b (digit_value c) + luhn_sum (not b) s
unfolding luhn_sum
luhn_sum-cons true c s = refl
luhn_sum-cons false c s = refl

-- One digit mistyped anywhere changes the sum modulo ten.
luhn_sum-single :
    (b : Bool) (s t : Text) (c d : ℕ)
    → IsDigit c
    → IsDigit d
    → luhn_sum b (s ++ (c ∷ t)) % 10 ≡ luhn_sum b (s ++ (d ∷ t)) % 10
    → c ≡ d
luhn_sum-single b s t c d hc hd e = weigh_inj (flips b s) c d hc hd (
    omega (
      arith,
      luhn_sum-append b s (c ∷ t),
      luhn_sum-append b s (d ∷ t),
      luhn_sum-cons (flips b s) c t,
      luhn_sum-cons (flips b s) d t,
      weigh_le (flips b s) c hc,
      weigh_le (flips b s) d hd,
    ))

pair :
    (b : Bool) (c d : ℕ)
    → IsDigit c
    → IsDigit d
    → (weigh b (digit_value c) + weigh (not b) (digit_value d)) % 10
      ≡ (weigh b (digit_value d) + weigh (not b) (digit_value c)) % 10
    → (c ≡ d) ⊎ ((c ≡ b'0') × (d ≡ b'9')) ⊎ ((c ≡ b'9') × (d ≡ b'0'))
unfolding doubled digit_value
pair true c d hc hd e = ground arith
pair false c d hc hd e = ground arith

-- Two neighbours of different value that swap places change it too, but for 0 and 9.
luhn_sum-swap :
    (b : Bool) (s t : Text) (c d : ℕ)
    → IsDigit c
    → IsDigit d
    → luhn_sum b (s ++ (c ∷ d ∷ t)) % 10 ≡ luhn_sum b (s ++ (d ∷ c ∷ t)) % 10
    → (c ≡ d) ⊎ ((c ≡ b'0') × (d ≡ b'9')) ⊎ ((c ≡ b'9') × (d ≡ b'0'))
luhn_sum-swap b s t c d hc hd e = pair (flips b s) c d hc hd (
    omega (
      arith,
      luhn_sum-append b s (c ∷ d ∷ t),
      luhn_sum-append b s (d ∷ c ∷ t),
      luhn_sum-cons (flips b s) c (d ∷ t),
      luhn_sum-cons (not (flips b s)) d t,
      luhn_sum-cons (flips b s) d (c ∷ t),
      luhn_sum-cons (not (flips b s)) c t,
    ))

reverse-middle : (s t : Text) (c : ℕ) → reverse (s ++ (c ∷ t)) ≡ reverse t ++ (c ∷ reverse s)
reverse-middle s t c =
    rw (reverse-append s (c ∷ t), reverse-append (c ∷ []) t)
      (append_assoc (reverse t) (c ∷ []) (reverse s))

reverse-two : (s t : Text) (c d : ℕ) → reverse (s ++ (c ∷ d ∷ t)) ≡ reverse t ++ (d ∷ c ∷ reverse s)
reverse-two s t c d =
    rw (reverse-middle s (d ∷ t) c, reverse-append (d ∷ []) t)
      (append_assoc (reverse t) (d ∷ []) (c ∷ reverse s))

same_sum : (x y : ℕ) → b'0' + (10 - x % 10) % 10 ≡ b'0' + (10 - y % 10) % 10 → x % 10 ≡ y % 10
same_sum x y h = omega arith

-- A reference in which one digit is mistyped, wherever it stands, has another check digit.
pub check_digit-single :
    (s t : Text) (c d : ℕ)
    → IsDigit c
    → IsDigit d
    → check_digit (s ++ (c ∷ t)) ≡ check_digit (s ++ (d ∷ t))
    → c ≡ d
unfolding check_digit
check_digit-single s t c d hc hd e =
    luhn_sum-single true (reverse t) (reverse s) c d hc hd
      (same_sum _ _ (rw (reverse-middle s t c, reverse-middle s t d) at e))

-- So has one in which two neighbouring digits are swapped, unless they are the same or 0 and 9.
pub check_digit-swap :
    (s t : Text) (c d : ℕ)
    → IsDigit c
    → IsDigit d
    → check_digit (s ++ (c ∷ d ∷ t)) ≡ check_digit (s ++ (d ∷ c ∷ t))
    → (c ≡ d) ⊎ ((c ≡ b'0') × (d ≡ b'9')) ⊎ ((c ≡ b'9') × (d ≡ b'0'))
unfolding check_digit
check_digit-swap s t c d hc hd e =
    let same = rw (reverse-two s t c d, reverse-two s t d c) at e in
    let swapped = luhn_sum-swap true (reverse t) (reverse s) d c hd hc (same_sum _ _ same) in
    ground arith
