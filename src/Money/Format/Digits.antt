-- ===== src/Money/Format/Digits.antt =====
-- What `itoa` and `pad2` write: digits, which read back as the number.
use native.Mathlib.Decide.{dec_lt}
use native.Mathlib.Nat.{pow-suc}
use free_sms.Common.{
  ℕ, zero, suc, ◌+◌, ◌*◌, ◌/◌, ◌%◌, ◌^◌, ◌≤◌, ◌<◌, ◌≡◌, ◌≢◌, refl, sym, ap, ◌∙◌, Bool, true, [],
  ◌∷◌, ◌++◌, some, arith, ltb, ◌==◌, ◌&&◌, ==_iff, length, All, Bool-cases, inl, inr,
}
use free_sms.Common.Int.{pos, negsuc, rem64, quot64-pos, neg64-negsuc}
use free_sms.Common.Text.{Text, scan, parse_int}
use free_sms.Common.Text.Laws.{IsDigit, parse_int-digits}
use free_sms.Money.Format.{fill, itoa, pad2, sign_of, magnitude, format}

scan-digit : (m d : ℕ) (b : Text) → d < 10 → scan m ((b'0' + d) ∷ b) ≡ scan (m * 10 + d) b
unfolding scan
scan-digit m d b h = ground arith

-- Reading on from what was filled in gives the number and then the rest.
pub scan-fill : (room n : ℕ) (b : Text) → n < 10 ^ room → scan 0 (fill room n b) ≡ scan n b
unfolding fill
scan-fill zero n b h = ap (λ m. scan m b) (omega arith)
scan-fill (suc room) n b h = elim (Bool-cases (n == 0)) [
  | inl e ↦ rw e (ap (λ m. scan m b) (sym ((==_iff n 0).0 e)))
  | inr e ↦
      let small : n < 10 ^ room * 10 = rw (pow-suc 10 room) at h in
      rw
        (
          e,
          scan-fill room (n / 10) ((b'0' + n % 10) ∷ b) (omega arith),
          scan-digit (n / 10) (n % 10) b (omega arith),
        )
        (ap (λ m. scan m b) (omega arith))
]

pub fill-digits : (room n : ℕ) (b : Text) → All IsDigit b → All IsDigit (fill room n b)
unfolding fill
fill-digits zero n b h = h
fill-digits (suc room) n b h = elim (Bool-cases (n == 0)) [
  | inl e ↦ rw e h
  | inr e ↦ rw e (fill-digits room (n / 10) ((b'0' + n % 10) ∷ b) (omega arith, h))
]

-- What was there stays at the end, and there is a digit before it if the number is not 0.
fill-length : (room n : ℕ) (b : Text) → length b ≤ length (fill room n b)
unfolding fill
fill-length zero n b = omega arith
fill-length (suc room) n b = ground (arith, fill-length room (n / 10) ((b'0' + n % 10) ∷ b))

fill-length_pos : (room n : ℕ) (b : Text) → 0 < n → length b < length (fill (suc room) n b)
unfolding fill
fill-length_pos room n b h = ground (arith, fill-length room (n / 10) ((b'0' + n % 10) ∷ b))

-- A text that is one or more digits and reads as `n`.
pub record Spells (n : ℕ) (s : Text) : Type 0 where
  pub digits : All IsDigit s
  pub not_empty : 0 < length s
  pub reads : scan 0 s ≡ some n

itoa-zero : Spells 0 (b'0' ∷ [])
unfolding scan
itoa-zero = record { digits = omega arith; not_empty = omega arith; reads = refl }

itoa-suc : (n : ℕ) → itoa (pos (suc n)) ≡ fill 20 (suc n) []
unfolding itoa
itoa-suc n = ground arith

scan-nil : (n : ℕ) → scan n [] ≡ some n
unfolding scan
scan-nil n = refl

-- Every number that an int64 holds is written as its digits.
pub itoa-Spells : (n : ℕ) → n < 2 ^ 64 → Spells n (itoa (pos n))
unfolding itoa
itoa-Spells zero h = itoa-zero
itoa-Spells (suc n) h = rw (itoa-suc n) (record {
  digits = fill-digits 20 (suc n) [] tt;
  not_empty = fill-length_pos 19 (suc n) [] (omega arith);
  reads = scan-fill 20 (suc n) [] (omega arith) ∙ scan-nil (suc n);
})

scan-leading_zero : (s : Text) → scan 0 (b'0' ∷ s) ≡ scan 0 s
scan-leading_zero s = scan-digit 0 0 s (omega arith)

-- Every number of two digits, checked one by one.
two_wide : ℕ → Bool
two_wide zero = true
two_wide (suc n) = (length (pad2 (pos n)) == 2) && two_wide n

two_wide-lt : (m n : ℕ) → two_wide m ≡ true → n < m → length (pad2 (pos n)) ≡ 2
unfolding two_wide
two_wide-lt zero n e h = absurd (omega arith)
two_wide-lt (suc m) n e h = elim (Bool-cases (n == m)) [
  | inl same ↦ ap (λ k. length (pad2 (pos k))) ((==_iff n m).0 same) ∙ (==_iff _ 2).0 (ground arith)
  | inr other ↦ two_wide-lt m n (ground arith) (ground arith)
]

two_wide_table : two_wide 100 ≡ true
unfolding two_wide pad2 itoa fill
two_wide_table = refl

pub length-pad2 : (n : ℕ) → n < 100 → length (pad2 (pos n)) ≡ 2
length-pad2 n h = two_wide-lt 100 n two_wide_table h

padded_Spells : (n : ℕ) (s : Text) → Spells n s → Spells n (b'0' ∷ s)
padded_Spells n s v = record {
  digits = (omega arith, v.digits);
  not_empty = omega arith;
  reads = scan-leading_zero s ∙ v.reads;
}

pub pad2-Spells : (n : ℕ) → n < 2 ^ 64 → Spells n (pad2 (pos n))
unfolding pad2
pad2-Spells n h = elim (Bool-cases (ltb (n + 0) 10)) [
  | inl e ↦ rw e (padded_Spells n (itoa (pos n)) (itoa-Spells n h))
  | inr e ↦ rw e (itoa-Spells n h)
]

-- What reads as a number below 2^63 is what `ParseInt` gives.
pub parse_int-Spells : (n : ℕ) (s : Text) → n < 2 ^ 63 → Spells n s → parse_int s ≡ some (pos n)
parse_int-Spells n [] h v = absurd (omega (arith, v.not_empty))
parse_int-Spells n (c ∷ s) h v = rw (parse_int-digits c s v.digits.0, v.reads) (ground arith)

pub magnitude-pos : (n : ℕ) → (sign_of (pos n) ≡ []) × (magnitude (pos n) ≡ pos n)
unfolding sign_of magnitude
magnitude-pos n = (ground arith, ground arith)

pub magnitude-negsuc :
    (n : ℕ)
    → suc n < 2 ^ 63
    → (sign_of (negsuc n) ≡ b'-' ∷ []) × (magnitude (negsuc n) ≡ pos (suc n))
unfolding sign_of magnitude
magnitude-negsuc n h = (ground arith, rw (neg64-negsuc n h) (ground arith))

-- `Format` of a number that is not negative, and of one that is.
pub format-pos :
    (n : ℕ) → n < 2 ^ 63 → format (pos n) ≡ itoa (pos (n / 100)) ++ (b'.' ∷ pad2 (pos (n % 100)))
unfolding format rem64
format-pos n h =
    let (sign, size) = magnitude-pos n in rw (sign, size, quot64-pos n 100 (omega arith))

pub format-negsuc :
    (n : ℕ)
    → suc n < 2 ^ 63
    → format (negsuc n) ≡ b'-' ∷ (itoa (pos (suc n / 100)) ++ (b'.' ∷ pad2 (pos (suc n % 100))))
unfolding format rem64
format-negsuc n h =
    let (sign, size) = magnitude-negsuc n h in rw (sign, size, quot64-pos (suc n) 100 (omega arith))

-- There is nothing to write of 0, and the first digit written of another number is not 0.
pub fill-zero : (room : ℕ) (b : Text) → fill room 0 b ≡ b
unfolding fill
fill-zero zero b = refl
fill-zero (suc room) b = refl

abbrev pub Leads : Text → Type 0
Leads [] = ⊥
Leads (c ∷ s) = c ≢ b'0'

pub fill-Leads : (room n : ℕ) (b : Text) → 0 < n → n < 10 ^ room → Leads (fill room n b)
unfolding fill
fill-Leads zero n b h k = absurd (omega arith)
fill-Leads (suc room) n b h k =
    let small : n < 10 ^ room * 10 = rw (pow-suc 10 room) at k in
    elim (Bool-cases (n == 0)) [
      | inl e ↦ absurd (ground arith)
      | inr e ↦ rw e (elim (dec_lt 0 (n / 10)) [
        | yes more ↦ fill-Leads room (n / 10) ((b'0' + n % 10) ∷ b) more (omega arith)
        | no last ↦
            let none_left : n / 10 ≡ 0 = omega arith in
            rw (none_left, fill-zero room ((b'0' + n % 10) ∷ b)) (omega arith)
      ])
    ]

-- A number below 10^m has at most m digits.
pub fill-length_le : (room n m : ℕ) (b : Text) → n < 10 ^ m → length (fill room n b) ≤ m + length b
unfolding fill
fill-length_le zero n m b h = omega arith
fill-length_le (suc room) n zero b h = ground (arith)
fill-length_le (suc room) n (suc m) b h =
    let small : n < 10 ^ m * 10 = rw (pow-suc 10 m) at h in
    elim (Bool-cases (n == 0)) [
      | inl e ↦ rw e (omega arith)
      | inr e ↦
          rw e (omega (arith, fill-length_le room (n / 10) m ((b'0' + n % 10) ∷ b) (omega arith)))
    ]
