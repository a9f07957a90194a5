-- ===== src/PayRef/Payment/Amount.antt =====
-- The parts of a code of `Swish` of internal/payref/payref.go, read back.
use free_sms.Common.{
  ℕ, zero, suc, ◌+◌, ◌-◌, ◌*◌, ◌/◌, ◌%◌, ◌^◌, ◌≤◌, ◌<◌, ◌≡◌, inl, inr, refl, ap, ◌∙◌, Bool, true,
  false, not, ◌||◌, [], ◌∷◌, ◌++◌, Option, none, some, ltb, ◌==◌, if◌then◌else◌, All, take,
  Bool-cases, arith,
}
use free_sms.Common.Text.{Text, is_digit, without}
use free_sms.Money.Format.{fill}
use free_sms.PayRef.CheckDigit.{format_int}
use free_sms.PayRef.Reference.Issued.{format_int-suc, format_int-digit}
use free_sms.PayRef.Payment.{
  contains_rune, is_allowed, keep_allowed, swish_digits, two_digits, swish_amount,
}

-- An amount as a bank reads it: kronor, and after a comma two digits of ören.
abbrev pub read_ore : ℕ → Text → Option ℕ
read_ore kronor (c ∷ d ∷ []) = some (kronor * 100 + ((c - b'0') * 10 + (d - b'0')))
read_ore kronor _ = none

unfoldable pub read_amount : ℕ → Text → Option ℕ
read_amount n [] = some (n * 100)
read_amount n (c ∷ s) =
    let rest = read_amount (n * 10 + (c - b'0')) s in if c == b',' then read_ore n s else rest

read_amount-fill :
    (room n : ℕ) (b : Text) → n < 10 ^ room → read_amount 0 (fill room n b) ≡ read_amount n b
unfolding fill read_amount
read_amount-fill zero n b h = let z : n ≡ 0 = omega arith in rw z refl
read_amount-fill (suc room) n b h = elim (Bool-cases (n == 0)) [
  | inl e ↦ let z : n ≡ 0 = ground arith in rw z refl
  | inr e ↦ rw e (
      read_amount-fill room (n / 10) ((b'0' + n % 10) ∷ b) (omega arith)
      ∙ digit (n / 10) (n % 10) n b (omega arith) (omega arith))
]
  where
    digit :
        (m d n : ℕ) (b : Text)
        → d < 10
        → m * 10 + d ≡ n
        → read_amount m ((b'0' + d) ∷ b) ≡ read_amount n b
    digit m d n b small e =
        let apart : (b'0' + d == b',') ≡ false = ground arith in
        let same : m * 10 + (b'0' + d - b'0') ≡ n = omega arith in rw (apart, same) refl

fill-append : (room n : ℕ) (b c : Text) → fill room n b ++ c ≡ fill room n (b ++ c)
unfolding fill
fill-append zero n b c = refl
fill-append (suc room) n b c = elim (Bool-cases (n == 0)) [
  | inl e ↦ rw e refl
  | inr e ↦ rw e (fill-append room (n / 10) ((b'0' + n % 10) ∷ b) c)
]

read_amount-format_int :
    (n : ℕ) (b : Text) → n < 2 ^ 63 → read_amount 0 (format_int n ++ b) ≡ read_amount n b
unfolding format_int read_amount
read_amount-format_int zero b h = refl
read_amount-format_int (suc n) b h =
    ap (λ t. read_amount 0 (t ++ b)) (format_int-suc n)
    ∙ ap (read_amount 0) (fill-append 20 (suc n) [] b)
    ∙ read_amount-fill 20 (suc n) b (omega arith)

fill_two : (n : ℕ) → 10 ≤ n → n < 100 → format_int n ≡ (b'0' + n / 10) ∷ (b'0' + n % 10) ∷ []
unfolding format_int fill
fill_two n h k =
    let some_tens : (n == 0) ≡ false = ground arith in
    let tens : (n / 10 == 0) ≡ false = ground arith in
    let over : n / 10 / 10 ≡ 0 = omega arith in
    let last : n / 10 % 10 ≡ n / 10 = omega arith in rw (some_tens, tens, over, last) refl

two_digits-eq : (n : ℕ) → n < 100 → two_digits n ≡ (b'0' + n / 10) ∷ (b'0' + n % 10) ∷ []
unfolding two_digits
two_digits-eq n h = elim (Bool-cases (ltb n 10)) [
  | inl e ↦
      let small : n < 10 = ground arith in
      let over : n / 10 ≡ 0 = omega arith in
      let last : n % 10 ≡ n = omega arith in
      rw (e, over, last) (ap (λ t. b'0' ∷ t) (format_int-digit n small))
  | inr e ↦ let big : 10 ≤ n = ground arith in rw e (fill_two n big h)
]

tail :
    (w r n : ℕ)
    → r < 100
    → w * 100 + r ≡ n
    → read_amount w (if r == 0 then [] else b',' ∷ two_digits r) ≡ some n
unfolding read_amount
tail w r n small e = elim (Bool-cases (r == 0)) [
  | inl z ↦ rw z (ap some (ground arith))
  | inr z ↦ rw (z, two_digits-eq r small) (ap some (omega arith))
]

pub swish_amount-read : (n : ℕ) → n < 2 ^ 63 → read_amount 0 (swish_amount n) ≡ some n
unfolding swish_amount read_amount
swish_amount-read n h =
    read_amount-format_int (n / 100) (if n % 100 == 0 then [] else b',' ∷ two_digits (n % 100))
      (omega arith)
    ∙ tail (n / 100) (n % 100) n (omega arith) (omega arith)

take_nothing : (m : ℕ) → [] ≡ take {A = ℕ} m []
take_nothing zero = refl
take_nothing (suc m) = refl

pub keep_allowed-take :
    (n : ℕ) (s : Text)
    → n ≤ 50
    → keep_allowed n s ≡ take (50 - n) (without (λ c. not (is_allowed c)) s)
unfolding keep_allowed without
keep_allowed-take n [] h = take_nothing (50 - n)
keep_allowed-take n (r ∷ s) h = elim (Bool-cases (is_allowed r)) [
  | inr e ↦ rw e (keep_allowed-take n s h)
  | inl e ↦ elim (Bool-cases (n == 50)) [
    | inl f ↦ let full : n ≡ 50 = ground arith in rw (e, f) (keep_allowed-take n s h ∙ rw full refl)
    | inr f ↦
        let more : 50 - n ≡ suc (50 - suc n) = ground arith in
        rw (e, f, more) (ap (λ t. r ∷ t) (keep_allowed-take (suc n) s (ground arith)))
  ]
]

-- What a number may be typed with.
abbrev pub IsTyped : ℕ → Type 0
IsTyped c = (is_digit c || ((c == b' ') || (c == b'-'))) ≡ true

head :
    (d sep : Bool) (r : ℕ) (rest : Text)
    → contains_rune (if d then r ∷ rest else if sep then rest else b'x' ∷ rest) b'x' ≡ false
    → (contains_rune rest b'x' ≡ false) × ((d || sep) ≡ true)
head d sep r rest h = ground arith

kept :
    (d sep : Bool) (r : ℕ) (s t : Text)
    → d || sep ≡ true
    → s ≡ t
    → (if d then r ∷ s else if sep then s else b'x' ∷ s) ≡ (if not d then t else r ∷ t)
kept true sep r s t h e = ap (λ u. r ∷ u) e
kept false true r s t h e = e
kept false false r s t h e = absurd cc

pub swish_digits-IsTyped :
    (s : Text)
    → contains_rune (swish_digits s) b'x' ≡ false
    → (swish_digits s ≡ without (λ c. not (is_digit c)) s) × All IsTyped s
unfolding swish_digits without
swish_digits-IsTyped [] h = (refl, tt)
swish_digits-IsTyped (r ∷ s) h =
    let (apart, fit) = head (is_digit r) ((r == b' ') || (r == b'-')) r (swish_digits s) h in
    let (same, rest) = swish_digits-IsTyped s apart in
    (
      kept (is_digit r) ((r == b' ') || (r == b'-')) r (swish_digits s)
          (without (λ c. not (is_digit c)) s) fit same,
      (fit, rest),
    )
