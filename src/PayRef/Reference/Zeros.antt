-- ===== src/PayRef/Reference/Zeros.antt =====
-- How `CheckOCR` of internal/payref/payref.go reads a reference with any number of leading zeros.
use mathlib.Core.List.{reverse-append}
use free_sms.Common.{
  ℕ, zero, suc, ◌+◌, ◌-◌, ◌%◌, ◌≤◌, ◌<◌, ◌≡◌, refl, ap, subst, ◌∙◌, true, false, [], ◌∷◌, ◌++◌,
  append_assoc, reverse, arith, ◌==◌, ==_iff, length, length-append, All, All-append,
}
use free_sms.Common.Text.{Text, byte_len, is_digit}
use free_sms.Common.Text.Laws.{IsDigit, byte_len-digits}
use free_sms.Money.Format.Digits.{Leads}
use free_sms.PayRef.CheckDigit.{check_digit}
use free_sms.PayRef.Reference.{ok, clean, all_digits, check_matches, choose_reference, check_ocr}
use free_sms.PayRef.Reference.Issued.{
  check_digit-zeros, reverse-two, check_matches-end, trim_left-zeros, length_digit_fits-end, zeros,
  length_digit,
}

all_digits-true : (s : Text) → All IsDigit s → all_digits s ≡ true
unfolding all_digits is_digit
all_digits-true [] _ = refl
all_digits-true (c ∷ s) (h, hs) = ground (arith, all_digits-true s hs)

zeros_digits : (k : ℕ) → All IsDigit (zeros k)
zeros_digits zero = tt
zeros_digits (suc k) = (omega arith, zeros_digits k)

length-zeros : (k : ℕ) → length (zeros k) ≡ k
length-zeros zero = refl
length-zeros (suc k) = ap suc (length-zeros k)

pub Leads-append : (s t : Text) → Leads s → Leads (s ++ t)
Leads-append [] t h = absurd h
Leads-append (c ∷ s) t h = h

Leads-length : (s : Text) → Leads s → 0 < length s
Leads-length [] h = absurd h
Leads-length (c ∷ s) h = omega arith

check_digit-IsDigit : (s : Text) → IsDigit (check_digit s)
unfolding check_digit
check_digit-IsDigit s = omega arith

-- A reference without its leading zeros: digits, of which the first is not 0, and the last two are
-- a length digit and the check digit.
module _ (x : Text) (l : ℕ) (digits : All IsDigit x) (leads : Leads x) (l_digit : IsDigit l) where
  abbrev pub bare : Text
  bare = x ++ (l ∷ check_digit (x ++ (l ∷ [])) ∷ [])

  bare_digits : All IsDigit bare
  bare_digits = All-append _ x _ digits (l_digit, (check_digit-IsDigit (x ++ (l ∷ [])), tt))

  -- Whatever leading zeros were typed, `CheckOCR` comes to choose between the two references.
  pub check_ocr-zeros :
      (typed : Text) (k : ℕ)
      → clean typed ≡ zeros k ++ bare
      → k + length bare ≤ 25
      → check_ocr typed ≡ choose_reference bare
  unfolding check_ocr
  check_ocr-zeros typed k e short =
      let c = check_digit (x ++ (l ∷ [])) in
      let all : All IsDigit (zeros k ++ bare) =
        All-append _ (zeros k) bare (zeros_digits k) bare_digits in
      let size : byte_len (zeros k ++ bare) ≡ k + length bare =
        byte_len-digits (zeros k ++ bare) all
        ∙ length-append (zeros k) bare
        ∙ ap (λ n. n + length bare) (length-zeros k) in
      let enough : length bare ≡ length x + 2 = length-append x (l ∷ c ∷ []) in
      let matches : check_matches (reverse (zeros k ++ bare)) ≡ true =
        subst (λ s. check_matches (reverse s) ≡ true) (append_assoc (zeros k) x (l ∷ c ∷ []))
          (check_matches-end (zeros k ++ x) l c
            (rw (append_assoc (zeros k) x (l ∷ [])) (check_digit-zeros k (x ++ (l ∷ []))))) in
      rw
        (
          e,
          all_digits-true (zeros k ++ bare) all,
          matches,
          trim_left-zeros k bare (Leads-append x _ leads),
          size,
        )
        (ground arith)

  bare-length : (length bare ≡ length x + 2) × (3 ≤ length bare)
  bare-length =
      let enough : length bare ≡ length x + 2 =
        length-append x (l ∷ check_digit (x ++ (l ∷ [])) ∷ []) in
      (enough, omega (arith, Leads-length x leads))

  pub choose-default : l ≡ length_digit x → length bare ≤ 25 → choose_reference bare ≡ ok bare
  unfolding choose_reference
  choose-default e short =
      let (size, least) = bare-length in
      let fits : (l - b'0' == length bare % 10) ≡ true = (==_iff _ _).1 (omega arith) in
      rw (
        reverse-two x l (check_digit (x ++ (l ∷ []))),
        length_digit_fits-end bare (reverse x) l (check_digit (x ++ (l ∷ []))) least short,
        fits,
      )

  pub choose-other :
      l ≡ b'0' + (length x + 3) % 10
      → length bare + 1 ≤ 25
      → choose_reference bare ≡ ok (b'0' ∷ bare)
  unfolding choose_reference
  choose-other e short =
      let c = check_digit (x ++ (l ∷ [])) in
      let (size, least) = bare-length in
      let misfits : (l - b'0' == length bare % 10) ≡ false = ground arith in
      let fits : (l - b'0' == length (b'0' ∷ bare) % 10) ≡ true = (==_iff _ _).1 (omega arith) in
      rw (
        reverse-append (b'0' ∷ []) bare,
        reverse-two x l c,
        length_digit_fits-end bare (reverse x) l c least (omega arith),
        misfits,
        length_digit_fits-end (b'0' ∷ bare) (reverse x ++ (b'0' ∷ [])) l c (omega arith)
            (omega arith),
        fits,
      )
