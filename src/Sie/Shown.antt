-- ===== src/Sie/Shown.antt =====
-- What internal/sie writes in a line has no control characters: numbers, amounts, days and fields.
use free_sms.Common.{
  ℕ, ◌+◌, ◌≤◌, Bool, true, false, ◌&&◌, [], ◌∷◌, ◌++◌, map, ltb, ◌==◌, if◌then◌else◌, All,
  All-append, arith,
}
use free_sms.Common.Int.{ℤ, pos, negsuc, quot64, rem64, neg64, ltb_ℤ, leb_ℤ}
use free_sms.Common.Text.{Text}
use free_sms.Common.Text.Laws.{IsDigit, All-mono}
use free_sms.PayRef.CheckDigit.{format_int}
use free_sms.PayRef.Reference.Issued.{format_int-digits}
use free_sms.Sie.{plain_char, escape, quote, show_int, show_two, sie_amount, Day, wide, format_day}

-- Not a control character.
abbrev pub IsShown : ℕ → Type 0
IsShown c = 32 ≤ c

pub digits-IsShown : (s : Text) → All IsDigit s → All IsShown s
digits-IsShown s h = All-mono s (λ c d. omega arith) h

pub format_int-IsShown : (n : ℕ) → All IsShown (format_int n)
format_int-IsShown n = digits-IsShown (format_int n) (format_int-digits n)

pub show_int-IsShown : (n : ℤ) → All IsShown (show_int n)
unfolding show_int
show_int-IsShown (pos n) = format_int-IsShown n
show_int-IsShown (negsuc n) = (omega arith, format_int-IsShown (n + 1))

pub either-IsShown :
    (b : Bool) (s t : Text) → All IsShown s → All IsShown t → All IsShown (if b then s else t)
either-IsShown true s t hs ht = hs
either-IsShown false s t hs ht = ht

pub show_two-IsShown : (n : ℤ) → All IsShown (show_two n)
unfolding show_two
show_two-IsShown n =
    either-IsShown (leb_ℤ (pos 0) n && ltb_ℤ n (pos 10)) _ _ (omega arith, show_int-IsShown n)
      (show_int-IsShown n)

pub decimals-IsShown :
    (m : ℤ) → All IsShown (show_int (quot64 m (pos 100)) ++ (b'.' ∷ show_two (rem64 m (pos 100))))
decimals-IsShown m =
    All-append IsShown (show_int (quot64 m (pos 100))) _ (show_int-IsShown (quot64 m (pos 100)))
      (omega arith, show_two-IsShown (rem64 m (pos 100)))

pub sie_amount-IsShown : (n : ℤ) → All IsShown (sie_amount n)
unfolding sie_amount
sie_amount-IsShown n =
    either-IsShown (ltb_ℤ n (pos 0)) _ _ (omega arith, decimals-IsShown (neg64 n))
      (decimals-IsShown n)

pub wide-IsShown : (n : ℕ) (s : Text) → All IsShown s → All IsShown (wide n s)
wide-IsShown n s h = either-IsShown (ltb n 10) (b'0' ∷ s) s (omega arith, h) h

pub format_day-IsShown : (d : Day) → All IsShown (format_day d)
unfolding format_day
format_day-IsShown d =
    All-append IsShown _ _
      (either-IsShown (ltb d.year 10) _ _ (omega arith) (
        either-IsShown (ltb d.year 100) _ _ (omega arith)
          (either-IsShown (ltb d.year 1000) _ _ (omega arith) tt)))
      (All-append IsShown (format_int d.year) _ (format_int-IsShown d.year) (
        All-append IsShown (wide d.month (format_int d.month)) _
          (wide-IsShown d.month _ (format_int-IsShown d.month))
          (wide-IsShown d.day _ (format_int-IsShown d.day))))

pub plain_char-IsShown : (c : ℕ) → IsShown (plain_char c)
unfolding plain_char
plain_char-IsShown c = ground arith

pub escape-IsShown : (s : Text) → All IsShown (escape (map plain_char s))
unfolding escape
escape-IsShown [] = tt
escape-IsShown (c ∷ s) =
    either-IsShown (plain_char c == b'"') _ _ (omega arith, (omega arith, escape-IsShown s))
      (plain_char-IsShown c, escape-IsShown s)

pub quote-IsShown : (s : Text) → All IsShown (quote s)
unfolding quote
quote-IsShown s = (
  omega arith,
  All-append IsShown (escape (map plain_char s)) (b'"' ∷ []) (escape-IsShown s) (omega arith),
)

-- A literal, and what stands behind it.
pub after-IsShown : (s t : Text) → All IsShown s → All IsShown t → All IsShown (s ++ t)
after-IsShown s t = All-append IsShown s t

-- A field behind a space.
pub field-IsShown : (s t : Text) → All IsShown s → All IsShown t → All IsShown (s ++ (b' ' ∷ t))
field-IsShown s t hs ht = after-IsShown s (b' ' ∷ t) hs (omega arith, ht)
