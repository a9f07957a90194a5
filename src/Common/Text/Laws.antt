-- ===== src/Common/Text/Laws.antt =====
-- Laws of the text functions: what trimming, replacing, cutting and scanning do to plain texts.
use mathlib.Core.List.{reverse-reverse}
use free_sms.Common.Tests.{◌==◌, Bool-cases}
use free_sms.Common.Lists.{length, All, All-reverse}
use Prim.Native.Nat.{ℕ, ◌≤◌}
use mathlib.Core.Path.{◌≡◌, refl}
use mathlib.Core.Bool.{Bool, true, false}
use mathlib.Core.List.{[], ◌∷◌, ◌++◌, reverse}
use mathlib.Core.Logic.{inl, inr}
use native.Mathlib.Omega.{arith}
use free_sms.Common.Text.{
  Text, text_eq, byte_len, is_space, trim_left, trim, trim_space, without, replace_first, cut, scan,
  signed, parse_int,
}

abbrev pub IsDigit : ℕ → Type 0
IsDigit c = (b'0' ≤ c) × (c ≤ b'9')

-- No character of the text passes a test.
abbrev pub Lacks : (ℕ → Bool) → Text → Type 0
Lacks p = All (λ c. p c ≡ false)

pub All-mono : {P Q : ℕ → Type 0} (s : Text) → ((c : ℕ) → P c → Q c) → All P s → All Q s
All-mono [] f _ = tt
All-mono (c ∷ s) f (h, hs) = (f c h, All-mono s f hs)

trim_left_id : (p : ℕ → Bool) (s : Text) → Lacks p s → trim_left p s ≡ s
unfolding trim_left
trim_left_id p [] _ = refl
trim_left_id p (c ∷ s) (h, _) = rw h

pub trim_id : (p : ℕ → Bool) (s : Text) → Lacks p s → trim p s ≡ s
unfolding trim
trim_id p s h =
    rw (trim_left_id p s h, trim_left_id p (reverse s) (All-reverse _ s h)) (reverse-reverse s)

pub trim_space_id : (s : Text) → Lacks is_space s → trim_space s ≡ s
unfolding trim_space
trim_space_id = trim_id is_space

pub without_id : (p : ℕ → Bool) (s : Text) → Lacks p s → without p s ≡ s
unfolding without
without_id p [] _ = refl
without_id p (c ∷ s) (h, hs) = rw (h, without_id p s hs)

pub without-append : (p : ℕ → Bool) (s t : Text) → without p (s ++ t) ≡ without p s ++ without p t
unfolding without
without-append p [] t = refl
without-append p (c ∷ s) t = elim (Bool-cases (p c)) [
  | inl e ↦ rw (e, without-append p s t)
  | inr e ↦ rw (e, without-append p s t)
]

pub replace_first_id : (c d : ℕ) (s : Text) → Lacks (λ x. x == c) s → replace_first c d s ≡ s
unfolding replace_first
replace_first_id c d [] _ = refl
replace_first_id c d (x ∷ s) (h, hs) = rw (h, replace_first_id c d s hs)

pub replace_first_at :
    (c d : ℕ) (s t : Text) → Lacks (λ x. x == c) s → replace_first c d (s ++ (c ∷ t)) ≡ s ++ (d ∷ t)
unfolding replace_first
replace_first_at c d [] t _ = ground arith
replace_first_at c d (x ∷ s) t (h, hs) = rw (h, replace_first_at c d s t hs)

pub cut_at : (c : ℕ) (s t : Text) → Lacks (λ x. x == c) s → cut c (s ++ (c ∷ t)) ≡ (s, t, true)
unfolding cut
cut_at c [] t _ = ground arith
cut_at c (x ∷ s) t (h, hs) = rw (h, cut_at c s t hs)

pub byte_len-digits : (s : Text) → All IsDigit s → byte_len s ≡ length s
byte_len-digits [] _ = refl
byte_len-digits (c ∷ s) (h, hs) = ground (arith, byte_len-digits s hs)

-- A text of digits is read as a number without a sign.
pub parse_int-digits :
    (c : ℕ) (s : Text) → IsDigit c → parse_int (c ∷ s) ≡ signed false (scan 0 (c ∷ s))
unfolding parse_int
parse_int-digits c s h = ground arith

pub digit-Lacks :
    (s : Text)
    → All IsDigit s
    → Lacks is_space s
      × Lacks (λ c. c == b'.') s
      × Lacks (λ c. c == b',') s
      × Lacks (λ c. c == b'-') s
      × Lacks (λ c. c == b' ') s
      × Lacks (λ c. c == 0xa0) s
unfolding is_space
digit-Lacks [] _ = (tt, tt, tt, tt, tt, tt)
digit-Lacks (c ∷ s) (h, hs) =
    let (a, b, d, e, f, g) = digit-Lacks s hs in
    (
      (ground arith, a),
      (ground arith, b),
      (ground arith, d),
      (ground arith, e),
      (ground arith, f),
      (ground arith, g),
    )

-- `text_eq` decides equality.
pub text_eq→eq : (s t : Text) → text_eq s t ≡ true → s ≡ t
text_eq→eq [] [] h = refl
text_eq→eq [] (d ∷ t) h = cc
text_eq→eq (c ∷ s) [] h = cc
text_eq→eq (c ∷ s) (d ∷ t) h = ground (arith, text_eq→eq s t)

pub text_eq_refl : (s : Text) → text_eq s s ≡ true
text_eq_refl [] = refl
text_eq_refl (c ∷ s) = ground (arith, text_eq_refl s)

pub text_eq_sym : (s t : Text) → text_eq s t ≡ text_eq t s
text_eq_sym [] [] = refl
text_eq_sym [] (d ∷ t) = refl
text_eq_sym (c ∷ s) [] = refl
text_eq_sym (c ∷ s) (d ∷ t) = ground (arith, text_eq_sym s t)
