-- ===== src/PayRef/Payment/Account.antt =====
-- What `GiroOf` of internal/payref/payref.go reads.
use mathlib.Core.List.{reverse-append}
use free_sms.Common.{
  reverse, ℕ, suc, ◌≤◌, ◌≡◌, ◌⊎◌, inl, inr, refl, Bool, true, false, ◌&&◌, ◌||◌, [], ◌∷◌, ◌++◌, ltb,
  ◌==◌, Bool-cases, arith,
}
use free_sms.Common.Text.{Text, codes, byte_len, is_digit, trim, trim_left, without, text_eq}
use free_sms.PayRef.Payment.{Giro, read_giro, giro_with, giro_of, no_giro, max_giro_digits}

-- A text of digits and hyphens.
abbrev pub is_account : Text → Bool
is_account [] = true
is_account (c ∷ s) = (is_digit c || (c == b'-')) && is_account s

is_account-snoc :
    (b : Text) (r : ℕ)
    → is_account b ≡ true
    → is_digit r || (r == b'-') ≡ true
    → is_account (b ++ (r ∷ [])) ≡ true
is_account-snoc [] r h k = ground arith
is_account-snoc (c ∷ b) r h k = ground (arith, is_account-snoc b r)

read_giro-is_account :
    (b : Text) (digits : ℕ) (hyphen spaced : Bool) (s : Text)
    → is_account b ≡ true
    → is_account (read_giro b digits hyphen spaced s) ≡ true
unfolding read_giro
read_giro-is_account b d h sp [] a = a
read_giro-is_account b d h sp (r ∷ s) a = ground (
  arith,
  is_account-snoc b r a,
  read_giro-is_account (b ++ (r ∷ [])) (suc d) h false s,
  read_giro-is_account (b ++ (r ∷ [])) d true false s,
  read_giro-is_account b d h sp s a,
  read_giro-is_account b d h true s a,
)

is_account-trim_left :
    (p : ℕ → Bool) (s : Text) → is_account s ≡ true → is_account (trim_left p s) ≡ true
unfolding trim_left
is_account-trim_left p [] h = refl
is_account-trim_left p (c ∷ s) h = ground (arith, is_account-trim_left p s)

is_account-reverse : (s : Text) → is_account s ≡ true → is_account (reverse s) ≡ true
is_account-reverse [] h = refl
is_account-reverse (c ∷ s) h =
    rw (reverse-append (c ∷ []) s)
      (is_account-snoc (reverse s) c (is_account-reverse s (ground arith)) (ground arith))

is_account-trim : (p : ℕ → Bool) (s : Text) → is_account s ≡ true → is_account (trim p s) ≡ true
unfolding trim
is_account-trim p s h = is_account-reverse (trim_left p (reverse (trim_left p s))) (
    is_account-trim_left p (reverse (trim_left p s))
      (is_account-reverse (trim_left p s) (is_account-trim_left p s h)))

-- An account of a kind with at least so many digits.
pub record IsGiro (kind : Text) (least : ℕ) (g : Giro) : Type 0 where
  pub kind_is : g.kind ≡ kind
  pub characters : is_account g.account ≡ true
  pub at_least : least ≤ byte_len (without (λ c. c == b'-') g.account)
  pub at_most : byte_len (without (λ c. c == b'-') g.account) ≤ 8

long_enough : (n least : ℕ) → ltb n least || ltb 8 n ≡ false → (least ≤ n) × (n ≤ 8)
long_enough n least h = ground arith

giro_with-IsGiro :
    (kind : Text) (least : ℕ) (printed : Text)
    → (giro_with kind least printed ≡ no_giro) ⊎ IsGiro kind least (giro_with kind least printed)
unfolding giro_with
giro_with-IsGiro kind least printed =
    let account = trim (λ c. c == b'-') (read_giro [] 0 false false printed) in
    let n = byte_len (without (λ c. c == b'-') account) in
    elim (Bool-cases (ltb n least || ltb max_giro_digits n)) [
      | inl e ↦ inl (rw e)
      | inr e ↦
          let (low, high) = long_enough n least e in
          inr (
            rw e (record {
              kind_is = refl;
              characters = is_account-trim _ _ (read_giro-is_account [] 0 false false printed refl);
              at_least = low;
              at_most = high;
            }))
    ]

-- What is read from a printed account is none, or a bankgiro of seven or eight digits for the scheme
-- of that name, or a plusgiro of two to eight for its scheme, of nothing but digits and hyphens.
pub giro_of-IsGiro :
    (scheme printed : Text)
    → (giro_of scheme printed ≡ no_giro)
      ⊎ (text_eq scheme (codes "bankgiro") ≡ true) × IsGiro (codes "BG") 7 (giro_of scheme printed)
      ⊎ (text_eq scheme (codes "plusgiro") ≡ true) × IsGiro (codes "PG") 2 (giro_of scheme printed)
unfolding giro_of
giro_of-IsGiro scheme printed = elim (Bool-cases (text_eq scheme (codes "bankgiro"))) [
  | inl e ↦ rw e (elim (giro_with-IsGiro (codes "BG") 7 printed) [
    | inl n ↦ inl n
    | inr g ↦ inr (inl (refl, g))
  ])
  | inr e ↦ rw e (elim (Bool-cases (text_eq scheme (codes "plusgiro"))) [
    | inl k ↦ rw k (elim (giro_with-IsGiro (codes "PG") 2 printed) [
      | inl n ↦ inl n
      | inr g ↦ inr (inr (refl, g))
    ])
    | inr k ↦ rw k (inl refl)
  ])
]
