-- ===== src/Server/Amounts/RoundTrip.antt =====
-- A form's amount that the program wrote is read back as it was.
use free_sms.Common.{
  ℕ, suc, ◌+◌, ◌*◌, ◌/◌, ◌%◌, ◌^◌, ◌≤◌, ◌<◌, ◌≡◌, ◌⊎◌, inl, inr, refl, ap, ◌∙◌, true, false, [],
  ◌∷◌, ◌++◌, some, arith, ◌==◌, length, All-append, append-nil,
}
use free_sms.Common.Int.{
  ℤ, pos, negsuc, abs, add64-pos, mul64, mul64-pos, neg64-pos, of_neg-suc, wrap, ◌*ℤ◌,
}
use free_sms.Common.Text.{
  Text, is_empty, is_space, trim_space, without, replace_first, has_prefix, trim_prefix, byte_len,
}
use free_sms.Common.Text.Laws.{
  Lacks, digit-Lacks, trim_space_id, without_id, replace_first_id, replace_first_at, cut_at,
  byte_len-digits,
}
use free_sms.Money.Format.{itoa, pad2, format}
use free_sms.Money.Format.Digits.{
  Spells, itoa-Spells, pad2-Spells, length-pad2, parse_int-Spells, format-pos, format-negsuc,
}
use free_sms.Server.Amounts.{
  ok, read_decimals, read_whole, add_minor, pad, scale_of, parse_scaled, parse_minor_units,
  parse_minor_signed, negate_if,
}

pad_two : {n : ℕ} (s : Text) → Spells n s → length s ≡ 2 → pad 2 s ≡ s
unfolding pad
pad_two s v two =
    let same : byte_len s ≡ 2 = byte_len-digits s v.digits ∙ two in rw same (append-nil s)

not_empty : (s : Text) → 0 < length s → is_empty s ≡ false
not_empty [] h = absurd (omega arith)
not_empty (c ∷ s) h = refl

scale_two : scale_of 2 ≡ pos 100
unfolding scale_of mul64 wrap ◌*ℤ◌
scale_two = refl

-- The whole part and the decimals of a number, once the text is cut.
read_parts :
    (w f : ℕ) (frac : Text)
    → w ≤ 999_999_999_999
    → f < 100
    → Spells f frac
    → length frac ≡ 2
    → read_whole (some (pos w)) 2 frac true ≡ ok (pos (w * 100 + f))
unfolding read_whole read_decimals add_minor
read_parts w f frac hw hf v two = ground (
  arith,
  pad_two frac v two,
  byte_len-digits frac v.digits,
  not_empty frac v.not_empty,
  parse_int-Spells f frac (omega arith) v,
  scale_two,
  mul64-pos w 100,
  add64-pos (w * 100) f,
)

point_no_space : (c : ℕ) → (c ≡ b'.') ⊎ (c ≡ b',') → is_space c ≡ false
unfolding is_space
point_no_space c h = ground arith

nonempty_append : (s t : Text) → 0 < length s → is_empty (s ++ t) ≡ false
nonempty_append [] t h = absurd (omega arith)
nonempty_append (c ∷ s) t h = refl

point_replaced :
    (whole frac : Text) (c : ℕ)
    → (c ≡ b'.') ⊎ (c ≡ b',')
    → Lacks (λ x. x == b',') whole
    → Lacks (λ x. x == b',') frac
    → replace_first b',' b'.' (whole ++ (c ∷ frac)) ≡ whole ++ (b'.' ∷ frac)
point_replaced whole frac c (inl e) h k = rw e (
    replace_first_id b',' b'.' (whole ++ (b'.' ∷ frac))
      (All-append _ whole (b'.' ∷ frac) h (refl, k)))
point_replaced whole frac c (inr e) h k = rw e (replace_first_at b',' b'.' whole frac h)

-- Digits, a point and two more digits are read as the number, in hundredths.
parse_plain :
    (w f : ℕ) (whole frac : Text) (c : ℕ)
    → (c ≡ b'.') ⊎ (c ≡ b',')
    → w ≤ 999_999_999_999
    → f < 100
    → Spells w whole
    → Spells f frac
    → length frac ≡ 2
    → parse_minor_units (whole ++ (c ∷ frac)) ≡ ok (pos (w * 100 + f))
unfolding parse_minor_units parse_scaled
parse_plain w f whole frac c point hw hf vw vf two =
    let (space, dot, comma, dash, blank, hard) = digit-Lacks whole vw.digits in
    let (space', dot', comma', dash', blank', hard') = digit-Lacks frac vf.digits in
    let text = whole ++ (c ∷ frac) in
    let trimmed : trim_space text ≡ text =
      trim_space_id text (All-append _ whole (c ∷ frac) space (point_no_space c point, space')) in
    let unspaced : without (λ x. x == b' ') text ≡ text =
      without_id _ text (All-append _ whole (c ∷ frac) blank (ground arith, blank')) in
    let soft : without (λ x. x == 0xa0) text ≡ text =
      without_id _ text (All-append _ whole (c ∷ frac) hard (ground arith, hard')) in
    let pointed : replace_first b',' b'.' text ≡ whole ++ (b'.' ∷ frac) =
      point_replaced whole frac c point comma comma' in
    rw
      (
        trimmed,
        unspaced,
        soft,
        pointed,
        cut_at b'.' whole frac dot,
        not_empty whole vw.not_empty,
        nonempty_append whole (c ∷ frac) vw.not_empty,
        parse_int-Spells w whole (omega arith) vw,
      )
      (read_parts w f frac hw hf vf two)

-- What `Format` writes behind the sign.
abbrev body : ℕ → Text
body n = itoa (pos (n / 100)) ++ (b'.' ∷ pad2 (pos (n % 100)))

body_digits : (n : ℕ) → n < 10 ^ 14 → Lacks is_space (body n) × Lacks (λ x. x == b'-') (body n)
body_digits n h =
    let vw = itoa-Spells (n / 100) (omega arith) in
    let vf = pad2-Spells (n % 100) (omega arith) in
    let (space, dot, comma, dash, blank, hard) = digit-Lacks (itoa (pos (n / 100))) vw.digits in
    let (space', dot', comma', dash', blank', hard') =
      digit-Lacks (pad2 (pos (n % 100))) vf.digits in
    (
      All-append _ (itoa (pos (n / 100))) (b'.' ∷ pad2 (pos (n % 100))) space
          (point_no_space b'.' (inl refl), space'),
      All-append _ (itoa (pos (n / 100))) (b'.' ∷ pad2 (pos (n % 100))) dash (refl, dash'),
    )

parse-body : (n : ℕ) → n < 10 ^ 14 → parse_minor_units (body n) ≡ ok (pos n)
parse-body n h =
    parse_plain (n / 100) (n % 100) (itoa (pos (n / 100))) (pad2 (pos (n % 100))) b'.' (inl refl)
      (omega arith) (omega arith) (itoa-Spells (n / 100) (omega arith))
      (pad2-Spells (n % 100) (omega arith)) (length-pad2 (n % 100) (omega arith))
    ∙ ap (λ k. ok (pos k)) (omega arith)

prefix_none :
    (c : ℕ) (s : Text) → Lacks (λ x. x == c) s → (has_prefix c s ≡ false) × (trim_prefix c s ≡ s)
prefix_none c [] _ = (refl, refl)
prefix_none c (x ∷ s) (h, _) = (h, rw h)

dash_no_space : is_space b'-' ≡ false
unfolding is_space
dash_no_space = refl

-- The program reads back every amount below a trillion kronor that it wrote itself, of either sign.
pub parse_minor_signed-format : (m : ℤ) → abs m < 10 ^ 14 → parse_minor_signed (format m) ≡ ok m
unfolding parse_minor_signed negate_if
parse_minor_signed-format (pos n) h =
    let (space, dash) = body_digits n h in
    let (plain, same) = prefix_none b'-' (body n) dash in
    rw (format-pos n (omega arith), trim_space_id (body n) space, plain, same) (parsed n h)
  where
    parsed : (n : ℕ) → n < 10 ^ 14 → negate_if false (parse_minor_units (body n)) ≡ ok (pos n)
    parsed n h = rw (parse-body n h)
parse_minor_signed-format (negsuc n) h =
    let (space, dash) = body_digits (suc n) h in
    rw
      (
        format-negsuc n (omega arith),
        trim_space_id (b'-' ∷ body (suc n)) (dash_no_space, space),
        parse-body (suc n) h,
      )
      (ap ok (neg64-pos (suc n) (omega arith) ∙ of_neg-suc n))
