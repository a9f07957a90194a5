-- ===== src/Barcode/Qr/Codeword.antt =====
-- That a block with its error correction, as internal/barcode/qr.go writes it, is a word of the
-- Reed-Solomon code.
use Prim.Native.Nat.{bit_xor}
use free_sms.Common.{
  ℕ, zero, suc, ◌<◌, ◌≡◌, refl, sym, ◌∙◌, ap, List, [], ◌∷◌, ◌++◌, append_assoc, length,
  length-append, length-replicate, replicate, All, All-append, arith,
}
use free_sms.Common.Bits.{bit_xor-zero, bit_xor_self, bit_xor-lt, swap_inner}
use free_sms.Barcode.Qr.{mul, add_multiple, take_byte, remainder_loop, remainder}
use free_sms.Barcode.Qr.Field.{mul-IsLinear, mul-lt, mul_swap, one-mul, zero-mul}

abbrev pub IsByte : ℕ → Type 0
IsByte b = b < 256

-- The polynomial with these coefficients, highest first, at `r`, after the value `acc`.
unfoldable pub value_from : ℕ → ℕ → List ℕ → ℕ
value_from r acc [] = acc
value_from r acc (c ∷ p) = value_from r (bit_xor (mul acc r) c) p

-- The powers of 2 in the field: the roots that the standard asks of a block.
unfoldable pub alpha : ℕ → ℕ
alpha zero = 1
alpha (suc i) = mul (alpha i) 2

pub alpha-IsByte : (i : ℕ) → IsByte (alpha i)
unfolding alpha
alpha-IsByte zero = omega arith
alpha-IsByte (suc i) = mul-lt (alpha i) 2

-- A word of the code with `n` words of error correction is zero at the first `n` roots.
unfoldable pub IsCodeword : ℕ → List ℕ → Type 0
IsCodeword n word = (i : ℕ) → i < n → value_from (alpha i) 0 word ≡ 0

pub value-append :
    (r a : ℕ) (p q : List ℕ) → value_from r a (p ++ q) ≡ value_from r (value_from r a p) q
unfolding value_from
value-append r a [] q = refl
value-append r a (c ∷ p) q = value-append r (bit_xor (mul a r) c) p q

value-lt : (r a : ℕ) (p : List ℕ) → IsByte a → All IsByte p → value_from r a p < 256
unfolding value_from
value-lt r a [] h _ = h
value-lt r a (c ∷ p) h (hc, hp) =
    value-lt r (bit_xor (mul a r) c) p (bit_xor-lt 8 (mul a r) c (mul-lt a r) hc) hp

still_zero : (r : ℕ) → bit_xor (mul 0 r) 0 ≡ 0
still_zero r = rw (zero-mul r) (bit_xor_self 0)

value_zeros : (r n : ℕ) → value_from r 0 (replicate n 0) ≡ 0
unfolding value_from
value_zeros r zero = refl
value_zeros r (suc n) = ap (λ v. value_from r v (replicate n 0)) (still_zero r) ∙ value_zeros r n

-- Adding a multiple of a polynomial adds that multiple of its value.
value-add_multiple :
    (r f a d : ℕ) (p q : List ℕ)
    → length p ≡ length q
    → IsByte a
    → IsByte d
    → All IsByte p
    → All IsByte q
    → value_from r (bit_xor a (mul d f)) (add_multiple f p q)
      ≡ bit_xor (value_from r a p) (mul (value_from r d q) f)
unfolding value_from add_multiple
value-add_multiple r f a d [] [] e ha hd _ _ = refl
value-add_multiple r f a d [] (y ∷ q) e ha hd _ _ = absurd (omega (arith, e))
value-add_multiple r f a d (x ∷ p) [] e ha hd _ _ = absurd (omega (arith, e))
value-add_multiple r f a d (x ∷ p) (y ∷ q) e ha hd (hx, hp) (hy, hq) = cc (
  value-add_multiple r f (bit_xor (mul a r) x) (bit_xor (mul d r) y) p q (omega (arith, e))
      (bit_xor-lt 8 (mul a r) x (mul-lt a r) hx) (bit_xor-lt 8 (mul d r) y (mul-lt d r) hy) hp hq,
  (mul-IsLinear r).keeps_xor a (mul d f) ha (mul-lt d f),
  (mul-IsLinear f).keeps_xor (mul d r) y (mul-lt d r) hy,
  mul_swap d f r hd,
  swap_inner (mul a r) x (mul (mul d r) f) (mul y f),
)

add_multiple-IsByte :
    (f : ℕ) (p q : List ℕ) → All IsByte p → All IsByte q → All IsByte (add_multiple f p q)
unfolding add_multiple
add_multiple-IsByte f [] q _ _ = tt
add_multiple-IsByte f (x ∷ p) [] h _ = h
add_multiple-IsByte f (x ∷ p) (y ∷ q) (hx, hp) (hy, hq) =
    (bit_xor-lt 8 x (mul y f) hx (mul-lt y f), add_multiple-IsByte f p q hp hq)

length-add_multiple : (f : ℕ) (p q : List ℕ) → length (add_multiple f p q) ≡ length p
unfolding add_multiple
length-add_multiple f [] q = refl
length-add_multiple f (x ∷ p) [] = refl
length-add_multiple f (x ∷ p) (y ∷ q) = omega (arith, length-add_multiple f p q)

pub length-take_byte :
    (div : List ℕ) (b : ℕ) (out : List ℕ) → length (take_byte div b out) ≡ length out
unfolding take_byte
length-take_byte div b [] = refl
length-take_byte div b (o ∷ out) =
    omega
      (arith, length-add_multiple (bit_xor b o) (out ++ (0 ∷ [])) div, length-append out (0 ∷ []))

take_byte-IsByte :
    (div : List ℕ) (b : ℕ) (out : List ℕ)
    → All IsByte div
    → All IsByte out
    → All IsByte (take_byte div b out)
unfolding take_byte
take_byte-IsByte div b [] hd _ = tt
take_byte-IsByte div b (o ∷ out) hd (_, ho) =
    add_multiple-IsByte (bit_xor b o) (out ++ (0 ∷ [])) div
      (All-append IsByte out (0 ∷ []) ho (omega arith, tt)) hd

-- The new leading value is the old one with the factor added.
cancel : (a b o : ℕ) → bit_xor a b ≡ bit_xor (bit_xor a o) (bit_xor b o)
cancel a b o = cc (swap_inner a o b o, bit_xor_self o, bit_xor-zero (bit_xor a b))

-- One byte keeps the value zero, when the monic divisor is zero there.
value-take_byte :
    (r v b : ℕ) (div out : List ℕ)
    → length div ≡ length out
    → 0 < length out
    → IsByte v
    → IsByte b
    → All IsByte div
    → All IsByte out
    → value_from r 1 div ≡ 0
    → value_from r v out ≡ 0
    → value_from r (bit_xor (mul v r) b) (take_byte div b out) ≡ 0
unfolding value_from take_byte
value-take_byte r v b div [] e pos hv hb hd ho root ih = absurd (omega (arith, pos))
value-take_byte r v b div (o ∷ out) e pos hv hb hd (h, ho) root ih =
    let f = bit_xor b o in
    let a = bit_xor (mul v r) o in
    let a_byte = bit_xor-lt 8 (mul v r) o (mul-lt v r) h in
    cc (
      cancel (mul v r) b o,
      one-mul f (bit_xor-lt 8 b o hb h),
      value-add_multiple r f a 1 (out ++ (0 ∷ [])) div
          (omega (arith, e, length-append out (0 ∷ []))) a_byte (omega arith)
          (All-append IsByte out (0 ∷ []) ho (omega arith, tt)) hd,
      root,
      zero-mul f,
      value-append r a out (0 ∷ []),
      ih,
      zero-mul r,
      bit_xor_self 0,
    )

value-remainder_loop :
    (r v : ℕ) (div bytes done out : List ℕ)
    → length div ≡ length out
    → 0 < length out
    → value_from r 0 done ≡ v
    → IsByte v
    → All IsByte div
    → All IsByte bytes
    → All IsByte out
    → value_from r 1 div ≡ 0
    → value_from r v out ≡ 0
    → value_from r 0 (done ++ (bytes ++ remainder_loop div bytes out)) ≡ 0
unfolding remainder_loop value_from
value-remainder_loop r v div [] done out e pos hv v_byte hd _ ho root ih =
    value-append r 0 done out ∙ ap (λ w. value_from r w out) hv ∙ ih
value-remainder_loop r v div (b ∷ bytes) done out e pos hv v_byte hd (hb, hs) ho root ih =
    let out' = take_byte div b out in
    let same = length-take_byte div b out in
    let moved = value-append r 0 done (b ∷ []) in
    let tail = bytes ++ remainder_loop div bytes out' in
    ap (λ w. value_from r 0 w) (sym (append_assoc done (b ∷ []) tail))
    ∙ value-remainder_loop r (bit_xor (mul v r) b) div bytes (done ++ (b ∷ [])) out'
        (omega (arith, e, same)) (omega (arith, pos, same)) (rw hv at moved)
        (bit_xor-lt 8 (mul v r) b (mul-lt v r) hb) hd hs (take_byte-IsByte div b out hd ho) root
        (value-take_byte r v b div out e pos v_byte hb hd ho root ih)

replicate-IsByte : (n : ℕ) → All IsByte (replicate n 0)
replicate-IsByte zero = tt
replicate-IsByte (suc n) = (omega arith, replicate-IsByte n)

-- A block with its remainder is zero wherever the monic divisor is.
pub value-remainder :
    (r : ℕ) (div bytes : List ℕ)
    → 0 < length div
    → All IsByte div
    → All IsByte bytes
    → value_from r 1 div ≡ 0
    → value_from r 0 (bytes ++ remainder bytes div) ≡ 0
unfolding remainder
value-remainder r div bytes pos hd hb root =
    let same = length-replicate {A = ℕ} (length div) 0 in
    value-remainder_loop r 0 div bytes [] (replicate (length div) 0) (omega (arith, same))
      (omega (arith, same, pos)) (value_zeros r 0) (omega arith) hd hb
      (replicate-IsByte (length div)) root (value_zeros r (length div))

length-remainder_loop :
    (div bytes out : List ℕ) → length (remainder_loop div bytes out) ≡ length out
unfolding remainder_loop
length-remainder_loop div [] out = refl
length-remainder_loop div (b ∷ bytes) out =
    omega (arith, length-remainder_loop div bytes (take_byte div b out), length-take_byte div b out)

pub length-remainder : (div bytes : List ℕ) → length (remainder bytes div) ≡ length div
unfolding remainder
length-remainder div bytes = omega (
  arith,
  length-remainder_loop div bytes (replicate (length div) 0),
  length-replicate {A = ℕ} (length div) 0,
)
