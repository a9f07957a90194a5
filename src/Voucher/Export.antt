-- ===== src/Voucher/Export.antt =====
-- An export of internal/workshop/accounting.go is written: internal/sie/sie.go refuses none of it.
use free_sms.Common.{
  ℕ, ◌≡◌, refl, sym, subst, Bool, true, false, List, [], ◌∷◌, ◌++◌, map, All, if◌then◌else◌, arith,
}
use free_sms.Common.Int.{ℤ, pos, Fits, wrap, add64, neg64, ◌+ℤ◌, eqb_ℤ, add64_zero}
use free_sms.Sie.{Verification, SieFile, sum_entries, balanced, written, write, write_checked}
use free_sms.Voucher.{
  Chart, VoucherDocument, VoucherResult, VoucherError, ok, err, Payment, payment_verification,
  vouchers, Vouchers, all, refused, with_first, rounding, receivable,
}
use free_sms.Voucher.Balance.{eqb_ℤ→≡, is_zero, invoice_verification-balanced}

opposite : (m : ℤ) → add64 m (neg64 m) ≡ pos 0
unfolding add64 neg64 wrap ◌+ℤ◌
opposite m = ground arith

two_sum : (a : ℤ) → Fits a → add64 (add64 (pos 0) a) (neg64 (add64 a (pos 0))) ≡ pos 0
unfolding add64 neg64 wrap ◌+ℤ◌
two_sum a h = ground arith

three_sum : (a r : ℤ) → Fits a → add64 (add64 (add64 (pos 0) a) r) (neg64 (add64 a r)) ≡ pos 0
three_sum a r h = rw (add64_zero a h) (opposite (add64 a r))

payment-sum :
    (b : Bool) (a r k l : ℤ)
    → Fits a
    → (b ≡ true → r ≡ pos 0)
    → sum_entries (add64 (pos 0) a) (
        (if b then [] else record { account = k; minor = r } ∷ [])
        ++ (record { account = l; minor = neg64 (add64 a r) } ∷ []))
      ≡ pos 0
unfolding sum_entries
payment-sum true a r k l h z = rw (z refl) (two_sum a h)
payment-sum false a r k l h z = three_sum a r h

-- A payment's voucher balances whatever was paid and however it was rounded.
pub payment_verification-balanced :
    (accounts : Chart) (p : Payment)
    → Fits p.amount
    → balanced (payment_verification accounts p) ≡ true
unfolding payment_verification balanced sum_entries
payment_verification-balanced accounts p fits = is_zero _ (
    payment-sum (eqb_ℤ p.rounded (pos 0)) p.amount p.rounded (accounts rounding)
      (accounts receivable) fits (eqb_ℤ→≡ p.rounded (pos 0)))

-- The gross amount of a document is its net amount and its VAT.
pub record AddsUp (d : VoucherDocument) : Type 0 where
  pub fits : Fits d.gross_minor
  pub sum : d.gross_minor ≡ add64 d.net_minor d.vat_minor

all-eq : {xs ys : List Verification} → Vouchers.all xs ≡ all ys → xs ≡ ys
all-eq x = cc

not_refused : {e : VoucherError} {xs : List Verification} → refused e ≡ all xs → ⊥
not_refused x = cc

with_first-all :
    (r : VoucherResult) (rest : Vouchers) (vs : List Verification)
    → with_first r rest ≡ all vs
    → (v : Verification) × (ws : List Verification) × (r ≡ ok v) × (rest ≡ all ws) × (vs ≡ v ∷ ws)
with_first-all (err e) rest vs h = absurd (not_refused h)
with_first-all (ok v) (refused e) vs h = absurd (not_refused h)
with_first-all (ok v) (all ws) vs h = (v, ws, refl, refl, sym (all-eq h))

abbrev IsBalanced : Verification → Type 0
IsBalanced v = balanced v ≡ true

payments-IsBalanced :
    (accounts : Chart) (ps : List Payment)
    → All (λ p. Fits p.amount) ps
    → All IsBalanced (map (payment_verification accounts) ps)
payments-IsBalanced accounts [] h = tt
payments-IsBalanced accounts (p ∷ ps) (h, hs) =
    (payment_verification-balanced accounts p h, payments-IsBalanced accounts ps hs)

vouchers-IsBalanced :
    (descending : List ℤ → List ℤ) (accounts : Chart) (ds : List VoucherDocument)
    (ps : List Payment) (vs : List Verification)
    → All AddsUp ds
    → All (λ p. Fits p.amount) ps
    → vouchers descending accounts ds ps ≡ all vs
    → All IsBalanced vs
unfolding vouchers
vouchers-IsBalanced descending accounts [] ps vs h k e =
    subst (All IsBalanced) (all-eq e) (payments-IsBalanced accounts ps k)
vouchers-IsBalanced descending accounts (d ∷ ds) ps vs (h, hs) k e =
    let (v, ws, made, rest, is) = with_first-all _ _ vs e in
    subst (All IsBalanced) (sym is) (
      (invoice_verification-balanced descending accounts d v h.fits made).1 h.sum,
      vouchers-IsBalanced descending accounts ds ps ws hs k rest,
    )

write_checked-written :
    (f : SieFile) (vs : List Verification)
    → All IsBalanced vs
    → (b : List ℕ) × (write_checked f vs ≡ written b)
unfolding write_checked
write_checked-written f [] h = (_, refl)
write_checked-written f (v ∷ vs) (h, hs) = let (b, e) = write_checked-written f vs hs in (b, rw h e)

-- An export of documents whose gross amounts are their net amounts and their VAT, and of any
-- payments, is written whenever its vouchers can be made, whatever else the file says.
pub vouchers-written :
    (descending : List ℤ → List ℤ) (accounts : Chart) (ds : List VoucherDocument)
    (ps : List Payment) (f : SieFile)
    → All AddsUp ds
    → All (λ p. Fits p.amount) ps
    → vouchers descending accounts ds ps ≡ all f.verifications
    → (b : List ℕ) × (write f ≡ written b)
unfolding write
vouchers-written descending accounts ds ps f h k e =
    write_checked-written f f.verifications
      (vouchers-IsBalanced descending accounts ds ps f.verifications h k e)
