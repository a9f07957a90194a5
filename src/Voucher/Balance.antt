-- ===== src/Voucher/Balance.antt =====
-- The vouchers of internal/workshop/accounting.go balance, so that internal/sie/sie.go writes them.
use free_sms.Common.{
  ◌≡◌, ◌↔◌, refl, sym, ap, subst, ◌∙◌, Bool, true, false, List, [], ◌∷◌, ◌++◌, Option, none, some,
  if◌then◌else◌, Bool-cases, inl, inr, arith, bind-some,
}
use free_sms.Common.Int.{
  ℤ, pos, Fits, wrap, add64, neg64, ◌+ℤ◌, eqb_ℤ, add64_assoc, add64_comm, add64_left_comm,
  add64_zero, add64_zero_right, add64-Fits,
}
use free_sms.Sie.{Verification, SieEntry, sum_entries, balanced}
use free_sms.Voucher.{
  Chart, Purpose, RateAmount, Posted, VoucherDocument, VoucherResult, VoucherError, ok, err, post,
  post_sales, post_vat, amount_at, vat_account, finish, sales_purposes, invoice_verification,
  receivable,
}

pub eqb_ℤ→≡ : (a b : ℤ) → eqb_ℤ a b ≡ true → a ≡ b
eqb_ℤ→≡ a b h = ground arith

sum_entries-append :
    (n : ℤ) (xs ys : List SieEntry) → sum_entries n (xs ++ ys) ≡ sum_entries (sum_entries n xs) ys
unfolding sum_entries
sum_entries-append n [] ys = refl
sum_entries-append n (x ∷ xs) ys = sum_entries-append (add64 n x.minor) xs ys

sum_entries-Fits : (n : ℤ) (xs : List SieEntry) → Fits n → Fits (sum_entries n xs)
unfolding sum_entries
sum_entries-Fits n [] h = h
sum_entries-Fits n (x ∷ xs) h = sum_entries-Fits (add64 n x.minor) xs (add64-Fits n x.minor)

neg_sum : (m : ℤ) → add64 (neg64 m) m ≡ pos 0
unfolding add64 neg64 wrap ◌+ℤ◌
neg_sum m = ground arith

zero_sum : (t : ℤ) (s : ℤ) → add64 s (add64 (pos 0) t) ≡ add64 s t
zero_sum t s = add64_zero_right s t

-- What is taken off the entries is put on the sum.
taken : (s t m : ℤ) → add64 (add64 s (neg64 m)) (add64 t m) ≡ add64 s t
taken s t m =
    rw
      (
        add64_assoc s (neg64 m) (add64 t m),
        add64_left_comm (neg64 m) t m,
        neg_sum m,
        add64_comm t (pos 0),
      )
      (zero_sum t s)

abbrev weight : Posted → ℤ
weight p = add64 (sum_entries (pos 0) p.entries) p.sum

post-weight : (a m : ℤ) (p : Posted) → weight (post a m p) ≡ weight p
unfolding sum_entries
post-weight a m p =
    rw (sum_entries-append (pos 0) p.entries (record { account = a; minor = neg64 m } ∷ []))
      (taken (sum_entries (pos 0) p.entries) p.sum m)

post_if-weight : (b : Bool) (a m : ℤ) (p : Posted) → weight (if b then p else post a m p) ≡ weight p
post_if-weight true a m p = refl
post_if-weight false a m p = post-weight a m p

post_sales-weight :
    (accounts : Chart) (nets : Purpose → ℤ) (ks : List Purpose) (p : Posted)
    → weight (post_sales accounts nets ks p) ≡ weight p
unfolding post_sales
post_sales-weight accounts nets [] p = refl
post_sales-weight accounts nets (k ∷ ks) p =
    post_sales-weight accounts nets ks
      (if eqb_ℤ (nets k) (pos 0) then p else post (accounts k) (nets k) p)
    ∙ post_if-weight (eqb_ℤ (nets k) (pos 0)) (accounts k) (nets k) p

some-eq : {A : Type 0} {a b : A} → some a ≡ some b → a ≡ b
some-eq e = cc

post_vat-weight :
    (accounts : Chart) (amounts : List RateAmount) (rates : List ℤ) (p q : Posted)
    → post_vat accounts amounts rates p ≡ some q
    → weight q ≡ weight p
unfolding post_vat
post_vat-weight accounts amounts [] p q e = ap weight (sym (some-eq e))
post_vat-weight accounts amounts (r ∷ rs) p q e =
    elim (Bool-cases (eqb_ℤ (amount_at r amounts) (pos 0))) [
      | inl z ↦ post_vat-weight accounts amounts rs p q (rw z at e)
      | inr z ↦
          (let (purpose, _, e2) =
              bind-some (vat_account r)
                (λ k. post_vat accounts amounts rs (post (accounts k) (amount_at r amounts) p))
                (rw z at e) in
            post_vat-weight accounts amounts rs (post (accounts purpose) (amount_at r amounts) p) q
              e2
            ∙ post-weight (accounts purpose) (amount_at r amounts) p)
    ]

alone : (s w : ℤ) → Fits s → Fits w → add64 s w ≡ w → s ≡ pos 0
unfolding add64 wrap ◌+ℤ◌
alone s w hs hw e = ground arith

no_error : {e : VoucherError} {v : Verification} → err e ≡ ok v → ⊥
no_error x = cc

ok-eq : {v w : Verification} → VoucherResult.ok v ≡ ok w → v ≡ w
ok-eq x = cc

-- What went into a voucher that was made.
finish-ok :
    (d : VoucherDocument) (o : Option Posted) (v : Verification)
    → finish d o ≡ ok v
    → (q : Posted) × (o ≡ some q) × (q.sum ≡ d.vat_minor) × (v.entries ≡ q.entries)
finish-ok d none v e = absurd (no_error e)
finish-ok d (some q) v e = elim (Bool-cases (eqb_ℤ q.sum d.vat_minor)) [
  | inl z ↦ (q, refl, eqb_ℤ→≡ q.sum d.vat_minor z, ap (λ x. x.entries) (sym (ok-eq (rw z at e))))
  | inr z ↦ absurd (no_error (rw z at e))
]

sums_up : (s v n g : ℤ) → Fits s → Fits g → add64 (add64 s v) n ≡ g → (s ≡ pos 0) ↔ (g ≡ add64 n v)
sums_up s v n g hs hg e = (
  λ z.
      sym e
      ∙ ap (λ x. add64 (add64 x v) n) z
      ∙ add64_comm (add64 (pos 0) v) n
      ∙ add64_zero_right n v,
  λ z. alone s (add64 v n) hs (add64-Fits v n) (sym (add64_assoc s v n) ∙ e ∙ z ∙ add64_comm n v),
)

pub is_zero : (s : ℤ) → s ≡ pos 0 → eqb_ℤ s (pos 0) ≡ true
is_zero s h = ground arith

start-sum : (g : ℤ) → Fits g → add64 (add64 (pos 0) g) (pos 0) ≡ g
start-sum g h = ap (λ x. add64 x (pos 0)) (add64_zero g h) ∙ add64_comm g (pos 0) ∙ add64_zero g h

balanced_iff :
    (v : Verification) (q : Posted) (d : VoucherDocument) (n : ℤ)
    → Fits d.gross_minor
    → v.entries ≡ q.entries
    → n ≡ d.net_minor
    → q.sum ≡ d.vat_minor
    → add64 (add64 (sum_entries (pos 0) q.entries) q.sum) n ≡ d.gross_minor
    → (balanced v ≡ true) ↔ (d.gross_minor ≡ add64 d.net_minor d.vat_minor)
unfolding balanced
balanced_iff v q d n fits same en ev e =
    let s = sum_entries (pos 0) v.entries in
    let sum : add64 (add64 s d.vat_minor) d.net_minor ≡ d.gross_minor =
      subst (λ es. add64 (add64 (sum_entries (pos 0) es) d.vat_minor) d.net_minor ≡ d.gross_minor)
        (sym same)
        (subst (λ x. add64 (add64 (sum_entries (pos 0) q.entries) x) d.net_minor ≡ d.gross_minor) ev
          (subst (λ x. add64 (add64 (sum_entries (pos 0) q.entries) q.sum) x ≡ d.gross_minor) en
            e)) in
    let (there, back) =
      sums_up s d.vat_minor d.net_minor d.gross_minor
        (sum_entries-Fits (pos 0) v.entries (omega arith)) fits sum in
    (λ b. there (eqb_ℤ→≡ s (pos 0) b), λ g. is_zero s (back g))

abbrev start : Chart → VoucherDocument → Posted
start accounts d = record {
  entries = record { account = accounts receivable; minor = d.gross_minor } ∷ [];
  sum = pos 0;
}

abbrev sold : Chart → VoucherDocument → Posted
sold accounts d = post_sales accounts d.net_by_purpose sales_purposes (start accounts d)

-- What the two loops leave comes to the gross amount.
posted-sum :
    (accounts : Chart) (d : VoucherDocument) (q : Posted) (rates : List ℤ)
    → Fits d.gross_minor
    → post_vat accounts d.vat_by_rate rates
        (record { entries = (sold accounts d).entries; sum = pos 0 })
      ≡ some q
    → add64 (add64 (sum_entries (pos 0) q.entries) q.sum) (sold accounts d).sum ≡ d.gross_minor
unfolding sum_entries
posted-sum accounts d q rates fits e =
    let w = sold accounts d in
    ap (λ x. add64 x w.sum)
      (post_vat-weight accounts d.vat_by_rate rates (record { entries = w.entries; sum = pos 0 }) q
          e
        ∙ add64_comm (sum_entries (pos 0) w.entries) (pos 0)
        ∙ add64_zero (sum_entries (pos 0) w.entries)
            (sum_entries-Fits (pos 0) w.entries (omega arith)))
    ∙ post_sales-weight accounts d.net_by_purpose sales_purposes (start accounts d)
    ∙ start-sum d.gross_minor fits

-- A voucher that is made for an invoice balances just when the document's gross amount is its net
-- amount and its VAT together, whatever order the rates are taken in.
pub invoice_verification-balanced :
    (descending : List ℤ → List ℤ) (accounts : Chart) (d : VoucherDocument) (v : Verification)
    → Fits d.gross_minor
    → invoice_verification descending accounts d ≡ ok v
    → (balanced v ≡ true) ↔ (d.gross_minor ≡ add64 d.net_minor d.vat_minor)
unfolding invoice_verification
invoice_verification-balanced descending accounts d v fits e =
    elim (Bool-cases (eqb_ℤ (sold accounts d).sum d.net_minor)) [
      | inl z ↦
          (let (q, made, tax, same) = finish-ok d _ v (rw z at e) in
            balanced_iff v q d (sold accounts d).sum fits same (eqb_ℤ→≡ _ _ z) tax
              (posted-sum accounts d q _ fits made))
      | inr z ↦ absurd (no_error (rw z at e))
    ]
