-- ===== src/Voucher.antt =====
-- internal/workshop/accounting.go: what the books receive for an invoice, a credit note and a payment.
-- A map is a function whose value is 0 for a missing key, and the map of the VAT a list; the order
-- that the sort package gives is a parameter.
mod Examples
pub mod Balance
pub mod Export
use free_sms.Common.{
  List, [], ◌∷◌, ◌++◌, Option, none, some, Bool, true, false, map, if◌then◌else◌, ◌>>=◌,
}
use free_sms.Common.Int.{ℤ, pos, add64, neg64, eqb_ℤ}
use free_sms.Common.Text.{Text, codes}
use free_sms.Sie.{Day, SieEntry, Verification, SieFile, SieResult, AccountName, show_int, write}

-- What an account is for: the keys of the chart.
pub data Purpose : Type 0 where
  receivable sales sublet consumables invoice_fee cash bank vat_25 vat_12 vat_6 rounding : Purpose

abbrev pub Chart : Type 0
Chart = Purpose → ℤ

pub record RateAmount : Type 0 where
  pub rate : ℤ
  pub minor : ℤ

pub record VoucherDocument : Type 0 where
  pub series : Text
  pub number : ℤ
  pub issued : Day
  pub customer : Text
  pub credit : Bool
  pub net_minor : ℤ
  pub vat_minor : ℤ
  pub gross_minor : ℤ
  pub net_by_purpose : Purpose → ℤ
  pub vat_by_rate : List RateAmount

abbrev pub vat_account : ℤ → Option Purpose
vat_account rate =
    if eqb_ℤ rate (pos 2500)
    then some vat_25
    else if eqb_ℤ rate (pos 1200)
    then some vat_12
    else if eqb_ℤ rate (pos 600)
    then some vat_6
    else none

pub data VoucherError : Type 0 where
  net_disagrees unsupported_rate vat_disagrees : VoucherError

pub data VoucherResult : Type 0 where
  ok : Verification → VoucherResult
  err : VoucherError → VoucherResult

-- The entries so far, and what they come to: the variables `sold` and `posted`.
pub record Posted : Type 0 where
  pub entries : List SieEntry
  pub sum : ℤ

abbrev pub post : ℤ → ℤ → Posted → Posted
post account minor p = record {
  entries = p.entries ++ (record { account = account; minor = neg64 minor } ∷ []);
  sum = add64 p.sum minor;
}

unfoldable pub post_sales : Chart → (Purpose → ℤ) → List Purpose → Posted → Posted
post_sales accounts nets [] p = p
post_sales accounts nets (k ∷ ks) p =
    post_sales accounts nets ks (if eqb_ℤ (nets k) (pos 0) then p else post (accounts k) (nets k) p)

unfoldable pub amount_at : ℤ → List RateAmount → ℤ
amount_at rate [] = pos 0
amount_at rate (r ∷ rs) = if eqb_ℤ r.rate rate then r.minor else amount_at rate rs

abbrev pub rates_of : List RateAmount → List ℤ
rates_of [] = []
rates_of (r ∷ rs) = r.rate ∷ rates_of rs

-- The loop over the rates; `none` at a rate that has no account.
unfoldable pub post_vat : Chart → List RateAmount → List ℤ → Posted → Option Posted
unfolding amount_at
post_vat accounts amounts [] p = some p
post_vat accounts amounts (rate ∷ rates) p =
    let amount = amount_at rate amounts in
    let next = vat_account rate >>= λ purpose.
    post_vat accounts amounts rates (post (accounts purpose) amount p) in
    let skip = post_vat accounts amounts rates p in if eqb_ℤ amount (pos 0) then skip else next

abbrev pub sales_purposes : List Purpose
sales_purposes = sales ∷ sublet ∷ consumables ∷ invoice_fee ∷ []

abbrev pub document_text : VoucherDocument → Text
document_text d =
    (if d.credit then codes "Kreditfaktura " else codes "Faktura ")
    ++ (d.series ++ (b'-' ∷ (show_int d.number ++ (b' ' ∷ d.customer))))

abbrev pub finish : VoucherDocument → Option Posted → VoucherResult
finish d none = err unsupported_rate
finish d (some p) =
    if eqb_ℤ p.sum d.vat_minor
    then ok (record {
      series = d.series;
      number = show_int d.number;
      date = d.issued;
      text = document_text d;
      entries = p.entries;
    })
    else err vat_disagrees

unfoldable pub invoice_verification : (List ℤ → List ℤ) → Chart → VoucherDocument → VoucherResult
unfolding post_sales post_vat show_int
invoice_verification descending accounts d =
    let first = record { account = accounts receivable; minor = d.gross_minor } ∷ [] in
    let sold =
      post_sales accounts d.net_by_purpose sales_purposes
        (record { entries = first; sum = pos 0 }) in
    if eqb_ℤ sold.sum d.net_minor
    then finish d (
        post_vat accounts d.vat_by_rate (descending (rates_of d.vat_by_rate))
          (record { entries = sold.entries; sum = pos 0 }))
    else err net_disagrees

-- A row of the payments that are exported.
pub record Payment : Type 0 where
  pub number : ℤ
  pub paid_on : Day
  pub in_cash : Bool
  pub amount : ℤ
  pub rounded : ℤ
  pub reverses : Bool
  pub invoice_ref : Text
  pub customer : Text

abbrev pub rounding_entries : Chart → ℤ → List SieEntry
rounding_entries accounts rounded =
    if eqb_ℤ rounded (pos 0)
    then []
    else record { account = accounts rounding; minor = rounded } ∷ []

-- The series of the payments.
abbrev pub payment_series : Text
payment_series = codes "B"

unfoldable pub payment_verification : Chart → Payment → Verification
unfolding show_int
payment_verification accounts p = record {
  series = payment_series;
  number = show_int p.number;
  date = p.paid_on;
  text =
      (if p.reverses then codes "Rättelse av betalning " else codes "Betalning ")
      ++ (p.invoice_ref ++ (b' ' ∷ p.customer));
  entries =
      record { account = if p.in_cash then accounts cash else accounts bank; minor = p.amount }
      ∷ (rounding_entries accounts p.rounded
          ++ (record { account = accounts receivable; minor = neg64 (add64 p.amount p.rounded) }
              ∷ []));
}

-- The vouchers of an export, the documents' first; an error stops it.
pub data Vouchers : Type 0 where
  all : List Verification → Vouchers
  refused : VoucherError → Vouchers

abbrev pub with_first : VoucherResult → Vouchers → Vouchers
with_first (err e) vs = refused e
with_first (ok v) (refused e) = refused e
with_first (ok v) (all vs) = all (v ∷ vs)

unfoldable pub vouchers : (List ℤ → List ℤ) → Chart → List VoucherDocument → List Payment → Vouchers
unfolding invoice_verification payment_verification
vouchers descending accounts [] pays = all (map (payment_verification accounts) pays)
vouchers descending accounts (d ∷ ds) pays =
    with_first (invoice_verification descending accounts d) (vouchers descending accounts ds pays)
