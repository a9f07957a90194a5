-- ===== src/Dealer.antt =====
-- What a car dealer decides, internal/workshop: who a car may be bought from under the margin scheme
-- (dealer_purchases.go), and the most that may be paid for it (dealer_calculations.go).
pub mod Calculation
use free_sms.Common.{ℕ, Bool, true, false, ◌==◌, if◌then◌else◌}

-- The kinds of seller; a text that is none of them, and the empty one.
pub data SellerType : Type 0 where
  seller_private company_no_deduction company_charged_vat se_dealer_margin eu_dealer_margin
        eu_reverse_charge non_eu_import new_means_of_transport seller_other seller_unsaid :
      SellerType

abbrev pub is_seller_type : SellerType → Bool
is_seller_type seller_other = false
is_seller_type seller_unsaid = false
is_seller_type t = true

-- Why a car came into stock.
pub data StockReason : Type 0 where
  from_purchase from_trade_in from_consignment from_repurchase from_defleet from_import :
      StockReason

-- Why a car is not eligible beyond its seller type.
pub data EligibilityNote : Type 0 where
  no_note no_evidence_yet eu_dealer repurchased : EligibilityNote

abbrev on_evidence : StockReason → ℕ → Bool × EligibilityNote
on_evidence from_repurchase evidence = (false, repurchased)
on_evidence reason evidence = if evidence == 0 then (false, no_evidence_yet) else (true, no_note)

unfoldable pub eligible_for : SellerType → StockReason → ℕ → Bool × EligibilityNote
eligible_for seller_private reason evidence = on_evidence reason evidence
eligible_for company_no_deduction reason evidence = on_evidence reason evidence
eligible_for se_dealer_margin reason evidence = on_evidence reason evidence
eligible_for eu_dealer_margin reason evidence = (false, eu_dealer)
eligible_for t reason evidence = (false, no_note)
