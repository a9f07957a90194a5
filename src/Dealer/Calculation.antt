-- ===== src/Dealer/Calculation.antt =====
-- internal/workshop/dealer_calculations.go: from what a car should sell for, what it costs and the
-- margin wanted, the most that may be paid for it. Amounts are minor units.
mod Examples
pub mod Margins
pub mod Bids
pub mod Result
use free_sms.Common.{
  ℕ, zero, suc, Bool, true, false, not, ◌&&◌, ◌||◌, List, [], ◌∷◌, Option, none, some, ltb,
  if◌then◌else◌, length,
}
use free_sms.Common.Int.{ℤ, pos, negsuc, add64, sub64, mul64, ltb_ℤ, leb_ℤ}
use free_sms.Common.Text.{Text, trim_space}
use free_sms.Money.Rounding.{share, scale, margin_scheme_vat}
use free_sms.Dealer.{SellerType, seller_unsaid, is_seller_type, from_purchase, eligible_for}

-- The kinds of cost, and a text that is none of them.
pub data CostKind : Type 0 where
  cost_reconditioning cost_workshop cost_parts cost_transport cost_inspection cost_registration
        cost_advertising cost_other cost_unknown :
      CostKind

abbrev pub is_cost_kind : CostKind → Bool
is_cost_kind cost_unknown = false
is_cost_kind k = true

abbrev pub car_vat_basis : ℤ
car_vat_basis = pos 2500

abbrev pub max_purchase_minor : ℤ
max_purchase_minor = pos 100_000_000_000

pub record CalculationCost : Type 0 where
  pub kind : CostKind
  pub net_minor : ℤ

pub record CalculationInput : Type 0 where
  pub expected_sale_gross_minor : Option ℤ
  pub costs : List CalculationCost
  pub expected_stock_days : ℤ
  pub holding_per_day_minor : ℤ
  pub target_margin_minor : Option ℤ
  pub target_margin_basis : Option ℤ
  pub seller_type : SellerType
  pub note : Text

pub record Bid : Type 0 where
  pub max_bid_minor : ℤ
  pub sale_vat_minor : ℤ

abbrev pub possible : Bid → Bool
possible b = leb_ℤ (pos 0) b.max_bid_minor

pub record CalculationResult : Type 0 where
  pub costs_minor : ℤ
  pub holding_minor : ℤ
  pub target_minor : ℤ
  pub loss_leader : Bool
  pub no_sale_price : Bool
  pub ordinary : Bid
  pub margin_bid : Option Bid

pub data CalculationError : Type 0 where
  calc_sale calc_cost calc_costs calc_days calc_margin calc_seller_type calc_note : CalculationError

-- A value that is given lies between two bounds.
abbrev pub given_outside : ℤ → ℤ → Option ℤ → Bool
given_outside low high none = false
given_outside low high (some n) = ltb_ℤ n low || ltb_ℤ high n

abbrev pub both_given : Option ℤ → Option ℤ → Bool
both_given (some a) (some b) = true
both_given a b = false

abbrev pub bad_cost : CalculationCost → Bool
bad_cost c =
    not (is_cost_kind c.kind) || ltb_ℤ c.net_minor (pos 0) || ltb_ℤ (pos 10_000_000_000) c.net_minor

unfoldable pub some_bad_cost : List CalculationCost → Bool
some_bad_cost [] = false
some_bad_cost (c ∷ cs) = bad_cost c || some_bad_cost cs

abbrev pub unknown_seller : SellerType → Bool
unknown_seller seller_unsaid = false
unknown_seller t = not (is_seller_type t)

-- `none` where the input may be used.
unfoldable pub check : CalculationInput → Option CalculationError
unfolding some_bad_cost
check x =
    if given_outside (pos 0) max_purchase_minor x.expected_sale_gross_minor
    then some calc_sale
    else if ltb 50 (length x.costs)
    then some calc_costs
    else if some_bad_cost x.costs
    then some calc_cost
    else if ltb_ℤ x.expected_stock_days (pos 0)
        || ltb_ℤ (pos 3650) x.expected_stock_days
        || ltb_ℤ x.holding_per_day_minor (pos 0)
        || ltb_ℤ (pos 100_000_000) x.holding_per_day_minor
    then some calc_days
    else if both_given x.target_margin_minor x.target_margin_basis
        || given_outside (negsuc 99_999_999_999) max_purchase_minor x.target_margin_minor
        || given_outside (negsuc 9999) (pos 10000) x.target_margin_basis
    then some calc_margin
    else if unknown_seller x.seller_type
    then some calc_seller_type
    else if ltb 1000 (length (trim_space x.note))
    then some calc_note
    else none

-- The closure `left`: what is left of the sale at a price, after its VAT.
unfoldable pub left : ℤ → ℤ → ℤ
left sale p = sub64 (sub64 sale (margin_scheme_vat sale p car_vat_basis)) p

-- The two loops that make the price exact; the code's counter is the fuel.
unfoldable pub lower : ℕ → ℤ → ℤ → ℤ → ℤ
unfolding left
lower zero sale keep p = p
lower (suc n) sale keep p =
    let rest = lower n sale keep (sub64 p (pos 1)) in if ltb_ℤ (left sale p) keep then rest else p

unfoldable pub raise : ℕ → ℤ → ℤ → ℤ → ℤ
unfolding left
raise zero sale keep p = p
raise (suc n) sale keep p =
    let rest = raise n sale keep (add64 p (pos 1)) in
    if leb_ℤ keep (left sale (add64 p (pos 1))) then rest else p

-- The price before it is made exact.
unfoldable pub first_price : ℤ → ℤ → ℤ
first_price sale keep =
    if leb_ℤ (pos 0) keep
    then sub64 sale (scale keep (add64 (pos 10000) car_vat_basis) (pos 10000))
    else sub64 sale keep

unfoldable pub margin_scheme_bid : ℤ → ℤ → Bid
unfolding lower raise first_price
margin_scheme_bid sale keep =
    let p = raise 4 sale keep (lower 4 sale keep (first_price sale keep)) in
    record { max_bid_minor = p; sale_vat_minor = margin_scheme_vat sale p car_vat_basis }

-- The loop over the costs, with the sum so far.
unfoldable pub sum_costs : List CalculationCost → ℤ → ℤ
sum_costs [] n = n
sum_costs (c ∷ cs) n = sum_costs cs (add64 n c.net_minor)

abbrev pub given_or_zero : Option ℤ → ℤ
given_or_zero none = pos 0
given_or_zero (some n) = n

abbrev pub given_below_zero : Option ℤ → Bool
given_below_zero none = false
given_below_zero (some n) = ltb_ℤ n (pos 0)

-- The margin wanted of a car to sell at `sale`.
abbrev pub target : ℤ → Option ℤ → Option ℤ → ℤ
target sale (some amount) basis = amount
target sale none (some basis) = share sale basis
target sale none none = pos 0

abbrev pub result_at : CalculationInput → ℤ → ℤ → Option ℤ → CalculationResult
result_at x costs holding none = record {
  costs_minor = costs;
  holding_minor = holding;
  target_minor = given_or_zero x.target_margin_minor;
  loss_leader =
      ltb_ℤ (given_or_zero x.target_margin_minor) (pos 0) || given_below_zero x.target_margin_basis;
  no_sale_price = true;
  ordinary = record { max_bid_minor = pos 0; sale_vat_minor = pos 0 };
  margin_bid = none;
}
result_at x costs holding (some sale) =
    let wanted = target sale x.target_margin_minor x.target_margin_basis in
    let keep = add64 (add64 costs holding) wanted in
    let sale_vat = scale sale car_vat_basis (add64 (pos 10000) car_vat_basis) in
    record {
      costs_minor = costs;
      holding_minor = holding;
      target_minor = wanted;
      loss_leader = ltb_ℤ wanted (pos 0);
      no_sale_price = false;
      ordinary = record {
        max_bid_minor = sub64 (sub64 sale sale_vat) keep;
        sale_vat_minor = sale_vat;
      };
      margin_bid =
          if (eligible_for x.seller_type from_purchase 1).0
          then some (margin_scheme_bid sale keep)
          else none;
    }

unfoldable pub result : CalculationInput → CalculationResult
unfolding sum_costs eligible_for margin_scheme_bid
result x =
    result_at x (sum_costs x.costs (pos 0)) (mul64 x.expected_stock_days x.holding_per_day_minor)
      x.expected_sale_gross_minor
