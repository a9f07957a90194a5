-- ===== src/Access/Scope.antt =====
-- `Scope` of internal/access/access.go: the only way to the data of a shop.
use free_sms.Common.{
  ℕ, Bool, true, false, not, ◌&&◌, ◌||◌, List, [], ◌∷◌, Option, none, some, leb, ◌==◌,
  if◌then◌else◌,
}
use free_sms.Common.Text.{Text, codes, text_eq, is_empty}
use free_sms.Access.Role.{
  technician, Roles, Module, any_role, has_role, contains_module, roles_valid,
  sees_customer_personal_data, sees_parts, runs_the_shop,
}

-- One hexadecimal digit, and the pattern of an identifier: 8-4-4-4-12 of them.
unfoldable pub is_hex : ℕ → Bool
is_hex c = (leb b'0' c && leb c b'9') || (leb b'a' c && leb c b'f') || (leb b'A' c && leb c b'F')

pub data Mark : Type 0 where
  hex dash : Mark

abbrev pub matches_marks : List Mark → Text → Bool
matches_marks [] [] = true
matches_marks [] (c ∷ s) = false
matches_marks (m ∷ ms) [] = false
matches_marks (hex ∷ ms) (c ∷ s) = is_hex c && matches_marks ms s
matches_marks (dash ∷ ms) (c ∷ s) = (c == b'-') && matches_marks ms s

abbrev pub four : List Mark → List Mark
four ms = hex ∷ hex ∷ hex ∷ hex ∷ ms

abbrev pub uuid_pattern : List Mark
uuid_pattern = four (four (dash ∷ four (dash ∷ four (dash ∷ four (dash ∷ four (four (four [])))))))

unfoldable pub is_uuid : Text → Bool
unfolding is_hex
is_uuid s = matches_marks uuid_pattern s

-- The fields of a job that may be opened for a technician.
abbrev pub Field : Type 0
Field = Text

abbrev pub cost_ceiling : Field
cost_ceiling = codes "cost_ceiling"

abbrev pub line_prices : Field
line_prices = codes "line_prices"

abbrev pub hourly_rate : Field
hourly_rate = codes "hourly_rate"

abbrev pub customer_name : Field
customer_name = codes "customer_name"

abbrev pub customer_phone : Field
customer_phone = codes "customer_phone"

abbrev pub invoice_status : Field
invoice_status = codes "invoice_status"

abbrev pub is_field : Field → Field → Bool
is_field f g = text_eq f g

abbrev pub contains_field : List Field → Field → Bool
contains_field [] f = false
contains_field (g ∷ gs) f = is_field g f || contains_field gs f

abbrev pub technician_fields : List Field
technician_fields =
    cost_ceiling ∷ line_prices ∷ hourly_rate ∷ customer_name ∷ customer_phone ∷ invoice_status ∷ []

pub record Scope : Type 0 where
  pub shop_id : Text
  pub user_id : Text
  pub role : Roles
  pub planner : Bool
  pub modules : List Module
  pub opened : List Field

unfoldable pub sees_on_job : Scope → Field → Bool
sees_on_job s field =
    if any_role sees_customer_personal_data s.role
      || (is_field field line_prices && any_role sees_parts s.role)
    then contains_field technician_fields field
    else has_role s.role technician
      && contains_field technician_fields field
      && contains_field s.opened field

-- The loop of `OpenedForTechnician`.
abbrev pub some_opened : Scope → List Field → Bool
some_opened s [] = false
some_opened s (f ∷ fs) =
    (sees_on_job s f && not (any_role sees_customer_personal_data s.role)) || some_opened s fs

unfoldable pub opened_for_technician : Scope → Bool
unfolding sees_on_job
opened_for_technician s = some_opened s technician_fields

unfoldable pub scope_uses : Scope → List Module → Bool
scope_uses s [] = true
scope_uses s (m ∷ ms) = if not (contains_module s.modules m) then false else scope_uses s ms

unfoldable pub offers : Scope → Module → Bool
offers s m = contains_module s.modules m

-- The module that is off, named by `ErrModuleOff`; `none` is no error.
unfoldable pub require_modules : Scope → List Module → Option Module
unfolding scope_uses
require_modules s [] = none
require_modules s (m ∷ ms) = if not (scope_uses s (m ∷ [])) then some m else require_modules s ms

unfoldable pub plans_staff : Scope → Bool
plans_staff s = any_role runs_the_shop s.role || s.planner

-- What is wrong with a scope; `none` is nothing.
pub data ScopeError : Type 0 where
  no_scope bad_shop_id bad_user_id unknown_roles : ScopeError

unfoldable pub validate : Scope → Option ScopeError
validate s =
    if is_empty s.shop_id
    then some no_scope
    else if not (is_uuid s.shop_id)
    then some bad_shop_id
    else if not (is_empty s.user_id) && not (is_uuid s.user_id)
    then some bad_user_id
    else if not (roles_valid s.role)
    then some unknown_roles
    else none
