-- ===== src/Access/Role.antt =====
-- `Role`, `Roles` and `Module` of internal/access/access.go.
use free_sms.Common.{Bool, true, false, ◌||◌, List, [], ◌∷◌, ◌++◌, if◌then◌else◌}
use free_sms.Common.Text.{Text, codes, text_eq}

-- A role is a string, and so is a module; these are the ones there are.
abbrev pub Role : Type 0
Role = Text

abbrev pub Module : Type 0
Module = Text

abbrev pub owner : Role
owner = codes "owner"

abbrev pub service_advisor : Role
service_advisor = codes "service_advisor"

abbrev pub technician : Role
technician = codes "technician"

abbrev pub parts : Role
parts = codes "parts"

abbrev pub admin : Role
admin = codes "admin"

abbrev pub sales : Role
sales = codes "sales"

abbrev pub buyer : Role
buyer = codes "buyer"

abbrev pub rental_agent : Role
rental_agent = codes "rental_agent"

abbrev pub workshop : Module
workshop = codes "workshop"

abbrev pub dealer : Module
dealer = codes "dealer"

abbrev pub rental : Module
rental = codes "rental"

abbrev pub is_role : Role → Role → Bool
is_role r q = text_eq r q

abbrev pub is_module : Module → Module → Bool
is_module m n = text_eq m n

-- `slices.Contains`.
abbrev pub contains_role : List Role → Role → Bool
contains_role [] r = false
contains_role (q ∷ qs) r = is_role q r || contains_role qs r

abbrev pub contains_module : List Module → Module → Bool
contains_module [] m = false
contains_module (n ∷ ns) m = is_module n m || contains_module ns m

abbrev pub all_roles : List Role
all_roles = owner ∷ service_advisor ∷ technician ∷ parts ∷ admin ∷ sales ∷ buyer ∷ rental_agent ∷ []

unfoldable pub role_valid : Role → Bool
role_valid r = contains_role all_roles r

-- `Role.Module`; the empty string for a role of no module.
unfoldable pub module_of : Role → Module
module_of r =
    if is_role r service_advisor || is_role r technician || is_role r parts
    then workshop
    else if is_role r sales || is_role r buyer
    then dealer
    else if is_role r rental_agent
    then rental
    else []

-- The words of a map from strings, and the string itself where it has none.
abbrev pub label_in : List (Text × Text) → Text → Text
label_in [] s = s
label_in ((key, label) ∷ rest) s = if text_eq key s then label else label_in rest s

abbrev pub role_labels : List (Text × Text)
role_labels =
    (owner, codes "Owner")
    ∷ (service_advisor, codes "Front desk")
    ∷ (technician, codes "Technician")
    ∷ (parts, codes "Parts")
    ∷ (admin, codes "Administrator")
    ∷ (sales, codes "Salesperson")
    ∷ (buyer, codes "Buyer")
    ∷ (rental_agent, codes "Rental desk")
    ∷ []

unfoldable pub role_label : Role → Text
role_label r = label_in role_labels r

unfoldable pub runs_it : Role → Bool
runs_it r = is_role r owner || is_role r admin

-- The capabilities of one role.
unfoldable pub sees_customer_personal_data : Role → Bool
unfolding runs_it
sees_customer_personal_data r = runs_it r || is_role r service_advisor

unfoldable pub runs_the_shop : Role → Bool
unfolding runs_it
runs_the_shop r = runs_it r

unfoldable pub sees_parts : Role → Bool
unfolding sees_customer_personal_data
sees_parts r = is_role r parts || sees_customer_personal_data r

unfoldable pub handles_parts : Role → Bool
unfolding sees_parts
handles_parts r = is_role r technician || sees_parts r

unfoldable pub follows_jobs : Role → Bool
unfolding sees_customer_personal_data
follows_jobs r = is_role r technician || sees_customer_personal_data r

unfoldable pub works_in_the_workshop : Role → Bool
unfolding runs_it module_of
works_in_the_workshop r = runs_it r || is_module (module_of r) workshop

unfoldable pub sells_vehicles : Role → Bool
unfolding runs_it
sells_vehicles r = runs_it r || is_role r sales

unfoldable pub buys_vehicles : Role → Bool
unfolding runs_it
buys_vehicles r = runs_it r || is_role r buyer

unfoldable pub sees_purchase_price : Role → Bool
unfolding buys_vehicles
sees_purchase_price r = buys_vehicles r

unfoldable pub sees_margin : Role → Bool
unfolding sees_purchase_price
sees_margin r = sees_purchase_price r

unfoldable pub hands_over_rentals : Role → Bool
unfolding runs_it
hands_over_rentals r = runs_it r || is_role r rental_agent

unfoldable pub keeps_resources : Role → Bool
unfolding runs_it
keeps_resources r = runs_it r || is_role r buyer || is_role r rental_agent

unfoldable pub sees_identity_records : Role → Bool
unfolding runs_it
sees_identity_records r = runs_it r || is_role r sales || is_role r buyer || is_role r rental_agent

-- The roles one person holds, the main one first.
abbrev pub Roles : Type 0
Roles = List Role

unfoldable pub add_roles : Roles → List Role → Roles
add_roles out [] = out
add_roles out (r ∷ rs) = add_roles (if contains_role out r then out else out ++ (r ∷ [])) rs

-- `Of`.
unfoldable pub of : Role → List Role → Roles
unfolding add_roles
of main others = add_roles (main ∷ []) others

unfoldable pub main_role : Roles → Role
main_role [] = []
main_role (r ∷ rs) = r

abbrev pub has_role : Roles → Role → Bool
has_role = contains_role

abbrev pub every_valid : Roles → Bool
every_valid [] = true
every_valid (r ∷ rs) = if role_valid r then every_valid rs else false

unfoldable pub roles_valid : Roles → Bool
unfolding role_valid
roles_valid [] = false
roles_valid (r ∷ rs) = every_valid (r ∷ rs)

unfoldable pub roles_label : Roles → Text
unfolding role_label main_role
roles_label rs = role_label (main_role rs)

-- Any role held that has the capability; the thirteen methods of `Roles` are this at each.
abbrev pub any_role : (Role → Bool) → Roles → Bool
any_role has [] = false
any_role has (r ∷ rs) = has r || any_role has rs

abbrev pub all_modules : List Module
all_modules = workshop ∷ dealer ∷ rental ∷ []

unfoldable pub module_valid : Module → Bool
module_valid m = contains_module all_modules m

abbrev pub module_labels : List (Text × Text)
module_labels =
    (workshop, codes "Workshop") ∷ (dealer, codes "Car sales") ∷ (rental, codes "Rental") ∷ []

unfoldable pub module_label : Module → Text
module_label m = label_in module_labels m
