-- ===== src/Access/Examples.antt =====
-- What concrete people are shown, by internal/access/access.go.
use free_sms.Common.{◌≡◌, ◌↔◌, All, Has, refl, true, false, some, [], ◌∷◌}
use free_sms.Common.Text.{codes}
use free_sms.Access.Role.{
  service_advisor, technician, parts, workshop, dealer, of, sees_parts, sees_customer_personal_data,
  runs_it,
}
use free_sms.Access.Scope.{
  Scope, sees_on_job, line_prices, customer_phone, require_modules, scope_uses,
}
use free_sms.Access.Laws.{IsAdded, of-IsAdded}
use free_sms.Access.Shown.{Refusal, require_modules-Refusal, sees_on_job_mono}

-- A technician of a workshop where a job's prices are opened for technicians.
abbrev mechanic : Scope
mechanic = record {
  shop_id = codes "8b1f7f0e-2f0c-4c0b-9a7e-0d5f7f1c2a3b";
  user_id = codes "0c9d2e4a-7b1f-4e63-8a55-6f0e1d2c3b4a";
  role = technician ∷ [];
  planner = false;
  modules = workshop ∷ [];
  opened = line_prices ∷ [];
}

mechanic_prices : sees_on_job mechanic line_prices ≡ true
unfolding sees_on_job sees_customer_personal_data sees_parts runs_it
mechanic_prices = refl

mechanic_phone : sees_on_job mechanic customer_phone ≡ false
unfolding sees_on_job sees_customer_personal_data sees_parts runs_it
mechanic_phone = refl

mechanic-dealer : require_modules mechanic (workshop ∷ dealer ∷ []) ≡ some dealer
unfolding require_modules
mechanic-dealer = refl

require_modules-Refusal_example :
    Refusal mechanic (workshop ∷ dealer ∷ []) (require_modules mechanic (workshop ∷ dealer ∷ []))
    × ((scope_uses mechanic (workshop ∷ dealer ∷ []) ≡ true)
        ↔ All (λ m. Has m mechanic.modules) (workshop ∷ dealer ∷ []))
require_modules-Refusal_example = require_modules-Refusal mechanic (workshop ∷ dealer ∷ [])

of-IsAdded_example :
    IsAdded
      (service_advisor ∷ [])
      (parts ∷ service_advisor ∷ [])
      (of service_advisor (parts ∷ service_advisor ∷ []))
of-IsAdded_example = of-IsAdded service_advisor (parts ∷ service_advisor ∷ [])

roles_once : of service_advisor (parts ∷ service_advisor ∷ []) ≡ service_advisor ∷ parts ∷ []
unfolding of
roles_once = refl

-- The mechanic who is at the counter as well.
sees_on_job_mono_example :
    sees_on_job (record mechanic { role = technician ∷ service_advisor ∷ [] }) line_prices ≡ true
sees_on_job_mono_example =
    sees_on_job_mono mechanic (service_advisor ∷ []) line_prices mechanic_prices
