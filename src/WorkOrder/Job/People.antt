-- ===== src/WorkOrder/Job/People.antt =====
-- What the tests of a person, a shop and a move say, of internal/access/access.go and of
-- `MayTransition` of internal/workshop/state.go.
use free_sms.Common.{
  ◌↔◌, refl, if◌then◌else◌, ◌≡◌, ◌≢◌, ◌⊎◌, Bool, true, false, not, ◌&&◌, ◌||◌, List, [], ◌∷◌, none,
  some, arith, All, Any, Has,
}
use free_sms.Common.Text.{Text, is_empty}
use free_sms.Access.Role.{
  Role, Roles, dealer, rental, owner, admin, service_advisor, technician, parts, sales, buyer,
  rental_agent, all_roles, workshop, any_role, has_role, contains_role, contains_module,
  every_valid, is_role, is_module, role_valid, roles_valid, module_of, runs_it,
  works_in_the_workshop, sees_customer_personal_data,
}
use free_sms.Access.Scope.{
  no_scope, bad_shop_id, bad_user_id, unknown_roles, Scope, require_modules, scope_uses, validate,
  is_uuid,
}
use free_sms.Access.Shown.{contains_module-Has}
use free_sms.WorkOrder.State.{
  State, contains_state, transitions, can_transition, may_transition, technician_moves,
}
use free_sms.WorkOrder.Job.Tests.{
  or_sum, and_pair, and_sum, not-false, itself, compose, pair_iff, contains_state_iff, text_eq_iff,
}

-- Roles, as statements.
pub contains_role_iff : (qs : List Role) (r : Role) → (contains_role qs r ≡ true) ↔ Has r qs
contains_role_iff [] r = (λ e. absurd cc, λ h. absurd h)
contains_role_iff (q ∷ qs) r = or_sum (text_eq_iff q r) (contains_role_iff qs r)

pub any_role_iff :
    (has : Role → Bool) {P : Role → Type 0}
    → ((r : Role) → (has r ≡ true) ↔ P r)
    → (rs : Roles) → (any_role has rs ≡ true) ↔ Any P rs
any_role_iff has h [] = (λ e. absurd cc, λ q. absurd q)
any_role_iff has h (r ∷ rs) = or_sum (h r) (any_role_iff has h rs)

-- The roles that run the shop, that deal with customers, and that work in the workshop.
abbrev pub IsRunner : Role → Type 0
IsRunner r = (r ≡ owner) ⊎ (r ≡ admin)

abbrev pub IsDesk : Role → Type 0
IsDesk r = IsRunner r ⊎ (r ≡ service_advisor)

abbrev pub IsWorker : Role → Type 0
IsWorker r = IsRunner r ⊎ (((r ≡ service_advisor) ⊎ (r ≡ technician)) ⊎ (r ≡ parts))

IsRunner-iff : (r : Role) → (runs_it r ≡ true) ↔ IsRunner r
unfolding runs_it
IsRunner-iff r = or_sum (text_eq_iff r owner) (text_eq_iff r admin)

IsDesk-iff : (r : Role) → (sees_customer_personal_data r ≡ true) ↔ IsDesk r
unfolding sees_customer_personal_data
IsDesk-iff r = or_sum (IsRunner-iff r) (text_eq_iff r service_advisor)

in_the_workshop :
    (runs three cars hire : Bool)
    → (runs
        || is_module
            (if three then workshop else if cars then dealer else if hire then rental else [])
            workshop)
      ≡ (runs || three)
in_the_workshop runs true cars hire = refl
in_the_workshop runs false true hire = refl
in_the_workshop runs false false true = refl
in_the_workshop runs false false false = refl

pub IsWorker-iff : (r : Role) → (works_in_the_workshop r ≡ true) ↔ IsWorker r
unfolding works_in_the_workshop module_of
IsWorker-iff r =
    rw
      (in_the_workshop (runs_it r)
        (is_role r service_advisor || is_role r technician || is_role r parts)
        (is_role r sales || is_role r buyer) (is_role r rental_agent))
      (or_sum (IsRunner-iff r) (
        or_sum (or_sum (text_eq_iff r service_advisor) (text_eq_iff r technician))
          (text_eq_iff r parts)))

valid_role_iff : (r : Role) → (role_valid r ≡ true) ↔ Has r all_roles
unfolding role_valid
valid_role_iff r = contains_role_iff all_roles r

every_valid_iff : (rs : Roles) → (every_valid rs ≡ true) ↔ All (λ r. Has r all_roles) rs
every_valid_iff [] = (λ _. tt, λ _. refl)
every_valid_iff (r ∷ rs) =
    compose (both (role_valid r) (every_valid rs))
      (and_pair (valid_role_iff r) (every_valid_iff rs))
  where
    both : (a b : Bool) → ((if a then b else false) ≡ true) ↔ ((a && b) ≡ true)
    both true b = itself
    both false b = itself

pub roles_valid_iff :
    (rs : Roles) → (roles_valid rs ≡ true) ↔ ((rs ≢ []) × All (λ r. Has r all_roles) rs)
unfolding roles_valid
roles_valid_iff [] = (λ e. absurd cc, λ (n, _). absurd (n refl))
roles_valid_iff (r ∷ rs) =
    (λ e. (λ h. cc, (every_valid_iff (r ∷ rs)).0 e), λ (_, h). (every_valid_iff (r ∷ rs)).1 h)

pub module_iff : (s : Scope) → (require_modules s (workshop ∷ []) ≡ none) ↔ Has workshop s.modules
unfolding require_modules scope_uses
module_iff s =
    compose (switch (contains_module s.modules workshop)) (contains_module-Has s.modules workshop)
  where
    switch :
        (b : Bool)
        → ((if not (if not b then false else true) then some workshop else none) ≡ none)
          ↔ (b ≡ true)
    switch true = (λ _. refl, λ _. refl)
    switch false = (λ e. ground arith, λ e. absurd cc)

-- A scope that the database takes.
abbrev pub IsScope : Scope → Type 0
IsScope s = (is_uuid s.shop_id ≡ true) × ((s.user_id ≡ []) ⊎ (is_uuid s.user_id ≡ true))

-- The moves that a person may make.
abbrev pub MayMove : Roles → State → State → Type 0
MayMove role from to =
    Has to (transitions from)
    × (Any IsDesk role ⊎ (Has technician role × Has to (technician_moves from)))

pub legal_iff : (from to : State) → (can_transition from to ≡ true) ↔ Has to (transitions from)
unfolding can_transition
legal_iff from to = contains_state_iff (transitions from) to

pub may_transition_iff :
    (role : Roles) (from to : State) → (may_transition role from to ≡ true) ↔ MayMove role from to
unfolding may_transition
may_transition_iff role from to =
    compose
      (chain (can_transition from to) (any_role sees_customer_personal_data role)
        (has_role role technician && contains_state (technician_moves from) to))
      (and_pair (legal_iff from to) (
        or_sum (any_role_iff sees_customer_personal_data IsDesk-iff role) (
          and_pair (contains_role_iff role technician)
            (contains_state_iff (technician_moves from) to))))
  where
    chain :
        (a b c : Bool)
        → ((if not a then false else if b then true else c) ≡ true) ↔ ((a && (b || c)) ≡ true)
    chain true true c = itself
    chain true false c = itself
    chain false b c = itself

user_iff : (u : Text) → (is_empty u ≡ true) ↔ (u ≡ [])
user_iff [] = (λ _. refl, λ _. refl)
user_iff (c ∷ u) = (λ h. absurd cc, λ h. absurd cc)

uuid-filled : (s : Text) → is_uuid s ≡ true → is_empty s ≡ false
unfolding is_uuid
uuid-filled [] h = absurd cc
uuid-filled (c ∷ s) h = refl

pub validate_iff : (s : Scope) → roles_valid s.role ≡ true → (validate s ≡ none) ↔ IsScope s
unfolding validate
validate_iff s r =
    compose
      (passes (is_empty s.shop_id) (is_uuid s.shop_id)
        (not (is_empty s.user_id) && not (is_uuid s.user_id)) (roles_valid s.role)
        (uuid-filled s.shop_id) r)
      (pair_iff itself (and_sum (not-false (user_iff s.user_id)) (not-false itself)))
  where
    passes :
        (e u n v : Bool)
        → (u ≡ true → e ≡ false)
        → v ≡ true
        → ((if e
              then some no_scope
              else if not u
              then some bad_shop_id
              else if n
              then some bad_user_id
              else if not v
              then some unknown_roles
              else none)
            ≡ none)
          ↔ ((u ≡ true) × (n ≡ false))
    passes e u n v filled r =
        (λ h. (ground arith, ground arith), λ (h, k). let f = filled h in ground arith)
