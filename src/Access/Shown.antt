-- ===== src/Access/Shown.antt =====
-- What a person is shown, of internal/access/access.go: prices, the fields of a job, modules.
use free_sms.Common.{
  ◌≡◌, ◌↔◌, ap, subst, All, Has, inl, inr, refl, Bool, true, false, ◌&&◌, ◌||◌, List, [], ◌∷◌, ◌++◌,
  Option, none, some, arith, if◌then◌else◌, Bool-cases,
}
use free_sms.Access.Role.{
  technician, Roles, Module, any_role, has_role, contains_role, contains_module,
  sees_customer_personal_data, sees_parts,
}
use free_sms.Access.Scope.{
  Scope, Field, line_prices, technician_fields, contains_field, is_field, sees_on_job, scope_uses,
  require_modules,
}
use free_sms.Common.Text.{text_eq}
use free_sms.Common.Text.Laws.{text_eq→eq, text_eq_refl}
use free_sms.Access.Laws.{contains_role-append, any_role-append}

-- The tests of `SeesOnJob` by themselves: the counter, the prices' field, the parts desk, one of the
-- six fields, a technician, and opened.
abbrev tests : Bool → Bool → Bool → Bool → Bool → Bool → Bool
tests c p d l t o = if c || (p && d) then l else t && l && o

tests_mono :
    (c p d l t o c' d' t' : Bool)
    → tests c p d l t o ≡ true
    → tests (c || c') p (d || d') l (t || t') o ≡ true
tests_mono c p d l t o c' d' t' h = ground arith

-- One more role never hides a field that was shown.
pub sees_on_job_mono :
    (s : Scope) (more : Roles) (f : Field)
    → sees_on_job s f ≡ true
    → sees_on_job (record s { role = s.role ++ more }) f ≡ true
unfolding sees_on_job
sees_on_job_mono s more f h =
    rw
      (
        any_role-append sees_customer_personal_data s.role more,
        any_role-append sees_parts s.role more,
        contains_role-append s.role more technician,
      )
      (tests_mono (any_role sees_customer_personal_data s.role) (is_field f line_prices)
        (any_role sees_parts s.role) (contains_field technician_fields f)
        (has_role s.role technician) (contains_field s.opened f)
        (any_role sees_customer_personal_data more) (any_role sees_parts more)
        (contains_role more technician) h)

pub contains_module-Has : (ms : List Module) (m : Module) → (contains_module ms m ≡ true) ↔ Has m ms
contains_module-Has [] m = (λ e. absurd cc, λ h. absurd h)
contains_module-Has (n ∷ ns) m = elim (Bool-cases (text_eq n m)) [
  | inl e ↦ rw e (λ _. inl (text_eq→eq n m e), λ _. refl)
  | inr e ↦ rw e (
    λ h. inr ((contains_module-Has ns m).0 h),
    λ h. elim h [
      | inl same ↦ absurd (apart n m e same)
      | inr there ↦ (contains_module-Has ns m).1 there
    ],
  )
]
  where
    apart : (n m : Module) → text_eq n m ≡ false → n ≡ m → ⊥
    apart n m e same =
        let kept : text_eq n m ≡ true = subst (λ k. text_eq n k ≡ true) same (text_eq_refl n) in cc

-- What a refusal of the modules of a list says.
abbrev pub Refusal : Scope → List Module → Option Module → Type 0
Refusal s ms none = All (λ m. Has m s.modules) ms
Refusal s ms (some m) =
    (before : List Module) × (after : List Module) × (ms ≡ before ++ (m ∷ after))
    × All (λ n. Has n s.modules) before
    × (¬ Has m s.modules)

later :
    (s : Scope) (m : Module) (ms : List Module) (o : Option Module)
    → Has m s.modules
    → Refusal s ms o
    → Refusal s (m ∷ ms) o
later s m ms none here h = (here, h)
later s m ms (some n) here (before, after, e, h, off) =
    (m ∷ before, after, ap (λ l. m ∷ l) e, (here, h), off)

require_modules-first : (s : Scope) (ms : List Module) → Refusal s ms (require_modules s ms)
unfolding require_modules scope_uses
require_modules-first s [] = tt
require_modules-first s (m ∷ ms) = elim (Bool-cases (contains_module s.modules m)) [
  | inl e ↦ rw e (
      later s m ms (require_modules s ms) ((contains_module-Has s.modules m).0 e)
        (require_modules-first s ms))
  | inr e ↦ rw e ([], ms, refl, tt, λ h. (let there = (contains_module-Has s.modules m).1 h in cc))
]

scope_uses-All :
    (s : Scope) (ms : List Module) → (scope_uses s ms ≡ true) ↔ All (λ m. Has m s.modules) ms
unfolding scope_uses
scope_uses-All s [] = (λ _. tt, λ _. refl)
scope_uses-All s (m ∷ ms) = elim (Bool-cases (contains_module s.modules m)) [
  | inl e ↦ rw e (
    λ h. ((contains_module-Has s.modules m).0 e, (scope_uses-All s ms).0 h),
    λ h. (scope_uses-All s ms).1 h.1,
  )
  | inr e ↦
      rw e (λ h. absurd cc, λ h. absurd (let there = (contains_module-Has s.modules m).1 h.0 in cc))
]

-- A refusal names the first module of the list that is not among the shop's, those before it being
-- there; where there is no refusal all of the list are there; and a scope uses a list of modules
-- just when all of them are among the shop's.
pub require_modules-Refusal :
    (s : Scope) (ms : List Module)
    → Refusal s ms (require_modules s ms)
      × ((scope_uses s ms ≡ true) ↔ All (λ m. Has m s.modules) ms)
require_modules-Refusal s ms = (require_modules-first s ms, scope_uses-All s ms)
