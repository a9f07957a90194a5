-- ===== src/Access/Laws.antt =====
-- What the capabilities of internal/access/access.go let through.
use free_sms.Common.{
  ◌≡◌, inl, inr, refl, ap, ◌∙◌, Bool, true, false, ◌||◌, List, [], ◌∷◌, ◌++◌, arith, if◌then◌else◌,
  Bool-cases,
}
use free_sms.Common.Text.Laws.{text_eq→eq, text_eq_sym}
use free_sms.Access.Role.{Role, Roles, any_role, is_role, contains_role, of, add_roles}

pub contains_role-append :
    (xs ys : Roles) (r : Role)
    → contains_role (xs ++ ys) r ≡ (contains_role xs r || contains_role ys r)
contains_role-append [] ys r = refl
contains_role-append (x ∷ xs) ys r = ground (arith, contains_role-append xs ys r)

pub any_role-append :
    (has : Role → Bool) (xs ys : Roles)
    → any_role has (xs ++ ys) ≡ (any_role has xs || any_role has ys)
any_role-append has [] ys = refl
any_role-append has (x ∷ xs) ys = ground (arith, any_role-append has xs ys)

-- A capability is had by a person when some role held has it.
any_role-contains :
    (has : Role → Bool) (rs : Roles) (r : Role)
    → contains_role rs r ≡ true
    → has r ≡ true
    → any_role has rs ≡ true
any_role-contains has [] r h k = cc
any_role-contains has (q ∷ qs) r h k = elim (Bool-cases (is_role q r)) [
  | inl e ↦ let here : has q ≡ true = ap has (text_eq→eq q r e) ∙ k in rw here
  | inr e ↦ let there = any_role-contains has qs r (ground arith) k in rw there (ground arith)
]

abbrev pub IsUnrepeated : Roles → Type 0
IsUnrepeated [] = Unit
IsUnrepeated (r ∷ rs) = (contains_role rs r ≡ false) × IsUnrepeated rs

IsUnrepeated-append :
    (rs : Roles) (r : Role)
    → IsUnrepeated rs
    → contains_role rs r ≡ false
    → IsUnrepeated (rs ++ (r ∷ []))
IsUnrepeated-append [] r _ _ = (refl, tt)
IsUnrepeated-append (q ∷ qs) r (h, hs) e = (
  rw (contains_role-append qs (r ∷ []) q) (ground (arith, text_eq_sym r q)),
  IsUnrepeated-append qs r hs (ground arith),
)

any_role-old :
    (has : Role → Bool) (out : Roles) (r : Role)
    → contains_role out r ≡ true
    → any_role has out ≡ (any_role has out || (has r || false))
any_role-old has out r e = elim (Bool-cases (has r)) [
  | inl k ↦ rw (any_role-contains has out r e k)
  | inr k ↦ rw k (ground arith)
]

-- What adding roles one by one comes to: the first stays first, none is there twice, and the
-- capabilities are those of either.
pub record IsAdded (out : Roles) (others : List Role) (now : Roles) : Type 0 where
  pub same_main : (r : Role) (rs : Roles) → out ≡ r ∷ rs → (qs : Roles) × (now ≡ r ∷ qs)
  pub unrepeated : IsUnrepeated now
  pub capable : (has : Role → Bool) → any_role has now ≡ (any_role has out || any_role has others)

add_one : Roles → Role → Roles
add_one out r = if contains_role out r then out else out ++ (r ∷ [])

add_one-IsAdded : (out : Roles) (r : Role) → IsUnrepeated out → IsAdded out (r ∷ []) (add_one out r)
unfolding add_one
add_one-IsAdded out r u = elim (Bool-cases (contains_role out r)) [
  | inl e ↦ rw e (record {
    same_main = λ q qs h. (qs, h);
    unrepeated = u;
    capable = λ has. any_role-old has out r e;
  })
  | inr e ↦ rw e (record {
    same_main = λ q qs h. (qs ++ (r ∷ []), ap (λ o. o ++ (r ∷ [])) h);
    unrepeated = IsUnrepeated-append out r u e;
    capable = λ has. any_role-append has out (r ∷ []);
  })
]

add_roles-IsAdded :
    (others : List Role) (out : Roles)
    → IsUnrepeated out
    → IsAdded out others (add_roles out others)
unfolding add_roles add_one
add_roles-IsAdded [] out u = record {
  same_main = λ r rs h. (rs, h);
  unrepeated = u;
  capable = λ has. ground arith;
}
add_roles-IsAdded (q ∷ qs) out u =
    let one = add_one-IsAdded out q u in
    let rest = add_roles-IsAdded qs (add_one out q) one.unrepeated in
    record {
      same_main = λ r rs h. rest.same_main r (one.same_main r rs h).0 (one.same_main r rs h).1;
      unrepeated = rest.unrepeated;
      capable = λ has. rest.capable has ∙ regroup has;
    }
  where
    regroup :
        (has : Role → Bool)
        → (any_role has (add_one out q) || any_role has qs)
          ≡ (any_role has out || (has q || any_role has qs))
    regroup has = rw ((add_one-IsAdded out q u).capable has) (ground arith)

-- The roles made of a main role and others: the main one comes first, none is there twice, and the
-- person has a capability just when the main role or one of the others has it.
pub of-IsAdded : (main : Role) (others : List Role) → IsAdded (main ∷ []) others (of main others)
unfolding of
of-IsAdded main others = add_roles-IsAdded others (main ∷ []) (refl, tt)
