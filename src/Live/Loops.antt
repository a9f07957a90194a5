-- ===== src/Live/Loops.antt =====
-- The loops of internal/live/hub.go over a set of subscriptions and over the sets: while what is filed
-- is open they come to their end.
use free_sms.Common.{
  ℕ, zero, suc, ◌+◌, ◌≤◌, ◌≡◌, refl, subst, ◌∙◌, not, ◌&&◌, List, [], ◌∷◌, Option, some,
  if◌then◌else◌, All, arith, Bool-cases, inl, inr, bind-some,
}
use free_sms.Common.Text.{Text, text_eq, is_empty}
use free_sms.Common.Text.Laws.{text_eq_refl}
use free_sms.Live.{Subscription, Entry, at, shut, deliver, each, publish_in, close_all}
use free_sms.Live.Channels.{
  open_in, at-shut, at-deliver, HasRoom, KeepsRoom, at-HasRoom, some-inj, shut-KeepsRoom,
  deliver-KeepsRoom,
}
use free_sms.Live.Books.{times, in_entry, filed_in}

pub open_in-le : (s : Text) (j : ℕ) (st : List Subscription) → open_in s j st ≤ 1
unfolding open_in
open_in-le s j [] = omega arith
open_in-le s zero (c ∷ cs) = ground arith
open_in-le s (suc j) (c ∷ cs) = open_in-le s j cs

-- The store after a step, with as many open as before.
abbrev pub Same : Option (List Subscription) → List Subscription → Type 0
Same r st =
    (st' : List Subscription) × (r ≡ some st')
    × ((s : Text) (j : ℕ) → open_in s j st' ≡ open_in s j st)

each-deliver :
    (t k : Text) (is : List ℕ) (st : List Subscription)
    → ((j : ℕ) → times j is ≤ open_in k j st)
    → Same (each (deliver t) is st) st
unfolding each times
each-deliver t k [] st h = (st, refl, λ s j. refl)
each-deliver t k (i ∷ is) st h =
    let (st1, e1, same1) = at-deliver t k i st (ground (arith, h i, open_in-le k i st)) in
    let (st2, e2, same2) = each-deliver t k is st1 (λ j. ground (arith, h j, same1 k j)) in
    (st2, rw e1 e2, λ s j. same2 s j ∙ same1 s j)

own_entry : (j : ℕ) (e : Entry) → in_entry e.key j e ≡ times j e.set
own_entry j e = rw (text_eq_refl e.key)

pub publish_in-Same :
    (shop t : Text) (es : List Entry) (st : List Subscription)
    → ((s : Text) (j : ℕ) → filed_in s j es ≤ open_in s j st)
    → Same (publish_in shop t es st) st
unfolding publish_in filed_in
publish_in-Same shop t [] st h = (st, refl, λ s j. refl)
publish_in-Same shop t (e ∷ es) st h =
    elim (Bool-cases (not (is_empty shop) && not (text_eq e.key shop))) [
      | inl skip ↦
          (let (st', ok, same) = publish_in-Same shop t es st (λ s j. omega (arith, h s j)) in
            (st', rw skip ok, same))
      | inr take ↦
          (let (st1, ok1, same1) =
              each-deliver t e.key e.set st (λ j. omega (arith, h e.key j, own_entry j e)) in
            let (st2, ok2, same2) =
              publish_in-Same shop t es st1 (λ s j. omega (arith, h s j, same1 s j)) in
            (st2, rw (take, ok1) ok2, λ s j. same2 s j ∙ same1 s j))
    ]

-- Closing what is filed under a key leaves what is filed elsewhere.
each-shut :
    (k : Text) (is : List ℕ) (st : List Subscription) (elsewhere : Text → ℕ → ℕ)
    → ((s : Text) (j : ℕ)
        → (if text_eq k s then times j is else 0) + elsewhere s j ≡ open_in s j st)
    → (st' : List Subscription) × (each shut is st ≡ some st')
      × ((s : Text) (j : ℕ) → elsewhere s j ≡ open_in s j st')
unfolding each times
each-shut k [] st r h = (st, refl, λ s j. ground (arith, h s j))
each-shut k (i ∷ is) st r h =
    let here : times i (i ∷ is) + r k i ≡ open_in k i st =
      subst (λ b. (if b then times i (i ∷ is) else 0) + r k i ≡ open_in k i st) (text_eq_refl k)
        (h k i) in
    let (st1, e1, less) = at-shut k i st (ground (arith, here, open_in-le k i st)) in
    let (st2, e2, rest) = each-shut k is st1 r (λ s j. ground (arith, h s j, less s j)) in
    (st2, rw e1 e2, rest)

pub close_all-none :
    (es : List Entry) (st : List Subscription)
    → ((s : Text) (j : ℕ) → filed_in s j es ≡ open_in s j st)
    → (st' : List Subscription) × (close_all es st ≡ some st')
      × ((s : Text) (j : ℕ) → 0 ≡ open_in s j st')
unfolding close_all filed_in
close_all-none [] st h = (st, refl, h)
close_all-none (e ∷ es) st h =
    let (st1, e1, rest) = each-shut e.key e.set st (λ s j. filed_in s j es) h in
    let (st2, e2, all) = close_all-none es st1 rest in (st2, rw e1 e2, all)

-- Room is kept by the loops.
pub each-HasRoom :
    (f : Subscription → Option Subscription) (is : List ℕ) (st st' : List Subscription)
    → KeepsRoom f
    → each f is st ≡ some st'
    → All HasRoom st
    → All HasRoom st'
unfolding each
each-HasRoom f [] st st' k e h = subst (All HasRoom) (some-inj e) h
each-HasRoom f (i ∷ is) st st' k e h =
    let (st1, e1, e2) = bind-some (at i f st) (each f is) e in
    each-HasRoom f is st1 st' k e2 (at-HasRoom i f st st1 k e1 h)

pub publish_in-HasRoom :
    (shop t : Text) (es : List Entry) (st st' : List Subscription)
    → publish_in shop t es st ≡ some st'
    → All HasRoom st
    → All HasRoom st'
unfolding publish_in
publish_in-HasRoom shop t [] st st' e h = subst (All HasRoom) (some-inj e) h
publish_in-HasRoom shop t (x ∷ es) st st' e h =
    elim (Bool-cases (not (is_empty shop) && not (text_eq x.key shop))) [
      | inl skip ↦ publish_in-HasRoom shop t es st st' (rw skip at e) h
      | inr take ↦
          (let (st1, e1, e2) =
              bind-some (each (deliver t) x.set st) (publish_in shop t es) (rw take at e) in
            publish_in-HasRoom shop t es st1 st' e2
              (each-HasRoom (deliver t) x.set st st1 (deliver-KeepsRoom t) e1 h))
    ]

pub close_all-HasRoom :
    (es : List Entry) (st st' : List Subscription)
    → close_all es st ≡ some st'
    → All HasRoom st
    → All HasRoom st'
unfolding close_all
close_all-HasRoom [] st st' e h = subst (All HasRoom) (some-inj e) h
close_all-HasRoom (x ∷ es) st st' e h =
    let (st1, e1, e2) = bind-some (each shut x.set st) (close_all es) e in
    close_all-HasRoom es st1 st' e2 (each-HasRoom shut x.set st st1 shut-KeepsRoom e1 h)
