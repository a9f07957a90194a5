-- ===== src/Live/Channels.antt =====
-- What the changes of one channel of internal/live/hub.go do to the store.
use free_sms.Common.{
  ℕ, zero, suc, ◌+◌, ◌≤◌, ◌<◌, ◌≡◌, refl, subst, Bool, true, false, ◌&&◌, List, [], ◌∷◌, ◌++◌,
  Option, some, ◌==◌, if◌then◌else◌, length, length-append, All, arith, bind-some,
}
use free_sms.Common.Text.{Text, text_eq}
use free_sms.Common.Text.Laws.{text_eq→eq}
use free_sms.Live.{Subscription, at, shut, offer, deliver, read_one, without_oldest, everything}

-- Whether a subscription of the shop is open, and whether that at an index of the store is.
abbrev pub one_if : Bool → ℕ
one_if true = 1
one_if false = 0

abbrev open_flags : Bool → Bool → ℕ
open_flags closed here = if closed then 0 else one_if here

abbrev pub is_open : Text → Subscription → ℕ
is_open s c = open_flags c.closed (text_eq c.shop s)

unfoldable pub open_in : Text → ℕ → List Subscription → ℕ
open_in s j [] = 0
open_in s zero (c ∷ cs) = is_open s c
open_in s (suc j) (c ∷ cs) = open_in s j cs

one_true : (b : Bool) → one_if b ≡ 1 → b ≡ true
one_true b h = ground arith

open_parts : (b : Bool) (t k : Text) → open_flags b (text_eq t k) ≡ 1 → (b ≡ false) × (t ≡ k)
open_parts true t k h = absurd (omega arith)
open_parts false t k h = (refl, text_eq→eq t k (one_true (text_eq t k) h))

is_open-shut : (c : Subscription) (k : Text) → is_open k c ≡ 1 → (c.closed ≡ false) × (c.shop ≡ k)
is_open-shut c k h = open_parts c.closed c.shop k h

pub open_in-append :
    (s : Text) (j : ℕ) (st : List Subscription) (c : Subscription)
    → open_in s j (st ++ (c ∷ [])) ≡ open_in s j st + (if j == length st then is_open s c else 0)
unfolding open_in
open_in-append s zero [] c = omega arith
open_in-append s (suc j) [] c = ground arith
open_in-append s zero (d ∷ st) c = ground arith
open_in-append s (suc j) (d ∷ st) c = ground (arith, open_in-append s j st c)

flags_open :
    (b : Bool) (t k s : Text)
    → t ≡ k
    → b ≡ false
    → 0 + one_if (text_eq k s) ≡ open_flags b (text_eq t s)
flags_open true t k s is e = absurd cc
flags_open false t k s is e = rw is (ground arith)

open_cons :
    (s : Text) (j : ℕ) (c d : Subscription) (cs ds : List Subscription)
    → is_open s d ≡ is_open s c
    → ((j : ℕ) → open_in s j ds ≡ open_in s j cs)
    → open_in s j (d ∷ ds) ≡ open_in s j (c ∷ cs)
unfolding open_in
open_cons s zero c d cs ds h k = h
open_cons s (suc j) c d cs ds h k = k j

closed_here :
    (k s : Text) (j : ℕ) (cs : List Subscription) (c : Subscription)
    → c.shop ≡ k
    → c.closed ≡ false
    → open_in s j (record c { closed = true } ∷ cs) + one_if ((j == 0) && text_eq k s)
      ≡ open_in s j (c ∷ cs)
unfolding open_in
closed_here k s zero cs c is e = flags_open c.closed c.shop k s is e
closed_here k s (suc j) cs c is e = ground arith

closed_there :
    (k s : Text) (i j : ℕ) (c : Subscription) (cs ds : List Subscription)
    → ((j : ℕ) → open_in s j ds + one_if ((j == i) && text_eq k s) ≡ open_in s j cs)
    → open_in s j (c ∷ ds) + one_if ((j == suc i) && text_eq k s) ≡ open_in s j (c ∷ cs)
unfolding open_in
closed_there k s i zero c cs ds h = ground arith
closed_there k s i (suc j) c cs ds h = ground (arith, h j)

-- An open subscription is closed, and nothing else changes.
pub at-shut :
    (k : Text) (i : ℕ) (st : List Subscription)
    → open_in k i st ≡ 1
    → (st' : List Subscription) × (at i shut st ≡ some st')
      × ((s : Text) (j : ℕ) → open_in s j st' + one_if ((j == i) && text_eq k s) ≡ open_in s j st)
unfolding open_in at shut
at-shut k i [] h = absurd (omega arith)
at-shut k zero (c ∷ cs) h =
    let (e, is) = is_open-shut c k h in
    (record c { closed = true } ∷ cs, rw e, λ s j. closed_here k s j cs c is e)
at-shut k (suc i) (c ∷ cs) h =
    let (st', e, same) = at-shut k i cs h in
    (c ∷ st', rw e, λ s j. closed_there k s i j c cs st' (same s))

-- An open subscription is sent a topic, and which are open stays.
pub at-deliver :
    (t k : Text) (i : ℕ) (st : List Subscription)
    → open_in k i st ≡ 1
    → (st' : List Subscription) × (at i (deliver t) st ≡ some st')
      × ((s : Text) (j : ℕ) → open_in s j st' ≡ open_in s j st)
unfolding open_in at deliver
at-deliver t k i [] h = absurd (omega arith)
at-deliver t k zero (c ∷ cs) h =
    let (e, is) = is_open-shut c k h in
    (
      record c { queue = offer t c.queue } ∷ cs,
      rw e,
      λ s j. open_cons s j c (record c { queue = offer t c.queue }) cs cs refl (λ j. refl),
    )
at-deliver t k (suc i) (c ∷ cs) h =
    let (st', e, same) = at-deliver t k i cs h in
    (c ∷ st', rw e, λ s j. open_cons s j c c cs st' refl (same s))

pub at-read_one :
    (i : ℕ) (st : List Subscription)
    → i < length st
    → (st' : List Subscription) × (at i read_one st ≡ some st')
      × ((s : Text) (j : ℕ) → open_in s j st' ≡ open_in s j st)
unfolding open_in at read_one
at-read_one i [] h = absurd (omega arith)
at-read_one zero (c ∷ cs) h = (
  record c { queue = without_oldest c.queue } ∷ cs,
  refl,
  λ s j. open_cons s j c (record c { queue = without_oldest c.queue }) cs cs refl (λ j. refl),
)
at-read_one (suc i) (c ∷ cs) h =
    let (st', e, same) = at-read_one i cs (omega arith) in
    (c ∷ st', rw e, λ s j. open_cons s j c c cs st' refl (same s))

-- A channel never holds more than it has room for.
abbrev pub HasRoom : Subscription → Type 0
HasRoom c = length c.queue ≤ 32

abbrev pub KeepsRoom : (Subscription → Option Subscription) → Type 0
KeepsRoom f = (c d : Subscription) → f c ≡ some d → HasRoom c → HasRoom d

pub some-inj : {A : Type 0} {a b : A} → some a ≡ some b → a ≡ b
some-inj e = cc

pub at-HasRoom :
    (i : ℕ) (f : Subscription → Option Subscription) (st st' : List Subscription)
    → KeepsRoom f
    → at i f st ≡ some st'
    → All HasRoom st
    → All HasRoom st'
unfolding at
at-HasRoom i f [] st' k e h = absurd (cc)
at-HasRoom zero f (c ∷ cs) st' k e (hc, hs) =
    let (d, ed, is) = bind-some (f c) _ e in subst (All HasRoom) (some-inj is) (k c d ed hc, hs)
at-HasRoom (suc i) f (c ∷ cs) st' k e (hc, hs) =
    let (ds, ed, is) = bind-some (at i f cs) _ e in
    subst (All HasRoom) (some-inj is) (hc, at-HasRoom i f cs ds k ed hs)

pub shut-KeepsRoom : KeepsRoom shut
unfolding shut
shut-KeepsRoom c d e h = ground arith

length-without_oldest : (q : List Text) → length (without_oldest q) + 1 ≤ length q + 1
length-without_oldest [] = omega arith
length-without_oldest (t ∷ q) = omega arith

offer-HasRoom : (t : Text) (q : List Text) → length q ≤ 32 → length (offer t q) ≤ 32
unfolding offer
offer-HasRoom t q h = ground (
  arith,
  length-without_oldest q,
  length-append q (t ∷ []),
  length-append (without_oldest q) (everything ∷ []),
)

pub deliver-KeepsRoom : (t : Text) → KeepsRoom (deliver t)
unfolding deliver
deliver-KeepsRoom t c d e h = let room = offer-HasRoom t c.queue h in ground (arith, room)

pub read_one-KeepsRoom : KeepsRoom read_one
unfolding read_one
read_one-KeepsRoom c d e h = let room = length-without_oldest c.queue in ground (arith, room)
