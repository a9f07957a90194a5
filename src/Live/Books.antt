-- ===== src/Live/Books.antt =====
-- How often the map of internal/live/hub.go holds a subscription, as it is filed and taken out.
use free_sms.Common.{
  ℕ, ◌+◌, ◌≡◌, refl, true, ◌&&◌, List, [], ◌∷◌, ◌==◌, if◌then◌else◌, length, arith,
}
use free_sms.Common.Text.{Text, text_eq}
use free_sms.Common.Text.Laws.{text_eq→eq}
use free_sms.Live.{Entry, file, contains_id, is_filed, remove, with_set, take_out}
use free_sms.Live.Channels.{one_if}

unfoldable pub times : ℕ → List ℕ → ℕ
times j [] = 0
times j (i ∷ is) = one_if (j == i) + times j is

abbrev pub in_entry : Text → ℕ → Entry → ℕ
in_entry s j e = if text_eq e.key s then times j e.set else 0

unfoldable pub filed_in : Text → ℕ → List Entry → ℕ
unfolding times
filed_in s j [] = 0
filed_in s j (e ∷ es) = in_entry s j e + filed_in s j es

unfoldable pub filed_total : List Entry → ℕ
filed_total [] = 0
filed_total (e ∷ es) = length e.set + filed_total es

key_eq : (a k s : Text) → text_eq a k ≡ true → text_eq a s ≡ text_eq k s
key_eq a k s h = rw (text_eq→eq a k h)

pub filed_in-file :
    (s k : Text) (j i : ℕ) (es : List Entry)
    → filed_in s j (file k i es) ≡ filed_in s j es + one_if ((j == i) && text_eq k s)
unfolding filed_in file
filed_in-file s k j i [] = ground arith
filed_in-file s k j i (e ∷ es) = ground (arith, key_eq e.key k s, filed_in-file s k j i es)

pub filed_total-file :
    (k : Text) (i : ℕ) (es : List Entry) → filed_total (file k i es) ≡ filed_total es + 1
unfolding filed_total file
filed_total-file k i [] = ground arith
filed_total-file k i (e ∷ es) = ground (arith, filed_total-file k i es)

times-remove :
    (j i : ℕ) (is : List ℕ)
    → contains_id i is ≡ true
    → times j (remove i is) + one_if (j == i) ≡ times j is
unfolding times remove contains_id
times-remove j i [] h = absurd cc
times-remove j i (x ∷ xs) h = ground (arith, times-remove j i xs)

length-remove :
    (i : ℕ) (is : List ℕ) → contains_id i is ≡ true → length (remove i is) + 1 ≡ length is
unfolding remove contains_id
length-remove i [] h = absurd cc
length-remove i (x ∷ xs) h = ground (arith, length-remove i xs)

filed_in-with_set :
    (s : Text) (j : ℕ) (e : Entry) (is : List ℕ) (es : List Entry)
    → filed_in s j (with_set e is es)
      ≡ (if text_eq e.key s then times j is else 0) + filed_in s j es
unfolding filed_in
filed_in-with_set s j e [] es = ground arith
filed_in-with_set s j e (i ∷ is) es = refl

filed_total-with_set :
    (e : Entry) (is : List ℕ) (es : List Entry)
    → filed_total (with_set e is es) ≡ length is + filed_total es
unfolding filed_total
filed_total-with_set e [] es = ground arith
filed_total-with_set e (i ∷ is) es = refl

pub filed_in-take_out :
    (s k : Text) (j i : ℕ) (es : List Entry)
    → is_filed k i es ≡ true
    → filed_in s j (take_out k i es) + one_if ((j == i) && text_eq k s) ≡ filed_in s j es
unfolding filed_in take_out is_filed
filed_in-take_out s k j i [] h = absurd cc
filed_in-take_out s k j i (e ∷ es) h = ground (
  arith,
  key_eq e.key k s,
  filed_in-take_out s k j i es,
  filed_in-with_set s j e (remove i e.set) es,
  times-remove j i e.set,
)

pub filed_total-take_out :
    (k : Text) (i : ℕ) (es : List Entry)
    → is_filed k i es ≡ true
    → filed_total (take_out k i es) + 1 ≡ filed_total es
unfolding filed_total take_out is_filed
filed_total-take_out k i [] h = absurd cc
filed_total-take_out k i (e ∷ es) h = ground (
  arith,
  filed_total-take_out k i es,
  filed_total-with_set e (remove i e.set) es,
  length-remove i e.set,
)
