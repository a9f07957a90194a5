-- ===== src/Live/Sound.antt =====
-- The invariant of the hub of internal/live/hub.go: what is filed is what is open, and is counted.
use free_sms.Common.{
  ℕ, zero, suc, ◌+◌, ◌≤◌, ◌<◌, ◌^◌, ◌≡◌, refl, sym, ap, subst, ◌∙◌, Bool, true, false, not, ◌||◌,
  ◌&&◌, List, [], ◌∷◌, ◌++◌, Option, some, ltb, ◌==◌, if◌then◌else◌, length, All, All-append, arith,
  Bool-cases, inl, inr,
}
use free_sms.Common.Int.{ℤ, pos, add64, sub64, leb_ℤ, add64-pos, sub64-pos, pos-sub}
use free_sms.Common.Text.{Text, text_eq, is_empty, cut}
use free_sms.Common.Text.Laws.{text_eq_refl}
use free_sms.Live.{
  Subscription, Entry, Hub, new, at, shut, file, is_filed, take_out, subscribe, shop_of, end_filed,
  unsubscribe, publish, stop, hear, read_one, Event, subscribed, unsubscribed, heard, read, missed,
  stopped, happens, history, everything,
}
use free_sms.Live.Channels.{
  one_if, open_in, open_in-append, at-shut, at-read_one, HasRoom, at-HasRoom, shut-KeepsRoom,
  read_one-KeepsRoom,
}
use free_sms.Live.Books.{
  filed_in, filed_total, filed_in-file, filed_total-file, filed_in-take_out, filed_total-take_out,
}
use free_sms.Live.Loops.{
  open_in-le, publish_in-Same, close_all-none, publish_in-HasRoom, close_all-HasRoom,
}

-- What holds of a hub that is allowed `max` streams: what the map holds is what is open, and under its
-- own shop; `n` is how many there are, and at most `max`; no channel holds more than it has room
-- for; and a hub that has stopped holds none.
pub record IsSound (max : ℕ) (h : Hub) : Type 0 where
  pub limit : h.max ≡ pos max
  pub filed : (s : Text) (j : ℕ) → filed_in s j h.subs ≡ open_in s j h.store
  pub counted : h.n ≡ pos (filed_total h.subs)
  pub bounded : filed_total h.subs ≤ max
  pub room : All HasRoom h.store
  pub ended : h.done ≡ true → h.subs ≡ []

pub new-IsSound : (max : ℕ) → IsSound max (new (pos max))
unfolding filed_in open_in filed_total
new-IsSound max = record {
  limit = refl;
  filed = λ s j. refl;
  counted = refl;
  bounded = omega arith;
  room = tt;
  ended = λ e. refl;
}

-- A step that goes through, and what it leaves.
abbrev GoesOn : ℕ → Option Hub → Type 0
GoesOn max r = (h' : Hub) × (r ≡ some h') × IsSound max h'

-- A step that changes channels alone.
store-IsSound :
    (max : ℕ) (h : Hub) (st : List Subscription)
    → IsSound max h
    → ((s : Text) (j : ℕ) → open_in s j st ≡ open_in s j h.store)
    → All HasRoom st
    → IsSound max (record h { store = st })
store-IsSound max h st w same room = record {
  limit = w.limit;
  filed = λ s j. w.filed s j ∙ sym (same s j);
  counted = w.counted;
  bounded = w.bounded;
  room = room;
  ended = w.ended;
}

publish-GoesOn : (max : ℕ) (shop t : Text) (h : Hub) → IsSound max h → GoesOn max (publish shop t h)
unfolding publish
publish-GoesOn max shop t h w =
    let (st, e, same) = publish_in-Same shop t h.subs h.store (λ s j. omega (arith, w.filed s j)) in
    (
      record h { store = st },
      rw e,
      store-IsSound max h st w same (publish_in-HasRoom shop t h.subs h.store st e w.room),
    )

hear-GoesOn : (max : ℕ) (payload : Text) (h : Hub) → IsSound max h → GoesOn max (hear payload h)
unfolding hear
hear-GoesOn max payload h w =
    let (shop, topic, ok) = cut b' ' payload in
    elim (Bool-cases (not ok || is_empty shop)) [
      | inl e ↦ (h, rw e, w)
      | inr e ↦ rw e (publish-GoesOn max shop topic h w)
    ]

read-GoesOn : (max i : ℕ) (h : Hub) → IsSound max h → GoesOn max (happens (read i) h)
read-GoesOn max i h w = elim (Bool-cases (ltb i (length h.store))) [
  | inl e ↦
      (let (st, ok, same) = at-read_one i h.store (ground (arith, e)) in
        (
          record h { store = st },
          rw (e, ok),
          store-IsSound max h st w same
              (at-HasRoom i read_one h.store st read_one-KeepsRoom ok w.room),
        ))
  | inr e ↦ (h, rw e, w)
]

stop-GoesOn : (max : ℕ) (h : Hub) → IsSound max h → GoesOn max (stop h)
unfolding stop filed_in filed_total
stop-GoesOn max h w =
    let (st, e, all) = close_all-none h.subs h.store w.filed in
    (
      record h { store = st; subs = []; n = pos 0; done = true },
      rw e,
      record {
        limit = w.limit;
        filed = all;
        counted = refl;
        bounded = omega arith;
        room = close_all-HasRoom h.subs h.store st e w.room;
        ended = λ _. refl;
      },
    )

not_both : false ≡ true → ⊥
not_both x = cc

filed_new :
    (s shop : Text) (j i : ℕ) {a b c d : ℕ}
    → a ≡ b + one_if ((j == i) && text_eq shop s)
    → d ≡ c + (if j == i then one_if (text_eq shop s) else 0)
    → b ≡ c
    → a ≡ d
filed_new s shop j i h k e = ground (arith, h, k, e)

room_left :
    (d : Bool) (m n : ℤ) (k : ℕ) {l : ℕ}
    → m ≡ pos l
    → n ≡ pos k
    → d || leb_ℤ m n ≡ false
    → (d ≡ false) × (k < l)
room_left true m n k em en h = absurd cc
room_left false m n k em en h = (refl, ground (arith))

room_for :
    (max : ℕ) (h : Hub)
    → IsSound max h
    → (h.done || leb_ℤ h.max h.n) ≡ false
    → (h.done ≡ false) × (filed_total h.subs < max)
room_for max h w e = room_left h.done h.max h.n (filed_total h.subs) w.limit w.counted e

subscribe_new :
    (max : ℕ) (shop : Text) (h : Hub)
    → max < 2 ^ 63
    → IsSound max h
    → (h.done || leb_ℤ h.max h.n) ≡ false
    → IsSound max (record h {
      store = h.store ++ (record { shop = shop; queue = []; closed = false } ∷ []);
      subs = file shop (length h.store) h.subs;
      n = add64 h.n (pos 1);
    })
subscribe_new max shop h fits w e =
    let (going, space) = room_for max h w e in
    record {
      limit = w.limit;
      filed = λ s j.
          filed_new s shop j (length h.store) (filed_in-file s shop j (length h.store) h.subs)
            (open_in-append s j h.store (record { shop = shop; queue = []; closed = false }))
            (w.filed s j);
      counted =
          rw (w.counted, add64-pos (filed_total h.subs) 1 (omega arith))
            (ap pos (sym (filed_total-file shop (length h.store) h.subs)));
      bounded = omega (arith, filed_total-file shop (length h.store) h.subs);
      room = All-append HasRoom h.store _ w.room (omega arith, tt);
      ended = λ d. absurd (not_both (sym going ∙ d));
    }

subscribe-GoesOn :
    (max : ℕ) (shop : Text) (h : Hub)
    → max < 2 ^ 63
    → IsSound max h
    → GoesOn max (happens (subscribed shop) h)
unfolding subscribe
subscribe-GoesOn max shop h fits w = elim (Bool-cases (h.done || leb_ℤ h.max h.n)) [
  | inl e ↦ (h, rw e, w)
  | inr e ↦ (_, rw e, subscribe_new max shop h fits w e)
]

shop_of-some :
    (i : ℕ) (st : List Subscription) → i < length st → (k : Text) × (shop_of i st ≡ some k)
unfolding shop_of
shop_of-some i [] h = absurd (omega arith)
shop_of-some zero (c ∷ cs) h = (c.shop, refl)
shop_of-some (suc i) (c ∷ cs) h = shop_of-some i cs (omega arith)

filed_open :
    (k : Text) (i : ℕ) (h : Hub) {max : ℕ}
    → IsSound max h
    → is_filed k i h.subs ≡ true
    → open_in k i h.store ≡ 1
filed_open k i h w e =
    let one : filed_in k i (take_out k i h.subs) + one_if ((i == i) && true) ≡ filed_in k i h.subs =
      subst (λ b. filed_in k i (take_out k i h.subs) + one_if ((i == i) && b) ≡ filed_in k i h.subs)
        (text_eq_refl k) (filed_in-take_out k k i i h.subs e) in
    ground (arith, one, w.filed k i, open_in-le k i h.store)

not_filed : (k : Text) (i : ℕ) (es : List Entry) → es ≡ [] → is_filed k i es ≡ true → ⊥
unfolding is_filed
not_filed k i es gone e = not_both (subst (λ x. is_filed k i x ≡ true) gone e)

ended_one :
    (max i : ℕ) (k : Text) (h : Hub) (st : List Subscription)
    → max < 2 ^ 63
    → IsSound max h
    → is_filed k i h.subs ≡ true
    → at i shut h.store ≡ some st
    → ((s : Text) (j : ℕ) → open_in s j st + one_if ((j == i) && text_eq k s) ≡ open_in s j h.store)
    → IsSound max (record h { store = st; subs = take_out k i h.subs; n = sub64 h.n (pos 1) })
ended_one max i k h st fits w e ok less =
    let one = filed_total-take_out k i h.subs e in
    record {
      limit = w.limit;
      filed = λ s j. omega (arith, less s j, w.filed s j, filed_in-take_out s k j i h.subs e);
      counted =
          rw
            (
              w.counted,
              sub64-pos (filed_total h.subs) 1 (omega arith) (omega arith),
              pos-sub (filed_total h.subs) 1 (omega arith),
            )
            (ap pos (omega arith));
      bounded = omega arith;
      room = at-HasRoom i shut h.store st shut-KeepsRoom ok w.room;
      ended = λ d. absurd (not_filed k i h.subs (w.ended d) e);
    }

end_filed-GoesOn :
    (max i : ℕ) (k : Text) (h : Hub) → max < 2 ^ 63 → IsSound max h → GoesOn max (end_filed i k h)
unfolding end_filed
end_filed-GoesOn max i k h fits w = elim (Bool-cases (is_filed k i h.subs)) [
  | inl e ↦
      (let (st, ok, less) = at-shut k i h.store (filed_open k i h w e) in
        (_, rw (e, ok), ended_one max i k h st fits w e ok less))
  | inr e ↦ (h, rw e, w)
]

unsubscribe-GoesOn :
    (max i : ℕ) (h : Hub) → max < 2 ^ 63 → IsSound max h → GoesOn max (happens (unsubscribed i) h)
unfolding unsubscribe
unsubscribe-GoesOn max i h fits w = elim (Bool-cases (ltb i (length h.store))) [
  | inl e ↦
      (let (k, at) = shop_of-some i h.store (ground (arith, e)) in
        rw (e, at) (end_filed-GoesOn max i k h fits w))
  | inr e ↦ (h, rw e, w)
]

happens-GoesOn :
    (max : ℕ) (e : Event) (h : Hub) → max < 2 ^ 63 → IsSound max h → GoesOn max (happens e h)
happens-GoesOn max (subscribed shop) h fits w = subscribe-GoesOn max shop h fits w
happens-GoesOn max (unsubscribed i) h fits w = unsubscribe-GoesOn max i h fits w
happens-GoesOn max (read i) h fits w = read-GoesOn max i h w
happens-GoesOn max (heard payload) h fits w = hear-GoesOn max payload h w
happens-GoesOn max missed h fits w = publish-GoesOn max [] everything h w
happens-GoesOn max stopped h fits w = stop-GoesOn max h w

history-from :
    (max : ℕ) (es : List Event) (h : Hub) → max < 2 ^ 63 → IsSound max h → GoesOn max (history es h)
unfolding history
history-from max [] h fits w = (h, refl, w)
history-from max (e ∷ es) h fits w =
    let (h1, ok, w1) = happens-GoesOn max e h fits w in
    let (h2, ok2, w2) = history-from max es h1 fits w1 in (h2, rw ok ok2, w2)

-- Whatever happens to a new hub and in whatever order, no channel is closed twice and none is sent on
-- when it is closed; what the map holds is what is open, each under its own shop; `n` is how many
-- there are, and at most the most there may be; no channel holds more than it has room for; and a
-- hub that has stopped holds none.
pub history-IsSound :
    (max : ℕ) (es : List Event)
    → max < 2 ^ 63
    → (h : Hub) × (history es (new (pos max)) ≡ some h) × IsSound max h
history-IsSound max es fits = history-from max es (new (pos max)) fits (new-IsSound max)
