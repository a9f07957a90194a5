-- ===== src/Live/Delivery.antt =====
-- `Publish` of internal/live/hub.go reaches every screen that it is for, however full its channel is.
use free_sms.Common.{
  ℕ, zero, suc, ◌+◌, ◌≤◌, ◌<◌, ◌≡◌, sym, subst, Bool, true, false, not, ◌||◌, ◌&&◌, List, [], ◌∷◌,
  ◌++◌, some, ltb, ◌==◌, if◌then◌else◌, length, All, arith, Bool-cases, inl, inr, bind-some,
}
use free_sms.Common.Text.{Text, text_eq, is_empty}
use free_sms.Common.Text.Laws.{text_eq→eq, text_eq_refl}
use free_sms.Live.{
  Subscription, Entry, Hub, at, offer, deliver, without_oldest, everything, each, publish_in,
  publish,
}
use free_sms.Live.Channels.{open_in, HasRoom, at-HasRoom, some-inj, deliver-KeepsRoom}
use free_sms.Live.Books.{times, in_entry, filed_in}
use free_sms.Live.Loops.{publish_in-Same, each-HasRoom}
use free_sms.Live.Sound.{IsSound}

unfoldable pub queued : Text → List Text → Bool
queued t [] = false
queued t (u ∷ q) = text_eq u t || queued t q

-- A screen is told of a topic when its queue has it, or has `everything`.
abbrev pub told : Text → List Text → Bool
told t q = queued t q || queued everything q

unfoldable pub queue_at : ℕ → List Subscription → List Text
queue_at j [] = []
queue_at zero (c ∷ cs) = c.queue
queue_at (suc j) (c ∷ cs) = queue_at j cs

queued-append :
    (t u : Text) (q : List Text) → queued t (q ++ (u ∷ [])) ≡ (queued t q || text_eq u t)
unfolding queued
queued-append t u [] = ground arith
queued-append t u (x ∷ q) = ground (arith, queued-append t u q)

length-without_oldest :
    (q : List Text) → ltb (length q) 32 ≡ false → length q ≤ 32 → length (without_oldest q) < 32
length-without_oldest [] e h = omega arith
length-without_oldest (t ∷ q) e h = omega arith

less_test : (n : ℕ) → n < 32 → ltb n 32 ≡ true
less_test n h = ground arith

told-everything : (u : Text) (q : List Text) → told u (q ++ (everything ∷ [])) ≡ true
told-everything u q =
    rw
      (queued-append u everything q, queued-append everything everything q, text_eq_refl everything)
      (ground arith)

offer-told : (t : Text) (q : List Text) → length q ≤ 32 → told t (offer t q) ≡ true
unfolding offer
offer-told t q h = elim (Bool-cases (ltb (length q) 32)) [
  | inl e ↦ rw (e, queued-append t t q, text_eq_refl t) (ground arith)
  | inr e ↦ rw (e, less_test _ (length-without_oldest q e h)) (told-everything t (without_oldest q))
]

offer-keeps :
    (t u : Text) (q : List Text) → length q ≤ 32 → told u q ≡ true → told u (offer t q) ≡ true
unfolding offer
offer-keeps t u q h k = elim (Bool-cases (ltb (length q) 32)) [
  | inl e ↦ rw (e, queued-append u t q, queued-append everything t q) (ground arith)
  | inr e ↦ rw (e, less_test _ (length-without_oldest q e h)) (told-everything u (without_oldest q))
]

-- What becomes of the queues when one subscription, or several, are sent a topic.
record Keeps (st st' : List Subscription) : Type 0 where
  kept : (j : ℕ) (u : Text) → told u (queue_at j st) ≡ true → told u (queue_at j st') ≡ true

deliver-queue : (t : Text) (c d : Subscription) → deliver t c ≡ some d → d.queue ≡ offer t c.queue
unfolding deliver
deliver-queue t c d e = ground arith

told_cons :
    (j : ℕ) (u : Text) (c d : Subscription) (cs ds : List Subscription)
    → (told u c.queue ≡ true → told u d.queue ≡ true)
    → ((j : ℕ) → told u (queue_at j cs) ≡ true → told u (queue_at j ds) ≡ true)
    → told u (queue_at j (c ∷ cs)) ≡ true
    → told u (queue_at j (d ∷ ds)) ≡ true
unfolding queue_at
told_cons zero u c d cs ds h k = h
told_cons (suc j) u c d cs ds h k = k j

at-deliver-told :
    (t : Text) (i : ℕ) (st st' : List Subscription)
    → at i (deliver t) st ≡ some st'
    → All HasRoom st
    → (told t (queue_at i st') ≡ true) × Keeps st st'
unfolding at queue_at
at-deliver-told t i [] st' e h = absurd cc
at-deliver-told t zero (c ∷ cs) st' e (hc, hs) =
    let (d, ed, is) = bind-some (deliver t c) _ e in
    let q = deliver-queue t c d ed in
    subst (λ x. (told t (queue_at 0 x) ≡ true) × Keeps (c ∷ cs) x) (some-inj is)
      (
        rw q (offer-told t c.queue hc),
        record {
          kept =
              λ j u. told_cons j u c d cs cs (λ k. rw q (offer-keeps t u c.queue hc k)) (λ j k. k);
        },
      )
at-deliver-told t (suc i) (c ∷ cs) st' e (hc, hs) =
    let (ds, ed, is) = bind-some (at i (deliver t) cs) _ e in
    let (here, keeps) = at-deliver-told t i cs ds ed hs in
    subst (λ x. (told t (queue_at (suc i) x) ≡ true) × Keeps (c ∷ cs) x) (some-inj is)
      (here, record { kept = λ j u. told_cons j u c c cs ds (λ k. k) (λ j. keeps.kept j u) })

eq_of : (a b : ℕ) → (a == b) ≡ true → a ≡ b
eq_of a b h = ground arith

each-told :
    (t : Text) (is : List ℕ) (st st' : List Subscription)
    → each (deliver t) is st ≡ some st'
    → All HasRoom st
    → ((j : ℕ) → 0 < times j is → told t (queue_at j st') ≡ true) × Keeps st st'
unfolding each times
each-told t [] st st' e h =
    (λ j lt. absurd (omega arith), subst (Keeps st) (some-inj e) (record { kept = λ j u k. k }))
each-told t (i ∷ is) st st' e h =
    let (st1, e1, e2) = bind-some (at i (deliver t) st) (each (deliver t) is) e in
    let (here, first) = at-deliver-told t i st st1 e1 h in
    let (there, rest) =
      each-told t is st1 st' e2 (at-HasRoom i (deliver t) st st1 (deliver-KeepsRoom t) e1 h) in
    (
      λ j lt. elim (Bool-cases (j == i)) [
        | inl same ↦ rest.kept j t (rw (eq_of j i same) here)
        | inr other ↦ there j (ground (arith, lt, other))
      ],
      record { kept = λ j u k. rest.kept j u (first.kept j u k) },
    )

-- Whether a topic that is published for `shop` is meant for the screens of `s`.
abbrev pub is_for : Text → Text → Bool
is_for shop s = is_empty shop || text_eq s shop

in_times : (s : Text) (j : ℕ) (e : Entry) → ltb 0 (in_entry s j e) ≡ true → 0 < times j e.set
in_times s j e h = ground arith

both_ways : (a b : Bool) → (not a && not b) ≡ true → (a || b) ≡ true → ⊥
both_ways a b h k = ground arith

elsewhere :
    (s k : Text) (a b : ℕ) → text_eq k s ≡ false → 0 < (if text_eq k s then a else 0) + b → 0 < b
elsewhere s k a b h lt = ground arith

-- A set that is passed over is of a shop that is not meant.
passed_over :
    (shop s k : Text)
    → (not (is_empty shop) && not (text_eq k shop)) ≡ true
    → is_for shop s ≡ true
    → text_eq k s ≡ false
passed_over shop s k skip meant = elim (Bool-cases (text_eq k s)) [
  | inl e ↦ absurd (
      both_ways (is_empty shop) (text_eq k shop) skip
        (subst (λ x. is_for shop x ≡ true) (sym (text_eq→eq k s e)) meant))
  | inr e ↦ e
]

publish_in-told :
    (shop t : Text) (es : List Entry) (st st' : List Subscription)
    → publish_in shop t es st ≡ some st'
    → All HasRoom st
    → ((s : Text) (j : ℕ)
        → 0 < filed_in s j es
        → is_for shop s ≡ true
        → told t (queue_at j st') ≡ true)
      × Keeps st st'
unfolding publish_in filed_in
publish_in-told shop t [] st st' e h =
    (λ s j lt. absurd (omega arith), subst (Keeps st) (some-inj e) (record { kept = λ j u k. k }))
publish_in-told shop t (x ∷ es) st st' e h =
    elim (Bool-cases (not (is_empty shop) && not (text_eq x.key shop))) [
      | inl skip ↦
          (let (there, keeps) = publish_in-told shop t es st st' (rw skip at e) h in
            (
              λ s j lt meant.
                  there s j
                    (elsewhere s x.key (times j x.set) (filed_in s j es)
                      (passed_over shop s x.key skip meant) lt)
                    meant,
              keeps,
            ))
      | inr take ↦
          (let (st1, e1, e2) =
              bind-some (each (deliver t) x.set st) (publish_in shop t es) (rw take at e) in
            let (here, first) = each-told t x.set st st1 e1 h in
            let (there, rest) =
              publish_in-told shop t es st1 st' e2
                (each-HasRoom (deliver t) x.set st st1 (deliver-KeepsRoom t) e1 h) in
            (
              λ s j lt meant. elim (Bool-cases (ltb 0 (in_entry s j x))) [
                | inl own ↦ rest.kept j t (here j (in_times s j x own))
                | inr other ↦ there s j (ground (arith, lt, other)) meant
              ],
              record { kept = λ j u k. rest.kept j u (first.kept j u k) },
            ))
    ]

-- After a topic was published for a shop, or for every shop where none is named, each open screen
-- that it is meant for is told of it, by the topic itself or by the word for everything, and no
-- screen has lost what it was told before.
pub publish-told :
    {max : ℕ} (shop topic : Text) (h : Hub)
    → IsSound max h
    → (h' : Hub) × (publish shop topic h ≡ some h')
      × ((s : Text) (j : ℕ)
          → open_in s j h.store ≡ 1
          → is_for shop s ≡ true
          → told topic (queue_at j h'.store) ≡ true)
      × ((j : ℕ) (u : Text)
          → told u (queue_at j h.store) ≡ true
          → told u (queue_at j h'.store) ≡ true)
unfolding publish
publish-told shop topic h w =
    let (st, ok, _) =
      publish_in-Same shop topic h.subs h.store (λ s j. omega (arith, w.filed s j)) in
    let (reached, keeps) = publish_in-told shop topic h.subs h.store st ok w.room in
    (
      record h { store = st },
      rw ok,
      λ s j is_one meant. reached s j (omega (arith, w.filed s j, is_one)) meant,
      keeps.kept,
    )
