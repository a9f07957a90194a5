-- ===== src/Live/Examples.antt =====
-- The hub of internal/live/hub.go at concrete events.
use free_sms.Common.{
  ℕ, ◌≡◌, refl, true, false, zero, suc, ◌++◌, List, [], ◌∷◌, some, length, replicate, arith,
}
use free_sms.Common.Int.{pos, add64, sub64, wrap, ◌+ℤ◌, ◌-ℤ◌}
use free_sms.Common.Text.{Text, codes}
use free_sms.Live.{
  Hub, new, Event, subscribed, unsubscribed, heard, read, missed, stopped, history, subscribe,
  unsubscribe, hear, stop, publish, at, shut, deliver, read_one, offer, everything,
}
use free_sms.Live.Channels.{open_in}
use free_sms.Live.Books.{filed_in, filed_total}
use free_sms.Live.Sound.{IsSound, history-IsSound}
use free_sms.Live.Delivery.{told, queue_at, is_for, publish-told}

abbrev day : List Event
day =
    subscribed (codes "a")
    ∷ subscribed (codes "b")
    ∷ heard (codes "a job:7")
    ∷ heard (codes "a board")
    ∷ read 0
    ∷ missed
    ∷ unsubscribed 1
    ∷ []

queues_of :
    (h : Hub) × (history day (new (pos 2)) ≡ some h)
    × (queue_at 0 h.store ≡ codes "board" ∷ everything ∷ [])
    × (h.n ≡ pos 1)
unfolding history subscribe unsubscribe hear stop at shut deliver read_one offer queue_at add64
    sub64 wrap ◌+ℤ◌ ◌-ℤ◌
queues_of = (_, refl, refl, refl)

full_then_refused :
    (h : Hub) × (history (subscribed (codes "a") ∷ subscribed (codes "a") ∷ []) (new (pos 1))
      ≡ some h)
    × (length h.store ≡ 1)
unfolding history subscribe add64 wrap ◌+ℤ◌
full_then_refused = (_, refl, refl)

-- The thirty-third topic makes room for the word for everything.
overrun :
    offer (codes "board") (codes "job:1" ∷ replicate 31 (codes "board"))
    ≡ replicate 31 (codes "board") ++ (everything ∷ [])
unfolding offer
overrun = refl

history-IsSound_example :
    (h : Hub) × (history
        (subscribed (codes "a") ∷ heard (codes "a board") ∷ stopped ∷ unsubscribed 0 ∷ [])
        (new (pos 8))
      ≡ some h)
    × IsSound 8 h
history-IsSound_example =
    history-IsSound 8
      (subscribed (codes "a") ∷ heard (codes "a board") ∷ stopped ∷ unsubscribed 0 ∷ [])
      (omega arith)

-- Two shops, with a screen of the one that has been told nothing yet.
abbrev one_screen : Hub
one_screen = record {
  max = pos 8;
  store =
      record { shop = codes "a"; queue = []; closed = false }
      ∷ record { shop = codes "b"; queue = []; closed = true }
      ∷ [];
  subs = record { key = codes "a"; set = 0 ∷ [] } ∷ [];
  n = pos 1;
  done = false;
}

one_screen-filed : (s : Text) (j : ℕ) → filed_in s j one_screen.subs ≡ open_in s j one_screen.store
unfolding filed_in open_in
one_screen-filed s zero = ground arith
one_screen-filed s (suc zero) = ground arith
one_screen-filed s (suc (suc j)) = ground arith

one_screen-IsSound : IsSound 8 one_screen
unfolding filed_in open_in filed_total
one_screen-IsSound = record {
  limit = refl;
  filed = one_screen-filed;
  counted = refl;
  bounded = omega arith;
  room = (omega arith, (omega arith, tt));
  ended = λ e. absurd cc;
}

publish-told_example :
    (h : Hub) × (publish (codes "a") (codes "board") one_screen ≡ some h)
    × ((s : Text) (j : ℕ)
        → open_in s j one_screen.store ≡ 1
        → is_for (codes "a") s ≡ true
        → told (codes "board") (queue_at j h.store) ≡ true)
    × ((j : ℕ) (u : Text)
        → told u (queue_at j one_screen.store) ≡ true
        → told u (queue_at j h.store) ≡ true)
publish-told_example = publish-told (codes "a") (codes "board") one_screen one_screen-IsSound
