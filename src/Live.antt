-- ===== src/Live.antt =====
-- internal/live/hub.go: the hub that tells open screens what changed. A subscription is a pointer,
-- the index of its channel in the store; closing a closed channel, or sending on one, stops the
-- program and is `none`.
mod Examples
pub mod Channels
pub mod Books
pub mod Loops
pub mod Sound
pub mod Delivery
use free_sms.Common.{
  ℕ, zero, suc, Bool, true, false, not, ◌||◌, ◌&&◌, List, [], ◌∷◌, ◌++◌, Option, none, some, ltb,
  ◌==◌, if◌then◌else◌, length, ◌>>=◌,
}
use free_sms.Common.Int.{ℤ, pos, add64, sub64, leb_ℤ}
use free_sms.Common.Text.{Text, codes, text_eq, is_empty, cut}

-- What is sent when something may have been missed.
abbrev pub everything : Text
everything = codes "*"

-- A `Subscription` and its channel.
pub record Subscription : Type 0 where
  pub shop : Text
  pub queue : List Text
  pub closed : Bool

-- An entry of the map `subs`.
pub record Entry : Type 0 where
  pub key : Text
  pub set : List ℕ

pub record Hub : Type 0 where
  pub max : ℤ
  pub store : List Subscription
  pub subs : List Entry
  pub n : ℤ
  pub done : Bool

abbrev pub new : ℤ → Hub
new max = record { max = max; store = []; subs = []; n = pos 0; done = false }

-- The store with one subscription changed.
unfoldable pub at :
    ℕ → (Subscription → Option Subscription) → List Subscription → Option (List Subscription)
at i f [] = none
at zero f (c ∷ cs) = do d ← f c; some (d ∷ cs)
at (suc i) f (c ∷ cs) = do ds ← at i f cs; some (c ∷ ds)

-- `close`.
unfoldable pub shut : Subscription → Option Subscription
shut c = if c.closed then none else some (record c { closed = true })

-- The two selects of `Publish`: the topic where there is room; else the oldest makes room for
-- `everything`.
abbrev pub without_oldest : List Text → List Text
without_oldest [] = []
without_oldest (t ∷ q) = q

unfoldable pub offer : Text → List Text → List Text
offer t q =
    let rest = without_oldest q in
    if ltb (length q) 32
    then q ++ (t ∷ [])
    else if ltb (length rest) 32
    then rest ++ (everything ∷ [])
    else rest

unfoldable pub deliver : Text → Subscription → Option Subscription
unfolding offer
deliver t c = if c.closed then none else some (record c { queue = offer t c.queue })

-- The set of a shop, made where it is missing, with one subscription more.
unfoldable pub file : Text → ℕ → List Entry → List Entry
file shop i [] = record { key = shop; set = i ∷ [] } ∷ []
file shop i (e ∷ es) =
    if text_eq e.key shop then record e { set = i ∷ e.set } ∷ es else e ∷ file shop i es

unfoldable pub contains_id : ℕ → List ℕ → Bool
contains_id i [] = false
contains_id i (j ∷ js) = (j == i) || contains_id i js

unfoldable pub is_filed : Text → ℕ → List Entry → Bool
unfolding contains_id
is_filed shop i [] = false
is_filed shop i (e ∷ es) = if text_eq e.key shop then contains_id i e.set else is_filed shop i es

unfoldable pub remove : ℕ → List ℕ → List ℕ
remove i [] = []
remove i (j ∷ js) = if j == i then js else j ∷ remove i js

abbrev pub with_set : Entry → List ℕ → List Entry → List Entry
with_set e [] es = es
with_set e (i ∷ is) es = record e { set = i ∷ is } ∷ es

-- The two deletes: from the set, and of a set that is empty.
unfoldable pub take_out : Text → ℕ → List Entry → List Entry
unfolding remove
take_out shop i [] = []
take_out shop i (e ∷ es) =
    if text_eq e.key shop then with_set e (remove i e.set) es else e ∷ take_out shop i es

unfoldable pub subscribe : Text → Hub → Hub × Option ℕ
unfolding file
subscribe shop h =
    let i = length h.store in
    if h.done || leb_ℤ h.max h.n then (h, none) else (
      record h {
        store = h.store ++ (record { shop = shop; queue = []; closed = false } ∷ []);
        subs = file shop i h.subs;
        n = add64 h.n (pos 1);
      },
      some i,
    )

unfoldable pub shop_of : ℕ → List Subscription → Option Text
shop_of i [] = none
shop_of zero (c ∷ cs) = some c.shop
shop_of (suc i) (c ∷ cs) = shop_of i cs

unfoldable pub end_filed : ℕ → Text → Hub → Option Hub
unfolding is_filed take_out at shut
end_filed i shop h =
    let ended = at i shut h.store >>= λ store.
    some (record h { store = store; subs = take_out shop i h.subs; n = sub64 h.n (pos 1) }) in
    if is_filed shop i h.subs then ended else some h

unfoldable pub unsubscribe : ℕ → Hub → Option Hub
unfolding shop_of end_filed
unsubscribe i h = do shop ← shop_of i h.store; end_filed i shop h

-- The loop over a set, and over the sets of the shops that are meant.
unfoldable pub each :
    (Subscription → Option Subscription) → List ℕ → List Subscription → Option (List Subscription)
unfolding at
each f [] store = some store
each f (i ∷ is) store = at i f store >>= each f is

unfoldable pub publish_in :
    Text → Text → List Entry → List Subscription → Option (List Subscription)
unfolding each deliver
publish_in shop topic [] store = some store
publish_in shop topic (e ∷ es) store =
    if not (is_empty shop) && not (text_eq e.key shop)
    then publish_in shop topic es store
    else each (deliver topic) e.set store >>= publish_in shop topic es

unfoldable pub publish : Text → Text → Hub → Option Hub
unfolding publish_in
publish shop topic h = do
  store ← publish_in shop topic h.subs h.store
  some (record h { store = store })

unfoldable pub close_all : List Entry → List Subscription → Option (List Subscription)
unfolding each shut
close_all [] store = some store
close_all (e ∷ es) store = each shut e.set store >>= close_all es

unfoldable pub stop : Hub → Option Hub
unfolding close_all
stop h = do
  store ← close_all h.subs h.store
  some (record h { store = store; subs = []; n = pos 0; done = true })

-- The body of the loop of `listen`: a notification is a shop, a space and a topic.
unfoldable pub hear : Text → Hub → Option Hub
unfolding cut publish
hear payload h =
    let (shop, topic, ok) = cut b' ' payload in
    if not ok || is_empty shop then some h else publish shop topic h

-- A reader takes the oldest topic of its channel, where there is one.
unfoldable pub read_one : Subscription → Option Subscription
read_one c = some (record c { queue = without_oldest c.queue })

-- What may happen to a hub, in any order; `missed` is what `listen` does after a reconnection, and
-- only a subscription that was handed out is ended or read.
pub data Event : Type 0 where
  subscribed : Text → Event
  unsubscribed read : ℕ → Event
  heard : Text → Event
  missed stopped : Event

abbrev pub happens : Event → Hub → Option Hub
happens (subscribed shop) h = some (subscribe shop h).0
happens (unsubscribed i) h = if ltb i (length h.store) then unsubscribe i h else some h
happens (read i) h =
    if ltb i (length h.store)
    then (do store ← at i read_one h.store; some (record h { store = store }))
    else some h
happens (heard payload) h = hear payload h
happens missed h = publish [] everything h
happens stopped h = stop h

unfoldable pub history : List Event → Hub → Option Hub
unfolding subscribe unsubscribe read_one hear stop
history [] h = some h
history (e ∷ es) h = happens e h >>= history es
