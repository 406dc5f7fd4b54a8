-- ===== src/Realtime/Hub.antt =====
-- internal/realtime/hub.go: `Event`, `Hub` and their operations. A subscriber is named by a number,
-- where the program has its address; a channel is the list of what waits in it, and what Go's
-- runtime makes of a channel that is closed twice or written after that is a panic.
use firego.Base.{
  ℕ, suc, Bool, true, false, ◌&&◌, ◌||◌, Option, none, some, List, [], ◌∷◌, ◌++◌, Bytes, same,
  is_empty, ◌==◌, ltb, if◌then◌else◌, length, take, get_elem?, map,
}
use firego.Json.{Json}

pub record Event : Type 0 where
  pub kind : Bytes
  pub path : Bytes
  pub payload : Json

pub record Subscriber : Type 0 where
  pub id : ℕ
  pub prefix : Bytes
  pub ch : List Event

pub record Hub : Type 0 where
  pub subs : List Subscriber
  pub fresh : ℕ
  pub closed : List ℕ
  pub panicked : Bool

-- s[i] == c
abbrev pub byte_is : ℕ → Option ℕ → Bool
byte_is c none = false
byte_is c (some d) = d == c

-- `len(s) > len(p) && s[:len(p)] == p && s[len(p)] == '/'`
unfoldable pub is_below : Bytes → Bytes → Bool
is_below p s =
    ltb (length p) (length s) && same (take (length p) s) p && byte_is 47 (get_elem? s (length p))

unfoldable pub matches : Bytes → Bytes → Bool
unfolding is_below
matches prefix ev_path =
    if is_empty prefix || same prefix ev_path
    then true
    else if is_below prefix ev_path
    then true
    else if is_below ev_path prefix
    then true
    else false

abbrev pub capacity : ℕ
capacity = 16

-- `NewHub`
abbrev pub new_hub : Hub
new_hub = record { subs = []; fresh = 0; closed = []; panicked = false }

-- `Subscribe`: the number of the new subscriber stands for the channel and for `unsubscribe`.
unfoldable pub subscribe : Bytes → Hub → ℕ × Hub
subscribe prefix h = (
  h.fresh,
  record h {
    subs = record { id = h.fresh; prefix = prefix; ch = [] } ∷ h.subs;
    fresh = suc h.fresh;
  },
)

abbrev pub mem : ℕ → List ℕ → Bool
mem i [] = false
mem i (j ∷ js) = j == i || mem i js

unfoldable pub is_subscribed : ℕ → List Subscriber → Bool
is_subscribed i [] = false
is_subscribed i (s ∷ ss) = s.id == i || is_subscribed i ss

-- delete(h.subs, sub)
unfoldable pub drop_sub : ℕ → List Subscriber → List Subscriber
drop_sub i [] = []
drop_sub i (s ∷ ss) = let rest = drop_sub i ss in if s.id == i then rest else s ∷ rest

-- The function that `Subscribe` returns.
unfoldable pub unsubscribe : ℕ → Hub → Hub
unfolding is_subscribed drop_sub
unsubscribe i h =
    if is_subscribed i h.subs
    then record h {
      subs = drop_sub i h.subs;
      closed = i ∷ h.closed;
      panicked = h.panicked || mem i h.closed;
    }
    else h

-- `select { case sub.ch <- ev: default: }`, for a subscriber that matches.
unfoldable pub deliver : Event → Subscriber → Subscriber
deliver ev s =
    if matches s.prefix ev.path
    then (if ltb (length s.ch) capacity then record s { ch = s.ch ++ ev ∷ [] } else s)
    else s

unfoldable pub writes_closed : Event → List ℕ → List Subscriber → Bool
writes_closed ev closed [] = false
writes_closed ev closed (s ∷ ss) =
    matches s.prefix ev.path && mem s.id closed || writes_closed ev closed ss

-- `Publish`
unfoldable pub publish : Event → Hub → Hub
unfolding deliver writes_closed
publish ev h = record h {
  subs = map (deliver ev) h.subs;
  panicked = h.panicked || writes_closed ev h.closed h.subs;
}

abbrev pub rest_of : List Event → List Event
rest_of [] = []
rest_of (ev ∷ evs) = evs

-- `<-events`: the reader takes what waits longest, if anything does.
unfoldable pub take_one : ℕ → List Subscriber → List Subscriber
take_one i [] = []
take_one i (s ∷ ss) =
    let rest = take_one i ss in
    if s.id == i then record s { ch = rest_of s.ch } ∷ rest else s ∷ rest

unfoldable pub receive : ℕ → Hub → Hub
unfolding take_one
receive i h = record h { subs = take_one i h.subs }
