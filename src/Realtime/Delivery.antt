-- ===== src/Realtime/Delivery.antt =====
-- internal/realtime/hub.go: what reaches a subscriber that is slow to read.
use firego.Base.{
  ℕ, zero, suc, ◌-◌, ◌<◌, ◌∙◌, ◌≡◌, refl, ap, true, false, Bool-cases, inl, inr, List, [], ◌∷◌,
  ◌++◌, append_assoc, append-nil, Bytes, map, ltb, if◌then◌else◌, length, length-append, take,
  arith,
}
use firego.Realtime.Hub.{Event, Subscriber, Hub, matches, capacity, deliver, publish}

unfoldable pub publish_all : List Event → Hub → Hub
unfolding publish
publish_all [] h = h
publish_all (ev ∷ evs) h = publish_all evs (publish ev h)

-- The events that concern a watched path.
unfoldable pub wanted : Bytes → List Event → List Event
wanted prefix [] = []
wanted prefix (ev ∷ evs) =
    let rest = wanted prefix evs in if matches prefix ev.path then ev ∷ rest else rest

-- A channel that takes events until it is full.
abbrev pub filled : List Event → Subscriber → Subscriber
filled evs s = record s { ch = s.ch ++ take (capacity - length s.ch) (wanted s.prefix evs) }

take_nil : (n : ℕ) → take {A = Event} n [] ≡ []
take_nil zero = refl
take_nil (suc n) = refl

filled_nil : (s : Subscriber) → filled [] s ≡ s
unfolding wanted
filled_nil s = rw (take_nil (capacity - length s.ch), append-nil s.ch)

take_step :
    (n : ℕ) (ev : Event) (evs : List Event) → 0 < n → take n (ev ∷ evs) ≡ ev ∷ take (n - 1) evs
take_step zero ev evs h = absurd (omega arith)
take_step (suc n) ev evs h = rw (less n)
  where
    less : (n : ℕ) → suc n - 1 ≡ n
    less n = omega arith

fill_step :
    (ch : List Event) (ev : Event) (w : List Event)
    → ltb (length ch) capacity ≡ true
    → (ch ++ ev ∷ []) ++ take (capacity - length (ch ++ ev ∷ [])) w
      ≡ ch ++ take (capacity - length ch) (ev ∷ w)
fill_step ch ev w h =
    let left : capacity - length (ch ++ ev ∷ []) ≡ capacity - length ch - 1 =
      omega (arith, length-append ch (ev ∷ [])) in
    let room : 0 < capacity - length ch = ground arith in
    rw (
      left,
      append_assoc ch (ev ∷ []) (take (capacity - length ch - 1) w),
      take_step (capacity - length ch) ev w room,
    )

fill_full :
    (ch : List Event) (ev : Event) (w : List Event)
    → ltb (length ch) capacity ≡ false
    → take (capacity - length ch) w ≡ take (capacity - length ch) (ev ∷ w)
fill_full ch ev w h = let none_left : capacity - length ch ≡ 0 = ground arith in rw none_left

filled-deliver :
    (ev : Event) (evs : List Event) (s : Subscriber)
    → filled evs (deliver ev s) ≡ filled (ev ∷ evs) s
unfolding deliver wanted
filled-deliver ev evs s = elim (Bool-cases (matches s.prefix ev.path)) [
  | inr e ↦ rw e
  | inl e ↦ rw e (elim (Bool-cases (ltb (length s.ch) capacity)) [
    | inl room ↦
        rw room (ap (λ c. record s { ch = c }) (fill_step s.ch ev (wanted s.prefix evs) room))
    | inr full ↦
        rw full
          (ap (λ c. record s { ch = s.ch ++ c }) (fill_full s.ch ev (wanted s.prefix evs) full))
  ])
]

map-filled :
    (evs : List Event) (ev : Event) (ss : List Subscriber)
    → map (filled evs) (map (deliver ev) ss) ≡ map (filled (ev ∷ evs)) ss
map-filled evs ev [] = refl
map-filled evs ev (s ∷ ss) = rw (filled-deliver ev evs s, map-filled evs ev ss)

map-filled_nil : (ss : List Subscriber) → ss ≡ map (filled []) ss
map-filled_nil [] = refl
map-filled_nil (s ∷ ss) = rw (filled_nil s, ← map-filled_nil ss)

-- Whatever is published while nobody reads, each channel gets, in order, the first events that
-- concern its path, as many as it has room for; the later ones are lost to it, and no event for
-- another path takes room.
pub subs-publish_all :
    (evs : List Event) (h : Hub) → (publish_all evs h).subs ≡ map (filled evs) h.subs
unfolding publish_all
subs-publish_all [] h = map-filled_nil h.subs
subs-publish_all (ev ∷ evs) h = subs-publish_all evs (publish ev h) ∙ map-filled evs ev h.subs
