-- ===== src/Realtime/Channels.antt =====
-- internal/realtime/hub.go: whatever its users do, the hub closes no channel twice, writes to none
-- that is closed, and fills none beyond its capacity.
use firego.Base.{
  ℕ, suc, ◌≤◌, ◌<◌, ◌≡◌, refl, true, false, Bool-cases, inl, inr, List, [], ◌∷◌, Bytes, map, subst,
  ◌==◌, ==_iff, length, length-append, All, arith,
}
use firego.Realtime.Hub.{
  Event, Subscriber, Hub, capacity, new_hub, subscribe, mem, is_subscribed, drop_sub, unsubscribe,
  deliver, writes_closed, publish, rest_of, take_one, receive,
}

-- A use of the hub.
pub data Use : Type 0 where
  subscribes : Bytes → Use
  unsubscribes : ℕ → Use
  publishes : Event → Use
  receives : ℕ → Use

unfoldable pub act : Hub → Use → Hub
act h (subscribes p) = (subscribe p h).1
act h (unsubscribes i) = unsubscribe i h
act h (publishes ev) = publish ev h
act h (receives i) = receive i h

-- Uses in any order, by any number of readers and writers.
unfoldable pub run : Hub → List Use → Hub
unfolding act
run h [] = h
run h (u ∷ us) = run (act h u) us

-- A subscriber has a number that was given out, an open channel, and no more events than fit.
pub record IsOpen (fresh : ℕ) (closed : List ℕ) (s : Subscriber) : Type 0 where
  pub given : s.id < fresh
  pub is_open : mem s.id closed ≡ false
  pub fits : length s.ch ≤ capacity

pub record IsValid (h : Hub) : Type 0 where
  pub open_subs : All (IsOpen h.fresh h.closed) h.subs
  pub closed_given : All (λ i. i < h.fresh) h.closed
  pub unhurt : h.panicked ≡ false

module _ (fresh : ℕ) (closed : List ℕ) where
  Open-subscribe :
      (ss : List Subscriber) → All (IsOpen fresh closed) ss → All (IsOpen (suc fresh) closed) ss
  Open-subscribe [] h = tt
  Open-subscribe (s ∷ ss) h = (
    record { given = omega (arith, h.0.given); is_open = h.0.is_open; fits = h.0.fits },
    Open-subscribe ss h.1,
  )

  fresh_is_open : (is : List ℕ) → All (λ i. i < fresh) is → mem fresh is ≡ false
  fresh_is_open [] h = refl
  fresh_is_open (i ∷ is) h = ground (arith, fresh_is_open is h.1)

  Open-unsubscribe :
      (i : ℕ) (ss : List Subscriber)
      → All (IsOpen fresh closed) ss
      → All (IsOpen fresh (i ∷ closed)) (drop_sub i ss)
  unfolding drop_sub
  Open-unsubscribe i [] h = tt
  Open-unsubscribe i (s ∷ ss) h = elim (Bool-cases (s.id == i)) [
    | inl e ↦ rw e (Open-unsubscribe i ss h.1)
    | inr e ↦ rw e (
      record { given = h.0.given; is_open = ground (arith, h.0.is_open); fits = h.0.fits },
      Open-unsubscribe i ss h.1,
    )
  ]

  subscribed-IsOpen :
      (i : ℕ) (ss : List Subscriber)
      → All (IsOpen fresh closed) ss
      → is_subscribed i ss ≡ true
      → (mem i closed ≡ false) × (i < fresh)
  unfolding is_subscribed
  subscribed-IsOpen i [] h e = cc
  subscribed-IsOpen i (s ∷ ss) h e = elim (Bool-cases (s.id == i)) [
    | inl t ↦
        let same_id : s.id ≡ i = (==_iff s.id i).0 t in
        (
          subst (λ k. mem k closed ≡ false) same_id h.0.is_open,
          subst (λ k. k < fresh) same_id h.0.given,
        )
    | inr t ↦ subscribed-IsOpen i ss h.1 (ground arith)
  ]

  deliver-IsOpen :
      (ev : Event) (s : Subscriber) → IsOpen fresh closed s → IsOpen fresh closed (deliver ev s)
  unfolding deliver
  deliver-IsOpen ev s h = ground (arith, length-append s.ch (ev ∷ []))

  Open-publish :
      (ev : Event) (ss : List Subscriber)
      → All (IsOpen fresh closed) ss
      → All (IsOpen fresh closed) (map (deliver ev) ss)
  Open-publish ev [] h = tt
  Open-publish ev (s ∷ ss) h = (deliver-IsOpen ev s h.0, Open-publish ev ss h.1)

  writes_open :
      (ev : Event) (ss : List Subscriber)
      → All (IsOpen fresh closed) ss
      → writes_closed ev closed ss ≡ false
  unfolding writes_closed
  writes_open ev [] h = refl
  writes_open ev (s ∷ ss) h = ground (arith, writes_open ev ss h.1, h.0.is_open)

  length-rest_of : (evs : List Event) → length (rest_of evs) ≤ length evs
  length-rest_of [] = omega arith
  length-rest_of (ev ∷ evs) = omega arith

  Open-receive :
      (i : ℕ) (ss : List Subscriber)
      → All (IsOpen fresh closed) ss
      → All (IsOpen fresh closed) (take_one i ss)
  unfolding take_one
  Open-receive i [] h = tt
  Open-receive i (s ∷ ss) h = elim (Bool-cases (s.id == i)) [
    | inl e ↦ rw e (
      record {
        given = h.0.given;
        is_open = h.0.is_open;
        fits = omega (arith, length-rest_of s.ch, h.0.fits);
      },
      Open-receive i ss h.1,
    )
    | inr e ↦ rw e (h.0, Open-receive i ss h.1)
  ]

closed_below_suc : (n : ℕ) (is : List ℕ) → All (λ i. i < n) is → All (λ i. i < suc n) is
closed_below_suc n [] h = tt
closed_below_suc n (i ∷ is) h = (omega (arith, h.0), closed_below_suc n is h.1)

act-IsValid : (h : Hub) (u : Use) → IsValid h → IsValid (act h u)
unfolding act subscribe unsubscribe publish receive
act-IsValid h (subscribes p) v = record {
  open_subs = (
    record {
      given = omega arith;
      is_open = fresh_is_open h.fresh h.closed h.closed v.closed_given;
      fits = omega arith;
    },
    Open-subscribe h.fresh h.closed h.subs v.open_subs,
  );
  closed_given = closed_below_suc h.fresh h.closed v.closed_given;
  unhurt = v.unhurt;
}
act-IsValid h (unsubscribes i) v = elim (Bool-cases (is_subscribed i h.subs)) [
  | inl e ↦
      let (is_open, given) = subscribed-IsOpen h.fresh h.closed i h.subs v.open_subs e in
      rw e (record {
        open_subs = Open-unsubscribe h.fresh h.closed i h.subs v.open_subs;
        closed_given = (given, v.closed_given);
        unhurt = rw (v.unhurt, is_open);
      })
  | inr e ↦ rw e v
]
act-IsValid h (publishes ev) v = record {
  open_subs = Open-publish h.fresh h.closed ev h.subs v.open_subs;
  closed_given = v.closed_given;
  unhurt = rw (v.unhurt, writes_open h.fresh h.closed ev h.subs v.open_subs);
}
act-IsValid h (receives i) v = record {
  open_subs = Open-receive h.fresh h.closed i h.subs v.open_subs;
  closed_given = v.closed_given;
  unhurt = v.unhurt;
}

-- Every use keeps a valid hub valid, and so do uses in any order.
pub run-IsValid : (us : List Use) (h : Hub) → IsValid h → IsValid (run h us)
unfolding run
run-IsValid [] h v = v
run-IsValid (u ∷ us) h v = run-IsValid us (act h u) (act-IsValid h u v)

All-fits :
    (fresh : ℕ) (closed : List ℕ) (ss : List Subscriber)
    → All (IsOpen fresh closed) ss
    → All (λ s. length s.ch ≤ capacity) ss
All-fits fresh closed [] h = tt
All-fits fresh closed (s ∷ ss) h = (h.0.fits, All-fits fresh closed ss h.1)

-- Starting from `NewHub`, whatever is done in whatever order (also an `unsubscribe` that is called
-- again), no channel is closed twice and none is written after it was closed, and no channel holds
-- more than its sixteen events.
pub run-new_hub :
    (us : List Use)
    → ((run new_hub us).panicked ≡ false) × All (λ s. length s.ch ≤ capacity) (run new_hub us).subs
run-new_hub us =
    let v = run-IsValid us new_hub (record { open_subs = tt; closed_given = tt; unhurt = refl }) in
    (
      v.unhurt,
      All-fits (run new_hub us).fresh (run new_hub us).closed (run new_hub us).subs v.open_subs,
    )
