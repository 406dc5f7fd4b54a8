-- ===== src/Realtime/Reading.antt =====
-- internal/realtime/hub.go: what is in a channel is read in its order.
use firego.Base.{
  ℕ, suc, ◌<◌, ◌≡◌, ◌≢◌, refl, sym, ap, ◌∙◌, subst, true, false, Bool-cases, inl, inr, Option, none,
  some, some_inj, List, [], ◌∷◌, ◌++◌, append_assoc, append-nil, map, length, All, ltb, ◌==◌,
  ==_iff, arith, if◌then◌else◌,
}
use firego.Realtime.Hub.{
  Event, Subscriber, Hub, matches, capacity, new_hub, subscribe, is_subscribed, drop_sub,
  unsubscribe, deliver, publish, rest_of, take_one, receive,
}
use firego.Realtime.Channels.{
  Use, subscribes, unsubscribes, publishes, receives, act, run, IsOpen, IsValid, run-IsValid,
}

-- What waits for a subscriber that is there.
unfoldable pub channel : ℕ → List Subscriber → Option (List Event)
channel i [] = none
channel i (s ∷ ss) = let rest = channel i ss in if s.id == i then some s.ch else rest

-- A subscriber does not leave, and how often it reads.
abbrev pub Remains : ℕ → Use → Type 0
Remains i (unsubscribes j) = j ≢ i
Remains i _ = Unit

abbrev pub reads : ℕ → List Use → ℕ
reads i [] = 0
reads i (receives j ∷ us) = let rest = reads i us in if j == i then suc rest else rest
reads i (_ ∷ us) = reads i us

module _ (i : ℕ) where
  channel_given :
      (fresh : ℕ) (closed : List ℕ) (ss : List Subscriber) (ch : List Event)
      → All (IsOpen fresh closed) ss
      → channel i ss ≡ some ch
      → i < fresh
  unfolding channel
  channel_given fresh closed [] ch h e = absurd cc
  channel_given fresh closed (s ∷ ss) ch h e = elim (Bool-cases (s.id == i)) [
    | inl t ↦ subst (λ j. j < fresh) ((==_iff s.id i).0 t) h.0.given
    | inr t ↦ channel_given fresh closed ss ch h.1 (sym (rw t refl) ∙ e)
  ]

  -- Channels that grew at their ends.
  abbrev Grown : List Event → List Subscriber → Type 0
  Grown ch ss = (more : List Event) × (channel i ss ≡ some (ch ++ more))

  Grown-nil : (ch : List Event) (ss : List Subscriber) → channel i ss ≡ some ch → Grown ch ss
  Grown-nil ch ss e = ([], e ∙ ap some (sym (append-nil ch)))

  deliver_grows :
      (ev : Event) (s : Subscriber)
      → ((deliver ev s).id ≡ s.id) × ((more : List Event) × ((deliver ev s).ch ≡ s.ch ++ more))
  unfolding deliver
  deliver_grows ev s = elim (Bool-cases (matches s.prefix ev.path)) [
    | inl m ↦ elim (Bool-cases (ltb (length s.ch) capacity)) [
      | inl room ↦ rw (m, room) (refl, (ev ∷ [], refl))
      | inr full ↦ rw (m, full) (refl, ([], sym (append-nil s.ch)))
    ]
    | inr other ↦ rw other (refl, ([], sym (append-nil s.ch)))
  ]

  channel-publish :
      (ev : Event) (ss : List Subscriber) (ch : List Event)
      → channel i ss ≡ some ch
      → Grown ch (map (deliver ev) ss)
  unfolding channel
  channel-publish ev [] ch e = absurd cc
  channel-publish ev (s ∷ ss) ch e =
      let (same_id, (more, grows)) = deliver_grows ev s in
      elim (Bool-cases (s.id == i)) [
        | inl t ↦
            let it : s.ch ≡ ch = some_inj.0 (sym (rw t refl) ∙ e) in
            let t' : ((deliver ev s).id == i) ≡ true = ap (λ x. x == i) same_id ∙ t in
            (more, rw t' (ap some (grows ∙ ap (λ c. c ++ more) it)))
        | inr t ↦
            let (more', rest) = channel-publish ev ss ch (sym (rw t refl) ∙ e) in
            let t' : ((deliver ev s).id == i) ≡ false = ap (λ x. x == i) same_id ∙ t in
            (more', rw t' rest)
      ]

  channel-take_one :
      (ss : List Subscriber) (ch : List Event)
      → channel i ss ≡ some ch
      → channel i (take_one i ss) ≡ some (rest_of ch)
  unfolding channel take_one
  channel-take_one [] ch e = absurd cc
  channel-take_one (s ∷ ss) ch e = elim (Bool-cases (s.id == i)) [
    | inl t ↦
        let it : s.ch ≡ ch = some_inj.0 (sym (rw t refl) ∙ e) in
        rw t (rw t (ap (λ c. some (rest_of c)) it))
    | inr t ↦ rw t (rw t (channel-take_one ss ch (sym (rw t refl) ∙ e)))
  ]

  channel-take_other :
      (j : ℕ) (ss : List Subscriber) → (j == i) ≡ false → channel i (take_one j ss) ≡ channel i ss
  unfolding channel take_one
  channel-take_other j [] other = refl
  channel-take_other j (s ∷ ss) other = ground (arith, channel-take_other j ss other)

  channel-drop_sub :
      (j : ℕ) (ss : List Subscriber) → j ≢ i → channel i (drop_sub j ss) ≡ channel i ss
  unfolding channel drop_sub
  channel-drop_sub j [] other = refl
  channel-drop_sub j (s ∷ ss) other = ground (arith, channel-drop_sub j ss other)

  -- Every use but a read of its own leaves what is in the channel of a subscriber that remains.
  act-Grown :
      (u : Use) (h : Hub) (ch : List Event)
      → IsValid h
      → Remains i u
      → ((j : ℕ) → u ≡ receives j → (j == i) ≡ false)
      → channel i h.subs ≡ some ch
      → Grown ch (act h u).subs
  unfolding act subscribe unsubscribe publish receive channel
  act-Grown (subscribes p) h ch v stays other e =
      let given = channel_given h.fresh h.closed h.subs ch v.open_subs e in
      let apart : (h.fresh == i) ≡ false = ground arith in
      Grown-nil ch (act h (subscribes p)).subs (rw apart e)
  act-Grown (unsubscribes j) h ch v stays other e = elim (Bool-cases (is_subscribed j h.subs)) [
    | inl t ↦ rw t (Grown-nil ch _ (channel-drop_sub j h.subs stays ∙ e))
    | inr t ↦ rw t (Grown-nil ch _ e)
  ]
  act-Grown (publishes ev) h ch v stays other e = channel-publish ev h.subs ch e
  act-Grown (receives j) h ch v stays other e =
      Grown-nil ch _ (channel-take_other j h.subs (other j refl) ∙ e)

  act-IsValid : (u : Use) (h : Hub) → IsValid h → IsValid (act h u)
  unfolding run
  act-IsValid u h v = run-IsValid (u ∷ []) h v

  -- The uses go on from a channel in which the event stands behind as many as are read.
  abbrev Reached : Event → List Event → Hub → List Use → Type 0
  Reached ev before h us =
      (after : List Event)
      → channel i h.subs ≡ some (before ++ ev ∷ after)
      → reads i us ≡ length before
      → (more : List Event) × (channel i (run h us).subs ≡ some (ev ∷ more))

  after_other :
      (u : Use) (us : List Use) (ev : Event) (before : List Event) (h : Hub)
      → IsValid h
      → Remains i u
      → ((j : ℕ) → u ≡ receives j → (j == i) ≡ false)
      → reads i (u ∷ us) ≡ reads i us
      → Reached ev before (act h u) us
      → Reached ev before h (u ∷ us)
  unfolding run
  after_other u us ev before h v stays other count next after e n =
      let (more, grown) = act-Grown u h (before ++ ev ∷ after) v stays other e in
      next (after ++ more) (grown ∙ ap some (append_assoc before (ev ∷ after) more)) (sym count ∙ n)

  after_read :
      (j : ℕ) (us : List Use) (ev : Event) (b : Event) (before : List Event) (h : Hub)
      → (j == i) ≡ true
      → Reached ev before (act h (receives j)) us
      → Reached ev (b ∷ before) h (receives j ∷ us)
  unfolding run act receive
  after_read j us ev b before h mine next after e n =
      let same_id : j ≡ i = (==_iff j i).0 mine in
      next after
        (ap (λ x. channel i (take_one x h.subs)) same_id
          ∙ channel-take_one h.subs (b ∷ before ++ ev ∷ after) e)
        (ground (arith, n, mine))

  receives_inj : (j j' : ℕ) → receives j ≡ receives j' → j ≡ j'
  receives_inj j j' h = cc

  other_read : (j : ℕ) → (j == i) ≡ false → (j' : ℕ) → receives j ≡ receives j' → (j' == i) ≡ false
  other_read j other j' e = ap (λ x. x == i) (sym (receives_inj j j' e)) ∙ other

  Reached-nil : (ev : Event) (before : List Event) (h : Hub) → Reached ev before h []
  unfolding run
  Reached-nil ev [] h after e n = (after, e)
  Reached-nil ev (b ∷ before) h after e n = absurd (omega (arith, n))

  none_before :
      (j : ℕ) (us : List Use) (ev : Event) (h : Hub)
      → (j == i) ≡ true
      → Reached ev [] h (receives j ∷ us)
  none_before j us ev h mine after e n = absurd (ground (arith, n, mine))

  run-Reached :
      (us : List Use) (ev : Event) (before : List Event) (h : Hub)
      → IsValid h
      → All (Remains i) us
      → Reached ev before h us
  run-Reached [] ev before h v stays = Reached-nil ev before h
  run-Reached (subscribes p ∷ us) ev before h v stays =
      after_other (subscribes p) us ev before h v stays.0 (λ j e. absurd cc) refl
        (run-Reached us ev before (act h (subscribes p)) (act-IsValid (subscribes p) h v) stays.1)
  run-Reached (unsubscribes j ∷ us) ev before h v stays =
      after_other (unsubscribes j) us ev before h v stays.0 (λ j e. absurd cc) refl
        (run-Reached us ev before (act h (unsubscribes j)) (act-IsValid (unsubscribes j) h v)
          stays.1)
  run-Reached (publishes x ∷ us) ev before h v stays =
      after_other (publishes x) us ev before h v stays.0 (λ j e. absurd cc) refl
        (run-Reached us ev before (act h (publishes x)) (act-IsValid (publishes x) h v) stays.1)
  run-Reached (receives j ∷ us) ev [] h v stays = elim (Bool-cases (j == i)) [
    | inl mine ↦ none_before j us ev h mine
    | inr other ↦
        after_other (receives j) us ev [] h v stays.0 (other_read j other) (rw other refl)
          (run-Reached us ev [] (act h (receives j)) (act-IsValid (receives j) h v) stays.1)
  ]
  run-Reached (receives j ∷ us) ev (b ∷ before) h v stays = elim (Bool-cases (j == i)) [
    | inl mine ↦
        after_read j us ev b before h mine
          (run-Reached us ev before (act h (receives j)) (act-IsValid (receives j) h v) stays.1)
    | inr other ↦
        after_other (receives j) us ev (b ∷ before) h v stays.0 (other_read j other) (rw other refl)
          (run-Reached us ev (b ∷ before) (act h (receives j)) (act-IsValid (receives j) h v)
            stays.1)
  ]

-- An event that waits in a channel comes to the front, once its subscriber has read as often as
-- events stood before it, whatever else is done to the hub in between, if the subscriber does not
-- leave.
pub channel-run :
    (before_that us : List Use) (i : ℕ) (ev : Event) (before after : List Event)
    → channel i (run new_hub before_that).subs ≡ some (before ++ ev ∷ after)
    → All (Remains i) us
    → reads i us ≡ length before
    → (more : List Event) × (channel i (run (run new_hub before_that) us).subs ≡ some (ev ∷ more))
channel-run before_that us i ev before after e stays n =
    run-Reached i us ev before (run new_hub before_that)
      (run-IsValid before_that new_hub
        (record { open_subs = tt; closed_given = tt; unhurt = refl }))
      stays after e n
