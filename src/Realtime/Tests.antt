-- ===== src/Realtime/Tests.antt =====
-- Runs of the hub.
use firego.Base.{
  ◌≤◌, ◌≡◌, ◌↔◌, ◌⊎◌, refl, true, false, some, same, List, [], ◌∷◌, Bytes, codes, length, map, All,
  arith,
}
use firego.Json.{null}
use firego.Paths.{path_of}
use firego.Realtime.Hub.{
  Event, Hub, new_hub, matches, is_below, capacity, subscribe, deliver, publish,
}
use firego.Realtime.Matching.{Extends, matches_iff}
use firego.Realtime.Delivery.{publish_all, filled, subs-publish_all}
use firego.Realtime.Reading.{channel, channel-run}
use firego.Realtime.Channels.{
  Use, subscribes, unsubscribes, publishes, receives, act, run, run-new_hub,
}

abbrev put_at : Bytes → Event
put_at path = record { kind = codes "put"; path = path; payload = null }

matches_iff_example : (matches (codes "/a") (path_of (codes "a" ∷ codes "b" ∷ [])) ≡ true) ↔ (
    Extends (codes "a" ∷ []) (codes "a" ∷ codes "b" ∷ [])
    ⊎ Extends (codes "a" ∷ codes "b" ∷ []) (codes "a" ∷ []))
matches_iff_example =
    matches_iff (codes "a" ∷ []) (codes "a" ∷ codes "b" ∷ []) (omega arith) (omega arith)

abbrev watched : Hub
watched = (subscribe (codes "/a") new_hub).1

subs-publish_all_example :
    (publish_all (put_at (codes "/b") ∷ put_at (codes "/a/x") ∷ []) watched).subs
    ≡ map (filled (put_at (codes "/b") ∷ put_at (codes "/a/x") ∷ [])) watched.subs
subs-publish_all_example =
    subs-publish_all (put_at (codes "/b") ∷ put_at (codes "/a/x") ∷ []) watched

run-new_hub_example :
    ((run new_hub (subscribes (codes "/a") ∷ unsubscribes 0 ∷ unsubscribes 0 ∷ [])).panicked
      ≡ false)
    × All
        (λ s. length s.ch ≤ capacity)
        (run new_hub (subscribes (codes "/a") ∷ unsubscribes 0 ∷ unsubscribes 0 ∷ [])).subs
run-new_hub_example = run-new_hub (subscribes (codes "/a") ∷ unsubscribes 0 ∷ unsubscribes 0 ∷ [])

-- Two events wait; one is read while another is put in.
abbrev waiting : List Use
waiting =
    subscribes (codes "/a")
    ∷ publishes (put_at (codes "/a/1"))
    ∷ publishes (put_at (codes "/a/2"))
    ∷ []

channel-run_example :
    (more : List Event) × (channel 0
        (run (run new_hub waiting) (receives 0 ∷ publishes (put_at (codes "/a/3")) ∷ [])).subs
      ≡ some (put_at (codes "/a/2") ∷ more))
unfolding run act channel matches is_below same deliver subscribe publish
channel-run_example =
    channel-run waiting (receives 0 ∷ publishes (put_at (codes "/a/3")) ∷ []) 0
      (put_at (codes "/a/2")) (put_at (codes "/a/1") ∷ []) [] refl (tt, (tt, tt)) refl
