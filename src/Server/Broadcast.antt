-- ===== src/Server/Broadcast.antt =====
-- internal/server/server.go with internal/realtime/hub.go: what a PUT sends to the streams below it.
use mathlib.Core.List.{Mem, mem-map_of_mem}
use firego.Base.{
  map, subst, ℕ, ◌<◌, ◌≡◌, refl, ap, ◌∙◌, true, some, List, [], ◌∷◌, ◌++◌, Bytes, codes, ltb,
  length, trim, All, inr, arith,
}
use firego.Json.{Json}
use firego.Paths.{slash, path_of, IsSegment}
use firego.Jwt.Token.{Codec}
use firego.Auth.Service.{Bcrypt}
use firego.Realtime.Hub.{Event, Subscriber, Hub, matches, capacity, deliver, publish}
use firego.Realtime.Matching.{matches_iff}
use firego.Database.Store.{Db, publish_change, commit, set}
use firego.Apps.Manager.{App}
use firego.Server.Http.{Request}
use firego.Server.Database.{handle_db_put}
use firego.Server.Guards.{MayWrite}
use firego.Server.Reads.{handle_db_put-answered}
use firego.Server.Streams.{HasPath}

-- The event of a PUT.
abbrev pub put_event : Bytes → Json → Event
put_event path v = record { kind = codes "put"; path = path; payload = v }

deliver-matching :
    (ev : Event) (s : Subscriber)
    → matches s.prefix ev.path ≡ true
    → length s.ch < capacity
    → deliver ev s ≡ record s { ch = s.ch ++ ev ∷ [] }
unfolding deliver
deliver-matching ev s m room =
    let fits : ltb (length s.ch) capacity ≡ true = ground arith in rw (m, fits) refl

hub-publish_change :
    (kind path : Bytes) (v : Json) (h : Hub) (db : Db)
    → db.hub ≡ some h
    → (publish_change kind path v db).hub
      ≡ some (publish (record { kind = kind; path = slash ∷ trim slash path; payload = v }) h)
unfolding publish_change
hub-publish_change kind path v h db e = rw e refl

hub-set :
    (path : Bytes) (v : Json) (h : Hub) (db : Db)
    → db.hub ≡ some h
    → (set path v true db).1.hub ≡ some (publish (put_event (slash ∷ trim slash path) v) h)
unfolding set commit
hub-set path v h db e = hub-publish_change (codes "put") path v h _ e

module _ (k : Codec) (b : Bcrypt) where
  -- After a PUT below the root that is let through, decodes and is saved, each stream of the hub that
  -- watches its path or one below it, and has room, has the whole value of the body behind what waits
  -- for it, whatever the user of the stream may read.
  pub handle_db_put-deliver :
      (req : Request) (now : ℕ) (app : App) (v : Json) (h : Hub) (p : Bytes) (ps qs : List Bytes)
      (s : Subscriber)
      → MayWrite k b req now app
      → req.body ≡ some v
      → HasPath req (p ∷ ps)
      → All IsSegment (p ∷ ps)
      → app.db.hub ≡ some h
      → Mem s h.subs
      → All IsSegment (p ∷ ps ++ qs)
      → s.prefix ≡ path_of (p ∷ ps ++ qs)
      → length s.ch < capacity
      → (h' : Hub) × ((handle_db_put k b req now true app).1.db.hub ≡ some h')
        × Mem (record s { ch = s.ch ++ put_event (path_of (p ∷ ps)) v ∷ [] }) h'.subs
  unfolding publish
  handle_db_put-deliver req now app v h p ps qs s may body path segs hub here below watches room =
      let ev = put_event (path_of (p ∷ ps)) v in
      let got =
        deliver-matching ev s
          (ap (λ x. matches x (path_of (p ∷ ps))) watches
            ∙ (matches_iff (p ∷ ps ++ qs) (p ∷ ps) below segs).1 (inr (qs, refl)))
          room in
      (
        publish ev h,
        ap (λ r. r.1.db.hub) (handle_db_put-answered k b req now true app v may body)
            ∙ hub-set req.path v h app.db hub
            ∙ ap (λ x. some (publish (put_event x v) h)) path,
        subst (λ x. Mem x (map (deliver ev) h.subs)) got (mem-map_of_mem (deliver ev) here),
      )
