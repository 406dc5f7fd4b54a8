-- ===== src/Server/Stream.antt =====
-- internal/server/server.go: the stream of events below a path.
use firego.Base.{
  ℕ, false, not, Option, none, some, List, [], ◌∷◌, Bytes, codes, trim, ◌==◌, if◌then◌else◌,
}
use firego.Json.{Json}
use firego.Paths.{slash}
use firego.Jwt.Token.{Codec}
use firego.Auth.Service.{User, Bcrypt}
use firego.Rules.Check.{can_read}
use firego.Realtime.Hub.{Event, Subscriber, Hub, subscribe, unsubscribe, receive}
use firego.Database.Store.{get}
use firego.Apps.Manager.{App}
use firego.Server.Http.{Request, Response, refusal, streaming, dropped}
use firego.Server.Database.{auth_ctx, extract_auth, or_nobody}

-- `"/" + strings.Trim(r.PathValue("path"), "/")`
abbrev pub stream_prefix : Request → Bytes
stream_prefix req = slash ∷ trim slash req.path

abbrev pub snapshot_of : Bytes → Option Json → Option Event
snapshot_of prefix none = none
snapshot_of prefix (some v) = some (record { kind = codes "put"; path = prefix; payload = v })

-- app.Hub, which initServices gives to the database too.
abbrev pub with_hub : Hub → App → App
with_hub h app = record app { db = record app.db { hub = some h } }

abbrev pub subscribed : Bytes → App → ℕ × Hub → Response × App
subscribed prefix app (id, h) =
    (streaming id (snapshot_of prefix (get prefix app.db)), with_hub h app)

abbrev pub subscribe_to : Bytes → Option Hub → App → Response × App
subscribe_to prefix none app = (dropped, app)
subscribe_to prefix (some h) app = subscribed prefix app (subscribe prefix h)

module _ (k : Codec) (b : Bcrypt) where
  abbrev pub stream_as : Request → Option User → App → Response × App
  stream_as req user app =
      if not (can_read app.rules (stream_prefix req) (auth_ctx user))
      then (refusal 403, app)
      else subscribe_to (stream_prefix req) app.db.hub app

  -- `handleStream` up to its loop. The writers of the server can all flush.
  unfoldable pub handle_stream : Request → ℕ → App → Response × App
  unfolding extract_auth
  handle_stream req now app =
      stream_as req (or_nobody k b (extract_auth k b false req.authorization now app)) app

-- What wakes the loop of `handleStream`.
pub data Wake : Type 0 where
  client_gone : Wake
  event_ready : Wake
  timer_ticks : Wake

-- What the loop writes.
pub data Written : Type 0 where
  written_event : Event → Written
  keepalive : Written

abbrev pub first_of : List Event → Option Event
first_of [] = none
first_of (ev ∷ evs) = some ev

-- The event that waits longest for a subscriber.
unfoldable pub first_waiting : ℕ → List Subscriber → Option Event
first_waiting id [] = none
first_waiting id (s ∷ ss) =
    let rest = first_waiting id ss in if s.id == id then first_of s.ch else rest

abbrev pub events_of : Option Event → List Written
events_of none = []
events_of (some ev) = written_event ev ∷ []

-- One round of the loop, in which the deferred `unsubscribe` is that of a client that has gone; where
-- no event waits, the loop waits on.
unfoldable pub stream_round : Wake → ℕ → Hub → List Written × Hub
unfolding first_waiting receive unsubscribe
stream_round client_gone id h = ([], unsubscribe id h)
stream_round event_ready id h = (events_of (first_waiting id h.subs), receive id h)
stream_round timer_ticks id h = (keepalive ∷ [], h)
