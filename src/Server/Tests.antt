-- ===== src/Server/Tests.antt =====
-- Runs of the handlers.
use mathlib.Core.List.{Mem, mem-cons_self}
use firego.Base.{
  ◌↔◌, ◌≡◌, ◌⊎◌, refl, true, false, some, [], ◌∷◌, codes, same, has_prefix, lookup, arith, inr, not,
  ◌||◌, is_empty, drop, length, trim, split,
}
use firego.Json.{null, str}
use firego.Paths.{split_path}
use firego.Jwt.Token.{sign_claims}
use firego.Jwt.Sample.{sample}
use firego.Jwt.Base64.{b64encode}
use firego.Rules.Eval.{eval_expr}
use firego.Rules.Check.{can_read, can_write}
use firego.Rules.Policies.{own_tree}
use firego.Realtime.Hub.{Hub, Subscriber, new_hub}
use firego.Database.PushId.{Generator}
use firego.Database.Store.{get}
use firego.Auth.Service.{issue_token, verify}
use firego.Auth.Sessions.{verify-register}
use firego.Auth.Sample.{plain, draw, start, email, password, ann, registered}
use firego.Apps.Manager.{App, no_registry, get_app}
use firego.Server.Http.{Request, refusal, reply, streaming}
use firego.Server.Database.{validate_db_path, bearer, handle_db_put, handle_db_get}
use firego.Server.Guards.{extract_auth-known, MayWrite}
use firego.Server.Integrity.{Keeps, ShowsKey, handle_request-Keeps}
use firego.Server.Answers.{Gets, Streams, get_db_iff}
use firego.Server.Router.{get_db, Server, new_server, app_only, put_db, handle_request}
use firego.Server.Reads.{handle_db_get-handle_db_put}
use firego.Server.Stream.{snapshot_of, handle_stream}
use firego.Server.Streams.{handle_stream-own_wildcard}
use firego.Server.Broadcast.{put_event, handle_db_put-deliver}
use firego.Server.Sample.{outside, app_with, signed_in_only, blank, put_request, with_ann, token}

abbrev app : App
app = app_with with_ann signed_in_only new_hub

abbrev empty_app : App
empty_app = app_with start signed_in_only new_hub

verified_ann : verify sample plain token 6000000000 app.auth ≡ inr ann.user
unfolding lookup
verified_ann =
    verify-register sample plain email password draw 5000000000 6000000000 true start ann.user token
      (omega arith, tt) (omega arith, tt) refl (omega arith) (omega arith) registered

bearer_token :
    (not (has_prefix put_request.authorization bearer)
      || is_empty (drop (length bearer) put_request.authorization))
    ≡ false
unfolding has_prefix issue_token sign_claims b64encode
bearer_token = refl

may : MayWrite sample plain put_request 6000000000 app
unfolding validate_db_path can_write same has_prefix eval_expr
may = (
  ann.user,
  extract_auth-known sample plain true put_request.authorization 6000000000 app ann.user
      bearer_token verified_ann,
  verified_ann,
  refl,
  refl,
)

abbrev keys : Generator
keys = record { last_time = 0; last_rand = [] }

-- A server with this app.
abbrev busy : Server
busy =
    new_server
      (record {
        apps = (codes "shop", app) ∷ [];
        registry = no_registry;
        dirs = [];
        master_secret = [];
      })
      (codes "key") keys

handle_request-Keeps_example :
    Keeps
      (codes "shop")
      app
      (handle_request sample plain (app_only put_db) put_request outside busy).1.mgr
    ⊎ ((put_request.app_id ≡ codes "shop") × MayWrite sample plain put_request outside.now app)
    ⊎ ShowsKey put_request busy
unfolding get_app lookup same
handle_request-Keeps_example =
    handle_request-Keeps sample plain (app_only put_db) put_request outside busy (codes "shop") app
      refl

handle_db_get-handle_db_put_example :
    handle_db_get sample plain put_request 6000000000
      (handle_db_put sample plain put_request 6000000000 true app).1
    ≡ reply 200 (str (codes "hi"))
unfolding split_path trim split can_read same eval_expr
handle_db_get-handle_db_put_example =
    handle_db_get-handle_db_put sample plain put_request 6000000000 6000000000 app
      (str (codes "hi")) (codes "posts") (codes "p1" ∷ []) may refl refl refl

get_db_iff_example :
    ((handle_request sample plain (app_only get_db) put_request outside busy).0 ≡ reply 200 null)
    ↔ Gets sample plain put_request outside busy null
get_db_iff_example = get_db_iff sample plain put_request outside busy null

abbrev private_app : App
private_app = app_with start own_tree new_hub

abbrev wild : Request
wild = record blank { path = codes "users/$uid" }

handle_stream-own_wildcard_example :
    ((handle_stream sample plain wild 0 private_app).0
      ≡ streaming 0 (snapshot_of (codes "/users/$uid") (get (codes "/users/$uid") private_app.db)))
    × (handle_db_get sample plain wild 0 private_app ≡ refusal 400)
unfolding has_prefix trim
handle_stream-own_wildcard_example =
    handle_stream-own_wildcard sample plain wild 0 private_app new_hub [] refl refl tt refl refl

abbrev put_posts : Request
put_posts = record put_request { path = codes "posts" }

-- Somebody watches below the path of the PUT.
abbrev below_posts : Subscriber
below_posts = record { id = 0; prefix = codes "/posts/p1"; ch = [] }

abbrev watched : Hub
watched = record new_hub { subs = below_posts ∷ []; fresh = 1 }

abbrev watched_app : App
watched_app = app_with with_ann signed_in_only watched

may_put_posts : MayWrite sample plain put_posts 6000000000 watched_app
unfolding validate_db_path can_write same has_prefix eval_expr
may_put_posts = (
  ann.user,
  extract_auth-known sample plain true put_posts.authorization 6000000000 watched_app ann.user
      bearer_token verified_ann,
  verified_ann,
  refl,
  refl,
)

handle_db_put-deliver_example :
    (h' : Hub) × ((handle_db_put sample plain put_posts 6000000000 true watched_app).1.db.hub
      ≡ some h')
    × Mem (record below_posts { ch = put_event (codes "/posts") (str (codes "hi")) ∷ [] }) h'.subs
unfolding trim
handle_db_put-deliver_example =
    handle_db_put-deliver sample plain put_posts 6000000000 watched_app (str (codes "hi")) watched
      (codes "posts") [] (codes "p1" ∷ []) below_posts may_put_posts refl refl (omega arith, tt)
      refl mem-cons_self (omega arith, (omega arith, tt)) refl (omega arith)
