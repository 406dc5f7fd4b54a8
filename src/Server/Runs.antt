-- ===== src/Server/Runs.antt =====
-- Runs of a server.
use firego.Base.{
  ◌≤◌, inl, ◌≡◌, refl, true, some, List, Bytes, ◌++◌, arith, [], ◌∷◌, codes, same, lookup,
}
use firego.Json.{null, str, obj, end, field, get_field}
use firego.Jwt.Token.{sign_claims}
use firego.Jwt.Sample.{sample}
use firego.Auth.Email.{trim_space, match_email}
use firego.Auth.Service.{StoredUser, new_user, issue_token, register}
use firego.Auth.Sample.{plain, draw, generate_plain}
use firego.RateLimit.Limiter.{allow}
use firego.RateLimit.ClientIp.{client_ip}
use firego.Apps.Manager.{default_id, get_app}
use firego.Apps.Running.{Sound}
use firego.Apps.Sample.{master, fresh_app, default_info, begun, begins}
use firego.Server.Http.{Request, Outside, signed_in, own_account}
use firego.Server.Database.{bearer}
use firego.Server.Accounts.{handle_register, rate_limited}
use firego.Server.Router.{
  Server, Route, new_server, admin, admin_app, limited, post_apps, delete_one_app, put_rules,
  post_register, get_me, app_only, handle_request, serve_all,
}
use firego.Server.Histories.{serve_all-Sound}
use firego.Server.Sessions.{get_me-post_register}
use firego.Server.Limits.{handled, handled-limit}
use firego.Server.Isolation.{get_app-handle_request}
use firego.Server.Sample.{blank, outside}

abbrev server : Server
server = new_server begun (codes "key") (record { last_time = 0; last_rand = [] })

-- An administrator creates an app; somebody registers with it.
abbrev creation : Request
creation = record blank {
  x_admin_key = codes "key";
  body = some (obj (field (codes "id") (str (codes "shop")) end));
}

abbrev registration : Request
registration = record blank {
  app_id = default_id;
  body = some (
      obj (
        field (codes "email") (str (codes "a@b.co"))
          (field (codes "password") (str (codes "hunter2")) end)));
}

abbrev deletion : Request
deletion = record blank { x_admin_key = codes "key" }

abbrev requests : List (Route × Request × Outside)
requests =
    (admin post_apps, creation, outside) ∷ (limited post_register, registration, outside) ∷ []

serve_all-Sound_example : Sound sample master (serve_all sample plain requests server).mgr
serve_all-Sound_example =
    serve_all-Sound sample plain [] master (0xAB ∷ []) 5000000000 (λ id. true) true begun
      (codes "key") (record { last_time = 0; last_rand = [] }) requests begins

abbrev keyless : List (Route × Request × Outside)
keyless =
    (limited post_register, registration, outside)
    ∷ (admin_app put_rules, record registration { body = some null }, outside)
    ∷ []

get_app-handle_request_example :
    get_app default_id
      (handle_request sample plain (admin delete_one_app) deletion outside server).1.mgr
    ≡ some (fresh_app default_info)
unfolding get_app lookup same
get_app-handle_request_example =
    get_app-handle_request sample plain default_id (fresh_app default_info) (admin delete_one_app)
      deletion outside server refl refl

abbrev registered_user : StoredUser
registered_user = new_user sample plain (codes "a@b.co") (codes "hunter2") draw 6000000000

abbrev given_token : Bytes
given_token =
    issue_token sample plain registered_user draw 6000000000 (fresh_app default_info).auth.secret

abbrev me : Request
me = record blank { app_id = default_id; authorization = bearer ++ given_token }

abbrev later : Outside
later = record outside { now = 7000000000 }

registration_answered :
    (handle_request sample plain (limited post_register) registration outside server).0
    ≡ signed_in 201 registered_user.user given_token
unfolding handle_request rate_limited allow client_ip handle_register register get_app lookup same
    trim_space match_email get_field sign_claims
registration_answered = rw generate_plain refl

get_me-post_register_example :
    (handle_request sample plain
      (app_only get_me)
      me
      later
      (handle_request sample plain (limited post_register) registration outside server).1).0
    ≡ own_account registered_user.user
unfolding get_app lookup same
get_me-post_register_example =
    get_me-post_register sample plain registration me outside later server (fresh_app default_info)
      registered_user.user given_token refl (omega arith, tt) (omega arith, tt) refl (omega arith)
      (omega arith) refl refl registration_answered

handled-limit_example : handled sample plain (codes "1.2.3.4") requests server ≤ 10
unfolding lookup
handled-limit_example =
    handled-limit sample plain (codes "1.2.3.4") 6000000000 requests server (inl refl) (omega arith)
      ((omega arith, omega arith), ((omega arith, omega arith), tt))
