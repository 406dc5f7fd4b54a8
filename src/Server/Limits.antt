-- ===== src/Server/Limits.antt =====
-- internal/server/server.go with internal/ratelimit/ratelimit.go: how many requests to register or to
-- log in of one client get past the limiter that all apps share.
use firego.Base.{
  ℕ, ◌+◌, ◌≤◌, ◌<◌, ◌≡◌, refl, subst, Bool, true, false, not, Bool-cases, Option, none, some, List,
  [], ◌∷◌, Bytes, same, ◌==◌, ◌||◌, ◌⊎◌, inl, inr, if◌then◌else◌, All, arith,
}
use firego.Jwt.Token.{Codec}
use firego.Auth.Service.{Bcrypt}
use firego.RateLimit.Limiter.{Limiter, allow}
use firego.RateLimit.ClientIp.{client_ip}
use firego.RateLimit.Budget.{request, admitted, admits, IsFresh}
use firego.RateLimit.Idle.{calls, admitted-calls}
use firego.Apps.Manager.{App, Manager, get_app}
use firego.Server.Http.{Request, Outside, Response, refusal}
use firego.Server.Accounts.{rate_limited}
use firego.Server.Admin.{require_admin, shown_key}
use firego.Server.Sessions.{gate}
use firego.Server.Router.{
  Server, Route, preflight, healthz, admin, admin_app, limited, app_only, post_db, LimitedRoute,
  on_limited, with_mgr, limited_app, push_app, handle_request,
}

-- The answers of what stands before the limited handlers, which give none of them.
abbrev pub turned_away : Response → Bool
turned_away (refusal n) = n == 429 || n == 404
turned_away r = false

abbrev pub client_of : Request → Bytes
client_of req = client_ip req.x_forwarded_for req.remote_addr

abbrev pub one_if : Bool → Bool → ℕ
one_if own ok = if own then (if ok then 1 else 0) else 0

gate_handles {ℓ} :
    {S : Type ℓ} (own ok : Bool) (next : Response × S) (l : Limiter) (state : S)
    → one_if own (not (turned_away (gate ok next l state).0)) ≤ one_if own ok
gate_handles false ok next l state = omega arith
gate_handles true false next l state = omega arith
gate_handles true true next l state = ground arith

gate_limiter {ℓ} :
    {S : Type ℓ} (ok : Bool) (next : Response × S) (l : Limiter) (state : S)
    → (gate ok next l state).1.0 ≡ l
gate_limiter true next l state = refl
gate_limiter false next l state = refl

module _ (k : Codec) (b : Bcrypt) (key : Bytes) where
  -- One if it is a request of the client to register or to log in, and is handled.
  abbrev pub handles : Route → Request → Outside → Server → ℕ
  handles (limited route) req out s =
      one_if (same (client_of req) key)
        (not (turned_away (handle_request k b (limited route) req out s).0))
  handles route req out s = 0

  -- The requests of the client to register or to log in that a server handles.
  unfoldable pub handled : List (Route × Request × Outside) → Server → ℕ
  unfolding handle_request
  handled [] s = 0
  handled ((route, req, out) ∷ more) s =
      handles route req out s + handled more (handle_request k b route req out s).1

  -- What a request does at the limiter: nothing, or one call.
  abbrev Calls : Route → Request → Outside → Server → Type 0
  Calls route req out s =
      ((handles route req out s ≡ 0) × ((handle_request k b route req out s).1.auth_rl ≡ s.auth_rl))
      ⊎ ((handles route req out s ≤ admits key s.auth_rl (request (client_of req) out.now))
          × ((handle_request k b route req out s).1.auth_rl
              ≡ (allow (client_of req) out.now s.auth_rl).1))

  admin_limiter :
      (req : Request) (s : Server) (r : Response × Manager)
      → (require_admin s.admin_key req s (with_mgr k b s r)).1.auth_rl ≡ s.auth_rl
  unfolding require_admin
  admin_limiter req s r = elim (Bool-cases (same (shown_key req) s.admin_key)) [
    | inl shown ↦ rw shown refl
    | inr hidden ↦ rw hidden refl
  ]

  push_limiter :
      (req : Request) (out : Outside) (o : Option App) (s : Server)
      → (push_app k b req out o s).1.auth_rl ≡ s.auth_rl
  push_limiter req out none s = refl
  push_limiter req out (some a) s = refl

  handled_app : LimitedRoute → Request → Outside → Option App → Server → ℕ
  handled_app route req out o s =
      one_if (same (client_of req) key) (not (turned_away (limited_app k b route req out o s).0))

  limited_calls :
      (route : LimitedRoute) (req : Request) (out : Outside) (o : Option App) (s : Server)
      → ((handled_app route req out o s ≡ 0)
          × ((limited_app k b route req out o s).1.auth_rl ≡ s.auth_rl))
        ⊎ ((handled_app route req out o s ≤ admits key s.auth_rl (request (client_of req) out.now))
            × ((limited_app k b route req out o s).1.auth_rl
                ≡ (allow (client_of req) out.now s.auth_rl).1))
  unfolding handled_app rate_limited
  limited_calls route req out none s = inl (ground arith, refl)
  limited_calls route req out (some a) s =
      let verdict = allow (client_of req) out.now s.auth_rl in
      let next = on_limited k b route req out a in
      inr (
        gate_handles (same (client_of req) key) verdict.0 next verdict.1 a,
        gate_limiter verdict.0 next verdict.1 a,
      )

  request-Calls :
      (route : Route) (req : Request) (out : Outside) (s : Server) → Calls route req out s
  unfolding handle_request handled_app
  request-Calls preflight req out s = inl (refl, refl)
  request-Calls healthz req out s = inl (refl, refl)
  request-Calls (admin route) req out s = inl (refl, admin_limiter req s _)
  request-Calls (admin_app route) req out s = inl (refl, admin_limiter req s _)
  request-Calls (limited route) req out s = limited_calls route req out (get_app req.app_id s.mgr) s
  request-Calls (app_only route) req out s = inl (refl, refl)
  request-Calls post_db req out s = inl (refl, push_limiter req out (get_app req.app_id s.mgr) s)

  -- Requests that are made between two times.
  abbrev pub AllWithin : ℕ → ℕ → List (Route × Request × Outside) → Type 0
  AllWithin t u = All (λ x. (t ≤ x.2.now) × (x.2.now ≤ u))

  traced :
      (t u : ℕ) (xs : List (Route × Request × Outside)) (s : Server)
      → AllWithin t u xs
      → (ps : List (Bytes × ℕ)) × (handled xs s ≤ admitted key s.auth_rl (calls ps))
        × All (λ p. (t ≤ p.1) × (p.1 ≤ u)) ps
  unfolding handled admitted
  traced t u [] s h = ([], omega arith, tt)
  traced t u ((route, req, out) ∷ more) s (now, h) =
      let s' = (handle_request k b route req out s).1 in
      let (ps, counts, within) = traced t u more s' h in
      elim (request-Calls route req out s) [
        | inl (none_of, kept) ↦
            let carried = subst (λ l. handled more s' ≤ admitted key l (calls ps)) kept counts in
            (ps, omega (arith, none_of, carried), within)
        | inr (one, called) ↦
            let carried = subst (λ l. handled more s' ≤ admitted key l (calls ps)) called counts in
            ((client_of req, out.now) ∷ ps, omega (arith, one, carried), (now, within))
      ]

  -- A client, as ClientIP names it, that has no running window gets at most as many requests to
  -- register or to log in handled, at all apps together and up to one duration later, as the limiter
  -- allows, whatever else the server is asked in between.
  pub handled-limit :
      (t : ℕ) (xs : List (Route × Request × Outside)) (s : Server)
      → IsFresh key t s.auth_rl
      → 0 < s.auth_rl.limit
      → AllWithin t (t + s.auth_rl.dur) xs
      → handled xs s ≤ s.auth_rl.limit
  handled-limit t xs s fresh pos h =
      let (ps, counts, within) = traced t (t + s.auth_rl.dur) xs s h in
      omega (arith, counts, admitted-calls key t ps s.auth_rl fresh pos within)
