-- ===== src/Server/Guards.antt =====
-- internal/server/server.go: no database request gets past the token and the rules.
use firego.Base.{
  ℕ, ◌≡◌, refl, ap, ◌∙◌, Bool, true, false, not, Bool-cases, Option, none, some, List, Bytes, ◌⊎◌,
  inl, inr, drop, length, has_prefix, is_empty, ◌||◌,
}
use firego.Jwt.Token.{Codec}
use firego.Auth.Service.{User, Bcrypt, AuthError, verify}
use firego.Rules.Check.{can_write}
use firego.Database.PushId.{Generator}
use firego.Apps.Manager.{App}
use firego.Server.Http.{Request, Response}
use firego.Server.Database.{
  handle_db_patch, validate_db_path, bearer, auth_ctx, verified, extract_auth, app_auth_route,
  may_write, handle_db_put, handle_db_push, handle_db_delete,
}

pub verdict_cases :
    (o : AuthError ⊎ User) → ((e : AuthError) × (o ≡ inl e)) ⊎ ((u : User) × (o ≡ inr u))
verdict_cases (inl e) = inl (e, refl)
verdict_cases (inr u) = inr (u, refl)

-- The requests that change a database, with what each reads of the clock and the random source.
pub data Method : Type 0 where
  put : Method
  patch : Method
  push_new : ℕ → List ℕ → Method
  delete_all : Method

abbrev pub beside : Generator → Response × App → Response × (Generator × App)
beside g (r, app) = (r, (g, app))

module _ (k : Codec) (b : Bcrypt) where
  unfoldable pub handle :
      Method → Request → ℕ → Bool → Generator → App → Response × (Generator × App)
  unfolding handle_db_put handle_db_patch handle_db_push handle_db_delete
  handle put req now disk g app = beside g (handle_db_put k b req now disk app)
  handle patch req now disk g app = beside g (handle_db_patch k b req now disk app)
  handle (push_new milli random) req now disk g app =
      handle_db_push k b req now milli random disk g app
  handle delete_all req now disk g app = beside g (handle_db_delete k b req now disk app)

  -- The request names a user by a token that verifies, its path is valid, and the rules let the user
  -- write there.
  abbrev pub MayWrite : Request → ℕ → App → Type 0
  MayWrite req now app =
      (user : User) × (extract_auth k b true req.authorization now app ≡ some (some user))
      × (verify k b (drop (length bearer) req.authorization) now app.auth ≡ inr user)
      × (validate_db_path req.path ≡ true)
      × (can_write app.rules req.path (auth_ctx (some user)) ≡ true)

  -- A bearer token that verifies gives its user.
  pub extract_auth-known :
      (require : Bool) (header : Bytes) (now : ℕ) (app : App) (user : User)
      → (not (has_prefix header bearer) || is_empty (drop (length bearer) header)) ≡ false
      → verify k b (drop (length bearer) header) now app.auth ≡ inr user
      → extract_auth k b require header now app ≡ some (some user)
  unfolding extract_auth
  extract_auth-known require header now app user there good =
      rw there (ap (verified k b require) good)

  required :
      (header : Bytes) (now : ℕ) (app : App)
      → (extract_auth k b true header now app ≡ none)
        ⊎ ((user : User) × (extract_auth k b true header now app ≡ some (some user))
            × (verify k b (drop (length bearer) header) now app.auth ≡ inr user))
  unfolding extract_auth
  required header now app =
      elim (Bool-cases (not (has_prefix header bearer) || is_empty (drop (length bearer) header))) [
        | inl missing ↦ inl (rw missing refl)
        | inr there ↦ elim (verdict_cases (verify k b (drop (length bearer) header) now app.auth)) [
          | inl (e, bad) ↦ inl (rw there (ap (verified k b true) bad))
          | inr (u, good) ↦ inr (u, extract_auth-known true header now app u there good, good)
        ]
      ]

  may_write_inv {ℓ} :
      {S : Type ℓ} (req : Request) (user : User) (app : App) (state : S) (next : Response × S)
      → ((may_write k b req (some user) app state next).1 ≡ state)
        ⊎ ((validate_db_path req.path ≡ true)
            × (can_write app.rules req.path (auth_ctx (some user)) ≡ true))
  may_write_inv req user app state next = elim (Bool-cases (validate_db_path req.path)) [
    | inl valid ↦ elim (Bool-cases (can_write app.rules req.path (auth_ctx (some user)))) [
      | inl granted ↦ inr (valid, granted)
      | inr denied ↦ inl (rw (valid, denied) refl)
    ]
    | inr invalid ↦ inl (rw invalid refl)
  ]

  guarded {ℓ} :
      {S : Type ℓ} (req : Request) (now : ℕ) (app : App) (state : S) (next : Response × S)
      → ((app_auth_route k b
            (extract_auth k b true req.authorization now app)
            state
            (λ user. may_write k b req user app state next)).1
          ≡ state)
        ⊎ MayWrite req now app
  guarded {S = S} req now app state next =
      let route : Option (Option User) → Response × S =
        λ o. app_auth_route k b o state (λ user. may_write k b req user app state next) in
      elim (required req.authorization now app) [
        | inl nobody ↦ inl (ap (λ o. (route o).1) nobody)
        | inr (user, known, good) ↦ elim (may_write_inv req user app state next) [
          | inl kept ↦ inl (ap (λ o. (route o).1) known ∙ kept)
          | inr (valid, granted) ↦ inr (user, known, good, valid, granted)
        ]
      ]

  guarded_app :
      (req : Request) (now : ℕ) (g : Generator) (app : App) (r : Response × App)
      → (r.1 ≡ app) ⊎ MayWrite req now app
      → ((beside g r).1 ≡ (g, app)) ⊎ MayWrite req now app
  guarded_app req now g app r (inl kept) = inl (ap (λ a. (g, a)) kept)
  guarded_app req now g app r (inr may) = inr may

  -- A request to PUT, PATCH, POST or DELETE in the database of an app leaves the app and the
  -- generator of keys as they were, unless its token verifies, its path is valid and the rules let
  -- the user of the token write there.
  pub handle-MayWrite :
      (m : Method) (req : Request) (now : ℕ) (disk : Bool) (g : Generator) (app : App)
      → ((handle m req now disk g app).1 ≡ (g, app)) ⊎ MayWrite req now app
  unfolding handle handle_db_put handle_db_patch handle_db_push handle_db_delete
  handle-MayWrite put req now disk g app =
      guarded_app req now g app (handle_db_put k b req now disk app) (guarded req now app app _)
  handle-MayWrite patch req now disk g app =
      guarded_app req now g app (handle_db_patch k b req now disk app) (guarded req now app app _)
  handle-MayWrite (push_new milli random) req now disk g app = guarded req now app (g, app) _
  handle-MayWrite delete_all req now disk g app =
      guarded_app req now g app (handle_db_delete k b req now disk app) (guarded req now app app _)
