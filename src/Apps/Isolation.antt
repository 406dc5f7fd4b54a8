-- ===== src/Apps/Isolation.antt =====
-- internal/apps/manager.go: the tokens of one app at another.
use firego.Base.{ℕ, ◌≡◌, ◌≢◌, sym, ap, ◌∙◌, Bool, some, List, Bytes, Dict, All-lookup, inl}
use firego.Jwt.Token.{Codec, signing_input}
use firego.Jwt.Secrets.{parse-other}
use firego.Auth.Service.{
  StoredUser, Service, Bcrypt, Draw, invalid_token, token_ttl, claims_for, issue_token,
  verify_claims, verify,
}
use firego.Apps.Manager.{App, AppFiles, Manager, no_registry, get_app, app_secret, new}
use firego.Apps.Running.{Step, run, IsApp, Sound}
use firego.Apps.Histories.{run-Sound}
use firego.Apps.Registry.{new-Sound}

module _ (k : Codec) (b : Bcrypt) where
  verify-other :
      (u : StoredUser) (draw : Draw) (secret : Bytes) (now later : ℕ) (s : Service)
      → k.mac secret (signing_input k (claims_for u draw) token_ttl now)
        ≢ k.mac s.secret (signing_input k (claims_for u draw) token_ttl now)
      → verify k b (issue_token k b u draw now secret) later s ≡ inl invalid_token
  unfolding verify issue_token
  verify-other u draw secret now later s differ =
      ap (λ o. verify_claims k b o s)
        (parse-other k (claims_for u draw) secret s.secret token_ttl now later differ)

  secret-get_app :
      (m : Manager) (master id : Bytes) (a : App)
      → Sound k master m
      → get_app id m ≡ some a
      → a.auth.secret ≡ app_secret k master id
  unfolding get_app
  secret-get_app m master id a sound h = (All-lookup (IsApp k master) id a m.apps sound.each h).2

  -- In any history of a manager that began without a registry, a token that one running app issues
  -- is refused as invalid by each running app whose code of the signed text, under the secret that
  -- the manager derives for its id, is another.
  pub verify-run_other :
      (dirs : Dict AppFiles) (master : Bytes) (key_bytes : List ℕ) (began : ℕ) (made : Bytes → Bool)
      (disk : Bool) (start : Manager) (xs : List Step) (id at : Bytes) (a other : App)
      (u : StoredUser) (draw : Draw) (now later : ℕ)
      → new k no_registry dirs master key_bytes began made disk ≡ some start
      → get_app id (run k xs start) ≡ some a
      → get_app at (run k xs start) ≡ some other
      → k.mac (app_secret k master id) (signing_input k (claims_for u draw) token_ttl now)
        ≢ k.mac (app_secret k master at) (signing_input k (claims_for u draw) token_ttl now)
      → verify k b (issue_token k b u draw now a.auth.secret) later other.auth ≡ inl invalid_token
  verify-run_other dirs master key_bytes began made disk start xs id at a other u draw now later
        begins here there differ =
      let sound =
        run-Sound k xs start master
          (new-Sound k dirs master key_bytes began made disk start begins).0 in
      let text = signing_input k (claims_for u draw) token_ttl now in
      let mine = secret-get_app (run k xs start) master id a sound here in
      let its = secret-get_app (run k xs start) master at other sound there in
      verify-other u draw a.auth.secret now later other.auth
        (λ agree. differ (ap (λ s. k.mac s text) (sym mine) ∙ agree ∙ ap (λ s. k.mac s text) its))
