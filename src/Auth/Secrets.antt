-- ===== src/Auth/Secrets.antt =====
-- internal/auth/auth.go: no operation changes the secret of a service.
use firego.Base.{
  ℕ, ◌≡◌, refl, sym, subst, Bool, true, false, Bool-cases, Option, none, some, Bytes, is_empty, inl,
  inr,
}
use firego.Jwt.Token.{Claims, Codec, parse}
use firego.Auth.Email.{trim_space}
use firego.Auth.Service.{
  StoredUser, Service, Bcrypt, Draw, new_user, store_user, register, logout_claims, logout,
}
use firego.Auth.Accounts.{register-Ending}

module _ (k : Codec) (b : Bcrypt) where
  secret-store_user :
      (u : StoredUser) (key : Bytes) (draw : Draw) (now : ℕ) (disk : Bool) (s : Service)
      → (store_user k b u key draw now disk s).1.secret ≡ s.secret
  secret-store_user u key draw now true s = refl
  secret-store_user u key draw now false s = refl

  pub secret-register :
      (text password : Bytes) (draw : Draw) (now : ℕ) (disk : Bool) (s : Service)
      → (register k b text password draw now disk s).1.secret ≡ s.secret
  secret-register text password draw now disk s =
      elim (register-Ending k b text password draw now disk s) [
        | inl (e, stays) ↦ subst (λ r. r.1.secret ≡ s.secret) (sym stays) refl
        | inr (hash, _, _, free, ends) ↦
            subst (λ r. r.1.secret ≡ s.secret) (sym ends)
              (secret-store_user (new_user k b (trim_space text) hash draw now) _ draw now disk s)
      ]

  secret-logout_claims :
      (o : Option Claims) (s : Service) → (logout_claims k b o s).1.secret ≡ s.secret
  secret-logout_claims none s = refl
  secret-logout_claims (some c) s = elim (Bool-cases (is_empty c.jwtid)) [
    | inl no_id ↦ rw no_id refl
    | inr id ↦ rw id refl
  ]

  pub secret-logout :
      (token : Bytes) (now : ℕ) (s : Service) → (logout k b token now s).1.secret ≡ s.secret
  unfolding logout
  secret-logout token now s = secret-logout_claims (parse k token s.secret now) s
