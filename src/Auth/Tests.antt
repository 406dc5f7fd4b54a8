-- ===== src/Auth/Tests.antt =====
-- Runs of the accounts.
use firego.Base.{ℕ, ◌≡◌, refl, true, false, some, [], ◌∷◌, Bytes, codes, lookup, inl, inr, arith}
use firego.Jwt.Token.{Claims, stamp, sign_claims, parse}
use firego.Jwt.Issued.{parse-sign_claims}
use firego.Jwt.Sample.{sample}
use firego.Auth.Email.{trim_space, to_lower, match_email}
use firego.Auth.Service.{
  Service, Draw, AuthError, token_ttl, new, issue_token, register, login, verify, logout, not_saved,
}
use firego.Auth.Accounts.{register-error}
use firego.Auth.Sessions.{login-register}
use firego.Auth.Revocation.{cleans, run, verify-run}
use firego.Auth.Loading.{login-new}
use firego.Auth.Sample.{plain, draw, secret, start, email, password, ann, registered, unsaved}

emails : match_email (codes "a.b+c@x-y.co.uk") ≡ true
unfolding match_email
emails = refl

register-error_example :
    (register sample plain email password draw 5000000000 false start).1 ≡ start
unfolding lookup
register-error_example =
    register-error sample plain email password draw 5000000000 false start not_saved refl unsaved

login-register_example :
    (token : Bytes) × (login sample plain
        (codes "ann@X.io ")
        password
        draw
        7000000000
        (register sample plain email password draw 5000000000 true start).1
      ≡ inr (ann.user, token))
    × (verify sample plain token 8000000000
          (register sample plain email password draw 5000000000 true start).1
        ≡ inr ann.user)
unfolding lookup trim_space to_lower
login-register_example =
    login-register sample plain email (codes "ann@X.io ") password draw draw 5000000000 7000000000
      8000000000 true start ann.user (issue_token sample plain ann draw 5000000000 secret) refl
      (omega arith, tt) (omega arith, tt) refl (omega arith) (omega arith) registered

login-new_example :
    (s : Service) × (new
        (register sample plain email password draw 5000000000 true start).1.file
        secret
      ≡ some s)
    × ((text' password' : Bytes) (draw' : Draw) (now' : ℕ)
        → login sample plain text' password' draw' now' s
          ≡ login sample plain text' password' draw' now'
              (register sample plain email password draw 5000000000 true start).1)
unfolding run
login-new_example =
    login-new sample plain [] secret email password draw 5000000000 true
      (ann.user, issue_token sample plain ann draw 5000000000 secret) registered

abbrev claims : Claims
claims = record {
  subject = codes "ab";
  email = codes "a@x";
  jwtid = codes "0f";
  issued_at = 0;
  expires_at = 0;
}

abbrev token : Bytes
token = sign_claims sample claims secret token_ttl 5000000000

accepted : parse sample token secret 6000000000 ≡ some (stamp claims token_ttl 5000000000)
accepted =
    parse-sign_claims sample claims secret token_ttl 5000000000 6000000000
      (omega arith, (omega arith, tt)) (omega arith, (omega arith, (omega arith, tt)))
      (omega arith, (omega arith, tt)) (omega arith) (omega arith)

verify-run_example :
    (e : AuthError) × (verify sample plain token 9000000000
        (run sample plain (cleans 8000000000 ∷ []) (logout sample plain token 6000000000 start).1)
      ≡ inl e)
verify-run_example =
    verify-run sample plain token 6000000000 9000000000 (cleans 8000000000 ∷ []) start
      (stamp claims token_ttl 5000000000) accepted refl (λ h. absurd (omega (arith, h)))
      (omega arith, tt)
