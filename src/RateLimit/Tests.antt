-- ===== src/RateLimit/Tests.antt =====
-- Runs of the limiter.
use Prim.Native.Nat.{min}
use firego.Base.{◌≡◌, refl, inl, List, [], ◌∷◌, Bytes, codes, lookup, arith}
use firego.Auth.Email.{trim_space}
use firego.RateLimit.ClientIp.{client_ip}
use firego.RateLimit.Addresses.{client_ip_lem}
use firego.RateLimit.Limiter.{Limiter, new_limiter}
use firego.RateLimit.Budget.{Step, request, clean, admitted, asked, admitted-window}

abbrev ip : Bytes
ip = codes "10.0.0.1"

abbrev two : Limiter
two = new_limiter 2 60

abbrev burst : List Step
burst = request ip 1 ∷ request (codes "10.0.0.2") 1 ∷ clean 30 ∷ request ip 40 ∷ request ip 60 ∷ []

admitted-window_example :
    admitted ip two (request ip 0 ∷ burst) ≡ min (asked ip (request ip 0 ∷ burst)) 2
unfolding lookup
admitted-window_example = admitted-window ip 0 burst two (inl refl) (omega arith) (omega arith)

client_ip_lem_example :
    (client_ip [] (codes "1.2.3.4:80") ≡ codes "1.2.3.4")
    × (client_ip [] (codes "[::1]:80") ≡ codes "::1")
    × (client_ip (codes " 9.9.9.9,1.1.1.1") (codes "x") ≡ trim_space (codes " 9.9.9.9"))
    × (client_ip (codes "9.9.9.9 ") (codes "x") ≡ trim_space (codes "9.9.9.9 "))
client_ip_lem_example =
    client_ip_lem b'1' b'9' (codes ".2.3.4") (codes "::1") (codes "80") (codes " 9.9.9.9")
      (codes ".9.9.9 ") (codes "1.1.1.1") (codes "x") (omega arith, omega arith, omega arith)
      (omega arith) (omega arith) (omega arith, omega arith, omega arith) (omega arith)
      (omega arith)
