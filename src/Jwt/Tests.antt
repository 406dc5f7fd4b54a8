-- ===== src/Jwt/Tests.antt =====
-- Runs of the tokens.
use firego.Base.{◌≡◌, ◌↔◌, some, Bytes, codes, arith}
use firego.Jwt.Token.{Claims, stamp, sign_claims, parse}
use firego.Jwt.Signed.{Signs, parse_iff}
use firego.Jwt.Issued.{parse-sign_claims}
use firego.Jwt.Sample.{sample}

abbrev alice : Claims
alice = record {
  subject = codes "ab12";
  email = codes "a@x.io";
  jwtid = codes "f0";
  issued_at = 0;
  expires_at = 0;
}

-- Signed at second 5 for 10 seconds, read at second 15.
parse-sign_claims_example :
    parse sample
      (sign_claims sample alice (codes "key") 10000000000 5000000000)
      (codes "key")
      15000000000
    ≡ some (stamp alice 10000000000 5000000000)
parse-sign_claims_example =
    parse-sign_claims sample alice (codes "key") 10000000000 5000000000 15000000000
      (omega arith, (omega arith, (omega arith, (omega arith, tt))))
      (omega arith, (omega arith, (omega arith, (omega arith, (omega arith, (omega arith, tt))))))
      (omega arith, (omega arith, tt)) (omega arith) (omega arith)

parse_iff_example :
    (parse sample (codes "a.b.c") (codes "key") 0 ≡ some alice)
    ↔ ((p : Bytes) × (q : Bytes) × Signs sample (codes "key") 0 alice p q (codes "a.b.c"))
parse_iff_example = parse_iff sample (codes "key") (codes "a.b.c") 0 alice
