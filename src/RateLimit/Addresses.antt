-- ===== src/RateLimit/Addresses.antt =====
-- internal/ratelimit/ratelimit.go: the address that `ClientIP` finds.
use firego.Base.{ℕ, ◌≡◌, refl, ap, false, ◌||◌, some, [], ◌∷◌, ◌++◌, Bytes, Lacks, arith}
use firego.Auth.Email.{trim_space}
use firego.RateLimit.ClientIp.{
  has_byte, before, from, before_last, split_host_port, host_or_all, client_ip,
}

has_byte-Lacks : (b : ℕ) (s : Bytes) → Lacks b s → has_byte b s ≡ false
unfolding has_byte
has_byte-Lacks b [] h = refl
has_byte-Lacks b (c ∷ s) h = ground (arith, has_byte-Lacks b s h.1)

has_byte-append : (b : ℕ) (s t : Bytes) → has_byte b (s ++ t) ≡ (has_byte b s || has_byte b t)
unfolding has_byte
has_byte-append b [] t = ground arith
has_byte-append b (c ∷ s) t = ground (arith, has_byte-append b s t)

before-append : (b : ℕ) (s t : Bytes) → Lacks b s → before b (s ++ b ∷ t) ≡ s
unfolding before
before-append b [] t h = ground arith
before-append b (c ∷ s) t h = ground (arith, before-append b s t h.1)

before-Lacks : (b : ℕ) (s : Bytes) → Lacks b s → before b s ≡ s
unfolding before
before-Lacks b [] h = refl
before-Lacks b (c ∷ s) h = ground (arith, before-Lacks b s h.1)

from-append : (b : ℕ) (s t : Bytes) → Lacks b s → from b (s ++ b ∷ t) ≡ b ∷ t
unfolding from
from-append b [] t h = ground arith
from-append b (c ∷ s) t h = ground (arith, from-append b s t h.1)

before_last-append : (b : ℕ) (s t : Bytes) → Lacks b t → before_last b (s ++ b ∷ t) ≡ s
unfolding before_last has_byte
before_last-append b [] t h = rw (has_byte-Lacks b t h) refl
before_last-append b (c ∷ s) t h =
    ground (arith, before_last-append b s t h, has_byte-append b s (b ∷ t))

-- A text with no colon and no bracket.
abbrev pub IsBare : Bytes → Type 0
IsBare s = Lacks b':' s × Lacks b'[' s × Lacks b']' s

split-plain :
    (c : ℕ) (s port : Bytes)
    → IsBare (c ∷ s)
    → IsBare port
    → split_host_port (c ∷ s ++ b':' ∷ port) ≡ some (c ∷ s)
unfolding split_host_port has_byte
split-plain c s port h hp = ground (
  arith,
  before_last-append b':' (c ∷ s) port hp.0,
  has_byte-Lacks b':' s h.0.1,
  has_byte-append b':' s (b':' ∷ port),
  has_byte-append b'[' s (b':' ∷ port),
  has_byte-append b']' s (b':' ∷ port),
  has_byte-Lacks b'[' s h.1.1,
  has_byte-Lacks b']' s h.2.1,
  has_byte-Lacks b'[' port hp.1,
  has_byte-Lacks b']' port hp.2,
)

split-bracketed :
    (host port : Bytes)
    → Lacks b'[' host
    → Lacks b']' host
    → IsBare port
    → split_host_port (b'[' ∷ host ++ b']' ∷ b':' ∷ port) ≡ some host
unfolding split_host_port has_byte
split-bracketed host port h h' hp = ground (
  arith,
  from-append b']' host (b':' ∷ port) h',
  before-append b']' host (b':' ∷ port) h',
  has_byte-append b'[' host (b']' ∷ b':' ∷ port),
  has_byte-Lacks b'[' host h,
  has_byte-Lacks b':' port hp.0,
  has_byte-Lacks b'[' port hp.1,
  has_byte-Lacks b']' port hp.2,
)

-- `ClientIP` is the host of an address that joins a host and a port, with brackets around the host
-- or without, where there is no X-Forwarded-For header; and otherwise what stands in the header
-- before its first comma, or all of it if it has none, without the blanks around it.
pub client_ip_lem :
    (c d : ℕ) (s host port first single rest addr : Bytes)
    → IsBare (c ∷ s)
    → Lacks b'[' host
    → Lacks b']' host
    → IsBare port
    → Lacks b',' first
    → Lacks b',' (d ∷ single)
    → (client_ip [] (c ∷ s ++ b':' ∷ port) ≡ c ∷ s)
      × (client_ip [] (b'[' ∷ host ++ b']' ∷ b':' ∷ port) ≡ host)
      × (client_ip (first ++ b',' ∷ rest) addr ≡ trim_space first)
      × (client_ip (d ∷ single) addr ≡ trim_space (d ∷ single))
unfolding client_ip
client_ip_lem c d s host port first single rest addr bare h h' hp comma comma' = (
  ap (host_or_all (c ∷ s ++ b':' ∷ port)) (split-plain c s port bare hp),
  ap (host_or_all (b'[' ∷ host ++ b']' ∷ b':' ∷ port)) (split-bracketed host port h h' hp),
  forwarded first rest addr comma,
  ap trim_space (before-Lacks b',' (d ∷ single) comma'),
)
  where
    forwarded :
        (first rest addr : Bytes)
        → Lacks b',' first
        → client_ip (first ++ b',' ∷ rest) addr ≡ trim_space first
    forwarded [] rest addr comma = ap trim_space (before-append b',' [] rest comma)
    forwarded (x ∷ first) rest addr comma =
        ap trim_space (before-append b',' (x ∷ first) rest comma)
