-- ===== src/RateLimit/ClientIp.antt =====
-- internal/ratelimit/ratelimit.go: `ClientIP`, with net.SplitHostPort. A header that is missing is
-- the empty text.
use firego.Base.{
  ℕ, Bool, false, not, ◌&&◌, ◌||◌, Option, none, some, [], ◌∷◌, Bytes, is_empty, ◌==◌,
  if◌then◌else◌,
}
use firego.Auth.Email.{trim_space}

-- strings.IndexByte(s, b) >= 0
unfoldable pub has_byte : ℕ → Bytes → Bool
has_byte b [] = false
has_byte b (c ∷ s) = let rest = has_byte b s in c == b || rest

-- s[:strings.IndexByte(s, b)], or all of it: also strings.SplitN with its byte as the separator.
unfoldable pub before : ℕ → Bytes → Bytes
before b [] = []
before b (c ∷ s) = let rest = before b s in if c == b then [] else c ∷ rest

-- What stands from the first such byte on.
unfoldable pub from : ℕ → Bytes → Bytes
from b [] = []
from b (c ∷ s) = let rest = from b s in if c == b then c ∷ s else rest

-- What stands before the last such byte.
unfoldable pub before_last : ℕ → Bytes → Bytes
unfolding has_byte
before_last b [] = []
before_last b (c ∷ s) = let rest = before_last b s in if has_byte b s then c ∷ rest else []

-- "]:port", where the colon is the last one.
abbrev pub is_port_end : Bytes → Bool
is_port_end (d ∷ c ∷ port) = c == b':' && not (has_byte b':' port) && not (has_byte b']' (c ∷ port))
is_port_end _ = false

-- "[host]:port", behind its first byte.
abbrev pub bracketed_host : Bytes → Option Bytes
bracketed_host s =
    if is_port_end (from b']' s) && not (has_byte b'[' s) then some (before b']' s) else none

abbrev pub plain_host : Bytes → Option Bytes
plain_host s =
    let host = before_last b':' s in
    if not (has_byte b':' s) || has_byte b':' host || has_byte b'[' s || has_byte b']' s
    then none
    else some host

-- net.SplitHostPort, as far as the host: `none` is an error.
unfoldable pub split_host_port : Bytes → Option Bytes
unfolding has_byte before from before_last
split_host_port [] = none
split_host_port (c ∷ s) = if c == b'[' then bracketed_host s else plain_host (c ∷ s)

abbrev pub host_or_all : Bytes → Option Bytes → Bytes
host_or_all addr none = addr
host_or_all addr (some host) = host

-- `ClientIP`, of the X-Forwarded-For header and the remote address.
unfoldable pub client_ip : Bytes → Bytes → Bytes
unfolding split_host_port before trim_space
client_ip forwarded addr =
    if not (is_empty forwarded)
    then trim_space (before b',' forwarded)
    else host_or_all addr (split_host_port addr)
