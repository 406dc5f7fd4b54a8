-- ===== src/RateLimit/Limiter.antt =====
-- internal/ratelimit/ratelimit.go: `Limiter`, `Allow` and the round of `cleanup`. A time is the
-- number of nanoseconds since a fixed moment, which `time.Now` gives as an argument.
use firego.Base.{
  ℕ, ◌+◌, Bool, true, false, none, some, [], ◌∷◌, Bytes, Dict, lookup, insert, ltb, leb,
  if◌then◌else◌,
}

pub record Window : Type 0 where
  pub count : ℕ
  pub reset : ℕ

pub record Limiter : Type 0 where
  pub windows : Dict Window
  pub limit : ℕ
  pub dur : ℕ

-- `New`
abbrev pub new_limiter : ℕ → ℕ → Limiter
new_limiter limit dur = record { windows = []; limit = limit; dur = dur }

-- `now.After(reset)`
abbrev pub after : ℕ → ℕ → Bool
after now reset = ltb reset now

abbrev pub open_window : Bytes → ℕ → Limiter → Bool × Limiter
open_window key now l =
    (true, record l { windows = insert key (record { count = 1; reset = now + l.dur }) l.windows })

abbrev pub in_window : Bytes → ℕ → Limiter → Window → Bool × Limiter
in_window key now l w =
    if after now w.reset
    then open_window key now l
    else if leb l.limit w.count
    then (false, l)
    else (true, record l { windows = insert key (record w { count = w.count + 1 }) l.windows })

-- `Allow`
unfoldable pub allow : Bytes → ℕ → Limiter → Bool × Limiter
allow key now l = elim (lookup key l.windows) [
  | none ↦ open_window key now l
  | some w ↦ in_window key now l w
]

-- `for k, w := range l.windows { if now.After(w.reset) { delete(l.windows, k) } }`
unfoldable pub expire : ℕ → Dict Window → Dict Window
expire now [] = []
expire now ((k, w) ∷ m) =
    let rest = expire now m in if after now w.reset then rest else (k, w) ∷ rest

-- One round of the loop of `cleanup`.
unfoldable pub cleanup : ℕ → Limiter → Limiter
unfolding expire
cleanup now l = record l { windows = expire now l.windows }
