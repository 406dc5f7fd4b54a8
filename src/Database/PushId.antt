-- ===== src/Database/PushId.antt =====
-- internal/database/database.go: `generatePushID`. The time and the twelve random bytes, each
-- below 64, that it reads come as arguments.
use firego.Base.{
  ℕ, zero, suc, ◌/◌, ◌%◌, Bool, true, false, Option, none, some, List, [], ◌∷◌, ◌++◌, map, Bytes,
  codes, ◌==◌, if◌then◌else◌, get_elem?,
}

-- The alphabet, in the order of its bytes.
abbrev pub push_chars : Bytes
push_chars = codes "-0123456789ABCDEFGHIJKLMNOPQRSTUVWXYZ_abcdefghijklmnopqrstuvwxyz"

abbrev pub or_zero : Option ℕ → ℕ
or_zero none = 0
or_zero (some c) = c

unfoldable pub push_char : ℕ → ℕ
push_char d = or_zero (get_elem? push_chars d)

-- `lastPushTime` and `lastRand`
pub record Generator : Type 0 where
  pub last_time : ℕ
  pub last_rand : List ℕ

-- `for i := 7; i >= 0; i-- { id[i] = pushChars[now%64]; now /= 64 }`, with the bytes written so far.
unfoldable pub time_loop : ℕ → ℕ → Bytes → Bytes
time_loop zero now id = id
time_loop (suc i) now id = time_loop i (now / 64) (push_char (now % 64) ∷ id)

-- The increment of the random suffix, from its last digit on, and whether it runs over.
unfoldable pub increment : List ℕ → List ℕ × Bool
increment [] = ([], true)
increment (d ∷ ds) =
    let (rest, carry) = increment ds in
    if carry
    then (if d == 63 then (0 ∷ rest, true) else (suc d ∷ rest, false))
    else (d ∷ rest, false)

-- `b[i] % 64` for each random byte
abbrev pub digits_of : List ℕ → List ℕ
digits_of = map (λ b. b % 64)

unfoldable pub generate_push_id : ℕ → List ℕ → Generator → Bytes × Generator
unfolding time_loop increment push_char
generate_push_id now random g =
    let rand = if now == g.last_time then (increment g.last_rand).0 else digits_of random in
    (time_loop 8 now [] ++ map push_char rand, record { last_time = now; last_rand = rand })
