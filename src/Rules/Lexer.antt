-- ===== src/Rules/Lexer.antt =====
-- internal/rules/rules.go: `tok` and `tokenize`.
use firego.Base.{
  ℕ, zero, suc, ◌+◌, Bool, false, ◌&&◌, ◌||◌, Option, none, some, List, [], ◌∷◌, Bytes, codes, ◌==◌,
  ltb, in_range, if◌then◌else◌, length,
}

-- `tok` with its `tokKind`: one constructor for each kind. A kind whose `val` is always the empty
-- string has no field.
pub data Tok : Type 0 where
  eof : Tok
  ident : Bytes → Tok
  dot : Tok
  quoted : Bytes → Tok
  eq : Bytes → Tok
  neq : Bytes → Tok
  and : Tok
  or : Tok
  not_ : Tok
  lp : Tok
  rp : Tok

abbrev pub is_space : ℕ → Bool
is_space c = c == b' ' || c == 9 || c == 13 || c == 10

-- unicode.IsLetter(rune(c)) of one byte: the letters of Latin-1.
unfoldable pub is_letter : ℕ → Bool
is_letter c =
    in_range b'a' b'z' c
    || in_range b'A' b'Z' c
    || c == 0xAA
    || c == 0xB5
    || c == 0xBA
    || in_range 0xC0 0xD6 c
    || in_range 0xD8 0xF6 c
    || in_range 0xF8 0xFF c

-- The first byte of an identifier, and the bytes after it.
unfoldable pub is_ident_start : ℕ → Bool
unfolding is_letter
is_ident_start c = c == b'$' || c == b'_' || is_letter c

unfoldable pub is_ident_part : ℕ → Bool
unfolding is_ident_start
is_ident_part c = is_ident_start c || in_range b'0' b'9' c

-- The run that the loop of an identifier passes over: s[i:j].
unfoldable pub ident_run : Bytes → Bytes
unfolding is_ident_part
ident_run [] = []
ident_run (c ∷ s) = let r = ident_run s in if is_ident_part c then c ∷ r else []

-- The bytes before the closing quote `q`: s[i:j].
unfoldable pub quote_run : ℕ → Bytes → Bytes
quote_run q [] = []
quote_run q (c ∷ s) = let r = quote_run q s in if c == q then [] else c ∷ r

-- s[i + n] is there and is `c`, for `s[i:]` the rest of the text.
abbrev pub next_is : ℕ → Bytes → Bool
next_is c [] = false
next_is c (d ∷ s) = d == c

abbrev pub second_is : ℕ → Bytes → Bool
second_is c [] = false
second_is c (d ∷ s) = next_is c s

-- One round of the loop at the byte `c`, with `s` the text behind it: the token, if there is one,
-- and the number of bytes behind `c` that the round also consumes.
unfoldable pub lex_step : ℕ → Bytes → Option Tok × ℕ
unfolding ident_run quote_run is_ident_part
lex_step c s =
    if is_space c
    then (none, 0)
    else if c == b'('
    then (some lp, 0)
    else if c == b')'
    then (some rp, 0)
    else if c == b'.'
    then (some dot, 0)
    else if c == b'!' && next_is b'=' s
    then (if second_is b'=' s then (some (neq (codes "!==")), 2) else (some (neq (codes "!=")), 1))
    else if c == b'!'
    then (some not_, 0)
    else if c == b'=' && next_is b'=' s
    then (if second_is b'=' s then (some (eq (codes "===")), 2) else (some (eq (codes "==")), 1))
    else if c == b'&' && next_is b'&' s
    then (some and, 1)
    else if c == b'|' && next_is b'|' s
    then (some or, 1)
    else if c == 34 || c == 39
    then (let q = quote_run c s in
        (some (quoted q), if ltb (length q) (length s) then length q + 1 else length q))
    else if is_ident_start c
    then (let r = ident_run s in (some (ident (c ∷ r)), length r))
    else (none, 0)

abbrev pub emit : Option Tok → List Tok → List Tok
emit none ts = ts
emit (some t) ts = t ∷ ts

-- The loop. Its first argument counts the bytes that the last round has already consumed.
unfoldable pub scan : ℕ → Bytes → List Tok
unfolding lex_step
scan n [] = eof ∷ []
scan (suc n) (c ∷ s) = scan n s
scan zero (c ∷ s) = let (t, n) = lex_step c s in emit t (scan n s)

unfoldable pub tokenize : Bytes → List Tok
unfolding scan
tokenize s = scan 0 s
