-- ===== src/Rules/Spelling.antt =====
-- internal/rules/rules.go: texts that spell tokens, and `tokenize` reading them.
use firego.Base.{
  ℕ, ◌+◌, ◌≤◌, ◌≢◌, ◌∙◌, ◌≡◌, refl, ap, ◌⊎◌, true, false, List, [], ◌∷◌, ◌++◌, append_assoc, Bytes,
  codes, ◌==◌, ==_iff, Bool-cases, inl, inr, length, length-append, All, Lacks, arith, some,
}
use firego.Rules.Lexer.{
  Tok, eof, ident, dot, quoted, eq, neq, and, or, not_, lp, rp, is_letter, is_ident_start,
  is_ident_part, next_is, ident_run, quote_run, lex_step, emit, scan, tokenize,
}

-- A byte that a name may begin with, and one that it may go on with.
abbrev pub NameStart : ℕ → Type 0
NameStart c = (c ≡ b'$') ⊎ (c ≡ b'_') ⊎ (is_letter c ≡ true)

abbrev pub NamePart : ℕ → Type 0
NamePart c = NameStart c ⊎ ((b'0' ≤ c) × (c ≤ b'9'))

abbrev pub IsName : Bytes → Type 0
IsName [] = ⊥
IsName (c ∷ x) = NameStart c × All NamePart x

abbrev pub IsBlank : ℕ → Type 0
IsBlank c = (c ≡ b' ') ⊎ (c ≡ 9) ⊎ (c ≡ 13) ⊎ (c ≡ 10)

-- The spellings of a token: a quoted text stands in either quotes that it does not hold.
abbrev pub Spelled : Tok → Bytes → Type 0
Spelled eof w = ⊥
Spelled (ident x) w = IsName x × (w ≡ x)
Spelled dot w = w ≡ codes "."
Spelled (quoted s) w =
    (Lacks 34 s × (w ≡ 34 ∷ (s ++ 34 ∷ []))) ⊎ (Lacks 39 s × (w ≡ 39 ∷ (s ++ 39 ∷ [])))
Spelled (eq op) w = ((op ≡ codes "==") ⊎ (op ≡ codes "===")) × (w ≡ op)
Spelled (neq op) w = ((op ≡ codes "!=") ⊎ (op ≡ codes "!==")) × (w ≡ op)
Spelled and w = w ≡ codes "&&"
Spelled or w = w ≡ codes "||"
Spelled not_ w = w ≡ codes "!"
Spelled lp w = w ≡ codes "("
Spelled rp w = w ≡ codes ")"

abbrev EndsName : Bytes → Type 0
EndsName [] = Unit
EndsName (c ∷ s) = NamePart c → ⊥

abbrev EndsOp : Bytes → Type 0
EndsOp [] = Unit
EndsOp (c ∷ s) = c ≢ b'='

-- What may stand right behind a token: no byte that would go on with a name or an operator.
abbrev pub Fits : Tok → Bytes → Type 0
Fits (ident x) s = EndsName s
Fits (eq op) s = EndsOp s
Fits (neq op) s = EndsOp s
Fits not_ s = EndsOp s
Fits _ s = Unit

-- A text that spells tokens one behind the other, with any blanks between them, or none.
pub data Spells : List Tok → Bytes → Type 0 where
  nothing : Spells [] []
  blank : {ts : List Tok} (c : ℕ) (s : Bytes) → IsBlank c → Spells ts s → Spells ts (c ∷ s)
  word :
      {ts : List Tok} (t : Tok) (w s : Bytes)
      → Spelled t w
      → Fits t s
      → Spells ts s
      → Spells (t ∷ ts) (w ++ s)

NameStart-is_start : (c : ℕ) → NameStart c → is_ident_start c ≡ true
unfolding is_ident_start
NameStart-is_start c (inl e) = rw e
NameStart-is_start c (inr (inl e)) = rw e
NameStart-is_start c (inr (inr e)) = rw e (ground arith)

NamePart-is_part : (c : ℕ) → NamePart c → is_ident_part c ≡ true
unfolding is_ident_part
NamePart-is_part c (inl h) = rw (NameStart-is_start c h)
NamePart-is_part c (inr h) = ground arith

is_part-NamePart : (c : ℕ) → is_ident_part c ≡ true → NamePart c
unfolding is_ident_part is_ident_start
is_part-NamePart c h = elim (Bool-cases (c == b'$')) [
  | inl e ↦ inl (inl ((==_iff c b'$').0 e))
  | inr e ↦ elim (Bool-cases (c == b'_')) [
    | inl e' ↦ inl (inr (inl ((==_iff c b'_').0 e')))
    | inr e' ↦ elim (Bool-cases (is_letter c)) [
      | inl l ↦ inl (inr (inr l))
      | inr l ↦ inr (ground arith, ground arith)
    ]
  ]
]

ends_part : (c : ℕ) → (NamePart c → ⊥) → is_ident_part c ≡ false
ends_part c h = elim (Bool-cases (is_ident_part c)) [
  | inl e ↦ absurd (h (is_part-NamePart c e))
  | inr e ↦ e
]

pub not_part : (c : ℕ) → is_ident_part c ≡ false → NamePart c → ⊥
not_part c e h = cc (e, NamePart-is_part c h)

EndsOp-next : (s : Bytes) → EndsOp s → next_is b'=' s ≡ false
EndsOp-next [] h = refl
EndsOp-next (c ∷ s) h = ground arith

scan-drop : (p s : Bytes) → scan (length p) (p ++ s) ≡ scan 0 s
unfolding scan
scan-drop [] [] = refl
scan-drop [] (c ∷ s) = refl
scan-drop (c ∷ p) s = scan-drop p s

quote_run-append : (q : ℕ) (p s : Bytes) → Lacks q p → quote_run q (p ++ q ∷ s) ≡ p
unfolding quote_run
quote_run-append q [] s h = ground arith
quote_run-append q (c ∷ p) s h = ground (arith, quote_run-append q p s h.1)

ident_run_end : (s : Bytes) → EndsName s → ident_run s ≡ []
unfolding ident_run
ident_run_end [] h = refl
ident_run_end (c ∷ s) h = rw (ends_part c h)

ident_run-append : (p s : Bytes) → All NamePart p → EndsName s → ident_run (p ++ s) ≡ p
unfolding ident_run
ident_run-append [] s h e = ident_run_end s e
ident_run-append (c ∷ p) s h e = rw (NamePart-is_part c h.0, ident_run-append p s h.1 e)

not_start : (c k : ℕ) → is_ident_start c ≡ true → is_ident_start k ≡ false → (c == k) ≡ false
not_start c k h n = elim (Bool-cases (c == k)) [
  | inl e ↦ let same : c ≡ k = (==_iff c k).0 e in cc (same)
  | inr e ↦ e
]

lex_step_ident :
    (c : ℕ) (s : Bytes)
    → is_ident_start c ≡ true
    → lex_step c s ≡ (some (ident (c ∷ ident_run s)), length (ident_run s))
unfolding lex_step
lex_step_ident c s h = rw (
  not_start c 32 h refl,
  not_start c 9 h refl,
  not_start c 13 h refl,
  not_start c 10 h refl,
  not_start c 40 h refl,
  not_start c 41 h refl,
  not_start c 46 h refl,
  not_start c 33 h refl,
  not_start c 61 h refl,
  not_start c 38 h refl,
  not_start c 124 h refl,
  not_start c 34 h refl,
  not_start c 39 h refl,
  h,
)

scan_emit :
    (c : ℕ) (s : Bytes) (t : Tok) (n : ℕ)
    → lex_step c s ≡ (some t, n)
    → scan 0 (c ∷ s) ≡ t ∷ scan n s
unfolding scan
scan_emit c s t n e = ap (λ r. emit r.0 (scan r.1 s)) e

lex_step_double :
    (p s : Bytes) → Lacks 34 p → lex_step 34 (p ++ 34 ∷ s) ≡ (some (quoted p), length p + 1)
unfolding lex_step
lex_step_double p s h = rw (quote_run-append 34 p s h) (ground (arith, length-append p (34 ∷ s)))

lex_step_single :
    (p s : Bytes) → Lacks 39 p → lex_step 39 (p ++ 39 ∷ s) ≡ (some (quoted p), length p + 1)
unfolding lex_step
lex_step_single p s h = rw (quote_run-append 39 p s h) (ground (arith, length-append p (39 ∷ s)))

scan_past_quote : (k : ℕ) (q s : Bytes) → scan (length q + 1) (q ++ k ∷ s) ≡ scan 0 s
scan_past_quote k q s =
    let whole : length (q ++ k ∷ []) ≡ length q + 1 = omega (arith, length-append q (k ∷ [])) in
    rw (← whole, ← append_assoc q (k ∷ []) s) (scan-drop (q ++ k ∷ []) s)

scan_quote :
    (k : ℕ) (q s : Bytes)
    → lex_step k (q ++ k ∷ s) ≡ (some (quoted q), length q + 1)
    → scan 0 ((k ∷ (q ++ k ∷ [])) ++ s) ≡ quoted q ∷ scan 0 s
scan_quote k q s e =
    rw (append_assoc q (k ∷ []) s, scan_emit k (q ++ k ∷ s) _ _ e)
      (ap (λ ts. quoted q ∷ ts) (scan_past_quote k q s))

lex_step-ops :
    (s : Bytes)
    → EndsOp s
    → (lex_step b'=' (b'=' ∷ s) ≡ (some (eq (codes "==")), 1))
      × (lex_step b'!' (b'=' ∷ s) ≡ (some (neq (codes "!=")), 1))
      × (lex_step b'!' s ≡ (some not_, 0))
unfolding lex_step
lex_step-ops s h = let n = EndsOp-next s h in (rw n refl, rw n refl, rw n refl)

scan-word : (t : Tok) (w s : Bytes) → Spelled t w → Fits t s → scan 0 (w ++ s) ≡ t ∷ scan 0 s
scan-word eof w s h f = absurd h
scan-word (ident []) w s h f = absurd h.0
scan-word (ident (c ∷ x)) w s (name, e) f =
    rw
      (
        e,
        scan_emit c (x ++ s) _ _ (lex_step_ident c (x ++ s) (NameStart-is_start c name.0)),
        ident_run-append x s name.1 f,
      )
      (ap (λ ts. ident (c ∷ x) ∷ ts) (scan-drop x s))
scan-word (quoted q) w s (inl (h, e)) f = rw e (scan_quote 34 q s (lex_step_double q s h))
scan-word (quoted q) w s (inr (h, e)) f = rw e (scan_quote 39 q s (lex_step_single q s h))
scan-word (eq op) w s (inl o, e) f =
    rw (e, o) (scan_emit b'=' (b'=' ∷ s) _ _ (lex_step-ops s f).0 ∙ unfold scan in refl)
scan-word (eq op) w s (inr o, e) f = rw (e, o) (unfold scan in refl)
scan-word (neq op) w s (inl o, e) f =
    rw (e, o) (scan_emit b'!' (b'=' ∷ s) _ _ (lex_step-ops s f).1 ∙ unfold scan in refl)
scan-word (neq op) w s (inr o, e) f = rw (e, o) (unfold scan in refl)
scan-word dot w s e f = rw e (unfold scan in refl)
scan-word and w s e f = rw e (unfold scan in refl)
scan-word or w s e f = rw e (unfold scan in refl)
scan-word not_ w s e f = rw e (scan_emit b'!' s _ _ (lex_step-ops s f).2)
scan-word lp w s e f = rw e (unfold scan in refl)
scan-word rp w s e f = rw e (unfold scan in refl)

scan_blank : (c : ℕ) (s : Bytes) → IsBlank c → scan 0 (c ∷ s) ≡ scan 0 s
unfolding scan
scan_blank c s (inl e) = rw e
scan_blank c s (inr (inl e)) = rw e
scan_blank c s (inr (inr (inl e))) = rw e
scan_blank c s (inr (inr (inr e))) = rw e

-- A text that spells tokens is read as these, with the end mark behind them.
pub tokenize-Spells : {ts : List Tok} {s : Bytes} → Spells ts s → tokenize s ≡ ts ++ eof ∷ []
unfolding tokenize scan
tokenize-Spells nothing = refl
tokenize-Spells (blank c s b h) = scan_blank c s b ∙ tokenize-Spells h
tokenize-Spells (word t w s spelled fits h) =
    scan-word t w s spelled fits ∙ ap (λ ts. t ∷ ts) (tokenize-Spells h)
