-- ===== src/PanicLog/Patterns.antt =====
-- tools/panic-parse.py: the methods of Python's strings that it calls, and its two regular
-- expressions, on ASCII text. A line holds no newline, so `.` stands for any character of it.
use ajulius.Prelude.{
  ℕ, ◌+◌, ◌==◌, ltb, if◌then◌else◌, Bool, true, false, ◌&&◌, ◌||◌, not, Option, some, none, List,
  [], ◌∷◌, ◌++◌, length, codes,
}

abbrev pub Text : Type 0
Text = List ℕ

unfoldable pub is_between : ℕ → ℕ → ℕ → Bool
is_between lo hi c = not (ltb c lo) && not (ltb hi c)

-- What `strip` removes, and `\s` matches.
unfoldable pub is_space : ℕ → Bool
unfolding is_between
is_space c = is_between 9 13 c || is_between 28 32 c

-- [0-9a-fA-F]
unfoldable pub is_hex : ℕ → Bool
unfolding is_between
is_hex c = is_between b'0' b'9' c || is_between b'a' b'f' c || is_between b'A' b'F' c

-- [a-zA-Z0-9._-]
unfoldable pub is_bundle : ℕ → Bool
unfolding is_between
is_bundle c =
    is_between b'a' b'z' c
    || is_between b'A' b'Z' c
    || is_between b'0' b'9' c
    || c == b'.'
    || c == b'_'
    || c == b'-'

unfoldable pub lower : Text → Text
unfolding is_between
lower [] = []
lower (c ∷ s) = (if is_between b'A' b'Z' c then c + 32 else c) ∷ lower s

unfoldable pub starts_with : Text → Text → Bool
starts_with [] s = true
starts_with (p ∷ ps) [] = false
starts_with (p ∷ ps) (c ∷ s) = p == c && starts_with ps s

-- `p in s`
unfoldable pub contains : Text → Text → Bool
contains p [] = starts_with p []
contains p (c ∷ s) = starts_with p (c ∷ s) || contains p s

unfoldable pub lstrip : Text → Text
lstrip [] = []
lstrip (c ∷ s) = if is_space c then lstrip s else c ∷ s

-- A character before a text whose trailing spaces are gone.
unfoldable pub before_stripped : ℕ → Text → Text
before_stripped c [] = if is_space c then [] else c ∷ []
before_stripped c (d ∷ s) = c ∷ d ∷ s

unfoldable pub rstrip : Text → Text
rstrip [] = []
rstrip (c ∷ s) = before_stripped c (rstrip s)

unfoldable pub strip : Text → Text
strip s = rstrip (lstrip s)

-- The longest prefix of such characters, and what is behind it.
unfoldable pub run : (ℕ → Bool) → Text → Text
run p [] = []
run p (c ∷ s) = if p c then c ∷ run p s else []

unfoldable pub rest : (ℕ → Bool) → Text → Text
rest p [] = []
rest p (c ∷ s) = if p c then rest p s else c ∷ s

-- What is behind a literal, if the text starts with it.
unfoldable pub behind : Text → Text → Option Text
behind [] s = some s
behind (p ∷ ps) [] = none
behind (p ∷ ps) (c ∷ s) = if p == c then behind ps s else none

infixl 5 ◌>>=◌
abbrev pub ◌>>=◌ : {A B : Type 0} → Option A → (A → Option B) → Option B
none >>= f = none
some a >>= f = f a

abbrev pub when {ℓ} : {A : Type ℓ} → Bool → Option A → Option A
when b o = if b then o else none

abbrev pub is_empty {ℓ} : {A : Type ℓ} → List A → Bool
is_empty [] = true
is_empty (x ∷ xs) = false

unfoldable pub are_digits : Option Text → Bool
are_digits none = false
are_digits (some digits) = not (is_empty digits) && is_empty (rest is_hex digits)

-- \+0x[0-9a-fA-F]+$
unfoldable pub is_offset : Text → Bool
is_offset s = are_digits (behind (codes "+0x") s)

-- .+?(?:\+0x[0-9a-fA-F]+)?$ from its second character on: up to an offset that ends the line.
unfoldable pub before_offset : Text → Text
before_offset [] = []
before_offset (c ∷ s) = if is_offset (c ∷ s) then [] else c ∷ before_offset s

unfoldable pub symbol : Text → Option Text
symbol [] = none
symbol (c ∷ s) = some (c ∷ before_offset s)

-- BACKTRACE_RE.match(s), for `s` with no space at its end: the groups 1 and 2. Between its digits,
-- its spaces and the colon the expression has no choice, since these share no character.
unfoldable pub match_frame : Text → Option (Text × Text)
match_frame s = do
  t ← behind (codes "0x") s
  let digits = run is_hex t
  u ← when (is_between 8 16 (length digits)) (behind (codes ":") (lstrip (rest is_hex t)))
  sym ← symbol (lstrip u)
  some (codes "0x" ++ digits, sym)

-- \s+
unfoldable pub spaces : Text → Option Text
spaces [] = none
spaces (c ∷ s) = when (is_space c) (some (lstrip s))

-- KEXT_RE at one place.
unfoldable pub kext_at : Text → Option (Text × Text)
kext_at s = do
  t ← behind (codes "com.") s
  let name = run is_bundle t
  u ← when (not (is_empty name)) (spaces (rest is_bundle t))
  v ← behind (codes "@") u
  w ← spaces v
  x ← behind (codes "0x") w
  let digits = run is_hex x
  when (not (is_empty digits)) (some (codes "com." ++ name, codes "0x" ++ digits))

-- KEXT_RE.search(s)
unfoldable pub search_kext : Text → Option (Text × Text)
search_kext [] = none
search_kext (c ∷ s) = elim (kext_at (c ∷ s)) [ none ↦ search_kext s | some k ↦ some k ]
