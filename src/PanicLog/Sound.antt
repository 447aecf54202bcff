-- ===== src/PanicLog/Sound.antt =====
-- What the two expressions and the table of panics find.
use ajulius.Prelude.{
  ℕ, ◌≤◌, ◌≡◌, refl, ◌⊎◌, inl, inr, Bool, true, false, not, Bool-cases, String, codes, Option, some,
  none, List, [], ◌∷◌, ◌++◌, All, length, arith,
}
use ajulius.PanicLog.Patterns.{
  Text, is_between, is_hex, is_bundle, is_empty, run, rest, behind, lower, contains, lstrip, strip,
  symbol, match_frame, spaces, kext_at, search_kext, when, ◌>>=◌,
}
use ajulius.PanicLog.{known_panics, find_in, frame_of}

-- The result has the property, if there is one.
pub data Yields {A : Type 0} (P : A → Type 0) : Option A → Type 0 where
  nothing : Yields P none
  just : {a : A} → P a → Yields P (some a)

pub any-Yields : {A : Type 0} (o : Option A) → Yields (λ _. Unit {0}) o
any-Yields none = nothing
any-Yields (some a) = just tt

pub bind-Yields :
    {A B : Type 0} {P : A → Type 0} {Q : B → Type 0} {o : Option A} {f : A → Option B}
    → Yields P o
    → ((a : A) → P a → Yields Q (f a))
    → Yields Q (o >>= f)
bind-Yields nothing next = nothing
bind-Yields (just p) next = next _ p

pub mono-Yields :
    {A : Type 0} {P Q : A → Type 0} {o : Option A} → Yields P o → ((a : A) → P a → Q a) → Yields Q o
mono-Yields nothing f = nothing
mono-Yields (just p) f = just (f _ p)

when-Yields :
    {A : Type 0} {P : A → Type 0} (b : Bool) (o : Option A)
    → (b ≡ true → Yields P o)
    → Yields P (when b o)
when-Yields true o h = h refl
when-Yields false o h = nothing

test-Yields : {A : Type 0} (b : Bool) (o : Option A) → Yields (λ _. b ≡ true) (when b o)
test-Yields true none = nothing
test-Yields true (some a) = just refl
test-Yields false o = nothing

run-All : (p : ℕ → Bool) (s : Text) → All (λ c. p c ≡ true) (run p s)
unfolding run
run-All p [] = tt
run-All p (c ∷ s) = elim (Bool-cases (p c)) [ inl e ↦ rw e (e, run-All p s) | inr e ↦ rw e tt ]

-- An address of 8 to 16 digits.
abbrev pub IsAddress : Text → Type 0
IsAddress a =
    (digits : Text) × (a ≡ codes "0x" ++ digits)
    × All (λ c. is_hex c ≡ true) digits
    × (8 ≤ length digits)
    × (length digits ≤ 16)

-- The name of a bundle, and a number.
abbrev pub IsKext : Text × Text → Type 0
IsKext (name, base) =
    (letters : Text) × (digits : Text) × (name ≡ codes "com." ++ letters)
    × (base ≡ codes "0x" ++ digits)
    × All (λ c. is_bundle c ≡ true) letters
    × All (λ c. is_hex c ≡ true) digits
    × (is_empty letters ≡ false)
    × (is_empty digits ≡ false)

not-eq_true : (b : Bool) → not b ≡ true → b ≡ false
not-eq_true b h = ground arith

width : (n : ℕ) → is_between 8 16 n ≡ true → (8 ≤ n) × (n ≤ 16)
unfolding is_between
width n h = ground arith

abbrev pub IsFound : Text × Text → Type 0
IsFound (a, sym) = IsAddress a

match_frame-Yields : (s : Text) → Yields IsFound (match_frame s)
unfolding match_frame
match_frame-Yields s = bind-Yields (any-Yields (behind (codes "0x") s)) λ t _.
    let digits = run is_hex t in
    bind-Yields
      (test-Yields (is_between 8 16 (length digits)) (behind (codes ":") (lstrip (rest is_hex t))))
      λ u e. bind-Yields (any-Yields (symbol (lstrip u))) λ sym _.
        let (lo, hi) = width (length digits) e in just (digits, refl, run-All is_hex t, lo, hi)

pub frame_of-Yields : (line : Text) → Yields IsFound (frame_of line)
unfolding frame_of
frame_of-Yields line = bind-Yields (match_frame-Yields (strip line)) λ (a, sym) h. just h

kext_at-Yields : (s : Text) → Yields IsKext (kext_at s)
unfolding kext_at
kext_at-Yields s = bind-Yields (any-Yields (behind (codes "com.") s)) λ t _.
    let name = run is_bundle t in
    bind-Yields (test-Yields (not (is_empty name)) (spaces (rest is_bundle t))) λ u e.
      bind-Yields (any-Yields (behind (codes "@") u)) λ v _.
        bind-Yields (any-Yields (spaces v)) λ w _.
          bind-Yields (any-Yields (behind (codes "0x") w)) λ x _.
            let digits = run is_hex x in
            when-Yields (not (is_empty digits)) (some (codes "com." ++ name, codes "0x" ++ digits))
              λ d. just (
                name,
                digits,
                refl,
                refl,
                run-All is_bundle t,
                run-All is_hex x,
                not-eq_true (is_empty name) e,
                not-eq_true (is_empty digits) d,
              )

pub search_kext-Yields : (s : Text) → Yields IsKext (search_kext s)
unfolding search_kext
search_kext-Yields [] = nothing
search_kext-Yields (c ∷ s) = go (kext_at-Yields (c ∷ s)) (search_kext-Yields s)
  where
    go :
        {o : Option (Text × Text)}
        → Yields IsKext o
        → Yields IsKext (search_kext s)
        → Yields IsKext (elim o [ none ↦ search_kext s | some k ↦ some k ])
    go nothing later = later
    go (just h) later = just h

-- The element stands in the list.
abbrev pub Among : {A : Type 0} → A → List A → Type 0
Among x [] = ⊥
Among x (y ∷ ys) = (x ≡ y) ⊎ Among x ys

pub Among-append : {A : Type 0} (x : A) (ys zs : List A) → Among x ys → Among x (ys ++ zs)
Among-append x [] zs h = absurd h
Among-append x (y ∷ ys) zs (inl e) = inl e
Among-append x (y ∷ ys) zs (inr h) = inr (Among-append x ys zs h)

pub Among-last : {A : Type 0} (x : A) (ys : List A) → Among x (ys ++ x ∷ [])
Among-last x [] = inl refl
Among-last x (y ∷ ys) = inr (Among-last x ys)

-- A known panic that stands in one of the lines, in any case, and has this explanation.
abbrev pub IsDiagnosed : List Text → String → Type 0
IsDiagnosed lines explanation =
    (key : String) × (line : Text) × Among (key, explanation) known_panics
    × Among line lines
    × (contains (lower (codes key)) (lower line) ≡ true)

pub find_in-Yields :
    (known : List (String × String)) (line : Text)
    → Yields
        (λ explanation.
          (key : String) × Among (key, explanation) known
          × (contains (lower (codes key)) (lower line) ≡ true))
        (find_in known line)
unfolding find_in
find_in-Yields [] line = nothing
find_in-Yields ((key, explanation) ∷ known) line =
    elim (Bool-cases (contains (lower (codes key)) (lower line))) [
      | inl e ↦ rw e (just (key, inl refl, e))
      | inr e ↦ rw e (mono-Yields (find_in-Yields known line) λ d (k, a, c). (k, inr a, c))
    ]
