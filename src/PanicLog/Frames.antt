-- ===== src/PanicLog/Frames.antt =====
-- The lines of a backtrace: a frame written out is read back.
use ajulius.Prelude.{
  sym, ℕ, ◌≤◌, ◌≡◌, ◌≢◌, refl, ◌∙◌, ap, eq→==, ne→==, Bool, true, false, some, none, [], ◌∷◌, ◌++◌,
  All, length, codes, arith,
}
use mathlib.Core.List.{append-nil}
use ajulius.PanicLog.Patterns.{
  are_digits, Text, is_between, is_space, is_hex, lstrip, before_stripped, rstrip, strip, run, rest,
  behind, is_offset, is_empty, before_offset, symbol, match_frame,
}
use ajulius.PanicLog.{frame_of}

abbrev pub IsHexText : Text → Type 0
IsHexText s = All (λ c. is_hex c ≡ true) s

abbrev pub IsBlank : Text → Type 0
IsBlank s = All (λ c. is_space c ≡ true) s

-- The first character, if there is one, does not go on a run.
abbrev Stops : (ℕ → Bool) → Text → Type 0
Stops p [] = Unit
Stops p (c ∷ s) = p c ≡ false

hex-not_space : (c : ℕ) → is_hex c ≡ true → is_space c ≡ false
unfolding is_hex is_space is_between
hex-not_space c h = ground arith

space-not_hex : (c : ℕ) → is_space c ≡ true → is_hex c ≡ false
unfolding is_hex is_space is_between
space-not_hex c h = ground arith

behind-append : (p s : Text) → behind p (p ++ s) ≡ some s
unfolding behind
behind-append [] s = refl
behind-append (c ∷ p) s = rw (eq→== c c refl) (behind-append p s)

module _ (p : ℕ → Bool) (s : Text) (stops : Stops p s) where
  run-append : (xs : Text) → All (λ c. p c ≡ true) xs → run p (xs ++ s) ≡ xs
  unfolding run
  run-append [] h = go s stops
    where
      go : (s : Text) → Stops p s → run p s ≡ []
      go [] h = refl
      go (c ∷ s) h = rw h
  run-append (x ∷ xs) h = rw (h.0, run-append xs h.1)

  rest-append : (xs : Text) → All (λ c. p c ≡ true) xs → rest p (xs ++ s) ≡ s
  unfolding rest
  rest-append [] h = go s stops
    where
      go : (s : Text) → Stops p s → rest p s ≡ s
      go [] h = refl
      go (c ∷ s) h = rw h
  rest-append (x ∷ xs) h = rw (h.0, rest-append xs h.1)

pub lstrip-append :
    (xs : Text) (c : ℕ) (s : Text) → IsBlank xs → is_space c ≡ false → lstrip (xs ++ c ∷ s) ≡ c ∷ s
unfolding lstrip
lstrip-append [] c s h e = rw e
lstrip-append (x ∷ xs) c s h e = rw h.0 (lstrip-append xs c s h.1 e)

-- A text that is there and has no spaces behind it.
abbrev IsTight : Text → Type 0
IsTight s = (is_empty s ≡ false) × (rstrip s ≡ s)

cons-IsTight : (c : ℕ) (s : Text) → IsTight s → IsTight (c ∷ s)
unfolding rstrip before_stripped
cons-IsTight c [] h = absurd (cc)
cons-IsTight c (d ∷ s) (there, e) = (refl, rw e refl)

append-IsTight : (xs s : Text) → IsTight s → IsTight (xs ++ s)
append-IsTight [] s h = h
append-IsTight (x ∷ xs) s h = cons-IsTight x (xs ++ s) (append-IsTight xs s h)

rstrip_hex : (s : Text) → IsHexText s → rstrip s ≡ s
unfolding rstrip before_stripped
rstrip_hex [] h = refl
rstrip_hex (c ∷ s) h = rw (rstrip_hex s h.1) (go s)
  where
    go : (s : Text) → before_stripped c s ≡ c ∷ s
    go [] = rw (hex-not_space c h.0)
    go (d ∷ s) = refl

-- An offset of these digits, and none where there are no digits.
abbrev pub offset : Text → Text
offset [] = []
offset (h ∷ hs) = codes "+0x" ++ h ∷ hs

rest_all : (s : Text) → IsHexText s → rest is_hex s ≡ []
unfolding rest
rest_all [] h = refl
rest_all (c ∷ s) h = rw h.0 (rest_all s h.1)

behind_offset : (s : Text) → behind (codes "+0x") (codes "+0x" ++ s) ≡ some s
unfolding behind
behind_offset s = refl

behind_other : (d : ℕ) (s : Text) → d ≢ b'+' → behind (codes "+0x") (d ∷ s) ≡ none
unfolding behind
behind_other d s ne = rw (ne→== b'+' d (λ e. ne (sym e)))

offset-is_offset : (h : ℕ) (hs : Text) → IsHexText (h ∷ hs) → is_offset (offset (h ∷ hs)) ≡ true
unfolding is_offset are_digits
offset-is_offset h hs x = ap are_digits (behind_offset (h ∷ hs)) ∙ ap is_empty (rest_all (h ∷ hs) x)

other-is_offset : (d : ℕ) (s : Text) → d ≢ b'+' → is_offset (d ∷ s) ≡ false
unfolding is_offset are_digits
other-is_offset d s ne = ap are_digits (behind_other d s ne)

before_offset-append :
    (t hs : Text) → All (λ c. c ≢ b'+') t → IsHexText hs → before_offset (t ++ offset hs) ≡ t
unfolding before_offset
before_offset-append [] [] plain x = refl
before_offset-append [] (h ∷ hs) plain x = rw (offset-is_offset h hs x)
before_offset-append (d ∷ t) hs plain x =
    rw (other-is_offset d (t ++ offset hs) plain.0, before_offset-append t hs plain.1 x)

-- A frame as it is written in a log: an address, a colon and a symbol, with spaces between them,
-- and an offset that may be left out.
pub record Frame : Type 0 where
  pub digits : Text
  pub gap : Text
  pub gap_after : Text
  pub first : ℕ
  pub others : Text
  pub offset_digits : Text

abbrev pub frame_text : Frame → Text
frame_text f =
    codes "0x"
    ++ (f.digits
        ++ (f.gap ++ b':' ∷ (f.gap_after ++ f.first ∷ (f.others ++ offset f.offset_digits))))

-- An address of 8 to 16 digits; a symbol with no space at its ends and, but for its first
-- character, no plus sign.
pub record IsFrame (f : Frame) : Type 0 where
  pub hex : IsHexText f.digits
  pub wide : 8 ≤ length f.digits
  pub narrow : length f.digits ≤ 16
  pub gap_blank : IsBlank f.gap
  pub after_blank : IsBlank f.gap_after
  pub starts : is_space f.first ≡ false
  pub ends : rstrip (f.first ∷ f.others) ≡ f.first ∷ f.others
  pub plain : All (λ c. c ≢ b'+') f.others
  pub offset_hex : IsHexText f.offset_digits

gap-Stops : (gap s : Text) → IsBlank gap → Stops is_hex (gap ++ b':' ∷ s)
unfolding is_hex is_between
gap-Stops [] s h = refl
gap-Stops (c ∷ gap) s h = space-not_hex c h.0

in_width : (n : ℕ) → 8 ≤ n → n ≤ 16 → is_between 8 16 n ≡ true
unfolding is_between
in_width n lo hi = ground arith

match_frame-frame_text :
    (f : Frame)
    → IsFrame f
    → match_frame (frame_text f) ≡ some (codes "0x" ++ f.digits, f.first ∷ f.others)
unfolding match_frame symbol
match_frame-frame_text f x =
    let sym_text = f.first ∷ (f.others ++ offset f.offset_digits) in
    let tail = f.gap_after ++ sym_text in
    let stops = gap-Stops f.gap tail x.gap_blank in
    rw
      (
        behind-append (codes "0x") (f.digits ++ (f.gap ++ b':' ∷ tail)),
        run-append is_hex (f.gap ++ b':' ∷ tail) stops f.digits x.hex,
        rest-append is_hex (f.gap ++ b':' ∷ tail) stops f.digits x.hex,
        in_width (length f.digits) x.wide x.narrow,
        lstrip-append f.gap b':' tail x.gap_blank colon,
        behind-append (codes ":") tail,
        lstrip-append f.gap_after f.first (f.others ++ offset f.offset_digits) x.after_blank
            x.starts,
        before_offset-append f.others f.offset_digits x.plain x.offset_hex,
      )
      refl
  where
    colon : is_space b':' ≡ false
    colon = unfold is_space in unfold is_between in refl

symbol-IsTight :
    (c : ℕ) (t hs : Text) → rstrip (c ∷ t) ≡ c ∷ t → IsHexText hs → IsTight (c ∷ (t ++ offset hs))
symbol-IsTight c t [] ends x = rw (append-nil t) (refl, ends)
symbol-IsTight c t (h ∷ hs) ends x =
    append-IsTight (c ∷ t) (offset (h ∷ hs))
      (append-IsTight (codes "+0x") (h ∷ hs) (refl, rstrip_hex (h ∷ hs) x))

frame_text-IsTight : (f : Frame) → IsFrame f → IsTight (frame_text f)
frame_text-IsTight f x = append-IsTight (codes "0x") _ (
    append-IsTight f.digits _ (
      append-IsTight f.gap _ (
        append-IsTight (b':' ∷ f.gap_after) _
          (symbol-IsTight f.first f.others f.offset_digits x.ends x.offset_hex))))

zero-not_space : is_space b'0' ≡ false
unfolding is_space is_between
zero-not_space = refl

-- A frame, with an address of 8 to 16 digits and a symbol that has no space at its ends and no plus
-- sign behind its first character, is read back from the line that it is written on, whatever
-- spaces stand before it: the address, and the symbol without the offset.
pub frame_of-frame_text :
    (f : Frame) (pad : Text)
    → IsFrame f
    → IsBlank pad
    → frame_of (pad ++ frame_text f) ≡ some (codes "0x" ++ f.digits, f.first ∷ f.others)
unfolding frame_of strip
frame_of-frame_text f pad x blank =
    rw
      (
        lstrip-append pad b'0' _ blank zero-not_space,
        (frame_text-IsTight f x).1,
        match_frame-frame_text f x,
        lstrip-append [] f.first f.others tt x.starts,
        x.ends,
      )
      refl
