-- ===== src/PanicLog/Sections.antt =====
-- The lines of a log by what they do: before the panic, in its text, in the backtrace.
use ajulius.Prelude.{
  ◌≡◌, refl, ◌∙◌, ap, sym, Bool, true, false, String, Option, some, none, List, [], ◌∷◌, ◌++◌, All,
}
use mathlib.Core.List.{append_assoc, append-nil}
use ajulius.PanicLog.Patterns.{
  Text, is_empty, lower, starts_with, contains, behind, lstrip, rstrip, strip, match_frame,
  search_kext,
}
use ajulius.PanicLog.{
  find_known_panic, Report, empty, append_some, announces, mentions_backtrace, detect_panic,
  collect_text, frame_of, parse_frame, parse_backtrace, parse_line, parse_lines,
}

-- What the lines have, in order.
unfoldable pub gather : {A : Type 0} → (Text → Option A) → List Text → List A
gather f [] = []
gather f (line ∷ lines) = append_some [] (f (rstrip line)) ++ gather f lines

-- The lines without the spaces at their ends.
unfoldable pub trimmed : List Text → List Text
trimmed [] = []
trimmed (line ∷ lines) = rstrip line ∷ trimmed lines

-- A line that neither starts a panic nor a backtrace.
abbrev pub IsPlain : Text → Type 0
IsPlain line = (announces (rstrip line) ≡ false) × (mentions_backtrace (rstrip line) ≡ false)

-- A line of a backtrace that does not end it.
abbrev pub IsInside : Text → Type 0
IsInside line = IsPlain line × (is_empty (strip (rstrip line)) ≡ false)

append_some-gather :
    {A : Type 0} (xs : List A) (o : Option A) (ys : List A)
    → append_some xs o ++ ys ≡ xs ++ (append_some [] o ++ ys)
append_some-gather xs none ys = refl
append_some-gather xs (some x) ys = append_assoc xs (x ∷ []) ys

pub parse_lines-append :
    (xs ys : List Text) (r : Report) → parse_lines r (xs ++ ys) ≡ parse_lines (parse_lines r xs) ys
unfolding parse_lines
parse_lines-append [] ys r = refl
parse_lines-append (x ∷ xs) ys r = parse_lines-append xs ys (parse_line r x)

-- Before the panic.
pub before_panic : (lines : List Text) → All IsPlain lines → parse_lines empty lines ≡ empty
unfolding parse_lines parse_line detect_panic collect_text parse_backtrace
before_panic [] h = refl
before_panic (line ∷ lines) h = rw (h.0.0, h.0.1) (before_panic lines h.1)

abbrev pub report :
    Bool → List String → List (Text × Text) → List (Text × Text) → List Text → Report
report inside summary frames kexts raw = record {
  in_backtrace = inside;
  panic_summary = summary;
  backtrace_frames = frames;
  kext_list = kexts;
  raw_panic_text = raw;
}

module _ (frames kexts : List (Text × Text)) where
  -- In the panic's text, which has begun with the line `first`.
  pub in_text :
      (lines : List Text) (first : Text) (raw : List Text) (summary : List String)
      → All IsPlain lines
      → parse_lines (report false summary frames kexts (first ∷ raw)) lines
        ≡ report false
            (summary ++ gather find_known_panic lines)
            frames
            kexts
            (first ∷ (raw ++ trimmed lines))
  unfolding parse_lines parse_line detect_panic collect_text parse_backtrace gather trimmed
  in_text [] first raw summary h = rw (append-nil summary, append-nil raw)
  in_text (line ∷ lines) first raw summary h =
      rw
        (
          h.0.0,
          h.0.1,
          in_text lines first (raw ++ rstrip line ∷ [])
              (append_some summary (find_known_panic (rstrip line))) h.1,
          append_some-gather summary (find_known_panic (rstrip line))
              (gather find_known_panic lines),
          append_assoc raw (rstrip line ∷ []) (trimmed lines),
        )
        refl

-- One line inside a backtrace.
inside_line :
    (line : Text) (summary : List String) (frames kexts : List (Text × Text)) (raw : List Text)
    → IsInside line
    → parse_line (report true summary frames kexts raw) line
      ≡ report true summary
          (append_some frames (frame_of (rstrip line)))
          (append_some kexts (search_kext (rstrip line)))
          raw
unfolding parse_line detect_panic collect_text parse_backtrace parse_frame
inside_line line summary frames kexts [] h = rw (h.0.0, h.0.1, h.1) refl
inside_line line summary frames kexts (x ∷ raw) h = rw (h.0.0, h.0.1, h.1) refl

pub in_trace :
    (lines : List Text) (summary : List String) (frames kexts : List (Text × Text))
    (raw : List Text)
    → All IsInside lines
    → parse_lines (report true summary frames kexts raw) lines
      ≡ report true summary
          (frames ++ gather frame_of lines)
          (kexts ++ gather search_kext lines)
          raw
unfolding parse_lines gather
in_trace [] summary frames kexts raw h = rw (append-nil frames, append-nil kexts)
in_trace (line ∷ lines) summary frames kexts raw h =
    rw
      (
        inside_line line summary frames kexts raw h.0,
        in_trace lines summary (append_some frames (frame_of (rstrip line)))
            (append_some kexts (search_kext (rstrip line))) raw h.1,
        append_some-gather frames (frame_of (rstrip line)) (gather frame_of lines),
        append_some-gather kexts (search_kext (rstrip line)) (gather search_kext lines),
      )
      refl

-- The line that starts the panic, twice in its text.
pub panic_line :
    (line : Text)
    → announces (rstrip line) ≡ true
    → mentions_backtrace (rstrip line) ≡ false
    → parse_line empty line
      ≡ report false
          (append_some [] (find_known_panic (rstrip line)))
          []
          []
          (rstrip line ∷ rstrip line ∷ [])
unfolding parse_line detect_panic collect_text parse_backtrace
panic_line line starts plain = rw (starts, plain) refl

-- The line that starts the backtrace is the last of the panic's text.
pub heading_line :
    (line first : Text) (raw : List Text) (summary : List String)
    → announces (rstrip line) ≡ false
    → mentions_backtrace (rstrip line) ≡ true
    → parse_line (report false summary [] [] (first ∷ raw)) line
      ≡ report true
          (append_some summary (find_known_panic (rstrip line)))
          []
          []
          (first ∷ (raw ++ rstrip line ∷ []))
unfolding parse_line detect_panic collect_text parse_backtrace
heading_line line first raw summary plain heads = rw (plain, heads) refl

-- An empty line ends the backtrace.
empty_line :
    (first : Text) (raw : List Text) (summary : List String) (frames kexts : List (Text × Text))
    → is_empty frames ≡ false
    → parse_backtrace
        (collect_text (detect_panic (report true summary frames kexts (first ∷ raw)) []) [])
        []
      ≡ report false summary frames kexts (first ∷ raw)
unfolding detect_panic collect_text parse_backtrace parse_frame announces mentions_backtrace
    contains starts_with lower frame_of match_frame behind search_kext strip lstrip rstrip
empty_line first raw summary [] kexts h = absurd (cc)
empty_line first raw summary (f ∷ frames) kexts h = refl

pub blank_line :
    (line first : Text) (raw : List Text) (summary : List String)
    (frames kexts : List (Text × Text))
    → rstrip line ≡ []
    → is_empty frames ≡ false
    → parse_line (report true summary frames kexts (first ∷ raw)) line
      ≡ report false summary frames kexts (first ∷ raw)
unfolding parse_line
blank_line line first raw summary frames kexts blank some_frames =
    rw blank (empty_line first raw summary frames kexts some_frames)

pub gather-append :
    {A : Type 0} (f : Text → Option A) (xs ys : List Text)
    → gather f (xs ++ ys) ≡ gather f xs ++ gather f ys
unfolding gather
gather-append f [] ys = refl
gather-append f (x ∷ xs) ys =
    rw (gather-append f xs ys)
      (sym (append_assoc (append_some [] (f (rstrip x))) (gather f xs) (gather f ys)))

pub trimmed-append : (xs ys : List Text) → trimmed (xs ++ ys) ≡ trimmed xs ++ trimmed ys
unfolding trimmed
trimmed-append [] ys = refl
trimmed-append (x ∷ xs) ys = ap (◌∷◌ (rstrip x)) (trimmed-append xs ys)

append_some_lem :
    {A : Type 0} (xs : List A) (o : Option A) → append_some xs o ≡ xs ++ (append_some [] o ++ [])
append_some_lem xs none = sym (append-nil xs)
append_some_lem xs (some x) = refl

pub gather_last :
    {A : Type 0} (f : Text → Option A) (line last : Text) (lines : List Text)
    → append_some (append_some [] (f (rstrip line)) ++ gather f lines) (f (rstrip last))
      ≡ gather f (line ∷ (lines ++ last ∷ []))
unfolding gather
gather_last f line last lines =
    append_some_lem (append_some [] (f (rstrip line)) ++ gather f lines) (f (rstrip last))
    ∙ append_assoc (append_some [] (f (rstrip line))) (gather f lines) (gather f (last ∷ []))
    ∙ ap (λ (xs : List _). append_some [] (f (rstrip line)) ++ xs)
        (sym (gather-append f lines (last ∷ [])))
