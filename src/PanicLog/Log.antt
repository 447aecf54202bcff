-- ===== src/PanicLog/Log.antt =====
-- A log in its sections: what comes before the panic, the panic and its text, the backtrace, and
-- what comes after.
use ajulius.Prelude.{◌≡◌, refl, ◌∙◌, ap, true, false, List, [], ◌∷◌, ◌++◌, All}
use mathlib.Core.List.{append_assoc}
use ajulius.PanicLog.Patterns.{Text, is_empty, rstrip, search_kext}
use ajulius.PanicLog.{
  find_known_panic, empty, append_some, announces, mentions_backtrace, frame_of, parse_lines,
  parse_panic_log,
}
use ajulius.PanicLog.Sections.{
  gather, trimmed, IsPlain, IsInside, report, parse_lines-append, before_panic, in_text, in_trace,
  panic_line, heading_line, blank_line, gather-append, trimmed-append, gather_last,
}

-- A log with a panic and its backtrace.
pub record Log : Type 0 where
  pub before : List Text
  pub panic : Text
  pub text : List Text
  pub heading : Text
  pub frames : List Text
  pub blank : Text
  pub after : List Text

abbrev pub log_lines : Log → List Text
log_lines l = l.before ++ l.panic ∷ (l.text ++ l.heading ∷ (l.frames ++ l.blank ∷ l.after))

pub record IsLog (l : Log) : Type 0 where
  pub quiet : All IsPlain l.before
  pub starts : announces (rstrip l.panic) ≡ true
  pub starts_plain : mentions_backtrace (rstrip l.panic) ≡ false
  pub describes : All IsPlain l.text
  pub heads : mentions_backtrace (rstrip l.heading) ≡ true
  pub heads_plain : announces (rstrip l.heading) ≡ false
  pub traces : All IsInside l.frames
  pub some_frames : is_empty (gather frame_of l.frames) ≡ false
  pub ends : rstrip l.blank ≡ []
  pub goes_on : All IsPlain l.after

-- What counts as the panic's text: all but the backtrace and what comes before the panic.
abbrev pub told : Log → List Text
told l = l.panic ∷ (l.text ++ l.heading ∷ l.after)

-- The panic's text up to the backtrace's heading.
abbrev opening : Log → List Text
opening l = l.panic ∷ (l.text ++ l.heading ∷ [])

-- Up to the backtrace.
read_opening :
    (l : Log) (more : List Text)
    → IsLog l
    → parse_lines empty (l.before ++ l.panic ∷ (l.text ++ l.heading ∷ more))
      ≡ parse_lines
          (report true
            (gather find_known_panic (opening l))
            []
            []
            (rstrip l.panic ∷ trimmed (opening l)))
          more
unfolding parse_lines trimmed
read_opening l more x =
    let p = rstrip l.panic in
    let found = append_some [] (find_known_panic p) in
    parse_lines-append l.before (l.panic ∷ (l.text ++ l.heading ∷ more)) empty
    ∙ ap (λ r. parse_lines r (l.panic ∷ (l.text ++ l.heading ∷ more)))
        (before_panic l.before x.quiet)
    ∙ ap (λ r. parse_lines r (l.text ++ l.heading ∷ more))
        (panic_line l.panic x.starts x.starts_plain)
    ∙ parse_lines-append l.text (l.heading ∷ more) (report false found [] [] (p ∷ p ∷ []))
    ∙ ap (λ r. parse_lines r (l.heading ∷ more)) (in_text [] [] l.text p (p ∷ []) found x.describes)
    ∙ ap (λ r. parse_lines r more)
        (heading_line l.heading p (p ∷ trimmed l.text) (found ++ gather find_known_panic l.text)
          x.heads_plain x.heads)
    ∙ rw
        (
          gather_last find_known_panic l.panic l.heading l.text,
          trimmed-append l.text (l.heading ∷ []),
        )
        refl

-- Of a log with a panic and its backtrace, the parser has the frames and the extensions of the
-- lines between the backtrace's heading and the blank line that ends it, each once and in order,
-- and the known panics of the panic's text. That text is the line that starts the panic, twice, the
-- lines up to the heading and with it, and all that comes behind the blank line.
pub parse_panic_log-Sections :
    (l : Log)
    → IsLog l
    → parse_panic_log (log_lines l) ≡ record {
      in_backtrace = false;
      panic_summary = gather find_known_panic (told l);
      backtrace_frames = gather frame_of l.frames;
      kext_list = gather search_kext l.frames;
      raw_panic_text = rstrip l.panic ∷ trimmed (told l);
    }
unfolding parse_panic_log parse_lines
parse_panic_log-Sections l x =
    let raw = trimmed (opening l) in
    let summary = gather find_known_panic (opening l) in
    let frames = gather frame_of l.frames in
    let kexts = gather search_kext l.frames in
    let p = rstrip l.panic in
    read_opening l (l.frames ++ l.blank ∷ l.after) x
    ∙ parse_lines-append l.frames (l.blank ∷ l.after) (report true summary [] [] (p ∷ raw))
    ∙ ap (λ r. parse_lines r (l.blank ∷ l.after))
        (in_trace l.frames summary [] [] (p ∷ raw) x.traces)
    ∙ ap (λ r. parse_lines r l.after)
        (blank_line l.blank p raw summary frames kexts x.ends x.some_frames)
    ∙ in_text frames kexts l.after p raw summary x.goes_on
    ∙ rw
        (
          ← gather-append find_known_panic (opening l) l.after,
          ← trimmed-append (opening l) l.after,
          append_assoc l.text (l.heading ∷ []) l.after,
        )
        refl
