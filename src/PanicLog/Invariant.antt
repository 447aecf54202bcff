-- ===== src/PanicLog/Invariant.antt =====
-- What the parser has collected at any point of any log.
use ajulius.Prelude.{
  if◌then◌else◌, Bool, true, false, not, ◌&&◌, String, Option, List, [], ◌∷◌, ◌++◌, All, All-append,
  All-weaken,
}
use ajulius.PanicLog.Patterns.{Text, is_empty, rstrip, strip, search_kext}
use ajulius.PanicLog.{
  find_known_panic, known_panics, Report, empty, append_some, announces, mentions_backtrace,
  detect_panic, collect_text, frame_of, parse_frame, parse_backtrace, parse_line, parse_lines,
  parse_panic_log,
}
use ajulius.PanicLog.Sound.{
  Yields, nothing, just, IsFound, IsKext, IsDiagnosed, Among-append, Among-last, find_in-Yields,
  mono-Yields, frame_of-Yields, search_kext-Yields,
}

pub record IsSound (r : Report) : Type 0 where
  pub frames : All IsFound r.backtrace_frames
  pub kexts : All IsKext r.kext_list
  pub diagnosed : All (IsDiagnosed r.raw_panic_text) r.panic_summary

append_some-All :
    {A : Type 0} (P : A → Type 0) (xs : List A) {o : Option A}
    → All P xs
    → Yields P o
    → All P (append_some xs o)
append_some-All P xs h nothing = h
append_some-All P xs h (just p) = All-append P xs _ h (p, tt)

more-IsDiagnosed :
    (lines : List Text) (line : Text) (ds : List String)
    → All (IsDiagnosed lines) ds
    → All (IsDiagnosed (lines ++ line ∷ [])) ds
more-IsDiagnosed lines line ds h =
    All-weaken (IsDiagnosed lines) (IsDiagnosed (lines ++ line ∷ [])) ds
      (λ d (key, l, known, among, found). (key, l, known, Among-append l lines _ among, found)) h

find_known_panic-Yields :
    (lines : List Text) (line : Text)
    → Yields (IsDiagnosed (lines ++ line ∷ [])) (find_known_panic line)
unfolding find_known_panic
find_known_panic-Yields lines line =
    mono-Yields (find_in-Yields known_panics line)
      λ d (key, known, found). (key, line, known, Among-last line lines, found)

either-IsSound : (b : Bool) (r q : Report) → IsSound r → IsSound q → IsSound (if b then r else q)
either-IsSound true r q h k = h
either-IsSound false r q h k = k

detect_panic-IsSound : (r : Report) (line : Text) → IsSound r → IsSound (detect_panic r line)
unfolding detect_panic
detect_panic-IsSound r line h =
    either-IsSound (announces line) _ r
      (record {
        frames = h.frames;
        kexts = h.kexts;
        diagnosed = more-IsDiagnosed r.raw_panic_text line r.panic_summary h.diagnosed;
      })
      h

collect_text-IsSound : (r : Report) (line : Text) → IsSound r → IsSound (collect_text r line)
unfolding collect_text
collect_text-IsSound r line h =
    either-IsSound (not (is_empty r.raw_panic_text) && not r.in_backtrace) _ r
      (record {
        frames = h.frames;
        kexts = h.kexts;
        diagnosed =
            append_some-All (IsDiagnosed (r.raw_panic_text ++ line ∷ [])) r.panic_summary
              (more-IsDiagnosed r.raw_panic_text line r.panic_summary h.diagnosed)
              (find_known_panic-Yields r.raw_panic_text line);
      })
      h

parse_frame-IsSound : (r : Report) (line : Text) → IsSound r → IsSound (parse_frame r line)
unfolding parse_frame
parse_frame-IsSound r line h =
    let frames = append_some-All IsFound r.backtrace_frames h.frames (frame_of-Yields line) in
    let kexts = append_some-All IsKext r.kext_list h.kexts (search_kext-Yields line) in
    let r' = record r {
      backtrace_frames = append_some r.backtrace_frames (frame_of line);
      kext_list = append_some r.kext_list (search_kext line);
    } in
    either-IsSound (is_empty (strip line) && not (is_empty r'.backtrace_frames))
      (record r' { in_backtrace = false }) r'
      (record { frames = frames; kexts = kexts; diagnosed = h.diagnosed })
      (record { frames = frames; kexts = kexts; diagnosed = h.diagnosed })

parse_backtrace-IsSound : (r : Report) (line : Text) → IsSound r → IsSound (parse_backtrace r line)
unfolding parse_backtrace
parse_backtrace-IsSound r line h =
    either-IsSound (mentions_backtrace line) _ _
      (record { frames = h.frames; kexts = h.kexts; diagnosed = h.diagnosed })
      (either-IsSound r.in_backtrace (parse_frame r line) r (parse_frame-IsSound r line h) h)

parse_lines-IsSound : (lines : List Text) (r : Report) → IsSound r → IsSound (parse_lines r lines)
unfolding parse_lines parse_line
parse_lines-IsSound [] r h = h
parse_lines-IsSound (line ∷ lines) r h = parse_lines-IsSound lines (parse_line r line) (
    parse_backtrace-IsSound (collect_text (detect_panic r (rstrip line)) (rstrip line))
      (rstrip line)
      (collect_text-IsSound (detect_panic r (rstrip line)) (rstrip line)
        (detect_panic-IsSound r (rstrip line) h)))

-- For any log, each frame has an address of 0x and 8 to 16 hexadecimal digits, each extension a
-- bundle's name that starts with com. and a hexadecimal number, and each diagnosis is the
-- explanation of a known panic that stands, in any case, in a line of the panic's text.
pub parse_panic_log-IsSound : (lines : List Text) → IsSound (parse_panic_log lines)
unfolding parse_panic_log
parse_panic_log-IsSound lines =
    parse_lines-IsSound lines empty (record { frames = tt; kexts = tt; diagnosed = tt })
