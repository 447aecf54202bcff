-- ===== src/Examples/PanicLog.antt =====
-- The panic log parser on a concrete log.
use ajulius.Prelude.{◌≡◌, refl, [], ◌∷◌, ◌++◌, codes, some, false, arith}
use ajulius.PanicLog.Patterns.{
  are_digits, is_offset, before_offset, symbol, rest, run, behind, match_frame, strip, lstrip,
  lower, starts_with, contains, before_stripped, is_hex, is_between, is_space, search_kext, rstrip,
}
use ajulius.PanicLog.{mentions_backtrace, announces, find_known_panic, frame_of, parse_panic_log}
use ajulius.PanicLog.Frames.{Frame, IsFrame, frame_text, frame_of-frame_text, IsBlank}
use ajulius.PanicLog.Sections.{gather, trimmed}
use ajulius.PanicLog.Log.{Log, IsLog, log_lines, told, parse_panic_log-Sections}
use ajulius.PanicLog.Invariant.{IsSound, parse_panic_log-IsSound}

abbrev log : Log
log = record {
  before = codes "booting\n" ∷ [];
  panic = codes "panic(cpu 0 caller 0xffffff80): launchd died \n";
  text = codes "Debugger called\n" ∷ [];
  heading = codes "Backtrace (CPU 0), Frame : Return Address\n";
  frames =
      codes "0xffffff801234 : panic + 0x10+0xab\n"
      ∷ codes "  0xdeadbeef:start\n"
      ∷ codes "  com.julius.serial @ 0x1000\n"
      ∷ [];
  blank = codes "\n";
  after = codes "the end\n" ∷ [];
}

log-IsLog : IsLog log
unfolding announces mentions_backtrace contains starts_with lower is_between is_space is_hex rstrip
    before_stripped lstrip strip gather frame_of match_frame behind run rest symbol before_offset
    is_offset are_digits
log-IsLog = record {
  quiet = ((refl, refl), tt);
  starts = refl;
  starts_plain = refl;
  describes = ((refl, refl), tt);
  heads = refl;
  heads_plain = refl;
  traces = (((refl, refl), refl), (((refl, refl), refl), (((refl, refl), refl), tt)));
  some_frames = refl;
  ends = refl;
  goes_on = ((refl, refl), tt);
}

-- The frame of `0xffffff801234 : thread_start+0xab`.
abbrev frame : Frame
frame = record {
  digits = codes "ffffff801234";
  gap = codes " ";
  gap_after = codes " ";
  first = b't';
  others = codes "hread_start";
  offset_digits = codes "ab";
}

frame-IsFrame : IsFrame frame
unfolding is_between is_space is_hex rstrip before_stripped
frame-IsFrame = record {
  hex = (
    refl,
    (refl, (refl, (refl, (refl, (refl, (refl, (refl, (refl, (refl, (refl, (refl, tt))))))))))),
  );
  wide = omega arith;
  narrow = omega arith;
  gap_blank = (refl, tt);
  after_blank = (refl, tt);
  starts = refl;
  ends = refl;
  plain = omega arith;
  offset_hex = (refl, (refl, tt));
}

two_spaces : IsBlank (codes "  ")
unfolding is_space is_between
two_spaces = (refl, (refl, tt))

frame_of-frame_text_example :
    frame_of (codes "  " ++ frame_text frame)
    ≡ some (codes "0x" ++ codes "ffffff801234", b't' ∷ codes "hread_start")
frame_of-frame_text_example = frame_of-frame_text frame (codes "  ") frame-IsFrame two_spaces

parse_panic_log-Sections_example : parse_panic_log (log_lines log) ≡ record {
  in_backtrace = false;
  panic_summary = gather find_known_panic (told log);
  backtrace_frames = gather frame_of log.frames;
  kext_list = gather search_kext log.frames;
  raw_panic_text = rstrip log.panic ∷ trimmed (told log);
}
parse_panic_log-Sections_example = parse_panic_log-Sections log log-IsLog

parse_panic_log-IsSound_example : IsSound (parse_panic_log (log_lines log))
parse_panic_log-IsSound_example = parse_panic_log-IsSound (log_lines log)
