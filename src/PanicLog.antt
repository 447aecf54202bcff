-- ===== src/PanicLog.antt =====
-- tools/panic-parse.py: the parser of kernel panic logs, a state machine over the lines of a log.
-- The report that is printed from its result, and the symbolizers that it runs for that, are not
-- modelled.
pub mod Patterns
pub mod Frames
pub mod Sections
pub mod Sound
pub mod Log
pub mod Invariant
use ajulius.Prelude.{
  ℕ, Bool, true, false, ◌&&◌, ◌||◌, not, if◌then◌else◌, String, codes, Option, none, some, List, [],
  ◌∷◌, ◌++◌,
}
use ajulius.PanicLog.Patterns.{
  Text, is_empty, lower, contains, rstrip, strip, match_frame, search_kext, ◌>>=◌,
}

-- A panic that is known, and its explanation.
abbrev pub known_panics : List (String × String)
known_panics =
    ("page fault in kernel mode", "Null pointer or unmapped memory dereference.")
    ∷ (
      "Unresolved kernel trap",
      "A kext called a symbol not present in XNU. Check OSBundleLibraries versions.",
    )
    ∷ ("launchd died", "PID 1 exited. julius-init must never return from julius_start().")
    ∷ (
      "No init process found",
      "Kernel could not exec /sbin/init. Check ramdisk and init= boot arg.",
    )
    ∷ ("Root device not found", "Kernel cannot mount root filesystem. Use rd=md0 with a ramdisk.")
    ∷ ("Kernel trap at", "Hardware exception in kernel mode (GPF, invalid opcode, etc.).")
    ∷ (
      "spinlock timeout",
      "A spinlock was held too long. Likely infinite loop or deadlock in driver.",
    )
    ∷ ("stack overflow", "Kernel stack overflowed. Reduce recursion depth or increase stack size.")
    ∷ (
      "zone map exhausted", "Kernel memory allocator ran out of zone memory. Possible memory leak.",
    )
    ∷ ("assertion failed", "A kernel assertion (assert() / KERNEL_DEBUG_CONSTANT) triggered.")
    ∷ []

-- The explanation of the first that occurs in the text, in any case.
unfoldable pub find_in : List (String × String) → Text → Option String
find_in [] text = none
find_in ((key, explanation) ∷ more) text =
    if contains (lower (codes key)) (lower text) then some explanation else find_in more text

unfoldable pub find_known_panic : Text → Option String
find_known_panic text = find_in known_panics text

-- The variables of `parse_panic_log`.
pub record Report : Type 0 where
  pub in_backtrace : Bool
  pub panic_summary : List String
  pub backtrace_frames : List (Text × Text)
  pub kext_list : List (Text × Text)
  pub raw_panic_text : List Text

abbrev pub empty : Report
empty = record {
  in_backtrace = false;
  panic_summary = [];
  backtrace_frames = [];
  kext_list = [];
  raw_panic_text = [];
}

-- xs.append(x), if there is one.
abbrev pub append_some {ℓ} : {A : Type ℓ} → List A → Option A → List A
append_some xs none = xs
append_some xs (some x) = xs ++ x ∷ []

-- The start of a panic.
unfoldable pub announces : Text → Bool
announces line =
    contains (codes "panic(") (lower line) || contains (codes "kernel panic") (lower line)

unfoldable pub mentions_backtrace : Text → Bool
mentions_backtrace line = contains (codes "Backtrace") line || contains (codes "backtrace") line

unfoldable pub detect_panic : Report → Text → Report
detect_panic r line =
    if announces line
    then record r { raw_panic_text = r.raw_panic_text ++ line ∷ []; in_backtrace = false }
    else r

unfoldable pub collect_text : Report → Text → Report
collect_text r line =
    if not (is_empty r.raw_panic_text) && not r.in_backtrace
    then record r {
      raw_panic_text = r.raw_panic_text ++ line ∷ [];
      panic_summary = append_some r.panic_summary (find_known_panic line);
    }
    else r

-- The frame of a line, its symbol stripped.
unfoldable pub frame_of : Text → Option (Text × Text)
frame_of line = match_frame (strip line) >>= λ (addr, sym). some (addr, strip sym)

-- A line of the backtrace; a blank one ends it, once there are frames.
unfoldable pub parse_frame : Report → Text → Report
parse_frame r line =
    let r' = record r {
      backtrace_frames = append_some r.backtrace_frames (frame_of line);
      kext_list = append_some r.kext_list (search_kext line);
    } in
    if is_empty (strip line) && not (is_empty r'.backtrace_frames)
    then record r' { in_backtrace = false }
    else r'

unfoldable pub parse_backtrace : Report → Text → Report
parse_backtrace r line =
    if mentions_backtrace line
    then record r { in_backtrace = true }
    else if r.in_backtrace
    then parse_frame r line
    else r

-- One round of the loop.
unfoldable pub parse_line : Report → Text → Report
parse_line r line =
    parse_backtrace (collect_text (detect_panic r (rstrip line)) (rstrip line)) (rstrip line)

unfoldable pub parse_lines : Report → List Text → Report
parse_lines r [] = r
parse_lines r (line ∷ lines) = parse_lines (parse_line r line) lines

unfoldable pub parse_panic_log : List Text → Report
parse_panic_log lines = parse_lines empty lines
