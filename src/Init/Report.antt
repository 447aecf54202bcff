-- ===== src/Init/Report.antt =====
-- What PID 1 prints from its start to its service loop, or to a panic on the way.
use ajulius.Prelude.{ℕ, ◌≢◌, ◌==◌, if◌then◌else◌, List, [], ◌∷◌, ◌++◌}
use ajulius.Heap.Region.{heap_report}
use ajulius.Init.{banner}
use ajulius.Init.Says.{value_line}
use ajulius.Trace.{Act, says, says_hex, panic_report}

abbrev pub opening : List Act
opening = says banner ∷ says "init: PID 1 starting\r\n" ∷ []

abbrev pub self_line : ℕ → List Act
self_line self = value_line "init: mach_task_self() = " self

abbrev pub port_lines : ℕ → List Act
port_lines name =
    says "init: allocating bootstrap receive port...\r\n"
    ∷ value_line "init: bootstrap receive port = " name

-- What is printed of the kernel's answer to the registration, and after it.
abbrev pub warning : ℕ → List Act
warning kr =
    if kr == 0 then [] else value_line "init: WARNING: task_set_bootstrap_port failed, kr=" kr

abbrev pub set_report : ℕ → List Act
set_report kr = warning kr ++ says "init: bootstrap port established\r\n" ∷ []

abbrev pub self_test_report : ℕ → List Act
self_test_report a = says "init: malloc self-test OK (64 bytes at " ∷ says_hex a ∷ says ")\r\n" ∷ []

abbrev pub announcement : List Act
announcement =
    says "\r\ninit: all systems nominal. JULIUS OS is alive.\r\n\r\n"
    ∷ says "init: entering service loop (waiting for Mach messages)\r\n"
    ∷ []

-- The whole start: the heap's base, the task port, the bootstrap port, the answer to its
-- registration, and the address of the self-test's block.
abbrev pub boot_report : ℕ → ℕ → ℕ → ℕ → ℕ → List Act
boot_report base self name kr a =
    opening
    ++ (heap_report base
        ++ (self_line self
            ++ (port_lines name ++ (set_report kr ++ (self_test_report a ++ announcement)))))

-- The output of a start that ends in a panic.
pub data LastWords : List Act → Type 0 where
  no_heap : LastWords (opening ++ panic_report "mem_init: mach_vm_allocate failed")
  no_port :
      (base self kr : ℕ)
      → kr ≢ 0
      → LastWords (
          opening
          ++ (heap_report base
              ++ (self_line self
                  ++ (says "init: allocating bootstrap receive port...\r\n"
                      ∷ (value_line "init: FATAL: port_allocate failed, kr=" kr
                          ++ panic_report "cannot allocate bootstrap port")))))
  no_right :
      (base self name kr : ℕ)
      → kr ≢ 0
      → LastWords (
          opening
          ++ (heap_report base
              ++ (self_line self
                  ++ (port_lines name
                      ++ (value_line "init: FATAL: port_insert_right failed, kr=" kr
                          ++ panic_report "cannot insert send right")))))
  no_memory :
      (base self name kr : ℕ)
      → LastWords (
          opening
          ++ (heap_report base
              ++ (self_line self
                  ++ (port_lines name
                      ++ (set_report kr ++ panic_report "self-test: malloc returned NULL")))))
