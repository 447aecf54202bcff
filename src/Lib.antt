-- ===== src/Lib.antt =====
-- JULIUS OS: julius-libc and julius-init, the first process on an XNU kernel.
--
-- The program. `libc` is a small C library without an operating system below it but XNU: raw
-- system calls (libc/include/julius/syscall.h), output and panic (libc/src/io.c), a heap and the
-- memory primitives (libc/src/mem.c), Mach ports and messages (libc/src/mach.c). `init`
-- (init/src/main.c) is the only program on it: it prints a banner, sets the heap up, establishes
-- the bootstrap port, tests the heap, and serves Mach messages for ever. The kernel extension
-- kexts/JuliusSerial is the driver of the serial port, a PL011, that the console ends at; it is
-- called by I/O Kit and shares no code with the rest. The entry point of the process is
-- init/src/start.s. tools/panic-parse.py reads the log of a kernel panic, on the developer's
-- machine.
--
-- The model. libc and init run on one state, `Machine.World`: memory byte by byte, unmapped addresses
-- included; the system calls made so far, with the registers and the memory the kernel saw; and
-- the static variables of mem.c and main.c. A C function is a command, a function from a world to a
-- `Run`: a result and a world, a panic (the `ud2` of julius_panic), a fault (an access that is not
-- mapped, a write to a literal, or an operation on values for which C leaves it undefined: the
-- negation of the least int64_t, a division by zero), or out of fuel. C integers are natural numbers with the
-- wrap-around written out; negative numbers are in two's complement. The driver's methods are
-- actions of the same kind over `Serial.Driver`: the object's fields, and the events so far, which
-- are its register accesses and its calls of I/O Kit.
--
--   Outcome    what an action comes to, and the rules for total correctness
--   Types      libc/include/julius/types.h: widths, ALIGN, the constants
--   Machine    memory, calls, runs; the rules for memory below it
--   Syscall    libc/include/julius/syscall.h: numbers, registers, the port getters
--   Strings    libc/src/mem.c: julius_strlen, memcpy, memset, memcmp, strcmp, strcpy
--   Io         libc/src/io.c: write, read, puts, put_hex, put_dec, panic
--   Heap       libc/src/mem.c: mach_vm_allocate, mem_init, malloc, free, calloc; Heap.Session has
--              any sequence of calls
--   Mach       libc/src/mach.c and libc/include/julius/mach.h: port traps, headers, send, receive
--   Init       init/src/main.c: the bootstrap port, the service loop, the start; Init.Protocol has
--              the server that the loop is compared with, Init.Report the output of the start,
--              Init.Boot the phases of the start, Init.Deaths where it ends early; Init.Entry is
--              init/src/start.s
--   Serial     kexts/JuliusSerial/include/JuliusSerial.h and kexts/JuliusSerial/src/JuliusSerial.cpp:
--              registers, divisors and the serial methods; Serial.Service has start, stop, message
--   PanicLog   tools/panic-parse.py: the parse of a log, line by line; PanicLog.Patterns has the string
--              methods and regular expressions, written out for ASCII text
--   IoKit      what the driver calls: I/O Kit and the device registers
--   Trace      what a run shows: its writes to descriptor 2 and the messages sent, in order
--   Xnu        the interface to the kernel: what the code relies on of XNU's system calls
--   Examples   a kernel and a device that meet the interfaces, and runs on them
--   Prelude    tests on numbers, lists, bits, UTF-8
--
-- The kernel is a parameter: any function from the calls so far, the registers and the memory to a
-- result and a new memory. Where a result depends on what XNU does, the laws are the records
-- `Xnu.XnuLaws`, `Xnu.PortLaws` and `Xnu.VmLaws`; they state the documented effect of each call on the caller's
-- memory, and leave the kernel free to refuse. The compiler's choice of addresses for the locals
-- whose address is taken is a parameter too, `Machine.Frame`; nothing is assumed of how they lie
-- but that they are mapped, and that the printers' arrays are not at address 0. For the driver the
-- parameter is an `IoKit.Host`, which answers every event as a function of those before; what it
-- must satisfy is `Serial.Pl011.Pl011`, the receive side of the chip, and
-- `Serial.Objects.Mapping`, that a mapping has an address. Host and device may refuse, stay busy, or
-- deliver characters at any time.
--
-- Loops. The loops on strings run on 2 ^ 64 rounds, the number of values of a size_t, and a string
-- that is terminated within the address space needs fewer. The digit loops recur on the index into
-- their array. The service loop has no end; it is followed for any number of rounds, after which
-- the run stands at `out_of_fuel`. The driver's two waits count down from 100000. Its loop that
-- clears the receive FIFO is bounded only by the device; it takes fuel, and 34 rounds are enough,
-- since the FIFO has 32 places, and a device that is turned off completes at most the character
-- that it is receiving: 33 rounds that take a byte each, and the one that finds the FIFO empty.
--
-- Not modelled: the build and QEMU scripts and tools/check-env.sh; the report that panic-parse.py
-- prints, its command line and the symbolizers that it runs; characters beyond ASCII in its logs.
-- All C and C++ code of the repository is modelled; what is left of the headers is type names,
-- prototypes, compiler attributes and constants that no code uses. Signals, threads and the seventh
-- argument of mach_msg, which the code does not pass, have no counterpart.
pub mod PanicLog
pub mod Prelude
pub mod Types
pub mod Outcome
pub mod Machine
pub mod Strings
pub mod Syscall
pub mod Io
pub mod Heap
pub mod Mach
pub mod Trace
pub mod Xnu
pub mod Init
pub mod IoKit
pub mod Serial
pub mod Examples
