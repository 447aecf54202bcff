-- ===== src/Trace.antt =====
-- What a run lets the world see: the writes to descriptor 2 and the messages sent, in order. All
-- other system calls are silent.
use ajulius.Syscall.Numbers.{mach_trap-ne, bsd_syscall-ne-mach_trap, bsd_syscall-eq-add}
use ajulius.Prelude.{
  arith, refl, sym, ◌∙◌, ◌<◌, ◌≤◌, ℕ, ◌≡◌, ◌≢◌, ◌⊎◌, inl, inr, some, String, List, [], ◌∷◌, ◌++◌,
  length, codes,
}
use ajulius.Machine.{Value, word, Call, Memory, Machine, World}
use ajulius.Machine.Memory.{Holds}
use ajulius.Syscall.{mach_trap, bsd_syscall, sys_write, trap_mach_msg_trap}
use ajulius.Io.Puts.{write_regs, Prints}
use ajulius.Io.Panic.{PrintsPanic}
use ajulius.Io.Numeral.{IsNumberText}
use ajulius.Mach.{Header, mach_send_msg, mach_rcv_msg, header_size}
use ajulius.Mach.Message.{header_bytes}
use ajulius.Mach.Send.{msg_regs}

-- A text printed by one write, a number in hexadecimal printed by one, or a simple message sent.
pub data Act : Type 0 where
  says : String → Act
  says_hex : ℕ → Act
  posts : Header → Act

-- A write of exactly these bytes to descriptor 2.
pub record IsWrite (bs : List ℕ) (c : Call) : Type 0 where
  pub buf : Value
  pub regs_eq : c.regs ≡ write_regs 2 buf (length bs)
  pub shown : Holds c.seen buf bs

-- A mach_msg that sends the message that consists of the header.
pub record IsPost (h : Header) (c : Call) : Type 0 where
  pub buf : ℕ
  pub regs_eq : c.regs ≡ msg_regs (word buf) mach_send_msg header_size 0 0
  pub shown : Holds c.seen (word buf) (header_bytes h)

abbrev pub Happens : Act → Call → Type 0
Happens (says s) c = IsWrite (codes s) c
Happens (says_hex v) c = (ds : List ℕ) × IsNumberText 16 v ds × IsWrite (b'0' ∷ b'x' ∷ ds) c
Happens (posts h) c = IsPost h c

-- A call that is no write, and if it is a mach_msg then one that only receives.
pub record IsSilent (c : Call) : Type 0 where
  pub no_write : c.regs.rax ≢ sys_write
  pub no_post : (c.regs.rax ≢ trap_mach_msg_trap) ⊎ (c.regs.rsi ≡ some (word mach_rcv_msg))

-- From the calls `cs` to the calls `ds`, the latest first, the acts happened, in this order, and
-- every other call was silent.
pub data Shows : List Act → List Call → List Call → Type 0 where
  nothing : {cs : List Call} → Shows [] cs cs
  silent :
      {acts : List Act} {c : Call} {cs ds : List Call}
      → IsSilent c
      → Shows acts (c ∷ cs) ds
      → Shows acts cs ds
  shown :
      {a : Act} {acts : List Act} {c : Call} {cs ds : List Call}
      → Happens a c
      → Shows acts (c ∷ cs) ds
      → Shows (a ∷ acts) cs ds

pub Shows-append :
    {xs ys : List Act} {cs ds es : List Call}
    → Shows xs cs ds
    → Shows ys ds es
    → Shows (xs ++ ys) cs es
Shows-append nothing q = q
Shows-append (silent s p) q = silent s (Shows-append p q)
Shows-append (shown h p) q = shown h (Shows-append p q)

pub mach_trap-IsSilent :
    (n : ℕ) (c : Call) → 0 < n → n ≤ 1000 → n ≢ 31 → c.regs.rax ≡ mach_trap n → IsSilent c
mach_trap-IsSilent n c pos small ne e = record {
  no_write = λ w. bsd_syscall-ne-mach_trap 4 n (omega arith) pos small (sym w ∙ e);
  no_post = inl (λ m. mach_trap-ne n 31 pos small (omega arith) (omega arith) ne (sym e ∙ m));
}

pub bsd_syscall-IsSilent :
    (n : ℕ) (c : Call) → n ≤ 1000 → n ≢ 4 → c.regs.rax ≡ bsd_syscall n → IsSilent c
bsd_syscall-IsSilent n c small ne e = record {
  no_write = λ w. ne (
      omega
        (arith, sym e ∙ w, bsd_syscall-eq-add n (omega arith), bsd_syscall-eq-add 4 (omega arith)));
  no_post = inl (λ m. bsd_syscall-ne-mach_trap n 31 small (omega arith) (omega arith) (sym e ∙ m));
}

pub receive-IsSilent :
    (out : Value) (port : ℕ) (m : Memory)
    → IsSilent (record { regs = msg_regs out mach_rcv_msg 0 header_size port; seen = m })
receive-IsSilent out port m = record {
  no_write = λ w. bsd_syscall-ne-mach_trap 4 31 (omega arith) (omega arith) (omega arith) (sym w);
  no_post = inr refl;
}

-- A write that was made is shown.
pub Prints-Shows :
    (e : Machine) (a : Act) (bs : List ℕ) (w w' : World)
    → ((c : Call) → IsWrite bs c → Happens a c)
    → Prints e w bs w'
    → Shows (a ∷ []) w.calls w'.calls
Prints-Shows e a bs w w' happens p =
    rw p.after (shown (happens _ (record { buf = p.buf; regs_eq = refl; shown = p.shown })) nothing)

-- What `julius_panic` shows.
abbrev pub panic_report : String → List Act
panic_report s = says "\n!!! JULIUS PANIC: " ∷ says s ∷ says "\n" ∷ []

pub PrintsPanic-Shows :
    (e : Machine) (s : String) (w w' : World)
    → PrintsPanic e w s w'
    → Shows (panic_report s) w.calls w'.calls
PrintsPanic-Shows e s w w' p =
    let line = λ (t : String) (v u : World) (q : Prints e v (codes t) u).
      Prints-Shows e (says t) (codes t) v u (λ c i. i) q in
    Shows-append (line "\n!!! JULIUS PANIC: " w p.w1 p.header)
      (Shows-append (line s p.w1 p.w2 p.message) (line "\n" p.w2 w' p.newline))
