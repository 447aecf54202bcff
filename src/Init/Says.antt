-- ===== src/Init/Says.antt =====
-- What the calls below julius-init leave alone.
use ajulius.Prelude.{
  ℕ, ◌<◌, ◌≡◌, refl, ◌≢◌, ◌∙◌, ◌^◌, String, true, ne→==, List, [], ◌∷◌, ◌++◌, arith, length, codes,
}
use ajulius.Machine.{text, Memory, Regs, Call, Frame, Machine, World}
use ajulius.Machine.Memory.{MappedRange, Grows, no_nul}
use ajulius.Outcome.Returns
use ajulius.Outcome.Returns.{Ends, Returns, returns}
use ajulius.Io.{julius_puts, julius_put_hex}
use ajulius.Io.Puts.{HasBuffers, HasBuffers-Grows}
use ajulius.Io.Panic.{PrintsPanic, julius_panic-PrintsPanic}
use ajulius.Heap.Keeps.{Quiet, julius_puts-Quiet, julius_put_hex-Quiet}
use ajulius.Mach.Send.{after_call}
use mathlib.Core.List.{append_assoc}
use ajulius.Trace.{
  panic_report, PrintsPanic-Shows, Act, says, says_hex, IsSilent, Shows, Shows-append, nothing,
  silent,
}
use ajulius.Init.{put_value, check_fatal}
use ajulius.Xnu.{XnuLaws, kern_return}

-- From `w` to `w'` nothing was unmapped, the static variables kept their values, and the acts were
-- shown.
pub record Steady (acts : List Act) (w w' : World) : Type 0 where
  pub grows : Grows w.memory w'.memory
  pub base : w'.heap_base ≡ w.heap_base
  pub end : w'.heap_end ≡ w.heap_end
  pub ptr : w'.heap_ptr ≡ w.heap_ptr
  pub port : w'.g_bootstrap_port ≡ w.g_bootstrap_port
  pub shows : Shows acts w.calls w'.calls

pub Steady-refl : (w : World) → Steady [] w w
Steady-refl w = record {
  grows = λ x h. h;
  base = refl;
  end = refl;
  ptr = refl;
  port = refl;
  shows = nothing;
}

pub Steady-trans :
    {xs ys : List Act} (w v u : World) → Steady xs w v → Steady ys v u → Steady (xs ++ ys) w u
Steady-trans w v u p q = record {
  grows = λ x h. q.grows x (p.grows x h);
  base = q.base ∙ p.base;
  end = q.end ∙ p.end;
  ptr = q.ptr ∙ p.ptr;
  port = q.port ∙ p.port;
  shows = Shows-append p.shows q.shows;
}

pub Quiet-Steady :
    {acts : List Act} (e : Machine) (w v : World) → Quiet e acts w v → Steady acts w v
Quiet-Steady e w v q = record {
  grows = q.grows;
  base = q.base;
  end = q.end;
  ptr = q.ptr;
  port = q.port;
  shows = q.shows;
}

-- A silent system call that unmaps nothing.
pub call-Steady :
    (e : Machine) (w : World) (r : Regs)
    → IsSilent (record { regs = r; seen = w.memory })
    → Grows w.memory (e.kernel w.calls r w.memory).memory
    → Steady [] w (after_call e w r w.memory)
call-Steady e w r quiet g = record {
  grows = g;
  base = refl;
  end = refl;
  ptr = refl;
  port = refl;
  shows = silent quiet nothing;
}

-- All locals whose address is taken can be written.
pub record IsReady (f : Frame) (m : Memory) : Type 0 where
  pub buffers : HasBuffers f m
  pub name_mapped : MappedRange m f.port_name 4
  pub msg_mapped : MappedRange m f.msg 24
  pub reply_mapped : MappedRange m f.reply_msg 24

pub IsReady-Grows : (f : Frame) (m m' : Memory) → Grows m m' → IsReady f m → IsReady f m'
IsReady-Grows f m m' g h = record {
  buffers = HasBuffers-Grows f m m' g h.buffers;
  name_mapped = λ x lo hi. g x (h.name_mapped x lo hi);
  msg_mapped = λ x lo hi. g x (h.msg_mapped x lo hi);
  reply_mapped = λ x lo hi. g x (h.reply_mapped x lo hi);
}

-- A text that `julius_puts` prints whole.
pub record IsText (s : String) : Type 0 where
  pub clean : no_nul (codes s) ≡ true
  pub short : length (codes s) < 2 ^ 64

-- What `put_value` prints.
abbrev pub value_line : String → ℕ → List Act
value_line s v = says s ∷ says_hex v ∷ says "\r\n" ∷ []

-- The last call was number `nr`, and the kernel answered `kr`.
pub record Denied (e : Machine) (nr kr : ℕ) (w : World) : Type 0 where
  pub call : Call
  pub before : List Call
  pub last : w.calls ≡ call ∷ before
  pub asked : call.regs.rax ≡ nr
  pub answered : kern_return (e.kernel before call.regs call.seen) ≡ kr

-- After some acts and a call of number `nr` that was denied, the process has shown the text with
-- the kernel's answer, and panicked with the message.
pub record Fatal (e : Machine) (acts : List Act) (nr : ℕ) (s msg : String) (w w' : World)
    : Type 0 where
  pub kr : ℕ
  pub failed : kr ≢ 0
  pub at : World
  pub denied : Denied e nr kr at
  pub from : World
  pub prints : PrintsPanic e from msg w'
  pub shows : Shows (acts ++ (value_line s kr ++ panic_report msg)) w.calls w'.calls

pub Fatal-before :
    {xs ys : List Act} (e : Machine) (nr : ℕ) (s msg : String) (w v w' : World)
    → Shows xs w.calls v.calls
    → Fatal e ys nr s msg v w'
    → Fatal e (xs ++ ys) nr s msg w w'
Fatal-before {xs} {ys} e nr s msg w v w' before f = record {
  kr = f.kr;
  failed = f.failed;
  at = f.at;
  denied = f.denied;
  from = f.from;
  prints = f.prints;
  shows =
      rw (append_assoc xs ys (value_line s f.kr ++ panic_report msg)) (Shows-append before f.shows);
}

module _ (e : Machine) (laws : XnuLaws e.kernel) (w : World) where
  pub puts-Steady :
      (s : String)
      → no_nul (codes s) ≡ true
      → length (codes s) < 2 ^ 64
      → Returns (λ _. Steady (says s ∷ []) w) (julius_puts e (text s 0) w)
  puts-Steady s clean short =
      Returns.mono (julius_puts-Quiet e laws w s clean short) λ _ w' q. Quiet-Steady e w w' q

  pub put_hex-Steady :
      (v : ℕ)
      → HasBuffers e.frame w.memory
      → v < 2 ^ 60
      → Returns (λ _. Steady (says_hex v ∷ []) w) (julius_put_hex e v w)
  put_hex-Steady v has small =
      Returns.mono (julius_put_hex-Quiet e laws w v has small) λ _ w' q. Quiet-Steady e w w' q

module _ (e : Machine) (laws : XnuLaws e.kernel) where
  pub put_value-Steady :
      (w : World) (s : String) (v : ℕ)
      → IsText s
      → HasBuffers e.frame w.memory
      → v < 2 ^ 60
      → Returns (λ _. Steady (value_line s v) w) (put_value e s v w)
  unfolding put_value
  put_value-Steady w s v t has small =
      Returns.bind (puts-Steady e laws w s t.clean t.short) λ _ w1 q1.
        Returns.bind
          (put_hex-Steady e laws w1 v (HasBuffers-Grows e.frame w.memory w1.memory q1.grows has)
            small)
          λ _ w2 q2.
            Returns.bind (puts-Steady e laws w2 "\r\n" refl (omega arith))
              λ _ w3 q3. returns (Steady-trans w w1 w3 q1 (Steady-trans w1 w2 w3 q2 q3))

  -- After a call that was denied: the value is printed, and the process panics.
  pub check_fatal-Fatal :
      (w : World) (nr kr : ℕ) (s msg : String)
      → kr ≢ 0
      → kr < 2 ^ 32
      → Denied e nr kr w
      → IsText s
      → IsText msg
      → HasBuffers e.frame w.memory
      → Ends (λ _ _. ⊥) (Fatal e [] nr s msg w) (check_fatal e kr s msg w)
  unfolding check_fatal
  check_fatal-Fatal w nr kr s msg nz small d t u has = rw (ne→== kr 0 nz) (
      Returns.and_then (put_value-Steady w s kr t has (omega arith)) λ _ w1 q.
        Returns.widen (julius_panic-PrintsPanic e w1 msg u.clean u.short) λ w2 p. record {
          kr = kr;
          failed = nz;
          at = w;
          denied = d;
          from = w1;
          prints = p;
          shows = Shows-append q.shows (PrintsPanic-Shows e msg w1 w2 p);
        })
