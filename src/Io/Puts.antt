-- ===== src/Io/Puts.antt =====
-- What a call of the output functions hands to the kernel.
use ajulius.Prelude.{
  ℕ, zero, suc, ◌+◌, ◌≤◌, ◌<◌, ◌^◌, ◌≡◌, refl, ◌⊎◌, String, true, false, List, [], ◌∷◌, ◌++◌,
  length, codes,
}
use ajulius.Types.{u64}
use ajulius.Machine.{Value, word, text, ◌⊕◌, is_null, Memory, Regs, Frame, Machine, World, syscall}
use ajulius.Machine.Memory.{MappedRange, Holds, Grows, no_nul, IsCString, text-IsCString}
use ajulius.Outcome.Returns.{Returns, returns}
use ajulius.Syscall.{regs3, sys_write, julius_syscall3}
use ajulius.Strings.{rounds, strlen_loop, julius_strlen}
use ajulius.Strings.Length.{julius_strlen_lem}
use ajulius.Io.{str_len_loop, str_len, julius_write, julius_puts_fd, julius_puts}

str_len_loop-eq-strlen_loop : (f : ℕ) (s : Value) (n : ℕ) → str_len_loop f s n ≡ strlen_loop f s n
unfolding str_len_loop strlen_loop
str_len_loop-eq-strlen_loop zero s n = refl
str_len_loop-eq-strlen_loop (suc f) s n = rw (str_len_loop-eq-strlen_loop f s (u64 (n + 1)))

-- io.c's private `str_len` and mem.c's `julius_strlen` are the same function.
pub str_len-eq-julius_strlen : (s : Value) → str_len s ≡ julius_strlen s
unfolding str_len julius_strlen
str_len-eq-julius_strlen s = str_len_loop-eq-strlen_loop rounds s 0

-- The registers of `write(fd, buf, count)`.
abbrev pub write_regs : ℕ → Value → ℕ → Regs
write_regs fd buf n = regs3 sys_write (word fd) buf (word n)

-- An address outside the printers' arrays and the `addr` of the memory manager.
pub record IsOutside (f : Frame) (x : ℕ) : Type 0 where
  pub hex : (x < f.hex_buf) ⊎ (f.hex_buf + 18 ≤ x)
  pub dec : (x < f.dec_buf) ⊎ (f.dec_buf + 22 ≤ x)
  pub addr : (x < f.vm_addr) ⊎ (f.vm_addr + 8 ≤ x)

-- `w'` is `w` after one system call, a `write` to descriptor 2 of exactly the bytes `bs`, before
-- which only the printers' arrays may have been written.
pub record Prints (e : Machine) (w : World) (bs : List ℕ) (w' : World) : Type 0 where
  pub buf : Value
  pub seen : Memory
  pub shown : Holds seen buf bs
  pub after : w' ≡ record w {
    memory = (e.kernel w.calls (write_regs 2 buf (length bs)) seen).memory;
    calls = record { regs = write_regs 2 buf (length bs); seen = seen } ∷ w.calls;
  }
  pub grows : Grows w.memory seen
  pub outside : (x : ℕ) → IsOutside e.frame x → seen x ≡ w.memory x

Holds-prefix : (m : Memory) (p : Value) (xs ys : List ℕ) → Holds m p (xs ++ ys) → Holds m p xs
Holds-prefix m p [] ys h = tt
Holds-prefix m p (x ∷ xs) ys h = (h.0, Holds-prefix m (p ⊕ 1) xs ys h.1)

module _ (e : Machine) where
  -- On a terminated string that is not NULL, `julius_puts_fd` is one `write` of its bytes to
  -- the descriptor, without the zero.
  pub julius_puts_fd-julius_write :
      (w : World) (fd : ℕ) (s : Value) (bs : List ℕ)
      → is_null s ≡ false
      → IsCString w.memory s bs
      → length bs < 2 ^ 64
      → julius_puts_fd e fd s w ≡ julius_write e fd s (length bs) w
  unfolding julius_puts_fd
  julius_puts_fd-julius_write w fd s bs real h small =
      rw (real, str_len-eq-julius_strlen s, julius_strlen_lem w s bs h small)

  -- From a memory that the printers have prepared, `julius_puts` prints the string.
  pub julius_puts-Prints :
      (w : World) (m : Memory) (s : Value) (bs : List ℕ)
      → is_null s ≡ false
      → IsCString m s bs
      → length bs < 2 ^ 64
      → Grows w.memory m
      → ((x : ℕ) → IsOutside e.frame x → m x ≡ w.memory x)
      → Returns (λ _. Prints e w bs) (julius_puts e s (record w { memory = m }))
  unfolding julius_puts julius_write julius_syscall3 syscall
  julius_puts-Prints w m s bs real h small grows outside =
      rw (julius_puts_fd-julius_write (record w { memory = m }) 2 s bs real h small) (
        returns (record {
          buf = s;
          seen = m;
          shown = Holds-prefix m s bs (0 ∷ []) h.holds;
          after = refl;
          grows = grows;
          outside = outside;
        }))

  -- `julius_puts` of a literal without a zero inside makes one system call, a `write` of the
  -- literal's bytes to descriptor 2.
  pub julius_puts_text :
      (w : World) (s : String)
      → no_nul (codes s) ≡ true
      → length (codes s) < 2 ^ 64
      → Returns (λ _. Prints e w (codes s)) (julius_puts e (text s 0) w)
  julius_puts_text w s h small =
      julius_puts-Prints w w.memory (text s 0) (codes s) refl (text-IsCString w.memory s h) small
        (λ x k. k) (λ x k. refl)

-- The printers' arrays and `addr` can be written, and the arrays stand at no null address.
pub record HasBuffers (f : Frame) (m : Memory) : Type 0 where
  pub hex_real : 0 < f.hex_buf
  pub hex_mapped : MappedRange m f.hex_buf 18
  pub dec_real : 0 < f.dec_buf
  pub dec_mapped : MappedRange m f.dec_buf 22
  pub addr_mapped : MappedRange m f.vm_addr 8

pub HasBuffers-Grows : (f : Frame) (m m' : Memory) → Grows m m' → HasBuffers f m → HasBuffers f m'
HasBuffers-Grows f m m' g h = record {
  hex_real = h.hex_real;
  hex_mapped = λ x lo hi. g x (h.hex_mapped x lo hi);
  dec_real = h.dec_real;
  dec_mapped = λ x lo hi. g x (h.dec_mapped x lo hi);
  addr_mapped = λ x lo hi. g x (h.addr_mapped x lo hi);
}
