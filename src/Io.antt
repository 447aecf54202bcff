-- ===== src/Io.antt =====
-- libc/src/io.c: output through the `write` system call, the hexadecimal and decimal printers, and
-- the panic. The arrays `buf` of the printers stand at addresses of the frame.
pub mod Puts
pub mod Numeral
pub mod Hex
pub mod HexUnderflow
pub mod Panic
pub mod Dec
pub mod Least
use ajulius.Prelude.{
  ℕ, zero, suc, ◌+◌, ◌-◌, ◌/◌, ◌%◌, ◌^◌, bit_and, ◌&&◌, not, ltb, ◌==◌, if◌then◌else◌,
}
use ajulius.Types.{u8, u64, neg64, long_of_int, is_negative64}
use ajulius.Machine.{
  Value, word, text, ◌⊕◌, is_null, Machine, Cmd, fault, panicked, out_of_fuel, pure, ◌>>=◌, ◌>>◌,
  load, store,
}
use ajulius.Strings.{rounds}
use ajulius.Syscall.{julius_syscall3, sys_write, sys_read}

-- while (s[n]) n++;
unfoldable pub str_len_loop : ℕ → Value → ℕ → Cmd ℕ
str_len_loop zero s n = λ _. out_of_fuel
str_len_loop (suc fuel) s n = do
  c ← load (s ⊕ n)
  if c == 0 then pure n else str_len_loop fuel s (u64 (n + 1))

unfoldable pub str_len : Value → Cmd ℕ
str_len s = str_len_loop rounds s 0

-- "0123456789abcdef"[k]
abbrev pub hex_table : ℕ → Value
hex_table k = text "0123456789abcdef" k

-- while (v && i > 1) { buf[--i] = digits[v & 0xf]; v >>= 4; }, with `buf` at `b`; returns `i`.
unfoldable pub hex_loop : ℕ → ℕ → ℕ → Cmd ℕ
hex_loop b zero v = pure zero
hex_loop b (suc i) v =
    if not (v == 0) && ltb 1 (suc i)
    then (do d ← load (hex_table (bit_and v 0xf)); store (word (b + i)) d; hex_loop b i (v / 2 ^ 4))
    else pure (suc i)

-- `v / 10` and `v % 10` of an int64_t, both rounded towards zero.
abbrev pub div_ten : ℕ → ℕ
div_ten v = if is_negative64 v then neg64 (neg64 v / 10) else v / 10

abbrev pub mod_ten : ℕ → ℕ
mod_ten v = if is_negative64 v then neg64 (neg64 v % 10) else v % 10

-- `-v` of an int64_t, which is undefined for the least one.
unfoldable pub negate : ℕ → Cmd ℕ
negate v = if v == 2 ^ 63 then (λ _. fault) else pure (neg64 v)

-- while (v && i > 0) { buf[--i] = '0' + (int)(v % 10); v /= 10; }
unfoldable pub dec_loop : ℕ → ℕ → ℕ → Cmd ℕ
dec_loop b zero v = pure zero
dec_loop b (suc i) v =
    if v == 0
    then pure (suc i)
    else do store (word (b + i)) (u8 (48 + mod_ten v)); dec_loop b i (div_ten v)

module _ (e : Machine) where
  unfoldable pub julius_write : ℕ → Value → ℕ → Cmd ℕ
  julius_write fd buf count = julius_syscall3 e sys_write (word (long_of_int fd)) buf (word count)

  unfoldable pub julius_read : ℕ → Value → ℕ → Cmd ℕ
  julius_read fd buf count = julius_syscall3 e sys_read (word (long_of_int fd)) buf (word count)

  unfoldable pub julius_puts_fd : ℕ → Value → Cmd ℕ
  julius_puts_fd fd s = if is_null s then pure 0 else do len ← str_len s; julius_write fd s len

  unfoldable pub julius_puts : Value → Cmd ℕ
  julius_puts s = julius_puts_fd 2 s

  -- The address of `buf[--i]` is that of `buf[i]` less one: `buf[-1]` is the byte below the array.
  unfoldable pub julius_put_hex : ℕ → Cmd (Unit {0})
  julius_put_hex v =
      let b = e.frame.hex_buf in
      do
        store (word (b + 17)) 0
        if v == 0 then (do julius_puts (text "0x0" 0); pure tt) else do
          i ← hex_loop b 17 v
          store (word (b + i - 1)) b'x'
          store (word (b + i - 2)) b'0'
          julius_puts (word (b + i - 2))
          pure tt

  unfoldable pub julius_put_dec : ℕ → Cmd (Unit {0})
  julius_put_dec v =
      let b = e.frame.dec_buf in
      let neg = is_negative64 v in
      do
        store (word (b + 21)) 0
        v' ← if neg then negate v else pure v
        if v' == 0 then (do julius_puts (text "0" 0); pure tt) else do
          i ← dec_loop b 21 v'
          if neg
              then (do store (word (b + i - 1)) b'-'; julius_puts (word (b + i - 1)); pure tt)
              else (do julius_puts (word (b + i)); pure tt)

  -- The `ud2` at the end stops the process; nothing follows it.
  unfoldable pub julius_panic : Value → Cmd (Unit {0})
  julius_panic msg = do
    julius_puts (text "\n!!! JULIUS PANIC: " 0)
    julius_puts msg
    julius_puts (text "\n" 0)
    panicked
