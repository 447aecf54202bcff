-- ===== src/Strings.antt =====
-- The string and memory primitives of libc/src/mem.c, over byte memory.
-- A `while (n--)` loop recurs on the count. A loop that runs until a zero byte takes fuel; it is
-- given 2 ^ 64 rounds, one for each address there is.
pub mod Length
pub mod Copy
pub mod Compare
pub mod Copied
use ajulius.Prelude.{ℕ, zero, suc, ◌+◌, ◌-◌, ◌^◌, Bool, ◌==◌, ◌&&◌, not, if◌then◌else◌}
use ajulius.Types.{u8, u32, u64}
use ajulius.Machine.{Value, ◌⊕◌, Cmd, out_of_fuel, pure, ◌>>=◌, ◌>>◌, load, store}

unfoldable pub rounds : ℕ
rounds = 2 ^ 64

-- while (s[n]) n++;
unfoldable pub strlen_loop : ℕ → Value → ℕ → Cmd ℕ
strlen_loop zero s n = λ _. out_of_fuel
strlen_loop (suc fuel) s n = do
  c ← load (s ⊕ n)
  if c == 0 then pure n else strlen_loop fuel s (u64 (n + 1))

unfoldable pub julius_strlen : Value → Cmd ℕ
unfolding strlen_loop rounds load
julius_strlen s = strlen_loop rounds s 0

-- while (n--) *d++ = *s++;
unfoldable pub memcpy_loop : ℕ → Value → Value → Cmd (Unit {0})
memcpy_loop zero d s = pure tt
memcpy_loop (suc n) d s = do c ← load s; store d c; memcpy_loop n (d ⊕ 1) (s ⊕ 1)

unfoldable pub julius_memcpy : Value → Value → ℕ → Cmd Value
unfolding memcpy_loop load store
julius_memcpy dst src n = do memcpy_loop n dst src; pure dst

-- while (n--) *d++ = (char)c;
unfoldable pub memset_loop : ℕ → Value → ℕ → Cmd (Unit {0})
memset_loop zero d c = pure tt
memset_loop (suc n) d c = do store d (u8 c); memset_loop n (d ⊕ 1) c

unfoldable pub julius_memset : Value → ℕ → ℕ → Cmd Value
unfolding memset_loop store
julius_memset dst c n = do memset_loop n dst c; pure dst

-- `(int)a - (int)b` of two bytes.
abbrev pub int_sub : ℕ → ℕ → ℕ
int_sub a b = u32 (a + 2 ^ 32 - b)

-- The loop and the returns of `memcmp`.
unfoldable pub julius_memcmp : Value → Value → ℕ → Cmd ℕ
unfolding load
julius_memcmp p q zero = pure 0
julius_memcmp p q (suc n) = do
  x ← load p
  y ← load q
  if x == y then julius_memcmp (p ⊕ 1) (q ⊕ 1) n else pure (int_sub x y)

-- while (*a && *a == *b) { a++; b++; }, and the difference that is returned.
unfoldable pub strcmp_loop : ℕ → Value → Value → Cmd ℕ
strcmp_loop zero a b = λ _. out_of_fuel
strcmp_loop (suc fuel) a b = do
  x ← load a
  if x == 0
      then (do y ← load b; pure (int_sub x y))
      else do y ← load b; if x == y then strcmp_loop fuel (a ⊕ 1) (b ⊕ 1) else pure (int_sub x y)

unfoldable pub julius_strcmp : Value → Value → Cmd ℕ
unfolding strcmp_loop rounds load
julius_strcmp a b = strcmp_loop rounds a b

-- while ((*d++ = *src++));
unfoldable pub strcpy_loop : ℕ → Value → Value → Cmd (Unit {0})
strcpy_loop zero d s = λ _. out_of_fuel
strcpy_loop (suc fuel) d s = do
  c ← load s
  store d c
  if c == 0 then pure tt else strcpy_loop fuel (d ⊕ 1) (s ⊕ 1)

unfoldable pub julius_strcpy : Value → Value → Cmd Value
unfolding strcpy_loop rounds load store
julius_strcpy dst src = do strcpy_loop rounds dst src; pure dst
