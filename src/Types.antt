-- ===== src/Types.antt =====
-- libc/include/julius/types.h: the fixed-width integers, the constants and ALIGN.
-- A value of a w-bit type is a natural number below 2 ^ w, for a signed type the bit pattern in
-- two's complement. Every conversion and every wrap is written out.
use ajulius.Prelude.{ℕ, ◌+◌, ◌-◌, ◌%◌, ◌^◌, bit_and, Bool, ltb, if◌then◌else◌}

abbrev pub u8 : ℕ → ℕ
u8 n = n % 2 ^ 8

abbrev pub u32 : ℕ → ℕ
u32 n = n % 2 ^ 32

abbrev pub u64 : ℕ → ℕ
u64 n = n % 2 ^ 64

-- `~x` on 64 bits.
abbrev pub not64 : ℕ → ℕ
not64 x = 2 ^ 64 - 1 - x

-- `-x` on 64 bits.
abbrev pub neg64 : ℕ → ℕ
neg64 x = u64 (2 ^ 64 - x)

-- The sign bit of an `int` and of an `int64_t`.
abbrev pub is_negative32 : ℕ → Bool
is_negative32 x = ltb (2 ^ 31 - 1) x

abbrev pub is_negative64 : ℕ → Bool
is_negative64 x = ltb (2 ^ 63 - 1) x

-- `(long)x` of an `int`: the sign is extended.
abbrev pub long_of_int : ℕ → ℕ
long_of_int x = if is_negative32 x then x + 2 ^ 64 - 2 ^ 32 else x

abbrev pub mach_port_null : ℕ
mach_port_null = 0

abbrev pub kern_success : ℕ
kern_success = 0

abbrev pub kern_failure : ℕ
kern_failure = 5

abbrev pub mach_port_right_send : ℕ
mach_port_right_send = 0

abbrev pub mach_port_right_receive : ℕ
mach_port_right_receive = 1

abbrev pub mach_port_right_send_once : ℕ
mach_port_right_send_once = 2

abbrev pub mach_msg_type_make_send : ℕ
mach_msg_type_make_send = 20

abbrev pub mach_msg_type_move_send : ℕ
mach_msg_type_move_send = 17

abbrev pub mach_msg_type_copy_send : ℕ
mach_msg_type_copy_send = 19

abbrev pub vm_flags_anywhere : ℕ
vm_flags_anywhere = 1

-- `ALIGN(n, a)` for a `size_t n` and an `int a`.
unfoldable pub align : ℕ → ℕ → ℕ
align n a = bit_and (u64 (u64 (n + a) + 2 ^ 64 - 1)) (not64 (a - 1))
