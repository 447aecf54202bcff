-- ===== src/Mach/Message.antt =====
-- The header in memory, field by field, and the packing of its first field.
use ajulius.Prelude.{ℕ, ◌+◌, ◌*◌, ◌/◌, ◌<◌, ◌^◌, ◌≡◌, refl, ap, List, [], ◌∷◌, ◌++◌, arith, length}
use ajulius.Prelude.Bits.{bit_and_low, bit_or_field_right}
use ajulius.Types.{u32}
use ajulius.Machine.{World}
use ajulius.Machine.Memory.{MappedRange, Writes, Wrote-nil, Wrote-above}
use ajulius.Machine.Words.{word_bytes, length-word_bytes, store_word-Writes}
use ajulius.Mach.{
  Header, store_words, store_header, mach_msgh_bits, mach_msgh_bits_remote, mach_msgh_bits_local,
}

unfoldable pub words_bytes : List ℕ → List ℕ
words_bytes [] = []
words_bytes (v ∷ vs) = word_bytes 4 v ++ words_bytes vs

-- The 24 bytes of a header.
unfoldable pub header_bytes : Header → List ℕ
header_bytes h = words_bytes (
    h.msgh_bits ∷ h.msgh_size ∷ h.msgh_remote_port ∷ h.msgh_local_port ∷ h.msgh_voucher_port
    ∷ h.msgh_id ∷ [])

store_words-Writes :
    (vs : List ℕ) (w : World) (a : ℕ)
    → MappedRange w.memory a (4 * length vs)
    → Writes w a (words_bytes vs) tt (store_words a vs w)
unfolding store_words words_bytes
store_words-Writes [] w a h = (w.memory, refl, Wrote-nil w.memory a)
store_words-Writes (v ∷ vs) w a h =
    let (m, runs, wrote) = store_word-Writes 4 v w a (λ x lo hi. h x lo (omega arith)) in
    let (m', runs', wrote') =
      store_words-Writes vs (record w { memory = m }) (a + 4)
        (λ x lo hi. wrote.grows x (h x (omega arith) (omega arith))) in
    (
      m',
      rw (runs) runs',
      Wrote-above w.memory a (a + 4) (word_bytes 4 v) (words_bytes vs) m m'
          (ap (λ (t : ℕ). a + t) (length-word_bytes 4 v)) wrote wrote',
    )

-- The assignments leave the header's 24 bytes at the message's address.
pub store_header-Writes :
    (h : Header) (w : World) (a : ℕ)
    → MappedRange w.memory a 24
    → Writes w a (header_bytes h) tt (store_header a h w)
unfolding store_header header_bytes
store_header-Writes h w a mapped = store_words-Writes _ w a mapped

-- A field of up to eight bits each is got back from the packed bits.
pub mach_msgh_bits_lem :
    (remote local : ℕ)
    → remote < 2 ^ 8
    → local < 2 ^ 8
    → (mach_msgh_bits_remote (mach_msgh_bits remote local) ≡ remote)
      × (mach_msgh_bits_local (mach_msgh_bits remote local) ≡ local)
unfolding mach_msgh_bits mach_msgh_bits_remote mach_msgh_bits_local
mach_msgh_bits_lem remote local hr hl =
    let whole : u32 (local * 2 ^ 8) ≡ local * 2 ^ 8 = omega arith in
    rw
      (
        whole,
        bit_or_field_right 8 local remote hr,
        bit_and_low 8 (local * 2 ^ 8 + remote),
        bit_and_low 8 ((local * 2 ^ 8 + remote) / 2 ^ 8),
      )
      (omega arith, omega arith)

pub length-header_bytes : (h : Header) → length (header_bytes h) ≡ 24
unfolding header_bytes words_bytes word_bytes
length-header_bytes h = refl
