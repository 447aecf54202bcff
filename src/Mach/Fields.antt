-- ===== src/Mach/Fields.antt =====
-- The fields of a header that the kernel has put in memory, as the program reads them.
use ajulius.Prelude.{ℕ, ◌+◌, ◌*◌, ◌<◌, ◌^◌, ◌≡◌, List, [], ◌∷◌, ◌++◌, arith, length}
use ajulius.Machine.{word, Memory, World, ok}
use ajulius.Machine.Memory.{Holds}
use ajulius.Machine.Words.{load_word, word_bytes, load_word-ok}
use ajulius.Mach.{Header, remote_port_offset, id_offset}
use ajulius.Mach.Message.{words_bytes, header_bytes}

-- The word behind the words `us`.
words_field :
    (m : Memory) (a b : ℕ) (us vs : List ℕ) (v : ℕ)
    → b ≡ a + 4 * length us
    → Holds m (word a) (words_bytes (us ++ v ∷ vs))
    → Holds m (word b) (word_bytes 4 v)
unfolding words_bytes word_bytes
words_field m a b [] vs v e h =
    let k : b ≡ a = omega arith in rw k (h.0, (h.1.0, (h.1.1.0, (h.1.1.1.0, tt))))
words_field m a b (u ∷ us) vs v e h =
    words_field m (a + 1 + 1 + 1 + 1) b us vs v (omega arith) h.1.1.1.1

module _ (w : World) (a : ℕ) (h : Header) (shown : Holds w.memory (word a) (header_bytes h)) where
  pub load_word-remote_port :
      h.msgh_remote_port < 2 ^ 32
      → load_word 4 (word (a + remote_port_offset)) w ≡ ok h.msgh_remote_port w
  unfolding header_bytes
  load_word-remote_port small =
      load_word-ok 4 h.msgh_remote_port w (word (a + 8))
        (words_field w.memory a (a + 8) (h.msgh_bits ∷ h.msgh_size ∷ [])
          (h.msgh_local_port ∷ h.msgh_voucher_port ∷ h.msgh_id ∷ []) h.msgh_remote_port
          (omega arith) shown)
        (omega arith)

  pub load_word-id : h.msgh_id < 2 ^ 32 → load_word 4 (word (a + id_offset)) w ≡ ok h.msgh_id w
  unfolding header_bytes
  load_word-id small =
      load_word-ok 4 h.msgh_id w (word (a + 20))
        (words_field w.memory a (a + 20)
          (h.msgh_bits ∷ h.msgh_size ∷ h.msgh_remote_port ∷ h.msgh_local_port ∷ h.msgh_voucher_port
            ∷ [])
          [] h.msgh_id (omega arith) shown)
        (omega arith)
