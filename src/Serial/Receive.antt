-- ===== src/Serial/Receive.antt =====
-- `getChar`: the receive FIFO, one byte at a time.
use ajulius.Prelude.{
  ℕ, zero, suc, ◌+◌, ◌≡◌, refl, sym, ◌≢◌, ap, ◌∙◌, ◌⊎◌, inl, inr, ne→==, eq→==, Option, none, some,
  List, [], ◌∷◌, ◌++◌, arith,
}
use mathlib.Core.List.{append_assoc, append-nil}
use mathlib.Core.Path.{subst}
use ajulius.Outcome.{pure, ◌>>=◌}
use ajulius.Outcome.Returns
use ajulius.Outcome.Returns.{Returns, returns}
use ajulius.IoKit.{Event, Host, mmio_read}
use ajulius.Serial.{Driver, Method, pl011_dr, pl011_fr, rx_ready, get_char}
use ajulius.Serial.Accesses.{is_plain, Extends, same, more, after, reg_read-ok}
use ajulius.Serial.Pl011.{Pl011, taken, rest_of}

-- A list is empty or not.
pub list-cases : (xs : List ℕ) → (xs ≡ []) ⊎ ((b : ℕ) × (bs : List ℕ) × (xs ≡ b ∷ bs))
list-cases [] = inl refl
list-cases (b ∷ bs) = inr (b, bs, refl)

-- The bytes of a result.
abbrev pub given : Option ℕ → List ℕ
given none = []
given (some b) = b ∷ []

-- The fields are as before; the FIFO gave its first byte, or nothing if it was empty, and what the
-- device received meanwhile, nothing else, joined its end.
pub record Takes (d : Driver) (fifo received : List Event → List ℕ) (c : Option ℕ) (d' : Driver)
    : Type 0 where
  pub map_same : d'.mmio_map ≡ d.mmio_map
  pub regs_same : d'.regs ≡ d.regs
  pub base_same : d'.phys_base ≡ d.phys_base
  pub plain : Extends d.events d'.events
  pub empty : c ≡ none → fifo d.events ≡ []
  pub new : List ℕ
  pub arrived : received d'.events ≡ received d.events ++ new
  pub moved : given c ++ fifo d'.events ≡ fifo d.events ++ new

module _ (h : Host) where
  -- A read of another register takes nothing.
  pub flag_read :
      (regs : ℕ) (p : Pl011 h regs) (es : List Event)
      → taken regs (mmio_read (regs + pl011_fr)) (p.fifo es) ≡ p.fifo es
  unfolding taken
  flag_read regs p es = rw (ne→== (regs + pl011_fr) (regs + pl011_dr) (λ e. absurd (omega arith)))

  pub data_read :
      (regs : ℕ) (p : Pl011 h regs) (es : List Event)
      → taken regs (mmio_read (regs + pl011_dr)) (p.fifo es) ≡ rest_of (p.fifo es)
  unfolding taken
  data_read regs p es = rw (eq→== (regs + pl011_dr) (regs + pl011_dr) refl)

  -- With the registers of a PL011 mapped, `getChar` ends and leaves the fields alone. It returns
  -- false only if the receive FIFO was empty; otherwise it takes the first byte away, stores it and
  -- returns true. What arrived meanwhile stands behind what waits.
  pub get_char-Takes :
      (d : Driver) (p : Pl011 h d.regs)
      → d.regs ≢ 0
      → Returns (Takes d p.fifo p.received) (get_char h d)
  unfolding get_char rx_ready is_plain
  get_char-Takes d p real =
      let fr = mmio_read (d.regs + pl011_fr) in
      let dr = mmio_read (d.regs + pl011_dr) in
      let (n1, r1, a1) = p.arrives d.events (d.regs + pl011_fr) in
      let (n2, r2, a2) = p.arrives (fr ∷ d.events) (d.regs + pl011_dr) in
      let first = rw (flag_read d.regs p d.events) at a1 in
      let second = rw (data_read d.regs p (fr ∷ d.events)) at a2 in
      rw (ne→== d.regs 0 real, reg_read-ok h d real pl011_fr)
        (elim (list-cases (p.fifo d.events)) [
          | inl empty ↦ rw (p.empty_flag d.events empty) (
              returns (record {
                map_same = refl;
                regs_same = refl;
                base_same = refl;
                plain = more _ refl same;
                empty = λ e. empty;
                new = n1;
                arrived = r1;
                moved = first;
              }))
          | inr (b, bs, full) ↦
              let waits = first ∙ ap (λ (l : List ℕ). l ++ n1) full in
              rw
                (
                  p.data_flag d.events b bs full,
                  reg_read-ok h (after d fr) real pl011_dr,
                  p.data_byte (fr ∷ d.events) b (bs ++ n1) waits,
                )
                (returns (record {
                  map_same = refl;
                  regs_same = refl;
                  base_same = refl;
                  plain = more _ refl (more _ refl same);
                  empty = λ e. cc;
                  new = n1 ++ n2;
                  arrived = rw (r2, r1, append_assoc (p.received d.events) n1 n2);
                  moved = rw (second, waits, full, append_assoc bs n1 n2);
                }))
        ])

  -- A client that asks for a number of characters, one call after the other.
  unfoldable pub get_chars : ℕ → Method (List ℕ)
  get_chars zero = pure []
  get_chars (suc n) = do c ← get_char h; cs ← get_chars n; pure (given c ++ cs)

  -- With the registers of a PL011 mapped, any number of calls of `getChar` ends, and what they
  -- return, followed by what still waits, is what waited before, followed by what the
  -- device received meanwhile: no byte is lost, doubled, reordered or made up.
  pub get_chars-Fifo :
      (n : ℕ) (d : Driver) (regs : ℕ) (p : Pl011 h regs)
      → d.regs ≡ regs
      → regs ≢ 0
      → Returns
          (λ out d'.
            (new : List ℕ) × (p.received d'.events ≡ p.received d.events ++ new)
            × (out ++ p.fifo d'.events ≡ p.fifo d.events ++ new))
          (get_chars n d)
  unfolding get_chars
  get_chars-Fifo zero d regs p at real =
      returns ([], sym (append-nil (p.received d.events)), sym (append-nil (p.fifo d.events)))
  get_chars-Fifo (suc n) d regs p at real =
      Returns.bind (get_char-at d regs p at real) λ c v (at_v, new, arrived, moved).
        Returns.bind (get_chars-Fifo n v regs p at_v real) λ cs d' (new', arrived', moved').
          returns (
            new ++ new',
            rw (arrived', arrived, append_assoc (p.received d.events) new new'),
            rw (
              append_assoc (given c) cs (p.fifo d'.events),
              moved',
              ← append_assoc (given c) (p.fifo v.events) new',
              moved,
              append_assoc (p.fifo d.events) new new',
            ),
          )
    where
      get_char-at :
          (d : Driver) (regs : ℕ) (p : Pl011 h regs)
          → d.regs ≡ regs
          → regs ≢ 0
          → Returns
              (λ c v.
                (v.regs ≡ regs)
                × (new : List ℕ) × (p.received v.events ≡ p.received d.events ++ new)
                × (given c ++ p.fifo v.events ≡ p.fifo d.events ++ new))
              (get_char h d)
      get_char-at d regs p at real =
          subst
            (λ (r : ℕ).
              (q : Pl011 h r)
              → r ≢ 0
              → Returns
                  (λ c v.
                    (v.regs ≡ r)
                    × (new : List ℕ) × (q.received v.events ≡ q.received d.events ++ new)
                    × (given c ++ q.fifo v.events ≡ q.fifo d.events ++ new))
                  (get_char h d))
            at
            (λ q nz.
              Returns.mono (get_char-Takes d q nz)
                λ c v t. (t.regs_same, t.new, t.arrived, t.moved))
            p real
