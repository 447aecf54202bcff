-- ===== src/Serial/Text.antt =====
-- `putString`: what reaches the line, against the text with each newline turned into a carriage
-- return and a newline.
use ajulius.Prelude.{
  ℕ, zero, suc, ◌+◌, ◌<◌, ◌^◌, ◌≡◌, refl, sym, ◌≢◌, ◌∙◌, ◌⊎◌, inl, inr, Bool, true, false, ◌==◌,
  if◌then◌else◌, Bool-cases, eq→==, List, [], ◌∷◌, ◌++◌, All, arith,
}
use mathlib.Core.List.{append_assoc, append-nil}
use ajulius.Types.{u8}
use ajulius.Outcome.{pure, ok}
use ajulius.Outcome.Returns
use ajulius.Outcome.Returns.{Returns, returns}
use ajulius.IoKit.{Event, Host, mmio_read, io_delay}
use ajulius.Serial.{Driver, pl011_dr, pl011_fr, put_char, put_string}
use ajulius.Serial.Accesses.{is_plain, Extends, same, more, Extends-trans, written}
use ajulius.Serial.Transmit.{polls, has_room, Sent, Dropped, put_char-Sent, put_char_unmapped}

-- The text as it should go out.
unfoldable pub cooked : List ℕ → List ℕ
cooked [] = []
cooked (c ∷ s) = (if c == b'\n' then b'\r' ∷ [] else []) ++ c ∷ cooked s

-- The first list is the second with elements left out.
pub data Subsequence : List ℕ → List ℕ → Type 0 where
  done : Subsequence [] []
  keep : {x : ℕ} {xs ys : List ℕ} → Subsequence xs ys → Subsequence (x ∷ xs) (x ∷ ys)
  skip : {x : ℕ} {xs ys : List ℕ} → Subsequence xs ys → Subsequence xs (x ∷ ys)

Subsequence-append :
    {xs ys us vs : List ℕ}
    → Subsequence xs ys
    → Subsequence us vs
    → Subsequence (xs ++ us) (ys ++ vs)
Subsequence-append done q = q
Subsequence-append (keep p) q = keep (Subsequence-append p q)
Subsequence-append (skip p) q = skip (Subsequence-append p q)

-- Whenever the driver starts to wait, the transmit FIFO gets room in time.
abbrev pub Responsive : Host → ℕ → Type 0
Responsive h regs =
    (es : List Event)
    → (i : ℕ) × (i < 100000) × (has_room h (regs + pl011_fr) (polls (regs + pl011_fr) i es) ≡ true)

-- The fields are as before, and the values sent since are those.
pub record Sends (d : Driver) (out : List ℕ) (d' : Driver) : Type 0 where
  pub map_same : d'.mmio_map ≡ d.mmio_map
  pub regs_same : d'.regs ≡ d.regs
  pub base_same : d'.phys_base ≡ d.phys_base
  pub plain : Extends d.events d'.events
  pub sent : written (d.regs + pl011_dr) d'.events ≡ written (d.regs + pl011_dr) d.events ++ out

Sends-nil : (d : Driver) → Sends d [] d
Sends-nil d = record {
  map_same = refl;
  regs_same = refl;
  base_same = refl;
  plain = same;
  sent = sym (append-nil (written (d.regs + pl011_dr) d.events));
}

Sends-append :
    (d v u : Driver) (xs ys : List ℕ) → Sends d xs v → Sends v ys u → Sends d (xs ++ ys) u
Sends-append d v u xs ys p q = record {
  map_same = q.map_same ∙ p.map_same;
  regs_same = q.regs_same ∙ p.regs_same;
  base_same = q.base_same ∙ p.base_same;
  plain = Extends-trans p.plain q.plain;
  sent = rw (rw p.regs_same at q.sent, p.sent, append_assoc);
}

polls-Extends : (b n : ℕ) (es : List Event) → Extends es (polls b n es)
unfolding polls is_plain
polls-Extends b zero es = same
polls-Extends b (suc n) es =
    Extends-trans (more (io_delay 1) refl (more (mmio_read b) refl same))
      (polls-Extends b n (io_delay 1 ∷ mmio_read b ∷ es))

written-polls : (a b n : ℕ) (es : List Event) → written a (polls b n es) ≡ written a es
unfolding written polls
written-polls a b zero es = refl
written-polls a b (suc n) es = written-polls a b n (io_delay 1 ∷ mmio_read b ∷ es)

module _ (h : Host) (d : Driver) (c : ℕ) where
  Sent-Sends : (d' : Driver) → c < 2 ^ 8 → Sent h d c d' → Sends d (c ∷ []) d'
  unfolding written is_plain
  Sent-Sends d' byte s =
      let small : u8 c ≡ c = omega arith in
      rw s.wrote (record {
        map_same = refl;
        regs_same = refl;
        base_same = refl;
        plain = more _ refl (more _ refl (polls-Extends (d.regs + pl011_fr) s.polled d.events));
        sent = rw (
          eq→== (d.regs + pl011_dr) (d.regs + pl011_dr) refl,
          written-polls (d.regs + pl011_dr) (d.regs + pl011_fr) s.polled d.events,
          small,
        );
      })

  Dropped-Sends : (d' : Driver) → Dropped h d d' → Sends d [] d'
  unfolding written is_plain
  Dropped-Sends d' s = rw s.logged (record {
    map_same = refl;
    regs_same = refl;
    base_same = refl;
    plain = more _ refl (more _ refl (polls-Extends (d.regs + pl011_fr) 100000 d.events));
    sent =
        rw (written-polls (d.regs + pl011_dr) (d.regs + pl011_fr) 100000 d.events)
          (sym (append-nil (written (d.regs + pl011_dr) d.events)));
  })

module _ (h : Host) where
  -- What one character comes to: it is sent, or it is not and the FIFO stayed full.
  pub put_char-Sends :
      (d : Driver) (c : ℕ)
      → d.regs ≢ 0
      → c < 2 ^ 8
      → Returns
          (λ _ d'. (Sends d (c ∷ []) d' × Sent h d c d') ⊎ (Sends d [] d' × Dropped h d d'))
          (put_char h c d)
  put_char-Sends d c real byte = Returns.mono (put_char-Sent h d c real) λ _ d' o. elim o [
    | inl s ↦ inl (Sent-Sends h d c d' byte s, s)
    | inr s ↦ inr (Dropped-Sends h d c d' s, s)
  ]

  -- A device that is responsive never makes the driver drop a character.
  Responsive-not_Dropped : (d d' : Driver) → Responsive h d.regs → Dropped h d d' → ⊥
  Responsive-not_Dropped d d' r s = let (i, lt, room) = r d.events in let full = s.waited i lt in cc

  -- Every character of the text has its turn, in order: it is sent right after the first poll that
  -- finds room, or dropped after the last poll.
  pub data Transmits : Driver → List ℕ → Driver → Type 0 where
    nothing : {d : Driver} → Transmits d [] d
    char :
        {d v u : Driver} {c : ℕ} {bs : List ℕ}
        → Sent h d c v ⊎ Dropped h d v
        → Transmits v bs u
        → Transmits d (c ∷ bs) u

  Transmits-append :
      {d v u : Driver} {xs ys : List ℕ}
      → Transmits d xs v
      → Transmits v ys u
      → Transmits d (xs ++ ys) u
  Transmits-append nothing q = q
  Transmits-append (char o p) q = char o (Transmits-append p q)

  -- Every character has its turn, and what is written to the data register are those that were not
  -- dropped.
  unfoldable pub Prints : Driver → List ℕ → Driver → Type 0
  Prints d bs d' = Transmits d bs d' × (out : List ℕ) × Subsequence out bs × Sends d out d'

  Prints-append :
      (d v u : Driver) (xs ys : List ℕ) → Prints d xs v → Prints v ys u → Prints d (xs ++ ys) u
  unfolding Prints
  Prints-append d v u xs ys (t, os, sub, p) (t', us, sub', q) =
      (Transmits-append t t', os ++ us, Subsequence-append sub sub', Sends-append d v u os us p q)

  -- What holds of a character, and is handed on, holds of a text.
  put_string_rule :
      (P : Driver → List ℕ → Driver → Type 0) (r : ℕ)
      → ((d : Driver) → P d [] d)
      → ((d v u : Driver) (xs ys : List ℕ) → P d xs v → P v ys u → P d (xs ++ ys) u)
      → ((d : Driver) (c : ℕ)
          → d.regs ≡ r
          → c < 2 ^ 8
          → Returns (λ _ d'. P d (c ∷ []) d' × (d'.regs ≡ r)) (put_char h c d))
      → (s : List ℕ) (d : Driver) → d.regs ≡ r
      → All (λ c. c < 2 ^ 8) s
      → Returns (λ _ d'. P d (cooked s) d' × (d'.regs ≡ r)) (put_string h s d)
  unfolding put_string cooked
  put_string_rule P r nil append one [] d at_r bytes = returns (nil d, at_r)
  put_string_rule P r nil append one (c ∷ s) d at_r bytes =
      Returns.bind (return_first (c == b'\n')) λ _ v (p, at_v).
        Returns.bind (one v c at_v bytes.0) λ _ u (q, at_u).
          Returns.mono (put_string_rule P r nil append one s u at_u bytes.1) λ _ d' (k, at_d).
            (append d v d' _ (c ∷ cooked s) p (append v u d' (c ∷ []) (cooked s) q k), at_d)
    where
      return_first :
          (newline : Bool)
          → Returns
              (λ _ d'. P d (if newline then b'\r' ∷ [] else []) d' × (d'.regs ≡ r))
              ((if newline then put_char h b'\r' else pure tt) d)
      return_first true = one d b'\r' at_r (omega arith)
      return_first false = returns (nil d, at_r)

  -- With the registers mapped, whatever the device answers, `putString` of bytes ends and leaves
  -- the fields alone. The characters of the text, with each newline turned into a carriage return
  -- and a newline, have their turns in order and nothing else happens: each is written to the data
  -- register right after the first of at most 100000 polls that finds room, or, when none does,
  -- dropped and logged after one more poll. What is written are those that were not dropped.
  pub put_string-Prints :
      (s : List ℕ) (d : Driver)
      → d.regs ≢ 0
      → All (λ c. c < 2 ^ 8) s
      → Returns (λ _. Prints d (cooked s)) (put_string h s d)
  unfolding Prints
  put_string-Prints s d real bytes =
      Returns.mono
        (put_string_rule Prints d.regs (λ d. (nothing, [], done, Sends-nil d)) Prints-append
          (λ d c at_r byte.
            Returns.mono (put_char-Sends d c (λ z. real (sym at_r ∙ z)) byte) λ _ d' o. elim o [
              | inl (k, s) ↦ ((char (inl s) nothing, c ∷ [], keep done, k), k.regs_same ∙ at_r)
              | inr (k, s) ↦ ((char (inr s) nothing, [], skip done, k), k.regs_same ∙ at_r)
            ])
          s d refl bytes)
        λ _ d' k. k.0

  -- With the registers mapped and a device whose transmit FIFO gets room in time whenever the driver
  -- starts to wait, `putString` of bytes ends, leaves the fields alone, and writes to the data
  -- register exactly the text with each newline turned into a carriage return and a newline.
  pub put_string-Sends :
      (s : List ℕ) (d : Driver)
      → d.regs ≢ 0
      → Responsive h d.regs
      → All (λ c. c < 2 ^ 8) s
      → Returns (λ _. Sends d (cooked s)) (put_string h s d)
  put_string-Sends s d real responsive bytes =
      Returns.mono
        (put_string_rule Sends d.regs Sends-nil Sends-append
          (λ d' c at_r byte.
            Returns.mono (put_char-Sends d' c (λ z. real (sym at_r ∙ z)) byte) λ _ u o. elim o [
              | inl (k, _) ↦ (k, k.regs_same ∙ at_r)
              | inr (_, k) ↦ absurd (Responsive-not_Dropped d' u (rw at_r responsive) k)
            ])
          s d refl bytes)
        λ _ d' k. k.0

  -- With the registers not mapped it does nothing.
  pub put_string_unmapped : (s : List ℕ) (d : Driver) → d.regs ≡ 0 → put_string h s d ≡ ok tt d
  unfolding put_string
  put_string_unmapped [] d z = refl
  put_string_unmapped (c ∷ s) d z = elim (Bool-cases (c == b'\n')) [
    | inl e ↦
        rw (e, put_char_unmapped h d b'\r' z, put_char_unmapped h d c z) (put_string_unmapped s d z)
    | inr e ↦ rw (e, put_char_unmapped h d c z) (put_string_unmapped s d z)
  ]
