-- ===== src/Examples/Regions.antt =====
-- What the demonstration kernel answers to `mach_vm_allocate`.
use ajulius.Prelude.{
  ℕ, zero, suc, ◌+◌, ◌≤◌, ◌<◌, ◌^◌, ◌≡◌, refl, ◌∙◌, ◌⊎◌, inl, inr, Bool, true, false, ◌&&◌, not,
  ltb, ◌==◌, if◌then◌else◌, Bool-cases, Option, none, some, arith,
}
use ajulius.Machine.{Value, word, Memory, Reply}
use ajulius.Machine.Memory.{Mapped, Grows}
use ajulius.Machine.Words.{word_bytes}
use ajulius.Xnu.{Region, kern_return}

is_unmapped : Option ℕ → Bool
is_unmapped none = true
is_unmapped (some b) = false

all_unmapped : ℕ → ℕ → Memory → Bool
all_unmapped zero a m = true
all_unmapped (suc n) a m = is_unmapped (m a) && all_unmapped n (a + 1) m

all_unmapped_sound :
    (n a : ℕ) (m : Memory) (x : ℕ) → all_unmapped n a m ≡ true → a ≤ x → x < a + n → m x ≡ none
unfolding all_unmapped is_unmapped
all_unmapped_sound zero a m x h lo hi = absurd (omega arith)
all_unmapped_sound (suc n) a m x h lo hi = elim (Bool-cases (x == a)) [
  | inl e ↦ ground arith
  | inr e ↦ all_unmapped_sound n (a + 1) m x (ground arith) (ground arith) (omega arith)
]

-- Every region is at 2 ^ 32, whose bytes are 0 0 0 0 1 0 0 0.
with_region : ℕ → ℕ → Memory → Memory
with_region slot size m x =
    if x == slot + 4
    then some 1
    else if not (ltb x slot) && ltb x (slot + 8)
    then some 0
    else if not (ltb x (2 ^ 32)) && ltb x (2 ^ 32 + size)
    then some 0
    else m x

abbrev can_map : ℕ → Memory → Bool
can_map size m = ltb size (2 ^ 40) && all_unmapped size (2 ^ 32) m

pub give_region : Option Value → Option Value → Memory → Reply
give_region (some (word slot)) (some (word size)) m =
    if can_map size m
    then record { rax = 0; memory = with_region slot size m }
    else record { rax = 3; memory = m }
give_region _ _ m = record { rax = 4; memory = m }

with_region-cases :
    (slot size : ℕ) (m : Memory) (x : ℕ)
    → Mapped (with_region slot size m) x ⊎ (with_region slot size m x ≡ m x)
unfolding with_region
with_region-cases slot size m x = elim (Bool-cases (x == slot + 4)) [
  | inl e ↦ inl (1, rw e)
  | inr e ↦ rw e (elim (Bool-cases (not (ltb x slot) && ltb x (slot + 8))) [
    | inl i ↦ inl (0, rw i)
    | inr i ↦ rw i (elim (Bool-cases (not (ltb x (2 ^ 32)) && ltb x (2 ^ 32 + size))) [
      | inl j ↦ inl (0, rw j)
      | inr j ↦ rw j (inr refl)
    ])
  ])
]

with_region-Grows : (slot size : ℕ) (m : Memory) → Grows m (with_region slot size m)
with_region-Grows slot size m x h = elim (with_region-cases slot size m x) [
  | inl k ↦ k
  | inr e ↦ (h.0, e ∙ h.1)
]

pub give_region-Grows : (a b : Option Value) (m : Memory) → Grows m (give_region a b m).memory
unfolding give_region
give_region-Grows (some (word slot)) (some (word size)) m x h = elim (Bool-cases (can_map size m)) [
  | inl c ↦ rw c (with_region-Grows slot size m x h)
  | inr c ↦ rw c h
]
give_region-Grows _ _ m x h = h

with_region-same :
    (slot size : ℕ) (m : Memory) (x : ℕ)
    → all_unmapped size (2 ^ 32) m ≡ true
    → Mapped m x
    → (x < slot) ⊎ (slot + 8 ≤ x)
    → with_region slot size m x ≡ m x
unfolding with_region
with_region-same slot size m x clear h out =
    elim (Bool-cases (not (ltb x (2 ^ 32)) && ltb x (2 ^ 32 + size))) [
      | inl j ↦
          let e : m x ≡ none =
            all_unmapped_sound size (2 ^ 32) m x clear (ground arith) (ground arith) in
          let p : m x ≡ some h.0 = h.1 in cc
      | inr j ↦ ground arith
    ]

pub give_region-same :
    (slot size : ℕ) (m : Memory) (x : ℕ)
    → Mapped m x
    → (x < slot) ⊎ (slot + 8 ≤ x)
    → (give_region (some (word slot)) (some (word size)) m).memory x ≡ m x
unfolding give_region
give_region-same slot size m x h out = elim (Bool-cases (can_map size m)) [
  | inl c ↦ rw c (with_region-same slot size m x (ground arith) h out)
  | inr c ↦ rw c
]

in_region-Mapped :
    (slot size : ℕ) (m : Memory) (x : ℕ)
    → 2 ^ 32 ≤ x
    → x < 2 ^ 32 + size
    → Mapped (with_region slot size m) x
unfolding with_region
in_region-Mapped slot size m x lo hi = elim (Bool-cases (x == slot + 4)) [
  | inl e ↦ (1, rw e)
  | inr e ↦ rw e (elim (Bool-cases (not (ltb x slot) && ltb x (slot + 8))) [
    | inl i ↦ (0, rw i)
    | inr i ↦ rw i (0, ground arith)
  ])
]

-- The region is given only if nothing is mapped there, and then `kern_return` is zero.
with_region-Region :
    (slot size : ℕ) (m : Memory)
    → size < 2 ^ 40
    → all_unmapped size (2 ^ 32) m ≡ true
    → Region m slot size (with_region slot size m)
unfolding with_region word_bytes
with_region-Region slot size m small clear = record {
  base = 2 ^ 32;
  stored = (
    ground arith,
    (
      ground arith,
      (
        ground arith,
        (ground arith, (ground arith, (ground arith, (ground arith, (ground arith, tt))))),
      ),
    ),
  );
  aligned = omega arith;
  real = omega arith;
  in_space = omega arith;
  fresh = λ x lo hi. all_unmapped_sound size (2 ^ 32) m x clear lo hi;
  mapped = λ x lo hi. in_region-Mapped slot size m x lo hi;
}

pub give_region-Region :
    (slot size : ℕ) (m : Memory)
    → kern_return (give_region (some (word slot)) (some (word size)) m) ≡ 0
    → Region m slot size (give_region (some (word slot)) (some (word size)) m).memory
unfolding give_region
give_region-Region slot size m z = elim (Bool-cases (can_map size m)) [
  | inl c ↦ rw c (with_region-Region slot size m (ground arith) (ground arith))
  | inr c ↦ absurd (let k : ◌≡◌ {A = ℕ} 3 0 = rw c at z in omega arith)
]

-- And to `mach_vm_deallocate`.
unfoldable pub without : ℕ → ℕ → Memory → Memory
without a size m x = if not (ltb x a) && ltb x (a + size) then none else m x

unfoldable pub take_region : Option Value → Option Value → Memory → Reply
take_region (some (word a)) (some (word size)) m = record { rax = 0; memory = without a size m }
take_region _ _ m = record { rax = 4; memory = m }
