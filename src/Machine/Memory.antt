-- ===== src/Machine/Memory.antt =====
-- Ranges of bytes in memory, and what a run of stores leaves there.
use ajulius.Prelude.{
  Option, none, ℕ, suc, ◌+◌, ◌≤◌, ◌<◌, ◌≡◌, refl, sym, ap, ◌∙◌, ◌≢◌, ◌⊎◌, inl, inr, String, Bool,
  true, ◌&&◌, not, some, List, [], ◌∷◌, ◌++◌, arith, ◌==◌, Bool-cases, ne→==, length, length-append,
  get_elem?, codes,
}
use ajulius.Machine.{Value, word, text, ◌⊕◌, Memory, update, byte_at, World, Run, ok, load, store}
use mathlib.Core.List.{append_assoc}
use native.Mathlib.Numerals.{add-one}

-- The bytes `bs` stand at `p`.
abbrev pub Holds : Memory → Value → List ℕ → Type 0
Holds m p [] = Unit
Holds m p (b ∷ bs) = (byte_at m p ≡ some b) × Holds m (p ⊕ 1) bs

-- An address can be read and written.
abbrev pub Mapped : Memory → ℕ → Type 0
Mapped m a = (b : ℕ) × (m a ≡ some b)

abbrev pub MappedRange : Memory → ℕ → ℕ → Type 0
MappedRange m a n = (x : ℕ) → a ≤ x → x < a + n → Mapped m x

-- Everything mapped stays so.
abbrev pub Grows : Memory → Memory → Type 0
Grows m m' = (x : ℕ) → Mapped m x → Mapped m' x

-- `m'` is `m` with the bytes `bs` at `a`.
pub record Wrote (m : Memory) (a : ℕ) (bs : List ℕ) (m' : Memory) : Type 0 where
  pub holds : Holds m' (word a) bs
  pub outside : (x : ℕ) → (x < a) ⊎ (a + length bs ≤ x) → m' x ≡ m x
  pub grows : Grows m m'

-- The run returns `r`, writes `bs` at `a` and changes nothing else.
abbrev pub Writes : {A : Type 0} → World → ℕ → List ℕ → A → Run A → Type 0
Writes w a bs r run = (m : Memory) × (run ≡ ok r (record w { memory = m })) × Wrote w.memory a bs m

abbrev pub no_nul : List ℕ → Bool
no_nul [] = true
no_nul (b ∷ bs) = not (b == 0) && no_nul bs

-- At `p` stands the string `bs`, with its terminating zero.
pub record IsCString (m : Memory) (p : Value) (bs : List ℕ) : Type 0 where
  pub holds : Holds m p (bs ++ 0 ∷ [])
  pub ends_first : no_nul bs ≡ true

pub ⊕-zero : (p : Value) → p ⊕ 0 ≡ p
⊕-zero (word a) = ap word (omega arith)
⊕-zero (text s i) = ap (text s) (omega arith)

pub ⊕_assoc : (p : Value) (i j k : ℕ) → i + j ≡ k → p ⊕ i ⊕ j ≡ p ⊕ k
⊕_assoc (word a) i j k e = ap word (omega arith)
⊕_assoc (text s a) i j k e = ap (text s) (omega arith)

pub load-ok : (w : World) (p : Value) {b : ℕ} → byte_at w.memory p ≡ some b → load p w ≡ ok b w
unfolding load
load-ok w p h = rw (h, load)

pub store-ok :
    (w : World) (a b : ℕ)
    → Mapped w.memory a
    → store (word a) b w ≡ ok tt (record w { memory = update w.memory a b })
unfolding store
store-ok w a b h = rw (h.1, store)

pub update_self : (m : Memory) (a b : ℕ) → update m a b a ≡ some b
update_self m a b = ground arith

pub update_ne : (m : Memory) (a b x : ℕ) → x ≢ a → update m a b x ≡ m x
update_ne m a b x ne = rw (ne→== x a ne)

pub Mapped-update : (m : Memory) (a b x : ℕ) → Mapped m x → Mapped (update m a b) x
Mapped-update m a b x h = elim (Bool-cases (x == a)) [ inl e ↦ (b, rw e) | inr e ↦ (h.0, rw e h.1) ]

pub MappedRange-update :
    (m : Memory) (a b p n : ℕ) → MappedRange m p n → MappedRange (update m a b) p n
MappedRange-update m a b p n h x lo hi = Mapped-update m a b x (h x lo hi)

-- A range held survives any change elsewhere.
pub Holds_same :
    (m m' : Memory) (p : Value) (bs : List ℕ)
    → ((i : ℕ) → i < length bs → byte_at m' (p ⊕ i) ≡ byte_at m (p ⊕ i))
    → Holds m p bs
    → Holds m' p bs
Holds_same m m' p [] same h = tt
Holds_same m m' p (b ∷ bs) same h = (
  rw (← ⊕-zero p) (same 0 (omega arith) ∙ rw (⊕-zero p) h.0),
  Holds_same m m' (p ⊕ 1) bs
      (λ i lt. rw (⊕_assoc p 1 i (suc i) (omega arith)) (same (suc i) (omega arith))) h.1,
)

pub Holds-append :
    (m : Memory) (p : Value) (xs ys : List ℕ)
    → Holds m p xs
    → Holds m (p ⊕ length xs) ys
    → Holds m p (xs ++ ys)
Holds-append m p [] ys h k = rw (⊕-zero p) at k
Holds-append m p (x ∷ xs) ys h k = (
  h.0,
  Holds-append m (p ⊕ 1) xs ys h.1 (rw (⊕_assoc p 1 (length xs) (suc (length xs)) (omega arith)) k),
)

get_elem?-append_length :
    (xs : List ℕ) (y : ℕ) (ys : List ℕ) → get_elem? (xs ++ y ∷ ys) (length xs) ≡ some y
get_elem?-append_length [] y ys = refl
get_elem?-append_length (x ∷ xs) y ys = get_elem?-append_length xs y ys

-- A literal holds its bytes and a zero, in every memory.
text-Holds_suffix :
    (m : Memory) (s : String) (xs ys : List ℕ) (i : ℕ)
    → codes s ++ 0 ∷ [] ≡ xs ++ ys
    → i ≡ length xs
    → Holds m (text s i) ys
text-Holds_suffix m s xs [] i e at_xs = tt
text-Holds_suffix m s xs (y ∷ ys) i e at_xs = (
  rw (e, at_xs) (get_elem?-append_length xs y ys),
  text-Holds_suffix m s (xs ++ y ∷ []) ys (i + 1) (e ∙ sym (append_assoc xs (y ∷ []) ys))
      (omega (arith, at_xs, length-append xs (y ∷ []))),
)

pub text-IsCString :
    (m : Memory) (s : String) → no_nul (codes s) ≡ true → IsCString m (text s 0) (codes s)
text-IsCString m s h = record {
  holds = text-Holds_suffix m s [] (codes s ++ 0 ∷ []) 0 refl refl;
  ends_first = h;
}

pub Wrote-nil : (m : Memory) (a : ℕ) → Wrote m a [] m
Wrote-nil m a = record { holds = tt; outside = λ x h. refl; grows = λ x h. h }

-- A byte stored below what stands there already.
pub Wrote-cons_below :
    (m : Memory) (a b : ℕ) (bs : List ℕ) (m' : Memory)
    → Wrote m (suc a) bs m'
    → Wrote m a (b ∷ bs) (update m' a b)
Wrote-cons_below m a b bs m' h = record {
  holds = (
    update_self m' a b,
    Holds_same m' _ (word (a + 1)) bs (λ i lt. update_ne m' a b _ (omega arith))
        (rw add-one h.holds),
  );
  outside = λ x out. update_ne m' a b x (omega arith) ∙ h.outside x (ground arith);
  grows = λ x old. Mapped-update m' a b x (h.grows x old);
}

-- A byte stored before those above it.
pub Wrote-cons :
    (m : Memory) (a b : ℕ) (bs : List ℕ) (m' : Memory)
    → Wrote (update m a b) (a + 1) bs m'
    → Wrote m a (b ∷ bs) m'
Wrote-cons m a b bs m' h = record {
  holds = (h.outside a (inl (omega arith)) ∙ update_self m a b, h.holds);
  outside = λ x out. h.outside x (ground arith) ∙ update_ne m a b x (omega arith);
  grows = λ x old. h.grows x (Mapped-update m a b x old);
}

-- A byte stored above those that are written below it afterwards.
pub Wrote-snoc :
    (m : Memory) (a top c : ℕ) (bs : List ℕ) (m' : Memory)
    → a + length bs ≡ top
    → Wrote (update m top c) a bs m'
    → Wrote m a (bs ++ c ∷ []) m'
Wrote-snoc m a top c bs m' e h = record {
  holds =
      Holds-append m' (word a) bs (c ∷ []) h.holds
        (rw e (h.outside top (inr (omega arith)) ∙ update_self m top c), tt);
  outside = λ x out.
      h.outside x (ground (arith, length-append bs (c ∷ [])))
      ∙ update_ne m top c x (ground (arith, length-append bs (c ∷ [])));
  grows = λ x old. h.grows x (Mapped-update m top c x old);
}

pub Wrote-one : (m : Memory) (a b : ℕ) → Wrote m a (b ∷ []) (update m a b)
Wrote-one m a b = Wrote-cons m a b [] (update m a b) (Wrote-nil (update m a b) (a + 1))

-- What is written below what stands there, as one piece.
pub Wrote-append :
    (m : Memory) (a n : ℕ) (xs ys : List ℕ) (m1 m2 : Memory)
    → a + length xs ≡ n
    → Wrote m n ys m1
    → Wrote m1 a xs m2
    → Wrote m a (xs ++ ys) m2
Wrote-append m a n xs ys m1 m2 e h k = record {
  holds =
      Holds-append m2 (word a) xs ys k.holds (
        rw e
          (Holds_same m1 m2 (word n) ys (λ i lt. k.outside (n + i) (inr (omega arith))) h.holds));
  outside = λ x out.
      k.outside x (ground (arith, length-append xs ys))
      ∙ h.outside x (ground (arith, length-append xs ys));
  grows = λ x old. k.grows x (h.grows x old);
}

-- What is not mapped afterwards was not mapped before.
pub unmapped_before : (m m' : Memory) (x : ℕ) → Grows m m' → m' x ≡ none → m x ≡ none
unmapped_before m m' x g h = go (m x) refl
  where
    go : (o : Option ℕ) → m x ≡ o → m x ≡ none
    go none e = e
    go (some b) e = let (c, k) = g x (b, e) in cc

-- What is written above what has just been written, as one piece.
pub Wrote-above :
    (m : Memory) (a n : ℕ) (xs ys : List ℕ) (m1 m2 : Memory)
    → a + length xs ≡ n
    → Wrote m a xs m1
    → Wrote m1 n ys m2
    → Wrote m a (xs ++ ys) m2
Wrote-above m a n xs ys m1 m2 e h k = record {
  holds =
      Holds-append m2 (word a) xs ys
        (Holds_same m1 m2 (word a) xs (λ i lt. k.outside (a + i) (inl (omega arith))) h.holds)
        (rw e k.holds);
  outside = λ x out.
      k.outside x (ground (arith, length-append xs ys))
      ∙ h.outside x (ground (arith, length-append xs ys));
  grows = λ x old. k.grows x (h.grows x old);
}
