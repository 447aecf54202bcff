-- ===== src/Serial/Objects.antt =====
-- The I/O Kit objects that the driver makes and releases, and the state of its fields.
use ajulius.Prelude.{
  ℕ, ◌+◌, ◌≡◌, refl, ◌≢◌, ◌∙◌, ◌⊎◌, Bool, true, false, ◌==◌, if◌then◌else◌, List, [], ◌∷◌, arith,
}
use ajulius.IoKit.{Event, Host, with_physical_address, map_descriptor, get_virtual_address, release}
use ajulius.Serial.{Driver}
use ajulius.Serial.Accesses.{is_plain, Extends, same, more}
use ajulius.Serial.Pl011.{Pl011}

-- A host that maps the registers of a PL011 at `base`.
pub record Mapping (h : Host) (base : ℕ) : Type 0 where
  pub real : base ≢ 0
  pub address : (es : List Event) (m : ℕ) → m ≢ 0 → h es (get_virtual_address m) ≡ base
  pub device : Pl011 h base

-- An event that answers with a new object.
unfoldable pub makes : Event → Bool
makes (with_physical_address a n dir) = true
makes (map_descriptor m) = true
makes _ = false

-- How often the object `p` was made, and released.
unfoldable pub made : Host → ℕ → List Event → ℕ
made h p [] = 0
made h p (e ∷ es) = made h p es + (if makes e then (if h es e == p then 1 else 0) else 0)

unfoldable pub freed : ℕ → List Event → ℕ
freed p [] = 0
freed p (release q ∷ es) = freed p es + (if q == p then 1 else 0)
freed p (_ ∷ es) = freed p es

-- Both fields are null, or they are the mapping and its address; and the driver owes exactly the
-- release of its mapping: every other object was released as often as it was made.
pub record IsValid (h : Host) (base : ℕ) (d : Driver) : Type 0 where
  pub fields : ((d.mmio_map ≡ 0) × (d.regs ≡ 0)) ⊎ ((d.mmio_map ≢ 0) × (d.regs ≡ base))
  pub owed :
      (p : ℕ) → p ≢ 0 → made h p d.events ≡ freed p d.events + (if d.mmio_map == p then 1 else 0)

plain-made :
    (h : Host) (p : ℕ) (e : Event) (es : List Event)
    → is_plain e ≡ true
    → (made h p (e ∷ es) ≡ made h p es) × (freed p (e ∷ es) ≡ freed p es)
unfolding made freed makes is_plain
plain-made h p (with_physical_address a n dir) es plain = absurd (cc)
plain-made h p (map_descriptor m) es plain = absurd (cc)
plain-made h p (release q) es plain = absurd (cc)
plain-made h p _ es plain = (omega arith, refl)

-- Plain events change nothing of this.
pub Extends-made :
    {es ts : List Event} (h : Host) (p : ℕ)
    → Extends es ts
    → (made h p ts ≡ made h p es) × (freed p ts ≡ freed p es)
Extends-made h p same = (refl, refl)
Extends-made h p (more {ts} e plain k) =
    let (m, f) = Extends-made h p k in let (m', f') = plain-made h p e ts plain in (m' ∙ m, f' ∙ f)

pub Extends-IsValid :
    (h : Host) (base : ℕ) (d d' : Driver)
    → Extends d.events d'.events
    → d'.mmio_map ≡ d.mmio_map
    → d'.regs ≡ d.regs
    → IsValid h base d
    → IsValid h base d'
Extends-IsValid h base d d' k map_same regs_same v = record {
  fields = rw (map_same, regs_same) v.fields;
  owed = λ p nz. let (m, f) = Extends-made h p k in rw (map_same, m, f) (v.owed p nz);
}
