-- ===== src/Serial/Base.antt =====
-- `start` up to the mapping: the address that the `reg` property gives, or the default.
use ajulius.Prelude.{
  String, ℕ, ◌≡◌, refl, ◌≢◌, ◌<◌, ◌≤◌, inl, inr, ltb, Bool-cases, ==→eq, ==→ne, ltb→lt, ltb→le,
  ◌==◌, ◌∷◌, List, [],
}
use ajulius.Types.{u32, u64}
use ajulius.Outcome.Returns.{Returns, returns}
use ajulius.IoKit.{
  Event, Host, io_log, get_property, cast_to_data, get_length, get_bytes_no_copy, load_qword,
}
use ajulius.Serial.{Driver}
use ajulius.Serial.Accesses.{is_plain, Extends, same, more}
use ajulius.Serial.Service.{has_address, find_base}

-- The fields but the base address are as before, and only plain events came.
pub record Asks (d d' : Driver) : Type 0 where
  pub map_same : d'.mmio_map ≡ d.mmio_map
  pub regs_same : d'.regs ≡ d.regs
  pub extends : Extends d.events d'.events

module _ (h : Host) (provider : ℕ) (d : Driver) where
  -- The events of the lookup, and the answers: the property, its length, its bytes, their value.
  abbrev property : ℕ
  property = h d.events (get_property provider "reg")

  abbrev cast : List Event
  cast = cast_to_data property ∷ get_property provider "reg" ∷ d.events

  abbrev reg_data : ℕ
  reg_data = h (get_property provider "reg" ∷ d.events) (cast_to_data property)

  abbrev sized : List Event
  sized = get_length reg_data ∷ cast

  abbrev reg_length : ℕ
  reg_length = u32 (h cast (get_length reg_data))

  abbrev located : List Event
  located = get_bytes_no_copy reg_data ∷ sized

  abbrev bytes : ℕ
  bytes = h sized (get_bytes_no_copy reg_data)

  abbrev device_tree_base : ℕ
  device_tree_base = u64 (h located (load_qword bytes))

  -- The driver with a base address, after some events and the line about it.
  abbrev settled : ℕ → String → List Event → Driver
  settled base line es = record d { phys_base = base; events = io_log line (base ∷ []) ∷ es }

  -- Without data, or with less than eight bytes of it, the default; else the first eight bytes.
  pub data BaseFound (d' : Driver) : Type 0 where
    no_data :
        reg_data ≡ 0
        → d' ≡ settled 0x09000000 "JuliusSerial: no 'reg' property, using default 0x%llx\n" cast
        → BaseFound d'
    too_short :
        reg_data ≢ 0
        → reg_length < 8
        → d' ≡ settled 0x09000000 "JuliusSerial: no 'reg' property, using default 0x%llx\n" sized
        → BaseFound d'
    from_property :
        reg_data ≢ 0
        → 8 ≤ reg_length
        → d'
          ≡ settled device_tree_base "JuliusSerial: using device-tree base 0x%llx\n"
              (load_qword bytes ∷ located)
        → BaseFound d'

  pub find_base-BaseFound : Returns (λ _ d'. Asks d d' × BaseFound d') (find_base h provider d)
  unfolding find_base has_address is_plain
  find_base-BaseFound = elim (Bool-cases (reg_data == 0)) [
    | inl none ↦ rw none (
        returns (
          record {
            map_same = refl;
            regs_same = refl;
            extends = more _ refl (more _ refl (more _ refl same));
          },
          no_data (==→eq reg_data 0 none) refl,
        ))
    | inr there ↦ rw there (elim (Bool-cases (ltb reg_length 8)) [
      | inl short ↦ rw short (
          returns (
            record {
              map_same = refl;
              regs_same = refl;
              extends = more _ refl (more _ refl (more _ refl (more _ refl same)));
            },
            too_short (==→ne reg_data 0 there) (ltb→lt reg_length 8 short) refl,
          ))
      | inr long ↦ rw long (
          returns (
            record {
              map_same = refl;
              regs_same = refl;
              extends =
                  more _ refl
                    (more _ refl (more _ refl (more _ refl (more _ refl (more _ refl same)))));
            },
            from_property (==→ne reg_data 0 there) (ltb→le reg_length 8 long) refl,
          ))
    ])
  ]
