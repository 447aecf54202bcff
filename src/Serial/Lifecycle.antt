-- ===== src/Serial/Lifecycle.antt =====
-- The driver in use: its methods in any order, and what holds in every state that it reaches.
use ajulius.Prelude.{ℕ, ◌^◌, ◌<◌, ◌≡◌, ◌≢◌, List, All}
use ajulius.Outcome.{pure, ◌>>◌, ok}
use ajulius.Outcome.Returns
use ajulius.Outcome.Returns.{Ends, Returns, returns, panics, holds}
use ajulius.IoKit.{Host}
use ajulius.Serial.{Method, Driver, put_char, get_char, put_string, set_baud, sixteen_baud}
use ajulius.Serial.Objects.{Mapping, IsValid}
use ajulius.Serial.Service.{start, stop, message}
use ajulius.Serial.Start.{start-Starts}
use ajulius.Serial.Stop.{stop-Stopped}
use ajulius.Serial.Methods.{
  put_char-IsValid, put_string-IsValid, get_char-IsValid, message-IsValid, set_baud-IsValid,
}

-- A call of one of the methods.
pub data Op : Type 0 where
  starts stops : ℕ → Op
  notifies : ℕ → ℕ → ℕ → Op
  puts : ℕ → Op
  gets : Op
  prints : List ℕ → Op
  tunes : ℕ → Op

-- I/O Kit starts a driver that is not started; characters are bytes; and a baud rate is set on a
-- started driver, to one whose sixteenfold does not wrap to zero.
abbrev pub Allowed : Driver → Op → Type 0
Allowed d (starts provider) = d.mmio_map ≡ 0
Allowed d (puts c) = c < 2 ^ 8
Allowed d (prints s) = All (λ c. c < 2 ^ 8) s
Allowed d (tunes baud) = (d.regs ≢ 0) × (sixteen_baud baud ≢ 0)
Allowed d _ = Unit

module _ (h : Host) (fuel : ℕ) where
  -- The call, without its result.
  unfoldable pub perform : Op → Method (Unit {0})
  perform (starts provider) = do start h fuel provider; pure tt
  perform (stops provider) = stop h provider
  perform (notifies type provider argument) = do message h type provider argument; pure tt
  perform (puts c) = put_char h c
  perform gets = do get_char h; pure tt
  perform (prints s) = put_string h s
  perform (tunes baud) = set_baud h fuel baud

  pub data Step (d d' : Driver) : Type 0 where
    step : (op : Op) → Allowed d op → perform op d ≡ ok tt d' → Step d d'

  pub data Reach (d : Driver) : Driver → Type 0 where
    here : Reach d d
    next : {v u : Driver} → Reach d v → Step v u → Reach d u

module _ (h : Host) (base fuel : ℕ) (mapping : Mapping h base) (room : 33 < fuel) where
  -- With a host that maps a PL011's registers, and at least 34 rounds to clear the FIFO,
  -- every allowed call on a valid driver returns, and leaves it valid.
  pub perform-IsValid :
      (op : Op) (d : Driver)
      → Allowed d op
      → IsValid h base d
      → Returns (λ _. IsValid h base) (perform h fuel op d)
  unfolding perform
  perform-IsValid (starts provider) d idle v =
      Returns.bind (start-Starts h base mapping fuel provider d room idle v) λ b d' s. returns s.0
  perform-IsValid (stops provider) d _ v =
      Returns.mono (stop-Stopped h base mapping provider d v) λ _ d' s. s.valid
  perform-IsValid (notifies type provider argument) d _ v =
      Returns.bind (message-IsValid h base mapping type provider argument d v) λ r d' s. returns s
  perform-IsValid (puts c) d byte v = put_char-IsValid h base mapping c d byte v
  perform-IsValid gets d _ v =
      Returns.bind (get_char-IsValid h base mapping d v) λ c d' s. returns s
  perform-IsValid (prints s) d bytes v = put_string-IsValid h base mapping s d bytes v
  perform-IsValid (tunes baud) d (real, nz) v =
      set_baud-IsValid h base mapping fuel baud d room real nz v

  -- With a host that maps a PL011's registers, and at least 34 rounds to clear the FIFO,
  -- every state that a valid driver reaches by allowed calls, in any order, is valid: both fields
  -- are null or both are the mapping's, and the driver owes the release of its mapping and of no
  -- other object.
  pub Reach-IsValid : {d d' : Driver} → IsValid h base d → Reach h fuel d d' → IsValid h base d'
  Reach-IsValid v here = v
  Reach-IsValid v (next {v = u} {u = d'} r (step op allowed run)) =
      holds tt d' (perform-IsValid op u allowed (Reach-IsValid v r)) run
