-- ===== src/Outcome.antt =====
-- What a C function comes to, over a state `W`: a result and a state, or a way to stop.
pub mod Returns

-- `fault`: an access that is not mapped, or an undefined operation. `panicked`: a deliberate stop.
-- `out_of_fuel`: the loop has been followed for as long as it was asked to be.
pub data Outcome (W A : Type 0) : Type 0 where
  ok : A → W → Outcome W A
  panicked : W → Outcome W A
  fault : Outcome W A
  out_of_fuel : Outcome W A

abbrev pub Action : Type 0 → Type 0 → Type 0
Action W A = W → Outcome W A

abbrev pub pure : {W A : Type 0} → A → Action W A
pure = ok

-- Reading a field of the state, and assigning to it.
abbrev pub get : {W A : Type 0} → (W → A) → Action W A
get f w = ok (f w) w

abbrev pub modify : {W : Type 0} → (W → W) → Action W (Unit {0})
modify f w = ok tt (f w)

module _ {W A B : Type 0} where
  abbrev pub followed_by : Outcome W A → (A → Action W B) → Outcome W B
  followed_by (ok a w) k = k a w
  followed_by (panicked w) k = panicked w
  followed_by fault k = fault
  followed_by out_of_fuel k = out_of_fuel

  infixl 5 ◌>>=◌ ◌>>◌
  abbrev pub ◌>>=◌ : Action W A → (A → Action W B) → Action W B
  m >>= k = λ w. followed_by (m w) k

  abbrev pub ◌>>◌ : Action W A → Action W B → Action W B
  m >> n = m >>= λ _. n
