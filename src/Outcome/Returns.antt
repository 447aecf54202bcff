-- ===== src/Outcome/Returns.antt =====
-- Total correctness of a run: it ends, without a fault, in a result with the property `P` or in a
-- panic with the property `Q`.
use mathlib.Core.Path.{◌≡◌, subst}
use ajulius.Outcome.{Outcome, ok, panicked, Action, followed_by}

pub data Ends {W A : Type 0} (P : A → W → Type 0) (Q : W → Type 0) : Outcome W A → Type 0 where
  returns : {a : A} {w : W} → P a w → Ends P Q (ok a w)
  panics : {w : W} → Q w → Ends P Q (panicked w)

abbrev pub Returns : {W A : Type 0} → (A → W → Type 0) → Outcome W A → Type 0
Returns P = Ends P (λ _. ⊥)

module _ {W A : Type 0} {P : A → W → Type 0} {Q : W → Type 0} where
  pub bind :
      {B : Type 0} {R : B → W → Type 0} {r : Outcome W A} {k : A → Action W B}
      → Ends P Q r
      → ((a : A) (w : W) → P a w → Ends R Q (k a w))
      → Ends R Q (followed_by r k)
  bind (returns p) next = next _ _ p
  bind (panics q) next = panics q

  pub mono :
      {R : A → W → Type 0} {r : Outcome W A}
      → Ends P Q r
      → ((a : A) (w : W) → P a w → R a w)
      → Ends R Q r
  mono (returns p) weaken = returns (weaken _ _ p)
  mono (panics q) weaken = panics q

module _ {W A : Type 0} {P : A → W → Type 0} {Q : W → Type 0} where
  -- A run that returns may be followed by one that panics.
  pub and_then :
      {B : Type 0} {R : B → W → Type 0} {r : Outcome W A} {k : A → Action W B}
      → Returns P r
      → ((a : A) (w : W) → P a w → Ends R Q (k a w))
      → Ends R Q (followed_by r k)
  and_then (returns p) next = next _ _ p
  and_then (panics q) next = absurd q

  pub widen : {S : W → Type 0} {r : Outcome W A} → Ends P Q r → ((w : W) → Q w → S w) → Ends P S r
  widen (returns p) f = returns p
  widen (panics q) f = panics (f _ q)

-- What cannot return is followed by nothing.
pub never_returns :
    {W A B : Type 0} {Q : W → Type 0} {R : B → W → Type 0} {r : Outcome W A} (k : A → Action W B)
    → Ends (λ _ _. ⊥) Q r
    → Ends R Q (followed_by r k)
never_returns k (returns p) = absurd p
never_returns k (panics q) = panics q

abbrev Good : {W A : Type 0} → (A → W → Type 0) → Outcome W A → Type 0
Good P (ok a w) = P a w
Good P _ = Unit

-- What is proved of a run that returns holds of what it has returned.
pub holds :
    {W A : Type 0} {P : A → W → Type 0} {r : Outcome W A} (a : A) (w : W)
    → Returns P r
    → r ≡ ok a w
    → P a w
holds {P} a w (returns p) e = subst (Good P) e p
holds a w (panics q) e = absurd q
