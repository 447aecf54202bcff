-- ===== src/Init/Leads.antt =====
-- Runs that do not depend on the rounds that a loop is followed for, until they come to the loop.
use ajulius.Prelude.{fun_ext, ◌≡◌, ℕ}
use ajulius.Machine.{World, Cmd, Run, panicked, followed_by}
use ajulius.Outcome.Returns
use ajulius.Outcome.Returns.{Ends, Returns, returns, panics}

-- Runs that differ only in how long they go on: whatever that is, each comes to the same world and
-- goes on from there by `k`, or dies in the same world.
pub data Leads {A : Type 0} (P Q : World → Type 0) (k : ℕ → Cmd A) : (ℕ → Run A) → Type 0 where
  reaches : {w : World} → P w → Leads P Q k (λ n. k n w)
  dies : {w : World} → Q w → Leads P Q k (λ _. panicked w)

pub then-Leads :
    {A B : Type 0} {P : A → World → Type 0} {R Q : World → Type 0} {c : ℕ → Cmd B} {r : Run A}
    {k : ℕ → A → Cmd B}
    → Ends P Q r
    → ((a : A) (w : World) → P a w → Leads R Q c (λ n. k n a w))
    → Leads R Q c (λ n. followed_by r (k n))
then-Leads (returns p) next = next _ _ p
then-Leads (panics q) next = dies q

pub on-Leads :
    {A B : Type 0} {P : A → World → Type 0} {R Q : World → Type 0} {c : ℕ → Cmd B} {r : Run A}
    {k : ℕ → A → Cmd B}
    → Returns P r
    → ((a : A) (w : World) → P a w → Leads R Q c (λ n. k n a w))
    → Leads R Q c (λ n. followed_by r (k n))
on-Leads p next = then-Leads (Returns.widen p λ w f. absurd f) next

pub Leads-mono :
    {A : Type 0} {P P' Q Q' : World → Type 0} {k : ℕ → Cmd A} {run : ℕ → Run A}
    → Leads P Q k run
    → ((w : World) → P w → P' w)
    → ((w : World) → Q w → Q' w)
    → Leads P' Q' k run
Leads-mono (reaches p) f g = reaches (f _ p)
Leads-mono (dies q) f g = dies (g _ q)

-- Nothing behind a run that does not return is executed.
pub behind-Leads :
    {A : Type 0} {P Q : World → Type 0} {k : ℕ → Cmd A} {run : ℕ → Run A} (c : Cmd A)
    → ((n : ℕ) (w : World) → followed_by (k n w) (λ _. c) ≡ k n w)
    → Leads P Q k run
    → Leads P Q k (λ n. followed_by (run n) (λ _. c))
behind-Leads c never (reaches {w} p) = rw (fun_ext (λ n. never n w)) (reaches p)
behind-Leads c never (dies q) = dies q
