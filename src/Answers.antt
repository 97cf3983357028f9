-- ===== src/Answers.antt =====
-- Computations that return, with a value or an error, and do not panic.
use fluxion.Prelude.{Bool, true, false, Option, none, some, if◌then◌else◌}
use fluxion.Outcome.{Outcome, ok, err, panic, ◌>>=◌}
use fluxion.Expand.Defs.{or_error}

abbrev pub IsAnswer {ℓ} : {E : Type 0} {A : Type ℓ} → Outcome E A → Type 0
IsAnswer (ok a) = Unit
IsAnswer (err e) = Unit
IsAnswer (panic p) = ⊥

pub IsAnswer-bind {ℓ κ} :
    {E : Type 0} {A : Type ℓ} {B : Type κ} (o : Outcome E A) (f : A → Outcome E B)
    → IsAnswer o
    → ((a : A) → IsAnswer (f a))
    → IsAnswer (o >>= f)
IsAnswer-bind (ok a) f h k = k a
IsAnswer-bind (err e) f h k = tt
IsAnswer-bind (panic p) f h k = h

pub IsAnswer-or_error {ℓ} :
    {E : Type 0} {A : Type ℓ} (e : E) (o : Option A) → IsAnswer (or_error e o)
IsAnswer-or_error e (some a) = tt
IsAnswer-or_error e none = tt

pub IsAnswer-if {ℓ} :
    {E : Type 0} {A : Type ℓ} (b : Bool) (a : A) (e : E) → IsAnswer (if b then ok a else err e)
IsAnswer-if true a e = tt
IsAnswer-if false a e = tt
