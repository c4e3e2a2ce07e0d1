-- ===== src/Exec/Post.antt =====
-- What holds of the state after an action that succeeded.
use mathlib.Core.Path.{◌≡◌, refl}
use traffic_director.Result.{Result, ok, err, panic, out_of_fuel}
use traffic_director.Exec.{Exec, continue, settle}

-- `Q` holds of the value and the state, if there is a value.
abbrev pub Post : {S A : Type 0} → (A → S → Type 0) → Result A × S → Type 0
Post Q (ok a, s) = Q a s
Post Q (err e, s) = Unit
Post Q (panic, s) = Unit
Post Q (out_of_fuel, s) = Unit

-- An action whose state is known whatever its outcome is, and the rest.
pub Post-step :
    {S A B : Type 0} (Q : B → S → Type 0) (r : Result A) (f : A → Exec S B) (s : S)
    → ((a : A) → Post Q (f a s))
    → Post Q (continue r f s)
Post-step Q (ok a) f s h = h a
Post-step Q (err e) f s h = tt
Post-step Q panic f s h = tt
Post-step Q out_of_fuel f s h = tt

-- An action with a postcondition, and the rest.
pub Post-bind :
    {S A B : Type 0} (P : A → S → Type 0) (Q : B → S → Type 0) (r : Result A × S) (f : A → Exec S B)
    → Post P r
    → ((a : A) (s : S) → P a s → Post Q (f a s))
    → Post Q (continue r.0 f r.1)
Post-bind P Q (ok a, s) f p h = h a s p
Post-bind P Q (err e, s) f p h = tt
Post-bind P Q (panic, s) f p h = tt
Post-bind P Q (out_of_fuel, s) f p h = tt

-- A last action whose state is known.
pub Post-last :
    {S A : Type 0} (Q : A → S → Type 0) (r : Result A) (s : S) → ((a : A) → Q a s) → Post Q (r, s)
Post-last Q (ok a) s h = h a
Post-last Q (err e) s h = tt
Post-last Q panic s h = tt
Post-last Q out_of_fuel s h = tt

-- A fallible change of the state.
pub Post-settle :
    {S : Type 0} (Q : Unit {0} → S → Type 0) (s : S) (r : Result S)
    → ((s' : S) → r ≡ ok s' → Q tt s')
    → Post Q (settle s r)
Post-settle Q s (ok s') h = h s' refl
Post-settle Q s (err e) h = tt
Post-settle Q s panic h = tt
Post-settle Q s out_of_fuel h = tt

-- An action on a part of the state, which is put back by `g`, and the rest.
pub Post-thread :
    {S T A B : Type 0} (Q : B → T → Type 0) (P : A → S → Type 0) (r : Result A × S) (g : S → T)
    (f : A → S → Exec T B)
    → Post P r
    → ((a : A) (s : S) → P a s → Post Q (f a s (g s)))
    → Post Q (continue r.0 (λ a. f a r.1) (g r.1))
Post-thread Q P (ok a, s) g f p h = h a s p
Post-thread Q P (err e, s) g f p h = tt
Post-thread Q P (panic, s) g f p h = tt
Post-thread Q P (out_of_fuel, s) g f p h = tt

-- A weaker postcondition.
pub Post-mono :
    {S A : Type 0} (P Q : A → S → Type 0) (r : Result A × S)
    → Post P r
    → ((a : A) (s : S) → P a s → Q a s)
    → Post Q r
Post-mono P Q (ok a, s) p h = h a s p
Post-mono P Q (err e, s) p h = tt
Post-mono P Q (panic, s) p h = tt
Post-mono P Q (out_of_fuel, s) p h = tt

-- The same with what the outcome was.
pub Post-step_eq :
    {S A B : Type 0} (Q : B → S → Type 0) (r : Result A) (f : A → Exec S B) (s : S)
    → ((a : A) → r ≡ ok a → Post Q (f a s))
    → Post Q (continue r f s)
Post-step_eq Q (ok a) f s h = h a refl
Post-step_eq Q (err e) f s h = tt
Post-step_eq Q panic f s h = tt
Post-step_eq Q out_of_fuel f s h = tt

-- What holds whatever is returned.
pub Post-always :
    {S A : Type 0} (Q : A → S → Type 0) (r : Result A × S) → ((a : A) (s : S) → Q a s) → Post Q r
Post-always Q (ok a, s) h = h a s
Post-always Q (err e, s) h = tt
Post-always Q (panic, s) h = tt
Post-always Q (out_of_fuel, s) h = tt

-- Two postconditions at once.
pub Post-and :
    {S A : Type 0} (P Q : A → S → Type 0) (r : Result A × S)
    → Post P r
    → Post Q r
    → Post (λ a s. P a s × Q a s) r
Post-and P Q (ok a, s) p q = (p, q)
Post-and P Q (err e, s) p q = tt
Post-and P Q (panic, s) p q = tt
Post-and P Q (out_of_fuel, s) p q = tt
