-- ===== src/Exec/Steps.antt =====
-- One step of an action that succeeded, then the rest.
use traffic_director.Prelude.{◌≡◌, ap, ◌∙◌}
use traffic_director.Result.{Result, ok}
use traffic_director.Exec.{Exec, continue}

pub step_ok :
    {S A B : Type 0} {x : Result A × S} (f : A → Exec S B) {a : A} {s' : S} {r : Result B × S}
    → x ≡ (ok a, s')
    → f a s' ≡ r
    → continue x.0 f x.1 ≡ r
step_ok f h k = ap (λ y. continue y.0 f y.1) h ∙ k
