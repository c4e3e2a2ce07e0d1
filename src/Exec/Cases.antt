-- ===== src/Exec/Cases.antt =====
-- Rules for predicates of the state in which an action ends, whatever its outcome.
use traffic_director.Prelude.{◌≡◌, refl}
use traffic_director.Result.{Result, ok, err, panic, out_of_fuel}
use traffic_director.Result.{◌>>=◌ as bind}
use traffic_director.Exec.{Exec, settle, lift, ◌>>=◌}

module _ {S : Type 0} (P : S → Type 0) where
  -- A step that fails leaves the state alone.
  pub settle_cases : (s : S) (r : Result S) → P s → ((s' : S) → r ≡ ok s' → P s') → P (settle s r).1
  settle_cases s (ok s') same new = new s' refl
  settle_cases s (err e) same new = same
  settle_cases s panic same new = same
  settle_cases s out_of_fuel same new = same

  pub settle_bind_cases :
      {A : Type 0} (s : S) (r : Result A) (f : A → S)
      → P s
      → ((a : A) → r ≡ ok a → P (f a))
      → P (settle s (bind r (λ a. ok (f a)))).1
  settle_bind_cases s (ok a) f same new = new a refl
  settle_bind_cases s (err e) f same new = same
  settle_bind_cases s panic f same new = same
  settle_bind_cases s out_of_fuel f same new = same

  pub lift_cases :
      {A B : Type 0} (s : S) (r : Result A) (f : A → Exec S B)
      → P s
      → ((a : A) → r ≡ ok a → P (f a s).1)
      → P ((lift r >>= f) s).1
  lift_cases s (ok a) f same new = new a refl
  lift_cases s (err e) f same new = same
  lift_cases s panic f same new = same
  lift_cases s out_of_fuel f same new = same
