-- ===== src/Exec.antt =====
-- Methods that change a state and may end early: the state comes back beside the outcome, so what
-- was written or sent before an error stays.
pub mod Cases
pub mod Steps
pub mod Post
use traffic_director.Result.{Result, ok, err, panic, out_of_fuel, IoError}

abbrev pub Exec {ℓ} : Type ℓ → Type ℓ → Type ℓ
Exec S A = S → Result A × S

module _ {ℓ} {S A : Type ℓ} where
  abbrev pub pure : A → Exec S A
  pure a s = (ok a, s)

  abbrev pub raise : IoError → Exec S A
  raise e s = (err e, s)

  abbrev pub lift : Result A → Exec S A
  lift r s = (r, s)

  abbrev pub gets : (S → A) → Exec S A
  gets f s = (ok (f s), s)

module _ {ℓ} {S A B : Type ℓ} where
  abbrev pub continue : Result A → (A → Exec S B) → Exec S B
  continue (ok a) f s = f a s
  continue (err e) f s = (err e, s)
  continue panic f s = (panic, s)
  continue out_of_fuel f s = (out_of_fuel, s)

  infixl 5 ◌>>=◌ ◌>>◌
  abbrev pub ◌>>=◌ : Exec S A → (A → Exec S B) → Exec S B
  ◌>>=◌ m f s = let (r, s') = m s in continue r f s'

  abbrev pub ◌>>◌ : Exec S A → Exec S B → Exec S B
  m >> n = m >>= λ _. n

-- A pure step of the state, and a fallible one that leaves the state alone where it fails.
abbrev pub modify : {S : Type 0} → (S → S) → Exec S (Unit {0})
modify f s = (ok tt, f s)

abbrev pub settle : {S : Type 0} → S → Result S → Result (Unit {0}) × S
settle s (ok s') = (ok tt, s')
settle s (err e) = (err e, s)
settle s panic = (panic, s)
settle s out_of_fuel = (out_of_fuel, s)

abbrev pub update : {S : Type 0} → (S → Result S) → Exec S (Unit {0})
update f s = settle s (f s)

abbrev pub map_err : {A : Type 0} → Result A → IoError → Result A
map_err (ok a) e = ok a
map_err (err x) e = err e
map_err panic e = panic
map_err out_of_fuel e = out_of_fuel
