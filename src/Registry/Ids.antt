-- ===== src/Registry/Ids.antt =====
-- The identifiers of src/registry.rs.
use traffic_director.Registry.{SessionRegistry, erase, register, unregister, insert}
use traffic_director.Prelude.{
  ℕ, ◌+◌, ◌%◌, ◌^◌, ◌≤◌, ◌<◌, ◌≡◌, ◌∙◌, Bool, false, ◌||◌, List, [], ◌∷◌, arith, ◌==◌,
  if◌then◌else◌, length,
}
use mathlib.Core.Path.{refl}

no_wrap : (n : ℕ) → n + 1 < 2 ^ 64 → (n + 1) % 2 ^ 64 ≡ n + 1
no_wrap n h = omega arith

-- What the program does to the registry.
pub data Change (T : Type 0) : Type 0 where
  registers : T → Change T
  unregisters : ℕ → Change T

module _ {T : Type 0} where
  abbrev pub holds : List (ℕ × T) → ℕ → Bool
  holds [] id = false
  holds ((k, t) ∷ m) id = k == id || holds m id

  abbrev Keys : List (ℕ × T) → Type 0
  Keys [] = Unit
  Keys ((k, t) ∷ m) = (holds m k ≡ false) × Keys m

  abbrev Below : ℕ → List (ℕ × T) → Type 0
  Below n [] = Unit
  Below n ((k, t) ∷ m) = (k < n) × Below n m

  -- Each key stands once, and is below the next identifier.
  pub record IsRegistry (r : SessionRegistry T) : Type 0 where
    pub once : Keys r.sessions
    pub below : Below r.next_id r.sessions

  pub holds-erase :
      (m : List (ℕ × T)) (id j : ℕ) → holds (erase m id) j ≡ (if id == j then false else holds m j)
  unfolding erase
  holds-erase [] id j = ground arith
  holds-erase ((k, t) ∷ m) id j = ground (arith, holds-erase m id j)

  erase-Keys : (m : List (ℕ × T)) (id : ℕ) → Keys m → Keys (erase m id)
  unfolding erase
  erase-Keys [] id h = tt
  erase-Keys ((k, t) ∷ m) id h = ground (arith, holds-erase m id k, erase-Keys m id h.1)

  erase-Below : (m : List (ℕ × T)) (id n : ℕ) → Below n m → Below n (erase m id)
  unfolding erase
  erase-Below [] id n h = tt
  erase-Below ((k, t) ∷ m) id n h = ground (arith, erase-Below m id n h.1)

  Below-mono : (m : List (ℕ × T)) (n n' : ℕ) → n ≤ n' → Below n m → Below n' m
  Below-mono [] n n' le h = tt
  Below-mono ((k, t) ∷ m) n n' le h = (omega arith, Below-mono m n n' le h.1)

  Below-fresh : (m : List (ℕ × T)) (n : ℕ) → Below n m → holds m n ≡ false
  Below-fresh [] n h = refl
  Below-fresh ((k, t) ∷ m) n h = ground (arith, Below-fresh m n h.1)

  register-IsRegistry :
      (r : SessionRegistry T) (tx : T)
      → r.next_id + 1 < 2 ^ 64
      → IsRegistry r
      → IsRegistry (register r tx).1 × ((register r tx).1.next_id ≡ r.next_id + 1)
  unfolding register insert
  register-IsRegistry r tx room v =
      let next : (r.next_id + 1) % 2 ^ 64 ≡ r.next_id + 1 = no_wrap r.next_id room in
      rw next (
        record {
          once = (
            holds-erase r.sessions r.next_id r.next_id ∙ ground arith,
            erase-Keys r.sessions r.next_id v.once,
          );
          below = (
            omega arith,
            Below-mono (erase r.sessions r.next_id) r.next_id (r.next_id + 1) (omega arith)
                (erase-Below r.sessions r.next_id r.next_id v.below),
          );
        },
        refl,
      )

  unfoldable pub change : SessionRegistry T → Change T → SessionRegistry T
  change r (registers tx) = (register r tx).1
  change r (unregisters id) = unregister r id

  abbrev pub changes : SessionRegistry T → List (Change T) → SessionRegistry T
  changes r [] = r
  changes r (c ∷ cs) = changes (change r c) cs

  change-IsRegistry :
      (r : SessionRegistry T) (c : Change T)
      → r.next_id + 1 < 2 ^ 64
      → IsRegistry r
      → IsRegistry (change r c)
        × (r.next_id ≤ (change r c).next_id)
        × ((change r c).next_id ≤ r.next_id + 1)
  unfolding change unregister
  change-IsRegistry r (registers tx) room v =
      let (v', next) = register-IsRegistry r tx room v in (v', omega arith, omega arith)
  change-IsRegistry r (unregisters id) room v = (
    record {
      once = erase-Keys r.sessions id v.once;
      below = erase-Below r.sessions id r.next_id v.below;
    },
    omega arith,
    omega arith,
  )

  -- After any registrations and unregistrations, in any order, fewer than the identifiers that are
  -- left of 2^64, no two sessions share an identifier, no live session has the one that the next
  -- registration gets, and an identifier that was given out before is not given out again.
  pub changes-IsRegistry :
      (r : SessionRegistry T) (cs : List (Change T))
      → r.next_id + length cs < 2 ^ 64
      → IsRegistry r
      → IsRegistry (changes r cs)
        × (r.next_id ≤ (changes r cs).next_id)
        × ((tx : T) → holds (changes r cs).sessions (register (changes r cs) tx).0 ≡ false)
  unfolding register
  changes-IsRegistry r [] room v = (v, omega arith, λ tx. Below-fresh r.sessions r.next_id v.below)
  changes-IsRegistry r (c ∷ cs) room v =
      let (v', grows, few) = change-IsRegistry r c (omega arith) v in
      let (done, more, fresh) = changes-IsRegistry (change r c) cs (omega arith) v' in
      (done, omega arith, fresh)
