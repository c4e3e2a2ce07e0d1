-- ===== src/Window/Vec/Lookup.antt =====
-- What a lookup finds after each of the vector functions of src/window.rs.
use mathlib.Core.Option
use traffic_director.Prelude.{
  ℕ, ◌≡◌, refl, Bool, true, false, Option, none, some, [], ◌∷◌, arith, ◌==◌, if◌then◌else◌,
}
use traffic_director.Window.Vec.{
  WindowState, Slot, Slots, vec_insert, vec_remove, vec_get, vec_set_state, vec_contains,
}

abbrev pub is_some {ℓ} : {A : Type ℓ} → Option A → Bool
is_some none = false
is_some (some a) = true

abbrev pub with_state : WindowState → Slot → Slot
with_state state e = (state, e.1)

pub vec_get-vec_insert :
    (v : Slots) (id j : ℕ) (e : Slot)
    → vec_get (vec_insert v id e) j ≡ (if id == j then some e else vec_get v j)
unfolding vec_get vec_insert
vec_get-vec_insert [] id j e = refl
vec_get-vec_insert ((k, x) ∷ v) id j e = ground (arith, vec_get-vec_insert v id j e)

pub vec_get-vec_remove :
    (v : Slots) (id j : ℕ) → vec_get (vec_remove v id) j ≡ (if id == j then none else vec_get v j)
unfolding vec_get vec_remove
vec_get-vec_remove [] id j = ground arith
vec_get-vec_remove ((k, x) ∷ v) id j = ground (arith, vec_get-vec_remove v id j)

pub vec_get-vec_set_state :
    (v : Slots) (id j : ℕ) (state : WindowState)
    → vec_get (vec_set_state v id state) j
      ≡ (if id == j then Option.map (with_state state) (vec_get v j) else vec_get v j)
unfolding vec_get vec_set_state
vec_get-vec_set_state [] id j state = ground arith
vec_get-vec_set_state ((k, x) ∷ v) id j state = ground (arith, vec_get-vec_set_state v id j state)

pub vec_contains-vec_get : (v : Slots) (id : ℕ) → vec_contains v id ≡ is_some (vec_get v id)
unfolding vec_contains vec_get
vec_contains-vec_get [] id = refl
vec_contains-vec_get ((k, x) ∷ v) id = ground (arith, vec_contains-vec_get v id)

pub ruleset lookups = (vec_get-vec_insert, vec_get-vec_remove, vec_get-vec_set_state)
