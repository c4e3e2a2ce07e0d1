-- ===== src/Window/Vec/Order.antt =====
-- The keys of a vector of src/window.rs: their order, and that no key stands twice.
use traffic_director.Prelude.{
  ℕ, ◌≡◌, refl, true, false, List, [], ◌∷◌, ◌++◌, arith, ◌==◌, if◌then◌else◌,
}
use traffic_director.Window.Vec.{
  WindowState, Slot, Slots, vec_insert, vec_remove, vec_set_state, vec_contains,
}

-- The keys, oldest first.
abbrev pub keys : Slots → List ℕ
keys [] = []
keys ((k, e) ∷ v) = k ∷ keys v

abbrev pub without : ℕ → List ℕ → List ℕ
without id [] = []
without id (k ∷ ks) = let rest = without id ks in if k == id then rest else k ∷ rest

-- No key stands twice.
abbrev pub Distinct : Slots → Type 0
Distinct [] = Unit
Distinct ((k, e) ∷ v) = (vec_contains v k ≡ false) × Distinct v

pub keys-vec_insert :
    (v : Slots) (id : ℕ) (e : Slot)
    → keys (vec_insert v id e) ≡ (if vec_contains v id then keys v else keys v ++ id ∷ [])
unfolding vec_insert vec_contains
keys-vec_insert [] id e = refl
keys-vec_insert ((k, x) ∷ v) id e = ground (arith, keys-vec_insert v id e)

pub keys-vec_remove : (v : Slots) (id : ℕ) → keys (vec_remove v id) ≡ without id (keys v)
unfolding vec_remove
keys-vec_remove [] id = refl
keys-vec_remove ((k, x) ∷ v) id = ground (arith, keys-vec_remove v id)

pub keys-vec_set_state :
    (v : Slots) (id : ℕ) (state : WindowState) → keys (vec_set_state v id state) ≡ keys v
unfolding vec_set_state
keys-vec_set_state [] id state = refl
keys-vec_set_state ((k, x) ∷ v) id state = ground (arith, keys-vec_set_state v id state)

pub vec_contains-vec_insert :
    (v : Slots) (id j : ℕ) (e : Slot)
    → vec_contains (vec_insert v id e) j ≡ (if id == j then true else vec_contains v j)
unfolding vec_contains vec_insert
vec_contains-vec_insert [] id j e = ground arith
vec_contains-vec_insert ((k, x) ∷ v) id j e = ground (arith, vec_contains-vec_insert v id j e)

pub vec_contains-vec_remove :
    (v : Slots) (id j : ℕ)
    → vec_contains (vec_remove v id) j ≡ (if id == j then false else vec_contains v j)
unfolding vec_contains vec_remove
vec_contains-vec_remove [] id j = ground arith
vec_contains-vec_remove ((k, x) ∷ v) id j = ground (arith, vec_contains-vec_remove v id j)

pub vec_contains-vec_set_state :
    (v : Slots) (id j : ℕ) (state : WindowState)
    → vec_contains (vec_set_state v id state) j ≡ vec_contains v j
unfolding vec_contains vec_set_state
vec_contains-vec_set_state [] id j state = refl
vec_contains-vec_set_state ((k, x) ∷ v) id j state =
    ground (arith, vec_contains-vec_set_state v id j state)

pub vec_insert-Distinct :
    (v : Slots) (id : ℕ) (e : Slot) → Distinct v → Distinct (vec_insert v id e)
unfolding vec_insert vec_contains
vec_insert-Distinct [] id e d = (refl, tt)
vec_insert-Distinct ((k, x) ∷ v) id e d =
    ground (arith, vec_contains-vec_insert v id k e, vec_insert-Distinct v id e d.1)

pub vec_remove-Distinct : (v : Slots) (id : ℕ) → Distinct v → Distinct (vec_remove v id)
unfolding vec_remove
vec_remove-Distinct [] id d = tt
vec_remove-Distinct ((k, x) ∷ v) id d =
    ground (arith, vec_contains-vec_remove v id k, vec_remove-Distinct v id d.1)

pub vec_set_state-Distinct :
    (v : Slots) (id : ℕ) (state : WindowState) → Distinct v → Distinct (vec_set_state v id state)
unfolding vec_set_state
vec_set_state-Distinct [] id state d = tt
vec_set_state-Distinct ((k, x) ∷ v) id state d =
    ground (arith, vec_contains-vec_set_state v id k state, vec_set_state-Distinct v id state d.1)

-- A new key goes to the end.
pub vec_insert_new :
    (v : Slots) (id : ℕ) (e : Slot)
    → vec_contains v id ≡ false
    → vec_insert v id e ≡ v ++ (id, e) ∷ []
unfolding vec_insert vec_contains
vec_insert_new [] id e h = refl
vec_insert_new ((k, x) ∷ v) id e h = ground (arith, vec_insert_new v id e)
