-- ===== src/Window/Vec.antt =====
-- The association vectors of src/window.rs: `Vec<(u16, (WindowState, Vec<u8>))>` in the order of
-- first insertion, and the four functions on them.
pub mod Lookup
pub mod Order
use traffic_director.Prelude.{
  ℕ, Bool, false, ◌||◌, Option, none, some, List, [], ◌∷◌, Bytes, ◌==◌, if◌then◌else◌,
}

pub data WindowState : Type 0 where
  c2b_publish_sent c2b_pubrel_sent b2c_publish_sent b2c_pubrec_forwarded : WindowState

abbrev pub Slot : Type 0
Slot = WindowState × Bytes

abbrev pub Slots : Type 0
Slots = List (ℕ × Slot)

-- The first slot with the key is overwritten in place, else the entry is pushed at the end.
unfoldable pub vec_insert : Slots → ℕ → Slot → Slots
vec_insert [] id entry = (id, entry) ∷ []
vec_insert ((k, e) ∷ v) id entry =
    if k == id then (k, entry) ∷ v else (k, e) ∷ vec_insert v id entry

-- `retain(|(k, _)| *k != id)`
unfoldable pub vec_remove : Slots → ℕ → Slots
vec_remove [] id = []
vec_remove ((k, e) ∷ v) id = let rest = vec_remove v id in if k == id then rest else (k, e) ∷ rest

unfoldable pub vec_get : Slots → ℕ → Option Slot
vec_get [] id = none
vec_get ((k, e) ∷ v) id = if k == id then some e else vec_get v id

-- `if let Some(entry) = vec_get_mut(v, id) { entry.0 = state }`
unfoldable pub vec_set_state : Slots → ℕ → WindowState → Slots
vec_set_state [] id state = []
vec_set_state ((k, e) ∷ v) id state =
    if k == id then (k, (state, e.1)) ∷ v else (k, e) ∷ vec_set_state v id state

unfoldable pub vec_contains : Slots → ℕ → Bool
vec_contains [] id = false
vec_contains ((k, e) ∷ v) id = k == id || vec_contains v id
