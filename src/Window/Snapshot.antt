-- ===== src/Window/Snapshot.antt =====
-- `snapshot` and `from_snapshot` of src/window.rs: the round trip, and what any entries restore to.
use traffic_director.Window.Vec.Order.{Distinct, vec_insert_new}
use traffic_director.Window.Invariant.{
  IsC2B, IsB2C, AllSlots, IsValid, insert_c2b_raw-IsValid, new-IsValid, insert_b2c-IsValid,
}
use traffic_director.Window.Vec.{
  WindowState, c2b_publish_sent, c2b_pubrel_sent, b2c_publish_sent, b2c_pubrec_forwarded, Slot,
  Slots, vec_contains, vec_insert,
}
use traffic_director.Prelude.{
  Bytes, ℕ, ◌≡◌, refl, ap, ◌∙◌, ◌⊎◌, inl, inr, false, ◌||◌, List, [], ◌∷◌, ◌++◌, append-nil,
  append_assoc, arith, All,
}
use traffic_director.Window.{
  snapshot, from_snapshot, restore, restore_entry, entries_of, WindowEntry, InflightWindows,
  insert_c2b_raw, new,
}

vec_contains-append :
    (a b : Slots) (j : ℕ) → vec_contains (a ++ b) j ≡ (vec_contains a j || vec_contains b j)
unfolding vec_contains
vec_contains-append [] b j = refl
vec_contains-append ((k, e) ∷ a) b j = ground (arith, vec_contains-append a b j)

-- In a vector with distinct keys, what stands before a slot does not hold its key.
Distinct-before :
    (a v : Slots) (k : ℕ) (e : Slot) → Distinct (a ++ (k, e) ∷ v) → vec_contains a k ≡ false
unfolding vec_contains
Distinct-before [] v k e d = refl
Distinct-before ((j, x) ∷ a) v k e d =
    ground (arith, vec_contains-append a ((k, e) ∷ v) j, Distinct-before a v k e d.1)

append_one : (a v : Slots) (x : ℕ × Slot) → (a ++ x ∷ []) ++ v ≡ a ++ x ∷ v
append_one a v x = append_assoc a (x ∷ []) v

abbrev windows : Slots → Slots → InflightWindows
windows a b = record { c2b = a; b2c = b }

-- Appending `x` to the window `a`, by `vec_insert`, where the rest of the vector is `v`.
push_next :
    (a v : Slots) (k : ℕ) (e : Slot)
    → Distinct (a ++ (k, e) ∷ v)
    → (vec_insert a k e ≡ a ++ (k, e) ∷ []) × Distinct ((a ++ (k, e) ∷ []) ++ v)
push_next a v k e d = (vec_insert_new a k e (Distinct-before a v k e d), rw append_one d)

restore-c2b :
    (a v b : Slots) (rest : List WindowEntry)
    → Distinct (a ++ v)
    → AllSlots IsC2B v
    → restore (windows a b) (entries_of v ++ rest) ≡ restore (windows (a ++ v) b) rest
unfolding restore entries_of
restore-c2b a [] b rest d h = rw append-nil
restore-c2b a ((k, (c2b_publish_sent, raw)) ∷ v) b rest d h =
    let (pushed, d') = push_next a v k (c2b_publish_sent, raw) d in
    ap (λ c. restore (windows c b) (entries_of v ++ rest)) pushed
    ∙ (restore-c2b (a ++ (k, (c2b_publish_sent, raw)) ∷ []) v b rest d' h.1
        ∙ ap (λ c. restore (windows c b) rest) (append_one a v _))
restore-c2b a ((k, (c2b_pubrel_sent, raw)) ∷ v) b rest d h =
    let (pushed, d') = push_next a v k (c2b_pubrel_sent, raw) d in
    ap (λ c. restore (windows c b) (entries_of v ++ rest)) pushed
    ∙ (restore-c2b (a ++ (k, (c2b_pubrel_sent, raw)) ∷ []) v b rest d' h.1
        ∙ ap (λ c. restore (windows c b) rest) (append_one a v _))
restore-c2b a ((k, (b2c_publish_sent, raw)) ∷ v) b rest d h = absurd h.0
restore-c2b a ((k, (b2c_pubrec_forwarded, raw)) ∷ v) b rest d h = absurd h.0

restore-b2c :
    (c a v : Slots)
    → Distinct (a ++ v)
    → AllSlots IsB2C v
    → restore (windows c a) (entries_of v) ≡ windows c (a ++ v)
unfolding restore entries_of
restore-b2c c a [] d h = rw append-nil
restore-b2c c a ((k, (b2c_publish_sent, raw)) ∷ v) d h =
    let (pushed, d') = push_next a v k (b2c_publish_sent, raw) d in
    ap (λ x. restore (windows c x) (entries_of v)) pushed
    ∙ (restore-b2c c (a ++ (k, (b2c_publish_sent, raw)) ∷ []) v d' h.1
        ∙ ap (windows c) (append_one a v _))
restore-b2c c a ((k, (b2c_pubrec_forwarded, raw)) ∷ v) d h =
    let (pushed, d') = push_next a v k (b2c_pubrec_forwarded, raw) d in
    ap (λ x. restore (windows c x) (entries_of v)) pushed
    ∙ (restore-b2c c (a ++ (k, (b2c_pubrec_forwarded, raw)) ∷ []) v d' h.1
        ∙ ap (windows c) (append_one a v _))
restore-b2c c a ((k, (c2b_publish_sent, raw)) ∷ v) d h = absurd h.0
restore-b2c c a ((k, (c2b_pubrel_sent, raw)) ∷ v) d h = absurd h.0

-- Valid windows come back from their snapshot as they were: every identifier, state, raw packet,
-- and the order in both directions.
pub from_snapshot-snapshot : (w : InflightWindows) → IsValid w → from_snapshot (snapshot w) ≡ w
unfolding from_snapshot snapshot
from_snapshot-snapshot w v =
    restore-c2b [] w.c2b [] (entries_of w.b2c) v.c2b_distinct v.c2b_states
    ∙ restore-b2c w.c2b [] w.b2c v.b2c_distinct v.b2c_states

-- An entry whose raw packet has the type that its state resends.
abbrev pub IsSound : WindowEntry → Type 0
IsSound e = IsC2B (e.state, e.raw) ⊎ IsB2C (e.state, e.raw)

restore_entry-IsValid :
    (w : InflightWindows) (s : WindowState) (id : ℕ) (raw : Bytes)
    → IsC2B (s, raw) ⊎ IsB2C (s, raw)
    → IsValid w
    → IsValid (restore_entry w s id raw)
unfolding restore_entry insert_c2b_raw
restore_entry-IsValid w c2b_publish_sent id raw (inl h) v =
    insert_c2b_raw-IsValid w id c2b_publish_sent raw h v
restore_entry-IsValid w c2b_pubrel_sent id raw (inl h) v =
    insert_c2b_raw-IsValid w id c2b_pubrel_sent raw h v
restore_entry-IsValid w b2c_publish_sent id raw (inr h) v =
    insert_b2c-IsValid w id (b2c_publish_sent, raw) h v
restore_entry-IsValid w b2c_pubrec_forwarded id raw (inr h) v =
    insert_b2c-IsValid w id (b2c_pubrec_forwarded, raw) h v
restore_entry-IsValid w c2b_publish_sent id raw (inr h) v = absurd h
restore_entry-IsValid w c2b_pubrel_sent id raw (inr h) v = absurd h
restore_entry-IsValid w b2c_publish_sent id raw (inl h) v = absurd h
restore_entry-IsValid w b2c_pubrec_forwarded id raw (inl h) v = absurd h

restore-IsValid :
    (w : InflightWindows) (entries : List WindowEntry)
    → All IsSound entries
    → IsValid w
    → IsValid (restore w entries)
unfolding restore
restore-IsValid w [] h v = v
restore-IsValid w (e ∷ entries) h v =
    restore-IsValid (restore_entry w e.state e.packet_id e.raw) entries h.1
      (restore_entry-IsValid w e.state e.packet_id e.raw h.0 v)

-- Whatever entries a snapshot holds, in any order and with any identifiers repeated, if each raw
-- packet has the type that its state resends then the restored windows are valid.
pub from_snapshot-IsValid :
    (entries : List WindowEntry) → All IsSound entries → IsValid (from_snapshot entries)
unfolding from_snapshot
from_snapshot-IsValid entries h = restore-IsValid new entries h new-IsValid
