-- ===== src/Window/Retransmit.antt =====
-- What src/window.rs sends again on thaw: `broker_retransmits` and `client_retransmits`.
use traffic_director.Prelude.Bits.{bit_or_eight}
use traffic_director.Window.Invariant.{IsC2B, IsB2C, AllSlots, IsValid}
use traffic_director.Window.Vec.{
  c2b_publish_sent, c2b_pubrel_sent, b2c_publish_sent, b2c_pubrec_forwarded, Slots,
}
use traffic_director.Codec.{HasType}
use traffic_director.Prelude.{Bytes, ℕ, ◌/◌, ◌%◌, bit_and, bit_or, ◌≡◌, refl, List, [], ◌∷◌}
use traffic_director.Result.{ok}
use traffic_director.Window.{
  broker_retransmits, client_retransmits, collect, broker_retransmit, client_retransmit, with_dup,
  InflightWindows,
}

-- The second packet is the first with DUP set: the type, the low bits and all later bytes are kept.
abbrev pub SameWithDup : Bytes → Bytes → Type 0
SameWithDup (b ∷ raw) (b' ∷ raw') =
    (b' / 16 ≡ b / 16) × (b' % 8 ≡ b % 8) × (bit_and b' 8 ≡ 8) × (raw' ≡ raw)
SameWithDup _ _ = ⊥

-- One packet for each slot, in the order of the window: a PUBLISH with DUP, a PUBREL as it was.
abbrev pub ResentToBroker : Slots → List Bytes → Type 0
ResentToBroker [] [] = Unit
ResentToBroker ((k, (c2b_publish_sent, raw)) ∷ v) (o ∷ out) =
    SameWithDup raw o × ResentToBroker v out
ResentToBroker ((k, (c2b_pubrel_sent, raw)) ∷ v) (o ∷ out) = (o ≡ raw) × ResentToBroker v out
ResentToBroker _ _ = ⊥

-- A PUBLISH with DUP for each slot whose PUBREC was not forwarded, in the order of the window.
abbrev pub ResentToClient : Slots → List Bytes → Type 0
ResentToClient [] [] = Unit
ResentToClient [] (o ∷ out) = ⊥
ResentToClient ((k, (b2c_pubrec_forwarded, raw)) ∷ v) out = ResentToClient v out
ResentToClient ((k, (b2c_publish_sent, raw)) ∷ v) (o ∷ out) =
    SameWithDup raw o × ResentToClient v out
ResentToClient _ _ = ⊥

with_dup_total :
    (t : ℕ) (raw : Bytes)
    → HasType t raw
    → (out : Bytes) × (with_dup raw ≡ ok out) × SameWithDup raw out
unfolding with_dup
with_dup_total t [] h = absurd h
with_dup_total t (b ∷ raw) h =
    let law = bit_or_eight b h.0 in (bit_or b 8 ∷ raw, refl, (law.0, law.1, law.2, refl))

collect_broker :
    (v : Slots)
    → AllSlots IsC2B v
    → (out : List Bytes) × (collect broker_retransmit v ≡ ok out) × ResentToBroker v out
unfolding collect broker_retransmit
collect_broker [] h = ([], refl, tt)
collect_broker ((k, (c2b_publish_sent, raw)) ∷ v) h =
    let (o, eq, same) = with_dup_total 3 raw h.0 in
    let (out, eqs, sames) = collect_broker v h.1 in (o ∷ out, rw (eq, eqs), (same, sames))
collect_broker ((k, (c2b_pubrel_sent, raw)) ∷ v) h =
    let (out, eqs, sames) = collect_broker v h.1 in (raw ∷ out, rw eqs, (refl, sames))
collect_broker ((k, (b2c_publish_sent, raw)) ∷ v) h = absurd h.0
collect_broker ((k, (b2c_pubrec_forwarded, raw)) ∷ v) h = absurd h.0

collect_client :
    (v : Slots)
    → AllSlots IsB2C v
    → (out : List Bytes) × (collect client_retransmit v ≡ ok out) × ResentToClient v out
unfolding collect client_retransmit
collect_client [] h = ([], refl, tt)
collect_client ((k, (b2c_publish_sent, raw)) ∷ v) h =
    let (o, eq, same) = with_dup_total 3 raw h.0 in
    let (out, eqs, sames) = collect_client v h.1 in (o ∷ out, rw (eq, eqs), (same, sames))
collect_client ((k, (b2c_pubrec_forwarded, raw)) ∷ v) h =
    let (out, eqs, sames) = collect_client v h.1 in (out, rw eqs, sames)
collect_client ((k, (c2b_publish_sent, raw)) ∷ v) h = absurd h.0
collect_client ((k, (c2b_pubrel_sent, raw)) ∷ v) h = absurd h.0

-- On valid windows `broker_retransmits` does not panic, and yields one packet for each slot of
-- the client-to-broker window in its order: a PUBLISH with DUP set and else unchanged, or the
-- PUBREL as it was sent.
pub broker_retransmits_lem :
    (w : InflightWindows)
    → IsValid w
    → (out : List Bytes) × (broker_retransmits w ≡ ok out) × ResentToBroker w.c2b out
unfolding broker_retransmits
broker_retransmits_lem w v = collect_broker w.c2b v.c2b_states

-- On valid windows `client_retransmits` does not panic, and yields, in the order of the
-- broker-to-client window, one PUBLISH with DUP set and else unchanged for each slot that still
-- waits for the client's PUBACK or PUBREC, and nothing for a slot whose PUBREC was forwarded.
pub client_retransmits_lem :
    (w : InflightWindows)
    → IsValid w
    → (out : List Bytes) × (client_retransmits w ≡ ok out) × ResentToClient w.b2c out
unfolding client_retransmits
client_retransmits_lem w v = collect_client w.b2c v.b2c_states
