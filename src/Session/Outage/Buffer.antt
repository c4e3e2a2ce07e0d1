-- ===== src/Session/Outage/Buffer.antt =====
-- The outage buffer of src/session/outage.rs: its bound and its accounting.
use mathlib.Core.Path.{subst}
use traffic_director.Registry.{BufferedPublish}
use traffic_director.Codec.{HasType}
use traffic_director.Prelude.{
  Bytes, ℕ, ◌+◌, ◌≤◌, ◌<◌, ◌≡◌, ◌⊎◌, inl, inr, List, [], ◌∷◌, ◌++◌, arith, ltb, Bool-cases, length,
  All, All-append,
}
use traffic_director.Result.{quota_exceeded, ok, err}
use traffic_director.Session.Outage.{OutageBuffer, push, outage_buffer_max_bytes, empty_buffer}

-- The bytes of all buffered packets.
abbrev pub total : List BufferedPublish → ℕ
total [] = 0
total (e ∷ entries) = length e.raw + total entries

-- PUBLISH, PUBREL, SUBSCRIBE or UNSUBSCRIBE, by the fixed header.
abbrev pub IsDeferred : BufferedPublish → Type 0
IsDeferred e = HasType 3 e.raw ⊎ HasType 6 e.raw ⊎ HasType 8 e.raw ⊎ HasType 10 e.raw

-- `bytes` counts the entries and stays within the limit, and every entry can be told apart.
pub record IsBuffer (b : OutageBuffer) : Type 0 where
  pub counted : b.bytes ≡ total b.entries
  pub bounded : b.bytes ≤ outage_buffer_max_bytes
  pub deferred : All IsDeferred b.entries

total-append : (xs ys : List BufferedPublish) → total (xs ++ ys) ≡ total xs + total ys
total-append [] ys = omega arith
total-append (x ∷ xs) ys = omega (arith, total-append xs ys)

pub empty_buffer-IsBuffer : IsBuffer empty_buffer
empty_buffer-IsBuffer = omega arith

pub push-IsBuffer :
    (b : OutageBuffer) (id : ℕ) (raw : Bytes) (qos : ℕ) {b' : OutageBuffer}
    → IsDeferred (record { packet_id = id; raw = raw; qos = qos })
    → IsBuffer b
    → push b id raw qos ≡ ok b'
    → IsBuffer b'
unfolding push
push-IsBuffer b id raw qos kind v h =
    elim (Bool-cases (ltb outage_buffer_max_bytes (b.bytes + length raw))) [
      | inl over ↦ ground arith
      | inr fits ↦ subst IsBuffer (ground arith) (
          let pushed : OutageBuffer = record {
            entries = b.entries ++ record { packet_id = id; raw = raw; qos = qos } ∷ [];
            bytes = b.bytes + length raw;
          } in
          let valid : IsBuffer pushed = record {
            counted = omega (
              arith,
              total-append b.entries (record { packet_id = id; raw = raw; qos = qos } ∷ []),
              v.counted,
            );
            bounded = ground arith;
            deferred = All-append IsDeferred b.entries _ v.deferred (kind, tt);
          } in
          valid)
    ]

-- `push` appends the packet and counts its bytes exactly if the buffer then holds at most 1 MiB;
-- otherwise it is `QuotaExceeded`.
pub push_lem :
    (b : OutageBuffer) (id : ℕ) (raw : Bytes) (qos : ℕ)
    → (b.bytes + length raw ≤ outage_buffer_max_bytes
        → push b id raw qos
          ≡ ok (record {
            entries = b.entries ++ record { packet_id = id; raw = raw; qos = qos } ∷ [];
            bytes = b.bytes + length raw;
          }))
      × (outage_buffer_max_bytes < b.bytes + length raw → push b id raw qos ≡ err quota_exceeded)
unfolding push
push_lem b id raw qos = ground arith
