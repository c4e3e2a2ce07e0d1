-- ===== src/Session/Replay/Flush.antt =====
-- The flush of the outage buffer in src/session/forward.rs: every entry goes to the broker in
-- arrival order, and publishes and PUBRELs enter the client-to-broker window.
use traffic_director.Exec.Steps.{step_ok}
use mathlib.Core.Path.{subst}
use traffic_director.Session.Outage.{empty_buffer}
use traffic_director.Session.Outage.Buffer.{IsDeferred}
use traffic_director.Window.Vec.{c2b_publish_sent, c2b_pubrel_sent}
use traffic_director.Registry.{BufferedPublish}
use traffic_director.Window.{InflightWindows}
use traffic_director.Codec.{HasType}
use traffic_director.Prelude.{
  Bytes, ℕ, ◌/◌, ◌≤◌, ◌≡◌, refl, ap, ◌∙◌, ◌≢◌, inl, inr, List, [], ◌∷◌, arith, ◌==◌, ==_iff,
  Bool-cases, length, All,
}
use traffic_director.Result.{ok}
use traffic_director.Session.Replay.{flush_entries, flush_buffer, track_flushed, packet_kind, Link}
use traffic_director.Session.Replay.Writes.{wrote, wrote-wrote, wrote-nil, broker_write_lem}
use traffic_director.Window.Invariant.{IsValid, insert_c2b_raw-IsValid}

abbrev pub kind_of : Bytes → ℕ
kind_of [] = 0
kind_of (b ∷ raw) = b / 16

-- The windows after the entries have been flushed.
abbrev pub flushed : InflightWindows → List BufferedPublish → InflightWindows
flushed w [] = w
flushed w (e ∷ entries) = flushed (track_flushed w (kind_of e.raw) e.packet_id e.raw) entries

abbrev pub raws : List BufferedPublish → List Bytes
raws [] = []
raws (e ∷ entries) = e.raw ∷ raws entries

-- A deferred packet has a first byte, so that its kind is read without a panic.
pub packet_kind_lem : (e : BufferedPublish) → IsDeferred e → packet_kind e.raw ≡ ok (kind_of e.raw)
packet_kind_lem e d = has_byte e.raw (ground arith)
  where
    has_byte : (raw : Bytes) → raw ≢ [] → packet_kind raw ≡ ok (kind_of raw)
    has_byte [] h = absurd (h refl)
    has_byte (b ∷ raw) h = refl

module _ {C : Type 0} where
  flush_entries_lem :
      (l : Link C) (entries : List BufferedPublish)
      → All IsDeferred entries
      → length entries ≤ l.broker.room
      → flush_entries entries l ≡ (
        ok tt,
        record l { windows = flushed l.windows entries; broker = wrote l.broker (raws entries) },
      )
  unfolding flush_entries
  flush_entries_lem l [] h room = ap (λ b. (ok tt, record l { broker = b })) (wrote-nil l.broker)
  flush_entries_lem l (e ∷ entries) h room =
      let w : InflightWindows = track_flushed l.windows (kind_of e.raw) e.packet_id e.raw in
      step_ok _ {a = kind_of e.raw} {s' = l} (ap (λ k. (k, l)) (packet_kind_lem e h.0)) (
        step_ok _ (broker_write_lem (record l { windows = w }) e.raw (omega arith)) (
          flush_entries_lem (record l { windows = w; broker = wrote l.broker (e.raw ∷ []) }) entries
            h.1 (omega arith)
          ∙ ap (λ b. (ok tt, record l { windows = flushed w entries; broker = b }))
              (wrote-wrote l.broker (e.raw ∷ []) (raws entries))))

  pub flush_buffer_lem :
      (l : Link C)
      → All IsDeferred l.buffer.entries
      → length l.buffer.entries ≤ l.broker.room
      → flush_buffer l ≡ (
        ok tt,
        record l {
          windows = flushed l.windows l.buffer.entries;
          broker = wrote l.broker (raws l.buffer.entries);
          buffer = empty_buffer;
        },
      )
  unfolding flush_buffer
  flush_buffer_lem l h room = rw (
      flush_entries_lem (record l { buffer = record l.buffer { entries = [] } }) l.buffer.entries h
        room)

HasType-kind : (n : ℕ) (raw : Bytes) → HasType (kind_of raw) raw → kind_of raw ≡ n → HasType n raw
HasType-kind n raw h e = subst (λ k. HasType k raw) e h

HasType-self : (n : ℕ) (raw : Bytes) → HasType n raw → HasType (kind_of raw) raw
HasType-self n [] h = absurd h
HasType-self n (b ∷ raw) h = (h.0, refl)

pub IsDeferred-HasType : (e : BufferedPublish) → IsDeferred e → HasType (kind_of e.raw) e.raw
IsDeferred-HasType e (inl h) = HasType-self 3 e.raw h
IsDeferred-HasType e (inr (inl h)) = HasType-self 6 e.raw h
IsDeferred-HasType e (inr (inr (inl h))) = HasType-self 8 e.raw h
IsDeferred-HasType e (inr (inr (inr h))) = HasType-self 10 e.raw h

pub track_flushed-IsValid :
    (w : InflightWindows) (kind id : ℕ) (raw : Bytes)
    → HasType kind raw
    → IsValid w
    → IsValid (track_flushed w kind id raw)
unfolding track_flushed
track_flushed-IsValid w kind id raw h v = elim (Bool-cases (kind == 3)) [
  | inl publish ↦ rw publish (
      insert_c2b_raw-IsValid w id c2b_publish_sent raw
        (subst (λ k. HasType k raw) ((==_iff kind 3).0 publish) h) v)
  | inr other ↦ rw other (elim (Bool-cases (kind == 6)) [
    | inl pubrel ↦ rw pubrel (
        insert_c2b_raw-IsValid w id c2b_pubrel_sent raw
          (subst (λ k. HasType k raw) ((==_iff kind 6).0 pubrel) h) v)
    | inr neither ↦ rw neither v
  ])
]

-- Flushing deferred packets keeps the windows valid.
pub flushed-IsValid :
    (w : InflightWindows) (entries : List BufferedPublish)
    → All IsDeferred entries
    → IsValid w
    → IsValid (flushed w entries)
flushed-IsValid w [] h v = v
flushed-IsValid w (e ∷ entries) h v =
    flushed-IsValid (track_flushed w (kind_of e.raw) e.packet_id e.raw) entries h.1
      (track_flushed-IsValid w (kind_of e.raw) e.packet_id e.raw (IsDeferred-HasType e h.0) v)
