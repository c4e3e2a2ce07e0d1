-- ===== src/Session/Replay/Deferred.antt =====
-- The windows after the flush of src/session/forward.rs, identifier by identifier.
use traffic_director.Window.Vec.Lookup.{vec_get-vec_insert}
use traffic_director.Session.Replay.{track_flushed}
use traffic_director.Session.Replay.Flush.{kind_of, flushed}
use traffic_director.Window.Vec.{c2b_publish_sent, c2b_pubrel_sent, Slot, vec_get}
use traffic_director.Registry.{BufferedPublish}
use traffic_director.Window.{InflightWindows, insert_c2b_raw}
use traffic_director.Prelude.{
  Bytes, ℕ, ◌≡◌, refl, ap, ◌∙◌, Option, some, List, [], ◌∷◌, arith, ◌==◌, if◌then◌else◌,
}

-- What a deferred packet of this kind leaves of its identifier in the client-to-broker window: a
-- PUBLISH waits for its acknowledgement, a PUBREL for its PUBCOMP, and the others are not kept.
abbrev left_by : ℕ → Bytes → Option Slot → Option Slot
left_by kind raw before =
    if kind == 3
    then some (c2b_publish_sent, raw)
    else if kind == 6
    then some (c2b_pubrel_sent, raw)
    else before

-- The slot of the identifier after these packets: the last PUBLISH or PUBREL with it, `before` if
-- there is none.
abbrev pub last_deferred : List BufferedPublish → ℕ → Option Slot → Option Slot
last_deferred [] id before = before
last_deferred (e ∷ entries) id before =
    last_deferred entries id
      (if e.packet_id == id then left_by (kind_of e.raw) e.raw before else before)

vec_get-track_flushed :
    (w : InflightWindows) (kind i id : ℕ) (raw : Bytes)
    → vec_get (track_flushed w kind i raw).c2b id
      ≡ (if i == id then left_by kind raw (vec_get w.c2b id) else vec_get w.c2b id)
unfolding track_flushed insert_c2b_raw
vec_get-track_flushed w kind i id raw = ground (
  arith,
  vec_get-vec_insert w.c2b i id (c2b_publish_sent, raw),
  vec_get-vec_insert w.c2b i id (c2b_pubrel_sent, raw),
)

pub vec_get-flushed :
    (w : InflightWindows) (entries : List BufferedPublish) (id : ℕ)
    → vec_get (flushed w entries).c2b id ≡ last_deferred entries id (vec_get w.c2b id)
vec_get-flushed w [] id = refl
vec_get-flushed w (e ∷ entries) id =
    vec_get-flushed (track_flushed w (kind_of e.raw) e.packet_id e.raw) entries id
    ∙ ap (last_deferred entries id) (vec_get-track_flushed w (kind_of e.raw) e.packet_id id e.raw)

pub b2c-track_flushed :
    (w : InflightWindows) (kind id : ℕ) (raw : Bytes) → (track_flushed w kind id raw).b2c ≡ w.b2c
unfolding track_flushed insert_c2b_raw
b2c-track_flushed w kind id raw = ground arith

pub b2c-flushed :
    (w : InflightWindows) (entries : List BufferedPublish) → (flushed w entries).b2c ≡ w.b2c
b2c-flushed w [] = refl
b2c-flushed w (e ∷ entries) =
    b2c-flushed (track_flushed w (kind_of e.raw) e.packet_id e.raw) entries
    ∙ b2c-track_flushed w (kind_of e.raw) e.packet_id e.raw
