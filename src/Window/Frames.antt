-- ===== src/Window/Frames.antt =====
-- What `encode_raw` of src/window.rs yields.
use traffic_director.Prelude.{ℕ, ◌≡◌, Option, none, some, Bytes}
use traffic_director.Result.{ok, expect}
use traffic_director.Codec.{
  MqttPacket, v3, v5, version_packet, CodecLib, packet_type, HasType, HasMqttHeaders,
}
use traffic_director.Window.{encode_raw}

expect-eq-ok {ℓ} : {A : Type ℓ} (o : Option A) {a : A} → expect o ≡ ok a → o ≡ some a
expect-eq-ok none h = cc
expect-eq-ok (some b) h = cc

pub encode_raw-HasType :
    {C : Type 0} (lib : CodecLib C)
    → HasMqttHeaders lib
    → (p : MqttPacket) (raw : Bytes) (t : ℕ) → encode_raw lib p ≡ ok raw
    → packet_type p ≡ some t
    → HasType t raw
unfolding encode_raw
encode_raw-HasType lib laws (v3 p) raw t h e =
    laws.header _ (v3 p) raw t (expect-eq-ok (lib.encode (lib.v3_codec 1048576) (v3 p)) h) e
encode_raw-HasType lib laws (v5 p) raw t h e =
    laws.header _ (v5 p) raw t (expect-eq-ok (lib.encode (lib.v5_codec 1048576 1048576) (v5 p)) h) e
encode_raw-HasType lib laws (version_packet v) raw t h e = cc
