-- ===== src/Tests/Toy.antt =====
-- Two small codecs for the tests: `toy` writes an identifier as one byte after the fixed header,
-- `connects` writes and reads CONNECT packets only.
use traffic_director.Session.Replay.Leftover.{TakesBytes}
use mathlib.Core.Path.{subst}
use traffic_director.Session.Handshake.Restore.{DecodesEncoded}
use traffic_director.Codec.{
  QoS, at_most_once, at_least_once, exactly_once, PacketV3, RetainHandling, at_subscribe,
  at_subscribe_new, no_at_subscribe, MqttPacket, v3, Decoded, frame, incomplete, CodecLib,
  HasMqttNumbers, HasType, HasMqttHeaders, packet_type, PacketV5, v5,
}
use traffic_director.Prelude.{
  refl, Bytes, ℕ, ◌<◌, ◌≡◌, Option, none, some, [], ◌∷◌, arith, zero, suc, ◌==◌, if◌then◌else◌,
  length,
}

abbrev toy_publish : QoS → Option ℕ → Bytes → Option Bytes
toy_publish at_least_once (some id) rest = some (50 ∷ id ∷ rest)
toy_publish exactly_once (some id) rest = some (52 ∷ id ∷ rest)
toy_publish _ _ rest = none

abbrev toy_encode : Unit {0} → MqttPacket → Option Bytes
toy_encode c (v3 (PacketV3.publish p)) = toy_publish p.qos p.packet_id p.rest
toy_encode c (v3 (PacketV3.publish_ack id)) = some (64 ∷ id ∷ [])
toy_encode c (v3 (PacketV3.publish_release id)) = some (98 ∷ id ∷ [])
toy_encode c (v3 (PacketV3.subscribe id filters)) = some (130 ∷ id ∷ [])
toy_encode c (v3 PacketV3.ping_response) = some (208 ∷ 0 ∷ [])
toy_encode c (v3 PacketV3.ping_request) = some (192 ∷ 0 ∷ [])
toy_encode c (v3 (PacketV3.connect p)) = some (16 ∷ p.keep_alive ∷ p.rest)
toy_encode c (v5 (PacketV5.connect_ack a)) = some (32 ∷ a.rest)
toy_encode c (v5 (PacketV5.disconnect d)) = some (224 ∷ 0 ∷ [])
toy_encode c _ = none

abbrev toy_decode : Unit {0} → Bytes → Decoded (Unit {0})
toy_decode c (b ∷ id ∷ rest) =
    if b == 98
    then frame (v3 (PacketV3.publish_release id)) tt rest
    else if b == 16
    then frame (v3 (PacketV3.connect (record { keep_alive = id; rest = rest }))) tt []
    else incomplete tt (b ∷ id ∷ rest)
toy_decode c buf = incomplete tt buf

abbrev pub toy_qos_byte : QoS → ℕ
toy_qos_byte at_most_once = 0
toy_qos_byte at_least_once = 1
toy_qos_byte exactly_once = 2

abbrev toy_qos : ℕ → Option QoS
toy_qos zero = some at_most_once
toy_qos (suc zero) = some at_least_once
toy_qos (suc (suc zero)) = some exactly_once
toy_qos _ = none

abbrev toy_retain_byte : RetainHandling → ℕ
toy_retain_byte at_subscribe = 0
toy_retain_byte at_subscribe_new = 1
toy_retain_byte no_at_subscribe = 2

abbrev toy_retain : ℕ → Option RetainHandling
toy_retain zero = some at_subscribe
toy_retain (suc zero) = some at_subscribe_new
toy_retain (suc (suc zero)) = some no_at_subscribe
toy_retain _ = none

abbrev pub toy : CodecLib (Unit {0})
toy = record {
  version_codec = tt;
  v3_codec = λ n. tt;
  v5_codec = λ n m. tt;
  encode = toy_encode;
  decode = toy_decode;
  qos_byte = toy_qos_byte;
  qos_try_from = toy_qos;
  retain_handling_byte = toy_retain_byte;
  retain_handling_try_from = toy_retain;
}

pub toy_numbers : HasMqttNumbers toy
toy_numbers = record {
  qos_small = small;
  qos_back = back;
  retain_small = retain_small;
  retain_back = retain_back;
}
  where
    small : (q : QoS) → toy_qos_byte q < 3
    small at_most_once = omega arith
    small at_least_once = omega arith
    small exactly_once = omega arith

    back : (q : QoS) → toy_qos (toy_qos_byte q) ≡ some q
    back at_most_once = refl
    back at_least_once = refl
    back exactly_once = refl

    retain_small : (r : RetainHandling) → toy_retain_byte r < 3
    retain_small at_subscribe = omega arith
    retain_small at_subscribe_new = omega arith
    retain_small no_at_subscribe = omega arith

    retain_back : (r : RetainHandling) → toy_retain (toy_retain_byte r) ≡ some r
    retain_back at_subscribe = refl
    retain_back at_subscribe_new = refl
    retain_back no_at_subscribe = refl

header_of :
    (t : ℕ) (raw out : Bytes) (u : ℕ)
    → HasType t raw
    → ◌≡◌ {A = Option Bytes} (some raw) (some out)
    → ◌≡◌ {A = Option ℕ} (some t) (some u)
    → HasType u out
header_of t raw out u h e f = subst (λ n. HasType n out) (cc) (subst (λ b. HasType t b) (cc) h)

publish_header :
    (q : QoS) (id : Option ℕ) (rest raw : Bytes) (t : ℕ)
    → toy_publish q id rest ≡ some raw
    → ◌≡◌ {A = Option ℕ} (some 3) (some t)
    → HasType t raw
publish_header at_most_once id rest raw t e f = cc
publish_header at_least_once none rest raw t e f = cc
publish_header exactly_once none rest raw t e f = cc
publish_header at_least_once (some id) rest raw t e f =
    header_of 3 (50 ∷ id ∷ rest) raw t (omega arith, refl) e f
publish_header exactly_once (some id) rest raw t e f =
    header_of 3 (52 ∷ id ∷ rest) raw t (omega arith, refl) e f

toy_header :
    (p : MqttPacket) (raw : Bytes) (t : ℕ)
    → toy_encode tt p ≡ some raw
    → packet_type p ≡ some t
    → HasType t raw
toy_header (v3 (PacketV3.publish p)) raw t e f = publish_header p.qos p.packet_id p.rest raw t e f
toy_header (v3 (PacketV3.publish_release id)) raw t e f =
    header_of 6 (98 ∷ id ∷ []) raw t (omega arith, refl) e f
toy_header (v3 (PacketV3.subscribe id filters)) raw t e f =
    header_of 8 (130 ∷ id ∷ []) raw t (omega arith, refl) e f
toy_header (v5 (PacketV5.disconnect d)) raw t e f = cc
toy_header (v3 (PacketV3.connect p)) raw t e f = cc
toy_header (v5 (PacketV5.connect_ack a)) raw t e f = cc
toy_header (v5 p) raw t e f = cc
toy_header _ raw t e f = cc

pub toy_headers : HasMqttHeaders toy
toy_headers = record { header = λ c p raw t e f. toy_header p raw t e f }

abbrev connects_encode : Unit {0} → MqttPacket → Option Bytes
connects_encode c (v3 (PacketV3.connect p)) = some (p.keep_alive ∷ p.rest)
connects_encode c _ = none

abbrev connects_decode : Unit {0} → Bytes → Decoded (Unit {0})
connects_decode c [] = incomplete tt []
connects_decode c (k ∷ rest) =
    frame (v3 (PacketV3.connect (record { keep_alive = k; rest = rest }))) tt []

abbrev pub connects : CodecLib (Unit {0})
connects = record toy { encode = connects_encode; decode = connects_decode }

connects_back :
    (p : MqttPacket) (raw : Bytes)
    → connects_encode tt p ≡ some raw
    → (c : Unit {0}) × (rest : Bytes) × (connects_decode tt raw ≡ frame p c rest)
connects_back (v3 (PacketV3.connect p)) raw e =
    let same : p.keep_alive ∷ p.rest ≡ raw = cc in
    let read : (c : Unit {0}) × (rest : Bytes) × (connects_decode tt (p.keep_alive ∷ p.rest)
          ≡ frame (v3 (PacketV3.connect p)) c rest) =
      (tt, [], refl) in
    subst
      (λ r.
        (c : Unit {0}) × (rest : Bytes) × (connects_decode tt r
          ≡ frame (v3 (PacketV3.connect p)) c rest))
      same read
connects_back _ raw e = cc

pub connects_decodes : DecodesEncoded connects
connects_decodes = record { decodes = λ ver p raw e. connects_back p raw e }

toy_takes :
    (buf rest : Bytes) (p : MqttPacket)
    → toy_decode tt buf ≡ frame p tt rest
    → length rest < length buf
toy_takes [] rest p e = cc
toy_takes (b ∷ []) rest p e = cc
toy_takes (b ∷ id ∷ more) rest p e = ground arith

pub toy_TakesBytes : TakesBytes toy
toy_TakesBytes = record { shorter = λ codec codec' p buf rest e. toy_takes buf rest p e }
