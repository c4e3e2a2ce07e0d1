-- ===== src/Session/Handshake/Restore.antt =====
-- The handshake of src/session/handshake.rs survives a snapshot.
use mathlib.Core.Path.{subst}
use traffic_director.Session.{codec_for}
use traffic_director.Session.Conn.{Conn, Next}
use traffic_director.Codec.{ProtocolVersion, mqtt3, mqtt5, MqttPacket, frame, CodecLib}
use traffic_director.Prelude.{Bytes, ◌≡◌, refl, Option, none, some}
use traffic_director.Result.{invalid_data, ok, ◌>>=◌, bind-ok, ok_or, Result}
use traffic_director.Session.Handshake.{
  detected, connected, handshake, from_snapshot_version, version_byte_of, version_byte, protocol_of,
  decoded_packet, Handshake, keep_alive_of,
}

-- A packet that a session's codec encoded is read back by such a codec.
pub record DecodesEncoded {C : Type 0} (lib : CodecLib C) : Type 0 where
  pub decodes :
      (ver : ProtocolVersion) (p : MqttPacket) (raw : Bytes)
      → lib.encode (codec_for lib ver) p ≡ some raw
      → (c : C) × (rest : Bytes) × (lib.decode (codec_for lib ver) raw ≡ frame p c rest)

protocol_of-version_byte : (ver : ProtocolVersion) → protocol_of (version_byte_of ver) ≡ ok ver
unfolding protocol_of version_byte_of
protocol_of-version_byte mqtt3 = refl
protocol_of-version_byte mqtt5 = refl

module _ {C : Type 0} (lib : CodecLib C) (law : DecodesEncoded lib) where
  restores :
      (ver : ProtocolVersion) (p : MqttPacket) (raw : Bytes)
      → lib.encode (codec_for lib ver) p ≡ some raw
      → from_snapshot_version lib (version_byte_of ver) raw
        ≡ ok (record { version = ver; connect_raw = raw; keep_alive = keep_alive_of p })
  unfolding from_snapshot_version decoded_packet
  restores ver p raw e =
      let (c, rest, back) = law.decodes ver p raw e in rw (protocol_of-version_byte ver, back)

  abbrev made : ProtocolVersion → MqttPacket → Bytes → Handshake
  made ver p raw = record { version = ver; connect_raw = raw; keep_alive = keep_alive_of p }

  abbrev paired :
      ProtocolVersion → MqttPacket → (Bytes → Conn C) → Bytes → Result (Conn C × Handshake)
  paired ver p swapped raw = ok (swapped raw, made ver p raw)

  encoded-restores :
      (ver : ProtocolVersion) (p : MqttPacket) (swapped : Bytes → Conn C) (o : Option Bytes)
      {client : Conn C} {hs : Handshake}
      → lib.encode (codec_for lib ver) p ≡ o
      → (ok_or o invalid_data >>= paired ver p swapped) ≡ ok (client, hs)
      → from_snapshot_version lib (version_byte hs) hs.connect_raw ≡ ok hs
  unfolding version_byte
  encoded-restores ver p swapped none e h = cc
  encoded-restores ver p swapped (some raw) {client} {hs} e h =
      let same : made ver p raw ≡ hs = cc in
      subst (λ hs. from_snapshot_version lib (version_byte hs) hs.connect_raw ≡ ok hs) same
        (restores ver p raw e)

  -- If a handshake succeeds, then the version byte and the CONNECT bytes that a snapshot keeps of
  -- it give back the same handshake: version, CONNECT and the keepalive that the client asked for.
  pub from_snapshot_version-handshake :
      (client : Conn C) (first second : Next C) {client' : Conn C} {hs : Handshake}
      → handshake lib client first second ≡ ok (client', hs)
      → from_snapshot_version lib (version_byte hs) hs.connect_raw ≡ ok hs
  unfolding handshake
  from_snapshot_version-handshake client first second h =
      let (ver, h₁, d) = bind-ok (detected lib first) h in
      let (p, h₂, c) = bind-ok (connected lib second) h₁ in
      encoded-restores ver p _ (lib.encode (codec_for lib ver) p) refl h₂
