-- ===== src/Session.antt =====
-- src/session/mod.rs, and what a session sees of a connection.
pub mod Subscriptions
pub mod Conn
pub mod Keepalive
pub mod Handshake
pub mod Outage
pub mod Replay
pub mod Freeze
pub mod Backoff
pub mod Connected
pub mod Kept
pub mod Loop
pub mod Start
pub mod Task
use traffic_director.Prelude.{ℕ}
use traffic_director.Codec.{mqtt3, mqtt5, ProtocolVersion, CodecLib}

abbrev pub max_packet_size : ℕ
max_packet_size = 1048576

unfoldable pub codec_for : {C : Type 0} → CodecLib C → ProtocolVersion → C
codec_for lib mqtt3 = lib.v3_codec max_packet_size
codec_for lib mqtt5 = lib.v5_codec max_packet_size max_packet_size
