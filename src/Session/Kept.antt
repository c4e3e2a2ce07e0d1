-- ===== src/Session/Kept.antt =====
-- What a property of a session must meet to be kept by the loop of src/session/forward.rs: a condition
-- for each operation that changes the windows, the outage buffer or the subscription table.
use traffic_director.Exec.Post.{Post}
use traffic_director.Session.Subscriptions.{Subscriptions, track}
use traffic_director.Session.Replay.{Link, establish_broker}
use traffic_director.Session.Outage.{OutageBuffer, Served, service_outage_packet}
use traffic_director.Window.{InflightWindows, track_c2b, track_b2c}
use traffic_director.Codec.{ProtocolVersion, MqttPacket, CodecLib}
use traffic_director.Prelude.{Bytes, ◌≡◌}
use traffic_director.Result.{ok}
use traffic_director.Session.Conn.{Next, next_packet}
use traffic_director.Session.Connected.{Loop}

-- A property of the version, the windows, the outage buffer and the table.
abbrev pub Property : Type 1
Property = ProtocolVersion → InflightWindows → OutageBuffer → Subscriptions → Type 0

-- A packet that is read is one of these.
abbrev pub NextFrom : {C : Type 0} → (MqttPacket → Type 0) → Next C → Type 0
NextFrom From (next_packet p codec buf) = From p
NextFrom From _ = Unit

module _ (P : Property) {C : Type 0} where
  abbrev pub Has : Loop C → Type 0
  Has l = P l.session.hs.version l.session.windows l.session.buffer l.session.subscriptions

  abbrev pub HasAfter : {A : Type 0} → A → Loop C → Type 0
  HasAfter a l = Has l

  abbrev pub HasServed : ProtocolVersion → Served C → Type 0
  HasServed ver s = P ver s.windows s.buffer s.subscriptions

  abbrev pub HasLink : ProtocolVersion → Subscriptions → Unit {0} → Link C → Type 0
  HasLink ver t u k = P ver k.windows k.buffer t

-- `P` is kept as long as the client's packets are of one kind, and the broker's of another.
pub record Kept {C : Type 0} (lib : CodecLib C) (P : Property)
    (FromClient FromBroker : MqttPacket → Type 0) : Type 0 where
  pub client_tracked :
      (ver : ProtocolVersion) (w w' : InflightWindows) (b : OutageBuffer) (t : Subscriptions)
      (p : MqttPacket)
      → FromClient p
      → track_c2b lib w p ≡ ok w'
      → P ver w b t
      → P ver w' b t
  pub table_tracked :
      (ver : ProtocolVersion) (w : InflightWindows) (b : OutageBuffer) (t : Subscriptions)
      (p : MqttPacket)
      → FromClient p
      → P ver w b t
      → P ver w b (track lib t p)
  pub broker_tracked :
      (ver : ProtocolVersion) (w w' : InflightWindows) (b : OutageBuffer) (t : Subscriptions)
      (p : MqttPacket)
      → FromBroker p
      → track_b2c lib w p ≡ ok w'
      → P ver w b t
      → P ver w' b t
  pub served :
      (ver : ProtocolVersion) (p : MqttPacket) (s : Served C)
      → FromClient p
      → HasServed P ver s
      → HasServed P ver (service_outage_packet lib p s).1
  pub replayed :
      (ver : ProtocolVersion) (connect_raw : Bytes) (t : Subscriptions) (connack suback : Next C)
      (k : Link C)
      → HasLink P ver t tt k
      → Post (HasLink P ver t) (establish_broker lib ver connect_raw t connack suback k)
