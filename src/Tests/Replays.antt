-- ===== src/Tests/Replays.antt =====
-- A test of the replay of src/session/forward.rs: a session with a subscription, a publish in
-- flight in each direction, a deferred PUBLISH, and a PUBREL left in the dead broker's buffer.
use traffic_director.Session.Replay.Deferred.{last_deferred}
use traffic_director.Session.Replay.Answers.{Resubscribed, assigned}
use traffic_director.Session.Replay.Ends.{Ends, deliver_leftover-Ends}
use traffic_director.Session.Replay.Writes.{wrote}
use traffic_director.Session.Outage.{empty_buffer}
use traffic_director.Session.Replay.Flush.{raws}
use traffic_director.Tests.Toy.{toy, toy_TakesBytes}
use traffic_director.Session.{codec_for}
use traffic_director.Window.{broker_retransmits, client_retransmits, collect, with_dup}
use traffic_director.Session.Handshake.{skip_varint, byte_at, force_session_resumption}
use traffic_director.Session.Replay.Order.{establish_broker-order}
use traffic_director.Session.Replay.Leftover.{Drains, framed, drained}
use traffic_director.Session.Subscriptions.{resubscribe, Subscriptions, resubscribe_packet}
use traffic_director.Session.Replay.{Link, establish_broker, deliver_leftover}
use traffic_director.Session.Conn.{Next, next_packet, after_next}
use traffic_director.Window.Vec.{c2b_publish_sent, b2c_publish_sent, vec_get}
use traffic_director.Codec.{mqtt3, PacketV3, PacketV5, v3, v5}
use traffic_director.Result.{ok}
use traffic_director.Prelude.{refl, Bytes, ◌≡◌, inl, some, [], ◌∷◌, ◌++◌, arith, ℕ}

abbrev pub link : Link (Unit {0})
link = record {
  broker = record { codec = tt; read_buf = []; sent = []; room = 8 };
  client = record { codec = tt; read_buf = []; sent = (32 ∷ []) ∷ []; room = 8 };
  windows = record {
    c2b = (3, (c2b_publish_sent, 50 ∷ 3 ∷ [])) ∷ [];
    b2c = (5, (b2c_publish_sent, 52 ∷ 5 ∷ [])) ∷ [];
  };
  buffer = record {
    entries = record { packet_id = 7; raw = 50 ∷ 7 ∷ []; qos = 1 } ∷ [];
    bytes = 2;
  };
  broker_leftover = 98 ∷ 6 ∷ 48 ∷ [];
  keep_alive = 60;
}

abbrev pub connack : Next (Unit {0})
connack =
    next_packet (v5 (PacketV5.connect_ack (record { server_keepalive_sec = some 30; rest = [] })))
      tt []

abbrev pub suback : Next (Unit {0})
suback = next_packet (v3 (PacketV3.subscribe_ack [])) tt []

abbrev pub table : Subscriptions
table = record { topic_filter = "a"; options = 1 } ∷ []

abbrev pub connect_raw : Bytes
connect_raw = 16 ∷ 12 ∷ 0 ∷ 4 ∷ 77 ∷ 81 ∷ 84 ∷ 84 ∷ 4 ∷ 2 ∷ 0 ∷ 60 ∷ []

abbrev pub patched : Bytes
patched = 16 ∷ 12 ∷ 0 ∷ 4 ∷ 77 ∷ 81 ∷ 84 ∷ 84 ∷ 4 ∷ 0 ∷ 0 ∷ 60 ∷ []

pub patch_run : force_session_resumption connect_raw ≡ ok patched
unfolding force_session_resumption skip_varint byte_at
patch_run = refl

pub to_broker_run : broker_retransmits link.windows ≡ ok ((58 ∷ 3 ∷ []) ∷ [])
unfolding broker_retransmits collect with_dup
to_broker_run = refl

pub to_client_run : client_retransmits link.windows ≡ ok ((60 ∷ 5 ∷ []) ∷ [])
unfolding client_retransmits collect with_dup
to_client_run = refl

pub leftover-Drains :
    Drains toy (codec_for toy mqtt3) link.broker_leftover (v3 (PacketV3.publish_release 6) ∷ [])
unfolding codec_for
leftover-Drains =
    framed (v3 (PacketV3.publish_release 6)) tt (48 ∷ []) refl (drained tt (48 ∷ []) refl)

pub subscribed :
    Resubscribed toy
      (resubscribe_packet toy table mqtt3)
      suback
      (after_next (wrote link.broker (patched ∷ [])) connack)
      ((130 ∷ 1 ∷ []) ∷ [])
unfolding resubscribe_packet resubscribe
subscribed = (130 ∷ 1 ∷ [], refl, tt, refl)

establish_broker-order_example :
    (l' : Link (Unit {0})) × (establish_broker toy mqtt3 connect_raw table connack suback link
      ≡ (ok tt, l'))
    × (l'.broker.sent
        ≡ ((link.broker.sent ++ (patched ∷ [])) ++ ((130 ∷ 1 ∷ []) ∷ []))
          ++ (((58 ∷ 3 ∷ []) ∷ []) ++ raws link.buffer.entries))
    × (l'.client.sent ≡ link.client.sent ++ (((98 ∷ 6 ∷ []) ∷ []) ++ ((60 ∷ 5 ∷ []) ∷ [])))
    × ((id : ℕ)
        → vec_get l'.windows.c2b id
          ≡ last_deferred link.buffer.entries id (vec_get link.windows.c2b id))
    × (l'.windows.b2c ≡ link.windows.b2c)
    × (l'.buffer ≡ empty_buffer)
    × (l'.broker_leftover ≡ [])
    × (l'.keep_alive ≡ assigned connack link.keep_alive)
establish_broker-order_example =
    establish_broker-order toy mqtt3 connect_raw patched table connack suback link
      ((130 ∷ 1 ∷ []) ∷ []) (v3 (PacketV3.publish_release 6) ∷ []) ((98 ∷ 6 ∷ []) ∷ [])
      ((58 ∷ 3 ∷ []) ∷ []) ((60 ∷ 5 ∷ []) ∷ []) patch_run tt subscribed leftover-Drains
      (omega arith) (refl, tt) to_broker_run to_client_run (inl (omega arith, refl), tt)
      (omega arith) (omega arith)

deliver_leftover-Ends_example : Ends (deliver_leftover toy mqtt3 link).0
deliver_leftover-Ends_example = deliver_leftover-Ends toy toy_TakesBytes mqtt3 link
