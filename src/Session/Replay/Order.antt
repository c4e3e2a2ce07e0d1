-- ===== src/Session/Replay/Order.antt =====
-- What a replay of src/session/forward.rs sends, in which order, and the state that it leaves.
use traffic_director.Session.Replay.Deferred.{last_deferred, vec_get-flushed, b2c-flushed}
use traffic_director.Window.Vec.{vec_get}
use traffic_director.Session.Replay.Answers.{
  IsConnack, Resubscribed, ready, assigned, after_next-room, resubscribed, resubscribed-room,
  resubscribed-sent, broker_next_lem, after_next-sent, on_connack_lem, resubscribe_with_lem,
}
use traffic_director.Session.Handshake.{force_session_resumption}
use traffic_director.Session.Outage.{empty_buffer}
use traffic_director.Session.{codec_for}
use traffic_director.Session.Outage.Buffer.{IsDeferred}
use traffic_director.Codec.{ProtocolVersion, MqttPacket, CodecLib}
use traffic_director.Prelude.{
  Bytes, ◌+◌, ◌≤◌, ◌≡◌, refl, ap, Option, List, [], ◌∷◌, arith, length, All, ◌-◌, ◌++◌, ◌∙◌,
  append_assoc, ℕ,
}
use traffic_director.Result.{ok}
use traffic_director.Exec.{◌>>◌, Exec}
use traffic_director.Session.Replay.{
  retransmit, flush_buffer, deliver_leftover, on_connack, resubscribe_with, Link, establish_broker,
}
use traffic_director.Session.Replay.Writes.{
  wrote, broker_write_each_lem, client_write_each_lem, broker_write_lem,
}
use traffic_director.Session.Replay.Leftover.{Drains, Encodes, deliver_leftover_lem}
use traffic_director.Session.Replay.Flush.{flushed, raws, flush_buffer_lem}
use traffic_director.Session.Subscriptions.{Subscriptions, resubscribe_packet}
use traffic_director.Window.{broker_retransmits, client_retransmits}
use traffic_director.Exec.Steps.{step_ok}
use traffic_director.Session.Conn.{after_next, Conn, Next}

retransmit_lem :
    {C : Type 0} (l : Link C) (to_broker to_client : List Bytes)
    → broker_retransmits l.windows ≡ ok to_broker
    → client_retransmits l.windows ≡ ok to_client
    → length to_broker ≤ l.broker.room
    → length to_client ≤ l.client.room
    → retransmit l
      ≡ (ok tt, record l { broker = wrote l.broker to_broker; client = wrote l.client to_client })
unfolding retransmit
retransmit_lem l to_broker to_client eb ec rb rc =
    step_ok _ {a = to_broker} {s' = l} (ap (λ r. (r, l)) eb) (
      step_ok _ (broker_write_each_lem l to_broker rb) (
        step_ok _ {a = to_client} {s' = record l { broker = wrote l.broker to_broker }}
          (ap (λ r. (r, record l { broker = wrote l.broker to_broker })) ec)
          (client_write_each_lem (record l { broker = wrote l.broker to_broker }) to_client rc)))

module _ {C : Type 0} (lib : CodecLib C) where
  catch_up_lem :
      (version : ProtocolVersion) (l : Link C) (ps : List MqttPacket)
      (frames to_broker to_client : List Bytes)
      → Drains lib (codec_for lib version) l.broker_leftover ps
      → length ps ≤ length l.broker_leftover
      → Encodes lib l.client.codec ps frames
      → broker_retransmits l.windows ≡ ok to_broker
      → client_retransmits l.windows ≡ ok to_client
      → All IsDeferred l.buffer.entries
      → length to_broker + length l.buffer.entries ≤ l.broker.room
      → length frames + length to_client ≤ l.client.room
      → (deliver_leftover lib version >> (retransmit >> flush_buffer)) l ≡ (
        ok tt,
        record l {
          broker = wrote (wrote l.broker to_broker) (raws l.buffer.entries);
          client = wrote (wrote l.client frames) to_client;
          windows = flushed l.windows l.buffer.entries;
          buffer = empty_buffer;
          broker_leftover = [];
        },
      )
  catch_up_lem version l ps frames to_broker to_client d few enc eb ec def rb rc =
      let l₁ : Link C = record l { client = wrote l.client frames; broker_leftover = [] } in
      let l₂ : Link C = record l₁ {
        broker = wrote l.broker to_broker;
        client = wrote (wrote l.client frames) to_client;
      } in
      step_ok _ (deliver_leftover_lem lib version l ps frames d enc (omega arith) few) (
        step_ok _ (retransmit_lem l₁ to_broker to_client eb ec (omega arith) (omega arith))
          (flush_buffer_lem l₂ def (omega arith)))

  -- What the re-SUBSCRIBE sends to a broker connection: nothing for an empty table, else one
  -- encoded packet, which the broker answers with a packet.
  establish_state :
      (version : ProtocolVersion) (connect_raw patched : Bytes) (subs : Subscriptions)
      (connack suback : Next C) (l : Link C) (sub : List Bytes) (ps : List MqttPacket)
      (frames to_broker to_client : List Bytes)
      → force_session_resumption connect_raw ≡ ok patched
      → IsConnack connack
      → Resubscribed lib
          (resubscribe_packet lib subs version)
          suback
          (after_next (wrote l.broker (patched ∷ [])) connack)
          sub
      → Drains lib (codec_for lib version) l.broker_leftover ps
      → length ps ≤ length l.broker_leftover
      → Encodes lib l.client.codec ps frames
      → broker_retransmits l.windows ≡ ok to_broker
      → client_retransmits l.windows ≡ ok to_client
      → All IsDeferred l.buffer.entries
      → 1 + length sub + length to_broker + length l.buffer.entries ≤ l.broker.room
      → length frames + length to_client ≤ l.client.room
      → establish_broker lib version connect_raw subs connack suback l ≡ (
        ok tt,
        record l {
          broker =
              wrote
                (wrote
                  (ready lib patched connack
                    (resubscribe_packet lib subs version)
                    suback
                    l.broker
                    sub)
                  to_broker)
                (raws l.buffer.entries);
          client = wrote (wrote l.client frames) to_client;
          windows = flushed l.windows l.buffer.entries;
          buffer = empty_buffer;
          broker_leftover = [];
          keep_alive = assigned connack l.keep_alive;
        },
      )
  unfolding establish_broker
  establish_state version connect_raw patched subs connack suback l sub ps frames to_broker
        to_client patch greeting subscribed d few enc eb ec def rb rc =
      let o : Option MqttPacket = resubscribe_packet lib subs version in
      let greeted : Conn C = after_next (wrote l.broker (patched ∷ [])) connack in
      let greeted_room : greeted.room ≡ l.broker.room - 1 =
        after_next-room lib (wrote l.broker (patched ∷ [])) connack in
      let a₃ : Exec (Link C) (Unit {0}) =
        deliver_leftover lib version >> (retransmit >> flush_buffer) in
      let a₂ : Exec (Link C) (Unit {0}) = resubscribe_with lib o suback >> a₃ in
      let a₁ : Exec (Link C) (Unit {0}) = on_connack connack >> a₂ in
      let l₁ : Link C = record l { broker = wrote l.broker (patched ∷ []) } in
      let l₂ : Link C = record l { broker = greeted } in
      let l₃ : Link C = record l₂ { keep_alive = assigned connack l.keep_alive } in
      let l₄ : Link C = record l₃ { broker = resubscribed lib o suback greeted sub } in
      let ready_room : (resubscribed lib o suback greeted sub).room ≡ greeted.room - length sub =
        resubscribed-room lib o suback greeted sub subscribed in
      step_ok _ {a = patched} {s' = l} (ap (λ r. (r, l)) patch) (
        step_ok _ (broker_write_lem l patched (omega arith)) (
          step_ok (λ u. a₁) (broker_next_lem connack l₁)
            (step_ok (λ u. a₂) (on_connack_lem connack l₂ greeting)
              (step_ok _
                (resubscribe_with_lem lib o suback l₃ sub subscribed (omega (arith, greeted_room)))
                (catch_up_lem version l₄ ps frames to_broker to_client d few enc eb ec def
                  (omega (arith, ready_room, greeted_room)) rc)))))

  -- A replay whose CONNECT is well formed, whose CONNACK and SUBACK arrive, and whose connections
  -- accept every write, succeeds. The broker is sent, in this order, the CONNECT that asks for
  -- resumption, the re-SUBSCRIBE if the table is not empty, the retransmissions of the windows and
  -- the deferred packets in their order; the client is sent the frames of the leftover bytes and
  -- then the retransmissions. Afterwards the client-to-broker window has, for each identifier,
  -- the last deferred PUBLISH, in flight as published, or the last deferred PUBREL, in flight as
  -- released, whichever came later, and what it had where none was deferred; the other window is as
  -- it was, the buffer and the leftover are empty, and a keepalive that the CONNACK assigns has
  -- replaced the client's.
  pub establish_broker-order :
      (version : ProtocolVersion) (connect_raw patched : Bytes) (subs : Subscriptions)
      (connack suback : Next C) (l : Link C) (sub : List Bytes) (ps : List MqttPacket)
      (frames to_broker to_client : List Bytes)
      → force_session_resumption connect_raw ≡ ok patched
      → IsConnack connack
      → Resubscribed lib
          (resubscribe_packet lib subs version)
          suback
          (after_next (wrote l.broker (patched ∷ [])) connack)
          sub
      → Drains lib (codec_for lib version) l.broker_leftover ps
      → length ps ≤ length l.broker_leftover
      → Encodes lib l.client.codec ps frames
      → broker_retransmits l.windows ≡ ok to_broker
      → client_retransmits l.windows ≡ ok to_client
      → All IsDeferred l.buffer.entries
      → 1 + length sub + length to_broker + length l.buffer.entries ≤ l.broker.room
      → length frames + length to_client ≤ l.client.room
      → (l' : Link C) × (establish_broker lib version connect_raw subs connack suback l
          ≡ (ok tt, l'))
        × (l'.broker.sent
            ≡ ((l.broker.sent ++ (patched ∷ [])) ++ sub) ++ (to_broker ++ raws l.buffer.entries))
        × (l'.client.sent ≡ l.client.sent ++ (frames ++ to_client))
        × ((id : ℕ)
            → vec_get l'.windows.c2b id
              ≡ last_deferred l.buffer.entries id (vec_get l.windows.c2b id))
        × (l'.windows.b2c ≡ l.windows.b2c)
        × (l'.buffer ≡ empty_buffer)
        × (l'.broker_leftover ≡ [])
        × (l'.keep_alive ≡ assigned connack l.keep_alive)
  establish_broker-order version connect_raw patched subs connack suback l sub ps frames to_broker
        to_client patch greeting subscribed d few enc eb ec def rb rc =
      let o : Option MqttPacket = resubscribe_packet lib subs version in
      let first : Conn C = wrote l.broker (patched ∷ []) in
      let second : List Bytes = (resubscribed lib o suback (after_next first connack) sub).sent in
      let greeted : second ≡ (l.broker.sent ++ (patched ∷ [])) ++ sub =
        resubscribed-sent lib o suback (after_next first connack) sub subscribed
        ∙ ap (λ s. s ++ sub) (after_next-sent lib first connack) in
      let sent : (second ++ to_broker) ++ raws l.buffer.entries
          ≡ ((l.broker.sent ++ (patched ∷ [])) ++ sub) ++ (to_broker ++ raws l.buffer.entries) =
        append_assoc second to_broker (raws l.buffer.entries)
        ∙ ap (λ s. s ++ (to_broker ++ raws l.buffer.entries)) greeted in
      (
        _,
        establish_state version connect_raw patched subs connack suback l sub ps frames to_broker
            to_client patch greeting subscribed d few enc eb ec def rb rc,
        sent,
        append_assoc l.client.sent frames to_client,
        vec_get-flushed l.windows l.buffer.entries,
        b2c-flushed l.windows l.buffer.entries,
        refl,
        refl,
        refl,
      )
