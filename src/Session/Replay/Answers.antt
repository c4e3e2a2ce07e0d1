-- ===== src/Session/Replay/Answers.antt =====
-- The packets that the broker answers a replay of src/session/forward.rs with, and the re-SUBSCRIBE.
use mathlib.Core.Path.{subst}
use traffic_director.Codec.{PacketV3, PacketV5, MqttPacket, v3, v5, CodecLib}
use traffic_director.Prelude.{
  Bytes, ℕ, ◌≤◌, ◌≡◌, refl, ap, Option, none, some, List, [], ◌∷◌, arith, length, sym, ◌-◌, ◌++◌,
  append-nil, ◌∙◌,
}
use traffic_director.Result.{ok}
use traffic_director.Session.Replay.{
  on_connack, assign_keep_alive, on_suback, resubscribe_with, broker_next, Link,
}
use traffic_director.Session.Replay.Writes.{wrote, broker_send_lem}
use traffic_director.Session.Subscriptions.{or_default}
use traffic_director.Exec.Steps.{step_ok}
use traffic_director.Session.Conn.{after_next, Conn, Next, next_packet, next_error, next_none}

abbrev pub IsConnack : {C : Type 0} → Next C → Type 0
IsConnack (next_packet (v3 (PacketV3.connect_ack a)) codec buf) = Unit
IsConnack (next_packet (v5 (PacketV5.connect_ack a)) codec buf) = Unit
IsConnack _ = ⊥

abbrev pub IsPacket : {C : Type 0} → Next C → Type 0
IsPacket (next_packet p codec buf) = Unit
IsPacket _ = ⊥

-- The keepalive after a CONNACK: the broker's, if it assigns one.
abbrev pub assigned : {C : Type 0} → Next C → ℕ → ℕ
assigned (next_packet (v5 (PacketV5.connect_ack a)) codec buf) keep_alive =
    or_default a.server_keepalive_sec keep_alive
assigned _ keep_alive = keep_alive

pub assign_keep_alive_lem :
    {C : Type 0} (o : Option ℕ) (l : Link C)
    → assign_keep_alive o l ≡ (ok tt, record l { keep_alive = or_default o l.keep_alive })
unfolding assign_keep_alive
assign_keep_alive_lem none l = refl
assign_keep_alive_lem (some secs) l = refl

pub on_connack_lem :
    {C : Type 0} (n : Next C) (l : Link C)
    → IsConnack n
    → on_connack n l ≡ (ok tt, record l { keep_alive = assigned n l.keep_alive })
unfolding on_connack
on_connack_lem (next_packet (v3 (PacketV3.connect_ack a)) codec buf) l h = refl
on_connack_lem (next_packet (v5 (PacketV5.connect_ack a)) codec buf) l h =
    assign_keep_alive_lem a.server_keepalive_sec l
on_connack_lem _ l h = absurd h

pub on_suback_lem : {C : Type 0} (n : Next C) (l : Link C) → IsPacket n → on_suback n l ≡ (ok tt, l)
unfolding on_suback
on_suback_lem (next_packet p codec buf) l h = refl
on_suback_lem (next_error codec buf) l h = absurd h
on_suback_lem (next_none codec buf) l h = absurd h

pub broker_next_lem :
    {C : Type 0} (n : Next C) (l : Link C)
    → broker_next n l ≡ (ok tt, record l { broker = after_next l.broker n })
unfolding broker_next
broker_next_lem n l = refl

module _ {C : Type 0} (lib : CodecLib C) where
  abbrev pub Resubscribed : Option MqttPacket → Next C → Conn C → List Bytes → Type 0
  Resubscribed none suback broker out = out ≡ []
  Resubscribed (some p) suback broker out =
      (raw : Bytes) × (lib.encode broker.codec p ≡ some raw) × IsPacket suback × (out ≡ raw ∷ [])

  abbrev pub resubscribed : Option MqttPacket → Next C → Conn C → List Bytes → Conn C
  resubscribed none suback broker out = broker
  resubscribed (some p) suback broker out = after_next (wrote broker out) suback

  pub resubscribe_with_lem :
      (o : Option MqttPacket) (suback : Next C) (l : Link C) (out : List Bytes)
      → Resubscribed o suback l.broker out
      → length out ≤ l.broker.room
      → resubscribe_with lib o suback l
        ≡ (ok tt, record l { broker = resubscribed o suback l.broker out })
  unfolding resubscribe_with
  resubscribe_with_lem none suback l out h room = refl
  resubscribe_with_lem (some p) suback l out (raw, enc, answer, one) room =
      let one_fits : 1 ≤ l.broker.room = subst (λ o. length o ≤ l.broker.room) one room in
      let l₁ : Link C = record l { broker = wrote l.broker (raw ∷ []) } in
      let l₂ : Link C = record l { broker = after_next (wrote l.broker (raw ∷ [])) suback } in
      step_ok _ (broker_send_lem lib l p raw enc one_fits) (
        step_ok (λ u. on_suback suback) (broker_next_lem suback l₁)
          (on_suback_lem suback l₂ answer
            ∙ ap (λ o. (ok tt, record l { broker = after_next (wrote l.broker o) suback }))
                (sym one)))

  -- The broker connection once its CONNACK and its SUBACK have been read.
  abbrev pub ready : Bytes → Next C → Option MqttPacket → Next C → Conn C → List Bytes → Conn C
  ready patched connack o suback broker sub =
      resubscribed o suback (after_next (wrote broker (patched ∷ [])) connack) sub

  pub after_next-sent : (conn : Conn C) (n : Next C) → (after_next conn n).sent ≡ conn.sent
  after_next-sent conn (next_packet p codec buf) = refl
  after_next-sent conn (next_error codec buf) = refl
  after_next-sent conn (next_none codec buf) = refl

  pub after_next-room : (conn : Conn C) (n : Next C) → (after_next conn n).room ≡ conn.room
  after_next-room conn (next_packet p codec buf) = refl
  after_next-room conn (next_error codec buf) = refl
  after_next-room conn (next_none codec buf) = refl

  pub resubscribed-sent :
      (o : Option MqttPacket) (suback : Next C) (conn : Conn C) (out : List Bytes)
      → Resubscribed o suback conn out
      → (resubscribed o suback conn out).sent ≡ conn.sent ++ out
  resubscribed-sent none suback conn out h =
      sym (append-nil conn.sent) ∙ ap (λ o. conn.sent ++ o) (sym h)
  resubscribed-sent (some p) suback conn out h = after_next-sent (wrote conn out) suback

  pub resubscribed-room :
      (o : Option MqttPacket) (suback : Next C) (conn : Conn C) (out : List Bytes)
      → Resubscribed o suback conn out
      → (resubscribed o suback conn out).room ≡ conn.room - length out
  resubscribed-room none suback conn out h =
      let shorter : length out ≡ 0 = ap length h in omega (arith, shorter)
  resubscribed-room (some p) suback conn out h = after_next-room (wrote conn out) suback
