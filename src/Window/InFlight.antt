-- ===== src/Window/InFlight.antt =====
-- What keeps an identifier in the windows of src/window.rs, and what takes it out.
use mathlib.Core.Path.{subst}
use traffic_director.Window.Vec.{
  WindowState, c2b_publish_sent, c2b_pubrel_sent, b2c_publish_sent, b2c_pubrec_forwarded, Slots,
}
use traffic_director.Window.{InflightWindows, is_at_most_once, track_c2b, track_b2c}
use traffic_director.Codec.{QoS, at_most_once, at_least_once, exactly_once, MqttPacket, CodecLib}
use traffic_director.Prelude.{ℕ, ◌≡◌, refl, sym, ap, ◌∙◌, ◌≢◌, false, Option, none, some, arith}
use traffic_director.Result.{ok}
use traffic_director.Window.Signals.{
  acknowledges, completes, receives, releases, publishes, PacketSignal, signal, Phase, phase, moved,
  if_tracked, started, client_c2b, client_b2c, broker_c2b, broker_b2c,
}
use traffic_director.Window.Phases.{track_c2b-Phases, track_b2c-Phases}

-- The identifier is in flight in a direction.
abbrev pub InFlight : Slots → ℕ → Type 0
InFlight v id = phase v id ≢ none

-- A packet that neither acknowledges nor completes the exchange of `id`.
abbrev pub Leaves : ℕ → MqttPacket → Type 0
Leaves id p = (signal p ≢ acknowledges id) × (signal p ≢ completes id)

moved-some : (i j : ℕ) (to : WindowState) (s : Phase) → s ≢ none → moved i j (some to) s ≢ none
moved-some i j to s h e = ground arith

moved-if_tracked :
    (i j : ℕ) (to : WindowState) (s : Phase) → s ≢ none → moved i j (if_tracked to s) s ≢ none
moved-if_tracked i j to none h e = h refl
moved-if_tracked i j to (some x) h e = ground arith

moved-none : (i j : ℕ) (s : Phase) → i ≢ j → s ≢ none → moved i j none s ≢ none
moved-none i j s n h e = ground arith

started-InFlight :
    (to : WindowState) (qos : QoS) (id : Option ℕ) (j : ℕ) (s : Phase)
    → s ≢ none
    → started to qos id j s ≢ none
started-InFlight to at_most_once id j s h = h
started-InFlight to at_least_once none j s h = h
started-InFlight to exactly_once none j s h = h
started-InFlight to at_least_once (some i) j s h = moved-some i j to s h
started-InFlight to exactly_once (some i) j s h = moved-some i j to s h

-- A publish of QoS 1 or 2 puts its identifier in flight.
started_self :
    (to : WindowState) (qos : QoS) (id : ℕ) (s : Phase)
    → is_at_most_once qos ≡ false
    → started to qos (some id) id s ≢ none
started_self to at_most_once id s h e = cc
started_self to at_least_once id s h e = ground arith
started_self to exactly_once id s h e = ground arith

client_c2b-InFlight : (s : PacketSignal) (j : ℕ) (ph : Phase) → ph ≢ none → client_c2b s j ph ≢ none
client_c2b-InFlight (publishes qos id) j ph h = started-InFlight c2b_publish_sent qos id j ph h
client_c2b-InFlight (releases i) j ph h = moved-if_tracked i j c2b_pubrel_sent ph h
client_c2b-InFlight _ j ph h = h

client_b2c-InFlight :
    (s : PacketSignal) (j : ℕ) (ph : Phase)
    → s ≢ acknowledges j
    → s ≢ completes j
    → ph ≢ none
    → client_b2c s j ph ≢ none
client_b2c-InFlight (acknowledges i) j ph a c h = moved-none i j ph (λ e. a (ap acknowledges e)) h
client_b2c-InFlight (completes i) j ph a c h = moved-none i j ph (λ e. c (ap completes e)) h
client_b2c-InFlight (receives i) j ph a c h = moved-if_tracked i j b2c_pubrec_forwarded ph h
client_b2c-InFlight _ j ph a c h = h

broker_c2b-InFlight :
    (s : PacketSignal) (j : ℕ) (ph : Phase)
    → s ≢ acknowledges j
    → s ≢ completes j
    → ph ≢ none
    → broker_c2b s j ph ≢ none
broker_c2b-InFlight (acknowledges i) j ph a c h = moved-none i j ph (λ e. a (ap acknowledges e)) h
broker_c2b-InFlight (completes i) j ph a c h = moved-none i j ph (λ e. c (ap completes e)) h
broker_c2b-InFlight _ j ph a c h = h

broker_b2c-InFlight : (s : PacketSignal) (j : ℕ) (ph : Phase) → ph ≢ none → broker_b2c s j ph ≢ none
broker_b2c-InFlight (publishes qos id) j ph h = started-InFlight b2c_publish_sent qos id j ph h
broker_b2c-InFlight _ j ph h = h

module _ {C : Type 0} (lib : CodecLib C) (w w' : InflightWindows) (p : MqttPacket) (id : ℕ) where
  -- Nothing that the client sends takes a publish of its own out of flight, and of the broker's
  -- publishes only the two packets that end them.
  pub track_c2b-c2b : track_c2b lib w p ≡ ok w' → InFlight w.c2b id → InFlight w'.c2b id
  track_c2b-c2b t h =
      subst (λ x. x ≢ none) (sym (track_c2b-Phases lib w p t id).0)
        (client_c2b-InFlight (signal p) id (phase w.c2b id) h)

  pub track_c2b-b2c :
      Leaves id p → track_c2b lib w p ≡ ok w' → InFlight w.b2c id → InFlight w'.b2c id
  track_c2b-b2c o t h =
      subst (λ x. x ≢ none) (sym (track_c2b-Phases lib w p t id).1)
        (client_b2c-InFlight (signal p) id (phase w.b2c id) o.0 o.1 h)

  pub track_b2c-c2b :
      Leaves id p → track_b2c lib w p ≡ ok w' → InFlight w.c2b id → InFlight w'.c2b id
  track_b2c-c2b o t h =
      subst (λ x. x ≢ none) (sym (track_b2c-Phases lib w p t id).0)
        (broker_c2b-InFlight (signal p) id (phase w.c2b id) o.0 o.1 h)

  pub track_b2c-b2c : track_b2c lib w p ≡ ok w' → InFlight w.b2c id → InFlight w'.b2c id
  track_b2c-b2c t h =
      subst (λ x. x ≢ none) (sym (track_b2c-Phases lib w p t id).1)
        (broker_b2c-InFlight (signal p) id (phase w.b2c id) h)

  module _ (qos : QoS) where
    pub track_c2b-starts :
        signal p ≡ publishes qos (some id)
        → is_at_most_once qos ≡ false
        → track_c2b lib w p ≡ ok w'
        → InFlight w'.c2b id
    track_c2b-starts s q t =
        subst (λ x. x ≢ none)
          (sym ((track_c2b-Phases lib w p t id).0 ∙ ap (λ s. client_c2b s id (phase w.c2b id)) s))
          (started_self c2b_publish_sent qos id (phase w.c2b id) q)

    pub track_b2c-starts :
        signal p ≡ publishes qos (some id)
        → is_at_most_once qos ≡ false
        → track_b2c lib w p ≡ ok w'
        → InFlight w'.b2c id
    track_b2c-starts s q t =
        subst (λ x. x ≢ none)
          (sym ((track_b2c-Phases lib w p t id).1 ∙ ap (λ s. broker_b2c s id (phase w.b2c id)) s))
          (started_self b2c_publish_sent qos id (phase w.b2c id) q)
