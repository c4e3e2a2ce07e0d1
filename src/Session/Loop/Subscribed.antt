-- ===== src/Session/Loop/Subscribed.antt =====
-- The subscription table across the loop of src/session/forward.rs, against the packets that the client
-- has sent.
use mathlib.Core.Path.{subst}
use traffic_director.Session.Loop.Keeps.{turn-Has, EventFrom}
use traffic_director.Session.Outage.Cases.{service_cases}
use traffic_director.Session.Subscriptions.Table.{granted, request, lookup, lookup-track}
use traffic_director.Exec.Post.{Post, Post-step, Post-always, Post-bind, Post-mono}
use traffic_director.Session.Connected.{Loop, Flow, continues, ends}
use traffic_director.Session.Subscriptions.{Subscriptions, track}
use traffic_director.Session.Outage.{Served, service_outage_packet}
use traffic_director.Session.Conn.{Conn, next_packet, next_error, next_none, polled, Next}
use traffic_director.Session.Loop.{
  Event, client_yields, broker_yields, connected, turn, outage, on_client_outage, in_phase,
  with_broker, served_of, freezes, control_closed, wait_ends, time_is, forward_loop, then_loop,
}
use traffic_director.Codec.{MqttPacket, CodecLib}
use traffic_director.Prelude.{
  Bytes, ℕ, String, ◌≡◌, refl, sym, ap, Option, none, some, List, [], ◌∷◌, ◌∙◌,
}
use traffic_director.Session.Connected.Keeps.{on_client_next-turns}
use traffic_director.Session.Kept.{Property, HasAfter, HasLink, Kept, NextFrom}

-- The packets that the client has sent.
abbrev pub client_packets : {C : Type 0} → List (Event C) → List MqttPacket
client_packets [] = []
client_packets (client_yields now (next_packet p codec buf) ∷ events) = p ∷ client_packets events
client_packets (_ ∷ events) = client_packets events

-- The options of a filter after a client has sent these packets, `before` if none asks for it.
abbrev pub granted_all : {C : Type 0} → CodecLib C → List MqttPacket → String → Option ℕ → Option ℕ
granted_all lib [] filter before = before
granted_all lib (p ∷ packets) filter before =
    granted_all lib packets filter (granted (request lib p) filter before)

abbrev tracked_all : {C : Type 0} → CodecLib C → List MqttPacket → Subscriptions → Subscriptions
tracked_all lib [] t = t
tracked_all lib (p ∷ packets) t = tracked_all lib packets (track lib t p)

lookup-tracked_all :
    {C : Type 0} (lib : CodecLib C) (packets : List MqttPacket) (t : Subscriptions)
    (filter : String)
    → lookup (tracked_all lib packets t) filter ≡ granted_all lib packets filter (lookup t filter)
lookup-tracked_all lib [] t filter = refl
lookup-tracked_all lib (p ∷ packets) t filter =
    lookup-tracked_all lib packets (track lib t p) filter
    ∙ ap (granted_all lib packets filter) (lookup-track lib t p filter)

any_next : {C : Type 0} (next : Next C) → NextFrom (λ p. Unit) next
any_next (next_packet p codec buf) = tt
any_next (next_error codec buf) = tt
any_next (next_none codec buf) = tt

abbrev TableIs : Subscriptions → Property
TableIs t₀ ver w b t = t ≡ t₀

module _ {C : Type 0} (lib : CodecLib C) where
  -- An outage changes the table as tracking the packet does, whatever the outcome.
  service-track :
      (p : MqttPacket) (s : Served C)
      → (service_outage_packet lib p s).1.subscriptions ≡ track lib s.subscriptions p
  service-track p s =
      service_cases lib (λ s'. s'.subscriptions ≡ track lib s.subscriptions p) s p refl
        (λ b i q n raw e t x. refl) (λ w same e. sym same) (λ c same e. sym same)

  TableIs-Kept : (t₀ : Subscriptions) → Kept lib (TableIs t₀) (λ p. ⊥) (λ p. Unit)
  TableIs-Kept t₀ = record {
    client_tracked = λ ver w w' b t p o e h. h;
    table_tracked = λ ver w b t p o h. absurd o;
    broker_tracked = λ ver w w' b t p o e h. h;
    served = λ ver p s o h. absurd o;
    replayed = λ ver connect_raw t connack suback k h.
        Post-always (HasLink (TableIs t₀) ver t) _ (λ u k'. h);
  }

  module _ (id fd : ℕ) where
    -- The table after a turn of the loop.
    abbrev after_turn : Event C → Subscriptions → Subscriptions
    after_turn (client_yields now (next_packet p codec buf)) t = track lib t p
    after_turn _ t = t

    client_turn :
        (now : ℕ) (p : MqttPacket) (codec : C) (buf : Bytes) (o : Option (Conn C)) (l : Loop C)
        → Post
            (HasAfter (TableIs (track lib l.session.subscriptions p)))
            (in_phase lib id fd o (client_yields now (next_packet p codec buf)) l)
    unfolding connected outage on_client_outage
    client_turn now p codec buf (some b) l =
        let t : Subscriptions = l.session.subscriptions in
        on_client_next-turns lib (TableIs t) (TableIs t) (TableIs (track lib t p)) p now b codec buf
          (with_broker none l) (λ ver w w' b t e h. h) (λ ver w b t h. ap (λ t. track lib t p) h)
          refl
    client_turn now p codec buf none l =
        let l₁ : Loop C = record l {
          session = record l.session { client = polled l.session.client codec buf };
          last_client_activity = now;
        } in
        Post-step (HasAfter (TableIs (track lib l.session.subscriptions p)))
          (service_outage_packet lib p (served_of l₁)).0 _ _ (λ u. service-track p (served_of l₁))

    same_table :
        (e : Event C) (l : Loop C)
        → EventFrom (λ p. ⊥) (λ p. Unit) e
        → Post (HasAfter (TableIs l.session.subscriptions)) (turn lib id fd e l)
    same_table e l o =
        turn-Has lib (TableIs l.session.subscriptions) id fd (TableIs-Kept l.session.subscriptions)
          e l o refl

    turn-track :
        (e : Event C) (l : Loop C)
        → Post (HasAfter (TableIs (after_turn e l.session.subscriptions))) (turn lib id fd e l)
    unfolding turn
    turn-track (client_yields now (next_packet p codec buf)) l =
        client_turn now p codec buf l.session.broker l
    turn-track (client_yields now (next_error codec buf)) l = same_table _ l tt
    turn-track (client_yields now (next_none codec buf)) l = same_table _ l tt
    turn-track (broker_yields next) l = same_table (broker_yields next) l (any_next next)
    turn-track (freezes a) l = same_table (freezes a) l tt
    turn-track control_closed l = same_table control_closed l tt
    turn-track (wait_ends s connack suback) l = same_table (wait_ends s connack suback) l tt
    turn-track (time_is now) l = same_table (time_is now) l tt

    tracked_all-client_packets :
        (e : Event C) (events : List (Event C)) (t : Subscriptions)
        → tracked_all lib (client_packets events) (after_turn e t)
          ≡ tracked_all lib (client_packets (e ∷ events)) t
    tracked_all-client_packets (client_yields now (next_packet p codec buf)) events t = refl
    tracked_all-client_packets (client_yields now (next_error codec buf)) events t = refl
    tracked_all-client_packets (client_yields now (next_none codec buf)) events t = refl
    tracked_all-client_packets _ events t = refl

    abbrev AllTracked : List (Event C) → Subscriptions → Flow → Loop C → Type 0
    AllTracked events t f l =
        f ≡ continues → l.session.subscriptions ≡ tracked_all lib (client_packets events) t

    rest_of_loop :
        (events : List (Event C)) (t : Subscriptions) (f : Flow) (l : Loop C)
        → Post (AllTracked events l.session.subscriptions) (forward_loop lib id fd events l)
        → l.session.subscriptions ≡ t
        → Post (AllTracked events t) (then_loop lib id fd (forward_loop lib id fd events) f l)
    rest_of_loop events t continues l h same =
        subst (λ t. Post (AllTracked events t) (forward_loop lib id fd events l)) same h
    rest_of_loop events t ends l h same = λ e. cc

    forward_loop-tracked_all :
        (events : List (Event C)) (l : Loop C)
        → Post (AllTracked events l.session.subscriptions) (forward_loop lib id fd events l)
    unfolding forward_loop
    forward_loop-tracked_all [] l = λ e. refl
    forward_loop-tracked_all (e ∷ events) l =
        let t : Subscriptions = l.session.subscriptions in
        Post-bind (HasAfter (TableIs (after_turn e t))) (AllTracked (e ∷ events) t)
          (turn lib id fd e l) _ (turn-track e l)
          (λ f l₁ h.
            Post-mono (AllTracked events (after_turn e t)) (AllTracked (e ∷ events) t) _
              (rest_of_loop events (after_turn e t) f l₁ (forward_loop-tracked_all events l₁) h)
              (λ f' l' k e'. k e' ∙ tracked_all-client_packets e events t))

    -- After a run of the loop that returned to its next turn, the subscription table maps each filter
    -- to what the client's packets alone ask for, one after the other, starting from the table
    -- before: outages, freezes, replays and the broker's packets, in any order, make no difference.
    pub forward_loop-granted_all :
        (events : List (Event C)) (l : Loop C) (filter : String)
        → Post
            (λ f l'.
              f ≡ continues
              → lookup l'.session.subscriptions filter
                ≡ granted_all lib
                    (client_packets events)
                    filter
                    (lookup l.session.subscriptions filter))
            (forward_loop lib id fd events l)
    forward_loop-granted_all events l filter =
        Post-mono (AllTracked events l.session.subscriptions) _ _
          (forward_loop-tracked_all events l)
          (λ f l' h e.
            ap (λ t. lookup t filter) (h e)
            ∙ lookup-tracked_all lib (client_packets events) l.session.subscriptions filter)
