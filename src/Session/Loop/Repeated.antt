-- ===== src/Session/Loop/Repeated.antt =====
-- The end of an outage in src/session/forward.rs, and what is owed to the broker then.
use traffic_director.Session.Loop.Keeps.{EventFrom}
use traffic_director.Session.Loop.Invariant.{EventOf, IsLive, Lives, forward_loop-IsLive}
use traffic_director.Session.Kept.{HasAfter}
use traffic_director.Window.Signals.{publishes, signal}
use traffic_director.Session.{codec_for}
use mathlib.Core.Path.{subst}
use traffic_director.Session.Loop.{
  on_wait, link_of, after_link, reconnected, Event, client_yields, wait_ends, turn, outage,
  wait_result, forward_loop, in_phase,
}
use traffic_director.Session.Replay.Flush.{raws}
use traffic_director.Exec.Post.{Post, Post-thread, Post-mono, Post-and}
use traffic_director.Session.Connected.{Loop, continues}
use traffic_director.Session.Replay.{Link, establish_broker}
use traffic_director.Session.Conn.{Conn, Next, next_packet}
use traffic_director.Window.Invariant.{IsValid}
use traffic_director.Window.InFlight.{InFlight, Leaves}
use traffic_director.Window.Retransmit.{SameWithDup, ResentToBroker}
use traffic_director.Window.Vec.{
  c2b_publish_sent, c2b_pubrel_sent, b2c_publish_sent, b2c_pubrec_forwarded, Slot, Slots, vec_get,
}
use traffic_director.Registry.{BufferedPublish}
use traffic_director.Window.{InflightWindows, is_at_most_once}
use traffic_director.Codec.{CodecLib, QoS, ProtocolVersion, MqttPacket, HasMqttHeaders}
use traffic_director.Prelude.{
  Bytes, ℕ, ◌≡◌, refl, sym, ◌⊎◌, inl, inr, Option, none, some, List, [], ◌∷◌, ◌++◌, ◌==◌,
  Bool-cases, Any, Any-append, append-Any, Any-mono, false, All,
}
use traffic_director.Result.{ok}
use traffic_director.Session.Loop.Upstream.{Held, Owed, forward_loop-Owed}
use traffic_director.Session.Outage.Accepts.{Publishes}
use traffic_director.Session.Replay.Rewrites.{Rewritten, establish_broker-Rewritten}

-- The packet repeats what the slot keeps: a PUBLISH with DUP set, a PUBREL as it was.
abbrev pub Resends : Slot → Bytes → Type 0
Resends (c2b_publish_sent, raw) out = SameWithDup raw out
Resends (c2b_pubrel_sent, raw) out = out ≡ raw
Resends _ out = ⊥

abbrev pub ResendsId : Slots → ℕ → Bytes → Type 0
ResendsId v id out = (slot : Slot) × (vec_get v id ≡ some slot) × Resends slot out

-- The packet is that of the identifier: what the window keeps, repeated, or what is buffered.
abbrev pub Repeats : ℕ → InflightWindows → List BufferedPublish → Bytes → Type 0
Repeats id w entries out =
    ResendsId w.c2b id out ⊎ Any (λ e. Publishes id e × (e.raw ≡ out)) entries

found_first :
    (k id : ℕ) (slot : Slot) (v : Slots) (o : Bytes) (out : List Bytes)
    → Resends slot o
    → (InFlight v id → Any (ResendsId v id) out)
    → InFlight ((k, slot) ∷ v) id
    → Any (ResendsId ((k, slot) ∷ v) id) (o ∷ out)
unfolding vec_get
found_first k id slot v o out r rest h = elim (Bool-cases (k == id)) [
  | inl same ↦ inl (slot, rw same refl, r)
  | inr other ↦ inr (
      Any-mono (ResendsId v id) (ResendsId ((k, slot) ∷ v) id) out
        (λ x (s, e, r). (s, rw other e, r)) (rest (λ e. h (rw other e))))
]

ResentToBroker-ResendsId :
    (v : Slots) (id : ℕ) (out : List Bytes)
    → ResentToBroker v out
    → InFlight v id
    → Any (ResendsId v id) out
unfolding vec_get
ResentToBroker-ResendsId [] id out r h = absurd (h refl)
ResentToBroker-ResendsId ((k, (c2b_publish_sent, raw)) ∷ v) id [] r h = absurd r
ResentToBroker-ResendsId ((k, (c2b_pubrel_sent, raw)) ∷ v) id [] r h = absurd r
ResentToBroker-ResendsId ((k, (c2b_publish_sent, raw)) ∷ v) id (o ∷ out) r h =
    found_first k id (c2b_publish_sent, raw) v o out r.0 (ResentToBroker-ResendsId v id out r.1) h
ResentToBroker-ResendsId ((k, (c2b_pubrel_sent, raw)) ∷ v) id (o ∷ out) r h =
    found_first k id (c2b_pubrel_sent, raw) v o out r.0 (ResentToBroker-ResendsId v id out r.1) h
ResentToBroker-ResendsId ((k, (b2c_publish_sent, raw)) ∷ v) id out r h = absurd r
ResentToBroker-ResendsId ((k, (b2c_pubrec_forwarded, raw)) ∷ v) id out r h = absurd r

raws-Any :
    (P : BufferedPublish → Type 0) (entries : List BufferedPublish)
    → Any P entries
    → Any (λ out. Any (λ e. P e × (e.raw ≡ out)) entries) (raws entries)
raws-Any P [] h = h
raws-Any P (e ∷ entries) (inl h) = inl (inl (h, refl))
raws-Any P (e ∷ entries) (inr h) =
    inr (Any-mono _ _ (raws entries) (λ o x. inr x) (raws-Any P entries h))

Rewritten-Repeats :
    {C : Type 0} (id : ℕ) (w : InflightWindows) (entries : List BufferedPublish) (k : Link C)
    → Held id w entries
    → Rewritten w entries tt k
    → Any (Repeats id w entries) k.broker.sent
Rewritten-Repeats id w entries k held (before, out, eq, resent) =
    subst (Any (Repeats id w entries)) (sym eq) (append-Any _ before _ (from held))
  where
    from : Held id w entries → Any (Repeats id w entries) (out ++ raws entries)
    from (inl h) =
        Any-append _ out _
          (Any-mono _ _ out (λ o r. inl r) (ResentToBroker-ResendsId w.c2b id out resent h))
    from (inr h) =
        append-Any _ out _
          (Any-mono _ _ (raws entries) (λ o r. inr r) (raws-Any (Publishes id) entries h))

-- The broker of a session, if it has one, has been sent a packet of the identifier that is owed in
-- the windows and the buffer of `l`.
abbrev pub HasRepeated : {C : Type 0} → ℕ → Loop C → {A : Type 0} → A → Loop C → Type 0
HasRepeated id l a l' =
    (b : Conn _)
    → l'.session.broker ≡ some b
    → Any (Repeats id l.session.windows l.session.buffer.entries) b.sent

module _ {C : Type 0} (lib : CodecLib C) (loop_id fd id : ℕ) where
  wait-HasRepeated :
      (o : Option (Conn C)) (connack suback : Next C) (l : Loop C)
      → l.session.broker ≡ none
      → IsValid l.session.windows
      → Held id l.session.windows l.session.buffer.entries
      → Post (HasRepeated id l) (on_wait lib loop_id fd o connack suback l)
  unfolding on_wait
  wait-HasRepeated none connack suback l gone v h = λ b e. cc
  wait-HasRepeated (some stream) connack suback l gone v h =
      let b : Conn C = record stream {
        codec = codec_for lib l.session.hs.version;
        read_buf = [];
      } in
      Post-thread (HasRepeated id l) (Rewritten l.session.windows l.session.buffer.entries)
        (establish_broker lib l.session.hs.version l.session.hs.connect_raw l.session.subscriptions
          connack suback (link_of l b))
        (after_link l) (λ u k l'. (ok continues, reconnected lib loop_id fd k.broker l'))
        (establish_broker-Rewritten lib l.session.hs.version l.session.hs.connect_raw
          l.session.subscriptions connack suback (link_of l b) v)
        (λ u k r b e.
          let same : k.broker ≡ b = cc in
          subst (λ c. Any (Repeats id l.session.windows l.session.buffer.entries) c.sent) same
            (Rewritten-Repeats id l.session.windows l.session.buffer.entries k h r))

  turn-HasRepeated :
      (o : Option (Conn C)) (connack suback : Next C) (l : Loop C)
      → l.session.broker ≡ none
      → IsValid l.session.windows
      → Held id l.session.windows l.session.buffer.entries
      → Post (HasRepeated id l) (turn lib loop_id fd (wait_ends o connack suback) l)
  unfolding turn outage
  turn-HasRepeated o connack suback l gone v h = in_outage l.session.broker gone
    where
      in_outage :
          (b : Option (Conn C))
          → b ≡ none
          → Post (HasRepeated id l) (in_phase lib loop_id fd b (wait_ends o connack suback) l)
      in_outage none e = wait-HasRepeated (wait_result l.step o) connack suback l gone v h
      in_outage (some b) e = cc

  -- A session that is live takes a publish of QoS 1 or 2 with an identifier from its client, then
  -- there are any events in which no packet of the broker acknowledges or completes the identifier
  -- and the client's packets are of its version. If `forward_loop` returns from these without an
  -- error and the session is without a broker connection, then a turn that ends the wait for one, and
  -- returns without an error too, leaves it without one, or has written to the new connection a
  -- packet of that identifier: the PUBLISH of the window with DUP set, the PUBREL of the window, or a
  -- PUBLISH or PUBREL of the outage buffer.
  pub forward_loop-HasRepeated :
      (laws : HasMqttHeaders lib) (ver : ProtocolVersion) (now : ℕ) (p : MqttPacket) (qos : QoS)
      (codec : C) (buf : Bytes) (events : List (Event C)) (l : Loop C) (o : Option (Conn C))
      (connack suback : Next C)
      → signal p ≡ publishes qos (some id)
      → is_at_most_once qos ≡ false
      → IsLive lib ver l
      → All (EventOf ver) (client_yields now (next_packet p codec buf) ∷ events)
      → All (EventFrom (λ p. Unit) (Leaves id)) events
      → Post
          (λ f l₁.
            l₁.session.broker ≡ none
            → Post (HasRepeated id l₁) (turn lib loop_id fd (wait_ends o connack suback) l₁))
          (forward_loop lib loop_id fd (client_yields now (next_packet p codec buf) ∷ events) l)
  forward_loop-HasRepeated laws ver now p qos codec buf events l o connack suback s q live of out =
      let all : List (Event C) = client_yields now (next_packet p codec buf) ∷ events in
      Post-mono (λ f l₁. HasAfter (Owed id) f l₁ × Lives lib ver f l₁) _ _
        (Post-and (HasAfter (Owed id)) (Lives lib ver) (forward_loop lib loop_id fd all l)
          (forward_loop-Owed lib id laws loop_id fd now p qos codec buf events l s q out)
          (forward_loop-IsLive lib laws loop_id fd ver all l of live))
        (λ f l₁ h gone. turn-HasRepeated o connack suback l₁ gone h.1.windows_ok h.0)
