-- ===== src/Session/Subscriptions/Shape.antt =====
-- The shape of the table of src/session/subscriptions.rs: no filter twice, and bytes that come from
-- SUBSCRIBE packets.
use traffic_director.Codec.{
  QoS, ProtocolVersion, mqtt3, mqtt5, PacketV3, SubscriptionOptions, PacketV5, MqttPacket, v3, v5,
  version_packet, CodecLib,
}
use traffic_director.Prelude.{
  ℕ, String, ◌≡◌, refl, inl, inr, none, List, [], ◌∷◌, arith, str_eq, eq_iff, Bool-cases,
}
use traffic_director.Session.Subscriptions.Table.{lookup, lookup-upsert, lookup-remove}
use traffic_director.Session.Subscriptions.{
  upsert, upsert_all, remove, remove_all, v3_options, v5_options, track, options_byte,
  Subscriptions,
}

-- No filter stands twice.
abbrev pub Distinct : Subscriptions → Type 0
Distinct [] = Unit
Distinct (e ∷ s) = (lookup s e.topic_filter ≡ none) × Distinct s

-- A byte that a SUBSCRIBE of the version can have put into the table.
abbrev pub IsOptions : {C : Type 0} → CodecLib C → ProtocolVersion → ℕ → Type 0
IsOptions lib mqtt3 b = (q : QoS) × (b ≡ lib.qos_byte q)
IsOptions lib mqtt5 b = (o : SubscriptionOptions) × (b ≡ options_byte lib o)

abbrev pub IsOf : ProtocolVersion → MqttPacket → Type 0
IsOf mqtt3 (v3 p) = Unit
IsOf mqtt5 (v5 p) = Unit
IsOf _ _ = ⊥

upsert-Distinct : (s : Subscriptions) (f : String) (o : ℕ) → Distinct s → Distinct (upsert s f o)
unfolding upsert lookup
upsert-Distinct [] f o d = (refl, tt)
upsert-Distinct (e ∷ s) f o d = ground (
  arith,
  lookup-upsert s f e.topic_filter o,
  upsert-Distinct s f o d.1,
  eq_iff e.topic_filter f,
  eq_iff f e.topic_filter,
)

remove-Distinct : (s : Subscriptions) (f : String) → Distinct s → Distinct (remove s f)
unfolding remove
remove-Distinct [] f d = tt
remove-Distinct (e ∷ s) f d =
    ground (arith, lookup-remove s f e.topic_filter, remove-Distinct s f d.1)

upsert_all-Distinct :
    (s : Subscriptions) (filters : List (String × ℕ)) → Distinct s → Distinct (upsert_all s filters)
unfolding upsert_all
upsert_all-Distinct s [] d = d
upsert_all-Distinct s ((f, o) ∷ filters) d =
    upsert_all-Distinct (upsert s f o) filters (upsert-Distinct s f o d)

remove_all-Distinct :
    (s : Subscriptions) (filters : List String) → Distinct s → Distinct (remove_all s filters)
unfolding remove_all
remove_all-Distinct s [] d = d
remove_all-Distinct s (f ∷ filters) d =
    remove_all-Distinct (remove s f) filters (remove-Distinct s f d)

module _ {C : Type 0} (lib : CodecLib C) where
  abbrev pub AllOptions : ProtocolVersion → Subscriptions → Type 0
  AllOptions ver [] = Unit
  AllOptions ver (e ∷ s) = IsOptions lib ver e.options × AllOptions ver s

  abbrev AllPairs : ProtocolVersion → List (String × ℕ) → Type 0
  AllPairs ver [] = Unit
  AllPairs ver ((f, o) ∷ filters) = IsOptions lib ver o × AllPairs ver filters

  upsert-AllOptions :
      (ver : ProtocolVersion) (s : Subscriptions) (f : String) (o : ℕ)
      → IsOptions lib ver o
      → AllOptions ver s
      → AllOptions ver (upsert s f o)
  unfolding upsert
  upsert-AllOptions ver [] f o p h = (p, tt)
  upsert-AllOptions ver (e ∷ s) f o p h = elim (Bool-cases (str_eq e.topic_filter f)) [
    | inl same ↦ rw same (p, h.1)
    | inr other ↦ rw other (h.0, upsert-AllOptions ver s f o p h.1)
  ]

  remove-AllOptions :
      (ver : ProtocolVersion) (s : Subscriptions) (f : String)
      → AllOptions ver s
      → AllOptions ver (remove s f)
  unfolding remove
  remove-AllOptions ver [] f h = tt
  remove-AllOptions ver (e ∷ s) f h = elim (Bool-cases (str_eq e.topic_filter f)) [
    | inl same ↦ rw same (remove-AllOptions ver s f h.1)
    | inr other ↦ rw other (h.0, remove-AllOptions ver s f h.1)
  ]

  upsert_all-AllOptions :
      (ver : ProtocolVersion) (s : Subscriptions) (filters : List (String × ℕ))
      → AllPairs ver filters
      → AllOptions ver s
      → AllOptions ver (upsert_all s filters)
  unfolding upsert_all
  upsert_all-AllOptions ver s [] p h = h
  upsert_all-AllOptions ver s ((f, o) ∷ filters) p h =
      upsert_all-AllOptions ver (upsert s f o) filters p.1 (upsert-AllOptions ver s f o p.0 h)

  remove_all-AllOptions :
      (ver : ProtocolVersion) (s : Subscriptions) (filters : List String)
      → AllOptions ver s
      → AllOptions ver (remove_all s filters)
  unfolding remove_all
  remove_all-AllOptions ver s [] h = h
  remove_all-AllOptions ver s (f ∷ filters) h =
      remove_all-AllOptions ver (remove s f) filters (remove-AllOptions ver s f h)

  v3_options-AllPairs : (filters : List (String × QoS)) → AllPairs mqtt3 (v3_options lib filters)
  unfolding v3_options
  v3_options-AllPairs [] = tt
  v3_options-AllPairs ((f, q) ∷ filters) = ((q, refl), v3_options-AllPairs filters)

  v5_options-AllPairs :
      (filters : List (String × SubscriptionOptions)) → AllPairs mqtt5 (v5_options lib filters)
  unfolding v5_options
  v5_options-AllPairs [] = tt
  v5_options-AllPairs ((f, o) ∷ filters) = ((o, refl), v5_options-AllPairs filters)

  -- A table without repeated filters whose bytes come from SUBSCRIBEs of the version.
  pub record IsRestorable (ver : ProtocolVersion) (s : Subscriptions) : Type 0 where
    pub distinct : Distinct s
    pub options : AllOptions ver s

  -- Tracking a packet of the session's version keeps the table valid.
  pub track-IsRestorable :
      (ver : ProtocolVersion) (s : Subscriptions) (p : MqttPacket)
      → IsOf ver p
      → IsRestorable ver s
      → IsRestorable ver (track lib s p)
  unfolding track
  track-IsRestorable mqtt3 s (v3 (PacketV3.subscribe id filters)) o v = record {
    distinct = upsert_all-Distinct s (v3_options lib filters) v.distinct;
    options =
        upsert_all-AllOptions mqtt3 s (v3_options lib filters) (v3_options-AllPairs filters)
          v.options;
  }
  track-IsRestorable mqtt5 s (v5 (PacketV5.subscribe p)) o v = record {
    distinct = upsert_all-Distinct s (v5_options lib p.topic_filters) v.distinct;
    options =
        upsert_all-AllOptions mqtt5 s (v5_options lib p.topic_filters)
          (v5_options-AllPairs p.topic_filters) v.options;
  }
  track-IsRestorable mqtt3 s (v3 (PacketV3.unsubscribe id filters)) o v = record {
    distinct = remove_all-Distinct s filters v.distinct;
    options = remove_all-AllOptions mqtt3 s filters v.options;
  }
  track-IsRestorable mqtt5 s (v5 (PacketV5.unsubscribe p)) o v = record {
    distinct = remove_all-Distinct s p.topic_filters v.distinct;
    options = remove_all-AllOptions mqtt5 s p.topic_filters v.options;
  }
  track-IsRestorable mqtt3 s (v5 p) o v = absurd o
  track-IsRestorable mqtt5 s (v3 p) o v = absurd o
  track-IsRestorable mqtt3 s (version_packet p) o v = absurd o
  track-IsRestorable mqtt5 s (version_packet p) o v = absurd o
  track-IsRestorable mqtt3 s _ o v = v
  track-IsRestorable mqtt5 s _ o v = v
