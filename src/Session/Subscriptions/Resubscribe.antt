-- ===== src/Session/Subscriptions/Resubscribe.antt =====
-- The re-SUBSCRIBE of src/session/subscriptions.rs restores the table that the session tracked.
use traffic_director.Session.Subscriptions.Options.{
  qos_of_options-qos_byte, subscription_options-options_byte,
}
use traffic_director.Session.Subscriptions.Shape.{AllOptions, IsRestorable, Distinct}
use traffic_director.Registry.{SubscriptionEntry}
use traffic_director.Codec.{ProtocolVersion, mqtt3, mqtt5, MqttPacket, CodecLib, HasMqttNumbers}
use traffic_director.Prelude.{
  ℕ, String, ◌≡◌, refl, none, List, [], ◌∷◌, ◌++◌, arith, eq_iff, sym, ap, ◌∙◌, inl, inr, false,
  append-nil, append_assoc, str_eq, ◌⊎◌, some, map,
}
use traffic_director.Session.Subscriptions.Table.{lookup}
use traffic_director.Session.Subscriptions.{
  upsert, upsert_all, Subscriptions, v3_options, v5_options, track, resubscribe, resubscribe_packet,
  qos_of_options, subscription_options,
}

-- `upsert` of a new filter appends it.
upsert_new :
    (s : Subscriptions) (e : SubscriptionEntry)
    → lookup s e.topic_filter ≡ none
    → upsert s e.topic_filter e.options ≡ s ++ e ∷ []
unfolding upsert lookup
upsert_new [] e h = refl
upsert_new (x ∷ s) e h = ground (arith, upsert_new s e)

lookup-append :
    (a b : Subscriptions) (f : String) → lookup a f ≡ none → lookup (a ++ b) f ≡ lookup b f
unfolding lookup
lookup-append [] b f h = refl
lookup-append (e ∷ a) b f h = ground (arith, lookup-append a b f)

lookup_miss :
    (a b : Subscriptions) (e : SubscriptionEntry) (f : String)
    → lookup (a ++ e ∷ b) f ≡ none
    → str_eq e.topic_filter f ≡ false
unfolding lookup
lookup_miss [] b e f h = ground arith
lookup_miss (x ∷ a) b e f h = lookup_miss a b e f (ground arith)

not_before :
    (a b : Subscriptions) (e : SubscriptionEntry)
    → Distinct (a ++ e ∷ b)
    → lookup a e.topic_filter ≡ none
unfolding lookup
not_before [] b e d = refl
not_before (x ∷ a) b e d = ground (
  arith,
  not_before a b e d.1,
  lookup_miss a b e x.topic_filter d.0,
  eq_iff x.topic_filter e.topic_filter,
  eq_iff e.topic_filter x.topic_filter,
)

-- The entries as pairs.
abbrev pairs : Subscriptions → List (String × ℕ)
pairs [] = []
pairs (e ∷ s) = (e.topic_filter, e.options) ∷ pairs s

upsert_all-pairs : (a s : Subscriptions) → Distinct (a ++ s) → upsert_all a (pairs s) ≡ a ++ s
unfolding upsert_all
upsert_all-pairs a [] d = sym (append-nil a)
upsert_all-pairs a (e ∷ s) d =
    ap (λ t. upsert_all t (pairs s)) (upsert_new a e (not_before a s e d))
    ∙ (upsert_all-pairs (a ++ e ∷ []) s (rw (append_assoc a (e ∷ []) s) d)
        ∙ append_assoc a (e ∷ []) s)

module _ {C : Type 0} (lib : CodecLib C) (laws : HasMqttNumbers lib) where
  v3_options-resubscribe :
      (s : Subscriptions)
      → AllOptions lib mqtt3 s
      → v3_options lib (map (λ e. (e.topic_filter, qos_of_options lib e.options)) s) ≡ pairs s
  unfolding v3_options
  v3_options-resubscribe [] h = refl
  v3_options-resubscribe (e ∷ s) h =
      rw (v3_options-resubscribe s h.1, h.0.1, qos_of_options-qos_byte lib laws h.0.0)

  v5_options-resubscribe :
      (s : Subscriptions)
      → AllOptions lib mqtt5 s
      → v5_options lib (map (λ e. (e.topic_filter, subscription_options lib e.options)) s) ≡ pairs s
  unfolding v5_options
  v5_options-resubscribe [] h = refl
  v5_options-resubscribe (e ∷ s) h =
      rw (v5_options-resubscribe s h.1, h.0.1, subscription_options-options_byte lib laws h.0.0)

  resubscribe-rebuilds :
      (ver : ProtocolVersion) (s : Subscriptions)
      → IsRestorable lib ver s
      → track lib [] (resubscribe lib s ver) ≡ s
  unfolding track resubscribe
  resubscribe-rebuilds mqtt3 s v =
      ap (upsert_all []) (v3_options-resubscribe s v.options) ∙ upsert_all-pairs [] s v.distinct
  resubscribe-rebuilds mqtt5 s v =
      ap (upsert_all []) (v5_options-resubscribe s v.options) ∙ upsert_all-pairs [] s v.distinct

  -- From a table without repeated filters whose bytes come from SUBSCRIBE packets of the session's
  -- version, there is a re-SUBSCRIBE exactly if the table is not empty, and a table that starts
  -- empty and tracks it is the same table: the same filters with the same options in the same order.
  pub resubscribe_packet-restores :
      (ver : ProtocolVersion) (s : Subscriptions)
      → IsRestorable lib ver s
      → ((s ≡ []) × (resubscribe_packet lib s ver ≡ none))
        ⊎ ((p : MqttPacket) × (resubscribe_packet lib s ver ≡ some p) × (track lib [] p ≡ s))
  unfolding resubscribe_packet
  resubscribe_packet-restores ver [] v = inl (refl, refl)
  resubscribe_packet-restores ver (e ∷ s) v =
      inr (resubscribe lib (e ∷ s) ver, refl, resubscribe-rebuilds ver (e ∷ s) v)
