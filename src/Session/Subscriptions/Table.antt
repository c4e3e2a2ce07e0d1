-- ===== src/Session/Subscriptions/Table.antt =====
-- The table of src/session/subscriptions.rs as a map from topic filters to options.
use traffic_director.Codec.{PacketV3, PacketV5, MqttPacket, v3, v5, CodecLib}
use traffic_director.Prelude.{
  ℕ, String, ◌≡◌, refl, ap, ◌∙◌, Bool, false, ◌||◌, Option, none, some, List, [], ◌∷◌, arith,
  str_eq, eq_iff, if◌then◌else◌,
}
use traffic_director.Session.Subscriptions.{
  upsert, upsert_all, remove, remove_all, v3_options, v5_options, track, Subscriptions,
}

unfoldable pub lookup : Subscriptions → String → Option ℕ
lookup [] filter = none
lookup (e ∷ s) filter = if str_eq e.topic_filter filter then some e.options else lookup s filter

-- What a packet asks of the table.
pub data Request : Type 0 where
  subscribes : List (String × ℕ) → Request
  unsubscribes : List String → Request
  nothing : Request

unfoldable pub request : {C : Type 0} → CodecLib C → MqttPacket → Request
request lib (v3 (PacketV3.subscribe id filters)) = subscribes (v3_options lib filters)
request lib (v3 (PacketV3.unsubscribe id filters)) = unsubscribes filters
request lib (v5 (PacketV5.subscribe s)) = subscribes (v5_options lib s.topic_filters)
request lib (v5 (PacketV5.unsubscribe u)) = unsubscribes u.topic_filters
request lib _ = nothing

-- The options that the last mention of the filter asks for, `before` if there is none.
abbrev pub last_options : List (String × ℕ) → String → Option ℕ → Option ℕ
last_options [] filter before = before
last_options ((f, o) ∷ filters) filter before =
    last_options filters filter (if str_eq f filter then some o else before)

abbrev pub mentions : List String → String → Bool
mentions [] filter = false
mentions (f ∷ filters) filter = str_eq f filter || mentions filters filter

abbrev pub granted : Request → String → Option ℕ → Option ℕ
granted (subscribes filters) filter before = last_options filters filter before
granted (unsubscribes filters) filter before = if mentions filters filter then none else before
granted nothing filter before = before

pub lookup-upsert :
    (s : Subscriptions) (f g : String) (o : ℕ)
    → lookup (upsert s f o) g ≡ (if str_eq f g then some o else lookup s g)
unfolding lookup upsert
lookup-upsert [] f g o = refl
lookup-upsert (e ∷ s) f g o =
    ground
      (arith, lookup-upsert s f g o, eq_iff e.topic_filter f, eq_iff e.topic_filter g, eq_iff f g)

pub lookup-remove :
    (s : Subscriptions) (f g : String)
    → lookup (remove s f) g ≡ (if str_eq f g then none else lookup s g)
unfolding lookup remove
lookup-remove [] f g = ground arith
lookup-remove (e ∷ s) f g =
    ground
      (arith, lookup-remove s f g, eq_iff e.topic_filter f, eq_iff e.topic_filter g, eq_iff f g)

lookup-upsert_all :
    (s : Subscriptions) (filters : List (String × ℕ)) (g : String)
    → lookup (upsert_all s filters) g ≡ last_options filters g (lookup s g)
unfolding upsert_all
lookup-upsert_all s [] g = refl
lookup-upsert_all s ((f, o) ∷ filters) g =
    lookup-upsert_all (upsert s f o) filters g ∙ ap (last_options filters g) (lookup-upsert s f g o)

lookup-remove_all :
    (s : Subscriptions) (filters : List String) (g : String)
    → lookup (remove_all s filters) g ≡ (if mentions filters g then none else lookup s g)
unfolding remove_all
lookup-remove_all s [] g = refl
lookup-remove_all s (f ∷ filters) g =
    ground (arith, lookup-remove_all (remove s f) filters g, lookup-remove s f g)

-- After any packet, v3 or v5, the table maps each filter to what the packet asks for it: the last
-- mention in a SUBSCRIBE gives the options, a mention in an UNSUBSCRIBE takes the filter out, and
-- every other filter keeps its options.
pub lookup-track :
    {C : Type 0} (lib : CodecLib C) (s : Subscriptions) (p : MqttPacket) (g : String)
    → lookup (track lib s p) g ≡ granted (request lib p) g (lookup s g)
unfolding track request
lookup-track lib s (v3 (PacketV3.subscribe id filters)) g =
    lookup-upsert_all s (v3_options lib filters) g
lookup-track lib s (v3 (PacketV3.unsubscribe id filters)) g = lookup-remove_all s filters g
lookup-track lib s (v5 (PacketV5.subscribe p)) g =
    lookup-upsert_all s (v5_options lib p.topic_filters) g
lookup-track lib s (v5 (PacketV5.unsubscribe p)) g = lookup-remove_all s p.topic_filters g
lookup-track lib s _ g = refl
