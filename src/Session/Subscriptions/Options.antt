-- ===== src/Session/Subscriptions/Options.antt =====
-- The SUBSCRIBE options byte of src/session/subscriptions.rs: packing and unpacking agree.
use traffic_director.Codec.{QoS, SubscriptionOptions, CodecLib, HasMqttNumbers}
use traffic_director.Prelude.{ℕ, ◌/◌, ◌<◌, bit_and, ◌≡◌, Bool, ◌==◌, not, zero, suc, refl, arith}
use traffic_director.Session.Subscriptions.{
  options_byte, subscription_options, qos_of_options, pack, bool_byte,
}

-- The fields of a packed byte, for the three values of QoS and of Retain Handling.
unpack :
    (q r : ℕ) (n p : Bool)
    → q < 3
    → r < 3
    → let b = pack q (bool_byte n) (bool_byte p) r in
      (bit_and b 3 ≡ q) × (b / 16 ≡ r) × (not (bit_and b 4 == 0) ≡ n) × (not (bit_and b 8 == 0) ≡ p)
unpack zero zero n p hq hr = ground arith
unpack zero (suc zero) n p hq hr = ground arith
unpack zero (suc (suc zero)) n p hq hr = ground arith
unpack (suc zero) zero n p hq hr = ground arith
unpack (suc zero) (suc zero) n p hq hr = ground arith
unpack (suc zero) (suc (suc zero)) n p hq hr = ground arith
unpack (suc (suc zero)) zero n p hq hr = ground arith
unpack (suc (suc zero)) (suc zero) n p hq hr = ground arith
unpack (suc (suc zero)) (suc (suc zero)) n p hq hr = ground arith
unpack (suc (suc (suc q))) r n p hq hr = absurd (omega arith)
unpack zero (suc (suc (suc r))) n p hq hr = absurd (omega arith)
unpack (suc zero) (suc (suc (suc r))) n p hq hr = absurd (omega arith)
unpack (suc (suc zero)) (suc (suc (suc r))) n p hq hr = absurd (omega arith)

-- A bare QoS byte is below the mask.
byte_alone : (q : ℕ) → q < 3 → bit_and q 3 ≡ q
byte_alone zero h = refl
byte_alone (suc zero) h = refl
byte_alone (suc (suc zero)) h = refl
byte_alone (suc (suc (suc q))) h = absurd (omega arith)

module _ {C : Type 0} (lib : CodecLib C) (laws : HasMqttNumbers lib) where
  pub qos_of_options-qos_byte : (q : QoS) → qos_of_options lib (lib.qos_byte q) ≡ q
  unfolding qos_of_options
  qos_of_options-qos_byte q = rw (byte_alone (lib.qos_byte q) (laws.qos_small q), laws.qos_back q)

  -- The options that a SUBSCRIBE asked for are read back from the byte that the table keeps.
  pub subscription_options-options_byte :
      (o : SubscriptionOptions) → subscription_options lib (options_byte lib o) ≡ o
  unfolding subscription_options options_byte qos_of_options
  subscription_options-options_byte o =
      let fields =
        unpack (lib.qos_byte o.qos) (lib.retain_handling_byte o.retain_handling) o.no_local
          o.retain_as_published (laws.qos_small o.qos) (laws.retain_small o.retain_handling) in
      rw (
        fields.0,
        fields.1,
        fields.2,
        fields.3,
        laws.qos_back o.qos,
        laws.retain_back o.retain_handling,
      )
