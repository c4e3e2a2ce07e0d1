-- ===== src/Window/Cases.antt =====
-- Case rules for the three fallible operations of src/window.rs: a predicate of the windows that
-- they return follows from the windows being unchanged, and from the windows with the new slot.
use mathlib.Core.Path.{subst}
use traffic_director.Prelude.{
  ℕ, ◌≡◌, refl, Bool, true, false, Option, none, some, Bytes, if◌then◌else◌,
}
use traffic_director.Result.{Result, ok, err, panic, ◌>>=◌, expect, out_of_fuel}
use traffic_director.Codec.{QoS, at_most_once, MqttPacket, CodecLib}
use traffic_director.Window.Vec.{
  WindowState, c2b_publish_sent, b2c_publish_sent, vec_insert, vec_contains,
}
use traffic_director.Window.{
  InflightWindows, encode_raw, c2b_insert, b2c_insert, c2b_transition, is_at_most_once,
}

module _ {C : Type 0} (lib : CodecLib C) (P : InflightWindows → Type 0) where
  -- The windows that a chain of `encode_raw` and a pure step returned.
  encoded :
      (r : Result Bytes) (f : Bytes → InflightWindows) {w' : InflightWindows}
      → ((raw : Bytes) → r ≡ ok raw → P (f raw))
      → (r >>= λ raw. ok (f raw)) ≡ ok w'
      → P w'
  encoded (ok raw) f keep h = subst P (cc) (keep raw refl)
  encoded (err e) f keep h = cc
  encoded panic f keep h = cc
  encoded out_of_fuel f keep h = cc

  identified :
      (id : Option ℕ) (p : MqttPacket) (f : ℕ → Bytes → InflightWindows) {w' : InflightWindows}
      → ((i : ℕ) (raw : Bytes) → id ≡ some i → encode_raw lib p ≡ ok raw → P (f i raw))
      → (expect id >>= λ i. encode_raw lib p >>= λ raw. ok (f i raw)) ≡ ok w'
      → P w'
  identified none p f keep h = cc
  identified (some i) p f keep h = encoded (encode_raw lib p) (f i) (λ raw. keep i raw refl) h

  pub c2b_insert_cases :
      (w : InflightWindows) (qos : QoS) (id : Option ℕ) (p : MqttPacket) {w' : InflightWindows}
      → (is_at_most_once qos ≡ true → P w)
      → ((i : ℕ) (raw : Bytes)
          → is_at_most_once qos ≡ false
          → id ≡ some i
          → encode_raw lib p ≡ ok raw
          → P (record w { c2b = vec_insert w.c2b i (c2b_publish_sent, raw) }))
      → c2b_insert lib w qos id p ≡ ok w'
      → P w'
  unfolding c2b_insert
  c2b_insert_cases w at_most_once id p same new h = subst P (cc) (same refl)
  c2b_insert_cases w _ id p same new h =
      identified id p (λ i raw. record w { c2b = vec_insert w.c2b i (c2b_publish_sent, raw) })
        (λ i raw. new i raw refl) h

  pub b2c_insert_cases :
      (w : InflightWindows) (qos : QoS) (id : Option ℕ) (p : MqttPacket) {w' : InflightWindows}
      → (is_at_most_once qos ≡ true → P w)
      → ((i : ℕ) (raw : Bytes)
          → is_at_most_once qos ≡ false
          → id ≡ some i
          → encode_raw lib p ≡ ok raw
          → P (record w { b2c = vec_insert w.b2c i (b2c_publish_sent, raw) }))
      → b2c_insert lib w qos id p ≡ ok w'
      → P w'
  unfolding b2c_insert
  b2c_insert_cases w at_most_once id p same new h = subst P (cc) (same refl)
  b2c_insert_cases w _ id p same new h =
      identified id p (λ i raw. record w { b2c = vec_insert w.b2c i (b2c_publish_sent, raw) })
        (λ i raw. new i raw refl) h

  transition :
      (known : Bool) (w : InflightWindows) (p : MqttPacket) (f : Bytes → InflightWindows)
      {w' : InflightWindows}
      → (known ≡ false → P w)
      → ((raw : Bytes) → known ≡ true → encode_raw lib p ≡ ok raw → P (f raw))
      → (if known then (encode_raw lib p >>= λ raw. ok (f raw)) else ok w) ≡ ok w'
      → P w'
  transition true w p f same new h = encoded (encode_raw lib p) f (λ raw. new raw refl) h
  transition false w p f same new h = subst P (cc) (same refl)

  pub c2b_transition_cases :
      (w : InflightWindows) (id : ℕ) (state : WindowState) (p : MqttPacket) {w' : InflightWindows}
      → (vec_contains w.c2b id ≡ false → P w)
      → ((raw : Bytes)
          → vec_contains w.c2b id ≡ true
          → encode_raw lib p ≡ ok raw
          → P (record w { c2b = vec_insert w.c2b id (state, raw) }))
      → c2b_transition lib w id state p ≡ ok w'
      → P w'
  unfolding c2b_transition
  c2b_transition_cases w id state p same new h =
      transition (vec_contains w.c2b id) w p
        (λ raw. record w { c2b = vec_insert w.c2b id (state, raw) }) same new h
