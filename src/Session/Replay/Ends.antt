-- ===== src/Session/Replay/Ends.antt =====
-- The loop over the leftover bytes in src/session/forward.rs ends: its fuel is enough.
use traffic_director.Session.{codec_for}
use traffic_director.Session.Replay.Leftover.{Decoded-cases, TakesBytes}
use traffic_director.Session.Replay.{Link, deliver, client_send, deliver_leftover}
use traffic_director.Exec.{Exec, continue, map_err, modify}
use traffic_director.Codec.{CodecLib, ProtocolVersion, MqttPacket, frame}
use traffic_director.Prelude.{
  Bytes, ℕ, zero, suc, ◌<◌, ◌≡◌, refl, inl, inr, Option, none, some, arith, length,
}
use traffic_director.Result.{IoError, Result, ok, err, panic, out_of_fuel, invalid_data}
use traffic_director.Session.Conn.{write_with, write_all, send_encoded, Conn, send}

-- What a send can be: done, or an error; never a loop that does not end.
abbrev Sent : {S : Type 0} → Result (Unit {0}) × S → Type 0
Sent (ok done, s) = Unit
Sent (err e, s) = Unit
Sent _ = ⊥

abbrev pub Ends : {A : Type 0} → Result A → Type 0
Ends out_of_fuel = ⊥
Ends _ = Unit

module _ {C : Type 0} where
  write_with-Sent : (n : ℕ) (conn : Conn C) (raw : Bytes) → Sent (write_with n conn raw)
  unfolding write_with
  write_with-Sent zero conn raw = tt
  write_with-Sent (suc n) conn raw = tt

  send_encoded-Sent : (o : Option Bytes) (conn : Conn C) → Sent (send_encoded o conn)
  unfolding send_encoded write_all
  send_encoded-Sent none conn = tt
  send_encoded-Sent (some raw) conn = write_with-Sent conn.room conn raw

-- A step that has been sent, or has failed, and then what ends.
continue-Ends :
    {S T A : Type 0} (r : Result (Unit {0}) × S) (g : S → T) (f : Unit {0} → Exec T A) (e : IoError)
    → Sent r
    → (ok tt ≡ r.0 → Ends (f tt (g r.1)).0)
    → Ends (continue (map_err r.0 e) f (g r.1)).0
continue-Ends (ok done, s) g f e h k = k refl
continue-Ends (err x, s) g f e h k = tt
continue-Ends (panic, s) g f e h k = absurd h
continue-Ends (out_of_fuel, s) g f e h k = absurd h

then_modify-Ends :
    {S : Type 0} (r : Result (Unit {0}) × S) (g : S → S)
    → Ends r.0
    → Ends (continue r.0 (λ u. modify g) r.1).0
then_modify-Ends (ok done, s) g h = tt
then_modify-Ends (err x, s) g h = tt
then_modify-Ends (panic, s) g h = tt
then_modify-Ends (out_of_fuel, s) g h = absurd h

module _ {C : Type 0} (lib : CodecLib C) where
  send-Sent : (conn : Conn C) (p : MqttPacket) → Sent (send lib conn p)
  unfolding send
  send-Sent conn p = send_encoded-Sent (lib.encode conn.codec p) conn

  less :
      TakesBytes lib
      → (codec c : C) (p : MqttPacket) (buf rest : Bytes) {fuel : ℕ}
      → lib.decode codec buf ≡ frame p c rest
      → length buf < suc fuel
      → length rest < fuel
  less law codec c p buf rest e h =
      let shorter : length rest < length buf = law.shorter codec c p buf rest e in omega arith

  deliver-Ends :
      TakesBytes lib
      → (fuel : ℕ) (codec : C) (l : Link C) → length l.broker_leftover < fuel
      → Ends (deliver lib fuel codec l).0
  unfolding deliver client_send
  deliver-Ends law zero codec l h = absurd (omega arith)
  deliver-Ends law (suc fuel) codec l h =
      elim (Decoded-cases lib (lib.decode codec l.broker_leftover)) [
        | inl (p, c, rest, e) ↦
            rw (e, deliver)
              (continue-Ends (send lib l.client p)
                (λ client. record l { broker_leftover = rest; client = client })
                (λ u. deliver lib fuel c) invalid_data (send-Sent l.client p)
                (λ done. deliver-Ends law fuel c _ (less law codec c p l.broker_leftover rest e h)))
        | inr (inl (c, rest, e)) ↦ rw (e, deliver) tt
        | inr (inr (c, rest, e)) ↦ rw (e, deliver) tt
      ]

  -- If each frame takes at least a byte off the buffer, then delivering the leftover never runs out
  -- of fuel, whatever bytes are left and whatever the client's connection accepts.
  pub deliver_leftover-Ends :
      TakesBytes lib
      → (version : ProtocolVersion) (l : Link C) → Ends (deliver_leftover lib version l).0
  unfolding deliver_leftover
  deliver_leftover-Ends law version l =
      then_modify-Ends (deliver lib (suc (length l.broker_leftover)) (codec_for lib version) l) _
        (deliver-Ends law (suc (length l.broker_leftover)) (codec_for lib version) l (omega arith))
