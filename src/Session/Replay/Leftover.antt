-- ===== src/Session/Replay/Leftover.antt =====
-- The leftover bytes of a dead broker connection, in src/session/forward.rs: which packets they
-- hold, that they all go to the client, and that the loop ends.
use traffic_director.Exec.Steps.{step_ok}
use traffic_director.Session.{codec_for}
use traffic_director.Codec.{
  MqttPacket, Decoded, frame, incomplete, undecodable, CodecLib, ProtocolVersion,
}
use traffic_director.Prelude.{
  Bytes, ℕ, zero, suc, ◌≤◌, ◌<◌, ◌≡◌, refl, ◌⊎◌, inl, inr, some, List, [], ◌∷◌, arith, length, ap,
  ◌∙◌,
}
use traffic_director.Result.{ok}
use traffic_director.Session.Replay.{deliver, Link, deliver_leftover}
use traffic_director.Session.Replay.Writes.{wrote, wrote-nil, client_send_lem, wrote-wrote}

module _ {C : Type 0} (lib : CodecLib C) where
  -- The packets that a codec reads off a buffer before it finds no whole frame.
  pub data Drains : C → Bytes → List MqttPacket → Type 0 where
    drained :
        {codec : C} {buf : Bytes} (codec' : C) (rest : Bytes)
        → lib.decode codec buf ≡ incomplete codec' rest
        → Drains codec buf []
    garbled :
        {codec : C} {buf : Bytes} (codec' : C) (rest : Bytes)
        → lib.decode codec buf ≡ undecodable codec' rest
        → Drains codec buf []
    framed :
        {codec : C} {buf : Bytes} {ps : List MqttPacket} (p : MqttPacket) (codec' : C)
        (rest : Bytes)
        → lib.decode codec buf ≡ frame p codec' rest
        → Drains codec' rest ps
        → Drains codec buf (p ∷ ps)

  -- The client's codec encodes the packets, one by one.
  abbrev pub Encodes : C → List MqttPacket → List Bytes → Type 0
  Encodes codec [] [] = Unit
  Encodes codec (p ∷ ps) (raw ∷ raws) = (lib.encode codec p ≡ some raw) × Encodes codec ps raws
  Encodes codec _ _ = ⊥

  -- A frame takes at least a byte off the buffer.
  pub record TakesBytes : Type 0 where
    pub shorter :
        (codec codec' : C) (p : MqttPacket) (buf rest : Bytes)
        → lib.decode codec buf ≡ frame p codec' rest
        → length rest < length buf

  pub Decoded-cases :
      (d : Decoded C)
      → ((p : MqttPacket) × (c : C) × (rest : Bytes) × (d ≡ frame p c rest))
        ⊎ ((c : C) × (rest : Bytes) × (d ≡ incomplete c rest))
        ⊎ ((c : C) × (rest : Bytes) × (d ≡ undecodable c rest))
  Decoded-cases (frame p c rest) = inl (p, c, rest, refl)
  Decoded-cases (incomplete c rest) = inr (inl (c, rest, refl))
  Decoded-cases (undecodable c rest) = inr (inr (c, rest, refl))

  -- Any buffer drains, in at most as many frames as it has bytes.
  pub Drains-total :
      TakesBytes
      → (n : ℕ) (codec : C) (buf : Bytes) → length buf < n
      → (ps : List MqttPacket) × Drains codec buf ps × (length ps ≤ length buf)
  Drains-total law zero codec buf h = absurd (omega arith)
  Drains-total law (suc n) codec buf h = elim (Decoded-cases (lib.decode codec buf)) [
    | inl (p, c, rest, e) ↦
        let less = law.shorter codec c p buf rest e in
        let (ps, more, few) = Drains-total law n c rest (omega arith) in
        (p ∷ ps, framed p c rest e more, omega arith)
    | inr (inl (c, rest, e)) ↦ ([], drained c rest e, omega arith)
    | inr (inr (c, rest, e)) ↦ ([], garbled c rest e, omega arith)
  ]

  deliver_lem :
      (fuel : ℕ) (l : Link C) (raws : List Bytes) {codec : C} {buf : Bytes} {ps : List MqttPacket}
      → Drains codec buf ps
      → l.broker_leftover ≡ buf
      → Encodes l.client.codec ps raws
      → length raws ≤ l.client.room
      → length ps < fuel
      → (rest : Bytes) × (deliver lib fuel codec l
          ≡ (ok tt, record l { client = wrote l.client raws; broker_leftover = rest }))
  unfolding deliver
  deliver_lem zero l raws d same enc room enough = absurd (omega arith)
  deliver_lem (suc fuel) l [] {codec} (drained c rest e) same enc room enough = (
    rest,
    rw (ap (lib.decode codec) same ∙ e, deliver)
        (ap (λ k. (ok tt, record l { client = k; broker_leftover = rest })) (wrote-nil l.client)),
  )
  deliver_lem (suc fuel) l [] {codec} (garbled c rest e) same enc room enough = (
    rest,
    rw (ap (lib.decode codec) same ∙ e, deliver)
        (ap (λ k. (ok tt, record l { client = k; broker_leftover = rest })) (wrote-nil l.client)),
  )
  deliver_lem (suc fuel) l (raw ∷ raws) (drained c rest e) same enc room enough = absurd enc
  deliver_lem (suc fuel) l (raw ∷ raws) (garbled c rest e) same enc room enough = absurd enc
  deliver_lem (suc fuel) l [] (framed p c rest e d) same enc room enough = absurd enc
  deliver_lem (suc fuel) l (raw ∷ raws) {codec} (framed p c rest e d) same enc room enough =
      let l' : Link C = record l { broker_leftover = rest; client = wrote l.client (raw ∷ []) } in
      let (left, more) = deliver_lem fuel l' raws d refl enc.1 (omega arith) (omega arith) in
      let sent =
        client_send_lem lib (record l { broker_leftover = rest }) p raw enc.0 (omega arith) in
      let joined =
        ap (λ k. (ok tt, record l { client = k; broker_leftover = left }))
          (wrote-wrote l.client (raw ∷ []) raws) in
      (left, rw (ap (lib.decode codec) same ∙ e, deliver) (step_ok _ sent (more ∙ joined)))

  -- All whole frames of the leftover go to the client, in order, and the rest is dropped.
  pub deliver_leftover_lem :
      (version : ProtocolVersion) (l : Link C) (ps : List MqttPacket) (raws : List Bytes)
      → Drains (codec_for lib version) l.broker_leftover ps
      → Encodes l.client.codec ps raws
      → length raws ≤ l.client.room
      → length ps ≤ length l.broker_leftover
      → deliver_leftover lib version l
        ≡ (ok tt, record l { client = wrote l.client raws; broker_leftover = [] })
  unfolding deliver_leftover
  deliver_leftover_lem version l ps raws d enc room few =
      let (rest, eq) =
        deliver_lem (suc (length l.broker_leftover)) l raws d refl enc room (omega arith) in
      rw eq
