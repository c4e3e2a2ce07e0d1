-- ===== src/Session/Replay/Writes.antt =====
-- Writes of src/session/forward.rs to connections that accept them.
use traffic_director.Codec.{MqttPacket, CodecLib}
use traffic_director.Prelude.{
  Bytes, ℕ, zero, suc, ◌-◌, ◌≤◌, ◌<◌, ◌≡◌, ap, ◌∙◌, List, [], ◌∷◌, ◌++◌, append_assoc, arith,
  length, length-append, sym, some, append-nil,
}
use traffic_director.Result.{ok}
use traffic_director.Session.Conn.{write_all, Conn, write_with, send}
use traffic_director.Session.Replay.{
  broker_write, client_write, broker_write_each, Link, client_write_each, broker_send, client_send,
}

-- The connection after `out` has been written.
abbrev pub wrote : {C : Type 0} → Conn C → List Bytes → Conn C
wrote conn out = record conn { sent = conn.sent ++ out; room = conn.room - length out }

module _ {C : Type 0} where
  pub wrote-wrote :
      (conn : Conn C) (xs ys : List Bytes) → wrote (wrote conn xs) ys ≡ wrote conn (xs ++ ys)
  wrote-wrote conn xs ys =
      let sents : (conn.sent ++ xs) ++ ys ≡ conn.sent ++ (xs ++ ys) =
        append_assoc conn.sent xs ys in
      let rooms : conn.room - length xs - length ys ≡ conn.room - length (xs ++ ys) =
        omega (arith, length-append xs ys) in
      λ i. record { codec = conn.codec; read_buf = conn.read_buf; sent = sents i; room = rooms i }

  pub wrote-nil : (conn : Conn C) → conn ≡ wrote conn []
  wrote-nil conn =
      let sents : conn.sent ≡ conn.sent ++ [] = sym (append-nil conn.sent) in
      let rooms : conn.room ≡ conn.room - 0 = omega arith in
      λ i. record { codec = conn.codec; read_buf = conn.read_buf; sent = sents i; room = rooms i }

  write_with_lem :
      (n : ℕ) (conn : Conn C) (raw : Bytes)
      → 0 < n
      → write_with n conn raw ≡ (ok tt, record conn { sent = conn.sent ++ raw ∷ []; room = n - 1 })
  unfolding write_with
  write_with_lem zero conn raw h = absurd (omega arith)
  write_with_lem (suc n) conn raw h =
      ap (λ r. (ok tt, record conn { sent = conn.sent ++ raw ∷ []; room = r })) (omega arith)

  pub write_all_lem :
      (conn : Conn C) (raw : Bytes)
      → 0 < conn.room
      → write_all conn raw ≡ (ok tt, wrote conn (raw ∷ []))
  unfolding write_all
  write_all_lem conn raw h = write_with_lem conn.room conn raw h

  pub broker_write_lem :
      (l : Link C) (raw : Bytes)
      → 0 < l.broker.room
      → broker_write raw l ≡ (ok tt, record l { broker = wrote l.broker (raw ∷ []) })
  unfolding broker_write
  broker_write_lem l raw h = rw (write_all_lem l.broker raw h)

  pub client_write_lem :
      (l : Link C) (raw : Bytes)
      → 0 < l.client.room
      → client_write raw l ≡ (ok tt, record l { client = wrote l.client (raw ∷ []) })
  unfolding client_write
  client_write_lem l raw h = rw (write_all_lem l.client raw h)

  pub broker_write_each_lem :
      (l : Link C) (raws : List Bytes)
      → length raws ≤ l.broker.room
      → broker_write_each raws l ≡ (ok tt, record l { broker = wrote l.broker raws })
  unfolding broker_write_each
  broker_write_each_lem l [] h = ap (λ b. (ok tt, record l { broker = b })) (wrote-nil l.broker)
  broker_write_each_lem l (raw ∷ raws) h = rw (broker_write_lem l raw (omega arith)) (
      broker_write_each_lem (record l { broker = wrote l.broker (raw ∷ []) }) raws (omega arith)
      ∙ ap (λ b. (ok tt, record l { broker = b })) (wrote-wrote l.broker (raw ∷ []) raws))

  pub client_write_each_lem :
      (l : Link C) (raws : List Bytes)
      → length raws ≤ l.client.room
      → client_write_each raws l ≡ (ok tt, record l { client = wrote l.client raws })
  unfolding client_write_each
  client_write_each_lem l [] h = ap (λ b. (ok tt, record l { client = b })) (wrote-nil l.client)
  client_write_each_lem l (raw ∷ raws) h = rw (client_write_lem l raw (omega arith)) (
      client_write_each_lem (record l { client = wrote l.client (raw ∷ []) }) raws (omega arith)
      ∙ ap (λ b. (ok tt, record l { client = b })) (wrote-wrote l.client (raw ∷ []) raws))

module _ {C : Type 0} (lib : CodecLib C) where
  pub send_lem :
      (conn : Conn C) (p : MqttPacket) (raw : Bytes)
      → lib.encode conn.codec p ≡ some raw
      → 0 < conn.room
      → send lib conn p ≡ (ok tt, wrote conn (raw ∷ []))
  unfolding send
  send_lem conn p raw e h = rw e (write_all_lem conn raw h)

  pub broker_send_lem :
      (l : Link C) (p : MqttPacket) (raw : Bytes)
      → lib.encode l.broker.codec p ≡ some raw
      → 0 < l.broker.room
      → broker_send lib p l ≡ (ok tt, record l { broker = wrote l.broker (raw ∷ []) })
  unfolding broker_send
  broker_send_lem l p raw e h = rw (send_lem l.broker p raw e h)

  pub client_send_lem :
      (l : Link C) (p : MqttPacket) (raw : Bytes)
      → lib.encode l.client.codec p ≡ some raw
      → 0 < l.client.room
      → client_send lib p l ≡ (ok tt, record l { client = wrote l.client (raw ∷ []) })
  unfolding client_send
  client_send_lem l p raw e h = rw (send_lem l.client p raw e h)
