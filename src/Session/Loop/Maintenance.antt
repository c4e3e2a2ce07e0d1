-- ===== src/Session/Loop/Maintenance.antt =====
-- A DISCONNECT of the broker in `forward_loop` of src/session/forward.rs: a broker under maintenance
-- against a fault of the client.
use traffic_director.Session.Outage.{empty_buffer, broker_retry_initial}
use traffic_director.Session.Replay.Flush.{raws}
use traffic_director.Window.{broker_retransmits, client_retransmits}
use traffic_director.Session.{codec_for}
use traffic_director.Session.Subscriptions.{resubscribe_packet}
use traffic_director.Session.Handshake.{force_session_resumption}
use traffic_director.Session.Replay.Answers.{IsConnack, Resubscribed}
use traffic_director.Session.Replay.Leftover.{Drains, Encodes}
use traffic_director.Session.Outage.Buffer.{IsDeferred}
use traffic_director.Session.Replay.Writes.{wrote}
use traffic_director.Session.Connected.Forwarding.{on_broker_next-retryable, on_broker_next-fault}
use traffic_director.Result.{ok}
use traffic_director.Session.Connected.{Loop, is_retryable_disconnect, ends, continues}
use traffic_director.Session.Freeze.{connect_step, Session}
use traffic_director.Session.Conn.{Conn, next_packet, Next, after_next}
use traffic_director.Session.Loop.{
  Event, broker_yields, forward_loop, turn, connected, with_broker, wait_ends,
}
use traffic_director.Codec.{
  DisconnectReasonCode, normal_disconnection, server_shutting_down, server_busy, use_another_server,
  server_moved, Disconnect, PacketV5, v5, CodecLib, MqttPacket,
}
use traffic_director.Prelude.{
  Bytes, ℕ, ◌≡◌, refl, ◌⊎◌, inl, inr, true, false, some, List, ◌∷◌, ◌<◌, none, [], ◌+◌, ◌≤◌, ◌∙◌,
  ◌++◌, length, All,
}
use traffic_director.Session.Loop.Recovery.{down, reopened, attempts, forward_loop-recovers}

-- The reasons that a broker under maintenance gives.
abbrev pub IsMaintenance : DisconnectReasonCode → Type 0
IsMaintenance r =
    (r ≡ normal_disconnection)
    ⊎ (r ≡ server_shutting_down)
    ⊎ (r ≡ server_busy)
    ⊎ (r ≡ use_another_server)
    ⊎ (r ≡ server_moved)

IsMaintenance-retryable :
    (r : DisconnectReasonCode) → IsMaintenance r → is_retryable_disconnect r ≡ true
unfolding is_retryable_disconnect
IsMaintenance-retryable r (inl e) = rw e refl
IsMaintenance-retryable r (inr (inl e)) = rw e refl
IsMaintenance-retryable r (inr (inr (inl e))) = rw e refl
IsMaintenance-retryable r (inr (inr (inr (inl e)))) = rw e refl
IsMaintenance-retryable r (inr (inr (inr (inr e)))) = rw e refl

fault-not-retryable :
    (r : DisconnectReasonCode) → ¬ IsMaintenance r → is_retryable_disconnect r ≡ false
unfolding is_retryable_disconnect
fault-not-retryable normal_disconnection h = absurd (h (inl refl))
fault-not-retryable server_shutting_down h = absurd (h (inr (inl refl)))
fault-not-retryable server_busy h = absurd (h (inr (inr (inl refl))))
fault-not-retryable use_another_server h = absurd (h (inr (inr (inr (inl refl)))))
fault-not-retryable server_moved h = absurd (h (inr (inr (inr (inr refl)))))
fault-not-retryable _ h = refl

-- A session with a broker connection, between two turns.
abbrev pub has_broker : {C : Type 0} → Session C → Conn C → ℕ → ℕ → Loop C
has_broker s b delay last = record {
  session = record s { broker = some b };
  delay = delay;
  step = connect_step;
  last_client_activity = last;
}

module _ {C : Type 0} (lib : CodecLib C) (id fd : ℕ) where
  abbrev pub disconnects : Disconnect → C → Bytes → Event C
  disconnects d codec buf = broker_yields (next_packet (v5 (PacketV5.disconnect d)) codec buf)

  maintenance_turn :
      (d : Disconnect) (codec : C) (buf : Bytes) (events : List (Event C)) (s : Session C)
      (b : Conn C) (delay last : ℕ)
      → IsMaintenance d.reason_code
      → forward_loop lib id fd (disconnects d codec buf ∷ events) (has_broker s b delay last)
        ≡ forward_loop lib id fd events (down (record s { broker_leftover = buf }) delay last)
  unfolding forward_loop turn connected
  maintenance_turn d codec buf events s b delay last m =
      rw
        (on_broker_next-retryable lib b d codec buf (with_broker none (has_broker s b delay last))
          (IsMaintenance-retryable d.reason_code m))
        refl

  fault_turn :
      (d : Disconnect) (codec : C) (buf : Bytes) (events : List (Event C)) (s : Session C)
      (b : Conn C) (delay last : ℕ) (raw : Bytes)
      → ¬ IsMaintenance d.reason_code
      → lib.encode s.client.codec (v5 (PacketV5.disconnect d)) ≡ some raw
      → 0 < s.client.room
      → forward_loop lib id fd (disconnects d codec buf ∷ events) (has_broker s b delay last)
        ≡ (ok ends, down (record s { client = wrote s.client (raw ∷ []) }) delay last)
  unfolding forward_loop turn connected
  fault_turn d codec buf events s b delay last raw m e room =
      rw
        (on_broker_next-fault lib b d codec buf (with_broker none (has_broker s b delay last)) raw
          (fault-not-retryable d.reason_code m) e room)
        refl

  -- A session with a broker connection gets a DISCONNECT. If its reason is that of a broker under
  -- maintenance (normal disconnection, server shutting down, server busy, use another server, or
  -- server moved), the client is not shown it and the loop goes on: after any number of failed
  -- connect attempts and one that yields a connection, where the CONNECT is well formed, the CONNACK
  -- and the SUBACK arrive and the connections accept the writes, the session is connected again,
  -- the broker has been sent the CONNECT that asks for resumption, the re-SUBSCRIBE, the
  -- retransmissions and all that was held back, the client has been sent nothing but the packets that
  -- the old connection had left undecoded and the retransmissions, nothing is held back any more, and
  -- the next outage begins with the shortest delay. If it is any other reason, and the client's connection
  -- accepts the DISCONNECT, the client is sent exactly that and the loop ends, whatever would follow.
  pub forward_loop-disconnect :
      (connack suback : Next C) (n : ℕ) (stream b : Conn C) (s : Session C) (delay last : ℕ)
      (d fault : Disconnect) (codec : C) (buf patched : Bytes) (sub : List Bytes)
      (ps : List MqttPacket) (frames to_broker to_client : List Bytes) (raw : Bytes)
      (events : List (Event C))
      → IsMaintenance d.reason_code
      → ¬ IsMaintenance fault.reason_code
      → lib.encode s.client.codec (v5 (PacketV5.disconnect fault)) ≡ some raw
      → 0 < s.client.room
      → force_session_resumption s.hs.connect_raw ≡ ok patched
      → IsConnack connack
      → Resubscribed lib
          (resubscribe_packet lib s.subscriptions s.hs.version)
          suback
          (after_next (wrote (reopened lib stream s.hs.version) (patched ∷ [])) connack)
          sub
      → Drains lib (codec_for lib s.hs.version) buf ps
      → length ps ≤ length buf
      → Encodes lib s.client.codec ps frames
      → broker_retransmits s.windows ≡ ok to_broker
      → client_retransmits s.windows ≡ ok to_client
      → All IsDeferred s.buffer.entries
      → 1 + length sub + length to_broker + length s.buffer.entries ≤ stream.room
      → length frames + length to_client ≤ s.client.room
      → ((b' : Conn C) × (l : Loop C) × (forward_loop lib id fd
              (disconnects d codec buf
                ∷ attempts lib id fd connack suback n (wait_ends (some stream) connack suback ∷ []))
              (has_broker s b delay last)
            ≡ (ok continues, l))
          × (l.session.broker ≡ some b')
          × (b'.sent
              ≡ ((stream.sent ++ (patched ∷ [])) ++ sub) ++ (to_broker ++ raws s.buffer.entries))
          × (l.session.client.sent ≡ s.client.sent ++ (frames ++ to_client))
          × (l.session.buffer ≡ empty_buffer)
          × (l.session.broker_leftover ≡ [])
          × (l.delay ≡ broker_retry_initial))
        × (forward_loop lib id fd (disconnects fault codec buf ∷ events) (has_broker s b delay last)
            ≡ (ok ends, down (record s { client = wrote s.client (raw ∷ []) }) delay last))
  forward_loop-disconnect connack suback n stream b s delay last d fault codec buf patched sub ps
        frames to_broker to_client raw events m f e room patch greeting subscribed drains few enc eb
        ec def rb rc =
      let left : Session C = record s { broker_leftover = buf } in
      let again : List (Event C) =
        attempts lib id fd connack suback n (wait_ends (some stream) connack suback ∷ []) in
      let (b', l, run, connected, sent, received, empty, gone, shortest) =
        forward_loop-recovers lib id fd connack suback n stream left delay last patched sub ps
          frames to_broker to_client patch greeting subscribed drains few enc eb ec def rb rc in
      (
        (
          b',
          l,
          maintenance_turn d codec buf again s b delay last m ∙ run,
          connected,
          sent,
          received,
          empty,
          gone,
          shortest,
        ),
        fault_turn fault codec buf events s b delay last raw f e room,
      )
