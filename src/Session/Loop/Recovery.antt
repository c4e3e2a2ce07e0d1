-- ===== src/Session/Loop/Recovery.antt =====
-- The end of an outage in `forward_loop` of src/session/forward.rs.
use traffic_director.Session.Replay.Answers.{IsConnack, Resubscribed}
use traffic_director.Session.Replay.Flush.{raws}
use traffic_director.Window.{broker_retransmits, client_retransmits}
use traffic_director.Session.Replay.Writes.{wrote}
use traffic_director.Session.Subscriptions.{resubscribe_packet}
use traffic_director.Session.Handshake.{force_session_resumption}
use traffic_director.Session.{codec_for}
use traffic_director.Session.Backoff.{on_no_stream}
use traffic_director.Session.Outage.{broker_retry_max, empty_buffer, broker_retry_initial}
use traffic_director.Session.Replay.Order.{establish_broker-order}
use traffic_director.Session.Replay.Leftover.{Drains, Encodes}
use traffic_director.Session.Outage.Buffer.{IsDeferred}
use traffic_director.Session.Connected.{Loop, continues}
use traffic_director.Session.Freeze.{connect_step, Session}
use traffic_director.Session.Conn.{Conn, Next, after_next}
use traffic_director.Session.Loop.{
  Event, wait_ends, forward_loop, turn, outage, on_wait, link_of, reconnected, after_link,
}
use traffic_director.Codec.{MqttPacket, CodecLib, ProtocolVersion}
use traffic_director.Prelude.{
  Bytes, ℕ, zero, suc, ◌+◌, ◌*◌, ◌≤◌, ◌≡◌, ◌∙◌, none, some, List, [], ◌∷◌, ◌++◌, length, All, min,
}
use traffic_director.Result.{ok}
use mathlib.Core.Path.{refl}

-- A session that is without a broker and about to connect.
abbrev pub down : {C : Type 0} → Session C → ℕ → ℕ → Loop C
down s delay last = record {
  session = record s { broker = none };
  delay = delay;
  step = connect_step;
  last_client_activity = last;
}

-- The delay after `n` more failed attempts.
abbrev pub slowed : ℕ → ℕ → ℕ
slowed zero delay = delay
slowed (suc n) delay = slowed n (min (delay * 2) broker_retry_max)

-- A connection with a fresh codec and nothing read.
abbrev pub reopened : {C : Type 0} → CodecLib C → Conn C → ProtocolVersion → Conn C
reopened lib stream version = record stream { codec = codec_for lib version; read_buf = [] }

module _ {C : Type 0} (lib : CodecLib C) (id fd : ℕ) (connack suback : Next C) where
  -- `n` connect attempts that fail, each with the sleep that follows it.
  abbrev pub attempts : ℕ → List (Event C) → List (Event C)
  attempts zero events = events
  attempts (suc n) events =
      wait_ends none connack suback ∷ wait_ends none connack suback ∷ attempts n events

  forward_loop-attempts :
      (n : ℕ) (events : List (Event C)) (s : Session C) (delay last : ℕ)
      → forward_loop lib id fd (attempts n events) (down s delay last)
        ≡ forward_loop lib id fd events (down s (slowed n delay) last)
  unfolding forward_loop turn outage on_wait on_no_stream
  forward_loop-attempts zero events s delay last = refl
  forward_loop-attempts (suc n) events s delay last =
      forward_loop-attempts n events s (min (delay * 2) broker_retry_max) last

  -- After any number of failed connect attempts, one that yields a connection ends the outage: if
  -- the CONNECT is well formed, the CONNACK and the SUBACK arrive and the connections accept the
  -- writes, the session is connected, the broker has been sent the CONNECT that asks for resumption,
  -- the re-SUBSCRIBE, the retransmissions and all that was held back, in this order, the client has
  -- been sent the leftover packets and the retransmissions, nothing is held back any more, and the
  -- next outage begins with the shortest delay.
  pub forward_loop-recovers :
      (n : ℕ) (stream : Conn C) (s : Session C) (delay last : ℕ) (patched : Bytes)
      (sub : List Bytes) (ps : List MqttPacket) (frames to_broker to_client : List Bytes)
      → force_session_resumption s.hs.connect_raw ≡ ok patched
      → IsConnack connack
      → Resubscribed lib
          (resubscribe_packet lib s.subscriptions s.hs.version)
          suback
          (after_next (wrote (reopened lib stream s.hs.version) (patched ∷ [])) connack)
          sub
      → Drains lib (codec_for lib s.hs.version) s.broker_leftover ps
      → length ps ≤ length s.broker_leftover
      → Encodes lib s.client.codec ps frames
      → broker_retransmits s.windows ≡ ok to_broker
      → client_retransmits s.windows ≡ ok to_client
      → All IsDeferred s.buffer.entries
      → 1 + length sub + length to_broker + length s.buffer.entries ≤ stream.room
      → length frames + length to_client ≤ s.client.room
      → (b : Conn C) × (l : Loop C) × (forward_loop lib id fd
            (attempts n (wait_ends (some stream) connack suback ∷ []))
            (down s delay last)
          ≡ (ok continues, l))
        × (l.session.broker ≡ some b)
        × (b.sent
            ≡ ((stream.sent ++ (patched ∷ [])) ++ sub) ++ (to_broker ++ raws s.buffer.entries))
        × (l.session.client.sent ≡ s.client.sent ++ (frames ++ to_client))
        × (l.session.buffer ≡ empty_buffer)
        × (l.session.broker_leftover ≡ [])
        × (l.delay ≡ broker_retry_initial)
  unfolding forward_loop turn outage on_wait
  forward_loop-recovers n stream s delay last patched sub ps frames to_broker to_client patch
        greeting subscribed d few enc eb ec def rb rc =
      let fresh : Conn C = record stream { codec = codec_for lib s.hs.version; read_buf = [] } in
      let slow : Loop C = down s (slowed n delay) last in
      let (k, done, sent, received, _, _, empty, gone, _) =
        establish_broker-order lib s.hs.version s.hs.connect_raw patched s.subscriptions connack
          suback (link_of slow fresh) sub ps frames to_broker to_client patch greeting subscribed d
          few enc eb ec def rb rc in
      (
        k.broker,
        reconnected lib id fd k.broker (after_link slow k),
        forward_loop-attempts n (wait_ends (some stream) connack suback ∷ []) s delay last
            ∙ rw done,
        refl,
        sent,
        received,
        empty,
        gone,
        refl,
      )
