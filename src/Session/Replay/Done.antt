-- ===== src/Session/Replay/Done.antt =====
-- What a replay of src/session/forward.rs that succeeds leaves behind.
use traffic_director.Session.Handshake.{force_session_resumption}
use traffic_director.Exec.{map_err, continue}
use traffic_director.Session.{codec_for}
use traffic_director.Window.{broker_retransmits, client_retransmits}
use traffic_director.Session.Replay.Leftover.{Decoded-cases}
use traffic_director.Session.Subscriptions.{Subscriptions, resubscribe_packet}
use traffic_director.Session.Conn.{
  Next, next_packet, next_error, next_none, write_all, send, after_next,
}
use traffic_director.Codec.{ProtocolVersion, MqttPacket, CodecLib, PacketV3, PacketV5, v3, v5}
use traffic_director.Result.{invalid_data}
use traffic_director.Session.Outage.{empty_buffer, OutageBuffer}
use traffic_director.Exec.Post.{Post, Post-step, Post-bind}
use traffic_director.Session.Replay.Flush.{
  IsDeferred-HasType, packet_kind_lem, track_flushed-IsValid, kind_of,
}
use traffic_director.Session.Outage.Buffer.{IsDeferred}
use traffic_director.Window.Invariant.{IsValid}
use traffic_director.Registry.{BufferedPublish}
use traffic_director.Prelude.{
  Bytes, ◌≡◌, ap, List, [], ◌∷◌, All, ℕ, zero, suc, inl, inr, Option, none, some, length, sym, ◌∙◌,
}
use mathlib.Core.Path.{refl, subst}
use traffic_director.Session.Replay.{
  broker_write_each, client_write_each, Link, broker_write, client_write, retransmit, flush_entries,
  flush_buffer, deliver, deliver_leftover, resubscribe_with, on_connack, establish_broker,
  client_send, broker_send, broker_next, on_suback, assign_keep_alive,
}

-- Windows and outage buffer are those of `l`.
abbrev pub Same : {C A : Type 0} → Link C → A → Link C → Type 0
Same l a l' = (l'.windows ≡ l.windows) × (l'.buffer ≡ l.buffer)

abbrev Flushable : {C : Type 0} → Link C → Type 0
Flushable l = IsValid l.windows × All IsDeferred l.buffer.entries

module _ {C : Type 0} where
  broker_write_each-Same :
      (raws : List Bytes) (l₀ l : Link C) → Same l₀ tt l → Post (Same l₀) (broker_write_each raws l)
  unfolding broker_write_each broker_write
  broker_write_each-Same [] l₀ l h = h
  broker_write_each-Same (raw ∷ raws) l₀ l h =
      Post-step (Same l₀) (write_all l.broker raw).0 _ _ (λ u. broker_write_each-Same raws l₀ _ h)

  client_write_each-Same :
      (raws : List Bytes) (l₀ l : Link C) → Same l₀ tt l → Post (Same l₀) (client_write_each raws l)
  unfolding client_write_each client_write
  client_write_each-Same [] l₀ l h = h
  client_write_each-Same (raw ∷ raws) l₀ l h =
      Post-step (Same l₀) (write_all l.client raw).0 _ _ (λ u. client_write_each-Same raws l₀ _ h)

  retransmit-Same : (l : Link C) → Post (Same l) (retransmit l)
  unfolding retransmit
  retransmit-Same l = Post-step (Same l) (broker_retransmits l.windows) _ _ (λ to_broker.
      Post-bind (Same l) (Same l) (broker_write_each to_broker l) _
        (broker_write_each-Same to_broker l l (refl, refl))
        (λ u l₁ h.
          Post-step (Same l) (client_retransmits l₁.windows) _ _
            (λ to_client. client_write_each-Same to_client l l₁ h)))

  -- After the entries have been flushed, the windows are valid and the buffer is as it was.
  abbrev Flushed : Link C → Unit {0} → Link C → Type 0
  Flushed l₀ u l = IsValid l.windows × (l.buffer ≡ l₀.buffer)

  flush_entries-Flushed :
      (entries : List BufferedPublish) (l₀ l : Link C)
      → All IsDeferred entries
      → IsValid l.windows
      → l.buffer ≡ l₀.buffer
      → Post (Flushed l₀) (flush_entries entries l)
  unfolding flush_entries broker_write
  flush_entries-Flushed [] l₀ l d v same = (v, same)
  flush_entries-Flushed (e ∷ entries) l₀ l d v same = rw (packet_kind_lem e d.0) (
      Post-step (Flushed l₀) (write_all l.broker e.raw).0 _ _ (λ u.
        flush_entries-Flushed entries l₀ _ d.1
          (track_flushed-IsValid l.windows (kind_of e.raw) e.packet_id e.raw
            (IsDeferred-HasType e d.0) v)
          same))

  -- What a replay that succeeded leaves.
  abbrev pub Done : Unit {0} → Link C → Type 0
  Done u l = IsValid l.windows × (l.buffer ≡ empty_buffer)

  flush_buffer-Done : (l : Link C) → Flushable l → Post Done (flush_buffer l)
  unfolding flush_buffer
  flush_buffer-Done l f =
      let l₁ : Link C = record l { buffer = record l.buffer { entries = [] } } in
      Post-bind (Flushed l₁) Done (flush_entries l.buffer.entries l₁) _
        (flush_entries-Flushed l.buffer.entries l₁ l₁ f.1 f.0 refl)
        (λ u l₂ h. (h.0, ap {A = OutageBuffer} (λ b. record b { bytes = 0 }) h.1))

module _ {C : Type 0} (lib : CodecLib C) where
  deliver-Same :
      (fuel : ℕ) (codec : C) (l₀ l : Link C)
      → Same l₀ tt l
      → Post (Same l₀) (deliver lib fuel codec l)
  unfolding deliver client_send
  deliver-Same zero codec l₀ l h = tt
  deliver-Same (suc fuel) codec l₀ l h =
      elim (Decoded-cases lib (lib.decode codec l.broker_leftover)) [
        | inl (p, c, rest, e) ↦
            rw (e, deliver)
              (Post-step (Same l₀) (map_err (send lib l.client p).0 invalid_data) _ _
                (λ u. deliver-Same fuel c l₀ _ h))
        | inr (inl (c, rest, e)) ↦ rw (e, deliver) h
        | inr (inr (c, rest, e)) ↦ rw (e, deliver) h
      ]

  deliver_leftover-Same :
      (version : ProtocolVersion) (l : Link C) → Post (Same l) (deliver_leftover lib version l)
  unfolding deliver_leftover
  deliver_leftover-Same version l =
      Post-bind (Same l) (Same l)
        (deliver lib (suc (length l.broker_leftover)) (codec_for lib version) l) _
        (deliver-Same (suc (length l.broker_leftover)) (codec_for lib version) l l (refl, refl))
        (λ u l₁ h. h)

  on_suback-Same : (n : Next C) (l l' : Link C) → Same l tt l' → Post (Same l) (on_suback n l')
  unfolding on_suback
  on_suback-Same (next_packet p codec buf) l l' h = h
  on_suback-Same (next_error codec buf) l l' h = tt
  on_suback-Same (next_none codec buf) l l' h = tt

  resubscribe_with-Same :
      (o : Option MqttPacket) (suback : Next C) (l : Link C)
      → Post (Same l) (resubscribe_with lib o suback l)
  unfolding resubscribe_with broker_send broker_next
  resubscribe_with-Same none suback l = (refl, refl)
  resubscribe_with-Same (some p) suback l =
      Post-step (Same l) (map_err (send lib l.broker p).0 invalid_data) _ _
        (λ u. on_suback-Same suback l _ (refl, refl))

  assign_keep_alive-Same : (o : Option ℕ) (l : Link C) → Post (Same l) (assign_keep_alive o l)
  unfolding assign_keep_alive
  assign_keep_alive-Same none l = (refl, refl)
  assign_keep_alive-Same (some secs) l = (refl, refl)

  on_connack-Same : (n : Next C) (l : Link C) → Post (Same l) (on_connack n l)
  unfolding on_connack
  on_connack-Same (next_packet (v3 (PacketV3.connect_ack a)) codec buf) l = (refl, refl)
  on_connack-Same (next_packet (v5 (PacketV5.connect_ack a)) codec buf) l =
      assign_keep_alive-Same a.server_keepalive_sec l
  on_connack-Same _ l = tt

  Same-Flushable : (l l' : Link C) → Same l tt l' → Flushable l → Flushable l'
  Same-Flushable l l' h f =
      (subst IsValid (sym h.0) f.0, subst (λ b. All IsDeferred b.entries) (sym h.1) f.1)

  -- What the last two steps leave is what a replay leaves: they start from the windows and the buffer
  -- of `l`.
  pub establish_broker-retransmit :
      (Q : Unit {0} → Link C → Type 0) (version : ProtocolVersion) (connect_raw : Bytes)
      (subs : Subscriptions) (connack suback : Next C) (l : Link C)
      → ((l' : Link C)
          → Same l tt l'
          → Post Q (continue (retransmit l').0 (λ u. flush_buffer) (retransmit l').1))
      → Post Q (establish_broker lib version connect_raw subs connack suback l)
  unfolding establish_broker broker_write broker_next
  establish_broker-retransmit Q version connect_raw subs connack suback l f =
      Post-step Q (force_session_resumption connect_raw) _ l (λ patched.
        let l₁ : Link C = record l { broker = after_next (write_all l.broker patched).1 connack } in
        Post-step Q (write_all l.broker patched).0 _ _ (λ u.
          Post-bind (Same l₁) Q (on_connack connack l₁) _ (on_connack-Same connack l₁) (λ u l₂ s₂.
            Post-bind (Same l₂) Q
              (resubscribe_with lib (resubscribe_packet lib subs version) suback l₂) _
              (resubscribe_with-Same (resubscribe_packet lib subs version) suback l₂)
              (λ u l₃ s₃.
                Post-bind (Same l₃) Q (deliver_leftover lib version l₃) _
                  (deliver_leftover-Same version l₃)
                  (λ u l₄ s₄. f l₄ (s₄.0 ∙ s₃.0 ∙ s₂.0, s₄.1 ∙ s₃.1 ∙ s₂.1))))))

  -- The same for the last step.
  pub establish_broker-flush_buffer :
      (Q : Unit {0} → Link C → Type 0) (version : ProtocolVersion) (connect_raw : Bytes)
      (subs : Subscriptions) (connack suback : Next C) (l : Link C)
      → ((l' : Link C) → Same l tt l' → Post Q (flush_buffer l'))
      → Post Q (establish_broker lib version connect_raw subs connack suback l)
  establish_broker-flush_buffer Q version connect_raw subs connack suback l f =
      establish_broker-retransmit Q version connect_raw subs connack suback l (λ l₄ s₄.
        Post-bind (Same l₄) Q (retransmit l₄) _ (retransmit-Same l₄)
          (λ u l₅ s₅. f l₅ (s₅.0 ∙ s₄.0, s₅.1 ∙ s₄.1)))

  -- A replay that succeeds leaves valid windows and an empty outage buffer.
  pub establish_broker-Done :
      (version : ProtocolVersion) (connect_raw : Bytes) (subs : Subscriptions)
      (connack suback : Next C) (l : Link C)
      → Flushable l
      → Post Done (establish_broker lib version connect_raw subs connack suback l)
  establish_broker-Done version connect_raw subs connack suback l f =
      establish_broker-flush_buffer Done version connect_raw subs connack suback l
        (λ l' s. flush_buffer-Done l' (Same-Flushable l l' s f))
