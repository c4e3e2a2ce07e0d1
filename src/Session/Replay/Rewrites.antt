-- ===== src/Session/Replay/Rewrites.antt =====
-- What a replay of src/session/forward.rs that succeeds has written to the broker in the end, however
-- many writes the connections accept.
use traffic_director.Session.Replay.Flush.{raws}
use traffic_director.Exec.Post.{Post, Post-step, Post-bind, Post-mono, Post-step_eq}
use traffic_director.Session.Subscriptions.{Subscriptions}
use traffic_director.Session.Replay.{
  Link, broker_write_each, client_write_each, retransmit, flush_entries, flush_buffer,
  establish_broker, broker_write, client_write, packet_kind, track_flushed,
}
use traffic_director.Session.Conn.{Conn, Next, write_all, write_with}
use traffic_director.Window.Invariant.{IsValid}
use traffic_director.Window.Retransmit.{ResentToBroker, broker_retransmits_lem}
use traffic_director.Registry.{BufferedPublish}
use traffic_director.Window.{InflightWindows, broker_retransmits, client_retransmits}
use traffic_director.Codec.{ProtocolVersion, CodecLib}
use traffic_director.Prelude.{
  Bytes, ℕ, zero, suc, ◌≡◌, refl, sym, ap, ◌∙◌, List, [], ◌∷◌, ◌++◌, append-nil, append_assoc,
}
use traffic_director.Result.{ok}
use traffic_director.Session.Replay.Done.{establish_broker-retransmit}

write_all-sent :
    {C : Type 0} (conn : Conn C) (raw : Bytes)
    → (write_all conn raw).0 ≡ ok tt
    → (write_all conn raw).1.sent ≡ conn.sent ++ raw ∷ []
unfolding write_all write_with
write_all-sent conn raw h = written conn.room h
  where
    written :
        (n : ℕ)
        → (write_with n conn raw).0 ≡ ok tt
        → (write_with n conn raw).1.sent ≡ conn.sent ++ raw ∷ []
    written zero h = cc
    written (suc n) h = refl

-- The broker has been sent this after what it had been sent before; windows and buffer are those of
-- the link before.
abbrev Sent : {C : Type 0} → List Bytes → Link C → Unit {0} → Link C → Type 0
Sent out l u l' =
    (l'.broker.sent ≡ l.broker.sent ++ out) × (l'.windows ≡ l.windows) × (l'.buffer ≡ l.buffer)

module _ {C : Type 0} where
  broker_write_each-Sent :
      (raws : List Bytes) (l : Link C) → Post (Sent raws l) (broker_write_each raws l)
  unfolding broker_write_each broker_write
  broker_write_each-Sent [] l = (sym (append-nil l.broker.sent), refl, refl)
  broker_write_each-Sent (raw ∷ raws) l =
      Post-step_eq (Sent (raw ∷ raws) l) (write_all l.broker raw).0 _ _ (λ u w.
        let l₁ : Link C = record l { broker = (write_all l.broker raw).1 } in
        Post-mono (Sent raws l₁) (Sent (raw ∷ raws) l) _ (broker_write_each-Sent raws l₁) (λ u l₂ h.
          (
            h.0
                ∙ ap (λ s. s ++ raws) (write_all-sent l.broker raw w)
                ∙ append_assoc l.broker.sent (raw ∷ []) raws,
            h.1,
            h.2,
          )))

  client_write_each-Sent :
      (raws : List Bytes) (l₀ l : Link C)
      → (out : List Bytes) → Sent out l₀ tt l
      → Post (Sent out l₀) (client_write_each raws l)
  unfolding client_write_each client_write
  client_write_each-Sent [] l₀ l out h = h
  client_write_each-Sent (raw ∷ raws) l₀ l out h =
      Post-step (Sent out l₀) (write_all l.client raw).0 _ _
        (λ u. client_write_each-Sent raws l₀ _ out h)

  retransmit-Sent :
      (l : Link C) (out : List Bytes)
      → broker_retransmits l.windows ≡ ok out
      → Post (Sent out l) (retransmit l)
  unfolding retransmit
  retransmit-Sent l out e = rw e (
      Post-bind (Sent out l) (Sent out l) (broker_write_each out l) _ (broker_write_each-Sent out l)
        (λ u l₁ h.
          Post-step (Sent out l) (client_retransmits l₁.windows) _ _
            (λ to_client. client_write_each-Sent to_client l l₁ out h)))

  -- The flush changes the windows.
  abbrev Wrote : List Bytes → Link C → Unit {0} → Link C → Type 0
  Wrote out l u l' = l'.broker.sent ≡ l.broker.sent ++ out

  flush_entries-Wrote :
      (entries : List BufferedPublish) (l : Link C)
      → Post (Wrote (raws entries) l) (flush_entries entries l)
  unfolding flush_entries broker_write
  flush_entries-Wrote [] l = sym (append-nil l.broker.sent)
  flush_entries-Wrote (e ∷ entries) l =
      Post-step (Wrote (raws (e ∷ entries)) l) (packet_kind e.raw) _ l (λ kind.
        Post-step_eq (Wrote (raws (e ∷ entries)) l) (write_all l.broker e.raw).0 _ _ (λ u w.
          let l₁ : Link C = record l {
            windows = track_flushed l.windows kind e.packet_id e.raw;
            broker = (write_all l.broker e.raw).1;
          } in
          Post-mono (Wrote (raws entries) l₁) (Wrote (raws (e ∷ entries)) l) _
            (flush_entries-Wrote entries l₁)
            (λ u l₂ h.
              h
              ∙ ap (λ s. s ++ raws entries) (write_all-sent l.broker e.raw w)
              ∙ append_assoc l.broker.sent (e.raw ∷ []) (raws entries))))

  flush_buffer-Wrote : (l : Link C) → Post (Wrote (raws l.buffer.entries) l) (flush_buffer l)
  unfolding flush_buffer
  flush_buffer-Wrote l =
      let l₁ : Link C = record l { buffer = record l.buffer { entries = [] } } in
      Post-bind (Wrote (raws l.buffer.entries) l) (Wrote (raws l.buffer.entries) l)
        (flush_entries l.buffer.entries l₁) _ (flush_entries-Wrote l.buffer.entries l₁)
        (λ u l₂ h. h)

  -- All that the replay writes before the retransmission, then the retransmission and the buffer.
  abbrev pub Rewritten : InflightWindows → List BufferedPublish → Unit {0} → Link C → Type 0
  Rewritten w entries u l' =
      (before : List Bytes) × (out : List Bytes) × (l'.broker.sent
        ≡ before ++ (out ++ raws entries))
      × ResentToBroker w.c2b out

  pub establish_broker-Rewritten :
      (lib : CodecLib C) (version : ProtocolVersion) (connect_raw : Bytes) (subs : Subscriptions)
      (connack suback : Next C) (l : Link C)
      → IsValid l.windows
      → Post
          (Rewritten l.windows l.buffer.entries)
          (establish_broker lib version connect_raw subs connack suback l)
  establish_broker-Rewritten lib version connect_raw subs connack suback l v =
      let (out, e, resent) = broker_retransmits_lem l.windows v in
      let Q : Unit {0} → Link C → Type 0 = Rewritten l.windows l.buffer.entries in
      establish_broker-retransmit lib Q version connect_raw subs connack suback l (λ l₄ s₄.
        Post-bind (Sent out l₄) Q (retransmit l₄) _
          (retransmit-Sent l₄ out (ap broker_retransmits s₄.0 ∙ e))
          (λ u l₅ h.
            Post-mono (Wrote (raws l₅.buffer.entries) l₅) Q _ (flush_buffer-Wrote l₅) (λ u l₆ w. (
              l₄.broker.sent,
              out,
              w
                  ∙ ap (λ s. s ++ raws l₅.buffer.entries) h.0
                  ∙ append_assoc l₄.broker.sent out (raws l₅.buffer.entries)
                  ∙ ap (λ b. l₄.broker.sent ++ (out ++ raws b.entries)) (h.2 ∙ s₄.1),
              resent,
            ))))
