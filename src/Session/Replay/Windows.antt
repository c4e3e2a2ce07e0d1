-- ===== src/Session/Replay/Windows.antt =====
-- The windows across a replay of src/session/forward.rs: they change only where buffered packets are
-- flushed, one after the other.
use mathlib.Core.Path.{subst}
use traffic_director.Session.Replay.Flush.{kind_of}
use traffic_director.Exec.Post.{Post, Post-step, Post-bind, Post-step_eq}
use traffic_director.Session.Subscriptions.{Subscriptions}
use traffic_director.Session.Replay.{
  Link, packet_kind, track_flushed, flush_entries, flush_buffer, establish_broker, broker_write,
}
use traffic_director.Session.Conn.{Next, write_all}
use traffic_director.Registry.{BufferedPublish}
use traffic_director.Window.{InflightWindows}
use traffic_director.Codec.{ProtocolVersion, CodecLib}
use traffic_director.Prelude.{Bytes, ℕ, ◌≡◌, refl, sym, ap, List, [], ◌∷◌}
use traffic_director.Result.{ok}
use traffic_director.Session.Replay.Done.{establish_broker-flush_buffer}

packet_kind-ok : (raw : Bytes) {k : ℕ} → packet_kind raw ≡ ok k → k ≡ kind_of raw
packet_kind-ok [] h = cc
packet_kind-ok (b ∷ raw) h = cc

module _ {C : Type 0} (P : InflightWindows → List BufferedPublish → Type 0)
    (step : (w : InflightWindows) (e : BufferedPublish) (es : List BufferedPublish)
      → P w (e ∷ es)
      → P (track_flushed w (kind_of e.raw) e.packet_id e.raw) es) where
  abbrev Left : Link C → Unit {0} → Link C → Type 0
  Left l₀ u l = P l.windows [] × (l.buffer ≡ l₀.buffer)

  flush_entries-Left :
      (entries : List BufferedPublish) (l₀ l : Link C)
      → P l.windows entries
      → l.buffer ≡ l₀.buffer
      → Post (Left l₀) (flush_entries entries l)
  unfolding flush_entries broker_write
  flush_entries-Left [] l₀ l h same = (h, same)
  flush_entries-Left (e ∷ entries) l₀ l h same =
      Post-step_eq (Left l₀) (packet_kind e.raw) _ l (λ kind k.
        Post-step (Left l₀) (write_all l.broker e.raw).0 _ _ (λ u.
          flush_entries-Left entries l₀ _
            (subst (λ kind. P (track_flushed l.windows kind e.packet_id e.raw) entries)
              (sym (packet_kind-ok e.raw k)) (step l.windows e entries h))
            same))

  abbrev Holds : {A : Type 0} → A → Link C → Type 0
  Holds u l = P l.windows l.buffer.entries

  flush_buffer-keeps : (l : Link C) → Holds tt l → Post Holds (flush_buffer l)
  unfolding flush_buffer
  flush_buffer-keeps l h =
      let l₁ : Link C = record l { buffer = record l.buffer { entries = [] } } in
      Post-bind (Left l₁) Holds (flush_entries l.buffer.entries l₁) _
        (flush_entries-Left l.buffer.entries l₁ l₁ h refl)
        (λ u l₂ h₂. subst (P l₂.windows) (sym (ap (λ b. b.entries) h₂.1)) h₂.0)

  -- What every flushed packet keeps, a replay keeps.
  pub establish_broker-keeps :
      (lib : CodecLib C) (version : ProtocolVersion) (connect_raw : Bytes) (subs : Subscriptions)
      (connack suback : Next C) (l : Link C)
      → P l.windows l.buffer.entries
      → Post Holds (establish_broker lib version connect_raw subs connack suback l)
  establish_broker-keeps lib version connect_raw subs connack suback l h =
      establish_broker-flush_buffer lib Holds version connect_raw subs connack suback l (λ l' s.
        flush_buffer-keeps l' (
          subst (λ b. P l'.windows b.entries) (sym s.1)
            (subst (λ w. P w l.buffer.entries) (sym s.0) h)))
