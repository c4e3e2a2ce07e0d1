-- ===== src/Registry.antt =====
-- src/registry.rs: the data that a frozen session consists of, the registry, and the batch of a freeze.
pub mod Ids
pub mod Rollback
use traffic_director.Window.{WindowEntry}
use traffic_director.Prelude.{
  Bytes, ℕ, String, List, ◌+◌, ◌%◌, ◌^◌, Bool, false, ◌||◌, [], ◌∷◌, ◌++◌, ◌==◌, if◌then◌else◌,
  length, drop,
}

pub record SubscriptionEntry : Type 0 where
  pub topic_filter : String
  pub options : ℕ  -- u8

pub record BufferedPublish : Type 0 where
  pub packet_id : ℕ  -- u16
  pub raw : Bytes
  pub qos : ℕ  -- u8

pub record SessionSnapshot : Type 0 where
  pub version : ℕ  -- u8
  pub connect_raw : Bytes
  pub client_buf : Bytes
  pub broker_buf : Bytes
  pub windows : List WindowEntry
  pub subscriptions : List SubscriptionEntry
  pub buffered : List BufferedPublish

pub record FrozenSession : Type 0 where
  pub id : ℕ
  pub snapshot : SessionSnapshot
  pub client_fd : ℕ

-- `next_id` wraps as an `AtomicU64` does. A map is a list of its entries, in no particular order; a
-- session's entry is the sending end `T` of its control channel.
pub record SessionRegistry (T : Type 0) : Type 0 where
  pub sessions : List (ℕ × T)
  pub next_id : ℕ

module _ {T : Type 0} where
  -- `HashMap::remove`
  unfoldable pub erase : List (ℕ × T) → ℕ → List (ℕ × T)
  erase [] id = []
  erase ((k, t) ∷ m) id = let rest = erase m id in if k == id then rest else (k, t) ∷ rest

  -- `HashMap::insert`
  unfoldable pub insert : List (ℕ × T) → ℕ → T → List (ℕ × T)
  unfolding erase
  insert m id t = (id, t) ∷ erase m id

  -- `SessionRegistry::new`
  abbrev pub no_sessions : SessionRegistry T
  no_sessions = record { sessions = []; next_id = 0 }

  -- The identifier, and the registry with the sending end `tx` of the new channel.
  unfoldable pub register : SessionRegistry T → T → ℕ × SessionRegistry T
  unfolding insert
  register r tx = (
    r.next_id,
    record { sessions = insert r.sessions r.next_id tx; next_id = (r.next_id + 1) % 2 ^ 64 },
  )

  -- Also what the drop of a `Registration` does.
  unfoldable pub unregister : SessionRegistry T → ℕ → SessionRegistry T
  unfolding erase
  unregister r id = record r { sessions = erase r.sessions id }

  unfoldable pub count : SessionRegistry T → ℕ
  count r = length r.sessions

-- What comes of a freeze request: its control channel is closed, the session dies before it replies,
-- it does not reply in time, or it replies.
pub data Reply : Type 0 where
  session_ended session_died timed_out : Reply
  froze : FrozenSession → Reply

-- `resumes` holds the keys of the map; the resume channel of session `id` is known by `id`.
pub record FreezeBatch : Type 0 where
  pub frozen : List FrozenSession
  pub resumes : List ℕ

unfoldable pub add_reply : ℕ → Reply → FreezeBatch → FreezeBatch
add_reply id (froze s) batch = record {
  frozen = batch.frozen ++ s ∷ [];
  resumes = id ∷ batch.resumes;
}
add_reply id _ batch = batch

-- The loop of `freeze_all` over the sessions in the order in which the map yields them; `replies`
-- is what the world answers to each.
unfoldable pub freeze_each : List ℕ → (ℕ → Reply) → FreezeBatch → FreezeBatch
unfolding add_reply
freeze_each [] replies batch = batch
freeze_each (id ∷ ids) replies batch = freeze_each ids replies (add_reply id (replies id) batch)

unfoldable pub freeze_all : List ℕ → (ℕ → Reply) → FreezeBatch
unfolding freeze_each
freeze_all ids replies = freeze_each ids replies (record { frozen = []; resumes = [] })

abbrev pub has : List ℕ → ℕ → Bool
has [] id = false
has (k ∷ ids) id = k == id || has ids id

-- `resumes.remove(&id)`
unfoldable pub take_out : List ℕ → ℕ → List ℕ
take_out [] id = []
take_out (k ∷ ids) id = let rest = take_out ids id in if k == id then rest else k ∷ rest

-- The loop of `resume_skipping`: the sessions that are sent back over their channels, and the
-- channels that are dropped in the end.
unfoldable pub resume_each : List FrozenSession → List ℕ → List (ℕ × FrozenSession) × List ℕ
unfolding take_out
resume_each [] resumes = ([], resumes)
resume_each (s ∷ frozen) resumes =
    let (back, dropped) = resume_each frozen (take_out resumes s.id) in
    if has resumes s.id then ((s.id, s) ∷ back, dropped) else (back, dropped)

unfoldable pub resume_skipping : FreezeBatch → ℕ → List (ℕ × FrozenSession) × List ℕ
unfolding resume_each
resume_skipping batch sent = resume_each (drop sent batch.frozen) batch.resumes

unfoldable pub resume_all : FreezeBatch → List (ℕ × FrozenSession) × List ℕ
unfolding resume_skipping
resume_all batch = resume_skipping batch 0

-- `finish` drops every channel.
unfoldable pub finish : FreezeBatch → List (ℕ × FrozenSession) × List ℕ
finish batch = ([], batch.resumes)
