-- ===== src/Migrate/Recv.antt =====
-- `recv_sessions` of src/migrate.rs.
use traffic_director.Registry.{SessionSnapshot}
use traffic_director.Migrate.{Json, Datagram, recv_with_fd, same_bytes, end_marker}
use traffic_director.Prelude.{ℕ, suc, List, [], ◌∷◌, ◌++◌, if◌then◌else◌}
use traffic_director.Result.{◌>>=◌, invalid_data, transport, Result, ok, err, ok_or}

module _ (json : Json) where
  -- The loop. When nothing is left to receive, the socket times out. `acks` are what the sends of
  -- the acks yield.
  unfoldable pub recv_each :
      List (Result Datagram)
      → (ℕ → Result (Unit {0}))
      → ℕ
      → List (SessionSnapshot × ℕ)
      → Result (List (SessionSnapshot × ℕ))
  unfolding recv_with_fd
  recv_each [] acks i sessions = err transport
  recv_each (m ∷ incoming) acks i sessions = do
    d ← recv_with_fd m
    let rest = λ (snapshot : SessionSnapshot) (fd : ℕ).
        recv_each incoming acks (suc i) (sessions ++ (snapshot, fd) ∷ [])
    if same_bytes d.payload end_marker then ok sessions else (do
      snapshot ← ok_or (json.from_slice d.payload) invalid_data
      fd ← ok_or d.fd invalid_data
      acknowledged ← acks i
      rest snapshot fd)

  unfoldable pub recv_sessions :
      List (Result Datagram) → (ℕ → Result (Unit {0})) → Result (List (SessionSnapshot × ℕ))
  unfolding recv_each
  recv_sessions incoming acks = recv_each incoming acks 0 []
