-- ===== src/Migrate/Send.antt =====
-- `send_sessions` of src/migrate.rs.
use traffic_director.Exec.{Exec, lift, modify, ◌>>◌, ◌>>=◌}
use traffic_director.Registry.{FrozenSession}
use traffic_director.Migrate.{Json, Round, Handoff, recv_with_fd, emit, end_marker, acked}
use traffic_director.Prelude.{ℕ, suc, ◌+◌, none, some, List, [], ◌∷◌}
use traffic_director.Result.{invalid_data, Result, ok_or}

module _ (json : Json) where
  -- The body of the loop.
  unfoldable pub send_session : FrozenSession → Round → Exec Handoff (Unit {0})
  unfolding recv_with_fd
  send_session s round = do
    payload ← lift (ok_or (json.to_vec s.snapshot) invalid_data)
    done ← lift round.delivered
    modify (emit (record { payload = payload; fd = some s.client_fd }))
    answer ← lift (recv_with_fd round.answer)
    good ← lift (acked answer.payload)
    modify (λ p. record p { sent = p.sent + 1 })

  -- The loop, from the session with index `i`, and the end marker. `finish` is what the last
  -- `send` yields.
  unfoldable pub send_each :
      List FrozenSession → (ℕ → Round) → Result (Unit {0}) → ℕ → Exec Handoff (Unit {0})
  unfolding send_session
  send_each [] rounds finish i = do
    done ← lift finish
    modify (emit (record { payload = end_marker; fd = none }))
  send_each (s ∷ frozen) rounds finish i = do
    send_session s (rounds i)
    send_each frozen rounds finish (suc i)

  unfoldable pub send_sessions :
      List FrozenSession → (ℕ → Round) → Result (Unit {0}) → Result (Unit {0}) × Handoff
  unfolding send_each
  send_sessions frozen rounds finish =
      send_each frozen rounds finish 0 (record { sent = 0; out = [] })
