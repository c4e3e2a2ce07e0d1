-- ===== src/Server/Ownership.antt =====
-- The SIGUSR2 arm of src/server.rs in migrate mode, with the receiver of src/migrate.rs in the child:
-- who owns a session.
use traffic_director.Migrate.Send.{send_sessions}
use traffic_director.Migrate.Handover.{arrived}
use traffic_director.Migrate.Recv.{recv_sessions, recv_each}
use mathlib.Core.Path.{subst}
use traffic_director.Migrate.Failure.{Fails, send_sessions-Fails}
use traffic_director.Registry.{SessionSnapshot, FreezeBatch, finish, freeze_all}
use traffic_director.Server.{
  Upgrade, upgrade_done, upgrade_failed, upgrade_lost, Shed, Server, returns, handed, upgraded,
  migrate, abort,
}
use traffic_director.Migrate.{Json, IsJson}
use traffic_director.Prelude.{ℕ, ◌≡◌, refl, List, [], append-nil, ap, ◌∙◌, ◌++◌}
use traffic_director.Result.{Result, ok, err, panic, out_of_fuel, transport}

handed-to_child :
    (batch : FreezeBatch) (r : Result (Unit {0})) (sent : ℕ) (s : Server)
    → (handed batch r sent s).1.to_child ≡ s.to_child
unfolding handed
handed-to_child batch (ok u) sent s = refl
handed-to_child batch (err e) sent s = refl
handed-to_child batch panic sent s = refl
handed-to_child batch out_of_fuel sent s = refl

not_received : {A : Type 0} {xs : A} (m : Result A) → Fails m → m ≡ ok xs → ⊥
not_received m f e = subst Fails e f

-- If a sender that fails leaves a receiver that fails, a receiver that does not fail tells that the
-- parent has given its sessions away.
handed-received :
    {A : Type 0} {xs : A} (batch : FreezeBatch) (r : Result (Unit {0})) (sent : ℕ) (s : Server)
    (m : Result A)
    → (Fails r → Fails m)
    → m ≡ ok xs
    → ((handed batch r sent s).0 ≡ ok returns) × ((handed batch r sent s).1.thawed ≡ s.thawed)
unfolding handed finish
handed-received batch (ok u) sent s m h e = (refl, append-nil s.thawed)
handed-received batch (err x) sent s m h e = absurd (not_received m (h tt) e)
handed-received batch panic sent s m h e = absurd (not_received m (h tt) e)
handed-received batch out_of_fuel sent s m h e = absurd (not_received m (h tt) e)

module _ (json : Json) (laws : IsJson json) where
  nothing_received :
      {B : Type 0} (s : Server) (dup : ℕ → ℕ) (acks : ℕ → Result (Unit {0}))
      (xs : List (SessionSnapshot × ℕ))
      → s.to_child ≡ []
      → recv_sessions json (arrived dup s.to_child) acks ≡ ok xs
      → B
  unfolding recv_sessions recv_each
  nothing_received s dup acks xs none_sent e = absurd (
      not_received (err transport) tt
        (subst (λ ds. recv_sessions json (arrived dup ds) acks ≡ ok xs) none_sent e))

  upgraded-received :
      (shed : Shed) (batch : FreezeBatch) (u : Upgrade) (s : Server) (dup : ℕ → ℕ)
      (acks : ℕ → Result (Unit {0})) (xs : List (SessionSnapshot × ℕ))
      → s.to_child ≡ []
      → let (r, s') = upgraded json shed batch u s in
        recv_sessions json (arrived dup s'.to_child) acks ≡ ok xs
        → (r ≡ ok returns) × (s'.thawed ≡ s.thawed)
  unfolding upgraded recv_sessions recv_each
  upgraded-received shed batch upgrade_done s dup acks xs none_sent e =
      let (r, p) = send_sessions json batch.frozen shed.rounds shed.finish_send in
      let s₁ : Server = record s { to_child = s.to_child ++ p.out } in
      let out : (handed batch r p.sent s₁).1.to_child ≡ p.out =
        handed-to_child batch r p.sent s₁ ∙ ap (λ sent. sent ++ p.out) none_sent in
      handed-received batch r p.sent s₁ (recv_sessions json (arrived dup p.out) acks)
        (λ f.
          (send_sessions-Fails json laws batch.frozen shed.rounds shed.finish_send dup acks f).0)
        (subst (λ ds. recv_sessions json (arrived dup ds) acks ≡ ok xs) out e)
  upgraded-received shed batch upgrade_failed s dup acks xs none_sent e =
      nothing_received s dup acks xs none_sent e
  upgraded-received shed batch upgrade_lost s dup acks xs none_sent e =
      nothing_received s dup acks xs none_sent e

  -- However the freeze, the upgrade and the handover go: if the child's receiver returns sessions from
  -- what the parent has sent it, then the parent's `run` returns at once and has sent none of the
  -- sessions back that it froze, so that no session is served by the parent and by the child.
  pub migrate-exclusive :
      (shed : Shed) (s : Server) (dup : ℕ → ℕ) (acks : ℕ → Result (Unit {0}))
      (xs : List (SessionSnapshot × ℕ))
      → s.to_child ≡ []
      → recv_sessions json (arrived dup (migrate json shed s).1.to_child) acks ≡ ok xs
      → ((migrate json shed s).0 ≡ ok returns) × ((migrate json shed s).1.thawed ≡ s.thawed)
  unfolding migrate
  migrate-exclusive shed s dup acks xs none_sent e =
      upgraded-received shed (freeze_all shed.ids shed.replies) shed.upgrade (abort s) dup acks xs
        none_sent e
