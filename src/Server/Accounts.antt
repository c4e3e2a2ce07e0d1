-- ===== src/Server/Accounts.antt =====
-- The SIGUSR2 arm of src/server.rs in migrate mode when the upgrade or the handover fails: where each
-- frozen session goes.
use mathlib.Core.Path.{subst}
use traffic_director.Migrate.Handover.{arrived}
use traffic_director.Migrate.Recv.{recv_sessions}
use traffic_director.Migrate.Send.{send_sessions}
use traffic_director.Migrate.Failure.{Fails, send_sessions-Fails}
use traffic_director.Registry.Rollback.{
  Unique, Honest, returned, ids_of, resume_skipping-freeze_all,
}
use traffic_director.Registry.{
  FrozenSession, Reply, FreezeBatch, has, freeze_all, resume_skipping, resume_all,
}
use traffic_director.Server.{
  upgrade_done, upgrade_failed, Shed, Server, stays, breaks, migrate, release, upgraded, handed,
  abort,
}
use traffic_director.Migrate.{Json, IsJson}
use traffic_director.Prelude.{
  ℕ, ◌≡◌, refl, ap, ◌∙◌, ◌||◌, List, [], ◌∷◌, ◌++◌, arith, drop, take, sym,
}
use traffic_director.Result.{IoError, Result, ok, err}

has-append : (xs ys : List ℕ) (j : ℕ) → has (xs ++ ys) j ≡ (has xs j || has ys j)
has-append [] ys j = refl
has-append (x ∷ xs) ys j = ground (arith, has-append xs ys j)

-- From `s` to `s'`, these sessions have been sent back, and these channels closed.
abbrev pub Settles : Server → Server → List FrozenSession → List FrozenSession → Type 0
Settles s s' back gone =
    (s'.thawed ≡ s.thawed ++ returned back)
    × ((j : ℕ) → has s'.closed j ≡ (has s.closed j || has (ids_of gone) j))

release-Settles :
    (ids : List ℕ) (replies : ℕ → Reply) (sent : ℕ) (s : Server)
    → Unique ids
    → Honest replies
    → let batch : FreezeBatch = freeze_all ids replies in
      Settles s
        (release (resume_skipping batch sent) s)
        (drop sent batch.frozen)
        (take sent batch.frozen)
release-Settles ids replies sent s u honest =
    let batch : FreezeBatch = freeze_all ids replies in
    let (_, back, gone) = resume_skipping-freeze_all ids replies sent u honest in
    (
      ap (λ b. s.thawed ++ b) back,
      λ j.
          has-append s.closed (resume_skipping batch sent).1 j
          ∙ ap (λ h. has s.closed j || h) (gone j),
    )

module _ (json : Json) (laws : IsJson json) where
  -- Let each live session be asked once, and answer under its own identifier. If the upgrade fails,
  -- the loop goes on, every session that was frozen is sent its own snapshot back, and no channel is
  -- closed. If the upgrade succeeds and the handover fails, the loop ends, every session but the
  -- counted ones is sent back, and the counted ones are closed; and the child adopts none, neither
  -- these nor others.
  pub migrate-Settles :
      (shed : Shed) (s : Server)
      → Unique shed.ids
      → Honest shed.replies
      → s.to_child ≡ []
      → let batch : FreezeBatch = freeze_all shed.ids shed.replies in
        let (r, s') = migrate json shed s in
        let (sending, p) = send_sessions json batch.frozen shed.rounds shed.finish_send in
        (shed.upgrade ≡ upgrade_failed → (r ≡ ok stays) × Settles s s' batch.frozen [])
        × ((e : IoError)
            → shed.upgrade ≡ upgrade_done
            → sending ≡ err e
            → (r ≡ ok breaks)
              × Settles s s' (drop p.sent batch.frozen) (take p.sent batch.frozen)
              × ((dup : ℕ → ℕ) (acks : ℕ → Result (Unit {0}))
                  → Fails (recv_sessions json (arrived dup s'.to_child) acks)))
  unfolding migrate upgraded handed resume_all
  migrate-Settles shed s u honest none_sent =
      let batch : FreezeBatch = freeze_all shed.ids shed.replies in
      let (sending, p) = send_sessions json batch.frozen shed.rounds shed.finish_send in
      (
        λ failed. rw failed (refl, release-Settles shed.ids shed.replies 0 (abort s) u honest),
        λ e done broken.
            let failed : Fails sending = rw broken tt in
            rw (done, broken)
              (
                refl,
                release-Settles shed.ids shed.replies p.sent
                    (record (abort s) { to_child = s.to_child ++ p.out }) u honest,
                λ dup acks.
                    subst (λ sent. Fails (recv_sessions json (arrived dup (sent ++ p.out)) acks))
                      (sym none_sent)
                      (send_sessions-Fails json laws batch.frozen shed.rounds shed.finish_send dup
                        acks failed).0,
              ),
      )
