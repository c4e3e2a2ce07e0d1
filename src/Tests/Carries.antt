-- ===== src/Tests/Carries.antt =====
-- A test of a migration from end to end: two sessions of two clients.
use traffic_director.Tests.Replays.{connect_raw}
use traffic_director.Window.{snapshot}
use traffic_director.Session.Handshake.{version_byte}
use traffic_director.Window.Invariant.{new-IsValid}
use traffic_director.Migrate.Send.{send_sessions}
use traffic_director.Session.Freeze.{session_snapshot}
use traffic_director.Tests.Toy.{toy}
use traffic_director.Migrate.Handover.{Payloads}
use traffic_director.Server.{migrate_mode}
use traffic_director.Migrate.{Handoff, ack_byte}
use traffic_director.Server.Boot.{boot}
use traffic_director.Migrate.Handover.{arrived}
use traffic_director.Tests.Forwards.{conn}
use traffic_director.Prelude.{Bytes, ◌+◌, ◌≡◌, refl, none, List, [], ◌∷◌, arith, length, All}
use traffic_director.Result.{ok}
use traffic_director.Server.Boot.Carried.{
  Leaving, CanLeave, frozen, all_carried, started as child, boot-send_sessions,
}
use traffic_director.Tests.Handovers.{small_json, small_json-IsJson, good_rounds}
use traffic_director.Tests.Starts.{started, restored_run}

abbrev leaving : List (Leaving (Unit {0}))
leaving =
    record { id = 4; fd = 9; keep_alive = 12; session = started }
    ∷ record { id = 2; fd = 7; keep_alive = 12; session = record started { broker = none } }
    ∷ []

abbrev raw : Bytes
raw = b'{' ∷ 4 ∷ connect_raw

leaving-CanLeave : All (CanLeave toy) leaving
leaving-CanLeave =
    let one : CanLeave toy (record { id = 4; fd = 9; keep_alive = 12; session = started }) =
      record { windows_ok = new-IsValid; counted = refl; restored = restored_run } in
    let two : CanLeave toy
        (record { id = 2; fd = 7; keep_alive = 12; session = record started { broker = none } }) =
      record { windows_ok = new-IsValid; counted = refl; restored = restored_run } in
    (one, (two, tt))

leaving-Payloads : Payloads small_json (frozen toy leaving) (raw ∷ raw ∷ [])
unfolding session_snapshot version_byte snapshot
leaving-Payloads = (refl, omega arith, (refl, omega arith, tt))

boot-send_sessions_example :
    (p : Handoff) × (send_sessions small_json (frozen toy leaving) good_rounds (ok tt) ≡ (ok tt, p))
    × (p.sent ≡ length (frozen toy leaving))
    × (boot toy
          (record { nonblocking = λ fd. ok tt; stream = λ fd. ok conn })
          small_json
          migrate_mode
          (child (arrived (λ fd. fd + 20) p.out))
        ≡ ok (all_carried toy (λ fd. fd + 20) (λ fd. conn) leaving))
boot-send_sessions_example =
    boot-send_sessions toy small_json small_json-IsJson leaving (raw ∷ raw ∷ []) good_rounds
      (λ fd. fd + 20) (λ fd. conn) leaving-CanLeave leaving-Payloads
      (λ i. (refl, record { payload = ack_byte; fd = none }, refl, refl))
