-- ===== src/Tests/Tasks.antt =====
-- A test of a session's task beside two others, one of which ends.
use traffic_director.Session.Loop.{forward_loop, begin}
use traffic_director.Tests.Loops.{events}
use traffic_director.Tests.Toy.{toy}
use traffic_director.Session.Connected.{Flow}
use traffic_director.Registry.Ids.{Change, registers, unregisters, holds, changes}
use traffic_director.Registry.{SessionRegistry, register}
use traffic_director.Prelude.{ℕ, ◌≡◌, ◌≢◌, List, [], ◌∷◌, arith, All, not}
use traffic_director.Result.{IoError, Result, ok, err}
use traffic_director.Session.Task.{session_task, session_task-holds, has_returned, Spares}
use traffic_director.Tests.Starts.{started}
use traffic_director.Tests.Registries.{one_session}

abbrev others : List (Change ℕ)
others = registers 40 ∷ unregisters 2 ∷ []

spared : All (Spares (register one_session 30).0) others
unfolding register
spared = (tt, ((λ e. ground arith), tt))

session_task-holds_example :
    let id : ℕ = (register one_session 30).0 in
    let (outcome, r') : Result Flow × SessionRegistry ℕ =
      session_task toy 9 0 (ok started) 30 events others one_session in
    (outcome ≡ (forward_loop toy id 9 events (begin started 0)).0)
    × (holds r'.sessions id ≡ not (has_returned outcome))
    × ((j : ℕ)
        → id ≢ j
        → holds r'.sessions j ≡ holds (changes (register one_session 30).1 others).sessions j)
    × ((e : IoError)
        → session_task toy 9 0 (err e) 30 events others one_session
          ≡ (err e, changes one_session others))
session_task-holds_example = session_task-holds toy 9 0 started 30 events others one_session spared
