-- ===== src/Server/Tasks.antt =====
-- The tasks of src/server.rs that serve sessions: those that the acceptor spawns, each with a guard of
-- the drain tracker, and those that adopt a session of the previous generation.
use mathlib.Core.Path.{subst}
use traffic_director.Server.Drain.{
  DrainTracker, before_load, saw_none, WaitStep, no_sessions_tracked, track_session, drop_guard,
  drops, wait_drained, wait_drained-Seen, Seen,
}
use traffic_director.Registry.{SessionSnapshot}
use traffic_director.Prelude.{
  ℕ, ◌+◌, ◌-◌, ◌^◌, ◌≤◌, ◌<◌, ◌≡◌, refl, List, [], ◌∷◌, arith, ◌==◌, if◌then◌else◌, length,
}
use traffic_director.Result.{Result, ok, err, panic, out_of_fuel}

-- How many sessions of each kind are served.
pub record Tasks : Type 0 where
  pub tracker : DrainTracker
  pub accepted : ℕ
  pub adopted : ℕ

abbrev pub no_tasks : Tasks
no_tasks = record { tracker = no_sessions_tracked; accepted = 0; adopted = 0 }

-- One turn of the accept loop; `accept` may fail.
unfoldable pub on_accept : Result (Unit {0}) → Tasks → Tasks
unfolding track_session
on_accept (ok u) t = record t { tracker = track_session t.tracker; accepted = t.accepted + 1 }
on_accept _ t = t

-- The task of a child, with what `recv_sessions` returns.
unfoldable pub adopt_all : Result (List (SessionSnapshot × ℕ)) → Tasks → Tasks
adopt_all (ok sessions) t = record t { adopted = t.adopted + length sessions }
adopt_all _ t = t

-- An accepted session ends, if there is one, and its guard is dropped.
unfoldable pub end_accepted : Tasks → Tasks
unfolding drop_guard
end_accepted t =
    if t.accepted == 0
    then t
    else record t { tracker = (drop_guard t.tracker).0; accepted = t.accepted - 1 }

unfoldable pub end_adopted : Tasks → Tasks
end_adopted t = record t { adopted = t.adopted - 1 }

pub data TaskStep : Type 0 where
  task_accept : Result (Unit {0}) → TaskStep
  task_adopt : Result (List (SessionSnapshot × ℕ)) → TaskStep
  accepted_ends adopted_ends : TaskStep

unfoldable pub task_step : TaskStep → Tasks → Tasks
unfolding on_accept adopt_all end_accepted end_adopted
task_step (task_accept r) t = on_accept r t
task_step (task_adopt r) t = adopt_all r t
task_step accepted_ends t = end_accepted t
task_step adopted_ends t = end_adopted t

unfoldable pub serve_all : List TaskStep → Tasks → Tasks
unfolding task_step
serve_all [] t = t
serve_all (s ∷ steps) t = serve_all steps (task_step s t)

-- The tracker counts the accepted sessions; at most `n` have come.
abbrev Counted : ℕ → Tasks → Type 0
Counted n t = (t.tracker.sessions ≡ t.accepted) × (t.accepted ≤ n)

on_accept-Counted :
    (r : Result (Unit {0})) (n : ℕ) (t : Tasks)
    → n + 1 < 2 ^ 64
    → Counted n t
    → Counted (n + 1) (on_accept r t)
unfolding on_accept track_session
on_accept-Counted (ok u) n t small (c, b) = (omega arith, omega arith)
on_accept-Counted (err e) n t small (c, b) = (c, omega arith)
on_accept-Counted panic n t small (c, b) = (c, omega arith)
on_accept-Counted out_of_fuel n t small (c, b) = (c, omega arith)

adopt_all-Counted :
    (r : Result (List (SessionSnapshot × ℕ))) (n : ℕ) (t : Tasks)
    → Counted n t
    → Counted (n + 1) (adopt_all r t)
unfolding adopt_all
adopt_all-Counted (ok sessions) n t (c, b) = (c, omega arith)
adopt_all-Counted (err e) n t (c, b) = (c, omega arith)
adopt_all-Counted panic n t (c, b) = (c, omega arith)
adopt_all-Counted out_of_fuel n t (c, b) = (c, omega arith)

end_accepted-Counted :
    (n : ℕ) (t : Tasks) → n + 1 < 2 ^ 64 → Counted n t → Counted (n + 1) (end_accepted t)
unfolding end_accepted drop_guard
end_accepted-Counted n t small (c, b) = ground arith

task_step-Counted :
    (s : TaskStep) (n : ℕ) (t : Tasks)
    → n + 1 < 2 ^ 64
    → Counted n t
    → Counted (n + 1) (task_step s t)
unfolding task_step end_adopted
task_step-Counted (task_accept r) n t small c = on_accept-Counted r n t small c
task_step-Counted (task_adopt r) n t small c = adopt_all-Counted r n t c
task_step-Counted accepted_ends n t small c = end_accepted-Counted n t small c
task_step-Counted adopted_ends n t small (c, b) = (c, omega arith)

serve_all-Counted :
    (steps : List TaskStep) (n : ℕ) (t : Tasks)
    → n + length steps < 2 ^ 64
    → Counted n t
    → Counted (n + length steps) (serve_all steps t)
unfolding serve_all
serve_all-Counted [] n t small (c, b) = (c, omega arith)
serve_all-Counted (s ∷ steps) n t small c =
    let (count, few) =
      serve_all-Counted steps (n + 1) (task_step s t) (omega arith)
        (task_step-Counted s n t (omega arith) c) in
    (count, omega arith)

-- After any fewer than 2^64 events of a process that starts without sessions, the tracker counts
-- the sessions that were accepted and are served still, and none that was adopted. If the process
-- then waits, and sessions end and the time may run out in any order, `wait_drained` finds none left
-- only when every one of these accepted sessions has ended.
pub serve_all-tracked :
    (steps : List TaskStep) (waiting : List WaitStep)
    → length steps < 2 ^ 64
    → drops waiting ≤ (serve_all steps no_tasks).accepted
    → let t : Tasks = serve_all steps no_tasks in
      (t.tracker.sessions ≡ t.accepted)
      × ((wait_drained waiting before_load t.tracker).0 ≡ saw_none → drops waiting ≡ t.accepted)
serve_all-tracked steps waiting small few =
    let t : Tasks = serve_all steps no_tasks in
    let (count, bound) = serve_all-Counted steps 0 no_tasks (omega arith) (refl, omega arith) in
    let (left, seen) =
      wait_drained-Seen waiting before_load t.tracker (omega arith) (omega arith) tt in
    (
      count,
      λ none_left.
          let all_left : (wait_drained waiting before_load t.tracker).1.sessions ≡ 0 =
            subst (λ w. Seen w (wait_drained waiting before_load t.tracker).1.sessions) none_left
              seen in
          omega arith,
    )
