-- ===== src/Init.antt =====
-- The loop of the parent in src/bin/td-init.rs: it forwards signals to the process group and reaps
-- descendants. What `waitpid` yields in each turn, and which signals the handler sees before it, are
-- arguments; a process and a signal are their numbers.
pub mod Exit
pub mod Main
use traffic_director.Prelude.{ℕ, Option, none, some, List, [], ◌∷◌, ◌++◌, ◌==◌, if◌then◌else◌}

-- A descendant exits, or is killed by a signal, or it stops or goes on; there is none; a signal
-- arrives; or the call fails.
pub data WaitResult : Type 0 where
  exited : ℕ → ℕ → WaitResult
  killed : ℕ → ℕ → WaitResult
  changed no_descendant interrupted wait_failed : WaitResult

-- `PENDING`, `last_status`, and the signals that were sent to the group.
pub record Supervisor : Type 0 where
  pub pending : ℕ
  pub last_status : ℕ
  pub relayed : List ℕ

abbrev pub supervisor : Supervisor
supervisor = record { pending = 0; last_status = 0; relayed = [] }

-- The handler, for each signal in turn.
unfoldable pub record_signals : List ℕ → Supervisor → Supervisor
record_signals [] s = s
record_signals (sig ∷ sigs) s = record_signals sigs (record s { pending = sig })

unfoldable pub relay_pending : Supervisor → Supervisor
relay_pending s =
    if s.pending == 0 then s else record s { pending = 0; relayed = s.relayed ++ s.pending ∷ [] }

-- The status with which the process exits, if it does.
unfoldable pub on_wait_result : ℕ → WaitResult → Supervisor → Option ℕ × Supervisor
on_wait_result child (exited pid code) s =
    if pid == child then (none, record s { last_status = code }) else (none, s)
on_wait_result child no_descendant s = (some s.last_status, s)
on_wait_result child wait_failed s = (some 1, s)
on_wait_result child _ s = (none, s)

abbrev go_on : (Supervisor → Option ℕ × Supervisor) → Option ℕ → Supervisor → Option ℕ × Supervisor
go_on rest none s = rest s
go_on rest (some status) s = (some status, s)

unfoldable pub supervise : ℕ → List (List ℕ × WaitResult) → Supervisor → Option ℕ × Supervisor
unfolding record_signals relay_pending on_wait_result
supervise child [] s = (none, s)
supervise child ((sigs, w) ∷ turns) s =
    let (status, s') = on_wait_result child w (relay_pending (record_signals sigs s)) in
    go_on (supervise child turns) status s'
