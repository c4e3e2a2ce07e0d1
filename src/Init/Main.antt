-- ===== src/Init/Main.antt =====
-- `main` of src/bin/td-init.rs: the arguments, the fork, and the two processes after it. What the
-- system calls return is an argument.
use traffic_director.Migrate.{same_bytes}
use traffic_director.Init.{
  WaitResult, no_descendant, wait_failed, Supervisor, supervise, supervisor,
}
use traffic_director.Prelude.{
  Bytes, ℕ, ◌≡◌, refl, Bool, true, false, ◌&&◌, Option, none, some, List, [], ◌∷◌, ◌++◌,
  if◌then◌else◌, All,
}
use traffic_director.Init.Exit.{child_code, latest_of_each, GoesOn, supervise_lem}

-- SIGUSR2, SIGTERM and SIGINT, by their Linux numbers.
abbrev pub handled_signals : List ℕ
handled_signals = 12 ∷ 15 ∷ 2 ∷ []

pub data ForkResult : Type 0 where
  fork_child fork_failed : ForkResult
  fork_parent : ℕ → ForkResult

-- Whether `setsid`, `execv`, `prctl` and each `sigaction` succeed.
pub record Calls : Type 0 where
  pub fork : ForkResult
  pub setsid : Bool
  pub execv : Bool
  pub prctl : Bool
  pub sigaction : ℕ → Bool

-- The process exits, is replaced by the program with these arguments, panics, or still waits.
pub data Outcome : Type 0 where
  exits : ℕ → Outcome
  becomes : List Bytes → Outcome
  panics : Outcome
  waits : Outcome

abbrev pub dashes : Bytes
dashes = b'-' ∷ b'-' ∷ []

-- A leading `--` is removed.
unfoldable pub program_args : List Bytes → List Bytes
program_args [] = []
program_args (arg ∷ args) = if same_bytes arg dashes then args else arg ∷ args

unfoldable pub install : List ℕ → (ℕ → Bool) → Bool
install [] sigaction = true
install (sig ∷ sigs) sigaction = let rest = install sigs sigaction in sigaction sig && rest

-- What becomes of the process, and the signals that it has relayed to the group.
abbrev pub exit_of : Option ℕ × Supervisor → Outcome × List ℕ
exit_of (none, s) = (waits, s.relayed)
exit_of (some status, s) = (exits status, s.relayed)

unfoldable pub child_process : List Bytes → Calls → Outcome
child_process args calls =
    if calls.setsid then (if calls.execv then becomes args else exits 127) else panics

unfoldable pub parent_process : ℕ → Calls → List (List ℕ × WaitResult) → Outcome × List ℕ
unfolding install
parent_process child calls turns =
    if calls.prctl && install handled_signals calls.sigaction
    then exit_of (supervise child turns supervisor)
    else (panics, [])

abbrev pub after_fork :
    List Bytes → Calls → List (List ℕ × WaitResult) → ForkResult → Outcome × List ℕ
after_fork args calls turns fork_child = (child_process args calls, [])
after_fork args calls turns (fork_parent child) = parent_process child calls turns
after_fork args calls turns fork_failed = (exits 1, [])

abbrev run_program : Calls → List (List ℕ × WaitResult) → List Bytes → Outcome × List ℕ
run_program calls turns [] = (exits 2, [])
run_program calls turns (arg ∷ args) = after_fork (arg ∷ args) calls turns calls.fork

-- `args` are those after the name of td-init.
unfoldable pub main : List Bytes → Calls → List (List ℕ × WaitResult) → Outcome × List ℕ
unfolding program_args child_process parent_process
main args calls turns = run_program calls turns (program_args args)

-- td-init is started with a program, with or without `--` before it, and `setsid`, `prctl` and
-- `sigaction` succeed. The forked process becomes that program with its arguments, or exits with 127
-- if it cannot be run. The parent waits as long as descendants remain, whatever they do and whatever
-- real signals arrive, and has relayed to the process group, for each turn in which signals arrived,
-- the latest of them, in their order, and nothing else. When no descendant remains it exits with the
-- code of its direct child, or 0 if that has not exited by itself, whatever the code of a descendant
-- that exits later, and if the wait fails otherwise, with 1. Where the fork fails, td-init exits with
-- 1, and where no program is given, with 2.
pub main_lem :
    (program : Bytes) (args : List Bytes) (child : ℕ) (turns rest : List (List ℕ × WaitResult))
    (calls : Calls)
    → same_bytes program dashes ≡ false
    → calls.setsid ≡ true
    → calls.prctl ≡ true
    → ((sig : ℕ) → calls.sigaction sig ≡ true)
    → All GoesOn turns
    → let with_fork : ForkResult → Calls = λ fork. record calls { fork = fork } in
      let relayed : List ℕ = latest_of_each turns in
      (main (dashes ∷ program ∷ args) calls turns ≡ main (program ∷ args) calls turns)
      × (main (program ∷ args) (with_fork fork_child) turns
          ≡ ((if calls.execv then becomes (program ∷ args) else exits 127), []))
      × (main (program ∷ args) (with_fork (fork_parent child)) turns ≡ (waits, relayed))
      × (main (program ∷ args) (with_fork (fork_parent child)) (turns ++ ([], no_descendant) ∷ rest)
          ≡ (exits (child_code child turns 0), relayed))
      × (main (program ∷ args) (with_fork (fork_parent child)) (turns ++ ([], wait_failed) ∷ rest)
          ≡ (exits 1, relayed))
      × (main (program ∷ args) (with_fork fork_failed) turns ≡ (exits 1, []))
      × (main [] calls turns ≡ (exits 2, []))
      × (main (dashes ∷ []) calls turns ≡ (exits 2, []))
unfolding main program_args child_process parent_process install
main_lem program args child turns rest calls p s k a h =
    let (waiting, done, failed) = supervise_lem child turns rest h in
    (
      rw p refl,
      rw (p, s) refl,
      rw (p, k, a 12, a 15, a 2, waiting) refl,
      rw (p, k, a 12, a 15, a 2, done) refl,
      rw (p, k, a 12, a 15, a 2, failed) refl,
      rw p refl,
      refl,
      refl,
    )
