-- ===== src/Init/Exit.antt =====
-- When and how the loop of src/bin/td-init.rs ends.
use mathlib.Core.Path.{subst}
use traffic_director.Init.{
  WaitResult, exited, no_descendant, wait_failed, Supervisor, relay_pending, supervise,
  record_signals, on_wait_result, supervisor, killed, changed, interrupted,
}
use traffic_director.Prelude.{
  ℕ, ◌<◌, ◌≡◌, none, some, List, [], ◌∷◌, ◌++◌, ◌==◌, if◌then◌else◌, All, refl, sym, ap, ◌∙◌, false,
  append-nil, append_assoc, arith,
}

abbrev pub Ends : WaitResult → Type 0
Ends no_descendant = Unit
Ends wait_failed = Unit
Ends _ = ⊥

-- The exit code of the direct child, if it has exited.
abbrev pub code_after : ℕ → WaitResult → ℕ → ℕ
code_after child (exited pid c) code = if pid == child then c else code
code_after child _ code = code

abbrev pub child_code : ℕ → List (List ℕ × WaitResult) → ℕ → ℕ
child_code child [] code = code
child_code child ((sigs, w) ∷ turns) code = child_code child turns (code_after child w code)

-- Of the signals that arrive in one turn, the last.
abbrev pub latest : List ℕ → List ℕ
latest [] = []
latest (sig ∷ []) = sig ∷ []
latest (sig ∷ sigs) = latest sigs

abbrev pub latest_of_each : List (List ℕ × WaitResult) → List ℕ
latest_of_each [] = []
latest_of_each ((sigs, w) ∷ turns) = latest sigs ++ latest_of_each turns

-- A turn that goes on, with real signals.
abbrev pub GoesOn : List ℕ × WaitResult → Type 0
GoesOn (sigs, w) = (¬ Ends w) × All (λ sig. 0 < sig) sigs

abbrev idle : ℕ → List ℕ → Supervisor
idle code relayed = record { pending = 0; last_status = code; relayed = relayed }

relay_pending-record_signals :
    (sig : ℕ) (sigs : List ℕ) (code : ℕ) (out : List ℕ)
    → 0 < sig
    → All (λ x. 0 < x) sigs
    → relay_pending (record_signals (sig ∷ sigs) (idle code out))
      ≡ idle code (out ++ latest (sig ∷ sigs))
unfolding relay_pending record_signals
relay_pending-record_signals sig [] code out g h =
    let real : (sig == 0) ≡ false = ground arith in rw real refl
relay_pending-record_signals sig (x ∷ sigs) code out g h =
    relay_pending-record_signals x sigs code out h.0 h.1

relay_lem :
    (sigs : List ℕ) (code : ℕ) (out : List ℕ)
    → All (λ sig. 0 < sig) sigs
    → relay_pending (record_signals sigs (idle code out)) ≡ idle code (out ++ latest sigs)
unfolding relay_pending record_signals
relay_lem [] code out h = ap (idle code) (sym (append-nil out))
relay_lem (sig ∷ sigs) code out h = relay_pending-record_signals sig sigs code out h.0 h.1

on_wait_result-alive :
    (child : ℕ) (w : WaitResult) (code : ℕ) (out : List ℕ)
    → ¬ Ends w
    → on_wait_result child w (idle code out) ≡ (none, idle (code_after child w code) out)
unfolding on_wait_result
on_wait_result-alive child (exited pid c) code out h = ground arith
on_wait_result-alive child (killed pid sig) code out h = refl
on_wait_result-alive child changed code out h = refl
on_wait_result-alive child interrupted code out h = refl
on_wait_result-alive child no_descendant code out h = absurd (h tt)
on_wait_result-alive child wait_failed code out h = absurd (h tt)

supervise_alive :
    (child : ℕ) (turns rest : List (List ℕ × WaitResult)) (code : ℕ) (out : List ℕ)
    → All GoesOn turns
    → supervise child (turns ++ rest) (idle code out)
      ≡ supervise child rest (idle (child_code child turns code) (out ++ latest_of_each turns))
unfolding supervise
supervise_alive child [] rest code out h =
    ap (λ o. supervise child rest (idle code o)) (sym (append-nil out))
supervise_alive child ((sigs, w) ∷ turns) rest code out h =
    rw (relay_lem sigs code out h.0.1, on_wait_result-alive child w code (out ++ latest sigs) h.0.0)
      (supervise_alive child turns rest (code_after child w code) (out ++ latest sigs) h.1
        ∙ ap (λ o. supervise child rest (idle (child_code child turns (code_after child w code)) o))
            (append_assoc out (latest sigs) (latest_of_each turns)))

-- As long as descendants remain, whatever exits, is killed or interrupts the wait, td-init goes on,
-- and in each turn it relays the latest of the signals that have arrived. When none remains, it
-- exits with the code of its direct child, or 0 if that has not exited by itself; if the wait
-- fails otherwise, it exits with 1.
pub supervise_lem :
    (child : ℕ) (turns rest : List (List ℕ × WaitResult))
    → All GoesOn turns
    → let reached : Supervisor = record {
      pending = 0;
      last_status = child_code child turns 0;
      relayed = latest_of_each turns;
    } in
      (supervise child turns supervisor ≡ (none, reached))
      × (supervise child (turns ++ ([], no_descendant) ∷ rest) supervisor
          ≡ (some (child_code child turns 0), reached))
      × (supervise child (turns ++ ([], wait_failed) ∷ rest) supervisor ≡ (some 1, reached))
unfolding supervise on_wait_result relay_pending record_signals
supervise_lem child turns rest h = (
  subst
      (λ ts.
        supervise child ts supervisor
        ≡ supervise child [] (idle (child_code child turns 0) (latest_of_each turns)))
      (append-nil turns) (supervise_alive child turns [] 0 [] h),
  supervise_alive child turns (([], no_descendant) ∷ rest) 0 [] h,
  supervise_alive child turns (([], wait_failed) ∷ rest) 0 [] h,
)
