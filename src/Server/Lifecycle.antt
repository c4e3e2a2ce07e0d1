-- ===== src/Server/Lifecycle.antt =====
-- `run` of src/server.rs: whether the process accepts connections.
use traffic_director.Migrate.Send.{send_sessions}
use traffic_director.Exec.Post.{Post, Post-bind}
use traffic_director.Exec.{Exec}
use traffic_director.Registry.{FreezeBatch, freeze_all}
use traffic_director.Server.{
  ShedMode, drain_mode, migrate_mode, Upgrade, upgrade_done, upgrade_failed, upgrade_lost, Shed,
  Signal, sig_upgrade, sig_term, sig_int, Server, Verdict, stays, breaks, returns, drain, handed,
  upgraded, migrate, on_signal, decide, run, shed_by, abort,
}
use traffic_director.Migrate.{Json}
use traffic_director.Prelude.{ℕ, ◌≡◌, refl, true, false, List, [], ◌∷◌, ◌++◌}
use traffic_director.Result.{Result, ok, err, panic, out_of_fuel}

abbrev pub Serving : Server → Type 0
Serving s = (s.accepting ≡ true) × (s.has_quit ≡ false)

abbrev pub Stopped : Server → Type 0
Stopped s = (s.accepting ≡ false) × (s.has_quit ≡ true)

-- After a signal, and after a run.
abbrev After : Verdict → Server → Type 0
After stays s = Serving s
After breaks s = Unit
After returns s = Stopped s

abbrev pub Lifecycle : Verdict → Server → Type 0
Lifecycle stays s = Serving s
Lifecycle breaks s = Stopped s
Lifecycle returns s = Stopped s

drain-After : (u : Upgrade) (s : Server) → Serving s → Post After (drain u s)
unfolding drain
drain-After upgrade_done s h = tt
drain-After upgrade_failed s h = h
drain-After upgrade_lost s h = tt

handed-After :
    (batch : FreezeBatch) (r : Result (Unit {0})) (sent : ℕ) (s : Server)
    → s.accepting ≡ false
    → Post After (handed batch r sent s)
unfolding handed
handed-After batch (ok u) sent s h = (h, refl)
handed-After batch (err e) sent s h = tt
handed-After batch panic sent s h = tt
handed-After batch out_of_fuel sent s h = tt

module _ (json : Json) where
  upgraded-After :
      (shed : Shed) (batch : FreezeBatch) (u : Upgrade) (s : Server)
      → s.accepting ≡ false
      → s.has_quit ≡ false
      → Post After (upgraded json shed batch u s)
  unfolding upgraded
  upgraded-After shed batch upgrade_done s h q =
      let (r, p) = send_sessions json batch.frozen shed.rounds shed.finish_send in
      handed-After batch r p.sent (record s { to_child = s.to_child ++ p.out }) h
  upgraded-After shed batch upgrade_failed s h q = (refl, q)
  upgraded-After shed batch upgrade_lost s h q = tt

  shed_by-After :
      (mode : ShedMode) (shed : Shed) (s : Server)
      → Serving s
      → Post After (shed_by json mode shed s)
  unfolding migrate
  shed_by-After drain_mode shed s h = drain-After shed.upgrade s h
  shed_by-After migrate_mode shed s h =
      upgraded-After shed (freeze_all shed.ids shed.replies) shed.upgrade (abort s) refl h.1

  on_signal-After :
      (mode : ShedMode) (signal : Signal) (s : Server)
      → Serving s
      → Post After (on_signal json mode signal s)
  unfolding on_signal
  on_signal-After mode (sig_upgrade shed) s h = shed_by-After mode shed s h
  on_signal-After mode sig_term s h = tt
  on_signal-After mode sig_int s h = tt

  decide-Lifecycle :
      (rest : Exec Server Verdict) (v : Verdict) (s : Server)
      → After v s
      → (Serving s → Post Lifecycle (rest s))
      → Post Lifecycle (decide json rest v s)
  decide-Lifecycle rest stays s a h = h a
  decide-Lifecycle rest breaks s a h = (refl, refl)
  decide-Lifecycle rest returns s a h = a

  -- Start with a process that accepts connections and has not quit, in either mode. Whatever signals
  -- arrive, in any order, and however their upgrades and handovers go, if `run` does not end in an
  -- error: as long as it waits for signals, the process accepts connections and has not quit, every
  -- failed upgrade included; once it has left the loop, the acceptor is stopped and ecdysis has quit.
  pub run-Lifecycle :
      (mode : ShedMode) (signals : List Signal) (s : Server)
      → Serving s
      → Post Lifecycle (run json mode signals s)
  unfolding run
  run-Lifecycle mode [] s h = h
  run-Lifecycle mode (signal ∷ signals) s h =
      Post-bind After Lifecycle (on_signal json mode signal s) _ (on_signal-After mode signal s h)
        (λ v s' a. decide-Lifecycle (run json mode signals) v s' a (run-Lifecycle mode signals s'))
