-- ===== src/Server.antt =====
-- src/server.rs: what `run` does on each signal, in the two shed modes. The answers of ecdysis, of
-- the sessions and of the sockets are arguments.
pub mod Boot
pub mod Drain
pub mod Ownership
pub mod Lifecycle
pub mod Accounts
pub mod Tasks
use traffic_director.Migrate.Send.{send_sessions}
use traffic_director.Exec.{Exec, continue}
use traffic_director.Registry.{
  FrozenSession, Reply, FreezeBatch, finish, freeze_all, resume_skipping, resume_all,
}
use traffic_director.Migrate.{Json, Datagram, Round}
use traffic_director.Prelude.{ℕ, Bool, true, false, List, [], ◌∷◌, ◌++◌}
use traffic_director.Result.{transport, Result, ok, err, panic, out_of_fuel}

pub data ShedMode : Type 0 where
  drain_mode migrate_mode : ShedMode

-- What `upgrade` of ecdysis yields, in its task: `upgrade_lost` if the task cannot be joined.
pub data Upgrade : Type 0 where
  upgrade_done upgrade_failed upgrade_lost : Upgrade

-- What the world answers to one SIGUSR2: the live sessions in the order of the map, their replies to
-- the freeze, the upgrade, and the handover's system calls.
pub record Shed : Type 0 where
  pub ids : List ℕ
  pub replies : ℕ → Reply
  pub upgrade : Upgrade
  pub rounds : ℕ → Round
  pub finish_send : Result (Unit {0})

pub data Signal : Type 0 where
  sig_upgrade : Shed → Signal
  sig_term sig_int : Signal

-- Whether the acceptor runs, and `quit` of ecdysis was called; what has left over `to_child`; the
-- frozen sessions that were sent back, and the resume channels that were dropped.
pub record Server : Type 0 where
  pub accepting : Bool
  pub has_quit : Bool
  pub to_child : List Datagram
  pub thawed : List (ℕ × FrozenSession)
  pub closed : List ℕ

-- `stays` goes round the loop, `breaks` leaves it, `returns` leaves `run`.
pub data Verdict : Type 0 where
  stays breaks returns : Verdict

-- The end of a batch: what went back over the resume channels, and the channels that were dropped.
abbrev pub release : List (ℕ × FrozenSession) × List ℕ → Server → Server
release (back, gone) s = record s { thawed = s.thawed ++ back; closed = s.closed ++ gone }

abbrev pub quit : Server → Server
quit s = record s { has_quit = true }

-- `spawn_acceptor`, and `abort` of its task.
abbrev pub spawn_acceptor : Server → Server
spawn_acceptor s = record s { accepting = true }

abbrev pub abort : Server → Server
abort s = record s { accepting = false }

unfoldable pub drain : Upgrade → Exec Server Verdict
drain upgrade_done s = (ok breaks, quit (abort s))
drain upgrade_failed s = (ok stays, s)
drain upgrade_lost s = (err transport, s)

-- The match on the handover's result.
unfoldable pub handed : FreezeBatch → Result (Unit {0}) → ℕ → Exec Server Verdict
handed batch (ok u) sent s = (ok returns, release (finish batch) (quit s))
handed batch (err e) sent s = (ok breaks, release (resume_skipping batch sent) s)
handed batch panic sent s = (panic, s)
handed batch out_of_fuel sent s = (out_of_fuel, s)

module _ (json : Json) where
  -- The match on the upgrade's result, with the frozen sessions. An early return drops the batch.
  unfoldable pub upgraded : Shed → FreezeBatch → Upgrade → Exec Server Verdict
  upgraded shed batch upgrade_done s =
      let (r, p) = send_sessions json batch.frozen shed.rounds shed.finish_send in
      handed batch r p.sent (record s { to_child = s.to_child ++ p.out })
  upgraded shed batch upgrade_failed s = (ok stays, spawn_acceptor (release (resume_all batch) s))
  upgraded shed batch upgrade_lost s = (err transport, release (finish batch) s)

  unfoldable pub migrate : Shed → Exec Server Verdict
  unfolding upgraded
  migrate shed s = upgraded shed (freeze_all shed.ids shed.replies) shed.upgrade (abort s)

  abbrev shed_by : ShedMode → Shed → Exec Server Verdict
  shed_by drain_mode shed = drain shed.upgrade
  shed_by migrate_mode shed = migrate shed

  unfoldable pub on_signal : ShedMode → Signal → Exec Server Verdict
  unfolding drain migrate
  on_signal mode (sig_upgrade shed) s = shed_by mode shed s
  on_signal mode sig_term s = (ok breaks, s)
  on_signal mode sig_int s = (ok breaks, s)

  -- What follows the loop, up to the wait.
  abbrev pub after_loop : Server → Server
  after_loop s = quit (abort s)

  abbrev pub decide : Exec Server Verdict → Verdict → Exec Server Verdict
  decide rest stays s = rest s
  decide rest breaks s = (ok breaks, after_loop s)
  decide rest returns s = (ok returns, s)

  -- The loop over the signals that arrive, and what follows it: `stays` if it waits for another
  -- signal, `breaks` if it goes on to `wait_drained`.
  unfoldable pub run : ShedMode → List Signal → Exec Server Verdict
  unfolding on_signal
  run mode [] s = (ok stays, s)
  run mode (signal ∷ signals) s =
      let (r, s') = on_signal mode signal s in continue r (decide (run mode signals)) s'
