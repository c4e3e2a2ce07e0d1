-- ===== src/Cli/Program.antt =====
-- `main` of src/main.rs: the arguments, then `run` of src/server.rs from its start to its wait for the
-- sessions. What the calls return, and the signals, are arguments.
use mathlib.Core.Path.{subst}
use traffic_director.Exec.Post.{Post}
use traffic_director.Session.Freeze.{Session}
use traffic_director.Cli.{Parsers, Config, parse_args}
use traffic_director.Server.{ShedMode, Signal, Server, Verdict, run}
use traffic_director.Codec.{CodecLib}
use traffic_director.Migrate.{Json}
use traffic_director.Prelude.{ℕ, String, ◌≡◌, refl, true, false, Option, none, some, List, []}
use traffic_director.Result.{Result, ok, err, panic, out_of_fuel}
use traffic_director.Server.Lifecycle.{Lifecycle, run-Lifecycle}
use traffic_director.Server.Boot.{Boot, Sockets, boot}

-- The status of `usage`.
abbrev pub usage_status : ℕ
usage_status = 2

-- The process exits with a status, `run` returns an error before its loop, or it gets to its loop with
-- the adopted sessions, and this is where the signals lead.
pub data Process (C : Type 0) : Type 0 where
  exits_with : ℕ → Process C
  fails : Process C
  serves : List (Result (Session C)) → Result Verdict × Server → Process C

-- The state of `run` after `spawn_acceptor`.
abbrev pub accepting_server : Server
accepting_server = record {
  accepting = true;
  has_quit = false;
  to_child = [];
  thawed = [];
  closed = [];
}

module _ {C : Type 0} (lib : CodecLib C) (sockets : Sockets C) (json : Json) where
  unfoldable pub run_booted :
      ShedMode → List Signal → Result (List (Result (Session C))) → Process C
  run_booted mode signals (ok adopted) = serves adopted (run json mode signals accepting_server)
  run_booted mode signals (err e) = fails
  run_booted mode signals panic = fails
  run_booted mode signals out_of_fuel = fails

  abbrev run_configured :
      {A : Type 0} → (Config A → Boot) → List Signal → Option (Config A) → Process C
  run_configured calls signals none = exits_with usage_status
  run_configured calls signals (some c) =
      run_booted c.mode signals (boot lib sockets json c.mode (calls c))

  -- `calls` is what the calls of the start of `run` return for a configuration.
  unfoldable pub main_program :
      {A : Type 0} → Parsers A → List String → (Config A → Boot) → List Signal → Process C
  unfolding run_booted
  main_program parsers args calls signals = run_configured calls signals (parse_args parsers args)

  run_booted-Lifecycle :
      (mode : ShedMode) (signals : List Signal) (started : Result (List (Result (Session C))))
      (adopted : List (Result (Session C))) (r : Result Verdict × Server)
      → run_booted mode signals started ≡ serves adopted r
      → Post Lifecycle r
  unfolding run_booted
  run_booted-Lifecycle mode signals (ok a) adopted r e =
      let same : run json mode signals accepting_server ≡ r = cc in
      subst (Post Lifecycle) same (run-Lifecycle json mode signals accepting_server (refl, refl))
  run_booted-Lifecycle mode signals (err x) adopted r e = cc
  run_booted-Lifecycle mode signals panic adopted r e = cc
  run_booted-Lifecycle mode signals out_of_fuel adopted r e = cc

  -- Whatever the arguments are and the calls return: a process that gets to its loop keeps to the
  -- lifecycle of `run`, whatever signals arrive.
  pub main_program-Lifecycle :
      {A : Type 0} (parsers : Parsers A) (args : List String) (calls : Config A → Boot)
      (signals : List Signal) (adopted : List (Result (Session C))) (r : Result Verdict × Server)
      → main_program parsers args calls signals ≡ serves adopted r
      → Post Lifecycle r
  unfolding main_program
  main_program-Lifecycle parsers args calls signals adopted r e =
      configured (parse_args parsers args) e
    where
      configured :
          (o : Option (Config _))
          → run_configured calls signals o ≡ serves adopted r
          → Post Lifecycle r
      configured none e = cc
      configured (some c) e = run_booted-Lifecycle c.mode signals _ adopted r e
