-- ===== src/Cli.antt =====
-- `parse_args` of src/main.rs. The parsers of addresses and of numbers are arguments; `none` is the
-- usage message, after which the program exits with status 2.
pub mod Flags
pub mod Program
use traffic_director.Prelude.{ℕ, String, Option, none, some, List, [], ◌∷◌, str_eq, if◌then◌else◌}
use traffic_director.Server.{ShedMode, drain_mode, migrate_mode}
use traffic_director.Session.Keepalive.{from_secs}
use mathlib.Core.Option.{bind as and_then}

-- The variables of `parse_args`.
pub record Args : Type 0 where
  pub listen : Option String
  pub broker : Option String
  pub drain_timeout : ℕ
  pub mode : ShedMode

abbrev pub defaults : Args
defaults = record { listen = none; broker = none; drain_timeout = from_secs 60; mode = drain_mode }

-- The `parse` of the standard library, at `SocketAddr` and at `u64`.
pub record Parsers (A : Type 0) : Type 0 where
  pub address : String → Option A
  pub seconds : String → Option ℕ

-- The configuration that `main` gives to `server::run`.
pub record Config (A : Type 0) : Type 0 where
  pub listen : A
  pub broker : A
  pub drain_timeout : ℕ
  pub mode : ShedMode

unfoldable pub mode_of : String → Option ShedMode
mode_of value =
    if str_eq value "drain"
    then some drain_mode
    else if str_eq value "migrate"
    then some migrate_mode
    else none

module _ {A : Type 0} (parsers : Parsers A) where
  -- One turn of the loop: a flag and the argument after it.
  unfoldable pub set_flag : String → String → Args → Option Args
  unfolding mode_of
  set_flag flag value args =
      if str_eq flag "--listen"
      then some (record args { listen = some value })
      else if str_eq flag "--broker"
      then some (record args { broker = some value })
      else if str_eq flag "--drain-timeout-secs"
      then and_then (parsers.seconds value)
          (λ secs. some (record args { drain_timeout = from_secs secs }))
      else if str_eq flag "--mode"
      then and_then (mode_of value) (λ mode. some (record args { mode = mode }))
      else none

  -- The loop. A last argument alone is a flag without its value, or unknown.
  unfoldable pub read_flags : List String → Args → Option Args
  unfolding set_flag
  read_flags [] args = some args
  read_flags (flag ∷ []) args = none
  read_flags (flag ∷ value ∷ rest) args = and_then (set_flag flag value args) (read_flags rest)

  unfoldable pub config_of : Args → Option (Config A)
  config_of args = and_then args.listen (λ l. and_then (parsers.address l) (λ listen.
      and_then args.broker (λ b. and_then (parsers.address b) (λ broker. some (record {
        listen = listen;
        broker = broker;
        drain_timeout = args.drain_timeout;
        mode = args.mode;
      })))))

  -- The arguments without the program's name.
  unfoldable pub parse_args : List String → Option (Config A)
  unfolding read_flags config_of
  parse_args arguments = and_then (read_flags arguments defaults) config_of
