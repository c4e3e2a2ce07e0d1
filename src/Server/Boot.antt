-- ===== src/Server/Boot.antt =====
-- The start of `run` in src/server.rs, up to the loop over signals: the listener, the channel to the
-- next generation, and in a child the adoption of the sessions that its parent hands over. What the
-- calls return are arguments.
pub mod Carried
use traffic_director.Migrate.Recv.{recv_sessions}
use traffic_director.Session.Freeze.{Session, adopt_session}
use traffic_director.Session.Conn.{Conn}
use traffic_director.Registry.{SessionSnapshot}
use traffic_director.Server.{ShedMode, migrate_mode}
use traffic_director.Codec.{CodecLib}
use traffic_director.Migrate.{Json, Datagram}
use traffic_director.Prelude.{ℕ, Bool, true, Option, some, List, [], ◌∷◌}
use traffic_director.Result.{Result, ok, err, panic, out_of_fuel, ◌>>=◌}

-- The two options of `set_timeouts` in src/migrate.rs.
pub data SockOpt : Type 0 where
  receive_timeout send_timeout : SockOpt

abbrev pub io_timeout_secs : ℕ
io_timeout_secs = 10

-- `setsockopt` of one socket, with the seconds of the option.
abbrev pub SetSockOpt : Type 0
SetSockOpt = SockOpt → ℕ → Result (Unit {0})

unfoldable pub set_timeouts : SetSockOpt → Result (Unit {0})
set_timeouts setsockopt = do
  received ← setsockopt receive_timeout io_timeout_secs
  sent ← setsockopt send_timeout io_timeout_secs
  ok tt

unfoldable pub parent_channel : SetSockOpt → Result (Unit {0})
unfolding set_timeouts
parent_channel setsockopt = set_timeouts setsockopt

unfoldable pub child_channel : SetSockOpt → Result (Unit {0})
unfolding set_timeouts
child_channel setsockopt = set_timeouts setsockopt

-- The inherited end of the channel: its options, and what arrives on it, with the results of the
-- acks.
pub record Inherited : Type 0 where
  pub options : SetSockOpt
  pub arriving : List (Result Datagram)
  pub acks : ℕ → Result (Unit {0})

-- What the calls return, in their order, and what ecdysis says of this process.
pub record Boot : Type 0 where
  pub listen_tcp : Result (Unit {0})
  pub set_nonblocking : Result (Unit {0})
  pub from_std : Result (Unit {0})
  pub to_child : Result (Unit {0})
  pub to_child_options : SetSockOpt
  pub is_child : Bool
  pub ready : Result (Unit {0})
  pub from_parent : Option Inherited
  pub on_usr2 : Result (Unit {0})
  pub on_term : Result (Unit {0})
  pub on_int : Result (Unit {0})

-- `set_nonblocking` and `from_std` of the client sockets, by descriptor.
pub record Sockets (C : Type 0) : Type 0 where
  pub nonblocking : ℕ → Result (Unit {0})
  pub stream : ℕ → Result (Conn C)

module _ {C : Type 0} (lib : CodecLib C) (sockets : Sockets C) where
  -- The tasks of `adopt_session`, one for each received session.
  abbrev pub adopt_each : List (SessionSnapshot × ℕ) → List (Result (Session C))
  adopt_each [] = []
  adopt_each ((snapshot, fd) ∷ sessions) =
      adopt_session lib (sockets.nonblocking fd) (sockets.stream fd) snapshot ∷ adopt_each sessions

  -- The match in the receiving task: on an error nothing is adopted.
  abbrev pub adopt_received : Result (List (SessionSnapshot × ℕ)) → List (Result (Session C))
  adopt_received (ok sessions) = adopt_each sessions
  adopt_received (err e) = []
  adopt_received panic = []
  adopt_received out_of_fuel = []

  module _ (json : Json) where
    -- The block of a child in migrate mode; the acceptor is there in every case.
    adopt_inherited : Bool → ShedMode → Option Inherited → Result (List (Result (Session C)))
    unfolding child_channel
    adopt_inherited true migrate_mode (some inherited) = do
      prepared ← child_channel inherited.options
      ok (adopt_received (recv_sessions json inherited.arriving inherited.acks))
    adopt_inherited _ _ _ = ok []

    -- The adopted sessions of a process that reaches its loop.
    unfoldable pub boot : ShedMode → Boot → Result (List (Result (Session C)))
    unfolding parent_channel adopt_inherited
    boot mode b = do
      std_listener ← b.listen_tcp
      nonblocking ← b.set_nonblocking
      listener ← b.from_std
      to_child ← b.to_child
      prepared ← parent_channel b.to_child_options
      ready ← b.ready
      adopted ← adopt_inherited b.is_child mode b.from_parent
      upgrade ← b.on_usr2
      term ← b.on_term
      int ← b.on_int
      ok adopted
