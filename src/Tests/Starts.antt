-- ===== src/Tests/Starts.antt =====
-- Tests of the starts: of a session (src/session/forward.rs), of the proxy (src/main.rs) and of
-- td-init (src/bin/td-init.rs).
use traffic_director.Init.Main.{
  fork_child, fork_failed, fork_parent, Calls, exits, becomes, waits, main, dashes, main_lem,
}
use traffic_director.Session.Keepalive.{from_secs}
use traffic_director.Session.Outage.Buffer.{empty_buffer-IsBuffer}
use traffic_director.Session.Loop.Sessions.{run_session-forward_loop, adopt_session-forward_loop}
use traffic_director.Window.Invariant.{new-IsValid}
use traffic_director.Session.Outage.{empty_buffer}
use traffic_director.Session.Handshake.{from_snapshot_version, handshake, version_byte}
use traffic_director.Session.Loop.{begin, forward_loop}
use traffic_director.Tests.Toy.{toy, toy_headers}
use traffic_director.Session.Start.{run_session, acknowledged}
use traffic_director.Window.{new}
use traffic_director.Cli.Flags.{
  Setting, listens_on, drains_for, sheds_by, last_listen, last_broker, words, last_timeout,
  last_mode, parse_args-words,
}
use traffic_director.Exec.Post.{Post}
use traffic_director.Session.Loop.Invariant.{IsLive, Lives}
use traffic_director.Session.Connected.{Loop}
use traffic_director.Session.Freeze.{Session, adopt_session, session_snapshot}
use traffic_director.Session.Conn.{Next, next_packet, write_all, write_with, send, send_encoded}
use traffic_director.Cli.{Parsers, parse_args}
use traffic_director.Server.{drain_mode, migrate_mode}
use traffic_director.Init.{WaitResult, exited, no_descendant, interrupted, wait_failed}
use traffic_director.Codec.{mqtt3, PacketV3, v3, version_packet}
use traffic_director.Prelude.{
  ℕ, String, ◌≡◌, refl, none, some, List, [], ◌∷◌, ◌++◌, arith, str_eq, if◌then◌else◌, Bytes, true,
  drop,
}
use traffic_director.Result.{ok}
use traffic_director.Tests.Replays.{connack, connect_raw}
use traffic_director.Tests.Forwards.{conn}
use traffic_director.Tests.Loops.{events}

abbrev first : Next (Unit {0})
first = next_packet (version_packet mqtt3) tt []

abbrev second : Next (Unit {0})
second =
    next_packet (v3 (PacketV3.connect (record { keep_alive = 12; rest = drop 2 connect_raw }))) tt
      []

abbrev pub started : Session (Unit {0})
started = record {
  client = record conn { sent = (32 ∷ []) ∷ []; room = 7 };
  broker = some (record conn { sent = connect_raw ∷ []; room = 7 });
  hs = record { version = mqtt3; connect_raw = connect_raw; keep_alive = 30 };
  windows = new;
  subscriptions = [];
  buffer = empty_buffer;
  broker_leftover = [];
}

start_run : run_session toy conn first second (ok conn) connack ≡ ok started
unfolding run_session handshake write_all write_with send send_encoded acknowledged
start_run = refl

run_session-forward_loop_example :
    Post (Lives toy mqtt3) (forward_loop toy 1 9 events (begin started 0))
run_session-forward_loop_example =
    run_session-forward_loop toy toy_headers 1 9 0 conn first second (ok conn) connack started
      events start_run (tt, (tt, (tt, (tt, (tt, (tt, tt))))))

abbrev known : Loop (Unit {0})
known = begin started 0

known-IsLive : IsLive toy mqtt3 known
known-IsLive = record {
  speaks = refl;
  windows_ok = new-IsValid;
  buffer_ok = empty_buffer-IsBuffer;
  table_ok = record { distinct = tt; options = tt };
}

pub restored_run :
    from_snapshot_version toy (version_byte started.hs) started.hs.connect_raw
    ≡ ok (record started.hs { keep_alive = 12 })
unfolding from_snapshot_version version_byte
restored_run = refl

adopt_session-forward_loop_example :
    (s : Session (Unit {0})) × (adopt_session toy
        (ok tt)
        (ok conn)
        (session_snapshot started.client started.broker started.hs new [] empty_buffer)
      ≡ ok s)
    × Post (Lives toy mqtt3) (forward_loop toy 2 10 events (begin s 5))
adopt_session-forward_loop_example =
    adopt_session-forward_loop toy toy_headers 2 10 5 mqtt3 known started.broker conn 12 events
      known-IsLive restored_run (tt, (tt, (tt, (tt, (tt, (tt, tt))))))

abbrev numbers : Parsers ℕ
numbers = record {
  address = λ s. if str_eq s "[::1]:1883" then some 1 else none;
  seconds = λ s. if str_eq s "5" then some 5 else none;
}

abbrev line : List Setting
line = sheds_by migrate_mode ∷ listens_on "x" ∷ drains_for "5" 5 ∷ listens_on "[::1]:1883" ∷ []

parse_args-words_example :
    ((l b : String) (listen broker : ℕ)
      → last_listen line none ≡ some l
      → last_broker line none ≡ some b
      → numbers.address l ≡ some listen
      → numbers.address b ≡ some broker
      → parse_args numbers (words line)
        ≡ some (record {
          listen = listen;
          broker = broker;
          drain_timeout = last_timeout line (from_secs 60);
          mode = last_mode line drain_mode;
        }))
    × (last_listen line none ≡ none → parse_args numbers (words line) ≡ none)
    × (last_broker line none ≡ none → parse_args numbers (words line) ≡ none)
parse_args-words_example = parse_args-words numbers line (tt, (tt, (refl, (tt, tt))))

abbrev turns : List (List ℕ × WaitResult)
turns =
    ([], exited 9 4) ∷ (12 ∷ 15 ∷ [], interrupted) ∷ ([], exited 7 3) ∷ (12 ∷ [], exited 8 5) ∷ []

abbrev program : List Bytes
program = (b'/' ∷ b't' ∷ []) ∷ (b'-' ∷ b'x' ∷ []) ∷ []

abbrev works : Calls
works = record {
  fork = fork_failed;
  setsid = true;
  execv = true;
  prctl = true;
  sigaction = λ sig. true;
}

main_lem_example :
    (main (dashes ∷ program) works turns ≡ main program works turns)
    × (main program (record works { fork = fork_child }) turns
        ≡ ((if true then becomes program else exits 127), []))
    × (main program (record works { fork = fork_parent 7 }) turns ≡ (waits, 15 ∷ 12 ∷ []))
    × (main program (record works { fork = fork_parent 7 }) (turns ++ ([], no_descendant) ∷ [])
        ≡ (exits 3, 15 ∷ 12 ∷ []))
    × (main program (record works { fork = fork_parent 7 }) (turns ++ ([], wait_failed) ∷ [])
        ≡ (exits 1, 15 ∷ 12 ∷ []))
    × (main program (record works { fork = fork_failed }) turns ≡ (exits 1, []))
    × (main [] works turns ≡ (exits 2, []))
    × (main (dashes ∷ []) works turns ≡ (exits 2, []))
main_lem_example =
    main_lem (b'/' ∷ b't' ∷ []) ((b'-' ∷ b'x' ∷ []) ∷ []) 7 turns [] works refl refl refl
      (λ sig. refl)
      (
        ((λ e. e), tt),
        (
          ((λ e. e), (omega arith, (omega arith, tt))),
          (((λ e. e), tt), (((λ e. e), (omega arith, tt)), tt)),
        ),
      )
