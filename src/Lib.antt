-- ===== src/Lib.antt =====
-- Verification of traffic-director, an MQTT proxy that keeps its clients connected while the
-- broker behind it restarts or while the proxy itself is replaced.
--
-- The program's parts and their models. A session (src/session/) reads a client's CONNECT, opens
-- a connection of its own to the broker and forwards packets both ways. It keeps four pieces of
-- state: the in-flight windows (src/window.rs), the subscription table, the outage buffer and the
-- CONNECT. When the broker goes away the client is serviced from the outage buffer; when a broker
-- connection is there again, `establish_broker` replays the state onto it. A snapshot of the same
-- state (src/registry.rs) is what a new process adopts.
--
-- - Window.antt, Window/Vec.antt: src/window.rs, one function for each of its functions. A window
--   is a list of identifiers with their state and raw packet in the order of insertion.
-- - Registry.antt: src/registry.rs. The map is a list of entries; what a session answers to a freeze,
--   and when, is an argument.
-- - Migrate.antt, Migrate/Send.antt, Migrate/Recv.antt: src/migrate.rs. A handover is the list of
--   datagrams that leave the sender; the results of the system calls are arguments.
-- - Server/Boot.antt: the start of `run` in src/server.rs, with the channels of src/migrate.rs, up to
--   the tasks that adopt a parent's sessions. Server.antt: the loop of `run` in src/server.rs, one step for each signal, with the migrate arm
--   composed of the registry's and the handover's functions. Server/Drain.antt: its `DrainTracker`,
--   with the steps of the waiter and the ends of sessions interleaved. Server/Tasks.antt: the tasks
--   that serve sessions, accepted and adopted ones.
-- - Cli.antt: `parse_args` of src/main.rs. Cli/Program.antt: its `main`. Proxy.antt: the accept
--   loops of src/lib.rs.
-- - Init.antt: the loop of the parent in src/bin/td-init.rs. Init/Main.antt: its `main`, with the
--   arguments, the fork and both processes, over what the system calls return.
-- - Session.antt: `codec_for` of src/session/mod.rs.
-- - Session/Conn.antt: a framed connection, as sessions use it: what has been sent, the codec, the
--   read buffer, and how many writes the transport still accepts.
-- - Session/Subscriptions.antt: src/session/subscriptions.rs. Session/Keepalive.antt:
--   src/session/keepalive.rs. Session/Handshake.antt: src/session/handshake.rs.
-- - Session/Outage.antt: src/session/outage.rs. Session/Replay.antt: `establish_broker` of
--   src/session/forward.rs, with `Link` for what it borrows mutably.
-- - Session/Freeze.antt: `handle_freeze` and `adopt_session` of src/session/forward.rs.
--   Session/Backoff.antt and Session/Connected.antt: of its `forward_loop`, the retries of the
--   outage phase and the packets of the connected phase. Session/Loop.antt: the whole `forward_loop`
--   as a run over events, each of which is what a `select!` picks. Session/Start.antt: `run_session`
--   up to the registration. Session/Task.antt: the registration, the loop and the drop of the
--   registration. Session/Kept.antt: what a property of the windows, the buffer and the
--   table must meet for each operation; a property that meets it holds throughout a run
--   (Session/Loop/Keeps.antt).
--
-- The child modules of each hold the proofs, named for what they prove. Codec.antt has the packet
-- types of the rmqtt_codec crate as far as the program looks at them; the codec is the record
-- `CodecLib`, a parameter of every definition that encodes or decodes, and the laws that a theorem
-- needs of it (MQTT's numbering, the type nibble of the fixed header, decoding what was encoded)
-- are named hypotheses. Tests/Toy.antt has instances of them.
--
-- Conventions. A function that can fail returns `Result` (Result.antt), where `panic` is an
-- `expect`, an index out of range or an `unreachable!`; code that changes state is an `Exec`
-- (Exec.antt), which returns the state also when it fails. Bytes and identifiers are natural
-- numbers, with `IsByte` where a bound matters. What a read from a connection yields is an
-- argument. `flush` on a connection has no effect in the model, since every write counts as sent.
-- The one loop on fuel is the delivery of leftover bytes in Session/Replay.antt: it has a turn more
-- than the buffer has bytes, which is enough if a frame takes a byte (Session/Replay/Leftover.antt).
-- Logging is left out.
--
-- Not modelled: how tokio's `select!` chooses (a turn of a loop is one event, and an arm that is not
-- picked leaves no trace); the calls of ecdysis, of the sockets and of the system beyond what they
-- return; the channels between a session and the registry beyond what they yield; `Proxy::freeze_all`
-- of src/lib.rs, which is the registry's; and the logging and the runtime that src/main.rs sets up.
pub mod Prelude
pub mod Proxy
pub mod Result
pub mod Exec
pub mod Codec
pub mod Window
pub mod Registry
pub mod Session
pub mod Migrate
pub mod Server
pub mod Cli
pub mod Init
mod Tests
