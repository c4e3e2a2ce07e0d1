-- ===== src/Tests/Handovers.antt =====
-- Tests of src/migrate.rs and src/server.rs: two sessions on their way to a new process.
use traffic_director.Server.Accounts.{Settles, migrate-Settles}
use traffic_director.Server.Tasks.{
  TaskStep, task_accept, task_adopt, accepted_ends, serve_all, task_step, no_tasks, on_accept,
  serve_all-tracked, adopt_all, end_accepted,
}
use traffic_director.Migrate.Handover.{arrived, owned, recv_sessions-send_sessions}
use traffic_director.Server.Ownership.{migrate-exclusive}
use traffic_director.Migrate.Recv.{recv_sessions, recv_each}
use traffic_director.Migrate.Send.{send_sessions, send_each, send_session}
use traffic_director.Migrate.Failure.{Fails, send_sessions-Fails}
use traffic_director.Exec.Post.{Post}
use traffic_director.Server.Lifecycle.{Lifecycle, run-Lifecycle}
use traffic_director.Server.Drain.{
  before_notified, in_await, saw_none, wait_drained, all_end, wait_drained-wakes, before_load,
  waiter_moves, guard_drops,
}
use traffic_director.Registry.{
  SubscriptionEntry, BufferedPublish, SessionSnapshot, FrozenSession, freeze_all, freeze_each,
  add_reply, FreezeBatch,
}
use traffic_director.Window.{WindowEntry}
use traffic_director.Migrate.{Json, IsJson, Round, Handoff, ack_byte, recv_with_fd}
use traffic_director.Prelude.{
  Bytes, ℕ, zero, suc, ◌+◌, ◌≤◌, ◌≡◌, refl, sym, ap, true, false, Option, none, some, List, [], ◌∷◌,
  arith, length, drop, take,
}
use traffic_director.Result.{transport, Result, ok, err, IoError}
use traffic_director.Tests.Registries.{frozen_one, frozen_two, answers, answers-Honest}
use traffic_director.Server.{
  run, migrate_mode, upgrade_done, upgrade_failed, Shed, sig_upgrade, sig_term, Server, returns,
  migrate, upgraded, handed, stays, breaks,
}

abbrev text :
    Bytes
    → Bytes
    → List WindowEntry
    → List SubscriptionEntry
    → List BufferedPublish
    → ℕ
    → Bytes
    → Option Bytes
text [] [] [] [] [] version connect_raw = some (b'{' ∷ version ∷ connect_raw)
text _ _ _ _ _ version connect_raw = none

abbrev parsed : Bytes → Option SessionSnapshot
parsed (b ∷ version ∷ connect_raw) = some (record {
  version = version;
  connect_raw = connect_raw;
  client_buf = [];
  broker_buf = [];
  windows = [];
  subscriptions = [];
  buffered = [];
})
parsed _ = none

-- It writes the snapshots in which only the CONNECT is kept.
abbrev pub small_json : Json
small_json = record {
  to_vec = λ s.
      text s.client_buf s.broker_buf s.windows s.subscriptions s.buffered s.version s.connect_raw;
  from_slice = parsed;
}

text_lem :
    (cb bb : Bytes) (w : List WindowEntry) (t : List SubscriptionEntry) (d : List BufferedPublish)
    (v : ℕ) (c raw : Bytes)
    → text cb bb w t d v c ≡ some raw
    → (parsed raw
        ≡ some (record {
          version = v;
          connect_raw = c;
          client_buf = cb;
          broker_buf = bb;
          windows = w;
          subscriptions = t;
          buffered = d;
        }))
      × (rest : Bytes) × (raw ≡ b'{' ∷ rest)
text_lem [] [] [] [] [] v c raw e =
    let same : b'{' ∷ v ∷ c ≡ raw = cc in (ap parsed (sym same), v ∷ c, sym same)
text_lem [] [] [] [] (x ∷ d) v c raw e = cc
text_lem [] [] [] (x ∷ t) d v c raw e = cc
text_lem [] [] (x ∷ w) t d v c raw e = cc
text_lem [] (x ∷ bb) w t d v c raw e = cc
text_lem (x ∷ cb) bb w t d v c raw e = cc

pub small_json-IsJson : IsJson small_json
small_json-IsJson = record {
  back = λ s raw e.
      (text_lem s.client_buf s.broker_buf s.windows s.subscriptions s.buffered s.version
        s.connect_raw raw e).0;
  braced = λ s raw e.
      let (_, rest, object) =
        text_lem s.client_buf s.broker_buf s.windows s.subscriptions s.buffered s.version
          s.connect_raw raw e in
      (rest, object);
}

abbrev two : List FrozenSession
two = frozen_one ∷ frozen_two ∷ []

abbrev pub good_rounds : ℕ → Round
good_rounds i = record { delivered = ok tt; answer = ok (record { payload = ack_byte; fd = none }) }

abbrev bad_rounds : ℕ → Round
bad_rounds zero = good_rounds zero
bad_rounds (suc i) = record { delivered = ok tt; answer = err transport }

abbrev dup : ℕ → ℕ
dup n = n + 100

abbrev all_sent : ℕ → Result (Unit {0})
all_sent i = ok tt

recv_sessions-send_sessions_example :
    (p : Handoff) × (send_sessions small_json two good_rounds (ok tt) ≡ (ok tt, p))
    × (p.sent ≡ length two)
    × (recv_sessions small_json (arrived dup p.out) all_sent ≡ ok (owned dup two))
recv_sessions-send_sessions_example =
    recv_sessions-send_sessions small_json small_json-IsJson two
      ((b'{' ∷ 4 ∷ []) ∷ (b'{' ∷ 4 ∷ 16 ∷ []) ∷ []) good_rounds dup all_sent
      (refl, omega arith, (refl, omega arith, tt))
      (λ i. (refl, record { payload = ack_byte; fd = none }, refl, refl)) (λ i. refl)

bad_run : Fails (send_sessions small_json two bad_rounds (ok tt)).0
unfolding send_sessions send_each send_session recv_with_fd
bad_run = tt

send_sessions-Fails_example :
    let (r, p) = send_sessions small_json two bad_rounds (ok tt) in
    Fails (recv_sessions small_json (arrived dup p.out) all_sent)
    × (p.sent ≤ length p.out)
    × (length p.out ≤ p.sent + 1)
send_sessions-Fails_example =
    send_sessions-Fails small_json small_json-IsJson two bad_rounds (ok tt) dup all_sent bad_run

abbrev serving : Server
serving = record { accepting = true; has_quit = false; to_child = []; thawed = []; closed = [] }

abbrev good_shed : Shed
good_shed = record {
  ids = 0 ∷ 1 ∷ 2 ∷ [];
  replies = answers;
  upgrade = upgrade_done;
  rounds = good_rounds;
  finish_send = ok tt;
}

received :
    recv_sessions small_json
      (arrived dup (migrate small_json good_shed serving).1.to_child)
      all_sent
    ≡ ok (owned dup two)
unfolding migrate upgraded handed send_sessions send_each send_session recv_with_fd recv_sessions
    recv_each freeze_all freeze_each add_reply
received = refl

migrate-exclusive_example :
    ((migrate small_json good_shed serving).0 ≡ ok returns)
    × ((migrate small_json good_shed serving).1.thawed ≡ [])
migrate-exclusive_example =
    migrate-exclusive small_json small_json-IsJson good_shed serving dup all_sent (owned dup two)
      refl received

run-Lifecycle_example : Post Lifecycle (
    run small_json migrate_mode
      (sig_upgrade (record good_shed { upgrade = upgrade_failed }) ∷ sig_term ∷ [])
      serving)
run-Lifecycle_example =
    run-Lifecycle small_json migrate_mode
      (sig_upgrade (record good_shed { upgrade = upgrade_failed }) ∷ sig_term ∷ []) serving
      (refl, refl)

wait_drained-wakes_example :
    (wait_drained (all_end 3 1) in_await (record { sessions = 3 })
      ≡ (saw_none, record { sessions = 0 }))
    × (wait_drained (all_end 3 4) before_notified (record { sessions = 3 })
        ≡ (in_await, record { sessions = 0 }))
wait_drained-wakes_example = wait_drained-wakes 2 3 (omega arith)

abbrev bad_shed : Shed
bad_shed = record good_shed { rounds = bad_rounds }

migrate-Settles_example :
    let batch : FreezeBatch = freeze_all (0 ∷ 1 ∷ 2 ∷ []) answers in
    let (r, s') = migrate small_json bad_shed serving in
    let (sending, p) = send_sessions small_json batch.frozen bad_rounds (ok tt) in
    (upgrade_done ≡ upgrade_failed → (r ≡ ok stays) × Settles serving s' batch.frozen [])
    × ((e : IoError)
        → upgrade_done ≡ upgrade_done
        → sending ≡ err e
        → (r ≡ ok breaks)
          × Settles serving s' (drop p.sent batch.frozen) (take p.sent batch.frozen)
          × ((dup : ℕ → ℕ) (acks : ℕ → Result (Unit {0}))
              → Fails (recv_sessions small_json (arrived dup s'.to_child) acks)))
migrate-Settles_example =
    migrate-Settles small_json small_json-IsJson bad_shed serving (refl, (refl, (refl, tt)))
      answers-Honest refl

abbrev day : List TaskStep
day =
    task_adopt (ok (owned dup two))
    ∷ task_accept (ok tt)
    ∷ task_accept (err transport)
    ∷ task_accept (ok tt)
    ∷ accepted_ends
    ∷ []

day_run : (serve_all day no_tasks).accepted ≡ 1
unfolding serve_all task_step on_accept adopt_all end_accepted
day_run = refl

one_ends : 1 ≤ (serve_all day no_tasks).accepted
one_ends = omega (arith, day_run)

serve_all-tracked_example :
    ((serve_all day no_tasks).tracker.sessions ≡ (serve_all day no_tasks).accepted)
    × ((wait_drained
            (waiter_moves ∷ waiter_moves ∷ guard_drops ∷ waiter_moves ∷ [])
            before_load
            (serve_all day no_tasks).tracker).0
          ≡ saw_none
        → 1 ≡ (serve_all day no_tasks).accepted)
serve_all-tracked_example =
    serve_all-tracked day (waiter_moves ∷ waiter_moves ∷ guard_drops ∷ waiter_moves ∷ [])
      (omega arith) one_ends
