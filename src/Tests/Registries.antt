-- ===== src/Tests/Registries.antt =====
-- Tests of src/registry.rs: three sessions, of which one does not answer the freeze.
use traffic_director.Registry.Rollback.{
  Honest, replied, returned, ids_of, resume_skipping-freeze_all,
}
use traffic_director.Registry.Ids.{
  registers, unregisters, IsRegistry, changes, holds, changes-IsRegistry,
}
use traffic_director.Registry.{
  SessionSnapshot, FrozenSession, SessionRegistry, Reply, timed_out, froze, FreezeBatch, freeze_all,
  resume_skipping, register, has, session_ended,
}
use traffic_director.Prelude.{
  ℕ, ◌≤◌, ◌≡◌, refl, false, [], ◌∷◌, arith, drop, take, zero, suc, sym, ap,
}

abbrev pub blank : SessionSnapshot
blank = record {
  version = 4;
  connect_raw = [];
  client_buf = [];
  broker_buf = [];
  windows = [];
  subscriptions = [];
  buffered = [];
}

abbrev pub frozen_one : FrozenSession
frozen_one = record { id = 0; snapshot = blank; client_fd = 11 }

abbrev pub frozen_two : FrozenSession
frozen_two = record { id = 2; snapshot = record blank { connect_raw = 16 ∷ [] }; client_fd = 14 }

abbrev pub answers : ℕ → Reply
answers zero = froze frozen_one
answers (suc zero) = timed_out
answers (suc (suc zero)) = froze frozen_two
answers _ = session_ended

pub answers-Honest : Honest answers
answers-Honest zero s e = let same : frozen_one ≡ s = cc in ap (λ t. t.id) (sym same)
answers-Honest (suc zero) s e = cc
answers-Honest (suc (suc zero)) s e = let same : frozen_two ≡ s = cc in ap (λ t. t.id) (sym same)
answers-Honest (suc (suc (suc n))) s e = cc

resume_skipping-freeze_all_example :
    let batch : FreezeBatch = freeze_all (0 ∷ 1 ∷ 2 ∷ []) answers in
    (batch.frozen ≡ replied (0 ∷ 1 ∷ 2 ∷ []) answers)
    × ((resume_skipping batch 1).0 ≡ returned (drop 1 batch.frozen))
    × ((j : ℕ) → has (resume_skipping batch 1).1 j ≡ has (ids_of (take 1 batch.frozen)) j)
resume_skipping-freeze_all_example =
    resume_skipping-freeze_all (0 ∷ 1 ∷ 2 ∷ []) answers 1 (refl, (refl, (refl, tt))) answers-Honest

abbrev pub one_session : SessionRegistry ℕ
one_session = record { sessions = (2, 20) ∷ []; next_id = 3 }

one_session-IsRegistry : IsRegistry one_session
one_session-IsRegistry = record { once = (refl, tt); below = (omega arith, tt) }

changes-IsRegistry_example :
    IsRegistry (changes one_session (registers 30 ∷ unregisters 2 ∷ registers 40 ∷ []))
    × (3 ≤ (changes one_session (registers 30 ∷ unregisters 2 ∷ registers 40 ∷ [])).next_id)
    × ((tx : ℕ)
        → holds
            (changes one_session (registers 30 ∷ unregisters 2 ∷ registers 40 ∷ [])).sessions
            (register (changes one_session (registers 30 ∷ unregisters 2 ∷ registers 40 ∷ [])) tx).0
          ≡ false)
changes-IsRegistry_example =
    changes-IsRegistry one_session (registers 30 ∷ unregisters 2 ∷ registers 40 ∷ []) (omega arith)
      one_session-IsRegistry
