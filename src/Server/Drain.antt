-- ===== src/Server/Drain.antt =====
-- `DrainTracker` of src/server.rs, with the interleavings of its waiter and the sessions that end.
use traffic_director.Prelude.{
  ℕ, suc, ◌+◌, ◌-◌, ◌%◌, ◌^◌, ◌≡◌, Bool, true, false, List, [], ◌∷◌, ◌==◌, if◌then◌else◌, ◌≤◌, ◌<◌,
  arith, inl, inr, ==_iff, Bool-cases, zero, refl, ap, ◌∙◌,
}

pub record DrainTracker : Type 0 where
  pub sessions : ℕ

abbrev pub no_sessions_tracked : DrainTracker
no_sessions_tracked = record { sessions = 0 }

unfoldable pub track_session : DrainTracker → DrainTracker
track_session t = record { sessions = (t.sessions + 1) % 2 ^ 64 }

-- The drop of a `SessionGuard`, and whether it calls `notify_waiters`.
unfoldable pub drop_guard : DrainTracker → DrainTracker × Bool
drop_guard t = (record { sessions = (t.sessions + 2 ^ 64 - 1) % 2 ^ 64 }, t.sessions == 1)

-- Where `wait_drained` stands: before the load, between a load that was not 0 and `notified`, in the
-- await, or at its end.
pub data Waiter : Type 0 where
  before_load before_notified in_await saw_none saw_timeout : Waiter

pub data WaitStep : Type 0 where
  waiter_moves guard_drops time_runs_out : WaitStep

abbrev woken : Bool → Waiter
woken true = before_load
woken false = in_await

unfoldable pub wait_step : WaitStep → Waiter → DrainTracker → Waiter × DrainTracker
wait_step waiter_moves before_load t = (if t.sessions == 0 then saw_none else before_notified, t)
wait_step waiter_moves before_notified t = (in_await, t)
wait_step waiter_moves w t = (w, t)
wait_step guard_drops in_await t = let (t', notifies) = drop_guard t in (woken notifies, t')
wait_step guard_drops w t = (w, (drop_guard t).0)
wait_step time_runs_out saw_none t = (saw_none, t)
wait_step time_runs_out w t = (saw_timeout, t)

unfoldable pub wait_drained : List WaitStep → Waiter → DrainTracker → Waiter × DrainTracker
unfolding wait_step drop_guard
wait_drained [] w t = (w, t)
wait_drained (s ∷ steps) w t = let (w', t') = wait_step s w t in wait_drained steps w' t'

-- The sessions that end.
abbrev pub drops : List WaitStep → ℕ
drops [] = 0
drops (guard_drops ∷ steps) = suc (drops steps)
drops (_ ∷ steps) = drops steps

-- What the waiter has seen.
abbrev pub Seen : Waiter → ℕ → Type 0
Seen saw_none n = n ≡ 0
Seen _ n = Unit

drop_lem : (n : ℕ) → n < 2 ^ 64 → 1 ≤ n → (n + 2 ^ 64 - 1) % 2 ^ 64 ≡ n - 1
drop_lem n h g = omega arith

step-Seen :
    (s : WaitStep) (w : Waiter) (t : DrainTracker)
    → t.sessions < 2 ^ 64
    → drops (s ∷ []) ≤ t.sessions
    → Seen w t.sessions
    → let (w', t') = wait_step s w t in
      (t'.sessions ≡ t.sessions - drops (s ∷ [])) × Seen w' t'.sessions
unfolding wait_step drop_guard
step-Seen waiter_moves before_load t h d e = elim (Bool-cases (t.sessions == 0)) [
  | inl none_left ↦
      (let zero_left : t.sessions ≡ 0 = ground (arith, ==_iff t.sessions 0) in
        rw none_left (omega arith, zero_left))
  | inr some_left ↦ rw some_left (omega arith, tt)
]
step-Seen waiter_moves before_notified t h d e = (omega arith, tt)
step-Seen waiter_moves in_await t h d e = (omega arith, tt)
step-Seen waiter_moves saw_none t h d e = (omega arith, e)
step-Seen waiter_moves saw_timeout t h d e = (omega arith, tt)
step-Seen guard_drops before_load t h d e = (drop_lem t.sessions h d, tt)
step-Seen guard_drops before_notified t h d e = (drop_lem t.sessions h d, tt)
step-Seen guard_drops in_await t h d e = elim (Bool-cases (t.sessions == 1)) [
  | inl last ↦ rw last (drop_lem t.sessions h d, tt)
  | inr more ↦ rw more (drop_lem t.sessions h d, tt)
]
step-Seen guard_drops saw_none t h d e = absurd (omega arith)
step-Seen guard_drops saw_timeout t h d e = (drop_lem t.sessions h d, tt)
step-Seen time_runs_out before_load t h d e = (omega arith, tt)
step-Seen time_runs_out before_notified t h d e = (omega arith, tt)
step-Seen time_runs_out in_await t h d e = (omega arith, tt)
step-Seen time_runs_out saw_none t h d e = (omega arith, e)
step-Seen time_runs_out saw_timeout t h d e = (omega arith, tt)

drops_split :
    (s : WaitStep) (steps : List WaitStep) → drops (s ∷ steps) ≡ drops (s ∷ []) + drops steps
drops_split waiter_moves steps = omega arith
drops_split guard_drops steps = omega arith
drops_split time_runs_out steps = omega arith

-- While the waiter waits, sessions end and the time may run out, in any order, no more sessions ending than are
-- tracked: each is counted once, and `wait_drained` returns true only when all of them have ended.
pub wait_drained-Seen :
    (steps : List WaitStep) (w : Waiter) (t : DrainTracker)
    → t.sessions < 2 ^ 64
    → drops steps ≤ t.sessions
    → Seen w t.sessions
    → let (w', t') = wait_drained steps w t in
      (t'.sessions ≡ t.sessions - drops steps) × Seen w' t'.sessions
unfolding wait_drained
wait_drained-Seen [] w t h d e = (omega arith, e)
wait_drained-Seen (s ∷ steps) w t h d e =
    let split : drops (s ∷ steps) ≡ drops (s ∷ []) + drops steps = drops_split s steps in
    let (w', t') = wait_step s w t in
    let (n, seen) = step-Seen s w t h (omega arith) e in
    let (rest, last) = wait_drained-Seen steps w' t' (omega arith) (omega arith) seen in
    (omega arith, last)

-- `n` sessions that end, and `k` turns of the waiter.
abbrev pub all_end : ℕ → ℕ → List WaitStep
all_end zero zero = []
all_end zero (suc k) = waiter_moves ∷ all_end zero k
all_end (suc n) k = guard_drops ∷ all_end n k

abbrev tracks : ℕ → DrainTracker
tracks n = record { sessions = n }

one_less : (n : ℕ) → n + 1 < 2 ^ 64 → (suc n + 2 ^ 64 - 1) % 2 ^ 64 ≡ n
one_less n h = omega arith

-- A session that ends and is not the last.
one_of_many :
    (w : Waiter) (n : ℕ)
    → suc n + 1 < 2 ^ 64
    → wait_step guard_drops w (tracks (suc (suc n))) ≡ (w, tracks (suc n))
unfolding wait_step drop_guard
one_of_many before_load n h = rw (one_less (suc n) h) refl
one_of_many before_notified n h = rw (one_less (suc n) h) refl
one_of_many in_await n h =
    let more : (suc (suc n) == 1) ≡ false = ground arith in rw (more, one_less (suc n) h) refl
one_of_many saw_none n h = rw (one_less (suc n) h) refl
one_of_many saw_timeout n h = rw (one_less (suc n) h) refl

idle : (k : ℕ) → wait_drained (all_end 0 k) in_await (tracks 0) ≡ (in_await, tracks 0)
unfolding wait_drained wait_step
idle zero = refl
idle (suc k) = idle k

-- Let the last `n + 1` sessions end. If the waiter awaits by then, its next turn finds that none is
-- left. If it has loaded the count, and has not called `notified` yet, the notification is
-- lost: no number of turns ends its wait, although no session is left.
pub wait_drained-wakes :
    (n k : ℕ)
    → n + 1 < 2 ^ 64
    → (wait_drained (all_end (suc n) 1) in_await (tracks (suc n)) ≡ (saw_none, tracks 0))
      × (wait_drained (all_end (suc n) (suc k)) before_notified (tracks (suc n))
          ≡ (in_await, tracks 0))
unfolding wait_drained drop_guard
wait_drained-wakes zero k h = (refl, idle k)
wait_drained-wakes (suc n) k h =
    let (wakes, lost) = wait_drained-wakes n k (omega arith) in
    (
      ap (λ r. wait_drained (all_end (suc n) 1) r.0 r.1) (one_of_many in_await n h) ∙ wakes,
      ap (λ r. wait_drained (all_end (suc n) (suc k)) r.0 r.1) (one_of_many before_notified n h)
          ∙ lost,
    )
