-- ===== src/Session/Backoff.antt =====
-- The retries of the outage phase in `forward_loop` of src/session/forward.rs.
use traffic_director.Session.Keepalive.{from_millis, from_secs}
use native.Mathlib.Omega.{pow_step}
use traffic_director.Session.Outage.{broker_retry_initial, broker_retry_max}
use traffic_director.Session.Freeze.{OutageStep, connect_step, backoff_step}
use traffic_director.Prelude.{ℕ, zero, suc, ◌*◌, ◌^◌, ◌≡◌, refl, min, ap, arith}

-- The `None` arm of the awaited result: a connect attempt failed, or a backoff sleep ended.
unfoldable pub on_no_stream : OutageStep → ℕ → OutageStep × ℕ
on_no_stream connect_step delay = (backoff_step delay, min (delay * 2) broker_retry_max)
on_no_stream (backoff_step d) delay = (connect_step, delay)

-- The step and the next delay after `n` failed attempts, each slept off, and a connect before.
abbrev pub after_failures : ℕ → OutageStep × ℕ
after_failures zero = (connect_step, broker_retry_initial)
after_failures (suc n) =
    let (step, delay) = after_failures n in
    let (slept, delay') = on_no_stream step delay in on_no_stream slept delay'

doubled :
    (x : ℕ)
    → min (min (broker_retry_initial * x) broker_retry_max * 2) broker_retry_max
      ≡ min (broker_retry_initial * (2 * x)) broker_retry_max
doubled x = omega arith

after_failures_lem :
    (n : ℕ) → after_failures n ≡ (connect_step, min (broker_retry_initial * 2 ^ n) broker_retry_max)
unfolding on_no_stream
after_failures_lem zero = refl
after_failures_lem (suc n) =
    rw (after_failures_lem n) (rw (pow_step 2 n) (ap (λ d. (connect_step, d)) (doubled (2 ^ n))))

-- After `n` failed connect attempts in an outage, each followed by its sleep, the loop connects
-- again, and if that attempt fails too it sleeps 100 ms times two to the `n`, but never more than
-- 5 s.
pub on_no_stream-after_failures :
    (n : ℕ)
    → ((after_failures n).0 ≡ connect_step)
      × ((on_no_stream (after_failures n).0 (after_failures n).1).0
          ≡ backoff_step (min (from_millis 100 * 2 ^ n) (from_secs 5)))
unfolding on_no_stream
on_no_stream-after_failures n = rw (after_failures_lem n) (refl, refl)
