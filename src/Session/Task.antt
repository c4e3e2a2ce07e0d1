-- ===== src/Session/Task.antt =====
-- The task of a session in src/session/forward.rs from its registration on: `run_session` and
-- `adopt_session` register it, run the loop, and the drop of the `Registration` of
-- src/session/mod.rs takes it out again. Meanwhile other tasks change the registry.
use traffic_director.Session.Connected.{Flow, continues}
use traffic_director.Session.Freeze.{Session}
use traffic_director.Session.Loop.{Event, forward_loop, begin}
use traffic_director.Registry.{SessionRegistry, unregister, register, erase, insert}
use traffic_director.Codec.{CodecLib}
use traffic_director.Prelude.{
  ℕ, ◌≡◌, refl, ◌∙◌, ◌≢◌, Bool, true, false, List, [], ◌∷◌, arith, All, not,
}
use traffic_director.Result.{IoError, Result, ok, err, panic, out_of_fuel}
use traffic_director.Registry.Ids.{
  Change, registers, unregisters, change, changes, holds, holds-erase,
}

-- A loop that has not returned waits for its next event.
unfoldable pub has_returned : Result Flow → Bool
has_returned (ok continues) = false
has_returned _ = true

-- The drop of a `Registration`, when its task ends for any reason, a panic included.
unfoldable pub drop_registration : {T : Type 0} → ℕ → Bool → SessionRegistry T → SessionRegistry T
drop_registration id true r = unregister r id
drop_registration id false r = r

module _ {C T : Type 0} (lib : CodecLib C) (fd now : ℕ) where
  -- The session is registered with the sending end `tx`, then it and the other tasks take turns.
  abbrev registered :
      Session C
      → ℕ × SessionRegistry T
      → List (Event C)
      → List (Change T)
      → Result Flow × SessionRegistry T
  registered s (id, r) events others =
      let (outcome, l) = forward_loop lib id fd events (begin s now) in
      (outcome, drop_registration id (has_returned outcome) (changes r others))

  -- `start` is what `run_session` or `adopt_session` has before the registration.
  unfoldable pub session_task :
      Result (Session C)
      → T
      → List (Event C)
      → List (Change T)
      → SessionRegistry T
      → Result Flow × SessionRegistry T
  unfolding drop_registration has_returned
  session_task (ok s) tx events others r = registered s (register r tx) events others
  session_task (err e) tx events others r = (err e, changes r others)
  session_task panic tx events others r = (panic, changes r others)
  session_task out_of_fuel tx events others r = (out_of_fuel, changes r others)

-- Another task, which drops its own registration only.
abbrev pub Spares : {T : Type 0} → ℕ → Change T → Type 0
Spares id (registers tx) = Unit
Spares id (unregisters i) = i ≢ id

module _ {T : Type 0} where
  holds-erase_other : (m : List (ℕ × T)) (id j : ℕ) → id ≢ j → holds (erase m id) j ≡ holds m j
  holds-erase_other m id j n = ground (arith, holds-erase m id j)

  change-holds :
      (r : SessionRegistry T) (c : Change T) (id : ℕ)
      → Spares id c
      → holds r.sessions id ≡ true
      → holds (change r c).sessions id ≡ true
  unfolding change register unregister insert
  change-holds r (registers tx) id s h = ground (arith, holds-erase r.sessions r.next_id id)
  change-holds r (unregisters i) id s h = holds-erase_other r.sessions i id s ∙ h

  changes-holds :
      (r : SessionRegistry T) (cs : List (Change T)) (id : ℕ)
      → All (Spares id) cs
      → holds r.sessions id ≡ true
      → holds (changes r cs).sessions id ≡ true
  changes-holds r [] id s h = h
  changes-holds r (c ∷ cs) id s h = changes-holds (change r c) cs id s.1 (change-holds r c id s.0 h)

  register-holds :
      (r : SessionRegistry T) (tx : T) → holds (register r tx).1.sessions (register r tx).0 ≡ true
  unfolding register insert
  register-holds r tx = ground arith

  drop_registration-holds :
      (r : SessionRegistry T) (id : ℕ) (returned : Bool)
      → holds r.sessions id ≡ true
      → (holds (drop_registration id returned r).sessions id ≡ not returned)
        × ((j : ℕ)
            → id ≢ j
            → holds (drop_registration id returned r).sessions j ≡ holds r.sessions j)
  unfolding drop_registration unregister
  drop_registration-holds r id true h =
      (holds-erase r.sessions id id ∙ ground arith, λ j n. holds-erase_other r.sessions id j n)
  drop_registration-holds r id false h = (h, λ j n. refl)

  -- A started session is in the registry exactly as long as its loop has not returned: whatever
  -- happens in the loop and whatever the other tasks do meanwhile, as long as each drops its own
  -- registration only, and it leaves the entries of all other sessions alone. A session whose start
  -- fails never enters the registry.
  pub session_task-holds :
      {C : Type 0} (lib : CodecLib C) (fd now : ℕ) (s : Session C) (tx : T)
      (events : List (Event C)) (others : List (Change T)) (r : SessionRegistry T)
      → All (Spares (register r tx).0) others
      → let id : ℕ = (register r tx).0 in
        let (outcome, r') : Result Flow × SessionRegistry T =
          session_task lib fd now (ok s) tx events others r in
        (outcome ≡ (forward_loop lib id fd events (begin s now)).0)
        × (holds r'.sessions id ≡ not (has_returned outcome))
        × ((j : ℕ)
            → id ≢ j
            → holds r'.sessions j ≡ holds (changes (register r tx).1 others).sessions j)
        × ((e : IoError)
            → session_task lib fd now (err e) tx events others r ≡ (err e, changes r others))
  unfolding session_task
  session_task-holds lib fd now s tx events others r spared =
      let (here, there) =
        drop_registration-holds (changes (register r tx).1 others) (register r tx).0
          (has_returned (forward_loop lib (register r tx).0 fd events (begin s now)).0)
          (changes-holds (register r tx).1 others (register r tx).0 spared (register-holds r tx)) in
      (refl, here, there, λ e. refl)
