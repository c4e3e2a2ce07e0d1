-- ===== src/Migrate/Failure.antt =====
-- `send_sessions` and `recv_sessions` of src/migrate.rs when the handover breaks off.
use traffic_director.Migrate.Handover.{arrived, same_bytes-object}
use traffic_director.Migrate.Recv.{recv_each, recv_sessions}
use traffic_director.Migrate.Send.{send_each, send_session, send_sessions}
use traffic_director.Exec.{Exec, continue}
use traffic_director.Registry.{SessionSnapshot, FrozenSession}
use traffic_director.Migrate.{
  Json, IsJson, Datagram, Round, Handoff, recv_with_fd, emit, acked, recv_buffer, renumbered,
}
use traffic_director.Prelude.{
  Bytes, ℕ, ◌+◌, ◌≤◌, ◌≡◌, refl, Option, none, some, List, [], ◌∷◌, ◌++◌, arith, length, All, suc,
  take,
}
use traffic_director.Result.{
  IoError, Result, ok, err, panic, out_of_fuel, ◌>>=◌, ok_or, invalid_data,
}

abbrev pub Fails : {A : Type 0} → Result A → Type 0
Fails (ok a) = ⊥
Fails _ = Unit

-- `R` holds of the state if the action succeeded, and `Q` if it failed.
abbrev Either : {A : Type 0} → (Handoff → Type 0) → (Handoff → Type 0) → Result A × Handoff → Type 0
Either R Q (ok a, p) = R p
Either R Q (err e, p) = Q p
Either R Q (panic, p) = Q p
Either R Q (out_of_fuel, p) = Q p

Either-step :
    {A B : Type 0} (R Q : Handoff → Type 0) (r : Result A) (f : A → Exec Handoff B) (p : Handoff)
    → Q p
    → ((a : A) → r ≡ ok a → Either R Q (f a p))
    → Either R Q (continue r f p)
Either-step R Q (ok a) f p q h = h a refl
Either-step R Q (err e) f p q h = q
Either-step R Q panic f p q h = q
Either-step R Q out_of_fuel f p q h = q

Either-bind :
    {A B : Type 0} (P R Q : Handoff → Type 0) (r : Result A × Handoff) (f : A → Exec Handoff B)
    → Either P Q r
    → ((a : A) (p : Handoff) → P p → Either R Q (f a p))
    → Either R Q (continue r.0 f r.1)
Either-bind P R Q (ok a, p) f e h = h a p e
Either-bind P R Q (err x, p) f e h = e
Either-bind P R Q (panic, p) f e h = e
Either-bind P R Q (out_of_fuel, p) f e h = e

Either-failed :
    {A : Type 0} (R Q : Handoff → Type 0) (r : Result A × Handoff)
    → Fails r.0
    → Either R Q r
    → Q r.1
Either-failed R Q (ok a, p) f e = absurd f
Either-failed R Q (err x, p) f e = e
Either-failed R Q (panic, p) f e = e
Either-failed R Q (out_of_fuel, p) f e = e

Fails-bind :
    {A B : Type 0} (m : Result A) (f : A → Result B) → ((a : A) → Fails (f a)) → Fails (m >>= f)
Fails-bind (ok a) f h = h a
Fails-bind (err e) f h = tt
Fails-bind panic f h = tt
Fails-bind out_of_fuel f h = tt

-- Each datagram is the text of an object.
abbrev Objects : List Datagram → Type 0
Objects ds = All (λ d. (rest : Bytes) × (d.payload ≡ b'{' ∷ rest)) ds

-- What has left the sender: objects, one for each counted session, or one more.
abbrev Partial : Handoff → Type 0
Partial p = Objects p.out × (p.sent ≤ length p.out) × (length p.out ≤ p.sent + 1)

abbrev Even : Handoff → Type 0
Even p = Objects p.out × (length p.out ≡ p.sent)

Even-Partial : (p : Handoff) → Even p → Partial p
Even-Partial p (h, n) = (h, omega arith, omega arith)

Objects-append :
    (ds : List Datagram) (d : Datagram) (rest : Bytes)
    → d.payload ≡ b'{' ∷ rest
    → Objects ds
    → Objects (ds ++ d ∷ [])
Objects-append [] d rest e h = ((rest, e), tt)
Objects-append (c ∷ ds) d rest e h = (h.0, Objects-append ds d rest e h.1)

length-snoc : {A : Type 0} (xs : List A) (x : A) → length (xs ++ x ∷ []) ≡ length xs + 1
length-snoc [] x = refl
length-snoc (y ∷ xs) x = ground (arith, length-snoc xs x)

ok_or-some : {A : Type 0} (o : Option A) (e : IoError) (a : A) → ok_or o e ≡ ok a → o ≡ some a
ok_or-some none e a h = cc
ok_or-some (some b) e a h = cc

module _ (json : Json) (laws : IsJson json) where
  send_session-Partial :
      (s : FrozenSession) (round : Round) (p : Handoff)
      → Even p
      → Either Even Partial (send_session json s round p)
  unfolding send_session
  send_session-Partial s round p h =
      Either-step Even Partial (ok_or (json.to_vec s.snapshot) invalid_data) _ p (Even-Partial p h)
        (λ raw e. Either-step Even Partial round.delivered _ p (Even-Partial p h) (λ u f.
          let (rest, object) = laws.braced s.snapshot raw (ok_or-some _ invalid_data raw e) in
          let d : Datagram = record { payload = raw; fd = some s.client_fd } in
          let more : length (p.out ++ d ∷ []) ≡ length p.out + 1 = length-snoc p.out d in
          let p₁ : Handoff = emit d p in
          let h₁ : Objects p₁.out = Objects-append p.out d rest object h.0 in
          let q : Partial p₁ = (h₁, omega arith, omega arith) in
          Either-step Even Partial (recv_with_fd round.answer) _ p₁ q (λ answer g.
            Either-step Even Partial (acked answer.payload) _ p₁ q (λ good k. (h₁, omega arith)))))

  send_each-Partial :
      (frozen : List FrozenSession) (rounds : ℕ → Round) (finish : Result (Unit {0})) (i : ℕ)
      (p : Handoff)
      → Even p
      → Either (λ _. Unit {0}) Partial (send_each json frozen rounds finish i p)
  unfolding send_each
  send_each-Partial [] rounds finish i p h =
      Either-step (λ _. Unit) Partial finish _ p (Even-Partial p h) (λ a e. tt)
  send_each-Partial (s ∷ frozen) rounds finish i p h =
      Either-bind Even (λ _. Unit) Partial (send_session json s (rounds i) p) _
        (send_session-Partial s (rounds i) p h)
        (λ u p'. send_each-Partial frozen rounds finish (suc i) p')

  recv_each-Fails :
      (ds : List Datagram) (dup : ℕ → ℕ) (acks : ℕ → Result (Unit {0})) (i : ℕ)
      (sessions : List (SessionSnapshot × ℕ))
      → Objects ds
      → Fails (recv_each json (arrived dup ds) acks i sessions)
  unfolding recv_each recv_with_fd
  recv_each-Fails [] dup acks i sessions h = tt
  recv_each-Fails (d ∷ ds) dup acks i sessions h = rw (same_bytes-object d.payload h.0.0 h.0.1) (
      Fails-bind (ok_or (json.from_slice (take recv_buffer d.payload)) invalid_data) _ (λ snapshot.
        Fails-bind (ok_or (renumbered dup d).fd invalid_data) _
          (λ fd. Fails-bind (acks i) _ (λ u. recv_each-Fails ds dup acks (suc i) _ h.1))))

  -- A handover that the sender gives up, wherever it breaks off and whatever the acks were, is one
  -- that the receiver gives up as well: it returns no sessions, not even those it has acknowledged.
  -- The sender counts each acknowledged session, and at most one more has left it.
  pub send_sessions-Fails :
      (frozen : List FrozenSession) (rounds : ℕ → Round) (finish : Result (Unit {0})) (dup : ℕ → ℕ)
      (acks : ℕ → Result (Unit {0}))
      → Fails (send_sessions json frozen rounds finish).0
      → let (r, p) = send_sessions json frozen rounds finish in
        Fails (recv_sessions json (arrived dup p.out) acks)
        × (p.sent ≤ length p.out)
        × (length p.out ≤ p.sent + 1)
  unfolding send_sessions recv_sessions
  send_sessions-Fails frozen rounds finish dup acks f =
      let (r, p) = send_sessions json frozen rounds finish in
      let q : Partial p =
        Either-failed (λ _. Unit) Partial (send_sessions json frozen rounds finish) f
          (send_each-Partial frozen rounds finish 0 (record { sent = 0; out = [] }) (tt, refl)) in
      (recv_each-Fails p.out dup acks 0 [] q.0, q.1, q.2)
