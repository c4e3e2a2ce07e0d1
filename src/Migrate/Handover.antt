-- ===== src/Migrate/Handover.antt =====
-- `send_sessions` and `recv_sessions` of src/migrate.rs, one after the other.
use traffic_director.Migrate.Recv.{recv_each, recv_sessions}
use traffic_director.Migrate.Send.{send_session, send_each, send_sessions}
use traffic_director.Registry.{SessionSnapshot, FrozenSession}
use traffic_director.Migrate.{
  Json, IsJson, Datagram, Round, Handoff, recv_buffer, ack_byte, end_marker, recv_with_fd,
  same_bytes, renumbered,
}
use traffic_director.Prelude.{
  Bytes, ℕ, suc, ◌+◌, ◌≤◌, ◌≡◌, refl, ◌∙◌, none, some, List, [], ◌∷◌, ◌++◌, length, zero, sym, ap,
  false, append-nil, append_assoc, arith, take,
}
use traffic_director.Result.{Result, ok}

module _ (json : Json) where
  -- Each session's snapshot as text, which fits the receiver's buffer.
  abbrev pub Payloads : List FrozenSession → List Bytes → Type 0
  Payloads [] [] = Unit
  Payloads (s ∷ frozen) (raw ∷ raws) =
      (json.to_vec s.snapshot ≡ some raw) × (length raw ≤ recv_buffer) × Payloads frozen raws
  Payloads _ _ = ⊥

-- Each send succeeds, and is answered with the ack.
abbrev pub Acked : (ℕ → Round) → Type 0
Acked rounds =
    (i : ℕ)
    → ((rounds i).delivered ≡ ok tt)
      × (d : Datagram) × ((rounds i).answer ≡ ok d)
      × (d.payload ≡ ack_byte)

-- The list of what was sent, regrouped.
sent_more :
    (p : Handoff) (d : Datagram) (n : ℕ) (ds : List Datagram)
    → ◌≡◌ {A = Result (Unit {0}) × Handoff}
        (ok tt, record { sent = p.sent + 1 + n; out = (p.out ++ d ∷ []) ++ ds })
        (ok tt, record { sent = p.sent + suc n; out = p.out ++ d ∷ ds })
sent_more p d n ds =
    let counted : p.sent + 1 + n ≡ p.sent + suc n = omega arith in
    rw (append_assoc p.out (d ∷ []) ds, counted) refl

-- What fits the buffer arrives whole.
take-whole : (n : ℕ) (xs : Bytes) → length xs ≤ n → take n xs ≡ xs
take-whole zero [] h = refl
take-whole zero (x ∷ xs) h = absurd (omega arith)
take-whole (suc n) [] h = refl
take-whole (suc n) (x ∷ xs) h = ap (◌∷◌ x) (take-whole n xs (omega arith))

-- The text of an object is not the end marker, not even cut.
pub same_bytes-object :
    (raw rest : Bytes) → raw ≡ b'{' ∷ rest → same_bytes (take recv_buffer raw) end_marker ≡ false
same_bytes-object raw rest e = rw e refl

abbrev datagrams : List FrozenSession → List Bytes → List Datagram
datagrams (s ∷ frozen) (raw ∷ raws) =
    record { payload = raw; fd = some s.client_fd } ∷ datagrams frozen raws
datagrams _ _ = record { payload = end_marker; fd = none } ∷ []

-- The datagrams at the other end: the kernel has duplicated each descriptor, by `dup`.
abbrev pub arrived : (ℕ → ℕ) → List Datagram → List (Result Datagram)
arrived dup [] = []
arrived dup (d ∷ ds) = ok (renumbered dup d) ∷ arrived dup ds

-- Each session's snapshot, with the descriptor of its client in the child.
abbrev pub owned : (ℕ → ℕ) → List FrozenSession → List (SessionSnapshot × ℕ)
owned dup [] = []
owned dup (s ∷ frozen) = (s.snapshot, dup s.client_fd) ∷ owned dup frozen

module _ (json : Json) where
  send_session-Acked :
      (s : FrozenSession) (round : Round) (raw : Bytes) (d : Datagram) (p : Handoff)
      → json.to_vec s.snapshot ≡ some raw
      → round.delivered ≡ ok tt
      → round.answer ≡ ok d
      → d.payload ≡ ack_byte
      → send_session json s round p ≡ (
        ok tt,
        record {
          sent = p.sent + 1;
          out = p.out ++ record { payload = raw; fd = some s.client_fd } ∷ [];
        },
      )
  unfolding send_session recv_with_fd
  send_session-Acked s round raw d p e delivered answer good = rw (e, delivered, answer, good) refl

  send_each-Acked :
      (frozen : List FrozenSession) (raws : List Bytes) (rounds : ℕ → Round) (i : ℕ) (p : Handoff)
      → Payloads json frozen raws
      → Acked rounds
      → send_each json frozen rounds (ok tt) i p
        ≡ (ok tt, record { sent = p.sent + length frozen; out = p.out ++ datagrams frozen raws })
  unfolding send_each
  send_each-Acked [] [] rounds i p e a =
      let none_sent : p.sent + 0 ≡ p.sent = omega arith in rw none_sent refl
  send_each-Acked [] (raw ∷ raws) rounds i p e a = elim e [ ]
  send_each-Acked (s ∷ frozen) [] rounds i p e a = elim e [ ]
  send_each-Acked (s ∷ frozen) (raw ∷ raws) rounds i p e a =
      let (delivered, d, answer, good) = a i in
      rw (send_session-Acked s (rounds i) raw d p e.0 delivered answer good) (
        send_each-Acked frozen raws rounds (suc i) _ e.2 a
        ∙ sent_more p (record { payload = raw; fd = some s.client_fd }) (length frozen)
            (datagrams frozen raws))

  recv_each-datagrams :
      (laws : IsJson json) (frozen : List FrozenSession) (raws : List Bytes) (dup : ℕ → ℕ)
      (acks : ℕ → Result (Unit {0})) (i : ℕ) (sessions : List (SessionSnapshot × ℕ))
      → Payloads json frozen raws
      → ((j : ℕ) → acks j ≡ ok tt)
      → recv_each json (arrived dup (datagrams frozen raws)) acks i sessions
        ≡ ok (sessions ++ owned dup frozen)
  unfolding recv_each recv_with_fd
  recv_each-datagrams laws [] raws dup acks i sessions e a = ap ok (sym (append-nil sessions))
  recv_each-datagrams laws (s ∷ frozen) [] dup acks i sessions e a = elim e [ ]
  recv_each-datagrams laws (s ∷ frozen) (raw ∷ raws) dup acks i sessions e a =
      let (rest, object) = laws.braced s.snapshot raw e.0 in
      rw
        (
          same_bytes-object raw rest object,
          take-whole recv_buffer raw e.1,
          laws.back s.snapshot raw e.0,
          a i,
        )
        (recv_each-datagrams laws frozen raws dup acks (suc i)
            (sessions ++ (s.snapshot, dup s.client_fd) ∷ []) e.2 a
          ∙ ap ok (append_assoc sessions ((s.snapshot, dup s.client_fd) ∷ []) (owned dup frozen)))

  -- If every snapshot can be written as text that fits the receiver's buffer, each send succeeds and
  -- is answered with the ack, and the acks and the end marker are sent, then the sender succeeds and
  -- has counted every frozen session, and the receiver gets exactly these sessions, in their order,
  -- each with its own snapshot and the duplicate of its own client's descriptor.
  pub recv_sessions-send_sessions :
      (laws : IsJson json) (frozen : List FrozenSession) (raws : List Bytes) (rounds : ℕ → Round)
      (dup : ℕ → ℕ) (acks : ℕ → Result (Unit {0}))
      → Payloads json frozen raws
      → Acked rounds
      → ((i : ℕ) → acks i ≡ ok tt)
      → (p : Handoff) × (send_sessions json frozen rounds (ok tt) ≡ (ok tt, p))
        × (p.sent ≡ length frozen)
        × (recv_sessions json (arrived dup p.out) acks ≡ ok (owned dup frozen))
  unfolding send_sessions recv_sessions
  recv_sessions-send_sessions laws frozen raws rounds dup acks e a b = (
    record { sent = 0 + length frozen; out = datagrams frozen raws },
    send_each-Acked frozen raws rounds 0 (record { sent = 0; out = [] }) e a,
    omega arith,
    recv_each-datagrams laws frozen raws dup acks 0 [] e b,
  )
