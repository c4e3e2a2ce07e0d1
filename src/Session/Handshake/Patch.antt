-- ===== src/Session/Handshake/Patch.antt =====
-- `force_session_resumption` of src/session/handshake.rs on a CONNECT packet, and on any bytes.
use traffic_director.Prelude.Bits.{IsByte, bit_and_fd}
use traffic_director.Prelude.{
  Bytes, ℕ, ◌+◌, ◌*◌, ◌/◌, ◌%◌, bit_and, ◌≡◌, refl, ap, ◌∙◌, true, false, some, [], ◌∷◌, ◌++◌,
  arith, ◌==◌, length, get_elem?, set, sym, append_assoc, drop, length-append, ◌⊎◌, inl, inr,
  Bool-cases, Option-cases,
}
use traffic_director.Result.{ok, invalid_data, Result, err, ◌>>=◌}
use traffic_director.Session.Handshake.{skip_varint, force_session_resumption, byte_at}

-- Bytes with bit 7 set, and a last one without.
abbrev pub IsVarint : Bytes → Type 0
IsVarint [] = ⊥
IsVarint (b ∷ []) = (bit_and b 0x80 == 0) ≡ true
IsVarint (b ∷ c ∷ v) = ((bit_and b 0x80 == 0) ≡ false) × IsVarint (c ∷ v)

-- A CONNECT up to its flags: fixed header, remaining length, protocol name with its length in two
-- bytes, protocol level.
abbrev pub before_flags : ℕ → Bytes → ℕ → ℕ → Bytes → ℕ → Bytes
before_flags head varint high low name level = head ∷ (varint ++ high ∷ low ∷ (name ++ level ∷ []))

get_elem?-length : (xs : Bytes) (y : ℕ) (ys : Bytes) → get_elem? (xs ++ y ∷ ys) (length xs) ≡ some y
get_elem?-length [] y ys = refl
get_elem?-length (x ∷ xs) y ys = get_elem?-length xs y ys

set-length : (xs : Bytes) (y z : ℕ) (ys : Bytes) → set (xs ++ y ∷ ys) (length xs) z ≡ xs ++ z ∷ ys
set-length [] y z ys = refl
set-length (x ∷ xs) y z ys = ap (◌∷◌ x) (set-length xs y z ys)

get_at :
    (raw xs : Bytes) (y : ℕ) (ys : Bytes) (i : ℕ)
    → raw ≡ xs ++ y ∷ ys
    → i ≡ length xs
    → get_elem? raw i ≡ some y
get_at raw xs y ys i e at = rw (e, at) (get_elem?-length xs y ys)

skip_varint_lem :
    (varint rest : Bytes) (i : ℕ)
    → IsVarint varint
    → skip_varint (varint ++ rest) i ≡ ok (i + length varint)
unfolding skip_varint
skip_varint_lem [] rest i h = absurd h
skip_varint_lem (b ∷ []) rest i h = rw h (ap ok (omega arith))
skip_varint_lem (b ∷ c ∷ v) rest i h =
    rw h.0 (skip_varint_lem (c ∷ v) rest (i + 1) h.1 ∙ ap ok (omega arith))

module _ (head : ℕ) (varint : Bytes) (high low : ℕ) (name : Bytes) (level flags : ℕ) (rest : Bytes)
    (v : IsVarint varint) (named : length name ≡ high * 256 + low) where
  abbrev raw : Bytes
  raw = before_flags head varint high low name level ++ flags ∷ rest

  abbrev after_low : Bytes
  after_low = (name ++ level ∷ []) ++ flags ∷ rest

  raw_at_high : raw ≡ (head ∷ varint) ++ high ∷ low ∷ after_low
  raw_at_high =
      ap (◌∷◌ head) (append_assoc varint (high ∷ low ∷ (name ++ level ∷ [])) (flags ∷ rest))

  varint_read : skip_varint (drop 1 raw) 1 ≡ ok (1 + length varint)
  varint_read =
      rw (append_assoc varint (high ∷ low ∷ (name ++ level ∷ [])) (flags ∷ rest))
        (skip_varint_lem varint (high ∷ low ∷ after_low) 1 v)

  high_at : get_elem? raw (1 + length varint) ≡ some high
  high_at = get_at raw (head ∷ varint) high (low ∷ after_low) _ raw_at_high (omega arith)

  low_at : get_elem? raw (1 + length varint + 1) ≡ some low
  low_at =
      get_at raw ((head ∷ varint) ++ high ∷ []) low after_low _
        (raw_at_high ∙ sym (append_assoc (head ∷ varint) (high ∷ []) (low ∷ after_low)))
        (omega (arith, length-append varint (high ∷ [])))

  flags_index :
      1 + length varint + 2 + (high * 256 + low) + 1
      ≡ length (before_flags head varint high low name level)
  flags_index = omega (
    arith,
    length-append varint (high ∷ low ∷ (name ++ level ∷ [])),
    length-append name (level ∷ []),
  )

  flags_at : get_elem? raw (1 + length varint + 2 + (high * 256 + low) + 1) ≡ some flags
  flags_at = get_at raw (before_flags head varint high low name level) flags rest _ refl flags_index

  -- In a well-formed CONNECT exactly the flags byte changes: bit 1, the clean bit, is 0, and the
  -- other bits are as they were.
  pub force_session_resumption_lem :
      IsByte flags
      → (patched : ℕ) × (force_session_resumption
            (before_flags head varint high low name level ++ flags ∷ rest)
          ≡ ok (before_flags head varint high low name level ++ patched ∷ rest))
        × (patched / 2 % 2 ≡ 0)
        × (patched / 4 ≡ flags / 4)
        × (patched % 2 ≡ flags % 2)
  unfolding force_session_resumption byte_at
  force_session_resumption_lem b =
      let law = bit_and_fd flags b in
      (
        bit_and flags 0xfd,
        rw (varint_read, high_at, low_at, flags_at)
            (rw flags_index (
              ap ok (
                set-length (before_flags head varint high low name level) flags (bit_and flags 0xfd)
                  rest))),
        law.2,
        law.0,
        law.1,
      )

skip_varint_total :
    (raw : Bytes) (i : ℕ)
    → ((j : ℕ) × (skip_varint raw i ≡ ok j)) ⊎ (skip_varint raw i ≡ err invalid_data)
unfolding skip_varint
skip_varint_total [] i = inr refl
skip_varint_total (b ∷ raw) i = elim (Bool-cases (bit_and b 0x80 == 0)) [
  | inl last ↦ inl (i + 1, rw last)
  | inr more ↦ rw more (skip_varint_total raw (i + 1))
]

-- What `force_session_resumption` can do to any bytes.
abbrev pub Patched : Bytes → Result Bytes → Type 0
Patched raw r =
    ((i : ℕ) × (flags : ℕ) × (get_elem? raw i ≡ some flags)
      × (r ≡ ok (set raw i (bit_and flags 0xfd))))
    ⊎ (r ≡ err invalid_data)

read_then :
    (raw : Bytes) (i : ℕ) (f : ℕ → Result Bytes)
    → ((b : ℕ) → get_elem? raw i ≡ some b → Patched raw (f b))
    → Patched raw (byte_at raw i >>= f)
unfolding byte_at
read_then raw i f k = elim (Option-cases (get_elem? raw i)) [
  | inl out ↦ inr (rw out)
  | inr (b, at) ↦ rw at (k b at)
]

-- On any bytes whatever the patch does not panic: it clears bit 1 of one byte that is there and
-- changes no other, or it refuses with `InvalidData`.
pub force_session_resumption_total :
    (raw : Bytes)
    → ((i : ℕ) × (flags : ℕ) × (get_elem? raw i ≡ some flags)
        × (force_session_resumption raw ≡ ok (set raw i (bit_and flags 0xfd))))
      ⊎ (force_session_resumption raw ≡ err invalid_data)
unfolding force_session_resumption
force_session_resumption_total raw = elim (skip_varint_total (drop 1 raw) 1) [
  | inl (i, eq) ↦ rw eq (
      read_then raw i _ (λ high _. read_then raw (i + 1) _ (λ low _.
        read_then raw (i + 2 + (high * 256 + low) + 1) _
          (λ flags at. inl (i + 2 + (high * 256 + low) + 1, flags, at, refl)))))
  | inr bad ↦ inr (rw bad)
]
