-- ===== src/Migrate.antt =====
-- src/migrate.rs: the handover of frozen sessions over a pair of datagram sockets. The sockets, and
-- `serde_json`, are arguments: what each call of them yields.
pub mod Send
pub mod Recv
pub mod Handover
pub mod Failure
use mathlib.Core.Option
use traffic_director.Registry.{SessionSnapshot}
use traffic_director.Prelude.{
  Bytes, ℕ, ◌≡◌, Bool, true, false, ◌&&◌, Option, some, List, [], ◌∷◌, ◌++◌, ◌==◌, if◌then◌else◌,
  take,
}
use traffic_director.Result.{invalid_data, Result, ok, err, ◌>>=◌}

-- The conversions of `serde_json`; `none` is an error.
pub record Json : Type 0 where
  pub to_vec : SessionSnapshot → Option Bytes
  pub from_slice : Bytes → Option SessionSnapshot

-- A snapshot is an object, whose text begins with `{`, and is read back.
pub record IsJson (json : Json) : Type 0 where
  pub back :
      (s : SessionSnapshot) (raw : Bytes) → json.to_vec s ≡ some raw → json.from_slice raw ≡ some s
  pub braced :
      (s : SessionSnapshot) (raw : Bytes)
      → json.to_vec s ≡ some raw
      → (rest : Bytes) × (raw ≡ b'{' ∷ rest)

-- A payload, with the descriptor that travels in an SCM_RIGHTS message beside it.
pub record Datagram : Type 0 where
  pub payload : Bytes
  pub fd : Option ℕ

-- The datagram at the other end: the kernel has duplicated its descriptor, by `dup`.
abbrev pub renumbered : (ℕ → ℕ) → Datagram → Datagram
renumbered dup d = record d { fd = Option.map dup d.fd }

abbrev pub end_marker : Bytes
end_marker = b'T' ∷ b'D' ∷ b'-' ∷ b'E' ∷ b'N' ∷ b'D' ∷ []

abbrev pub ack_byte : Bytes
ack_byte = 0x06 ∷ []

abbrev pub same_bytes : Bytes → Bytes → Bool
same_bytes [] [] = true
same_bytes (x ∷ xs) (y ∷ ys) = x == y && same_bytes xs ys
same_bytes _ _ = false

abbrev pub recv_buffer : ℕ
recv_buffer = 1048576

-- `recv_with_fd`: the kernel cuts a datagram that is longer than the buffer.
unfoldable pub recv_with_fd : Result Datagram → Result Datagram
recv_with_fd incoming = do d ← incoming; ok (record d { payload = take recv_buffer d.payload })

-- What the two system calls for one session yield: `sendmsg`, and the `recvmsg` for the ack.
pub record Round : Type 0 where
  pub delivered : Result (Unit {0})
  pub answer : Result Datagram

-- The sender's `sent`, and the datagrams that have left it.
pub record Handoff : Type 0 where
  pub sent : ℕ
  pub out : List Datagram

abbrev pub emit : Datagram → Handoff → Handoff
emit d h = record h { out = h.out ++ d ∷ [] }

abbrev pub acked : Bytes → Result (Unit {0})
acked payload = if same_bytes payload ack_byte then ok tt else err invalid_data
