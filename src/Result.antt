-- ===== src/Result.antt =====
-- `io::Result` of the program, with a third outcome for a Rust panic (`expect`, `unreachable!`,
-- an index out of bounds), and a fourth for a loop that its fuel does not cover.
use traffic_director.Prelude.{◌≡◌, refl, Option, none, some}

-- The `io::ErrorKind`s that the session code returns. `transport` stands for an error that the
-- operating system reports.
pub data IoError : Type 0 where
  invalid_data unexpected_eof connection_aborted quota_exceeded transport : IoError

pub data Result {ℓ} (A : Type ℓ) : Type ℓ where
  ok : A → Result A
  err : IoError → Result A
  panic : Result A
  out_of_fuel : Result A

infixl 5 ◌>>=◌
abbrev pub ◌>>=◌ {ℓ κ} : {A : Type ℓ} {B : Type κ} → Result A → (A → Result B) → Result B
panic >>= f = panic
out_of_fuel >>= f = out_of_fuel
ok a >>= f = f a
err e >>= f = err e

-- `expect` on an `Option`.
abbrev pub expect {ℓ} : {A : Type ℓ} → Option A → Result A
expect none = panic
expect (some a) = ok a

-- `ok_or_else`.
abbrev pub ok_or {ℓ} : {A : Type ℓ} → Option A → IoError → Result A
ok_or none e = err e
ok_or (some a) e = ok a

-- What a chain that returned went through.
pub bind-ok {ℓ κ} :
    {A : Type ℓ} {B : Type κ} {f : A → Result B} {b : B} (m : Result A)
    → m >>= f ≡ ok b
    → (a : A) × (f a ≡ ok b) × (m ≡ ok a)
bind-ok panic returned = cc
bind-ok out_of_fuel returned = cc
bind-ok (err e) returned = cc
bind-ok (ok a) returned = (a, returned, refl)
