-- ===== src/Proxy.antt =====
-- src/lib.rs: the accept loops of `serve` and of `Proxy::start`. What each `accept` yields is an
-- argument; a session's task is started for a connection and not waited for.
use traffic_director.Result.{IoError}
use traffic_director.Prelude.{
  ◌≡◌, refl, Bool, true, false, Option, none, some, List, [], ◌∷◌, ◌++◌, map,
}

pub data Accept (A : Type 0) : Type 0 where
  accept_ok : A → Accept A
  accept_failed : IoError → Accept A

module _ {A : Type 0} where
  -- The connections for which a session is started, and the error with which it returns, if it does.
  unfoldable pub serve : List (Accept A) → List A × Option IoError
  serve [] = ([], none)
  serve (accept_ok stream ∷ calls) =
      let (sessions, returned) = serve calls in (stream ∷ sessions, returned)
  serve (accept_failed e ∷ calls) = ([], some e)

  -- The task of `Proxy::start`: the connections for which a session is started, and whether it has
  -- left its loop.
  unfoldable pub start : List (Accept A) → List A × Bool
  start [] = ([], false)
  start (accept_ok stream ∷ calls) = let (sessions, left) = start calls in (stream ∷ sessions, left)
  start (accept_failed e ∷ calls) = ([], true)

  -- Both loops start a session for each connection before the first error of `accept` and for no
  -- other one, and end at that error, which `serve` returns.
  pub start-serve :
      (streams : List A) (e : IoError) (calls : List (Accept A))
      → (serve (map accept_ok streams) ≡ (streams, none))
        × (start (map accept_ok streams) ≡ (streams, false))
        × (serve (map accept_ok streams ++ accept_failed e ∷ calls) ≡ (streams, some e))
        × (start (map accept_ok streams ++ accept_failed e ∷ calls) ≡ (streams, true))
  unfolding serve start
  start-serve [] e calls = (refl, refl, refl, refl)
  start-serve (s ∷ streams) e calls =
      let (a, b, c, d) = start-serve streams e calls in (rw a refl, rw b refl, rw c refl, rw d refl)
