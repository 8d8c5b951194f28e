-- ===== src/Programs/Exit.antt =====
-- How a program of the repository ends: with the status 0, with another one, as that of a panic, or
-- not at all.
use wruster.Base.{Bytes}
use wruster.Http.Error.{Result, ok, err, panic, running}
use wruster.Http.Io.{IoResult}
use wruster.Server.Lifecycle.{Server, Joined, start, wait}

pub data Exit : Type 0 where
  succeeds fails unending : Exit

-- What follows a step, if the program goes on with it.
abbrev pub or_exit {ℓ} : {E : Type 0} {A : Type ℓ} → Result E A → (A → Exit) → Exit
or_exit (ok a) next = next a
or_exit (err e) next = fails
or_exit panic next = fails
or_exit running next = unending

-- A server is started and waited for, with the outcomes of the binding and of the accepting thread.
unfoldable pub serve : Bytes → IoResult (Unit {0}) → Joined → Server → Exit
serve addr bound joined server =
    let (started, s) = start addr bound server in
    or_exit started (λ _. or_exit (wait joined s) (λ _. succeeds))
