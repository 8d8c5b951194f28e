-- ===== src/Tests/Streams.antt =====
-- The streams at small inputs.
use wruster.Base.{
  ℕ, zero, suc, ◌+◌, ◌*◌, ◌≡◌, ◌≢◌, ◌≤◌, ◌<◌, refl, sym, true, false, none, some, [], ◌∷◌, ◌++◌,
  Bytes, length, take, arith, codes,
}
use mathlib.Core.List.{append-nil}
use wruster.Http.Error.{IoError, ok, err}
use wruster.Http.Io.{IoResult}
use wruster.Streams.Cancellable
use wruster.Streams.Cancellable.Progress.{IsWilling, write_int-willing}
use wruster.Streams.Wrapped.{observed, read-Fits}
use wruster.Streams.Cancellable.Writes.{write_int-whole}
use wruster.Streams.Cancellable.{Device, CancellableStream, read_int, write_int}
use wruster.Streams.Observed
use wruster.Streams.Observed.Pending.{Reachable, starts, tracked, moved}
use wruster.Streams.Observed.{
  World, track_stream, Step, releases, clones, drops, drain, free, handles, set_handles, dropped,
}
use wruster.Streams.Timeout
use wruster.Streams.Timeout.Limit.{time_of_calls, reading, writing, from-limits}
use wruster.Streams.Timeout.{
  TimeoutStream, Stream, second, as_secs, next_timeout, from, timed_out_error,
}

-- The clock, and the time-out that is set. A read takes all of it.
abbrev slow : Stream
slow = record {
  State = ℕ × ℕ;
  now = λ (now, limit). now;
  set_read_timeout =
      λ (now, limit) d. elim d [ none ↦ (ok tt, (now, limit)) | some d ↦ (ok tt, (now, d)) ];
  set_write_timeout = λ s d. (ok tt, s);
  read = λ (now, limit) n. (ok [], (now + limit, limit));
  write = λ s buf. (ok (length buf), s);
  flush = λ s. (ok tt, s);
}

from-limits_example :
    (time_of_calls slow
        (reading slow)
        (3 * second)
        (1 ∷ 1 ∷ [])
        (from slow (0, 0) (some (3 * second)) (some (2 * second)))
      ≤ 5 * second)
    × (time_of_calls slow
          (writing slow)
          (2 * second)
          (codes "a" ∷ [])
          (from slow (0, 0) (some (3 * second)) (some (2 * second)))
        ≤ 3 * second)
from-limits_example =
    from-limits slow (3 * second) (2 * second) (1 ∷ 1 ∷ []) (codes "a" ∷ []) (0, 0)
      (λ n s d e. omega arith) (λ buf s d e. omega arith) (omega arith) (omega arith)

-- A read takes nine tenths of a second.
abbrev trickle : Stream
trickle = record slow { read = λ (now, limit) n. (ok (b'a' ∷ []), (now + 900000000, limit)) }

-- Two streams, of which the first went away.
abbrev two : World
two = track_stream (track_stream (record { list = Observed.new; streams = [] }))

abbrev unheld : World
unheld = record two { streams = set_handles 0 0 two.streams }

abbrev one : World
one = record { list = dropped 0 unheld.list; streams = free 0 unheld.streams }

one-Reachable : Reachable 2 one
unfolding track_stream Observed.track handles set_handles Observed.new
one-Reachable = moved (moved (tracked (tracked starts)) (releases 0 0 refl)) (drops 0 refl)

-- A device that takes one byte of each write, and has "ab" to read.
abbrev pub take_one : Bytes → Bytes → IoResult ℕ × Bytes
take_one s [] = (ok 0, s)
take_one s (c ∷ cs) = (ok 1, s ++ c ∷ [])

pub take_one-written :
    (buf s : Bytes) (n : ℕ)
    → (take_one s buf).0 ≡ ok n
    → (n ≤ length buf) × ((take_one s buf).1 ≡ s ++ take n buf)
take_one-written [] s n e =
    let nothing : 0 ≡ n = cc in (omega (arith, nothing), rw⁻¹ nothing (sym (append-nil s)))
take_one-written (c ∷ cs) s n e =
    let single : 1 ≡ n = cc in (omega (arith, single), rw⁻¹ single refl)

pub take_one-refused :
    (buf s : Bytes) (e : IoError) → (take_one s buf).0 ≡ err e → (take_one s buf).1 ≡ s
take_one-refused [] s e h = refl
take_one-refused (c ∷ cs) s e h = cc

take-short : (n : ℕ) (s : Bytes) → length (take n s) ≤ n
take-short zero s = omega arith
take-short (suc n) [] = omega arith
take-short (suc n) (c ∷ s) = omega (arith, take-short n s)

abbrev pub read_two : ℕ → IoResult Bytes
read_two n = ok (take n (codes "ab"))

pub read_two-short : (n : ℕ) (s bytes : Bytes) → read_two n ≡ ok bytes → length bytes ≤ n
read_two-short n s bytes e =
    let got : take n (codes "ab") ≡ bytes = cc in rw⁻¹ got (take-short n (codes "ab"))

take_one-takes : (buf s : Bytes) → buf ≢ [] → (n : ℕ) × ((take_one s buf).0 ≡ ok n) × (0 < n)
take_one-takes [] s h = absurd (h refl)
take_one-takes (c ∷ cs) s h = (1, refl, omega arith)

abbrev device : Device
device = record {
  State = Bytes;
  done = λ s. false;
  store_done = λ s. s;
  written = λ s. s;
  modify_readable = λ s. (ok tt, s);
  modify_writable = λ s. (ok tt, s);
  wait = λ d s. (ok (record { key = 1; writable = true } ∷ []), s);
  read_buf = λ n s. (read_two n, s);
  write_buf = λ buf s. take_one s buf;
  set_blocking = λ s. (ok tt, s);
  shutdown = λ s. (ok tt, s);
  read_buf-length = read_two-short;
  write_buf-written = take_one-written;
  write_buf-refused = take_one-refused;
  modify_writable-written = λ s. refl;
  wait-written = λ d s. refl;
}

abbrev stream : CancellableStream device
stream = record { device = codes "x"; read_timeout = none; write_timeout = none }

read_int-two : (read_int device 8 stream).0 ≡ ok (codes "ab")
unfolding read_int Cancellable.read_ready Cancellable.read_woken Cancellable.read_events
    Cancellable.at_least_one
read_int-two = refl

abbrev wrapped : Stream
wrapped = observed device (λ s. 0) (λ s. (ok tt, s)) 9

abbrev limited_stream : TimeoutStream wrapped
limited_stream = from wrapped stream (some (2 * second)) none

limited_stream-two : (Timeout.read wrapped 8 limited_stream).0 ≡ ok (codes "ab")
unfolding from Timeout.read Timeout.limited next_timeout Timeout.ongoing Timeout.from_timeout
    Timeout.after_set Timeout.measured read_int Cancellable.read_ready Cancellable.read_woken
    Cancellable.read_events Cancellable.at_least_one
limited_stream-two = refl

read-Fits_example : (codes "ab" ≢ []) × (2 ≤ 8)
read-Fits_example =
    read-Fits device (λ s. 0) (λ s. (ok tt, s)) 9 8 limited_stream (codes "ab") limited_stream-two

device-IsWilling : IsWilling device
device-IsWilling = record { modified = λ s. refl; woken = λ d s. refl; takes = take_one-takes }

write_int-willing_example :
    ((write_int device 4 (codes "abc") stream).0 ≡ ok 3)
    × ((write_int device 4 (codes "abc") stream).1.device ≡ codes "xabc")
write_int-willing_example = write_int-willing device (codes "abc") stream device-IsWilling

write_int-whole_example :
    (3 ≡ length (codes "abc")) × ((write_int device 4 (codes "abc") stream).1.device ≡ codes "xabc")
write_int-whole_example =
    write_int-whole device 4 (codes "abc") stream 3
      (write_int-willing device (codes "abc") stream device-IsWilling).0
