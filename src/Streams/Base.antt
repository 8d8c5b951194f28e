-- ===== src/Streams/Base.antt =====
-- wruster/src/streams/mod.rs: what a stream gives to those that wrap it, the trait `BaseStream`.
use wruster.Base.{ℕ, Bool, ◌≡◌, ◌≤◌, ◌++◌, Option, Bytes, length, take}
use wruster.Http.Error.{IoError, ok, err}
use wruster.Http.Io.{IoResult}

-- An operation that moves a state and may fail.
abbrev pub Action : Type 0 → Type 0 → Type 0
Action S A = S → IoResult A × S

-- `BaseStream`. `written` is what the stream took so far: a call of `write_buf` adds the bytes that it
-- counts, and a read gives no more than fit.
pub record BaseStream : Type 1 where
  pub State : Type 0
  pub written : State → Bytes
  pub set_nonblocking : Bool → Action State (Unit {0})
  pub shutdown : Action State (Unit {0})
  pub set_read_timeout : Option ℕ → Action State (Unit {0})
  pub set_write_timeout : Option ℕ → Action State (Unit {0})
  pub as_raw : State → ℕ
  pub write_buf : Bytes → Action State ℕ
  pub read_buf : ℕ → Action State Bytes
  pub flush_data : Action State (Unit {0})
  pub read_buf-length :
      (n : ℕ) (s : State) (bytes : Bytes) → (read_buf n s).0 ≡ ok bytes → length bytes ≤ n
  pub write_buf-written :
      (buf : Bytes) (s : State) (n : ℕ)
      → (write_buf buf s).0 ≡ ok n
      → (n ≤ length buf) × (written (write_buf buf s).1 ≡ written s ++ take n buf)
  pub write_buf-refused :
      (buf : Bytes) (s : State) (e : IoError)
      → (write_buf buf s).0 ≡ err e
      → written (write_buf buf s).1 ≡ written s
