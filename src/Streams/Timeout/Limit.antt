-- ===== src/Streams/Timeout/Limit.antt =====
-- wruster/src/streams/timeout_stream.rs: how long a number of reads, or of writes, may take.
use wruster.Base.{
  ℕ, ◌+◌, ◌*◌, ◌^◌, ◌<◌, ◌≤◌, ◌≡◌, ◌∙◌, refl, Option, none, some, List, [], ◌∷◌, Bytes, arith,
  length,
}
use wruster.Http.Error.{ok}
use wruster.Http.Io.{IoResult}
use wruster.Streams.Timeout.Account.{Accounted, time_in, limited-Accounted}
use wruster.Streams.Timeout.{
  Stream, TimeoutStream, Operation, second, as_secs, from, from_timeout, ongoing, limited, read,
  write,
}

module _ (S : Stream) where
  open S use {State, now}

  -- One of the two directions of a stream: its calls, the setting of their time-out, the call of the
  -- stream below, and the fields that belong to it, which a call moves as `limited` does.
  pub record Direction : Type 1 where
    pub Argument : Type 0
    pub Value : Type 0
    pub set : State → Option ℕ → IoResult (Unit {0}) × State
    pub raw : Argument → State → IoResult Value × State
    pub call : Argument → TimeoutStream S → TimeoutStream S
    pub limit : TimeoutStream S → Option ℕ
    pub operation : TimeoutStream S → Option Operation
    pub stays :
        (timeout : ℕ) (x : Argument) (t : TimeoutStream S)
        → limit t ≡ some timeout
        → (limit (call x t) ≡ some timeout)
          × (ongoing timeout (operation (call x t))
              ≡ (limited S set (raw x) (ongoing timeout (operation t)) t.stream).2)

  -- The operation that the next read goes on with.
  abbrev pub current : ℕ → TimeoutStream S → Operation
  current timeout t = ongoing timeout t.ongoing_read

  pub read-stays :
      (timeout n : ℕ) (t : TimeoutStream S)
      → t.read_timeout ≡ some timeout
      → ((read S n t).1.read_timeout ≡ some timeout)
        × (current timeout (read S n t).1
            ≡ (limited S S.set_read_timeout (λ s. S.read s n) (current timeout t) t.stream).2)
  unfolding read ongoing
  read-stays timeout n t limit = (rw limit, rw limit)

  pub write-stays :
      (timeout : ℕ) (buf : Bytes) (t : TimeoutStream S)
      → t.write_timeout ≡ some timeout
      → ((write S buf t).1.write_timeout ≡ some timeout)
        × (ongoing timeout (write S buf t).1.ongoing_write
            ≡ (limited S S.set_write_timeout
                (λ s. S.write s buf)
                (ongoing timeout t.ongoing_write)
                t.stream).2)
  unfolding write ongoing
  write-stays timeout buf t limit = (rw limit, rw limit)

  abbrev pub reading : Direction
  reading = record {
    Argument = ℕ;
    Value = Bytes;
    set = S.set_read_timeout;
    raw = λ n s. S.read s n;
    call = λ n t. (read S n t).1;
    limit = λ t. t.read_timeout;
    operation = λ t. t.ongoing_read;
    stays = read-stays;
  }

  abbrev pub writing : Direction
  writing = record {
    Argument = Bytes;
    Value = ℕ;
    set = S.set_write_timeout;
    raw = λ buf s. S.write s buf;
    call = λ buf t. (write S buf t).1;
    limit = λ t. t.write_timeout;
    operation = λ t. t.ongoing_write;
    stays = write-stays;
  }

  -- Reads into buffers of these sizes, one after the other.
  abbrev pub reads : List ℕ → TimeoutStream S → TimeoutStream S
  reads [] t = t
  reads (n ∷ ns) t = reads ns (read S n t).1

  module _ (D : Direction) where
    open D use {Argument}

    -- The time that the stream takes for a call with the time-out `timeout`, and for several.
    abbrev pub time_of_call : ℕ → Argument → TimeoutStream S → ℕ
    time_of_call timeout x t = time_in S (D.raw x) D.set (ongoing timeout (D.operation t)) t.stream

    abbrev pub time_of_calls : ℕ → List Argument → TimeoutStream S → ℕ
    time_of_calls timeout [] t = 0
    time_of_calls timeout (x ∷ xs) t =
        time_of_call timeout x t + time_of_calls timeout xs (D.call x t)

    record IsTimed (timeout : ℕ) (t : TimeoutStream S) : Type 0 where
      pub limit : D.limit t ≡ some timeout
      pub same : (ongoing timeout (D.operation t)).timeout ≡ timeout
      pub within : (ongoing timeout (D.operation t)).elapsed_secs ≤ as_secs timeout

    fresh-IsTimed :
        (timeout : ℕ) (t : TimeoutStream S)
        → D.limit t ≡ some timeout
        → D.operation t ≡ none
        → IsTimed timeout t
    unfolding ongoing from_timeout
    fresh-IsTimed timeout t limit fresh = record {
      limit = limit;
      same = rw fresh;
      within = rw fresh (omega arith);
    }

    -- A time-out of the stream holds: a call takes no more than what was set.
    abbrev pub IsPunctual : Type 0
    IsPunctual =
        (x : Argument) (s : State) (d : ℕ)
        → (D.set s (some d)).0 ≡ ok tt
        → now (D.raw x (D.set s (some d)).1).1 ≤ now (D.set s (some d)).1 + d

    module _ (punctual : IsPunctual) (timeout : ℕ) (small : timeout < 2 ^ 64 * second) where
      call-IsTimed :
          (x : Argument) (t : TimeoutStream S)
          → IsTimed timeout t
          → IsTimed timeout (D.call x t)
            × (time_of_call timeout x t + (ongoing timeout (D.operation t)).elapsed_secs * second
                ≤ (ongoing timeout (D.operation (D.call x t))).elapsed_secs * second + second)
      call-IsTimed x t timed =
          let before = ongoing timeout (D.operation t) in
          let (stays, now_current) = D.stays timeout x t timed.limit in
          let kept : as_secs before.timeout ≡ as_secs timeout = rw timed.same in
          let accounted : Accounted S before (time_of_call timeout x t)
              (ongoing timeout (D.operation (D.call x t))) =
            rw now_current (
              limited-Accounted S (D.raw x) D.set before t.stream (omega (arith, timed.same, small))
                (omega (arith, timed.within, kept)) (punctual x)) in
          let same : (ongoing timeout (D.operation (D.call x t))).timeout ≡ timeout =
            accounted.same ∙ timed.same in
          (
            record { limit = stays; same = same; within = rw same at accounted.within },
            accounted.counted,
          )

      calls-IsTimed :
          (xs : List Argument) (t : TimeoutStream S)
          → IsTimed timeout t
          → time_of_calls timeout xs t + (ongoing timeout (D.operation t)).elapsed_secs * second
            ≤ (as_secs timeout + length xs) * second
      calls-IsTimed [] t timed = omega (arith, timed.within)
      calls-IsTimed (x ∷ xs) t timed =
          let (still, counted) = call-IsTimed x t timed in
          omega (arith, counted, calls-IsTimed xs (D.call x t) still)

      calls-limit :
          (xs : List Argument) (t : TimeoutStream S)
          → D.limit t ≡ some timeout
          → D.operation t ≡ none
          → time_of_calls timeout xs t ≤ (as_secs timeout + length xs) * second
      calls-limit xs t limit fresh =
          omega (arith, calls-IsTimed xs t (fresh-IsTimed timeout t limit fresh))

  -- However they are cut, the reads of a new stream take together no more than the whole seconds of
  -- its time-out for reading and one second for each read, and its writes no more than the whole
  -- seconds of that for writing and one second for each write, if no call of the stream below takes
  -- longer than the time that was set for it.
  pub from-limits :
      (read_timeout write_timeout : ℕ) (ns : List ℕ) (bufs : List Bytes) (stream : State)
      → IsPunctual reading
      → IsPunctual writing
      → read_timeout < 2 ^ 64 * second
      → write_timeout < 2 ^ 64 * second
      → let t = from S stream (some read_timeout) (some write_timeout) in
        (time_of_calls reading read_timeout ns t ≤ (as_secs read_timeout + length ns) * second)
        × (time_of_calls writing write_timeout bufs t
            ≤ (as_secs write_timeout + length bufs) * second)
  unfolding from
  from-limits read_timeout write_timeout ns bufs stream punctual_reads punctual_writes small
        smaller =
      let t = from S stream (some read_timeout) (some write_timeout) in
      (
        calls-limit reading punctual_reads read_timeout small ns t refl refl,
        calls-limit writing punctual_writes write_timeout smaller bufs t refl refl,
      )
