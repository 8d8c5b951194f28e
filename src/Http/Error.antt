-- ===== src/Http/Error.antt =====
-- wruster/src/http/errors.rs: the errors of the messages, and the results that carry them. `panic`
-- is a panic of the source, and `running` a loop that has not ended within its fuel.
pub mod Settles
use wruster.Base.{◌≡◌, refl, Bytes, ◌++◌, codes}

pub data ErrorKind : Type 0 where
  not_connected timed_out would_block interrupted connection_reset write_zero not_found invalid_data
        other :
      ErrorKind

pub record IoError : Type 0 where
  pub kind : ErrorKind
  pub message : Bytes

pub data HttpError : Type 0 where
  unknown : Bytes → HttpError
  connection_closed timeout : HttpError
  invalid_request : Bytes → HttpError

-- `Display`
unfoldable pub to_string : HttpError → Bytes
to_string (unknown msg) = msg
to_string connection_closed = codes "connection closed"
to_string timeout = codes "operation timeout"
to_string (invalid_request msg) = codes "invalid request: " ++ msg

abbrev pub of_kind : ErrorKind → Bytes → HttpError
of_kind not_connected message = connection_closed
of_kind timed_out message = timeout
of_kind _ message = unknown message

-- `From<io::Error>`
abbrev pub of_io : IoError → HttpError
of_io e = of_kind e.kind e.message

pub data Result {ℓ} (E : Type 0) (A : Type ℓ) : Type ℓ where
  ok : A → Result E A
  err : E → Result E A
  panic running : Result E A

infixl 5 ◌>>=◌
abbrev pub ◌>>=◌ {ℓ κ} :
    {E : Type 0} {A : Type ℓ} {B : Type κ} → Result E A → (A → Result E B) → Result E B
ok a >>= f = f a
err e >>= f = err e
panic >>= f = panic
running >>= f = running

abbrev pub map_err {ℓ} : {E F : Type 0} {A : Type ℓ} → (E → F) → Result E A → Result F A
map_err f (ok a) = ok a
map_err f (err e) = err (f e)
map_err f panic = panic
map_err f running = running

abbrev pub HttpResult {ℓ} : Type ℓ → Type ℓ
HttpResult A = Result HttpError A

-- Inversion of a step that succeeded.
pub >>=-eq-ok {ℓ κ} :
    {E : Type 0} {A : Type ℓ} {B : Type κ} (first : Result E A) (next : A → Result E B) {last : B}
    → (first >>= next) ≡ ok last
    → (middle : A) × (first ≡ ok middle) × (next middle ≡ ok last)
>>=-eq-ok (ok middle) next done = (middle, refl, done)
>>=-eq-ok panic next done = cc
>>=-eq-ok running next done = cc
>>=-eq-ok (err failure) next done = cc

pub map_err-eq-ok {ℓ} :
    {E F : Type 0} {A : Type ℓ} (f : E → F) (m : Result E A) {a : A} → map_err f m ≡ ok a → m ≡ ok a
map_err-eq-ok f (ok x) h = cc
map_err-eq-ok f (err e) h = cc
map_err-eq-ok f panic h = cc
map_err-eq-ok f running h = cc

-- How a call ended.
pub data Outcome {ℓ} {E : Type 0} {A : Type ℓ} (m : Result E A) : Type ℓ where
  was_ok : (a : A) → m ≡ ok a → Outcome m
  was_err : (e : E) → m ≡ err e → Outcome m
  was_panic : m ≡ panic → Outcome m
  was_running : m ≡ running → Outcome m

pub Result-cases {ℓ} : {E : Type 0} {A : Type ℓ} (m : Result E A) → Outcome m
Result-cases (ok a) = was_ok a refl
Result-cases (err e) = was_err e refl
Result-cases panic = was_panic refl
Result-cases running = was_running refl
