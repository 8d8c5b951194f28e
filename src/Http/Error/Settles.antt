-- ===== src/Http/Error/Settles.antt =====
-- wruster/src/http: results that do not run on for ever.
use wruster.Base.{◌≢◌}
use wruster.Http.Error.{Result, ok, err, panic, running, ◌>>=◌, map_err}

-- Not a loop without an end, and with `P` of its value if it has one.
abbrev pub Settles {ℓ} : {E : Type 0} {A : Type ℓ} → Result E A → (A → Type 0) → Type 0
Settles (ok a) P = P a
Settles (err e) P = Unit {0}
Settles panic P = Unit {0}
Settles running P = ⊥

-- Nothing is asked of the value.
abbrev pub Any {ℓ} : {A : Type ℓ} → A → Type 0
Any a = Unit {0}

module _ {E : Type 0} where
  pub >>=-Settles {ℓ κ} :
      {A : Type ℓ} {B : Type κ} (P : A → Type 0) (Q : B → Type 0) (m : Result E A)
      (f : A → Result E B)
      → Settles m P
      → ((a : A) → P a → Settles (f a) Q)
      → Settles (m >>= f) Q
  >>=-Settles P Q (ok a) f h next = next a h
  >>=-Settles P Q (err e) f h next = tt
  >>=-Settles P Q panic f h next = tt
  >>=-Settles P Q running f h next = absurd h

  pub map_err-Settles {ℓ} :
      {F : Type 0} {A : Type ℓ} (P : A → Type 0) (f : E → F) (m : Result E A)
      → Settles m P
      → Settles (map_err f m) P
  map_err-Settles P f (ok a) h = h
  map_err-Settles P f (err e) h = tt
  map_err-Settles P f panic h = tt
  map_err-Settles P f running h = h

  pub Settles-ne_running {ℓ} :
      {A : Type ℓ} (P : A → Type 0) (m : Result E A) → Settles m P → m ≢ running
  Settles-ne_running P (ok a) h = cc
  Settles-ne_running P (err e) h = cc
  Settles-ne_running P panic h = cc
  Settles-ne_running P running h = absurd h
