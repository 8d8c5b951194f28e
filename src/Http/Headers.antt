-- ===== src/Http/Headers.antt =====
-- wruster/src/http/headers.rs: `Headers`. The hash map is an association list from names to values;
-- its order stands for the order in which the map is iterated, which the source leaves open.
pub mod Lookup
pub mod Stream
use wruster.Base.{
  ℕ, zero, suc, Option, none, some, List, [], ◌∷◌, ◌++◌, Bytes, equal, if◌then◌else◌, codes,
}
use wruster.Http.Error.{HttpResult, ok, running, map_err, ◌>>=◌}
use wruster.Http.Header
use wruster.Http.Header.{Header, of_write_error}
use wruster.Http.Io.{Input, Output, write_all}

abbrev pub Headers : Type 0
Headers = List (Bytes × List Bytes)

unfoldable pub new : Headers
new = []

-- `self.headers.entry(name).or_default().push(value)`
unfoldable pub push_value : Headers → Bytes → Bytes → Headers
push_value [] name value = (name, value ∷ []) ∷ []
push_value ((n, vs) ∷ hs) name value =
    let rest = push_value hs name value in
    if equal n name then (n, vs ++ value ∷ []) ∷ hs else (n, vs) ∷ rest

unfoldable pub add : Headers → Header → Headers
add hs h = push_value hs h.name h.value

unfoldable pub get : Headers → Bytes → Option (List Bytes)
get [] name = none
get ((n, vs) ∷ hs) name = if equal n name then some vs else get hs name

-- The loop of `Headers::read_from`; `lines` is the fuel of the loop that reads one line.
unfoldable pub read_headers : ℕ → ℕ → Headers → Input → HttpResult (Headers × Input)
read_headers lines zero headers from = running
read_headers lines (suc fuel) headers from = Header.read_from lines from >>= λ (header, rest).
    elim header [
      | none ↦ ok (headers, rest)
      | some h ↦ read_headers lines fuel (add headers h) rest
    ]

unfoldable pub read_from : ℕ → ℕ → Input → HttpResult (Headers × Input)
read_from lines fuel from = read_headers lines fuel new from

unfoldable pub write_values : Bytes → List Bytes → Output → HttpResult Output
write_values name [] to = ok to
write_values name (value ∷ values) to =
    Header.write (record { name = name; value = value }) to >>= write_values name values

unfoldable pub write_entries : Headers → Output → HttpResult Output
write_entries [] to = ok to
write_entries ((name, values) ∷ hs) to = write_values name values to >>= write_entries hs

-- `Headers::write`
unfoldable pub write : Headers → Output → HttpResult Output
write hs to = write_entries hs to >>= λ to. map_err of_write_error (write_all to (codes "\r\n"))
