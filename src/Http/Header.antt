-- ===== src/Http/Header.antt =====
-- wruster/src/http/headers.rs: `Header`, read from a line and written to one.
pub mod Normalize
pub mod Parse
pub mod Line
pub mod Unfinished
use wruster.Base.{
  ℕ, zero, suc, ◌-◌, Bool, true, false, ◌&&◌, ◌||◌, Option, none, some, List, [], ◌∷◌, ◌++◌, Bytes,
  ◌==◌, ltb, if◌then◌else◌, length, take, codes, equal,
}
use wruster.Http.Chars.{
  is_valid_token_char, is_valid_field_content, is_optional_white_space, is_ascii_alphanumeric,
  to_ascii_uppercase, utf8,
}
use wruster.Http.Error.{
  HttpError, invalid_request, unknown, IoError, of_io, Result, ok, err, panic, running, ◌>>=◌,
  map_err, HttpResult,
}
use wruster.Http.Io.{Input, read_until, Output, write_all}

pub record Header : Type 0 where
  pub name : Bytes
  pub value : Bytes

-- The loop of `normalize_header_name`; the flag is `next_alfanum_upper`.
abbrev pub next_flag : Bool → ℕ → Bool
next_flag next_upper c =
    if is_ascii_alphanumeric c && next_upper
    then false
    else if c == b' ' || c == b'-'
    then true
    else next_upper

unfoldable pub normalize_from : Bool → Bytes → Bytes
normalize_from next_upper [] = []
normalize_from next_upper (c ∷ cs) =
    (if is_ascii_alphanumeric c && next_upper then to_ascii_uppercase c else c)
    ∷ normalize_from (next_flag next_upper c) cs

unfoldable pub normalize_header_name : Bytes → Bytes
unfolding normalize_from
normalize_header_name = normalize_from true

-- while i < line.len(): the token at the front of the line, and what is left.
unfoldable pub token : Bytes → Bytes × Bytes
token [] = ([], [])
token (c ∷ cs) =
    let (name, rest) = token cs in if is_valid_token_char c then (c ∷ name, rest) else ([], c ∷ cs)

unfoldable pub skip_white_space : Bytes → Bytes
skip_white_space [] = []
skip_white_space (c ∷ cs) =
    let rest = skip_white_space cs in if is_optional_white_space c then rest else c ∷ cs

-- The characters of the value, pushed onto a string; `none` on one that is not allowed.
unfoldable pub field_value : Bytes → Option Bytes
field_value [] = some []
field_value (c ∷ cs) =
    let rest = field_value cs in
    if is_valid_field_content c
    then elim rest [ none ↦ none | some value ↦ some (utf8 c ++ value) ]
    else none

abbrev pub invalid_name_line : HttpError
invalid_name_line = invalid_request (codes "invalid header name line")

abbrev pub invalid_value_line : HttpError
invalid_value_line = invalid_request (codes "invalid header name value")

-- Behind the colon.
unfoldable pub parse_value : Bytes → Bytes → HttpResult (Option Header)
parse_value name [] = err invalid_value_line
parse_value name (c ∷ cs) = elim (field_value (skip_white_space (c ∷ cs))) [
  | none ↦ err invalid_value_line
  | some value ↦ ok (some (record { name = normalize_header_name name; value = value }))
]

-- Behind the name. `line[i]` is out of range where the name is the whole line.
unfoldable pub parse_name : Bytes → Bytes → HttpResult (Option Header)
parse_name [] rest = err invalid_name_line
parse_name (n ∷ name) [] = panic
parse_name (n ∷ name) (c ∷ cs) =
    if c == b':' then parse_value (n ∷ name) cs else err invalid_name_line

-- `Header::parse_header_line`; `none` is the empty line.
unfoldable pub parse_header_line : Bytes → HttpResult (Option Header)
parse_header_line line =
    if ltb (length line) 2
    then panic
    else if length line == 2
    then ok none
    else let (name, rest) = token (take (length line - 2) line) in parse_name name rest

unfoldable pub ends_with_crlf : Bytes → Bool
ends_with_crlf [] = false
ends_with_crlf (c ∷ []) = false
ends_with_crlf (c ∷ d ∷ []) = c == b'\r' && d == b'\n'
ends_with_crlf (c ∷ d ∷ e ∷ cs) = ends_with_crlf (d ∷ e ∷ cs)

-- The loop of `Header::read_from`, one chunk a round.
unfoldable pub read_line : ℕ → Bytes → Input → HttpResult (Bytes × Input)
read_line zero line from = running
read_line (suc fuel) line from = map_err of_io (read_until b'\n' from) >>= λ (chunk, rest).
    let line' = line ++ chunk in
    let again = read_line fuel line' rest in
    if ends_with_crlf line' then ok (line', rest) else again

-- `Header::read_from`
unfoldable pub read_from : ℕ → Input → HttpResult (Option Header × Input)
read_from fuel from = do
  (line, rest) ← read_line fuel [] from
  header ← parse_header_line line
  ok (header, rest)

abbrev pub of_write_error : IoError → HttpError
of_write_error e = unknown e.message

-- `Header::write`
unfoldable pub write : Header → Output → HttpResult Output
write h to = do
  to ← map_err of_write_error (write_all to h.name)
  to ← map_err of_write_error (write_all to (codes ": "))
  to ← map_err of_write_error (write_all to h.value)
  map_err of_write_error (write_all to (codes "\r\n"))
