-- ===== src/Tests/Http.antt =====
-- The words of the protocol, the headers and the status codes at small inputs.
use wruster.Base.{ℕ, ◌≡◌, ◌≢◌, ◌↔◌, refl, none, [], ◌∷◌, ◌++◌, All, arith, codes}
use wruster.Http.Error.{ok, panic, running}
use wruster.Http.Header.Line.{IsWritable}
use wruster.Http.Header.Parse.{crlf, IsToken, parse_header_line-panics}
use wruster.Http.Header.Unfinished.{read_from-end_of_stream}
use wruster.Http.Chars.{
  is_valid_token_char, is_ascii, is_ascii_alphanumeric, to_ascii_uppercase, is_valid_field_content,
  is_valid_vchar, is_optional_white_space,
}
use wruster.Http.Header.{
  skip_white_space, Header, normalize_header_name, parse_header_line, read_from, write,
}
use wruster.Http.Io.{Output, takes, write_all}
use wruster.Http.Status.{not_found, extension_code, from_usize}

not_found-standard :
    (code : ℕ) → not_found ≡ extension_code code → from_usize code ≡ extension_code code
not_found-standard code e = cc

abbrev host : Header
host = record { name = codes "Host"; value = codes "a.b" }

host-IsWritable : IsWritable host
unfolding is_valid_token_char is_ascii is_ascii_alphanumeric normalize_header_name skip_white_space
    to_ascii_uppercase is_valid_field_content is_valid_vchar is_optional_white_space
host-IsWritable = record {
  name_token = ground arith;
  name_ne_nil = ground arith;
  name_normal = refl;
  value_text = ground arith;
  value_starts = refl;
}

-- A writer that takes three bytes at first.
abbrev slow : Output
slow = record { written = codes "x"; calls = takes 3 ∷ [] }

abbrev slow_written : Output
slow_written = record { written = codes "xHost: a.b\r\n"; calls = [] }

write-slow : write host slow ≡ ok slow_written
unfolding write write_all
write-slow = refl

parse_header_line-panics_example :
    (parse_header_line (codes "Host" ++ crlf) ≡ panic) ↔ IsToken (codes "Host")
parse_header_line-panics_example = parse_header_line-panics b'H' (codes "ost")

unfinished_line : All (λ c. c ≢ b'\n') (codes "Host: a")
unfinished_line = ground arith

read_from-end_of_stream_example :
    read_from 9 (record { unread = codes "Host: a"; ending = none }) ≡ running
read_from-end_of_stream_example = read_from-end_of_stream 9 (codes "Host: a") unfinished_line
