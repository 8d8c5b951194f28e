-- ===== src/Http/ResponseLine/RoundTrip.antt =====
-- The status line of a standard status is read back.
use wruster.Base.{ℕ, ◌≡◌, ◌≢◌, refl, Option, [], ◌++◌, Bytes, codes, equal}
use wruster.Base.Decimal.{
  decimal, decimal_fuel, is_digit, parse_digits, parse_error, parse_unsigned, parse_usize,
}
use wruster.Base.Utf8.{
  decode, first_byte, next_byte, space_width, trim_rev, trim_end, from_utf8_lossy,
}
use wruster.Http.Error.{IoError, ok}
use wruster.Http.Io.{until, read_until, write as write_to, write_call}
use wruster.Http.ResponseLine.{
  HttpResponseLine, split_at, validate_number, validate_digits, validate_parts, validate_version,
  parse_version, parsed_code, parse_code, parse_reason, read_from, line_of, write,
}
use wruster.Http.Status.{
  StatusCode, extension_code, continue, to_string, reason, to_usize, arms, first_arm, from_usize,
}

abbrev pub IsStandard : StatusCode → Type 0
IsStandard s = (code : ℕ) → s ≢ extension_code code

-- The status line that a response with this status has.
abbrev pub status_line : StatusCode → HttpResponseLine
status_line s = record {
  http_version = codes "HTTP/1.1";
  status_code = s;
  reason_phrase = reason s;
}

-- The line of a standard status, at the front of an input, is read as that status, with its reason
-- and the version 1.1; the rest of the input stays unread.
pub read_from-status_line :
    (s : StatusCode) (rest : Bytes) (ending : Option IoError)
    → IsStandard s
    → read_from (record { unread = line_of (status_line s) ++ rest; ending = ending })
      ≡ ok (status_line s, record { unread = rest; ending = ending })
unfolding line_of read_from read_until parse_version validate_version validate_parts split_at
    trim_end from_utf8_lossy equal validate_digits validate_number parse_unsigned to_string decimal
    to_usize parse_code parsed_code parse_usize decimal_fuel is_digit parse_digits parse_error
    decode first_byte next_byte space_width trim_rev until parse_reason arms first_arm from_usize
    reason
read_from-status_line (extension_code code) rest ending h = absurd (h code refl)
read_from-status_line continue rest ending h = refl
read_from-status_line _ rest ending h = refl

pub write-reliable :
    (l : HttpResponseLine) (written : Bytes)
    → write l (record { written = written; calls = [] })
      ≡ ok (record { written = written ++ line_of l; calls = [] })
unfolding write write_to write_call
write-reliable l written = refl
